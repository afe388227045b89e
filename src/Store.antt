-- ===== src/Store.antt =====
-- core/block_store.py: blocks by key, with their simulated location.
pub mod Moves
pub mod Stats
pub mod Held
pub mod Placed
use solid_attention.Base.{
  ℕ, ◌+◌, String, Bool, true, false, not, ◌&&◌, ◌||◌, Option, none, some, List, [], ◌∷◌, ◌==◌, ltb,
  if◌then◌else◌, Result, ok, err, key_error, filter_by, sum_by,
}
use solid_attention.Base.Dict.{Dict, get, contains, set, values}
use solid_attention.Base.Sort.{sorted}
use solid_attention.Block.{
  BlockLocation, ssd, dram, vram, same_location, block_location, KvBlock, BlockKey, key,
  key_discrete, move_to,
}
use solid_attention.World.{
  Ref, World, Action, pure, raise, gets, lift, modify, deref, mutate, ◌>>=◌, ◌>>◌,
}

-- `(a, b) < (c, d)`
abbrev pub key_lt : BlockKey → BlockKey → Bool
key_lt (a, b) (c, d) = ltb a c || (a == c && ltb b d)

-- `BlockLocation(location) if location is not None else None`
unfoldable pub normalize_location : Option String → Result (Option BlockLocation)
normalize_location none = ok none
normalize_location (some s) = elim (block_location s) [ ok l ↦ ok (some l) | err e ↦ err e ]

module _ {Fl : Type 0} where
  unfoldable pub add_block : Ref → Action Fl (Unit {0})
  add_block r = do
    b ← deref r
    known ← gets (λ w. contains key_discrete (key b) w.blocks)
    if known
        then raise (key_error "block already exists")
        else modify (λ w. record w { blocks = set key_discrete (key b) r w.blocks })

  unfoldable pub upsert_block : Ref → Action Fl Ref
  upsert_block r = do
    b ← deref r
    modify (λ w. record w { blocks = set key_discrete (key b) r w.blocks })
    pure r

  abbrev pub has_block : ℕ → ℕ → World Fl → Bool
  has_block layer_id block_id w = contains key_discrete (layer_id, block_id) w.blocks

  -- The `try` around the dictionary's own `KeyError`.
  unfoldable pub get_block : ℕ → ℕ → Action Fl Ref
  get_block layer_id block_id w = elim (get key_discrete (layer_id, block_id) w.blocks) [
    | none ↦ (err (key_error "unknown block"), w)
    | some r ↦ (ok r, w)
  ]

  unfoldable pub move_block : ℕ → ℕ → String → Action Fl Ref
  unfolding get_block
  move_block layer_id block_id target = do
    r ← get_block layer_id block_id
    location ← lift (block_location target)
    mutate r (move_to location)
    pure r

  -- The tests of the loop of `list_blocks`: what is not asked for is not tested.
  unfoldable pub is_listed : Option ℕ → Option BlockLocation → KvBlock Fl → Bool
  is_listed layer_id location b =
      elim layer_id [ none ↦ true | some l ↦ b.layer_id == l ]
      && elim location [ none ↦ true | some l ↦ same_location b.location l ]

  abbrev pub by_key : World Fl → Ref → Ref → Bool
  by_key w p q = key_lt (key (w.heap p)) (key (w.heap q))

  unfoldable pub list_blocks : Option ℕ → Option String → Action Fl (List Ref)
  unfolding is_listed normalize_location
  list_blocks layer_id location = do
    normalized ← lift (normalize_location location)
    gets λ w.
        sorted (by_key w)
          (filter_by (λ r. is_listed layer_id normalized (w.heap r)) (values w.blocks))

pub record LocationStats : Type 0 where
  pub block_count : ℕ
  pub size_bytes : ℕ

-- The dictionary that `location_stats` returns, one entry for each location.
pub record StoreStats : Type 0 where
  pub in_ssd : LocationStats
  pub in_dram : LocationStats
  pub in_vram : LocationStats

abbrev pub entry : BlockLocation → StoreStats → LocationStats
entry ssd s = s.in_ssd
entry dram s = s.in_dram
entry vram s = s.in_vram

unfoldable pub count_size : ℕ → LocationStats → LocationStats
count_size n s = record { block_count = s.block_count + 1; size_bytes = s.size_bytes + n }

-- `entry["block_count"] += 1; entry["size_bytes"] += ...`
unfoldable pub count_at : BlockLocation → ℕ → StoreStats → StoreStats
unfolding count_size
count_at ssd n s = record s { in_ssd = count_size n s.in_ssd }
count_at dram n s = record s { in_dram = count_size n s.in_dram }
count_at vram n s = record s { in_vram = count_size n s.in_vram }

abbrev pub no_stats : StoreStats
no_stats =
    let zero_stats : LocationStats = record { block_count = 0; size_bytes = 0 } in
    record { in_ssd = zero_stats; in_dram = zero_stats; in_vram = zero_stats }

module _ {Fl : Type 0} where
  unfoldable pub stats_loop : (Ref → KvBlock Fl) → List Ref → StoreStats → StoreStats
  unfolding count_at
  stats_loop heap [] s = s
  stats_loop heap (r ∷ rs) s = stats_loop heap rs (count_at (heap r).location (heap r).size_bytes s)

  unfoldable pub location_stats : World Fl → StoreStats
  unfolding stats_loop
  location_stats w = stats_loop w.heap (values w.blocks) no_stats

  unfoldable pub total_size_bytes : Option String → Action Fl ℕ
  unfolding list_blocks
  total_size_bytes location = do
    rs ← list_blocks none location
    gets λ w. sum_by (λ r. (w.heap r).size_bytes) rs

  -- `make_store`, over a store that is still empty.
  unfoldable pub make_store : List Ref → Action Fl (Unit {0})
  unfolding add_block
  make_store [] = pure tt
  make_store (r ∷ rs) = do add_block r; make_store rs
