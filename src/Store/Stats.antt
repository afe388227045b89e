-- ===== src/Store/Stats.antt =====
-- core/block_store.py: the listing of blocks and the residency statistics agree.
use solid_attention.Base.{
  ℕ, ◌+◌, ◌≡◌, refl, ap, ◌∙◌, Bool, true, false, none, some, List, [], ◌∷◌, ok, arith, filter_by,
  sum_by, length, if◌then◌else◌,
}
use solid_attention.Base.Dict.{values}
use solid_attention.Base.Sort.{
  sorted, IsSorted, sorted-IsSorted, sorted-sum_by, length-sorted, sorted-perm,
}
use mathlib.Core.List.{Perm}
use solid_attention.Block.{
  BlockLocation, KvBlock, BlockKey, key, same_location, location_value, block_location,
}
use solid_attention.World.{Ref, World}
use solid_attention.Store.{
  key_lt, by_key, list_blocks, entry, StoreStats, count_at, count_size, stats_loop, location_stats,
  total_size_bytes, no_stats,
}

pub key_lt_asym : (a b : BlockKey) → key_lt a b ≡ true → key_lt b a ≡ false
key_lt_asym a b h = ground arith

pub key_lt_trans : (a b c : BlockKey) → key_lt b a ≡ false → key_lt c b ≡ false → key_lt c a ≡ false
key_lt_trans a b c h k = ground arith

no_stats-entry :
    (l : BlockLocation) → ((entry l no_stats).size_bytes ≡ 0) × ((entry l no_stats).block_count ≡ 0)
no_stats-entry BlockLocation.ssd = (refl, refl)
no_stats-entry _ = (refl, refl)

filter_by-true : (rs : List Ref) → filter_by (λ r. true) rs ≡ rs
filter_by-true [] = refl
filter_by-true (r ∷ rs) = ap (◌∷◌ r) (filter_by-true rs)

module _ {Fl : Type 0} where
  abbrev size_of : World Fl → Ref → ℕ
  size_of w r = (w.heap r).size_bytes

  -- The stored references whose blocks are at the location, in insertion order.
  abbrev pub residents : World Fl → BlockLocation → List Ref
  residents w l = filter_by (λ r. same_location (w.heap r).location l) (values w.blocks)

  list_blocks_at :
      (l : BlockLocation) (w : World Fl)
      → list_blocks none (some (location_value l)) w ≡ (ok (sorted (by_key w) (residents w l)), w)
  unfolding list_blocks location_value block_location
  list_blocks_at BlockLocation.ssd w = refl
  list_blocks_at _ w = refl

  -- `list_blocks(location=...)` returns exactly the stored blocks at the location, by key.
  pub list_blocks-IsSorted :
      (l : BlockLocation) (w : World Fl)
      → (rs : List Ref) × (list_blocks none (some (location_value l)) w ≡ (ok rs, w))
        × Perm rs (residents w l)
        × IsSorted (λ p q. key_lt (key (w.heap p)) (key (w.heap q))) rs
  list_blocks-IsSorted l w = (
    sorted (by_key w) (residents w l),
    list_blocks_at l w,
    sorted-perm (by_key w) _,
    sorted-IsSorted (by_key w) (λ p q. key_lt_asym (key (w.heap p)) (key (w.heap q)))
        (λ p q r. key_lt_trans (key (w.heap p)) (key (w.heap q)) (key (w.heap r))) _,
  )

  module _ (heap : Ref → KvBlock Fl) (l : BlockLocation) where
    abbrev at_location : Ref → Bool
    at_location r = same_location (heap r).location l

    count_at-entry :
        (m : BlockLocation) (n : ℕ) (s : StoreStats)
        → entry l (count_at m n s)
          ≡ (if same_location m l then count_size n (entry l s) else entry l s)
    unfolding count_at
    count_at-entry m n s = ground arith

    stats_loop-entry :
        (rs : List Ref) (s : StoreStats)
        → ((entry l (stats_loop heap rs s)).size_bytes
            ≡ (entry l s).size_bytes + sum_by (λ r. (heap r).size_bytes) (filter_by at_location rs))
          × ((entry l (stats_loop heap rs s)).block_count
              ≡ (entry l s).block_count + length (filter_by at_location rs))
    unfolding stats_loop count_size
    stats_loop-entry [] s = omega arith
    stats_loop-entry (r ∷ rs) s =
        let m = (heap r).location in
        let n = (heap r).size_bytes in
        ground (arith, count_at-entry m n s, stats_loop-entry rs (count_at m n s))

  total_size_at :
      (l : BlockLocation) (w : World Fl)
      → total_size_bytes (some (location_value l)) w
        ≡ (ok (sum_by (size_of w) (sorted (by_key w) (residents w l))), w)
  unfolding total_size_bytes location_value block_location
  total_size_at BlockLocation.ssd w = refl
  total_size_at _ w = refl

  -- Each block is at one location.
  shared_out :
      (heap : Ref → KvBlock Fl) (rs : List Ref)
      → (sum_by (λ r. (heap r).size_bytes) rs
          ≡ sum_by (λ r. (heap r).size_bytes) (filter_by (at_location heap BlockLocation.ssd) rs)
            + sum_by (λ r. (heap r).size_bytes) (filter_by (at_location heap BlockLocation.dram) rs)
            + sum_by
                (λ r. (heap r).size_bytes)
                (filter_by (at_location heap BlockLocation.vram) rs))
        × (length rs
            ≡ length (filter_by (at_location heap BlockLocation.ssd) rs)
              + length (filter_by (at_location heap BlockLocation.dram) rs)
              + length (filter_by (at_location heap BlockLocation.vram) rs))
  shared_out heap [] = omega arith
  shared_out heap (r ∷ rs) = ground (arith, shared_out heap rs)

  -- `location_stats` counts what `list_blocks` lists and adds up what `total_size_bytes` returns.
  pub location_stats-agrees :
      (l : BlockLocation) (w : World Fl)
      → (rs : List Ref) × (list_blocks none (some (location_value l)) w ≡ (ok rs, w))
        × (length rs ≡ (entry l (location_stats w)).block_count)
        × (total_size_bytes (some (location_value l)) w
            ≡ (ok (entry l (location_stats w)).size_bytes, w))
  unfolding location_stats
  location_stats-agrees l w =
      let counted = stats_loop-entry w.heap l (values w.blocks) no_stats in
      let start = no_stats-entry l in
      (
        sorted (by_key w) (residents w l),
        list_blocks_at l w,
        omega (arith, length-sorted (by_key w) (residents w l)),
        total_size_at l w
            ∙ ap (λ n. (ok n, w))
                (sorted-sum_by (by_key w) (size_of w) (residents w l) ∙ omega arith),
      )

  -- The three locations of `location_stats` share out all the blocks of the store and their bytes.
  pub location_stats_total :
      (w : World Fl)
      → let s = location_stats w in
        (total_size_bytes none w
          ≡ (ok (s.in_ssd.size_bytes + s.in_dram.size_bytes + s.in_vram.size_bytes), w))
        × (length (values w.blocks)
            ≡ s.in_ssd.block_count + s.in_dram.block_count + s.in_vram.block_count)
  unfolding location_stats total_size_bytes
  location_stats_total w =
      let vs = values w.blocks in
      let in_ssd = stats_loop-entry w.heap BlockLocation.ssd vs no_stats in
      let in_dram = stats_loop-entry w.heap BlockLocation.dram vs no_stats in
      let in_vram = stats_loop-entry w.heap BlockLocation.vram vs no_stats in
      let parts = shared_out w.heap vs in
      (
        ap (λ n. (ok n, w))
            (sorted-sum_by (by_key w) (size_of w) _
              ∙ ap (sum_by (size_of w)) (filter_by-true vs)
              ∙ omega arith),
        omega arith,
      )
