-- ===== src/Store/Moves.antt =====
-- core/block_store.py: the invariant of the store under every call that changes it, and what a
-- move does to the block and to all others.
use solid_attention.Base.{
  ℕ, ◌≡◌, refl, ◌∙◌, ◌≢◌, String, Option, none, some, List, [], ◌∷◌, ◌==◌, ==_iff, Error, Result,
  ok, err, key_error, All, All-imp, Bool-cases, Option-cases, Result-cases, inl, inr, arith,
}
use solid_attention.Base.Dict.{get, set, contains, set-All, set-DistinctKeys, DistinctKeys}
use solid_attention.Block.{BlockLocation, block_location, KvBlock, key, key_discrete, move_to}
use solid_attention.World.{Ref, World, update}
use solid_attention.Store.{add_block, upsert_block, move_block}

-- Every entry stands under the key of its block, and no key twice.
pub record IsConsistent {Fl : Type 0} (w : World Fl) : Type 0 where
  pub keyed : All (λ e. key (w.heap e.1) ≡ e.0) w.blocks
  pub distinct : DistinctKeys key_discrete w.blocks

-- The calls that change a store.
pub data StoreCall : Type 0 where
  add upsert : Ref → StoreCall
  move : ℕ → ℕ → String → StoreCall

module _ {Fl : Type 0} where
  -- The world after a call, whether it returned or raised.
  unfoldable pub after_call : StoreCall → World Fl → World Fl
  after_call (StoreCall.add r) w = (add_block r w).1
  after_call (StoreCall.upsert r) w = (upsert_block r w).1
  after_call (StoreCall.move l b target) w = (move_block l b target w).1

  unfoldable pub after_calls : List StoreCall → World Fl → World Fl
  unfolding after_call
  after_calls [] w = w
  after_calls (c ∷ cs) w = after_calls cs (after_call c w)

  pub put-IsConsistent :
      (r : Ref) (w : World Fl)
      → IsConsistent w
      → IsConsistent (record w { blocks = set key_discrete (key (w.heap r)) r w.blocks })
  put-IsConsistent r w c = record {
    keyed = set-All key_discrete _ (key (w.heap r)) r w.blocks (λ j e. e) c.keyed;
    distinct = set-DistinctKeys key_discrete (key (w.heap r)) r w.blocks c.distinct;
  }

  -- A block that moves keeps its key.
  pub key-update_move :
      (l : BlockLocation) (r q : Ref) (heap : Ref → KvBlock Fl)
      → key (update r (move_to l (heap r)) heap q) ≡ key (heap q)
  key-update_move l r q heap = elim (Bool-cases (q == r)) [
    | inl same ↦ rw (same, (==_iff q r).0 same)
    | inr other ↦ rw other
  ]

  pub move-IsConsistent :
      (l : BlockLocation) (r : Ref) (w : World Fl)
      → IsConsistent w
      → IsConsistent (record w { heap = update r (move_to l (w.heap r)) w.heap })
  move-IsConsistent l r w c = record {
    keyed = All-imp _ _ (λ e k. key-update_move l r e.1 w.heap ∙ k) w.blocks c.keyed;
    distinct = c.distinct;
  }

  add_block-IsConsistent :
      (r : Ref) (w : World Fl) → IsConsistent w → IsConsistent (add_block r w).1
  unfolding add_block
  add_block-IsConsistent r w c =
      elim (Bool-cases (contains key_discrete (key (w.heap r)) w.blocks)) [
        | inl old ↦ rw old c
        | inr new ↦ rw new (put-IsConsistent r w c)
      ]

  module _ (l b : ℕ) (target : String) (w : World Fl) where
    pub move_block_unknown :
        get key_discrete (l, b) w.blocks ≡ none
        → move_block l b target w ≡ (err (key_error "unknown block"), w)
    unfolding move_block
    move_block_unknown h = ground arith

    pub move_block_invalid :
        (r : Ref) (e : Error)
        → get key_discrete (l, b) w.blocks ≡ some r
        → block_location target ≡ err e
        → move_block l b target w ≡ (err e, w)
    unfolding move_block
    move_block_invalid r e h k = ground arith

    pub move_block_moves :
        (r : Ref) (location : BlockLocation)
        → get key_discrete (l, b) w.blocks ≡ some r
        → block_location target ≡ ok location
        → move_block l b target w
          ≡ (ok r, record w { heap = update r (move_to location (w.heap r)) w.heap })
    unfolding move_block
    move_block_moves r location h k = ground arith

  move_block-IsConsistent :
      (l b : ℕ) (target : String) (w : World Fl)
      → IsConsistent w
      → IsConsistent (move_block l b target w).1
  move_block-IsConsistent l b target w c = elim (Option-cases (get key_discrete (l, b) w.blocks)) [
    | inl unknown ↦ rw (move_block_unknown l b target w unknown) c
    | inr (r, found) ↦ elim (Result-cases (block_location target)) [
      | inl (location, valid) ↦
          rw (move_block_moves l b target w r location found valid)
            (move-IsConsistent location r w c)
      | inr (e, invalid) ↦ rw (move_block_invalid l b target w r e found invalid) c
    ]
  ]

  after_call-IsConsistent :
      (c : StoreCall) (w : World Fl) → IsConsistent w → IsConsistent (after_call c w)
  unfolding after_call upsert_block
  after_call-IsConsistent (StoreCall.add r) w h = add_block-IsConsistent r w h
  after_call-IsConsistent (StoreCall.upsert r) w h = put-IsConsistent r w h
  after_call-IsConsistent (StoreCall.move l b target) w h = move_block-IsConsistent l b target w h

  -- A consistent store stays consistent under any sequence of calls, those that raise included.
  pub after_calls-IsConsistent :
      (cs : List StoreCall) (w : World Fl) → IsConsistent w → IsConsistent (after_calls cs w)
  unfolding after_calls
  after_calls-IsConsistent [] w h = h
  after_calls-IsConsistent (c ∷ cs) w h =
      after_calls-IsConsistent cs (after_call c w) (after_call-IsConsistent c w h)

  -- How `move_block` ends, by what is known of the key and of the target.
  abbrev pub MoveOutcome :
      Option Ref → Result BlockLocation → World Fl → Result Ref × World Fl → Type 0
  MoveOutcome none target w out = out ≡ (err (key_error "unknown block"), w)
  MoveOutcome (some r) (err e) w out = out ≡ (err e, w)
  MoveOutcome (some r) (ok location) w out =
      (out.0 ≡ ok r)
      × ((out.1).heap r ≡ record (w.heap r) { location = location })
      × ((q : Ref) → q ≢ r → (out.1).heap q ≡ w.heap q)
      × ((out.1).blocks ≡ w.blocks)
      × ((out.1).trace ≡ w.trace)
      × ((out.1).metrics ≡ w.metrics)

  -- A move of an unknown key or to an unknown location raises and changes nothing; any other
  -- returns the stored block, changes its location, and leaves every other block as it was.
  pub move_block-MoveOutcome :
      (l b : ℕ) (target : String) (w : World Fl)
      → MoveOutcome
          (get key_discrete (l, b) w.blocks)
          (block_location target)
          w
          (move_block l b target w)
  move_block-MoveOutcome l b target w = elim (Option-cases (get key_discrete (l, b) w.blocks)) [
    | inl unknown ↦ rw (unknown, move_block_unknown l b target w unknown) refl
    | inr (r, found) ↦ elim (Result-cases (block_location target)) [
      | inl (location, valid) ↦
          rw (found, valid, move_block_moves l b target w r location found valid)
            (refl, ground arith, (λ q n. ground arith), refl, refl, refl)
      | inr (e, invalid) ↦
          rw (found, invalid, move_block_invalid l b target w r e found invalid) refl
    ]
  ]
