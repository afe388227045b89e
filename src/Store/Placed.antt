-- ===== src/Store/Placed.antt =====
-- core/block_store.py: lists of stored references, and where a loop that moves them leaves them.
use solid_attention.Base.{
  ◌≡◌, refl, Bool, true, false, ◌||◌, none, some, List, [], ◌∷◌, arith, ◌∙◌, ap, sym, All,
  if◌then◌else◌, ◌==◌, ==_iff, Bool-cases, inl, inr, some_inj,
}
use solid_attention.Base.Dict.{get}
use solid_attention.Base.Unique.{dedupe, dedupe-All, find, find-dedupe}
use solid_attention.Block.{BlockLocation, KvBlock, key, key_discrete, move_to}
use solid_attention.Store.Held.{Stored}
use solid_attention.World.{Ref, World, update}

-- `r in refs`
unfoldable pub member : Ref → List Ref → Bool
member r [] = false
member r (q ∷ qs) = r == q || member r qs

module _ {Fl : Type 0} where
  -- The heap after the blocks went to the location.
  abbrev pub moved_heap : BlockLocation → List Ref → (Ref → KvBlock Fl) → Ref → KvBlock Fl
  moved_heap l [] h = h
  moved_heap l (r ∷ rs) h = moved_heap l rs (update r (move_to l (h r)) h)

  -- The references of the list, each key once.
  abbrev pub unique : List Ref → World Fl → List Ref
  unique rs w = dedupe key_discrete (λ r. key (w.heap r)) rs

  pub moved_heap-member :
      (l : BlockLocation) (rs : List Ref) (h : Ref → KvBlock Fl) (q : Ref)
      → moved_heap l rs h q ≡ (if member q rs then move_to l (h q) else h q)
  unfolding member
  moved_heap-member l [] h q = refl
  moved_heap-member l (r ∷ rs) h q =
      ground (arith, moved_heap-member l rs (update r (move_to l (h r)) h) q)

  module _ (w : World Fl) where
    pub member-Stored :
        (q : Ref) (rs : List Ref) → All (Stored w) rs → member q rs ≡ true → Stored w q
    unfolding member
    member-Stored q [] s h = absurd (ground arith)
    member-Stored q (r ∷ rs) s h = elim (Bool-cases (q == r)) [
      | inl here ↦ rw ((==_iff q r).0 here) s.0
      | inr there ↦ member-Stored q rs s.1 (ground arith)
    ]

    -- Two stored references with one key are the same.
    Stored-inj : (q r : Ref) → Stored w q → Stored w r → key (w.heap q) ≡ key (w.heap r) → q ≡ r
    Stored-inj q r sq sr e = some_inj (sym sq ∙ ap (λ k. get key_discrete k w.blocks) e ∙ sr)

    abbrev pub found : Ref → List Ref → Bool
    found q rs = elim (find key_discrete (λ r. key (w.heap r)) (key (w.heap q)) rs) [
      | none ↦ false
      | some _ ↦ true
    ]

    pub member-found :
        (q : Ref) (rs : List Ref) → Stored w q → All (Stored w) rs → member q rs ≡ found q rs
    unfolding member find
    member-found q [] sq s = refl
    member-found q (r ∷ rs) sq s = ground (arith, member-found q rs sq s.1, Stored-inj q r sq s.0)

    pub member-unique :
        (q : Ref) (rs : List Ref) → All (Stored w) rs → member q (unique rs w) ≡ member q rs
    member-unique q rs s =
        let stored = dedupe-All key_discrete (λ r. key (w.heap r)) (Stored w) rs s in
        let same : Stored w q → member q (unique rs w) ≡ member q rs = λ sq.
          member-found q (unique rs w) sq stored
          ∙ ap (λ o. elim o as (λ x. Bool) [ none ↦ false | some _ ↦ true ])
              (find-dedupe key_discrete (λ r. key (w.heap r)) (key (w.heap q)) rs)
          ∙ sym (member-found q rs sq s) in
        elim (Bool-cases (member q rs)) [
          | inl listed ↦ same (member-Stored q rs s listed)
          | inr missing ↦ elim (Bool-cases (member q (unique rs w))) [
            | inl kept ↦ same (member-Stored q (unique rs w) stored kept)
            | inr dropped ↦ dropped ∙ sym missing
          ]
        ]
