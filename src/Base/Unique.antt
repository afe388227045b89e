-- ===== src/Base/Unique.antt =====
-- The loop that keeps the first element of each key, with the set of the keys seen so far.
use mathlib.Core.Path.{◌≡◌, refl, ◌∙◌}
use mathlib.Core.List.{List, [], ◌∷◌}
use mathlib.Core.Bool.{Bool, true, false}
use mathlib.Core.Logic.{◌≢◌, inl, inr}
use mathlib.Core.Option.{Option, none, some}
use native.Mathlib.Omega.{arith}
use solid_attention.Base.Tests.{if◌then◌else◌, Bool-cases}
use solid_attention.Base.Lists.{All, AllPairs, Any}

module _ {ℓ κ} {K : Type ℓ} {A : Type κ} (dec : Discrete K) (key : A → K) where
  -- `k in seen`
  unfoldable pub mem : K → List K → Bool
  mem k [] = false
  mem k (j ∷ seen) = let rest = mem k seen in elim (dec k j) [ yes _ ↦ true | no _ ↦ rest ]

  unfoldable pub dedupe_from : List K → List A → List A
  unfolding mem
  dedupe_from seen [] = []
  dedupe_from seen (x ∷ xs) =
      let again = dedupe_from seen xs in
      let rest = dedupe_from (key x ∷ seen) xs in if mem (key x) seen then again else x ∷ rest

  unfoldable pub dedupe : List A → List A
  unfolding dedupe_from
  dedupe = dedupe_from []

  -- The first element with the key.
  unfoldable pub find : K → List A → Option A
  find k [] = none
  find k (x ∷ xs) = let rest = find k xs in elim (dec k (key x)) [ yes _ ↦ some x | no _ ↦ rest ]

  dedupe_from-All {μ} :
      (P : A → Type μ) (seen : List K) (xs : List A) → All P xs → All P (dedupe_from seen xs)
  unfolding dedupe_from
  dedupe_from-All P seen [] h = tt
  dedupe_from-All P seen (x ∷ xs) h = elim (Bool-cases (mem (key x) seen)) [
    | inl old ↦ rw old (dedupe_from-All P seen xs h.1)
    | inr new ↦ rw new (h.0, dedupe_from-All P (key x ∷ seen) xs h.1)
  ]

  find-dedupe_from :
      (k : K) (seen : List K) (xs : List A)
      → find k (dedupe_from seen xs) ≡ (if mem k seen then none else find k xs)
  unfolding find dedupe_from
  find-dedupe_from k seen [] = ground arith
  find-dedupe_from k seen (x ∷ xs) =
      ground (arith, find-dedupe_from k seen xs, find-dedupe_from k (key x ∷ seen) xs)

  -- The first element of each key is kept, and no key is lost or added.
  pub find-dedupe : (k : K) (xs : List A) → find k (dedupe xs) ≡ find k xs
  unfolding dedupe mem
  find-dedupe k xs = find-dedupe_from k [] xs

  mem_self : (k : K) (seen : List K) → mem k (k ∷ seen) ≡ true
  unfolding mem
  mem_self k seen = ground arith

  mem_later : (k j : K) (seen : List K) → mem k seen ≡ true → mem k (j ∷ seen) ≡ true
  unfolding mem
  mem_later k j seen h = ground arith

  dedupe_from-fresh :
      (k : K) (seen : List K) (xs : List A)
      → mem k seen ≡ true
      → All (λ x. k ≢ key x) (dedupe_from seen xs)
  unfolding dedupe_from
  dedupe_from-fresh k seen [] h = tt
  dedupe_from-fresh k seen (x ∷ xs) h = elim (Bool-cases (mem (key x) seen)) [
    | inl old ↦ rw old (dedupe_from-fresh k seen xs h)
    | inr new ↦ rw new (λ e. cc, dedupe_from-fresh k (key x ∷ seen) xs (mem_later k (key x) seen h))
  ]

  dedupe_from-distinct :
      (seen : List K) (xs : List A) → AllPairs (λ x y. key x ≢ key y) (dedupe_from seen xs)
  unfolding dedupe_from
  dedupe_from-distinct seen [] = tt
  dedupe_from-distinct seen (x ∷ xs) = elim (Bool-cases (mem (key x) seen)) [
    | inl old ↦ rw old (dedupe_from-distinct seen xs)
    | inr new ↦ rw new (
      dedupe_from-fresh (key x) (key x ∷ seen) xs (mem_self (key x) seen),
      dedupe_from-distinct (key x ∷ seen) xs,
    )
  ]

  -- Whatever holds of every element holds of every element that is kept.
  pub dedupe-All {μ} : (P : A → Type μ) (xs : List A) → All P xs → All P (dedupe xs)
  unfolding dedupe
  dedupe-All P = dedupe_from-All P []

  -- No two elements of the result share a key.
  pub dedupe-distinct : (xs : List A) → AllPairs (λ x y. key x ≢ key y) (dedupe xs)
  unfolding dedupe
  dedupe-distinct xs = dedupe_from-distinct [] xs

module _ {κ} {K : Type 0} {A : Type κ} (dec : Discrete K) (key : A → K) where
  Any-find :
      (k : K) (xs : List A) → Any (λ x. k ≡ key x) xs → (x : A) × (find dec key k xs ≡ some x)
  unfolding find
  Any-find k [] h = absurd h
  Any-find k (x ∷ xs) (inl e) = (x, ground arith)
  Any-find k (x ∷ xs) (inr h) =
      elim (dec k (key x))
        as (λ q. (y : A) × (elim q [ yes _ ↦ some x | no _ ↦ find dec key k xs ] ≡ some y)) [
          | yes _ ↦ (x, refl)
          | no _ ↦ Any-find k xs h
        ]

  find-Any : (k : K) (xs : List A) (x : A) → find dec key k xs ≡ some x → Any (λ y. k ≡ key y) xs
  unfolding find
  find-Any k [] x h = cc
  find-Any k (y ∷ xs) x h = elim (dec k (key y)) [
    | yes e ↦ inl e
    | no n ↦ inr (find-Any k xs x (ground arith))
  ]

  -- A key that some element has is kept.
  pub dedupe-Any :
      (k : K) (xs : List A) → Any (λ x. k ≡ key x) xs → Any (λ x. k ≡ key x) (dedupe dec key xs)
  dedupe-Any k xs h =
      let (x, found) = Any-find k xs h in
      find-Any k (dedupe dec key xs) x (find-dedupe dec key k xs ∙ found)
