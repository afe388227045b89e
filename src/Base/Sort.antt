-- ===== src/Base/Sort.antt =====
-- `sorted(xs, key=...)`: the stable sort, by a strict test on the keys.
use Prim.Native.Nat.{ℕ, suc, ◌+◌}
use native.Mathlib.Omega.{arith}
use mathlib.Core.Path.{◌≡◌, refl, ap, ◌∙◌}
use mathlib.Core.List.{List, [], ◌∷◌, Perm}
use mathlib.Core.List.Perm
use mathlib.Core.Bool.{Bool, true, false}
use mathlib.Core.Logic.{inl, inr}
use solid_attention.Base.Tests.{if◌then◌else◌, Bool-cases}
use solid_attention.Base.Lists.{All, Any, AllPairs, All-imp, length, sum_by}

module _ {ℓ} {A : Type ℓ} (lt : A → A → Bool) where
  -- An element goes before the first one that it is not greater than.
  unfoldable pub insert : A → List A → List A
  insert x [] = x ∷ []
  insert x (y ∷ ys) = let rest = insert x ys in if lt y x then y ∷ rest else x ∷ y ∷ ys

  unfoldable pub sorted : List A → List A
  unfolding insert
  sorted [] = []
  sorted (x ∷ xs) = insert x (sorted xs)

  insert-perm : (x : A) (ys : List A) → Perm (insert x ys) (x ∷ ys)
  unfolding insert
  insert-perm x [] = Perm.refl _
  insert-perm x (y ∷ ys) = elim (Bool-cases (lt y x)) [
    | inl later ↦ rw later (Perm.trans (Perm.cons y (insert-perm x ys)) (Perm.swap x y ys))
    | inr here ↦ rw here (Perm.refl _)
  ]

  pub sorted-perm : (xs : List A) → Perm (sorted xs) xs
  unfolding sorted
  sorted-perm [] = Perm.refl _
  sorted-perm (x ∷ xs) = Perm.trans (insert-perm x (sorted xs)) (Perm.cons x (sorted-perm xs))

  insert-sum_by : (f : A → ℕ) (x : A) (ys : List A) → sum_by f (insert x ys) ≡ f x + sum_by f ys
  unfolding insert
  insert-sum_by f x [] = refl
  insert-sum_by f x (y ∷ ys) = ground (arith, insert-sum_by f x ys)

  pub sorted-sum_by : (f : A → ℕ) (xs : List A) → sum_by f (sorted xs) ≡ sum_by f xs
  unfolding sorted
  sorted-sum_by f [] = refl
  sorted-sum_by f (x ∷ xs) = insert-sum_by f x (sorted xs) ∙ ap (◌+◌ (f x)) (sorted-sum_by f xs)

  length-insert : (x : A) (ys : List A) → length (insert x ys) ≡ suc (length ys)
  unfolding insert
  length-insert x [] = refl
  length-insert x (y ∷ ys) = ground (arith, length-insert x ys)

  pub length-sorted : (xs : List A) → length (sorted xs) ≡ length xs
  unfolding sorted
  length-sorted [] = refl
  length-sorted (x ∷ xs) = length-insert x (sorted xs) ∙ ap suc (length-sorted xs)

  pub insert-All {κ} : (P : A → Type κ) (x : A) (ys : List A) → P x → All P ys → All P (insert x ys)
  unfolding insert
  insert-All P x [] px h = (px, tt)
  insert-All P x (y ∷ ys) px h = elim (Bool-cases (lt y x)) [
    | inl later ↦ rw later (h.0, insert-All P x ys px h.1)
    | inr here ↦ rw here (px, h)
  ]

  pub sorted-All {κ} : (P : A → Type κ) (xs : List A) → All P xs → All P (sorted xs)
  unfolding sorted
  sorted-All P [] h = tt
  sorted-All P (x ∷ xs) h = insert-All P x (sorted xs) h.0 (sorted-All P xs h.1)

  insert-Any : (P : A → Type 0) (x : A) (ys : List A) → Any P (x ∷ ys) → Any P (insert x ys)
  unfolding insert
  insert-Any P x [] h = h
  insert-Any P x (y ∷ ys) h = elim (Bool-cases (lt y x)) [
    | inl later ↦ rw later (elim h [
      | inl px ↦ inr (insert-Any P x ys (inl px))
      | inr (inl py) ↦ inl py
      | inr (inr rest) ↦ inr (insert-Any P x ys (inr rest))
    ])
    | inr here ↦ rw here h
  ]

  pub sorted-Any : (P : A → Type 0) (xs : List A) → Any P xs → Any P (sorted xs)
  unfolding sorted
  sorted-Any P (x ∷ xs) (inl px) = insert-Any P x (sorted xs) (inl px)
  sorted-Any P (x ∷ xs) (inr h) = insert-Any P x (sorted xs) (inr (sorted-Any P xs h))
  sorted-Any P [] h = h

  insert-AllPairs {κ} :
      (R : A → A → Type κ)
      → ((x y : A) → R x y → R y x)
      → (x : A) (ys : List A) → All (R x) ys
      → AllPairs R ys
      → AllPairs R (insert x ys)
  unfolding insert
  insert-AllPairs R swap x [] hx h = (tt, tt)
  insert-AllPairs R swap x (y ∷ ys) hx h = elim (Bool-cases (lt y x)) [
    | inl later ↦
        rw later (insert-All (R y) x ys (swap x y hx.0) h.0, insert-AllPairs R swap x ys hx.1 h.1)
    | inr here ↦ rw here (hx, h)
  ]

  -- A symmetric relation of all pairs is kept.
  pub sorted-AllPairs {κ} :
      (R : A → A → Type κ)
      → ((x y : A) → R x y → R y x)
      → (xs : List A) → AllPairs R xs
      → AllPairs R (sorted xs)
  unfolding sorted
  sorted-AllPairs R swap [] h = tt
  sorted-AllPairs R swap (x ∷ xs) h =
      insert-AllPairs R swap x (sorted xs) (sorted-All (R x) xs h.0) (sorted-AllPairs R swap xs h.1)

  -- No element is greater than a later one.
  abbrev pub IsSorted : List A → Type 0
  IsSorted = AllPairs (λ x y. lt y x ≡ false)

  insert-IsSorted :
      ((x y : A) → lt x y ≡ true → lt y x ≡ false)
      → ((x y z : A) → lt y x ≡ false → lt z y ≡ false → lt z x ≡ false)
      → (x : A) (ys : List A) → IsSorted ys
      → IsSorted (insert x ys)
  unfolding insert
  insert-IsSorted asym trans x [] h = (tt, tt)
  insert-IsSorted asym trans x (y ∷ ys) h = elim (Bool-cases (lt y x)) [
    | inl later ↦ rw later (
      insert-All (λ z. lt z y ≡ false) x ys (asym y x later) h.0,
      insert-IsSorted asym trans x ys h.1,
    )
    | inr here ↦ rw here ((here, All-imp _ _ (λ z hz. trans x y z here hz) ys h.0), h)
  ]

  -- For a test that is a strict weak order the result is sorted.
  pub sorted-IsSorted :
      ((x y : A) → lt x y ≡ true → lt y x ≡ false)
      → ((x y z : A) → lt y x ≡ false → lt z y ≡ false → lt z x ≡ false)
      → (xs : List A) → IsSorted (sorted xs)
  unfolding sorted
  sorted-IsSorted asym trans [] = tt
  sorted-IsSorted asym trans (x ∷ xs) =
      insert-IsSorted asym trans x (sorted xs) (sorted-IsSorted asym trans xs)

  -- No element is greater than the next one, from `p` on.
  abbrev pub Linked : A → List A → Type 0
  Linked p [] = Unit
  Linked p (x ∷ xs) = (lt x p ≡ false) × Linked x xs

  -- No element is greater than the next one.
  abbrev pub IsLinked : List A → Type 0
  IsLinked [] = Unit
  IsLinked (x ∷ xs) = Linked x xs

  insert-Linked :
      ((x y : A) → lt x y ≡ true → lt y x ≡ false)
      → (p x : A) (ys : List A) → lt x p ≡ false
      → Linked p ys
      → Linked p (insert x ys)
  unfolding insert
  insert-Linked asym p x [] h l = (h, tt)
  insert-Linked asym p x (y ∷ ys) h l = elim (Bool-cases (lt y x)) [
    | inl later ↦ rw later (l.0, insert-Linked asym y x ys (asym y x later) l.1)
    | inr here ↦ rw here (h, (here, l.1))
  ]

  insert-IsLinked :
      ((x y : A) → lt x y ≡ true → lt y x ≡ false)
      → (x : A) (ys : List A) → IsLinked ys
      → IsLinked (insert x ys)
  unfolding insert
  insert-IsLinked asym x [] l = tt
  insert-IsLinked asym x (y ∷ ys) l = elim (Bool-cases (lt y x)) [
    | inl later ↦ rw later (insert-Linked asym y x ys (asym y x later) l)
    | inr here ↦ rw here (here, l)
  ]

  -- For an asymmetric test no element of the result is greater than the next one.
  pub sorted-IsLinked :
      ((x y : A) → lt x y ≡ true → lt y x ≡ false) → (xs : List A) → IsLinked (sorted xs)
  unfolding sorted
  sorted-IsLinked asym [] = tt
  sorted-IsLinked asym (x ∷ xs) = insert-IsLinked asym x (sorted xs) (sorted-IsLinked asym xs)

  insert_first : (x : A) (ys : List A) → All (λ y. lt y x ≡ false) ys → insert x ys ≡ x ∷ ys
  unfolding insert
  insert_first x [] h = refl
  insert_first x (y ∷ ys) h = rw h.0 refl

  -- A sorted list stays as it is.
  pub sorted_fixed : (xs : List A) → IsSorted xs → sorted xs ≡ xs
  unfolding sorted
  sorted_fixed [] h = refl
  sorted_fixed (x ∷ xs) h = ap (insert x) (sorted_fixed xs h.1) ∙ insert_first x xs h.0
