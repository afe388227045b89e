-- ===== src/Base/Lists.antt =====
-- Lists measured by native numbers, and predicates on lists by recursion.
use Prim.Native.Nat.{ℕ, zero, suc, ◌+◌, ◌≤◌}
use mathlib.Core.Path.{◌≡◌, refl}
use mathlib.Core.List.{List, [], ◌∷◌, ◌++◌, map}
use mathlib.Core.Bool.{Bool}
use mathlib.Core.Logic.{◌⊎◌, inl, inr}
use native.Mathlib.Omega.{arith}
use solid_attention.Base.Tests.{if◌then◌else◌}

module _ {ℓ} {A : Type ℓ} where
  abbrev pub length : List A → ℕ
  length [] = 0
  length (x ∷ xs) = suc (length xs)

  abbrev pub take : ℕ → List A → List A
  take zero xs = []
  take (suc n) [] = []
  take (suc n) (x ∷ xs) = x ∷ take n xs

  abbrev pub drop : ℕ → List A → List A
  drop zero xs = xs
  drop (suc n) [] = []
  drop (suc n) (x ∷ xs) = drop n xs

  -- `[x for x in xs if p(x)]`
  abbrev pub filter_by : (A → Bool) → List A → List A
  filter_by p [] = []
  filter_by p (x ∷ xs) = let rest = filter_by p xs in if p x then x ∷ rest else rest

  -- `sum(f(x) for x in xs)` over non-negative integers
  abbrev pub sum_by : (A → ℕ) → List A → ℕ
  sum_by f [] = 0
  sum_by f (x ∷ xs) = f x + sum_by f xs

  abbrev pub All {κ} : (A → Type κ) → List A → Type κ
  All P [] = Unit
  All P (x ∷ xs) = P x × All P xs

  -- Every element stands in the relation to every later one.
  abbrev pub AllPairs {κ} : (A → A → Type κ) → List A → Type κ
  AllPairs R [] = Unit
  AllPairs R (x ∷ xs) = All (R x) xs × AllPairs R xs

  pub length-append : (xs ys : List A) → length (xs ++ ys) ≡ length xs + length ys
  length-append [] ys = omega arith
  length-append (x ∷ xs) ys = omega (arith, length-append xs ys)

  pub sum_by-append : (f : A → ℕ) (xs ys : List A) → sum_by f (xs ++ ys) ≡ sum_by f xs + sum_by f ys
  sum_by-append f [] ys = omega arith
  sum_by-append f (x ∷ xs) ys = omega (arith, sum_by-append f xs ys)

  pub length-take-le : (n : ℕ) (xs : List A) → length (take n xs) ≤ n
  length-take-le zero xs = omega arith
  length-take-le (suc n) [] = omega arith
  length-take-le (suc n) (x ∷ xs) = omega (arith, length-take-le n xs)

module _ {ℓ} {A : Type ℓ} where
  pub All-append {κ} : (P : A → Type κ) (xs ys : List A) → All P xs → All P ys → All P (xs ++ ys)
  All-append P [] ys hx hy = hy
  All-append P (x ∷ xs) ys hx hy = (hx.0, All-append P xs ys hx.1 hy)

  pub All-imp {κ μ} :
      (P : A → Type κ) (Q : A → Type μ)
      → ((x : A) → P x → Q x)
      → (xs : List A) → All P xs
      → All Q xs
  All-imp P Q f [] h = tt
  All-imp P Q f (x ∷ xs) h = (f x h.0, All-imp P Q f xs h.1)

  pub All-and {κ μ} :
      (P : A → Type κ) (Q : A → Type μ) (xs : List A)
      → All P xs
      → All Q xs
      → All (λ x. P x × Q x) xs
  All-and P Q [] h k = tt
  All-and P Q (x ∷ xs) h k = ((h.0, k.0), All-and P Q xs h.1 k.1)

  pub AllPairs-append {κ} :
      (R : A → A → Type κ) (xs ys : List A)
      → AllPairs R xs
      → AllPairs R ys
      → All (λ x. All (R x) ys) xs
      → AllPairs R (xs ++ ys)
  AllPairs-append R [] ys hx hy across = hy
  AllPairs-append R (x ∷ xs) ys hx hy across =
      (All-append (R x) xs ys hx.0 across.0, AllPairs-append R xs ys hx.1 hy across.1)

  pub All-take {κ} : (P : A → Type κ) (n : ℕ) (xs : List A) → All P xs → All P (take n xs)
  All-take P zero xs h = tt
  All-take P (suc n) [] h = tt
  All-take P (suc n) (x ∷ xs) h = (h.0, All-take P n xs h.1)

  pub AllPairs-imp {κ μ} :
      (R : A → A → Type κ) (S : A → A → Type μ)
      → ((x y : A) → R x y → S x y)
      → (xs : List A) → AllPairs R xs
      → AllPairs S xs
  AllPairs-imp R S f [] h = tt
  AllPairs-imp R S f (x ∷ xs) h = (All-imp (R x) (S x) (f x) xs h.0, AllPairs-imp R S f xs h.1)

-- Two lists of one length, whose elements stand in the relation place by place.
abbrev pub Pairwise {ℓ κ} : {A : Type ℓ} {B : Type κ} → (A → B → Type 0) → List A → List B → Type 0
Pairwise R [] [] = Unit
Pairwise R [] (y ∷ ys) = ⊥
Pairwise R (x ∷ xs) [] = ⊥
Pairwise R (x ∷ xs) (y ∷ ys) = R x y × Pairwise R xs ys

module _ {ℓ} {A : Type ℓ} where
  -- Some element satisfies the predicate.
  abbrev pub Any : (A → Type 0) → List A → Type 0
  Any P [] = ⊥
  Any P (x ∷ xs) = P x ⊎ Any P xs

  pub Any-All {μ ν} :
      {P : A → Type 0} {Q : A → Type μ} {C : Type ν} (xs : List A)
      → Any P xs
      → All Q xs
      → ((x : A) → P x → Q x → C)
      → C
  Any-All [] h k f = absurd h
  Any-All (x ∷ xs) (inl p) k f = f x p k.0
  Any-All (x ∷ xs) (inr h) k f = Any-All xs h k.1 f

  pub Any-imp : {P Q : A → Type 0} (xs : List A) → Any P xs → ((x : A) → P x → Q x) → Any Q xs
  Any-imp [] h f = absurd h
  Any-imp (x ∷ xs) (inl p) f = inl (f x p)
  Any-imp (x ∷ xs) (inr h) f = inr (Any-imp xs h f)

module _ {A : Type 0} where
  -- Every element stands in the list.
  pub All-member : (xs : List A) → All (λ x. Any (λ y. y ≡ x) xs) xs
  All-member [] = tt
  All-member (x ∷ xs) = (inl refl, All-imp _ _ (λ y h. inr h) xs (All-member xs))

  pub Any-map :
      {B : Type 0} (f : A → B) (P : B → Type 0) (xs : List A)
      → Any (λ x. P (f x)) xs
      → Any P (map f xs)
  Any-map f P [] h = h
  Any-map f P (x ∷ xs) (inl p) = inl p
  Any-map f P (x ∷ xs) (inr h) = inr (Any-map f P xs h)

  pub All-map :
      {B : Type 0} (f : A → B) (P : B → Type 0) (xs : List A)
      → All (λ x. P (f x)) xs
      → All P (map f xs)
  All-map f P [] h = tt
  All-map f P (x ∷ xs) h = (h.0, All-map f P xs h.1)

  pub AllPairs-map :
      {B : Type 0} (f : A → B) (R : B → B → Type 0) (xs : List A)
      → AllPairs (λ x y. R (f x) (f y)) xs
      → AllPairs R (map f xs)
  AllPairs-map f R [] h = tt
  AllPairs-map f R (x ∷ xs) h = (All-map f (R (f x)) xs h.0, AllPairs-map f R xs h.1)
