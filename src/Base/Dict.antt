-- ===== src/Base/Dict.antt =====
-- A Python dict in insertion order, over keys with a decidable equality.
use Prim.Native.Nat.{ℕ, ◌+◌}
use mathlib.Core.Path.{◌≡◌, refl, ap, sym, ap₂, subst, ◌∙◌}
use mathlib.Core.List.{List, [], ◌∷◌, ◌++◌}
use mathlib.Core.Logic.{◌≢◌, ◌⊎◌, inl, inr}
use mathlib.Core.Option.{Option, none, some}
use mathlib.Core.Bool.{Bool, true, false}
use native.Mathlib.Omega.{arith}
use solid_attention.Base.Lists.{sum_by, All, AllPairs, Any}

abbrev pub Dict {ℓ κ} : Type ℓ → Type κ → Type (ℓ ⊔ κ)
Dict K V = List (K × V)

-- `d.values()`
abbrev pub values {ℓ κ} : {K : Type ℓ} {V : Type κ} → Dict K V → List V
values [] = []
values ((k, v) ∷ d) = v ∷ values d

abbrev pub keys {ℓ κ} : {K : Type ℓ} {V : Type κ} → Dict K V → List K
keys [] = []
keys ((k, v) ∷ d) = k ∷ keys d

pub values-append {ℓ κ} :
    {K : Type ℓ} {V : Type κ} (d e : Dict K V) → values (d ++ e) ≡ values d ++ values e
values-append [] e = refl
values-append ((k, v) ∷ d) e = ap (◌∷◌ v) (values-append d e)

module _ {ℓ κ} {K : Type ℓ} {V : Type κ} (dec : Discrete K) where
  -- `d.get(k)`
  unfoldable pub get : K → Dict K V → Option V
  get k [] = none
  get k ((j, v) ∷ d) = let rest = get k d in elim (dec k j) [ yes _ ↦ some v | no _ ↦ rest ]

  -- `k in d`
  abbrev pub contains : K → Dict K V → Bool
  contains k d = elim (get k d) [ none ↦ false | some _ ↦ true ]

  -- `d[k] = v`
  unfoldable pub set : K → V → Dict K V → Dict K V
  set k v [] = (k, v) ∷ []
  set k v ((j, w) ∷ d) =
      let rest = set k v d in elim (dec k j) [ yes _ ↦ (j, v) ∷ d | no _ ↦ (j, w) ∷ rest ]

  -- `d.pop(k, None)`, the dictionary that is left
  unfoldable pub remove : K → Dict K V → Dict K V
  remove k [] = []
  remove k ((j, w) ∷ d) =
      let rest = remove k d in elim (dec k j) [ yes _ ↦ d | no _ ↦ (j, w) ∷ rest ]

  pub get-set_self : (k : K) (v : V) (d : Dict K V) → get k (set k v d) ≡ some v
  unfolding get set
  get-set_self k v [] = ground arith
  get-set_self k v ((j, w) ∷ d) = ground (arith, get-set_self k v d)

  pub get-set_ne : (q k : K) (v : V) (d : Dict K V) → q ≢ k → get q (set k v d) ≡ get q d
  unfolding get set
  get-set_ne q k v [] h = ground arith
  get-set_ne q k v ((j, w) ∷ d) h = ground (arith, get-set_ne q k v d h)

  -- A new key goes to the end.
  pub set_absent : (k : K) (v : V) (d : Dict K V) → get k d ≡ none → set k v d ≡ d ++ (k, v) ∷ []
  unfolding get set
  set_absent k v [] h = refl
  set_absent k v ((j, w) ∷ d) h = ground (arith, set_absent k v d)

  pub get-remove_ne : (q k : K) (d : Dict K V) → q ≢ k → get q (remove k d) ≡ get q d
  unfolding get remove
  get-remove_ne q k [] h = refl
  get-remove_ne q k ((j, w) ∷ d) h = ground (arith, get-remove_ne q k d h)

  pub sum_by-remove :
      (f : V → ℕ) (k : K) (d : Dict K V) (v : V)
      → get k d ≡ some v
      → sum_by f (values (remove k d)) + f v ≡ sum_by f (values d)
  unfolding get remove
  sum_by-remove f k [] v h = cc
  sum_by-remove f k ((j, w) ∷ d) v h = ground (arith, sum_by-remove f k d v)

  pub sum_by-set :
      (f : V → ℕ) (k : K) (v : V) (d : Dict K V) (w : V)
      → get k d ≡ some w
      → sum_by f (values (set k v d)) + f w ≡ sum_by f (values d) + f v
  unfolding get set
  sum_by-set f k v [] w h = cc
  sum_by-set f k v ((j, x) ∷ d) w h = ground (arith, sum_by-set f k v d w)

  set_here : (k j : K) (v w : V) (d : Dict K V) → k ≡ j → set k v ((j, w) ∷ d) ≡ (j, v) ∷ d
  unfolding set
  set_here k j v w d e = ground arith

  set_further :
      (k j : K) (v w : V) (d : Dict K V) → k ≢ j → set k v ((j, w) ∷ d) ≡ (j, w) ∷ set k v d
  unfolding set
  set_further k j v w d n = ground arith

  get_here : (k j : K) (v w : V) (d : Dict K V) → get k ((j, w) ∷ d) ≡ some v → k ≡ j → w ≡ v
  unfolding get
  get_here k j v w d h e = ground arith

  get_further :
      (k j : K) (v w : V) (d : Dict K V) → get k ((j, w) ∷ d) ≡ some v → k ≢ j → get k d ≡ some v
  unfolding get
  get_further k j v w d h n = ground arith

  pub get-All {μ} :
      (P : K × V → Type μ) (k : K) (d : Dict K V) (v : V) → All P d → get k d ≡ some v → P (k, v)
  get-All P k [] v h e = absurd (get_nil k v e)
    where
      get_nil : (q : K) (u : V) → get q [] ≡ some u → ⊥
      get_nil q u x = unfold get in cc
  get-All P k ((j, w) ∷ d) v h e = elim (dec k j) [
    | yes p ↦ subst (λ x. P x) (ap₂ (λ x y. (x, y)) (sym p) (get_here k j v w d e p)) h.0
    | no n ↦ get-All P k d v h.1 (get_further k j v w d e n)
  ]

  pub set-All {μ} :
      (P : K × V → Type μ) (k : K) (v : V) (d : Dict K V)
      → ((j : K) → k ≡ j → P (j, v))
      → All P d
      → All P (set k v d)
  set-All P k v [] p h = unfold set in (p k refl, tt)
  set-All P k v ((j, w) ∷ d) p h = elim (dec k j) [
    | yes e ↦ rw (set_here k j v w d e) (p j e, h.1)
    | no n ↦ rw (set_further k j v w d n) (h.0, set-All P k v d p h.1)
  ]

  -- Every key stands in the dictionary once.
  abbrev pub DistinctKeys : Dict K V → Type ℓ
  DistinctKeys = AllPairs (λ a b. a.0 ≢ b.0)

  pub set-DistinctKeys : (k : K) (v : V) (d : Dict K V) → DistinctKeys d → DistinctKeys (set k v d)
  set-DistinctKeys k v [] h = unfold set in (tt, tt)
  set-DistinctKeys k v ((j, w) ∷ d) h = elim (dec k j) [
    | yes e ↦ rw (set_here k j v w d e) h
    | no n ↦
        rw (set_further k j v w d n)
          (set-All (λ b. j ≢ b.0) k v d (λ i e q. n (e ∙ sym q)) h.0, set-DistinctKeys k v d h.1)
  ]

  pub contains-set :
      (q k : K) (v : V) (d : Dict K V)
      → contains q (set k v d) ≡ elim (dec q k) [ yes _ ↦ true | no _ ↦ contains q d ]
  unfolding get set
  contains-set q k v [] = ground arith
  contains-set q k v ((j, w) ∷ d) = ground (arith, contains-set q k v d)

  pub contains-eq-false : (k : K) (d : Dict K V) → contains k d ≡ false → get k d ≡ none
  contains-eq-false k d h = ground arith

  pub get-values-All {μ} :
      (P : V → Type μ) (k : K) (d : Dict K V) (v : V) → All P (values d) → get k d ≡ some v → P v
  get-values-All P k [] v h e = absurd (unfold get in cc)
  get-values-All P k ((j, w) ∷ d) v h e = elim (dec k j) [
    | yes p ↦ subst P (get_here k j v w d e p) h.0
    | no n ↦ get-values-All P k d v h.1 (get_further k j v w d e n)
  ]

  -- Entries under two keys stand in one order or the other.
  pub AllPairs-get {μ} :
      (R : V → V → Type μ) (k q : K) (d : Dict K V) (v u : V)
      → AllPairs R (values d)
      → get k d ≡ some v
      → get q d ≡ some u
      → k ≢ q
      → R v u ⊎ R u v
  AllPairs-get R k q [] v u h e f n = absurd (unfold get in cc)
  AllPairs-get R k q ((j, w) ∷ d) v u h e f n = elim (dec k j) [
    | yes p ↦ elim (dec q j) [
      | yes p' ↦ absurd (n (p ∙ sym p'))
      | no n' ↦ inl (
          subst (λ x. R x u) (get_here k j v w d e p)
            (get-values-All (R w) q d u h.0 (get_further q j u w d f n')))
    ]
    | no m ↦ elim (dec q j) [
      | yes p' ↦ inr (
          subst (λ x. R x v) (get_here q j u w d f p')
            (get-values-All (R w) k d v h.0 (get_further k j v w d e m)))
      | no n' ↦
          AllPairs-get R k q d v u h.1 (get_further k j v w d e m) (get_further q j u w d f n') n
    ]
  ]

module _ {ℓ} {K : Type ℓ} {V : Type 0} (dec : Discrete K) where
  pub get-Any : (k : K) (d : Dict K V) (v : V) → get dec k d ≡ some v → Any (λ x. x ≡ v) (values d)
  get-Any k [] v e = absurd (unfold get in cc)
  get-Any k ((j, w) ∷ d) v e = elim (dec k j) [
    | yes p ↦ inl (get_here dec k j v w d e p)
    | no n ↦ inr (get-Any k d v (get_further dec k j v w d e n))
  ]

module _ {K V : Type 0} (key : V → K) where
  others_apart :
      (k : K) (v : V) (d : Dict K V)
      → key v ≡ k
      → All (λ e. key e.1 ≡ e.0) d
      → All (λ e. k ≢ e.0) d
      → All (λ y. key v ≢ key y) (values d)
  others_apart k v [] own h n = tt
  others_apart k v ((j, w) ∷ d) own h n =
      (λ q. n.0 (sym own ∙ q ∙ h.0), others_apart k v d own h.1 n.1)

  -- Values that show their own keys are apart when the keys are.
  pub values-AllPairs :
      (d : Dict K V)
      → All (λ e. key e.1 ≡ e.0) d
      → AllPairs (λ a b. a.0 ≢ b.0) d
      → AllPairs (λ x y. key x ≢ key y) (values d)
  values-AllPairs [] h n = tt
  values-AllPairs ((k, v) ∷ d) h n = (others_apart k v d h.0 h.1 n.0, values-AllPairs d h.1 n.1)
