-- ===== src/Base/Fill.antt =====
-- `{key(x): x for x in xs}`, from a dictionary on, and what a lookup in it finds.
use mathlib.Core.Path.{◌≡◌, refl, sym, ap, ◌∙◌}
use mathlib.Core.List.{List, [], ◌∷◌}
use mathlib.Core.Logic.{◌≢◌, ◌⊎◌, inl, inr}
use mathlib.Core.Option.{some}
use solid_attention.Base.Tests.{some_inj}
use solid_attention.Base.Lists.{All, AllPairs, Any}
use solid_attention.Base.Dict.{Dict, get, set, get-set_self, get-set_ne}

module _ {K : Type 0} {V : Type 0} (dec : Discrete K) (key : V → K) where
  unfoldable pub put_all : Dict K V → List V → Dict K V
  put_all d [] = d
  put_all d (x ∷ xs) = put_all (set dec (key x) x d) xs

  pub get-put_all_ne :
      (k : K) (d : Dict K V) (xs : List V)
      → All (λ x. k ≢ key x) xs
      → get dec k (put_all d xs) ≡ get dec k d
  unfolding put_all
  get-put_all_ne k d [] n = refl
  get-put_all_ne k d (x ∷ xs) n =
      get-put_all_ne k (set dec (key x) x d) xs n.1 ∙ get-set_ne dec k (key x) x d n.0

  -- Each element is found under its own key, when the keys are apart.
  pub get-put_all :
      (d : Dict K V) (xs : List V)
      → AllPairs (λ x y. key x ≢ key y) xs
      → All (λ x. get dec (key x) (put_all d xs) ≡ some x) xs
  unfolding put_all
  get-put_all d [] n = tt
  get-put_all d (x ∷ xs) n = (
    get-put_all_ne (key x) (set dec (key x) x d) xs n.0 ∙ get-set_self dec (key x) x d,
    get-put_all (set dec (key x) x d) xs n.1,
  )

  -- What is found was there before or is an element with the key.
  pub get-put_all-some :
      (k : K) (d : Dict K V) (xs : List V) (y : V)
      → get dec k (put_all d xs) ≡ some y
      → (get dec k d ≡ some y) ⊎ Any (λ x. (x ≡ y) × (key x ≡ k)) xs
  unfolding put_all
  get-put_all-some k d [] y h = inl h
  get-put_all-some k d (x ∷ xs) y h = elim (get-put_all-some k (set dec (key x) x d) xs y h) [
    | inr later ↦ inr (inr later)
    | inl here ↦ elim (dec k (key x)) [
      | yes e ↦ inr (
          inl (
            some_inj (
                sym (get-set_self dec (key x) x d)
                ∙ ap (λ j. get dec j (set dec (key x) x d)) (sym e)
                ∙ here),
            sym e,
          ))
      | no n ↦ inl (sym (get-set_ne dec k (key x) x d n) ∙ here)
    ]
  ]
