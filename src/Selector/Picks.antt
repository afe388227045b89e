-- ===== src/Selector/Picks.antt =====
-- core/block_selector.py: what the filters of `select` keep, described without their tests.
use solid_attention.Base.{
  ◌≡◌, refl, ◌≢◌, ◌⊎◌, inl, inr, Bool, true, false, List, [], ◌∷◌, map, All, filter_by, ◌&&◌,
}
use solid_attention.Base.Unique.{mem}
use solid_attention.Block.{BlockKey, key, key_discrete}
use solid_attention.World.{Ref, World}
use solid_attention.Selector.{key_of, is_outside}

-- The second list has the elements of the first that satisfy `P`, in their order, and no others.
pub data Picks {A : Type 0} (P : A → Type 0) : List A → List A → Type 0 where
  done : Picks P [] []
  keep : {x : A} {xs ys : List A} → P x → Picks P xs ys → Picks P (x ∷ xs) (x ∷ ys)
  leave : {x : A} {xs ys : List A} → ¬ P x → Picks P xs ys → Picks P (x ∷ xs) ys

-- The test decides the property.
abbrev pub Decides : {A : Type 0} → (A → Type 0) → (A → Bool) → Type 0
Decides {A} P test = (x : A) → (P x × (test x ≡ true)) ⊎ ((¬ P x) × (test x ≡ false))

pub filter_by-Picks :
    {A : Type 0} (P : A → Type 0) (test : A → Bool)
    → Decides P test
    → (xs : List A) → Picks P xs (filter_by test xs)
filter_by-Picks P test decides [] = done
filter_by-Picks P test decides (x ∷ xs) = elim (decides x) [
  | inl (h, seen) ↦ rw seen (keep h (filter_by-Picks P test decides xs))
  | inr (n, seen) ↦ rw seen (leave n (filter_by-Picks P test decides xs))
]

module _ {Fl : Type 0} (w : World Fl) where
  -- No block of the list has the block's key.
  abbrev pub IsOutside : List Ref → Ref → Type 0
  IsOutside rs r = All (λ q. key (w.heap r) ≢ key (w.heap q)) rs

  abbrev MemOutcome : BlockKey → List Ref → Bool → Type 0
  MemOutcome k rs seen =
      (All (λ q. k ≢ key (w.heap q)) rs × (seen ≡ false))
      ⊎ ((¬ All (λ q. k ≢ key (w.heap q)) rs) × (seen ≡ true))

  mem-MemOutcome :
      (k : BlockKey) (rs : List Ref)
      → MemOutcome k rs (mem key_discrete (key_of w) k (map (key_of w) rs))
  unfolding mem
  mem-MemOutcome k [] = inl (tt, refl)
  mem-MemOutcome k (r ∷ rs) =
      let rest = mem key_discrete (key_of w) k (map (key_of w) rs) in
      let later = mem-MemOutcome k rs in
      elim (key_discrete k (key (w.heap r)))
        as (λ d. MemOutcome k (r ∷ rs) (elim d [ yes _ ↦ true | no _ ↦ rest ])) [
          | yes e ↦ inr (λ h. h.0 e, refl)
          | no n ↦ elim later [
            | inl (apart, seen) ↦ inl ((n, apart), seen)
            | inr (not_apart, seen) ↦ inr (λ h. not_apart h.1, seen)
          ]
        ]

  pub IsOutside-decided : (rs : List Ref) → Decides (IsOutside rs) (is_outside w rs)
  IsOutside-decided rs r = elim (mem-MemOutcome (key (w.heap r)) rs) [
    | inl (apart, seen) ↦ inl (apart, rw seen refl)
    | inr (not_apart, seen) ↦ inr (not_apart, rw seen refl)
  ]

  pub both-decided :
      (rs qs : List Ref)
      → Decides (λ r. IsOutside rs r × IsOutside qs r) (λ r. is_outside w rs r && is_outside w qs r)
  both-decided rs qs r = elim (IsOutside-decided rs r) [
    | inl (a, seen) ↦ elim (IsOutside-decided qs r) [
      | inl (b, seen1) ↦ inl ((a, b), rw (seen, seen1) refl)
      | inr (n, seen1) ↦ inr (λ h. n h.1, rw (seen, seen1) refl)
    ]
    | inr (n, seen) ↦ inr (λ h. n h.0, rw seen refl)
  ]
