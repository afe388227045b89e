-- ===== src/MovementPlan/Entries.antt =====
-- core/movement_plan.py: the entries of the metadata that a conversion reads.
use solid_attention.Base.{
  ◌≡◌, refl, ◌⊎◌, inl, inr, String, str_eq, false, none, some, [], ◌∷◌, ap, sym, subst, Bool-cases,
  Option-cases, if◌then◌else◌,
}
use solid_attention.Base.Texts.{str_eq→≡}
use solid_attention.Float.{FloatOps}
use solid_attention.Block.{Value, Metadata}
use solid_attention.Residency.{put}
use solid_attention.MovementPlan.{lookup, text_or}

module _ {Fl : Type 0} ⦃fl : FloatOps Fl⦄ (show : Value Fl → String) where
  -- The text is that of the metadata's entry, or the default where there is none.
  abbrev pub IsEntry : String → String → Metadata Fl → String → Type 0
  IsEntry entry default m text =
      ((lookup entry m ≡ none) × (text ≡ default))
      ⊎ ((v : Value Fl) × (lookup entry m ≡ some v) × (text ≡ show v))

  text_or-IsEntry :
      (entry default : String) (m : Metadata Fl)
      → IsEntry entry default m (text_or show entry default m)
  unfolding text_or
  text_or-IsEntry entry default m = elim (Option-cases (lookup entry m)) [
    | inl absent ↦ inl (absent, rw (absent, text_or) refl)
    | inr (v, found) ↦ inr (v, found, rw (found, text_or) refl)
  ]

  IsEntry-text_or :
      (entry default : String) (m : Metadata Fl) (text : String)
      → IsEntry entry default m text
      → text_or show entry default m ≡ text
  unfolding text_or
  IsEntry-text_or entry default m text (inl (absent, e)) = rw (absent, text_or, e) refl
  IsEntry-text_or entry default m text (inr (v, found, e)) = rw (found, text_or, e) refl

  pub lookup-put :
      (entry name : String) (v : Value Fl) (m : Metadata Fl)
      → str_eq entry name ≡ false
      → lookup entry (put name v m) ≡ lookup entry m
  unfolding lookup
  lookup-put entry name v [] h = rw h refl
  lookup-put entry name v ((n, u) ∷ m) h = elim (Bool-cases (str_eq name n)) [
    | inl same ↦
        let apart : str_eq entry n ≡ false =
          subst (λ t. str_eq entry t ≡ false) (str_eq→≡ name n same) h in
        rw (same, apart) refl
    | inr other ↦
        rw other (ap (λ r. if str_eq entry n then some u else r) (lookup-put entry name v m h))
  ]

  -- The scheduler's name, put into the metadata, is no place.
  pub IsEntry-of :
      (entry default : String) (v : Value Fl) (m : Metadata Fl)
      → str_eq entry "scheduler_op" ≡ false
      → IsEntry entry default m (text_or show entry default (put "scheduler_op" v m))
  IsEntry-of entry default v m h =
      subst
        (λ o.
          ((o ≡ none) × (text_or show entry default (put "scheduler_op" v m) ≡ default))
          ⊎ ((u : Value Fl) × (o ≡ some u)
              × (text_or show entry default (put "scheduler_op" v m) ≡ show u)))
        (lookup-put entry "scheduler_op" v m h)
        (text_or-IsEntry entry default (put "scheduler_op" v m))

  pub IsEntry-text :
      (entry default : String) (v : Value Fl) (m : Metadata Fl) (text : String)
      → str_eq entry "scheduler_op" ≡ false
      → IsEntry entry default m text
      → text_or show entry default (put "scheduler_op" v m) ≡ text
  IsEntry-text entry default v m text h e =
      IsEntry-text_or entry default (put "scheduler_op" v m) text (
        subst
          (λ o. ((o ≡ none) × (text ≡ default)) ⊎ ((u : Value Fl) × (o ≡ some u) × (text ≡ show u)))
          (sym (lookup-put entry "scheduler_op" v m h)) e)
