-- ===== src/MovementPlan/Names.antt =====
-- core/movement_plan.py: which operations of the schedule are converted, and to which movements.
use solid_attention.Base.{
  ◌≡◌, refl, inl, inr, String, str_eq, List, [], ◌∷◌, Result, ok, err, Bool-cases, Any,
}
use solid_attention.Base.Texts.{str_eq→≡}
use solid_attention.Float.{FloatOps}
use solid_attention.Block.{Value, Metadata}
use solid_attention.Residency.{put}
use solid_attention.MovementPlan.{movement_of}
use solid_attention.MovementPlan.Entries.{IsEntry, IsEntry-of, IsEntry-text}

-- What an operation of the schedule stands for: the name of its movement, and for the source and
-- the target the entry of the metadata that names it, with the place where there is no entry.
pub record Conversion : Type 0 where
  pub name : String
  pub movement : String
  pub source_entry : String
  pub source : String
  pub target_entry : String
  pub target : String

abbrev pub conversions : List Conversion
conversions =
    record {
      name = "schedule_ssd_read";
      movement = "kv_load";
      source_entry = "from_location";
      source = "ssd";
      target_entry = "to_location";
      target = "dram";
    }
    ∷ record {
      name = "schedule_dram_to_vram";
      movement = "kv_load";
      source_entry = "from_location";
      source = "dram";
      target_entry = "to_location";
      target = "vram";
    }
    ∷ record {
      name = "schedule_compute";
      movement = "kv_compute";
      source_entry = "location";
      source = "vram";
      target_entry = "location";
      target = "vram";
    }
    ∷ record {
      name = "prefetch_move";
      movement = "kv_prefetch";
      source_entry = "from_location";
      source = "ssd";
      target_entry = "to_location";
      target = "dram";
    }
    ∷ record {
      name = "evict_to_ssd";
      movement = "kv_evict";
      source_entry = "from_location";
      source = "vram";
      target_entry = "to_location";
      target = "ssd";
    }
    ∷ []

module _ {Fl : Type 0} ⦃fl : FloatOps Fl⦄ (show : Value Fl → String) where
  -- The name stands for the movement between the places.
  abbrev pub StandsFor : String → Metadata Fl → String → String → String → Type 0
  StandsFor name m op source target =
      Any
        (λ c.
          (name ≡ c.name)
          × (op ≡ c.movement)
          × IsEntry show c.source_entry c.source m source
          × IsEntry show c.target_entry c.target m target)
        conversions

  -- What the chain of tests finds is what the table says.
  abbrev pub NamesOutcome : String → Metadata Fl → Result (String × (String × String)) → Type 0
  NamesOutcome name m (err e) = Unit
  NamesOutcome name m (ok (op, (source, target))) = StandsFor name m op source target

  pub movement_of-NamesOutcome :
      (name : String) (v : Value Fl) (m : Metadata Fl)
      → NamesOutcome name m (movement_of show name (put "scheduler_op" v m))
  unfolding movement_of
  movement_of-NamesOutcome name v m = elim (Bool-cases (str_eq name "schedule_ssd_read")) [
    | inl a ↦ rw a (
        inl (
          str_eq→≡ name "schedule_ssd_read" a,
          refl,
          IsEntry-of show "from_location" "ssd" v m refl,
          IsEntry-of show "to_location" "dram" v m refl,
        ))
    | inr a ↦ rw a (elim (Bool-cases (str_eq name "schedule_dram_to_vram")) [
      | inl b ↦ rw b (
          inr (
            inl (
              str_eq→≡ name "schedule_dram_to_vram" b,
              refl,
              IsEntry-of show "from_location" "dram" v m refl,
              IsEntry-of show "to_location" "vram" v m refl,
            )))
      | inr b ↦ rw b (elim (Bool-cases (str_eq name "schedule_compute")) [
        | inl c ↦ rw c (
            inr (
              inr (
                inl (
                  str_eq→≡ name "schedule_compute" c,
                  refl,
                  IsEntry-of show "location" "vram" v m refl,
                  IsEntry-of show "location" "vram" v m refl,
                ))))
        | inr c ↦ rw c (elim (Bool-cases (str_eq name "prefetch_move")) [
          | inl d ↦ rw d (
              inr (
                inr (
                  inr (
                    inl (
                      str_eq→≡ name "prefetch_move" d,
                      refl,
                      IsEntry-of show "from_location" "ssd" v m refl,
                      IsEntry-of show "to_location" "dram" v m refl,
                    )))))
          | inr d ↦ rw d (elim (Bool-cases (str_eq name "evict_to_ssd")) [
            | inl e ↦ rw e (
                inr (
                  inr (
                    inr (
                      inr (
                        inl (
                          str_eq→≡ name "evict_to_ssd" e,
                          refl,
                          IsEntry-of show "from_location" "vram" v m refl,
                          IsEntry-of show "to_location" "ssd" v m refl,
                        ))))))
            | inr e ↦ rw e tt
          ])
        ])
      ])
    ])
  ]

  pub StandsFor-movement_of :
      (name op source target : String) (v : Value Fl) (m : Metadata Fl)
      → StandsFor name m op source target
      → movement_of show name (put "scheduler_op" v m) ≡ ok (op, (source, target))
  unfolding movement_of
  StandsFor-movement_of name op source target v m (inl (n, o, f, t)) =
      rw (n, o)
        (λ i. ok (
          "kv_load",
          (
            IsEntry-text show "from_location" "ssd" v m source refl f i,
            IsEntry-text show "to_location" "dram" v m target refl t i,
          ),
        ))
  StandsFor-movement_of name op source target v m (inr (inl (n, o, f, t))) =
      rw (n, o)
        (λ i. ok (
          "kv_load",
          (
            IsEntry-text show "from_location" "dram" v m source refl f i,
            IsEntry-text show "to_location" "vram" v m target refl t i,
          ),
        ))
  StandsFor-movement_of name op source target v m (inr (inr (inl (n, o, f, t)))) =
      rw (n, o)
        (λ i. ok (
          "kv_compute",
          (
            IsEntry-text show "location" "vram" v m source refl f i,
            IsEntry-text show "location" "vram" v m target refl t i,
          ),
        ))
  StandsFor-movement_of name op source target v m (inr (inr (inr (inl (n, o, f, t))))) =
      rw (n, o)
        (λ i. ok (
          "kv_prefetch",
          (
            IsEntry-text show "from_location" "ssd" v m source refl f i,
            IsEntry-text show "to_location" "dram" v m target refl t i,
          ),
        ))
  StandsFor-movement_of name op source target v m (inr (inr (inr (inr (inl (n, o, f, t)))))) =
      rw (n, o)
        (λ i. ok (
          "kv_evict",
          (
            IsEntry-text show "from_location" "vram" v m source refl f i,
            IsEntry-text show "to_location" "ssd" v m target refl t i,
          ),
        ))
  StandsFor-movement_of name op source target v m (inr (inr (inr (inr (inr x))))) = elim x [ ]
