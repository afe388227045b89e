-- ===== src/Intents/Plan.antt =====
-- integrations/llama_cpp/movement_intents.py: the layout of an exported plan has a row for each
-- operation, so the layout never stands in the way of its commands.
use solid_attention.Base.{
  ℕ, ◌+◌, ◌≡◌, refl, ◌≢◌, ◌↔◌, inl, inr, true, false, not, ◌||◌, Bool-cases, Option-cases, Bool,
  String, some, List, [], ◌∷◌, ◌++◌, ok, arith, ◌∙◌, ap, sym, subst, All, All-append, All-imp, Any,
  Any-imp, length, length-append, Pairwise, >>=-eq-ok, >>-eq-ok, ok_inj,
}
use solid_attention.Base.Int.{ℤ, pos, ltb_ℤ, leb_ℤ, eqb_ℤ, eqb_ℤ-≡}
use solid_attention.Base.Dict.{
  Dict, get, set, values, DistinctKeys, set-DistinctKeys, set-All, get-All, get-Any, get-set_self,
  get-set_ne, values-AllPairs,
}
use solid_attention.Base.Sort.{sorted-Any, sorted-AllPairs}
use solid_attention.Float.{FloatOps}
use solid_attention.Block.{Value}
use solid_attention.Commands.{
  PlanOp, PlanRange, PlanJson, LlamaKvCommand, RowKey, row_key, row_key_discrete,
  commands_from_movement_plan,
}
use solid_attention.Commands.Check.{IsCommandOf}
use solid_attention.Commands.Rows.{DistinctRows}
use solid_attention.Commands.Accept.{IsRowOf, commands_from_movement_plan_iff}
use solid_attention.Intents.{
  IntentEvent, IntentPlan, Exporting, row_of, as_bool, or_default, movement_op_from_event,
  upsert_layout_range, export_loop, layout_blocks, export_movement_intent_plan,
}

-- The dictionary has the row of the operation.
abbrev HasRow : {Fl : Type 0} → Dict RowKey PlanRange → PlanOp Fl → Type 0
HasRow d o = get row_key_discrete (row_key (row_of o)) d ≡ some (row_of o)

-- Each row stands under its own key, and no key twice.
record IsKeyed (d : Dict RowKey PlanRange) : Type 0 where
  pub keyed : All (λ e. row_key e.1 ≡ e.0) d
  pub distinct : DistinctKeys row_key_discrete d

-- What `_upsert_layout_range` does to the rows.
record IsUpserted (r : PlanRange) (d e : Dict RowKey PlanRange) : Type 0 where
  pub keyed : IsKeyed e
  pub kept :
      (k : RowKey) (q : PlanRange)
      → get row_key_discrete k d ≡ some q
      → get row_key_discrete k e ≡ some q
  pub has : get row_key_discrete (row_key r) e ≡ some r

neither : (a b : Bool) → a || b ≡ false → (a ≡ false) × (b ≡ false)
neither true b h = cc
neither false b h = (refl, h)

upsert-IsUpserted :
    (r : PlanRange) (d e : Dict RowKey PlanRange)
    → IsKeyed d
    → upsert_layout_range r d ≡ ok e
    → IsUpserted r d e
unfolding upsert_layout_range
upsert-IsUpserted r d e keyed h = elim (Option-cases (get row_key_discrete (row_key r) d)) [
  | inl new ↦
      let made : ok (set row_key_discrete (row_key r) r d) ≡ ok e =
        rw (new, upsert_layout_range) at h in
      subst (IsUpserted r d) (ok_inj made) (record {
        keyed = record {
          keyed = set-All row_key_discrete _ (row_key r) r d (λ j e. e) keyed.keyed;
          distinct = set-DistinctKeys row_key_discrete (row_key r) r d keyed.distinct;
        };
        kept = λ k q there.
            get-set_ne row_key_discrete k (row_key r) r d (λ same.
              let both = sym new ∙ ap (λ j. get row_key_discrete j d) (sym same) ∙ there in cc)
            ∙ there;
        has = get-set_self row_key_discrete (row_key r) r d;
      })
  | inr (q, old) ↦
      let (agrees, same) =
        >>-eq-ok (not (eqb_ℤ q.offset r.offset) || not (eqb_ℤ q.size_bytes r.size_bytes)) _ _
          (rw (old, upsert_layout_range) at h) in
      let (offset, size) = neither _ _ agrees in
      let key = get-All row_key_discrete (λ e. row_key e.1 ≡ e.0) (row_key r) d q keyed.keyed old in
      let row : q ≡ r = λ i. record {
        layer_id = (key i).0;
        block_id = (key i).1;
        offset = eqb_ℤ-≡ q.offset r.offset offset i;
        size_bytes = eqb_ℤ-≡ q.size_bytes r.size_bytes size i;
      } in
      subst (IsUpserted r d) (ok_inj same)
        (record { keyed = keyed; kept = λ k x there. there; has = old ∙ ap some row })
]

module _ {Fl : Type 0} ⦃fl : FloatOps Fl⦄ (lowered : String → String) where
  -- What the loop over the events keeps.
  record IsExporting (s : Exporting Fl) : Type 0 where
    pub rows : IsKeyed s.layout_ranges
    pub ops : All (HasRow s.layout_ranges) s.ops

  export_loop-IsExporting :
      (index : ℕ) (events : List (IntentEvent Fl)) (s t : Exporting Fl)
      → IsExporting s
      → export_loop lowered index events s ≡ ok t
      → IsExporting t × (length t.ops + t.skipped ≡ length s.ops + s.skipped + length events)
  unfolding export_loop
  export_loop-IsExporting index [] s t inv h =
      subst (λ x. IsExporting x × (length x.ops + x.skipped ≡ length s.ops + s.skipped + 0))
        (ok_inj h) (inv, omega arith)
  export_loop-IsExporting index (e ∷ events) s t inv h =
      elim (Bool-cases (as_bool lowered (or_default (Value.flag true) e.movement_intent))) [
        | inr off ↦
            let skipping = record s { skipped = s.skipped + 1 } in
            let (after, count) =
              export_loop-IsExporting (index + 1) events skipping t
                (record { rows = inv.rows; ops = inv.ops }) (rw off at h) in
            (after, omega (arith, count))
        | inl on ↦
            let (o, _, h1) = >>=-eq-ok (movement_op_from_event lowered index e) _ (rw on at h) in
            let (d, upserted, h2) =
              >>=-eq-ok (upsert_layout_range (row_of o) s.layout_ranges) _ h1 in
            let u = upsert-IsUpserted (row_of o) s.layout_ranges d inv.rows upserted in
            let more = record s { ops = s.ops ++ o ∷ []; layout_ranges = d } in
            let (after, count) =
              export_loop-IsExporting (index + 1) events more t
                (record {
                  rows = u.keyed;
                  ops =
                      All-append _ s.ops (o ∷ [])
                        (All-imp _ _ (λ p has. u.kept (row_key (row_of p)) (row_of p) has) s.ops
                          inv.ops)
                        (u.has, tt);
                })
                h2 in
            (after, omega (arith, count, length-append s.ops (o ∷ [])))
      ]

  layout_blocks-Any :
      (d : Dict RowKey PlanRange) (o : PlanOp Fl)
      → HasRow d o
      → Any (λ r. r ≡ row_of o) (layout_blocks d)
  layout_blocks-Any d o has =
      sorted-Any _ (λ r. r ≡ row_of o) (values d)
        (get-Any row_key_discrete (row_key (row_of o)) d (row_of o) has)

  -- What an exported plan has: rows with keys apart, one for each operation, and each event of the
  -- trace either as an operation or skipped.
  pub record IsExported (events : List (IntentEvent Fl)) (p : IntentPlan Fl) (skipped : ℕ)
      : Type 0 where
    pub rows : DistinctRows p.blocks
    pub ops : All (λ o. Any (λ r. r ≡ row_of o) p.blocks) p.ops
    pub count : length p.ops + skipped ≡ length events

  export-IsExported :
      (events : List (IntentEvent Fl)) (base_offset alignment : ℤ) (p : IntentPlan Fl) (skipped : ℕ)
      → export_movement_intent_plan lowered events base_offset alignment ≡ ok (p, skipped)
      → IsExported events p skipped
  unfolding export_movement_intent_plan
  export-IsExported events base_offset alignment p skipped h =
      let (_, h1) = >>-eq-ok (ltb_ℤ base_offset (pos 0)) _ _ h in
      let (_, h2) = >>-eq-ok (leb_ℤ alignment (pos 0)) _ _ h1 in
      let start : Exporting Fl = record { ops = []; layout_ranges = []; skipped = 0 } in
      let (s, looped, made) = >>=-eq-ok (export_loop lowered 0 events start) _ h2 in
      let (after, count) =
        export_loop-IsExporting 0 events start s
          (record { rows = record { keyed = tt; distinct = tt }; ops = tt }) looped in
      subst {A = IntentPlan Fl × ℕ} (λ q. IsExported events q.0 q.1) (ok_inj made)
        (record {
          rows =
              sorted-AllPairs _ (λ p q. row_key p ≢ row_key q) (λ p q n e. n (sym e))
                (values s.layout_ranges)
                (values-AllPairs row_key s.layout_ranges after.rows.keyed after.rows.distinct);
          ops = All-imp _ _ (layout_blocks-Any s.layout_ranges) s.ops after.ops;
          count = omega (arith, count);
        })

  -- The plan as the runtime commands read it.
  abbrev pub intent_json : IntentPlan Fl → PlanJson Fl
  intent_json p = record { blocks = p.blocks; ops = p.ops }

  with_rows :
      (rows : List PlanRange) (ops : List (PlanOp Fl)) (cs : List (LlamaKvCommand Fl))
      → All (λ o. Any (λ r. r ≡ row_of o) rows) ops
      → Pairwise IsCommandOf ops cs
      → Pairwise (λ o c. IsCommandOf o c × Any (IsRowOf c) rows) ops cs
  with_rows rows [] [] h k = tt
  with_rows rows (o ∷ ops) (c ∷ cs) h k = (
    (
      k.0,
      Any-imp rows h.0 (λ r e. record {
        key = ap row_key e ∙ (λ i. (k.0.layer_id i, k.0.block_id i));
        offset = sym (k.0.ssd_offset) ∙ ap (λ x. x.offset) (sym e);
        size_bytes = sym (k.0.size_bytes) ∙ ap (λ x. x.size_bytes) (sym e);
      }),
    ),
    with_rows rows ops cs h.1 k.1,
  )
  with_rows rows [] (c ∷ cs) h k = absurd k
  with_rows rows (o ∷ ops) [] h k = absurd k

  without_rows :
      (rows : List PlanRange) (ops : List (PlanOp Fl)) (cs : List (LlamaKvCommand Fl))
      → Pairwise (λ o c. IsCommandOf o c × Any (IsRowOf c) rows) ops cs
      → Pairwise IsCommandOf ops cs
  without_rows rows [] [] k = tt
  without_rows rows (o ∷ ops) (c ∷ cs) k = (k.0.0, without_rows rows ops cs k.1)
  without_rows rows [] (c ∷ cs) k = absurd k
  without_rows rows (o ∷ ops) [] k = absurd k

  -- Of a plan that `export_movement_intent_plan` returns, every event of the trace is an operation
  -- or counted as skipped, and the layout never stands in the way of its commands: it becomes the
  -- commands `cs` exactly when each operation in order becomes the command of `cs` in its place.
  pub export-IsCommandOf :
      (events : List (IntentEvent Fl)) (base_offset alignment : ℤ) (p : IntentPlan Fl) (skipped : ℕ)
      (cs : List (LlamaKvCommand Fl))
      → export_movement_intent_plan lowered events base_offset alignment ≡ ok (p, skipped)
      → (length p.ops + skipped ≡ length events)
        × ((commands_from_movement_plan (intent_json p) ≡ ok cs) ↔ Pairwise IsCommandOf p.ops cs)
  export-IsCommandOf events base_offset alignment p skipped cs h =
      let x = export-IsExported events base_offset alignment p skipped h in
      let both = commands_from_movement_plan_iff (intent_json p) cs in
      (
        x.count,
        (
          λ made. without_rows p.blocks p.ops cs (both.0 made).commands,
          λ k. both.1 (record { rows = x.rows; commands = with_rows p.blocks p.ops cs x.ops k }),
        ),
      )
