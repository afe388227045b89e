-- ===== src/Commands/Accept.antt =====
-- integrations/llama_cpp/runtime_commands.py: which plans become commands, and which commands.
use solid_attention.Base.{
  ◌≡◌, refl, ◌≢◌, ◌↔◌, inl, inr, not, none, some, List, [], ◌∷◌, ok, Any, Any-All, Any-imp, ok_inj,
  Pairwise, >>=-eq-ok, >>-eq-ok, skip_raise, ◌>>=◌, ◌∙◌, ap, sym, subst, Option-cases,
}
use solid_attention.Base.Int.{pos, eqb_ℤ, eqb_ℤ-≡, eqb_ℤ_self}
use solid_attention.Base.Dict.{Dict, get}
use solid_attention.Commands.{
  PlanOp, PlanRange, PlanJson, LlamaKvCommand, RowKey, row_key, row_key_discrete, command_from_op,
  layout_ranges, check_row, check_range, command_loop, commands_from_movement_plan,
}
use solid_attention.Commands.Check.{IsCommandOf, command_from_op_iff}
use solid_attention.Commands.Rows.{DistinctRows, Finds, layout_ranges-Finds, layout_ranges-distinct}

module _ {Fl : Type 0} where
  -- The row is the command's, and gives it the same bytes of the file.
  pub record IsRowOf (c : LlamaKvCommand Fl) (r : PlanRange) : Type 0 where
    pub key : row_key r ≡ (pos c.layer_id, pos c.block_id)
    pub offset : pos c.ssd_offset ≡ r.offset
    pub size_bytes : pos c.size_bytes ≡ r.size_bytes

  check_row_iff :
      (c : LlamaKvCommand Fl) (r : PlanRange)
      → (check_row c r ≡ ok tt)
        ↔ ((pos c.ssd_offset ≡ r.offset) × (pos c.size_bytes ≡ r.size_bytes))
  unfolding check_row
  check_row_iff c r = (
    λ h.
        let (offset, h') = >>-eq-ok (not (eqb_ℤ (pos c.ssd_offset) r.offset)) _ _ h in
        let (size, _) = >>-eq-ok (not (eqb_ℤ (pos c.size_bytes) r.size_bytes)) _ _ h' in
        (eqb_ℤ-≡ (pos c.ssd_offset) r.offset offset, eqb_ℤ-≡ (pos c.size_bytes) r.size_bytes size),
    λ (offset, size).
        rw (sym offset, sym size)
          (skip_raise _ _ (eqb_ℤ_self (pos c.ssd_offset))
            ∙ skip_raise _ _ (eqb_ℤ_self (pos c.size_bytes))),
  )

  check_range-some :
      (d : Dict RowKey PlanRange) (c : LlamaKvCommand Fl) (r : PlanRange)
      → get row_key_discrete (pos c.layer_id, pos c.block_id) d ≡ some r
      → check_range d c ≡ check_row c r
  unfolding check_range
  check_range-some d c r found = rw (found, check_range) refl

  check_range-none :
      (d : Dict RowKey PlanRange) (c : LlamaKvCommand Fl)
      → get row_key_discrete (pos c.layer_id, pos c.block_id) d ≡ none
      → check_range d c ≢ ok tt
  unfolding check_range
  check_range-none d c missing h = let stopped = rw (missing, check_range) at h in cc

-- The plan's commands: one for each operation in order, with a row of the layout for its block.
pub record AreCommandsOf {Fl : Type 0} (p : PlanJson Fl) (cs : List (LlamaKvCommand Fl))
    : Type 0 where
  pub rows : DistinctRows p.blocks
  pub commands : Pairwise (λ o c. IsCommandOf o c × Any (IsRowOf c) p.blocks) p.ops cs

module _ {Fl : Type 0} where
  check_range_iff :
      (d : Dict RowKey PlanRange) (rows : List PlanRange) (c : LlamaKvCommand Fl)
      → Finds d rows
      → (check_range d c ≡ ok tt) ↔ Any (IsRowOf c) rows
  check_range_iff d rows c finds = (
    λ h. elim (Option-cases (get row_key_discrete (pos c.layer_id, pos c.block_id) d)) [
      | inl missing ↦ absurd (check_range-none d c missing h)
      | inr (r, found) ↦
          let (offset, size) = (check_row_iff c r).0 (sym (check_range-some d c r found) ∙ h) in
          Any-imp rows (finds.1 (pos c.layer_id, pos c.block_id) r found) (λ q (e, k). record {
            key = k;
            offset = offset ∙ ap (λ x. x.offset) (sym e);
            size_bytes = size ∙ ap (λ x. x.size_bytes) (sym e);
          })
    ],
    λ h. Any-All rows h finds.0 (λ r is found.
        let at_key : get row_key_discrete (pos c.layer_id, pos c.block_id) d ≡ some r =
          ap (λ k. get row_key_discrete k d) (sym is.key) ∙ found in
        check_range-some d c r at_key ∙ (check_row_iff c r).1 (is.offset, is.size_bytes)),
  )

  loop_commands :
      (d : Dict RowKey PlanRange) (rows : List PlanRange) (ops : List (PlanOp Fl))
      → Finds d rows
      → (cs : List (LlamaKvCommand Fl)) → command_loop d ops ≡ ok cs
      → Pairwise (λ o c. IsCommandOf o c × Any (IsRowOf c) rows) ops cs
  unfolding command_loop
  loop_commands d rows [] finds cs h =
      subst (Pairwise (λ o c. IsCommandOf o c × Any (IsRowOf c) rows) []) (ok_inj h) tt
  loop_commands d rows (o ∷ ops) finds cs h =
      let (c, made, h') = >>=-eq-ok (command_from_op o) _ h in
      let (_, row, h'') = >>=-eq-ok (check_range d c) _ h' in
      let (more, rest, all) = >>=-eq-ok (command_loop d ops) _ h'' in
      subst (Pairwise (λ o c. IsCommandOf o c × Any (IsRowOf c) rows) (o ∷ ops)) (ok_inj all) (
        ((command_from_op_iff o c).0 made, (check_range_iff d rows c finds).0 row),
        loop_commands d rows ops finds more rest,
      )

  commands_loop :
      (d : Dict RowKey PlanRange) (rows : List PlanRange) (ops : List (PlanOp Fl))
      → Finds d rows
      → (cs : List (LlamaKvCommand Fl))
      → Pairwise (λ o c. IsCommandOf o c × Any (IsRowOf c) rows) ops cs
      → command_loop d ops ≡ ok cs
  unfolding command_loop
  commands_loop d rows [] finds [] h = refl
  commands_loop d rows [] finds (c ∷ cs) h = absurd h
  commands_loop d rows (o ∷ ops) finds [] h = absurd h
  commands_loop d rows (o ∷ ops) finds (c ∷ cs) h =
      rw
        (
          (command_from_op_iff o c).1 h.0.0,
          (check_range_iff d rows c finds).1 h.0.1,
          commands_loop d rows ops finds cs h.1,
        )
        refl

  -- A plan becomes the commands `cs` exactly when no two rows of its layout have one key and `cs`
  -- has, for each operation of the plan in order, the command that stands for it, with a row of the
  -- layout that has the command's block, offset and size.
  pub commands_from_movement_plan_iff :
      (p : PlanJson Fl) (cs : List (LlamaKvCommand Fl))
      → (commands_from_movement_plan p ≡ ok cs) ↔ AreCommandsOf p cs
  unfolding commands_from_movement_plan
  commands_from_movement_plan_iff p cs = (
    λ h.
        let (d, ranged, h') = >>=-eq-ok (layout_ranges [] p.blocks) _ h in
        let distinct = layout_ranges-distinct p.blocks d ranged in
        let (found, again, finds) = layout_ranges-Finds p.blocks distinct in
        record {
          rows = distinct;
          commands =
              loop_commands found p.blocks p.ops finds cs
                (ap (λ r. r >>= λ e. command_loop e p.ops) (sym again) ∙ h);
        },
    λ a.
        let (d, ranged, finds) = layout_ranges-Finds p.blocks a.rows in
        rw ranged (commands_loop d p.blocks p.ops finds cs a.commands),
  )
