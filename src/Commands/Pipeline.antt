-- ===== src/Commands/Pipeline.antt =====
-- From the scheduler to the commands: core/scheduler.py, core/movement_plan.py and
-- integrations/llama_cpp/runtime_commands.py one after the other.
use solid_attention.Base.{
  ℕ, ◌<◌, ◌≡◌, refl, inl, inr, List, [], ◌∷◌, map, ok, Returns, String, All, All-append, All-imp,
  Any, Any-imp, Any-map, All-map, All-member, subst, either_way, Pairwise, ◌∙◌, ap, sym, false,
}
use solid_attention.Base.Int.{pos}
use solid_attention.Base.Texts.{apart_texts}
use solid_attention.Base.Unique.{dedupe-All}
use solid_attention.Float.{FloatOps, FloatLaws}
use solid_attention.Block.{
  Value, BlockLocation, location_value, vram, KvBlock, BlockKey, key, key_discrete, move_to,
}
use solid_attention.World.{Ref, World, update}
use solid_attention.Store.Held.{Stored}
use solid_attention.Store.Moves.{key-update_move}
use solid_attention.Store.Placed.{unique, moved_heap, moved_heap-member, member}
use solid_attention.Scheduler.{
  SchedulerConfig, ScheduleOp, ScheduleResult, schedule, ssd_read_op, dram_to_vram_op, compute_op,
}
use solid_attention.Scheduler.Steps.{IsConfig}
use solid_attention.Scheduler.Resident.{block_ops}
use solid_attention.Scheduler.Timeline.{timeline, after_loop, schedule_lem}
use solid_attention.MovementPlan.{lookup, text_or, movement_of, build_movement_plan}
use solid_attention.MovementPlan.Ranges.{Nonempty}
use solid_attention.MovementPlan.Build.{IsPlannable, build_movement_plan-Carries}
use solid_attention.Commands.{plan_json, commands_from_movement_plan}
use solid_attention.Commands.Plan.{IsRunnable, Serves, plan-Serves}

module _ {Fl : Type 0} ⦃fl : FloatOps Fl⦄ (laws : FloatLaws fl) (show : Value Fl → String)
    (shows : (s : String) → show (Value.text s) ≡ s) (cfg : SchedulerConfig Fl)
    (c : IsConfig cfg) where
  -- An operation of the schedule on the block with the key.
  record IsOpOn (k : BlockKey) (s : ScheduleOp Fl) : Type 0 where
    at_key : (s.layer_id, s.block_id) ≡ k
    timely : fl.lt s.end_ms s.start_ms ≡ false
    runnable : IsRunnable show s

  read-IsOpOn : (b : KvBlock Fl) (now : Fl) → IsOpOn (key b) (ssd_read_op cfg b now)
  unfolding movement_of text_or lookup
  read-IsOpOn b now = record {
    at_key = refl;
    timely = laws.add_grows now _ c.ssd_read;
    runnable = (
      ("kv_load", ("ssd", "dram")),
      λ i. ok ("kv_load", (shows "ssd" i, shows "dram" i)),
      inr (inr (inl refl, inl refl, inr (inl refl), apart_texts "ssd" "dram" refl)),
    );
  }

  copy-IsOpOn :
      (b : KvBlock Fl) (now : Fl) → IsOpOn (key b) (dram_to_vram_op cfg BlockLocation.dram b now)
  unfolding movement_of text_or lookup location_value
  copy-IsOpOn b now = record {
    at_key = refl;
    timely = laws.add_grows now _ c.dram_to_vram;
    runnable = (
      ("kv_load", ("dram", "vram")),
      λ i. ok ("kv_load", (shows "dram" i, shows "vram" i)),
      inr (inr (inl refl, inr (inl refl), inr (inr refl), apart_texts "dram" "vram" refl)),
    );
  }

  compute-IsOpOn :
      (b : KvBlock Fl) (now : Fl) → IsOpOn (key b) (compute_op cfg (move_to vram b) now)
  unfolding movement_of text_or lookup location_value
  compute-IsOpOn b now = record {
    at_key = refl;
    timely = laws.add_grows now _ c.compute;
    runnable = (
      ("kv_compute", ("vram", "vram")),
      λ i. ok ("kv_compute", (shows "vram" i, shows "vram" i)),
      inl (refl, refl, refl),
    );
  }

  block_ops-IsOpOn :
      (l : BlockLocation) (b : KvBlock Fl) (now : Fl) → All (IsOpOn (key b)) (block_ops cfg l b now)
  block_ops-IsOpOn BlockLocation.ssd b now =
      (read-IsOpOn b _, (copy-IsOpOn b _, (compute-IsOpOn b _, tt)))
  block_ops-IsOpOn BlockLocation.dram b now = (copy-IsOpOn b _, (compute-IsOpOn b _, tt))
  block_ops-IsOpOn BlockLocation.vram b now = (compute-IsOpOn b _, tt)

  module _ (blocks : List (KvBlock Fl)) where
    abbrev IsOpOf : ScheduleOp Fl → Type 0
    IsOpOf s = IsPlannable show blocks s × IsRunnable show s

    timeline-IsOpOf :
        (rs : List Ref) (h : Ref → KvBlock Fl) (now : Fl)
        → All (λ r. Any (λ b. key (h r) ≡ key b) blocks) rs
        → All IsOpOf (timeline cfg rs h now)
    timeline-IsOpOf [] h now listed = tt
    timeline-IsOpOf (r ∷ rs) h now listed =
        All-append IsOpOf _ _
          (All-imp _ IsOpOf
            (λ s o. (
              record {
                block = Any-imp blocks listed.0 (λ b e. o.at_key ∙ e);
                timely = o.timely;
                known = (o.runnable.0, o.runnable.1);
              },
              o.runnable,
            ))
            _ (block_ops-IsOpOn (h r).location (h r) now))
          (timeline-IsOpOf rs (update r (move_to vram (h r)) h) _ (
            All-imp _ _ (λ q at. Any-imp blocks at (λ b e. key-update_move vram r q h ∙ e)) rs
              listed.1))

-- A move keeps what the plan is built from.
module _ {Fl : Type 0} (rs : List Ref) (h : Ref → KvBlock Fl) (q : Ref) where
  moved-Nonempty : Nonempty (h q) → Nonempty (moved_heap vram rs h q)
  moved-Nonempty n =
      subst Nonempty (sym (moved_heap-member vram rs h q))
        (either_way Nonempty (member q rs) (move_to vram (h q)) (h q) n n)

  moved-key : key (h q) ≡ key (moved_heap vram rs h q)
  moved-key =
      subst (λ b. key (h q) ≡ key b) (sym (moved_heap-member vram rs h q))
        (either_way (λ b. key (h q) ≡ key b) (member q rs) (move_to vram (h q)) (h q) refl refl)

module _ {Fl : Type 0} ⦃fl : FloatOps Fl⦄ (laws : FloatLaws fl) (show : Value Fl → String)
    (shows : (s : String) → show (Value.text s) ≡ s) (cfg : SchedulerConfig Fl)
    (c : IsConfig cfg) where
  -- The schedule, the plan that is built from it for the blocks of the call, and the commands that
  -- are read back from the plan.
  pub record Served (blocks : List Ref) (step : ℕ) (start : Fl) (base_offset alignment : ℕ)
      (w : World Fl) : Type 0 where
    pub result : ScheduleResult Fl
    pub after : World Fl
    pub scheduled : schedule cfg blocks step start w ≡ (ok result, after)
    pub served :
        Returns
          (λ p.
            Returns
              (Pairwise (Serves show p.layout) result.ops)
              (commands_from_movement_plan (plan_json p)))
          (build_movement_plan show
            (map after.heap blocks)
            result
            (pos base_offset)
            (pos alignment))

  -- With compute in VRAM, for stored blocks that have bytes and tokens, and where `str` of a text
  -- is the text: `schedule` returns, `build_movement_plan` of its result returns, and
  -- `commands_from_movement_plan` of that plan returns one command for each operation of the
  -- schedule, in order, on the block of the operation and its range of the plan's layout.
  pub schedule-Served :
      cfg.compute_location ≡ vram
      → (blocks : List Ref) (step : ℕ) (start : Fl) (base_offset alignment : ℕ) (w : World Fl)
      → All (Stored w) blocks
      → All (λ r. Nonempty (w.heap r)) blocks
      → 0 < alignment
      → Served blocks step start base_offset alignment w
  schedule-Served in_vram blocks step start base_offset alignment w stored nonempty positive =
      let rs = unique blocks w in
      let after = after_loop cfg rs start w in
      let result : ScheduleResult Fl = record { step = step; ops = timeline cfg rs w.heap start } in
      let held = map after.heap blocks in
      let sizes =
        All-map after.heap Nonempty blocks
          (All-imp _ _ (λ r n. moved-Nonempty rs w.heap r n) blocks nonempty) in
      let listed =
        dedupe-All key_discrete (λ r. key (w.heap r)) (λ r. Any (λ b. key (w.heap r) ≡ key b) held)
          blocks
          (All-imp _ _
            (λ r at.
              Any-map after.heap _ blocks (
                Any-imp blocks at
                  (λ y e. ap (λ x. key (w.heap x)) (sym e) ∙ moved-key rs w.heap y)))
            blocks (All-member blocks)) in
      let ops = timeline-IsOpOf laws show shows cfg c held rs w.heap start listed in
      let (p, built, (carries, chained, distinct)) =
        build_movement_plan-Carries show held result base_offset alignment positive sizes
          (All-imp _ _ (λ s o. o.0) result.ops ops) in
      record {
        result = result;
        after = after;
        scheduled = schedule_lem cfg laws c in_vram blocks step start w stored;
        served = (
          p,
          built,
          plan-Serves show held p result.ops chained distinct carries
              (All-imp _ _ (λ s o. o.1) result.ops ops),
        );
      }
