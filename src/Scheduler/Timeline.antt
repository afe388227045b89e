-- ===== src/Scheduler/Timeline.antt =====
-- core/scheduler.py: the whole of `schedule`, over blocks that the store holds.
use solid_attention.Base.{ℕ, ◌≡◌, refl, List, [], ◌∷◌, ◌++◌, ok, ◌∙◌, sym, append-nil, All, All-imp}
use solid_attention.Base.Unique.{dedupe-All}
use solid_attention.Float.{FloatOps, FloatLaws}
use solid_attention.Block.{vram, KvBlock, key, key_discrete, move_to}
use solid_attention.Metrics.{Metrics}
use solid_attention.World.{Ref, World, update, then_ok, pure}
use solid_attention.World.Effects.{traced, charged, traced-nil, traced-append, charged-append}
use solid_attention.Scheduler.{
  SchedulerConfig, ScheduleOp, Progress, schedule_block, schedule_loop, schedule,
}
use solid_attention.Store.Placed.{moved_heap, unique}
use solid_attention.Store.Held.{Stored, after_op, Stored-after_op}
use solid_attention.Scheduler.Steps.{IsConfig}
use solid_attention.Scheduler.Resident.{
  block_ops, block_metrics, end_of, finish, finish-finish, schedule_block_lem,
}

module _ {Fl : Type 0} ⦃fl : FloatOps Fl⦄ (cfg : SchedulerConfig Fl) where
  abbrev pub timeline : List Ref → (Ref → KvBlock Fl) → Fl → List (ScheduleOp Fl)
  timeline [] h now = []
  timeline (r ∷ rs) h now =
      let ops = block_ops cfg (h r).location (h r) now in
      ops ++ timeline rs (update r (move_to vram (h r)) h) (end_of now ops)

  abbrev pub loop_metrics : List Ref → (Ref → KvBlock Fl) → List (Metrics Fl)
  loop_metrics [] h = []
  loop_metrics (r ∷ rs) h =
      block_metrics cfg (h r).location (h r) ++ loop_metrics rs (update r (move_to vram (h r)) h)

  abbrev pub after_loop : List Ref → Fl → World Fl → World Fl
  after_loop rs now w = record w {
    heap = moved_heap vram rs w.heap;
    trace = traced (timeline rs w.heap now) w.trace;
    metrics = charged (loop_metrics rs w.heap) w.metrics;
  }

  schedule_loop_lem :
      FloatLaws fl
      → IsConfig cfg
      → cfg.compute_location ≡ vram
      → (rs : List Ref) (p : Progress Fl) (w : World Fl) → All (Stored w) rs
      → schedule_loop cfg rs p w ≡ (ok (finish p (timeline rs w.heap p.1)), after_loop rs p.1 w)
  unfolding schedule_loop
  schedule_loop_lem laws c in_vram [] p w stored =
      λ i. (ok (sym (append-nil p.0) i, p.1), record w { trace = sym (traced-nil w.trace) i })
  schedule_loop_lem laws c in_vram (r ∷ rs) p w stored =
      let l = (w.heap r).location in
      let ops = block_ops cfg l (w.heap r) p.1 in
      let ds = block_metrics cfg l (w.heap r) in
      let w1 = after_op r vram ops ds w in
      let p1 = finish p ops in
      then_ok (schedule_block cfg r p) (schedule_loop cfg rs) w
        (schedule_block_lem laws cfg c in_vram r l p w stored.0 refl)
      ∙ schedule_loop_lem laws c in_vram rs p1 w1
          (All-imp (Stored w) (Stored w1) (λ q. Stored-after_op r q vram ops ds w) rs stored.1)
      ∙ λ i. (
        ok (finish-finish p ops (timeline rs w1.heap p1.1) i),
        record w {
          heap = moved_heap vram rs w1.heap;
          trace = traced-append ops (timeline rs w1.heap p1.1) w.trace i;
          metrics = charged-append ds (loop_metrics rs w1.heap) w.metrics i;
        },
      )

  pub schedule_lem :
      FloatLaws fl
      → IsConfig cfg
      → cfg.compute_location ≡ vram
      → (blocks : List Ref) (step : ℕ) (start : Fl) (w : World Fl) → All (Stored w) blocks
      → schedule cfg blocks step start w ≡ (
        ok (record { step = step; ops = timeline (unique blocks w) w.heap start }),
        after_loop (unique blocks w) start w,
      )
  unfolding schedule
  schedule_lem laws c in_vram blocks step start w stored =
      then_ok (schedule_loop cfg (unique blocks w) ([], start))
        (λ q. pure (record { step = step; ops = q.0 })) w
        (schedule_loop_lem laws c in_vram (unique blocks w) ([], start) w
          (dedupe-All key_discrete (λ r. key (w.heap r)) (Stored w) blocks stored))
