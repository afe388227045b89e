-- ===== src/Scheduler.antt =====
-- core/scheduler.py: the timeline of loads and computes of one decode step. The blocks are
-- references: what a load moves is the block that the store has under the same key, and what the
-- loop tests is the block that the caller passed.
mod Config
pub mod Steps
pub mod Resident
pub mod Timeline
pub mod Placement
pub mod Summary
pub mod Reads
pub mod Refusals
pub use Config.*
use solid_attention.Base.{
  ℕ, Bool, true, false, not, List, [], ◌∷◌, ◌++◌, Result, ok, err, value_error, if◌then◌else◌,
}
use solid_attention.Base.Unique.{dedupe}
use solid_attention.Float.{FloatOps}
use solid_attention.Block.{
  BlockLocation, ssd, dram, vram, location_value, same_location, KvBlock, key, key_discrete,
}
use solid_attention.Store.{move_block}
use solid_attention.World.{
  Ref, World, Action, pure, raise, gets, deref, ◌>>=◌, ◌>>◌, record_trace, add_metrics,
}

-- The operations so far, and the time at which the next one starts.
abbrev pub Progress : Type 0 → Type 0
Progress Fl = List (ScheduleOp Fl) × Fl

-- `ops.append(op); now = op.end_ms`
abbrev pub extend : {Fl : Type 0} → Progress Fl → ScheduleOp Fl → Progress Fl
extend (ops, now) op = (ops ++ op ∷ [], op.end_ms)

pub record ScheduleResult (Fl : Type 0) : Type 0 where
  pub step : ℕ
  pub ops : List (ScheduleOp Fl)

module _ {Fl : Type 0} ⦃fl : FloatOps Fl⦄ where
  -- `_make_op`
  unfoldable pub make_op : ScheduleOp Fl → Action Fl (ScheduleOp Fl)
  make_op op = do record_trace op; pure op

  module _ (cfg : SchedulerConfig Fl) where
    unfoldable pub schedule_ssd_read : Ref → Fl → Action Fl (ScheduleOp Fl)
    unfolding make_op
    schedule_ssd_read r start_ms = do
      b ← deref r
      move_block b.layer_id b.block_id (location_value dram)
      moved ← deref r
      op ← make_op (ssd_read_op cfg moved start_ms)
      add_metrics (ssd_read_metrics cfg moved)
      pure op

    unfoldable pub schedule_dram_to_vram : Ref → Fl → Action Fl (ScheduleOp Fl)
    unfolding make_op
    schedule_dram_to_vram r start_ms = do
      b ← deref r
      let before = b.location
      move_block b.layer_id b.block_id (location_value vram)
      moved ← deref r
      op ← make_op (dram_to_vram_op cfg before moved start_ms)
      add_metrics (dram_to_vram_metrics cfg)
      pure op

    unfoldable pub schedule_compute : Ref → Fl → Action Fl (ScheduleOp Fl)
    unfolding make_op
    schedule_compute r start_ms = do
      b ← deref r
      op ← make_op (compute_op cfg b start_ms)
      add_metrics (compute_metrics cfg)
      pure op

    -- `if block.location == BlockLocation.SSD: ...`
    unfoldable pub load_from_ssd : Ref → Progress Fl → Action Fl (Progress Fl)
    load_from_ssd r p = do
      b ← deref r
      let load = schedule_ssd_read r p.1 >>= λ op. pure (extend p op)
      if same_location b.location ssd then load else pure p

    -- `if block.location == BlockLocation.DRAM: ...`
    unfoldable pub load_from_dram : Ref → Progress Fl → Action Fl (Progress Fl)
    load_from_dram r p = do
      b ← deref r
      let load = schedule_dram_to_vram r p.1 >>= λ op. pure (extend p op)
      if same_location b.location dram then load else pure p

    -- The check before the compute, and the compute.
    unfoldable pub compute_or_raise : Ref → Progress Fl → Action Fl (Progress Fl)
    compute_or_raise r p = do
      b ← deref r
      let compute = schedule_compute r p.1 >>= λ op. pure (extend p op)
      if not (same_location b.location cfg.compute_location)
          then raise (value_error "block is not at the compute location before compute")
          else compute

    -- One round of the loop of `schedule`.
    unfoldable pub schedule_block : Ref → Progress Fl → Action Fl (Progress Fl)
    schedule_block r p = do
      loaded ← load_from_ssd r p
      copied ← load_from_dram r loaded
      compute_or_raise r copied

    unfoldable pub schedule_loop : List Ref → Progress Fl → Action Fl (Progress Fl)
    schedule_loop [] p = pure p
    schedule_loop (r ∷ rs) p = do next ← schedule_block r p; schedule_loop rs next

    -- `SSDAwareScheduler.schedule`
    unfoldable pub schedule : List Ref → ℕ → Fl → Action Fl (ScheduleResult Fl)
    unfolding schedule_loop
    schedule blocks step start_ms = do
      unique ← gets (λ w. dedupe key_discrete (λ r. key (w.heap r)) blocks)
      (ops, now) ← schedule_loop unique ([], start_ms)
      pure (record { step = step; ops = ops })
