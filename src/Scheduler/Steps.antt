-- ===== src/Scheduler/Steps.antt =====
-- core/scheduler.py: what each step does to the shared objects, for a block that the store holds.
use solid_attention.Base.{◌≡◌, false, [], ◌∷◌, ok, arith}
use solid_attention.Float.{FloatOps, FloatLaws}
use solid_attention.Block.{BlockLocation, dram, vram, location_value, move_to}
use solid_attention.Block.Checks.{location_roundtrip}
use solid_attention.Store.{move_block}
use solid_attention.Store.Moves.{move_block_moves}
use solid_attention.Trace.{IsTimely}
use solid_attention.World.{Ref, World, update}
use solid_attention.World.Effects.{
  traced, charged, update_self, record_trace-timely, add_metrics_lem,
}
use solid_attention.Store.Held.{Stored, after_op}
use solid_attention.Scheduler.{
  SchedulerConfig, ScheduleOp, ssd_read_op, ssd_read_metrics, dram_to_vram_op, dram_to_vram_metrics,
  compute_op, compute_metrics, make_op, schedule_ssd_read, schedule_dram_to_vram, schedule_compute,
}

-- The latencies are such as `SchedulerConfig` accepts.
pub record IsConfig {Fl : Type 0} ⦃fl : FloatOps Fl⦄ (cfg : SchedulerConfig Fl) : Type 0 where
  pub ssd_read : fl.lt cfg.ssd_read_latency_ms fl.zero ≡ false
  pub dram_to_vram : fl.lt cfg.dram_to_vram_latency_ms fl.zero ≡ false
  pub compute : fl.lt cfg.compute_latency_ms fl.zero ≡ false

module _ {Fl : Type 0} ⦃fl : FloatOps Fl⦄ where
  pub make_op_timely :
      (op : ScheduleOp Fl) (w : World Fl)
      → IsTimely op
      → make_op op w ≡ (ok op, record w { trace = traced (op ∷ []) w.trace })
  unfolding make_op
  make_op_timely op w h = ground (arith, record_trace-timely op w h)

  module _ (laws : FloatLaws fl) (cfg : SchedulerConfig Fl) (c : IsConfig cfg) (r : Ref) (now : Fl)
      (w : World Fl) (stored : Stored w r) where
    moved :
        (l : BlockLocation)
        → move_block (w.heap r).layer_id (w.heap r).block_id (location_value l) w
          ≡ (ok r, record w { heap = update r (move_to l (w.heap r)) w.heap })
    moved l = move_block_moves _ _ (location_value l) w r l stored (location_roundtrip l)

    pub schedule_ssd_read_lem :
        let op = ssd_read_op cfg (w.heap r) now in
        schedule_ssd_read cfg r now w
        ≡ (ok op, after_op r dram (op ∷ []) (ssd_read_metrics cfg (w.heap r) ∷ []) w)
    unfolding schedule_ssd_read
    schedule_ssd_read_lem =
        let b = move_to dram (w.heap r) in
        let w1 = record w { heap = update r b w.heap } in
        let op = ssd_read_op cfg b now in
        let w2 = record w1 { trace = traced (op ∷ []) w.trace } in
        ground (
          arith,
          moved dram,
          update_self r b w.heap,
          make_op_timely op w1 (laws.add_grows now _ c.ssd_read),
          add_metrics_lem (ssd_read_metrics cfg b) w2,
        )

    pub schedule_dram_to_vram_lem :
        let before = (w.heap r).location in
        let op = dram_to_vram_op cfg before (w.heap r) now in
        schedule_dram_to_vram cfg r now w
        ≡ (ok op, after_op r vram (op ∷ []) (dram_to_vram_metrics cfg ∷ []) w)
    unfolding schedule_dram_to_vram
    schedule_dram_to_vram_lem =
        let before = (w.heap r).location in
        let b = move_to vram (w.heap r) in
        let w1 = record w { heap = update r b w.heap } in
        let op = dram_to_vram_op cfg before b now in
        let w2 = record w1 { trace = traced (op ∷ []) w.trace } in
        ground (
          arith,
          moved vram,
          update_self r b w.heap,
          make_op_timely op w1 (laws.add_grows now _ c.dram_to_vram),
          add_metrics_lem (dram_to_vram_metrics cfg) w2,
        )

  pub schedule_compute_lem :
      (laws : FloatLaws fl) (cfg : SchedulerConfig Fl)
      → IsConfig cfg
      → (r : Ref) (now : Fl) (w : World Fl)
      → let op = compute_op cfg (w.heap r) now in
        schedule_compute cfg r now w ≡ (
          ok op,
          record w {
            trace = traced (op ∷ []) w.trace;
            metrics = charged (compute_metrics cfg ∷ []) w.metrics;
          },
        )
  unfolding schedule_compute
  schedule_compute_lem laws cfg c r now w =
      let op = compute_op cfg (w.heap r) now in
      let w1 = record w { trace = traced (op ∷ []) w.trace } in
      ground (
        arith,
        make_op_timely op w (laws.add_grows now _ c.compute),
        add_metrics_lem (compute_metrics cfg) w1,
      )
