-- ===== src/Prefetcher/Execute.antt =====
-- core/prefetcher.py: what `execute` does to the blocks of a plan that the store holds.
use solid_attention.Base.{
  ◌≡◌, refl, false, List, [], ◌∷◌, ◌++◌, ok, arith, ◌∙◌, sym, All, All-imp, if◌then◌else◌,
}
use solid_attention.Base.Int.{pos}
use solid_attention.Float.{FloatOps, FloatLaws}
use solid_attention.Block.{ssd, location_value, same_location, Value, KvBlock, move_to}
use solid_attention.Block.Checks.{location_roundtrip}
use solid_attention.Metrics.{Metrics, no_metrics}
use solid_attention.Store.Held.{Stored, after_op, Stored-after_op}
use solid_attention.Store.Moves.{move_block_moves}
use solid_attention.Store.Placed.{member, moved_heap, moved_heap-member}
use solid_attention.Trace.{TraceEvent}
use solid_attention.World.{Ref, World, update, then_ok}
use solid_attention.World.Effects.{
  traced, charged, traced-nil, traced-append, charged-append, update_self, record_trace-timely,
  add_metrics_lem,
}
use solid_attention.Prefetcher.{
  PrefetchConfig, PrefetchPlan, record_block, charge_read, execute_block, execute_loop, execute,
}

module _ {Fl : Type 0} ⦃fl : FloatOps Fl⦄ (cfg : PrefetchConfig Fl) (plan : PrefetchPlan)
    (start : Fl) where
  -- The event of a block that was at the location `before`.
  abbrev pub move_event : KvBlock Fl → TraceEvent Fl
  move_event b = record {
    op = "prefetch_move";
    layer_id = b.layer_id;
    block_id = b.block_id;
    device = location_value plan.target_location;
    start_ms = start;
    end_ms = fl.add start cfg.mock_latency_ms;
    metadata =
        ("step", Value.int (pos plan.step))
        ∷ ("from_location", Value.text (location_value b.location))
        ∷ ("to_location", Value.text (location_value plan.target_location))
        ∷ ("size_bytes", Value.int (pos b.size_bytes))
        ∷ [];
  }

  -- Only a read from the SSD is charged.
  abbrev pub read_charge : KvBlock Fl → List (Metrics Fl)
  read_charge b =
      if same_location b.location ssd
      then record no_metrics {
        total_latency_ms = cfg.mock_latency_ms;
        ssd_read_bytes = b.size_bytes;
        io_op_count = 1;
      }
        ∷ []
      else []

  abbrev pub move_events : List Ref → (Ref → KvBlock Fl) → List (TraceEvent Fl)
  move_events [] h = []
  move_events (r ∷ rs) h =
      move_event (h r) ∷ move_events rs (update r (move_to plan.target_location (h r)) h)

  abbrev pub read_charges : List Ref → (Ref → KvBlock Fl) → List (Metrics Fl)
  read_charges [] h = []
  read_charges (r ∷ rs) h =
      read_charge (h r) ++ read_charges rs (update r (move_to plan.target_location (h r)) h)

  module _ (laws : FloatLaws fl) (latency : fl.lt cfg.mock_latency_ms fl.zero ≡ false) where
    charge_read_lem :
        (b : KvBlock Fl) (w : World Fl)
        → charge_read cfg b.location b w
          ≡ (ok tt, record w { metrics = charged (read_charge b) w.metrics })
    unfolding charge_read
    charge_read_lem b w = ground (
      arith,
      add_metrics_lem
          (record no_metrics {
            total_latency_ms = cfg.mock_latency_ms;
            ssd_read_bytes = b.size_bytes;
            io_op_count = 1;
          })
          w,
    )

    execute_block_lem :
        (r : Ref) (w : World Fl)
        → Stored w r
        → execute_block cfg plan start r w ≡ (
          ok tt,
          after_op r plan.target_location (move_event (w.heap r) ∷ []) (read_charge (w.heap r)) w,
        )
    unfolding execute_block record_block
    execute_block_lem r w stored =
        let l = plan.target_location in
        let b = move_to l (w.heap r) in
        let w1 = record w { heap = update r b w.heap } in
        let event = move_event (w.heap r) in
        let w2 = record w1 { trace = traced (event ∷ []) w.trace } in
        ground (
          arith,
          move_block_moves (w.heap r).layer_id (w.heap r).block_id (location_value l) w r l stored
              (location_roundtrip l),
          update_self r b w.heap,
          record_trace-timely event w1 (laws.add_grows start _ latency),
          charge_read_lem (w.heap r) w2,
        )

    execute_loop_lem :
        (rs : List Ref) (w : World Fl)
        → All (Stored w) rs
        → execute_loop cfg plan start rs w ≡ (
          ok tt,
          record w {
            heap = moved_heap plan.target_location rs w.heap;
            trace = traced (move_events rs w.heap) w.trace;
            metrics = charged (read_charges rs w.heap) w.metrics;
          },
        )
    unfolding execute_loop
    execute_loop_lem [] w stored = λ i. (ok tt, record w { trace = sym (traced-nil w.trace) i })
    execute_loop_lem (r ∷ rs) w stored =
        let l = plan.target_location in
        let es = move_event (w.heap r) ∷ [] in
        let ds = read_charge (w.heap r) in
        let w1 = after_op r l es ds w in
        then_ok (execute_block cfg plan start r) (λ _. execute_loop cfg plan start rs) w
          (execute_block_lem r w stored.0)
        ∙ execute_loop_lem rs w1
            (All-imp (Stored w) (Stored w1) (λ q. Stored-after_op r q l es ds w) rs stored.1)
        ∙ λ i. (
          ok tt,
          record w {
            heap = moved_heap l rs w1.heap;
            trace = traced-append es (move_events rs w1.heap) w.trace i;
            metrics = charged-append ds (read_charges rs w1.heap) w.metrics i;
          },
        )

    -- `execute` of a plan over stored blocks, with a latency that is not negative, returns; every
    -- planned block is then at the target and otherwise unchanged, every other block and the
    -- store's table are as before, the trace has a move event for each planned block, and the
    -- metrics grow by one read for each move away from the SSD.
    pub execute_placement :
        (w : World Fl)
        → All (Stored w) plan.blocks
        → (w' : World Fl) × (execute cfg plan start w ≡ (ok tt, w'))
          × ((q : Ref)
              → w'.heap q ≡ (
                  if member q plan.blocks
                  then move_to plan.target_location (w.heap q)
                  else w.heap q))
          × (w'.blocks ≡ w.blocks)
          × (w'.trace ≡ traced (move_events plan.blocks w.heap) w.trace)
          × (w'.metrics ≡ charged (read_charges plan.blocks w.heap) w.metrics)
    execute_placement w stored = (
      record w {
        heap = moved_heap plan.target_location plan.blocks w.heap;
        trace = traced (move_events plan.blocks w.heap) w.trace;
        metrics = charged (read_charges plan.blocks w.heap) w.metrics;
      },
      execute_loop_lem plan.blocks w stored,
      (λ q. moved_heap-member plan.target_location plan.blocks w.heap q),
      refl,
      refl,
      refl,
    )
