-- ===== src/Prefetcher/Round.antt =====
-- core/prefetcher.py: `evaluate` as a step, and a round of `execute` and `evaluate`.
use solid_attention.Base.{
  ℕ, ◌+◌, ◌≡◌, refl, true, false, not, some, List, [], ◌∷◌, ok, arith, ◌∙◌, ap, sym, All, All-imp,
  length, filter_by, String, Bool-cases, inl, inr,
}
use mathlib.Core.Path.{fun_ext}
use solid_attention.Base.Int.{pos}
use solid_attention.Base.Unique.{dedupe}
use solid_attention.Float.{FloatOps, FloatLaws}
use solid_attention.Block.{location_value, Value, Metadata, KvBlock, key, key_discrete}
use solid_attention.Metrics.{Metrics, no_metrics, add, prefetch_attempt_count}
use solid_attention.Store.Held.{Stored}
use solid_attention.Store.Placed.{member}
use solid_attention.Trace.{TraceEvent}
use solid_attention.World.{Ref, World, ◌>>◌, then_ok}
use solid_attention.World.Effects.{
  traced, charged, traced-nil, traced-append, record_trace-timely, add_metrics_lem,
}
use solid_attention.Prefetcher.{
  PrefetchConfig, PrefetchPlan, PrefetchEvaluation, distinct, rate_blocks, record_block,
  record_loop, execute, evaluate,
}
use solid_attention.Prefetcher.Execute.{execute_placement}
use solid_attention.Prefetcher.Evaluate.{rated, rated_all}

module _ {Fl : Type 0} ⦃fl : FloatOps Fl⦄ where
  -- The event of a rated block.
  abbrev pub rating_event : String → Fl → Fl → Metadata Fl → KvBlock Fl → TraceEvent Fl
  rating_event op start_ms end_ms metadata b = record {
    op = op;
    layer_id = b.layer_id;
    block_id = b.block_id;
    device = location_value b.location;
    start_ms = start_ms;
    end_ms = end_ms;
    metadata = metadata;
  }

  abbrev pub rating_events :
      String → Fl → Fl → Metadata Fl → (Ref → KvBlock Fl) → List Ref → List (TraceEvent Fl)
  rating_events op start_ms end_ms metadata heap [] = []
  rating_events op start_ms end_ms metadata heap (r ∷ rs) =
      rating_event op start_ms end_ms metadata (heap r)
      ∷ rating_events op start_ms end_ms metadata heap rs

  record_loop_lem :
      (op : String) (start_ms end_ms : Fl) (metadata : Metadata Fl) (rs : List Ref) (w : World Fl)
      → fl.lt end_ms start_ms ≡ false
      → record_loop op start_ms end_ms metadata rs w ≡ (
        ok tt,
        record w { trace = traced (rating_events op start_ms end_ms metadata w.heap rs) w.trace },
      )
  unfolding record_loop record_block
  record_loop_lem op start_ms end_ms metadata [] w timely =
      λ i. (ok tt, record w { trace = sym (traced-nil w.trace) i })
  record_loop_lem op start_ms end_ms metadata (r ∷ rs) w timely =
      let e = rating_event op start_ms end_ms metadata (w.heap r) in
      let w1 = record w { trace = traced (e ∷ []) w.trace } in
      then_ok (record_block op r start_ms end_ms metadata)
        (λ _. record_loop op start_ms end_ms metadata rs) w (record_trace-timely e w timely)
      ∙ record_loop_lem op start_ms end_ms metadata rs w1 timely
      ∙ λ i. (
        ok tt,
        record w {
          trace =
              traced-append (e ∷ []) (rating_events op start_ms end_ms metadata w.heap rs) w.trace
                i;
        },
      )

  module _ (cfg : PrefetchConfig Fl) (laws : FloatLaws fl)
      (latency : fl.lt cfg.mock_latency_ms fl.zero ≡ false) (plan : PrefetchPlan)
      (required : List Ref) (step : ℕ) (start : Fl) where
    abbrev pub at_step : String × Value Fl
    at_step = ("step", Value.int (pos step))

    -- What `evaluate` adds to the metrics.
    abbrev pub rating_charge : PrefetchEvaluation → Metrics Fl
    rating_charge result = record no_metrics {
      load_blocking_latency_ms = fl.mul (fl.of_nat (length result.misses)) cfg.mock_latency_ms;
      prefetch_hit_count = length result.hits;
      prefetch_miss_count = length result.misses;
      wrong_prefetch_count = length result.wrong_prefetches;
    }

    abbrev pub hit_events : World Fl → List (TraceEvent Fl)
    hit_events w =
        rating_events "prefetch_hit" start start (at_step ∷ []) w.heap
          (rate_blocks plan required w).hits

    abbrev pub miss_events : World Fl → List (TraceEvent Fl)
    miss_events w =
        rating_events "prefetch_miss" start (fl.add start cfg.mock_latency_ms)
          (at_step ∷ ("blocking_load", Value.flag true) ∷ []) w.heap
          (rate_blocks plan required w).misses

    abbrev pub wrong_events : World Fl → List (TraceEvent Fl)
    wrong_events w =
        rating_events "prefetch_wrong" start start (at_step ∷ []) w.heap
          (rate_blocks plan required w).wrong_prefetches

    -- The world that `evaluate` leaves.
    abbrev pub after_rating : World Fl → World Fl
    after_rating w = record w {
      trace = traced (wrong_events w) (traced (miss_events w) (traced (hit_events w) w.trace));
      metrics = charged (rating_charge (rate_blocks plan required w) ∷ []) w.metrics;
    }

    pub evaluate_lem :
        (w : World Fl)
        → evaluate cfg plan required step start w
          ≡ (ok (rate_blocks plan required w), after_rating w)
    unfolding evaluate
    evaluate_lem w =
        let result = rate_blocks plan required w in
        let w1 = record w { trace = traced (hit_events w) w.trace } in
        let w2 = record w { trace = traced (miss_events w) w1.trace } in
        let w3 = record w { trace = traced (wrong_events w) w2.trace } in
        ground (
          arith,
          record_loop_lem "prefetch_hit" start start (at_step ∷ []) result.hits w
              (laws.lt_irrefl start),
          record_loop_lem "prefetch_miss" start (fl.add start cfg.mock_latency_ms)
              (at_step ∷ ("blocking_load", Value.flag true) ∷ []) result.misses w1
              (laws.add_grows start _ latency),
          record_loop_lem "prefetch_wrong" start start (at_step ∷ []) result.wrong_prefetches w2
              (laws.lt_irrefl start),
          add_metrics_lem (rating_charge result) w3,
        )

    -- With a collector and a latency that is not negative, `evaluate` returns and moves no block; the collector's count of prefetch
    -- attempts grows by the number of required blocks, each key once, and its count of wrong
    -- prefetches by those of the result.
    pub evaluate_counts :
        (w : World Fl) (m : Metrics Fl)
        → w.metrics ≡ some m
        → (result : PrefetchEvaluation) × (w' : World Fl) × (m' : Metrics Fl) × (evaluate cfg plan
              required step start w
            ≡ (ok result, w'))
          × (w'.heap ≡ w.heap)
          × (w'.blocks ≡ w.blocks)
          × (w'.metrics ≡ some m')
          × (prefetch_attempt_count m' ≡ prefetch_attempt_count m + length (distinct w required))
          × (m'.wrong_prefetch_count ≡ m.wrong_prefetch_count + length result.wrong_prefetches)
    unfolding add
    evaluate_counts w m collected = (
      rate_blocks plan required w,
      after_rating w,
      add m (rating_charge (rate_blocks plan required w)),
      evaluate_lem w,
      refl,
      refl,
      ap (charged (rating_charge (rate_blocks plan required w) ∷ [])) collected,
      omega (arith, rated_all w plan required),
      refl,
    )

    -- With a latency that is not negative, after `execute` of a plan over stored blocks `evaluate` of required blocks that are stored
    -- rates as hits exactly those that the plan names, and as misses all the others.
    pub execute-evaluate :
        (earlier : Fl) (w : World Fl)
        → All (Stored w) plan.blocks
        → All (Stored w) required
        → (result : PrefetchEvaluation) × (w' : World Fl) × ((execute cfg plan earlier
                >> evaluate cfg plan required step start)
              w
            ≡ (ok result, w'))
          × (result.hits ≡ filter_by (λ q. member q plan.blocks) (distinct w required))
          × (result.misses ≡ filter_by (λ q. not (member q plan.blocks)) (distinct w required))
    execute-evaluate earlier w planned needed =
        let (w1, run, placed, same, _, _) =
          execute_placement cfg plan earlier laws latency w planned in
        let kept : (q : Ref) → key (w1.heap q) ≡ key (w.heap q) = λ q.
          ap key (placed q)
          ∙ (elim (Bool-cases (member q plan.blocks)) [ inl h ↦ rw h refl | inr h ↦ rw h refl ]) in
        let still : (q : Ref) → Stored w q → Stored w1 q = λ q s. rw (kept q, same) s in
        let there : (q : Ref)
            → member q plan.blocks ≡ true
            → (w1.heap q).location ≡ plan.target_location =
          λ q h. ap (λ b. b.location) (placed q) ∙ rw h refl in
        let rates =
          rated w1 plan there (All-imp (Stored w) (Stored w1) still plan.blocks planned) required
            (All-imp (Stored w) (Stored w1) still required needed) in
        let once : distinct w1 required ≡ distinct w required =
          ap (λ f. dedupe key_discrete f required) (fun_ext kept) in
        (
          rate_blocks plan required w1,
          after_rating w1,
          then_ok (execute cfg plan earlier) (λ _. evaluate cfg plan required step start) w run
              ∙ evaluate_lem w1,
          rates.0 ∙ ap (filter_by (λ q. member q plan.blocks)) once,
          rates.1 ∙ ap (filter_by (λ q. not (member q plan.blocks))) once,
        )
