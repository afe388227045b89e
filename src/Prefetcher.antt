-- ===== src/Prefetcher.antt =====
-- core/prefetcher.py: plans, runs and rates speculative prefetches of blocks.
pub mod Config
pub mod Execute
pub mod Evaluate
pub mod Round
use solid_attention.Base.{
  ℕ, ◌+◌, Bool, true, false, not, ◌&&◌, ◌||◌, Option, none, some, List, [], ◌∷◌, Result, ok, err,
  if◌then◌else◌, length, take, filter_by, String,
}
use solid_attention.Base.Int.{pos}
use solid_attention.Base.Dict.{Dict, set, contains, values}
use solid_attention.Base.Unique.{dedupe}
use solid_attention.Float.{FloatOps}
use solid_attention.Block.{
  BlockLocation, BlockRole, ssd, location_value, same_location, Value, Metadata, KvBlock, BlockKey,
  key, key_discrete, is_resident, mark_role,
}
use solid_attention.Metrics.{Metrics, no_metrics}
use solid_attention.Store.{move_block}
use solid_attention.World.{
  Ref, World, Action, pure, gets, deref, mutate, when, ◌>>=◌, ◌>>◌, record_trace, add_metrics,
}

pub record PrefetchConfig (Fl : Type 0) : Type 0 where
  pub target_location : BlockLocation
  pub mock_latency_ms : Fl
  pub max_prefetch_blocks : Option ℕ

pub record PrefetchPlan : Type 0 where
  pub step : ℕ
  pub target_location : BlockLocation
  pub blocks : List Ref

pub record PrefetchEvaluation : Type 0 where
  pub hits : List Ref
  pub misses : List Ref
  pub wrong_prefetches : List Ref

-- `blocks[: limit]` if there is a limit
abbrev pub limited : Option ℕ → List Ref → List Ref
limited none rs = rs
limited (some n) rs = take n rs

module _ {Fl : Type 0} where
  -- `_dedupe`
  abbrev pub distinct : World Fl → List Ref → List Ref
  distinct w = dedupe key_discrete (λ r. key (w.heap r))

  -- `{block.key: block for block in blocks}`, from a dictionary on.
  unfoldable pub keyed_from : World Fl → Dict BlockKey Ref → List Ref → Dict BlockKey Ref
  keyed_from w d [] = d
  keyed_from w d (r ∷ rs) = keyed_from w (set key_discrete (key (w.heap r)) r d) rs

  unfoldable pub blocks_by_key : World Fl → List Ref → Dict BlockKey Ref
  unfolding keyed_from
  blocks_by_key w = keyed_from w []

  -- The tests of the three comprehensions of `evaluate`, on an entry of the dictionary.
  unfoldable pub is_hit : PrefetchPlan → Dict BlockKey Ref → World Fl → BlockKey × Ref → Bool
  is_hit plan planned w (k, r) =
      contains key_discrete k planned && is_resident (w.heap r) plan.target_location

  unfoldable pub is_miss : PrefetchPlan → Dict BlockKey Ref → World Fl → BlockKey × Ref → Bool
  is_miss plan planned w (k, r) =
      not (contains key_discrete k planned) || not (is_resident (w.heap r) plan.target_location)

  unfoldable pub rate_blocks : PrefetchPlan → List Ref → World Fl → PrefetchEvaluation
  unfolding is_hit is_miss
  rate_blocks plan required w =
      let planned_by_key = blocks_by_key w plan.blocks in
      let required_by_key = blocks_by_key w (distinct w required) in
      record {
        hits = values (filter_by (is_hit plan planned_by_key w) required_by_key);
        misses = values (filter_by (is_miss plan planned_by_key w) required_by_key);
        wrong_prefetches =
            values
              (filter_by (λ e. not (contains key_discrete e.0 required_by_key)) planned_by_key);
      }

module _ {Fl : Type 0} ⦃fl : FloatOps Fl⦄ where
  -- `_record`
  unfoldable pub record_block : String → Ref → Fl → Fl → Metadata Fl → Action Fl (Unit {0})
  record_block op r start_ms end_ms metadata = do
    b ← deref r
    record_trace (record {
      op = op;
      layer_id = b.layer_id;
      block_id = b.block_id;
      device = location_value b.location;
      start_ms = start_ms;
      end_ms = end_ms;
      metadata = metadata;
    })

  -- The loop of `plan` over the blocks that it has chosen.
  unfoldable pub submit_loop : PrefetchPlan → Fl → List Ref → Action Fl (Unit {0})
  submit_loop plan start_ms [] = pure tt
  submit_loop plan start_ms (r ∷ rs) = do
    mutate r (mark_role BlockRole.prefetch)
    record_block "prefetch_submit" r start_ms start_ms (
        ("step", Value.int (pos plan.step))
        ∷ ("target_location", Value.text (location_value plan.target_location))
        ∷ [])
    submit_loop plan start_ms rs

  unfoldable pub record_loop : String → Fl → Fl → Metadata Fl → List Ref → Action Fl (Unit {0})
  record_loop op start_ms end_ms metadata [] = pure tt
  record_loop op start_ms end_ms metadata (r ∷ rs) = do
    record_block op r start_ms end_ms metadata
    record_loop op start_ms end_ms metadata rs

  module _ (cfg : PrefetchConfig Fl) where
    -- `SpeculativePrefetcher.plan`
    unfoldable pub plan_blocks : List Ref → ℕ → Fl → Action Fl PrefetchPlan
    unfolding submit_loop
    plan_blocks predicted step start_ms = do
      unique ← gets (λ w. distinct w predicted)
      let plan : PrefetchPlan = record {
        step = step;
        target_location = cfg.target_location;
        blocks = limited cfg.max_prefetch_blocks unique;
      }
      submit_loop plan start_ms plan.blocks
      pure plan

    -- The end of a round of `execute`: the metrics of a block that came from the SSD.
    unfoldable pub charge_read : BlockLocation → KvBlock Fl → Action Fl (Unit {0})
    charge_read before b = when (same_location before ssd) (
        add_metrics (record no_metrics {
          total_latency_ms = cfg.mock_latency_ms;
          ssd_read_bytes = b.size_bytes;
          io_op_count = 1;
        }))

    -- One round of the loop of `execute`.
    unfoldable pub execute_block : PrefetchPlan → Fl → Ref → Action Fl (Unit {0})
    unfolding charge_read
    execute_block plan start_ms r = do
      b ← deref r
      let before = b.location
      move_block b.layer_id b.block_id (location_value plan.target_location)
      record_block "prefetch_move" r start_ms (fl.add start_ms cfg.mock_latency_ms) (
          ("step", Value.int (pos plan.step))
          ∷ ("from_location", Value.text (location_value before))
          ∷ ("to_location", Value.text (location_value plan.target_location))
          ∷ ("size_bytes", Value.int (pos b.size_bytes))
          ∷ [])
      charge_read before b

    unfoldable pub execute_loop : PrefetchPlan → Fl → List Ref → Action Fl (Unit {0})
    execute_loop plan start_ms [] = pure tt
    execute_loop plan start_ms (r ∷ rs) = do
      execute_block plan start_ms r
      execute_loop plan start_ms rs

    -- `SpeculativePrefetcher.execute`
    abbrev pub execute : PrefetchPlan → Fl → Action Fl (Unit {0})
    execute plan start_ms = execute_loop plan start_ms plan.blocks

    -- `SpeculativePrefetcher.evaluate`
    unfoldable pub evaluate : PrefetchPlan → List Ref → ℕ → Fl → Action Fl PrefetchEvaluation
    unfolding record_loop
    evaluate plan required step start_ms = do
      result ← gets (rate_blocks plan required)
      let at_step : String × Value Fl = ("step", Value.int (pos step))
      record_loop "prefetch_hit" start_ms start_ms (at_step ∷ []) result.hits
      record_loop "prefetch_miss" start_ms (fl.add start_ms cfg.mock_latency_ms)
          (at_step ∷ ("blocking_load", Value.flag true) ∷ []) result.misses
      record_loop "prefetch_wrong" start_ms start_ms (at_step ∷ []) result.wrong_prefetches
      add_metrics (record no_metrics {
        load_blocking_latency_ms = fl.mul (fl.of_nat (length result.misses)) cfg.mock_latency_ms;
        prefetch_hit_count = length result.hits;
        prefetch_miss_count = length result.misses;
        wrong_prefetch_count = length result.wrong_prefetches;
      })
      pure result
