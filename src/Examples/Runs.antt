-- ===== src/Examples/Runs.antt =====
-- The theorems on the scheduler and the prefetcher at concrete inputs.
use solid_attention.Base.{
  ℕ_discrete, ℕ, ◌+◌, ◌≡◌, refl, not, some, List, [], ◌∷◌, ok, arith, All, AllPairs, Any, ◌≢◌, map,
  length, filter_by, sum_by, if◌then◌else◌,
}
use solid_attention.Base.Dict.{get}
use solid_attention.Block.{dram, vram, key, key_discrete, move_to}
use solid_attention.Metrics.{prefetch_attempt_count, Metrics, no_metrics}
use solid_attention.World.{Ref, World, ◌>>◌}
use solid_attention.World.Effects.{traced, charged}
use solid_attention.Store.Held.{Stored}
use solid_attention.Store.Placed.{member, unique}
use solid_attention.Scheduler.{ScheduleResult, schedule, schedule_block}
use solid_attention.Scheduler.Steps.{IsConfig}
use solid_attention.Scheduler.Placement.{schedule_placement}
use solid_attention.Scheduler.Summary.{Contiguous, computed, schedule_order}
use solid_attention.Scheduler.Reads.{read_bytes, read_count, schedule_reads}
use solid_attention.Scheduler.Refusals.{refused, schedule_elsewhere, schedule_block_stale}
use solid_attention.Prefetcher.{
  PrefetchConfig, PrefetchPlan, PrefetchEvaluation, evaluate, distinct, execute,
}
use solid_attention.Prefetcher.Execute.{move_events, read_charges, execute_placement}
use solid_attention.Prefetcher.Round.{execute-evaluate, evaluate_counts}
use solid_attention.Examples.{
  whole_ms, whole_ms-laws, small_world, stale_world, vram_config, dram_config,
}

vram_config-IsConfig : IsConfig vram_config
vram_config-IsConfig = record { ssd_read = refl; dram_to_vram = refl; compute = refl }

dram_config-IsConfig : IsConfig dram_config
dram_config-IsConfig = record { ssd_read = refl; dram_to_vram = refl; compute = refl }

-- The block on the SSD comes twice.
abbrev call : List Ref
call = 0 ∷ 1 ∷ 0 ∷ []

call-Stored : All (Stored small_world) call
unfolding get key_discrete ℕ_discrete
call-Stored = (refl, (refl, (refl, tt)))

schedule_placement_example :
    (result : ScheduleResult ℕ) × (w' : World ℕ) × (schedule vram_config call 3 100 small_world
      ≡ (ok result, w'))
    × ((q : Ref)
        → w'.heap q
          ≡ (if member q call then move_to vram (small_world.heap q) else small_world.heap q))
    × (w'.blocks ≡ small_world.blocks)
    × (w'.trace ≡ traced result.ops small_world.trace)
schedule_placement_example =
    schedule_placement whole_ms-laws vram_config vram_config-IsConfig refl call 3 100 small_world
      call-Stored

schedule_order_example :
    (result : ScheduleResult ℕ) × (w' : World ℕ) × (schedule vram_config call 3 100 small_world
      ≡ (ok result, w'))
    × (result.step ≡ 3)
    × Contiguous 100 result.ops
    × (computed result.ops ≡ map (λ r. key (small_world.heap r)) (unique call small_world))
    × AllPairs (λ j k. j ≢ k) (computed result.ops)
    × All (λ r. Any (λ k. key (small_world.heap r) ≡ k) (computed result.ops)) call
schedule_order_example =
    schedule_order whole_ms-laws vram_config vram_config-IsConfig refl call 3 100 small_world
      call-Stored

schedule_reads_example :
    (m' : Metrics ℕ) × ((schedule vram_config call 3 100 small_world).1.metrics ≡ some m')
    × (m'.ssd_read_bytes
        ≡ 0 + sum_by (λ r. read_bytes (small_world.heap r)) (unique call small_world))
    × (m'.io_op_count ≡ 0 + sum_by (λ r. read_count (small_world.heap r)) (unique call small_world))
schedule_reads_example =
    schedule_reads whole_ms-laws vram_config vram_config-IsConfig refl call 3 100 small_world
      call-Stored no_metrics refl

schedule_elsewhere_example : (schedule dram_config call 3 100 small_world).0 ≡ refused
schedule_elsewhere_example =
    schedule_elsewhere whole_ms-laws dram_config dram_config-IsConfig 0 (λ e. ground arith)
      (1 ∷ 0 ∷ []) 3 100 small_world call-Stored.0

stale_held : get key_discrete (0, 0) stale_world.blocks ≡ some 2
unfolding get key_discrete ℕ_discrete
stale_held = refl

schedule_block_stale_example :
    let (result, w') = schedule_block vram_config 0 ([], 100) stale_world in
    (result ≡ refused)
    × (w'.heap 2 ≡ move_to dram (stale_world.heap 2))
    × (w'.heap 0 ≡ stale_world.heap 0)
schedule_block_stale_example =
    schedule_block_stale whole_ms-laws vram_config vram_config-IsConfig refl 0 2 stale_world refl
      (λ e. ground arith) stale_held ([], 100)

abbrev prefetch_cfg : PrefetchConfig ℕ
prefetch_cfg = record { target_location = dram; mock_latency_ms = 5; max_prefetch_blocks = some 2 }

abbrev plan : PrefetchPlan
plan = record { step = 3; target_location = dram; blocks = 0 ∷ [] }

plan-Stored : All (Stored small_world) plan.blocks
plan-Stored = (call-Stored.0, tt)

execute_placement_example :
    (w' : World ℕ) × (execute prefetch_cfg plan 100 small_world ≡ (ok tt, w'))
    × ((q : Ref)
        → w'.heap q ≡ (
            if member q plan.blocks
            then move_to plan.target_location (small_world.heap q)
            else small_world.heap q))
    × (w'.blocks ≡ small_world.blocks)
    × (w'.trace
        ≡ traced (move_events prefetch_cfg plan 100 plan.blocks small_world.heap) small_world.trace)
    × (w'.metrics
        ≡ charged
            (read_charges prefetch_cfg plan 100 plan.blocks small_world.heap)
            small_world.metrics)
execute_placement_example =
    execute_placement prefetch_cfg plan 100 whole_ms-laws refl small_world plan-Stored

execute-evaluate_example :
    (result : PrefetchEvaluation) × (w' : World ℕ) × ((execute prefetch_cfg plan 100
          >> evaluate prefetch_cfg plan call 4 200)
        small_world
      ≡ (ok result, w'))
    × (result.hits ≡ filter_by (λ q. member q plan.blocks) (distinct small_world call))
    × (result.misses ≡ filter_by (λ q. not (member q plan.blocks)) (distinct small_world call))
execute-evaluate_example =
    execute-evaluate prefetch_cfg whole_ms-laws refl plan call 4 200 100 small_world plan-Stored
      call-Stored

evaluate_counts_example :
    (result : PrefetchEvaluation) × (w' : World ℕ) × (m' : Metrics ℕ) × (evaluate prefetch_cfg plan
        call 4 200 small_world
      ≡ (ok result, w'))
    × (w'.heap ≡ small_world.heap)
    × (w'.blocks ≡ small_world.blocks)
    × (w'.metrics ≡ some m')
    × (prefetch_attempt_count m' ≡ 0 + length (distinct small_world call))
    × (m'.wrong_prefetch_count ≡ 0 + length result.wrong_prefetches)
evaluate_counts_example =
    evaluate_counts prefetch_cfg whole_ms-laws refl plan call 4 200 small_world no_metrics refl
