-- ===== src/Examples/Choices.antt =====
-- The theorems on the selector, the residency executor and movement plans at concrete inputs.
use solid_attention.Base.{
  String, ℕ, arith, ◌+◌, ◌≡◌, ◌↔◌, refl, true, false, none, some, List, [], ◌∷◌, ok, length,
}
use solid_attention.Base.Int.{pos}
use solid_attention.World.{Ref}
use solid_attention.Selector.{SelectionConfig, select}
use solid_attention.Selector.Select.{SelectOutcome, select-SelectOutcome}
use solid_attention.Residency.{
  put, RuntimeOp, ExecutorConfig, Counts, Executor, execute, execute_from,
}
use solid_attention.Residency.Accounting.{handled, execute-accounts}
use solid_attention.Residency.Contents.{AreFilled, execute-AreFilled}
use solid_attention.Block.{Value, Metadata}
use solid_attention.Scheduler.{ScheduleOp, ssd_read_op}
use solid_attention.SsdLayout.{SsdRange}
use solid_attention.MovementPlan.{
  MovementOp, lookup, is_movement_op, movement_op, text_or, is_blocking, movement_of,
  movement_from_schedule_op,
}
use solid_attention.MovementPlan.Exact.{IsMovementOf, movement_from_schedule_op_iff}
use solid_attention.Examples.{
  ssd_block, vram_config, whole_ms, whole_ms-laws, whole_ms-order, small_world,
}

abbrev selection : SelectionConfig
selection = record { init_block_count = 1; local_block_count = 1; selected_block_count = 1 }

abbrev two : List Ref
two = 1 ∷ 0 ∷ []

select-SelectOutcome_example :
    SelectOutcome whole_ms-laws whole_ms-order selection two 0
      (pos 9)
      none
      100
      small_world
      (select selection two 0 (pos 9) none 100 small_world)
select-SelectOutcome_example =
    select-SelectOutcome whole_ms-laws whole_ms-order selection two 0 (pos 9) none 100 small_world

abbrev load : RuntimeOp ℕ
load = record {
  op = "kv_load";
  layer_id = 0;
  block_id = 1;
  source = "ssd";
  target = "dram";
  ssd_offset = 4096;
  size_bytes = 3;
  start_token = 0;
  end_token = 4;
  start_ms = 0;
  end_ms = 10;
  metadata = [];
}

-- A read, a copy, a computation, an eviction and an operation that is not supported.
abbrev ops : List (RuntimeOp ℕ)
ops =
    load
    ∷ record load { source = "dram"; target = "vram" }
    ∷ record load { op = "kv_compute"; source = "vram"; target = "vram" }
    ∷ record load { op = "kv_evict"; source = "vram"; target = "ssd" }
    ∷ record load { op = "kv_drop" }
    ∷ []

abbrev no_counts : Counts
no_counts = record {
  ssd_read_count = 0;
  dram_to_vram_copy_count = 0;
  compute_count = 0;
  evict_count = 0;
  ssd_write_count = 0;
  ssd_read_bytes = 0;
  dram_to_vram_bytes = 0;
  compute_bytes = 0;
  ssd_write_bytes = 0;
  dram_alloc_count = 0;
  vram_alloc_count = 0;
  lazy_source_seed_count = 0;
  lazy_source_seed_bytes = 0;
  missing_source_count = 0;
  size_mismatch_count = 0;
  unsupported_op_count = 0;
}

abbrev idle : Executor ℕ
idle = record { dram = []; vram = []; counts = no_counts; trace = [] }

abbrev fileless : ExecutorConfig
fileless = record { backing_file = none; seed_missing_sources = false }

execute-accounts_example :
    (e' : Executor ℕ) × (execute fileless ops idle ≡ (ok tt, e'))
    × (handled e'.counts ≡ 0 + length ops)
    × (length e'.trace ≡ 0 + length ops)
execute-accounts_example =
    execute-accounts fileless refl ops idle (refl, (refl, (refl, (refl, (refl, tt)))))

-- An empty file.
abbrev short_file : ℕ → ℕ → List ℕ
short_file offset n = []

execute-AreFilled_example :
    AreFilled
      (execute_from
        (record { backing_file = some short_file; seed_missing_sources = true })
        0
        ops
        idle).1
execute-AreFilled_example =
    execute-AreFilled (record { backing_file = some short_file; seed_missing_sources = true })
      (λ offset n. omega arith) 0 ops idle (tt, tt)

abbrev read_event : ScheduleOp ℕ
read_event = ssd_read_op vram_config ssd_block 100

-- Python's `str` of a text; the other kinds do not matter here.
abbrev shown : Value ℕ → String
shown (Value.text s) = s
shown _ = "?"

abbrev block_range : SsdRange
block_range = record { layer_id = 0; block_id = 0; offset = 4096; size_bytes = 96 }

abbrev read_metadata : Metadata ℕ
read_metadata = put "scheduler_op" (Value.text "schedule_ssd_read") read_event.metadata

abbrev read_movement : MovementOp ℕ
read_movement = record {
  op = "kv_load";
  layer_id = 0;
  block_id = 0;
  source = "ssd";
  target = "dram";
  ssd_offset = 4096;
  size_bytes = 96;
  start_token = 0;
  end_token = 4;
  start_ms = 100;
  end_ms = read_event.end_ms;
  blocking = is_blocking shown read_metadata;
  metadata = read_metadata;
}

read_movement-made :
    movement_from_schedule_op shown read_event block_range ssd_block ≡ ok read_movement
unfolding movement_from_schedule_op movement_of text_or lookup movement_op is_movement_op
read_movement-made = refl

movement_from_schedule_op_iff_example :
    (movement_from_schedule_op shown read_event block_range ssd_block ≡ ok read_movement)
    ↔ IsMovementOf shown read_event block_range ssd_block read_movement
movement_from_schedule_op_iff_example =
    movement_from_schedule_op_iff shown read_event block_range ssd_block read_movement
