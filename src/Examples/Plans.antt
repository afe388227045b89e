-- ===== src/Examples/Plans.antt =====
-- The theorems on intent plans, on the reads of a plan and on staged bytes at concrete inputs.
use solid_attention.Base.{
  ℕ, ℕ_discrete, ◌+◌, ◌≡◌, refl, ◌≢◌, ◌↔◌, String, none, some, true, List, [], ◌∷◌, ok, length,
  sum_by, All, AllPairs, Any, Pairwise,
}
use solid_attention.Base.Int.{pos, ◌+ℤ◌, ◌-ℤ◌, ℤ_discrete}
use solid_attention.Base.Dict.{get, set}
use solid_attention.Base.Sort.{sorted, insert}
use solid_attention.Block.{Value}
use solid_attention.MovementPlan.{MovementOp}
use solid_attention.Commands.{PlanOp, command_of, commands_from_movement_plan, row_key_discrete}
use solid_attention.Commands.Check.{IsCommandOf}
use solid_attention.ByteRanges.Range.{KvByteRange, build_block_ranges}
use solid_attention.ByteRanges.Built.{args_of}
use solid_attention.ByteRanges.Reassemble.{slices, slices_reassemble}
use solid_attention.Intents.{
  IntentEvent, IntentPlan, intent_op, as_bool, movement_op_from_event, upsert_layout_range,
  export_loop, export_movement_intent_plan,
}
use solid_attention.Intents.Plan.{intent_json, export-IsCommandOf}
use solid_attention.Intents.Counts.{total_count, summarize_export, summarize_export_totals}
use solid_attention.PlanReads.{read_key, read_of, unique_ssd_reads, group_reads_by_size}
use solid_attention.PlanReads.Groups.{AreGroups, unique_ssd_reads-AreGroups}
use solid_attention.Residency.{pattern_from}
use solid_attention.Examples.{whole_ms}
use solid_attention.Examples.Commands.{show_text}
use solid_attention.Examples.Ranges.{no_hash, four_rows}

slices_reassemble_example :
    (ranges : List KvByteRange) × (build_block_ranges no_hash (args_of four_rows) (pos 16)
      ≡ ok ranges)
    × (slices ranges (pattern_from 7 0 96) ≡ pattern_from 7 0 96)
slices_reassemble_example = slices_reassemble no_hash four_rows 4 (pattern_from 7 0 96) refl

abbrev same_text : String → String
same_text s = s

-- A load of four tokens, and an event that is no movement.
abbrev load_event : IntentEvent ℕ
load_event = record {
  op = "kv_command_bridge";
  layer_id = pos 0;
  block_id = pos 0;
  start_token = pos 0;
  end_token = pos 4;
  movement_intent = none;
  command_op = "kv_load";
  command_source = "ssd";
  command_target = "dram";
  command_size_bytes = pos 96;
  ssd_offset = some (pos 64);
  command_start_token = none;
  command_end_token = none;
  blocking = some (Value.text "yes");
  intent_kind = none;
  metadata = [];
}

abbrev other_event : IntentEvent ℕ
other_event = record load_event { movement_intent = some (Value.text "no") }

abbrev intent_load : PlanOp ℕ
intent_load = intent_op same_text 0 load_event (pos 64)

abbrev intent_plan : IntentPlan ℕ
intent_plan = record {
  base_offset = pos 0;
  alignment = pos 64;
  total_size_bytes = pos 160;
  blocks = record { layer_id = pos 0; block_id = pos 0; offset = pos 64; size_bytes = pos 96 } ∷ [];
  ops = intent_load ∷ [];
}

intent_plan-exported :
    export_movement_intent_plan same_text (load_event ∷ other_event ∷ []) (pos 0) (pos 64)
    ≡ ok (intent_plan, 1)
unfolding export_movement_intent_plan export_loop movement_op_from_event upsert_layout_range as_bool
    get set row_key_discrete ℤ_discrete ℕ_discrete sorted insert ◌+ℤ◌ ◌-ℤ◌
intent_plan-exported = refl

export-IsCommandOf_example :
    (length intent_plan.ops + 1 ≡ length (load_event ∷ other_event ∷ []))
    × ((commands_from_movement_plan (intent_json same_text intent_plan)
          ≡ ok (command_of intent_load ∷ []))
        ↔ Pairwise IsCommandOf intent_plan.ops (command_of intent_load ∷ []))
export-IsCommandOf_example =
    export-IsCommandOf same_text (load_event ∷ other_event ∷ []) (pos 0) (pos 64) intent_plan 1
      (command_of intent_load ∷ []) intent_plan-exported

summarize_export_totals_example :
    let e = summarize_export show_text "trace.jsonl" intent_plan 1 none none in
    (total_count e.command_counts_by_op ≡ 1)
    × (total_count e.intent_counts_by_kind ≡ 1)
    × (e.blocking_movement_intent_count + e.nonblocking_movement_intent_count ≡ 1)
summarize_export_totals_example =
    summarize_export_totals show_text "trace.jsonl" intent_plan 1 none none

abbrev read_movement : MovementOp ℕ
read_movement = record {
  op = "kv_load";
  layer_id = 0;
  block_id = 0;
  source = "ssd";
  target = "dram";
  ssd_offset = 64;
  size_bytes = 96;
  start_token = 0;
  end_token = 4;
  start_ms = 100;
  end_ms = 110;
  blocking = true;
  metadata = [];
}

-- Two reads of one block and one of another.
abbrev read_movements : List (MovementOp ℕ)
read_movements =
    read_movement ∷ record read_movement { block_id = 1; ssd_offset = 0 } ∷ read_movement ∷ []

unique_ssd_reads-AreGroups_example :
    let reads = unique_ssd_reads read_movements in
    AllPairs (λ p q. read_key p ≢ read_key q) reads
    × All (λ m. Any (λ r. read_key (read_of m) ≡ read_key r) reads) read_movements
    × AreGroups (sum_by (λ r. r.size_bytes) reads) (group_reads_by_size reads)
unique_ssd_reads-AreGroups_example = unique_ssd_reads-AreGroups read_movements
