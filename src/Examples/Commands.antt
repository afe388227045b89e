-- ===== src/Examples/Commands.antt =====
-- The theorems on plans and commands at concrete inputs.
use solid_attention.Base.{
  ℕ, ◌≡◌, refl, ◌↔◌, inl, inr, String, none, some, true, List, [], ◌∷◌, ok, arith, Returns, All,
  Pairwise, ℕ_discrete,
}
use solid_attention.Base.Int.{pos}
use solid_attention.Base.Dict.{get, DistinctKeys}
use solid_attention.Base.Texts.{apart_texts}
use solid_attention.Block.{Value, key_discrete}
use solid_attention.World.{Ref}
use solid_attention.Store.Held.{Stored}
use solid_attention.Scheduler.{ScheduleResult, ssd_read_op}
use solid_attention.Scheduler.Steps.{IsConfig}
use solid_attention.SsdLayout.Chain.{IsChained}
use solid_attention.MovementPlan.{lookup, text_or, movement_of, build_movement_plan}
use solid_attention.MovementPlan.Build.{IsPlannable, Carries, build_movement_plan-Carries}
use solid_attention.Commands.{
  PlanOp, PlanJson, LlamaKvCommand, command_of, command_from_op, commands_from_movement_plan,
}
use solid_attention.Commands.Check.{IsMove, IsCommandOf, command_from_op_iff}
use solid_attention.Commands.Accept.{AreCommandsOf, commands_from_movement_plan_iff}
use solid_attention.Commands.Export.{summarize_commands}
use solid_attention.Commands.Summary.{Summarizes, summarize_commands-Summarizes}
use solid_attention.Commands.Pipeline.{Served, schedule-Served}
use solid_attention.Examples.{whole_ms, whole_ms-laws, ssd_block, small_world, vram_config}

-- `str` of a text is the text.
abbrev pub show_text : Value ℕ → String
show_text (Value.text s) = s
show_text _ = "value"

abbrev pub load_op : PlanOp ℕ
load_op = record {
  op = "kv_load";
  layer_id = pos 0;
  block_id = pos 0;
  start_token = pos 0;
  end_token = pos 4;
  size_bytes = pos 96;
  source = "ssd";
  target = "dram";
  ssd_offset = pos 64;
  start_ms = Value.num 0;
  end_ms = Value.num 10;
  duration_ms = Value.num 10;
  blocking = true;
  metadata = [];
}

abbrev pub load_plan : PlanJson ℕ
load_plan = record {
  blocks = record { layer_id = pos 0; block_id = pos 0; offset = pos 64; size_bytes = pos 96 } ∷ [];
  ops = load_op ∷ [];
}

abbrev load_command : LlamaKvCommand ℕ
load_command = command_of load_op

command_from_op_iff_example :
    (command_from_op load_op ≡ ok load_command) ↔ IsCommandOf load_op load_command
command_from_op_iff_example = command_from_op_iff load_op load_command

commands_from_movement_plan_iff_example :
    (commands_from_movement_plan load_plan ≡ ok (load_command ∷ []))
    ↔ AreCommandsOf load_plan (load_command ∷ [])
commands_from_movement_plan_iff_example =
    commands_from_movement_plan_iff load_plan (load_command ∷ [])

load-IsMove : IsMove "kv_load" "ssd" "dram"
load-IsMove = inr (inr (inl refl, inl refl, inr (inl refl), apart_texts "ssd" "dram" refl))

summarize_commands-Summarizes_example :
    Returns
      (Summarizes (load_command ∷ []))
      (summarize_commands "plan.json" (load_command ∷ []) none (some "summary.json"))
summarize_commands-Summarizes_example =
    summarize_commands-Summarizes "plan.json" (load_command ∷ []) none (some "summary.json")
      (load-IsMove, tt)

abbrev read_result : ScheduleResult ℕ
read_result = record { step = 3; ops = ssd_read_op vram_config ssd_block 100 ∷ [] }

read-IsPlannable : All (IsPlannable show_text (ssd_block ∷ [])) read_result.ops
unfolding movement_of text_or lookup
read-IsPlannable =
    (record { block = inl refl; timely = refl; known = (("kv_load", ("ssd", "dram")), refl) }, tt)

build_movement_plan-Carries_example :
    Returns
      (λ p.
        Pairwise (Carries show_text (ssd_block ∷ []) p.layout) read_result.ops p.ops
        × IsChained p.layout
        × DistinctKeys key_discrete p.layout.ranges)
      (build_movement_plan show_text (ssd_block ∷ []) read_result (pos 10) (pos 64))
build_movement_plan-Carries_example =
    build_movement_plan-Carries show_text (ssd_block ∷ []) read_result 10 64 (omega arith)
      ((omega arith, omega arith), tt) read-IsPlannable

abbrev both_blocks : List Ref
both_blocks = 0 ∷ 1 ∷ []

both_blocks-Stored : All (Stored small_world) both_blocks
unfolding get key_discrete ℕ_discrete
both_blocks-Stored = (refl, (refl, tt))

vram-IsConfig : IsConfig vram_config
vram-IsConfig = record { ssd_read = refl; dram_to_vram = refl; compute = refl }

schedule-Served_example :
    Served whole_ms-laws show_text
      (λ s. refl)
      vram_config
      vram-IsConfig
      both_blocks
      3
      100
      10
      64
      small_world
schedule-Served_example =
    schedule-Served whole_ms-laws show_text (λ s. refl) vram_config vram-IsConfig refl both_blocks 3
      100 10 64 small_world both_blocks-Stored
      ((omega arith, omega arith), ((omega arith, omega arith), tt)) (omega arith)
