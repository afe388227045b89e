-- ===== src/Residency.antt =====
-- harness/runtime_residency_executor.py: `RuntimeResidencyExecutor`, which runs the operations of a
-- movement plan against buffers in DRAM and VRAM. An operation is a JSON object as a movement plan
-- writes it: every field there, its numbers not negative. A backing file is what it gives for an
-- offset and a number of bytes.
mod State
mod Operations
pub mod Accounting
pub mod Contents
unfoldable pub use State.*
unfoldable pub use Operations.*
use Prim.Native.String.{◌++◌ as ◌<+>◌}
use solid_attention.Base.{
  ℕ, suc, ◌+◌, ◌-◌, ◌*◌, ◌%◌, String, str_eq, Bool, true, false, not, ◌&&◌, ◌||◌, Option, none,
  some, List, [], ◌∷◌, ◌++◌, ◌==◌, if◌then◌else◌, Result, ok, err, length, sum_by, ℕ_discrete, ap,
}
use solid_attention.Base.Int.{pos}
use solid_attention.Base.Dict.{Dict, get, set, remove, values}
use solid_attention.Float.{FloatOps}
use solid_attention.Block.{Value, Metadata, BlockKey, key_discrete}
use solid_attention.Store.{LocationStats}
use solid_attention.Trace.{TraceEvent, record_event}

-- `f"residency_{op}"`
abbrev pub residency_name : String → String
residency_name op = "residency_" <+> op

module _ {Fl : Type 0} ⦃fl : FloatOps Fl⦄ (cfg : ExecutorConfig) where
  -- The event of `_record_trace`.
  unfoldable pub op_event : RuntimeOp Fl → ℕ → Executor Fl → TraceEvent Fl
  op_event op index e = record {
    op = residency_name op.op;
    layer_id = op.layer_id;
    block_id = op.block_id;
    device = op.target;
    start_ms = op.start_ms;
    end_ms = op.end_ms;
    metadata =
        put "verification_error_count" (Value.int (pos (verification_error_count e.counts))) (
          put "ssd_offset" (Value.int (pos op.ssd_offset)) (
            put "size_bytes" (Value.int (pos op.size_bytes)) (
              put "target" (Value.text op.target) (
                put "source" (Value.text op.source) (
                  put "movement_op" (Value.text op.op) (
                    put "op_index" (Value.int (pos index))
                      (put "executor" (Value.text "runtime_residency_executor") op.metadata)))))));
  }

  -- `execute_op`: what was done before the trace refuses the event stays done.
  unfoldable pub execute_op : RuntimeOp Fl → ℕ → Executor Fl → Result (Unit {0}) × Executor Fl
  execute_op op index e0 =
      let e = run_op op cfg e0 in
      elim (record_event e.trace (op_event op index e)) [
        | ok later ↦ (ok tt, record e { trace = later })
        | err x ↦ (err x, e)
      ]

  -- `execute`, from an operation's number on.
  unfoldable pub execute_from :
      ℕ → List (RuntimeOp Fl) → Executor Fl → Result (Unit {0}) × Executor Fl
  execute_from index [] e = (ok tt, e)
  execute_from index (op ∷ ops) e =
      let (result, e1) = execute_op op index e in
      elim result [ ok _ ↦ execute_from (index + 1) ops e1 | err x ↦ (err x, e1) ]

  abbrev pub execute : List (RuntimeOp Fl) → Executor Fl → Result (Unit {0}) × Executor Fl
  execute = execute_from 0

-- `_location_stats`
unfoldable pub buffer_stats : Buffers → LocationStats
buffer_stats d = record {
  block_count = length d;
  size_bytes = sum_by (λ b. b.size_bytes) (values d);
}

-- `final_residency`: DRAM, then VRAM.
unfoldable pub final_residency : {Fl : Type 0} → Executor Fl → LocationStats × LocationStats
unfolding buffer_stats
final_residency e = (buffer_stats e.dram, buffer_stats e.vram)
