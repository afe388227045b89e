-- ===== src/PlanReads.antt =====
-- harness/movement_executor.py: the reads of the SSD that a movement plan asks for, and what
-- `execute_movement_plan` counts and records. A plan is the operations that core/movement_plan.py
-- wrote; the probe that measures reads runs a process and is a parameter; files and the manifest
-- of the run are left out.
pub mod Groups
use solid_attention.Base.{
  ℕ, ◌+◌, ◌==◌, ltb, String, str_eq, Bool, true, false, not, ◌&&◌, ◌||◌, Option, none, some, List,
  [], ◌∷◌, ◌++◌, map, Result, ok, err, runtime_error, ◌>>=◌, ◌>>◌, raise_if, if◌then◌else◌, length,
  filter_by, sum_by, ℕ_discrete,
}
use Prim.Native.String.{◌++◌ as concat}
use solid_attention.Base.Int.{pos}
use solid_attention.Base.Dict.{Dict, get, set}
use solid_attention.Base.Sort.{sorted}
use solid_attention.Base.Unique.{dedupe}
use solid_attention.Float.{FloatOps}
use solid_attention.Block.{Value, Metadata, BlockKey, key_discrete}
use solid_attention.MovementPlan.{MovementOp}
use solid_attention.Residency.{put, BufferKey, buffer_key_discrete}
use solid_attention.Trace.{TraceEvent, record_event}

pub record SsdRead : Type 0 where
  pub layer_id : ℕ
  pub block_id : ℕ
  pub ssd_offset : ℕ
  pub size_bytes : ℕ

-- (layer_id, block_id) and (ssd_offset, size_bytes)
abbrev pub read_key : SsdRead → BufferKey
read_key r = ((r.layer_id, r.block_id), (r.ssd_offset, r.size_bytes))

-- `p < q` of the sort's keys: offset, layer and block.
abbrev pub read_lt : SsdRead → SsdRead → Bool
read_lt p q =
    ltb p.ssd_offset q.ssd_offset
    || (p.ssd_offset == q.ssd_offset
        && (ltb p.layer_id q.layer_id || (p.layer_id == q.layer_id && ltb p.block_id q.block_id)))

-- `groups.setdefault(size, []).append(read)`
abbrev pub add_to_group : SsdRead → Dict ℕ (List SsdRead) → Dict ℕ (List SsdRead)
add_to_group r d = elim (get ℕ_discrete r.size_bytes d) [
  | none ↦ set ℕ_discrete r.size_bytes (r ∷ []) d
  | some reads ↦ set ℕ_discrete r.size_bytes (reads ++ r ∷ []) d
]

unfoldable pub group_from : Dict ℕ (List SsdRead) → List SsdRead → Dict ℕ (List SsdRead)
group_from d [] = d
group_from d (r ∷ reads) = group_from (add_to_group r d) reads

-- `_group_reads_by_size`
unfoldable pub group_reads_by_size : List SsdRead → Dict ℕ (List SsdRead)
unfolding group_from
group_reads_by_size = group_from []

-- What a probe reports: its backend and the rest.
pub record ProbeResult (A : Type 0) : Type 0 where
  pub backend : String
  pub measures : A

-- One probe for each group, with the size of its reads and their number.
unfoldable pub probe_loop :
    {A : Type 0}
    → (ℕ → ℕ → Result (ProbeResult A))
    → Dict ℕ (List SsdRead)
    → Result (List (ProbeResult A))
probe_loop probe [] = ok []
probe_loop probe ((size, reads) ∷ groups) =
    let rest = probe_loop probe groups in
    probe size (length reads) >>= λ p. rest >>= λ ps. ok (p ∷ ps)

-- Whether all the probes have the backend.
abbrev pub same_backends : {A : Type 0} → String → List (ProbeResult A) → Bool
same_backends backend [] = true
same_backends backend (p ∷ ps) = str_eq p.backend backend && same_backends backend ps

-- The backend of the run: that of the probes, when there are any and all have one.
abbrev pub run_backend : {A : Type 0} → List (ProbeResult A) → Result (Option String)
run_backend [] = ok none
run_backend (p ∷ ps) =
    raise_if (not (same_backends p.backend ps))
      (runtime_error "movement I/O probes reported mixed backends")
    >> ok (some p.backend)

pub record MovementExecutionResult (A : Type 0) : Type 0 where
  pub movement_op_count : ℕ
  pub kv_load_op_count : ℕ
  pub ssd_load_op_count : ℕ
  pub unique_ssd_read_count : ℕ
  pub ssd_read_bytes : ℕ
  pub io_probe_results : List (ProbeResult A)

module _ {Fl : Type 0} ⦃fl : FloatOps Fl⦄ where
  abbrev pub is_ssd_load : MovementOp Fl → Bool
  is_ssd_load m = str_eq m.op "kv_load" && str_eq m.source "ssd"

  abbrev pub read_of : MovementOp Fl → SsdRead
  read_of m = record {
    layer_id = m.layer_id;
    block_id = m.block_id;
    ssd_offset = m.ssd_offset;
    size_bytes = m.size_bytes;
  }

  -- `_unique_ssd_reads`
  unfoldable pub unique_ssd_reads : List (MovementOp Fl) → List SsdRead
  unique_ssd_reads ops = sorted read_lt (dedupe buffer_key_discrete read_key (map read_of ops))

  -- The event of `_record_execution_trace`.
  abbrev pub execution_event : MovementOp Fl → TraceEvent Fl
  execution_event m = record {
    op = concat "execute_" m.op;
    layer_id = m.layer_id;
    block_id = m.block_id;
    device = m.source;
    start_ms = m.start_ms;
    end_ms = m.end_ms;
    metadata = put "blocking" (Value.flag m.blocking) (
        put "size_bytes" (Value.int (pos m.size_bytes)) (
          put "ssd_offset" (Value.int (pos m.ssd_offset)) (
            put "target" (Value.text m.target) (
              put "source" (Value.text m.source)
                (put "movement_op" (Value.text m.op) m.metadata)))));
  }

  -- `for op in ops: _record_execution_trace(trace, op)`
  unfoldable pub trace_loop :
      List (TraceEvent Fl) → List (MovementOp Fl) → Result (List (TraceEvent Fl))
  trace_loop events [] = ok events
  trace_loop events (m ∷ ops) =
      record_event events (execution_event m) >>= λ more. trace_loop more ops

  -- `execute_movement_plan`: the result, the backend of the run if a probe ran, and the trace.
  unfoldable pub execute_movement_plan :
      {A : Type 0}
      → (ℕ → ℕ → Result (ProbeResult A))
      → Bool
      → List (MovementOp Fl)
      → Result (MovementExecutionResult A × (Option String × List (TraceEvent Fl)))
  unfolding unique_ssd_reads group_reads_by_size probe_loop trace_loop
  execute_movement_plan probe execute_io ops = do
    trace ← trace_loop [] ops
    let ssd_load_ops = filter_by is_ssd_load ops
    let unique_reads = unique_ssd_reads ssd_load_ops
    probes ← probe_loop probe (if execute_io then group_reads_by_size unique_reads else [])
    backend ← run_backend probes
    ok (
      record {
        movement_op_count = length ops;
        kv_load_op_count = length (filter_by (λ m. str_eq m.op "kv_load") ops);
        ssd_load_op_count = length ssd_load_ops;
        unique_ssd_read_count = length unique_reads;
        ssd_read_bytes = sum_by (λ r. r.size_bytes) unique_reads;
        io_probe_results = probes;
      },
      (backend, trace),
    )
