-- ===== src/Residency/State.antt =====
-- harness/runtime_residency_executor.py: buffers, operations, counters and the executor's state.
use solid_attention.Base.{
  ℕ, zero, suc, ◌+◌, ◌%◌, String, str_eq, Bool, Option, List, [], ◌∷◌, if◌then◌else◌, ap,
}
use solid_attention.Base.Dict.{Dict}
use solid_attention.Block.{Value, Metadata, BlockKey, key_discrete}
use solid_attention.Trace.{TraceEvent}

-- (layer_id, block_id) and (start_token, end_token)
abbrev pub BufferKey : Type 0
BufferKey = BlockKey × BlockKey

unfoldable pub buffer_key_discrete : Discrete BufferKey
buffer_key_discrete (a, b) (c, d) = elim (key_discrete a c) [
  | yes p ↦ elim (key_discrete b d) [
    | yes q ↦ yes (λ i. (p i, q i))
    | no n ↦ no (λ e. n (ap (λ x. x.1) e))
  ]
  | no n ↦ no (λ e. n (ap (λ x. x.0) e))
]

pub record RuntimeBuffer : Type 0 where
  pub layer_id : ℕ
  pub block_id : ℕ
  pub start_token : ℕ
  pub end_token : ℕ
  pub size_bytes : ℕ
  pub data_bytes : List ℕ

abbrev pub buffer_key : RuntimeBuffer → BufferKey
buffer_key b = ((b.layer_id, b.block_id), (b.start_token, b.end_token))

pub record RuntimeOp (Fl : Type 0) : Type 0 where
  pub op : String
  pub layer_id : ℕ
  pub block_id : ℕ
  pub source : String
  pub target : String
  pub ssd_offset : ℕ
  pub size_bytes : ℕ
  pub start_token : ℕ
  pub end_token : ℕ
  pub start_ms : Fl
  pub end_ms : Fl
  pub metadata : Metadata Fl

pub record ExecutorConfig : Type 0 where
  pub backing_file : Option (ℕ → ℕ → List ℕ)
  pub seed_missing_sources : Bool

pub record Counts : Type 0 where
  pub ssd_read_count : ℕ
  pub dram_to_vram_copy_count : ℕ
  pub compute_count : ℕ
  pub evict_count : ℕ
  pub ssd_write_count : ℕ
  pub ssd_read_bytes : ℕ
  pub dram_to_vram_bytes : ℕ
  pub compute_bytes : ℕ
  pub ssd_write_bytes : ℕ
  pub dram_alloc_count : ℕ
  pub vram_alloc_count : ℕ
  pub lazy_source_seed_count : ℕ
  pub lazy_source_seed_bytes : ℕ
  pub missing_source_count : ℕ
  pub size_mismatch_count : ℕ
  pub unsupported_op_count : ℕ

abbrev pub Buffers : Type 0
Buffers = Dict BufferKey RuntimeBuffer

pub record Executor (Fl : Type 0) : Type 0 where
  pub dram : Buffers
  pub vram : Buffers
  pub counts : Counts
  pub trace : List (TraceEvent Fl)

abbrev pub verification_error_count : Counts → ℕ
verification_error_count c = c.missing_source_count + c.size_mismatch_count + c.unsupported_op_count

-- `bytes((seed + i) & 0xFF for i in range(size_bytes))`, from a number `i` on.
abbrev pub pattern_from : ℕ → ℕ → ℕ → List ℕ
pattern_from seed i zero = []
pattern_from seed i (suc n) = (seed + i) % 256 ∷ pattern_from seed (i + 1) n

-- `bytes(n)`
abbrev pub zero_bytes : ℕ → List ℕ
zero_bytes zero = []
zero_bytes (suc n) = 0 ∷ zero_bytes n

-- `metadata[name] = value`
abbrev pub put : {Fl : Type 0} → String → Value Fl → Metadata Fl → Metadata Fl
put name value [] = (name, value) ∷ []
put name value ((n, v) ∷ m) =
    let rest = put name value m in if str_eq name n then (n, value) ∷ m else (n, v) ∷ rest
