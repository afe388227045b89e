-- ===== src/ByteRanges/Verify.antt =====
-- integrations/llama_cpp/kv_byte_ranges.py: the loop of `verify_kv_byte_ranges` and its result.
-- Paths and the files that are written are left out.
use solid_attention.Base.{
  ℕ, ◌+◌, String, Bool, false, not, Option, List, [], ◌∷◌, ◌++◌, Result, ok, value_error, ◌>>=◌,
  ◌>>◌, raise_if, if◌then◌else◌, length, sum_by,
}
use solid_attention.Base.Int.{ℤ, pos, pos_part, leb_ℤ, eqb_ℤ, ◌+ℤ◌, ◌-ℤ◌, ◌*ℤ◌}
use solid_attention.Float.{FloatOps}
use solid_attention.Trace.{TraceEvent, record_event}
use solid_attention.Commands.{PlanOp}
use solid_attention.ByteRanges.Range.{Bytes, resolve_row_sizes, build_block_ranges, coverage_errors}
use solid_attention.ByteRanges.Mapping.{
  KvBlockByteMapping, mapping_tokens, mapped_bytes, VerifyArgs, count_if, misaligned, other_size,
  read_block, bounds_count, mapping_of, mapping_event,
}
use solid_attention.ByteRanges.Blocks.{PlanBlock, unique_blocks}

-- The local variables of the loop.
pub record Checked (Fl : Type 0) : Type 0 where
  pub mappings : List KvBlockByteMapping
  pub trace : List (TraceEvent Fl)
  pub inferred_row_size_count : ℕ
  pub size_mismatch_count : ℕ
  pub coverage_error_count : ℕ
  pub tensor_bounds_error_count : ℕ
  pub backing_short_read_count : ℕ
  pub ssd_alignment_error_count : ℕ

module _ {Fl : Type 0} ⦃fl : FloatOps Fl⦄ (sha256 : Bytes → String) where
  -- The body of the loop, for a block with at least one token.
  unfoldable pub check_block : VerifyArgs → ℕ → PlanBlock → Checked Fl → Result (Checked Fl)
  unfolding read_block
  check_block a index b s = do
    let tokens = b.end_token -ℤ b.start_token
    ((k, v), inferred) ←
        resolve_row_sizes b.size_bytes (pos_part tokens) a.key_row_size_bytes a.value_row_size_bytes
    (bytes, short) ← read_block a.backing_file b.ssd_offset b.size_bytes
    ranges ←
        build_block_ranges sha256
          (record {
            layer_id = b.layer_id;
            block_id = b.block_id;
            start_token = b.start_token;
            ssd_offset = b.ssd_offset;
            key_row = k;
            value_row = v;
            block_bytes = bytes;
          })
          b.end_token
    let mapping = mapping_of sha256 b k v bytes ranges
    trace ← record_event s.trace (mapping_event index mapping)
    ok (record {
      mappings = s.mappings ++ mapping ∷ [];
      trace = trace;
      inferred_row_size_count = s.inferred_row_size_count + count_if inferred;
      size_mismatch_count =
          s.size_mismatch_count
          + count_if (other_size a.rows b)
          + count_if (not (eqb_ℤ ((k +ℤ v) *ℤ tokens) b.size_bytes));
      coverage_error_count = s.coverage_error_count + coverage_errors ranges b.size_bytes;
      tensor_bounds_error_count =
          s.tensor_bounds_error_count + bounds_count a.cache_size ranges k v;
      backing_short_read_count = s.backing_short_read_count + count_if short;
      ssd_alignment_error_count =
          s.ssd_alignment_error_count + count_if (misaligned a.alignment b.ssd_offset);
    })

  -- The loop of `verify_kv_byte_ranges`, from the number of a block on.
  unfoldable pub check_loop : VerifyArgs → ℕ → List PlanBlock → Checked Fl → Result (Checked Fl)
  unfolding check_block
  check_loop a index [] s = ok s
  check_loop a index (b ∷ blocks) s =
      if leb_ℤ (b.end_token -ℤ b.start_token) (pos 0)
      then check_loop a (index + 1) blocks
          (record s { size_mismatch_count = s.size_mismatch_count + 1 })
      else (check_block a index b s >>= check_loop a (index + 1) blocks)

-- What `KVByteRangeVerificationResult` says besides paths.
pub record VerificationResult : Type 0 where
  pub cache_size : Option ℤ
  pub v_trans : Bool
  pub block_count : ℕ
  pub range_count : ℕ
  pub mapped_bytes : ℕ
  pub key_bytes : ℤ
  pub value_bytes : ℤ
  pub inferred_row_size_count : ℕ
  pub size_mismatch_count : ℕ
  pub coverage_error_count : ℕ
  pub tensor_bounds_error_count : ℕ
  pub backing_short_read_count : ℕ
  pub ssd_alignment_error_count : ℕ
  pub verification_error_count : ℕ
  pub mappings : List KvBlockByteMapping

-- `sum(...)` over integers.
abbrev pub sum_ℤ : (KvBlockByteMapping → ℤ) → List KvBlockByteMapping → ℤ
sum_ℤ f [] = pos 0
sum_ℤ f (m ∷ ms) = f m +ℤ sum_ℤ f ms

module _ {Fl : Type 0} ⦃fl : FloatOps Fl⦄ where
  -- The variables of the loop at its start.
  abbrev pub unchecked : Checked Fl
  unchecked = record {
    mappings = [];
    trace = [];
    inferred_row_size_count = 0;
    size_mismatch_count = 0;
    coverage_error_count = 0;
    tensor_bounds_error_count = 0;
    backing_short_read_count = 0;
    ssd_alignment_error_count = 0;
  }

  -- The result from the variables of the loop at its end.
  abbrev pub result_of : Option ℤ → Checked Fl → VerificationResult
  result_of cache_size s = record {
    cache_size = cache_size;
    v_trans = false;
    block_count = length s.mappings;
    range_count = sum_by (λ m. length m.ranges) s.mappings;
    mapped_bytes = sum_by mapped_bytes s.mappings;
    key_bytes = sum_ℤ (λ m. m.key_row_size_bytes *ℤ mapping_tokens m) s.mappings;
    value_bytes = sum_ℤ (λ m. m.value_row_size_bytes *ℤ mapping_tokens m) s.mappings;
    inferred_row_size_count = s.inferred_row_size_count;
    size_mismatch_count = s.size_mismatch_count;
    coverage_error_count = s.coverage_error_count;
    tensor_bounds_error_count = s.tensor_bounds_error_count;
    backing_short_read_count = s.backing_short_read_count;
    ssd_alignment_error_count = s.ssd_alignment_error_count;
    verification_error_count =
        s.size_mismatch_count + s.coverage_error_count + s.tensor_bounds_error_count
        + s.backing_short_read_count + s.ssd_alignment_error_count;
    mappings = s.mappings;
  }

  -- `verify_kv_byte_ranges`: the result, and the trace that is saved. `cache_size` of the arguments
  -- is the one of the call, or else that of the runtime summary.
  unfoldable pub verify_kv_byte_ranges :
      (Bytes → String)
      → VerifyArgs
      → Bool
      → List (PlanOp Fl)
      → Result (VerificationResult × List (TraceEvent Fl))
  unfolding check_loop
  verify_kv_byte_ranges sha256 a v_trans ops = do
    raise_if v_trans (value_error "v_trans=True is not supported by the first byte-range verifier")
    blocks ← unique_blocks ops
    s ← check_loop sha256 a 0 blocks unchecked
    ok (result_of a.cache_size s, s.trace)
