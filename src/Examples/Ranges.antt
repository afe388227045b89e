-- ===== src/Examples/Ranges.antt =====
-- The theorems on the byte ranges of staged blocks at concrete inputs.
use solid_attention.Base.{
  ℕ, ◌+◌, ◌<◌, ◌≡◌, refl, String, none, some, false, List, [], ◌∷◌, ok, arith, All, map,
}
use solid_attention.Base.Int.{pos, ◌-ℤ◌, ◌+ℤ◌, ◌*ℤ◌, ℤ_discrete}
use solid_attention.Base.{ℕ_discrete}
use solid_attention.Base.Dict.{get, set}
use solid_attention.Base.Sort.{sorted, insert}
use solid_attention.Base.Fill.{put_all}
use solid_attention.Trace.{record_event, trace_event}
use solid_attention.ByteRanges.Range.{
  KvByteRange, kv_byte_range, Bytes, build_from, build_block_ranges, coverage_from, coverage_errors,
  tensor_bounds_errors, rows_of, resolve_row_sizes,
}
use solid_attention.ByteRanges.Blocks.{
  PlanBlock, block_loop, unique_blocks, plan_key_discrete, block_of,
}
use solid_attention.ByteRanges.Mapping.{
  KvBlockByteMapping, VerifyArgs, read_block, mapping_of, mapping_event,
}
use solid_attention.ByteRanges.Verify.{
  Checked, check_block, check_loop, result_of, verify_kv_byte_ranges,
}
use solid_attention.ByteRanges.Built.{Rows, args_of, token_ranges, build_block_ranges-token_ranges}
use solid_attention.ByteRanges.RowSizes.{ResolveOutcome, resolve_row_sizes-ResolveOutcome}
use solid_attention.ByteRanges.Tile.{ranges-cover}
use solid_attention.ByteRanges.Bounds.{tensor_bounds_errors-token_ranges}
use solid_attention.ByteRanges.Invert.{build_block_ranges-ok}
use solid_attention.ByteRanges.Mapped.{mapped_block, IsSound}
use solid_attention.ByteRanges.Sound.{verify-IsSound}
use solid_attention.Commands.{row_key_discrete}
use solid_attention.Examples.{whole_ms}
use solid_attention.Examples.Commands.{load_op, load_plan}

abbrev pub no_hash : Bytes → String
no_hash bytes = "digest"

-- Four tokens at cell 3, with key rows of 16 bytes and value rows of 8.
abbrev pub four_rows : Rows
four_rows = record {
  layer_id = 0;
  block_id = 3;
  start_token = 12;
  ssd_offset = 64;
  key_row = 16;
  value_row = 8;
  block_bytes = none;
  key_positive = omega arith;
  value_positive = omega arith;
}

resolve_row_sizes-ResolveOutcome_example :
    ResolveOutcome 96 4 none (some (pos 8)) (resolve_row_sizes (pos 96) 4 none (some (pos 8)))
resolve_row_sizes-ResolveOutcome_example = resolve_row_sizes-ResolveOutcome 96 4 none (some (pos 8))

ranges-cover_example :
    (ranges : List KvByteRange) × (build_block_ranges no_hash (args_of four_rows) (pos 16)
      ≡ ok ranges)
    × (coverage_errors ranges (pos 96) ≡ 0)
ranges-cover_example = ranges-cover no_hash four_rows 4 96

tensor_bounds_errors-token_ranges_example :
    tensor_bounds_errors (token_ranges no_hash four_rows 0 4) (pos 5) (pos 16) (pos 8) ≡ 4
tensor_bounds_errors-token_ranges_example =
    tensor_bounds_errors-token_ranges no_hash four_rows 5 0 4

build_block_ranges-ok_example :
    (rows : Rows) × (n : ℕ) × (args_of four_rows ≡ args_of rows)
    × (pos 16 ≡ pos (rows.start_token + n))
    × (0 < n)
    × (token_ranges no_hash four_rows 0 4 ≡ token_ranges no_hash rows 0 n)
unfolding ◌-ℤ◌
build_block_ranges-ok_example =
    build_block_ranges-ok no_hash (args_of four_rows) (pos 16) (token_ranges no_hash four_rows 0 4)
      refl (build_block_ranges-token_ranges no_hash four_rows 4)

abbrev load_args : VerifyArgs
load_args = record {
  rows = load_plan.blocks;
  alignment = pos 64;
  backing_file = none;
  key_row_size_bytes = some (pos 16);
  value_row_size_bytes = none;
  cache_size = some (pos 8);
}

abbrev load_rows : Rows
load_rows = record four_rows { block_id = 0; start_token = 0 }

abbrev load_mapping : KvBlockByteMapping
load_mapping =
    mapping_of no_hash (block_of load_op) (pos 16) (pos 8) none (token_ranges no_hash load_rows 0 4)

abbrev load_checked : Checked ℕ
load_checked = record {
  mappings = load_mapping ∷ [];
  trace = mapping_event 0 load_mapping ∷ [];
  inferred_row_size_count = 1;
  size_mismatch_count = 0;
  coverage_error_count = 0;
  tensor_bounds_error_count = 0;
  backing_short_read_count = 0;
  ssd_alignment_error_count = 0;
}

load_verified :
    verify_kv_byte_ranges no_hash load_args false (load_op ∷ [])
    ≡ ok (result_of (some (pos 8)) load_checked, load_checked.trace)
unfolding verify_kv_byte_ranges unique_blocks block_loop check_loop check_block resolve_row_sizes
    rows_of read_block build_block_ranges build_from kv_byte_range coverage_errors coverage_from
    tensor_bounds_errors plan_key_discrete row_key_discrete ℤ_discrete ◌-ℤ◌ ◌+ℤ◌ ◌*ℤ◌ get set sorted
    insert put_all ℕ_discrete record_event trace_event
load_verified = refl

verify-IsSound_example :
    (blocks : List PlanBlock) × (unique_blocks (load_op ∷ []) ≡ ok blocks)
    × (map mapped_block (load_mapping ∷ []) ≡ blocks)
    × All (IsSound no_hash load_args) (load_mapping ∷ [])
verify-IsSound_example =
    verify-IsSound no_hash load_args false (load_op ∷ []) (result_of (some (pos 8)) load_checked)
      load_checked.trace load_verified refl
