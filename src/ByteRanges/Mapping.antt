-- ===== src/ByteRanges/Mapping.antt =====
-- integrations/llama_cpp/kv_byte_ranges.py: the mapping of one block and the
-- tests on it. The backing file is a parameter: what a read of so many bytes at an offset returns or raises.
use solid_attention.Base.{
  ℕ, zero, suc, ◌-◌, ◌==◌, String, Bool, true, false, not, ◌&&◌, Option, none, some, List, [], ◌∷◌,
  ◌++◌, Result, ok, value_error, ◌>>=◌, ◌>>◌, raise_if, if◌then◌else◌, length, sum_by,
}
use solid_attention.Base.Int.{ℤ, pos, pos_part, ltb_ℤ, eqb_ℤ, ◌-ℤ◌}
use solid_attention.Base.Dict.{get}
use solid_attention.Base.Fill.{put_all}
use solid_attention.Float.{FloatOps}
use solid_attention.Block.{Value}
use solid_attention.Trace.{TraceEvent}
use solid_attention.Commands.{PlanRange, row_key, row_key_discrete}
use solid_attention.ByteRanges.Range.{KvByteRange, Bytes, mod_ℤ, kind_digests, tensor_bounds_errors}
use solid_attention.ByteRanges.Blocks.{PlanBlock}

pub record KvBlockByteMapping : Type 0 where
  pub layer_id : ℤ
  pub block_id : ℤ
  pub start_token : ℤ
  pub end_token : ℤ
  pub ssd_offset : ℤ
  pub size_bytes : ℤ
  pub key_row_size_bytes : ℤ
  pub value_row_size_bytes : ℤ
  pub ranges : List KvByteRange
  pub block_sha256 : Option String
  pub key_sha256 : Option String
  pub value_sha256 : Option String

abbrev pub mapping_tokens : KvBlockByteMapping → ℤ
mapping_tokens m = m.end_token -ℤ m.start_token

abbrev pub mapped_bytes : KvBlockByteMapping → ℕ
mapped_bytes m = sum_by (λ r. r.size_bytes) m.ranges

-- The arguments of `verify_kv_byte_ranges` that the loop uses, with what the plan says.
pub record VerifyArgs : Type 0 where
  pub rows : List PlanRange
  pub alignment : ℤ
  pub backing_file : Option (ℤ → ℤ → Result Bytes)
  pub key_row_size_bytes : Option ℤ
  pub value_row_size_bytes : Option ℤ
  pub cache_size : Option ℤ

abbrev pub count_if : Bool → ℕ
count_if test = if test then 1 else 0

-- `alignment > 1 and ssd_offset % alignment != 0`
abbrev pub misaligned : ℤ → ℤ → Bool
misaligned alignment offset =
    ltb_ℤ (pos 1) alignment && not (mod_ℤ offset (pos_part alignment) == 0)

-- `layout_by_key.get(key)`, and whether its size is another than that of the block.
abbrev pub other_size : List PlanRange → PlanBlock → Bool
other_size rows b =
    elim (get row_key_discrete (b.layer_id, b.block_id)
      (put_all row_key_discrete row_key [] rows)) [
        | none ↦ false
        | some r ↦ not (eqb_ℤ r.size_bytes b.size_bytes)
      ]

abbrev pub zeros : ℕ → Bytes
zeros zero = []
zeros (suc n) = 0 ∷ zeros n

-- The bytes of the block, with zeros for those that the file is short of, and whether it is.
unfoldable pub read_block : Option (ℤ → ℤ → Result Bytes) → ℤ → ℤ → Result (Option Bytes × Bool)
read_block none offset size_bytes = ok (none, false)
read_block (some read) offset size_bytes = do
  bytes ← read offset size_bytes
  if eqb_ℤ (pos (length bytes)) size_bytes
      then ok (some bytes, false)
      else raise_if (ltb_ℤ size_bytes (pos (length bytes))) (value_error "negative count")
        >> ok (some (bytes ++ zeros (pos_part size_bytes - length bytes)), true)

-- The tests of `_tensor_bounds_errors`, when there is a cache size.
abbrev pub bounds_count : Option ℤ → List KvByteRange → ℤ → ℤ → ℕ
bounds_count none ranges k v = 0
bounds_count (some cache_size) ranges k v = tensor_bounds_errors ranges cache_size k v

module _ (sha256 : Bytes → String) where
  abbrev pub whole_sha256 : Option Bytes → Option String
  whole_sha256 none = none
  whole_sha256 (some bytes) = some (sha256 bytes)

  -- The mapping of a block from its row sizes, bytes and ranges.
  abbrev pub mapping_of : PlanBlock → ℤ → ℤ → Option Bytes → List KvByteRange → KvBlockByteMapping
  mapping_of b k v bytes ranges = record {
    layer_id = b.layer_id;
    block_id = b.block_id;
    start_token = b.start_token;
    end_token = b.end_token;
    ssd_offset = b.ssd_offset;
    size_bytes = b.size_bytes;
    key_row_size_bytes = k;
    value_row_size_bytes = v;
    ranges = ranges;
    block_sha256 = whole_sha256 bytes;
    key_sha256 = (kind_digests sha256 ranges bytes).0;
    value_sha256 = (kind_digests sha256 ranges bytes).1;
  }

module _ {Fl : Type 0} ⦃fl : FloatOps Fl⦄ where
  abbrev pub sha_value : Option String → Value Fl
  sha_value none = Value.null
  sha_value (some s) = Value.text s

  -- The event that is recorded for a mapping.
  abbrev pub mapping_event : ℕ → KvBlockByteMapping → TraceEvent Fl
  mapping_event index m = record {
    op = "kv_byte_range_map";
    layer_id = pos_part m.layer_id;
    block_id = pos_part m.block_id;
    device = "staging";
    start_ms = fl.of_nat index;
    end_ms = fl.of_nat index;
    metadata =
        ("start_token", Value.int m.start_token)
        ∷ ("end_token", Value.int m.end_token)
        ∷ ("ssd_offset", Value.int m.ssd_offset)
        ∷ ("size_bytes", Value.int m.size_bytes)
        ∷ ("key_row_size_bytes", Value.int m.key_row_size_bytes)
        ∷ ("value_row_size_bytes", Value.int m.value_row_size_bytes)
        ∷ ("range_count", Value.int (pos (length m.ranges)))
        ∷ ("mapped_bytes", Value.int (pos (mapped_bytes m)))
        ∷ ("block_sha256", sha_value m.block_sha256)
        ∷ [];
  }
