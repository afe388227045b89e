-- ===== src/ByteRanges/Range.antt =====
-- integrations/llama_cpp/kv_byte_ranges.py: `KVByteRange`, the row sizes, the ranges of one block
-- and the tests on them. The SHA-256 digest is a parameter, `sha256`, on the bytes that are hashed.
use solid_attention.Base.{
  ℕ, zero, suc, ◌+◌, ◌-◌, ◌/◌, ◌%◌, ◌==◌, String, str_eq, Bool, true, false, not, ◌||◌, Option,
  none, some, List, [], ◌∷◌, ◌++◌, Result, ok, value_error, zero_division_error, ◌>>=◌, ◌>>◌,
  raise_if, if◌then◌else◌, take, drop, ltb,
}
use solid_attention.Base.Int.{ℤ, pos, negsuc, pos_part, ltb_ℤ, leb_ℤ, eqb_ℤ, ◌+ℤ◌, ◌-ℤ◌, ◌*ℤ◌}
use solid_attention.Base.Sort.{sorted}

pub record KvByteRange : Type 0 where
  pub kind : String
  pub layer_id : ℕ
  pub block_id : ℕ
  pub token_id : ℕ
  pub staging_offset : ℕ
  pub backing_offset : ℕ
  pub tensor_offset : ℕ
  pub size_bytes : ℕ
  pub sha256 : Option String

-- The arguments of `KVByteRange(...)`, before any check.
pub record RangeArgs : Type 0 where
  pub kind : String
  pub layer_id : ℤ
  pub block_id : ℤ
  pub token_id : ℤ
  pub staging_offset : ℤ
  pub backing_offset : ℤ
  pub tensor_offset : ℤ
  pub size_bytes : ℤ
  pub sha256 : Option String

-- `KVByteRange(...)`
unfoldable pub kv_byte_range : RangeArgs → Result KvByteRange
kv_byte_range a = do
  raise_if (not (str_eq a.kind "k" || str_eq a.kind "v")) (value_error "kind must be 'k' or 'v'")
  raise_if (ltb_ℤ a.layer_id (pos 0)) (value_error "layer_id must be non-negative")
  raise_if (ltb_ℤ a.block_id (pos 0)) (value_error "block_id must be non-negative")
  raise_if (ltb_ℤ a.token_id (pos 0)) (value_error "token_id must be non-negative")
  raise_if (ltb_ℤ a.staging_offset (pos 0)) (value_error "staging_offset must be non-negative")
  raise_if (ltb_ℤ a.backing_offset (pos 0)) (value_error "backing_offset must be non-negative")
  raise_if (ltb_ℤ a.tensor_offset (pos 0)) (value_error "tensor_offset must be non-negative")
  raise_if (leb_ℤ a.size_bytes (pos 0)) (value_error "size_bytes must be positive")
  ok (record {
    kind = a.kind;
    layer_id = pos_part a.layer_id;
    block_id = pos_part a.block_id;
    token_id = pos_part a.token_id;
    staging_offset = pos_part a.staging_offset;
    backing_offset = pos_part a.backing_offset;
    tensor_offset = pos_part a.tensor_offset;
    size_bytes = pos_part a.size_bytes;
    sha256 = a.sha256;
  })

abbrev pub staging_end : KvByteRange → ℕ
staging_end r = r.staging_offset + r.size_bytes

abbrev pub tensor_end : KvByteRange → ℕ
tensor_end r = r.tensor_offset + r.size_bytes

-- Python's `a // n` and `a % n` for a positive `n`, which round down.
abbrev pub div_ℤ : ℤ → ℕ → ℤ
div_ℤ (pos a) n = pos (a / n)
div_ℤ (negsuc a) n = negsuc (a / n)

abbrev pub mod_ℤ : ℤ → ℕ → ℕ
mod_ℤ (pos a) n = a % n
mod_ℤ (negsuc a) n = n - 1 - a % n

-- `size is not None and size <= 0`
abbrev pub not_positive : Option ℤ → Bool
not_positive none = false
not_positive (some n) = leb_ℤ n (pos 0)

-- `size or 1`, of a size that is not zero.
abbrev pub or_one : Option ℤ → ℤ
or_one none = pos 1
or_one (some n) = n

-- The row sizes from the bytes of one token, and whether one was inferred.
unfoldable pub rows_of : ℤ → Option ℤ → Option ℤ → Result ((ℤ × ℤ) × Bool)
rows_of row_sum none none =
    raise_if (not (mod_ℤ row_sum 2 == 0))
      (value_error "cannot infer equal K/V row sizes from odd per-token byte count")
    >> ok ((div_ℤ row_sum 2, div_ℤ row_sum 2), true)
rows_of row_sum none (some v) = ok ((row_sum -ℤ v, v), true)
rows_of row_sum (some k) none = ok ((k, row_sum -ℤ k), true)
rows_of row_sum (some k) (some v) = ok ((k, v), false)

-- `_resolve_row_sizes`, for a number of tokens that is not negative.
unfoldable pub resolve_row_sizes : ℤ → ℕ → Option ℤ → Option ℤ → Result ((ℤ × ℤ) × Bool)
unfolding rows_of
resolve_row_sizes size_bytes token_count key_row value_row = do
  raise_if (not_positive key_row) (value_error "key_row_size_bytes must be positive")
  raise_if (not_positive value_row) (value_error "value_row_size_bytes must be positive")
  raise_if (token_count == 0) (zero_division_error "integer division or modulo by zero")
  if mod_ℤ size_bytes token_count == 0
      then rows_of (div_ℤ size_bytes token_count) key_row value_row
      else ok ((or_one key_row, or_one value_row), false)

abbrev pub Bytes : Type 0
Bytes = List ℕ

-- `data[offset : offset + size_bytes]`, for bounds that are not negative.
abbrev pub slice : Bytes → ℕ → ℕ → Bytes
slice bytes offset size_bytes = take size_bytes (drop offset bytes)

-- The arguments of `_build_block_ranges`, without the end.
pub record RowArgs : Type 0 where
  pub layer_id : ℤ
  pub block_id : ℤ
  pub start_token : ℤ
  pub ssd_offset : ℤ
  pub key_row : ℤ
  pub value_row : ℤ
  pub block_bytes : Option Bytes

module _ (sha256 : Bytes → String) where
  -- `_slice_sha256`. The digest of a slice with a negative bound is never seen, since the range that
  -- would have it is refused.
  abbrev pub slice_sha256 : Option Bytes → ℤ → ℤ → Option String
  slice_sha256 none offset size_bytes = none
  slice_sha256 (some bytes) offset size_bytes =
      some (sha256 (slice bytes (pos_part offset) (pos_part size_bytes)))

  -- The row of one kind for the token number `i` of the block.
  abbrev pub row_args : RowArgs → String → ℕ → ℤ → ℤ → RangeArgs
  row_args a kind i staging_offset row = record {
    kind = kind;
    layer_id = a.layer_id;
    block_id = a.block_id;
    token_id = a.start_token +ℤ pos i;
    staging_offset = staging_offset;
    backing_offset = a.ssd_offset +ℤ staging_offset;
    tensor_offset = (a.block_id +ℤ pos i) *ℤ row;
    size_bytes = row;
    sha256 = slice_sha256 a.block_bytes staging_offset row;
  }

  abbrev pub key_args : RowArgs → ℕ → RangeArgs
  key_args a i = row_args a "k" i (pos i *ℤ (a.key_row +ℤ a.value_row)) a.key_row

  abbrev pub value_args : RowArgs → ℕ → RangeArgs
  value_args a i = row_args a "v" i (pos i *ℤ (a.key_row +ℤ a.value_row) +ℤ a.key_row) a.value_row

  -- The loop of `_build_block_ranges` over `n` tokens, from the token number `i` on.
  unfoldable pub build_from : RowArgs → ℕ → ℕ → Result (List KvByteRange)
  unfolding kv_byte_range
  build_from a i zero = ok []
  build_from a i (suc n) =
      let rest = build_from a (i + 1) n in
      kv_byte_range (key_args a i) >>= λ k.
      kv_byte_range (value_args a i) >>= λ v. rest >>= λ ranges. ok (k ∷ v ∷ ranges)

  -- `_build_block_ranges`
  unfoldable pub build_block_ranges : RowArgs → ℤ → Result (List KvByteRange)
  unfolding build_from
  build_block_ranges a end_token = build_from a 0 (pos_part (end_token -ℤ a.start_token))

  -- The bytes that the loop of `_kind_digests` gives to the hash of the kind.
  abbrev pub kind_bytes : Bool → List KvByteRange → Bytes → Bytes
  kind_bytes keys [] bytes = []
  kind_bytes keys (r ∷ ranges) bytes =
      let rest = kind_bytes keys ranges bytes in
      if (if str_eq r.kind "k" then keys else not keys)
      then slice bytes r.staging_offset r.size_bytes ++ rest
      else rest

  -- `_kind_digests`
  abbrev pub kind_digests : List KvByteRange → Option Bytes → Option String × Option String
  kind_digests ranges none = (none, none)
  kind_digests ranges (some bytes) =
      (some (sha256 (kind_bytes true ranges bytes)), some (sha256 (kind_bytes false ranges bytes)))

-- The loop of `_coverage_errors`, from an expected offset on.
unfoldable pub coverage_from : ℕ → List KvByteRange → ℤ → ℕ
coverage_from expected [] size_bytes = if eqb_ℤ (pos expected) size_bytes then 0 else 1
coverage_from expected (r ∷ ranges) size_bytes =
    let rest = coverage_from (staging_end r) ranges size_bytes in
    if r.staging_offset == expected then rest else 1

-- `_coverage_errors`
unfoldable pub coverage_errors : List KvByteRange → ℤ → ℕ
unfolding coverage_from
coverage_errors ranges size_bytes =
    coverage_from 0 (sorted (λ p q. ltb p.staging_offset q.staging_offset) ranges) size_bytes

-- `_tensor_bounds_errors`
unfoldable pub tensor_bounds_errors : List KvByteRange → ℤ → ℤ → ℤ → ℕ
tensor_bounds_errors [] cache_size key_row value_row = 0
tensor_bounds_errors (r ∷ ranges) cache_size key_row value_row =
    let rest = tensor_bounds_errors ranges cache_size key_row value_row in
    let limit = if str_eq r.kind "k" then cache_size *ℤ key_row else cache_size *ℤ value_row in
    if ltb_ℤ limit (pos (tensor_end r)) then suc rest else rest
