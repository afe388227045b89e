-- ===== src/ByteRanges/Built.antt =====
-- integrations/llama_cpp/kv_byte_ranges.py: what `_build_block_ranges` builds of a block with positive
-- rows.
use solid_attention.Base.{
  ℕ, zero, suc, ◌+◌, ◌-◌, ◌*◌, ◌≤◌, ◌<◌, ◌≡◌, refl, true, false, Option, String, str_eq, ◌||◌, List,
  [], ◌∷◌, ltb, ok, arith, All, All-imp,
}
use solid_attention.Base.Int.{pos, +ℤ_pos, *ℤ_pos, -ℤ_pos}
use solid_attention.Base.Sort.{IsSorted}
use solid_attention.ByteRanges.Range.{
  KvByteRange, RangeArgs, kv_byte_range, RowArgs, Bytes, slice_sha256, key_args, value_args,
  build_from, build_block_ranges,
}

pub next_row : (i s : ℕ) → (i + 1) * s ≡ i * s + s
next_row i s = omega arith

pub no_row : (s : ℕ) → 0 * s ≡ 0
no_row s = omega arith

-- A block with numbers that are not negative, and positive rows.
pub record Rows : Type 0 where
  pub layer_id : ℕ
  pub block_id : ℕ
  pub start_token : ℕ
  pub ssd_offset : ℕ
  pub key_row : ℕ
  pub value_row : ℕ
  pub block_bytes : Option Bytes
  pub key_positive : 0 < key_row
  pub value_positive : 0 < value_row

-- The arguments that a range with such numbers comes from.
abbrev pub as_args : KvByteRange → RangeArgs
as_args r = record {
  kind = r.kind;
  layer_id = pos r.layer_id;
  block_id = pos r.block_id;
  token_id = pos r.token_id;
  staging_offset = pos r.staging_offset;
  backing_offset = pos r.backing_offset;
  tensor_offset = pos r.tensor_offset;
  size_bytes = pos r.size_bytes;
  sha256 = r.sha256;
}

pub range_made :
    (r : KvByteRange)
    → str_eq r.kind "k" || str_eq r.kind "v" ≡ true
    → 0 < r.size_bytes
    → kv_byte_range (as_args r) ≡ ok r
unfolding kv_byte_range
range_made r kind positive = rw kind (ground arith)

add_sub : (x n : ℕ) → x + n - x ≡ n
add_sub x n = omega arith

not_before : (x y : ℕ) → y ≤ x → ltb x y ≡ false
not_before x y h = ground arith

module _ (a : Rows) where
  abbrev pub args_of : RowArgs
  args_of = record {
    layer_id = pos a.layer_id;
    block_id = pos a.block_id;
    start_token = pos a.start_token;
    ssd_offset = pos a.ssd_offset;
    key_row = pos a.key_row;
    value_row = pos a.value_row;
    block_bytes = a.block_bytes;
  }

  abbrev pub stride : ℕ
  stride = a.key_row + a.value_row

module _ (sha256 : Bytes → String) (a : Rows) where
  abbrev pub range_at : String → ℕ → ℕ → ℕ → KvByteRange
  range_at kind i offset row = record {
    kind = kind;
    layer_id = a.layer_id;
    block_id = a.block_id;
    token_id = a.start_token + i;
    staging_offset = offset;
    backing_offset = a.ssd_offset + offset;
    tensor_offset = (a.block_id + i) * row;
    size_bytes = row;
    sha256 = slice_sha256 sha256 a.block_bytes (pos offset) (pos row);
  }

  -- The ranges of `n` tokens from the token number `i` on.
  abbrev pub token_ranges : ℕ → ℕ → List KvByteRange
  token_ranges i zero = []
  token_ranges i (suc n) =
      range_at "k" i (i * stride a) a.key_row
      ∷ range_at "v" i (i * stride a + a.key_row) a.value_row
      ∷ token_ranges (i + 1) n

  key_made :
      (i : ℕ)
      → kv_byte_range (key_args sha256 (args_of a) i) ≡ ok (range_at "k" i (i * stride a) a.key_row)
  key_made i =
      rw
        (
          +ℤ_pos a.key_row a.value_row,
          *ℤ_pos i (stride a),
          +ℤ_pos a.start_token i,
          +ℤ_pos a.ssd_offset (i * stride a),
          +ℤ_pos a.block_id i,
          *ℤ_pos (a.block_id + i) a.key_row,
        )
        (range_made (range_at "k" i (i * stride a) a.key_row) refl a.key_positive)

  value_made :
      (i : ℕ)
      → kv_byte_range (value_args sha256 (args_of a) i)
        ≡ ok (range_at "v" i (i * stride a + a.key_row) a.value_row)
  value_made i =
      rw
        (
          +ℤ_pos a.key_row a.value_row,
          *ℤ_pos i (stride a),
          +ℤ_pos (i * stride a) a.key_row,
          +ℤ_pos a.start_token i,
          +ℤ_pos a.ssd_offset (i * stride a + a.key_row),
          +ℤ_pos a.block_id i,
          *ℤ_pos (a.block_id + i) a.value_row,
        )
        (range_made (range_at "v" i (i * stride a + a.key_row) a.value_row) refl a.value_positive)

  build_from-token_ranges : (i n : ℕ) → build_from sha256 (args_of a) i n ≡ ok (token_ranges i n)
  unfolding build_from
  build_from-token_ranges i zero = refl
  build_from-token_ranges i (suc n) =
      rw (key_made i, value_made i, build_from-token_ranges (i + 1) n) refl

  pub build_block_ranges-token_ranges :
      (n : ℕ)
      → build_block_ranges sha256 (args_of a) (pos (a.start_token + n)) ≡ ok (token_ranges 0 n)
  unfolding build_block_ranges
  build_block_ranges-token_ranges n =
      rw (-ℤ_pos (a.start_token + n) a.start_token (omega arith), add_sub a.start_token n)
        (build_from-token_ranges 0 n)

  starts_from : (x i n : ℕ) → x ≤ i * stride a → All (λ r. x ≤ r.staging_offset) (token_ranges i n)
  starts_from x i zero h = tt
  starts_from x i (suc n) h =
      let next = next_row i (stride a) in (h, (omega arith, starts_from x (i + 1) n (omega arith)))

  pub token_ranges-IsSorted :
      (i n : ℕ) → IsSorted (λ p q. ltb p.staging_offset q.staging_offset) (token_ranges i n)
  token_ranges-IsSorted i zero = tt
  token_ranges-IsSorted i (suc n) =
      let next = next_row i (stride a) in
      let behind = λ (x : ℕ) (h : x ≤ (i + 1) * stride a).
        All-imp _ _ (λ r k. not_before r.staging_offset x k) _ (starts_from x (i + 1) n h) in
      (
        (
          not_before (i * stride a + a.key_row) (i * stride a) (omega arith),
          behind (i * stride a) (omega arith),
        ),
        (behind (i * stride a + a.key_row) (omega arith), token_ranges-IsSorted (i + 1) n),
      )
