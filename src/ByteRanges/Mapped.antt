-- ===== src/ByteRanges/Mapped.antt =====
-- integrations/llama_cpp/kv_byte_ranges.py: the mapping of one block that passes the tests.
use solid_attention.Base.{
  ℕ, ◌+◌, ◌-◌, ◌*◌, ◌≤◌, ◌<◌, ◌≡◌, true, false, not, String, Option, some, List, ok, arith, ◌∙◌, ap,
  sym, max,
}
use solid_attention.Base.Int.{
  ℤ, pos, leb_ℤ, eqb_ℤ, eqb_ℤ-≡, ◌+ℤ◌, ◌-ℤ◌, ◌*ℤ◌, +ℤ_pos, *ℤ_pos, -ℤ_pos,
}
use solid_attention.ByteRanges.Range.{KvByteRange, RowArgs, Bytes, build_block_ranges}
use solid_attention.ByteRanges.Blocks.{PlanBlock}
use solid_attention.ByteRanges.Mapping.{
  KvBlockByteMapping, VerifyArgs, misaligned, bounds_count, mapping_of,
}
use solid_attention.ByteRanges.Built.{Rows, stride, token_ranges}
use solid_attention.ByteRanges.Bounds.{tensor_bounds_errors-token_ranges}
use solid_attention.ByteRanges.Invert.{build_block_ranges-ok}

-- The block that a mapping is of.
abbrev pub mapped_block : KvBlockByteMapping → PlanBlock
mapped_block m = record {
  layer_id = m.layer_id;
  block_id = m.block_id;
  start_token = m.start_token;
  end_token = m.end_token;
  ssd_offset = m.ssd_offset;
  size_bytes = m.size_bytes;
}

-- The mapping is that of `n` tokens with the rows: a key and a value range for each of them, which
-- fill the block one behind the other, and whose cells the cache has.
pub record IsSound (sha256 : Bytes → String) (a : VerifyArgs) (m : KvBlockByteMapping)
    : Type 0 where
  pub rows : Rows
  pub n : ℕ
  pub some_tokens : 0 < n
  pub layer_id : m.layer_id ≡ pos rows.layer_id
  pub block_id : m.block_id ≡ pos rows.block_id
  pub start_token : m.start_token ≡ pos rows.start_token
  pub end_token : m.end_token ≡ pos (rows.start_token + n)
  pub ssd_offset : m.ssd_offset ≡ pos rows.ssd_offset
  pub ranges : m.ranges ≡ token_ranges sha256 rows 0 n
  pub size_bytes : m.size_bytes ≡ pos (n * stride rows)
  pub cells : (c : ℕ) → a.cache_size ≡ some (pos c) → rows.block_id + n ≤ c
  pub aligned : misaligned a.alignment m.ssd_offset ≡ false

all_fit : (b n c : ℕ) → 0 < n → 2 * (b + 0 + n - max c (b + 0)) ≡ 0 → b + n ≤ c
all_fit b n c h k = ground arith

times_comm : (a b : ℕ) → a * b ≡ b * a
times_comm a b = omega arith

module _ (sha256 : Bytes → String) (a : VerifyArgs) (b : PlanBlock) (k v : ℤ) (bytes : Option Bytes)
    (ranges : List KvByteRange) where
  abbrev pub args : RowArgs
  args = record {
    layer_id = b.layer_id;
    block_id = b.block_id;
    start_token = b.start_token;
    ssd_offset = b.ssd_offset;
    key_row = k;
    value_row = v;
    block_bytes = bytes;
  }

  pub mapping-IsSound :
      leb_ℤ (b.end_token -ℤ b.start_token) (pos 0) ≡ false
      → build_block_ranges sha256 args b.end_token ≡ ok ranges
      → eqb_ℤ ((k +ℤ v) *ℤ (b.end_token -ℤ b.start_token)) b.size_bytes ≡ true
      → bounds_count a.cache_size ranges k v ≡ 0
      → misaligned a.alignment b.ssd_offset ≡ false
      → IsSound sha256 a (mapping_of sha256 b k v bytes ranges)
  mapping-IsSound some_tokens built size bounds aligned =
      let (rows, n, same, at_end, positive, these) =
        build_block_ranges-ok sha256 args b.end_token ranges some_tokens built in
      let key_row = ap (λ x. x.key_row) same in
      let value_row = ap (λ x. x.value_row) same in
      let start = ap (λ x. x.start_token) same in
      let tokens : b.end_token -ℤ b.start_token ≡ pos n =
        (λ i. at_end i -ℤ start i)
        ∙ -ℤ_pos (rows.start_token + n) rows.start_token (omega arith)
        ∙ ap pos (omega arith) in
      let total : (k +ℤ v) *ℤ (b.end_token -ℤ b.start_token) ≡ pos (n * stride rows) =
        (λ i. (key_row i +ℤ value_row i) *ℤ tokens i)
        ∙ ap (λ x. x *ℤ pos n) (+ℤ_pos rows.key_row rows.value_row)
        ∙ *ℤ_pos (stride rows) n
        ∙ ap pos (times_comm (stride rows) n) in
      record {
        rows = rows;
        n = n;
        some_tokens = positive;
        layer_id = ap (λ x. x.layer_id) same;
        block_id = ap (λ x. x.block_id) same;
        start_token = start;
        end_token = at_end;
        ssd_offset = ap (λ x. x.ssd_offset) same;
        ranges = these;
        size_bytes = sym (eqb_ℤ-≡ _ b.size_bytes (ap not size)) ∙ total;
        cells = λ c cache. all_fit rows.block_id n c positive (
            sym (tensor_bounds_errors-token_ranges sha256 rows c 0 n)
            ∙ (λ i. bounds_count (sym cache i) (sym these i) (sym key_row i) (sym value_row i))
            ∙ bounds);
        aligned = aligned;
      }
