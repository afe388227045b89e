-- ===== src/ByteRanges/Invert.antt =====
-- integrations/llama_cpp/kv_byte_ranges.py: of what blocks `_build_block_ranges` builds ranges at all.
use solid_attention.Base.{
  ℕ, zero, suc, ◌+◌, ◌<◌, ◌≡◌, refl, true, false, not, not-false, ◌||◌, str_eq, String, List, ok,
  arith, ◌∙◌, ap, sym, subst, >>-eq-ok, >>=-eq-ok, ok_inj,
}
use solid_attention.Base.Int.{
  ℤ, pos, negsuc, pos_part, ltb_ℤ, leb_ℤ, ◌+ℤ◌, ◌-ℤ◌, ◌*ℤ◌, sign, above, neg_part,
}
use solid_attention.ByteRanges.Built.{no_row}
use solid_attention.ByteRanges.Range.{
  KvByteRange, RangeArgs, kv_byte_range, RowArgs, Bytes, key_args, value_args, build_from,
  build_block_ranges,
}
use solid_attention.ByteRanges.Built.{
  Rows, args_of, as_args, token_ranges, build_block_ranges-token_ranges,
}

-- What the constructor accepts.
pub record IsRange (a : RangeArgs) (r : KvByteRange) : Type 0 where
  pub args : a ≡ as_args r
  pub kind : str_eq r.kind "k" || str_eq r.kind "v" ≡ true
  pub positive : 0 < r.size_bytes

kv_byte_range-ok : (a : RangeArgs) (r : KvByteRange) → kv_byte_range a ≡ ok r → IsRange a r
unfolding kv_byte_range
kv_byte_range-ok a r h =
    let (kind, h1) = >>-eq-ok (not (str_eq a.kind "k" || str_eq a.kind "v")) _ _ h in
    let (layer_id, h2) = >>-eq-ok (ltb_ℤ a.layer_id (pos 0)) _ _ h1 in
    let (block_id, h3) = >>-eq-ok (ltb_ℤ a.block_id (pos 0)) _ _ h2 in
    let (token_id, h4) = >>-eq-ok (ltb_ℤ a.token_id (pos 0)) _ _ h3 in
    let (staging, h5) = >>-eq-ok (ltb_ℤ a.staging_offset (pos 0)) _ _ h4 in
    let (backing, h6) = >>-eq-ok (ltb_ℤ a.backing_offset (pos 0)) _ _ h5 in
    let (tensor, h7) = >>-eq-ok (ltb_ℤ a.tensor_offset (pos 0)) _ _ h6 in
    let (bytes, made) = >>-eq-ok (leb_ℤ a.size_bytes (pos 0)) _ _ h7 in
    let size = above a.size_bytes (pos 0) refl bytes in
    subst (IsRange a) (ok_inj made) (record {
      args = λ i. record {
        kind = a.kind;
        layer_id = sign a.layer_id layer_id i;
        block_id = sign a.block_id block_id i;
        token_id = sign a.token_id token_id i;
        staging_offset = sign a.staging_offset staging i;
        backing_offset = sign a.backing_offset backing i;
        tensor_offset = sign a.tensor_offset tensor i;
        size_bytes = size.0 i;
        sha256 = a.sha256;
      };
      kind = not-false kind;
      positive = size.1;
    })

plus_zero : (z : ℤ) → z +ℤ pos 0 ≡ z
unfolding ◌+ℤ◌
plus_zero (pos n) = ground arith
plus_zero (negsuc n) = ground arith

zero_times : (z : ℤ) → pos 0 *ℤ z ≡ pos 0
unfolding ◌*ℤ◌
zero_times z = let a = no_row (pos_part z) in let b = no_row (neg_part z) in ground arith

minus_back : (z : ℤ) (s : ℕ) → 0 < pos_part (z -ℤ pos s) → z ≡ pos (s + pos_part (z -ℤ pos s))
unfolding ◌-ℤ◌
minus_back (pos n) s h = ground arith
minus_back (negsuc n) s h = absurd (ground arith)

module _ (sha256 : Bytes → String) (a : RowArgs) where
  -- The first token of a block that has one tells of the whole block.
  first-Rows :
      (k v : KvByteRange)
      → IsRange (key_args sha256 a 0) k
      → IsRange (value_args sha256 a 0) v
      → (rows : Rows) × (a ≡ args_of rows)
  first-Rows k v key value =
      let start = sym (plus_zero a.start_token) ∙ ap (λ x. x.token_id) key.args in
      let offset =
        sym (plus_zero a.ssd_offset)
        ∙ ap (λ x. a.ssd_offset +ℤ x) (sym (zero_times (a.key_row +ℤ a.value_row)))
        ∙ ap (λ x. x.backing_offset) key.args in
      (
        record {
          layer_id = k.layer_id;
          block_id = k.block_id;
          start_token = k.token_id;
          ssd_offset = k.backing_offset;
          key_row = k.size_bytes;
          value_row = v.size_bytes;
          block_bytes = a.block_bytes;
          key_positive = key.positive;
          value_positive = value.positive;
        },
        λ i. record {
          layer_id = (key.args i).layer_id;
          block_id = (key.args i).block_id;
          start_token = start i;
          ssd_offset = offset i;
          key_row = (key.args i).size_bytes;
          value_row = (value.args i).size_bytes;
          block_bytes = a.block_bytes;
        },
      )

  build_from-Rows :
      (n : ℕ) (ranges : List KvByteRange)
      → 0 < n
      → build_from sha256 a 0 n ≡ ok ranges
      → (rows : Rows) × (a ≡ args_of rows)
  unfolding build_from
  build_from-Rows zero ranges positive h = absurd (omega arith)
  build_from-Rows (suc n) ranges positive h =
      let (k, key, h') = >>=-eq-ok (kv_byte_range (key_args sha256 a 0)) _ h in
      let (v, value, _) = >>=-eq-ok (kv_byte_range (value_args sha256 a 0)) _ h' in
      first-Rows k v (kv_byte_range-ok _ k key) (kv_byte_range-ok _ v value)

  -- Ranges are built of a block with tokens only when its numbers are not negative and its rows
  -- positive, and then they are those of its rows.
  pub build_block_ranges-ok :
      (end : ℤ) (ranges : List KvByteRange)
      → leb_ℤ (end -ℤ a.start_token) (pos 0) ≡ false
      → build_block_ranges sha256 a end ≡ ok ranges
      → (rows : Rows) × (n : ℕ) × (a ≡ args_of rows)
        × (end ≡ pos (rows.start_token + n))
        × (0 < n)
        × (ranges ≡ token_ranges sha256 rows 0 n)
  unfolding build_block_ranges
  build_block_ranges-ok end ranges some_tokens h =
      let (_, positive) = above (end -ℤ a.start_token) (pos 0) refl some_tokens in
      let (rows, same) = build_from-Rows (pos_part (end -ℤ a.start_token)) ranges positive h in
      let start = ap (λ x. x.start_token) same in
      let n = pos_part (end -ℤ pos rows.start_token) in
      let here : 0 < n = subst (λ z. 0 < pos_part (end -ℤ z)) start positive in
      let at_end = minus_back end rows.start_token here in
      (
        rows,
        n,
        same,
        at_end,
        here,
        ok_inj (
            sym h
            ∙ (λ i. build_block_ranges sha256 (same i) (at_end i))
            ∙ build_block_ranges-token_ranges sha256 rows n),
      )
