-- ===== src/ByteRanges/Reassemble.antt =====
-- integrations/llama_cpp/kv_byte_ranges.py: the slices of the ranges of a block make up its bytes.
use solid_attention.Base.{
  ℕ, zero, suc, ◌+◌, ◌*◌, ◌≡◌, refl, String, List, [], ◌∷◌, ◌++◌, append-nil, append_assoc, ok,
  arith, ◌∙◌, ap, sym, length, take, drop,
}
use solid_attention.Base.Int.{pos}
use solid_attention.ByteRanges.Range.{KvByteRange, Bytes, slice, build_block_ranges}
use solid_attention.ByteRanges.Built.{
  Rows, next_row, no_row, args_of, stride, token_ranges, build_block_ranges-token_ranges,
}

take-drop : (n : ℕ) (xs : Bytes) → take n xs ++ drop n xs ≡ xs
take-drop zero xs = refl
take-drop (suc n) [] = refl
take-drop (suc n) (x ∷ xs) = ap (◌∷◌ x) (take-drop n xs)

drop-nil : (n : ℕ) → drop {A = ℕ} n [] ≡ []
drop-nil zero = refl
drop-nil (suc n) = refl

drop-drop : (m n : ℕ) (xs : Bytes) → drop n (drop m xs) ≡ drop (m + n) xs
drop-drop zero n xs = let start : n ≡ 0 + n = omega arith in ap (λ k. drop k xs) start
drop-drop (suc m) n [] = drop-nil n ∙ sym (drop-nil (suc m + n))
drop-drop (suc m) n (x ∷ xs) =
    let later : suc (m + n) ≡ suc m + n = omega arith in
    drop-drop m n xs ∙ ap (λ k. drop k (x ∷ xs)) later

drop-length : (xs : Bytes) → drop (length xs) xs ≡ []
drop-length [] = refl
drop-length (x ∷ xs) = drop-length xs

-- The slices of the ranges, in order.
abbrev pub slices : List KvByteRange → Bytes → Bytes
slices [] bytes = []
slices (r ∷ ranges) bytes = slice bytes r.staging_offset r.size_bytes ++ slices ranges bytes

-- A slice and what is behind it.
slice-drop :
    (bytes : Bytes) (offset size : ℕ)
    → slice bytes offset size ++ drop (offset + size) bytes ≡ drop offset bytes
slice-drop bytes offset size =
    ap (λ x. slice bytes offset size ++ x) (sym (drop-drop offset size bytes))
    ∙ take-drop size (drop offset bytes)

module _ (sha256 : Bytes → String) (a : Rows) where
  slices-drop :
      (bytes : Bytes) (i n : ℕ)
      → slices (token_ranges sha256 a i n) bytes ++ drop ((i + n) * stride a) bytes
        ≡ drop (i * stride a) bytes
  slices-drop bytes i zero = ap (λ k. drop (k * stride a) bytes) (omega arith)
  slices-drop bytes i (suc n) =
      let s = i * stride a in
      let keys = slice bytes s a.key_row in
      let values = slice bytes (s + a.key_row) a.value_row in
      let more = slices (token_ranges sha256 a (i + 1) n) bytes in
      let behind = drop ((i + suc n) * stride a) bytes in
      let count : i + suc n ≡ i + 1 + n = omega arith in
      let next : (i + 1) * stride a ≡ s + a.key_row + a.value_row =
        let row = next_row i (stride a) in omega arith in
      append_assoc keys (values ++ more) behind
      ∙ ap (λ x. keys ++ x)
          (append_assoc values more behind
            ∙ ap (λ x. values ++ x)
                (ap (λ k. more ++ drop (k * stride a) bytes) count
                  ∙ slices-drop bytes (i + 1) n
                  ∙ ap (λ k. drop k bytes) next)
            ∙ slice-drop bytes (s + a.key_row) a.value_row)
      ∙ slice-drop bytes s a.key_row

  -- For a block whose rows are positive and fill its bytes, `_build_block_ranges` returns ranges
  -- whose slices of the bytes, one after the other, are the bytes again.
  pub slices_reassemble :
      (n : ℕ) (bytes : Bytes)
      → length bytes ≡ n * stride a
      → (ranges : List KvByteRange) × (build_block_ranges sha256
            (args_of a)
            (pos (a.start_token + n))
          ≡ ok ranges)
        × (slices ranges bytes ≡ bytes)
  slices_reassemble n bytes h = (
    token_ranges sha256 a 0 n,
    build_block_ranges-token_ranges sha256 a n,
    sym (append-nil _)
        ∙ ap (λ x. slices (token_ranges sha256 a 0 n) bytes ++ x)
            (sym (drop-length bytes)
              ∙ ap (λ k. drop k bytes) (h ∙ ap (λ k. k * stride a) (omega arith)))
        ∙ slices-drop bytes 0 n
        ∙ ap (λ k. drop k bytes) (no_row (stride a)),
  )
