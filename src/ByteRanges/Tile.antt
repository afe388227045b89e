-- ===== src/ByteRanges/Tile.antt =====
-- integrations/llama_cpp/kv_byte_ranges.py: the ranges of a block with positive rows tile its bytes.
use solid_attention.Base.{
  ℕ, zero, suc, ◌+◌, ◌*◌, ◌≡◌, refl, true, String, List, ◌==◌, ok, arith, ◌∙◌, ap, sym,
  if◌then◌else◌,
}
use solid_attention.Base.Int.{pos, eqb_ℤ}
use solid_attention.Base.Sort.{sorted_fixed}
use solid_attention.ByteRanges.Range.{
  KvByteRange, Bytes, build_block_ranges, coverage_from, coverage_errors,
}
use solid_attention.ByteRanges.Built.{
  Rows, next_row, no_row, args_of, stride, token_ranges, build_block_ranges-token_ranges,
  token_ranges-IsSorted,
}

eqb_pos : (x y : ℕ) → eqb_ℤ (pos x) (pos y) ≡ (x == y)
eqb_pos x y = ground arith

eq_self : (x : ℕ) → (x == x) ≡ true
eq_self x = ground arith

from_zero : (n : ℕ) → 0 + n ≡ n
from_zero n = omega arith

module _ (sha256 : Bytes → String) (a : Rows) where
  coverage_from-token_ranges :
      (i n : ℕ) (size : ℕ)
      → coverage_from (i * stride a) (token_ranges sha256 a i n) (pos size)
        ≡ (if ((i + n) * stride a) == size then 0 else 1)
  unfolding coverage_from
  coverage_from-token_ranges i zero size =
      let here : i + 0 ≡ i = omega arith in rw (eqb_pos (i * stride a) size, here) refl
  coverage_from-token_ranges i (suc n) size =
      let next : i * stride a + a.key_row + a.value_row ≡ (i + 1) * stride a =
        let row = next_row i (stride a) in omega arith in
      let count : i + 1 + n ≡ i + suc n = omega arith in
      rw (eq_self (i * stride a), eq_self (i * stride a + a.key_row), next, sym count)
        (coverage_from-token_ranges (i + 1) n size)

  -- For positive rows and numbers that are not negative, `_build_block_ranges` returns, and
  -- `_coverage_errors` of its ranges is 0 exactly when the rows of all the tokens together are as
  -- long as the block.
  pub ranges-cover :
      (n size : ℕ)
      → (ranges : List KvByteRange) × (build_block_ranges sha256
            (args_of a)
            (pos (a.start_token + n))
          ≡ ok ranges)
        × (coverage_errors ranges (pos size) ≡ (if (n * stride a) == size then 0 else 1))
  unfolding coverage_errors
  ranges-cover n size = (
    token_ranges sha256 a 0 n,
    build_block_ranges-token_ranges sha256 a n,
    rw (sorted_fixed _ _ (token_ranges-IsSorted sha256 a 0 n)) (
        ap (λ x. coverage_from x (token_ranges sha256 a 0 n) (pos size)) (sym (no_row (stride a)))
        ∙ coverage_from-token_ranges 0 n size
        ∙ ap (λ x. if (x * stride a) == size then 0 else 1) (from_zero n)),
  )
