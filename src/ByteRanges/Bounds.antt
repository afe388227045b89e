-- ===== src/ByteRanges/Bounds.antt =====
-- integrations/llama_cpp/kv_byte_ranges.py: which rows lie behind the tensors of a cache.
use solid_attention.Base.{
  ℕ, zero, suc, ◌+◌, ◌-◌, ◌*◌, ◌<◌, ◌≡◌, String, ltb, leb, max, ◌⊎◌, inl, inr, arith,
}
use solid_attention.Base.Int.{pos, ltb_ℤ, *ℤ_pos}
use solid_attention.Layout.Extents.{row-le}
use solid_attention.ByteRanges.Range.{Bytes, tensor_bounds_errors}
use solid_attention.ByteRanges.Built.{Rows, token_ranges}

order : (x y : ℕ) → (x < y) ⊎ (x ≡ y) ⊎ (y < x)
order x y = ground arith

-- A row of a cell ends behind the cells of the cache exactly when the cell is not one of them.
row_beyond : (cache c s : ℕ) → 0 < s → ltb (cache * s) (c * s + s) ≡ leb cache c
row_beyond cache c s h = elim (order cache c) [
  | inl before ↦ let row = row-le cache c s before in ground arith
  | inr (inl at) ↦ rw at (ground arith)
  | inr (inr after) ↦ let row = row-le c cache s after in ground arith
]

ltb_pos : (x y : ℕ) → ltb_ℤ (pos x) (pos y) ≡ ltb x y
ltb_pos x y = ground arith

module _ (sha256 : Bytes → String) (a : Rows) where
  -- The cells of `n` tokens, from the token number `i` on, that lie behind those of a cache.
  abbrev pub cells_beyond : ℕ → ℕ → ℕ → ℕ
  cells_beyond cache_size i n = a.block_id + i + n - max cache_size (a.block_id + i)

  -- `_tensor_bounds_errors` of the ranges of a block counts two errors for each token whose cell is
  -- not one of the cache, and no other.
  pub tensor_bounds_errors-token_ranges :
      (cache_size i n : ℕ)
      → tensor_bounds_errors
          (token_ranges sha256 a i n)
          (pos cache_size)
          (pos a.key_row)
          (pos a.value_row)
        ≡ 2 * cells_beyond cache_size i n
  unfolding tensor_bounds_errors
  tensor_bounds_errors-token_ranges cache_size i zero = omega arith
  tensor_bounds_errors-token_ranges cache_size i (suc n) =
      let keys = row_beyond cache_size (a.block_id + i) a.key_row a.key_positive in
      let values = row_beyond cache_size (a.block_id + i) a.value_row a.value_positive in
      let more = tensor_bounds_errors-token_ranges cache_size (i + 1) n in
      rw
        (
          *ℤ_pos cache_size a.key_row,
          *ℤ_pos cache_size a.value_row,
          ltb_pos (cache_size * a.key_row) ((a.block_id + i) * a.key_row + a.key_row),
          ltb_pos (cache_size * a.value_row) ((a.block_id + i) * a.value_row + a.value_row),
          keys,
          values,
          more,
        )
        (ground arith)
