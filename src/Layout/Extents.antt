-- ===== src/Layout/Extents.antt =====
-- core/kv_layout.py: the byte ranges of the tokens of one block.
use solid_attention.Base.{
  ℕ, zero, suc, ◌∙◌, ap, sym, ◌+◌, ◌-◌, ◌*◌, ◌≤◌, ◌<◌, ◌≡◌, refl, ◌⊎◌, true, false, Result, ok, err,
  value_error, inl, inr, arith,
}
use solid_attention.Base.Int.{ℤ, pos, negsuc, ◌+ℤ◌, ◌*ℤ◌, +ℤ_pos, -ℤ_pos, *ℤ_pos}
use solid_attention.Block.{contains_token, interval_contains}
use solid_attention.Block.Checks.{IsWellFormed}
use solid_attention.Layout.{
  KvExtent, kv_extent, extent_end, BlockLayout, token_stride_bytes, end_offset, token_index,
  check_token, key_extent, value_extent, token_extents,
}

-- A layout that the constructors build.
pub record IsLayout {Fl : Type 0} (l : BlockLayout Fl) : Type 0 where
  pub block : IsWellFormed l.block
  pub key_positive : 0 < l.key_size_bytes
  pub value_positive : 0 < l.value_size_bytes

-- Rows of one size: a row ends before a later one begins.
pub row-le : (i j s : ℕ) → i < j → i * s + s ≤ j * s
row-le i j s h = grind arith

pub row-suc : (i j s : ℕ) → j ≡ i + 1 → i * s + s ≡ j * s
row-suc i j s h = rw h (omega arith)

module _ {Fl : Type 0} (l : BlockLayout Fl) (v : IsLayout l) where
  -- Where the pair of the token begins.
  abbrev pub pair_offset : ℕ → ℕ
  pair_offset t = l.base_offset + (t - l.block.start_token) * token_stride_bytes l

  abbrev pub key_range : ℕ → KvExtent
  key_range t = record {
    kind = "k";
    token_id = t;
    offset = pair_offset t;
    size_bytes = l.key_size_bytes;
  }

  abbrev pub value_range : ℕ → KvExtent
  value_range t = record {
    kind = "v";
    token_id = t;
    offset = pair_offset t + l.key_size_bytes;
    size_bytes = l.value_size_bytes;
  }

  -- The token's number lies in the block's interval.
  abbrev pub Holds : ℕ → Type 0
  Holds t = (l.block.start_token ≤ t) × (t < l.block.end_token)

  abbrev pub outside : Result (KvExtent × KvExtent)
  outside = err (value_error "token is outside block range")

  contains_held : (t : ℕ) → Holds t → contains_token l.block (pos t) ≡ true
  unfolding contains_token interval_contains
  contains_held t h = ground arith

  held_cases :
      (t : ℕ)
      → Holds t
        ⊎ (((t < l.block.start_token) ⊎ (l.block.end_token ≤ t))
            × (contains_token l.block (pos t) ≡ false))
  unfolding contains_token interval_contains
  held_cases t = ground arith

  pair_offset_lem :
      (t : ℕ)
      → Holds t
      → pos l.base_offset +ℤ token_index l (pos t) *ℤ pos (token_stride_bytes l)
        ≡ pos (pair_offset t)
  unfolding token_index
  pair_offset_lem t h =
      rw
        (
          -ℤ_pos t l.block.start_token h.0,
          *ℤ_pos (t - l.block.start_token) (token_stride_bytes l),
          +ℤ_pos l.base_offset ((t - l.block.start_token) * token_stride_bytes l),
        )
        refl

  key_extent_held : (t : ℕ) → Holds t → key_extent l (pos t) ≡ ok (key_range t)
  unfolding key_extent check_token kv_extent
  key_extent_held t h = rw (contains_held t h, pair_offset_lem t h) (ground arith)

  value_extent_held : (t : ℕ) → Holds t → value_extent l (pos t) ≡ ok (value_range t)
  unfolding value_extent check_token kv_extent
  value_extent_held t h =
      rw (contains_held t h, pair_offset_lem t h, +ℤ_pos (pair_offset t) l.key_size_bytes)
        (ground arith)

  -- How `token_extents` ends at a token.
  abbrev pub ExtentsOutcome : ℤ → Result (KvExtent × KvExtent) → Type 0
  ExtentsOutcome (negsuc n) out = out ≡ outside
  ExtentsOutcome (pos t) out =
      (Holds t × (out ≡ ok (key_range t, value_range t)))
      ⊎ (((t < l.block.start_token) ⊎ (l.block.end_token ≤ t)) × (out ≡ outside))

  outside_lem :
      (token_id : ℤ) → contains_token l.block token_id ≡ false → token_extents l token_id ≡ outside
  unfolding token_extents key_extent check_token
  outside_lem token_id h = rw h refl

  -- In a valid layout, a token of the block gets its key range and, right behind it, its value range, at the offset
  -- that its place in the block gives; any other token, a negative one too, raises.
  pub token_extents-ExtentsOutcome :
      (token_id : ℤ) → ExtentsOutcome token_id (token_extents l token_id)
  unfolding token_extents
  token_extents-ExtentsOutcome (negsuc n) =
      outside_lem (negsuc n) (unfold contains_token interval_contains in ground arith)
  token_extents-ExtentsOutcome (pos t) = elim (held_cases t) [
    | inl held ↦ inl (held, rw (key_extent_held t held, value_extent_held t held) refl)
    | inr (other, missed) ↦ inr (other, outside_lem (pos t) missed)
  ]

  pairs_tile :
      (t : ℕ)
      → Holds t
      → (pair_offset l.block.start_token ≡ l.base_offset)
        × (extent_end (key_range t) ≡ (value_range t).offset)
        × (extent_end (value_range t) ≡ pair_offset (t + 1))
        × (pair_offset l.block.end_token ≡ end_offset l)
  pairs_tile t h =
      let b = l.block in
      let s = token_stride_bytes l in
      let i = t - b.start_token in
      let next = row-suc i (t + 1 - b.start_token) s (omega arith) in
      let none_left : b.start_token - b.start_token ≡ 0 = omega arith in
      (
        rw none_left (omega arith),
        refl,
        omega arith,
        rw (v.block.start_agrees, v.block.end_agrees) refl,
      )

  -- The extents of the `n` tokens from `t` on lie one behind the other from the offset to the end of
  -- the block: each key extent begins where the extents before it end, its value extent follows it,
  -- and both have the sizes of the layout.
  abbrev pub Tiles : ℕ → ℕ → ℕ → Type 0
  Tiles offset t zero = offset ≡ end_offset l
  Tiles offset t (suc n) =
      (k : KvExtent) × (v : KvExtent) × (key_extent l (pos t) ≡ ok k)
      × (value_extent l (pos t) ≡ ok v)
      × (k.offset ≡ offset)
      × (k.size_bytes ≡ l.key_size_bytes)
      × (v.offset ≡ extent_end k)
      × (v.size_bytes ≡ l.value_size_bytes)
      × Tiles (extent_end v) (t + 1) n

  extents_from :
      (offset t n : ℕ)
      → l.block.start_token ≤ t
      → t + n ≡ l.block.end_token
      → pair_offset t ≡ offset
      → Tiles offset t n
  extents_from offset t zero lower upper here =
      let at_end : t ≡ l.block.end_token = omega arith in
      sym here ∙ ap pair_offset at_end ∙ (rw (v.block.start_agrees, v.block.end_agrees) refl)
  extents_from offset t (suc n) lower upper here =
      let held : Holds t = (lower, omega arith) in
      (
        key_range t,
        value_range t,
        key_extent_held t held,
        value_extent_held t held,
        here,
        refl,
        refl,
        refl,
        extents_from (extent_end (value_range t)) (t + 1) n (omega arith) (omega arith)
            (sym (pairs_tile t held).2),
      )

  -- In a valid layout `key_extent` and `value_extent` return for every token of the block, with the
  -- key and the value size of the layout, and the extents tile the block's span in the order of the
  -- tokens: the first key extent begins at the base, each value extent right behind its key extent,
  -- each later key extent right behind the value extent before it, and the last value extent ends
  -- at the end offset.
  pub extents_tile :
      Tiles l.base_offset l.block.start_token (l.block.end_token - l.block.start_token)
  extents_tile =
      let b = l.block in
      let none_left : b.start_token - b.start_token ≡ 0 = omega arith in
      let nonempty = v.block.nonempty in
      extents_from l.base_offset b.start_token (b.end_token - b.start_token) (omega arith)
        (omega arith) (rw none_left (omega arith))

  -- No byte of the block serves two tokens.
  pub pairs_apart :
      (t u : ℕ) → Holds t → Holds u → t < u → extent_end (value_range t) ≤ (key_range u).offset
  pairs_apart t u h k lt = omega (
    arith,
    row-le (t - l.block.start_token) (u - l.block.start_token) (token_stride_bytes l) (omega arith),
  )

  pub pair_within :
      (t : ℕ)
      → Holds t
      → (l.base_offset ≤ (key_range t).offset) × (extent_end (value_range t) ≤ end_offset l)
  pair_within t h =
      let b = l.block in
      let row =
        row-le (t - b.start_token) (b.end_token - b.start_token) (token_stride_bytes l)
          (omega arith) in
      (omega arith, omega (arith, (pairs_tile t h).3))
