-- ===== src/ByteRanges/RowSizes.antt =====
-- integrations/llama_cpp/kv_byte_ranges.py: how `_resolve_row_sizes` ends.
use solid_attention.Base.{
  ℕ, zero, suc, ◌≤◌, ◌<◌, ◌+◌, ◌*◌, ◌/◌, ◌%◌, ◌≡◌, refl, ◌≢◌, ◌⊎◌, inl, inr, true, false, Bool,
  Option, none, some, ok, err, Result, arith, ◌∙◌, ap, Bool-cases, ◌==◌, ==_iff,
}
use native.Mathlib.Nat.{div-add-mod}
use solid_attention.Base.Int.{ℤ, pos, negsuc, ◌+ℤ◌, ◌-ℤ◌, ◌*ℤ◌, +ℤ_pos, *ℤ_pos}
use solid_attention.ByteRanges.Range.{not_positive, or_one, rows_of, resolve_row_sizes}

minus_plus : (x v : ℤ) → (x -ℤ v) +ℤ v ≡ x
unfolding ◌-ℤ◌ ◌+ℤ◌
minus_plus (pos x) (pos v) = ground arith
minus_plus (pos x) (negsuc v) = ground arith
minus_plus (negsuc x) (pos v) = ground arith
minus_plus (negsuc x) (negsuc v) = ground arith

plus_minus : (x v : ℤ) → v +ℤ (x -ℤ v) ≡ x
unfolding ◌-ℤ◌ ◌+ℤ◌
plus_minus (pos x) (pos v) = ground arith
plus_minus (pos x) (negsuc v) = ground arith
plus_minus (negsuc x) (pos v) = ground arith
plus_minus (negsuc x) (negsuc v) = ground arith

halves : (x : ℕ) → x % 2 ≡ 0 → x / 2 + x / 2 ≡ x
halves x h = omega arith

-- A row size that is missing or positive.
abbrev pub IsPositive : Option ℤ → Type 0
IsPositive none = Unit
IsPositive (some (pos n)) = 0 < n
IsPositive (some (negsuc n)) = 1 ≤ 0

-- The row size is the given one, if one is given.
abbrev pub Keeps : Option ℤ → ℤ → Type 0
Keeps none row = Unit
Keeps (some given) row = row ≡ given

-- The row size is the given one, or 1.
abbrev pub IsGivenOrOne : Option ℤ → ℤ → Type 0
IsGivenOrOne none row = row ≡ pos 1
IsGivenOrOne (some given) row = row ≡ given

IsPositive-cases :
    (row : Option ℤ)
    → (IsPositive row × (not_positive row ≡ false))
      ⊎ ((¬ IsPositive row) × (not_positive row ≡ true))
IsPositive-cases none = inl (tt, refl)
IsPositive-cases (some (pos zero)) = inr (λ h. absurd (omega arith), refl)
IsPositive-cases (some (pos (suc n))) = inl (omega arith, ground arith)
IsPositive-cases (some (negsuc n)) = inr (λ h. absurd (omega arith), ground arith)

or_one-IsGivenOrOne : (row : Option ℤ) → IsGivenOrOne row (or_one row)
or_one-IsGivenOrOne none = refl
or_one-IsGivenOrOne (some given) = refl

module _ (size_bytes n : ℕ) (key_row value_row : Option ℤ) where
  -- The rows of a block of tokens: inferred from the bytes of one token, or as they were given.
  abbrev pub AreRows : (ℤ × ℤ) × Bool → Type 0
  AreRows ((k, v), true) =
      ((k +ℤ v) *ℤ pos n ≡ pos size_bytes)
      × Keeps key_row k
      × Keeps value_row v
      × (((key_row ≡ none) × (value_row ≡ none) × (k ≡ v))
          ⊎ ((key_row ≡ none) × (value_row ≡ some v))
          ⊎ ((key_row ≡ some k) × (value_row ≡ none)))
  AreRows ((k, v), false) =
      IsGivenOrOne key_row k
      × IsGivenOrOne value_row v
      × ((size_bytes % n ≢ 0) ⊎ ((key_row ≡ some k) × (value_row ≡ some v)))

  -- How the rows are resolved: refused, or found for positive rows and at least one token.
  abbrev pub ResolveOutcome : Result ((ℤ × ℤ) × Bool) → Type 0
  ResolveOutcome (err e) =
      (¬ IsPositive key_row)
      ⊎ (¬ IsPositive value_row)
      ⊎ (n ≡ 0)
      ⊎ ((key_row ≡ none) × (value_row ≡ none) × (size_bytes % n ≡ 0) × ((size_bytes / n) % 2 ≢ 0))
  ResolveOutcome (ok rows) = IsPositive key_row × IsPositive value_row × (0 < n) × AreRows rows

whole : (s n : ℕ) → s % n ≡ 0 → s / n * n ≡ s
whole s n h = omega (arith, div-add-mod s n)

-- Rows that add up to the bytes of one token fill the block.
fills : (s n : ℕ) (k v : ℤ) → s % n ≡ 0 → k +ℤ v ≡ pos (s / n) → (k +ℤ v) *ℤ pos n ≡ pos s
fills s n k v h e = ap (λ x. x *ℤ pos n) e ∙ *ℤ_pos (s / n) n ∙ ap pos (whole s n h)

rows_of-ResolveOutcome :
    (s n : ℕ) (key_row value_row : Option ℤ)
    → s % n ≡ 0
    → 0 < n
    → IsPositive key_row
    → IsPositive value_row
    → ResolveOutcome s n key_row value_row (rows_of (pos (s / n)) key_row value_row)
unfolding rows_of
rows_of-ResolveOutcome s n none none h some_tokens k v = elim (Bool-cases ((s / n) % 2 == 0)) [
  | inl even ↦
      let half = halves (s / n) ((==_iff ((s / n) % 2) 0).0 even) in
      rw even (
        k,
        v,
        some_tokens,
        (
          fills s n (pos (s / n / 2)) (pos (s / n / 2)) h
              (+ℤ_pos (s / n / 2) (s / n / 2) ∙ ap pos half),
          tt,
          tt,
          inl (refl, refl, refl),
        ),
      )
  | inr odd ↦ rw odd (inr (inr (inr (refl, refl, h, ground arith))))
]
rows_of-ResolveOutcome s n none (some v) h some_tokens key_ok value_ok = (
  key_ok,
  value_ok,
  some_tokens,
  (fills s n (pos (s / n) -ℤ v) v h (minus_plus (pos (s / n)) v), tt, refl, inr (inl (refl, refl))),
)
rows_of-ResolveOutcome s n (some k) none h some_tokens key_ok value_ok = (
  key_ok,
  value_ok,
  some_tokens,
  (fills s n k (pos (s / n) -ℤ k) h (plus_minus (pos (s / n)) k), refl, tt, inr (inr (refl, refl))),
)
rows_of-ResolveOutcome s n (some k) (some v) h some_tokens key_ok value_ok =
    (key_ok, value_ok, some_tokens, (refl, refl, inr (refl, refl)))

-- For a size that is not negative, the rows are refused exactly when a given row is not positive,
-- there are no tokens, or both rows are missing and the bytes of one token are odd. Otherwise: the
-- given rows, or 1 for one that is missing, are taken when the size is no multiple of the number of
-- tokens or both are given; and else the missing rows are inferred, equal when both are missing,
-- such that the rows of all the tokens are exactly the size.
pub resolve_row_sizes-ResolveOutcome :
    (s n : ℕ) (key_row value_row : Option ℤ)
    → ResolveOutcome s n key_row value_row (resolve_row_sizes (pos s) n key_row value_row)
unfolding resolve_row_sizes
resolve_row_sizes-ResolveOutcome s n key_row value_row = elim (IsPositive-cases key_row) [
  | inr (bad, seen) ↦ rw seen (inl bad)
  | inl (key_ok, unseen) ↦ rw unseen (elim (IsPositive-cases value_row) [
    | inr (bad, seen) ↦ rw seen (inr (inl bad))
    | inl (value_ok, unseen1) ↦ rw unseen1 (elim (Bool-cases (n == 0)) [
      | inl empty ↦ rw empty (inr (inr (inl ((==_iff n 0).0 empty))))
      | inr tokens ↦ rw tokens (elim (Bool-cases (s % n == 0)) [
        | inl even ↦ rw even (
            rows_of-ResolveOutcome s n key_row value_row ((==_iff (s % n) 0).0 even) (ground arith)
              key_ok value_ok)
        | inr left ↦ rw left (
          key_ok,
          value_ok,
          ground arith,
          (or_one-IsGivenOrOne key_row, or_one-IsGivenOrOne value_row, inl (ground arith)),
        )
      ])
    ])
  ])
]
