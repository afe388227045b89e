-- ===== src/SsdLayout/Align.antt =====
-- core/movement_plan.py: `_align` rounds up to a multiple of the alignment.
use solid_attention.Base.{
  ℕ, ◌+◌, ◌-◌, ◌*◌, ◌/◌, ◌%◌, ◌≤◌, ◌<◌, ◌≡◌, ◌∙◌, ap, arith, ◌==◌, Bool-cases, inl, inr, ==_iff,
}
use native.Mathlib.Nat.{div-add-mod, mod-lt, mul-mod_right}
use solid_attention.SsdLayout.{align}

-- The multiple above an offset that is none itself.
round_up : (a x : ℕ) → 0 < a → x + a - x % a ≡ a * (x / a + 1)
round_up a x h = omega (arith, div-add-mod x a, mod-lt x h)

-- With a positive alignment, the result is a multiple of it, not below the offset and less than
-- one unit above.
pub align_lem : (a x : ℕ) → 0 < a → (align a x % a ≡ 0) × (x ≤ align a x) × (align a x < x + a)
unfolding align
align_lem a x h = elim (Bool-cases (x % a == 0)) [
  | inl aligned ↦ rw aligned ((==_iff (x % a) 0).0 aligned, omega arith, omega arith)
  | inr rest ↦ rw rest (
    ap (λ n. n % a) (round_up a x h) ∙ mul-mod_right a (x / a + 1),
    omega (arith, mod-lt x h),
    ground arith,
  )
]
