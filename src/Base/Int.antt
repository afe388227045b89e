-- ===== src/Base/Int.antt =====
-- Signed integers over the native numbers: the arguments that a constructor checks for a sign.
use Prim.Native.Nat.{ℕ, suc, ◌+◌, ◌-◌, ◌*◌, ◌≤◌, ◌<◌}
use mathlib.Core.Path.{◌≡◌, refl, ap}
use native.Mathlib.Omega.{arith}
unfoldable use native.Mathlib.Decide.{ℕ_discrete}
use mathlib.Core.Bool.{Bool, false, not}
use solid_attention.Base.Tests.{ltb, leb, ◌==◌, if◌then◌else◌}

-- `negsuc n` is -(n + 1).
pub data ℤ : Type 0 where
  pos : ℕ → ℤ
  negsuc : ℕ → ℤ

abbrev pub pos_part : ℤ → ℕ
pos_part (pos n) = n
pos_part (negsuc n) = 0

abbrev pub neg_part : ℤ → ℕ
neg_part (pos n) = 0
neg_part (negsuc n) = suc n

abbrev pub ltb_ℤ : ℤ → ℤ → Bool
ltb_ℤ a b = ltb (pos_part a + neg_part b) (pos_part b + neg_part a)

abbrev pub leb_ℤ : ℤ → ℤ → Bool
leb_ℤ a b = leb (pos_part a + neg_part b) (pos_part b + neg_part a)

abbrev pub eqb_ℤ : ℤ → ℤ → Bool
eqb_ℤ a b = (pos_part a + neg_part b) == (pos_part b + neg_part a)

pub pos_inj : {a b : ℕ} → pos a ≡ pos b → a ≡ b
pos_inj h = ap pos_part h

unfoldable pub ℤ_discrete : Discrete ℤ
ℤ_discrete (pos a) (pos b) = elim (ℕ_discrete a b) [
  | yes e ↦ yes (ap pos e)
  | no n ↦ no (λ e. n (pos_inj e))
]
ℤ_discrete (pos a) (negsuc b) = no (λ e. cc)
ℤ_discrete (negsuc a) (pos b) = no (λ e. cc)
ℤ_discrete (negsuc a) (negsuc b) = elim (ℕ_discrete a b) [
  | yes e ↦ yes (ap negsuc e)
  | no n ↦ no (λ e. n (cc))
]

-- a - b, as an integer.
abbrev pub sub_ℕ : ℕ → ℕ → ℤ
sub_ℕ a b = if leb b a then pos (a - b) else negsuc (b - a - 1)

infixl 65 ◌+ℤ◌ ◌-ℤ◌
infixl 70 ◌*ℤ◌
unfoldable pub ◌+ℤ◌ : ℤ → ℤ → ℤ
a +ℤ b = sub_ℕ (pos_part a + pos_part b) (neg_part a + neg_part b)

unfoldable pub ◌-ℤ◌ : ℤ → ℤ → ℤ
a -ℤ b = sub_ℕ (pos_part a + neg_part b) (neg_part a + pos_part b)

unfoldable pub ◌*ℤ◌ : ℤ → ℤ → ℤ
a *ℤ b =
    sub_ℕ (pos_part a * pos_part b + neg_part a * neg_part b)
      (pos_part a * neg_part b + neg_part a * pos_part b)

-- On non-negative integers the operations are those of the natural numbers.
pub +ℤ_pos : (a b : ℕ) → pos a +ℤ pos b ≡ pos (a + b)
unfolding ◌+ℤ◌
+ℤ_pos a b = ground arith

pub -ℤ_pos : (a b : ℕ) → b ≤ a → pos a -ℤ pos b ≡ pos (a - b)
unfolding ◌-ℤ◌
-ℤ_pos a b h = ground arith

pub *ℤ_pos : (a b : ℕ) → pos a *ℤ pos b ≡ pos (a * b)
unfolding ◌*ℤ◌
*ℤ_pos a b = ground arith

pub signless : (n : ℕ) → ltb_ℤ (pos n) (pos 0) ≡ false
signless n = ground arith

pub sign : (z : ℤ) → ltb_ℤ z (pos 0) ≡ false → z ≡ pos (pos_part z)
sign (pos n) h = refl
sign (negsuc n) h = ground arith

-- An integer that is above one that has no sign.
pub above :
    (z y : ℤ)
    → ltb_ℤ y (pos 0) ≡ false
    → leb_ℤ z y ≡ false
    → (z ≡ pos (pos_part z)) × (pos_part y < pos_part z)
above (pos n) (pos m) h k = (refl, ground arith)
above (negsuc n) (pos m) h k = absurd (ground arith)
above z (negsuc m) h k = absurd (ground arith)

pub eqb_ℤ-≡ : (a b : ℤ) → not (eqb_ℤ a b) ≡ false → a ≡ b
eqb_ℤ-≡ (pos a) (pos b) h = ground arith
eqb_ℤ-≡ (pos a) (negsuc b) h = absurd (ground arith)
eqb_ℤ-≡ (negsuc a) (pos b) h = absurd (ground arith)
eqb_ℤ-≡ (negsuc a) (negsuc b) h = ground arith

pub eqb_ℤ_self : (a : ℤ) → not (eqb_ℤ a a) ≡ false
eqb_ℤ_self (pos a) = ground arith
eqb_ℤ_self (negsuc a) = ground arith
