-- ===== src/Float.antt =====
-- Python's `float`, of which the checker has none: a parameter of every module that computes
-- latencies or scores. `FloatLaws` and `FloatOrder` hold what the theorems rely on; their
-- laws hold of IEEE 754 numbers, NaN and the infinities included, since addition is correctly
-- rounded.
use solid_attention.Base.{ℕ, Bool, true, false, ◌≡◌}

pub record FloatOps (Fl : Type 0) : Type 0 where
  pub zero : Fl
  pub of_nat : ℕ → Fl
  pub add : Fl → Fl → Fl
  pub sub : Fl → Fl → Fl
  pub mul : Fl → Fl → Fl
  pub div : Fl → Fl → Fl
  pub neg : Fl → Fl
  pub sqrt : Fl → Fl
  pub lt : Fl → Fl → Bool
  pub eq : Fl → Fl → Bool

pub record FloatLaws {Fl : Type 0} (fl : FloatOps Fl) : Type 0 where
  pub lt_irrefl : (a : Fl) → fl.lt a a ≡ false
  -- To add what is not below zero leads to nothing smaller.
  pub add_grows : (a b : Fl) → fl.lt b fl.zero ≡ false → fl.lt (fl.add a b) a ≡ false

-- What the order of a ranking relies on.
pub record FloatOrder {Fl : Type 0} (fl : FloatOps Fl) : Type 0 where
  pub lt_asym : (a b : Fl) → fl.lt a b ≡ true → fl.lt b a ≡ false
  pub eq_sym : (a b : Fl) → fl.eq a b ≡ fl.eq b a
