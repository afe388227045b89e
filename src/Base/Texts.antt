-- ===== src/Base/Texts.antt =====
-- Equality of texts, decided by the comparison of their characters.
use mathlib.Core.Path.{◌≡◌}
use mathlib.Core.Logic.{◌≢◌}
use mathlib.Core.Bool.{Bool, true, false}
use Prim.Native.Nat.{Ordering}
use Prim.Native.String.{String, compare}
use text.Mathlib.Text.{◌==◌ as str_eq}
use text.Mathlib.TextEquality.{eq_iff}

pub str_eq→≡ : (s t : String) → str_eq s t ≡ true → s ≡ t
str_eq→≡ s t h = (eq_iff s t).0 h

pub str_eq_self : (s : String) → str_eq s s ≡ true
str_eq_self s = (eq_iff s s).1 (λ i. s)

pub apart_texts : (s t : String) → str_eq s t ≡ false → s ≢ t
apart_texts s t h e = let same = (eq_iff s t).1 e in cc

unfoldable pub from_test : {s t : String} (b : Bool) → str_eq s t ≡ b → Dec (s ≡ t)
from_test {s} {t} true h = yes (str_eq→≡ s t h)
from_test {s} {t} false h = no (apart_texts s t h)

unfoldable pub string_discrete : Discrete String
unfolding from_test
string_discrete s t = from_test (str_eq s t) (λ i. str_eq s t)

-- `s < t` of two texts, by the code points of their characters.
abbrev pub str_lt : String → String → Bool
str_lt s t = elim (compare s t) [ Ordering.lt ↦ true | _ ↦ false ]
