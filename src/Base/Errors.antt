-- ===== src/Base/Errors.antt =====
-- Python's exceptions as values: `ok` is a normal return.
use Prim.Native.String.{String}
use mathlib.Core.Logic.{◌⊎◌, inl, inr}
use mathlib.Core.Bool.{Bool, true, false}
use mathlib.Core.Path.{◌≡◌, refl}

-- The class of the exception with its message; what the message interpolates is left out.
pub data Error : Type 0 where
  value_error key_error runtime_error zero_division_error : String → Error

pub data Result {ℓ} (A : Type ℓ) : Type ℓ where
  ok : A → Result A
  err : Error → Result A

module _ {ℓ κ} {A : Type ℓ} {B : Type κ} where
  infixl 5 ◌>>=◌
  -- The next step sees the value; an exception passes it over.
  abbrev pub ◌>>=◌ : Result A → (A → Result B) → Result B
  err x >>= next = err x
  ok value >>= next = next value

  -- Inversion of a successful bind.
  pub >>=-eq-ok :
      (step : Result A) (next : A → Result B) {last : B}
      → (step >>= next) ≡ ok last
      → (value : A) × (step ≡ ok value) × (next value ≡ ok last)
  >>=-eq-ok (err x) next h = cc
  >>=-eq-ok (ok value) next h = (value, refl, h)

infixl 5 ◌>>◌
abbrev pub ◌>>◌ {κ} : {B : Type κ} → Result (Unit {0}) → Result B → Result B
step >> next = step >>= λ _. next

-- `if test: raise e`
abbrev pub raise_if : Bool → Error → Result (Unit {0})
raise_if true e = err e
raise_if false e = ok tt

-- What a check that is passed tells, and what is left of it.
pub >>-eq-ok {κ} :
    {B : Type κ} (test : Bool) (e : Error) (rest : Result B) {last : B}
    → (raise_if test e >> rest) ≡ ok last
    → (test ≡ false) × (rest ≡ ok last)
>>-eq-ok true e rest h = cc
>>-eq-ok false e rest h = (refl, h)

pub skip_raise {κ} :
    {B : Type κ} {test : Bool} (e : Error) (rest : Result B)
    → test ≡ false
    → (raise_if test e >> rest) ≡ rest
skip_raise e rest h = rw h refl

-- A normal return whose value satisfies `P`.
abbrev pub Returns {ℓ κ} : {A : Type ℓ} → (A → Type κ) → Result A → Type (ℓ ⊔ κ)
Returns {A} P r = (a : A) × (r ≡ ok a) × P a

pub ok_inj {ℓ} : {A : Type ℓ} {a b : A} → ok a ≡ ok b → a ≡ b
ok_inj h = cc

pub Result-cases {ℓ} :
    {A : Type ℓ} (r : Result A) → ((a : A) × (r ≡ ok a)) ⊎ ((e : Error) × (r ≡ err e))
Result-cases (ok a) = inl (a, refl)
Result-cases (err e) = inr (e, refl)
