-- ===== src/Base/Results.antt =====
-- Go's `(T, error)`: the sentinel errors that callers compare with `errors.Is`, and all others.
use mathlib.Core.Path.{◌≡◌, refl}
use mathlib.Core.Bool.{Bool, true, false}
use mathlib.Core.Logic.{◌⊎◌, inl, inr}
use Prim.Native.String.{String}
use native.Mathlib.Omega.{arith}

-- `invalid` holds what an `errors.New` is about; its wording is not modelled.
pub data Error : Type 0 where
  invalid_transition revision_conflict closure_open lease_conflict : Error
  fence_conflict command_conflict receipt_conflict reconcile_required effect_conflict : Error
  invalid : String → Error

pub data Result {ℓ} (A : Type ℓ) : Type ℓ where
  ok : A → Result A
  err : Error → Result A

infixl 5 ◌>>=◌ ◌>>◌
-- The rest of a function, run on the value unless there is an error to return first.
abbrev pub ◌>>=◌ {ℓ κ} : {S : Type ℓ} {T : Type κ} → Result S → (S → Result T) → Result T
err failure >>= rest = err failure
ok value >>= rest = rest value

-- The same for a check, which has no value.
abbrev pub ◌>>◌ {ℓ} : {T : Type ℓ} → Result (Unit {0}) → Result T → Result T
err failure >> rest = err failure
ok tt >> rest = rest

-- `if b { return e }`.
abbrev pub refuse : Bool → Error → Result (Unit {0})
refuse true e = err e
refuse false e = ok tt

-- `if !b { return e }`.
abbrev pub require : Bool → Error → Result (Unit {0})
require true e = ok tt
require false e = err e

pub Result-cases {ℓ} :
    {T : Type ℓ} (m : Result T)
    → ((value : T) × (m ≡ ok value)) ⊎ ((failure : Error) × (m ≡ err failure))
Result-cases (ok value) = inl (value, refl)
Result-cases (err failure) = inr (failure, refl)

-- A value that a chain returns comes from a value of its first part.
pub bind_ok {ℓ κ} :
    {S : Type ℓ} {T : Type κ} (m : Result S) (rest : S → Result T) {t : T}
    → (m >>= rest) ≡ ok t
    → (s : S) × (m ≡ ok s) × (rest s ≡ ok t)
bind_ok (ok s) rest h = (s, refl, h)
bind_ok (err e) rest h = absurd (ground arith)
