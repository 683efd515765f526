-- ===== src/Prelude/Result.antt =====
-- What a Python call gives back: a value, or the exception that it raises.
use Prim.Native.Nat.{ℕ}
use Prim.Native.String.{String}
use mathlib.Core.Path.{◌≡◌, refl}
use mathlib.Core.Bool.{Bool, true, false}
use mathlib.Core.Option.{Option, none, some}

-- The exceptions that the modelled code raises, by class. `http` is FastAPI's HTTPException with
-- its status code; `other` is any exception of code that is not modelled, with its text.
pub data Exception : Type 0 where
  http : ℕ → Exception
  value_error type_error attribute_error key_error : Exception
  bare_exception authentication_error invalid_credentials : Exception
  oauth2_error no_implementation_found invalid_function_input : Exception
  function_not_found app_configuration_not_found app_configuration_disabled : Exception
  linked_account_not_found linked_account_already_exists app_not_found : Exception
  other : String → Exception

pub data Result {ℓ} (A : Type ℓ) : Type ℓ where
  ok : A → Result A
  err : Exception → Result A

-- `if test: raise e`
abbrev pub raise_if : Bool → Exception → Result (Unit {0})
raise_if true e = err e
raise_if false e = ok tt

-- `if x is None: raise e`
abbrev pub or_raise {ℓ} : {A : Type ℓ} → Exception → Option A → Result A
or_raise e none = err e
or_raise e (some a) = ok a

-- What comes after a call runs only if the call returned.
infixl 5 ◌>>=◌
abbrev pub ◌>>=◌ {ℓ ℓ'} : {X : Type ℓ} {Y : Type ℓ'} → Result X → (X → Result Y) → Result Y
ok value >>= next = next value
err raised >>= next = err raised

infixl 5 ◌>>◌
abbrev pub ◌>>◌ {ℓ} : {Y : Type ℓ} → Result (Unit {0}) → Result Y → Result Y
call >> after = call >>= λ done. after

-- If a call and what comes after it return, the call returned.
pub >>=-eq-ok {ℓ ℓ'} :
    {X : Type ℓ} {Y : Type ℓ'} (call : Result X) (next : X → Result Y) {y : Y}
    → (call >>= next) ≡ ok y
    → (x : X) × (call ≡ ok x) × (next x ≡ ok y)
>>=-eq-ok (ok x) next h = (x, refl, h)
>>=-eq-ok (err raised) next h = cc

pub ok-eq {ℓ} : {X : Type ℓ} {x y : X} → ok x ≡ ok y → x ≡ y
ok-eq h = cc

pub or_raise-eq {ℓ} :
    {X : Type ℓ} (e : Exception) (o : Option X) {x : X} → or_raise e o ≡ ok x → o ≡ some x
or_raise-eq e none h = cc
or_raise-eq e (some y) h = cc

pub raise_if-ok {ℓ} :
    {A : Type ℓ} (b : Bool) (e : Exception) (next : Result A) (y : A)
    → (raise_if b e >> next) ≡ ok y
    → (b ≡ false) × (next ≡ ok y)
raise_if-ok true e next y h = cc
raise_if-ok false e next y h = (refl, h)
