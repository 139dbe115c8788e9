-- ===== src/Prelude/Outcome.antt =====
-- Python's exceptions as values: what a call of the transport, of the codecs or of the file layer
-- returns, or the class of what it raises.
use mathlib.Core.Bool.{Bool, true, false}
use mathlib.Core.Path.{◌≡◌, refl}
use mathlib.Core.Logic.{◌⊎◌, inl, inr}

-- The reasons of the transport's `RuntimeError`s, one for each message.
pub data Reason : Type 0 where
  cancelled cancelled_before_start retry_limit start_retry_limit : Reason
  no_packet socket_error aborted invalid_start mode_mismatch type_mismatch : Reason

-- The messages of `ModeCodecError`.
pub data Malformed : Type 0 where
  unknown_mode unknown_type block_size : Malformed
  truncated_header truncated_payload data_after_eof : Malformed
  truncated_escape control_byte duplicate_eof truncated_literal : Malformed
  zero_filler zero_run truncated_run missing_eof : Malformed

pub data Error : Type 0 where
  value_error struct_error os_error : Error
  runtime_error : Reason → Error
  mode_codec_error : Malformed → Error
  -- No exception: the fuel of a loop ran out, which the theorems exclude.
  out_of_fuel : Error

-- What a call returns, or the exception that it raises.
pub data Result {ℓ} (A : Type ℓ) : Type ℓ where
  -- It returned.
  ok : (value : A) → Result A
  err : (e : Error) → Result A

infixl 5 ◌>>=◌
infixl 5 ◌>>◌
-- `if not test: raise e`
abbrev pub guard : (test : Bool) (e : Error) → Result (Unit {0})
guard false e = err e
guard true e = ok tt

-- The code goes on with what the call returned.
abbrev pub ◌>>=◌ {ℓ₁ ℓ₂} :
    {A : Type ℓ₁} {B : Type ℓ₂} (call : Result A) (after : A → Result B) → Result B
err e >>= after = err e
ok value >>= after = after value

abbrev pub ◌>>◌ {ℓ₁} : {B : Type ℓ₁} (test : Result (Unit {0})) (after : Result B) → Result B
test >> after = test >>= λ unused. after

-- Inversion of a bind that returned.
pub >>=-eq-ok {ℓ₁ ℓ₂} :
    {A : Type ℓ₁} {B : Type ℓ₂} (call : Result A) (after : A → Result B) {result : B}
    → (call >>= after) ≡ ok result
    → (value : A) × (call ≡ ok value) × (after value ≡ ok result)
>>=-eq-ok (err e) after returned = cc
>>=-eq-ok (ok value) after returned = (value, refl, returned)

-- Inversion of a guard that let the code go on.
pub guard-ok : (test : Bool) (e : Error) → guard test e ≡ ok tt → test ≡ true
guard-ok false e returned = cc
guard-ok true e returned = refl

pub Result-cases {ℓ₁} :
    {A : Type ℓ₁} (call : Result A)
    → ((value : A) × (call ≡ ok value)) ⊎ ((e : Error) × (call ≡ err e))
Result-cases (err e) = inr (e, refl)
Result-cases (ok value) = inl (value, refl)
