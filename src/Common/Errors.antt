-- ===== src/Common/Errors.antt =====
-- runtime/include/opal/core/error.h and outcome.h: errors as values. `detail_` is left out; the
-- source's own equality on errors ignores it.
use mathlib.Core.Path.{◌≡◌, refl, ap}
use mathlib.Core.Bool.{Bool, true, false}
use opal_cpp.Common.Text.{Bytes, codes}

pub data ErrorKind : Type 0 where
  transport_kind serialization_kind validation_kind modeled_kind unknown_kind : ErrorKind

pub record Error : Type 0 where
  pub kind : ErrorKind
  pub error_code : Bytes
  pub message : Bytes
  pub retryable : Bool

-- `Error::Serialization`, `Error::Validation` and `Error::Transport`.
unfoldable pub serialization_error : Bytes → Error
serialization_error message = record {
  kind = serialization_kind;
  error_code = codes "SerializationError";
  message = message;
  retryable = false;
}

unfoldable pub validation_error : Bytes → Error
validation_error message = record {
  kind = validation_kind;
  error_code = codes "ValidationError";
  message = message;
  retryable = false;
}

unfoldable pub transport_error : Bytes → Bool → Error
transport_error message retryable = record {
  kind = transport_kind;
  error_code = codes "TransportError";
  message = message;
  retryable = retryable;
}

-- `Error::Timeout`.
unfoldable pub timeout_error : Bytes → Error
timeout_error message = record {
  kind = transport_kind;
  error_code = codes "TimeoutError";
  message = message;
  retryable = true;
}

-- `Outcome<T>`.
pub data Outcome {ℓ} (A : Type ℓ) : Type ℓ where
  ok : A → Outcome A
  err : Error → Outcome A

infixl 5 ◌>>=◌
abbrev pub ◌>>=◌ {ℓ κ} : {A : Type ℓ} {B : Type κ} → Outcome A → (A → Outcome B) → Outcome B
ok a >>= f = f a
err e >>= f = err e

-- What follows from the successes of both parts of a chain follows from its success.
pub >>=-elim {ℓ κ ι} :
    {A : Type ℓ} {B : Type κ} {C : Type ι} (first : Outcome A) (next : A → Outcome B) {result : B}
    → (first >>= next) ≡ ok result
    → ((value : A) → first ≡ ok value → next value ≡ ok result → C)
    → C
>>=-elim (ok value) next h then_case = then_case value refl h
>>=-elim (err failure) next h then_case = cc

pub ok-injective {ℓ} : {A : Type ℓ} {a b : A} → ◌≡◌ {A = Outcome A} (ok a) (ok b) → a ≡ b
ok-injective {A} {a} {b} e = ap (λ (o : Outcome A). elim o [ err failure ↦ a | ok v ↦ v ]) e

pub err-ne-ok {ℓ} :
    {A : Type ℓ} {failure : Error} {a : A} → ¬ ◌≡◌ {A = Outcome A} (err failure) (ok a)
err-ne-ok e = cc
