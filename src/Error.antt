-- ===== src/Error.antt =====
-- error.rs and result.rs: the error that carries an IPP status, and the results of the services.
use ippper_rs.Prelude.{String, ◌≡◌, ◌⊎◌, refl, inl, inr}
use ippper_rs.Ipp.Enums.{StatusCode}
use ippper_rs.Ipp.Attributes.{IppRequestResponse}
use ippper_rs.Ipp.External.{External}
use Prim.Native.String.{◌++◌}

pub record IppError : Type 0 where
  pub code : StatusCode
  pub msg : String

-- `anyhow::Error`: an `IppError`, which `downcast_ref` finds again, or any other error, of which the
-- program reads only its text.
pub data Error : Type 0 where
  ipp : IppError → Error
  other : String → Error

pub data Result (A : Type 0) : Type 0 where
  ok : A → Result A
  err : Error → Result A

-- To split on a computed result and keep the equation.
pub Result-cases :
    {A : Type 0} (r : Result A) → ((a : A) × (r ≡ ok a)) ⊎ ((e : Error) × (r ≡ err e))
Result-cases (ok a) = inl (a, refl)
Result-cases (err e) = inr (e, refl)

infixl 5 ◌>>=◌
abbrev pub ◌>>=◌ : {A B : Type 0} → Result A → (A → Result B) → Result B
ok a >>= f = f a
err e >>= f = err e

abbrev pub IppResult : Type 0 → Type 0
IppResult P = Result (IppRequestResponse P)

module _ {P : Type 0} (ext : External P) where
  -- The `IppError` that the source builds from a status alone, `msg: code.to_string()`.
  abbrev pub status_error : StatusCode → Error
  status_error code = ipp (record { code = code; msg = ext.status_text code })

  -- `Display`: `"{code} {msg:?}"` for an `IppError`.
  unfoldable pub error_text : Error → String
  error_text (ipp e) = ext.status_text e.code ++ (" " ++ ext.debug_text e.msg)
  error_text (other s) = s
