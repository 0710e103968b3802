-- ===== src/Bus/Fault.antt =====
-- v2/bus/fault.go: typed refusals, and what a call that may be refused returns.
use bytedesk_sdk_dependencie.Prelude.{◌≡◌, refl, ◌⊎◌, inl, inr, ◌++◌, Text, bytes}

-- The twelve fault codes.
pub data FaultCode : Type 0 where
  denied budget withdrawn schema unhandled timeout unavailable : FaultCode
  no_responders unsupported conflict not_found slow_consumer : FaultCode

unfoldable pub code_text : FaultCode → Text
code_text denied = bytes "denied"
code_text budget = bytes "budget"
code_text withdrawn = bytes "withdrawn"
code_text schema = bytes "schema"
code_text unhandled = bytes "unhandled"
code_text timeout = bytes "timeout"
code_text unavailable = bytes "unavailable"
code_text no_responders = bytes "no-responders"
code_text unsupported = bytes "unsupported"
code_text conflict = bytes "conflict"
code_text not_found = bytes "not-found"
code_text slow_consumer = bytes "slow-consumer"

-- bus.Fault without the wrapped Err.
pub record Fault : Type 0 where
  pub code : FaultCode
  pub op : Text
  pub message : Text

-- A value or a refusal: Go's pair of a value and an error.
pub data Result {ℓ} (A : Type ℓ) : Type ℓ where
  ok : A → Result A
  err : Fault → Result A

-- "principal " + principal + ": " + why
unfoldable pub attributed : Text → Text → Text
attributed principal why = bytes "principal " ++ (principal ++ (bytes ": " ++ why))

-- Denied, with a reason that is not empty.
unfoldable pub denied_fault : Text → Text → Text → Fault
denied_fault op principal why = record {
  code = denied;
  op = op;
  message = attributed principal why;
}

-- Unsupported
unfoldable pub unsupported_fault : Text → Text → Fault
unsupported_fault op capability = record {
  code = unsupported;
  op = op;
  message = bytes "substrate does not support " ++ capability;
}

pub Result-cases {ℓ} :
    {A : Type ℓ} (r : Result A) → ((a : A) × (r ≡ ok a)) ⊎ ((f : Fault) × (r ≡ err f))
Result-cases (ok a) = inl (a, refl)
Result-cases (err f) = inr (f, refl)
