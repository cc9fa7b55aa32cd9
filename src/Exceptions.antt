-- ===== src/Exceptions.antt =====
-- runcycles/exceptions.py: `CyclesProtocolError`, its subclasses and its predicates.
pub mod Refusal
pub mod Coded
pub mod Classes
use cycles_client_python.Prelude.{
  ℕ, ℤ, pos, negsuc, String, Bool, true, false, ◌||◌, Option, none, some, str_eq, leb,
}
use cycles_client_python.Json.{Json, str, Fields}

pub data ExceptionClass : Type 0 where
  protocol_error budget_exceeded_error overdraft_limit_exceeded_error : ExceptionClass
  debt_outstanding_error tenant_closed_error reservation_expired_error : ExceptionClass
  reservation_finalized_error : ExceptionClass

-- The codes are what the body gave, which need not be texts.
pub record CyclesProtocolError : Type 0 where
  pub exc_class : ExceptionClass
  pub message : String
  pub status : ℤ
  pub error_code : Option Json
  pub reason_code : Option Json
  pub retry_after_ms : Option ℤ
  pub request_id : Option String
  pub details : Option Fields

-- `error_code == text`
abbrev pub code_is : Option Json → String → Bool
code_is (some (str c)) text = str_eq c text
code_is _ text = false

unfoldable pub is_budget_exceeded : CyclesProtocolError → Bool
is_budget_exceeded e = code_is e.error_code "BUDGET_EXCEEDED"

unfoldable pub is_overdraft_limit_exceeded : CyclesProtocolError → Bool
is_overdraft_limit_exceeded e = code_is e.error_code "OVERDRAFT_LIMIT_EXCEEDED"

unfoldable pub is_debt_outstanding : CyclesProtocolError → Bool
is_debt_outstanding e = code_is e.error_code "DEBT_OUTSTANDING"

unfoldable pub is_tenant_closed : CyclesProtocolError → Bool
is_tenant_closed e = code_is e.error_code "TENANT_CLOSED"

unfoldable pub is_reservation_expired : CyclesProtocolError → Bool
is_reservation_expired e = code_is e.error_code "RESERVATION_EXPIRED"

unfoldable pub is_reservation_finalized : CyclesProtocolError → Bool
is_reservation_finalized e = code_is e.error_code "RESERVATION_FINALIZED"

unfoldable pub is_idempotency_mismatch : CyclesProtocolError → Bool
is_idempotency_mismatch e = code_is e.error_code "IDEMPOTENCY_MISMATCH"

unfoldable pub is_unit_mismatch : CyclesProtocolError → Bool
is_unit_mismatch e = code_is e.error_code "UNIT_MISMATCH"

-- z >= 500
unfoldable pub at_least_500 : ℤ → Bool
at_least_500 (pos n) = leb 500 n
at_least_500 (negsuc n) = false

unfoldable pub is_retryable : CyclesProtocolError → Bool
unfolding at_least_500
is_retryable e =
    (code_is e.error_code "INTERNAL_ERROR"
      || code_is e.error_code "UNKNOWN"
      || code_is e.error_code "LIMIT_EXCEEDED")
    || at_least_500 e.status
