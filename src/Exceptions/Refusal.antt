-- ===== src/Exceptions/Refusal.antt =====
-- runcycles/lifecycle.py: `_build_protocol_exception`, and what the exception says of the answer.
use Prim.Native.String.{◌++◌}
use cycles_client_python.Prelude.{
  ℤ, pos, String, Option, none, some, str_eq, if◌then◌else◌, Result, ok, err, ◌>>=◌,
}
use cycles_client_python.Json.{Json, bool, int, float, str, Fields, is_truthy, non_null}
use cycles_client_python.Models.{ErrorResponse, ErrorCode, error_code, value}
use cycles_client_python.Response.{
  Raised, type_error, CyclesResponse, Schemas, get_error_response, get_body_attribute,
  retry_after_ms_header,
}
use cycles_client_python.Exceptions.{
  ExceptionClass, protocol_error, budget_exceeded_error, overdraft_limit_exceeded_error,
  debt_outstanding_error, tenant_closed_error, reservation_expired_error,
  reservation_finalized_error, CyclesProtocolError, code_is,
}

-- What is read of the answer before the body's own attributes
pub record Reading : Type 0 where
  pub code : Option Json
  pub message : String
  pub request_id : Option String
  pub details : Option Fields

if_truthy : Option Json → Option Json
if_truthy none = none
if_truthy (some v) = if is_truthy v then some v else none

prefixed : String → Option String → String
prefixed prefix none = prefix
prefixed prefix (some m) = if str_eq m "" then prefix else prefix ++ (": " ++ m)

code_value : Option ErrorCode → Option Json
code_value none = none
code_value (some c) = some (str (value c))

unfoldable pub reading_of : String → ErrorResponse → Reading
unfolding prefixed code_value
reading_of prefix e = record {
  code = code_value (error_code e);
  message = prefixed prefix (some e.message);
  request_id = some e.request_id;
  details = e.details;
}

-- The class by the error code
unfoldable pub class_of : Option Json → ExceptionClass
class_of code =
    if code_is code "BUDGET_EXCEEDED"
    then budget_exceeded_error
    else if code_is code "OVERDRAFT_LIMIT_EXCEEDED"
    then overdraft_limit_exceeded_error
    else if code_is code "DEBT_OUTSTANDING"
    then debt_outstanding_error
    else if code_is code "RESERVATION_EXPIRED"
    then reservation_expired_error
    else if code_is code "RESERVATION_FINALIZED"
    then reservation_finalized_error
    else if code_is code "TENANT_CLOSED"
    then tenant_closed_error
    else protocol_error

module _ (s : Schemas) (int_of_text int_of_float : String → Result Raised ℤ) where
  -- `int(v)`; the two parameters are Python's `int` of a text and of a float's literal.
  unfoldable pub to_int : Json → Result Raised ℤ
  to_int (int z) = ok z
  to_int (bool b) = ok (pos (if b then 1 else 0))
  to_int (float x) = int_of_float x
  to_int (str t) = int_of_text t
  to_int _ = err type_error

  unfoldable pub read_error : String → CyclesResponse → Result Raised Reading
  unfolding if_truthy prefixed reading_of is_truthy
  read_error prefix r = elim (get_error_response s r) [
    | some e ↦ ok (reading_of prefix e)
    | none ↦ (do
      raw ← get_body_attribute r "error"
      ok (record {
        code = if_truthy raw;
        message = prefixed prefix r.error_message;
        request_id = none;
        details = none;
      }))
  ]

  -- The body's retry_after_ms, or else the Retry-After header
  unfoldable pub read_retry_after : CyclesResponse → Option Json → Result Raised (Option ℤ)
  unfolding to_int
  read_retry_after r (some raw) = to_int raw >>= λ z. ok (some z)
  read_retry_after r none =
      ok (elim (retry_after_ms_header r) [ none ↦ none | some ms ↦ some (pos ms) ])

  reason_or : Option Json → Option Json → Option Json
  reason_or (some v) code = some v
  reason_or none code = code

  -- `_build_protocol_exception`
  unfoldable pub build_protocol_exception :
      String → CyclesResponse → Result Raised CyclesProtocolError
  unfolding read_error read_retry_after class_of non_null reason_or
  build_protocol_exception prefix r = do
    reading ← read_error prefix r
    reason ← get_body_attribute r "reason_code"
    raw ← get_body_attribute r "retry_after_ms"
    after ← read_retry_after r (non_null raw)
    ok (record {
      exc_class = class_of reading.code;
      message = reading.message;
      status = r.status;
      error_code = reading.code;
      reason_code = reason_or (non_null reason) reading.code;
      retry_after_ms = after;
      request_id = reading.request_id;
      details = reading.details;
    })
