-- ===== src/Exceptions/Coded.antt =====
-- An error answer of the protocol becomes the exception that says so.
use cycles_client_python.Prelude.{
  ◌≡◌, refl, ap, ℤ, pos, String, ◌||◌, Option, none, some, Result, ok,
}
use cycles_client_python.Json.{Json, int, str, obj, Fields, get, non_null}
use cycles_client_python.Models.{
  ErrorResponse, ErrorCode, error_code, value, invalid_request, unauthorized, forbidden, not_found,
  budget_exceeded, budget_frozen, budget_closed, reservation_expired, reservation_finalized,
  idempotency_mismatch, unit_mismatch, overdraft_limit_exceeded, debt_outstanding,
  max_extensions_exceeded, limit_exceeded, tenant_closed, internal_error, unknown,
}
use cycles_client_python.Models.{is_retryable as code_is_retryable}
use cycles_client_python.Response.{
  Raised, CyclesResponse, Schemas, get_error_response, get_body_attribute, attribute_of,
  retry_after_ms_header,
}
use cycles_client_python.Exceptions.{CyclesProtocolError, code_is, is_retryable, at_least_500}
use cycles_client_python.Exceptions.Refusal.{
  Reading, reading_of, read_error, read_retry_after, to_int, build_protocol_exception,
}

-- The texts that the exception looks for are those of the retryable codes.
transient_code :
    (c : ErrorCode)
    → (code_is (some (str (value c))) "INTERNAL_ERROR"
        || code_is (some (str (value c))) "UNKNOWN"
        || code_is (some (str (value c))) "LIMIT_EXCEEDED")
      ≡ code_is_retryable c
unfolding value code_is_retryable
transient_code invalid_request = refl
transient_code unauthorized = refl
transient_code forbidden = refl
transient_code not_found = refl
transient_code budget_exceeded = refl
transient_code budget_frozen = refl
transient_code budget_closed = refl
transient_code reservation_expired = refl
transient_code reservation_finalized = refl
transient_code idempotency_mismatch = refl
transient_code unit_mismatch = refl
transient_code overdraft_limit_exceeded = refl
transient_code debt_outstanding = refl
transient_code max_extensions_exceeded = refl
transient_code limit_exceeded = refl
transient_code tenant_closed = refl
transient_code internal_error = refl
transient_code unknown = refl

-- A retry_after_ms of a body that is missing, null or an integer
abbrev pub delay_json : Option ℤ → Option Json
delay_json none = none
delay_json (some z) = some (int z)

-- The body's delay, or else the header's
abbrev pub delay_or_header : CyclesResponse → Option ℤ → Option ℤ
delay_or_header r (some z) = some z
delay_or_header r none = elim (retry_after_ms_header r) [ none ↦ none | some ms ↦ some (pos ms) ]

module _ (s : Schemas) (int_of_text int_of_float : String → Result Raised ℤ) where
  delay_read :
      (r : CyclesResponse) (own : Option ℤ)
      → read_retry_after s int_of_text int_of_float r (delay_json own) ≡ ok (delay_or_header r own)
  unfolding read_retry_after to_int
  delay_read r none = refl
  delay_read r (some z) = refl

  code_read :
      (prefix : String) (r : CyclesResponse) (x : ErrorResponse) (c : ErrorCode)
      → get_error_response s r ≡ some x
      → error_code x ≡ some c
      → (q : Reading) × (read_error s int_of_text int_of_float prefix r ≡ ok q)
        × (q.code ≡ some (str (value c)))
  unfolding read_error reading_of
  code_read prefix r x c parsed coded =
      (reading_of prefix x, rw (parsed, read_error) refl, rw (coded, reading_of) refl)

  attribute :
      (r : CyclesResponse) (d : Fields) (k : String)
      → r.body ≡ some (obj d)
      → get_body_attribute r k ≡ ok (get k d)
  unfolding get_body_attribute attribute_of
  attribute r d k has = ap (attribute_of k) has

  -- An answer whose body is an error response of the protocol, with an integer, null or no
  -- retry_after_ms, always becomes a protocol exception, and no other: with the answer's status, the
  -- text of the error's code, and the delay of the body or else of the Retry-After header; and the
  -- exception is retryable exactly if the code is or the status is at least 500.
  pub coded_refusal :
      (prefix : String) (r : CyclesResponse) (d : Fields) (x : ErrorResponse) (c : ErrorCode)
      (own : Option ℤ)
      → r.body ≡ some (obj d)
      → get_error_response s r ≡ some x
      → error_code x ≡ some c
      → non_null (get "retry_after_ms" d) ≡ delay_json own
      → (e : CyclesProtocolError) × (build_protocol_exception s int_of_text int_of_float prefix r
          ≡ ok e)
        × (e.status ≡ r.status)
        × (e.error_code ≡ some (str (value c)))
        × (e.retry_after_ms ≡ delay_or_header r own)
        × (is_retryable e ≡ (code_is_retryable c || at_least_500 r.status))
  unfolding build_protocol_exception is_retryable
  coded_refusal prefix r d x c own has parsed coded delayed =
      let (q, read, code) = code_read prefix r x c parsed coded in
      let reason = attribute r d "reason_code" has in
      let raw = attribute r d "retry_after_ms" has in
      rw (read, reason, raw, delayed, delay_read r own)
        (
          _,
          refl,
          refl,
          code,
          refl,
          rw code (ap (λ b. b || at_least_500 r.status) (transient_code c)),
        )
