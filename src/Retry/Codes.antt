-- ===== src/Retry/Codes.antt =====
-- The error codes of runcycles/models.py, as texts, and which of them runcycles/retry.py takes for a
-- final refusal.
use cycles_client_python.Prelude.{◌≡◌, refl, not, some}
use cycles_client_python.Models.{
  ErrorCode, value, from_string, member_of, is_retryable, invalid_request, unauthorized, forbidden,
  not_found, budget_exceeded, budget_frozen, budget_closed, reservation_expired,
  reservation_finalized, idempotency_mismatch, unit_mismatch, overdraft_limit_exceeded,
  debt_outstanding, max_extensions_exceeded, limit_exceeded, tenant_closed, internal_error, unknown,
}
use cycles_client_python.Retry.Outcome.{is_recognized_rejection}

-- For every error code, its text is read back as that code, and is taken for a recognized rejection,
-- which alone may discard a spend, exactly if the code is not retryable.
pub code_text :
    (c : ErrorCode)
    → (from_string (some (value c)) ≡ some c)
      × (is_recognized_rejection (some (value c)) ≡ not (is_retryable c))
unfolding from_string member_of value is_recognized_rejection is_retryable
code_text invalid_request = (refl, refl)
code_text unauthorized = (refl, refl)
code_text forbidden = (refl, refl)
code_text not_found = (refl, refl)
code_text budget_exceeded = (refl, refl)
code_text budget_frozen = (refl, refl)
code_text budget_closed = (refl, refl)
code_text reservation_expired = (refl, refl)
code_text reservation_finalized = (refl, refl)
code_text idempotency_mismatch = (refl, refl)
code_text unit_mismatch = (refl, refl)
code_text overdraft_limit_exceeded = (refl, refl)
code_text debt_outstanding = (refl, refl)
code_text max_extensions_exceeded = (refl, refl)
code_text limit_exceeded = (refl, refl)
code_text tenant_closed = (refl, refl)
code_text internal_error = (refl, refl)
code_text unknown = (refl, refl)
