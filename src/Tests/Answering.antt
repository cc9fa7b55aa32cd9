-- ===== src/Tests/Answering.antt =====
-- The client's calls and the exceptions at concrete answers.
use cycles_client_python.Prelude.{
  ◌≡◌, refl, ℕ, ℤ, pos, String, List, is_some, true, false, ◌||◌, none, some, [], ◌∷◌, Result, ok,
  err, if◌then◌else◌, str_eq,
}
use cycles_client_python.Json.{Json, str, get, non_null}
use cycles_client_python.Models.{
  ErrorResponse, error_code, from_string, member_of, value, limit_exceeded,
  is_retryable as code_is_retryable,
}
use cycles_client_python.Response.{
  Raised, value_error, CyclesResponse, retry_after_ms_header, header, attribute_of,
  get_body_attribute, get_error_response,
}
use cycles_client_python.Exchange.{Exchange}
use cycles_client_python.Retry.Engine.{PendingCommit}
use cycles_client_python.Client.{HttpCall, HttpResponse, HttpResult, answered}
use cycles_client_python.Exceptions.{
  CyclesProtocolError, budget_exceeded_error, overdraft_limit_exceeded_error,
  debt_outstanding_error, tenant_closed_error, reservation_expired_error,
  reservation_finalized_error, is_budget_exceeded, is_overdraft_limit_exceeded, is_debt_outstanding,
  is_tenant_closed, is_reservation_expired, is_reservation_finalized, is_retryable, at_least_500,
}
use cycles_client_python.Exceptions.Refusal.{build_protocol_exception}
use cycles_client_python.Exceptions.Classes.{catches, exception_class_agrees}
use cycles_client_python.Exceptions.Coded.{delay_or_header, coded_refusal}
use cycles_client_python.Client.Losses.{http_server, is_unsure, unsure_commit_kept}
use cycles_client_python.Lifecycle.Commit.{handle_commit}
use cycles_client_python.Lifecycle.Spend.{IsRetryOf}
use cycles_client_python.Tests.Fixtures.{
  schemas, event_body, memory, config, commit_body, empty_world, error_body,
}

-- A rate-limited answer
abbrev limited_answer : HttpResponse
limited_answer = record {
  status_code = 429;
  reason_phrase = "Too Many Requests";
  json = some (error_body "LIMIT_EXCEEDED");
  header = λ n. if str_eq n "retry-after" then some "7" else none;
}

abbrev shown : Json → String
shown v = "?"

-- A server that is overloaded, and whose answers are no JSON
abbrev overloaded : List Exchange → HttpCall → HttpResult
overloaded past c = answered (record {
  status_code = 503;
  reason_phrase = "Service Unavailable";
  json = none;
  header = λ n. none;
})

abbrev still : List Exchange → ℕ × ℕ × ℕ
still past = (0, 0, 0)

unsure_commit_kept_example :
    let server = http_server shown overloaded still in
    let w' = handle_commit schemas memory config server "r1" commit_body event_body 0 empty_world in
    (is_some (memory.find w'.journal "r1") ≡ true)
    × ((p : PendingCommit) × IsRetryOf schemas memory config server "r1" commit_body event_body p
        × (w'.spawned ≡ p ∷ []))
unfolding is_unsure schemas
unsure_commit_kept_example =
    unsure_commit_kept schemas memory config shown overloaded still "r1" commit_body event_body 0
      empty_world refl refl refl refl

abbrev no_int : String → Result Raised ℤ
no_int t = err value_error

-- An answer without budget
abbrev denied : CyclesResponse
denied = record {
  status = pos 409;
  body = some (error_body "BUDGET_EXCEEDED");
  error_message = some "m";
  headers = [];
  is_transport_error = false;
}

abbrev no_budget : CyclesProtocolError
no_budget = record {
  exc_class = budget_exceeded_error;
  message = "Failed: m";
  status = pos 409;
  error_code = some (str "BUDGET_EXCEEDED");
  reason_code = some (str "BUDGET_EXCEEDED");
  retry_after_ms = none;
  request_id = some "q";
  details = none;
}

built : build_protocol_exception schemas no_int no_int "Failed" denied ≡ ok no_budget
unfolding build_protocol_exception get_error_response get_body_attribute attribute_of
    retry_after_ms_header non_null header schemas error_code from_string member_of value get
built = refl

exception_class_agrees_example :
    (no_budget.status ≡ denied.status)
    × (catches budget_exceeded_error no_budget.exc_class ≡ is_budget_exceeded no_budget)
    × (catches overdraft_limit_exceeded_error no_budget.exc_class
        ≡ is_overdraft_limit_exceeded no_budget)
    × (catches debt_outstanding_error no_budget.exc_class ≡ is_debt_outstanding no_budget)
    × (catches reservation_expired_error no_budget.exc_class ≡ is_reservation_expired no_budget)
    × (catches reservation_finalized_error no_budget.exc_class ≡ is_reservation_finalized no_budget)
    × (catches tenant_closed_error no_budget.exc_class ≡ is_tenant_closed no_budget)
exception_class_agrees_example =
    exception_class_agrees schemas no_int no_int "Failed" denied no_budget built

abbrev limited_response : CyclesResponse
limited_response = record {
  status = pos 429;
  body = some (error_body "LIMIT_EXCEEDED");
  error_message = some "m";
  headers = ("retry-after", "7") ∷ [];
  is_transport_error = false;
}

abbrev limited_error : ErrorResponse
limited_error = record { error = "LIMIT_EXCEEDED"; message = "m"; request_id = "q"; details = none }

coded_refusal_example :
    (e : CyclesProtocolError) × (build_protocol_exception schemas no_int no_int "Failed"
        limited_response
      ≡ ok e)
    × (e.status ≡ pos 429)
    × (e.error_code ≡ some (str (value limit_exceeded)))
    × (e.retry_after_ms ≡ delay_or_header limited_response none)
    × (is_retryable e ≡ (code_is_retryable limit_exceeded || at_least_500 (pos 429)))
unfolding get_error_response schemas error_code from_string member_of value non_null get
coded_refusal_example =
    coded_refusal schemas no_int no_int "Failed" limited_response _ limited_error limit_exceeded
      none refl refl refl refl
