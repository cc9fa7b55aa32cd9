-- ===== src/Models/Codes.antt =====
-- runcycles/models.py: the enumerations. An `Enum` of strings is a data type with its `value`.
use cycles_client_python.Prelude.{
  String, Bool, true, false, Option, none, some, List, [], ◌∷◌, str_eq, if◌then◌else◌,
}

-- `Unit`
pub data CostUnit : Type 0 where
  usd_microcents tokens credits risk_points : CostUnit

pub data CommitOveragePolicy : Type 0 where
  reject allow_if_available allow_with_overdraft : CommitOveragePolicy

pub data Decision : Type 0 where
  allow allow_with_caps deny : Decision

pub data ReservationStatus : Type 0 where
  active committed released expired : ReservationStatus

pub data ErrorCode : Type 0 where
  invalid_request unauthorized forbidden not_found budget_exceeded budget_frozen : ErrorCode
  budget_closed reservation_expired reservation_finalized idempotency_mismatch : ErrorCode
  unit_mismatch overdraft_limit_exceeded debt_outstanding max_extensions_exceeded : ErrorCode
  limit_exceeded tenant_closed internal_error unknown : ErrorCode

unfoldable pub value : ErrorCode → String
value invalid_request = "INVALID_REQUEST"
value unauthorized = "UNAUTHORIZED"
value forbidden = "FORBIDDEN"
value not_found = "NOT_FOUND"
value budget_exceeded = "BUDGET_EXCEEDED"
value budget_frozen = "BUDGET_FROZEN"
value budget_closed = "BUDGET_CLOSED"
value reservation_expired = "RESERVATION_EXPIRED"
value reservation_finalized = "RESERVATION_FINALIZED"
value idempotency_mismatch = "IDEMPOTENCY_MISMATCH"
value unit_mismatch = "UNIT_MISMATCH"
value overdraft_limit_exceeded = "OVERDRAFT_LIMIT_EXCEEDED"
value debt_outstanding = "DEBT_OUTSTANDING"
value max_extensions_exceeded = "MAX_EXTENSIONS_EXCEEDED"
value limit_exceeded = "LIMIT_EXCEEDED"
value tenant_closed = "TENANT_CLOSED"
value internal_error = "INTERNAL_ERROR"
value unknown = "UNKNOWN"

abbrev pub error_codes : List ErrorCode
error_codes =
    invalid_request ∷ unauthorized ∷ forbidden ∷ not_found ∷ budget_exceeded ∷ budget_frozen
    ∷ budget_closed ∷ reservation_expired ∷ reservation_finalized ∷ idempotency_mismatch
    ∷ unit_mismatch ∷ overdraft_limit_exceeded ∷ debt_outstanding ∷ max_extensions_exceeded
    ∷ limit_exceeded ∷ tenant_closed ∷ internal_error ∷ unknown ∷ []

-- `ErrorCode.is_retryable`
unfoldable pub is_retryable : ErrorCode → Bool
is_retryable internal_error = true
is_retryable unknown = true
is_retryable limit_exceeded = true
is_retryable _ = false

-- `cls(value)`, with `cls.UNKNOWN` on a `ValueError`
unfoldable pub member_of : List ErrorCode → String → ErrorCode
unfolding value
member_of [] s = unknown
member_of (c ∷ cs) s = if str_eq (value c) s then c else member_of cs s

unfoldable pub from_string : Option String → Option ErrorCode
unfolding member_of
from_string none = none
from_string (some s) = some (member_of error_codes s)
