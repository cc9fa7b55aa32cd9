-- ===== src/Models/Responses.antt =====
-- runcycles/models.py: the responses and the records that the client passes through, with their
-- predicates.
use cycles_client_python.Prelude.{
  ◌≡◌, refl, ℤ, String, Bool, Option, none, some, List, str_eq, if◌then◌else◌, is_some,
}
use cycles_client_python.Json.{Fields}
use cycles_client_python.Models.{
  Amount, Subject, Action, Caps, Balance, CyclesEvidenceRef, Decision, ReservationStatus, active,
  committed, released, expired, DryRunResult,
}

-- The enumerations of one member
pub data CommitStatus : Type 0 where
  is_committed_status : CommitStatus

pub data ReleaseStatus : Type 0 where
  is_released_status : ReleaseStatus

pub data ExtendStatus : Type 0 where
  is_active_status : ExtendStatus

pub data EventStatus : Type 0 where
  is_applied_status : EventStatus

pub record CommitResponse : Type 0 where
  pub status : CommitStatus
  pub charged : Amount
  pub released : Option Amount
  pub balances : Option (List Balance)
  pub cycles_evidence : Option CyclesEvidenceRef

pub record ReleaseResponse : Type 0 where
  pub status : ReleaseStatus
  pub released : Amount
  pub balances : Option (List Balance)

pub record DecisionResponse : Type 0 where
  pub decision : Decision
  pub caps : Option Caps
  pub reason_code : Option String
  pub retry_after_ms : Option ℤ
  pub affected_scopes : Option (List String)

pub record EventCreateResponse : Type 0 where
  pub status : EventStatus
  pub event_id : String
  pub charged : Option Amount
  pub balances : Option (List Balance)

-- `DryRunResult.has_caps`
unfoldable pub has_caps : DryRunResult → Bool
has_caps r = is_some r.caps

pub record ReservationDetail : Type 0 where
  pub reservation_id : String
  pub status : ReservationStatus
  pub subject : Subject
  pub action : Action
  pub reserved : Amount
  pub created_at_ms : ℤ
  pub expires_at_ms : ℤ
  pub scope_path : String
  pub affected_scopes : List String
  pub idempotency_key : Option String
  pub committed : Option Amount
  pub finalized_at_ms : Option ℤ
  pub metadata : Option Fields

pub record ReservationSummary : Type 0 where
  pub reservation_id : String
  pub status : ReservationStatus
  pub subject : Subject
  pub action : Action
  pub reserved : Amount
  pub created_at_ms : ℤ
  pub expires_at_ms : ℤ
  pub scope_path : String
  pub affected_scopes : List String
  pub idempotency_key : Option String

pub record ReservationListResponse : Type 0 where
  pub reservations : List ReservationSummary
  pub has_more : Option Bool
  pub next_cursor : Option String

pub record BalanceResponse : Type 0 where
  pub balances : List Balance
  pub has_more : Option Bool
  pub next_cursor : Option String

-- The value of a status
unfoldable pub status_text : ReservationStatus → String
status_text active = "ACTIVE"
status_text committed = "COMMITTED"
status_text released = "RELEASED"
status_text expired = "EXPIRED"

-- `ReservationStatus(text)`; `none` is a `ValueError`.
unfoldable pub read_status : String → Option ReservationStatus
read_status t =
    if str_eq t "ACTIVE"
    then some active
    else if str_eq t "COMMITTED"
    then some committed
    else if str_eq t "RELEASED"
    then some released
    else if str_eq t "EXPIRED"
    then some expired
    else none

-- A comparison of two members
unfoldable pub same_status : ReservationStatus → ReservationStatus → Bool
unfolding status_text
same_status a b = str_eq (status_text a) (status_text b)

unfoldable pub is_active : ReservationDetail → Bool
unfolding same_status
is_active r = same_status r.status active

unfoldable pub is_committed : ReservationDetail → Bool
unfolding same_status
is_committed r = same_status r.status committed

unfoldable pub is_released : ReservationDetail → Bool
unfolding same_status
is_released r = same_status r.status released

unfoldable pub is_expired : ReservationDetail → Bool
unfolding same_status
is_expired r = same_status r.status expired

-- A status is read back from its value.
read_status-status_text : (s : ReservationStatus) → read_status (status_text s) ≡ some s
unfolding read_status status_text
read_status-status_text active = refl
read_status-status_text committed = refl
read_status-status_text released = refl
read_status-status_text expired = refl
