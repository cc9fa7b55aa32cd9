-- ===== src/Lifecycle/Context.antt =====
-- runcycles/lifecycle.py: what a guarded call sees, keeps and sends, with the context of
-- runcycles/context.py.
use cycles_client_python.Prelude.{
  ℕ, ◌/◌, ℤ, pos, String, Bool, true, false, Option, none, some, List, Result, ok, err, ◌>>=◌,
  if◌then◌else◌, is_some,
}
use cycles_client_python.Json.{Json, int, Fields, get}
use cycles_client_python.Models.{
  Amount, Balance, Caps, CyclesMetrics, no_metrics, Decision, DryRunResult,
  ReservationCreateResponse,
}
use cycles_client_python.Response.{CyclesResponse, Raised, value_error}
use cycles_client_python.Retry.Engine.{World}
use cycles_client_python.Validation.{validate_non_negative}
use cycles_client_python.Lifecycle.Bodies.{
  build_commit_body, build_event_fallback_body, mark_estimate, json_or_null,
}
use cycles_client_python.Lifecycle.Create.{CreateError}
use cycles_client_python.Lifecycle.Reserve.{
  DecoratorConfig, ActualExpr, no_actual, constant, callable,
}

-- `CyclesContext`, without its `metrics` and `commit_metadata`, which the guarded action sets.
pub record CyclesContext : Type 0 where
  pub reservation_id : String
  pub estimate : ℕ
  pub decision : Decision
  pub caps : Option Caps
  pub expires_at_ms : Option ℕ
  pub affected_scopes : List String
  pub scope_path : Option String
  pub reserved : Option Amount
  pub balances : Option (List Balance)

-- What a call sees and changes: the world, the context variable, and whether its heartbeat runs.
pub record Env (J : Type 0) : Type 0 where
  pub world : World J
  pub context : Option CyclesContext
  pub beating : Bool

-- What a guarded action that returns leaves: its result, the time it took, and what it wrote into its
-- context.
pub record Finished (R : Type 0) : Type 0 where
  pub result : R
  pub elapsed : ℕ
  pub metrics : Option CyclesMetrics
  pub commit_metadata : Option Fields

-- A guarded action is user code: any function of its context and of the environment, in which the
-- requests of its heartbeat and its own calls are recorded. `none` is an exception.
abbrev pub GuardedAction : Type 0 → Type 0 → Type 0
GuardedAction J R = CyclesContext → Env J → Option (Finished R) × Env J

-- What `execute` raises: a `ValueError` before any request, the error of the create, what
-- `_build_protocol_exception` makes of a prefix and the response, a missing id, or the exception of
-- the guarded action.
pub data ExecuteError : Type 0 where
  invalid : Raised → ExecuteError
  create_failed : CreateError → ExecuteError
  denied : String → CyclesResponse → ExecuteError
  missing_id : ℤ → ExecuteError
  action_failed : ExecuteError

pub data Outcome (R : Type 0) : Type 0 where
  returned : R → Outcome R
  evaluated : DryRunResult → Outcome R
  raised : ExecuteError → Outcome R

-- The keys that `uuid4` makes, and the wall clock when the spend is journaled.
pub record Draws : Type 0 where
  pub create_key : String
  pub commit_key : String
  pub release_key : String
  pub wall : ℕ

-- The two checks that come first.
unfoldable pub check_actual : {R : Type 0} → DecoratorConfig R → Result Raised (Unit {0})
check_actual cfg = if cfg.dry_run then ok tt else elim cfg.actual [
  | no_actual ↦ if cfg.use_estimate_if_actual_not_provided then ok tt else err value_error
  | constant v ↦ validate_non_negative v >>= λ n. ok tt
  | callable f ↦ ok tt
]

-- `_evaluate_actual`; `none` is an exception.
unfoldable pub evaluate_actual : {R : Type 0} → ActualExpr R → R → ℕ → Bool → Option Json
evaluate_actual no_actual result estimate use_estimate =
    if use_estimate then some (int (pos estimate)) else none
evaluate_actual (constant v) result estimate use_estimate = some v
evaluate_actual (callable f) result estimate use_estimate = f result

is_absent : {R : Type 0} → ActualExpr R → Bool
is_absent no_actual = true
is_absent _ = false

-- The amount to commit, and whether it is the estimate that stands for an unknown actual.
unfoldable pub resolve_actual : {R : Type 0} → DecoratorConfig R → R → ℕ → ℕ × Bool
unfolding evaluate_actual is_absent
resolve_actual cfg result estimate =
    elim (evaluate_actual cfg.actual result estimate cfg.use_estimate_if_actual_not_provided) [
      | none ↦ (estimate, true)
      | some v ↦ elim (validate_non_negative v) [
        | ok n ↦ (n, is_absent cfg.actual)
        | err e ↦ (estimate, true)
      ]
    ]

-- `metrics.latency_ms = method_elapsed` unless the action set it
unfoldable pub metrics_of : Option CyclesMetrics → ℕ → CyclesMetrics
metrics_of none elapsed = record no_metrics { latency_ms = some (elapsed / 1000) }
metrics_of (some m) elapsed =
    if is_some m.latency_ms then m else record m { latency_ms = some (elapsed / 1000) }

-- The bodies of the commit and of its event
unfoldable pub commit_of : {R : Type 0} → DecoratorConfig R → ℕ → Finished R → String → Fields
unfolding resolve_actual metrics_of mark_estimate build_commit_body
commit_of cfg estimate fin key =
    let (actual, assumed) = resolve_actual cfg fin.result estimate in
    let metadata = if assumed then mark_estimate fin.commit_metadata else fin.commit_metadata in
    build_commit_body (pos actual) cfg.unit (some (metrics_of fin.metrics fin.elapsed)) metadata
      none key

unfoldable pub event_of : String → Fields → Fields → Fields
unfolding build_event_fallback_body json_or_null
event_of id create_body commit_body =
    build_event_fallback_body id (json_or_null (get "subject" create_body))
      (json_or_null (get "action" create_body)) commit_body

unfoldable pub context_of : String → ℕ → ReservationCreateResponse → CyclesContext
context_of id estimate r = record {
  reservation_id = id;
  estimate = estimate;
  decision = r.decision;
  caps = r.caps;
  expires_at_ms = r.expires_at_ms;
  affected_scopes = r.affected_scopes;
  scope_path = r.scope_path;
  reserved = r.reserved;
  balances = r.balances;
}

unfoldable pub dry_run_of : ReservationCreateResponse → DryRunResult
dry_run_of r = record {
  decision = r.decision;
  caps = r.caps;
  affected_scopes = some r.affected_scopes;
  scope_path = r.scope_path;
  reserved = r.reserved;
  balances = r.balances;
  reason_code = r.reason_code;
  retry_after_ms = r.retry_after_ms;
}
