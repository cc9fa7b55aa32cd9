-- ===== src/Heartbeat/Lease.antt =====
-- The scheduler never plans beyond the lease that the server last promised.
use cycles_client_python.Prelude.{◌≡◌, ℕ, suc, ◌+◌, ◌≤◌, Bool, Option, some, arith}
use cycles_client_python.Heartbeat.Span.{fin, reliable, ms}
use cycles_client_python.Heartbeat.Scheduler.{
  Scheduler, attempt_budget, safety_margin, reserve, on_valid_success, on_transient_failure,
}

-- A positive delay after a schema-valid success leaves, of the remaining lease less the round
-- trip, at least the retry reserve (two attempt budgets and the safety margin, as they are after
-- this response).
pub success_fits :
    (s s' : Scheduler) (remaining_ms rtt now d r : ℕ)
    → on_valid_success remaining_ms (reliable rtt) now s ≡ (some (suc d), s')
    → reserve s' ≡ fin r
    → suc d + r + rtt ≤ ms remaining_ms
unfolding on_valid_success
success_fits s s' remaining_ms rtt now d r h e = ground arith

-- A retry after a transient failure starts early enough for its whole attempt budget and the
-- safety margin to pass before the lease's lower bound ends, whether it was rate limited or not.
pub failure_fits :
    (s s' : Scheduler) (now d b m : ℕ) (limited : Bool) (retry_after_ms : Option ℕ)
    → on_transient_failure now limited retry_after_ms s ≡ (some d, s')
    → attempt_budget s ≡ fin b
    → safety_margin s ≡ fin m
    → (anchor floor : ℕ) × (s.lead_anchor ≡ some anchor)
      × (s.lead_floor ≡ some floor)
      × (now + d + b + m ≤ anchor + floor)
unfolding on_transient_failure
failure_fits s s' now d b m limited retry_after_ms h eb em = ground arith
