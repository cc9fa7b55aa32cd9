-- ===== src/Heartbeat/Scheduler.antt =====
-- runcycles/lifecycle.py: `_AuthoritativeScheduler`, and the helpers that feed it. Clock readings
-- and durations are whole microseconds. A method returns its delay (`none` tells the heartbeat to
-- stop) with the scheduler that it leaves.
use cycles_client_python.Prelude.{
  ℕ, ◌+◌, ◌-◌, ◌/◌, min, Bool, true, false, Option, none, some, ltb, leb, if◌then◌else◌,
}
use cycles_client_python.Heartbeat.Span.{
  Span, fin, inf, max_span, add_span, twice_span, Rtt, reliable, unreliable, ms,
}

pub record Scheduler : Type 0 where
  pub timeout_budget : Span
  pub rtt_max : Span
  pub lead_floor : Option ℕ
  pub lead_anchor : Option ℕ
  pub zero_streak : ℕ
  pub prev_fail_window : Option ℕ

-- `__init__`
unfoldable pub new_scheduler : Span → Scheduler
new_scheduler timeout = record {
  timeout_budget = timeout;
  rtt_max = fin 0;
  lead_floor = none;
  lead_anchor = none;
  zero_streak = 0;
  prev_fail_window = none;
}

unfoldable pub attempt_budget : Scheduler → Span
unfolding max_span twice_span
attempt_budget s = max_span s.timeout_budget (max_span (fin (ms 1000)) (twice_span s.rtt_max))

unfoldable pub safety_margin : Scheduler → Span
unfolding max_span twice_span
safety_margin s = max_span (fin (ms 1000)) (twice_span s.rtt_max)

unfoldable pub observe_rtt : Rtt → Scheduler → Scheduler
unfolding max_span
observe_rtt (reliable rtt) s = record s { rtt_max = max_span s.rtt_max (fin rtt) }
observe_rtt unreliable s = s

-- Unreliable timing counts as an unbounded round trip and no lead at all.
unfoldable pub lead_of : ℕ → Rtt → Scheduler → ℕ × Scheduler
unfolding observe_rtt
lead_of remaining_ms (reliable rtt) s = (ms remaining_ms - rtt, observe_rtt (reliable rtt) s)
lead_of remaining_ms unreliable s = (0, record s { rtt_max = inf })

-- `retry_reserve`
unfoldable pub reserve : Scheduler → Span
unfolding attempt_budget safety_margin add_span twice_span
reserve s = add_span (twice_span (attempt_budget s)) (safety_margin s)

-- `lead_floor - reserve`, where it is positive
unfoldable pub surplus : ℕ → Span → Option ℕ
surplus lead inf = none
surplus lead (fin r) = if ltb r lead then some (lead - r) else none

unfoldable pub granted : Option ℕ → Scheduler → Option ℕ × Scheduler
granted (some delay) s = (some delay, record s { zero_streak = 0 })
granted none s =
    let s' = record s { zero_streak = s.zero_streak + 1 } in
    (if leb 2 (s.zero_streak + 1) then none else some 0, s')

unfoldable pub on_valid_success : ℕ → Rtt → ℕ → Scheduler → Option ℕ × Scheduler
unfolding lead_of reserve surplus granted
on_valid_success remaining_ms rtt now s =
    let (lead, s₁) = lead_of remaining_ms rtt s in
    let s₂ = record s₁ {
      prev_fail_window = none;
      lead_floor = some lead;
      lead_anchor = some now;
    } in
    granted (surplus lead (reserve s₂)) s₂

lead_since : Option ℕ → Option ℕ → ℕ → ℕ
lead_since (some floor) (some anchor) now = if ltb now anchor then 0 else floor - (now - anchor)
lead_since (some floor) none now = 0
lead_since none anchor now = 0

unfoldable pub lead_estimate : Scheduler → ℕ → ℕ
unfolding lead_since
lead_estimate s now = lead_since s.lead_floor s.lead_anchor now

-- `lead_est - attempt_budget - safety_margin`, where it is not negative
unfoldable pub retry_window : ℕ → Span → Option ℕ
retry_window lead inf = none
retry_window lead (fin needed) = if ltb lead needed then none else some (lead - needed)

-- `self._prev_fail_window is not None and window >= self._prev_fail_window`
unfoldable pub stalled : Option ℕ → ℕ → Bool
stalled none window = false
stalled (some prev) window = leb prev window

-- A Retry-After is honored inside the window, or the heartbeat stops.
honored : Option ℕ → ℕ → Option ℕ
honored none window = none
honored (some retry_after_ms) window =
    if ltb window (ms retry_after_ms) then none else some (ms retry_after_ms)

unfoldable pub failure_delay : Bool → Option ℕ → ℕ → ℕ → Option ℕ
unfolding honored
failure_delay true retry_after_ms lead window = honored retry_after_ms window
failure_delay false retry_after_ms lead window = some (min (ms 30000) (min (lead / 4) window))

unfoldable pub on_window : Bool → Option ℕ → ℕ → Option ℕ → Scheduler → Option ℕ × Scheduler
unfolding stalled failure_delay
on_window limited retry_after_ms lead none s = (none, s)
on_window limited retry_after_ms lead (some window) s =
    if stalled s.prev_fail_window window then (none, s) else (
      failure_delay limited retry_after_ms lead window,
      record s { prev_fail_window = some window },
    )

unfoldable pub on_transient_failure : ℕ → Bool → Option ℕ → Scheduler → Option ℕ × Scheduler
unfolding lead_estimate retry_window on_window attempt_budget safety_margin add_span
on_transient_failure now limited retry_after_ms s =
    let lead = lead_estimate s now in
    on_window limited retry_after_ms lead
      (retry_window lead (add_span (attempt_budget s) (safety_margin s))) s

-- `_remaining_at_schedule_start`: a setup time that is negative leaves nothing.
unfoldable pub remaining_at_schedule_start : ℕ → Option ℕ → ℕ → ℕ
remaining_at_schedule_start remaining_ms none now = remaining_ms
remaining_at_schedule_start remaining_ms (some received) now =
    if ltb now received then 0 else (ms remaining_ms - (now - received)) / 1000

-- `_timeout_budget_ms`: the connect and read timeouts, and five seconds. A timeout that is not
-- finite or not positive is `none`.
unfoldable pub timeout_budget_of : Option ℕ → Option ℕ → Span
timeout_budget_of (some connect) (some read) = fin (connect + read + ms 5000)
timeout_budget_of none read = inf
timeout_budget_of (some connect) none = inf
