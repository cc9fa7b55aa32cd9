-- ===== src/Heartbeat/Heart.antt =====
-- runcycles/lifecycle.py: the variables of the heartbeat loop of `CyclesLifecycle._start_heartbeat`,
-- its head, and what it computes of them. Times are in microseconds.
use cycles_client_python.Prelude.{
  ℕ, ◌+◌, ◌*◌, ◌-◌, ◌/◌, pos, min, String, Bool, false, ◌&&◌, ◌||◌, Option, none, some, ltb, leb,
  ◌==◌, if◌then◌else◌, is_some, Result, ok, err,
}
use cycles_client_python.Json.{str, int, Fields, field, end}
use cycles_client_python.Response.{CyclesResponse, Raised, value_error}
use cycles_client_python.Heartbeat.Span.{Span, Rtt, reliable, unreliable, ms}
use cycles_client_python.Heartbeat.Scheduler.{
  Scheduler, new_scheduler, observe_rtt, on_valid_success, remaining_at_schedule_start,
}

-- `validate_extend_by_ms` and `_build_extend_body`, with the key that `uuid4` made
unfoldable pub build_extend_body : ℕ → String → Result Raised Fields
build_extend_body ttl_ms key =
    if ltb ttl_ms 1 || ltb 86400000 ttl_ms
    then err value_error
    else ok (field "idempotency_key" (str key) (field "extend_by_ms" (int (pos ttl_ms)) end))

-- The variables of the loop; `expires_at_ms` is the context's. Times are in microseconds.
pub record Heart : Type 0 where
  pub expires_at_ms : Option ℕ
  pub prev_expiry : Option ℕ
  pub anchor : ℕ
  pub grants_sum : ℕ
  pub last_grant : Option ℕ
  pub pending_body : Option Fields
  pub last_success : ℕ
  pub clamp_warned : Bool
  pub sched : Scheduler
  pub authoritative : Bool
  pub delay : ℕ

-- What one iteration meets: the readings of the clock at its places, a fresh key, and the outcome of
-- the attempt (`none` is an exception or the attempt's deadline).
pub record Beat : Type 0 where
  pub checked : ℕ
  pub sent : ℕ
  pub received : ℕ
  pub handled : ℕ
  pub fresh_key : String
  pub outcome : Option CyclesResponse

-- The loop goes on or returns; with the request that was sent, if any.
pub data Next : Type 0 where
  goes stops : Next

pub record Done : Type 0 where
  pub sent : Option Fields
  pub next : Next
  pub heart : Heart

-- The delay before the first iteration; `none` is the early return.
unfoldable pub first_delay : Option ℕ → Rtt → Option ℕ → ℕ → Scheduler → Option ℕ × Scheduler
first_delay none rtt received now s = (some 0, s)
first_delay (some remaining_ms) rtt received now s =
    on_valid_success (remaining_at_schedule_start remaining_ms received now) rtt now s

unfoldable pub held_delay : ℕ → ℕ
held_delay ttl_ms = min (ms ttl_ms / 2) (ms 30000)

-- The head of `heartbeat_loop`. A create whose round trip is unknown is observed as none, and
-- scheduled from as zero.
unfoldable pub start_heart : Option ℕ → Span → Option ℕ → Option Rtt → Option ℕ → ℕ → Option Heart
unfolding first_delay
start_heart expires_at_ms timeout initial_remaining initial_rtt initial_received now =
    let s₀ = new_scheduler timeout in
    let s₁ : Scheduler = elim initial_rtt [ none ↦ s₀ | some rtt ↦ observe_rtt rtt s₀ ] in
    let rtt : Rtt = elim initial_rtt [ none ↦ reliable 0 | some rtt ↦ rtt ] in
    let (delay, s₂) = first_delay initial_remaining rtt initial_received now s₁ in
    elim delay [
      | none ↦ none
      | some d ↦ some (record {
        expires_at_ms = expires_at_ms;
        prev_expiry = expires_at_ms;
        anchor = now;
        grants_sum = 0;
        last_grant = none;
        pending_body = none;
        last_success = now;
        clamp_warned = false;
        sched = s₂;
        authoritative = is_some initial_remaining;
        delay = d;
      })
    ]

-- A difference of two readings of the clock
unfoldable pub elapsed : ℕ → ℕ → Rtt
elapsed now since = if ltb now since then unreliable else reliable (now - since)

-- `max(float(new - prev), 0.0)`, or the lease length where nothing is known
unfoldable pub grant_of : ℕ → Option ℕ → ℕ → ℕ
grant_of ttl_ms none new_expires = ms ttl_ms
grant_of ttl_ms (some prev) new_expires = ms (new_expires - prev)

-- `lead_min >= 1.5 * last_grant` for a lead of grants_sum - (now - anchor), without a subtraction
unfoldable pub has_lead : Heart → ℕ → Bool
has_lead h now = elim h.last_grant [
  | none ↦ false
  | some g ↦ leb (3 * g + 2 * now) (2 * h.grants_sum + 2 * h.anchor)
]

-- grant <= 0, or grant < 0.9 * ttl and 0.75 * elapsed <= grant <= 1.25 * elapsed
unfoldable pub mirrors_elapsed : ℕ → ℕ → ℕ → ℕ → Bool
mirrors_elapsed ttl_ms grant now last =
    (grant == 0)
    || (ltb (10 * grant) (9 * ms ttl_ms)
        && (leb (3 * now) (4 * grant + 3 * last) && leb (4 * grant + 5 * last) (5 * now)))
