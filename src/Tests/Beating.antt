-- ===== src/Tests/Beating.antt =====
-- The scheduler and the heartbeat at small readings of the clock.
use cycles_client_python.Prelude.{
  ◌≡◌, refl, Option, ℕ, ◌+◌, ◌≤◌, false, none, some, [], ◌∷◌, All, length,
}
use cycles_client_python.Heartbeat.Span.{fin, ms}
use cycles_client_python.Heartbeat.Scheduler.{
  Scheduler, new_scheduler, attempt_budget, safety_margin, reserve, on_valid_success,
  on_transient_failure,
}
use cycles_client_python.Heartbeat.Lease.{success_fits, failure_fits}
use cycles_client_python.Heartbeat.Streaks.{Failure, Retries, none_failed, retried, failures_end}
use cycles_client_python.Heartbeat.Heart.{Heart, Beat, start_heart}
use cycles_client_python.Heartbeat.Loop.{beat, run}
use cycles_client_python.Heartbeat.Keys.{run_same_key}
use cycles_client_python.Heartbeat.Cadence.{least, after_beats, cadence}
use cycles_client_python.Tests.Fixtures.{schemas, event_body}

-- A lease of a minute, answered at 0 after 10 milliseconds, with an attempt budget of 12 seconds.
abbrev leased : Scheduler
leased = record {
  timeout_budget = fin (ms 12000);
  rtt_max = fin (ms 10);
  lead_floor = some (ms 59990);
  lead_anchor = some 0;
  zero_streak = 0;
  prev_fail_window = none;
}

success_fits_example : 34990000 + 25000000 + 10000 ≤ ms 60000
unfolding on_valid_success reserve
success_fits_example =
    success_fits (new_scheduler (fin (ms 12000))) leased 60000 (ms 10) 0 34989999 25000000
      (unfold new_scheduler in refl) refl

-- A failure ten seconds later: the retry comes after a quarter of the lead, 12.4975 seconds.
first_failure : Failure
first_failure = record { now = ms 10000; limited = false; retry_after_ms = none }

abbrev failed_once : Scheduler
failed_once = record leased { prev_fail_window = some 36990000 }

failure_fits_example :
    (anchor floor : ℕ) × (leased.lead_anchor ≡ some anchor)
    × (leased.lead_floor ≡ some floor)
    × (10000000 + 12497500 + 12000000 + 1000000 ≤ anchor + floor)
unfolding on_transient_failure attempt_budget safety_margin
failure_fits_example =
    failure_fits leased failed_once 10000000 12497500 12000000 1000000 false none refl refl refl

-- Half a minute later the window has shrunk to 6.99 seconds.
abbrev later : Failure
later = record { now = 40000000; limited = false; retry_after_ms = none }

abbrev failed_twice : Scheduler
failed_twice = record leased { prev_fail_window = some 6990000 }

one_retry : Retries failed_once (later ∷ []) failed_twice
unfolding on_transient_failure
one_retry = retried {d = 4997500} refl none_failed

failures_end_example : length (later ∷ []) ≤ 36990000
failures_end_example = failures_end 36990000 one_retry refl

-- A lease too short for the reserve, twice in a row.
abbrev short : Scheduler
short = record {
  timeout_budget = fin (ms 12000);
  rtt_max = fin (ms 10);
  lead_floor = some (ms 9990);
  lead_anchor = some 0;
  zero_streak = 1;
  prev_fail_window = none;
}

abbrev primed : Heart
primed = record {
  expires_at_ms = none;
  prev_expiry = none;
  anchor = 0;
  grants_sum = 0;
  last_grant = none;
  pending_body = some event_body;
  last_success = 0;
  clamp_warned = false;
  sched = leased;
  authoritative = false;
  delay = 0;
}

-- The attempt raised.
abbrev lost_beat : Beat
lost_beat = record {
  checked = 100;
  sent = 200;
  received = 300;
  handled = 400;
  fresh_key = "k2";
  outcome = none;
}

run_same_key_example :
    All (λ sent. sent ≡ event_body) (run schemas 60000 (lost_beat ∷ lost_beat ∷ []) primed)
run_same_key_example =
    run_same_key schemas 60000 (lost_beat ∷ lost_beat ∷ []) primed event_body refl
      (refl, (refl, tt))

-- Both attempts send the pending body.
lost_run : run schemas 60000 (lost_beat ∷ lost_beat ∷ []) primed ≡ event_body ∷ event_body ∷ []
unfolding run beat
lost_run = refl

-- A heartbeat without a stated lease, as it starts.
abbrev unleased : Heart
unleased = record {
  expires_at_ms = none;
  prev_expiry = none;
  anchor = 0;
  grants_sum = 0;
  last_grant = none;
  pending_body = none;
  last_success = 0;
  clamp_warned = false;
  sched = new_scheduler (fin (ms 12000));
  authoritative = false;
  delay = 0;
}

abbrev unstated : Option ℕ
unstated = none

abbrev after_loss : Heart
after_loss = (beat schemas 60000 lost_beat unleased).heart

cadence_example :
    (unstated ≡ none → unleased.delay ≡ 0)
    × (after_loss.authoritative ≡ false → least schemas 60000 ≤ after_loss.delay)
unfolding start_heart beat after_beats new_scheduler
cadence_example =
    cadence schemas 60000 none none (fin (ms 12000)) unstated none 0 lost_beat [] unleased
      after_loss refl refl
