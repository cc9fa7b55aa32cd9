-- ===== src/Heartbeat/Streaks.antt =====
-- The scheduler cannot spin: neither on successes that leave no reserve, nor on failures.
use cycles_client_python.Prelude.{
  ◌≡◌, refl, ℕ, ◌≤◌, ◌<◌, inl, inr, Bool, Option, some, List, [], ◌∷◌, arith, length, ◌≢◌,
  Option-cases,
}
use cycles_client_python.Heartbeat.Span.{Rtt}
use cycles_client_python.Heartbeat.Scheduler.{Scheduler, on_valid_success, on_transient_failure}

-- A transient failure: when it is handled, and what a 429 asked for.
pub record Failure : Type 0 where
  pub now : ℕ
  pub limited : Bool
  pub retry_after_ms : Option ℕ

abbrev pub after_failure : Failure → Scheduler → Option ℕ × Scheduler
after_failure f = on_transient_failure f.now f.limited f.retry_after_ms

-- The scheduler after a run of failures, each of which was allowed a retry.
pub data Retries : Scheduler → List Failure → Scheduler → Type 0 where
  none_failed : {s : Scheduler} → Retries s [] s
  retried :
      {s s₁ s' : Scheduler} {f : Failure} {fs : List Failure} {d : ℕ}
      → after_failure f s ≡ (some d, s₁)
      → Retries s₁ fs s'
      → Retries s (f ∷ fs) s'

streak-failure : (f : Failure) (s : Scheduler) → (after_failure f s).1.zero_streak ≡ s.zero_streak
unfolding on_transient_failure
streak-failure f s = ground arith

streak-Retries :
    {s s' : Scheduler} {fs : List Failure} → Retries s fs s' → s'.zero_streak ≡ s.zero_streak
streak-Retries none_failed = refl
streak-Retries (retried {s} {s₁} {s'} {f} h rest) =
    ground (arith, streak-failure f s, streak-Retries rest)

-- After a success with delay zero, whatever failures and retries follow, the next success either
-- has a positive delay or stops the heartbeat.
pub zero_delay_once :
    (s s₁ s₂ : Scheduler) (fs : List Failure) (n n' now now' : ℕ) (rtt rtt' : Rtt)
    → on_valid_success n rtt now s ≡ (some 0, s₁)
    → Retries s₁ fs s₂
    → (on_valid_success n' rtt' now' s₂).0 ≢ some 0
unfolding on_valid_success
zero_delay_once s s₁ s₂ fs n n' now now' rtt rtt' h rs e = ground (arith, streak-Retries rs)

window_falls :
    (f : Failure) (s s' : Scheduler) (d v : ℕ)
    → after_failure f s ≡ (some d, s')
    → (v' : ℕ) × (s'.prev_fail_window ≡ some v') × (s.prev_fail_window ≡ some v → v' < v)
unfolding on_transient_failure
window_falls f s s' d v h = elim (Option-cases s'.prev_fail_window) [
  | inl e ↦ absurd (ground arith)
  | inr (v', e) ↦ (v', e, λ was. ground arith)
]

-- Consecutive retries each have a smaller window than the one before, so from a failure whose
-- window was v microseconds at most v more are allowed.
pub failures_end :
    {s s' : Scheduler} {fs : List Failure} (v : ℕ)
    → Retries s fs s'
    → s.prev_fail_window ≡ some v
    → length fs ≤ v
failures_end v none_failed h = omega arith
failures_end v (retried {s} {s₁} {s'} {f} {fs} {d} step rest) h =
    let (v', e, less) = window_falls f s s₁ d v step in
    omega (arith, failures_end v' rest e, less h)
