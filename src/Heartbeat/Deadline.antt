-- ===== src/Heartbeat/Deadline.antt =====
-- runcycles/lifecycle.py: `_run_sync_attempt` and `_run_async_attempt`, the deadline around one attempt
-- of a create or an extension. Times are in microseconds.
use cycles_client_python.Prelude.{
  ◌≡◌, refl, ℕ, ◌≤◌, ◌⊎◌, inl, inr, Option, none, some, leb, arith, Option-cases, Bool-cases,
  if◌then◌else◌,
}
use cycles_client_python.Response.{CyclesResponse}
use cycles_client_python.Heartbeat.Span.{Span, fin, inf}

-- A call of the client on its own: after how long it ends, if it ends, and its response; no response
-- is an exception.
pub record Call : Type 0 where
  pub duration : Option ℕ
  pub result : Option CyclesResponse

-- What an attempt comes to: the call's own end, a `TimeoutError`, or nothing.
pub data AttemptEnd : Type 0 where
  ended : Option CyclesResponse → AttemptEnd
  timed_out : AttemptEnd
  hangs : AttemptEnd

within_budget : ℕ → Call → AttemptEnd × ℕ
within_budget budget c = elim c.duration [
  | none ↦ (timed_out, budget)
  | some t ↦ if leb t budget then (ended c.result, t) else (timed_out, budget)
]

-- What the attempt comes to, and the time it takes, which means nothing if it hangs. The worker thread
-- of a call that timed out runs on, and the coroutine is cancelled.
unfoldable pub run_sync_attempt : Span → Call → AttemptEnd × ℕ
unfolding within_budget
run_sync_attempt inf c = elim c.duration [ none ↦ (hangs, 0) | some t ↦ (ended c.result, t) ]
run_sync_attempt (fin budget) c = within_budget budget c

unfoldable pub run_async_attempt : Span → Call → AttemptEnd × ℕ
unfolding within_budget
run_async_attempt inf c = elim c.duration [ none ↦ (hangs, 0) | some t ↦ (ended c.result, t) ]
run_async_attempt (fin budget) c = within_budget budget c

-- With a finite deadline, an attempt ends within it, whatever the call does; a call that ends within
-- it ends the attempt with its own response or exception, and any other with an exception.
attempt-within :
    (budget : ℕ) (c : Call)
    → let (end, time) = run_sync_attempt (fin budget) c in
      (time ≤ budget)
      × ((end ≡ timed_out)
          ⊎ ((t : ℕ) × (c.duration ≡ some t) × (t ≤ budget) × (end ≡ ended c.result)))
unfolding run_sync_attempt within_budget
attempt-within budget c = elim (Option-cases c.duration) [
  | inl e ↦ rw (e, run_sync_attempt, within_budget) (ground arith, inl refl)
  | inr (t, e) ↦ elim (Bool-cases (leb t budget)) [
    | inl early ↦
        rw (e, early, run_sync_attempt, within_budget)
          (ground (arith, early), inr (t, refl, ground (arith, early), refl))
    | inr late ↦ rw (e, late, run_sync_attempt, within_budget) (ground arith, inl refl)
  ]
]
