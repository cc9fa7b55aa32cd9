-- ===== src/Heartbeat/Async.antt =====
-- runcycles/lifecycle.py: the heartbeat task of `AsyncCyclesLifecycle._start_heartbeat`, next to the
-- thread of `CyclesLifecycle._start_heartbeat`. The task has no stop event: the call cancels it, which
-- meets it in its sleep or in the request that it awaits.
pub mod Cancelled
pub mod Sends
use cycles_client_python.Prelude.{
  ℕ, ◌==◌, String, Bool, true, false, ◌&&◌, not, Option, none, some, List, [], ◌∷◌, map, ok, err,
  if◌then◌else◌,
}
use cycles_client_python.Json.{Fields}
use cycles_client_python.Exchange.{Request, extend_reservation}
use cycles_client_python.Response.{Schemas}
use cycles_client_python.Retry.Awaiting.{Await, resumes, cancelled_unsent, cancelled_sent}
use cycles_client_python.Heartbeat.Span.{Span, Rtt}
use cycles_client_python.Heartbeat.Heart.{Heart, Beat, Done, goes, stops, start_heart, has_lead}
use cycles_client_python.Heartbeat.Loop.{on_exception, body_of, attempt, paced, run}

-- One iteration of a task: whether the cancellation meets it in its sleep, what becomes of its
-- request, and what it meets otherwise.
pub record Pulse : Type 0 where
  pub asleep : Bool
  pub request : Await
  pub beat : Beat

module _ (s : Schemas) (ttl_ms : ℕ) where
  -- An attempt that is cancelled: the `CancelledError` passes `except Exception`, and the task returns.
  -- A body that could not be built is not awaited.
  unfoldable pub cut_attempt : Bool → Beat → Heart → Done
  unfolding body_of on_exception
  cut_attempt sent b h = elim (body_of s ttl_ms b h) [
    | err e ↦
        let (n, h') = on_exception s ttl_ms b h in record { sent = none; next = n; heart = h' }
    | ok body ↦ record {
      sent = if sent then some body else none;
      next = stops;
      heart = record h { pending_body = some body };
    }
  ]

  unfoldable pub async_attempt : Await → Beat → Heart → Done
  unfolding attempt cut_attempt
  async_attempt resumes b h = attempt s ttl_ms b h
  async_attempt cancelled_unsent b h = cut_attempt false b h
  async_attempt cancelled_sent b h = cut_attempt true b h

  -- One iteration, with its sleep.
  unfoldable pub async_beat : Pulse → Heart → Done
  unfolding async_attempt paced has_lead
  async_beat p h =
      let h' = paced s ttl_ms h in
      if p.asleep
      then record { sent = none; next = stops; heart = h }
      else if not h'.authoritative && has_lead h' p.beat.checked
      then record { sent = none; next = goes; heart = h' }
      else async_attempt p.request p.beat h'

  -- The loop of the task: the bodies sent, in order.
  unfoldable pub async_run : List Pulse → Heart → List Fields
  unfolding async_beat
  async_run [] h = []
  async_run (p ∷ ps) h =
      let d = async_beat p h in
      let rest : List Fields = elim d.next [ stops ↦ [] | goes ↦ async_run ps d.heart ] in
      elim d.sent [ none ↦ rest | some body ↦ body ∷ rest ]

-- What a heartbeat is started with: the reservation, its length, the expiry of the context, and what
-- the create left.
pub record Start : Type 0 where
  pub reservation_id : String
  pub ttl_ms : ℕ
  pub expires_at_ms : Option ℕ
  pub timeout : Span
  pub initial_remaining : Option ℕ
  pub initial_rtt : Option Rtt
  pub initial_received : Option ℕ
  pub now : ℕ

-- The variables of a loop that is entered
unfoldable pub entering : Start → Option Heart
unfolding start_heart
entering c =
    if c.ttl_ms == 0
    then none
    else start_heart c.expires_at_ms c.timeout c.initial_remaining c.initial_rtt c.initial_received
        c.now

-- The requests of a heartbeat thread, over the iterations that the stop event allows
unfoldable pub heartbeat : Schemas → Start → List Beat → List Request
unfolding entering run
heartbeat s c bs = elim (entering c) [
  | none ↦ []
  | some h ↦ map (λ body. extend_reservation c.reservation_id body) (run s c.ttl_ms bs h)
]

-- The requests of a heartbeat task
unfoldable pub async_heartbeat : Schemas → Start → List Pulse → List Request
unfolding entering async_run
async_heartbeat s c ps = elim (entering c) [
  | none ↦ []
  | some h ↦ map (λ body. extend_reservation c.reservation_id body) (async_run s c.ttl_ms ps h)
]
