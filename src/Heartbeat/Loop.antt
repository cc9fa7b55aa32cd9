-- ===== src/Heartbeat/Loop.antt =====
-- runcycles/lifecycle.py: the heartbeat loop of `CyclesLifecycle._start_heartbeat`, one iteration at
-- a time. The heartbeat of runcycles/streaming.py has this body too.
use cycles_client_python.Prelude.{
  ℕ, ◌+◌, ◌/◌, min, max, String, Bool, true, false, ◌&&◌, ◌||◌, not, Option, none, some, List, [],
  ◌∷◌, ◌==◌, if◌then◌else◌, Result, ok, err, within,
}
use cycles_client_python.Json.{Fields}
use cycles_client_python.Response.{
  CyclesResponse, Schemas, Raised, has_status, is_success, retry_after_ms_header,
}
use cycles_client_python.Models.{contains, ReservationExtendResponse}
use cycles_client_python.Retry.Outcome.{extract_error_code}
use cycles_client_python.Lifecycle.Schema.{schema_valid_extend, extend_error_is_recoverable}
use cycles_client_python.Heartbeat.Span.{Rtt, ms}
use cycles_client_python.Heartbeat.Scheduler.{observe_rtt, on_valid_success, on_transient_failure}
use cycles_client_python.Heartbeat.Heart.{
  build_extend_body, Heart, Beat, Next, Done, held_delay, elapsed, grant_of, has_lead,
  mirrors_elapsed, goes, stops,
}

-- `_PERMANENT_EXTEND_CODES`
abbrev pub permanent_extend_codes : List String
permanent_extend_codes =
    "RESERVATION_EXPIRED" ∷ "RESERVATION_FINALIZED" ∷ "MAX_EXTENSIONS_EXCEEDED" ∷ "TENANT_CLOSED"
    ∷ "NOT_FOUND" ∷ []

module _ (s : Schemas) (ttl_ms : ℕ) where
  -- A failure that may be retried inside the lease, or stops the loop.
  unfoldable pub recover : ℕ → Bool → Option ℕ → Heart → Next × Heart
  recover now limited retry_after_ms h =
      let (d, sched) = on_transient_failure now limited retry_after_ms h.sched in
      elim d [
        | none ↦ (stops, record h { sched = sched })
        | some delay ↦ (goes, record h { sched = sched; delay = delay })
      ]

  -- A 2xx that is no schema-valid 200.
  unfoldable pub on_ambiguous : ℕ → Heart → Next × Heart
  unfolding held_delay
  on_ambiguous now h =
      if h.authoritative
      then recover now false none h
      else (goes, record h { delay = held_delay ttl_ms })

  -- The cadence without a `remaining_ttl_ms`.
  unfoldable pub measured : ℕ → ℕ → ℕ → Heart → Next × Heart
  unfolding held_delay mirrors_elapsed
  measured grant now last h =
      if mirrors_elapsed ttl_ms grant now last
      then (
        goes,
        record h { authoritative = false; delay = held_delay ttl_ms; clamp_warned = true },
      )
      else (
        goes,
        record h { authoritative = false; delay = min (max (grant / 2) (ms 500)) (ms ttl_ms / 2) },
      )

  unfoldable pub on_remaining : ℕ → Rtt → ℕ → Heart → Next × Heart
  on_remaining remaining_ms rtt received h =
      let (d, sched) = on_valid_success remaining_ms rtt received h.sched in
      elim d [
        | none ↦ (stops, record h { authoritative = true; sched = sched })
        | some delay ↦ (goes, record h { authoritative = true; sched = sched; delay = delay })
      ]

  -- A schema-valid 200.
  unfoldable pub on_extended : Beat → ReservationExtendResponse → Heart → Next × Heart
  unfolding measured on_remaining grant_of elapsed
  on_extended b e h =
      let grant = grant_of ttl_ms h.prev_expiry e.expires_at_ms in
      let rtt = elapsed b.received b.sent in
      let h' = record h {
        pending_body = none;
        expires_at_ms = some e.expires_at_ms;
        prev_expiry = some e.expires_at_ms;
        last_success = b.handled;
        grants_sum = h.grants_sum + grant;
        last_grant = some grant;
        sched = observe_rtt rtt h.sched;
      } in
      elim e.remaining_ttl_ms [
        | some remaining_ms ↦ on_remaining remaining_ms rtt b.received h'
        | none ↦ measured grant b.handled h.last_success h'
      ]

  unfoldable pub is_permanent : CyclesResponse → Option String → Bool
  is_permanent r code =
      has_status r 404
      || (has_status r 410
          || elim code [ none ↦ false | some c ↦ contains permanent_extend_codes c ])

  -- An error answer whose code could be read.
  unfoldable pub on_error : Beat → CyclesResponse → Option String → Heart → Next × Heart
  unfolding is_permanent recover
  on_error b r code h =
      if is_permanent r code
      then (stops, h)
      else if not h.authoritative
      then (goes, h)
      else if not (has_status r 429) && within 400 500 r.status
      then (stops, h)
      else if not (extend_error_is_recoverable r)
      then (stops, h)
      else recover b.handled (has_status r 429)
          (if has_status r 429 then retry_after_ms_header r else none) h

  -- The handler of exceptions.
  unfoldable pub on_exception : Beat → Heart → Next × Heart
  unfolding recover
  on_exception b h = if h.authoritative then recover b.handled false none h else (goes, h)

  -- What follows the attempt.
  unfoldable pub on_response : Beat → CyclesResponse → Heart → Next × Heart
  unfolding on_ambiguous on_extended on_error on_exception
  on_response b r h = elim (schema_valid_extend s r) [
    | some e ↦ on_extended b e h
    | none ↦ if is_success r then on_ambiguous b.handled h else elim (extract_error_code s r) [
      | err e ↦ on_exception b h
      | ok code ↦ on_error b r code h
    ]
  ]

  unfoldable pub on_outcome : Beat → Option CyclesResponse → Heart → Next × Heart
  unfolding on_response
  on_outcome b none h = on_exception b h
  on_outcome b (some r) h = on_response b r h

  -- The body of an attempt: the pending one, or a new one.
  unfoldable pub body_of : Beat → Heart → Result Raised Fields
  unfolding build_extend_body
  body_of b h = elim h.pending_body [
    | some body ↦ ok body
    | none ↦ build_extend_body ttl_ms b.fresh_key
  ]

  unfoldable pub attempt : Beat → Heart → Done
  unfolding on_outcome body_of
  attempt b h = elim (body_of b h) [
    | err e ↦ let (n, h') = on_exception b h in record { sent = none; next = n; heart = h' }
    | ok body ↦
        let (n, h') = on_outcome b b.outcome (record h { pending_body = some body }) in
        record { sent = some body; next = n; heart = h' }
  ]

  -- `delay_ms = delay_ms or held_delay_ms` where nothing authoritative is known
  unfoldable pub paced : Heart → Heart
  unfolding held_delay
  paced h =
      if h.authoritative
      then h
      else record h { delay = if h.delay == 0 then held_delay ttl_ms else h.delay }

  -- One iteration, after the wait.
  unfoldable pub beat : Beat → Heart → Done
  unfolding attempt paced has_lead
  beat b h =
      let h' = paced h in
      if not h'.authoritative && has_lead h' b.checked
      then record { sent = none; next = goes; heart = h' }
      else attempt b h'

  -- The loop over the iterations that the stop event allows: the bodies sent, in order.
  unfoldable pub run : List Beat → Heart → List Fields
  run [] h = []
  run (b ∷ bs) h =
      let d = beat b h in
      let rest : List Fields = elim d.next [ stops ↦ [] | goes ↦ run bs d.heart ] in
      elim d.sent [ none ↦ rest | some body ↦ body ∷ rest ]
