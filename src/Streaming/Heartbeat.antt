-- ===== src/Streaming/Heartbeat.antt =====
-- runcycles/streaming.py: `_start_heartbeat` of `StreamReservation` and of `AsyncStreamReservation`.
-- Their loops are those of the lifecycle, line by line, so that they are modelled by the iterations of
-- Heartbeat/Loop and Heartbeat/Async.
use cycles_client_python.Prelude.{
  ◌≡◌, ℕ, ◌==◌, true, Option, none, some, List, map, arith, All, if◌then◌else◌,
}
use cycles_client_python.Json.{Fields, str}
use cycles_client_python.Models.Requests.{text_within, is_valid, extend_rules}
use cycles_client_python.Exchange.{Request, extend_reservation}
use cycles_client_python.Response.{Schemas}
use cycles_client_python.Lifecycle.Context.{CyclesContext}
use cycles_client_python.Heartbeat.Span.{Span, reliable}
use cycles_client_python.Heartbeat.Heart.{Heart, Beat, start_heart}
use cycles_client_python.Heartbeat.Loop.{run}
use cycles_client_python.Heartbeat.Sends.{extends_own, run-IsValid}
use cycles_client_python.Heartbeat.Async.{Pulse, Start, async_heartbeat}
use cycles_client_python.Heartbeat.Async.Cancelled.{beat_of}
use cycles_client_python.Heartbeat.Async.Sends.{async_heartbeat_sends}
use cycles_client_python.Streaming.Enter.{Entered}

-- `ctx.expires_at_ms if ctx is not None else None`
unfoldable pub expiry_of : Option CyclesContext → Option ℕ
expiry_of none = none
expiry_of (some ctx) = ctx.expires_at_ms

-- The head of the heartbeat of an entered stream; `none` if it is not started or ends at once.
unfoldable pub stream_start_heartbeat : ℕ → Option CyclesContext → Entered → Span → ℕ → Option Heart
unfolding expiry_of start_heart
stream_start_heartbeat ttl_ms ctx entered timeout now =
    if ttl_ms == 0
    then none
    else start_heart (expiry_of ctx) timeout entered.initial_remaining
        (some (reliable entered.create_rtt)) (some entered.create_received) now

-- The requests of the loop, over the iterations that the stop event allows
unfoldable pub stream_heartbeat : Schemas → ℕ → Entered → List Beat → Heart → List Request
unfolding run
stream_heartbeat s ttl_ms entered bs h =
    map (λ body. extend_reservation entered.reservation_id body) (run s ttl_ms bs h)

-- What the task of an entered asynchronous stream is started with
unfoldable pub stream_start : ℕ → Option CyclesContext → Entered → Span → ℕ → Start
unfolding expiry_of
stream_start ttl_ms ctx entered timeout now = record {
  reservation_id = entered.reservation_id;
  ttl_ms = ttl_ms;
  expires_at_ms = expiry_of ctx;
  timeout = timeout;
  initial_remaining = entered.initial_remaining;
  initial_rtt = some (reliable entered.create_rtt);
  initial_received = some entered.create_received;
  now = now;
}

-- The requests of the task of an entered asynchronous stream
unfoldable pub async_stream_heartbeat :
    Schemas → ℕ → Option CyclesContext → Entered → Span → ℕ → List Pulse → List Request
unfolding stream_start async_heartbeat
async_stream_heartbeat s ttl_ms ctx entered timeout now ps =
    async_heartbeat s (stream_start ttl_ms ctx entered timeout now) ps

started-pending :
    (ttl_ms : ℕ) (ctx : Option CyclesContext) (entered : Entered) (timeout : Span) (now : ℕ)
    (h : Heart)
    → stream_start_heartbeat ttl_ms ctx entered timeout now ≡ some h
    → h.pending_body ≡ none
unfolding stream_start_heartbeat start_heart
started-pending ttl_ms ctx entered timeout now h is = ground (arith, is)

-- Every request of the heartbeat of an entered stream extends the stream's own reservation by a valid
-- request, whatever the answers and the clock are, if every key that `uuid4` makes has 1 to 256
-- characters.
pub stream_heartbeat_sends :
    (s : Schemas) (ttl_ms : ℕ) (ctx : Option CyclesContext) (entered : Entered) (timeout : Span)
    (now : ℕ) (h : Heart) (bs : List Beat)
    → stream_start_heartbeat ttl_ms ctx entered timeout now ≡ some h
    → All (λ b. text_within 1 256 (str b.fresh_key) ≡ true) bs
    → All
        (λ req.
          (body : Fields) × (req ≡ extend_reservation entered.reservation_id body)
          × (is_valid extend_rules body ≡ true))
        (stream_heartbeat s ttl_ms entered bs h)
unfolding stream_heartbeat
stream_heartbeat_sends s ttl_ms ctx entered timeout now h bs is keyed =
    extends_own entered.reservation_id (run s ttl_ms bs h)
      (run-IsValid s ttl_ms bs h (started-pending ttl_ms ctx entered timeout now h is) keyed)

-- The same for the task of an asynchronous stream, wherever it is cancelled.
async_stream_heartbeat_sends :
    (s : Schemas) (ttl_ms : ℕ) (ctx : Option CyclesContext) (entered : Entered) (timeout : Span)
    (now : ℕ) (ps : List Pulse)
    → All (λ b. text_within 1 256 (str b.fresh_key) ≡ true) (map beat_of ps)
    → All
        (λ req.
          (body : Fields) × (req ≡ extend_reservation entered.reservation_id body)
          × (is_valid extend_rules body ≡ true))
        (async_stream_heartbeat s ttl_ms ctx entered timeout now ps)
unfolding async_stream_heartbeat stream_start
async_stream_heartbeat_sends s ttl_ms ctx entered timeout now ps keyed =
    async_heartbeat_sends s (stream_start ttl_ms ctx entered timeout now) ps keyed
