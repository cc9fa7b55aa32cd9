-- ===== src/Streaming/Exit.antt =====
-- runcycles/streaming.py: `StreamReservation.__exit__` with its commit and its release.
-- (`AsyncStreamReservation` has the same bodies with `await`.)
use cycles_client_python.Prelude.{
  ℕ, ℤ, ◌/◌, pos, String, Bool, true, false, Option, none, some, Result, ok, err, if◌then◌else◌,
}
use cycles_client_python.Json.{Json, obj, Fields}
use cycles_client_python.Models.{CyclesMetrics}
use cycles_client_python.Exchange.{Request, Server, Reply, commit_reservation, release_reservation}
use cycles_client_python.Journal.Interface.{Journal}
use cycles_client_python.Response.{CyclesResponse, Raised, Schemas, is_success}
use cycles_client_python.Exceptions.Refusal.{build_protocol_exception}
use cycles_client_python.Retry.Outcome.{is_schema_valid_commit_success}
use cycles_client_python.Retry.Engine.{EngineConfig, World, persist_pending, send}
use cycles_client_python.Lifecycle.Bodies.{
  build_commit_body, build_event_fallback_body, build_release_body, mark_estimate,
}
use cycles_client_python.Lifecycle.Commit.{plan_of_reply, carry_out}
use cycles_client_python.Streaming.Usage.{
  StreamUsage, resolve_actual_cost, derived_stream_key, build_stream_metrics,
}

-- The fields of a `StreamReservation` that its exit reads. The subject and the action are their dumps;
-- `elapsed` is the time since the start, in microseconds.
pub record StreamReservation : Type 0 where
  pub reservation_id : String
  pub subject : Fields
  pub action : Fields
  pub unit : String
  pub estimate : ℕ
  pub cost_fn : Option (StreamUsage → Option Json)
  pub metadata : Option Fields
  pub idempotency_key : Option String
  pub usage : StreamUsage
  pub ctx_metrics : Option CyclesMetrics
  pub raise_on_commit_failure : Bool
  pub elapsed : ℕ

-- What `_build_protocol_exception` is made from: an answer, or the exception of the client.
pub data Failure : Type 0 where
  answered : CyclesResponse → Failure
  exception : Failure

-- The prefix of the message; `AsyncStreamReservation` has another, and whether the exception can be
-- built does not depend on it.
abbrev pub commit_prefix : String
commit_prefix = "Stream commit did not settle synchronously; known spend was not released"

-- The keys that `uuid4` makes if the caller gave none, and the wall clock when the spend is journaled.
pub record Fresh : Type 0 where
  pub commit_key : String
  pub release_key : String
  pub wall : ℕ

-- What an exit leaves: `settlement_error`, `release_error`, whether the exit raises, and the world, in which the heartbeat is stopped and the context is cleared.
pub record Exited (J : Type 0) : Type 0 where
  pub settlement_error : Option Failure
  pub release_error : Option Failure
  pub raises : Bool
  pub world : World J

module _ (sha256 : String → String) where
  -- The body of the commit, with its metrics, and of its event
  unfoldable pub stream_commit_body : StreamReservation → CyclesMetrics → String → Fields
  unfolding resolve_actual_cost derived_stream_key build_commit_body mark_estimate
  stream_commit_body r metrics fresh =
      let (actual, assumed) = resolve_actual_cost r.usage r.cost_fn r.estimate in
      let metadata = if assumed then mark_estimate r.metadata else r.metadata in
      let key = derived_stream_key sha256 "commit" r.idempotency_key in
      build_commit_body (pos actual) r.unit (some metrics) metadata key fresh

  unfoldable pub stream_metrics : StreamReservation → Result Raised CyclesMetrics
  unfolding build_stream_metrics
  stream_metrics r = build_stream_metrics r.usage (r.elapsed / 1000) r.ctx_metrics

  unfoldable pub stream_event_body : StreamReservation → Fields → Fields
  unfolding build_event_fallback_body
  stream_event_body r = build_event_fallback_body r.reservation_id (obj r.subject) (obj r.action)

  module _ (s : Schemas) (int_of_text int_of_float : String → Result Raised ℤ) {J : Type 0}
      (ops : Journal J) (cfg : EngineConfig) (server : Server) where
    -- `failure_response`
    unfoldable pub failure_of : Reply → Option Failure
    failure_of reply = elim reply.outcome [
      | none ↦ some exception
      | some r ↦ if is_schema_valid_commit_success s r then none else some (answered r)
    ]

    -- Whether `_build_protocol_exception` returns. A transport error has no body, of which it does.
    unfoldable pub builds : String → Failure → Bool
    unfolding build_protocol_exception
    builds prefix exception = true
    builds prefix (answered r) =
        elim (build_protocol_exception s int_of_text int_of_float prefix r) [
          | ok e ↦ true
          | err e ↦ false
        ]

    -- `_settlement_error`, which stays unset if the exception cannot be built
    unfoldable pub kept_error : Option Failure → Option Failure
    unfolding builds
    kept_error none = none
    kept_error (some f) = if builds commit_prefix f then some f else none

    -- Whether the exit raises: what the building raises, or else the error, if the caller asked for it
    unfoldable pub raises_error : Bool → Option Failure → Bool
    unfolding builds
    raises_error asked none = false
    raises_error asked (some f) = if builds commit_prefix f then asked else true

    -- A request that `model_validate` refuses raises before anything is sent.
    unfoldable pub send_valid : Bool → ℕ → Request → World J → Reply × World J
    unfolding send
    send_valid true wall req w = send server req w
    send_valid false wall req w =
        (record { outcome = none; sent = wall; received = wall; wall = wall }, w)

    -- From the journaling on. The tests on the answer are those of the lifecycle.
    unfoldable pub stream_settle : StreamReservation → Fresh → CyclesMetrics → World J → Exited J
    unfolding stream_commit_body stream_event_body failure_of send_valid kept_error raises_error
    stream_settle r fresh metrics w =
        let id = r.reservation_id in
        let c = stream_commit_body r metrics fresh.commit_key in
        let e = stream_event_body r c in
        let w₀ = persist_pending ops cfg id c e fresh.wall w in
        let (reply, w₁) =
          send_valid (s.commit_request c) fresh.wall (commit_reservation id (some c)) w₀ in
        let failure = failure_of reply in
        record {
          settlement_error = kept_error failure;
          release_error = none;
          raises = raises_error r.raise_on_commit_failure failure;
          world =
              carry_out s ops cfg server (plan_of_reply s ops cfg server reply) id c e reply.wall
                w₁;
        }

    -- Metrics that are refused raise before the spend is journaled.
    unfoldable pub after_metrics :
        StreamReservation → Fresh → World J → Result Raised CyclesMetrics → Exited J
    unfolding stream_settle
    after_metrics r fresh w (ok metrics) = stream_settle r fresh metrics w
    after_metrics r fresh w (err e) = record {
      settlement_error = none;
      release_error = none;
      raises = true;
      world = w;
    }

    -- `_handle_commit`
    unfoldable pub stream_handle_commit : StreamReservation → Fresh → World J → Exited J
    unfolding after_metrics
    stream_handle_commit r fresh w = after_metrics r fresh w (stream_metrics r)

    -- The exception is built inside the `try`: what its building raises becomes a transport error.
    unfoldable pub release_failure_of : Reply → Option Failure
    unfolding builds
    release_failure_of reply = elim reply.outcome [
      | none ↦ some exception
      | some r ↦
          if is_success r
          then none
          else if builds "Stream release failed" (answered r)
          then some (answered r)
          else some exception
    ]

    -- `_handle_release`
    unfoldable pub stream_handle_release : StreamReservation → Fresh → World J → Exited J
    unfolding release_failure_of send_valid
    stream_handle_release r fresh w =
        let key = derived_stream_key sha256 "release" r.idempotency_key in
        let body = build_release_body "stream_failed" key fresh.release_key in
        let (reply, w₁) =
          send_valid (s.release_request body) fresh.wall (release_reservation r.reservation_id body)
            w in
        record {
          settlement_error = none;
          release_error = release_failure_of reply;
          raises = false;
          world = w₁;
        }

    -- `__exit__`; `failed` says that the body of the `with` raised.
    unfoldable pub stream_exit : Bool → StreamReservation → Fresh → World J → Exited J
    unfolding stream_handle_commit stream_handle_release
    stream_exit true = stream_handle_release
    stream_exit false = stream_handle_commit
