-- ===== src/Streaming/Async.antt =====
-- runcycles/streaming.py: `AsyncStreamReservation.__aenter__` and `__aexit__` with its commit and its
-- release. The task may be cancelled at each request that it awaits; see Lifecycle/Async.
pub mod Agrees
pub mod Cancelled
use cycles_client_python.Prelude.{
  ℕ, ℤ, String, Bool, true, false, Option, none, some, List, Result, ok, err,
}
use cycles_client_python.Json.{Fields}
use cycles_client_python.Models.{CyclesMetrics}
use cycles_client_python.Exchange.{Request, Server, Reply, commit_reservation, release_reservation}
use cycles_client_python.Journal.Record.{PendingCommitRecord}
use cycles_client_python.Journal.Interface.{Journal}
use cycles_client_python.Response.{Raised, value_error, Schemas}
use cycles_client_python.Retry.Engine.{EngineConfig, World, persist_pending}
use cycles_client_python.Retry.Replay.{Process}
use cycles_client_python.Lifecycle.Bodies.{build_release_body}
use cycles_client_python.Lifecycle.Commit.{plan_of_reply}
use cycles_client_python.Lifecycle.Create.{Created, CreateError}
use cycles_client_python.Retry.Awaiting.{Await, async_send}
use cycles_client_python.Lifecycle.Async.{async_carry_out, async_create_reservation_with_recovery}
use cycles_client_python.Lifecycle.Async.Execute.{AsyncEnv, plain, resumed, Awaits}
use cycles_client_python.Streaming.Usage.{derived_stream_key}
use cycles_client_python.Streaming.Enter.{
  StreamRequest, EnterError, invalid, Entered, build_streaming_reservation_body, stream_created,
}
use cycles_client_python.Streaming.Exit.{
  StreamReservation, Fresh, Failure, stream_commit_body, stream_event_body, stream_metrics,
  failure_of, kept_error, raises_error, release_failure_of,
}

module _ (s : Schemas) (int_of_text int_of_float : String → Result Raised ℤ) where
  -- From the end of the create on; `none` is a `CancelledError`.
  unfoldable pub async_stream_created :
      {J : Type 0}
      → StreamRequest
      → Option (Result CreateError Created)
      → AsyncEnv J
      → Option (Result EnterError Entered) × AsyncEnv J
  unfolding stream_created
  async_stream_created r none env = (none, env)
  async_stream_created r (some created) env =
      let (out, env') = stream_created s int_of_text int_of_float r created (plain env) in
      (some out, resumed env.process env')

  module _ (create_request : Fields → Option Fields) {J : Type 0} (server : Server) where
    unfoldable pub async_stream_create :
        (ℕ → Await)
        → StreamRequest
        → Option Fields
        → AsyncEnv J
        → Option (Result EnterError Entered) × AsyncEnv J
    unfolding async_create_reservation_with_recovery async_stream_created
    async_stream_create awaits r none env = (some (err (invalid value_error)), env)
    async_stream_create awaits r (some body) env =
        let (created, w) =
          async_create_reservation_with_recovery s server awaits body env.process.world in
        async_stream_created r created (record env { process = record env.process { world = w } })

    -- `__aenter__`
    unfoldable pub async_stream_enter :
        (ℕ → Await)
        → StreamRequest
        → String
        → AsyncEnv J
        → Option (Result EnterError Entered) × AsyncEnv J
    unfolding build_streaming_reservation_body async_stream_create
    async_stream_enter awaits r fresh env = elim (build_streaming_reservation_body r fresh) [
      | err e ↦ (some (err (invalid e)), env)
      | ok body ↦ async_stream_create awaits r (create_request body) env
    ]

-- What an exit leaves: the errors it keeps, whether it raises the former of them, whether it raises a
-- `CancelledError`, and the environment.
pub record AsyncExited (J : Type 0) : Type 0 where
  pub settlement_error : Option Failure
  pub release_error : Option Failure
  pub raises : Bool
  pub interrupted : Bool
  pub process : Process J

module _ (sha256 : String → String) (s : Schemas)
    (int_of_text int_of_float : String → Result Raised ℤ) {J : Type 0} (ops : Journal J)
    (cfg : EngineConfig) (load : J → List PendingCommitRecord × J) (dir : String)
    (server : Server) where
  -- A request that `model_validate` refuses raises before anything is awaited.
  unfoldable pub async_send_valid : Bool → ℕ → Await → Request → World J → Option Reply × World J
  unfolding async_send
  async_send_valid true wall await req w = async_send server await req w
  async_send_valid false wall await req w =
      (some (record { outcome = none; sent = wall; received = wall; wall = wall }), w)

  -- The commit was answered, or the task was cancelled.
  unfoldable pub async_stream_answered :
      StreamReservation → Option Reply → Fields → Fields → Process J → AsyncExited J
  unfolding failure_of kept_error raises_error async_carry_out plan_of_reply
  async_stream_answered r none c e p = record {
    settlement_error = none;
    release_error = none;
    raises = false;
    interrupted = true;
    process = p;
  }
  async_stream_answered r (some reply) c e p =
      let failure = failure_of sha256 s int_of_text int_of_float ops cfg server reply in
      record {
        settlement_error = kept_error sha256 s int_of_text int_of_float ops cfg server failure;
        release_error = none;
        raises =
            raises_error sha256 s int_of_text int_of_float ops cfg server r.raise_on_commit_failure
              failure;
        interrupted = false;
        process =
            async_carry_out s ops cfg load dir server (plan_of_reply s ops cfg server reply)
              r.reservation_id c e reply.wall p;
      }

  -- From the journaling on
  unfoldable pub async_stream_settle :
      StreamReservation → Fresh → Await → CyclesMetrics → Process J → AsyncExited J
  unfolding stream_commit_body stream_event_body async_send_valid async_stream_answered
      persist_pending
  async_stream_settle r fresh await metrics p =
      let id = r.reservation_id in
      let c = stream_commit_body sha256 r metrics fresh.commit_key in
      let e = stream_event_body sha256 r c in
      let w₀ = persist_pending ops cfg id c e fresh.wall p.world in
      let (reply, w₁) =
        async_send_valid (s.commit_request c) fresh.wall await (commit_reservation id (some c))
          w₀ in
      async_stream_answered r reply c e (record p { world = w₁ })

  -- `_handle_commit`; metrics that are refused raise before the spend is journaled.
  unfoldable pub async_after_metrics :
      StreamReservation → Fresh → Await → Process J → Result Raised CyclesMetrics → AsyncExited J
  unfolding async_stream_settle
  async_after_metrics r fresh await p (ok metrics) = async_stream_settle r fresh await metrics p
  async_after_metrics r fresh await p (err e) = record {
    settlement_error = none;
    release_error = none;
    raises = true;
    interrupted = false;
    process = p;
  }

  -- `_handle_release`
  unfoldable pub async_stream_release :
      StreamReservation → Fresh → Await → Process J → AsyncExited J
  unfolding async_send_valid release_failure_of derived_stream_key build_release_body
  async_stream_release r fresh await p =
      let key = derived_stream_key sha256 "release" r.idempotency_key in
      let body = build_release_body "stream_failed" key fresh.release_key in
      let (reply, w₁) =
        async_send_valid (s.release_request body) fresh.wall await
          (release_reservation r.reservation_id body) p.world in
      record {
        settlement_error = none;
        release_error = elim reply [
          | none ↦ none
          | some x ↦ release_failure_of sha256 s int_of_text int_of_float ops cfg server x
        ];
        raises = false;
        interrupted = elim reply [ none ↦ true | some x ↦ false ];
        process = record p { world = w₁ };
      }

  -- `__aexit__`; `failed` says that the body of the `async with` raised. The heartbeat task is
  -- cancelled and awaited first, and every `CancelledError` of that wait is passed over; the context
  -- is cleared last.
  unfoldable pub async_stream_exit :
      Bool → StreamReservation → Fresh → Awaits → AsyncEnv J → AsyncExited J × AsyncEnv J
  unfolding async_after_metrics stream_metrics async_stream_release
  async_stream_exit true r fresh awaits env =
      let out = async_stream_release r fresh awaits.release env.process in
      (out, record { process = out.process; context = none; beating = false })
  async_stream_exit false r fresh awaits env =
      let out = async_after_metrics r fresh awaits.commit env.process (stream_metrics sha256 r) in
      (out, record { process = out.process; context = none; beating = false })
