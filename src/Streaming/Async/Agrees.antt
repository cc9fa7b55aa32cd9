-- ===== src/Streaming/Async/Agrees.antt =====
-- Without a cancellation the asynchronous stream is the synchronous one.
use cycles_client_python.Prelude.{
  ◌≡◌, refl, ap, ◌∙◌, inl, inr, ℕ, ℤ, String, Bool, true, false, Option, none, some, List, Result,
  ok, err, Result-cases,
}
use cycles_client_python.Json.{Fields}
use cycles_client_python.Models.{CyclesMetrics}
use cycles_client_python.Exchange.{Request, Server, commit_reservation, release_reservation}
use cycles_client_python.Lifecycle.Bodies.{build_release_body}
use cycles_client_python.Streaming.Usage.{derived_stream_key}
use cycles_client_python.Journal.Record.{PendingCommitRecord}
use cycles_client_python.Journal.Interface.{Journal}
use cycles_client_python.Response.{Raised, Schemas}
use cycles_client_python.Retry.Engine.{EngineConfig, World, persist_pending}
use cycles_client_python.Lifecycle.Commit.{plan_of_reply}
use cycles_client_python.Lifecycle.Create.{create_reservation_with_recovery}
use cycles_client_python.Lifecycle.Context.{Env}
use cycles_client_python.Retry.Awaiting.{resumes, async_send}
use cycles_client_python.Lifecycle.Async.{async_create_reservation_with_recovery}
use cycles_client_python.Lifecycle.Async.Execute.{AsyncEnv}
use cycles_client_python.Lifecycle.Async.Calm.{
  calm, steady, inside, create_loop-agrees, carry_out-agrees,
}
use cycles_client_python.Streaming.Enter.{
  StreamRequest, EnterError, Entered, build_streaming_reservation_body, stream_create, stream_enter,
}
use cycles_client_python.Streaming.Exit.{
  StreamReservation, Fresh, Exited, stream_commit_body, stream_event_body, stream_metrics,
  send_valid, release_failure_of, stream_settle, after_metrics, stream_handle_commit,
  stream_handle_release, stream_exit,
}
use cycles_client_python.Streaming.Async.{
  AsyncExited, async_stream_created, async_stream_create, async_stream_enter, async_send_valid,
  async_stream_answered, async_stream_settle, async_after_metrics, async_stream_release,
  async_stream_exit,
}

module _ (s : Schemas) (int_of_text int_of_float : String → Result Raised ℤ)
    (create_request : Fields → Option Fields) {J : Type 0} (server : Server) where
  -- A synchronous entry, as the asynchronous one leaves it.
  abbrev pub settled_run :
      List String
      → Result EnterError Entered × Env J
      → Option (Result EnterError Entered) × AsyncEnv J
  settled_run claimed (out, env) = (some out, inside claimed env)

  stream_create-agrees :
      (r : StreamRequest) (body : Option Fields) (claimed : List String) (env : Env J)
      → async_stream_create s int_of_text int_of_float create_request server
          (λ n. resumes)
          r
          body
          (inside claimed env)
        ≡ settled_run claimed
            (stream_create s int_of_text int_of_float create_request server r body env)
  unfolding async_stream_create stream_create async_create_reservation_with_recovery
      create_reservation_with_recovery async_stream_created
  stream_create-agrees r none claimed env = refl
  stream_create-agrees r (some body) claimed env =
      ap
        (λ m.
          async_stream_created s int_of_text int_of_float r m.0
            (record { process = steady claimed m.1; context = env.context; beating = env.beating }))
        (create_loop-agrees s server 2 body env.world)

  -- Without a cancellation the asynchronous entry of a stream does what the synchronous one does: the
  -- same result or error, the same requests, the same context variable and heartbeat.
  pub async_stream_enter-agrees :
      (r : StreamRequest) (fresh : String) (claimed : List String) (env : Env J)
      → async_stream_enter s int_of_text int_of_float create_request server
          (λ n. resumes)
          r
          fresh
          (inside claimed env)
        ≡ settled_run claimed
            (stream_enter s int_of_text int_of_float create_request server r fresh env)
  unfolding async_stream_enter stream_enter
  async_stream_enter-agrees r fresh claimed env =
      elim (Result-cases (build_streaming_reservation_body r fresh)) [
        | inl (body, is) ↦
            rw (is, async_stream_enter, stream_enter)
              (stream_create-agrees r (create_request body) claimed env)
        | inr (e, is) ↦ rw (is, async_stream_enter, stream_enter) refl
      ]

module _ (sha256 : String → String) (s : Schemas)
    (int_of_text int_of_float : String → Result Raised ℤ) {J : Type 0} (ops : Journal J)
    (cfg : EngineConfig) (load : J → List PendingCommitRecord × J) (dir : String)
    (server : Server) where
  -- A synchronous exit, as the asynchronous one leaves it.
  abbrev pub exited : List String → Exited J → AsyncExited J
  exited claimed out = record {
    settlement_error = out.settlement_error;
    release_error = out.release_error;
    raises = out.raises;
    interrupted = false;
    process = steady claimed out.world;
  }

  send_valid-agrees :
      (valid : Bool) (wall : ℕ) (req : Request) (w : World J)
      → async_send_valid sha256 s int_of_text int_of_float ops cfg load dir server valid wall
          resumes req w
        ≡ (let (reply, w') =
              send_valid sha256 s int_of_text int_of_float ops cfg server valid wall req w in
            (some reply, w'))
  unfolding async_send_valid async_send send_valid
  send_valid-agrees true wall req w = refl
  send_valid-agrees false wall req w = refl

  settle-agrees :
      (r : StreamReservation) (fresh : Fresh) (m : CyclesMetrics) (claimed : List String)
      (w : World J)
      → async_stream_settle sha256 s int_of_text int_of_float ops cfg load dir server r fresh
          resumes m
          (steady claimed w)
        ≡ exited claimed
            (stream_settle sha256 s int_of_text int_of_float ops cfg server r fresh m w)
  unfolding async_stream_settle stream_settle async_stream_answered
  settle-agrees r fresh m claimed w =
      let id = r.reservation_id in
      let c = stream_commit_body sha256 r m fresh.commit_key in
      let e = stream_event_body sha256 r c in
      let w₀ = persist_pending ops cfg id c e fresh.wall w in
      let req = commit_reservation id (some c) in
      let (reply, w₁) =
        send_valid sha256 s int_of_text int_of_float ops cfg server (s.commit_request c) fresh.wall
          req w₀ in
      let plan = plan_of_reply s ops cfg server reply in
      let out = stream_settle sha256 s int_of_text int_of_float ops cfg server r fresh m w in
      ap
        (λ m.
          async_stream_answered sha256 s int_of_text int_of_float ops cfg load dir server r m.0 c e
            (steady claimed m.1))
        (send_valid-agrees (s.commit_request c) fresh.wall req w₀)
      ∙ ap
          (λ p. record {
            settlement_error = out.settlement_error;
            release_error = none;
            raises = out.raises;
            interrupted = false;
            process = p;
          })
          (carry_out-agrees s ops cfg load dir server plan id c e reply.wall claimed w₁)

  after_metrics-agrees :
      (r : StreamReservation) (fresh : Fresh) (m : Result Raised CyclesMetrics)
      (claimed : List String) (w : World J)
      → async_after_metrics sha256 s int_of_text int_of_float ops cfg load dir server r fresh
          resumes
          (steady claimed w)
          m
        ≡ exited claimed
            (after_metrics sha256 s int_of_text int_of_float ops cfg server r fresh w m)
  unfolding async_after_metrics after_metrics
  after_metrics-agrees r fresh (ok m) claimed w = settle-agrees r fresh m claimed w
  after_metrics-agrees r fresh (err e) claimed w = refl

  release-agrees :
      (r : StreamReservation) (fresh : Fresh) (claimed : List String) (w : World J)
      → async_stream_release sha256 s int_of_text int_of_float ops cfg load dir server r fresh
          resumes
          (steady claimed w)
        ≡ exited claimed
            (stream_handle_release sha256 s int_of_text int_of_float ops cfg server r fresh w)
  unfolding async_stream_release stream_handle_release
  release-agrees r fresh claimed w =
      let key = derived_stream_key sha256 "release" r.idempotency_key in
      let body = build_release_body "stream_failed" key fresh.release_key in
      let req = release_reservation r.reservation_id body in
      ap
        (λ m. record {
          settlement_error = none;
          release_error = elim m.0 [
            | none ↦ none
            | some x ↦ release_failure_of sha256 s int_of_text int_of_float ops cfg server x
          ];
          raises = false;
          interrupted = elim m.0 [ none ↦ true | some x ↦ false ];
          process = steady claimed m.1;
        })
        (send_valid-agrees (s.release_request body) fresh.wall req w)

  -- What the environment is after a synchronous exit
  abbrev pub after_exit : List String → Exited J → AsyncExited J × AsyncEnv J
  after_exit claimed out = (
    exited claimed out,
    record { process = steady claimed out.world; context = none; beating = false },
  )

  -- Without a cancellation, and with no replay put off, the asynchronous exit of a stream does what
  -- the synchronous one does: the same errors, the same requests, journal and background retries.
  -- Afterwards the context variable is cleared and the heartbeat is stopped.
  pub async_stream_exit-agrees :
      (failed : Bool) (r : StreamReservation) (fresh : Fresh) (claimed : List String) (env : Env J)
      → async_stream_exit sha256 s int_of_text int_of_float ops cfg load dir server failed r fresh
          calm
          (inside claimed env)
        ≡ after_exit claimed
            (stream_exit sha256 s int_of_text int_of_float ops cfg server failed r fresh env.world)
  unfolding async_stream_exit stream_exit stream_handle_commit
  async_stream_exit-agrees true r fresh claimed env =
      ap (λ out. (out, record { process = out.process; context = none; beating = false }))
        (release-agrees r fresh claimed env.world)
  async_stream_exit-agrees false r fresh claimed env =
      ap (λ out. (out, record { process = out.process; context = none; beating = false }))
        (after_metrics-agrees r fresh (stream_metrics sha256 r) claimed env.world)
