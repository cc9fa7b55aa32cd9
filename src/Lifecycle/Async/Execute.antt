-- ===== src/Lifecycle/Async/Execute.antt =====
-- runcycles/lifecycle.py: `AsyncCyclesLifecycle.execute`, with the cancellations of its task.
-- The checks, the bodies and the readings are those of Lifecycle/Context.
use cycles_client_python.Prelude.{
  ℕ, String, Bool, true, false, Option, none, some, List, Result, ok, err, ◌>>◌, if◌then◌else◌,
}
use cycles_client_python.Json.{Fields}
use cycles_client_python.Models.{Subject, is_denied}
use cycles_client_python.Exchange.{Server}
use cycles_client_python.Journal.Record.{PendingCommitRecord}
use cycles_client_python.Journal.Interface.{Journal}
use cycles_client_python.Response.{Schemas, Raised}
use cycles_client_python.Retry.Engine.{EngineConfig}
use cycles_client_python.Retry.Replay.{Process}
use cycles_client_python.Lifecycle.Create.{Created, CreateError}
use cycles_client_python.Lifecycle.Reserve.{DecoratorConfig, build_reservation_body}
use cycles_client_python.Lifecycle.Context.{
  CyclesContext, Env, Finished, Draws, Outcome, returned, evaluated, raised, invalid, create_failed,
  denied, missing_id, action_failed, check_actual, commit_of, event_of, context_of, dry_run_of,
}
use cycles_client_python.Retry.Awaiting.{Await}
use cycles_client_python.Lifecycle.Async.{
  async_create_reservation_with_recovery, async_handle_commit, async_handle_release,
}

-- The process, the context variable of the task, and whether its heartbeat task runs.
pub record AsyncEnv (J : Type 0) : Type 0 where
  pub process : Process J
  pub context : Option CyclesContext
  pub beating : Bool

-- The environment as synchronous code sees it, and after that code.
abbrev pub plain : {J : Type 0} → AsyncEnv J → Env J
plain env = record { world = env.process.world; context = env.context; beating = env.beating }

abbrev pub resumed : {J : Type 0} → Process J → Env J → AsyncEnv J
resumed p env = record {
  process = record p { world = env.world };
  context = env.context;
  beating = env.beating;
}

-- How a guarded coroutine ends.
pub data ActionEnd (R : Type 0) : Type 0 where
  finished : Finished R → ActionEnd R
  failed : ActionEnd R
  action_cancelled : ActionEnd R

abbrev pub AsyncAction : Type 0 → Type 0 → Type 0
AsyncAction J R = CyclesContext → AsyncEnv J → ActionEnd R × AsyncEnv J

-- A call ends like a synchronous one, or with a `CancelledError`.
pub data AsyncOutcome (R : Type 0) : Type 0 where
  ended : Outcome R → AsyncOutcome R
  call_cancelled : AsyncOutcome R

-- What becomes of the task at each request it awaits: the attempts of the create by the number of
-- attempts that are left, the commit, and the release.
pub record Awaits : Type 0 where
  pub create : ℕ → Await
  pub commit : Await
  pub release : Await

-- An exception of a handler replaces the outcome.
unfoldable pub unless_cut : {R : Type 0} → Bool → Outcome R → AsyncOutcome R
unless_cut cut outcome = if cut then call_cancelled else ended outcome

module _ (s : Schemas) {J R : Type 0} (ops : Journal J) (engine : EngineConfig)
    (load : J → List PendingCommitRecord × J) (dir : String) (server : Server) where
  -- What follows the guarded coroutine: the commit of a finished one, the release of any other.
  unfoldable pub async_settle :
      DecoratorConfig R
      → Draws
      → Awaits
      → String
      → ℕ
      → Fields
      → ActionEnd R
      → Process J
      → AsyncOutcome R × Process J
  unfolding commit_of event_of async_handle_commit async_handle_release unless_cut
  async_settle cfg draws awaits id estimate create_body (finished fin) p =
      let body = commit_of cfg estimate fin draws.commit_key in
      let (cut, p') =
        async_handle_commit s ops engine load dir server awaits.commit id body
          (event_of id create_body body) draws.wall p in
      (unless_cut cut (returned fin.result), p')
  async_settle cfg draws awaits id estimate create_body failed p =
      let (cut, p') =
        async_handle_release s ops engine load dir server awaits.release id "guarded_method_failed"
          draws.release_key p in
      (unless_cut cut (raised action_failed), p')
  async_settle cfg draws awaits id estimate create_body action_cancelled p = (
    call_cancelled,
    (async_handle_release s ops engine load dir server awaits.release id "guarded_method_failed"
        draws.release_key p).1,
  )

  -- From the context and the heartbeat to the `finally`, which cancels the heartbeat task, awaits it
  -- and passes over every `CancelledError` of that wait.
  unfoldable pub async_run_guarded :
      DecoratorConfig R
      → Draws
      → Awaits
      → AsyncAction J R
      → CyclesContext
      → Fields
      → AsyncEnv J
      → AsyncOutcome R × AsyncEnv J
  unfolding async_settle
  async_run_guarded cfg draws awaits action ctx create_body env =
      let (end, env₁) = action ctx (record env { context = some ctx; beating = true }) in
      let (outcome, p) =
        async_settle cfg draws awaits ctx.reservation_id ctx.estimate create_body end
          env₁.process in
      (outcome, record { process = p; context = none; beating = false })

  -- A reservation exists or was refused.
  unfoldable pub async_after_create :
      DecoratorConfig R
      → Draws
      → Awaits
      → AsyncAction J R
      → ℕ
      → Fields
      → Created
      → AsyncEnv J
      → AsyncOutcome R × AsyncEnv J
  unfolding async_run_guarded context_of dry_run_of is_denied
  async_after_create cfg draws awaits action estimate create_body c env =
      if cfg.dry_run
      then if is_denied c.result.decision
        then (ended (raised (denied "Dry-run denied" c.response)), env)
        else (ended (evaluated (dry_run_of c.result)), env)
      else if is_denied c.result.decision
      then (ended (raised (denied "Reservation denied" c.response)), env)
      else elim c.result.reservation_id [
        | none ↦ (ended (raised (missing_id c.response.status)), env)
        | some id ↦
            async_run_guarded cfg draws awaits action (context_of id estimate c.result) create_body
              env
      ]

  unfoldable pub async_after_attempts :
      DecoratorConfig R
      → Draws
      → Awaits
      → AsyncAction J R
      → ℕ
      → Fields
      → Option (Result CreateError Created)
      → AsyncEnv J
      → AsyncOutcome R × AsyncEnv J
  unfolding async_after_create
  async_after_attempts cfg draws awaits action estimate body none env = (call_cancelled, env)
  async_after_attempts cfg draws awaits action estimate body (some (err e)) env =
      (ended (raised (create_failed e)), env)
  async_after_attempts cfg draws awaits action estimate body (some (ok c)) env =
      async_after_create cfg draws awaits action estimate body c env

  -- The checks have passed or raised.
  unfoldable pub async_after_checks :
      DecoratorConfig R
      → Draws
      → Awaits
      → AsyncAction J R
      → Result Raised (ℕ × Fields)
      → AsyncEnv J
      → AsyncOutcome R × AsyncEnv J
  unfolding async_create_reservation_with_recovery async_after_attempts
  async_after_checks cfg draws awaits action (err e) env = (ended (raised (invalid e)), env)
  async_after_checks cfg draws awaits action (ok (estimate, body)) env =
      let (created, w) =
        async_create_reservation_with_recovery s server awaits.create body env.process.world in
      async_after_attempts cfg draws awaits action estimate body created
        (record env { process = record env.process { world = w } })

  unfoldable pub async_execute :
      DecoratorConfig R
      → Subject
      → Draws
      → Awaits
      → AsyncAction J R
      → AsyncEnv J
      → AsyncOutcome R × AsyncEnv J
  unfolding check_actual build_reservation_body async_after_checks
  async_execute cfg defaults draws awaits action =
      async_after_checks cfg draws awaits action
        (check_actual cfg >> build_reservation_body cfg defaults draws.create_key)
