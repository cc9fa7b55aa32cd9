-- ===== src/Lifecycle/Execute.antt =====
-- runcycles/lifecycle.py: `CyclesLifecycle.execute`.
use cycles_client_python.Prelude.{
  ℕ, String, true, false, Option, none, some, Result, ok, err, ◌>>◌, if◌then◌else◌,
}
use cycles_client_python.Json.{Fields}
use cycles_client_python.Models.{is_denied, Subject}
use cycles_client_python.Exchange.{Server}
use cycles_client_python.Journal.Interface.{Journal}
use cycles_client_python.Response.{Schemas, Raised}
use cycles_client_python.Retry.Engine.{EngineConfig, World}
use cycles_client_python.Lifecycle.Commit.{handle_commit, handle_release}
use cycles_client_python.Lifecycle.Create.{Created, CreateError, create_reservation_with_recovery}
use cycles_client_python.Lifecycle.Reserve.{DecoratorConfig, build_reservation_body}
use cycles_client_python.Lifecycle.Context.{
  CyclesContext, Env, Finished, GuardedAction, Outcome, Draws, check_actual, commit_of, event_of,
  context_of, dry_run_of, invalid, create_failed, denied, missing_id, action_failed, returned,
  evaluated, raised,
}

module _ (s : Schemas) {J R : Type 0} (ops : Journal J) (engine : EngineConfig)
    (server : Server) where
  -- What follows the guarded action: the commit or the release.
  unfoldable pub settle :
      DecoratorConfig R
      → Draws
      → String
      → ℕ
      → Fields
      → Option (Finished R)
      → World J
      → Outcome R × World J
  unfolding commit_of event_of
  settle cfg draws id estimate create_body none w = (
    raised action_failed,
    handle_release s ops engine server id "guarded_method_failed" draws.release_key w,
  )
  settle cfg draws id estimate create_body (some fin) w =
      let commit_body = commit_of cfg estimate fin draws.commit_key in
      (
        returned fin.result,
        handle_commit s ops engine server id commit_body (event_of id create_body commit_body)
            draws.wall w,
      )

  -- From the context and the heartbeat to the `finally`.
  unfoldable pub run_guarded :
      DecoratorConfig R
      → Draws
      → GuardedAction J R
      → CyclesContext
      → Fields
      → Env J
      → Outcome R × Env J
  unfolding settle
  run_guarded cfg draws action ctx create_body env =
      let (fin, env₁) = action ctx (record env { context = some ctx; beating = true }) in
      let (outcome, w) =
        settle cfg draws ctx.reservation_id ctx.estimate create_body fin env₁.world in
      (outcome, record { world = w; context = none; beating = false })

  -- A reservation exists or was refused.
  unfoldable pub after_create :
      DecoratorConfig R
      → Draws
      → GuardedAction J R
      → ℕ
      → Fields
      → Created
      → Env J
      → Outcome R × Env J
  unfolding run_guarded context_of dry_run_of is_denied
  after_create cfg draws action estimate create_body c env =
      if cfg.dry_run
      then if is_denied c.result.decision
        then (raised (denied "Dry-run denied" c.response), env)
        else (evaluated (dry_run_of c.result), env)
      else if is_denied c.result.decision
      then (raised (denied "Reservation denied" c.response), env)
      else elim c.result.reservation_id [
        | none ↦ (raised (missing_id c.response.status), env)
        | some id ↦ run_guarded cfg draws action (context_of id estimate c.result) create_body env
      ]

  unfoldable pub after_attempts :
      DecoratorConfig R
      → Draws
      → GuardedAction J R
      → ℕ
      → Fields
      → Result CreateError Created
      → Env J
      → Outcome R × Env J
  unfolding after_create
  after_attempts cfg draws action estimate body (err e) env = (raised (create_failed e), env)
  after_attempts cfg draws action estimate body (ok c) env =
      after_create cfg draws action estimate body c env

  -- The checks have passed or raised.
  unfoldable pub after_checks :
      DecoratorConfig R
      → Draws
      → GuardedAction J R
      → Result Raised (ℕ × Fields)
      → Env J
      → Outcome R × Env J
  unfolding create_reservation_with_recovery after_attempts
  after_checks cfg draws action (err e) env = (raised (invalid e), env)
  after_checks cfg draws action (ok (estimate, body)) env =
      let (created, w) = create_reservation_with_recovery s server body env.world in
      after_attempts cfg draws action estimate body created (record env { world = w })

  unfoldable pub execute :
      DecoratorConfig R → Subject → Draws → GuardedAction J R → Env J → Outcome R × Env J
  unfolding check_actual build_reservation_body after_checks
  execute cfg defaults draws action =
      after_checks cfg draws action
        (check_actual cfg >> build_reservation_body cfg defaults draws.create_key)
