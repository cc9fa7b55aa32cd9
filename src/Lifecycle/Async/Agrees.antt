-- ===== src/Lifecycle/Async/Agrees.antt =====
-- Without a cancellation the asynchronous lifecycle is the synchronous one.
use cycles_client_python.Prelude.{
  ◌≡◌, refl, ap, ◌∙◌, ℕ, String, true, false, Option, none, some, List, Result, ok, err, Bool-cases,
  Option-cases, inl, inr,
}
use cycles_client_python.Json.{Fields}
use cycles_client_python.Models.{Subject, is_denied}
use cycles_client_python.Exchange.{Server}
use cycles_client_python.Journal.Record.{PendingCommitRecord}
use cycles_client_python.Journal.Interface.{Journal}
use cycles_client_python.Response.{Schemas, Raised}
use cycles_client_python.Retry.Engine.{EngineConfig, World, send}
use cycles_client_python.Lifecycle.Commit.{handle_release}
use cycles_client_python.Lifecycle.Create.{
  Created, CreateError, create_loop, create_reservation_with_recovery,
}
use cycles_client_python.Lifecycle.Reserve.{DecoratorConfig}
use cycles_client_python.Lifecycle.Context.{
  CyclesContext, Env, Finished, returned, commit_of, event_of, context_of, GuardedAction, Draws,
  Outcome,
}
use cycles_client_python.Lifecycle.Execute.{
  settle, run_guarded, after_create, after_attempts, after_checks, execute,
}
use cycles_client_python.Retry.Awaiting.{async_send}
use cycles_client_python.Lifecycle.Async.{
  async_create_reservation_with_recovery, async_handle_release,
}
use cycles_client_python.Lifecycle.Async.Execute.{
  AsyncEnv, AsyncOutcome, ended, unless_cut, async_settle, async_run_guarded, async_after_create,
  async_after_attempts, async_after_checks, async_execute,
}
use cycles_client_python.Lifecycle.Async.Calm.{
  calm, steady, inside, end_of, awaited, create_loop-agrees, handle_commit-agrees,
}

module _ {J : Type 0} (s : Schemas) (ops : Journal J) (cfg : EngineConfig)
    (load : J → List PendingCommitRecord × J) (dir : String) (server : Server) where
  module _ {R : Type 0} where
    settle-agrees :
        (conf : DecoratorConfig R) (draws : Draws) (id : String) (estimate : ℕ) (body : Fields)
        (fin : Option (Finished R)) (claimed : List String) (w : World J)
        → async_settle s ops cfg load dir server conf draws calm id estimate body
            (end_of fin)
            (steady claimed w)
          ≡ (let (o, w') = settle s ops cfg server conf draws id estimate body fin w in
              (ended o, steady claimed w'))
    unfolding async_settle settle unless_cut async_handle_release handle_release async_send send
    settle-agrees conf draws id estimate body none claimed w = refl
    settle-agrees conf draws id estimate body (some fin) claimed w =
        let c = commit_of conf estimate fin draws.commit_key in
        ap (λ r. (unless_cut r.0 (returned fin.result), r.1))
          (handle_commit-agrees s ops cfg load dir server id c (event_of id body c) draws.wall
            claimed w)

    -- A synchronous result, as the asynchronous lifecycle leaves it.
    abbrev pub settled_run : List String → Outcome R × Env J → AsyncOutcome R × AsyncEnv J
    settled_run claimed (o, e) = (ended o, inside claimed e)

    run_guarded-agrees :
        (conf : DecoratorConfig R) (draws : Draws) (action : GuardedAction J R)
        (ctx : CyclesContext) (body : Fields) (claimed : List String) (env : Env J)
        → async_run_guarded s ops cfg load dir server conf draws calm
            (awaited action)
            ctx
            body
            (inside claimed env)
          ≡ settled_run claimed (run_guarded s ops cfg server conf draws action ctx body env)
    unfolding async_run_guarded run_guarded
    run_guarded-agrees conf draws action ctx body claimed env =
        let (fin, env₁) = action ctx (record env { context = some ctx; beating = true }) in
        ap (λ r. (r.0, record { process = r.1; context = none; beating = false }))
          (settle-agrees conf draws ctx.reservation_id ctx.estimate body fin claimed env₁.world)

    opened-agrees :
        (conf : DecoratorConfig R) (draws : Draws) (action : GuardedAction J R) (estimate : ℕ)
        (body : Fields) (c : Created) (claimed : List String) (env : Env J)
        → conf.dry_run ≡ false
        → is_denied c.result.decision ≡ false
        → async_after_create s ops cfg load dir server conf draws calm
            (awaited action)
            estimate
            body
            c
            (inside claimed env)
          ≡ settled_run claimed
              (after_create s ops cfg server conf draws action estimate body c env)
    unfolding async_after_create after_create
    opened-agrees conf draws action estimate body c claimed env wet granted =
        elim (Option-cases c.result.reservation_id) [
          | inl none_left ↦ rw (wet, granted, none_left) refl
          | inr (id, e) ↦
              rw (wet, granted, e)
                (run_guarded-agrees conf draws action (context_of id estimate c.result) body claimed
                  env)
        ]

    after_create-agrees :
        (conf : DecoratorConfig R) (draws : Draws) (action : GuardedAction J R) (estimate : ℕ)
        (body : Fields) (c : Created) (claimed : List String) (env : Env J)
        → async_after_create s ops cfg load dir server conf draws calm
            (awaited action)
            estimate
            body
            c
            (inside claimed env)
          ≡ settled_run claimed
              (after_create s ops cfg server conf draws action estimate body c env)
    unfolding async_after_create after_create
    after_create-agrees conf draws action estimate body c claimed env =
        elim (Bool-cases conf.dry_run) [
          | inl dry ↦ elim (Bool-cases (is_denied c.result.decision)) [
            | inl denied ↦ rw (dry, denied) refl
            | inr granted ↦ rw (dry, granted) refl
          ]
          | inr wet ↦ elim (Bool-cases (is_denied c.result.decision)) [
            | inl denied ↦ rw (wet, denied) refl
            | inr granted ↦ opened-agrees conf draws action estimate body c claimed env wet granted
          ]
        ]

    after_attempts-agrees :
        (conf : DecoratorConfig R) (draws : Draws) (action : GuardedAction J R) (estimate : ℕ)
        (body : Fields) (r : Result CreateError Created) (claimed : List String) (env : Env J)
        → async_after_attempts s ops cfg load dir server conf draws calm
            (awaited action)
            estimate
            body
            (some r)
            (inside claimed env)
          ≡ settled_run claimed
              (after_attempts s ops cfg server conf draws action estimate body r env)
    unfolding async_after_attempts after_attempts
    after_attempts-agrees conf draws action estimate body (err e) claimed env = refl
    after_attempts-agrees conf draws action estimate body (ok c) claimed env =
        after_create-agrees conf draws action estimate body c claimed env

    after_checks-agrees :
        (conf : DecoratorConfig R) (draws : Draws) (action : GuardedAction J R)
        (r : Result Raised (ℕ × Fields)) (claimed : List String) (env : Env J)
        → async_after_checks s ops cfg load dir server conf draws calm
            (awaited action)
            r
            (inside claimed env)
          ≡ settled_run claimed (after_checks s ops cfg server conf draws action r env)
    unfolding async_after_checks after_checks async_create_reservation_with_recovery
        create_reservation_with_recovery
    after_checks-agrees conf draws action (err e) claimed env = refl
    after_checks-agrees conf draws action (ok (estimate, body)) claimed env =
        let (created, w) = create_loop s server 2 body env.world in
        ap
          (λ r.
            async_after_attempts s ops cfg load dir server conf draws calm (awaited action) estimate
              body r.0
              (record {
                process = steady claimed r.1;
                context = env.context;
                beating = env.beating;
              }))
          (create_loop-agrees s server 2 body env.world)
        ∙ after_attempts-agrees conf draws action estimate body created claimed
            (record env { world = w })

    -- Without a cancellation, and with no replay put off, the asynchronous `execute` of a coroutine
    -- does what the synchronous one does with the function of the same effects: the same outcome, the
    -- same requests, journal and background retries, the same context variable and heartbeat. The
    -- claims of the process stay as they were.
    pub async_execute-agrees :
        (conf : DecoratorConfig R) (defaults : Subject) (draws : Draws) (action : GuardedAction J R)
        (claimed : List String) (env : Env J)
        → async_execute s ops cfg load dir server conf defaults draws calm
            (awaited action)
            (inside claimed env)
          ≡ settled_run claimed (execute s ops cfg server conf defaults draws action env)
    unfolding async_execute execute
    async_execute-agrees conf defaults draws action claimed env =
        after_checks-agrees conf draws action _ claimed env
