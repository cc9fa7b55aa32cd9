-- ===== src/Lifecycle/Settles.antt =====
-- What a guarded call leaves behind on each of its paths.
use cycles_client_python.Prelude.{
  ◌≡◌, refl, ◌⊎◌, inl, inr, ◌∙◌, ap, ℕ, ◌≤◌, pos, String, true, false, not, Option, none, some,
  List, ◌∷◌, Result, ok, err, is_some, arith, zero, suc, ◌==◌, Bool-cases,
}
use cycles_client_python.Json.{int, Fields}
use cycles_client_python.Models.{Subject, is_denied}
use cycles_client_python.Exchange.{Exchange, Server, release_reservation, create_reservation}
use cycles_client_python.Journal.Interface.{Journal}
use cycles_client_python.Response.{Schemas, Raised}
use cycles_client_python.Response.RetryAfter.{int64_max}
use cycles_client_python.Retry.Engine.{EngineConfig, World, send, noted}
use cycles_client_python.Validation.{validate_non_negative}
use cycles_client_python.Lifecycle.Bodies.{build_release_body}
use cycles_client_python.Lifecycle.Commit.{handle_release}
use cycles_client_python.Lifecycle.Create.{
  Created, CreateError, Verdict, done, again, failed, verdict_of, create_loop,
  create_reservation_with_recovery,
}
use cycles_client_python.Lifecycle.Reserve.{DecoratorConfig}
use cycles_client_python.Lifecycle.Spend.{
  settled, commit_reply, committed, handle_commit-durable, handle_commit_retries,
}
use cycles_client_python.Lifecycle.Context.{
  CyclesContext, Env, Finished, GuardedAction, Draws, Outcome, returned, raised, action_failed,
  evaluate_actual, resolve_actual, commit_of, event_of,
}
use cycles_client_python.Lifecycle.Execute.{
  settle, run_guarded, after_create, after_attempts, after_checks, execute,
}

-- The amount that is committed fits a signed 64-bit number when the estimate does. It is either the
-- estimate, marked as assumed, or exactly the valid number that the configuration's actual gave.
pub resolve_actual_lem :
    {R : Type 0} (cfg : DecoratorConfig R) (result : R) (estimate : ℕ)
    → estimate ≤ int64_max
    → let (amount, assumed) = resolve_actual cfg result estimate in
      (amount ≤ int64_max)
      × ((assumed ≡ true) × (amount ≡ estimate)
          ⊎ (evaluate_actual cfg.actual result estimate cfg.use_estimate_if_actual_not_provided
              ≡ some (int (pos amount))))
unfolding resolve_actual validate_non_negative
resolve_actual_lem cfg result estimate le = ground arith

pub Verdict-cases :
    (v : Verdict)
    → ((c : Created) × (v ≡ done c)) ⊎ ((v ≡ again) ⊎ ((e : CreateError) × (v ≡ failed e)))
Verdict-cases (done c) = inl (c, refl)
Verdict-cases again = inr (inl refl)
Verdict-cases (failed e) = inr (inr (e, refl))

module _ (s : Schemas) {J : Type 0} (server : Server) where
  pub create_quiet :
      (left : ℕ) (body : Fields) (w : World J)
      → let (r, w') = create_loop s server left body w in
        (w'.journal ≡ w.journal) × (w'.spawned ≡ w.spawned)
  unfolding create_loop send
  create_quiet zero body w = (refl, refl)
  create_quiet (suc left) body w =
      let reply = server (create_reservation body) w.exchanges in
      let (kept, idle) = create_quiet left body (noted (create_reservation body) reply w) in
      elim (Verdict-cases (verdict_of s (left == 1) reply)) [
        | inl (c, e) ↦ rw e (refl, refl)
        | inr (inl e) ↦ rw e (kept, idle)
        | inr (inr (x, e)) ↦ rw e (refl, refl)
      ]

module _ (server : Server) where
  -- The history with the release and its reply
  abbrev pub released : String → String → List Exchange → List Exchange
  released id key xs =
      let req = release_reservation id (build_release_body "guarded_method_failed" none key) in
      record { request = req; reply = server req xs } ∷ xs

module _ (s : Schemas) {J R : Type 0} (ops : Journal J) (engine : EngineConfig)
    (server : Server) where
  -- A failed action releases, and touches neither the journal nor the retries. A finished one
  -- returns its result and commits, and its spend is in the journal unless the answer settled it.
  abbrev pub IsSettled :
      DecoratorConfig R
      → Draws
      → CyclesContext
      → Option (Finished R)
      → World J
      → Outcome R
      → World J
      → Type 0
  IsSettled cfg draws ctx none w outcome w' =
      (outcome ≡ raised action_failed)
      × (w'.exchanges ≡ released server ctx.reservation_id draws.release_key w.exchanges)
      × (w'.journal ≡ w.journal)
      × (w'.spawned ≡ w.spawned)
  IsSettled cfg draws ctx (some fin) w outcome w' =
      let id = ctx.reservation_id in
      let body = commit_of cfg ctx.estimate fin draws.commit_key in
      (outcome ≡ returned fin.result)
      × (w'.exchanges ≡ committed s ops engine server id body w.exchanges)
      × (is_some (ops.find w'.journal id)
          ≡ not (settled s (commit_reply s ops engine server id body w)))

  settle_lem :
      (cfg : DecoratorConfig R) (draws : Draws) (ctx : CyclesContext) (create_body : Fields)
      (fin : Option (Finished R)) (w : World J)
      → engine.enabled ≡ true
      → engine.journal_enabled ≡ true
      → let (outcome, w') =
          settle s ops engine server cfg draws ctx.reservation_id ctx.estimate create_body fin w in
        IsSettled cfg draws ctx fin w outcome w'
  unfolding settle handle_release send
  settle_lem cfg draws ctx create_body none w on kept = (refl, refl, refl, refl)
  settle_lem cfg draws ctx create_body (some fin) w on kept =
      let id = ctx.reservation_id in
      let c = commit_of cfg ctx.estimate fin draws.commit_key in
      let e = event_of id create_body c in
      (
        refl,
        (handle_commit_retries s ops engine server id c e draws.wall w on).0,
        handle_commit-durable s ops engine server id c e draws.wall w kept,
      )

  -- With retries and the journal enabled, for every guarded action: after a guarded call the context
  -- variable is cleared and the heartbeat is stopped. If the action raised, the call raises that
  -- exception after exactly one release of the reservation, and nothing is journaled or scheduled. If
  -- it returned, the call returns its result after exactly one commit, never a release, and the
  -- reservation is in the journal exactly if the answer did not settle the commit.
  pub run_guarded_settles :
      (cfg : DecoratorConfig R) (draws : Draws) (action : GuardedAction J R) (ctx : CyclesContext)
      (create_body : Fields) (env : Env J)
      → engine.enabled ≡ true
      → engine.journal_enabled ≡ true
      → let (fin, env₁) = action ctx (record env { context = some ctx; beating = true }) in
        let (outcome, env') =
          run_guarded s ops engine server cfg draws action ctx create_body env in
        (env'.context ≡ none)
        × (env'.beating ≡ false)
        × IsSettled cfg draws ctx fin env₁.world outcome env'.world
  unfolding run_guarded
  run_guarded_settles cfg draws action ctx create_body env on kept =
      let (fin, env₁) = action ctx (record env { context = some ctx; beating = true }) in
      (refl, refl, settle_lem cfg draws ctx create_body fin env₁.world on kept)

  after_create_dry :
      (cfg : DecoratorConfig R) (draws : Draws) (a b : GuardedAction J R) (estimate : ℕ)
      (body : Fields) (c : Created) (env : Env J)
      → cfg.dry_run ≡ true
      → let (outcome, env') = after_create s ops engine server cfg draws a estimate body c env in
        (after_create s ops engine server cfg draws b estimate body c env ≡ (outcome, env'))
        × (env' ≡ env)
  unfolding after_create
  after_create_dry cfg draws a b estimate body c env dry =
      elim (Bool-cases (is_denied c.result.decision)) [
        | inl e ↦ rw (dry, e) (refl, refl)
        | inr e ↦ rw (dry, e) (refl, refl)
      ]

  -- What a call that ran no guarded action leaves: the same with any other action, and the context
  -- variable, the heartbeat, the journal and the scheduled retries as they were.
  abbrev pub IsQuiet : Env J → Outcome R × Env J → Outcome R × Env J → Type 0
  IsQuiet env ran other =
      (other ≡ ran)
      × (ran.1.context ≡ env.context)
      × (ran.1.beating ≡ env.beating)
      × (ran.1.world.journal ≡ env.world.journal)
      × (ran.1.world.spawned ≡ env.world.spawned)

  after_attempts_dry :
      (cfg : DecoratorConfig R) (draws : Draws) (a b : GuardedAction J R) (estimate : ℕ)
      (body : Fields) (r : Result CreateError Created) (env : Env J)
      → cfg.dry_run ≡ true
      → let (outcome, env') = after_attempts s ops engine server cfg draws a estimate body r env in
        (after_attempts s ops engine server cfg draws b estimate body r env ≡ (outcome, env'))
        × (env' ≡ env)
  unfolding after_attempts
  after_attempts_dry cfg draws a b estimate body (err e) env dry = (refl, refl)
  after_attempts_dry cfg draws a b estimate body (ok c) env dry =
      after_create_dry cfg draws a b estimate body c env dry

  after_checks_dry :
      (cfg : DecoratorConfig R) (draws : Draws) (a b : GuardedAction J R)
      (r : Result Raised (ℕ × Fields)) (env : Env J)
      → cfg.dry_run ≡ true
      → IsQuiet env
          (after_checks s ops engine server cfg draws a r env)
          (after_checks s ops engine server cfg draws b r env)
  unfolding after_checks create_reservation_with_recovery
  after_checks_dry cfg draws a b (err e) env dry = (refl, refl, refl, refl, refl)
  after_checks_dry cfg draws a b (ok (estimate, body)) env dry =
      let (created, w) = create_reservation_with_recovery s server body env.world in
      let (same, left) =
        after_attempts_dry cfg draws a b estimate body created (record env { world = w }) dry in
      let (kept, idle) = create_quiet s server 2 body env.world in
      (
        same,
        ap (λ e. e.context) left,
        ap (λ e. e.beating) left,
        ap (λ e. e.world.journal) left ∙ kept,
        ap (λ e. e.world.spawned) left ∙ idle,
      )

  -- A dry run never runs the guarded action: the call comes to the same with any other action. It
  -- leaves the context variable, the heartbeat, the journal and the scheduled retries as they were.
  pub execute_dry_run :
      (cfg : DecoratorConfig R) (defaults : Subject) (draws : Draws) (a b : GuardedAction J R)
      (env : Env J)
      → cfg.dry_run ≡ true
      → IsQuiet env
          (execute s ops engine server cfg defaults draws a env)
          (execute s ops engine server cfg defaults draws b env)
  unfolding execute
  execute_dry_run cfg defaults draws a b env dry = after_checks_dry cfg draws a b _ env dry
