-- ===== src/Lifecycle/Async/Cancelled.antt =====
-- What a guarded coroutine call leaves behind, wherever its task is cancelled.
use cycles_client_python.Prelude.{
  ◌≡◌, refl, ◌∙◌, ap, ℕ, String, Bool, true, false, ◌&&◌, not, none, some, List, is_some, str_eq,
  arith, arith,
}
use cycles_client_python.Json.{Fields}
use cycles_client_python.Models.{contains}
use cycles_client_python.Exchange.{Exchange, Server, commit_reservation}
use cycles_client_python.Journal.Files.{Dir}
use cycles_client_python.Journal.Record.{PendingCommitRecord, JsonText, commit}
use cycles_client_python.Journal.Interface.{Journal}
use cycles_client_python.Journal.Store.{Faults, safe_filename, load_pending}
use cycles_client_python.Journal.Reload.{file_load, file_load-keeps}
use cycles_client_python.Journal.Refines.{IsInjective, TidyDir, file_journal}
use cycles_client_python.Response.{Schemas}
use cycles_client_python.Retry.Engine.{
  EngineConfig, PendingCommit, World, persist_pending, journal_record, send, noted, new_pending,
}
use cycles_client_python.Retry.Replay.{Process, eligible, set_client}
use cycles_client_python.Retry.Replays.{IsIn}
use cycles_client_python.Lifecycle.Commit.{plan_of_reply}
use cycles_client_python.Lifecycle.Reserve.{DecoratorConfig}
use cycles_client_python.Lifecycle.Restart.{IsRecorded, recorded_restarts}
use cycles_client_python.Lifecycle.Settles.{released}
use cycles_client_python.Lifecycle.Spend.{
  settled, commit_reply, committed, plan-settled, reply-persist, exchanges-persist, IsRetryOf,
  kept-journal_record,
}
use cycles_client_python.Lifecycle.Context.{
  CyclesContext, Draws, returned, raised, action_failed, commit_of, event_of,
}
use cycles_client_python.Retry.Awaiting.{
  Await, resumes, cancelled_unsent, cancelled_sent, async_send,
}
use cycles_client_python.Lifecycle.Async.{async_answered, async_handle_commit, async_handle_release}
use cycles_client_python.Lifecycle.Async.Execute.{
  AsyncEnv, ActionEnd, finished, failed, action_cancelled, AsyncAction, AsyncOutcome,
  call_cancelled, Awaits, unless_cut, async_settle, async_run_guarded,
}
use cycles_client_python.Lifecycle.Async.Replaying.{IsKeeping, async_carry_out-Keeps}

-- Whether the wait ended with a `CancelledError`
abbrev pub cut : Await → Bool
cut resumes = false
cut _ = true

-- The history after a request that is awaited: the first if it left, else the second.
abbrev pub sent_on : Await → List Exchange → List Exchange → List Exchange
sent_on cancelled_unsent more xs = xs
sent_on _ more xs = more

module _ (s : Schemas) {J : Type 0} (ops : Journal J) (cfg : EngineConfig)
    (load : J → List PendingCommitRecord × J) (dir : String) (server : Server) where
  -- The record is in the journal unless the task saw an answer that settles the commit.
  abbrev pub IsCommitted : Await → String → Fields → World J → Bool × Process J → Type 0
  IsCommitted await id c w (interrupted, p') =
      (interrupted ≡ cut await)
      × (p'.world.exchanges
          ≡ sent_on await (committed s ops cfg server id c w.exchanges) w.exchanges)
      × (is_some (ops.find p'.world.journal id)
          ≡ not (not (cut await) && settled s (commit_reply s ops cfg server id c w)))

  handle_commit-IsCommitted :
      (await : Await) (id : String) (c e : Fields) (wall : ℕ) (p : Process J)
      → IsKeeping ops load cfg
      → cfg.journal_enabled ≡ true
      → str_eq id "" ≡ false
      → IsCommitted await id c p.world
          (async_handle_commit s ops cfg load dir server await id c e wall p)
  unfolding async_handle_commit async_answered async_send send persist_pending
  handle_commit-IsCommitted resumes id c e wall p keeps on named =
      let w₀ = persist_pending ops cfg id c e wall p.world in
      let reply = commit_reply s ops cfg server id c w₀ in
      let p₁ : Process J = record p { world = noted (commit_reservation id (some c)) reply w₀ } in
      let (quiet, kept) =
        async_carry_out-Keeps s ops cfg load dir server (plan_of_reply s ops cfg server reply) id c
          e reply.wall p₁ keeps on named in
      (
        refl,
        quiet
            ∙ ap (committed s ops cfg server id c)
                (exchanges-persist s ops cfg server id c e wall p.world),
        kept
            ∙ ap not (plan-settled s ops cfg server reply)
            ∙ ap (λ r. not (settled s r)) (reply-persist s ops cfg server id c e wall p.world),
      )
  handle_commit-IsCommitted cancelled_unsent id c e wall p keeps on named = (
    refl,
    exchanges-persist s ops cfg server id c e wall p.world,
    kept-journal_record s ops cfg server (new_pending id (some c) (some e) commit) wall p.world on,
  )
  handle_commit-IsCommitted cancelled_sent id c e wall p keeps on named = (
    refl,
    ap (committed s ops cfg server id c) (exchanges-persist s ops cfg server id c e wall p.world),
    kept-journal_record s ops cfg server (new_pending id (some c) (some e) commit) wall p.world on,
  )

  -- At most the release is sent, and nothing else changes.
  abbrev pub IsReleased : Await → String → String → Process J → Process J → Type 0
  IsReleased await id key p p' =
      (p'.world.exchanges
        ≡ sent_on await (released server id key p.world.exchanges) p.world.exchanges)
      × (p'.world.journal ≡ p.world.journal)
      × (p'.world.spawned ≡ p.world.spawned)

  handle_release-IsReleased :
      (await : Await) (id key : String) (p : Process J)
      → let (interrupted, p') =
          async_handle_release s ops cfg load dir server await id "guarded_method_failed" key p in
        (interrupted ≡ cut await) × IsReleased await id key p p'
  unfolding async_handle_release async_send send
  handle_release-IsReleased resumes id key p = (refl, (refl, refl, refl))
  handle_release-IsReleased cancelled_unsent id key p = (refl, (refl, refl, refl))
  handle_release-IsReleased cancelled_sent id key p = (refl, (refl, refl, refl))

  -- A cancelled commit schedules nothing, and leaves the record that a retry would leave.
  pub cancelled_commit :
      (await : Await) (id : String) (c e : Fields) (wall : ℕ) (p : Process J)
      → cut await ≡ true
      → cfg.journal_enabled ≡ true
      → let p' = (async_handle_commit s ops cfg load dir server await id c e wall p).1 in
        (p'.world.spawned ≡ p.world.spawned)
        × IsRecorded s ops cfg server id c e p.world.journal p'.world.journal
  unfolding async_handle_commit async_answered async_send send persist_pending journal_record
      new_pending
  cancelled_commit resumes id c e wall p gone on = cc
  cancelled_commit cancelled_unsent id c e wall p gone on =
      (ground arith, (new_pending id (some c) (some e) commit, wall, ground arith, ground arith))
  cancelled_commit cancelled_sent id c e wall p gone on =
      (ground arith, (new_pending id (some c) (some e) commit, wall, ground arith, ground arith))

  module _ {R : Type 0} where
    -- How a guarded coroutine that ended this way leaves the call.
    abbrev pub IsSettledBy :
        DecoratorConfig R
        → Draws
        → Awaits
        → CyclesContext
        → ActionEnd R
        → Process J
        → AsyncOutcome R
        → Process J
        → Type 0
    IsSettledBy conf draws awaits ctx (finished fin) p outcome p' =
        let body = commit_of conf ctx.estimate fin draws.commit_key in
        (outcome ≡ unless_cut (cut awaits.commit) (returned fin.result))
        × IsCommitted awaits.commit ctx.reservation_id body p.world (cut awaits.commit, p')
    IsSettledBy conf draws awaits ctx failed p outcome p' =
        (outcome ≡ unless_cut (cut awaits.release) (raised action_failed))
        × IsReleased awaits.release ctx.reservation_id draws.release_key p p'
    IsSettledBy conf draws awaits ctx action_cancelled p outcome p' =
        (outcome ≡ call_cancelled)
        × IsReleased awaits.release ctx.reservation_id draws.release_key p p'

    settle-IsSettledBy :
        (conf : DecoratorConfig R) (draws : Draws) (awaits : Awaits) (ctx : CyclesContext)
        (create_body : Fields) (end : ActionEnd R) (p : Process J)
        → IsKeeping ops load cfg
        → cfg.journal_enabled ≡ true
        → str_eq ctx.reservation_id "" ≡ false
        → let (outcome, p') =
            async_settle s ops cfg load dir server conf draws awaits ctx.reservation_id ctx.estimate
              create_body end p in
          IsSettledBy conf draws awaits ctx end p outcome p'
    unfolding async_settle
    settle-IsSettledBy conf draws awaits ctx create_body (finished fin) p keeps on named =
        let id = ctx.reservation_id in
        let c = commit_of conf ctx.estimate fin draws.commit_key in
        let (out, sent, kept) =
          handle_commit-IsCommitted awaits.commit id c (event_of id create_body c) draws.wall p
            keeps on named in
        (ap (λ b. unless_cut b (returned fin.result)) out, (refl, sent, kept))
    settle-IsSettledBy conf draws awaits ctx create_body failed p keeps on named =
        let (out, left) =
          handle_release-IsReleased awaits.release ctx.reservation_id draws.release_key p in
        (ap (λ b. unless_cut b (raised action_failed)) out, left)
    settle-IsSettledBy conf draws awaits ctx create_body action_cancelled p keeps on named =
        (refl, (handle_release-IsReleased awaits.release ctx.reservation_id draws.release_key p).1)

    pub run_guarded-settled :
        (conf : DecoratorConfig R) (draws : Draws) (awaits : Awaits) (action : AsyncAction J R)
        (ctx : CyclesContext) (create_body : Fields) (env : AsyncEnv J)
        → IsKeeping ops load cfg
        → cfg.journal_enabled ≡ true
        → str_eq ctx.reservation_id "" ≡ false
        → let (end, env₁) = action ctx (record env { context = some ctx; beating = true }) in
          let (outcome, env') =
            async_run_guarded s ops cfg load dir server conf draws awaits action ctx create_body
              env in
          (env'.context ≡ none)
          × (env'.beating ≡ false)
          × IsSettledBy conf draws awaits ctx end env₁.process outcome env'.process
    unfolding async_run_guarded
    run_guarded-settled conf draws awaits action ctx create_body env keeps on named =
        let (end, env₁) = action ctx (record env { context = some ctx; beating = true }) in
        (
          refl,
          refl,
          settle-IsSettledBy conf draws awaits ctx create_body end env₁.process keeps on named,
        )

-- Over the files of the journal, written and read without a fault, and a digest without collisions:
-- with the journal enabled and an identified reservation, for every guarded coroutine, wherever the
-- task is cancelled, and whether or not the engine still has to replay its journal: afterwards the
-- context variable is cleared and the heartbeat is stopped. If the coroutine raised or was cancelled,
-- at most the release is sent, nothing is journaled or scheduled, and the call raises that exception,
-- or a `CancelledError` if it or the release was cancelled. If it finished, nothing but the commit is
-- sent, never a release; the call returns the result, or is cancelled if the commit was; and the
-- reservation is in the journal exactly if the task did not see an answer that settles the commit.
pub async_run_guarded_settles :
    (sha256 : String → String) {Text : Type 0} (json : JsonText Text)
    (inj : IsInjective sha256 json) (unique : String) (stale : String → Bool) (s : Schemas)
    (cfg : EngineConfig) (dir : String) (server : Server) {R : Type 0} (conf : DecoratorConfig R)
    (draws : Draws) (awaits : Awaits) (action : AsyncAction (TidyDir sha256 json) R)
    (ctx : CyclesContext) (create_body : Fields) (env : AsyncEnv (TidyDir sha256 json))
    → cfg.journal_enabled ≡ true
    → str_eq ctx.reservation_id "" ≡ false
    → let ops = file_journal sha256 json inj unique in
      let load = file_load sha256 json inj stale cfg.base_url in
      let (end, env₁) = action ctx (record env { context = some ctx; beating = true }) in
      let (outcome, env') =
        async_run_guarded s ops cfg load dir server conf draws awaits action ctx create_body env in
      (env'.context ≡ none)
      × (env'.beating ≡ false)
      × IsSettledBy s ops cfg load dir server conf draws awaits ctx end env₁.process outcome
          env'.process
async_run_guarded_settles sha256 json inj unique stale s cfg dir server conf draws awaits action ctx
      create_body env on named =
    run_guarded-settled s (file_journal sha256 json inj unique) cfg
      (file_load sha256 json inj stale cfg.base_url) dir server conf draws awaits action ctx
      create_body env (file_load-keeps sha256 json inj unique stale cfg.base_url) on named

-- A task that is cancelled while it awaits the commit of an identified reservation schedules no
-- retry in its process. With the journal enabled, files written without a fault and a digest without
-- collisions, its spend is not lost: the next process that claims the directory for the same server
-- and can read the record's file hands a retry of this spend to its engine.
pub cancelled_commit_restarts :
    (sha256 : String → String) {Text : Type 0} (json : JsonText Text) (f : Faults)
    (inj : IsInjective sha256 json) (unique : String) (s : Schemas) (cfg next : EngineConfig)
    (load : TidyDir sha256 json → List PendingCommitRecord × TidyDir sha256 json) (dir : String)
    (server : Server) (await : Await) (id : String) (c e : Fields) (wall wall' : ℕ)
    (p : Process (TidyDir sha256 json)) (stale : String → Bool) (t : Process (Dir Text))
    → cut await ≡ true
    → cfg.journal_enabled ≡ true
    → str_eq id "" ≡ false
    → let ops = file_journal sha256 json inj unique in
      let p' = (async_handle_commit s ops cfg load dir server await id c e wall p).1 in
      t.world.journal ≡ p'.world.journal.0
      → f.unreadable (safe_filename sha256 json id) ≡ false
      → contains t.claimed dir ≡ false
      → next.base_url ≡ cfg.base_url
      → eligible next ≡ true
      → let t' = set_client (load_pending sha256 json f stale next.base_url) next dir wall' t in
        (p'.world.spawned ≡ p.world.spawned)
        × ((q : PendingCommit) × IsRetryOf s ops cfg server id c e q × IsIn q t'.world.spawned)
cancelled_commit_restarts sha256 json f inj unique s cfg next load dir server await id c e wall
      wall' p stale t gone on named left readable free url able =
    let ops = file_journal sha256 json inj unique in
    let (idle, recorded) = cancelled_commit s ops cfg load dir server await id c e wall p gone on in
    (
      idle,
      recorded_restarts sha256 json f inj unique s cfg next server id c e wall' p.world.journal _
          stale dir t named recorded left readable free url able,
    )
