-- ===== src/Lifecycle/Async/Calm.antt =====
-- Without a cancellation the asynchronous creates and commits are the synchronous ones.
use cycles_client_python.Prelude.{
  ◌≡◌, refl, ap, ℕ, zero, suc, ◌==◌, String, true, false, Option, none, some, List, Bool-cases, inl,
  inr,
}
use cycles_client_python.Json.{Fields}
use cycles_client_python.Exchange.{Server, create_reservation, commit_reservation}
use cycles_client_python.Journal.Record.{PendingCommitRecord}
use cycles_client_python.Journal.Interface.{Journal}
use cycles_client_python.Response.{Schemas}
use cycles_client_python.Retry.Engine.{
  EngineConfig, PendingCommit, World, submit, schedule, schedule_event, send, noted,
  persist_pending,
}
use cycles_client_python.Retry.Replay.{
  Process, catch_up, async_submit, async_schedule, async_schedule_event,
}
use cycles_client_python.Lifecycle.Commit.{
  Plan, discard, retry, recover, wait, carry_out, plan_of_reply, handle_commit,
}
use cycles_client_python.Lifecycle.Create.{verdict_of, create_loop}
use cycles_client_python.Lifecycle.Context.{Env, Finished, GuardedAction}
use cycles_client_python.Lifecycle.Settles.{Verdict-cases}
use cycles_client_python.Retry.Awaiting.{resumes, async_send}
use cycles_client_python.Lifecycle.Async.{
  async_create_loop, async_carry_out, async_answered, async_handle_commit,
}
use cycles_client_python.Lifecycle.Async.Execute.{
  AsyncEnv, resumed, ActionEnd, finished, failed as coroutine_failed, AsyncAction, Awaits,
}

-- The task is cancelled nowhere.
abbrev pub calm : Awaits
calm = record { create = λ left. resumes; commit = resumes; release = resumes }

-- A process with no replay put off.
abbrev pub steady : {J : Type 0} → List String → World J → Process J
steady claimed w = record { world = w; claimed = claimed; replay_deferred = false }

abbrev pub inside : {J : Type 0} → List String → Env J → AsyncEnv J
inside claimed env = record {
  process = steady claimed env.world;
  context = env.context;
  beating = env.beating;
}

abbrev pub end_of : {R : Type 0} → Option (Finished R) → ActionEnd R
end_of none = coroutine_failed
end_of (some fin) = finished fin

-- A guarded coroutine that does what a guarded function does, and leaves the claims of the process.
abbrev pub awaited : {J R : Type 0} → GuardedAction J R → AsyncAction J R
awaited action ctx env =
    let (fin, e) =
      action ctx
        (record { world = env.process.world; context = env.context; beating = env.beating }) in
    (end_of fin, resumed env.process e)

module _ {J : Type 0} (s : Schemas) (server : Server) where
  pub create_loop-agrees :
      (left : ℕ) (body : Fields) (w : World J)
      → async_create_loop s server (λ n. resumes) left body w
        ≡ (let (r, w') = create_loop s server left body w in (some r, w'))
  unfolding async_create_loop create_loop async_send send
  create_loop-agrees zero body w = refl
  create_loop-agrees (suc left) body w =
      let reply = server (create_reservation body) w.exchanges in
      let again = create_loop-agrees left body (noted (create_reservation body) reply w) in
      elim (Verdict-cases (verdict_of s (left == 1) reply)) [
        | inl (c, e) ↦ rw e refl
        | inr (inl e) ↦ rw e again
        | inr (inr (x, e)) ↦ rw e refl
      ]

module _ {J : Type 0} (s : Schemas) (ops : Journal J) (cfg : EngineConfig)
    (load : J → List PendingCommitRecord × J) (dir : String) (server : Server) where
  submit-agrees :
      (x : PendingCommit) (wall : ℕ) (claimed : List String) (w : World J)
      → async_submit load cfg dir ops true x wall (steady claimed w)
        ≡ steady claimed (submit ops cfg x wall w)
  unfolding async_submit submit catch_up
  submit-agrees x wall claimed w = elim (Bool-cases cfg.enabled) [
    | inl e ↦ rw e refl
    | inr e ↦ rw e refl
  ]

  pub carry_out-agrees :
      (plan : Plan) (id : String) (c e : Fields) (wall : ℕ) (claimed : List String) (w : World J)
      → async_carry_out s ops cfg load dir server plan id c e wall (steady claimed w)
        ≡ steady claimed (carry_out s ops cfg server plan id c e wall w)
  unfolding async_carry_out carry_out async_schedule schedule async_schedule_event schedule_event
  carry_out-agrees discard id c e wall claimed w = refl
  carry_out-agrees retry id c e wall claimed w = submit-agrees _ wall claimed w
  carry_out-agrees recover id c e wall claimed w = submit-agrees _ wall claimed w
  carry_out-agrees (wait none) id c e wall claimed w = submit-agrees _ wall claimed w
  carry_out-agrees (wait (some ms)) id c e wall claimed w = submit-agrees _ wall claimed w

  pub handle_commit-agrees :
      (id : String) (c e : Fields) (wall : ℕ) (claimed : List String) (w : World J)
      → async_handle_commit s ops cfg load dir server resumes id c e wall (steady claimed w)
        ≡ (false, steady claimed (handle_commit s ops cfg server id c e wall w))
  unfolding async_handle_commit async_answered async_send handle_commit send
  handle_commit-agrees id c e wall claimed w =
      let w₀ = persist_pending ops cfg id c e wall w in
      let req = commit_reservation id (some c) in
      let reply = server req w₀.exchanges in
      ap (λ p. (false, p))
        (carry_out-agrees (plan_of_reply s ops cfg server reply) id c e reply.wall claimed
          (noted req reply w₀))
