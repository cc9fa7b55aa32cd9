-- ===== src/Lifecycle/Async.antt =====
-- runcycles/lifecycle.py: the suspension points of `AsyncCyclesLifecycle`,
-- `_create_reservation_with_recovery_async`, and its `_handle_commit` and `_handle_release`.
-- A task may be cancelled at each of its `await`s; a `CancelledError` passes every `except Exception`.
pub mod Execute
pub mod Calm
pub mod Agrees
pub mod Replaying
pub mod Cancelled
use cycles_client_python.Prelude.{
  ℕ, zero, suc, String, Bool, true, false, Option, none, some, List, ◌==◌, Result, ok, err,
}
use cycles_client_python.Json.{Fields}
use cycles_client_python.Exchange.{
  Request, Server, Reply, create_reservation, commit_reservation, release_reservation,
}
use cycles_client_python.Journal.Record.{PendingCommitRecord}
use cycles_client_python.Journal.Interface.{Journal}
use cycles_client_python.Response.{Schemas}
use cycles_client_python.Retry.Engine.{EngineConfig, World, journal_discard, persist_pending, send}
use cycles_client_python.Retry.Awaiting.{Await, async_send}
use cycles_client_python.Retry.Replay.{Process, async_schedule, async_schedule_event}
use cycles_client_python.Lifecycle.Bodies.{build_release_body}
use cycles_client_python.Lifecycle.Commit.{Plan, discard, retry, recover, wait, plan_of_reply}
use cycles_client_python.Lifecycle.Create.{
  Created, CreateError, unreachable, Verdict, done, again, failed, verdict_of,
}

module _ (s : Schemas) {J : Type 0} (server : Server) where
  -- `for attempt in range(2)`, of which `left` are left; `none` is the `CancelledError`.
  unfoldable pub async_create_loop :
      (ℕ → Await) → ℕ → Fields → World J → Option (Result CreateError Created) × World J
  unfolding verdict_of async_send
  async_create_loop awaits zero body w = (some (err unreachable), w)
  async_create_loop awaits (suc left) body w =
      let (reply, w₁) = async_send server (awaits left) (create_reservation body) w in
      let rest = async_create_loop awaits left body w₁ in
      elim reply [
        | none ↦ (none, w₁)
        | some r ↦ elim (verdict_of s (left == 1) r) [
          | done c ↦ (some (ok c), w₁)
          | again ↦ rest
          | failed e ↦ (some (err e), w₁)
        ]
      ]

  unfoldable pub async_create_reservation_with_recovery :
      (ℕ → Await) → Fields → World J → Option (Result CreateError Created) × World J
  unfolding async_create_loop
  async_create_reservation_with_recovery awaits body w = async_create_loop awaits 2 body w

-- `load` is `load_pending` of the engine's journal, and `dir` its directory.
module _ (s : Schemas) {J : Type 0} (ops : Journal J) (cfg : EngineConfig)
    (load : J → List PendingCommitRecord × J) (dir : String) (server : Server) where
  unfoldable pub async_carry_out : Plan → String → Fields → Fields → ℕ → Process J → Process J
  unfolding async_schedule async_schedule_event journal_discard
  async_carry_out discard id commit_body event_body wall p = record p {
    world = journal_discard ops cfg id p.world;
  }
  async_carry_out retry id commit_body event_body wall p =
      async_schedule load cfg dir ops id commit_body event_body none wall p
  async_carry_out recover id commit_body event_body wall p =
      async_schedule_event load cfg dir ops id event_body wall p
  async_carry_out (wait ms) id commit_body event_body wall p =
      async_schedule load cfg dir ops id commit_body event_body ms wall p

  unfoldable pub async_answered :
      Option Reply → String → Fields → Fields → Process J → Bool × Process J
  unfolding async_carry_out plan_of_reply
  async_answered none id commit_body event_body p = (true, p)
  async_answered (some reply) id commit_body event_body p = (
    false,
    async_carry_out (plan_of_reply s ops cfg server reply) id commit_body event_body reply.wall p,
  )

  -- `_handle_commit`; whether it raises the `CancelledError`.
  unfoldable pub async_handle_commit :
      Await → String → Fields → Fields → ℕ → Process J → Bool × Process J
  unfolding async_answered async_send persist_pending
  async_handle_commit await id commit_body event_body wall p =
      let w₀ = persist_pending ops cfg id commit_body event_body wall p.world in
      let (reply, w₁) = async_send server await (commit_reservation id (some commit_body)) w₀ in
      async_answered reply id commit_body event_body (record p { world = w₁ })

  -- `_handle_release`; whether it raises the `CancelledError`.
  unfoldable pub async_handle_release :
      Await → String → String → String → Process J → Bool × Process J
  unfolding async_send build_release_body
  async_handle_release await id reason fresh p =
      let req = release_reservation id (build_release_body reason none fresh) in
      let (reply, w₁) = async_send server await req p.world in
      (elim reply [ none ↦ true | some r ↦ false ], record p { world = w₁ })
