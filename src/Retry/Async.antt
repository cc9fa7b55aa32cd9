-- ===== src/Retry/Async.antt =====
-- runcycles/retry.py: `_retry_loop` and `_attempt_once` of `AsyncCommitRetryEngine`, with the
-- cancellations of its task, in the sleep and in each request.
pub mod Attempts
pub mod Cancelled
use cycles_client_python.Prelude.{ℕ, zero, suc, Bool, true, false, Option, none, some, ltb}
use cycles_client_python.Exchange.{Server, commit_reservation, create_event}
use cycles_client_python.Journal.Record.{Mode, commit, event}
use cycles_client_python.Journal.Interface.{Journal}
use cycles_client_python.Response.{Schemas}
use cycles_client_python.Retry.Engine.{EngineConfig, PendingCommit, World}
use cycles_client_python.Retry.Awaiting.{Await, async_send}
use cycles_client_python.Retry.Loop.{
  Verdict, terminal, retry, threw, received_event, received_commit, next_attempt, End, finished,
  no_client, exhausted,
}

-- What becomes of the task in one round: whether it is cancelled in the sleep, and at the commit and
-- the event that it may send.
pub record RoundAwaits : Type 0 where
  pub asleep : Bool
  pub commit : Await
  pub event : Await

-- How a task ends.
pub data TaskEnd : Type 0 where
  ended : End → TaskEnd
  task_cancelled : TaskEnd

module _ (s : Schemas) {J : Type 0} (ops : Journal J) (cfg : EngineConfig) (server : Server) where
  -- `_attempt_once` in event mode; `none` is the `CancelledError`.
  unfoldable pub async_attempt_event :
      Await → PendingCommit → World J → Option Verdict × PendingCommit × World J
  unfolding async_send
  async_attempt_event await p w =
      let (reply, w₁) = async_send server await (create_event p.event_fallback_body) w in
      elim reply [
        | none ↦ (none, p, w₁)
        | some r ↦ let (v, p', w') = received_event s ops cfg server p (r, w₁) in (some v, p', w')
      ]

  -- `if not terminal and pending.mode == "event"`
  unfoldable pub async_after_commit :
      Await → Mode → Verdict × PendingCommit × World J → Option Verdict × PendingCommit × World J
  unfolding async_attempt_event
  async_after_commit await event (retry, p, w) = async_attempt_event await p w
  async_after_commit await m (v, p, w) = (some v, p, w)

  unfoldable pub async_attempt_commit :
      RoundAwaits → PendingCommit → World J → Option Verdict × PendingCommit × World J
  unfolding async_send async_after_commit
  async_attempt_commit awaits p w =
      let req = commit_reservation p.reservation_id p.commit_body in
      let (reply, w₁) = async_send server awaits.commit req w in
      elim reply [
        | none ↦ (none, p, w₁)
        | some r ↦
            let out = received_commit s ops cfg server p (r, w₁) in
            async_after_commit awaits.event out.1.mode out
      ]

  unfoldable pub async_attempt_in :
      Mode → RoundAwaits → PendingCommit → World J → Option Verdict × PendingCommit × World J
  unfolding async_attempt_commit async_attempt_event
  async_attempt_in commit awaits p w = async_attempt_commit awaits p w
  async_attempt_in event awaits p w = async_attempt_event awaits.event p w

  abbrev pub async_resume :
      (PendingCommit → World J → Option (TaskEnd × PendingCommit × World J))
      → Option Verdict × PendingCommit × World J
      → Option (TaskEnd × PendingCommit × World J)
  async_resume rest (none, p, w) = some (task_cancelled, p, w)
  async_resume rest (some terminal, p, w) = some (ended finished, p, w)
  async_resume rest (some retry, p, w) = rest p w
  async_resume rest (some threw, p, w) = rest p w

  -- `_retry_loop`; `none` only if the fuel ran out. A task that is cancelled in its sleep has counted
  -- the attempt.
  unfoldable pub async_retry_loop :
      ℕ → (ℕ → RoundAwaits) → PendingCommit → World J → Option (TaskEnd × PendingCommit × World J)
  unfolding next_attempt async_attempt_in
  async_retry_loop zero awaits p w = none
  async_retry_loop (suc fuel) awaits p w = elim (ltb p.attempt cfg.max_attempts) [
    | false ↦ some (ended exhausted, p, w)
    | true ↦
        let (p₁, w₁) = next_attempt s ops cfg server p w in
        elim (awaits fuel).asleep [
          | true ↦ some (task_cancelled, p₁, w₁)
          | false ↦ elim cfg.client_set [
            | false ↦ some (ended no_client, p₁, w₁)
            | true ↦
                async_resume (async_retry_loop fuel awaits)
                  (async_attempt_in p₁.mode (awaits fuel) p₁ w₁)
          ]
        ]
  ]
