-- ===== src/Retry/Loop.antt =====
-- runcycles/retry.py: one attempt, and the loop of `CommitRetryEngine` and `AsyncCommitRetryEngine`
-- (whose bodies differ in `await` only).
use cycles_client_python.Prelude.{
  ℕ, zero, suc, ◌+◌, Bool, true, false, Option, none, some, ◌∷◌, ltb, Result, ok, err,
}
use cycles_client_python.Exchange.{Server, Reply, commit_reservation, create_event}
use cycles_client_python.Journal.Record.{Mode, commit, event}
use cycles_client_python.Journal.Interface.{Journal}
use cycles_client_python.Response.{Schemas, Raised}
use cycles_client_python.Retry.Engine.{EngineConfig, PendingCommit, World, delay_for, send}
use cycles_client_python.Retry.Classify.{classify_commit_response, classify_event_response}

-- What `_attempt_once` returns, or that it raised.
pub data Verdict : Type 0 where
  terminal retry threw : Verdict

pub data End : Type 0 where
  finished no_client exhausted : End

abbrev pub verdict_of : Bool → Verdict
verdict_of true = terminal
verdict_of false = retry

module _ {J : Type 0} where
  -- A raised classification has changed nothing but the history.
  abbrev pub concluded :
      PendingCommit
      → World J
      → Result Raised (Bool × PendingCommit × World J)
      → Verdict × PendingCommit × World J
  concluded p w (err e) = (threw, p, w)
  concluded p w (ok (t, p', w')) = (verdict_of t, p', w')

  -- The loop goes on after an attempt that is not terminal, and after an exception.
  abbrev pub resume :
      (PendingCommit → World J → Option (End × PendingCommit × World J))
      → Verdict × PendingCommit × World J
      → Option (End × PendingCommit × World J)
  resume rest (terminal, p, w) = some (finished, p, w)
  resume rest (retry, p, w) = rest p w
  resume rest (threw, p, w) = rest p w

module _ (s : Schemas) {J : Type 0} (ops : Journal J) (cfg : EngineConfig) (server : Server) where
  abbrev pub received_event : PendingCommit → Reply × World J → Verdict × PendingCommit × World J
  received_event p (reply, w) = elim reply.outcome [
    | none ↦ (threw, p, w)
    | some r ↦ concluded p w (classify_event_response s ops cfg p r reply.wall w)
  ]

  -- `_attempt_once` in event mode
  unfoldable pub attempt_event : PendingCommit → World J → Verdict × PendingCommit × World J
  attempt_event p w = received_event p (send server (create_event p.event_fallback_body) w)

  abbrev pub received_commit : PendingCommit → Reply × World J → Verdict × PendingCommit × World J
  received_commit p (reply, w) = elim reply.outcome [
    | none ↦ (threw, p, w)
    | some r ↦ concluded p w (classify_commit_response s ops cfg p r reply.wall w)
  ]

  -- `if not terminal and pending.mode == "event"`: the fallback is delivered at once.
  unfoldable pub after_commit :
      Mode → Verdict × PendingCommit × World J → Verdict × PendingCommit × World J
  after_commit event (retry, p, w) = attempt_event p w
  after_commit m (v, p, w) = (v, p, w)

  unfoldable pub attempt_commit : PendingCommit → World J → Verdict × PendingCommit × World J
  unfolding after_commit
  attempt_commit p w =
      let out =
        received_commit p (send server (commit_reservation p.reservation_id p.commit_body) w) in
      after_commit out.1.mode out

  unfoldable pub attempt_in : Mode → PendingCommit → World J → Verdict × PendingCommit × World J
  attempt_in commit = attempt_commit
  attempt_in event = attempt_event

  -- `_attempt_once`
  unfoldable pub attempt_once : PendingCommit → World J → Verdict × PendingCommit × World J
  unfolding attempt_in
  attempt_once p w = attempt_in p.mode p w

  -- The delay, the count and the sleep at the head of the loop's body.
  unfoldable pub next_attempt : PendingCommit → World J → PendingCommit × World J
  unfolding delay_for
  next_attempt p w =
      let (delay, p') = delay_for cfg p in
      (record p' { attempt = p'.attempt + 1 }, record w { sleeps = delay ∷ w.sleeps })

  -- `_retry_loop`; `none` only if the fuel ran out.
  unfoldable pub retry_loop : ℕ → PendingCommit → World J → Option (End × PendingCommit × World J)
  retry_loop zero p w = none
  retry_loop (suc fuel) p w = elim (ltb p.attempt cfg.max_attempts) [
    | false ↦ some (exhausted, p, w)
    | true ↦
        let (p₁, w₁) = next_attempt p w in
        elim cfg.client_set [
          | false ↦ some (no_client, p₁, w₁)
          | true ↦ resume (retry_loop fuel) (attempt_once p₁ w₁)
        ]
  ]
