-- ===== src/Retry/Engine.antt =====
-- runcycles/retry.py: the state of `_RetryEngineBase`, its journal calls and its delays.
-- Durations and clocks count microseconds, so a number of seconds or milliseconds of the source is
-- scaled, and what a float would round is rounded down to a microsecond.
use cycles_client_python.Prelude.{
  ℕ, ◌+◌, ◌*◌, ◌/◌, ◌^◌, min, max, String, Bool, Option, none, some, List, ◌∷◌, if◌then◌else◌,
}
use cycles_client_python.Json.{Fields}
use cycles_client_python.Exchange.{Request, Exchange, Server, Reply}
use cycles_client_python.Journal.Record.{PendingCommitRecord, Mode, commit, event}
use cycles_client_python.Journal.Interface.{Journal}

-- `_MAX_HONORED_DELAY_S`
abbrev pub max_honored_delay : ℕ
max_honored_delay = 3600000000

-- The multiplier is the fraction `multiplier_num / multiplier_den`.
pub record EngineConfig : Type 0 where
  pub enabled : Bool
  pub max_attempts : ℕ
  pub initial_delay : ℕ
  pub multiplier_num : ℕ
  pub multiplier_den : ℕ
  pub max_delay : ℕ
  pub base_url : String
  pub journal_enabled : Bool
  pub client_set : Bool

-- `_PendingCommit`
pub record PendingCommit : Type 0 where
  pub reservation_id : String
  pub commit_body : Option Fields
  pub event_fallback_body : Option Fields
  pub mode : Mode
  pub attempt : ℕ
  pub retry_after : Option ℕ

-- The journal directory, all requests sent (newest first), the delays slept through (newest
-- first), and the retries handed to a background thread or task (newest first).
pub record World (J : Type 0) : Type 0 where
  pub journal : J
  pub exchanges : List Exchange
  pub sleeps : List ℕ
  pub spawned : List PendingCommit

unfoldable pub new_pending : String → Option Fields → Option Fields → Mode → PendingCommit
new_pending id commit_body event_body mode = record {
  reservation_id = id;
  commit_body = commit_body;
  event_fallback_body = event_body;
  mode = mode;
  attempt = 0;
  retry_after = none;
}

-- `int(time.time() * 1000 + pending.retry_after_s * 1000)`
unfoldable pub not_before : ℕ → Option ℕ → Option ℕ
not_before wall none = none
not_before wall (some delay) = some ((wall + delay) / 1000)

unfoldable pub entry_of : EngineConfig → PendingCommit → ℕ → PendingCommitRecord
unfolding not_before
entry_of cfg p wall = record {
  reservation_id = p.reservation_id;
  base_url = cfg.base_url;
  mode = p.mode;
  commit_body = p.commit_body;
  event_fallback_body = p.event_fallback_body;
  recorded_at_ms = wall / 1000;
  not_before_ms = not_before wall p.retry_after;
}

-- `_delay_for`: the delay, and the pending commit with its Retry-After used up.
unfoldable pub backoff : EngineConfig → ℕ → ℕ
backoff cfg attempt =
    min (cfg.initial_delay * cfg.multiplier_num ^ attempt / cfg.multiplier_den ^ attempt)
      cfg.max_delay

unfoldable pub delay_for : EngineConfig → PendingCommit → ℕ × PendingCommit
unfolding backoff
delay_for cfg p = elim p.retry_after [
  | none ↦ (backoff cfg p.attempt, p)
  | some floor ↦ (max (backoff cfg p.attempt) floor, record p { retry_after = none })
]

-- `_spawn`
unfoldable pub spawn : {J : Type 0} → PendingCommit → World J → World J
spawn p w = record w { spawned = p ∷ w.spawned }

module _ {J : Type 0} (ops : Journal J) (cfg : EngineConfig) where
  -- `_journal_record`
  unfoldable pub journal_record : PendingCommit → ℕ → World J → World J
  journal_record p wall w =
      if cfg.journal_enabled
      then record w { journal = ops.write (entry_of cfg p wall) w.journal }
      else w

  -- `_journal_discard`, `discard_pending`
  unfoldable pub journal_discard : String → World J → World J
  journal_discard id w =
      if cfg.journal_enabled then record w { journal = ops.discard id w.journal } else w

  -- `persist_pending`
  unfoldable pub persist_pending : String → Fields → Fields → ℕ → World J → World J
  unfolding journal_record new_pending
  persist_pending id commit_body event_body wall =
      journal_record (new_pending id (some commit_body) (some event_body) commit) wall

  -- `_submit`
  unfoldable pub submit : PendingCommit → ℕ → World J → World J
  unfolding journal_record spawn
  submit p wall w = let w' = journal_record p wall w in if cfg.enabled then spawn p w' else w'

  -- `schedule`: the Retry-After of a rate-limited first attempt is capped.
  unfoldable pub schedule : String → Fields → Fields → Option ℕ → ℕ → World J → World J
  unfolding submit new_pending
  schedule id commit_body event_body none =
      submit (new_pending id (some commit_body) (some event_body) commit)
  schedule id commit_body event_body (some ms) =
      submit (record (new_pending id (some commit_body) (some event_body) commit) {
        retry_after = some (min (ms * 1000) max_honored_delay);
      })

  -- `schedule_event`
  unfoldable pub schedule_event : String → Fields → ℕ → World J → World J
  unfolding submit new_pending
  schedule_event id event_body = submit (new_pending id none (some event_body) event)

-- The history with one more exchange.
abbrev pub noted : {J : Type 0} → Request → Reply → World J → World J
noted req reply w = record w { exchanges = record { request = req; reply = reply } ∷ w.exchanges }

-- One call of the client.
unfoldable pub send : {J : Type 0} → Server → Request → World J → Reply × World J
send server req w = let reply = server req w.exchanges in (reply, noted req reply w)
