-- ===== src/Retry/Replay.antt =====
-- runcycles/retry.py: the replay of journaled spends when an engine gets its client, and the
-- submission and deferred replay of `AsyncCommitRetryEngine`.
use cycles_client_python.Prelude.{
  ℕ, ◌*◌, ◌-◌, min, ltb, String, Bool, true, false, ◌&&◌, Option, none, some, List, [], ◌∷◌,
  if◌then◌else◌,
}
use cycles_client_python.Json.{Fields}
use cycles_client_python.Models.{contains}
use cycles_client_python.Journal.Record.{PendingCommitRecord, commit, event}
use cycles_client_python.Journal.Interface.{Journal}
use cycles_client_python.Retry.Engine.{
  EngineConfig, PendingCommit, World, max_honored_delay, journal_record, spawn, new_pending,
}

-- `_claim_replay`: whether the directory was still free, and the directories claimed afterwards.
unfoldable pub claim_replay : String → List String → Bool × List String
claim_replay dir claimed = if contains claimed dir then (false, claimed) else (true, dir ∷ claimed)

-- A persisted Retry-After floor that is not past becomes a relative delay.
unfoldable pub restored_delay : ℕ → Option ℕ → Option ℕ
restored_delay wall none = none
restored_delay wall (some floor) =
    if ltb wall (floor * 1000) then some (min (floor * 1000 - wall) max_honored_delay) else none

unfoldable pub replayed : ℕ → PendingCommitRecord → PendingCommit
unfolding restored_delay
replayed wall e = record {
  reservation_id = e.reservation_id;
  commit_body = e.commit_body;
  event_fallback_body = e.event_fallback_body;
  mode = e.mode;
  attempt = 0;
  retry_after = restored_delay wall e.not_before_ms;
}

unfoldable pub replayed_all : ℕ → List PendingCommitRecord → List PendingCommit
unfolding replayed
replayed_all wall [] = []
replayed_all wall (e ∷ es) = replayed wall e ∷ replayed_all wall es

-- What a process knows beside the world: the directories whose replay is claimed, and whether the
-- replay of an asynchronous engine was put off.
pub record Process (J : Type 0) : Type 0 where
  pub world : World J
  pub claimed : List String
  pub replay_deferred : Bool

unfoldable pub eligible : EngineConfig → Bool
eligible cfg = cfg.enabled && (cfg.journal_enabled && cfg.client_set)

unfoldable pub spawn_all : {J : Type 0} → List PendingCommit → World J → World J
unfolding spawn
spawn_all [] w = w
spawn_all (p ∷ ps) w = spawn_all ps (spawn p w)

-- `load` is `load_pending` of the engine's journal for its base URL.
module _ {J : Type 0} (load : J → List PendingCommitRecord × J) (cfg : EngineConfig)
    (dir : String) where
  -- `_load_replay_entries` of an eligible engine; `wall` is the wall clock.
  unfoldable pub load_replay_entries : ℕ → Process J → List PendingCommit × Process J
  unfolding claim_replay replayed_all
  load_replay_entries wall s =
      let (free, claimed) = claim_replay dir s.claimed in
      if free
      then (let (es, j) = load s.world.journal in
          (
            replayed_all wall es,
            record s { claimed = claimed; world = record s.world { journal = j } },
          ))
      else ([], s)

  unfoldable pub replay : ℕ → Process J → Process J
  unfolding load_replay_entries spawn_all
  replay wall s =
      let (ps, s') = load_replay_entries wall s in record s' { world = spawn_all ps s'.world }

  -- `CommitRetryEngine.set_client`
  unfoldable pub set_client : ℕ → Process J → Process J
  unfolding eligible replay
  set_client wall s = if eligible cfg then replay wall s else s

  -- `AsyncCommitRetryEngine._maybe_replay`; `running` says that an event loop is running.
  unfoldable pub maybe_replay : Bool → ℕ → Process J → Process J
  unfolding eligible replay
  maybe_replay running wall s =
      if eligible cfg
      then if running then replay wall s else record s { replay_deferred = true }
      else s

  -- `AsyncCommitRetryEngine.set_client`
  unfoldable pub async_set_client : Bool → ℕ → Process J → Process J
  unfolding maybe_replay
  async_set_client = maybe_replay

  module _ (ops : Journal J) where
    -- The deferred replay is made up for once a loop is running.
    unfoldable pub catch_up : ℕ → Process J → Process J
    unfolding maybe_replay
    catch_up wall s =
        if s.replay_deferred
        then maybe_replay true wall (record s { replay_deferred = false })
        else s

    -- `AsyncCommitRetryEngine._submit`
    unfoldable pub async_submit : Bool → PendingCommit → ℕ → Process J → Process J
    unfolding journal_record spawn catch_up
    async_submit running p wall s =
        let s₁ = record s { world = journal_record ops cfg p wall s.world } in
        if cfg.enabled && running
        then (let s₂ = catch_up wall s₁ in record s₂ { world = spawn p s₂.world })
        else s₁

    -- `AsyncCommitRetryEngine.schedule` and `schedule_event`, which coroutines call: a loop is running.
    unfoldable pub async_schedule : String → Fields → Fields → Option ℕ → ℕ → Process J → Process J
    unfolding async_submit new_pending
    async_schedule id commit_body event_body none =
        async_submit true (new_pending id (some commit_body) (some event_body) commit)
    async_schedule id commit_body event_body (some ms) =
        async_submit true (record (new_pending id (some commit_body) (some event_body) commit) {
          retry_after = some (min (ms * 1000) max_honored_delay);
        })

    unfoldable pub async_schedule_event : String → Fields → ℕ → Process J → Process J
    unfolding async_submit new_pending
    async_schedule_event id event_body =
        async_submit true (new_pending id none (some event_body) event)
