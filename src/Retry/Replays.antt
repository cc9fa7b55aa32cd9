-- ===== src/Retry/Replays.antt =====
-- What the replay of journaled spends guarantees.
use mathlib.Core.List
use cycles_client_python.Prelude.{
  ◌≡◌, refl, sym, ◌∙◌, ap, ◌⊎◌, inl, inr, ℕ, ◌+◌, ◌*◌, ◌-◌, ◌≤◌, min, String, Bool, true, false,
  none, some, List, [], ◌∷◌, ◌++◌, arith, Bool-cases, ltb,
}
use cycles_client_python.Models.{contains}
use cycles_client_python.Journal.Record.{PendingCommitRecord}
use cycles_client_python.Journal.Interface.{Journal}
use cycles_client_python.Retry.Engine.{
  EngineConfig, PendingCommit, World, max_honored_delay, journal_record, spawn, entry_of,
}
use cycles_client_python.Retry.Replay.{
  Process, claim_replay, restored_delay, replayed, replayed_all, eligible, spawn_all,
  load_replay_entries, replay, set_client, async_set_client, maybe_replay, catch_up, async_submit,
}

-- A persisted floor is honoured: the retry waits exactly until it, or an hour if it is further away;
-- and it is dropped only if it is past.
pub restored_delay_lem :
    (wall floor : ℕ)
    → ((restored_delay wall (some floor) ≡ none) × (floor * 1000 ≤ wall))
      ⊎ ((d : ℕ) × (restored_delay wall (some floor) ≡ some d)
          × (d ≤ max_honored_delay)
          × ((wall + d ≡ floor * 1000) ⊎ ((d ≡ max_honored_delay) × (wall + d ≤ floor * 1000))))
unfolding restored_delay
restored_delay_lem wall floor = elim (Bool-cases (ltb wall (floor * 1000))) [
  | inr past ↦ inl (rw past, ground arith)
  | inl ahead ↦
      inr (min (floor * 1000 - wall) max_honored_delay, rw ahead, omega arith, ground arith)
]

abbrev pub IsIn : {A : Type 0} → A → List A → Type 0
IsIn {A} a l = (xs : List A) × (ys : List A) × (l ≡ xs ++ (a ∷ ys))

module _ {J : Type 0} where
  -- Spawning adds to what was spawned.
  spawned-spawn_all :
      (ps : List PendingCommit) (w : World J)
      → (xs : List PendingCommit) × ((spawn_all ps w).spawned ≡ xs ++ w.spawned)
  unfolding spawn_all spawn
  spawned-spawn_all [] w = ([], refl)
  spawned-spawn_all (p ∷ ps) w =
      let (xs, is) = spawned-spawn_all ps (spawn p w) in
      (xs ++ (p ∷ []), is ∙ sym (List.append_assoc xs (p ∷ []) w.spawned))

  pub spawn_all-IsIn :
      (p : PendingCommit) (xs ys : List PendingCommit) (w : World J)
      → IsIn p (spawn_all (xs ++ (p ∷ ys)) w).spawned
  unfolding spawn_all spawn
  spawn_all-IsIn p [] ys w =
      let (front, is) = spawned-spawn_all ys (spawn p w) in (front, w.spawned, is)
  spawn_all-IsIn p (x ∷ xs) ys w = spawn_all-IsIn p xs ys (spawn x w)

pub replayed_all-append :
    (wall : ℕ) (xs ys : List PendingCommitRecord)
    → replayed_all wall (xs ++ ys) ≡ replayed_all wall xs ++ replayed_all wall ys
unfolding replayed_all
replayed_all-append wall [] ys = refl
replayed_all-append wall (x ∷ xs) ys =
    ap (λ zs. replayed wall x ∷ zs) (replayed_all-append wall xs ys)

module _ {J : Type 0} (load : J → List PendingCommitRecord × J) (cfg : EngineConfig)
    (dir : String) where
  -- The replay of a free directory hands every loaded record to a retry.
  pub replay-IsIn :
      (wall : ℕ) (s : Process J) (e : PendingCommitRecord) (xs ys : List PendingCommitRecord)
      (j : J)
      → contains s.claimed dir ≡ false
      → load s.world.journal ≡ (xs ++ (e ∷ ys), j)
      → IsIn (replayed wall e) (replay load cfg dir wall s).world.spawned
  unfolding replay load_replay_entries claim_replay
  replay-IsIn wall s e xs ys j free loaded =
      rw (free, loaded, replayed_all-append wall xs (e ∷ ys))
        (spawn_all-IsIn (replayed wall e) (replayed_all wall xs) (replayed_all wall ys) _)

-- Nothing is replayed from a directory that is claimed.
pub replay-claimed :
    {J : Type 0} (load : J → List PendingCommitRecord × J) (cfg : EngineConfig) (dir : String)
    (wall : ℕ) (s : Process J)
    → contains s.claimed dir ≡ true
    → replay load cfg dir wall s ≡ s
unfolding replay load_replay_entries claim_replay spawn_all
replay-claimed load cfg dir wall s taken = rw taken refl

-- What engines do in a process that may claim a directory: an engine gets its client, inside an event
-- loop or not, or a coroutine hands a spend to it.
pub data EngineStep (J : Type 0) : Type 0 where
  starts : (J → List PendingCommitRecord × J) → EngineConfig → String → ℕ → EngineStep J
  starts_async :
      (J → List PendingCommitRecord × J) → EngineConfig → String → Bool → ℕ → EngineStep J
  submits :
      (J → List PendingCommitRecord × J)
      → Journal J
      → EngineConfig
      → String
      → PendingCommit
      → ℕ
      → EngineStep J

abbrev pub taken_step : {J : Type 0} → EngineStep J → Process J → Process J
taken_step (starts load cfg dir wall) p = set_client load cfg dir wall p
taken_step (starts_async load cfg dir running wall) p = async_set_client load cfg dir running wall p
taken_step (submits load ops cfg dir x wall) p = async_submit load cfg dir ops true x wall p

abbrev pub taken_steps : {J : Type 0} → List (EngineStep J) → Process J → Process J
taken_steps [] p = p
taken_steps (x ∷ xs) p = taken_steps xs (taken_step x p)

-- The first submission to an asynchronous engine that is enabled, has a journal and a client, and put
-- its replay off, journals the spend before it replays the journal: when the directory is not claimed
-- yet and the journal yields that record, the spend is handed to two retries, its own and the replayed
-- one.
pub async_submit_doubles :
    {J : Type 0} (load : J → List PendingCommitRecord × J) (ops : Journal J) (cfg : EngineConfig)
    (dir : String) (wall : ℕ) (p : PendingCommit) (s : Process J) (xs ys : List PendingCommitRecord)
    (j : J)
    → eligible cfg ≡ true
    → s.replay_deferred ≡ true
    → contains s.claimed dir ≡ false
    → load (ops.write (entry_of cfg p wall) s.world.journal) ≡ (xs ++ (entry_of cfg p wall ∷ ys), j)
    → let s' = async_submit load cfg dir ops true p wall s in
      (rest : List PendingCommit) × (s'.world.spawned ≡ p ∷ rest)
      × IsIn (replayed wall (entry_of cfg p wall)) rest
unfolding async_submit catch_up maybe_replay eligible journal_record spawn entry_of
async_submit_doubles load ops cfg dir wall p s xs ys j able put_off free loaded =
    let journaled : cfg.journal_enabled ≡ true = ground (able, arith) in
    let enabled : cfg.enabled ≡ true = ground (able, arith) in
    let client : cfg.client_set ≡ true = ground (able, arith) in
    rw (journaled, enabled, client, put_off)
      (_, refl, replay-IsIn load cfg dir wall _ (entry_of cfg p wall) xs ys j free loaded)
