-- ===== src/Lifecycle/Async/Replaying.antt =====
-- A submission to the asynchronous engine, which may replay the journal first, sends nothing and keeps
-- the record it is about.
use cycles_client_python.Prelude.{
  ◌≡◌, refl, ◌∙◌, ap, ℕ, String, Bool, true, false, not, none, some, List, [], ◌∷◌, is_some, str_eq,
  Option, eq_refl, arith, Bool-cases, inl, inr, ◌&&◌, if◌then◌else◌,
}
use cycles_client_python.Json.{Fields}
use cycles_client_python.Exchange.{Server}
use cycles_client_python.Models.{contains}
use cycles_client_python.Journal.Record.{PendingCommitRecord, IsWellFormed, commit, event}
use cycles_client_python.Journal.Interface.{Journal}
use cycles_client_python.Response.{Schemas}
use cycles_client_python.Retry.Engine.{
  EngineConfig, PendingCommit, World, journal_record, journal_discard, spawn, new_pending, entry_of,
}
use cycles_client_python.Retry.Replay.{
  Process, claim_replay, replayed_all, eligible, spawn_all, load_replay_entries, replay,
  maybe_replay, catch_up, async_submit, async_schedule, async_schedule_event,
}
use cycles_client_python.Lifecycle.Commit.{Plan, discard, retry, recover, wait}
use cycles_client_python.Lifecycle.Spend.{discards, limited, kept-journal_record}
use cycles_client_python.Lifecycle.Async.{async_carry_out}

spawn_all-quiet :
    {J : Type 0} (ps : List PendingCommit) (w : World J)
    → ((spawn_all ps w).journal ≡ w.journal) × ((spawn_all ps w).exchanges ≡ w.exchanges)
unfolding spawn_all spawn
spawn_all-quiet [] w = (refl, refl)
spawn_all-quiet (p ∷ ps) w = spawn_all-quiet ps (spawn p w)

module _ {J : Type 0} (ops : Journal J) (load : J → List PendingCommitRecord × J)
    (cfg : EngineConfig) where
  -- Loading keeps the record that was written last, if it is one that a start accepts.
  abbrev pub IsKeeping : Type 0
  IsKeeping =
      (j : J) (x : PendingCommitRecord)
      → IsWellFormed x
      → x.base_url ≡ cfg.base_url
      → is_some (ops.find (load (ops.write x j)).1 x.reservation_id) ≡ true

module _ {J : Type 0} (ops : Journal J) (load : J → List PendingCommitRecord × J)
    (cfg : EngineConfig) (dir : String) where
  -- No request is sent, and the journal holds a record of the reservation.
  abbrev Keeps : String → Process J → Process J → Type 0
  Keeps id p p' =
      (p'.world.exchanges ≡ p.world.exchanges) × (is_some (ops.find p'.world.journal id) ≡ true)

  replay-Keeps :
      (wall : ℕ) (id : String) (p : Process J)
      → is_some (ops.find p.world.journal id) ≡ true
      → is_some (ops.find (load p.world.journal).1 id) ≡ true
      → Keeps id p (replay load cfg dir wall p)
  unfolding replay load_replay_entries claim_replay spawn_all
  replay-Keeps wall id p here keeps = elim (Bool-cases (contains p.claimed dir)) [
    | inl taken ↦ rw taken (refl, here)
    | inr free ↦
        let (es, j) = load p.world.journal in
        let (kept, sent) =
          spawn_all-quiet (replayed_all wall es) (record p.world { journal = j }) in
        rw free (sent, ap (λ j. is_some (ops.find j id)) kept ∙ keeps)
  ]

  catch_up-Keeps :
      (wall : ℕ) (id : String) (p : Process J)
      → is_some (ops.find p.world.journal id) ≡ true
      → is_some (ops.find (load p.world.journal).1 id) ≡ true
      → Keeps id p (catch_up load cfg dir ops wall p)
  unfolding catch_up maybe_replay
  catch_up-Keeps wall id p here keeps = elim (Bool-cases p.replay_deferred) [
    | inr now ↦ rw now (refl, here)
    | inl put_off ↦ elim (Bool-cases (eligible cfg)) [
      | inl able ↦
          rw (put_off, able)
            (replay-Keeps wall id (record p { replay_deferred = false }) here keeps)
      | inr unable ↦ rw (put_off, unable) (refl, here)
    ]
  ]

  pub exchanges-journal_record :
      (x : PendingCommit) (wall : ℕ) (w : World J)
      → (journal_record ops cfg x wall w).exchanges ≡ w.exchanges
  unfolding journal_record
  exchanges-journal_record x wall w = ground arith

-- A submission ends in one of two processes.
spawned-Keeps :
    {J : Type 0} (ops : Journal J) (on : Bool) (x : PendingCommit) (w : World J) (id : String)
    (p₁ p₂ : Process J)
    → p₁.world.exchanges ≡ w.exchanges
    → p₂.world.exchanges ≡ w.exchanges
    → is_some (ops.find p₁.world.journal id) ≡ true
    → is_some (ops.find p₂.world.journal id) ≡ true
    → let p' = if on && true then record p₂ { world = spawn x p₂.world } else p₁ in
      (p'.world.exchanges ≡ w.exchanges) × (is_some (ops.find p'.world.journal id) ≡ true)
unfolding spawn
spawned-Keeps ops true x w id p₁ p₂ quiet₁ quiet₂ kept₁ kept₂ = (quiet₂, kept₂)
spawned-Keeps ops false x w id p₁ p₂ quiet₁ quiet₂ kept₁ kept₂ = (quiet₁, kept₁)

module _ (s : Schemas) {J : Type 0} (ops : Journal J) (cfg : EngineConfig)
    (load : J → List PendingCommitRecord × J) (dir : String) (server : Server) where
  -- What the journal holds after the record of a retry was written and loaded
  submitted-kept :
      (x : PendingCommit) (wall : ℕ) (w : World J)
      → IsKeeping ops load cfg
      → cfg.journal_enabled ≡ true
      → IsWellFormed (entry_of cfg x wall)
      → is_some (ops.find (load (journal_record ops cfg x wall w).journal).1 x.reservation_id)
        ≡ true
  unfolding journal_record entry_of
  submitted-kept x wall w keeps on sound =
      rw (on, journal_record) (keeps w.journal (entry_of cfg x wall) sound refl)

  async_submit-Keeps :
      (x : PendingCommit) (wall : ℕ) (p : Process J)
      → IsKeeping ops load cfg
      → cfg.journal_enabled ≡ true
      → IsWellFormed (entry_of cfg x wall)
      → let p' = async_submit load cfg dir ops true x wall p in
        (p'.world.exchanges ≡ p.world.exchanges)
        × (is_some (ops.find p'.world.journal x.reservation_id) ≡ true)
  unfolding async_submit spawn
  async_submit-Keeps x wall p keeps on sound =
      let w₁ = journal_record ops cfg x wall p.world in
      let p₁ : Process J = record p { world = w₁ } in
      let own = kept-journal_record s ops cfg server x wall p.world on in
      let (sent, kept) =
        catch_up-Keeps ops load cfg dir wall x.reservation_id p₁ own
          (submitted-kept x wall p.world keeps on sound) in
      let quiet = exchanges-journal_record ops load cfg dir x wall p.world in
      spawned-Keeps ops cfg.enabled x p.world x.reservation_id p₁
        (catch_up load cfg dir ops wall p₁) quiet (sent ∙ quiet) own kept

  -- The records that a carried plan writes are those of a retry.
  sound_commit :
      (id : String) (c e : Fields) (after : Option ℕ) (wall : ℕ)
      → str_eq id "" ≡ false
      → IsWellFormed (
          entry_of cfg
            (record (new_pending id (some c) (some e) commit) { retry_after = after })
            wall)
  unfolding entry_of new_pending
  sound_commit id c e after wall named = record {
    identified = named;
    committable = λ m. refl;
    recoverable = λ m. refl;
  }

  sound_event :
      (id : String) (e : Fields) (wall : ℕ)
      → str_eq id "" ≡ false
      → IsWellFormed (entry_of cfg (new_pending id none (some e) event) wall)
  unfolding entry_of new_pending
  sound_event id e wall named = record {
    identified = named;
    committable = λ m. cc;
    recoverable = λ m. refl;
  }

  pub async_carry_out-Keeps :
      (plan : Plan) (id : String) (c e : Fields) (wall : ℕ) (p : Process J)
      → IsKeeping ops load cfg
      → cfg.journal_enabled ≡ true
      → str_eq id "" ≡ false
      → let p' = async_carry_out s ops cfg load dir server plan id c e wall p in
        (p'.world.exchanges ≡ p.world.exchanges)
        × (is_some (ops.find p'.world.journal id) ≡ not (discards s ops cfg server plan))
  unfolding async_carry_out discards async_schedule async_schedule_event journal_discard new_pending
  async_carry_out-Keeps discard id c e wall p keeps on named =
      (ground arith, ground (arith, ops.find-discard id p.world.journal id, eq_refl id))
  async_carry_out-Keeps retry id c e wall p keeps on named =
      async_submit-Keeps (new_pending id (some c) (some e) commit) wall p keeps on
        (sound_commit id c e none wall named)
  async_carry_out-Keeps recover id c e wall p keeps on named =
      async_submit-Keeps (new_pending id none (some e) event) wall p keeps on
        (sound_event id e wall named)
  async_carry_out-Keeps (wait none) id c e wall p keeps on named =
      async_submit-Keeps (new_pending id (some c) (some e) commit) wall p keeps on
        (sound_commit id c e none wall named)
  async_carry_out-Keeps (wait (some ms)) id c e wall p keeps on named =
      async_submit-Keeps (limited s ops cfg server id c e ms) wall p keeps on
        (sound_commit id c e _ wall named)
