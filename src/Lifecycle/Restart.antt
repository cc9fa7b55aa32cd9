-- ===== src/Lifecycle/Restart.antt =====
-- A spend whose commit stayed unsettled survives the end of the process.
use cycles_client_python.Prelude.{
  ◌≡◌, refl, sym, ◌∙◌, ap, ℕ, String, Bool, true, false, none, some, str_eq, eq_refl, arith,
}
use cycles_client_python.Models.{contains}
use cycles_client_python.Json.{Fields}
use cycles_client_python.Exchange.{Server, commit_reservation}
use cycles_client_python.Journal.Files.{Dir}
use cycles_client_python.Journal.Record.{JsonText, IsWellFormed, commit, event}
use cycles_client_python.Journal.Interface.{Journal}
use cycles_client_python.Journal.Store.{
  Faults, completes, safe_filename, record_in, record_file, load_pending,
}
use cycles_client_python.Journal.Refines.{IsInjective, TidyDir, file_journal}
use cycles_client_python.Journal.Loading.{record_in-completes, load_pending-finds}
use cycles_client_python.Response.{Schemas}
use cycles_client_python.Retry.Engine.{
  EngineConfig, PendingCommit, World, entry_of, journal_record, persist_pending, schedule,
  schedule_event, send, noted, new_pending, submit, spawn,
}
use cycles_client_python.Retry.Replay.{Process, replayed, eligible, set_client}
use cycles_client_python.Retry.Replays.{IsIn, replay-IsIn}
use cycles_client_python.Lifecycle.Commit.{
  Plan, discard, retry, recover, wait, carry_out, plan_of_reply, handle_commit,
}
use cycles_client_python.Lifecycle.Spend.{
  settled, commit_reply, discards, plan-settled, reply-persist, IsRetryOf, limited,
}

module _ (s : Schemas) {J : Type 0} (ops : Journal J) (cfg : EngineConfig) (server : Server) where
  -- The journal was last written for a retry of this spend.
  abbrev pub IsRecorded : String → Fields → Fields → J → J → Type 0
  IsRecorded id c e j j' =
      (p : PendingCommit) × (at : ℕ) × IsRetryOf s ops cfg server id c e p
      × (j' ≡ ops.write (entry_of cfg p at) j)

  submit-IsRecorded :
      (p : PendingCommit) (id : String) (c e : Fields) (wall : ℕ) (w : World J)
      → cfg.journal_enabled ≡ true
      → IsRetryOf s ops cfg server id c e p
      → IsRecorded id c e w.journal (submit ops cfg p wall w).journal
  unfolding submit journal_record spawn
  submit-IsRecorded p id c e wall w on is = (p, wall, is, ground arith)

  carry_out-IsRecorded :
      (plan : Plan) (id : String) (c e : Fields) (wall : ℕ) (w : World J)
      → cfg.journal_enabled ≡ true
      → discards s ops cfg server plan ≡ false
      → IsRecorded id c e w.journal (carry_out s ops cfg server plan id c e wall w).journal
  unfolding carry_out discards schedule schedule_event new_pending
  carry_out-IsRecorded discard id c e wall w on kept = cc
  carry_out-IsRecorded retry id c e wall w on kept =
      submit-IsRecorded (new_pending id (some c) (some e) commit) id c e wall w on (ground arith)
  carry_out-IsRecorded recover id c e wall w on kept =
      submit-IsRecorded (new_pending id none (some e) event) id c e wall w on (ground arith)
  carry_out-IsRecorded (wait none) id c e wall w on kept =
      submit-IsRecorded (new_pending id (some c) (some e) commit) id c e wall w on (ground arith)
  carry_out-IsRecorded (wait (some ms)) id c e wall w on kept =
      submit-IsRecorded (limited s ops cfg server id c e ms) id c e wall w on (ground arith)

  pub handle_commit-IsRecorded :
      (id : String) (c e : Fields) (wall : ℕ) (w : World J)
      → cfg.journal_enabled ≡ true
      → settled s (commit_reply s ops cfg server id c w) ≡ false
      → (j : J) × IsRecorded id c e j (handle_commit s ops cfg server id c e wall w).journal
  unfolding handle_commit send
  handle_commit-IsRecorded id c e wall w on owed =
      let w₀ = persist_pending ops cfg id c e wall w in
      let reply = commit_reply s ops cfg server id c w₀ in
      let sent = noted (commit_reservation id (some c)) reply w₀ in
      let verdict =
        plan-settled s ops cfg server reply
        ∙ ap (settled s) (reply-persist s ops cfg server id c e wall w)
        ∙ owed in
      (
        w₀.journal,
        carry_out-IsRecorded (plan_of_reply s ops cfg server reply) id c e reply.wall sent on
            verdict,
      )

-- The record of a retry of an identified spend is one that a later start accepts.
retry_record-IsWellFormed :
    (s : Schemas) {J : Type 0} (ops : Journal J) (cfg : EngineConfig) (server : Server)
    (id : String) (c e : Fields) (p : PendingCommit) (at : ℕ)
    → str_eq id "" ≡ false
    → IsRetryOf s ops cfg server id c e p
    → IsWellFormed (entry_of cfg p at)
unfolding entry_of
retry_record-IsWellFormed s ops cfg server id c e p at named (own, fallback, fresh, kind) = record {
  identified = rw own named;
  committable = λ m. ground arith;
  recoverable = λ m. rw fallback refl;
}

own_name :
    (s : Schemas) {J : Type 0} (ops : Journal J) (cfg : EngineConfig) (server : Server)
    (id : String) (c e : Fields) (p : PendingCommit) (at : ℕ)
    → IsRetryOf s ops cfg server id c e p
    → (entry_of cfg p at).reservation_id ≡ id
unfolding entry_of
own_name s ops cfg server id c e p at (own, fallback, fresh, kind) = own

module _ (sha256 : String → String) {Text : Type 0} (json : JsonText Text) (f : Faults) where
  -- A start on a directory that holds the record of a retry hands such a retry to the engine.
  restarted :
      (s : Schemas) {J : Type 0} (ops : Journal J) (cfg : EngineConfig) (server : Server)
      (id : String) (c e : Fields) (p : PendingCommit) (at : ℕ) (stale : String → Bool)
      (next : EngineConfig) (dir : String) (wall : ℕ) (t : Process (Dir Text))
      → IsRetryOf s ops cfg server id c e p
      → next.base_url ≡ cfg.base_url
      → contains t.claimed dir ≡ false
      → eligible next ≡ true
      → record_in sha256 json f (safe_filename sha256 json id) t.world.journal
        ≡ some (entry_of cfg p at)
      → let t' = set_client (load_pending sha256 json f stale next.base_url) next dir wall t in
        (q : PendingCommit) × IsRetryOf s ops cfg server id c e q × IsIn q t'.world.spawned
  unfolding set_client entry_of replayed
  restarted s ops cfg server id c e p at stale next dir wall t (own, fallback, fresh, kind) url free
        able held =
      let r = entry_of cfg p at in
      let based : str_eq r.base_url next.base_url ≡ true = rw url (eq_refl cfg.base_url) in
      let (_, (xs, ys, found)) =
        load_pending-finds sha256 json f next.base_url id r own based stale t.world.journal held in
      let load = load_pending sha256 json f stale next.base_url in
      (
        replayed wall r,
        (own, fallback, refl, kind),
        rw able (
            replay-IsIn load next dir wall t r xs ys (load t.world.journal).1 free
              (ap (λ found. (found, (load t.world.journal).1)) found)),
      )

  -- The same, of a directory as a retry of the spend was last recorded in it.
  pub recorded_restarts :
      (inj : IsInjective sha256 json) (unique : String) (s : Schemas) (cfg next : EngineConfig)
      (server : Server) (id : String) (c e : Fields) (wall : ℕ) (j j' : TidyDir sha256 json)
      (stale : String → Bool) (dir : String) (t : Process (Dir Text))
      → str_eq id "" ≡ false
      → let ops = file_journal sha256 json inj unique in
        IsRecorded s ops cfg server id c e j j'
        → t.world.journal ≡ j'.0
        → f.unreadable (safe_filename sha256 json id) ≡ false
        → contains t.claimed dir ≡ false
        → next.base_url ≡ cfg.base_url
        → eligible next ≡ true
        → let t' = set_client (load_pending sha256 json f stale next.base_url) next dir wall t in
          (q : PendingCommit) × IsRetryOf s ops cfg server id c e q × IsIn q t'.world.spawned
  recorded_restarts inj unique s cfg next server id c e wall j j' stale dir t named recorded left
        readable free url able =
      let ops = file_journal sha256 json inj unique in
      let (p, at, is, last) = recorded in
      let r = entry_of cfg p at in
      let sound = retry_record-IsWellFormed s ops cfg server id c e p at named is in
      let in_file : t.world.journal ≡ record_file sha256 json unique r completes j.0 =
        left ∙ ap (λ j. j.0) last in
      let held : record_in sha256 json f (safe_filename sha256 json id) t.world.journal ≡ some r =
        rw (in_file, sym (own_name s ops cfg server id c e p at is))
          (record_in-completes sha256 json f unique r j.0 sound
            (rw (own_name s ops cfg server id c e p at is) readable)) in
      restarted s ops cfg server id c e p at stale next dir wall t is url free able held

  -- Across the end of a process, with files that are written without a fault and a digest without
  -- collisions: when `handle_commit` of an identified reservation met an answer that does not settle
  -- it, then, with the journal enabled, the next process that claims the same directory for the same
  -- server and can read the record's file hands a retry of this spend to its engine when it sets the
  -- client, whatever else lies in the directory and whatever cannot be read, renamed or removed there.
  -- Retries need not be enabled in the process that ended.
  pub handle_commit_restarts :
      (inj : IsInjective sha256 json) (unique : String) (s : Schemas) (cfg next : EngineConfig)
      (server : Server) (id : String) (c e : Fields) (wall wall' : ℕ)
      (w : World (TidyDir sha256 json)) (stale : String → Bool) (dir : String)
      (t : Process (Dir Text))
      → cfg.journal_enabled ≡ true
      → str_eq id "" ≡ false
      → let ops = file_journal sha256 json inj unique in
        settled s (commit_reply s ops cfg server id c w) ≡ false
        → t.world.journal ≡ (handle_commit s ops cfg server id c e wall w).journal.0
        → f.unreadable (safe_filename sha256 json id) ≡ false
        → contains t.claimed dir ≡ false
        → next.base_url ≡ cfg.base_url
        → eligible next ≡ true
        → let t' = set_client (load_pending sha256 json f stale next.base_url) next dir wall' t in
          (q : PendingCommit) × IsRetryOf s ops cfg server id c e q × IsIn q t'.world.spawned
  handle_commit_restarts inj unique s cfg next server id c e wall wall' w stale dir t on named owed
        left readable free url able =
      let ops = file_journal sha256 json inj unique in
      let (before, recorded) = handle_commit-IsRecorded s ops cfg server id c e wall w on owed in
      recorded_restarts inj unique s cfg next server id c e wall' before _ stale dir t named
        recorded left readable free url able
