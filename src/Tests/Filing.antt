-- ===== src/Tests/Filing.antt =====
-- The journal's files and their replay, with values as their own text and names as their own digest.
use cycles_client_python.Prelude.{
  ◌≡◌, refl, String, Bool, true, false, none, some, List, [], ◌∷◌, str_eq, if◌then◌else◌, ◌&&◌,
  eq_refl,
}
use cycles_client_python.Json.{Json}
use cycles_client_python.Models.{contains}
use cycles_client_python.Journal.Files.{Dir, read}
use cycles_client_python.Journal.Record.{
  JsonText, PendingCommitRecord, to_json, from_json, to_object, from_object,
}
use cycles_client_python.Journal.Store.{
  completes, rename_fails, safe_filename, legacy_filename, record_in, record_file, discard_file,
  load_pending,
}
use cycles_client_python.Journal.Atomic.{is_done, record_file_atomic}
use cycles_client_python.Journal.Refines.{
  IsInjective, IsTidy, find_file, no_faults, file_journal, TidyDir, files_refine_journal,
}
use cycles_client_python.Journal.Loading.{IsAmong, Holds, load_pending-finds}
use cycles_client_python.Journal.Migration.{Keeps, load_pending-Keeps}
use cycles_client_python.Lifecycle.Spend.{IsRetryOf, settled, commit_reply}
use cycles_client_python.Journal.Interface.{Journal}
use cycles_client_python.Response.{http_error, get_error_response, is_client_error}
use cycles_client_python.Retry.Outcome.{is_schema_valid_commit_success, parsed_code}
use cycles_client_python.Lifecycle.Restart.{handle_commit_restarts}
use cycles_client_python.Lifecycle.Commit.{handle_commit}
use cycles_client_python.Retry.Engine.{World, PendingCommit, entry_of}
use cycles_client_python.Retry.Replay.{Process, eligible, set_client, replayed, async_submit}
use cycles_client_python.Retry.Replays.{IsIn, EngineStep, starts, async_submit_doubles}
use cycles_client_python.Tests.Fixtures.{
  entry, memory, Memory, config, pending, schemas, commit_body, event_body, down_server, answer,
}

abbrev pub as_is : JsonText Json
as_is = record { dumps = λ v. v; loads = λ v. some v; loads-dumps = λ v. refl }

abbrev pub digest : String → String
digest s = s

pub digest_injective : IsInjective digest as_is
digest_injective a b e = e

-- A directory with one record, under the name of an older version.
abbrev old_files : Dir Json
old_files = (legacy_filename "r1", to_json as_is entry) ∷ []

abbrev new_files : Dir Json
new_files = (safe_filename digest as_is "r1", to_json as_is entry) ∷ []

record_file_atomic_example :
    read
      (legacy_filename "r1")
      (record_file digest as_is "7.ab" entry (rename_fails false) old_files)
    ≡ (if is_done digest as_is (rename_fails false)
          && str_eq (safe_filename digest as_is "r1") (legacy_filename "r1")
        then some (to_json as_is entry)
        else read (legacy_filename "r1") old_files)
unfolding legacy_filename safe_filename
record_file_atomic_example =
    record_file_atomic digest as_is "7.ab" entry (rename_fails false) old_files
      (legacy_filename "r1") refl

pub empty-IsTidy : IsTidy digest as_is []
unfolding record_in read
empty-IsTidy id e h = cc

files_refine_journal_example :
    (find_file digest as_is (record_file digest as_is "7.ab" entry completes []) "r1"
      ≡ (if str_eq "r1" "r1" then some entry else find_file digest as_is [] "r1"))
    × (find_file digest as_is (discard_file digest as_is no_faults "r2" []) "r1"
        ≡ (if str_eq "r2" "r1" then none else find_file digest as_is [] "r1"))
    × IsTidy digest as_is (record_file digest as_is "7.ab" entry completes [])
    × IsTidy digest as_is (discard_file digest as_is no_faults "r2" [])
files_refine_journal_example =
    files_refine_journal digest as_is digest_injective "7.ab" entry "r2" "r1" [] empty-IsTidy

pub all_fresh : String → Bool
all_fresh n = false

held :
    Holds digest as_is no_faults config.base_url "r1" entry refl (eq_refl config.base_url) new_files
unfolding record_in read safe_filename from_json from_object to_json to_object
held = refl

load_pending-finds_example :
    let (found, d') = load_pending digest as_is no_faults all_fresh config.base_url new_files in
    Holds digest as_is no_faults config.base_url "r1" entry refl (eq_refl config.base_url) d'
    × IsAmong digest as_is no_faults config.base_url "r1" entry refl (eq_refl config.base_url) found
load_pending-finds_example =
    load_pending-finds digest as_is no_faults config.base_url "r1" entry refl
      (eq_refl config.base_url) all_fresh new_files held

keeps : Keeps digest as_is no_faults (λ n. refl) "r1" old_files
unfolding record_in read legacy_filename from_json from_object to_json to_object
keeps = (legacy_filename "r1", "r1", entry, refl, refl, refl)

load_pending-Keeps_example :
    Keeps digest as_is no_faults
      (λ n. refl)
      "r1"
      (load_pending digest as_is no_faults all_fresh config.base_url old_files).1
load_pending-Keeps_example =
    load_pending-Keeps digest as_is no_faults (λ n. refl) all_fresh config.base_url "r1" old_files
      keeps

-- A process that has just started on a directory.
abbrev pub started : {J : Type 0} → J → Bool → Process J
started j deferred = record {
  world = record { journal = j; exchanges = []; sleeps = []; spawned = [] };
  claimed = [];
  replay_deferred = deferred;
}

pub able : eligible config ≡ true
unfolding eligible
able = refl

abbrev pub loading : Dir Json → List PendingCommitRecord × Dir Json
loading = load_pending digest as_is no_faults all_fresh config.base_url

-- An engine for another directory starts.
abbrev elsewhere : List (EngineStep (Dir Json))
elsewhere = starts loading config "/other" 3 ∷ []

-- A journal in memory that yields the record of one reservation
abbrev recall : Memory → List PendingCommitRecord × Memory
recall j = elim (j "r1") [ none ↦ ([], j) | some e ↦ (e ∷ [], j) ]

async_submit_doubles_example :
    let s' =
      async_submit recall config "/journal" memory true pending 0 (started (λ id. none) true) in
    (rest : List PendingCommit) × (s'.world.spawned ≡ pending ∷ rest)
    × IsIn (replayed 0 (entry_of config pending 0)) rest
unfolding entry_of contains
async_submit_doubles_example =
    async_submit_doubles recall memory config "/journal" 0 pending (started (λ id. none) true) [] []
      (memory.write (entry_of config pending 0) (λ id. none)) able refl refl refl

abbrev pub files : Journal (TidyDir digest as_is)
files = file_journal digest as_is digest_injective "7.ab"

abbrev pub tidy_world : World (TidyDir digest as_is)
tidy_world = record { journal = ([], empty-IsTidy); exchanges = []; sleeps = []; spawned = [] }

-- A process that ends after its commit met a server that is down.
abbrev left_behind : Dir Json
left_behind =
    (handle_commit schemas files config down_server "r1" commit_body event_body 0
      tidy_world).journal.0

owed :
    settled schemas (commit_reply schemas files config down_server "r1" commit_body tidy_world)
    ≡ false
unfolding settled down_server answer http_error schemas is_schema_valid_commit_success parsed_code
    get_error_response is_client_error
owed = refl

handle_commit_restarts_example :
    let t' = set_client loading config "/journal" 0 (started left_behind false) in
    (q : PendingCommit) × IsRetryOf schemas files config down_server "r1" commit_body event_body q
    × IsIn q t'.world.spawned
unfolding contains
handle_commit_restarts_example =
    handle_commit_restarts digest as_is no_faults digest_injective "7.ab" schemas config config
      down_server "r1" commit_body event_body 0 0 tidy_world all_fresh "/journal"
      (started left_behind false) refl refl owed refl refl refl refl able
