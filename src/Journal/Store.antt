-- ===== src/Journal/Store.antt =====
-- runcycles/journal.py: `CommitJournal` over the files of its directory. What goes wrong with a file is
-- given: each fault stands for the operation that raises.
use Prim.Native.Char.{code}
use Prim.Native.String
use Prim.Native.String.{◌++◌}
use cycles_client_python.Prelude.{
  ℕ, ◌==◌, leb, String, Bool, true, false, ◌&&◌, ◌||◌, not, Option, none, some, List, [], ◌∷◌,
  is_some, str_eq, if◌then◌else◌, ok, err,
}
use cycles_client_python.Journal.Files.{Dir, read, write, unlink, rename, names, stem_of}
use cycles_client_python.Journal.Record.{PendingCommitRecord, JsonText, to_json, from_json}

-- `[A-Za-z0-9_-]`
abbrev is_plain : ℕ → Bool
is_plain c =
    (leb 65 c && leb c 90)
    || (leb 97 c && leb c 122)
    || (leb 48 c && leb c 57)
    || c == 95
    || c == 45

unfoldable pub sanitized : String → String
sanitized String.[] = ""
sanitized (String.◌∷◌ c s) =
    let rest = sanitized s in if is_plain (code c) then String.◌∷◌ c rest else "_" ++ rest

-- `_legacy_filename`
unfoldable pub legacy_filename : String → String
unfolding sanitized
legacy_filename id = sanitized id ++ ".json"

-- `path.with_suffix(".corrupt")` for a name that ends with ".json"
unfoldable pub corrupt_name : String → String
corrupt_name name = elim (stem_of ".json" name) [
  | some stem ↦ if str_eq stem "" then ".json.corrupt" else stem ++ ".corrupt"
  | none ↦ name ++ ".corrupt"
]

-- How `record` ends: the directory cannot be made; the temporary file is left with some text, or not
-- made, because writing raises; or the rename raises. The Boolean says that the temporary file is then
-- removed. A process that is killed leaves the same as a removal that fails.
pub data WriteRun (Text : Type 0) : Type 0 where
  completes : WriteRun Text
  no_directory : WriteRun Text
  write_fails : Option Text → Bool → WriteRun Text
  rename_fails : Bool → WriteRun Text

-- Which operations of `discard` and `load_pending` raise, by the file's name.
pub record Faults : Type 0 where
  pub unreadable : String → Bool
  pub stuck : String → Bool

-- `sorted`, by the code points
unfoldable pub insert_name : String → List String → List String
insert_name n [] = n ∷ []
insert_name n (m ∷ ms) =
    let rest = insert_name n ms in
    elim (String.compare m n) [ Prim.Native.Nat.Ordering.lt ↦ m ∷ rest | _ ↦ n ∷ m ∷ ms ]

unfoldable pub sort_names : List String → List String
unfolding insert_name
sort_names [] = []
sort_names (n ∷ ns) = insert_name n (sort_names ns)

-- `glob("*" + suffix)`
unfoldable pub with_suffix : String → List String → List String
with_suffix suffix [] = []
with_suffix suffix (n ∷ ns) =
    let rest = with_suffix suffix ns in if is_some (stem_of suffix n) then n ∷ rest else rest

unfoldable pub kept_for : String → PendingCommitRecord → Bool → List PendingCommitRecord
kept_for base_url e duplicate = if not duplicate && str_eq e.base_url base_url then e ∷ [] else []

module _ {Text : Type 0} where
  unfoldable pub cleaned : Bool → String → Dir Text → Dir Text
  cleaned true tmp d = unlink tmp d
  cleaned false tmp d = d

  -- What a writing that raises leaves in the temporary file
  unfoldable pub partial : String → Option Text → Dir Text → Dir Text
  partial tmp none d = d
  partial tmp (some t) d = write tmp t d

  -- `unlink` and `replace`, which may raise
  unfoldable pub unlinked : Faults → String → Dir Text → Dir Text
  unlinked f n d = if f.stuck n then d else unlink n d

  unfoldable pub moved : Faults → String → String → Dir Text → Dir Text
  moved f from to d = if f.stuck from then d else rename from to d

  -- `stale` says that a temporary file is older than an hour and can be removed.
  unfoldable pub reap : (String → Bool) → List String → Dir Text → Dir Text
  reap stale [] d = d
  reap stale (n ∷ ns) d = reap stale ns (if stale n then unlink n d else d)

module _ (sha256 : String → String) {Text : Type 0} (json : JsonText Text) where
  -- `_safe_filename`
  unfoldable pub safe_filename : String → String
  safe_filename id = "v2-" ++ (sha256 id ++ ".json")

  -- `record`; `unique` is the process number and the random part of the temporary name.
  unfoldable pub record_file : String → PendingCommitRecord → WriteRun Text → Dir Text → Dir Text
  unfolding safe_filename cleaned partial
  record_file unique e run d =
      let target = safe_filename e.reservation_id in
      let tmp = target ++ ("." ++ (unique ++ ".tmp")) in
      elim run [
        | completes ↦ rename tmp target (write tmp (to_json json e) d)
        | no_directory ↦ d
        | write_fails left removed ↦ cleaned removed tmp (partial tmp left d)
        | rename_fails removed ↦ cleaned removed tmp (write tmp (to_json json e) d)
      ]

  -- The record in a file, if it can be read and is one.
  unfoldable pub record_in : Faults → String → Dir Text → Option PendingCommitRecord
  record_in f n d = if f.unreadable n then none else elim (read n d) [
    | none ↦ none
    | some t ↦ elim (from_json json t) [ ok e ↦ some e | err x ↦ none ]
  ]

  unfoldable pub discard_legacy : Faults → String → Dir Text → Dir Text
  unfolding record_in unlinked
  discard_legacy f id d =
      let legacy = legacy_filename id in
      elim (record_in f legacy d) [
        | none ↦ d
        | some e ↦ if str_eq e.reservation_id id then unlinked f legacy d else d
      ]

  -- `discard`
  unfoldable pub discard_file : Faults → String → Dir Text → Dir Text
  unfolding safe_filename discard_legacy
  discard_file f id d =
      if f.stuck (safe_filename id) then d else discard_legacy f id (unlink (safe_filename id) d)

  -- A record whose standard file exists, with what that file holds
  unfoldable pub settle_against :
      Faults
      → String
      → PendingCommitRecord
      → Dir Text
      → Option PendingCommitRecord
      → Bool × Dir Text
  unfolding unlinked
  settle_against f path e d none = (false, d)
  settle_against f path e d (some existing) =
      if str_eq existing.reservation_id e.reservation_id
      then (not (f.stuck path), unlinked f path d)
      else (false, d)

  -- A file that is not under its standard name: whether it only repeats the standard one, and the
  -- directory after it was migrated or removed.
  unfoldable pub settle_name : Faults → String → PendingCommitRecord → Dir Text → Bool × Dir Text
  unfolding moved settle_against
  settle_name f path e d =
      let standard = safe_filename e.reservation_id in
      if not (is_some (read standard d))
      then (false, moved f path standard d)
      else settle_against f path e d (record_in f standard d)

  unfoldable pub load_entry :
      Faults
      → String
      → String
      → PendingCommitRecord
      → Dir Text
      → List PendingCommitRecord × Dir Text
  unfolding settle_name kept_for
  load_entry f base_url path e d =
      let (duplicate, d') =
        if str_eq path (safe_filename e.reservation_id)
        then (false, d)
        else settle_name f path e d in
      (kept_for base_url e duplicate, d')

  -- One file of `load_pending`
  unfoldable pub load_file :
      Faults → String → String → Dir Text → List PendingCommitRecord × Dir Text
  unfolding load_entry record_in moved
  load_file f base_url path d = elim (record_in f path d) [
    | none ↦ ([], moved f path (corrupt_name path) d)
    | some e ↦ load_entry f base_url path e d
  ]

  unfoldable pub load_files :
      Faults → String → List String → Dir Text → List PendingCommitRecord × Dir Text
  unfolding load_file
  load_files f base_url [] d = ([], d)
  load_files f base_url (path ∷ paths) d =
      let (found, d') = load_file f base_url path d in
      let (more, d'') = load_files f base_url paths d' in (mathlib.Core.List.◌++◌ found more, d'')

  -- `load_pending` of a directory that can be listed
  unfoldable pub load_pending :
      Faults → (String → Bool) → String → Dir Text → List PendingCommitRecord × Dir Text
  unfolding load_files reap with_suffix sort_names
  load_pending f stale base_url d =
      let d' = reap stale (with_suffix ".tmp" (names d)) d in
      load_files f base_url (sort_names (with_suffix ".json" (names d'))) d'
