-- ===== src/Journal/Reload.antt =====
-- A load of runcycles/journal.py keeps every standard file to its own reservation, and keeps the record
-- that was written last.

use cycles_client_python.Prelude.{
  ◌≡◌, ◌⊎◌, refl, sym, ◌∙◌, ap, inl, inr, String, Bool, true, false, none, some, List, [], ◌∷◌,
  str_eq, eq_iff, eq_refl, arith, Bool-cases, Option-cases, is_some,
}
use cycles_client_python.Journal.Files.{Dir, read, rename, names, read-rename, rename-absent}
use cycles_client_python.Journal.Record.{
  PendingCommitRecord, JsonText, IsWellFormed, from_json, from_object,
}
use cycles_client_python.Journal.Store.{
  completes, safe_filename, corrupt_name, record_in, record_file, sort_names, with_suffix, moved,
  settle_name, settle_against, load_entry, load_file, load_files, reap, load_pending,
}
use cycles_client_python.Journal.Atomic.{record_in_local}
use cycles_client_python.Journal.Listing.{json_not_tmp, read-reap, read-moved, read-unlinked}
use cycles_client_python.Journal.Loading.{
  safe_filename-ends, corrupt-safe, record_in-completes, read-settle_name, load_pending-finds,
}
use cycles_client_python.Journal.Migration.{record_in-renamed}
use cycles_client_python.Journal.Contents.{written}
use cycles_client_python.Journal.Refines.{
  IsInjective, IsTidy, TidyDir, no_faults, file_journal, safe_filename_inj, find_file, content,
  record_in-absent,
}

module _ (sha256 : String → String) {Text : Type 0} (json : JsonText Text)
    (inj : IsInjective sha256 json) where
  -- A file other than the migrated one and its standard name is as before.
  settle_name-other :
      (path n : String) (r : PendingCommitRecord) (d : Dir Text)
      → str_eq path n ≡ false
      → str_eq (safe_filename sha256 json r.reservation_id) n ≡ false
      → read n (settle_name sha256 json no_faults path r d).1 ≡ read n d
  unfolding settle_name settle_against
  settle_name-other path n r d away other = ground (
    arith,
    read-moved no_faults path (safe_filename sha256 json r.reservation_id) n d other away,
    read-unlinked no_faults path n d away,
  )

  -- The standard file of a record that is migrated holds that record afterwards, or what it held.
  settle_name-own :
      (path : String) (r : PendingCommitRecord) (d : Dir Text)
      → record_in sha256 json no_faults path d ≡ some r
      → str_eq path (safe_filename sha256 json r.reservation_id) ≡ false
      → let S = safe_filename sha256 json r.reservation_id in
        let d' = (settle_name sha256 json no_faults path r d).1 in
        (read S d' ≡ read S d) ⊎ (record_in sha256 json no_faults S d' ≡ some r)
  unfolding settle_name moved
  settle_name-own path r d found away =
      let S = safe_filename sha256 json r.reservation_id in
      elim (Bool-cases (is_some (read S d))) [
        | inl there ↦ inl (read-settle_name sha256 json no_faults path r d S away there)
        | inr absent ↦ inr (
            rw (absent, settle_name, moved)
              (record_in-renamed sha256 json no_faults (λ n. refl) path S d r found))
      ]

  -- A file that is set aside is gone.
  record_in-corrupt :
      (path : String) (d : Dir Text)
      → str_eq (corrupt_name path) path ≡ false
      → record_in sha256 json no_faults path d ≡ none
      → record_in sha256 json no_faults path (moved no_faults path (corrupt_name path) d) ≡ none
  unfolding moved
  record_in-corrupt path d apart bad = elim (Option-cases (read path d)) [
    | inl absent ↦ rw (rename-absent path (corrupt_name path) d absent) bad
    | inr (t, there) ↦
        record_in-absent sha256 json path (rename path (corrupt_name path) d)
          (read-rename path path (corrupt_name path) d t there ∙ rw (apart, eq_refl path))
  ]

  -- What still holds a record as it was holds one of its own reservation.
  same-IsTidy :
      (id : String) (e : PendingCommitRecord) (d d' : Dir Text)
      → IsTidy sha256 json d
      → let n = safe_filename sha256 json id in
        read n d' ≡ read n d → record_in sha256 json no_faults n d' ≡ some e → e.reservation_id ≡ id
  same-IsTidy id e d d' tidy same held =
      let n = safe_filename sha256 json id in
      tidy id e (sym (record_in_local sha256 json no_faults n d d' same) ∙ held)

  corrupt-IsTidy :
      (path : String) (d : Dir Text)
      → record_in sha256 json no_faults path d ≡ none
      → IsTidy sha256 json d
      → IsTidy sha256 json (moved no_faults path (corrupt_name path) d)
  corrupt-IsTidy path d bad tidy id e found =
      let n = safe_filename sha256 json id in
      let apart = corrupt-safe sha256 json path id in
      elim (Bool-cases (str_eq path n)) [
        | inr away ↦
            same-IsTidy id e d _ tidy (read-moved no_faults path (corrupt_name path) n d apart away)
              found
        | inl same ↦
            let one = (eq_iff path n).0 same in
            let gone = record_in-corrupt path d (ap (str_eq (corrupt_name path)) one ∙ apart) bad in
            let here : record_in sha256 json no_faults path
                  (moved no_faults path (corrupt_name path) d)
                ≡ some e =
              ap
                (λ m.
                  record_in sha256 json no_faults m (moved no_faults path (corrupt_name path) d))
                one
              ∙ found in
            cc (gone, here)
      ]

  settled-IsTidy :
      (path : String) (r : PendingCommitRecord) (d : Dir Text)
      → record_in sha256 json no_faults path d ≡ some r
      → str_eq path (safe_filename sha256 json r.reservation_id) ≡ false
      → IsTidy sha256 json d
      → (e : PendingCommitRecord)
      → record_in sha256 json no_faults
          (safe_filename sha256 json r.reservation_id)
          (settle_name sha256 json no_faults path r d).1
        ≡ some e
      → e.reservation_id ≡ r.reservation_id
  settled-IsTidy path r d good legacy tidy e found = elim (settle_name-own path r d good legacy) [
    | inl same ↦ same-IsTidy r.reservation_id e d _ tidy same found
    | inr own ↦ ground (sym found ∙ own, arith)
  ]

  legacy-IsTidy :
      (path : String) (r : PendingCommitRecord) (d : Dir Text)
      → record_in sha256 json no_faults path d ≡ some r
      → str_eq path (safe_filename sha256 json r.reservation_id) ≡ false
      → IsTidy sha256 json d
      → IsTidy sha256 json (settle_name sha256 json no_faults path r d).1
  legacy-IsTidy path r d good legacy tidy id e found =
      let n = safe_filename sha256 json id in
      let S = safe_filename sha256 json r.reservation_id in
      elim (Bool-cases (str_eq path n)) [
        | inl same ↦
            let one = (eq_iff path n).0 same in
            let mine = tidy id r (ap (λ m. record_in sha256 json no_faults m d) (sym one) ∙ good) in
            let standard : str_eq path S ≡ true =
              (eq_iff path S).1 (one ∙ ap (safe_filename sha256 json) (sym mine)) in
            cc (standard, legacy)
        | inr away ↦ elim (Bool-cases (str_eq S n)) [
          | inr other ↦ same-IsTidy id e d _ tidy (settle_name-other path n r d away other) found
          | inl same ↦
              let mine =
                safe_filename_inj sha256 json inj r.reservation_id id ((eq_iff S n).0 same) in
              settled-IsTidy path r d good legacy tidy e (
                ap
                  (λ m.
                    record_in sha256 json no_faults m
                      (settle_name sha256 json no_faults path r d).1)
                  ((eq_iff S n).0 same)
                ∙ found)
              ∙ mine
        ]
      ]

  load_file-IsTidy :
      (url path : String) (d : Dir Text)
      → IsTidy sha256 json d
      → IsTidy sha256 json (load_file sha256 json no_faults url path d).1
  unfolding load_file load_entry
  load_file-IsTidy url path d tidy = elim (Option-cases (record_in sha256 json no_faults path d)) [
    | inl bad ↦ rw (bad, load_file) (corrupt-IsTidy path d bad tidy)
    | inr (r, good) ↦ elim (Bool-cases (str_eq path (safe_filename sha256 json r.reservation_id))) [
      | inl standard ↦ rw (good, load_file, standard) tidy
      | inr legacy ↦ rw (good, load_file, legacy) (legacy-IsTidy path r d good legacy tidy)
    ]
  ]

  load_files-IsTidy :
      (url : String) (paths : List String) (d : Dir Text)
      → IsTidy sha256 json d
      → IsTidy sha256 json (load_files sha256 json no_faults url paths d).1
  unfolding load_files
  load_files-IsTidy url [] d tidy = tidy
  load_files-IsTidy url (path ∷ paths) d tidy =
      load_files-IsTidy url paths (load_file sha256 json no_faults url path d).1
        (load_file-IsTidy url path d tidy)

  reap-IsTidy :
      (stale : String → Bool) (d : Dir Text)
      → IsTidy sha256 json d
      → IsTidy sha256 json (reap stale (with_suffix ".tmp" (names d)) d)
  reap-IsTidy stale d tidy id e found =
      let n = safe_filename sha256 json id in
      let (s, ends) = safe_filename-ends sha256 json id in
      let d' = reap stale (with_suffix ".tmp" (names d)) d in
      let same =
        read-reap stale (with_suffix ".tmp" (names d)) d n (json_not_tmp (names d) n s ends) in
      tidy id e (sym (record_in_local sha256 json no_faults n d d' same) ∙ found)

  pub load_pending-IsTidy :
      (stale : String → Bool) (url : String) (d : Dir Text)
      → IsTidy sha256 json d
      → IsTidy sha256 json (load_pending sha256 json no_faults stale url d).1
  unfolding load_pending
  load_pending-IsTidy stale url d tidy =
      load_files-IsTidy url
        (sort_names (with_suffix ".json" (names (reap stale (with_suffix ".tmp" (names d)) d))))
        (reap stale (with_suffix ".tmp" (names d)) d) (reap-IsTidy stale d tidy)

  -- `load_pending` on the journal of the retry engine
  abbrev pub file_load :
      (String → Bool)
      → String
      → TidyDir sha256 json
      → List PendingCommitRecord × TidyDir sha256 json
  file_load stale url (d, tidy) =
      let (found, d') = load_pending sha256 json no_faults stale url d in
      (found, (d', load_pending-IsTidy stale url d tidy))

  find_file-record_in :
      (id : String) (e : PendingCommitRecord) (d : Dir Text)
      → record_in sha256 json no_faults (safe_filename sha256 json id) d ≡ some e
      → is_some (find_file sha256 json d id) ≡ true
  unfolding find_file content record_in from_json written from_object
  find_file-record_in id e d held = elim (Option-cases (read (safe_filename sha256 json id) d)) [
    | inl absent ↦ cc (rw (absent, record_in) at held)
    | inr (t, there) ↦ ground (arith, there, held)
  ]

  -- Loading keeps the record that was written last, if a start accepts it.
  pub file_load-keeps :
      (unique : String) (stale : String → Bool) (url : String) (j : TidyDir sha256 json)
      (x : PendingCommitRecord)
      → IsWellFormed x
      → x.base_url ≡ url
      → let ops = file_journal sha256 json inj unique in
        is_some (ops.find (file_load stale url (ops.write x j)).1 x.reservation_id) ≡ true
  file_load-keeps unique stale url j x sound based =
      let id = x.reservation_id in
      let d = record_file sha256 json unique x completes j.0 in
      let held = record_in-completes sha256 json no_faults unique x j.0 sound refl in
      let (kept, _) =
        load_pending-finds sha256 json no_faults url id x refl ((eq_iff x.base_url url).1 based)
          stale d held in
      find_file-record_in id x (load_pending sha256 json no_faults stale url d).1 kept
