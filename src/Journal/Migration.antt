-- ===== src/Journal/Migration.antt =====
-- Loading and migrating files loses no record.
use Prim.Native.String
use cycles_client_python.Prelude.{
  ◌≡◌, refl, sym, ◌∙◌, inl, inr, String, Bool, true, false, Option, none, some, List, [], ◌∷◌,
  str_eq, eq_iff, eq_refl, arith, Bool-cases, Option-cases, is_some,
}
use cycles_client_python.Journal.Files.{Dir, read, rename, names, read-rename}
use cycles_client_python.Journal.Record.{PendingCommitRecord, JsonText}
use cycles_client_python.Journal.Names.{not-str_eq, corrupt-json}
use cycles_client_python.Journal.Store.{
  Faults, safe_filename, corrupt_name, record_in, sort_names, with_suffix, moved, unlinked,
  settle_name, settle_against, load_entry, load_file, load_files, reap, load_pending,
}
use cycles_client_python.Journal.Atomic.{record_in_local}
use cycles_client_python.Journal.Listing.{
  json_not_tmp, read-reap, read-moved, read-unlinked, corrupt_name-ends,
}
use cycles_client_python.Journal.Loading.{safe_filename-ends, record_in-present, read-settle_name}

module _ (sha256 : String → String) {Text : Type 0} (json : JsonText Text) (f : Faults)
    (readable : (n : String) → f.unreadable n ≡ false) where
  -- Some file of the journal holds a record of the reservation.
  abbrev pub Keeps : String → Dir Text → Type 0
  Keeps id d =
      (n : String) × (s : String) × (r : PendingCommitRecord) × (n ≡ String.◌++◌ s ".json")
      × (record_in sha256 json f n d ≡ some r)
      × (str_eq r.reservation_id id ≡ true)

  -- What another file's migration leaves alone.
  load_file-away :
      (base_url path n s : String) (d : Dir Text)
      → n ≡ String.◌++◌ s ".json"
      → is_some (read n d) ≡ true
      → str_eq path n ≡ false
      → read n (load_file sha256 json f base_url path d).1 ≡ read n d
  unfolding load_file load_entry
  load_file-away base_url path n s d ends there away =
      let (c, corrupt) = corrupt_name-ends path in
      let apart : str_eq (corrupt_name path) n ≡ false =
        not-str_eq _ _ (λ e. corrupt-json c s (sym corrupt ∙ e ∙ ends)) in
      elim (Option-cases (record_in sha256 json f path d)) [
        | inl bad ↦ rw (bad, load_file) (read-moved f path (corrupt_name path) n d apart away)
        | inr (r, good) ↦
            elim (Bool-cases (str_eq path (safe_filename sha256 json r.reservation_id))) [
              | inl standard ↦ rw (good, load_file, standard)
              | inr legacy ↦
                  rw (good, load_file, legacy)
                    (read-settle_name sha256 json f path r d n away there)
            ]
      ]

  -- A file that is moved can be read where it went.
  pub record_in-renamed :
      (from to : String) (d : Dir Text) (r : PendingCommitRecord)
      → record_in sha256 json f from d ≡ some r
      → record_in sha256 json f to (rename from to d) ≡ some r
  unfolding record_in
  record_in-renamed from to d r h = elim (Option-cases (read from d)) [
    | inl absent ↦ cc (rw (readable from, record_in, absent) at h)
    | inr (t, there) ↦
        ground (
          arith,
          there,
          h,
          readable from,
          readable to,
          read-rename to from to d t there,
          eq_refl to,
        )
  ]

  against-Keeps :
      (n s id : String) (r : PendingCommitRecord) (d : Dir Text)
      → n ≡ String.◌++◌ s ".json"
      → record_in sha256 json f n d ≡ some r
      → str_eq r.reservation_id id ≡ true
      → str_eq n (safe_filename sha256 json r.reservation_id) ≡ false
      → (o : Option PendingCommitRecord)
      → record_in sha256 json f (safe_filename sha256 json r.reservation_id) d ≡ o
      → Keeps id (settle_against sha256 json f n r d o).1
  unfolding settle_against
  against-Keeps n s id r d ends good own legacy none found = (n, s, r, ends, good, own)
  against-Keeps n s id r d ends good own legacy (some existing) found =
      let S = safe_filename sha256 json r.reservation_id in
      let (t, standard) = safe_filename-ends sha256 json r.reservation_id in
      let kept =
        record_in_local sha256 json f S d (unlinked f n d) (read-unlinked f n S d legacy) in
      elim (Bool-cases (str_eq existing.reservation_id r.reservation_id)) [
        | inl same ↦ rw same (
          S,
          t,
          existing,
          standard,
          kept ∙ found,
          rw ((eq_iff existing.reservation_id r.reservation_id).0 same) own,
        )
        | inr differs ↦ rw differs (n, s, r, ends, good, own)
      ]

  -- The file itself is left, migrated, or removed in favour of a record of the same reservation.
  settle_name-Keeps :
      (n s id : String) (r : PendingCommitRecord) (d : Dir Text)
      → n ≡ String.◌++◌ s ".json"
      → record_in sha256 json f n d ≡ some r
      → str_eq r.reservation_id id ≡ true
      → str_eq n (safe_filename sha256 json r.reservation_id) ≡ false
      → Keeps id (settle_name sha256 json f n r d).1
  unfolding settle_name moved
  settle_name-Keeps n s id r d ends good own legacy =
      let S = safe_filename sha256 json r.reservation_id in
      let (t, standard) = safe_filename-ends sha256 json r.reservation_id in
      elim (Bool-cases (is_some (read S d))) [
        | inr absent ↦ elim (Bool-cases (f.stuck n)) [
          | inl stuck ↦ rw (absent, stuck) (n, s, r, ends, good, own)
          | inr free ↦ rw (absent, free) (S, t, r, standard, record_in-renamed n S d r good, own)
        ]
        | inl there ↦
            rw there
              (against-Keeps n s id r d ends good own legacy (record_in sha256 json f S d) refl)
      ]

  load_file-Keeps :
      (base_url path id : String) (d : Dir Text)
      → Keeps id d
      → Keeps id (load_file sha256 json f base_url path d).1
  unfolding load_file load_entry
  load_file-Keeps base_url path id d (n, s, r, ends, good, own) =
      let there = record_in-present sha256 json f n d r good in
      elim (Bool-cases (str_eq path n)) [
        | inr away ↦
            let same = load_file-away base_url path n s d ends there away in
            (
              n,
              s,
              r,
              ends,
              record_in_local sha256 json f n d (load_file sha256 json f base_url path d).1 same
                  ∙ good,
              own,
            )
        | inl here ↦
            let found : record_in sha256 json f path d ≡ some r =
              rw ((eq_iff path n).0 here) good in
            let ended : path ≡ String.◌++◌ s ".json" = (eq_iff path n).0 here ∙ ends in
            elim (Bool-cases (str_eq path (safe_filename sha256 json r.reservation_id))) [
              | inl standard ↦ rw (found, load_file, standard) (path, s, r, ended, found, own)
              | inr legacy ↦
                  rw (found, load_file, legacy)
                    (settle_name-Keeps path s id r d ended found own legacy)
            ]
      ]

  load_files-Keeps :
      (base_url id : String) (paths : List String) (d : Dir Text)
      → Keeps id d
      → Keeps id (load_files sha256 json f base_url paths d).1
  unfolding load_files
  load_files-Keeps base_url id [] d h = h
  load_files-Keeps base_url id (path ∷ paths) d h =
      load_files-Keeps base_url id paths (load_file sha256 json f base_url path d).1
        (load_file-Keeps base_url path id d h)

  -- With readable files, `load_pending` loses no reservation: if some file of the journal holds a
  -- record of it, under its standard name or an older one, then some file does afterwards, whatever
  -- was migrated, removed as a duplicate or set aside as corrupt, and whichever of these steps fail.
  pub load_pending-Keeps :
      (stale : String → Bool) (base_url id : String) (d : Dir Text)
      → Keeps id d
      → Keeps id (load_pending sha256 json f stale base_url d).1
  unfolding load_pending
  load_pending-Keeps stale base_url id d (n, s, r, ends, good, own) =
      let d₁ = reap stale (with_suffix ".tmp" (names d)) d in
      let reaped =
        read-reap stale (with_suffix ".tmp" (names d)) d n (json_not_tmp (names d) n s ends) in
      load_files-Keeps base_url id (sort_names (with_suffix ".json" (names d₁))) d₁
        (n, s, r, ends, record_in_local sha256 json f n d d₁ reaped ∙ good, own)
