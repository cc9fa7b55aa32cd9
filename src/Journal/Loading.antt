-- ===== src/Journal/Loading.antt =====
-- What `load_pending` finds, and what it does to the files on the way.
use Prim.Native.String
use mathlib.Core.List
use text.Mathlib.TextLemmas.{append_assoc}
use cycles_client_python.Prelude.{
  ◌≡◌, refl, sym, ◌∙◌, ap, inl, inr, String, Bool, true, false, some, List, [], ◌∷◌, ◌++◌, str_eq,
  eq_iff, eq_refl, arith, Bool-cases, Option-cases, is_some,
}
use cycles_client_python.Models.{contains}
use cycles_client_python.Journal.Files.{Dir, read, names, stem_of}
use cycles_client_python.Journal.Record.{PendingCommitRecord, JsonText, IsWellFormed, to_json}
use cycles_client_python.Journal.RoundTrip.{from_json-to_json}
use cycles_client_python.Journal.Names.{not-str_eq, corrupt-json, stem_of_some}
use cycles_client_python.Journal.Atomic.{record_in_local, read-completes}
use cycles_client_python.Journal.Store.{
  Faults, completes, record_file, safe_filename, corrupt_name, record_in, sort_names, with_suffix,
  settle_name, load_entry, load_file, load_files, kept_for, reap, load_pending,
}
use cycles_client_python.Journal.Listing.{
  contains-names, contains-sort_names, contains-with_suffix, read-reap, read-moved, read-unlinked,
  corrupt_name-ends, json_not_tmp,
}

module _ (sha256 : String → String) {Text : Type 0} (json : JsonText Text) where
  pub safe_filename-ends :
      (id : String) → (s : String) × (safe_filename sha256 json id ≡ String.◌++◌ s ".json")
  unfolding safe_filename
  safe_filename-ends id =
      (String.◌++◌ "v2-" (sha256 id), sym (append_assoc "v2-" (sha256 id) ".json"))

  pub corrupt-safe :
      (name id : String) → str_eq (corrupt_name name) (safe_filename sha256 json id) ≡ false
  corrupt-safe name id =
      let (s, p) = corrupt_name-ends name in
      let (t, q) = safe_filename-ends id in not-str_eq _ _ (λ e. corrupt-json s t (sym p ∙ e ∙ q))

  pub record_in-present :
      (f : Faults) (n : String) (d : Dir Text) (e : PendingCommitRecord)
      → record_in sha256 json f n d ≡ some e
      → is_some (read n d) ≡ true
  unfolding record_in
  record_in-present f n d e h = ground arith

  pub read-settle_name :
      (f : Faults) (path : String) (e : PendingCommitRecord) (d : Dir Text) (n : String)
      → str_eq path n ≡ false
      → is_some (read n d) ≡ true
      → read n (settle_name sha256 json f path e d).1 ≡ read n d
  unfolding settle_name
  read-settle_name f path e d n away there =
      let standard = safe_filename sha256 json e.reservation_id in
      elim (Bool-cases (str_eq standard n)) [
        | inl same ↦ ground (arith, eq_iff standard n, read-unlinked f path n d away)
        | inr differs ↦
            ground
              (arith, read-moved f path standard n d differs away, read-unlinked f path n d away)
      ]

  -- The record just written is the one that is read.
  pub record_in-completes :
      (f : Faults) (unique : String) (r : PendingCommitRecord) (d : Dir Text)
      → IsWellFormed r
      → f.unreadable (safe_filename sha256 json r.reservation_id) ≡ false
      → record_in sha256 json f
          (safe_filename sha256 json r.reservation_id)
          (record_file sha256 json unique r completes d)
        ≡ some r
  unfolding record_in
  record_in-completes f unique r d ok_record readable =
      let S = safe_filename sha256 json r.reservation_id in
      let there : read S (record_file sha256 json unique r completes d) ≡ some (to_json json r) =
        rw (read-completes sha256 json unique r d S, eq_refl S) refl in
      rw (readable, there, from_json-to_json json r ok_record)

  module _ (f : Faults) (base_url id : String) (e : PendingCommitRecord)
      (named : e.reservation_id ≡ id) (based : str_eq e.base_url base_url ≡ true) where
    -- The directory holds the record, under its standard name and readable.
    abbrev pub Holds : Dir Text → Type 0
    Holds d = record_in sha256 json f (safe_filename sha256 json id) d ≡ some e

    load_file-own :
        (d : Dir Text)
        → Holds d
        → load_file sha256 json f base_url (safe_filename sha256 json id) d ≡ (e ∷ [], d)
    unfolding load_file load_entry kept_for
    load_file-own d h =
        let same : str_eq (safe_filename sha256 json id)
              (safe_filename sha256 json e.reservation_id)
            ≡ true =
          rw named (eq_refl (safe_filename sha256 json id)) in
        rw (h, load_file, same, based)

    load_file-other :
        (path : String) (d : Dir Text)
        → Holds d
        → str_eq path (safe_filename sha256 json id) ≡ false
        → let S = safe_filename sha256 json id in
          read S (load_file sha256 json f base_url path d).1 ≡ read S d
    unfolding load_file load_entry
    load_file-other path d h away =
        let S = safe_filename sha256 json id in
        elim (Option-cases (record_in sha256 json f path d)) [
          | inl bad ↦
              rw (bad, load_file)
                (read-moved f path (corrupt_name path) S d (corrupt-safe path id) away)
          | inr (r, good) ↦
              let settled = read-settle_name f path r d S away (record_in-present f S d e h) in
              elim (Bool-cases (str_eq path (safe_filename sha256 json r.reservation_id))) [
                | inl standard ↦ rw (good, load_file, standard)
                | inr legacy ↦ rw (good, load_file, legacy) settled
              ]
        ]

    -- The record is among those found.
    abbrev pub IsAmong : List PendingCommitRecord → Type 0
    IsAmong found =
        (xs : List PendingCommitRecord) × (ys : List PendingCommitRecord) × (found ≡ xs ++ (e ∷ ys))

    load_files-own :
        (paths : List String) (d : Dir Text)
        → Holds d
        → let (found, d') = load_files sha256 json f base_url paths d in
          let S = safe_filename sha256 json id in
          (read S d' ≡ read S d) × (contains paths S ≡ true → IsAmong found)
    unfolding load_files contains
    load_files-own [] d h = (refl, λ c. cc)
    load_files-own (path ∷ paths) d h =
        let S = safe_filename sha256 json id in
        elim (Bool-cases (str_eq path S)) [
          | inl same ↦
              let own : load_file sha256 json f base_url path d ≡ (e ∷ [], d) =
                rw ((eq_iff path S).0 same) (load_file-own d h) in
              let (kept, _) = load_files-own paths d h in
              (rw own kept, λ c. ([], (load_files sha256 json f base_url paths d).0, rw own refl))
          | inr other ↦
              let d₁ = (load_file sha256 json f base_url path d).1 in
              let same = load_file-other path d h other in
              let h₁ = record_in_local sha256 json f S d d₁ same ∙ h in
              let (kept, found) = load_files-own paths d₁ h₁ in
              (
                kept ∙ same,
                λ c.
                    let (xs, ys, is) = found (rw other at c) in
                    (
                      (load_file sha256 json f base_url path d).0 ++ xs,
                      ys,
                      ap (λ zs. (load_file sha256 json f base_url path d).0 ++ zs) is
                          ∙ sym (List.append_assoc _ xs (e ∷ ys)),
                    ),
              )
        ]

    -- A record of the given server that is readable under its standard name is found by
    -- `load_pending`, and its file is left as it was, whatever other files there are, and whatever
    -- goes wrong with them.
    pub load_pending-finds :
        (stale : String → Bool) (d : Dir Text)
        → Holds d
        → let (found, d') = load_pending sha256 json f stale base_url d in Holds d' × IsAmong found
    unfolding load_pending
    load_pending-finds stale d h =
        let S = safe_filename sha256 json id in
        let d₁ = reap stale (with_suffix ".tmp" (names d)) d in
        let reaped : read S d₁ ≡ read S d =
          read-reap stale (with_suffix ".tmp" (names d)) d S
            (json_not_tmp (names d) S (safe_filename-ends id).0 (safe_filename-ends id).1) in
        let h₁ = record_in_local sha256 json f S d d₁ reaped ∙ h in
        let paths = sort_names (with_suffix ".json" (names d₁)) in
        let (s, ends) = safe_filename-ends id in
        let suffixed : is_some (stem_of ".json" S) ≡ true = rw ends (stem_of_some ".json" s) in
        let listed : contains paths S ≡ true =
          contains-sort_names (with_suffix ".json" (names d₁)) S
          ∙ contains-with_suffix ".json" (names d₁) S suffixed
              (contains-names d₁ S (record_in-present f S d₁ e h₁)) in
        let (kept, found) = load_files-own paths d₁ h₁ in
        (
          record_in_local sha256 json f S d₁ (load_files sha256 json f base_url paths d₁).1 kept
              ∙ h₁,
          found listed,
        )
