-- ===== src/Journal/Refines.antt =====
-- The files of the journal, when they can be read and written, implement the interface that the retry
-- engine uses.
use cycles_client_python.Journal.Interface.{Journal}
use Prim.Native.String.{◌++◌}
use text.Mathlib.TextLemmas.{append_assoc, append_cancel_left, append_cancel_right}
use cycles_client_python.Prelude.{
  ◌≡◌, refl, sym, ◌∙◌, ap, inl, inr, String, false, Option, none, some, str_eq, eq_iff, eq_refl,
  if◌then◌else◌, arith, Bool-cases,
}
use cycles_client_python.Journal.Files.{Dir, read}
use cycles_client_python.Journal.Record.{PendingCommitRecord, JsonText, to_object, to_json}
use cycles_client_python.Journal.RoundTrip.{from_json-id}
use cycles_client_python.Journal.Names.{not-str_eq, tmp-json}
use cycles_client_python.Journal.Store.{
  completes, Faults, record_file, safe_filename, discard_file, record_in,
}
use cycles_client_python.Journal.Atomic.{temporary, read-completes, discarded, record_in_local}
use cycles_client_python.Journal.Contents.{written, written-to_object}

abbrev pub no_faults : Faults
no_faults = record { unreadable = λ n. false; stuck = λ n. false }

module _ (sha256 : String → String) {Text : Type 0} (json : JsonText Text) where
  -- A digest without collisions: what the name of a record relies on.
  abbrev pub IsInjective : Type 0
  IsInjective = (a b : String) → sha256 a ≡ sha256 b → a ≡ b

  -- Every standard file that holds a record holds one of its own reservation.
  abbrev pub IsTidy : Dir Text → Type 0
  IsTidy d =
      (id : String) (e : PendingCommitRecord)
      → record_in sha256 json no_faults (safe_filename sha256 json id) d ≡ some e
      → e.reservation_id ≡ id

  pub safe_filename_inj :
      IsInjective
      → (a b : String) → safe_filename sha256 json a ≡ safe_filename sha256 json b
      → a ≡ b
  unfolding safe_filename
  safe_filename_inj inj a b e =
      inj a b (append_cancel_right _ _ ".json" (append_cancel_left "v2-" _ _ e))

  safe_filename_eq :
      IsInjective
      → (a b : String)
      → str_eq (safe_filename sha256 json a) (safe_filename sha256 json b) ≡ str_eq a b
  safe_filename_eq inj a b = elim (Bool-cases (str_eq a b)) [
    | inl same ↦ rw ((eq_iff a b).0 same) (eq_refl _ ∙ sym (eq_refl b))
    | inr differs ↦
        not-str_eq _ _ (λ e.
          let same = sym ((eq_iff a b).1 (safe_filename_inj inj a b e)) in cc (same ∙ differs))
        ∙ sym differs
  ]

  temporary-safe :
      (unique : String) (e : PendingCommitRecord) (id : String)
      → str_eq (temporary sha256 json unique e) (safe_filename sha256 json id) ≡ false
  unfolding safe_filename
  temporary-safe unique e id =
      let own = "v2-" ++ (sha256 e.reservation_id ++ ".json") in
      let stem = "v2-" ++ sha256 id in
      let p : (own ++ ("." ++ unique)) ++ ".tmp" ≡ temporary sha256 json unique e =
        append_assoc own ("." ++ unique) ".tmp"
        ∙ ap (λ x. own ++ x) (append_assoc "." unique ".tmp") in
      let q : stem ++ ".json" ≡ safe_filename sha256 json id =
        append_assoc "v2-" (sha256 id) ".json" in
      not-str_eq _ _ (λ eq. tmp-json (own ++ ("." ++ unique)) stem (p ∙ eq ∙ sym q))

  -- The record that a directory holds for a reservation
  unfoldable pub content : Option Text → Option PendingCommitRecord
  content none = none
  content (some t) = elim (json.loads t) [ none ↦ none | some v ↦ written v ]

  unfoldable pub find_file : Dir Text → String → Option PendingCommitRecord
  find_file d id = content (read (safe_filename sha256 json id) d)

  content-to_json : (e : PendingCommitRecord) → content (some (to_json json e)) ≡ some e
  unfolding content to_json
  content-to_json e = rw (json.loads-dumps (to_object e), content) (written-to_object e)

  -- Writing a record with no fault makes it the record of its reservation, and of no other.
  pub find_file-record_file :
      IsInjective
      → (unique : String) (e : PendingCommitRecord) (d : Dir Text) (id : String)
      → find_file (record_file sha256 json unique e completes d) id
        ≡ (if str_eq e.reservation_id id then some e else find_file d id)
  unfolding find_file
  find_file-record_file inj unique e d id =
      let target = safe_filename sha256 json id in
      let d' = record_file sha256 json unique e completes d in
      let seen = read-completes sha256 json unique e d target in
      let other = temporary-safe unique e id in
      elim (Bool-cases (str_eq e.reservation_id id)) [
        | inl same ↦
            let now : read target d' ≡ some (to_json json e) =
              rw (seen, safe_filename_eq inj e.reservation_id id, same) in
            rw same (ap content now ∙ content-to_json e)
        | inr differs ↦
            let still : read target d' ≡ read target d =
              rw (seen, safe_filename_eq inj e.reservation_id id, differs, other) in
            rw differs (ap content still)
      ]

  -- Discarding a reservation with no fault, from tidy files, makes it have no record, and no other.
  pub find_file-discard_file :
      IsInjective
      → (k : String) (d : Dir Text) (id : String) → IsTidy d
      → find_file (discard_file sha256 json no_faults k d) id
        ≡ (if str_eq k id then none else find_file d id)
  unfolding find_file content
  find_file-discard_file inj k d id tidy =
      let target = safe_filename sha256 json id in
      let d' = discard_file sha256 json no_faults k d in
      let (others, own) = discarded sha256 json no_faults k d target in
      elim (Bool-cases (str_eq k id)) [
        | inl same ↦
            let (_, gone) = discarded sha256 json no_faults k d target in
            let here : read target d' ≡ none = rw (sym ((eq_iff k id).0 same)) (own refl) in
            rw same (ap content here)
        | inr differs ↦ rw differs (elim (others (rw (safe_filename_eq inj k id) differs)) [
          | inl still ↦ ap content still
          | inr (gone, (named, (e, found, mine))) ↦
              let one : k ≡ id = sym ((eq_iff e.reservation_id k).0 mine) ∙ tidy id e found in
              cc (sym ((eq_iff k id).1 one) ∙ differs)
        ])
      ]

  pub record_in-absent :
      (n : String) (d : Dir Text) → read n d ≡ none → record_in sha256 json no_faults n d ≡ none
  unfolding record_in
  record_in-absent n d h = rw h

  -- A record that is read back, from a text that was written, has the id that was written.
  record_in-written :
      (n : String) (d : Dir Text) (e r : PendingCommitRecord)
      → read n d ≡ some (to_json json e)
      → record_in sha256 json no_faults n d ≡ some r
      → r.reservation_id ≡ e.reservation_id
  unfolding record_in
  record_in-written n d e r text found = ground (arith, text, found, from_json-id json e r)

  pub record_file-IsTidy :
      IsInjective
      → (unique : String) (e : PendingCommitRecord) (d : Dir Text) → IsTidy d
      → IsTidy (record_file sha256 json unique e completes d)
  record_file-IsTidy inj unique e d tidy id r found =
      let target = safe_filename sha256 json id in
      let d' = record_file sha256 json unique e completes d in
      let seen = read-completes sha256 json unique e d target in
      elim (Bool-cases (str_eq e.reservation_id id)) [
        | inl same ↦
            let now : read target d' ≡ some (to_json json e) =
              rw (seen, safe_filename_eq inj e.reservation_id id, same) in
            record_in-written target d' e r now found ∙ (eq_iff e.reservation_id id).0 same
        | inr differs ↦
            let still : read target d' ≡ read target d = rw (
              seen,
              safe_filename_eq inj e.reservation_id id,
              differs,
              temporary-safe unique e id,
            ) in
            tidy id r (sym (record_in_local sha256 json no_faults target d d' still) ∙ found)
      ]

  pub discard_file-IsTidy :
      (k : String) (d : Dir Text) → IsTidy d → IsTidy (discard_file sha256 json no_faults k d)
  discard_file-IsTidy k d tidy id r found =
      let target = safe_filename sha256 json id in
      let d' = discard_file sha256 json no_faults k d in
      let (others, own) = discarded sha256 json no_faults k d target in
      elim (Bool-cases (str_eq (safe_filename sha256 json k) target)) [
        | inl same ↦
            let here : read target d' ≡ none =
              rw (sym ((eq_iff (safe_filename sha256 json k) target).0 same)) (own refl) in
            cc (record_in-absent target d' here, found)
        | inr differs ↦ elim (others differs) [
          | inl still ↦
              tidy id r (sym (record_in_local sha256 json no_faults target d d' still) ∙ found)
          | inr (gone, mine) ↦ cc (record_in-absent target d' gone, found)
        ]
      ]

  -- Files that can be read and written, with a digest that has no collisions, refine the journal that
  -- the retry engine relies on: recording makes the record that of its reservation and changes no
  -- other's; discarding leaves its reservation without one and changes no other's; and both keep every
  -- standard file to its own reservation, from which this follows for the next step.
  pub files_refine_journal :
      IsInjective
      → (unique : String) (e : PendingCommitRecord) (k id : String) (d : Dir Text) → IsTidy d
      → (find_file (record_file sha256 json unique e completes d) id
          ≡ (if str_eq e.reservation_id id then some e else find_file d id))
        × (find_file (discard_file sha256 json no_faults k d) id
            ≡ (if str_eq k id then none else find_file d id))
        × IsTidy (record_file sha256 json unique e completes d)
        × IsTidy (discard_file sha256 json no_faults k d)
  files_refine_journal inj unique e k id d tidy = (
    find_file-record_file inj unique e d id,
    find_file-discard_file inj k d id tidy,
    record_file-IsTidy inj unique e d tidy,
    discard_file-IsTidy k d tidy,
  )

  abbrev pub TidyDir : Type 0
  TidyDir = (d : Dir Text) × IsTidy d

  -- The journal of the retry engine, over files; `unique` names the temporary files.
  abbrev pub file_journal : IsInjective → String → Journal TidyDir
  file_journal inj unique = record {
    find = λ (d, tidy) id. find_file d id;
    write = λ e (d, tidy).
        (record_file sha256 json unique e completes d, record_file-IsTidy inj unique e d tidy);
    discard = λ k (d, tidy). (discard_file sha256 json no_faults k d, discard_file-IsTidy k d tidy);
    find-write = λ e (d, tidy) id. find_file-record_file inj unique e d id;
    find-discard = λ k (d, tidy) id. find_file-discard_file inj k d id tidy;
  }
