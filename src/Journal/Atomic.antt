-- ===== src/Journal/Atomic.antt =====
-- What writing and discarding one record leave of the files.

use Prim.Native.String.{◌++◌}
use cycles_client_python.Prelude.{
  ◌≡◌, refl, sym, ◌∙◌, ◌⊎◌, inl, inr, String, Bool, true, false, Option, none, some, str_eq, eq_iff,
  eq_refl, if◌then◌else◌, arith, Bool-cases, Option-cases, ◌&&◌,
}
use cycles_client_python.Journal.Files.{
  Dir, read, write, unlink, read-write, read-unlink, read-rename,
}
use cycles_client_python.Journal.Record.{PendingCommitRecord, JsonText, to_json}
use cycles_client_python.Journal.Names.{not-str_eq, dotted}
use cycles_client_python.Journal.Store.{
  WriteRun, completes, no_directory, write_fails, rename_fails, Faults, record_file, safe_filename,
  discard_file, discard_legacy, legacy_filename, record_in, cleaned, partial, unlinked,
}

module _ (sha256 : String → String) {Text : Type 0} (json : JsonText Text) where
  abbrev pub temporary : String → PendingCommitRecord → String
  temporary unique e = safe_filename sha256 json e.reservation_id ++ ("." ++ (unique ++ ".tmp"))

  pub temporary-target :
      (unique : String) (e : PendingCommitRecord)
      → str_eq (temporary unique e) (safe_filename sha256 json e.reservation_id) ≡ false
  temporary-target unique e = not-str_eq _ _ (dotted _ (unique ++ ".tmp"))

  pub read-completes :
      (unique : String) (e : PendingCommitRecord) (d : Dir Text) (n : String)
      → read n (record_file sha256 json unique e completes d) ≡ (
          if str_eq (safe_filename sha256 json e.reservation_id) n
          then some (to_json json e)
          else if str_eq (temporary unique e) n
          then none
          else read n d)
  unfolding record_file
  read-completes unique e d n =
      let target = safe_filename sha256 json e.reservation_id in
      let tmp = temporary unique e in
      let text = to_json json e in
      let written : read tmp (write tmp text d) ≡ some text =
        rw (read-write tmp tmp text d, eq_refl tmp) in
      ground
        (arith, read-rename n tmp target (write tmp text d) text written, read-write n tmp text d)

  -- A removal, or a removal that fails, of the temporary file after a writing to it.
  read-cleaned :
      (removed : Bool) (tmp : String) (left : Option Text) (d : Dir Text) (n : String)
      → str_eq tmp n ≡ false
      → read n (cleaned removed tmp (partial tmp left d)) ≡ read n d
  unfolding cleaned partial
  read-cleaned true tmp none d n other = rw (read-unlink n tmp d, other)
  read-cleaned false tmp none d n other = refl
  read-cleaned true tmp (some t) d n other =
      ground (arith, read-unlink n tmp (write tmp t d), read-write n tmp t d)
  read-cleaned false tmp (some t) d n other = ground (arith, read-write n tmp t d)

  -- Whether the writing came to its end
  abbrev pub is_done : WriteRun Text → Bool
  is_done completes = true
  is_done _ = false

  -- Whatever goes wrong while a record is written, and also if the process is killed: every file but
  -- the temporary one is as it was, except that after a writing without a fault the record's own file
  -- has the whole text of the record.
  pub record_file_atomic :
      (unique : String) (e : PendingCommitRecord) (run : WriteRun Text) (d : Dir Text) (n : String)
      → str_eq (temporary unique e) n ≡ false
      → read n (record_file sha256 json unique e run d) ≡ (
          if is_done run && str_eq (safe_filename sha256 json e.reservation_id) n
          then some (to_json json e)
          else read n d)
  unfolding record_file
  record_file_atomic unique e no_directory d n other = refl
  record_file_atomic unique e (write_fails left removed) d n other =
      read-cleaned removed (temporary unique e) left d n other
  record_file_atomic unique e (rename_fails removed) d n other =
      unfold partial in read-cleaned removed (temporary unique e) (some (to_json json e)) d n other
  record_file_atomic unique e completes d n other = rw (read-completes unique e d n, other) refl

  -- What `discard` may remove beside the standard file: the legacy file of the same reservation.
  abbrev pub IsOwnLegacy : Faults → String → String → Dir Text → Type 0
  IsOwnLegacy f id n d =
      (str_eq (legacy_filename id) n ≡ true)
      × ((e : PendingCommitRecord) × (record_in sha256 json f n d ≡ some e)
          × (str_eq e.reservation_id id ≡ true))

  legacy_keeps :
      (f : Faults) (id : String) (d : Dir Text) (n : String)
      → let d' = discard_legacy sha256 json f id d in
        (read n d' ≡ read n d) ⊎ ((read n d' ≡ none) × IsOwnLegacy f id n d)
  unfolding discard_legacy unlinked
  legacy_keeps f id d n =
      let legacy = legacy_filename id in
      elim (Option-cases (record_in sha256 json f legacy d)) [
        | inl bad ↦ inl (rw (bad, discard_legacy))
        | inr (e, found) ↦ elim (Bool-cases (str_eq legacy n)) [
          | inl same ↦ elim (Bool-cases (str_eq e.reservation_id id)) [
            | inl own ↦ elim (Bool-cases (f.stuck legacy)) [
              | inl stuck ↦ inl (rw (found, discard_legacy, own, stuck))
              | inr free ↦ inr (
                rw (found, discard_legacy, own, free) (rw (read-unlink n legacy d, same)),
                (same, (e, rw (sym ((eq_iff legacy n).0 same)) found, own)),
              )
            ]
            | inr other ↦ inl (rw (found, discard_legacy, other))
          ]
          | inr differs ↦ inl (ground (arith, found, read-unlink n legacy d))
        ]
      ]

  -- `record_in` looks at its own file only.
  pub record_in_local :
      (f : Faults) (n : String) (d d' : Dir Text)
      → read n d' ≡ read n d
      → record_in sha256 json f n d' ≡ record_in sha256 json f n d
  unfolding record_in
  record_in_local f n d d' same = rw same

  pub discarded :
      (f : Faults) (id : String) (d : Dir Text) (n : String)
      → let target = safe_filename sha256 json id in
        let d' = discard_file sha256 json f id d in
        (str_eq target n ≡ false
          → (read n d' ≡ read n d) ⊎ ((read n d' ≡ none) × IsOwnLegacy f id n d))
        × (f.stuck target ≡ false → read target d' ≡ none)
  unfolding discard_file
  discarded f id d n =
      let target = safe_filename sha256 json id in
      let d₁ = unlink target d in
      elim (Bool-cases (f.stuck target)) [
        | inl stuck ↦ (λ differs. inl (rw stuck), λ h. cc)
        | inr free ↦ (
          λ differs.
              let same : read n d₁ ≡ read n d = rw (read-unlink n target d, differs) in
              elim (legacy_keeps f id d₁ n) [
                | inl kept ↦ inl (rw free (kept ∙ same))
                | inr (gone, (named, (e, found, own))) ↦
                    inr
                      (rw free gone, (named, (e, sym (record_in_local f n d d₁ same) ∙ found, own)))
              ],
          λ h.
              let gone : read target d₁ ≡ none = rw (read-unlink target target d, eq_refl target) in
              elim (legacy_keeps f id d₁ target) [
                | inl kept ↦ rw free (kept ∙ gone)
                | inr (absent, own) ↦ rw free absent
              ],
        )
      ]

  -- Discarding a reservation, whatever goes wrong: a file that is not its own standard file stays as
  -- it was, or it is a legacy file that held a record of the same reservation and is gone; and the
  -- standard file is gone, unless it cannot be removed: then it is as it was.
  pub discard_file_precise :
      (f : Faults) (id : String) (d : Dir Text) (n : String)
      → str_eq (safe_filename sha256 json id) n ≡ false
      → let target = safe_filename sha256 json id in
        let d' = discard_file sha256 json f id d in
        ((read n d' ≡ read n d) ⊎ ((read n d' ≡ none) × IsOwnLegacy f id n d))
        × (read target d' ≡ (if f.stuck target then read target d else none))
  unfolding discard_file
  discard_file_precise f id d n differs =
      let target = safe_filename sha256 json id in
      let (others, own) = discarded f id d n in
      (
        others differs,
        elim (Bool-cases (f.stuck target)) [
          | inl stuck ↦ rw stuck refl
          | inr free ↦ own free ∙ rw free refl
        ],
      )
