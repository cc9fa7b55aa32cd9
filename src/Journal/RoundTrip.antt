-- ===== src/Journal/RoundTrip.antt =====
-- The two directions of `to_json` and `from_json`.
use cycles_client_python.Prelude.{
  ◌≡◌, refl, ℕ, String, true, false, Option, none, some, ok, arith, str_eq, is_some, Option-cases,
  inl, inr,
}
use cycles_client_python.Json.{Json, Fields}
use cycles_client_python.Journal.Record.{
  PendingCommitRecord, JsonText, IsWellFormed, Mode, commit, event, to_object, from_object, to_json,
  from_json,
}

abbrev pub entry :
    String → String → Mode → Option Fields → Option Fields → ℕ → Option ℕ → PendingCommitRecord
entry id url m c e at floor = record {
  reservation_id = id;
  base_url = url;
  mode = m;
  commit_body = c;
  event_fallback_body = e;
  recorded_at_ms = at;
  not_before_ms = floor;
}

module _ (id url : String) (at : ℕ) (named : str_eq id "" ≡ false) where
  reread :
      (m : Mode) (c e : Option Fields) (floor : Option ℕ)
      → (m ≡ commit → is_some c ≡ true)
      → (m ≡ event → is_some e ≡ true)
      → from_object (to_object (entry id url m c e at floor)) ≡ ok (entry id url m c e at floor)
  unfolding to_object from_object
  reread commit none e floor p q = cc (p refl)
  reread event c none floor p q = cc (q refl)
  reread commit (some c) none none p q = rw named
  reread commit (some c) none (some t) p q = rw named
  reread commit (some c) (some e) none p q = rw named
  reread commit (some c) (some e) (some t) p q = rw named
  reread event none (some e) none p q = rw named
  reread event none (some e) (some t) p q = rw named
  reread event (some c) (some e) none p q = rw named
  reread event (some c) (some e) (some t) p q = rw named

pub from_object-to_object :
    (r : PendingCommitRecord) → IsWellFormed r → from_object (to_object r) ≡ ok r
from_object-to_object r w =
    reread r.reservation_id r.base_url r.recorded_at_ms w.identified r.mode r.commit_body
      r.event_fallback_body r.not_before_ms w.committable w.recoverable

-- What `to_json` writes of a well-formed record, `from_json` reads back as the same record, field
-- by field.
pub from_json-to_json :
    {Text : Type 0} (json : JsonText Text) (r : PendingCommitRecord)
    → IsWellFormed r
    → from_json json (to_json json r) ≡ ok r
unfolding from_json to_json
from_json-to_json json r w =
    rw (json.loads-dumps (to_object r), from_json) (from_object-to_object r w)

from_object-IsWellFormed :
    (v : Json) (r : PendingCommitRecord) → from_object v ≡ ok r → IsWellFormed r
unfolding from_object
from_object-IsWellFormed v r h = ground arith

-- Whatever the text, a record that `from_json` accepts has a reservation id and the body that its
-- mode delivers.
pub from_json-IsWellFormed :
    {Text : Type 0} (json : JsonText Text) (raw : Text) (r : PendingCommitRecord)
    → from_json json raw ≡ ok r
    → IsWellFormed r
unfolding from_json
from_json-IsWellFormed json raw r h = elim (Option-cases (json.loads raw)) [
  | inl e ↦ cc (rw (e, from_json) at h)
  | inr (v, e) ↦ from_object-IsWellFormed v r (rw (e, from_json) at h)
]

from_object-id :
    (e r : PendingCommitRecord)
    → from_object (to_object e) ≡ ok r
    → r.reservation_id ≡ e.reservation_id
unfolding to_object from_object
from_object-id e r h = ground arith

-- A text that was written from a record, if it is accepted, is read back with its id.
pub from_json-id :
    {Text : Type 0} (json : JsonText Text) (e r : PendingCommitRecord)
    → from_json json (to_json json e) ≡ ok r
    → r.reservation_id ≡ e.reservation_id
unfolding from_json to_json
from_json-id json e r h = from_object-id e r (rw (json.loads-dumps (to_object e), from_json) at h)
