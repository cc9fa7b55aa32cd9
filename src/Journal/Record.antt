-- ===== src/Journal/Record.antt =====
-- runcycles/journal.py: `PendingCommitRecord` and its JSON form.
use cycles_client_python.Prelude.{
  ◌≡◌, ℕ, pos, is_nat, String, Bool, true, false, Option, none, some, str_eq, if◌then◌else◌,
  is_some, Result, ok, err, ◌>>=◌, ◌>>◌, guard,
}
use cycles_client_python.Json.{Json, null, int, str, obj, Fields, end, field, get}

-- "commit" | "event"
pub data Mode : Type 0 where
  commit event : Mode

pub record PendingCommitRecord : Type 0 where
  pub reservation_id : String
  pub base_url : String
  pub mode : Mode
  pub commit_body : Option Fields
  pub event_fallback_body : Option Fields
  pub recorded_at_ms : ℕ
  pub not_before_ms : Option ℕ

-- The `ValueError`s of `from_json`, in the order of its tests.
pub data Malformed : Type 0 where
  not_json not_an_object unsupported_version missing_reservation_id unknown_mode : Malformed
  missing_commit_body missing_event_fallback_body invalid_commit_body : Malformed
  invalid_event_fallback_body invalid_base_url invalid_recorded_at_ms invalid_not_before_ms :
      Malformed

abbrev mode_name : Mode → String
mode_name commit = "commit"
mode_name event = "event"

abbrev body_json : Option Fields → Json
body_json none = null
body_json (some d) = obj d

abbrev floor_json : Option ℕ → Json
floor_json none = null
floor_json (some n) = int (pos n)

-- The dict that `to_json` hands to `json.dumps`.
unfoldable pub to_object : PendingCommitRecord → Json
to_object r = obj (
    field "version" (int (pos 1)) (
      field "reservation_id" (str r.reservation_id) (
        field "base_url" (str r.base_url) (
          field "mode" (str (mode_name r.mode)) (
            field "commit_body" (body_json r.commit_body) (
              field "event_fallback_body" (body_json r.event_fallback_body) (
                field "recorded_at_ms" (int (pos r.recorded_at_ms))
                  (field "not_before_ms" (floor_json r.not_before_ms) end))))))))

-- An `isinstance(v, int) and not isinstance(v, bool)` equal to 1
version_ok : Option Json → Bool
version_ok (some (int z)) = is_nat z 1
version_ok _ = false

id_of : Option Json → Result Malformed String
id_of (some (str s)) = if str_eq s "" then err missing_reservation_id else ok s
id_of _ = err missing_reservation_id

mode_of : Option Json → Result Malformed Mode
mode_of none = ok commit
mode_of (some (str s)) =
    if str_eq s "commit" then ok commit else if str_eq s "event" then ok event else err unknown_mode
mode_of (some _) = err unknown_mode

is_dict : Option Json → Bool
is_dict (some (obj d)) = true
is_dict _ = false

body_present : Mode → Fields → Result Malformed (Unit {0})
unfolding is_dict
body_present commit d = guard (is_dict (get "commit_body" d)) missing_commit_body
body_present event d = guard (is_dict (get "event_fallback_body" d)) missing_event_fallback_body

body_of : Malformed → Option Json → Result Malformed (Option Fields)
body_of e none = ok none
body_of e (some null) = ok none
body_of e (some (obj d)) = ok (some d)
body_of e (some _) = err e

base_url_of : Option Json → Result Malformed String
base_url_of none = ok ""
base_url_of (some (str s)) = ok s
base_url_of (some _) = err invalid_base_url

recorded_at_of : Option Json → Result Malformed ℕ
recorded_at_of none = ok 0
recorded_at_of (some (int (pos n))) = ok n
recorded_at_of (some _) = err invalid_recorded_at_ms

not_before_of : Option Json → Result Malformed (Option ℕ)
not_before_of none = ok none
not_before_of (some null) = ok none
not_before_of (some (int (pos n))) = ok (some n)
not_before_of (some _) = err invalid_not_before_ms

from_fields : Fields → Result Malformed PendingCommitRecord
unfolding get version_ok id_of mode_of body_present body_of base_url_of recorded_at_of not_before_of
from_fields d = do
  guard (version_ok (get "version" d)) unsupported_version
  id ← id_of (get "reservation_id" d)
  m ← mode_of (get "mode" d)
  body_present m d
  c ← body_of invalid_commit_body (get "commit_body" d)
  e ← body_of invalid_event_fallback_body (get "event_fallback_body" d)
  url ← base_url_of (get "base_url" d)
  at ← recorded_at_of (get "recorded_at_ms" d)
  floor ← not_before_of (get "not_before_ms" d)
  ok (record {
    reservation_id = id;
    base_url = url;
    mode = m;
    commit_body = c;
    event_fallback_body = e;
    recorded_at_ms = at;
    not_before_ms = floor;
  })

-- `from_json` after `json.loads`
unfoldable pub from_object : Json → Result Malformed PendingCommitRecord
unfolding from_fields
from_object (obj d) = from_fields d
from_object _ = err not_an_object

-- `json.dumps` and `json.loads`: texts that a dump wrote are read back.
pub record JsonText (Text : Type 0) : Type 0 where
  pub dumps : Json → Text
  pub loads : Text → Option Json
  pub loads-dumps : (v : Json) → loads (dumps v) ≡ some v

module _ {Text : Type 0} (json : JsonText Text) where
  unfoldable pub to_json : PendingCommitRecord → Text
  to_json r = json.dumps (to_object r)

  unfoldable pub from_json : Text → Result Malformed PendingCommitRecord
  from_json raw = elim (json.loads raw) [ none ↦ err not_json | some v ↦ from_object v ]

-- What `from_json` asks of a record.
pub record IsWellFormed (r : PendingCommitRecord) : Type 0 where
  pub identified : str_eq r.reservation_id "" ≡ false
  pub committable : r.mode ≡ commit → is_some r.commit_body ≡ true
  pub recoverable : r.mode ≡ event → is_some r.event_fallback_body ≡ true
