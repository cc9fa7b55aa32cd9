-- ===== src/Journal/Contents.antt =====
-- The record that a file's text was written from.

use cycles_client_python.Prelude.{
  ℕ, pos, ◌≡◌, refl, String, Option, none, some, str_eq, if◌then◌else◌,
}
use cycles_client_python.Json.{Json, str, int, obj, Fields, get}
use cycles_client_python.Journal.Record.{PendingCommitRecord, Mode, commit, event, to_object}
use cycles_client_python.Journal.RoundTrip.{entry}

text_or : Option Json → String
text_or (some (str s)) = s
text_or _ = ""

dict_or : Option Json → Option Fields
dict_or (some (obj d)) = some d
dict_or _ = none

count_or : Option Json → Option ℕ
count_or (some (int (pos n))) = some n
count_or _ = none

number_or : Option Json → ℕ
number_or (some (int (pos n))) = n
number_or _ = 0

mode_or : Option Json → Mode
mode_or (some (str s)) = if str_eq s "event" then event else commit
mode_or _ = commit

-- The record that a text was written from, whether or not a later start would accept it.
unfoldable pub written : Json → Option PendingCommitRecord
unfolding text_or dict_or count_or number_or mode_or get
written (obj d) = some (record {
  reservation_id = text_or (get "reservation_id" d);
  base_url = text_or (get "base_url" d);
  mode = mode_or (get "mode" d);
  commit_body = dict_or (get "commit_body" d);
  event_fallback_body = dict_or (get "event_fallback_body" d);
  recorded_at_ms = number_or (get "recorded_at_ms" d);
  not_before_ms = count_or (get "not_before_ms" d);
})
written _ = none

module _ (id url : String) (at : ℕ) where
  rewritten :
      (m : Mode) (c e : Option Fields) (floor : Option ℕ)
      → written (to_object (entry id url m c e at floor)) ≡ some (entry id url m c e at floor)
  unfolding to_object written
  rewritten commit none none none = refl
  rewritten commit none none (some t) = refl
  rewritten commit none (some e) none = refl
  rewritten commit none (some e) (some t) = refl
  rewritten commit (some c) none none = refl
  rewritten commit (some c) none (some t) = refl
  rewritten commit (some c) (some e) none = refl
  rewritten commit (some c) (some e) (some t) = refl
  rewritten event none none none = refl
  rewritten event none none (some t) = refl
  rewritten event none (some e) none = refl
  rewritten event none (some e) (some t) = refl
  rewritten event (some c) none none = refl
  rewritten event (some c) none (some t) = refl
  rewritten event (some c) (some e) none = refl
  rewritten event (some c) (some e) (some t) = refl

pub written-to_object : (r : PendingCommitRecord) → written (to_object r) ≡ some r
written-to_object r =
    rewritten r.reservation_id r.base_url r.recorded_at_ms r.mode r.commit_body
      r.event_fallback_body r.not_before_ms
