-- ===== src/Lifecycle/Declared.antt =====
-- The bodies of the settlement requests are valid requests by the limits that runcycles/models.py
-- declares.
pub mod Reservation
use cycles_client_python.Prelude.{
  ◌≡◌, refl, ap, ◌∙◌, ℕ, ◌≤◌, pos, String, Bool, true, false, ◌&&◌, Option, none, some, arith, inl,
  inr, leb, Bool-cases, Option-cases, ok,
}
use cycles_client_python.Json.{
  Json, str, int, obj, null, Fields, end, field, get, has_key, set, is_empty,
}
use cycles_client_python.Models.{CyclesMetrics, is_unset}
use cycles_client_python.Models.Requests.{
  accepts_entry, accepts_all, has_required, is_valid, or_null, text_within, int_within, is_count,
  is_dict, one_of, is_model, unit_texts, amount_rules, metrics_rules, commit_rules, release_rules,
  extend_rules, event_rules, subject_rules, action_rules,
}
use cycles_client_python.Models.Requests.Valid.{set-IsValid, get-IsAccepted}
use cycles_client_python.Response.RetryAfter.{int64_max}
use cycles_client_python.Heartbeat.Heart.{build_extend_body}
use cycles_client_python.Validation.{text_fits}
use cycles_client_python.Lifecycle.Bodies.{
  amount, key_or, dump_metrics, with_metrics, with_metadata, build_commit_body,
  build_event_fallback_body, build_release_body, json_or_null, copy_metrics, event_base,
}

pub amount-IsValid :
    (unit : String) (n : ℕ)
    → one_of unit_texts (str unit) ≡ true
    → n ≤ int64_max
    → is_model amount_rules (amount unit (pos n)) ≡ true
unfolding is_model is_valid accepts_all has_required amount_rules int_within has_key get
amount-IsValid unit n known le = ground arith

abbrev pub metrics_fit : Option CyclesMetrics → Bool
metrics_fit none = true
metrics_fit (some m) = text_fits 128 m.model_version

dump_metrics-IsValid :
    (m : CyclesMetrics)
    → text_fits 128 m.model_version ≡ true
    → is_model metrics_rules (obj (dump_metrics m)) ≡ true
unfolding is_model is_valid accepts_all has_required metrics_rules dump_metrics text_fits or_null
    is_count text_within is_dict
dump_metrics-IsValid m fits = ground arith

taken : (v : Fields) → accepts_entry commit_rules "metadata" (obj v) ≡ true
unfolding accepts_entry commit_rules or_null is_dict
taken v = refl

base-IsValid :
    (n : ℕ) (unit key : String)
    → one_of unit_texts (str unit) ≡ true
    → n ≤ int64_max
    → text_within 1 256 (str key) ≡ true
    → is_valid commit_rules
        (field "idempotency_key" (str key) (field "actual" (amount unit (pos n)) end))
      ≡ true
unfolding is_valid accepts_all accepts_entry has_required commit_rules has_key get
base-IsValid n unit key known le keyed =
    let a = amount-IsValid unit n known le in ground (arith, a, keyed)

-- The metrics and the metadata of a commit only add valid entries.
with_metadata-IsValid :
    (d : Option Fields) (b : Fields)
    → is_valid commit_rules b ≡ true
    → is_valid commit_rules (with_metadata d b) ≡ true
unfolding with_metadata
with_metadata-IsValid none b valid = valid
with_metadata-IsValid (some end) b valid = valid
with_metadata-IsValid (some (field k v d)) b valid =
    set-IsValid commit_rules "metadata" (obj (field k v d)) b (taken (field k v d)) valid

with_metrics-IsValid :
    (m : Option CyclesMetrics) (b : Fields)
    → metrics_fit m ≡ true
    → is_valid commit_rules b ≡ true
    → is_valid commit_rules (with_metrics m b) ≡ true
unfolding with_metrics accepts_entry commit_rules or_null
with_metrics-IsValid none b fits valid = valid
with_metrics-IsValid (some m) b fits valid = elim (Bool-cases (is_unset m)) [
  | inl empty ↦ rw empty valid
  | inr full ↦ rw full (
      set-IsValid commit_rules "metrics" (obj (dump_metrics m)) b (dump_metrics-IsValid m fits)
        valid)
]

-- The body of a commit in a known unit, of a 64-bit amount, with metrics whose model version is at most
-- 128 characters long, if they have one, and a key of 1 to 256 characters is a valid request.
pub build_commit_body-IsValid :
    (n : ℕ) (unit : String) (m : Option CyclesMetrics) (metadata : Option Fields)
    (key : Option String) (fresh : String)
    → one_of unit_texts (str unit) ≡ true
    → n ≤ int64_max
    → metrics_fit m ≡ true
    → text_within 1 256 (str (key_or key fresh)) ≡ true
    → is_valid commit_rules (build_commit_body (pos n) unit m metadata key fresh) ≡ true
unfolding build_commit_body
build_commit_body-IsValid n unit m metadata key fresh known le fits keyed =
    with_metadata-IsValid metadata _
      (with_metrics-IsValid m _ fits (base-IsValid n unit (key_or key fresh) known le keyed))

-- A release with a key of 1 to 256 characters and a reason of at most 256 is a valid request.
pub build_release_body-IsValid :
    (reason : String) (key : Option String) (fresh : String)
    → text_within 0 256 (str reason) ≡ true
    → text_within 1 256 (str (key_or key fresh)) ≡ true
    → is_valid release_rules (build_release_body reason key fresh) ≡ true
unfolding build_release_body is_valid accepts_all accepts_entry has_required release_rules or_null
    has_key get
build_release_body-IsValid reason key fresh short keyed = ground (arith, short, keyed)

-- An extension that passed its check, with a key of 1 to 256 characters, is a valid request.
pub build_extend_body-IsValid :
    (ttl_ms : ℕ) (key : String) (body : Fields)
    → build_extend_body ttl_ms key ≡ ok body
    → text_within 1 256 (str key) ≡ true
    → is_valid extend_rules body ≡ true
unfolding build_extend_body is_valid accepts_all accepts_entry has_required extend_rules int_within
    has_key get
build_extend_body-IsValid ttl_ms key body built keyed = ground (arith, built, keyed)

required-IsAccepted :
    (k : String) (d : Fields)
    → is_valid commit_rules d ≡ true
    → has_key k d ≡ true
    → accepts_entry commit_rules k (json_or_null (get k d)) ≡ true
unfolding json_or_null has_key is_valid
required-IsAccepted k d valid there = elim (Option-cases (get k d)) [
  | inl missing ↦ ground (arith, missing, there)
  | inr (v, is) ↦ rw is (get-IsAccepted commit_rules k v d (ground arith) is)
]

key_there : (c : Fields) → is_valid commit_rules c ≡ true → has_key "idempotency_key" c ≡ true
unfolding is_valid has_required commit_rules
key_there c valid = ground arith

actual_there : (c : Fields) → is_valid commit_rules c ≡ true → has_key "actual" c ≡ true
unfolding is_valid has_required commit_rules
actual_there c valid = ground arith

event_base-IsValid :
    (id : String) (subject action : Json) (c : Fields)
    → is_valid commit_rules c ≡ true
    → is_model subject_rules subject ≡ true
    → is_model action_rules action ≡ true
    → is_valid event_rules (event_base id subject action c) ≡ true
unfolding event_base is_valid accepts_all accepts_entry has_required event_rules commit_rules
    or_null is_dict has_key get
event_base-IsValid id subject action c valid who what =
    let k = required-IsAccepted "idempotency_key" c valid (key_there c valid) in
    let a = required-IsAccepted "actual" c valid (actual_there c valid) in rw (who, what, k, a) refl

-- The event that recovers a valid commit, with a valid subject and action, is a valid request.
pub build_event_fallback_body-IsValid :
    (id : String) (subject action : Json) (c : Fields)
    → is_valid commit_rules c ≡ true
    → is_model subject_rules subject ≡ true
    → is_model action_rules action ≡ true
    → is_valid event_rules (build_event_fallback_body id subject action c) ≡ true
unfolding build_event_fallback_body copy_metrics is_valid accepts_entry commit_rules event_rules
build_event_fallback_body-IsValid id subject action c valid who what =
    let base = event_base-IsValid id subject action c valid who what in
    elim (Option-cases (get "metrics" c)) [
      | inl none_there ↦ rw none_there base
      | inr (m, is) ↦ rw is (
          set-IsValid event_rules "metrics" m (event_base id subject action c)
            (get-IsAccepted commit_rules "metrics" m c (ground arith) is) base)
    ]
