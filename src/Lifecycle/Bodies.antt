-- ===== src/Lifecycle/Bodies.antt =====
-- runcycles/lifecycle.py: the bodies of the settlement requests. A key that `uuid4` makes is given.
use cycles_client_python.Prelude.{ℕ, ℤ, pos, String, Option, none, some, str_eq, if◌then◌else◌}
use cycles_client_python.Json.{Json, str, int, obj, null, Fields, end, field, get, set, is_empty}
use cycles_client_python.Models.{CyclesMetrics, is_unset}

-- `self.model_dump(exclude_none=True)` of the metrics
put_count : String → Option ℕ → Fields → Fields
put_count k none d = d
put_count k (some n) d = field k (int (pos n)) d

put_text : String → Option String → Fields → Fields
put_text k none d = d
put_text k (some t) d = field k (str t) d

put_dict : String → Option Fields → Fields → Fields
put_dict k none d = d
put_dict k (some v) d = field k (obj v) d

unfoldable pub dump_metrics : CyclesMetrics → Fields
unfolding put_count put_text put_dict
dump_metrics m = put_count "tokens_input" m.tokens_input (
    put_count "tokens_output" m.tokens_output (
      put_count "latency_ms" m.latency_ms
        (put_text "model_version" m.model_version (put_dict "custom" m.custom end))))

-- `key or str(uuid.uuid4())`
unfoldable pub key_or : Option String → String → String
key_or none fresh = fresh
key_or (some k) fresh = if str_eq k "" then fresh else k

abbrev pub amount : String → ℤ → Json
amount unit n = obj (field "unit" (str unit) (field "amount" (int n) end))

unfoldable pub with_metrics : Option CyclesMetrics → Fields → Fields
with_metrics none d = d
with_metrics (some m) d = if is_unset m then d else set "metrics" (obj (dump_metrics m)) d

unfoldable pub with_metadata : Option Fields → Fields → Fields
with_metadata none d = d
with_metadata (some m) d = if is_empty m then d else set "metadata" (obj m) d

-- `_build_commit_body`
unfoldable pub build_commit_body :
    ℤ → String → Option CyclesMetrics → Option Fields → Option String → String → Fields
unfolding key_or with_metrics with_metadata set
build_commit_body actual unit metrics metadata key fresh = with_metadata metadata (
    with_metrics metrics
      (field "idempotency_key" (str (key_or key fresh)) (field "actual" (amount unit actual) end)))

-- `dict(commit_body.get("metadata") or {})`
metadata_of : Option Json → Fields
metadata_of (some (obj d)) = d
metadata_of _ = end

unfoldable pub json_or_null : Option Json → Json
json_or_null none = null
json_or_null (some v) = v

unfoldable pub copy_metrics : Option Json → Fields → Fields
copy_metrics none d = d
copy_metrics (some m) d = set "metrics" m d

-- The event before the metrics of the commit are copied to it.
unfoldable pub event_base : String → Json → Json → Fields → Fields
unfolding metadata_of json_or_null get set
event_base id subject action commit_body =
    field "idempotency_key" (json_or_null (get "idempotency_key" commit_body)) (
      field "subject" subject (
        field "action" action (
          field "actual" (json_or_null (get "actual" commit_body)) (
            field "metadata"
              (obj (
                set "recovery_reason" (str "commit_after_reservation_expired") (
                  set "recovered_reservation_id" (str id)
                    (metadata_of (get "metadata" commit_body)))))
              end))))

-- `_build_event_fallback_body`, of a commit body with a key and an amount
unfoldable pub build_event_fallback_body : String → Json → Json → Fields → Fields
unfolding event_base copy_metrics
build_event_fallback_body id subject action commit_body =
    copy_metrics (get "metrics" commit_body) (event_base id subject action commit_body)

-- `_build_release_body`
unfoldable pub build_release_body : String → Option String → String → Fields
unfolding key_or
build_release_body reason key fresh =
    field "idempotency_key" (str (key_or key fresh)) (field "reason" (str reason) end)

-- `{**(commit_metadata or {}), "actual_source": "estimate"}`
unfoldable pub mark_estimate : Option Fields → Option Fields
unfolding set
mark_estimate none = some (set "actual_source" (str "estimate") end)
mark_estimate (some d) = some (set "actual_source" (str "estimate") d)
