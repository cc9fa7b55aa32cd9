-- ===== src/Tests/Fixtures.antt =====
-- A body schema, a journal in memory, a configuration and answers, for the tests.
use cycles_client_python.Prelude.{
  refl, ℕ, pos, String, true, ◌&&◌, Option, none, some, [], str_eq, if◌then◌else◌,
}
use cycles_client_python.Json.{Json, str, int, obj, Fields, end, field, get, has_key}
use cycles_client_python.Models.{
  ErrorResponse, ReservationCreateResponse, ReservationExtendResponse, allow,
}
use cycles_client_python.Response.{CyclesResponse, Schemas, success, http_error}
use cycles_client_python.Exchange.{Server, Reply, commit_reservation}
use cycles_client_python.Journal.Record.{PendingCommitRecord, commit}
use cycles_client_python.Journal.Interface.{Journal}
use cycles_client_python.Retry.Engine.{EngineConfig, PendingCommit, World}

text_at : String → Fields → Option String
text_at k d = elim (get k d) [ some (str t) ↦ some t | _ ↦ none ]

count_at : String → Fields → Option ℕ
count_at k d = elim (get k d) [ some (int (pos n)) ↦ some n | _ ↦ none ]

error_of : Option String → Option String → Option String → Option ErrorResponse
error_of (some e) (some m) (some i) =
    some (record { error = e; message = m; request_id = i; details = none })
error_of _ _ _ = none

unfoldable pub created_of : Option String → Option ℕ → ReservationCreateResponse
created_of id remaining = record {
  decision = allow;
  reservation_id = id;
  affected_scopes = [];
  expires_at_ms = none;
  remaining_ttl_ms = remaining;
  scope_path = none;
  reserved = none;
  caps = none;
  reason_code = none;
  retry_after_ms = none;
  balances = none;
  cycles_evidence = none;
}

extended_of : Option ℕ → Option ℕ → Option ReservationExtendResponse
extended_of none remaining = none
extended_of (some at) remaining =
    some (record { expires_at_ms = at; remaining_ttl_ms = remaining; balances = none })

-- The required fields of each schema, and no more.
unfoldable pub schemas : Schemas
unfolding text_at count_at error_of created_of extended_of get has_key
schemas = record {
  error_response = λ d. error_of (text_at "error" d) (text_at "message" d) (text_at "request_id" d);
  commit_response = λ d. has_key "status" d && has_key "charged" d;
  event_response = λ d. has_key "status" d && has_key "event_id" d;
  create_response =
      λ d. some (created_of (text_at "reservation_id" d) (count_at "remaining_ttl_ms" d));
  commit_request = λ d. true;
  release_request = λ d. true;
  extend_response = λ d. extended_of (count_at "expires_at_ms" d) (count_at "remaining_ttl_ms" d);
}

abbrev pub Memory : Type 0
Memory = String → Option PendingCommitRecord

-- A journal that always works.
abbrev pub memory : Journal Memory
memory = record {
  find = λ s id. s id;
  write = λ e s id. if str_eq e.reservation_id id then some e else s id;
  discard = λ k s id. if str_eq k id then none else s id;
  find-write = λ e s id. refl;
  find-discard = λ k s id. refl;
}

abbrev pub config : EngineConfig
config = record {
  enabled = true;
  max_attempts = 3;
  initial_delay = 500000;
  multiplier_num = 2;
  multiplier_den = 1;
  max_delay = 30000000;
  base_url = "https://cycles.test";
  journal_enabled = true;
  client_set = true;
}

abbrev pub commit_body : Fields
commit_body = field "idempotency_key" (str "k1") end

abbrev pub event_body : Fields
event_body = field "idempotency_key" (str "k1") (field "metadata" (obj end) end)

abbrev pub pending : PendingCommit
pending = record {
  reservation_id = "r1";
  commit_body = some commit_body;
  event_fallback_body = some event_body;
  mode = commit;
  attempt = 0;
  retry_after = none;
}

abbrev pub entry : PendingCommitRecord
entry = record {
  reservation_id = "r1";
  base_url = "https://cycles.test";
  mode = commit;
  commit_body = some commit_body;
  event_fallback_body = some event_body;
  recorded_at_ms = 1000;
  not_before_ms = none;
}

abbrev pub empty_world : World Memory
empty_world = record { journal = λ id. none; exchanges = []; sleeps = []; spawned = [] }

abbrev pub journaled_world : World Memory
journaled_world = record {
  journal = λ id. if str_eq "r1" id then some entry else none;
  exchanges = [];
  sleeps = [];
  spawned = [];
}

unfoldable pub answer : CyclesResponse → Reply
answer r = record { outcome = some r; sent = 0; received = 10; wall = 2000000 }

abbrev pub error_body : String → Json
error_body code =
    obj (field "error" (str code) (field "message" (str "m") (field "request_id" (str "q") end)))

-- A server on which the reservation has expired: it takes the event.
unfoldable pub expired_server : Server
unfolding answer success http_error
expired_server (commit_reservation id body) xs =
    answer (http_error (pos 410) "gone" (some (error_body "RESERVATION_EXPIRED")) [])
expired_server _ xs =
    answer (
      success (pos 201) (obj (field "status" (str "APPLIED") (field "event_id" (str "e1") end))) [])

-- A server that is down.
unfoldable pub down_server : Server
unfolding answer http_error
down_server req xs = answer (http_error (pos 503) "down" none [])
