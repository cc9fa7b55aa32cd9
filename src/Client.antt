-- ===== src/Client.antt =====
-- runcycles/client.py: the HTTP calls of `CyclesClient` and how it reads what comes back. httpx is not
-- part of the repository: it is any function from a call to its result.
-- (`AsyncCyclesClient` is in Client/Async.)
pub mod Calls
pub mod Losses
pub mod Async
use Prim.Native.String.{◌++◌}
use cycles_client_python.Prelude.{
  ℕ, pos, String, Bool, true, false, ◌&&◌, ◌||◌, Option, none, some, List, [], ◌∷◌, if◌then◌else◌,
  ltb, not, leb, str_eq, Result, ok, err,
}
use cycles_client_python.Json.{Json, str, obj, Fields, end, get, is_truthy, non_null}
use cycles_client_python.Config.{CyclesConfig}
use cycles_client_python.Models.{Subject, contains}
use cycles_client_python.Response.{
  Raised, type_error, value_error, Headers, CyclesResponse, success, http_error, transport_error,
}
use cycles_client_python.Exchange.{
  Request, create_reservation, commit_reservation, release_reservation, extend_reservation,
  create_event,
}

-- A request body: a pydantic model with its `model_dump(exclude_none=True)`, a dict, or neither.
pub data Body : Type 0 where
  model dict : Fields → Body
  other : Body

unfoldable pub serialize_body : Body → Result Raised Fields
serialize_body (model d) = ok d
serialize_body (dict d) = ok d
serialize_body other = err type_error

unfoldable pub extract_idempotency_key : Fields → Option Json
extract_idempotency_key d = get "idempotency_key" d

-- A call of httpx, with the value of the X-Idempotency-Key header of a POST.
pub data HttpCall : Type 0 where
  post : String → Fields → Option Json → HttpCall
  fetch : String → List (String × String) → HttpCall

-- `httpx.Response`; `json` is none when reading it raises, `header` ignores the case of the name.
pub record HttpResponse : Type 0 where
  pub status_code : ℕ
  pub reason_phrase : String
  pub json : Option Json
  pub header : String → Option String

-- What a call of httpx comes to: a response, an `HTTPError` with its text, or another exception.
pub data HttpResult : Type 0 where
  answered : HttpResponse → HttpResult
  http_failure : String → HttpResult
  broken : HttpResult

-- What a call of the client comes to: a response or an exception.
pub data Called : Type 0 where
  responded : CyclesResponse → Called
  refused : Raised → Called
  crashed : Called

unfoldable pub response_headers : List String
response_headers =
    "x-request-id" ∷ "x-ratelimit-remaining" ∷ "x-ratelimit-reset" ∷ "x-cycles-tenant"
    ∷ "retry-after" ∷ "date" ∷ []

headers_among : (String → Option String) → List String → Headers
headers_among lookup [] = []
headers_among lookup (n ∷ ns) = elim (lookup n) [
  | none ↦ headers_among lookup ns
  | some v ↦ (n, v) ∷ headers_among lookup ns
]

unfoldable pub extract_response_headers : (String → Option String) → Headers
unfolding response_headers headers_among
extract_response_headers lookup = headers_among lookup response_headers

-- `body or {}`
unfoldable pub body_or_empty : Option Json → Json
unfolding is_truthy
body_or_empty none = obj end
body_or_empty (some v) = if is_truthy v then v else obj end

truthy_or : Option Json → Option Json → Option Json
unfolding is_truthy
truthy_or none w = w
truthy_or (some v) w = if is_truthy v then some v else w

-- `body.get("message") or body.get("error")` of a body that is a dict
unfoldable pub error_msg : Option Json → Option Json
unfolding truthy_or get
error_msg (some (obj d)) = truthy_or (get "message" d) (get "error" d)
error_msg _ = none

-- `error_msg or resp.reason_phrase or "Unknown error"`, as text: `shown` is Python's `str` of a value
-- that is no text, since a message is only formatted.
unfoldable pub message_of : (Json → String) → Option Json → String → String
unfolding is_truthy
message_of shown none reason = if str_eq reason "" then "Unknown error" else reason
message_of shown (some (str s)) reason =
    if not (str_eq s "") then s else if str_eq reason "" then "Unknown error" else reason
message_of shown (some v) reason =
    if is_truthy v then shown v else if str_eq reason "" then "Unknown error" else reason

unfoldable pub has_balance_filter : List (String × String) → Bool
has_balance_filter [] = false
has_balance_filter ((k, v) ∷ ps) =
    contains ("tenant" ∷ "workspace" ∷ "app" ∷ "workflow" ∷ "agent" ∷ "toolset" ∷ []) k
    || has_balance_filter ps

-- The header is set if the key is truthy.
unfoldable pub post_call : String → Fields → HttpCall
unfolding truthy_or extract_idempotency_key
post_call path d = post path d (truthy_or (extract_idempotency_key d) none)

-- The path and the body of the calls that the lifecycle and the retry engine make
unfoldable pub path_of : Request → String
path_of (create_reservation d) = "/v1/reservations"
path_of (commit_reservation id d) = "/v1/reservations/" ++ (id ++ "/commit")
path_of (release_reservation id d) = "/v1/reservations/" ++ (id ++ "/release")
path_of (extend_reservation id d) = "/v1/reservations/" ++ (id ++ "/extend")
path_of (create_event d) = "/v1/events"

body_or_none : Option Fields → Body
body_or_none none = other
body_or_none (some d) = dict d

unfoldable pub body_of : Request → Body
unfolding body_or_none
body_of (create_reservation d) = dict d
body_of (commit_reservation id d) = body_or_none d
body_of (release_reservation id d) = dict d
body_of (extend_reservation id d) = dict d
body_of (create_event d) = body_or_none d

module _ (shown : Json → String) where
  unfoldable pub handle_response : HttpResponse → CyclesResponse
  unfolding extract_response_headers non_null body_or_empty error_msg message_of success http_error
  handle_response r =
      let body = non_null r.json in
      let headers = extract_response_headers r.header in
      if leb 200 r.status_code && ltb r.status_code 300
      then success (pos r.status_code) (body_or_empty body) headers
      else http_error (pos r.status_code) (message_of shown (error_msg body) r.reason_phrase) body
          headers

  -- The end of `_post` and `_get`: an `HTTPError` becomes a response.
  unfoldable pub received : HttpResult → Called
  unfolding handle_response transport_error
  received (answered r) = responded (handle_response r)
  received (http_failure ex) = responded (transport_error ex)
  received broken = crashed

  module _ (http : HttpCall → HttpResult) where
    -- `_post`
    unfoldable pub send_post : String → Body → Called
    unfolding serialize_body post_call received
    send_post path body = elim (serialize_body body) [
      | err e ↦ refused e
      | ok d ↦ received (http (post_call path d))
    ]

    -- `_get`
    unfoldable pub send_get : String → List (String × String) → Called
    unfolding received
    send_get path params = received (http (fetch path params))

    unfoldable pub get_balances : List (String × String) → Called
    unfolding has_balance_filter send_get
    get_balances params =
        if has_balance_filter params then send_get "/v1/balances" params else refused value_error

    unfoldable pub list_reservations : List (String × String) → Called
    unfolding send_get
    list_reservations params = send_get "/v1/reservations" params

    unfoldable pub get_reservation : String → Called
    unfolding send_get
    get_reservation id = send_get ("/v1/reservations/" ++ id) []

    unfoldable pub decide : Body → Called
    unfolding send_post
    decide body = send_post "/v1/decide" body

    unfoldable pub call : Request → Called
    unfolding send_post path_of body_of
    call req = send_post (path_of req) (body_of req)

-- The subject of a stream that `stream_reservation` opens without one is made of the configuration's
-- defaults.
unfoldable pub stream_subject : {Float : Type 0} → CyclesConfig Float → Option Subject → Subject
stream_subject config (some subject) = subject
stream_subject config none = record {
  tenant = config.tenant;
  workspace = config.workspace;
  app = config.app;
  workflow = config.workflow;
  agent = config.agent;
  toolset = config.toolset;
  dimensions = none;
}
