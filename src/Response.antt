-- ===== src/Response.antt =====
-- runcycles/response.py: the uniform wrapper of every answer and of every transport failure.
pub mod RetryAfter
use cycles_client_python.Prelude.{
  ◌≡◌, refl, ℕ, ◌*◌, ◌/◌, ℤ, pos, negsuc, within, is_nat, is_negative, String, Bool, true, false,
  ◌&&◌, ◌||◌, not, Option, none, some, List, [], ◌∷◌, str_eq, if◌then◌else◌, is_some, ltb, Result,
  ok, err, ◌>>=◌,
}
use cycles_client_python.Json.{
  Json, null, bool, int, float, str, arr, obj, Items, nil, cons, Fields, end, get, is_empty,
}
use cycles_client_python.Models.{
  ErrorResponse, ReservationCreateResponse, ReservationExtendResponse,
}
use cycles_client_python.Prelude.Text.{occurs_in}
use RetryAfter.{delay_of}

-- An exception of Python's own that a body of unexpected shape can cause.
pub data Raised : Type 0 where
  type_error value_error : Raised

abbrev pub Headers : Type 0
Headers = List (String × String)

-- headers.get(name)
unfoldable pub header : String → Headers → Option String
header k [] = none
header k ((j, v) ∷ hs) = if str_eq j k then some v else header k hs

pub record CyclesResponse : Type 0 where
  pub status : ℤ
  pub body : Option Json
  pub error_message : Option String
  pub headers : Headers
  pub is_transport_error : Bool

unfoldable pub success : ℤ → Json → Headers → CyclesResponse
success status body headers = record {
  status = status;
  body = some body;
  error_message = none;
  headers = headers;
  is_transport_error = false;
}

unfoldable pub http_error : ℤ → String → Option Json → Headers → CyclesResponse
http_error status message body headers = record {
  status = status;
  body = body;
  error_message = some message;
  headers = headers;
  is_transport_error = false;
}

-- The argument is `str(ex)`.
unfoldable pub transport_error : String → CyclesResponse
transport_error ex = record {
  status = negsuc 0;
  body = none;
  error_message = some ex;
  headers = [];
  is_transport_error = true;
}

unfoldable pub is_success : CyclesResponse → Bool
is_success r = within 200 300 r.status

unfoldable pub is_client_error : CyclesResponse → Bool
is_client_error r = within 400 500 r.status

unfoldable pub is_server_error : CyclesResponse → Bool
is_server_error r = within 500 600 r.status

abbrev pub has_status : CyclesResponse → ℕ → Bool
has_status r n = is_nat r.status n

unfoldable pub retry_after_ms_header : CyclesResponse → Option ℕ
retry_after_ms_header r = elim (header "retry-after" r.headers) [
  | none ↦ none
  | some v ↦ delay_of v
]

unfoldable pub request_id : CyclesResponse → Option String
request_id r = header "x-request-id" r.headers

unfoldable pub cycles_tenant : CyclesResponse → Option String
cycles_tenant r = header "x-cycles-tenant" r.headers

module _ (int_of_text : String → Result Raised ℤ) where
  -- `int(val) if val is not None else None`
  unfoldable pub int_header : String → CyclesResponse → Result Raised (Option ℤ)
  int_header name r = elim (header name r.headers) [
    | none ↦ ok none
    | some v ↦ int_of_text v >>= λ n. ok (some n)
  ]

  unfoldable pub rate_limit_remaining : CyclesResponse → Result Raised (Option ℤ)
  unfolding int_header
  rate_limit_remaining = int_header "x-ratelimit-remaining"

  unfoldable pub rate_limit_reset : CyclesResponse → Result Raised (Option ℤ)
  unfolding int_header
  rate_limit_reset = int_header "x-ratelimit-reset"

-- `date_ms` is `int(parsedate_to_datetime(val).timestamp() * 1000)`, or none where that raises.
unfoldable pub server_date_ms : (String → Option ℤ) → CyclesResponse → Option ℤ
server_date_ms date_ms r = elim (header "date" r.headers) [ none ↦ none | some v ↦ date_ms v ]

-- What pydantic, which is not part of the repository, answers for a body: `model_validate` of
-- `ErrorResponse` and of the two requests, and the strict `model_validate_json(json.dumps(body))` of
-- the others.
pub record Schemas : Type 0 where
  pub error_response : Fields → Option ErrorResponse
  pub commit_response : Fields → Bool
  pub event_response : Fields → Bool
  pub create_response : Fields → Option ReservationCreateResponse
  pub commit_request : Fields → Bool
  pub release_request : Fields → Bool
  pub extend_response : Fields → Option ReservationExtendResponse

unfoldable pub get_error_response : Schemas → CyclesResponse → Option ErrorResponse
get_error_response s r = elim r.body [
  | some (obj d) ↦ if is_empty d then none else s.error_response d
  | _ ↦ none
]

-- `key in xs` for a list
member : String → Items → Bool
member k nil = false
member k (cons (str s) xs) = str_eq s k || member k xs
member k (cons v xs) = member k xs

-- `self.body[key]` after `key in self.body`, which both raise for most values that are no dict.
unfoldable pub attribute_of : String → Option Json → Result Raised (Option Json)
unfolding member occurs_in
attribute_of k none = ok none
attribute_of k (some null) = ok none
attribute_of k (some (bool b)) = if b then err type_error else ok none
attribute_of k (some (int z)) = if is_nat z 0 then ok none else err type_error
attribute_of k (some (float x)) =
    if str_eq x "0.0" || str_eq x "-0.0" then ok none else err type_error
attribute_of k (some (str s)) =
    if str_eq s "" then ok none else if occurs_in k s then err type_error else ok none
attribute_of k (some (arr xs)) = if member k xs then err type_error else ok none
attribute_of k (some (obj d)) = ok (get k d)

unfoldable pub get_body_attribute : CyclesResponse → String → Result Raised (Option Json)
unfolding attribute_of
get_body_attribute r k = attribute_of k r.body
