-- ===== src/Lifecycle/Schema.antt =====
-- runcycles/lifecycle.py: which answers to a create or an extend count as observed successes.
use cycles_client_python.Prelude.{
  ℤ, pos, negsuc, within, is_negative, String, Bool, true, false, ◌&&◌, ◌||◌, not, Option, none,
  some, List, [], ◌∷◌, if◌then◌else◌, leb,
}
use cycles_client_python.Json.{
  Json, null, int, str, arr, obj, Items, nil, cons, Fields, end, field, get,
}
use cycles_client_python.Models.{ReservationCreateResponse, ReservationExtendResponse, contains}
use cycles_client_python.Response.{CyclesResponse, Schemas, has_status, is_server_error}

-- `_CREATE_RESPONSE_FIELDS`
abbrev pub create_response_fields : List String
create_response_fields =
    "decision" ∷ "reservation_id" ∷ "affected_scopes" ∷ "expires_at_ms" ∷ "remaining_ttl_ms"
    ∷ "scope_path" ∷ "reserved" ∷ "caps" ∷ "reason_code" ∷ "retry_after_ms" ∷ "balances"
    ∷ "cycles_evidence" ∷ []

abbrev pub extend_response_fields : List String
extend_response_fields = "status" ∷ "expires_at_ms" ∷ "remaining_ttl_ms" ∷ "balances" ∷ []

unfoldable mutual
  pub contains_json_null : Json → Bool
  contains_json_null null = true
  contains_json_null (obj d) = null_in_fields d
  contains_json_null (arr xs) = null_in_items xs
  contains_json_null _ = false

  pub null_in_items : Items → Bool
  null_in_items nil = false
  null_in_items (cons v xs) = contains_json_null v || null_in_items xs

  pub null_in_fields : Fields → Bool
  null_in_fields end = false
  null_in_fields (field k v d) = contains_json_null v || null_in_fields d

-- `not (set(body) - allowed)`
only_keys : List String → Fields → Bool
unfolding contains
only_keys allowed end = true
only_keys allowed (field k v d) = contains allowed k && only_keys allowed d

-- `value is None`, or a non-negative `int` that is no `bool`
is_count : Option Json → Bool
is_count none = true
is_count (some null) = true
is_count (some (int z)) = not (is_negative z)
is_count (some _) = false

all_texts : Items → Bool
all_texts nil = true
all_texts (cons (str s) xs) = all_texts xs
all_texts (cons _ xs) = false

is_text_list : Option Json → Bool
unfolding all_texts
is_text_list (some (arr xs)) = all_texts xs
is_text_list _ = false

create_body_ok : Fields → Bool
unfolding only_keys contains_json_null is_count is_text_list
create_body_ok d =
    only_keys create_response_fields d
    && not (null_in_fields d)
    && is_count (get "remaining_ttl_ms" d)
    && is_count (get "expires_at_ms" d)
    && is_text_list (get "affected_scopes" d)

extend_body_ok : Fields → Bool
unfolding only_keys contains_json_null is_count
extend_body_ok d =
    only_keys extend_response_fields d
    && not (null_in_fields d)
    && is_count (get "expires_at_ms" d)
    && is_count (get "remaining_ttl_ms" d)

module _ (s : Schemas) where
  -- `_schema_valid_create`
  unfoldable pub schema_valid_create : CyclesResponse → Option ReservationCreateResponse
  unfolding create_body_ok
  schema_valid_create r = elim r.body [
    | some (obj d) ↦ if has_status r 200 && create_body_ok d then s.create_response d else none
    | _ ↦ none
  ]

  -- `_schema_valid_extend`
  unfoldable pub schema_valid_extend : CyclesResponse → Option ReservationExtendResponse
  unfolding extend_body_ok
  schema_valid_extend r = elim r.body [
    | some (obj d) ↦ if has_status r 200 && extend_body_ok d then s.extend_response d else none
    | _ ↦ none
  ]

at_least_500 : ℤ → Bool
at_least_500 (pos n) = leb 500 n
at_least_500 (negsuc n) = false

-- `_create_is_recoverable`
unfoldable pub create_is_recoverable : CyclesResponse → Bool
unfolding at_least_500
create_is_recoverable r = is_negative r.status || (at_least_500 r.status || within 200 300 r.status)

-- `_extend_error_is_recoverable`
unfoldable pub extend_error_is_recoverable : CyclesResponse → Bool
unfolding is_server_error
extend_error_is_recoverable r = r.is_transport_error || (is_server_error r || has_status r 429)
