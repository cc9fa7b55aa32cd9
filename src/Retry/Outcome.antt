-- ===== src/Retry/Outcome.antt =====
-- runcycles/retry.py: what a response proves about a commit or an event.
use cycles_client_python.Prelude.{
  String, Bool, true, false, ◌&&◌, ◌||◌, not, Option, none, some, str_eq, Result, ok, ◌>>=◌,
}
use cycles_client_python.Json.{Json, null, str, obj, Fields, get}
use cycles_client_python.Models.{ErrorCode, unknown, value, is_retryable, from_string, error_code}
use cycles_client_python.Response.{
  CyclesResponse, Schemas, Raised, has_status, get_error_response, get_body_attribute,
}

is_unknown : ErrorCode → Bool
is_unknown unknown = true
is_unknown _ = false

rejects : Option ErrorCode → Bool
unfolding is_unknown is_retryable
rejects none = false
rejects (some c) = not (is_unknown c) && not (is_retryable c)

-- `_is_recognized_rejection`
unfoldable pub is_recognized_rejection : Option String → Bool
unfolding rejects from_string
is_recognized_rejection code = rejects (from_string code)

-- `key in body and body[key] is None`
is_null_at : String → Fields → Bool
is_null_at k d = elim (get k d) [ some null ↦ true | _ ↦ false ]

module _ (s : Schemas) where
  -- `_is_schema_valid_commit_success`
  unfoldable pub is_schema_valid_commit_success : CyclesResponse → Bool
  unfolding is_null_at
  is_schema_valid_commit_success r = elim r.body [
    | some (obj d) ↦
        has_status r 200
        && (not (
              is_null_at "released" d
              || (is_null_at "balances" d || is_null_at "cycles_evidence" d))
            && s.commit_response d)
    | _ ↦ false
  ]

  -- `_is_schema_valid_event_success`
  unfoldable pub is_schema_valid_event_success : CyclesResponse → Bool
  unfolding is_null_at
  is_schema_valid_event_success r = elim r.body [
    | some (obj d) ↦
        has_status r 201
        && (not (is_null_at "charged" d || is_null_at "balances" d) && s.event_response d)
    | _ ↦ false
  ]

  -- `error_resp.error_code.value`, where there is one
  unfoldable pub parsed_code : CyclesResponse → Option String
  parsed_code r = elim (get_error_response s r) [
    | none ↦ none
    | some e ↦ elim (error_code e) [ none ↦ none | some c ↦ some (value c) ]
  ]

  text_of : Option Json → Option String
  text_of (some (str c)) = some c
  text_of _ = none

  -- `_extract_error_code`
  unfoldable pub extract_error_code : CyclesResponse → Result Raised (Option String)
  unfolding text_of
  extract_error_code r = elim (parsed_code r) [
    | some c ↦ ok (some c)
    | none ↦ get_body_attribute r "error" >>= λ raw. ok (text_of raw)
  ]

-- `code == text`
abbrev pub is_code : Option String → String → Bool
is_code none text = false
is_code (some c) text = str_eq c text
