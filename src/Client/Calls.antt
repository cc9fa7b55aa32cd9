-- ===== src/Client/Calls.antt =====
-- What the client makes of an answer, of a failure of the transport, and of an idempotency key.

use cycles_client_python.Prelude.{
  ◌≡◌, refl, ◌∙◌, inl, inr, ℕ, ℤ, pos, String, true, false, ◌&&◌, Option, none, some, ltb, leb,
  str_eq, ok, arith, Bool-cases,
}
use cycles_client_python.Json.{
  Json, null, bool, int, float, str, arr, obj, nil, cons, Fields, end, field, get, is_truthy,
  non_null,
}
use cycles_client_python.Response.{
  Schemas, header, is_success, is_client_error, is_server_error, retry_after_ms_header,
  attribute_of, get_body_attribute, transport_error, get_error_response,
}
use cycles_client_python.Response.RetryAfter.{delay_of}
use cycles_client_python.Exchange.{Request, commit_reservation, create_event}
use cycles_client_python.Models.{CyclesMetrics}
use cycles_client_python.Journal.Interface.{Journal}
use cycles_client_python.Retry.Engine.{EngineConfig, PendingCommit, World}
use cycles_client_python.Retry.Classify.{classify_commit_response, rate_limited, commit_failure}
use cycles_client_python.Retry.Outcome.{
  is_schema_valid_commit_success, extract_error_code, parsed_code,
}
use cycles_client_python.Lifecycle.Commit.{retry, plan_of}
use cycles_client_python.Lifecycle.Create.{again, verdict_of_invalid}
use cycles_client_python.Lifecycle.Schema.{create_is_recoverable}
use cycles_client_python.Lifecycle.Bodies.{key_or, build_commit_body, build_event_fallback_body}
use cycles_client_python.Lifecycle.Fallback.{fallback_same_key}
use cycles_client_python.Client.{
  extract_idempotency_key, dict, HttpCall, post, fetch, HttpResponse, HttpResult, http_failure,
  responded, extract_response_headers, body_or_empty, handle_response, received, post_call, path_of,
  body_of, call, send_post,
}

-- A header of the list is kept as it came.
kept_header :
    (lookup : String → Option String)
    → header "retry-after" (extract_response_headers lookup) ≡ lookup "retry-after"
unfolding extract_response_headers header
kept_header lookup = ground arith

attribute_of-or_empty :
    (k : String) (body : Option Json)
    → attribute_of k (some (body_or_empty body)) ≡ attribute_of k body
unfolding body_or_empty attribute_of is_truthy get
attribute_of-or_empty k none = refl
attribute_of-or_empty k (some null) = refl
attribute_of-or_empty k (some (bool true)) = refl
attribute_of-or_empty k (some (bool false)) = refl
attribute_of-or_empty k (some (int z)) = ground arith
attribute_of-or_empty k (some (float x)) = ground arith
attribute_of-or_empty k (some (str t)) = ground arith
attribute_of-or_empty k (some (arr nil)) = refl
attribute_of-or_empty k (some (arr (cons v xs))) = refl
attribute_of-or_empty k (some (obj end)) = refl
attribute_of-or_empty k (some (obj (field j v d))) = refl

attribute_of-non_null :
    (k : String) (body : Option Json) → attribute_of k (non_null body) ≡ attribute_of k body
unfolding non_null attribute_of
attribute_of-non_null k none = refl
attribute_of-non_null k (some v) = ground arith

module _ (shown : Json → String) where
  -- Whatever HTTP answer comes, the response has its status, is no transport error, and is a success
  -- exactly for a 2xx; its Retry-After is read from the answer's header; and reading any attribute of
  -- its body gives what reading it of the answer's JSON gives, though an empty or missing body of a
  -- success is replaced by an empty dict.
  pub handle_response_lem :
      (a : HttpResponse) (k : String)
      → let r = handle_response shown a in
        (r.status ≡ pos a.status_code)
        × (r.is_transport_error ≡ false)
        × (is_success r ≡ (leb 200 a.status_code && ltb a.status_code 300))
        × (retry_after_ms_header r
            ≡ elim (a.header "retry-after") [ none ↦ none | some v ↦ delay_of v ])
        × (get_body_attribute r k ≡ attribute_of k a.json)
  unfolding handle_response is_success retry_after_ms_header get_body_attribute header
  handle_response_lem a k = elim (Bool-cases (leb 200 a.status_code && ltb a.status_code 300)) [
    | inl good ↦
        rw (good, kept_header a.header)
          (
            refl,
            refl,
            good,
            refl,
            attribute_of-or_empty k (non_null a.json) ∙ attribute_of-non_null k a.json,
          )
    | inr bad ↦
        rw (bad, kept_header a.header) (refl, refl, bad, refl, attribute_of-non_null k a.json)
  ]

  module _ (http : HttpCall → HttpResult) where
    -- When httpx reports a failure of the transport, a call with a body answers with the response that
    -- says so and nothing else: it is no success, no client error and no server error. The first commit
    -- is then retried, a create is tried again if this was its first attempt, and a background retry
    -- is tried again with nothing changed.
    pub transport_failure_retried :
        (s : Schemas) {J : Type 0} (ops : Journal J) (cfg : EngineConfig) (req : Request)
        (d : Fields) (ex : String) (p : PendingCommit) (wall : ℕ) (w : World J)
        → body_of req ≡ dict d
        → http (post_call (path_of req) d) ≡ http_failure ex
        → let r = transport_error ex in
          (call shown http req ≡ responded r)
          × ((is_success r ≡ false) × (is_client_error r ≡ false) × (is_server_error r ≡ false))
          × (plan_of s r ≡ retry)
          × (verdict_of_invalid s true r ≡ again)
          × (classify_commit_response s ops cfg p r wall w ≡ ok (false, p, w))
    unfolding call send_post received transport_error is_success is_client_error is_server_error
        plan_of verdict_of_invalid classify_commit_response is_schema_valid_commit_success
        create_is_recoverable rate_limited commit_failure extract_error_code parsed_code
        get_error_response get_body_attribute
    transport_failure_retried s ops cfg req d ex p wall w has failed =
        (rw (has, failed) refl, (refl, refl, refl), refl, refl, refl)

-- The X-Idempotency-Key header of a call
unfoldable pub key_header : HttpCall → Option Json
key_header (post path d key) = key
key_header (fetch path params) = none

-- The commit of a spend and the event that recovers it are posted with the same X-Idempotency-Key
-- header, the key of both bodies, unless that key is empty.
pub fallback_same_header :
    (id : String) (subject action : Json) (actual : ℤ) (unit fresh : String)
    (metrics : Option CyclesMetrics) (metadata : Option Fields) (key : Option String)
    → str_eq fresh "" ≡ false
    → let c = build_commit_body actual unit metrics metadata key fresh in
      let e = build_event_fallback_body id subject action c in
      (key_header (post_call (path_of (commit_reservation id (some c))) c)
        ≡ some (str (key_or key fresh)))
      × (key_header (post_call (path_of (create_event (some e))) e) ≡ some (str (key_or key fresh)))
unfolding post_call key_header extract_idempotency_key is_truthy
fallback_same_header id subject action actual unit fresh metrics metadata key made =
    let (event_key, commit_key, _, _) =
      fallback_same_key id subject action actual unit fresh metrics metadata key in
    let kept : is_truthy (str (key_or key fresh)) ≡ true = unfold key_or in ground arith in
    rw (event_key, commit_key, kept) (refl, refl)
