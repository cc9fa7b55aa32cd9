-- ===== src/Client/Losses.antt =====
-- The first commit over HTTP: no answer that leaves its fate open loses the spend.
use Prim.Native.String.{◌++◌}
use cycles_client_python.Prelude.{
  ◌≡◌, refl, ap, ◌∙◌, ℕ, pos, ◌==◌, inl, inr, String, Bool, true, false, ◌&&◌, ◌||◌, not, Option,
  none, some, List, ◌∷◌, arith, ltb, leb, is_some, Bool-cases,
}
use cycles_client_python.Json.{Json, Fields, end, obj, non_null}
use cycles_client_python.Exchange.{Server, Reply, Exchange}
use cycles_client_python.Journal.Interface.{Journal}
use cycles_client_python.Response.{
  Schemas, Headers, CyclesResponse, get_error_response, success, http_error, transport_error,
  is_success, is_server_error,
}
use cycles_client_python.Retry.Engine.{EngineConfig, PendingCommit, World}
use cycles_client_python.Retry.Outcome.{
  is_schema_valid_commit_success, is_recognized_rejection, parsed_code,
}
use cycles_client_python.Lifecycle.Commit.{handle_commit}
use cycles_client_python.Lifecycle.Spend.{
  settled, commit_reply, IsRetryOf, handle_commit-durable, handle_commit_retries,
}
use cycles_client_python.Client.{
  HttpCall, HttpResult, answered, http_failure, broken, Called, responded, refused, crashed,
  post_call, path_of, body_of, call, send_post, serialize_body, received, handle_response,
  body_or_empty, extract_response_headers,
}

-- The outcome of a call, for its callers: an exception has no response.
response_of : Called → Option CyclesResponse
response_of (responded r) = some r
response_of (refused e) = none
response_of crashed = none

-- The client as the lifecycle's server: httpx answers by what was exchanged before, and the clock is
-- read before and after a call.
unfoldable pub http_server :
    (Json → String) → (List Exchange → HttpCall → HttpResult) → (List Exchange → ℕ × ℕ × ℕ) → Server
unfolding call response_of
http_server shown http clock req past =
    let (sent, received, wall) = clock past in
    record {
      outcome = response_of (call shown (http past) req);
      sent = sent;
      received = received;
      wall = wall;
    }

-- A status that leaves the commit open
abbrev is_open : ℕ → Bool
is_open n = (leb 500 n && ltb n 600) || n == 401 || n == 403 || n == 410 || n == 429

-- It is open whether the server has the commit, or it may be sent again: the transport failed, the body
-- is no JSON, or the status is a 2xx other than 200, a 5xx, 401, 403, 410 or 429.
unfoldable pub is_unsure : HttpResult → Bool
is_unsure (http_failure ex) = true
is_unsure broken = true
is_unsure (answered a) =
    not (is_some a.json)
    || (leb 200 a.status_code && ltb a.status_code 300 && not (a.status_code == 200))
    || is_open a.status_code

-- The reply of a response
abbrev replied : CyclesResponse → ℕ → ℕ → ℕ → Reply
replied r sent back wall = record { outcome = some r; sent = sent; received = back; wall = wall }

module _ (s : Schemas) (sent back wall : ℕ) (n : ℕ) (hs : Headers) where
  odd_success :
      (body : Json)
      → (leb 200 n && ltb n 300) ≡ true
      → (n == 200) ≡ false
      → settled s (replied (success (pos n) body hs) sent back wall) ≡ false
  unfolding settled success is_success is_schema_valid_commit_success
  odd_success body good odd = ground (arith, good, odd)

  empty_success :
      (leb 200 n && ltb n 300) ≡ true
      → s.commit_response end ≡ false
      → settled s (replied (success (pos n) (obj end) hs) sent back wall) ≡ false
  unfolding settled success is_success is_schema_valid_commit_success
  empty_success good strict = ground (arith, good, strict)

  unread_error :
      (message : String)
      → (leb 200 n && ltb n 300) ≡ false
      → settled s (replied (http_error (pos n) message none hs) sent back wall) ≡ false
  unfolding settled http_error is_schema_valid_commit_success parsed_code get_error_response
      is_recognized_rejection
  unread_error message bad = ground (arith, bad)

  open_error :
      (message : String) (body : Option Json)
      → (leb 200 n && ltb n 300) ≡ false
      → is_open n ≡ true
      → settled s (replied (http_error (pos n) message body hs) sent back wall) ≡ false
  unfolding settled http_error is_schema_valid_commit_success is_server_error
  open_error message body bad opened = ground (arith, bad, opened)

  unsure_success :
      (json : Option Json)
      → (leb 200 n && ltb n 300) ≡ true
      → s.commit_response end ≡ false
      → (not (is_some json) || (leb 200 n && ltb n 300 && not (n == 200)) || is_open n) ≡ true
      → settled s (replied (success (pos n) (body_or_empty (non_null json)) hs) sent back wall)
        ≡ false
  unfolding body_or_empty non_null
  unsure_success none good strict unsure = empty_success good strict
  unsure_success (some v) good strict unsure = odd_success _ good (ground (arith, good, unsure))

  unsure_error :
      (message : String) (json : Option Json)
      → (leb 200 n && ltb n 300) ≡ false
      → (not (is_some json) || (leb 200 n && ltb n 300 && not (n == 200)) || is_open n) ≡ true
      → settled s (replied (http_error (pos n) message (non_null json) hs) sent back wall) ≡ false
  unfolding non_null
  unsure_error message none bad unsure = unread_error message bad
  unsure_error message (some v) bad unsure = open_error message _ bad (ground (arith, bad, unsure))

unsure-settled :
    (shown : Json → String) (s : Schemas) (out : HttpResult) (sent back wall : ℕ)
    → s.commit_response end ≡ false
    → is_unsure out ≡ true
    → settled s (record {
      outcome = response_of (received shown out);
      sent = sent;
      received = back;
      wall = wall;
    })
      ≡ false
unfolding response_of received is_unsure settled transport_error is_schema_valid_commit_success
unsure-settled shown s broken sent back wall strict unsure = refl
unsure-settled shown s (http_failure ex) sent back wall strict unsure = ground arith
unsure-settled shown s (answered a) sent back wall strict unsure =
    let hs = extract_response_headers a.header in
    elim (Bool-cases (leb 200 a.status_code && ltb a.status_code 300)) [
      | inl good ↦
          rw (good, handle_response)
            (unsure_success s sent back wall a.status_code hs a.json good strict unsure)
      | inr bad ↦
          rw (bad, handle_response)
            (unsure_error s sent back wall a.status_code hs _ a.json bad unsure)
    ]

-- With the journal and the retries enabled, and if an empty body is no valid answer to a commit: when
-- the HTTP call of the first commit fails, raises, or brings an answer that leaves open whether the
-- commit was taken, the spend is in the journal afterwards, and exactly one retry of it was scheduled.
pub unsure_commit_kept :
    (s : Schemas) {J : Type 0} (ops : Journal J) (cfg : EngineConfig) (shown : Json → String)
    (http : List Exchange → HttpCall → HttpResult) (clock : List Exchange → ℕ × ℕ × ℕ) (id : String)
    (c e : Fields) (wall : ℕ) (w : World J)
    → cfg.enabled ≡ true
    → cfg.journal_enabled ≡ true
    → s.commit_response end ≡ false
    → is_unsure (http w.exchanges (post_call ("/v1/reservations/" ++ (id ++ "/commit")) c)) ≡ true
    → let w' = handle_commit s ops cfg (http_server shown http clock) id c e wall w in
      (is_some (ops.find w'.journal id) ≡ true)
      × ((p : PendingCommit) × IsRetryOf s ops cfg (http_server shown http clock) id c e p
          × (w'.spawned ≡ p ∷ w.spawned))
unfolding http_server call send_post serialize_body path_of body_of
unsure_commit_kept s ops cfg shown http clock id c e wall w on kept strict unsure =
    let server = http_server shown http clock in
    let lost : settled s (commit_reply s ops cfg server id c w) ≡ false =
      unsure-settled shown s _ _ _ _ strict unsure in
    let (_, next) = handle_commit_retries s ops cfg server id c e wall w on in
    (
      handle_commit-durable s ops cfg server id c e wall w kept ∙ ap not lost,
      elim next [ inl (taken, same) ↦ cc | inr (open_still, retried) ↦ retried ],
    )
