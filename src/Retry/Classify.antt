-- ===== src/Retry/Classify.antt =====
-- runcycles/retry.py: what an attempt's response does to a pending commit and to the journal.
-- `ok true` is a terminal outcome; an `err` is an exception, before which nothing was changed.
use cycles_client_python.Prelude.{
  ℕ, ◌*◌, min, String, Bool, true, false, ◌||◌, not, Option, none, some, if◌then◌else◌, Result, ok,
  ◌>>=◌,
}
use cycles_client_python.Json.{is_empty}
use cycles_client_python.Journal.Record.{event}
use cycles_client_python.Journal.Interface.{Journal}
use cycles_client_python.Response.{
  CyclesResponse, Schemas, Raised, has_status, is_client_error, retry_after_ms_header,
}
use cycles_client_python.Retry.Outcome.{
  is_recognized_rejection, is_schema_valid_commit_success, is_schema_valid_event_success,
  extract_error_code, is_code,
}
use cycles_client_python.Retry.Engine.{
  EngineConfig, PendingCommit, World, max_honored_delay, journal_record, journal_discard,
}

-- `bool(pending.event_fallback_body)`
abbrev pub has_fallback : PendingCommit → Bool
has_fallback p = elim p.event_fallback_body [ none ↦ false | some d ↦ not (is_empty d) ]

-- `pending.mode = "event"; pending.attempt = 0`
abbrev pub flip : PendingCommit → PendingCommit
flip p = record p { mode = event; attempt = 0 }

module _ (s : Schemas) {J : Type 0} (ops : Journal J) (cfg : EngineConfig) where
  -- The Retry-After of a rate-limited response is kept, and journaled as a floor.
  unfoldable pub stash : PendingCommit → CyclesResponse → ℕ → World J → PendingCommit × World J
  stash p r wall w = elim (retry_after_ms_header r) [
    | none ↦ (p, w)
    | some ms ↦
        let p' = record p { retry_after = some (min (ms * 1000) max_honored_delay) } in
        (p', journal_record ops cfg p' wall w)
  ]

  -- The test of `_is_rate_limited`.
  unfoldable pub rate_limited : CyclesResponse → Result Raised Bool
  rate_limited r =
      if has_status r 429
      then ok true
      else (do code ← extract_error_code s r; ok (is_code code "LIMIT_EXCEEDED"))

  -- A client error on a commit that is neither rate limiting nor an authentication failure.
  unfoldable pub commit_client_error :
      PendingCommit → CyclesResponse → Option String → ℕ → World J → Bool × PendingCommit × World J
  commit_client_error p r code wall w =
      if has_status r 410 || is_code code "RESERVATION_EXPIRED"
      then if has_fallback p
        then (false, flip p, journal_record ops cfg (flip p) wall w)
        else (true, p, w)
      else if not (is_recognized_rejection code)
      then (true, p, w)
      else (true, p, journal_discard ops cfg p.reservation_id w)

  unfoldable pub commit_failure :
      PendingCommit → CyclesResponse → ℕ → World J → Result Raised (Bool × PendingCommit × World J)
  commit_failure p r wall w =
      if has_status r 401 || has_status r 403
      then ok (true, p, w)
      else if is_client_error r
      then (do code ← extract_error_code s r; ok (commit_client_error p r code wall w))
      else ok (false, p, w)

  -- `_classify_commit_response`
  unfoldable pub classify_commit_response :
      PendingCommit → CyclesResponse → ℕ → World J → Result Raised (Bool × PendingCommit × World J)
  classify_commit_response p r wall w =
      if is_schema_valid_commit_success s r
      then ok (true, p, journal_discard ops cfg p.reservation_id w)
      else (do
        limited ← rate_limited r
        if limited
            then (let (p', w') = stash p r wall w in ok (false, p', w'))
            else commit_failure p r wall w)

  unfoldable pub event_failure :
      PendingCommit → CyclesResponse → World J → Result Raised (Bool × PendingCommit × World J)
  event_failure p r w =
      if has_status r 401 || has_status r 403
      then ok (true, p, w)
      else if is_client_error r
      then (do
        code ← extract_error_code s r
        ok (
            if not (is_recognized_rejection code)
            then (true, p, w)
            else (true, p, journal_discard ops cfg p.reservation_id w)))
      else ok (false, p, w)

  -- `_classify_event_response`
  unfoldable pub classify_event_response :
      PendingCommit → CyclesResponse → ℕ → World J → Result Raised (Bool × PendingCommit × World J)
  classify_event_response p r wall w =
      if is_schema_valid_event_success s r
      then ok (true, p, journal_discard ops cfg p.reservation_id w)
      else (do
        limited ← rate_limited r
        if limited
            then (let (p', w') = stash p r wall w in ok (false, p', w'))
            else event_failure p r w)
