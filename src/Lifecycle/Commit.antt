-- ===== src/Lifecycle/Commit.antt =====
-- runcycles/lifecycle.py: `_handle_commit` and `_handle_release` of `CyclesLifecycle`.
-- (`AsyncCyclesLifecycle` has the same bodies with `await`.)
use cycles_client_python.Prelude.{ℕ, String, ◌&&◌, ◌||◌, Option, none, some, if◌then◌else◌}
use cycles_client_python.Json.{Fields}
use cycles_client_python.Exchange.{Server, Reply, commit_reservation, release_reservation}
use cycles_client_python.Journal.Interface.{Journal}
use cycles_client_python.Response.{
  CyclesResponse, Schemas, has_status, is_success, is_client_error, is_server_error,
  retry_after_ms_header,
}
use cycles_client_python.Retry.Outcome.{
  is_recognized_rejection, is_schema_valid_commit_success, parsed_code, is_code,
}
use cycles_client_python.Retry.Engine.{
  EngineConfig, World, journal_discard, persist_pending, schedule, schedule_event, send,
}
use cycles_client_python.Lifecycle.Bodies.{build_release_body}

-- What `_handle_commit` does with an answer.
pub data Plan : Type 0 where
  discard retry recover : Plan
  wait : Option ℕ → Plan

-- The tests on an answer that is no 2xx, no transport error and no server error.
unfoldable pub plan_of_code : CyclesResponse → Option String → Plan
plan_of_code r code =
    if has_status r 429 || is_code code "LIMIT_EXCEEDED"
    then wait (retry_after_ms_header r)
    else if has_status r 401 || has_status r 403
    then retry
    else if has_status r 410 || is_code code "RESERVATION_EXPIRED"
    then recover
    else if is_code code "RESERVATION_FINALIZED"
    then discard
    else if is_code code "IDEMPOTENCY_MISMATCH"
    then discard
    else if is_client_error r && is_recognized_rejection code
    then discard
    else retry

unfoldable pub plan_of : Schemas → CyclesResponse → Plan
unfolding plan_of_code
plan_of s r =
    if is_schema_valid_commit_success s r
    then discard
    else if is_success r
    then retry
    else if r.is_transport_error || is_server_error r
    then retry
    else plan_of_code r (parsed_code s r)

module _ (s : Schemas) {J : Type 0} (ops : Journal J) (cfg : EngineConfig) (server : Server) where
  unfoldable pub carry_out : Plan → String → Fields → Fields → ℕ → World J → World J
  carry_out discard id commit_body event_body wall w = journal_discard ops cfg id w
  carry_out retry id commit_body event_body wall w =
      schedule ops cfg id commit_body event_body none wall w
  carry_out recover id commit_body event_body wall w = schedule_event ops cfg id event_body wall w
  carry_out (wait ms) id commit_body event_body wall w =
      schedule ops cfg id commit_body event_body ms wall w

  -- An exception of the client is answered by a retry.
  unfoldable pub plan_of_reply : Reply → Plan
  unfolding plan_of
  plan_of_reply reply = elim reply.outcome [ none ↦ retry | some r ↦ plan_of s r ]

  -- `_handle_commit`; `wall` is the wall clock when the spend is journaled.
  unfoldable pub handle_commit : String → Fields → Fields → ℕ → World J → World J
  unfolding plan_of_reply carry_out send
  handle_commit id commit_body event_body wall w =
      let w₀ = persist_pending ops cfg id commit_body event_body wall w in
      let (reply, w₁) = send server (commit_reservation id (some commit_body)) w₀ in
      carry_out (plan_of_reply reply) id commit_body event_body reply.wall w₁

  -- `_handle_release`: best effort, whatever the answer.
  unfoldable pub handle_release : String → String → String → World J → World J
  unfolding build_release_body send
  handle_release id reason fresh w =
      (send server (release_reservation id (build_release_body reason none fresh)) w).1
