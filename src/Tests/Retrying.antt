-- ===== src/Tests/Retrying.antt =====
-- The retry loop on a server whose reservation has expired and on one that is down, a delay, a code.
use cycles_client_python.Models.{from_string, value, tenant_closed, is_retryable}
use cycles_client_python.Retry.Outcome.{is_recognized_rejection}
use cycles_client_python.Retry.Classify.{classify_commit_response, classify_event_response}
use cycles_client_python.Retry.Delays.{is_capped, all_le, longest, retry_loop_sleeps}
use cycles_client_python.Prelude.{
  ◌≡◌, refl, ℕ, ◌+◌, ◌*◌, ◌≤◌, ◌⊎◌, true, Bool, Option, some, length, All, is_some, none, false,
}
use cycles_client_python.Exchange.{any_exchange}
use cycles_client_python.Retry.Engine.{PendingCommit, World, send, delay_for}
use cycles_client_python.Retry.Loop.{
  End, finished, exhausted, retry_loop, attempt_once, attempt_commit, attempt_event, next_attempt,
}
use cycles_client_python.Retry.Durable.{settles}
use cycles_client_python.Retry.Attempted.{SameSpend, IsOwn}
use cycles_client_python.Retry.Guarantees.{retry_loop-bounded, retry_loop-durable}
use cycles_client_python.Tests.Fixtures.{
  Memory, schemas, memory, config, pending, journaled_world, empty_world, expired_server,
  down_server,
}

retry_loop-bounded_example :
    (e : End) × (q : PendingCommit) × (w' : World Memory) × (retry_loop schemas memory config
        down_server
        (2 * config.max_attempts + 1)
        pending
        empty_world
      ≡ some (e, q, w'))
    × (length w'.exchanges ≤ 2 * config.max_attempts + 1)
    × All (IsOwn pending) w'.exchanges
    × SameSpend pending q
retry_loop-bounded_example =
    retry_loop-bounded schemas memory config down_server pending empty_world refl

retry_loop-durable_example :
    (e : End) × (q : PendingCommit) × (w' : World Memory) × (retry_loop schemas memory config
        expired_server
        (2 * config.max_attempts + 1)
        pending
        journaled_world
      ≡ some (e, q, w'))
    × ((is_some (memory.find w'.journal "r1") ≡ true)
        ⊎ (any_exchange (settles schemas) w'.exchanges ≡ true))
retry_loop-durable_example =
    retry_loop-durable schemas memory config expired_server pending journaled_world refl refl

-- What a run left: how it ended, the requests sent, and whether the journal still has the record.
abbrev summary : Option (End × PendingCommit × World Memory) → Option (End × (ℕ × Bool))
summary none = none
summary (some (e, q, w)) = some (e, (length w.exchanges, is_some (w.journal "r1")))

-- The commit finds the reservation expired, and the event follows at once and settles it.
expired_run :
    summary (retry_loop schemas memory config expired_server 7 pending journaled_world)
    ≡ some (finished, (2, false))
unfolding retry_loop attempt_once attempt_commit attempt_event next_attempt expired_server schemas
    send classify_commit_response classify_event_response
    cycles_client_python.Retry.Outcome.is_schema_valid_commit_success
    cycles_client_python.Retry.Classify.rate_limited
    cycles_client_python.Retry.Outcome.extract_error_code
    cycles_client_python.Retry.Outcome.parsed_code cycles_client_python.Response.get_error_response
    cycles_client_python.Retry.Classify.commit_failure cycles_client_python.Response.is_client_error
    cycles_client_python.Models.error_code cycles_client_python.Models.from_string
    cycles_client_python.Retry.Classify.commit_client_error
    cycles_client_python.Retry.Outcome.is_schema_valid_event_success
    cycles_client_python.Retry.Engine.journal_discard
    cycles_client_python.Retry.Engine.journal_record
expired_run = refl

-- Three attempts fail, and the record stays.
down_run :
    summary (retry_loop schemas memory config down_server 7 pending journaled_world)
    ≡ some (exhausted, (3, true))
unfolding retry_loop attempt_once attempt_commit attempt_event next_attempt down_server schemas send
    classify_commit_response cycles_client_python.Retry.Outcome.is_schema_valid_commit_success
    cycles_client_python.Retry.Classify.rate_limited
    cycles_client_python.Retry.Outcome.extract_error_code
    cycles_client_python.Retry.Outcome.parsed_code cycles_client_python.Response.get_error_response
    cycles_client_python.Retry.Classify.commit_failure cycles_client_python.Response.is_client_error
    cycles_client_python.Response.get_body_attribute
down_run = refl

abbrev limited : PendingCommit
limited = record pending { retry_after = some 90000000 }

limited_lem : is_capped limited ≡ true
unfolding is_capped
limited_lem = refl

retry_loop_sleeps_example :
    (e : End) × (q : PendingCommit) × (w' : World Memory) × (retry_loop schemas memory config
        down_server
        (2 * config.max_attempts + 1)
        limited
        empty_world
      ≡ some (e, q, w'))
    × (all_le (longest config) w'.sleeps ≡ true)
retry_loop_sleeps_example =
    retry_loop_sleeps schemas memory config down_server limited empty_world refl refl limited_lem
