-- ===== src/Tests/Delivering.antt =====
-- A retry against a server that is away for two requests, and a stream that is opened.
use cycles_client_python.Prelude.{
  ◌≡◌, refl, ◌⊎◌, inl, inr, ℕ, suc, ◌+◌, ◌*◌, ◌≤◌, pos, String, Bool, true, false, Option, none,
  some, List, [], ◌∷◌, length, ltb, if◌then◌else◌, arith, Bool-cases, Result, ok, err,
}
use cycles_client_python.Json.{str, int, obj, arr, nil, field, end, get, has_key}
use cycles_client_python.Exchange.{Exchange, Server, Reply, commit_reservation}
use cycles_client_python.Response.{Raised, value_error, success, CyclesResponse, is_success}
use cycles_client_python.Retry.Engine.{PendingCommit, World}
use cycles_client_python.Retry.Loop.{finished, retry_loop}
use cycles_client_python.Retry.Outcome.{is_schema_valid_commit_success}
use cycles_client_python.Retry.Rounds.{IsOutage, IsAccepted}
use cycles_client_python.Retry.Delivery.{delivered_after_outage}
use cycles_client_python.Streaming.Enter.{StreamRequest, stream_enter}
use cycles_client_python.Streaming.Opens.{IsOpened, IsQuiet}
use cycles_client_python.Streaming.Exit.{Fresh}
use cycles_client_python.Streaming.Whole.{
  StreamSettings, StreamBody, request_of, with_stream, IsStream, with_stream_settles,
}
use cycles_client_python.Lifecycle.Context.{Env}
use cycles_client_python.Tests.Fixtures.{
  Memory, schemas, memory, config, pending, journaled_world, empty_world, answer,
}

abbrev charged : CyclesResponse
charged = success (pos 200) (obj (field "status" (str "C") (field "charged" (int (pos 7)) end))) []

-- Away for the first two requests of its life
abbrev away_server : Server
away_server req xs =
    if ltb (length xs) 2
    then record { outcome = none; sent = 0; received = 10; wall = 2000000 }
    else answer charged

charged-ok : is_schema_valid_commit_success schemas charged ≡ true
unfolding is_schema_valid_commit_success schemas success is_success get has_key
charged-ok = refl

later : (xs : List Exchange) → 2 ≤ length xs → IsAccepted schemas (answer charged)
unfolding answer
later xs enough = (charged, refl, charged-ok)

abbrev the_commit : cycles_client_python.Exchange.Request
the_commit = commit_reservation pending.reservation_id pending.commit_body

away :
    (xs : List Exchange)
    → IsOutage (away_server the_commit xs) ⊎ IsAccepted schemas (away_server the_commit xs)
away xs = elim (Bool-cases (ltb (length xs) 2)) [
  | inl early ↦ inl (inl (rw early refl))
  | inr late ↦ inr (rw late (later xs (ground (arith, late))))
]

back : (xs : List Exchange) → 0 + 2 ≤ length xs → IsAccepted schemas (away_server the_commit xs)
back xs enough =
    let late : ltb (length xs) 2 ≡ false = ground (arith, enough) in rw late (later xs enough)

delivered_after_outage_example :
    (p' : PendingCommit) × (w' : World Memory) × (older : List Exchange) × (retry_loop schemas
        memory config away_server
        (2 * config.max_attempts + 1)
        pending
        journaled_world
      ≡ some (finished, p', w'))
    × (w'.exchanges ≡ record { request = the_commit; reply = away_server the_commit older } ∷ older)
    × IsAccepted schemas (away_server the_commit older)
    × (length older ≤ 0 + 2)
    × (memory.find w'.journal "r1" ≡ none)
delivered_after_outage_example =
    delivered_after_outage schemas memory config away_server pending journaled_world 2 refl
      (omega arith) refl refl away back

abbrev stream : StreamRequest
stream = record {
  subject = record {
    tenant = some "t";
    workspace = none;
    app = none;
    workflow = none;
    agent = none;
    toolset = none;
    dimensions = none;
  };
  action = field "kind" (str "llm") (field "name" (str "chat") end);
  unit = "TOKENS";
  estimate = 9;
  ttl_ms = 60000;
  grace_period_ms = none;
  overage_policy = "REJECT";
  idempotency_key = some "s1";
}

abbrev no_int : String → Result Raised cycles_client_python.Prelude.ℤ
no_int t = err value_error

abbrev idle : Env Memory
idle = record { world = empty_world; context = none; beating = false }

-- A server that grants every reservation
abbrev open_server : Server
open_server req xs = answer (
    success (pos 200)
      (obj (
        field "decision" (str "ALLOW")
          (field "reservation_id" (str "r1") (field "affected_scopes" (arr nil) end))))
      [])

abbrev settings : StreamSettings
settings = record {
  subject = stream.subject;
  action = stream.action;
  unit = stream.unit;
  estimate = stream.estimate;
  ttl_ms = stream.ttl_ms;
  grace_period_ms = stream.grace_period_ms;
  overage_policy = stream.overage_policy;
  cost_fn = none;
  metadata = none;
  idempotency_key = stream.idempotency_key;
  raise_on_commit_failure = false;
}

-- A body that reads three tokens
abbrev reading : StreamBody Memory
reading x env = (
  record {
    failed = false;
    usage = record {
      tokens_input = pos 3;
      tokens_output = pos 0;
      actual_cost = none;
      model_version = none;
      custom = end;
    };
    metrics = none;
    elapsed = 5000;
  },
  env,
)

abbrev keys : Fresh
keys = record { commit_key = "k1"; release_key = "k2"; wall = 0 }

abbrev same_digest : String → String
same_digest t = t

with_stream_settles_example :
    let entry =
      stream_enter schemas no_int no_int (λ d. some d) open_server (request_of settings) "k" idle in
    IsOpened (request_of settings) idle entry.0 entry.1
    × IsQuiet schemas no_int no_int (λ d. some d) open_server idle entry.1
    × IsStream same_digest schemas no_int no_int
        (λ d. some d)
        memory
        config
        open_server
        settings
        reading
        keys
        idle
        entry
        (with_stream same_digest schemas no_int no_int
          (λ d. some d)
          memory
          config
          open_server
          settings
          reading
          "k"
          keys
          idle)
with_stream_settles_example =
    with_stream_settles same_digest schemas no_int no_int (λ d. some d) memory config open_server
      settings reading "k" keys idle refl refl
