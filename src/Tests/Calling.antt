-- ===== src/Tests/Calling.antt =====
-- Whole calls: a create that is retried, a guarded call, a dry run, and a stream.
use cycles_client_python.Prelude.{
  ◌≡◌, refl, ℕ, pos, ◌⊎◌, String, true, false, Option, none, some, [], ok, ℤ, Result, err,
}
use cycles_client_python.Json.{Json, int, Fields, end}
use cycles_client_python.Models.{CyclesMetrics, Subject, truthy, has_at_least_one_standard_field}
use cycles_client_python.Validation.{
  text_fits, subject_fits, validate_non_negative, validate_ttl_ms, validate_subject,
  validate_grace_period_ms,
}
use cycles_client_python.Response.{Raised, value_error}
use cycles_client_python.Lifecycle.Create.{create_reservation_with_recovery}
use cycles_client_python.Lifecycle.Creation.{unsure, create_reply, asked, IsResultOf, create_sends}
use cycles_client_python.Lifecycle.Reserve.{
  DecoratorConfig, constant, subject_of, reservation_fields, build_reservation_body,
}
use cycles_client_python.Lifecycle.Context.{CyclesContext, Env, Draws, GuardedAction, context_of}
use cycles_client_python.Lifecycle.Execute.{run_guarded, execute}
use cycles_client_python.Lifecycle.Settles.{
  IsSettled, IsQuiet, run_guarded_settles, execute_dry_run,
}
use cycles_client_python.Streaming.Usage.{build_stream_metrics, count_of, StreamUsage}
use cycles_client_python.Streaming.Exit.{stream_metrics, StreamReservation, Fresh, stream_exit}
use cycles_client_python.Streaming.Settles.{IsStreamSettled, stream_exit_settles}
use cycles_client_python.Tests.Fixtures.{
  schemas, memory, Memory, config, empty_world, down_server, expired_server, created_of,
}

create_sends_example :
    let (result, w') = create_reservation_with_recovery schemas down_server end empty_world in
    let first = create_reply down_server end [] in
    let once = asked down_server end [] in
    (unsure schemas first ≡ false) × (w'.exchanges ≡ once) × IsResultOf schemas first result
    ⊎ (unsure schemas first ≡ true)
      × (w'.exchanges ≡ asked down_server end once)
      × IsResultOf schemas (create_reply down_server end once) result
create_sends_example = create_sends schemas down_server end empty_world

abbrev pub subject : Subject
subject = record {
  tenant = some "acme";
  workspace = none;
  app = none;
  workflow = none;
  agent = none;
  toolset = none;
  dimensions = none;
}

abbrev no_subject : Subject
no_subject = record subject { tenant = none }

abbrev pub call : DecoratorConfig ℕ
call = record {
  estimate = int (pos 100);
  actual = constant (int (pos 42));
  action_kind = some "llm";
  action_name = none;
  action_tags = [];
  unit = "TOKENS";
  ttl_ms = 60000;
  grace_period_ms = some (pos 5000);
  overage_policy = "ALLOW_IF_AVAILABLE";
  dry_run = false;
  subject = no_subject;
  use_estimate_if_actual_not_provided = true;
}

abbrev dry_call : DecoratorConfig ℕ
dry_call = record call { dry_run = true }

abbrev pub draws : Draws
draws = record { create_key = "k0"; commit_key = "k1"; release_key = "k2"; wall = 0 }

abbrev pub env : Env Memory
env = record { world = empty_world; context = none; beating = false }

abbrev pub context : CyclesContext
context = context_of "r1" 100 (created_of (some "r1") none)

abbrev pub returns : GuardedAction Memory ℕ
returns ctx e =
    (some (record { result = 7; elapsed = 1500; metrics = none; commit_metadata = none }), e)

abbrev raises : GuardedAction Memory ℕ
raises ctx e = (none, e)

run_guarded_settles_example :
    let (fin, env₁) = returns context (record env { context = some context; beating = true }) in
    let (outcome, env') =
      run_guarded schemas memory config expired_server call draws returns context end env in
    (env'.context ≡ none)
    × (env'.beating ≡ false)
    × IsSettled schemas memory config expired_server call draws context fin env₁.world outcome
        env'.world
run_guarded_settles_example =
    run_guarded_settles schemas memory config expired_server call draws returns context end env refl
      refl

execute_dry_run_example :
    IsQuiet schemas memory config down_server env
      (execute schemas memory config down_server dry_call subject draws returns env)
      (execute schemas memory config down_server dry_call subject draws raises env)
execute_dry_run_example =
    execute_dry_run schemas memory config down_server dry_call subject draws returns raises env refl

abbrev pub call_body : Fields
call_body = reservation_fields call 100 (subject_of call.subject subject) "k0"

pub call_body_lem : build_reservation_body call subject "k0" ≡ ok (100, call_body)
unfolding build_reservation_body validate_non_negative validate_ttl_ms subject_fits truthy
    validate_subject has_at_least_one_standard_field validate_grace_period_ms
call_body_lem = refl

abbrev usage : StreamUsage
usage = record {
  tokens_input = pos 10;
  tokens_output = pos 20;
  actual_cost = none;
  model_version = none;
  custom = end;
}

abbrev cost : StreamUsage → Option Json
cost u = some (int u.tokens_output)

abbrev pub stream : StreamReservation
stream = record {
  reservation_id = "r1";
  subject = end;
  action = end;
  unit = "TOKENS";
  estimate = 100;
  cost_fn = some cost;
  metadata = none;
  idempotency_key = some "mine";
  usage = usage;
  ctx_metrics = none;
  raise_on_commit_failure = true;
  elapsed = 3000000;
}

abbrev pub fresh : Fresh
fresh = record { commit_key = "k1"; release_key = "k2"; wall = 0 }

-- No text is a number here.
abbrev pub no_int : String → Result Raised ℤ
no_int s = err value_error

-- Any digest will do, as the key is short.
abbrev pub digest : String → String
digest s = "d"

abbrev pub stream_m : CyclesMetrics
stream_m = record {
  tokens_input = some 10;
  tokens_output = some 20;
  latency_ms = some 3000;
  model_version = none;
  custom = none;
}

pub stream_m_lem : stream_metrics digest stream ≡ ok stream_m
unfolding stream_metrics build_stream_metrics count_of text_fits
stream_m_lem = refl

stream_exit_settles_example :
    IsStreamSettled digest schemas no_int no_int memory config down_server stream fresh stream_m
      empty_world
      (stream_exit digest schemas no_int no_int memory config down_server false stream fresh
        empty_world)
stream_exit_settles_example =
    stream_exit_settles digest schemas no_int no_int memory config down_server stream fresh stream_m
      empty_world refl refl stream_m_lem
