-- ===== src/Tests/Decorating.antt =====
-- Calls of a decorated function, with a tenant that depends on the arguments of the call.
use cycles_client_python.Prelude.{
  ◌≡◌, refl, ◌⊎◌, ℕ, ◌==◌, String, pos, true, false, none, some, [], ok, if◌then◌else◌,
}
use cycles_client_python.Json.{int}
use cycles_client_python.Config.{CyclesConfig}
use cycles_client_python.Lifecycle.Reserve.{constant}
use cycles_client_python.Lifecycle.Execute.{execute}
use cycles_client_python.Decorator.{ApiClient, Defaults}
use cycles_client_python.Decorator.Arguments.{
  CallError, CyclesArgs, Values, given, computed, config_of, no_subject,
}
use cycles_client_python.Decorator.Calls.{
  settled, ending, execute_call, Backend, Calls, SyncEnv, obtain, sync_wrapper, on_lifecycle,
}
use cycles_client_python.Decorator.Resolved.{Returns, Raises, execute_call-cases}
use cycles_client_python.Decorator.Cached.{sync_wrapper-keeps}
use cycles_client_python.Tests.Fixtures.{schemas, memory, Memory, config, expired_server}
use cycles_client_python.Tests.Calling.{draws, env, returns}
use cycles_client_python.Tests.Requesting.{read_config}

-- The tenant of a call is told by its number, and call 0 has none that could be told.
abbrev args : CyclesArgs ℕ ℕ
args = record {
  estimate = given (int (pos 100));
  actual = constant (int (pos 42));
  action_kind = given (some "llm");
  action_name = given none;
  action_tags = given none;
  unit = "TOKENS";
  ttl_ms = 60000;
  grace_period_ms = none;
  overage_policy = "ALLOW_IF_AVAILABLE";
  dry_run = false;
  tenant = computed (λ n. if n == 0 then none else some (some "acme"));
  workspace = given none;
  app = given none;
  workflow = given none;
  agent = given none;
  toolset = given none;
  dimensions = given none;
  use_estimate_if_actual_not_provided = true;
}

execute_call-cases_example :
    ((v : Values) × Returns args 3 v
      × (execute_call schemas memory config expired_server args no_subject draws 3 returns env ≡ (
          let (o, env') =
            execute schemas memory config expired_server
              (config_of args v)
              no_subject
              draws
              returns
              env in
          (settled o, env'))))
    ⊎ (Raises args 3
        × ((x : CallError) × (execute_call schemas memory config expired_server args no_subject
                draws 3 returns env
              ≡ (ending x, env))))
execute_call-cases_example =
    execute_call-cases schemas memory config expired_server args 3 no_subject draws returns env

abbrev back : Backend String Memory
back = record {
  journal = λ k. memory;
  load = λ k j. ([], j);
  directory = λ k. "/journal";
  engine = λ k. config;
  server = λ k. expired_server;
}

abbrev client : ApiClient (CyclesConfig String)
client = record { is_async = false; config = read_config }

-- Only a default configuration is set.
abbrev fresh_calls : Calls String (SyncEnv Memory)
fresh_calls = record {
  defaults = record { client = none; config = some read_config };
  cached = none;
  env = ([], env);
}

abbrev cleared : Defaults (CyclesConfig String)
cleared = record { client = none; config = none }

sync_wrapper-keeps_example :
    let st₁ = record (sync_wrapper back schemas none args 0 draws 3 (λ n. returns) fresh_calls).1 {
      defaults = cleared;
      env = ([], env);
    } in
    sync_wrapper back schemas none args 0 draws 0 (λ n. returns) st₁
    ≡ on_lifecycle back schemas none args draws 0 (λ n. returns) (ok client) st₁
unfolding obtain
sync_wrapper-keeps_example =
    sync_wrapper-keeps back schemas none args 0 0 draws draws 3 0 (λ n. returns) fresh_calls client
      cleared ([], env) refl
