-- ===== src/Decorator/Calls.antt =====
-- runcycles/decorator.py: the calls of a decorated function, over `execute` of runcycles/lifecycle.py.
use cycles_client_python.Prelude.{
  ℕ, String, Bool, false, true, Option, none, some, List, Result, ok, err,
}
use cycles_client_python.Json.{Fields}
use cycles_client_python.Models.{Subject}
use cycles_client_python.Config.{CyclesConfig}
use cycles_client_python.Exchange.{Server}
use cycles_client_python.Journal.Record.{PendingCommitRecord}
use cycles_client_python.Journal.Interface.{Journal}
use cycles_client_python.Response.{Schemas, Raised}
use cycles_client_python.Retry.Engine.{EngineConfig}
use cycles_client_python.Retry.Replay.{Process, set_client, async_set_client}
use cycles_client_python.Lifecycle.Reserve.{DecoratorConfig}
use cycles_client_python.Lifecycle.Context.{Env, Draws, Outcome, raised, invalid, GuardedAction}
use cycles_client_python.Lifecycle.Execute.{after_checks}
use cycles_client_python.Lifecycle.Async.Execute.{
  AsyncEnv, AsyncAction, AsyncOutcome, ended, Awaits, async_after_checks,
}
use cycles_client_python.Decorator.{ApiClient, Defaults, lifecycle_client}
use cycles_client_python.Decorator.Arguments.{
  CallError, refused, callable_raised, CyclesArgs, resolve_body,
}

-- How a call ends: as `execute` does, with the exception of a callable, or without a client. `O` is
-- the outcome of `execute`.
pub data CallOutcome (O : Type 0) : Type 0 where
  settled : O → CallOutcome O
  value_raised : CallOutcome O
  unavailable : Raised → CallOutcome O

abbrev pub ending : {R : Type 0} → CallError → CallOutcome (Outcome R)
ending (refused e) = settled (raised (invalid e))
ending callable_raised = value_raised

abbrev pub async_ending : {R : Type 0} → CallError → CallOutcome (AsyncOutcome R)
async_ending (refused e) = settled (ended (raised (invalid e)))
async_ending callable_raised = value_raised

module _ (s : Schemas) {J R : Type 0} (ops : Journal J) (engine : EngineConfig)
    (server : Server) where
  -- `CyclesLifecycle.execute`, after the body of the create
  unfoldable pub after_body :
      Draws
      → GuardedAction J R
      → Result CallError (DecoratorConfig R × ℕ × Fields)
      → Env J
      → CallOutcome (Outcome R) × Env J
  unfolding after_checks
  after_body draws action (err e) env = (ending e, env)
  after_body draws action (ok (cfg, estimate, body)) env =
      let (o, env') = after_checks s ops engine server cfg draws action (ok (estimate, body)) env in
      (settled o, env')

  -- `CyclesLifecycle.execute` on the arguments of one call
  unfoldable pub execute_call :
      {A : Type 0}
      → CyclesArgs A R
      → Subject
      → Draws
      → A
      → GuardedAction J R
      → Env J
      → CallOutcome (Outcome R) × Env J
  unfolding resolve_body after_body
  execute_call args defaults draws a action =
      after_body draws action (resolve_body args a defaults draws.create_key)

  module _ (load : J → List PendingCommitRecord × J) (dir : String) where
    unfoldable pub async_after_body :
        Draws
        → Awaits
        → AsyncAction J R
        → Result CallError (DecoratorConfig R × ℕ × Fields)
        → AsyncEnv J
        → CallOutcome (AsyncOutcome R) × AsyncEnv J
    unfolding async_after_checks
    async_after_body draws awaits action (err e) env = (async_ending e, env)
    async_after_body draws awaits action (ok (cfg, estimate, body)) env =
        let (o, env') =
          async_after_checks s ops engine load dir server cfg draws awaits action
            (ok (estimate, body)) env in
        (settled o, env')

    -- `AsyncCyclesLifecycle.execute` on the arguments of one call
    unfoldable pub async_execute_call :
        {A : Type 0}
        → CyclesArgs A R
        → Subject
        → Draws
        → Awaits
        → A
        → AsyncAction J R
        → AsyncEnv J
        → CallOutcome (AsyncOutcome R) × AsyncEnv J
    unfolding resolve_body async_after_body
    async_execute_call args defaults draws awaits a action =
        async_after_body draws awaits action (resolve_body args a defaults draws.create_key)

-- What a client's configuration decides: its journal with the loading of its directory, the engine's
-- settings, and the server that its requests reach.
pub record Backend (F J : Type 0) : Type 0 where
  pub journal : CyclesConfig F → Journal J
  pub load : CyclesConfig F → J → List PendingCommitRecord × J
  pub directory : CyclesConfig F → String
  pub engine : CyclesConfig F → EngineConfig
  pub server : CyclesConfig F → Server

-- `_build_default_subject`
unfoldable pub build_default_subject : {F : Type 0} → CyclesConfig F → Subject
build_default_subject c = record {
  tenant = c.tenant;
  workspace = c.workspace;
  app = c.app;
  workflow = c.workflow;
  agent = c.agent;
  toolset = c.toolset;
  dimensions = none;
}

-- What the calls of one function share: the module's defaults, the client of the function's cached
-- lifecycle, and the environment.
pub record Calls (F E : Type 0) : Type 0 where
  pub defaults : Defaults (CyclesConfig F)
  pub cached : Option (ApiClient (CyclesConfig F))
  pub env : E

-- The lifecycle of a function, by its client: the cached one, or a new one, whose engine is set up.
unfoldable pub obtain :
    {F E : Type 0}
    → Option (ApiClient (CyclesConfig F))
    → Bool
    → (CyclesConfig F → E → E)
    → Calls F E
    → Result Raised (ApiClient (CyclesConfig F)) × Calls F E
unfolding lifecycle_client
obtain explicit is_async set_up st = elim st.cached [
  | some c ↦ (ok c, st)
  | none ↦
      let (found, d) = lifecycle_client explicit is_async none st.defaults in
      elim found [
        | err e ↦ (err e, record st { defaults = d })
        | ok c ↦ (ok c, record { defaults = d; cached = some c; env = set_up c.config st.env })
      ]
]

-- The claimed directories of a process, next to what a synchronous call sees
abbrev pub SyncEnv : Type 0 → Type 0
SyncEnv J = List String × Env J

module _ {F J : Type 0} (back : Backend F J) where
  -- A new engine is given its client, which replays the journal; `wall` is the wall clock.
  unfoldable pub set_up : ℕ → CyclesConfig F → SyncEnv J → SyncEnv J
  unfolding set_client
  set_up wall c (claimed, env) =
      let p : Process J = record {
        world = env.world;
        claimed = claimed;
        replay_deferred = false;
      } in
      let p' = set_client (back.load c) (back.engine c) (back.directory c) wall p in
      (p'.claimed, record env { world = p'.world })

  unfoldable pub async_set_up : ℕ → CyclesConfig F → AsyncEnv J → AsyncEnv J
  unfolding async_set_client
  async_set_up wall c env = record env {
    process =
        async_set_client (back.load c) (back.engine c) (back.directory c) true wall
          (record env.process { replay_deferred = false });
  }

  module _ (s : Schemas) {A R : Type 0} (explicit : Option (ApiClient (CyclesConfig F)))
      (args : CyclesArgs A R) where
    -- `sync_wrapper`, with its lifecycle
    unfoldable pub on_lifecycle :
        Draws
        → A
        → (A → GuardedAction J R)
        → Result Raised (ApiClient (CyclesConfig F))
        → Calls F (SyncEnv J)
        → CallOutcome (Outcome R) × Calls F (SyncEnv J)
    unfolding execute_call build_default_subject
    on_lifecycle draws a action (err e) st = (unavailable e, st)
    on_lifecycle draws a action (ok c) st =
        let k = c.config in
        let (o, env') =
          execute_call s (back.journal k) (back.engine k) (back.server k) args
            (build_default_subject k) draws a (action a) st.env.1 in
        (o, record st { env = (st.env.0, env') })

    unfoldable pub sync_wrapper :
        ℕ
        → Draws
        → A
        → (A → GuardedAction J R)
        → Calls F (SyncEnv J)
        → CallOutcome (Outcome R) × Calls F (SyncEnv J)
    unfolding obtain set_up on_lifecycle
    sync_wrapper wall draws a action st =
        let (found, st') = obtain explicit false (set_up wall) st in
        on_lifecycle draws a action found st'

    -- `async_wrapper`, with its lifecycle
    unfoldable pub on_async_lifecycle :
        Draws
        → Awaits
        → A
        → (A → AsyncAction J R)
        → Result Raised (ApiClient (CyclesConfig F))
        → Calls F (AsyncEnv J)
        → CallOutcome (AsyncOutcome R) × Calls F (AsyncEnv J)
    unfolding async_execute_call build_default_subject
    on_async_lifecycle draws awaits a action (err e) st = (unavailable e, st)
    on_async_lifecycle draws awaits a action (ok c) st =
        let k = c.config in
        let (o, env') =
          async_execute_call s (back.journal k) (back.engine k) (back.server k) (back.load k)
            (back.directory k) args (build_default_subject k) draws awaits a (action a) st.env in
        (o, record st { env = env' })

    unfoldable pub async_wrapper :
        ℕ
        → Draws
        → Awaits
        → A
        → (A → AsyncAction J R)
        → Calls F (AsyncEnv J)
        → CallOutcome (AsyncOutcome R) × Calls F (AsyncEnv J)
    unfolding obtain async_set_up on_async_lifecycle
    async_wrapper wall draws awaits a action st =
        let (found, st') = obtain explicit true (async_set_up wall) st in
        on_async_lifecycle draws awaits a action found st'
