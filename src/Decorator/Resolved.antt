-- ===== src/Decorator/Resolved.antt =====
-- A call of a decorated function is `execute` on the values that the callables returned.
use cycles_client_python.Prelude.{
  ◌≡◌, refl, ap, ◌∙◌, ◌⊎◌, inl, inr, ℕ, String, some, Result, ok, err, ◌>>=◌, ◌>>◌, guard,
  Result-cases, arith,
}
use cycles_client_python.Json.{Fields}
use cycles_client_python.Models.{Subject}
use cycles_client_python.Exchange.{Server}
use cycles_client_python.Journal.Interface.{Journal}
use cycles_client_python.Response.{Schemas, Raised, value_error}
use cycles_client_python.Retry.Engine.{EngineConfig}
use cycles_client_python.Validation.{
  validate_non_negative, validate_ttl_ms, validate_subject, subject_fits,
}
use cycles_client_python.Lifecycle.Reserve.{DecoratorConfig, subject_of, build_reservation_body}
use cycles_client_python.Lifecycle.Context.{Env, Draws, GuardedAction, check_actual}
use cycles_client_python.Lifecycle.Execute.{after_checks, execute}
use cycles_client_python.Decorator.Arguments.{
  CallError, CyclesArgs, Values, resolve_value, resolve_subject, resolve_action, checked_call,
  config_of, unresolved, resolve_body,
}
use cycles_client_python.Decorator.Calls.{settled, ending, after_body, execute_call}

bind-ok :
    {E X Y C : Type 0} (m : Result E X) {f : X → Result E Y} {y : Y}
    → (m >>= f) ≡ ok y
    → ((x : X) → m ≡ ok x → f x ≡ ok y → C)
    → C
bind-ok (ok x) e next = next x refl e
bind-ok (err x) e next = cc

-- A body together with the configuration that it is built of
with_config :
    {R : Type 0}
    → DecoratorConfig R
    → Result CallError (ℕ × Fields)
    → Result CallError (DecoratorConfig R × ℕ × Fields)
with_config cfg m = m >>= λ (n, body). ok (cfg, n, body)

module _ (s : Schemas) {J R : Type 0} (ops : Journal J) (engine : EngineConfig)
    (server : Server) where
  after_body-with_config :
      (cfg : DecoratorConfig R) (draws : Draws) (action : GuardedAction J R) (env : Env J)
      (m : Result Raised (ℕ × Fields))
      → after_body s ops engine server draws action (with_config cfg (checked_call m)) env ≡ (
          let (o, env') = after_checks s ops engine server cfg draws action m env in
          (settled o, env'))
  unfolding after_body after_checks with_config checked_call
  after_body-with_config cfg draws action env (ok (n, body)) = refl
  after_body-with_config cfg draws action env (err e) = refl

module _ {A R : Type 0} where
  -- The callables of a call returned these values.
  abbrev pub Returns : CyclesArgs A R → A → Values → Type 0
  Returns args a v =
      (resolve_value args.estimate a ≡ ok v.estimate)
      × (resolve_subject args a ≡ ok v.subject)
      × (resolve_value args.action_kind a ≡ ok v.action_kind)
      × (resolve_value args.action_name a ≡ ok v.action_name)
      × (resolve_value args.action_tags a ≡ ok v.action_tags)

  -- A callable of a call raised.
  abbrev pub Raises : CyclesArgs A R → A → Type 0
  Raises args a =
      ((x : CallError) × (resolve_value args.estimate a ≡ err x))
      ⊎ ((x : CallError) × (resolve_subject args a ≡ err x))
      ⊎ ((x : CallError) × (resolve_value args.action_kind a ≡ err x))
      ⊎ ((x : CallError) × (resolve_value args.action_name a ≡ err x))
      ⊎ ((x : CallError) × (resolve_value args.action_tags a ≡ err x))

  callables_cases :
      (args : CyclesArgs A R) (a : A) → ((v : Values) × Returns args a v) ⊎ Raises args a
  callables_cases args a = elim (Result-cases (resolve_value args.estimate a)) [
    | inr r₁ ↦ inr (inl r₁)
    | inl (estimate, e₁) ↦ elim (Result-cases (resolve_subject args a)) [
      | inr r₂ ↦ inr (inr (inl r₂))
      | inl (subject, e₂) ↦ elim (Result-cases (resolve_value args.action_kind a)) [
        | inr r₃ ↦ inr (inr (inr (inl r₃)))
        | inl (action_kind, e₃) ↦ elim (Result-cases (resolve_value args.action_name a)) [
          | inr r₄ ↦ inr (inr (inr (inr (inl r₄))))
          | inl (action_name, e₄) ↦ elim (Result-cases (resolve_value args.action_tags a)) [
            | inr r₅ ↦ inr (inr (inr (inr (inr r₅))))
            | inl (action_tags, e₅) ↦ inl (
              record {
                estimate = estimate;
                subject = subject;
                action_kind = action_kind;
                action_name = action_name;
                action_tags = action_tags;
              },
              (e₁, e₂, e₃, e₄, e₅),
            )
          ]
        ]
      ]
    ]
  ]

  raises_not :
      {C : Type 0} (args : CyclesArgs A R) (a : A) (v : Values)
      → Raises args a
      → Returns args a v
      → C
  raises_not args a v (inl (x, r)) (e₁, e₂, e₃, e₄, e₅) = cc
  raises_not args a v (inr (inl (x, r))) (e₁, e₂, e₃, e₄, e₅) = cc
  raises_not args a v (inr (inr (inl (x, r)))) (e₁, e₂, e₃, e₄, e₅) = cc
  raises_not args a v (inr (inr (inr (inl (x, r))))) (e₁, e₂, e₃, e₄, e₅) = cc
  raises_not args a v (inr (inr (inr (inr (x, r))))) (e₁, e₂, e₃, e₄, e₅) = cc

  resolve_body-agrees :
      (args : CyclesArgs A R) (a : A) (v : Values) (defaults : Subject) (key : String)
      → Returns args a v
      → resolve_body args a defaults key
        ≡ with_config (config_of args v) (
            checked_call (
              check_actual (config_of args v)
              >> build_reservation_body (config_of args v) defaults key))
  unfolding resolve_body resolve_action checked_call build_reservation_body with_config
  resolve_body-agrees args a v defaults key (e₁, e₂, e₃, e₄, e₅) =
      rw (e₁, e₂, e₃, e₄, e₅) (ground arith)

  resolve_body-Returns :
      (args : CyclesArgs A R) (a : A) (defaults : Subject) (key : String)
      (out : DecoratorConfig R × ℕ × Fields)
      → resolve_body args a defaults key ≡ ok out
      → (v : Values) × Returns args a v
  unfolding resolve_body resolve_action
  resolve_body-Returns args a defaults key out is =
      bind-ok (resolve_value args.estimate a) is λ value e₁ r₁.
        bind-ok (checked_call (check_actual (unresolved args value))) r₁ λ u₁ c₁ r₂.
          bind-ok (checked_call (validate_non_negative value)) r₂ λ n c₂ r₃.
            bind-ok (checked_call (validate_ttl_ms args.ttl_ms)) r₃ λ u₂ c₃ r₄.
              bind-ok (resolve_subject args a) r₄ λ own e₂ r₅.
                let subject = subject_of own defaults in
                bind-ok (checked_call (guard (subject_fits subject) value_error)) r₅ λ u₃ c₄ r₆.
                  bind-ok (checked_call (validate_subject (some subject))) r₆ λ u₄ c₅ r₇.
                    bind-ok (resolve_value args.action_kind a) r₇ λ kind e₃ r₈.
                      bind-ok (resolve_value args.action_name a) r₈ λ name e₄ r₉.
                        bind-ok (resolve_value args.action_tags a) r₉ λ tags e₅ r₁₀. (
                          record {
                            estimate = value;
                            subject = own;
                            action_kind = kind;
                            action_name = name;
                            action_tags = tags;
                          },
                          (e₁, e₂, e₃, e₄, e₅),
                        )

  module _ (s : Schemas) {J : Type 0} (ops : Journal J) (engine : EngineConfig)
      (server : Server) where
    -- A call of a decorated function whose callables all return does what `execute` does with the
    -- values that they returned.
    execute_call-agrees :
        (args : CyclesArgs A R) (a : A) (v : Values) (defaults : Subject) (draws : Draws)
        (action : GuardedAction J R) (env : Env J)
        → Returns args a v
        → execute_call s ops engine server args defaults draws a action env ≡ (
            let (o, env') =
              execute s ops engine server (config_of args v) defaults draws action env in
            (settled o, env'))
    unfolding execute_call execute
    execute_call-agrees args a v defaults draws action env returned =
        ap (λ m. after_body s ops engine server draws action m env)
          (resolve_body-agrees args a v defaults draws.create_key returned)
        ∙ after_body-with_config s ops engine server (config_of args v) draws action env (
            check_actual (config_of args v)
            >> build_reservation_body (config_of args v) defaults draws.create_key)

    raised_call :
        (args : CyclesArgs A R) (a : A) (defaults : Subject) (draws : Draws)
        (action : GuardedAction J R) (env : Env J)
        → Raises args a
        → (x : CallError) × (execute_call s ops engine server args defaults draws a action env
            ≡ (ending x, env))
    unfolding execute_call after_body
    raised_call args a defaults draws action env raises =
        elim (Result-cases (resolve_body args a defaults draws.create_key)) [
          | inr (x, e) ↦ (x, ap (λ m. after_body s ops engine server draws action m env) e)
          | inl (out, e) ↦
              let (v, returned) = resolve_body-Returns args a defaults draws.create_key out e in
              raises_not args a v raises returned
        ]

    -- Either every callable of a call returns, and the call does what `execute` does with the values
    -- that they returned; or one of them raises, and the call raises without a request, without the
    -- decorated function, and with everything as before.
    pub execute_call-cases :
        (args : CyclesArgs A R) (a : A) (defaults : Subject) (draws : Draws)
        (action : GuardedAction J R) (env : Env J)
        → ((v : Values) × Returns args a v
            × (execute_call s ops engine server args defaults draws a action env ≡ (
                let (o, env') =
                  execute s ops engine server (config_of args v) defaults draws action env in
                (settled o, env'))))
          ⊎ (Raises args a
              × ((x : CallError) × (execute_call s ops engine server args defaults draws a action
                      env
                    ≡ (ending x, env))))
    execute_call-cases args a defaults draws action env = elim (callables_cases args a) [
      | inl (v, returned) ↦
          inl (v, returned, execute_call-agrees args a v defaults draws action env returned)
      | inr raises ↦ inr (raises, raised_call args a defaults draws action env raises)
    ]
