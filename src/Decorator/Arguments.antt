-- ===== src/Decorator/Arguments.antt =====
-- runcycles/decorator.py and runcycles/lifecycle.py: the arguments of `@cycles`, constants or callables
-- of the decorated function's arguments, and the body of the create that a call makes of them. `A` is
-- the type of the arguments of one call.
use cycles_client_python.Prelude.{
  ℕ, ℤ, String, Bool, Option, none, some, List, [], Result, ok, err, ◌>>=◌, guard,
}
use cycles_client_python.Json.{Json, Fields}
use cycles_client_python.Models.{Subject}
use cycles_client_python.Response.{Raised, value_error}
use cycles_client_python.Validation.{
  validate_non_negative, validate_ttl_ms, validate_subject, validate_grace_period_ms, subject_fits,
}
use cycles_client_python.Lifecycle.Reserve.{
  DecoratorConfig, ActualExpr, subject_of, reservation_fields,
}
use cycles_client_python.Lifecycle.Context.{check_actual}

-- A constant, or a callable; `none` is an exception of the callable.
pub data Valued (A X : Type 0) : Type 0 where
  given : X → Valued A X
  computed : (A → Option X) → Valued A X

-- A check that fails, or a callable that raises.
pub data CallError : Type 0 where
  refused : Raised → CallError
  callable_raised : CallError

-- The arguments of `cycles`, which `DecoratorConfig` keeps as they are.
pub record CyclesArgs (A R : Type 0) : Type 0 where
  pub estimate : Valued A Json
  pub actual : ActualExpr R
  pub action_kind : Valued A (Option String)
  pub action_name : Valued A (Option String)
  pub action_tags : Valued A (Option (List String))
  pub unit : String
  pub ttl_ms : ℕ
  pub grace_period_ms : Option ℤ
  pub overage_policy : String
  pub dry_run : Bool
  pub tenant : Valued A (Option String)
  pub workspace : Valued A (Option String)
  pub app : Valued A (Option String)
  pub workflow : Valued A (Option String)
  pub agent : Valued A (Option String)
  pub toolset : Valued A (Option String)
  pub dimensions : Valued A (Option (List (String × String)))
  pub use_estimate_if_actual_not_provided : Bool

-- What the callables of a call returned.
pub record Values : Type 0 where
  pub estimate : Json
  pub subject : Subject
  pub action_kind : Option String
  pub action_name : Option String
  pub action_tags : Option (List String)

-- `if tags:`
abbrev pub tags_or_none : Option (List String) → List String
tags_or_none none = []
tags_or_none (some ts) = ts

abbrev pub no_subject : Subject
no_subject = record {
  tenant = none;
  workspace = none;
  app = none;
  workflow = none;
  agent = none;
  toolset = none;
  dimensions = none;
}

-- A check of the call
unfoldable pub checked_call : {X : Type 0} → Result Raised X → Result CallError X
checked_call (ok x) = ok x
checked_call (err e) = err (refused e)

module _ {A : Type 0} where
  -- `_resolve_value` and `_evaluate_amount`
  unfoldable pub resolve_value : {X : Type 0} → Valued A X → A → Result CallError X
  resolve_value (given x) a = ok x
  resolve_value (computed f) a = elim (f a) [ none ↦ err callable_raised | some x ↦ ok x ]

  module _ {R : Type 0} where
    unfoldable pub config_of : CyclesArgs A R → Values → DecoratorConfig R
    config_of args v = record {
      estimate = v.estimate;
      actual = args.actual;
      action_kind = v.action_kind;
      action_name = v.action_name;
      action_tags = tags_or_none v.action_tags;
      unit = args.unit;
      ttl_ms = args.ttl_ms;
      grace_period_ms = args.grace_period_ms;
      overage_policy = args.overage_policy;
      dry_run = args.dry_run;
      subject = v.subject;
      use_estimate_if_actual_not_provided = args.use_estimate_if_actual_not_provided;
    }

    -- The fields of the subject, in the order of the loop, and the dimensions
    unfoldable pub resolve_subject : CyclesArgs A R → A → Result CallError Subject
    unfolding resolve_value
    resolve_subject args a = resolve_value args.tenant a >>= λ tenant.
        resolve_value args.workspace a >>= λ workspace. resolve_value args.app a >>= λ app.
        resolve_value args.workflow a >>= λ workflow. resolve_value args.agent a >>= λ agent.
        resolve_value args.toolset a >>= λ toolset.
        resolve_value args.dimensions a >>= λ dimensions. ok (record {
          tenant = tenant;
          workspace = workspace;
          app = app;
          workflow = workflow;
          agent = agent;
          toolset = toolset;
          dimensions = dimensions;
        })

    -- Before the values are known: the checks of the actual do not need them.
    unfoldable pub unresolved : CyclesArgs A R → Json → DecoratorConfig R
    unfolding config_of
    unresolved args estimate = config_of args (record {
      estimate = estimate;
      subject = no_subject;
      action_kind = none;
      action_name = none;
      action_tags = none;
    })

    -- The action and the rest of `_build_reservation_body`, after its subject
    unfoldable pub resolve_action :
        CyclesArgs A R
        → A
        → Json
        → ℕ
        → Subject
        → Subject
        → String
        → Result CallError (DecoratorConfig R × ℕ × Fields)
    unfolding resolve_value checked_call config_of reservation_fields
    resolve_action args a value estimate own subject key =
        resolve_value args.action_kind a >>= λ kind. resolve_value args.action_name a >>= λ name.
        resolve_value args.action_tags a >>= λ tags.
        checked_call (validate_grace_period_ms args.grace_period_ms) >>= λ _.
        let cfg = config_of args (record {
          estimate = value;
          subject = own;
          action_kind = kind;
          action_name = name;
          action_tags = tags;
        }) in
        ok (cfg, estimate, reservation_fields cfg estimate subject key)

    -- The head of `execute` up to the create: the estimate, the checks of the actual, and
    -- `_build_reservation_body`, with the configuration that the values make.
    unfoldable pub resolve_body :
        CyclesArgs A R → A → Subject → String → Result CallError (DecoratorConfig R × ℕ × Fields)
    unfolding resolve_value resolve_subject resolve_action checked_call unresolved check_actual
        subject_of
    resolve_body args a defaults key = resolve_value args.estimate a >>= λ value.
        checked_call (check_actual (unresolved args value)) >>= λ _.
        checked_call (validate_non_negative value) >>= λ estimate.
        checked_call (validate_ttl_ms args.ttl_ms) >>= λ _. resolve_subject args a >>= λ own.
        let subject = subject_of own defaults in
        checked_call (guard (subject_fits subject) value_error) >>= λ _.
        checked_call (validate_subject (some subject)) >>= λ _.
        resolve_action args a value estimate own subject key
