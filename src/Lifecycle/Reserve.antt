-- ===== src/Lifecycle/Reserve.antt =====
-- runcycles/lifecycle.py: the configuration of a guarded call and `_build_reservation_body`. A value
-- of the decorator that is a callable is given as what it returned, and the key is what `uuid4` made.
use cycles_client_python.Prelude.{
  ℕ, ℤ, pos, String, Bool, true, false, Option, none, some, List, [], ◌∷◌, Result, ok, ◌>>=◌, ◌>>◌,
  guard, if◌then◌else◌,
}
use cycles_client_python.Json.{Json, str, int, bool, arr, obj, Items, nil, cons, Fields, end, field}
use cycles_client_python.Models.{Subject, truthy}
use cycles_client_python.Response.{Raised, value_error}
use cycles_client_python.Lifecycle.Bodies.{amount}
use cycles_client_python.Validation.{
  validate_non_negative, validate_ttl_ms, validate_subject, validate_grace_period_ms, subject_fits,
}

-- `cfg.actual`: absent, a constant, or a function of the result, which may raise.
pub data ActualExpr (R : Type 0) : Type 0 where
  no_actual : ActualExpr R
  constant : Json → ActualExpr R
  callable : (R → Option Json) → ActualExpr R

-- `DecoratorConfig`
pub record DecoratorConfig (R : Type 0) : Type 0 where
  pub estimate : Json
  pub actual : ActualExpr R
  pub action_kind : Option String
  pub action_name : Option String
  pub action_tags : List String
  pub unit : String
  pub ttl_ms : ℕ
  pub grace_period_ms : Option ℤ
  pub overage_policy : String
  pub dry_run : Bool
  pub subject : Subject
  pub use_estimate_if_actual_not_provided : Bool

-- `if not val: val = default`, and `if val:`
unfoldable pub with_default : Option String → Option String → Option String
with_default v d = if truthy v then v else if truthy d then d else none

nonempty : Option (List (String × String)) → Option (List (String × String))
nonempty none = none
nonempty (some []) = none
nonempty (some (d ∷ ds)) = some (d ∷ ds)

unfoldable pub subject_of : Subject → Subject → Subject
unfolding with_default nonempty
subject_of own defaults = record {
  tenant = with_default own.tenant defaults.tenant;
  workspace = with_default own.workspace defaults.workspace;
  app = with_default own.app defaults.app;
  workflow = with_default own.workflow defaults.workflow;
  agent = with_default own.agent defaults.agent;
  toolset = with_default own.toolset defaults.toolset;
  dimensions = nonempty own.dimensions;
}

unfoldable pub put : String → Option String → Fields → Fields
put k none d = d
put k (some v) d = field k (str v) d

unfoldable pub fields_of : List (String × String) → Fields
fields_of [] = end
fields_of ((k, v) ∷ ds) = field k (str v) (fields_of ds)

unfoldable pub put_dimensions : Option (List (String × String)) → Fields
unfolding fields_of
put_dimensions none = end
put_dimensions (some ds) = field "dimensions" (obj (fields_of ds)) end

unfoldable pub dump_subject : Subject → Fields
unfolding put put_dimensions
dump_subject s = put "tenant" s.tenant (
    put "workspace" s.workspace (
      put "app" s.app (
        put "workflow" s.workflow
          (put "agent" s.agent (put "toolset" s.toolset (put_dimensions s.dimensions))))))

items_of : List String → Items
items_of [] = nil
items_of (t ∷ ts) = cons (str t) (items_of ts)

put_tags : List String → Fields
unfolding items_of
put_tags [] = end
put_tags (t ∷ ts) = field "tags" (arr (items_of (t ∷ ts))) end

-- `kind or "unknown"`
or_unknown : Option String → String
or_unknown none = "unknown"
or_unknown (some s) = if truthy (some s) then s else "unknown"

unfoldable pub action_of : Option String → Option String → List String → Fields
unfolding or_unknown put_tags
action_of kind name tags =
    field "kind" (str (or_unknown kind)) (field "name" (str (or_unknown name)) (put_tags tags))

unfoldable pub put_grace : Option ℤ → Fields → Fields
put_grace none d = d
put_grace (some g) d = field "grace_period_ms" (int g) d

unfoldable pub put_dry_run : Bool → Fields
put_dry_run true = field "dry_run" (bool true) end
put_dry_run false = end

-- The body, from values that passed their checks
unfoldable pub reservation_fields : {R : Type 0} → DecoratorConfig R → ℕ → Subject → String → Fields
unfolding dump_subject action_of put_grace put_dry_run
reservation_fields cfg estimate subject key = field "idempotency_key" (str key) (
    field "subject" (obj (dump_subject subject)) (
      field "action" (obj (action_of cfg.action_kind cfg.action_name cfg.action_tags)) (
        field "estimate" (amount cfg.unit (pos estimate)) (
          field "ttl_ms" (int (pos cfg.ttl_ms)) (
            field "overage_policy" (str cfg.overage_policy)
              (put_grace cfg.grace_period_ms (put_dry_run cfg.dry_run)))))))

-- `_build_reservation_body`, with the estimate that it checked
unfoldable pub build_reservation_body :
    {R : Type 0} → DecoratorConfig R → Subject → String → Result Raised (ℕ × Fields)
unfolding subject_of reservation_fields
build_reservation_body cfg defaults key =
    let subject = subject_of cfg.subject defaults in
    validate_non_negative cfg.estimate >>= λ estimate.
    validate_ttl_ms cfg.ttl_ms
    >> (guard (subject_fits subject) value_error
        >> (validate_subject (some subject)
            >> (validate_grace_period_ms cfg.grace_period_ms
                >> ok (estimate, reservation_fields cfg estimate subject key))))
