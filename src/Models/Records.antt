-- ===== src/Models/Records.antt =====
-- runcycles/models.py: the value objects and the responses that the client reads.
use cycles_client_python.Prelude.{
  ℕ, ℤ, String, Bool, true, false, ◌&&◌, ◌||◌, not, Option, none, some, List, [], ◌∷◌, str_eq,
  is_some,
}
use cycles_client_python.Json.{Fields, Json, end, is_empty, set}
use cycles_client_python.Models.Codes.{
  ErrorCode, CostUnit, Decision, allow, allow_with_caps, deny, from_string,
}

pub record Amount : Type 0 where
  pub unit : CostUnit
  pub amount : ℕ

pub record SignedAmount : Type 0 where
  pub unit : CostUnit
  pub amount : ℤ

pub record Subject : Type 0 where
  pub tenant : Option String
  pub workspace : Option String
  pub app : Option String
  pub workflow : Option String
  pub agent : Option String
  pub toolset : Option String
  pub dimensions : Option (List (String × String))

-- `bool(s)` for a `str | None`
unfoldable pub truthy : Option String → Bool
truthy none = false
truthy (some s) = not (str_eq s "")

unfoldable pub has_at_least_one_standard_field : Subject → Bool
has_at_least_one_standard_field s =
    truthy s.tenant
    || (truthy s.workspace
        || (truthy s.app || (truthy s.workflow || (truthy s.agent || truthy s.toolset))))

pub record Action : Type 0 where
  pub kind : String
  pub name : String
  pub tags : Option (List String)

pub record Caps : Type 0 where
  pub max_tokens : Option ℕ
  pub max_steps_remaining : Option ℕ
  pub tool_allowlist : Option (List String)
  pub tool_denylist : Option (List String)
  pub cooldown_ms : Option ℕ

-- `tool in xs`
unfoldable pub contains : List String → String → Bool
contains [] t = false
contains (x ∷ xs) t = str_eq x t || contains xs t

-- A denylist that is `None` or empty denies nothing.
denied_by : Option (List String) → String → Bool
denied_by none t = false
denied_by (some xs) t = contains xs t

unfoldable pub is_tool_allowed : Caps → String → Bool
unfolding contains denied_by
is_tool_allowed c tool = elim c.tool_allowlist [
  | some allowed ↦ contains allowed tool
  | none ↦ not (denied_by c.tool_denylist tool)
]

pub record CyclesMetrics : Type 0 where
  pub tokens_input : Option ℕ
  pub tokens_output : Option ℕ
  pub latency_ms : Option ℕ
  pub model_version : Option String
  pub custom : Option Fields

abbrev pub no_metrics : CyclesMetrics
no_metrics = record {
  tokens_input = none;
  tokens_output = none;
  latency_ms = none;
  model_version = none;
  custom = none;
}

-- `not d` for a `dict | None`
abbrev pub no_fields : Option Fields → Bool
no_fields none = true
no_fields (some d) = is_empty d

unfoldable pub put_custom : String → Json → CyclesMetrics → CyclesMetrics
put_custom k v m = elim m.custom [
  | none ↦ record m { custom = some (set k v end) }
  | some d ↦ record m { custom = some (set k v d) }
]

-- `CyclesMetrics.is_empty`
unfoldable pub is_unset : CyclesMetrics → Bool
is_unset m =
    not (is_some m.tokens_input)
    && (not (is_some m.tokens_output)
        && (not (is_some m.latency_ms) && (not (is_some m.model_version) && no_fields m.custom)))

pub record Balance : Type 0 where
  pub scope : String
  pub scope_path : String
  pub remaining : SignedAmount
  pub reserved : Option Amount
  pub spent : Option Amount
  pub allocated : Option Amount
  pub debt : Option Amount
  pub overdraft_limit : Option Amount
  pub is_over_limit : Option Bool

pub record CyclesEvidenceRef : Type 0 where
  pub evidence_id : String
  pub cycles_evidence_url : String

pub record ReservationCreateResponse : Type 0 where
  pub decision : Decision
  pub reservation_id : Option String
  pub affected_scopes : List String
  pub expires_at_ms : Option ℕ
  pub remaining_ttl_ms : Option ℕ
  pub scope_path : Option String
  pub reserved : Option Amount
  pub caps : Option Caps
  pub reason_code : Option String
  pub retry_after_ms : Option ℕ
  pub balances : Option (List Balance)
  pub cycles_evidence : Option CyclesEvidenceRef

unfoldable pub is_denied : Decision → Bool
is_denied deny = true
is_denied _ = false

unfoldable pub is_allowed : Decision → Bool
is_allowed allow = true
is_allowed allow_with_caps = true
is_allowed deny = false

pub record ReservationExtendResponse : Type 0 where
  pub expires_at_ms : ℕ
  pub remaining_ttl_ms : Option ℕ
  pub balances : Option (List Balance)

pub record DryRunResult : Type 0 where
  pub decision : Decision
  pub caps : Option Caps
  pub affected_scopes : Option (List String)
  pub scope_path : Option String
  pub reserved : Option Amount
  pub balances : Option (List Balance)
  pub reason_code : Option String
  pub retry_after_ms : Option ℕ

pub record ErrorResponse : Type 0 where
  pub error : String
  pub message : String
  pub request_id : String
  pub details : Option Fields

unfoldable pub error_code : ErrorResponse → Option ErrorCode
error_code r = from_string (some r.error)
