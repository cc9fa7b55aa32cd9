-- ===== src/Models/Requests.antt =====
-- runcycles/models.py: the request models, as the limits that their fields declare. A dictionary is a
-- valid request if each of its entries is a declared field (`extra="forbid"`) with a value of the
-- declared type within the declared limits, and no required field is missing. (pydantic, which is not
-- part of the repository, also accepts some values of other types, by converting them.)
pub mod Valid
use cycles_client_python.Prelude.{
  ℕ, zero, suc, ℤ, pos, negsuc, String, Bool, true, false, ◌&&◌, ◌||◌, not, List, [], ◌∷◌, str_eq,
  leb, length, if◌then◌else◌,
}
use cycles_client_python.Prelude.Text.{codes}
use cycles_client_python.Json.{
  Json, null, bool, int, str, arr, obj, Items, nil, cons, Fields, end, field, has_key,
}

-- A field of a model, with the test of its declared type and limits.
pub record Rule : Type 0 where
  pub name : String
  pub required : Bool
  pub accepts : Json → Bool

unfoldable pub accepts_entry : List Rule → String → Json → Bool
accepts_entry [] k v = false
accepts_entry (r ∷ rs) k v = if str_eq r.name k then r.accepts v else accepts_entry rs k v

unfoldable pub accepts_all : List Rule → Fields → Bool
unfolding accepts_entry
accepts_all rs end = true
accepts_all rs (field k v d) = accepts_entry rs k v && accepts_all rs d

unfoldable pub has_required : List Rule → Fields → Bool
unfolding has_key
has_required [] d = true
has_required (r ∷ rs) d = (not r.required || has_key r.name d) && has_required rs d

unfoldable pub is_valid : List Rule → Fields → Bool
unfolding accepts_all has_required
is_valid rs d = accepts_all rs d && has_required rs d

-- `T | None`
unfoldable pub or_null : (Json → Bool) → Json → Bool
or_null p null = true
or_null p v = p v

-- `Field(min_length=low, max_length=high)` of a string
unfoldable pub text_within : ℕ → ℕ → Json → Bool
text_within low high (str t) = leb low (length (codes t)) && leb (length (codes t)) high
text_within low high _ = false

-- `Field(ge=low, le=high)` of an integer
unfoldable pub int_within : ℕ → ℕ → Json → Bool
int_within low high (int (pos n)) = leb low n && leb n high
int_within low high _ = false

unfoldable pub is_int : Json → Bool
is_int (int z) = true
is_int _ = false

-- `Field(ge=0)`
unfoldable pub is_count : Json → Bool
is_count (int (pos n)) = true
is_count _ = false

unfoldable pub is_bool : Json → Bool
is_bool (bool b) = true
is_bool _ = false

unfoldable pub is_dict : Json → Bool
is_dict (obj d) = true
is_dict _ = false

among : List String → String → Bool
among [] t = false
among (x ∷ xs) t = str_eq x t || among xs t

-- A member of an enumeration of texts
unfoldable pub one_of : List String → Json → Bool
unfolding among
one_of xs (str t) = among xs t
one_of xs _ = false

-- A nested model
unfoldable pub is_model : List Rule → Json → Bool
unfolding is_valid
is_model rs (obj d) = is_valid rs d
is_model rs _ = false

abbrev pub needed : String → (Json → Bool) → Rule
needed name accepts = record { name = name; required = true; accepts = accepts }

abbrev pub optional : String → (Json → Bool) → Rule
optional name accepts = record { name = name; required = false; accepts = or_null accepts }

unfoldable pub unit_texts : List String
unit_texts = "USD_MICROCENTS" ∷ "TOKENS" ∷ "CREDITS" ∷ "RISK_POINTS" ∷ []

unfoldable pub policy_texts : List String
policy_texts = "REJECT" ∷ "ALLOW_IF_AVAILABLE" ∷ "ALLOW_WITH_OVERDRAFT" ∷ []

unfoldable pub amount_rules : List Rule
unfolding unit_texts one_of int_within
amount_rules =
    needed "unit" (one_of unit_texts) ∷ needed "amount" (int_within 0 9223372036854775807) ∷ []

-- At most `n` values, each of them accepted
unfoldable pub dict_of : (Json → Bool) → ℕ → Fields → Bool
dict_of p n end = true
dict_of p zero (field k v d) = false
dict_of p (suc n) (field k v d) = p v && dict_of p n d

unfoldable pub list_of : (Json → Bool) → ℕ → Items → Bool
list_of p n nil = true
list_of p zero (cons v xs) = false
list_of p (suc n) (cons v xs) = p v && list_of p n xs

unfoldable pub is_dimensions : Json → Bool
unfolding dict_of text_within
is_dimensions (obj d) = dict_of (text_within 0 256) 16 d
is_dimensions _ = false

unfoldable pub is_tags : Json → Bool
unfolding list_of text_within
is_tags (arr xs) = list_of (text_within 0 64) 10 xs
is_tags _ = false

unfoldable pub subject_rules : List Rule
unfolding text_within is_dimensions or_null
subject_rules =
    optional "tenant" (text_within 0 128)
    ∷ optional "workspace" (text_within 0 128)
    ∷ optional "app" (text_within 0 128)
    ∷ optional "workflow" (text_within 0 128)
    ∷ optional "agent" (text_within 0 128)
    ∷ optional "toolset" (text_within 0 128)
    ∷ optional "dimensions" is_dimensions
    ∷ []

unfoldable pub action_rules : List Rule
unfolding text_within is_tags or_null
action_rules =
    needed "kind" (text_within 0 64)
    ∷ needed "name" (text_within 0 256)
    ∷ optional "tags" is_tags
    ∷ []

unfoldable pub metrics_rules : List Rule
unfolding is_count text_within is_dict or_null
metrics_rules =
    optional "tokens_input" is_count
    ∷ optional "tokens_output" is_count
    ∷ optional "latency_ms" is_count
    ∷ optional "model_version" (text_within 0 128)
    ∷ optional "custom" is_dict
    ∷ []

-- `ReservationCreateRequest`
unfoldable pub create_rules : List Rule
unfolding text_within is_model subject_rules action_rules amount_rules is_int one_of policy_texts
    is_bool is_dict or_null
create_rules =
    needed "idempotency_key" (text_within 1 256)
    ∷ needed "subject" (is_model subject_rules)
    ∷ needed "action" (is_model action_rules)
    ∷ needed "estimate" (is_model amount_rules)
    ∷ optional "ttl_ms" is_int
    ∷ optional "grace_period_ms" is_int
    ∷ optional "overage_policy" (one_of policy_texts)
    ∷ optional "dry_run" is_bool
    ∷ optional "metadata" is_dict
    ∷ []

-- `CommitRequest`
unfoldable pub commit_rules : List Rule
unfolding text_within is_model amount_rules metrics_rules is_dict or_null
commit_rules =
    needed "idempotency_key" (text_within 1 256)
    ∷ needed "actual" (is_model amount_rules)
    ∷ optional "metrics" (is_model metrics_rules)
    ∷ optional "metadata" is_dict
    ∷ []

-- `ReleaseRequest`
unfoldable pub release_rules : List Rule
unfolding text_within or_null
release_rules =
    needed "idempotency_key" (text_within 1 256) ∷ optional "reason" (text_within 0 256) ∷ []

-- `ReservationExtendRequest`
unfoldable pub extend_rules : List Rule
unfolding text_within int_within is_dict or_null
extend_rules =
    needed "idempotency_key" (text_within 1 256)
    ∷ needed "extend_by_ms" (int_within 1 86400000)
    ∷ optional "metadata" is_dict
    ∷ []

-- `DecisionRequest`
unfoldable pub decision_rules : List Rule
unfolding text_within is_model subject_rules action_rules amount_rules is_dict or_null
decision_rules =
    needed "idempotency_key" (text_within 1 256)
    ∷ needed "subject" (is_model subject_rules)
    ∷ needed "action" (is_model action_rules)
    ∷ needed "estimate" (is_model amount_rules)
    ∷ optional "metadata" is_dict
    ∷ []

-- `EventCreateRequest`
unfoldable pub event_rules : List Rule
unfolding text_within is_model subject_rules action_rules amount_rules one_of policy_texts
    metrics_rules is_int is_dict or_null
event_rules =
    needed "idempotency_key" (text_within 1 256)
    ∷ needed "subject" (is_model subject_rules)
    ∷ needed "action" (is_model action_rules)
    ∷ needed "actual" (is_model amount_rules)
    ∷ optional "overage_policy" (one_of policy_texts)
    ∷ optional "metrics" (is_model metrics_rules)
    ∷ optional "client_time_ms" is_int
    ∷ optional "metadata" is_dict
    ∷ []
