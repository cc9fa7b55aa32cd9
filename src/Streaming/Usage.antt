-- ===== src/Streaming/Usage.antt =====
-- runcycles/streaming.py: the usage of a stream, its cost, its metrics and its derived keys.
use cycles_client_python.Prelude.{
  Result, ℕ, ℤ, pos, negsuc, ◌+ℤ◌, guard, ◌>>=◌, String, Bool, true, false, Option, none, some, ok,
  err, if◌then◌else◌, leb, ◌==◌, length, is_some,
}
use cycles_client_python.Prelude.Text.{codes}
use Prim.Native.String.{◌++◌}
use cycles_client_python.Json.{Json, Fields, is_empty}
use cycles_client_python.Models.{CyclesMetrics}
use cycles_client_python.Validation.{validate_non_negative, text_fits}
use cycles_client_python.Response.{Raised, value_error}

-- `StreamUsage`; the cost is what the user set, of any type.
pub record StreamUsage : Type 0 where
  pub tokens_input : ℤ
  pub tokens_output : ℤ
  pub actual_cost : Option Json
  pub model_version : Option String
  pub custom : Fields

unfoldable pub add_input_tokens : ℤ → StreamUsage → StreamUsage
add_input_tokens count u = record u { tokens_input = u.tokens_input +ℤ count }

unfoldable pub add_output_tokens : ℤ → StreamUsage → StreamUsage
add_output_tokens count u = record u { tokens_output = u.tokens_output +ℤ count }

unfoldable pub set_actual_cost : Json → StreamUsage → StreamUsage
set_actual_cost amount u = record u { actual_cost = some amount }

-- The amount if it is valid, or the estimate, which is then marked as assumed.
unfoldable pub valid_or_estimate : Option Json → ℕ → ℕ × Bool
valid_or_estimate none estimate = (estimate, true)
valid_or_estimate (some v) estimate = elim (validate_non_negative v) [
  | ok n ↦ (n, false)
  | err e ↦ (estimate, true)
]

-- `_resolve_actual_cost`; a `cost_fn` that raises returns `none`.
unfoldable pub resolve_actual_cost : StreamUsage → Option (StreamUsage → Option Json) → ℕ → ℕ × Bool
unfolding valid_or_estimate
resolve_actual_cost usage cost_fn estimate = elim usage.actual_cost [
  | some v ↦ valid_or_estimate (some v) estimate
  | none ↦ elim cost_fn [ some f ↦ valid_or_estimate (f usage) estimate | none ↦ (estimate, true) ]
]

-- `_derived_stream_key`, for any digest in hexadecimal
unfoldable pub derived_stream_key : (String → String) → String → Option String → Option String
derived_stream_key sha256 prefix none = none
derived_stream_key sha256 prefix (some key) =
    let candidate = (prefix ++ "-") ++ key in
    if leb (length (codes candidate)) 256
    then some candidate
    else some ((prefix ++ "-sha256-") ++ sha256 key)

-- A count as the model takes it: zero is left out, and a negative one is refused.
unfoldable pub count_of : ℤ → Result Raised (Option ℕ)
count_of (pos n) = ok (if n == 0 then none else some n)
count_of (negsuc n) = err value_error

-- `_build_stream_metrics`; the time is in milliseconds. The construction of `CyclesMetrics` checks the
-- counts and the length of the model's version, and an instance that the user set is not checked again.
unfoldable pub build_stream_metrics :
    StreamUsage → ℕ → Option CyclesMetrics → Result Raised CyclesMetrics
unfolding count_of text_fits
build_stream_metrics usage elapsed_ms (some m) =
    if is_some m.latency_ms then ok m else ok (record m { latency_ms = some elapsed_ms })
build_stream_metrics usage elapsed_ms none = count_of usage.tokens_input >>= λ tokens_input.
    count_of usage.tokens_output >>= λ tokens_output.
    guard (text_fits 128 usage.model_version) value_error >>= λ _. ok (record {
      tokens_input = tokens_input;
      tokens_output = tokens_output;
      latency_ms = some elapsed_ms;
      model_version = usage.model_version;
      custom = if is_empty usage.custom then none else some usage.custom;
    })
