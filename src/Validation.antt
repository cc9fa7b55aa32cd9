-- ===== src/Validation.antt =====
-- runcycles/_validation.py: the checks that a call makes before any request. Each `validate_` function
-- raises a `ValueError`; a value of the user's is `Json`, since Python does not check its type.
use cycles_client_python.Prelude.{
  ℕ, ℤ, pos, negsuc, String, Bool, true, ◌&&◌, not, Option, none, some, List, [], ◌∷◌, Result, ok,
  err, guard, leb, str_eq, if◌then◌else◌, length,
}
use cycles_client_python.Prelude.Text.{codes}
use cycles_client_python.Json.{Json, int}
use cycles_client_python.Models.{Subject, has_at_least_one_standard_field}
use cycles_client_python.Response.{Raised, value_error}
use cycles_client_python.Response.RetryAfter.{int64_max}

-- `validate_non_negative`, with the number that passed
unfoldable pub validate_non_negative : Json → Result Raised ℕ
validate_non_negative (int (pos n)) = if leb n int64_max then ok n else err value_error
validate_non_negative _ = err value_error

unfoldable pub validate_ttl_ms : ℕ → Result Raised (Unit {0})
validate_ttl_ms n = guard (leb 1000 n && leb n 86400000) value_error

unfoldable pub validate_grace_period_ms : Option ℤ → Result Raised (Unit {0})
validate_grace_period_ms none = ok tt
validate_grace_period_ms (some (negsuc n)) = err value_error
validate_grace_period_ms (some (pos n)) = guard (leb n 60000) value_error

unfoldable pub validate_subject : Option Subject → Result Raised (Unit {0})
validate_subject none = ok tt
validate_subject (some s) = guard (has_at_least_one_standard_field s) value_error

unfoldable pub validate_reservation_id : Option String → Result Raised (Unit {0})
validate_reservation_id none = err value_error
validate_reservation_id (some id) = guard (not (str_eq id "")) value_error

unfoldable pub validate_extend_by_ms : ℤ → Result Raised (Unit {0})
validate_extend_by_ms (negsuc n) = err value_error
validate_extend_by_ms (pos n) = guard (leb 1 n && leb n 86400000) value_error

-- `Field(max_length=n)` of a string that may be absent
unfoldable pub text_fits : ℕ → Option String → Bool
text_fits n none = true
text_fits n (some s) = leb (length (codes s)) n

unfoldable pub values_fit : List (String × String) → Bool
unfolding text_fits
values_fit [] = true
values_fit ((k, v) ∷ ds) = text_fits 256 (some v) && values_fit ds

unfoldable pub dimensions_fit : Option (List (String × String)) → Bool
unfolding values_fit
dimensions_fit none = true
dimensions_fit (some ds) = leb (length ds) 16 && values_fit ds

-- The declared limits of `Subject`, which its construction checks
unfoldable pub subject_fits : Subject → Bool
unfolding text_fits dimensions_fit
subject_fits s =
    text_fits 128 s.tenant
    && text_fits 128 s.workspace
    && text_fits 128 s.app
    && text_fits 128 s.workflow
    && text_fits 128 s.agent
    && text_fits 128 s.toolset
    && dimensions_fit s.dimensions
