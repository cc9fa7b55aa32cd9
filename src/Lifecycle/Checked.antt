-- ===== src/Lifecycle/Checked.antt =====
-- What the checks before the first request guarantee of a reservation.
use cycles_client_python.Prelude.{◌≡◌, ◌⊎◌, ℕ, ◌≤◌, pos, String, true, none, some, ok, arith}
use cycles_client_python.Json.{int, str, Fields, get}
use cycles_client_python.Models.{Subject, has_at_least_one_standard_field}
use cycles_client_python.Response.RetryAfter.{int64_max}
use cycles_client_python.Validation.{
  validate_non_negative, validate_ttl_ms, validate_subject, validate_grace_period_ms, subject_fits,
}
use cycles_client_python.Lifecycle.Bodies.{amount}
use cycles_client_python.Lifecycle.Reserve.{
  DecoratorConfig, subject_of, reservation_fields, build_reservation_body,
}

-- A body is built only from a configuration that passed every check: the estimate is a non-negative
-- 64-bit integer, the time to live is from one second to a day, the grace period, if any, is at most
-- a minute, and the subject has a standard field and fits the declared lengths. The body then has the
-- given key and the estimate in the configured unit.
pub build_reservation_body-ok :
    {R : Type 0} (cfg : DecoratorConfig R) (defaults : Subject) (key : String) (n : ℕ)
    (body : Fields)
    → build_reservation_body cfg defaults key ≡ ok (n, body)
    → ((cfg.estimate ≡ int (pos n)) × (n ≤ int64_max))
      × ((1000 ≤ cfg.ttl_ms) × (cfg.ttl_ms ≤ 86400000))
      × ((cfg.grace_period_ms ≡ none)
          ⊎ ((g : ℕ) × (cfg.grace_period_ms ≡ some (pos g)) × (g ≤ 60000)))
      × (has_at_least_one_standard_field (subject_of cfg.subject defaults) ≡ true)
      × (subject_fits (subject_of cfg.subject defaults) ≡ true)
      × (get "idempotency_key" body ≡ some (str key))
      × (get "estimate" body ≡ some (amount cfg.unit (pos n)))
unfolding build_reservation_body validate_subject validate_non_negative validate_ttl_ms
    validate_grace_period_ms reservation_fields get
build_reservation_body-ok cfg defaults key n body h = ground arith
