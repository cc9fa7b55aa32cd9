-- ===== src/Retry/Configured.antt =====
-- runcycles/retry.py: the settings that `_RetryEngineBase.__init__` takes from a configuration. A float
-- is a value of any type: `micros` gives a number of seconds in microseconds, and `ratio` a multiplier
-- as a fraction.
use cycles_client_python.Prelude.{ℕ, ℤ, pos, negsuc, Bool}
use cycles_client_python.Config.{CyclesConfig}
use cycles_client_python.Retry.Engine.{EngineConfig}

-- A count of attempts that is negative allows none.
abbrev natural : ℤ → ℕ
natural (pos n) = n
natural (negsuc n) = 0

unfoldable pub engine_of :
    {F : Type 0} → (F → ℕ) → (F → ℕ × ℕ) → CyclesConfig F → Bool → EngineConfig
engine_of micros ratio c client_set =
    let (num, den) = ratio c.retry_multiplier in
    record {
      enabled = c.retry_enabled;
      max_attempts = natural c.retry_max_attempts;
      initial_delay = micros c.retry_initial_delay;
      multiplier_num = num;
      multiplier_den = den;
      max_delay = micros c.retry_max_delay;
      base_url = c.base_url;
      journal_enabled = c.journal_enabled;
      client_set = client_set;
    }
