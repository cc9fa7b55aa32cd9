-- ===== src/Heartbeat/Span.antt =====
-- The non-negative floats of the heartbeat's clock: a number of microseconds, or `math.inf`.
use cycles_client_python.Prelude.{ℕ, ◌+◌, ◌*◌, max}

pub data Span : Type 0 where
  fin : ℕ → Span
  inf : Span

unfoldable pub max_span : Span → Span → Span
max_span (fin a) (fin b) = fin (max a b)
max_span (fin a) inf = inf
max_span inf b = inf

unfoldable pub add_span : Span → Span → Span
add_span (fin a) (fin b) = fin (a + b)
add_span (fin a) inf = inf
add_span inf b = inf

unfoldable pub twice_span : Span → Span
twice_span (fin a) = fin (2 * a)
twice_span inf = inf

-- The difference of two readings of a clock: `unreliable` where it is not finite or negative.
pub data Rtt : Type 0 where
  reliable : ℕ → Rtt
  unreliable : Rtt

-- n milliseconds
abbrev pub ms : ℕ → ℕ
ms n = n * 1000
