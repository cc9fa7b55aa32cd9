-- ===== src/Response/RetryAfter.antt =====
-- runcycles/response.py: the reading of the `Retry-After` header, over the code points of its text.
use cycles_client_python.Prelude.{
  ◌≡◌, refl, ℕ, ◌+◌, ◌-◌, ◌*◌, ◌/◌, ◌≤◌, String, Bool, true, false, ◌&&◌, Option, none, some, List,
  [], ◌∷◌, if◌then◌else◌, ltb, leb, arith,
}
use cycles_client_python.Prelude.Text.{codes, strip}

unfoldable pub all_digits : List ℕ → Bool
all_digits [] = true
all_digits (c ∷ cs) = leb 48 c && leb c 57 && all_digits cs

-- `re.fullmatch(r"[0-9]+", s)`
unfoldable pub is_number : List ℕ → Bool
unfolding all_digits
is_number [] = false
is_number (c ∷ cs) = all_digits (c ∷ cs)

-- `int(s)` for a string of digits
unfoldable pub int_from : ℕ → List ℕ → ℕ
int_from n [] = n
int_from n (c ∷ cs) = int_from (n * 10 + (c - 48)) cs

abbrev pub int64_max : ℕ
int64_max = 9223372036854775807

to_ms : ℕ → Option ℕ
to_ms seconds = if ltb (int64_max / 1000) seconds then none else some (seconds * 1000)

unfoldable pub delay_of_codes : List ℕ → Option ℕ
unfolding is_number int_from to_ms
delay_of_codes cs = if is_number cs then to_ms (int_from 0 cs) else none

unfoldable pub delay_of : String → Option ℕ
unfolding delay_of_codes strip
delay_of v = delay_of_codes (strip (codes v))

-- A delay that is read fits a signed 64-bit number.
pub delay_of-le : (v : String) (ms : ℕ) → delay_of v ≡ some ms → ms ≤ int64_max
unfolding delay_of delay_of_codes to_ms
delay_of-le v ms h = ground arith

spaced : delay_of " 120 " ≡ some 120000
unfolding delay_of
spaced = refl

too_long : delay_of "9223372036854776" ≡ none
unfolding delay_of
too_long = refl

not_a_number : delay_of "12s" ≡ none
unfolding delay_of
not_a_number = refl
