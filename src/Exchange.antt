-- ===== src/Exchange.antt =====
-- runcycles/client.py as its callers see it: the requests of the lifecycle and of the retry
-- engine, and what comes back. HTTP and the server are not part of the repository: a server is any
-- function from a request, and from all that was exchanged before it, to a reply.
use cycles_client_python.Prelude.{ℕ, String, Bool, false, Option, List, [], ◌∷◌, ◌||◌}
use cycles_client_python.Json.{Fields}
use cycles_client_python.Response.{CyclesResponse}

-- The calls of `CyclesClient` that carry an idempotency key, with their arguments.
pub data Request : Type 0 where
  create_reservation : Fields → Request
  commit_reservation : String → Option Fields → Request
  release_reservation : String → Fields → Request
  extend_reservation : String → Fields → Request
  create_event : Option Fields → Request

-- A call returns a response, or raises (a deadline that passes included). `sent` and `received` are
-- the monotonic clock before and after it, `wall` is `time.time()` after it, in microseconds.
pub record Reply : Type 0 where
  pub outcome : Option CyclesResponse
  pub sent : ℕ
  pub received : ℕ
  pub wall : ℕ

pub record Exchange : Type 0 where
  pub request : Request
  pub reply : Reply

-- The history is the newest exchange first.
abbrev pub Server : Type 0
Server = Request → List Exchange → Reply

abbrev pub any_exchange : (Exchange → Bool) → List Exchange → Bool
any_exchange p [] = false
any_exchange p (x ∷ xs) = p x || any_exchange p xs
