-- ===== src/Lifecycle/Create.antt =====
-- runcycles/lifecycle.py: `_create_reservation_with_recovery`. (Its asynchronous twin has the same
-- body with `await`.)
use cycles_client_python.Prelude.{
  ℕ, zero, suc, ◌-◌, ℤ, Bool, ◌&&◌, not, none, some, if◌then◌else◌, ◌==◌, Result, ok, err,
}
use cycles_client_python.Json.{Fields}
use cycles_client_python.Models.{ReservationCreateResponse}
use cycles_client_python.Exchange.{Server, Reply, create_reservation}
use cycles_client_python.Response.{CyclesResponse, Schemas, is_success}
use cycles_client_python.Retry.Engine.{World, send}
use cycles_client_python.Lifecycle.Schema.{schema_valid_create, create_is_recoverable}

-- What the caller of `create` gets: the response, its reading, the round trip and the time of
-- receipt.
pub record Created : Type 0 where
  pub response : CyclesResponse
  pub result : ReservationCreateResponse
  pub rtt : ℕ
  pub received : ℕ

-- The errors it raises: the client's exception twice, what `_build_protocol_exception` makes of a
-- response, and `_ambiguous_create_error`. The last is the `AssertionError` after the loop.
pub data CreateError : Type 0 where
  still_ambiguous : CreateError
  refused : CyclesResponse → CreateError
  ambiguous_create : ℤ → CreateError
  unreachable : CreateError

-- What one attempt comes to.
pub data Verdict : Type 0 where
  done : Created → Verdict
  again : Verdict
  failed : CreateError → Verdict

module _ (s : Schemas) where
  -- An answer that is no schema-valid success
  unfoldable pub verdict_of_invalid : Bool → CyclesResponse → Verdict
  verdict_of_invalid first r =
      if first && create_is_recoverable r
      then again
      else if not (is_success r)
      then failed (refused r)
      else failed (ambiguous_create r.status)

  -- `first` says that `attempt == 0`.
  unfoldable pub verdict_of : Bool → Reply → Verdict
  unfolding verdict_of_invalid
  verdict_of first reply = elim reply.outcome [
    | none ↦ if first then again else failed still_ambiguous
    | some r ↦ elim (schema_valid_create s r) [
      | some parsed ↦ done (record {
        response = r;
        result = parsed;
        rtt = reply.received - reply.sent;
        received = reply.received;
      })
      | none ↦ verdict_of_invalid first r
    ]
  ]

  module _ {J : Type 0} (server : Server) where
    -- `for attempt in range(2)`, of which `left` are left
    unfoldable pub create_loop : ℕ → Fields → World J → Result CreateError Created × World J
    unfolding verdict_of send
    create_loop zero body w = (err unreachable, w)
    create_loop (suc left) body w =
        let (reply, w₁) = send server (create_reservation body) w in
        let rest = create_loop left body w₁ in
        elim (verdict_of (left == 1) reply) [
          | done c ↦ (ok c, w₁)
          | again ↦ rest
          | failed e ↦ (err e, w₁)
        ]

    unfoldable pub create_reservation_with_recovery :
        Fields → World J → Result CreateError Created × World J
    unfolding create_loop
    create_reservation_with_recovery body w = create_loop 2 body w
