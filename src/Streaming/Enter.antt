-- ===== src/Streaming/Enter.antt =====
-- runcycles/streaming.py: `StreamReservation.__enter__` with the body of its create.
-- (`AsyncStreamReservation.__aenter__` has the same body with `await`.)
use cycles_client_python.Prelude.{
  ℕ, ℤ, pos, String, Bool, true, ◌&&◌, Option, none, some, Result, ok, err, ◌>>=◌, ◌>>◌, guard, leb,
  length, if◌then◌else◌,
}
use cycles_client_python.Prelude.Text.{codes}
use cycles_client_python.Json.{Json, str, int, obj, Fields, field, end}
use cycles_client_python.Models.{Subject, Caps, Decision, ReservationCreateResponse, is_denied}
use cycles_client_python.Exchange.{Server}
use cycles_client_python.Response.{Raised, value_error, Schemas}
use cycles_client_python.Validation.{validate_ttl_ms, validate_grace_period_ms, validate_subject}
use cycles_client_python.Lifecycle.Bodies.{amount, key_or}
use cycles_client_python.Lifecycle.Create.{Created, CreateError, create_reservation_with_recovery}
use cycles_client_python.Lifecycle.Reserve.{dump_subject, put_grace}
use cycles_client_python.Lifecycle.Context.{Env, context_of}
use cycles_client_python.Exceptions.{CyclesProtocolError}
use cycles_client_python.Exceptions.Refusal.{build_protocol_exception}

-- The arguments of a `StreamReservation` that its entry reads; the action is its dump.
pub record StreamRequest : Type 0 where
  pub subject : Subject
  pub action : Fields
  pub unit : String
  pub estimate : ℕ
  pub ttl_ms : ℕ
  pub grace_period_ms : Option ℤ
  pub overage_policy : String
  pub idempotency_key : Option String

-- What an entry raises: a `ValueError` before any request, the error of the create, the exception of
-- a denial or the one that building it raised, or a missing id with the status.
pub data EnterError : Type 0 where
  invalid : Raised → EnterError
  create_failed : CreateError → EnterError
  denied : Result Raised CyclesProtocolError → EnterError
  missing_id : ℤ → EnterError

-- The fields that an entry sets; the heartbeat starts from them.
pub record Entered : Type 0 where
  pub reservation_id : String
  pub initial_remaining : Option ℕ
  pub create_rtt : ℕ
  pub create_received : ℕ
  pub decision : Decision
  pub caps : Option Caps

unfoldable pub stream_key_ok : Option String → Bool
stream_key_ok none = true
stream_key_ok (some k) = leb 1 (length (codes k)) && leb (length (codes k)) 256

unfoldable pub stream_fields : StreamRequest → String → Fields
unfolding key_or dump_subject put_grace
stream_fields r fresh = field "idempotency_key" (str (key_or r.idempotency_key fresh)) (
    field "subject" (obj (dump_subject r.subject)) (
      field "action" (obj r.action) (
        field "estimate" (amount r.unit (pos r.estimate)) (
          field "ttl_ms" (int (pos r.ttl_ms))
            (field "overage_policy" (str r.overage_policy) (put_grace r.grace_period_ms end))))))

-- `_build_streaming_reservation_body`; the key is used if the caller gave none.
unfoldable pub build_streaming_reservation_body : StreamRequest → String → Result Raised Fields
unfolding stream_key_ok stream_fields
build_streaming_reservation_body r fresh =
    validate_subject (some r.subject)
    >> (validate_ttl_ms r.ttl_ms
        >> (validate_grace_period_ms r.grace_period_ms
            >> (guard (stream_key_ok r.idempotency_key) value_error >> ok (stream_fields r fresh))))

or_text : Option Json → Option String → Option Json
or_text (some v) t = some v
or_text none none = none
or_text none (some t) = some (str t)

or_count : Option ℤ → Option ℕ → Option ℤ
or_count (some z) n = some z
or_count none none = none
or_count none (some n) = some (pos n)

-- The exception of a denial takes what its answer leaves open from the result.
unfoldable pub fill_denial : ReservationCreateResponse → CyclesProtocolError → CyclesProtocolError
unfolding or_text or_count
fill_denial result e = record e {
  reason_code = or_text e.reason_code result.reason_code;
  retry_after_ms = or_count e.retry_after_ms result.retry_after_ms;
}

module _ (s : Schemas) (int_of_text int_of_float : String → Result Raised ℤ) where
  unfoldable pub stream_denial : Created → EnterError
  unfolding build_protocol_exception fill_denial
  stream_denial c = denied (
      build_protocol_exception s int_of_text int_of_float "Reservation denied" c.response >>= λ e.
      ok (fill_denial c.result e))

  module _ {J : Type 0} where
    -- From the answer of the create on
    unfoldable pub stream_opened :
        StreamRequest → Created → Env J → Result EnterError Entered × Env J
    unfolding stream_denial context_of is_denied
    stream_opened r c env =
        if is_denied c.result.decision
        then (err (stream_denial c), env)
        else elim c.result.reservation_id [
          | none ↦ (err (missing_id c.response.status), env)
          | some id ↦ (
            ok (record {
              reservation_id = id;
              initial_remaining = c.result.remaining_ttl_ms;
              create_rtt = c.rtt;
              create_received = c.received;
              decision = c.result.decision;
              caps = c.result.caps;
            }),
            record env { context = some (context_of id r.estimate c.result); beating = true },
          )
        ]

    unfoldable pub stream_created :
        StreamRequest → Result CreateError Created → Env J → Result EnterError Entered × Env J
    unfolding stream_opened
    stream_created r (err e) env = (err (create_failed e), env)
    stream_created r (ok c) env = stream_opened r c env

  -- `create_request` is `ReservationCreateRequest.model_validate`, with the dump of the request.
  module _ (create_request : Fields → Option Fields) {J : Type 0} (server : Server) where
    unfoldable pub stream_create :
        StreamRequest → Option Fields → Env J → Result EnterError Entered × Env J
    unfolding create_reservation_with_recovery stream_created
    stream_create r none env = (err (invalid value_error), env)
    stream_create r (some body) env =
        let (created, w) = create_reservation_with_recovery s server body env.world in
        stream_created r created (record env { world = w })

    -- `__enter__`
    unfoldable pub stream_enter : StreamRequest → String → Env J → Result EnterError Entered × Env J
    unfolding build_streaming_reservation_body stream_create
    stream_enter r fresh env = elim (build_streaming_reservation_body r fresh) [
      | err e ↦ (err (invalid e), env)
      | ok body ↦ stream_create r (create_request body) env
    ]
