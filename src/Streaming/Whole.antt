-- ===== src/Streaming/Whole.antt =====
-- runcycles/streaming.py: a whole `with` statement on a `StreamReservation`, from the entry to the
-- exit, around any body.
use mathlib.Core.Path.{subst}
use cycles_client_python.Prelude.{
  ◌≡◌, refl, ◌⊎◌, inl, inr, ℕ, ℤ, String, Bool, true, false, Option, none, ◌∷◌, Result, ok, err,
  ◌||◌, Bool-cases, Result-cases, sym,
}
use cycles_client_python.Json.{Json, Fields}
use cycles_client_python.Models.{Subject, CyclesMetrics}
use cycles_client_python.Exchange.{Exchange, Server, release_reservation}
use cycles_client_python.Journal.Interface.{Journal}
use cycles_client_python.Response.{Schemas, Raised}
use cycles_client_python.Retry.Engine.{EngineConfig, World, send}
use cycles_client_python.Lifecycle.Reserve.{dump_subject}
use cycles_client_python.Lifecycle.Context.{Env}
use cycles_client_python.Streaming.Usage.{StreamUsage}
use cycles_client_python.Streaming.Enter.{StreamRequest, EnterError, Entered, stream_enter}
use cycles_client_python.Streaming.Opens.{IsOpened, IsQuiet, stream_enter_lem}
use cycles_client_python.Streaming.Exit.{
  StreamReservation, Failure, Fresh, stream_metrics, stream_exit, stream_handle_release, send_valid,
}
use cycles_client_python.Streaming.Settles.{IsStreamSettled, stream_exit_settles}

-- The arguments of a `StreamReservation`; the action is its dump.
pub record StreamSettings : Type 0 where
  pub subject : Subject
  pub action : Fields
  pub unit : String
  pub estimate : ℕ
  pub ttl_ms : ℕ
  pub grace_period_ms : Option ℤ
  pub overage_policy : String
  pub cost_fn : Option (StreamUsage → Option Json)
  pub metadata : Option Fields
  pub idempotency_key : Option String
  pub raise_on_commit_failure : Bool

-- What the body leaves: whether it raised, the usage that it wrote, the metrics of its context, and the
-- time it took.
pub record BodyEnd : Type 0 where
  pub failed : Bool
  pub usage : StreamUsage
  pub metrics : Option CyclesMetrics
  pub elapsed : ℕ

-- The body of the `with`: user code that sees what the entry set, and the environment.
abbrev pub StreamBody : Type 0 → Type 0
StreamBody J = Entered → Env J → BodyEnd × Env J

-- The entry raised; or the exit left its errors, and the statement raises or not.
pub data StreamEnd : Type 0 where
  not_entered : EnterError → StreamEnd
  left : Option Failure → Option Failure → Bool → StreamEnd

unfoldable pub request_of : StreamSettings → StreamRequest
request_of c = record {
  subject = c.subject;
  action = c.action;
  unit = c.unit;
  estimate = c.estimate;
  ttl_ms = c.ttl_ms;
  grace_period_ms = c.grace_period_ms;
  overage_policy = c.overage_policy;
  idempotency_key = c.idempotency_key;
}

-- The reservation as the exit reads it
unfoldable pub reservation_of : StreamSettings → String → BodyEnd → StreamReservation
unfolding dump_subject
reservation_of c id b = record {
  reservation_id = id;
  subject = dump_subject c.subject;
  action = c.action;
  unit = c.unit;
  estimate = c.estimate;
  cost_fn = c.cost_fn;
  metadata = c.metadata;
  idempotency_key = c.idempotency_key;
  usage = b.usage;
  ctx_metrics = b.metrics;
  raise_on_commit_failure = c.raise_on_commit_failure;
  elapsed = b.elapsed;
}

module _ (sha256 : String → String) (s : Schemas)
    (int_of_text int_of_float : String → Result Raised ℤ) (create_request : Fields → Option Fields)
    {J : Type 0} (ops : Journal J) (cfg : EngineConfig) (server : Server) where
  -- From the entry on: the body, `__exit__`, and its `finally`.
  unfoldable pub after_enter :
      StreamSettings → StreamBody J → Fresh → Result EnterError Entered → Env J → StreamEnd × Env J
  unfolding reservation_of stream_exit
  after_enter c body fresh (err e) env = (not_entered e, env)
  after_enter c body fresh (ok x) env =
      let (b, env₁) = body x env in
      let done =
        stream_exit sha256 s int_of_text int_of_float ops cfg server b.failed
          (reservation_of c x.reservation_id b) fresh env₁.world in
      (
        left done.settlement_error done.release_error (b.failed || done.raises),
        record { world = done.world; context = none; beating = false },
      )

  unfoldable pub with_stream :
      StreamSettings → StreamBody J → String → Fresh → Env J → StreamEnd × Env J
  unfolding stream_enter request_of after_enter
  with_stream c body key fresh env =
      let (out, env₁) =
        stream_enter s int_of_text int_of_float create_request server (request_of c) key env in
      after_enter c body fresh out env₁

  -- At most one request more, a release of this reservation; the journal and the retries are kept.
  abbrev pub IsReleased : String → World J → World J → Type 0
  IsReleased id w w' =
      (w'.journal ≡ w.journal)
      × (w'.spawned ≡ w.spawned)
      × ((w'.exchanges ≡ w.exchanges)
          ⊎ ((body : Fields) × (x : Exchange) × (x.request ≡ release_reservation id body)
              × (w'.exchanges ≡ x ∷ w.exchanges)))

  release-IsReleased :
      (valid : Bool) (id : String) (body : Fields) (wall : ℕ) (w : World J)
      → IsReleased id w
          (send_valid sha256 s int_of_text int_of_float ops cfg server valid wall
            (release_reservation id body)
            w).1
  unfolding send_valid send
  release-IsReleased true id body wall w = (refl, refl, inr (body, _, refl, refl))
  release-IsReleased false id body wall w = (refl, refl, inl refl)

  exit-IsReleased :
      (r : StreamReservation) (fresh : Fresh) (w : World J)
      → IsReleased r.reservation_id w
          (stream_exit sha256 s int_of_text int_of_float ops cfg server true r fresh w).world
  unfolding stream_exit stream_handle_release
  exit-IsReleased r fresh w = release-IsReleased _ r.reservation_id _ fresh.wall w

  -- What a statement comes to whose entry returned: the context and the heartbeat have ended. A body
  -- that raised is followed by a release at most, and the statement raises. A body that did not, with
  -- accepted metrics, is settled.
  abbrev pub IsLeft :
      StreamSettings → Fresh → Entered → BodyEnd × Env J → StreamEnd × Env J → Type 0
  IsLeft c fresh x (b, env) (end, env') =
      let r = reservation_of c x.reservation_id b in
      let done =
        stream_exit sha256 s int_of_text int_of_float ops cfg server b.failed r fresh env.world in
      (env'.context ≡ none)
      × (env'.beating ≡ false)
      × (env'.world ≡ done.world)
      × (end ≡ left done.settlement_error done.release_error (b.failed || done.raises))
      × ((b.failed ≡ true) × IsReleased x.reservation_id env.world env'.world
          ⊎ (b.failed ≡ false)
            × (((m : CyclesMetrics) × (stream_metrics sha256 r ≡ ok m)
                  × IsStreamSettled sha256 s int_of_text int_of_float ops cfg server r fresh m
                      env.world done)
                ⊎ ((e : Raised) × (stream_metrics sha256 r ≡ err e))))

  left_lem :
      (c : StreamSettings) (body : StreamBody J) (fresh : Fresh) (x : Entered) (env : Env J)
      → cfg.enabled ≡ true
      → cfg.journal_enabled ≡ true
      → IsLeft c fresh x (body x env) (after_enter c body fresh (ok x) env)
  unfolding after_enter reservation_of
  left_lem c body fresh x env on kept =
      let (b, env₁) = body x env in
      let r = reservation_of c x.reservation_id b in
      (
        refl,
        refl,
        refl,
        refl,
        elim (Bool-cases b.failed) [
          | inl failed ↦ inl (
            failed,
            subst
                (λ f.
                  IsReleased x.reservation_id env₁.world
                    (stream_exit sha256 s int_of_text int_of_float ops cfg server f r fresh
                      env₁.world).world)
                (sym failed) (exit-IsReleased r fresh env₁.world),
          )
          | inr finished ↦ inr (
            finished,
            elim (Result-cases (stream_metrics sha256 r)) [
              | inl (m, is) ↦ inl (
                m,
                is,
                subst
                    (λ f.
                      IsStreamSettled sha256 s int_of_text int_of_float ops cfg server r fresh m
                        env₁.world
                        (stream_exit sha256 s int_of_text int_of_float ops cfg server f r fresh
                          env₁.world))
                    (sym finished)
                    (stream_exit_settles sha256 s int_of_text int_of_float ops cfg server r fresh m
                      env₁.world on kept is),
              )
              | inr (e, is) ↦ inr (e, is)
            ],
          )
        ],
      )

  -- Either the entry raised and the statement raises with it, or it returned.
  abbrev pub IsStream :
      StreamSettings
      → StreamBody J
      → Fresh
      → Env J
      → Result EnterError Entered × Env J
      → StreamEnd × Env J
      → Type 0
  IsStream c body fresh env (err e, env₁) (end, env') = (end ≡ not_entered e) × (env' ≡ env₁)
  IsStream c body fresh env (ok x, env₁) got = IsLeft c fresh x (body x env₁) got

  after_enter-IsStream :
      (c : StreamSettings) (body : StreamBody J) (fresh : Fresh) (env env₁ : Env J)
      (out : Result EnterError Entered)
      → cfg.enabled ≡ true
      → cfg.journal_enabled ≡ true
      → IsStream c body fresh env (out, env₁) (after_enter c body fresh out env₁)
  unfolding after_enter
  after_enter-IsStream c body fresh env env₁ (err e) on kept = (refl, refl)
  after_enter-IsStream c body fresh env env₁ (ok x) on kept = left_lem c body fresh x env₁ on kept

  -- A whole `with` statement, for every server and every body, with the retries and the journal enabled.
  -- If the entry raises, the body does not run, and the context variable, the heartbeat, the journal
  -- and the retries are as before. If it returns, the body runs with the context variable on the
  -- reservation that it opened and with its heartbeat; afterwards the context and the heartbeat have
  -- ended. A body that raised is followed by at most one request, a release of that reservation, and a
  -- body that did not, with accepted metrics, is settled by at most one commit of it, which stays in
  -- the journal exactly if no answer settled it. The statement raises exactly if its body or its exit
  -- raised.
  pub with_stream_settles :
      (c : StreamSettings) (body : StreamBody J) (key : String) (fresh : Fresh) (env : Env J)
      → cfg.enabled ≡ true
      → cfg.journal_enabled ≡ true
      → let entry =
          stream_enter s int_of_text int_of_float create_request server (request_of c) key env in
        IsOpened (request_of c) env entry.0 entry.1
        × IsQuiet s int_of_text int_of_float create_request server env entry.1
        × IsStream c body fresh env entry (with_stream c body key fresh env)
  unfolding with_stream
  with_stream_settles c body key fresh env on kept =
      let (out, env₁) =
        stream_enter s int_of_text int_of_float create_request server (request_of c) key env in
      let (opened, quiet) =
        stream_enter_lem s int_of_text int_of_float create_request server (request_of c) key env in
      (opened, quiet, after_enter-IsStream c body fresh env env₁ out on kept)
