-- ===== src/Streaming/Opens.antt =====
-- What an entry of a stream leaves on each of its paths.
use cycles_client_python.Prelude.{
  ◌≡◌, refl, ap, ◌∙◌, inl, inr, ℤ, String, true, false, Option, none, some, Result, ok, err,
  Option-cases, Bool-cases, Result-cases,
}
use cycles_client_python.Json.{Fields}
use cycles_client_python.Models.{is_denied}
use cycles_client_python.Exchange.{Server}
use cycles_client_python.Response.{Raised, Schemas}
use cycles_client_python.Lifecycle.Create.{Created, CreateError, create_reservation_with_recovery}
use cycles_client_python.Lifecycle.Context.{Env, CyclesContext, context_of}
use cycles_client_python.Lifecycle.Settles.{create_quiet}
use cycles_client_python.Streaming.Enter.{
  StreamRequest, EnterError, Entered, build_streaming_reservation_body, stream_opened,
  stream_created, stream_create, stream_enter,
}

-- Either the entry raised, and the context and the heartbeat are as before; or it set the context to
-- the reservation that it opened, which was not denied, and its heartbeat runs.
abbrev pub IsOpened :
    {J : Type 0} → StreamRequest → Env J → Result EnterError Entered → Env J → Type 0
IsOpened r env (err e) env' = (env'.context ≡ env.context) × (env'.beating ≡ env.beating)
IsOpened r env (ok x) env' =
    (env'.beating ≡ true)
    × (is_denied x.decision ≡ false)
    × ((c : CyclesContext) × (env'.context ≡ some c)
        × (c.reservation_id ≡ x.reservation_id)
        × (c.decision ≡ x.decision)
        × (c.estimate ≡ r.estimate))

module _ (s : Schemas) (int_of_text int_of_float : String → Result Raised ℤ) where
  opened :
      {J : Type 0} (r : StreamRequest) (c : Created) (env : Env J)
      → let (out, env') = stream_opened s int_of_text int_of_float r c env in
        IsOpened r env out env' × (env'.world ≡ env.world)
  unfolding stream_opened
  opened r c env = elim (Bool-cases (is_denied c.result.decision)) [
    | inl refused ↦ rw (refused, stream_opened) ((refl, refl), refl)
    | inr granted ↦ elim (Option-cases c.result.reservation_id) [
      | inl missing ↦ rw (granted, missing, stream_opened) ((refl, refl), refl)
      | inr (id, is) ↦
          unfold context_of in
          rw (granted, is, stream_opened) ((refl, granted, (_, refl, refl, refl, refl)), refl)
    ]
  ]

  created_lem :
      {J : Type 0} (r : StreamRequest) (m : Result CreateError Created) (env : Env J)
      → let (out, env') = stream_created s int_of_text int_of_float r m env in
        IsOpened r env out env' × (env'.world ≡ env.world)
  unfolding stream_created
  created_lem r (err e) env = ((refl, refl), refl)
  created_lem r (ok c) env = opened r c env

  module _ (create_request : Fields → Option Fields) {J : Type 0} (server : Server) where
    -- The journal and the retries are as before.
    abbrev pub IsQuiet : Env J → Env J → Type 0
    IsQuiet env env' =
        (env'.world.journal ≡ env.world.journal) × (env'.world.spawned ≡ env.world.spawned)

    create_lem :
        (r : StreamRequest) (body : Option Fields) (env : Env J)
        → let (out, env') =
            stream_create s int_of_text int_of_float create_request server r body env in
          IsOpened r env out env' × IsQuiet env env'
    unfolding stream_create create_reservation_with_recovery
    create_lem r none env = ((refl, refl), (refl, refl))
    create_lem r (some body) env =
        let (created, w) = create_reservation_with_recovery s server body env.world in
        let (is, same) = created_lem r created (record env { world = w }) in
        let (kept, idle) = create_quiet s server 2 body env.world in
        (is, (ap (λ x. x.journal) same ∙ kept, ap (λ x. x.spawned) same ∙ idle))

    -- Entering a stream, for every server: if it raises, the context variable and the heartbeat are as
    -- before; if it returns, the reservation was not denied, the context variable holds it with its
    -- decision and the estimate, and the heartbeat runs. On every path the journal and the background
    -- retries are as before.
    pub stream_enter_lem :
        (r : StreamRequest) (fresh : String) (env : Env J)
        → let (out, env') =
            stream_enter s int_of_text int_of_float create_request server r fresh env in
          IsOpened r env out env' × IsQuiet env env'
    unfolding stream_enter
    stream_enter_lem r fresh env = elim (Result-cases (build_streaming_reservation_body r fresh)) [
      | inl (body, is) ↦ rw (is, stream_enter) (create_lem r (create_request body) env)
      | inr (e, is) ↦ rw (is, stream_enter) ((refl, refl), (refl, refl))
    ]
