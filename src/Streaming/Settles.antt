-- ===== src/Streaming/Settles.antt =====
-- What leaving a stream settles.
use mathlib.Core.Path.{subst}
use cycles_client_python.Prelude.{
  sym, inl, inr, ◌≡◌, refl, ℕ, ◌≤◌, ◌⊎◌, String, Bool, true, false, not, ◌&&◌, ok, if◌then◌else◌, ℤ,
  Result, ◌||◌, Option-cases, Bool-cases, Option, none, some, List, is_some, arith, pos, ◌∙◌, ap,
}
use cycles_client_python.Json.{Json, int, Fields}
use cycles_client_python.Exchange.{Exchange, Reply, Server, commit_reservation}
use cycles_client_python.Journal.Interface.{Journal}
use cycles_client_python.Response.{Schemas, Raised}
use cycles_client_python.Response.RetryAfter.{int64_max}
use cycles_client_python.Retry.Engine.{EngineConfig, World, send, persist_pending}
use cycles_client_python.Retry.Outcome.{is_schema_valid_commit_success}
use cycles_client_python.Validation.{validate_non_negative}
use cycles_client_python.Lifecycle.Spend.{
  exchanges-persist, kept-carry_out, plan-settled, carried, reply-persist, settled, commit_reply,
  committed,
}
use cycles_client_python.Lifecycle.Commit.{plan_of_reply}
use cycles_client_python.Models.{CyclesMetrics}
use cycles_client_python.Streaming.Usage.{StreamUsage, resolve_actual_cost, valid_or_estimate}
use cycles_client_python.Streaming.Exit.{
  after_metrics, stream_settle, send_valid, stream_metrics, Exited, StreamReservation, Fresh,
  commit_prefix, builds, answered, kept_error, raises_error, stream_commit_body, stream_event_body,
  failure_of, stream_handle_commit, stream_exit,
}

-- The cost of a stream fits a signed 64-bit number when its estimate does. It is the estimate, marked
-- as assumed, or exactly the valid number that the user set, or, if none was set, that `cost_fn` gave.
pub resolve_actual_cost_lem :
    (usage : StreamUsage) (f : StreamUsage → Option Json) (estimate : ℕ)
    → estimate ≤ int64_max
    → let (amount, assumed) = resolve_actual_cost usage (some f) estimate in
      (amount ≤ int64_max)
      × ((assumed ≡ true) × (amount ≡ estimate)
          ⊎ ((usage.actual_cost ≡ some (int (pos amount)))
              ⊎ ((usage.actual_cost ≡ none) × (f usage ≡ some (int (pos amount))))))
unfolding resolve_actual_cost valid_or_estimate validate_non_negative
resolve_actual_cost_lem usage f estimate le = ground arith

module _ (sha256 : String → String) (s : Schemas)
    (int_of_text int_of_float : String → Result Raised ℤ) {J : Type 0} (ops : Journal J)
    (cfg : EngineConfig) (server : Server) where
  -- A reply that is the protocol's exact success
  abbrev pub is_accepted : Reply → Bool
  is_accepted reply = elim reply.outcome [
    | none ↦ false
    | some r ↦ is_schema_valid_commit_success s r
  ]

  -- An answer of which `_build_protocol_exception` raises
  abbrev pub is_unbuilt : Reply → Bool
  is_unbuilt reply = elim reply.outcome [
    | none ↦ false
    | some r ↦
        not (builds sha256 s int_of_text int_of_float ops cfg server commit_prefix (answered r))
  ]

  errors_lem :
      (reply : Reply) (asked : Bool)
      → let failure = failure_of sha256 s int_of_text int_of_float ops cfg server reply in
        (is_some (kept_error sha256 s int_of_text int_of_float ops cfg server failure)
          ≡ (not (is_accepted reply) && not (is_unbuilt reply)))
        × (raises_error sha256 s int_of_text int_of_float ops cfg server asked failure
            ≡ (not (is_accepted reply) && (is_unbuilt reply || asked)))
  unfolding failure_of kept_error raises_error
  errors_lem reply asked = elim (Option-cases reply.outcome) [
    | inl e ↦ rw e (refl, refl)
    | inr (r, e) ↦ elim (Bool-cases (is_schema_valid_commit_success s r)) [
      | inl good ↦ rw (e, good, kept_error, raises_error) (refl, refl)
      | inr bad ↦
          elim (Bool-cases
            (builds sha256 s int_of_text int_of_float ops cfg server commit_prefix (answered r))) [
              | inl built ↦ rw (e, bad, built, kept_error, raises_error) (refl, refl)
              | inr raised ↦ rw (e, bad, raised, kept_error, raises_error) (refl, refl)
            ]
    ]
  ]

  -- What the stream's commit meets, and the history after it.
  abbrev pub stream_reply : StreamReservation → Fresh → Fields → World J → Reply
  stream_reply r fresh c w =
      if s.commit_request c
      then commit_reply s ops cfg server r.reservation_id c w
      else record { outcome = none; sent = fresh.wall; received = fresh.wall; wall = fresh.wall }

  abbrev pub stream_committed : StreamReservation → Fields → List Exchange → List Exchange
  stream_committed r c xs =
      if s.commit_request c then committed s ops cfg server r.reservation_id c xs else xs

  sent-persist :
      (r : StreamReservation) (fresh : Fresh) (c e : Fields) (w : World J)
      → let id = r.reservation_id in
        let w₀ = persist_pending ops cfg id c e fresh.wall w in
        let (reply, w₁) =
          send_valid sha256 s int_of_text int_of_float ops cfg server
            (s.commit_request c)
            fresh.wall
            (commit_reservation id (some c))
            w₀ in
        (reply ≡ stream_reply r fresh c w) × (w₁.exchanges ≡ stream_committed r c w.exchanges)
  unfolding send_valid send
  sent-persist r fresh c e w =
      let id = r.reservation_id in
      let grew = exchanges-persist s ops cfg server id c e fresh.wall w in
      elim (Bool-cases (s.commit_request c)) [
        | inl valid ↦ rw valid (
          reply-persist s ops cfg server id c e fresh.wall w,
          ap (committed s ops cfg server id c) grew,
        )
        | inr bad ↦ rw bad (refl, grew)
      ]

  abbrev pub IsStreamSettled :
      StreamReservation → Fresh → CyclesMetrics → World J → Exited J → Type 0
  IsStreamSettled r fresh m w done =
      let id = r.reservation_id in
      let c = stream_commit_body sha256 r m fresh.commit_key in
      let reply = stream_reply r fresh c w in
      (done.world.exchanges ≡ stream_committed r c w.exchanges)
      × (is_some (ops.find done.world.journal id) ≡ not (settled s reply))
      × (is_some done.settlement_error ≡ (not (is_accepted reply) && not (is_unbuilt reply)))
      × (done.raises ≡ (not (is_accepted reply) && (is_unbuilt reply || r.raise_on_commit_failure)))

  stream_settle_settles :
      (r : StreamReservation) (fresh : Fresh) (m : CyclesMetrics) (w : World J)
      → cfg.enabled ≡ true
      → cfg.journal_enabled ≡ true
      → IsStreamSettled r fresh m w
          (stream_settle sha256 s int_of_text int_of_float ops cfg server r fresh m w)
  unfolding stream_settle
  stream_settle_settles r fresh m w on kept =
      let id = r.reservation_id in
      let c = stream_commit_body sha256 r m fresh.commit_key in
      let e = stream_event_body sha256 r c in
      let w₀ = persist_pending ops cfg id c e fresh.wall w in
      let (reply, w₁) =
        send_valid sha256 s int_of_text int_of_float ops cfg server (s.commit_request c) fresh.wall
          (commit_reservation id (some c)) w₀ in
      let (same, grew) = sent-persist r fresh c e w in
      let plan = plan_of_reply s ops cfg server reply in
      let (still, next) = carried s ops cfg server plan id c e reply.wall w₁ on in
      let durable = kept-carry_out s ops cfg server plan id c e reply.wall w₁ kept in
      let (error, raised) = errors_lem reply r.raise_on_commit_failure in
      (
        still ∙ grew,
        durable ∙ ap not (plan-settled s ops cfg server reply) ∙ ap (λ x. not (settled s x)) same,
        error ∙ ap (λ x. not (is_accepted x) && not (is_unbuilt x)) same,
        raised ∙ ap (λ x. not (is_accepted x) && (is_unbuilt x || r.raise_on_commit_failure)) same,
      )

  exit-settle :
      (r : StreamReservation) (fresh : Fresh) (m : CyclesMetrics) (w : World J)
      → stream_metrics sha256 r ≡ ok m
      → stream_exit sha256 s int_of_text int_of_float ops cfg server false r fresh w
        ≡ stream_settle sha256 s int_of_text int_of_float ops cfg server r fresh m w
  unfolding stream_exit stream_handle_commit after_metrics
  exit-settle r fresh m w is =
      ap (after_metrics sha256 s int_of_text int_of_float ops cfg server r fresh w) is

  -- With retries and the journal enabled, leaving a stream whose body did not raise and whose metrics
  -- are accepted: exactly one commit is sent if its body is a valid request, and no release; the
  -- reservation is in the journal exactly if no answer settled the commit; the
  -- exit keeps an error exactly if there is no answer that is the protocol's success and the exception
  -- can be built of what there is; and it raises exactly if there is no such answer and either the
  -- exception cannot be built, or the caller asked for it.
  pub stream_exit_settles :
      (r : StreamReservation) (fresh : Fresh) (m : CyclesMetrics) (w : World J)
      → cfg.enabled ≡ true
      → cfg.journal_enabled ≡ true
      → stream_metrics sha256 r ≡ ok m
      → IsStreamSettled r fresh m w
          (stream_exit sha256 s int_of_text int_of_float ops cfg server false r fresh w)
  stream_exit_settles r fresh m w on kept is =
      subst (λ x. IsStreamSettled r fresh m w x) (sym (exit-settle r fresh m w is))
        (stream_settle_settles r fresh m w on kept)
