-- ===== src/Lifecycle/Spend.antt =====
-- After the guarded action the spend is known, and committing never loses it.
use cycles_client_python.Prelude.{
  ◌≡◌, refl, ℕ, ◌⊎◌, inl, inr, String, Bool, true, false, ◌&&◌, ◌||◌, not, Option, none, some, List,
  ◌∷◌, eq_refl, is_some, arith, min, ◌*◌, ap, ◌∙◌, sym,
}
use cycles_client_python.Json.{Fields}
use cycles_client_python.Exchange.{Exchange, Server, Reply, commit_reservation}
use cycles_client_python.Journal.Record.{commit, event}
use cycles_client_python.Journal.Interface.{Journal}
use cycles_client_python.Response.{
  CyclesResponse, Schemas, has_status, is_success, is_client_error, is_server_error,
}
use cycles_client_python.Retry.Outcome.{
  is_recognized_rejection, is_schema_valid_commit_success, parsed_code, is_code,
}
use cycles_client_python.Retry.Engine.{
  EngineConfig, PendingCommit, World, entry_of, journal_record, journal_discard, persist_pending,
  schedule, schedule_event, send, noted, new_pending, submit, spawn, max_honored_delay,
}
use cycles_client_python.Lifecycle.Commit.{
  Plan, discard, retry, recover, wait, carry_out, plan_of_reply, handle_commit,
}

-- A code that ends a commit: finalized, mismatched, or any other known refusal but an expiry.
abbrev pub is_final : CyclesResponse → Option String → Bool
is_final r code =
    not (is_code code "LIMIT_EXCEEDED")
    && not (is_code code "RESERVATION_EXPIRED")
    && (is_code code "RESERVATION_FINALIZED"
        || (is_code code "IDEMPOTENCY_MISMATCH"
            || (is_client_error r && is_recognized_rejection code)))

-- Nothing is owed any more: the protocol's exact success, or a refusal with a final code that came
-- with no 2xx, no 5xx, no 401, 403, 410 or 429 and does not say that the reservation expired.
unfoldable pub settled : Schemas → Reply → Bool
settled s reply = elim reply.outcome [
  | none ↦ false
  | some r ↦
      is_schema_valid_commit_success s r
      || (is_final r (parsed_code s r)
          && not (is_success r)
          && not (r.is_transport_error || is_server_error r)
          && not (has_status r 429)
          && not (has_status r 401 || has_status r 403)
          && not (has_status r 410))
]

module _ (s : Schemas) {J : Type 0} (ops : Journal J) (cfg : EngineConfig) (server : Server) where
  -- The reply that the commit meets.
  abbrev pub commit_reply : String → Fields → World J → Reply
  commit_reply id commit_body w = server (commit_reservation id (some commit_body)) w.exchanges

  unfoldable pub discards : Plan → Bool
  discards discard = true
  discards _ = false

  pub plan-settled :
      (reply : Reply) → discards (plan_of_reply s ops cfg server reply) ≡ settled s reply
  unfolding discards plan_of_reply settled
  plan-settled reply = ground arith

  pub exchanges-persist :
      (id : String) (c e : Fields) (wall : ℕ) (w : World J)
      → (persist_pending ops cfg id c e wall w).exchanges ≡ w.exchanges
  unfolding persist_pending
  exchanges-persist id c e wall w = ground arith

  pub reply-persist :
      (id : String) (c e : Fields) (wall : ℕ) (w : World J)
      → commit_reply id c (persist_pending ops cfg id c e wall w) ≡ commit_reply id c w
  reply-persist id c e wall w =
      ap (λ xs. server (commit_reservation id (some c)) xs) (exchanges-persist id c e wall w)

  spawned-persist :
      (id : String) (c e : Fields) (wall : ℕ) (w : World J)
      → (persist_pending ops cfg id c e wall w).spawned ≡ w.spawned
  unfolding persist_pending
  spawned-persist id c e wall w = ground arith

  pub kept-journal_record :
      (p : PendingCommit) (wall : ℕ) (w : World J)
      → cfg.journal_enabled ≡ true
      → is_some (ops.find (journal_record ops cfg p wall w).journal p.reservation_id) ≡ true
  unfolding journal_record entry_of
  kept-journal_record p wall w on = ground (
    arith,
    ops.find-write (entry_of cfg p wall) w.journal p.reservation_id,
    eq_refl p.reservation_id,
  )

  kept-submit :
      (p : PendingCommit) (wall : ℕ) (w : World J)
      → cfg.journal_enabled ≡ true
      → is_some (ops.find (submit ops cfg p wall w).journal p.reservation_id) ≡ true
  unfolding submit spawn
  kept-submit p wall w on = ground (arith, kept-journal_record p wall w on)

  -- The pending commit of a rate-limited answer
  abbrev pub limited : String → Fields → Fields → ℕ → PendingCommit
  limited id c e ms = record (new_pending id (some c) (some e) commit) {
    retry_after = some (min (ms * 1000) max_honored_delay);
  }

  pub kept-carry_out :
      (plan : Plan) (id : String) (c e : Fields) (wall : ℕ) (w : World J)
      → cfg.journal_enabled ≡ true
      → is_some (ops.find (carry_out s ops cfg server plan id c e wall w).journal id)
        ≡ not (discards plan)
  unfolding carry_out discards journal_discard schedule schedule_event new_pending
  kept-carry_out discard id c e wall w on =
      ground (arith, ops.find-discard id w.journal id, eq_refl id)
  kept-carry_out retry id c e wall w on =
      kept-submit (new_pending id (some c) (some e) commit) wall w on
  kept-carry_out recover id c e wall w on =
      kept-submit (new_pending id none (some e) event) wall w on
  kept-carry_out (wait none) id c e wall w on =
      kept-submit (new_pending id (some c) (some e) commit) wall w on
  kept-carry_out (wait (some ms)) id c e wall w on = kept-submit (limited id c e ms) wall w on

  -- With the journal enabled, after `handle_commit` the reservation is in the journal exactly if the
  -- answer to the commit did not settle it: an exception, a 2xx that is not the protocol's success,
  -- a server or transport error, rate limiting, an authentication failure, an expiry and an unknown
  -- client error all keep the record, and a settled commit leaves none.
  pub handle_commit-durable :
      (id : String) (c e : Fields) (wall : ℕ) (w : World J)
      → cfg.journal_enabled ≡ true
      → is_some (ops.find (handle_commit s ops cfg server id c e wall w).journal id)
        ≡ not (settled s (commit_reply id c w))
  unfolding handle_commit send
  handle_commit-durable id c e wall w on =
      let w₀ = persist_pending ops cfg id c e wall w in
      let reply = commit_reply id c w₀ in
      let sent = noted (commit_reservation id (some c)) reply w₀ in
      kept-carry_out (plan_of_reply s ops cfg server reply) id c e reply.wall sent on
      ∙ ap not (plan-settled reply)
      ∙ ap (λ r. not (settled s r)) (reply-persist id c e wall w)

  -- One background retry of this spend: a retry of the same commit, or of its event.
  abbrev pub IsRetryOf : String → Fields → Fields → PendingCommit → Type 0
  IsRetryOf id c e p =
      (p.reservation_id ≡ id)
      × (p.event_fallback_body ≡ some e)
      × (p.attempt ≡ 0)
      × ((p.mode ≡ event) ⊎ ((p.mode ≡ commit) × (p.commit_body ≡ some c)))

  abbrev pub Carried : Plan → String → Fields → Fields → World J → World J → Type 0
  Carried plan id c e w w' =
      (w'.exchanges ≡ w.exchanges)
      × ((discards plan ≡ true) × (w'.spawned ≡ w.spawned)
          ⊎ (discards plan ≡ false)
            × ((p : PendingCommit) × IsRetryOf id c e p × (w'.spawned ≡ p ∷ w.spawned)))

  pub carried :
      (plan : Plan) (id : String) (c e : Fields) (wall : ℕ) (w : World J)
      → cfg.enabled ≡ true
      → Carried plan id c e w (carry_out s ops cfg server plan id c e wall w)
  unfolding carry_out discards journal_discard journal_record schedule schedule_event new_pending
      submit spawn
  carried discard id c e wall w on = ground arith
  carried retry id c e wall w on = (
    ground arith,
    inr (refl, (new_pending id (some c) (some e) commit, ground arith, ground arith)),
  )
  carried recover id c e wall w on =
      (ground arith, inr (refl, (new_pending id none (some e) event, ground arith, ground arith)))
  carried (wait none) id c e wall w on = (
    ground arith,
    inr (refl, (new_pending id (some c) (some e) commit, ground arith, ground arith)),
  )
  carried (wait (some ms)) id c e wall w on =
      (ground arith, inr (refl, (limited id c e ms, ground arith, ground arith)))

  -- The history with the commit and its reply.
  abbrev pub committed : String → Fields → List Exchange → List Exchange
  committed id c xs =
      record {
        request = commit_reservation id (some c);
        reply = server (commit_reservation id (some c)) xs;
      }
      ∷ xs

  -- `handle_commit` sends exactly one request, the commit with the given body; it never releases.
  -- With retry enabled, if the answer settled the commit nothing is scheduled, and if it did not,
  -- exactly one background retry is: of this reservation, from attempt zero, with the event as its
  -- fallback, and in commit mode with the same commit body or at once in event mode.
  pub handle_commit_retries :
      (id : String) (c e : Fields) (wall : ℕ) (w : World J)
      → cfg.enabled ≡ true
      → let w' = handle_commit s ops cfg server id c e wall w in
        (w'.exchanges ≡ committed id c w.exchanges)
        × ((settled s (commit_reply id c w) ≡ true) × (w'.spawned ≡ w.spawned)
            ⊎ (settled s (commit_reply id c w) ≡ false)
              × ((p : PendingCommit) × IsRetryOf id c e p × (w'.spawned ≡ p ∷ w.spawned)))
  unfolding handle_commit send
  handle_commit_retries id c e wall w on =
      let w₀ = persist_pending ops cfg id c e wall w in
      let reply = commit_reply id c w₀ in
      let plan = plan_of_reply s ops cfg server reply in
      let sent = noted (commit_reservation id (some c)) reply w₀ in
      let verdict = plan-settled reply ∙ ap (settled s) (reply-persist id c e wall w) in
      let (grew, next) = carried plan id c e reply.wall sent on in
      (
        grew ∙ ap (committed id c) (exchanges-persist id c e wall w),
        elim next [
          | inl (done, same) ↦ inl (sym verdict ∙ done, same ∙ spawned-persist id c e wall w)
          | inr (unsettled, (p, is, more)) ↦ inr (
            sym verdict ∙ unsettled,
            (p, is, more ∙ ap (λ ps. p ∷ ps) (spawned-persist id c e wall w)),
          )
        ],
      )
