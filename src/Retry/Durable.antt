-- ===== src/Retry/Durable.antt =====
-- A pending commit leaves the journal only when a response has proved that nothing is owed.
use cycles_client_python.Prelude.{
  ◌≡◌, ℕ, zero, suc, String, Bool, true, false, ◌&&◌, ◌||◌, not, Option, none, some, ok, err,
  is_some, arith, Option-cases, inl, inr,
}
use cycles_client_python.Json.{Fields}
use cycles_client_python.Exchange.{
  Exchange, Server, Reply, commit_reservation, create_event, any_exchange,
}
use cycles_client_python.Journal.Record.{Mode, commit, event}
use cycles_client_python.Journal.Interface.{Journal}
use cycles_client_python.Response.{
  CyclesResponse, Schemas, has_status, is_client_error, retry_after_ms_header,
}
use cycles_client_python.Retry.Outcome.{
  is_recognized_rejection, is_schema_valid_commit_success, is_schema_valid_event_success,
  extract_error_code, is_code,
}
use cycles_client_python.Retry.Engine.{
  EngineConfig, PendingCommit, World, entry_of, journal_record, journal_discard, send, noted,
}
use cycles_client_python.Retry.Classify.{
  flip, stash, rate_limited, commit_client_error, commit_failure, classify_commit_response,
  event_failure, classify_event_response,
}
use cycles_client_python.Retry.Loop.{
  Verdict, terminal, retry, threw, concluded, received_event, received_commit, attempt_event,
  attempt_commit, attempt_once, next_attempt, retry_loop, End, after_commit, attempt_in,
}

-- A client error whose code the client knows to be a final refusal.
abbrev pub refuses : Schemas → CyclesResponse → Bool
refuses s r = elim (extract_error_code s r) [
  | ok code ↦ is_client_error r && is_recognized_rejection code
  | err e ↦ false
]

-- The answer to a commit after the reservation's end.
abbrev pub is_expiry : Schemas → CyclesResponse → Bool
is_expiry s r = has_status r 410 || elim (extract_error_code s r) [
  | ok code ↦ is_code code "RESERVATION_EXPIRED"
  | err e ↦ false
]

-- The responses after which a durable spend record may be destroyed: the protocol's exact success,
-- or a known final refusal that is no authentication failure, no rate limiting and no expiry.
unfoldable pub settles : Schemas → Exchange → Bool
settles s x = elim x.reply.outcome [
  | none ↦ false
  | some r ↦ elim x.request [
    | commit_reservation id body ↦
        is_schema_valid_commit_success s r
        || (refuses s r
            && not (has_status r 401 || has_status r 403)
            && not (is_expiry s r)
            && not (has_status r 429))
    | create_event body ↦
        is_schema_valid_event_success s r
        || (refuses s r && not (has_status r 401 || has_status r 403) && not (has_status r 429))
    | _ ↦ false
  ]
]

module _ (s : Schemas) {J : Type 0} (ops : Journal J) (cfg : EngineConfig) where
  unfoldable pub journaled : String → World J → Bool
  journaled id w = is_some (ops.find w.journal id)

  -- The reservation is in the journal, or some response has settled it.
  unfoldable pub is_accounted : String → World J → Bool
  unfolding journaled
  is_accounted id w = journaled id w || any_exchange (settles s) w.exchanges

  pub journaled-journal_record :
      (p : PendingCommit) (wall : ℕ) (w : World J) (id : String)
      → journaled id w ≡ true
      → journaled id (journal_record ops cfg p wall w) ≡ true
  unfolding journaled journal_record entry_of
  journaled-journal_record p wall w id h =
      ground (arith, ops.find-write (entry_of cfg p wall) w.journal id)

  pub journaled-stash :
      (p : PendingCommit) (r : CyclesResponse) (wall : ℕ) (w : World J) (id : String)
      → journaled id w ≡ true
      → journaled id (stash s ops cfg p r wall w).1 ≡ true
  unfolding stash
  journaled-stash p r wall w id h = elim (Option-cases (retry_after_ms_header r)) [
    | inl e ↦ rw (e, stash) h
    | inr (ms, e) ↦ rw (e, stash) (journaled-journal_record _ wall w id h)
  ]

  -- `journal_discard` needs a settling response; all else that classifying does keeps the record.
  journaled-commit :
      (p : PendingCommit) (r : CyclesResponse) (wall : ℕ) (w : World J) (id : String)
      → journaled id w ≡ true
      → (is_schema_valid_commit_success s r
          || (refuses s r
              && not (has_status r 401 || has_status r 403)
              && not (is_expiry s r)
              && not (has_status r 429)))
        ≡ false
      → journaled id (concluded p w (classify_commit_response s ops cfg p r wall w)).2 ≡ true
  unfolding classify_commit_response rate_limited commit_failure commit_client_error
  journaled-commit p r wall w id h unsettled =
      ground (arith, journaled-journal_record (flip p) wall w id, journaled-stash p r wall w id)

  journaled-event :
      (p : PendingCommit) (r : CyclesResponse) (wall : ℕ) (w : World J) (id : String)
      → journaled id w ≡ true
      → (is_schema_valid_event_success s r
          || (refuses s r && not (has_status r 401 || has_status r 403) && not (has_status r 429)))
        ≡ false
      → journaled id (concluded p w (classify_event_response s ops cfg p r wall w)).2 ≡ true
  unfolding classify_event_response rate_limited event_failure
  journaled-event p r wall w id h unsettled = ground (arith, journaled-stash p r wall w id)

  exchanges-journal_record :
      (p : PendingCommit) (wall : ℕ) (w : World J)
      → (journal_record ops cfg p wall w).exchanges ≡ w.exchanges
  unfolding journal_record
  exchanges-journal_record p wall w = ground arith

  exchanges-stash :
      (p : PendingCommit) (r : CyclesResponse) (wall : ℕ) (w : World J)
      → (stash s ops cfg p r wall w).1.exchanges ≡ w.exchanges
  unfolding stash
  exchanges-stash p r wall w = elim (Option-cases (retry_after_ms_header r)) [
    | inl e ↦ rw (e, stash)
    | inr (ms, e) ↦ rw (e, stash) (exchanges-journal_record _ wall w)
  ]

  pub exchanges-commit :
      (p : PendingCommit) (r : CyclesResponse) (wall : ℕ) (w : World J)
      → (concluded p w (classify_commit_response s ops cfg p r wall w)).2.exchanges ≡ w.exchanges
  unfolding classify_commit_response rate_limited commit_failure commit_client_error journal_discard
  exchanges-commit p r wall w =
      ground (arith, exchanges-journal_record (flip p) wall w, exchanges-stash p r wall w)

  pub exchanges-event :
      (p : PendingCommit) (r : CyclesResponse) (wall : ℕ) (w : World J)
      → (concluded p w (classify_event_response s ops cfg p r wall w)).2.exchanges ≡ w.exchanges
  unfolding classify_event_response rate_limited event_failure journal_discard
  exchanges-event p r wall w = ground (arith, exchanges-stash p r wall w)

  module _ (server : Server) where
    received_commit-accounted :
        (id : String) (p : PendingCommit) (body : Option Fields) (reply : Reply) (w : World J)
        → is_accounted id w ≡ true
        → is_accounted id
            (received_commit s ops cfg server p
              (reply, noted (commit_reservation p.reservation_id body) reply w)).2
          ≡ true
    unfolding is_accounted journaled settles
    received_commit-accounted id p body reply w h =
        let w' = noted (commit_reservation p.reservation_id body) reply w in
        elim (Option-cases reply.outcome) [
          | inl e ↦ ground arith
          | inr (r, e) ↦
              ground
                (arith, exchanges-commit p r reply.wall w', journaled-commit p r reply.wall w' id)
        ]

    received_event-accounted :
        (id : String) (p : PendingCommit) (body : Option Fields) (reply : Reply) (w : World J)
        → is_accounted id w ≡ true
        → is_accounted id
            (received_event s ops cfg server p (reply, noted (create_event body) reply w)).2
          ≡ true
    unfolding is_accounted journaled settles
    received_event-accounted id p body reply w h =
        let w' = noted (create_event body) reply w in
        elim (Option-cases reply.outcome) [
          | inl e ↦ ground arith
          | inr (r, e) ↦
              ground
                (arith, exchanges-event p r reply.wall w', journaled-event p r reply.wall w' id)
        ]

    attempt_event-accounted :
        (id : String) (p : PendingCommit) (w : World J)
        → is_accounted id w ≡ true
        → is_accounted id (attempt_event s ops cfg server p w).2 ≡ true
    unfolding attempt_event send
    attempt_event-accounted id p w h = received_event-accounted id p p.event_fallback_body _ w h

    after_commit-accounted :
        (id : String) (m : Mode) (out : Verdict × PendingCommit × World J)
        → is_accounted id out.2 ≡ true
        → is_accounted id (after_commit s ops cfg server m out).2 ≡ true
    unfolding after_commit
    after_commit-accounted id event (retry, p, w) h = attempt_event-accounted id p w h
    after_commit-accounted id event (terminal, p, w) h = h
    after_commit-accounted id event (threw, p, w) h = h
    after_commit-accounted id commit (v, p, w) h = h

    attempt_in-accounted :
        (id : String) (m : Mode) (p : PendingCommit) (w : World J)
        → is_accounted id w ≡ true
        → is_accounted id (attempt_in s ops cfg server m p w).2 ≡ true
    unfolding attempt_in attempt_commit send
    attempt_in-accounted id event p w h = attempt_event-accounted id p w h
    attempt_in-accounted id commit p w h =
        let reply = server (commit_reservation p.reservation_id p.commit_body) w.exchanges in
        let sent = noted (commit_reservation p.reservation_id p.commit_body) reply w in
        let out = received_commit s ops cfg server p (reply, sent) in
        after_commit-accounted id out.1.mode out
          (received_commit-accounted id p p.commit_body reply w h)

    pub attempt_once-accounted :
        (id : String) (p : PendingCommit) (w : World J)
        → is_accounted id w ≡ true
        → is_accounted id (attempt_once s ops cfg server p w).2 ≡ true
    unfolding attempt_once
    attempt_once-accounted id p w h = attempt_in-accounted id p.mode p w h

    next_attempt-accounted :
        (id : String) (p : PendingCommit) (w : World J)
        → is_accounted id w ≡ true
        → is_accounted id (next_attempt s ops cfg server p w).1 ≡ true
    unfolding next_attempt is_accounted journaled
    next_attempt-accounted id p w h = h

    pub retry_loop-accounted :
        (id : String) (fuel : ℕ) (p : PendingCommit) (w : World J)
        → is_accounted id w ≡ true
        → (e : End) (p' : PendingCommit) (w' : World J)
        → retry_loop s ops cfg server fuel p w ≡ some (e, p', w')
        → is_accounted id w' ≡ true
    unfolding retry_loop
    retry_loop-accounted id zero p w h e p' w' run = cc
    retry_loop-accounted id (suc fuel) p w h e p' w' run =
        let (p₁, w₁) = next_attempt s ops cfg server p w in
        let h₁ = next_attempt-accounted id p w h in
        let (v, p₂, w₂) = attempt_once s ops cfg server p₁ w₁ in
        let h₂ = attempt_once-accounted id p₁ w₁ h₁ in
        ground (arith, h₁, h₂, retry_loop-accounted id fuel p₂ w₂ h₂ e p' w')
