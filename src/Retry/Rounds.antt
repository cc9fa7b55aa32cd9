-- ===== src/Retry/Rounds.antt =====
-- One round of the retry loop for a commit, when it is accepted and during an outage.
use cycles_client_python.Prelude.{
  ◌≡◌, refl, ap, ◌⊎◌, inl, inr, ℕ, suc, ◌+◌, String, true, Option, none, some, ltb, arith,
}
use cycles_client_python.Exchange.{Server, Reply, commit_reservation}
use cycles_client_python.Journal.Record.{commit}
use cycles_client_python.Journal.Interface.{Journal}
use cycles_client_python.Response.{
  CyclesResponse, Schemas, transport_error, get_error_response, get_body_attribute, is_client_error,
}
use cycles_client_python.Retry.Outcome.{
  is_schema_valid_commit_success, extract_error_code, parsed_code,
}
use cycles_client_python.Retry.Engine.{
  EngineConfig, PendingCommit, World, send, noted, journal_discard, delay_for,
}
use cycles_client_python.Retry.Classify.{classify_commit_response, rate_limited, commit_failure}
use cycles_client_python.Retry.Loop.{
  Verdict, terminal, retry, threw, received_commit, after_commit, attempt_commit, attempt_in,
  attempt_once, next_attempt, resume, retry_loop, End,
}

-- The client raised, or reported that the transport failed.
abbrev pub IsOutage : Reply → Type 0
IsOutage reply =
    (reply.outcome ≡ none) ⊎ ((ex : String) × (reply.outcome ≡ some (transport_error ex)))

-- The protocol's exact success
abbrev pub IsAccepted : Schemas → Reply → Type 0
IsAccepted s reply =
    (r : CyclesResponse) × (reply.outcome ≡ some r) × (is_schema_valid_commit_success s r ≡ true)

-- The same commit, one attempt later
abbrev pub IsNext : PendingCommit → PendingCommit → Type 0
IsNext p p' =
    (p'.reservation_id ≡ p.reservation_id)
    × (p'.commit_body ≡ p.commit_body)
    × (p'.mode ≡ p.mode)
    × (p'.attempt ≡ p.attempt + 1)

module _ (s : Schemas) {J : Type 0} (ops : Journal J) (cfg : EngineConfig) (server : Server) where
  pub next_lem :
      (p : PendingCommit) (w : World J)
      → let (p', w') = next_attempt s ops cfg server p w in
        IsNext p p' × (w'.exchanges ≡ w.exchanges)
  unfolding next_attempt delay_for
  next_lem p w = ((ground arith, ground arith, ground arith, ground arith), refl)

  abbrev pub after_reply : PendingCommit → Reply → World J → Verdict × PendingCommit × World J
  after_reply p reply w =
      let out = received_commit s ops cfg server p (reply, w) in
      after_commit s ops cfg server out.1.mode out

  pub reply_accepted :
      (p : PendingCommit) (reply : Reply) (w : World J)
      → p.mode ≡ commit
      → IsAccepted s reply
      → after_reply p reply w ≡ (terminal, p, journal_discard ops cfg p.reservation_id w)
  unfolding after_commit classify_commit_response
  reply_accepted p reply w mode (r, some_r, valid) = rw (some_r, valid, mode) refl

  -- An outage leaves the pending commit and the world as they were.
  pub reply_outage :
      (p : PendingCommit) (reply : Reply) (w : World J)
      → p.mode ≡ commit
      → IsOutage reply
      → (v : Verdict) × (after_reply p reply w ≡ (v, p, w)) × ((v ≡ retry) ⊎ (v ≡ threw))
  unfolding after_commit classify_commit_response transport_error is_schema_valid_commit_success
      rate_limited commit_failure extract_error_code parsed_code get_error_response
      get_body_attribute is_client_error
  reply_outage p reply w mode (inl raised) = (threw, rw (raised, mode) refl, inr refl)
  reply_outage p reply w mode (inr (ex, failed)) = (retry, rw (failed, mode) refl, inl refl)

  pub once :
      (p : PendingCommit) (w : World J)
      → p.mode ≡ commit
      → let req = commit_reservation p.reservation_id p.commit_body in
        let reply = server req w.exchanges in
        attempt_once s ops cfg server p w ≡ after_reply p reply (noted req reply w)
  unfolding attempt_once attempt_in attempt_commit send
  once p w mode = ap (λ m. attempt_in s ops cfg server m p w) mode

  -- One round of the loop
  pub round :
      (fuel : ℕ) (p : PendingCommit) (w : World J)
      → cfg.client_set ≡ true
      → ltb p.attempt cfg.max_attempts ≡ true
      → let (p₁, w₁) = next_attempt s ops cfg server p w in
        retry_loop s ops cfg server (suc fuel) p w
        ≡ resume (retry_loop s ops cfg server fuel) (attempt_once s ops cfg server p₁ w₁)
  unfolding retry_loop
  round fuel p w set more = ground (arith, more, set)

  pub discard-exchanges :
      (id : String) (w : World J) → (journal_discard ops cfg id w).exchanges ≡ w.exchanges
  unfolding journal_discard
  discard-exchanges id w = ground arith

  pub discard-journal :
      (id : String) (w w' : World J)
      → w.journal ≡ w'.journal
      → (journal_discard ops cfg id w).journal ≡ (journal_discard ops cfg id w').journal
  unfolding journal_discard
  discard-journal id w w' same = ground (arith, same)

  pub resume-on :
      (rest : PendingCommit → World J → Option (End × PendingCommit × World J)) (v : Verdict)
      (p : PendingCommit) (w : World J)
      → (v ≡ retry) ⊎ (v ≡ threw)
      → resume rest (v, p, w) ≡ rest p w
  resume-on rest v p w (inl e) = rw e refl
  resume-on rest v p w (inr e) = rw e refl
