-- ===== src/Retry/Delivery.antt =====
-- A background retry outlives an outage.
use cycles_client_python.Prelude.{
  ◌≡◌, refl, ◌∙◌, ap, ◌⊎◌, inl, inr, ℕ, zero, suc, ◌+◌, ◌*◌, ◌≤◌, ◌<◌, String, true, Option, none,
  some, List, ◌∷◌, length, eq_refl, arith,
}
use cycles_client_python.Json.{Fields}
use cycles_client_python.Exchange.{Server, Exchange, commit_reservation}
use cycles_client_python.Journal.Record.{commit}
use cycles_client_python.Journal.Interface.{Journal}
use cycles_client_python.Response.{Schemas}
use cycles_client_python.Retry.Engine.{EngineConfig, PendingCommit, World, noted, journal_discard}
use cycles_client_python.Retry.Loop.{next_attempt, resume, retry_loop, End, finished}
use cycles_client_python.Retry.Rounds.{
  IsOutage, IsAccepted, next_lem, after_reply, reply_accepted, reply_outage, once, round,
  discard-exchanges, discard-journal, resume-on,
}

module _ (s : Schemas) {J : Type 0} (ops : Journal J) (cfg : EngineConfig) (server : Server) where
  -- A run of the loop that delivered the commit: it ended because an attempt was terminal, the last
  -- exchange is the accepted commit, and the journal is left as by discarding the reservation.
  abbrev pub IsDelivered :
      String → Option Fields → World J → ℕ → Option (End × PendingCommit × World J) → Type 0
  IsDelivered id body w m run =
      (p' : PendingCommit) × (w' : World J) × (older : List Exchange) × (run
        ≡ some (finished, p', w'))
      × (w'.exchanges
          ≡ record {
            request = commit_reservation id body;
            reply = server (commit_reservation id body) older;
          }
            ∷ older)
      × IsAccepted s (server (commit_reservation id body) older)
      × (length older ≤ length w.exchanges + m)
      × (w'.journal ≡ (journal_discard ops cfg id w).journal)

  module _ (id : String) (body : Option Fields) (k : ℕ)
      (outage : (xs : List Exchange)
        → IsOutage (server (commit_reservation id body) xs)
          ⊎ IsAccepted s (server (commit_reservation id body) xs))
      (back : (xs : List Exchange)
        → k ≤ length xs
        → IsAccepted s (server (commit_reservation id body) xs))
      (set : cfg.client_set ≡ true) where
    -- The head of a round s ops cfg server sends the commit.
    step :
        (fuel : ℕ) (p : PendingCommit) (w : World J)
        → p.reservation_id ≡ id
        → p.commit_body ≡ body
        → p.mode ≡ commit
        → p.attempt < cfg.max_attempts
        → let (p₁, w₁) = next_attempt s ops cfg server p w in
          let req = commit_reservation id body in
          let reply = server req w₁.exchanges in
          retry_loop s ops cfg server (suc fuel) p w
          ≡ resume
              (retry_loop s ops cfg server fuel)
              (after_reply s ops cfg server p₁ reply (noted req reply w₁))
    step fuel p w own same mode more =
        let (p₁, w₁) = next_attempt s ops cfg server p w in
        let ((own₁, same₁, mode₁, count), old) = next_lem s ops cfg server p w in
        let req : commit_reservation p₁.reservation_id p₁.commit_body ≡ commit_reservation id body =
          rw (own₁ ∙ own, same₁ ∙ same) refl in
        round s ops cfg server fuel p w set (ground (arith, more))
        ∙ ap (resume (retry_loop s ops cfg server fuel)) (
            once s ops cfg server p₁ w₁ (mode₁ ∙ mode)
            ∙ ap
                (λ r.
                  after_reply s ops cfg server p₁ (server r w₁.exchanges)
                    (noted r (server r w₁.exchanges) w₁))
                req)

    ends :
        (fuel m : ℕ) (p : PendingCommit) (w : World J)
        → p.reservation_id ≡ id
        → p.commit_body ≡ body
        → p.mode ≡ commit
        → p.attempt < cfg.max_attempts
        → IsAccepted s
            (server (commit_reservation id body) (next_attempt s ops cfg server p w).1.exchanges)
        → IsDelivered id body w m (retry_loop s ops cfg server (suc fuel) p w)
    unfolding next_attempt
    ends fuel m p w own same mode more accepted =
        let (p₁, w₁) = next_attempt s ops cfg server p w in
        let ((own₁, same₁, mode₁, count), old) = next_lem s ops cfg server p w in
        let req = commit_reservation id body in
        let reply = server req w₁.exchanges in
        let sent = noted req reply w₁ in
        (
          p₁,
          journal_discard ops cfg p₁.reservation_id sent,
          w₁.exchanges,
          step fuel p w own same mode more
              ∙ ap (resume (retry_loop s ops cfg server fuel))
                  (reply_accepted s ops cfg server p₁ reply sent (mode₁ ∙ mode) accepted),
          discard-exchanges s ops cfg server p₁.reservation_id sent,
          accepted,
          omega (arith, ap length old),
          rw (own₁ ∙ own) (discard-journal s ops cfg server id sent w refl),
        )

    goes_on :
        (fuel m : ℕ) (p : PendingCommit) (w : World J)
        → p.reservation_id ≡ id
        → p.commit_body ≡ body
        → p.mode ≡ commit
        → p.attempt < cfg.max_attempts
        → let (p₁, w₁) = next_attempt s ops cfg server p w in
          let req = commit_reservation id body in
          let reply = server req w₁.exchanges in
          IsOutage reply
          → IsDelivered id body
              (noted req reply w₁)
              m
              (retry_loop s ops cfg server fuel p₁ (noted req reply w₁))
          → IsDelivered id body w (suc m) (retry_loop s ops cfg server (suc fuel) p w)
    unfolding next_attempt
    goes_on fuel m p w own same mode more out (p', w', older, run, last, accepted, early, gone) =
        let (p₁, w₁) = next_attempt s ops cfg server p w in
        let ((own₁, same₁, mode₁, count), old) = next_lem s ops cfg server p w in
        let req = commit_reservation id body in
        let reply = server req w₁.exchanges in
        let sent = noted req reply w₁ in
        let (v, is, on) = reply_outage s ops cfg server p₁ reply sent (mode₁ ∙ mode) out in
        (
          p',
          w',
          older,
          step fuel p w own same mode more
              ∙ ap (resume (retry_loop s ops cfg server fuel)) is
              ∙ resume-on s ops cfg server (retry_loop s ops cfg server fuel) v p₁ sent on
              ∙ run,
          last,
          accepted,
          omega (arith, early),
          gone ∙ discard-journal s ops cfg server id sent w refl,
        )

    delivered :
        (fuel m : ℕ) (p : PendingCommit) (w : World J)
        → m < fuel
        → p.reservation_id ≡ id
        → p.commit_body ≡ body
        → p.mode ≡ commit
        → p.attempt + m < cfg.max_attempts
        → k ≤ length w.exchanges + m
        → IsDelivered id body w m (retry_loop s ops cfg server fuel p w)
    delivered zero m p w room own same mode enough late = elim room [ ]
    delivered (suc fuel) zero p w room own same mode enough late =
        let (_, old) = next_lem s ops cfg server p w in
        ends fuel zero p w own same mode (omega arith) (back _ (omega (arith, ap length old)))
    delivered (suc fuel) (suc m) p w room own same mode enough late =
        let (p₁, w₁) = next_attempt s ops cfg server p w in
        let ((own₁, same₁, mode₁, count), old) = next_lem s ops cfg server p w in
        let req = commit_reservation id body in
        let more : p.attempt < cfg.max_attempts = omega arith in
        elim (outage w₁.exchanges) [
          | inr accepted ↦ ends fuel (suc m) p w own same mode more accepted
          | inl out ↦ goes_on fuel m p w own same mode more out (
              delivered fuel m p₁ (noted req (server req w₁.exchanges) w₁) (omega arith)
                (own₁ ∙ own) (same₁ ∙ same) (mode₁ ∙ mode) (omega (arith, count))
                (omega (arith, ap length old)))
        ]

  -- A background retry outlives an outage: let the server answer this commit with the protocol's exact
  -- success once s ops cfg server at least n more requests have been sent, and until then with that or not at all,
  -- because the client raises or reports a failure of the transport. If the attempts that are left
  -- are more than n, then, with the client and the journal set, the retry loop ends because the
  -- commit was accepted: the last request is this commit with its body, at most n further requests
  -- went before it, and the reservation is gone from the journal.
  pub delivered_after_outage :
      (p : PendingCommit) (w : World J) (n : ℕ)
      → p.mode ≡ commit
      → p.attempt + n < cfg.max_attempts
      → cfg.client_set ≡ true
      → cfg.journal_enabled ≡ true
      → let req = commit_reservation p.reservation_id p.commit_body in
        ((xs : List Exchange) → IsOutage (server req xs) ⊎ IsAccepted s (server req xs))
        → ((xs : List Exchange) → length w.exchanges + n ≤ length xs → IsAccepted s (server req xs))
        → (p' : PendingCommit) × (w' : World J) × (older : List Exchange) × (retry_loop s ops cfg
              server
              (2 * cfg.max_attempts + 1)
              p
              w
            ≡ some (finished, p', w'))
          × (w'.exchanges ≡ record { request = req; reply = server req older } ∷ older)
          × IsAccepted s (server req older)
          × (length older ≤ length w.exchanges + n)
          × (ops.find w'.journal p.reservation_id ≡ none)
  unfolding journal_discard
  delivered_after_outage p w n mode enough set kept outage back =
      let id = p.reservation_id in
      let (p', w', older, run, last, accepted, early, gone) =
        delivered id p.commit_body (length w.exchanges + n) outage back set
          (2 * cfg.max_attempts + 1) n p w (omega arith) refl refl mode enough (omega arith) in
      let absent : ops.find (ops.discard id w.journal) id ≡ none =
        ops.find-discard id w.journal id ∙ rw (eq_refl id) refl in
      (
        p',
        w',
        older,
        run,
        last,
        accepted,
        early,
        ap (λ j. ops.find j id) gone ∙ ground (arith, kept, absent),
      )
