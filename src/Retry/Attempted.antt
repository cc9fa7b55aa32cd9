-- ===== src/Retry/Attempted.antt =====
-- What one attempt of the retry loop keeps of the spend, and the requests that it sends.
use cycles_client_python.Prelude.{
  ◌≡◌, refl, ℕ, suc, ◌+◌, ◌≤◌, ◌⊎◌, inl, inr, List, [], ◌∷◌, arith, Option-cases, length, All,
}
use cycles_client_python.Exchange.{Exchange, Server, Reply, commit_reservation, create_event}
use cycles_client_python.Journal.Record.{Mode, commit, event}
use cycles_client_python.Journal.Interface.{Journal}
use cycles_client_python.Response.{CyclesResponse, Schemas, retry_after_ms_header}
use cycles_client_python.Retry.Engine.{EngineConfig, PendingCommit, World, send, noted}
use cycles_client_python.Retry.Classify.{
  stash, rate_limited, commit_client_error, commit_failure, classify_commit_response, event_failure,
  classify_event_response,
}
use cycles_client_python.Retry.Loop.{
  Verdict, terminal, retry, threw, concluded, received_event, received_commit, attempt_event,
  after_commit, attempt_commit, attempt_in, attempt_once, next_attempt,
}
use cycles_client_python.Retry.Durable.{exchanges-commit, exchanges-event}

-- What retrying never changes.
pub record SameSpend (p q : PendingCommit) : Type 0 where
  pub id : q.reservation_id ≡ p.reservation_id
  pub commit_body : q.commit_body ≡ p.commit_body
  pub event_body : q.event_fallback_body ≡ p.event_fallback_body

pub SameSpend-refl : (p : PendingCommit) → SameSpend p p
SameSpend-refl p = record { id = refl; commit_body = refl; event_body = refl }

abbrev pub Stays : PendingCommit → PendingCommit → Type 0
Stays p q = (q.mode ≡ p.mode) × (q.attempt ≡ p.attempt)

abbrev pub Flips : PendingCommit → PendingCommit → Type 0
Flips p q = (q.mode ≡ event) × (q.attempt ≡ 0)

-- The requests that a loop over `p` may send.
abbrev pub IsOwn : PendingCommit → Exchange → Type 0
IsOwn p x =
    (x.request ≡ commit_reservation p.reservation_id p.commit_body)
    ⊎ (x.request ≡ create_event p.event_fallback_body)

-- An attempt sends one request, or two where the first turns out to come after the expiry.
abbrev pub Attempted : {J : Type 0} → PendingCommit → World J → PendingCommit → World J → Type 0
Attempted p w q w' =
    (Stays p q × (length w'.exchanges ≡ suc (length w.exchanges)))
    ⊎ ((p.mode ≡ commit) × Flips p q × (length w'.exchanges ≤ length w.exchanges + 2))

pub IsOwn-of_SameSpend :
    (p q : PendingCommit)
    → SameSpend p q
    → (xs : List Exchange) → All (IsOwn p) xs
    → All (IsOwn q) xs
IsOwn-of_SameSpend p q same [] own = tt
IsOwn-of_SameSpend p q same (x ∷ xs) own = (ground arith, IsOwn-of_SameSpend p q same xs own.1)

module _ (s : Schemas) {J : Type 0} (ops : Journal J) (cfg : EngineConfig) where
  stash-pending :
      (p : PendingCommit) (r : CyclesResponse) (wall : ℕ) (w : World J)
      → SameSpend p (stash s ops cfg p r wall w).0 × Stays p (stash s ops cfg p r wall w).0
  unfolding stash
  stash-pending p r wall w = elim (Option-cases (retry_after_ms_header r)) [
    | inl e ↦
        rw (e, stash) (record { id = refl; commit_body = refl; event_body = refl }, (refl, refl))
    | inr (ms, e) ↦
        rw (e, stash) (record { id = refl; commit_body = refl; event_body = refl }, (refl, refl))
  ]

  commit-pending :
      (p : PendingCommit) (r : CyclesResponse) (wall : ℕ) (w : World J)
      → let q = (concluded p w (classify_commit_response s ops cfg p r wall w)).1 in
        SameSpend p q × (Stays p q ⊎ Flips p q)
  unfolding classify_commit_response rate_limited commit_failure commit_client_error
  commit-pending p r wall w = ground (arith, stash-pending p r wall w)

  event-pending :
      (p : PendingCommit) (r : CyclesResponse) (wall : ℕ) (w : World J)
      → let q = (concluded p w (classify_event_response s ops cfg p r wall w)).1 in
        SameSpend p q × Stays p q
  unfolding classify_event_response rate_limited event_failure
  event-pending p r wall w = ground (arith, stash-pending p r wall w)

  module _ (server : Server) where
    received_event-pending :
        (p : PendingCommit) (reply : Reply) (w : World J)
        → let (v, q, w') = received_event s ops cfg server p (reply, w) in
          SameSpend p q × Stays p q × (w'.exchanges ≡ w.exchanges)
    received_event-pending p reply w = elim (Option-cases reply.outcome) [
      | inl e ↦ ground arith
      | inr (r, e) ↦
          ground (arith, event-pending p r reply.wall w, exchanges-event s ops cfg p r reply.wall w)
    ]

    received_commit-pending :
        (p : PendingCommit) (reply : Reply) (w : World J)
        → let (v, q, w') = received_commit s ops cfg server p (reply, w) in
          SameSpend p q × (Stays p q ⊎ Flips p q) × (w'.exchanges ≡ w.exchanges)
    received_commit-pending p reply w = elim (Option-cases reply.outcome) [
      | inl e ↦ ground arith
      | inr (r, e) ↦
          ground
            (arith, commit-pending p r reply.wall w, exchanges-commit s ops cfg p r reply.wall w)
    ]

    attempt_event-pending :
        (p : PendingCommit) (w : World J)
        → let (v, q, w') = attempt_event s ops cfg server p w in
          SameSpend p q
          × Stays p q
          × (length w'.exchanges ≡ suc (length w.exchanges))
          × (All (IsOwn p) w.exchanges → All (IsOwn p) w'.exchanges)
    unfolding attempt_event send
    attempt_event-pending p w =
        let req = create_event p.event_fallback_body in
        let reply = server req w.exchanges in
        let (same, stays, grew) = received_event-pending p reply (noted req reply w) in
        (same, stays, rw grew, λ own. rw grew (inr refl, own))

    after_commit-pending :
        (p : PendingCommit) (m : Mode) (out : Verdict × PendingCommit × World J) (n : ℕ)
        → p.mode ≡ commit
        → m ≡ out.1.mode
        → SameSpend p out.1
        → Stays p out.1 ⊎ Flips p out.1
        → length out.2.exchanges ≡ suc n
        → All (IsOwn p) out.2.exchanges
        → let (v, q, w') = after_commit s ops cfg server m out in
          SameSpend p q
          × ((Stays p q × (length w'.exchanges ≡ suc n))
              ⊎ (Flips p q × (length w'.exchanges ≤ n + 2)))
          × All (IsOwn p) w'.exchanges
    unfolding after_commit
    after_commit-pending p event (retry, q, w) n c m same moved grew own =
        let (same', stays, more, keep) = attempt_event-pending q w in
        let back : SameSpend q p = ground arith in
        let own' = IsOwn-of_SameSpend q p back _ (keep (IsOwn-of_SameSpend p q same _ own)) in
        (ground arith, ground arith, own')
    after_commit-pending p event (terminal, q, w) n c m same moved grew own = ground arith
    after_commit-pending p event (threw, q, w) n c m same moved grew own = ground arith
    after_commit-pending p commit (v, q, w) n c m same moved grew own = ground arith

    attempt_in-pending :
        (m : Mode) (p : PendingCommit) (w : World J)
        → p.mode ≡ m
        → All (IsOwn p) w.exchanges
        → let (v, q, w') = attempt_in s ops cfg server m p w in
          SameSpend p q × Attempted p w q w' × All (IsOwn p) w'.exchanges
    unfolding attempt_in attempt_commit send
    attempt_in-pending event p w m own =
        let (same, stays, grew, keep) = attempt_event-pending p w in
        (same, inl (stays, grew), keep own)
    attempt_in-pending commit p w m own =
        let req = commit_reservation p.reservation_id p.commit_body in
        let reply = server req w.exchanges in
        let out = received_commit s ops cfg server p (reply, noted req reply w) in
        let (same, moved, grew) = received_commit-pending p reply (noted req reply w) in
        let (same', end, own') =
          after_commit-pending p out.1.mode out (length w.exchanges) m refl same moved (rw grew)
            (rw grew (inl refl, own)) in
        (same', ground arith, own')

    pub attempt_once-pending :
        (p : PendingCommit) (w : World J)
        → All (IsOwn p) w.exchanges
        → let (v, q, w') = attempt_once s ops cfg server p w in
          SameSpend p q × Attempted p w q w' × All (IsOwn p) w'.exchanges
    unfolding attempt_once
    attempt_once-pending p w own = attempt_in-pending p.mode p w refl own

    pub next_attempt-pending :
        (p : PendingCommit) (w : World J)
        → let (q, w') = next_attempt s ops cfg server p w in
          SameSpend p q
          × (q.mode ≡ p.mode)
          × (q.attempt ≡ p.attempt + 1)
          × (w'.exchanges ≡ w.exchanges)
    unfolding next_attempt
    next_attempt-pending p w = ground arith
