-- ===== src/Retry/Delays.antt =====
-- How long a retry loop waits: never longer than the greater of the longest backoff and one hour.
use cycles_client_python.Retry.Guarantees.{retry_loop-bounded}
use cycles_client_python.Prelude.{
  ◌≡◌, ◌≤◌, ℕ, zero, suc, ◌+◌, ◌*◌, min, max, Bool, true, ◌&&◌, none, some, List, [], ◌∷◌, leb, inl,
  inr, Option-cases, arith,
}
use cycles_client_python.Exchange.{Server, Reply, create_event, commit_reservation}
use cycles_client_python.Journal.Record.{Mode, commit, event}
use cycles_client_python.Journal.Interface.{Journal}
use cycles_client_python.Response.{CyclesResponse, Schemas, retry_after_ms_header}
use cycles_client_python.Retry.Engine.{
  EngineConfig, PendingCommit, World, backoff, delay_for, journal_record, journal_discard,
  max_honored_delay, noted, send,
}
use cycles_client_python.Retry.Classify.{
  flip, stash, rate_limited, commit_client_error, commit_failure, classify_commit_response,
  event_failure, classify_event_response,
}
use cycles_client_python.Retry.Loop.{
  Verdict, terminal, retry, threw, End, concluded, received_commit, attempt_event, attempt_commit,
  attempt_in, after_commit, attempt_once, next_attempt, retry_loop,
}

-- A delay that the server asked for is at most an hour.
unfoldable pub is_capped : PendingCommit → Bool
is_capped p = elim p.retry_after [ none ↦ true | some d ↦ leb d max_honored_delay ]

abbrev pub all_le : ℕ → List ℕ → Bool
all_le b [] = true
all_le b (d ∷ ds) = leb d b && all_le b ds

abbrev pub longest : EngineConfig → ℕ
longest cfg = max cfg.max_delay max_honored_delay

-- The delay of an attempt is at most the longest backoff or the delay that the server asked for,
-- whichever is greater, and at least the latter; what the server asked for is then used up, and the
-- pending commit is otherwise unchanged.
pub delay_for_lem :
    (cfg : EngineConfig) (p : PendingCommit) (asked : ℕ)
    → p.retry_after ≡ some asked
    → let (delay, p') = delay_for cfg p in
      (asked ≤ delay) × (delay ≤ max cfg.max_delay asked) × (p' ≡ record p { retry_after = none })
unfolding delay_for backoff
delay_for_lem cfg p asked h = ground arith

module _ (s : Schemas) {J : Type 0} (ops : Journal J) (cfg : EngineConfig) where
  -- The pending commit is capped, and every sleep so far was short enough.
  unfoldable pub is_calm : PendingCommit → World J → Bool
  unfolding is_capped
  is_calm p w = is_capped p && all_le (longest cfg) w.sleeps

  sleeps-journal_record :
      (p : PendingCommit) (wall : ℕ) (w : World J)
      → (journal_record ops cfg p wall w).sleeps ≡ w.sleeps
  unfolding journal_record
  sleeps-journal_record p wall w = ground arith

  is_calm-stash :
      (p : PendingCommit) (r : CyclesResponse) (wall : ℕ) (w : World J)
      → is_calm p w ≡ true
      → let out = stash s ops cfg p r wall w in is_calm out.0 out.1 ≡ true
  unfolding is_calm is_capped stash
  is_calm-stash p r wall w h = elim (Option-cases (retry_after_ms_header r)) [
    | inl e ↦ rw (e, stash) h
    | inr (ms, e) ↦
        let p' = record p { retry_after = some (min (ms * 1000) max_honored_delay) } in
        ground (arith, sleeps-journal_record p' wall w)
  ]

  is_calm-commit :
      (p : PendingCommit) (r : CyclesResponse) (wall : ℕ) (w : World J)
      → is_calm p w ≡ true
      → let out = concluded p w (classify_commit_response s ops cfg p r wall w) in
        is_calm out.1 out.2 ≡ true
  unfolding is_calm is_capped classify_commit_response rate_limited commit_failure
      commit_client_error journal_discard
  is_calm-commit p r wall w h =
      ground (arith, sleeps-journal_record (flip p) wall w, is_calm-stash p r wall w h)

  is_calm-event :
      (p : PendingCommit) (r : CyclesResponse) (wall : ℕ) (w : World J)
      → is_calm p w ≡ true
      → let out = concluded p w (classify_event_response s ops cfg p r wall w) in
        is_calm out.1 out.2 ≡ true
  unfolding is_calm is_capped classify_event_response rate_limited event_failure journal_discard
  is_calm-event p r wall w h = ground (arith, is_calm-stash p r wall w h)

  module _ (server : Server) where
    attempt_event-calm :
        (p : PendingCommit) (w : World J)
        → is_calm p w ≡ true
        → let out = attempt_event s ops cfg server p w in is_calm out.1 out.2 ≡ true
    unfolding attempt_event send is_calm
    attempt_event-calm p w h =
        let req = create_event p.event_fallback_body in
        let reply = server req w.exchanges in
        elim (Option-cases reply.outcome) [
          | inl e ↦ rw e h
          | inr (r, e) ↦ rw e (is_calm-event p r reply.wall (noted req reply w) h)
        ]

    after_commit-calm :
        (m : Mode) (out : Verdict × PendingCommit × World J)
        → is_calm out.1 out.2 ≡ true
        → let out' = after_commit s ops cfg server m out in is_calm out'.1 out'.2 ≡ true
    unfolding after_commit
    after_commit-calm event (retry, p, w) h = attempt_event-calm p w h
    after_commit-calm event (terminal, p, w) h = h
    after_commit-calm event (threw, p, w) h = h
    after_commit-calm commit (v, p, w) h = h

    received_commit-calm :
        (p : PendingCommit) (reply : Reply) (w : World J)
        → is_calm p w ≡ true
        → let out = received_commit s ops cfg server p (reply, w) in is_calm out.1 out.2 ≡ true
    received_commit-calm p reply w h = elim (Option-cases reply.outcome) [
      | inl e ↦ rw e h
      | inr (r, e) ↦ rw e (is_calm-commit p r reply.wall w h)
    ]

    attempt_in-calm :
        (m : Mode) (p : PendingCommit) (w : World J)
        → is_calm p w ≡ true
        → let out = attempt_in s ops cfg server m p w in is_calm out.1 out.2 ≡ true
    unfolding attempt_in attempt_commit send is_calm
    attempt_in-calm event p w h = attempt_event-calm p w h
    attempt_in-calm commit p w h =
        let req = commit_reservation p.reservation_id p.commit_body in
        let reply = server req w.exchanges in
        let out = received_commit s ops cfg server p (reply, noted req reply w) in
        after_commit-calm out.1.mode out (received_commit-calm p reply (noted req reply w) h)

    next_attempt-calm :
        (p : PendingCommit) (w : World J)
        → is_calm p w ≡ true
        → let out = next_attempt s ops cfg server p w in is_calm out.0 out.1 ≡ true
    unfolding next_attempt delay_for backoff is_calm is_capped
    next_attempt-calm p w h = ground arith

    pub retry_loop-is_calm :
        (fuel : ℕ) (p : PendingCommit) (w : World J)
        → is_calm p w ≡ true
        → (e : End) (p' : PendingCommit) (w' : World J)
        → retry_loop s ops cfg server fuel p w ≡ some (e, p', w')
        → is_calm p' w' ≡ true
    unfolding retry_loop attempt_once
    retry_loop-is_calm zero p w h e p' w' run = cc
    retry_loop-is_calm (suc fuel) p w h e p' w' run =
        let (p₁, w₁) = next_attempt s ops cfg server p w in
        let h₁ = next_attempt-calm p w h in
        let (v, p₂, w₂) = attempt_once s ops cfg server p₁ w₁ in
        let h₂ = attempt_in-calm p₁.mode p₁ w₁ h₁ in
        ground (arith, h₁, h₂, retry_loop-is_calm fuel p₂ w₂ h₂ e p' w')

    -- For every pending commit whose server-stated delay is at most an hour, if it has one, and every
    -- server, and from an empty history: the loop ends within 2 * max_attempts + 1 rounds of fuel, and
    -- none of its sleeps is longer than the greater of the configured longest delay and one hour.
    pub retry_loop_sleeps :
        (p : PendingCommit) (w : World J)
        → w.exchanges ≡ []
        → w.sleeps ≡ []
        → is_capped p ≡ true
        → (e : End) × (q : PendingCommit) × (w' : World J) × (retry_loop s ops cfg server
              (2 * cfg.max_attempts + 1)
              p
              w
            ≡ some (e, q, w'))
          × (all_le (longest cfg) w'.sleeps ≡ true)
    unfolding is_calm
    retry_loop_sleeps p w start rested capped =
        let (e, q, w', run, sent, own, same) = retry_loop-bounded s ops cfg server p w start in
        let calm : is_calm p w ≡ true = ground arith in
        let after = retry_loop-is_calm (2 * cfg.max_attempts + 1) p w calm e q w' run in
        (e, q, w', run, ground (arith, after))
