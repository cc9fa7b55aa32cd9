-- ===== src/Retry/Async/Attempts.antt =====
-- An attempt of a retry task follows the synchronous attempt, or is cancelled with its spend in the
-- journal.

use cycles_client_python.Prelude.{
  ◌≡◌, refl, ◌⊎◌, inl, inr, ℕ, String, Bool, true, Option, none, some, arith, Option-cases,
}
use cycles_client_python.Exchange.{Server, Reply, commit_reservation, create_event}
use cycles_client_python.Journal.Record.{Mode, commit, event}
use cycles_client_python.Journal.Interface.{Journal}
use cycles_client_python.Response.{CyclesResponse, Schemas}
use cycles_client_python.Retry.Engine.{EngineConfig, PendingCommit, World, send, noted}
use cycles_client_python.Retry.Classify.{
  flip, rate_limited, commit_client_error, commit_failure, classify_commit_response, event_failure,
  classify_event_response,
}
use cycles_client_python.Retry.Loop.{
  Verdict, terminal, retry, threw, concluded, received_event, received_commit, attempt_event,
  attempt_commit, after_commit, attempt_in,
}
use cycles_client_python.Retry.Durable.{journaled, journaled-journal_record, journaled-stash}
use cycles_client_python.Retry.Awaiting.{
  Await, resumes, cancelled_unsent, cancelled_sent, async_send,
}
use cycles_client_python.Retry.Async.{
  RoundAwaits, async_attempt_event, async_after_commit, async_attempt_commit, async_attempt_in,
}

module _ (s : Schemas) {J : Type 0} (ops : Journal J) (cfg : EngineConfig) where
  -- Only a terminal verdict takes the record away.
  abbrev pub IsKept : String → Verdict × PendingCommit × World J → Type 0
  IsKept id (v, p, w) = (v ≡ terminal) ⊎ (journaled s ops cfg id w ≡ true)

  classified_commit :
      (p : PendingCommit) (r : CyclesResponse) (wall : ℕ) (w : World J) (id : String)
      → journaled s ops cfg id w ≡ true
      → IsKept id (concluded p w (classify_commit_response s ops cfg p r wall w))
  unfolding classify_commit_response rate_limited commit_failure commit_client_error
  classified_commit p r wall w id h = ground (
    arith,
    journaled-journal_record s ops cfg (flip p) wall w id,
    journaled-stash s ops cfg p r wall w id,
  )

  classified_event :
      (p : PendingCommit) (r : CyclesResponse) (wall : ℕ) (w : World J) (id : String)
      → journaled s ops cfg id w ≡ true
      → IsKept id (concluded p w (classify_event_response s ops cfg p r wall w))
  unfolding classify_event_response rate_limited event_failure
  classified_event p r wall w id h = ground (arith, journaled-stash s ops cfg p r wall w id)

  module _ (server : Server) where
    received_event-IsKept :
        (id : String) (p : PendingCommit) (reply : Reply) (w : World J)
        → journaled s ops cfg id w ≡ true
        → IsKept id (received_event s ops cfg server p (reply, w))
    received_event-IsKept id p reply w h = elim (Option-cases reply.outcome) [
      | inl e ↦ rw e (inr h)
      | inr (r, e) ↦ rw e (classified_event p r reply.wall w id h)
    ]

    received_commit-IsKept :
        (id : String) (p : PendingCommit) (reply : Reply) (w : World J)
        → journaled s ops cfg id w ≡ true
        → IsKept id (received_commit s ops cfg server p (reply, w))
    received_commit-IsKept id p reply w h = elim (Option-cases reply.outcome) [
      | inl e ↦ rw e (inr h)
      | inr (r, e) ↦ rw e (classified_commit p r reply.wall w id h)
    ]

    abbrev pub lifted : Verdict × PendingCommit × World J → Option Verdict × PendingCommit × World J
    lifted (v, p, w) = (some v, p, w)

    -- An attempt is the synchronous one, and keeps the record unless it is terminal; or it is cancelled,
    -- and keeps the record.
    abbrev pub IsFollowing :
        String
        → Verdict × PendingCommit × World J
        → Option Verdict × PendingCommit × World J
        → Type 0
    IsFollowing id out got =
        ((got ≡ lifted out) × IsKept id out)
        ⊎ ((got.0 ≡ none) × (journaled s ops cfg id got.2 ≡ true))

    attempt_event-IsFollowing :
        (id : String) (await : Await) (p : PendingCommit) (w : World J)
        → journaled s ops cfg id w ≡ true
        → IsFollowing id
            (attempt_event s ops cfg server p w)
            (async_attempt_event s ops cfg server await p w)
    unfolding attempt_event async_attempt_event async_send send journaled
    attempt_event-IsFollowing id resumes p w h =
        let req = create_event p.event_fallback_body in
        let reply = server req w.exchanges in
        inl (refl, received_event-IsKept id p reply (noted req reply w) h)
    attempt_event-IsFollowing id cancelled_unsent p w h = inr (refl, h)
    attempt_event-IsFollowing id cancelled_sent p w h = inr (refl, h)

    after_commit-IsFollowing :
        (id : String) (await : Await) (m : Mode) (out : Verdict × PendingCommit × World J)
        → IsKept id out
        → IsFollowing id
            (after_commit s ops cfg server m out)
            (async_after_commit s ops cfg server await m out)
    unfolding after_commit async_after_commit
    after_commit-IsFollowing id await event (retry, p, w) (inl e) = cc
    after_commit-IsFollowing id await event (retry, p, w) (inr h) =
        attempt_event-IsFollowing id await p w h
    after_commit-IsFollowing id await event (terminal, p, w) h = inl (refl, h)
    after_commit-IsFollowing id await event (threw, p, w) h = inl (refl, h)
    after_commit-IsFollowing id await commit (v, p, w) h = inl (refl, h)

    attempt_commit-IsFollowing :
        (id : String) (asleep : Bool) (first second : Await) (p : PendingCommit) (w : World J)
        → journaled s ops cfg id w ≡ true
        → IsFollowing id (attempt_commit s ops cfg server p w) (
            async_attempt_commit s ops cfg server
              (record { asleep = asleep; commit = first; event = second })
              p
              w)
    unfolding attempt_commit async_attempt_commit async_send send journaled
    attempt_commit-IsFollowing id asleep resumes second p w h =
        let req = commit_reservation p.reservation_id p.commit_body in
        let reply = server req w.exchanges in
        let out = received_commit s ops cfg server p (reply, noted req reply w) in
        after_commit-IsFollowing id second out.1.mode out
          (received_commit-IsKept id p reply (noted req reply w) h)
    attempt_commit-IsFollowing id asleep cancelled_unsent second p w h = inr (refl, h)
    attempt_commit-IsFollowing id asleep cancelled_sent second p w h = inr (refl, h)

    pub attempt_in-IsFollowing :
        (id : String) (m : Mode) (awaits : RoundAwaits) (p : PendingCommit) (w : World J)
        → journaled s ops cfg id w ≡ true
        → IsFollowing id
            (attempt_in s ops cfg server m p w)
            (async_attempt_in s ops cfg server m awaits p w)
    unfolding attempt_in async_attempt_in
    attempt_in-IsFollowing id event awaits p w h = attempt_event-IsFollowing id awaits.event p w h
    attempt_in-IsFollowing id commit awaits p w h =
        attempt_commit-IsFollowing id awaits.asleep awaits.commit awaits.event p w h
