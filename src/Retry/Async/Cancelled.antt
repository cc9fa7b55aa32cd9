-- ===== src/Retry/Async/Cancelled.antt =====
-- A retry task that is cancelled leaves its spend in the journal.
use mathlib.Core.Path.{subst}
use cycles_client_python.Prelude.{
  ◌≡◌, refl, sym, ◌⊎◌, inl, inr, ℕ, zero, suc, ◌+◌, ◌*◌, String, Bool, true, false, Option, none,
  some, [], is_some, ltb,
}
use cycles_client_python.Exchange.{Server}
use cycles_client_python.Journal.Interface.{Journal}
use cycles_client_python.Response.{Schemas}
use cycles_client_python.Retry.Engine.{EngineConfig, PendingCommit, World}
use cycles_client_python.Retry.Loop.{
  Verdict, terminal, retry, threw, resume, attempt_in, attempt_once, next_attempt, retry_loop, End,
  finished, no_client, exhausted,
}
use cycles_client_python.Retry.Durable.{journaled}
use cycles_client_python.Retry.Guarantees.{retry_loop-bounded}
use cycles_client_python.Retry.Async.{
  RoundAwaits, TaskEnd, async_resume, ended, task_cancelled, async_attempt_in, async_retry_loop,
}
use cycles_client_python.Retry.Async.Attempts.{IsKept, IsFollowing, lifted, attempt_in-IsFollowing}

module _ (s : Schemas) {J : Type 0} (ops : Journal J) (cfg : EngineConfig) (server : Server) where
  -- A run of the task is the synchronous run, and keeps the record unless it finished; or it is
  -- cancelled, and keeps the record.
  abbrev pub IsRunOf :
      String → End × PendingCommit × World J → TaskEnd × PendingCommit × World J → Type 0
  IsRunOf id (e, q, w) got =
      ((got ≡ (ended e, q, w)) × ((e ≡ finished) ⊎ (is_some (ops.find w.journal id) ≡ true)))
      ⊎ ((got.0 ≡ task_cancelled) × (is_some (ops.find got.2.journal id) ≡ true))

  abbrev Runs :
      String
      → Option (End × PendingCommit × World J)
      → Option (TaskEnd × PendingCommit × World J)
      → Type 0
  Runs id none got = Unit {0}
  Runs id (some r) got = (x : TaskEnd × PendingCommit × World J) × (got ≡ some x) × IsRunOf id r x

  stopped-Runs :
      (id : String) (run : Option (End × PendingCommit × World J)) (p : PendingCommit) (w : World J)
      → journaled s ops cfg id w ≡ true
      → Runs id run (some (task_cancelled, p, w))
  unfolding journaled
  stopped-Runs id none p w h = tt
  stopped-Runs id (some r) p w h = ((task_cancelled, p, w), refl, inr (refl, h))

  resumed-Runs :
      (id : String) (rest : PendingCommit → World J → Option (End × PendingCommit × World J))
      (arest : PendingCommit → World J → Option (TaskEnd × PendingCommit × World J))
      (out : Verdict × PendingCommit × World J)
      → ((p : PendingCommit) (w : World J)
          → journaled s ops cfg id w ≡ true
          → Runs id (rest p w) (arest p w))
      → IsKept s ops cfg id out
      → Runs id
          (resume rest out)
          (async_resume s ops cfg server arest (lifted s ops cfg server out))
  resumed-Runs id rest arest (terminal, p, w) next kept =
      ((ended finished, p, w), refl, inl (refl, inl refl))
  resumed-Runs id rest arest (retry, p, w) next (inl e) = cc
  resumed-Runs id rest arest (retry, p, w) next (inr h) = next p w h
  resumed-Runs id rest arest (threw, p, w) next (inl e) = cc
  resumed-Runs id rest arest (threw, p, w) next (inr h) = next p w h

  followed-Runs :
      (id : String) (rest : PendingCommit → World J → Option (End × PendingCommit × World J))
      (arest : PendingCommit → World J → Option (TaskEnd × PendingCommit × World J))
      (out : Verdict × PendingCommit × World J) (got : Option Verdict × PendingCommit × World J)
      → ((p : PendingCommit) (w : World J)
          → journaled s ops cfg id w ≡ true
          → Runs id (rest p w) (arest p w))
      → IsFollowing s ops cfg server id out got
      → Runs id (resume rest out) (async_resume s ops cfg server arest got)
  followed-Runs id rest arest out got next (inl (e, kept)) =
      subst (λ g. Runs id (resume rest out) (async_resume s ops cfg server arest g)) (sym e)
        (resumed-Runs id rest arest out next kept)
  followed-Runs id rest arest out (none, p, w) next (inr (e, h)) =
      stopped-Runs id (resume rest out) p w h
  followed-Runs id rest arest out (some v, p, w) next (inr (e, h)) = cc

  -- One round, by its three tests.
  round-Runs :
      (id : String) (more asleep able : Bool) (p p₁ : PendingCommit) (w w₁ : World J)
      (run : Option (End × PendingCommit × World J))
      (got : Option (TaskEnd × PendingCommit × World J))
      → journaled s ops cfg id w ≡ true
      → journaled s ops cfg id w₁ ≡ true
      → Runs id run got
      → Runs id
          (elim more [
            | false ↦ some (exhausted, p, w)
            | true ↦ elim able [ false ↦ some (no_client, p₁, w₁) | true ↦ run ]
          ])
          (elim more [
            | false ↦ some (ended exhausted, p, w)
            | true ↦ elim asleep [
              | true ↦ some (task_cancelled, p₁, w₁)
              | false ↦ elim able [ false ↦ some (ended no_client, p₁, w₁) | true ↦ got ]
            ]
          ])
  unfolding journaled
  round-Runs id false asleep able p p₁ w w₁ run got h h₁ next =
      ((ended exhausted, p, w), refl, inl (refl, inr h))
  round-Runs id true true able p p₁ w w₁ run got h h₁ next =
      stopped-Runs id (elim able [ false ↦ some (no_client, p₁, w₁) | true ↦ run ]) p₁ w₁ h₁
  round-Runs id true false false p p₁ w w₁ run got h h₁ next =
      ((ended no_client, p₁, w₁), refl, inl (refl, inr h₁))
  round-Runs id true false true p p₁ w w₁ run got h h₁ next = next

  loop-Runs :
      (id : String) (fuel : ℕ) (awaits : ℕ → RoundAwaits) (p : PendingCommit) (w : World J)
      → journaled s ops cfg id w ≡ true
      → Runs id
          (retry_loop s ops cfg server fuel p w)
          (async_retry_loop s ops cfg server fuel awaits p w)
  unfolding retry_loop async_retry_loop attempt_once next_attempt journaled
  loop-Runs id zero awaits p w h = tt
  loop-Runs id (suc fuel) awaits p w h =
      let (p₁, w₁) = next_attempt s ops cfg server p w in
      let rest = retry_loop s ops cfg server fuel in
      let arest = async_retry_loop s ops cfg server fuel awaits in
      let out = attempt_in s ops cfg server p₁.mode p₁ w₁ in
      let got = async_attempt_in s ops cfg server p₁.mode (awaits fuel) p₁ w₁ in
      round-Runs id (ltb p.attempt cfg.max_attempts) (awaits fuel).asleep cfg.client_set p p₁ w w₁
        (resume rest out) (async_resume s ops cfg server arest got) h h
        (followed-Runs id rest arest out got (λ q v k. loop-Runs id fuel awaits q v k)
          (attempt_in-IsFollowing s ops cfg server id p₁.mode (awaits fuel) p₁ w₁ h))

  -- For every pending commit that is in the journal, every server, and every cancellation, the task
  -- ends within 2 * max_attempts + 1 rounds of fuel. Either it is cancelled, and the reservation is
  -- still in the journal; or it ends as the synchronous loop does, with the same pending commit and
  -- the same world, and the reservation is still in the journal unless an attempt was terminal.
  pub async_retry_loop-IsRunOf :
      (awaits : ℕ → RoundAwaits) (p : PendingCommit) (w : World J)
      → is_some (ops.find w.journal p.reservation_id) ≡ true
      → w.exchanges ≡ []
      → (r : End × PendingCommit × World J) × (x : TaskEnd × PendingCommit × World J) × (retry_loop
            s ops cfg server
            (2 * cfg.max_attempts + 1)
            p
            w
          ≡ some r)
        × (async_retry_loop s ops cfg server (2 * cfg.max_attempts + 1) awaits p w ≡ some x)
        × IsRunOf p.reservation_id r x
  unfolding journaled
  async_retry_loop-IsRunOf awaits p w there start =
      let (e, q, w', run, sent, own, same) = retry_loop-bounded s ops cfg server p w start in
      let (x, got, is) : Runs p.reservation_id (some (e, q, w')) _ =
        subst
          (λ m.
            Runs p.reservation_id m
              (async_retry_loop s ops cfg server (2 * cfg.max_attempts + 1) awaits p w))
          run (loop-Runs p.reservation_id (2 * cfg.max_attempts + 1) awaits p w there) in
      ((e, q, w'), x, run, got, is)
