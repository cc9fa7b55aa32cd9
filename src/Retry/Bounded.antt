-- ===== src/Retry/Bounded.antt =====
-- The retry loop ends, sends a bounded number of requests, and repeats the bodies it was given.
use cycles_client_python.Prelude.{
  ◌≡◌, refl, ℕ, zero, suc, ◌+◌, ◌-◌, ◌≤◌, ◌<◌, inl, inr, Option, some, arith, length, Bool-cases,
  ltb, ltb→lt, All, ap,
}
use cycles_client_python.Exchange.{Server}
use cycles_client_python.Journal.Record.{Mode, commit, event}
use cycles_client_python.Journal.Interface.{Journal}
use cycles_client_python.Response.{Schemas}
use cycles_client_python.Retry.Engine.{EngineConfig, PendingCommit, World}
use cycles_client_python.Retry.Loop.{
  Verdict, terminal, retry, threw, attempt_once, next_attempt, retry_loop, End, finished, exhausted,
  no_client, resume,
}
use cycles_client_python.Retry.Attempted.{
  SameSpend, SameSpend-refl, IsOwn, Attempted, IsOwn-of_SameSpend, attempt_once-pending,
  next_attempt-pending,
}

module _ (cfg : EngineConfig) where
  -- How many more attempts, and how many more requests, a loop over `p` can make.
  abbrev pub attempts_left : Mode → ℕ → ℕ
  attempts_left event attempt = cfg.max_attempts - attempt
  attempts_left commit attempt = cfg.max_attempts - attempt + cfg.max_attempts

  abbrev pub requests_left : Mode → ℕ → ℕ
  requests_left event attempt = cfg.max_attempts - attempt
  requests_left commit attempt = cfg.max_attempts - attempt + cfg.max_attempts + 1

module _ (s : Schemas) {J : Type 0} (ops : Journal J) (cfg : EngineConfig) (server : Server) where
  abbrev pub Ended : PendingCommit → World J → PendingCommit → World J → Type 0
  Ended p w q w' =
      SameSpend p q
      × (length w'.exchanges ≤ length w.exchanges + requests_left cfg p.mode p.attempt)
      × All (IsOwn p) w'.exchanges

  -- One round leaves fewer attempts, and spends the requests that it sends.
  abbrev Advanced : PendingCommit → World J → PendingCommit → World J → Type 0
  Advanced p w q w' =
      SameSpend p q
      × (attempts_left cfg q.mode q.attempt < attempts_left cfg p.mode p.attempt)
      × (length w'.exchanges + requests_left cfg q.mode q.attempt
          ≤ length w.exchanges + requests_left cfg p.mode p.attempt)
      × All (IsOwn p) w'.exchanges

  spent :
      (p₁ : PendingCommit) (w₁ : World J) (q : PendingCommit) (w' : World J) (m : Mode) (n a : ℕ)
      → p₁.mode ≡ m
      → p₁.attempt ≡ a + 1
      → length w₁.exchanges ≡ n
      → a < cfg.max_attempts
      → Attempted p₁ w₁ q w'
      → (attempts_left cfg q.mode q.attempt < attempts_left cfg m a)
        × (length w'.exchanges + requests_left cfg q.mode q.attempt ≤ n + requests_left cfg m a)
  spent p₁ w₁ q w' commit n a m c l room done = ground arith
  spent p₁ w₁ q w' event n a m c l room done = ground arith

  round-advances :
      (p : PendingCommit) (w : World J)
      → p.attempt < cfg.max_attempts
      → All (IsOwn p) w.exchanges
      → let (p₁, w₁) = next_attempt s ops cfg server p w in
        let (v, q, w') = attempt_once s ops cfg server p₁ w₁ in Advanced p w q w'
  round-advances p w room own =
      let (p₁, w₁) = next_attempt s ops cfg server p w in
      let (same₁, m, a, x) = next_attempt-pending s ops cfg server p w in
      let own₁ = IsOwn-of_SameSpend p p₁ same₁ w₁.exchanges (rw x own) in
      let (v, q, w') = attempt_once s ops cfg server p₁ w₁ in
      let (same₂, did, own₂) = attempt_once-pending s ops cfg server p₁ w₁ own₁ in
      let back : SameSpend p₁ p = ground (arith, same₁) in
      let (less, within) =
        spent p₁ w₁ q w' p.mode (length w.exchanges) p.attempt m a (ap length x) room did in
      (ground (arith, same₁, same₂), less, within, IsOwn-of_SameSpend p₁ p back w'.exchanges own₂)

  abbrev pub EndsFrom : Option (End × PendingCommit × World J) → PendingCommit → World J → Type 0
  EndsFrom run p w =
      (e : End) × (q : PendingCommit) × (w' : World J) × (run ≡ some (e, q, w')) × Ended p w q w'

  goes_on :
      (p : PendingCommit) (w : World J)
      (rest : PendingCommit → World J → Option (End × PendingCommit × World J)) (q : PendingCommit)
      (w' : World J)
      → Advanced p w q w'
      → (All (IsOwn q) w'.exchanges → EndsFrom (rest q w') q w')
      → EndsFrom (rest q w') p w
  goes_on p w rest q w' (same, less, sent, own) go =
      let (e, q', w'', run, (same', sent', own')) = go (IsOwn-of_SameSpend p q same _ own) in
      let back : SameSpend q p = ground (arith, same) in
      (
        e,
        q',
        w'',
        run,
        (
          ground (arith, same, same'),
          omega (arith, sent, sent'),
          IsOwn-of_SameSpend q p back _ own',
        ),
      )

  resume-ends :
      (p : PendingCommit) (w : World J)
      (rest : PendingCommit → World J → Option (End × PendingCommit × World J))
      (out : Verdict × PendingCommit × World J)
      → Advanced p w out.1 out.2
      → (All (IsOwn out.1) out.2.exchanges → EndsFrom (rest out.1 out.2) out.1 out.2)
      → EndsFrom (resume rest out) p w
  resume-ends p w rest (terminal, q, w') (same, less, sent, own) go =
      (finished, q, w', refl, (same, omega arith, own))
  resume-ends p w rest (retry, q, w') adv go = goes_on p w rest q w' adv go
  resume-ends p w rest (threw, q, w') adv go = goes_on p w rest q w' adv go

  pub retry_loop-ends :
      (fuel : ℕ) (p : PendingCommit) (w : World J)
      → attempts_left cfg p.mode p.attempt < fuel
      → All (IsOwn p) w.exchanges
      → EndsFrom (retry_loop s ops cfg server fuel p w) p w
  unfolding retry_loop
  retry_loop-ends zero p w room own = elim room [ ]
  retry_loop-ends (suc fuel) p w room own = elim (Bool-cases (ltb p.attempt cfg.max_attempts)) [
    | inr done ↦ rw (done, retry_loop) (exhausted, p, w, refl, (SameSpend-refl p, omega arith, own))
    | inl more ↦ elim (Bool-cases cfg.client_set) [
      | inr unset ↦
          let (p₁, w₁) = next_attempt s ops cfg server p w in
          let (same, m, a, x) = next_attempt-pending s ops cfg server p w in
          rw (more, retry_loop)
            (rw (unset, retry_loop)
              (no_client, p₁, w₁, refl, (same, omega (arith, ap length x), rw x own)))
      | inl set ↦
          let (p₁, w₁) = next_attempt s ops cfg server p w in
          let adv = round-advances p w (ltb→lt _ _ more) own in
          rw (more, retry_loop)
            (rw (set, retry_loop)
              (resume-ends p w (retry_loop s ops cfg server fuel)
                (attempt_once s ops cfg server p₁ w₁) adv
                (λ own'. retry_loop-ends fuel _ _ (omega (arith, adv.1)) own')))
    ]
  ]
