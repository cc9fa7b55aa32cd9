-- ===== src/Retry/Guarantees.antt =====
-- What a retry loop guarantees, whatever the server answers.
use cycles_client_python.Prelude.{
  ◌≡◌, ap, ℕ, ◌+◌, ◌*◌, ◌≤◌, ◌<◌, ◌⊎◌, true, some, [], arith, length, All, is_some,
}
use cycles_client_python.Exchange.{Server, any_exchange}
use cycles_client_python.Journal.Record.{Mode, commit, event}
use cycles_client_python.Journal.Interface.{Journal}
use cycles_client_python.Response.{Schemas}
use cycles_client_python.Retry.Engine.{EngineConfig, PendingCommit, World}
use cycles_client_python.Retry.Loop.{retry_loop, End}
use cycles_client_python.Retry.Durable.{settles, is_accounted, journaled, retry_loop-accounted}
use cycles_client_python.Retry.Attempted.{SameSpend, IsOwn}
use cycles_client_python.Retry.Bounded.{attempts_left, retry_loop-ends, requests_left}

module _ (s : Schemas) {J : Type 0} (ops : Journal J) (cfg : EngineConfig) (server : Server) where
  attempts_left-le : (m : Mode) (a : ℕ) → attempts_left cfg m a < 2 * cfg.max_attempts + 1
  attempts_left-le commit a = omega arith
  attempts_left-le event a = omega arith

  -- For every pending commit and every server, and from an empty history, the loop ends within
  -- 2 * max_attempts + 1 rounds of fuel. It has then sent at most 2 * max_attempts + 1 requests,
  -- each of them the pending commit's own commit body for its own reservation or its own event
  -- fallback body, and the pending commit still has its id and its two bodies.
  pub retry_loop-bounded :
      (p : PendingCommit) (w : World J)
      → w.exchanges ≡ []
      → (e : End) × (q : PendingCommit) × (w' : World J) × (retry_loop s ops cfg server
            (2 * cfg.max_attempts + 1)
            p
            w
          ≡ some (e, q, w'))
        × (length w'.exchanges ≤ 2 * cfg.max_attempts + 1)
        × All (IsOwn p) w'.exchanges
        × SameSpend p q
  retry_loop-bounded p w start =
      let (e, q, w', run, (same, sent, own)) =
        retry_loop-ends s ops cfg server (2 * cfg.max_attempts + 1) p w
          (attempts_left-le p.mode p.attempt) (rw start tt) in
      (e, q, w', run, few p.mode p.attempt (ap length start) sent, own, same)
    where
      few :
          (m : Mode) (a : ℕ) {n l : ℕ}
          → n ≡ 0
          → l ≤ n + requests_left cfg m a
          → l ≤ 2 * cfg.max_attempts + 1
      few commit a start sent = omega arith
      few event a start sent = omega arith

  -- For every pending commit that is in the journal, every server, and an empty history, the loop
  -- ends within 2 * max_attempts + 1 rounds of fuel, and then the reservation is still in the
  -- journal, or one of the responses settled it: the exact success of the protocol, or a client
  -- error with a recognized final code that is no 401, 403 or 429 and, for a commit, no expiry (410
  -- or RESERVATION_EXPIRED).
  pub retry_loop-durable :
      (p : PendingCommit) (w : World J)
      → w.exchanges ≡ []
      → is_some (ops.find w.journal p.reservation_id) ≡ true
      → (e : End) × (q : PendingCommit) × (w' : World J) × (retry_loop s ops cfg server
            (2 * cfg.max_attempts + 1)
            p
            w
          ≡ some (e, q, w'))
        × ((is_some (ops.find w'.journal p.reservation_id) ≡ true)
            ⊎ (any_exchange (settles s) w'.exchanges ≡ true))
  unfolding is_accounted journaled
  retry_loop-durable p w start kept =
      let (e, q, w', run, sent, own, same) = retry_loop-bounded p w start in
      let still =
        retry_loop-accounted s ops cfg server p.reservation_id (2 * cfg.max_attempts + 1) p w
          (ground arith) e q w' run in
      (e, q, w', run, ground (arith, still))
