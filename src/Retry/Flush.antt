-- ===== src/Retry/Flush.antt =====
-- runcycles/retry.py: the bounded wait for retry threads, `flush` of `CommitRetryEngine` and
-- `_flush_all_engines` at the interpreter's exit.
use cycles_client_python.Prelude.{
  ℕ, ◌+◌, ◌-◌, ◌≤◌, max, Bool, ◌&&◌, not, List, [], ◌∷◌, if◌then◌else◌, leb, ◌==◌, arith,
}

-- An engine at exit: its `_flush_timeout` (a negative one is 0) and its threads.
pub record LiveEngine (T : Type 0) : Type 0 where
  pub flush_timeout : ℕ
  pub threads : List T

-- Threads are not part of the repository: `alive` says whether a thread runs at a time, `joined` is
-- the clock after `join` with a timeout, and `current` is `threading.current_thread`.
module _ {T : Type 0} (current : T → Bool) (alive : T → ℕ → Bool) (joined : T → ℕ → ℕ → ℕ) where
  -- The clock after the loop over the threads
  unfoldable pub flush_threads : ℕ → List T → ℕ → ℕ
  flush_threads deadline [] now = now
  flush_threads deadline (t ∷ ts) now =
      let then_at = if not (current t) && alive t now then joined t now (deadline - now) else now in
      let rest = flush_threads deadline ts then_at in if leb deadline now then now else rest

  -- `flush`
  unfoldable pub flush : ℕ → List T → ℕ → ℕ
  unfolding flush_threads
  flush timeout ts now = if timeout == 0 then now else flush_threads (now + timeout) ts now

  unfoldable pub longest_timeout : List (LiveEngine T) → ℕ
  longest_timeout [] = 0
  longest_timeout (e ∷ es) = max e.flush_timeout (longest_timeout es)

  unfoldable pub flush_engines : ℕ → List (LiveEngine T) → ℕ → ℕ
  unfolding flush
  flush_engines deadline [] now = now
  flush_engines deadline (e ∷ es) now =
      let rest = flush_engines deadline es (flush (deadline - now) e.threads now) in
      if leb deadline now then now else rest

  -- `_flush_all_engines`
  unfoldable pub flush_all_engines : List (LiveEngine T) → ℕ → ℕ
  unfolding flush_engines longest_timeout
  flush_all_engines es now = flush_engines (now + longest_timeout es) es now

  module _ (bounded : (t : T) (now timeout : ℕ) → joined t now timeout ≤ now + timeout) where
    flush_threads-le :
        (deadline : ℕ) (ts : List T) (now : ℕ)
        → now ≤ deadline
        → flush_threads deadline ts now ≤ deadline
    unfolding flush_threads
    flush_threads-le deadline [] now early = early
    flush_threads-le deadline (t ∷ ts) now early =
        let wait = bounded t now (deadline - now) in
        ground (
          arith,
          wait,
          flush_threads-le deadline ts (joined t now (deadline - now)),
          flush_threads-le deadline ts now,
        )

    flush-le : (timeout : ℕ) (ts : List T) (now : ℕ) → flush timeout ts now ≤ now + timeout
    unfolding flush
    flush-le timeout ts now = ground (arith, flush_threads-le (now + timeout) ts now)

    flush_engines-le :
        (deadline : ℕ) (es : List (LiveEngine T)) (now : ℕ)
        → now ≤ deadline
        → flush_engines deadline es now ≤ deadline
    unfolding flush_engines
    flush_engines-le deadline [] now early = early
    flush_engines-le deadline (e ∷ es) now early =
        let wait = flush-le (deadline - now) e.threads now in
        ground (arith, wait, flush_engines-le deadline es (flush (deadline - now) e.threads now))

    -- If joining a thread takes no longer than its timeout, then the wait at exit takes, for all
    -- engines together, no longer than the longest of their timeouts, however many engines and threads
    -- there are.
    pub flush_all_engines-le :
        (es : List (LiveEngine T)) (now : ℕ) → flush_all_engines es now ≤ now + longest_timeout es
    unfolding flush_all_engines
    flush_all_engines-le es now = flush_engines-le (now + longest_timeout es) es now (omega arith)
