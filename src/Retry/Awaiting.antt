-- ===== src/Retry/Awaiting.antt =====
-- A coroutine's awaited requests to runcycles/client.py. A task may be cancelled while it awaits; the
-- `CancelledError` passes every `except Exception`.
use cycles_client_python.Prelude.{Option, none, some}
use cycles_client_python.Exchange.{Request, Server, Reply}
use cycles_client_python.Retry.Engine.{World, send}

-- What becomes of a task that awaits a request: it resumes with the reply, or it is cancelled before
-- the request left or after the server had it.
pub data Await : Type 0 where
  resumes cancelled_unsent cancelled_sent : Await

-- One awaited call of the client; `none` is the `CancelledError`.
unfoldable pub async_send :
    {J : Type 0} → Server → Await → Request → World J → Option Reply × World J
unfolding send
async_send server resumes req w = let (reply, w₁) = send server req w in (some reply, w₁)
async_send server cancelled_unsent req w = (none, w)
async_send server cancelled_sent req w = (none, (send server req w).1)
