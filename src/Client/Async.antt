-- ===== src/Client/Async.antt =====
-- runcycles/client.py: `AsyncCyclesClient`. A call is awaited in httpx only; the `CancelledError` is no
-- `httpx.HTTPError`, so a call that is cancelled raises it. What is read of an answer is read as by the
-- synchronous client.
use Prim.Native.String.{◌++◌}
use cycles_client_python.Prelude.{
  ◌≡◌, refl, String, List, [], ok, err, if◌then◌else◌, Result-cases, inl, inr,
}
use cycles_client_python.Json.{Json}
use cycles_client_python.Response.{value_error}
use cycles_client_python.Exchange.{Request}
use cycles_client_python.Retry.Awaiting.{Await, resumes, cancelled_unsent, cancelled_sent}
use cycles_client_python.Client.{
  Body, HttpCall, fetch, HttpResult, Called, refused, serialize_body, post_call, path_of, body_of,
  received, has_balance_filter, send_post, call,
}

-- What a call comes to: as for the synchronous client, or a `CancelledError`.
pub data AsyncCalled : Type 0 where
  finished : Called → AsyncCalled
  call_cancelled : AsyncCalled

module _ (shown : Json → String) (http : HttpCall → HttpResult) where
  -- `await` of a call of httpx, and the end of `_post` and `_get`
  unfoldable pub await_http : Await → HttpCall → AsyncCalled
  unfolding received
  await_http resumes c = finished (received shown (http c))
  await_http cancelled_unsent c = call_cancelled
  await_http cancelled_sent c = call_cancelled

  unfoldable pub async_send_post : Await → String → Body → AsyncCalled
  unfolding serialize_body post_call await_http
  async_send_post await path body = elim (serialize_body body) [
    | err e ↦ finished (refused e)
    | ok d ↦ await_http await (post_call path d)
  ]

  unfoldable pub async_send_get : Await → String → List (String × String) → AsyncCalled
  unfolding await_http
  async_send_get await path params = await_http await (fetch path params)

  unfoldable pub async_get_balances : Await → List (String × String) → AsyncCalled
  unfolding has_balance_filter async_send_get
  async_get_balances await params =
      if has_balance_filter params
      then async_send_get await "/v1/balances" params
      else finished (refused value_error)

  unfoldable pub async_list_reservations : Await → List (String × String) → AsyncCalled
  unfolding async_send_get
  async_list_reservations await params = async_send_get await "/v1/reservations" params

  unfoldable pub async_get_reservation : Await → String → AsyncCalled
  unfolding async_send_get
  async_get_reservation await id = async_send_get await ("/v1/reservations/" ++ id) []

  unfoldable pub async_decide : Await → Body → AsyncCalled
  unfolding async_send_post
  async_decide await body = async_send_post await "/v1/decide" body

  unfoldable pub async_call : Await → Request → AsyncCalled
  unfolding async_send_post path_of body_of
  async_call await req = async_send_post await (path_of req) (body_of req)

  -- Without a cancellation the calls are those of the synchronous client.
  async_send_post-agrees :
      (path : String) (body : Body)
      → async_send_post resumes path body ≡ finished (send_post shown http path body)
  unfolding async_send_post send_post await_http
  async_send_post-agrees path body = elim (Result-cases (serialize_body body)) [
    | inl (d, e) ↦ rw (e, async_send_post, send_post) refl
    | inr (x, e) ↦ rw (e, async_send_post, send_post) refl
  ]

  async_call-agrees : (req : Request) → async_call resumes req ≡ finished (call shown http req)
  unfolding async_call call
  async_call-agrees req = async_send_post-agrees (path_of req) (body_of req)
