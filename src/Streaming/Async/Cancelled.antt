-- ===== src/Streaming/Async/Cancelled.antt =====
-- What an asynchronous stream leaves behind, wherever its task is cancelled.

use cycles_client_python.Prelude.{
  ◌≡◌, refl, ap, ◌∙◌, ℕ, ℤ, Result, String, Bool, true, false, not, ◌&&◌, none, some, List, ◌∷◌, ok,
  is_some, str_eq,
}
use cycles_client_python.Json.{Fields}
use cycles_client_python.Models.{CyclesMetrics}
use cycles_client_python.Exchange.{
  Exchange, Request, Server, Reply, commit_reservation, release_reservation,
}
use cycles_client_python.Journal.Record.{PendingCommitRecord, JsonText, commit}
use cycles_client_python.Journal.Refines.{IsInjective, TidyDir, file_journal}
use cycles_client_python.Journal.Reload.{file_load, file_load-keeps}
use cycles_client_python.Journal.Interface.{Journal}
use cycles_client_python.Response.{Schemas, Raised}
use cycles_client_python.Retry.Engine.{
  EngineConfig, World, persist_pending, send, noted, new_pending,
}
use cycles_client_python.Retry.Replay.{Process}
use cycles_client_python.Lifecycle.Bodies.{build_release_body}
use cycles_client_python.Lifecycle.Commit.{plan_of_reply}
use cycles_client_python.Lifecycle.Spend.{
  settled, commit_reply, committed, plan-settled, reply-persist, exchanges-persist,
  kept-journal_record,
}
use cycles_client_python.Retry.Awaiting.{
  Await, resumes, cancelled_unsent, cancelled_sent, async_send,
}
use cycles_client_python.Lifecycle.Async.Execute.{AsyncEnv, Awaits}
use cycles_client_python.Lifecycle.Async.Replaying.{IsKeeping, async_carry_out-Keeps}
use cycles_client_python.Lifecycle.Async.Cancelled.{cut, sent_on}
use cycles_client_python.Streaming.Usage.{derived_stream_key}
use cycles_client_python.Streaming.Exit.{
  StreamReservation, Fresh, stream_commit_body, stream_event_body, stream_metrics,
}
use cycles_client_python.Streaming.Async.{
  AsyncExited, async_send_valid, async_stream_answered, async_stream_settle, async_after_metrics,
  async_stream_release, async_stream_exit,
}

module _ (sha256 : String → String) (s : Schemas)
    (int_of_text int_of_float : String → Result Raised ℤ) {J : Type 0} (ops : Journal J)
    (cfg : EngineConfig) (load : J → List PendingCommitRecord × J) (dir : String)
    (server : Server) where
  -- The reply to a commit that is sent if it is valid, and the history after it.
  abbrev pub reply_to : Bool → ℕ → String → Fields → World J → Reply
  reply_to true wall id c w = commit_reply s ops cfg server id c w
  reply_to false wall id c w = record { outcome = none; sent = wall; received = wall; wall = wall }

  abbrev pub sent_if : Bool → Await → List Exchange → List Exchange → List Exchange
  sent_if true await more xs = sent_on await more xs
  sent_if false await more xs = xs

  -- The commit of a stream with this body: cancelled or not, sent at most once, and its reservation in
  -- the journal unless the task saw an answer that settles the commit.
  abbrev pub IsCommitted : Bool → Await → ℕ → String → Fields → World J → AsyncExited J → Type 0
  IsCommitted valid await wall id c w out =
      (out.interrupted ≡ (valid && cut await))
      × (out.process.world.exchanges
          ≡ sent_if valid await (committed s ops cfg server id c w.exchanges) w.exchanges)
      × (is_some (ops.find out.process.world.journal id)
          ≡ not (not (valid && cut await) && settled s (reply_to valid wall id c w)))

  answered :
      (r : StreamReservation) (valid : Bool) (await : Await) (wall : ℕ) (c e : Fields)
      (p : Process J)
      → IsKeeping ops load cfg
      → cfg.journal_enabled ≡ true
      → str_eq r.reservation_id "" ≡ false
      → is_some (ops.find p.world.journal r.reservation_id) ≡ true
      → let id = r.reservation_id in
        let (reply, w₁) =
          async_send_valid sha256 s int_of_text int_of_float ops cfg load dir server valid wall
            await
            (commit_reservation id (some c))
            p.world in
        IsCommitted valid await wall id c p.world (
          async_stream_answered sha256 s int_of_text int_of_float ops cfg load dir server r reply c
            e
            (record p { world = w₁ }))
  unfolding async_send_valid async_send send async_stream_answered
  answered r true resumes wall c e p keeps on named there =
      let id = r.reservation_id in
      let reply = commit_reply s ops cfg server id c p.world in
      let p₁ : Process J = record p {
        world = noted (commit_reservation id (some c)) reply p.world;
      } in
      let (quiet, kept) =
        async_carry_out-Keeps s ops cfg load dir server (plan_of_reply s ops cfg server reply) id c
          e reply.wall p₁ keeps on named in
      (refl, quiet, kept ∙ ap not (plan-settled s ops cfg server reply))
  answered r true cancelled_unsent wall c e p keeps on named there = (refl, refl, there)
  answered r true cancelled_sent wall c e p keeps on named there = (refl, refl, there)
  answered r false await wall c e p keeps on named there =
      let reply = reply_to false wall r.reservation_id c p.world in
      let (quiet, kept) =
        async_carry_out-Keeps s ops cfg load dir server (plan_of_reply s ops cfg server reply)
          r.reservation_id c e wall p keeps on named in
      (refl, quiet, kept ∙ ap not (plan-settled s ops cfg server reply))

  reply_to-persist :
      (valid : Bool) (wall : ℕ) (id : String) (c e : Fields) (w : World J)
      → reply_to valid wall id c (persist_pending ops cfg id c e wall w)
        ≡ reply_to valid wall id c w
  reply_to-persist true wall id c e w = reply-persist s ops cfg server id c e wall w
  reply_to-persist false wall id c e w = refl

  settled_lem :
      (r : StreamReservation) (fresh : Fresh) (await : Await) (m : CyclesMetrics) (p : Process J)
      → IsKeeping ops load cfg
      → cfg.journal_enabled ≡ true
      → str_eq r.reservation_id "" ≡ false
      → let c = stream_commit_body sha256 r m fresh.commit_key in
        IsCommitted (s.commit_request c) await fresh.wall r.reservation_id c p.world (
          async_stream_settle sha256 s int_of_text int_of_float ops cfg load dir server r fresh
            await m p)
  unfolding async_stream_settle persist_pending
  settled_lem r fresh await m p keeps on named =
      let id = r.reservation_id in
      let c = stream_commit_body sha256 r m fresh.commit_key in
      let e = stream_event_body sha256 r c in
      let valid = s.commit_request c in
      let w₀ = persist_pending ops cfg id c e fresh.wall p.world in
      let own =
        kept-journal_record s ops cfg server (new_pending id (some c) (some e) commit) fresh.wall
          p.world on in
      let (out, sent, kept) =
        answered r valid await fresh.wall c e (record p { world = w₀ }) keeps on named own in
      (
        out,
        sent
            ∙ ap (λ xs. sent_if valid await (committed s ops cfg server id c xs) xs)
                (exchanges-persist s ops cfg server id c e fresh.wall p.world),
        kept
            ∙ ap (λ x. not (not (valid && cut await) && settled s x))
                (reply_to-persist valid fresh.wall id c e p.world),
      )

  -- The release of a failed stream, which is sent at most once.
  abbrev pub stream_released : StreamReservation → Fresh → Await → List Exchange → List Exchange
  stream_released r fresh await xs =
      let key = derived_stream_key sha256 "release" r.idempotency_key in
      let body = build_release_body "stream_failed" key fresh.release_key in
      let req = release_reservation r.reservation_id body in
      sent_if (s.release_request body) await (record { request = req; reply = server req xs } ∷ xs)
        xs

  -- How a stream whose body raised, or did not, leaves the process.
  abbrev pub IsLeft :
      Bool → StreamReservation → Fresh → Awaits → CyclesMetrics → Process J → AsyncExited J → Type 0
  IsLeft true r fresh awaits m p out =
      (out.process.world.exchanges ≡ stream_released r fresh awaits.release p.world.exchanges)
      × (out.process.world.journal ≡ p.world.journal)
      × (out.process.world.spawned ≡ p.world.spawned)
      × (out.raises ≡ false)
  IsLeft false r fresh awaits m p out =
      let c = stream_commit_body sha256 r m fresh.commit_key in
      IsCommitted (s.commit_request c) awaits.commit fresh.wall r.reservation_id c p.world out

  release_sent :
      (valid : Bool) (await : Await) (wall : ℕ) (req : Request) (w : World J)
      → let (reply, w₁) =
          async_send_valid sha256 s int_of_text int_of_float ops cfg load dir server valid wall
            await req w in
        (w₁.exchanges
          ≡ sent_if valid await
              (record { request = req; reply = server req w.exchanges } ∷ w.exchanges)
              w.exchanges)
        × (w₁.journal ≡ w.journal)
        × (w₁.spawned ≡ w.spawned)
  unfolding async_send_valid async_send send
  release_sent true resumes wall req w = (refl, refl, refl)
  release_sent true cancelled_unsent wall req w = (refl, refl, refl)
  release_sent true cancelled_sent wall req w = (refl, refl, refl)
  release_sent false await wall req w = (refl, refl, refl)

  released_lem :
      (r : StreamReservation) (fresh : Fresh) (awaits : Awaits) (m : CyclesMetrics) (p : Process J)
      → IsLeft true r fresh awaits m p (
          async_stream_release sha256 s int_of_text int_of_float ops cfg load dir server r fresh
            awaits.release p)
  unfolding async_stream_release
  released_lem r fresh awaits m p =
      let key = derived_stream_key sha256 "release" r.idempotency_key in
      let body = build_release_body "stream_failed" key fresh.release_key in
      let (sent, kept, idle) =
        release_sent (s.release_request body) awaits.release fresh.wall
          (release_reservation r.reservation_id body) p.world in
      (sent, kept, idle, refl)

  exit-settled :
      (failed : Bool) (r : StreamReservation) (fresh : Fresh) (awaits : Awaits) (m : CyclesMetrics)
      (env : AsyncEnv J)
      → IsKeeping ops load cfg
      → cfg.journal_enabled ≡ true
      → str_eq r.reservation_id "" ≡ false
      → stream_metrics sha256 r ≡ ok m
      → let (out, env') =
          async_stream_exit sha256 s int_of_text int_of_float ops cfg load dir server failed r fresh
            awaits env in
        (env'.context ≡ none)
        × (env'.beating ≡ false)
        × (env'.process ≡ out.process)
        × IsLeft failed r fresh awaits m env.process out
  unfolding async_stream_exit async_after_metrics
  exit-settled true r fresh awaits m env keeps on named accepted =
      (refl, refl, refl, released_lem r fresh awaits m env.process)
  exit-settled false r fresh awaits m env keeps on named accepted = (
    refl,
    refl,
    refl,
    rw (accepted, async_after_metrics)
        (settled_lem r fresh awaits.commit m env.process keeps on named),
  )

-- Over the files of the journal, written and read without a fault, and a digest without collisions:
-- with the journal enabled and an identified reservation, leaving an asynchronous stream whose metrics
-- are accepted, wherever the task is cancelled, and whether or not the engine still has to replay its
-- journal: the context variable is cleared and the heartbeat is stopped. If the body raised or was
-- cancelled, at most the release is sent, no error is raised beside a cancellation, and the journal and
-- the retries are as before. If it did not, nothing but the commit is sent, and only if its body is a
-- valid request; the exit is cancelled exactly if the commit was; and the reservation is in the journal
-- exactly if the task did not see an answer that settles the commit.
pub async_stream_exit_settles :
    (sha256 : String → String) {Text : Type 0} (json : JsonText Text)
    (inj : IsInjective sha256 json) (unique : String) (stale : String → Bool) (s : Schemas)
    (int_of_text int_of_float : String → Result Raised ℤ) (cfg : EngineConfig) (dir : String)
    (server : Server) (failed : Bool) (r : StreamReservation) (fresh : Fresh) (awaits : Awaits)
    (m : CyclesMetrics) (env : AsyncEnv (TidyDir sha256 json))
    → cfg.journal_enabled ≡ true
    → str_eq r.reservation_id "" ≡ false
    → stream_metrics sha256 r ≡ ok m
    → let ops = file_journal sha256 json inj unique in
      let load = file_load sha256 json inj stale cfg.base_url in
      let (out, env') =
        async_stream_exit sha256 s int_of_text int_of_float ops cfg load dir server failed r fresh
          awaits env in
      (env'.context ≡ none)
      × (env'.beating ≡ false)
      × (env'.process ≡ out.process)
      × IsLeft sha256 s int_of_text int_of_float ops cfg load dir server failed r fresh awaits m
          env.process out
async_stream_exit_settles sha256 json inj unique stale s int_of_text int_of_float cfg dir server
      failed r fresh awaits m env on named accepted =
    exit-settled sha256 s int_of_text int_of_float (file_journal sha256 json inj unique) cfg
      (file_load sha256 json inj stale cfg.base_url) dir server failed r fresh awaits m env
      (file_load-keeps sha256 json inj unique stale cfg.base_url) on named accepted
