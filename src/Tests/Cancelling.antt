-- ===== src/Tests/Cancelling.antt =====
-- Coroutines that are cancelled, and coroutines that are not.
use cycles_client_python.Prelude.{
  ◌≡◌, refl, ℕ, zero, suc, true, false, Option, none, some, List, [], ◌∷◌, ok,
}
use cycles_client_python.Json.{Json, end}
use cycles_client_python.Models.{contains}
use cycles_client_python.Journal.Files.{Dir}
use cycles_client_python.Journal.Record.{PendingCommitRecord}
use cycles_client_python.Journal.Refines.{no_faults, TidyDir}
use cycles_client_python.Retry.Engine.{PendingCommit, World}
use cycles_client_python.Retry.Loop.{End, retry_loop}
use cycles_client_python.Retry.Replay.{set_client}
use cycles_client_python.Retry.Replays.{IsIn}
use cycles_client_python.Retry.Awaiting.{resumes, cancelled_unsent, cancelled_sent}
use cycles_client_python.Retry.Async.{RoundAwaits, TaskEnd, async_retry_loop}
use cycles_client_python.Retry.Async.Cancelled.{IsRunOf, async_retry_loop-IsRunOf}
use cycles_client_python.Lifecycle.Spend.{IsRetryOf}
use cycles_client_python.Lifecycle.Context.{context_of}
use cycles_client_python.Lifecycle.Execute.{execute}
use cycles_client_python.Lifecycle.Async.{async_handle_commit}
use cycles_client_python.Lifecycle.Async.Execute.{
  AsyncEnv, AsyncAction, finished, Awaits, async_run_guarded, async_execute,
}
use cycles_client_python.Lifecycle.Async.Calm.{calm, inside, steady, awaited}
use cycles_client_python.Lifecycle.Async.Agrees.{settled_run, async_execute-agrees}
use cycles_client_python.Lifecycle.Async.Cancelled.{
  IsSettledBy, async_run_guarded_settles, cancelled_commit_restarts,
}
use cycles_client_python.Streaming.Exit.{stream_metrics, stream_exit}
use cycles_client_python.Streaming.Usage.{build_stream_metrics, count_of}
use cycles_client_python.Validation.{text_fits}
use cycles_client_python.Journal.Reload.{file_load}
use cycles_client_python.Streaming.Async.{async_stream_exit}
use cycles_client_python.Streaming.Async.Agrees.{after_exit, async_stream_exit-agrees}
use cycles_client_python.Streaming.Async.Cancelled.{IsLeft, async_stream_exit_settles}
use cycles_client_python.Tests.Fixtures.{
  schemas, memory, Memory, config, pending, commit_body, event_body, journaled_world, down_server,
  expired_server,
}
use cycles_client_python.Tests.Calling.{
  call, draws, context, returns, env, subject, stream, fresh, digest, no_int, stream_m,
}
use cycles_client_python.Tests.Filing.{
  as_is, digest_injective, files, tidy_world, started, loading, able, all_fresh, digest as names,
}

-- Loading reads the record of one reservation.
abbrev listed : Option PendingCommitRecord → List PendingCommitRecord
listed none = []
listed (some e) = e ∷ []

abbrev load : Memory → List PendingCommitRecord × Memory
load j = (listed (j "r1"), j)

-- The task is cancelled while the commit is on its way.
abbrev cut_short : Awaits
cut_short = record { create = λ left. resumes; commit = cancelled_sent; release = cancelled_unsent }

-- A process that still has to replay its files
abbrev tidy_env : AsyncEnv (TidyDir names as_is)
tidy_env = record { process = started tidy_world.journal true; context = none; beating = false }

abbrev reload : TidyDir names as_is → List PendingCommitRecord × TidyDir names as_is
reload = file_load names as_is digest_injective all_fresh config.base_url

abbrev works : AsyncAction (TidyDir names as_is) ℕ
works ctx e =
    (finished (record { result = 7; elapsed = 1500; metrics = none; commit_metadata = none }), e)

async_run_guarded_settles_example :
    let (end_of, env₁) =
      works context (record tidy_env { context = some context; beating = true }) in
    let (outcome, env') =
      async_run_guarded schemas files config reload "/journal" expired_server call draws cut_short
        works context end tidy_env in
    (env'.context ≡ none)
    × (env'.beating ≡ false)
    × IsSettledBy schemas files config reload "/journal" expired_server call draws cut_short context
        end_of env₁.process outcome env'.process
unfolding context_of
async_run_guarded_settles_example =
    async_run_guarded_settles names as_is digest_injective "7.ab" all_fresh schemas config
      "/journal" expired_server call draws cut_short works context end tidy_env refl refl

async_execute-agrees_example :
    async_execute schemas memory config load "/journal" expired_server call subject draws calm
      (awaited returns)
      (inside ("/journal" ∷ []) env)
    ≡ settled_run schemas memory config load "/journal" expired_server
        ("/journal" ∷ [])
        (execute schemas memory config expired_server call subject draws returns env)
async_execute-agrees_example =
    async_execute-agrees schemas memory config load "/journal" expired_server call subject draws
      returns ("/journal" ∷ []) env

accepted : stream_metrics names stream ≡ ok stream_m
unfolding stream_metrics build_stream_metrics count_of text_fits
accepted = refl

async_stream_exit_settles_example :
    let (out, env') =
      async_stream_exit names schemas no_int no_int files config reload "/journal" down_server false
        stream fresh cut_short tidy_env in
    (env'.context ≡ none)
    × (env'.beating ≡ false)
    × (env'.process ≡ out.process)
    × IsLeft names schemas no_int no_int files config reload "/journal" down_server false stream
        fresh cut_short stream_m tidy_env.process out
async_stream_exit_settles_example =
    async_stream_exit_settles names as_is digest_injective "7.ab" all_fresh schemas no_int no_int
      config "/journal" down_server false stream fresh cut_short stream_m tidy_env refl refl
      accepted

async_stream_exit-agrees_example :
    async_stream_exit digest schemas no_int no_int memory config load "/journal" down_server false
      stream fresh calm
      (inside [] env)
    ≡ after_exit digest schemas no_int no_int memory config load "/journal" down_server [] (
        stream_exit digest schemas no_int no_int memory config down_server false stream fresh
          env.world)
async_stream_exit-agrees_example =
    async_stream_exit-agrees digest schemas no_int no_int memory config load "/journal" down_server
      false stream fresh [] env

-- A task that is cancelled in the sleep of its last rounds.
abbrev sleepless : ℕ → RoundAwaits
sleepless zero = record { asleep = true; commit = resumes; event = resumes }
sleepless (suc n) = record { asleep = false; commit = resumes; event = cancelled_sent }

async_retry_loop-IsRunOf_example :
    (r : End × PendingCommit × World Memory) × (x : TaskEnd × PendingCommit × World Memory)
    × (retry_loop schemas memory config expired_server 7 pending journaled_world ≡ some r)
    × (async_retry_loop schemas memory config expired_server 7 sleepless pending journaled_world
        ≡ some x)
    × IsRunOf schemas memory config expired_server "r1" r x
async_retry_loop-IsRunOf_example =
    async_retry_loop-IsRunOf schemas memory config expired_server sleepless pending journaled_world
      refl refl

-- Loading in the process whose task is cancelled
abbrev tidy_load : TidyDir names as_is → List PendingCommitRecord × TidyDir names as_is
tidy_load j = ([], j)

-- The files of a process that ends after its commit was cancelled.
abbrev cut_off : Dir Json
cut_off =
    (async_handle_commit schemas files config tidy_load "/journal" down_server cancelled_unsent "r1"
      commit_body event_body 0 (steady [] tidy_world)).1.world.journal.0

cancelled_commit_restarts_example :
    let t' = set_client loading config "/journal" 0 (started cut_off false) in
    let p' =
      (async_handle_commit schemas files config tidy_load "/journal" down_server cancelled_unsent
        "r1" commit_body event_body 0
        (steady [] tidy_world)).1 in
    (p'.world.spawned ≡ [])
    × ((q : PendingCommit) × IsRetryOf schemas files config down_server "r1" commit_body event_body
          q
        × IsIn q t'.world.spawned)
unfolding contains
cancelled_commit_restarts_example =
    cancelled_commit_restarts names as_is no_faults digest_injective "7.ab" schemas config config
      tidy_load "/journal" down_server cancelled_unsent "r1" commit_body event_body 0 0
      (steady [] tidy_world) all_fresh (started cut_off false) refl refl refl refl refl refl refl
      able
