-- ===== src/Tests/Settling.antt =====
-- The first commit of a spend: on an expired reservation and on a server that is down.
use cycles_client_python.Prelude.{◌≡◌, refl, ◌⊎◌, true, false, not, ◌∷◌, is_some}
use cycles_client_python.Retry.Engine.{PendingCommit}
use cycles_client_python.Lifecycle.Commit.{handle_commit}
use cycles_client_python.Lifecycle.Spend.{
  settled, commit_reply, committed, IsRetryOf, handle_commit-durable, handle_commit_retries,
}
use cycles_client_python.Tests.Fixtures.{
  schemas, memory, config, commit_body, event_body, empty_world, expired_server, down_server,
}

handle_commit-durable_example :
    is_some (
      memory.find
        (handle_commit schemas memory config expired_server "r1" commit_body event_body 0
          empty_world).journal
        "r1")
    ≡ not (
        settled schemas
          (commit_reply schemas memory config expired_server "r1" commit_body empty_world))
handle_commit-durable_example =
    handle_commit-durable schemas memory config expired_server "r1" commit_body event_body 0
      empty_world refl

handle_commit_retries_example :
    let w' =
      handle_commit schemas memory config down_server "r1" commit_body event_body 0 empty_world in
    let reply = commit_reply schemas memory config down_server "r1" commit_body empty_world in
    (w'.exchanges
      ≡ committed schemas memory config down_server "r1" commit_body empty_world.exchanges)
    × ((settled schemas reply ≡ true) × (w'.spawned ≡ empty_world.spawned)
        ⊎ (settled schemas reply ≡ false)
          × ((p : PendingCommit) × IsRetryOf schemas memory config down_server "r1" commit_body
                event_body p
              × (w'.spawned ≡ p ∷ empty_world.spawned)))
handle_commit_retries_example =
    handle_commit_retries schemas memory config down_server "r1" commit_body event_body 0
      empty_world refl
