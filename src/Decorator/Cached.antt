-- ===== src/Decorator/Cached.antt =====
-- A decorated function keeps the lifecycle of its first call that found a client.
use cycles_client_python.Prelude.{
  ◌≡◌, refl, ap, ◌∙◌, Bool, arith, inl, inr, ℕ, false, Option, none, some, Option-cases, Result,
  Result-cases, ok, err,
}
use cycles_client_python.Config.{CyclesConfig}
use cycles_client_python.Response.{Schemas, Raised}
use cycles_client_python.Lifecycle.Context.{Draws, GuardedAction}
use cycles_client_python.Decorator.{ApiClient, Defaults, lifecycle_client}
use cycles_client_python.Decorator.Arguments.{CyclesArgs}
use cycles_client_python.Decorator.Calls.{
  Backend, Calls, obtain, on_lifecycle, SyncEnv, set_up, sync_wrapper,
}

module _ {F E : Type 0} (explicit : Option (ApiClient (CyclesConfig F))) where
  -- What a call keeps of the lifecycle that it found
  obtain-cached :
      (is_async : Bool) (set_up : CyclesConfig F → E → E) (st : Calls F E)
      (c : ApiClient (CyclesConfig F))
      → (obtain explicit is_async set_up st).0 ≡ ok c
      → (obtain explicit is_async set_up st).1.cached ≡ some c
  unfolding obtain
  obtain-cached is_async set_up st c got = elim (Option-cases st.cached) [
    | inr (k, e) ↦ ground (arith, e, got)
    | inl e ↦ elim (Result-cases (lifecycle_client explicit is_async none st.defaults).0) [
      | inl (k, f) ↦ ground (arith, e, f, got)
      | inr (x, f) ↦ ground (arith, e, f, got)
    ]
  ]

  obtain-again :
      (is_async : Bool) (set_up : CyclesConfig F → E → E) (st : Calls F E)
      (c : ApiClient (CyclesConfig F))
      → st.cached ≡ some c
      → obtain explicit is_async set_up st ≡ (ok c, st)
  unfolding obtain
  obtain-again is_async set_up st c e = ground (arith, e)

module _ {F J : Type 0} (back : Backend F J) (s : Schemas) {A R : Type 0}
    (explicit : Option (ApiClient (CyclesConfig F))) (args : CyclesArgs A R) where
  on_lifecycle-cached :
      (draws : Draws) (a : A) (action : A → GuardedAction J R)
      (found : Result Raised (ApiClient (CyclesConfig F))) (st : Calls F (SyncEnv J))
      → (on_lifecycle back s explicit args draws a action found st).1.cached ≡ st.cached
  unfolding on_lifecycle
  on_lifecycle-cached draws a action (ok c) st = refl
  on_lifecycle-cached draws a action (err e) st = refl

  kept_cached :
      (wall : ℕ) (draws : Draws) (a : A) (action : A → GuardedAction J R) (st : Calls F (SyncEnv J))
      → (sync_wrapper back s explicit args wall draws a action st).1.cached
        ≡ (obtain explicit false (set_up back wall) st).1.cached
  unfolding sync_wrapper
  kept_cached wall draws a action st =
      let (found, st') = obtain explicit false (set_up back wall) st in
      on_lifecycle-cached draws a action found st'

  on_cached :
      (wall : ℕ) (draws : Draws) (a : A) (action : A → GuardedAction J R) (st : Calls F (SyncEnv J))
      (c : ApiClient (CyclesConfig F))
      → st.cached ≡ some c
      → sync_wrapper back s explicit args wall draws a action st
        ≡ on_lifecycle back s explicit args draws a action (ok c) st
  unfolding sync_wrapper
  on_cached wall draws a action st c e =
      ap (λ (found, st'). on_lifecycle back s explicit args draws a action found st')
        (obtain-again explicit false (set_up back wall) st c e)

  -- Once a call of a decorated function has found a client, every later call runs on that client's
  -- lifecycle, whatever was set as the default in between and whatever the environment is then: it
  -- makes no other engine, replays no journal and claims no directory.
  pub sync_wrapper-keeps :
      (wall later : ℕ) (draws again : Draws) (a b : A) (action : A → GuardedAction J R)
      (st : Calls F (SyncEnv J)) (c : ApiClient (CyclesConfig F))
      (defaults : Defaults (CyclesConfig F)) (env : SyncEnv J)
      → (obtain explicit false (set_up back wall) st).0 ≡ ok c
      → let st₁ = record (sync_wrapper back s explicit args wall draws a action st).1 {
        defaults = defaults;
        env = env;
      } in
        sync_wrapper back s explicit args later again b action st₁
        ≡ on_lifecycle back s explicit args again b action (ok c) st₁
  sync_wrapper-keeps wall later draws again a b action st c defaults env got =
      on_cached later again b action _ c (
        kept_cached wall draws a action st
        ∙ obtain-cached explicit false (set_up back wall) st c got)
