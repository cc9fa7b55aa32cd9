-- ===== src/Decorator.antt =====
-- runcycles/decorator.py: the client that a decorated function uses, and the module's defaults.
pub mod Arguments
pub mod Calls
pub mod Resolved
pub mod Cached
use cycles_client_python.Prelude.{
  ◌≡◌, refl, Bool, true, false, not, Option, if◌then◌else◌, none, some, Result, ok, err, arith,
}
use cycles_client_python.Response.{Raised, value_error, type_error}

-- `CyclesClient` or `AsyncCyclesClient`, with its configuration
pub record ApiClient (Config : Type 0) : Type 0 where
  pub is_async : Bool
  pub config : Config

-- `isinstance` of a client, as the kind that is needed
same_kind : Bool → Bool → Bool
same_kind true b = b
same_kind false b = not b

-- `_default_client` and `_default_config`
pub record Defaults (Config : Type 0) : Type 0 where
  pub client : Option (ApiClient Config)
  pub config : Option Config

module _ {Config : Type 0} where
  unfoldable pub set_default_client : ApiClient Config → Defaults Config → Defaults Config
  set_default_client c d = record d { client = some c }

  unfoldable pub set_default_config : Config → Defaults Config → Defaults Config
  set_default_config k d = record d { config = some k }

  -- A default client is made once, of the kind that the function at hand needs.
  unfoldable pub default_client :
      Bool → Defaults Config → Result Raised (ApiClient Config) × Defaults Config
  default_client is_async d = elim d.client [
    | some c ↦ (ok c, d)
    | none ↦ elim d.config [
      | some k ↦
          let c : ApiClient Config = record { is_async = is_async; config = k } in
          (ok c, record d { client = some c })
      | none ↦ (err value_error, d)
    ]
  ]

  -- `_get_effective_client`
  unfoldable pub get_effective_client :
      Option (ApiClient Config)
      → Bool
      → Defaults Config
      → Result Raised (ApiClient Config) × Defaults Config
  unfolding default_client
  get_effective_client (some c) is_async d = (ok c, d)
  get_effective_client none is_async d = default_client is_async d

  -- The client must be of the kind that the function needs.
  unfoldable pub bind_client :
      Bool → Result Raised (ApiClient Config) → Result Raised (ApiClient Config)
  unfolding same_kind
  bind_client is_async (err e) = err e
  bind_client is_async (ok c) = if same_kind c.is_async is_async then ok c else err type_error

  -- The head of a wrapper: the client of the function's lifecycle, which is kept from its first
  -- successful call on.
  unfoldable pub lifecycle_client :
      Option (ApiClient Config)
      → Bool
      → Option (ApiClient Config)
      → Defaults Config
      → Result Raised (ApiClient Config) × Defaults Config
  unfolding bind_client get_effective_client
  lifecycle_client explicit is_async (some cached) d = (ok cached, d)
  lifecycle_client explicit is_async none d =
      let (found, d') = get_effective_client explicit is_async d in (bind_client is_async found, d')

  -- Once a function without a client of its own has got one, every such function gets that client,
  -- whether or not it is of the kind that it needs, and whatever default configuration is set later.
  pub default_client_stays :
      (is_async later : Bool) (k : Config) (d : Defaults Config) (c : ApiClient Config)
      → (get_effective_client none is_async d).0 ≡ ok c
      → let d' = (get_effective_client none is_async d).1 in
        (get_effective_client none later (set_default_config k d')).0 ≡ ok c
  unfolding get_effective_client default_client set_default_config
  default_client_stays is_async later k d c got = ground (arith, got)

  -- With a default configuration and no default client, after the first call of a function of one kind
  -- without a client of its own, the first call of a function of the other kind raises a `TypeError`,
  -- and so does each later one.
  pub mixed_kinds_fail :
      (is_async : Bool) (k : Config)
      → let d : Defaults Config = record { client = none; config = some k } in
        let d' = (lifecycle_client none is_async none d).1 in
        let d'' = (lifecycle_client none (not is_async) none d').1 in
        ((lifecycle_client none (not is_async) none d').0 ≡ err type_error) × (d'' ≡ d')
  unfolding lifecycle_client get_effective_client default_client bind_client same_kind
  mixed_kinds_fail true k = (refl, refl)
  mixed_kinds_fail false k = (refl, refl)
