-- ===== src/Config.antt =====
-- runcycles/config.py: `CyclesConfig` and `CyclesConfig.from_env`. The environment is any function from
-- a name to a value. `float`, `int` and `str.lower` are Python's: a float is a value of any type, and
-- the three functions are arguments.
use Prim.Native.String.{◌++◌}
use cycles_client_python.Prelude.{
  ◌≡◌, refl, inl, inr, ℤ, String, Bool, true, false, not, Option, none, some, str_eq, Result, ok,
  ◌>>=◌, ◌>>◌, guard, arith, Option-cases, eq_refl, ◌∙◌, ap, sym,
}
use cycles_client_python.Response.{Raised, value_error}

pub record CyclesConfig (Float : Type 0) : Type 0 where
  pub base_url : String
  pub api_key : String
  pub tenant : Option String
  pub workspace : Option String
  pub app : Option String
  pub workflow : Option String
  pub agent : Option String
  pub toolset : Option String
  pub connect_timeout : Float
  pub read_timeout : Float
  pub retry_enabled : Bool
  pub retry_max_attempts : ℤ
  pub retry_initial_delay : Float
  pub retry_multiplier : Float
  pub retry_max_delay : Float
  pub retry_flush_timeout : Float
  pub journal_enabled : Bool
  pub journal_dir : Option String

abbrev pub Environ : Type 0
Environ = String → Option String

-- `os.environ.get(name, default)`
unfoldable pub env_or : Environ → String → String → String
env_or env name default = elim (env name) [ none ↦ default | some v ↦ v ]

guarded :
    {A : Type 0} (b c : Bool) (m : Result Raised A) (x : A)
    → (guard b value_error >> (guard c value_error >> m)) ≡ ok x
    → (b ≡ true) × (c ≡ true) × (m ≡ ok x)
guarded true true m x h = (refl, refl, h)
guarded true false m x h = ground (arith, h)
guarded false c m x h = ground (arith, h)

or_empty : Option String → String
or_empty none = ""
or_empty (some v) = v

-- A value that is not empty is there.
there_in :
    (o : Option String) (text : String)
    → text ≡ or_empty o
    → not (str_eq (or_empty o) "") ≡ true
    → (o ≡ some text) × (str_eq text "" ≡ false)
unfolding or_empty
there_in none text is full = ground (arith, full, eq_refl "")
there_in (some v) text is full = (ap some (sym is), rw is (ground (arith, full)))

held :
    (env : Environ) (name text : String)
    → text ≡ env_or env name ""
    → not (str_eq (env_or env name "") "") ≡ true
    → (env name ≡ some text) × (str_eq text "" ≡ false)
unfolding env_or or_empty
held env name text is full = there_in (env name) text is full

flagged :
    (lower : String → String) (env : Environ) (name : String)
    → lower "true" ≡ "true"
    → str_eq (lower (env_or env name "true")) "true"
      ≡ (elim (env name) [ none ↦ true | some v ↦ str_eq (lower v) "true" ])
unfolding env_or
flagged lower env name low = elim (Option-cases (env name)) [
  | inl missing ↦ rw (missing, env_or, low) refl
  | inr (v, there) ↦ rw (there, env_or) refl
]

module _ {Float : Type 0} (float_of : String → Result Raised Float)
    (int_of : String → Result Raised ℤ) (lower : String → String) where
  -- `... .lower() == "true"`
  unfoldable pub flag : Environ → String → Bool
  unfolding env_or
  flag env name = str_eq (lower (env_or env name "true")) "true"

  unfoldable pub float_at : Environ → String → String → Result Raised Float
  unfolding env_or
  float_at env name default = float_of (env_or env name default)

  -- The construction, once both required variables are there.
  unfoldable pub read_env : String → Environ → Result Raised (CyclesConfig Float)
  unfolding flag float_at env_or
  read_env prefix env = float_at env (prefix ++ "CONNECT_TIMEOUT") "2.0" >>= λ connect.
      float_at env (prefix ++ "READ_TIMEOUT") "5.0" >>= λ read.
      int_of (env_or env (prefix ++ "RETRY_MAX_ATTEMPTS") "5") >>= λ attempts.
      float_at env (prefix ++ "RETRY_INITIAL_DELAY") "0.5" >>= λ initial.
      float_at env (prefix ++ "RETRY_MULTIPLIER") "2.0" >>= λ multiplier.
      float_at env (prefix ++ "RETRY_MAX_DELAY") "30.0" >>= λ longest.
      float_at env (prefix ++ "RETRY_FLUSH_TIMEOUT") "10.0" >>= λ flush. ok (record {
        base_url = env_or env (prefix ++ "BASE_URL") "";
        api_key = env_or env (prefix ++ "API_KEY") "";
        tenant = env (prefix ++ "TENANT");
        workspace = env (prefix ++ "WORKSPACE");
        app = env (prefix ++ "APP");
        workflow = env (prefix ++ "WORKFLOW");
        agent = env (prefix ++ "AGENT");
        toolset = env (prefix ++ "TOOLSET");
        connect_timeout = connect;
        read_timeout = read;
        retry_enabled = flag env (prefix ++ "RETRY_ENABLED");
        retry_max_attempts = attempts;
        retry_initial_delay = initial;
        retry_multiplier = multiplier;
        retry_max_delay = longest;
        retry_flush_timeout = flush;
        journal_enabled = flag env (prefix ++ "JOURNAL_ENABLED");
        journal_dir = env (prefix ++ "JOURNAL_DIR");
      })

  -- `CyclesConfig.from_env`
  unfoldable pub from_env : String → Environ → Result Raised (CyclesConfig Float)
  unfolding read_env env_or
  from_env prefix env =
      guard (not (str_eq (env_or env (prefix ++ "BASE_URL") "") "")) value_error
      >> (guard (not (str_eq (env_or env (prefix ++ "API_KEY") "") "")) value_error
          >> read_env prefix env)

  read_env-ok :
      (prefix : String) (env : Environ) (c : CyclesConfig Float)
      → read_env prefix env ≡ ok c
      → (c.base_url ≡ env_or env (prefix ++ "BASE_URL") "")
        × (c.api_key ≡ env_or env (prefix ++ "API_KEY") "")
        × (c.tenant ≡ env (prefix ++ "TENANT"))
        × (c.journal_dir ≡ env (prefix ++ "JOURNAL_DIR"))
        × (c.retry_enabled ≡ flag env (prefix ++ "RETRY_ENABLED"))
        × (c.journal_enabled ≡ flag env (prefix ++ "JOURNAL_ENABLED"))
  unfolding read_env
  read_env-ok prefix env c h = ground (arith, h)

  -- A configuration is read only if the URL and the key of the server are there and not empty; it then
  -- has them as they are there, the tenant and the journal's
  -- directory as their variables, or none, and the retries and the
  -- journal disabled exactly if their variable is there and is no spelling of "true".
  pub from_env-ok :
      (prefix : String) (env : Environ) (c : CyclesConfig Float)
      → lower "true" ≡ "true"
      → from_env prefix env ≡ ok c
      → (env (prefix ++ "BASE_URL") ≡ some c.base_url)
        × (env (prefix ++ "API_KEY") ≡ some c.api_key)
        × (str_eq c.base_url "" ≡ false)
        × (str_eq c.api_key "" ≡ false)
        × (c.tenant ≡ env (prefix ++ "TENANT"))
        × (c.journal_dir ≡ env (prefix ++ "JOURNAL_DIR"))
        × (c.retry_enabled ≡ (elim (env (prefix ++ "RETRY_ENABLED")) [
          | none ↦ true
          | some v ↦ str_eq (lower v) "true"
        ]))
        × (c.journal_enabled ≡ (elim (env (prefix ++ "JOURNAL_ENABLED")) [
          | none ↦ true
          | some v ↦ str_eq (lower v) "true"
        ]))
  unfolding from_env flag
  from_env-ok prefix env c low h =
      let (url, key, m) = guarded _ _ (read_env prefix env) c h in
      let (is_url, is_key, tenant, directory, retries, journal) = read_env-ok prefix env c m in
      let (there, full) = held env (prefix ++ "BASE_URL") c.base_url is_url url in
      let (keyed, filled) = held env (prefix ++ "API_KEY") c.api_key is_key key in
      (
        there,
        keyed,
        full,
        filled,
        tenant,
        directory,
        retries ∙ flagged lower env (prefix ++ "RETRY_ENABLED") low,
        journal ∙ flagged lower env (prefix ++ "JOURNAL_ENABLED") low,
      )
