-- ===== src/Journal/Identity.antt =====
-- runcycles/journal.py: `auth_fingerprint`, and the directory that `_RetryEngineBase.__init__` of
-- runcycles/retry.py gives to the journal of a client. `path` is the text of Python's `Path` of a text,
-- which drops what does not matter to a path, like a slash at its end. `pbkdf2` is Python's `pbkdf2_hmac` of a
-- principal and a salt, in hexadecimal digits; `home` is `Path.home()`.
use Prim.Native.Char.{code}
use Prim.Native.String.{◌++◌}
use cycles_client_python.Prelude.{
  ◌≡◌, ◌⊎◌, ℕ, zero, suc, String, Bool, true, false, ◌&&◌, not, Option, none, some, List, [], ◌∷◌,
  str_eq, if◌then◌else◌,
}
use cycles_client_python.Prelude.Text.{codes, strip}
use cycles_client_python.Config.{CyclesConfig}

-- `s[:n]`
abbrev front : ℕ → String → String
front zero s = ""
front (suc n) String.[] = ""
front (suc n) (String.◌∷◌ c s) = String.◌∷◌ c (front n s)

abbrev is_empty : List ℕ → Bool
is_empty [] = true
is_empty (c ∷ cs) = false

-- A tenant that is the principal: `tenant and tenant.strip()`
unfoldable pub naming_tenant : Option String → Option String
unfolding strip
naming_tenant none = none
naming_tenant (some t) =
    if not (str_eq t "") && not (is_empty (strip (codes t))) then some t else none

unfoldable pub principal_of : Option String → String → String
principal_of none api_key = "key\n" ++ api_key
principal_of (some t) api_key = "tenant\n" ++ t

-- The directory of a journal, `base / fingerprint`
pub record Place : Type 0 where
  pub base : String
  pub fingerprint : String

module _ (pbkdf2 : String → String → String) where
  unfoldable pub principal_digest : String → String → String
  principal_digest base_url principal =
      front 16 (pbkdf2 principal ("runcycles-commit-journal\n" ++ base_url))

  unfoldable pub auth_fingerprint : String → String → Option String → String
  unfolding principal_digest principal_of naming_tenant
  auth_fingerprint base_url api_key tenant =
      principal_digest base_url (principal_of (naming_tenant tenant) api_key)

unfoldable pub default_journal_dir : String → String
default_journal_dir home = home ++ "/.runcycles/commit-journal"

unfoldable pub base_of : {F : Type 0} → (String → String) → String → CyclesConfig F → String
unfolding default_journal_dir
base_of path home c = elim c.journal_dir [
  | none ↦ default_journal_dir home
  | some d ↦ if str_eq d "" then default_journal_dir home else path d
]

-- `none` without a journal
unfoldable pub journal_place :
    {F : Type 0}
    → (String → String)
    → (String → String → String)
    → String
    → CyclesConfig F
    → Option Place
unfolding auth_fingerprint base_of
journal_place path pbkdf2 home c =
    if c.journal_enabled
    then some (record {
      base = base_of path home c;
      fingerprint = auth_fingerprint pbkdf2 c.base_url c.api_key c.tenant;
    })
    else none

-- The same tenant, or without one the same key
abbrev pub SamePrincipal : {F : Type 0} → CyclesConfig F → CyclesConfig F → Type 0
SamePrincipal c d =
    ((t : String) × (naming_tenant c.tenant ≡ some t) × (naming_tenant d.tenant ≡ some t))
    ⊎ ((naming_tenant c.tenant ≡ none) × (naming_tenant d.tenant ≡ none) × (c.api_key ≡ d.api_key))

first_code : String → ℕ
first_code String.[] = 0
first_code (String.◌∷◌ c s) = code c

-- The parts of a directory
base_in : Option Place → String
base_in none = ""
base_in (some p) = p.base

fingerprint_in : Option Place → String
fingerprint_in none = ""
fingerprint_in (some p) = p.fingerprint
