-- ===== src/Journal/Files.antt =====
-- The files of one directory, by name: what runcycles/journal.py asks of `pathlib`.

use cycles_client_python.Prelude.{
  refl, ◌∙◌, ap, eq_iff, ◌≡◌, String, Option, none, some, List, [], ◌∷◌, str_eq, if◌then◌else◌,
  arith,
}

-- A directory, or the contents of its files, at most one of each name.
abbrev pub Dir : Type 0 → Type 0
Dir Text = List (String × Text)

-- `s.removesuffix(suffix)` if `s` ends with it
unfoldable pub stem_of : String → String → Option String
stem_of suffix String.[] = if str_eq String.[] suffix then some "" else none
stem_of suffix (String.◌∷◌ c s) =
    if str_eq (String.◌∷◌ c s) suffix
    then some ""
    else elim (stem_of suffix s) [ none ↦ none | some t ↦ some (String.◌∷◌ c t) ]

module _ {Text : Type 0} where
  unfoldable pub read : String → Dir Text → Option Text
  read n [] = none
  read n ((m, t) ∷ d) = if str_eq m n then some t else read n d

  -- `write_text`
  unfoldable pub write : String → Text → Dir Text → Dir Text
  write n t [] = (n, t) ∷ []
  write n t ((m, u) ∷ d) = if str_eq m n then (m, t) ∷ d else (m, u) ∷ write n t d

  -- `unlink(missing_ok=True)`
  unfoldable pub unlink : String → Dir Text → Dir Text
  unlink n [] = []
  unlink n ((m, u) ∷ d) = let rest = unlink n d in if str_eq m n then rest else (m, u) ∷ rest

  -- `path.replace(target)`, which raises and does nothing if there is no such file
  unfoldable pub rename : String → String → Dir Text → Dir Text
  rename from to d = elim (read from d) [ none ↦ d | some t ↦ write to t (unlink from d) ]

  unfoldable pub names : Dir Text → List String
  names [] = []
  names ((n, t) ∷ d) = n ∷ names d

  pub read-write :
      (j k : String) (t : Text) (d : Dir Text)
      → read j (write k t d) ≡ (if str_eq k j then some t else read j d)
  unfolding read write
  read-write j k t [] = refl
  read-write j k t ((m, u) ∷ d) =
      ground (arith, read-write j k t d, eq_iff m k, eq_iff k j, eq_iff m j)

  pub read-unlink :
      (j k : String) (d : Dir Text) → read j (unlink k d) ≡ (if str_eq k j then none else read j d)
  unfolding read unlink
  read-unlink j k [] = ground arith
  read-unlink j k ((m, u) ∷ d) =
      ground (arith, read-unlink j k d, eq_iff m k, eq_iff k j, eq_iff m j)

  pub read-rename :
      (j from to : String) (d : Dir Text) (t : Text)
      → read from d ≡ some t
      → read j (rename from to d)
        ≡ (if str_eq to j then some t else if str_eq from j then none else read j d)
  unfolding rename
  read-rename j from to d t h =
      rw (h, rename)
        (read-write j to t (unlink from d)
          ∙ ap (λ x. if str_eq to j then some t else x) (read-unlink j from d))

  pub rename-absent : (from to : String) (d : Dir Text) → read from d ≡ none → rename from to d ≡ d
  unfolding rename
  rename-absent from to d h = rw (h, rename)
