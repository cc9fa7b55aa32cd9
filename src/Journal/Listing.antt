-- ===== src/Journal/Listing.antt =====
-- Which files `load_pending` lists, and what reaping, renaming and removing others leaves of a file.
use Prim.Native.String
use cycles_client_python.Prelude.{
  ◌≡◌, refl, sym, ◌∙◌, ap, inl, inr, String, Bool, true, false, ◌||◌, List, [], ◌∷◌, str_eq, eq_iff,
  arith, Bool-cases, Option-cases, is_some,
}
use cycles_client_python.Models.{contains}
use cycles_client_python.Journal.Files.{
  Dir, read, unlink, names, stem_of, read-unlink, read-rename, rename-absent,
}
use cycles_client_python.Journal.Names.{tmp-json, stem_of-append}
use cycles_client_python.Journal.Store.{
  Faults, corrupt_name, insert_name, sort_names, with_suffix, moved, unlinked, reap,
}

pub contains-names :
    {Text : Type 0} (d : Dir Text) (n : String)
    → is_some (read n d) ≡ true
    → contains (names d) n ≡ true
unfolding contains names read
contains-names [] n h = cc
contains-names ((m, t) ∷ d) n h = ground (arith, contains-names d n)

pub contains-with_suffix :
    (suffix : String) (ns : List String) (n : String)
    → is_some (stem_of suffix n) ≡ true
    → contains ns n ≡ true
    → contains (with_suffix suffix ns) n ≡ true
unfolding contains with_suffix
contains-with_suffix suffix [] n e h = cc
contains-with_suffix suffix (m ∷ ns) n e h =
    ground (arith, contains-with_suffix suffix ns n e, eq_iff m n)

contains-insert_name :
    (m : String) (ns : List String) (n : String)
    → contains (insert_name m ns) n ≡ (str_eq m n || contains ns n)
unfolding contains insert_name
contains-insert_name m [] n = refl
contains-insert_name m (k ∷ ns) n = ground (arith, contains-insert_name m ns n)

pub contains-sort_names :
    (ns : List String) (n : String) → contains (sort_names ns) n ≡ contains ns n
unfolding contains sort_names
contains-sort_names [] n = refl
contains-sort_names (m ∷ ns) n =
    contains-insert_name m (sort_names ns) n ∙ ap (λ b. str_eq m n || b) (contains-sort_names ns n)

-- Only files that end with the suffix are listed.
pub with_suffix_ends :
    (suffix : String) (ns : List String) (n : String)
    → contains (with_suffix suffix ns) n ≡ true
    → is_some (stem_of suffix n) ≡ true
unfolding contains with_suffix
with_suffix_ends suffix [] n h = cc
with_suffix_ends suffix (m ∷ ns) n h = ground (arith, with_suffix_ends suffix ns n, eq_iff m n)

pub read-reap :
    {Text : Type 0} (stale : String → Bool) (ns : List String) (d : Dir Text) (n : String)
    → contains ns n ≡ false
    → read n (reap stale ns d) ≡ read n d
unfolding reap contains
read-reap stale [] d n out = refl
read-reap stale (m ∷ ns) d n out =
    ground (arith, read-reap stale ns d n, read-reap stale ns (unlink m d) n, read-unlink n m d)

pub read-moved :
    {Text : Type 0} (f : Faults) (from to n : String) (d : Dir Text)
    → str_eq to n ≡ false
    → str_eq from n ≡ false
    → read n (moved f from to d) ≡ read n d
unfolding moved
read-moved f from to n d away gone = elim (Bool-cases (f.stuck from)) [
  | inl stuck ↦ rw stuck
  | inr free ↦ elim (Option-cases (read from d)) [
    | inl none_there ↦ rw (free, rename-absent from to d none_there)
    | inr (t, there) ↦ rw (free, read-rename n from to d t there, away, gone)
  ]
]

pub read-unlinked :
    {Text : Type 0} (f : Faults) (k n : String) (d : Dir Text)
    → str_eq k n ≡ false
    → read n (unlinked f k d) ≡ read n d
unfolding unlinked
read-unlinked f k n d away = ground (arith, read-unlink n k d)

pub corrupt_name-ends :
    (name : String) → (s : String) × (corrupt_name name ≡ String.◌++◌ s ".corrupt")
unfolding corrupt_name
corrupt_name-ends name = elim (Option-cases (stem_of ".json" name)) [
  | inl bad ↦ (name, rw (bad, corrupt_name))
  | inr (stem, good) ↦ elim (Bool-cases (str_eq stem "")) [
    | inl e ↦ (".json", rw (good, corrupt_name, e))
    | inr e ↦ (stem, rw (good, corrupt_name, e))
  ]
]

-- A file that ends like a record is never listed as temporary.
pub json_not_tmp :
    (ns : List String) (n s : String)
    → n ≡ String.◌++◌ s ".json"
    → contains (with_suffix ".tmp" ns) n ≡ false
json_not_tmp ns n s is = elim (Bool-cases (contains (with_suffix ".tmp" ns) n)) [
  | inr out ↦ out
  | inl listed ↦
      let ends = with_suffix_ends ".tmp" ns n listed in
      elim (Option-cases (stem_of ".tmp" n)) [
        | inl bad ↦ cc (rw bad at ends)
        | inr (x, good) ↦ absurd (tmp-json x s (sym (stem_of-append ".tmp" n x good) ∙ is))
      ]
]
