-- ===== src/Models/Requests/Valid.antt =====
-- Entries that keep a dictionary a valid request.
use cycles_client_python.Prelude.{◌≡◌, refl, String, true, List, [], ◌∷◌, some, eq_iff, arith}
use cycles_client_python.Json.{Json, Fields, end, field, get, has_key, set}
use cycles_client_python.Json.Laws.{get-set}
use cycles_client_python.Models.Requests.{Rule, accepts_entry, accepts_all, has_required, is_valid}

has_key-set :
    (n k : String) (v : Json) (d : Fields) → has_key n d ≡ true → has_key n (set k v d) ≡ true
unfolding has_key
has_key-set n k v d there = ground (arith, get-set k n v d)

accepts_all-set :
    (rs : List Rule) (k : String) (v : Json) (d : Fields)
    → accepts_entry rs k v ≡ true
    → accepts_all rs d ≡ true
    → accepts_all rs (set k v d) ≡ true
unfolding accepts_all set
accepts_all-set rs k v end good all = ground arith
accepts_all-set rs k v (field j w d) good all =
    ground (arith, eq_iff j k, accepts_all-set rs k v d good)

has_required-set :
    (rs : List Rule) (k : String) (v : Json) (d : Fields)
    → has_required rs d ≡ true
    → has_required rs (set k v d) ≡ true
unfolding has_required
has_required-set [] k v d all = refl
has_required-set (r ∷ rs) k v d all =
    ground (arith, has_key-set r.name k v d, has_required-set rs k v d)

-- Setting a declared field to a value within its limits
pub set-IsValid :
    (rs : List Rule) (k : String) (v : Json) (d : Fields)
    → accepts_entry rs k v ≡ true
    → is_valid rs d ≡ true
    → is_valid rs (set k v d) ≡ true
unfolding is_valid
set-IsValid rs k v d good valid =
    ground (arith, accepts_all-set rs k v d good, has_required-set rs k v d)

-- The entries of a valid request are accepted, and its required ones are there.
pub get-IsAccepted :
    (rs : List Rule) (k : String) (v : Json) (d : Fields)
    → accepts_all rs d ≡ true
    → get k d ≡ some v
    → accepts_entry rs k v ≡ true
unfolding accepts_all get
get-IsAccepted rs k v end all found = cc
get-IsAccepted rs k v (field j w d) all found = ground (arith, eq_iff j k, get-IsAccepted rs k v d)
