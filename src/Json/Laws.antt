-- ===== src/Json/Laws.antt =====
-- The dictionary laws.
use cycles_client_python.Prelude.{◌≡◌, refl, String, some, arith, str_eq, eq_iff, if◌then◌else◌}
use cycles_client_python.Json.{Json, Fields, end, field, get, set}

-- Reading a key after a write.
pub get-set :
    (k j : String) (v : Json) (d : Fields)
    → get j (set k v d) ≡ (if str_eq k j then some v else get j d)
unfolding get set
get-set k j v end = refl
get-set k j v (field i w d) = ground (arith, eq_iff k j, eq_iff i k, eq_iff i j, get-set k j v d)
