-- ===== src/Json.antt =====
-- JSON values as Python holds them after `json.loads`, and the dictionaries of request bodies.
pub mod Laws
use cycles_client_python.Prelude.{
  ℤ, String, Bool, true, false, Option, none, some, str_eq, if◌then◌else◌, is_some, not, is_nat,
  ◌||◌,
}

mutual
  -- A float is kept by its literal: the client only asks whether a value is one.
  pub data Json : Type 0 where
    null : Json
    bool : Bool → Json
    int : ℤ → Json
    float : String → Json
    str : String → Json
    arr : Items → Json
    obj : Fields → Json

  pub data Items : Type 0 where
    nil : Items
    cons : Json → Items → Items

  -- A dict[str, Any], in insertion order.
  pub data Fields : Type 0 where
    end : Fields
    field : String → Json → Fields → Fields

-- d.get(k)
unfoldable pub get : String → Fields → Option Json
get k end = none
get k (field j v d) = if str_eq j k then some v else get k d

-- `k in d`
unfoldable pub has_key : String → Fields → Bool
unfolding get
has_key k d = is_some (get k d)

-- d[k] = v
unfoldable pub set : String → Json → Fields → Fields
set k v end = field k v end
set k v (field j w d) = if str_eq j k then field j v d else field j w (set k v d)

-- Whether a dict is falsy.
abbrev pub is_empty : Fields → Bool
is_empty end = true
is_empty (field k v d) = false

-- `bool(v)`
unfoldable pub is_truthy : Json → Bool
is_truthy null = false
is_truthy (bool b) = b
is_truthy (int z) = not (is_nat z 0)
is_truthy (float x) = not (str_eq x "0.0" || str_eq x "-0.0")
is_truthy (str s) = not (str_eq s "")
is_truthy (arr nil) = false
is_truthy (arr (cons v xs)) = true
is_truthy (obj d) = not (is_empty d)

-- JSON's null is None.
unfoldable pub non_null : Option Json → Option Json
non_null (some null) = none
non_null v = v
