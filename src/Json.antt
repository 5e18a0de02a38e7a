-- ===== src/Json.antt =====
-- What `json.loads` and Python give the program as values: a stored artifact is one of these.
use skodun.Prelude.{
  Bool, true, false, Option, none, some, if◌then◌else◌, not, is_empty, List, [], ◌∷◌, ◌==◌,
}
use skodun.Prelude.Text.{Text, text_eq}
use skodun.Prelude.Int.{ℤ, pos, negsuc}

-- A float carries whether it is zero, and its printed form: no code here computes with one.
mutual
  pub data Json : Type 0 where
    null : Json
    bool : Bool → Json
    int : ℤ → Json
    float : Bool → Text → Json
    str : Text → Json
    arr : Items → Json
    obj : Fields → Json

  pub data Items : Type 0 where
    nil : Items
    cons : Json → Items → Items

  pub data Fields : Type 0 where
    end : Fields
    field : Text → Json → Fields → Fields

-- `d.get(key)`, with `none` for a missing key.
unfoldable pub get : Text → Fields → Option Json
get key end = none
get key (field k v fs) = if text_eq k key then some v else get key fs

abbrev pub items : Items → List Json
items nil = []
items (cons v vs) = v ∷ items vs

-- `d.get(key)`, with Python's `None` for a missing key.
abbrev pub or_null : Option Json → Json
or_null none = null
or_null (some v) = v

unfoldable pub get_or_null : Text → Fields → Json
unfolding get
get_or_null key fs = or_null (get key fs)

-- `d.get(key, default)`
abbrev default_to : Json → Option Json → Json
default_to d none = d
default_to d (some v) = v

unfoldable pub get_default : Text → Json → Fields → Json
unfolding get
get_default key d fs = default_to d (get key fs)

-- `bool(value)`
abbrev pub truthy : Json → Bool
truthy null = false
truthy (bool b) = b
truthy (int (pos n)) = not (n == 0)
truthy (int (negsuc n)) = true
truthy (float zero? repr) = not zero?
truthy (str s) = not (is_empty s)
truthy (arr nil) = false
truthy (arr (cons v vs)) = true
truthy (obj end) = false
truthy (obj (field k v fs)) = true

-- `value is True`
abbrev pub is_true : Json → Bool
is_true (bool true) = true
is_true _ = false

abbrev pub is_str : Json → Bool
is_str (str s) = true
is_str _ = false

abbrev pub is_bool : Json → Bool
is_bool (bool b) = true
is_bool _ = false

abbrev pub is_obj : Json → Bool
is_obj (obj fs) = true
is_obj _ = false
