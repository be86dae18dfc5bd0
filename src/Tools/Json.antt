-- ===== src/Tools/Json.antt =====
-- The Go values that internal/tools/schema_validation.go walks over: decoded JSON, and lists of
-- strings. A number is a text that stands for a float64; only parameters look at it.
use sandbar.Base.{
  ℕ, suc, Str, str_eq, if◌then◌else◌, Bool, true, false, Option, none, some, List, [], ◌∷◌,
}

mutual
  pub data Json : Type 0 where
    null : Json
    boolean : Bool → Json
    number : Str → Json
    string : Str → Json
    strings : List Str → Json
    array : Items → Json
    object : Fields → Json

  pub data Items : Type 0 where
    nil : Items
    cons : Json → Items → Items

  pub data Fields : Type 0 where
    end : Fields
    field : Str → Json → Fields → Fields

-- `m[key]`
unfoldable pub get_field : Str → Fields → Option Json
get_field key end = none
get_field key (field k j fs) = let rest = get_field key fs in if str_eq k key then some j else rest

unfoldable pub is_null : Json → Bool
is_null null = true
is_null (boolean b) = false
is_null (number n) = false
is_null (string s) = false
is_null (strings ss) = false
is_null (array js) = false
is_null (object fs) = false

unfoldable pub is_object : Json → Bool
is_object null = false
is_object (boolean b) = false
is_object (number n) = false
is_object (string s) = false
is_object (strings ss) = false
is_object (array js) = false
is_object (object fs) = true

-- `value.(string)`
unfoldable pub as_string : Json → Option Str
as_string null = none
as_string (boolean b) = none
as_string (number n) = none
as_string (string s) = some s
as_string (strings ss) = none
as_string (array js) = none
as_string (object fs) = none

-- `value.(bool)`
unfoldable pub as_boolean : Json → Option Bool
as_boolean null = none
as_boolean (boolean b) = some b
as_boolean (number n) = none
as_boolean (string s) = none
as_boolean (strings ss) = none
as_boolean (array js) = none
as_boolean (object fs) = none

-- `value.(map[string]interface{})`
unfoldable pub as_object : Json → Option Fields
as_object null = none
as_object (boolean b) = none
as_object (number n) = none
as_object (string s) = none
as_object (strings ss) = none
as_object (array js) = none
as_object (object fs) = some fs

-- `schemaNumber`
unfoldable pub schema_number : Json → Option Str
schema_number null = none
schema_number (boolean b) = none
schema_number (number n) = some n
schema_number (string s) = none
schema_number (strings ss) = none
schema_number (array js) = none
schema_number (object fs) = none

unfoldable pub items_of_strings : List Str → Items
items_of_strings [] = nil
items_of_strings (s ∷ ss) = cons (string s) (items_of_strings ss)

-- `schemaSlice`
unfoldable pub schema_slice : Json → Option Items
schema_slice null = none
schema_slice (boolean b) = none
schema_slice (number n) = none
schema_slice (string s) = none
schema_slice (strings ss) = some (items_of_strings ss)
schema_slice (array js) = some js
schema_slice (object fs) = none

unfoldable pub count_items : Items → ℕ
count_items nil = 0
count_items (cons j js) = suc (count_items js)
