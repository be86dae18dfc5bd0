-- ===== src/Tools/Schema.antt =====
-- internal/tools/schema_validation.go: arguments against the schema of a tool.
-- Fields are visited in their order, where Go walks its map in any order. Comparing and
-- rounding floats, `reflect.DeepEqual` and regular expressions are parameters.
pub mod Walk
pub mod Accepts
pub mod Complete
use sandbar.Base.{
  ℕ, zero, suc, ◌+◌, Str, codes, str_eq, contains, ltb, if◌then◌else◌, Bool, true, false, length,
  is_nil, Option, none, some, List, [], ◌∷◌, ◌++◌, not, ◌&&◌, ◌||◌, is_some, Outcome, ok, err,
  ◌>>=◌, ◌>>◌, guard,
}
use sandbar.Tools.Json.{
  Json, null, boolean, number, string, strings, array, object, Items, nil, cons, Fields, end, field,
  get_field, is_null, is_object, as_string, as_boolean, as_object, schema_number, schema_slice,
  count_items,
}

pub data SchemaError : Type 0 where
  no_form : Str → SchemaError
  not_constant : Str → SchemaError
  not_in_enum : Str → SchemaError
  wrong_type : Str → Str → SchemaError
  unsupported_fields : Str → List Str → SchemaError
  required_field : Str → Str → SchemaError
  too_short : Str → ℕ → SchemaError
  invalid_pattern : Str → SchemaError
  invalid_format : Str → SchemaError
  out_of_bounds : Str → SchemaError
  unsupported_type : Str → Str → SchemaError

-- Of the platform: the order and the equality of floats, whether one is whole, its value as a length
-- (0 below), printed indices, deep equality, and a pattern on a text (`none` for an invalid pattern).
pub record SchemaHost : Type 0 where
  pub less : Str → Str → Bool
  pub equal : Str → Str → Bool
  pub is_whole : Str → Bool
  pub to_length : Str → ℕ
  pub digits : ℕ → Str
  pub deep_equal : Json → Json → Bool
  pub matches : Str → Str → Option Bool

abbrev pub Verdict : Type 0
Verdict = Outcome SchemaError (Unit {0})

-- A field of a schema, read with one of the conversions.
unfoldable pub read : {A : Type 0} → (Json → Option A) → Str → Fields → Option A
read convert key fs = elim (get_field key fs) [ none ↦ none | some j ↦ convert j ]

module _ (h : SchemaHost) where
  -- `schemaInt`
  unfoldable pub schema_int : Json → Option ℕ
  schema_int j = elim (schema_number j) [
    | none ↦ none
    | some n ↦ if h.is_whole n then some (h.to_length n) else none
  ]

  -- `schemaValuesEqual`
  unfoldable pub schema_values_equal : Json → Json → Bool
  schema_values_equal left right = elim (schema_number left) [
    | none ↦ h.deep_equal left right
    | some n ↦ elim (schema_number right) [ none ↦ h.deep_equal left right | some m ↦ h.equal n m ]
  ]

  unfoldable pub among : Json → Items → Bool
  among value nil = false
  among value (cons allowed js) = schema_values_equal value allowed || among value js

  -- `schemaEnumContains`
  unfoldable pub schema_enum_contains : Json → Json → Bool
  schema_enum_contains raw value = elim raw [
    | null ↦ false
    | boolean b ↦ false
    | number n ↦ false
    | string s ↦ false
    | strings ss ↦ elim (as_string value) [ none ↦ false | some s ↦ contains s ss ]
    | array js ↦ among value js
    | object fs ↦ false
  ]

  -- A bound of a number: the test says whether the value passes it.
  unfoldable pub bound : (Str → Bool) → Str → Fields → Str → Verdict
  bound passes key fs path = elim (read schema_number key fs) [
    | none ↦ ok tt
    | some limit ↦ guard (passes limit) (out_of_bounds path)
  ]

  -- `validateNumberBounds`
  unfoldable pub validate_number_bounds : Str → Fields → Str → Verdict
  validate_number_bounds n fs path =
      bound (λ limit. not (h.less n limit)) (codes "minimum") fs path
      >> bound (λ limit. not (h.less limit n)) (codes "maximum") fs path
      >> bound (λ limit. not (h.less n limit || h.equal n limit)) (codes "exclusiveMinimum") fs path

  -- The keys of a value that the schema does not know.
  unfoldable pub unknown_keys : Fields → Fields → List Str
  unknown_keys properties end = []
  unknown_keys properties (field key item fs) =
      let rest = unknown_keys properties fs in
      if is_some (get_field key properties) then rest else key ∷ rest

  -- `properties, _ := schema["properties"].(map[string]interface{})`
  unfoldable pub properties_of : Fields → Fields
  properties_of fs = elim (read as_object (codes "properties") fs) [ none ↦ end | some ps ↦ ps ]

  unfoldable pub check_additional : Fields → Fields → Str → Verdict
  check_additional fs value path = elim (read as_boolean (codes "additionalProperties") fs) [
    | none ↦ ok tt
    | some additional ↦
        let unknown = unknown_keys (properties_of fs) value in
        guard (additional || is_nil unknown) (unsupported_fields path unknown)
  ]

  unfoldable pub names_in : Items → List Str
  names_in nil = []
  names_in (cons j js) =
      let rest = names_in js in elim (as_string j) [ none ↦ rest | some s ↦ s ∷ rest ]

  -- `requiredFields`
  unfoldable pub required_fields : Fields → List Str
  required_fields fs = elim (get_field (codes "required") fs) [
    | none ↦ []
    | some j ↦ elim j [
      | null ↦ []
      | boolean b ↦ []
      | number n ↦ []
      | string s ↦ []
      | strings ss ↦ ss
      | array js ↦ names_in js
      | object os ↦ []
    ]
  ]

  -- `item, exists := object[required]; exists && item != nil`
  unfoldable pub is_present : Str → Fields → Bool
  is_present key value = elim (get_field key value) [ none ↦ false | some j ↦ not (is_null j) ]

  unfoldable pub check_required : List Str → Fields → Str → Verdict
  check_required [] value path = ok tt
  check_required (key ∷ keys) value path =
      guard (is_present key value) (required_field path key) >> check_required keys value path

  -- A loop over the fields of a value, or its items from the one with an index.
  unfoldable pub each_field : (Str → Json → Verdict) → Fields → Verdict
  each_field check end = ok tt
  each_field check (field key item fs) = check key item >> each_field check fs

  unfoldable pub each_item : (ℕ → Json → Verdict) → ℕ → Items → Verdict
  each_item check i nil = ok tt
  each_item check i (cons item js) = check i item >> each_item check (i + 1) js

  unfoldable pub check_minimum : Str → ℕ → Fields → Str → Verdict
  check_minimum key size fs path = elim (read schema_int key fs) [
    | none ↦ ok tt
    | some minimum ↦ guard (not (ltb size minimum)) (too_short path minimum)
  ]

  unfoldable pub check_pattern : Str → Fields → Str → Verdict
  check_pattern text fs path = elim (read as_string (codes "pattern") fs) [
    | none ↦ ok tt
    | some pattern_text ↦ elim (h.matches pattern_text text) [
      | none ↦ err (invalid_pattern path)
      | some found ↦ guard found (invalid_format path)
    ]
  ]

  -- The branches of the switch over the type, with the walks into properties and items.
  unfoldable pub object_branch : Fields → (Str → Json → Verdict) → Json → Str → Verdict
  object_branch fs property value path = elim (as_object value) [
    | none ↦ err (wrong_type path (codes "object"))
    | some members ↦
        check_additional fs members path
        >> check_required (required_fields fs) members path
        >> each_field property members
  ]

  unfoldable pub array_branch : Fields → (ℕ → Json → Verdict) → Json → Str → Verdict
  array_branch fs item value path = elim (schema_slice value) [
    | none ↦ err (wrong_type path (codes "array"))
    | some js ↦ check_minimum (codes "minItems") (count_items js) fs path >> each_item item 0 js
  ]

  unfoldable pub string_branch : Fields → Json → Str → Verdict
  string_branch fs value path = elim (as_string value) [
    | none ↦ err (wrong_type path (codes "string"))
    | some text ↦
        check_minimum (codes "minLength") (length text) fs path >> check_pattern text fs path
  ]

  unfoldable pub number_branch : Bool → Fields → Json → Str → Verdict
  number_branch whole fs value path = elim (schema_number value) [
    | none ↦ err (wrong_type path (if whole then codes "integer" else codes "number"))
    | some n ↦
        guard (not whole || h.is_whole n) (wrong_type path (codes "integer"))
        >> validate_number_bounds n fs path
  ]

  -- The value against `const` and `enum`.
  unfoldable pub check_values : Fields → Json → Str → Verdict
  check_values fs value path =
      guard
        (elim (get_field (codes "const") fs) [ none ↦ true | some c ↦ schema_values_equal value c ])
        (not_constant path)
      >> guard
          (elim (get_field (codes "enum") fs) [
            | none ↦ true
            | some e ↦ schema_enum_contains e value
          ])
          (not_in_enum path)

  -- The switch over the type.
  unfoldable pub check_type :
      Fields → (Str → Json → Verdict) → (ℕ → Json → Verdict) → Json → Str → Verdict
  check_type fs property item value path = elim (read as_string (codes "type") fs) [
    | none ↦ ok tt
    | some name ↦
        if is_nil name
        then ok tt
        else if str_eq name (codes "object")
        then object_branch fs property value path
        else if str_eq name (codes "array")
        then array_branch fs item value path
        else if str_eq name (codes "string")
        then string_branch fs value path
        else if str_eq name (codes "boolean")
        then guard (is_some (as_boolean value)) (wrong_type path name)
        else if str_eq name (codes "integer")
        then number_branch true fs value path
        else if str_eq name (codes "number")
        then number_branch false fs value path
        else err (unsupported_type path name)
  ]

  unfoldable pub accepts : Verdict → Bool
  accepts (ok u) = true
  accepts (err e) = false

  unfoldable pub index_path : Str → ℕ → Str
  index_path path i = path ++ codes "[" ++ h.digits i ++ codes "]"
