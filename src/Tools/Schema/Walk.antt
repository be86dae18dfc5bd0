-- ===== src/Tools/Schema/Walk.antt =====
-- internal/tools/schema_validation.go: validateSchemaValue and validateToolArguments, the walk of a
-- schema. A lookup that leads into a schema is a function of the walk.
use sandbar.Base.{
  Str, codes, str_eq, if◌then◌else◌, Bool, true, false, Option, none, some, ◌++◌, ◌&&◌, ◌||◌, ok,
  ◌>>◌, guard,
}
use sandbar.Tools.Json.{
  Json, null, boolean, number, string, strings, array, object, Items, nil, cons, Fields, end, field,
  is_object,
}
use sandbar.Tools.Schema.{
  SchemaHost, Verdict, no_form, check_values, check_type, accepts, index_path,
}

module _ (h : SchemaHost) where
  unfoldable mutual
    -- `validateSchemaValue`; what is not a schema is passed over by its callers.
    pub validate_schema_value : Json → Json → Str → Verdict
    validate_schema_value null value path = ok tt
    validate_schema_value (boolean b) value path = ok tt
    validate_schema_value (number n) value path = ok tt
    validate_schema_value (string s) value path = ok tt
    validate_schema_value (strings ss) value path = ok tt
    validate_schema_value (array js) value path = ok tt
    validate_schema_value (object fs) value path =
        guard (any_of_field fs value path) (no_form path)
        >> check_values h fs value path
        >> check_type h fs (λ key item. properties_field fs key item (path ++ codes "." ++ key))
            (λ i item. items_field fs item (index_path h path i)) value path

    -- Whether the value matches an alternative, if there are any.
    pub any_of_field : Fields → Json → Str → Bool
    any_of_field end value path = true
    any_of_field (field k j fs) value path =
        let here = alternatives j value path in
        let rest = any_of_field fs value path in if str_eq k (codes "anyOf") then here else rest

    pub alternatives : Json → Json → Str → Bool
    alternatives null value path = true
    alternatives (boolean b) value path = true
    alternatives (number n) value path = true
    alternatives (string s) value path = true
    alternatives (strings ss) value path = true
    alternatives (object fs) value path = true
    alternatives (array nil) value path = true
    alternatives (array (cons j js)) value path =
        (is_object j && accepts h (validate_schema_value j value path))
        || some_alternative js value path

    pub some_alternative : Items → Json → Str → Bool
    some_alternative nil value path = false
    some_alternative (cons j js) value path =
        (is_object j && accepts h (validate_schema_value j value path))
        || some_alternative js value path

    -- A member of an object against its property, if it has one.
    pub properties_field : Fields → Str → Json → Str → Verdict
    properties_field end key item path = ok tt
    properties_field (field k j fs) key item path =
        let here = property_in j key item path in
        let rest = properties_field fs key item path in
        if str_eq k (codes "properties") then here else rest

    pub property_in : Json → Str → Json → Str → Verdict
    property_in null key item path = ok tt
    property_in (boolean b) key item path = ok tt
    property_in (number n) key item path = ok tt
    property_in (string s) key item path = ok tt
    property_in (strings ss) key item path = ok tt
    property_in (array js) key item path = ok tt
    property_in (object ps) key item path = property_field ps key item path

    pub property_field : Fields → Str → Json → Str → Verdict
    property_field end key item path = ok tt
    property_field (field k j ps) key item path =
        let here = validate_schema_value j item path in
        let rest = property_field ps key item path in if str_eq k key then here else rest

    -- An item of an array against the schema of items, if there is one.
    pub items_field : Fields → Json → Str → Verdict
    items_field end item path = ok tt
    items_field (field k j fs) item path =
        let here = validate_schema_value j item path in
        let rest = items_field fs item path in if str_eq k (codes "items") then here else rest

  -- `validateToolArguments`; `none` is a schema that is nil.
  unfoldable pub validate_tool_arguments : Option Fields → Fields → Verdict
  validate_tool_arguments none args = ok tt
  validate_tool_arguments (some schema) args =
      validate_schema_value (object schema) (object args) (codes "arguments")
