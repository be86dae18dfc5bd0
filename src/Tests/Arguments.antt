-- ===== src/Tests/Arguments.antt =====
-- Arguments of a tool that reads a file, against its schema.
use sandbar.Base.{
  codes, str_eq, ltb, length, replicate, true, false, some, [], ◌∷◌, ◌≡◌, refl, ok, err,
}
use sandbar.Tools.Json.{
  boolean, number, string, strings, object, Fields, end, field, get_field, is_null, as_string,
  as_boolean, as_object, schema_number,
}
use sandbar.Tools.Schema.{
  SchemaHost, read, unknown_keys, properties_of, check_additional, required_fields, is_present,
  check_required, each_field, object_branch, string_branch, check_minimum, check_pattern,
  schema_int, check_type, check_values, required_field, unsupported_fields,
}
use sandbar.Tools.Schema.Walk.{
  any_of_field, validate_schema_value, properties_field, property_in, property_field,
  validate_tool_arguments,
}
use sandbar.Tools.Schema.Complete.{Permitted-validate_tool_arguments}
use sandbar.Tools.Schema.Accepts.{Permitted, validate_tool_arguments-Permitted}

-- Whole numbers written in unary, and patterns without operators.
abbrev host : SchemaHost
host = record {
  less = λ a b. ltb (length a) (length b);
  equal = str_eq;
  is_whole = λ a. true;
  to_length = length;
  digits = λ n. replicate n 49;
  deep_equal = λ a b. false;
  matches = λ p s. some (str_eq p s);
}

abbrev path_schema : Fields
path_schema =
    field (codes "type") (string (codes "string"))
      (field (codes "minLength") (number (codes "1")) end)

abbrev schema : Fields
schema = field (codes "type") (string (codes "object")) (
    field (codes "properties") (object (field (codes "path") (object path_schema) end)) (
      field (codes "required") (strings (codes "path" ∷ []))
        (field (codes "additionalProperties") (boolean false) end)))

abbrev args : Fields
args = field (codes "path") (string (codes "a")) end

accepted : validate_tool_arguments host (some schema) args ≡ ok tt
unfolding validate_tool_arguments validate_schema_value any_of_field check_values check_type
    object_branch check_additional unknown_keys properties_of check_required required_fields
    is_present each_field properties_field property_in property_field string_branch check_minimum
    check_pattern schema_int read get_field as_string as_boolean as_object schema_number is_null
    str_eq
accepted = refl

nothing_given :
    validate_tool_arguments host (some schema) end
    ≡ err (required_field (codes "arguments") (codes "path"))
unfolding validate_tool_arguments validate_schema_value any_of_field check_values check_type
    object_branch check_additional unknown_keys properties_of check_required required_fields
    is_present each_field read get_field as_string as_boolean as_object is_null str_eq
nothing_given = refl

unknown_given :
    validate_tool_arguments host (some schema) (field (codes "mode") (string (codes "a")) args)
    ≡ err (unsupported_fields (codes "arguments") (codes "mode" ∷ []))
unfolding validate_tool_arguments validate_schema_value any_of_field check_values check_type
    object_branch check_additional unknown_keys properties_of check_required required_fields
    is_present each_field read get_field as_string as_boolean as_object is_null str_eq
unknown_given = refl

of_object : read as_string (codes "type") schema ≡ some (codes "object")
unfolding read get_field as_string str_eq
of_object = refl

closed : read as_boolean (codes "additionalProperties") schema ≡ some false
unfolding read get_field as_boolean str_eq
closed = refl

validate_tool_arguments-Permitted_example : Permitted host schema args
validate_tool_arguments-Permitted_example =
    validate_tool_arguments-Permitted host schema args of_object closed accepted

no_form_asked : any_of_field host schema (object args) (codes "arguments") ≡ true
unfolding any_of_field str_eq
no_form_asked = refl

no_value_asked : check_values host schema (object args) (codes "arguments") ≡ ok tt
unfolding check_values get_field str_eq
no_value_asked = refl

args-Permitted : Permitted host schema args
args-Permitted = validate_tool_arguments-Permitted host schema args of_object closed accepted

Permitted-validate_tool_arguments_example : validate_tool_arguments host (some schema) args ≡ ok tt
Permitted-validate_tool_arguments_example =
    Permitted-validate_tool_arguments host schema args of_object closed no_form_asked no_value_asked
      args-Permitted
