-- ===== src/Tools/Schema/Complete.antt =====
-- Which arguments are accepted.
use sandbar.Base.{
  Str, codes, Bool, true, false, is_nil, is_some, some, List, [], ◌∷◌, All, ◌≡◌, refl, ◌∙◌, ok,
  ◌>>◌, guard,
}
use sandbar.Tools.Json.{object, Fields, end, field, get_field, as_string, as_boolean, as_object}
use sandbar.Tools.Schema.{
  SchemaHost, SchemaError, Verdict, read, unknown_keys, properties_of, check_additional,
  required_fields, is_present, check_required, each_field, object_branch, check_values, check_type,
  index_path, no_form,
}
use sandbar.Tools.Schema.Walk.{
  any_of_field, validate_schema_value, items_field, validate_tool_arguments,
}
use sandbar.Tools.Schema.Accepts.{
  AllFields, Permitted, permitted, verdict_of, member, member_path, properties_field-get,
  check_type-object_branch,
}

ok_both : (m k : Verdict) → m ≡ ok tt → k ≡ ok tt → (m >> k) ≡ ok tt
ok_both m k e f = rw (e, f) refl

guard_of : (b : Bool) (e : SchemaError) → b ≡ true → guard b e ≡ ok tt
guard_of b e h = rw h refl

nil-unknown_keys :
    (h : SchemaHost) (properties fs : Fields)
    → AllFields (λ key item. is_some (get_field key properties) ≡ true) fs
    → is_nil (unknown_keys h properties fs) ≡ true
unfolding unknown_keys
nil-unknown_keys h properties end a = refl
nil-unknown_keys h properties (field key item fs) a =
    rw (a.0) (nil-unknown_keys h properties fs a.1)

known-check_additional :
    (h : SchemaHost) (schema args : Fields) (path : Str)
    → read as_boolean (codes "additionalProperties") schema ≡ some false
    → is_nil (unknown_keys h (properties_of h schema) args) ≡ true
    → check_additional h schema args path ≡ ok tt
unfolding check_additional
known-check_additional h schema args path closed e = rw (check_additional, closed, e) refl

All-check_required :
    (h : SchemaHost) (keys : List Str) (value : Fields) (path : Str)
    → All (λ key. is_present h key value ≡ true) keys
    → check_required h keys value path ≡ ok tt
unfolding check_required
All-check_required h [] value path a = refl
All-check_required h (key ∷ keys) value path (here, rest) =
    ok_both _ _ (guard_of _ _ here) (All-check_required h keys value path rest)

AllFields-each_field :
    (h : SchemaHost) (schema fs : Fields)
    → AllFields
        (λ key item.
          verdict_of h (get_field key (properties_of h schema)) item (member_path key) ≡ ok tt)
        fs
    → each_field h (member h schema) fs ≡ ok tt
unfolding each_field
AllFields-each_field h schema end a = refl
AllFields-each_field h schema (field key item fs) a =
    ok_both _ _ (properties_field-get h schema key item (member_path key) ∙ a.0)
      (AllFields-each_field h schema fs a.1)

Permitted-object_branch :
    (h : SchemaHost) (schema args : Fields)
    → read as_boolean (codes "additionalProperties") schema ≡ some false
    → Permitted h schema args
    → object_branch h schema (member h schema) (object args) (codes "arguments") ≡ ok tt
unfolding object_branch as_object
Permitted-object_branch h schema args closed (permitted known present each) =
    ok_both _ _
      (ok_both _ _
        (known-check_additional h schema args (codes "arguments") closed
          (nil-unknown_keys h (properties_of h schema) args known))
        (All-check_required h (required_fields h schema) args (codes "arguments") present))
      (AllFields-each_field h schema args each)

-- Arguments that are properties of a schema of an object with `additionalProperties` false, each
-- accepted by its property, with every required field among them and not null, are accepted by the
-- schema, if its `anyOf`, `const` and `enum` accept them.
pub Permitted-validate_tool_arguments :
    (h : SchemaHost) (schema args : Fields)
    → read as_string (codes "type") schema ≡ some (codes "object")
    → read as_boolean (codes "additionalProperties") schema ≡ some false
    → any_of_field h schema (object args) (codes "arguments") ≡ true
    → check_values h schema (object args) (codes "arguments") ≡ ok tt
    → Permitted h schema args
    → validate_tool_arguments h (some schema) args ≡ ok tt
unfolding validate_tool_arguments validate_schema_value
Permitted-validate_tool_arguments h schema args typed closed form values p =
    let path = codes "arguments" in
    ok_both
      (guard (any_of_field h schema (object args) path) (no_form path)
        >> check_values h schema (object args) path)
      (check_type h schema (member h schema)
        (λ i item. items_field h schema item (index_path h path i)) (object args) path)
      (ok_both _ _ (guard_of _ _ form) values)
      (check_type-object_branch h schema (member h schema)
          (λ i item. items_field h schema item (index_path h path i)) (object args) path typed
        ∙ Permitted-object_branch h schema args closed p)
