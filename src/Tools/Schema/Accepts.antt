-- ===== src/Tools/Schema/Accepts.antt =====
-- What arguments that are accepted are known to be.
use sandbar.Base.{
  ℕ, Str, codes, str_eq, str_eq_refl, Bool, true, false, is_nil, is_some, Option, none, some, List,
  [], ◌∷◌, ◌++◌, All, ◌≡◌, refl, sym, ap, ◌∙◌, arith, Bool-cases, inl, inr, ok, err, ◌>>◌, guard,
}
use sandbar.Tools.Json.{
  Json, null, boolean, number, string, strings, array, object, Fields, end, field, get_field,
  as_string, as_boolean, as_object,
}
use sandbar.Tools.Schema.{
  SchemaHost, SchemaError, Verdict, read, unknown_keys, properties_of, check_additional,
  required_fields, is_present, check_required, each_field, object_branch, check_type, check_values,
  index_path, no_form,
}
use sandbar.Tools.Schema.Walk.{
  any_of_field, validate_schema_value, properties_field, property_in, property_field, items_field,
  validate_tool_arguments,
}

-- A predicate of every member of an object.
abbrev pub AllFields : (Str → Json → Type 0) → Fields → Type 0
AllFields P end = Unit
AllFields P (field key item fs) = P key item × AllFields P fs

AllFields-both :
    (P Q R : Str → Json → Type 0) (fs : Fields)
    → ((key : Str) (item : Json) → P key item → Q key item → R key item)
    → AllFields P fs
    → AllFields Q fs
    → AllFields R fs
AllFields-both P Q R end f h k = tt
AllFields-both P Q R (field key item fs) f h k =
    (f key item h.0 k.0, AllFields-both P Q R fs f h.1 k.1)

-- The path that messages name a member of the arguments by.
abbrev pub member_path : Str → Str
member_path key = codes "arguments" ++ codes "." ++ key

-- Both parts of a sequence that succeeds succeed.
both_ok : (m k : Verdict) → (m >> k) ≡ ok tt → (m ≡ ok tt) × (k ≡ ok tt)
both_ok (ok u) k e = (refl, e)
both_ok (err x) k e = ground (arith, e)

guard_ok : (b : Bool) (e : SchemaError) → guard b e ≡ ok tt → b ≡ true
guard_ok true e h = refl
guard_ok false e h = ground (arith, h)

unknown_keys-nil :
    (h : SchemaHost) (properties fs : Fields)
    → is_nil (unknown_keys h properties fs) ≡ true
    → AllFields (λ key item. is_some (get_field key properties) ≡ true) fs
unfolding unknown_keys
unknown_keys-nil h properties end e = tt
unknown_keys-nil h properties (field key item fs) e =
    elim (Bool-cases (is_some (get_field key properties))) [
      | inl known ↦ (known, unknown_keys-nil h properties fs (rw (unknown_keys, known) at e))
      | inr unknown ↦ ground (arith, e, unknown)
    ]

check_required-All :
    (h : SchemaHost) (keys : List Str) (value : Fields) (path : Str)
    → check_required h keys value path ≡ ok tt
    → All (λ key. is_present h key value ≡ true) keys
unfolding check_required
check_required-All h [] value path e = tt
check_required-All h (key ∷ keys) value path e =
    let (first, rest) = both_ok _ _ e in
    (guard_ok _ _ first, check_required-All h keys value path rest)

each_field-All :
    (h : SchemaHost) (check : Str → Json → Verdict) (fs : Fields)
    → each_field h check fs ≡ ok tt
    → AllFields (λ key item. check key item ≡ ok tt) fs
unfolding each_field
each_field-All h check end e = tt
each_field-All h check (field key item fs) e =
    let (first, rest) = both_ok _ _ e in (first, each_field-All h check fs rest)

-- The verdict of the property with a key, if there is one.
abbrev pub verdict_of : SchemaHost → Option Json → Json → Str → Verdict
verdict_of h none item path = ok tt
verdict_of h (some j) item path = validate_schema_value h j item path

property_field-get :
    (h : SchemaHost) (ps : Fields) (key : Str) (item : Json) (path : Str)
    → property_field h ps key item path ≡ verdict_of h (get_field key ps) item path
unfolding property_field get_field
property_field-get h end key item path = refl
property_field-get h (field k j ps) key item path = elim (Bool-cases (str_eq k key)) [
  | inl e ↦ rw e refl
  | inr e ↦ rw e (property_field-get h ps key item path)
]

property_in-get :
    (h : SchemaHost) (j : Json) (key : Str) (item : Json) (path : Str)
    → property_in h j key item path
      ≡ verdict_of h (get_field key (elim (as_object j) [ none ↦ end | some ps ↦ ps ])) item path
unfolding property_in as_object get_field
property_in-get h null key item path = refl
property_in-get h (boolean b) key item path = refl
property_in-get h (number n) key item path = refl
property_in-get h (string s) key item path = refl
property_in-get h (strings ss) key item path = refl
property_in-get h (array js) key item path = refl
property_in-get h (object ps) key item path = property_field-get h ps key item path

get_field_here :
    (k key : Str) (j : Json) (fs : Fields)
    → str_eq k key ≡ true
    → get_field key (field k j fs) ≡ some j
unfolding get_field
get_field_here k key j fs e = rw e refl

get_field_next :
    (k key : Str) (j : Json) (fs : Fields)
    → str_eq k key ≡ false
    → get_field key (field k j fs) ≡ get_field key fs
unfolding get_field
get_field_next k key j fs e = rw e refl

fields_read : Option Json → Fields
fields_read o =
    elim (elim o as (λ x. Option Fields) [ none ↦ none | some v ↦ as_object v ]) as (λ x. Fields) [
      | none ↦ end
      | some ps ↦ ps
    ]

properties_of_here :
    (h : SchemaHost) (k : Str) (j : Json) (fs : Fields)
    → str_eq k (codes "properties") ≡ true
    → properties_of h (field k j fs) ≡ elim (as_object j) [ none ↦ end | some ps ↦ ps ]
unfolding properties_of read fields_read
properties_of_here h k j fs e = ap fields_read (get_field_here k (codes "properties") j fs e)

properties_of_next :
    (h : SchemaHost) (k : Str) (j : Json) (fs : Fields)
    → str_eq k (codes "properties") ≡ false
    → properties_of h (field k j fs) ≡ properties_of h fs
unfolding properties_of read fields_read
properties_of_next h k j fs e = ap fields_read (get_field_next k (codes "properties") j fs e)

no_properties :
    (h : SchemaHost) (key : Str) (item : Json) (path : Str)
    → verdict_of h (get_field key (properties_of h end)) item path ≡ ok tt
unfolding properties_of read get_field
no_properties h key item path = refl

-- The walk to a property is the lookup of it.
pub properties_field-get :
    (h : SchemaHost) (fs : Fields) (key : Str) (item : Json) (path : Str)
    → properties_field h fs key item path
      ≡ verdict_of h (get_field key (properties_of h fs)) item path
unfolding properties_field
properties_field-get h end key item path = sym (no_properties h key item path)
properties_field-get h (field k j fs) key item path =
    elim (Bool-cases (str_eq k (codes "properties"))) [
      | inl e ↦ rw (properties_of_here h k j fs e, e) (property_in-get h j key item path)
      | inr e ↦ rw (properties_of_next h k j fs e, e) (properties_field-get h fs key item path)
    ]

-- What a schema of an object that knows all its fields makes sure of.
pub data Permitted (h : SchemaHost) (schema args : Fields) : Type 0 where
  permitted :
      AllFields (λ key item. is_some (get_field key (properties_of h schema)) ≡ true) args
      → All (λ key. is_present h key args ≡ true) (required_fields h schema)
      → AllFields
          (λ key item.
            verdict_of h (get_field key (properties_of h schema)) item (member_path key) ≡ ok tt)
          args
      → Permitted h schema args

-- The walk of a schema into a member of the arguments.
abbrev pub member : SchemaHost → Fields → Str → Json → Verdict
member h schema key item = properties_field h schema key item (member_path key)

pub closed_known :
    (h : SchemaHost) (schema args : Fields)
    → read as_boolean (codes "additionalProperties") schema ≡ some false
    → check_additional h schema args (codes "arguments") ≡ ok tt
    → is_nil (unknown_keys h (properties_of h schema) args) ≡ true
unfolding check_additional
closed_known h schema args closed e = guard_ok _ _ (rw (check_additional, closed) at e)

members-verdict_of :
    (h : SchemaHost) (schema args : Fields)
    → AllFields (λ key item. member h schema key item ≡ ok tt) args
    → AllFields
        (λ key item.
          verdict_of h (get_field key (properties_of h schema)) item (member_path key) ≡ ok tt)
        args
members-verdict_of h schema end a = tt
members-verdict_of h schema (field key item args) a = (
  sym (properties_field-get h schema key item (member_path key)) ∙ a.0,
  members-verdict_of h schema args a.1,
)

object_branch-Permitted :
    (h : SchemaHost) (schema args : Fields)
    → read as_boolean (codes "additionalProperties") schema ≡ some false
    → object_branch h schema (member h schema) (object args) (codes "arguments") ≡ ok tt
    → Permitted h schema args
unfolding object_branch as_object
object_branch-Permitted h schema args closed e =
    let (first, each) =
      both_ok
        (check_additional h schema args (codes "arguments")
          >> check_required h (required_fields h schema) args (codes "arguments"))
        (each_field h (member h schema) args) e in
    let (known, present) =
      both_ok (check_additional h schema args (codes "arguments"))
        (check_required h (required_fields h schema) args (codes "arguments")) first in
    permitted
      (unknown_keys-nil h (properties_of h schema) args (closed_known h schema args closed known))
      (check_required-All h (required_fields h schema) args (codes "arguments") present)
      (members-verdict_of h schema args (each_field-All h (member h schema) args each))

pub check_type-object_branch :
    (h : SchemaHost) (fs : Fields) (property : Str → Json → Verdict) (item : ℕ → Json → Verdict)
    (value : Json) (path : Str)
    → read as_string (codes "type") fs ≡ some (codes "object")
    → check_type h fs property item value path ≡ object_branch h fs property value path
unfolding check_type
check_type-object_branch h fs property item value path e =
    rw (check_type, e, str_eq_refl (codes "object")) refl

-- If the arguments of a tool are accepted by a schema of an object with `additionalProperties`
-- false, each of them is one of the schema's properties and is accepted by that property, and every
-- required field is among them and is not null.
pub validate_tool_arguments-Permitted :
    (h : SchemaHost) (schema args : Fields)
    → read as_string (codes "type") schema ≡ some (codes "object")
    → read as_boolean (codes "additionalProperties") schema ≡ some false
    → validate_tool_arguments h (some schema) args ≡ ok tt
    → Permitted h schema args
unfolding validate_tool_arguments validate_schema_value
validate_tool_arguments-Permitted h schema args typed closed e =
    let path = codes "arguments" in
    let checked =
      check_type h schema (member h schema)
        (λ i item. items_field h schema item (index_path h path i)) (object args) path in
    let (before, last) =
      both_ok
        (guard (any_of_field h schema (object args) path) (no_form path)
          >> check_values h schema (object args) path)
        checked e in
    object_branch-Permitted h schema args closed (
      sym (
        check_type-object_branch h schema (member h schema)
          (λ i item. items_field h schema item (index_path h path i)) (object args) path typed)
      ∙ last)
