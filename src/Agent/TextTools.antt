-- ===== src/Agent/TextTools.antt =====
-- internal/agent/text_tool_parser.go: tool calls that a model writes as text.
-- A loop of the parser is a step, which cuts off what it has read, and `collect`, which repeats it.
-- `TrimSpace`, `html.UnescapeString`, `strconv`, `encoding/json` and the two regular expressions of
-- `parseXMLToolCalls` are parameters; `xml_calls` are the decoded matches of the second expression or the first. A parsed number
-- is the text that it is encoded as.
pub mod Scan
pub mod Tables
pub mod Steps
pub mod Invoke
pub mod Ids
use sandbar.Base.{
  ℕ, zero, suc, ◌+◌, ◌-◌, ◌*◌, ◌/◌, ◌%◌, ◌^◌, Str, codes, str_eq, has_prefix, ltb, leb, ◌==◌,
  if◌then◌else◌, Bool, true, false, length, drop, is_nil, is_some, Option, none, some, List, [],
  ◌∷◌, ◌++◌, map, not, ◌&&◌, ◌||◌, Map, lookup, insert, contains,
}
use sandbar.Agent.TextTools.Scan.{Next, stop, skip, found, cut_at, collect, pieces_after}
use sandbar.Agent.TextTools.Tables.{resolve_tool_name, registered_text_tool_args, is_tool_ident}

-- A value of an argument.
pub data TextValue : Type 0 where
  text : Str → TextValue
  boolean : Bool → TextValue
  number : Str → TextValue

pub record TextHost : Type 0 where
  pub trim : Str → Str
  pub unescape : Str → Str
  pub parse_bool : Str → Option Bool
  pub atoi : Str → Option Str
  pub parse_float : Str → Option Str
  pub marshal : Map TextValue → Option Str
  pub xml_calls : Bool → Str → List (Str × Map TextValue)

-- A call before it has an id: the tool and its encoded arguments.
pub record RawCall : Type 0 where
  pub name : Str
  pub arguments : Str

-- `coerceTextToolArgument`
unfoldable pub coerce_text_tool_argument : TextHost → Str → Str → TextValue
coerce_text_tool_argument h name value =
    if str_eq name (codes "async") || str_eq name (codes "staged")
    then elim (h.parse_bool value) [ none ↦ text value | some b ↦ boolean b ]
    else if str_eq name (codes "max_bytes")
        || (str_eq name (codes "max_chars") || str_eq name (codes "limit"))
    then elim (h.atoi value) [ none ↦ text value | some n ↦ number n ]
    else if str_eq name (codes "timeout_seconds")
    then elim (h.parse_float value) [ none ↦ text value | some n ↦ number n ]
    else text value

-- `params[name] = value` for each pair in turn.
unfoldable pub insert_all : List (Str × TextValue) → Map TextValue → Map TextValue
insert_all [] params = params
insert_all ((name, value) ∷ pairs) params = insert_all pairs (insert name value params)

-- `quotedParameterValue`
unfoldable pub quoted_parameter_value : Str → Str → Option Str
quoted_parameter_value body name =
    elim (cut_at (codes "<parameter name=\"" ++ name ++ codes "\">") body) [
      | none ↦ none
      | some (before, value) ↦ elim (cut_at (codes "</parameter>") value) [
        | none ↦ none
        | some (inside, rest) ↦ some inside
      ]
    ]

-- The name in quotes after `start`, and what follows its tag; `skip` for a tag with more in it.
unfoldable pub open_tag : TextHost → Str → Str → Next (Str × Str)
open_tag h start s = elim (cut_at start s) [
  | none ↦ stop
  | some (before, after) ↦ elim (cut_at (codes "\"") after) [
    | none ↦ stop
    | some (name, after_quote) ↦ elim (cut_at (codes ">") after_quote) [
      | none ↦ stop
      | some (tag, rest) ↦ if is_nil (h.trim tag) then found (h.trim name, rest) rest else skip rest
    ]
  ]
]

-- A step of a loop over elements: the element's name and what stands up to its `end`.
unfoldable pub element : TextHost → Str → Str → Str → Next (Str × Str)
element h start end s = elim (open_tag h start s) [
  | stop ↦ stop
  | skip rest ↦ skip rest
  | found (name, rest) tail ↦ elim (cut_at end rest) [
    | none ↦ stop
    | some (inside, after) ↦ found (name, inside) after
  ]
]

-- The parameters that a tool takes, of those that were read.
unfoldable pub allowed_params : TextHost → List Str → List (Str × Str) → List (Str × TextValue)
allowed_params h allowed [] = []
allowed_params h allowed ((name, value) ∷ pairs) =
    let rest = allowed_params h allowed pairs in
    if is_tool_ident name && contains name allowed
    then (name, coerce_text_tool_argument h name (h.trim (h.unescape value))) ∷ rest
    else rest

-- The encoding of the arguments, if there are any.
unfoldable pub encode_call : TextHost → Str → Map TextValue → Option RawCall
encode_call h name params = if is_nil params then none else elim (h.marshal params) [
  | none ↦ none
  | some arguments ↦ some (record { name = name; arguments = arguments })
]

-- Whether the parameter "tool" agrees with the name of the invoke tag.
unfoldable pub metadata_agrees : TextHost → Str → Str → Bool
metadata_agrees h body tool_name = elim (quoted_parameter_value body (codes "tool")) [
  | none ↦ false
  | some value ↦
      let metadata = h.trim (h.unescape value) in
      is_tool_ident metadata && str_eq (resolve_tool_name metadata) tool_name
]

-- The body of the loop of `parseFunctionCallsInvoke` over the invoke elements of a block.
unfoldable pub invoke_call : TextHost → Str × Str → Option RawCall
invoke_call h (raw_name, body) =
    let tool_name = resolve_tool_name raw_name in
    if not (is_tool_ident raw_name)
    then none
    else elim (lookup tool_name registered_text_tool_args) [
      | none ↦ none
      | some allowed ↦
          if not (metadata_agrees h body tool_name)
          then none
          else elim (cut_at (codes "<parameter name=\"arguments\">") body) [
            | none ↦ none
            | some (before, arguments_body) ↦ encode_call h tool_name (
                insert_all
                  (allowed_params h allowed (
                    collect (element h (codes "<parameter name=\"") (codes "</parameter>"))
                      arguments_body))
                  [])
          ]
    ]

-- The calls that a list of candidates gives.
unfoldable pub calls_of : {A : Type 0} → (A → Option RawCall) → List A → List RawCall
calls_of call [] = []
calls_of call (x ∷ xs) =
    let rest = calls_of call xs in elim (call x) [ none ↦ rest | some c ↦ c ∷ rest ]

-- A step of the loop over the blocks between the wrappers.
unfoldable pub wrapper : Str → Next Str
wrapper s = elim (cut_at (codes "<function_calls>") s) [
  | none ↦ stop
  | some (before, body) ↦ elim (cut_at (codes "</function_calls>") body) [
    | none ↦ stop
    | some (block, rest) ↦ found block rest
  ]
]

unfoldable pub invokes_of : TextHost → List Str → List RawCall
invokes_of h [] = []
invokes_of h (block ∷ blocks) =
    calls_of (invoke_call h)
      (collect (element h (codes "<invoke name=\"") (codes "</invoke>")) block)
    ++ invokes_of h blocks

-- `parseFunctionCallsInvoke` before its calls have ids.
unfoldable pub parse_function_calls_invoke : TextHost → Str → List RawCall
parse_function_calls_invoke h content = invokes_of h (collect wrapper content)

-- `json.Marshal` where its error is ignored.
unfoldable pub encode : TextHost → Map TextValue → Str
encode h params = elim (h.marshal params) [ none ↦ [] | some arguments ↦ arguments ]

-- A step of a loop over parameters whose name stands in quotes, or ends with the tag.
unfoldable pub plain_parameter : TextHost → Str → Str → Bool → Str → Next (Str × TextValue)
plain_parameter h start end quoted s = elim (cut_at start s) [
  | none ↦ stop
  | some (before, after) ↦ elim (cut_at (if quoted then codes "\"" else codes ">") after) [
    | none ↦ stop
    | some (name, rest) ↦ elim (if quoted then cut_at (codes ">") rest else some ([], rest)) [
      | none ↦ stop
      | some (tag, value_on) ↦ elim (cut_at end value_on) [
        | none ↦ stop
        | some (value, left) ↦ found (name, text (h.trim value)) left
      ]
    ]
  ]
]

-- What stands before an end mark, or all of it.
unfoldable pub up_to : Str → Str → Str
up_to end s = elim (cut_at end s) [ none ↦ s | some (before, after) ↦ before ]

-- The body of the loop of `parseFunctionEquals`.
unfoldable pub equals_call : TextHost → Str → Option RawCall
equals_call h block = elim (cut_at (codes ">") block) [
  | none ↦ none
  | some (name, after) ↦
      let params =
        insert_all
          (collect (plain_parameter h (codes "<parameter=") (codes "</parameter>") false)
            (up_to (codes "</function>") block))
          [] in
      if is_nil params
      then none
      else some (record { name = resolve_tool_name (h.trim name); arguments = encode h params })
]

-- `parseFunctionEquals` before its calls have ids.
unfoldable pub parse_function_equals : TextHost → Str → List RawCall
parse_function_equals h content =
    calls_of (equals_call h) (pieces_after (codes "<function=") content)

-- The four tags of a pattern of `parseDSML`.
pub record DsmlPattern : Type 0 where
  pub invoke_start : Str
  pub invoke_end : Str
  pub param_tag : Str
  pub param_end : Str

-- `dsmlSep` in UTF-8.
abbrev pub dsml_sep : Str
dsml_sep = 239 ∷ 189 ∷ 156 ∷ []

abbrev pub dsml_pattern : Str → DsmlPattern
dsml_pattern tag = record {
  invoke_start = codes "<" ++ tag ++ dsml_sep ++ codes "invoke name=\"";
  invoke_end = codes "</" ++ tag ++ dsml_sep ++ codes "invoke>";
  param_tag = codes "<" ++ tag ++ dsml_sep ++ codes "parameter name=\"";
  param_end = codes "</" ++ tag ++ dsml_sep ++ codes "parameter>";
}

-- The body of the loop of `parseDSMLPattern`.
unfoldable pub dsml_call : TextHost → DsmlPattern → Str → Option RawCall
dsml_call h pat block = elim (cut_at (codes "\"") block) [
  | none ↦ none
  | some (name, after) ↦ some (record {
    name = resolve_tool_name name;
    arguments = encode h (
        insert_all
          (collect (plain_parameter h pat.param_tag pat.param_end true)
            (up_to pat.invoke_end block))
          []);
  })
]

-- `parseDSMLPattern` before its calls have ids.
unfoldable pub parse_dsml_pattern : TextHost → DsmlPattern → Str → List RawCall
parse_dsml_pattern h pat content =
    calls_of (dsml_call h pat) (pieces_after pat.invoke_start content)

-- The first result if it has a call, or else the second.
unfoldable pub or_calls : List RawCall → List RawCall → List RawCall
or_calls [] others = others
or_calls (c ∷ cs) others = c ∷ cs

-- `parseDSML` before its calls have ids.
unfoldable pub parse_dsml : TextHost → Str → List RawCall
parse_dsml h content =
    or_calls (parse_dsml_pattern h (dsml_pattern (codes "DSML")) content)
      (parse_dsml_pattern h (dsml_pattern []) content)

-- The calls that decoded matches give.
unfoldable pub decoded_calls : TextHost → List (Str × Map TextValue) → List RawCall
decoded_calls h [] = []
decoded_calls h ((name, params) ∷ matches) =
    record { name = resolve_tool_name name; arguments = encode h params } ∷ decoded_calls h matches

-- `parseXMLToolCalls` before its calls have ids.
unfoldable pub parse_xml_tool_calls : TextHost → Str → List RawCall
parse_xml_tool_calls h content =
    or_calls (decoded_calls h (h.xml_calls false content))
      (decoded_calls h (h.xml_calls true content))

-- `parseTextToolCalls` before its calls have ids: the first dialect that gives a call.
unfoldable pub parse_raw_calls : TextHost → Str → List RawCall
parse_raw_calls h content =
    if is_nil content
    then []
    else or_calls (parse_dsml h content) (
        or_calls (parse_function_equals h content)
          (or_calls (parse_function_calls_invoke h content) (parse_xml_tool_calls h content)))
