-- ===== src/Agent/TextTools/Invoke.antt =====
-- The calls that `parseFunctionCallsInvoke` lets through.
use sandbar.Base.{
  Str, codes, str_eq, if◌then◌else◌, true, false, Option, none, some, List, [], ◌∷◌, not, ◌&&◌, Map,
  lookup, insert, contains, is_nil, All, All-append, ◌≡◌, refl, arith, if-holds,
}
use sandbar.Agent.TextTools.Scan.{cut_at, collect}
use sandbar.Agent.TextTools.Tables.{resolve_tool_name, registered_text_tool_args, is_tool_ident}
use sandbar.Agent.TextTools.{
  TextValue, TextHost, RawCall, insert_all, element, allowed_params, encode_call, metadata_agrees,
  invoke_call, calls_of, wrapper, invokes_of, parse_function_calls_invoke,
}

-- Every name of the arguments is one of those that are allowed.
abbrev pub Within : List Str → Map TextValue → Type 0
Within allowed params = All (λ p. contains p.0 allowed ≡ true) params

-- A call of a registered tool with some of the arguments that it takes.
abbrev pub Registered : TextHost → RawCall → Type 0
Registered h c =
    (allowed : List Str) × (params : Map TextValue) × (lookup c.name registered_text_tool_args
      ≡ some allowed)
    × (is_nil params ≡ false)
    × (h.marshal params ≡ some c.arguments)
    × Within allowed params

insert-Within :
    (allowed : List Str) (name : Str) (v : TextValue) (params : Map TextValue)
    → contains name allowed ≡ true
    → Within allowed params
    → Within allowed (insert name v params)
unfolding insert
insert-Within allowed name v [] ok h = (ok, tt)
insert-Within allowed name v ((j, w) ∷ params) ok h =
    if-holds (Within allowed) (str_eq j name) _ _ (λ e. (h.0, h.1))
      (λ e. (h.0, insert-Within allowed name v params ok h.1))

insert_all-Within :
    (allowed : List Str) (pairs : List (Str × TextValue)) (params : Map TextValue)
    → All (λ p. contains p.0 allowed ≡ true) pairs
    → Within allowed params
    → Within allowed (insert_all pairs params)
unfolding insert_all
insert_all-Within allowed [] params h k = k
insert_all-Within allowed ((name, v) ∷ pairs) params h k =
    insert_all-Within allowed pairs (insert name v params) h.1
      (insert-Within allowed name v params h.0 k)

allowed_params-Within :
    (h : TextHost) (allowed : List Str) (pairs : List (Str × Str))
    → All (λ p. contains p.0 allowed ≡ true) (allowed_params h allowed pairs)
unfolding allowed_params
allowed_params-Within h allowed [] = tt
allowed_params-Within h allowed ((name, value) ∷ pairs) =
    if-holds (All (λ (p : Str × TextValue). contains p.0 allowed ≡ true))
      (is_tool_ident name && contains name allowed) _ _
      (λ e. (ground (arith, e), allowed_params-Within h allowed pairs))
      (λ e. allowed_params-Within h allowed pairs)

-- A candidate gives no call or one that meets a predicate.
abbrev Gives : (RawCall → Type 0) → Option RawCall → Type 0
Gives P none = Unit
Gives P (some c) = P c

encode_call-Registered :
    (h : TextHost) (name : Str) (allowed : List Str) (params : Map TextValue)
    → lookup name registered_text_tool_args ≡ some allowed
    → Within allowed params
    → Gives (Registered h) (encode_call h name params)
unfolding encode_call
encode_call-Registered h name allowed params known within =
    if-holds (Gives (Registered h)) (is_nil params) _ _ (λ e. tt)
      (λ e. by_text e (h.marshal params) refl)
  where
    by_text :
        is_nil params ≡ false
        → (o : Option Str) → h.marshal params ≡ o
        → Gives (Registered h) (elim o as (λ x. Option RawCall) [
          | none ↦ none
          | some arguments ↦ some (record { name = name; arguments = arguments })
        ])
    by_text full none same = tt
    by_text full (some arguments) same = (allowed, params, known, full, same, within)

invoke_call-Registered : (h : TextHost) (e : Str × Str) → Gives (Registered h) (invoke_call h e)
unfolding invoke_call
invoke_call-Registered h (raw_name, body) =
    if-holds (Gives (Registered h)) (not (is_tool_ident raw_name)) _ _ (λ e. tt)
      (λ e. by_tool (lookup (resolve_tool_name raw_name) registered_text_tool_args) refl)
  where
    by_arguments :
        (allowed : List Str)
        → lookup (resolve_tool_name raw_name) registered_text_tool_args ≡ some allowed
        → (o : Option (Str × Str))
        → Gives (Registered h) (elim o as (λ x. Option RawCall) [
          | none ↦ none
          | some (before, arguments_body) ↦ encode_call h (resolve_tool_name raw_name) (
              insert_all
                (allowed_params h allowed (
                  collect
                    (element h (codes "<parameter name=\"") (codes "</parameter>"))
                    arguments_body))
                [])
        ])
    by_arguments allowed known none = tt
    by_arguments allowed known (some (before, arguments_body)) =
        encode_call-Registered h (resolve_tool_name raw_name) allowed _ known
          (insert_all-Within allowed _ [] (allowed_params-Within h allowed _) tt)

    by_tool :
        (o : Option (List Str))
        → lookup (resolve_tool_name raw_name) registered_text_tool_args ≡ o
        → Gives (Registered h) (elim o as (λ x. Option RawCall) [
          | none ↦ none
          | some allowed ↦
              if not (metadata_agrees h body (resolve_tool_name raw_name))
              then none
              else elim (cut_at (codes "<parameter name=\"arguments\">") body)
                  as (λ x. Option RawCall) [
                    | none ↦ none
                    | some (before, arguments_body) ↦ encode_call h (resolve_tool_name raw_name) (
                        insert_all
                          (allowed_params h allowed (
                            collect
                              (element h (codes "<parameter name=\"") (codes "</parameter>"))
                              arguments_body))
                          [])
                  ]
        ])
    by_tool none known = tt
    by_tool (some allowed) known =
        if-holds (Gives (Registered h)) (not (metadata_agrees h body (resolve_tool_name raw_name)))
          _ _ (λ e. tt)
          (λ e. by_arguments allowed known (cut_at (codes "<parameter name=\"arguments\">") body))

calls_of-All :
    {A : Type 0} (P : RawCall → Type 0) (call : A → Option RawCall) (xs : List A)
    → ((x : A) → Gives P (call x))
    → All P (calls_of call xs)
unfolding calls_of
calls_of-All P call [] gives = tt
calls_of-All P call (x ∷ xs) gives = by_call (call x) (gives x) (calls_of-All P call xs gives)
  where
    by_call :
        (o : Option RawCall)
        → Gives P o
        → All P (calls_of call xs)
        → All P (elim o as (λ x. List RawCall) [
          | none ↦ calls_of call xs
          | some c ↦ c ∷ calls_of call xs
        ])
    by_call none given rest = rest
    by_call (some c) given rest = (given, rest)

invokes_of-Registered :
    (h : TextHost) (blocks : List Str) → All (Registered h) (invokes_of h blocks)
unfolding invokes_of
invokes_of-Registered h [] = tt
invokes_of-Registered h (block ∷ blocks) =
    All-append (Registered h) _ (invokes_of h blocks)
      (calls_of-All (Registered h) (invoke_call h) _ (invoke_call-Registered h))
      (invokes_of-Registered h blocks)

-- Every call that `parseFunctionCallsInvoke` reads from a text is of a tool in
-- `registeredTextToolArgs`, and has at least one argument and only such as the table lists for it.
pub parse_function_calls_invoke-Registered :
    (h : TextHost) (content : Str) → All (Registered h) (parse_function_calls_invoke h content)
unfolding parse_function_calls_invoke
parse_function_calls_invoke-Registered h content = invokes_of-Registered h (collect wrapper content)
