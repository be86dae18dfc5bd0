-- ===== src/Tools/Execute.antt =====
-- `Registry.Execute` of internal/tools/registry.go: the one way from a tool call to its handler.
-- What it does in the world is the list of events beside its result, in order. Observer delivery,
-- ids, times and the texts of errors and reasons are left out; `cloneArguments` copies, so it has
-- no counterpart here. The schema check `validateToolArguments` is the field `schema_ok`.
pub mod Requests
pub mod Safety
pub mod Records
pub mod Audit
use sandbar.Base.{
  Str, codes, Map, lookup, str_eq, if◌then◌else◌, is_nil, Bool, true, false, Option, none, some,
  List, [], ◌∷◌, ◌++◌, not, ◌&&◌,
}
use sandbar.Tools.Approval.{
  Tier, read, exec, tier_eq, tier_valid, Policy, allow, deny, prompt, other_policy, Request, Config,
  Chosen, chosen, invalid, resolve_approval_policy, Source, from_metadata_resolver, from_validation,
  from_no_handler, from_handler,
}

-- `ApprovalTarget`
pub record Target (A : Type 0) : Type 0 where
  pub tool : Str
  pub tier : Tier
  pub action : Str
  pub resource : Str
  pub summary : Str
  pub arguments : Map (Option A)

-- What a metadata resolver returns; its `Arguments` may be nil, so they are optional.
pub record Resolved (A : Type 0) : Type 0 where
  pub tier : Tier
  pub action : Str
  pub resource : Str
  pub summary : Str
  pub arguments : Option (Map (Option A))

-- `Tool`: a resolver returns none for an error, an executor none for an error.
pub record Tool (A : Type 0) : Type 0 where
  pub name : Str
  pub description : Str
  pub tier : Tier
  pub resolver : Option (Target A → Option (Resolved A))
  pub required : List Str
  pub schema_ok : Map (Option A) → Bool
  pub executor : Option (Map (Option A) → Option Str)

pub record Decision : Type 0 where
  pub policy : Policy
  pub source : Source
  pub prompted : Bool

pub data Outcome : Type 0 where
  succeeded denied failed : Outcome

pub data Event (A : Type 0) : Type 0 where
  asked : Request A → Event A
  executed : Map (Option A) → Event A
  observed : Request A → Decision → Outcome → Event A

pub data Failure : Type 0 where
  unknown_tool plan_mode_active invalid_approval approval_denied approval_unavailable : Failure
  missing_arguments : List Str → Failure
  invalid_arguments no_executor cancelled tool_error : Failure

pub data Reply : Type 0 where
  output : Str → Reply
  failure : Failure → Reply

abbrev pub Trace : Type 0 → Type 0
Trace A = List (Event A) × Reply

-- The context of a call: plan mode, the approval handler in force (none for a handler error), and
-- whether the context is done when the decision has been taken.
pub record Context (A : Type 0) : Type 0 where
  pub plan_mode : Bool
  pub handler : Option (Request A → Option Policy)
  pub cancelled : Bool

-- `denialDecision`
abbrev pub denial : Source → Bool → Decision
denial source prompted = record { policy = deny; source = source; prompted = prompted }

-- A missing or malformed tier counts as the most privileged one.
abbrev pub fallback_tier : Tier → Tier
fallback_tier t = if tier_valid t then t else exec

module _ {A : Type 0} where
  abbrev pub refuse : Request A → Decision → Outcome → Failure → Trace A
  refuse req decision outcome f = (observed req decision outcome ∷ [], failure f)

  unfoldable pub request_from_target : Target A → Bool → Request A
  request_from_target target valid = record {
    tool = target.tool;
    tier = target.tier;
    action = target.action;
    resource = target.resource;
    summary = target.summary;
    arguments = target.arguments;
    metadata_valid = valid;
  }

  unfoldable pub base_target : Tool A → Map (Option A) → Target A
  base_target tool args = record {
    tool = tool.name;
    tier = fallback_tier tool.tier;
    action = tool.name;
    resource = [];
    summary = tool.description;
    arguments = args;
  }

  -- The target that a resolver's answer leaves, with the defaults for what it left empty.
  unfoldable pub refine : Target A → Resolved A → Target A
  refine target r = record {
    tool = target.tool;
    tier = fallback_tier r.tier;
    action = if is_nil r.action then target.action else r.action;
    resource = r.resource;
    summary = if is_nil r.summary then target.summary else r.summary;
    arguments = elim r.arguments [ none ↦ target.arguments | some args ↦ args ];
  }

  -- `target.Arguments[field]` is absent or nil.
  unfoldable pub is_missing : Str → Map (Option A) → Bool
  is_missing field args = elim (lookup field args) [
    | none ↦ true
    | some value ↦ elim value [ none ↦ true | some v ↦ false ]
  ]

  unfoldable pub missing_fields : List Str → Map (Option A) → List Str
  missing_fields [] args = []
  missing_fields (field ∷ fields) args =
      let rest = missing_fields fields args in if is_missing field args then field ∷ rest else rest

  -- From the check of `ctx.Err()` on.
  unfoldable pub run_tool :
      Context A → Request A → Decision → (Map (Option A) → Option Str) → Map (Option A) → Trace A
  run_tool ctx req decision executor args =
      if ctx.cancelled then refuse req decision failed cancelled else elim (executor args) [
        | none ↦ (executed args ∷ observed req decision failed ∷ [], failure tool_error)
        | some out ↦ (executed args ∷ observed req decision succeeded ∷ [], output out)
      ]

  abbrev pub after_asking : Request A → Trace A → Trace A
  after_asking req (events, reply) = (asked req ∷ events, reply)

  -- `case PolicyPrompt`
  unfoldable pub ask_handler :
      Context A → Request A → (Map (Option A) → Option Str) → Map (Option A) → Trace A
  ask_handler ctx req executor args = elim ctx.handler [
    | none ↦ refuse req (denial from_no_handler true) denied approval_unavailable
    | some handler ↦ after_asking req (elim (handler req) [
      | none ↦ refuse req (denial from_handler true) denied invalid_approval
      | some policy ↦ elim policy [
        | allow ↦
            run_tool ctx req (record { policy = allow; source = from_handler; prompted = true })
              executor args
        | deny ↦ refuse req (denial from_handler true) denied approval_denied
        | prompt ↦ refuse req (denial from_handler true) denied invalid_approval
        | other_policy s ↦ refuse req (denial from_handler true) denied invalid_approval
      ]
    ])
  ]

  -- The switch on the policy. A policy that is none of the three falls through to the execution.
  unfoldable pub apply_policy :
      Context A → Config A → Request A → (Map (Option A) → Option Str) → Map (Option A) → Trace A
  apply_policy ctx cfg req executor args = elim (resolve_approval_policy cfg req) [
    | invalid source ↦ refuse req (denial source false) denied invalid_approval
    | chosen policy source ↦ elim policy [
      | deny ↦ refuse req (denial source false) denied approval_denied
      | prompt ↦ ask_handler ctx req executor args
      | allow ↦
          run_tool ctx req (record { policy = allow; source = source; prompted = false }) executor
            args
      | other_policy s ↦
          run_tool ctx req (record { policy = other_policy s; source = source; prompted = false })
            executor args
    ]
  ]

  -- From `requestFromTarget` to the executor's nil check.
  unfoldable pub check_call : Context A → Config A → Tool A → Target A → Bool → Trace A
  check_call ctx cfg tool target valid =
      let req = request_from_target target valid in
      let missing = missing_fields tool.required target.arguments in
      if not (is_nil missing)
      then refuse req (denial from_validation false) failed (missing_arguments missing)
      else if not (tool.schema_ok target.arguments)
      then refuse req (denial from_validation false) failed invalid_arguments
      else elim tool.executor [
        | none ↦ refuse req (denial from_validation false) failed no_executor
        | some executor ↦ apply_policy ctx cfg req executor target.arguments
      ]

  -- The plan-mode gate, after the tier is resolved.
  unfoldable pub plan_gate : Context A → Config A → Tool A → Target A → Bool → Trace A
  plan_gate ctx cfg tool target valid =
      if ctx.plan_mode
        && (not (tier_eq target.tier read) && not (str_eq target.tool (codes "todo")))
      then ([], failure plan_mode_active)
      else check_call ctx cfg tool target valid

  -- After a metadata resolver has answered.
  unfoldable pub gate_resolved :
      Context A → Config A → Tool A → Target A → Option (Resolved A) → Trace A
  gate_resolved ctx cfg tool target none =
      refuse (request_from_target target false) (denial from_metadata_resolver false) denied
        invalid_approval
  gate_resolved ctx cfg tool target (some r) =
      plan_gate ctx cfg tool (refine target r) (tier_valid r.tier)

  -- `if tool.Metadata.Resolver != nil`
  unfoldable pub resolve_and_gate :
      Context A → Config A → Tool A → Target A → Option (Target A → Option (Resolved A)) → Trace A
  resolve_and_gate ctx cfg tool target none = plan_gate ctx cfg tool target (tier_valid tool.tier)
  resolve_and_gate ctx cfg tool target (some resolve) =
      gate_resolved ctx cfg tool target (resolve target)

  unfoldable pub execute_tool : Context A → Config A → Tool A → Map (Option A) → Trace A
  execute_tool ctx cfg tool args =
      resolve_and_gate ctx cfg tool (base_target tool args) tool.resolver

  -- `Registry.Execute`
  unfoldable pub execute : Context A → Config A → Map (Tool A) → Str → Map (Option A) → Trace A
  execute ctx cfg tools name args = elim (lookup name tools) [
    | none ↦ ([], failure unknown_tool)
    | some tool ↦ execute_tool ctx cfg tool args
  ]
