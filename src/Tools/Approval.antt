-- ===== src/Tools/Approval.antt =====
-- internal/tools/approval.go: tiers, policies and modes, and the choice of a policy for a call
-- (`resolveApprovalPolicy` of internal/tools/registry.go). The named string types have their known
-- values as constructors, and one constructor for any other string.
pub mod Policies
use sandbar.Base.{
  ℕ, Str, Map, lookup, str_eq, leb, if◌then◌else◌, is_nil, Bool, true, false, Option, none, some,
  List, [], ◌∷◌,
}

pub data Tier : Type 0 where
  read write exec : Tier
  other_tier : Str → Tier

-- `AccessTier.Valid`
unfoldable pub tier_valid : Tier → Bool
tier_valid read = true
tier_valid write = true
tier_valid exec = true
tier_valid (other_tier s) = false

-- `AccessTier.Rank`
unfoldable pub rank : Tier → ℕ
rank read = 1
rank write = 2
rank exec = 3
rank (other_tier s) = 4

abbrev pub tier_eq : Tier → Tier → Bool
tier_eq read read = true
tier_eq write write = true
tier_eq exec exec = true
tier_eq (other_tier s) (other_tier t) = str_eq s t
tier_eq _ _ = false

pub data Policy : Type 0 where
  allow deny prompt : Policy
  other_policy : Str → Policy

-- `ApprovalPolicy.valid`
unfoldable pub policy_valid : Policy → Bool
policy_valid allow = true
policy_valid deny = true
policy_valid prompt = true
policy_valid (other_policy s) = false

-- `other_mode ""` is the unset mode.
pub data Mode : Type 0 where
  yolo write_mode always_ask : Mode
  other_mode : Str → Mode

unfoldable pub mode_valid : Mode → Bool
mode_valid yolo = true
mode_valid write_mode = true
mode_valid always_ask = true
mode_valid (other_mode s) = false

-- `defaultPolicy`
unfoldable pub default_policy : Mode → Tier → Policy
default_policy always_ask tier = if leb (rank write) (rank tier) then prompt else allow
default_policy write_mode tier = if leb (rank exec) (rank tier) then prompt else allow
default_policy yolo tier = allow
default_policy (other_mode s) tier = prompt

-- `ApprovalRequest`, less the fields that identify the call (ids, workspace, time).
pub record Request (A : Type 0) : Type 0 where
  pub tool : Str
  pub tier : Tier
  pub action : Str
  pub resource : Str
  pub summary : Str
  pub arguments : Map (Option A)
  pub metadata_valid : Bool

-- What `ResolveApproval` returns: an error, `matched = false`, or a policy.
pub data Resolution : Type 0 where
  resolver_error : Resolution
  unmatched : Resolution
  matched : Policy → Resolution

pub record Config (A : Type 0) : Type 0 where
  pub mode : Mode
  pub tool_policies : Map Policy
  pub tier_policies : List (Tier × Policy)
  pub resolver : Option (Request A → Resolution)

unfoldable pub lookup_tier : Tier → List (Tier × Policy) → Option Policy
lookup_tier t [] = none
lookup_tier t ((u, p) ∷ ps) = if tier_eq u t then some p else lookup_tier t ps

pub data Source : Type 0 where
  from_resolver from_tool_policy from_tier_policy from_mode : Source
  from_metadata_resolver from_validation from_no_handler from_handler : Source

-- A policy with its source, or an error with its source.
pub data Chosen : Type 0 where
  chosen : Policy → Source → Chosen
  invalid : Source → Chosen

module _ {A : Type 0} where
  -- The precedence levels below the resolver.
  unfoldable pub configured_policy : Config A → Request A → Chosen
  configured_policy cfg req = elim (lookup req.tool cfg.tool_policies) [
    | some policy ↦ chosen policy from_tool_policy
    | none ↦ elim (lookup_tier req.tier cfg.tier_policies) [
      | some policy ↦ chosen policy from_tier_policy
      | none ↦ chosen (default_policy cfg.mode req.tier) from_mode
    ]
  ]

  -- `resolveApprovalPolicy`
  unfoldable pub resolve_approval_policy : Config A → Request A → Chosen
  unfolding configured_policy
  resolve_approval_policy cfg req = elim cfg.resolver [
    | none ↦ configured_policy cfg req
    | some resolve ↦ elim (resolve req) [
      | resolver_error ↦ invalid from_resolver
      | unmatched ↦ configured_policy cfg req
      | matched policy ↦
          if policy_valid policy then chosen policy from_resolver else invalid from_resolver
    ]
  ]

-- `ApprovalConfig.Validate`: the two loops over the maps.
unfoldable pub tool_policies_valid : (Str → Str) → Map Policy → Bool
tool_policies_valid trim [] = true
tool_policies_valid trim ((name, policy) ∷ ps) =
    let rest = tool_policies_valid trim ps in
    if is_nil (trim name) then false else if policy_valid policy then rest else false

unfoldable pub tier_policies_valid : List (Tier × Policy) → Bool
tier_policies_valid [] = true
tier_policies_valid ((tier, policy) ∷ ps) =
    let rest = tier_policies_valid ps in
    if tier_valid tier then (if policy_valid policy then rest else false) else false

-- An unset mode counts as yolo, in `Validate` and in `clone`.
unfoldable pub effective_mode : Mode → Mode
effective_mode (other_mode []) = yolo
effective_mode (other_mode (c ∷ s)) = other_mode (c ∷ s)
effective_mode m = m

-- `Validate` returns no error; `trim` is `strings.TrimSpace`.
unfoldable pub config_valid : {A : Type 0} → (Str → Str) → Config A → Bool
config_valid trim cfg =
    if mode_valid (effective_mode cfg.mode)
    then (if tool_policies_valid trim cfg.tool_policies
        then tier_policies_valid cfg.tier_policies
        else false)
    else false

-- One entry of `RewritePromptToAllow`.
unfoldable pub rewrite_policy : Policy → Policy
rewrite_policy prompt = allow
rewrite_policy allow = allow
rewrite_policy deny = deny
rewrite_policy (other_policy s) = other_policy s

-- `RewritePromptToAllow`. The source writes into the two maps of its argument, which the caller
-- still holds; the model returns the new maps.
unfoldable pub rewrite_tools : Map Policy → Map Policy
rewrite_tools [] = []
rewrite_tools ((name, p) ∷ ps) = (name, rewrite_policy p) ∷ rewrite_tools ps

unfoldable pub rewrite_tiers : List (Tier × Policy) → List (Tier × Policy)
rewrite_tiers [] = []
rewrite_tiers ((tier, p) ∷ ps) = (tier, rewrite_policy p) ∷ rewrite_tiers ps

unfoldable pub rewrite_prompt_to_allow : {A : Type 0} → Config A → Config A
rewrite_prompt_to_allow cfg = record cfg {
  tool_policies = rewrite_tools cfg.tool_policies;
  tier_policies = rewrite_tiers cfg.tier_policies;
}
