-- ===== src/Tools/Approval/Policies.antt =====
-- Which policies a configuration can select.
use sandbar.Base.{◌≤◌, Str, Map, lookup, true, Option, none, some, List, [], ◌∷◌, ◌≡◌, refl, arith}
use sandbar.Tools.Approval.{
  Tier, rank, Policy, allow, deny, prompt, other_policy, policy_valid, Mode, yolo, default_policy,
  Request, Config, lookup_tier, Source, Chosen, chosen, invalid, configured_policy,
  resolve_approval_policy, config_valid, tool_policies_valid, tier_policies_valid, rewrite_policy,
  rewrite_tools, rewrite_tiers, rewrite_prompt_to_allow,
}

-- The default policy never denies, and it prompts for a higher tier whenever it does for a lower.
pub default_policy-monotone :
    (m : Mode) (t u : Tier)
    → rank t ≤ rank u
    → default_policy m t ≡ prompt
    → default_policy m u ≡ prompt
unfolding default_policy rank
default_policy-monotone m t u h p = ground arith

abbrev rewritten : Option Policy → Option Policy
rewritten none = none
rewritten (some p) = some (rewrite_policy p)

lookup-rewrite_tools :
    (k : Str) (ps : Map Policy) → lookup k (rewrite_tools ps) ≡ rewritten (lookup k ps)
unfolding lookup rewrite_tools
lookup-rewrite_tools k [] = refl
lookup-rewrite_tools k ((j, p) ∷ ps) = ground (arith, lookup-rewrite_tools k ps)

lookup_tier-rewrite_tiers :
    (t : Tier) (ps : List (Tier × Policy))
    → lookup_tier t (rewrite_tiers ps) ≡ rewritten (lookup_tier t ps)
unfolding lookup_tier rewrite_tiers
lookup_tier-rewrite_tiers t [] = refl
lookup_tier-rewrite_tiers t ((u, p) ∷ ps) = ground (arith, lookup_tier-rewrite_tiers t ps)

-- Every prompt is an allow, and nothing else changes.
abbrev pub softened : Chosen → Chosen
softened (chosen prompt s) = chosen allow s
softened (chosen allow s) = chosen allow s
softened (chosen deny s) = chosen deny s
softened (chosen (other_policy p) s) = chosen (other_policy p) s
softened (invalid s) = invalid s

-- In yolo mode and without a resolver, a configuration rewritten by `RewritePromptToAllow` makes
-- the same choice for every call as before, from the same source, but that a prompt has become an
-- allow; a deny stays a deny.
pub rewrite-resolve :
    {A : Type 0} (cfg : Config A) (req : Request A)
    → cfg.mode ≡ yolo
    → cfg.resolver ≡ none
    → resolve_approval_policy (rewrite_prompt_to_allow cfg) req
      ≡ softened (resolve_approval_policy cfg req)
unfolding resolve_approval_policy configured_policy rewrite_prompt_to_allow rewrite_policy
    default_policy
rewrite-resolve cfg req m r = ground (
  arith,
  lookup-rewrite_tools req.tool cfg.tool_policies,
  lookup_tier-rewrite_tiers req.tier cfg.tier_policies,
)

tool_policies-lookup :
    (trim : Str → Str) (ps : Map Policy) (k : Str) (p : Policy)
    → tool_policies_valid trim ps ≡ true
    → lookup k ps ≡ some p
    → policy_valid p ≡ true
unfolding tool_policies_valid lookup
tool_policies-lookup trim [] k p v e = cc
tool_policies-lookup trim ((j, q) ∷ ps) k p v e = ground (arith, tool_policies-lookup trim ps k p)

tier_policies-lookup :
    (ps : List (Tier × Policy)) (t : Tier) (p : Policy)
    → tier_policies_valid ps ≡ true
    → lookup_tier t ps ≡ some p
    → policy_valid p ≡ true
unfolding tier_policies_valid lookup_tier
tier_policies-lookup [] t p v e = cc
tier_policies-lookup ((u, q) ∷ ps) t p v e = ground (arith, tier_policies-lookup ps t p)

default_policy-valid : (m : Mode) (t : Tier) → policy_valid (default_policy m t) ≡ true
unfolding default_policy policy_valid
default_policy-valid m t = ground arith

configured-valid :
    {A : Type 0} (trim : Str → Str) (cfg : Config A) (req : Request A) (p : Policy) (s : Source)
    → config_valid trim cfg ≡ true
    → configured_policy cfg req ≡ chosen p s
    → policy_valid p ≡ true
unfolding configured_policy config_valid
configured-valid trim cfg req p s v e = ground (
  arith,
  tool_policies-lookup trim cfg.tool_policies req.tool p,
  tier_policies-lookup cfg.tier_policies req.tier p,
  default_policy-valid cfg.mode req.tier,
)

-- A configuration that passes `Validate` selects for every call one of the policies allow, deny and
-- prompt, or an error.
pub resolve-valid :
    {A : Type 0} (trim : Str → Str) (cfg : Config A) (req : Request A) (p : Policy) (s : Source)
    → config_valid trim cfg ≡ true
    → resolve_approval_policy cfg req ≡ chosen p s
    → policy_valid p ≡ true
unfolding resolve_approval_policy
resolve-valid trim cfg req p s v e = ground (arith, configured-valid trim cfg req p s v)
