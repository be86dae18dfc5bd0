-- ===== src/Tools/Execute/Requests.antt =====
-- The request that a tool call is judged by: the tool's metadata, or what its resolver makes of them.
use sandbar.Base.{
  Str, Map, if◌then◌else◌, is_nil, Bool, true, false, Option, none, some, [], ◌∷◌, ◌≡◌, ◌≢◌, ◌⊎◌,
  inl, inr, refl, ap, ◌∙◌, Bool-cases,
}
use sandbar.Tools.Approval.{Tier, exec, tier_valid, Request}
use sandbar.Tools.Execute.{
  Target, Resolved, Tool, request_from_target, fallback_tier, base_target, refine,
}

-- A tier that is none of the four counts as `exec`, and the request says that it was malformed.
abbrev pub Tiered : Tier → Tier → Bool → Type 0
Tiered given used valid =
    (tier_valid given ≡ true) × (used ≡ given) × (valid ≡ true)
    ⊎ (tier_valid given ≡ false) × (used ≡ exec) × (valid ≡ false)

-- A text that may be left empty.
abbrev pub Given : Str → Str → Str → Type 0
Given given default used = (given ≡ []) × (used ≡ default) ⊎ (given ≢ []) × (used ≡ given)

fallback_tier-Tiered : (t : Tier) → Tiered t (fallback_tier t) (tier_valid t)
fallback_tier-Tiered t = elim (Bool-cases (tier_valid t)) [
  | inl e ↦ rw e (inl (refl, refl, refl))
  | inr e ↦ rw e (inr (refl, refl, refl))
]

default-Given :
    (given default : Str) → Given given default (if is_nil given then default else given)
default-Given [] default = inl (refl, refl)
default-Given (c ∷ s) default = inr (λ e. cc e, refl)

module _ {A : Type 0} where
  abbrev pub target_of : Request A → Target A
  target_of req = record {
    tool = req.tool;
    tier = req.tier;
    action = req.action;
    resource = req.resource;
    summary = req.summary;
    arguments = req.arguments;
  }

  -- The request of a tool without a resolver.
  abbrev pub Declared : Tool A → Map (Option A) → Request A → Type 0
  Declared tool args req =
      (req.tool ≡ tool.name)
      × Tiered tool.tier req.tier req.metadata_valid
      × (req.action ≡ tool.name)
      × (req.resource ≡ [])
      × (req.summary ≡ tool.description)
      × (req.arguments ≡ args)

  -- The request after a resolver's answer.
  abbrev pub Refined : Request A → Resolved A → Request A → Type 0
  Refined base r req =
      (req.tool ≡ base.tool)
      × Tiered r.tier req.tier req.metadata_valid
      × Given r.action base.action req.action
      × (req.resource ≡ r.resource)
      × Given r.summary base.summary req.summary
      × ((r.arguments ≡ none → req.arguments ≡ base.arguments)
          × ((m : Map (Option A)) → r.arguments ≡ some m → req.arguments ≡ m))

  -- The request that this call of this tool makes.
  abbrev pub Due : Tool A → Map (Option A) → Request A → Type 0
  Due tool args req =
      (tool.resolver ≡ none) × Declared tool args req
      ⊎ (f : Target A → Option (Resolved A)) × (base : Request A) × (r : Resolved A)
        × (tool.resolver ≡ some f)
        × Declared tool args base
        × (f (target_of base) ≡ some r)
        × Refined base r req

  -- The request that is reported when the resolver fails.
  abbrev pub Unresolved : Tool A → Map (Option A) → Request A → Type 0
  Unresolved tool args req =
      (f : Target A → Option (Resolved A)) × (base : Request A) × (tool.resolver ≡ some f)
      × Declared tool args base
      × (f (target_of base) ≡ none)
      × (req ≡ record base { metadata_valid = false })

  abbrev pub base_request : Tool A → Map (Option A) → Request A
  base_request tool args = request_from_target (base_target tool args) (tier_valid tool.tier)

  pub base-Declared :
      (tool : Tool A) (args : Map (Option A)) → Declared tool args (base_request tool args)
  unfolding request_from_target base_target
  base-Declared tool args = (refl, fallback_tier-Tiered tool.tier, refl, refl, refl, refl)

  pub target_of-base :
      (tool : Tool A) (args : Map (Option A))
      → target_of (base_request tool args) ≡ base_target tool args
  unfolding request_from_target base_target
  target_of-base tool args = refl

  pub refine-Refined :
      (tool : Tool A) (args : Map (Option A)) (r : Resolved A)
      → Refined
          (base_request tool args)
          r
          (request_from_target (refine (base_target tool args) r) (tier_valid r.tier))
  unfolding request_from_target base_target refine
  refine-Refined tool args r = (
    refl,
    fallback_tier-Tiered r.tier,
    default-Given r.action tool.name,
    refl,
    default-Given r.summary tool.description,
    (λ e. rw e refl, λ m e. rw e refl),
  )

  pub declared-Due :
      (tool : Tool A) (args : Map (Option A))
      → tool.resolver ≡ none
      → Due tool args (base_request tool args)
  declared-Due tool args plain = inl (plain, base-Declared tool args)

  pub resolved-Due :
      (tool : Tool A) (args : Map (Option A)) (f : Target A → Option (Resolved A)) (r : Resolved A)
      → tool.resolver ≡ some f
      → f (base_target tool args) ≡ some r
      → Due tool args (request_from_target (refine (base_target tool args) r) (tier_valid r.tier))
  resolved-Due tool args f r resolver found = inr (
    f,
    base_request tool args,
    r,
    resolver,
    base-Declared tool args,
    ap f (target_of-base tool args) ∙ found,
    refine-Refined tool args r,
  )

  pub failed-Unresolved :
      (tool : Tool A) (args : Map (Option A)) (f : Target A → Option (Resolved A))
      → tool.resolver ≡ some f
      → f (base_target tool args) ≡ none
      → Unresolved tool args (request_from_target (base_target tool args) false)
  unfolding request_from_target
  failed-Unresolved tool args f resolver lost = (
    f,
    base_request tool args,
    resolver,
    base-Declared tool args,
    ap f (target_of-base tool args) ∙ lost,
    refl,
  )
