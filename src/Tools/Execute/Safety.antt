-- ===== src/Tools/Execute/Safety.antt =====
-- What has to hold before a tool's handler runs.
use sandbar.Base.{
  Str, codes, Map, lookup, str_eq, is_nil, Bool, true, false, Option, none, some, List, [], ◌∷◌,
  not, ◌&&◌, ◌≡◌, ◌⊎◌, inl, inr, refl, arith, Bool-cases, Option-cases,
}
use sandbar.Tools.Approval.{
  read, tier_eq, tier_valid, Policy, allow, deny, prompt, other_policy, policy_valid, Request,
  Config, Chosen, chosen, invalid, resolve_approval_policy, Source, config_valid, from_handler,
}
use sandbar.Tools.Approval.Policies.{resolve-valid}
use sandbar.Tools.Execute.Requests.{Due, declared-Due, resolved-Due}
use sandbar.Tools.Execute.{
  Target, Resolved, Tool, Decision, denied, Event, asked, executed, observed, Failure, Trace,
  Context, denial, refuse, request_from_target, base_target, refine, missing_fields, run_tool,
  after_asking, ask_handler, apply_policy, check_call, plan_gate, gate_resolved, resolve_and_gate,
  execute_tool, execute,
}

module _ {A : Type 0} where
  -- `P` holds of the arguments of every run of a handler.
  abbrev pub Runs : (Map (Option A) → Type 0) → List (Event A) → Type 0
  Runs P [] = Unit
  Runs P (executed args ∷ es) = P args × Runs P es
  Runs P (asked req ∷ es) = Runs P es
  Runs P (observed req d o ∷ es) = Runs P es

  -- The policy for the call is allow, or it is prompt and the handler allowed this very request.
  abbrev pub Permitted : Context A → Config A → Request A → Type 0
  Permitted ctx cfg req =
      ((s : Source) × (resolve_approval_policy cfg req ≡ chosen allow s))
      ⊎ ((s : Source) × (h : Request A → Option Policy) × (resolve_approval_policy cfg req
            ≡ chosen prompt s)
          × (ctx.handler ≡ some h)
          × (h req ≡ some allow))

  -- In plan mode the call is of the read tier, or of the todo tool.
  abbrev pub Planned : Context A → Request A → Type 0
  Planned ctx req =
      (ctx.plan_mode ≡ false)
      ⊎ ((tier_eq req.tier read ≡ true) ⊎ (str_eq req.tool (codes "todo") ≡ true))

  -- Why a run with these arguments is in order: they are those of the request that this call makes,
  -- which was permitted, and the call was not cancelled.
  abbrev pub Authorized : Context A → Config A → Tool A → Map (Option A) → Map (Option A) → Type 0
  Authorized ctx cfg tool args ran =
      (req : Request A) × Due tool args req
      × (ran ≡ req.arguments)
      × Permitted ctx cfg req
      × Planned ctx req
      × (ctx.cancelled ≡ false)

  run_tool-Runs :
      (P : Map (Option A) → Type 0) (ctx : Context A) (req : Request A) (d : Decision)
      (executor : Map (Option A) → Option Str) (args : Map (Option A))
      → (ctx.cancelled ≡ false → P args)
      → Runs P (run_tool ctx req d executor args).0
  unfolding run_tool
  run_tool-Runs P ctx req d executor args h = elim (Bool-cases ctx.cancelled) [
    | inl e ↦ rw e tt
    | inr e ↦ rw e (elim (Option-cases (executor args)) [
      | inl f ↦ rw f (h e, tt)
      | inr (out, f) ↦ rw f (h e, tt)
    ])
  ]

  ask_handler-Runs :
      (P : Map (Option A) → Type 0) (ctx : Context A) (req : Request A)
      (executor : Map (Option A) → Option Str) (args : Map (Option A))
      → ((h : Request A → Option Policy)
          → ctx.handler ≡ some h
          → h req ≡ some allow
          → ctx.cancelled ≡ false
          → P args)
      → Runs P (ask_handler ctx req executor args).0
  unfolding ask_handler run_tool
  ask_handler-Runs P ctx req executor args k = elim (Option-cases ctx.handler) [
    | inl e ↦ rw e tt
    | inr (h, e) ↦ rw e (answer h e (h req) refl)
  ]
    where
      answer :
          (h : Request A → Option Policy)
          → ctx.handler ≡ some h
          → (o : Option Policy) → h req ≡ o
          → Runs P
              (after_asking req (elim o [
                | none ↦ refuse req (denial from_handler true) denied Failure.invalid_approval
                | some policy ↦ elim policy [
                  | allow ↦
                      run_tool ctx req
                        (record { policy = allow; source = from_handler; prompted = true })
                        executor
                        args
                  | deny ↦ refuse req (denial from_handler true) denied Failure.approval_denied
                  | prompt ↦ refuse req (denial from_handler true) denied Failure.invalid_approval
                  | other_policy s ↦
                      refuse req (denial from_handler true) denied Failure.invalid_approval
                ]
              ])).0
      answer h e none f = tt
      answer h e (some allow) f = run_tool-Runs P ctx req _ executor args (k h e f)
      answer h e (some deny) f = tt
      answer h e (some prompt) f = tt
      answer h e (some (other_policy s)) f = tt

  module _ (trim : Str → Str) (cfg : Config A) (valid : config_valid trim cfg ≡ true) where
    apply_policy-Runs :
        (P : Map (Option A) → Type 0) (ctx : Context A) (req : Request A)
        (executor : Map (Option A) → Option Str) (args : Map (Option A))
        → (Permitted ctx cfg req → ctx.cancelled ≡ false → P args)
        → Runs P (apply_policy ctx cfg req executor args).0
    unfolding apply_policy
    apply_policy-Runs P ctx req executor args k = go (resolve_approval_policy cfg req) refl
      where
        go :
            (c : Chosen)
            → resolve_approval_policy cfg req ≡ c
            → Runs P
                (elim c as (λ c. Trace A) [
                  | invalid source ↦
                      refuse req (denial source false) denied Failure.invalid_approval
                  | chosen policy source ↦ elim policy [
                    | deny ↦ refuse req (denial source false) denied Failure.approval_denied
                    | prompt ↦ ask_handler ctx req executor args
                    | allow ↦
                        run_tool ctx req
                          (record { policy = allow; source = source; prompted = false })
                          executor
                          args
                    | other_policy s ↦
                        run_tool ctx req
                          (record { policy = other_policy s; source = source; prompted = false })
                          executor
                          args
                  ]
                ]).0
        go (invalid source) e = tt
        go (chosen allow source) e = run_tool-Runs P ctx req _ executor args (k (inl (source, e)))
        go (chosen deny source) e = tt
        go (chosen prompt source) e =
            ask_handler-Runs P ctx req executor args (λ h a b c. k (inr (source, h, e, a, b)) c)
        go (chosen (other_policy s) source) e =
            let bad = resolve-valid trim cfg req (other_policy s) source valid e in
            unfold policy_valid in cc bad

    check_call-Runs :
        (P : Map (Option A) → Type 0) (ctx : Context A) (tool : Tool A) (target : Target A)
        (ok : Bool)
        → (Permitted ctx cfg (request_from_target target ok)
            → ctx.cancelled ≡ false
            → P target.arguments)
        → Runs P (check_call ctx cfg tool target ok).0
    unfolding check_call
    check_call-Runs P ctx tool target ok k =
        elim (Bool-cases (not (is_nil (missing_fields tool.required target.arguments)))) [
          | inl e ↦ rw e tt
          | inr e ↦ elim (Bool-cases (not (tool.schema_ok target.arguments))) [
            | inl f ↦ rw (e, f) tt
            | inr f ↦ elim (Option-cases tool.executor) [
              | inl g ↦ rw (e, f, g) tt
              | inr (executor, g) ↦
                  rw (e, f, g)
                    (apply_policy-Runs P ctx (request_from_target target ok) executor
                      target.arguments k)
            ]
          ]
        ]

    plan_gate-Runs :
        (ctx : Context A) (tool : Tool A) (args : Map (Option A)) (target : Target A) (ok : Bool)
        → Due tool args (request_from_target target ok)
        → Runs (Authorized ctx cfg tool args) (plan_gate ctx cfg tool target ok).0
    unfolding plan_gate
    plan_gate-Runs ctx tool args target ok due =
        elim (Bool-cases (
          ctx.plan_mode
          && (not (tier_eq target.tier read) && not (str_eq target.tool (codes "todo"))))) [
            | inl e ↦ rw e tt
            | inr e ↦ rw e (
                check_call-Runs (Authorized ctx cfg tool args) ctx tool target ok (λ permitted live.
                  unfold request_from_target in
                  (
                    request_from_target target ok,
                    due,
                    refl,
                    permitted,
                    planned (ctx.plan_mode) (tier_eq target.tier read)
                        (str_eq target.tool (codes "todo")) e,
                    live,
                  )))
          ]
      where
        planned :
            (p r t : Bool)
            → (p && (not r && not t)) ≡ false
            → (p ≡ false) ⊎ ((r ≡ true) ⊎ (t ≡ true))
        planned p r t e = ground arith

    resolve_and_gate-Runs :
        (ctx : Context A) (tool : Tool A) (args : Map (Option A))
        (o : Option (Target A → Option (Resolved A)))
        → tool.resolver ≡ o
        → Runs
            (Authorized ctx cfg tool args)
            (resolve_and_gate ctx cfg tool (base_target tool args) o).0
    unfolding resolve_and_gate gate_resolved
    resolve_and_gate-Runs ctx tool args none plain =
        plan_gate-Runs ctx tool args (base_target tool args) (tier_valid tool.tier)
          (declared-Due tool args plain)
    resolve_and_gate-Runs ctx tool args (some f) resolver = gated (f (base_target tool args)) refl
      where
        gated :
            (o : Option (Resolved A))
            → f (base_target tool args) ≡ o
            → Runs
                (Authorized ctx cfg tool args)
                (gate_resolved ctx cfg tool (base_target tool args) o).0
        gated none lost = tt
        gated (some r) found =
            plan_gate-Runs ctx tool args (refine (base_target tool args) r) (tier_valid r.tier)
              (resolved-Due tool args f r resolver found)

    -- Under a configuration that passes `Validate`, `Registry.Execute` runs a handler only on the
    -- arguments of the request that this very call makes: with the tool's metadata, or what its
    -- resolver makes of them, and with the tier `exec` for a malformed one. The policy allows that
    -- request, or it sends it to the approval handler and the handler allows it; in plan mode it is
    -- of the read tier or for the todo tool; and the call is not cancelled.
    pub execute-Authorized :
        (ctx : Context A) (tool : Tool A) (tools : Map (Tool A)) (name : Str)
        (args : Map (Option A))
        → lookup name tools ≡ some tool
        → Runs (Authorized ctx cfg tool args) (execute ctx cfg tools name args).0
    unfolding execute execute_tool
    execute-Authorized ctx tool tools name args found =
        rw (found, Runs) (resolve_and_gate-Runs ctx tool args tool.resolver refl)
