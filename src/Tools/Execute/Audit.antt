-- ===== src/Tools/Execute/Audit.antt =====
-- What the execution observer hears of a call.
use sandbar.Base.{
  Str, codes, Map, lookup, str_eq, is_nil, Bool, true, false, Option, none, some, [], ◌∷◌, not,
  ◌&&◌, ◌≡◌, inl, inr, refl, arith, if-holds,
}
use sandbar.Tools.Approval.{
  read, tier_eq, tier_valid, Policy, allow, deny, prompt, other_policy, Request, Config, Chosen,
  chosen, invalid, resolve_approval_policy, Source, from_validation, from_no_handler, from_handler,
}
use sandbar.Tools.Execute.Requests.{Due, declared-Due, resolved-Due, failed-Unresolved}
use sandbar.Tools.Execute.{
  Target, Resolved, Tool, Decision, denied, failed, succeeded, executed, observed, invalid_approval,
  approval_denied, approval_unavailable, no_executor, tool_error, output, failure, Trace, Context,
  denial, refuse, request_from_target, base_target, refine, missing_fields, run_tool, after_asking,
  ask_handler, apply_policy, check_call, plan_gate, gate_resolved, resolve_and_gate, execute_tool,
  execute,
}
use sandbar.Tools.Execute.Records.{Granted, Fitting, Ends, Reported}

module _ {A : Type 0} where
  module _ (ctx : Context A) (cfg : Config A) (tool : Tool A) (args : Map (Option A)) where
    module _ (req : Request A) (due : Due tool args req) where
      run_tool-Ends :
          (d : Decision) (f : Map (Option A) → Option Str)
          → tool.executor ≡ some f
          → Granted ctx cfg req d
          → Ends (Fitting ctx cfg tool args) (run_tool ctx req d f req.arguments)
      unfolding run_tool
      run_tool-Ends d f has granted =
          if-holds (Ends (Fitting ctx cfg tool args)) ctx.cancelled _ _
            (λ e. inl (due, (refl, granted, e))) (λ e. ran (f req.arguments) refl)
        where
          ran :
              (o : Option Str)
              → f req.arguments ≡ o
              → Ends (Fitting ctx cfg tool args) (elim o as (λ x. Trace A) [
                | none ↦ (executed req.arguments ∷ observed req d failed ∷ [], failure tool_error)
                | some out ↦ (executed req.arguments ∷ observed req d succeeded ∷ [], output out)
              ])
          ran none g = inl (due, (refl, granted, f, has, g))
          ran (some out) g = inl (due, (refl, granted, f, has, g))

      ask_handler-Ends :
          (s : Source) (f : Map (Option A) → Option Str)
          → tool.executor ≡ some f
          → resolve_approval_policy cfg req ≡ chosen prompt s
          → Ends (Fitting ctx cfg tool args) (ask_handler ctx req f req.arguments)
      unfolding ask_handler
      ask_handler-Ends s f has sent = by_handler ctx.handler refl
        where
          answer :
              (h : Request A → Option Policy)
              → ctx.handler ≡ some h
              → (o : Option Policy) → h req ≡ o
              → Ends (Fitting ctx cfg tool args) (
                  after_asking req (elim o as (λ x. Trace A) [
                    | none ↦ refuse req (denial from_handler true) denied invalid_approval
                    | some policy ↦ elim policy [
                      | allow ↦
                          run_tool ctx req
                            (record { policy = allow; source = from_handler; prompted = true })
                            f
                            req.arguments
                      | deny ↦ refuse req (denial from_handler true) denied approval_denied
                      | prompt ↦ refuse req (denial from_handler true) denied invalid_approval
                      | other_policy t ↦
                          refuse req (denial from_handler true) denied invalid_approval
                    ]
                  ]))
          answer h e none g =
              inl (due, (refl, inr (h, (s, sent, e), (λ q. cc (g, q)), (λ q. cc (g, q)), refl)))
          answer h e (some allow) g =
              run_tool-Ends (record { policy = allow; source = from_handler; prompted = true }) f
                has (inr (h, (s, sent, e), g, refl))
          answer h e (some deny) g = inl (due, (refl, inr (h, (s, sent, e), g, refl)))
          answer h e (some prompt) g =
              inl (due, (refl, inr (h, (s, sent, e), (λ q. cc (g, q)), (λ q. cc (g, q)), refl)))
          answer h e (some (other_policy t)) g =
              inl (due, (refl, inr (h, (s, sent, e), (λ q. cc (g, q)), (λ q. cc (g, q)), refl)))

          by_handler :
              (o : Option (Request A → Option Policy))
              → ctx.handler ≡ o
              → Ends (Fitting ctx cfg tool args) (elim o as (λ x. Trace A) [
                | none ↦ refuse req (denial from_no_handler true) denied approval_unavailable
                | some handler ↦ after_asking req (elim (handler req) [
                  | none ↦ refuse req (denial from_handler true) denied invalid_approval
                  | some policy ↦ elim policy [
                    | allow ↦
                        run_tool ctx req
                          (record { policy = allow; source = from_handler; prompted = true })
                          f
                          req.arguments
                    | deny ↦ refuse req (denial from_handler true) denied approval_denied
                    | prompt ↦ refuse req (denial from_handler true) denied invalid_approval
                    | other_policy t ↦ refuse req (denial from_handler true) denied invalid_approval
                  ]
                ])
              ])
          by_handler none e = inl (due, (refl, refl, e, s, sent))
          by_handler (some h) e = answer h e (h req) refl

      apply_policy-Ends :
          (f : Map (Option A) → Option Str)
          → tool.executor ≡ some f
          → Ends (Fitting ctx cfg tool args) (apply_policy ctx cfg req f req.arguments)
      unfolding apply_policy
      apply_policy-Ends f has = by_policy (resolve_approval_policy cfg req) refl
        where
          by_policy :
              (c : Chosen)
              → resolve_approval_policy cfg req ≡ c
              → Ends (Fitting ctx cfg tool args) (elim c as (λ c. Trace A) [
                | invalid source ↦ refuse req (denial source false) denied invalid_approval
                | chosen policy source ↦ elim policy [
                  | deny ↦ refuse req (denial source false) denied approval_denied
                  | prompt ↦ ask_handler ctx req f req.arguments
                  | allow ↦
                      run_tool ctx req
                        (record { policy = allow; source = source; prompted = false })
                        f
                        req.arguments
                  | other_policy s ↦
                      run_tool ctx req
                        (record { policy = other_policy s; source = source; prompted = false })
                        f
                        req.arguments
                ]
              ])
          by_policy (invalid s) e = inl (due, (refl, inl (s, e, refl)))
          by_policy (chosen deny s) e = inl (due, (refl, inl (s, e, refl)))
          by_policy (chosen prompt s) e = ask_handler-Ends s f has e
          by_policy (chosen allow s) e =
              run_tool-Ends (record { policy = allow; source = s; prompted = false }) f has
                (inl (e, (λ q. cc q), (λ q. cc q), refl))
          by_policy (chosen (other_policy t) s) e =
              run_tool-Ends (record { policy = other_policy t; source = s; prompted = false }) f has
                (inl (e, (λ q. cc q), (λ q. cc q), refl))

    check_call-Ends :
        (target : Target A) (ok : Bool)
        → Due tool args (request_from_target target ok)
        → Ends (Fitting ctx cfg tool args) (check_call ctx cfg tool target ok)
    unfolding check_call request_from_target
    check_call-Ends target ok due =
        if-holds (Ends (Fitting ctx cfg tool args))
          (not (is_nil (missing_fields tool.required target.arguments))) _ _
          (λ e. inl (due, (refl, refl, refl, ground (arith, e))))
          (λ e.
            if-holds (Ends (Fitting ctx cfg tool args)) (not (tool.schema_ok target.arguments)) _ _
              (λ g. inl (due, (refl, refl, ground (arith, g))))
              (λ g. by_executor tool.executor refl))
      where
        by_executor :
            (o : Option (Map (Option A) → Option Str))
            → tool.executor ≡ o
            → Ends (Fitting ctx cfg tool args) (elim o as (λ x. Trace A) [
              | none ↦
                  refuse
                    (request_from_target target ok)
                    (denial from_validation false)
                    failed
                    no_executor
              | some executor ↦
                  apply_policy ctx cfg (request_from_target target ok) executor target.arguments
            ])
        by_executor none has = inl (due, (refl, refl, has))
        by_executor (some f) has = apply_policy-Ends (request_from_target target ok) due f has

    plan_gate-Reported :
        (target : Target A) (ok : Bool)
        → Due tool args (request_from_target target ok)
        → Reported ctx cfg tool args (plan_gate ctx cfg tool target ok)
    unfolding plan_gate
    plan_gate-Reported target ok due =
        if-holds (Reported ctx cfg tool args)
          (ctx.plan_mode
            && (not (tier_eq target.tier read) && not (str_eq target.tool (codes "todo"))))
          _ _
          (λ e.
            let (planning, tier, name) =
              gates ctx.plan_mode (tier_eq target.tier read) (str_eq target.tool (codes "todo"))
                e in
            unfold request_from_target in
            inr (refl, refl, planning, request_from_target target ok, due, tier, name))
          (λ e. inl (check_call-Ends target ok due))
      where
        gates :
            (p r t : Bool) → (p && (not r && not t)) ≡ true → (p ≡ true) × (r ≡ false) × (t ≡ false)
        gates true false false e = (refl, refl, refl)
        gates true false true e = cc e
        gates true true t e = cc e
        gates false r t e = cc e

    resolve_and_gate-Reported :
        (o : Option (Target A → Option (Resolved A)))
        → tool.resolver ≡ o
        → Reported ctx cfg tool args (resolve_and_gate ctx cfg tool (base_target tool args) o)
    unfolding resolve_and_gate gate_resolved
    resolve_and_gate-Reported none plain =
        plan_gate-Reported (base_target tool args) (tier_valid tool.tier)
          (declared-Due tool args plain)
    resolve_and_gate-Reported (some f) resolver = gated (f (base_target tool args)) refl
      where
        gated :
            (o : Option (Resolved A))
            → f (base_target tool args) ≡ o
            → Reported ctx cfg tool args (gate_resolved ctx cfg tool (base_target tool args) o)
        gated none lost = inl (inr (failed-Unresolved tool args f resolver lost, refl, refl, refl))
        gated (some r) found =
            plan_gate-Reported (refine (base_target tool args) r) (tier_valid r.tier)
              (resolved-Due tool args f r resolver found)

  -- A call of a registered tool is reported to the observer exactly once, as its last event, with the
  -- request that this call makes and with a decision and an outcome that fit the reply: a success or
  -- a failed run under the decision that allowed it, a refusal under the denial that caused it, and
  -- missing or invalid arguments or a missing executor as failed under a denial by validation. If
  -- the resolver fails, the record is a denial of the request that is known before it. The one
  -- exception is a call that plan mode refuses, which leaves no event at all.
  pub execute-Reported :
      (ctx : Context A) (cfg : Config A) (tools : Map (Tool A)) (name : Str) (args : Map (Option A))
      (tool : Tool A)
      → lookup name tools ≡ some tool
      → Reported ctx cfg tool args (execute ctx cfg tools name args)
  unfolding execute execute_tool
  execute-Reported ctx cfg tools name args tool found =
      rw (found, Reported, execute) (resolve_and_gate-Reported ctx cfg tool args tool.resolver refl)
