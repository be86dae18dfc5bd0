-- ===== src/Tools/Execute/Records.antt =====
-- The record of a call that fits what became of it.
use sandbar.Base.{
  Str, codes, Map, str_eq, is_nil, true, false, Option, none, some, List, [], ◌∷◌, ◌≡◌, ◌≢◌, ◌⊎◌,
}
use sandbar.Tools.Approval.{
  read, tier_eq, Policy, allow, deny, prompt, Request, Config, chosen, invalid,
  resolve_approval_policy, Source, from_metadata_resolver, from_validation, from_no_handler,
  from_handler,
}
use sandbar.Tools.Execute.Requests.{Due, Unresolved}
use sandbar.Tools.Execute.{
  Tool, Decision, Outcome, denied, failed, succeeded, Event, asked, executed, observed, Failure,
  unknown_tool, plan_mode_active, invalid_approval, approval_denied, approval_unavailable,
  missing_arguments, invalid_arguments, no_executor, cancelled, tool_error, Reply, output, failure,
  Trace, Context, denial, missing_fields,
}

module _ {A : Type 0} where
  -- The policy sends the request to this handler.
  abbrev pub Sent : Context A → Config A → Request A → (Request A → Option Policy) → Type 0
  Sent ctx cfg req h =
      (s : Source) × (resolve_approval_policy cfg req ≡ chosen prompt s) × (ctx.handler ≡ some h)

  -- The decision under which a handler runs: the policy's own, or that of the approval handler.
  abbrev pub Granted : Context A → Config A → Request A → Decision → Type 0
  Granted ctx cfg req d =
      (resolve_approval_policy cfg req ≡ chosen d.policy d.source)
        × (d.policy ≢ deny)
        × (d.policy ≢ prompt)
        × (d.prompted ≡ false)
      ⊎ (h : Request A → Option Policy) × Sent ctx cfg req h
        × (h req ≡ some allow)
        × (d ≡ record { policy = allow; source = from_handler; prompted = true })

  -- The decision by which a request is denied.
  abbrev pub Refused : Context A → Config A → Request A → Decision → Type 0
  Refused ctx cfg req d =
      ((s : Source) × (resolve_approval_policy cfg req ≡ chosen deny s) × (d ≡ denial s false))
      ⊎ (h : Request A → Option Policy) × Sent ctx cfg req h
        × (h req ≡ some deny)
        × (d ≡ denial from_handler true)

  -- No decision comes about: the policy is invalid, or the handler answers neither allow nor deny.
  abbrev pub Undecided : Context A → Config A → Request A → Decision → Type 0
  Undecided ctx cfg req d =
      ((s : Source) × (resolve_approval_policy cfg req ≡ invalid s) × (d ≡ denial s false))
      ⊎ (h : Request A → Option Policy) × Sent ctx cfg req h
        × (h req ≢ some allow)
        × (h req ≢ some deny)
        × (d ≡ denial from_handler true)

  -- The record that fits a failure, and what the failure means.
  abbrev pub Failing :
      Context A → Config A → Tool A → Request A → Decision → Outcome → Failure → Type 0
  Failing ctx cfg tool req d o unknown_tool = ⊥
  Failing ctx cfg tool req d o plan_mode_active = ⊥
  Failing ctx cfg tool req d o invalid_approval = (o ≡ denied) × Undecided ctx cfg req d
  Failing ctx cfg tool req d o approval_denied = (o ≡ denied) × Refused ctx cfg req d
  Failing ctx cfg tool req d o approval_unavailable =
      (o ≡ denied)
      × (d ≡ denial from_no_handler true)
      × (ctx.handler ≡ none)
      × (s : Source) × (resolve_approval_policy cfg req ≡ chosen prompt s)
  Failing ctx cfg tool req d o (missing_arguments fields) =
      (o ≡ failed)
      × (d ≡ denial from_validation false)
      × (fields ≡ missing_fields tool.required req.arguments)
      × (is_nil fields ≡ false)
  Failing ctx cfg tool req d o invalid_arguments =
      (o ≡ failed) × (d ≡ denial from_validation false) × (tool.schema_ok req.arguments ≡ false)
  Failing ctx cfg tool req d o no_executor =
      (o ≡ failed) × (d ≡ denial from_validation false) × (tool.executor ≡ none)
  Failing ctx cfg tool req d o cancelled =
      (o ≡ failed) × Granted ctx cfg req d × (ctx.cancelled ≡ true)
  Failing ctx cfg tool req d o tool_error =
      (o ≡ failed)
      × Granted ctx cfg req d
      × (f : Map (Option A) → Option Str) × (tool.executor ≡ some f)
      × (f req.arguments ≡ none)

  -- The decision and the outcome that fit a reply.
  abbrev pub Fits : Context A → Config A → Tool A → Request A → Decision → Outcome → Reply → Type 0
  Fits ctx cfg tool req d o (output out) =
      (o ≡ succeeded)
      × Granted ctx cfg req d
      × (f : Map (Option A) → Option Str) × (tool.executor ≡ some f)
      × (f req.arguments ≡ some out)
  Fits ctx cfg tool req d o (failure why) = Failing ctx cfg tool req d o why

  -- A record of this call: of the request that it makes, or of one that its resolver refused.
  abbrev pub Fitting :
      Context A
      → Config A
      → Tool A
      → Map (Option A)
      → Request A
      → Decision
      → Outcome
      → Reply
      → Type 0
  Fitting ctx cfg tool args req d o reply =
      Due tool args req × Fits ctx cfg tool req d o reply
      ⊎ Unresolved tool args req
        × (d ≡ denial from_metadata_resolver false)
        × (o ≡ denied)
        × (reply ≡ failure invalid_approval)

  -- The last event, and no other, is an observation, and it is as stated.
  abbrev pub Audited :
      (Request A → Decision → Outcome → Reply → Type 0) → List (Event A) → Reply → Type 0
  Audited P [] reply = ⊥
  Audited P (asked req ∷ es) reply = Audited P es reply
  Audited P (executed args ∷ es) reply = Audited P es reply
  Audited P (observed req d o ∷ []) reply = P req d o reply
  Audited P (observed req d o ∷ e ∷ es) reply = ⊥

  abbrev pub Ends : (Request A → Decision → Outcome → Reply → Type 0) → Trace A → Type 0
  Ends P t = Audited P t.0 t.1

  -- A refusal by plan mode is heard of by nobody: the request is not of the read tier, nor for the
  -- todo tool.
  abbrev pub Unheard : Context A → Tool A → Map (Option A) → Trace A → Type 0
  Unheard ctx tool args t =
      (t.0 ≡ [])
      × (t.1 ≡ failure plan_mode_active)
      × (ctx.plan_mode ≡ true)
      × (req : Request A) × Due tool args req
      × (tier_eq req.tier read ≡ false)
      × (str_eq req.tool (codes "todo") ≡ false)

  abbrev pub Reported : Context A → Config A → Tool A → Map (Option A) → Trace A → Type 0
  Reported ctx cfg tool args t =
      Audited (Fitting ctx cfg tool args) t.0 t.1 ⊎ Unheard ctx tool args t
