-- ===== src/Agent/Turn/Rounds/Endings.antt =====
-- The ways a turn may end, and a whole round: no call is left without its result, unless the store
-- fails to close a group.
use sandbar.Base.{
  Str, str_eq, ltb, if◌then◌else◌, is_nil, Bool, Option, none, some, List, [], ◌∷◌, map, not, ◌&&◌,
  ◌≡◌, refl, Outcome, if-holds,
}
use sandbar.Agent.Messages.{ToolCall, Message}
use sandbar.Agent.Turn.{
  Step, ChatError, Completion, is_unclosed, persist_failed, complete_failed, pending_approval,
  token, usage, done, ◌>>=◌, ◌>>◌, pure, ask, attempt, drop_error, emit, assistant_message,
}
use sandbar.Agent.Payload.{Checked, validate_provider_payload}
use sandbar.Agent.Turn.Rounds.{
  Loop, text_call, tool_round, store_text, persist_completion, complete_plan_turn, final_answer,
  calls_of, tools_round,
}
use sandbar.Agent.Turn.Pairing.{Setting, follow, Holds-Moves, At-kept, attempt-Holds}
use sandbar.Agent.Turn.Calls.Closing.{follow-calls}
use sandbar.Agent.Turn.Rounds.Closing.{then_, emit-Goes, write-Goes, tool_round-Goes, Waits, Goes}

module _ {W : Type 0} (t : Setting W) where
  open t use {host, cfg, Stores, keeps, base}

  abbrev pub Idle : W → Type 0
  Idle = Waits t []

  abbrev pub Ends : {A : Type 0} → W × Outcome ChatError A → Type 0
  Ends r = Goes t r

  abbrev pub and_then :
      {A B : Type 0} (m : Step W A) (f : A → Step W B) (w : W)
      → Ends (m w)
      → ((a : A) (w' : W) → Idle w' → Ends (f a w'))
      → Ends ((m >>= f) w)
  and_then = then_ t

  pub store-Ends :
      (msg : Message) (w : W)
      → follow msg [] ≡ some []
      → Idle w
      → Ends (attempt persist_failed (host.append msg) w)
  store-Ends msg w f at = write-Goes t [] msg w f at

  -- A text is stored if there is one, after a step of its own.
  pub store_text-Ends :
      (content : Str) (first : Step W (Unit {0})) (w : W)
      → ((w' : W) → Idle w' → Ends (first w'))
      → Idle w
      → Ends (store_text host cfg content first w)
  unfolding store_text
  store_text-Ends content first w f at =
      if-holds (λ (m : Step W (Unit {0})). Ends (m w)) (str_eq content []) (pure tt)
        (first
          >> (attempt persist_failed (host.append (assistant_message content [])) >>= λ seq.
              pure tt))
        (λ empty. at)
        (λ full. and_then first _ w (f w at) λ u w₁ h₁.
          and_then (attempt persist_failed (host.append (assistant_message content []))) _ w₁
            (store-Ends (assistant_message content []) w₁ (follow-calls content []) h₁)
            λ seq w₂ h₂. h₂)

  persist_completion-Ends :
      (content : Str) (streamed : Bool) (w : W)
      → Idle w
      → Ends (persist_completion host cfg content streamed w)
  unfolding persist_completion
  persist_completion-Ends content streamed w at =
      let first : Step W (Unit {0}) = if streamed then pure tt else emit host (token content) in
      and_then (store_text host cfg content first) _ w
        (store_text-Ends content first w
          (λ w' h.
            if-holds (λ (m : Step W (Unit {0})). Ends (m w')) streamed (pure tt)
              (emit host (token content)) (λ live. h)
              (λ buffered. emit-Goes t (token content) w' h))
          at)
        λ u w₁ h₁. emit-Goes t done w₁ h₁

  complete_plan_turn-Ends : (w : W) → Idle w → Ends (complete_plan_turn host cfg w)
  unfolding complete_plan_turn
  complete_plan_turn-Ends w at =
      if-holds (λ (m : Step W (Unit {0})). Ends (m w)) cfg.plan_only
        (drop_error (host.set_plan_mode pending_approval)) (pure tt)
        (λ plan.
          At-kept t [] w (host.set_plan_mode pending_approval w).0
            (λ l. keeps.set_plan_mode pending_approval l w) at)
        (λ normal. at)

  pub finish-Ends :
      (m : Step W (Unit {0})) (w : W)
      → Ends (m w)
      → Ends ((m >> (complete_plan_turn host cfg >> pure (let o : Option Loop = none in o))) w)
  finish-Ends m w h = and_then m _ w h λ u w₁ h₁.
      and_then (complete_plan_turn host cfg) _ w₁ (complete_plan_turn-Ends w₁ h₁) λ u w₂ h₂. h₂

  final_answer-Ends :
      (st : Loop) (c : Completion) (w : W) → Idle w → Ends (final_answer host cfg st c w)
  unfolding final_answer
  final_answer-Ends st c w at =
      if-holds (λ (m : Step W (Option Loop)). Ends (m w))
        (cfg.tropical
          && (st.spawned_subagent
              && (not st.last_round_delegation_only && not st.verify_nudge_sent)))
        _
        (persist_completion host cfg c.content c.streamed_live
          >> (complete_plan_turn host cfg >> pure none))
        (λ unchecked. at)
        (λ checked.
          finish-Ends (persist_completion host cfg c.content c.streamed_live) w
            (persist_completion-Ends c.content c.streamed_live w at))

  calls_of-Ends : (c : Completion) (w : W) → Idle w → Ends (calls_of host cfg c w)
  unfolding calls_of
  calls_of-Ends c w at =
      if-holds (λ (m : Step W (List ToolCall)). Ends (m w))
        (is_nil c.tool_calls && not (str_eq c.content []))
        (ask (host.parse_text c.content) >>= λ calls. pure (map text_call calls))
        (pure c.tool_calls)
        (λ text.
          At-kept t [] w (host.parse_text c.content w).0 (λ l. keeps.parse_text c.content l w) at)
        (λ native. at)

  pub tools_round-Ends :
      (st : Loop) (payload : List Message) (w : W)
      → validate_provider_payload payload ≡ Checked.ok tt
      → Idle w
      → Ends (tools_round host cfg st payload w)
  unfolding tools_round is_unclosed
  tools_round-Ends st payload w valid at =
      and_then (attempt complete_failed (host.complete payload)) _ w
        (Holds-Moves t (attempt complete_failed (host.complete payload) w) (
          attempt-Holds t [] complete_failed (host.complete payload) w (λ e. refl)
            (λ l. keeps.complete payload valid l w) at))
        λ c w₁ h₁.
          and_then
            (if ltb 0 c.total_tokens
              then drop_error (host.on_event (usage c.total_tokens))
              else pure tt)
            _ w₁
            (if-holds (λ (m : Step W (Unit {0})). Ends (m w₁)) (ltb 0 c.total_tokens)
              (drop_error (host.on_event (usage c.total_tokens))) (pure tt)
              (λ used.
                At-kept t [] w₁ (host.on_event (usage c.total_tokens) w₁).0
                  (λ l. keeps.on_event (usage c.total_tokens) l w₁) h₁)
              (λ unused. h₁))
            λ u w₂ h₂.
              and_then (calls_of host cfg c) _ w₂ (calls_of-Ends c w₂ h₂)
                λ calls w₃ h₃. by_calls c calls w₃ h₃
    where
      by_calls :
          (c : Completion) (calls : List ToolCall) (w' : W)
          → Idle w'
          → Ends {A = Option Loop} (
              (elim calls as (λ x. Step W (Option Loop)) [
                | [] ↦ final_answer host cfg st c
                | tc ∷ tcs ↦
                    tool_round host cfg st c.content (tc ∷ tcs) >>= λ next. pure (some next)
              ])
                w')
      by_calls c [] w' h = final_answer-Ends st c w' h
      by_calls c (tc ∷ tcs) w' h =
          and_then (tool_round host cfg st c.content (tc ∷ tcs)) _ w'
            (tool_round-Goes t st c.content (tc ∷ tcs) w' h) λ next w₁ h₁. h₁
