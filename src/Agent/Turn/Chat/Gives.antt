-- ===== src/Agent/Turn/Chat/Gives.antt =====
-- What the steps of a round give on success, and the end of a loop by a measure.
use sandbar.Base.{
  ℕ, zero, suc, ◌+◌, ◌<◌, Str, leb, ltb, codes, if◌then◌else◌, false, Option, none, some, List, [],
  ◌∷◌, ◌++◌, not, ◌&&◌, ◌≡◌, refl, Outcome, ok, err, if-holds, Bool-cases, inl, inr, arith,
}
use sandbar.Agent.Messages.{ToolCall, Message, IndexedMessage}
use sandbar.Agent.Payload.{validate_provider_payload}
use sandbar.Agent.Sanitize.{sanitize_provider_messages}
use sandbar.Agent.Truncate.{to_raw_messages}
use sandbar.Agent.ToolLoopGuard.{ToolLoopDecision, observe}
use sandbar.Agent.Turn.{
  Host, Step, Completion, ChatError, PlanMode, complete_failed, persist_failed, build_failed,
  invalid_payload, invalid_group, thread_started, failed, usage, continue, ◌>>=◌, ◌>>◌, pure, ask,
  attempt, drop_error, emit, assistant_message, user_text,
}
use sandbar.Agent.Turn.Calls.{indexed, answer_calls, check_context}
use sandbar.Agent.Turn.Rounds.{
  Config, Loop, first_loop, turn_limit_reached, track, reminded, remind, todo_nudge_after_rounds,
  passes, validate_new_group, abort_repeated, compressed, drain_steering, tool_round,
  persist_completion, complete_plan_turn, final_answer, calls_of, tools_round, stream_and_persist,
  round,
}
use sandbar.Agent.Turn.Chat.{
  Progress, over, chat_loop, end_steering_turn, begin_plan, chat_turn, chat,
}

-- If a step succeeds, its value has the property.
abbrev pub Gives : {W A : Type 0} → (A → Type 0) → W × Outcome ChatError A → Type 0
Gives P (w, ok a) = P a
Gives P (w, err e) = Unit

module _ {W : Type 0} where
  any-Gives : {A : Type 0} (r : W × Outcome ChatError A) → Gives (λ a. Unit {0}) r
  any-Gives (w, ok a) = tt
  any-Gives (w, err e) = tt

  pub Gives-bind :
      {A B : Type 0} (P : A → Type 0) (Q : B → Type 0) (m : Step W A) (f : A → Step W B) (w : W)
      → Gives P (m w)
      → ((a : A) (w' : W) → P a → Gives Q (f a w'))
      → Gives Q ((m >>= f) w)
  Gives-bind {A} {B} P Q m f w h k = by_result (m w) h
    where
      by_result : (r : W × Outcome ChatError A) → Gives P r → Gives Q (continue r f)
      by_result (w', ok a) h = k a w' h
      by_result (w', err e) h = tt

  pub Gives-weaken :
      {A : Type 0} (P Q : A → Type 0) (r : W × Outcome ChatError A)
      → ((a : A) → P a → Q a)
      → Gives P r
      → Gives Q r
  Gives-weaken P Q (w, ok a) f h = f a h
  Gives-weaken P Q (w, err e) f h = tt

  -- A step whose value does not matter.
  pub Gives-then :
      {A B : Type 0} (Q : B → Type 0) (m : Step W A) (f : A → Step W B) (w : W)
      → ((a : A) (w' : W) → Gives Q (f a w'))
      → Gives Q ((m >>= f) w)
  Gives-then Q m f w k = Gives-bind (λ a. Unit {0}) Q m f w (any-Gives (m w)) (λ a w' u. k a w')

-- What a round tells of the next.
abbrev pub Next : (Loop → Type 0) → Option Loop → Type 0
Next P none = Unit
Next P (some st) = P st

pub Next-weaken :
    (P Q : Loop → Type 0) (o : Option Loop) → ((st : Loop) → P st → Q st) → Next P o → Next Q o
Next-weaken P Q none f h = tt
Next-weaken P Q (some st) f h = f st h

module _ {W : Type 0} (host : Host W) (cfg : Config) where
  -- The loop guard and the number of rounds are those that the round began with.
  abbrev SameCount : Loop → Loop → Type 0
  SameCount st next = (next.turn ≡ st.turn) × (next.guard ≡ st.guard)

  remind-SameCount : (st : Loop) (w : W) → Gives (SameCount st) (remind host cfg st w)
  unfolding remind
  remind-SameCount st w =
      if-holds (λ (m : Step W Loop). Gives (SameCount st) (m w))
        (not st.todo_nudge_sent && leb todo_nudge_after_rounds st.rounds_without_todo)
        (ask host.has_todos >>= λ listed. pure (reminded listed st)) (pure st)
        (λ due.
          if-holds (SameCount st) (host.has_todos w).1 _ st (λ l. (refl, refl)) (λ l. (refl, refl)))
        (λ not_due. (refl, refl))

  -- A round of tool calls goes on only if the guard does not abort it.
  abbrev pub Observed : Loop → List ToolCall → Loop → Type 0
  Observed st calls next =
      (next.turn ≡ st.turn)
      × (next.guard ≡ (observe host.digest calls st.guard).0)
      × ((observe host.digest calls st.guard).1.abort ≡ false)

  abort_repeated-Gives :
      (decision : ToolLoopDecision) (w : W)
      → Gives (λ u. decision.abort ≡ false) (abort_repeated host cfg decision w)
  unfolding abort_repeated
  abort_repeated-Gives decision w = elim (Bool-cases decision.abort) [
    | inl aborted ↦ rw (abort_repeated, aborted) tt
    | inr goes_on ↦ rw (abort_repeated, goes_on) refl
  ]

  abbrev answered : Loop → Str → List ToolCall → ℕ → List IndexedMessage → Loop
  answered st content calls seq results = track calls (record st {
    guard = (observe host.digest calls st.guard).0;
    messages = st.messages ++ indexed seq (assistant_message content calls) ∷ results;
  })

  pub tool_round-Observed :
      (st : Loop) (content : Str) (calls : List ToolCall) (w : W)
      → Gives (Observed st calls) (tool_round host cfg st content calls w)
  unfolding tool_round track
  tool_round-Observed st content calls w =
      let decision = (observe host.digest calls st.guard).1 in
      let P = Observed st calls in
      Gives-then P (passes invalid_group (validate_new_group st.messages content calls)) _ w λ u w₁.
        Gives-then P (attempt persist_failed (host.append (assistant_message content calls))) _ w₁
          λ seq w₂. Gives-then P (answer_calls host decision calls) _ w₂ λ results w₃.
            Gives-then P (check_context host) _ w₃ λ u w₄.
              Gives-bind (SameCount (answered st content calls seq results)) P
                (remind host cfg (answered st content calls seq results)) _ w₄
                (remind-SameCount (answered st content calls seq results) w₄)
                λ next w₅ same.
                  Gives-bind (λ u. decision.abort ≡ false) P (abort_repeated host cfg decision) _ w₅
                    (abort_repeated-Gives decision w₅)
                    λ u w₆ goes_on.
                      Gives-then P (compressed host cfg next.messages) _ w₆ λ messages w₇.
                        Gives-then P (drain_steering host cfg) _ w₇
                          λ drained w₈. (same.0, same.1, goes_on)

  final_answer-turn :
      (st : Loop) (c : Completion) (w : W)
      → Gives (Next (λ next. next.turn ≡ st.turn)) (final_answer host cfg st c w)
  unfolding final_answer
  final_answer-turn st c w =
      let P = Next (λ next. next.turn ≡ st.turn) in
      if-holds (λ (m : Step W (Option Loop)). Gives P (m w))
        (cfg.tropical
          && (st.spawned_subagent
              && (not st.last_round_delegation_only && not st.verify_nudge_sent)))
        _
        (persist_completion host cfg c.content c.streamed_live
          >> (complete_plan_turn host cfg >> pure none))
        (λ unchecked. refl)
        (λ checked.
          Gives-then P (persist_completion host cfg c.content c.streamed_live) _ w
            λ u w₁. Gives-then P (complete_plan_turn host cfg) _ w₁ λ u w₂. tt)

  unfoldable pub after_calls : Loop → Completion → List ToolCall → Step W (Option Loop)
  after_calls st c calls = elim calls as (λ x. Step W (Option Loop)) [
    | [] ↦ final_answer host cfg st c
    | tc ∷ tcs ↦ tool_round host cfg st c.content (tc ∷ tcs) >>= λ next. pure (some next)
  ]

  after_calls-turn :
      (st : Loop) (c : Completion) (calls : List ToolCall) (w : W)
      → Gives (Next (λ next. next.turn ≡ st.turn)) (after_calls st c calls w)
  unfolding after_calls
  after_calls-turn st c [] w = final_answer-turn st c w
  after_calls-turn st c (tc ∷ tcs) w =
      Gives-bind (Observed st (tc ∷ tcs)) (Next (λ next. next.turn ≡ st.turn))
        (tool_round host cfg st c.content (tc ∷ tcs)) _ w
        (tool_round-Observed st c.content (tc ∷ tcs) w) λ next w₁ seen. seen.0

  pub tools_round-turn :
      (st : Loop) (payload : List Message) (w : W)
      → Gives (Next (λ next. next.turn ≡ st.turn)) (tools_round host cfg st payload w)
  unfolding tools_round after_calls
  tools_round-turn st payload w =
      let P = Next (λ next. next.turn ≡ st.turn) in
      Gives-then P (attempt complete_failed (host.complete payload)) _ w λ c w₁.
        Gives-then P
          (if ltb 0 c.total_tokens
            then drop_error (host.on_event (usage c.total_tokens))
            else pure tt)
          _ w₁
          λ u w₂. Gives-then P (calls_of host cfg c) _ w₂ λ calls w₃. after_calls-turn st c calls w₃

  -- The next round of a round is that of its branch for tools.
  pub round-Gives :
      (P : Loop → Type 0) (st : Loop) (w : W)
      → (turn_limit_reached st.turn cfg.max_turns ≡ false
          → (payload : List Message) (w' : W)
          → Gives (Next P) (tools_round host cfg (record st { turn = st.turn + 1 }) payload w'))
      → Gives (Next P) (round host cfg st w)
  unfolding round
  round-Gives P st w by_tools =
      let payload = sanitize_provider_messages (to_raw_messages st.messages) in
      elim (Bool-cases (turn_limit_reached st.turn cfg.max_turns)) [
        | inl reached ↦
            rw (round, reached)
              (Gives-then (Next P) (emit host (failed (codes "max turn limit reached"))) _ w
                λ u w₁. tt)
        | inr below ↦
            rw (round, below)
              (Gives-then (Next P) (passes invalid_payload (validate_provider_payload payload)) _ w
                λ u w₁.
                  if-holds (λ (m : Step W (Option Loop)). Gives (Next P) (m w₁)) cfg.supports_tools
                    (tools_round host cfg (record st { turn = st.turn + 1 }) payload)
                    (stream_and_persist host cfg payload
                      >> (complete_plan_turn host cfg >> pure none))
                    (λ tools. by_tools below payload w₁)
                    (λ plain.
                      Gives-then (Next P) (stream_and_persist host cfg payload) _ w₁
                        λ u w₂. Gives-then (Next P) (complete_plan_turn host cfg) _ w₂ λ u w₃. tt))
      ]

  -- A loop that goes on only with less to do, by a measure, ends within as much fuel.
  pub chat_loop-over :
      (Inv : Loop → Type 0) (left : Loop → ℕ)
      → ((st : Loop) (w : W)
          → Inv st
          → Gives (Next (λ next. Inv next × (left next < left st))) (round host cfg st w))
      → (fuel : ℕ) (st : Loop) (w : W) → Inv st
      → left st < fuel
      → Gives (λ p. p ≡ over) (chat_loop host cfg fuel st w)
  unfolding chat_loop
  chat_loop-over Inv left keep zero st w inv enough = absurd (omega arith)
  chat_loop-over Inv left keep (suc fuel) st w inv enough =
      Gives-bind (Next (λ next. Inv next × (left next < left st))) (λ p. p ≡ over)
        (round host cfg st) _ w (keep st w inv)
        λ next w₁ h.
          by_next next w₁ h (λ st' w' inv' less.
            chat_loop-over Inv left keep fuel st' w' inv' (omega (arith, less)))
    where
      by_next :
          (next : Option Loop) (w' : W)
          → Next (λ st'. Inv st' × (left st' < left st)) next
          → ((st' : Loop) (w'' : W)
              → Inv st'
              → left st' < left st
              → Gives (λ p. p ≡ over) (chat_loop host cfg fuel st' w''))
          → Gives
              (λ p. p ≡ over)
              ((elim next as (λ x. Step W Progress) [
                | none ↦ pure over
                | some st' ↦ chat_loop host cfg fuel st'
              ])
                w')
      by_next none w' h ih = refl
      by_next (some st') w' h ih = ih st' w' h.0 h.1

  pub chat-over :
      (fuel : ℕ) (mode : PlanMode) (text : Str) (w : W)
      → ((ms : List IndexedMessage) (w' : W)
          → Gives (λ p. p ≡ over) (chat_loop host cfg fuel (first_loop ms) w'))
      → Gives (λ p. p ≡ over) (chat host cfg fuel mode text w)
  unfolding chat chat_turn
  chat-over fuel mode text w by_loop =
      let P : Progress → Type 0 = λ p. p ≡ over in
      at_end (chat_turn host cfg fuel mode text (host.begin_turn w)) (
        Gives-then P (begin_plan host cfg mode) _ (host.begin_turn w) λ u w₁.
          Gives-then P (attempt persist_failed (host.append (user_text text))) _ w₁ λ seq w₂.
            Gives-then P (emit host thread_started) _ w₂ λ u w₃.
              Gives-then P (attempt build_failed host.build_messages) _ w₃
                λ ms w₄. Gives-then P (compressed host cfg ms) _ w₄ λ ms' w₅. by_loop ms' w₅)
    where
      at_end :
          (r : W × Outcome ChatError Progress)
          → Gives (λ p. p ≡ over) r
          → Gives (λ p. p ≡ over) (end_steering_turn host cfg r.0, r.1)
      at_end (w', ok p) h = h
      at_end (w', err e) h = h
