-- ===== src/Agent/Turn/Rounds.antt =====
-- internal/agent/agent.go and steering.go: one round of the loop of Chat.
pub mod Closing
pub mod Endings
pub mod Streaming
use sandbar.Base.{
  ℕ, ◌+◌, Str, codes, str_eq, ltb, leb, if◌then◌else◌, is_nil, Bool, true, false, Option, none,
  some, List, [], ◌∷◌, ◌++◌, map, not, ◌&&◌, ◌||◌, Outcome, ok, err,
}
use sandbar.Agent.Messages.{
  Role, assistant, user, tool, ToolCall, Message, Kind, todo_nudge, tropical_verify_nudge,
  IndexedMessage,
}
use sandbar.Agent.Sanitize.{sanitize_provider_messages}
use sandbar.Agent.Payload.{Checked, Violation, bad, validate_provider_payload}
use sandbar.Agent.Truncate.{to_raw_messages}
use sandbar.Agent.ToolLoopGuard.{ToolLoopDecision, ToolLoopGuard, new_guard, observe}
use sandbar.Agent.TextTools.Ids as Ids
use sandbar.Agent.TextTools.Ids.{itoa}
use sandbar.Agent.Turn.{
  Host, Step, Completion, StreamEvent, ChatError, persist_failed, event_failed, unsafe_payload,
  invalid_payload, invalid_group, complete_failed, stream_failed, repeated_calls, plan_failed,
  PlanMode, pending_approval, token, usage, user_message, thread_started, intermediate, failed,
  done, relayed, tool_called, tool_returned, ◌>>=◌, ◌>>◌, pure, fail, ask, attempt, drop_error,
  emit, continue, assistant_message, user_text, result_message,
}
use sandbar.Agent.Turn.Calls.{function_type, indexed, check_context, or_close, answer_calls}

pub record Config : Type 0 where
  -- `resolved.SupportsTools && a.tools != nil`
  pub supports_tools : Bool
  -- `MaxTurns`, 0 where it is not positive.
  pub max_turns : ℕ
  pub plan_only : Bool
  pub tropical : Bool

-- The variables of the loop.
pub record Loop : Type 0 where
  pub turn : ℕ
  pub messages : List IndexedMessage
  pub guard : ToolLoopGuard
  pub rounds_without_todo : ℕ
  pub todo_nudge_sent : Bool
  pub verify_nudge_sent : Bool
  pub spawned_subagent : Bool
  pub last_round_delegation_only : Bool

abbrev pub first_loop : List IndexedMessage → Loop
first_loop messages = record {
  turn = 0;
  messages = messages;
  guard = new_guard;
  rounds_without_todo = 0;
  todo_nudge_sent = false;
  verify_nudge_sent = false;
  spawned_subagent = false;
  last_round_delegation_only = false;
}

-- `turnLimitReached`
unfoldable pub turn_limit_reached : ℕ → ℕ → Bool
turn_limit_reached turn max_turns = ltb 0 max_turns && leb max_turns turn

abbrev pub todo_nudge_after_rounds : ℕ
todo_nudge_after_rounds = 12

abbrev pub todo_nudge_prompt : Str
todo_nudge_prompt =
    codes "[Reminder: you have an active task list for this thread "
    ++ (0xe2 ∷ 0x80 ∷ 0x94 ∷ codes " update it or mark items complete as you make progress.]")

abbrev pub tropical_verify_prompt : Str
tropical_verify_prompt =
    codes
      "[Tropical mode: you used sub-agent delegations this turn. Before your final summary, delegate one fresh review pass (delegate_task or resume_task) over the combined results so completion is verified by independent work, not your own summary.]"

abbrev pub nudge : Kind → Str → IndexedMessage
nudge kind prompt = record { seq = 0; synthetic = true; kind = kind; msg = user_text prompt }

unfoldable pub repeated_loop_text : ℕ → Str
repeated_loop_text n =
    codes "repeated identical tool-call loop detected after "
    ++ (itoa n ++ codes " consecutive rounds")

-- A call of a tool with a name that the test selects.
unfoldable pub calls_tool : (Str → Bool) → List ToolCall → Bool
calls_tool selects [] = false
calls_tool selects (tc ∷ tcs) =
    (str_eq tc.kind function_type && selects tc.name) || calls_tool selects tcs

abbrev pub is_todo : Str → Bool
is_todo name = str_eq name (codes "todo")

abbrev pub is_delegation : Str → Bool
is_delegation name = str_eq name (codes "delegate_task") || str_eq name (codes "resume_task")

-- The todo and delegation variables after a round.
unfoldable pub track : List ToolCall → Loop → Loop
track calls st = record st {
  rounds_without_todo = if calls_tool is_todo calls then 0 else st.rounds_without_todo + 1;
  spawned_subagent = st.spawned_subagent || calls_tool is_delegation calls;
  last_round_delegation_only =
      calls_tool is_delegation calls && not (calls_tool (λ name. not (is_delegation name)) calls);
}

abbrev pub text_call : Ids.ToolCall → ToolCall
text_call c = record { id = c.id; kind = function_type; name = c.name; arguments = c.arguments }

abbrev pub pending_result : ToolCall → Message
pending_result tc = result_message tc.id (codes "pending tool-call validation")

-- `validateNewToolCallGroup`
unfoldable pub validate_new_group : List IndexedMessage → Str → List ToolCall → Checked (Unit {0})
validate_new_group history content calls =
    validate_provider_payload
      (to_raw_messages history ++ assistant_message content calls ∷ map pending_result calls)

abbrev pub steering_wrapper : Str
steering_wrapper =
    codes
      "[The user sent this message while you were working. It takes priority and supersedes earlier instructions where they conflict. Address it as you continue the current turn.]\n\n"

abbrev pub passes : {W : Type 0} → (Violation → ChatError) → Checked (Unit {0}) → Step W (Unit {0})
passes wrap (Checked.ok u) = pure tt
passes wrap (bad v) = fail (wrap v)

-- The text after an event of a stream, and the error that one ends the turn with.
unfoldable pub read_event : Str → StreamEvent → Outcome ChatError Str
read_event content thread_started = ok content
read_event content (intermediate s) = ok content
read_event content (tool_called tc) = ok content
read_event content (tool_returned tc s) = ok content
read_event content (token s) = ok (content ++ s)
read_event content (user_message s) = ok content
read_event content (usage n) = ok content
read_event content (failed s) = err (stream_failed s)
read_event content done = ok content
read_event content (relayed s) = ok content

abbrev pub reminded : Bool → Loop → Loop
reminded listed st =
    if listed
    then record st {
      todo_nudge_sent = true;
      messages = st.messages ++ nudge todo_nudge todo_nudge_prompt ∷ [];
    }
    else st

module _ {W : Type 0} (host : Host W) (cfg : Config) where
  -- The loop of `drainSteering`.
  unfoldable pub inject : List Str → Step W (List IndexedMessage)
  inject [] = pure []
  inject (text ∷ texts) =
      attempt persist_failed (host.append (user_text (steering_wrapper ++ text))) >>= λ seq.
      emit host (user_message text) >>= λ u.
      inject texts >>= λ rest. pure (indexed seq (user_text (steering_wrapper ++ text)) ∷ rest)

  unfoldable pub drain_steering : Step W (List IndexedMessage)
  drain_steering = ask host.drain >>= inject

  -- The reminder of the task list, once in a turn.
  unfoldable pub remind : Loop → Step W Loop
  remind st =
      if not st.todo_nudge_sent && leb todo_nudge_after_rounds st.rounds_without_todo
      then (ask host.has_todos >>= λ listed. pure (reminded listed st))
      else pure st

  unfoldable pub abort_repeated : ToolLoopDecision → Step W (Unit {0})
  abort_repeated decision w =
      if decision.abort
      then (let (w', e) = host.on_event (failed (repeated_loop_text decision.consecutive)) w in
          (w', err (repeated_calls decision.consecutive e)))
      else (w, ok tt)

  unfoldable pub compressed : List IndexedMessage → Step W (List IndexedMessage)
  compressed messages =
      ask (host.compress messages) >>= λ out. if out.1 then fail unsafe_payload else pure out.0

  -- The round that follows a completion with tool calls: what the next round starts from.
  unfoldable pub tool_round : Loop → Str → List ToolCall → Step W Loop
  tool_round st content calls =
      let (guard, decision) = observe host.digest calls st.guard in
      passes invalid_group (validate_new_group st.messages content calls) >>= λ u.
      attempt persist_failed (host.append (assistant_message content calls)) >>= λ seq.
      answer_calls host decision calls >>= λ results. check_context host >>= λ u.
      remind (
        track calls (record st {
          guard = guard;
          messages = st.messages ++ indexed seq (assistant_message content calls) ∷ results;
        }))
      >>= λ next. abort_repeated decision >>= λ u. compressed next.messages >>= λ messages.
          drain_steering >>= λ drained. pure (record next { messages = messages ++ drained })

  -- An answer is stored, unless it is empty, after a step of its own.
  unfoldable pub store_text : Str → Step W (Unit {0}) → Step W (Unit {0})
  store_text content first =
      if str_eq content []
      then pure tt
      else first
        >> (attempt persist_failed (host.append (assistant_message content [])) >>= λ seq. pure tt)

  -- `emitAndPersistCompletion`
  unfoldable pub persist_completion : Str → Bool → Step W (Unit {0})
  persist_completion content already_streamed =
      store_text content (if already_streamed then pure tt else emit host (token content))
      >> emit host done

  -- `completePlanTurn` after a turn that succeeded.
  unfoldable pub complete_plan_turn : Step W (Unit {0})
  complete_plan_turn =
      if cfg.plan_only then drop_error (host.set_plan_mode pending_approval) else pure tt

  -- The end of a turn by an answer, unless the answer wants a check; `none` is a turn that is over.
  unfoldable pub final_answer : Loop → Completion → Step W (Option Loop)
  final_answer st c =
      if cfg.tropical
        && (st.spawned_subagent && (not st.last_round_delegation_only && not st.verify_nudge_sent))
      then pure (
          some (record st {
            verify_nudge_sent = true;
            messages = st.messages ++ nudge tropical_verify_nudge tropical_verify_prompt ∷ [];
          }))
      else persist_completion c.content c.streamed_live >> (complete_plan_turn >> pure none)

  -- The calls of a completion, or those in its text.
  unfoldable pub calls_of : Completion → Step W (List ToolCall)
  calls_of c =
      if is_nil c.tool_calls && not (str_eq c.content [])
      then (ask (host.parse_text c.content) >>= λ calls. pure (map text_call calls))
      else pure c.tool_calls

  -- The branch for a model that supports tools.
  unfoldable pub tools_round : Loop → List Message → Step W (Option Loop)
  tools_round st payload = attempt complete_failed (host.complete payload) >>= λ c.
      (if ltb 0 c.total_tokens then drop_error (host.on_event (usage c.total_tokens)) else pure tt)
      >>= λ u. calls_of c >>= λ calls. elim calls [
        | [] ↦ final_answer st c
        | tc ∷ tcs ↦ tool_round st c.content (tc ∷ tcs) >>= λ next. pure (some next)
      ]

  -- The loop over the events of a stream, with the text of its tokens so far.
  unfoldable pub read_stream : Str → List StreamEvent → Step W Str
  read_stream content [] = pure content
  read_stream content (ev ∷ evs) = emit host ev >>= λ u. elim (read_event content ev) [
    | ok more ↦ read_stream more evs
    | err e ↦ fail e
  ]

  -- The loop over the calls in a streamed text.
  unfoldable pub answer_text_calls : List ToolCall → Step W (Unit {0})
  answer_text_calls [] = pure tt
  answer_text_calls (tc ∷ tcs) =
      let rest = answer_text_calls tcs in
      if not (str_eq tc.kind function_type)
      then rest
      else or_close host (tc ∷ tcs) (check_context host) >>= λ u.
          or_close host (tc ∷ tcs) (emit host (tool_called tc)) >>= λ u.
          ask (host.execute_text tc) >>= λ output.
          or_close host (tc ∷ tcs) (emit host (tool_returned tc output)) >>= λ u.
          or_close host (tc ∷ tcs)
            (attempt persist_failed (host.append (result_message tc.id output)))
          >>= λ seq. rest

  -- What `streamAndPersist` does with the text that was streamed.
  unfoldable pub persist_streamed : Str → List ToolCall → Step W (Unit {0})
  persist_streamed content [] = store_text content (pure tt) >> emit host done
  persist_streamed content (tc ∷ tcs) =
      attempt persist_failed (host.append (assistant_message content (tc ∷ tcs))) >>= λ seq.
      answer_text_calls (tc ∷ tcs) >> emit host done

  -- `streamAndPersist`
  unfoldable pub stream_and_persist : List Message → Step W (Unit {0})
  stream_and_persist payload =
      attempt complete_failed (host.open_stream (sanitize_provider_messages payload)) >>= λ events.
      read_stream [] events >>= λ content.
      ask (host.parse_text content) >>= λ calls. persist_streamed content (map text_call calls)

  -- One round of the loop; `none` is a turn that is over.
  unfoldable pub round : Loop → Step W (Option Loop)
  round st =
      if turn_limit_reached st.turn cfg.max_turns
      then emit host (failed (codes "max turn limit reached")) >> pure none
      else (let next : Loop = record st { turn = st.turn + 1 } in
          let payload = sanitize_provider_messages (to_raw_messages st.messages) in
          passes invalid_payload (validate_provider_payload payload)
          >> (if cfg.supports_tools
              then tools_round next payload
              else stream_and_persist payload >> (complete_plan_turn >> pure none)))
