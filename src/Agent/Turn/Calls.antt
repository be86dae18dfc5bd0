-- ===== src/Agent/Turn/Calls.antt =====
-- internal/agent/agent.go and tool_execution.go: the tool calls of one round. An error after the
-- assistant message is stored goes through `closePending`.
pub mod Closing
use sandbar.Base.{
  ℕ, zero, suc, ◌+◌, Str, codes, str_eq, ltb, if◌then◌else◌, length, replicate, get_elem?, get_or,
  Bool, true, false, Option, none, some, List, [], ◌∷◌, ◌++◌, not, Outcome, ok, err,
}
use sandbar.Agent.Messages.{tool, ToolCall, Message, IndexedMessage, thread_message}
use sandbar.Agent.Sanitize.{interrupted_tool_result}
use sandbar.Agent.ToolLoopGuard.{ToolLoopDecision}
use sandbar.Agent.Turn.{
  Host, Step, ChatError, persist_failed, event_failed, cancelled, unclosed, tool_called,
  tool_returned, intermediate, ◌>>=◌, ◌>>◌, pure, fail, ask, attempt, check, emit, result_message,
  continue,
}

abbrev pub set : {A : Type 0} → List A → ℕ → A → List A
set [] i v = []
set (x ∷ xs) zero v = v ∷ xs
set (x ∷ xs) (suc i) v = x ∷ set xs i v

abbrev pub function_type : Str
function_type = codes "function"

-- `repeatedToolCallResult`, with the three bytes of its dash.
unfoldable pub repeated_tool_call_result : ToolLoopDecision → Str
repeated_tool_call_result decision =
    codes
      "error: repeated identical tool call detected; this call was not executed. Do not repeat it unchanged"
    ++ (0xe2 ∷ 0x80 ∷ 0x94 ∷ codes "use different arguments or take a different action.")
    ++ (if decision.abort
        then codes " The agent is stopping to prevent an infinite no-progress loop."
        else [])

abbrev pub not_completed : Str → Str
not_completed e = codes "error: tool call was not completed: " ++ e

unfoldable pub all_can_run : (Str → Bool) → List ToolCall → Bool
all_can_run can [] = true
all_can_run can (tc ∷ tcs) =
    let rest = all_can_run can tcs in
    if not (str_eq tc.kind function_type) then false else if not (can tc.name) then false else rest

-- `toolBatchCanRunConcurrently`
unfoldable pub tool_batch_can_run_concurrently : (Str → Bool) → List ToolCall → Bool
tool_batch_can_run_concurrently can calls =
    if ltb (length calls) 2 then false else all_can_run can calls

abbrev pub indexed : ℕ → Message → IndexedMessage
indexed seq msg = record { seq = seq; synthetic = false; kind = thread_message; msg = msg }

module _ {W : Type 0} (host : Host W) where
  -- `ctx.Err()` as an error of the turn.
  unfoldable pub check_context : Step W (Unit {0})
  check_context = check cancelled host.context_error

  -- What a worker, or the loop in order, does with one call: no call starts after a cancellation.
  unfoldable pub run_call : ToolCall → W → W × Str
  run_call tc w =
      let (w', cause) = host.context_error w in
      elim cause [ none ↦ host.execute tc w' | some e ↦ (w', not_completed e) ]

  unfoldable pub run_in_order : List ToolCall → W → W × List Str
  run_in_order [] w = (w, [])
  run_in_order (tc ∷ tcs) w =
      let (w', output) = run_call tc w in
      let (w'', outputs) = run_in_order tcs w' in (w'', output ∷ outputs)

  -- The workers, in the order in which they take the calls.
  unfoldable pub run_scheduled : List ToolCall → List ℕ → List Str → W → W × List Str
  run_scheduled calls [] results w = (w, results)
  run_scheduled calls (i ∷ is) results w = elim (get_elem? calls i) [
    | none ↦ run_scheduled calls is results w
    | some tc ↦ let (w', output) = run_call tc w in run_scheduled calls is (set results i output) w'
  ]

  -- `executeToolCallBatchWith`
  unfoldable pub execute_tool_call_batch : ToolLoopDecision → List ToolCall → W → W × List Str
  execute_tool_call_batch decision calls w =
      if decision.skip
      then (w, replicate (length calls) (repeated_tool_call_result decision))
      else if not (tool_batch_can_run_concurrently host.can_run_concurrently calls)
      then run_in_order calls w
      else (let (w', order) = host.schedule calls w in
          run_scheduled calls order (replicate (length calls) []) w')

  -- `persistInterruptedToolResults` under `closePending`: the cause is returned, joined with an error
  -- of the store.
  unfoldable pub close_pending : {A : Type 0} → List ToolCall → ChatError → Step W A
  close_pending [] cause = fail cause
  close_pending (tc ∷ tcs) cause =
      attempt (unclosed cause) (host.append (result_message tc.id interrupted_tool_result))
      >>= λ seq. close_pending tcs cause

  -- A step whose error leaves these calls without results.
  unfoldable pub or_close : {A : Type 0} → List ToolCall → Step W A → Step W A
  or_close pending m w =
      let (w', r) = m w in elim r [ ok a ↦ (w', ok a) | err cause ↦ close_pending pending cause w' ]

  -- The `tool_call` events of a batch.
  unfoldable pub announce : List ToolCall → List ToolCall → Step W (Unit {0})
  announce group [] = pure tt
  announce group (tc ∷ tcs) =
      let here = or_close group (emit host (tool_called tc)) in
      (if not (str_eq tc.kind function_type) then pure tt else here) >> announce group tcs

  -- The output of the call at an index, the first of those that have no result.
  unfoldable pub output_of :
      Option (List Str) → ToolLoopDecision → ℕ → ToolCall → List ToolCall → Step W Str
  output_of (some outputs) decision i tc pending = pure (get_or outputs i [])
  output_of none decision i tc pending =
      or_close pending check_context
      >> (if decision.skip
          then pure (repeated_tool_call_result decision)
          else ask (host.execute tc))

  -- The loop that emits and stores the results, from an index on.
  unfoldable pub store_results :
      Option (List Str) → ToolLoopDecision → ℕ → List ToolCall → Step W (List IndexedMessage)
  store_results outputs decision i [] = pure []
  store_results outputs decision i (tc ∷ tcs) =
      output_of outputs decision i tc (tc ∷ tcs) >>= λ output.
      or_close (tc ∷ tcs) (emit host (tool_returned tc output)) >>= λ u.
      or_close (tc ∷ tcs) (attempt persist_failed (host.append (result_message tc.id output)))
      >>= λ seq. store_results outputs decision (i + 1) tcs >>= λ rest.
          pure (indexed seq (result_message tc.id output) ∷ rest)

  -- The outputs of a batch that may run concurrently.
  unfoldable pub batch_outputs : ToolLoopDecision → List ToolCall → Step W (Option (List Str))
  batch_outputs decision calls =
      if tool_batch_can_run_concurrently host.can_run_concurrently calls
      then or_close calls check_context
        >> (ask (execute_tool_call_batch decision calls) >>= λ outputs. pure (some outputs))
      else pure none

  -- From the stored assistant message to the last result.
  unfoldable pub answer_calls : ToolLoopDecision → List ToolCall → Step W (List IndexedMessage)
  answer_calls decision calls =
      or_close calls (emit host (intermediate (codes "Processing..."))) >>= λ u.
      announce calls calls >>= λ u.
      batch_outputs decision calls >>= λ outputs. store_results outputs decision 0 calls
