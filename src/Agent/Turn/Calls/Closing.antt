-- ===== src/Agent/Turn/Calls/Closing.antt =====
-- Every call of a stored group is closed, whichever way its round ends.
use sandbar.Base.{
  ℕ, ◌+◌, Str, codes, str_eq, str_eq_refl, get_elem?, Option, none, some, List, [], ◌∷◌, map, not,
  ◌≡◌, refl, Outcome, ok, err, if-holds,
}
use sandbar.Agent.Messages.{ToolCall, Message}
use sandbar.Agent.Sanitize.{interrupted_tool_result}
use sandbar.Agent.ToolLoopGuard.{ToolLoopDecision}
use sandbar.Agent.Turn.{
  Step, ChatError, unclosed, is_unclosed, cancelled, persist_failed, intermediate, tool_called,
  tool_returned, continue, pure, ask, attempt, wrapped, emit, result_message, assistant_message,
  user_text,
}
use sandbar.Agent.Turn.Calls.{
  function_type, not_completed, check_context, run_call, run_in_order, run_scheduled,
  execute_tool_call_batch, close_pending, or_close, announce, output_of, store_results,
  batch_outputs, answer_calls, tool_batch_can_run_concurrently, repeated_tool_call_result, set,
}
use sandbar.Agent.Turn.Pairing.{
  Setting, follow, Post, Post-continue, At, Left, Soft, Soft-Left, Holds, Moves, Moves-bind,
  Written, append-Written, At-kept, check-Holds, emit-Holds, write-Post,
}

abbrev pub ids_of : List ToolCall → List Str
ids_of calls = map (λ tc. tc.id) calls

pub follow-result :
    (id output : Str) (ids : List Str) → follow (result_message id output) (id ∷ ids) ≡ some ids
unfolding follow
follow-result id output ids = rw (str_eq_refl id) refl

pub follow-calls :
    (content : Str) (calls : List ToolCall)
    → follow (assistant_message content calls) [] ≡ some (ids_of calls)
unfolding follow
follow-calls content calls = refl

pub follow-user : (content : Str) → follow (user_text content) [] ≡ some []
unfolding follow
follow-user content = refl

module _ {W : Type 0} (t : Setting W) where
  open t use {host, cfg, Stores, keeps, base}

  abbrev Waits : List Str → W → Type 0
  Waits = At t

  abbrev Leaves : ChatError → W → Type 0
  Leaves = Left t

  pub close_pending-Left :
      {A : Type 0} (P : A → W → Type 0) (calls : List ToolCall) (cause : ChatError) (w : W)
      → Soft t (ids_of calls) cause w
      → Post P Leaves (close_pending host calls cause w)
  unfolding close_pending is_unclosed
  close_pending-Left P [] cause w soft = Soft-Left t cause w soft
  close_pending-Left {A} P (tc ∷ tcs) cause w (at, soft) =
      by_write (host.append (result_message tc.id interrupted_tool_result) w)
        (append-Written t (tc.id ∷ ids_of tcs) (ids_of tcs)
          (result_message tc.id interrupted_tool_result) w
          (follow-result tc.id interrupted_tool_result (ids_of tcs)) at)
        (λ w' h. close_pending-Left P tcs cause w' (h, soft))
    where
      by_write :
          (r : W × Outcome Str ℕ)
          → Written t (tc.id ∷ ids_of tcs) (ids_of tcs) r
          → ((w' : W) → Waits (ids_of tcs) w' → Post P Leaves (close_pending host tcs cause w'))
          → Post P Leaves
              (continue (r.0, wrapped (unclosed cause) r.1) (λ seq. close_pending host tcs cause))
      by_write (w', ok seq) h ih = ih w' h
      by_write (w', err e) h ih = (h.0, h.1)

  pub or_close-Post :
      {A : Type 0} (P : A → W → Type 0) (calls : List ToolCall) (m : Step W A) (w : W)
      → Post P (Soft t (ids_of calls)) (m w)
      → Post P Leaves (or_close host calls m w)
  unfolding or_close
  or_close-Post {A} P calls m w h = by_result (m w) h
    where
      by_result :
          (r : W × Outcome ChatError A)
          → Post P (Soft t (ids_of calls)) r
          → Post P Leaves (elim r.1 as (λ x. W × Outcome ChatError A) [
            | ok a ↦ (r.0, ok a)
            | err cause ↦ close_pending host calls cause r.0
          ])
      by_result (w', ok a) h = h
      by_result (w', err e) h = close_pending-Left P calls e w' h

  pub check_context-Holds :
      (ids : List Str) (w : W) → Waits ids w → Holds t ids (check_context host w)
  unfolding check_context is_unclosed
  check_context-Holds ids w at =
      check-Holds t ids cancelled host.context_error w (λ e. refl) (λ l. keeps.context_error l w) at

  announce-Moves :
      (group calls : List ToolCall) (w : W)
      → Waits (ids_of group) w
      → Moves t (ids_of group) (announce host group calls w)
  unfolding announce
  announce-Moves group [] w at = at
  announce-Moves group (tc ∷ tcs) w at =
      Post-continue (λ u. Waits (ids_of group)) (λ u. Waits (ids_of group)) Leaves _ _
        (if-holds (λ (m : Step W (Unit {0})). Post (λ u. Waits (ids_of group)) Leaves (m w))
          (not (str_eq tc.kind function_type)) (pure tt)
          (or_close host group (emit host (tool_called tc))) (λ skipped. at)
          (λ sent.
            or_close-Post (λ u. Waits (ids_of group)) group (emit host (tool_called tc)) w
              (emit-Holds t (ids_of group) (tool_called tc) w at)))
        (λ u w' h. announce-Moves group tcs w' h)

  run_call-kept :
      (tc : ToolCall) (l : List Message) (w : W) → Stores l w → Stores l (run_call host tc w).0
  unfolding run_call
  run_call-kept tc l w h = by_cause (host.context_error w) (keeps.context_error l w h)
    where
      by_cause :
          (r : W × Option Str)
          → Stores l r.0
          → Stores l
              (elim r.1 as (λ x. W × Str) [
                | none ↦ host.execute tc r.0
                | some e ↦ (r.0, not_completed e)
              ]).0
      by_cause (w', none) k = keeps.execute tc l w' k
      by_cause (w', some e) k = k

  run_in_order-kept :
      (tcs : List ToolCall) (l : List Message) (w : W)
      → Stores l w
      → Stores l (run_in_order host tcs w).0
  unfolding run_in_order
  run_in_order-kept [] l w h = h
  run_in_order-kept (tc ∷ tcs) l w h =
      run_in_order-kept tcs l (run_call host tc w).0 (run_call-kept tc l w h)

  run_scheduled-kept :
      (calls : List ToolCall) (is : List ℕ) (results : List Str) (l : List Message) (w : W)
      → Stores l w
      → Stores l (run_scheduled host calls is results w).0
  unfolding run_scheduled
  run_scheduled-kept calls [] results l w h = h
  run_scheduled-kept calls (i ∷ is) results l w h =
      by_call (get_elem? calls i) (run_scheduled-kept calls is results l w h) (λ tc.
        run_scheduled-kept calls is (set results i (run_call host tc w).1) l (run_call host tc w).0
          (run_call-kept tc l w h))
    where
      by_call :
          (o : Option ToolCall)
          → Stores l (run_scheduled host calls is results w).0
          → ((tc : ToolCall)
              → Stores l
                  (run_scheduled host calls is
                    (set results i (run_call host tc w).1)
                    (run_call host tc w).0).0)
          → Stores l
              (elim o as (λ x. W × List Str) [
                | none ↦ run_scheduled host calls is results w
                | some tc ↦
                    run_scheduled host calls is
                      (set results i (run_call host tc w).1)
                      (run_call host tc w).0
              ]).0
      by_call none missing found = missing
      by_call (some tc) missing found = found tc

  execute_tool_call_batch-kept :
      (decision : ToolLoopDecision) (calls : List ToolCall) (l : List Message) (w : W)
      → Stores l w
      → Stores l (execute_tool_call_batch host decision calls w).0
  unfolding execute_tool_call_batch
  execute_tool_call_batch-kept decision calls l w h =
      if-holds (λ (r : W × List Str). Stores l r.0) decision.skip _ _ (λ skipped. h)
        (λ run.
          if-holds (λ (r : W × List Str). Stores l r.0)
            (not (tool_batch_can_run_concurrently host.can_run_concurrently calls)) _ _
            (λ alone. run_in_order-kept calls l w h)
            (λ together.
              run_scheduled-kept calls (host.schedule calls w).1 _ l (host.schedule calls w).0
                (keeps.schedule calls l w h)))

  batch_outputs-Moves :
      (decision : ToolLoopDecision) (calls : List ToolCall) (w : W)
      → Waits (ids_of calls) w
      → Moves t (ids_of calls) (batch_outputs host decision calls w)
  unfolding batch_outputs
  batch_outputs-Moves decision calls w at =
      if-holds (λ (m : Step W (Option (List Str))). Moves t (ids_of calls) (m w))
        (tool_batch_can_run_concurrently host.can_run_concurrently calls) _ (pure none)
        (λ together.
          Moves-bind t (ids_of calls) (ids_of calls) (or_close host calls (check_context host)) _ w
            (or_close-Post (λ u. Waits (ids_of calls)) calls (check_context host) w
              (check_context-Holds (ids_of calls) w at))
            (λ u w' h.
              At-kept t (ids_of calls) w' (execute_tool_call_batch host decision calls w').0
                (λ l. execute_tool_call_batch-kept decision calls l w') h))
        (λ alone. at)

  output_of-Moves :
      (outputs : Option (List Str)) (decision : ToolLoopDecision) (i : ℕ) (tc : ToolCall)
      (pending : List ToolCall) (w : W)
      → Waits (ids_of pending) w
      → Moves t (ids_of pending) (output_of host outputs decision i tc pending w)
  unfolding output_of
  output_of-Moves (some outputs) decision i tc pending w at = at
  output_of-Moves none decision i tc pending w at =
      Moves-bind t (ids_of pending) (ids_of pending) (or_close host pending (check_context host)) _
        w
        (or_close-Post (λ u. Waits (ids_of pending)) pending (check_context host) w
          (check_context-Holds (ids_of pending) w at))
        (λ u w' h.
          if-holds (λ (m : Step W Str). Moves t (ids_of pending) (m w')) decision.skip
            (pure (repeated_tool_call_result decision)) (ask (host.execute tc)) (λ skipped. h)
            (λ run.
              At-kept t (ids_of pending) w' (host.execute tc w').0 (λ l. keeps.execute tc l w') h))

  store_results-Moves :
      (outputs : Option (List Str)) (decision : ToolLoopDecision) (i : ℕ) (calls : List ToolCall)
      (w : W)
      → Waits (ids_of calls) w
      → Moves t [] (store_results host outputs decision i calls w)
  unfolding store_results
  store_results-Moves outputs decision i [] w at = at
  store_results-Moves outputs decision i (tc ∷ tcs) w at =
      let ids = ids_of (tc ∷ tcs) in
      Moves-bind t ids [] (output_of host outputs decision i tc (tc ∷ tcs)) _ w
        (output_of-Moves outputs decision i tc (tc ∷ tcs) w at)
        λ output w₁ h₁.
          Moves-bind t ids [] (or_close host (tc ∷ tcs) (emit host (tool_returned tc output))) _ w₁
            (or_close-Post (λ u. Waits ids) (tc ∷ tcs) (emit host (tool_returned tc output)) w₁
              (emit-Holds t ids (tool_returned tc output) w₁ h₁))
            λ u w₂ h₂.
              Moves-bind t (ids_of tcs) []
                (or_close host (tc ∷ tcs)
                  (attempt persist_failed (host.append (result_message tc.id output))))
                _ w₂
                (or_close-Post (λ seq. Waits (ids_of tcs)) (tc ∷ tcs) _ w₂
                  (write-Post t ids (ids_of tcs) (result_message tc.id output) w₂
                    (follow-result tc.id output (ids_of tcs)) h₂))
                λ seq w₃ h₃.
                  Moves-bind t [] [] (store_results host outputs decision (i + 1) tcs) _ w₃
                    (store_results-Moves outputs decision (i + 1) tcs w₃ h₃) λ rest w₄ h₄. h₄

  pub answer_calls-Moves :
      (decision : ToolLoopDecision) (calls : List ToolCall) (w : W)
      → Waits (ids_of calls) w
      → Moves t [] (answer_calls host decision calls w)
  unfolding answer_calls
  answer_calls-Moves decision calls w at =
      let ids = ids_of calls in
      Moves-bind t ids [] (or_close host calls (emit host (intermediate (codes "Processing...")))) _
        w
        (or_close-Post (λ u. Waits ids) calls (emit host (intermediate (codes "Processing..."))) w
          (emit-Holds t ids (intermediate (codes "Processing...")) w at))
        λ u w₁ h₁.
          Moves-bind t ids [] (announce host calls calls) _ w₁ (announce-Moves calls calls w₁ h₁)
            λ u w₂ h₂.
              Moves-bind t ids [] (batch_outputs host decision calls) _ w₂
                (batch_outputs-Moves decision calls w₂ h₂)
                λ outputs w₃ h₃. store_results-Moves outputs decision 0 calls w₃ h₃
