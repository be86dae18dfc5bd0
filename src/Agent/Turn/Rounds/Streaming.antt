-- ===== src/Agent/Turn/Rounds/Streaming.antt =====
-- A streamed turn, and a whole round: no call is left without its result, unless the store
-- fails to close a group.
use sandbar.Base.{
  ◌+◌, Str, codes, str_eq, true, false, Option, none, List, [], ◌∷◌, map, ◌≡◌, refl, Outcome, ok,
  err, if-holds, All, str_eq_refl,
}
use sandbar.Agent.Messages.{ToolCall, Message}
use sandbar.Agent.Payload.{validate_provider_payload}
use sandbar.Agent.Sanitize.{sanitize_provider_messages}
use sandbar.Agent.Truncate.{to_raw_messages}
use sandbar.Agent.TextTools.Ids as Ids
use sandbar.Agent.Turn.{
  Step, ChatError, StreamEvent, is_unclosed, persist_failed, complete_failed, invalid_payload,
  failed, done, tool_called, tool_returned, ◌>>=◌, ◌>>◌, pure, fail, ask, attempt, emit,
  assistant_message, result_message,
}
use sandbar.Agent.Turn.Calls.{function_type, check_context, or_close}
use sandbar.Agent.Sanitize.Again.{validate-sanitize}
use sandbar.Agent.Payload.{Checked}
use sandbar.Agent.Turn.Pairing.{Post-continue, Left}
use sandbar.Agent.Turn.Rounds.{
  Loop, turn_limit_reached, text_call, passes, store_text, complete_plan_turn, tools_round,
  read_event, read_stream, answer_text_calls, persist_streamed, stream_and_persist, round,
}
use sandbar.Agent.Turn.Pairing.{
  Setting, At, Holds-Moves, Moves-bind, At-kept, emit-Holds, attempt-Holds, write-Post,
}
use sandbar.Agent.Turn.Calls.Closing.{
  ids_of, follow-result, follow-calls, or_close-Post, check_context-Holds,
}
use sandbar.Agent.Turn.Rounds.Closing.{emit-Goes, write-Goes, passes-Post}
use sandbar.Agent.Turn.Rounds.Endings.{
  Idle, Ends, and_then, store_text-Ends, finish-Ends, tools_round-Ends,
}

-- An error that a stream ends a turn with is not one of the store.
abbrev IsSoft : {A : Type 0} → Outcome ChatError A → Type 0
IsSoft (ok a) = Unit
IsSoft (err e) = is_unclosed e ≡ false

read_event-IsSoft : (content : Str) (ev : StreamEvent) → IsSoft (read_event content ev)
unfolding read_event is_unclosed
read_event-IsSoft content StreamEvent.thread_started = tt
read_event-IsSoft content (StreamEvent.intermediate x) = tt
read_event-IsSoft content (StreamEvent.tool_called x) = tt
read_event-IsSoft content (StreamEvent.tool_returned x y) = tt
read_event-IsSoft content (StreamEvent.token x) = tt
read_event-IsSoft content (StreamEvent.user_message x) = tt
read_event-IsSoft content (StreamEvent.usage x) = tt
read_event-IsSoft content (StreamEvent.failed x) = refl
read_event-IsSoft content StreamEvent.done = tt
read_event-IsSoft content (StreamEvent.relayed x) = tt

map-function :
    (cs : List Ids.ToolCall) → All (λ tc. str_eq tc.kind function_type ≡ true) (map text_call cs)
map-function [] = tt
map-function (c ∷ cs) = (str_eq_refl function_type, map-function cs)

module _ {W : Type 0} (t : Setting W) where
  open t use {host, cfg, Stores, keeps, base}

  abbrev next :
      {A B : Type 0} (m : Step W A) (f : A → Step W B) (w : W)
      → Ends t (m w)
      → ((a : A) (w' : W) → Idle t w' → Ends t (f a w'))
      → Ends t ((m >>= f) w)
  next = and_then t

  read_stream-Ends :
      (content : Str) (evs : List StreamEvent) (w : W)
      → Idle t w
      → Ends t (read_stream host cfg content evs w)
  unfolding read_stream read_event is_unclosed
  read_stream-Ends content [] w at = at
  read_stream-Ends content (ev ∷ evs) w at =
      next (emit host ev) _ w (emit-Goes t ev w at) λ u w₁ h₁.
        by_event (read_event content ev) (read_event-IsSoft content ev) w₁ h₁
          (λ more. read_stream-Ends more evs w₁ h₁)
    where
      by_event :
          (r : Outcome ChatError Str)
          → IsSoft r
          → (w' : W) → Idle t w'
          → ((more : Str) → Ends t (read_stream host cfg more evs w'))
          → Ends t {A = Str} (
              (elim r as (λ x. Step W Str) [
                | ok more ↦ read_stream host cfg more evs
                | err e ↦ fail e
              ])
                w')
      by_event (ok more) soft w' h ih = ih more
      by_event (err e) soft w' h ih = rw soft h

  answer_text_calls-Ends :
      (calls : List ToolCall) (w : W)
      → All (λ tc. str_eq tc.kind function_type ≡ true) calls
      → At t (ids_of calls) w
      → Ends t (answer_text_calls host cfg calls w)
  unfolding answer_text_calls
  answer_text_calls-Ends [] w kinds at = at
  answer_text_calls-Ends (tc ∷ tcs) w (kind, kinds) at =
      let ids = ids_of (tc ∷ tcs) in
      rw (answer_text_calls, kind)
        (Moves-bind t ids [] (or_close host (tc ∷ tcs) (check_context host)) _ w
          (or_close-Post t (λ u. At t ids) (tc ∷ tcs) (check_context host) w
            (check_context-Holds t ids w at))
          λ u w₁ h₁.
            Moves-bind t ids [] (or_close host (tc ∷ tcs) (emit host (tool_called tc))) _ w₁
              (or_close-Post t (λ u. At t ids) (tc ∷ tcs) (emit host (tool_called tc)) w₁
                (emit-Holds t ids (tool_called tc) w₁ h₁))
              λ u w₂ h₂.
                Moves-bind t ids [] (ask (host.execute_text tc)) _ w₂
                  (At-kept t ids w₂ (host.execute_text tc w₂).0 (λ l. keeps.execute_text tc l w₂)
                    h₂)
                  λ output w₃ h₃.
                    Moves-bind t ids []
                      (or_close host (tc ∷ tcs) (emit host (tool_returned tc output))) _ w₃
                      (or_close-Post t (λ u. At t ids) (tc ∷ tcs)
                        (emit host (tool_returned tc output)) w₃
                        (emit-Holds t ids (tool_returned tc output) w₃ h₃))
                      λ u w₄ h₄.
                        Moves-bind t (ids_of tcs) []
                          (or_close host (tc ∷ tcs)
                            (attempt persist_failed (host.append (result_message tc.id output))))
                          _ w₄
                          (or_close-Post t (λ seq. At t (ids_of tcs)) (tc ∷ tcs) _ w₄
                            (write-Post t ids (ids_of tcs) (result_message tc.id output) w₄
                              (follow-result tc.id output (ids_of tcs)) h₄))
                          λ seq w₅ h₅. answer_text_calls-Ends tcs w₅ kinds h₅)

  persist_streamed-Ends :
      (content : Str) (calls : List ToolCall) (w : W)
      → All (λ tc. str_eq tc.kind function_type ≡ true) calls
      → Idle t w
      → Ends t (persist_streamed host cfg content calls w)
  unfolding persist_streamed
  persist_streamed-Ends content [] w kinds at =
      next (store_text host cfg content (pure tt)) _ w
        (store_text-Ends t content (pure tt) w (λ w' h. h) at) λ u w₁ h₁. emit-Goes t done w₁ h₁
  persist_streamed-Ends content (tc ∷ tcs) w kinds at =
      Moves-bind t (ids_of (tc ∷ tcs)) []
        (attempt persist_failed (host.append (assistant_message content (tc ∷ tcs)))) _ w
        (write-Goes t (ids_of (tc ∷ tcs)) (assistant_message content (tc ∷ tcs)) w
          (follow-calls content (tc ∷ tcs)) at)
        λ seq w₁ h₁.
          next (answer_text_calls host cfg (tc ∷ tcs)) _ w₁
            (answer_text_calls-Ends (tc ∷ tcs) w₁ kinds h₁) λ u w₂ h₂. emit-Goes t done w₂ h₂

  stream_and_persist-Ends :
      (payload : List Message) (w : W)
      → validate_provider_payload payload ≡ Checked.ok tt
      → Idle t w
      → Ends t (stream_and_persist host cfg payload w)
  unfolding stream_and_persist is_unclosed
  stream_and_persist-Ends payload w valid at =
      let sent = sanitize_provider_messages payload in
      next (attempt complete_failed (host.open_stream sent)) _ w
        (Holds-Moves t (attempt complete_failed (host.open_stream sent) w) (
          attempt-Holds t [] complete_failed (host.open_stream sent) w (λ e. refl)
            (λ l. keeps.open_stream sent (validate-sanitize payload valid) l w) at))
        λ evs w₁ h₁.
          next (read_stream host cfg [] evs) _ w₁ (read_stream-Ends [] evs w₁ h₁) λ content w₂ h₂.
            next (ask (host.parse_text content)) _ w₂
              (At-kept t [] w₂ (host.parse_text content w₂).0 (λ l. keeps.parse_text content l w₂)
                h₂)
              λ cs w₃ h₃. persist_streamed-Ends content (map text_call cs) w₃ (map-function cs) h₃

  pub round-Ends : (st : Loop) (w : W) → Idle t w → Ends t (round host cfg st w)
  unfolding round is_unclosed
  round-Ends st w at =
      let after : Loop = record st { turn = st.turn + 1 } in
      let payload = sanitize_provider_messages (to_raw_messages st.messages) in
      let limit = failed (codes "max turn limit reached") in
      if-holds (λ (m : Step W (Option Loop)). Ends t (m w))
        (turn_limit_reached st.turn cfg.max_turns) (emit host limit >> pure none) _
        (λ reached. next (emit host limit) _ w (emit-Goes t limit w at) λ u w₁ h₁. h₁)
        (λ below.
          Post-continue (λ u w'. Idle t w' × (validate_provider_payload payload ≡ Checked.ok tt))
            (λ o. Idle t) (Left t) (passes invalid_payload (validate_provider_payload payload) w) _
            (passes-Post t invalid_payload (validate_provider_payload payload) w (λ v. refl) at)
            λ u w₁ (h₁, valid).
              if-holds (λ (m : Step W (Option Loop)). Ends t (m w₁)) cfg.supports_tools
                (tools_round host cfg after payload)
                (stream_and_persist host cfg payload >> (complete_plan_turn host cfg >> pure none))
                (λ tools. tools_round-Ends t after payload w₁ valid h₁)
                (λ plain.
                  finish-Ends t (stream_and_persist host cfg payload) w₁
                    (stream_and_persist-Ends payload w₁ valid h₁)))
