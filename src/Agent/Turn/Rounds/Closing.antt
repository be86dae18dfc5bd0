-- ===== src/Agent/Turn/Rounds/Closing.antt =====
-- A round leaves no call without its result, unless the store fails to close a group.
use sandbar.Base.{
  ℕ, Str, leb, false, some, List, [], ◌∷◌, ◌++◌, not, ◌&&◌, ◌≡◌, refl, Outcome, ok, err, if-holds,
}
use sandbar.Agent.Messages.{ToolCall, Message, IndexedMessage}
use sandbar.Agent.Payload.{Checked, Violation, bad}
use sandbar.Agent.ToolLoopGuard.{ToolLoopDecision, observe}
use sandbar.Agent.Turn.{
  Step, ChatError, StreamEvent, is_unclosed, persist_failed, invalid_group, user_message, failed,
  ◌>>=◌, pure, ask, attempt, emit, assistant_message, user_text,
}
use sandbar.Agent.Turn.Calls.{check_context, answer_calls}
use sandbar.Agent.Turn.Rounds.{
  Loop, validate_new_group, passes, inject, drain_steering, remind, reminded,
  todo_nudge_after_rounds, abort_repeated, compressed, tool_round, steering_wrapper,
  repeated_loop_text,
}
use sandbar.Agent.Turn.Pairing.{
  Left, Setting, follow, Post, At, Soft, Holds-Moves, Moves, Moves-bind, At-kept, emit-Holds,
  write-Post,
}
use sandbar.Agent.Turn.Calls.Closing.{
  ids_of, follow-calls, follow-user, check_context-Holds, answer_calls-Moves,
}

module _ {W : Type 0} (t : Setting W) where
  open t use {host, cfg, Stores, keeps, base}

  abbrev pub Waits : List Str → W → Type 0
  Waits = At t

  abbrev pub Goes : {A : Type 0} → W × Outcome ChatError A → Type 0
  Goes r = Moves t [] r

  -- One step after another, with no call waiting between them.
  pub then_ :
      {A B : Type 0} (m : Step W A) (f : A → Step W B) (w : W)
      → Goes (m w)
      → ((a : A) (w' : W) → Waits [] w' → Goes (f a w'))
      → Goes ((m >>= f) w)
  then_ m f w h k = Moves-bind t [] [] m f w h k

  pub emit-Goes : (ev : StreamEvent) (w : W) → Waits [] w → Goes (emit host ev w)
  emit-Goes ev w at = Holds-Moves t (emit host ev w) (emit-Holds t [] ev w at)

  pub write-Goes :
      (ids : List Str) (msg : Message) (w : W)
      → follow msg [] ≡ some ids
      → Waits [] w
      → Moves t ids (attempt persist_failed (host.append msg) w)
  write-Goes ids msg w f at =
      soften (attempt persist_failed (host.append msg) w) (write-Post t [] ids msg w f at)
    where
      soften : (r : W × Outcome ChatError ℕ) → Post (λ seq. Waits ids) (Soft t []) r → Moves t ids r
      soften (w', ok seq) h = h
      soften (w', err e) (h, soft) = rw soft h

  -- A step that passes tells that the check did.
  pub passes-Post :
      (wrap : Violation → ChatError) (c : Checked (Unit {0})) (w : W)
      → ((v : Violation) → is_unclosed (wrap v) ≡ false)
      → Waits [] w
      → Post (λ u w'. Waits [] w' × (c ≡ Checked.ok tt)) (Left t) (passes {W = W} wrap c w)
  passes-Post wrap (Checked.ok u) w soft at = (at, refl)
  passes-Post wrap (bad v) w soft at = rw (soft v) at

  pub passes-Goes :
      (wrap : Violation → ChatError) (c : Checked (Unit {0})) (w : W)
      → ((v : Violation) → is_unclosed (wrap v) ≡ false)
      → Waits [] w
      → Goes (passes {W = W} wrap c w)
  passes-Goes wrap (Checked.ok u) w soft at = at
  passes-Goes wrap (bad v) w soft at = rw (soft v) at

  inject-Goes : (texts : List Str) (w : W) → Waits [] w → Goes (inject host cfg texts w)
  unfolding inject
  inject-Goes [] w at = at
  inject-Goes (text ∷ texts) w at =
      let msg = user_text (steering_wrapper ++ text) in
      then_ (attempt persist_failed (host.append msg)) _ w (write-Goes [] msg w (follow-user _) at)
        λ seq w₁ h₁.
          then_ (emit host (user_message text)) _ w₁ (emit-Goes (user_message text) w₁ h₁)
            λ u w₂ h₂. then_ (inject host cfg texts) _ w₂ (inject-Goes texts w₂ h₂) λ rest w₃ h₃. h₃

  drain_steering-Goes : (w : W) → Waits [] w → Goes (drain_steering host cfg w)
  unfolding drain_steering
  drain_steering-Goes w at =
      inject-Goes (host.drain w).1 (host.drain w).0
        (At-kept t [] w (host.drain w).0 (λ l. keeps.drain l w) at)

  remind-Goes : (st : Loop) (w : W) → Waits [] w → Goes (remind host cfg st w)
  unfolding remind
  remind-Goes st w at =
      if-holds (λ (m : Step W Loop). Goes (m w))
        (not st.todo_nudge_sent && leb todo_nudge_after_rounds st.rounds_without_todo)
        (ask host.has_todos >>= λ listed. pure (reminded listed st)) (pure st)
        (λ due. At-kept t [] w (host.has_todos w).0 (λ l. keeps.has_todos l w) at) (λ not_due. at)

  abort_repeated-Goes :
      (decision : ToolLoopDecision) (w : W) → Waits [] w → Goes (abort_repeated host cfg decision w)
  unfolding abort_repeated is_unclosed
  abort_repeated-Goes decision w at =
      let ev = failed (repeated_loop_text decision.consecutive) in
      if-holds (λ (r : W × Outcome ChatError (Unit {0})). Goes r) decision.abort _ _
        (λ aborted. At-kept t [] w (host.on_event ev w).0 (λ l. keeps.on_event ev l w) at)
        (λ goes_on. at)

  pub compressed-Goes :
      (ms : List IndexedMessage) (w : W) → Waits [] w → Goes (compressed host cfg ms w)
  unfolding compressed is_unclosed
  compressed-Goes ms w at =
      let after = At-kept t [] w (host.compress ms w).0 (λ l. keeps.compress ms l w) at in
      if-holds (λ (m : Step W (List IndexedMessage)). Goes (m (host.compress ms w).0))
        (host.compress ms w).1.1 _ _ (λ bad_payload. after) (λ fine. after)

  pub tool_round-Goes :
      (st : Loop) (content : Str) (calls : List ToolCall) (w : W)
      → Waits [] w
      → Goes (tool_round host cfg st content calls w)
  unfolding tool_round is_unclosed
  tool_round-Goes st content calls w at =
      let decision = (observe host.digest calls st.guard).1 in
      let msg = assistant_message content calls in
      then_ (passes invalid_group (validate_new_group st.messages content calls)) _ w
        (passes-Goes invalid_group (validate_new_group st.messages content calls) w (λ v. refl) at)
        λ u w₁ h₁.
          Moves-bind t (ids_of calls) [] (attempt persist_failed (host.append msg)) _ w₁
            (write-Goes (ids_of calls) msg w₁ (follow-calls content calls) h₁)
            λ seq w₂ h₂.
              then_ (answer_calls host decision calls) _ w₂
                (answer_calls-Moves t decision calls w₂ h₂)
                λ results w₃ h₃.
                  then_ (check_context host) _ w₃
                    (Holds-Moves t (check_context host w₃) (check_context-Holds t [] w₃ h₃))
                    λ u w₄ h₄. then_ (remind host cfg _) _ w₄ (remind-Goes _ w₄ h₄) λ next w₅ h₅.
                      then_ (abort_repeated host cfg decision) _ w₅
                        (abort_repeated-Goes decision w₅ h₅)
                        λ u w₆ h₆.
                          then_ (compressed host cfg next.messages) _ w₆
                            (compressed-Goes next.messages w₆ h₆)
                            λ messages w₇ h₇.
                              then_ (drain_steering host cfg) _ w₇ (drain_steering-Goes w₇ h₇)
                                λ drained w₈ h₈. h₈
