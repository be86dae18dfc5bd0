-- ===== src/Agent/Turn/Chat/Ends.antt =====
-- A turn ends: by its limit of rounds, or by the loop guard where the model repeats its calls.
use sandbar.Base.{
  ℕ, ◌+◌, ◌-◌, ◌<◌, Str, str_eq_refl, str_eq-false, ◌⊎◌, leb, ltb, if◌then◌else◌, is_nil, false,
  List, [], ◌∷◌, ◌≡◌, ◌≢◌, refl, sym, ap, ◌∙◌, Outcome, ok, err, inl, inr, arith,
}
use sandbar.Agent.Messages.{ToolCall, Message}
use sandbar.Agent.ToolLoopGuard.{
  ToolLoopGuard, new_guard, observe, observe_fingerprint, decide, tool_call_group_fingerprint,
}
use sandbar.Agent.Turn.{
  Host, Completion, PlanMode, complete_failed, usage, pure, attempt, wrapped, drop_error,
}
use sandbar.Agent.Turn.Rounds.{
  Config, Loop, first_loop, turn_limit_reached, tool_round, calls_of, tools_round, round,
}
use sandbar.Agent.Turn.Chat.{over, chat}
use sandbar.Agent.Turn.Chat.Gives.{
  Gives, Gives-bind, Gives-weaken, Gives-then, Next, Next-weaken, tools_round-turn, round-Gives,
  chat_loop-over, chat-over, tool_round-Observed, Observed, after_calls,
}

module _ {W : Type 0} (host : Host W) (cfg : Config) where
  -- A round that goes on is below the limit, and counts itself.
  round-turn :
      (st : Loop) (w : W)
      → 0 < cfg.max_turns
      → Gives
          (Next (λ next. (next.turn ≡ st.turn + 1) × (st.turn < cfg.max_turns)))
          (round host cfg st w)
  unfolding turn_limit_reached
  round-turn st w limited =
      round-Gives host cfg (λ next. (next.turn ≡ st.turn + 1) × (st.turn < cfg.max_turns)) st w
        λ below payload w'.
          Gives-weaken _ _ (tools_round host cfg (record st { turn = st.turn + 1 }) payload w')
            (λ o. Next-weaken _ _ o (λ next e. (e, ground (arith, below, limited))))
            (tools_round-turn host cfg (record st { turn = st.turn + 1 }) payload w')

  -- If the number of rounds is limited, more fuel than the limit lets every turn end.
  pub chat-limited :
      (fuel : ℕ) (mode : PlanMode) (text : Str) (w : W)
      → 0 < cfg.max_turns
      → cfg.max_turns < fuel
      → Gives (λ p. p ≡ over) (chat host cfg fuel mode text w)
  chat-limited fuel mode text w limited enough = chat-over host cfg fuel mode text w (λ ms w'.
      chat_loop-over host cfg (λ st. Unit {0}) (λ st. cfg.max_turns - st.turn)
        (λ st w'' u.
          Gives-weaken _ _ (round host cfg st w'')
            (λ o. Next-weaken _ _ o (λ next h. (tt, omega (arith, h.0, h.1))))
            (round-turn st w'' limited))
        fuel (first_loop ms) w' tt (omega (arith, enough)))

  module _ (fingerprint : Str) (full : fingerprint ≢ []) where
    -- A completion with tool calls that have the fingerprint.
    abbrev pub Repeats : W × Outcome Str Completion → Type 0
    Repeats (w, ok c) = (is_nil c.tool_calls ≡ false) × (host.digest c.tool_calls ≡ fingerprint)
    Repeats (w, err e) = Unit

    abbrev Counted : ToolLoopGuard → Type 0
    Counted g = (g ≡ new_guard) ⊎ (g.last_fingerprint ≡ fingerprint)

    observe-Counted :
        (g : ToolLoopGuard)
        → Counted g
        → ((observe_fingerprint fingerprint g).consecutive ≡ g.consecutive + 1)
          × ((observe_fingerprint fingerprint g).last_fingerprint ≡ fingerprint)
    unfolding observe_fingerprint
    observe-Counted g (inl fresh) = rw (fresh, str_eq-false fingerprint [] full) (refl, refl)
    observe-Counted g (inr same) =
        rw (same, str_eq-false fingerprint [] full, str_eq_refl fingerprint) (refl, refl)

    observe-fingerprint :
        (calls : List ToolCall) (g : ToolLoopGuard)
        → is_nil calls ≡ false
        → host.digest calls ≡ fingerprint
        → (observe host.digest calls g).0 ≡ observe_fingerprint fingerprint g
          × ((observe host.digest calls g).1.abort
              ≡ leb 6 (observe_fingerprint fingerprint g).consecutive)
    unfolding observe decide tool_call_group_fingerprint
    observe-fingerprint calls g some_calls e = rw (some_calls, e) (refl, refl)

    calls_of-same :
        (c : Completion) (w : W)
        → is_nil c.tool_calls ≡ false
        → Gives (λ calls. calls ≡ c.tool_calls) (calls_of host cfg c w)
    unfolding calls_of
    calls_of-same c w some_calls = rw (calls_of, some_calls) refl

    -- A round that goes on after repeated calls was counted by the guard, and not aborted.
    abbrev Repeated : Loop → Loop → Type 0
    Repeated st next =
        (next.guard ≡ observe_fingerprint fingerprint st.guard)
        × (leb 6 (observe_fingerprint fingerprint st.guard).consecutive ≡ false)

    after_calls-Repeated :
        (st : Loop) (c : Completion) (calls : List ToolCall) (w : W)
        → is_nil calls ≡ false
        → host.digest calls ≡ fingerprint
        → Gives (Next (Repeated st)) (after_calls host cfg st c calls w)
    unfolding after_calls
    after_calls-Repeated st c [] w some_calls e = ground (arith, some_calls)
    after_calls-Repeated st c (tc ∷ tcs) w some_calls e =
        let seen = observe-fingerprint (tc ∷ tcs) st.guard some_calls e in
        Gives-bind (Observed host cfg st (tc ∷ tcs)) (Next (Repeated st))
          (tool_round host cfg st c.content (tc ∷ tcs)) _ w
          (tool_round-Observed host cfg st c.content (tc ∷ tcs) w)
          λ next w₁ h. (h.1 ∙ seen.0, sym seen.1 ∙ h.2)

    module _ (repeats : (payload : List Message) (w : W) → Repeats (host.complete payload w)) where
      complete-Gives :
          (payload : List Message) (w : W)
          → Gives
              (λ c. (is_nil c.tool_calls ≡ false) × (host.digest c.tool_calls ≡ fingerprint))
              (attempt complete_failed (host.complete payload) w)
      complete-Gives payload w = by_result (host.complete payload w) (repeats payload w)
        where
          by_result :
              (r : W × Outcome Str Completion)
              → Repeats r
              → Gives
                  (λ c. (is_nil c.tool_calls ≡ false) × (host.digest c.tool_calls ≡ fingerprint))
                  (r.0, wrapped complete_failed r.1)
          by_result (w', ok c) h = h
          by_result (w', err e) h = tt

      tools_round-Repeated :
          (st : Loop) (payload : List Message) (w : W)
          → Gives (Next (Repeated st)) (tools_round host cfg st payload w)
      unfolding tools_round after_calls
      tools_round-Repeated st payload w =
          let P = Next (Repeated st) in
          Gives-bind (λ c. (is_nil c.tool_calls ≡ false) × (host.digest c.tool_calls ≡ fingerprint))
            P (attempt complete_failed (host.complete payload)) _ w (complete-Gives payload w)
            λ c w₁ h.
              Gives-then P
                (if ltb 0 c.total_tokens
                  then drop_error (host.on_event (usage c.total_tokens))
                  else pure tt)
                _ w₁
                λ u w₂.
                  Gives-bind (λ calls. calls ≡ c.tool_calls) P (calls_of host cfg c) _ w₂
                    (calls_of-same c w₂ h.0)
                    λ calls w₃ same.
                      after_calls-Repeated st c calls w₃ (ap is_nil same ∙ h.0)
                        (ap host.digest same ∙ h.1)

      -- If every completion of the model repeats the same tool calls, as the loop guard reads them, the
      -- turn ends within six rounds, whether or not there is a limit of rounds.
      pub chat-repeating :
          (fuel : ℕ) (mode : PlanMode) (text : Str) (w : W)
          → 5 < fuel
          → Gives (λ p. p ≡ over) (chat host cfg fuel mode text w)
      chat-repeating fuel mode text w enough = chat-over host cfg fuel mode text w (λ ms w'.
          chat_loop-over host cfg (λ st. Counted st.guard) (λ st. 5 - st.guard.consecutive) rounds
            fuel (first_loop ms) w' (inl refl) enough)
        where
          counted :
              (st next : Loop)
              → Counted st.guard
              → Repeated st next
              → Counted next.guard × (5 - next.guard.consecutive < 5 - st.guard.consecutive)
          counted st next inv (guard, goes_on) =
              let (count, last) = observe-Counted st.guard inv in
              (
                inr (ap (λ g. g.last_fingerprint) guard ∙ last),
                ground (arith, ap (λ (g : ToolLoopGuard). g.consecutive) guard, count, goes_on),
              )

          rounds :
              (st : Loop) (w' : W)
              → Counted st.guard
              → Gives
                  (Next (λ next.
                    Counted next.guard × (5 - next.guard.consecutive < 5 - st.guard.consecutive)))
                  (round host cfg st w')
          rounds st w' inv = round-Gives host cfg _ st w' λ below payload w''.
              Gives-weaken _ _ (tools_round host cfg (record st { turn = st.turn + 1 }) payload w'')
                (λ o. Next-weaken _ _ o (λ next h. counted st next inv h))
                (tools_round-Repeated (record st { turn = st.turn + 1 }) payload w'')
