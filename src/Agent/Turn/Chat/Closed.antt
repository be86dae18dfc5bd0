-- ===== src/Agent/Turn/Chat/Closed.antt =====
-- A turn closes every group of tool calls that it stores.
use sandbar.Base.{
  ℕ, zero, suc, Str, Bool, true, false, Option, none, some, List, [], ◌∷◌, ◌++◌, ◌≡◌, ◌⊎◌, inl, inr,
  refl, append-nil, append_assoc, Outcome, ok, err, if-holds,
}
use sandbar.Agent.Messages.{Message}
use sandbar.Agent.Turn.{
  Step, ChatError, PlanMode, plan_off, planning, is_unclosed, persist_failed, build_failed,
  plan_failed, thread_started, pure, attempt, check, emit, user_text,
}
use sandbar.Agent.Turn.Rounds.{Loop, first_loop, round, compressed, steering_wrapper}
use sandbar.Agent.Turn.Chat.{
  Progress, over, chat_loop, is_undecided, begin_plan, chat_turn, keep_undelivered,
  end_steering_turn, chat,
}
use sandbar.Agent.Turn.Pairing.{
  Setting, open_calls, Recorded, LeftBy, Written, append-Written, check-Holds, Holds-Moves,
  attempt-Holds,
}
use sandbar.Agent.Turn.Calls.Closing.{follow-user}
use sandbar.Agent.Turn.Rounds.Closing.{then_, emit-Goes, write-Goes, compressed-Goes, Waits, Goes}
use sandbar.Agent.Turn.Rounds.Streaming.{round-Ends}

-- Whether a turn ended in an error of the store on closing a group.
unfoldable pub failed_to_close : {A : Type 0} → Outcome ChatError A → Bool
failed_to_close (ok a) = false
failed_to_close (err e) = is_unclosed e

-- The turn has added messages to `base`, and none of their calls waits for a result.
abbrev pub Closes :
    {W A : Type 0} → (List Message → W → Type 0) → List Message → W × Outcome ChatError A → Type 0
Closes Stores base (w, r) =
    (more : List Message) × Stores (base ++ more) w
    × ((failed_to_close r ≡ true) ⊎ (open_calls [] more ≡ some []))

module _ {W : Type 0} (t : Setting W) where
  open t use {host, cfg, Stores, keeps, base}

  abbrev Idle : W → Type 0
  Idle = Waits t []

  abbrev Ends : {A : Type 0} → W × Outcome ChatError A → Type 0
  Ends r = Goes t r

  chat_loop-Ends : (fuel : ℕ) (st : Loop) (w : W) → Idle w → Ends (chat_loop host cfg fuel st w)
  unfolding chat_loop
  chat_loop-Ends zero st w at = at
  chat_loop-Ends (suc fuel) st w at =
      then_ t (round host cfg st) _ w (round-Ends t st w at)
        λ next w₁ h₁. by_next next w₁ (λ st'. chat_loop-Ends fuel st' w₁ h₁) h₁
    where
      by_next :
          (next : Option Loop) (w' : W)
          → ((st' : Loop) → Ends (chat_loop host cfg fuel st' w'))
          → Idle w'
          → Ends {A = Progress} (
              (elim next as (λ x. Step W Progress) [
                | none ↦ pure over
                | some st' ↦ chat_loop host cfg fuel st'
              ])
                w')
      by_next none w' ih h = h
      by_next (some st') w' ih h = ih st'

  set_plan-Ends :
      (mode : PlanMode) (w : W) → Idle w → Ends (check plan_failed (host.set_plan_mode mode) w)
  unfolding is_unclosed
  set_plan-Ends mode w at = Holds-Moves t (check plan_failed (host.set_plan_mode mode) w) (
      check-Holds t [] plan_failed (host.set_plan_mode mode) w (λ e. refl)
        (λ l. keeps.set_plan_mode mode l w) at)

  begin_plan-Ends : (mode : PlanMode) (w : W) → Idle w → Ends (begin_plan host cfg mode w)
  unfolding begin_plan
  begin_plan-Ends mode w at =
      if-holds (λ (m : Step W (Unit {0})). Ends (m w)) cfg.plan_only
        (check plan_failed (host.set_plan_mode planning)) _ (λ plan. set_plan-Ends planning w at)
        (λ normal.
          if-holds (λ (m : Step W (Unit {0})). Ends (m w)) (is_undecided mode)
            (check plan_failed (host.set_plan_mode plan_off)) (pure tt)
            (λ waits. set_plan-Ends plan_off w at) (λ decided. at))

  chat_turn-Ends :
      (fuel : ℕ) (mode : PlanMode) (text : Str) (w : W)
      → Idle w
      → Ends (chat_turn host cfg fuel mode text w)
  unfolding chat_turn is_unclosed
  chat_turn-Ends fuel mode text w at =
      then_ t (begin_plan host cfg mode) _ w (begin_plan-Ends mode w at) λ u w₁ h₁.
        then_ t (attempt persist_failed (host.append (user_text text))) _ w₁
          (write-Goes t [] (user_text text) w₁ (follow-user text) h₁)
          λ seq w₂ h₂.
            then_ t (emit host thread_started) _ w₂ (emit-Goes t thread_started w₂ h₂) λ u w₃ h₃.
              then_ t (attempt build_failed host.build_messages) _ w₃
                (Holds-Moves t (attempt build_failed host.build_messages w₃) (
                  attempt-Holds t [] build_failed host.build_messages w₃ (λ e. refl)
                    (λ l. keeps.build_messages l w₃) h₃))
                λ ms w₄ h₄.
                  then_ t (compressed host cfg ms) _ w₄ (compressed-Goes t ms w₄ h₄)
                    λ ms' w₅ h₅. chat_loop-Ends fuel (first_loop ms') w₅ h₅

  -- Messages that were not delivered are stored behind what the turn left.
  keep_undelivered-Left :
      (b : Bool) (texts : List Str) (w : W)
      → LeftBy t b w
      → LeftBy t b (keep_undelivered host cfg texts w)
  unfolding keep_undelivered
  keep_undelivered-Left b [] w h = h
  keep_undelivered-Left true (text ∷ texts) w (more, stored) =
      let msg = user_text (steering_wrapper ++ text) in
      keep_undelivered-Left true texts (host.append msg w).0
        (by_write (host.append msg w) (keeps.records msg (base ++ more) w stored))
    where
      by_write :
          (r : W × Outcome Str ℕ)
          → Recorded Stores (base ++ more) (user_text (steering_wrapper ++ text)) r
          → LeftBy t true r.0
      by_write (w', ok seq) h = (
        more ++ user_text (steering_wrapper ++ text) ∷ [],
        rw (← (append_assoc base more (user_text (steering_wrapper ++ text) ∷ []))) h,
      )
      by_write (w', err e) h = (more, h)
  keep_undelivered-Left false (text ∷ texts) w at =
      let msg = user_text (steering_wrapper ++ text) in
      keep_undelivered-Left false texts (host.append msg w).0
        (by_write (host.append msg w) (append-Written t [] [] msg w (follow-user _) at))
    where
      by_write : (r : W × Outcome Str ℕ) → Written t [] [] r → Idle r.0
      by_write (w', ok seq) h = h
      by_write (w', err e) h = h

  end_steering_turn-Left :
      (b : Bool) (w : W) → LeftBy t b w → LeftBy t b (end_steering_turn host cfg w)
  unfolding end_steering_turn
  end_steering_turn-Left true w (more, stored) =
      keep_undelivered-Left true (host.end_turn w).1 (host.end_turn w).0
        (more, keeps.end_turn (base ++ more) w stored)
  end_steering_turn-Left false w (more, stored, calls) =
      keep_undelivered-Left false (host.end_turn w).1 (host.end_turn w).0
        (more, keeps.end_turn (base ++ more) w stored, calls)

  LeftBy-Closes :
      {A : Type 0} (b : Bool) (w : W) (r : Outcome ChatError A)
      → failed_to_close r ≡ b
      → LeftBy t b w
      → Closes Stores base (w, r)
  LeftBy-Closes true w r e (more, stored) = (more, stored, inl e)
  LeftBy-Closes false w r e (more, stored, calls) = (more, stored, inr calls)

  -- Over a store that `append` alone writes to, and that an error leaves alone: whichever way Chat
  -- ends (an answer, an error, a cancellation, an event that is not taken, the turn limit), it has only
  -- added messages to its thread, and each call in them has its result right behind the calls, in their
  -- order, unless the store failed when results were written for calls that were cut short.
  pub chat-Closed :
      (fuel : ℕ) (mode : PlanMode) (text : Str) (w : W)
      → Stores base w
      → Closes Stores base (chat host cfg fuel mode text w)
  unfolding chat failed_to_close open_calls
  chat-Closed fuel mode text w stored =
      let w₀ = host.begin_turn w in
      by_result (chat_turn host cfg fuel mode text w₀) (
        chat_turn-Ends fuel mode text w₀
          ([], rw (append-nil base) (keeps.begin_turn base w stored), refl))
    where
      by_result :
          (r : W × Outcome ChatError Progress)
          → Ends r
          → Closes Stores base (end_steering_turn host cfg r.0, r.1)
      by_result (w', ok p) h =
          LeftBy-Closes {A = Progress} false (end_steering_turn host cfg w') (ok p) refl
            (end_steering_turn-Left false w' h)
      by_result (w', err e) h =
          LeftBy-Closes {A = Progress} (is_unclosed e) (end_steering_turn host cfg w') (err e) refl
            (end_steering_turn-Left (is_unclosed e) w' h)
