-- ===== src/Agent/Turn/Chat.antt =====
-- internal/agent/agent.go: Chat, from the lock of the thread on. The model of the turn is resolved and
-- the thread loaded; titles are made by another goroutine. The loop may run for ever, so it has fuel.
pub mod Closed
pub mod Asks
pub mod Gives
pub mod Ends
use sandbar.Base.{
  ℕ, zero, suc, Str, if◌then◌else◌, Bool, true, false, Option, none, some, List, [], ◌∷◌, ◌++◌,
  Outcome, ok, err,
}
use sandbar.Agent.Messages.{Message, IndexedMessage}
use sandbar.Agent.Turn.{
  Host, Step, ChatError, PlanMode, plan_off, planning, pending_approval, approved, plan_failed,
  persist_failed, build_failed, thread_started, ◌>>=◌, ◌>>◌, pure, continue, attempt, check, emit,
  user_text,
}
use sandbar.Agent.Turn.Rounds.{Config, Loop, first_loop, round, compressed, steering_wrapper}

-- How a run of the loop ended.
pub data Progress : Type 0 where
  over : Progress
  out_of_fuel : Progress

-- Whether the plan of an earlier turn still waits for a decision.
unfoldable pub is_undecided : PlanMode → Bool
is_undecided plan_off = false
is_undecided planning = true
is_undecided pending_approval = true
is_undecided approved = false

module _ {W : Type 0} (host : Host W) (cfg : Config) where
  -- `for { … }`
  unfoldable pub chat_loop : ℕ → Loop → Step W Progress
  chat_loop zero st = pure out_of_fuel
  chat_loop (suc fuel) st =
      round host cfg st >>= λ next. elim next [ none ↦ pure over | some st' ↦ chat_loop fuel st' ]

  -- The plan mode of the thread at the start of a turn.
  unfoldable pub begin_plan : PlanMode → Step W (Unit {0})
  begin_plan mode =
      if cfg.plan_only
      then check plan_failed (host.set_plan_mode planning)
      else if is_undecided mode
      then check plan_failed (host.set_plan_mode plan_off)
      else pure tt

  -- The turn under its `defer`.
  unfoldable pub chat_turn : ℕ → PlanMode → Str → Step W Progress
  chat_turn fuel mode text = begin_plan mode >>= λ u.
      attempt persist_failed (host.append (user_text text)) >>= λ seq.
      emit host thread_started >>= λ u. attempt build_failed host.build_messages >>= λ messages.
      compressed host cfg messages >>= λ messages. chat_loop fuel (first_loop messages)

  -- The loop of `endSteeringTurn`, which drops the store's errors.
  unfoldable pub keep_undelivered : List Str → W → W
  keep_undelivered [] w = w
  keep_undelivered (text ∷ texts) w =
      keep_undelivered texts (host.append (user_text (steering_wrapper ++ text)) w).0

  unfoldable pub end_steering_turn : W → W
  end_steering_turn w = let (w', texts) = host.end_turn w in keep_undelivered texts w'

  -- `Chat`
  unfoldable pub chat : ℕ → PlanMode → Str → Step W Progress
  chat fuel mode text w =
      let (w', r) = chat_turn fuel mode text (host.begin_turn w) in (end_steering_turn w', r)
