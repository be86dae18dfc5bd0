-- ===== src/Tests/Turns.antt =====
-- The steering queues, the retry loop and the loop guard on small inputs.
use sandbar.Base.{
  ℕ, ◌≤◌, Str, codes, List, [], ◌∷◌, ◌++◌, Option, none, some, ◌≡◌, ◌⊎◌, Bool, true, false, length,
  str_eq, leb, if◌then◌else◌,
}
use sandbar.Agent.Steering.{
  Action, enqueues, begins, ends, drains, run_actions, new_steering_queues, queue_of, is_active,
}
use sandbar.Agent.Steering.Delivery.{accepted_by, delivered_to}
use sandbar.Agent.Steering.Bounded.{run-Delivers}
use sandbar.Agent.Retry.{LlmError, run_with_llm_retry}
use sandbar.Agent.Retry.Attempts.{Finished, run_with_llm_retry-Finished}
use sandbar.Agent.ToolLoopGuard.{observe, guard_after, tool_call_group_fingerprint}
use sandbar.Agent.ToolLoopGuard.Streak.{observe-streak}

abbrev plain : Str → Str
plain s = s

abbrev session : List Action
session =
    enqueues (codes "t") (codes "early")
    ∷ begins (codes "t")
    ∷ enqueues (codes "t") (codes "stop")
    ∷ drains (codes "t")
    ∷ enqueues (codes "t") (codes "late")
    ∷ ends (codes "t")
    ∷ []

run-Delivers_example :
    (accepted_by (codes "t") (run_actions plain session new_steering_queues).1
      ≡ delivered_to (codes "t") (run_actions plain session new_steering_queues).1
        ++ queue_of (codes "t") (run_actions plain session new_steering_queues).0)
    × (length (queue_of (codes "t") (run_actions plain session new_steering_queues).0) ≤ 8)
    × ((is_active (codes "t") (run_actions plain session new_steering_queues).0 ≡ true)
        ⊎ (queue_of (codes "t") (run_actions plain session new_steering_queues).0 ≡ []))
run-Delivers_example = run-Delivers plain session (codes "t")

abbrev rate_limited : LlmError
rate_limited = record {
  canceled = false;
  deadline_exceeded = false;
  stream_idle = false;
  api_error = some 429;
  request_error = none;
  eof = false;
  net_error = false;
}

-- The first two attempts are over the rate limit.
abbrev third_succeeds : ℕ → Option LlmError
third_succeeds n = if leb n 2 then some rate_limited else none

abbrev always : ℕ → Bool
always n = true

run_with_llm_retry-Finished_example :
    Finished third_succeeds always 1 (run_with_llm_retry third_succeeds always)
run_with_llm_retry-Finished_example = run_with_llm_retry-Finished third_succeeds always

abbrev first_call : List Str → Str
first_call [] = []
first_call (call ∷ calls) = call

observe-streak_example :
    (observe first_call
      (codes "ls" ∷ [])
      (guard_after first_call ((codes "ls" ∷ []) ∷ (codes "pwd" ∷ []) ∷ []))).1
    ≡ record { consecutive = 2; skip = false; abort = false }
unfolding str_eq tool_call_group_fingerprint
observe-streak_example =
    observe-streak first_call (codes "ls" ∷ []) ((codes "ls" ∷ []) ∷ (codes "pwd" ∷ []) ∷ [])
