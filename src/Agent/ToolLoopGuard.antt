-- ===== src/Agent/ToolLoopGuard.antt =====
-- internal/agent/tool_loop_guard.go: the guard against a model that repeats a tool call.
-- The fingerprint of a round of calls is a parameter: SHA-256 and JSON are libraries.
pub mod Streak
use sandbar.Base.{ℕ, ◌+◌, Str, str_eq, leb, if◌then◌else◌, Bool, is_nil, List, [], ◌∷◌, ◌||◌, not}

abbrev pub repeated_tool_call_warning_at : ℕ
repeated_tool_call_warning_at = 3

abbrev pub repeated_tool_call_abort_at : ℕ
repeated_tool_call_abort_at = 6

pub record ToolLoopDecision : Type 0 where
  pub consecutive : ℕ
  pub skip : Bool
  pub abort : Bool

pub record ToolLoopGuard : Type 0 where
  pub last_fingerprint : Str
  pub consecutive : ℕ

abbrev pub new_guard : ToolLoopGuard
new_guard = record { last_fingerprint = []; consecutive = 0 }

-- `Observe` on a fingerprint: the guard after the round.
unfoldable pub observe_fingerprint : Str → ToolLoopGuard → ToolLoopGuard
observe_fingerprint fingerprint g =
    if str_eq fingerprint [] || not (str_eq fingerprint g.last_fingerprint)
    then record { last_fingerprint = fingerprint; consecutive = 1 }
    else record g { consecutive = g.consecutive + 1 }

unfoldable pub decide : ToolLoopGuard → ToolLoopDecision
decide g = record {
  consecutive = g.consecutive;
  skip = leb repeated_tool_call_warning_at g.consecutive;
  abort = leb repeated_tool_call_abort_at g.consecutive;
}

module _ {Call : Type 0} (digest : List Call → Str) where
  -- `toolCallGroupFingerprint`, where `digest` is the hex digest of the calls.
  unfoldable pub tool_call_group_fingerprint : List Call → Str
  tool_call_group_fingerprint calls = if is_nil calls then [] else digest calls

  -- `Observe`
  unfoldable pub observe : List Call → ToolLoopGuard → ToolLoopGuard × ToolLoopDecision
  observe calls g =
      let next = observe_fingerprint (tool_call_group_fingerprint calls) g in (next, decide next)

  -- The guard after the rounds, the latest first.
  unfoldable pub guard_after : List (List Call) → ToolLoopGuard
  guard_after [] = new_guard
  guard_after (calls ∷ earlier) = (observe calls (guard_after earlier)).0
