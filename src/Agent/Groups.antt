-- ===== src/Agent/Groups.antt =====
-- `groupMessagesForCompression` and `alignCompressionBoundary` of internal/agent/compression.go.
pub mod Tiling
mod Restart
pub mod Suffix
use sandbar.Base.{
  ℕ, zero, suc, ◌+◌, leb, ltb, if◌then◌else◌, ◌-◌, length, drop, Bool, true, false, Option, none,
  some, List, [], ◌∷◌, ◌&&◌,
}
use sandbar.Agent.Messages.{Role, system, user, assistant, tool, other, Message, is_tool, is_user}

pub data GroupKind : Type 0 where
  system_group user_group assistant_tool_group assistant_group other_group : GroupKind

-- A half-open range of indices that must not be split.
pub record MessageGroup : Type 0 where
  pub start : ℕ
  pub end : ℕ
  pub kind : GroupKind

-- The inner loop: how many tool results follow.
unfoldable pub result_run : List Message → ℕ
result_run [] = 0
result_run (msg ∷ msgs) = let rest = result_run msgs in if is_tool msg.role then suc rest else 0

-- The `switch`: the group that begins with `msg` at index `i`, with `msgs` after it.
unfoldable pub next_group : ℕ → Message → List Message → MessageGroup
next_group i msg msgs = elim msg.role [
  | system ↦ record { start = i; end = i + 1; kind = system_group }
  | user ↦ record { start = i; end = i + 1; kind = user_group }
  | assistant ↦ elim msg.tool_calls [
    | [] ↦ record { start = i; end = i + 1; kind = assistant_group }
    | tc ∷ tcs ↦ record { start = i; end = i + 1 + result_run msgs; kind = assistant_tool_group }
  ]
  | tool ↦ record { start = i; end = i + 1; kind = other_group }
  | other s ↦ record { start = i; end = i + 1; kind = other_group }
]

-- The outer loop, from index `i`; each round takes at least one message, so the length is fuel
-- enough.
unfoldable pub group_from : ℕ → ℕ → List Message → List MessageGroup
group_from fuel i [] = []
group_from zero i (msg ∷ msgs) = []
group_from (suc fuel) i (msg ∷ msgs) =
    let g = next_group i msg msgs in g ∷ group_from fuel g.end (drop (g.end - (i + 1)) msgs)

unfoldable pub group_messages_for_compression : List Message → List MessageGroup
group_messages_for_compression msgs = group_from (length msgs) 0 msgs

-- The first loop of `alignCompressionBoundary`; `none` is -1. It searches from the end.
unfoldable pub last_user : ℕ → List Message → Option ℕ
last_user i [] = none
last_user i (msg ∷ msgs) = elim (last_user (i + 1) msgs) [
  | some j ↦ some j
  | none ↦ if is_user msg.role then some i else none
]

-- `lastUserIdx >= 0 && g.Start <= lastUserIdx && g.End > lastUserIdx`
unfoldable pub holds_index : MessageGroup → Option ℕ → Bool
holds_index g none = false
holds_index g (some j) = leb g.start j && ltb j g.end

unfoldable pub walk_groups : List MessageGroup → ℕ → Option ℕ → ℕ → ℕ
walk_groups [] target last boundary = boundary
walk_groups (g ∷ gs) target last boundary =
    let further = walk_groups gs target last g.end in
    if leb target g.start then boundary else if holds_index g last then boundary else further

unfoldable pub align_compression_boundary : List MessageGroup → ℕ → List Message → ℕ
align_compression_boundary groups target msgs = walk_groups groups target (last_user 0 msgs) 0
