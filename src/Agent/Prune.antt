-- ===== src/Agent/Prune.antt =====
-- `pruneOldToolOutputs` of internal/agent/compression.go; printing a number is the parameter
-- `digits`.
pub mod Payloads
use sandbar.Base.{
  ℕ, zero, suc, ◌+◌, Str, codes, str_eq, ltb, leb, ◌==◌, if◌then◌else◌, Bool, true, false, length,
  take, is_nil, Option, none, some, List, [], ◌∷◌, ◌++◌, not, ◌&&◌, newline,
}
use sandbar.Agent.Messages.{Role, ToolCall, Message, IndexedMessage, is_tool, is_user, is_assistant}

abbrev pub max_output_len : ℕ
max_output_len = 2000

-- The index of the last message of a user; `none` is -1.
unfoldable pub last_user_from : ℕ → List IndexedMessage → Option ℕ
last_user_from i [] = none
last_user_from i (m ∷ ms) = elim (last_user_from (i + 1) ms) [
  | some j ↦ some j
  | none ↦ if is_user m.msg.role then some i else none
]

-- `strings.Count(content, "\n")`
unfoldable pub count_newlines : Str → ℕ
count_newlines [] = 0
count_newlines (c ∷ s) = (if c == newline then 1 else 0) + count_newlines s

-- The name of the call that a result answers, in the message before it.
unfoldable pub named_call : Str → List ToolCall → Str
named_call id [] = codes "tool"
named_call id (tc ∷ tcs) =
    if str_eq tc.id id && not (is_nil tc.name) then tc.name else named_call id tcs

unfoldable pub tool_name_of : Option Message → Message → Str
tool_name_of none m = codes "tool"
tool_name_of (some before) m =
    if is_assistant before.role then named_call m.tool_call_id before.tool_calls else codes "tool"

-- Whether the loop prunes message `i`, when the last user's message is `last`.
unfoldable pub prunes : ℕ → ℕ → Message → Bool
prunes last i m =
    not (i == 0) && (ltb i last && (is_tool m.role && ltb max_output_len (length m.content)))

module _ (digits : ℕ → Str) where
  -- The content that is left; the arrow has three bytes.
  unfoldable pub pruned_content : Str → Str → Str
  pruned_content name content =
      take max_output_len content
      ++ codes "\n["
      ++ name
      ++ codes " output pruned: "
      ++ digits (length content)
      ++ codes " "
      ++ (226 ∷ 134 ∷ 146 ∷ [])
      ++ codes " "
      ++ digits max_output_len
      ++ codes " chars ("
      ++ digits (count_newlines content + 1)
      ++ codes " lines)]"

  unfoldable pub pruned_message : Option Message → IndexedMessage → IndexedMessage
  pruned_message before m = record m {
    msg = record m.msg { content = pruned_content (tool_name_of before m.msg) m.msg.content };
  }

  -- The loop from message `i` on, after the message `before`.
  unfoldable pub prune_from : ℕ → ℕ → Option Message → List IndexedMessage → List IndexedMessage × ℕ
  prune_from last i before [] = ([], 0)
  prune_from last i before (m ∷ ms) =
      let rest = prune_from last (i + 1) (some m.msg) ms in
      if prunes last i m.msg
      then (pruned_message before m ∷ rest.0, suc rest.1)
      else (m ∷ rest.0, rest.1)

  -- `pruneOldToolOutputs`
  unfoldable pub prune_old_tool_outputs : List IndexedMessage → List IndexedMessage × ℕ
  prune_old_tool_outputs ms = elim (last_user_from 0 ms) [
    | none ↦ (ms, 0)
    | some last ↦ prune_from last 0 none ms
  ]
