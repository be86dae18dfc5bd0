-- ===== src/Agent/Sanitize.antt =====
-- internal/agent/sanitize.go: the repair of a message list for the provider's pairing rules.
-- The two nested loops of the source walk one index, so they are one pass over the list with a
-- state that says whether the inner loop is running.
mod Group
pub mod Pairing
pub mod Again
use sandbar.Base.{
  is_nil, Str, codes, str_eq, Map, lookup, insert, if◌then◌else◌, is_some, Bool, true, false,
  Option, none, some, List, [], ◌∷◌, ◌++◌, map, not, ◌&&◌,
}
use sandbar.Agent.Messages.{
  Role, user, assistant, tool, ToolCall, Message, IndexedMessage, thread_message, is_tool,
  is_assistant,
}

abbrev pub interrupted_tool_result : Str
interrupted_tool_result =
    codes "error: tool call was not completed because the agent turn was interrupted"

unfoldable pub synthetic_tool_result : Str → Message
synthetic_tool_result id = record {
  role = tool;
  content = interrupted_tool_result;
  tool_calls = [];
  tool_call_id = id;
}

-- One round of the loop of `unansweredCallSet` over the map `pending` and the slice `order`.
unfoldable pub index_call : ToolCall → Map Bool × List Str → Map Bool × List Str
index_call tc (pending, order) =
    if str_eq tc.id []
    then (pending, order)
    else if is_some (lookup tc.id pending)
    then (pending, order)
    else (insert tc.id false pending, order ++ tc.id ∷ [])

unfoldable pub index_calls : List ToolCall → Map Bool × List Str → Map Bool × List Str
index_calls [] acc = acc
index_calls (tc ∷ tcs) acc = index_calls tcs (index_call tc acc)

unfoldable pub unanswered_call_set : List ToolCall → Map Bool × List Str
unanswered_call_set tcs = index_calls tcs ([], [])

-- `if answered, ok := pending[id]; ok && !answered`
unfoldable pub is_open : Str → Map Bool → Bool
is_open id pending = elim (lookup id pending) [ none ↦ false | some answered ↦ not answered ]

-- The loop that seals the calls without a result: `if !pending[id]`, where an absent key reads
-- false.
unfoldable pub seal : Map Bool → List Str → List Message
seal pending [] = []
seal pending (id ∷ order) =
    let rest = seal pending order in
    if elim (lookup id pending) [ none ↦ false | some answered ↦ answered ]
    then rest
    else synthetic_tool_result id ∷ rest

-- Where the pass stands: at the head of the outer loop, or in the inner loop of a group.
pub data Phase : Type 0 where
  outer : Phase
  inner : Map Bool → List Str → Phase

-- What leaving the inner loop appends.
unfoldable pub close : Phase → List Message
close outer = []
close (inner pending order) = seal pending order

-- The `switch` of the outer loop, on a message that no inner loop takes.
unfoldable pub take_message : Message → List Message × Phase
take_message msg =
    if is_assistant msg.role && not (is_nil msg.tool_calls)
    then (let (pending, order) = unanswered_call_set msg.tool_calls in
        (msg ∷ [], inner pending order))
    else if is_assistant msg.role && str_eq msg.content []
    then ([], outer)
    else if is_tool msg.role
    then ([], outer)
    else (msg ∷ [], outer)

-- One message: the inner loop takes it if it is a tool result, and ends before it otherwise.
unfoldable pub step : Phase → Message → List Message × Phase
step outer msg = take_message msg
step (inner pending order) msg =
    if is_tool msg.role
    then if is_open msg.tool_call_id pending
      then (msg ∷ [], inner (insert msg.tool_call_id true pending) order)
      else ([], inner pending order)
    else (let (out, next) = take_message msg in (seal pending order ++ out, next))

unfoldable pub repair : Phase → List Message → List Message
repair phase [] = close phase
repair phase (msg ∷ msgs) = let (out, next) = step phase msg in out ++ repair next msgs

-- The last loop: no user, system or tool message goes out with empty content.
unfoldable pub fill_content : Message → Message
fill_content msg =
    if not (is_assistant msg.role) && str_eq msg.content []
    then record msg { content = codes "(empty)" }
    else msg

-- `sanitizeProviderMessages`
unfoldable pub sanitize_provider_messages : List Message → List Message
sanitize_provider_messages msgs = map fill_content (repair outer msgs)
