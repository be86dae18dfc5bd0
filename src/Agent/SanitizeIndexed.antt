-- ===== src/Agent/SanitizeIndexed.antt =====
-- `sanitizeIndexedMessages` and `trailingUnansweredToolCalls` of internal/agent/sanitize.go: the
-- repair again, on the view whose messages carry their sequence number. As in the source, the code
-- is written out a second time; `unansweredCallSet` and the phases are those of Sanitize.
pub mod View
use sandbar.Base.{
  is_nil, Str, codes, str_eq, contains, Map, lookup, insert, if◌then◌else◌, Bool, true, false, none,
  some, List, [], ◌∷◌, ◌++◌, map, not, ◌&&◌, ◌||◌, Option,
}
use mathlib.Core.List.{reverse}
use sandbar.Agent.Messages.{
  ToolCall, Message, IndexedMessage, thread_message, is_tool, is_assistant,
}
use sandbar.Agent.Sanitize.{
  unanswered_call_set, is_open, Phase, outer, inner, synthetic_tool_result,
}

-- The sealing loop: what it appends is synthetic and has no sequence number.
pub seal_indexed : Map Bool → List Str → List IndexedMessage
seal_indexed pending [] = []
seal_indexed pending (id ∷ order) =
    let rest = seal_indexed pending order in
    if elim (lookup id pending) [ none ↦ false | some answered ↦ answered ]
    then rest
    else record { seq = 0; synthetic = true; kind = thread_message; msg = synthetic_tool_result id }
      ∷ rest

pub close_indexed : Phase → List IndexedMessage
close_indexed outer = []
close_indexed (inner pending order) = seal_indexed pending order

pub take_indexed : IndexedMessage → List IndexedMessage × Phase
take_indexed im =
    if is_assistant im.msg.role && not (is_nil im.msg.tool_calls)
    then (let (pending, order) = unanswered_call_set im.msg.tool_calls in
        (im ∷ [], inner pending order))
    else if is_assistant im.msg.role && str_eq im.msg.content []
    then ([], outer)
    else if is_tool im.msg.role
    then ([], outer)
    else (im ∷ [], outer)

pub step_indexed : Phase → IndexedMessage → List IndexedMessage × Phase
step_indexed outer im = take_indexed im
step_indexed (inner pending order) im =
    if is_tool im.msg.role
    then if is_open im.msg.tool_call_id pending
      then (im ∷ [], inner (insert im.msg.tool_call_id true pending) order)
      else ([], inner pending order)
    else (let (out, next) = take_indexed im in (seal_indexed pending order ++ out, next))

pub repair_indexed : Phase → List IndexedMessage → List IndexedMessage
repair_indexed phase [] = close_indexed phase
repair_indexed phase (im ∷ ims) =
    let (out, next) = step_indexed phase im in out ++ repair_indexed next ims

pub fill_indexed : IndexedMessage → IndexedMessage
fill_indexed im =
    if not (is_assistant im.msg.role) && str_eq im.msg.content []
    then record im { msg = record im.msg { content = codes "(empty)" } }
    else im

pub sanitize_indexed_messages : List IndexedMessage → List IndexedMessage
sanitize_indexed_messages ims = map fill_indexed (repair_indexed outer ims)

-- The loop that collects the calls without a result.
pub missing_calls : List ToolCall → List Str → List ToolCall
missing_calls [] answered = []
missing_calls (tc ∷ tcs) answered =
    let rest = missing_calls tcs answered in
    if not (str_eq tc.id []) && not (contains tc.id answered) then tc ∷ rest else rest

-- `trailingUnansweredToolCalls`: the walk from the end over tool results, on the reversed list.
pub trailing_walk : List IndexedMessage → List Str → List ToolCall
trailing_walk [] answered = []
trailing_walk (im ∷ earlier) answered =
    let further = trailing_walk earlier (im.msg.tool_call_id ∷ answered) in
    if is_tool im.msg.role
    then further
    else if im.synthetic || not (is_assistant im.msg.role) || is_nil im.msg.tool_calls
    then []
    else missing_calls im.msg.tool_calls answered

pub trailing_unanswered_tool_calls : List IndexedMessage → List ToolCall
trailing_unanswered_tool_calls ims = trailing_walk (reverse ims) []
