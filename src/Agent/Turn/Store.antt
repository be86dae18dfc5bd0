-- ===== src/Agent/Turn/Store.antt =====
-- internal/agent/agent.go over internal/memory/thread.go: the tables of conversations as the store that
-- the turn loop writes to.
use sandbar.Base.{ℕ, Str, codes, Bool, Option, none, some, List, map, ◌≡◌, Outcome, ok, err}
use sandbar.Agent.Messages.{Role, ToolCall, Message, system, user, assistant, tool, other}
use sandbar.Memory.Threads.{
  MessageRow, ToolCallRow, Db, DbError, Draft, messages_of, append_message_with_tool_calls,
}
use sandbar.Memory.Threads.Tables.{Consistent}
use sandbar.Memory.Threads.Writes.{get_tool_calls_for_message}

unfoldable pub role_text : Role → Str
role_text system = codes "system"
role_text user = codes "user"
role_text assistant = codes "assistant"
role_text tool = codes "tool"
role_text (other s) = s

unfoldable pub call_id_of : Message → Option Str
call_id_of msg = elim msg.role [
  | system ↦ none
  | user ↦ none
  | assistant ↦ none
  | tool ↦ some msg.tool_call_id
  | other s ↦ none
]

-- What `AppendMessage` and `persistAssistantTurn` hand to the store for a message of the loop.
unfoldable pub draft_of : Str → ℕ → Message → Draft
draft_of thread_id now msg = record {
  thread_id = thread_id;
  role = role_text msg.role;
  content = some msg.content;
  tool_call_id = call_id_of msg;
  tool_calls =
      map (λ tc. record { id = tc.id; tool_name = tc.name; arguments = tc.arguments })
        msg.tool_calls;
  now = now;
}

-- A tool call as it is stored: its id, its tool and its arguments.
abbrev pub CallView : Type 0
CallView = Str × Str × Str

-- The role, the content, the call id and the tool calls of a stored message, and of one of the loop.
abbrev pub View : Type 0
View = Str × Option Str × Option Str × List CallView

abbrev pub stored_call : ToolCallRow → CallView
stored_call c = (c.id, c.tool_name, c.arguments)

abbrev pub loop_call : ToolCall → CallView
loop_call tc = (tc.id, tc.name, tc.arguments)

abbrev pub row_view : Db → MessageRow → View
row_view db m =
    (m.role, m.content, m.tool_call_id, map stored_call (get_tool_calls_for_message m.id db))

abbrev pub message_view : Message → View
message_view msg =
    (role_text msg.role, some msg.content, call_id_of msg, map loop_call msg.tool_calls)

-- The tables are consistent, and the transcript of the thread shows the messages with their calls.
abbrev pub Holds : Str → List Message → Db → Type 0
Holds thread_id l db =
    Consistent db × (map (row_view db) (messages_of thread_id db) ≡ map message_view l)

-- `describe` is the text of an error of the store.
module _ (describe : DbError → Str) (locked : ℕ → Bool) (thread_id : Str) (now : ℕ) where
  abbrev pub reported : Db × Outcome DbError MessageRow → Db × Outcome Str ℕ
  reported (db, ok m) = (db, ok m.seq)
  reported (db, err e) = (db, err (describe e))

  -- `AppendMessage`, or `AppendAssistantMessageWithToolCalls`, in the turn loop.
  unfoldable pub append_to : Message → Db → Db × Outcome Str ℕ
  append_to msg db =
      reported (append_message_with_tool_calls locked (draft_of thread_id now msg) db)
