-- ===== src/Tests/Conversations.antt =====
-- A conversation with a tool call, its fork, and an undo.
use sandbar.Base.{ℕ, codes, none, some, Bool, false, [], ◌∷◌}
use sandbar.Memory.Threads.{Db, Draft, append_message_with_tool_calls}
use sandbar.Agent.Messages.{Message, user}
use sandbar.Memory.Threads.Tables.{Consistent}
use sandbar.Memory.Threads.Writes.{create_thread, delete_messages_after}
use sandbar.Memory.Threads.Append.{Delivered, append_message-Delivered}
use sandbar.Memory.Threads.Undo.{Undone, delete_messages_after-undoes}
use sandbar.Memory.Threads.History.{
  History, nothing, followed, creates, appends, empty_db, History-Consistent,
}

abbrev go : Message
go = record { role = user; content = codes "go"; tool_calls = []; tool_call_id = [] }

abbrev call : Draft
call = record {
  thread_id = codes "t";
  role = codes "assistant";
  content = none;
  tool_call_id = none;
  tool_calls = record { id = codes "c1"; tool_name = codes "shell"; arguments = codes "{}" } ∷ [];
  now = 5;
}

abbrev answer : Draft
answer = record {
  thread_id = codes "t";
  role = codes "tool";
  content = some (codes "done");
  tool_call_id = some (codes "c1");
  tool_calls = [];
  now = 6;
}

abbrev unlocked : ℕ → Bool
unlocked attempt = false

abbrev one_thread : Db
one_thread = (create_thread 4 (codes "t") none none [] empty_db).0

abbrev called : Db
called = (append_message_with_tool_calls unlocked call one_thread).0

abbrev answered : Db
answered = (append_message_with_tool_calls unlocked answer called).0

one_thread-History : History one_thread
one_thread-History =
    followed empty_db one_thread nothing (creates 4 (codes "t") none none [] empty_db)

called-History : History called
called-History = followed one_thread called one_thread-History (appends unlocked call one_thread)

answered-History : History answered
answered-History = followed called answered called-History (appends unlocked answer called)

called-Consistent : Consistent called
called-Consistent = History-Consistent called called-History

answered-Consistent : Consistent answered
answered-Consistent = History-Consistent answered answered-History

append_message-Delivered_example :
    Delivered unlocked answer called (append_message_with_tool_calls unlocked answer called)
append_message-Delivered_example = append_message-Delivered unlocked answer called called-Consistent

delete_messages_after-undoes_example :
    Undone (codes "t") 2 answered (delete_messages_after (codes "t") 2 answered)
delete_messages_after-undoes_example =
    delete_messages_after-undoes (codes "t") 2 answered answered-Consistent
