-- ===== src/Memory/Threads/Writes.antt =====
-- internal/memory/thread.go and compression.go: the other operations on conversations: creation,
-- titles, plan mode, forks, deletion, undo and the records of compressions.
use sandbar.Base.{
  ℕ, ◌+◌, Str, str_eq, ltb, leb, ◌==◌, if◌then◌else◌, Bool, Option, none, some, List, [], ◌∷◌, ◌++◌,
  map, not, ◌&&◌, ◌||◌, Map, lookup, insert, Outcome, ok, err, ◌>>=◌, guard,
}
use sandbar.Memory.Threads.{
  ThreadRow, MessageRow, ToolCallRow, CompressionRecord, Db, DbError, thread_taken,
  thread_not_found, foreign_key, missing_call, transact, select, exists, order_by_seq, in_thread,
  messages_of, insert_message, insert_tool_call, update_thread,
}

-- `CreateThreadWithWorkspace`
unfoldable pub create_thread :
    ℕ → Str → Option Str → Option Str → Str → Db → Db × Outcome DbError ThreadRow
create_thread now id title model workspace db =
    let row : ThreadRow = record {
      id = id;
      title = title;
      created_at = now;
      updated_at = now;
      model = model;
      workspace = workspace;
      plan_mode = [];
    } in
    if exists (λ t. str_eq t.id id) db.threads
    then (db, err thread_taken)
    else (record db { threads = db.threads ++ row ∷ [] }, ok row)

-- The first row of a list.
unfoldable pub first_row : {A : Type 0} → List A → Option A
first_row [] = none
first_row (x ∷ xs) = some x

-- `GetThread`
unfoldable pub get_thread : Str → Db → Outcome DbError ThreadRow
get_thread id db = elim (first_row (select (λ t. str_eq t.id id) db.threads)) [
  | none ↦ err (thread_not_found id)
  | some t ↦ ok t
]

-- `GetThreadWithMessagesFromSeq`
unfoldable pub get_thread_with_messages_from_seq :
    Str → ℕ → Db → Outcome DbError (ThreadRow × List MessageRow)
get_thread_with_messages_from_seq id first_seq db = get_thread id db >>= λ t.
    (let out : ThreadRow × List MessageRow =
        (t, order_by_seq (select (λ m. in_thread id m && leb first_seq m.seq) db.messages)) in
      ok out)

-- `UpdateThreadTitle`, which keeps a title that is set.
unfoldable pub update_thread_title : ℕ → Str → Str → Db → Db
update_thread_title now id title db =
    update_thread id
      (λ t. elim t.title [
        | none ↦ record t { title = some title; updated_at = now }
        | some old ↦ t
      ])
      db

-- `SetThreadTitle`
unfoldable pub set_thread_title : ℕ → Str → Str → Db → Db
set_thread_title now id title db =
    update_thread id (λ t. record t { title = some title; updated_at = now }) db

-- `SetThreadPlanMode`
unfoldable pub set_thread_plan_mode : Str → Str → Db → Db × Outcome DbError (Unit {0})
set_thread_plan_mode id mode db =
    let after = update_thread id (λ t. record t { plan_mode = mode }) db in
    if exists (λ t. str_eq t.id id) db.threads
    then (after, ok tt)
    else (after, err (thread_not_found id))

-- The tool calls of one message, in the order of their numbers.
unfoldable pub place_call : ToolCallRow → List ToolCallRow → List ToolCallRow
place_call c [] = c ∷ []
place_call c (d ∷ ds) =
    let rest = place_call c ds in if leb c.seq d.seq then c ∷ d ∷ ds else d ∷ rest

unfoldable pub order_calls : List ToolCallRow → List ToolCallRow
order_calls [] = []
order_calls (c ∷ cs) = place_call c (order_calls cs)

-- `GetToolCallsForMessage`
unfoldable pub get_tool_calls_for_message : ℕ → Db → List ToolCallRow
get_tool_calls_for_message message_id db =
    order_calls (select (λ c. c.message_id == message_id) db.tool_calls)

-- `AppendToolCall`
unfoldable pub append_tool_call : ToolCallRow → Db → Db × Outcome DbError (Unit {0})
append_tool_call row db =
    transact db
      (insert_tool_call row db >>= λ after. (let out : Db × Unit {0} = (after, tt) in ok out))

-- `toolCallIDs`: the ids of the calls of a thread's messages, each with the id `fresh` gives it.
unfoldable pub remapped_ids : (Str → Str) → List MessageRow → Db → Map Str
remapped_ids fresh [] db = []
remapped_ids fresh (m ∷ ms) db =
    map (λ c. (c.id, fresh c.id)) (get_tool_calls_for_message m.id db) ++ remapped_ids fresh ms db

-- The id that a copied tool result refers to.
unfoldable pub remapped_reference : Map Str → MessageRow → Outcome DbError (Option Str)
remapped_reference ids m = elim m.tool_call_id [
  | none ↦ ok none
  | some id ↦ elim (lookup id ids) [ none ↦ err (missing_call m.seq id) | some new ↦ ok (some new) ]
]

-- The loop over the tool calls of a copied message.
unfoldable pub copy_calls : Map Str → ℕ → List ToolCallRow → Db → Outcome DbError Db
copy_calls ids message_id [] db = ok db
copy_calls ids message_id (c ∷ cs) db =
    insert_tool_call
      (record {
        id = elim (lookup c.id ids) [ none ↦ [] | some new ↦ new ];
        message_id = message_id;
        tool_name = c.tool_name;
        arguments = c.arguments;
        seq = c.seq;
      })
      db
    >>= λ after. copy_calls ids message_id cs after

-- The loop of `ForkThread` over the source's messages; `source` are the tables before the fork.
unfoldable pub copy_messages : Map Str → Str → Db → List MessageRow → Db → Outcome DbError Db
copy_messages ids new_id source [] db = ok db
copy_messages ids new_id source (m ∷ ms) db = remapped_reference ids m >>= λ reference.
    insert_message (record m { thread_id = new_id; tool_call_id = reference }) db >>= λ inserted.
    copy_calls ids inserted.1 (get_tool_calls_for_message m.id source) inserted.0 >>= λ after.
    copy_messages ids new_id source ms after

-- The copy of the plan.
unfoldable pub copy_plan : Str → Str → Db → Db
copy_plan src new_id db = elim (lookup src db.plans) [
  | none ↦ db
  | some p ↦ record db { plans = insert new_id p db.plans }
]

-- The body of the transaction of `ForkThread`; `fresh` gives every tool call its new id.
unfoldable pub fork_rows : ℕ → Str → (Str → Str) → Str → Db → Outcome DbError (Db × Str)
fork_rows now new_id fresh src db = get_thread src db >>= λ t.
    guard (not (exists (λ u. str_eq u.id new_id) db.threads)) thread_taken >>= λ free.
    copy_messages (remapped_ids fresh (messages_of src db) db) new_id db (messages_of src db)
      (record db {
        threads =
            db.threads
            ++ record t { id = new_id; created_at = now; updated_at = now; plan_mode = [] } ∷ [];
      })
    >>= λ after. (let out : Db × Str = (copy_plan src new_id after, new_id) in ok out)

-- `ForkThread`
unfoldable pub fork_thread : ℕ → Str → (Str → Str) → Str → Db → Db × Outcome DbError Str
fork_thread now new_id fresh src db = transact db (fork_rows now new_id fresh src db)

-- Deleting messages deletes their tool calls.
unfoldable pub delete_messages : (MessageRow → Bool) → Db → Db
delete_messages gone db =
    let left = select (λ m. not (gone m)) db.messages in
    record db {
      messages = left;
      tool_calls = select (λ c. exists (λ m. m.id == c.message_id) left) db.tool_calls;
    }

-- `DeleteThread`, with what it cascades to.
unfoldable pub delete_thread : Str → Db → Db
delete_thread id db =
    let rest = delete_messages (in_thread id) db in
    record rest {
      threads = select (λ t. not (str_eq t.id id)) rest.threads;
      compressions = select (λ r. not (str_eq r.thread_id id)) rest.compressions;
      plans = select (λ p. not (str_eq p.0 id)) rest.plans;
    }

-- `InvalidateCompressionsAfterSeq`
unfoldable pub invalidate_compressions_after_seq : Str → ℕ → Db → Db
invalidate_compressions_after_seq thread_id seq db = record db {
  compressions =
      select (λ r. not (str_eq r.thread_id thread_id && leb seq r.first_kept_seq)) db.compressions;
}

-- `DeleteMessagesAfter`
unfoldable pub delete_messages_after : Str → ℕ → Db → Db
delete_messages_after thread_id seq db =
    invalidate_compressions_after_seq thread_id seq
      (delete_messages (λ m. in_thread thread_id m && leb seq m.seq) db)

-- `SaveCompression`
unfoldable pub save_compression : ℕ → CompressionRecord → Db → Db × Outcome DbError (Unit {0})
save_compression now rec db =
    let id = db.last_compression_id + 1 in
    if exists (λ t. str_eq t.id rec.thread_id) db.threads
    then (
      record db {
        compressions = db.compressions ++ record rec { id = id; created_at = now } ∷ [];
        last_compression_id = id;
      },
      ok tt,
    )
    else (db, err foreign_key)

-- Whether `ORDER BY created_at DESC, id DESC` puts the first record before the second.
unfoldable pub is_later : CompressionRecord → CompressionRecord → Bool
is_later a b = ltb b.created_at a.created_at || ((a.created_at == b.created_at) && leb b.id a.id)

-- The first of the records in that order.
unfoldable pub latest_of : List CompressionRecord → Option CompressionRecord
latest_of [] = none
latest_of (r ∷ rs) = elim (latest_of rs) [
  | none ↦ some r
  | some best ↦ if is_later r best then some r else some best
]

-- `GetLatestCompression`
unfoldable pub get_latest_compression : Str → Db → Option CompressionRecord
get_latest_compression thread_id db =
    latest_of (select (λ r. str_eq r.thread_id thread_id) db.compressions)
