-- ===== src/Memory/Threads.antt =====
-- internal/memory/thread.go and compression.go: conversations, on the tables of migrations/0001 to
-- 0007, in the order of their rows. A write is one transaction: on an error the tables are as before.
-- Failures of the database itself are left out, except that it may be locked; times are seconds, and
-- ids from `uuid.New` are arguments.
pub mod Tables
pub mod Inserts
pub mod Append
pub mod Writes
pub mod Copies
pub mod Fork
pub mod Calls
pub mod Undo
pub mod History
use sandbar.Base.{
  ℕ, zero, suc, ◌+◌, ◌-◌, max, Str, codes, str_eq, ltb, leb, ◌==◌, if◌then◌else◌, Bool, true, false,
  Option, none, some, List, [], ◌∷◌, ◌++◌, map, not, ◌&&◌, ◌||◌, Map, lookup, insert, Outcome, ok,
  err, ◌>>=◌, guard,
}
use sandbar.Memory.Plan.{PlanRow}

pub record ThreadRow : Type 0 where
  pub id : Str
  pub title : Option Str
  pub created_at : ℕ
  pub updated_at : ℕ
  pub model : Option Str
  pub workspace : Str
  pub plan_mode : Str

pub record MessageRow : Type 0 where
  pub id : ℕ
  pub thread_id : Str
  pub role : Str
  pub content : Option Str
  pub tool_call_id : Option Str
  pub created_at : ℕ
  pub seq : ℕ

pub record ToolCallRow : Type 0 where
  pub id : Str
  pub message_id : ℕ
  pub tool_name : Str
  pub arguments : Str
  pub seq : ℕ

pub record CompressionRecord : Type 0 where
  pub id : ℕ
  pub thread_id : Str
  pub summary : Str
  pub first_kept_seq : ℕ
  pub compressed_message_count : ℕ
  pub pruned_tool_outputs : ℕ
  pub before_tokens : ℕ
  pub after_tokens : ℕ
  pub budget_tokens : ℕ
  pub summary_model_alias : Str
  pub summary_model_id : Str
  pub summary_prompt_tokens : ℕ
  pub summary_completion_tokens : ℕ
  pub summary_total_tokens : ℕ
  pub fallback_used : Bool
  pub fallback_reason : Str
  pub created_at : ℕ

-- The tables, and the last ids that AUTOINCREMENT gave.
pub record Db : Type 0 where
  pub threads : List ThreadRow
  pub messages : List MessageRow
  pub tool_calls : List ToolCallRow
  pub compressions : List CompressionRecord
  pub plans : Map PlanRow
  pub last_message_id : ℕ
  pub last_compression_id : ℕ

pub data DbError : Type 0 where
  database_locked : DbError
  seq_conflict : DbError
  foreign_key : DbError
  thread_taken : DbError
  thread_not_found : Str → DbError
  duplicate_call : Str → DbError
  missing_call : ℕ → Str → DbError

-- COMMIT, or ROLLBACK on an error.
unfoldable pub transact : {A : Type 0} → Db → Outcome DbError (Db × A) → Db × Outcome DbError A
transact db (ok (after, a)) = (after, ok a)
transact db (err e) = (db, err e)

-- The rows that a test selects.
unfoldable pub select : {A : Type 0} → (A → Bool) → List A → List A
select keeps [] = []
select keeps (x ∷ xs) = let rest = select keeps xs in if keeps x then x ∷ rest else rest

unfoldable pub exists : {A : Type 0} → (A → Bool) → List A → Bool
exists holds [] = false
exists holds (x ∷ xs) = holds x || exists holds xs

-- `ORDER BY seq ASC`
unfoldable pub place : MessageRow → List MessageRow → List MessageRow
place m [] = m ∷ []
place m (n ∷ ns) = let rest = place m ns in if leb m.seq n.seq then m ∷ n ∷ ns else n ∷ rest

unfoldable pub order_by_seq : List MessageRow → List MessageRow
order_by_seq [] = []
order_by_seq (m ∷ ms) = place m (order_by_seq ms)

abbrev pub in_thread : Str → MessageRow → Bool
in_thread thread_id m = str_eq m.thread_id thread_id

-- The messages of `GetThreadWithMessages`.
unfoldable pub messages_of : Str → Db → List MessageRow
messages_of thread_id db = order_by_seq (select (in_thread thread_id) db.messages)

-- `SELECT COALESCE(MAX(seq), 0)`
unfoldable pub max_seq : List MessageRow → ℕ
max_seq [] = 0
max_seq (m ∷ ms) = max m.seq (max_seq ms)

-- `INSERT INTO messages` under its constraints; the row gets the next id.
unfoldable pub insert_message : MessageRow → Db → Outcome DbError (Db × ℕ)
insert_message row db =
    guard (exists (λ t. str_eq t.id row.thread_id) db.threads) foreign_key >>= λ known.
    guard (not (exists (λ m. in_thread row.thread_id m && (m.seq == row.seq)) db.messages))
      seq_conflict
    >>= λ free.
        (let id = db.last_message_id + 1 in
          let out : Db × ℕ = (
            record db {
              messages = db.messages ++ record row { id = id } ∷ [];
              last_message_id = id;
            },
            id,
          ) in
          ok out)

-- `INSERT INTO tool_calls` under its constraints.
unfoldable pub insert_tool_call : ToolCallRow → Db → Outcome DbError Db
insert_tool_call row db =
    guard (not (exists (λ c. str_eq c.id row.id) db.tool_calls)) (duplicate_call row.id) >>= λ free.
    guard (exists (λ m. m.id == row.message_id) db.messages) foreign_key >>= λ known.
    ok (record db { tool_calls = db.tool_calls ++ row ∷ [] })

pub record AssistantToolCall : Type 0 where
  pub id : Str
  pub tool_name : Str
  pub arguments : Str

-- The loop over the tool calls of a message, numbered from `i`.
unfoldable pub insert_tool_calls : ℕ → ℕ → List AssistantToolCall → Db → Outcome DbError Db
insert_tool_calls i message_id [] db = ok db
insert_tool_calls i message_id (c ∷ cs) db =
    insert_tool_call
      (record {
        id = c.id;
        message_id = message_id;
        tool_name = c.tool_name;
        arguments = c.arguments;
        seq = i;
      })
      db
    >>= λ after. insert_tool_calls (i + 1) message_id cs after

-- An `UPDATE threads` of the row with an id.
unfoldable pub update_thread : Str → (ThreadRow → ThreadRow) → Db → Db
update_thread id change db = record db {
  threads = map (λ t. if str_eq t.id id then change t else t) db.threads;
}

-- What is to be appended: the arguments of `appendMessageWithToolCalls`.
pub record Draft : Type 0 where
  pub thread_id : Str
  pub role : Str
  pub content : Option Str
  pub tool_call_id : Option Str
  pub tool_calls : List AssistantToolCall
  pub now : ℕ

-- The row of a draft, before it has an id.
unfoldable pub draft_row : Draft → ℕ → MessageRow
draft_row d seq = record {
  id = 0;
  thread_id = d.thread_id;
  role = d.role;
  content = d.content;
  tool_call_id = d.tool_call_id;
  created_at = d.now;
  seq = seq;
}

-- The body of the transaction of `appendMessageWithToolCallsOnce`.
unfoldable pub append_rows : Draft → Db → Outcome DbError (Db × MessageRow)
append_rows d db =
    let row = draft_row d (max_seq (select (in_thread d.thread_id) db.messages) + 1) in
    insert_message row db >>= λ inserted.
    insert_tool_calls 0 inserted.1 d.tool_calls inserted.0 >>= λ after.
    (let out : Db × MessageRow = (
      update_thread d.thread_id (λ t. record t { updated_at = d.now }) after,
      record row { id = inserted.1 },
    ) in
      ok out)

-- `appendMessageWithToolCallsOnce`
unfoldable pub append_once : Bool → Draft → Db → Db × Outcome DbError MessageRow
append_once locked d db =
    if locked then (db, err database_locked) else transact db (append_rows d db)

-- Whether an error of `appendMessageWithToolCallsOnce` is worth another attempt.
unfoldable pub is_retryable : DbError → Bool
is_retryable database_locked = true
is_retryable seq_conflict = true
is_retryable foreign_key = false
is_retryable thread_taken = false
is_retryable (thread_not_found id) = false
is_retryable (duplicate_call id) = false
is_retryable (missing_call seq id) = false

abbrev pub max_retries : ℕ
max_retries = 5

-- The loop of `appendMessageWithToolCalls` with `left` attempts after this one; `locked` tells whether
-- the database is locked at an attempt.
unfoldable pub append_from : (ℕ → Bool) → ℕ → ℕ → Draft → Db → Db × Outcome DbError MessageRow
append_from locked attempt zero d db = append_once (locked attempt) d db
append_from locked attempt (suc left) d db =
    let first = append_once (locked attempt) d db in
    let next = append_from locked (attempt + 1) left d first.0 in
    elim first.1 [ ok m ↦ first | err e ↦ if is_retryable e then next else first ]

-- `appendMessageWithToolCalls`, which `AppendMessage` and `AppendAssistantMessageWithToolCalls` call.
unfoldable pub append_message_with_tool_calls :
    (ℕ → Bool) → Draft → Db → Db × Outcome DbError MessageRow
append_message_with_tool_calls locked d db = append_from locked 0 (max_retries - 1) d db
