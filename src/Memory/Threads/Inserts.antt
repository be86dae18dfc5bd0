-- ===== src/Memory/Threads/Inserts.antt =====
-- Inserted rows keep the tables consistent.
use sandbar.Base.{
  ℕ, ◌+◌, ◌≤◌, ◌<◌, Str, str_eq, ◌==◌, if◌then◌else◌, true, false, List, [], ◌∷◌, ◌++◌, map, not,
  ◌&&◌, All-append, ◌≡◌, refl, sym, ap, append-nil, append_assoc, ◌∙◌, arith, if-holds, ◌⊎◌, guard,
  Returns, Returns-bind, guard-Returns, Returns-weaken,
}
use sandbar.Memory.Threads.{
  ThreadRow, MessageRow, ToolCallRow, AssistantToolCall, Db, DbError, exists, in_thread,
  update_thread, insert_message, insert_tool_call, insert_tool_calls, seq_conflict, foreign_key,
  duplicate_call, is_retryable,
}
use sandbar.Memory.Threads.Tables.{
  Before, has_thread, has_message, Consistent, All-map, All-map2, exists-append, exists-map,
  Rising-append, DistinctCalls-append, Room,
}

-- An error that another attempt would meet again.
abbrev pub Settled : DbError → Type 0
Settled e = is_retryable e ≡ false

foreign_key-Settled : Settled foreign_key
unfolding is_retryable
foreign_key-Settled = refl

duplicate_call-Settled : (id : Str) → Settled (duplicate_call id)
unfolding is_retryable
duplicate_call-Settled id = refl

-- A number above all of a thread is not taken.
seq-free :
    (row : MessageRow) (ms : List MessageRow)
    → Room row.thread_id row.seq ms
    → exists (λ m. in_thread row.thread_id m && (m.seq == row.seq)) ms ≡ false
unfolding exists
seq-free row [] room = refl
seq-free row (m ∷ ms) room = ground (arith, seq-free row ms, room.0, room.1)

-- The tables after a message got in.
abbrev pub Inserted : Db → MessageRow → Db × ℕ → Type 0
Inserted db row (after, id) =
    Consistent after
    × (after.messages ≡ db.messages ++ record row { id = id } ∷ [])
    × (after.threads ≡ db.threads)
    × (after.tool_calls ≡ db.tool_calls)
    × (after.plans ≡ db.plans)
    × (id ≡ db.last_message_id + 1)

has_message-append :
    (id : ℕ) (ms ns : List MessageRow) → has_message id ms ≡ true → has_message id (ms ++ ns) ≡ true
has_message-append id ms ns h = rw (exists-append (λ m. m.id == id) ms ns, h) refl

inserted-Consistent :
    (row : MessageRow) (db : Db)
    → Consistent db
    → Room row.thread_id row.seq db.messages
    → has_thread row.thread_id db.threads ≡ true
    → Consistent (record db {
      messages = db.messages ++ record row { id = db.last_message_id + 1 } ∷ [];
      last_message_id = db.last_message_id + 1;
    })
inserted-Consistent row db c room known = record {
  rising = Rising-append db.messages _ c.rising (
      All-map2 (λ m. m.id ≤ db.last_message_id)
        (λ m. (str_eq m.thread_id row.thread_id ≡ false) ⊎ (m.seq < row.seq))
        (λ m. Before m (record row { id = db.last_message_id + 1 })) db.messages
        (λ m below free. (omega (arith, below), free)) c.counted room);
  counted =
      All-append (λ m. m.id ≤ db.last_message_id + 1) db.messages _
        (All-map (λ m. m.id ≤ db.last_message_id) (λ m. m.id ≤ db.last_message_id + 1) db.messages
          (λ m below. omega (arith, below)) c.counted)
        (omega arith, tt);
  distinct = c.distinct;
  calls_owned =
      All-map (λ call. has_message call.message_id db.messages ≡ true) _ db.tool_calls
        (λ call h. has_message-append call.message_id db.messages _ h) c.calls_owned;
  messages_owned =
      All-append (λ m. has_thread m.thread_id db.threads ≡ true) db.messages _ c.messages_owned
        (known, tt);
  compressions_owned = c.compressions_owned;
  plans_owned = c.plans_owned;
}

pub insert_message-Inserted :
    (row : MessageRow) (db : Db)
    → Consistent db
    → Room row.thread_id row.seq db.messages
    → Returns (Inserted db row) Settled (insert_message row db)
unfolding insert_message
insert_message-Inserted row db c room =
    Returns-bind (λ (u : Unit {0}). has_thread row.thread_id db.threads ≡ true) (Inserted db row)
      Settled (guard (has_thread row.thread_id db.threads) foreign_key) _
      (guard-Returns Settled _ foreign_key (λ e. foreign_key-Settled))
      (λ u known.
        Returns-bind (λ (v : Unit {0}). not _ ≡ true) (Inserted db row) Settled
          (guard (not (exists (λ m. in_thread row.thread_id m && (m.seq == row.seq)) db.messages))
            seq_conflict)
          _
          (guard-Returns Settled _ seq_conflict
            (λ e. ground (arith, e, seq-free row db.messages room)))
          (λ v free. (inserted-Consistent row db c room known, refl, refl, refl, refl, refl)))

-- The tables after rows of tool calls got in.
abbrev pub Called : List ToolCallRow → Db → Db → Type 0
Called rows db after =
    Consistent after
    × (after.messages ≡ db.messages)
    × (after.threads ≡ db.threads)
    × (after.plans ≡ db.plans)
    × (after.tool_calls ≡ db.tool_calls ++ rows)

-- The rows of a message's tool calls, numbered from `i`.
abbrev pub call_rows : ℕ → ℕ → List AssistantToolCall → List ToolCallRow
call_rows i message_id [] = []
call_rows i message_id (c ∷ cs) =
    record {
      id = c.id;
      message_id = message_id;
      tool_name = c.tool_name;
      arguments = c.arguments;
      seq = i;
    }
    ∷ call_rows (i + 1) message_id cs

pub insert_tool_call-Called :
    (row : ToolCallRow) (db : Db)
    → Consistent db
    → Returns (Called (row ∷ []) db) Settled (insert_tool_call row db)
unfolding insert_tool_call
insert_tool_call-Called row db c =
    Returns-bind (λ (u : Unit {0}). not (exists (λ d. str_eq d.id row.id) db.tool_calls) ≡ true)
      (Called (row ∷ []) db) Settled
      (guard (not (exists (λ d. str_eq d.id row.id) db.tool_calls)) (duplicate_call row.id)) _
      (guard-Returns Settled _ (duplicate_call row.id) (λ e. duplicate_call-Settled row.id))
      (λ u free.
        Returns-bind (λ (v : Unit {0}). has_message row.message_id db.messages ≡ true)
          (Called (row ∷ []) db) Settled
          (guard (has_message row.message_id db.messages) foreign_key) _
          (guard-Returns Settled _ foreign_key (λ e. foreign_key-Settled))
          (λ v known. (
            record {
              rising = c.rising;
              counted = c.counted;
              distinct = DistinctCalls-append db.tool_calls row c.distinct (ground (arith, free));
              calls_owned =
                  All-append (λ call. has_message call.message_id db.messages ≡ true) db.tool_calls
                    _ c.calls_owned (known, tt);
              messages_owned = c.messages_owned;
              compressions_owned = c.compressions_owned;
              plans_owned = c.plans_owned;
            },
            refl,
            refl,
            refl,
            refl,
          )))

pub Called-trans :
    (xs ys : List ToolCallRow) (a b d : Db) → Called xs a b → Called ys b d → Called (xs ++ ys) a d
Called-trans xs ys a b d (x, m, t, p, r) (y, n, u, q, s) =
    (y, n ∙ m, u ∙ t, q ∙ p, s ∙ ap (λ l. l ++ ys) r ∙ append_assoc a.tool_calls xs ys)

pub insert_tool_calls-Called :
    (i message_id : ℕ) (cs : List AssistantToolCall) (db : Db)
    → Consistent db
    → Returns (Called (call_rows i message_id cs) db) Settled (insert_tool_calls i message_id cs db)
unfolding insert_tool_calls
insert_tool_calls-Called i message_id [] db c =
    (c, refl, refl, refl, sym (append-nil db.tool_calls))
insert_tool_calls-Called i message_id (call ∷ cs) db c =
    let row : ToolCallRow = record {
      id = call.id;
      message_id = message_id;
      tool_name = call.tool_name;
      arguments = call.arguments;
      seq = i;
    } in
    let rest : List ToolCallRow = call_rows (i + 1) message_id cs in
    Returns-bind (Called (row ∷ []) db) (Called (row ∷ rest) db) Settled (insert_tool_call row db) _
      (insert_tool_call-Called row db c)
      (λ after called.
        Returns-weaken (Called rest after) (Called (row ∷ rest) db) Settled
          (λ out h. Called-trans (row ∷ []) rest db after out called h)
          (insert_tool_calls (i + 1) message_id cs after)
          (insert_tool_calls-Called (i + 1) message_id cs after called.0))

pub update_thread-Consistent :
    (id : Str) (change : ThreadRow → ThreadRow) (db : Db)
    → ((t : ThreadRow) → (change t).id ≡ t.id)
    → Consistent db
    → Consistent (update_thread id change db)
unfolding update_thread
update_thread-Consistent id change db same c = record {
  rising = c.rising;
  counted = c.counted;
  distinct = c.distinct;
  calls_owned = c.calls_owned;
  messages_owned =
      All-map (λ m. has_thread m.thread_id db.threads ≡ true) _ db.messages
        (λ m h. still m.thread_id h) c.messages_owned;
  compressions_owned =
      All-map (λ r. has_thread r.thread_id db.threads ≡ true) _ db.compressions
        (λ r h. still r.thread_id h) c.compressions_owned;
  plans_owned =
      All-map (λ p. has_thread p.0 db.threads ≡ true) _ db.plans (λ p h. still p.0 h) c.plans_owned;
}
  where
    kept :
        (key : Str) (t : ThreadRow)
        → str_eq (if str_eq t.id id then change t else t).id key ≡ str_eq t.id key
    kept key t =
        if-holds (λ (u : ThreadRow). str_eq u.id key ≡ str_eq t.id key) (str_eq t.id id) _ _
          (λ e. rw (same t) refl) (λ e. refl)

    still :
        (key : Str)
        → has_thread key db.threads ≡ true
        → has_thread key (map (λ t. if str_eq t.id id then change t else t) db.threads) ≡ true
    still key h = exists-map (λ t. str_eq t.id key) _ db.threads (λ t. kept key t) ∙ h
