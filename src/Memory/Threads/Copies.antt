-- ===== src/Memory/Threads/Copies.antt =====
-- The rows that a fork copies.
use sandbar.Base.{
  ℕ, ◌+◌, ◌≤◌, ◌<◌, Str, str_eq, str_eq_iff, true, false, List, [], ◌∷◌, ◌++◌, All, All-append, ◌≡◌,
  refl, sym, ap, append-nil, append_assoc, ◌∙◌, arith, Bool-cases, inl, inr, ◌⊎◌, ok, Returns,
  Returns-bind, Returns-weaken, Map, lookup, none, some,
}
use sandbar.Memory.Threads.{
  ThreadRow, MessageRow, ToolCallRow, Db, select, in_thread, messages_of, insert_message,
  insert_tool_call, is_retryable,
}
use sandbar.Memory.Threads.Writes.{
  get_tool_calls_for_message, remapped_reference, copy_calls, copy_messages,
}
use sandbar.Memory.Threads.Tables.{
  Before, Rising, Rising-select, has_thread, Consistent, All-map, All-map2, select-All,
  exists-append, Room,
}
use sandbar.Memory.Threads.Inserts.{
  Settled, Inserted, insert_message-Inserted, Called, Called-trans, insert_tool_call-Called,
}
use sandbar.Memory.Threads.Append.{messages_of-select}

-- Numbers that rise, from `n` on.
abbrev Ascends : ℕ → List MessageRow → Type 0
Ascends n [] = Unit
Ascends n (m ∷ ms) = (n ≤ m.seq) × Ascends (m.seq + 1) ms

-- The copies of messages in a new thread, where a tool result refers to the copied call.
abbrev pub Copies : Map Str → Str → List MessageRow → List MessageRow → Type 0
Copies ids new_id [] [] = Unit
Copies ids new_id [] (n ∷ ns) = ⊥
Copies ids new_id (m ∷ ms) [] = ⊥
Copies ids new_id (m ∷ ms) (n ∷ ns) =
    (n.thread_id ≡ new_id)
    × (n.role ≡ m.role)
    × (n.content ≡ m.content)
    × (n.created_at ≡ m.created_at)
    × (n.seq ≡ m.seq)
    × (remapped_reference ids m ≡ ok n.tool_call_id)
    × Copies ids new_id ms ns

-- The rows of a message's tool calls, copied to the message with a number, under their new ids.
abbrev pub copied_calls : Map Str → ℕ → List ToolCallRow → List ToolCallRow
copied_calls ids message_id [] = []
copied_calls ids message_id (c ∷ cs) =
    record c { id = elim (lookup c.id ids) [ none ↦ [] | some new ↦ new ]; message_id = message_id }
    ∷ copied_calls ids message_id cs

-- The rows for all messages `ms` of the tables `source`, where `ns` are the copies of the messages.
abbrev pub all_copied_calls : Map Str → Db → List MessageRow → List MessageRow → List ToolCallRow
all_copied_calls ids source [] ns = []
all_copied_calls ids source (m ∷ ms) [] = []
all_copied_calls ids source (m ∷ ms) (n ∷ ns) =
    copied_calls ids n.id (get_tool_calls_for_message m.id source)
    ++ all_copied_calls ids source ms ns

-- The tables after copies got in.
abbrev pub Copied : Map Str → Str → Db → List MessageRow → Db → Db → Type 0
Copied ids new_id source ms db after =
    Consistent after
    × (after.plans ≡ db.plans)
    × (after.threads ≡ db.threads)
    × (ns : List MessageRow) × (after.messages ≡ db.messages ++ ns)
    × Copies ids new_id ms ns
    × (after.tool_calls ≡ db.tool_calls ++ all_copied_calls ids source ms ns)

remapped_reference-Settled :
    (ids : Map Str) (m : MessageRow)
    → Returns (λ r. remapped_reference ids m ≡ ok r) Settled (remapped_reference ids m)
unfolding remapped_reference is_retryable
remapped_reference-Settled ids m = ground arith

copy_calls-Called :
    (ids : Map Str) (message_id : ℕ) (cs : List ToolCallRow) (db : Db)
    → Consistent db
    → Returns (Called (copied_calls ids message_id cs) db) Settled (copy_calls ids message_id cs db)
unfolding copy_calls
copy_calls-Called ids message_id [] db c = (c, refl, refl, refl, sym (append-nil db.tool_calls))
copy_calls-Called ids message_id (call ∷ cs) db c =
    let row : ToolCallRow = record call {
      id = elim (lookup call.id ids) [ none ↦ [] | some new ↦ new ];
      message_id = message_id;
    } in
    let rest : List ToolCallRow = copied_calls ids message_id cs in
    Returns-bind (Called (row ∷ []) db) (Called (row ∷ rest) db) Settled (insert_tool_call row db) _
      (insert_tool_call-Called row db c)
      (λ after called.
        Returns-weaken (Called rest after) (Called (row ∷ rest) db) Settled
          (λ out h. Called-trans (row ∷ []) rest db after out called h)
          (copy_calls ids message_id cs after) (copy_calls-Called ids message_id cs after called.0))

Room-weaken :
    (thread_id : Str) (n k : ℕ) (ms : List MessageRow)
    → n ≤ k
    → Room thread_id n ms
    → Room thread_id k ms
Room-weaken thread_id n k [] le r = tt
Room-weaken thread_id n k (m ∷ ms) le r = (ground (arith, r.0), Room-weaken thread_id n k ms le r.1)

Room-append :
    (thread_id : Str) (n : ℕ) (ms : List MessageRow) (m : MessageRow)
    → Room thread_id n ms
    → m.seq < n
    → Room thread_id n (ms ++ m ∷ [])
Room-append thread_id n ms m r low =
    All-append (λ k. (str_eq k.thread_id thread_id ≡ false) ⊎ (k.seq < n)) ms (m ∷ []) r
      (inr low, tt)

pub copy_messages-Copied :
    (ids : Map Str) (new_id : Str) (source : Db) (n : ℕ) (ms : List MessageRow) (db : Db)
    → Consistent db
    → Room new_id n db.messages
    → Ascends n ms
    → Returns (Copied ids new_id source ms db) Settled (copy_messages ids new_id source ms db)
unfolding copy_messages
copy_messages-Copied ids new_id source n [] db c room up =
    (c, refl, refl, [], sym (append-nil db.messages), tt, sym (append-nil db.tool_calls))
copy_messages-Copied ids new_id source n (m ∷ ms) db c room up =
    Returns-bind (λ r. remapped_reference ids m ≡ ok r) (Copied ids new_id source (m ∷ ms) db)
      Settled (remapped_reference ids m) _ (remapped_reference-Settled ids m)
      (λ reference found.
        let row : MessageRow = record m { thread_id = new_id; tool_call_id = reference } in
        Returns-bind (Inserted db row) (Copied ids new_id source (m ∷ ms) db) Settled
          (insert_message row db) _
          (insert_message-Inserted row db c (Room-weaken new_id n m.seq db.messages up.0 room))
          (λ inserted h.
            Returns-bind
              (Called (copied_calls ids inserted.1 (get_tool_calls_for_message m.id source))
                inserted.0)
              (Copied ids new_id source (m ∷ ms) db) Settled
              (copy_calls ids inserted.1 (get_tool_calls_for_message m.id source) inserted.0) _
              (copy_calls-Called ids inserted.1 (get_tool_calls_for_message m.id source) inserted.0
                h.0)
              (λ after k.
                Returns-weaken (Copied ids new_id source ms after)
                  (Copied ids new_id source (m ∷ ms) db) Settled
                  (λ out (still, plans, threads, ns, rows, copies, calls). (
                    still,
                    plans ∙ k.3 ∙ h.4,
                    threads ∙ k.2 ∙ h.2,
                    record row { id = inserted.1 } ∷ ns,
                    rows ∙ ap (λ l. l ++ ns) (k.1 ∙ h.1) ∙ append_assoc db.messages _ ns,
                    (refl, refl, refl, refl, refl, found, copies),
                    calls
                        ∙ ap (λ l. l ++ all_copied_calls ids source ms ns)
                            (k.4
                              ∙ ap
                                  (λ l.
                                    l
                                    ++ copied_calls ids inserted.1
                                        (get_tool_calls_for_message m.id source))
                                  h.3)
                        ∙ append_assoc db.tool_calls _ (all_copied_calls ids source ms ns),
                  ))
                  (copy_messages ids new_id source ms after)
                  (copy_messages-Copied ids new_id source (m.seq + 1) ms after k.0
                    (rw (k.1, h.1)
                      (Room-append new_id (m.seq + 1) db.messages _
                        (Room-weaken new_id n (m.seq + 1) db.messages (omega (arith, up.0)) room)
                        (omega arith)))
                    up.1))))

-- The rows of one thread have rising numbers.
Rising-Ascends :
    (thread_id : Str) (n : ℕ) (ms : List MessageRow)
    → Rising ms
    → All (λ m. in_thread thread_id m ≡ true) ms
    → All (λ m. n ≤ m.seq) ms
    → Ascends n ms
Rising-Ascends thread_id n [] r same low = tt
Rising-Ascends thread_id n (m ∷ ms) r same low = (
  low.0,
  Rising-Ascends thread_id (m.seq + 1) ms r.1 same.1 (
      All-map2 (Before m) (λ k. in_thread thread_id k ≡ true) (λ k. m.seq + 1 ≤ k.seq) ms
        (λ k after here. ground (
          arith,
          after.1,
          here,
          same.0,
          str_eq_iff m.thread_id thread_id,
          str_eq_iff k.thread_id thread_id,
          str_eq_iff m.thread_id k.thread_id,
        ))
        r.0 same.1),
)

All-low : (ms : List MessageRow) → All (λ m. 0 ≤ m.seq) ms
All-low [] = tt
All-low (m ∷ ms) = (omega arith, All-low ms)

pub messages_of-Ascends : (src : Str) (db : Db) → Consistent db → Ascends 0 (messages_of src db)
messages_of-Ascends src db c = rw (messages_of-select src db c) (
    Rising-Ascends src 0 (select (in_thread src) db.messages)
      (Rising-select (in_thread src) db.messages c.rising) (select-All (in_thread src) db.messages)
      (All-low (select (in_thread src) db.messages)))

-- No message is in a thread that does not exist.
pub no_messages :
    (new_id : Str) (db : Db)
    → Consistent db
    → has_thread new_id db.threads ≡ false
    → All (λ m. str_eq m.thread_id new_id ≡ false) db.messages
no_messages new_id db c missing =
    All-map (λ m. has_thread m.thread_id db.threads ≡ true) (λ m. str_eq m.thread_id new_id ≡ false)
      db.messages (λ m owned. elsewhere m owned) c.messages_owned
  where
    elsewhere :
        (m : MessageRow)
        → has_thread m.thread_id db.threads ≡ true
        → str_eq m.thread_id new_id ≡ false
    elsewhere m owned = elim (Bool-cases (str_eq m.thread_id new_id)) [
      | inr e ↦ e
      | inl e ↦
          let same : m.thread_id ≡ new_id = (str_eq_iff m.thread_id new_id).0 e in
          let found : has_thread new_id db.threads ≡ true = rw same at owned in
          ground (arith, found, missing)
    ]

-- The tables with the new thread.
pub added-Consistent :
    (t : ThreadRow) (db : Db)
    → Consistent db
    → Consistent (record db { threads = db.threads ++ t ∷ [] })
added-Consistent t db c = record {
  rising = c.rising;
  counted = c.counted;
  distinct = c.distinct;
  calls_owned = c.calls_owned;
  messages_owned =
      All-map (λ m. has_thread m.thread_id db.threads ≡ true) _ db.messages
        (λ m h. still m.thread_id h) c.messages_owned;
  compressions_owned =
      All-map (λ r. has_thread r.thread_id db.threads ≡ true) _ db.compressions
        (λ r h. still r.thread_id h) c.compressions_owned;
  plans_owned =
      All-map (λ p. has_thread p.0 db.threads ≡ true) _ db.plans (λ p h. still p.0 h) c.plans_owned;
}
  where
    still :
        (key : Str)
        → has_thread key db.threads ≡ true
        → has_thread key (db.threads ++ t ∷ []) ≡ true
    still key h = rw (exists-append (λ u. str_eq u.id key) db.threads (t ∷ []), h) refl
