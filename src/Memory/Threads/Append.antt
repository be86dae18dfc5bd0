-- ===== src/Memory/Threads/Append.antt =====
-- Appended messages: what a transcript is after them, and when another attempt is made.
use sandbar.Base.{
  ℕ, zero, suc, ◌+◌, ◌<◌, max, Str, str_eq, str_eq_iff, str_eq_refl, str_eq-false, if◌then◌else◌,
  Bool, true, false, List, [], ◌∷◌, ◌++◌, All, ◌≡◌, ◌≢◌, refl, sym, ap, append-nil, ◌∙◌, arith,
  Bool-cases, if-holds, inl, inr, ◌⊎◌, Outcome, ok, err, ◌>>=◌, Returns, Returns-bind,
}
use sandbar.Memory.Threads.{
  ThreadRow, MessageRow, Db, DbError, database_locked, select, in_thread, update_thread, max_seq,
  place, order_by_seq, messages_of, insert_message, insert_tool_calls, Draft, draft_row,
  append_rows, append_once, append_from, append_message_with_tool_calls, transact, is_retryable,
}
use sandbar.Memory.Threads.Tables.{Rising, Rising-select, Consistent, select-All, Room}
use sandbar.Memory.Threads.Inserts.{
  Settled, Inserted, insert_message-Inserted, Called, call_rows, insert_tool_calls-Called,
  update_thread-Consistent,
}

pub select-append :
    {A : Type 0} (k : A → Bool) (xs ys : List A) → select k (xs ++ ys) ≡ select k xs ++ select k ys
unfolding select
select-append k [] ys = refl
select-append k (x ∷ xs) ys = ground (arith, select-append k xs ys)

-- Rows of one thread that stand in order are not moved by the sort.
order_by_seq-same :
    (thread_id : Str) (ms : List MessageRow)
    → Rising ms
    → All (λ m. in_thread thread_id m ≡ true) ms
    → order_by_seq ms ≡ ms
unfolding order_by_seq place
order_by_seq-same thread_id [] r same = refl
order_by_seq-same thread_id (m ∷ []) r same = refl
order_by_seq-same thread_id (m ∷ n ∷ ns) r same =
    rw (order_by_seq-same thread_id (n ∷ ns) r.1 same.1) (first_stays r.0.0.1)
  where
    first_stays :
        (str_eq m.thread_id n.thread_id ≡ false) ⊎ (m.seq < n.seq) → place m (n ∷ ns) ≡ m ∷ n ∷ ns
    first_stays h = ground (
      arith,
      h,
      same.0,
      same.1.0,
      str_eq_iff m.thread_id thread_id,
      str_eq_iff n.thread_id thread_id,
      str_eq_iff m.thread_id n.thread_id,
    )

pub messages_of-select :
    (thread_id : Str) (db : Db)
    → Consistent db
    → messages_of thread_id db ≡ select (in_thread thread_id) db.messages
unfolding messages_of
messages_of-select thread_id db c =
    order_by_seq-same thread_id (select (in_thread thread_id) db.messages)
      (Rising-select (in_thread thread_id) db.messages c.rising)
      (select-All (in_thread thread_id) db.messages)

-- The next number of a thread is above all of its numbers.
pub max_seq-Room :
    (thread_id : Str) (n : ℕ) (ms : List MessageRow)
    → max_seq (select (in_thread thread_id) ms) < n
    → Room thread_id n ms
unfolding select max_seq
max_seq-Room thread_id n [] h = tt
max_seq-Room thread_id n (m ∷ ms) h = elim (Bool-cases (in_thread thread_id m)) [
  | inl e ↦
      let both : max m.seq (max_seq (select (in_thread thread_id) ms)) < n = rw (select, e) at h in
      (inr (omega (arith, both)), max_seq-Room thread_id n ms (omega (arith, both)))
  | inr e ↦
      let rest : max_seq (select (in_thread thread_id) ms) < n = rw (select, e) at h in
      (inl e, max_seq-Room thread_id n ms rest)
]

draft_row-Room :
    (d : Draft) (n : ℕ) (ms : List MessageRow)
    → Room d.thread_id n ms
    → Room (draft_row d n).thread_id (draft_row d n).seq ms
unfolding draft_row
draft_row-Room d n ms room = room

update_thread_messages :
    (id : Str) (change : ThreadRow → ThreadRow) (db : Db)
    → (update_thread id change db).messages ≡ db.messages
unfolding update_thread
update_thread_messages id change db = refl

update_thread_calls :
    (id : Str) (change : ThreadRow → ThreadRow) (db : Db)
    → (update_thread id change db).tool_calls ≡ db.tool_calls
unfolding update_thread
update_thread_calls id change db = refl

-- The tables after a draft got in as the message `m`.
abbrev pub Appended : Draft → Db → Db × MessageRow → Type 0
Appended d db (after, m) =
    Consistent after
    × (after.messages ≡ db.messages ++ m ∷ [])
    × (m ≡ record (draft_row d (max_seq (select (in_thread d.thread_id) db.messages) + 1)) {
      id = m.id;
    })
    × (after.tool_calls ≡ db.tool_calls ++ call_rows 0 m.id d.tool_calls)
    × (m.id ≡ db.last_message_id + 1)

append_rows-Appended :
    (d : Draft) (db : Db) → Consistent db → Returns (Appended d db) Settled (append_rows d db)
unfolding append_rows
append_rows-Appended d db c =
    Returns-bind (Inserted db row) (Appended d db) Settled (insert_message row db) _
      (insert_message-Inserted row db c room)
      (λ inserted h.
        with_calls inserted h (insert_tool_calls-Called 0 inserted.1 d.tool_calls inserted.0 h.0))
  where
    row : MessageRow
    row = draft_row d (max_seq (select (in_thread d.thread_id) db.messages) + 1)

    room : Room row.thread_id row.seq db.messages
    room = draft_row-Room d _ db.messages (max_seq-Room d.thread_id _ db.messages (omega arith))

    with_calls :
        (inserted : Db × ℕ)
        → Inserted db row inserted
        → Returns
            (Called (call_rows 0 inserted.1 d.tool_calls) inserted.0)
            Settled
            (insert_tool_calls 0 inserted.1 d.tool_calls inserted.0)
        → Returns (Appended d db) Settled (
            insert_tool_calls 0 inserted.1 d.tool_calls inserted.0 >>= λ after.
            (let out : Db × MessageRow = (
              update_thread d.thread_id (λ t. record t { updated_at = d.now }) after,
              record row { id = inserted.1 },
            ) in
              ok out))
    with_calls inserted h calls =
        Returns-bind (Called (call_rows 0 inserted.1 d.tool_calls) inserted.0) (Appended d db)
          Settled (insert_tool_calls 0 inserted.1 d.tool_calls inserted.0) _ calls
          (λ after k. (
            update_thread-Consistent d.thread_id (λ t. record t { updated_at = d.now }) after
                (λ t. refl) k.0,
            update_thread_messages d.thread_id (λ t. record t { updated_at = d.now }) after
                ∙ k.1
                ∙ h.1,
            refl,
            update_thread_calls d.thread_id (λ t. record t { updated_at = d.now }) after
                ∙ k.4
                ∙ ap (λ l. l ++ call_rows 0 inserted.1 d.tool_calls) h.3,
            h.5,
          ))

-- What an attempt, or a sequence of them, did. `fails` is what a database that stays locked means.
abbrev pub Attempted : Type 0 → Draft → Db → Db × Outcome DbError MessageRow → Type 0
Attempted fails d db (after, ok m) = Appended d db (after, m)
Attempted fails d db (after, err e) = (after ≡ db) × (Settled e ⊎ ((e ≡ database_locked) × fails))

append_once-Attempted :
    (locked : Bool) (d : Draft) (db : Db)
    → Consistent db
    → Attempted (locked ≡ true) d db (append_once locked d db)
unfolding append_once transact
append_once-Attempted true d db c = (refl, inr (refl, refl))
append_once-Attempted false d db c = by_rows (append_rows d db) (append_rows-Appended d db c)
  where
    by_rows :
        (r : Outcome DbError (Db × MessageRow))
        → Returns (Appended d db) Settled r
        → Attempted (false ≡ true) d db (transact db r)
    by_rows (ok (after, m)) h = h
    by_rows (err e) h = (refl, inl h)

-- The database is locked at `left` + 1 attempts from `attempt` on.
abbrev pub StaysLocked : (ℕ → Bool) → ℕ → ℕ → Type 0
StaysLocked locked attempt zero = locked attempt ≡ true
StaysLocked locked attempt (suc left) =
    (locked attempt ≡ true) × StaysLocked locked (attempt + 1) left

Attempted-weaken :
    (P R : Type 0)
    → (P → R)
    → (d : Draft) (db : Db) (out : Db × Outcome DbError MessageRow) → Attempted P d db out
    → Attempted R d db out
Attempted-weaken P R f d db (after, ok m) h = h
Attempted-weaken P R f d db (after, err e) (same, inl settled) = (same, inl settled)
Attempted-weaken P R f d db (after, err e) (same, inr (busy, fails)) = (same, inr (busy, f fails))

database_locked-retryable : is_retryable database_locked ≡ true
unfolding is_retryable
database_locked-retryable = refl

pub append_from-Attempted :
    (locked : ℕ → Bool) (attempt left : ℕ) (d : Draft) (db : Db)
    → Consistent db
    → Attempted (StaysLocked locked attempt left) d db (append_from locked attempt left d db)
unfolding append_from
append_from-Attempted locked attempt zero d db c = append_once-Attempted (locked attempt) d db c
append_from-Attempted locked attempt (suc left) d db c =
    by_first (append_once (locked attempt) d db) (append_once-Attempted (locked attempt) d db c)
      (append_from-Attempted locked (attempt + 1) left d db c)
  where
    by_first :
        (first : Db × Outcome DbError MessageRow)
        → Attempted (locked attempt ≡ true) d db first
        → Attempted
            (StaysLocked locked (attempt + 1) left)
            d
            db
            (append_from locked (attempt + 1) left d db)
        → Attempted
            (StaysLocked locked attempt (suc left))
            d
            db
            (elim first.1 as (λ x. Db × Outcome DbError MessageRow) [
              | ok m ↦ first
              | err e ↦
                  if is_retryable e then append_from locked (attempt + 1) left d first.0 else first
            ])
    by_first (after, ok m) h rest = h
    by_first (after, err e) (same, inl settled) rest =
        if-holds (Attempted (StaysLocked locked attempt (suc left)) d db) (is_retryable e) _ _
          (λ retried. ground (arith, retried, settled)) (λ over. (same, inl settled))
    by_first (after, err e) (same, inr (busy, shut)) rest =
        let again : is_retryable e ≡ true = ap is_retryable busy ∙ database_locked-retryable in
        rw (again, same)
          (Attempted-weaken _ _ (λ stays. (shut, stays)) d db
            (append_from locked (attempt + 1) left d db) rest)

row_fields :
    (d : Draft) (n : ℕ) (m : MessageRow)
    → m ≡ record (draft_row d n) { id = m.id }
    → (m.role ≡ d.role)
      × (m.content ≡ d.content)
      × (m.tool_call_id ≡ d.tool_call_id)
      × (m.seq ≡ n)
      × (m.thread_id ≡ d.thread_id)
unfolding draft_row
row_fields d n m made = (
  ap (λ r. r.role) made,
  ap (λ r. r.content) made,
  ap (λ r. r.tool_call_id) made,
  ap (λ r. r.seq) made,
  ap (λ r. r.thread_id) made,
)

select-last :
    (k : MessageRow → Bool) (ms : List MessageRow) (m : MessageRow)
    → k m ≡ true
    → select k (ms ++ m ∷ []) ≡ select k ms ++ m ∷ []
unfolding select
select-last k ms m e = select-append k ms (m ∷ []) ∙ rw e refl

select-skip :
    (k : MessageRow → Bool) (ms : List MessageRow) (m : MessageRow)
    → k m ≡ false
    → select k (ms ++ m ∷ []) ≡ select k ms
unfolding select
select-skip k ms m e = select-append k ms (m ∷ []) ∙ rw e (append-nil (select k ms))

-- What appending a draft did: its message is the last of its thread's transcript, with the next
-- number, and no other transcript is changed; or nothing is changed, for an error that stays or since
-- the database was locked at all five attempts.
abbrev pub Delivered : (ℕ → Bool) → Draft → Db → Db × Outcome DbError MessageRow → Type 0
Delivered locked d db (after, err e) =
    (after ≡ db) × (Settled e ⊎ ((e ≡ database_locked) × StaysLocked locked 0 4))
Delivered locked d db (after, ok m) =
    (m.role ≡ d.role)
    × (m.content ≡ d.content)
    × (m.tool_call_id ≡ d.tool_call_id)
    × (m.seq ≡ max_seq (messages_of d.thread_id db) + 1)
    × (messages_of d.thread_id after ≡ messages_of d.thread_id db ++ m ∷ [])
    × ((other : Str) → d.thread_id ≢ other → messages_of other after ≡ messages_of other db)

-- `AppendMessage` and `AppendAssistantMessageWithToolCalls` on consistent tables: a success puts the
-- message at the end of its thread's transcript, with the number after the largest, and leaves all
-- other transcripts as they were; an error leaves the tables as they were, and it is one that another
-- attempt would meet again, or the database was locked at all five attempts.
pub append_message-Delivered :
    (locked : ℕ → Bool) (d : Draft) (db : Db)
    → Consistent db
    → Delivered locked d db (append_message_with_tool_calls locked d db)
unfolding append_message_with_tool_calls
append_message-Delivered locked d db c =
    by_attempts (append_from locked 0 4 d db) (append_from-Attempted locked 0 4 d db c)
  where
    by_attempts :
        (out : Db × Outcome DbError MessageRow)
        → Attempted (StaysLocked locked 0 4) d db out
        → Delivered locked d db out
    by_attempts (after, err e) h = h
    by_attempts (after, ok m) (still, rows, made, calls, id) =
        let (role, content, call, seq, thread) = row_fields d _ m made in
        (
          role,
          content,
          call,
          rw (messages_of-select d.thread_id db c) seq,
          messages_of-select d.thread_id after still
              ∙ ap (select (in_thread d.thread_id)) rows
              ∙ select-last (in_thread d.thread_id) db.messages m
                  (rw thread (str_eq_refl d.thread_id))
              ∙ ap (λ l. l ++ m ∷ []) (sym (messages_of-select d.thread_id db c)),
          λ other apart.
              messages_of-select other after still
              ∙ ap (select (in_thread other)) rows
              ∙ select-skip (in_thread other) db.messages m
                  (rw thread (str_eq-false d.thread_id other apart))
              ∙ sym (messages_of-select other db c),
        )
