-- ===== src/Memory/Threads/Undo.antt =====
-- Deleted messages, and the records of compressions that point at them.
use sandbar.Base.{
  ℕ, ◌≤◌, ◌<◌, Str, str_eq, str_eq_iff, leb, ◌==◌, if◌then◌else◌, Bool, true, Option, none, some,
  List, [], ◌∷◌, not, ◌&&◌, All, ◌≡◌, ◌≢◌, refl, sym, ap, ◌∙◌, arith, Bool-cases, if-holds, inl,
  inr,
}
use sandbar.Memory.Threads.{
  MessageRow, ToolCallRow, CompressionRecord, Db, select, exists, in_thread, messages_of,
}
use sandbar.Memory.Threads.Writes.{
  delete_messages, invalidate_compressions_after_seq, delete_messages_after, is_later, latest_of,
  get_latest_compression, order_calls, get_tool_calls_for_message,
}
use sandbar.Memory.Threads.Tables.{
  has_message, Rising-select, DistinctCalls-select, Consistent, All-map, All-select, select-All,
}
use sandbar.Memory.Threads.Append.{messages_of-select}

pub delete_messages-Consistent :
    (gone : MessageRow → Bool) (db : Db) → Consistent db → Consistent (delete_messages gone db)
unfolding delete_messages
delete_messages-Consistent gone db c = record {
  rising = Rising-select _ db.messages c.rising;
  counted = All-select (λ m. m.id ≤ db.last_message_id) _ db.messages c.counted;
  distinct = DistinctCalls-select _ db.tool_calls c.distinct;
  calls_owned = select-All _ db.tool_calls;
  messages_owned = All-select _ _ db.messages c.messages_owned;
  compressions_owned = c.compressions_owned;
  plans_owned = c.plans_owned;
}

pub delete_messages-left :
    (gone : MessageRow → Bool) (db : Db)
    → All (λ m. not (gone m) ≡ true) (delete_messages gone db).messages
unfolding delete_messages
delete_messages-left gone db = select-All (λ m. not (gone m)) db.messages

pub invalidate-Consistent :
    (thread_id : Str) (seq : ℕ) (db : Db)
    → Consistent db
    → Consistent (invalidate_compressions_after_seq thread_id seq db)
unfolding invalidate_compressions_after_seq
invalidate-Consistent thread_id seq db c = record {
  rising = c.rising;
  counted = c.counted;
  distinct = c.distinct;
  calls_owned = c.calls_owned;
  messages_owned = c.messages_owned;
  compressions_owned = All-select _ _ db.compressions c.compressions_owned;
  plans_owned = c.plans_owned;
}

pub delete_messages_after-Consistent :
    (thread_id : Str) (seq : ℕ) (db : Db)
    → Consistent db
    → Consistent (delete_messages_after thread_id seq db)
unfolding delete_messages_after
delete_messages_after-Consistent thread_id seq db c =
    invalidate-Consistent thread_id seq _ (delete_messages-Consistent _ db c)

-- A selection from a selection, where the inner test lets through what the outer one wants.
module _ {A : Type 0} where
  select-select :
      (k l q : A → Bool) (xs : List A)
      → ((x : A) → k x ≡ true → l x ≡ q x)
      → select k (select l xs) ≡ select q (select k xs)
  unfolding select
  select-select k l q [] same = refl
  select-select k l q (x ∷ xs) same = elim (Bool-cases (k x)) [
    | inl e ↦
        let agree : l x ≡ q x = same x e in ground (arith, e, agree, select-select k l q xs same)
    | inr e ↦ ground (arith, e, select-select k l q xs same)
  ]

  select_all : (xs : List A) → select (λ x. true) xs ≡ xs
  unfolding select
  select_all [] = refl
  select_all (x ∷ xs) = ap (◌∷◌ x) (select_all xs)

latest_of-All :
    (P : CompressionRecord → Type 0) (rs : List CompressionRecord)
    → All P rs
    → elim (latest_of rs) as (λ x. Type 0) [ none ↦ Unit | some r ↦ P r ]
unfolding latest_of
latest_of-All P [] h = tt
latest_of-All P (r ∷ rs) h = by_rest (latest_of rs) (latest_of-All P rs h.1)
  where
    by_rest :
        (o : Option CompressionRecord)
        → elim o as (λ x. Type 0) [ none ↦ Unit | some best ↦ P best ]
        → elim (elim o as (λ x. Option CompressionRecord) [
          | none ↦ some r
          | some best ↦ if is_later r best then some r else some best
        ])
            as (λ x. Type 0) [ none ↦ Unit | some best ↦ P best ]
    by_rest none k = h.0
    by_rest (some best) k =
        if-holds
          (λ (o : Option CompressionRecord). elim o as (λ x. Type 0) [ none ↦ Unit | some b ↦ P b ])
          (is_later r best) _ _ (λ e. h.0) (λ e. k)

-- The compression that stands, if any, keeps a message below `seq` first.
abbrev pub KeepsBelow : ℕ → Option CompressionRecord → Type 0
KeepsBelow seq none = Unit
KeepsBelow seq (some r) = r.first_kept_seq < seq

undone_messages :
    (thread_id : Str) (seq : ℕ) (db : Db)
    → (delete_messages_after thread_id seq db).messages
      ≡ select (λ m. not (in_thread thread_id m && leb seq m.seq)) db.messages
unfolding delete_messages_after invalidate_compressions_after_seq delete_messages
undone_messages thread_id seq db = refl

undone_compressions :
    (thread_id : Str) (seq : ℕ) (db : Db)
    → (delete_messages_after thread_id seq db).compressions
      ≡ select (λ r. not (str_eq r.thread_id thread_id && leb seq r.first_kept_seq)) db.compressions
unfolding delete_messages_after invalidate_compressions_after_seq delete_messages
undone_compressions thread_id seq db = refl

-- A row of another thread is not touched.
untouched :
    (id thread_id other : Str) (b : Bool)
    → thread_id ≢ other
    → str_eq id other ≡ true
    → not (str_eq id thread_id && b) ≡ true
untouched id thread_id other b apart e =
    ground (arith, apart, e, str_eq_iff id other, str_eq_iff id thread_id)

latest-undone :
    (thread_id : Str) (seq : ℕ) (db : Db)
    → KeepsBelow seq (get_latest_compression thread_id (delete_messages_after thread_id seq db))
unfolding get_latest_compression
latest-undone thread_id seq db =
    rw
      (
        undone_compressions thread_id seq db,
        select-select (λ (r : CompressionRecord). str_eq r.thread_id thread_id)
            (λ r. not (str_eq r.thread_id thread_id && leb seq r.first_kept_seq))
            (λ r. not (leb seq r.first_kept_seq)) db.compressions (λ r e. rw e refl),
      )
      (below
        (select (λ r. not (leb seq r.first_kept_seq))
          (select (λ r. str_eq r.thread_id thread_id) db.compressions))
        (select-All (λ r. not (leb seq r.first_kept_seq))
          (select (λ r. str_eq r.thread_id thread_id) db.compressions)))
  where
    below :
        (rs : List CompressionRecord)
        → All (λ r. not (leb seq r.first_kept_seq) ≡ true) rs
        → KeepsBelow seq (latest_of rs)
    below rs h = as_kept (latest_of rs) (
        latest_of-All (λ r. r.first_kept_seq < seq) rs
          (All-map (λ r. not (leb seq r.first_kept_seq) ≡ true) (λ r. r.first_kept_seq < seq) rs
            (λ r e. ground (arith, e)) h))
      where
        as_kept :
            (o : Option CompressionRecord)
            → elim o as (λ x. Type 0) [ none ↦ Unit | some r ↦ r.first_kept_seq < seq ]
            → KeepsBelow seq o
        as_kept none k = tt
        as_kept (some r) k = k

compressions-untouched :
    (thread_id other : Str) (seq : ℕ) (db : Db)
    → thread_id ≢ other
    → select (λ r. str_eq r.thread_id other) (delete_messages_after thread_id seq db).compressions
      ≡ select (λ r. str_eq r.thread_id other) db.compressions
compressions-untouched thread_id other seq db apart =
    ap (select (λ r. str_eq r.thread_id other)) (undone_compressions thread_id seq db)
    ∙ select-select (λ (r : CompressionRecord). str_eq r.thread_id other)
        (λ r. not (str_eq r.thread_id thread_id && leb seq r.first_kept_seq)) (λ r. true)
        db.compressions
        (λ r e. untouched r.thread_id thread_id other (leb seq r.first_kept_seq) apart e)
    ∙ select_all (select (λ r. str_eq r.thread_id other) db.compressions)

latest-untouched :
    (thread_id other : Str) (seq : ℕ) (db : Db)
    → thread_id ≢ other
    → get_latest_compression other (delete_messages_after thread_id seq db)
      ≡ get_latest_compression other db
unfolding get_latest_compression
latest-untouched thread_id other seq db apart =
    ap latest_of (compressions-untouched thread_id other seq db apart)

-- Every message of a list is found in it.
All-has_message : (ms : List MessageRow) → All (λ m. has_message m.id ms ≡ true) ms
unfolding exists
All-has_message [] = tt
All-has_message (m ∷ ms) = (
  ground arith,
  All-map (λ k. has_message k.id ms ≡ true) (λ k. has_message k.id (m ∷ ms) ≡ true) ms
      (λ k h. ground (arith, h)) (All-has_message ms),
)

-- The messages that are left keep their tool calls.
left-calls :
    (gone : MessageRow → Bool) (db : Db)
    → All
        (λ m.
          get_tool_calls_for_message m.id (delete_messages gone db)
          ≡ get_tool_calls_for_message m.id db)
        (delete_messages gone db).messages
unfolding delete_messages get_tool_calls_for_message
left-calls gone db =
    let left : List MessageRow = select (λ m. not (gone m)) db.messages in
    All-map (λ m. has_message m.id left ≡ true) _ left
      (λ m found. ap order_calls (
        select-select (λ c. c.message_id == m.id) (λ c. has_message c.message_id left) (λ c. true)
          db.tool_calls (λ c e. owner left c m.id e found)
        ∙ select_all (select (λ c. c.message_id == m.id) db.tool_calls)))
      (All-has_message left)
  where
    owner :
        (left : List MessageRow) (c : ToolCallRow) (id : ℕ)
        → (c.message_id == id) ≡ true
        → has_message id left ≡ true
        → has_message c.message_id left ≡ true
    owner left c id e found = let same : c.message_id ≡ id = ground (arith, e) in rw same found

-- What `DeleteMessagesAfter` did.
abbrev pub Undone : Str → ℕ → Db → Db → Type 0
Undone thread_id seq db after =
    (messages_of thread_id after ≡ select (λ m. not (leb seq m.seq)) (messages_of thread_id db))
    × KeepsBelow seq (get_latest_compression thread_id after)
    × ((other : Str)
        → thread_id ≢ other
        → (messages_of other after ≡ messages_of other db)
          × (get_latest_compression other after ≡ get_latest_compression other db)
          × (select (λ r. str_eq r.thread_id other) after.compressions
              ≡ select (λ r. str_eq r.thread_id other) db.compressions))
    × All (λ m. get_tool_calls_for_message m.id after ≡ get_tool_calls_for_message m.id db)
        after.messages
    × (after.threads ≡ db.threads)
    × (after.plans ≡ db.plans)
    × Consistent after

undone_calls :
    (thread_id : Str) (seq : ℕ) (db : Db)
    → All
        (λ m.
          get_tool_calls_for_message m.id (delete_messages_after thread_id seq db)
          ≡ get_tool_calls_for_message m.id db)
        (delete_messages_after thread_id seq db).messages
unfolding delete_messages_after invalidate_compressions_after_seq get_tool_calls_for_message
undone_calls thread_id seq db =
    unfold get_tool_calls_for_message in left-calls (λ m. in_thread thread_id m && leb seq m.seq) db

undone_rest :
    (thread_id : Str) (seq : ℕ) (db : Db)
    → ((delete_messages_after thread_id seq db).threads ≡ db.threads)
      × ((delete_messages_after thread_id seq db).plans ≡ db.plans)
unfolding delete_messages_after invalidate_compressions_after_seq delete_messages
undone_rest thread_id seq db = (refl, refl)

-- `DeleteMessagesAfter` on consistent tables: the thread's transcript is what stood in it before the
-- number, and no compression that stands for it points at or after that number; the messages that
-- are left, of any thread, keep their tool calls, and no call of a deleted message is left, since
-- the tables stay consistent; the transcripts and compressions of other threads, all plans and the
-- table of threads are as they were.
pub delete_messages_after-undoes :
    (thread_id : Str) (seq : ℕ) (db : Db)
    → Consistent db
    → Undone thread_id seq db (delete_messages_after thread_id seq db)
delete_messages_after-undoes thread_id seq db c =
    let still : Consistent (delete_messages_after thread_id seq db) =
      delete_messages_after-Consistent thread_id seq db c in
    let rest = undone_rest thread_id seq db in
    (
      messages_of-select thread_id (delete_messages_after thread_id seq db) still
          ∙ ap (select (in_thread thread_id)) (undone_messages thread_id seq db)
          ∙ select-select (in_thread thread_id) (λ m. not (in_thread thread_id m && leb seq m.seq))
              (λ m. not (leb seq m.seq)) db.messages (λ m e. rw e refl)
          ∙ ap (select (λ m. not (leb seq m.seq))) (sym (messages_of-select thread_id db c)),
      latest-undone thread_id seq db,
      (λ other apart. (
        messages_of-select other (delete_messages_after thread_id seq db) still
            ∙ ap (select (in_thread other)) (undone_messages thread_id seq db)
            ∙ select-select (in_thread other) (λ m. not (in_thread thread_id m && leb seq m.seq))
                (λ m. true) db.messages
                (λ m e. untouched m.thread_id thread_id other (leb seq m.seq) apart e)
            ∙ select_all (select (in_thread other) db.messages)
            ∙ sym (messages_of-select other db c),
        latest-untouched thread_id other seq db apart,
        compressions-untouched thread_id other seq db apart,
      )),
      undone_calls thread_id seq db,
      rest.0,
      rest.1,
      still,
    )
