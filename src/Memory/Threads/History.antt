-- ===== src/Memory/Threads/History.antt =====
-- The tables that the writes of internal/memory/thread.go and compression.go can lead to.
use sandbar.Base.{
  ℕ, Str, str_eq, str_eq_iff, Bool, true, Option, none, some, List, [], ◌∷◌, All, All-append, not,
  ◌≡◌, refl, arith, if-holds, Outcome, ok, err, ◌>>=◌, Returns,
}
use sandbar.Memory.Threads.{
  ThreadRow, MessageRow, ToolCallRow, CompressionRecord, Db, DbError, Draft, in_thread, transact,
  select, insert_tool_call, append_from, append_message_with_tool_calls,
}
use sandbar.Memory.Threads.Writes.{
  create_thread, update_thread_title, set_thread_title, set_thread_plan_mode, append_tool_call,
  fork_thread, delete_messages, delete_thread, delete_messages_after, save_compression,
}
use sandbar.Memory.Threads.Tables.{
  has_thread, Consistent, All-map2, All-select, select-All, exists-select-true,
}
use sandbar.Memory.Threads.Inserts.{
  Settled, Called, insert_tool_call-Called, update_thread-Consistent,
}
use sandbar.Memory.Threads.Append.{Attempted, StaysLocked, append_from-Attempted}
use sandbar.Memory.Threads.Copies.{added-Consistent}
use sandbar.Memory.Threads.Fork.{Forked, fork_thread-Forked}
use sandbar.Memory.Threads.Undo.{
  delete_messages-Consistent, delete_messages-left, delete_messages_after-Consistent,
}

-- Tables without a row.
abbrev pub empty_db : Db
empty_db = record {
  threads = [];
  messages = [];
  tool_calls = [];
  compressions = [];
  plans = [];
  last_message_id = 0;
  last_compression_id = 0;
}

-- One write, which may fail.
pub data Write : Db → Db → Type 0 where
  creates :
      (now : ℕ) (id : Str) (title model : Option Str) (workspace : Str) (db : Db)
      → Write db (create_thread now id title model workspace db).0
  appends :
      (locked : ℕ → Bool) (d : Draft) (db : Db)
      → Write db (append_message_with_tool_calls locked d db).0
  adds_call : (row : ToolCallRow) (db : Db) → Write db (append_tool_call row db).0
  titles : (now : ℕ) (id title : Str) (db : Db) → Write db (update_thread_title now id title db)
  renames : (now : ℕ) (id title : Str) (db : Db) → Write db (set_thread_title now id title db)
  sets_mode : (id mode : Str) (db : Db) → Write db (set_thread_plan_mode id mode db).0
  forks :
      (now : ℕ) (new_id : Str) (fresh : Str → Str) (src : Str) (db : Db)
      → Write db (fork_thread now new_id fresh src db).0
  deletes : (id : Str) (db : Db) → Write db (delete_thread id db)
  undoes : (thread_id : Str) (seq : ℕ) (db : Db) → Write db (delete_messages_after thread_id seq db)
  compresses :
      (now : ℕ) (rec : CompressionRecord) (db : Db) → Write db (save_compression now rec db).0

-- A sequence of writes from empty tables.
pub data History : Db → Type 0 where
  nothing : History empty_db
  followed : (db after : Db) → History db → Write db after → History after

create_thread-Consistent :
    (now : ℕ) (id : Str) (title model : Option Str) (workspace : Str) (db : Db)
    → Consistent db
    → Consistent (create_thread now id title model workspace db).0
unfolding create_thread
create_thread-Consistent now id title model workspace db c =
    if-holds (λ (out : Db × Outcome DbError ThreadRow). Consistent out.0) (has_thread id db.threads)
      _ _ (λ e. c) (λ e. added-Consistent _ db c)

append-Consistent :
    (locked : ℕ → Bool) (d : Draft) (db : Db)
    → Consistent db
    → Consistent (append_message_with_tool_calls locked d db).0
unfolding append_message_with_tool_calls
append-Consistent locked d db c =
    by_attempts (append_from locked 0 4 d db) (append_from-Attempted locked 0 4 d db c)
  where
    by_attempts :
        (out : Db × Outcome DbError MessageRow)
        → Attempted (StaysLocked locked 0 4) d db out
        → Consistent out.0
    by_attempts (after, err e) h = rw h.0 c
    by_attempts (after, ok m) h = h.0

append_tool_call-Consistent :
    (row : ToolCallRow) (db : Db) → Consistent db → Consistent (append_tool_call row db).0
unfolding append_tool_call transact
append_tool_call-Consistent row db c =
    by_insert (insert_tool_call row db) (insert_tool_call-Called row db c)
  where
    by_insert :
        (r : Outcome DbError Db)
        → Returns (Called (row ∷ []) db) Settled r
        → Consistent
            (transact db (r >>= λ after. (let out : Db × Unit {0} = (after, tt) in ok out))).0
    by_insert (ok after) h = h.0
    by_insert (err e) h = c

title-Consistent :
    (now : ℕ) (id title : Str) (db : Db)
    → Consistent db
    → Consistent (update_thread_title now id title db)
unfolding update_thread_title
title-Consistent now id title db c = update_thread-Consistent id _ db (λ t. same t t.title) c
  where
    same :
        (t : ThreadRow) (o : Option Str)
        → (elim o as (λ x. ThreadRow) [
          | none ↦ record t { title = some title; updated_at = now }
          | some old ↦ t
        ]).id
          ≡ t.id
    same t none = refl
    same t (some old) = refl

plan_mode-Consistent :
    (id mode : Str) (db : Db) → Consistent db → Consistent (set_thread_plan_mode id mode db).0
unfolding set_thread_plan_mode
plan_mode-Consistent id mode db c =
    if-holds (λ (out : Db × Outcome DbError (Unit {0})). Consistent out.0)
      (has_thread id db.threads) _ _ (λ e. update_thread-Consistent id _ db (λ t. refl) c)
      (λ e. update_thread-Consistent id _ db (λ t. refl) c)

fork-Consistent :
    (now : ℕ) (new_id : Str) (fresh : Str → Str) (src : Str) (db : Db)
    → Consistent db
    → Consistent (fork_thread now new_id fresh src db).0
fork-Consistent now new_id fresh src db c =
    by_fork (fork_thread now new_id fresh src db) (fork_thread-Forked now new_id fresh src db c)
  where
    by_fork : (out : Db × Outcome DbError Str) → Forked fresh new_id src db out → Consistent out.0
    by_fork (after, err e) h = rw h c
    by_fork (after, ok id) h = h.1

delete_thread-Consistent : (id : Str) (db : Db) → Consistent db → Consistent (delete_thread id db)
unfolding delete_thread delete_messages
delete_thread-Consistent id db c =
    let rest = delete_messages-Consistent (in_thread id) db c in
    record {
      rising = rest.rising;
      counted = rest.counted;
      distinct = rest.distinct;
      calls_owned = rest.calls_owned;
      messages_owned =
          left (λ m. m.thread_id) (delete_messages (in_thread id) db).messages rest.messages_owned
            (delete_messages-left (in_thread id) db);
      compressions_owned =
          left (λ r. r.thread_id) (select (λ r. not (str_eq r.thread_id id)) db.compressions)
            (All-select _ _ db.compressions rest.compressions_owned)
            (select-All (λ r. not (str_eq r.thread_id id)) db.compressions);
      plans_owned =
          left (λ p. p.0) (select (λ p. not (str_eq p.0 id)) db.plans)
            (All-select _ _ db.plans rest.plans_owned)
            (select-All (λ p. not (str_eq p.0 id)) db.plans);
    }
  where
    left :
        {A : Type 0} (key : A → Str) (rows : List A)
        → All (λ r. has_thread (key r) db.threads ≡ true) rows
        → All (λ r. not (str_eq (key r) id) ≡ true) rows
        → All (λ r. has_thread (key r) (select (λ t. not (str_eq t.id id)) db.threads) ≡ true) rows
    left key rows owned others =
        All-map2 (λ r. has_thread (key r) db.threads ≡ true) (λ r. not (str_eq (key r) id) ≡ true) _
          rows
          (λ r known other.
            exists-select-true (λ t. str_eq t.id (key r)) (λ t. not (str_eq t.id id)) db.threads
              (λ t e. ground (
                arith,
                e,
                other,
                str_eq_iff t.id (key r),
                str_eq_iff t.id id,
                str_eq_iff (key r) id,
              ))
              known)
          owned others

set_thread_title-Consistent :
    (now : ℕ) (id title : Str) (db : Db)
    → Consistent db
    → Consistent (set_thread_title now id title db)
unfolding set_thread_title
set_thread_title-Consistent now id title db c = update_thread-Consistent id _ db (λ t. refl) c

save_compression-Consistent :
    (now : ℕ) (rec : CompressionRecord) (db : Db)
    → Consistent db
    → Consistent (save_compression now rec db).0
unfolding save_compression
save_compression-Consistent now rec db c =
    if-holds (λ (out : Db × Outcome DbError (Unit {0})). Consistent out.0)
      (has_thread rec.thread_id db.threads) _ _
      (λ known. record {
        rising = c.rising;
        counted = c.counted;
        distinct = c.distinct;
        calls_owned = c.calls_owned;
        messages_owned = c.messages_owned;
        compressions_owned =
            All-append (λ r. has_thread r.thread_id db.threads ≡ true) db.compressions _
              c.compressions_owned (known, tt);
        plans_owned = c.plans_owned;
      })
      (λ e. c)

Write-Consistent : (db after : Db) → Write db after → Consistent db → Consistent after
Write-Consistent _ _ (creates now id title model workspace db) c =
    create_thread-Consistent now id title model workspace db c
Write-Consistent _ _ (appends locked d db) c = append-Consistent locked d db c
Write-Consistent _ _ (adds_call row db) c = append_tool_call-Consistent row db c
Write-Consistent _ _ (titles now id title db) c = title-Consistent now id title db c
Write-Consistent _ _ (renames now id title db) c = set_thread_title-Consistent now id title db c
Write-Consistent _ _ (sets_mode id mode db) c = plan_mode-Consistent id mode db c
Write-Consistent _ _ (forks now new_id fresh src db) c = fork-Consistent now new_id fresh src db c
Write-Consistent _ _ (deletes id db) c = delete_thread-Consistent id db c
Write-Consistent _ _ (undoes thread_id seq db) c =
    delete_messages_after-Consistent thread_id seq db c
Write-Consistent _ _ (compresses now rec db) c = save_compression-Consistent now rec db c

pub History-Consistent : (db : Db) → History db → Consistent db
History-Consistent _ nothing = record {
  rising = tt;
  counted = tt;
  distinct = tt;
  calls_owned = tt;
  messages_owned = tt;
  compressions_owned = tt;
  plans_owned = tt;
}
History-Consistent _ (followed db after before write) =
    Write-Consistent db after write (History-Consistent db before)
