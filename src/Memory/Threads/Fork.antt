-- ===== src/Memory/Threads/Fork.antt =====
-- A fork is a copy of its source, under new ids.
use sandbar.Base.{
  ℕ, Str, str_eq, str_eq_refl, str_eq-false, true, false, Option, none, some, List, [], ◌∷◌, not,
  All, ◌≡◌, ◌≢◌, refl, sym, ap, append-nil, ◌∙◌, arith, inl, inr, ◌⊎◌, if-holds, ◌++◌, Outcome, ok,
  err, guard, Returns, Returns-bind, guard-Returns, Map, lookup, insert, lookup-insert,
}
use sandbar.Memory.Plan.{PlanRow}
use sandbar.Memory.Threads.{
  ThreadRow, MessageRow, Db, DbError, thread_taken, thread_not_found, select, exists, in_thread,
  messages_of, transact, is_retryable,
}
use sandbar.Memory.Threads.Writes.{
  first_row, get_thread, remapped_ids, copy_messages, copy_plan, fork_rows, fork_thread,
}
use sandbar.Memory.Threads.Tables.{has_thread, Consistent, All-map, exists-append}
use sandbar.Memory.Threads.Inserts.{Settled}
use sandbar.Memory.Threads.Append.{messages_of-select, select-append}
use sandbar.Memory.Threads.Calls.{select-none, select-every}
use sandbar.Memory.Threads.Copies.{
  Copies, Copied, all_copied_calls, copy_messages-Copied, messages_of-Ascends, no_messages,
  added-Consistent,
}

Copies-threads :
    (ids : Map Str) (new_id : Str) (ms ns : List MessageRow)
    → Copies ids new_id ms ns
    → All (λ n. n.thread_id ≡ new_id) ns
Copies-threads ids new_id [] [] h = tt
Copies-threads ids new_id [] (n ∷ ns) h = elim h [ ]
Copies-threads ids new_id (m ∷ ms) [] h = elim h [ ]
Copies-threads ids new_id (m ∷ ms) (n ∷ ns) h = (h.0, Copies-threads ids new_id ms ns h.6)

copy_plan-rows :
    (src new_id : Str) (db : Db)
    → ((copy_plan src new_id db).messages ≡ db.messages)
      × ((lookup src db.plans ≡ none)
          ⊎ (lookup new_id (copy_plan src new_id db).plans ≡ lookup src db.plans))
unfolding copy_plan
copy_plan-rows src new_id db = by_plan (lookup src db.plans)
  where
    by_plan :
        (o : Option PlanRow)
        → ((elim o as (λ x. Db) [
          | none ↦ db
          | some p ↦ record db { plans = insert new_id p db.plans }
        ]).messages
            ≡ db.messages)
          × ((o ≡ none)
              ⊎ (lookup new_id
                    (elim o as (λ x. Db) [
                      | none ↦ db
                      | some p ↦ record db { plans = insert new_id p db.plans }
                    ]).plans
                  ≡ o))
    by_plan none = (refl, inl refl)
    by_plan (some p) =
        (refl, inr (lookup-insert new_id new_id p db.plans ∙ rw (str_eq_refl new_id) refl))

copy_plan_calls :
    (src new_id : Str) (db : Db) → (copy_plan src new_id db).tool_calls ≡ db.tool_calls
unfolding copy_plan
copy_plan_calls src new_id db = by_plan (lookup src db.plans)
  where
    by_plan :
        (o : Option PlanRow)
        → (elim o as (λ x. Db) [
          | none ↦ db
          | some p ↦ record db { plans = insert new_id p db.plans }
        ]).tool_calls
          ≡ db.tool_calls
    by_plan none = refl
    by_plan (some p) = refl

inserted-owned :
    (k : Str) (p : PlanRow) (threads : List ThreadRow) (plans : Map PlanRow)
    → has_thread k threads ≡ true
    → All (λ q. has_thread q.0 threads ≡ true) plans
    → All (λ q. has_thread q.0 threads ≡ true) (insert k p plans)
unfolding insert
inserted-owned k p threads [] known h = (known, tt)
inserted-owned k p threads ((j, q) ∷ plans) known h =
    if-holds (All (λ q. has_thread q.0 threads ≡ true)) (str_eq j k) _ _ (λ e. h)
      (λ e. (h.0, inserted-owned k p threads plans known h.1))

pub copy_plan-Consistent :
    (src new_id : Str) (db : Db)
    → Consistent db
    → has_thread new_id db.threads ≡ true
    → Consistent (copy_plan src new_id db)
unfolding copy_plan
copy_plan-Consistent src new_id db c known = by_plan (lookup src db.plans)
  where
    by_plan :
        (o : Option PlanRow)
        → Consistent (elim o as (λ x. Db) [
          | none ↦ db
          | some p ↦ record db { plans = insert new_id p db.plans }
        ])
    by_plan none = c
    by_plan (some p) = record {
      rising = c.rising;
      counted = c.counted;
      distinct = c.distinct;
      calls_owned = c.calls_owned;
      messages_owned = c.messages_owned;
      compressions_owned = c.compressions_owned;
      plans_owned = inserted-owned new_id p db.threads db.plans known c.plans_owned;
    }

-- What a fork did to the tables.
abbrev pub Forked : (Str → Str) → Str → Str → Db → Db × Outcome DbError Str → Type 0
Forked fresh new_id src db (after, err e) = after ≡ db
Forked fresh new_id src db (after, ok id) =
    (id ≡ new_id)
    × Consistent after
    × Copies (remapped_ids fresh (messages_of src db) db) new_id (messages_of src db)
        (messages_of new_id after)
    × ((other : Str) → other ≢ new_id → messages_of other after ≡ messages_of other db)
    × ((lookup src db.plans ≡ none) ⊎ (lookup new_id after.plans ≡ lookup src db.plans))
    × (after.tool_calls
        ≡ db.tool_calls
          ++ all_copied_calls (remapped_ids fresh (messages_of src db) db) db (messages_of src db)
              (messages_of new_id after))

added-known :
    (new_id : Str) (threads : List ThreadRow) (t : ThreadRow)
    → str_eq t.id new_id ≡ true
    → has_thread new_id (threads ++ t ∷ []) ≡ true
unfolding exists
added-known new_id threads t named =
    exists-append (λ u. str_eq u.id new_id) threads (t ∷ []) ∙ ground (arith, named)

-- The body of the transaction, on tables with the new thread.
fork-Forked :
    (fresh : Str → Str) (new_id src : Str) (db out : Db) (id : Str)
    → Consistent db
    → has_thread new_id db.threads ≡ false
    → id ≡ new_id
    → (t : ThreadRow) → str_eq t.id new_id ≡ true
    → Copied
        (remapped_ids fresh (messages_of src db) db)
        new_id
        db
        (messages_of src db)
        (record db { threads = db.threads ++ t ∷ [] })
        out
    → Forked fresh new_id src db (copy_plan src new_id out, ok id)
fork-Forked fresh new_id src db out id c missing same t named
      (still, plans, threads_now, ns, rows, copies, calls) =
    let known : has_thread new_id out.threads ≡ true =
      rw threads_now (added-known new_id db.threads t named) in
    let (kept, plan) = copy_plan-rows src new_id out in
    let owned : Consistent (copy_plan src new_id out) =
      copy_plan-Consistent src new_id out still known in
    let threads : All (λ n. n.thread_id ≡ new_id) ns =
      Copies-threads (remapped_ids fresh (messages_of src db) db) new_id (messages_of src db) ns
        copies in
    let mine : messages_of new_id (copy_plan src new_id out) ≡ ns =
      messages_of-select new_id (copy_plan src new_id out) owned
      ∙ ap (select (in_thread new_id)) (kept ∙ rows)
      ∙ select-append (in_thread new_id) db.messages ns
      ∙ rw
          (
            select-none (in_thread new_id) db.messages (no_messages new_id db c missing),
            select-every (in_thread new_id) ns (
                All-map (λ n. n.thread_id ≡ new_id) (λ n. in_thread new_id n ≡ true) ns
                  (λ n e. rw e (str_eq_refl new_id)) threads),
          )
          refl in
    (
      same,
      owned,
      rw mine copies,
      λ other apart.
          messages_of-select other (copy_plan src new_id out) owned
          ∙ ap (select (in_thread other)) (kept ∙ rows)
          ∙ select-append (in_thread other) db.messages ns
          ∙ rw
              (select-none (in_thread other) ns (
                All-map (λ n. n.thread_id ≡ new_id) (λ n. in_thread other n ≡ false) ns
                  (λ n e. rw e (str_eq-false new_id other (λ f. apart (sym f)))) threads))
              (append-nil (select (in_thread other) db.messages))
          ∙ sym (messages_of-select other db c),
      rw (sym plans) plan,
      copy_plan_calls src new_id out ∙ rw mine calls,
    )

get_thread-Settled :
    (src : Str) (db : Db) → Returns (λ (t : ThreadRow). Unit {0}) Settled (get_thread src db)
unfolding get_thread is_retryable
get_thread-Settled src db = by_row (first_row (select (λ t. str_eq t.id src) db.threads))
  where
    by_row :
        (o : Option ThreadRow)
        → Returns
            (λ (t : ThreadRow). Unit {0})
            (λ e. is_retryable e ≡ false)
            (elim o as (λ x. Outcome DbError ThreadRow) [
              | none ↦ err (thread_not_found src)
              | some t ↦ ok t
            ])
    by_row none = refl
    by_row (some t) = tt

thread_taken-Settled : Settled thread_taken
unfolding is_retryable
thread_taken-Settled = refl

fork_rows-Forked :
    (now : ℕ) (new_id : Str) (fresh : Str → Str) (src : Str) (db : Db)
    → Consistent db
    → Returns
        (λ out. Forked fresh new_id src db (out.0, ok out.1))
        Settled
        (fork_rows now new_id fresh src db)
unfolding fork_rows
fork_rows-Forked now new_id fresh src db c =
    let Done : Db × Str → Type 0 = λ out. Forked fresh new_id src db (out.0, ok out.1) in
    let ids : Map Str = remapped_ids fresh (messages_of src db) db in
    let added : ThreadRow → Db = λ t. record db {
      threads =
          db.threads
          ++ record t { id = new_id; created_at = now; updated_at = now; plan_mode = [] } ∷ [];
    } in
    Returns-bind (λ (t : ThreadRow). Unit {0}) Done Settled (get_thread src db) _
      (get_thread-Settled src db)
      (λ t found.
        Returns-bind (λ (u : Unit {0}). not (has_thread new_id db.threads) ≡ true) Done Settled
          (guard (not (has_thread new_id db.threads)) thread_taken) _
          (guard-Returns Settled (not (has_thread new_id db.threads)) thread_taken
            (λ e. thread_taken-Settled))
          (λ u free.
            let missing : has_thread new_id db.threads ≡ false = ground (arith, free) in
            Returns-bind (Copied ids new_id db (messages_of src db) (added t)) Done Settled
              (copy_messages ids new_id db (messages_of src db) (added t)) _
              (copy_messages-Copied ids new_id db 0 (messages_of src db) (added t)
                (added-Consistent _ db c)
                (All-map (λ m. str_eq m.thread_id new_id ≡ false) _ db.messages (λ m e. inl e)
                  (no_messages new_id db c missing))
                (messages_of-Ascends src db c))
              (λ out h.
                fork-Forked fresh new_id src db out new_id c missing refl _ (str_eq_refl new_id)
                  h)))

pub fork_thread-Forked :
    (now : ℕ) (new_id : Str) (fresh : Str → Str) (src : Str) (db : Db)
    → Consistent db
    → Forked fresh new_id src db (fork_thread now new_id fresh src db)
unfolding fork_thread transact
fork_thread-Forked now new_id fresh src db c =
    by_rows (fork_rows now new_id fresh src db) (fork_rows-Forked now new_id fresh src db c)
  where
    by_rows :
        (r : Outcome DbError (Db × Str))
        → Returns (λ out. Forked fresh new_id src db (out.0, ok out.1)) Settled r
        → Forked fresh new_id src db (transact db r)
    by_rows (ok (after, id)) h = h
    by_rows (err e) h = refl
