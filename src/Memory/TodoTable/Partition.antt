-- ===== src/Memory/TodoTable/Partition.antt =====
-- The table of all threads' todos is a table for each thread: a statement of one thread does to the rows
-- of that thread what PlanStore does to its plan, and nothing to the rows of others.
use sandbar.Base.{
  ℕ, ◌+◌, Str, str_eq, str_eq_iff, contains, ◌==◌, true, false, List, [], ◌∷◌, ◌++◌, not, ◌||◌, All,
  ◌≡◌, ◌≢◌, refl, sym, ap, ◌∙◌, arith, Bool-cases, if-holds, inl, inr, append-nil,
}
use sandbar.Memory.Todo.{Result, done, error, TodoItem, TodoUpdate, status_valid}
use sandbar.Memory.Plan.{ids, has_position, insert_todos}
use sandbar.Memory.PlanStore.{apply_update, apply_updates, delete_ids}
use sandbar.Memory.TodoTable.{
  rows_of, update_in, updates_in, delete_in, deletes_in, clear_in, position_in, compact_in,
  insert_in,
}

-- The rows of a thread in the table that a loop leaves.
abbrev pub rows_in : Str → Result (List TodoItem) → Result (List TodoItem)
rows_in id (done table) = done (rows_of id table)
rows_in id (error e) = error e

-- No row of the list is of the thread.
abbrev pub Kept : Str → List TodoItem → List TodoItem → Type 0
Kept other table after = rows_of other after ≡ rows_of other table

update_in-mine :
    (now : ℕ) (id : Str) (u : TodoUpdate) (table : List TodoItem)
    → rows_of id (update_in now id u table) ≡ apply_update now u (rows_of id table)
unfolding rows_of update_in apply_update
update_in-mine now id u [] = refl
update_in-mine now id u (t ∷ ts) = elim (Bool-cases (str_eq t.thread_id id)) [
  | inr e ↦ rw (e, e) (update_in-mine now id u ts)
  | inl e ↦ elim (Bool-cases (str_eq t.id u.id)) [
    | inl f ↦ ground (arith, e, f, update_in-mine now id u ts)
    | inr f ↦ ground (arith, e, f, update_in-mine now id u ts)
  ]
]

-- A row of this thread is not one of another.
apart-rows : (key id other : Str) → other ≢ id → str_eq key id ≡ true → str_eq key other ≡ false
apart-rows key id other apart e = ground (arith, apart, e, str_eq_iff key id, str_eq_iff key other)

update_in-Kept :
    (now : ℕ) (id other : Str) (u : TodoUpdate) (table : List TodoItem)
    → other ≢ id
    → Kept other table (update_in now id u table)
unfolding rows_of update_in
update_in-Kept now id other u [] apart = refl
update_in-Kept now id other u (t ∷ ts) apart = elim (Bool-cases (str_eq t.thread_id id)) [
  | inr e ↦ rw (e, update_in-Kept now id other u ts apart) refl
  | inl e ↦
      let off : str_eq t.thread_id other ≡ false = apart-rows t.thread_id id other apart e in
      ground (arith, e, off, update_in-Kept now id other u ts apart)
]

position_in-Kept :
    (now : ℕ) (id other : Str) (position : ℕ) (todo_id : Str) (table : List TodoItem)
    → other ≢ id
    → Kept other table (position_in now id position todo_id table)
unfolding rows_of position_in
position_in-Kept now id other position todo_id [] apart = refl
position_in-Kept now id other position todo_id (t ∷ ts) apart =
    elim (Bool-cases (str_eq t.thread_id id)) [
      | inr e ↦ rw (e, position_in-Kept now id other position todo_id ts apart) refl
      | inl e ↦
          let off : str_eq t.thread_id other ≡ false = apart-rows t.thread_id id other apart e in
          ground (arith, e, off, position_in-Kept now id other position todo_id ts apart)
    ]

delete_in-Kept :
    (id other todo_id : Str) (table : List TodoItem)
    → other ≢ id
    → Kept other table (delete_in id todo_id table)
unfolding rows_of delete_in
delete_in-Kept id other todo_id [] apart = refl
delete_in-Kept id other todo_id (t ∷ ts) apart = elim (Bool-cases (str_eq t.thread_id id)) [
  | inr e ↦ rw (e, delete_in-Kept id other todo_id ts apart) refl
  | inl e ↦
      let off : str_eq t.thread_id other ≡ false = apart-rows t.thread_id id other apart e in
      ground (arith, e, off, delete_in-Kept id other todo_id ts apart)
]

pub clear_in-Kept :
    (id other : Str) (table : List TodoItem) → other ≢ id → Kept other table (clear_in id table)
unfolding rows_of clear_in
clear_in-Kept id other [] apart = refl
clear_in-Kept id other (t ∷ ts) apart = elim (Bool-cases (str_eq t.thread_id id)) [
  | inr e ↦ rw (e, clear_in-Kept id other ts apart) refl
  | inl e ↦
      let off : str_eq t.thread_id other ≡ false = apart-rows t.thread_id id other apart e in
      ground (arith, e, off, clear_in-Kept id other ts apart)
]

pub clear_in-mine : (id : Str) (table : List TodoItem) → rows_of id (clear_in id table) ≡ []
unfolding rows_of clear_in
clear_in-mine id [] = refl
clear_in-mine id (t ∷ ts) = ground (arith, clear_in-mine id ts)

-- One deletion on the rows of a thread.
delete_in-mine :
    (id g : Str) (gone : List Str) (table : List TodoItem)
    → delete_ids gone (rows_of id (delete_in id g table)) ≡ delete_ids (g ∷ gone) (rows_of id table)
unfolding rows_of delete_in delete_ids contains
delete_in-mine id g gone [] = refl
delete_in-mine id g gone (t ∷ ts) = elim (Bool-cases (str_eq t.thread_id id)) [
  | inr e ↦ ground (arith, e, delete_in-mine id g gone ts)
  | inl e ↦ ground (arith, e, delete_in-mine id g gone ts, str_eq_iff t.id g, str_eq_iff g t.id)
]

pub updates_in-mine :
    (now : ℕ) (id : Str) (us : List TodoUpdate) (table : List TodoItem)
    → rows_of id (updates_in now id us table) ≡ apply_updates now us (rows_of id table)
unfolding updates_in apply_updates
updates_in-mine now id [] table = refl
updates_in-mine now id (u ∷ us) table =
    updates_in-mine now id us (update_in now id u table)
    ∙ ap (apply_updates now us) (update_in-mine now id u table)

pub updates_in-Kept :
    (now : ℕ) (id other : Str) (us : List TodoUpdate) (table : List TodoItem)
    → other ≢ id
    → Kept other table (updates_in now id us table)
unfolding updates_in
updates_in-Kept now id other [] table apart = refl
updates_in-Kept now id other (u ∷ us) table apart =
    updates_in-Kept now id other us (update_in now id u table) apart
    ∙ update_in-Kept now id other u table apart

delete_nothing : (ts : List TodoItem) → delete_ids [] ts ≡ ts
unfolding delete_ids contains
delete_nothing [] = refl
delete_nothing (t ∷ ts) = ap (◌∷◌ t) (delete_nothing ts)

pub deletes_in-mine :
    (id : Str) (gone : List Str) (table : List TodoItem)
    → rows_of id (deletes_in id gone table) ≡ delete_ids gone (rows_of id table)
unfolding deletes_in
deletes_in-mine id [] table = sym (delete_nothing (rows_of id table))
deletes_in-mine id (g ∷ gone) table =
    deletes_in-mine id gone (delete_in id g table) ∙ delete_in-mine id g gone table

pub deletes_in-Kept :
    (id other : Str) (gone : List Str) (table : List TodoItem)
    → other ≢ id
    → Kept other table (deletes_in id gone table)
unfolding deletes_in
deletes_in-Kept id other [] table apart = refl
deletes_in-Kept id other (g ∷ gone) table apart =
    deletes_in-Kept id other gone (delete_in id g table) apart
    ∙ delete_in-Kept id other g table apart

pub compact_in-Kept :
    (now : ℕ) (id other : Str) (p : ℕ) (items table : List TodoItem)
    → other ≢ id
    → Kept other table (compact_in now id p items table)
unfolding compact_in
compact_in-Kept now id other p [] table apart = refl
compact_in-Kept now id other p (t ∷ ts) table apart = elim (Bool-cases (t.position == p)) [
  | inl e ↦ rw e (compact_in-Kept now id other (p + 1) ts table apart)
  | inr e ↦ rw e (
      compact_in-Kept now id other (p + 1) ts (position_in now id p t.id table) apart
      ∙ position_in-Kept now id other p t.id table apart)
]

rows_of-append :
    (id : Str) (ts us : List TodoItem) → rows_of id (ts ++ us) ≡ rows_of id ts ++ rows_of id us
unfolding rows_of
rows_of-append id [] us = refl
rows_of-append id (t ∷ ts) us = ground (arith, rows_of-append id ts us)

rows_of-mine : (id : Str) (t : TodoItem) → t.thread_id ≡ id → rows_of id (t ∷ []) ≡ t ∷ []
unfolding rows_of
rows_of-mine id t e = ground (arith, e, str_eq_iff t.thread_id id)

rows_of-other :
    (id other : Str) (t : TodoItem) → t.thread_id ≡ id → other ≢ id → rows_of other (t ∷ []) ≡ []
unfolding rows_of
rows_of-other id other t e apart = ground (arith, e, apart, str_eq_iff t.thread_id other)

pub insert_in-mine :
    (id : Str) (i : ℕ) (table items : List TodoItem)
    → All (λ t. t.thread_id ≡ id) items
    → rows_in id (insert_in i table items) ≡ insert_todos i (rows_of id table) items
unfolding insert_in insert_todos
insert_in-mine id i table [] h = refl
insert_in-mine id i table (t ∷ ts) h =
    let same : rows_of t.thread_id table ≡ rows_of id table = ap (λ k. rows_of k table) h.0 in
    let more : rows_of id (table ++ t ∷ []) ≡ rows_of id table ++ t ∷ [] =
      rows_of-append id table (t ∷ []) ∙ ap (λ l. rows_of id table ++ l) (rows_of-mine id t h.0) in
    rw same
      (elim (Bool-cases (
        contains t.id (ids (rows_of id table))
        || (has_position t.position (rows_of id table) || not (status_valid t.status)))) [
          | inl e ↦ rw e refl
          | inr e ↦ rw e (
              insert_in-mine id (i + 1) (table ++ t ∷ []) ts h.1
              ∙ ap (λ l. insert_todos (i + 1) l ts) more)
        ])

-- After an insertion that succeeds, the rows of another thread are as they were.
abbrev pub KeptIf : Str → List TodoItem → Result (List TodoItem) → Type 0
KeptIf other table (done after) = Kept other table after
KeptIf other table (error e) = Unit

pub insert_in-Kept :
    (id other : Str) (i : ℕ) (table items : List TodoItem)
    → other ≢ id
    → All (λ t. t.thread_id ≡ id) items
    → KeptIf other table (insert_in i table items)
unfolding insert_in
insert_in-Kept id other i table [] apart h = refl
insert_in-Kept id other i table (t ∷ ts) apart h =
    let more : rows_of other (table ++ t ∷ []) ≡ rows_of other table =
      rows_of-append other table (t ∷ [])
      ∙ ap (λ l. rows_of other table ++ l) (rows_of-other id other t h.0 apart)
      ∙ append-nil (rows_of other table) in
    if-holds (KeptIf other table)
      (contains t.id (ids (rows_of t.thread_id table))
        || (has_position t.position (rows_of t.thread_id table) || not (status_valid t.status)))
      _ _ (λ e. tt)
      (λ e.
        weaken more (insert_in (i + 1) (table ++ t ∷ []) ts)
          (insert_in-Kept id other (i + 1) (table ++ t ∷ []) ts apart h.1))
  where
    weaken :
        rows_of other (table ++ t ∷ []) ≡ rows_of other table
        → (r : Result (List TodoItem)) → KeptIf other (table ++ t ∷ []) r
        → KeptIf other table r
    weaken more (done after) k = k ∙ more
    weaken more (error e) k = tt
