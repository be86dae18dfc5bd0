-- ===== src/Memory/TodoTable/Statements.antt =====
-- The loops of statements on the table of all threads' todos, and the plan of one thread.
use sandbar.Base.{
  ℕ, ◌+◌, Str, str_eq, str_eq_iff, str_eq_refl, contains, contains-append, ◌==◌, if◌then◌else◌,
  false, List, [], ◌∷◌, ◌++◌, All, ◌≡◌, ◌≢◌, refl, sym, ap, ◌∙◌, arith, Bool-cases, inl, inr,
  append_assoc,
}
use sandbar.Memory.Todo.{TodoItem, TodoUpdate}
use sandbar.Memory.Plan.{ids, load_todos, insert_todos}
use sandbar.Memory.Plan.Append.{NoRepeat, ids-append}
use sandbar.Memory.PlanStore.{apply_updates, delete_ids, compact}
use sandbar.Memory.TodoTable.{
  rows_of, updates_in, deletes_in, clear_in, position_in, compact_in, insert_in,
}
use sandbar.Memory.TodoTable.Partition.{
  rows_in, Kept, KeptIf, updates_in-mine, updates_in-Kept, deletes_in-mine, deletes_in-Kept,
  clear_in-mine, clear_in-Kept, compact_in-Kept, insert_in-mine, insert_in-Kept,
}

abbrev moved : ℕ → ℕ → TodoItem → TodoItem
moved now position t = record t { position = position; updated_at = now }

-- The new position of the row with an id, in the rows of one thread.
abbrev set_row : ℕ → ℕ → Str → List TodoItem → List TodoItem
set_row now position todo_id [] = []
set_row now position todo_id (t ∷ ts) =
    (if str_eq t.id todo_id then moved now position t else t) ∷ set_row now position todo_id ts

position_in-mine :
    (now : ℕ) (id : Str) (p : ℕ) (todo_id : Str) (table : List TodoItem)
    → rows_of id (position_in now id p todo_id table) ≡ set_row now p todo_id (rows_of id table)
unfolding rows_of position_in
position_in-mine now id p todo_id [] = refl
position_in-mine now id p todo_id (t ∷ ts) = elim (Bool-cases (str_eq t.thread_id id)) [
  | inr e ↦ rw (e, e) (position_in-mine now id p todo_id ts)
  | inl e ↦ elim (Bool-cases (str_eq t.id todo_id)) [
    | inl f ↦ ground (arith, e, f, position_in-mine now id p todo_id ts)
    | inr f ↦ ground (arith, e, f, position_in-mine now id p todo_id ts)
  ]
]

set_row-absent :
    (now p : ℕ) (todo_id : Str) (ts : List TodoItem)
    → contains todo_id (ids ts) ≡ false
    → set_row now p todo_id ts ≡ ts
unfolding contains
set_row-absent now p todo_id [] h = refl
set_row-absent now p todo_id (t ∷ ts) h =
    ground
      (arith, h, set_row-absent now p todo_id ts, str_eq_iff t.id todo_id, str_eq_iff todo_id t.id)

ids-differ :
    (x t : Str) (xs ts : List TodoItem)
    → contains x (ids xs ++ t ∷ ids ts) ≡ false
    → str_eq x t ≡ false
unfolding contains
ids-differ x t xs ts split =
    ground (arith, split, contains-append x (ids xs) (t ∷ ids ts), str_eq_iff x t, str_eq_iff t x)

set_row-at :
    (now p : ℕ) (xs : List TodoItem) (t : TodoItem) (ts : List TodoItem)
    → NoRepeat (ids (xs ++ t ∷ ts))
    → set_row now p t.id (xs ++ t ∷ ts) ≡ xs ++ moved now p t ∷ ts
set_row-at now p [] t ts h = rw (str_eq_refl t.id, set_row-absent now p t.id ts h.0) refl
set_row-at now p (x ∷ xs) t ts h =
    let split : contains x.id (ids xs ++ t.id ∷ ids ts) ≡ false =
      rw (ids-append xs (t ∷ ts)) at h.0 in
    let off : str_eq x.id t.id ≡ false = ids-differ x.id t.id xs ts split in
    rw (off, set_row-at now p xs t ts h.1) refl

-- The loop of the compaction, where `xs` are the rows that it has passed.
compact_in-rest :
    (now : ℕ) (id : Str) (p : ℕ) (xs items table : List TodoItem)
    → rows_of id table ≡ xs ++ items
    → NoRepeat (ids (xs ++ items))
    → rows_of id (compact_in now id p items table) ≡ xs ++ compact now p items
unfolding compact_in compact
compact_in-rest now id p xs [] table rows h = rows
compact_in-rest now id p xs (t ∷ ts) table rows h =
    let u : TodoItem = moved now p t in
    let assoc : (xs ++ t ∷ []) ++ ts ≡ xs ++ t ∷ ts = append_assoc xs (t ∷ []) ts in
    let assoc' : (xs ++ u ∷ []) ++ ts ≡ xs ++ u ∷ ts = append_assoc xs (u ∷ []) ts in
    let after : List TodoItem = position_in now id p t.id table in
    let placed : rows_of id after ≡ xs ++ u ∷ ts =
      position_in-mine now id p t.id table
      ∙ ap (set_row now p t.id) rows
      ∙ set_row-at now p xs t ts h in
    let distinct : NoRepeat (ids (xs ++ u ∷ ts)) =
      rw (ids-append xs (u ∷ ts)) (rw (ids-append xs (t ∷ ts)) at h) in
    elim (Bool-cases (t.position == p)) [
      | inl e ↦ rw e (
          compact_in-rest now id (p + 1) (xs ++ t ∷ []) ts table (rows ∙ sym assoc) (rw assoc h)
          ∙ append_assoc xs (t ∷ []) (compact now (p + 1) ts))
      | inr e ↦ rw e (
          compact_in-rest now id (p + 1) (xs ++ u ∷ []) ts after (placed ∙ sym assoc')
            (rw assoc' distinct)
          ∙ append_assoc xs (u ∷ []) (compact now (p + 1) ts))
    ]

-- On the table of all threads' todos, each loop of statements of one thread (the updates, the
-- deletions, the clearing before a replacement, the insertions with their constraints, and the
-- compaction of positions) does to the rows of that thread what the plan operations do to the rows of
-- its plan, and leaves the rows of every other thread as they were. The inserted items are of the
-- thread; the thread's rows have distinct ids and stand in the order of their positions.
pub statements-Partition :
    (now i : ℕ) (id other : Str) (us : List TodoUpdate) (gone : List Str)
    (items table : List TodoItem)
    → other ≢ id
    → All (λ t. t.thread_id ≡ id) items
    → NoRepeat (ids (rows_of id table))
    → load_todos (rows_of id table) ≡ rows_of id table
    → (rows_of id (updates_in now id us table) ≡ apply_updates now us (rows_of id table))
      × (rows_of id (deletes_in id gone table) ≡ delete_ids gone (rows_of id table))
      × (rows_of id (clear_in id table) ≡ [])
      × (rows_in id (insert_in i table items) ≡ insert_todos i (rows_of id table) items)
      × (rows_of id (compact_in now id 1 (load_todos (rows_of id table)) table)
          ≡ compact now 1 (load_todos (rows_of id table)))
      × Kept other table (updates_in now id us table)
      × Kept other table (deletes_in id gone table)
      × Kept other table (clear_in id table)
      × KeptIf other table (insert_in i table items)
      × Kept other table (compact_in now id 1 (load_todos (rows_of id table)) table)
statements-Partition now i id other us gone items table apart mine distinct sorted = (
  updates_in-mine now id us table,
  deletes_in-mine id gone table,
  clear_in-mine id table,
  insert_in-mine id i table items mine,
  rw sorted (compact_in-rest now id 1 [] (rows_of id table) table refl distinct),
  updates_in-Kept now id other us table apart,
  deletes_in-Kept id other gone table apart,
  clear_in-Kept id other table apart,
  insert_in-Kept id other i table items apart mine,
  compact_in-Kept now id other 1 (load_todos (rows_of id table)) table apart,
)
