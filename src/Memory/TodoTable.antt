-- ===== src/Memory/TodoTable.antt =====
-- internal/memory/plan.go: the statements on the `todos` table of migrations/0006_thread_plans.sql, which
-- holds the rows of all threads. The plan of PlanStore has the rows of one thread, `rows_of`.
pub mod Partition
pub mod Statements
use sandbar.Base.{
  ℕ, ◌+◌, Str, str_eq, contains, ◌==◌, if◌then◌else◌, none, some, List, [], ◌∷◌, ◌++◌, not, ◌&&◌,
  ◌||◌,
}
use sandbar.Memory.Todo.{Result, done, error, TodoItem, TodoUpdate, constraint_failed, status_valid}
use sandbar.Memory.Plan.{ids, has_position}

-- `WHERE thread_id = ?`
unfoldable pub rows_of : Str → List TodoItem → List TodoItem
rows_of id [] = []
rows_of id (t ∷ ts) = let rest = rows_of id ts in if str_eq t.thread_id id then t ∷ rest else rest

-- `UPDATE todos` of `UpdateTodos`, and its loop.
unfoldable pub update_in : ℕ → Str → TodoUpdate → List TodoItem → List TodoItem
update_in now id u [] = []
update_in now id u (t ∷ ts) =
    (if str_eq t.thread_id id && str_eq t.id u.id
      then record t {
        content = elim u.content [ none ↦ t.content | some content ↦ content ];
        status = elim u.status [ none ↦ t.status | some status ↦ status ];
        updated_at = now;
      }
      else t)
    ∷ update_in now id u ts

unfoldable pub updates_in : ℕ → Str → List TodoUpdate → List TodoItem → List TodoItem
updates_in now id [] table = table
updates_in now id (u ∷ us) table = updates_in now id us (update_in now id u table)

-- `DELETE FROM todos WHERE thread_id = ? AND id = ?`, and the loop of `DeleteTodos`.
unfoldable pub delete_in : Str → Str → List TodoItem → List TodoItem
delete_in id todo_id [] = []
delete_in id todo_id (t ∷ ts) =
    let rest = delete_in id todo_id ts in
    if str_eq t.thread_id id && str_eq t.id todo_id then rest else t ∷ rest

unfoldable pub deletes_in : Str → List Str → List TodoItem → List TodoItem
deletes_in id [] table = table
deletes_in id (g ∷ gone) table = deletes_in id gone (delete_in id g table)

-- `DELETE FROM todos WHERE thread_id = ?`
unfoldable pub clear_in : Str → List TodoItem → List TodoItem
clear_in id [] = []
clear_in id (t ∷ ts) = let rest = clear_in id ts in if str_eq t.thread_id id then rest else t ∷ rest

-- `UPDATE todos SET position = ?` of `DeleteTodos`, and its loop over the rows that are left.
unfoldable pub position_in : ℕ → Str → ℕ → Str → List TodoItem → List TodoItem
position_in now id position todo_id [] = []
position_in now id position todo_id (t ∷ ts) =
    (if str_eq t.thread_id id && str_eq t.id todo_id
      then record t { position = position; updated_at = now }
      else t)
    ∷ position_in now id position todo_id ts

unfoldable pub compact_in : ℕ → Str → ℕ → List TodoItem → List TodoItem → List TodoItem
compact_in now id position [] table = table
compact_in now id position (item ∷ items) table =
    compact_in now id (position + 1) items
      (if item.position == position then table else position_in now id position item.id table)

-- `insertTodos` under the constraints of the table: (thread_id, id) and (thread_id, position) are
-- unique; the number is the item's, from 1.
unfoldable pub insert_in : ℕ → List TodoItem → List TodoItem → Result (List TodoItem)
insert_in i table [] = done table
insert_in i table (t ∷ ts) =
    let rows = rows_of t.thread_id table in
    if contains t.id (ids rows) || (has_position t.position rows || not (status_valid t.status))
    then error (constraint_failed (i + 1))
    else insert_in (i + 1) (table ++ t ∷ []) ts
