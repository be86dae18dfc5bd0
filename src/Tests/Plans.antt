-- ===== src/Tests/Plans.antt =====
-- A plan with two items.
use sandbar.Base.{
  ℕ, suc, zero, Str, codes, List, [], ◌∷◌, Option, none, some, ◌≡◌, ◌≢◌, refl, contains, str_eq,
}
use sandbar.Memory.Todo.{TodoItem, TodoUpdate}
use sandbar.Memory.Plan.{PlanRow, Store, insert_todos, load_todos, place}
use sandbar.Memory.PlanStore.{create_todos, delete_todos, apply_updates, delete_ids, compact}
use sandbar.Memory.PlanStore.Reachable.{start, created_todos, deleted_todos, reachable-Ordered}
use sandbar.Memory.PlanStore.Tables.{StoreOrdered}
use sandbar.Memory.TodoTable.{rows_of, updates_in, deletes_in, clear_in, compact_in, insert_in}
use sandbar.Memory.TodoTable.Partition.{rows_in, Kept, KeptIf}
use sandbar.Memory.TodoTable.Statements.{statements-Partition}

-- Strings without white space, and numbers in unary.
abbrev same_text : Str → Str
same_text s = s

abbrev tally : ℕ → Str
tally zero = []
tally (suc n) = 49 ∷ tally n

abbrev no_number : Str → Option ℕ
no_number s = none

abbrev todo : Str → Str → ℕ → TodoItem
todo id content position = record {
  id = id;
  thread_id = [];
  content = content;
  status = codes "pending";
  position = position;
  created_at = 0;
  updated_at = 0;
}

abbrev plan : PlanRow
plan = record {
  revision = 1;
  next_todo_id = 3;
  created_at = 0;
  updated_at = 0;
  todos = todo (tally 1) (codes "read") 1 ∷ todo (tally 2) (codes "write") 2 ∷ [];
}

abbrev draft : TodoItem
draft = todo [] (codes "test") 0

abbrev empty_store : Store
empty_store = record { threads = codes "t" ∷ []; plans = [] }

abbrev one_todo : Store
one_todo = (create_todos same_text tally no_number 5 empty_store (codes "t") (draft ∷ [])).0

reachable-Ordered_example :
    StoreOrdered (delete_todos same_text tally no_number 6 one_todo (codes "t") (tally 1 ∷ [])).0
reachable-Ordered_example =
    reachable-Ordered same_text tally no_number
      (delete_todos same_text tally no_number 6 one_todo (codes "t") (tally 1 ∷ [])).0
      (deleted_todos one_todo 6 (codes "t") (tally 1 ∷ [])
        (created_todos empty_store 5 (codes "t") (draft ∷ []) (start (codes "t" ∷ []))))

-- The rows of two threads in one table.
abbrev of_thread : Str → TodoItem → TodoItem
of_thread id t = record t { thread_id = id }

abbrev both : List TodoItem
both =
    of_thread (codes "t") (todo (codes "1") (codes "read") 1)
    ∷ of_thread (codes "tu") (todo (codes "1") (codes "plan") 1)
    ∷ of_thread (codes "t") (todo (codes "2") (codes "write") 3)
    ∷ []

abbrev new_item : TodoItem
new_item = of_thread (codes "t") (todo (codes "3") (codes "test") 2)

abbrev rename_first : TodoUpdate
rename_first = record { id = codes "1"; content = some (codes "skim"); status = none }

tu_is_not_t : codes "tu" ≢ codes "t"
tu_is_not_t = λ e. cc

statements-Partition_example :
    (rows_of (codes "t") (updates_in 5 (codes "t") (rename_first ∷ []) both)
      ≡ apply_updates 5 (rename_first ∷ []) (rows_of (codes "t") both))
    × (rows_of (codes "t") (deletes_in (codes "t") (codes "1" ∷ []) both)
        ≡ delete_ids (codes "1" ∷ []) (rows_of (codes "t") both))
    × (rows_of (codes "t") (clear_in (codes "t") both) ≡ [])
    × (rows_in (codes "t") (insert_in 0 both (new_item ∷ []))
        ≡ insert_todos 0 (rows_of (codes "t") both) (new_item ∷ []))
    × (rows_of (codes "t") (compact_in 5 (codes "t") 1 (load_todos (rows_of (codes "t") both)) both)
        ≡ compact 5 1 (load_todos (rows_of (codes "t") both)))
    × Kept (codes "tu") both (updates_in 5 (codes "t") (rename_first ∷ []) both)
    × Kept (codes "tu") both (deletes_in (codes "t") (codes "1" ∷ []) both)
    × Kept (codes "tu") both (clear_in (codes "t") both)
    × KeptIf (codes "tu") both (insert_in 0 both (new_item ∷ []))
    × Kept
        (codes "tu")
        both
        (compact_in 5 (codes "t") 1 (load_todos (rows_of (codes "t") both)) both)
unfolding rows_of load_todos place contains str_eq
statements-Partition_example =
    statements-Partition 5 0 (codes "t") (codes "tu") (rename_first ∷ []) (codes "1" ∷ [])
      (new_item ∷ []) both tu_is_not_t (refl, tt) (refl, (refl, tt)) refl
