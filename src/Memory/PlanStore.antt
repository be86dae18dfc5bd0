-- ===== src/Memory/PlanStore.antt =====
-- internal/memory/plan.go: the exported operations, each one transaction on the tables.
pub mod Compact
pub mod Ordered
mod Drafts
pub mod Tables
pub mod Reachable
pub mod Writes
use sandbar.Base.{
  ℕ, zero, suc, ◌+◌, ◌-◌, ◌*◌, ◌^◌, max, Str, codes, str_eq, contains, ltb, leb, ◌==◌,
  if◌then◌else◌, Bool, true, false, Option, none, some, List, [], ◌∷◌, ◌++◌, map, not, ◌&&◌, ◌||◌,
  lookup, insert, Map, length, is_nil, is_some,
}
use sandbar.Memory.Todo.{
  PlanError, thread_not_found, plan_exists, no_items, repeated_id, id_too_large, todo_not_found,
  constraint_failed, Result, done, error, ◌>>=◌, TodoItem, TodoUpdate, todo_pending, status_valid,
  max_int64, validate_plan_thread_id, validate_todo_draft, validate_drafts, validate_todo_updates,
  validate_todo_ids, allocate_todo_id, default_status,
}
use sandbar.Memory.Plan.{
  PlanRow, Store, ids, load_todos, insert_todos, append_todos, prepare_replacement, replace_row,
}

-- A row's patch: `COALESCE` keeps what the update leaves out.
unfoldable pub apply_update : ℕ → TodoUpdate → List TodoItem → List TodoItem
apply_update now u [] = []
apply_update now u (t ∷ ts) =
    (if str_eq t.id u.id
      then record t {
        content = elim u.content [ none ↦ t.content | some content ↦ content ];
        status = elim u.status [ none ↦ t.status | some status ↦ status ];
        updated_at = now;
      }
      else t)
    ∷ apply_update now u ts

unfoldable pub apply_updates : ℕ → List TodoUpdate → List TodoItem → List TodoItem
apply_updates now [] rows = rows
apply_updates now (u ∷ us) rows = apply_updates now us (apply_update now u rows)

-- The first id that the plan lacks is reported.
unfoldable pub require_ids : List Str → List Str → Result (Unit {0})
require_ids known [] = done tt
require_ids known (id ∷ rest) =
    if contains id known then require_ids known rest else error (todo_not_found id)

-- `DELETE FROM todos WHERE thread_id = ? AND id = ?` for every id.
unfoldable pub delete_ids : List Str → List TodoItem → List TodoItem
delete_ids gone [] = []
delete_ids gone (t ∷ ts) =
    let rest = delete_ids gone ts in if contains t.id gone then rest else t ∷ rest

-- The loop that compacts positions, on the rows in order.
unfoldable pub compact : ℕ → ℕ → List TodoItem → List TodoItem
compact now position [] = []
compact now position (t ∷ ts) =
    (if t.position == position then t else record t { position = position; updated_at = now })
    ∷ compact now (position + 1) ts

abbrev pub advance : ℕ → PlanRow → List TodoItem → PlanRow
advance now row rows = record row { revision = row.revision + 1; updated_at = now; todos = rows }

-- What `UpdateTodos` and `DeleteTodos` do to a row.
unfoldable pub update_row : ℕ → PlanRow → List TodoUpdate → Result PlanRow
update_row now row us = require_ids (ids (load_todos row.todos)) (map (λ u. u.id) us) >>= λ checked.
    done (advance now row (apply_updates now us row.todos))

unfoldable pub delete_row : ℕ → PlanRow → List Str → Result PlanRow
delete_row now row gone = require_ids (ids (load_todos row.todos)) gone >>= λ checked.
    done (advance now row (compact now 1 (load_todos (delete_ids gone row.todos))))

-- A plan that is made on demand.
abbrev pub new_row : ℕ → PlanRow
new_row now = record {
  revision = 1;
  next_todo_id = 1;
  created_at = now;
  updated_at = now;
  todos = [];
}

abbrev pub put : Str → PlanRow → Store → Store
put thread_id row s = record s { plans = insert thread_id row s.plans }

unfoldable pub erase : Str → Map PlanRow → Map PlanRow
erase k [] = []
erase k ((j, row) ∷ plans) =
    let rest = erase k plans in if str_eq j k then rest else (j, row) ∷ rest

-- `withPlanWrite`: the new tables are kept on success only.
abbrev pub Write : Type 0
Write = Store × Result (List TodoItem)

unfoldable pub with_plan_write : Store → (Store → Result (Store × List TodoItem)) → Write
with_plan_write s f = elim (f s) [ done (new, items) ↦ (new, done items) | error e ↦ (s, error e) ]

unfoldable pub require_plan_thread : Str → Store → Result (Unit {0})
require_plan_thread thread_id s =
    if contains thread_id s.threads then done tt else error thread_not_found

-- The row that a write leaves, with the todos that it returns.
abbrev pub store_row : Str → Store → PlanRow → Result (Store × List TodoItem)
store_row thread_id s row = done (put thread_id row s, load_todos row.todos)

-- A write that makes a missing plan, and raises the revision of one that was there.
unfoldable pub write_row :
    ℕ → Str → Store → (PlanRow → Result PlanRow) → Result (Store × List TodoItem)
write_row now thread_id s f = elim (lookup thread_id s.plans) [
  | none ↦ f (new_row now) >>= λ row. store_row thread_id s row
  | some row ↦ f row >>= λ new. store_row thread_id s (record new { revision = new.revision + 1 })
]

-- The rows of a missing plan are none, so every id is unknown to it.
unfoldable pub change_row :
    Str → Store → (PlanRow → Result PlanRow) → Result (Store × List TodoItem)
change_row thread_id s f = elim (lookup thread_id s.plans) [
  | none ↦ f (new_row 0) >>= λ row. done (s, [])
  | some row ↦ f row >>= λ new. store_row thread_id s new
]

module _ (trim : Str → Str) (digits : ℕ → Str) (parse_int : Str → Option ℕ) where
  -- What `CreatePlan` does before its transaction.
  unfoldable pub prepare_plan : ℕ → Str → List TodoItem → Result (Str × (List TodoItem × ℕ))
  prepare_plan now thread_id items = elim (validate_plan_thread_id trim thread_id) [
    | error e ↦ error e
    | done id ↦ elim (prepare_replacement trim digits parse_int id items 1 [] now) [
      | error e ↦ error e
      | done got ↦ done (id, got)
    ]
  ]

  -- `CreatePlan`
  unfoldable pub create_plan : ℕ → Store → Str → List TodoItem → Write
  create_plan now s thread_id items = with_plan_write s (λ tables.
      prepare_plan now thread_id items >>= λ p. require_plan_thread p.0 tables >>= λ known.
      (if is_some (lookup p.0 tables.plans)
        then error plan_exists
        else (insert_todos 0 [] p.1.0 >>= λ rows.
            store_row p.0 tables (record (new_row now) { next_todo_id = p.1.1; todos = rows }))))

  -- `GetPlan`
  unfoldable pub get_plan : Store → Str → Result (Option PlanRow)
  get_plan s thread_id = validate_plan_thread_id trim thread_id >>= λ id.
      done (elim (lookup id s.plans) [
        | none ↦ none
        | some row ↦ some (record row { todos = load_todos row.todos })
      ])

  -- `ListTodos`
  unfoldable pub list_todos : Store → Str → Result (List TodoItem)
  list_todos s thread_id =
      get_plan s thread_id >>= λ plan. done (elim plan [ none ↦ [] | some row ↦ row.todos ])

  -- `DeletePlan`
  unfoldable pub delete_plan : Store → Str → Write
  delete_plan s thread_id = with_plan_write s (λ tables.
      validate_plan_thread_id trim thread_id >>= λ id.
      done (record tables { plans = erase id tables.plans }, []))

  -- `CreateTodos`
  unfoldable pub create_todos : ℕ → Store → Str → List TodoItem → Write
  create_todos now s thread_id items = with_plan_write s (λ tables.
      validate_plan_thread_id trim thread_id >>= λ id.
      (if is_nil items then error no_items else validate_drafts trim id 0 items) >>= λ drafts.
      require_plan_thread id tables >>= λ known.
      write_row now id tables (λ row. append_todos digits now id row drafts))

  -- `ReplaceTodos`
  unfoldable pub replace_todos : ℕ → Store → Str → List TodoItem → Write
  replace_todos now s thread_id items = with_plan_write s (λ tables.
      validate_plan_thread_id trim thread_id >>= λ id. require_plan_thread id tables >>= λ known.
      write_row now id tables (λ row. replace_row trim digits parse_int now id row items))

  -- `UpdateTodos`
  unfoldable pub update_todos : ℕ → Store → Str → List TodoUpdate → Write
  update_todos now s thread_id updates = with_plan_write s (λ tables.
      validate_plan_thread_id trim thread_id >>= λ id.
      validate_todo_updates trim updates >>= λ clean.
      change_row id tables (λ row. update_row now row clean))

  -- `DeleteTodos`
  unfoldable pub delete_todos : ℕ → Store → Str → List Str → Write
  delete_todos now s thread_id gone = with_plan_write s (λ tables.
      validate_plan_thread_id trim thread_id >>= λ id. validate_todo_ids trim gone >>= λ clean.
      change_row id tables (λ row. delete_row now row clean))
