-- ===== src/Memory/Plan.antt =====
-- internal/memory/plan.go: the operations on a thread's plan, on the tables of
-- migrations/0006_thread_plans.sql. A thread's todo rows stand in its plan's row, as in the `Plan` that
-- `loadPlan` returns; TodoTable has the table of all threads' rows and the statements on it. A write is one transaction: on an error the tables are as before.
-- Failures of the database itself are left out, times are seconds.
pub mod Append
use sandbar.Base.{
  ℕ, zero, suc, ◌+◌, ◌-◌, ◌*◌, ◌^◌, max, Str, codes, str_eq, contains, ltb, leb, ◌==◌,
  if◌then◌else◌, Bool, true, false, Option, none, some, List, [], ◌∷◌, ◌++◌, map, not, ◌&&◌, ◌||◌,
  lookup, insert, Map, length, is_nil, is_some,
}
use sandbar.Memory.Todo.{
  PlanError, thread_not_found, plan_exists, no_items, repeated_id, id_too_large, todo_not_found,
  constraint_failed, Result, done, error, ◌>>=◌, TodoItem, TodoUpdate, todo_pending, status_valid,
  max_int64, validate_plan_thread_id, validate_todo_draft, validate_drafts, validate_todo_updates,
  validate_todo_ids, allocate_todo_id, default_status,
}

pub record PlanRow : Type 0 where
  pub revision : ℕ
  pub next_todo_id : ℕ
  pub created_at : ℕ
  pub updated_at : ℕ
  pub todos : List TodoItem

pub record Store : Type 0 where
  pub threads : List Str
  pub plans : Map PlanRow

abbrev pub ids : List TodoItem → List Str
ids items = map (λ t. t.id) items

abbrev pub has_position : ℕ → List TodoItem → Bool
has_position p [] = false
has_position p (t ∷ ts) = (t.position == p) || has_position p ts

-- `ORDER BY t.position ASC` of `loadPlan`; positions are unique, so the ids decide nothing.
unfoldable pub place : TodoItem → List TodoItem → List TodoItem
place t [] = t ∷ []
place t (u ∷ us) = if leb t.position u.position then t ∷ u ∷ us else u ∷ place t us

unfoldable pub load_todos : List TodoItem → List TodoItem
load_todos [] = []
load_todos (t ∷ ts) = place t (load_todos ts)

-- `insertTodos` under the constraints of the table; the number is the item's, from 1.
unfoldable pub insert_todos : ℕ → List TodoItem → List TodoItem → Result (List TodoItem)
insert_todos i rows [] = done rows
insert_todos i rows (t ∷ ts) =
    if contains t.id (ids rows) || (has_position t.position rows || not (status_valid t.status))
    then error (constraint_failed (i + 1))
    else insert_todos (i + 1) (rows ++ t ∷ []) ts

module _ (digits : ℕ → Str) where
  -- The loop of `CreateTodos` that gives every draft an id and a position.
  unfoldable pub allocate_drafts :
      ℕ → Str → ℕ → ℕ → List Str → List TodoItem → Result (List TodoItem × ℕ)
  allocate_drafts now thread_id position next used [] = done ([], next)
  allocate_drafts now thread_id position next used (t ∷ ts) =
      allocate_todo_id digits next used >>= λ got.
      allocate_drafts now thread_id (position + 1) got.1 (used ++ got.0 ∷ []) ts >>= λ rest. done (
        record {
          id = got.0;
          thread_id = thread_id;
          content = t.content;
          status = default_status t.status;
          position = position;
          created_at = now;
          updated_at = now;
        }
            ∷ rest.0,
        rest.1,
      )

  -- What `CreateTodos` does to the row of the plan, before the revision is set.
  unfoldable pub append_todos : ℕ → Str → PlanRow → List TodoItem → Result PlanRow
  append_todos now thread_id row drafts =
      let items = load_todos row.todos in
      allocate_drafts now thread_id (length items + 1) row.next_todo_id (ids items) drafts
      >>= λ got. insert_todos 0 row.todos got.0 >>= λ rows.
          done (record row { todos = rows; next_todo_id = got.1; updated_at = now })

module _ (trim : Str → Str) (digits : ℕ → Str) (parse_int : Str → Option ℕ) where
  -- The id of a draft raises `finalNext` past its number.
  unfoldable pub raise_next : ℕ → Str → ℕ → Result ℕ
  raise_next index id final = elim (parse_int id) [
    | none ↦ done final
    | some n ↦
        if n == max_int64
        then error (id_too_large (index + 1))
        else if leb final n && ltb 0 n
        then done (n + 1)
        else done final
  ]

  -- The first loop of `prepareReplacement`: the drafts, `used` and `finalNext`.
  unfoldable pub check_replacement :
      Str → ℕ → List Str → ℕ → List TodoItem → Result (List TodoItem × (List Str × ℕ))
  check_replacement thread_id index used final [] = done ([], (used, final))
  check_replacement thread_id index used final (t ∷ ts) =
      validate_todo_draft trim thread_id index t >>= λ draft.
      let blank = check_replacement thread_id (index + 1) used final ts in
      let named =
        (raise_next index (trim t.id) final >>= λ next.
        check_replacement thread_id (index + 1) (used ++ trim t.id ∷ []) next ts) in
      (if str_eq (trim t.id) []
        then blank
        else if contains (trim t.id) used
        then error (repeated_id (index + 1))
        else named)
      >>= λ rest. done (draft ∷ rest.0, rest.1)

  unfoldable pub created_time : ℕ → Str → List TodoItem → ℕ
  created_time now id [] = now
  created_time now id (t ∷ ts) = if str_eq t.id id then t.created_at else created_time now id ts

  abbrev pub prepared_item : ℕ → Str → ℕ → List TodoItem → TodoItem → Str → TodoItem
  prepared_item now thread_id position current t id = record {
    id = id;
    thread_id = thread_id;
    content = t.content;
    status = default_status t.status;
    position = position;
    created_at = created_time now id current;
    updated_at = now;
  }

  -- The second loop; `next` is `allocationNext`, and the last component is the final one.
  unfoldable pub assign_ids :
      ℕ → Str → ℕ → List TodoItem → ℕ → List Str → List TodoItem → Result (List TodoItem × ℕ)
  assign_ids now thread_id position current next used [] = done ([], next)
  assign_ids now thread_id position current next used (t ∷ ts) =
      let named =
        (assign_ids now thread_id (position + 1) current next used ts >>= λ rest.
        done (prepared_item now thread_id position current t (trim t.id) ∷ rest.0, rest.1)) in
      let blank =
        (allocate_todo_id digits next used >>= λ got.
        assign_ids now thread_id (position + 1) current got.1 (used ++ got.0 ∷ []) ts >>= λ rest.
        done (prepared_item now thread_id position current t got.0 ∷ rest.0, rest.1)) in
      if str_eq (trim t.id) [] then blank else named

  -- `prepareReplacement`; `current` holds the creation times by id.
  unfoldable pub prepare_replacement :
      Str → List TodoItem → ℕ → List TodoItem → ℕ → Result (List TodoItem × ℕ)
  prepare_replacement thread_id items next current now =
      check_replacement thread_id 0 [] (max next 1) items >>= λ checked.
      assign_ids now thread_id 1 current (max next 1) checked.1.0 checked.0 >>= λ got.
      done (got.0, max got.1 checked.1.1)

  -- What `ReplaceTodos` does to a row: the old todos are deleted first.
  unfoldable pub replace_row : ℕ → Str → PlanRow → List TodoItem → Result PlanRow
  replace_row now thread_id row items =
      prepare_replacement thread_id items row.next_todo_id (load_todos row.todos) now >>= λ got.
      insert_todos 0 [] got.0 >>= λ rows.
      done (record row { todos = rows; next_todo_id = got.1; updated_at = now })
