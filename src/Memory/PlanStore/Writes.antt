-- ===== src/Memory/PlanStore/Writes.antt =====
-- Every exported write keeps all plans well formed.
use sandbar.Base.{ℕ, Str, List, [], ◌∷◌, if◌then◌else◌, Option, lookup, is_nil, is_some}
use sandbar.Memory.Todo.{
  no_items, Result, done, error, TodoItem, TodoUpdate, validate_drafts, validate_plan_thread_id,
  validate_todo_updates, validate_todo_ids,
}
use sandbar.Memory.Holds.{Holds, Holds-bind, Holds-any, Holds-if}
use sandbar.Memory.Plan.{PlanRow, Store, insert_todos, prepare_replacement, append_todos}
use sandbar.Memory.Plan.Append.{Ordered, Validated, Appends, append_todos-Appends}
use sandbar.Memory.PlanStore.{
  require_plan_thread, prepare_plan, create_plan, delete_plan, create_todos, replace_todos,
  update_todos, delete_todos,
}
use sandbar.Memory.PlanStore.Drafts.{drafts-Validated}
use sandbar.Memory.PlanStore.Ordered.{
  RowOrdered, update_row-Ordered, delete_row-Ordered, Counted, prepare-Counted, insert-Ordered,
  replace_row-Ordered,
}
use sandbar.Memory.PlanStore.Tables.{
  StoreOrdered, NewOrdered, insert-PlansOrdered, erase-PlansOrdered, write-Ordered,
  write_row-Ordered, change_row-Ordered,
}

append-Ordered :
    (digits : ℕ → Str) (now : ℕ) (id : Str) (drafts : List TodoItem)
    → Validated drafts
    → (row : PlanRow) → RowOrdered row
    → Holds RowOrdered (append_todos digits now id row drafts)
append-Ordered digits now id drafts v row h =
    weaken (append_todos digits now id row drafts)
      (append_todos-Appends digits now id row drafts h v)
  where
    weaken : (r : Result PlanRow) → Appends now id row drafts r → Holds RowOrdered r
    weaken (done new) a = a.0
    weaken (error e) a = tt

module _ (trim : Str → Str) (digits : ℕ → Str) (parse_int : Str → Option ℕ) (now : ℕ) (s : Store)
    (thread_id : Str) where
  pub create_todos-Ordered :
      (items : List TodoItem)
      → StoreOrdered s
      → StoreOrdered (create_todos trim digits parse_int now s thread_id items).0
  unfolding create_todos
  create_todos-Ordered items h = write-Ordered s _ h (
      Holds-bind (λ id. Unit {0}) NewOrdered (validate_plan_thread_id trim thread_id) _
        (Holds-any (validate_plan_thread_id trim thread_id))
        (λ id any.
          Holds-bind Validated NewOrdered
            (if is_nil items then error no_items else validate_drafts trim id 0 items) _
            (checked id items)
            (λ drafts v.
              Holds-bind (λ u. Unit {0}) NewOrdered (require_plan_thread id s) _
                (Holds-any (require_plan_thread id s))
                (λ u known.
                  write_row-Ordered now id s _ h (append-Ordered digits now id drafts v)))))
    where
      checked :
          (id : Str) (items : List TodoItem)
          → Holds Validated
              (if is_nil items then error no_items else validate_drafts trim id 0 items)
      checked id [] = tt
      checked id (t ∷ ts) = drafts-Validated trim id 0 (t ∷ ts)

  pub replace_todos-Ordered :
      (items : List TodoItem)
      → StoreOrdered s
      → StoreOrdered (replace_todos trim digits parse_int now s thread_id items).0
  unfolding replace_todos
  replace_todos-Ordered items h = write-Ordered s _ h (
      Holds-bind (λ id. Unit {0}) NewOrdered (validate_plan_thread_id trim thread_id) _
        (Holds-any (validate_plan_thread_id trim thread_id))
        (λ id any.
          Holds-bind (λ u. Unit {0}) NewOrdered (require_plan_thread id s) _
            (Holds-any (require_plan_thread id s))
            (λ u known.
              write_row-Ordered now id s _ h
                (λ row o. replace_row-Ordered trim digits parse_int now id row items))))

  pub update_todos-Ordered :
      (us : List TodoUpdate)
      → StoreOrdered s
      → StoreOrdered (update_todos trim digits parse_int now s thread_id us).0
  unfolding update_todos
  update_todos-Ordered us h = write-Ordered s _ h (
      Holds-bind (λ id. Unit {0}) NewOrdered (validate_plan_thread_id trim thread_id) _
        (Holds-any (validate_plan_thread_id trim thread_id))
        (λ id any.
          Holds-bind (λ u. Unit {0}) NewOrdered (validate_todo_updates trim us) _
            (Holds-any (validate_todo_updates trim us))
            (λ clean known.
              change_row-Ordered id s _ h (λ row o. update_row-Ordered now row clean o))))

  pub delete_todos-Ordered :
      (gone : List Str)
      → StoreOrdered s
      → StoreOrdered (delete_todos trim digits parse_int now s thread_id gone).0
  unfolding delete_todos
  delete_todos-Ordered gone h = write-Ordered s _ h (
      Holds-bind (λ id. Unit {0}) NewOrdered (validate_plan_thread_id trim thread_id) _
        (Holds-any (validate_plan_thread_id trim thread_id))
        (λ id any.
          Holds-bind (λ u. Unit {0}) NewOrdered (validate_todo_ids trim gone) _
            (Holds-any (validate_todo_ids trim gone))
            (λ clean known.
              change_row-Ordered id s _ h (λ row o. delete_row-Ordered now row clean o))))

  pub delete_plan-Ordered :
      StoreOrdered s → StoreOrdered (delete_plan trim digits parse_int s thread_id).0
  unfolding delete_plan
  delete_plan-Ordered h = write-Ordered s _ h (
      Holds-bind (λ id. Unit {0}) NewOrdered (validate_plan_thread_id trim thread_id) _
        (Holds-any (validate_plan_thread_id trim thread_id))
        (λ id any. erase-PlansOrdered id s.plans h))

  prepare_plan-Counted :
      (items : List TodoItem)
      → Holds (λ p. Counted 1 p.1) (prepare_plan trim digits parse_int now thread_id items)
  unfolding prepare_plan
  prepare_plan-Counted items = by_id (validate_plan_thread_id trim thread_id)
    where
      Prepared : Str × (List TodoItem × ℕ) → Type 0
      Prepared p = Counted 1 p.1

      of_items :
          (id : Str) (r : Result (List TodoItem × ℕ))
          → Holds (Counted 1) r
          → Holds Prepared (elim r as (λ x. Result (Str × (List TodoItem × ℕ))) [
            | done got ↦ done (id, got)
            | error e ↦ error e
          ])
      of_items id (done got) c = c
      of_items id (error e) c = tt

      by_id :
          (r : Result Str)
          → Holds Prepared (elim r as (λ x. Result (Str × (List TodoItem × ℕ))) [
            | done id ↦
                elim (prepare_replacement trim digits parse_int id items 1 [] now)
                  as (λ x. Result (Str × (List TodoItem × ℕ))) [
                    | done got ↦ done (id, got)
                    | error e ↦ error e
                  ]
            | error e ↦ error e
          ])
      by_id (error e) = tt
      by_id (done id) =
          of_items id (prepare_replacement trim digits parse_int id items 1 [] now)
            (prepare-Counted trim digits parse_int id items 1 [] now)

  pub create_plan-Ordered :
      (items : List TodoItem)
      → StoreOrdered s
      → StoreOrdered (create_plan trim digits parse_int now s thread_id items).0
  unfolding create_plan
  create_plan-Ordered items h = write-Ordered s _ h (
      Holds-bind (λ p. Counted 1 p.1) NewOrdered
        (prepare_plan trim digits parse_int now thread_id items) _ (prepare_plan-Counted items)
        (λ p c.
          Holds-bind (λ u. Unit {0}) NewOrdered (require_plan_thread p.0 s) _
            (Holds-any (require_plan_thread p.0 s))
            (λ u known.
              Holds-if NewOrdered (is_some (lookup p.0 s.plans)) _ _ (λ e. tt)
                (λ e.
                  Holds-bind Ordered NewOrdered (insert_todos 0 [] p.1.0) _
                    (insert-Ordered trim digits parse_int p.1 c)
                    (λ rows o. insert-PlansOrdered p.0 _ s.plans o h)))))
