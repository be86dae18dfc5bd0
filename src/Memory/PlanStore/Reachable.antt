-- ===== src/Memory/PlanStore/Reachable.antt =====
-- The tables that the writes of internal/memory/plan.go can lead to.
use sandbar.Base.{ℕ, Str, List, [], Option}
use sandbar.Memory.Todo.{TodoItem, TodoUpdate}
use sandbar.Memory.Plan.{Store}
use sandbar.Memory.PlanStore.{
  create_plan, delete_plan, create_todos, replace_todos, update_todos, delete_todos,
}
use sandbar.Memory.PlanStore.Tables.{StoreOrdered}
use sandbar.Memory.PlanStore.Writes.{
  create_plan-Ordered, delete_plan-Ordered, create_todos-Ordered, replace_todos-Ordered,
  update_todos-Ordered, delete_todos-Ordered,
}

module _ (trim : Str → Str) (digits : ℕ → Str) (parse_int : Str → Option ℕ) where
  -- A sequence of writes, failed ones included, from tables without a plan.
  pub data Reachable : Store → Type 0 where
    start : (threads : List Str) → Reachable (record { threads = threads; plans = [] })
    created_plan :
        (s : Store) (now : ℕ) (id : Str) (items : List TodoItem)
        → Reachable s
        → Reachable (create_plan trim digits parse_int now s id items).0
    deleted_plan :
        (s : Store) (id : Str) → Reachable s → Reachable (delete_plan trim digits parse_int s id).0
    created_todos :
        (s : Store) (now : ℕ) (id : Str) (items : List TodoItem)
        → Reachable s
        → Reachable (create_todos trim digits parse_int now s id items).0
    replaced_todos :
        (s : Store) (now : ℕ) (id : Str) (items : List TodoItem)
        → Reachable s
        → Reachable (replace_todos trim digits parse_int now s id items).0
    updated_todos :
        (s : Store) (now : ℕ) (id : Str) (us : List TodoUpdate)
        → Reachable s
        → Reachable (update_todos trim digits parse_int now s id us).0
    deleted_todos :
        (s : Store) (now : ℕ) (id : Str) (gone : List Str)
        → Reachable s
        → Reachable (delete_todos trim digits parse_int now s id gone).0

-- After any sequence of the six writes, failed ones included, from tables without a plan, the items
-- of every plan have the positions 1, 2, 3 and so on, and no id stands twice in a plan.
pub reachable-Ordered :
    (trim : Str → Str) (digits : ℕ → Str) (parse_int : Str → Option ℕ) (s : Store)
    → Reachable trim digits parse_int s
    → StoreOrdered s
reachable-Ordered trim digits parse_int _ (start threads) = tt
reachable-Ordered trim digits parse_int _ (created_plan s now id items r) =
    create_plan-Ordered trim digits parse_int now s id items
      (reachable-Ordered trim digits parse_int s r)
reachable-Ordered trim digits parse_int _ (deleted_plan s id r) =
    delete_plan-Ordered trim digits parse_int 0 s id (reachable-Ordered trim digits parse_int s r)
reachable-Ordered trim digits parse_int _ (created_todos s now id items r) =
    create_todos-Ordered trim digits parse_int now s id items
      (reachable-Ordered trim digits parse_int s r)
reachable-Ordered trim digits parse_int _ (replaced_todos s now id items r) =
    replace_todos-Ordered trim digits parse_int now s id items
      (reachable-Ordered trim digits parse_int s r)
reachable-Ordered trim digits parse_int _ (updated_todos s now id us r) =
    update_todos-Ordered trim digits parse_int now s id us
      (reachable-Ordered trim digits parse_int s r)
reachable-Ordered trim digits parse_int _ (deleted_todos s now id gone r) =
    delete_todos-Ordered trim digits parse_int now s id gone
      (reachable-Ordered trim digits parse_int s r)
