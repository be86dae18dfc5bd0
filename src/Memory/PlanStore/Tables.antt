-- ===== src/Memory/PlanStore/Tables.antt =====
-- Well-formed tables, and the parts of a transaction that keep them so.
use sandbar.Base.{
  ℕ, ◌+◌, Str, str_eq, List, [], ◌∷◌, Option, none, some, lookup, insert, Map, Bool-cases, inl, inr,
}
use sandbar.Memory.Todo.{Result, done, error, ◌>>=◌, TodoItem}
use sandbar.Memory.Holds.{Holds, Holds-bind, Holds-any}
use sandbar.Memory.Plan.{PlanRow, Store}
use sandbar.Memory.PlanStore.{
  new_row, erase, with_plan_write, store_row, write_row, change_row, Write,
}
use sandbar.Memory.PlanStore.Ordered.{RowOrdered}

abbrev pub PlansOrdered : Map PlanRow → Type 0
PlansOrdered [] = Unit
PlansOrdered ((k, row) ∷ plans) = RowOrdered row × PlansOrdered plans

-- In every plan the positions are 1, 2, 3 and so on and the ids distinct.
abbrev pub StoreOrdered : Store → Type 0
StoreOrdered s = PlansOrdered s.plans

-- The tables that a transaction is about to keep.
abbrev pub NewOrdered : Store × List TodoItem → Type 0
NewOrdered out = StoreOrdered out.0

pub insert-PlansOrdered :
    (k : Str) (row : PlanRow) (plans : Map PlanRow)
    → RowOrdered row
    → PlansOrdered plans
    → PlansOrdered (insert k row plans)
unfolding insert
insert-PlansOrdered k row [] h hs = (h, tt)
insert-PlansOrdered k row ((j, old) ∷ plans) h (o, hs) = elim (Bool-cases (str_eq j k)) [
  | inl e ↦ rw (e, PlansOrdered) (h, hs)
  | inr e ↦ rw (e, PlansOrdered) (o, insert-PlansOrdered k row plans h hs)
]

pub erase-PlansOrdered :
    (k : Str) (plans : Map PlanRow) → PlansOrdered plans → PlansOrdered (erase k plans)
unfolding erase
erase-PlansOrdered k [] h = tt
erase-PlansOrdered k ((j, row) ∷ plans) (o, hs) = elim (Bool-cases (str_eq j k)) [
  | inl e ↦ rw (e, PlansOrdered) (erase-PlansOrdered k plans hs)
  | inr e ↦ rw (e, PlansOrdered) (o, erase-PlansOrdered k plans hs)
]

-- The row under a key, if there is one, is well formed.
abbrev Found : Option PlanRow → Type 0
Found none = Unit
Found (some row) = RowOrdered row

lookup-Found : (k : Str) (plans : Map PlanRow) → PlansOrdered plans → Found (lookup k plans)
unfolding lookup
lookup-Found k [] h = tt
lookup-Found k ((j, row) ∷ plans) (o, hs) = elim (Bool-cases (str_eq j k)) [
  | inl e ↦ rw (e, Found) o
  | inr e ↦ rw (e, Found) (lookup-Found k plans hs)
]

pub write-Ordered :
    (s : Store) (f : Store → Result (Store × List TodoItem))
    → StoreOrdered s
    → Holds NewOrdered (f s)
    → StoreOrdered (with_plan_write s f).0
unfolding with_plan_write
write-Ordered s f h out = keep (f s) out
  where
    keep :
        (r : Result (Store × List TodoItem))
        → Holds NewOrdered r
        → StoreOrdered
            (elim r as (λ x. Write) [
              | done (new, items) ↦ (new, done items)
              | error e ↦ (s, error e)
            ]).0
    keep (done (new, items)) o = o
    keep (error e) o = h

pub write_row-Ordered :
    (now : ℕ) (id : Str) (s : Store) (f : PlanRow → Result PlanRow)
    → StoreOrdered s
    → ((row : PlanRow) → RowOrdered row → Holds RowOrdered (f row))
    → Holds NewOrdered (write_row now id s f)
unfolding write_row
write_row-Ordered now id s f h keeps = by_row (lookup id s.plans) (lookup-Found id s.plans h)
  where
    by_row :
        (o : Option PlanRow)
        → Found o
        → Holds NewOrdered (elim o as (λ x. Result (Store × List TodoItem)) [
          | none ↦ f (new_row now) >>= λ row. store_row id s row
          | some row ↦ f row >>= λ new. store_row id s (record new { revision = new.revision + 1 })
        ])
    by_row none found =
        Holds-bind RowOrdered NewOrdered (f (new_row now)) _ (keeps (new_row now) (tt, tt))
          (λ row o. insert-PlansOrdered id row s.plans o h)
    by_row (some row) found =
        Holds-bind RowOrdered NewOrdered (f row) _ (keeps row found)
          (λ new o. insert-PlansOrdered id (record new { revision = new.revision + 1 }) s.plans o h)

pub change_row-Ordered :
    (id : Str) (s : Store) (f : PlanRow → Result PlanRow)
    → StoreOrdered s
    → ((row : PlanRow) → RowOrdered row → Holds RowOrdered (f row))
    → Holds NewOrdered (change_row id s f)
unfolding change_row
change_row-Ordered id s f h keeps = by_row (lookup id s.plans) (lookup-Found id s.plans h)
  where
    by_row :
        (o : Option PlanRow)
        → Found o
        → Holds NewOrdered (elim o as (λ x. Result (Store × List TodoItem)) [
          | none ↦ f (new_row 0) >>= λ row. done (s, [])
          | some row ↦ f row >>= λ new. store_row id s new
        ])
    by_row none found =
        Holds-bind (λ row. Unit {0}) NewOrdered (f (new_row 0)) _ (Holds-any (f (new_row 0)))
          (λ row any. h)
    by_row (some row) found =
        Holds-bind RowOrdered NewOrdered (f row) _ (keeps row found)
          (λ new o. insert-PlansOrdered id new s.plans o h)
