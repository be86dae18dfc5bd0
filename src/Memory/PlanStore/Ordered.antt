-- ===== src/Memory/PlanStore/Ordered.antt =====
-- What the writes do to one plan keeps it well formed.
use sandbar.Base.{
  ℕ, ◌+◌, Str, str_eq, contains, false, List, [], ◌∷◌, Option, ◌++◌, map, ◌||◌, not, ◌≡◌, refl, sym,
  ap, ◌∙◌, arith, Bool-cases, inl, inr, max, append_assoc, append-nil,
}
use sandbar.Memory.Todo.{Result, done, error, TodoItem, TodoUpdate, status_valid, allocate_todo_id}
use sandbar.Memory.Holds.{Holds, Holds-bind, Holds-any}
use sandbar.Memory.Plan.{
  PlanRow, ids, has_position, insert_todos, assign_ids, prepare_replacement, check_replacement,
  replace_row, load_todos,
}
use sandbar.Memory.Plan.Append.{Numbered, NoRepeat, Ordered, NoRepeat-append, ids-append}
use sandbar.Memory.PlanStore.{
  advance, apply_update, apply_updates, require_ids, update_row, delete_row,
}
use sandbar.Memory.PlanStore.Compact.{Deletes, delete_row-Deletes}

-- What the table accepts goes to its end, and its ids stay distinct.
abbrev Accepted : List TodoItem → List TodoItem → Result (List TodoItem) → Type 0
Accepted rows ts (done new) = (new ≡ rows ++ ts) × NoRepeat (ids new)
Accepted rows ts (error e) = Unit

insert_todos-Accepted :
    (i : ℕ) (rows ts : List TodoItem)
    → NoRepeat (ids rows)
    → Accepted rows ts (insert_todos i rows ts)
unfolding insert_todos
insert_todos-Accepted i rows [] h = (sym (append-nil rows), h)
insert_todos-Accepted i rows (t ∷ ts) h =
    elim (Bool-cases
      (contains t.id (ids rows) || (has_position t.position rows || not (status_valid t.status)))) [
        | inl e ↦ rw (e, Accepted) tt
        | inr e ↦
            let new : contains t.id (ids rows) ≡ false = ground arith in
            let assoc : (rows ++ t ∷ []) ++ ts ≡ rows ++ t ∷ ts = append_assoc rows (t ∷ []) ts in
            let more : NoRepeat (ids (rows ++ t ∷ [])) =
              rw (ids-append rows (t ∷ [])) (NoRepeat-append (ids rows) t.id h new) in
            let rest = insert_todos-Accepted (i + 1) (rows ++ t ∷ []) ts more in
            rw e (shift assoc (insert_todos (i + 1) (rows ++ t ∷ []) ts) rest)
      ]
  where
    shift :
        (rows ++ t ∷ []) ++ ts ≡ rows ++ t ∷ ts
        → (r : Result (List TodoItem)) → Accepted (rows ++ t ∷ []) ts r
        → Accepted rows (t ∷ ts) r
    shift assoc (done new) (same, distinct) = (same ∙ assoc, distinct)
    shift assoc (error e) a = tt

Numbered-update :
    (now p : ℕ) (u : TodoUpdate) (ts : List TodoItem)
    → Numbered p ts
    → Numbered p (apply_update now u ts)
unfolding apply_update
Numbered-update now p u [] h = tt
Numbered-update now p u (t ∷ ts) (h, hs) = elim (Bool-cases (str_eq t.id u.id)) [
  | inl e ↦ rw e (h, Numbered-update now (p + 1) u ts hs)
  | inr e ↦ rw e (h, Numbered-update now (p + 1) u ts hs)
]

ids-update : (now : ℕ) (u : TodoUpdate) (ts : List TodoItem) → ids (apply_update now u ts) ≡ ids ts
unfolding apply_update
ids-update now u [] = refl
ids-update now u (t ∷ ts) = elim (Bool-cases (str_eq t.id u.id)) [
  | inl e ↦ rw e (ap (◌∷◌ t.id) (ids-update now u ts))
  | inr e ↦ rw e (ap (◌∷◌ t.id) (ids-update now u ts))
]

Ordered-updates :
    (now : ℕ) (us : List TodoUpdate) (ts : List TodoItem)
    → Ordered ts
    → Ordered (apply_updates now us ts)
unfolding apply_updates
Ordered-updates now [] ts h = h
Ordered-updates now (u ∷ us) ts (num, norep) =
    Ordered-updates now us (apply_update now u ts)
      (Numbered-update now 1 u ts num, rw (ids-update now u ts) norep)

-- A row that an operation returns is well formed.
abbrev pub RowOrdered : PlanRow → Type 0
RowOrdered row = Ordered row.todos

pub update_row-Ordered :
    (now : ℕ) (row : PlanRow) (us : List TodoUpdate)
    → RowOrdered row
    → Holds RowOrdered (update_row now row us)
unfolding update_row
update_row-Ordered now row us h =
    Holds-bind (λ u. Unit {0}) RowOrdered
      (require_ids (ids (load_todos row.todos)) (map (λ u. u.id) us))
      (λ checked. done (advance now row (apply_updates now us row.todos)))
      (Holds-any (require_ids (ids (load_todos row.todos)) (map (λ u. u.id) us)))
      (λ u any. Ordered-updates now us row.todos h)

pub delete_row-Ordered :
    (now : ℕ) (row : PlanRow) (gone : List Str)
    → RowOrdered row
    → Holds RowOrdered (delete_row now row gone)
delete_row-Ordered now row gone h =
    weaken (delete_row now row gone) (delete_row-Deletes now row gone h)
  where
    weaken : (r : Result PlanRow) → Deletes row gone r → Holds RowOrdered r
    weaken (done new) d = d.0
    weaken (error e) d = tt

abbrev pub Counted : ℕ → List TodoItem × ℕ → Type 0
Counted p got = Numbered p got.0

module _ (trim : Str → Str) (digits : ℕ → Str) (parse_int : Str → Option ℕ) where
  assign_ids-Counted :
      (now : ℕ) (thread_id : Str) (p : ℕ) (current : List TodoItem) (next : ℕ) (used : List Str)
      (ts : List TodoItem)
      → Holds (Counted p) (assign_ids trim digits parse_int now thread_id p current next used ts)
  unfolding assign_ids
  assign_ids-Counted now thread_id p current next used [] = tt
  assign_ids-Counted now thread_id p current next used (t ∷ ts) =
      elim (Bool-cases (str_eq (trim t.id) [])) [
        | inl e ↦ rw e (
            Holds-bind (λ got. Unit {0}) (Counted p) (allocate_todo_id digits next used) _
              (Holds-any (allocate_todo_id digits next used))
              (λ got any.
                Holds-bind (Counted (p + 1)) (Counted p)
                  (assign_ids trim digits parse_int now thread_id (p + 1) current got.1
                    (used ++ got.0 ∷ []) ts)
                  _ (assign_ids-Counted now thread_id (p + 1) current got.1 (used ++ got.0 ∷ []) ts)
                  (λ rest h. (refl, h))))
        | inr e ↦ rw e (
            Holds-bind (Counted (p + 1)) (Counted p)
              (assign_ids trim digits parse_int now thread_id (p + 1) current next used ts) _
              (assign_ids-Counted now thread_id (p + 1) current next used ts) (λ rest h. (refl, h)))
      ]

  pub prepare-Counted :
      (thread_id : Str) (items : List TodoItem) (next : ℕ) (current : List TodoItem) (now : ℕ)
      → Holds
          (Counted 1)
          (prepare_replacement trim digits parse_int thread_id items next current now)
  unfolding prepare_replacement
  prepare-Counted thread_id items next current now =
      Holds-bind (λ checked. Unit {0}) (Counted 1)
        (check_replacement trim digits parse_int thread_id 0 [] (max next 1) items) _
        (Holds-any (check_replacement trim digits parse_int thread_id 0 [] (max next 1) items))
        (λ checked any.
          Holds-bind (Counted 1) (Counted 1)
            (assign_ids trim digits parse_int now thread_id 1 current (max next 1) checked.1.0
              checked.0)
            _ (assign_ids-Counted now thread_id 1 current (max next 1) checked.1.0 checked.0)
            (λ got h. h))

  pub insert-Ordered :
      (got : List TodoItem × ℕ) → Counted 1 got → Holds Ordered (insert_todos 0 [] got.0)
  insert-Ordered got h = weaken (insert_todos 0 [] got.0) (insert_todos-Accepted 0 [] got.0 tt)
    where
      weaken : (r : Result (List TodoItem)) → Accepted [] got.0 r → Holds Ordered r
      weaken (done new) (same, distinct) = (rw same h, distinct)
      weaken (error e) a = tt

  pub replace_row-Ordered :
      (now : ℕ) (thread_id : Str) (row : PlanRow) (items : List TodoItem)
      → Holds RowOrdered (replace_row trim digits parse_int now thread_id row items)
  unfolding replace_row
  replace_row-Ordered now thread_id row items =
      Holds-bind (Counted 1) RowOrdered
        (prepare_replacement trim digits parse_int thread_id items row.next_todo_id
          (load_todos row.todos) now)
        _ (prepare-Counted thread_id items row.next_todo_id (load_todos row.todos) now)
        (λ got h.
          Holds-bind Ordered RowOrdered (insert_todos 0 [] got.0) _ (insert-Ordered got h)
            (λ rows o. o))
