-- ===== src/Memory/PlanStore/Compact.antt =====
-- What `DeleteTodos` does to the rows of a well-formed plan.
use sandbar.Base.{
  ℕ, ◌+◌, ◌≤◌, Str, contains, leb, ◌==◌, true, false, List, [], ◌∷◌, if◌then◌else◌, ◌≡◌, refl, ap,
  ◌∙◌, arith, str_eq_refl, Bool-cases, inl, inr,
}
use sandbar.Memory.Todo.{todo_not_found, Result, done, error, ◌>>=◌, TodoItem}
use sandbar.Memory.Plan.{PlanRow, ids, place, load_todos}
use sandbar.Memory.Plan.Append.{Numbered, NoRepeat, Ordered, load-Numbered}
use sandbar.Memory.PlanStore.{require_ids, delete_ids, compact, advance, delete_row}

-- The positions increase from at least `p`.
abbrev Ascending : ℕ → List TodoItem → Type 0
Ascending p [] = Unit
Ascending p (t ∷ ts) = (p ≤ t.position) × Ascending (t.position + 1) ts

Ascending-weaken : (p q : ℕ) (ts : List TodoItem) → p ≤ q → Ascending q ts → Ascending p ts
Ascending-weaken p q [] le h = tt
Ascending-weaken p q (t ∷ ts) le (h, hs) = (omega arith, hs)

Numbered-Ascending : (p : ℕ) (ts : List TodoItem) → Numbered p ts → Ascending p ts
Numbered-Ascending p [] h = tt
Numbered-Ascending p (t ∷ ts) (h, hs) = (
  omega arith,
  Ascending-weaken (t.position + 1) (p + 1) ts (omega arith) (Numbered-Ascending (p + 1) ts hs),
)

load-Ascending : (p : ℕ) (ts : List TodoItem) → Ascending p ts → load_todos ts ≡ ts
unfolding load_todos place
load-Ascending p [] h = refl
load-Ascending p (t ∷ ts) (h, hs) = rw (load-Ascending (t.position + 1) ts hs) (place-first t ts hs)
  where
    place-first :
        (t : TodoItem) (ts : List TodoItem) → Ascending (t.position + 1) ts → place t ts ≡ t ∷ ts
    place-first t [] h = refl
    place-first t (u ∷ us) (h, hs) =
        let le : leb t.position u.position ≡ true = ground arith in rw le

delete-Ascending :
    (gone : List Str) (p : ℕ) (ts : List TodoItem)
    → Ascending p ts
    → Ascending p (delete_ids gone ts)
unfolding delete_ids
delete-Ascending gone p [] h = tt
delete-Ascending gone p (t ∷ ts) (h, hs) = elim (Bool-cases (contains t.id gone)) [
  | inl e ↦
      rw (e, Ascending)
        (delete-Ascending gone p ts (Ascending-weaken p (t.position + 1) ts (omega arith) hs))
  | inr e ↦ rw (e, Ascending) (h, delete-Ascending gone (t.position + 1) ts hs)
]

-- The ids of `all` that are not in `gone`, in order.
abbrev pub without : List Str → List Str → List Str
without gone [] = []
without gone (id ∷ all) = if contains id gone then without gone all else id ∷ without gone all

ids-delete :
    (gone : List Str) (ts : List TodoItem) → ids (delete_ids gone ts) ≡ without gone (ids ts)
unfolding delete_ids
ids-delete gone [] = refl
ids-delete gone (t ∷ ts) = elim (Bool-cases (contains t.id gone)) [
  | inl e ↦ rw e (ids-delete gone ts)
  | inr e ↦ rw e (ap (◌∷◌ t.id) (ids-delete gone ts))
]

contains-without :
    (gone all : List Str) (id : Str)
    → contains id all ≡ false
    → contains id (without gone all) ≡ false
unfolding contains
contains-without gone [] id h = refl
contains-without gone (x ∷ all) id h = elim (Bool-cases (contains x gone)) [
  | inl e ↦ rw e (contains-without gone all id (ground arith))
  | inr e ↦ rw e (ground (arith, contains-without gone all id))
]

NoRepeat-without : (gone all : List Str) → NoRepeat all → NoRepeat (without gone all)
NoRepeat-without gone [] h = tt
NoRepeat-without gone (x ∷ all) (h, hs) = elim (Bool-cases (contains x gone)) [
  | inl e ↦ rw (e, NoRepeat) (NoRepeat-without gone all hs)
  | inr e ↦ rw (e, NoRepeat) (contains-without gone all x h, NoRepeat-without gone all hs)
]

compact-Numbered : (now p : ℕ) (ts : List TodoItem) → Numbered p (compact now p ts)
unfolding compact
compact-Numbered now p [] = tt
compact-Numbered now p (t ∷ ts) = elim (Bool-cases (t.position == p)) [
  | inl e ↦ rw e (ground arith, compact-Numbered now (p + 1) ts)
  | inr e ↦ rw e (refl, compact-Numbered now (p + 1) ts)
]

ids-compact : (now p : ℕ) (ts : List TodoItem) → ids (compact now p ts) ≡ ids ts
unfolding compact
ids-compact now p [] = refl
ids-compact now p (t ∷ ts) = elim (Bool-cases (t.position == p)) [
  | inl e ↦ rw e (ap (◌∷◌ t.id) (ids-compact now (p + 1) ts))
  | inr e ↦ rw e (ap (◌∷◌ t.id) (ids-compact now (p + 1) ts))
]

-- An item without its position and its last change.
abbrev pub Face : Type 0
Face = Str × Str × Str × Str × ℕ

abbrev pub faces : List TodoItem → List Face
faces [] = []
faces (t ∷ ts) = (t.id, t.thread_id, t.content, t.status, t.created_at) ∷ faces ts

abbrev pub faces_without : List Str → List Face → List Face
faces_without gone [] = []
faces_without gone (f ∷ fs) =
    if contains f.0 gone then faces_without gone fs else f ∷ faces_without gone fs

faces-delete :
    (gone : List Str) (ts : List TodoItem)
    → faces (delete_ids gone ts) ≡ faces_without gone (faces ts)
unfolding delete_ids
faces-delete gone [] = refl
faces-delete gone (t ∷ ts) = elim (Bool-cases (contains t.id gone)) [
  | inl e ↦ rw e (faces-delete gone ts)
  | inr e ↦
      rw e (ap (◌∷◌ (t.id, t.thread_id, t.content, t.status, t.created_at)) (faces-delete gone ts))
]

faces-compact : (now p : ℕ) (ts : List TodoItem) → faces (compact now p ts) ≡ faces ts
unfolding compact
faces-compact now p [] = refl
faces-compact now p (t ∷ ts) =
    let first : Face = (t.id, t.thread_id, t.content, t.status, t.created_at) in
    elim (Bool-cases (t.position == p)) [
      | inl e ↦ rw e (ap (◌∷◌ first) (faces-compact now (p + 1) ts))
      | inr e ↦ rw e (ap (◌∷◌ first) (faces-compact now (p + 1) ts))
    ]

-- Every id is known, or the report names one that is not.
abbrev pub Known : List Str → List Str → Result (Unit {0}) → Type 0
Known known wanted (done u) = Unit
Known known wanted (error e) =
    (id : Str) × (e ≡ todo_not_found id) × (contains id wanted ≡ true) × (contains id known ≡ false)

require_ids-Known : (known wanted : List Str) → Known known wanted (require_ids known wanted)
unfolding require_ids contains
require_ids-Known known [] = tt
require_ids-Known known (id ∷ rest) = elim (Bool-cases (contains id known)) [
  | inr e ↦ rw (e, Known) (id, refl, rw (str_eq_refl id) refl, e)
  | inl e ↦ rw e (widen (require_ids known rest) (require_ids-Known known rest))
]
  where
    widen : (r : Result (Unit {0})) → Known known rest r → Known known (id ∷ rest) r
    widen (done u) h = tt
    widen (error e) (x, named, wanted, unknown) = (x, named, ground arith, unknown)

-- The named items are gone, and the others are numbered anew and otherwise as they were, but for the
-- time of their last change; or an id is unknown.
abbrev pub Deletes : PlanRow → List Str → Result PlanRow → Type 0
Deletes row gone (done new) =
    Ordered new.todos
    × (ids new.todos ≡ without gone (ids row.todos))
    × (faces new.todos ≡ faces_without gone (faces row.todos))
    × (new.revision ≡ row.revision + 1)
    × (new.next_todo_id ≡ row.next_todo_id)
Deletes row gone (error e) =
    (id : Str) × (e ≡ todo_not_found id)
    × (contains id gone ≡ true)
    × (contains id (ids row.todos) ≡ false)

pub delete_row-Deletes :
    (now : ℕ) (row : PlanRow) (gone : List Str)
    → Ordered row.todos
    → Deletes row gone (delete_row now row gone)
unfolding delete_row
delete_row-Deletes now row gone (num, norep) =
    let sorted : load_todos row.todos ≡ row.todos = load-Numbered 1 row.todos num in
    let left : load_todos (delete_ids gone row.todos) ≡ delete_ids gone row.todos =
      load-Ascending 1 (delete_ids gone row.todos)
        (delete-Ascending gone 1 row.todos (Numbered-Ascending 1 row.todos num)) in
    let same : ids (compact now 1 (delete_ids gone row.todos)) ≡ without gone (ids row.todos) =
      ids-compact now 1 (delete_ids gone row.todos) ∙ ids-delete gone row.todos in
    rw (sorted, left)
      (finish
        (
          (
            compact-Numbered now 1 (delete_ids gone row.todos),
            rw same (NoRepeat-without gone (ids row.todos) norep),
          ),
          same,
          faces-compact now 1 (delete_ids gone row.todos) ∙ faces-delete gone row.todos,
          refl,
          refl,
        )
        (require_ids (ids row.todos) gone) (require_ids-Known (ids row.todos) gone))
  where
    finish :
        Deletes row gone (done (advance now row (compact now 1 (delete_ids gone row.todos))))
        → (r : Result (Unit {0})) → Known (ids row.todos) gone r
        → Deletes row gone
            (r >>= λ checked. done (advance now row (compact now 1 (delete_ids gone row.todos))))
    finish d (done u) k = d
    finish d (error e) k = k
