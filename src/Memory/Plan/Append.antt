-- ===== src/Memory/Plan/Append.antt =====
-- What `CreateTodos` does to a well-formed plan.
use sandbar.Base.{
  ℕ, zero, suc, ◌+◌, ◌-◌, ◌≤◌, Str, contains, leb, ◌==◌, true, false, List, [], ◌∷◌, ◌++◌, map,
  length, ◌≡◌, ◌≢◌, refl, ap, ◌∙◌, arith, append_assoc, append-nil, length-append, contains-append,
  str_eq_iff, max, Bool-cases, inl, inr, ◌⊎◌,
}
use sandbar.Memory.Todo.{
  PlanError, ids_exhausted, todo_pending, Result, done, error, ◌>>=◌, TodoItem, status_valid,
  default_status, allocate_from, allocate_todo_id, max_int64,
}
use sandbar.Memory.Plan.{
  PlanRow, ids, has_position, place, load_todos, insert_todos, allocate_drafts, append_todos,
}

-- The positions count up from `p`.
abbrev pub Numbered : ℕ → List TodoItem → Type 0
Numbered p [] = Unit
Numbered p (t ∷ ts) = (t.position ≡ p) × Numbered (p + 1) ts

abbrev pub NoRepeat : List Str → Type 0
NoRepeat [] = Unit
NoRepeat (id ∷ rest) = (contains id rest ≡ false) × NoRepeat rest

-- Positions are 1, 2, 3 and so on in the order of the rows, and no id stands twice.
abbrev pub Ordered : List TodoItem → Type 0
Ordered rows = Numbered 1 rows × NoRepeat (ids rows)

pub place-Numbered :
    (t : TodoItem) (p : ℕ) (ts : List TodoItem)
    → t.position ≡ p
    → Numbered (p + 1) ts
    → place t ts ≡ t ∷ ts
unfolding place
place-Numbered t p [] e h = refl
place-Numbered t p (u ∷ us) e (h, hs) =
    let le : leb t.position u.position ≡ true = ground arith in rw le

pub load-Numbered : (p : ℕ) (ts : List TodoItem) → Numbered p ts → load_todos ts ≡ ts
unfolding load_todos
load-Numbered p [] h = refl
load-Numbered p (t ∷ ts) (h, hs) = rw (load-Numbered (p + 1) ts hs) (place-Numbered t p ts h hs)

has_position-above :
    (p q : ℕ) (ts : List TodoItem) → Numbered p ts → p + length ts ≤ q → has_position q ts ≡ false
has_position-above p q [] h le = refl
has_position-above p q (t ∷ ts) (h, hs) le =
    let off : (t.position == q) ≡ false = ground arith in
    rw off (has_position-above (p + 1) q ts hs (omega arith))

pub Numbered-append :
    (p : ℕ) (ts : List TodoItem) (t : TodoItem)
    → Numbered p ts
    → t.position ≡ p + length ts
    → Numbered p (ts ++ t ∷ [])
Numbered-append p [] t h e = (omega arith, tt)
Numbered-append p (u ∷ us) t (h, hs) e = (h, Numbered-append (p + 1) us t hs (omega arith))

pub NoRepeat-append :
    (xs : List Str) (x : Str) → NoRepeat xs → contains x xs ≡ false → NoRepeat (xs ++ x ∷ [])
unfolding contains
NoRepeat-append [] x h e = (refl, tt)
NoRepeat-append (y ∷ ys) x (h, hs) e = (
  ground (arith, contains-append y ys (x ∷ []), str_eq_iff x y, str_eq_iff y x),
  NoRepeat-append ys x hs (ground arith),
)

pub ids-append : (ts us : List TodoItem) → ids (ts ++ us) ≡ ids ts ++ ids us
ids-append [] us = refl
ids-append (t ∷ ts) us = ap (◌∷◌ t.id) (ids-append ts us)

-- An allocated id is new, and nothing else goes wrong.
abbrev Fresh : List Str → Result (Str × ℕ) → Type 0
Fresh used (done got) = contains got.0 used ≡ false
Fresh used (error e) = e ≡ ids_exhausted

module _ (digits : ℕ → Str) where
  allocate_from-Fresh :
      (left next : ℕ) (used : List Str) → Fresh used (allocate_from digits left next used)
  unfolding allocate_from
  allocate_from-Fresh zero next used = refl
  allocate_from-Fresh (suc left) next used = elim (Bool-cases (contains (digits next) used)) [
    | inl e ↦ rw (e, Fresh) (allocate_from-Fresh left (next + 1) used)
    | inr e ↦ rw (e, Fresh) e
  ]

  allocate_todo_id-Fresh :
      (next : ℕ) (used : List Str) → Fresh used (allocate_todo_id digits next used)
  unfolding allocate_todo_id
  allocate_todo_id-Fresh next used = allocate_from-Fresh (max_int64 - max next 1) (max next 1) used

unfoldable pub contents : List TodoItem → List Str
contents items = map (λ t. t.content) items

-- A draft's status is empty or valid, as `validateTodoDraft` leaves it.
abbrev pub Validated : List TodoItem → Type 0
Validated [] = Unit
Validated (t ∷ ts) = (status_valid (default_status t.status) ≡ true) × Validated ts

pub Result-cases :
    {A : Type 0} (r : Result A) → ((a : A) × (r ≡ done a)) ⊎ ((e : PlanError) × (r ≡ error e))
Result-cases (done a) = inl (a, refl)
Result-cases (error e) = inr (e, refl)

-- The item that is made of a draft; an empty status becomes `pending`.
abbrev pub MadeOf : ℕ → Str → TodoItem → TodoItem → Type 0
MadeOf now thread_id t item =
    (item.thread_id ≡ thread_id)
    × (item.content ≡ t.content)
    × ((t.status ≢ [] → item.status ≡ t.status) × (t.status ≡ [] → item.status ≡ todo_pending))
    × (item.created_at ≡ now)
    × (item.updated_at ≡ now)

abbrev pub Drafted : ℕ → Str → List TodoItem → List TodoItem → Type 0
Drafted now thread_id [] [] = Unit
Drafted now thread_id [] (item ∷ items) = ⊥
Drafted now thread_id (t ∷ ts) [] = ⊥
Drafted now thread_id (t ∷ ts) (item ∷ items) =
    MadeOf now thread_id t item × Drafted now thread_id ts items

default_status-kept : (s : Str) → s ≢ [] → default_status s ≡ s
unfolding default_status
default_status-kept s some_text = ground (arith, some_text, str_eq_iff s [])

default_status-empty : (s : Str) → s ≡ [] → default_status s ≡ todo_pending
unfolding default_status
default_status-empty s e = ground (arith, e, str_eq_iff s [])

-- The allocated items go into the table after `rows`, under the constraints.
abbrev Inserts : ℕ → Str → List TodoItem → List TodoItem → ℕ → Result (List TodoItem × ℕ) → Type 0
Inserts now thread_id rows drafts i (error e) = e ≡ ids_exhausted
Inserts now thread_id rows drafts i (done got) =
    (insert_todos i rows got.0 ≡ done (rows ++ got.0))
    × (Ordered (rows ++ got.0)
        × ((contents got.0 ≡ contents drafts) × Drafted now thread_id drafts got.0))

-- One more item in front, that the constraints let in.
insert-Inserts :
    (now : ℕ) (thread_id : Str) (i : ℕ) (rows ts : List TodoItem) (t item : TodoItem)
    (rest : Result (List TodoItem × ℕ))
    → contains item.id (ids rows) ≡ false
    → has_position item.position rows ≡ false
    → status_valid item.status ≡ true
    → MadeOf now thread_id t item
    → Inserts now thread_id (rows ++ item ∷ []) ts (i + 1) rest
    → Inserts now thread_id rows (t ∷ ts) i (rest >>= λ r. done (item ∷ r.0, r.1))
unfolding insert_todos contents
insert-Inserts now thread_id i rows ts t item (error e) c p s k h = h
insert-Inserts now thread_id i rows ts t item (done (news, next)) c p s k
      (ins, (ord, (con, made))) =
    let text : item.content ≡ t.content = k.1 in
    let assoc : (rows ++ item ∷ []) ++ news ≡ rows ++ item ∷ news =
      append_assoc rows (item ∷ []) news in
    (rw (c, p, s) (ins ∙ ap done assoc), (rw assoc at ord, (cc, (k, made))))

module _ (digits : ℕ → Str) (now : ℕ) (thread_id : Str) where
  allocate_drafts-Inserts :
      (i next : ℕ) (rows drafts : List TodoItem)
      → Ordered rows
      → Validated drafts
      → Inserts now thread_id rows drafts i
          (allocate_drafts digits now thread_id (length rows + 1) next (ids rows) drafts)
  unfolding allocate_drafts insert_todos contents
  allocate_drafts-Inserts i next rows [] h v =
      let same : rows ++ [] ≡ rows = append-nil rows in rw (same, Inserts) (refl, (h, (refl, tt)))
  allocate_drafts-Inserts i next rows (t ∷ ts) (num, norep) (ok, v) =
      let fresh = allocate_todo_id-Fresh digits next (ids rows) in
      elim (Result-cases (allocate_todo_id digits next (ids rows))) [
        | inr (e, q) ↦ rw (q, Inserts) (rw (q, Fresh) at fresh)
        | inl (got, q) ↦
            let item : TodoItem = record {
              id = got.0;
              thread_id = thread_id;
              content = t.content;
              status = default_status t.status;
              position = length rows + 1;
              created_at = now;
              updated_at = now;
            } in
            let new : contains got.0 (ids rows) ≡ false = rw (q, Fresh) at fresh in
            let more : ids (rows ++ item ∷ []) ≡ ids rows ++ got.0 ∷ [] =
              ids-append rows (item ∷ []) in
            let len : length (rows ++ item ∷ []) + 1 ≡ length rows + 1 + 1 =
              omega (arith, length-append rows (item ∷ [])) in
            let ord : Ordered (rows ++ item ∷ []) = (
              Numbered-append 1 rows item num (omega arith),
              rw more (NoRepeat-append (ids rows) got.0 norep new),
            ) in
            let later = allocate_drafts-Inserts (i + 1) got.1 (rows ++ item ∷ []) ts ord v in
            rw q (
              insert-Inserts now thread_id i rows ts t item
                (allocate_drafts digits now thread_id (length rows + 1 + 1) got.1
                  (ids rows ++ got.0 ∷ []) ts)
                new (has_position-above 1 (length rows + 1) rows num (omega arith)) ok
                (
                  refl,
                  refl,
                  (default_status-kept t.status, default_status-empty t.status),
                  refl,
                  refl,
                )
                (rw (more, len) at later))
      ]

-- The plan is longer by the drafts, or its ids have run out.
abbrev pub Appends : ℕ → Str → PlanRow → List TodoItem → Result PlanRow → Type 0
Appends now thread_id row drafts (error e) = e ≡ ids_exhausted
Appends now thread_id row drafts (done new) =
    Ordered new.todos
    × (contents new.todos ≡ contents row.todos ++ contents drafts)
    × (news : List TodoItem) × (new.todos ≡ row.todos ++ news)
    × Drafted now thread_id drafts news

contents-append : (ts us : List TodoItem) → contents (ts ++ us) ≡ contents ts ++ contents us
unfolding contents
contents-append [] us = refl
contents-append (t ∷ ts) us = ap (◌∷◌ t.content) (contents-append ts us)

pub append_todos-Appends :
    (digits : ℕ → Str) (now : ℕ) (thread_id : Str) (row : PlanRow) (drafts : List TodoItem)
    → Ordered row.todos
    → Validated drafts
    → Appends now thread_id row drafts (append_todos digits now thread_id row drafts)
unfolding append_todos
append_todos-Appends digits now thread_id row drafts h v =
    let sorted : load_todos row.todos ≡ row.todos = load-Numbered 1 row.todos h.0 in
    let made =
      allocate_drafts-Inserts digits now thread_id 0 row.next_todo_id row.todos drafts h v in
    rw sorted (
      finish
        (allocate_drafts digits now thread_id (length row.todos + 1) row.next_todo_id
          (ids row.todos) drafts)
        made)
  where
    finish :
        (r : Result (List TodoItem × ℕ))
        → Inserts now thread_id row.todos drafts 0 r
        → Appends now thread_id row drafts (
            r >>= λ got. insert_todos 0 row.todos got.0 >>= λ rows.
            done (record row { todos = rows; next_todo_id = got.1; updated_at = now }))
    finish (error e) m = m
    finish (done got) (ins, (ord, (con, made))) =
        rw (ins, Appends)
          (
            ord,
            contents-append row.todos got.0 ∙ ap (◌++◌ (contents row.todos)) con,
            got.0,
            refl,
            made,
          )
