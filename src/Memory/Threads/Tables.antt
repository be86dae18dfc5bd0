-- ===== src/Memory/Threads/Tables.antt =====
-- What the tables of the conversations say together, and the rows that a write adds or removes.
use sandbar.Base.{
  ℕ, ◌≤◌, ◌<◌, Str, str_eq, str_eq_iff, ◌==◌, Bool, true, false, List, [], ◌∷◌, ◌++◌, map, ◌||◌,
  All, All-append, ◌≡◌, refl, ◌∙◌, arith, Bool-cases, if-holds, inl, inr, ◌⊎◌,
}
use sandbar.Memory.Threads.{ThreadRow, MessageRow, ToolCallRow, Db, select, exists}

-- A row of the messages and one after it: ids rise, and so do the numbers in one thread.
abbrev pub Before : MessageRow → MessageRow → Type 0
Before m n = (m.id < n.id) × ((str_eq m.thread_id n.thread_id ≡ false) ⊎ (m.seq < n.seq))

abbrev pub Rising : List MessageRow → Type 0
Rising [] = Unit
Rising (m ∷ ms) = All (Before m) ms × Rising ms

-- No id of a tool call stands twice.
abbrev pub DistinctCalls : List ToolCallRow → Type 0
DistinctCalls [] = Unit
DistinctCalls (c ∷ cs) = (exists (λ d. str_eq d.id c.id) cs ≡ false) × DistinctCalls cs

abbrev pub has_thread : Str → List ThreadRow → Bool
has_thread id threads = exists (λ t. str_eq t.id id) threads

abbrev pub has_message : ℕ → List MessageRow → Bool
has_message id messages = exists (λ m. m.id == id) messages

-- Messages stand in the order of their ids and of their numbers, ids are never given again, ids of
-- tool calls are unique, and no row refers to a missing one: every tool call has its message, and
-- every message, compression and plan its thread.
pub record Consistent (db : Db) : Type 0 where
  pub rising : Rising db.messages
  pub counted : All (λ m. m.id ≤ db.last_message_id) db.messages
  pub distinct : DistinctCalls db.tool_calls
  pub calls_owned : All (λ c. has_message c.message_id db.messages ≡ true) db.tool_calls
  pub messages_owned : All (λ m. has_thread m.thread_id db.threads ≡ true) db.messages
  pub compressions_owned : All (λ r. has_thread r.thread_id db.threads ≡ true) db.compressions
  pub plans_owned : All (λ p. has_thread p.0 db.threads ≡ true) db.plans

module _ {A : Type 0} where
  pub All-map : (P Q : A → Type 0) (xs : List A) → ((x : A) → P x → Q x) → All P xs → All Q xs
  All-map P Q [] f h = tt
  All-map P Q (x ∷ xs) f h = (f x h.0, All-map P Q xs f h.1)

  pub All-select : (P : A → Type 0) (k : A → Bool) (xs : List A) → All P xs → All P (select k xs)
  unfolding select
  All-select P k [] h = tt
  All-select P k (x ∷ xs) h =
      if-holds (All P) (k x) _ _ (λ e. (h.0, All-select P k xs h.1)) (λ e. All-select P k xs h.1)

  -- What is selected meets the test.
  pub select-All : (k : A → Bool) (xs : List A) → All (λ x. k x ≡ true) (select k xs)
  unfolding select
  select-All k [] = tt
  select-All k (x ∷ xs) =
      if-holds (All (λ y. k y ≡ true)) (k x) _ _ (λ e. (e, select-All k xs)) (λ e. select-All k xs)

  pub exists-append :
      (p : A → Bool) (xs ys : List A) → exists p (xs ++ ys) ≡ (exists p xs || exists p ys)
  unfolding exists
  exists-append p [] ys = refl
  exists-append p (x ∷ xs) ys = ground (arith, exists-append p xs ys)

  pub exists-select-false :
      (p k : A → Bool) (xs : List A) → exists p xs ≡ false → exists p (select k xs) ≡ false
  unfolding exists select
  exists-select-false p k [] h = refl
  exists-select-false p k (x ∷ xs) h = ground (arith, exists-select-false p k xs)

  -- A row that is found stays when every row that is found is selected.
  pub exists-select-true :
      (p k : A → Bool) (xs : List A)
      → ((x : A) → p x ≡ true → k x ≡ true)
      → exists p xs ≡ true
      → exists p (select k xs) ≡ true
  unfolding exists select
  exists-select-true p k [] f h = h
  exists-select-true p k (x ∷ xs) f h = elim (Bool-cases (p x)) [
    | inl e ↦ let kept : k x ≡ true = f x e in ground (arith, e, kept)
    | inr e ↦ ground (arith, e, h, exists-select-true p k xs f)
  ]

  pub exists-map :
      (p : A → Bool) (f : A → A) (xs : List A)
      → ((x : A) → p (f x) ≡ p x)
      → exists p (map f xs) ≡ exists p xs
  unfolding exists
  exists-map p f [] same = refl
  exists-map p f (x ∷ xs) same = rw (same x, exists-map p f xs same) refl

pub Rising-select :
    (k : MessageRow → Bool) (ms : List MessageRow) → Rising ms → Rising (select k ms)
unfolding select
Rising-select k [] h = tt
Rising-select k (m ∷ ms) h =
    if-holds Rising (k m) _ _ (λ e. (All-select (Before m) k ms h.0, Rising-select k ms h.1))
      (λ e. Rising-select k ms h.1)

pub Rising-append :
    (ms : List MessageRow) (n : MessageRow)
    → Rising ms
    → All (λ m. Before m n) ms
    → Rising (ms ++ n ∷ [])
Rising-append [] n h k = (tt, tt)
Rising-append (m ∷ ms) n h k =
    (All-append (Before m) ms (n ∷ []) h.0 (k.0, tt), Rising-append ms n h.1 k.1)

pub DistinctCalls-select :
    (k : ToolCallRow → Bool) (cs : List ToolCallRow)
    → DistinctCalls cs
    → DistinctCalls (select k cs)
unfolding select
DistinctCalls-select k [] h = tt
DistinctCalls-select k (c ∷ cs) h =
    if-holds DistinctCalls (k c) _ _
      (λ e. (exists-select-false (λ d. str_eq d.id c.id) k cs h.0, DistinctCalls-select k cs h.1))
      (λ e. DistinctCalls-select k cs h.1)

pub DistinctCalls-append :
    (cs : List ToolCallRow) (d : ToolCallRow)
    → DistinctCalls cs
    → exists (λ c. str_eq c.id d.id) cs ≡ false
    → DistinctCalls (cs ++ d ∷ [])
unfolding exists
DistinctCalls-append [] d h k = (refl, tt)
DistinctCalls-append (c ∷ cs) d h k = (
  exists-append (λ e. str_eq e.id c.id) cs (d ∷ [])
      ∙ ground (arith, h.0, k, str_eq_iff c.id d.id, str_eq_iff d.id c.id),
  DistinctCalls-append cs d h.1 (ground (arith, k)),
)

-- The rows of one thread have numbers below `n`.
abbrev pub Room : Str → ℕ → List MessageRow → Type 0
Room thread_id n ms = All (λ m. (str_eq m.thread_id thread_id ≡ false) ⊎ (m.seq < n)) ms

pub All-map2 :
    {A : Type 0} (P Q R : A → Type 0) (xs : List A)
    → ((x : A) → P x → Q x → R x)
    → All P xs
    → All Q xs
    → All R xs
All-map2 P Q R [] f h k = tt
All-map2 P Q R (x ∷ xs) f h k = (f x h.0 k.0, All-map2 P Q R xs f h.1 k.1)
