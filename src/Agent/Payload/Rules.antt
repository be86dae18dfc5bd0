-- ===== src/Agent/Payload/Rules.antt =====
-- How a payload check passes: predicates on its result, and the check of a list in two parts.
use sandbar.Base.{
  ℕ, ◌+◌, Str, Map, Bool, true, Option, none, some, List, [], ◌∷◌, ◌++◌, ◌≡◌, refl, arith, length,
}
use sandbar.Agent.Messages.{Message}
use sandbar.Agent.Payload.{
  Checked, ok, bad, ◌>>=◌, Walk, all_answered, close_pending, check_message, check_messages,
}

-- The check passes, with a result of which `P` holds.
abbrev pub Passes : {A : Type 0} → (A → Type 0) → Checked A → Type 0
Passes P (ok a) = P a
Passes P (bad v) = ⊥

pub Passes-map :
    {A : Type 0} (P Q : A → Type 0) (m : Checked A)
    → Passes P m
    → ((a : A) → P a → Q a)
    → Passes Q m
Passes-map P Q (ok a) h k = k a h
Passes-map P Q (bad v) h k = absurd h

pub Passes-bind :
    {A B : Type 0} (P : A → Type 0) (Q : B → Type 0) (m : Checked A) (f : A → Checked B)
    → Passes P m
    → ((a : A) → P a → Passes Q (f a))
    → Passes Q (m >>= f)
Passes-bind P Q (ok a) f h k = k a h
Passes-bind P Q (bad v) f h k = absurd h

-- Nothing is left without a result.
abbrev pub Closed : Option (ℕ × Map Bool) → Type 0
Closed none = Unit
Closed (some (group, p)) = all_answered p ≡ true

abbrev pub at : List Str → Option (ℕ × Map Bool) → Walk
at seen pend = record { seen = seen; pending = pend }

abbrev pub Ended : Walk → Type 0
Ended w = Closed w.pending

pub check_messages-append :
    (i : ℕ) (xs ys : List Message) (w : Walk)
    → check_messages i (xs ++ ys) w ≡ (check_messages i xs w >>= check_messages (i + length xs) ys)
unfolding check_messages
check_messages-append i [] ys w =
    let e : i + length (let xs : List Message = [] in xs) ≡ i = omega arith in rw e
check_messages-append i (x ∷ xs) ys w =
    go (check_message i x w) (λ a. check_messages-append (i + 1) xs ys a)
  where
    go :
        (m : Checked Walk)
        → ((a : Walk)
            → check_messages (i + 1) (xs ++ ys) a
              ≡ (check_messages (i + 1) xs a >>= check_messages ((i + 1) + length xs) ys))
        → (m >>= check_messages (i + 1) (xs ++ ys))
          ≡ (m >>= check_messages (i + 1) xs >>= check_messages (i + length (x ∷ xs)) ys)
    go (ok a) h = let e : i + length (x ∷ xs) ≡ (i + 1) + length xs = omega arith in rw e (h a)
    go (bad v) h = refl

pub close_pending-Closed :
    (i : ℕ) (pend : Option (ℕ × Map Bool)) → Closed pend → close_pending i pend ≡ ok tt
unfolding close_pending
close_pending-Closed i none h = refl
close_pending-Closed i (some (group, p)) h = rw h

pub Passes-end :
    (n : ℕ) (m : Checked Walk) → Passes Ended m → (m >>= λ w. close_pending n w.pending) ≡ ok tt
Passes-end n (ok w) h = close_pending-Closed n w.pending h
Passes-end n (bad v) h = absurd h
