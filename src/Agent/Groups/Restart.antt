-- ===== src/Agent/Groups/Restart.antt =====
-- The payload check from a later start: it passes wherever the check of the whole list does.
use sandbar.Base.{
  is_nil, ℕ, ◌+◌, Bool, true, false, Option, none, some, List, [], ◌∷◌, ◌≡◌, refl, ap, arith, inl,
  inr, Bool-cases, Option-cases, Str, Map, str_eq, contains, lookup, insert, not, ◌||◌, is_some,
}
use sandbar.Agent.Messages.{Message, ToolCall, is_tool, is_assistant}
use sandbar.Agent.Payload.{
  Checked, ok, bad, ◌>>=◌, Walk, all_answered, close_pending, answer, open_call, open_calls,
  open_group, check_message, check_messages, start,
}
use sandbar.Agent.Payload.Rules.{Passes, Closed, at, Ended}

-- A later start: fewer ids seen, the same open group.
abbrev Fewer : List Str → List Str → Type 0
Fewer seen' seen = (id : Str) → contains id seen ≡ false → contains id seen' ≡ false

abbrev SamePending : Option (ℕ × Map Bool) → Option (ℕ × Map Bool) → Type 0
SamePending none none = Unit
SamePending none (some y) = ⊥
SamePending (some x) none = ⊥
SamePending (some (i, p)) (some (j, q)) = p ≡ q

-- The check of one list passes whenever that of the other does, in related states.
abbrev Follows : (A : Type 0) → (A → A → Type 0) → Checked A → Checked A → Type 0
Follows A R (ok a) (ok b) = R a b
Follows A R (ok a) (bad v) = ⊥
Follows A R (bad v) m = Unit

abbrev Later : Walk → Walk → Type 0
Later w w' = Fewer w'.seen w.seen × SamePending w.pending w'.pending

abbrev LaterCalls : List Str × Map Bool → List Str × Map Bool → Type 0
LaterCalls a b = Fewer b.0 a.0 × (a.1 ≡ b.1)

Follows-bind :
    {A B : Type 0} (R : A → A → Type 0) (S : B → B → Type 0) (m n : Checked A) (f g : A → Checked B)
    → Follows A R m n
    → ((a b : A) → R a b → Follows B S (f a) (g b))
    → Follows B S (m >>= f) (n >>= g)
Follows-bind R S (ok a) (ok b) f g h k = k a b h
Follows-bind R S (ok a) (bad v) f g h k = absurd h
Follows-bind R S (bad v) n f g h k = tt

Fewer-cons : (k : Str) (seen seen' : List Str) → Fewer seen' seen → Fewer (k ∷ seen') (k ∷ seen)
unfolding contains
Fewer-cons k seen seen' h id c = ground (arith, h id)

open_call-Follows :
    (i j : ℕ) (tc : ToolCall) (seen seen' : List Str) (p : Map Bool)
    → Fewer seen' seen
    → Follows
        (List Str × Map Bool)
        LaterCalls
        (open_call i tc (seen, p))
        (open_call j tc (seen', p))
unfolding open_call
open_call-Follows i j tc seen seen' p h = elim (Bool-cases (str_eq tc.id [])) [
  | inl e ↦ rw e tt
  | inr e ↦ elim (Bool-cases (contains tc.id seen)) [
    | inl c ↦ rw (e, c) tt
    | inr c ↦ elim (Bool-cases (is_some (lookup tc.id p))) [
      | inl l ↦ rw (e, c, h tc.id c, l) tt
      | inr l ↦ rw (e, c, h tc.id c, l) (Fewer-cons tc.id seen seen' h, refl)
    ]
  ]
]

open_calls-Follows :
    (i j : ℕ) (tcs : List ToolCall) (a b : List Str × Map Bool)
    → LaterCalls a b
    → Follows (List Str × Map Bool) LaterCalls (open_calls i tcs a) (open_calls j tcs b)
unfolding open_calls
open_calls-Follows i j [] a b h = h
open_calls-Follows i j (tc ∷ tcs) (seen, p) (seen', q) (h, e) = rw (← e) (
    Follows-bind LaterCalls LaterCalls (open_call i tc (seen, p)) (open_call j tc (seen', p))
      (open_calls i tcs) (open_calls j tcs) (open_call-Follows i j tc seen seen' p h)
      (λ a b r. open_calls-Follows i j tcs a b r))

answer-Follows :
    (i j : ℕ) (msg : Message) (seen seen' : List Str) (x y : Option (ℕ × Map Bool))
    → Fewer seen' seen
    → SamePending x y
    → Follows Walk Later (answer i msg (at seen x)) (answer j msg (at seen' y))
unfolding answer
answer-Follows i j msg seen seen' none none h p = elim (Bool-cases (str_eq msg.tool_call_id [])) [
  | inl e ↦ rw e tt
  | inr e ↦ rw e tt
]
answer-Follows i j msg seen seen' none (some y) h p = absurd p
answer-Follows i j msg seen seen' (some x) none h p = absurd p
answer-Follows i j msg seen seen' (some (k, p)) (some (l, q)) h e =
    elim (Bool-cases (str_eq msg.tool_call_id [])) [
      | inl t ↦ rw (← e, t) tt
      | inr t ↦ elim (Option-cases (lookup msg.tool_call_id p)) [
        | inl u ↦ rw (← e, t, u) tt
        | inr (b, u) ↦ elim (Bool-cases b) [
          | inl v ↦ rw (← e, t, u, v) tt
          | inr v ↦ rw (← e, t, u, v) (h, ap (insert msg.tool_call_id true) e)
        ]
      ]
    ]

close-Follows :
    (i j : ℕ) (x y : Option (ℕ × Map Bool))
    → SamePending x y
    → Follows Unit (λ a b. Unit) (close_pending i x) (close_pending j y)
unfolding close_pending
close-Follows i j none none h = tt
close-Follows i j none (some y) h = absurd h
close-Follows i j (some x) none h = absurd h
close-Follows i j (some (k, p)) (some (l, q)) e = elim (Bool-cases (all_answered p)) [
  | inl d ↦ rw (← e, d) tt
  | inr d ↦ rw (← e, d) tt
]

check_message-Follows :
    (i j : ℕ) (msg : Message) (w w' : Walk)
    → Later w w'
    → Follows Walk Later (check_message i msg w) (check_message j msg w')
unfolding check_message open_group
check_message-Follows i j msg w w' (h, p) = elim (Bool-cases (is_tool msg.role)) [
  | inl t ↦ rw t (answer-Follows i j msg w.seen w'.seen w.pending w'.pending h p)
  | inr t ↦ rw t (
      Follows-bind (λ a b. Unit) Later (close_pending i w.pending) (close_pending j w'.pending) _ _
        (close-Follows i j w.pending w'.pending p)
        (λ a b r. elim (Bool-cases (not (is_assistant msg.role) || is_nil msg.tool_calls)) [
          | inl c ↦ rw c (h, tt)
          | inr c ↦ rw c (
              Follows-bind LaterCalls Later (open_calls i msg.tool_calls (w.seen, []))
                (open_calls j msg.tool_calls (w'.seen, [])) _ _
                (open_calls-Follows i j msg.tool_calls (w.seen, []) (w'.seen, []) (h, refl))
                (λ a b r. r))
        ]))
]

check_messages-Follows :
    (i j : ℕ) (msgs : List Message) (w w' : Walk)
    → Later w w'
    → Follows Walk Later (check_messages i msgs w) (check_messages j msgs w')
unfolding check_messages
check_messages-Follows i j [] w w' h = h
check_messages-Follows i j (msg ∷ msgs) w w' h =
    Follows-bind Later Later (check_message i msg w) (check_message j msg w') _ _
      (check_message-Follows i j msg w w' h)
      (λ a b r. check_messages-Follows (i + 1) (j + 1) msgs a b r)

Closed-SamePending : (x y : Option (ℕ × Map Bool)) → SamePending x y → Closed x → Closed y
Closed-SamePending none none h c = tt
Closed-SamePending none (some y) h c = absurd h
Closed-SamePending (some x) none h c = absurd h
Closed-SamePending (some (i, p)) (some (j, q)) e c = rw e at c

Passes-Follows : (m n : Checked Walk) → Follows Walk Later m n → Passes Ended m → Passes Ended n
Passes-Follows (ok a) (ok b) r c = Closed-SamePending a.pending b.pending r.1 c
Passes-Follows (ok a) (bad v) r c = r
Passes-Follows (bad v) n r c = absurd c

abbrev pub NotToolHead : List Message → Type 0
NotToolHead [] = Unit
NotToolHead (msg ∷ msgs) = is_tool msg.role ≡ false

skip_close :
    (m : Checked (Unit {0})) (f : Unit {0} → Checked Walk) (k : Walk → Checked Walk)
    → Passes Ended (m >>= f >>= k)
    → Passes Ended (f tt >>= k)
skip_close (ok tt) f k h = h
skip_close (bad v) f k h = absurd h

-- A list that does not begin with a tool result may be checked from the start.
pub restart :
    (i : ℕ) (msgs : List Message) (w : Walk)
    → NotToolHead msgs
    → Passes Ended (check_messages i msgs w)
    → Passes Ended (check_messages 0 msgs start)
unfolding check_messages check_message close_pending contains
restart i [] w h c = tt
restart i (msg ∷ msgs) w h c =
    Passes-Follows (check_messages i (msg ∷ msgs) (at w.seen none))
      (check_messages 0 (msg ∷ msgs) start)
      (check_messages-Follows i 0 (msg ∷ msgs) (at w.seen none) start (λ id e. refl, tt))
      (rw h (skip_close (close_pending i w.pending) _ (check_messages (i + 1) msgs) (rw h at c)))
