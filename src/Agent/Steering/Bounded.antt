-- ===== src/Agent/Steering/Bounded.antt =====
-- The queues stay short, and a thread without a turn has none.
use sandbar.Base.{
  ◌≤◌, Str, str_eq, Map, lookup, insert, lookup-insert, if◌then◌else◌, leb, length, length-append,
  Bool, true, false, none, some, List, [], ◌∷◌, ◌++◌, ◌≡◌, refl, arith, str_eq_iff, Bool-cases, inl,
  inr, ◌⊎◌,
}
use sandbar.Agent.Steering.{
  steering_queue_cap, SteeringQueues, new_steering_queues, remove, is_active, queue_of, set_queue,
  enqueue_trimmed, enqueue_user_message, begin_turn, end_turn, drain, Action, enqueues, begins,
  ends, drains, act, run_actions,
}
use sandbar.Agent.Steering.Delivery.{queue-set, run-Balanced, accepted_by, delivered_to}

-- A queue is within the cap, and empty unless its thread has a turn.
abbrev pub Sound : SteeringQueues → Type 0
Sound q =
    (t : Str)
    → (length (queue_of t q) ≤ steering_queue_cap) × ((is_active t q ≡ true) ⊎ (queue_of t q ≡ []))

lookup-remove :
    (k t : Str) (m : Map Bool) → lookup t (remove k m) ≡ (if str_eq k t then none else lookup t m)
unfolding lookup remove
lookup-remove k t [] = ground arith
lookup-remove k t ((j, b) ∷ m) =
    ground (arith, str_eq_iff k t, str_eq_iff j k, str_eq_iff j t, lookup-remove k t m)

set-Sound :
    (u : Str) (texts : List Str) (q : SteeringQueues)
    → length texts ≤ steering_queue_cap
    → (is_active u q ≡ true) ⊎ (texts ≡ [])
    → Sound q
    → Sound (set_queue u texts q)
unfolding set_queue is_active
set-Sound u texts q short live h t = elim (Bool-cases (str_eq u t)) [
  | inl e ↦
      let eq : u ≡ t = (str_eq_iff u t).0 e in
      let new : queue_of t (set_queue u texts q) ≡ texts = rw (queue-set t u texts q, e) refl in
      rw new (short, rw eq at live)
  | inr e ↦
      let kept : queue_of t (set_queue u texts q) ≡ queue_of t q =
        rw (queue-set t u texts q, e) refl in
      rw kept (h t)
]

active-begin :
    (t u : Str) (q : SteeringQueues)
    → is_active t (begin_turn u q) ≡ (if str_eq u t then true else is_active t q)
unfolding is_active begin_turn
active-begin t u q = elim (Bool-cases (str_eq u t)) [
  | inl e ↦
      let found : lookup t (insert u true q.active) ≡ some true =
        ground (arith, lookup-insert u t true q.active) in
      rw (is_active, begin_turn, found, e) refl
  | inr e ↦
      let kept : lookup t (insert u true q.active) ≡ lookup t q.active =
        ground (arith, lookup-insert u t true q.active) in
      rw (is_active, begin_turn, kept, e) refl
]

begin-Sound : (u : Str) (q : SteeringQueues) → Sound q → Sound (begin_turn u q)
unfolding begin_turn queue_of
begin-Sound u q h t = ((h t).0, still)
  where
    still : (is_active t (begin_turn u q) ≡ true) ⊎ (queue_of t q ≡ [])
    still = elim (Bool-cases (str_eq u t)) [
      | inl e ↦ inl (rw (active-begin t u q, e) refl)
      | inr e ↦ rw (active-begin t u q, e) (h t).1
    ]

-- The state with the flag of a thread cleared.
abbrev idle : Str → SteeringQueues → SteeringQueues
idle u q = record q { active = remove u q.active }

active-idle :
    (t u : Str) (q : SteeringQueues)
    → str_eq u t ≡ false
    → is_active t (set_queue u [] (idle u q)) ≡ is_active t q
unfolding set_queue is_active
active-idle t u q e =
    let kept : lookup t (remove u q.active) ≡ lookup t q.active =
      ground (arith, lookup-remove u t q.active) in
    rw (is_active, kept) refl

queue-idle : (t u : Str) (q : SteeringQueues) → queue_of t (idle u q) ≡ queue_of t q
unfolding queue_of
queue-idle t u q = refl

end-Sound : (u : Str) (q : SteeringQueues) → Sound q → Sound (end_turn u q).0
unfolding end_turn
end-Sound u q h t = elim (Bool-cases (str_eq u t)) [
  | inl e ↦
      let new : queue_of t (set_queue u [] (idle u q)) ≡ [] =
        rw (queue-set t u [] (idle u q), e) refl in
      rw new (omega arith, inr refl)
  | inr e ↦
      let kept : queue_of t (set_queue u [] (idle u q)) ≡ queue_of t q =
        rw (queue-set t u [] (idle u q), e) (queue-idle t u q) in
      rw (kept, active-idle t u q e) (h t)
]

enqueue-Sound : (u text : Str) (q : SteeringQueues) → Sound q → Sound (enqueue_trimmed u text q).0
unfolding enqueue_trimmed
enqueue-Sound u text q h = elim (Bool-cases (str_eq text [])) [
  | inl e ↦ rw (e, Sound) h
  | inr e ↦ elim (Bool-cases (is_active u q)) [
    | inr i ↦ rw (e, i, Sound) h
    | inl i ↦ elim (Bool-cases (leb steering_queue_cap (length (queue_of u q)))) [
      | inl f ↦ rw (e, i, f, Sound) h
      | inr f ↦
          let short : length (queue_of u q ++ text ∷ []) ≤ steering_queue_cap =
            ground (arith, length-append (queue_of u q) (text ∷ [])) in
          rw (e, i, f, Sound) (set-Sound u (queue_of u q ++ text ∷ []) q short (inl i) h)
    ]
  ]
]

module _ (trim : Str → Str) where
  act-Sound : (a : Action) (q : SteeringQueues) → Sound q → Sound (act trim a q).0
  unfolding act enqueue_user_message drain
  act-Sound (enqueues u text) q h = enqueue-Sound u (trim text) q h
  act-Sound (begins u) q h = begin-Sound u q h
  act-Sound (ends u) q h = end-Sound u q h
  act-Sound (drains u) q h = set-Sound u [] q (omega arith) (inr refl) h

  run-Sound :
      (acts : List Action) (q : SteeringQueues) → Sound q → Sound (run_actions trim acts q).0
  unfolding run_actions
  run-Sound [] q h = h
  run-Sound (a ∷ acts) q h = run-Sound acts (act trim a q).0 (act-Sound a q h)

new-Sound : Sound new_steering_queues
unfolding new_steering_queues queue_of lookup
new-Sound t = (omega arith, inr refl)

-- Whatever operations were called since the program started, what was accepted for a thread is what
-- was handed over to it, in order and once, followed by what its queue holds; that queue has at most
-- 8 messages, and it is empty unless the thread has an active turn.
pub run-Delivers :
    (trim : Str → Str) (acts : List Action) (t : Str)
    → (accepted_by t (run_actions trim acts new_steering_queues).1
        ≡ delivered_to t (run_actions trim acts new_steering_queues).1
          ++ queue_of t (run_actions trim acts new_steering_queues).0)
      × (length (queue_of t (run_actions trim acts new_steering_queues).0) ≤ 8)
      × ((is_active t (run_actions trim acts new_steering_queues).0 ≡ true)
          ⊎ (queue_of t (run_actions trim acts new_steering_queues).0 ≡ []))
unfolding new_steering_queues queue_of lookup
run-Delivers trim acts t =
    let sound = run-Sound trim acts new_steering_queues new-Sound t in
    (run-Balanced trim t acts new_steering_queues, sound.0, sound.1)
