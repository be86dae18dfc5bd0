-- ===== src/Agent/Steering/Delivery.antt =====
-- A queued message is delivered once and in order, and none is left behind by a turn.
use sandbar.Base.{
  Str, str_eq, lookup, insert, lookup-insert, if◌then◌else◌, leb, length, some, List, [], ◌∷◌, ◌++◌,
  ◌≡◌, refl, sym, ap, ◌∙◌, arith, str_eq_iff, append_assoc, append-nil, Bool-cases, inl, inr,
}
use sandbar.Agent.Steering.{
  steering_queue_cap, SteeringQueues, remove, is_active, queue_of, set_queue, enqueue_trimmed,
  enqueue_user_message, begin_turn, end_turn, drain, Action, enqueues, begins, ends, drains, Event,
  accepted, refused, delivered, began, report, act, run_actions,
}

-- The texts accepted for a thread, and those handed over to it.
abbrev pub accepted_in : Str → Event → List Str
accepted_in t (accepted u text) = if str_eq u t then text ∷ [] else []
accepted_in t (refused e) = []
accepted_in t (delivered u texts) = []
accepted_in t (began u) = []

abbrev pub delivered_in : Str → Event → List Str
delivered_in t (accepted u text) = []
delivered_in t (refused e) = []
delivered_in t (delivered u texts) = if str_eq u t then texts else []
delivered_in t (began u) = []

abbrev pub accepted_by : Str → List Event → List Str
accepted_by t [] = []
accepted_by t (e ∷ es) = accepted_in t e ++ accepted_by t es

abbrev pub delivered_to : Str → List Event → List Str
delivered_to t [] = []
delivered_to t (e ∷ es) = delivered_in t e ++ delivered_to t es

pub queue-set :
    (t u : Str) (texts : List Str) (q : SteeringQueues)
    → queue_of t (set_queue u texts q) ≡ (if str_eq u t then texts else queue_of t q)
unfolding queue_of set_queue
queue-set t u texts q = elim (Bool-cases (str_eq u t)) [
  | inl e ↦
      let found : lookup t (insert u texts q.queues) ≡ some texts =
        ground (arith, lookup-insert u t texts q.queues) in
      rw (queue_of, set_queue, found, e) refl
  | inr e ↦
      let kept : lookup t (insert u texts q.queues) ≡ lookup t q.queues =
        ground (arith, lookup-insert u t texts q.queues) in
      rw (queue_of, set_queue, kept, e) refl
]

-- One call: what was queued and accepted is what is handed over and queued after it.
abbrev Balanced : Str → SteeringQueues → SteeringQueues × Event → Type 0
Balanced t q out = queue_of t q ++ accepted_in t out.1 ≡ delivered_in t out.1 ++ queue_of t out.0

handed-Balanced :
    (t u : Str) (q r : SteeringQueues)
    → queue_of t r ≡ queue_of t q
    → Balanced t q (set_queue u [] r, delivered u (queue_of u q))
handed-Balanced t u q r same = elim (Bool-cases (str_eq u t)) [
  | inl e ↦
      let eq : u ≡ t = (str_eq_iff u t).0 e in
      let emptied : queue_of t (set_queue u [] r) ≡ [] = rw (queue-set t u [] r, e) refl in
      rw (e, emptied) (ap (λ k. queue_of k q ++ []) (sym eq))
  | inr e ↦
      let kept : queue_of t (set_queue u [] r) ≡ queue_of t q = rw (queue-set t u [] r, e) same in
      rw (e, kept) (append-nil (queue_of t q))
]

queued-Balanced :
    (t u text : Str) (q : SteeringQueues)
    → Balanced t q (set_queue u (queue_of u q ++ text ∷ []) q, accepted u text)
queued-Balanced t u text q = elim (Bool-cases (str_eq u t)) [
  | inl e ↦
      let eq : u ≡ t = (str_eq_iff u t).0 e in
      let longer : queue_of t (set_queue u (queue_of u q ++ text ∷ []) q)
          ≡ queue_of u q ++ text ∷ [] =
        rw (queue-set t u (queue_of u q ++ text ∷ []) q, e) refl in
      rw (e, longer) (ap (λ k. queue_of k q ++ text ∷ []) (sym eq))
  | inr e ↦
      let kept : queue_of t (set_queue u (queue_of u q ++ text ∷ []) q) ≡ queue_of t q =
        rw (queue-set t u (queue_of u q ++ text ∷ []) q, e) refl in
      rw (e, kept) (append-nil (queue_of t q))
]

-- Two stretches of events, one after the other.
chain :
    (x a d y b e z : List Str) → x ++ a ≡ d ++ y → y ++ b ≡ e ++ z → x ++ (a ++ b) ≡ (d ++ e) ++ z
chain x a d y b e z h k =
    sym (append_assoc x a b)
    ∙ (ap (λ l. l ++ b) h ∙ (append_assoc d y b ∙ (ap (λ l. d ++ l) k ∙ sym (append_assoc d e z))))

module _ (trim : Str → Str) where
  act-Balanced : (t : Str) (a : Action) (q : SteeringQueues) → Balanced t q (act trim a q)
  unfolding act begin_turn end_turn drain enqueue_user_message enqueue_trimmed queue_of report
  act-Balanced t (enqueues u text) q = elim (Bool-cases (str_eq (trim text) [])) [
    | inl e ↦ rw e (append-nil (queue_of t q))
    | inr e ↦ elim (Bool-cases (is_active u q)) [
      | inr i ↦ rw (e, i) (append-nil (queue_of t q))
      | inl i ↦ elim (Bool-cases (leb steering_queue_cap (length (queue_of u q)))) [
        | inl f ↦ rw (e, i, f) (append-nil (queue_of t q))
        | inr f ↦ rw (e, i, f) (queued-Balanced t u (trim text) q)
      ]
    ]
  ]
  act-Balanced t (begins u) q = append-nil (queue_of t q)
  act-Balanced t (ends u) q = handed-Balanced t u q (record q { active = remove u q.active }) refl
  act-Balanced t (drains u) q = handed-Balanced t u q q refl

  pub run-Balanced :
      (t : Str) (acts : List Action) (q : SteeringQueues)
      → queue_of t q ++ accepted_by t (run_actions trim acts q).1
        ≡ delivered_to t (run_actions trim acts q).1 ++ queue_of t (run_actions trim acts q).0
  unfolding run_actions
  run-Balanced t [] q = append-nil (queue_of t q)
  run-Balanced t (a ∷ acts) q =
      let out = act trim a q in
      chain (queue_of t q) (accepted_in t out.1) (delivered_in t out.1) (queue_of t out.0)
        (accepted_by t (run_actions trim acts out.0).1)
        (delivered_to t (run_actions trim acts out.0).1)
        (queue_of t (run_actions trim acts out.0).0) (act-Balanced t a q)
        (run-Balanced t acts out.0)
