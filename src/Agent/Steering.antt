-- ===== src/Agent/Steering.antt =====
-- internal/agent/steering.go: the queues of messages that a user sends during a turn.
-- The mutex makes every operation one step. `trim` is `strings.TrimSpace`.
pub mod Delivery
pub mod Bounded
use sandbar.Base.{
  ℕ, ◌+◌, Str, str_eq, Map, lookup, insert, if◌then◌else◌, leb, length, Bool, true, false, Option,
  none, some, List, [], ◌∷◌, ◌++◌, not, ◌&&◌,
}

abbrev pub steering_queue_cap : ℕ
steering_queue_cap = 8

pub data SteeringError : Type 0 where
  empty_message : SteeringError
  no_active_turn : SteeringError
  steering_queue_full : SteeringError

pub record SteeringQueues : Type 0 where
  pub active : Map Bool
  pub queues : Map (List Str)

unfoldable pub new_steering_queues : SteeringQueues
new_steering_queues = record { active = []; queues = [] }

-- Go's `delete` on a map.
unfoldable pub remove : Str → Map Bool → Map Bool
remove k [] = []
remove k ((j, b) ∷ m) = let rest = remove k m in if str_eq j k then rest else (j, b) ∷ rest

unfoldable pub is_active : Str → SteeringQueues → Bool
is_active thread_id q = elim (lookup thread_id q.active) [ none ↦ false | some b ↦ b ]

unfoldable pub queue_of : Str → SteeringQueues → List Str
queue_of thread_id q = elim (lookup thread_id q.queues) [ none ↦ [] | some texts ↦ texts ]

unfoldable pub set_queue : Str → List Str → SteeringQueues → SteeringQueues
set_queue thread_id texts q = record q { queues = insert thread_id texts q.queues }

-- `EnqueueUserMessage` on a trimmed text; the error is `none` when the text is queued.
unfoldable pub enqueue_trimmed : Str → Str → SteeringQueues → SteeringQueues × Option SteeringError
enqueue_trimmed thread_id text q =
    if str_eq text []
    then (q, some empty_message)
    else if not (is_active thread_id q)
    then (q, some no_active_turn)
    else if leb steering_queue_cap (length (queue_of thread_id q))
    then (q, some steering_queue_full)
    else (set_queue thread_id (queue_of thread_id q ++ text ∷ []) q, none)

unfoldable pub enqueue_user_message :
    (Str → Str) → Str → Str → SteeringQueues → SteeringQueues × Option SteeringError
enqueue_user_message trim thread_id text q = enqueue_trimmed thread_id (trim text) q

unfoldable pub begin_turn : Str → SteeringQueues → SteeringQueues
begin_turn thread_id q = record q { active = insert thread_id true q.active }

unfoldable pub end_turn : Str → SteeringQueues → SteeringQueues × List Str
end_turn thread_id q =
    (set_queue thread_id [] (record q { active = remove thread_id q.active }), queue_of thread_id q)

unfoldable pub drain : Str → SteeringQueues → SteeringQueues × List Str
drain thread_id q = (set_queue thread_id [] q, queue_of thread_id q)

-- A call of one of the four operations, and what it hands over.
pub data Action : Type 0 where
  enqueues : Str → Str → Action
  begins : Str → Action
  ends : Str → Action
  drains : Str → Action

pub data Event : Type 0 where
  accepted : Str → Str → Event
  refused : SteeringError → Event
  delivered : Str → List Str → Event
  began : Str → Event

-- What an enqueue reports: the text if there was no error.
unfoldable pub report : Str → Str → Option SteeringError → Event
report thread_id text none = accepted thread_id text
report thread_id text (some e) = refused e

module _ (trim : Str → Str) where
  unfoldable pub act : Action → SteeringQueues → SteeringQueues × Event
  act (enqueues thread_id text) q =
      let out = enqueue_user_message trim thread_id text q in
      (out.0, report thread_id (trim text) out.1)
  act (begins thread_id) q = (begin_turn thread_id q, began thread_id)
  act (ends thread_id) q = let out = end_turn thread_id q in (out.0, delivered thread_id out.1)
  act (drains thread_id) q = let out = drain thread_id q in (out.0, delivered thread_id out.1)

  -- A sequence of calls, with its events in order.
  unfoldable pub run_actions : List Action → SteeringQueues → SteeringQueues × List Event
  run_actions [] q = (q, [])
  run_actions (a ∷ acts) q =
      let first = act a q in let rest = run_actions acts first.0 in (rest.0, first.1 ∷ rest.1)
