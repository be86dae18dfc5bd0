-- ===== src/Agent/Payload.antt =====
-- `validateProviderPayload` of internal/agent/compression.go. The source walks `pending` in the
-- map's random order to name one call without a result; the model's error leaves its id out.
pub mod Rules
use sandbar.Base.{
  is_nil, ℕ, ◌+◌, Str, str_eq, contains, Map, lookup, insert, if◌then◌else◌, is_some, Bool, true,
  false, Option, none, some, length, List, [], ◌∷◌, not, ◌&&◌, ◌||◌,
}
use sandbar.Agent.Messages.{Role, ToolCall, Message, is_tool, is_assistant}

pub data Violation : Type 0 where
  empty_result_id : ℕ → Violation
  no_group : ℕ → Str → Violation
  outside_group : ℕ → Str → Violation
  duplicate_result : ℕ → Str → Violation
  unanswered : ℕ → ℕ → Violation
  empty_call_id : ℕ → Violation
  reused_call_id : ℕ → Str → Violation
  duplicate_call_id : ℕ → Str → Violation

pub data Checked {ℓ} (A : Type ℓ) : Type ℓ where
  ok : A → Checked A
  bad : Violation → Checked A

infixl 10 ◌>>=◌
abbrev pub ◌>>=◌ {ℓ κ} : {A : Type ℓ} {B : Type κ} → Checked A → (A → Checked B) → Checked B
ok a >>= f = f a
bad v >>= f = bad v

-- `pending` with `pendingAssistant`; `none` is the nil map.
pub record Walk : Type 0 where
  pub seen : List Str
  pub pending : Option (ℕ × Map Bool)

unfoldable pub all_answered : Map Bool → Bool
all_answered [] = true
all_answered ((id, answered) ∷ pending) = answered && all_answered pending

-- `closePending`, under `if pending != nil`.
unfoldable pub close_pending : ℕ → Option (ℕ × Map Bool) → Checked (Unit {0})
close_pending next none = ok tt
close_pending next (some (group, pending)) =
    if all_answered pending then ok tt else bad (unanswered group next)

-- The branch for `msg.Role == "tool"`.
unfoldable pub answer : ℕ → Message → Walk → Checked Walk
answer i msg w = if str_eq msg.tool_call_id [] then bad (empty_result_id i) else elim w.pending [
  | none ↦ bad (no_group i msg.tool_call_id)
  | some (group, pending) ↦ elim (lookup msg.tool_call_id pending) [
    | none ↦ bad (outside_group i msg.tool_call_id)
    | some answered ↦
        if answered
        then bad (duplicate_result i msg.tool_call_id)
        else ok (record w { pending = some (group, insert msg.tool_call_id true pending) })
  ]
]

-- The loop over the calls of an assistant message, over `seenCallIDs` and the new `pending`.
unfoldable pub open_call : ℕ → ToolCall → List Str × Map Bool → Checked (List Str × Map Bool)
open_call i tc (seen, pending) =
    if str_eq tc.id []
    then bad (empty_call_id i)
    else if contains tc.id seen
    then bad (reused_call_id i tc.id)
    else if is_some (lookup tc.id pending)
    then bad (duplicate_call_id i tc.id)
    else ok (tc.id ∷ seen, insert tc.id false pending)

unfoldable pub open_calls : ℕ → List ToolCall → List Str × Map Bool → Checked (List Str × Map Bool)
open_calls i [] acc = ok acc
open_calls i (tc ∷ tcs) acc = open_call i tc acc >>= open_calls i tcs

unfoldable pub open_group : ℕ → Message → List Str → Checked Walk
open_group i msg seen = open_calls i msg.tool_calls (seen, []) >>= λ acc.
    ok (record { seen = acc.0; pending = some (i, acc.1) })

-- The body of the loop over the messages.
unfoldable pub check_message : ℕ → Message → Walk → Checked Walk
check_message i msg w =
    if is_tool msg.role
    then answer i msg w
    else close_pending i w.pending >>= λ _.
        if not (is_assistant msg.role) || is_nil msg.tool_calls
        then ok (record w { pending = none })
        else open_group i msg w.seen

unfoldable pub check_messages : ℕ → List Message → Walk → Checked Walk
check_messages i [] w = ok w
check_messages i (msg ∷ msgs) w = check_message i msg w >>= check_messages (i + 1) msgs

abbrev pub start : Walk
start = record { seen = []; pending = none }

-- `validateProviderPayload`
unfoldable pub validate_provider_payload : List Message → Checked (Unit {0})
validate_provider_payload msgs =
    check_messages 0 msgs start >>= λ w. close_pending (length msgs) w.pending
