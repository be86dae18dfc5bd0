-- ===== src/Agent/Sanitize/Pairing.antt =====
-- What `sanitizeProviderMessages` sends passes `validateProviderPayload`.
use sandbar.Base.{
  ℕ, ◌+◌, Str, codes, str_eq, Map, lookup, insert, Distinct, Distinct-insert, str_eq_iff,
  if◌then◌else◌, Bool, true, false, Option, none, some, List, [], ◌∷◌, ◌++◌, map, not, ◌&&◌, ◌≡◌,
  refl, ap, arith, length, Bool-cases, inl, inr,
}
use mathlib.Core.Path.{ap₂, fun_ext}
use sandbar.Agent.Messages.{
  Role, system, user, assistant, tool, other, ToolCall, Message, is_tool, is_assistant,
}
use sandbar.Agent.Payload.{
  Checked, ok, ◌>>=◌, Walk, all_answered, answer, open_calls, open_group, check_message,
  check_messages, start, validate_provider_payload,
}
use sandbar.Agent.Payload.Rules.{
  Passes, Passes-map, Passes-bind, Passes-end, Closed, at, Ended, check_messages-append,
  close_pending-Closed,
}
use sandbar.Agent.Sanitize.{
  unanswered_call_set, is_open, seal, Phase, outer, inner, close, take_message, step, repair,
  fill_content, sanitize_provider_messages,
}
use sandbar.Agent.Sanitize.Group.{
  keys, ids, Fresh, call_ids, Named, Named-insert, Agrees-self, Apart-nil, Opened,
  open_calls-Passes, seal-Passes,
}

-- The checker's state fits the phase of the repair.
abbrev Fits : Phase → Option (ℕ × Map Bool) → Type 0
Fits outer pend = Closed pend
Fits (inner p order) none = ⊥
Fits (inner p order) (some (group, q)) = (p ≡ q) × (order ≡ keys q) × Distinct q × Named q

abbrev After : Phase → List Str → Walk → Type 0
After phase more w = Fits phase w.pending × Fresh w.seen more

abbrev own_ids : Message → List Str
own_ids msg = if is_assistant msg.role then ids msg.tool_calls else []

abbrev TakesWell : Message → Type 0
TakesWell msg =
    (i : ℕ) (seen : List Str) (pend : Option (ℕ × Map Bool)) (more : List Str)
    → Closed pend
    → Fresh seen (own_ids msg ++ more)
    → Passes (After (take_message msg).1 more)
        (check_messages i (take_message msg).0 (at seen pend))

-- A message taken by the outer loop, when the last group is closed.
take-Passes :
    (r : Role) (c : Str) (tcs : List ToolCall) (id : Str)
    → TakesWell (record { role = r; content = c; tool_calls = tcs; tool_call_id = id })
unfolding take_message check_messages check_message open_group unanswered_call_set lookup
take-Passes assistant c [] id i seen pend more closed fresh = elim (Bool-cases (str_eq c [])) [
  | inl e ↦ rw e (closed, fresh)
  | inr e ↦ rw e (rw (close_pending-Closed i pend closed) (tt, fresh))
]
take-Passes assistant c (tc ∷ tcs) id i seen pend more closed fresh =
    rw (close_pending-Closed i pend closed) (
      Passes-bind after after _ ok
        (Passes-bind (Opened (tc ∷ tcs) [] more) after (open_calls i (tc ∷ tcs) (seen, []))
          (λ acc. ok (at acc.0 (some (i, acc.1))))
          (open_calls-Passes i (tc ∷ tcs) seen [] more (λ k h. refl) tt tt fresh)
          (λ acc (e, d, n, f). (
            (
              ap (λ (t : Map Bool × List Str). t.0) e,
              ap (λ (t : Map Bool × List Str). t.1) e,
              d,
              n,
            ),
            f,
          )))
        (λ a h. h))
  where
    after : Walk → Type 0
    after = After (inner (unanswered_call_set (tc ∷ tcs)).0 (unanswered_call_set (tc ∷ tcs)).1) more
take-Passes tool c tcs id i seen pend more closed fresh = (closed, fresh)
take-Passes system c tcs id i seen pend more closed fresh =
    rw (close_pending-Closed i pend closed) (tt, fresh)
take-Passes user c tcs id i seen pend more closed fresh =
    rw (close_pending-Closed i pend closed) (tt, fresh)
take-Passes (other s) c tcs id i seen pend more closed fresh =
    rw (close_pending-Closed i pend closed) (tt, fresh)

-- The end of a group: what closing it sends, then what the next message sends.
close-Passes :
    (p : Map Bool) (order : List Str) (i : ℕ) (seen : List Str) (pend : Option (ℕ × Map Bool))
    → Fits (inner p order) pend
    → Passes
        (λ w. (w.seen ≡ seen) × Closed w.pending)
        (check_messages i (seal p order) (at seen pend))
unfolding all_answered
close-Passes p order i seen none h = absurd h
close-Passes p order i seen (some (group, q)) (pe, oe, d, n) =
    rw (pe, oe) (seal-Passes group q seen i q [] (Agrees-self q d) n d (Apart-nil q) refl)

open_inv : (k : Str) (p : Map Bool) → is_open k p ≡ true → lookup k p ≡ some false
unfolding is_open
open_inv k p h = ground arith

Named-lookup :
    (k : Str) (p : Map Bool) (b : Bool) → Named p → lookup k p ≡ some b → str_eq k [] ≡ false
unfolding lookup
Named-lookup k [] b n h = cc
Named-lookup k ((j, v) ∷ p) b n h =
    ground (arith, str_eq_iff j k, str_eq_iff k [], str_eq_iff j [], Named-lookup k p b)

tool-not_assistant : (r : Role) → is_tool r ≡ true → is_assistant r ≡ false
tool-not_assistant assistant h = cc
tool-not_assistant _ h = refl

keys-answered :
    (k : Str) (p : Map Bool) (b : Bool) → lookup k p ≡ some b → keys p ≡ keys (insert k true p)
unfolding lookup insert
keys-answered k [] b h = cc
keys-answered k ((j, v) ∷ p) b h = ground (arith, keys-answered k p b)

-- A tool result in the inner loop.
answer-Passes :
    (i : ℕ) (msg : Message) (seen : List Str) (more : List Str) (group : ℕ) (q : Map Bool)
    → is_tool msg.role ≡ true
    → is_open msg.tool_call_id q ≡ true
    → Distinct q
    → Named q
    → Fresh seen more
    → Passes
        (After (inner (insert msg.tool_call_id true q) (keys q)) more)
        (check_messages i (msg ∷ []) (at seen (some (group, q))))
unfolding check_messages check_message answer
answer-Passes i msg seen more group q t o d n fresh =
    let found : lookup msg.tool_call_id q ≡ some false = open_inv msg.tool_call_id q o in
    let named : str_eq msg.tool_call_id [] ≡ false =
      Named-lookup msg.tool_call_id q false n found in
    rw (t, named, found)
      (
        (
          refl,
          keys-answered msg.tool_call_id q false found,
          Distinct-insert msg.tool_call_id true q d,
          Named-insert msg.tool_call_id true q named n,
        ),
        fresh,
      )

module _ (i : ℕ) (msg : Message) (seen : List Str) (more : List Str) where
  inner_tool :
      (p : Map Bool) (order : List Str) (group : ℕ) (q : Map Bool)
      → Fits (inner p order) (some (group, q))
      → is_tool msg.role ≡ true
      → Fresh seen more
      → Passes
          (After (step (inner p order) msg).1 more)
          (check_messages i (step (inner p order) msg).0 (at seen (some (group, q))))
  unfolding step check_messages
  inner_tool p order group q (pe, oe, d, n) e fresh =
      elim (Bool-cases (is_open msg.tool_call_id q)) [
        | inl o ↦ rw (pe, oe, e, o) (answer-Passes i msg seen more group q e o d n fresh)
        | inr o ↦ rw (pe, oe, e, o) ((refl, refl, d, n), fresh)
      ]

  inner-Passes :
      (p : Map Bool) (order : List Str) (pend : Option (ℕ × Map Bool))
      → Fits (inner p order) pend
      → Fresh seen (own_ids msg ++ more)
      → Passes
          (After (step (inner p order) msg).1 more)
          (check_messages i (step (inner p order) msg).0 (at seen pend))
  unfolding step
  inner-Passes p order none h fresh = absurd h
  inner-Passes p order (some (group, q)) h fresh = elim (Bool-cases (is_tool msg.role)) [
    | inl e ↦ inner_tool p order group q h e (rw (tool-not_assistant msg.role e) at fresh)
    | inr e ↦ rw e (
        rw (check_messages-append i (seal p order) (take_message msg).0 (at seen (some (group, q))))
          (Passes-bind (λ w. (w.seen ≡ seen) × Closed w.pending) (After (take_message msg).1 more)
            (check_messages i (seal p order) (at seen (some (group, q))))
            (check_messages (i + length (seal p order)) (take_message msg).0)
            (close-Passes p order i seen (some (group, q)) h)
            (λ w (same, closed).
              take-Passes msg.role msg.content msg.tool_calls msg.tool_call_id
                (i + length (seal p order)) w.seen w.pending more closed (rw same fresh))))
  ]

step-Passes :
    (phase : Phase) (i : ℕ) (msg : Message) (seen : List Str) (pend : Option (ℕ × Map Bool))
    (more : List Str)
    → Fits phase pend
    → Fresh seen (own_ids msg ++ more)
    → Passes (After (step phase msg).1 more) (check_messages i (step phase msg).0 (at seen pend))
unfolding step
step-Passes outer i msg seen pend more h fresh =
    take-Passes msg.role msg.content msg.tool_calls msg.tool_call_id i seen pend more h fresh
step-Passes (inner p order) i msg seen pend more h fresh =
    inner-Passes i msg seen more p order pend h fresh

repair-Passes :
    (msgs : List Message) (phase : Phase) (i : ℕ) (seen : List Str) (pend : Option (ℕ × Map Bool))
    → Fits phase pend
    → Fresh seen (call_ids msgs)
    → Passes Ended (check_messages i (repair phase msgs) (at seen pend))
unfolding repair close
repair-Passes [] outer i seen pend h fresh = unfold check_messages in h
repair-Passes [] (inner p order) i seen pend h fresh =
    Passes-map (λ w. (w.seen ≡ seen) × Closed w.pending) Ended _
      (close-Passes p order i seen pend h) (λ w r. r.1)
repair-Passes (msg ∷ msgs) phase i seen pend h fresh =
    rw (check_messages-append i (step phase msg).0 (repair (step phase msg).1 msgs) (at seen pend))
      (Passes-bind (After (step phase msg).1 (call_ids msgs)) Ended
        (check_messages i (step phase msg).0 (at seen pend))
        (check_messages (i + length (step phase msg).0) (repair (step phase msg).1 msgs))
        (step-Passes phase i msg seen pend (call_ids msgs) h fresh)
        (λ w (fits, f).
          repair-Passes msgs (step phase msg).1 (i + length (step phase msg).0) w.seen w.pending
            fits f))

-- The checker does not read the content that `fill_content` writes.
check_message-fill_content :
    (i : ℕ) (msg : Message) (w : Walk)
    → check_message i (fill_content msg) w ≡ check_message i msg w
unfolding check_message answer open_group fill_content
check_message-fill_content i msg w = either (not (is_assistant msg.role) && str_eq msg.content [])
  where
    either :
        (b : Bool)
        → check_message i (if b then record msg { content = codes "(empty)" } else msg) w
          ≡ check_message i msg w
    either true = refl
    either false = refl

check_messages-fill_content :
    (i : ℕ) (msgs : List Message) (w : Walk)
    → check_messages i (map fill_content msgs) w ≡ check_messages i msgs w
unfolding check_messages
check_messages-fill_content i [] w = refl
check_messages-fill_content i (msg ∷ msgs) w =
    ap₂ (λ (m : Checked Walk) (f : Walk → Checked Walk). m >>= f)
      (check_message-fill_content i msg w)
      (fun_ext (λ a. check_messages-fill_content (i + 1) msgs a))

-- If the ids of all calls of assistant messages are non-empty and pairwise different, the messages
-- that `sanitizeProviderMessages` returns pass `validateProviderPayload`.
pub sanitize-validate :
    (msgs : List Message)
    → Fresh [] (call_ids msgs)
    → validate_provider_payload (sanitize_provider_messages msgs) ≡ ok tt
unfolding validate_provider_payload sanitize_provider_messages
sanitize-validate msgs fresh = rw (check_messages-fill_content 0 (repair outer msgs) start) (
    Passes-end (length (map fill_content (repair outer msgs)))
      (check_messages 0 (repair outer msgs) start) (repair-Passes msgs outer 0 [] none tt fresh))
