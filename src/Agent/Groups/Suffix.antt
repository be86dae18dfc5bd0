-- ===== src/Agent/Groups/Suffix.antt =====
-- What follows the end of a group of a valid message list is itself a valid message list: a
-- compression boundary never cuts an assistant message from its tool results.
use sandbar.Base.{
  ℕ, zero, suc, ◌+◌, ◌-◌, ◌≤◌, ◌<◌, length, length-drop, drop-drop, drop, Bool, Option, none, some,
  List, [], ◌∷◌, ◌≡◌, arith, ◌⊎◌, inl, inr, Bool-cases, Str, Map, str_eq,
}
use sandbar.Agent.Messages.{Message, ToolCall, Role, is_tool, system, user, assistant, tool, other}
use sandbar.Agent.Payload.{
  Checked, ok, bad, ◌>>=◌, Walk, close_pending, answer, check_message, check_messages, start,
  validate_provider_payload,
}
use sandbar.Agent.Payload.Rules.{Passes, Passes-end, Closed, at, Ended}
use sandbar.Agent.Groups.{
  MessageGroup, result_run, next_group, group_from, group_messages_for_compression,
  align_compression_boundary,
}
use sandbar.Agent.Groups.Tiling.{
  EndsAt, Tiles, group_from-Tiles, next_group-bounds, align_boundary_lem,
}
use sandbar.Agent.Groups.Restart.{NotToolHead, restart}

-- What is left of a list that passes, from wherever the check stands then.
abbrev Resumes : List Message → Type 0
Resumes msgs = (i : ℕ) × (w : Walk) × Passes Ended (check_messages i msgs w)

Resumes-drop : (k : ℕ) (msgs : List Message) → Resumes msgs → Resumes (drop k msgs)
unfolding check_messages
Resumes-drop zero msgs h = h
Resumes-drop (suc k) [] h = h
Resumes-drop (suc k) (msg ∷ msgs) (i, w, h) = Resumes-drop k msgs (tail (check_message i msg w) h)
  where
    tail : (m : Checked Walk) → Passes Ended (m >>= check_messages (i + 1) msgs) → Resumes msgs
    tail (ok a) c = (i + 1, a, c)
    tail (bad v) c = absurd c

-- After a message that opens no group, the next is no tool result.
lone_message :
    (i : ℕ) (msgs : List Message) (m : Checked (Unit {0})) (seen : List Str)
    → Passes Ended (m >>= (λ u. ok (at seen none)) >>= check_messages i msgs)
    → NotToolHead msgs
unfolding check_messages check_message answer
lone_message i [] m seen h = tt
lone_message i (msg ∷ msgs) (bad v) seen h = absurd h
lone_message i (msg ∷ msgs) (ok u) seen h = elim (Bool-cases (is_tool msg.role)) [
  | inl t ↦ elim (Bool-cases (str_eq msg.tool_call_id [])) [
    | inl e ↦ absurd (rw (t, e) at h)
    | inr e ↦ absurd (rw (t, e) at h)
  ]
  | inr t ↦ t
]

result_run-NotToolHead : (msgs : List Message) → NotToolHead (drop (result_run msgs) msgs)
unfolding result_run
result_run-NotToolHead [] = tt
result_run-NotToolHead (msg ∷ msgs) = elim (Bool-cases (is_tool msg.role)) [
  | inl t ↦ rw t (result_run-NotToolHead msgs)
  | inr t ↦ rw t t
]

abbrev rest_after : ℕ → Message → List Message → List Message
rest_after i msg msgs = drop ((next_group i msg msgs).end - (i + 1)) msgs

one_taken :
    (i : ℕ) (msgs : List Message) → NotToolHead msgs → NotToolHead (drop (i + 1 - (i + 1)) msgs)
one_taken i msgs h = let e : i + 1 - (i + 1) ≡ 0 = omega arith in rw e h

next_group-NotToolHead :
    (r : Role) (c : Str) (tcs : List ToolCall) (id : Str) (msgs : List Message) (i j : ℕ) (w : Walk)
    → NotToolHead (record { role = r; content = c; tool_calls = tcs; tool_call_id = id } ∷ msgs)
    → Passes Ended (
        check_messages j
          (record { role = r; content = c; tool_calls = tcs; tool_call_id = id } ∷ msgs)
          w)
    → NotToolHead
        (rest_after i (record { role = r; content = c; tool_calls = tcs; tool_call_id = id }) msgs)
unfolding next_group check_messages check_message
next_group-NotToolHead system c tcs id msgs i j w n h =
    one_taken i msgs (lone_message (j + 1) msgs (close_pending j w.pending) w.seen h)
next_group-NotToolHead user c tcs id msgs i j w n h =
    one_taken i msgs (lone_message (j + 1) msgs (close_pending j w.pending) w.seen h)
next_group-NotToolHead (other s) c tcs id msgs i j w n h =
    one_taken i msgs (lone_message (j + 1) msgs (close_pending j w.pending) w.seen h)
next_group-NotToolHead tool c tcs id msgs i j w n h = cc
next_group-NotToolHead assistant c [] id msgs i j w n h =
    one_taken i msgs (lone_message (j + 1) msgs (close_pending j w.pending) w.seen h)
next_group-NotToolHead assistant c (tc ∷ tcs) id msgs i j w n h =
    let e : i + 1 + result_run msgs - (i + 1) ≡ result_run msgs = omega arith in
    rw e (result_run-NotToolHead msgs)

EndsAt-lt : (i n b : ℕ) (gs : List MessageGroup) → Tiles i gs n → EndsAt b gs → i < b
EndsAt-lt i n b [] t e = absurd e
EndsAt-lt i n b (g ∷ gs) t (inl e) = omega arith
EndsAt-lt i n b (g ∷ gs) t (inr e) = omega (arith, EndsAt-lt g.end n b gs t.2 e)

group_from-suffix :
    (fuel i b : ℕ) (msgs : List Message)
    → length msgs ≤ fuel
    → NotToolHead msgs
    → Resumes msgs
    → EndsAt b (group_from fuel i msgs)
    → Passes Ended (check_messages 0 (drop (b - i) msgs) start)
unfolding group_from
group_from-suffix fuel i b [] f n r e = absurd e
group_from-suffix zero i b (msg ∷ msgs) f n r e = absurd e
group_from-suffix (suc fuel) i b (msg ∷ msgs) f n (j, w, h) e =
    let k : ℕ = (next_group i msg msgs).end - (i + 1) in
    let (begins, moves, fits) = next_group-bounds i msg msgs in
    let free : NotToolHead (drop k msgs) =
      next_group-NotToolHead msg.role msg.content msg.tool_calls msg.tool_call_id msgs i j w n h in
    let left : Resumes (drop k msgs) = Resumes-drop (suc k) (msg ∷ msgs) (j, w, h) in
    elim e [
      | inl here ↦
          let same : b - i ≡ suc k = omega arith in
          rw same (restart left.0 (drop k msgs) left.1 free left.2)
      | inr there ↦
          let past : (next_group i msg msgs).end < b =
            EndsAt-lt (next_group i msg msgs).end
              ((next_group i msg msgs).end + length (drop k msgs)) b
              (group_from fuel (next_group i msg msgs).end (drop k msgs))
              (group_from-Tiles fuel (next_group i msg msgs).end (drop k msgs)
                (omega (arith, length-drop k msgs)))
              there in
          let same : b - i ≡ suc (k + (b - (next_group i msg msgs).end)) = omega arith in
          rw same (
            rw (← drop-drop (b - (next_group i msg msgs).end) k msgs) (
              group_from-suffix fuel (next_group i msg msgs).end b (drop k msgs)
                (omega (arith, length-drop k msgs)) free left there))
    ]

close_pending-ok :
    (n : ℕ) (pend : Option (ℕ × Map Bool)) → close_pending n pend ≡ ok tt → Closed pend
unfolding close_pending
close_pending-ok n none h = tt
close_pending-ok n (some (i, p)) h = ground arith

Passes-validate :
    (n : ℕ) (m : Checked Walk) → (m >>= λ w. close_pending n w.pending) ≡ ok tt → Passes Ended m
Passes-validate n (ok w) h = close_pending-ok n w.pending h
Passes-validate n (bad v) h = cc

validate-NotToolHead :
    (msgs : List Message) → Passes Ended (check_messages 0 msgs start) → NotToolHead msgs
validate-NotToolHead msgs h = lone_message 0 msgs (ok tt) [] h

-- If a message list passes `validateProviderPayload`, then so does the list from any compression
-- boundary on: what compression keeps verbatim never begins inside a tool group.
pub boundary-validate :
    (target : ℕ) (msgs : List Message)
    → validate_provider_payload msgs ≡ ok tt
    → validate_provider_payload
        (drop (align_compression_boundary (group_messages_for_compression msgs) target msgs) msgs)
      ≡ ok tt
unfolding validate_provider_payload group_messages_for_compression
boundary-validate target msgs h =
    Passes-end (length (drop b msgs)) _ (at_boundary (align_boundary_lem target msgs).0)
  where
    b : ℕ
    b = align_compression_boundary (group_messages_for_compression msgs) target msgs

    passes : Passes Ended (check_messages 0 msgs start)
    passes = Passes-validate (length msgs) (check_messages 0 msgs start) h

    at_boundary :
        (b ≡ 0) ⊎ EndsAt b (group_messages_for_compression msgs)
        → Passes Ended (check_messages 0 (drop b msgs) start)
    at_boundary (inl e) = rw e passes
    at_boundary (inr e) =
        let whole : b - 0 ≡ b = omega arith in
        rw whole at (
          group_from-suffix (length msgs) 0 b msgs (omega arith) (validate-NotToolHead msgs passes)
            (0, start, passes) e)
