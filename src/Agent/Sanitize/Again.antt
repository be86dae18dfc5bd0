-- ===== src/Agent/Sanitize/Again.antt =====
-- What passes the payload check passes it after another repair.
use sandbar.Base.{
  ℕ, ◌+◌, Str, Map, if◌then◌else◌, is_nil, Bool, true, false, none, List, [], ◌∷◌, ◌++◌, not, ◌||◌,
  ◌≡◌, refl, sym, arith, Bool-cases, inl, inr,
}
use sandbar.Agent.Messages.{
  Role, system, user, assistant, tool, other, ToolCall, Message, is_tool, is_assistant,
}
use sandbar.Agent.Payload.{
  Checked, ok, bad, ◌>>=◌, Walk, start, answer, open_call, open_calls, open_group, close_pending,
  check_message, check_messages, validate_provider_payload,
}
use sandbar.Agent.Payload.Rules.{Passes, Passes-map}
use sandbar.Agent.Sanitize.{sanitize_provider_messages}
use sandbar.Agent.Sanitize.Group.{ids, call_ids, Fresh}
use sandbar.Agent.Sanitize.Pairing.{sanitize-validate}

Passes-unbind :
    {A B : Type 0} (P : B → Type 0) (m : Checked A) (f : A → Checked B)
    → Passes P (m >>= f)
    → Passes (λ a. Passes P (f a)) m
Passes-unbind P (ok a) f h = h
Passes-unbind P (bad v) f h = h

open_call-Fresh :
    (i : ℕ) (tc : ToolCall) (seen : List Str) (pending : Map Bool) (rest : List Str)
    → Passes (λ acc. Fresh acc.0 rest) (open_call i tc (seen, pending))
    → Fresh seen (tc.id ∷ rest)
unfolding open_call
open_call-Fresh i tc seen pending rest h = ground (arith, h)

open_calls-Fresh :
    (i : ℕ) (tcs : List ToolCall) (acc : List Str × Map Bool) (rest : List Str)
    → Passes (λ out. Fresh out.0 rest) (open_calls i tcs acc)
    → Fresh acc.0 (ids tcs ++ rest)
unfolding open_calls
open_calls-Fresh i [] acc rest h = h
open_calls-Fresh i (tc ∷ tcs) acc rest h = open_call-Fresh i tc acc.0 acc.1 (ids tcs ++ rest) (
    Passes-map _ _ (open_call i tc acc) (Passes-unbind _ (open_call i tc acc) (open_calls i tcs) h)
      (λ out k. open_calls-Fresh i tcs out rest k))

tool-not_assistant : (r : Role) → is_tool r ≡ true → is_assistant r ≡ false
tool-not_assistant system h = refl
tool-not_assistant user h = refl
tool-not_assistant assistant h = sym h
tool-not_assistant tool h = refl
tool-not_assistant (other s) h = refl

answer-Fresh :
    (i : ℕ) (msg : Message) (w : Walk) (rest : List Str)
    → Passes (λ out. Fresh out.seen rest) (answer i msg w)
    → Fresh w.seen rest
unfolding answer
answer-Fresh i msg w rest h = ground (arith, h)

abbrev ids_in : Message → List Str
ids_in msg = if is_assistant msg.role then ids msg.tool_calls else []

open_group-Fresh :
    (i : ℕ) (msg : Message) (seen rest : List Str)
    → Passes (λ out. Fresh out.seen rest) (open_group i msg seen)
    → Fresh seen (ids msg.tool_calls ++ rest)
unfolding open_group
open_group-Fresh i msg seen rest h =
    open_calls-Fresh i msg.tool_calls (seen, []) rest
      (Passes-map _ _ (open_calls i msg.tool_calls (seen, []))
        (Passes-unbind (λ (out : Walk). Fresh out.seen rest)
          (open_calls i msg.tool_calls (seen, [])) _ h)
        (λ out k. k))

no_calls : (tcs : List ToolCall) → is_nil tcs ≡ true → ids tcs ≡ []
no_calls [] h = refl
no_calls (tc ∷ tcs) h = ground (arith, h)

check_message-Fresh :
    (i : ℕ) (msg : Message) (w : Walk) (rest : List Str)
    → Passes (λ out. Fresh out.seen rest) (check_message i msg w)
    → Fresh w.seen (ids_in msg ++ rest)
unfolding check_message
check_message-Fresh i msg w rest h = elim (Bool-cases (is_tool msg.role)) [
  | inl result ↦
      rw (tool-not_assistant msg.role result)
        (answer-Fresh i msg w rest (rw (check_message, result) at h))
  | inr other_role ↦ after_close (close_pending i w.pending) (rw (check_message, other_role) at h)
]
  where
    after_close :
        (m : Checked (Unit {0}))
        → Passes
            (λ out. Fresh out.seen rest)
            (m >>= λ u.
              if not (is_assistant msg.role) || is_nil msg.tool_calls
              then ok (record w { pending = none })
              else open_group i msg w.seen)
        → Fresh w.seen (ids_in msg ++ rest)
    after_close (bad v) k = absurd k
    after_close (ok u) k = elim (Bool-cases (is_assistant msg.role)) [
      | inr other_role ↦ rw other_role (rw other_role at k)
      | inl own ↦ elim (Bool-cases (is_nil msg.tool_calls)) [
        | inl empty ↦ rw (own, no_calls msg.tool_calls empty) (rw (own, empty) at k)
        | inr calls ↦ rw own (open_group-Fresh i msg w.seen rest (rw (own, calls) at k))
      ]
    ]

check_messages-Fresh :
    (i : ℕ) (msgs : List Message) (w : Walk)
    → Passes (λ out. Unit {0}) (check_messages i msgs w)
    → Fresh w.seen (call_ids msgs)
unfolding check_messages
check_messages-Fresh i [] w h = tt
check_messages-Fresh i (msg ∷ msgs) w h = check_message-Fresh i msg w (call_ids msgs) (
    Passes-map _ _ (check_message i msg w)
      (Passes-unbind (λ (out : Walk). Unit {0}) (check_message i msg w)
        (check_messages (i + 1) msgs) h)
      (λ out k. check_messages-Fresh (i + 1) msgs out k))

passing :
    {A B : Type 0} (m : Checked A) (f : A → Checked B) {b : B}
    → (m >>= f) ≡ ok b
    → Passes (λ a. Unit {0}) m
passing (ok a) f e = tt
passing (bad v) f e = ground (arith, e)

-- A payload that passes the check passes it after the repair, too.
pub validate-sanitize :
    (msgs : List Message)
    → validate_provider_payload msgs ≡ ok tt
    → validate_provider_payload (sanitize_provider_messages msgs) ≡ ok tt
unfolding validate_provider_payload
validate-sanitize msgs e =
    sanitize-validate msgs
      (check_messages-Fresh 0 msgs start (passing (check_messages 0 msgs start) _ e))
