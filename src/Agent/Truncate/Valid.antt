-- ===== src/Agent/Truncate/Valid.antt =====
-- What the fallback sends passes the payload check.
use sandbar.Base.{
  ℕ, suc, ◌+◌, ◌-◌, ◌≤◌, ◌<◌, Str, leb, is_nil, true, false, none, some, List, [], ◌∷◌, not, ◌&&◌,
  ◌≡◌, refl, sym, ◌∙◌, ◌==◌, arith, All, All-append, Bool-cases, Option-cases, inl, inr, ◌⊎◌,
}
use mathlib.Core.Path.{subst}
use mathlib.Core.List.{reverse, reverse-append}
use sandbar.Agent.Messages.{
  Role, user, system, assistant, tool, other, Message, IndexedMessage, is_user, is_system, is_tool,
  is_assistant,
}
use sandbar.Agent.Payload.{
  Checked, ok, bad, Violation, check_message, check_messages, close_pending,
  validate_provider_payload,
}
use sandbar.Agent.Truncate.{
  is_active_summary, own_checkpoint, merge_checkpoint, push_raw, to_raw_messages, latest_user_from,
  latest_persisted_user_index, nth, checkpoint_after, leading_system, user_and_checkpoint,
  minimal_safe_indexed_payload, or_minimal, shrink, truncate_indexed_to_budget,
}

-- Neither an assistant message nor a tool result.
abbrev Plain : Message → Type 0
Plain msg = (is_tool msg.role ≡ false) × (is_assistant msg.role ≡ false)

merge_checkpoint-Plain :
    (out : List Message) (msg : Message) → All Plain out → All Plain (merge_checkpoint out msg)
unfolding merge_checkpoint own_checkpoint
merge_checkpoint-Plain [] msg h = ((refl, refl), tt)
merge_checkpoint-Plain (last ∷ out) msg h = elim (Bool-cases (is_user last.role)) [
  | inl e ↦ rw e (h.0, h.1)
  | inr e ↦ rw e ((refl, refl), h)
]

-- Every message is plain or a checkpoint.
abbrev Harmless : List IndexedMessage → Type 0
Harmless [] = Unit
Harmless (m ∷ ms) = (is_active_summary m.kind ≡ false → Plain m.msg) × Harmless ms

push_raw-Plain :
    (ms : List IndexedMessage) (out : List Message)
    → Harmless ms
    → All Plain out
    → All Plain (push_raw out ms)
unfolding push_raw
push_raw-Plain [] out h p = p
push_raw-Plain (m ∷ ms) out h p = elim (Bool-cases (is_active_summary m.kind)) [
  | inl e ↦
      rw e (push_raw-Plain ms (merge_checkpoint out m.msg) h.1 (merge_checkpoint-Plain out m.msg p))
  | inr e ↦ rw e (push_raw-Plain ms (m.msg ∷ out) h.1 (h.0 e, p))
]

All-reverse : (out : List Message) → All Plain out → All Plain (reverse out)
All-reverse [] h = tt
All-reverse (m ∷ out) h =
    rw (reverse-append (m ∷ []) out)
      (All-append Plain (reverse out) (m ∷ []) (All-reverse out h.1) (h.0, tt))

check_messages-Plain :
    (i : ℕ) (msgs : List Message) (seen : List Str)
    → All Plain msgs
    → check_messages i msgs (record { seen = seen; pending = none })
      ≡ ok (record { seen = seen; pending = none })
unfolding check_messages check_message close_pending
check_messages-Plain i [] seen h = refl
check_messages-Plain i (msg ∷ msgs) seen ((t, a), h) =
    rw (t, a) (check_messages-Plain (i + 1) msgs seen h)

Harmless-validate :
    (ms : List IndexedMessage)
    → Harmless ms
    → validate_provider_payload (to_raw_messages ms) ≡ ok tt
unfolding validate_provider_payload to_raw_messages close_pending
Harmless-validate ms h = rw (
    check_messages-Plain 0 (reverse (push_raw [] ms)) []
      (All-reverse (push_raw [] ms) (push_raw-Plain ms [] h tt)))

pub latest_user-nth :
    (i j : ℕ) (ms : List IndexedMessage)
    → latest_user_from i ms ≡ some j
    → (i ≤ j) × (m : IndexedMessage) × (nth (j - i) ms ≡ some m) × (is_user m.msg.role ≡ true)
unfolding latest_user_from nth
latest_user-nth i j [] h = cc
latest_user-nth i j (m ∷ ms) h = elim (Option-cases (latest_user_from (i + 1) ms)) [
  | inr (k, e) ↦
      let eq : some k ≡ some j = sym (rw (latest_user_from, e) refl) ∙ h in
      let same : k ≡ j = cc in
      let (later, x, found, u) = latest_user-nth (i + 1) k ms e in
      let step : j - i ≡ suc (k - (i + 1)) = omega arith in (omega arith, x, rw step found, u)
  | inl e ↦ elim (Bool-cases (not m.synthetic && is_user m.msg.role)) [
    | inl c ↦
        let eq : some i ≡ some j = sym (rw (latest_user_from, e, c) refl) ∙ h in
        let same : i ≡ j = cc in
        let here : j - i ≡ 0 = omega arith in (omega arith, m, rw here refl, ground arith)
    | inr c ↦ cc (rw (e, c) at h)
  ]
]

user-Plain : (msg : Message) → is_user msg.role ≡ true → Plain msg
user-Plain msg h = (roles msg.role h).0
  where
    roles :
        (r : Role) → is_user r ≡ true → ((is_tool r ≡ false) × (is_assistant r ≡ false)) × Unit {0}
    roles user h = ((refl, refl), tt)
    roles system h = ((refl, refl), tt)
    roles assistant h = cc
    roles tool h = cc
    roles (other s) h = ((refl, refl), tt)

system-Plain : (r : Role) → is_system r ≡ true → (is_tool r ≡ false) × (is_assistant r ≡ false)
system-Plain system h = (refl, refl)
system-Plain user h = (refl, refl)
system-Plain assistant h = cc
system-Plain tool h = cc
system-Plain (other s) h = (refl, refl)

checkpoint-Harmless : (i : ℕ) (ms : List IndexedMessage) → Harmless (checkpoint_after i ms)
unfolding checkpoint_after
checkpoint-Harmless i ms = elim (Option-cases (nth (i + 1) ms)) [
  | inl e ↦
      let gone : checkpoint_after i ms ≡ [] = rw (checkpoint_after, e) refl in
      subst Harmless (sym gone) tt
  | inr (m, e) ↦ elim (Bool-cases (is_active_summary m.kind)) [
    | inl c ↦
        let stays : checkpoint_after i ms ≡ m ∷ [] = rw (checkpoint_after, e, c) refl in
        subst Harmless (sym stays) ((λ d. cc), tt)
    | inr c ↦
        let gone : checkpoint_after i ms ≡ [] = rw (checkpoint_after, e, c) refl in
        subst Harmless (sym gone) tt
  ]
]

user_and_checkpoint-Harmless : (ms : List IndexedMessage) → Harmless (user_and_checkpoint ms)
unfolding user_and_checkpoint latest_persisted_user_index
user_and_checkpoint-Harmless ms = elim (Option-cases (latest_user_from 0 ms)) [
  | inl e ↦
      let gone : user_and_checkpoint ms ≡ [] =
        rw (user_and_checkpoint, latest_persisted_user_index, e) refl in
      subst Harmless (sym gone) tt
  | inr (j, e) ↦
      let (low, m, found, u) = latest_user-nth 0 j ms e in
      let whole : j - 0 ≡ j = omega arith in
      let at_j : nth j ms ≡ some m = rw whole at found in
      let stays : user_and_checkpoint ms ≡ m ∷ checkpoint_after j ms =
        rw (user_and_checkpoint, latest_persisted_user_index, e, at_j) refl in
      subst Harmless (sym stays) ((λ d. user-Plain m.msg u), checkpoint-Harmless j ms)
]

minimal-Harmless : (ms : List IndexedMessage) → Harmless (minimal_safe_indexed_payload ms)
unfolding minimal_safe_indexed_payload leading_system
minimal-Harmless [] = user_and_checkpoint-Harmless []
minimal-Harmless (m ∷ ms) = elim (Bool-cases (is_system m.msg.role)) [
  | inl e ↦ rw e ((λ d. system-Plain m.msg.role e), user_and_checkpoint-Harmless (m ∷ ms))
  | inr e ↦ rw e (user_and_checkpoint-Harmless (m ∷ ms))
]

-- The minimal payload passes the check, whatever the list was.
minimal-validate :
    (ms : List IndexedMessage)
    → validate_provider_payload (to_raw_messages (minimal_safe_indexed_payload ms)) ≡ ok tt
minimal-validate ms = Harmless-validate (minimal_safe_indexed_payload ms) (minimal-Harmless ms)

-- The checked result stands, and otherwise the minimal payload does.
abbrev ReadyIn : List IndexedMessage → Type 0
ReadyIn ms = validate_provider_payload (to_raw_messages ms) ≡ ok tt

Checked-cases : (c : Checked (Unit {0})) → (c ≡ ok tt) ⊎ ((v : Violation) × (c ≡ bad v))
Checked-cases (ok tt) = inl refl
Checked-cases (bad v) = inr (v, refl)

or_minimal-Ready : (ms result : List IndexedMessage) → ReadyIn (or_minimal ms result)
unfolding or_minimal
or_minimal-Ready ms result =
    elim (Checked-cases (validate_provider_payload (to_raw_messages result))) [
      | inl e ↦ rw (e, or_minimal) e
      | inr (v, e) ↦ rw (e, or_minimal) (minimal-validate ms)
    ]

-- When the provider view of a non-empty list is over a positive budget, what
-- `truncateIndexedToBudget` returns passes `validateProviderPayload`, also if the list itself did
-- not.
pub truncate-validate :
    (count : List Message → ℕ) (ms : List IndexedMessage) (budget : ℕ)
    → is_nil ms ≡ false
    → 0 < budget
    → budget < count (to_raw_messages ms)
    → validate_provider_payload (to_raw_messages (truncate_indexed_to_budget count ms budget))
      ≡ ok tt
unfolding truncate_indexed_to_budget
truncate-validate count ms budget full positive over =
    let zero_not : (budget == 0) ≡ false = ground arith in
    let too_big : leb (count (to_raw_messages ms)) budget ≡ false = ground arith in
    elim (Checked-cases (validate_provider_payload (to_raw_messages ms))) [
      | inl e ↦ rw (full, zero_not, too_big, e) (or_minimal-Ready ms (shrink count budget ms))
      | inr (v, e) ↦ rw (full, zero_not, too_big, e) (minimal-validate ms)
    ]
