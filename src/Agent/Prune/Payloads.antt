-- ===== src/Agent/Prune/Payloads.antt =====
-- Pruning changes no more of a payload than the text of old tool results.
use sandbar.Base.{
  ℕ, zero, suc, ◌+◌, ◌-◌, Str, ltb, if◌then◌else◌, Bool, true, false, length, drop, Option, none,
  some, List, [], ◌∷◌, ◌++◌, ◌≡◌, refl, ap, ◌∙◌, arith, if-holds,
}
use mathlib.Core.List.{reverse, reverse-append}
use sandbar.Agent.Messages.{user, Message, IndexedMessage, is_user}
use sandbar.Agent.Payload.{
  Checked, ok, bad, ◌>>=◌, Walk, start, answer, open_group, check_message, check_messages,
  validate_provider_payload,
}
use sandbar.Agent.Truncate.{
  active_turn_summary_wrapper, checkpoint_end, is_active_summary, own_checkpoint, merge_checkpoint,
  push_raw, to_raw_messages,
}
use sandbar.Agent.Prune.{last_user_from, prunes, pruned_message, prune_from, prune_old_tool_outputs}

-- Two messages that differ at most in their content.
abbrev Alike : Message → Message → Type 0
Alike m n = n ≡ record m { content = n.content }

abbrev AllAlike : List Message → List Message → Type 0
AllAlike [] [] = Unit
AllAlike [] (n ∷ ns) = ⊥
AllAlike (m ∷ ms) [] = ⊥
AllAlike (m ∷ ms) (n ∷ ns) = Alike m n × AllAlike ms ns

abbrev AllSimilar : List IndexedMessage → List IndexedMessage → Type 0
AllSimilar [] [] = Unit
AllSimilar [] (n ∷ ns) = ⊥
AllSimilar (m ∷ ms) [] = ⊥
AllSimilar (m ∷ ms) (n ∷ ns) = (n.kind ≡ m.kind) × Alike m.msg n.msg × AllSimilar ms ns

check_message-Alike :
    (i : ℕ) (m n : Message) (w : Walk) → Alike m n → check_message i n w ≡ check_message i m w
unfolding check_message answer open_group
check_message-Alike i m n w a = ap (λ k. check_message i k w) a

check_messages-AllAlike :
    (i : ℕ) (ms ns : List Message) (w : Walk)
    → AllAlike ms ns
    → check_messages i ns w ≡ check_messages i ms w
unfolding check_messages
check_messages-AllAlike i [] [] w a = refl
check_messages-AllAlike i [] (n ∷ ns) w a = elim a [ ]
check_messages-AllAlike i (m ∷ ms) [] w a = elim a [ ]
check_messages-AllAlike i (m ∷ ms) (n ∷ ns) w a =
    ap (λ c. c >>= check_messages (i + 1) ns) (check_message-Alike i m n w a.0)
    ∙ by_first (check_message i m w) (λ v. check_messages-AllAlike (i + 1) ms ns v a.1)
  where
    by_first :
        (c : Checked Walk)
        → ((v : Walk) → check_messages (i + 1) ns v ≡ check_messages (i + 1) ms v)
        → (c >>= check_messages (i + 1) ns) ≡ (c >>= check_messages (i + 1) ms)
    by_first (ok v) rest = rest v
    by_first (bad e) rest = refl

AllAlike-length : (ms ns : List Message) → AllAlike ms ns → length ns ≡ length ms
AllAlike-length [] [] a = refl
AllAlike-length [] (n ∷ ns) a = elim a [ ]
AllAlike-length (m ∷ ms) [] a = elim a [ ]
AllAlike-length (m ∷ ms) (n ∷ ns) a = ap suc (AllAlike-length ms ns a.1)

validate-AllAlike :
    (ms ns : List Message)
    → AllAlike ms ns
    → validate_provider_payload ns ≡ validate_provider_payload ms
unfolding validate_provider_payload
validate-AllAlike ms ns a =
    rw (check_messages-AllAlike 0 ms ns start a, AllAlike-length ms ns a) refl

AllAlike-append :
    (ms ns ks ls : List Message) → AllAlike ms ns → AllAlike ks ls → AllAlike (ms ++ ks) (ns ++ ls)
AllAlike-append [] [] ks ls a b = b
AllAlike-append [] (n ∷ ns) ks ls a b = elim a [ ]
AllAlike-append (m ∷ ms) [] ks ls a b = elim a [ ]
AllAlike-append (m ∷ ms) (n ∷ ns) ks ls a b = (a.0, AllAlike-append ms ns ks ls a.1 b)

AllAlike-reverse : (ms ns : List Message) → AllAlike ms ns → AllAlike (reverse ms) (reverse ns)
AllAlike-reverse [] [] a = tt
AllAlike-reverse [] (n ∷ ns) a = elim a [ ]
AllAlike-reverse (m ∷ ms) [] a = elim a [ ]
AllAlike-reverse (m ∷ ms) (n ∷ ns) a =
    rw (reverse-append (m ∷ []) ms, reverse-append (n ∷ []) ns)
      (AllAlike-append (reverse ms) (reverse ns) (m ∷ []) (n ∷ []) (AllAlike-reverse ms ns a.1)
        (a.0, tt))

merge_checkpoint-AllAlike :
    (out others : List Message) (m n : Message)
    → AllAlike out others
    → Alike m n
    → AllAlike (merge_checkpoint out m) (merge_checkpoint others n)
unfolding merge_checkpoint own_checkpoint
merge_checkpoint-AllAlike [] [] m n a b = (
  ap
      (λ (r : Message).
        let x : Message = record r { role = user; content = (own_checkpoint n).content } in x)
      b,
  tt,
)
merge_checkpoint-AllAlike [] (k ∷ others) m n a b = elim a [ ]
merge_checkpoint-AllAlike (l ∷ out) [] m n a b = elim a [ ]
merge_checkpoint-AllAlike (l ∷ out) (k ∷ others) m n a b =
    by_role (is_user l.role) (is_user k.role) (ap (λ r. is_user r.role) a.0)
  where
    merged : Message → Message → Message
    merged last msg = record last {
      content = last.content ++ (active_turn_summary_wrapper ++ (msg.content ++ checkpoint_end));
    }

    by_role :
        (mine theirs : Bool)
        → theirs ≡ mine
        → AllAlike
            (if mine then merged l m ∷ out else own_checkpoint m ∷ l ∷ out)
            (if theirs then merged k n ∷ others else own_checkpoint n ∷ k ∷ others)
    by_role true true e = (
      ap (λ (r : Message). let x : Message = record r { content = (merged k n).content } in x) a.0,
      a.1,
    )
    by_role true false e = ground arith
    by_role false true e = ground arith
    by_role false false e = (
      ap
          (λ (r : Message).
            let x : Message = record r { role = user; content = (own_checkpoint n).content } in x)
          b,
      (a.0, a.1),
    )

push_raw-AllAlike :
    (ms ns : List IndexedMessage) (out others : List Message)
    → AllAlike out others
    → AllSimilar ms ns
    → AllAlike (push_raw out ms) (push_raw others ns)
unfolding push_raw
push_raw-AllAlike [] [] out others a s = a
push_raw-AllAlike [] (n ∷ ns) out others a s = elim s [ ]
push_raw-AllAlike (m ∷ ms) [] out others a s = elim s [ ]
push_raw-AllAlike (m ∷ ms) (n ∷ ns) out others a (kind, alike, rest) =
    push_raw-AllAlike ms ns _ _
      (by_kind (is_active_summary m.kind) (is_active_summary n.kind) (ap is_active_summary kind))
      rest
  where
    by_kind :
        (mine theirs : Bool)
        → theirs ≡ mine
        → AllAlike
            (if mine then merge_checkpoint out m.msg else m.msg ∷ out)
            (if theirs then merge_checkpoint others n.msg else n.msg ∷ others)
    by_kind true true e = merge_checkpoint-AllAlike out others m.msg n.msg a alike
    by_kind true false e = ground arith
    by_kind false true e = ground arith
    by_kind false false e = (alike, a)

to_raw-AllAlike :
    (ms ns : List IndexedMessage)
    → AllSimilar ms ns
    → AllAlike (to_raw_messages ms) (to_raw_messages ns)
unfolding to_raw_messages
to_raw-AllAlike ms ns s =
    AllAlike-reverse (push_raw [] ms) (push_raw [] ns) (push_raw-AllAlike ms ns [] [] tt s)

AllSimilar-refl : (ms : List IndexedMessage) → AllSimilar ms ms
AllSimilar-refl [] = tt
AllSimilar-refl (m ∷ ms) = (refl, refl, AllSimilar-refl ms)

prune_from-AllSimilar :
    (digits : ℕ → Str) (last i : ℕ) (before : Option Message) (ms : List IndexedMessage)
    → AllSimilar ms (prune_from digits last i before ms).0
unfolding prune_from pruned_message
prune_from-AllSimilar digits last i before [] = tt
prune_from-AllSimilar digits last i before (m ∷ ms) =
    let rest = prune_from-AllSimilar digits last (i + 1) (some m.msg) ms in
    if-holds (λ (out : List IndexedMessage × ℕ). AllSimilar (m ∷ ms) out.0) (prunes last i m.msg) _
      _ (λ e. (refl, refl, rest)) (λ e. (refl, refl, rest))

-- From the last user's message on nothing is changed.
prunes-before : (last i : ℕ) (m : Message) → ltb i last ≡ false → prunes last i m ≡ false
unfolding prunes
prunes-before last i m late = ground (arith, late)

prune_from-recent :
    (digits : ℕ → Str) (last i k : ℕ) (before : Option Message) (ms : List IndexedMessage)
    → k ≡ last - i
    → drop k (prune_from digits last i before ms).0 ≡ drop k ms
unfolding prune_from
prune_from-recent digits last i k before [] e = refl
prune_from-recent digits last i zero before (m ∷ ms) e =
    let late : ltb i last ≡ false = ground (arith, e) in
    let kept : prunes last i m.msg ≡ false = ground (arith, late, prunes-before last i m.msg) in
    rw kept
      (ap (◌∷◌ m) (prune_from-recent digits last (i + 1) 0 (some m.msg) ms (omega (arith, e))))
prune_from-recent digits last i (suc k) before (m ∷ ms) e =
    if-holds (λ (out : List IndexedMessage × ℕ). drop (suc k) out.0 ≡ drop (suc k) (m ∷ ms))
      (prunes last i m.msg) _ _
      (λ f. prune_from-recent digits last (i + 1) k (some m.msg) ms (omega (arith, e)))
      (λ f. prune_from-recent digits last (i + 1) k (some m.msg) ms (omega (arith, e)))

-- The messages from an index on, or all of them.
abbrev pub recent : Option ℕ → List IndexedMessage → List IndexedMessage
recent none ms = ms
recent (some i) ms = drop i ms

-- `pruneOldToolOutputs` changes no verdict of the payload check on what is sent to the provider, and
-- nothing from the last user's message on, or nothing at all if there is none.
pub prune-validate :
    (digits : ℕ → Str) (ms : List IndexedMessage)
    → (validate_provider_payload (to_raw_messages (prune_old_tool_outputs digits ms).0)
        ≡ validate_provider_payload (to_raw_messages ms))
      × (recent (last_user_from 0 ms) (prune_old_tool_outputs digits ms).0
          ≡ recent (last_user_from 0 ms) ms)
unfolding prune_old_tool_outputs
prune-validate digits ms = by_user (last_user_from 0 ms)
  where
    by_user :
        (o : Option ℕ)
        → (validate_provider_payload (
              to_raw_messages
                (elim o as (λ x. List IndexedMessage × ℕ) [
                  | none ↦ (ms, 0)
                  | some last ↦ prune_from digits last 0 none ms
                ]).0)
            ≡ validate_provider_payload (to_raw_messages ms))
          × (recent o
                (elim o as (λ x. List IndexedMessage × ℕ) [
                  | none ↦ (ms, 0)
                  | some last ↦ prune_from digits last 0 none ms
                ]).0
              ≡ recent o ms)
    by_user none = (refl, refl)
    by_user (some last) = (
      validate-AllAlike (to_raw_messages ms) _ (
          to_raw-AllAlike ms (prune_from digits last 0 none ms).0
            (prune_from-AllSimilar digits last 0 none ms)),
      prune_from-recent digits last 0 last none ms (omega arith),
    )
