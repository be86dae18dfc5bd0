-- ===== src/Agent/ToolLoopGuard/Streak.antt =====
-- The guard counts the latest rounds that are the same.
use sandbar.Base.{
  ℕ, suc, Str, str_eq, str_eq_iff, leb, if◌then◌else◌, true, false, List, [], ◌∷◌, ◌≡◌, refl, sym,
  ◌∙◌, arith, Bool-cases, inl, inr,
}
use sandbar.Agent.ToolLoopGuard.{
  ToolLoopGuard, new_guard, observe_fingerprint, decide, tool_call_group_fingerprint, observe,
  guard_after,
}

observe_fingerprint-last :
    (f : Str) (g : ToolLoopGuard) → (observe_fingerprint f g).last_fingerprint ≡ f
unfolding observe_fingerprint
observe_fingerprint-last f g = elim (Bool-cases (str_eq f [])) [
  | inl e ↦ rw e refl
  | inr e ↦ elim (Bool-cases (str_eq f g.last_fingerprint)) [
    | inl l ↦ rw (e, l) (sym ((str_eq_iff f g.last_fingerprint).0 l))
    | inr l ↦ rw (e, l) refl
  ]
]

-- One more round, where `lead` counts the earlier rounds with a fingerprint.
observe_fingerprint-streak :
    (f p : Str) (g : ToolLoopGuard) (lead : Str → ℕ)
    → g.last_fingerprint ≡ p
    → g.consecutive ≡ (if str_eq p [] then 1 else suc (lead p))
    → (observe_fingerprint f g).consecutive
      ≡ (if str_eq f [] then 1 else suc (if str_eq p f then suc (lead f) else 0))
unfolding observe_fingerprint
observe_fingerprint-streak f p g lead last count = elim (Bool-cases (str_eq f [])) [
  | inl e ↦ rw e refl
  | inr e ↦ elim (Bool-cases (str_eq f p)) [
    | inl l ↦
        let eq : f ≡ p = (str_eq_iff f p).0 l in
        let back : str_eq p f ≡ true = (str_eq_iff p f).1 (sym eq) in
        let full : str_eq p [] ≡ false = rw eq at e in
        let counted : g.consecutive ≡ suc (lead f) = count ∙ rw (full, eq) refl in
        rw (last, e, l, back, counted) (omega arith)
    | inr l ↦
        let back : str_eq p f ≡ false = ground (arith, str_eq_iff p f, str_eq_iff f p) in
        rw (last, e, l, back) refl
  ]
]

module _ {Call : Type 0} (digest : List Call → Str) where
  -- How many of the rounds, the latest first, have the fingerprint before one has another.
  abbrev pub leading : Str → List (List Call) → ℕ
  leading f [] = 0
  leading f (calls ∷ earlier) =
      if str_eq (tool_call_group_fingerprint digest calls) f then suc (leading f earlier) else 0

  -- A round without a fingerprint is always the first of its kind.
  abbrev pub streak : List Call → List (List Call) → ℕ
  streak calls earlier =
      if str_eq (tool_call_group_fingerprint digest calls) []
      then 1
      else suc (leading (tool_call_group_fingerprint digest calls) earlier)

  guard_after-streak :
      (calls : List Call) (earlier : List (List Call))
      → (guard_after digest (calls ∷ earlier)).last_fingerprint
          ≡ tool_call_group_fingerprint digest calls
        × ((guard_after digest (calls ∷ earlier)).consecutive ≡ streak calls earlier)
  unfolding guard_after observe observe_fingerprint
  guard_after-streak calls [] = (
    observe_fingerprint-last (tool_call_group_fingerprint digest calls) new_guard,
    alone (tool_call_group_fingerprint digest calls),
  )
    where
      alone :
          (f : Str)
          → (observe_fingerprint f new_guard).consecutive ≡ (if str_eq f [] then 1 else suc 0)
      alone f = elim (Bool-cases (str_eq f [])) [ inl e ↦ rw e refl | inr e ↦ rw e refl ]
  guard_after-streak calls (before ∷ earlier) =
      let g = guard_after digest (before ∷ earlier) in
      let (last, count) = guard_after-streak before earlier in
      (
        observe_fingerprint-last (tool_call_group_fingerprint digest calls) g,
        observe_fingerprint-streak (tool_call_group_fingerprint digest calls)
            (tool_call_group_fingerprint digest before) g (λ f. leading f earlier) last count,
      )

  -- After any earlier rounds of calls, the guard's decision on a round: the count is that of the
  -- latest rounds, this one included, with its fingerprint, and 1 for a round without calls; the
  -- round is skipped when the count is 3 or more, and the turn is aborted when it is 6 or more.
  pub observe-streak :
      (calls : List Call) (earlier : List (List Call))
      → (observe digest calls (guard_after digest earlier)).1 ≡ record {
        consecutive = streak calls earlier;
        skip = leb 3 (streak calls earlier);
        abort = leb 6 (streak calls earlier);
      }
  unfolding observe decide guard_after
  observe-streak calls earlier = rw ((guard_after-streak calls earlier).1) refl
