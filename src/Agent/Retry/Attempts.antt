-- ===== src/Agent/Retry/Attempts.antt =====
-- The retry loop ends within six attempts.
use sandbar.Base.{
  ℕ, zero, suc, ◌+◌, ◌≤◌, ◌<◌, ◌==◌, ltb, if◌then◌else◌, length, Bool, true, false, Option, none,
  some, not, ◌≡◌, arith, Bool-cases, Option-cases, inl, inr, ◌⊎◌,
}
use sandbar.Agent.Retry.{
  LlmError, is_rate_limit_error, is_retryable_llm_error, backoff_of, Ending, returned, interrupted,
  unfinished, retry_from, run_with_llm_retry,
}

-- An attempt that is followed by another: its error is retryable and its schedule has a wait left.
abbrev pub Retried : Option LlmError → ℕ → Type 0
Retried none k = ⊥
Retried (some e) k = (is_retryable_llm_error e ≡ true) × (k ≤ length (backoff_of e))

-- The run stops after an attempt with the outcome of that attempt.
abbrev pub Stops : Option LlmError → Bool → ℕ → Ending → Type 0
Stops out waited k (returned none) = out ≡ none
Stops out waited k (returned (some e)) =
    (out ≡ some e) × ((is_retryable_llm_error e ≡ false) ⊎ (length (backoff_of e) < k))
Stops out waited k interrupted = Retried out k × (waited ≡ false)
Stops out waited k unfinished = ⊥

backoff-short : (e : LlmError) → length (backoff_of e) ≤ 5
unfolding backoff_of
backoff-short e = elim (Bool-cases (is_rate_limit_error e)) [
  | inl r ↦ rw r (omega arith)
  | inr r ↦ rw r (omega arith)
]

module _ (call : ℕ → Option LlmError) (waited : ℕ → Bool) where
  -- The attempts from `first` on: each but the last is retried after its wait.
  abbrev pub Attempted : ℕ → ℕ → Type 0
  Attempted first last = (k : ℕ) → first ≤ k → k < last → Retried (call k) k × (waited k ≡ true)

  abbrev pub Finished : ℕ → ℕ × Ending → Type 0
  Finished first out =
      (first ≤ out.0)
      × ((out.0 ≤ 6) × (Attempted first out.0 × Stops (call out.0) (waited out.0) out.0 out.1))

  here :
      (attempt : ℕ) (ending : Ending)
      → attempt ≤ 6
      → Stops (call attempt) (waited attempt) attempt ending
      → Finished attempt (attempt, ending)
  here attempt ending le stops = (omega arith, (le, ((λ k low high. ground arith), stops)))

  later :
      (attempt : ℕ) (out : ℕ × Ending)
      → Retried (call attempt) attempt
      → waited attempt ≡ true
      → Finished (attempt + 1) out
      → Finished attempt out
  later attempt out retried wait (low, (high, (before, stops))) =
      (omega arith, (high, (all, stops)))
    where
      all : Attempted attempt out.0
      all k from to = elim (Bool-cases (k == attempt)) [
        | inl e ↦ let eq : attempt ≡ k = ground arith in (rw eq at retried, rw eq at wait)
        | inr e ↦ before k (ground arith) to
      ]

  -- One attempt, where `rest` is the run after its wait.
  one_attempt-Finished :
      (attempt : ℕ) (rest : ℕ × Ending)
      → attempt ≤ 6
      → ((e : LlmError) → ltb (length (backoff_of e)) attempt ≡ false → Finished (attempt + 1) rest)
      → Finished attempt (elim (call attempt) as (λ x. ℕ × Ending) [
        | none ↦ (attempt, returned none)
        | some e ↦
            if not (is_retryable_llm_error e)
            then (attempt, returned (some e))
            else if ltb (length (backoff_of e)) attempt
            then (attempt, returned (some e))
            else if waited attempt
            then rest
            else (attempt, interrupted)
      ])
  one_attempt-Finished attempt rest le next = elim (Option-cases (call attempt)) [
    | inl c ↦ rw c (here attempt (returned none) le c)
    | inr (e, c) ↦ elim (Bool-cases (is_retryable_llm_error e)) [
      | inr r ↦ rw (c, r) (here attempt (returned (some e)) le (c, inl r))
      | inl r ↦ elim (Bool-cases (ltb (length (backoff_of e)) attempt)) [
        | inl l ↦ rw (c, r, l) (here attempt (returned (some e)) le (c, inr (ground arith)))
        | inr l ↦
            let retried : Retried (call attempt) attempt = rw c (r, ground arith) in
            elim (Bool-cases (waited attempt)) [
              | inr w ↦ rw (c, r, l, w) (here attempt interrupted le (retried, w))
              | inl w ↦ rw (c, r, l, w) (later attempt rest retried w (next e l))
            ]
      ]
    ]
  ]

  retry_from-Finished :
      (fuel attempt : ℕ)
      → fuel + attempt ≡ 6
      → Finished attempt (retry_from call waited (suc fuel) attempt)
  unfolding retry_from
  retry_from-Finished zero attempt sum =
      one_attempt-Finished attempt (attempt + 1, unfinished) (omega arith)
        (λ e l.
          let over : ltb (length (backoff_of e)) attempt ≡ true = ground (arith, backoff-short e) in
          cc)
  retry_from-Finished (suc fuel) attempt sum =
      one_attempt-Finished attempt (retry_from call waited (suc fuel) (attempt + 1)) (omega arith)
        (λ e l. retry_from-Finished fuel (attempt + 1) (omega arith))

-- `runWithLLMRetry` always ends, after at most six attempts: every attempt but the last had a
-- retryable error, was within the schedule of that error and its wait was not cut short; the last
-- succeeded, had an error that is not retryable or exhausted its schedule, or its wait was
-- interrupted.
pub run_with_llm_retry-Finished :
    (call : ℕ → Option LlmError) (waited : ℕ → Bool)
    → Finished call waited 1 (run_with_llm_retry call waited)
unfolding run_with_llm_retry
run_with_llm_retry-Finished call waited = retry_from-Finished call waited 5 1 (omega arith)
