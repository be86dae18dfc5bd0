-- ===== src/Agent/Retry.antt =====
-- internal/agent/retry.go: which model errors are retried, and how often.
pub mod Attempts
use sandbar.Base.{
  ℕ, zero, suc, ◌+◌, ltb, leb, ◌==◌, if◌then◌else◌, length, Bool, true, false, Option, none, some,
  List, [], ◌∷◌, not, ◌&&◌, ◌||◌,
}

-- What `errors.Is` and `errors.As` find in an error; the two statuses are the HTTP status codes.
pub record LlmError : Type 0 where
  pub canceled : Bool
  pub deadline_exceeded : Bool
  pub stream_idle : Bool
  pub api_error : Option ℕ
  pub request_error : Option ℕ
  pub eof : Bool
  pub net_error : Bool

-- Waits in milliseconds.
abbrev pub llm_retry_backoff : List ℕ
llm_retry_backoff = 500 ∷ 2000 ∷ 5000 ∷ 10000 ∷ []

abbrev pub rate_limit_retry_backoff : List ℕ
rate_limit_retry_backoff = 5000 ∷ 15000 ∷ 30000 ∷ 60000 ∷ 120000 ∷ []

unfoldable pub is_rate_limit_error : LlmError → Bool
is_rate_limit_error e = elim e.api_error [
  | some status ↦ status == 429
  | none ↦ elim e.request_error [ some status ↦ status == 429 | none ↦ false ]
]

-- The part after the `openai.RequestError` case.
abbrev pub is_transport_error : LlmError → Bool
is_transport_error e = e.eof || e.net_error

unfoldable pub is_retryable_request : LlmError → Bool
is_retryable_request e = elim e.request_error [
  | none ↦ is_transport_error e
  | some status ↦
      if status == 429 || leb 500 status
      then true
      else if leb 400 status && ltb status 500
      then false
      else is_transport_error e
]

unfoldable pub is_retryable_llm_error : LlmError → Bool
is_retryable_llm_error e =
    if e.canceled || e.deadline_exceeded
    then false
    else if e.stream_idle
    then true
    else elim e.api_error [
      | some status ↦ status == 429 || leb 500 status
      | none ↦ is_retryable_request e
    ]

unfoldable pub backoff_of : LlmError → List ℕ
backoff_of e = if is_rate_limit_error e then rate_limit_retry_backoff else llm_retry_backoff

-- How `runWithLLMRetry` ends; `unfinished` is a run that lacked fuel.
pub data Ending : Type 0 where
  returned : Option LlmError → Ending
  interrupted : Ending
  unfinished : Ending

module _ (call : ℕ → Option LlmError) (waited : ℕ → Bool) where
  -- The loop from an attempt on, with the number of the last attempt: `call` is what the attempt
  -- returns, `waited` whether the timer after it fires before the context is done.
  unfoldable pub retry_from : ℕ → ℕ → ℕ × Ending
  retry_from zero attempt = (attempt, unfinished)
  retry_from (suc fuel) attempt =
      let rest = retry_from fuel (attempt + 1) in
      elim (call attempt) [
        | none ↦ (attempt, returned none)
        | some e ↦
            if not (is_retryable_llm_error e)
            then (attempt, returned (some e))
            else if ltb (length (backoff_of e)) attempt
            then (attempt, returned (some e))
            else if waited attempt
            then rest
            else (attempt, interrupted)
      ]

  -- `runWithLLMRetry`; no schedule has more than five waits.
  unfoldable pub run_with_llm_retry : ℕ × Ending
  run_with_llm_retry = retry_from 6 1
