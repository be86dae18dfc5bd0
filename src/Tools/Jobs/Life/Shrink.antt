-- ===== src/Tools/Jobs/Life/Shrink.antt =====
-- The jobs of a table after operations that start none.
use sandbar.Base.{
  ℕ, ◌≤◌, Str, str_eq, Bool, true, false, length, Option, none, some, List, [], ◌∷◌, All, ◌≡◌, ◌≢◌,
  refl, sym, ap, ◌∙◌, arith, Bool-cases, inl, inr, ◌⊎◌,
}
use sandbar.Tools.ShellJob.{
  running, StopReason, no_error, ExitCode, ShellJob, is_running, is_no_reason, outcome, finish,
  request_stop,
}
use sandbar.Tools.Jobs.{find_job, update_job, count_running, without_job, stop_where}

-- What the fields of a job say together: it runs and nothing is known of its end, or it has ended, in
-- the state that its stop reason and the error of its process give.
abbrev pub Coherent : ShellJob → Type 0
Coherent j =
    ((j.state ≡ running) × (j.finished_at ≡ none) × (j.exit_code ≡ none) × (j.err_text ≡ no_error))
    ⊎ ((time : ℕ) × (wait_err : Option Str) × (j.finished_at ≡ some time)
        × (j.state ≡ (outcome j.timeout j.stop_reason wait_err).0)
        × (j.err_text ≡ (outcome j.timeout j.stop_reason wait_err).1))

-- No id stands twice.
abbrev pub DistinctIds : List ShellJob → Type 0
DistinctIds [] = Unit
DistinctIds (j ∷ js) = (find_job j.id js ≡ none) × DistinctIds js

-- A job after a change that does not make it run again.
abbrev pub Keeps : ShellJob → ShellJob → Type 0
Keeps j k =
    (k.id ≡ j.id)
    × (Coherent j → Coherent k)
    × (is_running k.state ≡ true → is_running j.state ≡ true)

-- Some jobs are removed and the others are changed.
pub data Shrinks : List ShellJob → List ShellJob → Type 0 where
  done : Shrinks [] []
  removes : (j : ShellJob) (js ks : List ShellJob) → Shrinks js ks → Shrinks (j ∷ js) ks
  keeps :
      (j k : ShellJob) (js ks : List ShellJob)
      → Keeps j k
      → Shrinks js ks
      → Shrinks (j ∷ js) (k ∷ ks)

pub Keeps-refl : (j : ShellJob) → Keeps j j
Keeps-refl j = (refl, (λ c. c), (λ r. r))

pub Shrinks-refl : (js : List ShellJob) → Shrinks js js
Shrinks-refl [] = done
Shrinks-refl (j ∷ js) = keeps j j js js (Keeps-refl j) (Shrinks-refl js)

pub Shrinks-trans : (js ks ls : List ShellJob) → Shrinks js ks → Shrinks ks ls → Shrinks js ls
Shrinks-trans _ _ _ done t = t
Shrinks-trans _ _ _ (removes j js ks s) t = removes j js _ (Shrinks-trans js ks _ s t)
Shrinks-trans _ _ _ (keeps j k js ks h s) (removes _ _ ls t) =
    removes j js ls (Shrinks-trans js ks ls s t)
Shrinks-trans _ _ _ (keeps j k js ks h s) (keeps _ l _ ls g t) =
    keeps j l js ls (g.0 ∙ h.0, (λ c. g.1 (h.1 c)), (λ r. h.2 (g.2 r))) (Shrinks-trans js ks ls s t)

pub Shrinks-length : (js ks : List ShellJob) → Shrinks js ks → length ks ≤ length js
Shrinks-length _ _ done = omega arith
Shrinks-length _ _ (removes j js ks s) = omega (arith, Shrinks-length js ks s)
Shrinks-length _ _ (keeps j k js ks h s) = omega (arith, Shrinks-length js ks s)

pub Shrinks-running : (js ks : List ShellJob) → Shrinks js ks → count_running ks ≤ count_running js
Shrinks-running _ _ done = omega arith
Shrinks-running _ _ (removes j js ks s) = omega (arith, Shrinks-running js ks s)
Shrinks-running _ _ (keeps j k js ks h s) = ground (arith, Shrinks-running js ks s, h.2)

pub Shrinks-Coherent : (js ks : List ShellJob) → Shrinks js ks → All Coherent js → All Coherent ks
Shrinks-Coherent _ _ done all = tt
Shrinks-Coherent _ _ (removes j js ks s) all = Shrinks-Coherent js ks s all.1
Shrinks-Coherent _ _ (keeps j k js ks h s) all = (h.1 all.0, Shrinks-Coherent js ks s all.1)

pub Shrinks-absent :
    (id : Str) (js ks : List ShellJob)
    → Shrinks js ks
    → find_job id js ≡ none
    → find_job id ks ≡ none
unfolding find_job
Shrinks-absent id _ _ done absent = refl
Shrinks-absent id _ _ (removes j js ks s) absent = ground (arith, Shrinks-absent id js ks s)
Shrinks-absent id _ _ (keeps j k js ks h s) absent =
    rw h.0 (ground (arith, Shrinks-absent id js ks s))

pub Shrinks-distinct : (js ks : List ShellJob) → Shrinks js ks → DistinctIds js → DistinctIds ks
Shrinks-distinct _ _ done d = tt
Shrinks-distinct _ _ (removes j js ks s) d = Shrinks-distinct js ks s d.1
Shrinks-distinct _ _ (keeps j k js ks h s) d =
    (rw h.0 (Shrinks-absent j.id js ks s d.0), Shrinks-distinct js ks s d.1)

pub without_job-Shrinks : (id : Str) (js : List ShellJob) → Shrinks js (without_job id js)
unfolding without_job
without_job-Shrinks id [] = done
without_job-Shrinks id (j ∷ js) = elim (Bool-cases (str_eq j.id id)) [
  | inl e ↦ rw e (removes j js (without_job id js) (without_job-Shrinks id js))
  | inr e ↦ rw e (keeps j j js (without_job id js) (Keeps-refl j) (without_job-Shrinks id js))
]

pub update_job-Shrinks :
    (id : Str) (f : ShellJob → ShellJob) (js : List ShellJob)
    → ((j : ShellJob) → find_job id js ≡ some j → Keeps j (f j))
    → Shrinks js (update_job id f js)
unfolding update_job find_job
update_job-Shrinks id f [] h = done
update_job-Shrinks id f (j ∷ js) h = elim (Bool-cases (str_eq j.id id)) [
  | inl e ↦ rw e (keeps j (f j) js js (h j (rw e refl)) (Shrinks-refl js))
  | inr e ↦ rw e (
      keeps j j js (update_job id f js) (Keeps-refl j)
        (update_job-Shrinks id f js (λ k found. h k (rw e found))))
]

outcome-ended :
    (timeout : ℕ) (why : StopReason) (wait_err : Option Str)
    → is_running (outcome timeout why wait_err).0 ≡ false
unfolding outcome is_running
outcome-ended timeout StopReason.no_reason none = refl
outcome-ended timeout StopReason.no_reason (some e) = refl
outcome-ended timeout StopReason.stop_cancelled wait_err = refl
outcome-ended timeout StopReason.stop_timeout wait_err = refl

-- A coherent job that runs has no end yet.
pub running-unfinished :
    (j : ShellJob)
    → is_running j.state ≡ true
    → Coherent j
    → (j.state ≡ running) × (j.finished_at ≡ none) × (j.exit_code ≡ none) × (j.err_text ≡ no_error)
running-unfinished j runs (inl c) = c
running-unfinished j runs (inr (time, wait_err, at, state, text)) =
    let ended : is_running j.state ≡ false =
      ap is_running state ∙ outcome-ended j.timeout j.stop_reason wait_err in
    absurd (true_false (sym runs ∙ ended))
  where
    true_false : true ≢ false
    true_false e = cc

-- Asking a job to stop changes only the reason of a job that runs.
pub request_stop-Keeps : (why : StopReason) (j : ShellJob) → Keeps j (request_stop why j).0
unfolding request_stop
request_stop-Keeps why j = elim (Bool-cases (is_running j.state)) [
  | inr e ↦ rw e (refl, (λ c. c), (λ r. sym e ∙ r))
  | inl e ↦ elim (Bool-cases (is_no_reason j.stop_reason)) [
    | inr f ↦ rw (e, f) (refl, (λ c. c), (λ r. refl))
    | inl f ↦ rw (e, f) (refl, (λ c. inl (running-unfinished j e c)), (λ r. refl))
  ]
]

pub stop_where-Shrinks :
    (selects : ShellJob → Bool) (js : List ShellJob) → Shrinks js (stop_where selects js)
unfolding stop_where
stop_where-Shrinks selects [] = done
stop_where-Shrinks selects (j ∷ js) = elim (Bool-cases (selects j)) [
  | inl e ↦ rw e (
      keeps j _ js _ (request_stop-Keeps StopReason.stop_cancelled j)
        (stop_where-Shrinks selects js))
  | inr e ↦ rw e (keeps j j js _ (Keeps-refl j) (stop_where-Shrinks selects js))
]

pub finish-Keeps :
    (now : ℕ) (wait_err : Option Str) (exit_code : Option ExitCode) (j : ShellJob)
    → is_running j.state ≡ true
    → Keeps j (finish now wait_err exit_code j)
unfolding finish
finish-Keeps now wait_err exit_code j runs =
    (refl, (λ c. inr (now, wait_err, refl, refl, refl)), (λ r. runs))
