-- ===== src/Tools/Jobs/Cancel.antt =====
-- internal/tools/jobs.go: the jobs that `CancelThread` stops.
use sandbar.Base.{
  Str, str_eq, str_eq_iff, if◌then◌else◌, Bool, true, some, List, [], ◌∷◌, ◌≡◌, ◌≢◌, refl, arith,
  Bool-cases, if-holds, inl, inr, ◌⊎◌, ◌||◌, ◌&&◌, not,
}
use sandbar.Tools.ShellJob.{
  JobState, running, completed, failed, cancelled, StopReason, no_reason, stop_cancelled,
  stop_timeout, ShellJob, is_running, is_no_reason, request_stop,
}
use sandbar.Tools.Jobs.{JobSupervisor, find_job, cancel_thread, stop_where}

request_stop_id : (why : StopReason) (j : ShellJob) → (request_stop why j).0.id ≡ j.id
unfolding request_stop
request_stop_id why j = ground arith

stop_where-find :
    (id : Str) (selects : ShellJob → Bool) (js : List ShellJob) (j : ShellJob)
    → find_job id js ≡ some j
    → find_job id (stop_where selects js)
      ≡ some (if selects j then (request_stop stop_cancelled j).0 else j)
unfolding find_job stop_where
stop_where-find id selects [] j found = ground arith
stop_where-find id selects (k ∷ js) j found = elim (Bool-cases (str_eq k.id id)) [
  | inr e ↦
      ground (arith, e, found, stop_where-find id selects js j, request_stop_id stop_cancelled k)
  | inl e ↦ ground (arith, e, found, request_stop_id stop_cancelled k)
]

-- A running job that nobody has asked to stop is marked as cancelled, and nothing else changes.
request_stop-marks :
    (j : ShellJob)
    → j.state ≡ running
    → j.stop_reason ≡ no_reason
    → (request_stop stop_cancelled j).0 ≡ record j { stop_reason = stop_cancelled }
unfolding request_stop is_running is_no_reason
request_stop-marks j live unasked = rw (live, unasked) refl

-- A job that is over or was asked before.
is_settled :
    (st : JobState) (r : StopReason)
    → (st ≢ running) ⊎ (r ≢ no_reason)
    → (not (is_running st) || not (is_no_reason r)) ≡ true
unfolding is_running is_no_reason
is_settled running no_reason (inl h) = elim (h refl) [ ]
is_settled running no_reason (inr h) = elim (h refl) [ ]
is_settled running stop_cancelled h = refl
is_settled running stop_timeout h = refl
is_settled completed r h = refl
is_settled failed r h = refl
is_settled cancelled r h = refl

request_stop-settled :
    (j : ShellJob)
    → (j.state ≢ running) ⊎ (j.stop_reason ≢ no_reason)
    → (request_stop stop_cancelled j).0 ≡ j
unfolding request_stop
request_stop-settled j h = rw (is_settled j.state j.stop_reason h) refl

is_running-running : (st : JobState) → is_running st ≡ true → st ≡ running
unfolding is_running
is_running-running running e = refl
is_running-running completed e = cc
is_running-running failed e = cc
is_running-running cancelled e = cc

-- What `CancelThread` makes of a job: one of the thread that runs and was not asked to stop is marked
-- as cancelled, and any other is as it was.
abbrev pub Cancelled : Str → ShellJob → ShellJob → Type 0
Cancelled thread_id j after =
    (j.owner.thread_id ≡ thread_id
      → j.state ≡ running
      → j.stop_reason ≡ no_reason
      → after ≡ record j { stop_reason = stop_cancelled })
    × ((j.owner.thread_id ≢ thread_id) ⊎ ((j.state ≢ running) ⊎ (j.stop_reason ≢ no_reason))
        → after ≡ j)

-- `CancelThread` marks every running job of its thread that was not yet asked to stop as cancelled,
-- changes nothing else in such a job, and leaves every other job of the table as it is.
pub cancel_thread-find :
    (thread_id id : Str) (s : JobSupervisor) (j : ShellJob)
    → find_job id s.jobs ≡ some j
    → (after : ShellJob) × (find_job id (cancel_thread thread_id s).jobs ≡ some after)
      × Cancelled thread_id j after
unfolding cancel_thread
cancel_thread-find thread_id id s j found = (
  if str_eq j.owner.thread_id thread_id && is_running j.state
      then (request_stop stop_cancelled j).0
      else j,
  stop_where-find id (λ k. str_eq k.owner.thread_id thread_id && is_running k.state) s.jobs j found,
  (marked, kept),
)
  where
    marked :
        j.owner.thread_id ≡ thread_id
        → j.state ≡ running
        → j.stop_reason ≡ no_reason
        → (if str_eq j.owner.thread_id thread_id && is_running j.state
            then (request_stop stop_cancelled j).0
            else j)
          ≡ record j { stop_reason = stop_cancelled }
    marked here live unasked =
        let selected : (str_eq j.owner.thread_id thread_id && is_running j.state) ≡ true =
          unfold is_running in ground (arith, here, live, str_eq_iff j.owner.thread_id thread_id) in
        rw selected (request_stop-marks j live unasked)

    kept :
        (j.owner.thread_id ≢ thread_id) ⊎ ((j.state ≢ running) ⊎ (j.stop_reason ≢ no_reason))
        → (if str_eq j.owner.thread_id thread_id && is_running j.state
            then (request_stop stop_cancelled j).0
            else j)
          ≡ j
    kept (inl apart) = ground (arith, apart, str_eq_iff j.owner.thread_id thread_id)
    kept (inr settled) =
        if-holds (λ (k : ShellJob). k ≡ j)
          (str_eq j.owner.thread_id thread_id && is_running j.state) _ _
          (λ e. request_stop-settled j settled) (λ e. refl)
