-- ===== src/Tools/Jobs/Life.antt =====
-- What holds of the table of background commands between two of its operations.
pub mod Shrink
pub mod Limits
use sandbar.Base.{
  ℕ, zero, suc, ◌+◌, ◌≤◌, ◌<◌, Str, str_eq, str_eq_iff, leb, ltb, ◌==◌, if◌then◌else◌, Bool, true,
  false, length, Option, none, some, List, [], ◌∷◌, ◌++◌, All, not, ◌≡◌, refl, sym, ap, ◌∙◌, arith,
  Bool-cases, inl, inr, ◌⊎◌, if-holds, length-append, All-append, Outcome, ok, err,
}
use sandbar.Tools.ShellJob.{
  JobState, running, StopReason, ExitCode, JobError, no_error, JobOwner, ShellJob, is_running,
  is_no_reason, finish, request_stop, new_shell_job,
}
use sandbar.Tools.Jobs.Life.Shrink.{
  Coherent, DistinctIds, Keeps, Shrinks, Shrinks-refl, Shrinks-trans, Shrinks-length,
  Shrinks-running, Shrinks-Coherent, Shrinks-absent, Shrinks-distinct, without_job-Shrinks,
  update_job-Shrinks, request_stop-Keeps, stop_where-Shrinks, finish-Keeps, done, removes,
}
use sandbar.Tools.Jobs.{
  JobSupervisorConfig, JobSupervisor, JobsError, Command, new_job_supervisor, set_config, with_jobs,
  start, make_room, admit, find_job, update_job, job_done, retention_over, cancel_thread, close,
  finish_close, get, count_running, without_job, oldest_finished, is_expired, reap_each,
  with_timers, without_timer, reap_locked, evict_oldest_finished_locked, remove_locked,
}
use sandbar.Tools.Jobs.Life.Limits.{
  Sound, Sound-Shrinks, Reduces, reap_locked-Reduces, remove_locked-Reduces, Sound-empty,
  start-Sound, set_config-Sound,
}

-- One operation, one end of a process or one timer. A new id is not in the table.
pub data Step : JobSupervisor → JobSupervisor → Type 0 where
  configured : (cfg : JobSupervisorConfig) (s : JobSupervisor) → Step s (set_config cfg s).0
  started : (c : Command) (s : JobSupervisor) → find_job c.id s.jobs ≡ none → Step s (start c s).0
  ended :
      (id : Str) (now : ℕ) (wait_err : Option Str) (exit_code : Option ExitCode) (j : ShellJob)
      (s : JobSupervisor)
      → find_job id s.jobs ≡ some j
      → is_running j.state ≡ true
      → Step s (with_jobs (update_job id (finish now wait_err exit_code) s.jobs) s)
  reported : (id : Str) (s : JobSupervisor) → Step s (job_done id s)
  timer_fired : (id : Str) (s : JobSupervisor) → Step s (retention_over id s)
  asked_to_stop :
      (id : Str) (why : StopReason) (s : JobSupervisor)
      → is_no_reason why ≡ false
      → Step s (with_jobs (update_job id (λ j. (request_stop why j).0) s.jobs) s)
  thread_cancelled : (thread_id : Str) (s : JobSupervisor) → Step s (cancel_thread thread_id s)
  closing : (s : JobSupervisor) → Step s (close s)
  torn_down : (s : JobSupervisor) → count_running s.jobs ≡ 0 → Step s (finish_close s)
  looked_up :
      (now : ℕ) (owner : JobOwner) (id : Str) (s : JobSupervisor) → Step s (get now owner id s).0

-- A sequence of steps from a new supervisor.
pub data Reachable : JobSupervisor → Type 0 where
  new : (cfg : JobSupervisorConfig) → Reachable (new_job_supervisor cfg)
  next : (s t : JobSupervisor) → Reachable s → Step s t → Reachable t

job_done-Sound : (id : Str) (s : JobSupervisor) → Sound s → Sound (job_done id s)
unfolding job_done
job_done-Sound id s sound = by_job (find_job id s.jobs)
  where
    by_job :
        (o : Option ShellJob)
        → Sound (elim o as (λ x. JobSupervisor) [
          | none ↦ s
          | some j ↦
              if s.closed
              then remove_locked id s
              else with_timers (id ∷ without_timer id s.timers) s
        ])
    by_job none = sound
    by_job (some j) =
        if-holds Sound s.closed _ _
          (λ e.
            let (same, shrinks) = remove_locked-Reduces id s in
            Sound-Shrinks s (remove_locked id s) same shrinks sound)
          (λ e.
            Sound-Shrinks s (with_timers (id ∷ without_timer id s.timers) s) refl
              (Shrinks-refl s.jobs) sound)

retention_over-Sound : (id : Str) (s : JobSupervisor) → Sound s → Sound (retention_over id s)
unfolding retention_over
retention_over-Sound id s sound = by_job (find_job id s.jobs)
  where
    by_job :
        (o : Option ShellJob)
        → Sound (elim o as (λ x. JobSupervisor) [
          | none ↦ s
          | some j ↦ if is_running j.state then s else remove_locked id s
        ])
    by_job none = sound
    by_job (some j) =
        if-holds Sound (is_running j.state) _ _ (λ e. sound)
          (λ e.
            let (same, shrinks) = remove_locked-Reduces id s in
            Sound-Shrinks s (remove_locked id s) same shrinks sound)

cancel_thread-Sound :
    (thread_id : Str) (s : JobSupervisor) → Sound s → Sound (cancel_thread thread_id s)
unfolding cancel_thread
cancel_thread-Sound thread_id s sound = Sound-Shrinks s _ refl (stop_where-Shrinks _ s.jobs) sound

close-Sound : (s : JobSupervisor) → Sound s → Sound (close s)
unfolding close
close-Sound s sound =
    if-holds Sound s.closed _ _ (λ e. sound)
      (λ e. Sound-Shrinks s _ refl (stop_where-Shrinks (λ j. true) s.jobs) sound)

finish_close-Sound : (s : JobSupervisor) → Sound (finish_close s)
unfolding finish_close
finish_close-Sound s = Sound-empty _ refl

get-Sound :
    (now : ℕ) (owner : JobOwner) (id : Str) (s : JobSupervisor)
    → Sound s
    → Sound (get now owner id s).0
unfolding get
get-Sound now owner id s sound =
    let (same, shrinks) = reap_locked-Reduces now s in
    Sound-Shrinks s (reap_locked now s) same shrinks sound

new-Sound : (cfg : JobSupervisorConfig) → Sound (new_job_supervisor cfg)
unfolding new_job_supervisor
new-Sound cfg = Sound-empty _ refl

Step-Sound : (s t : JobSupervisor) → Step s t → Sound s → Sound t
Step-Sound _ _ (configured cfg s) sound = set_config-Sound cfg s sound
Step-Sound _ _ (started c s fresh) sound = start-Sound c s sound fresh
Step-Sound _ _ (ended id now wait_err exit_code j s found runs) sound =
    Sound-Shrinks s _ refl
      (update_job-Shrinks id (finish now wait_err exit_code) s.jobs
        (λ k same. finish-Keeps now wait_err exit_code k (runs_too k same)))
      sound
  where
    runs_too : (k : ShellJob) → find_job id s.jobs ≡ some k → is_running k.state ≡ true
    runs_too k same = ground (arith, found, same, runs)
Step-Sound _ _ (reported id s) sound = job_done-Sound id s sound
Step-Sound _ _ (timer_fired id s) sound = retention_over-Sound id s sound
Step-Sound _ _ (asked_to_stop id why s given) sound =
    Sound-Shrinks s _ refl
      (update_job-Shrinks id (λ j. (request_stop why j).0) s.jobs
        (λ k same. request_stop-Keeps why k))
      sound
Step-Sound _ _ (thread_cancelled thread_id s) sound = cancel_thread-Sound thread_id s sound
Step-Sound _ _ (closing s) sound = close-Sound s sound
Step-Sound _ _ (torn_down s idle) sound = finish_close-Sound s
Step-Sound _ _ (looked_up now owner id s) sound = get-Sound now owner id s sound

-- After any sequence of operations, ends of processes and timers, from a new supervisor, no more
-- jobs run than `MaxRunning` and no more stand in the table than `MaxJobs`; no id stands twice; and
-- every job either runs and has no finish time, exit code or error, or has a finish time and the
-- state and error text that its stop reason and the error of its process give. Ids of new jobs are
-- not in the table.
pub reachable-Sound : (s : JobSupervisor) → Reachable s → Sound s
reachable-Sound _ (new cfg) = new-Sound cfg
reachable-Sound _ (next s t before step) = Step-Sound s t step (reachable-Sound s before)
