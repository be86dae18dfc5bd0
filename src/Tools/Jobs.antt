-- ===== src/Tools/Jobs.antt =====
-- internal/tools/jobs.go: `JobSupervisor`, the table of background commands of one registry.
-- Jobs stand in the order in which they were started; Go walks its map in any order. Ids come from
-- `uuid.NewString`. A timer of the retention time is the id it waits for.
pub mod Life
pub mod Owners
pub mod Cancel
use sandbar.Base.{
  ℕ, zero, suc, ◌+◌, Str, leb, ltb, ◌==◌, if◌then◌else◌, Bool, true, false, str_eq, length, Option,
  none, some, List, [], ◌∷◌, ◌++◌, ◌&&◌, ◌||◌, not, Outcome, ok, err,
}
use sandbar.Tools.ShellJob.{
  JobState, running, StopReason, stop_cancelled, stop_timeout, ExitCode, JobOwner, ShellJob,
  new_shell_job, is_running, finish, request_stop, JobSnapshot, snapshot, same_owner,
}

-- The limits of the configuration; a value that is not positive is 0 here.
pub record JobSupervisorConfig : Type 0 where
  pub max_jobs : ℕ
  pub max_running : ℕ
  pub output_bytes : ℕ
  pub retention : ℕ
  pub termination_grace : ℕ

unfoldable pub or_default : ℕ → ℕ → ℕ
or_default n d = if n == 0 then d else n

-- `normalizeJobSupervisorConfig`; 30 minutes and 750 milliseconds are in nanoseconds.
unfoldable pub normalize_job_supervisor_config : JobSupervisorConfig → JobSupervisorConfig
normalize_job_supervisor_config cfg =
    let max_jobs = or_default cfg.max_jobs 128 in
    let max_running = or_default cfg.max_running 16 in
    record {
      max_jobs = max_jobs;
      max_running = if ltb max_jobs max_running then max_jobs else max_running;
      output_bytes = or_default cfg.output_bytes 65536;
      retention = or_default cfg.retention 1800000000000;
      termination_grace = or_default cfg.termination_grace 750000000;
    }

pub data JobsError : Type 0 where
  supervisor_closed : JobsError
  jobs_started : JobsError
  running_capacity : ℕ → JobsError
  retained_capacity : ℕ → JobsError
  spawn_failed : Str → JobsError
  job_not_found : Str → JobsError

pub record JobSupervisor : Type 0 where
  pub cfg : JobSupervisorConfig
  pub jobs : List ShellJob
  pub timers : List Str
  pub closed : Bool

unfoldable pub new_job_supervisor : JobSupervisorConfig → JobSupervisor
new_job_supervisor cfg = record {
  cfg = normalize_job_supervisor_config cfg;
  jobs = [];
  timers = [];
  closed = false;
}

-- `SetConfig`
unfoldable pub set_config :
    JobSupervisorConfig → JobSupervisor → JobSupervisor × Outcome JobsError (Unit {0})
set_config cfg s =
    if s.closed
    then (s, err supervisor_closed)
    else if not (length s.jobs == 0)
    then (s, err jobs_started)
    else (
      record {
        cfg = normalize_job_supervisor_config cfg;
        jobs = s.jobs;
        timers = s.timers;
        closed = s.closed;
      },
      ok tt,
    )

-- `delete` on the two maps.
unfoldable pub without_job : Str → List ShellJob → List ShellJob
without_job id [] = []
without_job id (j ∷ js) = let rest = without_job id js in if str_eq j.id id then rest else j ∷ rest

unfoldable pub without_timer : Str → List Str → List Str
without_timer id [] = []
without_timer id (t ∷ ts) = let rest = without_timer id ts in if str_eq t id then rest else t ∷ rest

abbrev pub with_jobs : List ShellJob → JobSupervisor → JobSupervisor
with_jobs js s = record { cfg = s.cfg; jobs = js; timers = s.timers; closed = s.closed }

abbrev pub with_timers : List Str → JobSupervisor → JobSupervisor
with_timers ts s = record { cfg = s.cfg; jobs = s.jobs; timers = ts; closed = s.closed }

-- `removeLocked`
unfoldable pub remove_locked : Str → JobSupervisor → JobSupervisor
remove_locked id s = record {
  cfg = s.cfg;
  jobs = without_job id s.jobs;
  timers = without_timer id s.timers;
  closed = s.closed;
}

-- Whether the retention time of a job is over.
unfoldable pub is_expired : ℕ → ℕ → ShellJob → Bool
is_expired retention now j = elim j.finished_at [
  | none ↦ false
  | some finished ↦ leb (finished + retention) now
]

-- The loop of `reapLocked` over the jobs that it started with.
unfoldable pub reap_each : ℕ → List ShellJob → JobSupervisor → JobSupervisor
reap_each now [] s = s
reap_each now (j ∷ js) s =
    reap_each now js (if is_expired s.cfg.retention now j then remove_locked j.id s else s)

unfoldable pub reap_locked : ℕ → JobSupervisor → JobSupervisor
reap_locked now s = reap_each now s.jobs s

-- `a.finishedTime().Before(b.finishedTime())`; the zero time is before every other.
unfoldable pub before_time : Option ℕ → Option ℕ → Bool
before_time none none = false
before_time none (some b) = true
before_time (some a) none = false
before_time (some a) (some b) = ltb a b

-- The loop of `evictOldestFinishedLocked`.
unfoldable pub oldest_finished : Option ShellJob → List ShellJob → Option ShellJob
oldest_finished oldest [] = oldest
oldest_finished oldest (j ∷ js) =
    oldest_finished
      (if is_running j.state then oldest else elim oldest [
        | none ↦ some j
        | some o ↦ if before_time j.finished_at o.finished_at then some j else some o
      ])
      js

unfoldable pub evict_oldest_finished_locked : JobSupervisor → JobSupervisor
evict_oldest_finished_locked s = elim (oldest_finished none s.jobs) [
  | none ↦ s
  | some o ↦ remove_locked o.id s
]

abbrev pub count_running : List ShellJob → ℕ
count_running [] = 0
count_running (j ∷ js) = (if is_running j.state then 1 else 0) + count_running js

-- A command to start, the id it gets, the time, and the error of the platform, if any.
pub record Command : Type 0 where
  pub owner : JobOwner
  pub text : Str
  pub timeout : ℕ
  pub id : Str
  pub now : ℕ
  pub spawn_error : Option Str

-- `start` after the eviction.
unfoldable pub admit : Command → JobSupervisor → JobSupervisor × Outcome JobsError ShellJob
admit c s =
    let job = new_shell_job c.id c.owner c.text c.timeout c.now in
    if leb s.cfg.max_jobs (length s.jobs)
    then (s, err (retained_capacity s.cfg.max_jobs))
    else elim c.spawn_error [
      | some e ↦ (s, err (spawn_failed e))
      | none ↦ (with_jobs (without_job c.id s.jobs ++ job ∷ []) s, ok job)
    ]

-- `start` after the reaping.
unfoldable pub make_room : Command → JobSupervisor → JobSupervisor × Outcome JobsError ShellJob
make_room c s =
    if leb s.cfg.max_running (count_running s.jobs)
    then (s, err (running_capacity s.cfg.max_running))
    else admit c (if leb s.cfg.max_jobs (length s.jobs) then evict_oldest_finished_locked s else s)

unfoldable pub start : Command → JobSupervisor → JobSupervisor × Outcome JobsError ShellJob
start c s = if s.closed then (s, err supervisor_closed) else make_room c (reap_locked c.now s)

unfoldable pub find_job : Str → List ShellJob → Option ShellJob
find_job id [] = none
find_job id (j ∷ js) = let rest = find_job id js in if str_eq j.id id then some j else rest

-- A change of the job with an id.
unfoldable pub update_job : Str → (ShellJob → ShellJob) → List ShellJob → List ShellJob
update_job id f [] = []
update_job id f (j ∷ js) =
    let rest = update_job id f js in if str_eq j.id id then f j ∷ js else j ∷ rest

-- `jobDone`
unfoldable pub job_done : Str → JobSupervisor → JobSupervisor
job_done id s = elim (find_job id s.jobs) [
  | none ↦ s
  | some j ↦ if s.closed then remove_locked id s else with_timers (id ∷ without_timer id s.timers) s
]

-- The function of the retention timer.
unfoldable pub retention_over : Str → JobSupervisor → JobSupervisor
retention_over id s = elim (find_job id s.jobs) [
  | none ↦ s
  | some j ↦ if is_running j.state then s else remove_locked id s
]

-- The first loop of `stopAndWaitJobs`: the jobs that meet a test are asked to stop.
unfoldable pub stop_where : (ShellJob → Bool) → List ShellJob → List ShellJob
stop_where selects [] = []
stop_where selects (j ∷ js) =
    let rest = stop_where selects js in
    (if selects j then (request_stop stop_cancelled j).0 else j) ∷ rest

-- `CancelThread` up to its wait.
unfoldable pub cancel_thread : Str → JobSupervisor → JobSupervisor
cancel_thread thread_id s =
    with_jobs (stop_where (λ j. str_eq j.owner.thread_id thread_id && is_running j.state) s.jobs) s

-- `Close` up to its wait.
unfoldable pub close : JobSupervisor → JobSupervisor
close s = if s.closed then s else record {
  cfg = s.cfg;
  jobs = stop_where (λ j. true) s.jobs;
  timers = s.timers;
  closed = true;
}

-- `finishClose` after its wait.
unfoldable pub finish_close : JobSupervisor → JobSupervisor
finish_close s = record { cfg = s.cfg; jobs = []; timers = []; closed = s.closed }

-- `get`: the answer is the same for a job of another owner as for none.
unfoldable pub get : ℕ → JobOwner → Str → JobSupervisor → JobSupervisor × Outcome JobsError ShellJob
get now owner id s =
    let reaped = reap_locked now s in
    (
      reaped,
      elim (find_job id reaped.jobs) [
        | none ↦ err (job_not_found id)
        | some j ↦ if same_owner j.owner owner then ok j else err (job_not_found id)
      ],
    )

-- The insertion of a job into a list in which later starts come first.
unfoldable pub insert_latest : JobSnapshot → List JobSnapshot → List JobSnapshot
insert_latest a [] = a ∷ []
insert_latest a (b ∷ bs) =
    let rest = insert_latest a bs in if ltb b.started_at a.started_at then a ∷ b ∷ bs else b ∷ rest

-- The snapshots of an owner's jobs, later starts first; `sort.Slice` leaves the order of equal times
-- open.
unfoldable pub owned_latest : JobOwner → List ShellJob → List JobSnapshot
owned_latest owner [] = []
owned_latest owner (j ∷ js) =
    let rest = owned_latest owner js in
    if same_owner j.owner owner then insert_latest (snapshot j) rest else rest

-- `list`
unfoldable pub list : ℕ → JobOwner → JobSupervisor → JobSupervisor × List JobSnapshot
list now owner s = let reaped = reap_locked now s in (reaped, owned_latest owner reaped.jobs)
