-- ===== src/Tools/ShellJob.antt =====
-- internal/tools/jobs.go: `shellJob`, one background command, from its start to its end.
-- A time is a number of nanoseconds, and a finish time that is not set is `none`. Running a
-- process and signalling it is the platform's: what it answers is an argument.
use sandbar.Base.{
  ℕ, Str, leb, length, take, if◌then◌else◌, Bool, true, false, str_eq, Option, none, some, [], ◌∷◌,
  ◌++◌, ◌&&◌, ◌||◌, not,
}

pub data JobState : Type 0 where
  running : JobState
  completed : JobState
  failed : JobState
  cancelled : JobState

pub data StopReason : Type 0 where
  no_reason : StopReason
  stop_cancelled : StopReason
  stop_timeout : StopReason

-- `errText`: empty, or one of the three texts of `finish`.
pub data JobError : Type 0 where
  no_error : JobError
  was_cancelled : JobError
  timed_out : ℕ → JobError
  wait_failed : Str → JobError

-- `ProcessState.ExitCode`, which is -1 for a process ended by a signal.
pub data ExitCode : Type 0 where
  exited : ℕ → ExitCode
  signalled : ExitCode

pub record JobOwner : Type 0 where
  pub thread_id : Str
  pub workspace : Str

pub record ShellJob : Type 0 where
  pub id : Str
  pub owner : JobOwner
  pub command : Str
  pub timeout : ℕ
  pub state : JobState
  pub started_at : ℕ
  pub finished_at : Option ℕ
  pub exit_code : Option ExitCode
  pub err_text : JobError
  pub stop_reason : StopReason

-- `newShellJob` with the time that `start` sets.
unfoldable pub new_shell_job : Str → JobOwner → Str → ℕ → ℕ → ShellJob
new_shell_job id owner command timeout now = record {
  id = id;
  owner = owner;
  command = command;
  timeout = timeout;
  state = running;
  started_at = now;
  finished_at = none;
  exit_code = none;
  err_text = no_error;
  stop_reason = no_reason;
}

-- `stateValue() == JobRunning`
unfoldable pub is_running : JobState → Bool
is_running running = true
is_running completed = false
is_running failed = false
is_running cancelled = false

-- The state and the text that a stop reason and the error of `Wait` give.
unfoldable pub outcome : ℕ → StopReason → Option Str → JobState × JobError
outcome timeout stop_cancelled wait_err = (cancelled, was_cancelled)
outcome timeout stop_timeout wait_err = (failed, timed_out timeout)
outcome timeout no_reason none = (completed, no_error)
outcome timeout no_reason (some e) = (failed, wait_failed e)

-- `finish`
unfoldable pub finish : ℕ → Option Str → Option ExitCode → ShellJob → ShellJob
finish now wait_err exit_code j =
    let out = outcome j.timeout j.stop_reason wait_err in
    record {
      id = j.id;
      owner = j.owner;
      command = j.command;
      timeout = j.timeout;
      state = out.0;
      started_at = j.started_at;
      finished_at = some now;
      exit_code = exit_code;
      err_text = out.1;
      stop_reason = j.stop_reason;
    }

unfoldable pub is_no_reason : StopReason → Bool
is_no_reason no_reason = true
is_no_reason stop_cancelled = false
is_no_reason stop_timeout = false

-- `requestStop`: the job after it, and whether the process group is interrupted, whose failure is
-- the only error.
unfoldable pub request_stop : StopReason → ShellJob → ShellJob × Bool
request_stop why j =
    if not (is_running j.state) || not (is_no_reason j.stop_reason) then (j, false) else (
      record {
        id = j.id;
        owner = j.owner;
        command = j.command;
        timeout = j.timeout;
        state = j.state;
        started_at = j.started_at;
        finished_at = j.finished_at;
        exit_code = j.exit_code;
        err_text = j.err_text;
        stop_reason = why;
      },
      true,
    )

-- `truncateJobCommand`; the last three bytes are an ellipsis.
unfoldable pub truncate_job_command : Str → Str
truncate_job_command command =
    if leb (length command) 512 then command else take 512 command ++ 226 ∷ 128 ∷ 166 ∷ []

-- The fields of `JobSnapshot` without the output.
pub record JobSnapshot : Type 0 where
  pub job_id : Str
  pub state : JobState
  pub command : Str
  pub workspace : Str
  pub started_at : ℕ
  pub finished_at : Option ℕ
  pub timeout : ℕ
  pub exit_code : Option ExitCode
  pub err_text : JobError
  pub cancel_requested : Bool

unfoldable pub is_cancelled : StopReason → Bool
is_cancelled no_reason = false
is_cancelled stop_cancelled = true
is_cancelled stop_timeout = false

-- `snapshot(false, 0)`
unfoldable pub snapshot : ShellJob → JobSnapshot
snapshot j = record {
  job_id = j.id;
  state = j.state;
  command = truncate_job_command j.command;
  workspace = j.owner.workspace;
  started_at = j.started_at;
  finished_at = j.finished_at;
  timeout = j.timeout;
  exit_code = j.exit_code;
  err_text = j.err_text;
  cancel_requested = is_cancelled j.stop_reason;
}

unfoldable pub same_owner : JobOwner → JobOwner → Bool
same_owner a b = str_eq a.thread_id b.thread_id && str_eq a.workspace b.workspace
