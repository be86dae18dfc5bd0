-- ===== src/Tests/Jobs.antt =====
-- Background commands of two owners, and the capture of a short output.
use sandbar.Base.{
  ◌≤◌, Str, codes, leb, str_eq, none, some, true, false, [], ◌∷◌, ◌++◌, ◌≡◌, refl, arith, not,
  is_nil, length, List,
}
use sandbar.Tools.ShellJob.{JobOwner, ShellJob, new_shell_job}
use sandbar.Tools.Jobs.{
  Command, JobSupervisor, JobSupervisorConfig, new_job_supervisor, start, get, with_jobs, find_job,
  cancel_thread, make_room, admit, reap_locked, reap_each, without_job,
  normalize_job_supervisor_config, or_default,
}
use sandbar.Tools.Jobs.Life.{Reachable, new, next, started, reachable-Sound}
use sandbar.Tools.Jobs.Life.Limits.{Sound}
use sandbar.Tools.Jobs.Owners.{owned, get-isolated}
use sandbar.Tools.Jobs.Cancel.{Cancelled, cancel_thread-find}
use sandbar.Tools.Capture.{Decoder, new_bounded_capture, write_all}
use sandbar.Tools.Capture.Stream.{DecoderLaws, Shows, concat_chunks, write_all-Shows}

abbrev defaults : JobSupervisorConfig
defaults = record {
  max_jobs = 0;
  max_running = 0;
  output_bytes = 0;
  retention = 0;
  termination_grace = 0;
}

abbrev ada : JobOwner
ada = record { thread_id = codes "a"; workspace = codes "/w" }

abbrev bob : JobOwner
bob = record { thread_id = codes "b"; workspace = codes "/w" }

abbrev sleep : Command
sleep = record {
  owner = ada;
  text = codes "sleep 9";
  timeout = 5;
  id = codes "job_1";
  now = 7;
  spawn_error = none;
}

-- The supervisor after one command of Ada's.
abbrev one_job : JobSupervisor
one_job = (start sleep (new_job_supervisor defaults)).0

one_job-Reachable : Reachable one_job
unfolding new_job_supervisor find_job
one_job-Reachable =
    next (new_job_supervisor defaults) one_job (new defaults)
      (started sleep (new_job_supervisor defaults) refl)

reachable-Sound_example : Sound one_job
reachable-Sound_example = reachable-Sound one_job one_job-Reachable

get-isolated_example :
    (get 8 bob (codes "job_1") one_job).1
    ≡ (get 8 bob (codes "job_1") (with_jobs (owned bob one_job.jobs) one_job)).1
get-isolated_example = get-isolated 8 bob (codes "job_1") one_job one_job-Reachable

abbrev sleeping : ShellJob
sleeping = new_shell_job (codes "job_1") ada (codes "sleep 9") 5 7

cancel_thread-find_example :
    (after : ShellJob) × (find_job (codes "job_1") (cancel_thread (codes "a") one_job).jobs
      ≡ some after)
    × Cancelled (codes "a") sleeping after
unfolding start new_job_supervisor make_room admit reap_locked reap_each without_job find_job
    new_shell_job normalize_job_supervisor_config or_default str_eq
cancel_thread-find_example = cancel_thread-find (codes "a") (codes "job_1") one_job sleeping refl

-- A decoder of ASCII.
abbrev ascii : Decoder
ascii = record {
  full_rune = λ s. not (is_nil s);
  size = λ s. 1;
  is_error = λ s. elim s [ [] ↦ false | c ∷ rest ↦ leb 128 c ];
}

ascii-DecoderLaws : DecoderLaws ascii
ascii-DecoderLaws = record {
  full_rune-append = full_rune-append;
  size-append = λ s t full. refl;
  is_error-append = is_error-append;
  size_positive = λ s full. omega arith;
  size_bounded = size_bounded;
}
  where
    full_rune-append : (s t : Str) → ascii.full_rune s ≡ true → ascii.full_rune (s ++ t) ≡ true
    full_rune-append [] t full = ground arith
    full_rune-append (c ∷ s) t full = refl

    is_error-append :
        (s t : Str) → ascii.full_rune s ≡ true → ascii.is_error (s ++ t) ≡ ascii.is_error s
    is_error-append [] t full = ground arith
    is_error-append (c ∷ s) t full = refl

    size_bounded : (s : Str) → ascii.full_rune s ≡ true → 1 ≤ length s
    size_bounded [] full = ground arith
    size_bounded (c ∷ s) full = omega arith

abbrev chunks : List Str
chunks = codes "ab" ∷ codes "cde" ∷ codes "f" ∷ []

write_all-Shows_example :
    Shows ascii 4 (concat_chunks chunks) (write_all ascii chunks (new_bounded_capture 4))
write_all-Shows_example = write_all-Shows ascii ascii-DecoderLaws 4 chunks (omega arith)
