-- ===== src/Tools/Jobs/Life/Limits.antt =====
-- Every operation on the table of background commands keeps its limits.
use sandbar.Base.{
  ℕ, ◌+◌, ◌≤◌, ◌<◌, Str, str_eq_iff, leb, ◌==◌, length, Option, none, some, List, [], ◌∷◌, ◌++◌,
  All, not, ◌≡◌, refl, ◌∙◌, arith, Bool-cases, inl, inr, if-holds, length-append, All-append,
  Outcome, ok, err,
}
use sandbar.Tools.ShellJob.{running, no_error, ShellJob, new_shell_job}
use sandbar.Tools.Jobs.Life.Shrink.{
  Coherent, DistinctIds, Shrinks, Shrinks-refl, Shrinks-trans, Shrinks-length, Shrinks-running,
  Shrinks-Coherent, Shrinks-absent, Shrinks-distinct, without_job-Shrinks,
}
use sandbar.Tools.Jobs.{
  JobSupervisorConfig, JobSupervisor, JobsError, Command, set_config, with_jobs, start, make_room,
  admit, find_job, count_running, without_job, oldest_finished, is_expired, reap_each, reap_locked,
  evict_oldest_finished_locked, remove_locked,
}

-- The limits are kept, every job's fields agree, and no id stands twice.
pub record Sound (s : JobSupervisor) : Type 0 where
  pub retained : length s.jobs ≤ s.cfg.max_jobs
  pub running_capped : count_running s.jobs ≤ s.cfg.max_running
  pub coherent : All Coherent s.jobs
  pub distinct : DistinctIds s.jobs

pub Sound-Shrinks :
    (s t : JobSupervisor) → t.cfg ≡ s.cfg → Shrinks s.jobs t.jobs → Sound s → Sound t
Sound-Shrinks s t same shrinks sound = record {
  retained = rw same (omega (arith, Shrinks-length s.jobs t.jobs shrinks, sound.retained));
  running_capped =
      rw same (omega (arith, Shrinks-running s.jobs t.jobs shrinks, sound.running_capped));
  coherent = Shrinks-Coherent s.jobs t.jobs shrinks sound.coherent;
  distinct = Shrinks-distinct s.jobs t.jobs shrinks sound.distinct;
}

-- What the jobs of a table and its limits become when only old jobs go.
abbrev pub Reduces : JobSupervisor → JobSupervisor → Type 0
Reduces s t = (t.cfg ≡ s.cfg) × Shrinks s.jobs t.jobs

pub remove_locked-Reduces : (id : Str) (s : JobSupervisor) → Reduces s (remove_locked id s)
unfolding remove_locked
remove_locked-Reduces id s = (refl, without_job-Shrinks id s.jobs)

reap_each-Reduces :
    (now : ℕ) (js : List ShellJob) (s : JobSupervisor) → Reduces s (reap_each now js s)
unfolding reap_each
reap_each-Reduces now [] s = (refl, Shrinks-refl s.jobs)
reap_each-Reduces now (j ∷ js) s = elim (Bool-cases (is_expired s.cfg.retention now j)) [
  | inr e ↦ rw (reap_each, e) (reap_each-Reduces now js s)
  | inl e ↦
      let (same, first) = remove_locked-Reduces j.id s in
      let (same_after, rest) = reap_each-Reduces now js (remove_locked j.id s) in
      rw (reap_each, e) (same_after ∙ same, Shrinks-trans _ _ _ first rest)
]

pub reap_locked-Reduces : (now : ℕ) (s : JobSupervisor) → Reduces s (reap_locked now s)
unfolding reap_locked
reap_locked-Reduces now s = reap_each-Reduces now s.jobs s

evict-Reduces : (s : JobSupervisor) → Reduces s (evict_oldest_finished_locked s)
unfolding evict_oldest_finished_locked
evict-Reduces s = by_oldest (oldest_finished none s.jobs)
  where
    by_oldest :
        (o : Option ShellJob)
        → Reduces s (elim o as (λ x. JobSupervisor) [ none ↦ s | some j ↦ remove_locked j.id s ])
    by_oldest none = (refl, Shrinks-refl s.jobs)
    by_oldest (some j) = remove_locked-Reduces j.id s

count_running-append :
    (js ks : List ShellJob) → count_running (js ++ ks) ≡ count_running js + count_running ks
count_running-append [] ks = omega arith
count_running-append (j ∷ js) ks = omega (arith, count_running-append js ks)

find_job-append :
    (id : Str) (js ks : List ShellJob)
    → find_job id js ≡ none
    → find_job id ks ≡ none
    → find_job id (js ++ ks) ≡ none
unfolding find_job
find_job-append id [] ks h k = k
find_job-append id (j ∷ js) ks h k = ground (arith, find_job-append id js ks)

DistinctIds-append :
    (js : List ShellJob) (k : ShellJob)
    → DistinctIds js
    → find_job k.id js ≡ none
    → DistinctIds (js ++ k ∷ [])
unfolding find_job
DistinctIds-append [] k d h = (refl, tt)
DistinctIds-append (j ∷ js) k d h = (
  find_job-append j.id js (k ∷ []) d.0 (ground (arith, str_eq_iff j.id k.id, str_eq_iff k.id j.id)),
  DistinctIds-append js k d.1 (ground arith),
)

started_fields :
    (c : Command)
    → ((new_shell_job c.id c.owner c.text c.timeout c.now).state ≡ running)
      × ((new_shell_job c.id c.owner c.text c.timeout c.now).finished_at ≡ none)
      × ((new_shell_job c.id c.owner c.text c.timeout c.now).exit_code ≡ none)
      × ((new_shell_job c.id c.owner c.text c.timeout c.now).err_text ≡ no_error)
unfolding new_shell_job
started_fields c = (refl, refl, refl, refl)

started_id : (c : Command) → (new_shell_job c.id c.owner c.text c.timeout c.now).id ≡ c.id
unfolding new_shell_job
started_id c = refl

Sound-new :
    (s : JobSupervisor) (job : ShellJob) (js : List ShellJob)
    → Shrinks s.jobs js
    → Sound s
    → find_job job.id s.jobs ≡ none
    → length s.jobs < s.cfg.max_jobs
    → count_running s.jobs < s.cfg.max_running
    → Coherent job
    → Sound (with_jobs (js ++ job ∷ []) s)
Sound-new s job js rest sound fresh free room fields = record {
  retained = omega (arith, length-append js (job ∷ []), Shrinks-length s.jobs js rest, free);
  running_capped =
      ground (arith, count_running-append js (job ∷ []), Shrinks-running s.jobs js rest);
  coherent =
      All-append Coherent js (job ∷ []) (Shrinks-Coherent s.jobs js rest sound.coherent)
        (fields, tt);
  distinct =
      DistinctIds-append js job (Shrinks-distinct s.jobs js rest sound.distinct)
        (Shrinks-absent job.id s.jobs js rest fresh);
}

-- A job enters the table only where the limits leave room for it.
admit-Sound :
    (c : Command) (s : JobSupervisor)
    → Sound s
    → find_job c.id s.jobs ≡ none
    → count_running s.jobs < s.cfg.max_running
    → Sound (admit c s).0
unfolding admit
admit-Sound c s sound fresh room = elim (Bool-cases (leb s.cfg.max_jobs (length s.jobs))) [
  | inl e ↦ rw e sound
  | inr e ↦ rw e (by_spawn (ground arith) c.spawn_error)
]
  where
    job : ShellJob
    job = new_shell_job c.id c.owner c.text c.timeout c.now

    by_spawn :
        length s.jobs < s.cfg.max_jobs
        → (e : Option Str)
        → Sound
            (elim e as (λ x. JobSupervisor × Outcome JobsError ShellJob) [
              | some t ↦ (s, err (JobsError.spawn_failed t))
              | none ↦ (with_jobs (without_job c.id s.jobs ++ job ∷ []) s, ok job)
            ]).0
    by_spawn free (some t) = sound
    by_spawn free none =
        let rest = without_job-Shrinks c.id s.jobs in
        Sound-new s job (without_job c.id s.jobs) rest sound (rw (started_id c) fresh) free room
          (inl (started_fields c))

make_room-Sound :
    (c : Command) (s : JobSupervisor)
    → Sound s
    → find_job c.id s.jobs ≡ none
    → Sound (make_room c s).0
unfolding make_room
make_room-Sound c s sound fresh = elim (Bool-cases (leb s.cfg.max_running (count_running s.jobs))) [
  | inl e ↦ rw e sound
  | inr e ↦ rw e (elim (Bool-cases (leb s.cfg.max_jobs (length s.jobs))) [
    | inr f ↦ rw f (admit-Sound c s sound fresh (ground arith))
    | inl f ↦ rw f (evicted (ground arith) (evict-Reduces s))
  ])
]
  where
    evicted :
        count_running s.jobs < s.cfg.max_running
        → Reduces s (evict_oldest_finished_locked s)
        → Sound (admit c (evict_oldest_finished_locked s)).0
    evicted room (same, shrinks) =
        let t : JobSupervisor = evict_oldest_finished_locked s in
        admit-Sound c t (Sound-Shrinks s t same shrinks sound)
          (Shrinks-absent c.id s.jobs t.jobs shrinks fresh)
          (rw same (omega (arith, Shrinks-running s.jobs t.jobs shrinks, room)))

pub start-Sound :
    (c : Command) (s : JobSupervisor) → Sound s → find_job c.id s.jobs ≡ none → Sound (start c s).0
unfolding start
start-Sound c s sound fresh =
    if-holds (λ (out : JobSupervisor × Outcome JobsError ShellJob). Sound out.0) s.closed _ _
      (λ e. sound)
      (λ e.
        let (same, shrinks) = reap_locked-Reduces c.now s in
        make_room-Sound c (reap_locked c.now s)
          (Sound-Shrinks s (reap_locked c.now s) same shrinks sound)
          (Shrinks-absent c.id s.jobs (reap_locked c.now s).jobs shrinks fresh))

-- A table without jobs keeps every limit.
pub Sound-empty : (s : JobSupervisor) → length s.jobs ≡ 0 → Sound s
Sound-empty s e = by_jobs s.jobs e
  where
    by_jobs : (js : List ShellJob) → length js ≡ 0 → Sound (with_jobs js s)
    by_jobs [] e = record {
      retained = omega arith;
      running_capped = omega arith;
      coherent = tt;
      distinct = tt;
    }
    by_jobs (j ∷ js) e = ground arith

pub set_config-Sound :
    (cfg : JobSupervisorConfig) (s : JobSupervisor) → Sound s → Sound (set_config cfg s).0
unfolding set_config
set_config-Sound cfg s sound =
    if-holds (λ (out : JobSupervisor × Outcome JobsError (Unit {0})). Sound out.0) s.closed _ _
      (λ e. sound)
      (λ e.
        if-holds (λ (out : JobSupervisor × Outcome JobsError (Unit {0})). Sound out.0)
          (not (length s.jobs == 0)) _ _ (λ f. sound) (λ f. Sound-empty _ (ground arith)))
