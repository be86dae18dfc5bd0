-- ===== src/Tools/Jobs/Owners.antt =====
-- The answers about background commands show an owner nothing of the jobs of others.
use sandbar.Base.{
  ℕ, Str, str_eq, str_eq_iff, if◌then◌else◌, Bool, true, false, Option, none, some, List, [], ◌∷◌,
  ◌≡◌, refl, sym, ap, ◌∙◌, arith, Bool-cases, if-holds, inl, inr, Outcome, ok, err, ◌||◌, ◌&&◌,
}
use sandbar.Tools.ShellJob.{JobOwner, ShellJob, same_owner}
use sandbar.Tools.Jobs.{
  JobSupervisor, JobsError, job_not_found, with_jobs, find_job, without_job, is_expired, reap_each,
  reap_locked, remove_locked, get,
}
use sandbar.Tools.Jobs.Life.{Reachable, reachable-Sound}
use sandbar.Tools.Jobs.Life.Shrink.{DistinctIds}

-- The jobs of one owner.
abbrev pub owned : JobOwner → List ShellJob → List ShellJob
owned owner [] = []
owned owner (j ∷ js) =
    let rest = owned owner js in if same_owner j.owner owner then j ∷ rest else rest

-- Whether a list has an expired job with an id.
abbrev expires : ℕ → ℕ → Str → List ShellJob → Bool
expires retention now id [] = false
expires retention now id (j ∷ js) =
    (str_eq j.id id && is_expired retention now j) || expires retention now id js

find_job-without :
    (id gone : Str) (js : List ShellJob)
    → find_job id (without_job gone js) ≡ (if str_eq gone id then none else find_job id js)
unfolding find_job without_job
find_job-without id gone [] = ground arith
find_job-without id gone (j ∷ js) = ground (
  arith,
  find_job-without id gone js,
  str_eq_iff j.id gone,
  str_eq_iff gone id,
  str_eq_iff j.id id,
)

find_job-remove :
    (id gone : Str) (s : JobSupervisor)
    → find_job id (remove_locked gone s).jobs
      ≡ (if str_eq gone id then none else find_job id s.jobs)
unfolding remove_locked
find_job-remove id gone s = find_job-without id gone s.jobs

remove_locked_cfg :
    (gone : Str) (s : JobSupervisor) → (remove_locked gone s).cfg.retention ≡ s.cfg.retention
unfolding remove_locked
remove_locked_cfg gone s = refl

find_job-reap :
    (now : ℕ) (id : Str) (js : List ShellJob) (s : JobSupervisor)
    → find_job id (reap_each now js s).jobs
      ≡ (if expires s.cfg.retention now id js then none else find_job id s.jobs)
unfolding reap_each
find_job-reap now id [] s = refl
find_job-reap now id (j ∷ js) s = elim (Bool-cases (is_expired s.cfg.retention now j)) [
  | inr e ↦ rw (reap_each, e) (ground (arith, find_job-reap now id js s))
  | inl e ↦
      rw (reap_each, e)
        (find_job-reap now id js (remove_locked j.id s)
          ∙ rw (find_job-remove id j.id s, remove_locked_cfg j.id s)
              (either (str_eq j.id id) (expires s.cfg.retention now id js) (find_job id s.jobs)))
]
  where
    either :
        (a b : Bool) (o : Option ShellJob)
        → (if b then none else if a then none else o) ≡ (if (a && true) || b then none else o)
    either true true o = refl
    either true false o = refl
    either false true o = refl
    either false false o = refl

-- The rest of a table has no second job with an id.
absent-after :
    (id : Str) (j : ShellJob) (js : List ShellJob)
    → DistinctIds (j ∷ js)
    → str_eq j.id id ≡ true
    → find_job id js ≡ none
absent-after id j js d e = let same : j.id ≡ id = (str_eq_iff j.id id).0 e in rw same at d.0

expires-find :
    (retention now : ℕ) (id : Str) (js : List ShellJob)
    → DistinctIds js
    → expires retention now id js
      ≡ elim (find_job id js) as (λ x. Bool) [ none ↦ false | some j ↦ is_expired retention now j ]
unfolding find_job
expires-find retention now id [] d = refl
expires-find retention now id (j ∷ js) d = elim (Bool-cases (str_eq j.id id)) [
  | inr e ↦ rw e (expires-find retention now id js d.1)
  | inl e ↦
      let rest : expires retention now id js ≡ false =
        expires-find retention now id js d.1
        ∙ ap
            (λ (o : Option ShellJob). elim o as (λ x. Bool) [
              | none ↦ false
              | some k ↦ is_expired retention now k
            ])
            (absent-after id j js d e) in
      rw (e, rest) (or_false (is_expired retention now j))
]
  where
    or_false : (b : Bool) → (b || false) ≡ b
    or_false true = refl
    or_false false = refl

find_job-owned :
    (owner : JobOwner) (id : Str) (js : List ShellJob)
    → DistinctIds js
    → find_job id (owned owner js) ≡ elim (find_job id js) as (λ x. Option ShellJob) [
      | none ↦ none
      | some j ↦ if same_owner j.owner owner then some j else none
    ]
unfolding find_job
find_job-owned owner id [] d = refl
find_job-owned owner id (j ∷ js) d = elim (Bool-cases (str_eq j.id id)) [
  | inr e ↦ let rest = find_job-owned owner id js d.1 in ground (arith, rest, e)
  | inl e ↦
      let rest : find_job id (owned owner js) ≡ none =
        find_job-owned owner id js d.1
        ∙ ap
            (λ (o : Option ShellJob). elim o as (λ x. Option ShellJob) [
              | none ↦ none
              | some k ↦ if same_owner k.owner owner then some k else none
            ])
            (absent-after id j js d e) in
      ground (arith, rest, e)
]

DistinctIds-owned :
    (owner : JobOwner) (js : List ShellJob) → DistinctIds js → DistinctIds (owned owner js)
DistinctIds-owned owner [] d = tt
DistinctIds-owned owner (j ∷ js) d =
    if-holds DistinctIds (same_owner j.owner owner) _ _
      (λ e. (owned_absent j.id d.1 d.0, DistinctIds-owned owner js d.1))
      (λ e. DistinctIds-owned owner js d.1)
  where
    owned_absent :
        (id : Str) → DistinctIds js → find_job id js ≡ none → find_job id (owned owner js) ≡ none
    owned_absent id distinct absent =
        find_job-owned owner id js distinct
        ∙ ap
            (λ (o : Option ShellJob). elim o as (λ x. Option ShellJob) [
              | none ↦ none
              | some k ↦ if same_owner k.owner owner then some k else none
            ])
            absent

-- What `get` answers about the job with an id, if there is one.
abbrev answer : ℕ → ℕ → JobOwner → Str → Option ShellJob → Outcome JobsError ShellJob
answer retention now owner id none = err (job_not_found id)
answer retention now owner id (some j) =
    if is_expired retention now j
    then err (job_not_found id)
    else if same_owner j.owner owner
    then ok j
    else err (job_not_found id)

get-answer :
    (now : ℕ) (owner : JobOwner) (id : Str) (s : JobSupervisor)
    → DistinctIds s.jobs
    → (get now owner id s).1 ≡ answer s.cfg.retention now owner id (find_job id s.jobs)
unfolding get reap_locked
get-answer now owner id s d =
    by_job (find_job id s.jobs) (find_job id (reap_each now s.jobs s).jobs)
      (find_job-reap now id s.jobs s ∙ rw (expires-find s.cfg.retention now id s.jobs d) refl)
  where
    by_job :
        (o p : Option ShellJob)
        → p ≡ (
            if (elim o as (λ x. Bool) [ none ↦ false | some j ↦ is_expired s.cfg.retention now j ])
            then none
            else o)
        → (elim p as (λ x. Outcome JobsError ShellJob) [
          | none ↦ err (job_not_found id)
          | some j ↦ if same_owner j.owner owner then ok j else err (job_not_found id)
        ])
          ≡ answer s.cfg.retention now owner id o
    by_job none p same = rw same refl
    by_job (some j) p same = ground (arith, same)

-- What `get` answers an owner is the same as if the jobs of all other owners were not there: it
-- depends on them neither for a job that it returns nor for its error.
pub get-isolated :
    (now : ℕ) (owner : JobOwner) (id : Str) (s : JobSupervisor)
    → Reachable s
    → (get now owner id s).1 ≡ (get now owner id (with_jobs (owned owner s.jobs) s)).1
get-isolated now owner id s reached =
    let sound = reachable-Sound s reached in
    get-answer now owner id s sound.distinct
    ∙ same_answer (find_job id s.jobs) (find_job id (owned owner s.jobs))
        (find_job-owned owner id s.jobs sound.distinct)
    ∙ sym (
        get-answer now owner id (with_jobs (owned owner s.jobs) s)
          (DistinctIds-owned owner s.jobs sound.distinct))
  where
    same_answer :
        (o p : Option ShellJob)
        → p ≡ (elim o as (λ x. Option ShellJob) [
          | none ↦ none
          | some j ↦ if same_owner j.owner owner then some j else none
        ])
        → answer s.cfg.retention now owner id o ≡ answer s.cfg.retention now owner id p
    same_answer none p same = rw same refl
    same_answer (some j) p same = ground (arith, same)
