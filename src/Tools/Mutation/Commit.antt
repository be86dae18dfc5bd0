-- ===== src/Tools/Mutation/Commit.antt =====
-- A file is only replaced while its content is the one that the caller has read.
use sandbar.Base.{
  Str, str_eq, str_eq_iff, if◌then◌else◌, Bool, true, false, lookup, insert, lookup-insert, Option,
  none, some, [], not, ◌&&◌, Outcome, ok, err, guard, Returns, Returns-bind, Returns-if, Bool-cases,
  inl, inr, ◌⊎◌, ◌≡◌, ◌≢◌, refl, sym, ◌∙◌, ap, arith, str_eq_refl,
}
use sandbar.Tools.Mutation.{
  File, Files, FileSnapshot, MutationError, cancelled, not_regular, not_exist, io_failed,
  expected_file_absent, check_file_precondition, World, committed_mode, read_file_snapshot,
  read_expected, atomic_replace_file, prepare_mutation, mutate_file,
}

module _ (sha256_hex : Str → Str) where
  -- The hash of what stands at a path: of its content, or the mark of a missing file.
  abbrev pub hash_at : Str → Files → Str
  hash_at path files = elim (lookup path files) [
    | none ↦ expected_file_absent
    | some f ↦ sha256_hex f.content
  ]

  -- The content at a path, empty for a missing file.
  abbrev pub content_at : Str → Files → Str
  content_at path files = elim (lookup path files) [ none ↦ [] | some f ↦ f.content ]

  -- A read that was accepted has the expected hash and shows what is there.
  abbrev Reads : Str → Str → Files → FileSnapshot → Type 0
  Reads path expected files s =
      (hash_at path files ≡ expected) × ((s.hash ≡ expected) × (s.content ≡ content_at path files))

  abbrev Anything : MutationError → Type 0
  Anything e = Unit

  -- A snapshot shows what is there.
  abbrev Shows : Str → Files → FileSnapshot → Type 0
  Shows path files s = (s.hash ≡ hash_at path files) × (s.content ≡ content_at path files)

  read_file_snapshot-Shows :
      (path : Str) (files : Files)
      → Returns (Shows path files) Anything (read_file_snapshot sha256_hex path files)
  unfolding read_file_snapshot
  read_file_snapshot-Shows path files = by_file (lookup path files)
    where
      by_file :
          (o : Option File)
          → Returns
              (λ s.
                (s.hash ≡ elim o as (λ x. Str) [
                  | none ↦ expected_file_absent
                  | some f ↦ sha256_hex f.content
                ])
                × (s.content ≡ elim o as (λ x. Str) [ none ↦ [] | some f ↦ f.content ]))
              Anything
              (elim o as (λ x. Outcome MutationError FileSnapshot) [
                | none ↦
                    ok (record {
                      content = [];
                      mode = 0;
                      exists = false;
                      hash = expected_file_absent;
                    })
                | some f ↦
                    if f.regular
                    then ok (record {
                      content = f.content;
                      mode = f.mode;
                      exists = true;
                      hash = sha256_hex f.content;
                    })
                    else err not_regular
              ])
      by_file none = (refl, refl)
      by_file (some f) = Returns-if _ _ f.regular _ _ (λ r. (refl, refl)) (λ r. tt)

  read_expected-Reads :
      (path expected : Str) (allow_create : Bool) (files : Files)
      → Returns
          (Reads path expected files)
          Anything
          (read_expected sha256_hex path expected allow_create files)
  unfolding read_expected check_file_precondition
  read_expected-Reads path expected allow_create files =
      Returns-bind (Shows path files) (Reads path expected files) Anything
        (read_file_snapshot sha256_hex path files) _ (read_file_snapshot-Shows path files)
        (λ s shows. elim (Bool-cases (str_eq expected s.hash)) [
          | inr e ↦ rw (e, Returns) tt
          | inl e ↦
              let same : expected ≡ s.hash = (str_eq_iff expected s.hash).0 e in
              rw e (
                Returns-bind (λ (u : Unit {0}). Unit {0}) (Reads path expected files) Anything
                  (guard (not (not s.exists && not allow_create)) not_exist) _
                  (guard-any (not (not s.exists && not allow_create)))
                  (λ u any. (sym shows.0 ∙ sym same, (sym same, shows.1))))
        ])
    where
      guard-any : (b : Bool) → Returns (λ (u : Unit {0}). Unit {0}) Anything (guard b not_exist)
      guard-any true = tt
      guard-any false = tt

  -- What a call of `mutateFile` did.
  abbrev pub Mutated :
      World
      → Str
      → Str
      → (FileSnapshot → Outcome MutationError Str)
      → Files
      → Files × Outcome MutationError (FileSnapshot × (Str × Str))
      → Type 0
  Mutated w path expected transform files (after, err e) =
      (after ≡ files)
      ⊎ ((after ≡ w.meanwhile files) ⊎ (after ≡ w.before_rename (w.meanwhile files)))
  Mutated w path expected transform files (after, ok (latest, (new, hash))) =
      (hash_at path files ≡ expected)
      × (hash_at path (w.meanwhile files) ≡ expected)
      × (latest.content ≡ content_at path (w.meanwhile files))
      × (before : FileSnapshot) × (before.content ≡ content_at path files)
      × (transform before ≡ ok new)
      × (content_at path after ≡ new)
      × (hash ≡ sha256_hex new)
      × ((other : Str)
          → other ≢ path
          → lookup other after ≡ lookup other (w.before_rename (w.meanwhile files)))

  abbrev Prepared :
      Str → Str → (FileSnapshot → Outcome MutationError Str) → Files → FileSnapshot × Str → Type 0
  Prepared path expected transform files p =
      (hash_at path files ≡ expected)
      × ((p.0.content ≡ content_at path files) × (transform p.0 ≡ ok p.1))

  prepare_mutation-Prepared :
      (w : World) (path expected : Str) (allow_create : Bool)
      (transform : FileSnapshot → Outcome MutationError Str) (files : Files)
      → Returns
          (Prepared path expected transform files)
          Anything
          (prepare_mutation sha256_hex w path expected allow_create transform files)
  unfolding prepare_mutation
  prepare_mutation-Prepared w path expected allow_create transform files =
      ground (arith, read_expected-Reads path expected allow_create files)

  -- What the replacement does to the files that it meets.
  abbrev Replaced :
      World → Str → Str → Str → Files → Files × Outcome MutationError FileSnapshot → Type 0
  Replaced w path expected new files (after, err e) =
      (after ≡ files) ⊎ (after ≡ w.before_rename files)
  Replaced w path expected new files (after, ok latest) =
      Reads path expected files latest
      × ((content_at path after ≡ new)
          × ((other : Str)
              → other ≢ path
              → lookup other after ≡ lookup other (w.before_rename files)))

  content-insert :
      (path : Str) (f : File) (files : Files) → content_at path (insert path f files) ≡ f.content
  content-insert path f files =
      let found : lookup path (insert path f files) ≡ some f =
        ground (arith, lookup-insert path path f files, str_eq_refl path) in
      ap (λ (o : Option File). elim o as (λ x. Str) [ none ↦ [] | some f ↦ f.content ]) found

  lookup-other :
      (path other : Str) (f : File) (files : Files)
      → other ≢ path
      → lookup other (insert path f files) ≡ lookup other files
  lookup-other path other f files apart =
      ground (arith, lookup-insert path other f files, str_eq_iff path other)

  atomic_replace_file-Replaced :
      (w : World) (path expected : Str) (allow_create : Bool) (before : FileSnapshot) (new : Str)
      (files : Files)
      → Replaced w path expected new files
          (atomic_replace_file sha256_hex w path expected allow_create before new files)
  unfolding atomic_replace_file
  atomic_replace_file-Replaced w path expected allow_create before new files = by_read _ (
      Returns-bind (λ (u : Unit {0}). Unit {0}) (Reads path expected files) Anything
        (guard (not w.done_at_commit) cancelled) _ (live (not w.done_at_commit))
        (λ u any. read_expected-Reads path expected allow_create files))
    where
      live : (b : Bool) → Returns (λ (u : Unit {0}). Unit {0}) Anything (guard b cancelled)
      live true = tt
      live false = tt

      by_read :
          (r : Outcome MutationError FileSnapshot)
          → Returns (Reads path expected files) Anything r
          → Replaced w path expected new files
              (elim r as (λ x. Files × Outcome MutationError FileSnapshot) [
                | err e ↦ (files, err e)
                | ok latest ↦
                    if w.commits
                    then (
                      insert path
                          (record {
                            content = new;
                            mode = committed_mode w before latest;
                            regular = true;
                          })
                          (w.before_rename files),
                      ok latest,
                    )
                    else (w.before_rename files, err io_failed)
              ])
      by_read (err e) h = inl refl
      by_read (ok latest) h = by_commit w.commits
        where
          by_commit :
              (b : Bool)
              → Replaced w path expected new files (
                  if b
                  then (
                    insert path
                        (record {
                          content = new;
                          mode = committed_mode w before latest;
                          regular = true;
                        })
                        (w.before_rename files),
                    ok latest,
                  )
                  else (w.before_rename files, err io_failed))
          by_commit false = inr refl
          by_commit true = (
            h,
            (
              content-insert path _ (w.before_rename files),
              λ other apart. lookup-other path other _ (w.before_rename files) apart,
            ),
          )

-- Whatever other programs do while `mutateFile` runs: when it succeeds, the file had the expected
-- hash at both of its reads, its content now is what the transformation made of the content first
-- read, the hash returned is that of the new content, and no other file was touched; when it fails,
-- it has changed no file.
pub mutate_file-Mutated :
    (sha256_hex : Str → Str) (w : World) (path expected : Str) (allow_create : Bool)
    (transform : FileSnapshot → Outcome MutationError Str) (files : Files)
    → Mutated sha256_hex w path expected transform files
        (mutate_file sha256_hex w path expected allow_create transform files)
unfolding mutate_file
mutate_file-Mutated sha256_hex w path expected allow_create transform files =
    by_preparation (prepare_mutation sha256_hex w path expected allow_create transform files)
      (prepare_mutation-Prepared sha256_hex w path expected allow_create transform files)
  where
    by_replacement :
        (before : FileSnapshot) (new : Str) (out : Files × Outcome MutationError FileSnapshot)
        → Prepared sha256_hex path expected transform files (before, new)
        → Replaced sha256_hex w path expected new (w.meanwhile files) out
        → Mutated sha256_hex w path expected transform files (
          out.0,
          elim out.1 as (λ x. Outcome MutationError (FileSnapshot × (Str × Str))) [
            | err e ↦ err e
            | ok latest ↦ ok (latest, (new, sha256_hex new))
          ],
        )
    by_replacement before new (after, err e) p (inl r) = inr (inl r)
    by_replacement before new (after, err e) p (inr r) = inr (inr r)
    by_replacement before new (after, ok latest) (hash, (content, made)) (reads, (now, others)) =
        (hash, reads.0, reads.1.1, before, content, made, now, refl, others)

    by_preparation :
        (r : Outcome MutationError (FileSnapshot × Str))
        → Returns (Prepared sha256_hex path expected transform files) (Anything sha256_hex) r
        → Mutated sha256_hex w path expected transform files
            (elim r as (λ x. Files × Outcome MutationError (FileSnapshot × (Str × Str))) [
              | err e ↦ (files, err e)
              | ok (before, new) ↦
                  let out =
                    atomic_replace_file sha256_hex w path expected allow_create before new
                      (w.meanwhile files) in
                  (
                    out.0,
                    elim out.1 as (λ x. Outcome MutationError (FileSnapshot × (Str × Str))) [
                      | err e ↦ err e
                      | ok latest ↦ ok (latest, (new, sha256_hex new))
                    ],
                  )
            ])
    by_preparation (err e) p = inl refl
    by_preparation (ok (before, new)) p = by_replacement before new _ p (
        atomic_replace_file-Replaced sha256_hex w path expected allow_create before new
          (w.meanwhile files))
