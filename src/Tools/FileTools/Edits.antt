-- ===== src/Tools/FileTools/Edits.antt =====
-- What the file tools do to the file that they name.
use sandbar.Base.{
  Str, Bool, true, lookup, ◌++◌, Outcome, ok, err, ◌≡◌, ◌≢◌, refl, sym, ap, ◌∙◌, inl, ◌⊎◌,
}
use sandbar.Tools.Mutation.{Files, FileSnapshot, MutationError, World, mutate_file}
use sandbar.Tools.Mutation.Commit.{Mutated, hash_at, content_at, mutate_file-Mutated}
use sandbar.Tools.FileTools.{
  Host, Args, Request, Report, FileError, commit, write_request, with_request, file_append,
}

-- A request was accepted, and the tool did to its file what is stated: it put there `make` of the text
-- that its second read met, no other file was touched, and the report has the two texts.
abbrev pub Edited :
    Host
    → World
    → Files
    → Outcome FileError Request
    → (Request → Str → Str)
    → Files × Outcome FileError Report
    → Type 0
Edited h w files request make (after, err e) =
    (after ≡ files) ⊎ ((after ≡ w.meanwhile files) ⊎ (after ≡ w.before_rename (w.meanwhile files)))
Edited h w files request make (after, ok report) =
    (r : Request) × (request ≡ ok r)
    × (hash_at h.sha256_hex r.path (w.meanwhile files) ≡ r.expected)
    × (report.before ≡ content_at h.sha256_hex r.path (w.meanwhile files))
    × (report.after ≡ make r report.before)
    × (content_at h.sha256_hex r.path after ≡ report.after)
    × ((other : Str)
        → other ≢ r.path
        → lookup other after ≡ lookup other (w.before_rename (w.meanwhile files)))

-- Two contents of a file with one digest are the same.
abbrev pub NoCollision : Host → World → Files → Type 0
NoCollision h w files =
    (path : Str)
    → hash_at h.sha256_hex path files ≡ hash_at h.sha256_hex path (w.meanwhile files)
    → content_at h.sha256_hex path files ≡ content_at h.sha256_hex path (w.meanwhile files)

commit-Edited :
    (h : Host) (w : World) (r : Request) (allow_create : Bool) (request : Outcome FileError Request)
    (transform : FileSnapshot → Outcome MutationError Str) (make : Request → Str → Str)
    (files : Files)
    → NoCollision h w files
    → request ≡ ok r
    → ((s : FileSnapshot) → transform s ≡ ok (make r s.content))
    → Edited h w files request make (commit h w r allow_create transform files)
unfolding commit
commit-Edited h w r allow_create request transform make files apart accepted makes =
    by_mutation (mutate_file h.sha256_hex w r.path r.expected allow_create transform files)
      (mutate_file-Mutated h.sha256_hex w r.path r.expected allow_create transform files)
  where
    by_mutation :
        (out : Files × Outcome MutationError (FileSnapshot × (Str × Str)))
        → Mutated h.sha256_hex w r.path r.expected transform files out
        → Edited h w files request make (
          out.0,
          elim out.1 as (λ x. Outcome FileError Report) [
            | err e ↦ err (FileError.failed e)
            | ok (latest, (new, hash)) ↦
                ok (record { before = latest.content; after = new; hash = hash })
          ],
        )
    by_mutation (after, err e) m = m
    by_mutation (after, ok (latest, (new, hash)))
          (first, second, shown, before, read, made, now, digest, others) =
        let whole : before.content ≡ latest.content =
          read ∙ apart r.path (first ∙ sym second) ∙ sym shown in
        let same : make r before.content ≡ new = cc (makes before) in
        (r, accepted, second, shown, sym same ∙ ap (make r) whole, now, others)

-- If two contents of a file with one digest are the same, then whatever other programs do meanwhile:
-- when `FileAppend` succeeds, the file had the expected hash at the second read, and it has the text
-- that stood in it then, followed by the given content, and no other file was touched; when it
-- fails, it has changed no file. What another program writes to the file between the second read
-- and the rename is not kept.
pub file_append-Edited :
    (h : Host) (w : World) (args : Args) (files : Files)
    → NoCollision h w files
    → Edited h w files
        (write_request h args)
        (λ r text. text ++ r.text)
        (file_append h w args files)
unfolding file_append with_request
file_append-Edited h w args files apart = by_request (write_request h args) refl
  where
    by_request :
        (q : Outcome FileError Request)
        → write_request h args ≡ q
        → Edited h w files
            (write_request h args)
            (λ r text. text ++ r.text)
            (with_request files q
              (λ r. commit h w r true (λ before. ok (before.content ++ r.text)) files))
    by_request (err e) same = inl refl
    by_request (ok r) same =
        commit-Edited h w r true (write_request h args) (λ before. ok (before.content ++ r.text))
          (λ q text. text ++ q.text) files apart same (λ s. refl)
