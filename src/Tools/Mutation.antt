-- ===== src/Tools/Mutation.antt =====
-- internal/tools/file_mutation.go: the content-addressed read-modify-write of the file tools.
-- Files are by canonical path, and only regular ones have a content. The path lock keeps other
-- calls of `mutateFile` out; other programs ignore it. Between the two reads of the file they may
-- change the files in any way, which is the field `meanwhile`, and again between the second read
-- and the rename, while the code changes the mode, syncs and closes the temporary file, which is
-- the field `before_rename`. SHA-256 is the parameter `sha256_hex`.
pub mod Commit
use sandbar.Base.{
  ℕ, Str, codes, str_eq, ◌==◌, if◌then◌else◌, Bool, true, false, Map, lookup, insert, Option, none,
  some, [], not, ◌&&◌, Outcome, ok, err, ◌>>=◌, guard,
}

pub record File : Type 0 where
  pub content : Str
  pub mode : ℕ
  pub regular : Bool

abbrev pub Files : Type 0
Files = Map File

pub record FileSnapshot : Type 0 where
  pub content : Str
  pub mode : ℕ
  pub exists : Bool
  pub hash : Str

pub data MutationError : Type 0 where
  cancelled : MutationError
  not_regular : MutationError
  not_exist : MutationError
  conflict : Str → Str → MutationError
  rejected : Str → MutationError
  io_failed : MutationError

-- `ExpectedFileAbsent`
abbrev pub expected_file_absent : Str
expected_file_absent = codes "absent"

-- `checkFilePrecondition`
unfoldable pub check_file_precondition : Str → FileSnapshot → Outcome MutationError (Unit {0})
check_file_precondition expected current =
    if str_eq expected current.hash then ok tt else err (conflict expected current.hash)

-- What the code meets while it runs: whether the context is done at its three tests, what other
-- programs do before the second read and between it and the rename, whether the temporary file and the rename succeed, and the
-- permission bits of the platform.
pub record World : Type 0 where
  pub done_at_start : Bool
  pub done_after_transform : Bool
  pub done_at_commit : Bool
  pub meanwhile : Files → Files
  pub before_rename : Files → Files
  pub commits : Bool
  pub keep_bits : ℕ → ℕ
  pub created_mode : ℕ

-- The mode after the commit: a mode that changed under way is taken over, and 0644 is what a new
-- file is created with before the umask.
unfoldable pub committed_mode : World → FileSnapshot → FileSnapshot → ℕ
committed_mode w before latest =
    let nominal = if before.exists then w.keep_bits before.mode else w.keep_bits 420 in
    let written = if before.exists then nominal else w.created_mode in
    let latest_mode = if latest.exists then w.keep_bits latest.mode else 0 in
    if not (latest_mode == 0) && not (latest_mode == nominal) then latest_mode else written

module _ (sha256_hex : Str → Str) where
  -- `readFileSnapshot`
  unfoldable pub read_file_snapshot : Str → Files → Outcome MutationError FileSnapshot
  read_file_snapshot path files = elim (lookup path files) [
    | none ↦ ok (record { content = []; mode = 0; exists = false; hash = expected_file_absent })
    | some f ↦
        if f.regular
        then ok (record {
          content = f.content;
          mode = f.mode;
          exists = true;
          hash = sha256_hex f.content;
        })
        else err not_regular
  ]

  -- A read whose hash is the expected one, of a file that may be used.
  unfoldable pub read_expected : Str → Str → Bool → Files → Outcome MutationError FileSnapshot
  read_expected path expected allow_create files = read_file_snapshot path files >>= λ current.
      check_file_precondition expected current >>= λ same.
      guard (not (not current.exists && not allow_create)) not_exist >>= λ usable. ok current

  -- `atomicReplaceFile` with the revalidation of `mutateFile`, on the files that this meets; the rename
  -- puts the new content in place of whatever stands there by then.
  unfoldable pub atomic_replace_file :
      World
      → Str
      → Str
      → Bool
      → FileSnapshot
      → Str
      → Files
      → Files × Outcome MutationError FileSnapshot
  atomic_replace_file w path expected allow_create before new files =
      elim (guard (not w.done_at_commit) cancelled >>= λ live.
      read_expected path expected allow_create files) [
        | err e ↦ (files, err e)
        | ok latest ↦
            if w.commits
            then (
              insert path
                  (record { content = new; mode = committed_mode w before latest; regular = true })
                  (w.before_rename files),
              ok latest,
            )
            else (w.before_rename files, err io_failed)
      ]

  -- The part of `mutateFile` before anything is written: the snapshot and the new content.
  unfoldable pub prepare_mutation :
      World
      → Str
      → Str
      → Bool
      → (FileSnapshot → Outcome MutationError Str)
      → Files
      → Outcome MutationError (FileSnapshot × Str)
  prepare_mutation w path expected allow_create transform files =
      guard (not w.done_at_start) cancelled >>= λ started.
      read_expected path expected allow_create files >>= λ before. transform before >>= λ new.
      guard (not w.done_after_transform) cancelled >>= λ live.
      (let out : FileSnapshot × Str = (before, new) in ok out)

  -- `mutateFile`: the files after it, with the latest snapshot, the new content,
  -- which the callers keep from their transformation, and its hash.
  unfoldable pub mutate_file :
      World
      → Str
      → Str
      → Bool
      → (FileSnapshot → Outcome MutationError Str)
      → Files
      → Files × Outcome MutationError (FileSnapshot × (Str × Str))
  mutate_file w path expected allow_create transform files =
      elim (prepare_mutation w path expected allow_create transform files) [
        | err e ↦ (files, err e)
        | ok (before, new) ↦
            let out =
              atomic_replace_file w path expected allow_create before new (w.meanwhile files) in
            (out.0, elim out.1 [ err e ↦ err e | ok latest ↦ ok (latest, (new, sha256_hex new)) ])
      ]
