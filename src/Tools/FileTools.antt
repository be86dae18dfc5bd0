-- ===== src/Tools/FileTools.antt =====
-- internal/tools/file.go and patch.go: FileWrite, FileAppend and FilePatch over `mutateFile`.
-- The path functions of the platform (`filepath`) and `ToLower(TrimSpace(s))` are parameters. An
-- error that only wraps a text is a constructor.
pub mod Edits
use sandbar.Base.{
  ℕ, zero, suc, ◌+◌, Str, codes, str_eq, has_prefix, ltb, leb, ◌==◌, if◌then◌else◌, Bool, true,
  false, length, is_nil, Map, lookup, Option, none, some, List, [], ◌∷◌, ◌++◌, not, ◌&&◌, ◌||◌,
  Outcome, ok, err, ◌>>=◌, guard,
}
use sandbar.Tools.Diff.{split_lines}
use sandbar.Tools.Hashline.{
  HashlineRef, all_hex, parse_hashline, validate_hashlines, apply_hashline_edit, Edit, edited,
  anchor_not_found, index_panic,
}
use sandbar.Tools.Mutation.{
  Files, FileSnapshot, MutationError, rejected, expected_file_absent, World, mutate_file,
}
use sandbar.Tools.Patch.{count_matches, replace_first, find_closest_line}

-- An argument of a tool call: a string or anything else.
pub data Arg : Type 0 where
  string : Str → Arg
  not_string : Arg

abbrev pub Args : Type 0
Args = Map Arg

pub data FileError : Type 0 where
  path_required : FileError
  content_required : FileError
  old_str_required : FileError
  new_str_required : FileError
  expected_required : FileError
  expected_malformed : FileError
  absent_refused : FileError
  path_refused : Str → FileError
  unresolved : FileError
  failed : MutationError → FileError

-- `args[name].(string)`
unfoldable pub string_arg : Str → Args → Option Str
string_arg name args = elim (lookup name args) [
  | none ↦ none
  | some a ↦ elim a [ string s ↦ some s | not_string ↦ none ]
]

-- A string argument, or the one under its older name.
unfoldable pub aliased_arg : Str → Str → Args → Option Str
aliased_arg name older args = elim (string_arg name args) [
  | some s ↦ some s
  | none ↦ string_arg older args
]

unfoldable pub required : {A : Type 0} → Option A → FileError → Outcome FileError A
required none e = err e
required (some a) e = ok a

-- A path or text that must not be empty.
unfoldable pub non_empty : Option Str → FileError → Outcome FileError Str
non_empty none e = err e
non_empty (some s) e = if is_nil s then err e else ok s

-- `strings.Contains`
unfoldable pub has_infix : Str → Str → Bool
has_infix s [] = true
has_infix [] (b ∷ sub) = false
has_infix (c ∷ s) (b ∷ sub) = has_prefix (c ∷ s) (b ∷ sub) || has_infix s (b ∷ sub)

-- What the tools take from the platform and the configuration. `line_hash` and `sha256_hex` are the
-- digests of a line and of a file.
pub record Host : Type 0 where
  pub sha256_hex : Str → Str
  pub line_hash : Str → Str
  pub lower_trimmed : Str → Str
  pub clean : Str → Str
  pub join_abs : Str → Str → Option Str
  pub abs : Str → Option Str
  pub canonical : Str → Option Str
  pub workspace : Str
  pub done_at_line : ℕ → Bool

-- `validatePath`
unfoldable pub validate_path : Host → Str → Outcome FileError Str
validate_path h raw =
    let cleaned = h.clean raw in
    if has_infix cleaned (codes "..")
    then err (path_refused raw)
    else if has_prefix cleaned (codes "/")
    then ok cleaned
    else (required (h.join_abs h.workspace cleaned) unresolved >>= λ resolved.
        required (h.abs h.workspace) unresolved >>= λ root.
        if has_prefix (resolved ++ codes "/") (root ++ codes "/") || str_eq resolved root
        then ok resolved
        else err (path_refused raw))

-- `expectedSHA256`
unfoldable pub expected_sha256 : Host → Args → Outcome FileError Str
expected_sha256 h args =
    required (string_arg (codes "expected_sha256") args) expected_required >>= λ raw.
    let expected = h.lower_trimmed raw in
    if is_nil expected
    then err expected_required
    else if str_eq expected expected_file_absent
    then ok expected
    else if length expected == 64 && all_hex expected
    then ok expected
    else err expected_malformed

-- What a successful tool reports: the content replaced, the new one and its hash.
pub record Report : Type 0 where
  pub before : Str
  pub after : Str
  pub hash : Str

-- A request whose arguments are accepted.
pub record Request : Type 0 where
  pub path : Str
  pub text : Str
  pub expected : Str

-- The arguments of `FileWrite` and `FileAppend`, in the order in which they are tested.
unfoldable pub write_request : Host → Args → Outcome FileError Request
write_request h args = non_empty (string_arg (codes "path") args) path_required >>= λ path.
    required (string_arg (codes "content") args) content_required >>= λ content.
    expected_sha256 h args >>= λ expected. validate_path h path >>= λ resolved.
    required (h.canonical resolved) unresolved >>= λ target.
    ok (record { path = target; text = content; expected = expected })

-- The commit of a request and the report of it.
unfoldable pub commit :
    Host
    → World
    → Request
    → Bool
    → (FileSnapshot → Outcome MutationError Str)
    → Files
    → Files × Outcome FileError Report
commit h w r allow_create transform files =
    let out = mutate_file h.sha256_hex w r.path r.expected allow_create transform files in
    (
      out.0,
      elim out.1 [
        | err e ↦ err (failed e)
        | ok (latest, (new, hash)) ↦
            ok (record { before = latest.content; after = new; hash = hash })
      ],
    )

-- A tool whose arguments are refused touches no file.
unfoldable pub with_request :
    Files
    → Outcome FileError Request
    → (Request → Files × Outcome FileError Report)
    → Files × Outcome FileError Report
with_request files (err e) run = (files, err e)
with_request files (ok r) run = run r

unfoldable pub file_write : Host → World → Args → Files → Files × Outcome FileError Report
file_write h w args files =
    with_request files (write_request h args) (λ r. commit h w r true (λ before. ok r.text) files)

unfoldable pub file_append : Host → World → Args → Files → Files × Outcome FileError Report
file_append h w args files =
    with_request files (write_request h args)
      (λ r. commit h w r true (λ before. ok (before.content ++ r.text)) files)

-- The arguments of `FilePatch`, in the order in which they are tested.
unfoldable pub patch_request : Host → Args → Outcome FileError (Request × Str)
patch_request h args = non_empty (string_arg (codes "path") args) path_required >>= λ path.
    non_empty (aliased_arg (codes "old_str") (codes "search_string") args) old_str_required
    >>= λ search.
        required (aliased_arg (codes "new_str") (codes "replace_string") args) new_str_required
        >>= λ new. expected_sha256 h args >>= λ expected.
            (if str_eq expected expected_file_absent
              then err absent_refused
              else validate_path h path)
            >>= λ resolved. required (h.canonical resolved) unresolved >>= λ target.
                (let out : Request × Str =
                    (record { path = target; text = search; expected = expected }, new) in
                  ok out)

-- The part of the transformation for a text that does not occur: anchors, or the error with the
-- closest line.
unfoldable pub patch_anchored : Host → Str → Str → Str → Outcome MutationError Str
patch_anchored h content search new = elim (parse_hashline search) [
  | none ↦ elim (find_closest_line h.done_at_line content search) [
    | none ↦ err (rejected (codes "cancelled"))
    | some line ↦ err (rejected (codes "search_string not found"))
  ]
  | some refs ↦
      if not (is_nil (validate_hashlines h.line_hash content refs))
      then err (rejected (codes "stale hashline anchors"))
      else elim (apply_hashline_edit h.line_hash content refs new) [
        | edited patched ↦ ok patched
        | anchor_not_found hash ↦ err (rejected (codes "hashline anchor not found"))
        | index_panic ↦ err (rejected (codes "index out of range"))
      ]
]

-- The transformation of `FilePatch`.
unfoldable pub patch_content : Host → Str → Str → FileSnapshot → Outcome MutationError Str
patch_content h search new before =
    if count_matches before.content search == 0
    then patch_anchored h before.content search new
    else if ltb 1 (count_matches before.content search)
    then err (rejected (codes "search_string matches more than once"))
    else ok (replace_first search new before.content)

unfoldable pub file_patch : Host → World → Args → Files → Files × Outcome FileError Report
file_patch h w args files = elim (patch_request h args) [
  | err e ↦ (files, err e)
  | ok (r, new) ↦ commit h w r false (patch_content h r.text new) files
]
