-- ===== src/Tests/Files.antt =====
-- File tools on a small file.
use sandbar.Base.{
  Str, codes, lookup, insert, str_eq, if◌then◌else◌, some, true, false, [], ◌∷◌, ◌++◌, ◌≡◌, refl,
  ok, Outcome,
}
use mathlib.Core.List.{reverse}
use sandbar.Tools.Mutation.{
  Files, World, FileSnapshot, MutationError, mutate_file, prepare_mutation, read_expected,
  read_file_snapshot, check_file_precondition, atomic_replace_file,
}
use sandbar.Tools.Mutation.Commit.{Mutated, mutate_file-Mutated}
use sandbar.Tools.Patch.{levenshtein, all_rows, next_row, fill_cells, first_row, min3}
use sandbar.Tools.Patch.Distance.{edits, levenshtein-edits}
use sandbar.Tools.Hashline.{all_hex, is_hex_char}
use sandbar.Tools.FileTools.{
  Args, Host, string, write_request, file_append, with_request, string_arg, required, non_empty,
  has_infix, expected_sha256, validate_path, commit,
}
use sandbar.Tools.FileTools.Edits.{Edited, file_append-Edited}

abbrev notes : Files
notes = (codes "/w/n", record { content = codes "a"; mode = 420; regular = true }) ∷ []

abbrev quiet : World
quiet = record {
  done_at_start = false;
  done_after_transform = false;
  done_at_commit = false;
  meanwhile = λ files. files;
  before_rename = λ files. files;
  commits = true;
  keep_bits = λ mode. mode;
  created_mode = 420;
}

abbrev append_b : FileSnapshot → Outcome MutationError Str
append_b before = ok (before.content ++ codes "b")

-- The digest of the text `a`, and the one that all others get here.
abbrev digest_of_a : Str
digest_of_a = codes "aaaaaaaaaaaaaaaaaaaaaaaaaaaaaaaaaaaaaaaaaaaaaaaaaaaaaaaaaaaaaaaa"

abbrev other_digest : Str
other_digest = codes "bbbbbbbbbbbbbbbbbbbbbbbbbbbbbbbbbbbbbbbbbbbbbbbbbbbbbbbbbbbbbbbb"

abbrev platform : Host
platform = record {
  sha256_hex = λ s. if str_eq s (codes "a") then digest_of_a else other_digest;
  line_hash = λ s. s;
  lower_trimmed = λ s. s;
  clean = λ s. s;
  join_abs = λ a b. some b;
  abs = λ s. some s;
  canonical = λ s. some s;
  workspace = codes "/w";
  done_at_line = λ i. false;
}

abbrev append_args : Args
append_args =
    (codes "path", string (codes "/w/n"))
    ∷ (codes "content", string (codes "b"))
    ∷ (codes "expected_sha256", string digest_of_a)
    ∷ []

kitten : levenshtein (codes "kitten") (codes "sitting") ≡ 3
unfolding levenshtein all_rows next_row fill_cells first_row min3
kitten = refl

mutate_file-Mutated_example :
    Mutated
      (λ s. codes "h" ++ s)
      quiet
      (codes "/w/n")
      (codes "ha")
      append_b
      notes
      (mutate_file (λ s. codes "h" ++ s) quiet (codes "/w/n") (codes "ha") false append_b notes)
mutate_file-Mutated_example =
    mutate_file-Mutated (λ s. codes "h" ++ s) quiet (codes "/w/n") (codes "ha") false append_b notes

levenshtein-edits_example :
    levenshtein (codes "kitten") (codes "sitting")
    ≡ edits (reverse (codes "kitten")) (reverse (codes "sitting"))
levenshtein-edits_example = levenshtein-edits (codes "kitten") (codes "sitting")

file_append-Edited_example :
    Edited platform quiet notes
      (write_request platform append_args)
      (λ r text. text ++ r.text)
      (file_append platform quiet append_args notes)
file_append-Edited_example = file_append-Edited platform quiet append_args notes (λ path same. refl)

-- That call succeeds.
append_succeeds :
    (file_append platform quiet append_args notes).1
    ≡ ok (record { before = codes "a"; after = codes "ab"; hash = other_digest })
unfolding file_append with_request write_request string_arg required non_empty has_infix
    expected_sha256 validate_path commit mutate_file prepare_mutation read_expected
    read_file_snapshot check_file_precondition atomic_replace_file lookup insert str_eq all_hex
    is_hex_char
append_succeeds = refl
