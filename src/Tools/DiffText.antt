-- ===== src/Tools/DiffText.antt =====
-- internal/tools/diff.go: the text of a unified diff, its counts of added and removed lines, and
-- the summary that the file tools return. `%d` is the parameter `digits`, whose code is Go's.
pub mod Counts
use sandbar.Base.{
  ℕ, ◌+◌, ◌-◌, Str, codes, newline, has_prefix, ltb, ◌==◌, if◌then◌else◌, length, take, is_nil,
  Bool, true, false, List, [], ◌∷◌, ◌++◌, ◌&&◌, ◌||◌,
}
use sandbar.Base
use sandbar.Tools.Diff.{OpKind, equal, removed, added, DiffOp, split_lines, lcs_ops, diff_max_lines}
use sandbar.Tools.Hunks.{Hunk, build_hunks}

abbrev pub kind_byte : OpKind → ℕ
kind_byte equal = b' '
kind_byte removed = b'-'
kind_byte added = b'+'

-- `strings.Split(s, "\n")`: the pieces around every newline.
unfoldable pub prepend : ℕ → List Str → List Str
prepend c [] = (c ∷ []) ∷ []
prepend c (l ∷ ls) = (c ∷ l) ∷ ls

unfoldable pub split_newlines : Str → List Str
split_newlines [] = [] ∷ []
split_newlines (c ∷ s) =
    let rest = split_newlines s in if c == newline then [] ∷ rest else prepend c rest

-- The switch of `countAddsRemoves` on one line.
unfoldable pub count_line : Str → ℕ × ℕ → ℕ × ℕ
count_line line (adds, removes) =
    if has_prefix line (codes "+++") || has_prefix line (codes "---")
    then (adds, removes)
    else if has_prefix line (codes "+")
    then (adds + 1, removes)
    else if has_prefix line (codes "-")
    then (adds, removes + 1)
    else (adds, removes)

unfoldable pub count_over : List Str → ℕ × ℕ → ℕ × ℕ
count_over [] n = n
count_over (line ∷ lines) n = count_over lines (count_line line n)

unfoldable pub count_adds_removes : Str → ℕ × ℕ
count_adds_removes body = count_over (split_newlines body) (0, 0)

unfoldable pub op_text : DiffOp → Str
op_text o = kind_byte o.kind ∷ (o.text ++ newline ∷ [])

unfoldable pub ops_text : List DiffOp → Str
ops_text [] = []
ops_text (o ∷ ops) = op_text o ++ ops_text ops

module _ (digits : ℕ → Str) where
  unfoldable pub range_str : ℕ → ℕ → Str
  range_str start count =
      if count == 0
      then digits start ++ codes ",0"
      else if count == 1
      then digits (start + 1)
      else digits (start + 1) ++ (codes "," ++ digits count)

  unfoldable pub hunk_text : Hunk → Str
  hunk_text h =
      codes "@@ -"
      ++ (range_str h.old_start h.old_count
          ++ (codes " +"
              ++ (range_str h.new_start h.new_count ++ (codes " @@\n" ++ ops_text h.lines))))

  unfoldable pub hunks_text : List Hunk → Str
  hunks_text [] = []
  hunks_text (h ∷ hs) = hunk_text h ++ hunks_text hs

  -- `unifiedDiff`
  unfoldable pub unified_diff : Str → Str → Str → Str
  unified_diff old new path =
      let hunks = build_hunks (lcs_ops (split_lines old) (split_lines new)) 3 in
      if is_nil hunks
      then []
      else codes "--- a/"
        ++ (path ++ (codes "\n+++ b/" ++ (path ++ (codes "\n" ++ hunks_text hunks))))

-- What `fileDiffSummary` reports, before it is formatted: that nothing changed, or the counts with
-- the lines shown and the number of lines left out.
pub data Summary : Type 0 where
  no_changes : Summary
  changes : ℕ → ℕ → Str → Summary
  cut_changes : ℕ → ℕ → List Str → ℕ → Summary

-- `strings.TrimRight(body, "\n")`
unfoldable pub trim_newlines : Str → Str
trim_newlines [] = []
trim_newlines (c ∷ s) =
    let rest = trim_newlines s in if is_nil rest && c == newline then [] else c ∷ rest

unfoldable pub summarize : Str → Summary
summarize body =
    let (adds, removes) = count_adds_removes body in
    let lines = split_newlines (trim_newlines body) in
    if adds == 0 && removes == 0
    then no_changes
    else if ltb diff_max_lines (length lines)
    then cut_changes adds removes (take diff_max_lines lines) (length lines - diff_max_lines)
    else changes adds removes body

unfoldable pub file_diff_summary : (ℕ → Str) → Str → Str → Str → Summary
file_diff_summary digits path old new = summarize (unified_diff digits old new path)
