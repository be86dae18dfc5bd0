-- ===== src/Tools/Hunks.antt =====
-- internal/tools/diff.go: `buildHunks` and `makeHunk`, which cut a diff into unified-diff hunks.
pub mod Headers
use sandbar.Base.{
  ℕ, zero, suc, ◌+◌, ◌-◌, ◌*◌, leb, ltb, if◌then◌else◌, length, take, drop, Bool, true, false, List,
  [], ◌∷◌, ◌++◌, map, min,
}
use sandbar.Tools.Diff.{OpKind, equal, removed, added, DiffOp}

-- `rng`: a half-open range of operation indices.
pub record Range : Type 0 where
  pub from : ℕ
  pub to : ℕ

abbrev pub is_equal : DiffOp → Bool
is_equal o = elim o.kind [ equal ↦ true | removed ↦ false | added ↦ false ]

-- The first loop, at index `i`: `run` says that a change group is open, and where it began.
pub data Run : Type 0 where
  idle : Run
  open_at : ℕ → Run

-- The groups that end when the next operation is read, and the run after it.
unfoldable pub see_op : ℕ → DiffOp → Run → List Range × Run
see_op i o idle = if is_equal o then ([], idle) else ([], open_at i)
see_op i o (open_at start) =
    if is_equal o then (record { from = start; to = i } ∷ [], idle) else ([], open_at start)

unfoldable pub change_groups : ℕ → List DiffOp → Run → List Range
change_groups i [] idle = []
change_groups i [] (open_at start) = record { from = start; to = i } ∷ []
change_groups i (o ∷ ops) run =
    let (done, run') = see_op i o run in done ++ change_groups (i + 1) ops run'

-- The merging loop, with `prev` the last merged group.
unfoldable pub merge_groups : ℕ → Range → List Range → List Range
merge_groups context prev [] = prev ∷ []
merge_groups context prev (g ∷ gs) =
    let joined = merge_groups context (record { from = prev.from; to = g.to }) gs in
    let apart = prev ∷ merge_groups context g gs in
    if leb (g.from - prev.to) (2 * context) then joined else apart

pub record Hunk : Type 0 where
  pub old_start : ℕ
  pub old_count : ℕ
  pub new_start : ℕ
  pub new_count : ℕ
  pub lines : List DiffOp

-- How far one operation moves `oldLine` and `newLine`.
abbrev pub old_width : DiffOp → ℕ
old_width o = elim o.kind [ equal ↦ 1 | removed ↦ 1 | added ↦ 0 ]

abbrev pub new_width : DiffOp → ℕ
new_width o = elim o.kind [ equal ↦ 1 | removed ↦ 0 | added ↦ 1 ]

-- The two loops of `makeHunk`: `oldLine` and `newLine` over a stretch of operations.
unfoldable pub count_lines : List DiffOp → ℕ × ℕ → ℕ × ℕ
count_lines [] n = n
count_lines (o ∷ ops) (old, new) = count_lines ops (old + old_width o, new + new_width o)

unfoldable pub make_hunk : List DiffOp → ℕ → ℕ → Hunk
make_hunk ops start end =
    let before = count_lines (take start ops) (0, 0) in
    let lines = take (end - start) (drop start ops) in
    let counts = count_lines lines (0, 0) in
    record {
      old_start = before.0;
      old_count = counts.0;
      new_start = before.1;
      new_count = counts.1;
      lines = lines;
    }

-- The range of a merged group with its context. `-` stops at 0, as the source does by hand.
unfoldable pub expand : List DiffOp → ℕ → Range → Hunk
expand ops context g = make_hunk ops (g.from - context) (min (g.to + context) (length ops))

unfoldable pub build_hunks : List DiffOp → ℕ → List Hunk
build_hunks ops context = elim (change_groups 0 ops idle) [
  | [] ↦ []
  | g ∷ gs ↦ map (expand ops context) (merge_groups context g gs)
]
