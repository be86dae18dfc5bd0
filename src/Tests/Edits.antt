-- ===== src/Tests/Edits.antt =====
-- The diff of two small files.
use sandbar.Tools.Hashline.{stamp, parse_hashline, format_hashline_output, all_hex, is_hex_char}
use sandbar.Tools.Hashline.RoundTrip.{parse_hashline-format}
use sandbar.Base.{map, some, Str, codes, List, [], ◌∷◌, ◌≡◌, refl, take, drop, str_eq, cut_line}
use sandbar.Tools.Diff.{
  DiffOp, op, equal, removed, added, split_lines, split_from, common_prefix, lcs_row, lcs_table,
  lcs_walk, lcs_middle, middle_ops, lcs_ops,
}
use sandbar.Tools.Diff.Apply.{old_lines, new_lines, lcs_ops-Turns}
use sandbar.Tools.Hunks.{make_hunk}
use sandbar.Tools.Hunks.Headers.{make_hunk-header}
use sandbar.Tools.DiffText.{count_adds_removes, ops_text}
use sandbar.Tools.DiffText.Counts.{count_adds_removes-ops}

abbrev before : List Str
before = codes "a" ∷ codes "b" ∷ codes "c" ∷ codes "d" ∷ []

abbrev after : List Str
after = codes "a" ∷ codes "c" ∷ codes "x" ∷ codes "d" ∷ []

split_two : split_lines (codes "a\nbc\n") ≡ codes "a" ∷ codes "bc" ∷ []
unfolding split_lines split_from cut_line
split_two = refl

diff_of_two :
    lcs_ops before after
    ≡ op equal (codes "a")
      ∷ op removed (codes "b")
      ∷ op equal (codes "c")
      ∷ op added (codes "x")
      ∷ op equal (codes "d")
      ∷ []
unfolding lcs_ops middle_ops lcs_middle lcs_walk lcs_table lcs_row common_prefix str_eq
diff_of_two = refl

lcs_ops-Turns_example :
    (old_lines (lcs_ops before after) ≡ before) × (new_lines (lcs_ops before after) ≡ after)
lcs_ops-Turns_example = lcs_ops-Turns before after

make_hunk-header_example :
    (old_lines (make_hunk (lcs_ops before after) 1 4).lines
      ≡ take
          (make_hunk (lcs_ops before after) 1 4).old_count
          (drop (make_hunk (lcs_ops before after) 1 4).old_start before))
    × (new_lines (make_hunk (lcs_ops before after) 1 4).lines
        ≡ take
            (make_hunk (lcs_ops before after) 1 4).new_count
            (drop (make_hunk (lcs_ops before after) 1 4).new_start after))
make_hunk-header_example = make_hunk-header before after 1 4

-- An added line "++i" is not counted.
abbrev increments : List DiffOp
increments = op added (codes "++i") ∷ op added (codes "i") ∷ []

count_adds_removes_example :
    ((count_adds_removes (ops_text increments)).0 ≡ 1)
    × ((count_adds_removes (ops_text increments)).1 ≡ 0)
count_adds_removes_example =
    count_adds_removes-ops increments ((refl, (refl, (refl, tt))), ((refl, tt), tt))

-- Stands for a hash: eight letters "a" whatever the line is.
abbrev same_hash : Str → Str
same_hash l = codes "aaaaaaaa"

parse_hashline-format_example :
    parse_hashline (format_hashline_output same_hash (codes "x\n\ny"))
    ≡ some (map (stamp same_hash) (split_lines (codes "x\n\ny")))
unfolding all_hex is_hex_char
parse_hashline-format_example =
    parse_hashline-format same_hash (λ l. (refl, refl)) (codes "x\n\ny") refl
