-- ===== src/Tools/Patch.antt =====
-- internal/tools/patch.go: literal replacement, and the search for the closest line.
pub mod Distance
pub mod Replacement
use sandbar.Base.{
  ℕ, zero, suc, ◌+◌, ◌-◌, ◌%◌, ◌^◌, Str, codes, str_eq, has_prefix, ltb, leb, ◌==◌, if◌then◌else◌,
  Bool, true, false, length, take, drop, is_nil, Option, none, some, List, [], ◌∷◌, ◌++◌, not, ◌&&◌,
  Outcome, ok, err, ◌>>=◌, guard,
}
use sandbar.Tools.DiffText.{split_newlines}

-- `strings.Count` for a pattern that is not empty: matches do not overlap, so after one the next
-- `skip` bytes are passed over.
unfoldable pub count_from : Str → ℕ → Str → ℕ
count_from sub skip [] = 0
count_from sub (suc skip) (c ∷ s) = count_from sub skip s
count_from sub zero (c ∷ s) =
    let after = count_from sub (length sub - 1) s in
    let next = count_from sub 0 s in if has_prefix (c ∷ s) sub then suc after else next

unfoldable pub count_matches : Str → Str → ℕ
count_matches s sub = count_from sub 0 s

-- `strings.Replace` with a limit of one.
unfoldable pub replace_first : Str → Str → Str → Str
replace_first sub new [] = []
replace_first sub new (c ∷ s) =
    let rest = replace_first sub new s in
    if has_prefix (c ∷ s) sub then new ++ drop (length sub) (c ∷ s) else c ∷ rest

-- `min`
unfoldable pub min3 : ℕ → ℕ → ℕ → ℕ
min3 a b c = if ltb a b then (if ltb a c then a else c) else (if ltb b c then b else c)

-- The inner loop of `levenshtein` for the byte `x` of `a`: `left` is curr[j-1], `diag` is prev[j-1],
-- and `prev` is the rest of the row above, from prev[j] on.
unfoldable pub fill_cells : ℕ → ℕ → ℕ → List ℕ → Str → List ℕ
fill_cells x left diag prev [] = []
fill_cells x left diag [] (y ∷ b) = []
fill_cells x left diag (up ∷ prev) (y ∷ b) =
    let cell = min3 (left + 1) (up + 1) (diag + (if x == y then 0 else 1)) in
    cell ∷ fill_cells x cell up prev b

-- One round of the outer loop: row `i` from the row above.
unfoldable pub next_row : ℕ → ℕ → Str → List ℕ → List ℕ
next_row i x b [] = i ∷ []
next_row i x b (diag ∷ prev) = i ∷ fill_cells x i diag prev b

unfoldable pub all_rows : ℕ → Str → Str → List ℕ → List ℕ
all_rows i [] b prev = prev
all_rows i (x ∷ a) b prev = all_rows (i + 1) a b (next_row i x b prev)

-- The loop that fills row 0.
unfoldable pub first_row : ℕ → Str → List ℕ
first_row j [] = j ∷ []
first_row j (y ∷ b) = j ∷ first_row (j + 1) b

abbrev pub last_of : List ℕ → ℕ
last_of [] = 0
last_of (d ∷ []) = d
last_of (d ∷ e ∷ ds) = last_of (e ∷ ds)

unfoldable pub levenshtein : Str → Str → ℕ
levenshtein a b =
    if is_nil a
    then length b
    else if is_nil b
    then length a
    else last_of (all_rows 1 a b (first_row 0 b))

abbrev pub fuzzy_match_max_bytes : ℕ
fuzzy_match_max_bytes = 2 ^ 20

abbrev pub fuzzy_match_check_interval : ℕ
fuzzy_match_check_interval = 1024

-- The best line so far, from 1, and its distance.
pub record Closest : Type 0 where
  pub line : ℕ
  pub dist : ℕ

-- The loop over the offsets of one line, of which `count` are left.
unfoldable pub scan_offsets : Str → Str → ℕ → ℕ → ℕ → Closest → Closest
scan_offsets search line i j zero best = best
scan_offsets search line i j (suc count) best =
    let d = levenshtein (take (length search) (drop j line)) search in
    scan_offsets search line i (j + 1) count
      (if ltb d best.dist then record { line = i + 1; dist = d } else best)

-- The loop over the lines; `done i` says whether the context is done at line `i`, `none` is its
-- error.
unfoldable pub scan_lines : (ℕ → Bool) → Str → ℕ → List Str → Closest → Option Closest
scan_lines done search i [] best = some best
scan_lines done search i (line ∷ lines) best =
    let next =
      scan_lines done search (i + 1) lines
        (scan_offsets search line i 0 (length line + 1 - length search) best) in
    if i % fuzzy_match_check_interval == 0 && done i then none else next

unfoldable pub find_closest_line : (ℕ → Bool) → Str → Str → Option ℕ
find_closest_line done content search =
    if is_nil search
    then some 1
    else if ltb fuzzy_match_max_bytes (length content)
    then some 0
    else elim (scan_lines done search 0 (split_newlines content)
        (record { line = 1; dist = length content + length search })) [
          | none ↦ none
          | some best ↦ some best.line
        ]
