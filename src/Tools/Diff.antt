-- ===== src/Tools/Diff.antt =====
-- internal/tools/diff.go: the line diff that a file edit reports.
pub mod Apply
use sandbar.Base.{
  ℕ, zero, suc, ◌+◌, ◌-◌, ◌*◌, Str, codes, str_eq, cut_line, has_prefix, newline, leb, ltb, ◌==◌,
  if◌then◌else◌, length, take, drop, replicate, get_or, is_nil, Bool, true, false, Option, none,
  some, List, [], ◌∷◌, ◌++◌, map, not, ◌&&◌,
}
use mathlib.Core.List.{reverse}

abbrev pub max_lcs_cells : ℕ
max_lcs_cells = 4000000

abbrev pub diff_max_lines : ℕ
diff_max_lines = 200

-- The byte `kind`: ' ', '-' or '+'.
pub data OpKind : Type 0 where
  equal removed added : OpKind

pub record DiffOp : Type 0 where
  pub kind : OpKind
  pub text : Str

abbrev pub op : OpKind → Str → DiffOp
op k t = record { kind = k; text = t }

-- The loop of `splitLines`; each round takes a byte at least, so the length is fuel enough.
unfoldable pub split_from : ℕ → Str → List Str
split_from zero s = s ∷ []
split_from (suc fuel) s = elim (cut_line s) [
  | none ↦ s ∷ []
  | some (l, r) ↦ l ∷ elim (is_nil r) [ true ↦ [] | false ↦ split_from fuel r ]
]

unfoldable pub split_lines : Str → List Str
split_lines s = if is_nil s then [] else split_from (length s) s

-- The loop over `p`: the length of the common prefix.
unfoldable pub common_prefix : List Str → List Str → ℕ
common_prefix [] b = 0
common_prefix (x ∷ a) [] = 0
common_prefix (x ∷ a) (y ∷ b) = let rest = common_prefix a b in if str_eq x y then suc rest else 0

-- Row i of `dp`, right to left, from row i + 1: `x` is a[i], `next` is dp[i+1][j:].
unfoldable pub lcs_row : Str → List Str → List ℕ → List ℕ
lcs_row x [] next = 0 ∷ []
lcs_row x (y ∷ b) next =
    let rest = lcs_row x b (drop 1 next) in
    (if str_eq x y
      then get_or next 1 0 + 1
      else if leb (get_or rest 0 0) (get_or next 0 0)
      then get_or next 0 0
      else get_or rest 0 0)
    ∷ rest

-- `dp` from row i on, filled from the last row up.
unfoldable pub lcs_table : List Str → List Str → List (List ℕ)
lcs_table [] b = replicate (suc (length b)) 0 ∷ []
lcs_table (x ∷ a) b = let rows = lcs_table a b in lcs_row x b (get_or rows 0 []) ∷ rows

-- dp[i][j], of the rows from i on.
abbrev pub cell : List (List ℕ) → ℕ → ℕ → ℕ
cell rows i j = get_or (get_or rows i []) j 0

-- The walk of `lcsMiddle`, at a[i:], b[j:] and the rows from i on; `j` is the column.
unfoldable pub lcs_walk : List Str → List Str → List (List ℕ) → ℕ → List DiffOp
lcs_walk [] b rows j = map (op added) b
lcs_walk (x ∷ a) [] rows j = map (op removed) (x ∷ a)
lcs_walk (x ∷ a) (y ∷ b) rows j =
    let both = op equal x ∷ lcs_walk a b (drop 1 rows) (j + 1) in
    let old = op removed x ∷ lcs_walk a (y ∷ b) (drop 1 rows) j in
    let new = op added y ∷ lcs_walk (x ∷ a) b rows (j + 1) in
    if str_eq x y then both else if leb (cell rows 0 (j + 1)) (cell rows 1 j) then old else new

unfoldable pub lcs_middle : List Str → List Str → List DiffOp
lcs_middle a b = lcs_walk a b (lcs_table a b) 0

-- The `switch` on the changed region.
unfoldable pub middle_ops : List Str → List Str → List DiffOp
middle_ops a b =
    if is_nil a && is_nil b
    then []
    else if leb (length a * length b) max_lcs_cells
    then lcs_middle a b
    else map (op removed) a ++ map (op added) b

-- `lcsOps`: p lines in front and k lines at the end are common, the last counted past the first.
unfoldable pub lcs_ops : List Str → List Str → List DiffOp
lcs_ops a b =
    let p = common_prefix a b in
    let k = common_prefix (reverse (drop p a)) (reverse (drop p b)) in
    map (op equal) (take p a)
    ++ (middle_ops (take (length a - k - p) (drop p a)) (take (length b - k - p) (drop p b))
        ++ map (op equal) (drop (length a - k) a))
