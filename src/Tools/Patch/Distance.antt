-- ===== src/Tools/Patch/Distance.antt =====
-- The two rows of `levenshtein` compute the edit distance.
use sandbar.Base.{
  ℕ, suc, ◌+◌, Str, ◌==◌, if◌then◌else◌, length, List, [], ◌∷◌, ◌++◌, ◌≡◌, refl, sym, ap, ◌∙◌,
  arith, min, length-reverse, append_assoc, append-nil,
}
use mathlib.Core.List.{reverse, reverse-append}
use sandbar.Tools.Patch.{min3, fill_cells, next_row, all_rows, first_row, last_of, levenshtein}

-- The fewest insertions, deletions and substitutions that turn one string into the other.
abbrev pub edits : Str → Str → ℕ
edits [] b = length b
edits (x ∷ a) [] = suc (length a)
edits (x ∷ a) (y ∷ b) =
    min (min (edits (x ∷ a) b + 1) (edits a (y ∷ b) + 1)) (edits a b + (if x == y then 0 else 1))

-- The row of the distances from `ra` to the prefixes of a string, of which `rb` is read already; both
-- are turned round.
abbrev row_of : Str → Str → Str → List ℕ
row_of ra rb [] = edits ra rb ∷ []
row_of ra rb (y ∷ b) = edits ra rb ∷ row_of ra (y ∷ rb) b

min3-min : (a b c : ℕ) → min3 a b c ≡ min (min a b) c
unfolding min3
min3-min a b c = ground arith

abbrev rest_of : Str → Str → Str → List ℕ
rest_of ra rb [] = []
rest_of ra rb (y ∷ b) = row_of ra (y ∷ rb) b

row_of-rest : (ra rb b : Str) → row_of ra rb b ≡ edits ra rb ∷ rest_of ra rb b
row_of-rest ra rb [] = refl
row_of-rest ra rb (y ∷ b) = refl

fill_cells-row :
    (x : ℕ) (ra rb b : Str)
    → edits (x ∷ ra) rb ∷ fill_cells x (edits (x ∷ ra) rb) (edits ra rb) (rest_of ra rb b) b
      ≡ row_of (x ∷ ra) rb b
unfolding fill_cells
fill_cells-row x ra rb [] = refl
fill_cells-row x ra rb (y ∷ b) =
    rw
      (
        row_of-rest ra (y ∷ rb) b,
        min3-min (edits (x ∷ ra) rb + 1) (edits ra (y ∷ rb) + 1)
            (edits ra rb + (if x == y then 0 else 1)),
      )
      (ap (◌∷◌ (edits (x ∷ ra) rb)) (fill_cells-row x ra (y ∷ rb) b))

edits-nil : (ra : Str) → edits ra [] ≡ length ra
edits-nil [] = refl
edits-nil (x ∷ ra) = refl

next_row-row :
    (i x : ℕ) (ra b : Str)
    → i ≡ suc (length ra)
    → next_row i x b (row_of ra [] b) ≡ row_of (x ∷ ra) [] b
unfolding next_row
next_row-row i x ra b e = rw (row_of-rest ra [] b, e) (fill_cells-row x ra [] b)

all_rows-row :
    (i : ℕ) (a b ra : Str)
    → i ≡ suc (length ra)
    → all_rows i a b (row_of ra [] b) ≡ row_of (reverse a ++ ra) [] b
unfolding all_rows
all_rows-row i [] b ra e = refl
all_rows-row i (x ∷ a) b ra e =
    let turned : reverse (x ∷ a) ++ ra ≡ reverse a ++ (x ∷ ra) =
      ap (λ l. l ++ ra) (reverse-append (x ∷ []) a) ∙ append_assoc (reverse a) (x ∷ []) ra in
    rw (next_row-row i x ra b e, turned) (all_rows-row (i + 1) a b (x ∷ ra) (omega arith))

first_row-row : (j : ℕ) (rb b : Str) → j ≡ length rb → first_row j b ≡ row_of [] rb b
unfolding first_row
first_row-row j rb [] e = rw e refl
first_row-row j rb (y ∷ b) e = rw (first_row-row (j + 1) (y ∷ rb) b (omega arith), e) refl

last_of-row : (ra rb b : Str) → last_of (row_of ra rb b) ≡ edits ra (reverse b ++ rb)
last_of-row ra rb [] = refl
last_of-row ra rb (y ∷ b) =
    let turned : reverse (y ∷ b) ++ rb ≡ reverse b ++ (y ∷ rb) =
      ap (λ l. l ++ rb) (reverse-append (y ∷ []) b) ∙ append_assoc (reverse b) (y ∷ []) rb in
    let skip : last_of (edits ra rb ∷ row_of ra (y ∷ rb) b) ≡ last_of (row_of ra (y ∷ rb) b) =
      rw (row_of-rest ra (y ∷ rb) b) refl in
    rw (turned, skip) (last_of-row ra (y ∷ rb) b)

-- `levenshtein` returns the edit distance of the two strings, each read from its end: the fewest
-- insertions, deletions and substitutions that turn one into the other, by the recursion on the two
-- strings.
pub levenshtein-edits : (a b : Str) → levenshtein a b ≡ edits (reverse a) (reverse b)
unfolding levenshtein
levenshtein-edits [] b = sym (length-reverse b)
levenshtein-edits (x ∷ a) [] = sym (edits-nil (reverse (x ∷ a)) ∙ length-reverse (x ∷ a))
levenshtein-edits (x ∷ a) (y ∷ b) =
    let whole_a : reverse (x ∷ a) ++ [] ≡ reverse (x ∷ a) = append-nil (reverse (x ∷ a)) in
    let whole_b : reverse (y ∷ b) ++ [] ≡ reverse (y ∷ b) = append-nil (reverse (y ∷ b)) in
    ap (λ r. last_of (all_rows 1 (x ∷ a) (y ∷ b) r)) (first_row-row 0 [] (y ∷ b) refl)
    ∙ ap last_of (all_rows-row 1 (x ∷ a) (y ∷ b) [] refl)
    ∙ last_of-row (reverse (x ∷ a) ++ []) [] (y ∷ b)
    ∙ ap (λ l. edits l (reverse (y ∷ b) ++ [])) whole_a
    ∙ ap (edits (reverse (x ∷ a))) whole_b
