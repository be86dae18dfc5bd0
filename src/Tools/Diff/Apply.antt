-- ===== src/Tools/Diff/Apply.antt =====
-- A diff loses nothing: its equal and removed lines are the old file, its equal and added lines the
-- new one.
use sandbar.Base.{
  ℕ, ◌+◌, ◌-◌, ◌≤◌, Str, str_eq, str_eq_iff, leb, if◌then◌else◌, length, take, drop, Bool, true,
  false, List, [], ◌∷◌, ◌++◌, map, ◌≡◌, refl, sym, ap, ◌∙◌, arith, append_assoc, append-nil,
  Bool-cases, inl, inr, take-append-drop, length-drop, length-reverse, drop-drop,
  reverse-take-reverse,
}
use mathlib.Core.List.{reverse}
use mathlib.Core.Path.{ap₂}
use sandbar.Tools.Diff.{
  OpKind, equal, removed, added, DiffOp, op, common_prefix, lcs_table, cell, lcs_walk, lcs_middle,
  middle_ops, lcs_ops,
}

abbrev pub old_line : OpKind → Str → List Str
old_line equal t = t ∷ []
old_line removed t = t ∷ []
old_line added t = []

abbrev pub new_line : OpKind → Str → List Str
new_line equal t = t ∷ []
new_line removed t = []
new_line added t = t ∷ []

-- The lines of the old file, and of the new one.
abbrev pub old_lines : List DiffOp → List Str
old_lines [] = []
old_lines (o ∷ ops) = old_line o.kind o.text ++ old_lines ops

abbrev pub new_lines : List DiffOp → List Str
new_lines [] = []
new_lines (o ∷ ops) = new_line o.kind o.text ++ new_lines ops

-- The operations turn `a` into `b`.
abbrev pub Turns : List Str → List Str → List DiffOp → Type 0
Turns a b ops = (old_lines ops ≡ a) × (new_lines ops ≡ b)

pub old_lines-append : (xs ys : List DiffOp) → old_lines (xs ++ ys) ≡ old_lines xs ++ old_lines ys
old_lines-append [] ys = refl
old_lines-append (o ∷ xs) ys =
    ap (◌++◌ (old_line o.kind o.text)) (old_lines-append xs ys)
    ∙ sym (append_assoc (old_line o.kind o.text) (old_lines xs) (old_lines ys))

pub new_lines-append : (xs ys : List DiffOp) → new_lines (xs ++ ys) ≡ new_lines xs ++ new_lines ys
new_lines-append [] ys = refl
new_lines-append (o ∷ xs) ys =
    ap (◌++◌ (new_line o.kind o.text)) (new_lines-append xs ys)
    ∙ sym (append_assoc (new_line o.kind o.text) (new_lines xs) (new_lines ys))

Turns-append :
    (a b c d : List Str) (xs ys : List DiffOp)
    → Turns a b xs
    → Turns c d ys
    → Turns (a ++ c) (b ++ d) (xs ++ ys)
Turns-append a b c d xs ys (p, q) (r, s) =
    (old_lines-append xs ys ∙ ap₂ ◌++◌ p r, new_lines-append xs ys ∙ ap₂ ◌++◌ q s)

equal-Turns : (a : List Str) → Turns a a (map (op equal) a)
equal-Turns [] = (refl, refl)
equal-Turns (x ∷ a) = (ap (◌∷◌ x) (equal-Turns a).0, ap (◌∷◌ x) (equal-Turns a).1)

removed-Turns : (a : List Str) → Turns a [] (map (op removed) a)
removed-Turns [] = (refl, refl)
removed-Turns (x ∷ a) = (ap (◌∷◌ x) (removed-Turns a).0, (removed-Turns a).1)

added-Turns : (b : List Str) → Turns [] b (map (op added) b)
added-Turns [] = (refl, refl)
added-Turns (y ∷ b) = ((added-Turns b).0, ap (◌∷◌ y) (added-Turns b).1)

-- The walk is right whatever the table holds.
lcs_walk-Turns : (a b : List Str) (rows : List (List ℕ)) (j : ℕ) → Turns a b (lcs_walk a b rows j)
unfolding lcs_walk
lcs_walk-Turns [] b rows j = added-Turns b
lcs_walk-Turns (x ∷ a) [] rows j = removed-Turns (x ∷ a)
lcs_walk-Turns (x ∷ a) (y ∷ b) rows j =
    let (p, q) = lcs_walk-Turns a b (drop 1 rows) (j + 1) in
    let (r, s) = lcs_walk-Turns a (y ∷ b) (drop 1 rows) j in
    let (t, u) = lcs_walk-Turns (x ∷ a) b rows (j + 1) in
    elim (Bool-cases (str_eq x y)) [
      | inl e ↦ rw e (ap (◌∷◌ x) p, ap₂ ◌∷◌ ((str_eq_iff x y).0 e) q)
      | inr e ↦ elim (Bool-cases (leb (cell rows 0 (j + 1)) (cell rows 1 j))) [
        | inl f ↦ rw (e, f) (ap (◌∷◌ x) r, s)
        | inr f ↦ rw (e, f) (t, ap (◌∷◌ y) u)
      ]
    ]

coarse-Turns : (a b : List Str) → Turns a b (map (op removed) a ++ map (op added) b)
coarse-Turns a b =
    let both =
      Turns-append a [] [] b (map (op removed) a) (map (op added) b) (removed-Turns a)
        (added-Turns b) in
    (both.0 ∙ append-nil a, both.1)

sized-Turns :
    (big : Bool) (a b : List Str)
    → Turns a b (if big then lcs_middle a b else map (op removed) a ++ map (op added) b)
unfolding lcs_middle
sized-Turns true a b = lcs_walk-Turns a b (lcs_table a b) 0
sized-Turns false a b = coarse-Turns a b

middle_ops-Turns : (a b : List Str) → Turns a b (middle_ops a b)
unfolding middle_ops
middle_ops-Turns [] [] = (refl, refl)
middle_ops-Turns [] (y ∷ b) = sized-Turns _ [] (y ∷ b)
middle_ops-Turns (x ∷ a) b = sized-Turns _ (x ∷ a) b

common_prefix_lem :
    (a b : List Str)
    → (take (common_prefix a b) a ≡ take (common_prefix a b) b)
      × (common_prefix a b ≤ length a)
      × (common_prefix a b ≤ length b)
unfolding common_prefix
common_prefix_lem [] b = (refl, omega arith, omega arith)
common_prefix_lem (x ∷ a) [] = (refl, omega arith, omega arith)
common_prefix_lem (x ∷ a) (y ∷ b) =
    let (p, q, r) = common_prefix_lem a b in
    elim (Bool-cases (str_eq x y)) [
      | inl e ↦ rw e (ap₂ ◌∷◌ ((str_eq_iff x y).0 e) p, omega arith, omega arith)
      | inr e ↦ rw e (refl, omega arith, omega arith)
    ]

-- A file in three parts: the lines before the change, the changed region, and `k` lines after it.
parts :
    (p k : ℕ) (a : List Str)
    → p + k ≤ length a
    → take p a ++ (take (length a - k - p) (drop p a) ++ drop (length a - k) a) ≡ a
parts p k a h =
    let n = length a - k - p in
    let same : p + n ≡ length a - k = omega arith in
    ap (λ (l : List Str). take p a ++ (take n (drop p a) ++ l))
      (sym (drop-drop n p a ∙ ap (λ (m : ℕ). drop m a) same))
    ∙ ap (◌++◌ (take p a)) (take-append-drop n (drop p a))
    ∙ take-append-drop p a

-- The suffix that the second loop finds is common.
suffix_lem :
    (p : ℕ) (a b : List Str)
    → p ≤ length a
    → p ≤ length b
    → let k = common_prefix (reverse (drop p a)) (reverse (drop p b)) in
      (drop (length a - k) a ≡ drop (length b - k) b) × (p + k ≤ length a) × (p + k ≤ length b)
suffix_lem p a b ha hb =
    let k = common_prefix (reverse (drop p a)) (reverse (drop p b)) in
    let (same, ka, kb) = common_prefix_lem (reverse (drop p a)) (reverse (drop p b)) in
    let fa : k ≤ length (drop p a) = omega (arith, length-reverse (drop p a)) in
    let fb : k ≤ length (drop p b) = omega (arith, length-reverse (drop p b)) in
    (
      sym (last p k a ha fa) ∙ ap reverse same ∙ last p k b hb fb,
      omega (arith, length-drop p a),
      omega (arith, length-drop p b),
    )
  where
    last :
        (p k : ℕ) (c : List Str)
        → p ≤ length c
        → k ≤ length (drop p c)
        → reverse (take k (reverse (drop p c))) ≡ drop (length c - k) c
    last p k c h f =
        let same : p + (length (drop p c) - k) ≡ length c - k = omega (arith, length-drop p c) in
        reverse-take-reverse k (drop p c) f
        ∙ drop-drop (length (drop p c) - k) p c
        ∙ ap (λ (m : ℕ). drop m c) same

-- The equal and removed lines of a diff, in order, are the old file; the equal and added lines are
-- the new file.
pub lcs_ops-Turns : (a b : List Str) → (old_lines (lcs_ops a b) ≡ a) × (new_lines (lcs_ops a b) ≡ b)
unfolding lcs_ops
lcs_ops-Turns a b =
    let p = common_prefix a b in
    let k = common_prefix (reverse (drop p a)) (reverse (drop p b)) in
    let (front, pa, pb) = common_prefix_lem a b in
    let (back, fa, fb) = suffix_lem p a b pa pb in
    let mid_a = take (length a - k - p) (drop p a) in
    let mid_b = take (length b - k - p) (drop p b) in
    let tail = drop (length a - k) a in
    let rest =
      Turns-append mid_a mid_b tail tail (middle_ops mid_a mid_b) (map (op equal) tail)
        (middle_ops-Turns mid_a mid_b) (equal-Turns tail) in
    let whole =
      Turns-append (take p a) (take p a) (mid_a ++ tail) (mid_b ++ tail) (map (op equal) (take p a))
        (middle_ops mid_a mid_b ++ map (op equal) tail) (equal-Turns (take p a)) rest in
    (
      whole.0 ∙ parts p k a fa,
      whole.1
          ∙ ap₂ (λ (f l : List Str). f ++ (take (length b - k - p) (drop p b) ++ l)) front back
          ∙ parts p k b fb,
    )
