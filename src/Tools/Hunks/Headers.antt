-- ===== src/Tools/Hunks/Headers.antt =====
-- The line numbers in a hunk's header are those of its lines.
use sandbar.Base.{
  ℕ, ◌+◌, ◌-◌, Str, length, take, drop, take-append-drop, take-length-append, drop-length-append,
  List, [], ◌∷◌, ◌++◌, ◌≡◌, sym, ap, ◌∙◌, arith,
}
use mathlib.Core.Path.{ap₂}
use sandbar.Tools.Diff.{OpKind, equal, removed, added, DiffOp, op, lcs_ops}
use sandbar.Tools.Diff.Apply.{
  old_lines, new_lines, old_lines-append, new_lines-append, lcs_ops-Turns,
}
use sandbar.Tools.Hunks.{old_width, new_width, count_lines, make_hunk}

count_lines_lem :
    (ops : List DiffOp) (old new : ℕ)
    → ((count_lines ops (old, new)).0 ≡ old + length (old_lines ops))
      × ((count_lines ops (old, new)).1 ≡ new + length (new_lines ops))
unfolding count_lines
count_lines_lem [] old new = ground arith
count_lines_lem (o ∷ ops) old new =
    let (p, q) = count_lines_lem ops (old + old_width o) (new + new_width o) in
    let (u, v) = widths o.kind in (omega arith, omega arith)
  where
    widths :
        (k : OpKind)
        → (old_width (op k o.text) + length (old_lines ops)
            ≡ length (old_lines (op k o.text ∷ ops)))
          × (new_width (op k o.text) + length (new_lines ops)
              ≡ length (new_lines (op k o.text ∷ ops)))
    widths equal = ground arith
    widths removed = ground arith
    widths added = ground arith

-- A stretch of a list, found again in the whole by lengths.
slice_lem {ℓ} :
    {A : Type ℓ} (x y z : List A) → take (length y) (drop (length x) (x ++ (y ++ z))) ≡ y
slice_lem x y z = ap (take (length y)) (drop-length-append x (y ++ z)) ∙ take-length-append y z

module _ (a b : List Str) (start end : ℕ) where
  before : List DiffOp
  before = take start (lcs_ops a b)

  inside : List DiffOp
  inside = take (end - start) (drop start (lcs_ops a b))

  after : List DiffOp
  after = drop (end - start) (drop start (lcs_ops a b))

  split : lcs_ops a b ≡ before ++ (inside ++ after)
  unfolding before inside after
  split = sym (
      ap (◌++◌ (take start (lcs_ops a b)))
        (take-append-drop (end - start) (drop start (lcs_ops a b)))
      ∙ take-append-drop start (lcs_ops a b))

  -- In a hunk cut from the diff of `a` and `b`, the header's ranges are right: the hunk's old lines
  -- are the `old_count` lines of `a` from `old_start` on, and its new lines the `new_count` lines
  -- of `b` from `new_start` on.
  pub make_hunk-header :
      (old_lines (make_hunk (lcs_ops a b) start end).lines
        ≡ take
            (make_hunk (lcs_ops a b) start end).old_count
            (drop (make_hunk (lcs_ops a b) start end).old_start a))
      × (new_lines (make_hunk (lcs_ops a b) start end).lines
          ≡ take
              (make_hunk (lcs_ops a b) start end).new_count
              (drop (make_hunk (lcs_ops a b) start end).new_start b))
  unfolding make_hunk before inside
  make_hunk-header =
      let (p, q) = count_lines_lem before 0 0 in
      let (u, v) = count_lines_lem inside 0 0 in
      let (old, new) = lcs_ops-Turns a b in
      let e : (n : ℕ) → 0 + n ≡ n = λ n. omega arith in
      (
        sym (
            ap₂ (λ (m n : ℕ). take m (drop n a)) (u ∙ e _) (p ∙ e _)
            ∙ ap
                (λ (l : List Str).
                  take (length (old_lines inside)) (drop (length (old_lines before)) l))
                (sym old
                  ∙ ap old_lines split
                  ∙ old_lines-append before (inside ++ after)
                  ∙ ap (◌++◌ (old_lines before)) (old_lines-append inside after))
            ∙ slice_lem (old_lines before) (old_lines inside) (old_lines after)),
        sym (
            ap₂ (λ (m n : ℕ). take m (drop n b)) (v ∙ e _) (q ∙ e _)
            ∙ ap
                (λ (l : List Str).
                  take (length (new_lines inside)) (drop (length (new_lines before)) l))
                (sym new
                  ∙ ap new_lines split
                  ∙ new_lines-append before (inside ++ after)
                  ∙ ap (◌++◌ (new_lines before)) (new_lines-append inside after))
            ∙ slice_lem (new_lines before) (new_lines inside) (new_lines after)),
      )
