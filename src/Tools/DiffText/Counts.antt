-- ===== src/Tools/DiffText/Counts.antt =====
-- Which lines of a diff's text `countAddsRemoves` counts.
use sandbar.Base.{
  ℕ, ◌+◌, Str, codes, newline, has_prefix, ◌==◌, if◌then◌else◌, Bool, false, List, [], ◌∷◌, ◌++◌,
  not, ◌≡◌, refl, append_assoc, ap, ◌∙◌, arith,
}
use sandbar.Tools.Diff.{OpKind, equal, removed, added, DiffOp, op}
use sandbar.Tools.DiffText.{
  kind_byte, split_newlines, prepend, count_line, count_over, count_adds_removes, op_text, ops_text,
}

-- The operations that are counted: not an added line that begins with "++", whose diff line begins
-- like the "+++" header, and not a removed line that begins with "--".
abbrev pub counts_add : DiffOp → Bool
counts_add o = elim o.kind [
  | equal ↦ false
  | removed ↦ false
  | added ↦ not (has_prefix o.text (codes "++"))
]

abbrev pub counts_remove : DiffOp → Bool
counts_remove o = elim o.kind [
  | equal ↦ false
  | removed ↦ not (has_prefix o.text (codes "--"))
  | added ↦ false
]

abbrev pub count_if : (DiffOp → Bool) → List DiffOp → ℕ
count_if p [] = 0
count_if p (o ∷ ops) = (if p o then 1 else 0) + count_if p ops

-- The text of a line holds no newline.
abbrev pub NoNewline : Str → Type 0
NoNewline [] = Unit
NoNewline (c ∷ s) = ((c == newline) ≡ false) × NoNewline s

abbrev pub OneLine : List DiffOp → Type 0
OneLine [] = Unit
OneLine (o ∷ ops) = NoNewline o.text × OneLine ops

pub split_newlines-line :
    (s rest : Str) → NoNewline s → split_newlines (s ++ newline ∷ rest) ≡ s ∷ split_newlines rest
unfolding split_newlines prepend
split_newlines-line [] rest h = refl
split_newlines-line (c ∷ s) rest (h, hs) = rw (split_newlines-line s rest hs, h) refl

count_op :
    (k : OpKind) (t : Str) (a r : ℕ)
    → count_line (kind_byte k ∷ t) (a, r) ≡ (
        let o = op k t in
        let n : ℕ × ℕ =
          (a + (if counts_add o then 1 else 0), r + (if counts_remove o then 1 else 0)) in
        n)
unfolding count_line
count_op equal t a r = ground arith
count_op removed t a r = ground arith
count_op added t a r = ground arith

kind_byte-NoNewline : (k : OpKind) → (kind_byte k == newline) ≡ false
kind_byte-NoNewline equal = refl
kind_byte-NoNewline removed = refl
kind_byte-NoNewline added = refl

split_newlines-op :
    (o : DiffOp) (rest : Str)
    → NoNewline o.text
    → split_newlines (op_text o ++ rest) ≡ (kind_byte o.kind ∷ o.text) ∷ split_newlines rest
unfolding op_text
split_newlines-op o rest h =
    ap (λ (s : Str). split_newlines (kind_byte o.kind ∷ s))
      (append_assoc o.text (newline ∷ []) rest)
    ∙ split_newlines-line (kind_byte o.kind ∷ o.text) rest (kind_byte-NoNewline o.kind, h)

count_over-ops :
    (ops : List DiffOp) (a r : ℕ)
    → OneLine ops
    → count_over (split_newlines (ops_text ops)) (a, r)
      ≡ (let n : ℕ × ℕ = (a + count_if counts_add ops, r + count_if counts_remove ops) in n)
unfolding count_over ops_text
count_over-ops [] a r h = unfold split_newlines count_line in ground arith
count_over-ops (o ∷ ops) a r (h, hs) =
    ap (λ (ls : List Str). count_over ls (a, r)) (split_newlines-op o (ops_text ops) h)
    ∙ ap (count_over (split_newlines (ops_text ops))) (count_op o.kind o.text a r)
    ∙ count_over-ops ops _ _ hs
    ∙ ground arith

-- In the text of diff lines without newlines, `countAddsRemoves` counts exactly the added lines
-- that do not begin with "++" and the removed lines that do not begin with "--": an added "++" line
-- reads like the "+++" header and is left out.
pub count_adds_removes-ops :
    (ops : List DiffOp)
    → OneLine ops
    → ((count_adds_removes (ops_text ops)).0 ≡ count_if counts_add ops)
      × ((count_adds_removes (ops_text ops)).1 ≡ count_if counts_remove ops)
unfolding count_adds_removes
count_adds_removes-ops ops h = ground (arith, count_over-ops ops 0 0 h)
