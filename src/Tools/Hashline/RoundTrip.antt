-- ===== src/Tools/Hashline/RoundTrip.antt =====
-- What `formatHashlineOutput` writes is read back by `parseHashline`.
use sandbar.Base.{
  ℕ, zero, suc, ◌<◌, ◌≤◌, Str, newline, ltb, ◌==◌, true, false, cut_line, length, length-append,
  take, drop, is_nil, Option, none, some, List, [], ◌∷◌, ◌++◌, map, ◌≡◌, refl, arith,
  take-length-append, drop-length-append, All, Bool-cases, Option-cases, inl, inr,
}
use sandbar.Tools.Diff.{split_from, split_lines}
use sandbar.Tools.DiffText.{split_newlines}
use sandbar.Tools.DiffText.Counts.{NoNewline, split_newlines-line}
use sandbar.Tools.Hashline.{
  space, HashlineRef, is_hex_char, all_hex, parse_line, parse_lines, parse_hashline, stamp,
  stamp_lines, format_hashline_output,
}

-- A cut is before the first newline and leaves a shorter text; without a cut there is no newline.
abbrev Cut : Str → Option (Str × Str) → Type 0
Cut s none = NoNewline s
Cut s (some (l, r)) = NoNewline l × (length r < length s)

cut_line-Cut : (s : Str) → Cut s (cut_line s)
unfolding cut_line
cut_line-Cut [] = tt
cut_line-Cut (c ∷ s) = elim (Bool-cases (c == newline)) [
  | inl e ↦ rw (e, Cut) (tt, omega arith)
  | inr e ↦ rw e (longer c s (cut_line s) e (cut_line-Cut s))
]
  where
    longer :
        (c : ℕ) (s : Str) (o : Option (Str × Str))
        → (c == newline) ≡ false
        → Cut s o
        → Cut
            (c ∷ s)
            (elim o as (λ x. Option (Str × Str)) [ none ↦ none | some (l, r) ↦ some (c ∷ l, r) ])
    longer c s none e h = (e, h)
    longer c s (some (l, r)) e (h, less) = ((e, h), omega arith)

split_from-NoNewline : (fuel : ℕ) (s : Str) → length s ≤ fuel → All NoNewline (split_from fuel s)
unfolding split_from
split_from-NoNewline zero [] le = (tt, tt)
split_from-NoNewline zero (c ∷ s) le = ground arith
split_from-NoNewline (suc fuel) s le =
    pieces (cut_line s) (cut_line-Cut s) (λ r short. split_from-NoNewline fuel r short)
  where
    pieces :
        (o : Option (Str × Str))
        → Cut s o
        → ((r : Str) → length r ≤ fuel → All NoNewline (split_from fuel r))
        → All NoNewline (elim o as (λ x. List Str) [
          | none ↦ s ∷ []
          | some (l, r) ↦
              l ∷ elim (is_nil r) as (λ x. List Str) [ true ↦ [] | false ↦ split_from fuel r ]
        ])
    pieces none h ih = (h, tt)
    pieces (some (l, r)) (h, less) ih = elim (Bool-cases (is_nil r)) [
      | inl e ↦ rw e (h, tt)
      | inr e ↦ rw e (h, ih r (omega arith))
    ]

split_lines-NoNewline : (s : Str) → All NoNewline (split_lines s)
unfolding split_lines
split_lines-NoNewline [] = tt
split_lines-NoNewline (c ∷ s) = split_from-NoNewline (length (c ∷ s)) (c ∷ s) (omega arith)

-- A line's hash is eight hexadecimal digits.
abbrev pub HexDigest : Str → Type 0
HexDigest h = (length h ≡ 8) × (all_hex h ≡ true)

parse_line-stamped :
    (h l : Str)
    → HexDigest h
    → parse_line (h ++ space ∷ l) ≡ some (record { hash = h; content = l })
unfolding parse_line
parse_line-stamped h l (len, hex) =
    let front : take 8 (h ++ space ∷ l) ≡ h = rw len at (take-length-append h (space ∷ l)) in
    let back : drop 8 (h ++ space ∷ l) ≡ space ∷ l = rw len at (drop-length-append h (space ∷ l)) in
    let long : ltb (length (h ++ space ∷ l)) 9 ≡ false =
      ground (arith, length-append h (space ∷ l)) in
    rw (front, back, long, hex) refl

all_hex-NoNewline : (h : Str) → all_hex h ≡ true → NoNewline h
unfolding all_hex is_hex_char
all_hex-NoNewline [] e = tt
all_hex-NoNewline (c ∷ h) e = (ground arith, all_hex-NoNewline h (ground arith))

NoNewline-append : (s t : Str) → NoNewline s → NoNewline t → NoNewline (s ++ t)
NoNewline-append [] t h k = k
NoNewline-append (c ∷ s) t (h, hs) k = (h, NoNewline-append s t hs k)

parse_lines-cons :
    (x : Str) (ls : List Str) (ref : HashlineRef) (refs : List HashlineRef)
    → parse_line x ≡ some ref
    → parse_lines ls ≡ some refs
    → parse_lines (x ∷ ls) ≡ some (ref ∷ refs)
unfolding parse_lines
parse_lines-cons [] ls ref refs h k = unfold parse_line in cc
parse_lines-cons (c ∷ x) ls ref refs h k = rw (parse_lines, h, k) refl

module _ (line_hash : Str → Str) (digest : (l : Str) → HexDigest (line_hash l)) where
  parse_lines-stamped :
      (ls : List Str)
      → All NoNewline ls
      → parse_lines (split_newlines (stamp_lines line_hash ls)) ≡ some (map (stamp line_hash) ls)
  unfolding parse_lines stamp_lines stamp split_newlines
  parse_lines-stamped [] h = refl
  parse_lines-stamped (l ∷ ls) (h, hs) =
      let whole : NoNewline (line_hash l ++ space ∷ l) =
        NoNewline-append (line_hash l) (space ∷ l) (all_hex-NoNewline (line_hash l) (digest l).1)
          (refl, h) in
      rw (split_newlines-line (line_hash l ++ space ∷ l) (stamp_lines line_hash ls) whole) (
        parse_lines-cons (line_hash l ++ space ∷ l) (split_newlines (stamp_lines line_hash ls))
          (stamp line_hash l) (map (stamp line_hash) ls)
          (parse_line-stamped (line_hash l) l (digest l)) (parse_lines-stamped ls hs))

split_from-full :
    (f : Str → HashlineRef) (fuel : ℕ) (s : Str) → is_nil (map f (split_from fuel s)) ≡ false
unfolding split_from
split_from-full f zero s = refl
split_from-full f (suc fuel) s = elim (Option-cases (cut_line s)) [
  | inl e ↦ let one : split_from (suc fuel) s ≡ s ∷ [] = rw (split_from, e) refl in rw one refl
  | inr ((l, r), e) ↦
      let more : split_from (suc fuel) s
          ≡ l ∷ elim (is_nil r) as (λ x. List Str) [ true ↦ [] | false ↦ split_from fuel r ] =
        rw (split_from, e) refl in
      rw more refl
]

split_lines-full :
    (f : Str → HashlineRef) (s : Str) → is_nil s ≡ false → is_nil (map f (split_lines s)) ≡ false
unfolding split_lines
split_lines-full f s h = rw h (split_from-full f (length s) s)

-- If every line's hash is eight hexadecimal digits, what `formatHashlineOutput` writes of a file
-- that is not empty is read by `parseHashline` as one anchor for every line of the file, in order,
-- with the line's hash and its text.
pub parse_hashline-format :
    (line_hash : Str → Str) (digest : (l : Str) → HexDigest (line_hash l)) (content : Str)
    → is_nil content ≡ false
    → parse_hashline (format_hashline_output line_hash content)
      ≡ some (map (stamp line_hash) (split_lines content))
unfolding parse_hashline format_hashline_output
parse_hashline-format line_hash digest content full =
    rw
      (
        parse_hashline,
        format_hashline_output,
        parse_lines-stamped line_hash digest (split_lines content) (split_lines-NoNewline content),
      )
      (rw (split_lines-full (stamp line_hash) content full) refl)
