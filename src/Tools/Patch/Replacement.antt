-- ===== src/Tools/Patch/Replacement.antt =====
-- A text that occurs once is replaced where it occurs.
use sandbar.Base.{
  ℕ, zero, suc, ◌-◌, Str, has_prefix, true, false, length, drop, is_nil, [], ◌∷◌, ◌++◌, ◌≡◌, refl,
  sym, ap, ◌∙◌, arith, Bool-cases, inl, inr,
}
use sandbar.Tools.Patch.{count_from, count_matches, replace_first}

has_prefix-drop : (s sub : Str) → has_prefix s sub ≡ true → s ≡ sub ++ drop (length sub) s
has_prefix-drop s [] h = refl
has_prefix-drop [] (b ∷ sub) h = cc
has_prefix-drop (c ∷ s) (b ∷ sub) h = ground (arith, has_prefix-drop s sub)

count_from-drop : (sub : Str) (k : ℕ) (s : Str) → count_from sub k s ≡ count_from sub 0 (drop k s)
unfolding count_from
count_from-drop sub zero s = refl
count_from-drop sub (suc k) [] = refl
count_from-drop sub (suc k) (c ∷ s) = count_from-drop sub k s

-- The text around the first occurrence, what replacing it gives, and how many occurrences are left.
abbrev pub Splits : Str → Str → Str → ℕ → Str → Type 0
Splits s sub new n out =
    (pre : Str) × (post : Str) × (s ≡ pre ++ (sub ++ post))
    × (out ≡ pre ++ (new ++ post))
    × (count_matches post sub ≡ n)

-- A text that `strings.Count` finds n + 1 times, n of them after the first, is replaced where it
-- first stands: what is before and after it stays. With n = 0 no occurrence is left in what follows.
pub replace_first-Splits :
    (s sub new : Str) (n : ℕ)
    → is_nil sub ≡ false
    → count_matches s sub ≡ suc n
    → Splits s sub new n (replace_first sub new s)
unfolding count_matches count_from replace_first
replace_first-Splits [] sub new n full h = cc
replace_first-Splits (c ∷ s) [] new n full h = cc
replace_first-Splits (c ∷ s) (b ∷ sub) new n full h =
    elim (Bool-cases (has_prefix (c ∷ s) (b ∷ sub))) [
      | inl e ↦
          let here : c ∷ s ≡ (b ∷ sub) ++ drop (length sub) s =
            has_prefix-drop (c ∷ s) (b ∷ sub) e in
          let off : suc (length sub) - 1 ≡ length sub = omega arith in
          let after : suc (count_from (b ∷ sub) (length sub) s) ≡ suc n = rw (e, off) at h in
          let left : count_from (b ∷ sub) (length sub) s ≡ n = omega arith in
          (
            [],
            drop (length sub) s,
            here,
            rw e refl,
            sym (count_from-drop (b ∷ sub) (length sub) s) ∙ left,
          )
      | inr e ↦
          let less : count_from (b ∷ sub) 0 s ≡ suc n = rw e at h in
          let (pre, post, at, out, left) = replace_first-Splits s (b ∷ sub) new n full less in
          (c ∷ pre, post, ap (◌∷◌ c) at, rw (e, out) refl, left)
    ]
