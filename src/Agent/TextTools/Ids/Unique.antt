-- ===== src/Agent/TextTools/Ids/Unique.antt =====
-- No id is given twice.
use sandbar.Base.{
  ℕ, zero, suc, ◌+◌, ◌-◌, ◌*◌, ◌/◌, ◌%◌, ◌^◌, ◌≤◌, ◌<◌, Str, codes, ltb, leb, ◌==◌, if◌then◌else◌,
  true, [], ◌∷◌, ◌++◌, ◌≡◌, ◌≢◌, refl, sym, ap, ◌∙◌, arith, Bool-cases, inl, inr, append_assoc,
  append-nil, ◌&&◌,
}
use mathlib.Core.List.{reverse, reverse-append, reverse-reverse}
use sandbar.Agent.TextTools.Ids.{digits_from, itoa, itoa_int, unique_text_call_id}

-- The digits of a number, the last one first.
abbrev little : ℕ → ℕ → Str
little zero n = []
little (suc fuel) n = let rest = little fuel (n / 10) in if n == 0 then [] else (48 + n % 10) ∷ rest

digits_from-little : (fuel n : ℕ) (ds : Str) → digits_from fuel n ds ≡ reverse (little fuel n) ++ ds
unfolding digits_from
digits_from-little zero n ds = refl
digits_from-little (suc fuel) n ds = elim (Bool-cases (n == 0)) [
  | inl e ↦ rw e refl
  | inr e ↦ rw e (
      digits_from-little fuel (n / 10) ((48 + n % 10) ∷ ds)
      ∙ sym (
          ap (λ l. l ++ ds) (reverse-append ((48 + n % 10) ∷ []) (little fuel (n / 10)))
          ∙ append_assoc (reverse (little fuel (n / 10))) ((48 + n % 10) ∷ []) ds))
]

-- The number that a text, read from its end, has there.
abbrev value : Str → ℕ
value [] = 0
value (c ∷ s) = let rest = value s in if leb 48 c && leb c 57 then (c - 48) + 10 * rest else 0

value-little : (fuel n : ℕ) (s : Str) → n ≤ fuel → value (little fuel n ++ 116 ∷ s) ≡ n
value-little zero n s small = omega (arith, small)
value-little (suc fuel) n s small = elim (Bool-cases (n == 0)) [
  | inl e ↦ rw (little, e) (ground (arith, e))
  | inr e ↦
      let positive : 0 < n = ground arith in
      let rest : value (little fuel (n / 10) ++ 116 ∷ s) ≡ n / 10 =
        value-little fuel (n / 10) s (omega (arith, small, positive)) in
      rw (little, e) (ground (arith, rest))
]

-- The counter that an id ends with.
abbrev last_number : Str → ℕ
last_number s = value (reverse s)

itoa-little : (n : ℕ) → 0 < n → itoa n ≡ reverse (little n n)
unfolding itoa
itoa-little n positive = elim (Bool-cases (n == 0)) [
  | inl e ↦ ground arith
  | inr e ↦ rw e (digits_from-little n n [] ∙ append-nil (reverse (little n n)))
]

last_number-itoa : (s : Str) (n : ℕ) → 0 < n → last_number (s ++ codes "_t" ++ itoa n) ≡ n
last_number-itoa s n positive =
    ap value (
      reverse-append (s ++ codes "_t") (itoa n)
      ∙ ap (λ l. l ++ reverse (s ++ codes "_t"))
          (ap reverse (itoa-little n positive) ∙ reverse-reverse (little n n))
      ∙ ap (λ l. little n n ++ l) (reverse-append s (codes "_t")))
    ∙ value-little n n _ (omega arith)

last_number-id :
    (tool : Str) (i counter : ℕ)
    → counter + 1 < 2 ^ 63
    → last_number (unique_text_call_id tool i counter).1 ≡ counter + 1
unfolding unique_text_call_id itoa_int
last_number-id tool i counter small =
    let kept : (counter + 1) % 2 ^ 64 ≡ counter + 1 = omega (arith, small) in
    let low : ltb (counter + 1) (2 ^ 63) ≡ true = ground arith in
    rw (kept, low) (last_number-itoa (tool ++ codes "_" ++ itoa i) (counter + 1) (omega arith))

-- Ids that are given at different values of the counter below 2 ^ 63 - 1 differ, whatever the tools
-- and the places of the calls in their messages.
pub unique_text_call_id-distinct :
    (tool other : Str) (i j counter later : ℕ)
    → counter + 1 < 2 ^ 63
    → later + 1 < 2 ^ 63
    → counter ≢ later
    → (unique_text_call_id tool i counter).1 ≢ (unique_text_call_id other j later).1
unique_text_call_id-distinct tool other i j counter later small small_too apart same =
    let read : last_number (unique_text_call_id tool i counter).1
        ≡ last_number (unique_text_call_id other j later).1 =
      ap last_number same in
    let e : counter + 1 ≡ later + 1 =
      sym (last_number-id tool i counter small) ∙ read ∙ last_number-id other j later small_too in
    omega (arith, e, apart)
