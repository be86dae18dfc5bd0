-- ===== src/Agent/TextTools/Steps.antt =====
-- Every loop of the text parser ends: each of its steps takes at least a byte.
use sandbar.Base.{
  ℕ, zero, suc, ◌+◌, ◌≤◌, ◌<◌, Str, codes, has_prefix, Bool, true, false, length, length-drop,
  Option, none, some, List, [], ◌∷◌, ◌≡◌, refl, ap, arith, if-holds, is_nil,
}
use sandbar.Agent.TextTools.Scan.{
  Next, stop, skip, found, cut_at, collect_from, collect, pieces_from,
}
use sandbar.Agent.TextTools.{TextHost, open_tag, element, wrapper, plain_parameter}

-- What a cut leaves fits with its mark into the text.
abbrev Fits : Str → Str → Option (Str × Str) → Type 0
Fits mark s none = Unit
Fits mark s (some (before, after)) = length after + length mark ≤ length s

has_prefix-length : (s mark : Str) → has_prefix s mark ≡ true → length mark ≤ length s
has_prefix-length s [] h = omega arith
has_prefix-length [] (b ∷ mark) h = ground (arith, h)
has_prefix-length (c ∷ s) (b ∷ mark) h = ground (arith, h, has_prefix-length s mark)

cut_at-Fits : (mark s : Str) → Fits mark s (cut_at mark s)
unfolding cut_at
cut_at-Fits mark [] = tt
cut_at-Fits mark (c ∷ s) =
    if-holds (Fits mark (c ∷ s)) (has_prefix (c ∷ s) mark) _ _
      (λ e. omega (arith, has_prefix-length (c ∷ s) mark e, length-drop (length mark) (c ∷ s)))
      (λ e. by_rest (cut_at mark s) (cut_at-Fits mark s))
  where
    by_rest :
        (o : Option (Str × Str))
        → Fits mark s o
        → Fits mark (c ∷ s) (elim o as (λ x. Option (Str × Str)) [
          | none ↦ none
          | some (before, after) ↦ some (c ∷ before, after)
        ])
    by_rest none h = tt
    by_rest (some (before, after)) h = omega (arith, h)

-- What a step leaves has fewer than `n` bytes.
abbrev pub Below : {A : Type 0} → ℕ → Next A → Type 0
Below n stop = Unit
Below n (skip rest) = length rest < n
Below n (found a rest) = length rest < n

collect_from-fuel :
    {A : Type 0} (step : Str → Next A)
    → ((s : Str) → Below (length s) (step s))
    → (n m : ℕ) (s : Str) → length s < n
    → length s < m
    → collect_from step n s ≡ collect_from step m s
unfolding collect_from
collect_from-fuel step takes zero m s small large = ground arith
collect_from-fuel step takes (suc n) zero s small large = ground arith
collect_from-fuel {A = A} step takes (suc n) (suc m) s small large =
    by_step (step s) (takes s) (collect_from-fuel step takes n m)
  where
    by_step :
        (x : Next A)
        → Below (length s) x
        → ((r : Str) → length r < n → length r < m → collect_from step n r ≡ collect_from step m r)
        → elim x as (λ y. List A) [
          | stop ↦ []
          | skip rest ↦ collect_from step n rest
          | found a rest ↦ a ∷ collect_from step n rest
        ]
          ≡ elim x as (λ y. List A) [
            | stop ↦ []
            | skip rest ↦ collect_from step m rest
            | found a rest ↦ a ∷ collect_from step m rest
          ]
    by_step stop h rec = refl
    by_step (skip rest) h rec = rec rest (omega (arith, h, small)) (omega (arith, h, large))
    by_step (found a rest) h rec =
        ap (◌∷◌ a) (rec rest (omega (arith, h, small)) (omega (arith, h, large)))

-- A step that starts with a cut.
cut-holds :
    {A : Type 0} (P : Next A → Type 0) (mark s : Str) (k : Str → Str → Next A)
    → P stop
    → ((before after : Str) → length after + length mark ≤ length s → P (k before after))
    → P (elim (cut_at mark s) as (λ x. Next A) [
      | none ↦ stop
      | some (before, after) ↦ k before after
    ])
cut-holds {A = A} P mark s k none_found h = by_cut (cut_at mark s) (cut_at-Fits mark s)
  where
    by_cut :
        (o : Option (Str × Str))
        → Fits mark s o
        → P (elim o as (λ x. Next A) [ none ↦ stop | some (before, after) ↦ k before after ])
    by_cut none f = none_found
    by_cut (some (before, after)) f = h before after f

wrapper-Below : (s : Str) → Below (length s) (wrapper s)
unfolding wrapper
wrapper-Below s =
    cut-holds (Below (length s)) (codes "<function_calls>") s _ tt (λ before body less.
      cut-holds (Below (length s)) (codes "</function_calls>") body _ tt
        (λ block rest fewer. omega (arith, less, fewer)))

-- The text after a tag, also where it is found.
abbrev Opens : ℕ → Next (Str × Str) → Type 0
Opens n stop = Unit
Opens n (skip rest) = length rest < n
Opens n (found (name, rest) tail) = length rest < n

open_tag-Opens :
    (h : TextHost) (start s : Str) → 0 < length start → Opens (length s) (open_tag h start s)
unfolding open_tag
open_tag-Opens h start s full = cut-holds (Opens (length s)) start s _ tt (λ before after less.
    cut-holds (Opens (length s)) (codes "\"") after _ tt (λ name after_quote fewer.
      cut-holds (Opens (length s)) (codes ">") after_quote _ tt (λ tag rest least.
        let smaller : length rest < length s = omega (arith, full, less, fewer, least) in
        if-holds (Opens (length s)) (is_nil (h.trim tag)) _ _ (λ e. smaller) (λ e. smaller))))

element-Below :
    (h : TextHost) (start end s : Str) → 0 < length start → Below (length s) (element h start end s)
unfolding element
element-Below h start end s full = by_tag (open_tag h start s) (open_tag-Opens h start s full)
  where
    by_tag :
        (x : Next (Str × Str))
        → Opens (length s) x
        → Below (length s) (elim x as (λ y. Next (Str × Str)) [
          | stop ↦ stop
          | skip rest ↦ skip rest
          | found (name, rest) tail ↦ elim (cut_at end rest) as (λ y. Next (Str × Str)) [
            | none ↦ stop
            | some (inside, after) ↦ found (name, inside) after
          ]
        ])
    by_tag stop o = tt
    by_tag (skip rest) o = o
    by_tag (found (name, rest) tail) o =
        cut-holds (Below (length s)) end rest _ tt (λ inside after less. omega (arith, o, less))

plain_parameter-Below :
    (h : TextHost) (start end : Str) (quoted : Bool) (s : Str)
    → 0 < length start
    → Below (length s) (plain_parameter h start end quoted s)
unfolding plain_parameter
plain_parameter-Below h start end true s full =
    cut-holds (Below (length s)) start s _ tt (λ before after less.
      cut-holds (Below (length s)) (codes "\"") after _ tt (λ name rest fewer.
        cut-holds (Below (length s)) (codes ">") rest _ tt (λ tag value_on least.
          cut-holds (Below (length s)) end value_on _ tt
            (λ value left last. omega (arith, full, less, fewer, least, last)))))
plain_parameter-Below h start end false s full =
    cut-holds (Below (length s)) start s _ tt (λ before after less.
      cut-holds (Below (length s)) (codes ">") after _ tt (λ name rest fewer.
        cut-holds (Below (length s)) end rest _ tt
          (λ value left last. omega (arith, full, less, fewer, last))))

pieces_from-fuel :
    (n m : ℕ) (mark s : Str)
    → 0 < length mark
    → length s < n
    → length s < m
    → pieces_from n mark s ≡ pieces_from m mark s
unfolding pieces_from
pieces_from-fuel zero m mark s full small large = ground arith
pieces_from-fuel (suc n) zero mark s full small large = ground arith
pieces_from-fuel (suc n) (suc m) mark s full small large =
    by_cut (cut_at mark s) (cut_at-Fits mark s) (λ r. pieces_from-fuel n m mark r full)
  where
    by_cut :
        (o : Option (Str × Str))
        → Fits mark s o
        → ((r : Str) → length r < n → length r < m → pieces_from n mark r ≡ pieces_from m mark r)
        → elim o as (λ x. List Str) [
          | none ↦ s ∷ []
          | some (before, after) ↦ before ∷ pieces_from n mark after
        ]
          ≡ elim o as (λ x. List Str) [
            | none ↦ s ∷ []
            | some (before, after) ↦ before ∷ pieces_from m mark after
          ]
    by_cut none f rec = refl
    by_cut (some (before, after)) f rec =
        ap (◌∷◌ before) (rec after (omega (arith, f, full, small)) (omega (arith, f, full, large)))

-- The loops of the text parser over wrappers, elements, parameters and the pieces of a split end
-- within as many rounds as the text has bytes, and one: with any more rounds they give the same, for
-- start marks that are not empty.
pub collect-enough :
    (h : TextHost) (start end : Str) (quoted : Bool) (fuel : ℕ) (s : Str)
    → 0 < length start
    → length s < fuel
    → (collect_from wrapper fuel s ≡ collect wrapper s)
      × (collect_from (element h start end) fuel s ≡ collect (element h start end) s)
      × (collect_from (plain_parameter h start end quoted) fuel s
          ≡ collect (plain_parameter h start end quoted) s)
      × (pieces_from fuel start s ≡ pieces_from (suc (length s)) start s)
unfolding collect
collect-enough h start end quoted fuel s full enough = (
  collect_from-fuel wrapper wrapper-Below fuel (suc (length s)) s enough (omega arith),
  collect_from-fuel (element h start end) (λ t. element-Below h start end t full) fuel
      (suc (length s)) s enough (omega arith),
  collect_from-fuel (plain_parameter h start end quoted)
      (λ t. plain_parameter-Below h start end quoted t full) fuel (suc (length s)) s enough
      (omega arith),
  pieces_from-fuel fuel (suc (length s)) start s full enough (omega arith),
)
