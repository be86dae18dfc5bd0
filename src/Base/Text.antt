-- ===== src/Base/Text.antt =====
-- Go strings as lists of bytes, with their comparison.
use Prim.Native.Nat.{ℕ}
use Prim.Native.Char.{code}
use Prim.Native.String.{String}
use mathlib.Core.Path.{◌≡◌, refl}
use mathlib.Core.Logic.{◌↔◌, ◌≢◌}
use mathlib.Core.Bool.{Bool, true, false, ◌&&◌, ◌||◌}
use mathlib.Core.Option.{Option, none, some}
use mathlib.Core.List.{List, [], ◌∷◌, ◌++◌}
use native.Mathlib.Omega.{arith}
use sandbar.Base.Tests.{◌==◌, if◌then◌else◌}

abbrev pub Str : Type 0
Str = List ℕ

-- The bytes of a literal, which is ASCII.
abbrev pub codes : String → Str
codes String.[] = []
codes (String.◌∷◌ c s) = code c ∷ codes s

unfoldable pub str_eq : Str → Str → Bool
str_eq [] [] = true
str_eq [] (b ∷ t) = false
str_eq (a ∷ s) [] = false
str_eq (a ∷ s) (b ∷ t) = a == b && str_eq s t

pub str_eq_iff : (s t : Str) → (str_eq s t ≡ true) ↔ (s ≡ t)
unfolding str_eq
str_eq_iff [] [] = ground arith
str_eq_iff [] (b ∷ t) = ground arith
str_eq_iff (a ∷ s) [] = ground arith
str_eq_iff (a ∷ s) (b ∷ t) = ground (arith, str_eq_iff s t)

pub str_eq_refl : (s : Str) → str_eq s s ≡ true
str_eq_refl s = (str_eq_iff s s).1 refl

pub str_eq-false : (s t : Str) → s ≢ t → str_eq s t ≡ false
str_eq-false s t h = ground (arith, str_eq_iff s t)

-- Membership in a Go `map[string]struct{}` that is only added to.
unfoldable pub contains : Str → List Str → Bool
contains s [] = false
contains s (t ∷ ts) = str_eq t s || contains s ts

pub contains-append :
    (s : Str) (ts us : List Str) → contains s (ts ++ us) ≡ (contains s ts || contains s us)
unfolding contains
contains-append s [] us = refl
contains-append s (t ∷ ts) us = ground (arith, contains-append s ts us)

-- `strings.HasPrefix`
abbrev pub has_prefix : Str → Str → Bool
has_prefix s [] = true
has_prefix [] (b ∷ p) = false
has_prefix (a ∷ s) (b ∷ p) = a == b && has_prefix s p

abbrev pub newline : ℕ
newline = 10

-- `strings.IndexByte` for a newline, with the two slices around it.
unfoldable pub cut_line : Str → Option (Str × Str)
cut_line [] = none
cut_line (c ∷ s) =
    if c == newline
    then some ([], s)
    else elim (cut_line s) [ none ↦ none | some (l, r) ↦ some (c ∷ l, r) ]
