-- ===== src/Agent/TextTools/Scan.antt =====
-- Cutting a text at a mark, and repeating a step until it stops.
use sandbar.Base.{
  ℕ, zero, suc, Str, has_prefix, if◌then◌else◌, length, drop, Option, none, some, List, [], ◌∷◌,
}

-- `strings.Index` for a mark that is not empty: what stands before its first occurrence, and after it.
unfoldable pub cut_at : Str → Str → Option (Str × Str)
cut_at mark [] = none
cut_at mark (c ∷ s) =
    let rest = cut_at mark s in
    if has_prefix (c ∷ s) mark
    then some ([], drop (length mark) (c ∷ s))
    else elim rest [ none ↦ none | some (before, after) ↦ some (c ∷ before, after) ]

-- What a step of a loop does with the text that is left: it ends the loop, passes over some text, or
-- finds something; the text that is left then.
pub data Next (A : Type 0) : Type 0 where
  stop : Next A
  skip : Str → Next A
  found : A → Str → Next A

-- The loop on fuel.
unfoldable pub collect_from : {A : Type 0} → (Str → Next A) → ℕ → Str → List A
collect_from step zero s = []
collect_from step (suc fuel) s = elim (step s) [
  | stop ↦ []
  | skip rest ↦ collect_from step fuel rest
  | found a rest ↦ a ∷ collect_from step fuel rest
]

-- Every step takes a byte or more, so the number of bytes and one more is enough.
unfoldable pub collect : {A : Type 0} → (Str → Next A) → Str → List A
collect step s = collect_from step (suc (length s)) s

-- `strings.Split(s, mark)[1:]`
unfoldable pub pieces_from : ℕ → Str → Str → List Str
pieces_from zero mark s = []
pieces_from (suc fuel) mark s = elim (cut_at mark s) [
  | none ↦ s ∷ []
  | some (before, after) ↦ before ∷ pieces_from fuel mark after
]

unfoldable pub pieces_after : Str → Str → List Str
pieces_after mark s = elim (cut_at mark s) [
  | none ↦ []
  | some (before, after) ↦ pieces_from (suc (length after)) mark after
]
