-- ===== src/Base/Dict.antt =====
-- A Go map with string keys as an association list in insertion order.
use mathlib.Core.Path.{◌≡◌, refl}
use mathlib.Core.Option.{Option, none, some}
use mathlib.Core.List.{List, [], ◌∷◌, ◌++◌}
use native.Mathlib.Omega.{arith}
use sandbar.Base.Tests.{if◌then◌else◌}
use sandbar.Base.Text.{Str, str_eq, str_eq_iff}

abbrev pub Map {ℓ} : Type ℓ → Type ℓ
Map V = List (Str × V)

module _ {ℓ} {V : Type ℓ} where
  unfoldable pub lookup : Str → Map V → Option V
  lookup k [] = none
  lookup k ((j, v) ∷ m) = if str_eq j k then some v else lookup k m

  unfoldable pub insert : Str → V → Map V → Map V
  insert k v [] = (k, v) ∷ []
  insert k v ((j, w) ∷ m) = if str_eq j k then (j, v) ∷ m else (j, w) ∷ insert k v m

  pub lookup-insert :
      (k j : Str) (v : V) (m : Map V)
      → lookup j (insert k v m) ≡ (if str_eq k j then some v else lookup j m)
  unfolding lookup insert
  lookup-insert k j v [] = refl
  lookup-insert k j v ((i, w) ∷ m) =
      ground (arith, str_eq_iff k j, str_eq_iff i k, str_eq_iff i j, lookup-insert k j v m)

  -- No key stands twice.
  abbrev pub Distinct : Map V → Type ℓ
  Distinct [] = Unit
  Distinct ((k, v) ∷ m) = (lookup k m ≡ none) × Distinct m

  pub lookup-append_absent :
      (k : Str) (m n : Map V) → lookup k m ≡ none → lookup k (m ++ n) ≡ lookup k n
  unfolding lookup
  lookup-append_absent k [] n h = refl
  lookup-append_absent k ((j, v) ∷ m) n h = ground (arith, lookup-append_absent k m n)

  pub lookup-middle :
      (k : Str) (v : V) (m n : Map V) → lookup k m ≡ none → lookup k (m ++ (k, v) ∷ n) ≡ some v
  unfolding lookup
  lookup-middle k v [] n h = ground (arith, str_eq_iff k k)
  lookup-middle k v ((j, w) ∷ m) n h = ground (arith, lookup-middle k v m n)

  pub insert-middle :
      (k : Str) (v w : V) (m n : Map V)
      → lookup k m ≡ none
      → insert k v (m ++ (k, w) ∷ n) ≡ m ++ (k, v) ∷ n
  unfolding lookup insert
  insert-middle k v w [] n h = ground (arith, str_eq_iff k k)
  insert-middle k v w ((j, u) ∷ m) n h = ground (arith, insert-middle k v w m n)

  pub insert-absent :
      (k : Str) (v : V) (m : Map V) → lookup k m ≡ none → insert k v m ≡ m ++ (k, v) ∷ []
  unfolding lookup insert
  insert-absent k v [] h = refl
  insert-absent k v ((j, w) ∷ m) h = ground (arith, insert-absent k v m)

  pub Distinct-insert : (k : Str) (v : V) (m : Map V) → Distinct m → Distinct (insert k v m)
  unfolding lookup insert
  Distinct-insert k v [] d = (refl, tt)
  Distinct-insert k v ((j, w) ∷ m) d =
      ground (arith, str_eq_iff j k, str_eq_iff k j, lookup-insert k j v m, Distinct-insert k v m)
