-- ===== src/Memory/Holds.antt =====
-- A predicate on the value of an operation that may fail.
use sandbar.Base.{Bool, true, false, ◌≡◌, refl, if◌then◌else◌}
use sandbar.Memory.Todo.{Result, done, error, ◌>>=◌}

module _ {A : Type 0} where
  abbrev pub Holds : (A → Type 0) → Result A → Type 0
  Holds P (done a) = P a
  Holds P (error e) = Unit

module _ {A B : Type 0} where
  pub Holds-bind :
      (P : A → Type 0) (Q : B → Type 0) (r : Result A) (f : A → Result B)
      → Holds P r
      → ((a : A) → P a → Holds Q (f a))
      → Holds Q (r >>= f)
  Holds-bind P Q (done a) f p q = q a p
  Holds-bind P Q (error e) f p q = tt

pub Holds-any : {A : Type 0} (r : Result A) → Holds (λ (a : A). Unit {0}) r
Holds-any (done a) = tt
Holds-any (error e) = tt

module _ {A : Type 0} where
  pub Holds-if :
      (P : A → Type 0) (b : Bool) (x y : Result A)
      → (b ≡ true → Holds P x)
      → (b ≡ false → Holds P y)
      → Holds P (if b then x else y)
  Holds-if P true x y h k = h refl
  Holds-if P false x y h k = k refl
