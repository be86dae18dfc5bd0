-- ===== src/Base/Outcomes.antt =====
-- The result of an operation that may fail with an error of its component.
use mathlib.Core.Path.{◌≡◌, refl}
use mathlib.Core.Bool.{Bool, true, false}
use sandbar.Base.Tests.{if◌then◌else◌}

pub data Outcome {ℓ} (E A : Type ℓ) : Type ℓ where
  ok : A → Outcome E A
  err : E → Outcome E A

infixl 5 ◌>>=◌ ◌>>◌
abbrev pub ◌>>=◌ {ℓ} : {E A B : Type ℓ} → Outcome E A → (A → Outcome E B) → Outcome E B
ok a >>= f = f a
err e >>= f = err e

abbrev pub ◌>>◌ : {E B : Type 0} → Outcome E (Unit {0}) → Outcome E B → Outcome E B
m >> k = m >>= λ _. k

abbrev pub guard : {E : Type 0} → Bool → E → Outcome E (Unit {0})
guard true e = ok tt
guard false e = err e

-- A predicate on the value, and one on the error.
abbrev pub Returns : {E A : Type 0} → (A → Type 0) → (E → Type 0) → Outcome E A → Type 0
Returns P Q (ok a) = P a
Returns P Q (err e) = Q e

pub Returns-bind :
    {E A B : Type 0} (P : A → Type 0) (R : B → Type 0) (Q : E → Type 0) (m : Outcome E A)
    (f : A → Outcome E B)
    → Returns P Q m
    → ((a : A) → P a → Returns R Q (f a))
    → Returns R Q (m >>= f)
Returns-bind P R Q (ok a) f p k = k a p
Returns-bind P R Q (err e) f p k = p

pub Returns-if :
    {E A : Type 0} (P : A → Type 0) (Q : E → Type 0) (b : Bool) (x y : Outcome E A)
    → (b ≡ true → Returns P Q x)
    → (b ≡ false → Returns P Q y)
    → Returns P Q (if b then x else y)
Returns-if P Q true x y h k = h refl
Returns-if P Q false x y h k = k refl

-- A guard that is passed has held, and one that is not has not.
pub guard-Returns :
    {E : Type 0} (Q : E → Type 0) (b : Bool) (e : E)
    → (b ≡ false → Q e)
    → Returns (λ (u : Unit {0}). b ≡ true) Q (guard b e)
guard-Returns Q true e h = refl
guard-Returns Q false e h = h refl

pub Returns-weaken :
    {E A : Type 0} (P R : A → Type 0) (Q : E → Type 0)
    → ((a : A) → P a → R a)
    → (m : Outcome E A) → Returns P Q m
    → Returns R Q m
Returns-weaken P R Q f (ok a) h = f a h
Returns-weaken P R Q f (err e) h = h
