-- ===== src/Common/Outcome.antt =====
-- Go's pair `(value, error)`: a value, or the error that is returned in its place.
use mathlib.Core.Path.{◌≡◌, refl}
use mathlib.Core.Option.{some}
use mathlib.Core.Logic.{◌⊎◌, inl, inr}

pub data Result (E : Type 0) (A : Type 0) : Type 0 where
  ok : A → Result E A
  fail : E → Result E A

infixl 5 ◌>>=◌
abbrev pub ◌>>=◌ : {E A B : Type 0} → Result E A → (A → Result E B) → Result E B
ok a >>= f = f a
fail e >>= f = fail e

module _ {E Mid End : Type 0} where
  -- The value at which the first step of a successful chain hands over to the rest
  pub bind_parts :
      (first : Result E Mid) (rest : Mid → Result E End) {last : End}
      → (first >>= rest) ≡ ok last
      → (mid : Mid) × (first ≡ ok mid) × (rest mid ≡ ok last)
  bind_parts (fail why) rest chain = cc
  bind_parts (ok mid) rest chain = (mid, refl, chain)

pub ok-injective : {E A : Type 0} {x y : A} → ◌≡◌ {A = Result E A} (ok x) (ok y) → x ≡ y
ok-injective h = cc

pub some-injective {ℓ} : {A : Type ℓ} {x y : A} → some x ≡ some y → x ≡ y
some-injective h = cc

pub Result-cases :
    {E A : Type 0} (r : Result E A) → ((a : A) × (r ≡ ok a)) ⊎ ((e : E) × (r ≡ fail e))
Result-cases (ok a) = inl (a, refl)
Result-cases (fail e) = inr (e, refl)
