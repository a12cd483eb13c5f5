-- ===== src/Common/Result.antt =====
-- Code that throws: a value, or the error that was thrown. `do` blocks run through `◌>>=◌`.
use mathlib.Core.Path.{◌≡◌, refl}
use mathlib.Core.Logic.{◌⊎◌, inl, inr}

pub data Result (E A : Type 0) : Type 0 where
  err : E → Result E A
  ok : A → Result E A

infixl 5 ◌>>=◌
abbrev pub ◌>>=◌ : {E A B : Type 0} → Result E A → (A → Result E B) → Result E B
err thrown >>= next = err thrown
ok value >>= next = next value

module _ {E A : Type 0} where
  pub ok-injective : {a b : A} → ◌≡◌ {A = Result E A} (ok a) (ok b) → a ≡ b
  ok-injective h = cc

  -- What succeeds in two steps succeeds in the first, and then in the second.
  pub bind-ok :
      {B : Type 0} (first : Result E A) (next : A → Result E B) {b : B}
      → (first >>= next) ≡ ok b
      → (value : A) × (first ≡ ok value) × (next value ≡ ok b)
  bind-ok (err thrown) next h = cc
  bind-ok (ok value) next h = (value, refl, h)

  pub Result-cases :
      (r : Result E A) → ((thrown : E) × (r ≡ err thrown)) ⊎ ((value : A) × (r ≡ ok value))
  Result-cases (err thrown) = inl (thrown, refl)
  Result-cases (ok value) = inr (value, refl)
