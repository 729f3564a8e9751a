-- ===== src/Prelude/Results.antt =====
-- Errors as values, for the code that throws.
use mathlib.Core.Path.{◌≡◌, refl}
use mathlib.Core.Logic.{◌⊎◌, inl, inr}

-- What a call throws, or what it returns.
pub data Result (E A : Type 0) : Type 0 where
  err : E → Result E A
  ok : A → Result E A

pub Result-cases :
    {E A : Type 0} (r : Result E A) → ((a : A) × (r ≡ ok a)) ⊎ ((e : E) × (r ≡ err e))
Result-cases (err thrown) = inr (thrown, refl)
Result-cases (ok value) = inl (value, refl)

infixl 5 ◌>>=◌
abbrev pub ◌>>=◌ : {E A B : Type 0} → Result E A → (A → Result E B) → Result E B
err thrown >>= rest = err thrown
ok value >>= rest = rest value

-- A step that succeeds went through each of its parts.
pub >>=-eq-ok :
    {E A B : Type 0} (call : Result E A) (rest : A → Result E B) {b : B}
    → (call >>= rest) ≡ ok b
    → (value : A) × (call ≡ ok value) × (rest value ≡ ok b)
>>=-eq-ok (err thrown) rest e = cc
>>=-eq-ok (ok value) rest e = (value, refl, e)
