-- ===== src/Runtime/Run.antt =====
-- How a call of the runtime ends: in a value, in an exception, or not at all.
use inkfuse.Base.{◌≡◌, refl}

pub data Run {ℓ} (A : Type ℓ) : Type ℓ where
  ok : A → Run A
  throws : Run A
  diverges : Run A

infixl 5 ◌>>=◌
abbrev pub ◌>>=◌ {ℓ κ} : {A : Type ℓ} {B : Type κ} → Run A → (A → Run B) → Run B
ok a >>= f = f a
throws >>= f = throws
diverges >>= f = diverges

-- Inversion of a call that returns.
pub >>=-eq-ok {ℓ κ} :
    {A : Type ℓ} {B : Type κ} (r : Run A) (f : A → Run B) {b : B}
    → (r >>= f) ≡ ok b
    → (a : A) × (r ≡ ok a) × (f a ≡ ok b)
>>=-eq-ok (ok a) f h = (a, refl, h)
>>=-eq-ok throws f h = cc
>>=-eq-ok diverges f h = cc
