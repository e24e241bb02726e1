-- ===== src/Prelude/Result.antt =====
-- Results: a value or an error.
use mathlib.Core.Path.{◌≡◌, refl}
use mathlib.Core.Logic.{◌≢◌}

pub data Result {ℓ κ} (E : Type ℓ) (A : Type κ) : Type (ℓ ⊔ κ) where
  err : E → Result E A
  ok : A → Result E A

-- The rest of a chain, unless there is an error.
infixl 5 ◌>>=◌
abbrev pub ◌>>=◌ {ℓ κ μ} :
    {E : Type ℓ} {A : Type κ} {B : Type μ} → Result E A → (A → Result E B) → Result E B
err e >>= next = err e
ok a >>= next = next a

-- A chain that succeeds: what its first result is, and that the rest succeeds with it.
pub >>=-eq-ok {ℓ κ μ} :
    {E : Type ℓ} {A : Type κ} {B : Type μ} (first : Result E A) (next : A → Result E B) {last : B}
    → first >>= next ≡ ok last
    → (value : A) × (first ≡ ok value) × (next value ≡ ok last)
>>=-eq-ok (err e) next chain = cc
>>=-eq-ok (ok value) next chain = (value, refl, chain)

-- An error that neither part of a bind gives.
pub >>=-avoids {ℓ κ μ} :
    {E : Type ℓ} {A : Type κ} {B : Type μ} (e : E) (m : Result E A) (f : A → Result E B)
    → m ≢ err e
    → ((a : A) → f a ≢ err e)
    → (m >>= f) ≢ err e
>>=-avoids e (ok a) f h k = k a
>>=-avoids e (err x) f h k = λ p. h cc

pub err≢ok {ℓ κ} : {E : Type ℓ} {A : Type κ} (e : E) (a : A) → err e ≢ ok a
err≢ok e a h = cc
