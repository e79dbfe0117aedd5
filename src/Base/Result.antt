-- ===== src/Base/Result.antt =====
-- A call that returns or throws.
use mathlib.Core.Path.{◌≡◌, refl}
use mathlib.Core.Logic.{◌⊎◌, inl, inr}

pub data Result {ℓ κ} (E : Type ℓ) (A : Type κ) : Type (ℓ ⊔ κ) where
  err : (thrown : E) → Result E A
  ok : (returned : A) → Result E A

module _ {ℓ κ ν} {E : Type ℓ} {A : Type κ} {B : Type ν} where
  infixl 5 ◌>>=◌
  abbrev pub ◌>>=◌ : Result E A → (A → Result E B) → Result E B
  err thrown >>= rest = err thrown
  ok returned >>= rest = rest returned

  -- What a chain that returned has computed.
  pub >>=-eq-ok :
      (call : Result E A) (rest : A → Result E B) {b : B}
      → (call >>= rest) ≡ ok b
      → (a : A) × (call ≡ ok a) × (rest a ≡ ok b)
  >>=-eq-ok (err thrown) rest h = cc
  >>=-eq-ok (ok returned) rest h = (returned, refl, h)

  -- Where a chain that threw has thrown.
  pub >>=-eq-err :
      (call : Result E A) (rest : A → Result E B) {e : E}
      → (call >>= rest) ≡ err e
      → (call ≡ err e) ⊎ ((a : A) × (call ≡ ok a) × (rest a ≡ err e))
  >>=-eq-err (err thrown) rest h = inl cc
  >>=-eq-err (ok returned) rest h = inr (returned, refl, h)

-- a call whose only result is that it returns, before another
infixl 5 ◌>>◌
abbrev pub ◌>>◌ {ℓ κ} : {E : Type ℓ} {A : Type κ} → Result E (Unit {0}) → Result E A → Result E A
err thrown >> rest = err thrown
ok _ >> rest = rest

pub >>-eq-ok {ℓ κ} :
    {E : Type ℓ} {A : Type κ} (call : Result E (Unit {0})) (rest : Result E A) {a : A}
    → (call >> rest) ≡ ok a
    → (call ≡ ok tt) × (rest ≡ ok a)
>>-eq-ok (err thrown) rest h = cc
>>-eq-ok (ok tt) rest h = (refl, h)

pub Result-cases {ℓ κ} :
    {E : Type ℓ} {A : Type κ} (r : Result E A) → ((e : E) × (r ≡ err e)) ⊎ ((a : A) × (r ≡ ok a))
Result-cases (err thrown) = inl (thrown, refl)
Result-cases (ok returned) = inr (returned, refl)
