-- ===== src/Base/Results.antt =====
-- Code that returns or throws.
use mathlib.Core.Path.{◌≡◌, refl}

pub data Result {ℓ κ} (E : Type ℓ) (A : Type κ) : Type (ℓ ⊔ κ) where
  ok : A → Result E A
  throw : E → Result E A

infixl 5 ◌>>=◌
abbrev pub ◌>>=◌ {ℓ κ μ} :
    {E : Type ℓ} {A : Type κ} {B : Type μ} → Result E A → (A → Result E B) → Result E B
throw problem >>= next = throw problem
ok value >>= next = next value

-- What a chain that returned has gone through.
pub >>=-ok {ℓ κ μ} :
    {E : Type ℓ} {A : Type κ} {B : Type μ} {end : B} (chain : Result E A) (next : A → Result E B)
    → (chain >>= next) ≡ ok end
    → (value : A) × (chain ≡ ok value) × (next value ≡ ok end)
>>=-ok (throw problem) next returned = cc
>>=-ok (ok value) next returned = (value, refl, returned)

pub ok_inj {ℓ κ} : {E : Type ℓ} {A : Type κ} {a b : A} → ◌≡◌ {A = Result E A} (ok a) (ok b) → a ≡ b
ok_inj h = cc

-- What never throws returns.
pub ok_of_never {ℓ κ} :
    {E : Type ℓ} {A : Type κ} (m : Result E A) → ((e : E) → m ≡ throw e → ⊥) → (a : A) × (m ≡ ok a)
ok_of_never (ok a) h = (a, refl)
ok_of_never (throw e) h = absurd (h e refl)
