-- ===== src/Base/Decimal.antt =====
-- Numbers written in decimal, as a template literal writes them, and read back.
use Prim.Native.Nat.{ℕ, zero, suc, ◌+◌, ◌-◌, ◌*◌, ◌/◌, ◌%◌, ◌≤◌}
use mathlib.Core.Path.{◌≡◌, refl, ap, sym, ◌∙◌}
use mathlib.Core.Logic.{inl, inr}
use native.Mathlib.Omega.{arith}
use mathlib.Core.Bool.{true, false}
use mathlib.Core.List.{[], ◌∷◌}
use sequelize.Base.Tests.{ltb, Bool-cases}
use sequelize.Base.Texts.{Text}

-- The fuel is the number itself: each digit divides it by ten.
digits : ℕ → ℕ → Text → Text
digits zero n acc = (b'0' + n % 10) ∷ acc
digits (suc fuel) n acc = elim (ltb n 10) [
  | true ↦ (b'0' + n % 10) ∷ acc
  | false ↦ digits fuel (n / 10) ((b'0' + n % 10) ∷ acc)
]

-- `${n}`.
unfoldable pub decimal : ℕ → Text
unfolding digits
decimal n = digits n n []

-- Reading digits on from a number.
read_digits : ℕ → Text → ℕ
read_digits n [] = n
read_digits n (c ∷ cs) = read_digits (n * 10 + (c - b'0')) cs

read_digits-digits :
    (fuel n : ℕ) (acc : Text) → n ≤ fuel → read_digits 0 (digits fuel n acc) ≡ read_digits n acc
unfolding digits read_digits
read_digits-digits zero n acc h = ap (λ k. read_digits k acc) (omega arith)
read_digits-digits (suc fuel) n acc h = elim (Bool-cases (ltb n 10)) [
  | inl y ↦ rw (y, digits) (ap (λ k. read_digits k acc) (ground arith))
  | inr y ↦
      rw (y, digits)
        (read_digits-digits fuel (n / 10) ((b'0' + n % 10) ∷ acc) (ground arith)
          ∙ ap (λ k. read_digits k acc) (omega arith))
]

-- Two numbers with the same decimal form are equal.
pub decimal_inj : (m n : ℕ) → decimal m ≡ decimal n → m ≡ n
unfolding decimal read_digits
decimal_inj m n h =
    sym (read_digits-digits m m [] (omega arith))
    ∙ ap (read_digits 0) h
    ∙ read_digits-digits n n [] (omega arith)

digits_head :
    (fuel n c : ℕ) (acc : Text)
    → c ≤ b'9'
    → (d : ℕ) × (rest : Text) × (digits fuel n (c ∷ acc) ≡ d ∷ rest) × (d ≤ b'9')
unfolding digits
digits_head zero n c acc h = (b'0' + n % 10, c ∷ acc, refl, omega arith)
digits_head (suc fuel) n c acc h = elim (Bool-cases (ltb n 10)) [
  | inl y ↦ rw (y, digits) (b'0' + n % 10, c ∷ acc, refl, omega arith)
  | inr y ↦ rw (y, digits) (digits_head fuel (n / 10) (b'0' + n % 10) (c ∷ acc) (omega arith))
]

-- The decimal form of a number begins with a digit.
pub decimal_head : (n : ℕ) → (d : ℕ) × (rest : Text) × (decimal n ≡ d ∷ rest) × (d ≤ b'9')
unfolding decimal digits
decimal_head zero = (b'0', [], refl, omega arith)
decimal_head (suc n) = elim (Bool-cases (ltb (suc n) 10)) [
  | inl y ↦ rw (y, digits) (b'0' + suc n % 10, [], refl, omega arith)
  | inr y ↦ rw (y, digits) (digits_head n (suc n / 10) (b'0' + suc n % 10) [] (omega arith))
]
