-- ===== src/Instance/Value.antt =====
-- The values of attributes, as packages/core/src/model.js tells them apart, and objects of them.
use sequelize.Base.{
  ℕ, Bool, true, false, not, ◌||◌, Option, none, some, List, [], ◌∷◌, ◌++◌, ◌==◌, if◌then◌else◌,
  Text, text_eq, text_eq_iff, ==_iff, ◌≡◌, refl, ◌↔◌, arith,
}
use sequelize.Sql.Binds.{Entries, get}

-- `expression` is an instance of `BaseSqlExpression`. `other` is any other value that is no falsy one,
-- told apart by its identity; NaN is not among the values.
pub data Value : Type 0 where
  undefined null : Value
  boolean : Bool → Value
  number : ℕ → Value
  text : Text → Value
  expression other : ℕ → Value

abbrev pub is_nullish : Value → Bool
is_nullish undefined = true
is_nullish null = true
is_nullish _ = false

abbrev pub is_expression : Value → Bool
is_expression (expression n) = true
is_expression _ = false

abbrev pub is_truthy : Value → Bool
is_truthy undefined = false
is_truthy null = false
is_truthy (boolean b) = b
is_truthy (number n) = not (n == 0)
is_truthy (text []) = false
is_truthy _ = true

-- `===`.
unfoldable pub same : Value → Value → Bool
same undefined undefined = true
same null null = true
same (boolean a) (boolean b) = if a then b else not b
same (number a) (number b) = a == b
same (text a) (text b) = text_eq a b
same (expression a) (expression b) = a == b
same (other a) (other b) = a == b
same _ _ = false

abbrev pub or_undefined : Option Value → Value
or_undefined none = undefined
or_undefined (some v) = v

-- `object[key]`.
abbrev pub at : Entries Value → Text → Value
at entries key = or_undefined (get key entries)

-- Sets of names, in the order of insertion.
unfoldable pub has : Text → List Text → Bool
has key [] = false
has key (k ∷ names) = text_eq k key || has key names

unfoldable pub insert_name : Text → List Text → List Text
unfolding has
insert_name key names = if has key names then names else names ++ (key ∷ [])

unfoldable pub delete_name : Text → List Text → List Text
delete_name key [] = []
delete_name key (k ∷ names) =
    let rest = delete_name key names in if text_eq k key then rest else k ∷ rest

pub same_iff : (a b : Value) → (same a b ≡ true) ↔ (a ≡ b)
unfolding same
same_iff undefined undefined = (λ h. refl, λ h. refl)
same_iff null null = (λ h. refl, λ h. refl)
same_iff (boolean a) (boolean b) = ground arith
same_iff (number a) (number b) = ground (arith, ==_iff a b)
same_iff (text a) (text b) = ground (arith, text_eq_iff a b)
same_iff (expression a) (expression b) = ground (arith, ==_iff a b)
same_iff (other a) (other b) = ground (arith, ==_iff a b)
same_iff _ _ = ground arith

pub same_refl : (a : Value) → same a a ≡ true
same_refl a = (same_iff a a).1 refl
