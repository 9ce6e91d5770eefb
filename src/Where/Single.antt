-- ===== src/Where/Single.antt =====
-- The single conditions of packages/core/src/abstract-dialect/where-sql-builder.ts, and which of them
-- write no text.
use sequelize.Base.{
  ◌≡◌, refl, sym, Bool, true, false, not, ◌&&◌, Option, none, some, if◌then◌else◌, Text, [], ok,
}
use sequelize.Where.Tree.{fail, json_null_is_ambiguous}
use sequelize.Where.Writes.{pure_value}
use sequelize.Where.Operand.{
  DataType, Operand, list, Operands, is_list, is_array_type, is_json_type,
}
use sequelize.Where.Operators.{
  Operator, not_in, in_list, is, eq, ne, col, any, all, Builder, format_in, format_operator,
}
use sequelize.Where.Format.{
  rewritten, given_or_default, null_operator, is_absent, is_null, is_some_null, operand_type,
  with_operator, format_condition,
}
use sequelize.Where.Conditions.{is_vacuous, Fills, if-Fills, fail-Fills, format_operator-Fills}

-- The condition `Op.notIn` with an empty list.
unfoldable pub says_nothing : Option Operator → Operand → Bool
says_nothing none right = false
says_nothing (some operator) right = is_vacuous operator right

is_vacuous-null_operator :
    (c : Bool) (operator : Operator) (right : Operand)
    → is_vacuous operator right ≡ false
    → is_vacuous (if c then null_operator operator else operator) right ≡ false
is_vacuous-null_operator false operator right h = h
is_vacuous-null_operator true eq right h = refl
is_vacuous-null_operator true ne right h = refl
is_vacuous-null_operator true operator right h = h

is_vacuous-default_operator :
    (right : Operand) (c d : Bool)
    → is_vacuous (if c then in_list else if d then is else eq) right ≡ false
is_vacuous-default_operator right true d = refl
is_vacuous-default_operator right false true = refl
is_vacuous-default_operator right false false = refl

is_vacuous-given_or_default :
    (operator : Option Operator) (right : Operand) (left_type : Option DataType)
    → says_nothing operator right ≡ false
    → is_vacuous (given_or_default operator right left_type) right ≡ false
unfolding says_nothing
is_vacuous-given_or_default none right left_type h =
    is_vacuous-default_operator right (is_list right && not (is_array_type left_type))
      (is_some_null right)
is_vacuous-given_or_default (some operator) right left_type h = h

says_nothing-rewritten :
    (operator : Option Operator) (right : Operand)
    → says_nothing operator right ≡ false
    → says_nothing (rewritten operator right).0 (rewritten operator right).1 ≡ false
unfolding says_nothing
says_nothing-rewritten none right h = refl
says_nothing-rewritten (some col) right h = refl
says_nothing-rewritten (some any) right h = refl
says_nothing-rewritten (some all) right h = refl
says_nothing-rewritten (some operator) right h = h

module _ {S : Type 0} (b : Builder S) where
  pub format_condition-Fills :
      (left : Operand) (left_type : Option DataType) (operator : Option Operator) (right : Operand)
      → says_nothing operator right ≡ false
      → Fills (format_condition b left left_type operator right)
  unfolding format_condition
  format_condition-Fills left left_type operator right h =
      let operator' = (rewritten operator right).0 in
      let right' = (rewritten operator right).1 in
      let chosen = given_or_default operator' right' left_type in
      if-Fills (is_absent operator' && (is_null right' && is_json_type left_type))
        (fail json_null_is_ambiguous) (with_operator b left left_type chosen right')
        (fail-Fills json_null_is_ambiguous)
        (format_operator-Fills b left left_type _ right' (operand_type b right') (
          is_vacuous-null_operator (is_null right' && not (is_json_type left_type)) chosen right' (
            is_vacuous-given_or_default operator' right' left_type
              (says_nothing-rewritten operator right h))))

  pub says_nothing-writes_nothing :
      (left : Operand) (left_type : Option DataType) (operator : Option Operator) (right : Operand)
      → says_nothing operator right ≡ true
      → (s s' : S) (text : Text)
      → format_condition b left left_type operator right s ≡ ok (text, s')
      → text ≡ []
  unfolding says_nothing format_condition format_operator format_in
  says_nothing-writes_nothing left left_type none right h s s' text e = cc
  says_nothing-writes_nothing left left_type (some not_in) (list Operands.nil) h s s' text e =
      sym (pure_value [] text s s' e)
  says_nothing-writes_nothing left left_type (some not_in) right h s s' text e = cc
  says_nothing-writes_nothing left left_type (some operator) right h s s' text e = cc
