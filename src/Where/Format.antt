-- ===== src/Where/Format.antt =====
-- `formatPojoWhere`, `#getOperandType` and `formatWhereOptions` as a whole, of
-- packages/core/src/abstract-dialect/where-sql-builder.ts.
use sequelize.Base.{
  Bool, true, false, not, ◌&&◌, ◌||◌, Option, none, some, [], if◌then◌else◌, Text, Result, ok,
  throw,
}
use sequelize.Where.Logic.{op_and}
use sequelize.Where.Tree.{
  WhereError, json_null_is_ambiguous, M, fail, Where, Part, sql_expression, pojo_where,
  format_where,
}
use sequelize.Where.Operand.{
  DataType, Operand, null_value, sql_null, attribute, column, json_path, cast, any_of, all_of,
  is_list, is_array_type, is_json_type,
}
use sequelize.Where.Operators.{
  Operator, eq, ne, is, is_not, in_list, any, all, col, Builder, format_operator,
}
use sequelize.Where.Nested.{Left, WhereValue, nested}

abbrev pub is_json_path : Operand → Bool
is_json_path (json_path operand path) = true
is_json_path _ = false

abbrev pub is_null : Operand → Bool
is_null null_value = true
is_null _ = false

abbrev pub is_some_null : Operand → Bool
is_some_null null_value = true
is_some_null sql_null = true
is_some_null _ = false

abbrev pub is_missing : Option DataType → Bool
is_missing none = true
is_missing (some type) = false

-- The operator and the right operand after `Op.col`, `Op.any` and `Op.all` are rewritten.
abbrev pub rewritten : Option Operator → Operand → Option Operator × Operand
rewritten (some col) right = (some eq, column right)
rewritten (some any) right = (some eq, any_of right)
rewritten (some all) right = (some eq, all_of right)
rewritten operator right = (operator, right)

-- The operator where none is given.
abbrev pub default_operator : Operand → Option DataType → Operator
default_operator right left_type =
    if is_list right && not (is_array_type left_type)
    then in_list
    else if is_some_null right
    then is
    else eq

abbrev pub given_or_default : Option Operator → Operand → Option DataType → Operator
given_or_default none right left_type = default_operator right left_type
given_or_default (some operator) right left_type = operator

-- `=` and `!=` with null, for backwards compatibility.
abbrev pub null_operator : Operator → Operator
null_operator eq = is
null_operator ne = is_not
null_operator operator = operator

abbrev pub is_absent : Option Operator → Bool
is_absent none = true
is_absent (some operator) = false

module _ {S : Type 0} (b : Builder S) where
  -- `#getOperandType`; the builder knows the types of the attributes of the model, if there is one. At
  -- an association path the source asks for the type of a string, which is undefined.
  unfoldable pub operand_type : Operand → Option DataType
  operand_type (cast operand type) = b.cast_type type
  operand_type (json_path operand path) = b.json_type
  operand_type (attribute name) = b.attribute_type name
  operand_type _ = none

  -- `leftDataType`, which the parts of one attribute share, at a part with this left operand.
  unfoldable pub current_type : Left → Option DataType → Option DataType
  unfolding operand_type
  current_type left stored =
      if is_missing stored && is_json_path left.operand
      then b.json_type
      else if left.is_original
      then stored
      else operand_type left.operand

  abbrev pub with_operator : Operand → Option DataType → Operator → Operand → M S Text
  with_operator left left_type operator right =
      format_operator b left left_type
        (if is_null right && not (is_json_type left_type) then null_operator operator else operator)
        right (operand_type right)

  unfoldable pub format_condition : Operand → Option DataType → Option Operator → Operand → M S Text
  unfolding operand_type
  format_condition left left_type operator right =
      let (operator', right') = rewritten operator right in
      if is_absent operator' && (is_null right' && is_json_type left_type)
      then fail json_null_is_ambiguous
      else with_operator left left_type (given_or_default operator' right' left_type) right'

  abbrev pub with_type :
      Option DataType
      → Result WhereError (Text × S)
      → Result WhereError (Text × (S × Option DataType))
  with_type type (ok (text, s)) = ok (text, (s, type))
  with_type type (throw problem) = throw problem

  -- The callback of `formatPojoWhere`.
  unfoldable pub format_part : Left → Option Operator → Operand → M (S × Option DataType) Text
  unfolding current_type format_condition
  format_part left operator right (s, stored) =
      let left_type = current_type left stored in
      with_type left_type (format_condition left.operand left_type operator right s)

  abbrev pub without_type :
      Result WhereError (Text × (S × Option DataType)) → Result WhereError (Text × S)
  without_type (ok (text, (s, type))) = ok (text, s)
  without_type (throw problem) = throw problem

  unfoldable pub format_pojo_where : Operand → WhereValue Operator → M S Text
  unfolding operand_type format_part
  format_pojo_where left inner s =
      let left_type = operand_type left in
      without_type (
        nested format_part (record { operand = left; is_original = true }) inner
          (is_missing left_type || is_json_type left_type) op_and [] (s, left_type))

  -- `parseAttributeSyntax`, a parser made by the package bnf-parser, and
  -- `queryGenerator.formatSqlExpression`.
  module _ (parse_attribute_syntax : Text → Result WhereError Operand)
      (format_sql_expression : Operand → M S Text) where
    abbrev pub format_parsed : Result WhereError Operand → WhereValue Operator → M S Text
    format_parsed (ok left) inner = format_pojo_where left inner
    format_parsed (throw problem) inner = fail problem

    unfoldable pub format_where_part : Part Operand (WhereValue Operator) → M S Text
    unfolding format_pojo_where
    format_where_part (sql_expression e) = format_sql_expression e
    format_where_part (pojo_where name inner) = format_parsed (parse_attribute_syntax name) inner

    unfoldable pub format_where_options : Where Operand (WhereValue Operator) → M S Text
    unfolding format_where_part format_where
    format_where_options w = format_where format_where_part w
