-- ===== src/Where/Operators.antt =====
-- The operators of a where clause: the methods of `WhereSqlBuilder` in
-- packages/core/src/abstract-dialect/where-sql-builder.ts that write one condition.
-- `queryGenerator.escape` is a parameter; the state `S` holds the options and what `escape` writes to.
use sequelize.Base.{Bool, true, false, Option, none, some, [], ◌++◌, if◌then◌else◌, Text, codes}
use sequelize.Where.Logic.{contains}
use sequelize.Where.Tree.{
  needs_list, needs_null_or_boolean, needs_two_values, unsupported_operator, M, ◌>>=◌, pure, fail,
}
use sequelize.Where.Operand.{
  DataType, array_of, range_of, raw_sql, Operand, null_value, boolean, string, where_expression,
  concat, list, any_of, all_of, values_of, Operands, nil, cons, is_literal, is_expression, is_list,
  first_type,
}

-- The operators that may stand behind an attribute; `other_operator` is not in the map.
pub data Operator : Type 0 where
  eq ne gte gt lte lt is is_not in_list not_in : Operator
  like not_like i_like not_i_like regexp not_regexp i_regexp not_i_regexp : Operator
  between not_between overlap contain contained adjacent strict_left strict_right : Operator
  no_extend_right no_extend_left any all match any_key_exists all_keys_exist : Operator
  starts_with not_starts_with ends_with not_ends_with substring not_substring : Operator
  col other_operator : Operator

-- `#operatorMap` before a dialect changes it.
unfoldable pub operator_map : Operator → Option Text
operator_map eq = some (codes "=")
operator_map ne = some (codes "!=")
operator_map gte = some (codes ">=")
operator_map gt = some (codes ">")
operator_map lte = some (codes "<=")
operator_map lt = some (codes "<")
operator_map is = some (codes "IS")
operator_map is_not = some (codes "IS NOT")
operator_map in_list = some (codes "IN")
operator_map not_in = some (codes "NOT IN")
operator_map like = some (codes "LIKE")
operator_map not_like = some (codes "NOT LIKE")
operator_map i_like = some (codes "ILIKE")
operator_map not_i_like = some (codes "NOT ILIKE")
operator_map regexp = some (codes "~")
operator_map not_regexp = some (codes "!~")
operator_map i_regexp = some (codes "~*")
operator_map not_i_regexp = some (codes "!~*")
operator_map between = some (codes "BETWEEN")
operator_map not_between = some (codes "NOT BETWEEN")
operator_map overlap = some (codes "&&")
operator_map contain = some (codes "@>")
operator_map contained = some (codes "<@")
operator_map adjacent = some (codes "-|-")
operator_map strict_left = some (codes "<<")
operator_map strict_right = some (codes ">>")
operator_map no_extend_right = some (codes "&<")
operator_map no_extend_left = some (codes "&>")
operator_map any = some (codes "ANY")
operator_map all = some (codes "ALL")
operator_map match = some (codes "@@")
operator_map any_key_exists = some (codes "?|")
operator_map all_keys_exist = some (codes "?&")
operator_map _ = none

-- The query generator, the options and the fields of the builder. `escape` and `escape_list` are
-- given the options, `escape_value` the type only. `keyword` is the operator map of the dialect.
pub record Builder (S : Type 0) : Type 0 where
  pub escape : Operand → Option DataType → M S Text
  pub escape_list : Operands → Option DataType → M S Text
  pub escape_value : Operand → Option DataType → M S Text
  pub remove_bind_param : S → S
  pub keyword : Operator → Option Text
  pub json_type : Option DataType
  pub array_of_text_type : Option DataType
  pub cast_type : Text → Option DataType
  pub attribute_type : Text → Option DataType

-- `wrapAmbiguousWhere`.
unfoldable pub wrap_ambiguous_where : Operand → Text → Text
unfolding contains
wrap_ambiguous_where (where_expression n) sql =
    if contains sql (codes " ") then codes "(" ++ (sql ++ codes ")") else sql
wrap_ambiguous_where _ sql = sql

-- One condition of two operands.
abbrev pub binary_sql : Text → Text → Text → Text
binary_sql left keyword right = left ++ (codes " " ++ (keyword ++ (codes " " ++ right)))

abbrev pub array_type : Option DataType → Option DataType
array_type none = none
array_type (some type) = some (array_of type)

-- `leftDataType instanceof AbstractDataType`, and neither a range nor an array.
abbrev pub range_type : Option DataType → Option DataType → Option DataType
range_type none right = right
range_type (some (raw_sql type)) right = right
range_type (some (range_of type)) right = right
range_type (some (array_of type)) right = right
range_type (some type) right = some (range_of type)

abbrev pub contain_type : Option DataType → Option DataType → Bool → Option DataType
contain_type (some (range_of subtype)) none false = some subtype
contain_type left right is_array = right

module _ {S : Type 0} (b : Builder S) where
  unfoldable pub format_each : Operands → Option DataType → M S Text
  format_each nil type = pure []
  format_each (cons v nil) type = do
    sql ← b.escape_value v type
    pure (codes "(" ++ (sql ++ codes ")"))
  format_each (cons v (cons w rest)) type = do
    sql ← b.escape_value v type
    more ← format_each (cons w rest) type
    pure (codes "(" ++ (sql ++ (codes "), " ++ more)))

  abbrev listed : Operand → Operands
  listed (list operands) = operands
  listed operand = cons operand nil

  -- `#formatOpValues`.
  unfoldable pub format_op_values : Operand → Option DataType → M S Text
  unfolding format_each
  format_op_values (values_of v) type = do
    sql ← format_each (listed v) type
    pure (codes "VALUES " ++ sql)
  format_op_values v type = b.escape_value v (array_type type)

  -- `#formatOpAnyAll(right, …) || escape(right, …)`.
  unfoldable pub format_right : Operand → Option DataType → M S Text
  unfolding format_op_values
  format_right (any_of v) type = do
    sql ← format_op_values v type
    pure (codes "ANY (" ++ (sql ++ codes ")"))
  format_right (all_of v) type = do
    sql ← format_op_values v type
    pure (codes "ALL (" ++ (sql ++ codes ")"))
  format_right right type = b.escape right type

  abbrev pub write_binary :
      Option Text → Operand → Option DataType → Operand → Option DataType → M S Text
  write_binary none left left_type right right_type = fail unsupported_operator
  write_binary (some keyword) left left_type right right_type = do
    left_sql ← b.escape left (first_type left_type right_type)
    right_sql ← format_right right (first_type right_type left_type)
    pure (
        binary_sql (wrap_ambiguous_where left left_sql) keyword
          (wrap_ambiguous_where right right_sql))

  unfoldable pub format_binary_operation :
      Operand → Option DataType → Operator → Operand → Option DataType → M S Text
  unfolding format_right wrap_ambiguous_where
  format_binary_operation left left_type operator right right_type =
      write_binary (b.keyword operator) left left_type right right_type

  abbrev pub keyword_text : Option Text → Text
  keyword_text none = codes "undefined"
  keyword_text (some keyword) = keyword

  abbrev pub write_in : Operand → Option DataType → Operator → Text → Option DataType → M S Text
  write_in left left_type operator right_sql right_type = do
    left_sql ← b.escape left (first_type left_type right_type)
    pure (binary_sql left_sql (keyword_text (b.keyword operator)) right_sql)

  -- `[Op.in]`, and `[Op.notIn]` where `negated`.
  unfoldable pub format_in :
      Bool → Operand → Option DataType → Operator → Operand → Option DataType → M S Text
  format_in negated left left_type operator (list nil) right_type =
      if negated then pure [] else write_in left left_type operator (codes "(NULL)") right_type
  format_in negated left left_type operator (list (cons v rest)) right_type = do
    right_sql ← b.escape_list (cons v rest) (first_type right_type left_type)
    write_in left left_type operator right_sql right_type
  format_in negated left left_type operator right right_type =
      if is_literal right
      then (b.escape right (first_type right_type left_type) >>= λ right_sql.
          write_in left left_type operator right_sql right_type)
      else fail needs_list

  abbrev pub is_constant : Operand → Bool
  is_constant null_value = true
  is_constant (boolean v) = true
  is_constant right = is_literal right

  -- `[Op.is]` and `[Op.isNot]`: the option `bindParam` is deleted.
  unfoldable pub format_is : Operand → Operator → Operand → M S Text
  unfolding format_binary_operation
  format_is left operator right s =
      if is_constant right
      then format_binary_operation left none operator right none (b.remove_bind_param s)
      else fail needs_null_or_boolean s

  abbrev pub between_sql : Operand → Option DataType → M S Text
  between_sql (list (cons v (cons w nil))) type = do
    low ← b.escape v type
    high ← b.escape w type
    pure (low ++ (codes " AND " ++ high))
  between_sql right type =
      if is_expression right then b.escape right type else fail needs_two_values

  -- `[Op.between]` and `[Op.notBetween]`.
  unfoldable pub format_between :
      Operand → Option DataType → Operator → Operand → Option DataType → M S Text
  format_between left left_type operator right right_type = do
    left_sql ← b.escape left (first_type left_type right_type)
    right_sql ← between_sql right (first_type right_type left_type)
    pure (binary_sql left_sql (keyword_text (b.keyword operator)) right_sql)

  abbrev percent : Bool → Text
  percent true = codes "%"
  percent false = []

  unfoldable pub format_substring :
      Operand
      → Option DataType
      → Operator
      → Operand
      → Option DataType
      → (start stop : Bool) → M S Text
  unfolding format_binary_operation
  format_substring left left_type operator (string text) right_type start stop =
      format_binary_operation left left_type operator
        (string (percent start ++ (text ++ percent stop))) right_type
  format_substring left left_type operator right right_type start stop =
      format_binary_operation left left_type operator (concat start stop right) right_type

  -- `[Op.anyKeyExists]` and `[Op.allKeysExist]`.
  abbrev pub format_keys_exist :
      Option DataType → Operand → Option DataType → Operator → Operand → M S Text
  format_keys_exist none left left_type operator right = fail unsupported_operator
  format_keys_exist (some type) left left_type operator right =
      format_binary_operation left left_type operator right (some type)

  -- The method of the operator, or `formatBinaryOperation`.
  unfoldable pub format_operator :
      Operand → Option DataType → Operator → Operand → Option DataType → M S Text
  unfolding format_in format_is format_between format_substring format_binary_operation
  format_operator left type in_list right right_type =
      format_in false left type in_list right right_type
  format_operator left type not_in right right_type =
      format_in true left type not_in right right_type
  format_operator left type is right right_type = format_is left is right
  format_operator left type is_not right right_type = format_is left is_not right
  format_operator left type between right right_type =
      format_between left type between right right_type
  format_operator left type not_between right right_type =
      format_between left type not_between right right_type
  format_operator left type contain right right_type =
      format_binary_operation left type contain right (contain_type type right_type (is_list right))
  format_operator left type contained right right_type =
      format_binary_operation left type contained right
        (if is_list right then range_type type right_type else right_type)
  format_operator left type starts_with right right_type =
      format_substring left type like right right_type false true
  format_operator left type not_starts_with right right_type =
      format_substring left type not_like right right_type false true
  format_operator left type ends_with right right_type =
      format_substring left type like right right_type true false
  format_operator left type not_ends_with right right_type =
      format_substring left type not_like right right_type true false
  format_operator left type substring right right_type =
      format_substring left type like right right_type true true
  format_operator left type not_substring right right_type =
      format_substring left type not_like right right_type true true
  format_operator left type any_key_exists right right_type =
      format_keys_exist b.array_of_text_type left type any_key_exists right
  format_operator left type all_keys_exist right right_type =
      format_keys_exist b.array_of_text_type left type all_keys_exist right
  format_operator left type operator right right_type =
      format_binary_operation left type operator right right_type
