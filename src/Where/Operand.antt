-- ===== src/Where/Operand.antt =====
-- The values that stand on either side of an operator of a where clause, and their data types, as
-- packages/core/src/abstract-dialect/where-sql-builder.ts tells them apart.
use sequelize.Base.{ℕ, Bool, true, false, Option, none, some, List, ◌++◌, Text}

-- `NormalizedDataType`: `raw_sql` is a type given as a string, the others are classes.
pub data DataType : Type 0 where
  json text_type : DataType
  array_of range_of : DataType → DataType
  other_type : ℕ → DataType
  raw_sql : Text → DataType

-- A segment of a JSON path.
pub data Segment : Type 0 where
  key : Text → Segment
  index : ℕ → Segment

-- A value of a where clause. Values that the code does not look into are told apart by a number;
-- `concat` is the literal that `formatSubstring` makes, and `any_of`, `all_of` and `values_of` are
-- plain objects with that one operator.
mutual
  pub data Operand : Type 0 where
    null_value sql_null : Operand
    boolean : Bool → Operand
    string : Text → Operand
    scalar literal where_expression other_expression plain_object : ℕ → Operand
    concat : (start stop : Bool) → Operand → Operand
    list : Operands → Operand
    attribute : Text → Operand
    column : Operand → Operand
    association_path : List Text → Text → Operand
    json_path : Operand → List Segment → Operand
    cast : Operand → Text → Operand
    modified : Text → Operand → Operand
    any_of all_of values_of : Operand → Operand

  pub data Operands : Type 0 where
    nil : Operands
    cons : Operand → Operands → Operands

-- `instanceof Literal`.
abbrev pub is_literal : Operand → Bool
is_literal sql_null = true
is_literal (literal n) = true
is_literal (concat start stop right) = true
is_literal _ = false

-- `instanceof BaseSqlExpression`.
abbrev pub is_expression : Operand → Bool
is_expression sql_null = true
is_expression (literal n) = true
is_expression (concat start stop right) = true
is_expression (where_expression n) = true
is_expression (other_expression n) = true
is_expression (attribute name) = true
is_expression (column name) = true
is_expression (association_path path name) = true
is_expression (json_path operand path) = true
is_expression (cast operand type) = true
is_expression (modified modifier operand) = true
is_expression _ = false

-- `Array.isArray`.
abbrev pub is_list : Operand → Bool
is_list (list operands) = true
is_list _ = false

abbrev pub is_array_type : Option DataType → Bool
is_array_type (some (array_of type)) = true
is_array_type _ = false

abbrev pub is_json_type : Option DataType → Bool
is_json_type (some json) = true
is_json_type _ = false

-- `a ?? b`.
abbrev pub first_type : Option DataType → Option DataType → Option DataType
first_type none b = b
first_type (some a) b = some a

-- `#wrapSimpleJsonPath` at a path that is not empty.
abbrev pub extend_path : Operand → List Segment → Operand
extend_path (json_path operand path) segments = json_path operand (path ++ segments)
extend_path operand segments = json_path operand segments
