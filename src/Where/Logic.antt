-- ===== src/Where/Logic.antt =====
-- `joinWithLogicalOperator` and `wrapWithNot` of
-- packages/core/src/abstract-dialect/where-sql-builder.ts.
use sequelize.Base.{
  ℕ, ◌-◌, Bool, true, false, ◌&&◌, ◌||◌, List, [], ◌∷◌, ◌++◌, leb, if◌then◌else◌, Text, codes,
  starts_with,
}

-- `Op.and` and `Op.or`.
pub data Connective : Type 0 where
  op_and op_or : Connective

abbrev pub upper_char : ℕ → ℕ
upper_char c = if leb b'a' c && leb c b'z' then c - 32 else c

-- `text.toUpperCase()` as far as a search for ASCII words needs it.
unfoldable pub upper : Text → Text
upper [] = []
upper (c ∷ cs) = upper_char c ∷ upper cs

unfoldable pub contains : Text → Text → Bool
contains [] word = starts_with [] word
contains (c ∷ cs) word = starts_with (c ∷ cs) word || contains cs word

-- `/ AND | OR /i.test(sql)`.
unfoldable pub mentions_logical : Text → Bool
unfolding upper contains
mentions_logical sql = contains (upper sql) (codes " AND ") || contains (upper sql) (codes " OR ")

abbrev pub is_empty : Text → Bool
is_empty [] = true
is_empty (c ∷ cs) = false

-- `filter(val => Boolean(val))`.
unfoldable pub non_empty : List Text → List Text
non_empty [] = []
non_empty (sql ∷ rest) = let rest' = non_empty rest in if is_empty sql then rest' else sql ∷ rest'

unfoldable pub wrap : Text → Text
unfolding mentions_logical
wrap sql = if mentions_logical sql then codes "(" ++ (sql ++ codes ")") else sql

abbrev pub operator_sql : Connective → Text
operator_sql op_and = codes " AND "
operator_sql op_or = codes " OR "

-- `join(operatorSql)` of at least one text, each of them wrapped where it is ambiguous.
unfoldable pub join_wrapped : Text → Text → List Text → Text
unfolding wrap
join_wrapped separator sql [] = wrap sql
join_wrapped separator sql (next ∷ rest) =
    wrap sql ++ (separator ++ join_wrapped separator next rest)

abbrev pub join_non_empty : List Text → Connective → Text
join_non_empty [] operator = []
join_non_empty (sql ∷ []) operator = sql
join_non_empty (sql ∷ next ∷ rest) operator = join_wrapped (operator_sql operator) sql (next ∷ rest)

unfoldable pub join_with_logical_operator : List Text → Connective → Text
unfolding non_empty join_wrapped
join_with_logical_operator sql_array operator = join_non_empty (non_empty sql_array) operator

unfoldable pub wrap_with_not : Text → Text
wrap_with_not sql = if is_empty sql then [] else codes "NOT (" ++ (sql ++ codes ")")
