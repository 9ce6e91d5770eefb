-- ===== src/Where/Tree.antt =====
-- The recursion over `Op.and`, `Op.or` and `Op.not` before an attribute name:
-- `#handleRecursiveNotOrAndWithImplicitAndArray` and `formatWhereOptions` of
-- packages/core/src/abstract-dialect/where-sql-builder.ts.
-- Formatting a part may write to the options and to the bind object, which is the state `S`.
use sequelize.Base.{ℕ, List, [], ◌∷◌, Text, Result, ok, throw}
use sequelize.Where.Logic.{Connective, op_and, join_with_logical_operator, wrap_with_not}

pub data WhereError : Type 0 where
  raw_query invalid_query operator_before_attribute invalid_where : WhereError
  needs_list needs_null_or_boolean needs_two_values json_null_is_ambiguous : WhereError
  unsupported_operator : WhereError
  bad_syntax : Text → WhereError
  failed_to_escape : ℕ → WhereError

abbrev pub M : Type 0 → Type 0 → Type 0
M S A = S → Result WhereError (A × S)

abbrev pub then_do :
    {S A B : Type 0} → Result WhereError (A × S) → (A → M S B) → Result WhereError (B × S)
then_do (throw problem) next = throw problem
then_do (ok (value, s)) next = next value s

infixl 5 ◌>>=◌
abbrev pub ◌>>=◌ : {S A B : Type 0} → M S A → (A → M S B) → M S B
◌>>=◌ action next s = then_do (action s) next

abbrev pub pure : {S A : Type 0} → A → M S A
pure value s = ok (value, s)

abbrev pub fail : {S A : Type 0} → WhereError → M S A
fail problem s = throw problem

-- `WhereOptions`, with expressions `E` and with attribute values `V`. `keys` are those of
-- `getComplexKeys` in their order; `symbol` is an operator that is none of the three.
mutual
  pub data Where (E V : Type 0) : Type 0 where
    undefined_value raw_text other_value : Where E V
    expression : E → Where E V
    array : Wheres E V → Where E V
    object : Keys E V → Where E V

  pub data Wheres (E V : Type 0) : Type 0 where
    nil : Wheres E V
    cons : Where E V → Wheres E V → Wheres E V

  pub data Keys (E V : Type 0) : Type 0 where
    end : Keys E V
    negation : Where E V → Keys E V → Keys E V
    group : Connective → Where E V → Keys E V → Keys E V
    symbol : Keys E V → Keys E V
    attribute : Text → V → Keys E V → Keys E V

-- `PojoWhere | BaseSqlExpression`.
pub data Part (E V : Type 0) : Type 0 where
  sql_expression : E → Part E V
  pojo_where : Text → V → Part E V

-- An entry of an array: `undefined` writes nothing there.
abbrev pub entry : {E V S : Type 0} → Where E V → M S Text → M S Text
entry undefined_value handled = pure []
entry raw_text handled = handled
entry other_value handled = handled
entry (expression e) handled = handled
entry (array parts) handled = handled
entry (object keys) handled = handled

module _ {E V S : Type 0} (handle_part : Part E V → M S Text) where
  unfoldable mutual
    pub handle : Where E V → Connective → M S Text
    handle undefined_value operator = fail invalid_query
    handle raw_text operator = fail invalid_query
    handle other_value operator = fail invalid_query
    handle (expression e) operator = handle_part (sql_expression e)
    handle (array parts) operator = do
      texts ← handle_parts parts
      pure (join_with_logical_operator texts operator)
    handle (object keys) operator = do
      texts ← handle_keys keys
      pure (join_with_logical_operator texts operator)

    pub handle_parts : Wheres E V → M S (List Text)
    handle_parts nil = pure []
    handle_parts (cons part parts) = do
      text ← entry part (handle part op_and)
      texts ← handle_parts parts
      pure (text ∷ texts)

    pub handle_keys : Keys E V → M S (List Text)
    handle_keys end = pure []
    handle_keys (negation inner keys) = do
      text ← handle inner op_and
      texts ← handle_keys keys
      pure (wrap_with_not text ∷ texts)
    handle_keys (group operator inner keys) = do
      text ← handle inner operator
      texts ← handle_keys keys
      pure (text ∷ texts)
    handle_keys (symbol keys) = fail operator_before_attribute
    handle_keys (attribute name value keys) = do
      text ← handle_part (pojo_where name value)
      texts ← handle_keys keys
      pure (text ∷ texts)

  abbrev pub wrapped : Result WhereError (Text × S) → Result WhereError (Text × S)
  wrapped (ok r) = ok r
  wrapped (throw problem) = throw invalid_where

  -- `formatWhereOptions`: any error is replaced, the first one being its cause.
  unfoldable pub format_where : Where E V → M S Text
  unfolding handle
  format_where raw_text s = throw raw_query
  format_where undefined_value s = ok ([], s)
  format_where other_value s = wrapped (handle other_value op_and s)
  format_where (expression e) s = wrapped (handle (expression e) op_and s)
  format_where (array parts) s = wrapped (handle (array parts) op_and s)
  format_where (object keys) s = wrapped (handle (object keys) op_and s)
