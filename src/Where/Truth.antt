-- ===== src/Where/Truth.antt =====
-- The truth of a where clause, and of the condition that `formatWhereOptions` of
-- packages/core/src/abstract-dialect/where-sql-builder.ts writes for it.
use sequelize.Base.{
  ◌≡◌, sym, ap, Bool, Option, none, List, [], ◌∷◌, Text, Result, ok, throw, ok_inj,
}
use sequelize.Where.Logic.{Connective, op_and, wrap_with_not}
use sequelize.Where.Grammar.{Denotes, AreUnits}
use sequelize.Where.Meaning.{join_meanings, negate}
use sequelize.Where.Tree.{
  WhereError, invalid_query, operator_before_attribute, M, Where, undefined_value, raw_text,
  other_value, expression, array, object, Wheres, nil, cons, Keys, end, negation, group, symbol,
  attribute, Part, sql_expression, pojo_where, entry, handle, handle_parts, handle_keys, wrapped,
  format_where,
}
use sequelize.Where.Writes.{
  Writes, WritesAll, joined-Writes, fail-Writes, fail-WritesAll, empty-Writes, nil-WritesAll,
  cons-WritesAll, negated-Writes,
}

-- The meaning of a where clause by the meaning of its parts, where a part may be no condition.
module _ {E V : Type 0} (holds : Part E V → Option Bool) where
  unfoldable mutual
    pub meaning : Where E V → Connective → Option Bool
    meaning undefined_value operator = none
    meaning raw_text operator = none
    meaning other_value operator = none
    meaning (expression e) operator = holds (sql_expression e)
    meaning (array parts) operator = join_meanings operator (meanings parts)
    meaning (object keys) operator = join_meanings operator (key_meanings keys)

    pub meanings : Wheres E V → List (Option Bool)
    meanings nil = []
    meanings (cons part parts) = meaning part op_and ∷ meanings parts

    pub key_meanings : Keys E V → List (Option Bool)
    key_meanings end = []
    key_meanings (negation inner keys) = negate (meaning inner op_and) ∷ key_meanings keys
    key_meanings (group operator inner keys) = meaning inner operator ∷ key_meanings keys
    key_meanings (symbol keys) = key_meanings keys
    key_meanings (attribute name value keys) = holds (pojo_where name value) ∷ key_meanings keys

module _ {E V S : Type 0} (Leaf : Text → Bool → Type 0) (IsUnit : Text → Type 0)
    (units : AreUnits Leaf IsUnit) (handle_part : Part E V → M S Text)
    (holds : Part E V → Option Bool)
    (parts_denote : (part : Part E V) (s s' : S) (text : Text)
      → handle_part part s ≡ ok (text, s')
      → Denotes Leaf IsUnit text (holds part)) where
  entry-Writes :
      (w : Where E V) (m : M S Text)
      → Writes Leaf IsUnit m (meaning holds w op_and)
      → Writes Leaf IsUnit (entry w m) (meaning holds w op_and)
  unfolding meaning
  entry-Writes undefined_value m h = empty-Writes Leaf IsUnit
  entry-Writes raw_text m h = h
  entry-Writes other_value m h = h
  entry-Writes (expression x) m h = h
  entry-Writes (array parts) m h = h
  entry-Writes (object keys) m h = h

  mutual
    unfolding handle meaning

    handle-Writes :
        (w : Where E V) (operator : Connective)
        → Writes Leaf IsUnit (handle handle_part w operator) (meaning holds w operator)
    handle-Writes undefined_value operator = fail-Writes Leaf IsUnit invalid_query none
    handle-Writes raw_text operator = fail-Writes Leaf IsUnit invalid_query none
    handle-Writes other_value operator = fail-Writes Leaf IsUnit invalid_query none
    handle-Writes (expression x) operator = parts_denote (sql_expression x)
    handle-Writes (array parts) operator =
        joined-Writes Leaf IsUnit units operator (handle_parts handle_part parts)
          (meanings holds parts) (handle_parts-WritesAll parts)
    handle-Writes (object keys) operator =
        joined-Writes Leaf IsUnit units operator (handle_keys handle_part keys)
          (key_meanings holds keys) (handle_keys-WritesAll keys)

    handle_parts-WritesAll :
        (parts : Wheres E V)
        → WritesAll Leaf IsUnit (handle_parts handle_part parts) (meanings holds parts)
    handle_parts-WritesAll nil = nil-WritesAll Leaf IsUnit
    handle_parts-WritesAll (cons part parts) =
        cons-WritesAll Leaf IsUnit (entry part (handle handle_part part op_and)) (λ text. text)
          (handle_parts handle_part parts) (meaning holds part op_and) (meanings holds parts)
          (entry-Writes part (handle handle_part part op_and) (handle-Writes part op_and))
          (handle_parts-WritesAll parts)

    handle_keys-WritesAll :
        (keys : Keys E V)
        → WritesAll Leaf IsUnit (handle_keys handle_part keys) (key_meanings holds keys)
    handle_keys-WritesAll end = nil-WritesAll Leaf IsUnit
    handle_keys-WritesAll (negation inner keys) =
        cons-WritesAll Leaf IsUnit (handle handle_part inner op_and) wrap_with_not
          (handle_keys handle_part keys) (negate (meaning holds inner op_and))
          (key_meanings holds keys)
          (negated-Writes Leaf IsUnit (handle handle_part inner op_and) (meaning holds inner op_and)
            (handle-Writes inner op_and))
          (handle_keys-WritesAll keys)
    handle_keys-WritesAll (group operator inner keys) =
        cons-WritesAll Leaf IsUnit (handle handle_part inner operator) (λ text. text)
          (handle_keys handle_part keys) (meaning holds inner operator) (key_meanings holds keys)
          (handle-Writes inner operator) (handle_keys-WritesAll keys)
    handle_keys-WritesAll (symbol keys) =
        fail-WritesAll Leaf IsUnit operator_before_attribute (key_meanings holds keys)
    handle_keys-WritesAll (attribute name value keys) =
        cons-WritesAll Leaf IsUnit (handle_part (pojo_where name value)) (λ text. text)
          (handle_keys handle_part keys) (holds (pojo_where name value)) (key_meanings holds keys)
          (parts_denote (pojo_where name value)) (handle_keys-WritesAll keys)

  wrapped-ok :
      (r : Result WhereError (Text × S)) (x : Text × S) → wrapped handle_part r ≡ ok x → r ≡ ok x
  wrapped-ok (ok r) x h = h
  wrapped-ok (throw problem) x h = cc

  -- The condition that `formatWhereOptions` writes for a where clause is true exactly if the clause
  -- is: arrays and the keys of an object are all or some of their parts, by the operator above them,
  -- `Op.not` negates, and a part that writes no text is left out, also below `Op.or` and `Op.not`. The
  -- clause as a whole writes no text if all of its parts are left out. The text is read with the
  -- precedence of SQL. The conditions are that the text of each single part is a condition with the
  -- truth value of the part, or empty, and that SQL reads a text of one condition with no AND or OR
  -- between two spaces in it as a single operand.
  pub format_where-Denotes :
      (w : Where E V) (s s' : S) (text : Text)
      → format_where handle_part w s ≡ ok (text, s')
      → Denotes Leaf IsUnit text (meaning holds w op_and)
  unfolding format_where
  format_where-Denotes undefined_value s s' text h =
      unfold meaning in sym (ap (λ r. r.0) (ok_inj h))
  format_where-Denotes raw_text s s' text h = cc
  format_where-Denotes other_value s s' text h =
      handle-Writes other_value op_and s s' text (wrapped-ok _ _ h)
  format_where-Denotes (expression x) s s' text h =
      handle-Writes (expression x) op_and s s' text (wrapped-ok _ _ h)
  format_where-Denotes (array parts) s s' text h =
      handle-Writes (array parts) op_and s s' text (wrapped-ok _ _ h)
  format_where-Denotes (object keys) s s' text h =
      handle-Writes (object keys) op_and s s' text (wrapped-ok _ _ h)
