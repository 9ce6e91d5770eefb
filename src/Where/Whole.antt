-- ===== src/Where/Whole.antt =====
-- The conditions of a where clause as a whole: `formatWhereOptions` and `formatPojoWhere` of
-- packages/core/src/abstract-dialect/where-sql-builder.ts, down to single conditions.
use sequelize.Base.{
  ◌≡◌, refl, ap, ◌∙◌, inl, inr, Bool, true, false, ◌||◌, Option, none, some, if◌then◌else◌, Text,
  [], ◌∷◌, ok, throw, Result, Bool-cases, ok_inj,
}
use sequelize.Where.Logic.{is_empty, op_and}
use sequelize.Where.Grammar.{Denotes, Condition, AreUnits}
use sequelize.Where.Tree.{M, Where, Part, sql_expression, pojo_where, WhereError}
use sequelize.Where.Writes.{Writes}
use sequelize.Where.Truth.{meaning, format_where-Denotes}
use sequelize.Where.Operand.{DataType, Operand, is_json_type}
use sequelize.Where.Operators.{Operator, Builder}
use sequelize.Where.Nested.{Left, WhereValue}
use sequelize.Where.NestedTruth.{nested_meaning, nested-Writes}
use sequelize.Where.Format.{
  with_type, without_type, format_parsed, is_missing, operand_type, current_type, format_condition,
  format_part, format_pojo_where, format_where_part, format_where_options,
}
use sequelize.Where.Single.{says_nothing, format_condition-Fills, says_nothing-writes_nothing}

abbrev is_none : Option Bool → Bool
is_none none = true
is_none (some v) = false

no_text : (text : Text) → is_empty text ≡ true → text ≡ []
no_text [] h = refl
no_text (c ∷ text) h = cc

-- The text of one condition, with the truth value that is given to it, or of an expression.
module _ {S : Type 0} (b : Builder S) (format_sql_expression : Operand → M S Text)
    (truth : Operand → Option Operator → Operand → Bool)
    (expression_truth : Operand → Option Bool) where
  pub data Single : Text → Bool → Type 0 where
    condition :
        {text : Text} {v : Bool} (left : Operand) (left_type : Option DataType)
        (operator : Option Operator) (right : Operand) (s s' : S)
        → format_condition b left left_type operator right s ≡ ok (text, s')
        → v ≡ truth left operator right
        → Single text v
    expression :
        {text : Text} {v : Bool} (e : Operand) (s s' : S)
        → format_sql_expression e s ≡ ok (text, s')
        → expression_truth e ≡ some v
        → Single text v

  -- What the parts of a clause mean.
  unfoldable pub condition_meaning : Left → Option Operator → Operand → Option Bool
  condition_meaning left operator right =
      if says_nothing operator right then none else some (truth left.operand operator right)

  abbrev pub parsed_meaning : Result WhereError Operand → WhereValue Operator → Option Bool
  parsed_meaning (throw problem) inner = none
  parsed_meaning (ok left) inner =
      nested_meaning condition_meaning (record { operand = left; is_original = true }) inner
        (is_missing (operand_type b left) || is_json_type (operand_type b left)) op_and []

  unfoldable pub part_meaning :
      (Text → Result WhereError Operand) → Part Operand (WhereValue Operator) → Option Bool
  part_meaning parse (sql_expression e) = expression_truth e
  part_meaning parse (pojo_where name inner) = parsed_meaning (parse name) inner

  module _ (IsUnit : Text → Type 0) (units : AreUnits Single IsUnit) where
    format_condition-Writes :
        (left : Left) (left_type : Option DataType) (operator : Option Operator) (right : Operand)
        → Writes Single IsUnit
            (format_condition b left.operand left_type operator right)
            (condition_meaning left operator right)
    unfolding condition_meaning
    format_condition-Writes left left_type operator right s s' text h =
        elim (Bool-cases (says_nothing operator right)) [
          | inl y ↦
              rw y
                (says_nothing-writes_nothing b left.operand left_type operator right y s s' text h)
          | inr n ↦ rw n (
            Condition.alone (Single.condition left.operand left_type operator right s s' h refl),
            format_condition-Fills b left.operand left_type operator right n s s' text h,
          )
        ]

    with_type-ok :
        (type : Option DataType) (r : Result WhereError (Text × S)) (text : Text)
        (s' : S × Option DataType)
        → with_type b type r ≡ ok (text, s')
        → r ≡ ok (text, s'.0)
    with_type-ok type (ok (t, s)) text s' h = ap (λ x. ok (x.0, x.1.0)) (ok_inj h)
    with_type-ok type (throw problem) text s' h = cc

    without_type-ok :
        (r : Result WhereError (Text × (S × Option DataType))) (text : Text) (s' : S)
        → without_type b r ≡ ok (text, s')
        → (type : Option DataType) × (r ≡ ok (text, (s', type)))
    without_type-ok (ok (t, (s, type))) text s' h =
        (type, ap (λ x. ok (x.0, (x.1, type))) (ok_inj h))
    without_type-ok (throw problem) text s' h = cc

    format_part-Writes :
        (left : Left) (operator : Option Operator) (right : Operand)
        → Writes Single IsUnit
            (format_part b left operator right)
            (condition_meaning left operator right)
    unfolding format_part
    format_part-Writes left operator right (s, stored) (s', stored') text h =
        format_condition-Writes left (current_type b left stored) operator right s s' text
          (with_type-ok (current_type b left stored) _ text (s', stored') h)

    format_pojo_where-Writes :
        (left : Operand) (inner : WhereValue Operator)
        → Writes Single IsUnit (format_pojo_where b left inner) (parsed_meaning (ok left) inner)
    unfolding format_pojo_where
    format_pojo_where-Writes left inner s s' text h =
        let type = operand_type b left in
        let (type', e) = without_type-ok _ text s' h in
        nested-Writes Single IsUnit units (format_part b) condition_meaning format_part-Writes
          (record { operand = left; is_original = true }) inner
          (is_missing type || is_json_type type) op_and [] (s, type) (s', type') text e

    module _ (parse : Text → Result WhereError Operand)
        (expression_text : (e : Operand) (s s' : S) (text : Text)
          → format_sql_expression e s ≡ ok (text, s')
          → is_empty text ≡ is_none (expression_truth e)) where
      expression-Writes :
          (e : Operand) (s s' : S) (text : Text)
          → format_sql_expression e s ≡ ok (text, s')
          → (v : Option Bool) → expression_truth e ≡ v
          → Denotes Single IsUnit text v
      expression-Writes e s s' text h none k =
          no_text text (expression_text e s s' text h ∙ ap is_none k)
      expression-Writes e s s' text h (some v) k = (
        Condition.alone (Single.expression e s s' h k),
        expression_text e s s' text h ∙ ap is_none k,
      )

      part-Writes :
          (part : Part Operand (WhereValue Operator))
          → Writes Single IsUnit
              (format_where_part b parse format_sql_expression part)
              (part_meaning parse part)
      unfolding format_where_part part_meaning
      part-Writes (sql_expression e) s s' text h =
          expression-Writes e s s' text h (expression_truth e) refl
      part-Writes (pojo_where name inner) s s' text h = go (parse name) h
        where
          go :
              (r : Result WhereError Operand)
              → format_parsed b parse format_sql_expression r inner s ≡ ok (text, s')
              → Denotes Single IsUnit text (parsed_meaning r inner)
          go (ok left) h = format_pojo_where-Writes left inner s s' text h
          go (throw problem) h = cc

      -- The condition that `formatWhereOptions` writes is the where clause, down to single conditions: read
      -- with the precedence of SQL, it combines the texts of the conditions and expressions of the clause by
      -- AND, OR and NOT such that whichever truth values are given to them, the text has that of the clause.
      -- A condition `Op.notIn` with an empty list is no part of it, and the text is empty if nothing is
      -- left. The conditions are that an expression writes no text exactly where it is given no truth value,
      -- and that SQL reads as a single operand the text of a condition or expression with no AND or OR
      -- between two spaces in it, in big or small letters.
      pub format_where_options-Denotes :
          (w : Where Operand (WhereValue Operator)) (s s' : S) (text : Text)
          → format_where_options b parse format_sql_expression w s ≡ ok (text, s')
          → Denotes Single IsUnit text (meaning (part_meaning parse) w op_and)
      unfolding format_where_options
      format_where_options-Denotes w s s' text h =
          format_where-Denotes Single IsUnit units (format_where_part b parse format_sql_expression)
            (part_meaning parse) part-Writes w s s' text h
