-- ===== src/Where/Tests.antt =====
-- Runs of the where clauses of packages/core/src/abstract-dialect/where-sql-builder.ts, and the
-- theorems at concrete inputs.
use sequelize.Base.{
  ℕ, ◌≡◌, refl, sym, ap, Bool, true, false, ◌||◌, Option, none, some, List, [], ◌∷◌, ◌++◌, Text,
  codes, Result, ok, throw, ◌+◌,
}
use sequelize.Base.Decimal.{decimal}
use sequelize.Where.Logic.{
  mentions_logical, upper, contains, is_empty, op_and, op_or, join_with_logical_operator,
  wrap_with_not,
}
use sequelize.Where.Grammar.{
  Denotes, Condition, Disjunction, Conjunction, Term, HasLogicalWord, no_logical_word,
}
use sequelize.Where.Meaning.{join_meanings, join_with_logical_operator-Denotes}
use sequelize.Where.Tree.{
  M, Where, Wheres, Keys, Part, WhereError, bad_syntax, failed_to_escape, pure, format_where,
}
use sequelize.Where.Truth.{meaning}
use sequelize.Where.Writes.{pure_value}
use sequelize.Where.Operand.{
  DataType, json, Operand, null_value, scalar, literal, list, Operands, attribute, json_path,
  Segment, key,
}
use sequelize.Where.Operators.{
  Operator, eq, is, is_not, ne, gt, not_in, Builder, operator_map, format_operator,
}
use sequelize.Where.Nested.{Left, WhereValue, Entries, nested}
use sequelize.Where.Format.{
  format_condition, format_part, format_where_part, format_pojo_where, format_where_options,
}
use sequelize.Where.Whole.{Single, part_meaning, format_where_options-Denotes}
use sequelize.Where.Refusal.{returned, is_undefined, accepts, returned-format_where}
use sequelize.Where.Nulls.{format_condition_null}
use sequelize.Where.JsonPath.{only_connectives, nested_forgets_path}

-- A query generator that counts the values it escapes.
abbrev last_key : Text → List Segment → Text
last_key column [] = column
last_key column (key name ∷ rest) = last_key name rest
last_key column (Segment.index i ∷ rest) = last_key (decimal i) rest

abbrev escape : Operand → Option DataType → M ℕ Text
escape (attribute name) type s = ok (name, 1 + s)
escape (json_path (attribute name) path) type s =
    ok (name ++ (codes "->" ++ last_key name path), 1 + s)
escape (scalar n) type s = ok (decimal n, 1 + s)
escape (literal n) type s = ok (codes "x AND y", 1 + s)
escape null_value type s = ok (codes "NULL", 1 + s)
escape operand type s = throw (failed_to_escape s)

abbrev sample : Builder ℕ
sample = record {
  escape = escape;
  escape_list = λ operands type. pure (codes "(...)");
  escape_value = escape;
  remove_bind_param = λ s. s;
  keyword = operator_map;
  json_type = some json;
  array_of_text_type = none;
  cast_type = λ name. none;
  attribute_type = λ name. none;
}

abbrev parse : Text → Result WhereError Operand
parse [] = throw (bad_syntax [])
parse (c ∷ name) = ok (attribute (c ∷ name))

-- { [Op.or]: [{ a: 1, b: { [Op.gt]: 2 } }, { [Op.not]: { a: null } }], c: { [Op.notIn]: [] } }
abbrev clause : Where Operand (WhereValue Operator)
clause = Where.object (
    Keys.group op_or
      (Where.array (
        Wheres.cons
          (Where.object (
            Keys.attribute (codes "a") (WhereValue.value (scalar 1)) (
              Keys.attribute (codes "b")
                (WhereValue.object (Operand.plain_object 0)
                  (Entries.operation gt (scalar 2) Entries.end))
                Keys.end)))
          (Wheres.cons
            (Where.object (
              Keys.negation
                (Where.object (Keys.attribute (codes "a") (WhereValue.value null_value) Keys.end))
                Keys.end))
            Wheres.nil)))
      (Keys.attribute (codes "c")
        (WhereValue.object (Operand.plain_object 1)
          (Entries.operation not_in (list Operands.nil) Entries.end))
        Keys.end))

abbrev no_expression : Operand → M ℕ Text
no_expression e = pure []

abbrev clause_sql : Text
clause_sql = codes "(a = 1 AND b > 2) OR NOT (a IS NULL)"

clause_run : format_where_options sample parse no_expression clause 0 ≡ ok (clause_sql, 6)
unfolding format_where_options format_where_part format_pojo_where nested format_part
    format_condition format_operator operator_map join_with_logical_operator decimal wrap_with_not
clause_run = refl

abbrev truth : Operand → Option Operator → Operand → Bool
truth left operator (scalar n) = true
truth left operator right = false

abbrev no_truth : Operand → Option Bool
no_truth e = none

-- SQL reads a condition as a single operand if there is no AND or OR in it.
abbrev HasNoLogicalWord : Text → Type 0
HasNoLogicalWord s = HasLogicalWord s → ⊥

abbrev SampleCondition : Text → Bool → Type 0
SampleCondition = Single sample no_expression truth no_truth

format_where_options-Denotes_example :
    Denotes SampleCondition HasNoLogicalWord clause_sql
      (meaning (part_meaning sample no_expression truth no_truth parse) clause op_and)
format_where_options-Denotes_example =
    format_where_options-Denotes sample no_expression truth no_truth HasNoLogicalWord (λ s v h n. n)
      parse (λ e s s' text h. ap is_empty (sym (pure_value [] text s s' h))) clause 0 6 clause_sql
      clause_run

-- Conditions of which one is false.
data Given : Text → Bool → Type 0 where
  first : Given (codes "a = 1") true
  second : Given (codes "b = 2") false
  third : Given (codes "c = 3") true

abbrev texts : List Text
texts = codes "a = 1" ∷ [] ∷ codes "b = 2 OR c = 3" ∷ []

abbrev values : List (Option Bool)
values = some true ∷ none ∷ some true ∷ []

second_alone : HasNoLogicalWord (codes "b = 2")
second_alone = no_logical_word (codes "b = 2") (unfold mentions_logical upper contains in refl)

third_alone : HasNoLogicalWord (codes "c = 3")
third_alone = no_logical_word (codes "c = 3") (unfold mentions_logical upper contains in refl)

second_or_third : Condition Given HasNoLogicalWord (codes "b = 2 OR c = 3") true
second_or_third = Condition.disjunction (
    Disjunction.either {s = codes "b = 2"} {t = codes "c = 3"}
      (Conjunction.term (Term.leaf Given.second second_alone))
      (Disjunction.conjunction (Conjunction.term (Term.leaf Given.third third_alone))) refl refl)

join_with_logical_operator-Denotes_example :
    Denotes Given HasNoLogicalWord
      (join_with_logical_operator texts op_and)
      (join_meanings op_and values)
join_with_logical_operator-Denotes_example =
    join_with_logical_operator-Denotes Given HasNoLogicalWord (λ s v h n. n) op_and texts values
      ((Condition.alone Given.first, refl), (refl, ((second_or_third, refl), tt)))

joined_run : join_with_logical_operator texts op_and ≡ codes "a = 1 AND (b = 2 OR c = 3)"
unfolding join_with_logical_operator
joined_run = refl

abbrev write_name : Part ℕ ℕ → M ℕ Text
write_name (Part.sql_expression e) s = ok (decimal e, s)
write_name (Part.pojo_where name value) s = ok (name, s)

write_name_returns : (part : Part ℕ ℕ) (s : ℕ) → returned (write_name part s) ≡ true
write_name_returns (Part.sql_expression e) s = refl
write_name_returns (Part.pojo_where name value) s = refl

-- [undefined, { a: 1, [Op.or]: 5 }]
abbrev refused : Where ℕ ℕ
refused = Where.array (
    Wheres.cons Where.undefined_value (
      Wheres.cons
        (Where.object (Keys.attribute (codes "a") 1 (Keys.group op_or Where.other_value Keys.end)))
        Wheres.nil))

returned-format_where_example :
    returned (format_where write_name refused 0) ≡ is_undefined refused || accepts refused
returned-format_where_example = returned-format_where write_name write_name_returns refused 0

refused_run : accepts refused ≡ false
unfolding accepts
refused_run = refl

-- { [Op.not]: 5 }
abbrev negated : Entries Operator
negated = Entries.negation (WhereValue.value (scalar 5)) Entries.end

abbrev column : Left
column = record { operand = attribute (codes "data"); is_original = true }

nested_forgets_path_example :
    nested
      (format_part sample)
      column
      (WhereValue.object (Operand.plain_object 0) negated)
      true
      op_and
      (key (codes "age") ∷ [])
    ≡ nested
        (format_part sample)
        column
        (WhereValue.object (Operand.plain_object 0) negated)
        true
        op_and
        []
nested_forgets_path_example =
    nested_forgets_path (format_part sample) column (Operand.plain_object 0) negated true op_and
      (key (codes "age") ∷ []) (unfold only_connectives in refl)

abbrev name_column : Operand
name_column = attribute (codes "name")

format_condition_null_example :
    (format_condition sample name_column none none null_value
      ≡ format_condition sample name_column none (some is) null_value)
    × (format_condition sample name_column none (some eq) null_value
        ≡ format_condition sample name_column none (some is) null_value)
    × (format_condition sample name_column none (some ne) null_value
        ≡ format_condition sample name_column none (some is_not) null_value)
format_condition_null_example = format_condition_null sample name_column none refl
