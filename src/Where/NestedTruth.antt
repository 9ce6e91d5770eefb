-- ===== src/Where/NestedTruth.antt =====
-- The truth of the operators behind an attribute name, and of the condition that
-- `#handleRecursiveNotOrAndNestedPathRecursive` of
-- packages/core/src/abstract-dialect/where-sql-builder.ts writes for them.
use sequelize.Base.{
  Bool, true, false, not, ◌&&◌, Option, none, some, List, [], ◌∷◌, if◌then◌else◌, Text,
}
use sequelize.Where.Logic.{Connective, op_and, join_with_logical_operator, wrap_with_not}
use sequelize.Where.Grammar.{AreUnits}
use sequelize.Where.Meaning.{join_meanings, negate, join_with_logical_operator-Denotes}
use sequelize.Where.Tree.{M}
use sequelize.Where.Writes.{
  Writes, WritesAll, joined-Writes, nil-WritesAll, cons-WritesAll, negated-Writes,
}
use sequelize.Where.Operand.{Operand, Segment}
use sequelize.Where.Nested.{
  Left, WhereValue, WhereValues, Entries, wrap_simple_json_path, key_left, key_allows, key_path,
  has_string_keys, nested, nested_values, nested_entries,
}

-- The meaning by the meaning of single conditions. The left operand of a condition is the attribute,
-- extended by the JSON path to the condition since the last `Op.and`, `Op.or` or `Op.not`.
module _ {O : Type 0} (holds : Left → Option O → Operand → Option Bool) where
  unfoldable mutual
    pub nested_meaning : Left → WhereValue O → Bool → Connective → List Segment → Option Bool
    nested_meaning left (WhereValue.value right) allow operator path =
        holds (wrap_simple_json_path left path) none right
    nested_meaning left (WhereValue.object right entries) allow operator path =
        let parts = entry_meanings left entries allow operator path in
        if not allow && has_string_keys entries
        then holds (wrap_simple_json_path left path) none right
        else join_meanings operator parts

    pub value_meanings : Left → WhereValues O → Bool → List (Option Bool)
    value_meanings left WhereValues.nil allow = []
    value_meanings left (WhereValues.cons inner rest) allow =
        nested_meaning left inner allow op_and [] ∷ value_meanings left rest allow

    pub entry_meanings : Left → Entries O → Bool → Connective → List Segment → List (Option Bool)
    entry_meanings left Entries.end allow operator path = []
    entry_meanings left (Entries.key_entry parsed inner entries) allow operator path =
        nested_meaning (key_left left path parsed parsed.casts_and_modifiers) inner
          (key_allows allow parsed.casts_and_modifiers) operator
          (key_path path parsed parsed.casts_and_modifiers)
        ∷ entry_meanings left entries allow operator path
    entry_meanings left (Entries.negation inner entries) allow operator path =
        negate (nested_meaning left inner allow op_and [])
        ∷ entry_meanings left entries allow operator path
    entry_meanings left (Entries.group connective inner entries) allow operator path =
        nested_meaning left inner allow connective []
        ∷ entry_meanings left entries allow operator path
    entry_meanings left (Entries.groups connective inner entries) allow operator path =
        join_meanings connective (value_meanings left inner allow)
        ∷ entry_meanings left entries allow operator path
    entry_meanings left (Entries.operation o right entries) allow operator path =
        holds (wrap_simple_json_path left path) (some o) right
        ∷ entry_meanings left entries allow operator path

module _ {O S : Type 0} (Leaf : Text → Bool → Type 0) (IsUnit : Text → Type 0)
    (units : AreUnits Leaf IsUnit) (handle_part : Left → Option O → Operand → M S Text)
    (holds : Left → Option O → Operand → Option Bool)
    (parts_denote : (left : Left) (operator : Option O) (right : Operand)
      → Writes Leaf IsUnit (handle_part left operator right) (holds left operator right)) where
  if-Writes :
      (b : Bool) (m k : M S Text) (v w : Option Bool)
      → Writes Leaf IsUnit m v
      → Writes Leaf IsUnit k w
      → Writes Leaf IsUnit (if b then m else k) (if b then v else w)
  if-Writes true m k v w h h' = h
  if-Writes false m k v w h h' = h'

  mutual
    unfolding nested nested_meaning

    pub nested-Writes :
        (left : Left) (inner : WhereValue O) (allow : Bool) (operator : Connective)
        (path : List Segment)
        → Writes Leaf IsUnit
            (nested handle_part left inner allow operator path)
            (nested_meaning holds left inner allow operator path)
    nested-Writes left (WhereValue.value right) allow operator path =
        parts_denote (wrap_simple_json_path left path) none right
    nested-Writes left (WhereValue.object right entries) allow operator path =
        if-Writes (not allow && has_string_keys entries) _ _ _ _
          (parts_denote (wrap_simple_json_path left path) none right)
          (joined-Writes Leaf IsUnit units operator
            (nested_entries handle_part left entries allow operator path)
            (entry_meanings holds left entries allow operator path)
            (nested_entries-WritesAll left entries allow operator path))

    nested_values-WritesAll :
        (left : Left) (inner : WhereValues O) (allow : Bool)
        → WritesAll Leaf IsUnit
            (nested_values handle_part left inner allow)
            (value_meanings holds left inner allow)
    nested_values-WritesAll left WhereValues.nil allow = nil-WritesAll Leaf IsUnit
    nested_values-WritesAll left (WhereValues.cons inner rest) allow =
        cons-WritesAll Leaf IsUnit (nested handle_part left inner allow op_and []) (λ text. text)
          (nested_values handle_part left rest allow)
          (nested_meaning holds left inner allow op_and []) (value_meanings holds left rest allow)
          (nested-Writes left inner allow op_and []) (nested_values-WritesAll left rest allow)

    nested_entries-WritesAll :
        (left : Left) (entries : Entries O) (allow : Bool) (operator : Connective)
        (path : List Segment)
        → WritesAll Leaf IsUnit
            (nested_entries handle_part left entries allow operator path)
            (entry_meanings holds left entries allow operator path)
    nested_entries-WritesAll left Entries.end allow operator path = nil-WritesAll Leaf IsUnit
    nested_entries-WritesAll left (Entries.key_entry parsed inner entries) allow operator path =
        let left' = key_left left path parsed parsed.casts_and_modifiers in
        let allow' = key_allows allow parsed.casts_and_modifiers in
        let path' = key_path path parsed parsed.casts_and_modifiers in
        cons-WritesAll Leaf IsUnit (nested handle_part left' inner allow' operator path')
          (λ text. text) (nested_entries handle_part left entries allow operator path)
          (nested_meaning holds left' inner allow' operator path')
          (entry_meanings holds left entries allow operator path)
          (nested-Writes left' inner allow' operator path')
          (nested_entries-WritesAll left entries allow operator path)
    nested_entries-WritesAll left (Entries.negation inner entries) allow operator path =
        cons-WritesAll Leaf IsUnit (nested handle_part left inner allow op_and []) wrap_with_not
          (nested_entries handle_part left entries allow operator path)
          (negate (nested_meaning holds left inner allow op_and []))
          (entry_meanings holds left entries allow operator path)
          (negated-Writes Leaf IsUnit (nested handle_part left inner allow op_and [])
            (nested_meaning holds left inner allow op_and [])
            (nested-Writes left inner allow op_and []))
          (nested_entries-WritesAll left entries allow operator path)
    nested_entries-WritesAll left (Entries.group connective inner entries) allow operator path =
        cons-WritesAll Leaf IsUnit (nested handle_part left inner allow connective [])
          (λ text. text) (nested_entries handle_part left entries allow operator path)
          (nested_meaning holds left inner allow connective [])
          (entry_meanings holds left entries allow operator path)
          (nested-Writes left inner allow connective [])
          (nested_entries-WritesAll left entries allow operator path)
    nested_entries-WritesAll left (Entries.groups connective inner entries) allow operator path =
        cons-WritesAll Leaf IsUnit (nested_values handle_part left inner allow)
          (λ texts. join_with_logical_operator texts connective)
          (nested_entries handle_part left entries allow operator path)
          (join_meanings connective (value_meanings holds left inner allow))
          (entry_meanings holds left entries allow operator path)
          (λ s s' texts e.
            join_with_logical_operator-Denotes Leaf IsUnit units connective texts
              (value_meanings holds left inner allow)
              (nested_values-WritesAll left inner allow s s' texts e))
          (nested_entries-WritesAll left entries allow operator path)
    nested_entries-WritesAll left (Entries.operation o right entries) allow operator path =
        cons-WritesAll Leaf IsUnit (handle_part (wrap_simple_json_path left path) (some o) right)
          (λ text. text) (nested_entries handle_part left entries allow operator path)
          (holds (wrap_simple_json_path left path) (some o) right)
          (entry_meanings holds left entries allow operator path)
          (parts_denote (wrap_simple_json_path left path) (some o) right)
          (nested_entries-WritesAll left entries allow operator path)
