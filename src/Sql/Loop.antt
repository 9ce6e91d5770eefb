-- ===== src/Sql/Loop.antt =====
-- The loop of `mapBindParametersAndReplacements` in packages/core/src/utils/sql.ts, which reads a
-- query once and finds the bind parameters and the replacements outside its strings, quoted
-- identifiers, dollar-quoted strings and comments, and the two functions that run it.
-- The loop is a recursion over the rest of the query, with `before` and `after` as in `Sql.Scan`.
pub mod Outcomes
pub mod Faithful
pub mod Order
pub mod Queries
pub mod Parameters
pub mod DollarStrings
pub mod Containment
pub mod Quoting
pub mod Identifiers
use sequelize.Base.{
  ℕ, zero, suc, ◌+◌, Bool, true, false, not, ◌&&◌, ◌||◌, Option, none, some, List, [], ◌∷◌, ◌++◌,
  ◌==◌, if◌then◌else◌, Text, text_eq, codes, length, get_elem?, head?, drop, starts_with, Result,
  ok, throw, ◌>>=◌,
}
use sequelize.Sql.Chars.{dollar, quote, can_precede_new_token, replacement_name}
use sequelize.Sql.Collector.{Collector, get_bind_parameter_order}
use sequelize.Sql.Dialect.{Dialect, tick_char_left, tick_char_right, create_bind_collector}
use sequelize.Sql.Scan.{
  ScanError, no_named_entry, no_positional_entry, unterminated_string, positional_in_literal,
  Escaper, Task, binds, named, positional, Scan, start, sql_at, emit, in_string, in_dollar_string,
  in_single_line_comment, is_char, in_comment_block, open_string, at_dollar,
}

abbrev pub lookup : {Value : Type 0} → Text → List (Text × Option Value) → Option Value
lookup name [] = none
lookup name ((n, v) ∷ entries) = if text_eq n name then v else lookup name entries

-- The separator of `join(', ')`.
abbrev join_texts : Text → List Text → Text
join_texts glue [] = []
join_texts glue (t ∷ []) = t
join_texts glue (t ∷ ts) = t ++ (glue ++ join_texts glue ts)

module _ {Value : Type 0} (e : Escaper Value) where
  open e use {as_array, is_dynamic, escape}

  some_dynamic : List Value → Bool
  some_dynamic [] = false
  some_dynamic (v ∷ vs) = is_dynamic v || some_dynamic vs

  escape_all : List Value → Result ScanError (List Text)
  escape_all [] = ok []
  escape_all (v ∷ vs) = do t ← escape v; ts ← escape_all vs; ok (t ∷ ts)

  escape_array : Value → Option (List Value) → Result ScanError Text
  escape_array value none = escape value
  escape_array value (some items) =
      if some_dynamic items
      then escape_all items >>= (λ ts. ok (join_texts (codes ", ") ts))
      else escape value

  unfoldable pub escape_value_with_back_compat : Value → Result ScanError Text
  unfolding some_dynamic escape_all escape_array
  escape_value_with_back_compat value = escape_array value (as_array value)

  -- A named replacement is found.
  unfoldable pub on_named : Text → ℕ → Text → Scan → Option Value → Result ScanError Scan
  unfolding escape_value_with_back_compat
  on_named sql i name s none = throw (no_named_entry name)
  on_named sql i name s (some value) = do
    text ← escape_value_with_back_compat value
    ok (emit sql i (length name + 1) text s)

  abbrev pub named_or_skip :
      List (Text × Option Value) → Text → ℕ → Scan → Bool → Option Text → Result ScanError Scan
  named_or_skip entries sql i s true (some name) = on_named sql i name s (lookup name entries)
  named_or_skip entries sql i s _ _ = ok s

  unfoldable pub at_colon : List (Text × Option Value) → Text → Text → Scan → Result ScanError Scan
  unfolding on_named
  at_colon entries before after s =
      named_or_skip entries (sql_at before (b':' ∷ after)) (length before) s
        (can_precede_new_token (head? before) || is_char b'[' (head? before))
        (replacement_name after)

  abbrev pub entry_at : List (Option Value) → ℕ → Option Value
  entry_at entries i = elim (get_elem? entries i) [ none ↦ none | some v ↦ v ]

  unfoldable pub on_positional : Text → ℕ → Scan → Option Value → Result ScanError Scan
  unfolding escape_value_with_back_compat
  on_positional sql i s none = throw (no_positional_entry s.next_positional)
  on_positional sql i s (some value) = do
    text ← escape_value_with_back_compat value
    ok (emit sql i 1 text (record s { next_positional = s.next_positional + 1 }))

  -- `forbidden` says that `options.onPositionalReplacement` is given, which throws.
  unfoldable pub at_question_mark :
      Bool → List (Option Value) → Text → Text → Scan → Result ScanError Scan
  unfolding on_positional
  at_question_mark forbidden entries before after s =
      if (can_precede_new_token (head? before) || is_char b'[' (head? before))
        && not (is_char b'|' (head? after) || is_char b'&' (head? after))
      then if forbidden
        then throw positional_in_literal
        else on_positional (sql_at before (b'?' ∷ after)) (length before) s
            (entry_at entries s.next_positional)
      else ok s

  unfoldable pub at_replacement : Bool → Task Value → Text → ℕ → Text → Scan → Result ScanError Scan
  unfolding at_colon at_question_mark
  at_replacement forbidden binds before char after s = ok s
  at_replacement forbidden (named entries) before char after s =
      if char == b':' then at_colon entries before after s else ok s
  at_replacement forbidden (positional entries) before char after s =
      if char == b'?' then at_question_mark forbidden entries before after s else ok s

  -- The part of the loop's body for a position outside all strings and comments.
  unfoldable pub in_sql :
      Dialect → Bool → Task Value → Text → ℕ → Text → Scan → Result ScanError Scan
  in_sql d forbidden task before char after s =
      if char == tick_char_left d
      then ok (record s { is_column = true })
      else if char == quote
      then ok (open_string d before s)
      else if char == b'-' && starts_with after (codes "- ")
      then ok (record s { is_single_line_comment = true })
      else if char == b'/' && is_char b'*' (head? after)
      then ok (record s { is_comment_block = true })
      else if char == dollar
      then ok (at_dollar task before after s)
      else at_replacement forbidden task before char after s

  abbrev pub in_tag :
      Dialect → Bool → Task Value → Text → ℕ → Text → Scan → Option Text → Result ScanError Scan
  in_tag d forbidden task before char after s (some tag) = ok (in_dollar_string tag char after s)
  in_tag d forbidden task before char after s none =
      if s.is_single_line_comment
      then ok (in_single_line_comment char s)
      else if s.is_comment_block
      then ok (in_comment_block char after s)
      else in_sql d forbidden task before char after s

  -- The body of the loop at one position.
  unfoldable pub step : Dialect → Bool → Task Value → Text → ℕ → Text → Scan → Result ScanError Scan
  step d forbidden task before char after s =
      if s.is_column
      then ok (if char == tick_char_right d then record s { is_column = false } else s)
      else if s.is_string
      then ok (in_string before char s)
      else in_tag d forbidden task before char after s s.current_dollar_string_tag_name

  abbrev pub advance :
      Dialect → Bool → Task Value → Text → ℕ → Text → Scan → ℕ → Result ScanError Scan
  advance d forbidden task before char after s zero = step d forbidden task before char after s
  advance d forbidden task before char after s (suc n) = ok (record s { skip = n })

  unfoldable pub loop : Dialect → Bool → Task Value → Text → Text → Scan → Result ScanError Scan
  loop d forbidden task before [] s = ok s
  loop d forbidden task before (char ∷ after) s =
      advance d forbidden task before char after s s.skip
      >>= loop d forbidden task (char ∷ before) after

  -- What follows the loop.
  unfoldable pub finish : Text → Scan → Result ScanError Text
  finish sql s =
      if s.is_string
      then throw unterminated_string
      else ok (s.output ++ drop s.previous_slice_end sql)

  unfoldable pub map_bind_parameters_and_replacements :
      Dialect → Bool → Task Value → Collector → Text → Result ScanError (Text × Scan)
  unfolding loop finish
  map_bind_parameters_and_replacements d forbidden task c sql = do
    s ← loop d forbidden task [] sql (start c)
    output ← finish sql s
    ok (output, s)

  -- `replacements == null` is `none`; the two other kinds are those that pass the type test.
  unfoldable pub inject_replacements :
      Dialect → Bool → Option (Task Value) → Text → Result ScanError Text
  unfolding map_bind_parameters_and_replacements
  inject_replacements d forbidden none sql = ok sql
  inject_replacements d forbidden (some task) sql = do
    result ← map_bind_parameters_and_replacements d forbidden task (create_bind_collector d) sql
    ok result.0

pub record MappedSql : Type 0 where
  pub sql : Text
  pub bind_order : Option (List Text)
  pub parameter_set : List Text

abbrev pub no_values : Escaper ⊥
no_values = record { as_array = λ v. none; is_dynamic = λ v. false; escape = λ v. ok [] }

unfoldable pub map_bind_parameters : Dialect → Text → Result ScanError MappedSql
unfolding map_bind_parameters_and_replacements
map_bind_parameters d sql = do
  result ←
      map_bind_parameters_and_replacements no_values d false binds (create_bind_collector d) sql
  ok (record {
    sql = result.0;
    bind_order = get_bind_parameter_order result.1.collector;
    parameter_set = result.1.parameter_set;
  })
