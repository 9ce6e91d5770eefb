-- ===== src/Sql/Scan.antt =====
-- The variables of `mapBindParametersAndReplacements` in packages/core/src/utils/sql.ts, and what its
-- loop does with them at a position in a string, an identifier or a comment, or at a `$`.
-- `before` holds the characters before the position `i`, the nearest first, so `sqlString[i - 1]` is
-- its head and `i` its length; `after` holds those behind the position.
use sequelize.Base.{
  ℕ, ◌+◌, Bool, true, false, not, ◌&&◌, ◌||◌, Option, none, some, List, [], ◌∷◌, ◌++◌, ◌==◌,
  if◌then◌else◌, Text, text_eq, length, get_elem?, head?, slice, Result,
}
use sequelize.Sql.Chars.{
  dollar, quote, is_part_of_identifier, can_precede_new_token, is_backslash_escaped, dollar_tag,
  bind_name,
}
use sequelize.Sql.Collector.{Collector, collect}
use sequelize.Sql.Dialect.{Dialect, can_backslash_escape, supports_escape_string_constants}

pub data ScanError : Type 0 where
  no_named_entry : (name : Text) → ScanError
  no_positional_entry : (index : ℕ) → ScanError
  unterminated_string : ScanError
  positional_in_literal : ScanError
  escape_failed : ScanError

-- `dialect.queryGenerator.escape` and what `escapeValueWithBackCompat` asks of a value.
pub record Escaper (Value : Type 0) : Type 0 where
  pub as_array : Value → Option (List Value)
  pub is_dynamic : Value → Bool
  pub escape : Value → Result ScanError Text

-- What the caller of the loop wants: `mapBindParameters` passes `onBind`, and `injectReplacements`
-- an object or an array; an entry `none` is the value `undefined`.
pub data Task (Value : Type 0) : Type 0 where
  binds : Task Value
  named : List (Text × Option Value) → Task Value
  positional : List (Option Value) → Task Value

-- The variables of the loop. `skip` counts the characters that `i +=` has passed over,
-- `next_positional` is `lastConsumedPositionalReplacementIndex + 1`, and `collector` and
-- `parameter_set` are what `onBind` writes to.
pub record Scan : Type 0 where
  pub current_dollar_string_tag_name : Option Text
  pub is_string : Bool
  pub is_column : Bool
  pub is_single_line_comment : Bool
  pub is_comment_block : Bool
  pub string_is_backslash_escapable : Bool
  pub previous_slice_end : ℕ
  pub output : Text
  pub skip : ℕ
  pub next_positional : ℕ
  pub collector : Collector
  pub parameter_set : List Text

unfoldable pub start : Collector → Scan
start c = record {
  current_dollar_string_tag_name = none;
  is_string = false;
  is_column = false;
  is_single_line_comment = false;
  is_comment_block = false;
  string_is_backslash_escapable = false;
  previous_slice_end = 0;
  output = [];
  skip = 0;
  next_positional = 0;
  collector = c;
  parameter_set = [];
}

-- The text whose part before the position is `before` and whose part from it on is `rest`.
abbrev pub sql_at : Text → Text → Text
sql_at [] rest = rest
sql_at (c ∷ before) rest = sql_at before (c ∷ rest)

-- `parameterSet.add(name)`.
abbrev pub add_name : Text → List Text → List Text
add_name name [] = name ∷ []
add_name name (n ∷ ns) = if text_eq n name then n ∷ ns else n ∷ add_name name ns

-- `output += sqlString.slice(previousSliceEnd, i)`, `previousSliceEnd = i + size`, and the output of
-- the new text.
abbrev pub emit : Text → ℕ → ℕ → Text → Scan → Scan
emit sql i size text s = record s {
  output = (s.output ++ slice sql s.previous_slice_end i) ++ text;
  previous_slice_end = i + size;
}

-- A bind parameter is found.
unfoldable pub on_bind : Text → ℕ → Text → Scan → Scan
on_bind sql i name s =
    let (text, c) = collect name s.collector in
    emit sql i (length name + 1) text
      (record s { collector = c; parameter_set = add_name name s.parameter_set })

-- The end of a `'` string, the end of an identifier, of a dollar string, of the comments.
unfoldable pub in_string : Text → ℕ → Scan → Scan
in_string before char s =
    if char == quote && not (s.string_is_backslash_escapable && is_backslash_escaped before)
    then record s { is_string = false; string_is_backslash_escapable = false }
    else s

abbrev pub tag_or_empty : Option Text → Text
tag_or_empty none = []
tag_or_empty (some tag) = tag

unfoldable pub in_dollar_string : Text → ℕ → Text → Scan → Scan
in_dollar_string tag char after s =
    if char == dollar
    then if text_eq tag (tag_or_empty (dollar_tag after))
      then record s { current_dollar_string_tag_name = none }
      else s
    else s

unfoldable pub in_single_line_comment : ℕ → Scan → Scan
in_single_line_comment char s =
    if char == 10 then record s { is_single_line_comment = false } else s

abbrev pub is_char : ℕ → Option ℕ → Bool
is_char c none = false
is_char c (some d) = d == c

unfoldable pub in_comment_block : ℕ → Text → Scan → Scan
in_comment_block char after s =
    if char == b'*' && is_char b'/' (head? after) then record s { is_comment_block = false } else s

-- `stringIsBackslashEscapable`, at the quote that opens a string.
unfoldable pub opens_escapable : Dialect → Text → Bool
opens_escapable d before =
    can_backslash_escape d
    || (supports_escape_string_constants d
        && ((is_char b'E' (head? before) || is_char b'e' (head? before))
            && can_precede_new_token (get_elem? before 1)))

unfoldable pub open_string : Dialect → Text → Scan → Scan
open_string d before s = record s {
  is_string = true;
  string_is_backslash_escapable = opens_escapable d before;
}

abbrev pub bind_or_skip : Text → ℕ → Scan → Bool → Option Text → Scan
bind_or_skip sql i s true (some name) = on_bind sql i name s
bind_or_skip sql i s _ _ = s

-- A `$` after which no dollar string starts, where `onBind` is given.
unfoldable pub bind_at : Text → Text → Scan → Scan
unfolding on_bind
bind_at before after s =
    bind_or_skip (sql_at before (dollar ∷ after)) (length before) s
      (can_precede_new_token (head? before)) (bind_name after)

-- `dollarStringStartMatch[0].length - 1` characters are passed over: the tag and its second `$`.
abbrev pub dollar_or_bind : {Value : Type 0} → Task Value → Text → Text → Scan → Option Text → Scan
dollar_or_bind task before after s (some tag) = record s {
  current_dollar_string_tag_name = some tag;
  skip = length tag + 1;
}
dollar_or_bind binds before after s none = bind_at before after s
dollar_or_bind _ before after s none = s

unfoldable pub at_dollar : {Value : Type 0} → Task Value → Text → Text → Scan → Scan
unfolding bind_at
at_dollar task before after s =
    if is_part_of_identifier (head? before)
    then s
    else dollar_or_bind task before after s (dollar_tag after)
