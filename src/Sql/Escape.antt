-- ===== src/Sql/Escape.antt =====
-- Writing a string or an identifier into SQL: `escapeMysqlMariaDbString` of
-- packages/core/src/utils/sql.ts, `escapeString` of each packages/*/src/dialect.ts, and
-- `quoteIdentifier` of packages/core/src/utils/dialect.ts and of the query generators.
use sequelize.Base.{
  ℕ, ◌+◌, leb, Bool, true, false, ◌&&◌, ◌||◌, List, [], ◌∷◌, ◌++◌, ◌==◌, if◌then◌else◌, Text,
  text_eq, codes, starts_with,
}
use sequelize.Sql.Reserved.{postgres_reserved_words, snowflake_reserved_words}
use sequelize.Sql.Chars.{quote, backslash}
use sequelize.Sql.Dialect.{
  Dialect, mariadb, mssql, mysql, postgres, snowflake, tick_char_left, tick_char_right,
}

-- `text.replaceAll(char, to)`.
unfoldable pub replace_all : ℕ → Text → Text → Text
replace_all char to [] = []
replace_all char to (c ∷ cs) =
    let rest = replace_all char to cs in if c == char then to ++ rest else c ∷ rest

-- The callback of `replaceAll` for a character that the class matches, and the character itself
-- where it does not.
abbrev pub mysql_escape_char : ℕ → Text
mysql_escape_char c =
    if c == 0
    then backslash ∷ b'0' ∷ []
    else if c == 10
    then backslash ∷ b'n' ∷ []
    else if c == 13
    then backslash ∷ b'r' ∷ []
    else if c == 8
    then backslash ∷ b'b' ∷ []
    else if c == 9
    then backslash ∷ b't' ∷ []
    else if c == 26
    then backslash ∷ b'Z' ∷ []
    else if c == quote
    then backslash ∷ quote ∷ []
    else if c == backslash
    then backslash ∷ backslash ∷ []
    else c ∷ []

unfoldable pub mysql_escape_content : Text → Text
mysql_escape_content [] = []
mysql_escape_content (c ∷ cs) = mysql_escape_char c ++ mysql_escape_content cs

unfoldable pub escape_mysql_maria_db_string : Text → Text
unfolding mysql_escape_content
escape_mysql_maria_db_string value = quote ∷ (mysql_escape_content value ++ quote ∷ [])

-- `escapeString`; the last clause is that of `AbstractDialect`.
unfoldable pub escape_string : Dialect → Text → Text
unfolding escape_mysql_maria_db_string replace_all
escape_string mariadb value = escape_mysql_maria_db_string value
escape_string mysql value = escape_mysql_maria_db_string value
escape_string mssql value =
    b'N' ∷ quote ∷ (replace_all quote (quote ∷ quote ∷ []) value ++ quote ∷ [])
escape_string (postgres _) value =
    quote
    ∷ (replace_all 0 (backslash ∷ b'0' ∷ []) (replace_all quote (quote ∷ quote ∷ []) value)
        ++ quote ∷ [])
escape_string _ value = quote ∷ (replace_all quote (quote ∷ quote ∷ []) value ++ quote ∷ [])

unfoldable pub quote_identifier : Text → ℕ → ℕ → Text
unfolding replace_all
quote_identifier identifier left right =
    if left == right
    then left ∷ (replace_all left (left ∷ left ∷ []) identifier ++ right ∷ [])
    else left
      ∷ (replace_all right (right ∷ right ∷ []) (replace_all left (left ∷ left ∷ []) identifier)
          ++ right ∷ [])

abbrev lower_char : ℕ → ℕ
lower_char c = if leb b'A' c && leb c b'Z' then c + 32 else c

-- `text.toLowerCase()` as far as a comparison with ASCII words needs it, for a text in which the
-- Kelvin sign, which is no `k`, does not stand.
unfoldable pub lower : Text → Text
lower [] = []
lower (c ∷ cs) = lower_char c ∷ lower cs

unfoldable pub includes : Text → Text → Bool
includes [] part = starts_with [] part
includes (c ∷ cs) part = starts_with (c ∷ cs) part || includes cs part

unfoldable pub is_among : Text → List Text → Bool
is_among text [] = false
is_among text (word ∷ words) = text_eq word text || is_among text words

-- The argument `force`, and whether the option `quoteIdentifiers` is another value than false.
pub record QuoteOptions : Type 0 where
  pub force : Bool
  pub quote_identifiers : Bool

abbrev needs_quotes : QuoteOptions → List Text → Text → Bool
needs_quotes options reserved identifier =
    options.force
    || (options.quote_identifiers
        || (includes identifier (codes ".")
            || (includes identifier (codes "->") || is_among (lower identifier) reserved)))

-- Only the query generators of postgres and snowflake look at the option.
unfoldable pub is_quoted : QuoteOptions → Dialect → Text → Bool
unfolding includes is_among lower postgres_reserved_words snowflake_reserved_words
is_quoted options (postgres _) identifier = needs_quotes options postgres_reserved_words identifier
is_quoted options snowflake identifier = needs_quotes options snowflake_reserved_words identifier
is_quoted options _ identifier = true

-- `queryGenerator.quoteIdentifier`, for a dialect.
unfoldable pub quote_identifier_for : QuoteOptions → Dialect → Text → Text
unfolding quote_identifier is_quoted
quote_identifier_for options d identifier =
    if is_quoted options d identifier
    then quote_identifier identifier (tick_char_left d) (tick_char_right d)
    else identifier
