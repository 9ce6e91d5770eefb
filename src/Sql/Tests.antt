-- ===== src/Sql/Tests.antt =====
-- Runs of packages/core/src/utils/sql.ts on concrete queries, and its theorems at concrete inputs.
use sequelize.Base.{
  inl, inr, List, ℕ, ◌≡◌, ◌≢◌, refl, true, false, some, none, [], ◌∷◌, ◌++◌, ◌+◌, codes, Text,
  text_eq, get_elem?, if◌then◌else◌, Result, ok, throw,
}
use sequelize.Base.Decimal.{decimal}
use sequelize.Sql.Chars.{dollar, dollar_tag, bind_name}
use sequelize.Sql.Collector.{named_param, specified_ordered, collect}
use sequelize.Sql.Dialect.{
  Dialect, postgres, mssql, sqlite3, db2, tick_char_left, tick_char_right, create_bind_collector,
  can_backslash_escape, supports_escape_string_constants,
}
use sequelize.Sql.Scan.{
  Scan, ScanError, binds, start, unterminated_string, open_string, in_single_line_comment,
  in_string, at_dollar, add_name, opens_escapable,
}
use sequelize.Sql.Reserved.{postgres_reserved_words}
use sequelize.Sql.Escape.{
  escape_string, includes, is_among, lower, QuoteOptions, is_quoted, quote_identifier_for,
}
use sequelize.Sql.Loop.{
  MappedSql, map_bind_parameters, step, in_sql, at_replacement, loop, no_values,
}
use sequelize.Sql.Loop.Faithful.{map_bind_parameters-sql}
use sequelize.Sql.Loop.Containment.{IsPlain, back}
use sequelize.Sql.Loop.Quoting.{loop-escape_string}
use sequelize.Sql.Loop.Identifiers.{
  loop-quote_identifier_for, mssql_bracket_escapes, HasNoBracket, bracketed,
}
use sequelize.Sql.Loop.DollarStrings.{lone_dollar_ends_string, HasNoDollar}
use sequelize.Sql.Loop.Queries.{IsOrdinary, IsQuery, first_met}
use sequelize.Sql.Loop.Parameters.{map_bind_parameters-bind_order}
use sequelize.Sql.Loop.Order.{collect-position}
use sequelize.Sql.Binds.{
  Bind, object, Generator, assert_no_reserved_bind, combine_binds, generate, get, bind_name_of,
}
use sequelize.Sql.Binds.Laws.{
  get-combine_binds, generate_fresh, Generated, is_reserved, named_entries,
}

abbrev query : Text
query = codes "SELECT $a, ($b) FROM \"$x\" WHERE c = $a::int -- $q"

abbrev mapped : MappedSql
mapped = record {
  sql = codes "SELECT $1, ($2) FROM \"$x\" WHERE c = $1::int -- $q";
  bind_order = some (codes "a" ∷ codes "b" ∷ []);
  parameter_set = codes "a" ∷ codes "b" ∷ [];
}

postgres_run : map_bind_parameters (postgres true) query ≡ ok mapped
unfolding map_bind_parameters start step in_sql tick_char_left at_replacement at_dollar dollar_tag
    bind_name tick_char_right in_single_line_comment collect create_bind_collector decimal
postgres_run = refl

unterminated_run :
    map_bind_parameters (postgres true) (codes "SELECT 'a") ≡ throw unterminated_string
unfolding map_bind_parameters start step in_sql tick_char_left in_string create_bind_collector
    opens_escapable supports_escape_string_constants can_backslash_escape at_replacement open_string
unterminated_run = refl

sqlite3_names : create_bind_collector sqlite3 ≡ named_param (codes "$")
unfolding create_bind_collector
sqlite3_names = refl

abbrev call : Text
call = codes "f($a,$b,$a)"

abbrev call_names : List Text
call_names = codes "a" ∷ codes "b" ∷ codes "a" ∷ []

abbrev ordinary_comma : IsOrdinary b','
ordinary_comma = (refl, refl, refl, refl, refl)

call-IsQuery : IsQuery [] call call_names
call-IsQuery =
    IsQuery.char (refl, refl, refl, refl, refl)
      (IsQuery.char (refl, refl, refl, refl, refl)
        (IsQuery.parameter {name = codes "a"} (inr (inl refl)) (refl, tt) (inr (inr (inl refl)))
          (IsQuery.char ordinary_comma (
            IsQuery.parameter {name = codes "b"} (inr (inr (inl refl))) (refl, tt)
              (inr (inr (inl refl)))
              (IsQuery.char ordinary_comma (
                IsQuery.parameter {name = codes "a"} (inr (inr (inl refl))) (refl, tt)
                  (inr (inl refl)) (IsQuery.char (refl, refl, refl, refl, refl) IsQuery.end)))))))

map_bind_parameters-bind_order_example :
    (m : MappedSql) × (map_bind_parameters (postgres true) call ≡ ok m)
    × (m.bind_order ≡ some (first_met [] call_names))
    × (m.parameter_set ≡ first_met [] call_names)
map_bind_parameters-bind_order_example =
    map_bind_parameters-bind_order true call call_names call-IsQuery

call_names_run : first_met [] call_names ≡ codes "a" ∷ codes "b" ∷ []
unfolding first_met is_among
call_names_run = refl

map_bind_parameters-sql_example :
    (t : Scan) × (loop no_values sqlite3 false binds [] query (start (named_param (codes "$")))
      ≡ ok t)
    × (map_bind_parameters sqlite3 query ≡ (
        if t.is_string
        then throw unterminated_string
        else ok (record { sql = query; bind_order = none; parameter_set = t.parameter_set })))
map_bind_parameters-sql_example = map_bind_parameters-sql sqlite3 query sqlite3_names

collect-position_example :
    (i : ℕ) × (collect (codes "b") (specified_ordered (codes "$") (codes "a" ∷ codes "b" ∷ [])) ≡ (
      codes "$" ++ decimal (i + 1),
      specified_ordered (codes "$") (add_name (codes "b") (codes "a" ∷ codes "b" ∷ [])),
    ))
    × (get_elem? (add_name (codes "b") (codes "a" ∷ codes "b" ∷ [])) i ≡ some (codes "b"))
collect-position_example = collect-position (codes "$") (codes "b") (codes "a" ∷ codes "b" ∷ [])

abbrev first : Scan
unfolding start
first = start (named_param (codes "$"))

first-IsPlain : IsPlain first
unfolding start
first-IsPlain = record {
  quiet = record {
    no_tag = refl;
    no_string = refl;
    no_column = refl;
    no_single_line_comment = refl;
    no_comment_block = refl;
    no_skip = refl;
  };
  not_escapable = refl;
}

abbrev run : Dialect → Text → Text → Scan → Result ScanError Scan
run d before after s = loop no_values d false binds before after s

db2_not_postgres : db2 ≢ postgres false
db2_not_postgres = λ h. cc

db2_not_mssql : db2 ≢ mssql
db2_not_mssql = λ h. cc

db2_escapable : opens_escapable db2 [] ≡ can_backslash_escape db2
unfolding opens_escapable can_backslash_escape supports_escape_string_constants
db2_escapable = refl

loop-escape_string_example :
    run db2 [] (escape_string db2 (codes "it's $a") ++ codes " = $b") first
    ≡ run db2 (back [] (escape_string db2 (codes "it's $a"))) (codes " = $b") first
loop-escape_string_example =
    loop-escape_string no_values false binds db2 first first-IsPlain [] (codes "it's $a")
      (codes " = $b") db2_not_postgres db2_escapable

abbrev unforced : QuoteOptions
unforced = record { force = false; quote_identifiers = false }

-- Under `quoteIdentifiers: false` a reserved identifier is quoted, and another is not.
unquoted_run : quote_identifier_for unforced (postgres true) (codes "a$b") ≡ codes "a$b"
unfolding quote_identifier_for includes is_among lower postgres_reserved_words
unquoted_run = refl

reserved_run : is_quoted unforced (postgres true) (codes "Select") ≡ true
unfolding is_quoted includes is_among lower postgres_reserved_words
reserved_run = refl

loop-quote_identifier_for_example :
    run db2 [] (quote_identifier_for unforced db2 (codes "a\"$b") ++ codes " = $b") first
    ≡ run db2 (back [] (quote_identifier_for unforced db2 (codes "a\"$b"))) (codes " = $b") first
loop-quote_identifier_for_example =
    loop-quote_identifier_for no_values false binds unforced db2 first first-IsPlain []
      (codes "a\"$b") (codes " = $b") db2_not_mssql (unfold is_quoted in refl)

mssql_bracket_escapes_example :
    run mssql []
      (quote_identifier_for unforced mssql (codes "a" ++ b']' ∷ codes "$b") ++ codes " = 1")
      first
    ≡ run mssql
        (b']' ∷ b']' ∷ back (b'[' ∷ []) (bracketed (codes "a")))
        ((bracketed (codes "$b") ++ b']' ∷ []) ++ codes " = 1")
        first
mssql_bracket_escapes_example =
    mssql_bracket_escapes no_values false binds first first-IsPlain unforced [] (codes "a")
      (codes "$b") (codes " = 1") (HasNoBracket.char refl HasNoBracket.done)

no_tag : dollar_tag (codes " $x") ≡ none
unfolding dollar_tag
no_tag = refl

lone_dollar_ends_string_example :
    run (postgres true) (codes " ") (dollar ∷ dollar ∷ (codes "a" ++ dollar ∷ codes " $x")) first
    ≡ run
        (postgres true)
        (dollar ∷ back (dollar ∷ dollar ∷ codes " ") (codes "a"))
        (codes " $x")
        first
lone_dollar_ends_string_example =
    lone_dollar_ends_string no_values (postgres true) false binds first first-IsPlain (codes " ")
      (codes "a") (codes " $x") refl (HasNoDollar.char refl HasNoDollar.done) no_tag

abbrev user_bind : Bind ℕ
user_bind = object ((codes "name", 1) ∷ [])

accepted_bind : assert_no_reserved_bind user_bind ≡ ok tt
unfolding assert_no_reserved_bind
accepted_bind = refl

abbrev empty : Generator ℕ
empty = record { i = 0; bind = [] }

get-combine_binds_example :
    get (codes "name") (combine_binds user_bind (generate 5 empty).1.bind) ≡ (
      if is_reserved (codes "name")
      then get (codes "name") (generate 5 empty).1.bind
      else get (codes "name") (named_entries user_bind))
get-combine_binds_example =
    get-combine_binds user_bind (generate 5 empty).1 (codes "name") accepted_bind
      (Generated.more 5 Generated.fresh)

generate_fresh_example :
    (get (bind_name_of 1) empty.bind ≡ none)
    × ((generate 5 empty).0 ≡ codes "$" ++ bind_name_of 1)
    × (get (codes "name") (generate 5 empty).1.bind ≡ (
        if text_eq (bind_name_of 1) (codes "name") then some 5 else get (codes "name") empty.bind))
generate_fresh_example = generate_fresh 5 empty (codes "name") Generated.fresh
