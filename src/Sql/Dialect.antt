-- ===== src/Sql/Dialect.antt =====
-- What the dialects say of identifiers and strings: packages/*/src/dialect.ts, and the defaults of
-- packages/core/src/abstract-dialect/dialect.ts.
use sequelize.Base.{ℕ, Bool, true, false, not, [], codes}
use sequelize.Sql.Collector.{Collector, unspecified_ordered, specified_ordered, named_param}

-- Postgres has the option `standardConformingStrings`; the argument says whether it is not `false`.
pub data Dialect : Type 0 where
  db2 ibmi mariadb mssql mysql snowflake sqlite3 turso : Dialect
  postgres : (standard_conforming_strings : Bool) → Dialect

-- `TICK_CHAR_LEFT`, the start of `identifierDelimiter`.
unfoldable pub tick_char_left : Dialect → ℕ
tick_char_left mssql = b'['
tick_char_left mariadb = 96
tick_char_left mysql = 96
tick_char_left sqlite3 = 96
tick_char_left turso = 96
tick_char_left _ = 34

-- `TICK_CHAR_RIGHT`, its end.
unfoldable pub tick_char_right : Dialect → ℕ
tick_char_right mssql = b']'
tick_char_right mariadb = 96
tick_char_right mysql = 96
tick_char_right sqlite3 = 96
tick_char_right turso = 96
tick_char_right _ = 34

unfoldable pub can_backslash_escape : Dialect → Bool
can_backslash_escape mariadb = true
can_backslash_escape mysql = true
can_backslash_escape (postgres standard) = not standard
can_backslash_escape _ = false

-- `supports.escapeStringConstants`.
unfoldable pub supports_escape_string_constants : Dialect → Bool
supports_escape_string_constants (postgres _) = true
supports_escape_string_constants _ = false

unfoldable pub create_bind_collector : Dialect → Collector
create_bind_collector mssql = named_param (codes "@")
create_bind_collector sqlite3 = named_param (codes "$")
create_bind_collector turso = named_param (codes "$")
create_bind_collector (postgres _) = specified_ordered (codes "$") []
create_bind_collector _ = unspecified_ordered (codes "?") []
