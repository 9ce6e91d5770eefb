-- ===== src/Sql/Reserved.antt =====
-- The words that packages/postgres/src/query-generator.js and
-- packages/snowflake/src/query-generator.js quote whatever the option `quoteIdentifiers` is.
use sequelize.Base.{List, [], ◌∷◌, Text, codes}

unfoldable pub postgres_reserved_words : List Text
postgres_reserved_words =
    codes "all"
    ∷ codes "analyse"
    ∷ codes "analyze"
    ∷ codes "and"
    ∷ codes "any"
    ∷ codes "array"
    ∷ codes "as"
    ∷ codes "asc"
    ∷ codes "asymmetric"
    ∷ codes "authorization"
    ∷ codes "binary"
    ∷ codes "both"
    ∷ codes "case"
    ∷ codes "cast"
    ∷ codes "check"
    ∷ codes "collate"
    ∷ codes "collation"
    ∷ codes "column"
    ∷ codes "concurrently"
    ∷ codes "constraint"
    ∷ codes "create"
    ∷ codes "cross"
    ∷ codes "current_catalog"
    ∷ codes "current_date"
    ∷ codes "current_role"
    ∷ codes "current_schema"
    ∷ codes "current_time"
    ∷ codes "current_timestamp"
    ∷ codes "current_user"
    ∷ codes "default"
    ∷ codes "deferrable"
    ∷ codes "desc"
    ∷ codes "distinct"
    ∷ codes "do"
    ∷ codes "else"
    ∷ codes "end"
    ∷ codes "except"
    ∷ codes "false"
    ∷ codes "fetch"
    ∷ codes "for"
    ∷ codes "foreign"
    ∷ codes "freeze"
    ∷ codes "from"
    ∷ codes "full"
    ∷ codes "grant"
    ∷ codes "group"
    ∷ codes "having"
    ∷ codes "ilike"
    ∷ codes "in"
    ∷ codes "initially"
    ∷ codes "inner"
    ∷ codes "intersect"
    ∷ codes "into"
    ∷ codes "is"
    ∷ codes "isnull"
    ∷ codes "join"
    ∷ codes "lateral"
    ∷ codes "leading"
    ∷ codes "left"
    ∷ codes "like"
    ∷ codes "limit"
    ∷ codes "localtime"
    ∷ codes "localtimestamp"
    ∷ codes "natural"
    ∷ codes "not"
    ∷ codes "notnull"
    ∷ codes "null"
    ∷ codes "offset"
    ∷ codes "on"
    ∷ codes "only"
    ∷ codes "or"
    ∷ codes "order"
    ∷ codes "outer"
    ∷ codes "overlaps"
    ∷ codes "placing"
    ∷ codes "primary"
    ∷ codes "references"
    ∷ codes "returning"
    ∷ codes "right"
    ∷ codes "select"
    ∷ codes "session_user"
    ∷ codes "similar"
    ∷ codes "some"
    ∷ codes "symmetric"
    ∷ codes "table"
    ∷ codes "tablesample"
    ∷ codes "then"
    ∷ codes "to"
    ∷ codes "trailing"
    ∷ codes "true"
    ∷ codes "union"
    ∷ codes "unique"
    ∷ codes "user"
    ∷ codes "using"
    ∷ codes "variadic"
    ∷ codes "verbose"
    ∷ codes "when"
    ∷ codes "where"
    ∷ codes "window"
    ∷ codes "with"
    ∷ []

unfoldable pub snowflake_reserved_words : List Text
snowflake_reserved_words =
    codes "account"
    ∷ codes "all"
    ∷ codes "alter"
    ∷ codes "and"
    ∷ codes "any"
    ∷ codes "as"
    ∷ codes "between"
    ∷ codes "by"
    ∷ codes "case"
    ∷ codes "cast"
    ∷ codes "check"
    ∷ codes "column"
    ∷ codes "connect"
    ∷ codes "connections"
    ∷ codes "constraint"
    ∷ codes "create"
    ∷ codes "cross"
    ∷ codes "current"
    ∷ codes "current_date"
    ∷ codes "current_time"
    ∷ codes "current_timestamp"
    ∷ codes "current_user"
    ∷ codes "database"
    ∷ codes "delete"
    ∷ codes "distinct"
    ∷ codes "drop"
    ∷ codes "else"
    ∷ codes "exists"
    ∷ codes "false"
    ∷ codes "following"
    ∷ codes "for"
    ∷ codes "from"
    ∷ codes "full"
    ∷ codes "grant"
    ∷ codes "group"
    ∷ codes "gscluster"
    ∷ codes "having"
    ∷ codes "ilike"
    ∷ codes "in"
    ∷ codes "increment"
    ∷ codes "inner"
    ∷ codes "insert"
    ∷ codes "intersect"
    ∷ codes "into"
    ∷ codes "is"
    ∷ codes "issue"
    ∷ codes "join"
    ∷ codes "lateral"
    ∷ codes "left"
    ∷ codes "like"
    ∷ codes "localtime"
    ∷ codes "localtimestamp"
    ∷ codes "minus"
    ∷ codes "natural"
    ∷ codes "not"
    ∷ codes "null"
    ∷ codes "of"
    ∷ codes "on"
    ∷ codes "or"
    ∷ codes "order"
    ∷ codes "organization"
    ∷ codes "qualify"
    ∷ codes "regexp"
    ∷ codes "revoke"
    ∷ codes "right"
    ∷ codes "rlike"
    ∷ codes "row"
    ∷ codes "rows"
    ∷ codes "sample"
    ∷ codes "schema"
    ∷ codes "select"
    ∷ codes "set"
    ∷ codes "some"
    ∷ codes "start"
    ∷ codes "table"
    ∷ codes "tablesample"
    ∷ codes "then"
    ∷ codes "to"
    ∷ codes "trigger"
    ∷ codes "true"
    ∷ codes "try_cast"
    ∷ codes "union"
    ∷ codes "unique"
    ∷ codes "update"
    ∷ codes "using"
    ∷ codes "values"
    ∷ codes "view"
    ∷ codes "when"
    ∷ codes "whenever"
    ∷ codes "where"
    ∷ codes "with"
    ∷ []
