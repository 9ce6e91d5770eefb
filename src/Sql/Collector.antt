-- ===== src/Sql/Collector.antt =====
-- The bind collectors of packages/core/src/utils/sql.ts. A collector is its closure: the array that
-- it pushes to, and the text it was made with.

use sequelize.Base.{
  ℕ, suc, ◌+◌, true, false, Option, none, some, List, [], ◌∷◌, ◌++◌, Text, text_eq, length,
}
use sequelize.Base.Decimal.{decimal}

pub data Collector : Type 0 where
  unspecified_ordered : (token : Text) (parameter_order : List Text) → Collector
  specified_ordered : (prefix : Text) (parameter_order : List Text) → Collector
  named_param : (prefix : Text) → Collector

-- `parameterOrder.indexOf(name)`, `none` for -1.
unfoldable pub index_of : Text → List Text → Option ℕ
index_of name [] = none
index_of name (n ∷ ns) = elim (text_eq n name) [
  | true ↦ some 0
  | false ↦ elim (index_of name ns) [ none ↦ none | some i ↦ some (suc i) ]
]

abbrev collect_at : Text → Text → List Text → Option ℕ → Text × Collector
collect_at name prefix order none =
    (prefix ++ decimal (length order + 1), specified_ordered prefix (order ++ name ∷ []))
collect_at name prefix order (some i) = (prefix ++ decimal (i + 1), specified_ordered prefix order)

-- `collect`: the text to write, and the collector as the call leaves it.
unfoldable pub collect : Text → Collector → Text × Collector
unfolding index_of
collect name (unspecified_ordered token order) =
    (token, unspecified_ordered token (order ++ name ∷ []))
collect name (specified_ordered prefix order) = collect_at name prefix order (index_of name order)
collect name (named_param prefix) = (prefix ++ name, named_param prefix)

-- `getBindParameterOrder`; `none` is `null`.
abbrev pub get_bind_parameter_order : Collector → Option (List Text)
get_bind_parameter_order (unspecified_ordered token order) = some order
get_bind_parameter_order (specified_ordered prefix order) = some order
get_bind_parameter_order (named_param prefix) = none
