-- ===== src/Sql/Binds.antt =====
-- Bind objects: `assertNoReservedBind`, `combineBinds`, `arrayBindToNamedBind` and
-- `createBindParamGenerator` of packages/core/src/utils/sql.ts.
-- An object is the list of its entries. Only its entries are observed, not their order, in which
-- JavaScript puts keys that look like numbers first.
pub mod Laws
use sequelize.Base.{
  ℕ, suc, ◌+◌, Bool, true, false, ◌||◌, Option, none, some, List, [], ◌∷◌, ◌++◌, Text, text_eq,
  codes, starts_with, if◌then◌else◌, Result, ok, throw,
}
use sequelize.Base.Decimal.{decimal}

abbrev pub Entries : Type 0 → Type 0
Entries V = List (Text × V)

-- `BindOrReplacements`.
pub data Bind (V : Type 0) : Type 0 where
  array : List V → Bind V
  object : Entries V → Bind V

pub data BindError : Type 0 where
  reserved_bind : BindError

module _ {V : Type 0} where
  unfoldable pub get : Text → Entries V → Option V
  get key [] = none
  get key ((k, v) ∷ entries) = if text_eq k key then some v else get key entries

  -- `bind[key] = value`.
  unfoldable pub set_key : Text → V → Entries V → Entries V
  set_key key value [] = (key, value) ∷ []
  set_key key value ((k, v) ∷ entries) =
      if text_eq k key then (k, value) ∷ entries else (k, v) ∷ set_key key value entries

  -- `{...a, ...b}`.
  unfoldable pub spread : Entries V → Entries V → Entries V
  unfolding set_key
  spread a [] = a
  spread a ((k, v) ∷ b) = spread (set_key k v a) b

  index_entries : ℕ → List V → Entries V → Entries V
  unfolding set_key
  index_entries i [] out = out
  index_entries i (v ∷ vs) out = index_entries (i + 1) vs (set_key (decimal (i + 1)) v out)

  unfoldable pub array_bind_to_named_bind : List V → Entries V
  unfolding index_entries
  array_bind_to_named_bind bind = index_entries 0 bind []

  unfoldable pub combine_binds : Bind V → Entries V → Entries V
  unfolding spread array_bind_to_named_bind
  combine_binds (array bind) b = spread (array_bind_to_named_bind bind) b
  combine_binds (object bind) b = spread bind b

  some_reserved : Entries V → Bool
  some_reserved [] = false
  some_reserved ((k, v) ∷ entries) = starts_with k (codes "sequelize_") || some_reserved entries

  unfoldable pub assert_no_reserved_bind : Bind V → Result BindError (Unit {0})
  unfolding some_reserved
  assert_no_reserved_bind (array bind) = ok tt
  assert_no_reserved_bind (object bind) = if some_reserved bind then throw reserved_bind else ok tt

abbrev pub bind_name_of : ℕ → Text
bind_name_of i = codes "sequelize_" ++ decimal i

-- The closure of `createBindParamGenerator`: its counter and the object it writes to.
pub record Generator (V : Type 0) : Type 0 where
  pub i : ℕ
  pub bind : Entries V

-- One call: the text `$sequelize_…`, and the closure as the call leaves it.
unfoldable pub generate : {V : Type 0} → V → Generator V → Text × Generator V
unfolding set_key
generate value g = (
  codes "$" ++ bind_name_of (g.i + 1),
  record { i = g.i + 1; bind = set_key (bind_name_of (g.i + 1)) value g.bind },
)
