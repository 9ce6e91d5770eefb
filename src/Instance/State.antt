-- ===== src/Instance/State.antt =====
-- What `set`, `get`, `changed` and `previous` of packages/core/src/model.js read and write.
use sequelize.Base.{
  ℕ, Bool, false, Option, none, some, List, [], ◌∷◌, if◌then◌else◌, Text, Result, ok, throw,
}
use sequelize.Sql.Binds.{Entries, set_key}
use sequelize.Instance.Value.{Value, at, has, insert_name, delete_name}

-- `options.include` is given exactly if `include_names` is.
pub record Instance : Type 0 where
  pub model : ℕ
  pub data_values : Entries Value
  pub previous_data_values : Entries Value
  pub changed_names : List Text
  pub is_new_record : Bool
  pub include_names : Option (List Text)
  pub selected : Option (List Text)

-- A method that changes the instance may throw, with the changes that it has made.
abbrev pub Outcome : Type 0
Outcome = Result ℕ Unit × Instance

abbrev pub done : Instance → Outcome
done i = (ok tt, i)

infixl 5 ◌and_then◌
abbrev pub ◌and_then◌ : Outcome → (Instance → Outcome) → Outcome
◌and_then◌ (ok u, i) next = next i
◌and_then◌ (throw e, i) next = (throw e, i)

-- An `AbstractDataType`: `sanitize` may throw.
pub record TypeClass : Type 0 where
  pub sanitize : Value → Result ℕ Value
  pub are_values_equal : Value → Value → Bool

-- `type` is missing where it is no `AbstractDataType`.
pub record Attribute : Type 0 where
  pub type : Option TypeClass
  pub setter : Option (Value → Text → Instance → Outcome)
  pub getter : Option (Instance → Value)

pub record Definition : Type 0 where
  pub attribute : Text → Option Attribute
  pub primary_keys : List Text
  pub is_read_only : Text → Bool
  pub is_json : Text → Bool
  pub virtual_names : List Text
  pub with_getters : List Text
  pub has_dates : Bool
  pub has_booleans : Bool

-- `isEqual` is of lodash, `get` and `set` for a path are of Dottie. `include_value` is what
-- `_setInclude` makes of a value, which builds other models, and nothing where no attribute of the
-- include is asked for; `plain_value` is `get` on the instances that it made.
pub record Library : Type 0 where
  pub is_equal : Value → Value → Bool
  pub dottie_get : Entries Value → Text → Value
  pub dottie_set : Entries Value → Text → Value → Entries Value
  pub include_value : Text → Value → Option Value
  pub plain_value : Value → Value

abbrev pub includes : Option (List Text) → Text → Bool
includes none key = false
includes (some names) key = has key names

abbrev pub with_data : Entries Value → Instance → Instance
with_data values i = record i { data_values = values }

abbrev pub write : Text → Value → Instance → Instance
write key value i = record i { data_values = set_key key value i.data_values }

abbrev pub remember : Text → Value → Instance → Instance
remember key value i = record i { previous_data_values = set_key key value i.previous_data_values }

-- `changed(key, true)`, `changed(key, false)`, `changed(key)` and `changed()`, which is `false` for none.
unfoldable pub flag : Text → Instance → Instance
unfolding insert_name
flag key i = record i { changed_names = insert_name key i.changed_names }

unfoldable pub unflag : Text → Instance → Instance
unfolding delete_name
unflag key i = record i { changed_names = delete_name key i.changed_names }

unfoldable pub is_changed : Text → Instance → Bool
unfolding has
is_changed key i = has key i.changed_names

unfoldable pub all_changed : Instance → Option (List Text)
all_changed i = names i.changed_names
  where
    names : List Text → Option (List Text)
    names [] = none
    names (key ∷ rest) = some (key ∷ rest)

unfoldable pub previous : Text → Instance → Value
previous key i = at i.previous_data_values key

abbrev changed_only : Instance → Entries Value → Entries Value
changed_only i [] = []
changed_only i ((key, value) ∷ entries) =
    let rest = changed_only i entries in
    if has key i.changed_names then (key, value) ∷ rest else rest

-- `previous()`.
unfoldable pub all_previous : Instance → Entries Value
all_previous i = changed_only i i.previous_data_values

unfoldable pub get_data_value : Text → Instance → Value
get_data_value key i = at i.data_values key
