-- ===== src/Instance/Set.antt =====
-- `set`, `setDataValue` and `_setInclude` of packages/core/src/model.js.
use sequelize.Base.{
  ℕ, Bool, true, false, not, ◌&&◌, ◌||◌, Option, none, some, List, [], ◌∷◌, if◌then◌else◌, Text,
  ◌==◌, Result, ok, throw,
}
use sequelize.Sql.Binds.{Entries, spread}
use sequelize.Instance.Value.{Value, undefined, at, has, is_nullish, is_expression, is_truthy}
use sequelize.Instance.State.{
  Instance, Attribute, TypeClass, Definition, Library, Outcome, done, ◌and_then◌, includes,
  with_data, write, remember, flag, unflag,
}

pub record SetOptions : Type 0 where
  pub raw : Bool
  pub reset : Bool
  pub comes_from_database : Bool
  pub attributes : Option (List Text)

abbrev pub type_of : Option Attribute → Option TypeClass
type_of none = none
type_of (some attribute) = attribute.type

abbrev pub setter_of : Option Attribute → Option (Value → Text → Instance → Outcome)
setter_of none = none
setter_of (some attribute) = attribute.setter

-- `key.includes('.')` and `key.split('.')[0]`.
unfoldable pub has_dot : Text → Bool
has_dot [] = false
has_dot (c ∷ key) = c == 46 || has_dot key

unfoldable pub root_of : Text → Text
root_of [] = []
root_of (c ∷ key) = let rest = root_of key in if c == 46 then [] else c ∷ rest

-- `_previousDataValues[key] = originalValue` and `changed(key, true)`.
abbrev pub track : Text → Value → Instance → Instance
track key original i = flag key (remember key original i)

module _ (library : Library) (definition : Definition) where
  unfoldable pub set_data_value : Text → Value → Instance → Instance
  unfolding flag
  set_data_value key value i =
      write key value
        (if library.is_equal value (at i.previous_data_values key) then i else flag key i)

  -- Whether `value` is the same as `original` for an attribute of the type.
  abbrev pub is_same_value : Option TypeClass → Value → Value → Bool
  is_same_value none value original = library.is_equal value original
  is_same_value (some type) value original =
      if is_nullish value
      then library.is_equal value original
      else type.are_values_equal value original

  abbrev pub sanitized : Option TypeClass → Bool → Value → Result ℕ Value
  sanitized none comes_from_database value = ok value
  sanitized (some type) comes_from_database value =
      if comes_from_database || (is_nullish value || is_expression value)
      then ok value
      else type.sanitize value

  -- The last part of `set`, after the value is sanitized.
  unfoldable pub store_value : Option TypeClass → Bool → Text → Value → Value → Instance → Instance
  unfolding flag
  store_value type raw key original value i = write key value (
      if not raw && (is_expression value || not (is_same_value type value original))
      then track key original i
      else i)

  abbrev pub store_sanitized :
      Result ℕ Value → Option TypeClass → Bool → Text → Value → Instance → Outcome
  store_sanitized (throw e) type raw key original i = (throw e, i)
  store_sanitized (ok value) type raw key original i =
      done (store_value type raw key original value i)

  -- A key that is no attribute.
  unfoldable pub set_nested : Text → Value → Instance → Instance
  unfolding has_dot root_of flag
  set_nested key value i =
      if has_dot key && definition.is_json (root_of key)
      then (if library.is_equal (library.dottie_get i.data_values key) value
          then i
          else flag (root_of key) (with_data (library.dottie_set i.data_values key value) i))
      else i

  abbrev pub written_include : Option Value → Text → Instance → Instance
  written_include none key i = i
  written_include (some value) key i = write key value i

  abbrev pub set_include : Text → Value → Instance → Instance
  set_include key value i = written_include (library.include_value key value) key i

  abbrev pub noticed : Text → Value → Instance → Instance
  noticed key original i =
      if library.is_equal (at i.data_values key) original then i else track key original i

  -- `set` of an attribute whose value is stored.
  abbrev pub set_stored : Option Attribute → SetOptions → Text → Value → Value → Instance → Outcome
  set_stored attribute options key original value i =
      store_sanitized (sanitized (type_of attribute) options.comes_from_database value)
        (type_of attribute) options.raw key original i

  -- An attribute that may not be set: a primary key that has a value, or a read-only attribute of a row.
  abbrev pub is_fixed : Text → Instance → Bool
  is_fixed key i =
      (is_truthy (at i.data_values key) && has key definition.primary_keys)
      || (not i.is_new_record && definition.is_read_only key)

  abbrev pub set_plain : Option Attribute → SetOptions → Text → Value → Instance → Outcome
  set_plain none options key value i = done (set_nested key value i)
  set_plain (some attribute) options key value i =
      if is_fixed key i
      then done i
      else set_stored (some attribute) options key (at i.data_values key) value i

  abbrev pub set_with :
      Option (Value → Text → Instance → Outcome) → SetOptions → Text → Value → Instance → Outcome
  set_with (some setter) options key value i =
      setter value key i and_then λ i'. done (noticed key (at i.data_values key) i')
  set_with none options key value i =
      if includes i.include_names key
      then done (set_include key value i)
      else set_plain (definition.attribute key) options key value i

  abbrev pub set_raw : SetOptions → Text → Value → Instance → Outcome
  set_raw options key value i =
      if includes i.include_names key
      then done (set_include key value i)
      else set_stored (definition.attribute key) options key undefined value i

  -- `set` with a string.
  unfoldable pub set_one : SetOptions → Text → Value → Instance → Outcome
  unfolding store_value set_nested
  set_one options key value i =
      if options.raw
      then set_raw options key value i
      else set_with (setter_of (definition.attribute key)) options key value i

  unfoldable pub set_each : SetOptions → Entries Value → Instance → Outcome
  unfolding set_one
  set_each options [] i = done i
  set_each options ((key, value) ∷ entries) i =
      set_one options key value i and_then set_each options entries

  abbrev pub set_given : SetOptions → Text → Value → Instance → Outcome
  set_given options key undefined i = done i
  set_given options key value i = set_one options key value i

  -- `setKeys`.
  unfoldable pub set_keys : SetOptions → Entries Value → List Text → Instance → Outcome
  unfolding set_one
  set_keys options values [] i = done i
  set_keys options values (key ∷ keys) i =
      set_given options key (at values key) i and_then set_keys options values keys

  abbrev names_of : Option (List Text) → List Text
  names_of none = []
  names_of (some names) = names

  abbrev pub set_selected : Option (List Text) → SetOptions → Entries Value → Instance → Outcome
  set_selected none options values i = set_each options values i
  set_selected (some names) options values i =
      set_keys options values names i
      and_then set_keys options values definition.virtual_names
      and_then set_keys options values (names_of i.include_names)

  unfoldable pub unflag_each : Entries Value → Instance → Instance
  unfolding unflag
  unflag_each [] i = i
  unflag_each ((key, value) ∷ entries) i = unflag_each entries (unflag key i)

  abbrev pub remember_all : Instance → Instance
  remember_all i = record i { previous_data_values = i.data_values }

  abbrev pub assigned : Entries Value → Entries Value → Entries Value
  assigned [] values = values
  assigned (entry ∷ entries) values = spread (entry ∷ entries) values

  abbrev is_given : {A : Type 0} → Option A → Bool
  is_given none = false
  is_given (some a) = true

  abbrev pub is_simple : SetOptions → Instance → Bool
  is_simple options i =
      (options.raw && not (is_given i.include_names))
      && (not (is_given options.attributes)
          && not (definition.has_dates || definition.has_booleans))

  abbrev pub begin_set : SetOptions → Entries Value → Instance → Instance
  begin_set options values i = if options.reset then unflag_each values (with_data [] i) else i

  abbrev pub end_set : SetOptions → Instance → Outcome
  end_set options i = done (if options.raw then remember_all i else i)

  abbrev pub set_started : SetOptions → Entries Value → Instance → Outcome
  set_started options values i =
      if is_simple options i
      then done (remember_all (with_data (assigned i.data_values values) i))
      else set_selected options.attributes options values i and_then end_set options

  -- `set` with an object.
  unfoldable pub set_values : SetOptions → Entries Value → Instance → Outcome
  unfolding set_each set_keys unflag_each
  set_values options values i = set_started options values (begin_set options values i)
