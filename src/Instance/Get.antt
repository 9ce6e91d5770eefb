-- ===== src/Instance/Get.antt =====
-- `get` and `equals` of packages/core/src/model.js.
use sequelize.Base.{
  ℕ, sym, ◌∙◌, ◌↔◌, All, Bool, true, false, ◌&&◌, ◌||◌, Option, none, some, List, [], ◌∷◌,
  if◌then◌else◌, Text, ◌==◌, ==_refl, ◌≡◌, refl,
}
use sequelize.Sql.Binds.{Entries, get, set_key}
use sequelize.Instance.Value.{Value, at, same, same_iff}
use sequelize.Instance.State.{Instance, Attribute, Definition, Library, includes}

pub record GetOptions : Type 0 where
  pub raw : Bool
  pub plain : Bool
  pub clone : Bool

abbrev pub raw_only : GetOptions
raw_only = record { raw = true; plain = false; clone = false }

abbrev getter_of : Option Attribute → Bool → Option (Instance → Value)
getter_of none raw = none
getter_of (some attribute) true = none
getter_of (some attribute) false = attribute.getter

abbrev is_present : {A : Type 0} → Option A → Bool
is_present none = false
is_present (some a) = true

and_true : (a b : Bool) → (a && b) ≡ true → (a ≡ true) × (b ≡ true)
and_true true b h = (refl, h)
and_true false b h = cc

both_true : (a b : Bool) → (a ≡ true → b ≡ true) → (b ≡ true → a ≡ true) → a ≡ b
both_true true b f g = sym (f refl)
both_true false true f g = g refl
both_true false false f g = refl

module _ (library : Library) (definition : Definition) where
  abbrev read : Option (Instance → Value) → Text → GetOptions → Instance → Value
  read (some getter) key options i = getter i
  read none key options i =
      if options.plain && includes i.include_names key
      then library.plain_value (at i.data_values key)
      else at i.data_values key

  -- `get` of one attribute.
  unfoldable pub get_one : Text → GetOptions → Instance → Value
  get_one key options i = read (getter_of (definition.attribute key) options.raw) key options i

  abbrev selected_getters : Instance → List Text → List Text
  selected_getters i [] = []
  selected_getters i (name ∷ names) =
      let rest = selected_getters i names in if includes i.selected name then name ∷ rest else rest

  abbrev add_getters : List Text → GetOptions → Instance → Entries Value → Entries Value
  add_getters [] options i values = values
  add_getters (name ∷ names) options i values =
      add_getters names options i (set_key name (get_one name options i) values)

  abbrev add_if_new : Option Value → Text → Value → Entries Value → Entries Value
  add_if_new none key value values = set_key key value values
  add_if_new (some v) key value values = values

  abbrev add_values : Entries Value → GetOptions → Instance → Entries Value → Entries Value
  add_values [] options i values = values
  add_values ((key, v) ∷ entries) options i values =
      add_values entries options i (add_if_new (get key values) key (get_one key options i) values)

  abbrev is_nonempty : List Text → Bool
  is_nonempty [] = false
  is_nonempty (name ∷ names) = true

  -- `get` of all values.
  unfoldable pub get_all : GetOptions → Instance → Entries Value
  unfolding get_one
  get_all options i =
      if is_nonempty definition.with_getters
        || ((options.plain && is_present i.include_names) || options.clone)
      then add_values i.data_values options i
          (add_getters (selected_getters i definition.with_getters) options i [])
      else i.data_values

-- A model is a number, and `definitions` gives the definition of each.
module _ (library : Library) (definitions : ℕ → Definition) where
  abbrev get_raw : Text → Instance → Value
  get_raw key i = get_one library (definitions i.model) key raw_only i

  abbrev all_same : List Text → Instance → Instance → Bool
  all_same [] i other = true
  all_same (key ∷ keys) i other = same (get_raw key i) (get_raw key other) && all_same keys i other

  -- `equals` of two instances: `otherModelDefinition` is the definition of `this`, too.
  unfoldable pub equals : Instance → Instance → Bool
  unfolding get_one
  equals i other =
      let model_definition = i.model in
      let other_model_definition = i.model in
      model_definition == other_model_definition
      && all_same (definitions i.model).primary_keys i other

  unfoldable pub equals_one_of : Instance → List Instance → Bool
  unfolding equals
  equals_one_of i [] = false
  equals_one_of i (other ∷ others) = equals i other || equals_one_of i others

  get_raw-eq : (key : Text) (i : Instance) → get_raw key i ≡ at i.data_values key
  unfolding get_one
  get_raw-eq key i = go ((definitions i.model).attribute key)
    where
      go :
          (a : Option Attribute)
          → read library (definitions i.model) (getter_of a true) key raw_only i
            ≡ at i.data_values key
      go none = refl
      go (some attribute) = refl

  -- Two instances have the same values of some attributes.
  abbrev pub HasSame : Instance → Instance → List Text → Type 0
  HasSame i other = All (λ key. at i.data_values key ≡ at other.data_values key)

  all_same_iff :
      (keys : List Text) (i other : Instance)
      → (all_same keys i other ≡ true) ↔ HasSame i other keys
  all_same_iff [] i other = (λ h. tt, λ h. refl)
  all_same_iff (key ∷ keys) i other = (
    λ h.
        let (first, rest) = and_true _ _ h in
        (
          sym (get_raw-eq key i) ∙ (same_iff _ _).0 first ∙ get_raw-eq key other,
          (all_same_iff keys i other).0 rest,
        ),
    λ (p, rest).
        rw
          (
            (same_iff _ _).1 (get_raw-eq key i ∙ p ∙ sym (get_raw-eq key other)),
            (all_same_iff keys i other).1 rest,
          )
          refl,
  )

  pub equals_iff :
      (i other : Instance)
      → (equals i other ≡ true) ↔ HasSame i other (definitions i.model).primary_keys
  unfolding equals
  equals_iff i other =
      rw (==_refl i.model) (all_same_iff (definitions i.model).primary_keys i other)

  -- `equals` does not look at the model of the other instance: it is true exactly if the two have the
  -- same value of each primary key of the model of the receiver, and it stays what it is with an
  -- instance of any other model in place of the other one that has the same values.
  pub equals_ignores_model :
      (i other : Instance)
      → ((equals i other ≡ true) ↔ HasSame i other (definitions i.model).primary_keys)
        × ((m : ℕ) → equals i (record other { model = m }) ≡ equals i other)
  equals_ignores_model i other = (equals_iff i other, same_answer)
    where
      same_answer : (m : ℕ) → equals i (record other { model = m }) ≡ equals i other
      same_answer m =
          both_true (equals i (record other { model = m })) (equals i other)
            (λ h. (equals_iff i other).1 ((equals_iff i (record other { model = m })).0 h))
            (λ h. (equals_iff i (record other { model = m })).1 ((equals_iff i other).0 h))
