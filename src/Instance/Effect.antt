-- ===== src/Instance/Effect.antt =====
-- What `set` of packages/core/src/model.js does to an attribute of the model.
use sequelize.Base.{
  ◌≡◌, refl, sym, ap, ◌∙◌, subst, Bool, false, not, ◌||◌, none, some, if◌then◌else◌, Text, inl, inr,
  Bool-cases, text_eq_refl, ok,
}
use sequelize.Sql.Binds.{Entries, set_key}
use sequelize.Instance.Value.{Value, at, is_expression}
use sequelize.Instance.State.{
  Instance, Definition, Library, Attribute, Outcome, done, includes, flag, remember, is_changed,
  previous, get_data_value,
}
use sequelize.Instance.Set.{
  SetOptions, type_of, setter_of, sanitized, store_value, store_sanitized, set_include, is_fixed,
  set_plain, set_raw, set_with, set_one,
}
use sequelize.Instance.Lifting.{if_false}
use sequelize.Instance.Tracking.{
  agrees, at-set_key, SameElsewhere, write-SameElsewhere, write-track-SameElsewhere,
  is_changed-flag,
}

module _ (library : Library) (definition : Definition) where
  -- Whether a value that is set makes the attribute a changed one.
  abbrev pub differs : Text → Value → Instance → Bool
  differs key v i = is_expression v || not (agrees library definition key v (at i.data_values key))

  -- The instance after `key` was set to `v`: the value is there, a value that differs from the one before
  -- marks the key and makes the one before the previous value, and the other keys are as they were.
  abbrev pub Receives : Text → Value → Instance → Instance → Type 0
  Receives key v i j =
      (get_data_value key j ≡ v)
      × (is_changed key j ≡ differs key v i || is_changed key i)
      × (previous key j ≡ (if differs key v i then get_data_value key i else previous key i))
      × SameElsewhere key i j

  abbrev stored : Text → Value → Bool → Instance → Instance
  stored key v raw i =
      store_value library definition (type_of (definition.attribute key)) raw key
        (at i.data_values key) v i

  store_value-Receives :
      (key : Text) (v : Value) (i : Instance) → Receives key v i (stored key v false i)
  unfolding store_value get_data_value is_changed previous flag
  store_value-Receives key v i = elim (Bool-cases (differs key v i)) [
    | inl y ↦ rw y (
      here key v i.data_values,
      is_changed-flag key (remember key (at i.data_values key) i),
      here key (at i.data_values key) i.previous_data_values,
      write-track-SameElsewhere key v (at i.data_values key) i,
    )
    | inr n ↦ rw n (here key v i.data_values, refl, refl, write-SameElsewhere key v i)
  ]
    where
      here : (k : Text) (x : Value) (entries : Entries Value) → at (set_key k x entries) k ≡ x
      here k x entries = at-set_key k k x entries ∙ rw (text_eq_refl k) refl

  set_one-stored :
      (options : SetOptions) (key : Text) (value v : Value) (attribute : Attribute) (i : Instance)
      → options.raw ≡ false
      → definition.attribute key ≡ some attribute
      → attribute.setter ≡ none
      → includes i.include_names key ≡ false
      → is_fixed library definition key i ≡ false
      → sanitized library definition attribute.type options.comes_from_database value ≡ ok v
      → set_one library definition options key value i ≡ done (stored key v options.raw i)
  unfolding set_one
  set_one-stored options key value v attribute i raw a s no_include free clean =
      let target = done (stored key v options.raw i) in
      if_false {A = Outcome} (λ o. o ≡ target) options.raw
        (set_raw library definition options key value i) raw
        (subst (λ f. set_with library definition f options key value i ≡ target)
          (sym (ap setter_of a ∙ s))
          (if_false {A = Outcome} (λ o. o ≡ target) (includes i.include_names key)
            (done (set_include library definition key value i)) no_include
            (subst (λ x. set_plain library definition x options key value i ≡ target) (sym a)
              (if_false {A = Outcome} (λ o. o ≡ target) (is_fixed library definition key i) (done i)
                free
                (ap
                    (λ r.
                      store_sanitized library definition r attribute.type options.raw key
                        (at i.data_values key) i)
                    clean
                  ∙ ap
                      (λ x. done (
                        store_value library definition (type_of x) options.raw key
                          (at i.data_values key) v i))
                      (sym a))))))

  -- Setting an attribute of the model that has no custom setter, is not fixed and no include, to a value
  -- that its data type accepts stores the sanitized value. If that is an SQL expression or differs from the
  -- value before, in the sense of the data type, the attribute is marked as changed and the value before
  -- becomes its previous value. Otherwise neither changes, and no other attribute does.
  pub set_one-Receives :
      (options : SetOptions) (key : Text) (value v : Value) (attribute : Attribute) (i : Instance)
      → options.raw ≡ false
      → definition.attribute key ≡ some attribute
      → attribute.setter ≡ none
      → includes i.include_names key ≡ false
      → is_fixed library definition key i ≡ false
      → sanitized library definition attribute.type options.comes_from_database value ≡ ok v
      → ((set_one library definition options key value i).0 ≡ ok tt)
        × Receives key v i (set_one library definition options key value i).1
  set_one-Receives options key value v attribute i raw a s no_include free clean =
      subst (λ o. (o.0 ≡ ok tt) × Receives key v i o.1)
        (sym (
          set_one-stored options key value v attribute i raw a s no_include free clean
          ∙ ap (λ c. done (stored key v c i)) raw))
        (refl, store_value-Receives key v i)
