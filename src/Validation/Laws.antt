-- ===== src/Validation/Laws.antt =====
-- When the validation of an instance succeeds: packages/core/src/instance-validator.js.
use sequelize.Base.{
  ◌≡◌, refl, sym, ap, ◌∙◌, Bool, true, false, not, ◌&&◌, ◌||◌, Option, none, some, List, [], ◌∷◌,
  ◌++◌, if◌then◌else◌, Text, ok, inl, inr, Bool-cases,
}
use sequelize.Instance.Value.{Value, is_nullish, is_expression, has}
use sequelize.Validation.Checks.{
  RawError, Item, Attribute, Test, custom, builtin, ModelTest, item_of, builtin_errors, test_errors,
  each_test, single_errors, allows, forbids, has_owner, null_item, null_errors, list_of,
  type_errors, schema_errors, attribute_errors, per_attribute_errors, model_test_errors,
  custom_errors,
}
use sequelize.Validation.Validator.{
  Problem, validation_error, Model, all_errors, raise_all, run_checks, validate_and_run_hooks,
  after_checks, after_before, after_failure, hooked,
}

abbrev pub no_items : {A : Type 0} → List A → Bool
no_items [] = true
no_items (i ∷ items) = false

abbrev pub is_none : {A : Type 0} → Option A → Bool
is_none none = true
is_none (some a) = false

no_items-append : (a b : List Item) → no_items (a ++ b) ≡ no_items a && no_items b
no_items-append [] b = refl
no_items-append (i ∷ a) b = refl

-- What a valid instance is, without lists of errors.
unfoldable pub passes : Text × Test → Value → Bool
passes (type, custom test) value = is_none (test value)
passes (type, builtin none message) value = is_nullish value
passes (type, builtin (some test) message) value = is_nullish value || test value

unfoldable pub passes_all : List (Text × Test) → Value → Bool
unfolding passes
passes_all [] value = true
passes_all (test ∷ tests) value = passes test value && passes_all tests value

abbrev pub passes_tests : Option (List (Text × Test)) → Value → Bool
passes_tests none value = true
passes_tests (some tests) value = passes_all tests value

-- An attribute is valid: it is no null where null is forbidden, unless an associated instance is there,
-- the data type accepts it, and it passes its tests, which are not asked for a null that is not allowed.
unfoldable pub is_valid_attribute : Attribute → Value → Bool
unfolding passes_all
is_valid_attribute attribute value =
    (attribute.is_generated
      || ((not (forbids attribute.allow_null && is_nullish value) || has_owner attribute.owner)
          && (is_nullish value || (is_expression value || is_none (attribute.type_error value)))))
    && ((is_nullish value && not (allows attribute.allow_null))
        || passes_tests attribute.tests value)

unfoldable pub are_valid : List Text → (Text → Value) → List Attribute → Bool
unfolding is_valid_attribute
are_valid skip values [] = true
are_valid skip values (attribute ∷ attributes) =
    let value = values attribute.name in
    (has attribute.name skip || (is_expression value || is_valid_attribute attribute value))
    && are_valid skip values attributes

unfoldable pub pass_model_tests : List Text → (Text → Value) → List ModelTest → Bool
pass_model_tests skip values [] = true
pass_model_tests skip values ((name, test) ∷ tests) =
    (has name skip || is_none (test values)) && pass_model_tests skip values tests

abbrev pub is_valid : {S : Type 0} → Model S → List Text → S → Bool
is_valid model skip s =
    are_valid skip (model.values s) (model.attributes s)
    && pass_model_tests skip (model.values s) model.model_tests

no_items-item_of :
    (o : Option RawError) (key : Text) (value : Option Value) (name : Text)
    → no_items (item_of o key value name) ≡ is_none o
no_items-item_of none key value name = refl
no_items-item_of (some raw) key value name = refl

no_items-builtin_errors :
    (test : Value → Bool) (message type key : Text) (value : Value)
    → no_items (builtin_errors (some test) message type key value) ≡ test value
unfolding builtin_errors
no_items-builtin_errors test message type key value = elim (Bool-cases (test value)) [
  | inl y ↦ rw y refl
  | inr n ↦ rw n refl
]

no_items-test_errors :
    (test : Text × Test) (key : Text) (value : Value)
    → no_items (test_errors test key value) ≡ passes test value
unfolding passes builtin_errors
no_items-test_errors (type, custom test) key value =
    no_items-item_of (test value) key (some value) type
no_items-test_errors (type, builtin none message) key value = elim (Bool-cases (is_nullish value)) [
  | inl y ↦ rw y refl
  | inr n ↦ rw n refl
]
no_items-test_errors (type, builtin (some test) message) key value =
    elim (Bool-cases (is_nullish value)) [
      | inl y ↦ rw y refl
      | inr n ↦ rw n (no_items-builtin_errors test message type key value)
    ]

no_items-each_test :
    (tests : List (Text × Test)) (key : Text) (value : Value)
    → no_items (each_test tests key value) ≡ passes_all tests value
unfolding each_test passes_all
no_items-each_test [] key value = refl
no_items-each_test (test ∷ tests) key value =
    no_items-append (test_errors test key value) (each_test tests key value)
    ∙ rw (no_items-test_errors test key value, no_items-each_test tests key value) refl

or_true : (a : Bool) → (a || true) ≡ true
or_true true = refl
or_true false = refl

no_items-single_errors :
    (tests : Option (List (Text × Test))) (allow_null : Option Bool) (key : Text) (value : Value)
    → no_items (single_errors tests allow_null key value)
      ≡ ((is_nullish value && not (allows allow_null)) || passes_tests tests value)
unfolding single_errors
no_items-single_errors none allow_null key value =
    sym (or_true (is_nullish value && not (allows allow_null)))
no_items-single_errors (some tests) allow_null key value =
    elim (Bool-cases (is_nullish value && not (allows allow_null))) [
      | inl y ↦ rw y refl
      | inr n ↦ rw n (no_items-each_test tests key value)
    ]

no_items-null_errors :
    (attribute : Attribute) (value : Value)
    → no_items (null_errors attribute value)
      ≡ (not (forbids attribute.allow_null && is_nullish value) || has_owner attribute.owner)
no_items-null_errors attribute value =
    go (forbids attribute.allow_null && is_nullish value) (has_owner attribute.owner)
  where
    go :
        (a b : Bool)
        → no_items (if a && not b then null_item attribute value ∷ [] else []) ≡ (not a || b)
    go true true = refl
    go true false = refl
    go false b = refl

no_items-type_errors :
    (attribute : Attribute) (value : Value)
    → no_items (type_errors attribute value)
      ≡ (is_nullish value || (is_expression value || is_none (attribute.type_error value)))
no_items-type_errors attribute value =
    go (is_nullish value) (is_expression value) (attribute.type_error value)
  where
    given : (o : Option Item) → no_items (list_of o) ≡ is_none o
    given none = refl
    given (some i) = refl

    go :
        (a b : Bool) (o : Option Item)
        → no_items (if a || b then [] else list_of o) ≡ (a || (b || is_none o))
    go true b o = refl
    go false true o = refl
    go false false o = given o

no_items-schema_errors :
    (attribute : Attribute) (value : Value)
    → no_items (schema_errors attribute value) ≡ (
        (not (forbids attribute.allow_null && is_nullish value) || has_owner attribute.owner)
        && (is_nullish value || (is_expression value || is_none (attribute.type_error value))))
unfolding schema_errors
no_items-schema_errors attribute value =
    no_items-append (null_errors attribute value) (type_errors attribute value)
    ∙ rw (no_items-null_errors attribute value, no_items-type_errors attribute value) refl

no_items-attribute_errors :
    (skip : List Text) (attribute : Attribute) (value : Value)
    → no_items (attribute_errors skip attribute value)
      ≡ (has attribute.name skip || (is_expression value || is_valid_attribute attribute value))
unfolding attribute_errors is_valid_attribute
no_items-attribute_errors skip attribute value =
    go (has attribute.name skip) (is_expression value) attribute.is_generated
  where
    go :
        (a b g : Bool)
        → no_items (
            if a || b
            then []
            else (if g then [] else schema_errors attribute value)
              ++ single_errors attribute.tests attribute.allow_null attribute.name value)
          ≡ (a
              || (b
                  || ((g
                        || ((not (forbids attribute.allow_null && is_nullish value)
                              || has_owner attribute.owner)
                            && (is_nullish value
                                || (is_expression value || is_none (attribute.type_error value)))))
                      && ((is_nullish value && not (allows attribute.allow_null))
                          || passes_tests attribute.tests value))))
    go true b g = refl
    go false true g = refl
    go false false true =
        no_items-single_errors attribute.tests attribute.allow_null attribute.name value
    go false false false =
        no_items-append (schema_errors attribute value)
          (single_errors attribute.tests attribute.allow_null attribute.name value)
        ∙ rw
            (
              no_items-schema_errors attribute value,
              no_items-single_errors attribute.tests attribute.allow_null attribute.name value,
            )
            refl

no_items-per_attribute_errors :
    (skip : List Text) (values : Text → Value) (attributes : List Attribute)
    → no_items (per_attribute_errors skip values attributes) ≡ are_valid skip values attributes
unfolding per_attribute_errors are_valid
no_items-per_attribute_errors skip values [] = refl
no_items-per_attribute_errors skip values (attribute ∷ attributes) =
    no_items-append (attribute_errors skip attribute (values attribute.name))
      (per_attribute_errors skip values attributes)
    ∙ rw
        (
          no_items-attribute_errors skip attribute (values attribute.name),
          no_items-per_attribute_errors skip values attributes,
        )
        refl

no_items-custom_errors :
    (skip : List Text) (values : Text → Value) (tests : List ModelTest)
    → no_items (custom_errors skip values tests) ≡ pass_model_tests skip values tests
unfolding custom_errors pass_model_tests
no_items-custom_errors skip values [] = refl
no_items-custom_errors skip values ((name, test) ∷ tests) =
    no_items-append (model_test_errors skip values (name, test)) (custom_errors skip values tests)
    ∙ rw (one (has name skip), no_items-custom_errors skip values tests) refl
  where
    one :
        (c : Bool)
        → no_items (if c then [] else item_of (test values) name none name)
          ≡ (c || is_none (test values))
    one true = refl
    one false = no_items-item_of (test values) name none name

module _ {S : Type 0} (model : Model S) where
  no_items-all_errors :
      (skip : List Text) (s : S) → no_items (all_errors model skip s) ≡ is_valid model skip s
  unfolding all_errors
  no_items-all_errors skip s =
      no_items-append (per_attribute_errors skip (model.values s) (model.attributes s))
        (custom_errors skip (model.values s) model.model_tests)
      ∙ rw
          (
            no_items-per_attribute_errors skip (model.values s) (model.attributes s),
            no_items-custom_errors skip (model.values s) model.model_tests,
          )
          refl

  abbrev pub failure : List Text → S → Problem
  failure skip s = validation_error (all_errors model skip s)

  -- What the checks find decides which hook runs.
  after_raise_all :
      (items : List Item) (s : S)
      → after_checks model (raise_all model items) s ≡ (
          if no_items items
          then hooked model (model.after_validate s)
          else after_failure model
              (validation_error items)
              (model.validation_failed s (validation_error items)))
  after_raise_all [] s = refl
  after_raise_all (i ∷ items) s = refl

  -- If the beforeValidate hooks return, the validation goes on with the instance and the option `skip` as
  -- they left them. If the instance is valid, the afterValidate hooks run and the validation returns unless
  -- they throw. Otherwise the validationFailed hooks run with the validation error of all violations, and
  -- the validation throws what they throw, else the validation error.
  pub validate_and_run_hooks_outcome :
      (skip skip' : List Text) (s s' : S)
      → model.before_validate skip s ≡ (ok tt, (skip', s'))
      → validate_and_run_hooks model skip s ≡ (
          if is_valid model skip' s'
          then hooked model (model.after_validate s')
          else after_failure model
              (failure skip' s')
              (model.validation_failed s' (failure skip' s')))
  unfolding validate_and_run_hooks run_checks
  validate_and_run_hooks_outcome skip skip' s s' h =
      ap (after_before model) h
      ∙ after_raise_all (all_errors model skip' s') s'
      ∙ ap
          (λ c.
            if c
            then hooked model (model.after_validate s')
            else after_failure model (failure skip' s')
                (model.validation_failed s' (failure skip' s')))
          (no_items-all_errors skip' s')
