-- ===== src/Validation/Validator.antt =====
-- `validate` of packages/core/src/instance-validator.js: the checks between the hooks.
use sequelize.Base.{
  ℕ, Bool, Option, none, some, List, [], ◌∷◌, ◌++◌, if◌then◌else◌, Text, Result, ok, throw,
}
use sequelize.Instance.Value.{Value, has}
use sequelize.Validation.Checks.{Item, Attribute, ModelTest, per_attribute_errors, custom_errors}

pub data Problem : Type 0 where
  validation_error : List Item → Problem
  hook_error : ℕ → Problem

-- The state `S` holds the instance, which the hooks may change. `values` is `dataValues`, `attributes`
-- and `model_tests` are what the model definition and the options of the model have. The hooks are
-- `hooks.runAsync`, which returns nothing. The beforeValidate hooks are given the options, of which the
-- checks read `skip`, and may change it, too.
pub record Model (S : Type 0) : Type 0 where
  pub values : S → Text → Value
  pub attributes : S → List Attribute
  pub model_tests : List ModelTest
  pub before_validate : List Text → S → Result ℕ (Unit {0}) × (List Text × S)
  pub after_validate : S → Result ℕ (Unit {0}) × S
  pub validation_failed : S → Problem → Result ℕ (Unit {0}) × S

pub record ValidationOptions : Type 0 where
  pub hooks : Bool
  pub fields : Option (List Text)
  pub skip : Option (List Text)

abbrev attribute_names : List Attribute → List Text
attribute_names [] = []
attribute_names (attribute ∷ attributes) = attribute.name ∷ attribute_names attributes

unfoldable pub difference : List Text → List Text → List Text
difference [] fields = []
difference (name ∷ rest) fields =
    let rest' = difference rest fields in if has name fields then rest' else name ∷ rest'

abbrev or_empty : Option (List Text) → List Text
or_empty none = []
or_empty (some given) = given

abbrev skipped : Option (List Text) → Option (List Text) → List Attribute → List Text
skipped (some fields) none attributes = difference (attribute_names attributes) fields
skipped fields (some skip) attributes = skip
skipped none none attributes = []

-- The option `skip` after the constructor.
unfoldable pub skip_of : ValidationOptions → List Attribute → List Text
unfolding difference
skip_of options attributes = skipped options.fields options.skip attributes

module _ {S : Type 0} (model : Model S) where
  unfoldable pub all_errors : List Text → S → List Item
  unfolding per_attribute_errors custom_errors
  all_errors skip s =
      per_attribute_errors skip (model.values s) (model.attributes s)
      ++ custom_errors skip (model.values s) model.model_tests

  abbrev pub raise_all : List Item → Result Problem (Unit {0})
  raise_all [] = ok tt
  raise_all (i ∷ items) = throw (validation_error (i ∷ items))

  -- `_validate` of a new validator.
  unfoldable pub run_checks : List Text → S → Result Problem (Unit {0})
  unfolding all_errors
  run_checks skip s = raise_all (all_errors skip s)

  -- `newError` is always undefined.
  abbrev pub after_failure : Problem → Result ℕ (Unit {0}) × S → Result Problem (Unit {0}) × S
  after_failure problem (throw e, s) = (throw (hook_error e), s)
  after_failure problem (ok u, s) = (throw problem, s)

  abbrev pub hooked : Result ℕ (Unit {0}) × S → Result Problem (Unit {0}) × S
  hooked (ok u, s) = (ok u, s)
  hooked (throw e, s) = (throw (hook_error e), s)

  abbrev pub after_checks : Result Problem (Unit {0}) → S → Result Problem (Unit {0}) × S
  after_checks (ok u) s = hooked (model.after_validate s)
  after_checks (throw problem) s = after_failure problem (model.validation_failed s problem)

  abbrev pub after_before : Result ℕ (Unit {0}) × (List Text × S) → Result Problem (Unit {0}) × S
  after_before (throw e, (skip, s)) = (throw (hook_error e), s)
  after_before (ok u, (skip, s)) = after_checks (run_checks skip s) s

  -- `_validateAndRunHooks`.
  unfoldable pub validate_and_run_hooks : List Text → S → Result Problem (Unit {0}) × S
  unfolding run_checks
  validate_and_run_hooks skip s = after_before (model.before_validate skip s)

-- `new InstanceValidator(instance, options).validate()`.
unfoldable pub validate :
    {S : Type 0} → Model S → ValidationOptions → S → Result Problem (Unit {0}) × S
unfolding validate_and_run_hooks skip_of
validate model options s =
    let skip = skip_of options (model.attributes s) in
    if options.hooks then validate_and_run_hooks model skip s else (run_checks model skip s, s)
