-- ===== src/Validation/Tests.antt =====
-- A run of the validation of an instance, and the theorem about it at a concrete input.
use sequelize.Base.{
  List, Text, ◌≡◌, refl, false, Option, none, some, [], ◌∷◌, if◌then◌else◌, codes, ok,
}
use sequelize.Instance.Value.{Value, null, number, text, is_truthy, has}
use sequelize.Validation.Checks.{RawError, Attribute, custom, builtin}
use sequelize.Validation.Validator.{
  Model, ValidationOptions, validate_and_run_hooks, validate, hooked, after_failure,
}
use sequelize.Validation.Laws.{
  are_valid, pass_model_tests, is_valid, failure, validate_and_run_hooks_outcome,
}

abbrev is_truthy_test : Value → Option RawError
is_truthy_test value = if is_truthy value then none else some (record { message = codes "falsy" })

abbrev name : Attribute
name = record {
  name = codes "name";
  allow_null = some false;
  is_generated = false;
  owner = none;
  not_null_message = codes "User.name cannot be null";
  type_error = λ value. none;
  tests = some (
      (codes "truthy", custom is_truthy_test)
      ∷ (codes "any", builtin (some is_truthy) (codes "no"))
      ∷ []);
}

-- The state is the name; the beforeValidate hook replaces null, and has all attributes checked.
abbrev replaced : Value → Value
replaced null = text (codes "Ann")
replaced value = value

abbrev user : Model Value
user = record {
  values = λ value key. value;
  attributes = λ value. name ∷ [];
  model_tests = [];
  before_validate = λ skip value. (ok tt, ([], replaced value));
  after_validate = λ value. (ok tt, value);
  validation_failed = λ value problem. (ok tt, value);
}

hooked_run : (validate_and_run_hooks user [] null).0 ≡ ok tt
unfolding validate_and_run_hooks has
hooked_run = refl

abbrev options : ValidationOptions
options = record { hooks = false; fields = some (codes "id" ∷ []); skip = none }

skipped_run : (validate user options null).0 ≡ ok tt
unfolding validate has
skipped_run = refl

abbrev name_only : List Text
name_only = codes "name" ∷ []

validate_and_run_hooks_outcome_example : validate_and_run_hooks user name_only (number 0) ≡ (
    if is_valid user [] (number 0)
    then hooked user (user.after_validate (number 0))
    else after_failure user
        (failure user [] (number 0))
        (user.validation_failed (number 0) (failure user [] (number 0))))
validate_and_run_hooks_outcome_example =
    validate_and_run_hooks_outcome user name_only [] (number 0) (number 0) refl

invalid_run : is_valid user [] (number 0) ≡ false
unfolding are_valid pass_model_tests has
invalid_run = refl
