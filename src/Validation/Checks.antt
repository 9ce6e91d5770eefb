-- ===== src/Validation/Checks.antt =====
-- The checks of packages/core/src/instance-validator.js and the errors that they add.
-- Validators of the user and of validator.js are functions of the value that throw or return. They are
-- awaited together, so the order of the errors is not that of the source where some are asynchronous:
-- only which errors there are is meant by the lists of errors here.
use sequelize.Base.{
  Bool, true, false, not, ◌&&◌, ◌||◌, Option, none, some, List, [], ◌∷◌, ◌++◌, if◌then◌else◌, Text,
  codes,
}
use sequelize.Instance.Value.{Value, is_nullish, is_expression, is_truthy, has}

-- What a validator throws.
pub record RawError : Type 0 where
  pub message : Text

-- `ValidationErrorItem`.
pub record Item : Type 0 where
  pub message : Text
  pub kind : Text
  pub key : Text
  pub value : Option Value
  pub function_name : Option Text
  pub validator_name : Option Text

-- The value of a key of `attribute.validate`: `custom` is a function, `builtin` attribute_names one of validator.js,
-- which may be missing; a built-in test says whether the value passes.
pub data Test : Type 0 where
  custom : (Value → Option RawError) → Test
  builtin : Option (Value → Bool) → Text → Test

-- An attribute, as far as it is validated: `owner` is what `get` gives for the `BelongsTo` association
-- whose foreign key it is, `type_error` what `validateDataType` says, `none` where `type` is a string.
pub record Attribute : Type 0 where
  pub name : Text
  pub allow_null : Option Bool
  pub is_generated : Bool
  pub owner : Option Value
  pub not_null_message : Text
  pub type_error : Value → Option Item
  pub tests : Option (List (Text × Test))

abbrev pub function_kind : Text
function_kind = codes "Validation error"

-- `_pushError`.
abbrev pub item : Bool → Text → RawError → Option Value → Option Text → Item
item is_builtin key raw value name = record {
  message = raw.message;
  kind = function_kind;
  key = key;
  value = value;
  function_name = name;
  validator_name = if is_builtin then name else none;
}

abbrev pub item_of : Option RawError → Text → Option Value → Text → List Item
item_of none key value name = []
item_of (some raw) key value name = item false key raw value (some name) ∷ []

-- `_invokeBuiltinValidator` and the error that `_singleAttrValidate` makes of what it throws.
unfoldable pub builtin_errors : Option (Value → Bool) → Text → Text → Text → Value → List Item
builtin_errors none message type key value =
    item false key (record { message = codes "Invalid validator function: " ++ type }) (some value)
      none
    ∷ []
builtin_errors (some test) message type key value =
    if test value
    then []
    else item true key (record { message = message }) (some value) (some type) ∷ []

abbrev pub test_errors : Text × Test → Text → Value → List Item
test_errors (type, custom test) key value = item_of (test value) key (some value) type
test_errors (type, builtin test message) key value =
    if is_nullish value then [] else builtin_errors test message type key value

unfoldable pub each_test : List (Text × Test) → Text → Value → List Item
unfolding builtin_errors
each_test [] key value = []
each_test (test ∷ tests) key value = test_errors test key value ++ each_test tests key value

abbrev pub allows : Option Bool → Bool
allows none = false
allows (some b) = b

abbrev pub forbids : Option Bool → Bool
forbids none = false
forbids (some b) = not b

-- `_singleAttrValidate`.
unfoldable pub single_errors : Option (List (Text × Test)) → Option Bool → Text → Value → List Item
unfolding each_test
single_errors none allow_null key value = []
single_errors (some tests) allow_null key value =
    if is_nullish value && not (allows allow_null) then [] else each_test tests key value

abbrev pub has_owner : Option Value → Bool
has_owner none = false
has_owner (some owner) = is_truthy owner

abbrev pub null_item : Attribute → Value → Item
null_item attribute value = record {
  message = attribute.not_null_message;
  kind = codes "notNull violation";
  key = attribute.name;
  value = some value;
  function_name = some (codes "is_null");
  validator_name = none;
}

abbrev pub null_errors : Attribute → Value → List Item
null_errors attribute value =
    if (forbids attribute.allow_null && is_nullish value) && not (has_owner attribute.owner)
    then null_item attribute value ∷ []
    else []

abbrev pub list_of : Option Item → List Item
list_of none = []
list_of (some i) = i ∷ []

abbrev pub type_errors : Attribute → Value → List Item
type_errors attribute value =
    if is_nullish value || is_expression value then [] else list_of (attribute.type_error value)

-- `_validateSchema`.
unfoldable pub schema_errors : Attribute → Value → List Item
schema_errors attribute value = null_errors attribute value ++ type_errors attribute value

-- One attribute in `_perAttributeValidators`.
unfoldable pub attribute_errors : List Text → Attribute → Value → List Item
unfolding schema_errors single_errors
attribute_errors skip attribute value =
    if has attribute.name skip || is_expression value
    then []
    else (if attribute.is_generated then [] else schema_errors attribute value)
      ++ single_errors attribute.tests attribute.allow_null attribute.name value

unfoldable pub per_attribute_errors : List Text → (Text → Value) → List Attribute → List Item
unfolding attribute_errors
per_attribute_errors skip values [] = []
per_attribute_errors skip values (attribute ∷ attributes) =
    attribute_errors skip attribute (values attribute.name)
    ++ per_attribute_errors skip values attributes

-- A validator of the model.
abbrev pub ModelTest : Type 0
ModelTest = Text × ((Text → Value) → Option RawError)

abbrev pub model_test_errors : List Text → (Text → Value) → ModelTest → List Item
model_test_errors skip values (name, test) =
    if has name skip then [] else item_of (test values) name none name

-- `_customValidators`.
unfoldable pub custom_errors : List Text → (Text → Value) → List ModelTest → List Item
custom_errors skip values [] = []
custom_errors skip values (test ∷ tests) =
    model_test_errors skip values test ++ custom_errors skip values tests
