-- ===== src/Instance/Tests.antt =====
-- Runs of the methods of model instances, and the theorems about them at concrete inputs.
use sequelize.Base.{
  ℕ, ◌≡◌, refl, sym, ap, ◌∙◌, ◌↔◌, Bool, true, false, not, ◌&&◌, Option, none, some, List, [], ◌∷◌,
  Text, text_eq, codes, ◌==◌, Result, ok, throw, if◌then◌else◌,
}
use sequelize.Sql.Binds.{Entries, get, set_key}
use sequelize.Instance.Value.{
  Value, null, number, text, other, at, has, same, same_iff, same_refl, is_nullish, is_truthy,
}
use sequelize.Instance.State.{
  Instance, TypeClass, Attribute, Definition, Library, Outcome, includes, is_changed, previous,
  get_data_value,
}
use sequelize.Instance.Get.{get_one, HasSame, equals, equals_ignores_model}
use sequelize.Instance.Set.{
  SetOptions, type_of, is_same_value, setter_of, root_of, set_one, set_values,
}
use sequelize.Instance.Deletion.{
  get_options, mark_deleted, mark_restored, is_soft_deleted, is_soft_deleted-mark_restored,
  is_soft_deleted-mark_deleted, or_null,
}
use sequelize.Instance.Equality.{equals_equivalence}
use sequelize.Instance.Tracking.{agrees, at-set_key}
use sequelize.Instance.Tracked.{Reached, Reached-Tracks}
use sequelize.Instance.Fixed.{set_values_leaves_fixed}
use sequelize.Instance.Effect.{Receives, set_one-Receives}

abbrev library : Library
library = record {
  is_equal = same;
  dottie_get = at;
  dottie_set = λ values path v. set_key (root_of path) v values;
  include_value = λ key v. some v;
  plain_value = λ v. v;
}

-- A type that takes 7 for text and refuses 9.
abbrev sanitize : Value → Result ℕ Value
sanitize (number n) =
    if n == 7 then ok (text (codes "7")) else if n == 9 then throw 9 else ok (number n)
sanitize v = ok v

abbrev column_type : TypeClass
column_type = record { sanitize = sanitize; are_values_equal = same }

abbrev column : Attribute
column = record { type = some column_type; setter = none; getter = none }

abbrev attribute_of : Bool → Option Attribute
attribute_of true = some column
attribute_of false = none

abbrev names : List Text
names = codes "id" ∷ codes "name" ∷ codes "deletedAt" ∷ []

abbrev user : Definition
user = record {
  attribute = λ key. attribute_of (has key names);
  primary_keys = codes "id" ∷ [];
  is_read_only = λ key. false;
  is_json = λ key. false;
  virtual_names = [];
  with_getters = [];
  has_dates = true;
  has_booleans = false;
}

abbrev empty : Instance
empty = record {
  model = 1;
  data_values = [];
  previous_data_values = [];
  changed_names = [];
  is_new_record = false;
  include_names = none;
  selected = none;
}

abbrev raw_options : SetOptions
raw_options = record { raw = true; reset = false; comes_from_database = true; attributes = none }

abbrev plain_options : SetOptions
plain_options = record {
  raw = false;
  reset = false;
  comes_from_database = false;
  attributes = none;
}

abbrev row : Entries Value
row = (codes "id", number 1) ∷ (codes "name", text (codes "Ann")) ∷ []

abbrev loaded_user : Instance
loaded_user = record empty { data_values = row; previous_data_values = row }

loaded_run : set_values library user raw_options row empty ≡ (ok tt, loaded_user)
unfolding set_values set_key
loaded_run = refl

agrees-same : (key : Text) (v w : Value) → agrees library user key v w ≡ same v w
agrees-same key v w = go (has key names)
  where
    either : (b : Bool) → (if b then same v w else same v w) ≡ same v w
    either true = refl
    either false = refl

    go : (b : Bool) → is_same_value library user (type_of (attribute_of b)) v w ≡ same v w
    go true = either (is_nullish v)
    go false = refl

agrees_refl : (key : Text) (v : Value) → agrees library user key v v ≡ true
agrees_refl key v = agrees-same key v v ∙ same_refl v

agrees_trans :
    (key : Text) (u v w : Value)
    → agrees library user key u v ≡ true
    → agrees library user key v w ≡ true
    → agrees library user key u w ≡ true
agrees_trans key u v w h k =
    agrees-same key u w
    ∙ (same_iff u w).1 (
        (same_iff u v).0 (sym (agrees-same key u v) ∙ h)
        ∙ (same_iff v w).0 (sym (agrees-same key v w) ∙ k))

dottie_elsewhere :
    (values : Entries Value) (path : Text) (v : Value) (key : Text)
    → text_eq (root_of path) key ≡ false
    → at (library.dottie_set values path v) key ≡ at values key
dottie_elsewhere values path v key n = at-set_key key (root_of path) v values ∙ rw n refl

no_setter : (key : Text) → setter_of (user.attribute key) ≡ none
no_setter key = go (has key names)
  where
    go : (b : Bool) → setter_of (attribute_of b) ≡ none
    go true = refl
    go false = refl

no_setters :
    {P : Type 0} (key : Text) (setter : Value → Text → Instance → Outcome)
    → setter_of (user.attribute key) ≡ some setter
    → P
no_setters key setter h = absurd (cc (no_setter key, h))

abbrev from_database : Instance
from_database = (set_values library user raw_options row empty).1

abbrev renamed : Instance
renamed = (set_one library user plain_options (codes "name") (number 7) from_database).1

renamed-Reached : Reached library user renamed
renamed-Reached =
    Reached.after_set plain_options (codes "name") (number 7) refl
      (Reached.loaded raw_options row empty refl (ap (λ o. o.0) loaded_run))

unchanged_run : is_changed (codes "id") renamed ≡ false
unfolding is_changed set_one set_values set_key has get same
unchanged_run = refl

included_run : includes renamed.include_names (codes "id") ≡ false
unfolding set_one set_values get set_key same
included_run = refl

Reached-Tracks_example :
    agrees library user
      (codes "id")
      (get_data_value (codes "id") renamed)
      (previous (codes "id") renamed)
    ≡ true
Reached-Tracks_example =
    Reached-Tracks library user agrees_refl agrees_trans (λ key v w h. agrees-same key v w ∙ h)
      dottie_elsewhere (λ key setter h. no_setters key setter h) renamed-Reached (codes "id")
      included_run unchanged_run

set_values_leaves_fixed_example :
    get_data_value
      (codes "id")
      (set_values library user plain_options
        ((codes "name", number 9) ∷ (codes "id", number 2) ∷ [])
        loaded_user).1
    ≡ get_data_value (codes "id") loaded_user
set_values_leaves_fixed_example =
    set_values_leaves_fixed library user (codes "id") dottie_elsewhere plain_options
      ((codes "name", number 9) ∷ (codes "id", number 2) ∷ []) loaded_user refl refl refl refl
      (unfold has get in refl) (λ key setter h. no_setters key setter h)

set_one-Receives_example :
    ((set_one library user plain_options (codes "name") (number 7) loaded_user).0 ≡ ok tt)
    × Receives library user
        (codes "name")
        (text (codes "7"))
        loaded_user
        (set_one library user plain_options (codes "name") (number 7) loaded_user).1
set_one-Receives_example =
    set_one-Receives library user plain_options (codes "name") (number 7) (text (codes "7")) column
      loaded_user refl (unfold has in refl) refl refl (unfold has get in refl) refl

-- Users are of model 1, books of model 2, which has another primary key.
abbrev book : Definition
book = record user { primary_keys = codes "isbn" ∷ [] }

abbrev definition_of : ℕ → Definition
definition_of m = if m == 1 then user else book

abbrev other_user : Instance
other_user = record loaded_user { changed_names = codes "name" ∷ [] }

abbrev some_book : Instance
some_book = record loaded_user { model = 2 }

equals_equivalence_example :
    (equals library definition_of loaded_user loaded_user ≡ true)
    × (equals library definition_of loaded_user other_user ≡ true
        → equals library definition_of other_user loaded_user ≡ true)
    × (equals library definition_of loaded_user other_user ≡ true
        → equals library definition_of other_user loaded_user ≡ true
        → equals library definition_of loaded_user loaded_user ≡ true)
equals_equivalence_example =
    equals_equivalence library definition_of loaded_user other_user loaded_user refl refl

equals_ignores_model_example :
    ((equals library definition_of loaded_user some_book ≡ true)
      ↔ HasSame library definition_of loaded_user some_book (codes "id" ∷ []))
    × ((m : ℕ)
        → equals library definition_of loaded_user (record some_book { model = m })
          ≡ equals library definition_of loaded_user some_book)
equals_ignores_model_example = equals_ignores_model library definition_of loaded_user some_book

other_model_run : equals library definition_of loaded_user some_book ≡ true
unfolding equals get same has
other_model_run = refl

abbrev deleted_at : Text
deleted_at = codes "deletedAt"

no_getter :
    (i : Instance) → get_one library user deleted_at get_options i ≡ at i.data_values deleted_at
unfolding get_one has
no_getter i = refl

is_soft_deleted-mark_restored_example :
    is_soft_deleted library user deleted_at
      (number 0)
      (mark_restored library user deleted_at (number 0) loaded_user)
    ≡ (not (is_truthy (or_null (number 0))) && not (is_nullish (or_null (number 0))))
is_soft_deleted-mark_restored_example =
    is_soft_deleted-mark_restored library user deleted_at (number 0) no_getter loaded_user

is_soft_deleted-mark_deleted_example :
    is_soft_deleted library user deleted_at null
      (mark_deleted library user deleted_at null (other 5) loaded_user)
    ≡ true
is_soft_deleted-mark_deleted_example =
    is_soft_deleted-mark_deleted library user deleted_at null no_getter (other 5) loaded_user refl
      (unfold same in refl) (unfold get in refl) (λ a b h. h)
