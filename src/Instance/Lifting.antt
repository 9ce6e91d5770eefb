-- ===== src/Instance/Lifting.antt =====
-- What every `set` with a key keeps, `set` with an object keeps: packages/core/src/model.js.
use sequelize.Base.{
  ◌≡◌, refl, Bool, true, false, ◌&&◌, Option, none, some, List, [], ◌∷◌, if◌then◌else◌, Text, ok,
  throw,
}
use sequelize.Sql.Binds.{Entries}
use sequelize.Instance.Value.{Value, undefined, at}
use sequelize.Instance.State.{Instance, Definition, Library, Outcome, ◌and_then◌}
use sequelize.Instance.Set.{
  SetOptions, set_one, set_each, set_values, set_started, set_selected, set_keys, set_given,
  begin_set, end_set, remember_all, is_simple,
}

pub if_true :
    {A : Type 0} (P : A → Type 0) (c : Bool) {x : A} (y : A)
    → c ≡ true
    → P x
    → P (if c then x else y)
if_true P true y h p = p
if_true P false y h p = cc

pub if_false :
    {A : Type 0} (P : A → Type 0) (c : Bool) (x : A) {y : A}
    → c ≡ false
    → P y
    → P (if c then x else y)
if_false P true x h p = cc
if_false P false x h p = p

abbrev pub Keeps : (Instance → Type 0) → (Instance → Outcome) → Type 0
Keeps P step = (i : Instance) → P i → P (step i).1

pub and_then-Keeps :
    (P : Instance → Type 0) (step next : Instance → Outcome)
    → Keeps P step
    → Keeps P next
    → Keeps P (λ i. step i and_then next)
and_then-Keeps P step next h k i t = go (step i) (h i t)
  where
    go : (o : Outcome) → P o.1 → P (o and_then next).1
    go (ok u, j) t = k j t
    go (throw e, j) t = t

module _ (library : Library) (definition : Definition) (P : Instance → Type 0)
    (options : SetOptions) (raw : options.raw ≡ false)
    (one : (key : Text) (value : Value)
      → Keeps P (set_one library definition options key value)) where
  set_each-Keeps : (values : Entries Value) → Keeps P (set_each library definition options values)
  unfolding set_each
  set_each-Keeps [] i t = t
  set_each-Keeps ((key, value) ∷ values) i t =
      and_then-Keeps P (set_one library definition options key value)
        (set_each library definition options values) (one key value) (set_each-Keeps values) i t

  set_given-Keeps :
      (key : Text) (value : Value) → Keeps P (set_given library definition options key value)
  set_given-Keeps key undefined i t = t
  set_given-Keeps key value i t = one key value i t

  set_keys-Keeps :
      (values : Entries Value) (keys : List Text)
      → Keeps P (set_keys library definition options values keys)
  unfolding set_keys
  set_keys-Keeps values [] i t = t
  set_keys-Keeps values (key ∷ keys) i t =
      and_then-Keeps P (set_given library definition options key (at values key))
        (set_keys library definition options values keys) (set_given-Keeps key (at values key))
        (set_keys-Keeps values keys) i t

  set_selected-Keeps :
      (selected : Option (List Text)) (values : Entries Value)
      → Keeps P (set_selected library definition selected options values)
  set_selected-Keeps none values i t = set_each-Keeps values i t
  set_selected-Keeps (some names) values i t =
      and_then-Keeps P
        (λ j.
          set_keys library definition options values names j
          and_then set_keys library definition options values definition.virtual_names)
        (set_keys library definition options values _)
        (and_then-Keeps P (set_keys library definition options values names)
          (set_keys library definition options values definition.virtual_names)
          (set_keys-Keeps values names) (set_keys-Keeps values definition.virtual_names))
        (set_keys-Keeps values _) i t

  end_set-Keeps : Keeps P (end_set library definition options)
  end_set-Keeps i t = if_false (λ j. P j) options.raw (remember_all library definition i) raw t

  set_started-Keeps :
      (values : Entries Value) → Keeps P (set_started library definition options values)
  set_started-Keeps values i t =
      if_false {A = Outcome} (λ o. P o.1) (is_simple library definition options i) _
        (not_simple options.raw _ _ raw)
        (and_then-Keeps P (set_selected library definition options.attributes options values)
          (end_set library definition options) (set_selected-Keeps options.attributes values)
          (end_set-Keeps) i t)
    where
      not_simple : (a b c : Bool) → a ≡ false → ((a && b) && c) ≡ false
      not_simple true b c h = cc
      not_simple false b c h = refl

  pub set_values-Keeps :
      (values : Entries Value)
      → options.reset ≡ false
      → Keeps P (set_values library definition options values)
  unfolding set_values
  set_values-Keeps values keep i t =
      set_started-Keeps values (begin_set library definition options values i)
        (if_false (λ j. P j) options.reset _ keep t)
