-- ===== src/Instance/Tracked.antt =====
-- The instances that `set`, `setDataValue` and `changed` of packages/core/src/model.js lead to, and what
-- they know of their changes.
use sequelize.Base.{
  ℕ, ◌≡◌, refl, ◌∙◌, subst, Bool, true, false, not, ◌&&◌, ◌||◌, Option, none, some, if◌then◌else◌,
  Text, text_eq, inl, inr, Bool-cases, arith, Result, ok, throw,
}
use sequelize.Sql.Binds.{Entries}
use sequelize.Instance.Value.{Value, at, is_expression}
use sequelize.Instance.State.{
  Instance, Definition, Library, Attribute, Outcome, done, ◌and_then◌, includes, flag, is_changed,
  get_data_value, previous, with_data,
}
use sequelize.Instance.Set.{
  SetOptions, type_of, setter_of, sanitized, store_value, store_sanitized, set_data_value,
  set_nested, has_dot, root_of, set_include, written_include, noticed, set_stored, is_fixed,
  set_plain, set_raw, set_with, set_one, set_values, set_selected, begin_set, assigned, end_set,
  remember_all, is_simple,
}
use sequelize.Instance.Lifting.{Keeps, and_then-Keeps, if_true, if_false, set_values-Keeps}
use sequelize.Instance.Tracking.{
  agrees, Tracks, Tracks-SameElsewhere, is_changed-flag, has-insert_name, flag-Tracks,
  write-track-Tracks, write-flag-Tracks, write-Tracks, track-Tracks,
}

-- The instances after loading values with `raw` and any number of changes after it: `set` without `raw`
-- for a key or an object, where it does not reset, `setDataValue` and `changed(key, true)`, and loading
-- again. Setting a single key with `raw`, which is part of loading, is none of them by itself.
module _ (library : Library) (definition : Definition) where
  pub data Reached : Instance → Type 0 where
    loaded :
        (options : SetOptions) (values : Entries Value) (i : Instance)
        → options.raw ≡ true
        → (set_values library definition options values i).0 ≡ ok tt
        → Reached (set_values library definition options values i).1
    after_set :
        {i : Instance} (options : SetOptions) (key : Text) (value : Value)
        → options.raw ≡ false
        → Reached i
        → Reached (set_one library definition options key value i).1
    after_set_values :
        {i : Instance} (options : SetOptions) (values : Entries Value)
        → options.raw ≡ false
        → options.reset ≡ false
        → Reached i
        → Reached (set_values library definition options values i).1
    after_set_data_value :
        {i : Instance} (key : Text) (value : Value)
        → Reached i
        → Reached (set_data_value library definition key value i)
    after_changed : {i : Instance} (key : Text) → Reached i → Reached (flag key i)

module _ (library : Library) (definition : Definition)
    (agrees_refl : (key : Text) (v : Value) → agrees library definition key v v ≡ true)
    (agrees_trans : (key : Text) (u v w : Value)
      → agrees library definition key u v ≡ true
      → agrees library definition key v w ≡ true
      → agrees library definition key u w ≡ true)
    (agrees_if_equal : (key : Text) (v w : Value)
      → library.is_equal v w ≡ true
      → agrees library definition key v w ≡ true)
    (dottie_elsewhere : (values : Entries Value) (path : Text) (v : Value) (key : Text)
      → text_eq (root_of path) key ≡ false
      → at (library.dottie_set values path v) key ≡ at values key)
    (setters_track : (key : Text) (setter : Value → Text → Instance → Outcome)
      → setter_of (definition.attribute key) ≡ some setter
      → (value : Value) (i : Instance) → Tracks library definition i
      → Tracks library definition (setter value key i).1) where
  pub set_data_value-Tracks :
      (key : Text) (value : Value) (i : Instance)
      → Tracks library definition i
      → Tracks library definition (set_data_value library definition key value i)
  unfolding set_data_value
  set_data_value-Tracks key value i t =
      elim (Bool-cases (library.is_equal value (at i.previous_data_values key))) [
        | inl y ↦ rw y (
            write-Tracks library definition key value i
              (λ h k. agrees_if_equal key value (at i.previous_data_values key) y) t)
        | inr n ↦ rw n (write-flag-Tracks library definition key value i t)
      ]

  store_value-Tracks :
      (key : Text) (value : Value) (i : Instance)
      → Tracks library definition i
      → Tracks library definition (
          store_value library definition
            (type_of (definition.attribute key))
            false
            key
            (at i.data_values key)
            value
            i)
  unfolding store_value
  store_value-Tracks key value i t =
      elim (Bool-cases
        (is_expression value || not (agrees library definition key value (at i.data_values key)))) [
          | inl y ↦
              rw y (write-track-Tracks library definition key value (at i.data_values key) i t)
          | inr n ↦ rw n (
              write-Tracks library definition key value i
                (λ h k.
                  agrees_trans key value (at i.data_values key) (at i.previous_data_values key)
                    (ground (arith, n)) (t key h k))
                t)
        ]

  set_stored-Tracks :
      (options : SetOptions) (key : Text) (value : Value)
      → options.raw ≡ false
      → (i : Instance) → Tracks library definition i
      → Tracks library definition
          (set_stored library definition
            (definition.attribute key)
            options
            key
            (at i.data_values key)
            value
            i).1
  set_stored-Tracks options key value raw i t = rw raw (
      go (
        sanitized library definition (type_of (definition.attribute key))
          options.comes_from_database value))
    where
      go :
          (r : Result ℕ Value)
          → Tracks library definition
              (store_sanitized library definition r
                (type_of (definition.attribute key))
                false
                key
                (at i.data_values key)
                i).1
      go (ok v) = store_value-Tracks key v i t
      go (throw e) = t

  dottie_set-Tracks :
      (path : Text) (value : Value) (i : Instance)
      → Tracks library definition i
      → Tracks library definition
          (flag (root_of path) (with_data (library.dottie_set i.data_values path value) i))
  unfolding flag is_changed
  dottie_set-Tracks path value i t =
      let j = with_data (library.dottie_set i.data_values path value) i in
      Tracks-SameElsewhere library definition (root_of path) i (flag (root_of path) j)
        (λ k n. (
          dottie_elsewhere i.data_values path value k n,
          refl,
          has-insert_name k (root_of path) i.changed_names ∙ rw n refl,
        ))
        refl (λ h k. cc (is_changed-flag (root_of path) j, k)) t

  set_nested-Tracks :
      (key : Text) (value : Value) (i : Instance)
      → Tracks library definition i
      → Tracks library definition (set_nested library definition key value i)
  unfolding set_nested
  set_nested-Tracks key value i t =
      elim (Bool-cases (has_dot key && definition.is_json (root_of key))) [
        | inl y ↦
            rw y
              (elim (Bool-cases (library.is_equal (library.dottie_get i.data_values key) value)) [
                | inl e ↦ rw e t
                | inr e ↦ rw e (dottie_set-Tracks key value i t)
              ])
        | inr n ↦ rw n t
      ]

  set_include-Tracks :
      (key : Text) (value : Value) (i : Instance)
      → includes i.include_names key ≡ true
      → Tracks library definition i
      → Tracks library definition (set_include library definition key value i)
  set_include-Tracks key value i h t = go (library.include_value key value)
    where
      go :
          (o : Option Value)
          → Tracks library definition (written_include library definition o key i)
      go none = t
      go (some v) = write-Tracks library definition key v i (λ h' k. cc) t

  noticed-Tracks :
      (key : Text) (original : Value) (i : Instance)
      → Tracks library definition i
      → Tracks library definition (noticed library definition key original i)
  noticed-Tracks key original i t =
      elim (Bool-cases (library.is_equal (at i.data_values key) original)) [
        | inl y ↦ rw y t
        | inr n ↦ rw n (track-Tracks library definition key original i t)
      ]

  set_plain-Tracks :
      (options : SetOptions) (key : Text) (value : Value)
      → options.raw ≡ false
      → (attribute : Option Attribute) → definition.attribute key ≡ attribute
      → (i : Instance) → Tracks library definition i
      → Tracks library definition (set_plain library definition attribute options key value i).1
  set_plain-Tracks options key value raw none e i t = set_nested-Tracks key value i t
  set_plain-Tracks options key value raw (some attribute) e i t =
      elim (Bool-cases (is_fixed library definition key i)) [
        | inl y ↦ rw y t
        | inr n ↦ rw n (
            subst
              (λ a.
                Tracks library definition
                  (set_stored library definition a options key (at i.data_values key) value i).1)
              e (set_stored-Tracks options key value raw i t))
      ]

  set_with-Tracks :
      (options : SetOptions) (key : Text) (value : Value)
      → options.raw ≡ false
      → (setter : Option (Value → Text → Instance → Outcome))
      → setter_of (definition.attribute key) ≡ setter
      → Keeps (Tracks library definition) (set_with library definition setter options key value)
  set_with-Tracks options key value raw (some setter) e i t =
      and_then-Keeps (Tracks library definition) (setter value key)
        (λ i'. done (noticed library definition key (at i.data_values key) i'))
        (setters_track key setter e value) (noticed-Tracks key (at i.data_values key)) i t
  set_with-Tracks options key value raw none e i t =
      elim (Bool-cases (includes i.include_names key)) [
        | inl y ↦ rw y (set_include-Tracks key value i y t)
        | inr n ↦ rw n (set_plain-Tracks options key value raw (definition.attribute key) refl i t)
      ]

  pub set_one-Tracks :
      (options : SetOptions) (key : Text) (value : Value)
      → options.raw ≡ false
      → Keeps (Tracks library definition) (set_one library definition options key value)
  unfolding set_one
  set_one-Tracks options key value raw i t =
      if_false {A = Outcome} (λ o. Tracks library definition o.1) options.raw
        (set_raw library definition options key value i) raw
        (set_with-Tracks options key value raw (setter_of (definition.attribute key)) refl i t)

  set_values-Tracks :
      (options : SetOptions) (values : Entries Value)
      → options.raw ≡ false
      → options.reset ≡ false
      → Keeps (Tracks library definition) (set_values library definition options values)
  set_values-Tracks options values raw keep =
      set_values-Keeps library definition (Tracks library definition) options raw
        (λ key value. set_one-Tracks options key value raw) values keep

  remember_all-Tracks :
      (i : Instance) → Tracks library definition (remember_all library definition i)
  remember_all-Tracks i key h k = agrees_refl key (at i.data_values key)

  abbrev Settles : Outcome → Type 0
  Settles o = o.0 ≡ ok tt → Tracks library definition o.1

  if-Settles : (c : Bool) (o p : Outcome) → Settles o → Settles p → Settles (if c then o else p)
  if-Settles true o p h k = h
  if-Settles false o p h k = k

  -- What `set` with an object and `raw` leaves.
  pub raw-Tracks :
      (options : SetOptions) (values : Entries Value) (i : Instance)
      → options.raw ≡ true
      → (set_values library definition options values i).0 ≡ ok tt
      → Tracks library definition (set_values library definition options values i).1
  unfolding set_values
  raw-Tracks options values i raw =
      let j = begin_set library definition options values i in
      if-Settles (is_simple library definition options j) _ _
        (λ h. remember_all-Tracks (with_data (assigned library definition j.data_values values) j))
        (finished (set_selected library definition options.attributes options values j))
    where
      finished :
          (o : Outcome)
          → (o and_then end_set library definition options).0 ≡ ok tt
          → Tracks library definition (o and_then end_set library definition options).1
      finished (ok u, j) h =
          if_true (λ k. Tracks library definition k) options.raw j raw (remember_all-Tracks j)
      finished (throw e, j) h = cc

  -- After values were loaded by a `set` with an object and `raw` that returned, and after any number of
  -- calls of `set` without `raw` or `reset`, of `setDataValue` and of `changed(key, true)`, whether they
  -- throw or not, an attribute that `changed` does not name has the value that `previous` gives for it, in
  -- the sense of the comparison of its data type. The key may be any but that of an included model. The
  -- conditions: the comparisons are reflexive and transitive and hold where `isEqual` does, Dottie changes
  -- nothing but the column of the path, and custom setters keep the property themselves.
  pub Reached-Tracks :
      {i : Instance}
      → Reached library definition i
      → (key : Text) → includes i.include_names key ≡ false
      → is_changed key i ≡ false
      → agrees library definition key (get_data_value key i) (previous key i) ≡ true
  unfolding get_data_value previous
  Reached-Tracks r = tracks r
    where
      tracks : {i : Instance} → Reached library definition i → Tracks library definition i
      tracks (Reached.loaded options values i raw h) = raw-Tracks options values i raw h
      tracks (Reached.after_set {i} options key value raw r) =
          set_one-Tracks options key value raw i (tracks r)
      tracks (Reached.after_set_values {i} options values raw keep r) =
          set_values-Tracks options values raw keep i (tracks r)
      tracks (Reached.after_set_data_value {i} key value r) =
          set_data_value-Tracks key value i (tracks r)
      tracks (Reached.after_changed {i} key r) = flag-Tracks library definition key i (tracks r)
