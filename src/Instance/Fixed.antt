-- ===== src/Instance/Fixed.antt =====
-- The attributes that `set` of packages/core/src/model.js does not change: a primary key that has a
-- value, and a read-only attribute of a row.
use sequelize.Base.{
  ℕ, ◌≡◌, refl, sym, ap, ◌∙◌, subst, Bool, true, false, not, ◌&&◌, ◌||◌, Option, none, some, Text,
  text_eq, inl, inr, Bool-cases, text_eq_iff, Result, ok, throw,
}
use sequelize.Sql.Binds.{Entries}
use sequelize.Instance.Value.{Value, at, has, is_truthy, is_expression}
use sequelize.Instance.State.{
  Instance, Definition, Library, Attribute, Outcome, done, includes, flag, write, with_data,
  get_data_value,
}
use sequelize.Instance.Set.{
  SetOptions, type_of, setter_of, is_same_value, sanitized, track, store_value, store_sanitized,
  set_nested, has_dot, root_of, set_include, written_include, noticed, set_stored, is_fixed,
  set_plain, set_raw, set_with, set_one, set_values,
}
use sequelize.Instance.Lifting.{Keeps, and_then-Keeps, if_false, set_values-Keeps}
use sequelize.Instance.Tracking.{at-set_key}

module _ (library : Library) (definition : Definition) (key : Text)
    (dottie_elsewhere : (values : Entries Value) (path : Text) (v : Value) (k : Text)
      → text_eq (root_of path) k ≡ false
      → at (library.dottie_set values path v) k ≡ at values k) where
  -- An instance with this value of the key, as new or not, and without an include of that name, for which
  -- the key is fixed.
  abbrev pub Holds : Value → Bool → Instance → Type 0
  Holds v new i =
      (at i.data_values key ≡ v)
      × (i.is_new_record ≡ new)
      × (includes i.include_names key ≡ false)
      × (is_fixed library definition key i ≡ true)

  module _ (v : Value) (new : Bool) where
    Holds-same :
        (i j : Instance)
        → at j.data_values key ≡ at i.data_values key
        → j.is_new_record ≡ i.is_new_record
        → j.include_names ≡ i.include_names
        → Holds v new i
        → Holds v new j
    Holds-same i j value is_new names (had_value, was_new, no_include, fixed) = (
      value ∙ had_value,
      is_new ∙ was_new,
      ap (λ n. includes n key) names ∙ no_include,
      ap
            (λ x.
              (is_truthy x && has key definition.primary_keys)
              || (not j.is_new_record && definition.is_read_only key))
            value
          ∙ ap
              (λ n.
                (is_truthy (at i.data_values key) && has key definition.primary_keys)
                || (not n && definition.is_read_only key))
              is_new
          ∙ fixed,
    )

    write-Holds :
        (k : Text) (x : Value) (i : Instance)
        → text_eq k key ≡ false
        → Holds v new i
        → Holds v new (write k x i)
    write-Holds k x i n =
        Holds-same i (write k x i) (at-set_key key k x i.data_values ∙ rw n refl) refl refl

    track-Holds : (k : Text) (o : Value) (i : Instance) → Holds v new i → Holds v new (track k o i)
    unfolding flag
    track-Holds k o i = Holds-same i (track k o i) refl refl refl

    store_value-Holds :
        (k : Text) (raw : Bool) (original x : Value) (i : Instance)
        → text_eq k key ≡ false
        → Holds v new i
        → Holds v new
            (store_value library definition (type_of (definition.attribute k)) raw k original x i)
    unfolding store_value
    store_value-Holds k raw original x i n h =
        elim (Bool-cases (
          not raw
          && (is_expression x
              || not (
                  is_same_value library definition (type_of (definition.attribute k)) x
                    original)))) [
                      | inl y ↦
                          rw y (write-Holds k x (track k original i) n (track-Holds k original i h))
                      | inr e ↦ rw e (write-Holds k x i n h)
                    ]

    set_stored-Holds :
        (options : SetOptions) (k : Text) (original x : Value) (i : Instance)
        → text_eq k key ≡ false
        → Holds v new i
        → Holds v new
            (set_stored library definition (definition.attribute k) options k original x i).1
    set_stored-Holds options k original x i n h = go (
        sanitized library definition (type_of (definition.attribute k)) options.comes_from_database
          x)
      where
        go :
            (r : Result ℕ Value)
            → Holds v new
                (store_sanitized library definition r
                  (type_of (definition.attribute k))
                  options.raw
                  k
                  original
                  i).1
        go (ok y) = store_value-Holds k options.raw original y i n h
        go (throw e) = h

    module _ (no_json : definition.is_json key ≡ false) where
      dottie_set-Holds :
          (path : Text) (x : Value) (i : Instance)
          → text_eq (root_of path) key ≡ false
          → Holds v new i
          → Holds v new
              (flag (root_of path) (with_data (library.dottie_set i.data_values path x) i))
      unfolding flag
      dottie_set-Holds path x i n =
          Holds-same i (flag (root_of path) (with_data (library.dottie_set i.data_values path x) i))
            (dottie_elsewhere i.data_values path x key n) refl refl

      no_root :
          (k : Text)
          → (has_dot k && definition.is_json (root_of k)) ≡ true
          → text_eq (root_of k) key ≡ false
      no_root k h = elim (Bool-cases (text_eq (root_of k) key)) [
        | inl y ↦ absurd (
            cc (
              ap definition.is_json ((text_eq_iff (root_of k) key).0 y),
              no_json,
              and_right (has_dot k) h,
            ))
        | inr n ↦ n
      ]
        where
          and_right : (a : Bool) {b : Bool} → (a && b) ≡ true → b ≡ true
          and_right true h = h
          and_right false h = cc

      set_nested-Holds :
          (k : Text) (x : Value) (i : Instance)
          → Holds v new i
          → Holds v new (set_nested library definition k x i)
      unfolding set_nested
      set_nested-Holds k x i h = elim (Bool-cases (has_dot k && definition.is_json (root_of k))) [
        | inl y ↦
            rw y (elim (Bool-cases (library.is_equal (library.dottie_get i.data_values k) x)) [
              | inl e ↦ rw e h
              | inr e ↦ rw e (dottie_set-Holds k x i (no_root k y) h)
            ])
        | inr n ↦ rw n h
      ]

      set_plain-Holds :
          (options : SetOptions) (k : Text) (x : Value) (attribute : Option Attribute)
          (i : Instance)
          → definition.attribute k ≡ attribute
          → Holds v new i
          → Holds v new (set_plain library definition attribute options k x i).1
      set_plain-Holds options k x none i e h = set_nested-Holds k x i h
      set_plain-Holds options k x (some attribute) i e h =
          elim (Bool-cases (is_fixed library definition k i)) [
            | inl y ↦ rw y h
            | inr n ↦ rw n (
                subst
                  (λ a.
                    Holds v new
                      (set_stored library definition a options k (at i.data_values k) x i).1)
                  e (set_stored-Holds options k (at i.data_values k) x i (other n) h))
          ]
        where
          other : is_fixed library definition k i ≡ false → text_eq k key ≡ false
          other n =
              let (value, was_new, no_include, fixed) = h in
              elim (Bool-cases (text_eq k key)) [
                | inl y ↦ absurd (
                    cc (
                      n,
                      subst (λ z. is_fixed library definition z i ≡ true)
                          (sym ((text_eq_iff k key).0 y)) fixed,
                    ))
                | inr m ↦ m
              ]

      set_include-Holds :
          (k : Text) (x : Value) (i : Instance)
          → includes i.include_names k ≡ true
          → Holds v new i
          → Holds v new (set_include library definition k x i)
      set_include-Holds k x i y h = go (library.include_value k x)
        where
          other : text_eq k key ≡ false
          other =
              let (value, was_new, no_include, fixed) = h in
              elim (Bool-cases (text_eq k key)) [
                | inl e ↦ absurd (
                    cc (
                      y,
                      subst (λ z. includes i.include_names z ≡ false)
                          (sym ((text_eq_iff k key).0 e)) no_include,
                    ))
                | inr m ↦ m
              ]

          go : (o : Option Value) → Holds v new (written_include library definition o k i)
          go none = h
          go (some z) = write-Holds k z i other h

      module _
          (setters_keep : (k : Text) (setter : Value → Text → Instance → Outcome)
            → setter_of (definition.attribute k) ≡ some setter
            → (x : Value) → Keeps (Holds v new) (setter x k)) where
        noticed-Holds :
            (k : Text) (original : Value) (i : Instance)
            → Holds v new i
            → Holds v new (noticed library definition k original i)
        noticed-Holds k original i h =
            elim (Bool-cases (library.is_equal (at i.data_values k) original)) [
              | inl y ↦ rw y h
              | inr n ↦ rw n (track-Holds k original i h)
            ]

        set_with-Holds :
            (options : SetOptions) (k : Text) (x : Value)
            (setter : Option (Value → Text → Instance → Outcome))
            → setter_of (definition.attribute k) ≡ setter
            → Keeps (Holds v new) (set_with library definition setter options k x)
        set_with-Holds options k x (some setter) e i h =
            and_then-Keeps (Holds v new) (setter x k)
              (λ i'. done (noticed library definition k (at i.data_values k) i'))
              (setters_keep k setter e x) (noticed-Holds k (at i.data_values k)) i h
        set_with-Holds options k x none e i h = elim (Bool-cases (includes i.include_names k)) [
          | inl y ↦ rw y (set_include-Holds k x i y h)
          | inr n ↦ rw n (set_plain-Holds options k x (definition.attribute k) i refl h)
        ]

        set_one-Holds :
            (options : SetOptions) (k : Text) (x : Value)
            → options.raw ≡ false
            → Keeps (Holds v new) (set_one library definition options k x)
        unfolding set_one
        set_one-Holds options k x raw i h =
            if_false {A = Outcome} (λ o. Holds v new o.1) options.raw
              (set_raw library definition options k x i) raw
              (set_with-Holds options k x (setter_of (definition.attribute k)) refl i h)

  -- A primary key that has a truthy value, and a read-only attribute of a row, keep their value in every
  -- `set` with an object that is neither `raw` nor a reset, whatever the object holds and whether it throws
  -- or not. The conditions: the key is not that of an include and no JSON column, Dottie changes nothing
  -- but the column of the path, and custom setters keep the value themselves.
  pub set_values_leaves_fixed :
      (options : SetOptions) (values : Entries Value) (i : Instance)
      → options.raw ≡ false
      → options.reset ≡ false
      → includes i.include_names key ≡ false
      → definition.is_json key ≡ false
      → is_fixed library definition key i ≡ true
      → ((k : Text) (setter : Value → Text → Instance → Outcome)
          → setter_of (definition.attribute k) ≡ some setter
          → (x : Value) → Keeps (Holds (get_data_value key i) i.is_new_record) (setter x k))
      → get_data_value key (set_values library definition options values i).1 ≡ get_data_value key i
  unfolding get_data_value
  set_values_leaves_fixed options values i raw keep no_include no_json fixed setters =
      let v = at i.data_values key in
      let new = i.is_new_record in
      (set_values-Keeps library definition (Holds v new) options raw
        (λ k x. set_one-Holds v new no_json setters options k x raw) values keep i
        (refl, refl, no_include, fixed)).0
