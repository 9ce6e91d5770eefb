-- ===== src/Instance/Tracking.antt =====
-- Which values of an instance count as changed: `set` and `setDataValue` of packages/core/src/model.js.
use sequelize.Base.{
  ◌≡◌, refl, sym, ap, ◌∙◌, subst, Bool, true, false, ◌||◌, some, List, [], ◌∷◌, ◌++◌, if◌then◌else◌,
  Text, text_eq, ◌⊎◌, inl, inr, Bool-cases, text_eq_iff, text_eq_refl, arith,
}
use sequelize.Sql.Binds.{Entries, get, set_key}
use sequelize.Sql.Binds.Laws.{get-set_key}
use sequelize.Instance.Value.{Value, at, has, insert_name, or_undefined}
use sequelize.Instance.State.{
  Instance, Definition, Library, includes, flag, is_changed, write, remember,
}
use sequelize.Instance.Set.{type_of, is_same_value, track}

pub at-set_key :
    (key k : Text) (v : Value) (entries : Entries Value)
    → at (set_key k v entries) key ≡ (if text_eq k key then v else at entries key)
at-set_key key k v entries = ap or_undefined (get-set_key key k v entries) ∙ inside (text_eq k key)
  where
    inside :
        (c : Bool)
        → or_undefined (if c then some v else get key entries) ≡ (if c then v else at entries key)
    inside true = refl
    inside false = refl

has-append :
    (key k : Text) (names : List Text)
    → has key (names ++ (k ∷ [])) ≡ has key names || text_eq k key
unfolding has
has-append key k [] = ground arith
has-append key k (n ∷ names) = ground (arith, has-append key k names)

pub has-insert_name :
    (key k : Text) (names : List Text)
    → has key (insert_name k names) ≡ text_eq k key || has key names
unfolding insert_name
has-insert_name key k names = elim (Bool-cases (has k names)) [
  | inl y ↦ rw y (known (Bool-cases (text_eq k key)) y)
  | inr n ↦ rw n (has-append key k names ∙ ground arith)
]
  where
    known :
        (text_eq k key ≡ true) ⊎ (text_eq k key ≡ false)
        → has k names ≡ true
        → has key names ≡ text_eq k key || has key names
    known (inl e) y = rw e (subst (λ x. has x names ≡ true) ((text_eq_iff k key).0 e) y)
    known (inr n) y = rw n refl

-- Two instances that agree but for one key.
abbrev pub SameElsewhere : Text → Instance → Instance → Type 0
SameElsewhere key i i' =
    (k : Text)
    → text_eq key k ≡ false
    → (at i'.data_values k ≡ at i.data_values k)
      × (at i'.previous_data_values k ≡ at i.previous_data_values k)
      × (is_changed k i' ≡ is_changed k i)

pub write-SameElsewhere :
    (key : Text) (v : Value) (i : Instance) → SameElsewhere key i (write key v i)
unfolding is_changed
write-SameElsewhere key v i k n = (at-set_key k key v i.data_values ∙ rw n refl, refl, refl)

pub write-flag-SameElsewhere :
    (key : Text) (v : Value) (i : Instance) → SameElsewhere key i (write key v (flag key i))
unfolding flag is_changed
write-flag-SameElsewhere key v i k n = (
  at-set_key k key v i.data_values ∙ rw n refl,
  refl,
  has-insert_name k key i.changed_names ∙ rw n refl,
)

pub track-SameElsewhere :
    (key : Text) (o : Value) (i : Instance) → SameElsewhere key i (track key o i)
unfolding flag is_changed
track-SameElsewhere key o i k n = (
  refl,
  at-set_key k key o i.previous_data_values ∙ rw n refl,
  has-insert_name k key i.changed_names ∙ rw n refl,
)

pub write-track-SameElsewhere :
    (key : Text) (v o : Value) (i : Instance) → SameElsewhere key i (write key v (track key o i))
unfolding flag is_changed
write-track-SameElsewhere key v o i k n = (
  at-set_key k key v i.data_values ∙ rw n refl,
  at-set_key k key o i.previous_data_values ∙ rw n refl,
  has-insert_name k key i.changed_names ∙ rw n refl,
)

pub is_changed-flag : (key : Text) (i : Instance) → is_changed key (flag key i) ≡ true
unfolding flag is_changed
is_changed-flag key i = has-insert_name key key i.changed_names ∙ rw (text_eq_refl key) refl

module _ (library : Library) (definition : Definition) where
  abbrev pub agrees : Text → Value → Value → Bool
  agrees key value original =
      is_same_value library definition (type_of (definition.attribute key)) value original

  -- Each attribute that is not marked as changed has its previous value.
  abbrev pub Tracks : Instance → Type 0
  Tracks i =
      (key : Text)
      → includes i.include_names key ≡ false
      → is_changed key i ≡ false
      → agrees key (at i.data_values key) (at i.previous_data_values key) ≡ true

  pub Tracks-SameElsewhere :
      (key : Text) (i i' : Instance)
      → SameElsewhere key i i'
      → i'.include_names ≡ i.include_names
      → (includes i.include_names key ≡ false
          → is_changed key i' ≡ false
          → agrees key (at i'.data_values key) (at i'.previous_data_values key) ≡ true)
      → Tracks i
      → Tracks i'
  Tracks-SameElsewhere key i i' elsewhere included here h k no_include unchanged =
      elim (Bool-cases (text_eq key k)) [
        | inl y ↦
            let e = (text_eq_iff key k).0 y in
            subst (λ x. agrees x (at i'.data_values x) (at i'.previous_data_values x) ≡ true) e
              (here
                (subst (λ x. includes i.include_names x ≡ false) (sym e)
                  (ap (λ n. includes n k) (sym included) ∙ no_include))
                (subst (λ x. is_changed x i' ≡ false) (sym e) unchanged))
        | inr n ↦
            let (d, p, c) = elsewhere k n in
            rw (d, p) (h k (ap (λ n. includes n k) (sym included) ∙ no_include) (sym c ∙ unchanged))
      ]

  pub flag-Tracks : (key : Text) (i : Instance) → Tracks i → Tracks (flag key i)
  unfolding flag is_changed
  flag-Tracks key i t k no_include unchanged =
      t k no_include
        (or_false (text_eq key k) (sym (has-insert_name k key i.changed_names) ∙ unchanged))
    where
      or_false : (a : Bool) {b : Bool} → (a || b) ≡ false → b ≡ false
      or_false true h = cc
      or_false false h = h

  pub track-Tracks : (key : Text) (o : Value) (i : Instance) → Tracks i → Tracks (track key o i)
  unfolding flag
  track-Tracks key o i t =
      Tracks-SameElsewhere key i (track key o i) (track-SameElsewhere key o i) refl
        (λ h k. cc (is_changed-flag key (remember key o i), k)) t

  pub write-track-Tracks :
      (key : Text) (v o : Value) (i : Instance) → Tracks i → Tracks (write key v (track key o i))
  unfolding flag is_changed
  write-track-Tracks key v o i t =
      Tracks-SameElsewhere key i (write key v (track key o i)) (write-track-SameElsewhere key v o i)
        refl (λ h k. cc (is_changed-flag key (remember key o i), k)) t

  pub write-flag-Tracks :
      (key : Text) (v : Value) (i : Instance) → Tracks i → Tracks (write key v (flag key i))
  unfolding flag is_changed
  write-flag-Tracks key v i t =
      Tracks-SameElsewhere key i (write key v (flag key i)) (write-flag-SameElsewhere key v i) refl
        (λ h k. cc (is_changed-flag key i, k)) t

  pub write-Tracks :
      (key : Text) (v : Value) (i : Instance)
      → (includes i.include_names key ≡ false
          → is_changed key i ≡ false
          → agrees key v (at i.previous_data_values key) ≡ true)
      → Tracks i
      → Tracks (write key v i)
  unfolding is_changed
  write-Tracks key v i h t =
      Tracks-SameElsewhere key i (write key v i) (write-SameElsewhere key v i) refl
        (λ e k.
          ap (λ x. agrees key x (at i.previous_data_values key))
            (at-set_key key key v i.data_values ∙ rw (text_eq_refl key) refl)
          ∙ h e k)
        t
