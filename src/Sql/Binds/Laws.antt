-- ===== src/Sql/Binds/Laws.antt =====
-- The binds of the user and those of a generator in one object: packages/core/src/utils/sql.ts.
use sequelize.Base.{
  ℕ, ◌+◌, ◌<◌, ◌≡◌, refl, ap, ◌∙◌, inl, inr, Bool, true, false, Option, none, some, List, [], ◌∷◌,
  ◌++◌, Text, text_eq, text_eq_iff, codes, drop, starts_with, if◌then◌else◌, ok, arith, Bool-cases,
}
use sequelize.Base.Decimal.{decimal, decimal_inj, decimal_head}
use sequelize.Sql.Binds.{
  Entries, Bind, array, object, get, set_key, spread, index_entries, array_bind_to_named_bind,
  combine_binds, some_reserved, assert_no_reserved_bind, Generator, bind_name_of, generate,
}

abbrev pub is_reserved : Text → Bool
is_reserved key = starts_with key (codes "sequelize_")

bind_name_of-reserved : (i : ℕ) → is_reserved (bind_name_of i) ≡ true
bind_name_of-reserved i = refl

bind_name_of_inj : (i j : ℕ) → bind_name_of i ≡ bind_name_of j → i ≡ j
bind_name_of_inj i j h = decimal_inj i j (ap (drop 10) h)

decimal_not_reserved : (i : ℕ) → is_reserved (decimal i) ≡ false
decimal_not_reserved i = let (d, rest, e, h) = decimal_head i in rw e (ground arith)

module _ {V : Type 0} where
  pub get-set_key :
      (key k : Text) (v : V) (entries : Entries V)
      → get key (set_key k v entries) ≡ (if text_eq k key then some v else get key entries)
  unfolding get set_key
  get-set_key key k v [] = refl
  get-set_key key k v ((j, w) ∷ entries) =
      ground
        (arith, text_eq_iff k key, text_eq_iff j k, text_eq_iff j key, get-set_key key k v entries)

  -- `first ?? second`.
  abbrev pub or_else : Option V → Option V → Option V
  or_else none second = second
  or_else (some v) second = some v

  -- No key stands twice, as in an object.
  abbrev pub HasUniqueKeys : Entries V → Type 0
  HasUniqueKeys [] = Unit
  HasUniqueKeys ((k, v) ∷ entries) = (get k entries ≡ none) × HasUniqueKeys entries

  get-of-eq :
      (j k : Text) (entries : Entries V) → text_eq j k ≡ true → get j entries ≡ get k entries
  get-of-eq j k entries h = ap (λ key. get key entries) ((text_eq_iff j k).0 h)

  pub get-spread :
      (key : Text) (a b : Entries V)
      → HasUniqueKeys b
      → get key (spread a b) ≡ or_else (get key b) (get key a)
  unfolding spread get
  get-spread key a [] u = refl
  get-spread key a ((k, v) ∷ b) (new, u) =
      get-spread key (set_key k v a) b u
      ∙ ap (or_else (get key b)) (get-set_key key k v a)
      ∙ elim (Bool-cases (text_eq k key)) [
        | inl y ↦ rw (y, ← get-of-eq k key b y, new) refl
        | inr n ↦ rw n refl
      ]

  -- The objects that a generator has written to.
  pub data Generated : Generator V → Type 0 where
    fresh : Generated (record { i = 0; bind = [] })
    more : {g : Generator V} (v : V) → Generated g → Generated (generate v g).1

  set_key-HasUniqueKeys :
      (key : Text) (value : V) (entries : Entries V)
      → HasUniqueKeys entries
      → HasUniqueKeys (set_key key value entries)
  unfolding set_key get
  set_key-HasUniqueKeys key value [] u = (refl, tt)
  set_key-HasUniqueKeys key value ((k, v) ∷ entries) (new, u) = elim (Bool-cases (text_eq k key)) [
    | inl y ↦ rw y (new, u)
    | inr n ↦ rw n (
      get-set_key k key value entries ∙ ground (arith, text_eq_iff k key, text_eq_iff key k),
      set_key-HasUniqueKeys key value entries u,
    )
  ]

  Generated-HasUniqueKeys : {g : Generator V} → Generated g → HasUniqueKeys g.bind
  unfolding generate
  Generated-HasUniqueKeys fresh = tt
  Generated-HasUniqueKeys (more {g} v r) =
      set_key-HasUniqueKeys (bind_name_of (g.i + 1)) v g.bind (Generated-HasUniqueKeys r)

  -- A generator writes reserved keys only.
  Generated-reserved :
      {g : Generator V} (key : Text) → Generated g → is_reserved key ≡ false → get key g.bind ≡ none
  unfolding generate
  Generated-reserved key fresh h = unfold get in refl
  Generated-reserved key (more {g} v r) h =
      get-set_key key (bind_name_of (g.i + 1)) v g.bind
      ∙ elim (Bool-cases (text_eq (bind_name_of (g.i + 1)) key)) [
        | inl y ↦
            let same : bind_name_of (g.i + 1) ≡ key = (text_eq_iff _ key).0 y in
            cc (bind_name_of-reserved (g.i + 1), ap is_reserved same)
        | inr n ↦ rw n (Generated-reserved key r h)
      ]

  -- The names that a generator will use are not in its object yet.
  Generated-unused :
      {g : Generator V} (i : ℕ) → Generated g → g.i < i → get (bind_name_of i) g.bind ≡ none
  unfolding generate
  Generated-unused i fresh h = unfold get in refl
  Generated-unused i (more {g} v r) h =
      get-set_key (bind_name_of i) (bind_name_of (g.i + 1)) v g.bind
      ∙ elim (Bool-cases (text_eq (bind_name_of (g.i + 1)) (bind_name_of i))) [
        | inl y ↦ absurd (
            omega (
              arith,
              bind_name_of_inj (g.i + 1) i
                  ((text_eq_iff (bind_name_of (g.i + 1)) (bind_name_of i)).0 y),
            ))
        | inr n ↦ rw n (Generated-unused i r (omega arith))
      ]

  -- The entries of a bind: an array has the keys "1", "2" and so on.
  abbrev pub named_entries : Bind V → Entries V
  named_entries (array bind) = array_bind_to_named_bind bind
  named_entries (object bind) = bind

  object_accepted :
      (key : Text) (bind : Entries V)
      → some_reserved bind ≡ false
      → is_reserved key ≡ true
      → get key bind ≡ none
  unfolding some_reserved get
  object_accepted key [] h r = refl
  object_accepted key ((k, v) ∷ bind) h r = elim (Bool-cases (text_eq k key)) [
    | inl y ↦ let same : k ≡ key = (text_eq_iff k key).0 y in ground (arith, ap is_reserved same)
    | inr n ↦ rw n (object_accepted key bind (ground arith) r)
  ]

  index_entries_not_reserved :
      (key : Text) (i : ℕ) (bind : List V) (out : Entries V)
      → is_reserved key ≡ true
      → get key out ≡ none
      → get key (index_entries i bind out) ≡ none
  unfolding index_entries
  index_entries_not_reserved key i [] out r h = h
  index_entries_not_reserved key i (v ∷ bind) out r h =
      index_entries_not_reserved key (i + 1) bind (set_key (decimal (i + 1)) v out) r (
        get-set_key key (decimal (i + 1)) v out
        ∙ elim (Bool-cases (text_eq (decimal (i + 1)) key)) [
          | inl y ↦
              let same : decimal (i + 1) ≡ key = (text_eq_iff (decimal (i + 1)) key).0 y in
              cc (decimal_not_reserved (i + 1), ap is_reserved same)
          | inr n ↦ rw n h
        ])

  accepted :
      (key : Text) (bind : Bind V)
      → assert_no_reserved_bind bind ≡ ok tt
      → is_reserved key ≡ true
      → get key (named_entries bind) ≡ none
  unfolding assert_no_reserved_bind array_bind_to_named_bind
  accepted key (array bind) h r = index_entries_not_reserved key 0 bind [] r (unfold get in refl)
  accepted key (object bind) h r = object_accepted key bind (ground arith) r

  or_else-none : (o : Option V) → or_else o none ≡ o
  or_else-none none = refl
  or_else-none (some v) = refl

  get-combine_binds-spread :
      (key : Text) (bind : Bind V) (b : Entries V)
      → HasUniqueKeys b
      → get key (combine_binds bind b) ≡ or_else (get key b) (get key (named_entries bind))
  unfolding combine_binds
  get-combine_binds-spread key (array bind) b u = get-spread key (array_bind_to_named_bind bind) b u
  get-combine_binds-spread key (object bind) b u = get-spread key bind b u

  -- A bind that `assertNoReservedBind` lets through and the values of a bind parameter generator
  -- never meet in one key: each key of the combined object has the value of the generator if it is
  -- reserved, and the user's value if it is not. So nothing is overwritten.
  pub get-combine_binds :
      (bind : Bind V) (g : Generator V) (key : Text)
      → assert_no_reserved_bind bind ≡ ok tt
      → Generated g
      → get key (combine_binds bind g.bind)
        ≡ (if is_reserved key then get key g.bind else get key (named_entries bind))
  get-combine_binds bind g key h r =
      get-combine_binds-spread key bind g.bind (Generated-HasUniqueKeys r)
      ∙ elim (Bool-cases (is_reserved key)) [
        | inl y ↦ rw (y, accepted key bind h y) (or_else-none (get key g.bind))
        | inr n ↦ rw (n, Generated-reserved key r n) refl
      ]

  -- Each value that a generator takes gets a name of its own: the name written to the query was not
  -- in the object, it is bound to the value afterwards, and all other names keep their values.
  pub generate_fresh :
      (v : V) (g : Generator V) (key : Text)
      → Generated g
      → (get (bind_name_of (g.i + 1)) g.bind ≡ none)
        × ((generate v g).0 ≡ codes "$" ++ bind_name_of (g.i + 1))
        × (get key (generate v g).1.bind
            ≡ (if text_eq (bind_name_of (g.i + 1)) key then some v else get key g.bind))
  unfolding generate
  generate_fresh v g key r = (
    Generated-unused (g.i + 1) r (omega arith),
    refl,
    get-set_key key (bind_name_of (g.i + 1)) v g.bind,
  )
