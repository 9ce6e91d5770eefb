-- ===== src/Hooks/MultiMap.antt =====
-- packages/utils/src/common/map/multi-map.ts: a map from keys to non-empty lists without duplicates.
-- A key is a number, and `same` is `===` on the values. `set`, which calls lodash, is left out.
use sequelize.Base.{
  ℕ, ◌≤◌, ◌≡◌, refl, sym, ap, ◌∙◌, inl, inr, Bool, true, false, Option, none, some, List, [], ◌∷◌,
  ◌++◌, ◌==◌, ==_iff, if◌then◌else◌, length, arith, Bool-cases,
}

abbrev pub MultiMap : Type 0 → Type 0
MultiMap V = List (ℕ × List V)

module _ {V : Type 0} where
  -- `get` of the internal map.
  unfoldable pub find : ℕ → MultiMap V → Option (List V)
  find key [] = none
  find key ((k, values) ∷ rest) = if k == key then some values else find key rest

  -- `set` of the internal map: a key that is new comes last.
  unfoldable pub store : ℕ → List V → MultiMap V → MultiMap V
  store key values [] = (key, values) ∷ []
  store key values ((k, vs) ∷ rest) =
      if k == key then (k, values) ∷ rest else (k, vs) ∷ store key values rest

  -- `delete`.
  unfoldable pub delete : ℕ → MultiMap V → MultiMap V
  delete key [] = []
  delete key ((k, vs) ∷ rest) =
      let rest' = delete key rest in if k == key then rest' else (k, vs) ∷ rest'

  abbrev pub values_of : Option (List V) → List V
  values_of none = []
  values_of (some values) = values

  unfoldable pub get : ℕ → MultiMap V → List V
  unfolding find
  get key m = values_of (find key m)

  unfoldable pub count : ℕ → MultiMap V → ℕ
  unfolding find
  count key m = length (values_of (find key m))

  pub find-store :
      (j key : ℕ) (values : List V) (m : MultiMap V)
      → find j (store key values m) ≡ (if key == j then some values else find j m)
  unfolding find store
  find-store j key values [] = refl
  find-store j key values ((k, vs) ∷ rest) = ground (arith, find-store j key values rest)

  pub find-delete :
      (j key : ℕ) (m : MultiMap V) → find j (delete key m) ≡ (if key == j then none else find j m)
  unfolding find delete
  find-delete j key [] = ground arith
  find-delete j key ((k, vs) ∷ rest) = ground (arith, find-delete j key rest)

  module _ (same : V → V → Bool) where
    unfoldable pub includes : List V → V → Bool
    includes [] v = false
    includes (u ∷ us) v = if same u v then true else includes us v

    -- `valueSet.filter(val => val !== value)`.
    unfoldable pub without : V → List V → List V
    without v [] = []
    without v (u ∷ us) = let us' = without v us in if same u v then us' else u ∷ us'

    abbrev append_to : ℕ → V → Option (List V) → MultiMap V → MultiMap V
    append_to key value none m = store key (value ∷ []) m
    append_to key value (some values) m =
        if includes values value then m else store key (values ++ (value ∷ [])) m

    unfoldable pub append : ℕ → V → MultiMap V → MultiMap V
    unfolding includes store find
    append key value m = append_to key value (find key m) m

    abbrev store_rest : ℕ → List V → MultiMap V → MultiMap V
    store_rest key [] m = delete key m
    store_rest key (v ∷ values) m = store key (v ∷ values) m

    abbrev delete_from : ℕ → V → Option (List V) → MultiMap V → MultiMap V
    delete_from key value none m = m
    delete_from key value (some values) m =
        let rest = without value values in
        if length rest == length values then m else store_rest key rest m

    unfoldable pub delete_value : ℕ → V → MultiMap V → MultiMap V
    unfolding without store delete find
    delete_value key value m = delete_from key value (find key m) m

    if-values :
        (b : Bool) (values : List V) (o : Option (List V))
        → values_of (if b then some values else o) ≡ (if b then values else values_of o)
    if-values true values o = refl
    if-values false values o = refl

    if-none :
        (b : Bool) (o : Option (List V))
        → values_of (if b then none else o) ≡ (if b then [] else values_of o)
    if-none true o = refl
    if-none false o = refl

    -- A map that is left as it is.
    kept :
        (j key : ℕ) (m : MultiMap V) (o : Option (List V))
        → find key m ≡ o
        → values_of (find j m) ≡ (if key == j then values_of o else values_of (find j m))
    kept j key m o h = elim (Bool-cases (key == j)) [
      | inl y ↦ rw y (ap (λ k. values_of (find k m)) (sym ((==_iff key j).0 y)) ∙ ap values_of h)
      | inr n ↦ rw n refl
    ]

    find-store_rest :
        (j key : ℕ) (values : List V) (m : MultiMap V)
        → values_of (find j (store_rest key values m))
          ≡ (if key == j then values else values_of (find j m))
    find-store_rest j key [] m = ap values_of (find-delete j key m) ∙ if-none (key == j) (find j m)
    find-store_rest j key (v ∷ values) m =
        ap values_of (find-store j key (v ∷ values) m)
        ∙ if-values (key == j) (v ∷ values) (find j m)

    length-without :
        (v : V) (values : List V)
        → (length (without v values) ≡ length values → without v values ≡ values)
          × (length (without v values) ≤ length values)
    unfolding without
    length-without v [] = (λ _. refl, omega arith)
    length-without v (u ∷ us) =
        let (whole, bound) = length-without v us in
        elim (Bool-cases (same u v)) [
          | inl y ↦ rw y (λ h. absurd (omega (arith, h, bound)), omega (arith, bound))
          | inr n ↦ rw n (λ h. ap (λ vs. u ∷ vs) (whole (omega (arith, h))), omega (arith, bound))
        ]

    pub includes-without :
        (v : V) (values : List V) → includes values v ≡ false → without v values ≡ values
    unfolding includes without
    includes-without v [] h = refl
    includes-without v (u ∷ us) h = ground (arith, includes-without v us)

    pub without-append :
        (v : V) (us vs : List V) → without v (us ++ vs) ≡ without v us ++ without v vs
    unfolding without
    without-append v [] vs = refl
    without-append v (u ∷ us) vs = ground (arith, without-append v us vs)

    abbrev pub added : List V → V → List V
    added values v = if includes values v then values else values ++ (v ∷ [])

    -- `append` puts a value at the end of the list of its key, unless it is there, and leaves the
    -- other keys.
    pub get-append :
        (j key : ℕ) (value : V) (m : MultiMap V)
        → get j (append key value m) ≡ (if key == j then added (get key m) value else get j m)
    unfolding get append
    get-append j key value m = go (find key m) refl
      where
        go :
            (o : Option (List V))
            → find key m ≡ o
            → values_of (find j (append_to key value o m))
              ≡ (if key == j then added (values_of o) value else values_of (find j m))
        go none h =
            ap values_of (find-store j key (value ∷ []) m)
            ∙ if-values (key == j) (value ∷ []) (find j m)
        go (some values) h = elim (Bool-cases (includes values value)) [
          | inl y ↦ rw y (kept j key m (some values) h)
          | inr n ↦ rw n (
              ap values_of (find-store j key (values ++ (value ∷ [])) m)
              ∙ if-values (key == j) (values ++ (value ∷ [])) (find j m))
        ]

    -- `delete_value` takes a value out of the list of its key, also where it is the last one there.
    pub get-delete_value :
        (j key : ℕ) (value : V) (m : MultiMap V)
        → get j (delete_value key value m)
          ≡ (if key == j then without value (get key m) else get j m)
    unfolding get delete_value
    get-delete_value j key value m = go (find key m) refl
      where
        go :
            (o : Option (List V))
            → find key m ≡ o
            → values_of (find j (delete_from key value o m))
              ≡ (if key == j then without value (values_of o) else values_of (find j m))
        go none h = kept j key m none h
        go (some values) h = elim (Bool-cases (length (without value values) == length values)) [
          | inl y ↦
              rw (y, (length-without value values).0 ((==_iff _ _).0 y))
                (kept j key m (some values) h)
          | inr n ↦ rw n (find-store_rest j key (without value values) m)
        ]
