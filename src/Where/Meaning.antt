-- ===== src/Where/Meaning.antt =====
-- What the parts of a where clause mean, and what `joinWithLogicalOperator` and `wrapWithNot` of
-- packages/core/src/abstract-dialect/where-sql-builder.ts make of them.
use sequelize.Base.{
  ◌≡◌, refl, inl, inr, Bool, false, not, ◌&&◌, ◌||◌, Option, none, some, List, [], ◌∷◌, ◌++◌, Text,
  codes, Bool-cases,
}
use sequelize.Where.Logic.{
  Connective, op_and, op_or, is_empty, non_empty, wrap, mentions_logical, join_wrapped,
  join_with_logical_operator, join_non_empty, wrap_with_not,
}
use sequelize.Where.Grammar.{
  Term, Conjunction, Disjunction, Condition, Denotes, AreUnits, wrap-Term,
}

-- A part that writes nothing says nothing, and the others are combined.
abbrev pub apply : Connective → Bool → Bool → Bool
apply op_and v w = v && w
apply op_or v w = v || w

unfoldable pub somes : List (Option Bool) → List Bool
somes [] = []
somes (none ∷ rest) = somes rest
somes (some v ∷ rest) = v ∷ somes rest

unfoldable pub fold : Connective → Bool → List Bool → Bool
fold operator v [] = v
fold operator v (w ∷ rest) = apply operator v (fold operator w rest)

abbrev fold_all : Connective → List Bool → Option Bool
fold_all operator [] = none
fold_all operator (v ∷ rest) = some (fold operator v rest)

unfoldable pub join_meanings : Connective → List (Option Bool) → Option Bool
unfolding somes fold
join_meanings operator values = fold_all operator (somes values)

abbrev pub negate : Option Bool → Option Bool
negate none = none
negate (some v) = some (not v)

module _ (Leaf : Text → Bool → Type 0) (IsUnit : Text → Type 0) where
  abbrev pub AllDenote : List Text → List (Option Bool) → Type 0
  AllDenote [] [] = Unit
  AllDenote [] (v ∷ values) = ⊥
  AllDenote (s ∷ texts) [] = ⊥
  AllDenote (s ∷ texts) (v ∷ values) = Denotes Leaf IsUnit s v × AllDenote texts values

  abbrev AllHold : List Text → List Bool → Type 0
  AllHold [] [] = Unit
  AllHold [] (v ∷ values) = ⊥
  AllHold (s ∷ texts) [] = ⊥
  AllHold (s ∷ texts) (v ∷ values) = Denotes Leaf IsUnit s (some v) × AllHold texts values

  non_empty-AllHold :
      (texts : List Text) (values : List (Option Bool))
      → AllDenote texts values
      → AllHold (non_empty texts) (somes values)
  unfolding non_empty somes
  non_empty-AllHold [] [] h = tt
  non_empty-AllHold [] (v ∷ values) h = absurd h
  non_empty-AllHold (s ∷ texts) [] h = absurd h
  non_empty-AllHold (s ∷ texts) (none ∷ values) (e, h) = rw e (non_empty-AllHold texts values h)
  non_empty-AllHold (s ∷ texts) (some v ∷ values) ((d, n), h) =
      rw n ((d, n), non_empty-AllHold texts values h)

  pub is_empty-append : (a b : Text) → is_empty a ≡ false → is_empty (a ++ b) ≡ false
  is_empty-append [] b h = cc
  is_empty-append (c ∷ a) b h = refl

  is_empty-wrap : (s : Text) → is_empty s ≡ false → is_empty (wrap s) ≡ false
  unfolding wrap
  is_empty-wrap s h = elim (Bool-cases (mentions_logical s)) [ inl y ↦ rw y refl | inr n ↦ rw n h ]

  is_empty-join_wrapped :
      (separator s : Text) (rest : List Text)
      → is_empty s ≡ false
      → is_empty (join_wrapped separator s rest) ≡ false
  unfolding join_wrapped
  is_empty-join_wrapped separator s [] h = is_empty-wrap s h
  is_empty-join_wrapped separator s (t ∷ rest) h = is_empty-append (wrap s) _ (is_empty-wrap s h)

  join_wrapped-Conjunction :
      (units : AreUnits Leaf IsUnit) (s : Text) (v : Bool) (texts : List Text) (values : List Bool)
      → Condition Leaf IsUnit s v
      → AllHold texts values
      → Conjunction Leaf IsUnit (join_wrapped (codes " AND ") s texts) (fold op_and v values)
  unfolding join_wrapped fold
  join_wrapped-Conjunction units s v [] [] d h = Conjunction.term (wrap-Term Leaf IsUnit units d)
  join_wrapped-Conjunction units s v [] (w ∷ values) d h = absurd h
  join_wrapped-Conjunction units s v (t ∷ texts) [] d h = absurd h
  join_wrapped-Conjunction units s v (t ∷ texts) (w ∷ values) d ((e, n), h) =
      Conjunction.both (wrap-Term Leaf IsUnit units d)
        (join_wrapped-Conjunction units t w texts values e h) refl refl

  join_wrapped-Disjunction :
      (units : AreUnits Leaf IsUnit) (s : Text) (v : Bool) (texts : List Text) (values : List Bool)
      → Condition Leaf IsUnit s v
      → AllHold texts values
      → Disjunction Leaf IsUnit (join_wrapped (codes " OR ") s texts) (fold op_or v values)
  unfolding join_wrapped fold
  join_wrapped-Disjunction units s v [] [] d h =
      Disjunction.conjunction (Conjunction.term (wrap-Term Leaf IsUnit units d))
  join_wrapped-Disjunction units s v [] (w ∷ values) d h = absurd h
  join_wrapped-Disjunction units s v (t ∷ texts) [] d h = absurd h
  join_wrapped-Disjunction units s v (t ∷ texts) (w ∷ values) d ((e, n), h) =
      Disjunction.either (Conjunction.term (wrap-Term Leaf IsUnit units d))
        (join_wrapped-Disjunction units t w texts values e h) refl refl

  -- The text that `joinWithLogicalOperator` writes is a condition in which each part keeps its
  -- meaning: empty parts are left out, and no part is torn apart by the precedence of the operators.
  -- The condition is that SQL reads a part as a single operand that is the text of one condition with
  -- no AND or OR between two spaces in it, in big or small letters.
  pub join_with_logical_operator-Denotes :
      (units : AreUnits Leaf IsUnit) (operator : Connective) (texts : List Text)
      (values : List (Option Bool))
      → AllDenote texts values
      → Denotes Leaf IsUnit
          (join_with_logical_operator texts operator)
          (join_meanings operator values)
  unfolding join_with_logical_operator join_meanings
  join_with_logical_operator-Denotes units operator texts values h =
      join_denotes operator (non_empty texts) (somes values) (non_empty-AllHold texts values h)
    where
      join_denotes :
          (operator : Connective) (texts : List Text) (values : List Bool)
          → AllHold texts values
          → Denotes Leaf IsUnit (join_non_empty texts operator) (fold_all operator values)
      join_denotes operator [] [] h = refl
      join_denotes operator [] (v ∷ values) h = absurd h
      join_denotes operator (s ∷ texts) [] h = absurd h
      join_denotes operator (s ∷ []) (v ∷ []) (d, h) = d
      join_denotes operator (s ∷ []) (v ∷ w ∷ values) (d, h) = absurd h
      join_denotes operator (s ∷ t ∷ texts) (v ∷ []) (d, h) = absurd h
      join_denotes op_and (s ∷ t ∷ texts) (v ∷ w ∷ values) ((d, n), h) = (
        Condition.disjunction (
            Disjunction.conjunction
              (join_wrapped-Conjunction units s v (t ∷ texts) (w ∷ values) d h)),
        is_empty-join_wrapped (codes " AND ") s (t ∷ texts) n,
      )
      join_denotes op_or (s ∷ t ∷ texts) (v ∷ w ∷ values) ((d, n), h) = (
        Condition.disjunction (join_wrapped-Disjunction units s v (t ∷ texts) (w ∷ values) d h),
        is_empty-join_wrapped (codes " OR ") s (t ∷ texts) n,
      )

  pub wrap_with_not-Denotes :
      (s : Text) (v : Option Bool)
      → Denotes Leaf IsUnit s v
      → Denotes Leaf IsUnit (wrap_with_not s) (negate v)
  unfolding wrap_with_not
  wrap_with_not-Denotes s none e = rw e refl
  wrap_with_not-Denotes s (some v) (d, n) = rw n (
    Condition.disjunction (Disjunction.conjunction (Conjunction.term (Term.negated d refl refl))),
    refl,
  )
