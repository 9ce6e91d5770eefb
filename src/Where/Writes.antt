-- ===== src/Where/Writes.antt =====
-- Computations that write conditions with given truth values, for the recursions of
-- packages/core/src/abstract-dialect/where-sql-builder.ts.
use sequelize.Base.{
  ◌≡◌, refl, sym, ap, subst, Bool, Option, none, List, [], ◌∷◌, Text, Result, ok, throw, ok_inj,
}
use sequelize.Where.Logic.{Connective, join_with_logical_operator, wrap_with_not}
use sequelize.Where.Grammar.{Denotes, AreUnits}
use sequelize.Where.Meaning.{
  join_meanings, negate, AllDenote, join_with_logical_operator-Denotes, wrap_with_not-Denotes,
}
use sequelize.Where.Tree.{WhereError, M, then_do, ◌>>=◌, pure, fail}

-- What a computation that returned has gone through.
pub >>=-ok :
    {S A B : Type 0} (action : M S A) (next : A → M S B) (s : S) {end : B × S}
    → (action >>= next) s ≡ ok end
    → (value : A) × (s' : S) × (action s ≡ ok (value, s')) × (next value s' ≡ ok end)
>>=-ok {S} {A} {B} action next s {end} h = go (action s) refl h
  where
    go :
        (r : Result WhereError (A × S))
        → action s ≡ r
        → then_do r next ≡ ok end
        → (value : A) × (s' : S) × (action s ≡ ok (value, s')) × (next value s' ≡ ok end)
    go (ok (value, s')) e k = (value, s', e, k)
    go (throw problem) e k = cc

pub pure_value : {S A : Type 0} (a b : A) (s t : S) → pure a s ≡ ok (b, t) → a ≡ b
pure_value a b s t h = ap (λ r. r.0) (ok_inj h)

module _ {S : Type 0} (Leaf : Text → Bool → Type 0) (IsUnit : Text → Type 0) where
  abbrev pub Writes : M S Text → Option Bool → Type 0
  Writes m v = (s s' : S) (text : Text) → m s ≡ ok (text, s') → Denotes Leaf IsUnit text v

  abbrev pub WritesAll : M S (List Text) → List (Option Bool) → Type 0
  WritesAll m vs =
      (s s' : S) (texts : List Text) → m s ≡ ok (texts, s') → AllDenote Leaf IsUnit texts vs

  pub joined-Writes :
      (units : AreUnits Leaf IsUnit) (operator : Connective) (m : M S (List Text))
      (vs : List (Option Bool))
      → WritesAll m vs
      → Writes
          (m >>= λ texts. pure (join_with_logical_operator texts operator))
          (join_meanings operator vs)
  joined-Writes units operator m vs h s s' text e =
      let (texts, t, e', k) = >>=-ok m _ s e in
      subst (λ x. Denotes Leaf IsUnit x (join_meanings operator vs)) (pure_value _ text t s' k)
        (join_with_logical_operator-Denotes Leaf IsUnit units operator texts vs (h s t texts e'))

  pub cons-WritesAll :
      {X : Type 0} (m : M S X) (f : X → Text) (rest : M S (List Text)) (v : Option Bool)
      (vs : List (Option Bool))
      → ((s s' : S) (x : X) → m s ≡ ok (x, s') → Denotes Leaf IsUnit (f x) v)
      → WritesAll rest vs
      → WritesAll (m >>= λ x. rest >>= λ texts. pure (f x ∷ texts)) (v ∷ vs)
  cons-WritesAll m f rest v vs h k s s' texts e =
      let (text, t, e', later) = >>=-ok m _ s e in
      let (tail, t', e'', last) = >>=-ok rest _ t later in
      subst (λ x. AllDenote Leaf IsUnit x (v ∷ vs)) (pure_value _ texts t' s' last)
        (h s t text e', k t t' tail e'')

  pub fail-Writes : (problem : WhereError) (v : Option Bool) → Writes (fail problem) v
  fail-Writes problem v s s' text e = cc

  pub fail-WritesAll :
      (problem : WhereError) (vs : List (Option Bool)) → WritesAll (fail problem) vs
  fail-WritesAll problem vs s s' texts e = cc

  pub empty-Writes : Writes (pure []) none
  empty-Writes s s' text e = sym (pure_value [] text s s' e)

  pub nil-WritesAll : WritesAll (pure []) []
  nil-WritesAll s s' texts e =
      subst (λ x. AllDenote Leaf IsUnit x []) (pure_value [] texts s s' e) tt

  pub negated-Writes :
      (m : M S Text) (v : Option Bool)
      → Writes m v
      → (s s' : S) (text : Text) → m s ≡ ok (text, s')
      → Denotes Leaf IsUnit (wrap_with_not text) (negate v)
  negated-Writes m v h s s' text e = wrap_with_not-Denotes Leaf IsUnit text v (h s s' text e)
