-- ===== src/Where/Grammar.antt =====
-- The SQL conditions that packages/core/src/abstract-dialect/where-sql-builder.ts writes, as a grammar
-- with their truth values: `NOT` and parentheses bind tighter than `AND`, which binds tighter than
-- `OR`. What a single condition looks like is a parameter, and which of them SQL reads as one operand
-- of `AND`, `OR`: any may stand by itself, behind `NOT` in parentheses, or in parentheses.
use sequelize.Base.{
  ℕ, ◌⊎◌, ◌∙◌, ◌≡◌, refl, ap, inl, inr, Bool, true, false, not, ◌&&◌, ◌||◌, Option, none, some, [],
  ◌∷◌, ◌++◌, Text, codes, starts_with, arith, Bool-cases,
}
use sequelize.Where.Logic.{upper_char, upper, contains, mentions_logical, is_empty, wrap}

module _ (Leaf : Text → Bool → Type 0) (IsUnit : Text → Type 0) where
  mutual
    pub data Term : Text → Bool → Type 0 where
      leaf : {s : Text} {v : Bool} → Leaf s v → IsUnit s → Term s v
      paren : {s t : Text} {v : Bool} → Condition s v → t ≡ codes "(" ++ (s ++ codes ")") → Term t v
      negated :
          {s t : Text} {v w : Bool}
          → Condition s v
          → t ≡ codes "NOT (" ++ (s ++ codes ")")
          → w ≡ not v
          → Term t w

    pub data Conjunction : Text → Bool → Type 0 where
      term : {s : Text} {v : Bool} → Term s v → Conjunction s v
      both :
          {s t u : Text} {v w x : Bool}
          → Term s v
          → Conjunction t w
          → u ≡ s ++ (codes " AND " ++ t)
          → x ≡ v && w
          → Conjunction u x

    pub data Disjunction : Text → Bool → Type 0 where
      conjunction : {s : Text} {v : Bool} → Conjunction s v → Disjunction s v
      either :
          {s t u : Text} {v w x : Bool}
          → Conjunction s v
          → Disjunction t w
          → u ≡ s ++ (codes " OR " ++ t)
          → x ≡ v || w
          → Disjunction u x

    pub data Condition : Text → Bool → Type 0 where
      alone : {s : Text} {v : Bool} → Leaf s v → Condition s v
      disjunction : {s : Text} {v : Bool} → Disjunction s v → Condition s v

  -- What a text means: the empty text is no condition at all.
  abbrev pub Denotes : Text → Option Bool → Type 0
  Denotes s none = s ≡ []
  Denotes s (some v) = Condition s v × (is_empty s ≡ false)

-- A letter, big or small.
abbrev pub IsLetter : ℕ → ℕ → ℕ → Type 0
IsLetter big small c = (c ≡ big) ⊎ (c ≡ small)

-- AND or OR between two spaces, in any letters.
pub data IsLogicalWord : Text → Type 0 where
  and_word :
      {a n d : ℕ}
      → IsLetter b'A' b'a' a
      → IsLetter b'N' b'n' n
      → IsLetter b'D' b'd' d
      → IsLogicalWord (b' ' ∷ a ∷ n ∷ d ∷ b' ' ∷ [])
  or_word :
      {o r : ℕ}
      → IsLetter b'O' b'o' o
      → IsLetter b'R' b'r' r
      → IsLogicalWord (b' ' ∷ o ∷ r ∷ b' ' ∷ [])

-- What tells that a condition is no single operand.
abbrev pub HasLogicalWord : Text → Type 0
HasLogicalWord s = (a w b : Text) × (s ≡ a ++ (w ++ b)) × IsLogicalWord w

-- Conditions with no such word in them are single operands.
abbrev pub AreUnits : (Text → Bool → Type 0) → (Text → Type 0) → Type 0
AreUnits Leaf IsUnit = (s : Text) (v : Bool) → Leaf s v → (HasLogicalWord s → ⊥) → IsUnit s

starts_with-append : (a b w : Text) → starts_with a w ≡ true → starts_with (a ++ b) w ≡ true
starts_with-append a b [] h = ground arith
starts_with-append [] b (c ∷ w) h = cc
starts_with-append (x ∷ a) b (c ∷ w) h = ground (arith, starts_with-append a b w)

contains-append : (a b w : Text) → contains b w ≡ true → contains (a ++ b) w ≡ true
unfolding contains
contains-append [] b w h = h
contains-append (x ∷ a) b w h = ground (arith, contains-append a b w h)

upper-append : (a b : Text) → upper (a ++ b) ≡ upper a ++ upper b
unfolding upper
upper-append [] b = refl
upper-append (x ∷ a) b = rw (upper-append a b) refl

or_true : (a : Bool) {b : Bool} → b ≡ true → (a || b) ≡ true
or_true a h = ground arith

letter-upper :
    (big small c : ℕ)
    → upper_char big ≡ big
    → upper_char small ≡ big
    → IsLetter big small c
    → upper_char c ≡ big
letter-upper big small c h k (inl p) = ap upper_char p ∙ h
letter-upper big small c h k (inr p) = ap upper_char p ∙ k

-- The test of `joinWithLogicalOperator` finds these words.
word-mentioned : (a w b : Text) → IsLogicalWord w → mentions_logical (a ++ (w ++ b)) ≡ true
unfolding mentions_logical
word-mentioned a _ b (IsLogicalWord.and_word {a = x} {n = n} {d = d} p q r) =
    rw
      (
        upper-append a (b' ' ∷ x ∷ n ∷ d ∷ b' ' ∷ b),
        contains-append (upper a) (upper (b' ' ∷ x ∷ n ∷ d ∷ b' ' ∷ b)) (codes " AND ") (
            unfold contains upper in
            rw
              (
                letter-upper b'A' b'a' x refl refl p,
                letter-upper b'N' b'n' n refl refl q,
                letter-upper b'D' b'd' d refl refl r,
              )
              refl),
      )
      refl
word-mentioned a _ b (IsLogicalWord.or_word {o = o} {r = r} p q) =
    rw (upper-append a (b' ' ∷ o ∷ r ∷ b' ' ∷ b)) (
      or_true (contains (upper a ++ upper (b' ' ∷ o ∷ r ∷ b' ' ∷ b)) (codes " AND ")) (
        contains-append (upper a) (upper (b' ' ∷ o ∷ r ∷ b' ' ∷ b)) (codes " OR ") (
          unfold contains upper in
          rw (letter-upper b'O' b'o' o refl refl p, letter-upper b'R' b'r' r refl refl q) refl)))

mentions-and : (s t : Text) → mentions_logical (s ++ (codes " AND " ++ t)) ≡ true
mentions-and s t =
    word-mentioned s (codes " AND ") t (IsLogicalWord.and_word (inl refl) (inl refl) (inl refl))

mentions-or : (s t : Text) → mentions_logical (s ++ (codes " OR " ++ t)) ≡ true
mentions-or s t = word-mentioned s (codes " OR ") t (IsLogicalWord.or_word (inl refl) (inl refl))

pub no_logical_word : (s : Text) → mentions_logical s ≡ false → HasLogicalWord s → ⊥
no_logical_word s h (a, w, b, e, k) = cc (ap mentions_logical e, word-mentioned a w b k, h)

module _ (Leaf : Text → Bool → Type 0) (IsUnit : Text → Type 0) (units : AreUnits Leaf IsUnit) where
  -- What the test of `joinWithLogicalOperator` lets stand without parentheses needs none.
  Term-of-Disjunction :
      {s : Text} {v : Bool}
      → Disjunction Leaf IsUnit s v
      → mentions_logical s ≡ false
      → Term Leaf IsUnit s v
  Term-of-Disjunction (Disjunction.conjunction (Conjunction.term t)) h = t
  Term-of-Disjunction (Disjunction.conjunction (Conjunction.both {s} {t} a b e x)) h =
      absurd (cc (ap mentions_logical e, mentions-and s t, h))
  Term-of-Disjunction (Disjunction.either {s} {t} a b e x) h =
      absurd (cc (ap mentions_logical e, mentions-or s t, h))

  Term-of-Condition :
      {s : Text} {v : Bool}
      → Condition Leaf IsUnit s v
      → mentions_logical s ≡ false
      → Term Leaf IsUnit s v
  Term-of-Condition {s} {v} (Condition.alone l) h = Term.leaf l (units s v l (no_logical_word s h))
  Term-of-Condition (Condition.disjunction d) h = Term-of-Disjunction d h

  pub wrap-Term : {s : Text} {v : Bool} → Condition Leaf IsUnit s v → Term Leaf IsUnit (wrap s) v
  unfolding wrap
  wrap-Term {s} d = elim (Bool-cases (mentions_logical s)) [
    | inl y ↦ rw y (Term.paren d refl)
    | inr n ↦ rw n (Term-of-Condition d n)
  ]
