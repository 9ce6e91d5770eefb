-- ===== src/Where/Refusal.antt =====
-- Which where clauses `formatWhereOptions` of packages/core/src/abstract-dialect/where-sql-builder.ts
-- refuses.
use sequelize.Base.{
  ◌≡◌, refl, ap, ◌∙◌, Bool, true, false, ◌&&◌, ◌||◌, List, ◌∷◌, Text, Result, ok, throw,
}
use sequelize.Where.Logic.{op_and, Connective, join_with_logical_operator, wrap_with_not}
use sequelize.Where.Tree.{
  WhereError, M, then_do, ◌>>=◌, pure, Where, undefined_value, raw_text, other_value, expression,
  array, object, Wheres, nil, cons, Keys, end, negation, group, symbol, attribute, Part,
  sql_expression, pojo_where, entry, handle, handle_parts, handle_keys, wrapped, format_where,
}

abbrev pub returned : {A : Type 0} → Result WhereError A → Bool
returned (ok value) = true
returned (throw problem) = false

abbrev pub is_undefined : {E V : Type 0} → Where E V → Bool
is_undefined undefined_value = true
is_undefined _ = false

-- A clause without raw text, numbers and the like, with `undefined` only as an entry of an array, and
-- without other operators than `Op.and`, `Op.or` and `Op.not` in place of an attribute name.
module _ {E V : Type 0} where
  unfoldable mutual
    pub accepts : Where E V → Bool
    accepts undefined_value = false
    accepts raw_text = false
    accepts other_value = false
    accepts (expression e) = true
    accepts (array parts) = accepts_all parts
    accepts (object keys) = accepts_keys keys

    accepts_all : Wheres E V → Bool
    accepts_all nil = true
    accepts_all (cons part parts) = (is_undefined part || accepts part) && accepts_all parts

    accepts_keys : Keys E V → Bool
    accepts_keys end = true
    accepts_keys (negation inner keys) = accepts inner && accepts_keys keys
    accepts_keys (group operator inner keys) = accepts inner && accepts_keys keys
    accepts_keys (symbol keys) = false
    accepts_keys (attribute name value keys) = accepts_keys keys

abbrev Returns : {S A : Type 0} → M S A → Bool → Type 0
Returns {S} m p = (s : S) → returned (m s) ≡ p

>>=-Returns :
    {S A B : Type 0} (m : M S A) (k : A → M S B) (p q : Bool)
    → Returns m p
    → ((x : A) → Returns (k x) q)
    → Returns (m >>= k) (p && q)
>>=-Returns {S} {A} {B} m k p q h h' s = go (m s) (h s)
  where
    go : (r : Result WhereError (A × S)) → returned r ≡ p → returned (then_do r k) ≡ p && q
    go (ok (x, t)) e = h' x t ∙ ap (λ c. c && q) e
    go (throw problem) e = ap (λ c. c && q) e

and_true : (p : Bool) → (p && true) ≡ p
and_true true = refl
and_true false = refl

-- An action and a list of further texts.
cons-Returns :
    {S A : Type 0} (m : M S A) (f : A → Text) (rest : M S (List Text)) (p q : Bool)
    → Returns m p
    → Returns rest q
    → Returns (m >>= λ x. rest >>= λ texts. pure (f x ∷ texts)) (p && q)
cons-Returns m f rest p q h h' =
    >>=-Returns m _ p q h λ x s.
      >>=-Returns rest (λ texts. pure (f x ∷ texts)) q true h' (λ texts t. refl) s ∙ and_true q

module _ {E V S : Type 0} (handle_part : Part E V → M S Text)
    (parts_return : (part : Part E V) (s : S) → returned (handle_part part s) ≡ true) where
  entry-Returns :
      (w : Where E V) (m : M S Text)
      → Returns m (accepts w)
      → Returns (entry w m) (is_undefined w || accepts w)
  entry-Returns undefined_value m h s = refl
  entry-Returns raw_text m h s = h s
  entry-Returns other_value m h s = h s
  entry-Returns (expression e) m h s = h s
  entry-Returns (array parts) m h s = h s
  entry-Returns (object keys) m h s = h s

  joined-Returns :
      (operator : Connective) (m : M S (List Text)) (p : Bool)
      → Returns m p
      → Returns (m >>= λ texts. pure (join_with_logical_operator texts operator)) p
  joined-Returns operator m p h s =
      >>=-Returns m (λ texts. pure (join_with_logical_operator texts operator)) p true h
        (λ texts t. refl) s
      ∙ and_true p

  mutual
    unfolding handle accepts

    handle-Returns :
        (w : Where E V) (operator : Connective)
        → Returns (handle handle_part w operator) (accepts w)
    handle-Returns undefined_value operator s = refl
    handle-Returns raw_text operator s = refl
    handle-Returns other_value operator s = refl
    handle-Returns (expression e) operator s = parts_return (sql_expression e) s
    handle-Returns (array parts) operator s =
        joined-Returns operator (handle_parts handle_part parts) (accepts_all parts)
          (handle_parts-Returns parts) s
    handle-Returns (object keys) operator s =
        joined-Returns operator (handle_keys handle_part keys) (accepts_keys keys)
          (handle_keys-Returns keys) s

    handle_parts-Returns :
        (parts : Wheres E V) → Returns (handle_parts handle_part parts) (accepts_all parts)
    handle_parts-Returns nil s = refl
    handle_parts-Returns (cons part parts) s =
        cons-Returns (entry part (handle handle_part part op_and)) (λ text. text)
          (handle_parts handle_part parts) (is_undefined part || accepts part) (accepts_all parts)
          (entry-Returns part (handle handle_part part op_and) (handle-Returns part op_and))
          (handle_parts-Returns parts) s

    handle_keys-Returns :
        (keys : Keys E V) → Returns (handle_keys handle_part keys) (accepts_keys keys)
    handle_keys-Returns end s = refl
    handle_keys-Returns (negation inner keys) s =
        cons-Returns (handle handle_part inner op_and) wrap_with_not (handle_keys handle_part keys)
          (accepts inner) (accepts_keys keys) (handle-Returns inner op_and)
          (handle_keys-Returns keys) s
    handle_keys-Returns (group operator inner keys) s =
        cons-Returns (handle handle_part inner operator) (λ text. text)
          (handle_keys handle_part keys) (accepts inner) (accepts_keys keys)
          (handle-Returns inner operator) (handle_keys-Returns keys) s
    handle_keys-Returns (symbol keys) s = refl
    handle_keys-Returns (attribute name value keys) s =
        cons-Returns (handle_part (pojo_where name value)) (λ text. text)
          (handle_keys handle_part keys) true (accepts_keys keys)
          (parts_return (pojo_where name value)) (handle_keys-Returns keys) s

  returned-wrapped :
      (r : Result WhereError (Text × S)) → returned (wrapped handle_part r) ≡ returned r
  returned-wrapped (ok x) = refl
  returned-wrapped (throw problem) = refl

  -- `formatWhereOptions` writes a condition for a clause exactly if the clause is `undefined` or
  -- acceptable: it has no raw text, number or the like, `undefined` only as an entry of an array, and no
  -- operator but `Op.and`, `Op.or` and `Op.not` in place of an attribute name. For any other clause it
  -- throws. The condition is that every attribute and expression by itself can be written.
  pub returned-format_where :
      (w : Where E V) (s : S)
      → returned (format_where handle_part w s) ≡ is_undefined w || accepts w
  unfolding format_where
  returned-format_where undefined_value s = refl
  returned-format_where raw_text s = unfold accepts in refl
  returned-format_where other_value s =
      returned-wrapped (handle handle_part other_value op_and s)
      ∙ handle-Returns other_value op_and s
  returned-format_where (expression e) s =
      returned-wrapped (handle handle_part (expression e) op_and s)
      ∙ handle-Returns (expression e) op_and s
  returned-format_where (array parts) s =
      returned-wrapped (handle handle_part (array parts) op_and s)
      ∙ handle-Returns (array parts) op_and s
  returned-format_where (object keys) s =
      returned-wrapped (handle handle_part (object keys) op_and s)
      ∙ handle-Returns (object keys) op_and s
