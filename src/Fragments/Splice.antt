-- ===== src/Fragments/Splice.antt =====
-- Nested arrays of fragments: packages/core/src/utils/join-sql-fragments.ts.
use sequelize.Base.{
  ◌≡◌, refl, sym, ap, ◌∙◌, Bool, true, List, [], ◌∷◌, ◌++◌, Text, Result, ok, throw,
}
use sequelize.Fragments.Join.{
  Fragment, text, falsy, other, array, Fragments, nil, cons, JoinError, not_a_string, trim,
  does_not_want_trailing_space, leading, single_space_join, trimmed, joined_with, prepend,
  join_trimmed, flattened, flatten_one, join_sql_fragments,
}
use sequelize.Fragments.Words.{splice, trimmed_words, trimmed-append}

abbrev append_results :
    Result JoinError (List Text) → Result JoinError (List Text) → Result JoinError (List Text)
append_results (throw e) rest = throw e
append_results (ok a) (throw e) = throw e
append_results (ok a) (ok b) = ok (a ++ b)

-- All texts at any depth, in order.
unfoldable mutual
  pub texts_of : Fragments → Result JoinError (List Text)
  texts_of nil = ok []
  texts_of (cons fragment rest) = let rest' = texts_of rest in texts_of_one fragment rest'

  texts_of_one : Fragment → Result JoinError (List Text) → Result JoinError (List Text)
  texts_of_one (text t) rest = prepend (ok t) rest
  texts_of_one falsy rest = rest
  texts_of_one other rest = throw not_a_string
  texts_of_one (array fragments) rest = append_results (texts_of fragments) rest

-- Texts that give the same join, wherever it begins.
abbrev Alike : Result JoinError (List Text) → Result JoinError (List Text) → Type 0
Alike (ok a) (ok b) =
    (skip : Bool) → single_space_join skip (trimmed a) ≡ single_space_join skip (trimmed b)
Alike (ok a) (throw e) = ⊥
Alike (throw e) (ok b) = ⊥
Alike (throw e) (throw e') = e ≡ e'

join_behind :
    (ws xs ys : List Text)
    → ((skip : Bool) → single_space_join skip xs ≡ single_space_join skip ys)
    → (skip : Bool) → single_space_join skip (ws ++ xs) ≡ single_space_join skip (ws ++ ys)
unfolding single_space_join
join_behind [] xs ys h skip = h skip
join_behind (w ∷ ws) xs ys h skip =
    ap (λ t. leading skip w ++ (trim w ++ t))
      (join_behind ws xs ys h (does_not_want_trailing_space w))

prepend-Alike :
    (t : Text) (a b : Result JoinError (List Text))
    → Alike a b
    → Alike (prepend (ok t) a) (prepend (ok t) b)
prepend-Alike t (ok a) (ok b) h = λ skip.
    ap (single_space_join skip) (trimmed-append (t ∷ []) a)
    ∙ join_behind (trimmed (t ∷ [])) (trimmed a) (trimmed b) h skip
    ∙ ap (single_space_join skip) (sym (trimmed-append (t ∷ []) b))
prepend-Alike t (ok a) (throw e) h = h
prepend-Alike t (throw e) (ok b) h = h
prepend-Alike t (throw e) (throw e') h = h

array-Alike :
    (f g a b : Result JoinError (List Text))
    → Alike f g
    → Alike a b
    → Alike (prepend (joined_with join_trimmed f) a) (append_results g b)
array-Alike (ok f) (ok g) (ok a) (ok b) h k = λ skip.
    ap (λ t. single_space_join skip (trimmed (t ∷ a))) (h true)
    ∙ splice skip (trimmed g) a (trimmed_words g)
    ∙ join_behind (trimmed g) (trimmed a) (trimmed b) k skip
    ∙ ap (single_space_join skip) (sym (trimmed-append g b))
array-Alike (ok f) (ok g) (ok a) (throw e) h k = k
array-Alike (ok f) (ok g) (throw e) (ok b) h k = k
array-Alike (ok f) (ok g) (throw e) (throw e') h k = k
array-Alike (ok f) (throw e) a b h k = absurd h
array-Alike (throw e) (ok g) a b h k = absurd h
array-Alike (throw e) (throw e') a b h k = h

mutual
  unfolding flattened texts_of

  flattened-Alike : (fragments : Fragments) → Alike (flattened fragments) (texts_of fragments)
  flattened-Alike nil = λ skip. refl
  flattened-Alike (cons fragment rest) =
      flatten_one-Alike fragment (flattened rest) (texts_of rest) (flattened-Alike rest)

  flatten_one-Alike :
      (fragment : Fragment) (a b : Result JoinError (List Text))
      → Alike a b
      → Alike (flatten_one fragment a) (texts_of_one fragment b)
  flatten_one-Alike (text t) a b h = prepend-Alike t a b h
  flatten_one-Alike falsy a b h = h
  flatten_one-Alike other a b h = refl
  flatten_one-Alike (array fragments) a b h =
      array-Alike (flattened fragments) (texts_of fragments) a b (flattened-Alike fragments) h

-- Nesting makes no difference to `joinSQLFragments`: its result is the join of all texts at any depth in
-- their order, and it throws exactly if there is a value at any depth that counts as true and is neither a
-- text nor an array.
pub join_sql_fragments-texts_of :
    (fragments : Fragments)
    → join_sql_fragments fragments ≡ joined_with join_trimmed (texts_of fragments)
unfolding join_sql_fragments
join_sql_fragments-texts_of fragments =
    go (flattened fragments) (texts_of fragments) (flattened-Alike fragments)
  where
    go :
        (a b : Result JoinError (List Text))
        → Alike a b
        → joined_with join_trimmed a ≡ joined_with join_trimmed b
    go (ok a) (ok b) h = ap ok (h true)
    go (ok a) (throw e) h = absurd h
    go (throw e) (ok b) h = absurd h
    go (throw e) (throw e') h = ap throw h
