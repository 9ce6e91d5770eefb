-- ===== src/Sql/Loop/Queries.antt =====
-- Queries of plain SQL with parameters, and how the expressions for parameters of
-- packages/core/src/utils/sql.ts read them.
use sequelize.Base.{
  ℕ, ◌≡◌, refl, ap, ◌⊎◌, inl, inr, true, false, none, some, List, [], ◌∷◌, ◌++◌, ◌==◌, Text, length,
  take_while, drop_while, if◌then◌else◌, All, arith,
}
use sequelize.Sql.Chars.{
  dollar, quote, is_name_start, is_word, is_dollar, dollar_tag, ends_parameter, bind_name,
}
use sequelize.Sql.Escape.{is_among}
use sequelize.Sql.Scan.{binds, Scan, sql_at, add_name, on_bind, at_dollar, bind_at}
use sequelize.Sql.Loop.Outcomes.{IsWord}
use sequelize.Sql.Loop.Containment.{back}

-- A character that opens nothing: no quote, no `"`, no `-` or `/`, and no `$`.
abbrev pub IsOrdinary : ℕ → Type 0
IsOrdinary c =
    ((c == quote) ≡ false)
    × ((c == 34) ≡ false)
    × ((c == b'-') ≡ false)
    × ((c == b'/') ≡ false)
    × ((c == dollar) ≡ false)

abbrev pub IsName : Text → Type 0
IsName [] = ⊥
IsName (c ∷ cs) = (is_name_start c ≡ true) × All IsWord cs

-- What may stand before the `$` of a parameter.
abbrev pub OpensParameter : ℕ → Type 0
OpensParameter c = (c ≡ b' ') ⊎ (c ≡ b'(') ⊎ (c ≡ b',') ⊎ (c ≡ b'=')

-- What may stand behind its name.
abbrev pub EndsName : Text → Type 0
EndsName [] = Unit
EndsName (c ∷ cs) = (c ≡ b' ') ⊎ (c ≡ b')') ⊎ (c ≡ b',') ⊎ (c ≡ b';')

-- The rest of a query of ordinary characters and parameters, behind what is before it, the nearest
-- character first, and the names of its parameters in their order.
pub data IsQuery : Text → Text → List Text → Type 0 where
  end : {before : Text} → IsQuery before [] []
  char :
      {before after : Text} {c : ℕ} {names : List Text}
      → IsOrdinary c
      → IsQuery (c ∷ before) after names
      → IsQuery before (c ∷ after) names
  parameter :
      {before rest name : Text} {c : ℕ} {names : List Text}
      → OpensParameter c
      → IsName name
      → EndsName rest
      → IsQuery (back (dollar ∷ c ∷ before) name) rest names
      → IsQuery (c ∷ before) (dollar ∷ (name ++ rest)) (name ∷ names)

-- The names that are there, with the others behind them, each where it is first met.
unfoldable pub first_met : List Text → List Text → List Text
unfolding is_among
first_met seen [] = seen
first_met seen (name ∷ names) =
    first_met (if is_among name seen then seen else seen ++ (name ∷ [])) names

pub add_name-eq :
    (name : Text) (seen : List Text)
    → add_name name seen ≡ (if is_among name seen then seen else seen ++ (name ∷ []))
unfolding is_among
add_name-eq name [] = refl
add_name-eq name (n ∷ seen) = ground (arith, add_name-eq name seen)

end_not_word : (rest : Text) → EndsName rest → take_while is_word rest ≡ []
end_not_word [] h = refl
end_not_word (c ∷ cs) (inl p) = rw p refl
end_not_word (c ∷ cs) (inr (inl p)) = rw p refl
end_not_word (c ∷ cs) (inr (inr (inl p))) = rw p refl
end_not_word (c ∷ cs) (inr (inr (inr p))) = rw p refl

end_stays : (rest : Text) → EndsName rest → drop_while is_word rest ≡ rest
end_stays [] h = refl
end_stays (c ∷ cs) (inl p) = rw p refl
end_stays (c ∷ cs) (inr (inl p)) = rw p refl
end_stays (c ∷ cs) (inr (inr (inl p))) = rw p refl
end_stays (c ∷ cs) (inr (inr (inr p))) = rw p refl

end-ends_parameter : (rest : Text) → EndsName rest → ends_parameter rest ≡ true
end-ends_parameter [] h = refl
end-ends_parameter (c ∷ cs) (inl p) = rw p refl
end-ends_parameter (c ∷ cs) (inr (inl p)) = rw p refl
end-ends_parameter (c ∷ cs) (inr (inr (inl p))) = rw p refl
end-ends_parameter (c ∷ cs) (inr (inr (inr p))) = rw p refl

end-is_dollar : (rest : Text) → EndsName rest → is_dollar rest ≡ false
end-is_dollar [] h = refl
end-is_dollar (c ∷ cs) (inl p) = rw p refl
end-is_dollar (c ∷ cs) (inr (inl p)) = rw p refl
end-is_dollar (c ∷ cs) (inr (inr (inl p))) = rw p refl
end-is_dollar (c ∷ cs) (inr (inr (inr p))) = rw p refl

take_name : (cs rest : Text) → All IsWord cs → EndsName rest → take_while is_word (cs ++ rest) ≡ cs
take_name [] rest h e = end_not_word rest e
take_name (c ∷ cs) rest (w, h) e = rw w (ap (λ t. c ∷ t) (take_name cs rest h e))

drop_name :
    (cs rest : Text) → All IsWord cs → EndsName rest → drop_while is_word (cs ++ rest) ≡ rest
drop_name [] rest h e = end_stays rest e
drop_name (c ∷ cs) rest (w, h) e = rw w (drop_name cs rest h e)

bind_name-parameter :
    (name rest : Text) → IsName name → EndsName rest → bind_name (name ++ rest) ≡ some name
unfolding bind_name
bind_name-parameter [] rest h e = absurd h
bind_name-parameter (c ∷ cs) rest (w, h) e =
    rw (w, take_name cs rest h e, drop_name cs rest h e, end-ends_parameter rest e) refl

name_start_not_dollar : (c : ℕ) → is_name_start c ≡ true → (c == dollar) ≡ false
name_start_not_dollar c w = ground (arith, w)

dollar_tag-parameter :
    (name rest : Text) → IsName name → EndsName rest → dollar_tag (name ++ rest) ≡ none
unfolding dollar_tag
dollar_tag-parameter [] rest h e = absurd h
dollar_tag-parameter (c ∷ cs) rest (w, h) e =
    rw (name_start_not_dollar c w, w, drop_name cs rest h e, end-is_dollar rest e) refl

pub name_words : (name : Text) → IsName name → All IsWord name
name_words [] h = absurd h
name_words (c ∷ cs) (w, h) = (rw w refl, h)

pub at_dollar-parameter :
    (Value : Type 0) (before rest name : Text) (c : ℕ) (s : Scan)
    → OpensParameter c
    → IsName name
    → EndsName rest
    → at_dollar {Value = Value} binds (c ∷ before) (name ++ rest) s
      ≡ on_bind (sql_at (c ∷ before) (dollar ∷ (name ++ rest))) (length (c ∷ before)) name s
unfolding at_dollar bind_at
at_dollar-parameter Value before rest name c s (inl p) n e =
    rw p (rw (dollar_tag-parameter name rest n e, bind_name-parameter name rest n e) refl)
at_dollar-parameter Value before rest name c s (inr (inl p)) n e =
    rw p (rw (dollar_tag-parameter name rest n e, bind_name-parameter name rest n e) refl)
at_dollar-parameter Value before rest name c s (inr (inr (inl p))) n e =
    rw p (rw (dollar_tag-parameter name rest n e, bind_name-parameter name rest n e) refl)
at_dollar-parameter Value before rest name c s (inr (inr (inr p))) n e =
    rw p (rw (dollar_tag-parameter name rest n e, bind_name-parameter name rest n e) refl)
