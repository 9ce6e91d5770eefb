-- ===== src/Sql/Loop/DollarStrings.antt =====
-- Dollar-quoted strings with an empty tag against the loop of
-- packages/core/src/utils/sql.ts.
use sequelize.Base.{
  ℕ, ◌≡◌, refl, sym, ap, ◌∙◌, Bool, false, none, some, [], ◌∷◌, ◌++◌, ◌==◌, Text, head?, ok, arith,
}
use sequelize.Sql.Chars.{dollar, is_part_of_identifier, dollar_tag}
use sequelize.Sql.Dialect.{Dialect, mssql, tick_char_left}
use sequelize.Sql.Scan.{Escaper, Task, Scan, at_dollar, in_dollar_string}
use sequelize.Sql.Loop.{loop, advance, step, in_sql}
use sequelize.Sql.Loop.Containment.{IsPlain, back}

-- A text with no `$` in it.
pub data HasNoDollar : Text → Type 0 where
  done : HasNoDollar []
  char : {c : ℕ} {cs : Text} → (c == dollar) ≡ false → HasNoDollar cs → HasNoDollar (c ∷ cs)

tick_char_left_not_dollar : (d : Dialect) → (dollar == tick_char_left d) ≡ false
unfolding tick_char_left
tick_char_left_not_dollar mssql = refl
tick_char_left_not_dollar _ = refl

module _ {Value : Type 0} (e : Escaper Value) (d : Dialect) (forbidden : Bool) (task : Task Value)
    (s : Scan) (p : IsPlain s) where
  abbrev in_dollars : Scan
  in_dollars = record s { current_dollar_string_tag_name = some [] }

  open_dollar :
      (before after : Text)
      → is_part_of_identifier (head? before) ≡ false
      → advance e d forbidden task before dollar (dollar ∷ after) s s.skip
        ≡ ok (record s { current_dollar_string_tag_name = some []; skip = 1 })
  unfolding step in_sql at_dollar dollar_tag
  open_dollar before after h = ground (arith, p.quiet, tick_char_left_not_dollar d)

  open_dollars :
      (before after : Text)
      → is_part_of_identifier (head? before) ≡ false
      → loop e d forbidden task before (dollar ∷ dollar ∷ after) s
        ≡ loop e d forbidden task (dollar ∷ dollar ∷ before) after in_dollars
  unfolding loop
  open_dollars before after h = rw (open_dollar before after h) (
      ap
        (λ n.
          loop e d forbidden task (dollar ∷ dollar ∷ before) after (record in_dollars { skip = n }))
        (sym p.quiet.no_skip))

  inside_dollars :
      (before after : Text) (c : ℕ)
      → (c == dollar) ≡ false
      → advance e d forbidden task before c after in_dollars s.skip ≡ ok in_dollars
  unfolding step in_dollar_string
  inside_dollars before after c h = ground (arith, p.quiet)

  lone_dollar :
      (before after : Text)
      → dollar_tag after ≡ none
      → advance e d forbidden task before dollar after in_dollars s.skip ≡ ok s
  unfolding step in_dollar_string
  lone_dollar before after h = ground (arith, p.quiet)

  after_dollar :
      (before after : Text)
      → dollar_tag after ≡ none
      → loop e d forbidden task before (dollar ∷ after) in_dollars
        ≡ loop e d forbidden task (dollar ∷ before) after s
  unfolding loop
  after_dollar before after h = rw (lone_dollar before after h)

  loop-HasNoDollar :
      (before w rest : Text)
      → HasNoDollar w
      → loop e d forbidden task before (w ++ rest) in_dollars
        ≡ loop e d forbidden task (back before w) rest in_dollars
  unfolding loop
  loop-HasNoDollar before [] rest done = refl
  loop-HasNoDollar before (c ∷ w) rest (char h k) =
      rw (inside_dollars before (w ++ rest) c h) (loop-HasNoDollar (c ∷ before) w rest k)

  -- Outside strings, identifiers and comments, and not behind a character of an identifier, `$$`
  -- begins a string that the next single `$` ends, as if it were `$$`, where what follows this
  -- one is no tag with a `$` behind it: what follows, although still inside the string, is read
  -- as plain SQL.
  pub lone_dollar_ends_string :
      (before w after : Text)
      → is_part_of_identifier (head? before) ≡ false
      → HasNoDollar w
      → dollar_tag after ≡ none
      → loop e d forbidden task before (dollar ∷ dollar ∷ (w ++ dollar ∷ after)) s
        ≡ loop e d forbidden task (dollar ∷ back (dollar ∷ dollar ∷ before) w) after s
  lone_dollar_ends_string before w after h k n =
      open_dollars before (w ++ dollar ∷ after) h
      ∙ loop-HasNoDollar (dollar ∷ dollar ∷ before) w (dollar ∷ after) k
      ∙ after_dollar (back (dollar ∷ dollar ∷ before) w) after n
