-- ===== src/Sql/Loop/Quoting.antt =====
-- Each dialect's `escapeString` against the loop of packages/core/src/utils/sql.ts.
use mathlib.Core.List.{append_assoc}
use sequelize.Base.{
  ℕ, ◌≡◌, ◌≢◌, refl, sym, ap, ◌∙◌, inl, inr, Bool, true, false, [], ◌∷◌, ◌++◌, ◌==◌, if◌then◌else◌,
  Text, Bool-cases,
}
use sequelize.Sql.Chars.{quote, backslash}
use sequelize.Sql.Dialect.{
  Dialect, mssql, mysql, mariadb, postgres, can_backslash_escape, supports_escape_string_constants,
}
use sequelize.Sql.Escape.{replace_all, mysql_escape_char, mysql_escape_content, escape_string}
use sequelize.Sql.Scan.{Escaper, Task, Scan, opens_escapable}
use sequelize.Sql.Loop.{loop}
use sequelize.Sql.Loop.Outcomes.{advance_of_IsWord, tick_char_left_not_word}
use sequelize.Sql.Loop.Containment.{
  IsDoubled, IsEscaped, IsPlain, back, back-append, open_quote, loop-IsDoubled, loop-IsEscaped,
  not_escaped_behind, replace_all-IsDoubled,
}

replace_nul-IsDoubled :
    {w : Text} → IsDoubled quote w → IsDoubled quote (replace_all 0 (backslash ∷ b'0' ∷ []) w)
unfolding replace_all
replace_nul-IsDoubled IsDoubled.done = IsDoubled.done
replace_nul-IsDoubled (IsDoubled.char {c} h w) = elim (Bool-cases (c == 0)) [
  | inl y ↦ rw y (IsDoubled.char refl (IsDoubled.char refl (replace_nul-IsDoubled w)))
  | inr n ↦ rw n (IsDoubled.char h (replace_nul-IsDoubled w))
]
replace_nul-IsDoubled (IsDoubled.pair w) = IsDoubled.pair (replace_nul-IsDoubled w)

IsEscaped-if :
    (b : Bool) (x y w : Text)
    → IsEscaped (x ++ w)
    → (b ≡ false → IsEscaped (y ++ w))
    → IsEscaped ((if b then x else y) ++ w)
IsEscaped-if true x y w h k = h
IsEscaped-if false x y w h k = k refl

mysql_escape_char-IsEscaped :
    (c : ℕ) {w : Text} → IsEscaped w → IsEscaped (mysql_escape_char c ++ w)
mysql_escape_char-IsEscaped c {w} h = IsEscaped-if (c == 0) _ _ w (IsEscaped.pair h) λ _.
    IsEscaped-if (c == 10) _ _ w (IsEscaped.pair h) λ _.
      IsEscaped-if (c == 13) _ _ w (IsEscaped.pair h) λ _.
        IsEscaped-if (c == 8) _ _ w (IsEscaped.pair h) λ _.
          IsEscaped-if (c == 9) _ _ w (IsEscaped.pair h) λ _.
            IsEscaped-if (c == 26) _ _ w (IsEscaped.pair h) λ _.
              IsEscaped-if (c == quote) _ _ w (IsEscaped.pair h) λ n.
                IsEscaped-if (c == backslash) _ _ w (IsEscaped.pair h) λ m. IsEscaped.char n m h

mysql_escape_content-IsEscaped : (value : Text) → IsEscaped (mysql_escape_content value)
unfolding mysql_escape_content
mysql_escape_content-IsEscaped [] = IsEscaped.done
mysql_escape_content-IsEscaped (c ∷ cs) =
    mysql_escape_char-IsEscaped c (mysql_escape_content-IsEscaped cs)

module _ {Value : Type 0} (e : Escaper Value) (d : Dialect) (forbidden : Bool) (task : Task Value)
    (s : Scan) (p : IsPlain s) (before : Text) where
  abbrev Contains : Text → Type 0
  Contains text =
      (rest : Text)
      → loop e d forbidden task before (text ++ rest) s
        ≡ loop e d forbidden task (back before text) rest s

  back_quoted :
      (w : Text) → quote ∷ back (quote ∷ before) w ≡ back before (quote ∷ (w ++ quote ∷ []))
  back_quoted w = sym (back-append (quote ∷ before) w (quote ∷ []))

  doubled_contained :
      (w : Text)
      → can_backslash_escape d ≡ false
      → opens_escapable d before ≡ false
      → IsDoubled quote w
      → Contains (quote ∷ (w ++ quote ∷ []))
  unfolding loop
  doubled_contained w b o h rest = rw (append_assoc w (quote ∷ []) rest) (
      rw (open_quote e d forbidden task s p before (w ++ quote ∷ rest) false o) (
        loop-IsDoubled e d forbidden task s p (quote ∷ before) w rest b h
        ∙ ap (λ u. loop e d forbidden task u rest s) (back_quoted w)))

  escaped_contained :
      (w : Text)
      → opens_escapable d before ≡ true
      → IsEscaped w
      → Contains (quote ∷ (w ++ quote ∷ []))
  unfolding loop
  escaped_contained w o h rest = rw (append_assoc w (quote ∷ []) rest) (
      rw (open_quote e d forbidden task s p before (w ++ quote ∷ rest) true o) (
        loop-IsEscaped e d forbidden task s p (quote ∷ before) w rest
          (not_escaped_behind before quote refl) h
        ∙ ap (λ u. loop e d forbidden task u rest s) (back_quoted w)))

module _ {Value : Type 0} (e : Escaper Value) (forbidden : Bool) (task : Task Value) where
  -- The `N` before the string of mssql.
  mssql_contained :
      (s : Scan) (p : IsPlain s) (before value : Text)
      → Contains e mssql forbidden task s p before (escape_string mssql value)
  unfolding loop escape_string can_backslash_escape opens_escapable supports_escape_string_constants
  mssql_contained s p before value rest =
      rw
        (advance_of_IsWord e mssql forbidden task before _ b'N' s (tick_char_left_not_word mssql)
          p.quiet refl)
        (doubled_contained e mssql forbidden task s p (b'N' ∷ before) _ refl refl
          (replace_all-IsDoubled quote value) rest)

  -- Outside strings, identifiers, comments and the text of a parameter, what `escapeString`
  -- makes of a value is one string literal to the scan, whatever the value holds: no bind
  -- parameter or replacement is found in it, and the scan goes on behind it in the state it had
  -- before it. Two more conditions: the literal does not stand right behind an `E` that postgres
  -- takes as its prefix, and postgres is not told that its strings have backslash escapes.
  pub loop-escape_string :
      (d : Dialect) (s : Scan) (p : IsPlain s) (before value rest : Text)
      → d ≢ postgres false
      → opens_escapable d before ≡ can_backslash_escape d
      → loop e d forbidden task before (escape_string d value ++ rest) s
        ≡ loop e d forbidden task (back before (escape_string d value)) rest s
  unfolding escape_string can_backslash_escape
  loop-escape_string mssql s p before value rest n o = mssql_contained s p before value rest
  loop-escape_string mysql s p before value rest n o =
      escaped_contained e mysql forbidden task s p before _ o (mysql_escape_content-IsEscaped value)
        rest
  loop-escape_string mariadb s p before value rest n o =
      escaped_contained e mariadb forbidden task s p before _ o
        (mysql_escape_content-IsEscaped value) rest
  loop-escape_string (postgres false) s p before value rest n o = absurd (n refl)
  loop-escape_string (postgres true) s p before value rest n o =
      doubled_contained e (postgres true) forbidden task s p before _ refl o
        (replace_nul-IsDoubled (replace_all-IsDoubled quote value)) rest
  loop-escape_string d s p before value rest n o =
      doubled_contained e d forbidden task s p before _ refl o (replace_all-IsDoubled quote value)
        rest
