-- ===== src/Sql/Loop/Identifiers.antt =====
-- `quoteIdentifier` against the loop of packages/core/src/utils/sql.ts.
use mathlib.Core.List.{append_assoc}
use sequelize.Base.{
  ℕ, ◌≡◌, ◌≢◌, refl, sym, ap, ◌∙◌, inl, inr, Bool, true, false, [], ◌∷◌, ◌++◌, ◌==◌, ==_refl, Text,
  Result, ok, arith, Bool-cases,
}
use sequelize.Sql.Dialect.{Dialect, mssql, tick_char_left, tick_char_right}
use sequelize.Sql.Escape.{
  replace_all, quote_identifier, QuoteOptions, is_quoted, quote_identifier_for,
}
use sequelize.Sql.Scan.{Escaper, Task, Scan, ScanError}
use sequelize.Sql.Loop.{loop, advance, step, in_sql, at_replacement}
use sequelize.Sql.Loop.Containment.{IsDoubled, IsPlain, back, back-append, replace_all-IsDoubled}

module _ {Value : Type 0} (e : Escaper Value) (d : Dialect) (forbidden : Bool) (task : Task Value)
    (s : Scan) (p : IsPlain s) where
  abbrev in_name : Scan
  in_name = record s { is_column = true }

  open_tick :
      (t : ℕ) (before after : Text)
      → tick_char_left d ≡ t
      → advance e d forbidden task before t after s s.skip ≡ ok in_name
  unfolding step in_sql
  open_tick t before after l = ground (arith, ==_refl t)

  close_tick :
      (t : ℕ) (before after : Text)
      → tick_char_right d ≡ t
      → advance e d forbidden task before t after in_name s.skip ≡ ok s
  unfolding step
  close_tick t before after r = ground (arith, ==_refl t)

  inside_name :
      (t : ℕ) (before after : Text) (c : ℕ)
      → tick_char_right d ≡ t
      → (c == t) ≡ false
      → advance e d forbidden task before c after in_name s.skip ≡ ok in_name
  unfolding step
  inside_name t before after c r h = ground arith

  loop-in_name :
      (t : ℕ) (before w rest : Text)
      → tick_char_left d ≡ t
      → tick_char_right d ≡ t
      → IsDoubled t w
      → loop e d forbidden task before (w ++ t ∷ rest) in_name
        ≡ loop e d forbidden task (t ∷ back before w) rest s
  unfolding loop
  loop-in_name t before [] rest l r IsDoubled.done = rw (close_tick t before rest r)
  loop-in_name t before (c ∷ cs) rest l r (IsDoubled.char h w) =
      rw (inside_name t before (cs ++ t ∷ rest) c r h) (loop-in_name t (c ∷ before) cs rest l r w)
  loop-in_name t before (_ ∷ _ ∷ cs) rest l r (IsDoubled.pair w) =
      rw (close_tick t before (t ∷ (cs ++ t ∷ rest)) r) (
        rw (open_tick t (t ∷ before) (cs ++ t ∷ rest) l)
          (loop-in_name t (t ∷ t ∷ before) cs rest l r w))

  same_tick_contained :
      (t : ℕ) (before identifier rest : Text)
      → tick_char_left d ≡ t
      → tick_char_right d ≡ t
      → loop e d forbidden task before (quote_identifier identifier t t ++ rest) s
        ≡ loop e d forbidden task (back before (quote_identifier identifier t t)) rest s
  unfolding loop quote_identifier
  same_tick_contained t before identifier rest l r =
      let w : Text = replace_all t (t ∷ t ∷ []) identifier in
      rw (==_refl t) (
        rw (append_assoc w (t ∷ []) rest) (
          rw (open_tick t before (w ++ t ∷ rest) l) (
            loop-in_name t (t ∷ before) w rest l r (replace_all-IsDoubled t identifier)
            ∙ ap (λ u. loop e d forbidden task u rest s)
                (sym (back-append (t ∷ before) w (t ∷ []))))))

quoted_contained :
    {Value : Type 0} (e : Escaper Value) (forbidden : Bool) (task : Task Value) (d : Dialect)
    (s : Scan) (p : IsPlain s) (before identifier rest : Text)
    → d ≢ mssql
    → let t = quote_identifier identifier (tick_char_left d) (tick_char_right d) in
      loop e d forbidden task before (t ++ rest) s ≡ loop e d forbidden task (back before t) rest s
unfolding tick_char_left tick_char_right
quoted_contained e forbidden task mssql s p before identifier rest n = absurd (n refl)
quoted_contained e forbidden task d s p before identifier rest n =
    same_tick_contained e d forbidden task s p _ before identifier rest refl refl

-- Outside strings, identifiers, comments and the text of a parameter, the quoted form of an
-- identifier is one identifier to the scan, whatever the identifier holds: nothing is found in
-- it, and the scan goes on behind it in the state it had before it. This is so in every dialect
-- but mssql, whose two delimiters differ, and wherever `quoteIdentifier` quotes: in postgres and
-- snowflake it returns an identifier as it is where the option `quoteIdentifiers` is false, unless
-- it is forced to quote or the identifier has a `.` or `->` in it or is reserved.
pub loop-quote_identifier_for :
    {Value : Type 0} (e : Escaper Value) (forbidden : Bool) (task : Task Value)
    (options : QuoteOptions) (d : Dialect) (s : Scan) (p : IsPlain s)
    (before identifier rest : Text)
    → d ≢ mssql
    → is_quoted options d identifier ≡ true
    → loop e d forbidden task before (quote_identifier_for options d identifier ++ rest) s
      ≡ loop e d forbidden task (back before (quote_identifier_for options d identifier)) rest s
unfolding quote_identifier_for
loop-quote_identifier_for e forbidden task options d s p before identifier rest n q =
    rw q (quoted_contained e forbidden task d s p before identifier rest n)

-- An identifier with no `]` in it.
pub data HasNoBracket : Text → Type 0 where
  done : HasNoBracket []
  char : {c : ℕ} {cs : Text} → (c == b']') ≡ false → HasNoBracket cs → HasNoBracket (c ∷ cs)

abbrev pub bracketed : Text → Text
bracketed identifier =
    replace_all b']' (b']' ∷ b']' ∷ []) (replace_all b'[' (b'[' ∷ b'[' ∷ []) identifier)

bracketed-HasNoBracket : {u : Text} → HasNoBracket u → HasNoBracket (bracketed u)
unfolding replace_all
bracketed-HasNoBracket done = done
bracketed-HasNoBracket (char {c} h u) = elim (Bool-cases (c == b'[')) [
  | inl y ↦ rw y (char refl (char refl (bracketed-HasNoBracket u)))
  | inr n ↦ rw n (rw h (char h (bracketed-HasNoBracket u)))
]

-- `replaceAll` works on each side of a character by itself.
bracketed-append :
    (u v : Text) → bracketed (u ++ b']' ∷ v) ≡ bracketed u ++ b']' ∷ b']' ∷ bracketed v
unfolding replace_all
bracketed-append [] v = refl
bracketed-append (c ∷ u) v = elim (Bool-cases (c == b'[')) [
  | inl y ↦ rw y (ap (λ t. b'[' ∷ b'[' ∷ t) (bracketed-append u v))
  | inr n ↦ elim (Bool-cases (c == b']')) [
    | inl z ↦ rw n (rw z (ap (λ t. b']' ∷ b']' ∷ t) (bracketed-append u v)))
    | inr m ↦ rw n (rw m (ap (λ t. c ∷ t) (bracketed-append u v)))
  ]
]

module _ {Value : Type 0} (e : Escaper Value) (forbidden : Bool) (task : Task Value) (s : Scan)
    (p : IsPlain s) where
  abbrev in_brackets : Scan
  in_brackets = in_name e mssql forbidden task s p

  abbrev mssql_loop : Text → Text → Scan → Result ScanError Scan
  mssql_loop = loop e mssql forbidden task

  plain_bracket :
      (before after : Text) → advance e mssql forbidden task before b']' after s s.skip ≡ ok s
  unfolding step in_sql at_replacement tick_char_left
  plain_bracket before after = ground (arith, p.quiet)

  loop-HasNoBracket :
      (before w rest : Text)
      → HasNoBracket w
      → mssql_loop before (w ++ rest) in_brackets ≡ mssql_loop (back before w) rest in_brackets
  unfolding loop tick_char_right
  loop-HasNoBracket before [] rest done = refl
  loop-HasNoBracket before (c ∷ w) rest (char h k) =
      rw (inside_name e mssql forbidden task s p b']' before (w ++ rest) c refl h)
        (loop-HasNoBracket (c ∷ before) w rest k)

  after_open :
      (before text : Text)
      → mssql_loop before (b'[' ∷ text) s ≡ mssql_loop (b'[' ∷ before) text in_brackets
  unfolding loop tick_char_left
  after_open before text = rw (open_tick e mssql forbidden task s p b'[' before text refl)

  after_close :
      (before text : Text)
      → mssql_loop before (b']' ∷ b']' ∷ text) in_brackets
        ≡ mssql_loop (b']' ∷ b']' ∷ before) text s
  unfolding loop tick_char_right
  after_close before text =
      rw (close_tick e mssql forbidden task s p b']' before (b']' ∷ text) refl)
        (rw (plain_bracket (b']' ∷ before) text))

  -- In mssql, where the scan meets a quoted identifier outside strings, identifiers and
  -- comments, the part of it behind its first `]` is read as plain SQL.
  pub mssql_bracket_escapes :
      (options : QuoteOptions) (before u v rest : Text)
      → HasNoBracket u
      → mssql_loop before (quote_identifier_for options mssql (u ++ b']' ∷ v) ++ rest) s
        ≡ mssql_loop
            (b']' ∷ b']' ∷ back (b'[' ∷ before) (bracketed u))
            ((bracketed v ++ b']' ∷ []) ++ rest)
            s
  unfolding quote_identifier_for is_quoted tick_char_left tick_char_right
  mssql_bracket_escapes options before u v rest h =
      let tail : Text = (bracketed v ++ b']' ∷ []) ++ rest in
      after_open before ((bracketed (u ++ b']' ∷ v) ++ b']' ∷ []) ++ rest)
      ∙ ap (λ t. mssql_loop (b'[' ∷ before) t in_brackets) (simp (bracketed-append, append_assoc))
      ∙ loop-HasNoBracket (b'[' ∷ before) (bracketed u) (b']' ∷ b']' ∷ tail)
          (bracketed-HasNoBracket h)
      ∙ after_close (back (b'[' ∷ before) (bracketed u)) tail
