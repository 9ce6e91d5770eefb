-- ===== src/Sql/Loop/Containment.antt =====
-- Strings and identifiers whose delimiters are doubled or escaped, against the loop of
-- packages/core/src/utils/sql.ts.
use sequelize.Base.{
  ℕ, ◌≡◌, refl, ap, ◌∙◌, ◌⊎◌, inl, inr, Bool, true, false, not, [], ◌∷◌, ◌++◌, ◌==◌, Text, ok,
  arith, Bool-cases,
}
use sequelize.Sql.Chars.{quote, backslash, backslash_run, is_backslash_escaped}
use sequelize.Sql.Dialect.{Dialect, mssql, tick_char_left, can_backslash_escape}
use sequelize.Sql.Escape.{replace_all}
use sequelize.Sql.Scan.{Escaper, Task, Scan, opens_escapable, open_string, in_string}
use sequelize.Sql.Loop.{in_sql, step, advance, loop}
use sequelize.Sql.Loop.Outcomes.{IsQuiet}

-- The characters before the position, once `text` has been read.
abbrev pub back : Text → Text → Text
back before [] = before
back before (c ∷ text) = back (c ∷ before) text

pub back-append : (before xs ys : Text) → back before (xs ++ ys) ≡ back (back before xs) ys
back-append before [] ys = refl
back-append before (x ∷ xs) ys = back-append (x ∷ before) xs ys

pub tick_char_left_not_quote : (d : Dialect) → (quote == tick_char_left d) ≡ false
unfolding tick_char_left
tick_char_left_not_quote mssql = refl
tick_char_left_not_quote _ = refl

-- The content between two `t` in which each `t` is doubled.
pub data IsDoubled (t : ℕ) : Text → Type 0 where
  done : IsDoubled t []
  char : {c : ℕ} {cs : Text} → (c == t) ≡ false → IsDoubled t cs → IsDoubled t (c ∷ cs)
  pair : {cs : Text} → IsDoubled t cs → IsDoubled t (t ∷ t ∷ cs)

pub replace_all-IsDoubled : (t : ℕ) (value : Text) → IsDoubled t (replace_all t (t ∷ t ∷ []) value)
unfolding replace_all
replace_all-IsDoubled t [] = done
replace_all-IsDoubled t (c ∷ cs) = elim (Bool-cases (c == t)) [
  | inl y ↦ rw y (pair (replace_all-IsDoubled t cs))
  | inr n ↦ rw n (char n (replace_all-IsDoubled t cs))
]

-- The content of a string in which each quote and each backslash stands behind a backslash.
pub data IsEscaped : Text → Type 0 where
  done : IsEscaped []
  char :
      {c : ℕ} {cs : Text}
      → (c == quote) ≡ false
      → (c == backslash) ≡ false
      → IsEscaped cs
      → IsEscaped (c ∷ cs)
  pair : {c : ℕ} {cs : Text} → IsEscaped cs → IsEscaped (backslash ∷ c ∷ cs)

not_escapable_behind_quote :
    (d : Dialect) (before : Text)
    → can_backslash_escape d ≡ false
    → opens_escapable d (quote ∷ before) ≡ false
unfolding opens_escapable
not_escapable_behind_quote d before h = ground arith

-- A backslash more turns the result round.
backslash_run-not :
    (b : Bool) (before : Text) → backslash_run (not b) before ≡ not (backslash_run b before)
unfolding backslash_run
backslash_run-not b [] = refl
backslash_run-not b (c ∷ before) = elim (Bool-cases (c == backslash)) [
  | inl y ↦ rw (y, backslash_run) (backslash_run-not (not b) before)
  | inr n ↦ rw (n, backslash_run) refl
]

module _ (before : Text) where
  pub not_escaped_behind :
      (c : ℕ) → (c == backslash) ≡ false → is_backslash_escaped (c ∷ before) ≡ false
  unfolding is_backslash_escaped
  not_escaped_behind c h = ground arith

  escaped_behind_backslash :
      is_backslash_escaped before ≡ false → is_backslash_escaped (backslash ∷ before) ≡ true
  unfolding is_backslash_escaped
  escaped_behind_backslash h = backslash_run-not false before ∙ ap not h

  not_escaped_behind_pair :
      (c : ℕ)
      → is_backslash_escaped before ≡ false
      → is_backslash_escaped (c ∷ backslash ∷ before) ≡ false
  unfolding is_backslash_escaped
  not_escaped_behind_pair c h = ground (arith, h)

-- A position between the parts of a query, with no string left half read.
pub record IsPlain (s : Scan) : Type 0 where
  pub quiet : IsQuiet s
  pub not_escapable : s.string_is_backslash_escapable ≡ false

module _ {Value : Type 0} (e : Escaper Value) (d : Dialect) (forbidden : Bool) (task : Task Value)
    (s : Scan) (p : IsPlain s) where
  abbrev pub in_text : Bool → Scan
  in_text escapable = record s { is_string = true; string_is_backslash_escapable = escapable }

  pub open_quote :
      (before after : Text) (escapable : Bool)
      → opens_escapable d before ≡ escapable
      → advance e d forbidden task before quote after s s.skip ≡ ok (in_text escapable)
  unfolding step in_sql open_string
  open_quote before after escapable h = ground (arith, tick_char_left_not_quote d)

  close_quote :
      (before after : Text)
      → advance e d forbidden task before quote after (in_text false) s.skip ≡ ok s
  unfolding step in_string
  close_quote before after = ground arith

  inside_string :
      (before after : Text) (c : ℕ)
      → (c == quote) ≡ false
      → advance e d forbidden task before c after (in_text false) s.skip ≡ ok (in_text false)
  unfolding step in_string
  inside_string before after c h = ground arith

  pub loop-IsDoubled :
      (before w rest : Text)
      → can_backslash_escape d ≡ false
      → IsDoubled quote w
      → loop e d forbidden task before (w ++ quote ∷ rest) (in_text false)
        ≡ loop e d forbidden task (quote ∷ back before w) rest s
  unfolding loop
  loop-IsDoubled before [] rest b done = rw (close_quote before rest)
  loop-IsDoubled before (c ∷ cs) rest b (char h w) =
      rw (inside_string before (cs ++ quote ∷ rest) c h) (loop-IsDoubled (c ∷ before) cs rest b w)
  loop-IsDoubled before (_ ∷ _ ∷ cs) rest b (pair w) =
      rw (close_quote before (quote ∷ (cs ++ quote ∷ rest))) (
        rw
          (open_quote (quote ∷ before) (cs ++ quote ∷ rest) false
            (not_escapable_behind_quote d before b))
          (loop-IsDoubled (quote ∷ quote ∷ before) cs rest b w))

  inside_escaped :
      (before after : Text) (c : ℕ)
      → ((c == quote) ≡ false) ⊎ (is_backslash_escaped before ≡ true)
      → advance e d forbidden task before c after (in_text true) s.skip ≡ ok (in_text true)
  unfolding step in_string
  inside_escaped before after c h = ground arith

  close_escaped :
      (before after : Text)
      → is_backslash_escaped before ≡ false
      → advance e d forbidden task before quote after (in_text true) s.skip ≡ ok s
  unfolding step in_string
  close_escaped before after h = ground arith

  pub loop-IsEscaped :
      (before w rest : Text)
      → is_backslash_escaped before ≡ false
      → IsEscaped w
      → loop e d forbidden task before (w ++ quote ∷ rest) (in_text true)
        ≡ loop e d forbidden task (quote ∷ back before w) rest s
  unfolding loop
  loop-IsEscaped before [] rest b done = rw (close_escaped before rest b)
  loop-IsEscaped before (c ∷ cs) rest b (char h k w) =
      rw (inside_escaped before (cs ++ quote ∷ rest) c (inl h))
        (loop-IsEscaped (c ∷ before) cs rest (not_escaped_behind before c k) w)
  loop-IsEscaped before (_ ∷ c ∷ cs) rest b (pair w) =
      rw (inside_escaped before (c ∷ (cs ++ quote ∷ rest)) backslash (inl refl)) (
        rw
          (inside_escaped (backslash ∷ before) (cs ++ quote ∷ rest) c
            (inr (escaped_behind_backslash before b)))
          (loop-IsEscaped (c ∷ backslash ∷ before) cs rest (not_escaped_behind_pair before c b) w))
