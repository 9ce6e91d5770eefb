-- ===== src/Sql/Loop/Outcomes.antt =====
-- What one position does to the variables of the loop of packages/core/src/utils/sql.ts where there
-- are no replacements: nothing is written, or a bind parameter is.
use mathlib.Core.List.{append_assoc}
use sequelize.Base.{
  ℕ, zero, suc, ◌+◌, ◌≡◌, refl, sym, ap, ◌∙◌, ◌⊎◌, inl, inr, Bool, true, false, Option, none, some,
  [], ◌∷◌, ◌++◌, Text, length, take, All, ok, arith, Bool-cases, take_while, drop_while,
  take_while-append-drop_while, head?,
}
use sequelize.Sql.Chars.{
  dollar, is_word, is_digit, is_name_start, bind_name, dollar_tag, can_precede_new_token,
  is_part_of_identifier,
}
use sequelize.Sql.Dialect.{Dialect, mssql, tick_char_left}
use sequelize.Sql.Scan.{
  Escaper, Task, binds, Scan, sql_at, on_bind, in_string, in_dollar_string, in_comment_block,
  in_single_line_comment, open_string, at_dollar, bind_at, dollar_or_bind, bind_or_skip,
}
use sequelize.Sql.Loop.{in_sql, at_replacement, step, advance}

-- No string, identifier, comment or skipped part is open.
pub record IsQuiet (s : Scan) : Type 0 where
  pub no_tag : s.current_dollar_string_tag_name ≡ none
  pub no_string : s.is_string ≡ false
  pub no_column : s.is_column ≡ false
  pub no_single_line_comment : s.is_single_line_comment ≡ false
  pub no_comment_block : s.is_comment_block ≡ false
  pub no_skip : s.skip ≡ 0

-- The variables that the output depends on are unchanged.
pub record SameWrites (s t : Scan) : Type 0 where
  pub output : t.output ≡ s.output
  pub previous : t.previous_slice_end ≡ s.previous_slice_end
  pub collector : t.collector ≡ s.collector
  pub parameters : t.parameter_set ≡ s.parameter_set

-- A position where a bind parameter is found.
pub record IsBound (before : Text) (char : ℕ) (after : Text) (s t : Scan) : Type 0 where
  pub name : Text
  pub is_dollar : char ≡ dollar
  pub matched : bind_name after ≡ some name
  pub bound : t ≡ on_bind (sql_at before (dollar ∷ after)) (length before) name s

abbrev pub Outcome : Text → ℕ → Text → Scan → Scan → Type 0
Outcome before char after s t = SameWrites s t ⊎ (IsQuiet s × IsBound before char after s t)

abbrev pub IsWord : ℕ → Type 0
IsWord c = is_word c ≡ true

unchanged : (s : Scan) → SameWrites s s
unchanged s = record { output = refl; previous = refl; collector = refl; parameters = refl }

module _ (before after : Text) (s : Scan) where
  abbrev SkippedOrBound : Scan → Type 0
  SkippedOrBound t = SameWrites s t ⊎ IsBound before dollar after s t

  bind_or_skip_outcome :
      (b : Bool) (found : Option Text)
      → bind_name after ≡ found
      → SkippedOrBound (bind_or_skip (sql_at before (dollar ∷ after)) (length before) s b found)
  bind_or_skip_outcome true (some name) m =
      inr (record { name = name; is_dollar = refl; matched = m; bound = refl })
  bind_or_skip_outcome true none m = inl (unchanged s)
  bind_or_skip_outcome false found m = inl (unchanged s)

  module _ (Value : Type 0) where
    dollar_or_bind_outcome :
        (tag : Option Text)
        → SkippedOrBound (dollar_or_bind {Value = Value} binds before after s tag)
    unfolding bind_at
    dollar_or_bind_outcome (some tag) =
        inl (record { output = refl; previous = refl; collector = refl; parameters = refl })
    dollar_or_bind_outcome none =
        bind_or_skip_outcome (can_precede_new_token (head? before)) (bind_name after) refl

    at_dollar_outcome : SkippedOrBound (at_dollar {Value = Value} binds before after s)
    unfolding at_dollar
    at_dollar_outcome = elim (Bool-cases (is_part_of_identifier (head? before))) [
      | inl part ↦ rw part (inl (unchanged s))
      | inr free ↦ rw free (dollar_or_bind_outcome (dollar_tag after))
    ]

module _ {Value : Type 0} (e : Escaper Value) (d : Dialect) (before after : Text) (c : ℕ)
    (s t : Scan) where
  in_sql-cases :
      in_sql e d false binds before c after s ≡ ok t
      → SameWrites s t ⊎ ((c ≡ dollar) × (t ≡ at_dollar {Value = Value} binds before after s))
  unfolding in_sql at_replacement open_string
  in_sql-cases h = ground arith

  step-cases :
      step e d false binds before c after s ≡ ok t
      → SameWrites s t
        ⊎ (((s.is_column ≡ false)
              × (s.is_string ≡ false)
              × (s.current_dollar_string_tag_name ≡ none)
              × (s.is_single_line_comment ≡ false)
              × (s.is_comment_block ≡ false))
            × (in_sql e d false binds before c after s ≡ ok t))
  unfolding step in_string in_dollar_string in_single_line_comment in_comment_block
  step-cases h = ground arith

  bound-Outcome :
      IsQuiet s
      → (c ≡ dollar) × (t ≡ at_dollar {Value = Value} binds before after s)
      → Outcome before c after s t
  bound-Outcome q (is, e') = ground (arith, at_dollar_outcome before after s Value)

  step-Outcome :
      s.skip ≡ 0 → step e d false binds before c after s ≡ ok t → Outcome before c after s t
  step-Outcome k h = elim (step-cases h) [
    | inl same ↦ inl same
    | inr (q, h') ↦ elim (in_sql-cases h') [
      | inl same ↦ inl same
      | inr found ↦
          bound-Outcome
            (record {
              no_tag = q.2;
              no_string = q.1;
              no_column = q.0;
              no_single_line_comment = q.3;
              no_comment_block = q.4;
              no_skip = k;
            })
            found
    ]
  ]

  pub advance-Outcome :
      (n : ℕ)
      → s.skip ≡ n
      → advance e d false binds before c after s n ≡ ok t
      → Outcome before c after s t
  advance-Outcome zero k h = step-Outcome k h
  advance-Outcome (suc n) k h = inl (ground arith)

-- A letter, a digit or `_` in plain SQL changes nothing.
pub advance_of_IsWord :
    {Value : Type 0} (e : Escaper Value) (d : Dialect) (forbidden : Bool) (task : Task Value)
    (before after : Text) (c : ℕ) (s : Scan)
    → is_word (tick_char_left d) ≡ false
    → IsQuiet s
    → IsWord c
    → advance e d forbidden task before c after s s.skip ≡ ok s
unfolding step in_sql at_replacement
advance_of_IsWord e d forbidden task before after c s tick q w = ground arith

pub tick_char_left_not_word : (d : Dialect) → is_word (tick_char_left d) ≡ false
unfolding tick_char_left
tick_char_left_not_word mssql = refl
tick_char_left_not_word _ = refl

take_while-IsWord : (cs : Text) → All IsWord (take_while is_word cs)
take_while-IsWord [] = tt
take_while-IsWord (c ∷ cs) = elim (Bool-cases (is_word c)) [
  | inl w ↦ rw w (w, take_while-IsWord cs)
  | inr n ↦ rw n tt
]

take_while_digit-IsWord : (cs : Text) → All IsWord (take_while is_digit cs)
take_while_digit-IsWord [] = tt
take_while_digit-IsWord (c ∷ cs) = elim (Bool-cases (is_digit c)) [
  | inl w ↦ rw w (ground arith, take_while_digit-IsWord cs)
  | inr n ↦ rw n tt
]

-- A found name is what follows the `$`, and is made of letters, digits and `_`.
pub bind_name-prefix :
    (after name : Text)
    → bind_name after ≡ some name
    → (rest : Text) × (after ≡ name ++ rest) × All IsWord name
unfolding bind_name
bind_name-prefix (c ∷ cs) name h = elim (Bool-cases (is_name_start c)) [
  | inl w ↦
      let e : name ≡ c ∷ take_while is_word cs = ground arith in
      rw e (
        drop_while is_word cs,
        ap (λ t. c ∷ t) (sym (take_while-append-drop_while is_word cs)),
        (ground arith, take_while-IsWord cs),
      )
  | inr n ↦
      let e : name ≡ c ∷ take_while is_digit cs = ground arith in
      rw e (
        drop_while is_digit cs,
        ap (λ t. c ∷ t) (sym (take_while-append-drop_while is_digit cs)),
        (ground arith, take_while_digit-IsWord cs),
      )
]
bind_name-prefix [] name h = cc

pub take-sql_at :
    (before rest : Text) (n : ℕ)
    → take (length before + n) (sql_at before rest)
      ≡ take (length before) (sql_at before rest) ++ take n rest
take-sql_at [] rest n = ap (λ k. take k rest) (omega arith)
take-sql_at (c ∷ before) rest n =
    ap (λ k. take k (sql_at before (c ∷ rest))) (shift n)
    ∙ take-sql_at before (c ∷ rest) (suc n)
    ∙ sym (
        ap (λ t. t ++ take n rest)
          (ap (λ k. take k (sql_at before (c ∷ rest))) one_more ∙ take-sql_at before (c ∷ rest) 1)
        ∙ append_assoc (take (length before) (sql_at before (c ∷ rest))) (c ∷ []) (take n rest))
  where
    shift : (n : ℕ) → suc (length before) + n ≡ length before + suc n
    shift n = omega arith

    one_more : suc (length before) ≡ length before + 1
    one_more = omega arith
