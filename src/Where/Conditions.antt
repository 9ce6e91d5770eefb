-- ===== src/Where/Conditions.antt =====
-- Which single conditions of packages/core/src/abstract-dialect/where-sql-builder.ts write no text.
use sequelize.Base.{
  ◌≡◌, refl, subst, Bool, true, false, ◌&&◌, Option, none, some, [], ◌∷◌, if◌then◌else◌, Text,
  codes, ok,
}
use sequelize.Where.Logic.{is_empty}
use sequelize.Where.Tree.{WhereError, M, ◌>>=◌, pure, fail, needs_list, needs_null_or_boolean}
use sequelize.Where.Writes.{>>=-ok, pure_value}
use sequelize.Where.Operand.{
  DataType, Operand, string, concat, list, Operands, is_literal, first_type,
}
use sequelize.Where.Operators.{
  Operator, like, not_like, not_in, is, Builder, binary_sql, write_binary, format_binary_operation,
  format_right, wrap_ambiguous_where, write_in, format_in, format_is, is_constant, format_between,
  between_sql, format_substring, format_keys_exist, format_operator,
}

is_empty-binary_sql : (left keyword right : Text) → is_empty (binary_sql left keyword right) ≡ false
is_empty-binary_sql [] keyword right = refl
is_empty-binary_sql (c ∷ left) keyword right = refl

-- `Op.notIn` of an empty list.
abbrev pub is_vacuous : Operator → Operand → Bool
is_vacuous not_in (list Operands.nil) = true
is_vacuous _ _ = false

module _ {S : Type 0} where
  abbrev pub Fills : M S Text → Type 0
  Fills m = (s s' : S) (text : Text) → m s ≡ ok (text, s') → is_empty text ≡ false

  >>=-Fills :
      {X : Type 0} (m : M S X) (k : X → M S Text) → ((x : X) → Fills (k x)) → Fills (m >>= k)
  >>=-Fills m k h s s' text e = let (x, t, e', later) = >>=-ok m k s e in h x t s' text later

  pure-Fills : (t : Text) → is_empty t ≡ false → Fills (pure t)
  pure-Fills t h s s' text e = subst (λ x. is_empty x ≡ false) (pure_value t text s s' e) h

  pub fail-Fills : (problem : WhereError) → Fills (fail problem)
  fail-Fills problem s s' text e = cc

  pub if-Fills : (c : Bool) (m k : M S Text) → Fills m → Fills k → Fills (if c then m else k)
  if-Fills true m k h h' = h
  if-Fills false m k h h' = h'

module _ {S : Type 0} (b : Builder S) where
  format_binary_operation-Fills :
      (left : Operand) (left_type : Option DataType) (operator : Operator) (right : Operand)
      (right_type : Option DataType)
      → Fills (format_binary_operation b left left_type operator right right_type)
  unfolding format_binary_operation
  format_binary_operation-Fills left left_type operator right right_type = go (b.keyword operator)
    where
      go : (k : Option Text) → Fills (write_binary b k left left_type right right_type)
      go none = fail-Fills _
      go (some keyword) = >>=-Fills (b.escape left _) _ λ left_sql.
          >>=-Fills (format_right b right _) _ λ right_sql.
            pure-Fills _ (is_empty-binary_sql (wrap_ambiguous_where left left_sql) keyword _)

  write_in-Fills :
      (left : Operand) (left_type : Option DataType) (operator : Operator) (right_sql : Text)
      (right_type : Option DataType)
      → Fills (write_in b left left_type operator right_sql right_type)
  write_in-Fills left left_type operator right_sql right_type =
      >>=-Fills (b.escape left _) _
        λ left_sql. pure-Fills _ (is_empty-binary_sql left_sql _ right_sql)

  literal_in-Fills :
      (left : Operand) (left_type : Option DataType) (operator : Operator) (right : Operand)
      (right_type : Option DataType)
      → Fills (
          if is_literal right
          then (b.escape right (first_type right_type left_type) >>= λ right_sql.
              write_in b left left_type operator right_sql right_type)
          else fail needs_list)
  literal_in-Fills left left_type operator right right_type =
      if-Fills (is_literal right) _ (fail needs_list)
        (>>=-Fills (b.escape right (first_type right_type left_type)) _
          λ right_sql. write_in-Fills left left_type operator right_sql right_type)
        (fail-Fills needs_list)

  format_in-Fills :
      (negated : Bool) (left : Operand) (left_type : Option DataType) (operator : Operator)
      (right : Operand) (right_type : Option DataType)
      → (negated && is_vacuous not_in right) ≡ false
      → Fills (format_in b negated left left_type operator right right_type)
  unfolding format_in
  format_in-Fills true left left_type operator (list Operands.nil) right_type h = cc
  format_in-Fills false left left_type operator (list Operands.nil) right_type h =
      write_in-Fills left left_type operator (codes "(NULL)") right_type
  format_in-Fills negated left left_type operator (list (Operands.cons v rest)) right_type h =
      >>=-Fills (b.escape_list _ _) _
        λ right_sql. write_in-Fills left left_type operator right_sql right_type
  format_in-Fills negated left left_type operator right right_type h =
      literal_in-Fills left left_type operator right right_type

  format_is-Fills :
      (left : Operand) (operator : Operator) (right : Operand)
      → Fills (format_is b left operator right)
  unfolding format_is
  format_is-Fills left operator right s s' text = go (is_constant b right)
    where
      go :
          (c : Bool)
          → (if c
              then format_binary_operation b left none operator right none (b.remove_bind_param s)
              else fail needs_null_or_boolean s)
            ≡ ok (text, s')
          → is_empty text ≡ false
      go true e =
          format_binary_operation-Fills left none operator right none (b.remove_bind_param s) s'
            text e
      go false e = cc

  format_between-Fills :
      (left : Operand) (left_type : Option DataType) (operator : Operator) (right : Operand)
      (right_type : Option DataType)
      → Fills (format_between b left left_type operator right right_type)
  unfolding format_between
  format_between-Fills left left_type operator right right_type =
      >>=-Fills (b.escape left _) _ λ left_sql.
        >>=-Fills (between_sql b right _) _
          λ right_sql. pure-Fills _ (is_empty-binary_sql left_sql _ right_sql)

  format_substring-Fills :
      (left : Operand) (left_type : Option DataType) (operator : Operator) (right : Operand)
      (right_type : Option DataType) (start stop : Bool)
      → Fills (format_substring b left left_type operator right right_type start stop)
  unfolding format_substring
  format_substring-Fills left left_type operator (string text) right_type start stop =
      format_binary_operation-Fills left left_type operator _ right_type
  format_substring-Fills left left_type operator right right_type start stop =
      format_binary_operation-Fills left left_type operator (concat start stop right) right_type

  format_keys_exist-Fills :
      (type : Option DataType) (left : Operand) (left_type : Option DataType) (operator : Operator)
      (right : Operand)
      → Fills (format_keys_exist b type left left_type operator right)
  format_keys_exist-Fills none left left_type operator right = fail-Fills _
  format_keys_exist-Fills (some type) left left_type operator right =
      format_binary_operation-Fills left left_type operator right (some type)

  pub format_operator-Fills :
      (left : Operand) (type : Option DataType) (operator : Operator) (right : Operand)
      (right_type : Option DataType)
      → is_vacuous operator right ≡ false
      → Fills (format_operator b left type operator right right_type)
  unfolding format_operator
  format_operator-Fills left type Operator.in_list right right_type h =
      format_in-Fills false left type Operator.in_list right right_type refl
  format_operator-Fills left type not_in right right_type h =
      format_in-Fills true left type not_in right right_type h
  format_operator-Fills left type is right right_type h = format_is-Fills left is right
  format_operator-Fills left type Operator.is_not right right_type h =
      format_is-Fills left Operator.is_not right
  format_operator-Fills left type Operator.between right right_type h =
      format_between-Fills left type Operator.between right right_type
  format_operator-Fills left type Operator.not_between right right_type h =
      format_between-Fills left type Operator.not_between right right_type
  format_operator-Fills left type Operator.contain right right_type h =
      format_binary_operation-Fills left type Operator.contain right _
  format_operator-Fills left type Operator.contained right right_type h =
      format_binary_operation-Fills left type Operator.contained right _
  format_operator-Fills left type Operator.starts_with right right_type h =
      format_substring-Fills left type like right right_type false true
  format_operator-Fills left type Operator.not_starts_with right right_type h =
      format_substring-Fills left type not_like right right_type false true
  format_operator-Fills left type Operator.ends_with right right_type h =
      format_substring-Fills left type like right right_type true false
  format_operator-Fills left type Operator.not_ends_with right right_type h =
      format_substring-Fills left type not_like right right_type true false
  format_operator-Fills left type Operator.substring right right_type h =
      format_substring-Fills left type like right right_type true true
  format_operator-Fills left type Operator.not_substring right right_type h =
      format_substring-Fills left type not_like right right_type true true
  format_operator-Fills left type Operator.any_key_exists right right_type h =
      format_keys_exist-Fills b.array_of_text_type left type Operator.any_key_exists right
  format_operator-Fills left type Operator.all_keys_exist right right_type h =
      format_keys_exist-Fills b.array_of_text_type left type Operator.all_keys_exist right
  format_operator-Fills left type operator right right_type h =
      format_binary_operation-Fills left type operator right right_type
