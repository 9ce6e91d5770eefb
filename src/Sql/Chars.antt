-- ===== src/Sql/Chars.antt =====
-- The character classes and regular expressions of packages/core/src/utils/sql.ts, as functions.
-- None of them needs backtracking: a terminator is never a character of the name before it.
use sequelize.Base.{
  ℕ, Bool, true, false, not, ◌&&◌, ◌||◌, List, [], ◌∷◌, Option, none, some, leb, ◌==◌,
  if◌then◌else◌, Text, take_while, drop_while,
}

abbrev pub dollar : ℕ
dollar = b'$'

abbrev pub quote : ℕ
quote = 39

abbrev pub backslash : ℕ
backslash = 92

abbrev pub is_digit : ℕ → Bool
is_digit c = leb b'0' c && leb c b'9'

-- `[a-z_]` under the flag `i`.
abbrev pub is_name_start : ℕ → Bool
is_name_start c = (leb b'a' c && leb c b'z') || ((leb b'A' c && leb c b'Z') || c == b'_')

-- `[0-9a-z_]` under the flag `i`.
abbrev pub is_word : ℕ → Bool
is_word c = is_name_start c || is_digit c

-- `\s`.
abbrev pub is_space : ℕ → Bool
is_space c =
    (leb 9 c && leb c 13)
    || (c == 32
        || (c == 160
            || (c == 5760
                || ((leb 8192 c && leb c 8202)
                    || (c == 8232
                        || (c == 8233
                            || (c == 8239 || (c == 8287 || (c == 12288 || c == 65279)))))))))

-- `canPrecedeNewToken`; `none` is the `undefined` before the start of the text.
abbrev pub can_precede_new_token : Option ℕ → Bool
can_precede_new_token none = true
can_precede_new_token (some c) =
    is_space c || (c == b'(' || (c == b'[' || (c == b'>' || (c == b',' || c == b'='))))

-- `/[0-9a-z_]/i.test(previousChar)`: at the start of the text the argument is `undefined`, which
-- `test` turns into the text "undefined", and that matches.
abbrev pub is_part_of_identifier : Option ℕ → Bool
is_part_of_identifier none = true
is_part_of_identifier (some c) = is_word c

unfoldable pub backslash_run : Bool → Text → Bool
backslash_run escaped [] = escaped
backslash_run escaped (c ∷ before) = elim (c == backslash) [
  | true ↦ backslash_run (not escaped) before
  | false ↦ escaped
]

-- The loop of `isBackslashEscaped` over the characters before a position, the nearest first.
unfoldable pub is_backslash_escaped : Text → Bool
unfolding backslash_run
is_backslash_escaped before = backslash_run false before

abbrev pub is_dollar : List ℕ → Bool
is_dollar [] = false
is_dollar (c ∷ cs) = c == dollar

-- `/^\$(?<name>[a-z_][0-9a-z_]*)?\$/i` on a text whose first `$` is taken off: the name, which is
-- empty where the group did not take part.
unfoldable pub dollar_tag : Text → Option Text
dollar_tag [] = none
dollar_tag (c ∷ cs) =
    if c == dollar
    then some []
    else if is_name_start c && is_dollar (drop_while is_word cs)
    then some (c ∷ take_while is_word cs)
    else none

abbrev pub is_colon : List ℕ → Bool
is_colon [] = false
is_colon (c ∷ cs) = c == b':'

-- `(?:\]|\)|,|$|\s|::|;)`.
abbrev pub ends_parameter : Text → Bool
ends_parameter [] = true
ends_parameter (c ∷ cs) =
    c == b']'
    || (c == b')' || (c == b',' || (is_space c || ((c == b':' && is_colon cs) || c == b';'))))

abbrev pub when : Bool → Text → Option Text
when b name = if b then some name else none

-- `/^:(?<name>[a-z_][0-9a-z_]*)(?:\)|,|$|\s|::|;|])/i`, without the first character.
unfoldable pub replacement_name : Text → Option Text
replacement_name [] = none
replacement_name (c ∷ cs) =
    if is_name_start c
    then when (ends_parameter (drop_while is_word cs)) (c ∷ take_while is_word cs)
    else none

-- `/^\$(?<name>([a-z_][0-9a-z_]*|[1-9][0-9]*))(?:\]|\)|,|$|\s|::|;)/i`, without the first `$`.
unfoldable pub bind_name : Text → Option Text
bind_name [] = none
bind_name (c ∷ cs) =
    if is_name_start c
    then when (ends_parameter (drop_while is_word cs)) (c ∷ take_while is_word cs)
    else if leb b'1' c && leb c b'9'
    then when (ends_parameter (drop_while is_digit cs)) (c ∷ take_while is_digit cs)
    else none
