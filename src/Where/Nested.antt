-- ===== src/Where/Nested.antt =====
-- The recursion over `Op.and`, `Op.or`, `Op.not` and JSON keys behind an attribute name:
-- `#handleRecursiveNotOrAndNestedPathRecursive`, `#wrapSimpleJsonPath` and `#wrapComplexJsonPath` of
-- packages/core/src/abstract-dialect/where-sql-builder.ts.
use sequelize.Base.{
  Bool, true, false, ◌&&◌, not, Option, none, some, List, [], ◌∷◌, ◌++◌, if◌then◌else◌, Text,
}
use sequelize.Where.Logic.{Connective, op_and, join_with_logical_operator, wrap_with_not}
use sequelize.Where.Tree.{M, ◌>>=◌, pure}
use sequelize.Where.Operand.{Operand, Segment, cast, modified, extend_path}

-- What `parseNestedJsonKeySyntax`, a parser made by the package bnf-parser, makes of a key.
pub data Conversion : Type 0 where
  to_type : Text → Conversion
  by_modifier : Text → Conversion

pub record ParsedKey : Type 0 where
  pub path_segments : List Segment
  pub casts_and_modifiers : List Conversion

-- A left operand, and whether it is still the object that the recursion began with.
pub record Left : Type 0 where
  pub operand : Operand
  pub is_original : Bool

-- `WhereAttributeHashValue`. A plain object comes with the operand it is where it is taken for a
-- value; its string keys stand before its operators, and are given as they are parsed. `group` has
-- the value of `Op.and` or `Op.or` that is no array, `groups` the array. `operator` is any other
-- operator, of type `O`.
mutual
  pub data WhereValue (O : Type 0) : Type 0 where
    value : Operand → WhereValue O
    object : Operand → Entries O → WhereValue O

  pub data WhereValues (O : Type 0) : Type 0 where
    nil : WhereValues O
    cons : WhereValue O → WhereValues O → WhereValues O

  pub data Entries (O : Type 0) : Type 0 where
    end : Entries O
    key_entry : ParsedKey → WhereValue O → Entries O → Entries O
    negation : WhereValue O → Entries O → Entries O
    group : Connective → WhereValue O → Entries O → Entries O
    groups : Connective → WhereValues O → Entries O → Entries O
    operation : O → Operand → Entries O → Entries O

abbrev pub wrap_simple_json_path : Left → List Segment → Left
wrap_simple_json_path left [] = left
wrap_simple_json_path left (segment ∷ segments) = record {
  operand = extend_path left.operand (segment ∷ segments);
  is_original = false;
}

unfoldable pub convert : Operand → List Conversion → Operand
convert operand [] = operand
convert operand (to_type type ∷ rest) = convert (cast operand type) rest
convert operand (by_modifier modifier ∷ rest) = convert (modified modifier operand) rest

unfoldable pub wrap_complex_json_path : Left → List Segment → ParsedKey → Left
unfolding convert
wrap_complex_json_path left parent_json_path parsed =
    let wrapped = wrap_simple_json_path left (parent_json_path ++ parsed.path_segments) in
    record { operand = convert wrapped.operand parsed.casts_and_modifiers; is_original = false }

-- What a key makes of the left operand, of `allowJsonPath` and of the path: without casts and
-- modifiers the path grows, with them the operand is replaced and the path begins anew.
unfoldable pub key_left : Left → List Segment → ParsedKey → List Conversion → Left
unfolding wrap_complex_json_path
key_left left path parsed [] = left
key_left left path parsed (conversion ∷ rest) = wrap_complex_json_path left path parsed

abbrev pub key_allows : Bool → List Conversion → Bool
key_allows allow_json_path [] = allow_json_path
key_allows allow_json_path (conversion ∷ rest) = false

abbrev pub key_path : List Segment → ParsedKey → List Conversion → List Segment
key_path path parsed [] = path ++ parsed.path_segments
key_path path parsed (conversion ∷ rest) = []

unfoldable pub has_string_keys : {O : Type 0} → Entries O → Bool
has_string_keys (key_entry parsed inner entries) = true
has_string_keys _ = false

module _ {O S : Type 0} (handle_part : Left → Option O → Operand → M S Text) where
  unfoldable mutual
    pub nested : Left → WhereValue O → Bool → Connective → List Segment → M S Text
    nested left (value right) allow_json_path operator parent_json_path =
        handle_part (wrap_simple_json_path left parent_json_path) none right
    nested left (object right entries) allow_json_path operator parent_json_path =
        let parts = nested_entries left entries allow_json_path operator parent_json_path in
        if not allow_json_path && has_string_keys entries
        then handle_part (wrap_simple_json_path left parent_json_path) none right
        else (parts >>= λ texts. pure (join_with_logical_operator texts operator))

    pub nested_values : Left → WhereValues O → Bool → M S (List Text)
    nested_values left nil allow_json_path = pure []
    nested_values left (cons inner rest) allow_json_path = do
      text ← nested left inner allow_json_path op_and []
      texts ← nested_values left rest allow_json_path
      pure (text ∷ texts)

    pub nested_entries : Left → Entries O → Bool → Connective → List Segment → M S (List Text)
    nested_entries left end allow_json_path operator parent_json_path = pure []
    nested_entries left (key_entry parsed inner entries) allow_json_path operator parent_json_path =
        do
          text ←
              nested (key_left left parent_json_path parsed parsed.casts_and_modifiers) inner
                (key_allows allow_json_path parsed.casts_and_modifiers) operator
                (key_path parent_json_path parsed parsed.casts_and_modifiers)
          texts ← nested_entries left entries allow_json_path operator parent_json_path
          pure (text ∷ texts)
    nested_entries left (negation inner entries) allow_json_path operator parent_json_path = do
      text ← nested left inner allow_json_path op_and []
      texts ← nested_entries left entries allow_json_path operator parent_json_path
      pure (wrap_with_not text ∷ texts)
    nested_entries left (group connective inner entries) allow_json_path operator parent_json_path =
        do
          text ← nested left inner allow_json_path connective []
          texts ← nested_entries left entries allow_json_path operator parent_json_path
          pure (text ∷ texts)
    nested_entries left (groups connective inner entries) allow_json_path operator
          parent_json_path =
        do
          parts ← nested_values left inner allow_json_path
          texts ← nested_entries left entries allow_json_path operator parent_json_path
          pure (join_with_logical_operator parts connective ∷ texts)
    nested_entries left (operation o right entries) allow_json_path operator parent_json_path = do
      text ← handle_part (wrap_simple_json_path left parent_json_path) (some o) right
      texts ← nested_entries left entries allow_json_path operator parent_json_path
      pure (text ∷ texts)
