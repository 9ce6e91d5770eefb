-- ===== src/Where/JsonPath.antt =====
-- The JSON path under `Op.not`, `Op.and` and `Op.or` in
-- `#handleRecursiveNotOrAndNestedPathRecursive` of
-- packages/core/src/abstract-dialect/where-sql-builder.ts.
use sequelize.Base.{◌≡◌, refl, Bool, true, false, not, ◌&&◌, Option, List, [], Text}
use sequelize.Where.Logic.{Connective}
use sequelize.Where.Tree.{M}
use sequelize.Where.Operand.{Operand, Segment}
use sequelize.Where.Nested.{
  Left, WhereValue, Entries, end, key_entry, negation, group, groups, operation, has_string_keys,
  nested, nested_entries,
}

-- An object with no keys but `Op.not`, `Op.and` and `Op.or`.
unfoldable pub only_connectives : {O : Type 0} → Entries O → Bool
only_connectives end = true
only_connectives (key_entry parsed inner entries) = false
only_connectives (negation inner entries) = only_connectives entries
only_connectives (group connective inner entries) = only_connectives entries
only_connectives (groups connective inner entries) = only_connectives entries
only_connectives (operation o right entries) = false

only_connectives-has_string_keys :
    {O : Type 0} (entries : Entries O)
    → only_connectives entries ≡ true
    → has_string_keys entries ≡ false
unfolding only_connectives has_string_keys
only_connectives-has_string_keys end h = refl
only_connectives-has_string_keys (key_entry parsed inner entries) h = cc
only_connectives-has_string_keys (negation inner entries) h = refl
only_connectives-has_string_keys (group connective inner entries) h = refl
only_connectives-has_string_keys (groups connective inner entries) h = refl
only_connectives-has_string_keys (operation o right entries) h = refl

module _ {O S : Type 0} (handle_part : Left → Option O → Operand → M S Text) where
  nested_entries-path :
      (left : Left) (entries : Entries O) (allow : Bool) (operator : Connective)
      (path : List Segment)
      → only_connectives entries ≡ true
      → nested_entries handle_part left entries allow operator path
        ≡ nested_entries handle_part left entries allow operator []
  unfolding nested only_connectives
  nested_entries-path left end allow operator path h = refl
  nested_entries-path left (key_entry parsed inner entries) allow operator path h = cc
  nested_entries-path left (negation inner entries) allow operator path h =
      rw (nested_entries-path left entries allow operator path h) refl
  nested_entries-path left (group connective inner entries) allow operator path h =
      rw (nested_entries-path left entries allow operator path h) refl
  nested_entries-path left (groups connective inner entries) allow operator path h =
      rw (nested_entries-path left entries allow operator path h) refl
  nested_entries-path left (operation o right entries) allow operator path h = cc

  and_false : (a b : Bool) → b ≡ false → (a && b) ≡ false
  and_false true b h = h
  and_false false b h = refl

  -- For an object below a JSON path whose keys are all `Op.not`, `Op.and` and `Op.or`, the SQL is the
  -- one for the same object at the attribute itself: the JSON path is lost, and the conditions under
  -- these operators are applied to the whole column.
  pub nested_forgets_path :
      (left : Left) (right : Operand) (entries : Entries O) (allow : Bool) (operator : Connective)
      (path : List Segment)
      → only_connectives entries ≡ true
      → nested handle_part left (WhereValue.object right entries) allow operator path
        ≡ nested handle_part left (WhereValue.object right entries) allow operator []
  unfolding nested
  nested_forgets_path left right entries allow operator path h =
      rw
        (
          and_false (not allow) (has_string_keys entries)
              (only_connectives-has_string_keys entries h),
          nested_entries-path left entries allow operator path h,
        )
        refl
