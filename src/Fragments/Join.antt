-- ===== src/Fragments/Join.antt =====
-- `joinSQLFragments` and `singleSpaceJoinHelper` of packages/core/src/utils/join-sql-fragments.ts.
use sequelize.Base.{
  ℕ, Bool, true, false, ◌&&◌, ◌||◌, List, [], ◌∷◌, ◌++◌, if◌then◌else◌, Text, codes, ◌==◌, leb,
  Result, ok, throw,
}

-- `SQLFragment`: `falsy` is any value but a text that counts as false, `other` any other value that is
-- neither a text nor an array.
mutual
  pub data Fragment : Type 0 where
    text : Text → Fragment
    falsy other : Fragment
    array : Fragments → Fragment

  pub data Fragments : Type 0 where
    nil : Fragments
    cons : Fragment → Fragments → Fragments

pub data JoinError : Type 0 where
  not_a_string : JoinError

-- The ASCII white space that `trim` removes.
abbrev pub is_space : ℕ → Bool
is_space c = c == 32 || (leb 9 c && leb c 13)

abbrev pub is_blank : Text → Bool
is_blank [] = true
is_blank (c ∷ cs) = false

unfoldable pub trim_start : Text → Text
trim_start [] = []
trim_start (c ∷ cs) = let rest = trim_start cs in if is_space c then rest else c ∷ cs

unfoldable pub trim_end : Text → Text
trim_end [] = []
trim_end (c ∷ cs) = let rest = trim_end cs in if is_space c && is_blank rest then [] else c ∷ rest

unfoldable pub trim : Text → Text
unfolding trim_start trim_end
trim s = trim_end (trim_start s)

-- `/^[),;]/.test(str)`.
abbrev pub does_not_want_leading_space : Text → Bool
does_not_want_leading_space [] = false
does_not_want_leading_space (c ∷ cs) = c == 41 || (c == 44 || c == 59)

-- `str.endsWith('(')`.
abbrev pub does_not_want_trailing_space : Text → Bool
does_not_want_trailing_space [] = false
does_not_want_trailing_space (c ∷ []) = c == 40
does_not_want_trailing_space (c ∷ d ∷ cs) = does_not_want_trailing_space (d ∷ cs)

abbrev pub leading : Bool → Text → Text
leading skip_next_leading_space part =
    if skip_next_leading_space || does_not_want_leading_space part then [] else codes " "

-- `singleSpaceJoinHelper`, from the state `skipNextLeadingSpace` on.
unfoldable pub single_space_join : Bool → List Text → Text
unfolding trim
single_space_join skip [] = []
single_space_join skip (part ∷ parts) =
    leading skip part ++ (trim part ++ single_space_join (does_not_want_trailing_space part) parts)

-- `flattenedArray.map(x => x.trim())` without empty texts.
unfoldable pub trimmed : List Text → List Text
unfolding trim
trimmed [] = []
trimmed (t ∷ ts) = let rest = trimmed ts in if is_blank (trim t) then rest else trim t ∷ rest

abbrev pub joined_with : (List Text → Text) → Result JoinError (List Text) → Result JoinError Text
joined_with f (ok ts) = ok (f ts)
joined_with f (throw e) = throw e

abbrev pub prepend :
    Result JoinError Text → Result JoinError (List Text) → Result JoinError (List Text)
prepend (throw e) rest = throw e
prepend (ok t) (throw e) = throw e
prepend (ok t) (ok ts) = ok (t ∷ ts)

abbrev pub join_trimmed : List Text → Text
join_trimmed ts = single_space_join true (trimmed ts)

unfoldable mutual
  -- `flattenedArray`.
  pub flattened : Fragments → Result JoinError (List Text)
  flattened nil = ok []
  flattened (cons fragment rest) = let rest' = flattened rest in flatten_one fragment rest'

  pub flatten_one : Fragment → Result JoinError (List Text) → Result JoinError (List Text)
  flatten_one (text t) rest = prepend (ok t) rest
  flatten_one falsy rest = rest
  flatten_one other rest = throw not_a_string
  flatten_one (array fragments) rest = prepend (joined_with join_trimmed (flattened fragments)) rest

unfoldable pub join_sql_fragments : Fragments → Result JoinError Text
unfolding flattened single_space_join trimmed
join_sql_fragments fragments = joined_with join_trimmed (flattened fragments)
