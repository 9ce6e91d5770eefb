-- ===== src/Sql/Loop/Order.antt =====
-- The array of names that a collector of packages/core/src/utils/sql.ts keeps.
use sequelize.Base.{
  ℕ, suc, ◌+◌, ◌≡◌, refl, ap, inl, inr, false, Option, none, some, List, [], ◌∷◌, ◌++◌, Text,
  text_eq, text_eq_iff, get_elem?, length, Bool-cases,
}
use sequelize.Base.Decimal.{decimal}
use sequelize.Sql.Collector.{specified_ordered, index_of, collect}
use sequelize.Sql.Scan.{add_name}

-- What `indexOf` says of an array, and of the array with the name added if it is new.
abbrev Located : Text → List Text → Option ℕ → Type 0
Located name order none =
    (add_name name order ≡ order ++ name ∷ [])
    × (get_elem? (add_name name order) (length order) ≡ some name)
Located name order (some i) = (add_name name order ≡ order) × (get_elem? order i ≡ some name)

Located-cons :
    (name n : Text) (ns : List Text) (o : Option ℕ)
    → text_eq n name ≡ false
    → Located name ns o
    → Located name (n ∷ ns) (elim o [ none ↦ none | some i ↦ some (suc i) ])
Located-cons name n ns none k (e, g) = rw k (ap (λ t. n ∷ t) e, g)
Located-cons name n ns (some i) k (e, g) = rw k (ap (λ t. n ∷ t) e, g)

index_of-Located : (name : Text) (order : List Text) → Located name order (index_of name order)
unfolding index_of
index_of-Located name [] = (refl, refl)
index_of-Located name (n ∷ ns) = elim (Bool-cases (text_eq n name)) [
  | inl y ↦ rw (y, index_of) (rw y refl, ap some ((text_eq_iff n name).0 y))
  | inr k ↦
      rw (k, index_of) (Located-cons name n ns (index_of name ns) k (index_of-Located name ns))
]

collect_of_Located :
    (prefix name : Text) (order : List Text) (o : Option ℕ)
    → index_of name order ≡ o
    → Located name order o
    → (i : ℕ) × (collect name (specified_ordered prefix order)
        ≡ (prefix ++ decimal (i + 1), specified_ordered prefix (add_name name order)))
      × (get_elem? (add_name name order) i ≡ some name)
unfolding collect
collect_of_Located prefix name order none e (same, at) = (length order, rw e (rw same refl), at)
collect_of_Located prefix name order (some i) e (same, at) = (i, rw e (rw same refl), rw same at)

-- The collector of positions (postgres) writes the position, counted from 1, that the name has in
-- its array; it adds the name to the end of the array exactly if it is not there yet.
pub collect-position :
    (prefix name : Text) (order : List Text)
    → (i : ℕ) × (collect name (specified_ordered prefix order)
        ≡ (prefix ++ decimal (i + 1), specified_ordered prefix (add_name name order)))
      × (get_elem? (add_name name order) i ≡ some name)
collect-position prefix name order =
    collect_of_Located prefix name order (index_of name order) refl (index_of-Located name order)
