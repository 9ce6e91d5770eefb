-- ===== src/Instance/Deletion.antt =====
-- Soft deletion: what `destroy` and `restore` of packages/core/src/model.js do to the instance before
-- they save it, and `isSoftDeleted`.
use sequelize.Base.{
  ◌≡◌, refl, ap, ◌∙◌, Bool, true, false, not, ◌&&◌, ◌||◌, if◌then◌else◌, Text, inl, inr, Bool-cases,
  text_eq_refl, arith,
}
use sequelize.Sql.Binds.Laws.{get-set_key}
use sequelize.Instance.Value.{
  Value, undefined, null, number, text, boolean, expression, other, at, same, same_refl, is_nullish,
  is_truthy, or_undefined,
}
use sequelize.Instance.State.{Instance, Definition, Library, flag}
use sequelize.Instance.Get.{get_one, GetOptions}
use sequelize.Instance.Set.{set_data_value}

abbrev pub get_options : GetOptions
get_options = record { raw = false; plain = false; clone = false }

-- `attribute.defaultValue ?? null`.
abbrev pub or_null : Value → Value
or_null undefined = null
or_null value = value

same-null : (default : Value) → same null (or_null default) ≡ is_nullish (or_null default)
unfolding same
same-null undefined = refl
same-null null = refl
same-null (boolean b) = refl
same-null (number n) = refl
same-null (text t) = refl
same-null (expression n) = refl
same-null (other n) = refl

module _ (library : Library) (definition : Definition) (deleted_at : Text) (default : Value) where
  -- `destroy` without `force`; `now` is the new date.
  unfoldable pub mark_deleted : Value → Instance → Instance
  unfolding set_data_value
  mark_deleted now i =
      let current = at i.data_values deleted_at in
      if (is_nullish current && is_nullish (or_null default))
        || library.is_equal current (or_null default)
      then set_data_value library definition deleted_at now i
      else i

  unfoldable pub mark_restored : Instance → Instance
  unfolding set_data_value
  mark_restored i = set_data_value library definition deleted_at (or_null default) i

  -- `get(…) || null`.
  abbrev pub truthy_or_null : Value → Value
  truthy_or_null value = if is_truthy value then value else null

  unfoldable pub is_soft_deleted : Instance → Bool
  unfolding get_one same
  is_soft_deleted i = not (
      same (truthy_or_null (get_one library definition deleted_at get_options i)) (or_null default))

  at-set_data_value :
      (key : Text) (value : Value) (i : Instance)
      → at (set_data_value library definition key value i).data_values key ≡ value
  unfolding set_data_value flag
  at-set_data_value key value i =
      ap or_undefined (get-set_key key key value _) ∙ rw (text_eq_refl key) refl

  -- What `isSoftDeleted` says of a value of the attribute.
  abbrev judged : Value → Bool
  judged value = not (same (truthy_or_null value) (or_null default))

  module _
      (no_getter : (i : Instance)
        → get_one library definition deleted_at get_options i ≡ at i.data_values deleted_at) where
    is_soft_deleted-judged :
        (i : Instance) → is_soft_deleted i ≡ judged (at i.data_values deleted_at)
    unfolding is_soft_deleted
    is_soft_deleted-judged i = ap judged (no_getter i)

    judged_default :
        judged (or_null default)
        ≡ (not (is_truthy (or_null default)) && not (is_nullish (or_null default)))
    judged_default = elim (Bool-cases (is_truthy (or_null default))) [
      | inl y ↦ rw (y, same_refl (or_null default)) refl
      | inr n ↦ rw n (ap not (same-null default))
    ]

    -- After `restore` has written the default value of the deletedAt attribute, the instance is taken for
    -- soft deleted exactly if that default is a falsy value other than null and undefined, such as 0. The
    -- condition is that the attribute has no getter.
    pub is_soft_deleted-mark_restored :
        (i : Instance)
        → is_soft_deleted (mark_restored i)
          ≡ (not (is_truthy (or_null default)) && not (is_nullish (or_null default)))
    unfolding mark_restored
    is_soft_deleted-mark_restored i =
        is_soft_deleted-judged (mark_restored i)
        ∙ ap judged (at-set_data_value deleted_at (or_null default) i)
        ∙ judged_default

    -- After `destroy` has marked an instance, it is soft deleted. The conditions: the attribute has no
    -- getter, the new date is truthy and not the default value, the value of the attribute is not a falsy
    -- value other than null and undefined, and `isEqual` holds where `===` does.
    pub is_soft_deleted-mark_deleted :
        (now : Value) (i : Instance)
        → is_truthy now ≡ true
        → same now (or_null default) ≡ false
        → (is_truthy (at i.data_values deleted_at) || is_nullish (at i.data_values deleted_at))
          ≡ true
        → ((a b : Value) → same a b ≡ true → library.is_equal a b ≡ true)
        → is_soft_deleted (mark_deleted now i) ≡ true
    unfolding mark_deleted
    is_soft_deleted-mark_deleted now i t d c e =
        let current = at i.data_values deleted_at in
        is_soft_deleted-judged (mark_deleted now i)
        ∙ elim (Bool-cases (
            (is_nullish current && is_nullish (or_null default))
            || library.is_equal current (or_null default))) [
              | inl y ↦ rw y (ap judged (at-set_data_value deleted_at now i) ∙ rw (t, d) refl)
              | inr n ↦ rw n (kept current n c)
            ]
      where
        kept :
            (current : Value)
            → ((is_nullish current && is_nullish (or_null default))
                || library.is_equal current (or_null default))
              ≡ false
            → (is_truthy current || is_nullish current) ≡ true
            → judged current ≡ true
        kept current n c = elim (Bool-cases (is_truthy current)) [
          | inl y ↦ rw y (ground (arith, e current (or_null default)))
          | inr k ↦ rw k (ap not (same-null default) ∙ (ground arith))
        ]
