-- ===== src/Instance/Equality.antt =====
-- `equals` of packages/core/src/model.js as a relation.
use sequelize.Base.{ℕ, ◌≡◌, refl, sym, ◌∙◌, ◌↔◌, true, List, [], ◌∷◌, Text, subst}
use sequelize.Instance.State.{Instance, Definition, Library}
use sequelize.Instance.Get.{equals, equals_iff, HasSame}

module _ (library : Library) (definitions : ℕ → Definition) where
  HasSame-refl : (keys : List Text) (i : Instance) → HasSame library definitions i i keys
  HasSame-refl [] i = tt
  HasSame-refl (key ∷ keys) i = (refl, HasSame-refl keys i)

  HasSame-sym :
      (keys : List Text) (i j : Instance)
      → HasSame library definitions i j keys
      → HasSame library definitions j i keys
  HasSame-sym [] i j h = tt
  HasSame-sym (key ∷ keys) i j (p, h) = (sym p, HasSame-sym keys i j h)

  HasSame-trans :
      (keys : List Text) (i j k : Instance)
      → HasSame library definitions i j keys
      → HasSame library definitions j k keys
      → HasSame library definitions i k keys
  HasSame-trans [] i j k h h' = tt
  HasSame-trans (key ∷ keys) i j k (p, h) (p', h') = (p ∙ p', HasSame-trans keys i j k h h')

  keys_of : ℕ → List Text
  keys_of m = (definitions m).primary_keys

  -- `equals` is an equivalence of the instances of one model: each instance equals itself, equality
  -- goes both ways, and what equals an equal instance is equal.
  pub equals_equivalence :
      (i j k : Instance)
      → i.model ≡ j.model
      → j.model ≡ k.model
      → (equals library definitions i i ≡ true)
        × (equals library definitions i j ≡ true → equals library definitions j i ≡ true)
        × (equals library definitions i j ≡ true
            → equals library definitions j k ≡ true
            → equals library definitions i k ≡ true)
  unfolding keys_of
  equals_equivalence i j k same same' = (
    (is i i).1 (HasSame-refl (keys_of i.model) i),
    λ h. (is j i).1 (
        subst (λ m. HasSame library definitions j i (keys_of m)) same
          (HasSame-sym (keys_of i.model) i j ((is i j).0 h))),
    λ h h'. (is i k).1 (
        HasSame-trans (keys_of i.model) i j k ((is i j).0 h)
          (subst (λ m. HasSame library definitions j k (keys_of m)) (sym same) ((is j k).0 h'))),
  )
    where
      is :
          (a b : Instance)
          → (equals library definitions a b ≡ true)
            ↔ HasSame library definitions a b (definitions a.model).primary_keys
      is = equals_iff library definitions
