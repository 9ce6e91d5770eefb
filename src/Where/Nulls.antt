-- ===== src/Where/Nulls.antt =====
-- How `formatPojoWhere` of packages/core/src/abstract-dialect/where-sql-builder.ts takes null.
use sequelize.Base.{◌≡◌, refl, false, Option, none, some}
use sequelize.Where.Operand.{DataType, Operand, null_value, is_json_type}
use sequelize.Where.Operators.{eq, ne, is, is_not, Builder}
use sequelize.Where.Format.{format_condition}

module _ {S : Type 0} (b : Builder S) where
  -- For a left operand that is no JSON column, comparing with null writes the same SQL, binds the same
  -- values and fails alike with no operator, with `Op.eq` and with `Op.is`, and likewise with `Op.ne` and
  -- with `Op.isNot`.
  pub format_condition_null :
      (left : Operand) (left_type : Option DataType)
      → is_json_type left_type ≡ false
      → (format_condition b left left_type none null_value
          ≡ format_condition b left left_type (some is) null_value)
        × (format_condition b left left_type (some eq) null_value
            ≡ format_condition b left left_type (some is) null_value)
        × (format_condition b left left_type (some ne) null_value
            ≡ format_condition b left left_type (some is_not) null_value)
  unfolding format_condition
  format_condition_null left left_type h = rw h (refl, refl, refl)
