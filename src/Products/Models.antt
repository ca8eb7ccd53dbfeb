-- ===== src/Products/Models.antt =====
-- products/models.py: what sales and stock read of a product, and its conversions of weights into
-- stock units. A Decimal number of kilograms is a number of milligrams.
use swedesweets_ops.Prelude.{
  ℕ, ◌+◌, ◌-◌, ◌*◌, ◌/◌, Bool, Result, ok, err, if◌then◌else◌, invalid_product_data, ℤ, pos,
  pos_part, is_nonpositive,
}

pub record Product : Type 0 where
  pub pk : ℕ
  pub weight_per_unit : ℕ
  pub active : Bool

-- `(n + d - 1) // d`, for a positive d
unfoldable pub ceiling_div : ℕ → ℕ → ℕ
ceiling_div n d = (n + d - 1) / d

unfoldable pub grams_to_units : Product → ℤ → Result ℕ
unfolding ceiling_div
grams_to_units product grams =
    if is_nonpositive grams
    then err invalid_product_data
    else ok (ceiling_div (pos_part grams) product.weight_per_unit)

-- The kilograms are given in thousandths of a gram, and rounded up to whole grams.
unfoldable pub kg_to_units : Product → ℤ → Result ℕ
unfolding ceiling_div grams_to_units
kg_to_units product milligrams =
    if is_nonpositive milligrams
    then err invalid_product_data
    else grams_to_units product (pos (ceiling_div (pos_part milligrams) 1000))

unfoldable pub units_to_grams : Product → ℤ → Result ℕ
units_to_grams product units =
    if is_nonpositive units
    then err invalid_product_data
    else ok (pos_part units * product.weight_per_unit)

-- The kilograms are given in grams.
unfoldable pub units_to_kg : Product → ℤ → Result ℕ
unfolding units_to_grams
units_to_kg = units_to_grams
