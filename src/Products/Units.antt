-- ===== src/Products/Units.antt =====
-- products/units.py: an ordered quantity in stock units, and what the conversions keep. A Decimal
-- quantity is a number of millionths, and a unit is one of OrderUnit.
use swedesweets_ops.Prelude.{
  ℕ, zero, suc, ◌+◌, ◌-◌, ◌*◌, ◌/◌, ◌%◌, ◌≤◌, ◌<◌, ◌≡◌, arith, ◌==◌, Result, ok, err, if◌then◌else◌,
  invalid_product_data, ℤ, pos, negsuc, pos_part, is_nonpositive,
}
use native.Mathlib.Nat.{add-mul, div-lt_iff_lt-mul, le-div_iff_mul-le}
use swedesweets_ops.Products.Models.{
  Product, ceiling_div, grams_to_units, kg_to_units, units_to_grams,
}

pub data OrderUnit : Type 0 where
  stock_unit kg grams : OrderUnit

abbrev pub millionths : ℕ
millionths = 1000000

-- `quantity == quantity.to_integral_value()`, and the integer
unfoldable pub whole_number : ℤ → Result ℕ
whole_number quantity =
    if pos_part quantity % millionths == 0
    then ok (pos_part quantity / millionths)
    else err invalid_product_data

unfoldable pub quantity_to_units : Product → ℤ → OrderUnit → Result ℕ
unfolding whole_number grams_to_units kg_to_units
quantity_to_units product quantity unit =
    if is_nonpositive quantity then err invalid_product_data else elim unit [
      | stock_unit ↦ whole_number quantity
      | grams ↦ elim (whole_number quantity) [
        | err e ↦ err e
        | ok n ↦ grams_to_units product (pos n)
      ]
      | kg ↦ kg_to_units product quantity
    ]

ceiling_div-covers : (n d : ℕ) → 0 < d → n ≤ ceiling_div n d * d
unfolding ceiling_div
ceiling_div-covers n d h = omega arith

ceiling_div-least : (n d k : ℕ) → 0 < d → n ≤ k * d → ceiling_div n d ≤ k
unfolding ceiling_div
ceiling_div-least n d k h l =
    let below : (n + d - 1) / d < k + 1 = (div-lt_iff_lt-mul h).1 (omega (arith, add-mul k 1 d)) in
    omega arith

ceiling_div-multiple : (n d : ℕ) → 0 < d → ceiling_div (n * d) d ≡ n
unfolding ceiling_div
ceiling_div-multiple n d h =
    let above : n ≤ (n * d + d - 1) / d = (le-div_iff_mul-le h).1 (omega arith) in
    omega (arith, ceiling_div-least (n * d) d n h (omega arith))

-- For a positive weight, units that are converted into grams and back are as many as before.
pub grams_to_units-units_to_grams :
    (product : Product) (units : ℤ) (g : ℕ)
    → 0 < product.weight_per_unit
    → units_to_grams product units ≡ ok g
    → grams_to_units product (pos g) ≡ ok (pos_part units)
unfolding grams_to_units units_to_grams
grams_to_units-units_to_grams product (pos zero) g h e = ground arith
grams_to_units-units_to_grams product (pos (suc n)) g h e =
    ground (arith, ceiling_div-multiple (suc n) product.weight_per_unit h)
grams_to_units-units_to_grams product (negsuc n) g h e = ground arith

-- For a positive weight, grams become the least number of units that weighs as much: the units
-- cover the grams, and any number of units that covers them is at least as large.
pub grams_to_units-least :
    (product : Product) (g : ℤ) (n k : ℕ)
    → 0 < product.weight_per_unit
    → grams_to_units product g ≡ ok n
    → (pos_part g ≤ n * product.weight_per_unit)
      × (pos_part g ≤ k * product.weight_per_unit → n ≤ k)
unfolding grams_to_units
grams_to_units-least product (pos m) n k h e =
    let covers = ceiling_div-covers m product.weight_per_unit h in
    let least = ceiling_div-least m product.weight_per_unit k h in (ground arith, ground arith)
grams_to_units-least product (negsuc m) n k h e = absurd (ground arith)
