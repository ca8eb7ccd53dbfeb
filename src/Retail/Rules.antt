-- ===== src/Retail/Rules.antt =====
-- retail/rules.py: the limits of retail orders, and where they are delivered. Amounts are in cents and
-- windows in seconds.
use swedesweets_ops.Prelude.{
  ℕ, ◌*◌, Bool, false, ◌&&◌, ◌||◌, leb, ltb, any, is_empty, if◌then◌else◌, ℤ, pos_part,
}
use swedesweets_ops.Prelude.Texts.{Text, text_eq, strip, upper, squeeze}
use swedesweets_ops.Database.{Db}

abbrev pub min_retail_line_quantity : ℕ
min_retail_line_quantity = 1

abbrev pub max_retail_line_quantity : ℕ
max_retail_line_quantity = 20

abbrev pub max_retail_order_lines : ℕ
max_retail_order_lines = 20

abbrev pub max_retail_order_total : ℕ
max_retail_order_total = 100000

abbrev pub retail_checkout_window : ℕ
retail_checkout_window = 90 * 60

abbrev pub retail_payment_reservation_window : ℕ
retail_payment_reservation_window = 35 * 60

unfoldable pub is_valid_retail_line_quantity : ℤ → Bool
is_valid_retail_line_quantity quantity =
    leb min_retail_line_quantity (pos_part quantity)
    && leb (pos_part quantity) max_retail_line_quantity

unfoldable pub is_valid_retail_order_total : ℕ → Bool
is_valid_retail_order_total total = ltb 0 total && leb total max_retail_order_total

-- `iexact` is the database's comparison of two texts without case.
unfoldable pub is_supported_retail_destination :
    (Text → Text → Bool) → Text → Text → Text → Db → Bool
unfolding strip upper squeeze text_eq any
is_supported_retail_destination iexact country_code postal_code city db =
    let country = upper (strip country_code) in
    let postal = strip postal_code in
    let normalized_city = squeeze city in
    if is_empty country || (is_empty postal || is_empty normalized_city)
    then false
    else any
        (λ a.
          text_eq a.country_code country
          && (text_eq a.postal_code postal && (iexact a.city normalized_city && a.enabled)))
        db.areas
