-- ===== src/Retail/Models.antt =====
-- retail/models.py: postal areas, carts, checkouts and the offers that retail lines were sold under.
use swedesweets_ops.Prelude.{ℕ, Bool}
use swedesweets_ops.Prelude.Texts.{Text, strip, upper, squeeze}

pub record RetailPostalArea : Type 0 where
  pub country_code : Text
  pub postal_code : Text
  pub city : Text
  pub enabled : Bool

unfoldable pub normalize_country_code : Text → Text
unfolding strip upper
normalize_country_code value = upper (strip value)

unfoldable pub normalize_postal_code : Text → Text
unfolding strip
normalize_postal_code value = strip value

unfoldable pub normalize_city : Text → Text
unfolding squeeze
normalize_city value = squeeze value

-- The row that RetailPostalArea.save writes.
unfoldable pub normalize_area : RetailPostalArea → RetailPostalArea
unfolding normalize_country_code normalize_postal_code normalize_city
normalize_area a = record a {
  country_code = normalize_country_code a.country_code;
  postal_code = normalize_postal_code a.postal_code;
  city = normalize_city a.city;
}

pub record RetailCart : Type 0 where
  pub pk : ℕ

pub record RetailCartLine : Type 0 where
  pub pk : ℕ
  pub cart_id : ℕ
  pub commercial_price_id : ℕ
  pub quantity : ℕ

pub record RetailCheckoutSession : Type 0 where
  pub pk : ℕ
  pub order_id : ℕ
  pub expires_at : ℕ

-- RetailOfferSelection
pub record OfferSelection : Type 0 where
  pub order_line_id : ℕ
  pub commercial_price_id : ℕ
