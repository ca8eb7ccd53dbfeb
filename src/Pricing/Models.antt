-- ===== src/Pricing/Models.antt =====
-- pricing/models.py: the offers under which a product or one batch is sold, and their amounts.
use swedesweets_ops.Prelude.{
  ℕ, Bool, true, false, not, ◌&&◌, Option, none, some, ◌==◌, ltb, leb, is_some,
}

-- CommercialPrice.Channel and Order.Channel
pub data Channel : Type 0 where
  business retail : Channel

-- PriceAmount.Currency; an order has only the first
pub data Currency : Type 0 where
  eur sek : Currency

-- CommercialPrice.Reason, with the blank default
pub data PriceReason : Type 0 where
  ordinary short_dated damaged_package promotion other_reason : PriceReason

pub record CommercialPrice : Type 0 where
  pub pk : ℕ
  pub product_id : ℕ
  pub batch_id : Option ℕ
  pub channel : Channel
  pub reason : PriceReason
  pub enabled : Bool

-- Prices are in cents.
pub record PriceAmount : Type 0 where
  pub pk : ℕ
  pub commercial_price_id : ℕ
  pub currency : Currency
  pub price : ℕ
  pub original_price : Option ℕ

unfoldable pub channel_eq : Channel → Channel → Bool
channel_eq business business = true
channel_eq retail retail = true
channel_eq _ _ = false

unfoldable pub currency_eq : Currency → Currency → Bool
currency_eq eur eur = true
currency_eq sek sek = true
currency_eq _ _ = false

unfoldable pub is_batch_specific : CommercialPrice → Bool
is_batch_specific p = is_some p.batch_id

unfoldable pub is_discounted : PriceAmount → Bool
is_discounted a = elim a.original_price [ none ↦ false | some original ↦ ltb a.price original ]

-- The offers that unique_product_price_per_channel and unique_batch_price_per_channel do not let
-- stand together.
unfoldable pub same_scope : CommercialPrice → CommercialPrice → Bool
unfolding channel_eq
same_scope p q = channel_eq p.channel q.channel && elim p.batch_id [
  | none ↦ not (is_some q.batch_id) && p.product_id == q.product_id
  | some b ↦ elim q.batch_id [ none ↦ false | some c ↦ b == c ]
]

-- The check constraints of the amounts.
unfoldable pub amount_is_valid : PriceAmount → Bool
amount_is_valid a = ltb 0 a.price && elim a.original_price [
  | none ↦ true
  | some original ↦ ltb 0 original && leb a.price original
]

-- The unique constraint of the amounts.
unfoldable pub same_amount : ℕ → Currency → PriceAmount → Bool
unfolding currency_eq
same_amount price_pk currency a =
    a.commercial_price_id == price_pk && currency_eq a.currency currency
