-- ===== src/Orders/Drafts.antt =====
-- orders/drafts.py: the lines and drafts that a sales channel has resolved.
use swedesweets_ops.Prelude.{ℕ, Option, List, ℤ}
use swedesweets_ops.Pricing.Models.{Channel, Currency}
use swedesweets_ops.Orders.Models.{Buyer}

-- A CommercialPrice as a line refers to it; an offer that is not stored yet has no key.
pub record Offer : Type 0 where
  pub pk : Option ℕ
  pub product_id : ℕ
  pub channel : Channel

pub record ResolvedOrderLine : Type 0 where
  pub product_id : ℕ
  pub quantity_in_units : ℤ
  pub commercial_offer : Option Offer
  pub unit_price_snapshot : Option ℕ

pub record OrderDraft : Type 0 where
  pub channel : Channel
  pub currency : Currency
  pub buyer : Buyer
  pub lines : List ResolvedOrderLine
  pub customer : Option ℕ
