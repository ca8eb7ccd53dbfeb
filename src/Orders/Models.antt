-- ===== src/Orders/Models.antt =====
-- orders/models.py: an order with its lifecycle, and its lines.
use swedesweets_ops.Prelude.{
  ℕ, ◌+◌, ◌*◌, Bool, true, false, ◌||◌, Option, none, some, List, [], ◌∷◌, if◌then◌else◌, Result,
  ok, err, ◌>>=◌, invalid_order_status_transition,
}
use swedesweets_ops.Prelude.Texts.{Text, strip}
use swedesweets_ops.Pricing.Models.{Channel, Currency}

-- Order.Status
pub data OrderStatus : Type 0 where
  draft placed packed delivered cancelled : OrderStatus

-- Order.CancelReason, with the blank default
pub data CancelReason : Type 0 where
  no_reason customer_request order_entry_error duplicate_order out_of_stock other : CancelReason

-- The buyer data of an order's snapshot, and orders.datatypes.BuyerInput.
pub record Buyer : Type 0 where
  pub name : Text
  pub email : Text
  pub phone_number : Text
  pub country : Text
  pub city : Text
  pub address_line : Text
  pub postal_code : Text

abbrev pub no_buyer : Buyer
no_buyer = record {
  name = [];
  email = [];
  phone_number = [];
  country = [];
  city = [];
  address_line = [];
  postal_code = [];
}

pub record Order : Type 0 where
  pub pk : ℕ
  pub channel : Channel
  pub currency : Currency
  pub customer : Option ℕ
  pub buyer : Buyer
  pub status : OrderStatus
  pub updated_at : ℕ
  pub edited_at : Option ℕ
  pub placed_at : Option ℕ
  pub packed_at : Option ℕ
  pub delivered_at : Option ℕ
  pub cancelled_at : Option ℕ
  pub edited_by : Option ℕ
  pub placed_by : Option ℕ
  pub packed_by : Option ℕ
  pub delivered_by : Option ℕ
  pub cancelled_by : Option ℕ
  pub cancel_reason : CancelReason
  pub cancel_note : Text

-- OrderLine.Unit
pub data QuantityUnit : Type 0 where
  stock_unit kg grams : QuantityUnit

pub record OrderLine : Type 0 where
  pub pk : ℕ
  pub order_id : ℕ
  pub product_id : ℕ
  pub quantity : ℕ
  pub unit : QuantityUnit
  pub quantity_in_units : ℕ
  pub unit_price_snapshot : Option ℕ
  pub commercial_offer_id : ℕ

unfoldable pub order_status_eq : OrderStatus → OrderStatus → Bool
order_status_eq draft draft = true
order_status_eq placed placed = true
order_status_eq packed packed = true
order_status_eq delivered delivered = true
order_status_eq cancelled cancelled = true
order_status_eq _ _ = false

-- ALLOWED_TRANSITIONS
unfoldable pub allowed_transitions : OrderStatus → OrderStatus → Bool
allowed_transitions draft placed = true
allowed_transitions draft cancelled = true
allowed_transitions placed packed = true
allowed_transitions placed cancelled = true
allowed_transitions packed delivered = true
allowed_transitions _ _ = false

unfoldable pub can_be_edited : Order → Bool
unfolding order_status_eq
can_be_edited o = order_status_eq o.status placed

unfoldable pub can_be_cancelled : Order → Bool
unfolding order_status_eq
can_be_cancelled o = order_status_eq o.status draft || order_status_eq o.status placed

-- OrderLine.line_total, in cents
unfoldable pub line_total : OrderLine → Option ℕ
line_total l = elim l.unit_price_snapshot [
  | none ↦ none
  | some price ↦ some (price * l.quantity_in_units)
]

-- The loop of Order.total over the order's lines, with the sum so far.
unfoldable pub total_from : ℕ → List OrderLine → Option ℕ
unfolding line_total
total_from total [] = some total
total_from total (l ∷ ls) = elim (line_total l) [ none ↦ none | some t ↦ total_from (total + t) ls ]

-- Order.total
unfoldable pub order_total : List OrderLine → Option ℕ
unfolding total_from
order_total = total_from 0

unfoldable pub snapshot_buyer : Buyer → Order → Order
snapshot_buyer buyer o = record o { buyer = buyer }

-- Order._transition_to
unfoldable pub order_transition_to : OrderStatus → Order → Result Order
unfolding order_status_eq allowed_transitions
order_transition_to target o =
    if order_status_eq o.status target
    then ok o
    else if allowed_transitions o.status target
    then ok (record o { status = target })
    else err invalid_order_status_transition

-- The methods that end in `save` give the row that is written; `updated_at` is set by every save.
unfoldable pub mark_as_edited : Option ℕ → ℕ → Order → Order
mark_as_edited user now o = record o { edited_at = some now; edited_by = user; updated_at = now }

unfoldable pub mark_as_placed : Option ℕ → ℕ → Order → Result Order
unfolding order_transition_to
mark_as_placed user now o = do
  o' ← order_transition_to placed o
  ok (record o' { placed_at = some now; placed_by = user; updated_at = now })

unfoldable pub mark_as_packed : Option ℕ → ℕ → Order → Result Order
unfolding order_transition_to
mark_as_packed user now o = do
  o' ← order_transition_to packed o
  ok (record o' { packed_at = some now; packed_by = user; updated_at = now })

unfoldable pub mark_as_delivered : Option ℕ → ℕ → Order → Result Order
unfolding order_transition_to
mark_as_delivered user now o = do
  o' ← order_transition_to delivered o
  ok (record o' { delivered_at = some now; delivered_by = user; updated_at = now })

unfoldable pub cancel : Option ℕ → CancelReason → Text → ℕ → Order → Result Order
unfolding order_transition_to strip
cancel user reason note now o = do
  o' ← order_transition_to cancelled o
  ok (record o' {
    cancelled_at = some now;
    cancelled_by = user;
    cancel_reason = reason;
    cancel_note = strip note;
    updated_at = now;
  })
