-- ===== src/Business/Drafts.antt =====
-- business/drafts.py: the order lines that the quantities and offers of a business order resolve to.
-- A Decimal quantity is a number of millionths, and an input line has its product resolved.
use swedesweets_ops.Prelude.{
  false, ℕ, not, ◌&&◌, none, some, List, [], ◌∷◌, any, is_empty, Result, ok, ◌>>=◌, ◌>>◌, raise_if,
  or_raise, is_some, invalid_order_operation, runtime_error, ℤ, pos, ◌==◌,
}
use swedesweets_ops.Prelude.Rows.{find, first_where}
use swedesweets_ops.Prelude.Totals.{Dict, add_to}
use swedesweets_ops.Customers.Models.{Customer}
use swedesweets_ops.Products.Models.{Product}
use swedesweets_ops.Products.Units.{OrderUnit, quantity_to_units}
use swedesweets_ops.Pricing.Models.{
  CommercialPrice, business, eur, channel_eq, is_batch_specific, same_amount,
}
use swedesweets_ops.Pricing.Selectors.{product_is_active, has_amount, get_product_commercial_price}
use swedesweets_ops.Orders.Models.{Buyer}
use swedesweets_ops.Orders.Drafts.{Offer, OrderDraft, ResolvedOrderLine}
use swedesweets_ops.Database.{Db, ⊤}

pub record BusinessOfferLineInput : Type 0 where
  pub commercial_offer_id : ℕ
  pub quantity : ℤ
  pub unit : OrderUnit

pub record OrderLineInput : Type 0 where
  pub product_id : ℕ
  pub quantity : ℤ
  pub unit : OrderUnit

unfoldable pub buyer_from_customer : Customer → Buyer
buyer_from_customer c = record {
  name = c.name;
  email = c.email;
  phone_number = c.phone_number;
  country = c.country;
  city = c.city;
  address_line = c.address_line;
  postal_code = [];
}

unfoldable pub resolve_standard_business_offer : ℕ → Db → Result CommercialPrice
unfolding get_product_commercial_price
resolve_standard_business_offer product_pk db = do
  offer ← or_raise (get_product_commercial_price product_pk business db) runtime_error
  raise_if (not offer.enabled) invalid_order_operation
  ok offer

-- The offer as a resolved line refers to it.
abbrev pub offer_reference : CommercialPrice → Offer
offer_reference p = record { pk = some p.pk; product_id = p.product_id; channel = p.channel }

-- The units of a line of one product, which have to be some.
unfoldable pub line_units : ℕ → ℤ → OrderUnit → Db → Result ℕ
unfolding find quantity_to_units
line_units product_pk quantity unit db = do
  product ← or_raise (find (λ (p : Product). p.pk) product_pk db.products) invalid_order_operation
  units ← quantity_to_units product quantity unit
  raise_if (units == 0) invalid_order_operation
  ok units

-- `quantity_by_product_id[product_id] += quantity_in_units`, line by line.
unfoldable pub units_by_product : Db → List OrderLineInput → Dict ℕ → Result (Dict ℕ)
unfolding line_units add_to
units_by_product db [] d = ok d
units_by_product db (l ∷ lines) d = do
  units ← line_units l.product_id l.quantity l.unit db
  units_by_product db lines (add_to l.product_id units d)

-- `_standard_business_offers_by_product_id`: a missing offer is reported before a disabled one.
unfoldable pub standard_offers : Dict ℕ → Db → Result ⊤
unfolding any get_product_commercial_price
standard_offers d db = do
  let offer = λ (e : ℕ × ℕ). get_product_commercial_price e.0 business db
  raise_if (any (λ e. not (is_some (offer e))) d) runtime_error
  raise_if (any (λ e. elim (offer e) [ none ↦ false | some p ↦ not p.enabled ]) d)
      invalid_order_operation

unfoldable pub standard_lines : Dict ℕ → Db → Result (List ResolvedOrderLine)
unfolding get_product_commercial_price
standard_lines [] db = ok []
standard_lines ((product_pk, units) ∷ d) db = do
  offer ← or_raise (get_product_commercial_price product_pk business db) runtime_error
  rest ← standard_lines d db
  ok (
      record {
        product_id = product_pk;
        quantity_in_units = pos units;
        commercial_offer = some (offer_reference offer);
        unit_price_snapshot = none;
      }
      ∷ rest)

unfoldable pub resolve_business_order_lines :
    List OrderLineInput → Db → Result (List ResolvedOrderLine)
unfolding units_by_product standard_offers standard_lines
resolve_business_order_lines lines db = do
  d ← units_by_product db lines []
  standard_offers d db
  standard_lines d db

unfoldable pub build_business_order_draft : Customer → List OrderLineInput → Db → Result OrderDraft
unfolding resolve_business_order_lines buyer_from_customer
build_business_order_draft customer lines db = do
  resolved ← resolve_business_order_lines lines db
  raise_if (is_empty resolved) invalid_order_operation
  ok (record {
    channel = business;
    currency = eur;
    customer = some customer.pk;
    buyer = buyer_from_customer customer;
    lines = resolved;
  })

-- An offer that a business customer may select.
unfoldable pub selectable_offer : ℕ → Db → Result CommercialPrice
unfolding find channel_eq product_is_active is_batch_specific has_amount
selectable_offer offer_pk db = do
  offer ← or_raise (find (λ (p : CommercialPrice). p.pk) offer_pk db.prices) invalid_order_operation
  raise_if (not (channel_eq offer.channel business)) invalid_order_operation
  raise_if (not (product_is_active offer.product_id db && offer.enabled)) invalid_order_operation
  raise_if (is_batch_specific offer && not (has_amount offer.pk eur db)) invalid_order_operation
  ok offer

-- All selected offers are checked before any quantity is converted.
unfoldable pub check_offers : Db → List BusinessOfferLineInput → Result ⊤
unfolding selectable_offer
check_offers db [] = ok tt
check_offers db (l ∷ lines) = do
  offer ← selectable_offer l.commercial_offer_id db
  check_offers db lines

-- The units of a line, in those of its offer's product.
unfoldable pub offer_units : Db → BusinessOfferLineInput → Result ℕ
unfolding selectable_offer line_units
offer_units db l = do
  offer ← selectable_offer l.commercial_offer_id db
  line_units offer.product_id l.quantity l.unit db

-- `quantity_by_offer_id[offer.pk] += quantity_in_units`, line by line.
unfoldable pub units_by_offer : Db → List BusinessOfferLineInput → Dict ℕ → Result (Dict ℕ)
unfolding offer_units add_to
units_by_offer db [] d = ok d
units_by_offer db (l ∷ lines) d = do
  units ← offer_units db l
  units_by_offer db lines (add_to l.commercial_offer_id units d)

unfoldable pub offer_line : Db → CommercialPrice → ℕ → ResolvedOrderLine
unfolding first_where same_amount
offer_line db offer units = record {
  product_id = offer.product_id;
  quantity_in_units = pos units;
  commercial_offer = some (offer_reference offer);
  unit_price_snapshot = elim (first_where (same_amount offer.pk eur) db.amounts) [
    | none ↦ none
    | some a ↦ some a.price
  ];
}

unfoldable pub offer_lines : Dict ℕ → Db → Result (List ResolvedOrderLine)
unfolding selectable_offer offer_line
offer_lines [] db = ok []
offer_lines ((offer_pk, units) ∷ d) db = do
  offer ← selectable_offer offer_pk db
  rest ← offer_lines d db
  ok (offer_line db offer units ∷ rest)

unfoldable pub resolve_business_offer_lines :
    List BusinessOfferLineInput → Db → Result (List ResolvedOrderLine)
unfolding check_offers units_by_offer offer_lines
resolve_business_offer_lines lines db = do
  check_offers db lines
  d ← units_by_offer db lines []
  offer_lines d db
