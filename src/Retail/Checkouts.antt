-- ===== src/Retail/Checkouts.antt =====
-- retail/services.py: the order and the checkout that are made of a cart.
use swedesweets_ops.Prelude.{
  ℕ, ◌+◌, ◌*◌, Bool, not, ◌&&◌, ◌||◌, none, some, List, [], ◌∷◌, ◌++◌, map, ◌==◌, ltb, filter, any,
  contains, sum_by, length, is_empty, Result, ok, err, raise_if, if◌then◌else◌, integrity_error,
  invalid_retail_cart, invalid_retail_order, ℤ, pos, pos_part,
}
use swedesweets_ops.Prelude.Texts.{Text, strip, upper, squeeze, join_words}
use swedesweets_ops.Pricing.Models.{CommercialPrice, Currency, eur, retail, is_batch_specific}
use swedesweets_ops.Orders.Models.{Order, OrderLine, Buyer, stock_unit, snapshot_buyer}
use swedesweets_ops.Orders.Drafts.{OrderDraft}
use swedesweets_ops.Orders.Services.{draft_row, insert_order}
use swedesweets_ops.Retail.Models.{RetailCartLine, RetailCheckoutSession}
use swedesweets_ops.Retail.Rules.{
  is_valid_retail_line_quantity, is_supported_retail_destination, max_retail_order_lines,
  max_retail_order_total, retail_checkout_window,
}
use swedesweets_ops.Retail.Selectors.{list_batches_for_retail_price}
use swedesweets_ops.Retail.Carts.{get_retail_price_and_amount, lock_retail_cart, delete_cart}
use swedesweets_ops.Database.{Db, Action, ⊤, pure, gets, lift, modify, ◌>>=◌, ◌>>◌}

pub record AnonymousBuyerInput : Type 0 where
  pub first_name : Text
  pub last_name : Text
  pub email : Text
  pub phone_number : Text
  pub country : Text
  pub postal_code : Text
  pub city : Text
  pub address_line : Text

pub record RetailOrderLineInput : Type 0 where
  pub commercial_price_id : ℕ
  pub quantity : ℤ

pub record ResolvedRetailOrderLine : Type 0 where
  pub product_id : ℕ
  pub quantity : ℕ
  pub unit_price : ℕ
  pub commercial_price : CommercialPrice

-- ResolvedRetailOrderLine.line_total
unfoldable pub retail_line_total : ResolvedRetailOrderLine → ℕ
retail_line_total r = r.unit_price * r.quantity

unfoldable pub buyer_from_anonymous_retail_input : AnonymousBuyerInput → Buyer
unfolding squeeze strip upper join_words filter
buyer_from_anonymous_retail_input b = record {
  name =
      join_words
        (filter (λ part. not (is_empty part)) (squeeze b.first_name ∷ squeeze b.last_name ∷ []));
  email = strip b.email;
  phone_number = strip b.phone_number;
  country = upper (strip b.country);
  city = squeeze b.city;
  address_line = squeeze b.address_line;
  postal_code = strip b.postal_code;
}

-- `_validate_buyer_destination`
unfoldable pub validate_buyer_destination :
    (Text → Text → Bool) → AnonymousBuyerInput → Db → Result ⊤
unfolding is_supported_retail_destination
validate_buyer_destination iexact b db =
    raise_if (not (is_supported_retail_destination iexact b.country b.postal_code b.city db))
      invalid_retail_order

-- `_validate_lines`
unfoldable pub validate_lines : List RetailOrderLineInput → Result ⊤
unfolding any is_valid_retail_line_quantity
validate_lines lines =
    raise_if
      (is_empty lines
        || (ltb max_retail_order_lines (length lines)
            || any (λ l. not (is_valid_retail_line_quantity l.quantity)) lines))
      invalid_retail_order

-- `_resolve_retail_line`
unfoldable pub resolve_retail_line :
    ℕ → Currency → Db → RetailOrderLineInput → Result ResolvedRetailOrderLine
unfolding get_retail_price_and_amount is_batch_specific any list_batches_for_retail_price
resolve_retail_line today currency db l =
    elim (get_retail_price_and_amount l.commercial_price_id currency db) [
      | err e ↦ err e
      | ok priced ↦
          if is_batch_specific priced.0
            && not (any (list_batches_for_retail_price today priced.0 currency db) db.batches)
          then err invalid_retail_order
          else ok (record {
            product_id = priced.0.product_id;
            quantity = pos_part l.quantity;
            unit_price = priced.1.price;
            commercial_price = priced.0;
          })
    ]

-- `_resolve_retail_lines`
unfoldable pub resolve_retail_lines :
    ℕ → Currency → Db → List RetailOrderLineInput → Result (List ResolvedRetailOrderLine)
unfolding resolve_retail_line
resolve_retail_lines today currency db [] = ok []
resolve_retail_lines today currency db (l ∷ lines) =
    elim (resolve_retail_line today currency db l) [
      | err e ↦ err e
      | ok r ↦ elim (resolve_retail_lines today currency db lines) [
        | err e ↦ err e
        | ok rest ↦ ok (r ∷ rest)
      ]
    ]

-- The loop of `_validate_unique_commercial_prices`, with the keys that were seen.
unfoldable pub validate_unique_commercial_prices : List ℕ → List ResolvedRetailOrderLine → Result ⊤
unfolding contains
validate_unique_commercial_prices price_ids [] = ok tt
validate_unique_commercial_prices price_ids (r ∷ lines) =
    let rest = validate_unique_commercial_prices (r.commercial_price.pk ∷ price_ids) lines in
    if contains r.commercial_price.pk price_ids then err invalid_retail_order else rest

-- `_calculate_order_total`
unfoldable pub calculate_order_total : List ResolvedRetailOrderLine → ℕ
unfolding sum_by retail_line_total
calculate_order_total = sum_by retail_line_total

unfoldable pub retail_order_line : ℕ → ResolvedRetailOrderLine → ℕ → OrderLine
retail_order_line order_pk r pk = record {
  pk = pk;
  order_id = order_pk;
  product_id = r.product_id;
  quantity = r.quantity;
  unit = stock_unit;
  quantity_in_units = r.quantity;
  unit_price_snapshot = some r.unit_price;
  commercial_offer_id = r.commercial_price.pk;
}

abbrev pub insert_retail_line : OrderLine → Db → Db
insert_retail_line l db = record db {
  lines = db.lines ++ l ∷ [];
  selections =
      db.selections
      ++ record { order_line_id = l.pk; commercial_price_id = l.commercial_offer_id } ∷ [];
  next_pk = db.next_pk + 1;
}

-- The body of the loop over the resolved lines, under the check constraints of the order line.
unfoldable pub create_retail_line : ℕ → ResolvedRetailOrderLine → Action ⊤
unfolding retail_order_line
create_retail_line order_pk r = do
  lift (raise_if (r.quantity == 0 || r.unit_price == 0) integrity_error)
  pk ← gets (λ db. db.next_pk)
  modify (insert_retail_line (retail_order_line order_pk r pk))

unfoldable pub create_retail_lines : ℕ → List ResolvedRetailOrderLine → Action ⊤
unfolding create_retail_line
create_retail_lines order_pk [] = pure tt
create_retail_lines order_pk (r ∷ lines) =
    create_retail_line order_pk r >>= λ _. create_retail_lines order_pk lines

abbrev pub insert_checkout : RetailCheckoutSession → Db → Db
insert_checkout s db = record db { checkouts = db.checkouts ++ s ∷ []; next_pk = db.next_pk + 1 }

abbrev pub retail_draft : AnonymousBuyerInput → OrderDraft
retail_draft buyer = record {
  channel = retail;
  currency = eur;
  customer = none;
  buyer = buyer_from_anonymous_retail_input buyer;
  lines = [];
}

-- The order before it is stored.
unfoldable pub retail_order : ℕ → ℕ → AnonymousBuyerInput → Order
unfolding draft_row snapshot_buyer buyer_from_anonymous_retail_input
retail_order now pk buyer =
    snapshot_buyer (buyer_from_anonymous_retail_input buyer) (draft_row now pk (retail_draft buyer))

abbrev pub new_checkout : ℕ → ℕ → ℕ → RetailCheckoutSession
new_checkout now order_pk pk = record {
  pk = pk;
  order_id = order_pk;
  expires_at = now + retail_checkout_window;
}

-- `RetailCheckoutSession.objects.create(…)`
unfoldable pub create_checkout : ℕ → ℕ → Action RetailCheckoutSession
create_checkout now order_pk = do
  pk ← gets (λ db. db.next_pk)
  modify (insert_checkout (new_checkout now order_pk pk))
  pure (new_checkout now order_pk pk)

-- The order, its lines and its checkout, for lines that have passed all checks.
unfoldable pub store_retail_order :
    ℕ → AnonymousBuyerInput → List ResolvedRetailOrderLine → Action RetailCheckoutSession
unfolding retail_order insert_order create_retail_lines create_checkout
store_retail_order now buyer lines = do
  order_pk ← gets (λ db. db.next_pk)
  insert_order (retail_order now order_pk buyer)
  create_retail_lines order_pk lines
  create_checkout now order_pk

-- `today` is the local day of the instant `now`.
unfoldable pub create_pending_retail_order :
    (Text → Text → Bool)
    → ℕ
    → ℕ
    → AnonymousBuyerInput
    → List RetailOrderLineInput
    → Action RetailCheckoutSession
unfolding validate_buyer_destination validate_lines resolve_retail_lines
    validate_unique_commercial_prices calculate_order_total store_retail_order
create_pending_retail_order iexact today now buyer lines = do
  reachable ← gets (validate_buyer_destination iexact buyer)
  lift reachable
  lift (validate_lines lines)
  resolving ← gets (λ db. resolve_retail_lines today eur db lines)
  resolved ← lift resolving
  lift (validate_unique_commercial_prices [] resolved)
  lift (raise_if (ltb max_retail_order_total (calculate_order_total resolved)) invalid_retail_order)
  store_retail_order now buyer resolved

abbrev pub line_input : RetailCartLine → RetailOrderLineInput
line_input l = record { commercial_price_id = l.commercial_price_id; quantity = pos l.quantity }

unfoldable pub lines_of_cart : ℕ → Db → List RetailCartLine
unfolding filter
lines_of_cart cart_pk db = filter (λ l. l.cart_id == cart_pk) db.cart_lines

unfoldable pub create_retail_checkout_from_cart :
    (Text → Text → Bool) → ℕ → ℕ → ℕ → AnonymousBuyerInput → Action RetailCheckoutSession
unfolding lock_retail_cart lines_of_cart create_pending_retail_order delete_cart
create_retail_checkout_from_cart iexact today now cart_pk buyer = do
  cart ← lock_retail_cart cart_pk
  lines ← gets (lines_of_cart cart.pk)
  lift (raise_if (is_empty lines) invalid_retail_cart)
  checkout ← create_pending_retail_order iexact today now buyer (map line_input lines)
  modify (delete_cart cart.pk)
  pure checkout
