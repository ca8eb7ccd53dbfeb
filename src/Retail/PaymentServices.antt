-- ===== src/Retail/PaymentServices.antt =====
-- retail/services.py: starting, completing and failing the payment of a retail order. The order is
-- locked before the attempt. One instant stands for the calls of the clock in a transaction.
use swedesweets_ops.Prelude.{
  if◌then◌else◌, ℕ, ◌+◌, not, ◌==◌, leb, Option, none, some, List, [], ◌∷◌, filter, any, is_empty,
  Error, Result, ok, err, raise_if, map_error, invalid_retail_order, invalid_payment_attempt,
  insufficient_reservation_capacity, insufficient_stock, does_not_exist, pos,
}
use swedesweets_ops.Prelude.Rows.{find}
use swedesweets_ops.Prelude.Texts.{Text}
use swedesweets_ops.Pricing.Models.{CommercialPrice, Currency, retail, channel_eq}
use swedesweets_ops.Orders.Models.{Order, OrderLine, draft, order_status_eq}
use swedesweets_ops.Orders.Contracts.{lock_order}
use swedesweets_ops.Orders.Services.{place_order}
use swedesweets_ops.Reservations.Services.{
  reserve_order_line_from_pool, cancel_temporary_reservations_for_order,
}
use swedesweets_ops.Reservations.Policies.{make_order_reservations_permanent_before_placement}
use swedesweets_ops.Payments.Models.{PaymentAttempt}
use swedesweets_ops.Payments.Services.{
  is_pending, is_pending_for, get_attempt, create_payment_attempt, mark_payment_attempt_succeeded,
  mark_payment_attempt_failed,
}
use swedesweets_ops.Retail.Models.{RetailCheckoutSession, OfferSelection}
use swedesweets_ops.Retail.Rules.{retail_payment_reservation_window}
use swedesweets_ops.Retail.Selectors.{list_batches_for_retail_price}
use swedesweets_ops.Database.{Db, Action, ⊤, pure, gets, lift, get_row, ◌>>=◌, ◌>>◌}

-- `except InsufficientReservationCapacity: raise InsufficientStockError`
unfoldable pub capacity_as_stock : Error → Error
capacity_as_stock (insufficient_reservation_capacity requested available missing) =
    insufficient_stock requested available missing
capacity_as_stock e = e

-- `_get_offer_selection`, and the offer that it selects
unfoldable pub selected_offer : OrderLine → Db → Result CommercialPrice
unfolding find
selected_offer l db = elim (find (λ (s : OfferSelection). s.order_line_id) l.pk db.selections) [
  | none ↦ err invalid_retail_order
  | some s ↦ elim (find (λ (p : CommercialPrice). p.pk) s.commercial_price_id db.prices) [
    | none ↦ err does_not_exist
    | some p ↦ ok p
  ]
]

-- The body of the loop over the lines, with the batches of `_eligible_batches_for_selection`.
unfoldable pub reserve_retail_line : ℕ → ℕ → Currency → ℕ → OrderLine → Action ⊤
unfolding selected_offer list_batches_for_retail_price reserve_order_line_from_pool
    capacity_as_stock
reserve_retail_line now today currency reserved_until l = do
  selecting ← gets (selected_offer l)
  offer ← lift selecting
  pool ← gets (list_batches_for_retail_price today offer currency)
  λ db.
      map_error capacity_as_stock
        (reserve_order_line_from_pool now l pool (pos l.quantity_in_units) (some reserved_until) db)

unfoldable pub reserve_retail_lines : ℕ → ℕ → Currency → ℕ → List OrderLine → Action ⊤
unfolding reserve_retail_line
reserve_retail_lines now today currency reserved_until [] = pure tt
reserve_retail_lines now today currency reserved_until (l ∷ lines) =
    reserve_retail_line now today currency reserved_until l >>= λ _.
    reserve_retail_lines now today currency reserved_until lines

-- `RetailCheckoutSession.objects.select_for_update().get(pk=checkout.pk)`
unfoldable pub lock_checkout : ℕ → Action RetailCheckoutSession
unfolding get_row
lock_checkout checkout_pk = do
  row ← gets (λ db. get_row (λ (s : RetailCheckoutSession). s.pk) checkout_pk db.checkouts)
  lift row

-- The conditions on the checkout and its order.
unfoldable pub require_payable : ℕ → RetailCheckoutSession → Order → Result ⊤
unfolding channel_eq order_status_eq
require_payable now s order =
    if leb s.expires_at now
    then err invalid_retail_order
    else if not (channel_eq order.channel retail)
    then err invalid_retail_order
    else raise_if (not (order_status_eq order.status draft)) invalid_retail_order

-- `order.lines.order_by("id")`
unfoldable pub lines_of_order : ℕ → Db → List OrderLine
unfolding filter
lines_of_order order_pk db = filter (λ (l : OrderLine). order_pk == l.order_id) db.lines

-- The reservations of an order are made anew, and an attempt to pay it is created.
unfoldable pub reserve_and_attempt : ℕ → ℕ → Order → List OrderLine → Action PaymentAttempt
unfolding cancel_temporary_reservations_for_order reserve_retail_lines create_payment_attempt
reserve_and_attempt now today order lines = do
  cancel_temporary_reservations_for_order order.pk
  reserve_retail_lines now today order.currency (now + retail_payment_reservation_window) lines
  create_payment_attempt order.pk

unfoldable pub start_retail_payment : ℕ → ℕ → ℕ → Action PaymentAttempt
unfolding lock_checkout lock_order require_payable is_pending_for any lines_of_order
    reserve_and_attempt
start_retail_payment now today checkout_pk = do
  s ← lock_checkout checkout_pk
  order ← lock_order s.order_id
  lift (require_payable now s order)
  busy ← gets (λ db. any (is_pending_for order.pk) db.attempts)
  lift (raise_if busy invalid_retail_order)
  lines ← gets (lines_of_order order.pk)
  lift (raise_if (is_empty lines) invalid_retail_order)
  reserve_and_attempt now today order lines

-- The conditions on a pending attempt and its order.
unfoldable pub require_pending_retail : PaymentAttempt → Order → Result ⊤
unfolding is_pending channel_eq
require_pending_retail attempt order =
    if not (attempt.order_id == order.pk)
    then err invalid_payment_attempt
    else if not (is_pending attempt)
    then err invalid_payment_attempt
    else raise_if (not (channel_eq order.channel retail)) invalid_retail_order

unfoldable pub complete_retail_payment : ℕ → ℕ → Option Text → Action Order
unfolding get_attempt lock_order require_pending_retail place_order
    make_order_reservations_permanent_before_placement mark_payment_attempt_succeeded
complete_retail_payment now attempt_pk transaction = do
  first ← get_attempt attempt_pk
  order ← lock_order first.order_id
  attempt ← get_attempt attempt_pk
  lift (require_pending_retail attempt order)
  order' ← place_order (make_order_reservations_permanent_before_placement now) none now order.pk
  mark_payment_attempt_succeeded transaction attempt.pk
  pure order'

unfoldable pub fail_retail_payment : ℕ → Action PaymentAttempt
unfolding get_attempt lock_order require_pending_retail order_status_eq
    cancel_temporary_reservations_for_order mark_payment_attempt_failed
fail_retail_payment attempt_pk = do
  first ← get_attempt attempt_pk
  order ← lock_order first.order_id
  attempt ← get_attempt attempt_pk
  lift (require_pending_retail attempt order)
  lift (raise_if (not (order_status_eq order.status draft)) invalid_retail_order)
  cancel_temporary_reservations_for_order order.pk
  mark_payment_attempt_failed attempt.pk
