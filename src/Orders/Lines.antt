-- ===== src/Orders/Lines.antt =====
-- The line helpers of orders/services.py: the offer check, the rows that are created, and the
-- cascade of a deleted line.
use swedesweets_ops.Prelude.{
  ℕ, ◌+◌, Bool, false, not, none, some, List, [], ◌∷◌, ◌++◌, map, ◌==◌, filter, contains, length,
  Result, ok, ◌>>=◌, ◌>>◌, raise_if, or_raise, integrity_error, invalid_order_operation, pos_part,
  is_nonpositive, ℤ,
}
use swedesweets_ops.Pricing.Models.{channel_eq}
use swedesweets_ops.Orders.Models.{Order, OrderLine, stock_unit}
use swedesweets_ops.Orders.Drafts.{ResolvedOrderLine}
use swedesweets_ops.Database.{Db, ⊤}

-- `_require_positive_quantity`
unfoldable pub require_positive_quantity : ℤ → Result ⊤
require_positive_quantity q = raise_if (is_nonpositive q) invalid_order_operation

-- `_validate_commercial_offer`: the key of the line's offer.
unfoldable pub validate_commercial_offer : Order → ResolvedOrderLine → Result ℕ
unfolding channel_eq
validate_commercial_offer order line = do
  offer ← or_raise line.commercial_offer invalid_order_operation
  offer_pk ← or_raise offer.pk invalid_order_operation
  raise_if (not (offer.product_id == line.product_id)) invalid_order_operation
  raise_if (not (channel_eq offer.channel order.channel)) invalid_order_operation
  ok offer_pk

-- The check constraints of the order line table.
unfoldable pub check_line_constraints : ResolvedOrderLine → Result ⊤
check_line_constraints line = do
  raise_if (is_nonpositive line.quantity_in_units) integrity_error
  raise_if (elim line.unit_price_snapshot [ none ↦ false | some price ↦ price == 0 ])
      integrity_error

unfoldable pub order_line_row : Order → ResolvedOrderLine → ℕ → ℕ → OrderLine
order_line_row order line offer_pk pk = record {
  pk = pk;
  order_id = order.pk;
  product_id = line.product_id;
  quantity = pos_part line.quantity_in_units;
  unit = stock_unit;
  quantity_in_units = pos_part line.quantity_in_units;
  unit_price_snapshot = line.unit_price_snapshot;
  commercial_offer_id = offer_pk;
}

-- The offers of all lines are checked before any row is made.
unfoldable pub validate_offers : Order → List ResolvedOrderLine → Result (List ℕ)
unfolding validate_commercial_offer
validate_offers order [] = ok []
validate_offers order (line ∷ lines) = do
  offer_pk ← validate_commercial_offer order line
  rest ← validate_offers order lines
  ok (offer_pk ∷ rest)

-- `bulk_create`: rows with keys from the sequence, or the first constraint that is broken.
unfoldable pub order_line_rows :
    Order → List ResolvedOrderLine → List ℕ → ℕ → Result (List OrderLine)
unfolding check_line_constraints order_line_row
order_line_rows order [] offer_pks pk = ok []
order_line_rows order (line ∷ lines) [] pk = ok []
order_line_rows order (line ∷ lines) (offer_pk ∷ offer_pks) pk = do
  check_line_constraints line
  rest ← order_line_rows order lines offer_pks (pk + 1)
  ok (order_line_row order line offer_pk pk ∷ rest)

-- The rows of `_create_order_lines`.
unfoldable pub new_order_lines : Order → List ResolvedOrderLine → Db → Result (List OrderLine)
unfolding validate_offers order_line_rows
new_order_lines order lines db = do
  offer_pks ← validate_offers order lines
  order_line_rows order lines offer_pks db.next_pk

unfoldable pub add_order_lines : List OrderLine → Db → Db
add_order_lines rows db = record db { lines = db.lines ++ rows; next_pk = db.next_pk + length rows }

-- Deleting lines deletes the allocations and the offer selections that belong to them.
unfoldable pub delete_lines : (OrderLine → Bool) → Db → Db
unfolding filter contains
delete_lines selected db =
    let dead = map (λ l. l.pk) (filter selected db.lines) in
    record db {
      lines = filter (λ l. not (selected l)) db.lines;
      allocations = filter (λ a. not (contains a.order_line_id dead)) db.allocations;
      selections = filter (λ s. not (contains s.order_line_id dead)) db.selections;
    }

-- Deleting an order deletes its lines and all that refers to it.
unfoldable pub delete_order : ℕ → Db → Db
unfolding delete_lines filter
delete_order order_pk db =
    let db' = delete_lines (λ l. l.order_id == order_pk) db in
    record db' {
      orders = filter (λ o. not (o.pk == order_pk)) db.orders;
      allocations = filter (λ a. not (a.order_id == order_pk)) db'.allocations;
      attempts = filter (λ p. not (p.order_id == order_pk)) db.attempts;
      checkouts = filter (λ c. not (c.order_id == order_pk)) db.checkouts;
    }
