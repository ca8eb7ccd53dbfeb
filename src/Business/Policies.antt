-- ===== src/Business/Policies.antt =====
-- business/policies.py: the stock that is reserved when a business order is placed.
use swedesweets_ops.Prelude.{
  ℕ, not, ◌&&◌, ◌||◌, none, some, List, [], ◌∷◌, ◌==◌, is_empty, Result, ok, err, raise_if,
  map_error, invalid_order_operation, does_not_exist, pos,
}
use swedesweets_ops.Prelude.Rows.{find}
use swedesweets_ops.Pricing.Models.{CommercialPrice, business, eur, channel_eq, is_batch_specific}
use swedesweets_ops.Pricing.Selectors.{
  product_is_active, has_amount, list_orderable_batches_for_offer,
}
use swedesweets_ops.Orders.Models.{OrderLine}
use swedesweets_ops.Orders.Contracts.{OrderMutationPreparation}
use swedesweets_ops.Reservations.Services.{reserve_order_line_from_pool}
use swedesweets_ops.Retail.PaymentServices.{capacity_as_stock, lines_of_order}
use swedesweets_ops.Database.{Db, Action, ⊤, pure, gets, lift, ◌>>=◌, ◌>>◌}

-- `line.commercial_offer`; a foreign key refers to a stored row.
unfoldable pub offer_of : OrderLine → Db → Result CommercialPrice
unfolding find
offer_of l db = elim (find (λ (p : CommercialPrice). p.pk) l.commercial_offer_id db.prices) [
  | none ↦ err does_not_exist
  | some p ↦ ok p
]

-- `_validate_business_offer`
unfoldable pub validate_business_offer : OrderLine → CommercialPrice → Db → Result ⊤
unfolding channel_eq product_is_active is_batch_specific has_amount
validate_business_offer l offer db =
    raise_if
      (not (offer.product_id == l.product_id)
        || (not (channel_eq offer.channel business)
            || (not (product_is_active l.product_id db)
                || (not offer.enabled
                    || (is_batch_specific offer && not (has_amount offer.pk eur db))))))
      invalid_order_operation

-- The body of the loop over the lines.
unfoldable pub reserve_business_line : ℕ → ℕ → OrderLine → Action ⊤
unfolding offer_of validate_business_offer list_orderable_batches_for_offer
    reserve_order_line_from_pool capacity_as_stock
reserve_business_line now today l = do
  found ← gets (offer_of l)
  offer ← lift found
  valid ← gets (validate_business_offer l offer)
  lift valid
  pool ← gets (list_orderable_batches_for_offer today offer eur)
  λ db.
      map_error capacity_as_stock
        (reserve_order_line_from_pool now l pool (pos l.quantity_in_units) none db)

unfoldable pub reserve_business_lines : ℕ → ℕ → List OrderLine → Action ⊤
unfolding reserve_business_line
reserve_business_lines now today [] = pure tt
reserve_business_lines now today (l ∷ lines) =
    reserve_business_line now today l >>= λ _. reserve_business_lines now today lines

unfoldable pub prepare_business_order_for_placement : ℕ → ℕ → OrderMutationPreparation
unfolding channel_eq lines_of_order reserve_business_lines
prepare_business_order_for_placement now today order = do
  lift (raise_if (not (channel_eq order.channel business)) invalid_order_operation)
  lines ← gets (lines_of_order order.pk)
  lift (raise_if (is_empty lines) invalid_order_operation)
  reserve_business_lines now today lines
