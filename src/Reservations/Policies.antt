-- ===== src/Reservations/Policies.antt =====
-- reservations/policies.py: the reservation work around a mutation of an order.
use swedesweets_ops.Prelude.{
  ℕ, Error, map_error, missing_reservations, invalid_order_operation, raise_if,
}
use swedesweets_ops.Reservations.Selectors.{has_reservations_for_order}
use swedesweets_ops.Reservations.Services.{
  cancel_reservations_for_order, consume_reservations_for_order, delete_reservations_for_order,
  make_reservations_permanent_for_order,
}
use swedesweets_ops.Orders.Contracts.{OrderMutationPreparation}
use swedesweets_ops.Database.{gets, lift, ◌>>=◌}

-- `except MissingReservations: raise InvalidOrderOperation`
unfoldable pub missing_as_invalid : Error → Error
missing_as_invalid missing_reservations = invalid_order_operation
missing_as_invalid e = e

unfoldable pub consume_order_reservations_before_packing : OrderMutationPreparation
unfolding missing_as_invalid consume_reservations_for_order
consume_order_reservations_before_packing order db =
    map_error missing_as_invalid (consume_reservations_for_order order.pk db)

unfoldable pub release_order_reservations_before_cancellation : OrderMutationPreparation
unfolding cancel_reservations_for_order
release_order_reservations_before_cancellation order = cancel_reservations_for_order order.pk

unfoldable pub clear_order_reservations_before_line_replacement : OrderMutationPreparation
unfolding delete_reservations_for_order
clear_order_reservations_before_line_replacement order = delete_reservations_for_order order.pk

unfoldable pub require_order_without_reservations_before_discard : OrderMutationPreparation
unfolding has_reservations_for_order
require_order_without_reservations_before_discard order = do
  present ← gets (λ db. has_reservations_for_order order.pk db.allocations)
  lift (raise_if present invalid_order_operation)

unfoldable pub make_order_reservations_permanent_before_placement : ℕ → OrderMutationPreparation
unfolding missing_as_invalid make_reservations_permanent_for_order
make_order_reservations_permanent_before_placement now order db =
    map_error missing_as_invalid (make_reservations_permanent_for_order now order.pk db)
