-- ===== src/Fulfillment/Services.antt =====
-- fulfillment/services.py: the order services with the reservation policies.
use swedesweets_ops.Prelude.{ℕ, Option}
use swedesweets_ops.Prelude.Texts.{Text}
use swedesweets_ops.Orders.Models.{Order, CancelReason}
use swedesweets_ops.Orders.Services
use swedesweets_ops.Reservations.Policies.{
  consume_order_reservations_before_packing, release_order_reservations_before_cancellation,
}
use swedesweets_ops.Database.{Action}

unfoldable pub pack_order : Option ℕ → ℕ → ℕ → Action Order
unfolding Services.pack_order consume_order_reservations_before_packing
pack_order = Services.pack_order consume_order_reservations_before_packing

unfoldable pub cancel_order : Option ℕ → CancelReason → Text → ℕ → ℕ → Action Order
unfolding Services.cancel_order release_order_reservations_before_cancellation
cancel_order = Services.cancel_order release_order_reservations_before_cancellation
