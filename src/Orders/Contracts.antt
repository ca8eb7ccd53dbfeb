-- ===== src/Orders/Contracts.antt =====
-- orders/contracts.py and orders/decorators.py: the hooks around a mutation of an order, and the
-- decorator that reads the order under a lock, guards the mutation and runs it.
use swedesweets_ops.Prelude.{ℕ, Result}
use swedesweets_ops.Orders.Models.{Order}
use swedesweets_ops.Database.{Action, ⊤, gets, lift, get_row, ◌>>=◌, ◌>>◌}

abbrev pub OrderMutationGuard : Type 0
OrderMutationGuard = Order → Result ⊤

abbrev pub OrderMutationPreparation : Type 0
OrderMutationPreparation = Order → Action ⊤

-- `Order.objects.select_for_update().get(pk=order.pk)`
unfoldable pub lock_order : ℕ → Action Order
unfolding get_row
lock_order order_pk = do
  row ← gets (λ db. get_row (λ (o : Order). o.pk) order_pk db.orders)
  lift row

-- `@locked_order(guard=guard)`
unfoldable pub locked_order : {A : Type 0} → OrderMutationGuard → (Order → Action A) → ℕ → Action A
unfolding lock_order
locked_order guard function order_pk = do
  order ← lock_order order_pk
  lift (guard order)
  function order
