-- ===== src/Business/Services.antt =====
-- business/services.py: the business orders as a whole. The services on single draft lines, which
-- read the catalogue of a portal, are left out.
use swedesweets_ops.Prelude.{
  ℕ, Bool, not, ◌&&◌, Option, none, some, List, [], raise_if, invalid_order_operation,
  does_not_exist,
}
use swedesweets_ops.Prelude.Rows.{first_where}
use swedesweets_ops.Customers.Models.{Customer}
use swedesweets_ops.Pricing.Models.{business, eur, channel_eq}
use swedesweets_ops.Pricing.Services.{on_integrity_error}
use swedesweets_ops.Orders.Models.{Order, draft, order_status_eq, snapshot_buyer}
use swedesweets_ops.Orders.Services
use swedesweets_ops.Orders.Services.{draft_row, insert_order, same_customer}
use swedesweets_ops.Orders.Updates
use swedesweets_ops.Reservations.Policies.{
  clear_order_reservations_before_line_replacement,
  require_order_without_reservations_before_discard,
}
use swedesweets_ops.Business.Drafts.{
  OrderLineInput, buyer_from_customer, build_business_order_draft, resolve_business_order_lines,
}
use swedesweets_ops.Business.Policies.{prepare_business_order_for_placement}
use swedesweets_ops.Database.{Action, ⊤, pure, raise, gets, lift, ◌>>=◌, ◌>>◌}

unfoldable pub create_draft_order : ℕ → Customer → List OrderLineInput → Action Order
unfolding build_business_order_draft Services.create_draft_order
create_draft_order now customer lines = do
  building ← gets (build_business_order_draft customer lines)
  d ← lift building
  Services.create_draft_order now d

-- Draft lines are removed from business orders only.
unfoldable pub remove_draft_line : ℕ → Order → ℕ → Action Order
unfolding channel_eq Services.remove_draft_order_line
remove_draft_line now order line_pk = do
  lift (raise_if (not (channel_eq order.channel business)) invalid_order_operation)
  Services.remove_draft_order_line now line_pk order.pk

unfoldable pub replace_draft_order_lines : ℕ → List OrderLineInput → ℕ → Action Order
unfolding resolve_business_order_lines Services.replace_draft_order_lines
replace_draft_order_lines now lines order_pk = do
  resolving ← gets (resolve_business_order_lines lines)
  resolved ← lift resolving
  Services.replace_draft_order_lines now resolved order_pk

unfoldable pub discard_draft_order : ℕ → Action ⊤
unfolding Services.discard_draft_order require_order_without_reservations_before_discard
discard_draft_order = Services.discard_draft_order require_order_without_reservations_before_discard

unfoldable pub place_order : ℕ → ℕ → Option ℕ → ℕ → Action Order
unfolding Services.place_order prepare_business_order_for_placement
place_order now today user =
    Services.place_order (prepare_business_order_for_placement now today) user now

unfoldable pub create_order : ℕ → ℕ → Customer → List OrderLineInput → Option ℕ → Action Order
unfolding create_draft_order place_order
create_order now today customer lines user = do
  order ← create_draft_order now customer lines
  place_order now today user order.pk

unfoldable pub update_placed_order : ℕ → ℕ → List OrderLineInput → Option ℕ → ℕ → Action Order
unfolding resolve_business_order_lines Updates.update_placed_order
    clear_order_reservations_before_line_replacement prepare_business_order_for_placement
update_placed_order now today lines user order_pk = do
  resolving ← gets (resolve_business_order_lines lines)
  resolved ← lift resolving
  Updates.update_placed_order clear_order_reservations_before_line_replacement
      (prepare_business_order_for_placement now today) resolved user now order_pk

-- The customer's business draft, the oldest first.
unfoldable pub is_draft_of : ℕ → Order → Bool
unfolding channel_eq order_status_eq same_customer
is_draft_of customer_pk o =
    channel_eq o.channel business
    && (same_customer o.customer (some customer_pk) && order_status_eq o.status draft)

unfoldable pub new_business_draft : ℕ → Customer → ℕ → Order
unfolding draft_row snapshot_buyer buyer_from_customer
new_business_draft now customer pk = snapshot_buyer (buyer_from_customer customer) (
    draft_row now pk (record {
      channel = business;
      currency = eur;
      customer = some customer.pk;
      buyer = buyer_from_customer customer;
      lines = [];
    }))

unfoldable pub save_new_draft : ℕ → Customer → Action Order
unfolding new_business_draft insert_order
save_new_draft now customer = do
  pk ← gets (λ db. db.next_pk)
  let order = new_business_draft now customer pk
  insert_order order
  pure order

unfoldable pub get_draft_of : Customer → Action Order
unfolding first_where is_draft_of
get_draft_of customer = do
  found ← gets (λ db. first_where (is_draft_of customer.pk) db.orders)
  elim found [ none ↦ raise does_not_exist | some o ↦ pure o ]

unfoldable pub get_or_create_customer_draft_order : ℕ → Customer → Action Order
unfolding first_where is_draft_of on_integrity_error save_new_draft get_draft_of
get_or_create_customer_draft_order now customer = do
  found ← gets (λ db. first_where (is_draft_of customer.pk) db.orders)
  elim found [
    | some o ↦ pure o
    | none ↦ on_integrity_error (save_new_draft now customer) (get_draft_of customer)
  ]
