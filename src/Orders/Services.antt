-- ===== src/Orders/Services.antt =====
-- orders/services.py: the lifecycle of an order and the mutations of its lines, short of the
-- update of a placed order. The instant `now` is the one at which the order is saved.
use swedesweets_ops.Prelude.{
  ℕ, ◌+◌, Bool, false, not, ◌&&◌, Option, none, some, List, [], ◌∷◌, ◌++◌, ◌==◌, if◌then◌else◌,
  filter, any, is_empty, Result, ok, err, raise_if, or_raise, integrity_error,
  invalid_order_operation, pos_part, ℤ, is_some,
}
use swedesweets_ops.Prelude.Rows.{find, save}
use swedesweets_ops.Prelude.Texts.{Text}
use swedesweets_ops.Pricing.Models.{business, channel_eq}
use swedesweets_ops.Orders.Models.{
  Order, OrderLine, draft, placed, CancelReason, no_reason, no_buyer, stock_unit, order_status_eq,
  can_be_cancelled, snapshot_buyer, mark_as_placed, mark_as_packed, mark_as_delivered, cancel,
}
use swedesweets_ops.Orders.Drafts.{OrderDraft, ResolvedOrderLine}
use swedesweets_ops.Orders.Contracts.{OrderMutationGuard, OrderMutationPreparation, locked_order}
use swedesweets_ops.Orders.Lines.{
  validate_commercial_offer, check_line_constraints, order_line_row, require_positive_quantity,
  new_order_lines, add_order_lines, delete_lines, delete_order,
}
use swedesweets_ops.Database.{Db, Action, ⊤, pure, gets, lift, modify, ◌>>=◌, ◌>>◌}

-- `_require_draft_for_edit`, and with the same test for discarding and placing
unfoldable pub require_draft : OrderMutationGuard
unfolding order_status_eq
require_draft order = raise_if (not (order_status_eq order.status draft)) invalid_order_operation

-- `_require_placed_for_edit` and `_require_placed_for_packing`
unfoldable pub require_placed : OrderMutationGuard
unfolding order_status_eq
require_placed order = raise_if (not (order_status_eq order.status placed)) invalid_order_operation

unfoldable pub require_cancellable : OrderMutationGuard
unfolding can_be_cancelled
require_cancellable order = raise_if (not (can_be_cancelled order)) invalid_order_operation

unfoldable pub no_guard : OrderMutationGuard
no_guard order = ok tt

-- `order.save()` of an order that is stored
unfoldable pub save_order : Order → Action ⊤
unfolding save
save_order order = modify λ db. record db { orders = save (λ o. o.pk) order db.orders }

-- `order.updated_at = timezone.now(); order.save(...)`, which the callers return
unfoldable pub touch_order : ℕ → Order → Action Order
unfolding save_order
touch_order now order = do
  let order' = record order { updated_at = now }
  save_order order'
  pure order'

unfoldable pub create_order_lines : Order → List ResolvedOrderLine → Action ⊤
unfolding new_order_lines add_order_lines
create_order_lines order lines = do
  made ← gets (new_order_lines order lines)
  rows ← lift made
  modify (add_order_lines rows)

-- A draft order before it is stored.
unfoldable pub draft_row : ℕ → ℕ → OrderDraft → Order
draft_row now pk d = record {
  pk = pk;
  channel = d.channel;
  currency = d.currency;
  customer = d.customer;
  buyer = no_buyer;
  status = draft;
  updated_at = now;
  edited_at = none;
  placed_at = none;
  packed_at = none;
  delivered_at = none;
  cancelled_at = none;
  edited_by = none;
  placed_by = none;
  packed_by = none;
  delivered_by = none;
  cancelled_by = none;
  cancel_reason = no_reason;
  cancel_note = [];
}

-- The same customer, as the unique constraint compares: NULL equals nothing.
unfoldable pub same_customer : Option ℕ → Option ℕ → Bool
same_customer none c = false
same_customer (some k) none = false
same_customer (some k) (some j) = k == j

-- business_order_requires_customer and unique_business_draft_order_per_customer
unfoldable pub check_order_constraints : Order → List Order → Result ⊤
unfolding channel_eq order_status_eq same_customer any
check_order_constraints order orders =
    if not (channel_eq order.channel business)
    then ok tt
    else if not (is_some order.customer)
    then err integrity_error
    else raise_if
        (order_status_eq order.status draft
          && any
              (λ o.
                channel_eq o.channel business
                && (order_status_eq o.status draft && same_customer o.customer order.customer))
              orders)
        integrity_error

-- `order.save()` of a new order
unfoldable pub insert_order : Order → Action ⊤
unfolding check_order_constraints
insert_order order = do
  checked ← gets (λ db. check_order_constraints order db.orders)
  lift checked
  modify λ db. record db { orders = db.orders ++ order ∷ []; next_pk = db.next_pk + 1 }

unfoldable pub create_draft_order : ℕ → OrderDraft → Action Order
unfolding draft_row snapshot_buyer insert_order create_order_lines
create_draft_order now d = do
  lift (raise_if (is_empty d.lines) invalid_order_operation)
  pk ← gets (λ db. db.next_pk)
  let order = snapshot_buyer d.buyer (draft_row now pk d)
  insert_order order
  create_order_lines order d.lines
  pure order

unfoldable pub add_draft_order_line : ℕ → ResolvedOrderLine → ℕ → Action OrderLine
unfolding locked_order require_draft require_positive_quantity validate_commercial_offer
    check_line_constraints order_line_row add_order_lines touch_order
add_draft_order_line now line = locked_order require_draft λ order. do
  lift (require_positive_quantity line.quantity_in_units)
  offer_pk ← lift (validate_commercial_offer order line)
  lift (check_line_constraints line)
  pk ← gets (λ db. db.next_pk)
  let row = order_line_row order line offer_pk pk
  modify (add_order_lines (row ∷ []))
  touch_order now order
  pure row

unfoldable pub replace_draft_order_lines : ℕ → List ResolvedOrderLine → ℕ → Action Order
unfolding locked_order require_draft delete_lines create_order_lines touch_order
replace_draft_order_lines now lines = locked_order require_draft λ order. do
  modify (delete_lines (λ l. l.order_id == order.pk))
  if is_empty lines then pure tt else create_order_lines order lines
  touch_order now order

-- `order.lines.filter(pk=order_line_id).first()`
unfoldable pub line_of_order : Order → ℕ → Db → Result OrderLine
unfolding find filter
line_of_order order line_pk db =
    or_raise (find (λ l. l.pk) line_pk (filter (λ l. l.order_id == order.pk) db.lines))
      invalid_order_operation

unfoldable pub set_draft_order_line_quantity : ℕ → ℕ → ℤ → ℕ → Action Order
unfolding locked_order require_draft require_positive_quantity line_of_order save touch_order
set_draft_order_line_quantity now line_pk quantity = locked_order require_draft λ order. do
  lift (require_positive_quantity quantity)
  found ← gets (line_of_order order line_pk)
  line ← lift found
  let line' = record line {
    quantity = pos_part quantity;
    unit = stock_unit;
    quantity_in_units = pos_part quantity;
  }
  modify (λ db. record db { lines = save (λ l. l.pk) line' db.lines })
  touch_order now order

unfoldable pub remove_draft_order_line : ℕ → ℕ → ℕ → Action Order
unfolding locked_order require_draft line_of_order delete_lines touch_order
remove_draft_order_line now line_pk = locked_order require_draft λ order. do
  found ← gets (line_of_order order line_pk)
  line ← lift found
  modify (delete_lines (λ l. l.pk == line.pk))
  touch_order now order

unfoldable pub discard_draft_order : OrderMutationPreparation → ℕ → Action ⊤
unfolding locked_order require_draft delete_order
discard_draft_order preparation =
    locked_order require_draft λ order. do preparation order; modify (delete_order order.pk)

unfoldable pub place_order : OrderMutationPreparation → Option ℕ → ℕ → ℕ → Action Order
unfolding locked_order require_draft mark_as_placed save_order
place_order preparation user now = locked_order require_draft λ order. do
  preparation order
  order' ← lift (mark_as_placed user now order)
  save_order order'
  pure order'

unfoldable pub pack_order : OrderMutationPreparation → Option ℕ → ℕ → ℕ → Action Order
unfolding locked_order require_placed mark_as_packed save_order
pack_order preparation user now = locked_order require_placed λ order. do
  preparation order
  order' ← lift (mark_as_packed user now order)
  save_order order'
  pure order'

unfoldable pub cancel_order :
    OrderMutationPreparation → Option ℕ → CancelReason → Text → ℕ → ℕ → Action Order
unfolding locked_order require_cancellable cancel save_order
cancel_order preparation user reason note now = locked_order require_cancellable λ order. do
  preparation order
  order' ← lift (cancel user reason note now order)
  save_order order'
  pure order'

unfoldable pub deliver_order : Option ℕ → ℕ → ℕ → Action Order
unfolding locked_order no_guard mark_as_delivered save_order
deliver_order user now =
    locked_order no_guard
      λ order. do order' ← lift (mark_as_delivered user now order); save_order order'; pure order'
