-- ===== src/Orders/Updates.antt =====
-- orders/services.py: the update of a placed order.
use swedesweets_ops.Prelude.{
  ℕ, Option, List, [], filter, contains, is_empty, if◌then◌else◌, raise_if, invalid_order_operation,
}
use swedesweets_ops.Orders.Models.{Order, OrderLine, mark_as_edited}
use swedesweets_ops.Orders.Drafts.{ResolvedOrderLine}
use swedesweets_ops.Orders.Contracts.{OrderMutationPreparation, locked_order}
use swedesweets_ops.Orders.Lines.{delete_lines}
use swedesweets_ops.Orders.Replacement.{
  index_incoming, check_existing, retained_lines, added_lines, bulk_update, removed_line_ids,
  lines_of,
}
use swedesweets_ops.Orders.Services.{require_placed, save_order, create_order_lines}
use swedesweets_ops.Database.{Action, ⊤, pure, gets, lift, modify, ◌>>=◌, ◌>>◌}

module _ (before_replacement preparation : OrderMutationPreparation) where
  -- The rewriting of the lines, with the two hooks around it.
  unfoldable pub replace_lines : List OrderLine → List (ℕ × ResolvedOrderLine) → Order → Action ⊤
  unfolding retained_lines bulk_update removed_line_ids delete_lines added_lines create_order_lines
  replace_lines existing incoming order = do
    before_replacement order
    retained ← lift (retained_lines existing incoming)
    modify (λ db. record db { lines = bulk_update retained db.lines })
    modify (delete_lines (λ l. contains l.pk (removed_line_ids existing incoming)))
    if is_empty (added_lines existing incoming)
        then pure tt
        else create_order_lines order (added_lines existing incoming)
    preparation order

  unfoldable pub update_placed_order : List ResolvedOrderLine → Option ℕ → ℕ → ℕ → Action Order
  unfolding locked_order require_placed index_incoming check_existing replace_lines mark_as_edited
      save_order filter
  update_placed_order lines user now = locked_order require_placed λ order. do
    lift (raise_if (is_empty lines) invalid_order_operation)
    incoming ← lift (index_incoming order [] lines)
    existing ← gets (lines_of order)
    lift (check_existing [] existing)
    replace_lines existing incoming order
    let order' = mark_as_edited user now order
    save_order order'
    pure order'
