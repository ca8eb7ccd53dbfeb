-- ===== src/Inventory/Services.antt =====
-- inventory/services.py: correcting and closing a batch, which respect its reservations.
use swedesweets_ops.Prelude.{
  ℕ, ◌||◌, Option, ltb, raise_if, invalid_stock_operation, ℤ, pos_part, is_negative,
}
use swedesweets_ops.Prelude.Rows.{save}
use swedesweets_ops.Prelude.Texts.{Text}
use swedesweets_ops.Inventory.Models.{InventoryBatch, closed, status_eq, updated_batch, close}
use swedesweets_ops.Reservations.Selectors.{active_reserved_quantity_for_batch_pk}
use swedesweets_ops.Database.{Db, Action, pure, gets, lift, modify, get_row, ◌>>=◌, ◌>>◌}

unfoldable pub lock_batch : ℕ → Action InventoryBatch
unfolding get_row
lock_batch batch_pk = do
  row ← gets (λ db. get_row (λ (b : InventoryBatch). b.pk) batch_pk db.batches)
  lift row

abbrev pub write_batch : InventoryBatch → Db → Db
write_batch b db = record db { batches = save (λ c. c.pk) b db.batches }

unfoldable pub update_batch : Option ℕ → ℕ → ℤ → ℕ → Text → ℕ → Action InventoryBatch
unfolding lock_batch status_eq active_reserved_quantity_for_batch_pk updated_batch save
update_batch user now quantity best_before location batch_pk = do
  b ← lock_batch batch_pk
  lift (raise_if (status_eq b.status closed) invalid_stock_operation)
  reserved ← gets (λ db. active_reserved_quantity_for_batch_pk now b.pk db.allocations)
  lift (raise_if (is_negative quantity || ltb (pos_part quantity) reserved) invalid_stock_operation)
  b' ← lift (updated_batch user now quantity best_before location b)
  modify (write_batch b')
  pure b'

unfoldable pub close_batch : Option ℕ → ℕ → ℕ → Action InventoryBatch
unfolding lock_batch active_reserved_quantity_for_batch_pk close save
close_batch user now batch_pk = do
  b ← lock_batch batch_pk
  reserved ← gets (λ db. active_reserved_quantity_for_batch_pk now b.pk db.allocations)
  lift (raise_if (ltb 0 reserved) invalid_stock_operation)
  b' ← lift (close user now b)
  modify (write_batch b')
  pure b'
