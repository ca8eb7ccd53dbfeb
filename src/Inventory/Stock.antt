-- ===== src/Inventory/Stock.antt =====
-- What the methods of inventory/models.py do to the stock and the lifecycle of a batch.
use swedesweets_ops.Prelude.{
  ℕ, ◌-◌, ◌<◌, ◌≡◌, ◌∙◌, ◌⊎◌, ◌&&◌, ◌||◌, Option, arith, ltb, leb, ◌==◌, if◌then◌else◌, some, ok,
  err, invalid_stock_operation, ℤ, pos, negsuc, pos_part, is_negative,
}
use swedesweets_ops.Inventory.Models.{
  active, depleted, closed, InventoryBatch, status_eq, pick, adjust_quantity, close,
  mark_batch_as_edited,
}

-- The status says whether there is stock, unless the batch is closed.
abbrev pub IsConsistent : InventoryBatch → Type 0
IsConsistent b =
    (b.status ≡ closed)
    ⊎ ((b.status ≡ active) × (0 < b.quantity))
    ⊎ ((b.status ≡ depleted) × (b.quantity ≡ 0))

-- A pick of `z` units from a batch succeeds exactly when `z` is positive, the batch is active and
-- holds as many. Then exactly these units are gone, the batch is depleted if none is left and
-- active otherwise, and nothing else changes. In every other case it raises InvalidStockOperation.
pub pick_exact :
    (z : ℤ) (b : InventoryBatch)
    → pick z b ≡ (
        if (ltb 0 (pos_part z) && leb (pos_part z) b.quantity) && status_eq b.status active
        then ok (record b {
          quantity = b.quantity - pos_part z;
          status = if pos_part z == b.quantity then depleted else active;
        })
        else err invalid_stock_operation)
unfolding pick
pick_exact (pos n) b = ground arith
pick_exact (negsuc n) b = ground arith

-- A correction to `z` units is refused for a closed batch and for a negative count. Otherwise the
-- batch holds exactly `z` units, is depleted if that is none and active if it is some, and nothing
-- else changes.
pub adjust_quantity_exact :
    (z : ℤ) (b : InventoryBatch)
    → adjust_quantity z b ≡ (
        if status_eq b.status closed || is_negative z
        then err invalid_stock_operation
        else ok (record b {
          quantity = pos_part z;
          status = if pos_part z == 0 then depleted else active;
        }))
unfolding adjust_quantity
adjust_quantity_exact (pos n) b = ground arith
adjust_quantity_exact (negsuc n) b = ground arith

-- Closing always succeeds, keeps the physical stock, and leaves the batch closed.
pub close_exact :
    (user : Option ℕ) (now : ℕ) (b : InventoryBatch)
    → close user now b ≡ ok (record b { status = closed; closed_at = some now; closed_by = user })
unfolding close
close_exact user now b = ground arith

-- One call of a public method on a stored batch.
pub data BatchStep (b b' : InventoryBatch) : Type 0 where
  picked : (z : ℤ) → pick z b ≡ ok b' → BatchStep b b'
  adjusted : (z : ℤ) → adjust_quantity z b ≡ ok b' → BatchStep b b'
  closes : (user : Option ℕ) (now : ℕ) → close user now b ≡ ok b' → BatchStep b b'
  edited : (user : Option ℕ) (now : ℕ) → mark_batch_as_edited user now b ≡ ok b' → BatchStep b b'

-- A history of such calls.
pub data BatchHistory (b : InventoryBatch) : InventoryBatch → Type 0 where
  fresh : BatchHistory b b
  later : {c d : InventoryBatch} → BatchHistory b c → BatchStep c d → BatchHistory b d

pub BatchStep-IsConsistent :
    (b b' : InventoryBatch) → BatchStep b b' → IsConsistent b → IsConsistent b'
unfolding pick adjust_quantity close mark_batch_as_edited
BatchStep-IsConsistent b b' (picked z e) h = ground arith
BatchStep-IsConsistent b b' (adjusted z e) h = ground arith
BatchStep-IsConsistent b b' (closes u t e) h = ground arith
BatchStep-IsConsistent b b' (edited u t e) h = ground arith

-- If the status of a batch says whether there is stock, or the batch is closed, then this holds
-- after any history of picks, corrections, closings and edits.
pub BatchHistory-IsConsistent :
    {b c : InventoryBatch} → BatchHistory b c → IsConsistent b → IsConsistent c
BatchHistory-IsConsistent fresh h = h
BatchHistory-IsConsistent (later r s) h =
    BatchStep-IsConsistent _ _ s (BatchHistory-IsConsistent r h)

BatchStep-closed :
    (b b' : InventoryBatch)
    → BatchStep b b'
    → b.status ≡ closed
    → (b'.status ≡ closed) × (b'.quantity ≡ b.quantity)
unfolding pick adjust_quantity close mark_batch_as_edited
BatchStep-closed b b' (picked z e) h = ground arith
BatchStep-closed b b' (adjusted z e) h = ground arith
BatchStep-closed b b' (closes u t e) h = ground arith
BatchStep-closed b b' (edited u t e) h = ground arith

-- After any history of picks, corrections, closings and edits, a batch that was closed before is
-- closed and has the stock that it had.
pub BatchHistory-closed :
    {b c : InventoryBatch}
    → BatchHistory b c
    → b.status ≡ closed
    → (c.status ≡ closed) × (c.quantity ≡ b.quantity)
BatchHistory-closed fresh h = ground arith
BatchHistory-closed (later r s) h =
    let before = BatchHistory-closed r h in
    let now = BatchStep-closed _ _ s before.0 in (now.0, now.1 ∙ before.1)
