-- ===== src/Inventory/Reserved.antt =====
-- inventory/services.py: correcting and closing a batch, and the active claims on it.
use swedesweets_ops.Prelude.{
  ℕ, ◌≤◌, ◌≡◌, ◌∙◌, ap, Option, List, [], ◌∷◌, ltb, ◌||◌, arith, ok, raise_if,
  invalid_stock_operation, ℤ, pos_part, is_negative, contains,
}
use swedesweets_ops.Prelude.Rows.{All-save}
use swedesweets_ops.Prelude.Texts.{Text}
use swedesweets_ops.Inventory.Models.{InventoryBatch, closed, status_eq, updated_batch, close}
use swedesweets_ops.Inventory.Stock.{adjust_quantity_exact, close_exact}
use swedesweets_ops.Inventory.Services.{lock_batch, write_batch, update_batch, close_batch}
use swedesweets_ops.Reservations.Models.{Allocation}
use swedesweets_ops.Reservations.Selectors.{
  claimed, active_reserved_quantity_for_batch_pk, active_reserved_quantities-eq-claimed,
}
use swedesweets_ops.Reservations.Overbooking.{NoOverbooking}
use swedesweets_ops.Database.{
  Db, pure, gets, lift, modify, after_check, lift_save, ◌>>=◌, >>=-eq-ok,
}

lock_batch_reads :
    (k : ℕ) (b : InventoryBatch) (db mid : Db) → lock_batch k db ≡ ok (b, mid) → mid ≡ db
unfolding lock_batch
lock_batch_reads k b db mid e = ground arith

-- The reserved quantity of one batch is the sum of its active claims.
pub active_reserved_quantity-eq-claimed :
    (now k : ℕ) (rows : List Allocation)
    → active_reserved_quantity_for_batch_pk now k rows ≡ claimed now k rows
unfolding active_reserved_quantity_for_batch_pk
active_reserved_quantity-eq-claimed now k rows =
    active_reserved_quantities-eq-claimed now (k ∷ []) rows k (unfold contains in ground arith)

updated_batch-quantity :
    (user : Option ℕ) (now : ℕ) (z : ℤ) (day : ℕ) (place : Text) (b b' : InventoryBatch)
    → updated_batch user now z day place b ≡ ok b'
    → (b'.pk ≡ b.pk) × (b'.quantity ≡ pos_part z)
unfolding updated_batch
updated_batch-quantity user now z day place b b' e = ground (arith, adjust_quantity_exact z b)

pub update_batch_writes :
    (user : Option ℕ) (now : ℕ) (z : ℤ) (day : ℕ) (place : Text) (k : ℕ) (b' : InventoryBatch)
    (db db' : Db)
    → update_batch user now z day place k db ≡ ok (b', db')
    → (claimed now b'.pk db.allocations ≤ b'.quantity) × (db' ≡ write_batch b' db)
unfolding update_batch
update_batch_writes user now z day place k b' db db' e =
    let save_corrected = λ (b : InventoryBatch).
      lift (updated_batch user now z day place b) >>= λ c. modify (write_batch c) >>= λ _. pure c in
    let reserved = λ (b : InventoryBatch) (db : Db).
      active_reserved_quantity_for_batch_pk now b.pk db.allocations in
    let refused =
      λ (n : ℕ). raise_if (is_negative z || ltb (pos_part z) n) invalid_stock_operation in
    let correct = λ (b : InventoryBatch).
      gets (reserved b) >>= λ n. lift (refused n) >>= λ _. save_corrected b in
    let (b, mid, read, rest) =
      >>=-eq-ok (lock_batch k)
        (λ b.
          lift (raise_if (status_eq b.status closed) invalid_stock_operation) >>= λ _. correct b)
        db e in
    let same = lock_batch_reads k b db mid read in
    let (_, correcting) =
      after_check (raise_if (status_eq b.status closed) invalid_stock_operation) (correct b) mid
        rest in
    let (enough, saved) =
      after_check (refused (reserved b mid)) (save_corrected b) mid correcting in
    let (made, written) = lift_save (updated_batch user now z day place b) write_batch mid saved in
    let (key, quantity) = updated_batch-quantity user now z day place b b' made in
    (
      rw (key, quantity)
          (ground
            (arith, enough, same, active_reserved_quantity-eq-claimed now b.pk db.allocations)),
      written ∙ ap (write_batch b') same,
    )

-- If no batch has more active claims than units, then correcting a batch to any quantity, if it is
-- not refused, keeps it so.
pub update_batch-NoOverbooking :
    (user : Option ℕ) (now : ℕ) (z : ℤ) (day : ℕ) (place : Text) (k : ℕ) (b' : InventoryBatch)
    (db db' : Db)
    → NoOverbooking now db
    → update_batch user now z day place k db ≡ ok (b', db')
    → NoOverbooking now db'
update_batch-NoOverbooking user now z day place k b' db db' sound e =
    let (fits, written) = update_batch_writes user now z day place k b' db db' e in
    rw written (
      All-save (λ b. claimed now b.pk db.allocations ≤ b.quantity) (λ b. b.pk) b' db.batches fits
        sound)

pub close_batch_writes :
    (user : Option ℕ) (now k : ℕ) (b' : InventoryBatch) (db db' : Db)
    → close_batch user now k db ≡ ok (b', db')
    → (claimed now b'.pk db.allocations ≡ 0) × (db' ≡ write_batch b' db)
unfolding close_batch
close_batch_writes user now k b' db db' e =
    let save_closed = λ (b : InventoryBatch).
      lift (close user now b) >>= λ c. modify (write_batch c) >>= λ _. pure c in
    let reserved = λ (b : InventoryBatch) (db : Db).
      active_reserved_quantity_for_batch_pk now b.pk db.allocations in
    let refused = λ (n : ℕ). raise_if (ltb 0 n) invalid_stock_operation in
    let (b, mid, read, rest) =
      >>=-eq-ok (lock_batch k)
        (λ b. gets (reserved b) >>= λ n. lift (refused n) >>= λ _. save_closed b) db e in
    let same = lock_batch_reads k b db mid read in
    let (none_left, saved) = after_check (refused (reserved b mid)) (save_closed b) mid rest in
    let (made, written) = lift_save (close user now b) write_batch mid saved in
    let key : b'.pk ≡ b.pk = ground (arith, close_exact user now b) in
    (
      rw key (
          ground
            (arith, none_left, same, active_reserved_quantity-eq-claimed now b.pk db.allocations)),
      written ∙ ap (write_batch b') same,
    )

-- If no batch has more active claims than units, then closing a batch keeps it so, and the batch
-- that was closed has no active claim.
pub close_batch-NoOverbooking :
    (user : Option ℕ) (now k : ℕ) (b' : InventoryBatch) (db db' : Db)
    → NoOverbooking now db
    → close_batch user now k db ≡ ok (b', db')
    → NoOverbooking now db' × (claimed now b'.pk db'.allocations ≡ 0)
close_batch-NoOverbooking user now k b' db db' sound e =
    let (free, written) = close_batch_writes user now k b' db db' e in
    rw written (
      All-save (λ b. claimed now b.pk db.allocations ≤ b.quantity) (λ b. b.pk) b' db.batches
          (omega (arith, free)) sound,
      free,
    )
