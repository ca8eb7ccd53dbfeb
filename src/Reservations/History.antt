-- ===== src/Reservations/History.antt =====
-- inventory/services.py and reservations/services.py: sequences of operations on batches and
-- reservations, each at its instant.
use mathlib.Core.Path.{subst}
use swedesweets_ops.Prelude.{
  ℕ, ◌≤◌, ◌≡◌, ◌≢◌, ◌&&◌, is_some, ap, Result, arith, Bool, Option, List, [], ◌∷◌, ◌==◌, not, ok, ℤ,
  IsDistinct, All, Bool-cases, inl, inr, filter,
}
use swedesweets_ops.Prelude.Rows.{save}
use swedesweets_ops.Prelude.Texts.{Text}
use swedesweets_ops.Inventory.Models.{InventoryBatch}
use swedesweets_ops.Inventory.Services.{update_batch, close_batch}
use swedesweets_ops.Inventory.Reserved.{
  update_batch_writes, update_batch-NoOverbooking, close_batch_writes, close_batch-NoOverbooking,
}
use swedesweets_ops.Orders.Models.{OrderLine}
use swedesweets_ops.Reservations.Models.{Allocation, cancel_allocation}
use swedesweets_ops.Reservations.Services.{
  is_reserved_for, add_allocations, change_allocations, reserve_order_line_from_pool,
  cancel_reservations_for_order, cancel_temporary_reservations_for_order,
  delete_reservations_for_order, consume_reservations_for_order,
  make_reservations_permanent_for_order, with_allocations,
}
use swedesweets_ops.Reservations.Overbooking.{NoOverbooking, reserve_writes, reserve-NoOverbooking}
use swedesweets_ops.Reservations.Release.{
  change_writes, cancel-NoOverbooking, cancel_temporary-NoOverbooking, delete-NoOverbooking,
  make_permanent_writes, make_permanent-NoOverbooking, NoOverbooking-later,
}
use swedesweets_ops.Reservations.Consumption.{
  InForce, Took-IsDistinct, consume_takes_reserved, consume-NoOverbooking,
}
use swedesweets_ops.Database.{Db, modify-eq-ok}

-- One operation at an instant. Packing comes while the order's reservations are in force.
pub data StockStep (now : ℕ) (db db' : Db) : Type 0 where
  reserves :
      (line : OrderLine) (pool : InventoryBatch → Bool) (q : ℤ) (until : Option ℕ)
      → reserve_order_line_from_pool now line pool q until db ≡ ok (tt, db')
      → StockStep now db db'
  releases : (o : ℕ) → cancel_reservations_for_order o db ≡ ok (tt, db') → StockStep now db db'
  releases_temporary :
      (o : ℕ) → cancel_temporary_reservations_for_order o db ≡ ok (tt, db') → StockStep now db db'
  removes : (o : ℕ) → delete_reservations_for_order o db ≡ ok (tt, db') → StockStep now db db'
  confirms :
      (o : ℕ) → make_reservations_permanent_for_order now o db ≡ ok (tt, db') → StockStep now db db'
  packs :
      (o : ℕ)
      → InForce now o db.allocations
      → consume_reservations_for_order o db ≡ ok (tt, db')
      → StockStep now db db'
  corrects :
      (user : Option ℕ) (q : ℤ) (day : ℕ) (place : Text) (k : ℕ) (b : InventoryBatch)
      → update_batch user now q day place k db ≡ ok (b, db')
      → StockStep now db db'
  closes :
      (user : Option ℕ) (k : ℕ) (b : InventoryBatch)
      → close_batch user now k db ≡ ok (b, db')
      → StockStep now db db'

-- Operations one after the other, the last one at the second instant or before.
pub data StockHistory (now : ℕ) (db : Db) : ℕ → Db → Type 0 where
  at_first : StockHistory now db now db
  and_then :
      {t u : ℕ} {mid db' : Db}
      → StockHistory now db t mid
      → t ≤ u
      → StockStep u mid db'
      → StockHistory now db u db'

save_fresh :
    (b : InventoryBatch) (k : ℕ) (bs : List InventoryBatch)
    → All (λ c. c.pk ≢ k) bs
    → All (λ c. c.pk ≢ k) (save (λ c. c.pk) b bs)
unfolding save
save_fresh b k [] h = tt
save_fresh b k (c ∷ bs) h = elim (Bool-cases (b.pk == c.pk)) [
  | inl here ↦ rw here (ground arith, save_fresh b k bs h.1)
  | inr other ↦ rw other (h.0, save_fresh b k bs h.1)
]

-- Saving a batch keeps the keys distinct.
save-IsDistinct :
    (b : InventoryBatch) (bs : List InventoryBatch)
    → IsDistinct (λ c. c.pk) bs
    → IsDistinct (λ c. c.pk) (save (λ c. c.pk) b bs)
unfolding save
save-IsDistinct b [] h = tt
save-IsDistinct b (c ∷ bs) h = elim (Bool-cases (b.pk == c.pk)) [
  | inl here ↦
      let key : c.pk ≡ b.pk = ground arith in
      rw here (
        subst (λ k. All (λ x. x.pk ≢ k) (save (λ x. x.pk) b bs)) key (save_fresh b c.pk bs h.0),
        save-IsDistinct b bs h.1,
      )
  | inr other ↦ rw other (save_fresh b c.pk bs h.0, save-IsDistinct b bs h.1)
]

change-batches :
    (selected : Allocation → Bool) (method : Allocation → Result Allocation) (db db' : Db)
    → change_allocations selected method db ≡ ok (tt, db')
    → db'.batches ≡ db.batches
change-batches selected method db db' e =
    let (rows, made, written) = change_writes selected method db db' e in
    ap (λ d. d.batches) written

StockStep-IsDistinct :
    (now : ℕ) (db db' : Db)
    → StockStep now db db'
    → IsDistinct (λ b. b.pk) db.batches
    → IsDistinct (λ b. b.pk) db'.batches
StockStep-IsDistinct now db db' (reserves line pool q until e) d =
    rw (reserve_writes now line pool q until db db' e).2 (unfold add_allocations in d)
StockStep-IsDistinct now db db' (releases o e) d =
    rw
      (change-batches (is_reserved_for o) cancel_allocation db db'
        (unfold cancel_reservations_for_order in e))
      d
StockStep-IsDistinct now db db' (releases_temporary o e) d =
    rw
      (change-batches (λ a. is_reserved_for o a && is_some a.reserved_until) cancel_allocation db
        db' (unfold cancel_temporary_reservations_for_order in e))
      d
StockStep-IsDistinct now db db' (removes o e) d =
    rw
      (modify-eq-ok (with_allocations (filter (λ a. not (is_reserved_for o a)) db.allocations)) db
        {db' = db'} (unfold delete_reservations_for_order in e))
      d
StockStep-IsDistinct now db db' (confirms o e) d = rw (make_permanent_writes now o db db' e) d
StockStep-IsDistinct now db db' (packs o f e) d =
    Took-IsDistinct _ db.batches db'.batches (consume_takes_reserved o db db' d e) d
StockStep-IsDistinct now db db' (corrects user q day place k b e) d =
    rw (update_batch_writes user now q day place k b db db' e).1 (save-IsDistinct b db.batches d)
StockStep-IsDistinct now db db' (closes user k b e) d =
    rw (close_batch_writes user now k b db db' e).1 (save-IsDistinct b db.batches d)

StockStep-NoOverbooking :
    (now : ℕ) (db db' : Db)
    → StockStep now db db'
    → IsDistinct (λ b. b.pk) db.batches
    → NoOverbooking now db
    → NoOverbooking now db'
StockStep-NoOverbooking now db db' (reserves line pool q until e) d s =
    reserve-NoOverbooking now line pool q until db db' d s e
StockStep-NoOverbooking now db db' (releases o e) d s = cancel-NoOverbooking now o db db' e s
StockStep-NoOverbooking now db db' (releases_temporary o e) d s =
    cancel_temporary-NoOverbooking now o db db' e s
StockStep-NoOverbooking now db db' (removes o e) d s = delete-NoOverbooking now o db db' e s
StockStep-NoOverbooking now db db' (confirms o e) d s =
    make_permanent-NoOverbooking now o db db' e s
StockStep-NoOverbooking now db db' (packs o f e) d s = consume-NoOverbooking now o db db' d f s e
StockStep-NoOverbooking now db db' (corrects user q day place k b e) d s =
    update_batch-NoOverbooking user now q day place k b db db' s e
StockStep-NoOverbooking now db db' (closes user k b e) d s =
    (close_batch-NoOverbooking user now k b db db' s e).0

-- If batches have distinct keys and no batch has more active claims than units, then this holds
-- after any sequence of reservations, releases, deletions, confirmations, packings of orders whose
-- reservations are in force, corrections and closings, at instants that do not go back.
pub StockHistory-NoOverbooking :
    {now : ℕ} {db : Db} {last : ℕ} {db' : Db}
    → StockHistory now db last db'
    → IsDistinct (λ b. b.pk) db.batches
    → NoOverbooking now db
    → IsDistinct (λ b. b.pk) db'.batches × NoOverbooking last db'
StockHistory-NoOverbooking at_first d s = (d, s)
StockHistory-NoOverbooking {db'} (and_then {t} {u} {mid} h le step) d s =
    let (distinct, sound) = StockHistory-NoOverbooking h d s in
    let later = NoOverbooking-later t u mid le sound in
    (
      StockStep-IsDistinct u mid db' step distinct,
      StockStep-NoOverbooking u mid db' step distinct later,
    )
