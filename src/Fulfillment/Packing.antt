-- ===== src/Fulfillment/Packing.antt =====
-- fulfillment/services.py: packing an order, and its effect on the stock.
use swedesweets_ops.Prelude.{
  ℕ, ◌+◌, ◌≡◌, ◌∙◌, ap, sym, some, Option, Result, Error, ok, err, arith, Zip, IsDistinct,
  map_error,
}
use swedesweets_ops.Prelude.Rows.{find, save}
use swedesweets_ops.Orders.Models.{Order, placed, packed, mark_as_packed}
use swedesweets_ops.Orders.Locking.{locked_order-runs, prepared_change-runs}
use swedesweets_ops.Orders.Services
use swedesweets_ops.Orders.Services.{require_placed}
use swedesweets_ops.Reservations.Services.{consume_reservations_for_order}
use swedesweets_ops.Reservations.Policies.{
  missing_as_invalid, consume_order_reservations_before_packing,
}
use swedesweets_ops.Reservations.Consumption.{held_by, consume_takes_reserved, consume_writes}
use swedesweets_ops.Fulfillment.Services.{pack_order}
use swedesweets_ops.Database.{Db}

pub map_error-ok :
    {A : Type 0} (f : Error → Error) (r : Result A) {a : A} → map_error f r ≡ ok a → r ≡ ok a
map_error-ok f (ok a) e = e
map_error-ok f (err x) e = cc

-- If batches have distinct keys and an order is packed, then the order was stored and placed, it is
-- stored again as packed at this instant, and every batch holds exactly the units less that the
-- order had reserved of it.
pub pack_order-takes :
    (user : Option ℕ) (now k : ℕ) (o' : Order) (db db' : Db)
    → IsDistinct (λ b. b.pk) db.batches
    → pack_order user now k db ≡ ok (o', db')
    → (o : Order) × (find (λ (o : Order). o.pk) k db.orders ≡ some o)
      × (o.status ≡ placed)
      × (o'.status ≡ packed)
      × (o'.packed_at ≡ some now)
      × (db'.orders ≡ save (λ o. o.pk) o' db.orders)
      × Zip
          (λ b b'. (b'.pk ≡ b.pk) × (b'.quantity + held_by k b.pk db.allocations ≡ b.quantity))
          db.batches
          db'.batches
unfolding pack_order Services.pack_order
pack_order-takes user now k o' db db' distinct e =
    let (o, found, key, passed, ran) = locked_order-runs require_placed _ k db e in
    let (mid, prepared, changed, written) =
      prepared_change-runs consume_order_reservations_before_packing (mark_as_packed user now) o o'
        db db' ran in
    let consumed : consume_reservations_for_order k db ≡ ok (tt, mid) =
      ap (λ n. consume_reservations_for_order n db) (sym key)
      ∙ unfold consume_order_reservations_before_packing in
        map_error-ok missing_as_invalid (consume_reservations_for_order o.pk db) prepared in
    let (bs, rows, picked, for_rows, mid_is) = consume_writes k db mid consumed in
    (
      o,
      found,
      unfold require_placed in ground arith,
      unfold mark_as_packed in ground arith,
      unfold mark_as_packed in ground arith,
      ground (arith, written, mid_is),
      rw written (consume_takes_reserved k db mid distinct consumed),
    )
