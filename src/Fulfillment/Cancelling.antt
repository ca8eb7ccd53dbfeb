-- ===== src/Fulfillment/Cancelling.antt =====
-- fulfillment/services.py: cancelling an order, and its effect on the stock and its claims.
use swedesweets_ops.Prelude.{
  ℕ, ◌≡◌, ◌⊎◌, ◌∙◌, ap, sym, refl, some, Option, List, [], ◌∷◌, ok, arith, Zip, sum_by,
  if◌then◌else◌,
}
use swedesweets_ops.Prelude.Rows.{find, save, for_each-Zip}
use swedesweets_ops.Prelude.Texts.{Text, strip}
use swedesweets_ops.Orders.Models.{Order, draft, placed, cancelled, CancelReason, cancel}
use swedesweets_ops.Orders.Locking.{locked_order-runs, prepared_change-runs}
use swedesweets_ops.Orders.Services
use swedesweets_ops.Orders.Services.{require_cancellable}
use swedesweets_ops.Reservations.Models.{Allocation, cancel_allocation}
use swedesweets_ops.Reservations.Services.{is_reserved_for, cancel_reservations_for_order}
use swedesweets_ops.Reservations.Policies.{release_order_reservations_before_cancellation}
use swedesweets_ops.Reservations.Release.{change_writes}
use swedesweets_ops.Reservations.Consumption.{held_by}
use swedesweets_ops.Fulfillment.Services.{cancel_order}
use swedesweets_ops.Database.{Db}

-- Once cancelled, an order's reservations hold no units.
held-cancelled :
    (o k : ℕ) (rows rows' : List Allocation)
    → Zip (λ x y. (if is_reserved_for o x then cancel_allocation x else ok x) ≡ ok y) rows rows'
    → held_by o k rows' ≡ 0
unfolding sum_by cancel_allocation is_reserved_for
held-cancelled o k [] [] z = refl
held-cancelled o k [] (y ∷ ys) z = elim z [ ]
held-cancelled o k (x ∷ xs) [] z = elim z [ ]
held-cancelled o k (x ∷ xs) (y ∷ ys) z = ground (arith, held-cancelled o k xs ys z.1)

-- If an order is cancelled, then it was stored as a draft or as placed, it is stored again as
-- cancelled with the stripped note, no batch changes, and the order holds no units of any batch.
pub cancel_order-releases :
    (user : Option ℕ) (reason : CancelReason) (note : Text) (now k : ℕ) (o' : Order) (db db' : Db)
    → cancel_order user reason note now k db ≡ ok (o', db')
    → (o : Order) × (find (λ (o : Order). o.pk) k db.orders ≡ some o)
      × ((o.status ≡ draft) ⊎ (o.status ≡ placed))
      × (o'.status ≡ cancelled)
      × (o'.cancel_note ≡ strip note)
      × (db'.orders ≡ save (λ o. o.pk) o' db.orders)
      × (db'.batches ≡ db.batches)
      × ((b : ℕ) → held_by k b db'.allocations ≡ 0)
unfolding cancel_order Services.cancel_order
cancel_order-releases user reason note now k o' db db' e =
    let (o, found, key, passed, ran) = locked_order-runs require_cancellable _ k db e in
    let (mid, prepared, changed, written) =
      prepared_change-runs release_order_reservations_before_cancellation
        (cancel user reason note now) o o' db db' ran in
    let released : cancel_reservations_for_order k db ≡ ok (tt, mid) =
      ap (λ n. cancel_reservations_for_order n db) (sym key)
      ∙ unfold release_order_reservations_before_cancellation in prepared in
    let (rows, for_rows, mid_is) =
      change_writes (is_reserved_for k) cancel_allocation db mid
        (unfold cancel_reservations_for_order in released) in
    (
      o,
      found,
      unfold require_cancellable in ground arith,
      unfold cancel in ground arith,
      unfold cancel in ground arith,
      ground (arith, written, mid_is),
      ground (arith, written, mid_is),
      λ b.
          rw (written, mid_is)
            (held-cancelled k b db.allocations rows
              (for_each-Zip (is_reserved_for k) cancel_allocation db.allocations rows for_rows)),
    )
