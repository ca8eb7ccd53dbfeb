-- ===== src/Business/Placing.antt =====
-- business/services.py and business/policies.py: the stock of a business order that is placed.
use swedesweets_ops.Prelude.{
  ℕ, ◌≤◌, ◌≡◌, refl, ap, Option, none, some, List, [], ◌∷◌, arith, ok, All, IsDistinct, Bool, false,
  not, is_empty, raise_if, map_error, invalid_order_operation, pos,
}
use mathlib.Core.Path.{subst}
use swedesweets_ops.Prelude.Rows.{find, save}
use swedesweets_ops.Pricing.Models.{CommercialPrice, business, eur, channel_eq}
use swedesweets_ops.Pricing.Selectors.{list_orderable_batches_for_offer}
use swedesweets_ops.Inventory.Models.{InventoryBatch}
use swedesweets_ops.Orders.Models.{Order, OrderLine, draft, placed, mark_as_placed}
use swedesweets_ops.Orders.Locking.{locked_order-runs, prepared_change-runs}
use swedesweets_ops.Orders.Services.{require_draft}
use swedesweets_ops.Orders.Services
use swedesweets_ops.Reservations.Services.{reserve_order_line_from_pool}
use swedesweets_ops.Reservations.Overbooking.{NoOverbooking}
use swedesweets_ops.Reservations.Promises.{promised, Reserves, reserve-Reserves, loop-Reserves}
use swedesweets_ops.Fulfillment.Packing.{map_error-ok}
use swedesweets_ops.Retail.PaymentServices.{capacity_as_stock, lines_of_order}
use swedesweets_ops.Business.Policies.{
  offer_of, validate_business_offer, reserve_business_line, reserve_business_lines,
  prepare_business_order_for_placement,
}
use swedesweets_ops.Business.Services.{place_order}
use swedesweets_ops.Database.{Db, gets, lift, after_check, lift_then, ◌>>=◌}

reserve_line-Reserves :
    (now today : ℕ) (l : OrderLine) (db db' : Db)
    → IsDistinct (λ b. b.pk) db.batches
    → reserve_business_line now today l db ≡ ok (tt, db')
    → Reserves now none (l ∷ []) db db'
unfolding reserve_business_line
reserve_line-Reserves now today l db db' distinct e =
    let reserve = λ (pool : InventoryBatch → Bool).
      reserve_order_line_from_pool now l pool (pos l.quantity_in_units) none in
    let draw = λ (offer : CommercialPrice).
      gets (list_orderable_batches_for_offer today offer eur) >>= λ pool.
      λ db. map_error capacity_as_stock (reserve pool db) in
    let (offer, found, rest) =
      lift_then (offer_of l db)
        (λ offer. gets (validate_business_offer l offer) >>= λ v. lift v >>= λ _. draw offer) db
        e in
    let (valid, last) = after_check (validate_business_offer l offer db) (draw offer) db rest in
    let pool = list_orderable_batches_for_offer today offer eur db in
    reserve-Reserves now l pool none db db' distinct
      (map_error-ok capacity_as_stock (reserve pool db) last)

reserve_lines-Reserves :
    (now today : ℕ) (ls : List OrderLine) (db db' : Db)
    → IsDistinct (λ b. b.pk) db.batches
    → reserve_business_lines now today ls db ≡ ok (tt, db')
    → Reserves now none ls db db'
unfolding reserve_business_lines
reserve_lines-Reserves now today =
    loop-Reserves now none (reserve_business_line now today) (reserve_business_lines now today)
      (λ db. refl) (λ l ls db. refl)
      (λ l db db' distinct e. reserve_line-Reserves now today l db db' distinct e)

prepare-Reserves :
    (now today : ℕ) (o : Order) (db db' : Db)
    → IsDistinct (λ b. b.pk) db.batches
    → prepare_business_order_for_placement now today o db ≡ ok (tt, db')
    → (o.channel ≡ business)
      × (is_empty (lines_of_order o.pk db) ≡ false)
      × Reserves now none (lines_of_order o.pk db) db db'
unfolding prepare_business_order_for_placement
prepare-Reserves now today o db db' distinct e =
    let ls = lines_of_order o.pk db in
    let wrong = raise_if (not (channel_eq o.channel business)) invalid_order_operation in
    let no_lines = raise_if (is_empty ls) invalid_order_operation in
    let check = λ (ls : List OrderLine).
      lift (raise_if (is_empty ls) invalid_order_operation) >>= λ _.
      reserve_business_lines now today ls in
    let (right, e₁) = after_check wrong (gets (lines_of_order o.pk) >>= check) db e in
    let (present, e₂) = after_check no_lines (reserve_business_lines now today ls) db e₁ in
    (
      unfold channel_eq in ground (arith, right),
      ground (arith, present),
      reserve_lines-Reserves now today ls db db' distinct e₂,
    )

-- If no batch has more active claims than units, batches have distinct keys, and a business order is
-- placed, then the order was a stored business draft with lines, and it is stored again as placed at
-- this instant. Every line has all of its units reserved for good, still no batch has more active
-- claims than units, and no batch changes.
pub place_order-Reserves :
    (now today : ℕ) (user : Option ℕ) (k : ℕ) (o' : Order) (db db' : Db)
    → IsDistinct (λ b. b.pk) db.batches
    → NoOverbooking now db
    → place_order now today user k db ≡ ok (o', db')
    → (o : Order) × (find (λ (o : Order). o.pk) k db.orders ≡ some o)
      × (o.status ≡ draft)
      × (o.channel ≡ business)
      × (is_empty (lines_of_order k db) ≡ false)
      × (o'.status ≡ placed)
      × (o'.placed_at ≡ some now)
      × (db'.orders ≡ save (λ o. o.pk) o' db.orders)
      × (db'.batches ≡ db.batches)
      × All (λ l. l.quantity_in_units ≤ promised none l.pk db'.allocations) (lines_of_order k db)
      × NoOverbooking now db'
unfolding place_order Services.place_order
place_order-Reserves now today user k o' db db' distinct sound e =
    let preparation = prepare_business_order_for_placement now today in
    let (o, found, key, passed, ran) = locked_order-runs require_draft _ k db e in
    let (mid, prepared, changed, written) =
      prepared_change-runs preparation (mark_as_placed user now) o o' db db' ran in
    let (in_business, present, reserves) = prepare-Reserves now today o db mid distinct prepared in
    let (keeps, batches, _, _, orders, _, held) = reserves in
    (
      o,
      found,
      unfold require_draft in ground arith,
      in_business,
      subst (λ n. is_empty (lines_of_order n db) ≡ false) key present,
      unfold mark_as_placed in ground arith,
      unfold mark_as_placed in ground arith,
      rw written (ap (save (λ (o : Order). o.pk) o') orders),
      rw written batches,
      rw written (
          subst
            (λ n.
              All (λ l. l.quantity_in_units ≤ promised none l.pk mid.allocations)
                (lines_of_order n db))
            key held),
      rw written (keeps sound),
    )
