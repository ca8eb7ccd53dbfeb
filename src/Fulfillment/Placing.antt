-- ===== src/Fulfillment/Placing.antt =====
-- orders/services.py and reservations/policies.py: placing an order whose reservations were temporary.
use swedesweets_ops.Prelude.{
  ℕ, ◌≡◌, ◌⊎◌, ◌∙◌, ap, sym, refl, some, none, true, false, not, any, is_some, Zip, if◌then◌else◌,
  ◌&&◌, Bool-cases, inl, inr, Option, List, [], ◌∷◌, ok, arith, All,
}
use swedesweets_ops.Prelude.Rows.{find, save, update_where}
use swedesweets_ops.Orders.Models.{Order, draft, placed, mark_as_placed}
use swedesweets_ops.Orders.Locking.{locked_order-runs, prepared_change-runs}
use swedesweets_ops.Orders.Services.{require_draft, place_order}
use swedesweets_ops.Reservations.Models.{Allocation, is_unexpired}
use swedesweets_ops.Reservations.Services.{is_reserved_for, make_reservations_permanent_for_order}
use swedesweets_ops.Reservations.Policies.{
  missing_as_invalid, make_order_reservations_permanent_before_placement,
}
use swedesweets_ops.Reservations.Release.{
  made_durable, make_permanent_writes, make_permanent_checks,
}
use swedesweets_ops.Fulfillment.Packing.{map_error-ok}
use swedesweets_ops.Database.{Db}

-- The reservations of an order that are in force do not run out.
abbrev pub AreDurable : ℕ → ℕ → List Allocation → Type 0
AreDurable now o =
    All (λ a. ((is_reserved_for o a && is_unexpired now a) ≡ false) ⊎ (a.reserved_until ≡ none))

-- A reservation of the order that is in force is kept for good, with its units, and nothing else of
-- it changes; every other reservation is left as it is.
abbrev pub IsPromoted : ℕ → ℕ → Allocation → Allocation → Type 0
IsPromoted now o a b =
    b
    ≡ (if is_reserved_for o a && is_unexpired now a then record a { reserved_until = none } else a)

-- Some reservation of the order is in force, and each that is runs out some day.
abbrev pub AreHeld : ℕ → ℕ → List Allocation → Type 0
AreHeld now o rows =
    (any (λ a. is_reserved_for o a && is_unexpired now a) rows ≡ true)
    × All
        (λ a.
          ((is_reserved_for o a && is_unexpired now a) ≡ false) ⊎ (is_some a.reserved_until ≡ true))
        rows

none_durable :
    (now o : ℕ) (rows : List Allocation)
    → any (λ a. (is_reserved_for o a && is_unexpired now a) && not (is_some a.reserved_until)) rows
      ≡ false
    → All
        (λ a.
          ((is_reserved_for o a && is_unexpired now a) ≡ false) ⊎ (is_some a.reserved_until ≡ true))
        rows
unfolding any
none_durable now o [] e = tt
none_durable now o (a ∷ rows) e = (
  elim (Bool-cases (is_reserved_for o a && is_unexpired now a)) [
    | inl here ↦ inr (ground (arith, e, here))
    | inr other ↦ inl other
  ],
  none_durable now o rows (ground arith),
)

made_durable-IsPromoted :
    (now o : ℕ) (rows : List Allocation) → Zip (IsPromoted now o) rows (made_durable now o rows)
unfolding update_where
made_durable-IsPromoted now o [] = tt
made_durable-IsPromoted now o (a ∷ rows) = (refl, made_durable-IsPromoted now o rows)

made_durable-AreDurable :
    (now o : ℕ) (rows : List Allocation) → AreDurable now o (made_durable now o rows)
unfolding update_where
made_durable-AreDurable now o [] = tt
made_durable-AreDurable now o (a ∷ rows) = (
  elim (Bool-cases (is_reserved_for o a && is_unexpired now a)) [
    | inl here ↦ rw here (inr refl)
    | inr other ↦ rw other (inl other)
  ],
  made_durable-AreDurable now o rows,
)

-- If an order is placed with its reservations made permanent, then it was stored as a draft with some
-- reservation in force, and none in force for good. It is stored again as placed at this instant, no
-- batch changes, and each reservation of it that was in force is kept with its units and no longer
-- runs out, while all other reservations stay as they were.
pub place_order-AreDurable :
    (user : Option ℕ) (now k : ℕ) (o' : Order) (db db' : Db)
    → place_order (make_order_reservations_permanent_before_placement now) user now k db
      ≡ ok (o', db')
    → (o : Order) × (find (λ (o : Order). o.pk) k db.orders ≡ some o)
      × (o.status ≡ draft)
      × (o'.status ≡ placed)
      × (o'.placed_at ≡ some now)
      × (db'.orders ≡ save (λ o. o.pk) o' db.orders)
      × (db'.batches ≡ db.batches)
      × AreHeld now k db.allocations
      × Zip (IsPromoted now k) db.allocations db'.allocations
      × AreDurable now k db'.allocations
unfolding place_order
place_order-AreDurable user now k o' db db' e =
    let preparation = make_order_reservations_permanent_before_placement now in
    let (o, found, key, passed, ran) = locked_order-runs require_draft _ k db e in
    let (mid, prepared, changed, written) =
      prepared_change-runs preparation (mark_as_placed user now) o o' db db' ran in
    let kept : make_reservations_permanent_for_order now k db ≡ ok (tt, mid) =
      ap (λ n. make_reservations_permanent_for_order now n db) (sym key)
      ∙ unfold make_order_reservations_permanent_before_placement in
        map_error-ok missing_as_invalid (make_reservations_permanent_for_order now o.pk db)
          prepared in
    let mid_is = make_permanent_writes now k db mid kept in
    let (present, temporary) = make_permanent_checks now k db mid kept in
    (
      o,
      found,
      unfold require_draft in ground arith,
      unfold mark_as_placed in ground arith,
      unfold mark_as_placed in ground arith,
      ground (arith, written, mid_is),
      ground (arith, written, mid_is),
      (present, none_durable now k db.allocations temporary),
      rw (written, mid_is) (made_durable-IsPromoted now k db.allocations),
      rw (written, mid_is) (made_durable-AreDurable now k db.allocations),
    )
