-- ===== src/Reservations/Services.antt =====
-- reservations/services.py: reserving stock for an order line, and what becomes of an order's
-- reservations. Text columns are ordered by code points.
use swedesweets_ops.Prelude.{
  ℕ, ◌+◌, Bool, not, ◌&&◌, ◌||◌, Option, none, some, List, [], ◌∷◌, ◌++◌, map, ltb, leb, ◌==◌,
  if◌then◌else◌, is_some, filter, any, all, Result, ok, err, raise_if, key_error,
  missing_reservations, invalid_reservation_pool, ℤ, pos,
}
use swedesweets_ops.Prelude.{length}
use swedesweets_ops.Prelude.Texts.{text_eq, text_le}
use swedesweets_ops.Prelude.Rows.{find, save, for_each, update_where}
use swedesweets_ops.Prelude.Totals.{Dict, totals_from}
use swedesweets_ops.Prelude.Sorting.{sort}
use swedesweets_ops.Inventory.Models.{InventoryBatch, pick}
use swedesweets_ops.Orders.Models.{OrderLine}
use swedesweets_ops.Reservations.Models.{
  Allocation, reserved, allocation_status_eq, is_unexpired, consume, cancel_allocation,
}
use swedesweets_ops.Reservations.Planning.{BatchAvailability, BatchPick, plan_batch_picks}
use swedesweets_ops.Reservations.Selectors.{active_reserved_quantities_by_batch_pk}
use swedesweets_ops.Database.{Db, Action, ⊤, lift, gets, modify, ◌>>=◌, ◌>>◌}

-- `.order_by("best_before", "batch_id", …)`, the last column aside
unfoldable pub stock_lt : InventoryBatch → InventoryBatch → Bool
stock_lt a b =
    ltb a.best_before b.best_before
    || (a.best_before == b.best_before
        && (text_le a.batch_id b.batch_id && not (text_eq a.batch_id b.batch_id)))

unfoldable pub stock_tie : InventoryBatch → InventoryBatch → Bool
stock_tie a b = a.best_before == b.best_before && text_eq a.batch_id b.batch_id

unfoldable pub batch_order_le : InventoryBatch → InventoryBatch → Bool
unfolding stock_lt stock_tie
batch_order_le a b = stock_lt a b || (stock_tie a b && leb a.pk b.pk)

-- The same order for allocations, by the batches that they belong to.
unfoldable pub allocation_order_le : List InventoryBatch → Allocation → Allocation → Bool
unfolding find stock_lt stock_tie
allocation_order_le batches a b = elim (find (λ c. c.pk) a.batch_id batches) [
  | none ↦ leb a.pk b.pk
  | some x ↦ elim (find (λ c. c.pk) b.batch_id batches) [
    | none ↦ leb a.pk b.pk
    | some y ↦ stock_lt x y || (stock_tie x y && leb a.pk b.pk)
  ]
]

-- `_validate_pool`
unfoldable pub validate_pool : OrderLine → List InventoryBatch → Result ⊤
unfolding all
validate_pool line [] = ok tt
validate_pool line (b ∷ bs) =
    if not (all (λ c. c.product_id == b.product_id) bs)
    then err invalid_reservation_pool
    else raise_if (not (b.product_id == line.product_id)) invalid_reservation_pool

unfoldable pub planning_batch : InventoryBatch → BatchAvailability
planning_batch b = record {
  batch_pk = b.pk;
  batch_code = b.batch_id;
  product_id = b.product_id;
  physical_quantity = pos b.quantity;
  best_before = b.best_before;
}

-- The rows of `bulk_create`, with keys from the sequence.
unfoldable pub new_allocations : OrderLine → Option ℕ → ℕ → List BatchPick → List Allocation
new_allocations line reserved_until pk [] = []
new_allocations line reserved_until pk (p ∷ picks) =
    record {
      pk = pk;
      order_id = line.order_id;
      order_line_id = line.pk;
      batch_id = p.batch_pk;
      quantity = p.quantity;
      status = reserved;
      reserved_until = reserved_until;
    }
    ∷ new_allocations line reserved_until (pk + 1) picks

-- The reserved quantities as the planner takes them.
abbrev pub as_ints : Dict ℕ → Dict ℤ
as_ints = map (λ e. (e.0, pos e.1))

-- The picks for a line from the batches that pass the query `pool`, at the instant `now`.
unfoldable pub plan_for_line :
    ℕ → OrderLine → (InventoryBatch → Bool) → ℤ → Db → Result (List BatchPick)
unfolding filter sort batch_order_le validate_pool planning_batch plan_batch_picks
    active_reserved_quantities_by_batch_pk
plan_for_line now line pool quantity db =
    let locked_batches = sort batch_order_le (filter pool db.batches) in
    let reserved_quantities =
      active_reserved_quantities_by_batch_pk now (map (λ b. b.pk) locked_batches) db.allocations in
    elim (validate_pool line locked_batches) [
      | err e ↦ err e
      | ok u ↦
          plan_batch_picks (map planning_batch locked_batches) quantity
            (as_ints reserved_quantities)
    ]

unfoldable pub add_allocations : OrderLine → Option ℕ → List BatchPick → Db → Db
unfolding new_allocations
add_allocations line reserved_until picks db = record db {
  allocations = db.allocations ++ new_allocations line reserved_until db.next_pk picks;
  next_pk = db.next_pk + length picks;
}

unfoldable pub reserve_order_line_from_pool :
    ℕ → OrderLine → (InventoryBatch → Bool) → ℤ → Option ℕ → Action ⊤
unfolding plan_for_line add_allocations
reserve_order_line_from_pool now line pool quantity reserved_until = do
  planned ← gets (plan_for_line now line pool quantity)
  picks ← lift planned
  modify (add_allocations line reserved_until picks)

-- `.filter(order=order, status=RESERVED)`
unfoldable pub is_reserved_for : ℕ → Allocation → Bool
unfolding allocation_status_eq
is_reserved_for order_pk a = a.order_id == order_pk && allocation_status_eq a.status reserved

abbrev pub with_allocations : List Allocation → Db → Db
with_allocations rows db = record db { allocations = rows }

-- Each selected row is changed by a method and saved; the first exception ends it.
unfoldable pub change_allocations :
    (Allocation → Bool) → (Allocation → Result Allocation) → Action ⊤
unfolding for_each
change_allocations selected method = do
  changed ← gets (λ db. for_each selected method db.allocations)
  rows ← lift changed
  modify (with_allocations rows)

unfoldable pub cancel_reservations_for_order : ℕ → Action ⊤
unfolding is_reserved_for change_allocations cancel_allocation
cancel_reservations_for_order order_pk =
    change_allocations (is_reserved_for order_pk) cancel_allocation

unfoldable pub cancel_temporary_reservations_for_order : ℕ → Action ⊤
unfolding is_reserved_for change_allocations cancel_allocation
cancel_temporary_reservations_for_order order_pk =
    change_allocations (λ a. is_reserved_for order_pk a && is_some a.reserved_until)
      cancel_allocation

unfoldable pub delete_reservations_for_order : ℕ → Action ⊤
unfolding is_reserved_for filter
delete_reservations_for_order order_pk =
    modify λ db. with_allocations (filter (λ a. not (is_reserved_for order_pk a)) db.allocations) db

-- `locked_batches[batch_pk].pick(quantity=…)`
unfoldable pub pick_from : ℕ → ℕ → List InventoryBatch → Result InventoryBatch
unfolding find pick
pick_from k q batches = elim (find (λ c. c.pk) k batches) [
  | none ↦ err key_error
  | some b ↦ pick (pos q) b
]

-- The loop of physical picks over the totals by batch.
unfoldable pub pick_all : Dict ℕ → List InventoryBatch → Result (List InventoryBatch)
unfolding pick_from save
pick_all [] batches = ok batches
pick_all ((k, q) ∷ totals) batches = elim (pick_from k q batches) [
  | err e ↦ err e
  | ok b ↦ pick_all totals (save (λ c. c.pk) b batches)
]

-- The order's reserved units by batch, in the order in which the batches are picked.
unfoldable pub reserved_totals : ℕ → Db → Dict ℕ
unfolding is_reserved_for filter sort allocation_order_le totals_from
reserved_totals order_pk db =
    totals_from (λ a. a.batch_id) (λ a. a.quantity)
      (sort (allocation_order_le db.batches) (filter (is_reserved_for order_pk) db.allocations)) []

unfoldable pub consume_reservations_for_order : ℕ → Action ⊤
unfolding is_reserved_for any reserved_totals pick_all change_allocations consume
consume_reservations_for_order order_pk = do
  present ← gets (λ db. any (is_reserved_for order_pk) db.allocations)
  lift (raise_if (not present) missing_reservations)
  picked ← gets (λ db. pick_all (reserved_totals order_pk db) db.batches)
  batches ← lift picked
  modify (λ db. record db { batches = batches })
  change_allocations (is_reserved_for order_pk) consume

unfoldable pub make_reservations_permanent_for_order : ℕ → ℕ → Action ⊤
unfolding is_reserved_for is_unexpired any update_where
make_reservations_permanent_for_order now order_pk = do
  let selected = λ (a : Allocation). is_reserved_for order_pk a && is_unexpired now a
  present ← gets (λ db. any selected db.allocations)
  lift (raise_if (not present) missing_reservations)
  durable ← gets (λ db. any (λ a. selected a && not (is_some a.reserved_until)) db.allocations)
  lift (raise_if durable invalid_reservation_pool)
  modify λ db.
      with_allocations
        (update_where selected (λ a. record a { reserved_until = none }) db.allocations) db
