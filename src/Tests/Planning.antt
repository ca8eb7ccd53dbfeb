-- ===== src/Tests/Planning.antt =====
-- A plan for a pool of two batches, and the expiry and the methods of one batch.
use swedesweets_ops.Prelude.{
  ℕ, ◌≡◌, ◌≤◌, ◌<◌, ◌↔◌, ◌⊎◌, refl, arith, none, some, List, [], ◌∷◌, ok, err, true, pos, ℤ, sum_by,
  any, inl, inr, if◌then◌else◌, invalid_stock_operation, ◌&&◌, ltb, leb, ◌==◌, ◌-◌,
}
use swedesweets_ops.Prelude.Totals.{Dict, total_of, get_or}
use swedesweets_ops.Prelude.Sorting.{insert, IsSorted}
use swedesweets_ops.Reservations.Planning.{
  BatchAvailability, BatchPick, plan_batch_picks, fefo_le, allocatable_quantity, has_one_product,
  insufficient,
}
use swedesweets_ops.Reservations.Planning.Loop.{DrainsInOrder, capacity}
use swedesweets_ops.Reservations.Planning.Fefo.{
  IsPool, plan_batch_picks-fefo, picked-le-free, plan_succeeds_iff, plan_insufficient,
}
use swedesweets_ops.Inventory.Models.{
  InventoryBatch, active, depleted, closed, status_eq, pick, close, mark_batch_as_edited,
}
use swedesweets_ops.Inventory.Stock.{
  pick_exact, IsConsistent, fresh, later, picked, edited, BatchHistory-IsConsistent,
  BatchHistory-closed,
}
use swedesweets_ops.Inventory.Expiry.{
  build_expiry_info, is_orderable_best_before, expires_in, best_before_label, orderable_iff_label,
}
use swedesweets_ops.Tests.Data.{batch}
use mathlib.Core.List.{Perm}

abbrev stocked : ℕ → ℕ → ℕ → BatchAvailability
stocked k n day = record {
  batch_pk = k;
  batch_code = 66 ∷ [];
  product_id = 7;
  physical_quantity = pos n;
  best_before = day;
}

abbrev pool : List BatchAvailability
pool = stocked 1 10 50 ∷ stocked 2 4 40 ∷ []

abbrev taken : Dict ℤ
taken = (1, pos 3) ∷ []

abbrev picks : List BatchPick
picks = record { batch_pk = 2; quantity = 4 } ∷ record { batch_pk = 1; quantity = 2 } ∷ []

plan_run : plan_batch_picks pool (pos 6) taken ≡ ok picks
unfolding plan_batch_picks insert get_or
plan_run = refl

pool-IsPool : IsPool pool taken
unfolding has_one_product any
pool-IsPool = record { one_product = refl; physical_nonneg = refl; reserved_nonneg = refl }

plan_batch_picks-fefo_example :
    (ordered : List BatchAvailability) × Perm ordered pool
    × IsSorted fefo_le ordered
    × DrainsInOrder taken ordered 6 picks
plan_batch_picks-fefo_example = plan_batch_picks-fefo pool (pos 6) taken picks plan_run

picked-le-free_example :
    total_of (λ p. p.batch_pk) (λ p. p.quantity) 1 picks
    ≤ total_of (λ b. b.batch_pk) (allocatable_quantity taken) 1 pool
picked-le-free_example = picked-le-free pool (pos 6) taken picks 1 plan_run

plan_succeeds_iff_example :
    ((made : List BatchPick) × (plan_batch_picks pool (pos 11) taken ≡ ok made))
    ↔ (11 ≤ capacity taken pool)
plan_succeeds_iff_example = plan_succeeds_iff pool 11 taken (omega arith) pool-IsPool

too_few : capacity taken pool < 12
unfolding sum_by allocatable_quantity get_or
too_few = omega arith

plan_insufficient_example :
    plan_batch_picks pool (pos 12) taken ≡ insufficient 12 (capacity taken pool)
plan_insufficient_example = plan_insufficient pool 12 taken pool-IsPool too_few

-- All ten units are picked.
pick_exact_example : pick (pos 10) (batch 1 10 50) ≡ (
    if (ltb 0 10 && leb 10 10) && status_eq active active
    then ok (record (batch 1 10 50) {
      quantity = 10 - 10;
      status = if 10 == 10 then depleted else active;
    })
    else err invalid_stock_operation)
pick_exact_example = pick_exact (pos 10) (batch 1 10 50)

abbrev used_up : InventoryBatch
used_up = record (batch 1 0 50) { status = depleted }

pick_run : pick (pos 10) (batch 1 10 50) ≡ ok used_up
unfolding pick
pick_run = refl

abbrev put_away : InventoryBatch
put_away = record used_up { status = closed; closed_at = some 9; closed_by = none }

close_run : close none 9 used_up ≡ ok put_away
unfolding close
close_run = refl

BatchHistory-IsConsistent_example : IsConsistent used_up
BatchHistory-IsConsistent_example =
    BatchHistory-IsConsistent {b = batch 1 10 50} {c = used_up}
      (later fresh (picked (pos 10) pick_run)) (inr (inl (refl, omega arith)))

mark_run : mark_batch_as_edited none 9 put_away ≡ ok (record put_away { edited_at = some 9 })
unfolding mark_batch_as_edited
mark_run = refl

BatchHistory-closed_example : (put_away.status ≡ closed) × (put_away.quantity ≡ put_away.quantity)
BatchHistory-closed_example =
    BatchHistory-closed {b = put_away} {c = record put_away { edited_at = some 9 }}
      (later fresh (edited none 9 mark_run)) refl

orderable_iff_label_example : (is_orderable_best_before 100 60 ≡ true) ↔ (
    ((build_expiry_info 100 60).label ≡ expires_in)
    ⊎ ((build_expiry_info 100 60).label ≡ best_before_label))
orderable_iff_label_example = orderable_iff_label 100 60
