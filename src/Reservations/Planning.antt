-- ===== src/Reservations/Planning.antt =====
-- reservations/planning.py: picks from one product's batches, first expired first out.
pub mod Loop
pub mod Fefo
use swedesweets_ops.Prelude.{
  ℕ, ◌+◌, ◌-◌, min, Bool, true, false, not, ◌&&◌, ◌||◌, List, [], ◌∷◌, ◌++◌, ltb, leb, ◌==◌,
  if◌then◌else◌, any, all, Result, ok, err, ◌>>=◌, ◌>>◌, raise_if, invalid_reservation_plan,
  insufficient_reservation_capacity, ℤ, pos, pos_part, is_negative, is_nonpositive, ◌-ℤ◌,
}
use swedesweets_ops.Prelude.Texts.{Text, text_eq, text_le}
use swedesweets_ops.Prelude.Totals.{Dict, get_or}
use swedesweets_ops.Prelude.Sorting.{sort}

pub record BatchAvailability : Type 0 where
  pub batch_pk : ℕ
  pub batch_code : Text
  pub product_id : ℕ
  pub physical_quantity : ℤ
  pub best_before : ℕ

pub record BatchPick : Type 0 where
  pub batch_pk : ℕ
  pub quantity : ℕ

-- InsufficientReservationCapacity(requested, available), with the missing quantity that it carries.
abbrev pub insufficient {ℓ} : {A : Type ℓ} → ℕ → ℕ → Result A
insufficient requested available =
    err (insufficient_reservation_capacity requested available (requested - available))

-- The comparison of the sort keys (best_before, batch_code, batch_pk).
unfoldable pub fefo_le : BatchAvailability → BatchAvailability → Bool
fefo_le a b =
    ltb a.best_before b.best_before
    || (a.best_before == b.best_before
        && ((text_le a.batch_code b.batch_code && not (text_eq a.batch_code b.batch_code))
            || (text_eq a.batch_code b.batch_code && leb a.batch_pk b.batch_pk)))

-- `max(physical_quantity - reserved.get(batch_pk, 0), 0)`
unfoldable pub allocatable_quantity : Dict ℤ → BatchAvailability → ℕ
allocatable_quantity reserved b =
    pos_part (b.physical_quantity -ℤ get_or reserved b.batch_pk (pos 0))

-- `len({batch.product_id for batch in pool}) == 1`, for a pool that is not empty
unfoldable pub has_one_product : List BatchAvailability → Bool
unfolding all
has_one_product [] = true
has_one_product (b ∷ bs) = all (λ c. c.product_id == b.product_id) bs

-- The loop over the ordered batches: the quantity still wanted, the quantity that was found to be
-- available so far, and the picks made so far.
unfoldable pub pick_batches :
    Dict ℤ → ℕ → List BatchAvailability → ℕ → ℕ → List BatchPick → Result (List BatchPick)
unfolding allocatable_quantity
pick_batches reserved requested [] remaining total picks = insufficient requested total
pick_batches reserved requested (b ∷ bs) remaining total picks =
    let allocatable = allocatable_quantity reserved b in
    let quantity_to_pick = min allocatable remaining in
    let picks' = picks ++ record { batch_pk = b.batch_pk; quantity = quantity_to_pick } ∷ [] in
    let skip = pick_batches reserved requested bs remaining (total + allocatable) picks in
    let more =
      pick_batches reserved requested bs (remaining - quantity_to_pick) (total + allocatable)
        picks' in
    if allocatable == 0 then skip else if remaining - quantity_to_pick == 0 then ok picks' else more

unfoldable pub plan_batch_picks : List BatchAvailability → ℤ → Dict ℤ → Result (List BatchPick)
unfolding any has_one_product fefo_le sort pick_batches
plan_batch_picks [] requested reserved =
    if is_nonpositive requested
    then err invalid_reservation_plan
    else insufficient (pos_part requested) 0
plan_batch_picks (b ∷ bs) requested reserved = do
  raise_if (is_nonpositive requested) invalid_reservation_plan
  raise_if (not (has_one_product (b ∷ bs))) invalid_reservation_plan
  raise_if (any (λ c. is_negative c.physical_quantity) (b ∷ bs)) invalid_reservation_plan
  raise_if (any (λ e. is_negative e.1) reserved) invalid_reservation_plan
  pick_batches reserved (pos_part requested) (sort fefo_le (b ∷ bs)) (pos_part requested) 0 []
