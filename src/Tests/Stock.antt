-- ===== src/Tests/Stock.antt =====
-- A reservation, a packing, a correction and a closing.
use mathlib.Core.Path.{◌≡◌}
use swedesweets_ops.Prelude.{
  ◌+◌, refl, arith, none, some, [], ◌∷◌, ok, true, pos, Zip, contains, IsDistinct, inr,
}
use swedesweets_ops.Prelude.{sum_by}
use swedesweets_ops.Prelude.Sorting.{insert}
use swedesweets_ops.Prelude.Totals.{get_or, add_to}
use swedesweets_ops.Prelude.Texts.{text_le, text_eq}
use swedesweets_ops.Inventory.Models.{InventoryBatch, depleted, closed, normalize_location}
use swedesweets_ops.Inventory.Services.{update_batch, close_batch}
use swedesweets_ops.Inventory.Reserved.{update_batch-NoOverbooking, close_batch-NoOverbooking}
use swedesweets_ops.Reservations.Models.{is_active, is_unexpired, consumed}
use swedesweets_ops.Reservations.Selectors.{
  claimed, active_reserved_quantities_by_batch_pk, active_reserved_quantities-eq-claimed,
}
use swedesweets_ops.Reservations.Consumption.{
  InForce, held_by, consume_takes_reserved, consume-NoOverbooking,
}
use swedesweets_ops.Reservations.Readiness.{Servable, consume_reservations-succeeds}
use swedesweets_ops.Reservations.Services.{is_reserved_for}
use swedesweets_ops.Prelude.Rows.{find}
use swedesweets_ops.Prelude.{any, inr}
use swedesweets_ops.Reservations.History.{
  reserves, packs, at_first, and_then, StockHistory-NoOverbooking,
}
use swedesweets_ops.Reservations.Services.{
  reserve_order_line_from_pool, consume_reservations_for_order,
}
use swedesweets_ops.Reservations.Overbooking.{NoOverbooking, reserve-NoOverbooking}
use swedesweets_ops.Tests.Data.{batch, claim, line, shop}
use swedesweets_ops.Database.{Db}

-- Six units for the line come from the batch that expires first and from the other one.
abbrev reserved_shop : Db
reserved_shop = record shop {
  allocations = claim 20 11 1 3 ∷ claim 30 12 2 4 ∷ claim 31 12 1 2 ∷ [];
  next_pk = 32;
}

reserve_run :
    reserve_order_line_from_pool 100 line (λ b. true) (pos 6) none shop ≡ ok (tt, reserved_shop)
unfolding reserve_order_line_from_pool insert get_or
reserve_run = refl

shop-IsDistinct : IsDistinct (λ b. b.pk) shop.batches
shop-IsDistinct = ((omega arith, tt), (tt, tt))

shop_sound : NoOverbooking 100 shop
unfolding sum_by is_active
shop_sound = (omega arith, (omega arith, tt))

reserve-NoOverbooking_example : NoOverbooking 100 reserved_shop
reserve-NoOverbooking_example =
    reserve-NoOverbooking 100 line (λ b. true) (pos 6) none shop reserved_shop shop-IsDistinct
      shop_sound reserve_run

-- Packing order 5 takes five units of batch 1 and all four of batch 2.
abbrev packed_shop : Db
packed_shop = record reserved_shop {
  batches = batch 1 5 50 ∷ record (batch 2 0 40) { status = depleted } ∷ [];
  allocations =
      record (claim 20 11 1 3) { status = consumed }
      ∷ record (claim 30 12 2 4) { status = consumed }
      ∷ record (claim 31 12 1 2) { status = consumed }
      ∷ [];
}

pack_run : consume_reservations_for_order 5 reserved_shop ≡ ok (tt, packed_shop)
unfolding consume_reservations_for_order insert text_le text_eq add_to
pack_run = refl

in_force : InForce 110 5 reserved_shop.allocations
unfolding is_unexpired
in_force = (inr refl, (inr refl, (inr refl, tt)))

reserved_sound : NoOverbooking 110 reserved_shop
unfolding sum_by is_active
reserved_sound = (omega arith, (omega arith, tt))

consume_takes_reserved_example :
    Zip
      (λ b b'.
        (b'.pk ≡ b.pk) × (b'.quantity + held_by 5 b.pk reserved_shop.allocations ≡ b.quantity))
      reserved_shop.batches
      packed_shop.batches
consume_takes_reserved_example =
    consume_takes_reserved 5 reserved_shop packed_shop shop-IsDistinct pack_run

consume-NoOverbooking_example : NoOverbooking 110 packed_shop
consume-NoOverbooking_example =
    consume-NoOverbooking 110 5 reserved_shop packed_shop shop-IsDistinct in_force reserved_sound
      pack_run

-- The reservation, and ten seconds later the packing.
StockHistory-NoOverbooking_example :
    IsDistinct (λ b. b.pk) packed_shop.batches × NoOverbooking 110 packed_shop
StockHistory-NoOverbooking_example =
    StockHistory-NoOverbooking {now = 100} {db = shop} {last = 110} {db' = packed_shop}
      (and_then {t = 100}
        (and_then {t = 100} at_first (omega arith)
          (reserves line (λ b. true) (pos 6) none reserve_run))
        (omega arith) (packs 5 in_force pack_run))
      shop-IsDistinct shop_sound

active_reserved_quantities-eq-claimed_example :
    get_or (active_reserved_quantities_by_batch_pk 110 (1 ∷ 2 ∷ []) reserved_shop.allocations) 1 0
    ≡ claimed 110 1 reserved_shop.allocations
active_reserved_quantities-eq-claimed_example =
    active_reserved_quantities-eq-claimed 110 (1 ∷ 2 ∷ []) reserved_shop.allocations 1
      (unfold contains in refl)

-- Batch 1 is corrected to five units, all of which are claimed.
abbrev corrected : InventoryBatch
corrected = record (batch 1 5 60) { location = 65 ∷ []; edited_at = some 110; edited_by = some 2 }

abbrev corrected_shop : Db
corrected_shop = record reserved_shop { batches = corrected ∷ batch 2 4 40 ∷ [] }

correct_run :
    update_batch (some 2) 110 (pos 5) 60 (65 ∷ []) 1 reserved_shop ≡ ok (corrected, corrected_shop)
unfolding update_batch normalize_location
correct_run = refl

update_batch-NoOverbooking_example : NoOverbooking 110 corrected_shop
update_batch-NoOverbooking_example =
    update_batch-NoOverbooking (some 2) 110 (pos 5) 60 (65 ∷ []) 1 corrected reserved_shop
      corrected_shop reserved_sound correct_run

-- Batch 2 is closed before anything of it is claimed.
abbrev closed_batch : InventoryBatch
closed_batch = record (batch 2 4 40) { status = closed; closed_at = some 100; closed_by = some 2 }

abbrev closed_shop : Db
closed_shop = record shop { batches = batch 1 10 50 ∷ closed_batch ∷ [] }

close_run : close_batch (some 2) 100 2 shop ≡ ok (closed_batch, closed_shop)
unfolding close_batch
close_run = refl

close_batch-NoOverbooking_example :
    NoOverbooking 100 closed_shop × (claimed 100 2 closed_shop.allocations ≡ 0)
close_batch-NoOverbooking_example =
    close_batch-NoOverbooking (some 2) 100 2 closed_batch shop closed_shop shop_sound close_run

served : Servable 5 reserved_shop
unfolding find
served = (
  inr (omega arith, (batch 1 10 50, refl, refl)),
  (
    inr (omega arith, (batch 2 4 40, refl, refl)),
    (inr (omega arith, (batch 1 10 50, refl, refl)), tt),
  ),
)

consume_reservations-succeeds_example :
    (db' : Db) × (consume_reservations_for_order 5 reserved_shop ≡ ok (tt, db'))
consume_reservations-succeeds_example =
    consume_reservations-succeeds 110 5 reserved_shop reserved_sound in_force served
      (unfold any is_reserved_for in refl)
