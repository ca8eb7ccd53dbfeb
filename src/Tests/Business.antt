-- ===== src/Tests/Business.antt =====
-- Business selections are merged into an order, which is placed.
use swedesweets_ops.Prelude.{
  ℕ, ◌≡◌, ◌≤◌, ◌<◌, refl, false, arith, none, some, List, [], ◌∷◌, ok, pos, pos_part, sum_by,
  is_empty, All, IsDistinct,
}
use swedesweets_ops.Prelude.Sorting.{insert}
use swedesweets_ops.Prelude.Totals.{get_or}
use swedesweets_ops.Prelude.Rows.{find, save}
use swedesweets_ops.Pricing.Models.{business}
use swedesweets_ops.Products.Units.{stock_unit, grams}
use swedesweets_ops.Orders.Models.{Order, draft, placed}
use swedesweets_ops.Orders.Drafts.{ResolvedOrderLine}
use swedesweets_ops.Reservations.Overbooking.{NoOverbooking}
use swedesweets_ops.Reservations.Promises.{promised}
use swedesweets_ops.Retail.PaymentServices.{lines_of_order}
use swedesweets_ops.Business.Drafts.{BusinessOfferLineInput, resolve_business_offer_lines}
use swedesweets_ops.Business.MergedLines.{
  offer_key, resolved_units, selected_units, resolve_business_offer_lines-merges,
}
use swedesweets_ops.Business.Services.{place_order}
use swedesweets_ops.Business.Placing.{place_order-Reserves}
use swedesweets_ops.Tests.Data.{market, order_with, line, rows_after, value_after}
use swedesweets_ops.Database.{Db}

-- Three units, and 500 grams, of one offer.
abbrev selections : List BusinessOfferLineInput
selections =
    record { commercial_offer_id = 4; quantity = pos 3000000; unit = stock_unit }
    ∷ record { commercial_offer_id = 4; quantity = pos 500000000; unit = grams }
    ∷ []

abbrev merged : ResolvedOrderLine
merged = record {
  product_id = 7;
  quantity_in_units = pos 5;
  commercial_offer = some (record { pk = some 4; product_id = 7; channel = business });
  unit_price_snapshot = some 200;
}

merge_run : resolve_business_offer_lines selections market ≡ ok (merged ∷ [])
unfolding resolve_business_offer_lines
merge_run = refl

resolve_business_offer_lines-merges_example :
    IsDistinct offer_key (merged ∷ [])
    × All (λ r. 0 < pos_part r.quantity_in_units) (merged ∷ [])
    × ((k : ℕ)
        → sum_by (resolved_units k) (merged ∷ []) ≡ sum_by (selected_units market k) selections)
resolve_business_offer_lines-merges_example =
    resolve_business_offer_lines-merges selections market (merged ∷ []) merge_run

abbrev drafted : Db
drafted = record market {
  orders = record (order_with draft none) { channel = business } ∷ [];
  lines = record line { commercial_offer_id = 4 } ∷ [];
}

abbrev accepted : Db
accepted = rows_after (place_order 100 0 (some 2) 5 drafted)

abbrev accepted_order : Order
accepted_order = value_after (order_with placed none) (place_order 100 0 (some 2) 5 drafted)

place_run : place_order 100 0 (some 2) 5 drafted ≡ ok (accepted_order, accepted)
unfolding place_order insert get_or
place_run = refl

batches_apart : IsDistinct (λ b. b.pk) drafted.batches
batches_apart = ((ground arith, tt), (tt, tt))

sound : NoOverbooking 100 drafted
unfolding sum_by
sound = (omega arith, (omega arith, tt))

place_order-Reserves_example :
    (o : Order) × (find (λ (o : Order). o.pk) 5 drafted.orders ≡ some o)
    × (o.status ≡ draft)
    × (o.channel ≡ business)
    × (is_empty (lines_of_order 5 drafted) ≡ false)
    × (accepted_order.status ≡ placed)
    × (accepted_order.placed_at ≡ some 100)
    × (accepted.orders ≡ save (λ o. o.pk) accepted_order drafted.orders)
    × (accepted.batches ≡ drafted.batches)
    × All
        (λ l. l.quantity_in_units ≤ promised none l.pk accepted.allocations)
        (lines_of_order 5 drafted)
    × NoOverbooking 100 accepted
place_order-Reserves_example =
    place_order-Reserves 100 0 (some 2) 5 accepted_order drafted accepted batches_apart sound
      place_run
