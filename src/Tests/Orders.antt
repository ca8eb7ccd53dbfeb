-- ===== src/Tests/Orders.antt =====
-- The life of one order, its total and its packing.
use swedesweets_ops.Prelude.{
  ℕ, ◌⊎◌, ◌≡◌, ◌+◌, refl, none, some, [], ◌∷◌, ok, all, is_some, sum_by, inl, inr, arith,
  if◌then◌else◌, Zip,
}
use swedesweets_ops.Prelude.Rows.{find, save}
use swedesweets_ops.Prelude.Sorting.{insert}
use swedesweets_ops.Prelude.Texts.{text_le, text_eq, strip}
use swedesweets_ops.Prelude.Totals.{add_to}
use swedesweets_ops.Orders.Models.{
  Order, other, draft, placed, packed, cancelled, mark_as_placed, mark_as_packed, mark_as_edited,
  order_total,
}
use swedesweets_ops.Orders.Lifecycle.{
  untouched, next, places, packs, edits, IsTimely, OrderHistory-IsTimely, OrderHistory-final,
}
use swedesweets_ops.Orders.Total.{cents, order_total-sum}
use swedesweets_ops.Reservations.Models.{consumed}
use swedesweets_ops.Reservations.Consumption.{held_by}
use swedesweets_ops.Fulfillment.Services.{pack_order, cancel_order}
use swedesweets_ops.Fulfillment.Cancelling.{cancel_order-releases}
use swedesweets_ops.Reservations.Models
use swedesweets_ops.Orders.Services.{place_order}
use swedesweets_ops.Reservations.Policies.{make_order_reservations_permanent_before_placement}
use swedesweets_ops.Fulfillment.Placing.{AreHeld, IsPromoted, AreDurable, place_order-AreDurable}
use swedesweets_ops.Fulfillment.Packing.{pack_order-takes}
use swedesweets_ops.Tests.Data.{batch, claim, order_with, line, shop}
use swedesweets_ops.Database.{Db}

abbrev new_order : Order
new_order = order_with draft none

abbrev placed_order : Order
placed_order = record (order_with placed (some 95)) { placed_by = some 2; updated_at = 95 }

place_run : mark_as_placed (some 2) 95 new_order ≡ ok placed_order
unfolding mark_as_placed
place_run = refl

abbrev packed_order : Order
packed_order = record placed_order {
  status = packed;
  packed_at = some 99;
  packed_by = some 2;
  updated_at = 99;
}

pack_run : mark_as_packed (some 2) 99 placed_order ≡ ok packed_order
unfolding mark_as_packed
pack_run = refl

OrderHistory-IsTimely_example : IsTimely packed_order
OrderHistory-IsTimely_example =
    OrderHistory-IsTimely {o = new_order} {p = packed_order}
      (next (next untouched (places (some 2) 95 place_run)) (packs (some 2) 99 pack_run))
      (inl (refl, refl, refl, refl, refl))

abbrev given_up : Order
given_up = order_with cancelled none

OrderHistory-final_example : (mark_as_edited none 99 given_up).status ≡ given_up.status
OrderHistory-final_example =
    OrderHistory-final {o = given_up} {p = mark_as_edited none 99 given_up}
      (next untouched (edits none 99 refl)) (inr refl)

order_total-sum_example : order_total (line ∷ line ∷ []) ≡ (
    if all (λ l. is_some l.unit_price_snapshot) (line ∷ line ∷ [])
    then some (sum_by cents (line ∷ line ∷ []))
    else none)
order_total-sum_example = order_total-sum (line ∷ line ∷ [])

-- The order of the shop is packed: three units of batch 1 leave.
abbrev shop_order : Order
shop_order = record (order_with placed (some 80)) {
  status = packed;
  packed_at = some 99;
  packed_by = some 2;
  updated_at = 99;
}

abbrev packed_shop : Db
packed_shop = record shop {
  batches = batch 1 7 50 ∷ batch 2 4 40 ∷ [];
  orders = shop_order ∷ [];
  allocations = record (claim 20 11 1 3) { status = consumed } ∷ [];
}

shop_run : pack_order (some 2) 99 5 shop ≡ ok (shop_order, packed_shop)
unfolding pack_order insert text_le text_eq add_to
shop_run = refl

pack_order-takes_example :
    (o : Order) × (find (λ (o : Order). o.pk) 5 shop.orders ≡ some o)
    × (o.status ≡ placed)
    × (shop_order.status ≡ packed)
    × (shop_order.packed_at ≡ some 99)
    × (packed_shop.orders ≡ save (λ o. o.pk) shop_order shop.orders)
    × Zip
        (λ b b'. (b'.pk ≡ b.pk) × (b'.quantity + held_by 5 b.pk shop.allocations ≡ b.quantity))
        shop.batches
        packed_shop.batches
pack_order-takes_example =
    pack_order-takes (some 2) 99 5 shop_order shop packed_shop ((omega arith, tt), (tt, tt))
      shop_run

-- The order of the shop is cancelled: nothing leaves, and its claim is given up.
abbrev cancelled_order : Order
cancelled_order = record (order_with placed (some 80)) {
  status = cancelled;
  cancelled_at = some 99;
  cancelled_by = some 2;
  cancel_reason = other;
  cancel_note = 88 ∷ [];
  updated_at = 99;
}

abbrev released_shop : Db
released_shop = record shop {
  orders = cancelled_order ∷ [];
  allocations = record (claim 20 11 1 3) { status = Models.cancelled } ∷ [];
}

cancel_run :
    cancel_order (some 2) other (32 ∷ 88 ∷ []) 99 5 shop ≡ ok (cancelled_order, released_shop)
unfolding cancel_order
cancel_run = refl

cancel_order-releases_example :
    (o : Order) × (find (λ (o : Order). o.pk) 5 shop.orders ≡ some o)
    × ((o.status ≡ draft) ⊎ (o.status ≡ placed))
    × (cancelled_order.status ≡ cancelled)
    × (cancelled_order.cancel_note ≡ strip (32 ∷ 88 ∷ []))
    × (released_shop.orders ≡ save (λ o. o.pk) cancelled_order shop.orders)
    × (released_shop.batches ≡ shop.batches)
    × ((b : ℕ) → held_by 5 b released_shop.allocations ≡ 0)
cancel_order-releases_example =
    cancel_order-releases (some 2) other (32 ∷ 88 ∷ []) 99 5 cancelled_order shop released_shop
      cancel_run

-- A draft with a reservation until instant 200 is placed.
abbrev draft_shop : Db
draft_shop = record shop {
  orders = new_order ∷ [];
  allocations = record (claim 20 11 1 3) { reserved_until = some 200 } ∷ [];
}

abbrev placed_shop : Db
placed_shop = record shop { orders = placed_order ∷ [] }

shop_place_run :
    place_order (make_order_reservations_permanent_before_placement 95) (some 2) 95 5 draft_shop
    ≡ ok (placed_order, placed_shop)
unfolding place_order make_order_reservations_permanent_before_placement
shop_place_run = refl

place_order-AreDurable_example :
    (o : Order) × (find (λ (o : Order). o.pk) 5 draft_shop.orders ≡ some o)
    × (o.status ≡ draft)
    × (placed_order.status ≡ placed)
    × (placed_order.placed_at ≡ some 95)
    × (placed_shop.orders ≡ save (λ o. o.pk) placed_order draft_shop.orders)
    × (placed_shop.batches ≡ draft_shop.batches)
    × AreHeld 95 5 draft_shop.allocations
    × Zip (IsPromoted 95 5) draft_shop.allocations placed_shop.allocations
    × AreDurable 95 5 placed_shop.allocations
place_order-AreDurable_example =
    place_order-AreDurable (some 2) 95 5 placed_order draft_shop placed_shop shop_place_run
