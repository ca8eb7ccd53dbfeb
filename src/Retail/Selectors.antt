-- ===== src/Retail/Selectors.antt =====
-- retail/selectors.py: the batches that a retail offer can be served from.
use swedesweets_ops.Prelude.{ℕ, Bool, false, not, ◌&&◌, Option, none, some, ◌==◌, if◌then◌else◌}
use swedesweets_ops.Prelude.Rows.{first_where}
use swedesweets_ops.Prelude.Sorting.{sort}
use swedesweets_ops.Inventory.Models.{InventoryBatch}
use swedesweets_ops.Reservations.Services.{batch_order_le}
use swedesweets_ops.Pricing.Models.{
  CommercialPrice, PriceAmount, Currency, retail, channel_eq, is_batch_specific,
}
use swedesweets_ops.Pricing.Selectors.{
  get_product_price_amount, get_batch_price_amount, list_orderable_batches_for_offer,
}
use swedesweets_ops.Database.{Db}

unfoldable pub retail_amount : CommercialPrice → Currency → Db → Option PriceAmount
unfolding get_product_price_amount get_batch_price_amount
retail_amount p currency db = elim p.batch_id [
  | some b ↦ get_batch_price_amount b retail currency db
  | none ↦ get_product_price_amount p.product_id retail currency db
]

unfoldable pub list_batches_for_retail_price :
    ℕ → CommercialPrice → Currency → Db → InventoryBatch → Bool
unfolding channel_eq retail_amount list_orderable_batches_for_offer
list_batches_for_retail_price today p currency db b =
    if not (channel_eq p.channel retail) then false else elim (retail_amount p currency db) [
      | none ↦ false
      | some a ↦
          a.commercial_price_id == p.pk && list_orderable_batches_for_offer today p currency db b
    ]

-- The first of the batches in the order of the stock.
unfoldable pub get_batch_for_retail_price :
    ℕ → CommercialPrice → Currency → Db → Option InventoryBatch
unfolding is_batch_specific first_where list_batches_for_retail_price sort batch_order_le
get_batch_for_retail_price today p currency db =
    if not (is_batch_specific p)
    then none
    else first_where (list_batches_for_retail_price today p currency db)
        (sort batch_order_le db.batches)
