-- ===== src/Pricing/Selectors.antt =====
-- pricing/selectors.py and the query of inventory/selectors.py that they use: the offers, their
-- amounts, and the batches that an offer can be served from. A query of batches is its test.
use swedesweets_ops.Prelude.{
  ℕ, Bool, true, false, not, ◌&&◌, ◌||◌, Option, none, some, List, ◌==◌, ltb, any, filter,
  if◌then◌else◌, is_some,
}
use swedesweets_ops.Prelude.Rows.{find, first_where}
use swedesweets_ops.Inventory.Models.{InventoryBatch, active, status_eq}
use swedesweets_ops.Inventory.Expiry.{orderable_best_before_cutoff}
use swedesweets_ops.Pricing.Models.{
  CommercialPrice, PriceAmount, Channel, Currency, channel_eq, currency_eq, same_amount,
}
use swedesweets_ops.Database.{Db}

-- `offer.product.active`; a foreign key refers to a stored row.
unfoldable pub product_is_active : ℕ → Db → Bool
unfolding find
product_is_active product_pk db = elim (find (λ p. p.pk) product_pk db.products) [
  | none ↦ false
  | some p ↦ p.active
]

-- The conditions of inventory.selectors.list_orderable_batches_for_product on the batch itself.
unfoldable pub is_orderable : ℕ → InventoryBatch → Bool
unfolding status_eq orderable_best_before_cutoff
is_orderable today b =
    status_eq b.status active
    && (ltb 0 b.quantity && ltb (orderable_best_before_cutoff today) b.best_before)

unfoldable pub list_orderable_batches_for_product : ℕ → ℕ → InventoryBatch → Bool
unfolding is_orderable
list_orderable_batches_for_product today product_pk b =
    b.product_id == product_pk && is_orderable today b

unfoldable pub is_for_batch : ℕ → CommercialPrice → Bool
is_for_batch batch_pk p = elim p.batch_id [ none ↦ false | some k ↦ k == batch_pk ]

unfoldable pub is_for_product : ℕ → CommercialPrice → Bool
is_for_product product_pk p = not (is_some p.batch_id) && p.product_id == product_pk

unfoldable pub get_product_commercial_price : ℕ → Channel → Db → Option CommercialPrice
unfolding first_where is_for_product channel_eq
get_product_commercial_price product_pk channel db =
    first_where (λ p. is_for_product product_pk p && channel_eq p.channel channel) db.prices

unfoldable pub get_batch_commercial_price : ℕ → Channel → Db → Option CommercialPrice
unfolding first_where is_for_batch channel_eq
get_batch_commercial_price batch_pk channel db =
    first_where (λ p. is_for_batch batch_pk p && channel_eq p.channel channel) db.prices

-- The amounts in a currency whose offers pass a test; they are ordered by the currency alone.
unfoldable pub first_amount : (CommercialPrice → Bool) → Currency → Db → Option PriceAmount
unfolding first_where find currency_eq
first_amount test currency db =
    first_where
      (λ a.
        currency_eq a.currency currency && elim (find (λ p. p.pk) a.commercial_price_id db.prices) [
          | none ↦ false
          | some p ↦ test p
        ])
      db.amounts

unfoldable pub get_product_price_amount : ℕ → Channel → Currency → Db → Option PriceAmount
unfolding first_amount is_for_product channel_eq
get_product_price_amount product_pk channel =
    first_amount (λ p. is_for_product product_pk p && (channel_eq p.channel channel && p.enabled))

unfoldable pub get_batch_price_amount : ℕ → Channel → Currency → Db → Option PriceAmount
unfolding first_amount is_for_batch channel_eq
get_batch_price_amount batch_pk channel =
    first_amount (λ p. is_for_batch batch_pk p && (channel_eq p.channel channel && p.enabled))

unfoldable pub resolve_price_amount :
    ℕ → Channel → Currency → Option InventoryBatch → Db → Option PriceAmount
unfolding get_product_price_amount get_batch_price_amount
resolve_price_amount product_pk channel currency batch db = elim batch [
  | none ↦ get_product_price_amount product_pk channel currency db
  | some b ↦
      if not (b.product_id == product_pk)
      then none
      else elim (get_batch_price_amount b.pk channel currency db) [
        | none ↦ get_product_price_amount product_pk channel currency db
        | some a ↦ some a
      ]
]

-- `offer.amounts.filter(currency=currency).exists()`
unfoldable pub has_amount : ℕ → Currency → Db → Bool
unfolding any same_amount
has_amount price_pk currency db = any (same_amount price_pk currency) db.amounts

-- The batch is sold through an offer of its own: the subquery `excluded_batch_ids`.
unfoldable pub is_excluded_batch : Channel → Currency → Db → ℕ → Bool
unfolding any channel_eq is_for_batch has_amount
is_excluded_batch channel currency db batch_pk =
    any
      (λ p.
        (channel_eq p.channel channel && p.enabled)
        && (is_for_batch batch_pk p && has_amount p.pk currency db))
      db.prices

unfoldable pub list_orderable_batches_for_offer :
    ℕ → CommercialPrice → Currency → Db → InventoryBatch → Bool
unfolding product_is_active is_orderable list_orderable_batches_for_product is_excluded_batch
list_orderable_batches_for_offer today offer currency db b =
    if not offer.enabled || not (product_is_active offer.product_id db)
    then false
    else elim offer.batch_id [
      | some k ↦ b.pk == k && is_orderable today b
      | none ↦
          list_orderable_batches_for_product today offer.product_id b
          && not (is_excluded_batch offer.channel currency db b.pk)
    ]

-- `channels`, where None is no restriction
unfoldable pub in_channels : Option (List Channel) → CommercialPrice → Bool
unfolding any channel_eq
in_channels none p = true
in_channels (some channels) p = any (channel_eq p.channel) channels

-- The rows that are listed; their order is for the display.
unfoldable pub list_commercial_prices : Option (List Channel) → Bool → Db → List CommercialPrice
unfolding filter in_channels
list_commercial_prices channels enabled_only db =
    filter (λ p. in_channels channels p && (not enabled_only || p.enabled)) db.prices

unfoldable pub list_commercial_prices_for_product :
    ℕ → Option (List Channel) → Bool → Db → List CommercialPrice
unfolding filter list_commercial_prices
list_commercial_prices_for_product product_pk channels enabled_only db =
    filter (λ p. p.product_id == product_pk) (list_commercial_prices channels enabled_only db)
