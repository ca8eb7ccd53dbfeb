-- ===== src/Pricing/Services.antt =====
-- pricing/services.py: the changes of offers and of their amounts. A price is a Decimal in cents.
use swedesweets_ops.Prelude.{
  Error, if◌then◌else◌, ℕ, ◌+◌, Bool, true, false, not, ◌&&◌, ◌||◌, Option, none, some, List, [],
  ◌∷◌, ◌++◌, ◌==◌, ltb, any, filter, Result, ok, err, raise_if, is_some, invalid_commercial_price,
  integrity_error, data_error, does_not_exist, ℤ, pos_part, is_nonpositive,
}
use swedesweets_ops.Prelude.Rows.{find, first_where, save}
use swedesweets_ops.Products.Models.{Product}
use swedesweets_ops.Inventory.Models.{InventoryBatch}
use swedesweets_ops.Pricing.Models.{
  CommercialPrice, PriceAmount, Channel, business, Currency, PriceReason, ordinary, channel_eq,
  same_scope, same_amount,
}
use swedesweets_ops.Pricing.Selectors.{get_product_commercial_price}
use swedesweets_ops.Database.{Db, Action, ⊤, pure, raise, gets, lift, modify, get_row, ◌>>=◌, ◌>>◌}

-- `original_price is not None and original_price < price`, for positive prices
unfoldable pub is_below : Option ℤ → ℤ → Bool
is_below none price = false
is_below (some original) price = ltb (pos_part original) (pos_part price)

-- `_validate_amounts`
unfoldable pub validate_amounts : ℤ → Option ℤ → Result ⊤
unfolding is_below
validate_amounts price original =
    raise_if
      (is_nonpositive price
        || (elim original [ none ↦ false | some o ↦ is_nonpositive o ] || is_below original price))
      invalid_commercial_price

-- DecimalField(max_digits=10, decimal_places=2), in cents
abbrev pub amount_limit : ℕ
amount_limit = 10000000000

unfoldable pub fits_column : ℤ → Option ℤ → Bool
fits_column price original =
    ltb (pos_part price) amount_limit
    && elim original [ none ↦ true | some o ↦ ltb (pos_part o) amount_limit ]

-- Another stored offer has the scope of this one.
unfoldable pub scope_is_taken : CommercialPrice → List CommercialPrice → Bool
unfolding any same_scope
scope_is_taken p prices = any (λ q. not (q.pk == p.pk) && same_scope p q) prices

-- The batch that an offer is for, if any, is stored and belongs to the product.
unfoldable pub batch_fits : CommercialPrice → Db → Bool
unfolding find
batch_fits p db = elim p.batch_id [
  | none ↦ true
  | some k ↦ elim (find (λ (b : InventoryBatch). b.pk) k db.batches) [
    | none ↦ false
    | some b ↦ b.product_id == p.product_id
  ]
]

-- `commercial_price.full_clean()`, whose ValidationError the callers turn into
-- InvalidCommercialPrice: foreign keys, CommercialPrice.clean and the unique constraints.
unfoldable pub full_clean : CommercialPrice → Db → Result ⊤
unfolding find batch_fits scope_is_taken
full_clean p db =
    raise_if
      (not (is_some (find (λ (q : Product). q.pk) p.product_id db.products))
        || (not (batch_fits p db) || scope_is_taken p db.prices))
      invalid_commercial_price

abbrev pub insert_row : CommercialPrice → Db → Db
insert_row p db = record db { prices = db.prices ++ p ∷ []; next_pk = db.next_pk + 1 }

abbrev pub new_price : ℕ → Option ℕ → Channel → PriceReason → Bool → ℕ → CommercialPrice
new_price product_pk batch channel reason enabled pk = record {
  pk = pk;
  product_id = product_pk;
  batch_id = batch;
  channel = channel;
  reason = reason;
  enabled = enabled;
}

-- `CommercialPrice.objects.create(…)`, under the unique constraints
unfoldable pub insert_price : (ℕ → CommercialPrice) → Action CommercialPrice
unfolding scope_is_taken
insert_price row = do
  pk ← gets (λ db. db.next_pk)
  let p = row pk
  taken ← gets (λ db. scope_is_taken p db.prices)
  lift (raise_if taken integrity_error)
  modify (insert_row p)
  pure p

unfoldable is_integrity_error : Error → Bool
is_integrity_error integrity_error = true
is_integrity_error _ = false

-- `except IntegrityError`, after the rows are what they were
unfoldable pub on_integrity_error : {A : Type 0} → Action A → Action A → Action A
unfolding is_integrity_error
on_integrity_error action handler db = elim (action db) [
  | ok r ↦ ok r
  | err e ↦ if is_integrity_error e then handler db else err e
]

-- The query `duplicate_exists`.
unfoldable pub duplicate_exists : ℕ → Option ℕ → Channel → Db → Bool
unfolding any channel_eq
duplicate_exists product_pk batch channel db =
    any
      (λ q. channel_eq q.channel channel && elim batch [
        | none ↦ q.product_id == product_pk && not (is_some q.batch_id)
        | some b ↦ elim q.batch_id [ none ↦ false | some c ↦ c == b ]
      ])
      db.prices

unfoldable pub create_commercial_price :
    ℕ → Channel → Option ℕ → PriceReason → Action CommercialPrice
unfolding duplicate_exists full_clean insert_price on_integrity_error
create_commercial_price product_pk channel batch reason = do
  duplicate ← gets (duplicate_exists product_pk batch channel)
  lift (raise_if duplicate invalid_commercial_price)
  pk ← gets (λ db. db.next_pk)
  cleaned ← gets (full_clean (new_price product_pk batch channel reason false pk))
  lift cleaned
  on_integrity_error (insert_price (new_price product_pk batch channel reason false))
      (raise invalid_commercial_price)

-- `CommercialPrice.objects.select_for_update().get(pk=commercial_price.pk)`
unfoldable pub lock_price : ℕ → Action CommercialPrice
unfolding get_row
lock_price price_pk = do
  row ← gets (λ db. get_row (λ (p : CommercialPrice). p.pk) price_pk db.prices)
  lift row

unfoldable pub save_price : CommercialPrice → Action ⊤
unfolding save
save_price p = modify λ db. record db { prices = save (λ q. q.pk) p db.prices }

unfoldable pub amount_row : ℕ → Currency → ℤ → Option ℤ → ℕ → PriceAmount
amount_row price_pk currency price original pk = record {
  pk = pk;
  commercial_price_id = price_pk;
  currency = currency;
  price = pos_part price;
  original_price = elim original [ none ↦ none | some o ↦ some (pos_part o) ];
}

-- `update_or_create` of the amount in one currency
unfoldable pub write_amount : (ℕ → PriceAmount) → ℕ → Currency → Db → Db
unfolding first_where same_amount save
write_amount row price_pk currency db =
    elim (first_where (same_amount price_pk currency) db.amounts) [
      | none ↦ record db { amounts = db.amounts ++ row db.next_pk ∷ []; next_pk = db.next_pk + 1 }
      | some a ↦ record db { amounts = save (λ x. x.pk) (row a.pk) db.amounts }
    ]

unfoldable pub set_price_amount : ℕ → Currency → ℤ → Option ℤ → Action ⊤
unfolding lock_price validate_amounts fits_column amount_row write_amount
set_price_amount price_pk currency price original = do
  p ← lock_price price_pk
  lift (validate_amounts price original)
  lift (raise_if (not (fits_column price original)) data_error)
  modify (write_amount (amount_row p.pk currency price original) p.pk currency)

unfoldable pub remove_price_amount : ℕ → Currency → Action ⊤
unfolding lock_price filter same_amount
remove_price_amount price_pk currency = do
  p ← lock_price price_pk
  modify λ db. record db { amounts = filter (λ a. not (same_amount p.pk currency a)) db.amounts }

unfoldable pub set_commercial_price_reason : ℕ → PriceReason → Action CommercialPrice
unfolding lock_price full_clean save_price
set_commercial_price_reason price_pk reason = do
  p ← lock_price price_pk
  let p' = record p { reason = reason }
  cleaned ← gets (full_clean p')
  lift cleaned
  save_price p'
  pure p'

unfoldable pub set_commercial_price_enabled : ℕ → Bool → Action CommercialPrice
unfolding lock_price save_price
set_commercial_price_enabled price_pk enabled = do
  p ← lock_price price_pk
  let p' = record p { enabled = enabled }
  save_price p'
  pure p'

-- `CommercialPrice.objects.get(product=…, channel=…, batch__isnull=True)`
unfoldable pub get_standard_offer : ℕ → Channel → Action CommercialPrice
unfolding get_product_commercial_price
get_standard_offer product_pk channel = do
  found ← gets (get_product_commercial_price product_pk channel)
  elim found [ none ↦ raise does_not_exist | some p ↦ pure p ]

unfoldable pub ensure_standard_offer : ℕ → Channel → Action CommercialPrice
unfolding channel_eq get_product_commercial_price insert_price on_integrity_error get_standard_offer
ensure_standard_offer product_pk channel = do
  lift (raise_if (not (channel_eq channel business)) invalid_commercial_price)
  existing ← gets (get_product_commercial_price product_pk channel)
  elim existing [
    | some p ↦ pure p
    | none ↦
        on_integrity_error (insert_price (new_price product_pk none channel ordinary true))
          (get_standard_offer product_pk channel)
  ]
