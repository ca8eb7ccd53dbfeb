-- ===== src/Tests/Data.antt =====
-- The rows that the tests run on.
use swedesweets_ops.Prelude.{ℕ, true, Option, none, some, [], ◌∷◌, Result, ok, err}
use swedesweets_ops.Inventory.Models.{InventoryBatch, active}
use swedesweets_ops.Pricing.Models.{
  CommercialPrice, PriceAmount, Channel, business, retail, eur, ordinary,
}
use swedesweets_ops.Products.Models.{Product}
use swedesweets_ops.Retail.Models.{RetailPostalArea}
use swedesweets_ops.Orders.Models.{
  Order, OrderStatus, OrderLine, placed, no_buyer, no_reason, stock_unit,
}
use swedesweets_ops.Reservations.Models.{Allocation, reserved}
use swedesweets_ops.Database.{Db}

abbrev pub batch : ℕ → ℕ → ℕ → InventoryBatch
batch k n day = record {
  pk = k;
  batch_id = 66 ∷ [];
  product_id = 7;
  quantity = n;
  best_before = day;
  location = [];
  status = active;
  edited_at = none;
  closed_at = none;
  created_by = none;
  edited_by = none;
  closed_by = none;
}

abbrev pub claim : ℕ → ℕ → ℕ → ℕ → Allocation
claim k line on n = record {
  pk = k;
  order_id = 5;
  order_line_id = line;
  batch_id = on;
  quantity = n;
  status = reserved;
  reserved_until = none;
}

abbrev pub order_with : OrderStatus → Option ℕ → Order
order_with s at = record {
  pk = 5;
  channel = retail;
  currency = eur;
  customer = none;
  buyer = no_buyer;
  status = s;
  updated_at = 90;
  edited_at = none;
  placed_at = at;
  packed_at = none;
  delivered_at = none;
  cancelled_at = none;
  edited_by = none;
  placed_by = none;
  packed_by = none;
  delivered_by = none;
  cancelled_by = none;
  cancel_reason = no_reason;
  cancel_note = [];
}

abbrev pub line : OrderLine
line = record {
  pk = 12;
  order_id = 5;
  product_id = 7;
  quantity = 6;
  unit = stock_unit;
  quantity_in_units = 6;
  unit_price_snapshot = some 250;
  commercial_offer_id = 3;
}

-- Two batches, of which three units of the first are claimed by the placed order 5.
abbrev pub shop : Db
shop = record {
  batches = batch 1 10 50 ∷ batch 2 4 40 ∷ [];
  orders = order_with placed (some 80) ∷ [];
  lines = line ∷ [];
  allocations = claim 20 11 1 3 ∷ [];
  attempts = [];
  checkouts = [];
  selections = [];
  products = [];
  prices = [];
  amounts = [];
  areas = [];
  carts = [];
  cart_lines = [];
  customers = [];
  next_pk = 30;
}

abbrev pub bag : Product
bag = record { pk = 7; weight_per_unit = 250; active = true }

abbrev pub price : ℕ → Channel → Option ℕ → CommercialPrice
price k channel batch_pk = record {
  pk = k;
  product_id = 7;
  batch_id = batch_pk;
  channel = channel;
  reason = ordinary;
  enabled = true;
}

abbrev pub amount : ℕ → ℕ → ℕ → PriceAmount
amount k price_pk cents = record {
  pk = k;
  commercial_price_id = price_pk;
  currency = eur;
  price = cents;
  original_price = none;
}

abbrev pub town : RetailPostalArea
town = record { country_code = 83 ∷ []; postal_code = 49 ∷ []; city = 85 ∷ []; enabled = true }

-- Two batches of one product, an ordinary retail offer, a retail offer of the second batch and a
-- business offer, and an empty cart.
abbrev pub market : Db
market = record shop {
  orders = [];
  lines = [];
  allocations = [];
  products = bag ∷ [];
  prices = price 3 retail none ∷ price 4 business none ∷ price 6 retail (some 2) ∷ [];
  amounts = amount 8 3 250 ∷ amount 9 4 200 ∷ amount 10 6 100 ∷ [];
  areas = town ∷ [];
  carts = record { pk = 1 } ∷ [];
}

-- The rows after a run, or `market` after an exception.
abbrev pub rows_after : {A : Type 0} → Result (A × Db) → Db
rows_after (ok r) = r.1
rows_after (err e) = market

-- The value that a run gives.
abbrev pub value_after : {A : Type 0} → A → Result (A × Db) → A
value_after other (ok r) = r.0
value_after other (err e) = other
