-- ===== src/Retail/Carts.antt =====
-- retail/services.py: the offers that retail sells, and the mutable carts of selected offers.
use swedesweets_ops.Prelude.{
  ℕ, ◌+◌, Bool, not, ◌&&◌, none, some, List, [], ◌∷◌, ◌++◌, ◌==◌, filter, Result, ok, err, raise_if,
  if◌then◌else◌, invalid_retail_cart, invalid_retail_order, ℤ, pos, ◌+ℤ◌, pos_part,
}
use swedesweets_ops.Prelude.Rows.{find, first_where, save}
use swedesweets_ops.Pricing.Models.{
  CommercialPrice, PriceAmount, Currency, eur, retail, channel_eq, same_amount,
}
use swedesweets_ops.Pricing.Selectors.{product_is_active}
use swedesweets_ops.Retail.Models.{RetailCart, RetailCartLine}
use swedesweets_ops.Retail.Rules.{is_valid_retail_line_quantity}
use swedesweets_ops.Database.{Db, Action, ⊤, pure, gets, lift, modify, ◌>>=◌, ◌>>◌}

-- `_validate_cart_quantity`
unfoldable pub validate_cart_quantity : ℤ → Result ⊤
unfolding is_valid_retail_line_quantity
validate_cart_quantity quantity =
    raise_if (not (is_valid_retail_line_quantity quantity)) invalid_retail_cart

-- `_get_retail_price_and_amount`
unfoldable pub get_retail_price_and_amount :
    ℕ → Currency → Db → Result (CommercialPrice × PriceAmount)
unfolding find channel_eq product_is_active first_where same_amount
get_retail_price_and_amount price_pk currency db =
    elim (find (λ (p : CommercialPrice). p.pk) price_pk db.prices) [
      | none ↦ err invalid_retail_order
      | some p ↦
          if not (channel_eq p.channel retail)
          then err invalid_retail_order
          else if not p.enabled
          then err invalid_retail_order
          else if not (product_is_active p.product_id db)
          then err invalid_retail_order
          else elim (first_where (same_amount p.pk currency) db.amounts) [
            | none ↦ err invalid_retail_order
            | some a ↦ ok (p, a)
          ]
    ]

abbrev pub insert_cart : ℕ → Db → Db
insert_cart pk db = record db {
  carts = db.carts ++ record { pk = pk } ∷ [];
  next_pk = db.next_pk + 1;
}

-- The identifier is a fresh one.
unfoldable pub create_retail_cart : Action RetailCart
create_retail_cart = do
  pk ← gets (λ db. db.next_pk)
  modify (insert_cart pk)
  pure (record { pk = pk })

-- `_lock_retail_cart`
unfoldable pub lock_retail_cart : ℕ → Action RetailCart
unfolding find
lock_retail_cart cart_pk db = elim (find (λ (c : RetailCart). c.pk) cart_pk db.carts) [
  | none ↦ err invalid_retail_cart
  | some c ↦ ok (c, db)
]

-- `_get_locked_cart_line`
unfoldable pub get_locked_cart_line : ℕ → ℕ → Action RetailCartLine
unfolding find
get_locked_cart_line cart_pk line_pk db =
    elim (find (λ (l : RetailCartLine). l.pk) line_pk db.cart_lines) [
      | none ↦ err invalid_retail_cart
      | some l ↦ if l.cart_id == cart_pk then ok (l, db) else err invalid_retail_cart
    ]

unfoldable pub is_line_for : ℕ → ℕ → RetailCartLine → Bool
is_line_for cart_pk price_pk l = l.cart_id == cart_pk && l.commercial_price_id == price_pk

unfoldable pub save_cart_line : RetailCartLine → Action ⊤
unfolding save
save_cart_line l = modify λ db. record db { cart_lines = save (λ x. x.pk) l db.cart_lines }

abbrev pub new_cart_line : ℕ → ℕ → ℕ → ℕ → RetailCartLine
new_cart_line cart_pk price_pk quantity pk = record {
  pk = pk;
  cart_id = cart_pk;
  commercial_price_id = price_pk;
  quantity = quantity;
}

abbrev pub insert_cart_line : RetailCartLine → Db → Db
insert_cart_line l db = record db { cart_lines = db.cart_lines ++ l ∷ []; next_pk = db.next_pk + 1 }

-- The line that an offer already has in the cart is enlarged.
unfoldable pub merge_cart_line : ℤ → RetailCartLine → Action RetailCartLine
unfolding validate_cart_quantity save_cart_line
merge_cart_line quantity l = do
  let sum = pos l.quantity +ℤ quantity
  lift (validate_cart_quantity sum)
  let l' = record l { quantity = pos_part sum }
  save_cart_line l'
  pure l'

unfoldable pub create_cart_line : ℕ → ℕ → ℤ → Action RetailCartLine
create_cart_line cart_pk price_pk quantity = do
  pk ← gets (λ db. db.next_pk)
  let l = new_cart_line cart_pk price_pk (pos_part quantity) pk
  modify (insert_cart_line l)
  pure l

-- The rest of add_retail_cart_line, under the lock of the cart.
unfoldable pub add_or_merge : ℕ → ℕ → ℤ → Action RetailCartLine
unfolding first_where is_line_for merge_cart_line create_cart_line
add_or_merge cart_pk price_pk quantity = do
  existing ← gets (λ db. first_where (is_line_for cart_pk price_pk) db.cart_lines)
  elim existing [
    | some l ↦ merge_cart_line quantity l
    | none ↦ create_cart_line cart_pk price_pk quantity
  ]

unfoldable pub add_retail_cart_line : ℕ → ℕ → ℤ → Action RetailCartLine
unfolding validate_cart_quantity lock_retail_cart get_retail_price_and_amount add_or_merge
add_retail_cart_line cart_pk price_pk quantity = do
  lift (validate_cart_quantity quantity)
  cart ← lock_retail_cart cart_pk
  priced ← gets (get_retail_price_and_amount price_pk eur)
  price ← lift priced
  add_or_merge cart.pk price.0.pk quantity

unfoldable pub update_retail_cart_line_quantity : ℕ → ℕ → ℤ → Action RetailCartLine
unfolding validate_cart_quantity lock_retail_cart get_locked_cart_line save_cart_line
update_retail_cart_line_quantity cart_pk line_pk quantity = do
  lift (validate_cart_quantity quantity)
  cart ← lock_retail_cart cart_pk
  l ← get_locked_cart_line cart.pk line_pk
  let l' = record l { quantity = pos_part quantity }
  save_cart_line l'
  pure l'

abbrev pub with_cart_lines : List RetailCartLine → Db → Db
with_cart_lines rows db = record db { cart_lines = rows }

unfoldable pub remove_retail_cart_line : ℕ → ℕ → Action ⊤
unfolding lock_retail_cart get_locked_cart_line filter
remove_retail_cart_line cart_pk line_pk = do
  cart ← lock_retail_cart cart_pk
  l ← get_locked_cart_line cart.pk line_pk
  modify λ db. with_cart_lines (filter (λ x. not (x.pk == l.pk)) db.cart_lines) db

unfoldable pub clear_retail_cart : ℕ → Action RetailCart
unfolding lock_retail_cart filter
clear_retail_cart cart_pk = do
  cart ← lock_retail_cart cart_pk
  modify λ db. with_cart_lines (filter (λ x. not (x.cart_id == cart.pk)) db.cart_lines) db
  pure cart

-- Deleting a cart deletes its lines.
unfoldable pub delete_cart : ℕ → Db → Db
unfolding filter
delete_cart cart_pk db = record db {
  carts = filter (λ (c : RetailCart). not (c.pk == cart_pk)) db.carts;
  cart_lines = filter (λ l. not (l.cart_id == cart_pk)) db.cart_lines;
}
