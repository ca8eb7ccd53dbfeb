-- ===== src/Retail/CartCommands.antt =====
-- retail/services.py: the services on a cart, what each is meant to do to its basket, and what they
-- read and check.
use swedesweets_ops.Prelude.{
  ℕ, ◌+◌, ◌≤◌, ◌≡◌, true, inl, inr, arith, none, some, List, ◌==◌, if◌then◌else◌, ok, Bool-cases,
  Option-cases, ℤ, pos_part,
}
use swedesweets_ops.Prelude.Rows.{find, first_where, find-key}
use swedesweets_ops.Pricing.Models.{
  CommercialPrice, PriceAmount, Currency, retail, same_amount, channel_eq,
}
use swedesweets_ops.Pricing.Selectors.{product_is_active}
use swedesweets_ops.Retail.Models.{RetailCart, RetailCartLine}
use swedesweets_ops.Retail.Baskets.{Basket, put, basket, AreCartLines}
use swedesweets_ops.Retail.Carts.{
  lock_retail_cart, get_locked_cart_line, validate_cart_quantity, get_retail_price_and_amount,
  add_retail_cart_line, update_retail_cart_line_quantity, remove_retail_cart_line,
  clear_retail_cart,
}
use swedesweets_ops.Database.{Db, Action, ⊤, pure, ◌>>=◌}

-- The services on one cart, by their arguments.
pub data CartCommand : Type 0 where
  adds : (price_pk : ℕ) (quantity : ℤ) → CartCommand
  updates : (line_pk : ℕ) (quantity : ℤ) → CartCommand
  removes : (line_pk : ℕ) → CartCommand
  clears : CartCommand

unfoldable pub run_command : ℕ → CartCommand → Action ⊤
unfolding add_retail_cart_line update_retail_cart_line_quantity remove_retail_cart_line
    clear_retail_cart
run_command cart_pk (adds price_pk quantity) =
    add_retail_cart_line cart_pk price_pk quantity >>= λ _. pure tt
run_command cart_pk (updates line_pk quantity) =
    update_retail_cart_line_quantity cart_pk line_pk quantity >>= λ _. pure tt
run_command cart_pk (removes line_pk) = remove_retail_cart_line cart_pk line_pk
run_command cart_pk clears = clear_retail_cart cart_pk >>= λ _. pure tt

-- The offer of a stored line.
unfoldable pub offer_of_line : ℕ → List RetailCartLine → ℕ
unfolding find
offer_of_line line_pk rows = elim (find (λ (l : RetailCartLine). l.pk) line_pk rows) [
  | none ↦ 0
  | some l ↦ l.commercial_price_id
]

-- What each service means for the basket.
unfoldable pub apply_command : List RetailCartLine → CartCommand → Basket → Basket
unfolding offer_of_line
apply_command rows (adds price_pk quantity) b = put price_pk (b price_pk + pos_part quantity) b
apply_command rows (updates line_pk quantity) b =
    put (offer_of_line line_pk rows) (pos_part quantity) b
apply_command rows (removes line_pk) b = put (offer_of_line line_pk rows) 0 b
apply_command rows clears b = λ k. 0

-- The basket of each cart after a service has run on one of them.
abbrev pub Refines : ℕ → CartCommand → Db → Db → Type 0
Refines cart_pk command db db' =
    AreCartLines db'.next_pk db'.cart_lines
    × ((c k : ℕ)
        → basket c db'.cart_lines k ≡ (
            if c == cart_pk
            then apply_command db.cart_lines command (basket c db.cart_lines) k
            else basket c db.cart_lines k))

pub lock_cart_reads :
    (k : ℕ) (c : RetailCart) (db mid : Db)
    → lock_retail_cart k db ≡ ok (c, mid)
    → (c.pk ≡ k) × (mid ≡ db)
unfolding lock_retail_cart
lock_cart_reads k c db mid e = elim (Option-cases (find (λ (c : RetailCart). c.pk) k db.carts)) [
  | inl absent ↦ absurd (ground arith)
  | inr (d, found) ↦ ground (arith, find-key (λ (c : RetailCart). c.pk) k db.carts {a = d} found)
]

pub locked_line_reads :
    (cart k : ℕ) (l : RetailCartLine) (db mid : Db)
    → get_locked_cart_line cart k db ≡ ok (l, mid)
    → (find (λ (l : RetailCartLine). l.pk) k db.cart_lines ≡ some l)
      × (l.pk ≡ k)
      × (l.cart_id ≡ cart)
      × (mid ≡ db)
unfolding get_locked_cart_line
locked_line_reads cart k l db mid e =
    elim (Option-cases (find (λ (l : RetailCartLine). l.pk) k db.cart_lines)) [
      | inl absent ↦ absurd (ground arith)
      | inr (d, found) ↦
          ground (arith, find-key (λ (l : RetailCartLine). l.pk) k db.cart_lines {a = d} found)
    ]

pub valid_quantity :
    (q : ℤ) → validate_cart_quantity q ≡ ok tt → (1 ≤ pos_part q) × (pos_part q ≤ 20)
unfolding validate_cart_quantity
valid_quantity q e = ground arith

-- A retail offer that is found is stored under the key that was asked for, and its amount is in the
-- currency.
pub retail_price_found :
    (k : ℕ) (currency : Currency) (p : CommercialPrice) (a : PriceAmount) (db : Db)
    → get_retail_price_and_amount k currency db ≡ ok (p, a)
    → (find (λ (p : CommercialPrice). p.pk) k db.prices ≡ some p)
      × (p.pk ≡ k)
      × (p.channel ≡ retail)
      × (p.enabled ≡ true)
      × (product_is_active p.product_id db ≡ true)
      × (first_where (same_amount p.pk currency) db.amounts ≡ some a)
unfolding get_retail_price_and_amount channel_eq
retail_price_found k currency p a db e =
    elim (Option-cases (find (λ (p : CommercialPrice). p.pk) k db.prices)) [
      | inl absent ↦ absurd (ground arith)
      | inr (q, found) ↦ elim (Bool-cases (product_is_active q.product_id db)) [
        | inl active ↦
            ground (arith, find-key (λ (p : CommercialPrice). p.pk) k db.prices {a = q} found)
        | inr stopped ↦ absurd (ground arith)
      ]
    ]
