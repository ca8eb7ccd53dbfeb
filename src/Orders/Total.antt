-- ===== src/Orders/Total.antt =====
-- orders/models.py: the total of an order.
use swedesweets_ops.Prelude.{
  ℕ, ◌+◌, ◌*◌, ◌≡◌, arith, none, some, is_some, List, [], ◌∷◌, if◌then◌else◌, all, sum_by,
}
use swedesweets_ops.Orders.Models.{OrderLine, line_total, total_from, order_total}

-- What a line costs, if it has a price.
abbrev pub cents : OrderLine → ℕ
cents l = elim l.unit_price_snapshot [ none ↦ 0 | some price ↦ price * l.quantity_in_units ]

total_from-sum :
    (n : ℕ) (ls : List OrderLine)
    → total_from n ls
      ≡ (if all (λ l. is_some l.unit_price_snapshot) ls then some (n + sum_by cents ls) else none)
unfolding total_from line_total all sum_by
total_from-sum n [] = ground arith
total_from-sum n (l ∷ ls) = ground (arith, total_from-sum (n + cents l) ls, total_from-sum n ls)

-- The total of an order is unknown exactly when a line has no price. Otherwise it is the sum over
-- the lines of the price of a unit times the number of units.
pub order_total-sum :
    (ls : List OrderLine)
    → order_total ls
      ≡ (if all (λ l. is_some l.unit_price_snapshot) ls then some (sum_by cents ls) else none)
unfolding order_total
order_total-sum ls = ground (arith, total_from-sum 0 ls)
