-- ===== src/Tests/Sales.antt =====
-- Prices are set, and a cart is filled.
use swedesweets_ops.Prelude.{
  ℕ, ◌≡◌, ◌≤◌, ◌*◌, ◌&&◌, refl, true, false, arith, none, some, ok, IsDistinct, pos,
}
use swedesweets_ops.Products.Models.{grams_to_units, units_to_grams}
use swedesweets_ops.Products.Units.{grams_to_units-units_to_grams, grams_to_units-least}
use swedesweets_ops.Prelude.Rows.{find}
use swedesweets_ops.Pricing.Models.{
  retail, eur, ordinary, same_scope, same_amount, amount_is_valid, is_batch_specific,
}
use swedesweets_ops.Pricing.Pools.{HasUniqueScopes, pools_disjoint}
use swedesweets_ops.Pricing.Selectors.{list_orderable_batches_for_offer, has_amount}
use swedesweets_ops.Pricing.Services.{set_price_amount, create_commercial_price}
use swedesweets_ops.Pricing.Constraints.{IsPriced}
use swedesweets_ops.Pricing.Changes.{
  unchanged, then_changed, creates, sets_amount, PricingHistory-IsPriced,
}
use swedesweets_ops.Retail.Baskets.{basket, AreCartLines}
use swedesweets_ops.Retail.CartCommands.{adds, run_command, Refines}
use swedesweets_ops.Retail.CartRefinement.{run_command-Refines}
use swedesweets_ops.Tests.Data.{market, rows_after, bag, batch, price}
use swedesweets_ops.Database.{Db}

grams_run : units_to_grams bag (pos 3) ≡ ok 750
unfolding units_to_grams
grams_run = refl

grams_to_units-units_to_grams_example : grams_to_units bag (pos 750) ≡ ok 3
grams_to_units-units_to_grams_example =
    grams_to_units-units_to_grams bag (pos 3) 750 (omega arith) grams_run

units_run : grams_to_units bag (pos 740) ≡ ok 3
unfolding grams_to_units
units_run = refl

grams_to_units-least_example : (740 ≤ 3 * 250) × (740 ≤ 2 * 250 → 3 ≤ 2)
grams_to_units-least_example = grams_to_units-least bag (pos 740) 3 2 (omega arith) units_run

scopes : HasUniqueScopes market.prices
unfolding same_scope
scopes = ((refl, (refl, tt)), ((refl, tt), (tt, tt)))

find_price : find (λ p. p.pk) 3 market.prices ≡ some (price 3 retail none)
unfolding find
find_price = refl

find_clearance : find (λ p. p.pk) 6 market.prices ≡ some (price 6 retail (some 2))
unfolding find
find_clearance = refl

priced : has_amount 6 eur market ≡ true
unfolding has_amount
priced = refl

priced_standard : is_batch_specific (price 3 retail none) ≡ true → has_amount 3 eur market ≡ true
unfolding is_batch_specific has_amount
priced_standard e = refl

pools_disjoint_example :
    (list_orderable_batches_for_offer 0 (price 3 retail none) eur market (batch 2 4 40)
      && list_orderable_batches_for_offer 0 (price 6 retail (some 2)) eur market (batch 2 4 40))
    ≡ false
pools_disjoint_example =
    pools_disjoint 0 eur market (price 3 retail none) (price 6 retail (some 2)) (batch 2 4 40)
      scopes (ground arith) find_price find_clearance refl (λ e. priced_standard e) (λ e. priced)

keys-IsDistinct : IsDistinct (λ p. p.pk) market.prices × IsDistinct (λ a. a.pk) market.amounts
keys-IsDistinct = (
  ((ground arith, (ground arith, tt)), ((ground arith, tt), (tt, tt))),
  ((ground arith, (ground arith, tt)), ((ground arith, tt), (tt, tt))),
)

market-IsPriced : IsPriced market
unfolding same_scope same_amount amount_is_valid
market-IsPriced = (
  (scopes, keys-IsDistinct.0, (omega arith, (omega arith, (omega arith, tt)))),
  (
    ((refl, (refl, tt)), ((refl, tt), (tt, tt))),
    keys-IsDistinct.1,
    (omega arith, (omega arith, (omega arith, tt))),
    (refl, (refl, (refl, tt))),
  ),
)

abbrev repriced : Db
repriced = rows_after (set_price_amount 3 eur (pos 300) (some (pos 400)) market)

reprice_run : set_price_amount 3 eur (pos 300) (some (pos 400)) market ≡ ok (tt, repriced)
unfolding set_price_amount
reprice_run = refl

abbrev extended : Db
extended = rows_after (create_commercial_price 7 retail (some 1) ordinary repriced)

extend_run :
    create_commercial_price 7 retail (some 1) ordinary repriced
    ≡ ok (record (price 30 retail (some 1)) { enabled = false }, extended)
unfolding set_price_amount create_commercial_price
extend_run = refl

PricingHistory-IsPriced_example : IsPriced extended
PricingHistory-IsPriced_example =
    PricingHistory-IsPriced
      (then_changed
        (then_changed unchanged (sets_amount 3 eur (pos 300) (some (pos 400)) reprice_run))
        (creates 7 retail (some 1) ordinary (record (price 30 retail (some 1)) { enabled = false })
          extend_run))
      market-IsPriced

cart_lines : AreCartLines market.next_pk market.cart_lines
cart_lines = (tt, tt, tt, tt)

abbrev filled : Db
filled = rows_after (run_command 1 (adds 3 (pos 2)) market)

fill_run : run_command 1 (adds 3 (pos 2)) market ≡ ok (tt, filled)
unfolding run_command
fill_run = refl

run_command-Refines_example :
    Refines 1 (adds 3 (pos 2)) market filled × ((c k : ℕ) → basket c filled.cart_lines k ≤ 20)
run_command-Refines_example =
    run_command-Refines 1 (adds 3 (pos 2)) market filled cart_lines fill_run
