-- ===== src/Retail/CheckoutOrders.antt =====
-- retail/services.py: what is stored when a cart is checked out.
use swedesweets_ops.Prelude.{
  ℕ, ◌+◌, ◌≤◌, ◌≡◌, refl, sym, ap, ◌∙◌, Bool, not, arith, none, some, List, [], ◌∷◌, ◌++◌, map,
  ◌==◌, ltb, filter, is_empty, ok, Zip, raise_if, IsDistinct, invalid_retail_order,
  invalid_retail_cart,
}
use mathlib.Core.Path.{subst}
use swedesweets_ops.Prelude.Texts.{Text}
use swedesweets_ops.Pricing.Models.{eur, retail}
use swedesweets_ops.Orders.Models.{Order, OrderLine, draft, order_total}
use swedesweets_ops.Orders.Services.{insert_order}
use swedesweets_ops.Retail.Models.{RetailCart, RetailCartLine, RetailCheckoutSession}
use swedesweets_ops.Retail.Carts.{lock_retail_cart, delete_cart}
use swedesweets_ops.Retail.CartCommands.{lock_cart_reads}
use swedesweets_ops.Retail.Rules.{max_retail_order_total, retail_checkout_window}
use swedesweets_ops.Retail.CheckoutLines.{
  retail_rows, add_retail_rows, create_lines_writes, IsBoughtWith, resolved_rows,
  order_total-retail_rows, retail_rows-IsDistinct,
}
use swedesweets_ops.Retail.Checkouts.{
  AnonymousBuyerInput, RetailOrderLineInput, ResolvedRetailOrderLine, resolve_retail_lines,
  calculate_order_total, create_retail_lines, line_input, retail_order, create_checkout,
  store_retail_order, insert_checkout, validate_lines, validate_buyer_destination,
  create_pending_retail_order, validate_unique_commercial_prices, lines_of_cart,
  create_retail_checkout_from_cart, buyer_from_anonymous_retail_input,
}
use swedesweets_ops.Database.{
  Db, ⊤, pure, gets, lift, modify, >>=-eq-ok, after_check, lift_then, ◌>>=◌,
}

-- The rows that a checkout adds: an order, its lines, and the checkout itself.
abbrev pub stored_checkout : Order → List OrderLine → RetailCheckoutSession → Db → Db
stored_checkout o rows s db =
    insert_checkout s
      (add_retail_rows rows (record db { orders = db.orders ++ o ∷ []; next_pk = db.next_pk + 1 }))

store_writes :
    (now : ℕ) (buyer : AnonymousBuyerInput) (rs : List ResolvedRetailOrderLine)
    (s : RetailCheckoutSession) (db db' : Db)
    → store_retail_order now buyer rs db ≡ ok (s, db')
    → (s.order_id ≡ db.next_pk)
      × (s.expires_at ≡ now + retail_checkout_window)
      × (db'
          ≡ stored_checkout
              (retail_order now db.next_pk buyer)
              (retail_rows db.next_pk (db.next_pk + 1) rs)
              s
              db)
unfolding store_retail_order
store_writes now buyer rs s db db' e =
    let k = db.next_pk in
    let finish = λ (u : ⊤). create_checkout now k in
    let (u, mid, inserted, rest) =
      >>=-eq-ok (insert_order (retail_order now k buyer)) (λ _. create_retail_lines k rs >>= finish)
        db e in
    let (v, mid', lined, last) = >>=-eq-ok (create_retail_lines k rs) finish mid rest in
    let first : mid
        ≡ record db { orders = db.orders ++ retail_order now k buyer ∷ []; next_pk = k + 1 } =
      unfold insert_order in unfold retail_order in ground (arith, inserted) in
    let second = create_lines_writes k rs mid mid' lined in
    let third : db' ≡ insert_checkout s mid' = unfold create_checkout in ground (arith, last) in
    (
      unfold create_checkout in ground (arith, last),
      unfold create_checkout in ground (arith, last),
      third
          ∙ ap (insert_checkout s) second
          ∙ ap (λ (d : Db). insert_checkout s (add_retail_rows (retail_rows k d.next_pk rs) d))
              first,
    )

-- What a pending order was checked for, and what is stored.
pending_writes :
    (iexact : Text → Text → Bool) (today now : ℕ) (buyer : AnonymousBuyerInput)
    (ls : List RetailOrderLineInput) (s : RetailCheckoutSession) (db db' : Db)
    → create_pending_retail_order iexact today now buyer ls db ≡ ok (s, db')
    → (rs : List ResolvedRetailOrderLine) × (resolve_retail_lines today eur db ls ≡ ok rs)
      × (validate_unique_commercial_prices [] rs ≡ ok tt)
      × (calculate_order_total rs ≤ max_retail_order_total)
      × (store_retail_order now buyer rs db ≡ ok (s, db'))
unfolding create_pending_retail_order
pending_writes iexact today now buyer ls s db db' e =
    let store = store_retail_order now buyer in
    let too_much = λ (rs : List ResolvedRetailOrderLine).
      raise_if (ltb max_retail_order_total (calculate_order_total rs)) invalid_retail_order in
    let bound = λ (rs : List ResolvedRetailOrderLine). lift (too_much rs) >>= λ _. store rs in
    let unique = λ (rs : List ResolvedRetailOrderLine).
      lift (validate_unique_commercial_prices [] rs) >>= λ _. bound rs in
    let resolve = gets (λ db. resolve_retail_lines today eur db ls) >>= λ r. lift r >>= unique in
    let (reachable, e₁) =
      after_check (validate_buyer_destination iexact buyer db)
        (lift (validate_lines ls) >>= λ _. resolve) db e in
    let (valid, e₂) = after_check (validate_lines ls) resolve db e₁ in
    let (rs, resolved, e₃) = lift_then (resolve_retail_lines today eur db ls) unique db e₂ in
    let (apart, e₄) = after_check (validate_unique_commercial_prices [] rs) (bound rs) db e₃ in
    let (small, e₅) = after_check (too_much rs) (store rs) db e₄ in
    (rs, resolved, apart, ground (arith, small), e₅)

-- A cart that is checked out becomes one draft order.
abbrev pub IsCheckedOut : ℕ → AnonymousBuyerInput → ℕ → RetailCheckoutSession → Db → Db → Type 0
IsCheckedOut now buyer cart s db db' =
    (o : Order) × (rows : List OrderLine) × (o.pk ≡ s.order_id)
    × (o.status ≡ draft)
    × (o.channel ≡ retail)
    × (o.customer ≡ none)
    × (o.buyer ≡ buyer_from_anonymous_retail_input buyer)
    × (s.expires_at ≡ now + retail_checkout_window)
    × (db'.orders ≡ db.orders ++ o ∷ [])
    × (db'.lines ≡ db.lines ++ rows)
    × (db'.checkouts ≡ db.checkouts ++ s ∷ [])
    × Zip (IsBoughtWith db o.pk) (map line_input (lines_of_cart cart db)) rows
    × IsDistinct (λ r. r.commercial_offer_id) rows
    × ((total : ℕ) × (order_total rows ≡ some total) × (total ≤ max_retail_order_total))
    × (lines_of_cart cart db' ≡ [])
    × (db'.batches ≡ db.batches)
    × (db'.allocations ≡ db.allocations)

no_lines_left :
    (cart : ℕ) (rows : List RetailCartLine)
    → filter (λ l. l.cart_id == cart) (filter (λ l. not (l.cart_id == cart)) rows) ≡ []
unfolding filter
no_lines_left cart [] = refl
no_lines_left cart (l ∷ rows) = ground (arith, no_lines_left cart rows)

-- A cart that is checked out has had its lines ordered, and is deleted.
checkout_runs :
    (iexact : Text → Text → Bool) (today now cart : ℕ) (buyer : AnonymousBuyerInput)
    (s : RetailCheckoutSession) (db db' : Db)
    → create_retail_checkout_from_cart iexact today now cart buyer db ≡ ok (s, db')
    → (mid : Db) × (create_pending_retail_order iexact today now buyer
          (map line_input (lines_of_cart cart db))
          db
        ≡ ok (s, mid))
      × (db' ≡ delete_cart cart mid)
unfolding create_retail_checkout_from_cart
checkout_runs iexact today now cart buyer s db db' e =
    let pending = λ (ls : List RetailCartLine).
      create_pending_retail_order iexact today now buyer (map line_input ls) in
    let finish =
      λ (c : RetailCart) (s : RetailCheckoutSession). modify (delete_cart c.pk) >>= λ _. pure s in
    let order = λ (c : RetailCart) (ls : List RetailCartLine). pending ls >>= finish c in
    let absent = λ (ls : List RetailCartLine). raise_if (is_empty ls) invalid_retail_cart in
    let check =
      λ (c : RetailCart) (ls : List RetailCartLine). lift (absent ls) >>= λ _. order c ls in
    let (c, mid, read, e₁) =
      >>=-eq-ok (lock_retail_cart cart) (λ c. gets (lines_of_cart c.pk) >>= check c) db e in
    let (key, same) = lock_cart_reads cart c db mid read in
    let ls = lines_of_cart c.pk mid in
    let (some_lines, e₂) = after_check (absent ls) (order c ls) mid e₁ in
    let (s', mid', made, e₃) = >>=-eq-ok (pending ls) (finish c) mid e₂ in
    let ours : s' ≡ s = ground (arith, e₃) in
    (
      mid',
      subst
          (λ (x : ℕ × Db × RetailCheckoutSession).
            pending (lines_of_cart x.0 x.1) x.1 ≡ ok (x.2, mid'))
          (λ i. (key i, same i, ours i)) made,
      ground (arith, e₃, key),
    )

stored-IsCheckedOut :
    (today now cart : ℕ) (buyer : AnonymousBuyerInput) (rs : List ResolvedRetailOrderLine)
    (s : RetailCheckoutSession) (db : Db)
    → resolve_retail_lines today eur db (map line_input (lines_of_cart cart db)) ≡ ok rs
    → validate_unique_commercial_prices [] rs ≡ ok tt
    → calculate_order_total rs ≤ max_retail_order_total
    → s.order_id ≡ db.next_pk
    → s.expires_at ≡ now + retail_checkout_window
    → IsCheckedOut now buyer cart s db (
        delete_cart cart (
          stored_checkout
            (retail_order now db.next_pk buyer)
            (retail_rows db.next_pk (db.next_pk + 1) rs)
            s
            db))
unfolding delete_cart lines_of_cart retail_order
stored-IsCheckedOut today now cart buyer rs s db resolved apart small order_is expires =
    let k = db.next_pk in
    (
      retail_order now k buyer,
      retail_rows k (k + 1) rs,
      sym order_is,
      refl,
      refl,
      refl,
      refl,
      expires,
      refl,
      refl,
      refl,
      resolved_rows today k (k + 1) db (map line_input (lines_of_cart cart db)) rs resolved,
      retail_rows-IsDistinct k (k + 1) [] rs apart,
      (calculate_order_total rs, order_total-retail_rows k (k + 1) rs, small),
      no_lines_left cart db.cart_lines,
      refl,
      refl,
    )

-- If a cart is checked out, then one draft retail order is stored for the given buyer, with one line
-- for each line of the cart: of its offer, for as many units, at the offer's price in euros. No two
-- lines are of one offer, and the total of the order is known and at most 1000 euros. The checkout
-- refers to the order and expires after 90 minutes, the cart has no lines left, and no stock is
-- reserved or taken.
pub create_retail_checkout-IsCheckedOut :
    (iexact : Text → Text → Bool) (today now cart : ℕ) (buyer : AnonymousBuyerInput)
    (s : RetailCheckoutSession) (db db' : Db)
    → create_retail_checkout_from_cart iexact today now cart buyer db ≡ ok (s, db')
    → IsCheckedOut now buyer cart s db db'
create_retail_checkout-IsCheckedOut iexact today now cart buyer s db db' e =
    let (mid, ordered, out) = checkout_runs iexact today now cart buyer s db db' e in
    let inputs = map line_input (lines_of_cart cart db) in
    let (rs, resolved, apart, small, stored) =
      pending_writes iexact today now buyer inputs s db mid ordered in
    let (order_is, expires, writes) = store_writes now buyer rs s db mid stored in
    subst (IsCheckedOut now buyer cart s db) (sym (out ∙ ap (delete_cart cart) writes))
      (stored-IsCheckedOut today now cart buyer rs s db resolved apart small order_is expires)
