-- ===== src/Retail/StartedPayments.antt =====
-- retail/services.py: the stock that is held for a payment that starts.
use swedesweets_ops.Prelude.{
  ℕ, ◌+◌, ◌≤◌, ◌<◌, ◌≡◌, refl, sym, ap, ◌∙◌, Bool, ◌==◌, arith, some, List, [], ◌∷◌, filter, any,
  is_empty, ok, All, IsDistinct, raise_if, invalid_retail_order, map_error, pos,
}
use mathlib.Core.Path.{subst}
use swedesweets_ops.Prelude.Rows.{find}
use swedesweets_ops.Pricing.Models.{Currency, retail}
use swedesweets_ops.Orders.Models.{Order, OrderLine, draft, order_total}
use swedesweets_ops.Orders.Contracts.{lock_order}
use swedesweets_ops.Inventory.Models.{InventoryBatch}
use swedesweets_ops.Reservations.Services.{
  reserve_order_line_from_pool, cancel_temporary_reservations_for_order,
}
use swedesweets_ops.Reservations.Overbooking.{NoOverbooking}
use swedesweets_ops.Reservations.Promises.{promised, Reserves, reserve-Reserves, loop-Reserves}
use swedesweets_ops.Reservations.Release.{cancel_temporary-NoOverbooking, cancel_temporary_writes}
use swedesweets_ops.Fulfillment.Packing.{map_error-ok}
use swedesweets_ops.Payments.Models.{PaymentAttempt, pending}
use swedesweets_ops.Payments.Services.{
  create_payment_attempt, is_pending_for, total_of_order, new_attempt,
}
use swedesweets_ops.Payments.Attempts.{
  pending_count, AtMostOnePending, create_payment_attempt_writes,
  create_payment_attempt-AtMostOnePending, lock_order_reads,
}
use swedesweets_ops.Retail.Models.{RetailCheckoutSession}
use swedesweets_ops.Retail.Rules.{retail_payment_reservation_window}
use swedesweets_ops.Retail.Selectors.{list_batches_for_retail_price}
use swedesweets_ops.Retail.PaymentServices.{
  capacity_as_stock, selected_offer, reserve_retail_line, reserve_retail_lines, lock_checkout,
  require_payable, lines_of_order, reserve_and_attempt, start_retail_payment,
}
use swedesweets_ops.Database.{
  Db, ⊤, gets, lift, >>=-eq-ok, after_check, lift_then, get_row-found, ◌>>=◌,
}

checkout_reads :
    (k : ℕ) (s : RetailCheckoutSession) (db mid : Db)
    → lock_checkout k db ≡ ok (s, mid)
    → (find (λ (s : RetailCheckoutSession). s.pk) k db.checkouts ≡ some s) × (s.pk ≡ k) × (mid ≡ db)
unfolding lock_checkout
checkout_reads k s db mid e =
    get_row-found (λ db. db.checkouts) (λ (s : RetailCheckoutSession). s.pk) k db e

pub order_reads :
    (k : ℕ) (o : Order) (db mid : Db)
    → lock_order k db ≡ ok (o, mid)
    → (find (λ (o : Order). o.pk) k db.orders ≡ some o) × (o.pk ≡ k) × (mid ≡ db)
unfolding lock_order
order_reads k o db mid e = get_row-found (λ db. db.orders) (λ (o : Order). o.pk) k db e

payable_order :
    (now : ℕ) (s : RetailCheckoutSession) (o : Order)
    → require_payable now s o ≡ ok tt
    → (now < s.expires_at) × (o.channel ≡ retail) × (o.status ≡ draft)
unfolding require_payable
payable_order now s o e = ground arith

reserve_line-Reserves :
    (now today : ℕ) (currency : Currency) (until : ℕ) (l : OrderLine) (db db' : Db)
    → IsDistinct (λ b. b.pk) db.batches
    → reserve_retail_line now today currency until l db ≡ ok (tt, db')
    → Reserves now (some until) (l ∷ []) db db'
unfolding reserve_retail_line
reserve_line-Reserves now today currency until l db db' distinct e =
    let reserve = λ (pool : InventoryBatch → Bool).
      reserve_order_line_from_pool now l pool (pos l.quantity_in_units) (some until) in
    let (offer, selected, rest) =
      lift_then (selected_offer l db)
        (λ offer. gets (list_batches_for_retail_price today offer currency) >>= λ pool.
          λ db. map_error capacity_as_stock (reserve pool db))
        db e in
    let pool = list_batches_for_retail_price today offer currency db in
    reserve-Reserves now l pool (some until) db db' distinct
      (map_error-ok capacity_as_stock (reserve pool db) rest)

reserve_lines-Reserves :
    (now today : ℕ) (currency : Currency) (until : ℕ) (ls : List OrderLine) (db db' : Db)
    → IsDistinct (λ b. b.pk) db.batches
    → reserve_retail_lines now today currency until ls db ≡ ok (tt, db')
    → Reserves now (some until) ls db db'
unfolding reserve_retail_lines
reserve_lines-Reserves now today currency until =
    loop-Reserves now (some until) (reserve_retail_line now today currency until)
      (reserve_retail_lines now today currency until) (λ db. refl) (λ l ls db. refl)
      (λ l db db' distinct e. reserve_line-Reserves now today currency until l db db' distinct e)

-- What a payment that starts holds, for lines that are read before.
abbrev pub Holds : ℕ → List OrderLine → Order → PaymentAttempt → Db → Db → Type 0
Holds now ls order a db db' =
    NoOverbooking now db'
    × (db'.batches ≡ db.batches)
    × All
        (λ l.
          l.quantity_in_units
          ≤ promised (some (now + retail_payment_reservation_window)) l.pk db'.allocations)
        ls
    × AtMostOnePending db'
    × (a.status ≡ pending)
    × (a.order_id ≡ order.pk)
    × (total_of_order order.pk db ≡ some a.amount)

total_of_order-lines :
    (k : ℕ) (db db' : Db) → db'.lines ≡ db.lines → total_of_order k db' ≡ total_of_order k db
unfolding total_of_order
total_of_order-lines k db db' same =
    ap (λ rows. order_total (filter (λ (l : OrderLine). k == l.order_id) rows)) same

attempt-Holds :
    (now : ℕ) (ls : List OrderLine) (order : Order) (a : PaymentAttempt) (db mid db' : Db)
    → AtMostOnePending db
    → NoOverbooking now db
    → Reserves now (some (now + retail_payment_reservation_window)) ls db mid
    → create_payment_attempt order.pk mid ≡ ok (a, db')
    → Holds now ls order a db db'
attempt-Holds now ls order a db mid db' most sound (keeps, batches, attempts, lines, _, _, held) e =
    let (o, amount, read, known, positive, free, made, written) =
      create_payment_attempt_writes order.pk a mid db' e in
    let key = (lock_order_reads order.pk o mid mid read).1 in
    let most' : AtMostOnePending mid =
      subst (λ (rows : List PaymentAttempt). (k : ℕ) → pending_count k rows ≤ 1) (sym attempts)
        most in
    let (still, _, _, waiting) =
      create_payment_attempt-AtMostOnePending order.pk a mid db' most' e in
    (
      rw written (keeps sound),
      rw written batches,
      rw written held,
      still,
      waiting,
      rw made (unfold new_attempt in key),
      sym (total_of_order-lines order.pk db mid lines)
          ∙ ap (λ k. total_of_order k mid) (sym key)
          ∙ known
          ∙ ap some (unfold new_attempt in ap (λ (x : PaymentAttempt). x.amount) (sym made)),
    )

-- The reservations of an order are made anew on the same batches, lines and attempts.
reserve_and_attempt-Holds :
    (now today : ℕ) (order : Order) (ls : List OrderLine) (a : PaymentAttempt) (db db' : Db)
    → IsDistinct (λ b. b.pk) db.batches
    → NoOverbooking now db
    → AtMostOnePending db
    → reserve_and_attempt now today order ls db ≡ ok (a, db')
    → Holds now ls order a db db'
unfolding reserve_and_attempt
reserve_and_attempt-Holds now today order ls a db db' distinct sound most e =
    let until = now + retail_payment_reservation_window in
    let attempt = λ (u : ⊤). create_payment_attempt order.pk in
    let reserve = λ (u : ⊤). reserve_retail_lines now today order.currency until ls >>= attempt in
    let (u, d₁, released, e₁) =
      >>=-eq-ok (cancel_temporary_reservations_for_order order.pk) reserve db e in
    let (v, d₂, reserving, e₂) =
      >>=-eq-ok (reserve_retail_lines now today order.currency until ls) attempt d₁ e₁ in
    let sound₁ = cancel_temporary-NoOverbooking now order.pk db d₁ released sound in
    let (rows, _, cancelled) = cancel_temporary_writes order.pk db d₁ released in
    let same_batches : d₁.batches ≡ db.batches = ap (λ (d : Db). d.batches) cancelled in
    let same_attempts : d₁.attempts ≡ db.attempts = ap (λ (d : Db). d.attempts) cancelled in
    let same_lines : d₁.lines ≡ db.lines = ap (λ (d : Db). d.lines) cancelled in
    let reserves =
      reserve_lines-Reserves now today order.currency until ls d₁ d₂
        (subst (IsDistinct (λ (b : InventoryBatch). b.pk)) (sym same_batches) distinct) reserving in
    let most₁ : AtMostOnePending d₁ =
      subst (λ (rows : List PaymentAttempt). (k : ℕ) → pending_count k rows ≤ 1) (sym same_attempts)
        most in
    let (kept, batches, held, still, waiting, ours, total) =
      attempt-Holds now ls order a d₁ d₂ db' most₁ sound₁ reserves e₂ in
    (
      kept,
      batches ∙ same_batches,
      held,
      still,
      waiting,
      ours,
      sym (total_of_order-lines order.pk db d₁ same_lines) ∙ total,
    )

-- If no batch has more active claims than units, batches have distinct keys and no order has two
-- pending attempts, then all of this is still so after the payment of a checkout is started. The
-- checkout was stored and had not expired, and its order is a stored retail draft. The new attempt
-- is pending, for this order and its total, and every line of the order has all of its units
-- reserved for the next 35 minutes, while no batch changes.
pub start_retail_payment-Holds :
    (now today k : ℕ) (a : PaymentAttempt) (db db' : Db)
    → IsDistinct (λ b. b.pk) db.batches
    → NoOverbooking now db
    → AtMostOnePending db
    → start_retail_payment now today k db ≡ ok (a, db')
    → (s : RetailCheckoutSession) × (o : Order) × (find
          (λ (s : RetailCheckoutSession). s.pk)
          k
          db.checkouts
        ≡ some s)
      × (find (λ (o : Order). o.pk) s.order_id db.orders ≡ some o)
      × (now < s.expires_at)
      × (o.channel ≡ retail)
      × (o.status ≡ draft)
      × Holds now (lines_of_order o.pk db) o a db db'
unfolding start_retail_payment
start_retail_payment-Holds now today k a db db' distinct sound most e =
    let no_lines = λ (ls : List OrderLine). raise_if (is_empty ls) invalid_retail_order in
    let hold = λ (o : Order) (ls : List OrderLine).
      lift (no_lines ls) >>= λ _. reserve_and_attempt now today o ls in
    let read_lines = λ (o : Order). gets (lines_of_order o.pk) >>= hold o in
    let busy = λ (o : Order) (db : Db).
      raise_if (any (is_pending_for o.pk) db.attempts) invalid_retail_order in
    let idle = λ (o : Order). gets (busy o) >>= λ b. lift b >>= λ _. read_lines o in
    let check =
      λ (s : RetailCheckoutSession) (o : Order). lift (require_payable now s o) >>= λ _. idle o in
    let (s, d₁, s_read, e₁) =
      >>=-eq-ok (lock_checkout k) (λ s. lock_order s.order_id >>= check s) db e in
    let (s_found, _, same₁) = checkout_reads k s db d₁ s_read in
    let (o, d₂, o_read, e₂) = >>=-eq-ok (lock_order s.order_id) (check s) d₁ e₁ in
    let (o_found, _, same₂) = order_reads s.order_id o d₁ d₂ o_read in
    let (payable, e₃) = after_check (require_payable now s o) (idle o) d₂ e₂ in
    let (free, e₄) = after_check (busy o d₂) (read_lines o) d₂ e₃ in
    let (present, e₅) =
      after_check (no_lines (lines_of_order o.pk d₂))
        (reserve_and_attempt now today o (lines_of_order o.pk d₂)) d₂ e₄ in
    let (live, in_retail, drafted) = payable_order now s o payable in
    (
      s,
      o,
      s_found,
      subst (λ (d : Db). find (λ (o : Order). o.pk) s.order_id d.orders ≡ some o) same₁ o_found,
      live,
      in_retail,
      drafted,
      reserve_and_attempt-Holds now today o (lines_of_order o.pk db) a db db' distinct sound most (
          subst
            (λ (d : Db). reserve_and_attempt now today o (lines_of_order o.pk d) d ≡ ok (a, db'))
            (same₂ ∙ same₁) e₅),
    )
