-- ===== src/Retail/SettledPayments.antt =====
-- retail/services.py: an order and its stock after its payment has succeeded or failed.
use swedesweets_ops.Prelude.{
  ℕ, ◌≡◌, refl, sym, ap, ◌∙◌, not, ◌&&◌, ◌==◌, arith, Option, none, some, List, [], ◌∷◌, sum_by, ok,
  Zip, is_some, raise_if, if◌then◌else◌, invalid_retail_order,
}
use mathlib.Core.Path.{subst}
use swedesweets_ops.Prelude.Rows.{find, find-key, save, find-save_self, for_each-Zip}
use swedesweets_ops.Prelude.Texts.{Text}
use swedesweets_ops.Pricing.Models.{retail}
use swedesweets_ops.Orders.Models.{Order, draft, placed, order_status_eq}
use swedesweets_ops.Orders.Contracts.{lock_order}
use swedesweets_ops.Orders.Services.{place_order}
use swedesweets_ops.Reservations.Models.{Allocation, cancel_allocation}
use swedesweets_ops.Reservations.Services.{is_reserved_for, cancel_temporary_reservations_for_order}
use swedesweets_ops.Reservations.Release.{cancel_temporary_writes}
use swedesweets_ops.Reservations.Policies.{make_order_reservations_permanent_before_placement}
use swedesweets_ops.Fulfillment.Placing.{AreHeld, IsPromoted, AreDurable, place_order-AreDurable}
use swedesweets_ops.Payments.Models.{PaymentAttempt, pending, succeeded, failed}
use swedesweets_ops.Payments.Services.{
  get_attempt, set_transaction, mark_payment_attempt_succeeded, mark_payment_attempt_failed,
}
use swedesweets_ops.Payments.Reconciliation.{
  get_attempt-found, mark_succeeded_writes, mark_failed_writes,
}
use swedesweets_ops.Retail.StartedPayments.{order_reads}
use swedesweets_ops.Retail.PaymentServices.{
  require_pending_retail, complete_retail_payment, fail_retail_payment,
}
use swedesweets_ops.Database.{Db, Action, ⊤, pure, lift, >>=-eq-ok, after_check, ◌>>=◌}

-- The attempt and the order that a settlement works on.
abbrev pub IsSettling : ℕ → PaymentAttempt → Order → Db → Type 0
IsSettling k a o db =
    (find (λ (a : PaymentAttempt). a.pk) k db.attempts ≡ some a)
    × (a.status ≡ pending)
    × (a.order_id ≡ o.pk)
    × (find (λ (o : Order). o.pk) a.order_id db.orders ≡ some o)
    × (o.channel ≡ retail)

pending_retail :
    (a : PaymentAttempt) (o : Order)
    → require_pending_retail a o ≡ ok tt
    → (a.status ≡ pending) × (a.order_id ≡ o.pk) × (o.channel ≡ retail)
unfolding require_pending_retail
pending_retail a o e = ground arith

-- The part that both settlements begin with.
settling :
    {B : Type 0} (k : ℕ) (rest : PaymentAttempt → Order → Action B) (db : Db) {r : B × Db}
    → (get_attempt k >>= λ first. lock_order first.order_id >>= λ o.
          get_attempt k >>= λ a. lift (require_pending_retail a o) >>= λ _. rest a o)
        db
      ≡ ok r
    → (a : PaymentAttempt) × (o : Order) × IsSettling k a o db × (rest a o db ≡ ok r)
settling {B} k rest db {r} e =
    let check =
      λ (o : Order) (a : PaymentAttempt). lift (require_pending_retail a o) >>= λ _. rest a o in
    let again = λ (o : Order). get_attempt k >>= check o in
    let (first, d₁, read₁, e₁) =
      >>=-eq-ok (get_attempt k) (λ first. lock_order first.order_id >>= again) db e in
    let (found₁, _, same₁) = get_attempt-found k first db d₁ read₁ in
    let (o, d₂, read₂, e₂) = >>=-eq-ok (lock_order first.order_id) again d₁ e₁ in
    let (found₂, _, same₂) = order_reads first.order_id o d₁ d₂ read₂ in
    let (a, d₃, read₃, e₃) = >>=-eq-ok (get_attempt k) (check o) d₂ e₂ in
    let (found₃, _, same₃) = get_attempt-found k a d₂ d₃ read₃ in
    let (passed, e₄) = after_check (require_pending_retail a o) (rest a o) d₃ e₃ in
    let (waiting, ours, in_retail) = pending_retail a o passed in
    let same : d₃ ≡ db = same₃ ∙ same₂ ∙ same₁ in
    let stored : find (λ (a : PaymentAttempt). a.pk) k db.attempts ≡ some a =
      subst (λ (d : Db). find (λ (a : PaymentAttempt). a.pk) k d.attempts ≡ some a) (same₂ ∙ same₁)
        found₃ in
    let one : first ≡ a = ground (arith, found₁, stored) in
    let order_stored : find (λ (o : Order). o.pk) a.order_id db.orders ≡ some o =
      subst
        (λ (x : PaymentAttempt × Db). find (λ (o : Order). o.pk) x.0.order_id x.1.orders ≡ some o)
        (λ i. (one i, same₁ i)) found₂ in
    (
      a,
      o,
      (stored, waiting, ours, order_stored, in_retail),
      subst (λ (d : Db). rest a o d ≡ ok r) same e₄,
    )

set_transaction-status :
    (t : Option Text) (a b : PaymentAttempt) → set_transaction t a ≡ ok b → b.status ≡ a.status
unfolding set_transaction
set_transaction-status none a b e = ground arith
set_transaction-status (some t) a b e = ground arith

-- A recorded success is read back.
recorded_success :
    (t : Option Text) (k : ℕ) (a' : PaymentAttempt) (db db' : Db)
    → mark_payment_attempt_succeeded t k db ≡ ok (a', db')
    → (find (λ (a : PaymentAttempt). a.pk) k db'.attempts ≡ some a')
      × (a'.status ≡ succeeded)
      × (db'.orders ≡ db.orders)
      × (db'.batches ≡ db.batches)
      × (db'.allocations ≡ db.allocations)
recorded_success t k a' db db' e =
    let (a, found, _, made, key, written) = mark_succeeded_writes t k a' db db' e in
    let stored : find (λ (a : PaymentAttempt). a.pk) a'.pk db.attempts ≡ some a =
      subst (λ n. find (λ (a : PaymentAttempt). a.pk) n db.attempts ≡ some a) (sym key) found in
    let back = find-save_self (λ (a : PaymentAttempt). a.pk) a' db.attempts {old = a} stored in
    (
      rw written (
          subst
            (λ n. find (λ (a : PaymentAttempt). a.pk) n (save (λ x. x.pk) a' db.attempts) ≡ some a')
            key back),
      set_transaction-status t (record a { status = succeeded }) a' made,
      rw written refl,
      rw written refl,
      rw written refl,
    )

-- If the payment of an attempt completes, then the attempt was stored as pending, for a stored
-- retail draft with some reservation in force, and none in force for good. The order is stored again
-- as placed at this instant, no batch changes, and the attempt is stored as succeeded. Each
-- reservation of the order that was in force is kept with its units and no longer runs out, while
-- all other reservations stay as they were.
pub complete_retail_payment-places :
    (now k : ℕ) (t : Option Text) (o' : Order) (db db' : Db)
    → complete_retail_payment now k t db ≡ ok (o', db')
    → (a : PaymentAttempt) × (o : Order) × IsSettling k a o db
      × (o.status ≡ draft)
      × (o'.status ≡ placed)
      × (o'.placed_at ≡ some now)
      × (db'.orders ≡ save (λ o. o.pk) o' db.orders)
      × (db'.batches ≡ db.batches)
      × AreHeld now o.pk db.allocations
      × Zip (IsPromoted now o.pk) db.allocations db'.allocations
      × AreDurable now o.pk db'.allocations
      × ((a' : PaymentAttempt) × (find (λ (a : PaymentAttempt). a.pk) k db'.attempts ≡ some a')
          × (a'.status ≡ succeeded))
unfolding complete_retail_payment
complete_retail_payment-places now k t o' db db' e =
    let preparation = make_order_reservations_permanent_before_placement now in
    let mark =
      λ (a : PaymentAttempt) (o' : Order). mark_payment_attempt_succeeded t a.pk >>= λ _. pure o' in
    let place =
      λ (a : PaymentAttempt) (o : Order). place_order preparation none now o.pk >>= mark a in
    let (a, o, facts, e₁) = settling k place db e in
    let (o₁, mid, placing, e₂) = >>=-eq-ok (place_order preparation none now o.pk) (mark a) db e₁ in
    let (p, found, drafted, is_placed, at, orders, batches, held, promoted, durable) =
      place_order-AreDurable none now o.pk o₁ db mid placing in
    let (a', mid', marked, e₃) =
      >>=-eq-ok (mark_payment_attempt_succeeded t a.pk) (λ _. pure o₁) mid e₂ in
    let (back, won, orders', batches', allocations') = recorded_success t a.pk a' mid mid' marked in
    let ours : o₁ ≡ o' = ground (arith, e₃) in
    let same : db' ≡ mid' = ground (arith, e₃) in
    let key : a.pk ≡ k = find-key (λ (a : PaymentAttempt). a.pk) k db.attempts facts.0 in
    let there : find (λ (o : Order). o.pk) o.pk db.orders ≡ some o =
      subst (λ n. find (λ (o : Order). o.pk) n db.orders ≡ some o) facts.2 facts.3 in
    let one : p ≡ o = ground (arith, found, there) in
    (
      a,
      o,
      facts,
      subst (λ (x : Order). x.status ≡ draft) one drafted,
      subst (λ (x : Order). x.status ≡ placed) ours is_placed,
      subst (λ (x : Order). x.placed_at ≡ some now) ours at,
      rw same (orders' ∙ orders ∙ ap (λ (x : Order). save (λ o. o.pk) x db.orders) ours),
      rw same (batches' ∙ batches),
      held,
      rw same (subst (Zip (IsPromoted now o.pk) db.allocations) (sym allocations') promoted),
      rw same (subst (AreDurable now o.pk) (sym allocations') durable),
      (
        a',
        rw same
            (subst (λ n. find (λ (a : PaymentAttempt). a.pk) n mid'.attempts ≡ some a') key back),
        won,
      ),
    )

-- The units of a batch that an order holds until some instant.
abbrev pub held_for_now : ℕ → ℕ → List Allocation → ℕ
held_for_now o k = sum_by (λ a.
    if k == a.batch_id && (is_reserved_for o a && is_some a.reserved_until) then a.quantity else 0)

released :
    (o k : ℕ) (rows rows' : List Allocation)
    → Zip
        (λ x y.
          (if is_reserved_for o x && is_some x.reserved_until then cancel_allocation x else ok x)
          ≡ ok y)
        rows
        rows'
    → held_for_now o k rows' ≡ 0
unfolding sum_by cancel_allocation is_reserved_for
released o k [] [] z = refl
released o k [] (y ∷ ys) z = elim z [ ]
released o k (x ∷ xs) [] z = elim z [ ]
released o k (x ∷ xs) (y ∷ ys) z = ground (arith, released o k xs ys z.1)

-- If the payment of an attempt is failed, then the attempt was stored as pending, for a stored
-- retail draft. The order and the batches stay as they are, the order holds no units of any batch
-- until some instant, and the attempt is stored as failed.
pub fail_retail_payment-releases :
    (k : ℕ) (a' : PaymentAttempt) (db db' : Db)
    → fail_retail_payment k db ≡ ok (a', db')
    → (a : PaymentAttempt) × (o : Order) × IsSettling k a o db
      × (o.status ≡ draft)
      × (db'.orders ≡ db.orders)
      × (db'.batches ≡ db.batches)
      × ((b : ℕ) → held_for_now o.pk b db'.allocations ≡ 0)
      × (find (λ (a : PaymentAttempt). a.pk) k db'.attempts ≡ some a')
      × (a'.status ≡ failed)
unfolding fail_retail_payment
fail_retail_payment-releases k a' db db' e =
    let mark = λ (a : PaymentAttempt) (u : ⊤). mark_payment_attempt_failed a.pk in
    let cancel_then =
      λ (a : PaymentAttempt) (o : Order). cancel_temporary_reservations_for_order o.pk >>= mark a in
    let refused =
      λ (o : Order). raise_if (not (order_status_eq o.status draft)) invalid_retail_order in
    let fail_it = λ (a : PaymentAttempt) (o : Order). lift (refused o) >>= λ _. cancel_then a o in
    let (a, o, facts, e₁) = settling k fail_it db e in
    let (drafted, e₂) = after_check (refused o) (cancel_then a o) db e₁ in
    let (u, mid, cancelling, e₃) =
      >>=-eq-ok (cancel_temporary_reservations_for_order o.pk) (mark a) db e₂ in
    let (rows, each, written) = cancel_temporary_writes o.pk db mid cancelling in
    let (b, found, _, made, key, written') = mark_failed_writes a.pk a' mid db' e₃ in
    let key' : a.pk ≡ k = find-key (λ (a : PaymentAttempt). a.pk) k db.attempts facts.0 in
    let stored : find (λ (a : PaymentAttempt). a.pk) a'.pk mid.attempts ≡ some b =
      subst (λ n. find (λ (a : PaymentAttempt). a.pk) n mid.attempts ≡ some b) (sym key) found in
    let back = find-save_self (λ (a : PaymentAttempt). a.pk) a' mid.attempts {old = b} stored in
    let selected = λ (a : Allocation). is_reserved_for o.pk a && is_some a.reserved_until in
    let none_held : (b : ℕ) → held_for_now o.pk b mid.allocations ≡ 0 = λ b. rw written (
      released o.pk b db.allocations rows
        (for_each-Zip selected cancel_allocation db.allocations rows each)) in
    (
      a,
      o,
      facts,
      unfold order_status_eq in ground (arith, drafted),
      rw written' (ap (λ (d : Db). d.orders) written),
      rw written' (ap (λ (d : Db). d.batches) written),
      rw written' none_held,
      rw written' (
          subst
            (λ n.
              find (λ (a : PaymentAttempt). a.pk) n (save (λ x. x.pk) a' mid.attempts) ≡ some a')
            (key ∙ key') back),
      ap (λ (x : PaymentAttempt). x.status) made,
    )
