-- ===== src/Payments/Attempts.antt =====
-- payments/services.py: the pending attempts of an order.
use swedesweets_ops.Prelude.{
  ℕ, ◌≤◌, ◌<◌, ◌≡◌, refl, ◌∙◌, ap, sym, Bool, false, ◌==◌, if◌then◌else◌, arith, Option, none, some,
  List, [], ◌∷◌, ◌++◌, sum_by, sum_by-append, any, ok, raise_if, invalid_payment_attempt,
}
use swedesweets_ops.Prelude.Rows.{update_where}
use swedesweets_ops.Orders.Models.{Order}
use swedesweets_ops.Orders.Contracts.{lock_order}
use swedesweets_ops.Payments.Models.{PaymentAttempt, pending}
use swedesweets_ops.Payments.Services.{
  is_pending_for, total_of_order, payable, new_attempt, insert_attempt, cancel_attempt,
  create_payment_attempt, cancel_pending_payment_attempts_for_order,
}
use swedesweets_ops.Database.{
  Db, pure, gets, lift, modify, after_check, lift_then, modify-eq-ok, get_row-found, ◌>>=◌,
  >>=-eq-ok,
}

-- The number of pending attempts of an order.
abbrev pub pending_count : ℕ → List PaymentAttempt → ℕ
pending_count o = sum_by (λ a. if is_pending_for o a then 1 else 0)

-- No order has two pending attempts.
abbrev pub AtMostOnePending : Db → Type 0
AtMostOnePending db = (o : ℕ) → pending_count o db.attempts ≤ 1

none_pending :
    (o : ℕ) (rows : List PaymentAttempt)
    → any (is_pending_for o) rows ≡ false
    → pending_count o rows ≡ 0
unfolding any sum_by
none_pending o [] h = refl
none_pending o (a ∷ rows) h = ground (arith, none_pending o rows)

pub lock_order_reads :
    (k : ℕ) (o : Order) (db mid : Db) → lock_order k db ≡ ok (o, mid) → (mid ≡ db) × (o.pk ≡ k)
unfolding lock_order
lock_order_reads k o db mid e =
    let (found, key, same) = get_row-found (λ db. db.orders) (λ (o : Order). o.pk) k db e in
    (same, key)

payable-positive : (total : Option ℕ) (n : ℕ) → payable total ≡ ok n → (total ≡ some n) × (0 < n)
unfolding payable
payable-positive none n e = absurd cc
payable-positive (some m) n e = ground arith

-- What a created attempt is made of: its order had a known and positive total, and no attempt
-- that was pending.
pub create_payment_attempt_writes :
    (k : ℕ) (a : PaymentAttempt) (db db' : Db)
    → create_payment_attempt k db ≡ ok (a, db')
    → (order : Order) × (amount : ℕ) × (lock_order k db ≡ ok (order, db))
      × (total_of_order order.pk db ≡ some amount)
      × (0 < amount)
      × (any (is_pending_for order.pk) db.attempts ≡ false)
      × (a ≡ new_attempt order amount db.next_pk)
      × (db' ≡ insert_attempt a db)
unfolding create_payment_attempt
create_payment_attempt_writes k a db db' e =
    let insert = λ (order : Order) (amount : ℕ). gets (λ db. db.next_pk) >>= λ pk.
    modify (insert_attempt (new_attempt order amount pk)) >>= λ _.
    pure (new_attempt order amount pk) in
    let busy = λ (order : Order) (db : Db). any (is_pending_for order.pk) db.attempts in
    let refused = λ (taken : Bool). raise_if taken invalid_payment_attempt in
    let check = λ (order : Order) (amount : ℕ).
      gets (busy order) >>= λ taken. lift (refused taken) >>= λ _. insert order amount in
    let price = λ (order : Order).
      gets (total_of_order order.pk) >>= λ total. lift (payable total) >>= check order in
    let (order, mid, read, rest) = >>=-eq-ok (lock_order k) price db e in
    let (same, key) = lock_order_reads k order db mid read in
    let (amount, paid, checked) =
      lift_then (payable (total_of_order order.pk mid)) (check order) mid rest in
    let (free, made) = after_check (refused (busy order mid)) (insert order amount) mid checked in
    let (known, positive) = payable-positive (total_of_order order.pk mid) amount paid in
    (
      order,
      amount,
      read ∙ ap (λ d. ok (order, d)) same,
      ap (total_of_order order.pk) (sym same) ∙ known,
      positive,
      ground (arith, free, same),
      ground (arith, made, same),
      ground (arith, made, same),
    )

pending_count-insert :
    (o amount pk : ℕ) (order : Order) (rows : List PaymentAttempt)
    → any (is_pending_for order.pk) rows ≡ false
    → pending_count o rows ≤ 1
    → pending_count o (rows ++ new_attempt order amount pk ∷ []) ≤ 1
unfolding new_attempt is_pending_for sum_by
pending_count-insert o amount pk order rows free most = ground (
  arith,
  none_pending o rows,
  sum_by-append (λ (a : PaymentAttempt). if is_pending_for o a then 1 else 0) rows
      (new_attempt order amount pk ∷ []),
)

-- If no order has two pending attempts, then still none has after a new attempt is created. The new
-- one is pending, and for the positive total that the order's lines have at that moment.
pub create_payment_attempt-AtMostOnePending :
    (k : ℕ) (a : PaymentAttempt) (db db' : Db)
    → AtMostOnePending db
    → create_payment_attempt k db ≡ ok (a, db')
    → AtMostOnePending db'
      × (total_of_order a.order_id db ≡ some a.amount)
      × (0 < a.amount)
      × (a.status ≡ pending)
create_payment_attempt-AtMostOnePending k a db db' most e =
    let (order, amount, read, known, positive, free, made, written) =
      create_payment_attempt_writes k a db db' e in
    rw (written, made)
      (unfold new_attempt in
        (
          λ o. pending_count-insert o amount db.next_pk order db.attempts free (most o),
          known,
          positive,
          refl,
        ))

cancelled_count :
    (o k : ℕ) (rows : List PaymentAttempt)
    → pending_count o (update_where (is_pending_for k) cancel_attempt rows)
      ≡ (if o == k then 0 else pending_count o rows)
unfolding sum_by update_where is_pending_for
cancelled_count o k [] = ground arith
cancelled_count o k (a ∷ rows) = ground (arith, cancelled_count o k rows)

-- After an order's pending attempts are cancelled it has none, and every other order has as many as
-- before.
pub cancel_pending-counts :
    (k o : ℕ) (db db' : Db)
    → cancel_pending_payment_attempts_for_order k db ≡ ok (tt, db')
    → pending_count o db'.attempts ≡ (if o == k then 0 else pending_count o db.attempts)
unfolding cancel_pending_payment_attempts_for_order
cancel_pending-counts k o db db' e =
    let cancels = λ (order : Order). modify (λ db. record db {
      attempts = update_where (is_pending_for order.pk) cancel_attempt db.attempts;
    }) in
    let (order, mid, read, rest) = >>=-eq-ok (lock_order k) cancels db e in
    let (same, key) = lock_order_reads k order db mid read in
    rw
      (
        modify-eq-ok
            (λ db. record db {
              attempts = update_where (is_pending_for order.pk) cancel_attempt db.attempts;
            })
            mid rest,
        same,
        key,
      )
      (cancelled_count o k db.attempts)
