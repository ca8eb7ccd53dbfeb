-- ===== src/Payments/History.antt =====
-- payments/services.py: sequences of operations on payment attempts.
use swedesweets_ops.Prelude.{
  ℕ, ◌≡◌, ◌∙◌, ap, sym, arith, true, false, some, Option, List, [], ◌∷◌, ◌++◌, ok,
}
use swedesweets_ops.Prelude.Rows.{find, save, find-save_ne, update_where}
use swedesweets_ops.Prelude.Texts.{Text}
use swedesweets_ops.Orders.Models.{Order}
use swedesweets_ops.Orders.Contracts.{lock_order}
use swedesweets_ops.Payments.Models.{PaymentAttempt, HostedPaymentSession}
use swedesweets_ops.Payments.Services.{
  is_pending, is_pending_for, cancel_attempt, create_payment_attempt,
  cancel_pending_payment_attempts_for_order, mark_payment_attempt_succeeded,
  mark_payment_attempt_failed, store_session, get_attempt, require_open, check_payment_id,
  save_attempt,
}
use swedesweets_ops.Payments.Attempts.{create_payment_attempt_writes, lock_order_reads}
use swedesweets_ops.Payments.Reconciliation.{
  mark_succeeded_writes, mark_failed_writes, get_attempt-found,
}
use swedesweets_ops.Database.{
  Db, pure, gets, lift, modify, modify-eq-ok, after_check, ◌>>=◌, >>=-eq-ok,
}

-- One operation on the attempts; `stores` is the second transaction of a hosted payment session.
pub data PaymentStep (db db' : Db) : Type 0 where
  creates :
      (order_pk : ℕ) (a : PaymentAttempt)
      → create_payment_attempt order_pk db ≡ ok (a, db')
      → PaymentStep db db'
  cancels :
      (order_pk : ℕ)
      → cancel_pending_payment_attempts_for_order order_pk db ≡ ok (tt, db')
      → PaymentStep db db'
  succeeds :
      (t : Option Text) (k : ℕ) (a : PaymentAttempt)
      → mark_payment_attempt_succeeded t k db ≡ ok (a, db')
      → PaymentStep db db'
  fails :
      (k : ℕ) (a : PaymentAttempt)
      → mark_payment_attempt_failed k db ≡ ok (a, db')
      → PaymentStep db db'
  stores :
      (k : ℕ) (s s' : HostedPaymentSession)
      → store_session k s db ≡ ok (s', db')
      → PaymentStep db db'

pub data PaymentHistory (db : Db) : Db → Type 0 where
  started : PaymentHistory db db
  followed : {mid db' : Db} → PaymentHistory db mid → PaymentStep mid db' → PaymentHistory db db'

-- The attempt with a key, as it is stored.
abbrev pub attempt_at : ℕ → Db → Option PaymentAttempt
attempt_at k db = find (λ a. a.pk) k db.attempts

find-append :
    (k : ℕ) (a b : PaymentAttempt) (rows : List PaymentAttempt)
    → find (λ a. a.pk) k rows ≡ some a
    → find (λ a. a.pk) k (rows ++ b ∷ []) ≡ some a
unfolding find
find-append k a b [] h = absurd cc
find-append k a b (x ∷ rows) h = ground (arith, find-append k a b rows)

find-cancelled :
    (k o : ℕ) (a : PaymentAttempt) (rows : List PaymentAttempt)
    → find (λ a. a.pk) k rows ≡ some a
    → is_pending a ≡ false
    → find (λ a. a.pk) k (update_where (is_pending_for o) cancel_attempt rows) ≡ some a
unfolding find update_where is_pending_for
find-cancelled k o a [] h q = absurd cc
find-cancelled k o a (x ∷ rows) h q = ground (arith, find-cancelled k o a rows)

-- Saving over a pending attempt leaves a settled one as it is.
settled-save :
    (k j : ℕ) (a b b' : PaymentAttempt) (rows : List PaymentAttempt)
    → find (λ a. a.pk) k rows ≡ some a
    → is_pending a ≡ false
    → find (λ a. a.pk) j rows ≡ some b
    → is_pending b ≡ true
    → b'.pk ≡ j
    → find (λ a. a.pk) k (save (λ a. a.pk) b' rows) ≡ some a
settled-save k j a b b' rows h q f p key =
    find-save_ne (λ (a : PaymentAttempt). a.pk) b' k rows
      (λ same.
        let clash : some a ≡ some b =
          sym h ∙ ap (λ n. find (λ (a : PaymentAttempt). a.pk) n rows) (same ∙ key) ∙ f in
        ground arith)
    ∙ h

-- What storing a hosted session writes.
store_session_writes :
    (k : ℕ) (s s' : HostedPaymentSession) (db db' : Db)
    → store_session k s db ≡ ok (s', db')
    → (b : PaymentAttempt) × (attempt_at k db ≡ some b)
      × (is_pending b ≡ true)
      × (b.pk ≡ k)
      × (db' ≡ record db {
        attempts =
            save (λ x. x.pk) (record b { provider_payment_id = s.provider_payment_id }) db.attempts;
      })
unfolding store_session
store_session_writes k s s' db db' e =
    let finish = λ (b : PaymentAttempt).
      save_attempt (record b { provider_payment_id = s.provider_payment_id }) >>= λ _. pure s in
    let checked =
      λ (b : PaymentAttempt) (db : Db). check_payment_id s.provider_payment_id b.pk db.attempts in
    let check = λ (b : PaymentAttempt). gets (checked b) >>= λ c. lift c >>= λ _. finish b in
    let (b, mid, read, rest) =
      >>=-eq-ok (get_attempt k) (λ b. lift (require_open b) >>= λ _. check b) db e in
    let (found, key, same) = get_attempt-found k b db mid read in
    let (opened, more) = after_check (require_open b) (check b) mid rest in
    let (unique, saved) = after_check (checked b mid) (finish b) mid more in
    (
      b,
      found,
      unfold require_open in ground arith,
      key,
      unfold save_attempt in ground (arith, saved, same),
    )

cancels_writes :
    (o : ℕ) (db db' : Db)
    → cancel_pending_payment_attempts_for_order o db ≡ ok (tt, db')
    → db' ≡ record db { attempts = update_where (is_pending_for o) cancel_attempt db.attempts }
unfolding cancel_pending_payment_attempts_for_order
cancels_writes o db db' e =
    let cancelled_for = λ (n : ℕ) (db : Db). record db {
      attempts = update_where (is_pending_for n) cancel_attempt db.attempts;
    } in
    let (order, mid, read, rest) =
      >>=-eq-ok (lock_order o) (λ (order : Order). modify (cancelled_for order.pk)) db e in
    let (same, key) = lock_order_reads o order db mid read in
    modify-eq-ok (cancelled_for order.pk) mid rest
    ∙ ap (cancelled_for order.pk) same
    ∙ ap (λ n. cancelled_for n db) key

PaymentStep-settled :
    (k : ℕ) (a : PaymentAttempt) (db db' : Db)
    → PaymentStep db db'
    → attempt_at k db ≡ some a
    → is_pending a ≡ false
    → attempt_at k db' ≡ some a
PaymentStep-settled k a db db' (creates o b e) h q =
    let (order, amount, read, known, positive, free, made, written) =
      create_payment_attempt_writes o b db db' e in
    ap (attempt_at k) written ∙ find-append k a b db.attempts h
PaymentStep-settled k a db db' (cancels o e) h q =
    ap (attempt_at k) (cancels_writes o db db' e) ∙ find-cancelled k o a db.attempts h q
PaymentStep-settled k a db db' (succeeds t j b' e) h q =
    let (b, found, pend, made, key, written) = mark_succeeded_writes t j b' db db' e in
    ap (attempt_at k) written ∙ settled-save k j a b b' db.attempts h q found pend key
PaymentStep-settled k a db db' (fails j b' e) h q =
    let (b, found, pend, made, key, written) = mark_failed_writes j b' db db' e in
    ap (attempt_at k) written ∙ settled-save k j a b b' db.attempts h q found pend key
PaymentStep-settled k a db db' (stores j s s' e) h q =
    let (b, found, pend, key, written) = store_session_writes j s s' db db' e in
    ap (attempt_at k) written
    ∙ settled-save k j a b (record b { provider_payment_id = s.provider_payment_id }) db.attempts h
        q found pend key

-- An attempt that is no longer pending stays exactly as it is, whatever attempts are created,
-- cancelled, marked as succeeded or failed, or given a hosted session later.
pub PaymentHistory-settled :
    {db db' : Db} (k : ℕ) (a : PaymentAttempt)
    → PaymentHistory db db'
    → attempt_at k db ≡ some a
    → is_pending a ≡ false
    → attempt_at k db' ≡ some a
PaymentHistory-settled k a started h q = h
PaymentHistory-settled k a (followed r s) h q =
    PaymentStep-settled k a _ _ s (PaymentHistory-settled k a r h q) q
