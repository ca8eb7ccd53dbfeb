-- ===== src/Payments/Reconciliation.antt =====
-- payments/services.py: repeated reports of the provider on one attempt.
use swedesweets_ops.Prelude.{
  ℕ, ◌≡◌, ◌⊎◌, inl, ◌∙◌, ap, sym, refl, true, false, raise_if, invalid_payment_attempt, Option,
  none, some, arith, ok, not,
}
use swedesweets_ops.Prelude.Rows.{find, save, find-save_self}
use swedesweets_ops.Prelude.Texts.{Text, strip}
use swedesweets_ops.Prelude.TextOrder.{text_eq_refl}
use swedesweets_ops.Payments.Models.{
  PaymentAttempt, AttemptStatus, ExternalPaymentState, ExternalPaymentStatus, pending, succeeded,
  failed, cancelled, external_pending, external_succeeded, external_failed, external_other,
}
use swedesweets_ops.Payments.Services.{
  get_attempt, set_transaction, mark_payment_attempt_succeeded, mark_payment_attempt_failed,
  save_attempt, transaction_conflicts, reconcile_succeeded, reconcile_failed, reconcile_reported,
  apply_reconciliation, is_pending,
}
use swedesweets_ops.Database.{
  Db, bind_run, Action, ⊤, pure, ◌>>=◌, ◌>>◌, >>=-eq-ok, get_row-found, lift, after_check,
  lift_then,
}

-- The callbacks that only record the outcome on the attempt.
unfoldable pub record_success : PaymentAttempt → Option Text → Action ⊤
unfolding mark_payment_attempt_succeeded
record_success a transaction = mark_payment_attempt_succeeded transaction a.pk >> pure tt

unfoldable pub record_failure : PaymentAttempt → Action ⊤
unfolding mark_payment_attempt_failed
record_failure a = mark_payment_attempt_failed a.pk >> pure tt

-- A transaction identifier that has no surrounding blanks.
abbrev pub IsTrimmed : Option Text → Type 0
IsTrimmed none = Unit
IsTrimmed (some t) = strip t ≡ t

pub get_attempt-found :
    (k : ℕ) (a : PaymentAttempt) (db mid : Db)
    → get_attempt k db ≡ ok (a, mid)
    → (find (λ (a : PaymentAttempt). a.pk) k db.attempts ≡ some a) × (a.pk ≡ k) × (mid ≡ db)
unfolding get_attempt
get_attempt-found k a db mid e =
    get_row-found (λ db. db.attempts) (λ (a : PaymentAttempt). a.pk) k db e

-- Setting the transaction changes nothing else, and does not read the status.
set_transaction_succeeded :
    (t : Option Text) (a b : PaymentAttempt)
    → set_transaction t a ≡ ok b
    → (set_transaction t (record a { status = succeeded }) ≡ ok (record b { status = succeeded }))
      × (b.pk ≡ a.pk)
unfolding set_transaction
set_transaction_succeeded none a b e = ground arith
set_transaction_succeeded (some t) a b e = ground arith

pub save_attempt-result :
    (a a' : PaymentAttempt) (db db' : Db)
    → (save_attempt a >>= λ _. pure a) db ≡ ok (a', db')
    → (a' ≡ a) × (db' ≡ record db { attempts = save (λ x. x.pk) a db.attempts })
unfolding save_attempt
save_attempt-result a a' db db' e = ground arith

-- What recording a success writes.
pub mark_succeeded_writes :
    (t : Option Text) (k : ℕ) (a' : PaymentAttempt) (db db' : Db)
    → mark_payment_attempt_succeeded t k db ≡ ok (a', db')
    → (a : PaymentAttempt) × (find (λ (a : PaymentAttempt). a.pk) k db.attempts ≡ some a)
      × (is_pending a ≡ true)
      × (set_transaction t (record a { status = succeeded }) ≡ ok a')
      × (a'.pk ≡ k)
      × (db' ≡ record db { attempts = save (λ x. x.pk) a' db.attempts })
unfolding mark_payment_attempt_succeeded
mark_succeeded_writes t k a' db db' e =
    let finish = λ (a : PaymentAttempt).
      let b = record a { status = succeeded } in save_attempt b >>= λ _. pure b in
    let record_it = λ (a : PaymentAttempt). lift (set_transaction t a) >>= finish in
    let refused = λ (a : PaymentAttempt). raise_if (not (is_pending a)) invalid_payment_attempt in
    let (a, mid, read, rest) =
      >>=-eq-ok (get_attempt k) (λ a. lift (refused a) >>= λ _. record_it a) db e in
    let (found, key, same) = get_attempt-found k a db mid read in
    let (pend, recorded) = after_check (refused a) (record_it a) mid rest in
    let (b, changed, written) = lift_then (set_transaction t a) finish mid recorded in
    let (made, saved) = save_attempt-result (record b { status = succeeded }) a' mid db' written in
    let (marked, keyed) = set_transaction_succeeded t a b changed in
    (
      a,
      found,
      ground arith,
      marked ∙ ap ok (sym made),
      ap (λ x. x.pk) made ∙ keyed ∙ key,
      ground (arith, saved, same, made),
    )

-- After a success is recorded, the attempt is read back as it was written.
record_success-reads :
    (t : Option Text) (a a' : PaymentAttempt) (db db' : Db)
    → (record_success a t >> get_attempt a.pk) db ≡ ok (a', db')
    → (stored : PaymentAttempt) × (set_transaction t (record stored { status = succeeded }) ≡ ok a')
      × (get_attempt a.pk db' ≡ ok (a', db'))
unfolding record_success
record_success-reads t a a' db db' e =
    let (u, mid, wrote, read) = >>=-eq-ok (record_success a t) (λ _. get_attempt a.pk) db e in
    let (b, mid', marked, done) =
      >>=-eq-ok (mark_payment_attempt_succeeded t a.pk) (λ _. pure tt) db wrote in
    let (stored, found, pend, made, key, written) = mark_succeeded_writes t a.pk b db mid' marked in
    let (found', key', same) = get_attempt-found a.pk a' mid db' read in
    let now : mid ≡ mid' = ground arith in
    let saved : find (λ (x : PaymentAttempt). x.pk) a.pk mid.attempts ≡ some b =
      rw (now, written, sym key)
        (find-save_self (λ (x : PaymentAttempt). x.pk) b db.attempts
          (ap (λ n. find (λ (x : PaymentAttempt). x.pk) n db.attempts) key ∙ found)) in
    let read_back : b ≡ a' = ground (arith, saved, found') in
    (
      stored,
      made ∙ ap ok read_back,
      ap (get_attempt a.pk) same ∙ read ∙ ap (λ d. ok (a', d)) (refl),
    )

pub mark_failed_writes :
    (k : ℕ) (a' : PaymentAttempt) (db db' : Db)
    → mark_payment_attempt_failed k db ≡ ok (a', db')
    → (a : PaymentAttempt) × (find (λ (a : PaymentAttempt). a.pk) k db.attempts ≡ some a)
      × (is_pending a ≡ true)
      × (a' ≡ record a { status = failed })
      × (a'.pk ≡ k)
      × (db' ≡ record db { attempts = save (λ x. x.pk) a' db.attempts })
unfolding mark_payment_attempt_failed
mark_failed_writes k a' db db' e =
    let finish = λ (a : PaymentAttempt).
      let b = record a { status = failed } in save_attempt b >>= λ _. pure b in
    let refused = λ (a : PaymentAttempt). raise_if (not (is_pending a)) invalid_payment_attempt in
    let (a, mid, read, rest) =
      >>=-eq-ok (get_attempt k) (λ a. lift (refused a) >>= λ _. finish a) db e in
    let (found, key, same) = get_attempt-found k a db mid read in
    let (pend, written) = after_check (refused a) (finish a) mid rest in
    let (made, saved) = save_attempt-result (record a { status = failed }) a' mid db' written in
    (a, found, ground arith, made, ap (λ x. x.pk) made ∙ key, ground (arith, saved, same, made))

record_failure-reads :
    (a a' : PaymentAttempt) (db db' : Db)
    → (record_failure a >> get_attempt a.pk) db ≡ ok (a', db')
    → (a'.status ≡ failed) × (get_attempt a.pk db' ≡ ok (a', db'))
unfolding record_failure
record_failure-reads a a' db db' e =
    let (u, mid, wrote, read) = >>=-eq-ok (record_failure a) (λ _. get_attempt a.pk) db e in
    let (b, mid', marked, done) =
      >>=-eq-ok (mark_payment_attempt_failed a.pk) (λ _. pure tt) db wrote in
    let (stored, found, pend, made, key, written) = mark_failed_writes a.pk b db mid' marked in
    let (found', key', same) = get_attempt-found a.pk a' mid db' read in
    let now : mid ≡ mid' = ground arith in
    let saved : find (λ (x : PaymentAttempt). x.pk) a.pk mid.attempts ≡ some b =
      rw (now, written, sym key)
        (find-save_self (λ (x : PaymentAttempt). x.pk) b db.attempts
          (ap (λ n. find (λ (x : PaymentAttempt). x.pk) n db.attempts) key ∙ found)) in
    let read_back : b ≡ a' = ground (arith, saved, found') in
    (ap (λ x. x.status) (sym read_back ∙ made), ap (get_attempt a.pk) same ∙ read)

-- A recorded success does not conflict with the same report.
no_conflict :
    (t : Option Text) (stored a : PaymentAttempt)
    → IsTrimmed t
    → set_transaction t (record stored { status = succeeded }) ≡ ok a
    → (a.status ≡ succeeded) × (transaction_conflicts t a.provider_transaction_id ≡ false)
unfolding transaction_conflicts set_transaction
no_conflict none stored a h e = ground arith
no_conflict (some t) stored a h e = ground (arith, text_eq_refl t)

accepts_success :
    (t : Option Text) (a : PaymentAttempt) (db : Db)
    → a.status ≡ succeeded
    → transaction_conflicts t a.provider_transaction_id ≡ false
    → reconcile_succeeded record_success record_failure t a db ≡ ok (a, db)
unfolding reconcile_succeeded
accepts_success t a db q c = ground arith

accepts_failure :
    (a : PaymentAttempt) (db : Db)
    → a.status ≡ failed ⊎ a.status ≡ cancelled
    → reconcile_failed record_success record_failure a db ≡ ok (a, db)
unfolding reconcile_failed
accepts_failure a db q = ground arith

module _ (a a' : PaymentAttempt) (db db' : Db) (read : get_attempt a.pk db ≡ ok (a, db)) where
  reconcile_succeeded-repeats :
      (t : Option Text) (s : AttemptStatus)
      → a.status ≡ s
      → IsTrimmed t
      → reconcile_succeeded record_success record_failure t a db ≡ ok (a', db')
      → (get_attempt a.pk db' ≡ ok (a', db'))
        × (reconcile_succeeded record_success record_failure t a' db' ≡ ok (a', db'))
  unfolding reconcile_succeeded
  reconcile_succeeded-repeats t pending q h e =
      let recorded : (record_success a t >> get_attempt a.pk) db ≡ ok (a', db') = ground arith in
      let (stored, made, back) = record_success-reads t a a' db db' recorded in
      let (status, agrees) = no_conflict t stored a' h made in
      (back, accepts_success t a' db' status agrees)
  reconcile_succeeded-repeats t succeeded q h e =
      (ground arith, accepts_success t a' db' (ground arith) (ground arith))
  reconcile_succeeded-repeats t failed q h e = absurd (ground arith)
  reconcile_succeeded-repeats t cancelled q h e = absurd (ground arith)

  reconcile_failed-repeats :
      (s : AttemptStatus)
      → a.status ≡ s
      → reconcile_failed record_success record_failure a db ≡ ok (a', db')
      → (get_attempt a.pk db' ≡ ok (a', db'))
        × (reconcile_failed record_success record_failure a' db' ≡ ok (a', db'))
  unfolding reconcile_failed
  reconcile_failed-repeats pending q e =
      let recorded : (record_failure a >> get_attempt a.pk) db ≡ ok (a', db') = ground arith in
      let (status, back) = record_failure-reads a a' db db' recorded in
      (back, accepts_failure a' db' (inl status))
  reconcile_failed-repeats succeeded q e = absurd (ground arith)
  reconcile_failed-repeats failed q e = (ground arith, accepts_failure a' db' (ground arith))
  reconcile_failed-repeats cancelled q e = (ground arith, accepts_failure a' db' (ground arith))

  reconcile_reported-repeats :
      (external : ExternalPaymentState) (s : ExternalPaymentStatus)
      → external.status ≡ s
      → IsTrimmed external.provider_transaction_id
      → reconcile_reported record_success record_failure external a db ≡ ok (a', db')
      → (get_attempt a.pk db' ≡ ok (a', db'))
        × (reconcile_reported record_success record_failure external a' db' ≡ ok (a', db'))
  unfolding reconcile_reported
  reconcile_reported-repeats external external_pending q h e = (ground arith, ground arith)
  reconcile_reported-repeats external external_succeeded q h e =
      rw q (
        reconcile_succeeded-repeats external.provider_transaction_id a.status refl h (ground arith))
  reconcile_reported-repeats external external_failed q h e =
      rw q (reconcile_failed-repeats a.status refl (ground arith))
  reconcile_reported-repeats external external_other q h e = absurd (ground arith)

-- If the callbacks only record the outcome on the attempt, and the reported transaction has no
-- surrounding blanks, then a report that was accepted once is accepted again: it gives the same
-- attempt and changes nothing.
pub apply_reconciliation-repeats :
    (k : ℕ) (external : ExternalPaymentState) (a : PaymentAttempt) (db db' : Db)
    → IsTrimmed external.provider_transaction_id
    → apply_reconciliation record_success record_failure k external db ≡ ok (a, db')
    → apply_reconciliation record_success record_failure k external db' ≡ ok (a, db')
unfolding apply_reconciliation
apply_reconciliation-repeats k external a db db' h e =
    let reported = reconcile_reported record_success record_failure external in
    let (found, mid, read, rest) = >>=-eq-ok (get_attempt k) reported db e in
    let (there, key, same) = get_attempt-found k found db mid read in
    let again : get_attempt found.pk mid ≡ ok (found, mid) =
      rw (key, same) (read ∙ ap (λ d. ok (found, d)) same) in
    let (back, repeated) =
      reconcile_reported-repeats found a mid db' again external external.status refl h rest in
    ap (λ r. bind_run r reported) (ap (λ n. get_attempt n db') (sym key) ∙ back) ∙ repeated
