-- ===== src/Retail/Recovery.antt =====
-- retail/payments.py: what a customer is told of a payment, and how the payment is stored.
use swedesweets_ops.Prelude.{
  ℕ, ◌≡◌, refl, sym, ap, ◌⊎◌, inl, inr, arith, Bool, true, false, Option, none, some, ok, err,
  Result, is_empty, not, Bool-cases,
}
use mathlib.Core.Path.{subst}
use swedesweets_ops.Prelude.Texts.{Text}
use swedesweets_ops.Payments.Models.{
  PaymentAttempt, AttemptStatus, pending, succeeded, failed, cancelled, ExternalPaymentState,
}
use swedesweets_ops.Payments.Services.{get_attempt}
use swedesweets_ops.Payments.Reconciliation.{get_attempt-found}
use swedesweets_ops.Retail.HostedPayments.{
  RecoveryAction, continue_payment, confirmed, payment_failed, needs_support, RetailPaymentRecovery,
  recovery, recovery_of, reconciled_recovery, reconcile_retail, reconcile_or_support,
  recover_attempt, recover_retail_payment, on_retail_succeeded, on_retail_failed,
}
use swedesweets_ops.Database.{Db, Process, pure, bind_run, run_atomic}
use swedesweets_ops.Retail.ReconciledRows.{
  IsStored, get_attempt_again, reconcile-reads, raised-IsStored,
}

-- There is a page to go to.
abbrev pub has_url : Option Text → Bool
has_url none = false
has_url (some url) = not (is_empty url)

-- What raised, of a process.
abbrev pub has_raised : {A : Type 0} → Result A × Db → Bool
has_raised (ok a, db) = false
has_raised (err e, db) = true

-- What the customer is told of the attempt `r.attempt`, when it was first read as `a`.
abbrev pub Agrees : PaymentAttempt → Bool → RetailPaymentRecovery → Type 0
Agrees a raised r =
    (r.action ≡ confirmed → r.attempt.status ≡ succeeded)
    × (r.action ≡ payment_failed → (r.attempt.status ≡ failed) ⊎ (r.attempt.status ≡ cancelled))
    × (r.action ≡ continue_payment → (r.attempt.status ≡ pending) × (has_url r.redirect_url ≡ true))
    × (r.action ≡ needs_support → (r.attempt.status ≡ pending) ⊎ (raised ≡ true))
    × (a.status ≡ succeeded → r.action ≡ confirmed)
    × (a.status ≡ failed → r.action ≡ payment_failed)

-- An answer that is given, of an attempt that is stored as it is returned.
abbrev pub IsAnswer : PaymentAttempt → Bool → Result RetailPaymentRecovery × Db → Type 0
IsAnswer a raised x =
    (r : RetailPaymentRecovery) × (x.0 ≡ ok r)
    × (get_attempt r.attempt.pk x.1 ≡ ok (r.attempt, x.1))
    × Agrees a raised r

reconciled-Agrees :
    (a b : PaymentAttempt) (x : ExternalPaymentState)
    → (a.status ≡ pending) ⊎ (a.status ≡ cancelled)
    → Agrees a false (reconciled_recovery b x)
unfolding reconciled_recovery
reconciled-Agrees a b x waiting = ground arith

reconciled_attempt :
    (a : PaymentAttempt) (x : ExternalPaymentState) → (reconciled_recovery a x).attempt ≡ a
unfolding reconciled_recovery
reconciled_attempt a x = ground arith

module _ (now : ℕ) (get_payment : Text → Process ExternalPaymentState) (others : Db → Db)
    (a : PaymentAttempt)
    (keeps : (id : Text) (d : Db) → IsStored a.pk d → IsStored a.pk (get_payment id d).1)
    (others-keep : (d : Db) → IsStored a.pk d → IsStored a.pk (others d)) (db : Db)
    (read : get_attempt a.pk db ≡ ok (a, db)) where
  -- An answer on the rows as they are.
  told :
      (raised : Bool) (x : Result RetailPaymentRecovery × Db) (action : RecoveryAction)
      → x ≡ (ok (recovery a action none), db)
      → Agrees a raised (recovery a action none)
      → IsAnswer a raised x
  told raised x action e h =
      subst (IsAnswer a raised) (sym e) (recovery a action none, refl, read, h)

  given-IsAnswer :
      (run : Result (PaymentAttempt × ExternalPaymentState) × Db)
      → reconcile_retail now get_payment a.pk db ≡ run
      → (a.status ≡ pending) ⊎ (a.status ≡ cancelled)
      → IsAnswer a (has_raised run) (recovery_of others a.pk run)
  unfolding reconcile_retail recovery_of
  given-IsAnswer (ok r, d) e waiting =
      let back =
        reconcile-reads (on_retail_succeeded now) on_retail_failed get_payment a.pk r.0 r.1 db d
          e in
      (
        reconciled_recovery r.0 r.1,
        refl,
        subst (λ (b : PaymentAttempt). get_attempt b.pk d ≡ ok (b, d))
            (sym (reconciled_attempt r.0 r.1)) back,
        reconciled-Agrees a r.0 r.1 waiting,
      )
  given-IsAnswer (err z, d) e waiting =
      let left =
        raised-IsStored (on_retail_succeeded now) on_retail_failed get_payment a.pk keeps z db d
          (a, read) e in
      let (b, fresh) = others-keep d left in
      let answer : recovery_of others a.pk (err z, d)
          ≡ (ok (recovery b needs_support none), others d) =
        ap
          (λ run.
            run_atomic (λ d. bind_run run (λ b. pure (recovery b needs_support none))) (others d))
          fresh in
      subst (IsAnswer a true) (sym answer) (
        recovery b needs_support none,
        refl,
        get_attempt_again a.pk b (others d) (others d) fresh,
        ground arith,
      )

  reconcile-IsAnswer :
      (a.status ≡ pending) ⊎ (a.status ≡ cancelled)
      → IsAnswer a
          (has_raised (reconcile_retail now get_payment a.pk db))
          (reconcile_or_support now get_payment others a db)
  unfolding reconcile_or_support
  reconcile-IsAnswer waiting =
      given-IsAnswer (reconcile_retail now get_payment a.pk db) refl waiting

  abbrev recovered : Result RetailPaymentRecovery × Db
  recovered = recover_attempt now get_payment others a db

  abbrev raised : Bool
  raised = has_raised (reconcile_retail now get_payment a.pk db)

  recover-IsAnswer : (s : AttemptStatus) → a.status ≡ s → IsAnswer a raised recovered
  unfolding recover_attempt
  recover-IsAnswer succeeded q = told raised recovered confirmed (ground (arith, q)) (ground arith)
  recover-IsAnswer failed q =
      told raised recovered payment_failed (ground (arith, q)) (ground arith)
  recover-IsAnswer cancelled q = elim (Bool-cases (is_empty a.provider_payment_id)) [
    | inl absent ↦ told raised recovered payment_failed (ground (arith, q, absent)) (ground arith)
    | inr present ↦
        let same : recovered ≡ reconcile_or_support now get_payment others a db =
          ground (arith, q, present) in
        subst (IsAnswer a raised) (sym same) (reconcile-IsAnswer (inr q))
  ]
  recover-IsAnswer pending q = elim (Bool-cases (is_empty a.provider_payment_id)) [
    | inl absent ↦ told raised recovered needs_support (ground (arith, q, absent)) (ground arith)
    | inr present ↦
        let same : recovered ≡ reconcile_or_support now get_payment others a db =
          ground (arith, q, present) in
        subst (IsAnswer a raised) (sym same) (reconcile-IsAnswer (inl q))
  ]

-- If an attempt is stored, and the other requests, which run while the provider is asked and before
-- the attempt is read again after an exception, leave it stored, then recovering its payment always
-- gives an answer, whatever the provider answers and whatever raises on the way. The attempt that it
-- names is stored as it is returned. The customer is told that the payment is confirmed only when
-- that attempt has succeeded, that it failed only when it has failed or was cancelled, to go on
-- paying only while it is pending and there is a page to go to, and to ask support only while it is
-- pending or when the reconciliation raised. A payment that had succeeded at first is confirmed, and
-- one that had failed is told as failed.
pub recover_retail_payment-IsAnswer :
    (now : ℕ) (get_payment : Text → Process ExternalPaymentState) (others : Db → Db) (k : ℕ)
    (a : PaymentAttempt) (db : Db)
    → ((id : Text) (d : Db) → IsStored k d → IsStored k (get_payment id d).1)
    → ((d : Db) → IsStored k d → IsStored k (others d))
    → get_attempt k db ≡ ok (a, db)
    → IsAnswer a
        (has_raised (reconcile_retail now get_payment k db))
        (recover_retail_payment now get_payment others k db)
unfolding recover_retail_payment
recover_retail_payment-IsAnswer now get_payment others k a db keeps others-keep read =
    let (_, key, _) = get_attempt-found k a db db read in
    let again = get_attempt_again k a db db read in
    let same : recover_retail_payment now get_payment others k db
        ≡ recover_attempt now get_payment others a db =
      ground (arith, read) in
    let at_key =
      recover-IsAnswer now get_payment others a
        (subst (λ n. (id : Text) (d : Db) → IsStored n d → IsStored n (get_payment id d).1)
          (sym key) keeps)
        (subst (λ n. (d : Db) → IsStored n d → IsStored n (others d)) (sym key) others-keep) db
        again a.status refl in
    subst
      (λ (x : ℕ × (Result RetailPaymentRecovery × Db)).
        IsAnswer a (has_raised (reconcile_retail now get_payment x.0 db)) x.1)
      (λ i. (key i, sym same i)) at_key
