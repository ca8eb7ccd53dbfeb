-- ===== src/Retail/HostedPayments.antt =====
-- retail/payments.py: paying at the provider, and telling the customer how a payment stands. The
-- provider's calls are parameters: other requests may change the rows while one runs, also when it
-- raises. Each service commits on its own, so what one has done stays when a later one raises.
use swedesweets_ops.Prelude.{ℕ, Option, none, some, is_empty, Result, ok, err, if◌then◌else◌}
use swedesweets_ops.Prelude.Texts.{Text}
use swedesweets_ops.Payments.Models.{
  PaymentAttempt, pending, succeeded, failed, cancelled, ExternalPaymentState, HostedPaymentSession,
  HostedPaymentRequest,
}
use swedesweets_ops.Payments.Services.{
  get_attempt, create_hosted_payment_session, reconcile_payment_attempt,
}
use swedesweets_ops.Retail.PaymentServices.{
  start_retail_payment, complete_retail_payment, fail_retail_payment,
}
use swedesweets_ops.Database.{Db, Action, ⊤, pure, ◌>>=◌, Process, run_atomic, then_run}

-- RetailPaymentRecoveryAction
pub data RecoveryAction : Type 0 where
  continue_payment confirmed payment_failed needs_support : RecoveryAction

pub record RetailPaymentRedirect : Type 0 where
  pub attempt : PaymentAttempt
  pub redirect_url : Text

pub record RetailPaymentRecovery : Type 0 where
  pub attempt : PaymentAttempt
  pub action : RecoveryAction
  pub redirect_url : Option Text

-- The callbacks of a reconciliation.
unfoldable pub on_retail_succeeded : ℕ → PaymentAttempt → Option Text → Action ⊤
unfolding complete_retail_payment
on_retail_succeeded now a transaction =
    complete_retail_payment now a.pk transaction >>= λ o. pure tt

unfoldable pub on_retail_failed : PaymentAttempt → Action ⊤
unfolding fail_retail_payment
on_retail_failed a = fail_retail_payment a.pk >>= λ b. pure tt

abbrev pub recovery : PaymentAttempt → RecoveryAction → Option Text → RetailPaymentRecovery
recovery a action url = record { attempt = a; action = action; redirect_url = url }

-- The `match` on the reconciled status.
unfoldable pub reconciled_recovery : PaymentAttempt → ExternalPaymentState → RetailPaymentRecovery
reconciled_recovery a external = elim a.status [
  | succeeded ↦ recovery a confirmed none
  | failed ↦ recovery a payment_failed none
  | cancelled ↦ recovery a payment_failed none
  | pending ↦ elim external.hosted_payment_url [
    | none ↦ recovery a needs_support none
    | some url ↦
        if is_empty url
        then recovery a needs_support none
        else recovery a continue_payment (some url)
  ]
]

-- What is made of a reconciliation. After an exception the attempt is read again, from the rows as
-- `others`, the requests that run meanwhile, have left them.
unfoldable pub recovery_of :
    (Db → Db)
    → ℕ
    → Result (PaymentAttempt × ExternalPaymentState) × Db
    → Result RetailPaymentRecovery × Db
unfolding get_attempt reconciled_recovery
recovery_of others attempt_pk (ok r, db) = (ok (reconciled_recovery r.0 r.1), db)
recovery_of others attempt_pk (err e, db) =
    run_atomic (get_attempt attempt_pk >>= λ b. pure (recovery b needs_support none)) (others db)

abbrev redirect : HostedPaymentSession → PaymentAttempt → RetailPaymentRedirect
redirect session a = record { attempt = a; redirect_url = session.redirect_url }

module _ (create_payment : HostedPaymentRequest → Process HostedPaymentSession)
    (customer_return_url webhook_url : Text) where
  -- `_create_retail_hosted_payment_session`, and retry_retail_hosted_payment
  unfoldable pub retry_retail_hosted_payment : ℕ → Process RetailPaymentRedirect
  unfolding create_hosted_payment_session get_attempt
  retry_retail_hosted_payment attempt_pk =
      then_run
        (create_hosted_payment_session create_payment customer_return_url webhook_url attempt_pk)
        λ session. run_atomic (get_attempt attempt_pk >>= λ a. pure (redirect session a))

  unfoldable pub begin_retail_hosted_payment : ℕ → ℕ → ℕ → Process RetailPaymentRedirect
  unfolding start_retail_payment retry_retail_hosted_payment
  begin_retail_hosted_payment now today checkout_pk =
      then_run (run_atomic (start_retail_payment now today checkout_pk))
        λ a. retry_retail_hosted_payment a.pk

module _ (now : ℕ) (get_payment : Text → Process ExternalPaymentState) where
  unfoldable pub reconcile_retail : ℕ → Process (PaymentAttempt × ExternalPaymentState)
  unfolding reconcile_payment_attempt on_retail_succeeded on_retail_failed
  reconcile_retail =
      reconcile_payment_attempt (on_retail_succeeded now) on_retail_failed get_payment

  unfoldable pub reconcile_retail_payment : ℕ → Process PaymentAttempt
  unfolding reconcile_retail
  reconcile_retail_payment attempt_pk =
      then_run (reconcile_retail attempt_pk) λ result db. (ok result.0, db)

  module _ (others : Db → Db) where
    -- The part of recover_retail_payment from `try` on.
    unfoldable pub reconcile_or_support : PaymentAttempt → Process RetailPaymentRecovery
    unfolding reconcile_retail recovery_of
    reconcile_or_support a db = recovery_of others a.pk (reconcile_retail a.pk db)

    unfoldable pub recover_attempt : PaymentAttempt → Process RetailPaymentRecovery
    unfolding reconcile_or_support
    recover_attempt a db =
        let reconciled = reconcile_or_support a db in
        elim a.status [
          | succeeded ↦ (ok (recovery a confirmed none), db)
          | failed ↦ (ok (recovery a payment_failed none), db)
          | cancelled ↦
              if is_empty a.provider_payment_id
              then (ok (recovery a payment_failed none), db)
              else reconciled
          | pending ↦
              if is_empty a.provider_payment_id
              then (ok (recovery a needs_support none), db)
              else reconciled
        ]

    unfoldable pub recover_retail_payment : ℕ → Process RetailPaymentRecovery
    unfolding get_attempt recover_attempt
    recover_retail_payment attempt_pk =
        then_run (run_atomic (get_attempt attempt_pk)) recover_attempt
