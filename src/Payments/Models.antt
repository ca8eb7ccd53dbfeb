-- ===== src/Payments/Models.antt =====
-- payments/models.py and payments/contracts.py: a payment attempt, and what a provider says of it.
use swedesweets_ops.Prelude.{ℕ, Bool, true, false, Option}
use swedesweets_ops.Prelude.Texts.{Text}
use swedesweets_ops.Pricing.Models.{Currency}

-- PaymentAttempt.Status
pub data AttemptStatus : Type 0 where
  pending succeeded failed cancelled : AttemptStatus

-- PaymentAttempt, whose provider is always SumUp; the amount is in cents.
pub record PaymentAttempt : Type 0 where
  pub pk : ℕ
  pub order_id : ℕ
  pub status : AttemptStatus
  pub provider_payment_id : Text
  pub provider_transaction_id : Text
  pub amount : ℕ
  pub currency : Currency

unfoldable pub attempt_status_eq : AttemptStatus → AttemptStatus → Bool
attempt_status_eq pending pending = true
attempt_status_eq succeeded succeeded = true
attempt_status_eq failed failed = true
attempt_status_eq cancelled cancelled = true
attempt_status_eq _ _ = false

-- ExternalPaymentStatus, with any other value that a provider adapter may hand over
pub data ExternalPaymentStatus : Type 0 where
  external_pending external_succeeded external_failed external_other : ExternalPaymentStatus

pub record ExternalPaymentState : Type 0 where
  pub provider_payment_id : Text
  pub status : ExternalPaymentStatus
  pub provider_transaction_id : Option Text
  pub hosted_payment_url : Option Text

pub record HostedPaymentSession : Type 0 where
  pub provider_payment_id : Text
  pub redirect_url : Text

pub record HostedPaymentRequest : Type 0 where
  pub reference : ℕ
  pub amount : ℕ
  pub currency : Currency
  pub description : ℕ
  pub customer_return_url : Text
  pub webhook_url : Text
