-- ===== src/Tests/Payments.antt =====
-- A payment that is created, reported as successful twice, and one that is cancelled.
use swedesweets_ops.Prelude.{
  ℕ, ◌≡◌, ◌<◌, refl, none, some, List, [], ◌∷◌, ok, arith, ◌==◌, if◌then◌else◌, sum_by,
}
use swedesweets_ops.Prelude.Texts.{strip}
use swedesweets_ops.Pricing.Models.{eur}
use swedesweets_ops.Payments.Models.{
  PaymentAttempt, AttemptStatus, pending, succeeded, cancelled, ExternalPaymentState,
  external_succeeded,
}
use swedesweets_ops.Payments.Services.{
  create_payment_attempt, cancel_pending_payment_attempts_for_order, total_of_order,
  apply_reconciliation,
}
use swedesweets_ops.Payments.Attempts.{
  pending_count, AtMostOnePending, create_payment_attempt-AtMostOnePending, cancel_pending-counts,
}
use swedesweets_ops.Payments.History.{
  PaymentHistory-settled, followed, started, creates, attempt_at,
}
use swedesweets_ops.Payments.Services.{is_pending}
use swedesweets_ops.Prelude.{false}
use swedesweets_ops.Prelude.Rows.{find}
use swedesweets_ops.Payments.Reconciliation.{
  record_success, record_failure, apply_reconciliation-repeats,
}
use swedesweets_ops.Tests.Data.{shop}
use swedesweets_ops.Database.{Db}

abbrev attempt : AttemptStatus → List ℕ → PaymentAttempt
attempt s t = record {
  pk = 30;
  order_id = 5;
  status = s;
  provider_payment_id = [];
  provider_transaction_id = t;
  amount = 1500;
  currency = eur;
}

abbrev with_attempt : PaymentAttempt → Db
with_attempt a = record shop { attempts = a ∷ []; next_pk = 31 }

create_run :
    create_payment_attempt 5 shop ≡ ok (attempt pending [], with_attempt (attempt pending []))
unfolding create_payment_attempt
create_run = refl

none_pending : AtMostOnePending shop
unfolding sum_by
none_pending o = omega arith

create_payment_attempt-AtMostOnePending_example :
    AtMostOnePending (with_attempt (attempt pending []))
    × (total_of_order 5 shop ≡ some 1500)
    × (0 < 1500)
    × (pending ≡ pending)
create_payment_attempt-AtMostOnePending_example =
    create_payment_attempt-AtMostOnePending 5 (attempt pending []) shop
      (with_attempt (attempt pending [])) none_pending create_run

cancel_run :
    cancel_pending_payment_attempts_for_order 5 (with_attempt (attempt pending []))
    ≡ ok (tt, with_attempt (attempt cancelled []))
unfolding cancel_pending_payment_attempts_for_order
cancel_run = refl

cancel_pending-counts_example :
    pending_count 5 (attempt cancelled [] ∷ [])
    ≡ (if 5 == 5 then 0 else pending_count 5 (attempt pending [] ∷ []))
cancel_pending-counts_example =
    cancel_pending-counts 5 5 (with_attempt (attempt pending []))
      (with_attempt (attempt cancelled [])) cancel_run

abbrev report : ExternalPaymentState
report = record {
  provider_payment_id = [];
  status = external_succeeded;
  provider_transaction_id = some (84 ∷ 49 ∷ []);
  hosted_payment_url = none;
}

abbrev paid : PaymentAttempt
paid = attempt succeeded (84 ∷ 49 ∷ [])

report_run :
    apply_reconciliation record_success record_failure 30 report (with_attempt (attempt pending []))
    ≡ ok (paid, with_attempt paid)
unfolding apply_reconciliation record_success
report_run = refl

trimmed : strip (84 ∷ 49 ∷ []) ≡ 84 ∷ 49 ∷ []
unfolding strip
trimmed = refl

apply_reconciliation-repeats_example :
    apply_reconciliation record_success record_failure 30 report (with_attempt paid)
    ≡ ok (paid, with_attempt paid)
apply_reconciliation-repeats_example =
    apply_reconciliation-repeats 30 report paid (with_attempt (attempt pending []))
      (with_attempt paid) trimmed report_run

-- After the cancellation another attempt is made.
abbrev retried : Db
retried = record shop {
  attempts = attempt cancelled [] ∷ record (attempt pending []) { pk = 31 } ∷ [];
  next_pk = 32;
}

stored : attempt_at 30 (with_attempt (attempt cancelled [])) ≡ some (attempt cancelled [])
unfolding find
stored = refl

settled : is_pending (attempt cancelled []) ≡ false
unfolding is_pending
settled = refl

retry_run :
    create_payment_attempt 5 (with_attempt (attempt cancelled []))
    ≡ ok (record (attempt pending []) { pk = 31 }, retried)
unfolding create_payment_attempt
retry_run = refl

PaymentHistory-settled_example : attempt_at 30 retried ≡ some (attempt cancelled [])
PaymentHistory-settled_example =
    PaymentHistory-settled {db = with_attempt (attempt cancelled [])} {db' = retried} 30
      (attempt cancelled [])
      (followed started (creates 5 (record (attempt pending []) { pk = 31 }) retry_run)) stored
      settled
