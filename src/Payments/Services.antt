-- ===== src/Payments/Services.antt =====
-- payments/services.py: the lifecycle of payment attempts, and their reconciliation with what the
-- provider reports. The provider and the callers' callbacks are parameters.
use swedesweets_ops.Prelude.{
  ℕ, ◌+◌, Bool, false, not, ◌&&◌, ◌||◌, ◌==◌, ltb, Option, none, some, List, [], ◌∷◌, ◌++◌, filter,
  any, is_empty, Result, ok, err, raise_if, if◌then◌else◌, integrity_error, invalid_payment_attempt,
  payment_reconciliation_conflict,
}
use swedesweets_ops.Prelude.Rows.{save, update_where}
use swedesweets_ops.Prelude.Texts.{Text, text_eq, strip}
use swedesweets_ops.Orders.Models.{Order, OrderLine, order_total}
use swedesweets_ops.Orders.Contracts.{lock_order}
use swedesweets_ops.Payments.Models.{
  PaymentAttempt, pending, succeeded, failed, cancelled, attempt_status_eq, ExternalPaymentState,
  external_pending, external_succeeded, external_failed, external_other, HostedPaymentSession,
  HostedPaymentRequest,
}
use swedesweets_ops.Database.{
  Process, run_atomic, then_run, Db, Action, ⊤, pure, raise, gets, lift, modify, get_row, ◌>>=◌,
  ◌>>◌,
}

unfoldable pub is_pending : PaymentAttempt → Bool
unfolding attempt_status_eq
is_pending a = attempt_status_eq a.status pending

-- `PaymentAttempt.objects.get(pk=attempt_pk)`, also under a lock and for `refresh_from_db`
unfoldable pub get_attempt : ℕ → Action PaymentAttempt
unfolding get_row
get_attempt attempt_pk = do
  row ← gets (λ db. get_row (λ (a : PaymentAttempt). a.pk) attempt_pk db.attempts)
  lift row

-- `attempt.save()` of an attempt that is stored
unfoldable pub save_attempt : PaymentAttempt → Action ⊤
unfolding save
save_attempt a = modify λ db. record db { attempts = save (λ x. x.pk) a db.attempts }

-- The pending attempts of an order.
unfoldable pub is_pending_for : ℕ → PaymentAttempt → Bool
unfolding is_pending
is_pending_for order_pk a = order_pk == a.order_id && is_pending a

-- `Order.total` of a stored order
unfoldable pub total_of_order : ℕ → Db → Option ℕ
unfolding order_total filter
total_of_order order_pk db =
    order_total (filter (λ (l : OrderLine). order_pk == l.order_id) db.lines)

-- The amount to pay, which has to be known and positive.
unfoldable pub payable : Option ℕ → Result ℕ
payable none = err invalid_payment_attempt
payable (some amount) = if ltb 0 amount then ok amount else err invalid_payment_attempt

unfoldable pub new_attempt : Order → ℕ → ℕ → PaymentAttempt
new_attempt order amount pk = record {
  pk = pk;
  order_id = order.pk;
  status = pending;
  provider_payment_id = [];
  provider_transaction_id = [];
  amount = amount;
  currency = order.currency;
}

abbrev pub insert_attempt : PaymentAttempt → Db → Db
insert_attempt a db = record db { attempts = db.attempts ++ a ∷ []; next_pk = db.next_pk + 1 }

unfoldable pub create_payment_attempt : ℕ → Action PaymentAttempt
unfolding lock_order total_of_order payable is_pending_for any new_attempt
create_payment_attempt order_pk = do
  order ← lock_order order_pk
  total ← gets (total_of_order order.pk)
  amount ← lift (payable total)
  taken ← gets (λ db. any (is_pending_for order.pk) db.attempts)
  lift (raise_if taken invalid_payment_attempt)
  pk ← gets (λ db. db.next_pk)
  let a = new_attempt order amount pk
  modify (insert_attempt a)
  pure a

abbrev pub cancel_attempt : PaymentAttempt → PaymentAttempt
cancel_attempt a = record a { status = cancelled }

unfoldable pub cancel_pending_payment_attempts_for_order : ℕ → Action ⊤
unfolding lock_order update_where is_pending_for
cancel_pending_payment_attempts_for_order order_pk = do
  order ← lock_order order_pk
  modify λ db. record db {
    attempts = update_where (is_pending_for order.pk) cancel_attempt db.attempts;
  }

-- The transaction that the provider reports, if it reports one.
unfoldable pub set_transaction : Option Text → PaymentAttempt → Result PaymentAttempt
unfolding strip
set_transaction none a = ok a
set_transaction (some t) a =
    if is_empty (strip t)
    then err invalid_payment_attempt
    else ok (record a { provider_transaction_id = strip t })

unfoldable pub mark_payment_attempt_succeeded : Option Text → ℕ → Action PaymentAttempt
unfolding get_attempt is_pending set_transaction save_attempt
mark_payment_attempt_succeeded transaction attempt_pk = do
  a ← get_attempt attempt_pk
  lift (raise_if (not (is_pending a)) invalid_payment_attempt)
  a₁ ← lift (set_transaction transaction a)
  let a₂ = record a₁ { status = succeeded }
  save_attempt a₂
  pure a₂

unfoldable pub mark_payment_attempt_failed : ℕ → Action PaymentAttempt
unfolding get_attempt is_pending save_attempt
mark_payment_attempt_failed attempt_pk = do
  a ← get_attempt attempt_pk
  lift (raise_if (not (is_pending a)) invalid_payment_attempt)
  let a' = record a { status = failed }
  save_attempt a'
  pure a'

-- A hosted session can be made for a pending attempt that has none.
unfoldable pub require_open : PaymentAttempt → Result ⊤
unfolding is_pending
require_open a =
    raise_if (not (is_pending a) || not (is_empty a.provider_payment_id)) invalid_payment_attempt

unfoldable pub payment_request : Text → Text → PaymentAttempt → HostedPaymentRequest
payment_request customer_return_url webhook_url a = record {
  reference = a.pk;
  amount = a.amount;
  currency = a.currency;
  description = a.order_id;
  customer_return_url = customer_return_url;
  webhook_url = webhook_url;
}

-- unique_provider_payment_id, when an attempt is saved with this identifier
unfoldable pub check_payment_id : Text → ℕ → List PaymentAttempt → Result ⊤
unfolding any text_eq
check_payment_id payment_id attempt_pk attempts =
    raise_if
      (not (is_empty payment_id)
        && any (λ a. not (a.pk == attempt_pk) && text_eq a.provider_payment_id payment_id) attempts)
      integrity_error

-- The transaction after the provider made the remote payment.
unfoldable pub store_session : ℕ → HostedPaymentSession → Action HostedPaymentSession
unfolding get_attempt require_open check_payment_id save_attempt
store_session attempt_pk session = do
  a ← get_attempt attempt_pk
  lift (require_open a)
  checked ← gets (λ db. check_payment_id session.provider_payment_id a.pk db.attempts)
  lift checked
  save_attempt (record a { provider_payment_id = session.provider_payment_id })
  pure session

-- The attempt that a session can be made for.
unfoldable pub open_attempt : ℕ → Action PaymentAttempt
unfolding get_attempt require_open
open_attempt attempt_pk = do a ← get_attempt attempt_pk; lift (require_open a); pure a

-- `create_payment` is the provider's: while it runs, other requests may change the rows.
unfoldable pub create_hosted_payment_session :
    (HostedPaymentRequest → Process HostedPaymentSession)
    → Text
    → Text
    → ℕ
    → Process HostedPaymentSession
unfolding open_attempt payment_request store_session
create_hosted_payment_session create_payment customer_return_url webhook_url attempt_pk =
    then_run (run_atomic (open_attempt attempt_pk)) λ a.
      then_run (create_payment (payment_request customer_return_url webhook_url a))
        λ session. run_atomic (store_session a.pk session)

-- The condition under which a reported success contradicts the recorded one.
unfoldable pub transaction_conflicts : Option Text → Text → Bool
unfolding text_eq
transaction_conflicts none recorded = false
transaction_conflicts (some t) recorded =
    not (is_empty t) && (not (is_empty recorded) && not (text_eq t recorded))

module _ (on_succeeded : PaymentAttempt → Option Text → Action ⊤)
    (on_failed : PaymentAttempt → Action ⊤) where
  -- What is done for a reported success and for a reported failure of an attempt.
  unfoldable pub reconcile_succeeded : Option Text → PaymentAttempt → Action PaymentAttempt
  unfolding transaction_conflicts get_attempt
  reconcile_succeeded transaction a = elim a.status [
    | pending ↦ on_succeeded a transaction >> get_attempt a.pk
    | succeeded ↦
        if transaction_conflicts transaction a.provider_transaction_id
        then raise payment_reconciliation_conflict
        else pure a
    | failed ↦ raise payment_reconciliation_conflict
    | cancelled ↦ raise payment_reconciliation_conflict
  ]

  unfoldable pub reconcile_failed : PaymentAttempt → Action PaymentAttempt
  unfolding get_attempt
  reconcile_failed a = elim a.status [
    | pending ↦ on_failed a >> get_attempt a.pk
    | succeeded ↦ raise payment_reconciliation_conflict
    | failed ↦ pure a
    | cancelled ↦ pure a
  ]

  unfoldable pub reconcile_reported : ExternalPaymentState → PaymentAttempt → Action PaymentAttempt
  unfolding reconcile_succeeded reconcile_failed
  reconcile_reported external a = elim external.status [
    | external_pending ↦ pure a
    | external_succeeded ↦ reconcile_succeeded external.provider_transaction_id a
    | external_failed ↦ reconcile_failed a
    | external_other ↦ raise payment_reconciliation_conflict
  ]

  unfoldable pub apply_reconciliation : ℕ → ExternalPaymentState → Action PaymentAttempt
  unfolding get_attempt reconcile_reported
  apply_reconciliation attempt_pk external = do
    a ← get_attempt attempt_pk
    reconcile_reported external a

  -- The attempt is read again, and what was reported is applied to it, in one step.
  unfoldable pub apply_external :
      PaymentAttempt → ExternalPaymentState → Process (PaymentAttempt × ExternalPaymentState)
  unfolding text_eq apply_reconciliation
  apply_external a external db =
      if not (text_eq external.provider_payment_id a.provider_payment_id)
      then (err payment_reconciliation_conflict, db)
      else run_atomic (apply_reconciliation a.pk external >>= λ r. pure (r, external)) db

  -- `get_payment` is the provider's: while it runs, other requests may change the rows.
  unfoldable pub ask_provider :
      (Text → Process ExternalPaymentState)
      → PaymentAttempt
      → Process (PaymentAttempt × ExternalPaymentState)
  unfolding apply_external
  ask_provider get_payment a db =
      if is_empty a.provider_payment_id
      then (err invalid_payment_attempt, db)
      else then_run (get_payment a.provider_payment_id) (apply_external a) db

  unfoldable pub reconcile_payment_attempt :
      (Text → Process ExternalPaymentState) → ℕ → Process (PaymentAttempt × ExternalPaymentState)
  unfolding get_attempt ask_provider
  reconcile_payment_attempt get_payment attempt_pk =
      then_run (run_atomic (get_attempt attempt_pk)) (ask_provider get_payment)
