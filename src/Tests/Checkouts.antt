-- ===== src/Tests/Checkouts.antt =====
-- A cart is checked out, and its order is paid.
use swedesweets_ops.Prelude.{
  Zip, ℕ, ◌+◌, ◌≡◌, ◌≤◌, ◌<◌, refl, arith, Bool, true, none, some, [], ◌∷◌, ok, sum_by, IsDistinct,
}
use swedesweets_ops.Prelude.Texts.{Text}
use swedesweets_ops.Payments.Models.{
  PaymentAttempt, pending, succeeded, failed, ExternalPaymentState, external_succeeded,
}
use swedesweets_ops.Payments.Services.{get_attempt}
use swedesweets_ops.Payments.Attempts.{AtMostOnePending}
use swedesweets_ops.Prelude.Rows.{find, save}
use swedesweets_ops.Pricing.Models.{eur, retail}
use swedesweets_ops.Orders.Models.{Order, draft, placed}
use swedesweets_ops.Reservations.Overbooking.{NoOverbooking}
use swedesweets_ops.Reservations.Models.{is_active}
use swedesweets_ops.Retail.Models.{RetailCheckoutSession}
use swedesweets_ops.Retail.Checkouts.{AnonymousBuyerInput, create_retail_checkout_from_cart}
use swedesweets_ops.Retail.CheckoutOrders.{IsCheckedOut, create_retail_checkout-IsCheckedOut}
use swedesweets_ops.Retail.PaymentServices.{
  start_retail_payment, complete_retail_payment, fail_retail_payment,
}
use swedesweets_ops.Retail.PaymentServices.{lines_of_order}
use swedesweets_ops.Retail.StartedPayments.{Holds, start_retail_payment-Holds}
use swedesweets_ops.Retail.SettledPayments.{
  IsSettling, held_for_now, complete_retail_payment-places, fail_retail_payment-releases,
}
use swedesweets_ops.Retail.HostedPayments.{recover_retail_payment, reconcile_retail}
use swedesweets_ops.Retail.Recovery.{IsAnswer, has_raised, recover_retail_payment-IsAnswer}
use swedesweets_ops.Retail.ReconciledRows.{IsStored}
use swedesweets_ops.Retail.Reconciliation.{
  IsTally, counted, reconcile_pending_retail_payments, reconcile_pending-IsTally,
}
use swedesweets_ops.Fulfillment.Placing.{AreHeld, IsPromoted, AreDurable}
use swedesweets_ops.Prelude.Sorting.{insert}
use swedesweets_ops.Prelude.Totals.{get_or}
use swedesweets_ops.Tests.Data.{market, rows_after, value_after, order_with}
use swedesweets_ops.Database.{Db, Process}

abbrev buyer : AnonymousBuyerInput
buyer = record {
  first_name = 65 ∷ [];
  last_name = 66 ∷ [];
  email = 64 ∷ [];
  phone_number = 49 ∷ [];
  country = 83 ∷ [];
  postal_code = 49 ∷ [];
  city = 85 ∷ [];
  address_line = 67 ∷ [];
}

abbrev full : Db
full = record market {
  cart_lines = record { pk = 15; cart_id = 1; commercial_price_id = 3; quantity = 2 } ∷ [];
}

abbrev any_city : Text → Text → Bool
any_city c d = true

abbrev checked_out : Db
checked_out = rows_after (create_retail_checkout_from_cart any_city 0 100 1 buyer full)

abbrev checkout : RetailCheckoutSession
checkout = record { pk = 32; order_id = 30; expires_at = 5500 }

checkout_run :
    create_retail_checkout_from_cart any_city 0 100 1 buyer full ≡ ok (checkout, checked_out)
unfolding create_retail_checkout_from_cart
checkout_run = refl

create_retail_checkout-IsCheckedOut_example : IsCheckedOut 100 buyer 1 checkout full checked_out
create_retail_checkout-IsCheckedOut_example =
    create_retail_checkout-IsCheckedOut any_city 0 100 1 buyer checkout full checked_out
      checkout_run

sound : NoOverbooking 200 checked_out
unfolding sum_by is_active create_retail_checkout_from_cart
sound = (omega arith, (omega arith, tt))

none_pending : AtMostOnePending checked_out
unfolding sum_by create_retail_checkout_from_cart
none_pending o = omega arith

batches_apart : IsDistinct (λ b. b.pk) checked_out.batches
unfolding create_retail_checkout_from_cart
batches_apart = ((ground arith, tt), (tt, tt))

abbrev attempt : PaymentAttempt
attempt = record {
  pk = 34;
  order_id = 30;
  status = pending;
  provider_payment_id = [];
  provider_transaction_id = [];
  amount = 500;
  currency = eur;
}

abbrev started : Db
started = rows_after (start_retail_payment 200 0 32 checked_out)

start_run : start_retail_payment 200 0 32 checked_out ≡ ok (attempt, started)
unfolding create_retail_checkout_from_cart start_retail_payment insert get_or
start_run = refl

start_retail_payment-Holds_example :
    (s : RetailCheckoutSession) × (o : Order) × (find
        (λ (s : RetailCheckoutSession). s.pk)
        32
        checked_out.checkouts
      ≡ some s)
    × (find (λ (o : Order). o.pk) s.order_id checked_out.orders ≡ some o)
    × (200 < s.expires_at)
    × (o.channel ≡ retail)
    × (o.status ≡ draft)
    × Holds 200 (lines_of_order o.pk checked_out) o attempt checked_out started
start_retail_payment-Holds_example =
    start_retail_payment-Holds 200 0 32 attempt checked_out started batches_apart sound none_pending
      start_run

abbrev completed : Db
completed = rows_after (complete_retail_payment 300 34 (some (84 ∷ [])) started)

abbrev bought : Order
bought =
    value_after (order_with placed none) (complete_retail_payment 300 34 (some (84 ∷ [])) started)

complete_run : complete_retail_payment 300 34 (some (84 ∷ [])) started ≡ ok (bought, completed)
unfolding create_retail_checkout_from_cart start_retail_payment insert get_or
    complete_retail_payment
complete_run = refl

complete_retail_payment-places_example :
    (a : PaymentAttempt) × (o : Order) × IsSettling 34 a o started
    × (o.status ≡ draft)
    × (bought.status ≡ placed)
    × (bought.placed_at ≡ some 300)
    × (completed.orders ≡ save (λ o. o.pk) bought started.orders)
    × (completed.batches ≡ started.batches)
    × AreHeld 300 o.pk started.allocations
    × Zip (IsPromoted 300 o.pk) started.allocations completed.allocations
    × AreDurable 300 o.pk completed.allocations
    × ((a' : PaymentAttempt) × (find (λ (a : PaymentAttempt). a.pk) 34 completed.attempts ≡ some a')
        × (a'.status ≡ succeeded))
complete_retail_payment-places_example =
    complete_retail_payment-places 300 34 (some (84 ∷ [])) bought started completed complete_run

abbrev given_up : Db
given_up = rows_after (fail_retail_payment 34 started)

fail_run : fail_retail_payment 34 started ≡ ok (record attempt { status = failed }, given_up)
unfolding create_retail_checkout_from_cart start_retail_payment insert get_or fail_retail_payment
fail_run = refl

fail_retail_payment-releases_example :
    (a : PaymentAttempt) × (o : Order) × IsSettling 34 a o started
    × (o.status ≡ draft)
    × (given_up.orders ≡ started.orders)
    × (given_up.batches ≡ started.batches)
    × ((b : ℕ) → held_for_now o.pk b given_up.allocations ≡ 0)
    × (find (λ (a : PaymentAttempt). a.pk) 34 given_up.attempts
        ≡ some (record attempt { status = failed }))
    × (failed ≡ failed)
fail_retail_payment-releases_example =
    fail_retail_payment-releases 34 (record attempt { status = failed }) started given_up fail_run

-- A payment with the provider, which reports it as successful.
abbrev submitted : Db
submitted = record started { attempts = record attempt { provider_payment_id = 80 ∷ [] } ∷ [] }

abbrev reports_success : Text → Process ExternalPaymentState
reports_success id db = (
  ok (record {
    provider_payment_id = id;
    status = external_succeeded;
    provider_transaction_id = some (84 ∷ []);
    hosted_payment_url = none;
  }),
  db,
)

-- Another request that runs meanwhile and takes a key.
abbrev takes_key : Db → Db
takes_key db = record db { next_pk = db.next_pk + 1 }

takes_key-IsStored : (d : Db) → IsStored 34 d → IsStored 34 (takes_key d)
unfolding get_attempt
takes_key-IsStored d (a, read) = (a, ground (arith, read))

attempt_run :
    get_attempt 34 submitted ≡ ok (record attempt { provider_payment_id = 80 ∷ [] }, submitted)
unfolding get_attempt
attempt_run = refl

abbrev waiting : PaymentAttempt
waiting = record attempt { provider_payment_id = 80 ∷ [] }

recover_retail_payment-IsAnswer_example :
    IsAnswer waiting
      (has_raised (reconcile_retail 300 reports_success 34 submitted))
      (recover_retail_payment 300 reports_success takes_key 34 submitted)
recover_retail_payment-IsAnswer_example =
    recover_retail_payment-IsAnswer 300 reports_success takes_key 34 waiting submitted (λ id d h. h)
      takes_key-IsStored attempt_run

reconcile_pending-IsTally_example :
    let summary = (reconcile_pending_retail_payments 300 reports_success submitted).0 in
    IsTally summary.counts × (counted summary.counts ≤ summary.selected)
reconcile_pending-IsTally_example = reconcile_pending-IsTally 300 reports_success submitted
