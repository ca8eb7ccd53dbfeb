-- ===== src/Retail/Reconciliation.antt =====
-- retail/reconciliation.py: the pending payments one by one, and how many ended how. What the loop
-- logs is left out.
use swedesweets_ops.Prelude.{
  ℕ, ◌+◌, ◌≤◌, arith, Bool, false, not, ◌&&◌, none, some, List, [], ◌∷◌, map, filter, length,
  is_empty, inl, inr, Bool-cases, Result, ok, err, if◌then◌else◌,
}
use swedesweets_ops.Prelude.Rows.{find}
use swedesweets_ops.Prelude.Texts.{Text}
use swedesweets_ops.Pricing.Models.{Channel, retail, channel_eq}
use swedesweets_ops.Orders.Models.{Order}
use swedesweets_ops.Payments.Models.{
  PaymentAttempt, AttemptStatus, pending, succeeded, failed, cancelled, ExternalPaymentState,
}
use swedesweets_ops.Payments.Services.{is_pending, get_attempt}
use swedesweets_ops.Retail.HostedPayments.{reconcile_retail_payment}
use swedesweets_ops.Database.{Db, Process}

-- The counters of the loop.
pub record Counters : Type 0 where
  pub checked : ℕ
  pub n_succeeded : ℕ
  pub n_failed : ℕ
  pub n_pending : ℕ
  pub n_cancelled : ℕ
  pub unresolved : ℕ
  pub errors : ℕ

pub record PaymentReconciliationSummary : Type 0 where
  pub selected : ℕ
  pub counts : Counters

abbrev pub no_counts : Counters
no_counts = record {
  checked = 0;
  n_succeeded = 0;
  n_failed = 0;
  n_pending = 0;
  n_cancelled = 0;
  unresolved = 0;
  errors = 0;
}

-- `order__channel`; a foreign key refers to a stored row.
unfoldable pub is_in_channel : Channel → List Order → PaymentAttempt → Bool
unfolding find channel_eq
is_in_channel channel orders a = elim (find (λ (o : Order). o.pk) a.order_id orders) [
  | none ↦ false
  | some o ↦ channel_eq o.channel channel
]

-- payments.selectors.list_pending_payment_attempt_ids; SumUp is the only provider.
unfoldable pub list_pending_payment_attempt_ids : Channel → Db → List ℕ
unfolding filter is_pending is_in_channel
list_pending_payment_attempt_ids channel db =
    map (λ (a : PaymentAttempt). a.pk)
      (filter (λ a. is_pending a && is_in_channel channel db.orders a) db.attempts)

abbrev pub count_error : Counters → Counters
count_error c = record c { errors = c.errors + 1 }

unfoldable pub count_status : AttemptStatus → Counters → Counters
count_status succeeded c = record c { n_succeeded = c.n_succeeded + 1 }
count_status failed c = record c { n_failed = c.n_failed + 1 }
count_status pending c = record c { n_pending = c.n_pending + 1 }
count_status cancelled c = record c { n_cancelled = c.n_cancelled + 1 }

unfoldable pub count_result : Result PaymentAttempt → Counters → Counters
unfolding count_status
count_result (ok a) c = count_status a.status (record c { checked = c.checked + 1 })
count_result (err e) c = count_error (record c { checked = c.checked + 1 })

module _ (now : ℕ) (get_payment : Text → Process ExternalPaymentState) where
  -- The body of the loop, for the attempt that was read.
  unfoldable pub reconcile_one : PaymentAttempt → Counters → Db → Counters × Db
  unfolding is_pending reconcile_retail_payment count_result
  reconcile_one a c db =
      let run = reconcile_retail_payment now get_payment a.pk db in
      if not (is_pending a)
      then (c, db)
      else if is_empty a.provider_payment_id
      then (record c { unresolved = c.unresolved + 1 }, db)
      else (count_result run.0 c, run.1)

  unfoldable pub reconcile_read : Result (PaymentAttempt × Db) → Counters → Db → Counters × Db
  unfolding reconcile_one
  reconcile_read (err e) c db = (count_error c, db)
  reconcile_read (ok r) c db = reconcile_one r.0 c r.1

  unfoldable pub reconcile_ids : List ℕ → Counters → Db → Counters × Db
  unfolding get_attempt reconcile_read
  reconcile_ids [] c db = (c, db)
  reconcile_ids (k ∷ ids) c db =
      let after = reconcile_read (get_attempt k db) c db in reconcile_ids ids after.0 after.1

  unfoldable pub reconcile_pending_retail_payments : Db → PaymentReconciliationSummary × Db
  unfolding list_pending_payment_attempt_ids reconcile_ids
  reconcile_pending_retail_payments db =
      let ids = list_pending_payment_attempt_ids retail db in
      let final = reconcile_ids ids no_counts db in
      (record { selected = length ids; counts = final.0 }, final.1)

-- The attempts with a known outcome, and all that were counted.
abbrev pub settled_count : Counters → ℕ
settled_count c = c.n_succeeded + c.n_failed + c.n_pending + c.n_cancelled

abbrev pub counted : Counters → ℕ
counted c = settled_count c + c.unresolved + c.errors

-- Every checked attempt ends with a status or an error.
abbrev pub IsTally : Counters → Type 0
IsTally c = (settled_count c ≤ c.checked) × (c.checked ≤ settled_count c + c.errors)

module _ (now : ℕ) (get_payment : Text → Process ExternalPaymentState) where
  result-IsTally :
      (r : Result PaymentAttempt) (c : Counters)
      → IsTally c
      → IsTally (count_result r c) × (counted (count_result r c) ≤ counted c + 1)
  unfolding count_result count_status
  result-IsTally (err e) c h = ground arith
  result-IsTally (ok a) c h = ground arith

  one-IsTally :
      (r : Result (PaymentAttempt × Db)) (c : Counters) (db : Db)
      → IsTally c
      → IsTally (reconcile_read now get_payment r c db).0
        × (counted (reconcile_read now get_payment r c db).0 ≤ counted c + 1)
  unfolding reconcile_read reconcile_one
  one-IsTally (err e) c db h = ground arith
  one-IsTally (ok r) c db h =
      let run = reconcile_retail_payment now get_payment r.0.pk r.1 in
      let counted_run = result-IsTally run.0 c h in
      elim (Bool-cases (is_pending r.0)) [
        | inr settled ↦ rw settled (h, omega arith)
        | inl waiting ↦ elim (Bool-cases (is_empty r.0.provider_payment_id)) [
          | inl unknown ↦ rw (waiting, unknown) (ground arith, ground arith)
          | inr known ↦ rw (waiting, known) counted_run
        ]
      ]

  ids-IsTally :
      (ids : List ℕ) (c : Counters) (db : Db)
      → IsTally c
      → IsTally (reconcile_ids now get_payment ids c db).0
        × (counted (reconcile_ids now get_payment ids c db).0 ≤ counted c + length ids)
  unfolding reconcile_ids
  ids-IsTally [] c db h = (h, omega arith)
  ids-IsTally (k ∷ ids) c db h =
      let after = reconcile_read now get_payment (get_attempt k db) c db in
      let (tally, one) = one-IsTally (get_attempt k db) c db h in
      let (all_tally, rest) = ids-IsTally ids after.0 after.1 tally in
      (all_tally, omega (arith, one, rest))

  -- Every attempt that is checked is counted under one status or as an error, and no more attempts
  -- are counted than were selected, whatever the provider answers.
  pub reconcile_pending-IsTally :
      (db : Db)
      → let summary = (reconcile_pending_retail_payments now get_payment db).0 in
        IsTally summary.counts × (counted summary.counts ≤ summary.selected)
  unfolding reconcile_pending_retail_payments
  reconcile_pending-IsTally db =
      let ids = list_pending_payment_attempt_ids retail db in
      let (tally, most) = ids-IsTally ids no_counts db (ground arith) in
      (tally, omega (arith, most))
