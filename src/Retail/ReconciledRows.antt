-- ===== src/Retail/ReconciledRows.antt =====
-- payments/services.py: what a reconciliation reads at the end, and the rows after one that raised.
use swedesweets_ops.Prelude.{
  ℕ, ◌≡◌, refl, sym, ap, ◌∙◌, inl, inr, arith, Option, ok, err, Error, is_empty, Bool-cases,
}
use mathlib.Core.Path.{subst}
use swedesweets_ops.Prelude.Texts.{Text, text_eq}
use swedesweets_ops.Payments.Models.{
  PaymentAttempt, AttemptStatus, pending, succeeded, failed, cancelled, ExternalPaymentState,
  ExternalPaymentStatus, external_pending, external_succeeded, external_failed, external_other,
}
use swedesweets_ops.Payments.Services.{
  get_attempt, reconcile_succeeded, reconcile_failed, reconcile_reported, apply_reconciliation,
  reconcile_payment_attempt, apply_external, ask_provider,
}
use swedesweets_ops.Payments.Reconciliation.{get_attempt-found}
use swedesweets_ops.Database.{
  Db, Action, Process, ⊤, pure, run_atomic, run_atomic-ok, run_atomic-err, then_run, then_run-ok,
  then_run-err, >>=-eq-ok, ◌>>=◌, ◌>>◌,
}

pub get_attempt_again :
    (k : ℕ) (a : PaymentAttempt) (db mid : Db)
    → get_attempt k db ≡ ok (a, mid)
    → get_attempt a.pk mid ≡ ok (a, mid)
get_attempt_again k a db mid e =
    let (found, key, same) = get_attempt-found k a db mid e in
    subst (λ (x : ℕ × Db). get_attempt x.0 x.1 ≡ ok (a, mid)) (λ i. (sym key i, sym same i)) e

same_reading :
    (a b : PaymentAttempt) (db mid : Db)
    → a ≡ b
    → db ≡ mid
    → get_attempt a.pk db ≡ ok (a, db)
    → get_attempt b.pk mid ≡ ok (b, mid)
same_reading a b db mid p q h =
    subst (λ (z : PaymentAttempt × Db). get_attempt z.0.pk z.1 ≡ ok z) (λ i. (p i, q i)) h

module _ (on_succeeded : PaymentAttempt → Option Text → Action ⊤)
    (on_failed : PaymentAttempt → Action ⊤) (a a' : PaymentAttempt) (db db' : Db)
    (read : get_attempt a.pk db ≡ ok (a, db)) where
  succeeded-reads :
      (t : Option Text) (s : AttemptStatus)
      → a.status ≡ s
      → reconcile_succeeded on_succeeded on_failed t a db ≡ ok (a', db')
      → get_attempt a'.pk db' ≡ ok (a', db')
  unfolding reconcile_succeeded
  succeeded-reads t pending q e =
      let called : (on_succeeded a t >> get_attempt a.pk) db ≡ ok (a', db') = ground arith in
      let (u, mid, _, back) = >>=-eq-ok (on_succeeded a t) (λ _. get_attempt a.pk) db called in
      get_attempt_again a.pk a' mid db' back
  succeeded-reads t succeeded q e = ground arith
  succeeded-reads t failed q e = absurd (ground arith)
  succeeded-reads t cancelled q e = absurd (ground arith)

  failed-reads :
      (s : AttemptStatus)
      → a.status ≡ s
      → reconcile_failed on_succeeded on_failed a db ≡ ok (a', db')
      → get_attempt a'.pk db' ≡ ok (a', db')
  unfolding reconcile_failed
  failed-reads pending q e =
      let called : (on_failed a >> get_attempt a.pk) db ≡ ok (a', db') = ground arith in
      let (u, mid, _, back) = >>=-eq-ok (on_failed a) (λ _. get_attempt a.pk) db called in
      get_attempt_again a.pk a' mid db' back
  failed-reads succeeded q e = absurd (ground arith)
  failed-reads failed q e = ground arith
  failed-reads cancelled q e = ground arith

  reported-reads :
      (external : ExternalPaymentState) (s : ExternalPaymentStatus)
      → external.status ≡ s
      → reconcile_reported on_succeeded on_failed external a db ≡ ok (a', db')
      → get_attempt a'.pk db' ≡ ok (a', db')
  unfolding reconcile_reported
  reported-reads external external_pending q e = ground arith
  reported-reads external external_succeeded q e =
      succeeded-reads external.provider_transaction_id a.status refl (ground arith)
  reported-reads external external_failed q e = failed-reads a.status refl (ground arith)
  reported-reads external external_other q e = absurd (ground arith)

-- The attempt with this key is stored.
abbrev pub IsStored : ℕ → Db → Type 0
IsStored k db = (a : PaymentAttempt) × (get_attempt k db ≡ ok (a, db))

module _ (on_succeeded : PaymentAttempt → Option Text → Action ⊤)
    (on_failed : PaymentAttempt → Action ⊤)
    (get_payment : Text → Process ExternalPaymentState) where
  applied-reads :
      (a a' : PaymentAttempt) (x y : ExternalPaymentState) (db d : Db)
      → apply_external on_succeeded on_failed a x db ≡ (ok (a', y), d)
      → get_attempt a'.pk d ≡ ok (a', d)
  unfolding apply_external apply_reconciliation
  applied-reads a a' x y db d e =
      let pairs : PaymentAttempt → Action (PaymentAttempt × ExternalPaymentState) =
        λ r. pure (r, x) in
      let apply = apply_reconciliation on_succeeded on_failed a.pk x >>= pairs in
      elim (Bool-cases (text_eq x.provider_payment_id a.provider_payment_id)) [
        | inr differs ↦ absurd (ground (arith, e, differs))
        | inl agrees ↦
            let ran : run_atomic apply db ≡ (ok (a', y), d) = ground (arith, e, agrees) in
            let (r, d₁, applied, e₁) =
              >>=-eq-ok (apply_reconciliation on_succeeded on_failed a.pk x) pairs db
                (run_atomic-ok apply db d ran) in
            let (b, d₂, read, e₂) =
              >>=-eq-ok (get_attempt a.pk) (reconcile_reported on_succeeded on_failed x) db
                applied in
            let back =
              reported-reads on_succeeded on_failed b r d₂ d₁ (get_attempt_again a.pk b db d₂ read)
                x x.status refl e₂ in
            let ours : r ≡ a' = ground (arith, e₁) in
            let same : d₁ ≡ d = ground (arith, e₁) in same_reading r a' d₁ d ours same back
      ]

  applied_err :
      (a : PaymentAttempt) (x : ExternalPaymentState) (z : Error) (db d : Db)
      → apply_external on_succeeded on_failed a x db ≡ (err z, d)
      → d ≡ db
  unfolding apply_external
  applied_err a x z db d e =
      let pairs : PaymentAttempt → Action (PaymentAttempt × ExternalPaymentState) =
        λ r. pure (r, x) in
      let apply = apply_reconciliation on_succeeded on_failed a.pk x >>= pairs in
      elim (Bool-cases (text_eq x.provider_payment_id a.provider_payment_id)) [
        | inr differs ↦ ground (arith, e, differs)
        | inl agrees ↦
            let ran : run_atomic apply db ≡ (err z, d) = ground (arith, e, agrees) in
            run_atomic-err apply db d ran
      ]

  -- A reconciled attempt is stored as it is returned, whatever the callbacks do.
  pub reconcile-reads :
      (k : ℕ) (a' : PaymentAttempt) (x : ExternalPaymentState) (db d : Db)
      → reconcile_payment_attempt on_succeeded on_failed get_payment k db ≡ (ok (a', x), d)
      → get_attempt a'.pk d ≡ ok (a', d)
  unfolding reconcile_payment_attempt ask_provider
  reconcile-reads k a' x db d e =
      let (a, d₁, _, e₁) =
        then_run-ok (run_atomic (get_attempt k)) (ask_provider on_succeeded on_failed get_payment)
          db d e in
      elim (Bool-cases (is_empty a.provider_payment_id)) [
        | inl absent ↦ absurd (ground (arith, e₁, absent))
        | inr present ↦
            let asked : then_run (get_payment a.provider_payment_id)
                  (apply_external on_succeeded on_failed a) d₁
                ≡ (ok (a', x), d) =
              ground (arith, e₁, present) in
            let (y, d₂, _, e₂) =
              then_run-ok (get_payment a.provider_payment_id)
                (apply_external on_succeeded on_failed a) d₁ d asked in
            applied-reads a a' y x d₂ d e₂
      ]

  -- When a reconciliation raises, the rows are those that the provider's call left.
  module _ (k : ℕ)
      (keeps : (id : Text) (d : Db) → IsStored k d → IsStored k (get_payment id d).1) where
    asked-IsStored :
        (a : PaymentAttempt) (z : Error) (db d : Db)
        → IsStored k db
        → ask_provider on_succeeded on_failed get_payment a db ≡ (err z, d)
        → IsStored k d
    unfolding ask_provider
    asked-IsStored a z db d h e =
        let apply = apply_external on_succeeded on_failed a in
        elim (Bool-cases (is_empty a.provider_payment_id)) [
          | inl absent ↦ let same : d ≡ db = ground (arith, e, absent) in rw same h
          | inr present ↦
              let asked : then_run (get_payment a.provider_payment_id) apply db ≡ (err z, d) =
                ground (arith, e, present) in
              let kept = keeps a.provider_payment_id db h in
              elim (then_run-err (get_payment a.provider_payment_id) apply db d asked) [
                | inl raised ↦ subst (IsStored k) (ap (λ x. x.1) raised) kept
                | inr (x, mid, answered, failing) ↦
                    let same = applied_err a x z mid d failing in
                    subst (IsStored k) (ap (λ x. x.1) answered ∙ sym same) kept
              ]
        ]

    pub raised-IsStored :
        (z : Error) (db d : Db)
        → IsStored k db
        → reconcile_payment_attempt on_succeeded on_failed get_payment k db ≡ (err z, d)
        → IsStored k d
    unfolding reconcile_payment_attempt
    raised-IsStored z db d h e =
        let ask = ask_provider on_succeeded on_failed get_payment in
        elim (then_run-err (run_atomic (get_attempt k)) ask db d e) [
          | inl raised ↦ subst (IsStored k) (sym (run_atomic-err (get_attempt k) db d raised)) h
          | inr (a, mid, read, failing) ↦
              let (_, _, same) =
                get_attempt-found k a db mid (run_atomic-ok (get_attempt k) db mid read) in
              asked-IsStored a z mid d (subst (IsStored k) (sym same) h) failing
        ]
