-- ===== src/Reservations/Release.antt =====
-- reservations/services.py: cancelling, deleting and confirming reservations, and the claims on a
-- batch before and after; also as time passes.
use swedesweets_ops.Prelude.{
  false, ℕ, ◌≤◌, ◌≡◌, refl, true, not, ◌&&◌, Bool, List, [], ◌∷◌, arith, ok, Result, All-map,
  sum_by, sum_by-Zip_le, filter, is_some, any, raise_if, missing_reservations,
  invalid_reservation_pool, ◌==◌, if◌then◌else◌, none,
}
use swedesweets_ops.Prelude.Rows.{for_each, update_where, for_each-Zip}
use swedesweets_ops.Reservations.Models.{Allocation, is_active, is_unexpired, cancel_allocation}
use swedesweets_ops.Reservations.Selectors.{claimed}
use swedesweets_ops.Reservations.Services.{
  is_reserved_for, change_allocations, with_allocations, cancel_reservations_for_order,
  cancel_temporary_reservations_for_order, delete_reservations_for_order,
  make_reservations_permanent_for_order,
}
use swedesweets_ops.Reservations.Overbooking.{NoOverbooking}
use swedesweets_ops.Database.{
  Db, compute_write, modify-eq-ok, after_check, gets, lift, modify, ◌>>=◌,
}

is_active_later :
    (now later : ℕ) (a : Allocation)
    → now ≤ later
    → is_active later a ≡ true
    → is_active now a ≡ true
unfolding is_active
is_active_later now later a h e = ground arith

claimed_later :
    (now later k : ℕ) (rows : List Allocation)
    → now ≤ later
    → claimed later k rows ≤ claimed now k rows
unfolding sum_by
claimed_later now later k [] h = omega arith
claimed_later now later k (a ∷ rows) h =
    ground (arith, is_active_later now later a h, claimed_later now later k rows h)

claimed-cancel :
    (now k : ℕ) (selected : Allocation → Bool) (rows rows' : List Allocation)
    → for_each selected cancel_allocation rows ≡ ok rows'
    → claimed now k rows' ≤ claimed now k rows
unfolding cancel_allocation is_active
claimed-cancel now k selected rows rows' e =
    sum_by-Zip_le (λ x y. (if selected x then cancel_allocation x else ok x) ≡ ok y)
      (λ a. if k == a.batch_id && is_active now a then a.quantity else 0)
      (λ a. if k == a.batch_id && is_active now a then a.quantity else 0) rows rows'
      (λ x y h. ground arith) (for_each-Zip selected cancel_allocation rows rows' e)

claimed-filter :
    (now k : ℕ) (p : Allocation → Bool) (rows : List Allocation)
    → claimed now k (filter p rows) ≤ claimed now k rows
unfolding sum_by filter
claimed-filter now k p [] = omega arith
claimed-filter now k p (a ∷ rows) = ground (arith, claimed-filter now k p rows)

-- A durable reservation of an active one claims the same.
claimed-durable :
    (now k o : ℕ) (rows : List Allocation)
    → claimed now k (
        update_where
          (λ a. is_reserved_for o a && is_unexpired now a)
          (λ a. record a { reserved_until = none })
          rows)
      ≡ claimed now k rows
unfolding sum_by update_where is_active is_reserved_for
claimed-durable now k o [] = refl
claimed-durable now k o (a ∷ rows) = ground (arith, claimed-durable now k o rows)

-- Fewer claims on the same batches overbook nothing.
fewer_claims :
    (now : ℕ) (db : Db) (rows : List Allocation)
    → ((k : ℕ) → claimed now k rows ≤ claimed now k db.allocations)
    → NoOverbooking now db
    → NoOverbooking now (record db { allocations = rows })
fewer_claims now db rows fewer sound =
    All-map (λ b. claimed now b.pk db.allocations ≤ b.quantity)
      (λ b. claimed now b.pk rows ≤ b.quantity) db.batches (λ b h. omega (arith, fewer b.pk)) sound

pub change_writes :
    (selected : Allocation → Bool) (method : Allocation → Result Allocation) (db db' : Db)
    → change_allocations selected method db ≡ ok (tt, db')
    → (rows : List Allocation) × (for_each selected method db.allocations ≡ ok rows)
      × (db' ≡ record db { allocations = rows })
unfolding change_allocations
change_writes selected method db db' e =
    compute_write (λ db. for_each selected method db.allocations) with_allocations db e

-- Cancelling an order's reservations overbooks nothing.
pub cancel-NoOverbooking :
    (now o : ℕ) (db db' : Db)
    → cancel_reservations_for_order o db ≡ ok (tt, db')
    → NoOverbooking now db
    → NoOverbooking now db'
unfolding cancel_reservations_for_order
cancel-NoOverbooking now o db db' e sound =
    let (rows, made, written) = change_writes (is_reserved_for o) cancel_allocation db db' e in
    rw written (
      fewer_claims now db rows
        (λ k. claimed-cancel now k (is_reserved_for o) db.allocations rows made) sound)

pub cancel_temporary-NoOverbooking :
    (now o : ℕ) (db db' : Db)
    → cancel_temporary_reservations_for_order o db ≡ ok (tt, db')
    → NoOverbooking now db
    → NoOverbooking now db'
unfolding cancel_temporary_reservations_for_order
cancel_temporary-NoOverbooking now o db db' e sound =
    let selected = λ (a : Allocation). is_reserved_for o a && is_some a.reserved_until in
    let (rows, made, written) = change_writes selected cancel_allocation db db' e in
    rw written
      (fewer_claims now db rows (λ k. claimed-cancel now k selected db.allocations rows made) sound)

pub cancel_temporary_writes :
    (o : ℕ) (db db' : Db)
    → cancel_temporary_reservations_for_order o db ≡ ok (tt, db')
    → (rows : List Allocation) × (for_each
          (λ a. is_reserved_for o a && is_some a.reserved_until)
          cancel_allocation
          db.allocations
        ≡ ok rows)
      × (db' ≡ record db { allocations = rows })
unfolding cancel_temporary_reservations_for_order
cancel_temporary_writes o db db' e =
    change_writes (λ a. is_reserved_for o a && is_some a.reserved_until) cancel_allocation db db' e

pub delete-NoOverbooking :
    (now o : ℕ) (db db' : Db)
    → delete_reservations_for_order o db ≡ ok (tt, db')
    → NoOverbooking now db
    → NoOverbooking now db'
unfolding delete_reservations_for_order
delete-NoOverbooking now o db db' e sound =
    let kept = filter (λ a. not (is_reserved_for o a)) db.allocations in
    rw (modify-eq-ok (with_allocations kept) db e) (
      fewer_claims now db kept
        (λ k. claimed-filter now k (λ a. not (is_reserved_for o a)) db.allocations) sound)

abbrev pub made_durable : ℕ → ℕ → List Allocation → List Allocation
made_durable now o =
    update_where (λ a. is_reserved_for o a && is_unexpired now a)
      (λ a. record a { reserved_until = none })

pub make_permanent_writes :
    (now o : ℕ) (db db' : Db)
    → make_reservations_permanent_for_order now o db ≡ ok (tt, db')
    → db' ≡ with_allocations (made_durable now o db.allocations) db
unfolding make_reservations_permanent_for_order
make_permanent_writes now o db db' e =
    let selected = λ (a : Allocation). is_reserved_for o a && is_unexpired now a in
    let write = λ (db : Db). with_allocations (made_durable now o db.allocations) db in
    let durable =
      λ (db : Db). any (λ a. selected a && not (is_some a.reserved_until)) db.allocations in
    let (_, first) =
      after_check (raise_if (not (any selected db.allocations)) missing_reservations)
        (gets durable >>= λ d. lift (raise_if d invalid_reservation_pool) >>= λ _. modify write) db
        e in
    let (_, last) =
      after_check (raise_if (durable db) invalid_reservation_pool) (modify write) db first in
    modify-eq-ok write db last

-- What is checked before: some reservation of the order is in force, and none for good.
pub make_permanent_checks :
    (now o : ℕ) (db db' : Db)
    → make_reservations_permanent_for_order now o db ≡ ok (tt, db')
    → (any (λ a. is_reserved_for o a && is_unexpired now a) db.allocations ≡ true)
      × (any
            (λ a. (is_reserved_for o a && is_unexpired now a) && not (is_some a.reserved_until))
            db.allocations
          ≡ false)
unfolding make_reservations_permanent_for_order
make_permanent_checks now o db db' e =
    let selected = λ (a : Allocation). is_reserved_for o a && is_unexpired now a in
    let write = λ (db : Db). with_allocations (made_durable now o db.allocations) db in
    let durable =
      λ (db : Db). any (λ a. selected a && not (is_some a.reserved_until)) db.allocations in
    let (present, first) =
      after_check (raise_if (not (any selected db.allocations)) missing_reservations)
        (gets durable >>= λ d. lift (raise_if d invalid_reservation_pool) >>= λ _. modify write) db
        e in
    let (temporary, _) =
      after_check (raise_if (durable db) invalid_reservation_pool) (modify write) db first in
    (ground arith, ground arith)

pub make_permanent-NoOverbooking :
    (now o : ℕ) (db db' : Db)
    → make_reservations_permanent_for_order now o db ≡ ok (tt, db')
    → NoOverbooking now db
    → NoOverbooking now db'
make_permanent-NoOverbooking now o db db' e sound =
    let written = make_permanent_writes now o db db' e in
    rw written (
      All-map (λ b. claimed now b.pk db.allocations ≤ b.quantity)
        (λ b. claimed now b.pk (made_durable now o db.allocations) ≤ b.quantity) db.batches
        (λ b h. omega (arith, claimed-durable now b.pk o db.allocations)) sound)

-- What overbooks no batch at one instant overbooks none later, as holds only run out.
pub NoOverbooking-later :
    (now later : ℕ) (db : Db) → now ≤ later → NoOverbooking now db → NoOverbooking later db
NoOverbooking-later now later db h sound =
    All-map (λ b. claimed now b.pk db.allocations ≤ b.quantity)
      (λ b. claimed later b.pk db.allocations ≤ b.quantity) db.batches
      (λ b k. omega (arith, claimed_later now later b.pk db.allocations h)) sound
