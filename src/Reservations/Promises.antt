-- ===== src/Reservations/Promises.antt =====
-- reservations/services.py: what a line holds after its units are reserved from a pool.
use swedesweets_ops.Prelude.{
  ℕ, ◌+◌, ◌≤◌, ◌≡◌, refl, sym, ◌∙◌, Bool, true, false, ◌&&◌, ◌==◌, arith, Option, none, some, List,
  [], ◌∷◌, sum_by, sum_by-append, ok, All, IsDistinct, if◌then◌else◌, pos,
}
use mathlib.Core.Path.{subst}
use swedesweets_ops.Inventory.Models.{InventoryBatch}
use swedesweets_ops.Orders.Models.{OrderLine}
use swedesweets_ops.Reservations.Models.{Allocation, reserved, allocation_status_eq}
use swedesweets_ops.Reservations.Planning.{BatchPick}
use swedesweets_ops.Reservations.Services.{
  new_allocations, add_allocations, reserve_order_line_from_pool,
}
use swedesweets_ops.Reservations.Overbooking.{
  NoOverbooking, reserve_writes, reserve-NoOverbooking, plan_for_line-sum,
}
use swedesweets_ops.Database.{Db, Action, ⊤, ◌>>=◌, >>=-eq-ok}

-- Held until the same instant, or both for good.
unfoldable pub until_eq : Option ℕ → Option ℕ → Bool
until_eq none none = true
until_eq none (some t) = false
until_eq (some u) none = false
until_eq (some u) (some t) = u == t

-- A reservation for a line that is held exactly so long.
unfoldable pub is_promised : Option ℕ → ℕ → Allocation → Bool
unfolding allocation_status_eq until_eq
is_promised until line_pk a =
    a.order_line_id == line_pk
    && (allocation_status_eq a.status reserved && until_eq until a.reserved_until)

abbrev pub promised : Option ℕ → ℕ → List Allocation → ℕ
promised until line_pk = sum_by (λ a. if is_promised until line_pk a then a.quantity else 0)

promised-new_allocations :
    (until : Option ℕ) (pk : ℕ) (l : OrderLine) (picks : List BatchPick)
    → promised until l.pk (new_allocations l until pk picks) ≡ sum_by (λ p. p.quantity) picks
unfolding sum_by new_allocations is_promised
promised-new_allocations until pk l [] = refl
promised-new_allocations none pk l (p ∷ picks) =
    ground (arith, promised-new_allocations none (pk + 1) l picks)
promised-new_allocations (some t) pk l (p ∷ picks) =
    ground (arith, promised-new_allocations (some t) (pk + 1) l picks)

-- What reserving lines does: every line has all of its units promised.
abbrev pub Reserves : ℕ → Option ℕ → List OrderLine → Db → Db → Type 0
Reserves now until ls db db' =
    (NoOverbooking now db → NoOverbooking now db')
    × (db'.batches ≡ db.batches)
    × (db'.attempts ≡ db.attempts)
    × (db'.lines ≡ db.lines)
    × (db'.orders ≡ db.orders)
    × ((k : ℕ) → promised until k db.allocations ≤ promised until k db'.allocations)
    × All (λ l. l.quantity_in_units ≤ promised until l.pk db'.allocations) ls

pub reserve-Reserves :
    (now : ℕ) (l : OrderLine) (pool : InventoryBatch → Bool) (until : Option ℕ) (db db' : Db)
    → IsDistinct (λ b. b.pk) db.batches
    → reserve_order_line_from_pool now l pool (pos l.quantity_in_units) until db ≡ ok (tt, db')
    → Reserves now until (l ∷ []) db db'
reserve-Reserves now l pool until db db' distinct e =
    let wanted = pos l.quantity_in_units in
    let (picks, planned, written) = reserve_writes now l pool wanted until db db' e in
    let total = plan_for_line-sum now l pool l.quantity_in_units db picks planned in
    let grown = λ (k : ℕ).
      sum_by-append (λ (a : Allocation). if is_promised until k a then a.quantity else 0)
        db.allocations (new_allocations l until db.next_pk picks) in
    (
      λ sound. reserve-NoOverbooking now l pool wanted until db db' distinct sound e,
      rw written (unfold add_allocations in refl),
      rw written (unfold add_allocations in refl),
      rw written (unfold add_allocations in refl),
      rw written (unfold add_allocations in refl),
      λ k. rw written (unfold add_allocations in omega (arith, grown k)),
      (
        rw written (
            unfold add_allocations in
            omega (arith, grown l.pk, promised-new_allocations until db.next_pk l picks, total)),
        tt,
      ),
    )

-- A loop that reserves line by line.
pub loop-Reserves :
    (now : ℕ) (until : Option ℕ) (step : OrderLine → Action ⊤) (loop : List OrderLine → Action ⊤)
    → ((db : Db) → loop [] db ≡ ok (tt, db))
    → ((l : OrderLine) (ls : List OrderLine) (db : Db)
        → loop (l ∷ ls) db ≡ (step l >>= λ _. loop ls) db)
    → ((l : OrderLine) (db db' : Db)
        → IsDistinct (λ b. b.pk) db.batches
        → step l db ≡ ok (tt, db')
        → Reserves now until (l ∷ []) db db')
    → (ls : List OrderLine) (db db' : Db) → IsDistinct (λ b. b.pk) db.batches
    → loop ls db ≡ ok (tt, db')
    → Reserves now until ls db db'
loop-Reserves now until step loop nil cons one [] db db' distinct e =
    let same : db' ≡ db = ground (arith, e, nil db) in
    rw same (λ h. h, refl, refl, refl, refl, λ k. omega arith, tt)
loop-Reserves now until step loop nil cons one (l ∷ ls) db db' distinct e =
    let (u, mid, first, rest) = >>=-eq-ok (step l) (λ _. loop ls) db (sym (cons l ls db) ∙ e) in
    let (keeps, batches, attempts, lines, orders, grows, held) = one l db mid distinct first in
    let (keeps', batches', attempts', lines', orders', grows', held') =
      loop-Reserves now until step loop nil cons one ls mid db'
        (subst (IsDistinct (λ (b : InventoryBatch). b.pk)) (sym batches) distinct) rest in
    (
      λ h. keeps' (keeps h),
      batches' ∙ batches,
      attempts' ∙ attempts,
      lines' ∙ lines,
      orders' ∙ orders,
      λ k. omega (arith, grows k, grows' k),
      (omega (arith, held.0, grows' l.pk), held'),
    )
