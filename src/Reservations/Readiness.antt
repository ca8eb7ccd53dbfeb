-- ===== src/Reservations/Readiness.antt =====
-- reservations/services.py: when consuming the reservations of an order cannot fail.
pub mod Totals
use mathlib.Core.Path.{subst}
use swedesweets_ops.Prelude.{
  ℕ, ◌+◌, ◌-◌, ◌≤◌, ◌<◌, ◌≡◌, ◌≢◌, ◌⊎◌, ◌∙◌, refl, ap, sym, arith, Bool, true, false, not, ◌&&◌,
  inl, inr, Bool-cases, some, Option, List, [], ◌∷◌, ok, Result, pos, if◌then◌else◌, ◌==◌, filter,
  any, sum_by, All, All-map, All-zip, IsDistinct, raise_if, missing_reservations, ltb, leb,
}
use swedesweets_ops.Prelude.Rows.{find, save, for_each, find-save_ne, find-key}
use swedesweets_ops.Prelude.Totals.{Dict, add_to, totals_from, total_of}
use swedesweets_ops.Prelude.Sorting.{insert, sort}
use swedesweets_ops.Inventory.Models.{InventoryBatch, active, depleted, status_eq, pick}
use swedesweets_ops.Inventory.Stock.{pick_exact}
use swedesweets_ops.Reservations.Models.{
  Allocation, consume, consumed, allocation_status_eq, is_active, is_unexpired,
}
use swedesweets_ops.Reservations.Selectors.{claimed}
use swedesweets_ops.Reservations.Services.{
  is_reserved_for, allocation_order_le, pick_from, pick_all, reserved_totals, change_allocations,
  consume_reservations_for_order, with_allocations,
}
use swedesweets_ops.Reservations.Overbooking.{NoOverbooking}
use swedesweets_ops.Reservations.Consumption.{InForce, held_by, reserved_totals-eq-held}
use swedesweets_ops.Reservations.Readiness.Totals.{
  totals_from-All, totals_from-IsDistinct, All-sort, All-selected, entry_total,
}
use swedesweets_ops.Database.{Db}

-- A batch with this key is stored and active.
abbrev pub OnShelf : List InventoryBatch → ℕ → Type 0
OnShelf bs k = (b : InventoryBatch) × (find (λ c. c.pk) k bs ≡ some b) × (b.status ≡ active)

-- The reserved allocations of an order are for at least one unit each, of active batches.
abbrev pub Servable : ℕ → Db → Type 0
Servable o db =
    All (λ a. (is_reserved_for o a ≡ false) ⊎ ((0 < a.quantity) × OnShelf db.batches a.batch_id))
      db.allocations

swap_parts : {A B C : Type 0} → A ⊎ (B × C) → A ⊎ (C × B)
swap_parts (inl a) = inl a
swap_parts (inr (b, c)) = inr (c, b)

find-All :
    (P : InventoryBatch → Type 0) (k : ℕ) (b : InventoryBatch) (bs : List InventoryBatch)
    → All P bs
    → find (λ c. c.pk) k bs ≡ some b
    → P b
unfolding find
find-All P k b [] h f = absurd cc
find-All P k b (c ∷ bs) h f = elim (Bool-cases (k == c.pk)) [
  | inl here ↦ let same : c ≡ b = ground arith in subst P same h.0
  | inr other ↦ find-All P k b bs h.1 (ground arith)
]

held-le-claimed :
    (now o k : ℕ) (rows : List Allocation)
    → InForce now o rows
    → held_by o k rows ≤ claimed now k rows
unfolding sum_by is_active is_reserved_for
held-le-claimed now o k [] f = omega arith
held-le-claimed now o k (a ∷ rows) f = ground (arith, held-le-claimed now o k rows f.1)

-- A batch that is stored, active, and holds the units that are to be picked.
abbrev Pickable : List InventoryBatch → ℕ × ℕ → Type 0
Pickable bs e =
    (b : InventoryBatch) × (find (λ c. c.pk) e.0 bs ≡ some b)
    × (b.status ≡ active)
    × (0 < e.1)
    × (e.1 ≤ b.quantity)

pick_from-succeeds :
    (k q : ℕ) (bs : List InventoryBatch)
    → Pickable bs (k, q)
    → (b' : InventoryBatch) × (pick_from k q bs ≡ ok b') × (b'.pk ≡ k)
unfolding pick_from
pick_from-succeeds k q bs (b, found, status, some_wanted, enough) =
    let b' = record b {
      quantity = b.quantity - q;
      status = if q == b.quantity then depleted else active;
    } in
    let made : pick (pos q) b ≡ ok b' = unfold status_eq in ground (arith, pick_exact (pos q) b) in
    (b', ground (arith, made, found), find-key (λ (c : InventoryBatch). c.pk) k bs found)

pick_all_step :
    (k q : ℕ) (totals : Dict ℕ) (b' : InventoryBatch) (bs : List InventoryBatch)
    → pick_from k q bs ≡ ok b'
    → pick_all ((k, q) ∷ totals) bs ≡ pick_all totals (save (λ c. c.pk) b' bs)
unfolding pick_all
pick_all_step k q totals b' bs e = ground arith

-- Totals of different batches that can each be picked can all be picked.
pick_all-succeeds :
    (totals : Dict ℕ) (bs : List InventoryBatch)
    → IsDistinct (λ e. e.0) totals
    → All (Pickable bs) totals
    → (bs' : List InventoryBatch) × (pick_all totals bs ≡ ok bs')
unfolding pick_all
pick_all-succeeds [] bs d h = (bs, refl)
pick_all-succeeds ((k, q) ∷ totals) bs d h =
    let (b', made, key) = pick_from-succeeds k q bs h.0 in
    let still =
      All-zip (λ e. Pickable (save (λ c. c.pk) b' bs) e) totals
        (λ e ne pickable.
          let (b, found, status, some_wanted, enough) = pickable in
          (
            b,
            find-save_ne (λ (c : InventoryBatch). c.pk) b' e.0 bs (λ same. ne (same ∙ key)) ∙ found,
            status,
            some_wanted,
            enough,
          ))
        d.0 h.1 in
    let (bs', picked) = pick_all-succeeds totals (save (λ c. c.pk) b' bs) d.1 still in
    (bs', pick_all_step k q totals b' bs made ∙ picked)

consume-succeeds :
    (o : ℕ) (rows : List Allocation)
    → (rows' : List Allocation) × (for_each (is_reserved_for o) consume rows ≡ ok rows')
unfolding for_each is_reserved_for consume
consume-succeeds o [] = ([], refl)
consume-succeeds o (a ∷ rows) =
    let (rows', made) = consume-succeeds o rows in
    elim (Bool-cases (is_reserved_for o a)) [
      | inl here ↦
          (record a { status = consumed } ∷ rows', unfold allocation_status_eq in ground arith)
      | inr other ↦ (a ∷ rows', ground arith)
    ]

-- What an order has reserved of an active batch can be picked from it.
reserved-Pickable :
    (now o k q : ℕ) (db : Db)
    → NoOverbooking now db
    → InForce now o db.allocations
    → held_by o k db.allocations ≡ q
    → OnShelf db.batches k × (0 < q)
    → Pickable db.batches (k, q)
reserved-Pickable now o k q db sound force held ((b, found, status), some_wanted) =
    let key = find-key (λ (c : InventoryBatch). c.pk) k db.batches found in
    let fits =
      find-All (λ c. claimed now c.pk db.allocations ≤ c.quantity) k b db.batches sound found in
    let enough = subst (λ n. claimed now n db.allocations ≤ b.quantity) key fits in
    (
      b,
      found,
      status,
      some_wanted,
      omega (arith, enough, held, held-le-claimed now o k db.allocations force),
    )

reserved_totals-Pickable :
    (now o : ℕ) (db : Db)
    → NoOverbooking now db
    → InForce now o db.allocations
    → Servable o db
    → IsDistinct (λ e. e.0) (reserved_totals o db)
      × All (Pickable db.batches) (reserved_totals o db)
reserved_totals-Pickable now o db sound force ready =
    let le = allocation_order_le db.batches in
    let chosen = sort le (filter (is_reserved_for o) db.allocations) in
    let distinct : IsDistinct (λ e. e.0) (reserved_totals o db) =
      unfold reserved_totals in totals_from-IsDistinct chosen [] tt in
    let rows =
      All-sort (λ a. OnShelf db.batches a.batch_id × (0 < a.quantity)) le
        (filter (is_reserved_for o) db.allocations)
        (All-selected (λ a. OnShelf db.batches a.batch_id × (0 < a.quantity)) (is_reserved_for o)
          db.allocations
          (All-map
            (λ a.
              (is_reserved_for o a ≡ false) ⊎ ((0 < a.quantity) × OnShelf db.batches a.batch_id))
            (λ a.
              (is_reserved_for o a ≡ false) ⊎ (OnShelf db.batches a.batch_id × (0 < a.quantity)))
            db.allocations (λ a h. swap_parts h) ready)) in
    let entries : All (λ e. OnShelf db.batches e.0 × (0 < e.1)) (reserved_totals o db) =
      unfold reserved_totals in totals_from-All (OnShelf db.batches) chosen [] rows tt in
    (
      distinct,
      All-zip (Pickable db.batches) (reserved_totals o db)
          (λ e total entry.
            reserved-Pickable now o e.0 e.1 db sound force
              (sym (reserved_totals-eq-held o e.0 db) ∙ total) entry)
          (entry_total (reserved_totals o db) distinct) entries,
    )

-- If no batch has more active claims than units, and an order has reserved something, all of it in
-- force, at least one unit each, and of active batches, then consuming its reservations succeeds.
pub consume_reservations-succeeds :
    (now o : ℕ) (db : Db)
    → NoOverbooking now db
    → InForce now o db.allocations
    → Servable o db
    → any (is_reserved_for o) db.allocations ≡ true
    → (db' : Db) × (consume_reservations_for_order o db ≡ ok (tt, db'))
unfolding consume_reservations_for_order change_allocations
consume_reservations-succeeds now o db sound force ready present =
    let (distinct, pickable) = reserved_totals-Pickable now o db sound force ready in
    let (bs, picked) = pick_all-succeeds (reserved_totals o db) db.batches distinct pickable in
    let (rows, consumed_rows) = consume-succeeds o db.allocations in
    (record db { batches = bs; allocations = rows }, ground (arith, present, picked, consumed_rows))
