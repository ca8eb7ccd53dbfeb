-- ===== src/Reservations/Consumption.antt =====
-- consume_reservations_for_order of reservations/services.py: what it writes, and the units of a
-- batch before and after.
use mathlib.Core.Path.{subst, fun_ext}
use swedesweets_ops.Prelude.{
  some_first, ok_first, key_error, ℕ, ◌+◌, ◌≤◌, ◌≡◌, ◌≢◌, ◌⊎◌, ◌∙◌, refl, ap, inl, inr, true, false,
  not, ◌&&◌, Bool-cases, List, [], ◌∷◌, arith, ok, All, All-map, Zip, Zip-All, sum_by, filter, any,
  IsDistinct, raise_if, missing_reservations, ◌==◌, if◌then◌else◌, pos, some,
}
use swedesweets_ops.Prelude.Rows.{find, save, for_each, for_each-Zip, find-key}
use swedesweets_ops.Prelude.Totals.{Dict, total_of}
use swedesweets_ops.Prelude.Sorting.{sort, sum_by-sort}
use swedesweets_ops.Inventory.Models.{InventoryBatch, pick}
use swedesweets_ops.Inventory.Stock.{pick_exact}
use swedesweets_ops.Reservations.Models.{Allocation, is_active, is_unexpired, consume}
use swedesweets_ops.Reservations.Selectors.{claimed, total-totals_from}
use swedesweets_ops.Reservations.Services.{
  is_reserved_for, change_allocations, pick_from, pick_all, reserved_totals,
  consume_reservations_for_order, allocation_order_le,
}
use swedesweets_ops.Reservations.Overbooking.{NoOverbooking}
use swedesweets_ops.Reservations.Release.{change_writes}
use swedesweets_ops.Database.{Db, gets, lift, modify, after_check, lift_then, ◌>>=◌}

-- The units of one batch that an order has reserved, active or not.
abbrev pub held_by : ℕ → ℕ → List Allocation → ℕ
held_by o k = sum_by (λ a. if k == a.batch_id && is_reserved_for o a then a.quantity else 0)

-- A batch before and after `taken` gives the units that left it.
abbrev pub Took : (ℕ → ℕ) → InventoryBatch → InventoryBatch → Type 0
Took taken b b' = (b'.pk ≡ b.pk) × (b'.quantity + taken b.pk ≡ b.quantity)

pick_takes :
    (q : ℕ) (b b' : InventoryBatch)
    → pick (pos q) b ≡ ok b'
    → (b'.pk ≡ b.pk) × (b'.quantity + q ≡ b.quantity)
pick_takes q b b' e = ground (arith, pick_exact (pos q) b)

save_untouched :
    (b' : InventoryBatch) (q : ℕ) (bs : List InventoryBatch)
    → All (λ c. c.pk ≢ b'.pk) bs
    → Zip (Took (λ k. if k == b'.pk then q else 0)) bs (save (λ c. c.pk) b' bs)
unfolding save
save_untouched b' q [] h = tt
save_untouched b' q (c ∷ bs) h = elim (Bool-cases (b'.pk == c.pk)) [
  | inl e ↦ ground arith
  | inr e ↦ rw e (ground arith, save_untouched b' q bs h.1)
]

-- Saving one picked batch takes its units and leaves the others.
save_takes :
    (b b' : InventoryBatch) (q : ℕ) (bs : List InventoryBatch)
    → IsDistinct (λ c. c.pk) bs
    → find (λ c. c.pk) b'.pk bs ≡ some b
    → b'.quantity + q ≡ b.quantity
    → Zip (Took (λ k. if k == b'.pk then q else 0)) bs (save (λ c. c.pk) b' bs)
unfolding save find
save_takes b b' q [] d f e = tt
save_takes b b' q (c ∷ bs) d f e = elim (Bool-cases (b'.pk == c.pk)) [
  | inl here ↦ rw here (
    ground arith,
    save_untouched b' q bs
        (All-map (λ x. x.pk ≢ c.pk) (λ x. x.pk ≢ b'.pk) bs (λ x ne. ground arith) d.0),
  )
  | inr below ↦ rw below (ground arith, save_takes b b' q bs d.1 (ground arith) e)
]

Took-trans :
    (s t : ℕ → ℕ) (xs ys zs : List InventoryBatch)
    → Zip (Took s) xs ys
    → Zip (Took t) ys zs
    → Zip (Took (λ k. s k + t k)) xs zs
Took-trans s t [] [] [] h k = tt
Took-trans s t [] [] (z ∷ zs) h k = elim k [ ]
Took-trans s t [] (y ∷ ys) zs h k = elim h [ ]
Took-trans s t (x ∷ xs) [] zs h k = elim h [ ]
Took-trans s t (x ∷ xs) (y ∷ ys) [] h k = elim k [ ]
Took-trans s t (x ∷ xs) (y ∷ ys) (z ∷ zs) h k =
    ((k.0.0 ∙ h.0.0, omega (arith, ap t h.0.0)), Took-trans s t xs ys zs h.1 k.1)

pub Took-IsDistinct :
    (t : ℕ → ℕ) (xs ys : List InventoryBatch)
    → Zip (Took t) xs ys
    → IsDistinct (λ c. c.pk) xs
    → IsDistinct (λ c. c.pk) ys
Took-IsDistinct t [] [] z d = tt
Took-IsDistinct t [] (y ∷ ys) z d = elim z [ ]
Took-IsDistinct t (x ∷ xs) [] z d = elim z [ ]
Took-IsDistinct t (x ∷ xs) (y ∷ ys) z d = (
  Zip-All (Took t) (λ c. c.pk ≢ x.pk) (λ c. c.pk ≢ y.pk) xs ys (λ c c' took ne. ground arith) z.1
      d.0,
  Took-IsDistinct t xs ys z.1 d.1,
)

Took-nothing :
    (bs : List InventoryBatch)
    → Zip (Took (λ k. total_of {A = ℕ × ℕ} (λ e. e.0) (λ e. e.1) k [])) bs bs
unfolding sum_by
Took-nothing [] = tt
Took-nothing (b ∷ bs) = (omega arith, Took-nothing bs)

pick_all_cases :
    (k q : ℕ) (totals : Dict ℕ) (bs bs' : List InventoryBatch)
    → pick_all ((k, q) ∷ totals) bs ≡ ok bs'
    → (b b' : InventoryBatch) × (find (λ c. c.pk) k bs ≡ some b)
      × (pick (pos q) b ≡ ok b')
      × (pick_all totals (save (λ c. c.pk) b' bs) ≡ ok bs')
unfolding pick_all
pick_all_cases k q totals bs bs' e =
    let (b', picked, rest) =
      ok_first (pick_from k q bs) (λ b. pick_all totals (save (λ c. c.pk) b bs)) e in
    let (b, found, made) =
      some_first (find (λ c. c.pk) k bs) key_error (λ b. pick (pos q) b) picked in
    (b, b', found, made, rest)

count_first :
    (k q : ℕ) (totals : Dict ℕ) (n : ℕ) (bs bs' : List InventoryBatch)
    → n ≡ k
    → Zip (Took (λ j. (if j == n then q else 0) + total_of (λ e. e.0) (λ e. e.1) j totals)) bs bs'
    → Zip (Took (λ j. total_of (λ e. e.0) (λ e. e.1) j ((k, q) ∷ totals))) bs bs'
unfolding sum_by
count_first k q totals n bs bs' key both =
    subst
      (λ n.
        Zip (Took (λ j. (if j == n then q else 0) + total_of (λ e. e.0) (λ e. e.1) j totals)) bs
          bs')
      key both

-- The loop of picks takes each batch's total.
pick_all_takes :
    (totals : Dict ℕ) (bs bs' : List InventoryBatch)
    → IsDistinct (λ c. c.pk) bs
    → pick_all totals bs ≡ ok bs'
    → Zip (Took (λ k. total_of (λ e. e.0) (λ e. e.1) k totals)) bs bs'
pick_all_takes [] bs bs' d e =
    let same : bs ≡ bs' = unfold pick_all in ground arith in
    subst (Zip (Took (λ k. total_of {A = ℕ × ℕ} (λ e. e.0) (λ e. e.1) k [])) bs) same
      (Took-nothing bs)
pick_all_takes ((k, q) ∷ totals) bs bs' d e =
    let (b, b', found, made, rest) = pick_all_cases k q totals bs bs' e in
    let (same, took) = pick_takes q b b' made in
    let key : b'.pk ≡ k = same ∙ find-key (λ c. c.pk) k bs found in
    let first =
      save_takes b b' q bs d (ap (λ n. find (λ (c : InventoryBatch). c.pk) n bs) key ∙ found)
        took in
    let after =
      pick_all_takes totals (save (λ c. c.pk) b' bs) bs'
        (Took-IsDistinct _ bs (save (λ c. c.pk) b' bs) first d) rest in
    let both = Took-trans _ _ bs (save (λ c. c.pk) b' bs) bs' first after in
    count_first k q totals b'.pk bs bs' key both

held-filter :
    (o k : ℕ) (rows : List Allocation)
    → total_of (λ a. a.batch_id) (λ a. a.quantity) k (filter (is_reserved_for o) rows)
      ≡ held_by o k rows
unfolding sum_by filter
held-filter o k [] = refl
held-filter o k (a ∷ rows) = ground (arith, held-filter o k rows)

no_total : (k : ℕ) → total_of {A = ℕ × ℕ} (λ e. e.0) (λ e. e.1) k [] ≡ 0
unfolding sum_by
no_total k = refl

-- The totals are the units that the order has reserved.
pub reserved_totals-eq-held :
    (o k : ℕ) (db : Db)
    → total_of (λ e. e.0) (λ e. e.1) k (reserved_totals o db) ≡ held_by o k db.allocations
unfolding reserved_totals
reserved_totals-eq-held o k db =
    let le = allocation_order_le db.batches in
    let chosen = filter (is_reserved_for o) db.allocations in
    omega (
      arith,
      total-totals_from (λ (a : Allocation). a.batch_id) (λ (a : Allocation). a.quantity) k
          (sort le chosen) [],
      no_total k,
      sum_by-sort le (λ (a : Allocation). if k == a.batch_id then a.quantity else 0) chosen,
      held-filter o k db.allocations,
    )

abbrev pub with_batches : List InventoryBatch → Db → Db
with_batches bs db = record db { batches = bs }

pub consume_writes :
    (o : ℕ) (db db' : Db)
    → consume_reservations_for_order o db ≡ ok (tt, db')
    → (bs : List InventoryBatch) × (rows : List Allocation) × (pick_all
          (reserved_totals o db)
          db.batches
        ≡ ok bs)
      × (for_each (is_reserved_for o) consume db.allocations ≡ ok rows)
      × (db' ≡ record db { batches = bs; allocations = rows })
unfolding consume_reservations_for_order
consume_writes o db db' e =
    let finish = change_allocations (is_reserved_for o) consume in
    let write = λ (bs : List InventoryBatch). modify (with_batches bs) >>= λ _. finish in
    let picked = λ (db : Db). pick_all (reserved_totals o db) db.batches in
    let (_, first) =
      after_check (raise_if (not (any (is_reserved_for o) db.allocations)) missing_reservations)
        (gets picked >>= λ r. lift r >>= write) db e in
    let (bs, made, rest) = lift_then (picked db) write db first in
    let (rows, changed, written) =
      change_writes (is_reserved_for o) consume (with_batches bs db) db' rest in
    (bs, rows, made, changed, written)

-- An order's reservations are all in force at an instant.
abbrev pub InForce : ℕ → ℕ → List Allocation → Type 0
InForce now o = All (λ a. (is_reserved_for o a ≡ false) ⊎ (is_unexpired now a ≡ true))

claimed-consume :
    (now o k : ℕ) (rows rows' : List Allocation)
    → InForce now o rows
    → Zip (λ x y. (if is_reserved_for o x then consume x else ok x) ≡ ok y) rows rows'
    → claimed now k rows' + held_by o k rows ≡ claimed now k rows
unfolding sum_by consume is_active is_reserved_for
claimed-consume now o k [] [] f z = omega arith
claimed-consume now o k [] (y ∷ ys) f z = elim z [ ]
claimed-consume now o k (x ∷ xs) [] f z = elim z [ ]
claimed-consume now o k (x ∷ xs) (y ∷ ys) f z =
    ground (arith, claimed-consume now o k xs ys f.1 z.1)

-- If batches have distinct keys and the reservations of an order are consumed, then every batch
-- keeps its key and holds exactly the units less that the order had reserved of it.
pub consume_takes_reserved :
    (o : ℕ) (db db' : Db)
    → IsDistinct (λ b. b.pk) db.batches
    → consume_reservations_for_order o db ≡ ok (tt, db')
    → Zip
        (λ b b'. (b'.pk ≡ b.pk) × (b'.quantity + held_by o b.pk db.allocations ≡ b.quantity))
        db.batches
        db'.batches
consume_takes_reserved o db db' d e =
    let (bs, rows, picked, changed, written) = consume_writes o db db' e in
    let taken = pick_all_takes (reserved_totals o db) db.batches bs d picked in
    rw written
      (subst (λ f. Zip (Took f) db.batches bs) (fun_ext λ k. reserved_totals-eq-held o k db) taken)

-- If batches have distinct keys, the order's reservations are all in force, and no batch has more
-- active claims than units, then no batch has after the order's reservations are consumed.
pub consume-NoOverbooking :
    (now o : ℕ) (db db' : Db)
    → IsDistinct (λ b. b.pk) db.batches
    → InForce now o db.allocations
    → NoOverbooking now db
    → consume_reservations_for_order o db ≡ ok (tt, db')
    → NoOverbooking now db'
consume-NoOverbooking now o db db' d force sound e =
    let (bs, rows, picked, changed, written) = consume_writes o db db' e in
    let took = consume_takes_reserved o db db' d e in
    let after : (k : ℕ)
        → claimed now k db'.allocations + held_by o k db.allocations
          ≡ claimed now k db.allocations =
      λ k. rw written (
        claimed-consume now o k db.allocations rows force
          (for_each-Zip (is_reserved_for o) consume db.allocations rows changed)) in
    Zip-All (λ b b'. (b'.pk ≡ b.pk) × (b'.quantity + held_by o b.pk db.allocations ≡ b.quantity))
      (λ b. claimed now b.pk db.allocations ≤ b.quantity)
      (λ b. claimed now b.pk db'.allocations ≤ b.quantity) db.batches db'.batches
      (λ b b' left before. rw left.0 (omega (arith, after b.pk))) took sound
