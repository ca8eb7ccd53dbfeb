-- ===== src/Reservations/Overbooking.antt =====
-- reserve_order_line_from_pool of reservations/services.py: the claims on a batch before and after.
use swedesweets_ops.Prelude.{
  ℕ, ◌+◌, ◌-◌, ◌≤◌, ◌≡◌, ◌≢◌, ◌⊎◌, ◌&&◌, refl, ap, ◌∙◌, true, false, inl, inr, Bool, Bool-cases,
  Option, List, [], ◌∷◌, map, arith, ok, err, Result, ℤ, pos, pos_part, pos_part-sub, sum_by,
  sum_by-append, filter, ◌==◌, if◌then◌else◌, All, All-map, All-zip, IsDistinct, contains,
}
use swedesweets_ops.Prelude.Totals.{Dict, total_of, get_or}
use swedesweets_ops.Prelude.Sorting.{insert, sort, sum_by-sort}
use swedesweets_ops.Inventory.Models.{InventoryBatch}
use swedesweets_ops.Orders.Models.{OrderLine}
use swedesweets_ops.Reservations.Models.{Allocation, is_active}
use swedesweets_ops.Reservations.Planning.{BatchPick, plan_batch_picks, allocatable_quantity}
use swedesweets_ops.Reservations.Planning.Fefo.{sum-plan_batch_picks, picked-le-free}
use swedesweets_ops.Reservations.Selectors.{
  claimed, active_reserved_quantities_by_batch_pk, active_reserved_quantities-eq-claimed,
}
use swedesweets_ops.Reservations.Services.{
  batch_order_le, validate_pool, planning_batch, new_allocations, as_ints, plan_for_line,
  add_allocations, reserve_order_line_from_pool,
}
use swedesweets_ops.Database.{Db, compute_write}

-- At this instant no batch has more active claims than units.
abbrev pub NoOverbooking : ℕ → Db → Type 0
NoOverbooking now db = All (λ b. claimed now b.pk db.allocations ≤ b.quantity) db.batches

module _ {ℓ} {A : Type ℓ} (key amount : A → ℕ) (p : A → Bool) where
  total_absent :
      (k : ℕ) (xs : List A) → All (λ y. key y ≢ k) xs → total_of key amount k (filter p xs) ≡ 0
  unfolding sum_by filter
  total_absent k [] h = refl
  total_absent k (x ∷ xs) h = ground (arith, total_absent k xs h.1)

  -- With distinct keys, the rows that pass a test and have an element's key hold its amount.
  total_of_distinct :
      (xs : List A)
      → IsDistinct key xs
      → All (λ x. total_of key amount (key x) (filter p xs) ≡ (if p x then amount x else 0)) xs
  unfolding sum_by filter
  total_of_distinct [] h = tt
  total_of_distinct (x ∷ xs) h = (
    ground (arith, total_absent (key x) xs h.0),
    All-zip (λ y. total_of key amount (key y) (filter p (x ∷ xs)) ≡ (if p y then amount y else 0))
        xs (λ y ne e. ground (arith)) h.0 (total_of_distinct xs h.1),
  )

  contains_kept :
      (xs : List A)
      → All (λ x. (p x ≡ false) ⊎ (contains (key x) (map key (filter p xs)) ≡ true)) xs
  unfolding filter contains
  contains_kept [] = tt
  contains_kept (x ∷ xs) = (
    ground arith,
    All-map (λ y. (p y ≡ false) ⊎ (contains (key y) (map key (filter p xs)) ≡ true))
        (λ y. (p y ≡ false) ⊎ (contains (key y) (map key (filter p (x ∷ xs))) ≡ true)) xs
        (λ y h. ground arith) (contains_kept xs),
  )

module _ {ℓ} {A : Type ℓ} (key : A → ℕ) (le : A → A → Bool) where
  contains-insert :
      (k : ℕ) (x : A) (xs : List A)
      → contains k (map key (insert le x xs)) ≡ contains k (map key (x ∷ xs))
  unfolding insert contains
  contains-insert k x [] = refl
  contains-insert k x (y ∷ ys) = ground (arith, contains-insert k x ys)

  contains-sort :
      (k : ℕ) (xs : List A) → contains k (map key (sort le xs)) ≡ contains k (map key xs)
  unfolding sort contains
  contains-sort k [] = refl
  contains-sort k (x ∷ xs) = ground (arith, contains-insert k x (sort le xs), contains-sort k xs)

sum_by-map {ℓ κ} :
    {A : Type ℓ} {B : Type κ} (f : B → ℕ) (g : A → B) (xs : List A)
    → sum_by f (map g xs) ≡ sum_by (λ x. f (g x)) xs
unfolding sum_by
sum_by-map f g [] = refl
sum_by-map f g (x ∷ xs) = ap (◌+◌ (f (g x))) (sum_by-map f g xs)

get_or-as_ints : (d : Dict ℕ) (k : ℕ) → get_or (as_ints d) k (pos 0) ≡ pos (get_or d k 0)
unfolding get_or
get_or-as_ints [] k = refl
get_or-as_ints ((j, n) ∷ d) k = ground (arith, get_or-as_ints d k)

-- What the planner takes to be free is the physical quantity less the reserved one.
free-eq :
    (d : Dict ℕ) (b : InventoryBatch)
    → allocatable_quantity (as_ints d) (planning_batch b) ≡ b.quantity - get_or d b.pk 0
unfolding allocatable_quantity planning_batch
free-eq d b = rw (get_or-as_ints d b.pk) (pos_part-sub b.quantity (get_or d b.pk 0))

-- New reservations claim at most what was picked.
claimed-new_allocations :
    (now k : ℕ) (line : OrderLine) (until : Option ℕ) (pk : ℕ) (picks : List BatchPick)
    → claimed now k (new_allocations line until pk picks)
      ≤ total_of (λ p. p.batch_pk) (λ p. p.quantity) k picks
unfolding sum_by new_allocations
claimed-new_allocations now k line until pk [] = omega arith
claimed-new_allocations now k line until pk (p ∷ picks) =
    ground (arith, claimed-new_allocations now k line until (pk + 1) picks)

after_check {ℓ κ} :
    {A : Type ℓ} {B : Type κ} (c : Result B) (r : Result A) {a : A}
    → (elim c [ err e ↦ err e | ok u ↦ r ]) ≡ ok a
    → r ≡ ok a
after_check (ok u) r h = h
after_check (err e) r h = cc

-- The batches that are locked, and the reserved quantities that are read for them.
abbrev locked : (InventoryBatch → Bool) → Db → List InventoryBatch
locked pool db = sort batch_order_le (filter pool db.batches)

abbrev reserved_for : ℕ → (InventoryBatch → Bool) → Db → Dict ℕ
reserved_for now pool db =
    active_reserved_quantities_by_batch_pk now (map (λ b. b.pk) (locked pool db)) db.allocations

plan_for_line-plans :
    (now : ℕ) (line : OrderLine) (pool : InventoryBatch → Bool) (q : ℤ) (db : Db)
    (picks : List BatchPick)
    → plan_for_line now line pool q db ≡ ok picks
    → plan_batch_picks (map planning_batch (locked pool db)) q (as_ints (reserved_for now pool db))
      ≡ ok picks
unfolding plan_for_line
plan_for_line-plans now line pool q db picks e =
    after_check (validate_pool line (locked pool db))
      (plan_batch_picks (map planning_batch (locked pool db)) q
        (as_ints (reserved_for now pool db)))
      e

-- The picks of a line give it as many units as it asks for.
pub plan_for_line-sum :
    (now : ℕ) (line : OrderLine) (pool : InventoryBatch → Bool) (n : ℕ) (db : Db)
    (picks : List BatchPick)
    → plan_for_line now line pool (pos n) db ≡ ok picks
    → sum_by (λ p. p.quantity) picks ≡ n
plan_for_line-sum now line pool n db picks e = ap pos_part (
    sum-plan_batch_picks (map planning_batch (locked pool db)) (pos n)
      (as_ints (reserved_for now pool db)) picks
      (plan_for_line-plans now line pool (pos n) db picks e))

-- Planning sees the same units as the batches hold beyond their reserved ones.
total-planning :
    (d : Dict ℕ) (k : ℕ) (bs : List InventoryBatch)
    → total_of (λ b. b.batch_pk) (allocatable_quantity (as_ints d)) k (map planning_batch bs)
      ≡ total_of (λ b. b.pk) (λ b. b.quantity - get_or d b.pk 0) k bs
unfolding sum_by planning_batch
total-planning d k [] = refl
total-planning d k (b ∷ bs) = ground (arith, free-eq d b, total-planning d k bs)

picked-le-kept :
    (now : ℕ) (line : OrderLine) (pool : InventoryBatch → Bool) (q : ℤ) (db : Db)
    (picks : List BatchPick) (k : ℕ)
    → plan_for_line now line pool q db ≡ ok picks
    → total_of (λ p. p.batch_pk) (λ p. p.quantity) k picks
      ≤ total_of
          (λ b. b.pk)
          (λ b. b.quantity - get_or (reserved_for now pool db) b.pk 0)
          k
          (filter pool db.batches)
picked-le-kept now line pool q db picks k e =
    let d = reserved_for now pool db in
    let rest = λ (b : InventoryBatch). if k == b.pk then b.quantity - get_or d b.pk 0 else 0 in
    omega (
      arith,
      picked-le-free (map planning_batch (locked pool db)) q (as_ints d) picks k
          (plan_for_line-plans now line pool q db picks e),
      total-planning d k (locked pool db),
      sum_by-sort batch_order_le rest (filter pool db.batches),
    )

-- One batch: it is not in the pool, or what it has free was read for it.
within_batch :
    (now : ℕ) (line : OrderLine) (pool : InventoryBatch → Bool) (q : ℤ) (db : Db)
    (picks : List BatchPick) (b : InventoryBatch)
    → plan_for_line now line pool q db ≡ ok picks
    → (pool b ≡ false) ⊎ (contains b.pk (map (λ c. c.pk) (filter pool db.batches)) ≡ true)
    → total_of
        (λ c. c.pk)
        (λ c. c.quantity - get_or (reserved_for now pool db) c.pk 0)
        b.pk
        (filter pool db.batches)
      ≡ (if pool b then b.quantity - get_or (reserved_for now pool db) b.pk 0 else 0)
    → total_of (λ p. p.batch_pk) (λ p. p.quantity) b.pk picks
      ≤ b.quantity - claimed now b.pk db.allocations
within_batch now line pool q db picks b e (inl out) held =
    let picked = picked-le-kept now line pool q db picks b.pk e in
    let nothing =
      held ∙ ap (λ c. if c then b.quantity - get_or (reserved_for now pool db) b.pk 0 else 0) out in
    omega (arith, picked, nothing)
within_batch now line pool q db picks b e (inr kept) held =
    let picked = picked-le-kept now line pool q db picks b.pk e in
    let read =
      active_reserved_quantities-eq-claimed now (map (λ c. c.pk) (locked pool db)) db.allocations
        b.pk (contains-sort (λ c. c.pk) batch_order_le b.pk (filter pool db.batches) ∙ kept) in
    elim (Bool-cases (pool b)) [
      | inl yes' ↦ omega (
        arith,
        picked,
        read,
        held
            ∙ ap (λ c. if c then b.quantity - get_or (reserved_for now pool db) b.pk 0 else 0) yes',
      )
      | inr no' ↦ omega (
        arith,
        picked,
        held ∙ ap (λ c. if c then b.quantity - get_or (reserved_for now pool db) b.pk 0 else 0) no',
      )
    ]

plan_for_line-within :
    (now : ℕ) (line : OrderLine) (pool : InventoryBatch → Bool) (q : ℤ) (db : Db)
    (picks : List BatchPick)
    → IsDistinct (λ b. b.pk) db.batches
    → plan_for_line now line pool q db ≡ ok picks
    → All
        (λ b.
          total_of (λ p. p.batch_pk) (λ p. p.quantity) b.pk picks
          ≤ b.quantity - claimed now b.pk db.allocations)
        db.batches
plan_for_line-within now line pool q db picks distinct e =
    let rest = λ (b : InventoryBatch). b.quantity - get_or (reserved_for now pool db) b.pk 0 in
    All-zip
      (λ b.
        total_of (λ p. p.batch_pk) (λ p. p.quantity) b.pk picks
        ≤ b.quantity - claimed now b.pk db.allocations)
      db.batches (λ b kept held. within_batch now line pool q db picks b e kept held)
      (contains_kept (λ b. b.pk) rest pool db.batches)
      (total_of_distinct (λ b. b.pk) rest pool db.batches distinct)

-- A reservation that is made writes the rows of its plan.
pub reserve_writes :
    (now : ℕ) (line : OrderLine) (pool : InventoryBatch → Bool) (q : ℤ) (until : Option ℕ)
    (db db' : Db)
    → reserve_order_line_from_pool now line pool q until db ≡ ok (tt, db')
    → (picks : List BatchPick) × (plan_for_line now line pool q db ≡ ok picks)
      × (db' ≡ add_allocations line until picks db)
unfolding reserve_order_line_from_pool
reserve_writes now line pool q until db db' e =
    compute_write (plan_for_line now line pool q) (add_allocations line until) db e

-- If no batch has more active claims than units, and batches have distinct keys, then reserving a
-- line from any pool keeps it so, whatever is asked for and until whenever it is held.
pub reserve-NoOverbooking :
    (now : ℕ) (line : OrderLine) (pool : InventoryBatch → Bool) (q : ℤ) (until : Option ℕ)
    (db db' : Db)
    → IsDistinct (λ b. b.pk) db.batches
    → NoOverbooking now db
    → reserve_order_line_from_pool now line pool q until db ≡ ok (tt, db')
    → NoOverbooking now db'
reserve-NoOverbooking now line pool q until db db' distinct sound e =
    let (picks, planned, written) = reserve_writes now line pool q until db db' e in
    rw written (
      unfold add_allocations in
      All-zip (λ b. claimed now b.pk (add_allocations line until picks db).allocations ≤ b.quantity)
        db.batches
        (λ b before within. omega (
          arith,
          sum_by-append
              (λ (a : Allocation). if b.pk == a.batch_id && is_active now a then a.quantity else 0)
              db.allocations (new_allocations line until db.next_pk picks),
          claimed-new_allocations now b.pk line until db.next_pk picks,
        ))
        sound (plan_for_line-within now line pool q db picks distinct planned))
