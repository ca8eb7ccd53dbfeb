-- ===== src/Reservations/Selectors.antt =====
-- reservations/providers.py and the active quantities of reservations/selectors.py.
use swedesweets_ops.Prelude.{
  ℕ, ◌+◌, ◌≡◌, refl, Bool, true, ◌&&◌, List, [], ◌∷◌, arith, ◌==◌, if◌then◌else◌, is_empty,
  contains, filter, any, sum_by,
}
use swedesweets_ops.Prelude.Totals.{Dict, get_or, add_to, totals_from, total_of, get_or-add_to}
use swedesweets_ops.Reservations.Models.{Allocation, is_active}

-- The active quantities grouped by batch, as the query gives them.
unfoldable pub active_allocation_reservations : ℕ → List ℕ → List Allocation → Dict ℕ
unfolding is_active contains filter totals_from
active_allocation_reservations now batch_pks allocations =
    if is_empty batch_pks
    then []
    else totals_from (λ a. a.batch_id) (λ a. a.quantity)
        (filter (λ a. contains a.batch_id batch_pks && is_active now a) allocations) []

-- The loop of `active_reserved_quantities_by_batch_pk`. A quantity is a column that cannot be
-- negative, so its test for that never fires.
unfoldable pub add_requested : List ℕ → Dict ℕ → Dict ℕ → Dict ℕ
unfolding contains add_to
add_requested requested [] totals = totals
add_requested requested ((k, q) ∷ rows) totals =
    add_requested requested rows (if contains k requested then add_to k q totals else totals)

unfoldable pub active_reserved_quantities_by_batch_pk : ℕ → List ℕ → List Allocation → Dict ℕ
unfolding active_allocation_reservations add_requested
active_reserved_quantities_by_batch_pk now batch_pks allocations =
    if is_empty batch_pks
    then []
    else add_requested batch_pks (active_allocation_reservations now batch_pks allocations) []

unfoldable pub active_reserved_quantity_for_batch_pk : ℕ → ℕ → List Allocation → ℕ
unfolding active_reserved_quantities_by_batch_pk get_or
active_reserved_quantity_for_batch_pk now batch_pk allocations =
    get_or (active_reserved_quantities_by_batch_pk now (batch_pk ∷ []) allocations) batch_pk 0

unfoldable pub has_reservations_for_order : ℕ → List Allocation → Bool
unfolding any
has_reservations_for_order order_pk allocations = any (λ a. a.order_id == order_pk) allocations

-- The independent description: the units that are claimed from one batch at an instant.
abbrev pub claimed : ℕ → ℕ → List Allocation → ℕ
claimed now k = sum_by (λ a. if k == a.batch_id && is_active now a then a.quantity else 0)

total-add_to :
    (k j n : ℕ) (d : Dict ℕ)
    → total_of (λ e. e.0) (λ e. e.1) k (add_to j n d)
      ≡ (if k == j then n else 0) + total_of (λ e. e.0) (λ e. e.1) k d
unfolding add_to sum_by
total-add_to k j n [] = ground arith
total-add_to k j n ((i, m) ∷ d) = ground (arith, total-add_to k j n d)

-- Grouping loses nothing.
pub total-totals_from {ℓ} :
    {A : Type ℓ} (key amount : A → ℕ) (k : ℕ) (xs : List A) (d : Dict ℕ)
    → total_of (λ e. e.0) (λ e. e.1) k (totals_from key amount xs d)
      ≡ total_of (λ e. e.0) (λ e. e.1) k d + total_of key amount k xs
unfolding totals_from sum_by
total-totals_from key amount k [] d = omega arith
total-totals_from key amount k (x ∷ xs) d = omega (
  arith,
  total-totals_from key amount k xs (add_to (key x) (amount x) d),
  total-add_to k (key x) (amount x) d,
)

get_or-add_requested :
    (requested : List ℕ) (rows totals : Dict ℕ) (k : ℕ)
    → get_or (add_requested requested rows totals) k 0
      ≡ get_or totals k 0
        + (if contains k requested then total_of (λ e. e.0) (λ e. e.1) k rows else 0)
unfolding add_requested sum_by
get_or-add_requested requested [] totals k = ground arith
get_or-add_requested requested ((j, q) ∷ rows) totals k = ground (
  arith,
  get_or-add_requested requested rows (add_to j q totals) k,
  get_or-add_requested requested rows totals k,
  get_or-add_to j q k totals,
)

total-filter :
    (now k : ℕ) (pks : List ℕ) (allocations : List Allocation)
    → contains k pks ≡ true
    → total_of
        (λ a. a.batch_id)
        (λ a. a.quantity)
        k
        (filter (λ a. contains a.batch_id pks && is_active now a) allocations)
      ≡ claimed now k allocations
unfolding sum_by filter
total-filter now k pks [] h = refl
total-filter now k pks (a ∷ rest) h = ground (arith, total-filter now k pks rest h)

empty_total : (k : ℕ) → total_of {A = ℕ × ℕ} (λ e. e.0) (λ e. e.1) k [] ≡ 0
unfolding sum_by
empty_total k = refl

-- The dictionary gives for each requested batch the sum of all its active claims.
pub active_reserved_quantities-eq-claimed :
    (now : ℕ) (pks : List ℕ) (allocations : List Allocation) (k : ℕ)
    → contains k pks ≡ true
    → get_or (active_reserved_quantities_by_batch_pk now pks allocations) k 0
      ≡ claimed now k allocations
unfolding active_reserved_quantities_by_batch_pk
active_reserved_quantities-eq-claimed now [] allocations k h = absurd (unfold contains in cc)
active_reserved_quantities-eq-claimed now (p ∷ pks) allocations k h =
    let active = filter (λ a. contains a.batch_id (p ∷ pks) && is_active now a) allocations in
    let rows =
      totals_from (λ (a : Allocation). a.batch_id) (λ (a : Allocation). a.quantity) active [] in
    rw (get_or-add_requested (p ∷ pks) rows [] k, h)
      (unfold get_or in
        omega (
          arith,
          empty_total k,
          total-totals_from (λ (a : Allocation). a.batch_id) (λ (a : Allocation). a.quantity) k
              active [],
          total-filter now k (p ∷ pks) allocations h,
        ))
