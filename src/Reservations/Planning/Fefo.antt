-- ===== src/Reservations/Planning/Fefo.antt =====
-- reservations/planning.py: plan_batch_picks as its callers see it.
use native.Mathlib.Decide.{dec_le}
use mathlib.Core.List.{Perm}
use swedesweets_ops.Prelude.{
  ℕ, ◌≤◌, ◌<◌, ◌≡◌, ◌⊎◌, ◌↔◌, refl, ap, sym, ◌∙◌, true, false, List, [], ◌∷◌, arith, ok, ℤ, pos,
  negsuc, pos_part, is_negative, sum_by, sum_by-append, any, ◌==◌, if◌then◌else◌,
}
use swedesweets_ops.Prelude.Totals.{Dict, total_of}
use swedesweets_ops.Prelude.TextOrder.{
  text_le_total, text_le_trans, text_le_antisymm, text_eq_refl, text_eq→eq,
}
use swedesweets_ops.Prelude.Sorting.{sort, IsSorted, sort-perm, sort-IsSorted, sum_by-sort}
use swedesweets_ops.Reservations.Planning.{
  BatchAvailability, BatchPick, insufficient, allocatable_quantity, has_one_product, fefo_le,
  pick_batches, plan_batch_picks,
}
use swedesweets_ops.Reservations.Planning.Loop.{
  capacity, pick_of, drain, DrainsInOrder, pick_batches-DrainsInOrder, pick_batches-insufficient,
  pick_batches-succeeds, picked_of_drain,
}

-- The pool and the reserved quantities meet the planner's contract.
pub record IsPool (bs : List BatchAvailability) (reserved : Dict ℤ) : Type 0 where
  pub one_product : has_one_product bs ≡ true
  pub physical_nonneg : any (λ b. is_negative b.physical_quantity) bs ≡ false
  pub reserved_nonneg : any (λ e. is_negative e.1) reserved ≡ false

fefo_le_total : (a b : BatchAvailability) → (fefo_le a b ≡ true) ⊎ (fefo_le b a ≡ true)
unfolding fefo_le
fefo_le_total a b = ground (
  arith,
  text_le_total a.batch_code b.batch_code,
  text_eq→eq a.batch_code b.batch_code,
  text_eq→eq b.batch_code a.batch_code,
  text_eq_refl a.batch_code,
)

fefo_le_trans :
    (a b c : BatchAvailability) → fefo_le a b ≡ true → fefo_le b c ≡ true → fefo_le a c ≡ true
unfolding fefo_le
fefo_le_trans a b c h k = ground (
  arith,
  text_le_trans a.batch_code b.batch_code c.batch_code,
  text_le_antisymm a.batch_code b.batch_code,
  text_eq→eq a.batch_code b.batch_code,
  text_eq→eq b.batch_code c.batch_code,
  text_eq→eq a.batch_code c.batch_code,
  text_eq_refl a.batch_code,
  text_eq_refl b.batch_code,
)

-- The planner's own order is by best-before day, then code, then key.
pub sort_fefo-IsSorted : (bs : List BatchAvailability) → IsSorted fefo_le (sort fefo_le bs)
sort_fefo-IsSorted = sort-IsSorted fefo_le fefo_le_total fefo_le_trans

-- A successful plan was made by the loop.
plan_made_by_loop :
    (bs : List BatchAvailability) (z : ℤ) (reserved : Dict ℤ) (picks : List BatchPick)
    → plan_batch_picks bs z reserved ≡ ok picks
    → (0 < pos_part z)
      × (pick_batches reserved (pos_part z) (sort fefo_le bs) (pos_part z) 0 [] ≡ ok picks)
unfolding plan_batch_picks
plan_made_by_loop [] (pos n) reserved picks e = ground arith
plan_made_by_loop [] (negsuc n) reserved picks e = ground arith
plan_made_by_loop (b ∷ bs) (pos n) reserved picks e = ground arith
plan_made_by_loop (b ∷ bs) (negsuc n) reserved picks e = ground arith

-- A plan that is made uses the pool's batches by best-before day, then batch code, then key: the
-- batches in front are drained, and the last one gives the rest of what was asked for.
pub plan_batch_picks-fefo :
    (bs : List BatchAvailability) (z : ℤ) (reserved : Dict ℤ) (picks : List BatchPick)
    → plan_batch_picks bs z reserved ≡ ok picks
    → (ordered : List BatchAvailability) × Perm ordered bs
      × IsSorted fefo_le ordered
      × DrainsInOrder reserved ordered (pos_part z) picks
plan_batch_picks-fefo bs z reserved picks e =
    let (some_wanted, run) = plan_made_by_loop bs z reserved picks e in
    let (made, eq, drains) =
      pick_batches-DrainsInOrder reserved (pos_part z) (sort fefo_le bs) (pos_part z) 0 [] picks
        some_wanted run in
    (sort fefo_le bs, sort-perm fefo_le bs, sort_fefo-IsSorted bs, rw eq drains)

sum_of_drain :
    (reserved : Dict ℤ) (bs : List BatchAvailability)
    → sum_by (λ p. p.quantity) (drain reserved bs) ≡ capacity reserved bs
unfolding sum_by drain
sum_of_drain reserved [] = refl
sum_of_drain reserved (b ∷ bs) = ground (arith, sum_of_drain reserved bs)

drains_sum :
    (reserved : Dict ℤ) (bs : List BatchAvailability) (n : ℕ) (picks : List BatchPick)
    → DrainsInOrder reserved bs n picks
    → sum_by (λ p. p.quantity) picks ≡ n
unfolding sum_by
drains_sum reserved bs n picks (front, b, back, q, split, made, pos_q, fits, total) = rw made (
    omega (
      arith,
      sum_by-append (λ (p : BatchPick). p.quantity) (drain reserved front) (pick_of b q ∷ []),
      sum_of_drain reserved front,
    ))

drains_within :
    (reserved : Dict ℤ) (bs : List BatchAvailability) (n : ℕ) (picks : List BatchPick) (k : ℕ)
    → DrainsInOrder reserved bs n picks
    → total_of (λ p. p.batch_pk) (λ p. p.quantity) k picks
      ≤ total_of (λ b. b.batch_pk) (allocatable_quantity reserved) k bs
drains_within reserved bs n picks k (front, b, back, q, split, made, pos_q, fits, total) =
    let from_pick = λ (p : BatchPick). if k == p.batch_pk then p.quantity else 0 in
    let from_batch =
      λ (c : BatchAvailability). if k == c.batch_pk then allocatable_quantity reserved c else 0 in
    let last : sum_by from_pick (pick_of b q ∷ []) ≤ sum_by from_batch (b ∷ back) =
      unfold sum_by in ground arith in
    rw (made, split)
      (omega (
        arith,
        sum_by-append from_pick (drain reserved front) (pick_of b q ∷ []),
        sum_by-append from_batch front (b ∷ back),
        picked_of_drain reserved 0 k front,
      ))

-- The picks of a plan add up to exactly what was asked for.
pub sum-plan_batch_picks :
    (bs : List BatchAvailability) (z : ℤ) (reserved : Dict ℤ) (picks : List BatchPick)
    → plan_batch_picks bs z reserved ≡ ok picks
    → pos (sum_by (λ p. p.quantity) picks) ≡ z
sum-plan_batch_picks bs (pos n) reserved picks e =
    let (ordered, _, _, drains) = plan_batch_picks-fefo bs (pos n) reserved picks e in
    ap pos (drains_sum reserved ordered n picks drains)
sum-plan_batch_picks bs (negsuc n) reserved picks e =
    absurd (omega (arith, (plan_made_by_loop bs (negsuc n) reserved picks e).0))

-- No plan picks more from the batches with one key than they have free.
pub picked-le-free :
    (bs : List BatchAvailability) (z : ℤ) (reserved : Dict ℤ) (picks : List BatchPick) (k : ℕ)
    → plan_batch_picks bs z reserved ≡ ok picks
    → total_of (λ p. p.batch_pk) (λ p. p.quantity) k picks
      ≤ total_of (λ b. b.batch_pk) (allocatable_quantity reserved) k bs
picked-le-free bs z reserved picks k e =
    let (some_wanted, run) = plan_made_by_loop bs z reserved picks e in
    let (made, eq, drains) =
      pick_batches-DrainsInOrder reserved (pos_part z) (sort fefo_le bs) (pos_part z) 0 [] picks
        some_wanted run in
    rw
      (← sum_by-sort fefo_le
        (λ (b : BatchAvailability). if k == b.batch_pk then allocatable_quantity reserved b else 0)
        bs)
      (drains_within reserved (sort fefo_le bs) (pos_part z) picks k (rw eq drains))

-- Within the contract the planner is its loop.
plan_runs_loop :
    (b : BatchAvailability) (bs : List BatchAvailability) (n : ℕ) (reserved : Dict ℤ)
    → 0 < n
    → IsPool (b ∷ bs) reserved
    → plan_batch_picks (b ∷ bs) (pos n) reserved
      ≡ pick_batches reserved n (sort fefo_le (b ∷ bs)) n 0 []
unfolding plan_batch_picks
plan_runs_loop b bs n reserved h pool =
    rw (pool.one_product, pool.physical_nonneg, pool.reserved_nonneg) (ground arith)

plan_succeeds :
    (bs : List BatchAvailability) (n : ℕ) (reserved : Dict ℤ)
    → 0 < n
    → IsPool bs reserved
    → n ≤ capacity reserved bs
    → (picks : List BatchPick) × (plan_batch_picks bs (pos n) reserved ≡ ok picks)
plan_succeeds [] n reserved h pool k = absurd (unfold sum_by in omega arith)
plan_succeeds (b ∷ bs) n reserved h pool k =
    let (picks, e) =
      pick_batches-succeeds reserved n (sort fefo_le (b ∷ bs)) n 0 [] h
        (rw (sum_by-sort fefo_le (allocatable_quantity reserved) (b ∷ bs)) k) in
    (picks, plan_runs_loop b bs n reserved h pool ∙ e)

-- The loop never picks more than there is.
plan_within_capacity :
    (bs : List BatchAvailability) (n : ℕ) (reserved : Dict ℤ) (picks : List BatchPick)
    → plan_batch_picks bs (pos n) reserved ≡ ok picks
    → n ≤ capacity reserved bs
plan_within_capacity bs n reserved picks e =
    let (some_wanted, run) = plan_made_by_loop bs (pos n) reserved picks e in
    elim (dec_le n (capacity reserved bs)) [
      | yes fits ↦ fits
      | no short ↦
          let fails =
            pick_batches-insufficient reserved n (sort fefo_le bs) n 0 []
              (rw (sum_by-sort fefo_le (allocatable_quantity reserved) bs) (omega arith)) in
          absurd (cc (sym run ∙ fails))
    ]

-- For a pool within the contract and a positive quantity, a plan is made exactly when the batches
-- have that quantity free.
pub plan_succeeds_iff :
    (bs : List BatchAvailability) (n : ℕ) (reserved : Dict ℤ)
    → 0 < n
    → IsPool bs reserved
    → ((picks : List BatchPick) × (plan_batch_picks bs (pos n) reserved ≡ ok picks))
      ↔ (n ≤ capacity reserved bs)
plan_succeeds_iff bs n reserved h pool =
    (λ made. plan_within_capacity bs n reserved made.0 made.1, plan_succeeds bs n reserved h pool)

-- For a pool within the contract that has less free than is asked for, the planner raises
-- InsufficientReservationCapacity with the quantity asked for, all that is free, and the gap.
pub plan_insufficient :
    (bs : List BatchAvailability) (n : ℕ) (reserved : Dict ℤ)
    → IsPool bs reserved
    → capacity reserved bs < n
    → plan_batch_picks bs (pos n) reserved ≡ insufficient n (capacity reserved bs)
plan_insufficient [] n reserved pool h = unfold sum_by plan_batch_picks in ground arith
plan_insufficient (b ∷ bs) n reserved pool h =
    let same = sum_by-sort fefo_le (allocatable_quantity reserved) (b ∷ bs) in
    plan_runs_loop b bs n reserved (omega arith) pool
    ∙ pick_batches-insufficient reserved n (sort fefo_le (b ∷ bs)) n 0 [] (rw same h)
    ∙ ap (λ (m : ℕ). insufficient n m) (omega (arith, same))
