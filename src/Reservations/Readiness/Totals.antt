-- ===== src/Reservations/Readiness/Totals.antt =====
-- reservations/services.py: the entries of the totals by batch.
use swedesweets_ops.Prelude.{
  ℕ, ◌<◌, ◌≡◌, ◌≢◌, ◌⊎◌, refl, arith, Bool, false, inl, inr, Bool-cases, List, [], ◌∷◌, ◌==◌,
  filter, sum_by, All, All-zip, IsDistinct,
}
use swedesweets_ops.Prelude.Totals.{Dict, add_to, totals_from, total_of}
use swedesweets_ops.Prelude.Sorting.{insert, sort}
use swedesweets_ops.Reservations.Models.{Allocation}

add_to-fresh :
    (j k n : ℕ) (d : Dict ℕ) → k ≢ j → All (λ e. e.0 ≢ j) d → All (λ e. e.0 ≢ j) (add_to k n d)
unfolding add_to
add_to-fresh j k n [] ne h = (ne, tt)
add_to-fresh j k n ((i, m) ∷ d) ne h = elim (Bool-cases (k == i)) [
  | inl here ↦ rw here h
  | inr other ↦ rw other (h.0, add_to-fresh j k n d ne h.1)
]

add_to-IsDistinct :
    (k n : ℕ) (d : Dict ℕ) → IsDistinct (λ e. e.0) d → IsDistinct (λ e. e.0) (add_to k n d)
unfolding add_to
add_to-IsDistinct k n [] h = (tt, tt)
add_to-IsDistinct k n ((i, m) ∷ d) h = elim (Bool-cases (k == i)) [
  | inl here ↦ rw here h
  | inr other ↦ rw other (add_to-fresh i k n d (ground arith) h.0, add_to-IsDistinct k n d h.1)
]

module _ (P : ℕ → Type 0) where
  add_to-All :
      (k n : ℕ) (d : Dict ℕ)
      → P k × (0 < n)
      → All (λ e. P e.0 × (0 < e.1)) d
      → All (λ e. P e.0 × (0 < e.1)) (add_to k n d)
  unfolding add_to
  add_to-All k n [] p h = (p, tt)
  add_to-All k n ((i, m) ∷ d) p h = elim (Bool-cases (k == i)) [
    | inl here ↦ rw here ((h.0.0, omega (arith, p.1)), h.1)
    | inr other ↦ rw other (h.0, add_to-All k n d p h.1)
  ]

  pub totals_from-All :
      (rows : List Allocation) (d : Dict ℕ)
      → All (λ a. P a.batch_id × (0 < a.quantity)) rows
      → All (λ e. P e.0 × (0 < e.1)) d
      → All (λ e. P e.0 × (0 < e.1)) (totals_from (λ a. a.batch_id) (λ a. a.quantity) rows d)
  unfolding totals_from
  totals_from-All [] d r h = h
  totals_from-All (a ∷ rows) d r h =
      totals_from-All rows (add_to a.batch_id a.quantity d) r.1
        (add_to-All a.batch_id a.quantity d r.0 h)

pub totals_from-IsDistinct :
    (rows : List Allocation) (d : Dict ℕ)
    → IsDistinct (λ e. e.0) d
    → IsDistinct (λ e. e.0) (totals_from (λ a. a.batch_id) (λ a. a.quantity) rows d)
unfolding totals_from
totals_from-IsDistinct [] d h = h
totals_from-IsDistinct (a ∷ rows) d h =
    totals_from-IsDistinct rows (add_to a.batch_id a.quantity d)
      (add_to-IsDistinct a.batch_id a.quantity d h)

All-insert :
    (P : Allocation → Type 0) (le : Allocation → Allocation → Bool) (a : Allocation)
    (rows : List Allocation)
    → P a
    → All P rows
    → All P (insert le a rows)
unfolding insert
All-insert P le a [] p h = (p, tt)
All-insert P le a (x ∷ rows) p h = elim (Bool-cases (le a x)) [
  | inl here ↦ rw here (p, h)
  | inr other ↦ rw other (h.0, All-insert P le a rows p h.1)
]

pub All-sort :
    (P : Allocation → Type 0) (le : Allocation → Allocation → Bool) (rows : List Allocation)
    → All P rows
    → All P (sort le rows)
unfolding sort
All-sort P le [] h = tt
All-sort P le (a ∷ rows) h = All-insert P le a (sort le rows) h.0 (All-sort P le rows h.1)

-- What the selected rows have, if every other row is not selected.
pub All-selected :
    (P : Allocation → Type 0) (p : Allocation → Bool) (rows : List Allocation)
    → All (λ a. (p a ≡ false) ⊎ P a) rows
    → All P (filter p rows)
unfolding filter
All-selected P p [] h = tt
All-selected P p (a ∷ rows) (inl out, h) = rw out (All-selected P p rows h)
All-selected P p (a ∷ rows) (inr held, h) = elim (Bool-cases (p a)) [
  | inl here ↦ rw here (held, All-selected P p rows h)
  | inr other ↦ rw other (All-selected P p rows h)
]

absent_total : (k : ℕ) (d : Dict ℕ) → All (λ e. e.0 ≢ k) d → total_of (λ e. e.0) (λ e. e.1) k d ≡ 0
unfolding sum_by
absent_total k [] h = refl
absent_total k (e ∷ d) h = ground (arith, absent_total k d h.1)

-- In a dictionary the total under a key is the value of its entry.
pub entry_total :
    (d : Dict ℕ)
    → IsDistinct (λ e. e.0) d
    → All (λ e. total_of {A = ℕ × ℕ} (λ e. e.0) (λ e. e.1) e.0 d ≡ e.1) d
unfolding sum_by
entry_total [] h = tt
entry_total (e ∷ d) h = (
  ground (arith, absent_total e.0 d h.0),
  All-zip (λ f. total_of {A = ℕ × ℕ} (λ e. e.0) (λ e. e.1) f.0 (e ∷ d) ≡ f.1) d
      (λ f ne t. ground arith) h.0 (entry_total d h.1),
)
