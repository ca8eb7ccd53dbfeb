-- ===== src/Reservations/Planning/Loop.antt =====
-- reservations/planning.py: the loop of plan_batch_picks.
use mathlib.Core.List.{append_assoc}
use swedesweets_ops.Prelude.{
  ℕ, ◌+◌, ◌-◌, ◌≤◌, ◌<◌, min, ◌≡◌, refl, sym, ap, ◌∙◌, inl, inr, ◌⊎◌, List, [], ◌∷◌, ◌++◌, arith,
  ◌==◌, if◌then◌else◌, ok, ℤ, sum_by,
}
use swedesweets_ops.Prelude.Totals.{Dict, total_of}
use swedesweets_ops.Reservations.Planning.{
  BatchAvailability, BatchPick, insufficient, allocatable_quantity, pick_batches,
}

-- The units that can be picked from the batches together.
abbrev pub capacity : Dict ℤ → List BatchAvailability → ℕ
capacity reserved = sum_by (allocatable_quantity reserved)

abbrev pub pick_of : BatchAvailability → ℕ → BatchPick
pick_of b q = record { batch_pk = b.batch_pk; quantity = q }

-- Everything that can be picked from the batches, in their order.
unfoldable pub drain : Dict ℤ → List BatchAvailability → List BatchPick
drain reserved [] = []
drain reserved (b ∷ bs) =
    if allocatable_quantity reserved b == 0
    then drain reserved bs
    else pick_of b (allocatable_quantity reserved b) ∷ drain reserved bs

-- The picks drain a front part of the batches, and take the rest, at least one unit, from the next.
abbrev pub DrainsInOrder : Dict ℤ → List BatchAvailability → ℕ → List BatchPick → Type 0
DrainsInOrder reserved bs n picks =
    (front : List BatchAvailability) × (b : BatchAvailability) × (back : List BatchAvailability)
    × (q : ℕ) × (bs ≡ front ++ b ∷ back)
    × (picks ≡ drain reserved front ++ pick_of b q ∷ [])
    × (0 < q)
    × (q ≤ allocatable_quantity reserved b)
    × (capacity reserved front + q ≡ n)

module _ (reserved : Dict ℤ) (requested : ℕ) where
  drains_more :
      (b : BatchAvailability) (bs : List BatchAvailability) (n : ℕ) (picks : List BatchPick)
      → DrainsInOrder reserved bs n picks
      → allocatable_quantity reserved b ≡ 0
      → DrainsInOrder reserved (b ∷ bs) n picks
  unfolding drain sum_by
  drains_more b bs n picks (front, c, back, q, split, made, pos_q, fits, total) none_free =
      (b ∷ front, c, back, q, ap (◌∷◌ b) split, ground arith, pos_q, fits, omega arith)

  drains_whole :
      (b : BatchAvailability) (bs : List BatchAvailability) (n : ℕ) (picks : List BatchPick)
      → DrainsInOrder reserved bs (n - allocatable_quantity reserved b) picks
      → 0 < allocatable_quantity reserved b
      → allocatable_quantity reserved b < n
      → DrainsInOrder reserved (b ∷ bs) n (pick_of b (allocatable_quantity reserved b) ∷ picks)
  unfolding drain sum_by
  drains_whole b bs n picks (front, c, back, q, split, made, pos_q, fits, total) free less =
      (b ∷ front, c, back, q, ap (◌∷◌ b) split, ground arith, pos_q, fits, omega arith)

  -- The three courses of one round: nothing to pick, the last pick, a batch picked empty.
  round_cases : (free n : ℕ) → (free ≡ 0) ⊎ ((0 < free) × (n ≤ free)) ⊎ ((0 < free) × (free < n))
  round_cases free n = ground arith

  module _ (b : BatchAvailability) (bs : List BatchAvailability) where
    round_skips :
        (n total : ℕ) (before : List BatchPick)
        → allocatable_quantity reserved b ≡ 0
        → pick_batches reserved requested (b ∷ bs) n total before
          ≡ pick_batches reserved requested bs n (total + allocatable_quantity reserved b) before
    unfolding pick_batches
    round_skips n total before h = ground arith

    round_ends :
        (n total : ℕ) (before : List BatchPick)
        → 0 < allocatable_quantity reserved b
        → n ≤ allocatable_quantity reserved b
        → pick_batches reserved requested (b ∷ bs) n total before ≡ ok (before ++ pick_of b n ∷ [])
    unfolding pick_batches
    round_ends n total before h k =
        let least : min (allocatable_quantity reserved b) n ≡ n = omega arith in
        rw least (ground arith)

    round_goes_on :
        (n total : ℕ) (before : List BatchPick)
        → 0 < allocatable_quantity reserved b
        → allocatable_quantity reserved b < n
        → pick_batches reserved requested (b ∷ bs) n total before
          ≡ pick_batches reserved requested bs
              (n - allocatable_quantity reserved b)
              (total + allocatable_quantity reserved b)
              (before ++ pick_of b (allocatable_quantity reserved b) ∷ [])
    unfolding pick_batches
    round_goes_on n total before h k =
        let least : min (allocatable_quantity reserved b) n ≡ allocatable_quantity reserved b =
          omega arith in
        rw least (ground arith)

  -- What a successful loop has picked.
  pub pick_batches-DrainsInOrder :
      (bs : List BatchAvailability) (remaining total : ℕ) (before picks : List BatchPick)
      → 0 < remaining
      → pick_batches reserved requested bs remaining total before ≡ ok picks
      → (made : List BatchPick) × (picks ≡ before ++ made)
        × DrainsInOrder reserved bs remaining made
  pick_batches-DrainsInOrder [] n total before picks h e = absurd (unfold pick_batches in cc)
  pick_batches-DrainsInOrder (b ∷ bs) n total before picks h e =
      let free = allocatable_quantity reserved b in
      elim (round_cases free n) [
        | inl empty ↦
            let (made, eq, drains) =
              pick_batches-DrainsInOrder bs n (total + free) before picks h
                (sym (round_skips b bs n total before empty) ∙ e) in
            (made, eq, drains_more b bs n made drains empty)
        | inr (inl (some_free, enough)) ↦ (
          pick_of b n ∷ [],
          unfold drain sum_by in ground (arith, round_ends b bs n total before some_free enough),
          ([], b, bs, n, refl, unfold drain in refl, h, enough, unfold sum_by in omega arith),
        )
        | inr (inr (some_free, short)) ↦
            let (made, eq, drains) =
              pick_batches-DrainsInOrder bs (n - free) (total + free)
                (before ++ pick_of b free ∷ []) picks (omega arith)
                (sym (round_goes_on b bs n total before some_free short) ∙ e) in
            (
              pick_of b free ∷ made,
              eq ∙ append_assoc before (pick_of b free ∷ []) made,
              drains_whole b bs n made drains some_free short,
            )
      ]

  -- The loop fails when the batches hold too little, and reports what they hold.
  pub pick_batches-insufficient :
      (bs : List BatchAvailability) (remaining total : ℕ) (before : List BatchPick)
      → capacity reserved bs < remaining
      → pick_batches reserved requested bs remaining total before
        ≡ insufficient requested (total + capacity reserved bs)
  unfolding sum_by
  pick_batches-insufficient [] n total before h = unfold pick_batches in ground arith
  pick_batches-insufficient (b ∷ bs) n total before h =
      let free = allocatable_quantity reserved b in
      elim (round_cases free n) [
        | inl empty ↦ ground (
          arith,
          round_skips b bs n total before empty,
          pick_batches-insufficient bs n (total + free) before,
        )
        | inr (inl (some_free, enough)) ↦ absurd (omega arith)
        | inr (inr (some_free, short)) ↦ ground (
          arith,
          round_goes_on b bs n total before some_free short,
          pick_batches-insufficient bs (n - free) (total + free) (before ++ pick_of b free ∷ []),
        )
      ]

  -- The loop succeeds when the batches hold enough.
  pub pick_batches-succeeds :
      (bs : List BatchAvailability) (remaining total : ℕ) (before : List BatchPick)
      → 0 < remaining
      → remaining ≤ capacity reserved bs
      → (picks : List BatchPick) × (pick_batches reserved requested bs remaining total before
          ≡ ok picks)
  unfolding sum_by
  pick_batches-succeeds [] n total before h k = absurd (omega arith)
  pick_batches-succeeds (b ∷ bs) n total before h k =
      let free = allocatable_quantity reserved b in
      elim (round_cases free n) [
        | inl empty ↦
            let (picks, e) = pick_batches-succeeds bs n (total + free) before h (omega arith) in
            (picks, round_skips b bs n total before empty ∙ e)
        | inr (inl (some_free, enough)) ↦
            (before ++ pick_of b n ∷ [], round_ends b bs n total before some_free enough)
        | inr (inr (some_free, short)) ↦
            let (picks, e) =
              pick_batches-succeeds bs (n - free) (total + free) (before ++ pick_of b free ∷ [])
                (omega arith) (omega arith) in
            (picks, round_goes_on b bs n total before some_free short ∙ e)
      ]

  -- Draining takes all that the batches with one key have to give.
  pub picked_of_drain :
      (k : ℕ) (bs : List BatchAvailability)
      → total_of (λ p. p.batch_pk) (λ p. p.quantity) k (drain reserved bs)
        ≡ total_of (λ b. b.batch_pk) (allocatable_quantity reserved) k bs
  unfolding sum_by drain
  picked_of_drain k [] = refl
  picked_of_drain k (b ∷ bs) = ground (arith, picked_of_drain k bs)
