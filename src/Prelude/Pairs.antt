-- ===== src/Prelude/Pairs.antt =====
-- Relations between all rows of a table under the changes of the table.
use Prim.Native.Nat.{ℕ, ◌+◌}
use mathlib.Core.Path.{◌≡◌, refl, sym, subst}
use mathlib.Core.Logic.{◌≢◌, inl, inr}
use mathlib.Core.Bool.{Bool, true, not}
use mathlib.Core.Option.{some}
use mathlib.Core.List.{List, [], ◌∷◌, ◌++◌}
use native.Mathlib.Omega.{arith}
use swedesweets_ops.Prelude.Tests.{Bool-cases, ◌==◌}
use swedesweets_ops.Prelude.Lists.{All, All-map, Pairwise, IsDistinct, Zip, filter, sum_by}
use swedesweets_ops.Prelude.Rows.{find, first_where, save, All-save}

pub All-snoc {ℓ κ} :
    {A : Type ℓ} (P : A → Type κ) (xs : List A) (a : A) → All P xs → P a → All P (xs ++ a ∷ [])
All-snoc P [] a h p = (p, tt)
All-snoc P (x ∷ xs) a h p = (h.0, All-snoc P xs a h.1 p)

module _ {ℓ κ} {A : Type ℓ} (R : A → A → Type κ) where
  pub Pairwise-snoc :
      (xs : List A) (a : A) → Pairwise R xs → All (λ x. R x a) xs → Pairwise R (xs ++ a ∷ [])
  Pairwise-snoc [] a h p = (tt, tt)
  Pairwise-snoc (x ∷ xs) a h p = (All-snoc (R x) xs a h.0 p.0, Pairwise-snoc xs a h.1 p.1)

  All-kept : (x : A) (p : A → Bool) (xs : List A) → All (R x) xs → All (R x) (filter p xs)
  unfolding filter
  All-kept x p [] h = tt
  All-kept x p (y ∷ xs) h = elim (Bool-cases (p y)) [
    | inl yes' ↦ rw yes' (h.0, All-kept x p xs h.1)
    | inr no' ↦ rw no' (All-kept x p xs h.1)
  ]

  pub Pairwise-filter : (p : A → Bool) (xs : List A) → Pairwise R xs → Pairwise R (filter p xs)
  unfolding filter
  Pairwise-filter p [] h = tt
  Pairwise-filter p (x ∷ xs) h = elim (Bool-cases (p x)) [
    | inl yes' ↦ rw yes' (All-kept x p xs h.0, Pairwise-filter p xs h.1)
    | inr no' ↦ rw no' (Pairwise-filter p xs h.1)
  ]

  -- Rows that are replaced by rows of the same kind are related as before.
  module _ {μ} (S : A → A → Type μ)
      (respects : (x y x' y' : A) → S x x' → S y y' → R x y → R x' y') where
    All-alike : (x x' : A) (xs ys : List A) → S x x' → Zip S xs ys → All (R x) xs → All (R x') ys
    All-alike x x' [] [] s z h = tt
    All-alike x x' [] (y ∷ ys) s z h = elim z [ ]
    All-alike x x' (y ∷ xs) [] s z h = elim z [ ]
    All-alike x x' (y ∷ xs) (y' ∷ ys) s z h =
        (respects x y x' y' s z.0 h.0, All-alike x x' xs ys s z.1 h.1)

    pub Pairwise-Zip : (xs ys : List A) → Zip S xs ys → Pairwise R xs → Pairwise R ys
    Pairwise-Zip [] [] z h = tt
    Pairwise-Zip [] (y ∷ ys) z h = elim z [ ]
    Pairwise-Zip (x ∷ xs) [] z h = elim z [ ]
    Pairwise-Zip (x ∷ xs) (y ∷ ys) z h =
        (All-alike x y xs ys z.0 z.1 h.0, Pairwise-Zip xs ys z.1 h.1)

-- A row that is found has what all rows have.
pub find-All {ℓ κ} :
    {A : Type ℓ} (P : A → Type κ) (key : A → ℕ) (k : ℕ) (xs : List A) {a : A}
    → find key k xs ≡ some a
    → All P xs
    → P a
unfolding find
find-All P key k [] e h = absurd cc
find-All P key k (x ∷ xs) {a} e h = elim (Bool-cases (k == key x)) [
  | inl here ↦ subst P (ground arith) h.0
  | inr other ↦ find-All P key k xs {a = a} (ground arith) h.1
]

module _ {ℓ} {A : Type ℓ} (key : A → ℕ) where
  -- The first row that passes a test is stored under its key.
  pub first_where-found :
      (test : A → Bool) (rows : List A) {a : A}
      → IsDistinct key rows
      → first_where test rows ≡ some a
      → (test a ≡ true) × (find key (key a) rows ≡ some a)
  unfolding first_where find
  first_where-found test [] d e = absurd cc
  first_where-found test (b ∷ rows) {a} d e = elim (Bool-cases (test b)) [
    | inl here ↦ ground arith
    | inr other ↦
        let (passes, found) = first_where-found test rows {a = a} d.1 (ground arith) in
        (passes, ground (arith, find-All (λ y. key y ≢ key b) key (key a) rows {a = a} found d.0))
  ]

  -- A key that no row has is not saved.
  save_absent : (a : A) (xs : List A) → All (λ y. key y ≢ key a) xs → save key a xs ≡ xs
  unfolding save
  save_absent a [] h = refl
  save_absent a (x ∷ xs) h = ground (arith, save_absent a xs h.1)

  save_rest :
      (a x : A) (xs : List A)
      → IsDistinct key (x ∷ xs)
      → (key a == key x) ≡ true
      → save key a xs ≡ xs
  save_rest a x xs d h =
      let same : key x ≡ key a = ground arith in
      save_absent a xs (subst (λ k. All (λ y. key y ≢ k) xs) same d.0)

  -- Two rows that are saved under one key, the second over the first.
  pub save-save :
      (a b : A) (xs : List A) → key a ≡ key b → save key b (save key a xs) ≡ save key b xs
  unfolding save
  save-save a b [] same = refl
  save-save a b (x ∷ xs) same = ground (arith, save-save a b xs same)

  -- A row that is saved over the last one.
  pub save_last :
      (a b : A) (xs : List A)
      → key a ≡ key b
      → All (λ y. key y ≢ key b) xs
      → save key b (xs ++ a ∷ []) ≡ xs ++ b ∷ []
  unfolding save
  save_last a b [] same h = ground arith
  save_last a b (x ∷ xs) same h = ground (arith, save_last a b xs same h.1)

  module _ {κ} (R : A → A → Type κ) (sym_R : (x y : A) → R x y → R y x) where
    all_apart :
        (a : A) (k : ℕ) (xs : List A)
        → k ≡ key a
        → All (λ y. key y ≢ k) xs
        → All (λ y. key y ≢ key a → R y a) xs
        → All (R a) xs
    all_apart a k [] same d f = tt
    all_apart a k (y ∷ xs) same d f =
        (sym_R y a (f.0 (ground arith)), all_apart a k xs same d.1 f.1)

    -- A row that is related to all others is saved.
    pub Pairwise-save :
        (a : A) (xs : List A)
        → IsDistinct key xs
        → All (λ y. key y ≢ key a → R y a) xs
        → Pairwise R xs
        → Pairwise R (save key a xs)
    unfolding save
    Pairwise-save a [] d f h = tt
    Pairwise-save a (x ∷ xs) d f h = elim (Bool-cases (key a == key x)) [
      | inl here ↦
          rw (here, save_rest a x xs d here) (all_apart a (key x) xs (ground arith) d.0 f.1, h.1)
      | inr other ↦
          rw other
            (All-save (R x) key a xs (f.0 (ground arith)) h.0, Pairwise-save a xs d.1 f.1 h.1)
    ]

    -- What is related to a stored row's neighbours, by its key.
    pub stored_apart :
        (k : ℕ) (xs : List A) {a : A}
        → find key k xs ≡ some a
        → Pairwise R xs
        → All (λ y. key y ≢ k → R y a) xs
    unfolding find
    stored_apart k [] e h = tt
    stored_apart k (x ∷ xs) {a} e h = elim (Bool-cases (k == key x)) [
      | inl here ↦
          let this : x ≡ a = ground arith in
          (
            λ ne. absurd (ground arith),
            subst (λ b. All (λ y. key y ≢ k → R y b) xs) this
                (All-map (R x) (λ y. key y ≢ k → R y x) xs (λ y r ne. sym_R x y r) h.0),
          )
      | inr other ↦
          let found : find key k xs ≡ some a = ground arith in
          (λ ne. find-All (R x) key k xs found h.0, stored_apart k xs found h.1)
    ]

  module _ {μ} (S : A → A → Type μ) (same : (x : A) → S x x) where
    Zip-same : (xs : List A) → Zip S xs xs
    Zip-same [] = tt
    Zip-same (x ∷ xs) = (same x, Zip-same xs)

    -- A row that is saved over the one with its key leaves the others.
    pub save-Zip :
        (a old : A) (xs : List A)
        → IsDistinct key xs
        → find key (key a) xs ≡ some old
        → S old a
        → Zip S xs (save key a xs)
    unfolding find save
    save-Zip a old [] d e s = tt
    save-Zip a old (x ∷ xs) d e s = elim (Bool-cases (key a == key x)) [
      | inl here ↦ rw here (
        subst (λ y. S y a) (ground arith) s,
        subst (Zip S xs) (sym (save_rest a x xs d here)) (Zip-same xs),
      )
      | inr other ↦ rw other (same x, save-Zip a old xs d.1 (ground arith) s)
    ]

  -- The sum of a measure, when a row is saved over another and when it is deleted.
  pub sum_by-save :
      (f : A → ℕ) (a old : A) (xs : List A)
      → IsDistinct key xs
      → find key (key a) xs ≡ some old
      → sum_by f (save key a xs) + f old ≡ sum_by f xs + f a
  unfolding find save sum_by
  sum_by-save f a old [] d e = absurd cc
  sum_by-save f a old (x ∷ xs) d e = elim (Bool-cases (key a == key x)) [
    | inl here ↦ ground (arith, save_rest a x xs d here)
    | inr other ↦ ground (arith, sum_by-save f a old xs d.1)
  ]

  sum_by-others :
      (f : A → ℕ) (k : ℕ) (xs : List A)
      → All (λ y. key y ≢ k) xs
      → sum_by f (filter (λ y. not (key y == k)) xs) ≡ sum_by f xs
  unfolding sum_by filter
  sum_by-others f k [] h = refl
  sum_by-others f k (x ∷ xs) h = ground (arith, sum_by-others f k xs h.1)

  pub sum_by-delete :
      (f : A → ℕ) (k : ℕ) (old : A) (xs : List A)
      → IsDistinct key xs
      → find key k xs ≡ some old
      → sum_by f (filter (λ y. not (key y == k)) xs) + f old ≡ sum_by f xs
  unfolding find filter sum_by
  sum_by-delete f k old [] d e = absurd cc
  sum_by-delete f k old (x ∷ xs) d e = elim (Bool-cases (k == key x)) [
    | inl here ↦
        let same : key x ≡ k = ground arith in
        ground (arith, sum_by-others f k xs (subst (λ j. All (λ y. key y ≢ j) xs) same d.0))
    | inr other ↦ ground (arith, sum_by-delete f k old xs d.1)
  ]
