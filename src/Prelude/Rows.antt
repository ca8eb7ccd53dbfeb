-- ===== src/Prelude/Rows.antt =====
-- A database table as the list of its rows, in the order of their primary keys.
use swedesweets_ops.Prelude.Tests.{◌==◌, if◌then◌else◌, Bool-cases}
use swedesweets_ops.Prelude.Errors.{Result, ok, ◌>>=◌}
use swedesweets_ops.Prelude.Lists.{Zip, All}
use Prim.Native.Nat.{ℕ}
use mathlib.Core.Path.{◌≡◌, refl}
use mathlib.Core.Bool.{Bool}
use mathlib.Core.Option.{Option, none, some}
use mathlib.Core.Logic.{◌≢◌, inl, inr}
use mathlib.Core.List.{List, [], ◌∷◌}
use native.Mathlib.Omega.{arith}

module _ {ℓ} {A : Type ℓ} where
  -- `.filter(pk=k).first()`
  unfoldable pub find : (A → ℕ) → ℕ → List A → Option A
  find key k [] = none
  find key k (x ∷ xs) = if k == key x then some x else find key k xs

  -- `.filter(test).first()`, in the order of the keys
  unfoldable pub first_where : (A → Bool) → List A → Option A
  first_where test [] = none
  first_where test (x ∷ xs) = if test x then some x else first_where test xs

  -- `row.save()`: the row with this key is replaced.
  unfoldable pub save : (A → ℕ) → A → List A → List A
  save key a [] = []
  save key a (x ∷ xs) = if key a == key x then a ∷ save key a xs else x ∷ save key a xs

  -- `for row in rows: row.method()`, for the rows that a query selects; the first error ends it.
  unfoldable pub for_each : (A → Bool) → (A → Result A) → List A → Result (List A)
  for_each selected method [] = ok []
  for_each selected method (x ∷ xs) = do
    y ← if selected x then method x else ok x
    ys ← for_each selected method xs
    ok (y ∷ ys)

  -- `.filter(...).update(...)`: the rows that a query selects are changed in place.
  unfoldable pub update_where : (A → Bool) → (A → A) → List A → List A
  update_where selected change [] = []
  update_where selected change (x ∷ xs) =
      (if selected x then change x else x) ∷ update_where selected change xs

  -- A saved row is found under its key, and no other row changes.
  pub find-save_ne :
      (key : A → ℕ) (a : A) (k : ℕ) (xs : List A)
      → k ≢ key a
      → find key k (save key a xs) ≡ find key k xs
  unfolding find save
  find-save_ne key a k [] h = refl
  find-save_ne key a k (x ∷ xs) h = ground (arith, find-save_ne key a k xs h)

  pub find-save_self :
      (key : A → ℕ) (a : A) (xs : List A) {old : A}
      → find key (key a) xs ≡ some old
      → find key (key a) (save key a xs) ≡ some a
  unfolding find save
  find-save_self key a [] h = cc
  find-save_self key a (x ∷ xs) {old} h = ground (arith, find-save_self key a xs {old = old})

  pub find-key : (key : A → ℕ) (k : ℕ) (xs : List A) {a : A} → find key k xs ≡ some a → key a ≡ k
  unfolding find
  find-key key k [] h = cc
  find-key key k (x ∷ xs) {a} h = ground (arith, find-key key k xs {a = a})

  -- Each row was left alone or replaced by what the method made of it.
  pub for_each-Zip :
      (selected : A → Bool) (method : A → Result A) (xs ys : List A)
      → for_each selected method xs ≡ ok ys
      → Zip (λ x y. (if selected x then method x else ok x) ≡ ok y) xs ys
  unfolding for_each
  for_each-Zip selected method [] [] h = tt
  for_each-Zip selected method [] (y ∷ ys) h = absurd (cc)
  for_each-Zip selected method (x ∷ xs) [] h = ground arith
  for_each-Zip selected method (x ∷ xs) (y ∷ ys) h =
      ground (arith, for_each-Zip selected method xs ys)

  -- What all rows and a saved row have, all rows have after the save.
  pub All-save {κ} :
      (P : A → Type κ) (key : A → ℕ) (a : A) (xs : List A) → P a → All P xs → All P (save key a xs)
  unfolding save
  All-save P key a [] p h = tt
  All-save P key a (x ∷ xs) p h = elim (Bool-cases (key a == key x)) [
    | inl here ↦ rw here (p, All-save P key a xs p h.1)
    | inr other ↦ rw other (h.0, All-save P key a xs p h.1)
  ]
