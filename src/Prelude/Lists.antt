-- ===== src/Prelude/Lists.antt =====
-- Lists under Boolean tests, sums over lists, and predicates on all elements.
use Prim.Native.Nat.{ℕ, suc, ◌+◌, ◌≤◌}
use mathlib.Core.Path.{◌≡◌}
use mathlib.Core.Logic.{◌≢◌}
use mathlib.Core.Bool.{Bool, true, false, ◌&&◌, ◌||◌}
use mathlib.Core.List.{List, [], ◌∷◌, ◌++◌}
use native.Mathlib.Omega.{arith}
use swedesweets_ops.Prelude.Tests.{if◌then◌else◌, ◌==◌}

module _ {ℓ} {A : Type ℓ} where
  abbrev pub length : List A → ℕ
  length [] = 0
  length (x ∷ xs) = suc (length xs)

  -- The elements that pass a test, in their order.
  unfoldable pub filter : (A → Bool) → List A → List A
  filter p [] = []
  filter p (x ∷ xs) = if p x then x ∷ filter p xs else filter p xs

  unfoldable pub any : (A → Bool) → List A → Bool
  any p [] = false
  any p (x ∷ xs) = p x || any p xs

  unfoldable pub all : (A → Bool) → List A → Bool
  all p [] = true
  all p (x ∷ xs) = p x && all p xs

  abbrev pub is_empty : List A → Bool
  is_empty [] = true
  is_empty (x ∷ xs) = false

  -- The sum of a measure over a list.
  unfoldable pub sum_by : (A → ℕ) → List A → ℕ
  sum_by f [] = 0
  sum_by f (x ∷ xs) = f x + sum_by f xs

  pub sum_by-append : (f : A → ℕ) (xs ys : List A) → sum_by f (xs ++ ys) ≡ sum_by f xs + sum_by f ys
  unfolding sum_by
  sum_by-append f [] ys = omega arith
  sum_by-append f (x ∷ xs) ys = omega (arith, sum_by-append f xs ys)

-- A predicate of every element, as a tuple.
abbrev pub All {ℓ κ} : {A : Type ℓ} → (A → Type κ) → List A → Type κ
All P [] = Unit
All P (x ∷ xs) = P x × All P xs

-- A number is on a list.
unfoldable pub contains : ℕ → List ℕ → Bool
contains n [] = false
contains n (x ∷ xs) = n == x || contains n xs

-- A relation of every element to each later one.
abbrev pub Pairwise {ℓ κ} : {A : Type ℓ} → (A → A → Type κ) → List A → Type κ
Pairwise R [] = Unit
Pairwise R (x ∷ xs) = All (R x) xs × Pairwise R xs

-- No two elements have the same key.
abbrev pub IsDistinct {ℓ} : {A : Type ℓ} → (A → ℕ) → List A → Type 0
IsDistinct key = Pairwise (λ x y. key y ≢ key x)

pub All-map {ℓ κ μ} :
    {A : Type ℓ} (P : A → Type κ) (Q : A → Type μ) (xs : List A)
    → ((x : A) → P x → Q x)
    → All P xs
    → All Q xs
All-map P Q [] f h = tt
All-map P Q (x ∷ xs) f h = (f x h.0, All-map P Q xs f h.1)

pub All-filter {ℓ κ} :
    {A : Type ℓ} (P : A → Type κ) (p : A → Bool) (xs : List A) → All P xs → All P (filter p xs)
unfolding filter
All-filter P p [] h = tt
All-filter P p (x ∷ xs) h = ground (arith, All-filter P p xs h.1)

-- Lists of different lengths are not related.
pub data Empty {μ} : Type μ where

-- A predicate of the elements at the same places of two lists of one length.
abbrev pub Zip {ℓ κ μ} : {A : Type ℓ} {B : Type κ} → (A → B → Type μ) → List A → List B → Type μ
Zip R [] [] = Unit
Zip R [] (y ∷ ys) = Empty
Zip R (x ∷ xs) [] = Empty
Zip R (x ∷ xs) (y ∷ ys) = R x y × Zip R xs ys

pub All-zip {ℓ} :
    {A : Type ℓ} {P Q : A → Type 0} (R : A → Type 0) (xs : List A)
    → ((x : A) → P x → Q x → R x)
    → All P xs
    → All Q xs
    → All R xs
All-zip R [] f p q = tt
All-zip R (x ∷ xs) f p q = (f x p.0 q.0, All-zip R xs f p.1 q.1)

-- What holds on the left and is carried over holds on the right.
pub Zip-All {ℓ κ μ} :
    {A : Type ℓ} {B : Type κ} (R : A → B → Type μ) (P : A → Type 0) (Q : B → Type 0) (xs : List A)
    (ys : List B)
    → ((x : A) (y : B) → R x y → P x → Q y)
    → Zip R xs ys
    → All P xs
    → All Q ys
Zip-All R P Q [] [] f z h = tt
Zip-All R P Q [] (y ∷ ys) f z h = elim z [ ]
Zip-All R P Q (x ∷ xs) [] f z h = elim z [ ]
Zip-All R P Q (x ∷ xs) (y ∷ ys) f z h = (f x y z.0 h.0, Zip-All R P Q xs ys f z.1 h.1)

module _ {ℓ κ μ} {A : Type ℓ} {B : Type κ} (R : A → B → Type μ) where
  pub sum_by-Zip_le :
      (f : A → ℕ) (g : B → ℕ) (xs : List A) (ys : List B)
      → ((x : A) (y : B) → R x y → g y ≤ f x)
      → Zip R xs ys
      → sum_by g ys ≤ sum_by f xs
  unfolding sum_by
  sum_by-Zip_le f g [] [] h z = omega arith
  sum_by-Zip_le f g [] (y ∷ ys) h z = elim z [ ]
  sum_by-Zip_le f g (x ∷ xs) [] h z = elim z [ ]
  sum_by-Zip_le f g (x ∷ xs) (y ∷ ys) h z = omega (arith, h x y z.0, sum_by-Zip_le f g xs ys h z.1)

  pub sum_by-Zip_eq :
      (whole part : A → ℕ) (left : B → ℕ) (xs : List A) (ys : List B)
      → ((x : A) (y : B) → R x y → left y + part x ≡ whole x)
      → Zip R xs ys
      → sum_by left ys + sum_by part xs ≡ sum_by whole xs
  unfolding sum_by
  sum_by-Zip_eq whole part left [] [] h z = omega arith
  sum_by-Zip_eq whole part left [] (y ∷ ys) h z = elim z [ ]
  sum_by-Zip_eq whole part left (x ∷ xs) [] h z = elim z [ ]
  sum_by-Zip_eq whole part left (x ∷ xs) (y ∷ ys) h z =
      omega (arith, h x y z.0, sum_by-Zip_eq whole part left xs ys h z.1)
