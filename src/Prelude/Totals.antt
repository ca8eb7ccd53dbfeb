-- ===== src/Prelude/Totals.antt =====
-- A Python `dict[int, int]` as an association list in insertion order, and its use as a table of
-- totals.
use Prim.Native.Nat.{ℕ, ◌+◌}
use mathlib.Core.Path.{◌≡◌}
use mathlib.Core.List.{List, [], ◌∷◌}
use native.Mathlib.Omega.{arith}
use swedesweets_ops.Prelude.Lists.{sum_by}
use swedesweets_ops.Prelude.Tests.{◌==◌, if◌then◌else◌}

abbrev pub Dict {ℓ} : Type ℓ → Type ℓ
Dict V = List (ℕ × V)

-- `d.get(k, default)`
unfoldable pub get_or {ℓ} : {V : Type ℓ} → Dict V → ℕ → V → V
get_or [] k v = v
get_or ((j, w) ∷ d) k v = if k == j then w else get_or d k v

-- `totals[k] += n`, on a `defaultdict(int)`
unfoldable pub add_to : ℕ → ℕ → Dict ℕ → Dict ℕ
add_to k n [] = (k, n) ∷ []
add_to k n ((j, m) ∷ d) = if k == j then (j, m + n) ∷ d else (j, m) ∷ add_to k n d

module _ {ℓ} {A : Type ℓ} where
  -- The totals of a measure over rows, grouped by a key: a loop of `+=`, or SQL's GROUP BY.
  unfoldable pub totals_from : (A → ℕ) → (A → ℕ) → List A → Dict ℕ → Dict ℕ
  totals_from key amount [] d = d
  totals_from key amount (x ∷ xs) d = totals_from key amount xs (add_to (key x) (amount x) d)

  -- The total of the rows with one key.
  abbrev pub total_of : (A → ℕ) → (A → ℕ) → ℕ → List A → ℕ
  total_of key amount k = sum_by (λ x. if k == key x then amount x else 0)

pub get_or-add_to :
    (k n j : ℕ) (d : Dict ℕ) → get_or (add_to k n d) j 0 ≡ (if j == k then n else 0) + get_or d j 0
unfolding get_or add_to
get_or-add_to k n j [] = ground arith
get_or-add_to k n j ((i, m) ∷ d) = ground (arith, get_or-add_to k n j d)

pub get_or-totals_from {ℓ} :
    {A : Type ℓ} (key amount : A → ℕ) (xs : List A) (d : Dict ℕ) (k : ℕ)
    → get_or (totals_from key amount xs d) k 0 ≡ get_or d k 0 + total_of key amount k xs
unfolding totals_from sum_by
get_or-totals_from key amount [] d k = omega arith
get_or-totals_from key amount (x ∷ xs) d k = omega (
  arith,
  get_or-totals_from key amount xs (add_to (key x) (amount x) d) k,
  get_or-add_to (key x) (amount x) k d,
)
