-- ===== src/Retail/Baskets.antt =====
-- retail/services.py: what the stored lines of a cart stand for, a quantity for each offer.
use swedesweets_ops.Prelude.{
  ℕ, ◌≤◌, ◌<◌, ◌≡◌, ◌≢◌, refl, Bool, false, not, inl, inr, arith, none, some, List, [], ◌∷◌, ◌==◌,
  if◌then◌else◌, filter, sum_by, All, All-filter, Pairwise, IsDistinct, Bool-cases,
}
use mathlib.Core.Path.{subst}
use swedesweets_ops.Prelude.Rows.{find, save, first_where, All-save}
use swedesweets_ops.Prelude.Pairs.{
  find-All, Pairwise-filter, Pairwise-Zip, save-Zip, sum_by-save, sum_by-delete,
}
use swedesweets_ops.Retail.Models.{RetailCartLine}
use swedesweets_ops.Retail.Carts.{is_line_for}

-- The specification of a cart: how many units of each offer.
abbrev pub Basket : Type 0
Basket = ℕ → ℕ

abbrev pub put : ℕ → ℕ → Basket → Basket
put price quantity b k = if k == price then quantity else b k

abbrev pub units_of : ℕ → ℕ → RetailCartLine → ℕ
units_of cart_pk price_pk l = if is_line_for cart_pk price_pk l then l.quantity else 0

-- The basket that the lines of a cart stand for.
abbrev pub basket : ℕ → List RetailCartLine → Basket
basket cart_pk rows price_pk = sum_by (units_of cart_pk price_pk) rows

-- What holds of all lines: an offer has one line in a cart, of 1 to 20 units.
abbrev pub AreCartLines : ℕ → List RetailCartLine → Type 0
AreCartLines next rows =
    Pairwise (λ l m. is_line_for l.cart_id l.commercial_price_id m ≡ false) rows
    × IsDistinct (λ l. l.pk) rows
    × All (λ l. l.pk < next) rows
    × All (λ l. (1 ≤ l.quantity) × (l.quantity ≤ 20)) rows

none_of :
    (c k : ℕ) (rows : List RetailCartLine)
    → All (λ m. is_line_for c k m ≡ false) rows
    → basket c rows k ≡ 0
unfolding sum_by
none_of c k [] h = refl
none_of c k (l ∷ rows) h = ground (arith, none_of c k rows h.1)

first_line :
    (m : RetailCartLine) (rows : List RetailCartLine)
    → All (λ x. is_line_for m.cart_id m.commercial_price_id x ≡ false) rows
    → basket m.cart_id (m ∷ rows) m.commercial_price_id ≡ m.quantity
unfolding sum_by is_line_for
first_line m rows h = ground (arith, none_of m.cart_id m.commercial_price_id rows h)

-- A stored line holds all units of its offer in its cart.
pub basket-line :
    (l : RetailCartLine) (rows : List RetailCartLine)
    → Pairwise (λ l m. is_line_for l.cart_id l.commercial_price_id m ≡ false) rows
    → find (λ x. x.pk) l.pk rows ≡ some l
    → basket l.cart_id rows l.commercial_price_id ≡ l.quantity
unfolding find sum_by is_line_for
basket-line l [] h e = absurd cc
basket-line l (m ∷ rows) h e = elim (Bool-cases (l.pk == m.pk)) [
  | inl here ↦
      let same : m ≡ l = ground arith in
      subst (λ x. basket x.cart_id (m ∷ rows) x.commercial_price_id ≡ x.quantity) same
        (first_line m rows h.0)
  | inr other ↦
      let found : find (λ (x : RetailCartLine). x.pk) l.pk rows ≡ some l = ground arith in
      let apart =
        find-All (λ (x : RetailCartLine). is_line_for m.cart_id m.commercial_price_id x ≡ false)
          (λ x. x.pk) l.pk rows {a = l} found h.0 in
      ground (arith, basket-line l rows h.1 found, apart)
]

pub basket-absent :
    (c k : ℕ) (rows : List RetailCartLine)
    → first_where (is_line_for c k) rows ≡ none
    → basket c rows k ≡ 0
unfolding first_where sum_by
basket-absent c k [] e = refl
basket-absent c k (l ∷ rows) e = ground (arith, basket-absent c k rows)

abbrev pub SameLine : RetailCartLine → RetailCartLine → Type 0
SameLine l m =
    (m.pk ≡ l.pk) × (m.cart_id ≡ l.cart_id) × (m.commercial_price_id ≡ l.commercial_price_id)

-- The lines after one of them gets another quantity.
pub AreCartLines-save :
    (l old : RetailCartLine) (next : ℕ) (rows : List RetailCartLine)
    → find (λ x. x.pk) l.pk rows ≡ some old
    → SameLine old l
    → (1 ≤ l.quantity) × (l.quantity ≤ 20)
    → AreCartLines next rows
    → AreCartLines next (save (λ x. x.pk) l rows)
AreCartLines-save l old next rows found same bounded h =
    let saved = save (λ (x : RetailCartLine). x.pk) l rows in
    let alike = save-Zip (λ x. x.pk) SameLine (λ x. (refl, refl, refl)) l old rows h.1 found same in
    (
      Pairwise-Zip (λ l m. is_line_for l.cart_id l.commercial_price_id m ≡ false) SameLine
          (λ x y x' y' s t e. unfold is_line_for in ground arith) rows saved alike h.0,
      Pairwise-Zip (λ l m. m.pk ≢ l.pk) SameLine (λ x y x' y' s t e. ground arith) rows saved alike
          h.1,
      All-save (λ x. x.pk < next) (λ x. x.pk) l rows
          (ground
            (arith, find-All (λ (x : RetailCartLine). x.pk < next) (λ x. x.pk) l.pk rows found h.2))
          h.2,
      All-save (λ x. (1 ≤ x.quantity) × (x.quantity ≤ 20)) (λ x. x.pk) l rows bounded h.3,
    )

pub basket-save :
    (l old : RetailCartLine) (c k : ℕ) (rows : List RetailCartLine)
    → find (λ x. x.pk) l.pk rows ≡ some old
    → SameLine old l
    → Pairwise (λ l m. is_line_for l.cart_id l.commercial_price_id m ≡ false) rows
    → IsDistinct (λ x. x.pk) rows
    → basket c (save (λ x. x.pk) l rows) k
      ≡ (if is_line_for c k old then l.quantity else basket c rows k)
unfolding is_line_for
basket-save l old c k rows found same unique distinct =
    let total = sum_by-save (λ x. x.pk) (units_of c k) l old rows distinct found in
    let here : find (λ (x : RetailCartLine). x.pk) old.pk rows ≡ some old = ground arith in
    ground (arith, total, basket-line old rows unique here)

pub basket-delete :
    (old : RetailCartLine) (c k : ℕ) (rows : List RetailCartLine)
    → find (λ x. x.pk) old.pk rows ≡ some old
    → Pairwise (λ l m. is_line_for l.cart_id l.commercial_price_id m ≡ false) rows
    → IsDistinct (λ x. x.pk) rows
    → basket c (filter (λ x. not (x.pk == old.pk)) rows) k
      ≡ (if is_line_for c k old then 0 else basket c rows k)
unfolding is_line_for
basket-delete old c k rows found unique distinct =
    let total = sum_by-delete (λ x. x.pk) (units_of c k) old.pk old rows distinct found in
    ground (arith, total, basket-line old rows unique found)

pub basket-clear :
    (cart c k : ℕ) (rows : List RetailCartLine)
    → basket c (filter (λ x. not (x.cart_id == cart)) rows) k
      ≡ (if c == cart then 0 else basket c rows k)
unfolding sum_by filter is_line_for
basket-clear cart c k [] = ground arith
basket-clear cart c k (l ∷ rows) = ground (arith, basket-clear cart c k rows)

pub AreCartLines-filter :
    (kept : RetailCartLine → Bool) (next : ℕ) (rows : List RetailCartLine)
    → AreCartLines next rows
    → AreCartLines next (filter kept rows)
AreCartLines-filter kept next rows h = (
  Pairwise-filter (λ l m. is_line_for l.cart_id l.commercial_price_id m ≡ false) kept rows h.0,
  Pairwise-filter (λ l m. m.pk ≢ l.pk) kept rows h.1,
  All-filter (λ l. l.pk < next) kept rows h.2,
  All-filter (λ l. (1 ≤ l.quantity) × (l.quantity ≤ 20)) kept rows h.3,
)
