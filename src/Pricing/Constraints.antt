-- ===== src/Pricing/Constraints.antt =====
-- pricing/services.py: what the constraints of the offers and of the amounts say, and how the
-- tables keep it.
use swedesweets_ops.Prelude.{
  filter, ℕ, ◌+◌, ◌<◌, ◌≡◌, refl, ◌≢◌, Bool, true, false, arith, none, some, List, [], ◌∷◌, ◌++◌,
  All, All-map, All-filter, Pairwise, IsDistinct, any,
}
use swedesweets_ops.Prelude.Rows.{find, save, All-save, first_where}
use swedesweets_ops.Prelude.Pairs.{
  All-snoc, find-All, Pairwise-snoc, Pairwise-filter, Pairwise-Zip, save-Zip,
}
use swedesweets_ops.Pricing.Models.{
  CommercialPrice, PriceAmount, same_scope, channel_eq, amount_is_valid, same_amount, currency_eq,
}
use swedesweets_ops.Pricing.Pools.{HasUniqueScopes}
use swedesweets_ops.Pricing.Services.{scope_is_taken}
use swedesweets_ops.Database.{Db}

-- No offer has two amounts in one currency.
abbrev pub HasUniqueAmounts : List PriceAmount → Type 0
HasUniqueAmounts = Pairwise (λ a b. same_amount a.commercial_price_id a.currency b ≡ false)

abbrev pub AreOfferRows : ℕ → List CommercialPrice → Type 0
AreOfferRows next rows =
    HasUniqueScopes rows × IsDistinct (λ p. p.pk) rows × All (λ p. p.pk < next) rows

abbrev pub AreAmountRows : ℕ → List PriceAmount → Type 0
AreAmountRows next rows =
    HasUniqueAmounts rows
    × IsDistinct (λ a. a.pk) rows
    × All (λ a. a.pk < next) rows
    × All (λ a. amount_is_valid a ≡ true) rows

-- What the constraints of the two tables say.
abbrev pub IsPriced : Db → Type 0
IsPriced db = AreOfferRows db.next_pk db.prices × AreAmountRows db.next_pk db.amounts

pub fresh_next {ℓ} :
    {A : Type ℓ} (key : A → ℕ) (n : ℕ) (rows : List A)
    → All (λ x. key x < n) rows
    → All (λ x. key x < n + 1) rows
fresh_next key n rows h = All-map (λ x. key x < n) (λ x. key x < n + 1) rows (λ x l. omega arith) h

fresh_ne {ℓ} :
    {A : Type ℓ} (key : A → ℕ) (n : ℕ) (rows : List A)
    → All (λ x. key x < n) rows
    → All (λ x. n ≢ key x) rows
fresh_ne key n rows h = All-map (λ x. key x < n) (λ x. n ≢ key x) rows (λ x l. ground arith) h

scope_sym : (p q : CommercialPrice) → same_scope p q ≡ false → same_scope q p ≡ false
unfolding same_scope channel_eq
scope_sym p q h = ground arith

-- A scope that is not taken is that of no stored offer.
free_scope :
    (p : CommercialPrice) (rows : List CommercialPrice)
    → All (λ q. q.pk < p.pk) rows
    → scope_is_taken p rows ≡ false
    → All (λ q. same_scope q p ≡ false) rows
unfolding scope_is_taken any
free_scope p [] l h = tt
free_scope p (q ∷ rows) l h = (ground (arith, scope_sym p q), free_scope p rows l.1 (ground arith))

abbrev pub SameScope : CommercialPrice → CommercialPrice → Type 0
SameScope p q =
    (q.pk ≡ p.pk)
    × (q.product_id ≡ p.product_id)
    × (q.batch_id ≡ p.batch_id)
    × (q.channel ≡ p.channel)

pub AreOfferRows-save :
    (p old : CommercialPrice) (next : ℕ) (rows : List CommercialPrice)
    → find (λ q. q.pk) p.pk rows ≡ some old
    → SameScope old p
    → AreOfferRows next rows
    → AreOfferRows next (save (λ q. q.pk) p rows)
AreOfferRows-save p old next rows found same h =
    let alike =
      save-Zip (λ q. q.pk) SameScope (λ x. (refl, refl, refl, refl)) p old rows h.1 found same in
    (
      Pairwise-Zip (λ p q. same_scope p q ≡ false) SameScope
          (λ x y x' y' s t e. unfold same_scope in ground arith) rows (save (λ q. q.pk) p rows)
          alike h.0,
      Pairwise-Zip (λ p q. q.pk ≢ p.pk) SameScope (λ x y x' y' s t e. ground arith) rows
          (save (λ q. q.pk) p rows) alike h.1,
      All-save (λ q. q.pk < next) (λ q. q.pk) p rows
          (ground (
            arith,
            find-All (λ (q : CommercialPrice). q.pk < next) (λ q. q.pk) p.pk rows found h.2,
          ))
          h.2,
    )

pub AreOfferRows-insert :
    (p : CommercialPrice) (rows : List CommercialPrice)
    → scope_is_taken p rows ≡ false
    → AreOfferRows p.pk rows
    → AreOfferRows (p.pk + 1) (rows ++ p ∷ [])
AreOfferRows-insert p rows free h = (
  Pairwise-snoc (λ p q. same_scope p q ≡ false) rows p h.0 (free_scope p rows h.2 free),
  Pairwise-snoc (λ p q. q.pk ≢ p.pk) rows p h.1 (fresh_ne (λ q. q.pk) p.pk rows h.2),
  All-snoc (λ q. q.pk < p.pk + 1) rows p (fresh_next (λ q. q.pk) p.pk rows h.2) (omega arith),
)

-- Two amounts of one offer in one currency are one.
free_amount :
    (a : PriceAmount) (rows : List PriceAmount)
    → first_where (same_amount a.commercial_price_id a.currency) rows ≡ none
    → All (λ b. same_amount b.commercial_price_id b.currency a ≡ false) rows
unfolding first_where same_amount currency_eq
free_amount a [] h = tt
free_amount a (b ∷ rows) h = (ground arith, free_amount a rows (ground arith))

pub AreAmountRows-insert :
    (a : PriceAmount) (rows : List PriceAmount)
    → first_where (same_amount a.commercial_price_id a.currency) rows ≡ none
    → amount_is_valid a ≡ true
    → AreAmountRows a.pk rows
    → AreAmountRows (a.pk + 1) (rows ++ a ∷ [])
AreAmountRows-insert a rows free valid h = (
  Pairwise-snoc (λ a b. same_amount a.commercial_price_id a.currency b ≡ false) rows a h.0
      (free_amount a rows free),
  Pairwise-snoc (λ a b. b.pk ≢ a.pk) rows a h.1 (fresh_ne (λ b. b.pk) a.pk rows h.2),
  All-snoc (λ b. b.pk < a.pk + 1) rows a (fresh_next (λ b. b.pk) a.pk rows h.2) (omega arith),
  All-snoc (λ b. amount_is_valid b ≡ true) rows a h.3 valid,
)

abbrev pub SameAmount : PriceAmount → PriceAmount → Type 0
SameAmount a b =
    (b.pk ≡ a.pk) × (b.commercial_price_id ≡ a.commercial_price_id) × (b.currency ≡ a.currency)

pub AreAmountRows-save :
    (a old : PriceAmount) (next : ℕ) (rows : List PriceAmount)
    → find (λ b. b.pk) a.pk rows ≡ some old
    → SameAmount old a
    → amount_is_valid a ≡ true
    → AreAmountRows next rows
    → AreAmountRows next (save (λ b. b.pk) a rows)
AreAmountRows-save a old next rows found same valid h =
    let saved = save (λ (b : PriceAmount). b.pk) a rows in
    let alike =
      save-Zip (λ b. b.pk) SameAmount (λ x. (refl, refl, refl)) a old rows h.1 found same in
    (
      Pairwise-Zip (λ a b. same_amount a.commercial_price_id a.currency b ≡ false) SameAmount
          (λ x y x' y' s t e. unfold same_amount in ground arith) rows saved alike h.0,
      Pairwise-Zip (λ a b. b.pk ≢ a.pk) SameAmount (λ x y x' y' s t e. ground arith) rows saved
          alike h.1,
      All-save (λ b. b.pk < next) (λ b. b.pk) a rows
          (ground
            (arith, find-All (λ (b : PriceAmount). b.pk < next) (λ b. b.pk) a.pk rows found h.2))
          h.2,
      All-save (λ b. amount_is_valid b ≡ true) (λ b. b.pk) a rows valid h.3,
    )

pub AreAmountRows-filter :
    (kept : PriceAmount → Bool) (next : ℕ) (rows : List PriceAmount)
    → AreAmountRows next rows
    → AreAmountRows next (filter kept rows)
AreAmountRows-filter kept next rows h = (
  Pairwise-filter (λ a b. same_amount a.commercial_price_id a.currency b ≡ false) kept rows h.0,
  Pairwise-filter (λ a b. b.pk ≢ a.pk) kept rows h.1,
  All-filter (λ a. a.pk < next) kept rows h.2,
  All-filter (λ a. amount_is_valid a ≡ true) kept rows h.3,
)

pub AreAmountRows-later :
    (next : ℕ) (rows : List PriceAmount) → AreAmountRows next rows → AreAmountRows (next + 1) rows
AreAmountRows-later next rows h = (h.0, h.1, fresh_next (λ a. a.pk) next rows h.2, h.3)

pub AreOfferRows-later :
    (next : ℕ) (rows : List CommercialPrice) → AreOfferRows next rows → AreOfferRows (next + 1) rows
AreOfferRows-later next rows h = (h.0, h.1, fresh_next (λ a. a.pk) next rows h.2)
