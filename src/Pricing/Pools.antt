-- ===== src/Pricing/Pools.antt =====
-- pricing/selectors.py: the batches that two offers of one channel can be served from.
use swedesweets_ops.Prelude.{
  Pairwise, ℕ, ◌≡◌, ◌≢◌, Bool, true, false, ◌&&◌, ◌⊎◌, inl, inr, arith, List, [], ◌∷◌, none, some,
  All, any, Bool-cases,
}
use swedesweets_ops.Prelude.Rows.{find}
use swedesweets_ops.Inventory.Models.{InventoryBatch}
use swedesweets_ops.Pricing.Models.{
  CommercialPrice, Channel, Currency, same_scope, channel_eq, is_batch_specific,
}
use swedesweets_ops.Pricing.Selectors.{
  has_amount, is_excluded_batch, is_for_batch, is_orderable, product_is_active,
  list_orderable_batches_for_product, list_orderable_batches_for_offer,
}
use swedesweets_ops.Database.{Db}

-- No two stored offers have one scope.
abbrev pub HasUniqueScopes : List CommercialPrice → Type 0
HasUniqueScopes = Pairwise (λ p q. same_scope p q ≡ false)

any-found {ℓ} :
    {A : Type ℓ} (key : A → ℕ) (test : A → Bool) (k : ℕ) (rows : List A) {a : A}
    → find key k rows ≡ some a
    → test a ≡ true
    → any test rows ≡ true
unfolding find any
any-found key test k [] e t = absurd cc
any-found key test k (x ∷ rows) {a} e t = ground (arith, any-found key test k rows {a = a})

channel_eq_refl : (c : Channel) → channel_eq c c ≡ true
unfolding channel_eq
channel_eq_refl c = ground arith

same_scope_sym : (p q : CommercialPrice) → same_scope p q ≡ same_scope q p
unfolding same_scope channel_eq
same_scope_sym p q = ground arith

all_scopes :
    (p q : CommercialPrice) (k : ℕ) (rows : List CommercialPrice)
    → All (λ r. same_scope p r ≡ false) rows
    → find (λ r. r.pk) k rows ≡ some q
    → same_scope p q ≡ false
unfolding find
all_scopes p q k [] h e = absurd cc
all_scopes p q k (x ∷ rows) h e = ground (arith, all_scopes p q k rows h.1)

-- Two offers that are stored under different keys do not have one scope.
scopes_differ :
    (p q : CommercialPrice) (rows : List CommercialPrice)
    → HasUniqueScopes rows
    → p.pk ≢ q.pk
    → find (λ r. r.pk) p.pk rows ≡ some p
    → find (λ r. r.pk) q.pk rows ≡ some q
    → same_scope p q ≡ false
unfolding find
scopes_differ p q [] h ne e f = absurd cc
scopes_differ p q (x ∷ rows) h ne e f = ground (
  arith,
  scopes_differ p q rows h.1 ne,
  all_scopes x p p.pk rows h.0,
  all_scopes x q q.pk rows h.0,
  same_scope_sym p q,
)

-- An offer's own batch is excluded from the pools of the offers for the product.
own_batch_is_excluded :
    (currency : Currency) (db : Db) (p : CommercialPrice) (k : ℕ)
    → find (λ r. r.pk) p.pk db.prices ≡ some p
    → has_amount p.pk currency db ≡ true
    → p.enabled ≡ true
    → p.batch_id ≡ some k
    → is_excluded_batch p.channel currency db k ≡ true
unfolding is_excluded_batch is_for_batch
own_batch_is_excluded currency db p k stored priced enabled own =
    any-found (λ r. r.pk)
      (λ r.
        (channel_eq r.channel p.channel && r.enabled)
        && (is_for_batch k r && has_amount r.pk currency db))
      p.pk db.prices stored (ground (arith, channel_eq_refl p.channel))

-- What a batch that an offer is served from has to do with it.
pub in_pool :
    (today : ℕ) (currency : Currency) (db : Db) (p : CommercialPrice) (b : InventoryBatch)
    → list_orderable_batches_for_offer today p currency db b ≡ true
    → (p.enabled ≡ true)
      × (is_orderable today b ≡ true)
      × ((p.batch_id ≡ some b.pk)
          ⊎ ((p.batch_id ≡ none)
              × (b.product_id ≡ p.product_id)
              × (is_excluded_batch p.channel currency db b.pk ≡ false)))
unfolding list_orderable_batches_for_offer list_orderable_batches_for_product
in_pool today currency db p b h = elim (Bool-cases (product_is_active p.product_id db)) [
  | inl selling ↦ ground arith
  | inr stopped ↦ absurd (ground arith)
]

one_pool :
    (today : ℕ) (currency : Currency) (db : Db) (p q : CommercialPrice) (b : InventoryBatch)
    → same_scope p q ≡ false
    → find (λ r. r.pk) p.pk db.prices ≡ some p
    → find (λ r. r.pk) q.pk db.prices ≡ some q
    → p.channel ≡ q.channel
    → (is_batch_specific p ≡ true → has_amount p.pk currency db ≡ true)
    → (is_batch_specific q ≡ true → has_amount q.pk currency db ≡ true)
    → list_orderable_batches_for_offer today p currency db b ≡ true
    → list_orderable_batches_for_offer today q currency db b ≡ true
    → false ≡ true
unfolding same_scope is_batch_specific
one_pool today currency db p q b apart stored stored' same priced priced' h h' = ground (
  arith,
  in_pool today currency db p b h,
  in_pool today currency db q b h',
  priced,
  priced',
  own_batch_is_excluded currency db p b.pk stored,
  own_batch_is_excluded currency db q b.pk stored',
  channel_eq_refl p.channel,
)

-- If no two stored offers have one scope, then two different stored offers of one channel are
-- never served from the same batch in a currency, where each of them that is for one batch has an
-- amount in that currency.
pub pools_disjoint :
    (today : ℕ) (currency : Currency) (db : Db) (p q : CommercialPrice) (b : InventoryBatch)
    → HasUniqueScopes db.prices
    → p.pk ≢ q.pk
    → find (λ r. r.pk) p.pk db.prices ≡ some p
    → find (λ r. r.pk) q.pk db.prices ≡ some q
    → p.channel ≡ q.channel
    → (is_batch_specific p ≡ true → has_amount p.pk currency db ≡ true)
    → (is_batch_specific q ≡ true → has_amount q.pk currency db ≡ true)
    → (list_orderable_batches_for_offer today p currency db b
        && list_orderable_batches_for_offer today q currency db b)
      ≡ false
pools_disjoint today currency db p q b unique ne stored stored' same priced priced' =
    let apart = scopes_differ p q db.prices unique ne stored stored' in
    ground (arith, one_pool today currency db p q b apart stored stored' same priced priced')
