-- ===== src/Business/MergedLines.antt =====
-- business/drafts.py: the lines that selections of offers are merged into.
use swedesweets_ops.Prelude.{
  ℕ, ◌+◌, ◌<◌, ◌≡◌, ◌≢◌, refl, sym, ap, ◌∙◌, not, ◌&&◌, ◌==◌, if◌then◌else◌, arith, inl, inr, none,
  some, List, [], ◌∷◌, sum_by, ok, err, or_raise, raise_if, All, IsDistinct, Bool-cases, Zip,
  Zip-All, pos_part, ◌>>=◌, ◌>>◌, >>=-ok, >>-ok, or_raise-ok, pos, invalid_order_operation,
}
use mathlib.Core.Path.{subst}
use swedesweets_ops.Products.Models.{Product}
use swedesweets_ops.Products.Units.{quantity_to_units}
use swedesweets_ops.Prelude.Rows.{find, find-key}
use swedesweets_ops.Prelude.Totals.{Dict, add_to, total_of}
use swedesweets_ops.Pricing.Models.{CommercialPrice, business, eur, channel_eq, is_batch_specific}
use swedesweets_ops.Pricing.Selectors.{product_is_active, has_amount}
use swedesweets_ops.Orders.Drafts.{ResolvedOrderLine}
use swedesweets_ops.Business.Drafts.{
  BusinessOfferLineInput, selectable_offer, check_offers, line_units, offer_units, units_by_offer,
  offer_line, offer_lines, resolve_business_offer_lines,
}
use swedesweets_ops.Database.{Db}

-- The offer of a resolved line, by its key.
abbrev pub offer_key : ResolvedOrderLine → ℕ
offer_key r = elim r.commercial_offer [
  | none ↦ 0
  | some offer ↦ elim offer.pk [ none ↦ 0 | some k ↦ k ]
]

-- The units that one selected line adds to an offer.
abbrev pub selected_units : Db → ℕ → BusinessOfferLineInput → ℕ
selected_units db k l = elim (offer_units db l) [
  | err e ↦ 0
  | ok units ↦ if k == l.commercial_offer_id then units else 0
]

abbrev entry_total : ℕ → Dict ℕ → ℕ
entry_total = total_of (λ e. e.0) (λ e. e.1)

abbrev AreMerged : Dict ℕ → Type 0
AreMerged d = IsDistinct (λ e. e.0) d × All (λ e. 0 < e.1) d

entry_total-add_to :
    (k n j : ℕ) (d : Dict ℕ)
    → entry_total j (add_to k n d) ≡ (if j == k then n else 0) + entry_total j d
unfolding sum_by add_to
entry_total-add_to k n j [] = ground arith
entry_total-add_to k n j ((i, m) ∷ d) = ground (arith, entry_total-add_to k n j d)

add_to-others :
    (k n j : ℕ) (d : Dict ℕ) → k ≢ j → All (λ e. e.0 ≢ j) d → All (λ e. e.0 ≢ j) (add_to k n d)
unfolding add_to
add_to-others k n j [] ne h = (ne, tt)
add_to-others k n j ((i, m) ∷ d) ne h = elim (Bool-cases (k == i)) [
  | inl here ↦ rw here h
  | inr other ↦ rw other (h.0, add_to-others k n j d ne h.1)
]

add_to-AreMerged : (k n : ℕ) (d : Dict ℕ) → 0 < n → AreMerged d → AreMerged (add_to k n d)
unfolding add_to
add_to-AreMerged k n [] some_units h = ((tt, tt), (some_units, tt))
add_to-AreMerged k n ((i, m) ∷ d) some_units h = elim (Bool-cases (k == i)) [
  | inl here ↦ rw here (h.0, (omega (arith, h.1.0), h.1.1))
  | inr other ↦
      let (apart, positive) = add_to-AreMerged k n d some_units (h.0.1, h.1.1) in
      rw other ((add_to-others k n i d (ground arith) h.0.0, apart), (h.1.0, positive))
]

offer_units-positive :
    (db : Db) (l : BusinessOfferLineInput) (n : ℕ) → offer_units db l ≡ ok n → 0 < n
unfolding offer_units line_units
offer_units-positive db l n e =
    let units = λ (offer : CommercialPrice). line_units offer.product_id l.quantity l.unit db in
    let (offer, _, e₁) = >>=-ok (selectable_offer l.commercial_offer_id db) units e in
    let convert = λ (p : Product). quantity_to_units p l.quantity l.unit in
    let check = λ (n : ℕ). raise_if (n == 0) invalid_order_operation >> ok n in
    let stored = find (λ (p : Product). p.pk) offer.product_id db.products in
    let (product, _, e₂) =
      >>=-ok (or_raise stored invalid_order_operation) (λ p. convert p >>= check) e₁ in
    let (m, _, e₃) = >>=-ok (convert product) check e₂ in ground (arith, e₃)

one_line :
    (db : Db) (k n : ℕ) (l : BusinessOfferLineInput)
    → offer_units db l ≡ ok n
    → selected_units db k l ≡ (if k == l.commercial_offer_id then n else 0)
one_line db k n l made = rw (selected_units, made) refl

units_by_offer-merges :
    (db : Db) (lines : List BusinessOfferLineInput) (d d' : Dict ℕ)
    → units_by_offer db lines d ≡ ok d'
    → AreMerged d
    → AreMerged d'
      × ((k : ℕ) → entry_total k d' ≡ entry_total k d + sum_by (selected_units db k) lines)
unfolding units_by_offer sum_by
units_by_offer-merges db [] d d' e h =
    let same : d' ≡ d = ground (arith, e) in rw same (h, λ k. omega arith)
units_by_offer-merges db (l ∷ lines) d d' e h =
    let (n, made, rest) =
      >>=-ok (offer_units db l) (λ n. units_by_offer db lines (add_to l.commercial_offer_id n d))
        e in
    let (merged, total) =
      units_by_offer-merges db lines (add_to l.commercial_offer_id n d) d' rest
        (add_to-AreMerged l.commercial_offer_id n d (offer_units-positive db l n made) h) in
    (
      merged,
      λ k.
          omega (
            arith,
            total k,
            one_line db k n l made,
            entry_total-add_to l.commercial_offer_id n k d,
          ),
    )

selectable_found : (k : ℕ) (db : Db) (p : CommercialPrice) → selectable_offer k db ≡ ok p → p.pk ≡ k
unfolding selectable_offer
selectable_found k db p e =
    let stored = find (λ (p : CommercialPrice). p.pk) k db.prices in
    let wrong = λ (q : CommercialPrice).
      raise_if (not (channel_eq q.channel business)) invalid_order_operation in
    let closed = λ (q : CommercialPrice).
      raise_if (not (product_is_active q.product_id db && q.enabled)) invalid_order_operation in
    let unpriced = λ (q : CommercialPrice).
      raise_if (is_batch_specific q && not (has_amount q.pk eur db)) invalid_order_operation in
    let (q, found, e₁) =
      >>=-ok (or_raise stored invalid_order_operation)
        (λ q. wrong q >> (closed q >> (unpriced q >> ok q))) e in
    let (_, e₂) = >>-ok (wrong q) (closed q >> (unpriced q >> ok q)) e₁ in
    let (_, e₃) = >>-ok (closed q) (unpriced q >> ok q) e₂ in
    let (_, e₄) = >>-ok (unpriced q) (ok q) e₃ in
    let same : q ≡ p = ground (arith, e₄) in
    ap (λ (x : CommercialPrice). x.pk) (sym same)
    ∙ find-key (λ (p : CommercialPrice). p.pk) k db.prices {a = q}
        (or_raise-ok stored invalid_order_operation found)

-- A resolved line for each entry, of its offer and its units.
offer_lines-entries :
    (d : Dict ℕ) (db : Db) (rs : List ResolvedOrderLine)
    → offer_lines d db ≡ ok rs
    → Zip (λ e r. (offer_key r ≡ e.0) × (r.quantity_in_units ≡ pos e.1)) d rs
unfolding offer_lines offer_line
offer_lines-entries [] db [] e = tt
offer_lines-entries [] db (r ∷ rs) e = absurd cc
offer_lines-entries ((k, n) ∷ d) db rs e =
    let (p, found, e₁) =
      >>=-ok (selectable_offer k db)
        (λ p. offer_lines d db >>= λ rest. ok (offer_line db p n ∷ rest)) e in
    let (rest, more, e₂) = >>=-ok (offer_lines d db) (λ rest. ok (offer_line db p n ∷ rest)) e₁ in
    let made : rs ≡ offer_line db p n ∷ rest = ground (arith, e₂) in
    rw made ((selectable_found k db p found, refl), offer_lines-entries d db rest more)

entries-apart :
    (k : ℕ) (d : Dict ℕ) (rs : List ResolvedOrderLine)
    → Zip (λ e r. (offer_key r ≡ e.0) × (r.quantity_in_units ≡ pos e.1)) d rs
    → All (λ e. e.0 ≢ k) d
    → All (λ r. offer_key r ≢ k) rs
entries-apart k d rs z h =
    Zip-All (λ e r. (offer_key r ≡ e.0) × (r.quantity_in_units ≡ pos e.1)) (λ e. e.0 ≢ k)
      (λ r. offer_key r ≢ k) d rs (λ e r same ne. ground arith) z h

entries-IsDistinct :
    (d : Dict ℕ) (rs : List ResolvedOrderLine)
    → Zip (λ e r. (offer_key r ≡ e.0) × (r.quantity_in_units ≡ pos e.1)) d rs
    → IsDistinct (λ e. e.0) d
    → IsDistinct offer_key rs
entries-IsDistinct [] [] z h = tt
entries-IsDistinct [] (r ∷ rs) z h = elim z [ ]
entries-IsDistinct (e ∷ d) [] z h = elim z [ ]
entries-IsDistinct (e ∷ d) (r ∷ rs) z h = (
  subst (λ k. All (λ x. offer_key x ≢ k) rs) (sym z.0.0) (entries-apart e.0 d rs z.1 h.0),
  entries-IsDistinct d rs z.1 h.1,
)

-- The units of an offer in the resolved lines.
abbrev pub resolved_units : ℕ → ResolvedOrderLine → ℕ
resolved_units k r = if k == offer_key r then pos_part r.quantity_in_units else 0

entries-sum :
    (k : ℕ) (d : Dict ℕ) (rs : List ResolvedOrderLine)
    → Zip (λ e r. (offer_key r ≡ e.0) × (r.quantity_in_units ≡ pos e.1)) d rs
    → sum_by (resolved_units k) rs ≡ entry_total k d
unfolding sum_by
entries-sum k [] [] z = refl
entries-sum k [] (r ∷ rs) z = elim z [ ]
entries-sum k (e ∷ d) [] z = elim z [ ]
entries-sum k (e ∷ d) (r ∷ rs) z = ground (arith, entries-sum k d rs z.1)

-- If selections of business offers are resolved, then no two of the resolved lines are of one offer,
-- every line has a positive number of units, and for every offer the lines have as many units as the
-- selections of it have together.
pub resolve_business_offer_lines-merges :
    (lines : List BusinessOfferLineInput) (db : Db) (rs : List ResolvedOrderLine)
    → resolve_business_offer_lines lines db ≡ ok rs
    → IsDistinct offer_key rs
      × All (λ r. 0 < pos_part r.quantity_in_units) rs
      × ((k : ℕ) → sum_by (resolved_units k) rs ≡ sum_by (selected_units db k) lines)
unfolding resolve_business_offer_lines sum_by
resolve_business_offer_lines-merges lines db rs e =
    let (_, e₁) =
      >>-ok (check_offers db lines) (units_by_offer db lines [] >>= λ d. offer_lines d db) e in
    let (d, counted, e₂) = >>=-ok (units_by_offer db lines []) (λ d. offer_lines d db) e₁ in
    let ((apart, positive), total) = units_by_offer-merges db lines [] d counted (tt, tt) in
    let z = offer_lines-entries d db rs e₂ in
    (
      entries-IsDistinct d rs z apart,
      Zip-All (λ e r. (offer_key r ≡ e.0) × (r.quantity_in_units ≡ pos e.1)) (λ e. 0 < e.1)
          (λ r. 0 < pos_part r.quantity_in_units) d rs (λ e r same some_units. ground arith) z
          positive,
      λ k. omega (arith, entries-sum k d rs z, total k),
    )
