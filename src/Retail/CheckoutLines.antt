-- ===== src/Retail/CheckoutLines.antt =====
-- retail/services.py: the rows that a checkout is made of.
use swedesweets_ops.Prelude.{
  ℕ, ◌+◌, ◌<◌, ◌≡◌, refl, sym, ap, ◌∙◌, true, false, arith, some, List, [], ◌∷◌, ◌++◌, map, sum_by,
  length, ok, Zip, All, pos_part, all, is_some, contains, All-map, IsDistinct, ◌≢◌, ok_first,
}
use mathlib.Core.List.{append_assoc, append-nil}
use mathlib.Core.Path.{subst}
use swedesweets_ops.Prelude.Rows.{first_where}
use swedesweets_ops.Orders.Models.{OrderLine, order_total}
use swedesweets_ops.Orders.Total.{cents, order_total-sum}
use swedesweets_ops.Pricing.Models.{same_amount, eur, PriceAmount}
use swedesweets_ops.Retail.Models.{OfferSelection}
use swedesweets_ops.Retail.CartCommands.{retail_price_found}
use swedesweets_ops.Retail.Carts.{get_retail_price_and_amount}
use swedesweets_ops.Retail.Checkouts.{
  RetailOrderLineInput, ResolvedRetailOrderLine, retail_line_total, resolve_retail_line,
  resolve_retail_lines, calculate_order_total, retail_order_line, insert_retail_line,
  create_retail_line, create_retail_lines, validate_unique_commercial_prices,
}
use swedesweets_ops.Database.{Db, >>=-eq-ok}

-- The rows of the resolved lines, with keys from the sequence.
abbrev pub retail_rows : ℕ → ℕ → List ResolvedRetailOrderLine → List OrderLine
retail_rows order_pk pk [] = []
retail_rows order_pk pk (r ∷ rs) =
    retail_order_line order_pk r pk ∷ retail_rows order_pk (pk + 1) rs

abbrev pub selection_of : OrderLine → OfferSelection
selection_of l = record { order_line_id = l.pk; commercial_price_id = l.commercial_offer_id }

abbrev pub add_retail_rows : List OrderLine → Db → Db
add_retail_rows rows db = record db {
  lines = db.lines ++ rows;
  selections = db.selections ++ map selection_of rows;
  next_pk = db.next_pk + length rows;
}

add_rows_cons :
    (l : OrderLine) (rows : List OrderLine) (db : Db)
    → add_retail_rows rows (insert_retail_line l db) ≡ add_retail_rows (l ∷ rows) db
add_rows_cons l rows db =
    let lines = append_assoc db.lines (l ∷ []) rows in
    let selections = append_assoc db.selections (selection_of l ∷ []) (map selection_of rows) in
    let keys : db.next_pk + 1 + length rows ≡ db.next_pk + length (l ∷ rows) = omega arith in
    λ i. record db { lines = lines i; selections = selections i; next_pk = keys i }

create_line_writes :
    (order_pk : ℕ) (r : ResolvedRetailOrderLine) (db db' : Db)
    → create_retail_line order_pk r db ≡ ok (tt, db')
    → (0 < r.quantity)
      × (0 < r.unit_price)
      × (db' ≡ insert_retail_line (retail_order_line order_pk r db.next_pk) db)
unfolding create_retail_line
create_line_writes order_pk r db db' e = ground arith

pub create_lines_writes :
    (order_pk : ℕ) (rs : List ResolvedRetailOrderLine) (db db' : Db)
    → create_retail_lines order_pk rs db ≡ ok (tt, db')
    → db' ≡ add_retail_rows (retail_rows order_pk db.next_pk rs) db
unfolding create_retail_lines
create_lines_writes order_pk [] db db' e =
    let same : db' ≡ db = ground (arith, e) in
    let lines = append-nil db.lines in
    let selections = append-nil db.selections in
    let keys : db.next_pk ≡ db.next_pk + 0 = omega arith in
    same ∙ λ i. record db { lines = sym lines i; selections = sym selections i; next_pk = keys i }
create_lines_writes order_pk (r ∷ rs) db db' e =
    let (u, mid, first, rest) =
      >>=-eq-ok (create_retail_line order_pk r) (λ _. create_retail_lines order_pk rs) db e in
    let (_, _, written) = create_line_writes order_pk r db mid first in
    let row = retail_order_line order_pk r db.next_pk in
    create_lines_writes order_pk rs mid db' rest
    ∙ ap (λ (d : Db). add_retail_rows (retail_rows order_pk d.next_pk rs) d) written
    ∙ add_rows_cons row (retail_rows order_pk (db.next_pk + 1) rs) db

-- A line that is bought with a line of the cart: of the same offer and as many units, at the price
-- that the offer has in euros.
abbrev pub IsBoughtWith : Db → ℕ → RetailOrderLineInput → OrderLine → Type 0
IsBoughtWith db order_pk l o =
    (o.order_id ≡ order_pk)
    × (o.commercial_offer_id ≡ l.commercial_price_id)
    × (o.quantity_in_units ≡ pos_part l.quantity)
    × ((a : PriceAmount) × (first_where (same_amount l.commercial_price_id eur) db.amounts ≡ some a)
        × (o.unit_price_snapshot ≡ some a.price))

resolved_line :
    (today order_pk pk : ℕ) (db : Db) (l : RetailOrderLineInput) (r : ResolvedRetailOrderLine)
    → resolve_retail_line today eur db l ≡ ok r
    → IsBoughtWith db order_pk l (retail_order_line order_pk r pk)
unfolding resolve_retail_line retail_order_line
resolved_line today order_pk pk db l r e =
    let (priced, known, rest) =
      ok_first (get_retail_price_and_amount l.commercial_price_id eur db) _ e in
    let (_, pk_is, _, _, _, amount) =
      retail_price_found l.commercial_price_id eur priced.0 priced.1 db known in
    let at : first_where (same_amount l.commercial_price_id eur) db.amounts ≡ some priced.1 =
      subst (λ k. first_where (same_amount k eur) db.amounts ≡ some priced.1) pk_is amount in
    (refl, ground (arith, rest, pk_is), ground (arith, rest), (priced.1, at, ground (arith, rest)))

pub resolved_rows :
    (today order_pk pk : ℕ) (db : Db) (ls : List RetailOrderLineInput)
    (rs : List ResolvedRetailOrderLine)
    → resolve_retail_lines today eur db ls ≡ ok rs
    → Zip (IsBoughtWith db order_pk) ls (retail_rows order_pk pk rs)
unfolding resolve_retail_lines
resolved_rows today order_pk pk db [] [] e = tt
resolved_rows today order_pk pk db [] (r ∷ rs) e = absurd cc
resolved_rows today order_pk pk db (l ∷ ls) rs e =
    let (r, known, rest) = ok_first (resolve_retail_line today eur db l) _ e in
    let (more, known', last) = ok_first (resolve_retail_lines today eur db ls) _ rest in
    let made : rs ≡ r ∷ more = ground arith in
    rw made (
      resolved_line today order_pk pk db l r known,
      resolved_rows today order_pk (pk + 1) db ls more known',
    )

retail_rows-priced :
    (order_pk pk : ℕ) (rs : List ResolvedRetailOrderLine)
    → all (λ l. is_some l.unit_price_snapshot) (retail_rows order_pk pk rs) ≡ true
unfolding all retail_order_line
retail_rows-priced order_pk pk [] = refl
retail_rows-priced order_pk pk (r ∷ rs) = retail_rows-priced order_pk (pk + 1) rs

sum_by-retail_rows :
    (order_pk pk : ℕ) (rs : List ResolvedRetailOrderLine)
    → sum_by cents (retail_rows order_pk pk rs) ≡ calculate_order_total rs
unfolding sum_by retail_order_line calculate_order_total retail_line_total
sum_by-retail_rows order_pk pk [] = refl
sum_by-retail_rows order_pk pk (r ∷ rs) = ground (arith, sum_by-retail_rows order_pk (pk + 1) rs)

-- The total that is checked is the total of the order that is stored.
pub order_total-retail_rows :
    (order_pk pk : ℕ) (rs : List ResolvedRetailOrderLine)
    → order_total (retail_rows order_pk pk rs) ≡ some (calculate_order_total rs)
order_total-retail_rows order_pk pk rs =
    let rows = retail_rows order_pk pk rs in
    ground (
      arith,
      order_total-sum rows,
      retail_rows-priced order_pk pk rs,
      sum_by-retail_rows order_pk pk rs,
    )

unseen :
    (seen : List ℕ) (rs : List ResolvedRetailOrderLine)
    → validate_unique_commercial_prices seen rs ≡ ok tt
    → All (λ r. contains r.commercial_price.pk seen ≡ false) rs
unfolding validate_unique_commercial_prices contains
unseen seen [] e = tt
unseen seen (r ∷ rs) e = (
  ground arith,
  All-map (λ q. contains q.commercial_price.pk (r.commercial_price.pk ∷ seen) ≡ false)
      (λ q. contains q.commercial_price.pk seen ≡ false) rs (λ q h. ground arith)
      (unseen (r.commercial_price.pk ∷ seen) rs (ground arith)),
)

rows_apart :
    (k order_pk pk : ℕ) (rs : List ResolvedRetailOrderLine) (seen : List ℕ)
    → All (λ r. contains r.commercial_price.pk (k ∷ seen) ≡ false) rs
    → All (λ (o : OrderLine). o.commercial_offer_id ≢ k) (retail_rows order_pk pk rs)
unfolding contains retail_order_line
rows_apart k order_pk pk [] seen h = tt
rows_apart k order_pk pk (r ∷ rs) seen h =
    (ground (arith, h.0), rows_apart k order_pk (pk + 1) rs seen h.1)

-- No two of the rows are of one offer.
pub retail_rows-IsDistinct :
    (order_pk pk : ℕ) (seen : List ℕ) (rs : List ResolvedRetailOrderLine)
    → validate_unique_commercial_prices seen rs ≡ ok tt
    → IsDistinct (λ o. o.commercial_offer_id) (retail_rows order_pk pk rs)
unfolding validate_unique_commercial_prices retail_order_line
retail_rows-IsDistinct order_pk pk seen [] e = tt
retail_rows-IsDistinct order_pk pk seen (r ∷ rs) e =
    let rest : validate_unique_commercial_prices (r.commercial_price.pk ∷ seen) rs ≡ ok tt =
      ground arith in
    (
      rows_apart r.commercial_price.pk order_pk (pk + 1) rs seen
          (unseen (r.commercial_price.pk ∷ seen) rs rest),
      retail_rows-IsDistinct order_pk (pk + 1) (r.commercial_price.pk ∷ seen) rs rest,
    )
