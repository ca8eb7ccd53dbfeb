-- ===== src/Orders/Replacement.antt =====
-- orders/services.py: what an update of a placed order does to each line. The stored lines are
-- compared with the new ones by the commercial offer that they are for.
use swedesweets_ops.Prelude.{
  ℕ, not, ◌==◌, Option, none, some, List, [], ◌∷◌, map, filter, contains, if◌then◌else◌, Result, ok,
  err, ◌>>=◌, ◌>>◌, raise_if, integrity_error, invalid_order_operation, pos_part, is_nonpositive,
}
use swedesweets_ops.Prelude.Rows.{find}
use swedesweets_ops.Orders.Models.{Order, OrderLine, stock_unit}
use swedesweets_ops.Orders.Drafts.{ResolvedOrderLine}
use swedesweets_ops.Orders.Lines.{validate_commercial_offer}
use swedesweets_ops.Database.{Db, ⊤}

-- The new lines by their offers, none of which may come twice; `seen` holds those before.
unfoldable pub index_incoming :
    Order → List ℕ → List ResolvedOrderLine → Result (List (ℕ × ResolvedOrderLine))
unfolding validate_commercial_offer contains
index_incoming order seen [] = ok []
index_incoming order seen (line ∷ lines) = do
  offer_id ← validate_commercial_offer order line
  raise_if (contains offer_id seen) invalid_order_operation
  rest ← index_incoming order (offer_id ∷ seen) lines
  ok ((offer_id, line) ∷ rest)

-- The stored lines have distinct offers as well.
unfoldable pub check_existing : List ℕ → List OrderLine → Result ⊤
unfolding contains
check_existing seen [] = ok tt
check_existing seen (line ∷ lines) = do
  raise_if (contains line.commercial_offer_id seen) invalid_order_operation
  check_existing (line.commercial_offer_id ∷ seen) lines

abbrev pub existing_line : ℕ → List OrderLine → Option OrderLine
existing_line offer_id existing = find (λ l. l.commercial_offer_id) offer_id existing

-- The stored lines whose offer comes again, with the new quantity.
unfoldable pub retained_lines :
    List OrderLine → List (ℕ × ResolvedOrderLine) → Result (List OrderLine)
unfolding find
retained_lines existing [] = ok []
retained_lines existing ((offer_id, line) ∷ incoming) = do
  rest ← retained_lines existing incoming
  elim (existing_line offer_id existing) [
    | none ↦ ok rest
    | some l ↦
        if is_nonpositive line.quantity_in_units
        then err integrity_error
        else ok (
            record l {
              quantity = pos_part line.quantity_in_units;
              unit = stock_unit;
              quantity_in_units = pos_part line.quantity_in_units;
            }
            ∷ rest)
  ]

-- The new lines whose offer no stored line has.
unfoldable pub added_lines : List OrderLine → List (ℕ × ResolvedOrderLine) → List ResolvedOrderLine
unfolding find
added_lines existing [] = []
added_lines existing ((offer_id, line) ∷ incoming) =
    let rest = added_lines existing incoming in
    elim (existing_line offer_id existing) [ none ↦ line ∷ rest | some l ↦ rest ]

-- `bulk_update` of the three quantity fields
unfoldable pub bulk_update : List OrderLine → List OrderLine → List OrderLine
unfolding find
bulk_update retained = map λ l. elim (find (λ r. r.pk) l.pk retained) [
  | none ↦ l
  | some r ↦ record l {
    quantity = r.quantity;
    unit = r.unit;
    quantity_in_units = r.quantity_in_units;
  }
]

-- The keys of the stored lines whose offer does not come again.
unfoldable pub removed_line_ids : List OrderLine → List (ℕ × ResolvedOrderLine) → List ℕ
unfolding filter contains
removed_line_ids existing incoming =
    map (λ l. l.pk)
      (filter (λ l. not (contains l.commercial_offer_id (map (λ e. e.0) incoming))) existing)

abbrev pub lines_of : Order → Db → List OrderLine
lines_of order db = filter (λ l. order.pk == l.order_id) db.lines
