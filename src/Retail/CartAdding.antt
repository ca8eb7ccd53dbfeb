-- ===== src/Retail/CartAdding.antt =====
-- retail/services.py: add_retail_cart_line, with the line that it merges into or creates.
use swedesweets_ops.Prelude.{
  ℕ, ◌+◌, ◌≤◌, ◌<◌, ◌≡◌, ◌≢◌, sym, ap, false, inl, inr, arith, none, some, List, [], ◌∷◌, ◌==◌,
  if◌then◌else◌, sum_by, sum_by-append, ok, All, All-map, Option-cases, ℤ, pos, negsuc, pos_part,
}
use mathlib.Core.Path.{subst}
use swedesweets_ops.Prelude.Rows.{find, save, first_where}
use swedesweets_ops.Prelude.Pairs.{All-snoc, Pairwise-snoc, first_where-found}
use swedesweets_ops.Pricing.Models.{CommercialPrice, PriceAmount, eur}
use swedesweets_ops.Pricing.Constraints.{fresh_next}
use swedesweets_ops.Retail.Models.{RetailCart, RetailCartLine}
use swedesweets_ops.Retail.Baskets.{
  put, basket, units_of, AreCartLines, SameLine, basket-line, basket-absent, basket-save,
  AreCartLines-save,
}
use swedesweets_ops.Retail.Carts.{
  is_line_for, save_cart_line, with_cart_lines, insert_cart_line, new_cart_line, merge_cart_line,
  create_cart_line, lock_retail_cart, validate_cart_quantity, get_retail_price_and_amount,
  add_or_merge, add_retail_cart_line,
}
use swedesweets_ops.Database.{Db, gets, lift, ◌>>=◌, >>=-eq-ok, after_check, lift_then}
use swedesweets_ops.Retail.CartCommands.{
  adds, apply_command, Refines, lock_cart_reads, valid_quantity, retail_price_found,
}

merge_writes :
    (q : ℤ) (l l' : RetailCartLine) (db db' : Db)
    → 1 ≤ pos_part q
    → merge_cart_line q l db ≡ ok (l', db')
    → (l' ≡ record l { quantity = l.quantity + pos_part q })
      × (l.quantity + pos_part q ≤ 20)
      × (db' ≡ with_cart_lines (save (λ x. x.pk) l' db.cart_lines) db)
unfolding merge_cart_line validate_cart_quantity save_cart_line
merge_writes (pos n) l l' db db' h e = ground arith
merge_writes (negsuc n) l l' db db' h e = absurd (ground arith)

merge-Refines :
    (cart k : ℕ) (q : ℤ) (l l' : RetailCartLine) (db db' : Db)
    → AreCartLines db.next_pk db.cart_lines
    → 1 ≤ pos_part q
    → first_where (is_line_for cart k) db.cart_lines ≡ some l
    → merge_cart_line q l db ≡ ok (l', db')
    → Refines cart (adds k q) db db'
unfolding apply_command
merge-Refines cart k q l l' db db' h positive present e =
    let (made, most, written) = merge_writes q l l' db db' positive e in
    let (hit, stored) =
      first_where-found (λ (x : RetailCartLine). x.pk) (is_line_for cart k) db.cart_lines {a = l}
        h.1 present in
    let found : find (λ (x : RetailCartLine). x.pk) l'.pk db.cart_lines ≡ some l =
      subst (λ n. find (λ (x : RetailCartLine). x.pk) n db.cart_lines ≡ some l)
        (ap (λ (x : RetailCartLine). x.pk) (sym made)) stored in
    let same : SameLine l l' = ground (arith, made) in
    let here : basket cart db.cart_lines k ≡ l.quantity =
      unfold is_line_for in ground (arith, basket-line l db.cart_lines h.0 stored) in
    let merged : (c j : ℕ)
        → basket c (save (λ x. x.pk) l' db.cart_lines) j
          ≡ (if is_line_for c j l then l'.quantity else basket c db.cart_lines j)
        → basket c (save (λ x. x.pk) l' db.cart_lines) j ≡ (
            if c == cart
            then put k (basket c db.cart_lines k + pos_part q) (basket c db.cart_lines) j
            else basket c db.cart_lines j) =
      λ c j total. unfold is_line_for in ground (arith, total, here, hit) in
    rw written (
      AreCartLines-save l' l db.next_pk db.cart_lines found same (ground arith) h,
      λ c j. merged c j (basket-save l' l c j db.cart_lines found same h.0 h.1),
    )

create_line_writes :
    (cart k : ℕ) (q : ℤ) (l : RetailCartLine) (db db' : Db)
    → create_cart_line cart k q db ≡ ok (l, db')
    → db' ≡ insert_cart_line (new_cart_line cart k (pos_part q) db.next_pk) db
unfolding create_cart_line
create_line_writes cart k q l db db' e = ground arith

no_line :
    (c k : ℕ) (rows : List RetailCartLine)
    → first_where (is_line_for c k) rows ≡ none
    → All (λ m. is_line_for c k m ≡ false) rows
unfolding first_where
no_line c k [] e = tt
no_line c k (l ∷ rows) e = (ground arith, no_line c k rows (ground arith))

create-Refines :
    (cart k : ℕ) (q : ℤ) (l : RetailCartLine) (db db' : Db)
    → AreCartLines db.next_pk db.cart_lines
    → (1 ≤ pos_part q) × (pos_part q ≤ 20)
    → first_where (is_line_for cart k) db.cart_lines ≡ none
    → create_cart_line cart k q db ≡ ok (l, db')
    → Refines cart (adds k q) db db'
unfolding apply_command sum_by
create-Refines cart k q l db db' h bounded absent e =
    let new = new_cart_line cart k (pos_part q) db.next_pk in
    let rows = db.cart_lines in
    let none_there = basket-absent cart k rows absent in
    let unrelated =
      All-map (λ m. is_line_for cart k m ≡ false)
        (λ m. is_line_for m.cart_id m.commercial_price_id new ≡ false) rows
        (λ m no. unfold is_line_for in ground arith) (no_line cart k rows absent) in
    rw (create_line_writes cart k q l db db' e) (
      (
        Pairwise-snoc (λ l m. is_line_for l.cart_id l.commercial_price_id m ≡ false) rows new h.0
            unrelated,
        Pairwise-snoc (λ l m. m.pk ≢ l.pk) rows new h.1
            (All-map (λ (m : RetailCartLine). m.pk < db.next_pk) (λ m. db.next_pk ≢ m.pk) rows
              (λ m low. ground arith) h.2),
        All-snoc (λ m. m.pk < db.next_pk + 1) rows new
            (fresh_next (λ (m : RetailCartLine). m.pk) db.next_pk rows h.2) (omega arith),
        All-snoc (λ m. (1 ≤ m.quantity) × (m.quantity ≤ 20)) rows new h.3 bounded,
      ),
      λ c j.
          unfold is_line_for in
          ground (arith, none_there, sum_by-append (units_of c j) rows (new ∷ [])),
    )

add_runs :
    (cart k : ℕ) (q : ℤ) (l : RetailCartLine) (db db' : Db)
    → add_retail_cart_line cart k q db ≡ ok (l, db')
    → (validate_cart_quantity q ≡ ok tt) × (add_or_merge cart k q db ≡ ok (l, db'))
unfolding add_retail_cart_line
add_runs cart k q l db db' e =
    let add = λ (c : RetailCart) (priced : CommercialPrice × PriceAmount).
      add_or_merge c.pk priced.0.pk q in
    let price = λ (c : RetailCart).
      gets (get_retail_price_and_amount k eur) >>= λ priced. lift priced >>= add c in
    let (valid, more) =
      after_check (validate_cart_quantity q) (lock_retail_cart cart >>= price) db e in
    let (c, mid, read, rest) = >>=-eq-ok (lock_retail_cart cart) price db more in
    let (key, same) = lock_cart_reads cart c db mid read in
    let (priced, known, last) =
      lift_then (get_retail_price_and_amount k eur mid) (add c) mid rest in
    let (_, pk_is, _, _, _, _) = retail_price_found k eur priced.0 priced.1 mid known in
    (
      valid,
      subst (λ (x : ℕ × ℕ × Db). add_or_merge x.0 x.1 q x.2 ≡ ok (l, db'))
          (λ i. (key i, pk_is i, same i)) last,
    )

pub add-Refines :
    (cart k : ℕ) (q : ℤ) (l : RetailCartLine) (db db' : Db)
    → AreCartLines db.next_pk db.cart_lines
    → add_retail_cart_line cart k q db ≡ ok (l, db')
    → Refines cart (adds k q) db db'
unfolding add_or_merge
add-Refines cart k q l db db' h e =
    let (valid, added) = add_runs cart k q l db db' e in
    let bounded = valid_quantity q valid in
    elim (Option-cases (first_where (is_line_for cart k) db.cart_lines)) [
      | inl absent ↦
          create-Refines cart k q l db db' h bounded absent (ground (arith, added, absent))
      | inr (m, present) ↦
          merge-Refines cart k q m l db db' h bounded.0 present (ground (arith, added, present))
    ]
