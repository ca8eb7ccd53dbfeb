-- ===== src/Retail/CartRefinement.antt =====
-- retail/services.py: every service on carts does to the basket of the cart what it is meant to do.
use swedesweets_ops.Prelude.{
  ℕ, ◌≤◌, ◌≡◌, refl, not, inl, inr, arith, some, List, ◌==◌, filter, ok, Option-cases, ℤ, pos_part,
}
use swedesweets_ops.Prelude.Rows.{find, save, first_where}
use swedesweets_ops.Prelude.Pairs.{find-All, first_where-found}
use swedesweets_ops.Retail.Models.{RetailCart, RetailCartLine}
use swedesweets_ops.Retail.Baskets.{
  basket, AreCartLines, basket-line, basket-absent, basket-save, basket-delete, basket-clear,
  AreCartLines-save, AreCartLines-filter,
}
use swedesweets_ops.Retail.Carts.{
  is_line_for, save_cart_line, with_cart_lines, lock_retail_cart, get_locked_cart_line,
  validate_cart_quantity, add_retail_cart_line, update_retail_cart_line_quantity,
  remove_retail_cart_line, clear_retail_cart,
}
use swedesweets_ops.Database.{Db, pure, modify, ◌>>=◌, >>=-eq-ok, after_check}
use swedesweets_ops.Retail.CartCommands.{
  CartCommand, adds, updates, removes, clears, run_command, offer_of_line, apply_command, Refines,
  lock_cart_reads, locked_line_reads, valid_quantity,
}
use swedesweets_ops.Retail.CartAdding.{add-Refines}

update-Refines :
    (cart k : ℕ) (q : ℤ) (l : RetailCartLine) (db db' : Db)
    → AreCartLines db.next_pk db.cart_lines
    → update_retail_cart_line_quantity cart k q db ≡ ok (l, db')
    → Refines cart (updates k q) db db'
unfolding update_retail_cart_line_quantity save_cart_line apply_command
update-Refines cart k q l db db' h e =
    let change = λ (m : RetailCartLine). record m { quantity = pos_part q } in
    let finish = λ (m : RetailCartLine). save_cart_line (change m) >>= λ _. pure (change m) in
    let (valid, more) =
      after_check (validate_cart_quantity q)
        (lock_retail_cart cart >>= λ c. get_locked_cart_line c.pk k >>= finish) db e in
    let bounded = valid_quantity q valid in
    let (c, mid, read, rest) =
      >>=-eq-ok (lock_retail_cart cart) (λ c. get_locked_cart_line c.pk k >>= finish) db more in
    let (key, same) = lock_cart_reads cart c db mid read in
    let (m, mid', line_read, last) = >>=-eq-ok (get_locked_cart_line c.pk k) finish mid rest in
    let (found, pk_is, cart_is, same') = locked_line_reads c.pk k m mid mid' line_read in
    let written : db' ≡ with_cart_lines (save (λ x. x.pk) (change m) db.cart_lines) db =
      ground (arith, last, same, same') in
    let stored : find (λ (x : RetailCartLine). x.pk) m.pk db.cart_lines ≡ some m =
      ground (arith, found, pk_is, same) in
    rw written (
      AreCartLines-save (change m) m db.next_pk db.cart_lines stored (refl, refl, refl) bounded h,
      λ c' j.
          unfold is_line_for in
          unfold offer_of_line in
          ground (
            arith,
            basket-save (change m) m c' j db.cart_lines stored (refl, refl, refl) h.0 h.1,
            stored,
            found,
            pk_is,
            cart_is,
            key,
            same,
          ),
    )

remove-Refines :
    (cart k : ℕ) (db db' : Db)
    → AreCartLines db.next_pk db.cart_lines
    → remove_retail_cart_line cart k db ≡ ok (tt, db')
    → Refines cart (removes k) db db'
unfolding remove_retail_cart_line apply_command
remove-Refines cart k db db' h e =
    let finish = λ (m : RetailCartLine).
      modify λ db. with_cart_lines (filter (λ x. not (x.pk == m.pk)) db.cart_lines) db in
    let (c, mid, read, rest) =
      >>=-eq-ok (lock_retail_cart cart) (λ c. get_locked_cart_line c.pk k >>= finish) db e in
    let (key, same) = lock_cart_reads cart c db mid read in
    let (m, mid', line_read, last) = >>=-eq-ok (get_locked_cart_line c.pk k) finish mid rest in
    let (found, pk_is, cart_is, same') = locked_line_reads c.pk k m mid mid' line_read in
    let written : db' ≡ with_cart_lines (filter (λ x. not (x.pk == m.pk)) db.cart_lines) db =
      ground (arith, last, same, same') in
    let stored : find (λ (x : RetailCartLine). x.pk) m.pk db.cart_lines ≡ some m =
      ground (arith, found, pk_is, same) in
    rw written (
      AreCartLines-filter (λ x. not (x.pk == m.pk)) db.next_pk db.cart_lines h,
      λ c' j.
          unfold is_line_for in
          unfold offer_of_line in
          ground (
            arith,
            basket-delete m c' j db.cart_lines stored h.0 h.1,
            stored,
            found,
            pk_is,
            cart_is,
            key,
            same,
          ),
    )

clear-Refines :
    (cart : ℕ) (c : RetailCart) (db db' : Db)
    → AreCartLines db.next_pk db.cart_lines
    → clear_retail_cart cart db ≡ ok (c, db')
    → Refines cart clears db db'
unfolding clear_retail_cart apply_command
clear-Refines cart c db db' h e =
    let (d, mid, read, rest) =
      >>=-eq-ok (lock_retail_cart cart)
        (λ c.
          (modify λ db. with_cart_lines (filter (λ x. not (x.cart_id == c.pk)) db.cart_lines) db)
          >>= λ _. pure c)
        db e in
    let (key, same) = lock_cart_reads cart d db mid read in
    let written : db' ≡ with_cart_lines (filter (λ x. not (x.cart_id == cart)) db.cart_lines) db =
      ground (arith, rest, same, key) in
    rw written (
      AreCartLines-filter (λ x. not (x.cart_id == cart)) db.next_pk db.cart_lines h,
      λ c' j. basket-clear cart c' j db.cart_lines,
    )

command-Refines :
    (cart : ℕ) (command : CartCommand) (db db' : Db)
    → AreCartLines db.next_pk db.cart_lines
    → run_command cart command db ≡ ok (tt, db')
    → Refines cart command db db'
unfolding run_command
command-Refines cart (adds k q) db db' h e =
    let (l, mid, ran, done) = >>=-eq-ok (add_retail_cart_line cart k q) (λ _. pure tt) db e in
    let same : db' ≡ mid = ground (arith, done) in rw same (add-Refines cart k q l db mid h ran)
command-Refines cart (updates k q) db db' h e =
    let (l, mid, ran, done) =
      >>=-eq-ok (update_retail_cart_line_quantity cart k q) (λ _. pure tt) db e in
    let same : db' ≡ mid = ground (arith, done) in rw same (update-Refines cart k q l db mid h ran)
command-Refines cart (removes k) db db' h e = remove-Refines cart k db db' h e
command-Refines cart clears db db' h e =
    let (c, mid, ran, done) = >>=-eq-ok (clear_retail_cart cart) (λ _. pure tt) db e in
    let same : db' ≡ mid = ground (arith, done) in rw same (clear-Refines cart c db mid h ran)

basket-bounds :
    (c k next : ℕ) (rows : List RetailCartLine) → AreCartLines next rows → basket c rows k ≤ 20
basket-bounds c k next rows h = elim (Option-cases (first_where (is_line_for c k) rows)) [
  | inl absent ↦ omega (arith, basket-absent c k rows absent)
  | inr (l, present) ↦
      let (hit, stored) =
        first_where-found (λ (x : RetailCartLine). x.pk) (is_line_for c k) rows {a = l} h.1
          present in
      let most =
        find-All (λ (x : RetailCartLine). (1 ≤ x.quantity) × (x.quantity ≤ 20)) (λ x. x.pk) l.pk
          rows stored h.3 in
      unfold is_line_for in ground (arith, basket-line l rows h.0 stored, most, hit)
]

-- If the stored cart lines satisfy their constraints, namely that an offer has at most one line in a
-- cart, of 1 to 20 units, then they do after any successful service on a cart, and the basket of
-- that cart changes as the service is meant to change it: adding adds units of the offer, updating
-- sets them, removing and clearing take them away. The baskets of all other carts stay the same, and
-- no basket has more than 20 units of an offer.
pub run_command-Refines :
    (cart : ℕ) (command : CartCommand) (db db' : Db)
    → AreCartLines db.next_pk db.cart_lines
    → run_command cart command db ≡ ok (tt, db')
    → Refines cart command db db' × ((c k : ℕ) → basket c db'.cart_lines k ≤ 20)
run_command-Refines cart command db db' h e =
    let refined = command-Refines cart command db db' h e in
    (refined, λ c k. basket-bounds c k db'.next_pk db'.cart_lines refined.0)
