-- ===== src/Orders/Locking.antt =====
-- orders/decorators.py: the parts of a successful run of a locked mutation.
use swedesweets_ops.Prelude.{ℕ, ◌≡◌, ◌∙◌, ap, sym, some, Result, ok, arith}
use swedesweets_ops.Prelude.Rows.{find, save}
use swedesweets_ops.Orders.Models.{Order}
use swedesweets_ops.Orders.Contracts.{
  OrderMutationGuard, OrderMutationPreparation, lock_order, locked_order,
}
use swedesweets_ops.Orders.Services.{save_order}
use swedesweets_ops.Database.{
  Db, Action, pure, lift, get_row-found, after_check, lift_then, ◌>>=◌, >>=-eq-ok,
}

-- The order that the mutation works on is stored under the given key and passes the guard, and the
-- mutation has run on the rows as they were.
pub locked_order-runs :
    {A : Type 0} (guard : OrderMutationGuard) (function : Order → Action A) (k : ℕ) (db : Db)
    {r : A × Db}
    → locked_order guard function k db ≡ ok r
    → (o : Order) × (find (λ (o : Order). o.pk) k db.orders ≡ some o)
      × (o.pk ≡ k)
      × (guard o ≡ ok tt)
      × (function o db ≡ ok r)
unfolding locked_order lock_order
locked_order-runs guard function k db e =
    let (o, mid, read, rest) =
      >>=-eq-ok (lock_order k) (λ o. lift (guard o) >>= λ _. function o) db e in
    let (found, key, same) = get_row-found (λ db. db.orders) (λ (o : Order). o.pk) k db read in
    let (passed, ran) = after_check (guard o) (function o) mid rest in
    (o, found, key, passed, ap (function o) (sym same) ∙ ran)

-- A change of the order that follows its preparation.
pub prepared_change-runs :
    (preparation : OrderMutationPreparation) (change : Order → Result Order) (o o' : Order)
    (db db' : Db)
    → (preparation o >>= λ _. lift (change o) >>= λ p. save_order p >>= λ _. pure p) db
      ≡ ok (o', db')
    → (mid : Db) × (preparation o db ≡ ok (tt, mid))
      × (change o ≡ ok o')
      × (db' ≡ record mid { orders = save (λ p. p.pk) o' mid.orders })
unfolding save_order
prepared_change-runs preparation change o o' db db' e =
    let finish = λ (p : Order). save_order p >>= λ _. pure p in
    let (u, mid, prepared, rest) =
      >>=-eq-ok (preparation o) (λ _. lift (change o) >>= finish) db e in
    let (p, changed, saved) = lift_then (change o) finish mid rest in
    (mid, prepared, ground arith, ground arith)
