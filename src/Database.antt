-- ===== src/Database.antt =====
-- The database as the program sees it: a list of rows for each table, in the order of their keys.
-- An operation runs in one transaction: it gives a result and the new rows, or an exception, after
-- which the rows are what they were.
use swedesweets_ops.Prelude.{
  ◌≡◌, ◌⊎◌, refl, Option-cases, inl, inr, arith, ℕ, List, none, some, Result, ok, err, Error,
  does_not_exist,
}
use swedesweets_ops.Prelude.Rows.{find, find-key}
use swedesweets_ops.Inventory.Models.{InventoryBatch}
use swedesweets_ops.Orders.Models.{Order, OrderLine}
use swedesweets_ops.Reservations.Models.{Allocation}
use swedesweets_ops.Payments.Models.{PaymentAttempt}
use swedesweets_ops.Products.Models.{Product}
use swedesweets_ops.Customers.Models.{Customer}
use swedesweets_ops.Pricing.Models.{CommercialPrice, PriceAmount}
use swedesweets_ops.Retail.Models.{
  RetailPostalArea, RetailCart, RetailCartLine, RetailCheckoutSession, OfferSelection,
}

-- `next_pk` is the next value of the key sequence, which the tables share here.
pub record Db : Type 0 where
  pub batches : List InventoryBatch
  pub orders : List Order
  pub lines : List OrderLine
  pub allocations : List Allocation
  pub attempts : List PaymentAttempt
  pub checkouts : List RetailCheckoutSession
  pub selections : List OfferSelection
  pub products : List Product
  pub prices : List CommercialPrice
  pub amounts : List PriceAmount
  pub areas : List RetailPostalArea
  pub carts : List RetailCart
  pub cart_lines : List RetailCartLine
  pub customers : List Customer
  pub next_pk : ℕ

abbrev pub Action : Type 0 → Type 0
Action A = Db → Result (A × Db)

abbrev pub ⊤ : Type 0
⊤ = Unit

module _ {A : Type 0} where
  abbrev pub pure : A → Action A
  pure a db = ok (a, db)

  abbrev pub raise : Error → Action A
  raise e db = err e

  -- A computation that reads and writes no row.
  abbrev pub lift : Result A → Action A
  lift (ok a) db = ok (a, db)
  lift (err e) db = err e

  abbrev pub gets : (Db → A) → Action A
  gets f db = ok (f db, db)

abbrev pub modify : (Db → Db) → Action ⊤
modify f db = ok (tt, f db)

-- An action goes on with the rows that the one before it left.
abbrev pub bind_run : {A B : Type 0} → Result (A × Db) → (A → Action B) → Result (B × Db)
bind_run (ok (a, db)) f = f a db
bind_run (err e) f = err e

infixl 5 ◌>>=◌ ◌>>◌
abbrev pub ◌>>=◌ : {A B : Type 0} → Action A → (A → Action B) → Action B
◌>>=◌ m f db = bind_run (m db) f

abbrev pub ◌>>◌ : {A B : Type 0} → Action A → Action B → Action B
m >> k = m >>= λ _. k

-- A sequence of transactions, between which other requests may run: a result or an exception, and
-- the rows as they are then. What has been committed stays when something raises later.
abbrev pub Process : Type 0 → Type 0
Process A = Db → Result A × Db

-- What a transaction commits, when it began with the given rows.
abbrev pub committed : {A : Type 0} → Db → Result (A × Db) → Result A × Db
committed db (ok r) = (ok r.0, r.1)
committed db (err e) = (err e, db)

-- One transaction; an exception rolls it back.
abbrev pub run_atomic : {A : Type 0} → Action A → Process A
run_atomic action db = committed db (action db)

-- A process goes on with the rows as they are; an exception ends it there.
abbrev pub continue_run : {A B : Type 0} → Result A × Db → (A → Process B) → Result B × Db
continue_run (ok a, db) f = f a db
continue_run (err e, db) f = (err e, db)

abbrev pub then_run : {A B : Type 0} → Process A → (A → Process B) → Process B
then_run p f db = continue_run (p db) f

-- What a successful sequence of two actions consists of.
pub >>=-eq-ok :
    {A B : Type 0} (m : Action A) (f : A → Action B) (db : Db) {r : B × Db}
    → (m >>= f) db ≡ ok r
    → (a : A) × (mid : Db) × (m db ≡ ok (a, mid)) × (f a mid ≡ ok r)
>>=-eq-ok {A} {B} m f db h = split_run (m db) h
  where
    split_run :
        (run : Result (A × Db)) {r : B × Db}
        → bind_run run f ≡ ok r
        → (a : A) × (mid : Db) × (run ≡ ok (a, mid)) × (f a mid ≡ ok r)
    split_run (ok (a, mid)) h = (a, mid, refl, h)
    split_run (err e) h = cc

pub modify-eq-ok : (f : Db → Db) (db : Db) {db' : Db} → modify f db ≡ ok (tt, db') → db' ≡ f db
modify-eq-ok f db h = ground arith

pub lift_then :
    {A B : Type 0} (r : Result A) (f : A → Action B) (db : Db) {x : B × Db}
    → (lift r >>= f) db ≡ ok x
    → (a : A) × (r ≡ ok a) × (f a db ≡ ok x)
lift_then (ok a) f db h = (a, refl, h)
lift_then (err e) f db h = cc

-- After a check that passed, the rest has run on the same rows.
pub after_check :
    {B : Type 0} (r : Result ⊤) (m : Action B) (db : Db) {x : B × Db}
    → (lift r >>= λ _. m) db ≡ ok x
    → (r ≡ ok tt) × (m db ≡ ok x)
after_check (ok u) m db h = (refl, h)
after_check (err e) m db h = cc

-- A computation on the rows whose result is then written.
pub compute_write :
    {A : Type 0} (compute : Db → Result A) (write : A → Db → Db) (db : Db) {db' : Db}
    → (gets compute >>= λ r. lift r >>= λ a. modify (write a)) db ≡ ok (tt, db')
    → (a : A) × (compute db ≡ ok a) × (db' ≡ write a db)
compute_write compute write db h =
    let (a, made, written) = lift_then (compute db) (λ a. modify (write a)) db h in
    (a, made, modify-eq-ok (write a) db written)

-- `.get(pk=k)`
unfoldable pub get_row {ℓ} : {A : Type ℓ} → (A → ℕ) → ℕ → List A → Result A
unfolding find
get_row key k rows = elim (find key k rows) [ none ↦ err does_not_exist | some a ↦ ok a ]

-- A computed row that is written and returned.
pub lift_save :
    {A : Type 0} (r : Result A) (write : A → Db → Db) (db : Db) {a : A} {db' : Db}
    → (lift r >>= λ a. modify (write a) >>= λ _. pure a) db ≡ ok (a, db')
    → (r ≡ ok a) × (db' ≡ write a db)
lift_save (ok a) write db h = ground arith
lift_save (err e) write db h = cc

-- A row that was read by its key is stored under it, and reading changes nothing.
pub get_row-found :
    {A : Type 0} (table : Db → List A) (key : A → ℕ) (k : ℕ) (db : Db) {a : A} {mid : Db}
    → (gets (λ db. get_row key k (table db)) >>= lift) db ≡ ok (a, mid)
    → (find key k (table db) ≡ some a) × (key a ≡ k) × (mid ≡ db)
unfolding get_row
get_row-found table key k db {a} h = elim (Option-cases (find key k (table db))) [
  | inl absent ↦ absurd (ground arith)
  | inr (b, found) ↦ (ground arith, ground (arith, find-key key k (table db) {a = a}), ground arith)
]

-- What a transaction gives and what it leaves.
pub run_atomic-ok :
    {A : Type 0} (m : Action A) (db d : Db) {a : A} → run_atomic m db ≡ (ok a, d) → m db ≡ ok (a, d)
run_atomic-ok {A} m db d {a} e = from_run (m db) e
  where
    from_run : (run : Result (A × Db)) → committed db run ≡ (ok a, d) → run ≡ ok (a, d)
    from_run (ok r) e = ground arith
    from_run (err x) e = absurd (ground arith)

pub run_atomic-err :
    {A : Type 0} (m : Action A) (db d : Db) {x : Error} → run_atomic m db ≡ (err x, d) → d ≡ db
run_atomic-err {A} m db d {x} e = from_run (m db) e
  where
    from_run : (run : Result (A × Db)) → committed db run ≡ (err x, d) → d ≡ db
    from_run (ok r) e = absurd (ground arith)
    from_run (err y) e = ground arith

-- What a process that gives a value, or raises, consists of.
pub then_run-ok :
    {A B : Type 0} (p : Process A) (f : A → Process B) (db d : Db) {b : B}
    → then_run p f db ≡ (ok b, d)
    → (a : A) × (mid : Db) × (p db ≡ (ok a, mid)) × (f a mid ≡ (ok b, d))
then_run-ok {A} {B} p f db d {b} e = from_run (p db) e
  where
    from_run :
        (run : Result A × Db)
        → continue_run run f ≡ (ok b, d)
        → (a : A) × (mid : Db) × (run ≡ (ok a, mid)) × (f a mid ≡ (ok b, d))
    from_run (ok a, mid) e = (a, mid, refl, e)
    from_run (err x, mid) e = absurd (ground arith)

pub then_run-err :
    {A B : Type 0} (p : Process A) (f : A → Process B) (db d : Db) {x : Error}
    → then_run p f db ≡ (err x, d)
    → (p db ≡ (err x, d)) ⊎ ((a : A) × (mid : Db) × (p db ≡ (ok a, mid)) × (f a mid ≡ (err x, d)))
then_run-err {A} {B} p f db d {x} e = from_run (p db) e
  where
    from_run :
        (run : Result A × Db)
        → continue_run run f ≡ (err x, d)
        → (run ≡ (err x, d)) ⊎ ((a : A) × (mid : Db) × (run ≡ (ok a, mid)) × (f a mid ≡ (err x, d)))
    from_run (ok a, mid) e = inr (a, mid, refl, e)
    from_run (err y, mid) e = inl (ground arith)
