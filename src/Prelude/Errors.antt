-- ===== src/Prelude/Errors.antt =====
-- The exceptions that the program raises, and computations that may raise one.
use Prim.Native.Nat.{ℕ}
use mathlib.Core.Path.{◌≡◌, refl}
use mathlib.Core.Bool.{Bool, true, false}
use mathlib.Core.Option.{Option, none, some}

-- One constructor for each exception class; the message is left out, and numbers that an
-- exception carries are kept.
pub data Error : Type 0 where
  does_not_exist : Error
  key_error : Error
  integrity_error : Error
  invalid_order_operation : Error
  invalid_order_status_transition : Error
  invalid_stock_operation : Error
  invalid_batch_status_transition : Error
  invalid_allocation_status_transition : Error
  invalid_reservation_plan : Error
  -- requested, available and missing quantity
  insufficient_reservation_capacity : ℕ → ℕ → ℕ → Error
  invalid_reservation_pool : Error
  missing_reservations : Error
  invalid_payment_attempt : Error
  payment_reconciliation_conflict : Error
  invalid_retail_cart : Error
  invalid_retail_order : Error
  insufficient_stock : ℕ → ℕ → ℕ → Error
  invalid_commercial_price : Error
  invalid_product_data : Error
  invalid_customer_data : Error
  account_creation_error : Error
  provider_error : Error
  -- a value that a database column cannot hold
  data_error : Error
  runtime_error : Error

pub data Result {ℓ} (A : Type ℓ) : Type ℓ where
  ok : A → Result A
  err : Error → Result A

infixl 5 ◌>>=◌ ◌>>◌
-- The rest of a computation runs on its value, and an exception ends it.
abbrev pub ◌>>=◌ {ℓ κ} : {X : Type ℓ} {Y : Type κ} → Result X → (X → Result Y) → Result Y
err raised >>= rest = err raised
ok value >>= rest = rest value

-- A check, and what comes after it.
abbrev pub ◌>>◌ {ℓ} : {Y : Type ℓ} → Result (Unit {0}) → Result Y → Result Y
check >> after = check >>= λ _. after

-- `if test: raise error`
abbrev pub raise_if : Bool → Error → Result (Unit {0})
raise_if true e = err e
raise_if false e = ok tt

abbrev pub or_raise {ℓ} : {A : Type ℓ} → Option A → Error → Result A
or_raise none e = err e
or_raise (some a) e = ok a

-- What a value was found or computed under a case split on its source.
pub some_first {ℓ κ} :
    {A : Type ℓ} {B : Type κ} (o : Option A) (e : Error) (f : A → Result B) {b : B}
    → (elim o [ none ↦ err e | some a ↦ f a ]) ≡ ok b
    → (a : A) × (o ≡ some a) × (f a ≡ ok b)
some_first none e f h = cc
some_first (some a) e f h = (a, refl, h)

pub ok_first {ℓ κ} :
    {A : Type ℓ} {B : Type κ} (r : Result A) (f : A → Result B) {b : B}
    → (elim r [ err e ↦ err e | ok a ↦ f a ]) ≡ ok b
    → (a : A) × (r ≡ ok a) × (f a ≡ ok b)
ok_first (ok a) f h = (a, refl, h)
ok_first (err e) f h = cc

-- `try: … except error` on a named class is written out by its callers.
abbrev pub map_error {ℓ} : {A : Type ℓ} → (Error → Error) → Result A → Result A
map_error g (ok a) = ok a
map_error g (err e) = err (g e)

-- What a sequence that gave a value consists of.
pub >>=-ok {ℓ κ} :
    {X : Type ℓ} {Y : Type κ} (m : Result X) (f : X → Result Y) {y : Y}
    → (m >>= f) ≡ ok y
    → (x : X) × (m ≡ ok x) × (f x ≡ ok y)
>>=-ok (ok x) f e = (x, refl, e)
>>=-ok (err r) f e = cc

pub >>-ok {ℓ} :
    {Y : Type ℓ} (c : Result (Unit {0})) (r : Result Y) {y : Y}
    → (c >> r) ≡ ok y
    → (c ≡ ok tt) × (r ≡ ok y)
>>-ok (ok u) r e = (refl, e)
>>-ok (err x) r e = cc

pub or_raise-ok {ℓ} :
    {A : Type ℓ} (o : Option A) (e : Error) {a : A} → or_raise o e ≡ ok a → o ≡ some a
or_raise-ok none e h = cc
or_raise-ok (some a) e h = cc
