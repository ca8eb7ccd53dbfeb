-- ===== src/Pricing/Changes.antt =====
-- pricing/services.py: what every change of the offers and of the amounts keeps.
use swedesweets_ops.Prelude.{
  filter, ℕ, ◌+◌, ◌≡◌, refl, sym, ap, ◌∙◌, ◌⊎◌, Bool, true, false, not, inl, inr, arith, Option,
  none, some, [], ◌∷◌, ◌++◌, ok, Option-cases, raise_if, invalid_commercial_price, data_error, ℤ,
}
use mathlib.Core.Path.{subst}
use swedesweets_ops.Prelude.Rows.{find, save, first_where}
use swedesweets_ops.Prelude.Pairs.{first_where-found}
use swedesweets_ops.Pricing.Models.{
  CommercialPrice, ordinary, PriceAmount, Channel, Currency, PriceReason, amount_is_valid,
  same_amount, business, channel_eq,
}
use swedesweets_ops.Pricing.Selectors.{get_product_commercial_price}
use swedesweets_ops.Pricing.Constraints.{
  IsPriced, AreOfferRows-save, AreOfferRows-insert, AreOfferRows-later, AreAmountRows-save,
  AreAmountRows-insert, AreAmountRows-filter, AreAmountRows-later, AreOfferRows, SameScope,
}
use swedesweets_ops.Pricing.Services.{
  create_commercial_price, set_price_amount, remove_price_amount, set_commercial_price_reason,
  set_commercial_price_enabled, ensure_standard_offer, insert_price, insert_row, scope_is_taken,
  amount_row, write_amount, lock_price, full_clean, on_integrity_error, duplicate_exists, new_price,
  validate_amounts, fits_column, get_standard_offer, is_below, save_price,
}
use swedesweets_ops.Database.{
  Db, Action, after_check, get_row-found, >>=-eq-ok, ◌>>=◌, gets, lift, modify, pure, raise,
}

insert_price_writes :
    (row : ℕ → CommercialPrice) (p : CommercialPrice) (db db' : Db)
    → insert_price row db ≡ ok (p, db')
    → (p ≡ row db.next_pk) × (scope_is_taken p db.prices ≡ false) × (db' ≡ insert_row p db)
unfolding insert_price
insert_price_writes row p db db' e = ground arith

insert_price-IsPriced :
    (row : ℕ → CommercialPrice) (p : CommercialPrice) (db db' : Db)
    → ((n : ℕ) → (row n).pk ≡ n)
    → IsPriced db
    → insert_price row db ≡ ok (p, db')
    → IsPriced db'
insert_price-IsPriced row p db db' keyed h e =
    let (made, free, written) = insert_price_writes row p db db' e in
    let here : p.pk ≡ db.next_pk = ap (λ (q : CommercialPrice). q.pk) made ∙ keyed db.next_pk in
    rw written (
      subst (λ n. AreOfferRows (n + 1) (db.prices ++ p ∷ [])) here
          (AreOfferRows-insert p db.prices free
            (subst (λ n. AreOfferRows n db.prices) (sym here) h.0)),
      AreAmountRows-later db.next_pk db.amounts h.1,
    )

on_integrity_error-ok :
    {A : Type 0} (action handler : Action A) (db : Db) {r : A × Db}
    → on_integrity_error action handler db ≡ ok r
    → (action db ≡ ok r) ⊎ (handler db ≡ ok r)
unfolding on_integrity_error
on_integrity_error-ok action handler db e = ground arith

lock_price_reads :
    (k : ℕ) (p : CommercialPrice) (db mid : Db)
    → lock_price k db ≡ ok (p, mid)
    → (find (λ (p : CommercialPrice). p.pk) k db.prices ≡ some p) × (p.pk ≡ k) × (mid ≡ db)
unfolding lock_price
lock_price_reads k p db mid e =
    get_row-found (λ db. db.prices) (λ (p : CommercialPrice). p.pk) k db e

valid_amount :
    (price_pk : ℕ) (currency : Currency) (price : ℤ) (original : Option ℤ) (pk : ℕ)
    → validate_amounts price original ≡ ok tt
    → amount_is_valid (amount_row price_pk currency price original pk) ≡ true
unfolding validate_amounts amount_is_valid amount_row is_below
valid_amount price_pk currency price original pk e = ground arith

set_amount_writes :
    (k : ℕ) (currency : Currency) (price : ℤ) (original : Option ℤ) (db db' : Db)
    → set_price_amount k currency price original db ≡ ok (tt, db')
    → (validate_amounts price original ≡ ok tt)
      × (db' ≡ write_amount (amount_row k currency price original) k currency db)
unfolding set_price_amount
set_amount_writes k currency price original db db' e =
    let write = λ (p : CommercialPrice).
      modify (write_amount (amount_row p.pk currency price original) p.pk currency) in
    let check = λ (p : CommercialPrice).
      lift (raise_if (not (fits_column price original)) data_error) >>= λ _. write p in
    let (p, mid, read, rest) =
      >>=-eq-ok (lock_price k) (λ p. lift (validate_amounts price original) >>= λ _. check p) db
        e in
    let (found, key, same) = lock_price_reads k p db mid read in
    let (valid, more) = after_check (validate_amounts price original) (check p) mid rest in
    let (fits, last) =
      after_check (raise_if (not (fits_column price original)) data_error) (write p) mid more in
    (valid, ground (arith, last, same, key))

write_amount-IsPriced :
    (k : ℕ) (currency : Currency) (price : ℤ) (original : Option ℤ) (db : Db)
    → IsPriced db
    → validate_amounts price original ≡ ok tt
    → IsPriced (write_amount (amount_row k currency price original) k currency db)
unfolding write_amount
write_amount-IsPriced k currency price original db h valid =
    let row = amount_row k currency price original in
    elim (Option-cases (first_where (same_amount k currency) db.amounts)) [
      | inl absent ↦
          rw (write_amount, absent)
            (
              AreOfferRows-later db.next_pk db.prices h.0,
              unfold amount_row in
                  AreAmountRows-insert (row db.next_pk) db.amounts absent
                    (valid_amount k currency price original db.next_pk valid) h.1,
            )
      | inr (a, present) ↦
          let (hit, found) =
            first_where-found (λ b. b.pk) (same_amount k currency) db.amounts {a = a} h.1.1
              present in
          rw (write_amount, present)
            (
              h.0,
              unfold amount_row in
                  AreAmountRows-save (row a.pk) a db.next_pk db.amounts found
                    (unfold same_amount in ground arith)
                    (valid_amount k currency price original a.pk valid) h.1,
            )
    ]

-- An offer that is changed but for its scope, and stored.
rewrite-IsPriced :
    (k : ℕ) (change : CommercialPrice → CommercialPrice) (p : CommercialPrice) (db : Db)
    → ((q : CommercialPrice) → SameScope q (change q))
    → find (λ (q : CommercialPrice). q.pk) k db.prices ≡ some p
    → p.pk ≡ k
    → IsPriced db
    → IsPriced (record db { prices = save (λ q. q.pk) (change p) db.prices })
rewrite-IsPriced k change p db same found key h =
    let here : k ≡ (change p).pk = sym ((same p).0 ∙ key) in
    (
      AreOfferRows-save (change p) p db.next_pk db.prices
          (subst (λ n. find (λ (q : CommercialPrice). q.pk) n db.prices ≡ some p) here found)
          (same p) h.0,
      h.1,
    )

set_reason-IsPriced :
    (k : ℕ) (reason : PriceReason) (p : CommercialPrice) (db db' : Db)
    → set_commercial_price_reason k reason db ≡ ok (p, db')
    → IsPriced db
    → IsPriced db'
unfolding set_commercial_price_reason save_price
set_reason-IsPriced k reason p db db' e h =
    let change = λ (q : CommercialPrice). record q { reason = reason } in
    let finish = λ (q : CommercialPrice). save_price (change q) >>= λ _. pure (change q) in
    let (q, mid, read, rest) =
      >>=-eq-ok (lock_price k) (λ q. gets (full_clean (change q)) >>= λ c. lift c >>= λ _. finish q)
        db e in
    let (found, key, same) = lock_price_reads k q db mid read in
    let (cleaned, last) = after_check (full_clean (change q) mid) (finish q) mid rest in
    let written : db' ≡ record db { prices = save (λ q. q.pk) (change q) db.prices } =
      ground (arith, last, same) in
    rw written (rewrite-IsPriced k change q db (λ q. (refl, refl, refl, refl)) found key h)

set_enabled-IsPriced :
    (k : ℕ) (enabled : Bool) (p : CommercialPrice) (db db' : Db)
    → set_commercial_price_enabled k enabled db ≡ ok (p, db')
    → IsPriced db
    → IsPriced db'
unfolding set_commercial_price_enabled save_price
set_enabled-IsPriced k enabled p db db' e h =
    let change = λ (q : CommercialPrice). record q { enabled = enabled } in
    let finish = λ (q : CommercialPrice). save_price (change q) >>= λ _. pure (change q) in
    let (q, mid, read, rest) = >>=-eq-ok (lock_price k) finish db e in
    let (found, key, same) = lock_price_reads k q db mid read in
    let written : db' ≡ record db { prices = save (λ q. q.pk) (change q) db.prices } =
      ground (arith, rest, same) in
    rw written (rewrite-IsPriced k change q db (λ q. (refl, refl, refl, refl)) found key h)

remove-IsPriced :
    (k : ℕ) (currency : Currency) (db db' : Db)
    → remove_price_amount k currency db ≡ ok (tt, db')
    → IsPriced db
    → IsPriced db'
unfolding remove_price_amount
remove-IsPriced k currency db db' e h =
    let kept = λ (a : PriceAmount). not (same_amount k currency a) in
    let (q, mid, read, rest) =
      >>=-eq-ok (lock_price k)
        (λ p.
          modify λ db. record db {
            amounts = filter (λ a. not (same_amount p.pk currency a)) db.amounts;
          })
        db e in
    let (found, key, same) = lock_price_reads k q db mid read in
    let written : db' ≡ record db { amounts = filter kept db.amounts } =
      ground (arith, rest, same, key) in
    rw written (h.0, AreAmountRows-filter kept db.next_pk db.amounts h.1)

create-IsPriced :
    (product : ℕ) (channel : Channel) (batch : Option ℕ) (reason : PriceReason)
    (p : CommercialPrice) (db db' : Db)
    → create_commercial_price product channel batch reason db ≡ ok (p, db')
    → IsPriced db
    → IsPriced db'
unfolding create_commercial_price
create-IsPriced product channel batch reason p db db' e h =
    let row = new_price product batch channel reason false in
    let finish = on_integrity_error (insert_price row) (raise invalid_commercial_price) in
    let (fresh, more) =
      after_check (raise_if (duplicate_exists product batch channel db) invalid_commercial_price)
        (gets (λ db. db.next_pk) >>= λ pk.
          gets (full_clean (row pk)) >>= λ c. lift c >>= λ _. finish)
        db e in
    let (cleaned, last) = after_check (full_clean (row db.next_pk) db) finish db more in
    elim (on_integrity_error-ok (insert_price row) (raise invalid_commercial_price) db last) [
      | inl made ↦ insert_price-IsPriced row p db db' (λ n. refl) h made
      | inr raised ↦ absurd cc
    ]

ensure-IsPriced :
    (product : ℕ) (channel : Channel) (p : CommercialPrice) (db db' : Db)
    → ensure_standard_offer product channel db ≡ ok (p, db')
    → IsPriced db
    → IsPriced db'
unfolding ensure_standard_offer
ensure-IsPriced product channel p db db' e h =
    let row = new_price product none channel ordinary true in
    let create = on_integrity_error (insert_price row) (get_standard_offer product channel) in
    let wrong = raise_if (not (channel_eq channel business)) invalid_commercial_price in
    let answer : Option CommercialPrice → Action CommercialPrice =
      λ existing. elim existing [ some q ↦ pure q | none ↦ create ] in
    let (right, more) =
      after_check wrong (gets (get_product_commercial_price product channel) >>= answer) db e in
    elim (Option-cases (get_product_commercial_price product channel db)) [
      | inl absent ↦
          let made : create db ≡ ok (p, db') = ground (arith, more, absent) in
          elim (on_integrity_error-ok (insert_price row) (get_standard_offer product channel) db
            made) [
              | inl inserted ↦ insert_price-IsPriced row p db db' (λ n. refl) h inserted
              | inr read ↦
                  let same : db' ≡ db = unfold get_standard_offer in ground (arith, read) in
                  rw same h
            ]
      | inr (q, present) ↦ let same : db' ≡ db = ground (arith, more, present) in rw same h
    ]

-- One call of a service that changes the offers or their amounts.
pub data PricingStep (db : Db) : Db → Type 0 where
  creates :
      {db' : Db} (product : ℕ) (channel : Channel) (batch : Option ℕ) (reason : PriceReason)
      (p : CommercialPrice)
      → create_commercial_price product channel batch reason db ≡ ok (p, db')
      → PricingStep db db'
  sets_amount :
      {db' : Db} (k : ℕ) (currency : Currency) (price : ℤ) (original : Option ℤ)
      → set_price_amount k currency price original db ≡ ok (tt, db')
      → PricingStep db db'
  removes_amount :
      {db' : Db} (k : ℕ) (currency : Currency)
      → remove_price_amount k currency db ≡ ok (tt, db')
      → PricingStep db db'
  sets_reason :
      {db' : Db} (k : ℕ) (reason : PriceReason) (p : CommercialPrice)
      → set_commercial_price_reason k reason db ≡ ok (p, db')
      → PricingStep db db'
  sets_enabled :
      {db' : Db} (k : ℕ) (enabled : Bool) (p : CommercialPrice)
      → set_commercial_price_enabled k enabled db ≡ ok (p, db')
      → PricingStep db db'
  ensures :
      {db' : Db} (product : ℕ) (channel : Channel) (p : CommercialPrice)
      → ensure_standard_offer product channel db ≡ ok (p, db')
      → PricingStep db db'

pub data PricingHistory (db : Db) : Db → Type 0 where
  unchanged : PricingHistory db db
  then_changed :
      {mid db' : Db} → PricingHistory db mid → PricingStep mid db' → PricingHistory db db'

PricingStep-IsPriced : {db db' : Db} → PricingStep db db' → IsPriced db → IsPriced db'
PricingStep-IsPriced {db} {db'} (creates product channel batch reason p e) h =
    create-IsPriced product channel batch reason p db db' e h
PricingStep-IsPriced {db} {db'} (sets_amount k currency price original e) h =
    let (valid, written) = set_amount_writes k currency price original db db' e in
    rw written (write_amount-IsPriced k currency price original db h valid)
PricingStep-IsPriced {db} {db'} (removes_amount k currency e) h =
    remove-IsPriced k currency db db' e h
PricingStep-IsPriced {db} {db'} (sets_reason k reason p e) h =
    set_reason-IsPriced k reason p db db' e h
PricingStep-IsPriced {db} {db'} (sets_enabled k enabled p e) h =
    set_enabled-IsPriced k enabled p db db' e h
PricingStep-IsPriced {db} {db'} (ensures product channel p e) h =
    ensure-IsPriced product channel p db db' e h

-- If the offers and amounts satisfy the constraints of their tables, namely that no two offers have
-- one scope, no offer has two amounts in a currency, and every amount is positive and not above its
-- original price, with distinct keys below the next one, then they do after any history of calls of
-- the pricing services.
pub PricingHistory-IsPriced : {db db' : Db} → PricingHistory db db' → IsPriced db → IsPriced db'
PricingHistory-IsPriced unchanged h = h
PricingHistory-IsPriced (then_changed past now) h =
    PricingStep-IsPriced now (PricingHistory-IsPriced past h)
