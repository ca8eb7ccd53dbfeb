-- ===== src/Customers/Changes.antt =====
-- customers/services.py: the customers after any history of calls of the services.
use swedesweets_ops.Prelude.{
  ◌≤◌, length, ltb, ℕ, ◌+◌, ◌<◌, ◌≡◌, ◌≢◌, refl, sym, ap, ◌∙◌, inl, inr, arith, true, false, Option,
  none, some, Result, ok, err, All, All-map, Bool-cases, invalid_customer_data, integrity_error,
  raise_if,
}
use mathlib.Core.Path.{subst}
use swedesweets_ops.Prelude.Rows.{find, find-key}
use swedesweets_ops.Prelude.Pairs.{find-All, stored_apart, save-save, save_last}
use swedesweets_ops.Prelude.Texts.{Text, text_eq}
use swedesweets_ops.Customers.Models.{
  max_email_length, Customer, contact_fields, save_customer, normalize_customer_email,
  mark_customer_as_created, mark_customer_as_edited, deactivate, reactivate,
}
use swedesweets_ops.Customers.Services.{
  require_email_fits, ContactInput, email_is_taken, write_customer, insert_row, new_customer,
  insert_customer, lock_customer, store_customer, with_contact, create_customer, update_customer,
  deactivate_customer, reactivate_customer, ensure_customer_email_is_available,
}
use swedesweets_ops.Customers.Registry.{
  IsContact, IsRegistered, IsRegistry, saved-IsContact, free_for, free_for_all, apart_sym,
  write-IsRegistry, insert-IsRegistry,
}
use swedesweets_ops.Pricing.Services.{on_integrity_error}
use swedesweets_ops.Database.{
  Db, Action, pure, raise, gets, lift, modify, get_row-found, after_check, lift_then, lift_save,
  >>=-eq-ok, ◌>>=◌,
}

-- A row that is checked and written, under the unique constraint of the e-mail address.
stores : (Customer → Option ℕ) → (Customer → Db → Db) → Result Customer → Action Customer
stores others write r = lift r >>= λ c. lift (require_email_fits c) >>= λ _.
    gets (email_is_taken c.email (others c)) >>= λ taken.
    lift (raise_if taken integrity_error) >>= λ _. modify (write c) >>= λ _. pure c

stores_writes :
    (others : Customer → Option ℕ) (write : Customer → Db → Db) (r : Result Customer) (c : Customer)
    (db mid : Db)
    → on_integrity_error (stores others write r) (raise invalid_customer_data) db ≡ ok (c, mid)
    → (r ≡ ok c)
      × (length c.email ≤ max_email_length)
      × (email_is_taken c.email (others c) db ≡ false)
      × (mid ≡ write c db)
unfolding on_integrity_error stores require_email_fits
stores_writes others write (err e) c db mid h = absurd (ground arith)
stores_writes others write (ok a) c db mid h =
    elim (Bool-cases (email_is_taken a.email (others a) db)) [
      | inl taken ↦ absurd (ground (arith, taken))
      | inr free ↦ elim (Bool-cases (ltb max_email_length (length a.email))) [
        | inl wide ↦ absurd (ground (arith, wide))
        | inr fits ↦ ground (arith, free, fits)
      ]
    ]

insert_writes :
    (row : ℕ → Customer) (c : Customer) (db mid : Db)
    → on_integrity_error (insert_customer row) (raise invalid_customer_data) db ≡ ok (c, mid)
    → (save_customer contact_fields (row db.next_pk) ≡ ok c)
      × (length c.email ≤ max_email_length)
      × (email_is_taken c.email none db ≡ false)
      × (mid ≡ insert_row c db)
unfolding insert_customer stores on_integrity_error
insert_writes row c db mid e =
    stores_writes (λ c. none) insert_row (save_customer contact_fields (row db.next_pk)) c db mid e

store_writes :
    (changed c : Customer) (db mid : Db)
    → on_integrity_error (store_customer changed) (raise invalid_customer_data) db ≡ ok (c, mid)
    → (save_customer contact_fields changed ≡ ok c)
      × (length c.email ≤ max_email_length)
      × (email_is_taken c.email (some c.pk) db ≡ false)
      × (mid ≡ write_customer c db)
unfolding store_customer stores on_integrity_error
store_writes changed c db mid e =
    stores_writes (λ c. some c.pk) write_customer (save_customer contact_fields changed) c db mid e

lock_customer_reads :
    (k : ℕ) (c : Customer) (db mid : Db)
    → lock_customer k db ≡ ok (c, mid)
    → (find (λ (c : Customer). c.pk) k db.customers ≡ some c) × (c.pk ≡ k) × (mid ≡ db)
unfolding lock_customer
lock_customer_reads k c db mid e =
    get_row-found (λ db. db.customers) (λ (c : Customer). c.pk) k db e

-- The rows that creating a customer writes.
create_writes :
    (user : Option ℕ) (now : ℕ) (i : ContactInput) (c' : Customer) (db db' : Db)
    → create_customer user now i db ≡ ok (c', db')
    → (email : Text) × (c : Customer) × (save_customer contact_fields
          (new_customer i email db.next_pk)
        ≡ ok c)
      × (length c.email ≤ max_email_length)
      × (email_is_taken c.email none db ≡ false)
      × (mark_customer_as_created user now c ≡ ok c')
      × (db' ≡ write_customer c' (insert_row c db))
unfolding create_customer
create_writes user now i c' db db' e =
    let finish : Customer → Action Customer = λ c.
      lift (mark_customer_as_created user now c) >>= λ c'.
      modify (write_customer c') >>= λ _. pure c' in
    let store : Text → Action Customer = λ email.
      on_integrity_error (insert_customer (new_customer i email)) (raise invalid_customer_data) in
    let check : Text → Action Customer = λ email.
      gets (ensure_customer_email_is_available email none) >>= λ free.
      lift free >>= λ _. store email >>= finish in
    let (email, _, e₁) = lift_then (normalize_customer_email i.email) check db e in
    let (_, e₂) =
      after_check (ensure_customer_email_is_available email none db) (store email >>= finish) db
        e₁ in
    let (c, mid, ran, e₃) = >>=-eq-ok (store email) finish db e₂ in
    let (marked, written) = lift_save (mark_customer_as_created user now c) write_customer mid e₃ in
    let (saved, fits, free, stored) = insert_writes (new_customer i email) c db mid ran in
    (email, c, saved, fits, free, marked, ground (arith, written, stored))

-- The rows that updating a customer writes.
update_writes :
    (user : Option ℕ) (now k : ℕ) (i : ContactInput) (c' : Customer) (db db' : Db)
    → update_customer user now i k db ≡ ok (c', db')
    → (old : Customer) × (email : Text) × (c : Customer) × (find
          (λ (c : Customer). c.pk)
          k
          db.customers
        ≡ some old)
      × (old.pk ≡ k)
      × (save_customer contact_fields (with_contact i email old) ≡ ok c)
      × (length c.email ≤ max_email_length)
      × (email_is_taken c.email (some c.pk) db ≡ false)
      × (mark_customer_as_edited user now c ≡ ok c')
      × (db' ≡ write_customer c' (write_customer c db))
unfolding update_customer
update_writes user now k i c' db db' e =
    let finish : Customer → Action Customer = λ c.
      lift (mark_customer_as_edited user now c) >>= λ c'.
      modify (write_customer c') >>= λ _. pure c' in
    let store : Customer → Text → Action Customer = λ old email.
      on_integrity_error (store_customer (with_contact i email old))
        (raise invalid_customer_data) in
    let check : Customer → Text → Action Customer = λ old email.
      gets (ensure_customer_email_is_available email (some old.pk)) >>= λ free.
      lift free >>= λ _. store old email >>= finish in
    let change : Customer → Action Customer =
      λ old. lift (normalize_customer_email i.email) >>= check old in
    let (old, at₀, read, e₀) = >>=-eq-ok (lock_customer k) change db e in
    let (found, key, same) = lock_customer_reads k old db at₀ read in
    let (email, _, e₁) = lift_then (normalize_customer_email i.email) (check old) at₀ e₀ in
    let (_, e₂) =
      after_check (ensure_customer_email_is_available email (some old.pk) at₀)
        (store old email >>= finish) at₀ e₁ in
    let (c, mid, ran, e₃) = >>=-eq-ok (store old email) finish at₀ e₂ in
    let (marked, written) = lift_save (mark_customer_as_edited user now c) write_customer mid e₃ in
    let (saved, fits, free, stored) = store_writes (with_contact i email old) c at₀ mid ran in
    (
      old,
      email,
      c,
      found,
      key,
      saved,
      fits,
      subst (λ at. email_is_taken c.email (some c.pk) at ≡ false) same free,
      marked,
      written ∙ ap (write_customer c') (stored ∙ ap (write_customer c) same),
    )

-- A change of a row that keeps its key, its e-mail address and its registration.
abbrev Keeps : Customer → Customer → Type 0
Keeps c d = (d.pk ≡ c.pk) × (d.email ≡ c.email) × (IsRegistered c → IsRegistered d)

marked_as_created :
    (user : Option ℕ) (now : ℕ) (c d : Customer)
    → mark_customer_as_created user now c ≡ ok d
    → c.is_active ≡ true
    → IsContact c
    → (d.pk ≡ c.pk) × (d.email ≡ c.email) × IsRegistered d
unfolding mark_customer_as_created
marked_as_created user now c d e active contact =
    let made : d ≡ record c { created_by = user; activated_at = some now; activated_by = user } =
      ground arith in
    rw (made, active) (refl, refl, (contact, refl))

edited-Keeps :
    (user : Option ℕ) (now : ℕ) (c d : Customer)
    → mark_customer_as_edited user now c ≡ ok d
    → Keeps c d
unfolding mark_customer_as_edited
edited-Keeps user now c d e =
    let made : d ≡ record c { edited_at = some now; edited_by = user } = ground arith in
    rw made (refl, refl, λ h. h)

deactivate-Keeps :
    (user : Option ℕ) (now : ℕ) (c d : Customer) → deactivate user now c ≡ ok d → Keeps c d
unfolding deactivate
deactivate-Keeps user now c d e = elim (Bool-cases c.is_active) [
  | inl active ↦
      let made : d
          ≡ record c { is_active = false; deactivated_at = some now; deactivated_by = user } =
        ground (arith, active) in
      rw made (refl, refl, λ h. (h.0, refl))
  | inr stopped ↦ let made : d ≡ c = ground (arith, stopped) in rw made (refl, refl, λ h. h)
]

reactivate-Keeps :
    (user : Option ℕ) (now : ℕ) (c d : Customer) → reactivate user now c ≡ ok d → Keeps c d
unfolding reactivate
reactivate-Keeps user now c d e = elim (Bool-cases c.is_active) [
  | inl active ↦ let made : d ≡ c = ground (arith, active) in rw made (refl, refl, λ h. h)
  | inr stopped ↦
      let made : d ≡ record c { is_active = true; activated_at = some now; activated_by = user } =
        ground (arith, stopped) in
      rw made (refl, refl, λ h. (h.0, refl))
]

create-IsRegistry :
    (user : Option ℕ) (now : ℕ) (i : ContactInput) (d : Customer) (db db' : Db)
    → IsRegistry db
    → create_customer user now i db ≡ ok (d, db')
    → IsRegistry db'
create-IsRegistry user now i d db db' h e =
    let (email, c, saved, fits, free, marked, written) = create_writes user now i d db db' e in
    let (contact, key, active, _, _) =
      saved-IsContact (new_customer i email db.next_pk) c saved fits in
    let (same_key, same_email, kept) = marked_as_created user now c d marked active contact in
    let new_key : d.pk ≡ db.next_pk = same_key ∙ key in
    let apart =
      All-map (λ (x : Customer). x.pk < db.next_pk) (λ x. x.pk ≢ d.pk) db.customers
        (λ x low. ground arith) h.2 in
    let stored : db' ≡ insert_row d db =
      written
      ∙ ap (λ rows. record db { customers = rows; next_pk = db.next_pk + 1 })
          (save_last (λ (x : Customer). x.pk) c d db.customers (sym same_key) apart) in
    let unused =
      subst (λ m. All (λ x. text_eq x.email m ≡ false) db.customers) (sym same_email)
        (free_for_all c.email db free) in
    rw stored (insert-IsRegistry d db new_key unused kept h)

update-IsRegistry :
    (user : Option ℕ) (now k : ℕ) (i : ContactInput) (d : Customer) (db db' : Db)
    → IsRegistry db
    → update_customer user now i k db ≡ ok (d, db')
    → IsRegistry db'
update-IsRegistry user now k i d db db' h e =
    let (old, email, c, found, old_key, saved, fits, free, marked, written) =
      update_writes user now k i d db db' e in
    let (contact, key, active, since, until) =
      saved-IsContact (with_contact i email old) c saved fits in
    let (same_key, same_email, keeps) = edited-Keeps user now c d marked in
    let was = find-All IsRegistered (λ c. c.pk) k db.customers {a = old} found h.3 in
    let kept : IsRegistered c = (contact, ground (arith, was.1, active, since, until)) in
    let stored : db' ≡ write_customer d db =
      written
      ∙ ap (λ rows. record db { customers = rows })
          (save-save (λ (x : Customer). x.pk) c d db.customers (sym same_key)) in
    let is_k : k ≡ d.pk = ground arith in
    let unused : All (λ x. x.pk ≢ d.pk → text_eq x.email d.email ≡ false) db.customers =
      subst (λ (x : ℕ × Text). All (λ y. y.pk ≢ x.0 → text_eq y.email x.1 ≡ false) db.customers)
        (λ i. (sym same_key i, sym same_email i)) (free_for c.email c.pk db free) in
    rw stored (
      write-IsRegistry d old db
        (subst (λ n. find (λ (x : Customer). x.pk) n db.customers ≡ some old) is_k found) unused
        (keeps kept) h)

-- A stored customer that is changed without its e-mail address.
keep-IsRegistry :
    (k : ℕ) (c d : Customer) (db : Db)
    → find (λ (c : Customer). c.pk) k db.customers ≡ some c
    → Keeps c d
    → IsRegistry db
    → IsRegistry (write_customer d db)
keep-IsRegistry k c d db found (same_key, same_email, keeps) h =
    let was = find-All IsRegistered (λ c. c.pk) k db.customers {a = c} found h.3 in
    let key = find-key (λ (c : Customer). c.pk) k db.customers {a = c} found in
    let is_k : k ≡ d.pk = ground arith in
    let apart =
      stored_apart (λ (x : Customer). x.pk) (λ x y. text_eq x.email y.email ≡ false) apart_sym k
        db.customers {a = c} found h.0 in
    write-IsRegistry d c db
      (subst (λ n. find (λ (x : Customer). x.pk) n db.customers ≡ some c) is_k found)
      (subst (λ (x : ℕ × Text). All (λ y. y.pk ≢ x.0 → text_eq y.email x.1 ≡ false) db.customers)
        (λ i. (is_k i, sym same_email i)) apart)
      (keeps was) h

-- A stored customer that is read, changed and written.
change-IsRegistry :
    (change : Customer → Result Customer) (k : ℕ) (d : Customer) (db db' : Db)
    → ((c d : Customer) → change c ≡ ok d → Keeps c d)
    → IsRegistry db
    → (lock_customer k >>= λ c. lift (change c) >>= λ d. modify (write_customer d) >>= λ _. pure d)
        db
      ≡ ok (d, db')
    → IsRegistry db'
change-IsRegistry change k d db db' keeps h e =
    let finish : Customer → Action Customer =
      λ c. lift (change c) >>= λ d. modify (write_customer d) >>= λ _. pure d in
    let (c, mid, read, rest) = >>=-eq-ok (lock_customer k) finish db e in
    let (found, _, same) = lock_customer_reads k c db mid read in
    let (made, written) = lift_save (change c) write_customer mid rest in
    let stored : db' ≡ write_customer d db = written ∙ ap (write_customer d) same in
    rw stored (keep-IsRegistry k c d db found (keeps c d made) h)

-- One successful call of a service.
pub data CustomerStep (db : Db) : Db → Type 0 where
  creates :
      {db' : Db} (user : Option ℕ) (now : ℕ) (i : ContactInput) (d : Customer)
      → create_customer user now i db ≡ ok (d, db')
      → CustomerStep db db'
  updates :
      {db' : Db} (user : Option ℕ) (now k : ℕ) (i : ContactInput) (d : Customer)
      → update_customer user now i k db ≡ ok (d, db')
      → CustomerStep db db'
  deactivates :
      {db' : Db} (user : Option ℕ) (now k : ℕ) (d : Customer)
      → deactivate_customer user now k db ≡ ok (d, db')
      → CustomerStep db db'
  reactivates :
      {db' : Db} (user : Option ℕ) (now k : ℕ) (d : Customer)
      → reactivate_customer user now k db ≡ ok (d, db')
      → CustomerStep db db'

pub data CustomerHistory (db : Db) : Db → Type 0 where
  at_start : CustomerHistory db db
  then_step :
      {mid db' : Db} → CustomerHistory db mid → CustomerStep mid db' → CustomerHistory db db'

CustomerStep-IsRegistry : {db db' : Db} → CustomerStep db db' → IsRegistry db → IsRegistry db'
unfolding deactivate_customer reactivate_customer
CustomerStep-IsRegistry {db} {db'} (creates user now i d e) h =
    create-IsRegistry user now i d db db' h e
CustomerStep-IsRegistry {db} {db'} (updates user now k i d e) h =
    update-IsRegistry user now k i d db db' h e
CustomerStep-IsRegistry {db} {db'} (deactivates user now k d e) h =
    change-IsRegistry (deactivate user now) k d db db' (deactivate-Keeps user now) h e
CustomerStep-IsRegistry {db} {db'} (reactivates user now k d e) h =
    change-IsRegistry (reactivate user now) k d db db' (reactivate-Keeps user now) h e

-- If no two customers have one e-mail address, every customer's contact data is present, with a
-- supported country and texts within the limits of their fields, and the instant of the last change
-- of activity is known, with distinct keys below the next one, then this is so after any history of
-- calls of the services.
pub CustomerHistory-IsRegistry :
    {db db' : Db} → CustomerHistory db db' → IsRegistry db → IsRegistry db'
CustomerHistory-IsRegistry at_start h = h
CustomerHistory-IsRegistry (then_step past now) h =
    CustomerStep-IsRegistry now (CustomerHistory-IsRegistry past h)
