-- ===== src/Customers/Services.antt =====
-- customers/services.py: customers with unique normalised e-mail addresses.
use swedesweets_ops.Prelude.{
  ltb, length, data_error, ℕ, ◌+◌, true, Bool, not, ◌&&◌, Option, none, some, [], ◌∷◌, ◌++◌, ◌==◌,
  any, Result, raise_if, invalid_customer_data, integrity_error,
}
use swedesweets_ops.Prelude.Rows.{save}
use swedesweets_ops.Prelude.Texts.{Text, text_eq}
use swedesweets_ops.Customers.Models.{
  max_email_length, Customer, contact_fields, normalize_customer_email, save_customer,
  mark_customer_as_created, mark_customer_as_edited, deactivate, reactivate,
}
use swedesweets_ops.Pricing.Services.{on_integrity_error}
use swedesweets_ops.Database.{Db, Action, ⊤, pure, raise, gets, lift, modify, get_row, ◌>>=◌, ◌>>◌}

-- The contact data that a service is called with.
pub record ContactInput : Type 0 where
  pub name : Text
  pub email : Text
  pub phone_number : Text
  pub country : Text
  pub city : Text
  pub address_line : Text

-- Another customer has the e-mail address, apart from an excluded one.
unfoldable pub email_is_taken : Text → Option ℕ → Db → Bool
unfolding any text_eq
email_is_taken email exclude db =
    any (λ c. text_eq c.email email && elim exclude [ none ↦ true | some k ↦ not (c.pk == k) ])
      db.customers

-- `_ensure_customer_email_is_available`
unfoldable pub ensure_customer_email_is_available : Text → Option ℕ → Db → Result ⊤
unfolding email_is_taken
ensure_customer_email_is_available email exclude db =
    raise_if (email_is_taken email exclude db) invalid_customer_data

unfoldable pub lock_customer : ℕ → Action Customer
unfolding get_row
lock_customer customer_pk = do
  row ← gets (λ db. get_row (λ (c : Customer). c.pk) customer_pk db.customers)
  lift row

abbrev pub insert_row : Customer → Db → Db
insert_row c db = record db { customers = db.customers ++ c ∷ []; next_pk = db.next_pk + 1 }

abbrev pub write_customer : Customer → Db → Db
write_customer c db = record db { customers = save (λ d. d.pk) c db.customers }

abbrev pub new_customer : ContactInput → Text → ℕ → Customer
new_customer i email pk = record {
  pk = pk;
  name = i.name;
  email = email;
  phone_number = i.phone_number;
  country = i.country;
  city = i.city;
  address_line = i.address_line;
  is_active = true;
  edited_at = none;
  activated_at = none;
  deactivated_at = none;
  created_by = none;
  edited_by = none;
  activated_by = none;
  deactivated_by = none;
}

-- The column of the e-mail address holds so many characters; the other texts are checked before.
unfoldable pub require_email_fits : Customer → Result ⊤
require_email_fits c = raise_if (ltb max_email_length (length c.email)) data_error

-- `Customer.objects.create(…)`, under the unique constraint of the e-mail address
unfoldable pub insert_customer : (ℕ → Customer) → Action Customer
unfolding save_customer require_email_fits email_is_taken
insert_customer row = do
  pk ← gets (λ db. db.next_pk)
  c ← lift (save_customer contact_fields (row pk))
  lift (require_email_fits c)
  taken ← gets (email_is_taken c.email none)
  lift (raise_if taken integrity_error)
  modify (insert_row c)
  pure c

unfoldable pub create_customer : Option ℕ → ℕ → ContactInput → Action Customer
unfolding normalize_customer_email ensure_customer_email_is_available insert_customer
    on_integrity_error mark_customer_as_created save
create_customer user now i = do
  email ← lift (normalize_customer_email i.email)
  available ← gets (ensure_customer_email_is_available email none)
  lift available
  c ← on_integrity_error (insert_customer (new_customer i email)) (raise invalid_customer_data)
  c' ← lift (mark_customer_as_created user now c)
  modify (write_customer c')
  pure c'

-- A changed row is stored, under the unique constraint of the e-mail address.
unfoldable pub store_customer : Customer → Action Customer
unfolding save_customer require_email_fits email_is_taken save
store_customer changed = do
  c ← lift (save_customer contact_fields changed)
  lift (require_email_fits c)
  taken ← gets (email_is_taken c.email (some c.pk))
  lift (raise_if taken integrity_error)
  modify (write_customer c)
  pure c

abbrev pub with_contact : ContactInput → Text → Customer → Customer
with_contact i email c = record c {
  name = i.name;
  email = email;
  phone_number = i.phone_number;
  country = i.country;
  city = i.city;
  address_line = i.address_line;
}

unfoldable pub update_customer : Option ℕ → ℕ → ContactInput → ℕ → Action Customer
unfolding lock_customer normalize_customer_email ensure_customer_email_is_available store_customer
    on_integrity_error mark_customer_as_edited save
update_customer user now i customer_pk = do
  c ← lock_customer customer_pk
  email ← lift (normalize_customer_email i.email)
  available ← gets (ensure_customer_email_is_available email (some c.pk))
  lift available
  changed ←
      on_integrity_error (store_customer (with_contact i email c)) (raise invalid_customer_data)
  c' ← lift (mark_customer_as_edited user now changed)
  modify (write_customer c')
  pure c'

unfoldable pub deactivate_customer : Option ℕ → ℕ → ℕ → Action Customer
unfolding lock_customer deactivate save
deactivate_customer user now customer_pk = do
  c ← lock_customer customer_pk
  c' ← lift (deactivate user now c)
  modify (write_customer c')
  pure c'

unfoldable pub reactivate_customer : Option ℕ → ℕ → ℕ → Action Customer
unfolding lock_customer reactivate save
reactivate_customer user now customer_pk = do
  c ← lock_customer customer_pk
  c' ← lift (reactivate user now c)
  modify (write_customer c')
  pure c'
