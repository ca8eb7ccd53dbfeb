-- ===== src/Customers/Registry.antt =====
-- customers/services.py: what every change of the customers keeps.
use swedesweets_ops.Prelude.{
  ℕ, ◌+◌, ◌<◌, ◌≤◌, ◌≡◌, ◌≢◌, refl, sym, ◌∙◌, arith, true, false, not, ◌&&◌, none, some, List, [],
  ◌∷◌, ◌==◌, any, is_some, is_empty, length, Result, ok, All, All-map, Pairwise, IsDistinct,
  if◌then◌else◌, filter, ◌>>=◌, >>=-ok,
}
use swedesweets_ops.Prelude.Rows.{find, All-save, find-key}
use swedesweets_ops.Prelude.Pairs.{All-snoc, Pairwise-snoc, find-All, Pairwise-save}
use swedesweets_ops.Pricing.Constraints.{fresh_next}
use swedesweets_ops.Prelude.Texts.{Text, text_eq, squeeze, strip, is_space}
use swedesweets_ops.Customers.Models.{
  Customer, customer_country_codes, bounded_text, normalize_required_text, normalize_customer_name,
  normalize_customer_email, normalize_customer_phone_number, normalize_customer_country,
  normalize_customer_city, normalize_customer_address_line, contact_fields, save_customer,
  max_name_length, max_city_length, max_address_line_length, max_phone_length, max_email_length,
}
use swedesweets_ops.Customers.Services.{email_is_taken, write_customer, insert_row}
use swedesweets_ops.Database.{Db}

abbrev pub IsText : ℕ → Text → Type 0
IsText n t = (is_empty t ≡ false) × (length t ≤ n)

abbrev pub IsContact : Customer → Type 0
IsContact c =
    IsText max_name_length c.name
    × IsText max_email_length c.email
    × IsText max_phone_length c.phone_number
    × (any (text_eq c.country) customer_country_codes ≡ true)
    × IsText max_city_length c.city
    × IsText max_address_line_length c.address_line

bounded-IsText : (n : ℕ) (v t : Text) → bounded_text n v ≡ ok t → IsText n t
unfolding bounded_text
bounded-IsText n v t e = ground arith

required-IsText : (n : ℕ) (v t : Text) → normalize_required_text n v ≡ ok t → IsText n t
unfolding normalize_required_text
required-IsText n v t e = bounded-IsText n (squeeze v) t e

phone-IsText : (v t : Text) → normalize_customer_phone_number v ≡ ok t → IsText max_phone_length t
unfolding normalize_customer_phone_number
phone-IsText v t e =
    bounded-IsText max_phone_length (filter (λ c. not (is_space c) && not (c == b'-')) (strip v)) t
      e

country_known :
    (v t : Text)
    → normalize_customer_country v ≡ ok t
    → any (text_eq t) customer_country_codes ≡ true
unfolding normalize_customer_country
country_known v t e = ground arith

email_present : (v t : Text) → normalize_customer_email v ≡ ok t → is_empty t ≡ false
unfolding normalize_customer_email
email_present v t e = ground arith

-- What a save of the contact fields stores.
abbrev pub IsSavedAs : Customer → Customer → Type 0
IsSavedAs c d =
    IsContact d
    × (d.pk ≡ c.pk)
    × (d.is_active ≡ c.is_active)
    × (d.activated_at ≡ c.activated_at)
    × (d.deactivated_at ≡ c.deactivated_at)

pub saved-IsContact :
    (c d : Customer)
    → save_customer contact_fields c ≡ ok d
    → length d.email ≤ max_email_length
    → IsSavedAs c d
unfolding save_customer
saved-IsContact c d e fits =
    let finish : Text → Text → Text → Text → Text → Text → Result Customer = λ n m p k t l.
      ok (record c {
        name = n;
        email = m;
        phone_number = p;
        country = k;
        city = t;
        address_line = l;
      }) in
    let with_city =
      λ (n m p k t : Text). normalize_customer_address_line c.address_line >>= finish n m p k t in
    let with_country = λ (n m p k : Text). normalize_customer_city c.city >>= with_city n m p k in
    let with_phone =
      λ (n m p : Text). normalize_customer_country c.country >>= with_country n m p in
    let with_email =
      λ (n m : Text). normalize_customer_phone_number c.phone_number >>= with_phone n m in
    let with_name = λ (n : Text). normalize_customer_email c.email >>= with_email n in
    let (n, n_ok, e₁) = >>=-ok (normalize_customer_name c.name) with_name e in
    let (m, m_ok, e₂) = >>=-ok (normalize_customer_email c.email) (with_email n) e₁ in
    let (p, p_ok, e₃) =
      >>=-ok (normalize_customer_phone_number c.phone_number) (with_phone n m) e₂ in
    let (k, k_ok, e₄) = >>=-ok (normalize_customer_country c.country) (with_country n m p) e₃ in
    let (t, t_ok, e₅) = >>=-ok (normalize_customer_city c.city) (with_city n m p k) e₄ in
    let (l, l_ok, e₆) =
      >>=-ok (normalize_customer_address_line c.address_line) (finish n m p k t) e₅ in
    let made : d ≡ record c {
      name = n;
      email = m;
      phone_number = p;
      country = k;
      city = t;
      address_line = l;
    } =
      ground arith in
    rw made (
      (
        required-IsText max_name_length c.name n (unfold normalize_customer_name in n_ok),
        (email_present c.email m m_ok, ground (arith, fits, made)),
        phone-IsText c.phone_number p p_ok,
        country_known c.country k k_ok,
        required-IsText max_city_length c.city t (unfold normalize_customer_city in t_ok),
        required-IsText max_address_line_length c.address_line l
            (unfold normalize_customer_address_line in l_ok),
      ),
      refl,
      refl,
      refl,
      refl,
    )

-- A customer that is stored, with the instant of the last change of activity.
abbrev pub IsRegistered : Customer → Type 0
IsRegistered c =
    IsContact c
    × ((if c.is_active then is_some c.activated_at else is_some c.deactivated_at) ≡ true)

abbrev pub HasUniqueEmails : List Customer → Type 0
HasUniqueEmails = Pairwise (λ c d. text_eq c.email d.email ≡ false)

abbrev pub IsRegistry : Db → Type 0
IsRegistry db =
    HasUniqueEmails db.customers
    × IsDistinct (λ c. c.pk) db.customers
    × All (λ c. c.pk < db.next_pk) db.customers
    × All IsRegistered db.customers

text_eq_sym : (s t : Text) → text_eq s t ≡ text_eq t s
unfolding text_eq
text_eq_sym [] [] = refl
text_eq_sym [] (y ∷ t) = refl
text_eq_sym (x ∷ s) [] = refl
text_eq_sym (x ∷ s) (y ∷ t) = ground (arith, text_eq_sym s t)

pub apart_sym : (c d : Customer) → text_eq c.email d.email ≡ false → text_eq d.email c.email ≡ false
apart_sym c d e = sym (text_eq_sym c.email d.email) ∙ e

-- A free e-mail address is that of no other customer.
pub free_for :
    (email : Text) (k : ℕ) (db : Db)
    → email_is_taken email (some k) db ≡ false
    → All (λ c. c.pk ≢ k → text_eq c.email email ≡ false) db.customers
unfolding email_is_taken any
free_for email k db e = free_rows db.customers e
  where
    free_rows :
        (rows : List Customer)
        → any (λ c. text_eq c.email email && not (c.pk == k)) rows ≡ false
        → All (λ c. c.pk ≢ k → text_eq c.email email ≡ false) rows
    free_rows [] e = tt
    free_rows (c ∷ rows) e = (λ ne. ground arith, free_rows rows (ground arith))

pub free_for_all :
    (email : Text) (db : Db)
    → email_is_taken email none db ≡ false
    → All (λ c. text_eq c.email email ≡ false) db.customers
unfolding email_is_taken any
free_for_all email db e = free_rows db.customers e
  where
    free_rows :
        (rows : List Customer)
        → any (λ c. text_eq c.email email && true) rows ≡ false
        → All (λ c. text_eq c.email email ≡ false) rows
    free_rows [] e = tt
    free_rows (c ∷ rows) e = (ground arith, free_rows rows (ground arith))

-- A customer is stored over the row with its key.
pub write-IsRegistry :
    (c old : Customer) (db : Db)
    → find (λ c. c.pk) c.pk db.customers ≡ some old
    → All (λ d. d.pk ≢ c.pk → text_eq d.email c.email ≡ false) db.customers
    → IsRegistered c
    → IsRegistry db
    → IsRegistry (write_customer c db)
write-IsRegistry c old db found free kept h =
    let rows = db.customers in
    let low = find-All (λ (c : Customer). c.pk < db.next_pk) (λ c. c.pk) c.pk rows found h.2 in
    let key_is = find-key (λ (c : Customer). c.pk) c.pk rows {a = old} found in
    (
      Pairwise-save (λ (c : Customer). c.pk) (λ c d. text_eq c.email d.email ≡ false) apart_sym c
          rows h.1 free h.0,
      Pairwise-save (λ (c : Customer). c.pk) (λ c d. d.pk ≢ c.pk) (λ c d ne same. ne (sym same)) c
          rows h.1
          (All-map (λ _. Unit {0}) (λ (d : Customer). d.pk ≢ c.pk → c.pk ≢ d.pk) rows
            (λ d _ ne same. ne (sym same)) (all_units rows))
          h.1,
      All-save (λ c. c.pk < db.next_pk) (λ c. c.pk) c rows (ground (arith, low, key_is)) h.2,
      All-save IsRegistered (λ c. c.pk) c rows kept h.3,
    )
  where
    all_units : (rows : List Customer) → All (λ _. Unit {0}) rows
    all_units [] = tt
    all_units (c ∷ rows) = (tt, all_units rows)

-- A new customer is stored.
pub insert-IsRegistry :
    (c : Customer) (db : Db)
    → c.pk ≡ db.next_pk
    → All (λ d. text_eq d.email c.email ≡ false) db.customers
    → IsRegistered c
    → IsRegistry db
    → IsRegistry (insert_row c db)
insert-IsRegistry c db key free kept h =
    let rows = db.customers in
    (
      Pairwise-snoc (λ c d. text_eq c.email d.email ≡ false) rows c h.0 free,
      Pairwise-snoc (λ c d. d.pk ≢ c.pk) rows c h.1
          (All-map (λ (d : Customer). d.pk < db.next_pk) (λ d. c.pk ≢ d.pk) rows
            (λ d low. ground arith) h.2),
      All-snoc (λ c. c.pk < db.next_pk + 1) rows c
          (fresh_next (λ (c : Customer). c.pk) db.next_pk rows h.2) (omega (arith, key)),
      All-snoc IsRegistered rows c h.3 kept,
    )
