-- ===== src/Customers/Models.antt =====
-- customers/models.py: the contact data of a customer, its normalisation, and the activity.
use swedesweets_ops.Prelude.{
  ℕ, Bool, true, false, not, ◌&&◌, Option, some, List, [], ◌∷◌, ◌==◌, ltb, any, filter, length,
  is_empty, if◌then◌else◌, Result, ok, err, ◌>>=◌, invalid_customer_data,
}
use swedesweets_ops.Prelude.Texts.{Text, text_eq, is_space, strip, upper, lower, squeeze}

pub record Customer : Type 0 where
  pub pk : ℕ
  pub name : Text
  pub email : Text
  pub phone_number : Text
  pub country : Text
  pub city : Text
  pub address_line : Text
  pub is_active : Bool
  pub edited_at : Option ℕ
  pub activated_at : Option ℕ
  pub deactivated_at : Option ℕ
  pub created_by : Option ℕ
  pub edited_by : Option ℕ
  pub activated_by : Option ℕ
  pub deactivated_by : Option ℕ

-- MAX_CUSTOMER_NAME_LENGTH and its relatives
abbrev pub max_name_length : ℕ
max_name_length = 120

abbrev pub max_country_length : ℕ
max_country_length = 80

abbrev pub max_city_length : ℕ
max_city_length = 120

abbrev pub max_address_line_length : ℕ
max_address_line_length = 180

-- the width of the column `email`
abbrev pub max_email_length : ℕ
max_email_length = 254

abbrev pub max_phone_length : ℕ
max_phone_length = 40

-- CUSTOMER_COUNTRY_CODES
abbrev pub customer_country_codes : List Text
customer_country_codes = (b'F' ∷ b'R' ∷ []) ∷ (b'C' ∷ b'H' ∷ []) ∷ (b'I' ∷ b'T' ∷ []) ∷ []

-- A text that has to be there and may not be too long.
unfoldable pub bounded_text : ℕ → Text → Result Text
bounded_text max_length t =
    if is_empty t
    then err invalid_customer_data
    else if ltb max_length (length t)
    then err invalid_customer_data
    else ok t

-- `_normalize_required_text`
unfoldable pub normalize_required_text : ℕ → Text → Result Text
unfolding bounded_text squeeze
normalize_required_text max_length value = bounded_text max_length (squeeze value)

unfoldable pub normalize_customer_name : Text → Result Text
unfolding normalize_required_text
normalize_customer_name = normalize_required_text max_name_length

unfoldable pub normalize_customer_country : Text → Result Text
unfolding bounded_text strip upper any text_eq
normalize_customer_country value = do
  t ← bounded_text max_country_length (upper (strip value))
  if any (text_eq t) customer_country_codes then ok t else err invalid_customer_data

unfoldable pub normalize_customer_city : Text → Result Text
unfolding normalize_required_text
normalize_customer_city = normalize_required_text max_city_length

unfoldable pub normalize_customer_address_line : Text → Result Text
unfolding normalize_required_text
normalize_customer_address_line = normalize_required_text max_address_line_length

unfoldable pub normalize_customer_email : Text → Result Text
unfolding strip lower
normalize_customer_email value =
    let t = lower (strip value) in if is_empty t then err invalid_customer_data else ok t

unfoldable pub normalize_customer_phone_number : Text → Result Text
unfolding bounded_text strip filter is_space
normalize_customer_phone_number value =
    bounded_text max_phone_length (filter (λ c. not (is_space c) && not (c == b'-')) (strip value))

-- Customer.save normalises the contact fields that `update_fields` names, and without it all of
-- them. The services name all of them or none.
pub data SavedFields : Type 0 where
  contact_fields other_fields : SavedFields

unfoldable pub save_customer : SavedFields → Customer → Result Customer
unfolding normalize_customer_name normalize_customer_email normalize_customer_phone_number
    normalize_customer_country normalize_customer_city normalize_customer_address_line
save_customer other_fields c = ok c
save_customer contact_fields c = do
  name' ← normalize_customer_name c.name
  email' ← normalize_customer_email c.email
  phone' ← normalize_customer_phone_number c.phone_number
  country' ← normalize_customer_country c.country
  city' ← normalize_customer_city c.city
  line' ← normalize_customer_address_line c.address_line
  ok (record c {
    name = name';
    email = email';
    phone_number = phone';
    country = country';
    city = city';
    address_line = line';
  })

unfoldable pub mark_customer_as_created : Option ℕ → ℕ → Customer → Result Customer
unfolding save_customer
mark_customer_as_created user now c = save_customer other_fields (
    if c.is_active
    then record c { created_by = user; activated_at = some now; activated_by = user }
    else record c { created_by = user })

unfoldable pub mark_customer_as_edited : Option ℕ → ℕ → Customer → Result Customer
unfolding save_customer
mark_customer_as_edited user now c =
    save_customer other_fields (record c { edited_at = some now; edited_by = user })

unfoldable pub deactivate : Option ℕ → ℕ → Customer → Result Customer
unfolding save_customer
deactivate user now c =
    if not c.is_active
    then ok c
    else save_customer other_fields
        (record c { is_active = false; deactivated_at = some now; deactivated_by = user })

unfoldable pub reactivate : Option ℕ → ℕ → Customer → Result Customer
unfolding save_customer
reactivate user now c =
    if c.is_active
    then ok c
    else save_customer other_fields
        (record c { is_active = true; activated_at = some now; activated_by = user })
