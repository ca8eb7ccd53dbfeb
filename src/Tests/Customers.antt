-- ===== src/Tests/Customers.antt =====
-- A customer is registered, moves, and is deactivated.
use swedesweets_ops.Prelude.{◌≡◌, refl, true, none, [], ◌∷◌, ok}
use swedesweets_ops.Customers.Models.{Customer}
use swedesweets_ops.Customers.Services.{
  ContactInput, create_customer, update_customer, deactivate_customer,
}
use swedesweets_ops.Customers.Registry.{IsRegistry}
use swedesweets_ops.Customers.Changes.{
  at_start, then_step, creates, updates, deactivates, CustomerHistory-IsRegistry,
}
use swedesweets_ops.Tests.Data.{shop, rows_after, value_after}
use swedesweets_ops.Database.{Db}

abbrev contact : ContactInput
contact = record {
  name = b'A' ∷ [];
  email = b'A' ∷ b'@' ∷ [];
  phone_number = b'1' ∷ b'-' ∷ b'2' ∷ [];
  country = b'f' ∷ b'r' ∷ [];
  city = b'P' ∷ [];
  address_line = b'R' ∷ [];
}

abbrev nobody : Customer
nobody = record {
  pk = 0;
  name = [];
  email = [];
  phone_number = [];
  country = [];
  city = [];
  address_line = [];
  is_active = true;
  edited_at = none;
  activated_at = none;
  deactivated_at = none;
  created_by = none;
  edited_by = none;
  activated_by = none;
  deactivated_by = none;
}

abbrev registered : Db
registered = rows_after (create_customer none 10 contact shop)

abbrev moved : Db
moved = rows_after (update_customer none 20 (record contact { city = b'Q' ∷ [] }) 30 registered)

abbrev stopped : Db
stopped = rows_after (deactivate_customer none 30 30 moved)

register_run :
    create_customer none 10 contact shop
    ≡ ok (value_after nobody (create_customer none 10 contact shop), registered)
unfolding create_customer
register_run = refl

move_run :
    update_customer none 20 (record contact { city = b'Q' ∷ [] }) 30 registered
    ≡ ok (
      value_after nobody
          (update_customer none 20 (record contact { city = b'Q' ∷ [] }) 30 registered),
      moved,
    )
unfolding create_customer update_customer
move_run = refl

stop_run :
    deactivate_customer none 30 30 moved
    ≡ ok (value_after nobody (deactivate_customer none 30 30 moved), stopped)
unfolding create_customer update_customer deactivate_customer
stop_run = refl

CustomerHistory-IsRegistry_example : IsRegistry stopped
CustomerHistory-IsRegistry_example =
    CustomerHistory-IsRegistry
      (then_step
        (then_step
          (then_step at_start (
            creates none 10 contact (value_after nobody (create_customer none 10 contact shop))
              register_run))
          (updates none 20 30 (record contact { city = b'Q' ∷ [] })
            (value_after nobody
              (update_customer none 20 (record contact { city = b'Q' ∷ [] }) 30 registered))
            move_run))
        (deactivates none 30 30 (value_after nobody (deactivate_customer none 30 30 moved))
          stop_run))
      (tt, tt, tt, tt)
