-- ===== src/Inventory/Models.antt =====
-- inventory/models.py: one physical batch of a product, its stock and its lifecycle. A method that
-- changes the instance returns the new one, or the exception that it raises.
use swedesweets_ops.Prelude.{
  ℕ, ◌-◌, Bool, true, false, not, ◌&&◌, ◌||◌, Option, none, some, List, [], ◌∷◌, ltb, ◌==◌,
  if◌then◌else◌, any, is_empty, Result, ok, err, ◌>>=◌, ◌>>◌, raise_if, invalid_stock_operation,
  invalid_batch_status_transition, ℤ, pos, pos_part, is_negative, is_nonpositive,
}
use swedesweets_ops.Prelude.Texts.{Text, strip, upper, squeeze}

-- InventoryBatch.Status
pub data BatchStatus : Type 0 where
  active depleted closed : BatchStatus

-- Days are ordinals, instants are seconds, users and products are primary keys.
pub record InventoryBatch : Type 0 where
  pub pk : ℕ
  pub batch_id : Text
  pub product_id : ℕ
  pub quantity : ℕ
  pub best_before : ℕ
  pub location : Text
  pub status : BatchStatus
  pub edited_at : Option ℕ
  pub closed_at : Option ℕ
  pub created_by : Option ℕ
  pub edited_by : Option ℕ
  pub closed_by : Option ℕ

-- The names that `update_fields` lists; `save` tests four of them, and the methods list the others.
pub data BatchField : Type 0 where
  batch_id quantity status best_before location created_by edited_at edited_by closed_at closed_by
        updated_at :
      BatchField

unfoldable pub status_eq : BatchStatus → BatchStatus → Bool
status_eq active active = true
status_eq depleted depleted = true
status_eq closed closed = true
status_eq _ _ = false

field_index : BatchField → ℕ
field_index BatchField.batch_id = 0
field_index BatchField.quantity = 1
field_index BatchField.status = 2
field_index BatchField.best_before = 3
field_index BatchField.location = 4
field_index BatchField.created_by = 5
field_index BatchField.edited_at = 6
field_index BatchField.edited_by = 7
field_index BatchField.closed_at = 8
field_index BatchField.closed_by = 9
field_index BatchField.updated_at = 10

unfoldable pub normalize_batch_id : Text → Result Text
unfolding strip upper
normalize_batch_id value =
    let t = upper (strip value) in if is_empty t then err invalid_stock_operation else ok t

unfoldable pub normalize_location : Text → Result Text
unfolding squeeze
normalize_location value =
    let t = squeeze value in if is_empty t then err invalid_stock_operation else ok t

-- ALLOWED_STATUS_TRANSITIONS
unfoldable pub allowed_status_transitions : BatchStatus → BatchStatus → Bool
allowed_status_transitions active depleted = true
allowed_status_transitions active closed = true
allowed_status_transitions depleted active = true
allowed_status_transitions depleted closed = true
allowed_status_transitions _ _ = false

unfoldable pub is_available : InventoryBatch → Bool
unfolding status_eq
is_available b = status_eq b.status active && ltb 0 b.quantity

unfoldable pub validate_positive_quantity : ℤ → Result (Unit {0})
validate_positive_quantity q = raise_if (is_nonpositive q) invalid_stock_operation

unfoldable pub validate_non_negative_quantity : ℤ → Result (Unit {0})
validate_non_negative_quantity q = raise_if (is_negative q) invalid_stock_operation

-- InventoryBatch._transition_to
unfoldable pub transition_to : BatchStatus → InventoryBatch → Result InventoryBatch
unfolding status_eq allowed_status_transitions
transition_to new_status b =
    if status_eq b.status new_status
    then ok b
    else if allowed_status_transitions b.status new_status
    then ok (record b { status = new_status })
    else err invalid_batch_status_transition

unfoldable pub sync_status_from_quantity : InventoryBatch → Result InventoryBatch
unfolding transition_to
sync_status_from_quantity b =
    if status_eq b.status closed
    then ok b
    else transition_to (if ltb 0 b.quantity then active else depleted) b

-- The first argument is the status of the stored row, `none` for a row that is not stored yet.
unfoldable pub protect_status_transition : Option BatchStatus → InventoryBatch → Result (Unit {0})
unfolding status_eq allowed_status_transitions
protect_status_transition none b = ok tt
protect_status_transition (some persisted) b =
    if status_eq persisted b.status
    then ok tt
    else raise_if (not (allowed_status_transitions persisted b.status))
        invalid_batch_status_transition

-- `update_fields is None or name in update_fields`
unfoldable pub touches : Option (List BatchField) → BatchField → Bool
unfolding field_index any
touches none f = true
touches (some fs) f = any (λ g. field_index f == field_index g) fs

save_batch_id : InventoryBatch → Result InventoryBatch
save_batch_id b = do t ← normalize_batch_id b.batch_id; ok (record b { batch_id = t })

save_location : InventoryBatch → Result InventoryBatch
save_location b = do t ← normalize_location b.location; ok (record b { location = t })

save_stock_state : Option BatchStatus → InventoryBatch → Result InventoryBatch
unfolding validate_non_negative_quantity sync_status_from_quantity protect_status_transition
save_stock_state persisted b = do
  validate_non_negative_quantity (pos b.quantity)
  b' ← sync_status_from_quantity b
  protect_status_transition persisted b'
  ok b'

-- InventoryBatch.save: the row that is written.
unfoldable pub save_batch :
    Option (List BatchField) → Option BatchStatus → InventoryBatch → Result InventoryBatch
unfolding touches save_batch_id save_location save_stock_state
save_batch update_fields persisted b = do
  b₁ ← if touches update_fields BatchField.batch_id then save_batch_id b else ok b
  b₂ ← if touches update_fields BatchField.location then save_location b₁ else ok b₁
  if touches update_fields BatchField.quantity || touches update_fields BatchField.status
      then save_stock_state persisted b₂
      else ok b₂

abbrev stock_fields : Option (List BatchField)
stock_fields = some (BatchField.quantity ∷ BatchField.status ∷ BatchField.updated_at ∷ [])

-- The methods below are called on an instance that was just read, so the stored status is its own.
unfoldable pub mark_batch_as_created : Option ℕ → InventoryBatch → Result InventoryBatch
unfolding save_batch
mark_batch_as_created user b =
    save_batch (some (BatchField.created_by ∷ BatchField.updated_at ∷ [])) (some b.status)
      (record b { created_by = user })

unfoldable pub mark_batch_as_edited : Option ℕ → ℕ → InventoryBatch → Result InventoryBatch
unfolding save_batch
mark_batch_as_edited user now b =
    save_batch (some (BatchField.edited_at ∷ BatchField.edited_by ∷ BatchField.updated_at ∷ []))
      (some b.status) (record b { edited_at = some now; edited_by = user })

unfoldable pub adjust_quantity : ℤ → InventoryBatch → Result InventoryBatch
unfolding save_batch
adjust_quantity q b = do
  raise_if (status_eq b.status closed) invalid_stock_operation
  validate_non_negative_quantity q
  b' ← sync_status_from_quantity (record b { quantity = pos_part q })
  save_batch stock_fields (some b.status) b'

unfoldable pub remove_quantity : ℤ → InventoryBatch → Result InventoryBatch
unfolding validate_positive_quantity sync_status_from_quantity
remove_quantity q b = do
  validate_positive_quantity q
  raise_if (ltb b.quantity (pos_part q)) invalid_stock_operation
  sync_status_from_quantity (record b { quantity = b.quantity - pos_part q })

unfoldable pub pick : ℤ → InventoryBatch → Result InventoryBatch
unfolding is_available remove_quantity save_batch
pick q b = do
  raise_if (not (is_available b)) invalid_stock_operation
  b' ← remove_quantity q b
  save_batch stock_fields (some b.status) b'

unfoldable pub close : Option ℕ → ℕ → InventoryBatch → Result InventoryBatch
unfolding transition_to save_batch
close user now b = do
  b' ← transition_to closed b
  save_batch
      (some (
        BatchField.status ∷ BatchField.closed_at ∷ BatchField.closed_by ∷ BatchField.updated_at
        ∷ []))
      (some b.status) (record b' { closed_at = some now; closed_by = user })

-- The saves of `update_batch` on the locked row, one after the other.
unfoldable pub updated_batch : Option ℕ → ℕ → ℤ → ℕ → Text → InventoryBatch → Result InventoryBatch
unfolding adjust_quantity save_batch mark_batch_as_edited
updated_batch user now q day place b = do
  b₁ ← adjust_quantity q b
  b₂ ←
      save_batch (some (BatchField.best_before ∷ BatchField.location ∷ BatchField.updated_at ∷ []))
        (some b₁.status) (record b₁ { best_before = day; location = place })
  mark_batch_as_edited user now b₂
