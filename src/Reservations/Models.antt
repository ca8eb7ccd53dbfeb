-- ===== src/Reservations/Models.antt =====
-- reservations/models.py: a claim of an order line on a physical batch.
use swedesweets_ops.Prelude.{
  ℕ, Bool, true, false, ◌&&◌, Option, none, some, ltb, if◌then◌else◌, Result, ok, err,
  invalid_allocation_status_transition,
}

-- Allocation.Status
pub data AllocationStatus : Type 0 where
  reserved consumed cancelled : AllocationStatus

pub record Allocation : Type 0 where
  pub pk : ℕ
  pub order_id : ℕ
  pub order_line_id : ℕ
  pub batch_id : ℕ
  pub quantity : ℕ
  pub status : AllocationStatus
  pub reserved_until : Option ℕ

unfoldable pub allocation_status_eq : AllocationStatus → AllocationStatus → Bool
allocation_status_eq reserved reserved = true
allocation_status_eq consumed consumed = true
allocation_status_eq cancelled cancelled = true
allocation_status_eq _ _ = false

-- ALLOWED_TRANSITIONS
unfoldable pub allowed_allocation_transitions : AllocationStatus → AllocationStatus → Bool
allowed_allocation_transitions reserved consumed = true
allowed_allocation_transitions reserved cancelled = true
allowed_allocation_transitions _ _ = false

-- Allocation._transition_to
unfoldable pub allocation_transition_to : AllocationStatus → Allocation → Result Allocation
unfolding allocation_status_eq allowed_allocation_transitions
allocation_transition_to target a =
    if allocation_status_eq a.status target
    then ok a
    else if allowed_allocation_transitions a.status target
    then ok (record a { status = target })
    else err invalid_allocation_status_transition

unfoldable pub consume : Allocation → Result Allocation
unfolding allocation_transition_to
consume = allocation_transition_to consumed

unfoldable pub cancel_allocation : Allocation → Result Allocation
unfolding allocation_transition_to
cancel_allocation = allocation_transition_to cancelled

-- `reserved_until is None or reserved_until > now`
unfoldable pub is_unexpired : ℕ → Allocation → Bool
is_unexpired now a = elim a.reserved_until [ none ↦ true | some t ↦ ltb now t ]

-- A reservation that reduces availability at this instant.
unfoldable pub is_active : ℕ → Allocation → Bool
unfolding allocation_status_eq is_unexpired
is_active now a = allocation_status_eq a.status reserved && is_unexpired now a
