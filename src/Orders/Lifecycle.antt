-- ===== src/Orders/Lifecycle.antt =====
-- What the methods of orders/models.py do to the lifecycle of an order.
use swedesweets_ops.Prelude.{ℕ, ◌≡◌, refl, ◌∙◌, ◌⊎◌, arith, Option, none, is_some, true, ok}
use swedesweets_ops.Prelude.Texts.{Text}
use swedesweets_ops.Orders.Models.{
  Order, draft, placed, packed, delivered, cancelled, CancelReason, mark_as_edited, mark_as_placed,
  mark_as_packed, mark_as_delivered, cancel,
}

-- One call of a method that changes a stored order.
pub data OrderStep (o o' : Order) : Type 0 where
  edits : (user : Option ℕ) (now : ℕ) → mark_as_edited user now o ≡ o' → OrderStep o o'
  places : (user : Option ℕ) (now : ℕ) → mark_as_placed user now o ≡ ok o' → OrderStep o o'
  packs : (user : Option ℕ) (now : ℕ) → mark_as_packed user now o ≡ ok o' → OrderStep o o'
  delivers : (user : Option ℕ) (now : ℕ) → mark_as_delivered user now o ≡ ok o' → OrderStep o o'
  cancels :
      (user : Option ℕ) (reason : CancelReason) (note : Text) (now : ℕ)
      → cancel user reason note now o ≡ ok o'
      → OrderStep o o'

pub data OrderHistory (o : Order) : Order → Type 0 where
  untouched : OrderHistory o o
  next : {p q : Order} → OrderHistory o p → OrderStep p q → OrderHistory o q

-- The instants that are recorded are those of the states that the order went through.
abbrev pub IsTimely : Order → Type 0
IsTimely o =
    ((o.status ≡ draft)
      × (o.placed_at ≡ none)
      × (o.packed_at ≡ none)
      × (o.delivered_at ≡ none)
      × (o.cancelled_at ≡ none))
    ⊎ ((o.status ≡ placed)
        × (is_some o.placed_at ≡ true)
        × (o.packed_at ≡ none)
        × (o.delivered_at ≡ none)
        × (o.cancelled_at ≡ none))
    ⊎ ((o.status ≡ packed)
        × (is_some o.placed_at ≡ true)
        × (is_some o.packed_at ≡ true)
        × (o.delivered_at ≡ none)
        × (o.cancelled_at ≡ none))
    ⊎ ((o.status ≡ delivered)
        × (is_some o.placed_at ≡ true)
        × (is_some o.packed_at ≡ true)
        × (is_some o.delivered_at ≡ true)
        × (o.cancelled_at ≡ none))
    ⊎ ((o.status ≡ cancelled)
        × (o.packed_at ≡ none)
        × (o.delivered_at ≡ none)
        × (is_some o.cancelled_at ≡ true))

OrderStep-IsTimely : (o o' : Order) → OrderStep o o' → IsTimely o → IsTimely o'
unfolding mark_as_edited mark_as_placed mark_as_packed mark_as_delivered cancel
OrderStep-IsTimely o o' (edits u t e) h = ground arith
OrderStep-IsTimely o o' (places u t e) h = ground arith
OrderStep-IsTimely o o' (packs u t e) h = ground arith
OrderStep-IsTimely o o' (delivers u t e) h = ground arith
OrderStep-IsTimely o o' (cancels u r n t e) h = ground arith

-- If the recorded instants agree with the status, then they do after any history: a delivered order was placed
-- and packed, an order that is not delivered has no delivery, and a cancelled order was never
-- packed.
pub OrderHistory-IsTimely : {o p : Order} → OrderHistory o p → IsTimely o → IsTimely p
OrderHistory-IsTimely untouched h = h
OrderHistory-IsTimely (next r s) h = OrderStep-IsTimely _ _ s (OrderHistory-IsTimely r h)

OrderStep-final :
    (o o' : Order)
    → OrderStep o o'
    → (o.status ≡ delivered) ⊎ (o.status ≡ cancelled)
    → o'.status ≡ o.status
unfolding mark_as_edited mark_as_placed mark_as_packed mark_as_delivered cancel
OrderStep-final o o' (edits u t e) h = ground arith
OrderStep-final o o' (places u t e) h = ground arith
OrderStep-final o o' (packs u t e) h = ground arith
OrderStep-final o o' (delivers u t e) h = ground arith
OrderStep-final o o' (cancels u r n t e) h = ground arith

-- A delivered order stays delivered and a cancelled one stays cancelled, whatever is called later.
pub OrderHistory-final :
    {o p : Order}
    → OrderHistory o p
    → (o.status ≡ delivered) ⊎ (o.status ≡ cancelled)
    → p.status ≡ o.status
OrderHistory-final untouched h = refl
OrderHistory-final {o} (next {p} r s) h =
    let before = OrderHistory-final r h in OrderStep-final _ _ s (ground arith) ∙ before
