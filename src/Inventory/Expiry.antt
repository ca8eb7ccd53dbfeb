-- ===== src/Inventory/Expiry.antt =====
-- inventory/expiry.py: how near a batch is to its best-before day, and whether it may be ordered.
use swedesweets_ops.Prelude.{
  ℕ, ◌+◌, ◌≤◌, ◌≡◌, Bool, true, arith, ltb, leb, ◌==◌, if◌then◌else◌, ℤ, pos, ◌-ℤ◌, pos_part,
  is_negative, ◌⊎◌, ◌↔◌,
}

pub data ExpiryState : Type 0 where
  expired critical soon safe : ExpiryState

-- The label is a text of the user interface, by its kind.
pub data ExpiryLabel : Type 0 where
  expired_label expires_today expires_in best_before_label : ExpiryLabel

pub record ExpiryInfo : Type 0 where
  pub state : ExpiryState
  pub label : ExpiryLabel
  pub days_left : ℤ

abbrev pub expiry_critical_days : ℕ
expiry_critical_days = 60

abbrev pub expiry_soon_days : ℕ
expiry_soon_days = 90

abbrev pub orderable_before_expiry_days : ℕ
orderable_before_expiry_days = 0

unfoldable pub orderable_best_before_cutoff : ℕ → ℕ
orderable_best_before_cutoff today = today + orderable_before_expiry_days

unfoldable pub is_orderable_best_before : ℕ → ℕ → Bool
unfolding orderable_best_before_cutoff
is_orderable_best_before best_before today = ltb (orderable_best_before_cutoff today) best_before

unfoldable pub build_expiry_info : ℕ → ℕ → ExpiryInfo
build_expiry_info best_before today =
    let days_left = pos best_before -ℤ pos today in
    if is_negative days_left
    then record { state = expired; label = expired_label; days_left = days_left }
    else if pos_part days_left == 0
    then record { state = critical; label = expires_today; days_left = days_left }
    else if leb (pos_part days_left) expiry_critical_days
    then record { state = critical; label = expires_in; days_left = days_left }
    else if leb (pos_part days_left) expiry_soon_days
    then record { state = soon; label = expires_in; days_left = days_left }
    else record { state = safe; label = best_before_label; days_left = days_left }

-- How pressing a state is, the expired one most.
unfoldable pub urgency : ExpiryState → ℕ
urgency safe = 0
urgency soon = 1
urgency critical = 2
urgency expired = 3

-- As the days pass, the state of a batch never becomes less pressing.
pub urgency-build_expiry_info :
    (best_before today later : ℕ)
    → today ≤ later
    → urgency (build_expiry_info best_before today).state
      ≤ urgency (build_expiry_info best_before later).state
unfolding urgency build_expiry_info
urgency-build_expiry_info best_before today later h = ground arith

-- A batch may be ordered exactly when its expiry label is the one for days to come or the plain
-- best-before one: not when it has expired, nor when it expires today.
pub orderable_iff_label :
    (best_before today : ℕ)
    → (is_orderable_best_before best_before today ≡ true) ↔ (
        ((build_expiry_info best_before today).label ≡ expires_in)
        ⊎ ((build_expiry_info best_before today).label ≡ best_before_label))
unfolding is_orderable_best_before build_expiry_info
orderable_iff_label best_before today = (λ h. ground arith, λ h. ground arith)
