-- ===== src/Model/Validation.antt =====
-- The two checks of internal/model/types.go agree, and what a command that passes them is like.
use matching_engine_go.Prelude.{◌<◌, ◌^◌, ◌≡◌, ◌⊎◌, none, ◌↔◌, arith, lt64, true, false, ◌==◌}
use matching_engine_go.Model.{
  Command, IsCommand, validate, validate_new, validate_replace, validation_reject_reason,
  reject_reason_new, reject_reason_replace, reject_none, command_new, command_cancel,
  command_replace, side_buy, side_sell, order_type_market,
}

agree_new : (c : Command) → (validate_new c ≡ none) ↔ (reject_reason_new c ≡ reject_none)
unfolding validate_new reject_reason_new
agree_new c = (λ h. ground arith, λ h. ground arith)

agree_replace :
    (c : Command) → (validate_replace c ≡ none) ↔ (reject_reason_replace c ≡ reject_none)
unfolding validate_replace reject_reason_replace
agree_replace c = (λ h. ground arith, λ h. ground arith)

-- Validate accepts a command exactly if ValidationRejectReason gives no reason.
pub validate-validation_reject_reason :
    (c : Command) → (validate c ≡ none) ↔ (validation_reject_reason c ≡ reject_none)
unfolding validate validation_reject_reason
validate-validation_reject_reason c = (
  λ h. ground (arith, agree_new c, agree_replace c),
  λ h. ground (arith, agree_new c, agree_replace c),
)

-- What a command that passes the checks is like.
pub validate-command_new :
    (c : Command)
    → IsCommand c
    → validate c ≡ none
    → (c.type == command_new) ≡ true
    → ((c.side ≡ side_buy) ⊎ (c.side ≡ side_sell))
      × (0 < c.quantity)
      × (c.quantity < 2 ^ 63)
      × ((c.order_type == order_type_market) ≡ false → (0 < c.price) × (c.price < 2 ^ 63))
unfolding validate validate_new lt64
validate-command_new c w h t = (
  ground arith,
  ground (arith, w.quantity_fits),
  ground (arith, w.quantity_fits),
  λ m. (ground (arith, w.price_fits), ground (arith, w.price_fits)),
)

pub validate-command_replace :
    (c : Command)
    → IsCommand c
    → validate c ≡ none
    → (c.type == command_replace) ≡ true
    → (0 < c.new_leaves_qty) × (c.new_leaves_qty < 2 ^ 63) × (c.new_price < 2 ^ 63)
unfolding validate validate_replace lt64
validate-command_replace c w h t = ground (arith, w.new_price_fits, w.new_leaves_fits)

pub validate-type :
    (c : Command)
    → validate c ≡ none
    → (c.type == command_new) ≡ false
    → (c.type == command_cancel) ≡ false
    → (c.type == command_replace) ≡ true
unfolding validate
validate-type c h n k = ground arith
