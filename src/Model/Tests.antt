-- ===== src/Model/Tests.antt =====
-- The checks of a command at concrete commands.
use matching_engine_go.Prelude.{◌≡◌, ◌↔◌, [], ◌∷◌, none}
use matching_engine_go.Model.{
  Command, command_new, side_buy, order_type_limit, tif_gtc, validate, validation_reject_reason,
  reject_none,
}
use matching_engine_go.Model.Validation.{validate-validation_reject_reason}

abbrev buy : Command
buy = record {
  seq = 1;
  symbol = 65 ∷ [];
  type = command_new;
  order_id = 1;
  side = side_buy;
  order_type = order_type_limit;
  time_in_force = tif_gtc;
  price = 100;
  quantity = 5;
  new_price = 0;
  new_leaves_qty = 0;
}

validate-validation_reject_reason_example :
    (validate buy ≡ none) ↔ (validation_reject_reason buy ≡ reject_none)
validate-validation_reject_reason_example = validate-validation_reject_reason buy
