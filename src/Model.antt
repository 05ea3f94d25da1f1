-- ===== src/Model.antt =====
-- internal/model/types.go: the vocabulary of commands, events and results, and the static checks
-- of a command. Go's enumerations are numbers of one or two bytes: any such number can occur.
pub mod Validation
pub mod Tests
use matching_engine_go.Prelude.{
  ℕ, ◌<◌, ◌^◌, List, [], Bool, true, false, not, ◌&&◌, ◌||◌, Option, none, some, ◌==◌, lt64,
  eq_bytes, if◌then◌else◌,
}

-- type Side
abbrev pub side_buy : ℕ
side_buy = 1

abbrev pub side_sell : ℕ
side_sell = 2

-- type CommandType
abbrev pub command_new : ℕ
command_new = 1

abbrev pub command_cancel : ℕ
command_cancel = 2

abbrev pub command_replace : ℕ
command_replace = 3

-- type OrderType
abbrev pub order_type_limit : ℕ
order_type_limit = 1

abbrev pub order_type_market : ℕ
order_type_market = 2

-- type TimeInForce
abbrev pub tif_gtc : ℕ
tif_gtc = 1

abbrev pub tif_ioc : ℕ
tif_ioc = 2

abbrev pub tif_fok : ℕ
tif_fok = 3

-- type RejectReason
abbrev pub reject_none : ℕ
reject_none = 0

abbrev pub reject_invalid_symbol : ℕ
reject_invalid_symbol = 1

abbrev pub reject_invalid_price : ℕ
reject_invalid_price = 2

abbrev pub reject_invalid_quantity : ℕ
reject_invalid_quantity = 3

abbrev pub reject_duplicate_order_id : ℕ
reject_duplicate_order_id = 4

abbrev pub reject_unknown_order_id : ℕ
reject_unknown_order_id = 5

abbrev pub reject_invalid_replace : ℕ
reject_invalid_replace = 6

abbrev pub reject_would_not_fully_fill : ℕ
reject_would_not_fully_fill = 7

abbrev pub reject_invalid_order_id : ℕ
reject_invalid_order_id = 8

abbrev pub reject_invalid_side : ℕ
reject_invalid_side = 9

abbrev pub reject_invalid_order_type : ℕ
reject_invalid_order_type = 10

abbrev pub reject_invalid_time_in_force : ℕ
reject_invalid_time_in_force = 11

abbrev pub reject_invalid_command_type : ℕ
reject_invalid_command_type = 12

-- type CancelReason
abbrev pub cancel_by_user : ℕ
cancel_by_user = 1

abbrev pub cancel_unfilled_remainder : ℕ
cancel_unfilled_remainder = 2

-- type EventType
abbrev pub event_accepted : ℕ
event_accepted = 1

abbrev pub event_rejected : ℕ
event_rejected = 2

abbrev pub event_trade : ℕ
event_trade = 3

abbrev pub event_order_reduced : ℕ
event_order_reduced = 4

abbrev pub event_order_rested : ℕ
event_order_rested = 5

abbrev pub event_canceled : ℕ
event_canceled = 6

abbrev pub event_replaced : ℕ
event_replaced = 7

-- A symbol is the bytes of a Go string.
pub record Command : Type 0 where
  pub seq : ℕ
  pub symbol : List ℕ
  pub type : ℕ
  pub order_id : ℕ
  pub side : ℕ
  pub order_type : ℕ
  pub time_in_force : ℕ
  pub price : ℕ
  pub quantity : ℕ
  pub new_price : ℕ
  pub new_leaves_qty : ℕ

pub record Event : Type 0 where
  pub type : ℕ
  pub reason : ℕ
  pub order_id : ℕ
  pub maker_order_id : ℕ
  pub taker_order_id : ℕ
  pub trade_id : ℕ
  pub price : ℕ
  pub quantity : ℕ
  pub leaves_qty : ℕ
  pub canceled_qty : ℕ
  pub cancel_reason : ℕ
  pub priority_retained : Bool

-- The fields that a Go literal `model.Event{…}` leaves out.
abbrev pub no_event : Event
no_event = record {
  type = 0;
  reason = 0;
  order_id = 0;
  maker_order_id = 0;
  taker_order_id = 0;
  trade_id = 0;
  price = 0;
  quantity = 0;
  leaves_qty = 0;
  canceled_qty = 0;
  cancel_reason = 0;
  priority_retained = false;
}

pub record Result : Type 0 where
  pub command_seq : ℕ
  pub events : List Event

-- The 64-bit fields of a command hold 64-bit patterns; the others play no part in arithmetic.
pub record IsCommand (c : Command) : Type 0 where
  pub price_fits : c.price < 2 ^ 64
  pub quantity_fits : c.quantity < 2 ^ 64
  pub new_price_fits : c.new_price < 2 ^ 64
  pub new_leaves_fits : c.new_leaves_qty < 2 ^ 64

reject_reason_new : Command → ℕ
reject_reason_new c =
    if c.order_id == 0
    then reject_invalid_order_id
    else if not (c.side == side_buy) && not (c.side == side_sell)
    then reject_invalid_side
    else if not (c.order_type == order_type_limit) && not (c.order_type == order_type_market)
    then reject_invalid_order_type
    else if not (c.time_in_force == tif_gtc)
        && not (c.time_in_force == tif_ioc)
        && not (c.time_in_force == tif_fok)
    then reject_invalid_time_in_force
    else if not (lt64 0 c.quantity)
    then reject_invalid_quantity
    else if c.order_type == order_type_limit && not (lt64 0 c.price)
    then reject_invalid_price
    else reject_none

reject_reason_replace : Command → ℕ
reject_reason_replace c =
    if c.order_id == 0
    then reject_invalid_order_id
    else if not (lt64 0 c.new_leaves_qty) || lt64 c.new_price 0
    then reject_invalid_replace
    else reject_none

-- Command.ValidationRejectReason
unfoldable pub validation_reject_reason : Command → ℕ
unfolding reject_reason_new reject_reason_replace
validation_reject_reason c =
    if eq_bytes c.symbol []
    then reject_invalid_symbol
    else if c.type == command_new
    then reject_reason_new c
    else if c.type == command_cancel
    then (if c.order_id == 0 then reject_invalid_order_id else reject_none)
    else if c.type == command_replace
    then reject_reason_replace c
    else reject_invalid_command_type

-- The messages of Command.Validate.
pub data ValidationError : Type 0 where
  invalid_symbol order_id_is_required invalid_side invalid_order_type invalid_tif : ValidationError
  invalid_quantity invalid_price invalid_replace_quantity invalid_replace_price : ValidationError
  invalid_command_type : ValidationError

validate_new : Command → Option ValidationError
validate_new c =
    if c.order_id == 0
    then some order_id_is_required
    else if not (c.side == side_buy) && not (c.side == side_sell)
    then some invalid_side
    else if not (c.order_type == order_type_limit) && not (c.order_type == order_type_market)
    then some invalid_order_type
    else if not (c.time_in_force == tif_gtc)
        && not (c.time_in_force == tif_ioc)
        && not (c.time_in_force == tif_fok)
    then some invalid_tif
    else if not (lt64 0 c.quantity)
    then some invalid_quantity
    else if c.order_type == order_type_limit && not (lt64 0 c.price)
    then some invalid_price
    else none

validate_replace : Command → Option ValidationError
validate_replace c =
    if c.order_id == 0
    then some order_id_is_required
    else if not (lt64 0 c.new_leaves_qty)
    then some invalid_replace_quantity
    else if lt64 c.new_price 0
    then some invalid_replace_price
    else none

-- Command.Validate; `none` is Go's nil error.
unfoldable pub validate : Command → Option ValidationError
unfolding validate_new validate_replace
validate c =
    if eq_bytes c.symbol []
    then some invalid_symbol
    else if c.type == command_new
    then validate_new c
    else if c.type == command_cancel
    then (if c.order_id == 0 then some order_id_is_required else none)
    else if c.type == command_replace
    then validate_replace c
    else some invalid_command_type
