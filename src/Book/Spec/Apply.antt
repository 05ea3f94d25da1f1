-- ===== src/Book/Spec/Apply.antt =====
-- What Apply means on a snapshot: the new snapshot and the events.
use matching_engine_go.Prelude.{
  ℕ, ◌%◌, ◌^◌, List, [], ◌∷◌, ◌++◌, Bool, true, false, not, ◌||◌, ◌&&◌, Option, none, some, ◌==◌,
  if◌then◌else◌, ltb, leb, eq_bytes, lt64, add64, sub64,
}
use matching_engine_go.Model.{
  Command, Event, validate, validation_reject_reason, command_new, command_cancel, side_buy,
  side_sell, order_type_market, tif_ioc, tif_fok, cancel_by_user, cancel_unfilled_remainder,
  reject_invalid_symbol, reject_duplicate_order_id, reject_unknown_order_id,
  reject_would_not_fully_fill,
}
use matching_engine_go.Book.State.{Order, LevelSnapshot, Snapshot, find_order}
use matching_engine_go.Book.Matching.{price_allowed}
use matching_engine_go.Book.Handlers.{
  can_take, rejected, accepted, canceled, rested, replaced_event,
}
use matching_engine_go.Book.View.{levels_at, with_levels, is_bid_side, quantity}
use matching_engine_go.Book.Spec.{
  Sweep, sweep, insert_order, remove_order, amend_order, advance, fill_events, reduced_event,
}

abbrev pub opposite : ℕ → ℕ
opposite side = if side == side_buy then side_sell else side_buy

-- The order with an id, bids first.
abbrev pub find_levels : ℕ → List LevelSnapshot → Option Order → Option Order
find_levels id [] other = other
find_levels id (l ∷ ls) other = elim (find_order id l.orders) [
  | some o ↦ some o
  | none ↦ find_levels id ls other
]

abbrev pub active : Snapshot → ℕ → Option Order
active s id = find_levels id s.bids (find_levels id s.asks none)

unfoldable pub rest : Snapshot → Order → Snapshot
rest s o = with_levels s o.side (insert_order (is_bid_side o.side) o (levels_at s o.side))

unfoldable pub take_out : Snapshot → Order → Snapshot
take_out s o = with_levels s o.side (remove_order o.price o.id (levels_at s o.side))

-- What a sweep of the opposite side for an incoming order leaves.
unfoldable pub matched : Snapshot → Order → Sweep
matched s o = sweep (price_allowed o) (levels_at s (opposite o.side)) o.leaves_qty

unfoldable pub after_match : Snapshot → Order → Snapshot
after_match s o =
    let w = matched s o in
    with_levels (record s { next_trade_seq = advance s.next_trade_seq w.fills }) (opposite o.side)
      w.levels

abbrev pub remaining : Snapshot → Order → Order
remaining s o = record o { leaves_qty = (matched s o).left }

abbrev pub match_events : ℕ → Snapshot → Order → List Event
match_events seq s o = fill_events seq s.next_trade_seq o.id (matched s o).fills

-- The quantity that a fill-or-kill order finds, in the machine's arithmetic.
unfoldable pub available : (ℕ → Bool) → ℕ → List LevelSnapshot → ℕ → ℕ
available take_at required [] total = total
available take_at required (l ∷ ls) total =
    let more = available take_at required ls (add64 total (quantity l.orders % 2 ^ 64)) in
    if take_at l.price
    then (if lt64 (quantity l.orders % 2 ^ 64) (sub64 required total) then more else required)
    else total

abbrev pub is_fillable : Snapshot → Command → Bool
is_fillable s cmd = not (
    lt64
      (available (can_take cmd.side cmd.price cmd.order_type) cmd.quantity
        (levels_at s (opposite cmd.side)) 0)
      cmd.quantity)

abbrev pub incoming : Command → Order
incoming cmd = record {
  id = cmd.order_id;
  side = cmd.side;
  price = cmd.price;
  leaves_qty = cmd.quantity;
  seq = cmd.seq;
}

-- What is left of a new order rests, is canceled, or is nothing.
unfoldable pub finish_new : Snapshot → Command → Order → Snapshot × List Event
finish_new s cmd o =
    if o.leaves_qty == 0
    then (s, [])
    else if cmd.order_type == order_type_market || cmd.time_in_force == tif_ioc
    then (s, canceled o.id o.leaves_qty cancel_unfilled_remainder ∷ [])
    else (rest s o, rested o ∷ [])

unfoldable pub accept_new : Snapshot → Command → Snapshot × List Event
accept_new s cmd =
    let o = incoming cmd in
    let (s', events) = finish_new (after_match s o) cmd (remaining s o) in
    (s', accepted cmd.order_id ∷ (match_events cmd.seq s o ++ events))

unfoldable pub apply_new : Snapshot → Command → Snapshot × List Event
apply_new s cmd = elim (active s cmd.order_id) [
  | some o ↦ (s, rejected reject_duplicate_order_id cmd.order_id ∷ [])
  | none ↦
      if cmd.time_in_force == tif_fok && not (is_fillable s cmd)
      then (s, rejected reject_would_not_fully_fill cmd.order_id ∷ [])
      else accept_new s cmd
]

unfoldable pub apply_cancel : Snapshot → Command → Snapshot × List Event
apply_cancel s cmd = elim (active s cmd.order_id) [
  | none ↦ (s, rejected reject_unknown_order_id cmd.order_id ∷ [])
  | some o ↦
      (take_out s o, accepted cmd.order_id ∷ canceled cmd.order_id o.leaves_qty cancel_by_user ∷ [])
]

abbrev pub replacement : Command → Order → Order
replacement cmd o = record {
  id = cmd.order_id;
  side = o.side;
  price = if lt64 0 cmd.new_price then cmd.new_price else o.price;
  leaves_qty = cmd.new_leaves_qty;
  seq = cmd.seq;
}

-- The order keeps its place with less quantity, or the same.
unfoldable pub amend : Snapshot → Order → ℕ → Snapshot × List Event
amend s o n = (
  with_levels s o.side (amend_order o.price o.id n (levels_at s o.side)),
  (if ltb n o.leaves_qty then reduced_event o.id n ∷ [] else [])
      ++ replaced_event o.id o.price n true ∷ [],
)

-- The order is taken out and comes in anew.
unfoldable pub requeue : Snapshot → Order → Order → Snapshot × List Event
requeue s o r =
    let t = take_out s o in
    let r' = remaining t r in
    let done = replaced_event r.id r.price r'.leaves_qty false in
    let events = match_events r.seq t r in
    if ltb 0 r'.leaves_qty
    then (rest (after_match t r) r', events ++ rested r' ∷ [] ++ done ∷ [])
    else (after_match t r, events ++ done ∷ [])

unfoldable pub apply_replace : Snapshot → Command → Snapshot × List Event
apply_replace s cmd = elim (active s cmd.order_id) [
  | none ↦ (s, rejected reject_unknown_order_id cmd.order_id ∷ [])
  | some o ↦
      let r = replacement cmd o in
      let (s', events) =
        if r.price == o.price && leb r.leaves_qty o.leaves_qty
        then amend s o r.leaves_qty
        else requeue s o r in
      (s', accepted cmd.order_id ∷ events)
]

unfoldable pub dispatch : Snapshot → Command → Snapshot × List Event
dispatch s cmd =
    if cmd.type == command_new
    then apply_new s cmd
    else if cmd.type == command_cancel
    then apply_cancel s cmd
    else apply_replace s cmd

-- A command for another symbol, or one that the static checks refuse, is rejected.
unfoldable pub apply : Snapshot → Command → Snapshot × List Event
apply s cmd =
    if not (eq_bytes cmd.symbol s.symbol)
    then (s, rejected reject_invalid_symbol cmd.order_id ∷ [])
    else elim (validate cmd) [
      | some e ↦ (s, rejected (validation_reject_reason cmd) cmd.order_id ∷ [])
      | none ↦ dispatch s cmd
    ]
