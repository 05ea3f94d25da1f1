-- ===== src/Book/Handlers.antt =====
-- availableQtyFor, the three handlers and Apply of internal/book/book.go.
use matching_engine_go.Prelude.{
  ℕ, List, [], ◌∷◌, ◌++◌, Bool, true, false, not, ◌&&◌, Option, none, some, ◌==◌, if◌then◌else◌,
  lt64, add64, sub64, ◌>>=◌, eq_bytes,
}
use matching_engine_go.Model.{
  Command, Event, Result, no_event, validate, validation_reject_reason, command_new, command_cancel,
  command_replace, side_buy, side_sell, order_type_market, tif_ioc, tif_fok, event_accepted,
  event_rejected, event_order_reduced, event_order_rested, event_canceled, event_replaced,
  cancel_by_user, cancel_unfilled_remainder, reject_invalid_symbol, reject_duplicate_order_id,
  reject_unknown_order_id, reject_invalid_replace, reject_would_not_fully_fill,
}
use matching_engine_go.Book.State.{
  Order, PriceLevel, Book, Handle, Map, side_of, put_side, put_level, find_order, set_leaves,
}
use matching_engine_go.Book.Matching.{rest, remove_active, match}

-- The closures `canTake` of availableQtyFor.
unfoldable pub can_take : ℕ → ℕ → ℕ → ℕ → Bool
can_take side limit_price order_type price =
    if order_type == order_type_market
    then true
    else if side == side_buy
    then not (lt64 limit_price price)
    else not (lt64 price limit_price)

-- The loop of availableQtyFor over the prices of the opposite side.
unfoldable pub available_loop : Map PriceLevel → (ℕ → Bool) → ℕ → List ℕ → ℕ → Option ℕ
available_loop levels take_at required [] total = some total
available_loop levels take_at required (price ∷ prices) total = elim (take_at price) [
  | false ↦ some total
  | true ↦ do
    level ← levels price
    let more = available_loop levels take_at required prices (add64 total level.total_qty)
    if lt64 level.total_qty (sub64 required total) then more else some required
]

unfoldable pub available_qty_for : Book → ℕ → ℕ → ℕ → ℕ → Option ℕ
unfolding can_take available_loop
available_qty_for b side limit_price order_type required =
    let opposite = side_of b (if side == side_buy then side_sell else side_buy) in
    available_loop opposite.levels (can_take side limit_price order_type) required opposite.prices 0

-- The events that the handlers write.
abbrev pub rejected : ℕ → ℕ → Event
rejected reason id = record no_event { type = event_rejected; reason = reason; order_id = id }

abbrev pub accepted : ℕ → Event
accepted id = record no_event { type = event_accepted; order_id = id }

abbrev pub canceled : ℕ → ℕ → ℕ → Event
canceled id qty reason = record no_event {
  type = event_canceled;
  order_id = id;
  canceled_qty = qty;
  cancel_reason = reason;
}

abbrev pub rested : Order → Event
rested o = record no_event {
  type = event_order_rested;
  order_id = o.id;
  price = o.price;
  leaves_qty = o.leaves_qty;
}

abbrev pub replaced_event : ℕ → ℕ → ℕ → Bool → Event
replaced_event id price leaves retained = record no_event {
  type = event_replaced;
  order_id = id;
  price = price;
  leaves_qty = leaves;
  priority_retained = retained;
}

-- What handleNew does with the quantity that is left after matching.
unfoldable pub finish_new : Command → Book → Order → List Event → Option (Book × List Event)
finish_new cmd b order events =
    if order.leaves_qty == 0
    then some (b, events)
    else if cmd.order_type == order_type_market
    then some (b, events ++ canceled order.id order.leaves_qty cancel_unfilled_remainder ∷ [])
    else if cmd.time_in_force == tif_ioc
    then some (b, events ++ canceled order.id order.leaves_qty cancel_unfilled_remainder ∷ [])
    else (do b' ← rest b order; some (b', events ++ rested order ∷ []))

-- handleNew behind its two early returns.
unfoldable pub accept_new : Book → Command → Option (Book × List Event)
unfolding finish_new
accept_new b cmd = do
  (b', order', events) ← match cmd.seq b order
  finish_new cmd b' order' (accepted cmd.order_id ∷ events)
  where
    order : Order
    order = record {
      id = cmd.order_id;
      side = cmd.side;
      price = cmd.price;
      leaves_qty = cmd.quantity;
      seq = cmd.seq;
    }

unfoldable pub handle_new : Book → Command → Option (Book × List Event)
unfolding accept_new available_qty_for
handle_new b cmd = elim (b.orders cmd.order_id) [
  | some handle ↦ some (b, rejected reject_duplicate_order_id cmd.order_id ∷ [])
  | none ↦
      if cmd.time_in_force == tif_fok
      then (do
        available ← available_qty_for b cmd.side cmd.price cmd.order_type cmd.quantity
        if lt64 available cmd.quantity
            then some (b, rejected reject_would_not_fully_fill cmd.order_id ∷ [])
            else accept_new b cmd)
      else accept_new b cmd
]

-- The order to which a pointer in the map leads.
unfoldable pub deref : Book → Handle → ℕ → Option Order
deref b h id = do level ← (side_of b h.side).levels h.price; find_order id level.queue

unfoldable pub handle_cancel : Book → Command → Option (Book × List Event)
unfolding deref
handle_cancel b cmd = elim (b.orders cmd.order_id) [
  | none ↦ some (b, rejected reject_unknown_order_id cmd.order_id ∷ [])
  | some handle ↦ do
    order ← deref b handle cmd.order_id
    b' ← remove_active b order
    some (b', accepted cmd.order_id ∷ canceled cmd.order_id order.leaves_qty cancel_by_user ∷ [])
]

-- The branch of handleReplace that keeps the order in its place.
unfoldable pub reduce_in_place : Book → Order → ℕ → Option (Book × List Event)
reduce_in_place b order new_leaves = do
  level ← (side_of b order.side).levels order.price
  let reduced = sub64 order.leaves_qty new_leaves
  let level' : PriceLevel = record level {
    total_qty = sub64 level.total_qty reduced;
    queue = set_leaves order.id new_leaves level.queue;
  }
  some (
    put_side b order.side (put_level (side_of b order.side) level'),
    (if lt64 0 reduced
          then record no_event {
            type = event_order_reduced;
            order_id = order.id;
            leaves_qty = new_leaves;
          }
            ∷ []
          else [])
        ++ replaced_event order.id order.price new_leaves true ∷ [],
  )

-- The branch of handleReplace that gives the order a new place.
unfoldable pub requeue : Book → Command → Order → ℕ → ℕ → Option (Book × List Event)
requeue b cmd order new_price new_leaves = do
  b₁ ← remove_active b order
  (b₂, replaced, events) ← match cmd.seq b₁ incoming
  (b₃, more) ← finish b₂ replaced
  some (b₃, events ++ more ++ replaced_event cmd.order_id new_price replaced.leaves_qty false ∷ [])
  where
    incoming : Order
    incoming = record {
      id = cmd.order_id;
      side = order.side;
      price = new_price;
      leaves_qty = new_leaves;
      seq = cmd.seq;
    }

    finish : Book → Order → Option (Book × List Event)
    finish b replaced =
        if lt64 0 replaced.leaves_qty
        then (do b' ← rest b replaced; some (b', rested replaced ∷ []))
        else some (b, [])

-- handleReplace at the order that it found.
unfoldable pub replace_order : Book → Command → Order → Option (Book × List Event)
unfolding reduce_in_place requeue
replace_order b cmd order =
    let new_price = if lt64 0 cmd.new_price then cmd.new_price else order.price in
    if not (lt64 0 new_price)
    then some (b, rejected reject_invalid_replace cmd.order_id ∷ [])
    else if not (lt64 0 cmd.new_leaves_qty)
    then some (b, rejected reject_invalid_replace cmd.order_id ∷ [])
    else do
      (b', events) ←
          if new_price == order.price && not (lt64 order.leaves_qty cmd.new_leaves_qty)
          then reduce_in_place b order cmd.new_leaves_qty
          else requeue b cmd order new_price cmd.new_leaves_qty
      some (b', accepted cmd.order_id ∷ events)

unfoldable pub handle_replace : Book → Command → Option (Book × List Event)
unfolding deref replace_order
handle_replace b cmd = elim (b.orders cmd.order_id) [
  | none ↦ some (b, rejected reject_unknown_order_id cmd.order_id ∷ [])
  | some handle ↦ do order ← deref b handle cmd.order_id; replace_order b cmd order
]

-- The switch of Apply on the command's type.
unfoldable pub dispatch : Book → Command → Option (Book × List Event)
dispatch b cmd =
    if cmd.type == command_new
    then handle_new b cmd
    else if cmd.type == command_cancel
    then handle_cancel b cmd
    else if cmd.type == command_replace
    then handle_replace b cmd
    else some (b, [])

-- The events that Apply writes.
unfoldable pub apply_events : Book → Command → Option (Book × List Event)
unfolding dispatch
apply_events b cmd =
    if not (eq_bytes cmd.symbol b.symbol)
    then some (b, rejected reject_invalid_symbol cmd.order_id ∷ [])
    else elim (validate cmd) [
      | some e ↦ some (b, rejected (validation_reject_reason cmd) cmd.order_id ∷ [])
      | none ↦ dispatch b cmd
    ]

-- Apply
unfoldable pub apply : Book → Command → Option (Book × Result)
unfolding apply_events
apply b cmd = do
  (b', events) ← apply_events b cmd
  some (b', record { command_seq = cmd.seq; events = events })
