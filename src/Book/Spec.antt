-- ===== src/Book/Spec.antt =====
-- What the operations of internal/book/book.go mean on a snapshot, with no maps, no running totals and
-- no search: a side is a list of price levels, best first.
pub mod Apply
use matching_engine_go.Prelude.{
  ℕ, zero, suc, ◌+◌, ◌-◌, ◌%◌, ◌^◌, List, [], ◌∷◌, ◌++◌, Bool, true, false, not, ◌||◌, Option, none,
  some, ◌==◌, if◌then◌else◌, ltb,
}
use matching_engine_go.Book.State.{Order, LevelSnapshot, unlink, set_leaves}
use matching_engine_go.Model.{Event, no_event, event_trade, event_order_reduced}
use matching_engine_go.Book.Matching.{trade_id}
use matching_engine_go.Book.View.{ahead}

abbrev pub level_with : ℕ → List Order → LevelSnapshot
level_with price orders = record { price = price; orders = orders }

-- An order joins the end of the queue at its price, which is opened where it is missing.
unfoldable pub insert_order : Bool → Order → List LevelSnapshot → List LevelSnapshot
insert_order is_bid o [] = level_with o.price (o ∷ []) ∷ []
insert_order is_bid o (l ∷ ls) =
    let later = l ∷ insert_order is_bid o ls in
    if l.price == o.price
    then level_with l.price (l.orders ++ o ∷ []) ∷ ls
    else if ahead is_bid l.price o.price
    then later
    else level_with o.price (o ∷ []) ∷ l ∷ ls

-- A level whose queue became empty is dropped.
abbrev pub cons_level : ℕ → List Order → List LevelSnapshot → List LevelSnapshot
cons_level price [] ls = ls
cons_level price (o ∷ os) ls = level_with price (o ∷ os) ∷ ls

-- The order with this id at this price is taken out.
unfoldable pub remove_order : ℕ → ℕ → List LevelSnapshot → List LevelSnapshot
unfolding unlink
remove_order price id [] = []
remove_order price id (l ∷ ls) =
    let later = l ∷ remove_order price id ls in
    if l.price == price then cons_level l.price (unlink id l.orders) ls else later

-- The order with this id at this price has a new quantity.
unfoldable pub amend_order : ℕ → ℕ → ℕ → List LevelSnapshot → List LevelSnapshot
unfolding set_leaves
amend_order price id n [] = []
amend_order price id n (l ∷ ls) =
    let later = l ∷ amend_order price id n ls in
    if l.price == price then level_with l.price (set_leaves id n l.orders) ∷ ls else later

-- A fill: the resting order as it was, and the quantity that it trades.
pub record Fill : Type 0 where
  pub maker : Order
  pub quantity : ℕ

-- What a sweep leaves: the quantity not filled, the side, and the fills in their order.
pub record Sweep : Type 0 where
  pub left : ℕ
  pub levels : List LevelSnapshot
  pub fills : List Fill

abbrev pub stop : ℕ → List LevelSnapshot → Sweep
stop n ls = record { left = n; levels = ls; fills = [] }

abbrev pub filled : Order → ℕ → Sweep → Sweep
filled maker n s = record s { fills = record { maker = maker; quantity = n } ∷ s.fills }

-- A quantity is filled from the orders of one level in their order; `next` goes on behind the level.
unfoldable pub sweep_queue : ℕ → List Order → List LevelSnapshot → (ℕ → Sweep) → ℕ → Sweep
sweep_queue price [] ls next n = next n
sweep_queue price (o ∷ os) ls next n =
    let whole = filled o o.leaves_qty (sweep_queue price os ls next (n - o.leaves_qty)) in
    if n == 0
    then stop 0 (level_with price (o ∷ os) ∷ ls)
    else if ltb n o.leaves_qty
    then filled o n
        (stop 0 (level_with price (record o { leaves_qty = o.leaves_qty - n } ∷ os) ∷ ls))
    else whole

-- Levels are used up from the best on, as far as their price is allowed.
unfoldable pub sweep : (ℕ → Bool) → List LevelSnapshot → ℕ → Sweep
unfolding sweep_queue
sweep allowed [] n = stop n []
sweep allowed (l ∷ ls) n =
    if n == 0 || not (allowed l.price)
    then stop n (l ∷ ls)
    else sweep_queue l.price l.orders ls (sweep allowed ls) n

-- The number that the next trade gets, and the counter behind some trades.
abbrev pub next_number : ℕ → ℕ
next_number n = (n + 1) % 2 ^ 64

abbrev pub advance : ℕ → List Fill → ℕ
advance n [] = n
advance n (f ∷ fs) = advance (next_number n) fs

abbrev pub trade_event : ℕ → ℕ → ℕ → Fill → Event
trade_event command_seq n taker f = record no_event {
  type = event_trade;
  trade_id = trade_id command_seq n;
  maker_order_id = f.maker.id;
  taker_order_id = taker;
  price = f.maker.price;
  quantity = f.quantity;
}

abbrev pub reduced_event : ℕ → ℕ → Event
reduced_event id leaves = record no_event {
  type = event_order_reduced;
  order_id = id;
  leaves_qty = leaves;
}

-- What a fill reports of an order that it does not use up.
abbrev pub remainder_events : Fill → List Event
remainder_events f =
    if ltb f.quantity f.maker.leaves_qty
    then reduced_event f.maker.id (f.maker.leaves_qty - f.quantity) ∷ []
    else []

abbrev pub fill_events : ℕ → ℕ → ℕ → List Fill → List Event
fill_events command_seq n taker [] = []
fill_events command_seq n taker (f ∷ fs) =
    trade_event command_seq n taker f
    ∷ (remainder_events f ++ fill_events command_seq (next_number n) taker fs)
