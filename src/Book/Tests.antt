-- ===== src/Book/Tests.antt =====
-- Runs of the book at concrete inputs, and the theorems at them.
use matching_engine_go.Prelude.{
  ℕ, ◌+◌, ◌≤◌, ◌≡◌, ◌⊎◌, inl, refl, List, [], ◌∷◌, ◌++◌, map, Option, none, some, All, length,
  arith, lt64, sub64, add64, min64,
}
use matching_engine_go.Model.{
  Command, Event, Result, IsCommand, command_new, command_replace, side_buy, side_sell,
  order_type_limit, order_type_market, cancel_unfilled_remainder, tif_gtc, tif_fok,
}
use matching_engine_go.Book.State.{find_order, unlink, Order, Book, Snapshot, new}
use matching_engine_go.Book.Matching.{
  match, match_against, match_round, price_allowed, settle, remove_active, next_trade_id, trade_id,
  rest, count_orders,
}
use matching_engine_go.Book.Sides.{
  best, find_price_index, find_insert_index, insert_index_loop, get_or_create_level, append, remove,
  remove_level_if_empty,
}
use matching_engine_go.Book.Handlers
use matching_engine_go.Book.Handlers.{handle_new, accept_new, finish_new, accepted, canceled}
use matching_engine_go.Book.Checks.{check_invariants}
use matching_engine_go.Book.Snapshots.{snapshot, new_from_snapshot}
use matching_engine_go.Book.View.{represent, IsValid, levels_at}
use matching_engine_go.Book.Spec.{Fill, fill_events}
use matching_engine_go.Book.Spec.Apply
use matching_engine_go.Book.Spec.Apply.{opposite}
use matching_engine_go.Book.Refines.New.{IsNew}
use matching_engine_go.Book.Refines.Apply.{apply-represent, apply-IsValid}
use matching_engine_go.Book.Audit.{check_invariants-represent}
use matching_engine_go.Book.Restore.{snapshot-represent, new_from_snapshot-represent}
use matching_engine_go.Book.Trading.{
  volume, IsTrade, IsWithin, match-volume, match-priority, match-prices,
}
use matching_engine_go.Book.Trading.Fok.{handle_new_fill_or_kill}
use matching_engine_go.Book.Validity.Filled.{side_quantity, all_orders, maker_of, leftover}
use matching_engine_go.Book.Reachable.{apply_all, spec_all, apply_all-represent, apply_all-new}

abbrev order : ℕ → ℕ → ℕ → ℕ → ℕ → Order
order id side price qty seq = record {
  id = id;
  side = side;
  price = price;
  leaves_qty = qty;
  seq = seq;
}

-- One bid at 99 and asks at 101 and 102.
abbrev sample : Snapshot
sample = record {
  symbol = 65 ∷ [];
  next_trade_seq = 1;
  bids = record { price = 99; orders = order 1 side_buy 99 5 1 ∷ [] } ∷ [];
  asks =
      record { price = 101; orders = order 2 side_sell 101 3 2 ∷ order 3 side_sell 101 4 3 ∷ [] }
      ∷ record { price = 102; orders = order 4 side_sell 102 10 4 ∷ [] }
      ∷ [];
}

sample-IsValid : IsValid sample
sample-IsValid = record {
  bids_valid = (
    (((omega arith, omega arith), (λ e. cc), ((refl, refl, omega arith, omega arith), tt)), tt),
    (tt, tt),
  );
  asks_valid = (
    (
      (
        (omega arith, omega arith),
        (λ e. cc),
        ((refl, refl, omega arith, omega arith), ((refl, refl, omega arith, omega arith), tt)),
      ),
      (((omega arith, omega arith), (λ e. cc), ((refl, refl, omega arith, omega arith), tt)), tt),
    ),
    ((refl, tt), (tt, tt)),
  );
  distinct = λ id. ground arith;
  uncrossed = ((omega arith, (omega arith, tt)), tt);
}

-- An order to buy five at 101, another to buy seven at once or none, and a replacement of order 3.
abbrev buy_command : Command
buy_command = record {
  seq = 7;
  symbol = 65 ∷ [];
  type = command_new;
  order_id = 10;
  side = side_buy;
  order_type = order_type_limit;
  time_in_force = tif_gtc;
  price = 101;
  quantity = 8;
  new_price = 0;
  new_leaves_qty = 0;
}

abbrev fok_command : Command
fok_command = record buy_command { order_id = 11; time_in_force = tif_fok; quantity = 7 }

abbrev replace_command : Command
replace_command = record buy_command {
  seq = 8;
  type = command_replace;
  order_id = 3;
  new_price = 99;
  new_leaves_qty = 6;
}

buy_command-IsCommand : IsCommand buy_command
buy_command-IsCommand = record {
  price_fits = omega arith;
  quantity_fits = omega arith;
  new_price_fits = omega arith;
  new_leaves_fits = omega arith;
}

replace_command-IsCommand : IsCommand replace_command
replace_command-IsCommand = record {
  price_fits = omega arith;
  quantity_fits = omega arith;
  new_price_fits = omega arith;
  new_leaves_fits = omega arith;
}

fok_command-IsNew : IsNew fok_command
fok_command-IsNew = record {
  side_valid = inl refl;
  quantity_positive = omega arith;
  quantity_fits = omega arith;
  price_valid = λ m. (omega arith, omega arith);
}

-- The order that comes in with buy_command.
abbrev taker : Order
taker = order 10 side_buy 101 8 7

-- The code at buy_command: seven are traded with the two orders at 101, and one rests.
abbrev events_of : Option (Book × List Event) → List Event
events_of none = []
events_of (some (b, events)) = events

run_buy :
    map (λ e. e.type) (events_of (handle_new (represent sample) buy_command)) ≡ 1 ∷ 3 ∷ 3 ∷ 5 ∷ []
unfolding handle_new find_order lt64 sub64 match match_against best price_allowed min64 add64
    match_round settle remove_active next_trade_id trade_id rest count_orders find_price_index
    find_insert_index insert_index_loop get_or_create_level append remove remove_level_if_empty
    unlink accept_new finish_new
run_buy = refl

-- A fill-or-kill market order whose price field is 50 is accepted, and then canceled with nothing traded:
-- availableQtyFor takes no heed of the price of a market order, and match does.
abbrev fok_market_command : Command
fok_market_command = record fok_command { order_type = order_type_market; price = 50 }

run_fok_market :
    events_of (handle_new (represent sample) fok_market_command)
    ≡ accepted 11 ∷ canceled 11 7 cancel_unfilled_remainder ∷ []
unfolding handle_new find_order lt64 sub64 match match_against best price_allowed
run_fok_market = refl

apply-represent_example :
    Handlers.apply (represent sample) buy_command
    ≡ some (
      represent (Apply.apply sample buy_command).0,
      record { command_seq = 7; events = (Apply.apply sample buy_command).1 },
    )
apply-represent_example = apply-represent sample buy_command sample-IsValid buy_command-IsCommand

apply-IsValid_example :
    (t : Snapshot) × (r : Result) × (Handlers.apply (represent sample) buy_command
      ≡ some (represent t, r))
    × IsValid t
apply-IsValid_example = apply-IsValid sample buy_command sample-IsValid buy_command-IsCommand

check_invariants-represent_example : check_invariants (represent sample) ≡ none
check_invariants-represent_example = check_invariants-represent sample sample-IsValid

snapshot-represent_example : snapshot (represent sample) ≡ some sample
snapshot-represent_example = snapshot-represent sample sample-IsValid

new_from_snapshot-represent_example : new_from_snapshot sample ≡ some (represent sample)
new_from_snapshot-represent_example = new_from_snapshot-represent sample sample-IsValid

match-volume_example :
    (t : Snapshot) × (o' : Order) × (events : List Event) × (match 7 (represent sample) taker
      ≡ some (represent t, o', events))
    × IsValid t
    × (o'.leaves_qty + volume events ≡ 8)
    × (17 ≡ side_quantity (levels_at t side_sell) + volume events)
match-volume_example = match-volume 7 sample taker sample-IsValid (omega arith)

match-priority_example :
    (t : Snapshot) × (o' : Order) × (fills : List Fill) × (behind : List Order) × (match 7
        (represent sample)
        taker
      ≡ some (represent t, o', fill_events 7 1 10 fills))
    × (all_orders (levels_at sample side_sell) ≡ map maker_of fills ++ behind)
    × (all_orders (levels_at t side_sell) ≡ leftover fills ++ behind)
    × (length (leftover fills) ≤ 1)
match-priority_example = match-priority 7 sample taker sample-IsValid (omega arith)

match-prices_example :
    (t : Snapshot) × (o' : Order) × (events : List Event) × (match 7 (represent sample) taker
      ≡ some (represent t, o', events))
    × All (IsTrade (IsWithin taker)) events
match-prices_example =
    match-prices 7 sample taker sample-IsValid (omega arith) (omega arith, omega arith)

handle_new_fill_or_kill_example :
    (b : Book) × (events : List Event) × (handle_new (represent sample) fok_command
      ≡ some (b, events))
    × (((b ≡ represent sample) × (volume events ≡ 0)) ⊎ (volume events ≡ 7))
handle_new_fill_or_kill_example =
    handle_new_fill_or_kill sample fok_command sample-IsValid fok_command-IsNew refl refl
      (omega arith, (omega arith, tt))

apply_all-represent_example :
    (apply_all (buy_command ∷ replace_command ∷ []) (represent sample)
      ≡ some (
        represent (spec_all (buy_command ∷ replace_command ∷ []) sample).0,
        (spec_all (buy_command ∷ replace_command ∷ []) sample).1,
      ))
    × IsValid (spec_all (buy_command ∷ replace_command ∷ []) sample).0
apply_all-represent_example =
    apply_all-represent (buy_command ∷ replace_command ∷ []) sample sample-IsValid
      (buy_command-IsCommand, (replace_command-IsCommand, tt))

apply_all-new_example :
    (b : Book) × (results : List Result) × (t : Snapshot) × (apply_all
        (buy_command ∷ replace_command ∷ [])
        (new (65 ∷ []))
      ≡ some (b, results))
    × (check_invariants b ≡ none)
    × (snapshot b ≡ some t)
    × (new_from_snapshot t ≡ some b)
apply_all-new_example =
    apply_all-new (65 ∷ []) (buy_command ∷ replace_command ∷ [])
      (buy_command-IsCommand, (replace_command-IsCommand, tt))
