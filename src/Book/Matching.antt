-- ===== src/Book/Matching.antt =====
-- Book.rest, removeActive and the matching loop of internal/book/book.go. Events are returned in the
-- order in which the code appends them to the result.
use Prim.Native.Nat.{bit_and, bit_or}
use matching_engine_go.Prelude.{
  ℕ, zero, suc, ◌+◌, ◌-◌, ◌*◌, ◌%◌, ◌^◌, List, [], ◌∷◌, ◌++◌, Bool, true, false, not, Option, none,
  some, ◌==◌, if◌then◌else◌, length, lt64, sub64, min64, ◌>>=◌,
}
use matching_engine_go.Model.{
  Event, no_event, event_trade, event_order_reduced, side_buy, side_sell,
}
use matching_engine_go.Book.State.{
  Order, PriceLevel, SideBook, Book, Map, update, side_of, put_side, put_level,
}
use matching_engine_go.Book.Sides.{best, get_or_create_level, append, remove, remove_level_if_empty}

unfoldable pub rest : Book → Order → Option Book
rest b order = do
  (side, level) ← get_or_create_level (side_of b order.side) order.price
  let b' = put_side b order.side (put_level side (append level order))
  some (record b' {
    orders = update b'.orders order.id (some (record { side = order.side; price = order.price }));
  })

-- removeActive. An order whose level is not there has the nil `Level`, and nothing happens.
unfoldable pub remove_active : Book → Order → Option Book
remove_active b order = elim ((side_of b order.side).levels order.price) [
  | none ↦ some b
  | some level ↦ do
    let level' = remove level order
    side ← remove_level_if_empty (put_level (side_of b order.side) level') level'
    let b' = put_side b order.side side
    some (record b' { orders = update b'.orders order.id none })
]

-- The id that nextTradeID returns; the counter is stepped by its caller below.
unfoldable pub trade_id : ℕ → ℕ → ℕ
trade_id command_seq next_trade_seq =
    bit_or (command_seq * 2 ^ 20 % 2 ^ 64) (bit_and next_trade_seq (2 ^ 20 - 1))

-- nextTradeID
unfoldable pub next_trade_id : Book → ℕ → Book × ℕ
next_trade_id b command_seq = (
  record b { next_trade_seq = (b.next_trade_seq + 1) % 2 ^ 64 },
  trade_id command_seq b.next_trade_seq,
)

-- The end of a round: a filled order leaves the book, any other is reported with what it has left.
unfoldable pub settle : Book → Order → Option (Book × List Event)
settle b resting =
    if resting.leaves_qty == 0
    then (do b' ← remove_active b resting; some (b', []))
    else some (
      b,
      record no_event {
        type = event_order_reduced;
        order_id = resting.id;
        leaves_qty = resting.leaves_qty;
      }
          ∷ [],
    )

-- The body of the loop in matchAgainst at the head of the best level of the side `opposite`.
unfoldable pub match_round : ℕ → ℕ → Book → Order → PriceLevel → Option (Book × Order × List Event)
match_round opposite command_seq b incoming level = elim level.queue [
  | [] ↦ none
  | head ∷ others ↦ do
    let trade_qty = min64 incoming.leaves_qty head.leaves_qty
    let resting : Order = record head { leaves_qty = sub64 head.leaves_qty trade_qty }
    let level' : PriceLevel = record level {
      total_qty = sub64 level.total_qty trade_qty;
      queue = resting ∷ others;
    }
    let (b', id) =
        next_trade_id (put_side b opposite (put_level (side_of b opposite) level')) command_seq
    (b'', reduced) ← settle b' resting
    some (
      b'',
      record incoming { leaves_qty = sub64 incoming.leaves_qty trade_qty },
      record no_event {
        type = event_trade;
        trade_id = id;
        maker_order_id = resting.id;
        taker_order_id = incoming.id;
        price = resting.price;
        quantity = trade_qty;
      }
          ∷ reduced,
    )
]

-- matchAgainst, with fuel for its loop.
unfoldable pub match_against :
    ℕ → ℕ → (ℕ → Bool) → ℕ → Book → Order → Option (Book × Order × List Event)
match_against zero opposite price_allowed command_seq b incoming = none
match_against (suc fuel) opposite price_allowed command_seq b incoming =
    elim (lt64 0 incoming.leaves_qty) [
      | false ↦ some (b, incoming, [])
      | true ↦ elim (best (side_of b opposite)) [
        | none ↦ some (b, incoming, [])
        | some level ↦ elim (price_allowed level.price) [
          | false ↦ some (b, incoming, [])
          | true ↦ do
            (b', incoming', events) ← match_round opposite command_seq b incoming level
            (b'', incoming'', more) ←
                match_against fuel opposite price_allowed command_seq b' incoming'
            some (b'', incoming'', events ++ more)
        ]
      ]
    ]

-- The closures that Book.match passes as `priceAllowed`.
unfoldable pub price_allowed : Order → ℕ → Bool
price_allowed incoming best_price =
    if incoming.side == side_buy
    then (if incoming.price == 0 then true else not (lt64 incoming.price best_price))
    else (if incoming.price == 0 then true else not (lt64 best_price incoming.price))

-- How many orders rest on a side.
unfoldable pub count_orders : Map PriceLevel → List ℕ → ℕ
count_orders levels [] = 0
count_orders levels (p ∷ ps) =
    elim (levels p) [ none ↦ 0 | some level ↦ length level.queue ] + count_orders levels ps

-- Book.match. Each round but the last fills a resting order, so one round more than there are resting
-- orders is enough.
unfoldable pub match : ℕ → Book → Order → Option (Book × Order × List Event)
match command_seq b incoming =
    match_against (suc (count_orders opposite.levels opposite.prices)) opposite_side
      (price_allowed incoming) command_seq b incoming
  where
    opposite_side : ℕ
    opposite_side = if incoming.side == side_buy then side_sell else side_buy

    opposite : SideBook
    opposite = side_of b opposite_side
