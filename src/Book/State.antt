-- ===== src/Book/State.antt =====
-- The data of internal/book/book.go. An `*Order` is found by its side, its price and its id: the
-- first two never change and lead to its level, and the intrusive list of a level (Head, Tail, Prev
-- and Next) is the list `queue`, head first. A Go map is a function into `Option`.
use matching_engine_go.Prelude.{
  ℕ, List, [], ◌∷◌, Bool, true, false, Option, none, some, ◌==◌, if◌then◌else◌,
}
use matching_engine_go.Model.{side_sell}

-- A Go map with keys that are numbers.
abbrev pub Map : Type 0 → Type 0
Map V = ℕ → Option V

-- `m[k] = v` and, with `none`, `delete(m, k)`
abbrev pub update : {V : Type 0} → Map V → ℕ → Option V → Map V
update m k v j = if j == k then v else m j

-- Order, and OrderSnapshot with the same fields.
pub record Order : Type 0 where
  pub id : ℕ
  pub side : ℕ
  pub price : ℕ
  pub leaves_qty : ℕ
  pub seq : ℕ

pub record PriceLevel : Type 0 where
  pub price : ℕ
  pub total_qty : ℕ
  pub queue : List Order

pub record SideBook : Type 0 where
  pub levels : Map PriceLevel
  pub prices : List ℕ
  pub is_bid : Bool

-- What identifies an active order beside its id.
pub record Handle : Type 0 where
  pub side : ℕ
  pub price : ℕ

pub record Book : Type 0 where
  pub symbol : List ℕ
  pub bids : SideBook
  pub asks : SideBook
  pub orders : Map Handle
  pub next_trade_seq : ℕ

pub record LevelSnapshot : Type 0 where
  pub price : ℕ
  pub orders : List Order

pub record Snapshot : Type 0 where
  pub symbol : List ℕ
  pub next_trade_seq : ℕ
  pub bids : List LevelSnapshot
  pub asks : List LevelSnapshot

unfoldable pub new_side_book : Bool → SideBook
new_side_book bid = record { levels = λ p. none; prices = []; is_bid = bid }

-- New
unfoldable pub new : List ℕ → Book
unfolding new_side_book
new symbol = record {
  symbol = symbol;
  bids = new_side_book true;
  asks = new_side_book false;
  orders = λ id. none;
  next_trade_seq = 1;
}

-- `bookSide := b.bids; if order.Side == model.SideSell { bookSide = b.asks }`
abbrev pub side_of : Book → ℕ → SideBook
side_of b side = if side == side_sell then b.asks else b.bids

-- The book after a write through the pointer `bookSide`.
abbrev pub put_side : Book → ℕ → SideBook → Book
put_side b side s = if side == side_sell then record b { asks = s } else record b { bids = s }

-- A write through the pointer to a level.
abbrev pub put_level : SideBook → PriceLevel → SideBook
put_level s level = record s { levels = update s.levels level.price (some level) }

-- The order with an id in the queue of a level, and the queue without it.
unfoldable pub find_order : ℕ → List Order → Option Order
find_order id [] = none
find_order id (o ∷ os) = if o.id == id then some o else find_order id os

unfoldable pub unlink : ℕ → List Order → List Order
unlink id [] = []
unlink id (o ∷ os) = let rest = unlink id os in if o.id == id then os else o ∷ rest

-- `order.LeavesQty = n` for the order with an id.
unfoldable pub set_leaves : ℕ → ℕ → List Order → List Order
set_leaves id n [] = []
set_leaves id n (o ∷ os) =
    let rest = set_leaves id n os in
    if o.id == id then record o { leaves_qty = n } ∷ os else o ∷ rest
