-- ===== src/Book/View.antt =====
-- The abstract view of a book is its snapshot: for each side the list of its price levels, best first,
-- each with its orders, oldest first. `represent` is the book of a snapshot, with the maps, the
-- price index and the running totals of internal/book/book.go, and `IsValid` is what every
-- reachable snapshot satisfies.
pub mod Search
pub mod Levels
pub mod Removal
pub mod Index
use matching_engine_go.Prelude.{
  ℕ, ◌+◌, ◌%◌, ◌^◌, ◌≤◌, ◌<◌, ◌≡◌, ◌≢◌, List, [], ◌∷◌, Bool, true, false, not, Option, none, some,
  ◌==◌, if◌then◌else◌, ltb, All,
}
use matching_engine_go.Model.{side_buy, side_sell}
use matching_engine_go.Book.State.{
  Order, PriceLevel, SideBook, Book, Handle, Map, LevelSnapshot, Snapshot, find_order,
}

-- The quantity of a queue, as a number of any size.
abbrev pub quantity : List Order → ℕ
quantity [] = 0
quantity (o ∷ os) = o.leaves_qty + quantity os

-- The order is active under this id; how often the id stands in a queue or on a side.
abbrev pub one_if : Bool → ℕ
one_if true = 1
one_if false = 0

abbrev pub count : ℕ → List Order → ℕ
count id [] = 0
count id (o ∷ os) = one_if (o.id == id) + count id os

abbrev pub count_side : ℕ → List LevelSnapshot → ℕ
count_side id [] = 0
count_side id (l ∷ ls) = count id l.orders + count_side id ls

abbrev pub represent_level : LevelSnapshot → PriceLevel
represent_level l = record {
  price = l.price;
  total_qty = quantity l.orders % 2 ^ 64;
  queue = l.orders;
}

abbrev pub levels_of : List LevelSnapshot → Map PriceLevel
levels_of [] p = none
levels_of (l ∷ ls) p = if l.price == p then some (represent_level l) else levels_of ls p

abbrev pub prices_of : List LevelSnapshot → List ℕ
prices_of [] = []
prices_of (l ∷ ls) = l.price ∷ prices_of ls

abbrev pub represent_side : Bool → List LevelSnapshot → SideBook
represent_side is_bid ls = record { levels = levels_of ls; prices = prices_of ls; is_bid = is_bid }

abbrev pub handle_of : Order → Handle
handle_of o = record { side = o.side; price = o.price }

abbrev pub located : Option Order → Option Handle → Option Handle
located none other = other
located (some o) other = some (handle_of o)

abbrev pub locate : List LevelSnapshot → Option Handle → Map Handle
locate [] other id = other
locate (l ∷ ls) other id = located (find_order id l.orders) (locate ls other id)

abbrev pub represent : Snapshot → Book
represent s = record {
  symbol = s.symbol;
  bids = represent_side true s.bids;
  asks = represent_side false s.asks;
  orders = λ id. locate s.bids (locate s.asks none id) id;
  next_trade_seq = s.next_trade_seq;
}

-- `p` is a better price than `q`.
abbrev pub ahead : Bool → ℕ → ℕ → Bool
ahead is_bid p q = if is_bid then ltb q p else ltb p q

abbrev pub IsPrice : ℕ → Type 0
IsPrice p = (0 < p) × (p < 2 ^ 63)

abbrev pub IsOrder : ℕ → ℕ → Order → Type 0
IsOrder side price o =
    (o.side ≡ side) × (o.price ≡ price) × (0 < o.leaves_qty) × (o.leaves_qty < 2 ^ 63)

abbrev pub IsLevel : ℕ → LevelSnapshot → Type 0
IsLevel side l = IsPrice l.price × (l.orders ≢ []) × All (IsOrder side l.price) l.orders

abbrev pub IsSorted : Bool → List ℕ → Type 0
IsSorted is_bid [] = Unit {0}
IsSorted is_bid (p ∷ ps) = All (λ q. ahead is_bid p q ≡ true) ps × IsSorted is_bid ps

abbrev pub IsSide : Bool → ℕ → List LevelSnapshot → Type 0
IsSide is_bid side ls = All (IsLevel side) ls × IsSorted is_bid (prices_of ls)

-- Every bid is below every ask.
abbrev pub IsUncrossed : List LevelSnapshot → List LevelSnapshot → Type 0
IsUncrossed bids asks = All (λ p. All (λ q. p < q) (prices_of asks)) (prices_of bids)

-- The levels of a side in a snapshot, and the snapshot with others.
abbrev pub levels_at : Snapshot → ℕ → List LevelSnapshot
levels_at s side = if side == side_sell then s.asks else s.bids

abbrev pub with_levels : Snapshot → ℕ → List LevelSnapshot → Snapshot
with_levels s side ls = record s {
  bids = if side == side_sell then s.bids else ls;
  asks = if side == side_sell then ls else s.asks;
}

abbrev pub is_bid_side : ℕ → Bool
is_bid_side side = not (side == side_sell)

-- No id stands twice in a book.
abbrev pub IsDistinct : Snapshot → Type 0
IsDistinct s = (id : ℕ) → count_side id s.bids + count_side id s.asks ≤ 1

pub record IsValid (s : Snapshot) : Type 0 where
  pub bids_valid : IsSide true side_buy s.bids
  pub asks_valid : IsSide false side_sell s.asks
  pub distinct : IsDistinct s
  pub uncrossed : IsUncrossed s.bids s.asks
