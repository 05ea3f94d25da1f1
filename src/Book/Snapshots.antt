-- ===== src/Book/Snapshots.antt =====
-- Snapshot, snapshotSide and NewFromSnapshot of internal/book/book.go.
use matching_engine_go.Prelude.{ℕ, List, [], ◌∷◌, Option, some, ◌>>=◌}
use matching_engine_go.Book.State.{
  Order, PriceLevel, SideBook, Book, LevelSnapshot, Snapshot, Map, new,
}
use matching_engine_go.Book.Matching.{rest}

-- The loop of snapshotSide.
unfoldable pub snapshot_levels : Map PriceLevel → List ℕ → Option (List LevelSnapshot)
snapshot_levels levels [] = some []
snapshot_levels levels (p ∷ ps) = do
  level ← levels p
  out ← snapshot_levels levels ps
  some (record { price = p; orders = level.queue } ∷ out)

unfoldable pub snapshot_side : SideBook → Option (List LevelSnapshot)
unfolding snapshot_levels
snapshot_side s = snapshot_levels s.levels s.prices

unfoldable pub snapshot : Book → Option Snapshot
unfolding snapshot_side
snapshot b = do
  bids ← snapshot_side b.bids
  asks ← snapshot_side b.asks
  some (record { symbol = b.symbol; next_trade_seq = b.next_trade_seq; bids = bids; asks = asks })

unfoldable pub restore_orders : List Order → Book → Option Book
restore_orders [] b = some b
restore_orders (o ∷ os) b = do b' ← rest b o; restore_orders os b'

unfoldable pub restore_side : List LevelSnapshot → Book → Option Book
unfolding restore_orders
restore_side [] b = some b
restore_side (l ∷ ls) b = do b' ← restore_orders l.orders b; restore_side ls b'

unfoldable pub new_from_snapshot : Snapshot → Option Book
unfolding restore_side
new_from_snapshot s = do
  b ← restore_side s.bids (record (new s.symbol) { next_trade_seq = s.next_trade_seq })
  restore_side s.asks b
