-- ===== src/Book/Sides.antt =====
-- The methods of sideBook and PriceLevel in internal/book/book.go. `none` is a panic, or fuel that
-- ran out.
use matching_engine_go.Prelude.{
  ℕ, zero, suc, ◌+◌, ◌-◌, ◌/◌, List, [], ◌∷◌, ◌++◌, Bool, true, false, Option, none, some, ◌==◌,
  if◌then◌else◌, ltb, leb, lt64, add64, sub64, get_elem?, length, take, drop, ◌>>=◌,
}
use matching_engine_go.Book.State.{Order, PriceLevel, SideBook, update, unlink}

unfoldable pub best : SideBook → Option PriceLevel
best s = elim s.prices [ [] ↦ none | p ∷ ps ↦ s.levels p ]

-- The comparison in findInsertIndex: `p` has its place strictly before `price`.
abbrev pub before : Bool → ℕ → ℕ → Bool
before is_bid p price = if is_bid then lt64 price p else lt64 p price

-- The loop of findInsertIndex over `left` and `right`.
unfoldable pub insert_index_loop : ℕ → Bool → List ℕ → ℕ → ℕ → ℕ → Option ℕ
insert_index_loop zero is_bid prices price left right = none
insert_index_loop (suc fuel) is_bid prices price left right = elim (ltb left right) [
  | false ↦ some left
  | true ↦ do
    let mid = left + (right - left) / 2
    p ← get_elem? prices mid
    insert_index_loop fuel is_bid prices price (if before is_bid p price then mid + 1 else left)
        (if before is_bid p price then right else mid)
]

-- findInsertIndex. A round shrinks the interval, so one round more than there are prices is enough.
unfoldable pub find_insert_index : SideBook → ℕ → Option ℕ
unfolding insert_index_loop
find_insert_index s price =
    insert_index_loop (suc (length s.prices)) s.is_bid s.prices price 0 (length s.prices)

-- findPriceIndex; the inner `none` is -1.
unfoldable pub find_price_index : SideBook → ℕ → Option (Option ℕ)
find_price_index s price = do
  idx ← find_insert_index s price
  if leb (length s.prices) idx
      then some none
      else (do p ← get_elem? s.prices idx; some (if p == price then some idx else none))

-- getOrCreateLevel: the side after the call, and the level that it returns.
unfoldable pub get_or_create_level : SideBook → ℕ → Option (SideBook × PriceLevel)
get_or_create_level s price = elim (s.levels price) [
  | some level ↦ some (s, level)
  | none ↦ do
    let level = new_level
    idx ← find_insert_index s price
    some (
      record s {
        levels = update s.levels price (some level);
        prices = take idx s.prices ++ price ∷ drop idx s.prices;
      },
      level,
    )
]
  where
    new_level : PriceLevel
    new_level = record { price = price; total_qty = 0; queue = [] }

-- removeLevelIfEmpty, for a level that is not nil.
unfoldable pub remove_level_if_empty : SideBook → PriceLevel → Option SideBook
remove_level_if_empty s level = elim level.queue [
  | head ∷ rest ↦ some s
  | [] ↦ do
    let s' : SideBook = record s { levels = update s.levels level.price none }
    found ← find_price_index s' level.price
    elim found [
      | none ↦ some s'
      | some idx ↦ some (record s' { prices = take idx s'.prices ++ drop (idx + 1) s'.prices })
    ]
]

-- PriceLevel.append
unfoldable pub append : PriceLevel → Order → PriceLevel
append l order = record l {
  total_qty = add64 l.total_qty order.leaves_qty;
  queue = l.queue ++ order ∷ [];
}

-- PriceLevel.remove
unfoldable pub remove : PriceLevel → Order → PriceLevel
remove l order = record l {
  total_qty = sub64 l.total_qty order.leaves_qty;
  queue = unlink order.id l.queue;
}
