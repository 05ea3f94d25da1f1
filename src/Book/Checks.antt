-- ===== src/Book/Checks.antt =====
-- CheckInvariants of internal/book/book.go. Its test that an order points back to its level has
-- nothing to test here, since a queue holds its orders. The outer `none` is a panic, the inner one
-- the nil error.
use matching_engine_go.Prelude.{
  ℕ, List, [], ◌∷◌, Bool, not, Option, none, some, ◌==◌, if◌then◌else◌, lt64, add64,
}
use matching_engine_go.Book.State.{Order, PriceLevel, SideBook, Book, Map}
use matching_engine_go.Book.Sides.{best, before}

pub data Violation : Type 0 where
  not_sorted missing_level empty_level non_positive_leaves total_mismatch crossed_book : Violation

-- `prices[i]` against `prices[i-1]`.
unfoldable pub check_sorted : Bool → List ℕ → Option Violation
check_sorted is_bid [] = none
check_sorted is_bid (p ∷ []) = none
check_sorted is_bid (p ∷ q ∷ ps) =
    let later = check_sorted is_bid (q ∷ ps) in if before is_bid q p then some not_sorted else later

-- The walk along a queue, which adds up `qty`.
unfoldable pub check_queue : List Order → ℕ → ℕ → Option Violation
check_queue [] qty total = if qty == total then none else some total_mismatch
check_queue (o ∷ os) qty total =
    let later = check_queue os (add64 qty o.leaves_qty) total in
    if not (lt64 0 o.leaves_qty) then some non_positive_leaves else later

unfoldable pub check_level : Option PriceLevel → Option Violation
unfolding check_queue
check_level none = some missing_level
check_level (some level) = elim level.queue [
  | [] ↦ some empty_level
  | o ∷ os ↦ check_queue (o ∷ os) 0 level.total_qty
]

-- The first violation of two.
infixl 30 ◌or_else◌
abbrev pub ◌or_else◌ : Option Violation → Option Violation → Option Violation
none or_else w = w
some v or_else w = some v

unfoldable pub check_levels : Map PriceLevel → List ℕ → Option Violation
unfolding check_level
check_levels levels [] = none
check_levels levels (p ∷ ps) = check_level (levels p) or_else check_levels levels ps

unfoldable pub check_side : SideBook → Option Violation
unfolding check_sorted check_levels
check_side s = check_sorted s.is_bid s.prices or_else check_levels s.levels s.prices

unfoldable pub check_crossed : Option PriceLevel → Option PriceLevel → Option Violation
check_crossed (some bid) (some ask) =
    if not (lt64 bid.price ask.price) then some crossed_book else none
check_crossed (some bid) none = none
check_crossed none ask = none

unfoldable pub check_invariants : Book → Option Violation
unfolding check_side check_crossed
check_invariants b =
    check_side b.bids or_else check_side b.asks or_else check_crossed (best b.bids) (best b.asks)
