-- ===== src/Book/Trading.antt =====
-- What Book.match does, read off its events: how much is traded, with whom and at what price.
pub mod Fok
use matching_engine_go.Prelude.{
  ℕ, ◌+◌, ◌-◌, ◌%◌, ◌^◌, ◌≤◌, ◌<◌, ◌≡◌, ◌≢◌, refl, List, [], ◌∷◌, ◌++◌, map, Bool, true, false, not,
  Option, none, some, ◌==◌, if◌then◌else◌, All, All-append, length, arith, Bool-cases, ap, sym, ◌∙◌,
  inl, inr, ltb, lt64, le64-eq-leb, lt64-eq-ltb,
}
use mathlib.Core.Path.{subst}
use matching_engine_go.Model.{Event, event_trade, side_buy, side_sell}
use matching_engine_go.Book.State.{Order, Snapshot, LevelSnapshot}
use matching_engine_go.Book.Matching.{match, price_allowed}
use matching_engine_go.Book.View.{
  quantity, represent, IsLevel, IsOrder, IsPrice, IsSide, IsValid, levels_at, is_bid_side,
}
use matching_engine_go.Book.Refines.{levels_at-with_levels}
use matching_engine_go.Book.Refines.Match.{match-represent, opposite-IsSide}
use matching_engine_go.Book.Spec.{Fill, sweep, trade_event, remainder_events, fill_events, advance}
use matching_engine_go.Book.Spec.Apply.{opposite, matched, after_match, remaining, match_events}
use matching_engine_go.Book.Validity.Books.{after_match-IsValid}
use matching_engine_go.Book.Validity.Filled.{
  traded, side_quantity, all_orders, maker_of, leftover, IsFill, left-sweep, side_quantity-sweep,
  IsFill-sweep, FrontFirst-sweep,
}

-- The quantity that the trades among some events exchange.
abbrev pub volume : List Event → ℕ
volume [] = 0
volume (e ∷ es) = if e.type == event_trade then e.quantity + volume es else volume es

pub volume-fill_events :
    (seq n taker : ℕ) (fs : List Fill) → volume (fill_events seq n taker fs) ≡ traded fs
volume-fill_events seq n taker [] = refl
volume-fill_events seq n taker (f ∷ fs) =
    ground (arith, volume-fill_events seq ((n + 1) % 2 ^ 64) taker fs)

abbrev pub IsTrade : (Event → Type 0) → Event → Type 0
IsTrade P e = (e.type == event_trade) ≡ true → P e

none-remainder : (P : Event → Type 0) (f : Fill) → All (IsTrade P) (remainder_events f)
none-remainder P f = elim (Bool-cases (ltb f.quantity f.maker.leaves_qty)) [
  | inl e ↦ rw e ((λ t. cc), tt)
  | inr e ↦ rw e tt
]

pub trades-fill_events :
    (P : Event → Type 0) (seq n taker : ℕ) (fs : List Fill)
    → ((k : ℕ) → All (λ f. P (trade_event seq k taker f)) fs)
    → All (IsTrade P) (fill_events seq n taker fs)
trades-fill_events P seq n taker [] h = tt
trades-fill_events P seq n taker (f ∷ fs) h = (
  λ t. (h n).0,
  All-append (IsTrade P) (remainder_events f) _ (none-remainder P f)
      (trades-fill_events P seq ((n + 1) % 2 ^ 64) taker fs λ k. (h k).1),
)

levels-after_match :
    (s : Snapshot) (o : Order)
    → levels_at (after_match s o) (opposite o.side) ≡ (matched s o).levels
unfolding after_match
levels-after_match s o =
    levels_at-with_levels
      (record s { next_trade_seq = advance s.next_trade_seq (matched s o).fills }) (opposite o.side)
      (matched s o).levels

-- What an incoming order loses in Book.match is what its trades exchange, and the other side loses as
-- much, for a valid snapshot and a quantity that is not negative; Book.match ends with a valid book.
pub match-volume :
    (seq : ℕ) (s : Snapshot) (o : Order)
    → IsValid s
    → o.leaves_qty < 2 ^ 63
    → (t : Snapshot) × (o' : Order) × (events : List Event) × (match seq (represent s) o
        ≡ some (represent t, o', events))
      × IsValid t
      × (o'.leaves_qty + volume events ≡ o.leaves_qty)
      × (side_quantity (levels_at s (opposite o.side))
          ≡ side_quantity (levels_at t (opposite o.side)) + volume events)
unfolding matched
match-volume seq s o v h =
    let w = (opposite-IsSide s o.side v).0 in
    let side = opposite o.side in
    let e : volume (match_events seq s o) ≡ traded (matched s o).fills =
      volume-fill_events seq s.next_trade_seq o.id _ in
    (
      after_match s o,
      remaining s o,
      match_events seq s o,
      match-represent seq s o v h,
      after_match-IsValid s o v,
      ap (λ k. (matched s o).left + k) e ∙ left-sweep _ side (levels_at s side) o.leaves_qty w,
      side_quantity-sweep _ side (levels_at s side) o.leaves_qty w
          ∙ ap (λ (ls : List LevelSnapshot). side_quantity ls + traded (matched s o).fills)
              (sym (levels-after_match s o))
          ∙ ap (λ k. side_quantity (levels_at (after_match s o) side) + k) (sym e),
    )

-- For a valid book and an order whose quantity is not negative, Book.match fills the orders of the
-- other side in their priority: by price, then by age. Its events are those of fills of the first orders; at most one of these keeps a part of its quantity, and it
-- stays in front of the orders not reached.
pub match-priority :
    (seq : ℕ) (s : Snapshot) (o : Order)
    → IsValid s
    → o.leaves_qty < 2 ^ 63
    → (t : Snapshot) × (o' : Order) × (fills : List Fill) × (behind : List Order) × (match seq
          (represent s)
          o
        ≡ some (represent t, o', fill_events seq s.next_trade_seq o.id fills))
      × (all_orders (levels_at s (opposite o.side)) ≡ map maker_of fills ++ behind)
      × (all_orders (levels_at t (opposite o.side)) ≡ leftover fills ++ behind)
      × (length (leftover fills) ≤ 1)
unfolding matched
match-priority seq s o v h =
    let side = opposite o.side in
    let (behind, before, after, one) =
      FrontFirst-sweep _ side (levels_at s side) o.leaves_qty (opposite-IsSide s o.side v).0 in
    (
      after_match s o,
      remaining s o,
      (matched s o).fills,
      behind,
      match-represent seq s o v h,
      before,
      ap all_orders (levels-after_match s o) ∙ after,
      one,
    )

prices-orders :
    (side : ℕ) (ls : List LevelSnapshot)
    → All (IsLevel side) ls
    → All (λ o. o.price < 2 ^ 63) (all_orders ls)
prices-orders side [] v = tt
prices-orders side (l ∷ ls) v =
    All-append (λ (o : Order). o.price < 2 ^ 63) l.orders (all_orders ls) (go l.orders v.0.2)
      (prices-orders side ls v.1)
  where
    go :
        (os : List Order) → All (IsOrder side l.price) os → All (λ (o : Order). o.price < 2 ^ 63) os
    go [] h = tt
    go (o ∷ os) h = (omega (arith, h.0.1, v.0.0), go os h.1)

makers_fit :
    (fs : List Fill) (behind os : List Order)
    → os ≡ map maker_of fs ++ behind
    → All (λ (o : Order). o.price < 2 ^ 63) os
    → All (λ (f : Fill). f.maker.price < 2 ^ 63) fs
makers_fit fs behind os e h = go fs (subst (All (λ (o : Order). o.price < 2 ^ 63)) e h)
  where
    go :
        (gs : List Fill)
        → All (λ (o : Order). o.price < 2 ^ 63) (map maker_of gs ++ behind)
        → All (λ (f : Fill). f.maker.price < 2 ^ 63) gs
    go [] k = tt
    go (g ∷ gs) k = (k.0, go gs k.1)

-- A trade at a price no worse than the limit of the incoming order.
abbrev pub IsWithin : Order → Event → Type 0
IsWithin o e =
    (0 < e.quantity)
    × (o.side ≡ side_buy → e.price ≤ o.price)
    × (o.side ≡ side_sell → o.price ≤ e.price)

fill-IsWithin :
    (o : Order) (f : Fill) (seq k : ℕ)
    → IsPrice o.price
    → f.maker.price < 2 ^ 63
    → IsFill (price_allowed o) f
    → IsWithin o (trade_event seq k o.id f)
unfolding price_allowed
fill-IsWithin o f seq k p h i = (
  i.1,
  (λ b. ground (arith, lt64-eq-ltb o.price f.maker.price p.1 h, i.0)),
  λ b. ground (arith, lt64-eq-ltb f.maker.price o.price h p.1, i.0),
)

fills-IsWithin :
    (o : Order) (fs : List Fill) (seq k : ℕ)
    → IsPrice o.price
    → All (λ (f : Fill). f.maker.price < 2 ^ 63) fs
    → All (IsFill (price_allowed o)) fs
    → All (λ f. IsWithin o (trade_event seq k o.id f)) fs
fills-IsWithin o [] seq k p h i = tt
fills-IsWithin o (f ∷ fs) seq k p h i =
    (fill-IsWithin o f seq k p h.0 i.0, fills-IsWithin o fs seq k p h.1 i.1)

-- Every trade of Book.match for an order with a price has a positive quantity and a price no worse than
-- the price of the order, for a valid snapshot and a quantity that is not negative.
pub match-prices :
    (seq : ℕ) (s : Snapshot) (o : Order)
    → IsValid s
    → o.leaves_qty < 2 ^ 63
    → IsPrice o.price
    → (t : Snapshot) × (o' : Order) × (events : List Event) × (match seq (represent s) o
        ≡ some (represent t, o', events))
      × All (IsTrade (IsWithin o)) events
unfolding matched
match-prices seq s o v h p =
    let side = opposite o.side in
    let w = (opposite-IsSide s o.side v).0 in
    let (behind, before, _, _) =
      FrontFirst-sweep (price_allowed o) side (levels_at s side) o.leaves_qty w in
    (
      after_match s o,
      remaining s o,
      match_events seq s o,
      match-represent seq s o v h,
      trades-fill_events (IsWithin o) seq s.next_trade_seq o.id (matched s o).fills λ k.
          fills-IsWithin o _ seq k p
            (makers_fit _ behind _ before (prices-orders side (levels_at s side) w))
            (IsFill-sweep _ side (levels_at s side) o.leaves_qty w),
    )
