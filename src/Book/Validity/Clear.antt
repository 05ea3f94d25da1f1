-- ===== src/Book/Validity/Clear.antt =====
-- An order that a match left with a quantity is clear of the other side.
use matching_engine_go.Prelude.{
  ℕ, ◌^◌, ◌<◌, ◌≡◌, inl, inr, List, [], ◌∷◌, true, false, All, arith, sym, lt64-eq-ltb,
}
use mathlib.Core.Path.{subst}
use matching_engine_go.Book.State.{Order, Snapshot, LevelSnapshot}
use matching_engine_go.Book.Matching.{price_allowed}
use matching_engine_go.Book.View.{
  ahead, prices_of, IsSide, IsPrice, IsValid, levels_at, is_bid_side,
}
use matching_engine_go.Book.View.Levels.{prices_fit}
use matching_engine_go.Book.Refines.{levels_at-with_levels}
use matching_engine_go.Book.Refines.Match.{opposite-IsSide}
use matching_engine_go.Book.Spec.{advance}
use matching_engine_go.Book.Spec.Apply.{opposite, matched, after_match}
use matching_engine_go.Book.Validity.Kept.{IsSide-sweep}
use matching_engine_go.Book.Validity.Filled.{Falls, blocked-sweep}
use matching_engine_go.Book.Validity.Books.{IsBookSide, IsClear}

-- Behind a price that an order does not take it takes none.
price_allowed-Falls :
    (o : Order)
    → IsBookSide o.side
    → IsPrice o.price
    → Falls (price_allowed o) (is_bid_side (opposite o.side))
unfolding price_allowed
price_allowed-Falls o (inl e) v p q hp hq a h =
    ground (arith, lt64-eq-ltb o.price p v.1 hp, lt64-eq-ltb o.price q v.1 hq)
price_allowed-Falls o (inr e) v p q hp hq a h =
    ground (arith, lt64-eq-ltb p o.price hp v.1, lt64-eq-ltb q o.price hq v.1)

refused_ahead :
    (o : Order) (q : ℕ)
    → IsBookSide o.side
    → IsPrice o.price
    → q < 2 ^ 63
    → price_allowed o q ≡ false
    → ahead (is_bid_side (opposite o.side)) o.price q ≡ true
unfolding price_allowed
refused_ahead o q (inl e) v hq a = ground (arith, lt64-eq-ltb o.price q v.1 hq)
refused_ahead o q (inr e) v hq a = ground (arith, lt64-eq-ltb q o.price hq v.1)

refused-All :
    (o : Order) (ps : List ℕ)
    → IsBookSide o.side
    → IsPrice o.price
    → All (λ q. q < 2 ^ 63) ps
    → All (λ q. price_allowed o q ≡ false) ps
    → All (λ q. ahead (is_bid_side (opposite o.side)) o.price q ≡ true) ps
refused-All o [] b v f a = tt
refused-All o (q ∷ ps) b v f a = (refused_ahead o q b v f.0 a.0, refused-All o ps b v f.1 a.1)

-- After the match no price that the order takes is left on the other side.
pub after_match-IsClear :
    (s : Snapshot) (o : Order)
    → IsValid s
    → IsBookSide o.side
    → IsPrice o.price
    → 0 < (matched s o).left
    → IsClear (after_match s o) o o.side
unfolding after_match matched
after_match-IsClear s o v b p h =
    let side : ℕ = opposite o.side in
    let ls : List LevelSnapshot = levels_at s side in
    let w : IsSide (is_bid_side side) side ls = opposite-IsSide s o.side v in
    let kept : IsSide (is_bid_side side) side (matched s o).levels =
      IsSide-sweep _ side ls o.leaves_qty w.0 (is_bid_side side) w in
    subst
      (λ (ks : List LevelSnapshot).
        All (λ q. ahead (is_bid_side side) o.price q ≡ true) (prices_of ks))
      (sym (
        levels_at-with_levels
          (record s { next_trade_seq = advance s.next_trade_seq (matched s o).fills }) side
          (matched s o).levels))
      (refused-All o (prices_of (matched s o).levels) b p
        (prices_fit side (matched s o).levels kept.0)
        (blocked-sweep _ side ls o.leaves_qty w.0 (is_bid_side side) (price_allowed-Falls o b p) w.1
          h))
