-- ===== src/Book/Refines/Match.antt =====
-- Book.match on the book of a snapshot: its loop ends, with the outcome of a sweep.
use matching_engine_go.Prelude.{
  ℕ, suc, ◌^◌, ◌<◌, ◌≡◌, refl, List, [], ◌∷◌, Bool, true, some, ◌==◌, All, arith, Bool-cases, sym,
  inl, inr,
}
use mathlib.Core.Path.{subst}
use matching_engine_go.Model.{side_buy}
use matching_engine_go.Book.State.{Order, Snapshot, LevelSnapshot, side_of}
use matching_engine_go.Book.Matching.{match, match_against, count_orders, price_allowed}
use matching_engine_go.Book.View.{
  ahead, levels_of, prices_of, represent, IsSide, IsSorted, IsValid, IsDistinct, levels_at,
  with_levels, is_bid_side,
}
use matching_engine_go.Book.Refines.{with_levels-levels_at, side_of-represent}
use matching_engine_go.Book.Refines.Loop.{run_levels, total_orders}
use matching_engine_go.Book.Spec.Apply.{opposite, after_match, remaining, match_events, matched}

count_orders-cons :
    (is_bid : Bool) (l : LevelSnapshot) (ls : List LevelSnapshot) (ps : List ℕ)
    → All (λ q. ahead is_bid l.price q ≡ true) ps
    → count_orders (levels_of (l ∷ ls)) ps ≡ count_orders (levels_of ls) ps
unfolding count_orders
count_orders-cons is_bid l ls [] h = refl
count_orders-cons is_bid l ls (p ∷ ps) h = ground (arith, count_orders-cons is_bid l ls ps h.1)

count_orders-represent :
    (is_bid : Bool) (ls : List LevelSnapshot)
    → IsSorted is_bid (prices_of ls)
    → count_orders (levels_of ls) (prices_of ls) ≡ total_orders ls
unfolding count_orders
count_orders-represent is_bid [] s = refl
count_orders-represent is_bid (l ∷ ls) s =
    ground (
      arith,
      count_orders-cons is_bid l ls (prices_of ls) s.0,
      count_orders-represent is_bid ls s.1,
    )

pub opposite-IsSide :
    (s : Snapshot) (side : ℕ)
    → IsValid s
    → IsSide (is_bid_side (opposite side)) (opposite side) (levels_at s (opposite side))
opposite-IsSide s side v = elim (Bool-cases (side == side_buy)) [
  | inl e ↦ rw e v.asks_valid
  | inr e ↦ rw e v.bids_valid
]

enough_fuel :
    (s : Snapshot) (side : ℕ)
    → IsSorted (is_bid_side side) (prices_of (levels_at s side))
    → total_orders (levels_at s side)
      < suc (count_orders (side_of (represent s) side).levels (side_of (represent s) side).prices)
enough_fuel s side srt =
    rw (side_of-represent s side)
      (omega (arith, count_orders-represent (is_bid_side side) (levels_at s side) srt))

-- Book.match ends, and gives the book after the sweep, what is left of the order, and its events.
pub match-represent :
    (seq : ℕ) (s : Snapshot) (o : Order)
    → IsValid s
    → o.leaves_qty < 2 ^ 63
    → match seq (represent s) o
      ≡ some (represent (after_match s o), remaining s o, match_events seq s o)
unfolding match after_match matched
match-represent seq s o v h =
    let side : ℕ = opposite o.side in
    let fuel : ℕ =
      suc (count_orders (side_of (represent s) side).levels (side_of (represent s) side).prices) in
    let whole : with_levels s side (levels_at s side) ≡ s = with_levels-levels_at s side in
    let valid : IsSide (is_bid_side side) side (levels_at s side) = opposite-IsSide s o.side v in
    subst
      (λ (t : Snapshot).
        match_against fuel side (price_allowed o) seq (represent t) o
        ≡ some (represent (after_match s o), remaining s o, match_events seq s o))
      whole
      (run_levels side seq (price_allowed o) (levels_at s side) fuel s o valid
        (subst IsDistinct (sym whole) v.distinct) h (enough_fuel s side valid.1))
