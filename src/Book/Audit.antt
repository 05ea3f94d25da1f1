-- ===== src/Book/Audit.antt =====
-- CheckInvariants on the book of a snapshot.
use matching_engine_go.Prelude.{
  ℕ, ◌+◌, ◌%◌, ◌^◌, ◌<◌, ◌≡◌, refl, List, [], ◌∷◌, Bool, true, false, none, some, All, arith, ap,
  ◌∙◌, add64, lt64-eq-ltb, lt64_zero, ==_refl,
}
use matching_engine_go.Model.{side_buy, side_sell}
use matching_engine_go.Book.State.{Order, Snapshot, LevelSnapshot}
use matching_engine_go.Book.Sides.{best}
use matching_engine_go.Book.Checks.{
  check_sorted, check_queue, check_level, check_levels, check_side, check_crossed, check_invariants,
}
use matching_engine_go.Book.View.{
  ahead, quantity, levels_of, prices_of, represent, represent_side, represent_level, IsSide,
  IsLevel, IsOrder, IsSorted, IsUncrossed, IsValid,
}
use matching_engine_go.Book.View.Levels.{prices_fit}

sorted-fine :
    (is_bid : Bool) (ps : List ℕ)
    → IsSorted is_bid ps
    → All (λ p. p < 2 ^ 63) ps
    → check_sorted is_bid ps ≡ none
unfolding check_sorted
sorted-fine is_bid [] s f = refl
sorted-fine is_bid (p ∷ []) s f = refl
sorted-fine is_bid (p ∷ q ∷ ps) s f = ground (
  arith,
  sorted-fine is_bid (q ∷ ps) s.1 f.1,
  s.0.0,
  lt64-eq-ltb p q f.0 f.1.0,
  lt64-eq-ltb q p f.1.0 f.0,
)

queue-fine :
    (side price : ℕ) (os : List Order) (qty total : ℕ)
    → All (IsOrder side price) os
    → qty < 2 ^ 64
    → total ≡ (qty + quantity os) % 2 ^ 64
    → check_queue os qty total ≡ none
unfolding check_queue add64
queue-fine side price [] qty total v h e = ground arith
queue-fine side price (o ∷ os) qty total v h e =
    rw (lt64_zero o.leaves_qty v.0.2 v.0.3)
      (queue-fine side price os (add64 qty o.leaves_qty) total v.1 (omega arith) (omega arith))

level-fine :
    (side : ℕ) (l : LevelSnapshot) → IsLevel side l → check_level (some (represent_level l)) ≡ none
unfolding check_level
level-fine side l v = go l.orders refl
  where
    go : (os : List Order) → l.orders ≡ os → check_level (some (represent_level l)) ≡ none
    go [] e = absurd (v.1 e)
    go (o ∷ os) e = rw e (
        queue-fine side l.price (o ∷ os) 0 (quantity l.orders % 2 ^ 64) (rw e at v.2) (omega arith)
          (omega (arith, ap quantity e)))

levels-cons :
    (is_bid : Bool) (l : LevelSnapshot) (ls : List LevelSnapshot) (ps : List ℕ)
    → All (λ q. ahead is_bid l.price q ≡ true) ps
    → check_levels (levels_of (l ∷ ls)) ps ≡ check_levels (levels_of ls) ps
unfolding check_levels
levels-cons is_bid l ls [] h = refl
levels-cons is_bid l ls (p ∷ ps) h =
    let e : levels_of (l ∷ ls) p ≡ levels_of ls p = ground arith in
    rw (e, levels-cons is_bid l ls ps h.1) refl

levels-fine :
    (is_bid : Bool) (side : ℕ) (ls : List LevelSnapshot)
    → IsSide is_bid side ls
    → check_levels (levels_of ls) (prices_of ls) ≡ none
unfolding check_levels
levels-fine is_bid side [] v = refl
levels-fine is_bid side (l ∷ ls) v = rw (==_refl l.price) (
    rw (level-fine side l v.0.0)
      (levels-cons is_bid l ls (prices_of ls) v.1.0 ∙ levels-fine is_bid side ls (v.0.1, v.1.1)))

side-fine :
    (is_bid : Bool) (side : ℕ) (ls : List LevelSnapshot)
    → IsSide is_bid side ls
    → check_side (represent_side is_bid ls) ≡ none
unfolding check_side
side-fine is_bid side ls v =
    rw (sorted-fine is_bid (prices_of ls) v.1 (prices_fit side ls v.0))
      (levels-fine is_bid side ls v)

crossed-fine :
    (bids asks : List LevelSnapshot)
    → All (IsLevel side_buy) bids
    → All (IsLevel side_sell) asks
    → IsUncrossed bids asks
    → check_crossed (best (represent_side true bids)) (best (represent_side false asks)) ≡ none
unfolding check_crossed best
crossed-fine [] asks v w u = refl
crossed-fine (l ∷ ls) [] v w u = rw (==_refl l.price) refl
crossed-fine (l ∷ ls) (m ∷ ms) v w u =
    rw (==_refl l.price, ==_refl m.price)
      (ground (arith, lt64-eq-ltb l.price m.price v.0.0.1 w.0.0.1, u.0.0))

-- CheckInvariants finds no violation in the book of a valid snapshot.
pub check_invariants-represent : (s : Snapshot) → IsValid s → check_invariants (represent s) ≡ none
unfolding check_invariants
check_invariants-represent s v =
    rw (side-fine true side_buy s.bids v.bids_valid, side-fine false side_sell s.asks v.asks_valid)
      (crossed-fine s.bids s.asks v.bids_valid.0 v.asks_valid.0 v.uncrossed)
