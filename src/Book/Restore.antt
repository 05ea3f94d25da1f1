-- ===== src/Book/Restore.antt =====
-- Snapshot and NewFromSnapshot on the book of a snapshot: a round trip.
pub mod Cut
use mathlib.Core.List.{append_assoc, append-nil}
use mathlib.Core.Path.{subst}
use matching_engine_go.Prelude.{
  ℕ, ◌+◌, ◌%◌, ◌^◌, ◌≤◌, ◌<◌, ◌≡◌, ◌≢◌, refl, List, [], ◌∷◌, ◌++◌, Bool, true, false, not, Option,
  none, some, ◌==◌, if◌then◌else◌, All, arith, Bool-cases, ap, sym, ◌∙◌, inl, inr, ==_refl, ltb,
  ◌>>=◌,
}
use matching_engine_go.Model.{side_buy, side_sell}
use matching_engine_go.Book.State.{
  Order, PriceLevel, Book, Snapshot, LevelSnapshot, new, new_side_book,
}
use matching_engine_go.Book.Matching.{rest}
use matching_engine_go.Book.Snapshots.{
  snapshot_levels, snapshot_side, snapshot, restore_orders, restore_side, new_from_snapshot,
}
use matching_engine_go.Book.View.{
  ahead, count, count_side, one_if, levels_of, prices_of, represent, represent_side, IsSide,
  IsLevel, IsOrder, IsSorted, IsValid, IsDistinct, levels_at, with_levels, is_bid_side,
}
use matching_engine_go.Book.View.Index.{count-append}
use matching_engine_go.Book.Refines.{rest-represent}
use matching_engine_go.Book.Validity.Books.{IsBookSide}
use matching_engine_go.Book.Spec.{insert_order, level_with}
use matching_engine_go.Book.Restore.Cut.{
  cut, insert-last, insert-first, IsSide-cut, orders-at-cut, levels-done, IsSorted-done,
  count_side-cut, count_side-done, All-split, IsSorted-cut, append-ne-nil,
}
use matching_engine_go.Book.Refines.{levels_at-with_levels, with_levels-with_levels}

levels-cons :
    (is_bid : Bool) (l : LevelSnapshot) (ls : List LevelSnapshot) (ps : List ℕ)
    → All (λ q. ahead is_bid l.price q ≡ true) ps
    → snapshot_levels (levels_of (l ∷ ls)) ps ≡ snapshot_levels (levels_of ls) ps
unfolding snapshot_levels
levels-cons is_bid l ls [] h = refl
levels-cons is_bid l ls (p ∷ ps) h =
    let e : levels_of (l ∷ ls) p ≡ levels_of ls p = ground arith in
    rw (e, levels-cons is_bid l ls ps h.1) refl

snapshot_levels-represent :
    (is_bid : Bool) (ls : List LevelSnapshot)
    → IsSorted is_bid (prices_of ls)
    → snapshot_levels (levels_of ls) (prices_of ls) ≡ some ls
unfolding snapshot_levels
snapshot_levels-represent is_bid [] s = refl
snapshot_levels-represent is_bid (l ∷ ls) s =
    rw (==_refl l.price) (
      rw (levels-cons is_bid l ls (prices_of ls) s.0 ∙ snapshot_levels-represent is_bid ls s.1)
        refl)

-- Snapshot of the book of a valid snapshot does not panic and gives the snapshot.
pub snapshot-represent : (s : Snapshot) → IsValid s → snapshot (represent s) ≡ some s
unfolding snapshot snapshot_side
snapshot-represent s v =
    rw
      (
        snapshot_levels-represent true s.bids v.bids_valid.1,
        snapshot_levels-represent false s.asks v.asks_valid.1,
      )
      refl

-- Putting the next order back, on the side of the order and on a side that is known to be that.
abbrev Puts : Snapshot → Order → List LevelSnapshot → List LevelSnapshot → ℕ → Type 0
Puts s o ls ls' side =
    IsSide (is_bid_side side) side ls
    → o.price < 2 ^ 63
    → count_side o.id (with_levels s side ls).bids ≡ 0
    → count_side o.id (with_levels s side ls).asks ≡ 0
    → insert_order (is_bid_side side) o ls ≡ ls'
    → rest (represent (with_levels s side ls)) o ≡ some (represent (with_levels s side ls'))

rest-own : (s : Snapshot) (o : Order) (ls ls' : List LevelSnapshot) → Puts s o ls ls' o.side
rest-own s o ls ls' v hp b a i =
    let t : Snapshot = with_levels s o.side ls in
    let same : levels_at t o.side ≡ ls = levels_at-with_levels s o.side ls in
    rest-represent t o
      (subst (λ (ks : List LevelSnapshot). IsSide (is_bid_side o.side) o.side ks) (sym same) v) hp b
      a
    ∙ ap (λ (u : Snapshot). some (represent u))
        (with_levels-with_levels s o.side ls _
          ∙ ap (λ (ks : List LevelSnapshot). with_levels s o.side ks)
              (ap (λ (ks : List LevelSnapshot). insert_order (is_bid_side o.side) o ks) same ∙ i))

module _ (s : Snapshot) (side : ℕ) where
  -- The book with these levels on the side, and that no id stands twice in it.
  abbrev book_with : List LevelSnapshot → Book
  book_with ls = represent (with_levels s side ls)

  abbrev IsOnce : List LevelSnapshot → Type 0
  IsOnce ls = IsDistinct (with_levels s side ls)

  absent-cut :
      (done : List LevelSnapshot) (p : ℕ) (q : List Order) (o : Order) (os : List Order)
      (later : List LevelSnapshot)
      → IsOnce (cut done p (q ++ o ∷ os) later)
      → let t = with_levels s side (cut done p q []) in
        (count_side o.id t.bids ≡ 0) × (count_side o.id t.asks ≡ 0)
  absent-cut done p q o os later once =
      let h = once o.id in
      let k = count_side-cut o.id done p q o os later in
      elim (Bool-cases (side == side_sell)) [
        | inl e ↦ rw e (ground (arith, rw e at h), ground (arith, rw e at h))
        | inr e ↦ rw e (ground (arith, rw e at h), ground (arith, rw e at h))
      ]

  absent-done :
      (done : List LevelSnapshot) (p : ℕ) (o : Order) (os : List Order) (later : List LevelSnapshot)
      → IsOnce (cut done p (o ∷ os) later)
      → let t = with_levels s side done in
        (count_side o.id t.bids ≡ 0) × (count_side o.id t.asks ≡ 0)
  absent-done done p o os later once =
      let (b, a) = absent-cut done p [] o os later once in
      let k = count_side-done o.id done (level_with p [] ∷ []) in
      elim (Bool-cases (side == side_sell)) [
        | inl e ↦ rw e (ground (arith, rw e at b), ground (arith, rw e at a))
        | inr e ↦ rw e (ground (arith, rw e at b), ground (arith, rw e at a))
      ]

  rest-at : (o : Order) (ls ls' : List LevelSnapshot) → o.side ≡ side → Puts s o ls ls' side
  rest-at o ls ls' e = subst (Puts s o ls ls') e (rest-own s o ls ls')

  restore_orders-cut :
      (done : List LevelSnapshot) (p : ℕ) (q os : List Order) (later : List LevelSnapshot)
      → IsSide (is_bid_side side) side (cut done p (q ++ os) later)
      → IsOnce (cut done p (q ++ os) later)
      → q ≢ []
      → restore_orders os (book_with (cut done p q [])) ≡ some (book_with (cut done p (q ++ os) []))
  unfolding restore_orders
  restore_orders-cut done p q [] later v once n = rw append-nil refl
  restore_orders-cut done p q (o ∷ os) later v once n =
      let all : cut done p ((q ++ o ∷ []) ++ os) later ≡ cut done p (q ++ o ∷ os) later =
        ap (λ (xs : List Order). cut done p xs later) (append_assoc q (o ∷ []) os) in
      let w : IsLevel side (level_with p (q ++ o ∷ os)) =
        orders-at-cut side done p (q ++ o ∷ os) later v.0 in
      let k : IsOrder side p o = (All-split (IsOrder side p) q (o ∷ os) w.2).1.0 in
      let (b, a) = absent-cut done p q o os later once in
      let here : IsSide (is_bid_side side) side (cut done p q []) =
        IsSide-cut (is_bid_side side) side done p q (o ∷ os) later v n in
      rw
        (rest-at o (cut done p q []) (cut done p (q ++ o ∷ []) []) k.0 here
          (omega (arith, k.1, w.0)) b a (insert-last (is_bid_side side) o done p q here.1 k.1))
        (restore_orders-cut done p (q ++ o ∷ []) os later
            (subst (λ (ks : List LevelSnapshot). IsSide (is_bid_side side) side ks) (sym all) v)
            (subst IsOnce (sym all) once) (append-ne-nil q o)
          ∙ ap (λ (xs : List Order). some (book_with (cut done p xs [])))
              (append_assoc q (o ∷ []) os))

  restore_level :
      (done : List LevelSnapshot) (p : ℕ) (q : List Order) (later : List LevelSnapshot)
      → IsSide (is_bid_side side) side (cut done p q later)
      → IsOnce (cut done p q later)
      → restore_orders q (book_with done) ≡ some (book_with (cut done p q []))
  unfolding restore_orders
  restore_level done p [] later v once = absurd ((orders-at-cut side done p [] later v.0).1 refl)
  restore_level done p (o ∷ os) later v once =
      let w : IsLevel side (level_with p (o ∷ os)) = orders-at-cut side done p (o ∷ os) later v.0 in
      let (b, a) = absent-done done p o os later once in
      rw
        (rest-at o done (cut done p (o ∷ []) []) w.2.0.0
          (levels-done side done _ v.0, IsSorted-done (is_bid_side side) done _ v.1)
          (omega (arith, w.2.0.1, w.0)) b a
          (insert-first (is_bid_side side) o done p
            (IsSorted-cut (is_bid_side side) done p (o ∷ os) (o ∷ []) later v.1) w.2.0.1))
        (restore_orders-cut done p (o ∷ []) os later v once (λ e. cc))

  restore_side-represent :
      (done ls : List LevelSnapshot)
      → IsSide (is_bid_side side) side (done ++ ls)
      → IsOnce (done ++ ls)
      → restore_side ls (book_with done) ≡ some (book_with (done ++ ls))
  unfolding restore_side
  restore_side-represent done [] v once = rw append-nil refl
  restore_side-represent done (l ∷ ls) v once =
      let all : (done ++ l ∷ []) ++ ls ≡ done ++ l ∷ ls = append_assoc done (l ∷ []) ls in
      rw (restore_level done l.price l.orders ls v once) (
        restore_side-represent (done ++ l ∷ []) ls
          (subst (λ (ks : List LevelSnapshot). IsSide (is_bid_side side) side ks) (sym all) v)
          (subst IsOnce (sym all) once)
        ∙ ap (λ (ks : List LevelSnapshot). some (book_with ks)) all)

empty_book :
    (s : Snapshot)
    → record (new s.symbol) { next_trade_seq = s.next_trade_seq }
      ≡ represent (record s { bids = []; asks = [] })
unfolding new new_side_book
empty_book s = refl

-- NewFromSnapshot of a valid snapshot does not panic and gives the book of the snapshot.
pub new_from_snapshot-represent :
    (s : Snapshot) → IsValid s → new_from_snapshot s ≡ some (represent s)
unfolding new_from_snapshot
new_from_snapshot-represent s v = rw (empty_book s) (
    rw
      (restore_side-represent (record s { asks = [] }) side_buy [] s.bids v.bids_valid
        (λ id. omega (arith, v.distinct id)))
      (restore_side-represent s side_sell [] s.asks v.asks_valid v.distinct))
