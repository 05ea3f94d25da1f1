-- ===== src/Book/Validity/Books.antt =====
-- The operations of the specification keep a snapshot valid.
use mathlib.Core.Path.{subst}
use matching_engine_go.Prelude.{
  ℕ, ◌+◌, ◌^◌, ◌≤◌, ◌<◌, ◌≡◌, ◌⊎◌, inl, inr, refl, List, [], ◌∷◌, Bool, true, false, ◌==◌, ltb, All,
  arith, Bool-cases, sym, ltb→lt, ==_iff,
}
use matching_engine_go.Model.{side_buy, side_sell}
use matching_engine_go.Book.State.{Order, Snapshot, LevelSnapshot, unlink}
use matching_engine_go.Book.View.{
  ahead, count, count_side, prices_of, IsSide, IsOrder, IsPrice, IsValid, levels_at, with_levels,
  is_bid_side,
}
use matching_engine_go.Book.View.Index.{count_side-insert, count_side-cons_level}
use matching_engine_go.Book.Spec.{insert_order, remove_order, amend_order, advance}
use matching_engine_go.Book.Spec.Apply.{opposite, after_match, matched, take_out}
use matching_engine_go.Book.Validity.{
  All-insert, All-remove, IsSide-insert, IsSide-remove, IsSide-amend, prices_of-amend,
  count_side-amend,
}
use matching_engine_go.Book.Validity.Kept.{All-sweep, IsSide-sweep, count_side-sweep}
use matching_engine_go.Book.Refines.Match.{opposite-IsSide}

abbrev pub IsBookSide : ℕ → Type 0
IsBookSide side = (side ≡ side_buy) ⊎ (side ≡ side_sell)

pub All-map : {P Q : ℕ → Type 0} (ps : List ℕ) → ((p : ℕ) → P p → Q p) → All P ps → All Q ps
All-map [] f h = tt
All-map (p ∷ ps) f h = (f p h.0, All-map ps f h.1)

pub levels_at-IsSide :
    (s : Snapshot) (side : ℕ)
    → IsBookSide side
    → IsValid s
    → IsSide (is_bid_side side) side (levels_at s side)
levels_at-IsSide s side (inl e) v =
    subst (λ (k : ℕ). IsSide (is_bid_side k) k (levels_at s k)) (sym e) v.bids_valid
levels_at-IsSide s side (inr e) v =
    subst (λ (k : ℕ). IsSide (is_bid_side k) k (levels_at s k)) (sym e) v.asks_valid

pub opposite-IsBookSide : (side : ℕ) → IsBookSide (opposite side)
opposite-IsBookSide side = elim (Bool-cases (side == side_buy)) [
  | inl e ↦ rw e (inr refl)
  | inr e ↦ rw e (inl refl)
]

-- A side changes to levels with no new price and no new id.
abbrev Shrinks : Snapshot → List LevelSnapshot → ℕ → Type 1
Shrinks s ls side =
    IsSide (is_bid_side side) side ls
    → ((id : ℕ) → count_side id ls ≤ count_side id (levels_at s side))
    → ((P : ℕ → Type 0) → All P (prices_of (levels_at s side)) → All P (prices_of ls))
    → IsValid (with_levels s side ls)

shrink_bids : (s : Snapshot) (ls : List LevelSnapshot) → IsValid s → Shrinks s ls side_buy
shrink_bids s ls v w c a = record {
  bids_valid = w;
  asks_valid = v.asks_valid;
  distinct = λ id. omega (arith, c id, v.distinct id);
  uncrossed = a (λ p. All (λ q. p < q) (prices_of s.asks)) v.uncrossed;
}

shrink_asks : (s : Snapshot) (ls : List LevelSnapshot) → IsValid s → Shrinks s ls side_sell
shrink_asks s ls v w c a = record {
  bids_valid = v.bids_valid;
  asks_valid = w;
  distinct = λ id. omega (arith, c id, v.distinct id);
  uncrossed = All-map (prices_of s.bids) (λ p h. a (λ q. p < q) h) v.uncrossed;
}

pub shrink :
    (s : Snapshot) (ls : List LevelSnapshot) (side : ℕ)
    → IsBookSide side
    → IsValid s
    → Shrinks s ls side
shrink s ls side (inl e) v = subst (Shrinks s ls) (sym e) (shrink_bids s ls v)
shrink s ls side (inr e) v = subst (Shrinks s ls) (sym e) (shrink_asks s ls v)

renumber-IsValid : (s : Snapshot) (n : ℕ) → IsValid s → IsValid (record s { next_trade_seq = n })
renumber-IsValid s n v = record {
  bids_valid = v.bids_valid;
  asks_valid = v.asks_valid;
  distinct = v.distinct;
  uncrossed = v.uncrossed;
}

-- A sweep keeps a snapshot valid.
pub after_match-IsValid : (s : Snapshot) (o : Order) → IsValid s → IsValid (after_match s o)
unfolding after_match matched
after_match-IsValid s o v =
    let side : ℕ = opposite o.side in
    let w : IsSide (is_bid_side side) side (levels_at s side) = opposite-IsSide s o.side v in
    shrink (record s { next_trade_seq = advance s.next_trade_seq (matched s o).fills })
      (matched s o).levels side (opposite-IsBookSide o.side) (renumber-IsValid s _ v)
      (IsSide-sweep _ side (levels_at s side) o.leaves_qty w.0 (is_bid_side side) w)
      (λ id. count_side-sweep _ side (levels_at s side) o.leaves_qty w.0 id)
      (λ P h. All-sweep _ side (levels_at s side) o.leaves_qty w.0 P h)

-- Taking an order out keeps a snapshot valid.
count-unlink-le : (id key : ℕ) (os : List Order) → count id (unlink key os) ≤ count id os
unfolding unlink
count-unlink-le id key [] = omega arith
count-unlink-le id key (o ∷ os) = ground (arith, count-unlink-le id key os)

count_side-remove-le :
    (id price key : ℕ) (ls : List LevelSnapshot)
    → count_side id (remove_order price key ls) ≤ count_side id ls
unfolding remove_order
count_side-remove-le id price key [] = omega arith
count_side-remove-le id price key (l ∷ ls) = ground (
  arith,
  count_side-remove-le id price key ls,
  count_side-cons_level id l.price (unlink key l.orders) ls,
  count-unlink-le id key l.orders,
)

pub take_out-IsValid :
    (s : Snapshot) (o : Order) → IsBookSide o.side → IsValid s → IsValid (take_out s o)
unfolding take_out
take_out-IsValid s o b v =
    shrink s (remove_order o.price o.id (levels_at s o.side)) o.side b v
      (IsSide-remove (is_bid_side o.side) o.side o.price o.id (levels_at s o.side)
        (levels_at-IsSide s o.side b v))
      (λ id. count_side-remove-le id o.price o.id (levels_at s o.side))
      (λ P h. All-remove P o.price o.id (levels_at s o.side) h)

-- Giving an order a smaller positive quantity keeps a snapshot valid.
pub amend-IsValid :
    (s : Snapshot) (side price id n : ℕ)
    → IsBookSide side
    → IsValid s
    → 0 < n
    → n < 2 ^ 63
    → IsValid (with_levels s side (amend_order price id n (levels_at s side)))
amend-IsValid s side price id n b v p q =
    shrink s (amend_order price id n (levels_at s side)) side b v
      (IsSide-amend (is_bid_side side) side price id n (levels_at s side) p q
        (levels_at-IsSide s side b v))
      (λ key. rw (count_side-amend key price id n (levels_at s side)) (omega arith))
      (λ P h. rw (prices_of-amend price id n (levels_at s side)) h)

-- A new order is put on its side, behind no better price of the other side.
abbrev pub IsClear : Snapshot → Order → ℕ → Type 0
IsClear s o side =
    All (λ q. ahead (is_bid_side (opposite side)) o.price q ≡ true)
      (prices_of (levels_at s (opposite side)))

abbrev pub Grows : Snapshot → Order → ℕ → Type 0
Grows s o side =
    IsPrice o.price
    → IsOrder side o.price o
    → count_side o.id s.bids ≡ 0
    → count_side o.id s.asks ≡ 0
    → IsClear s o side
    → IsValid (with_levels s side (insert_order (is_bid_side side) o (levels_at s side)))

count_side-same :
    (id key : ℕ) (ls : List LevelSnapshot)
    → count_side key ls ≡ 0
    → (key == id) ≡ true
    → count_side id ls ≡ 0
count_side-same id key ls h e = subst (λ (k : ℕ). count_side k ls ≡ 0) ((==_iff key id).0 e) h

distinct-insert :
    (is_bid : Bool) (o : Order) (ls ks : List LevelSnapshot) (id : ℕ)
    → count_side id ls + count_side id ks ≤ 1
    → count_side o.id ls ≡ 0
    → count_side o.id ks ≡ 0
    → count_side id (insert_order is_bid o ls) + count_side id ks ≤ 1
distinct-insert is_bid o ls ks id h a b = elim (Bool-cases (o.id == id)) [
  | inl e ↦
      rw
        (
          count_side-insert is_bid o ls id,
          e,
          count_side-same id o.id ls a e,
          count_side-same id o.id ks b e,
        )
        (omega arith)
  | inr e ↦ rw (count_side-insert is_bid o ls id, e) (omega arith)
]

grow_bids : (s : Snapshot) (o : Order) → IsValid s → Grows s o side_buy
grow_bids s o v p w nb na c = record {
  bids_valid = IsSide-insert true side_buy o s.bids p w v.bids_valid;
  asks_valid = v.asks_valid;
  distinct = λ id. distinct-insert true o s.bids s.asks id (v.distinct id) nb na;
  uncrossed =
      All-insert (λ p. All (λ q. p < q) (prices_of s.asks)) true o s.bids
        (All-map (prices_of s.asks) (λ q h. ltb→lt _ _ h) c) v.uncrossed;
}

below_ask :
    (o : Order) (p : ℕ) (asks : List LevelSnapshot)
    → p < o.price
    → All (λ q. p < q) (prices_of asks)
    → All (λ q. p < q) (prices_of (insert_order false o asks))
below_ask o p asks h a = All-insert (λ q. p < q) false o asks h a

grow_uncrossed :
    (o : Order) (ps : List ℕ) (asks : List LevelSnapshot)
    → All (λ p. ltb p o.price ≡ true) ps
    → All (λ p. All (λ q. p < q) (prices_of asks)) ps
    → All (λ p. All (λ q. p < q) (prices_of (insert_order false o asks))) ps
grow_uncrossed o [] asks c u = tt
grow_uncrossed o (p ∷ ps) asks c u =
    (below_ask o p asks (ltb→lt _ _ c.0) u.0, grow_uncrossed o ps asks c.1 u.1)

grow_asks : (s : Snapshot) (o : Order) → IsValid s → Grows s o side_sell
grow_asks s o v p w nb na c = record {
  bids_valid = v.bids_valid;
  asks_valid = IsSide-insert false side_sell o s.asks p w v.asks_valid;
  distinct = λ id.
      let d : count_side id s.asks + count_side id s.bids ≤ 1 = omega (arith, v.distinct id) in
      omega (arith, distinct-insert false o s.asks s.bids id d na nb);
  uncrossed = grow_uncrossed o (prices_of s.bids) s.asks c v.uncrossed;
}

-- Putting a new order on its side, clear of the other side, keeps a snapshot valid.
pub rest-IsValid : (s : Snapshot) (o : Order) → IsBookSide o.side → IsValid s → Grows s o o.side
rest-IsValid s o (inl e) v = subst (Grows s o) (sym e) (grow_bids s o v)
rest-IsValid s o (inr e) v = subst (Grows s o) (sym e) (grow_asks s o v)
