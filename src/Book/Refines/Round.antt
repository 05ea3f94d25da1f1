-- ===== src/Book/Refines/Round.antt =====
-- One round of the loop of matchAgainst, on the book of a snapshot.
use matching_engine_go.Prelude.{
  ℕ, ◌+◌, ◌-◌, ◌%◌, ◌^◌, ◌≤◌, ◌<◌, ◌≡◌, inl, inr, refl, List, [], ◌∷◌, Bool, true, false, Option,
  some, ◌==◌, All, arith, Bool-cases, ap, ◌∙◌, ◌>>=◌, min64, min64-eq, sub64, sub64-eq,
}
use native.Mathlib.Nat.{sub_self}
use mathlib.Core.Path.{subst₂}
use matching_engine_go.Model.{side_sell, Event}
use matching_engine_go.Book.State.{
  Order, PriceLevel, Book, Snapshot, LevelSnapshot, find_order, side_of, put_side, put_level,
}
use matching_engine_go.Book.Matching.{settle, match_round, next_trade_id, remove_active}
use matching_engine_go.Book.View.{
  count_side, levels_of, prices_of, represent, represent_side, represent_level, IsSorted, IsOrder,
  quantity,
}
use matching_engine_go.Book.View.Levels.{SideBook-eq}
use matching_engine_go.Book.View.{levels_at, with_levels, is_bid_side}
use matching_engine_go.Book.Refines.{
  Book-eq, remove_active-represent, side_of-represent, index, levels_at-with_levels,
  with_levels-with_levels,
}
use matching_engine_go.Book.Spec.{
  remove_order, Fill, trade_event, reduced_event, next_number, level_with, cons_level,
}

module _ (s : Snapshot) (side price n : ℕ) (o : Order) (os : List Order)
    (ls : List LevelSnapshot) where
  abbrev before_fill : List LevelSnapshot
  before_fill = level_with price (o ∷ os) ∷ ls

  abbrev after_fill : List LevelSnapshot
  after_fill = level_with price (record o { leaves_qty = o.leaves_qty - n } ∷ os) ∷ ls

  abbrev filled_level : PriceLevel
  filled_level = record {
    price = price;
    total_qty = sub64 (quantity (o ∷ os) % 2 ^ 64) n;
    queue = record o { leaves_qty = o.leaves_qty - n } ∷ os;
  }

  put_head_level :
      (is_bid : Bool)
      → n ≤ o.leaves_qty
      → n < 2 ^ 64
      → put_level (represent_side is_bid before_fill) filled_level
        ≡ represent_side is_bid after_fill
  unfolding sub64
  put_head_level is_bid h k = SideBook-eq is_bid (λ p. ground arith) refl

  index-fill :
      (id : ℕ)
      → index (with_levels s side before_fill) id ≡ index (with_levels s side after_fill) id
  unfolding find_order
  index-fill id = ground arith

  -- A fill of the order at the head of the best level.
  put_head :
      n ≤ o.leaves_qty
      → n < 2 ^ 64
      → let b = represent (with_levels s side before_fill) in
        put_side b side (put_level (side_of b side) filled_level)
        ≡ represent (with_levels s side after_fill)
  put_head h k =
      rw
        (
          side_of-represent (with_levels s side before_fill) side,
          levels_at-with_levels s side before_fill,
          put_head_level (is_bid_side side) h k,
        )
        (elim (Bool-cases (side == side_sell)) [
          | inl e ↦
              rw e (
                Book-eq (represent (record s { asks = after_fill }))
                  (λ id. rw e at (index-fill id)))
          | inr e ↦
              rw e (
                Book-eq (represent (record s { bids = after_fill }))
                  (λ id. rw e at (index-fill id)))
        ])

module _ (s : Snapshot) (o : Order) (os : List Order) (ls : List LevelSnapshot) where
  abbrev head_levels : List LevelSnapshot
  head_levels = level_with o.price (o ∷ os) ∷ ls

  head_found :
      (is_bid : Bool) (side : ℕ)
      → levels_of (levels_at (with_levels s side head_levels) side) o.price
        ≡ some (represent_level (level_with o.price (o ∷ os)))
  head_found is_bid side = ground arith

  remove-head : remove_order o.price o.id head_levels ≡ cons_level o.price os ls
  unfolding remove_order
  remove-head = ground arith

  -- That the head of the best level leaves the book, at a side and a price.
  abbrev HeadLeaves : ℕ → ℕ → Type 0
  HeadLeaves side price =
      let t = with_levels s side (level_with price (o ∷ os) ∷ ls) in
      IsSorted (is_bid_side side) (price ∷ prices_of ls)
      → All (λ p. p < 2 ^ 63) (price ∷ prices_of ls)
      → count_side o.id t.bids + count_side o.id t.asks ≤ 1
      → remove_active (represent t) o
        ≡ some (represent (with_levels s side (cons_level price os ls)))

  remove_active-head : o.leaves_qty < 2 ^ 64 → HeadLeaves o.side o.price
  unfolding find_order
  remove_active-head small srt fits once =
      let same : levels_at (with_levels s o.side head_levels) o.side ≡ head_levels =
        levels_at-with_levels s o.side head_levels in
      remove_active-represent (with_levels s o.side head_levels) o
        (represent_level (level_with o.price (o ∷ os))) (rw same srt) (rw same fits) fits.0 small
        (head_found true o.side) (ground arith) once
      ∙ ap (λ (t : Snapshot). some (represent t))
          (rw (same, remove-head)
            (with_levels-with_levels s o.side head_levels (cons_level o.price os ls)))

-- A resting order with nothing left leaves the book, and is not reported.
settle_filled :
    (s : Snapshot) (side price : ℕ) (o : Order) (os : List Order) (ls : List LevelSnapshot)
    → o.side ≡ side
    → o.price ≡ price
    → o.leaves_qty ≡ 0
    → IsSorted (is_bid_side side) (price ∷ prices_of ls)
    → All (λ p. p < 2 ^ 63) (price ∷ prices_of ls)
    → (let t = with_levels s side (level_with price (o ∷ os) ∷ ls) in
        count_side o.id t.bids + count_side o.id t.asks ≤ 1)
    → settle (represent (with_levels s side (level_with price (o ∷ os) ∷ ls))) o
      ≡ some (represent (with_levels s side (cons_level price os ls)), [])
unfolding settle
settle_filled s side price o os ls hs hp hz srt fits once = ground (
  arith,
  subst₂ (HeadLeaves s o os ls) hs hp (remove_active-head s o os ls (omega arith)) srt fits once,
)

abbrev pub numbered : Snapshot → Snapshot
numbered s = record s { next_trade_seq = next_number s.next_trade_seq }

module _ (seq : ℕ) (s : Snapshot) (side price : ℕ) (o : Order) (os : List Order)
    (ls : List LevelSnapshot) (inc : Order) where
  abbrev round : Option (Book × Order × List Event)
  round =
      match_round side seq (represent (with_levels s side (level_with price (o ∷ os) ∷ ls))) inc
        (represent_level (level_with price (o ∷ os)))

  abbrev fill_of : ℕ → Fill
  fill_of q = record { maker = o; quantity = q }

  -- A round up to the point where it looks at what the resting order has left.
  round_step :
      (q : ℕ)
      → min64 inc.leaves_qty o.leaves_qty ≡ q
      → q ≤ o.leaves_qty
      → o.leaves_qty < 2 ^ 63
      → q ≤ inc.leaves_qty
      → inc.leaves_qty < 2 ^ 63
      → round ≡ (do
        (b, reduced) ←
            settle
              (represent (with_levels (numbered s) side (after_fill s side price q o os ls)))
              (record o { leaves_qty = o.leaves_qty - q })
        some (
          b,
          record inc { leaves_qty = inc.leaves_qty - q },
          trade_event seq s.next_trade_seq inc.id (fill_of q) ∷ reduced,
        ))
  unfolding match_round next_trade_id
  round_step q e h k h' k' = rw e (
      rw (sub64-eq o.leaves_qty q h (omega arith), sub64-eq inc.leaves_qty q h' (omega arith))
        (rw (put_head s side price q o os ls h (omega arith))))

  count-fill :
      (let t = with_levels s side (level_with price (o ∷ os) ∷ ls) in
        count_side o.id t.bids + count_side o.id t.asks ≤ 1)
      → (let t = with_levels s side (after_fill s side price o.leaves_qty o os ls) in
          count_side o.id t.bids + count_side o.id t.asks ≤ 1)
  count-fill h = ground arith

  -- The incoming order takes all of the resting order, which leaves the book.
  pub round_whole :
      IsOrder side price o
      → o.leaves_qty ≤ inc.leaves_qty
      → inc.leaves_qty < 2 ^ 63
      → IsSorted (is_bid_side side) (price ∷ prices_of ls)
      → All (λ p. p < 2 ^ 63) (price ∷ prices_of ls)
      → (let t = with_levels s side (level_with price (o ∷ os) ∷ ls) in
          count_side o.id t.bids + count_side o.id t.asks ≤ 1)
      → round
        ≡ some (
          represent (with_levels (numbered s) side (cons_level price os ls)),
          record inc { leaves_qty = inc.leaves_qty - o.leaves_qty },
          trade_event seq s.next_trade_seq inc.id (fill_of o.leaves_qty) ∷ [],
        )
  round_whole v h k srt fits once =
      round_step o.leaves_qty (min64-eq inc.leaves_qty o.leaves_qty k v.3 ∙ ground arith)
        (omega arith) v.3 h k
      ∙ rw (
          settle_filled (numbered s) side price
            (record o { leaves_qty = o.leaves_qty - o.leaves_qty }) os ls v.0 v.1 (omega arith) srt
            fits (count-fill once))

  -- The resting order is larger, keeps its place with what it has left, and the incoming order is done.
  pub round_part :
      IsOrder side price o
      → inc.leaves_qty < o.leaves_qty
      → inc.leaves_qty < 2 ^ 63
      → round
        ≡ some (
          represent
              (with_levels (numbered s) side (after_fill s side price inc.leaves_qty o os ls)),
          record inc { leaves_qty = 0 },
          trade_event seq s.next_trade_seq inc.id (fill_of inc.leaves_qty)
              ∷ reduced_event o.id (o.leaves_qty - inc.leaves_qty)
              ∷ [],
        )
  unfolding settle
  round_part v h k =
      round_step inc.leaves_qty (min64-eq inc.leaves_qty o.leaves_qty k v.3 ∙ ground arith)
        (omega arith) v.3 (omega arith) k
      ∙ rw (more, sub_self inc.leaves_qty)
    where
      more : (o.leaves_qty - inc.leaves_qty == 0) ≡ false
      more = ground arith
