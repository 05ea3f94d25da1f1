-- ===== src/Book/Refines/Amend.antt =====
-- The branch of handleReplace that keeps an order in its place, on the book of a snapshot.
use mathlib.Core.Path.{subst}
use matching_engine_go.Prelude.{
  ℕ, ◌+◌, ◌%◌, ◌^◌, ◌≤◌, ◌≡◌, refl, List, [], ◌∷◌, Bool, Option, none, some, ◌==◌, if◌then◌else◌,
  ltb, arith, Bool-cases, inl, inr, sym, sub64, lt64,
}
use matching_engine_go.Model.{side_sell}
use matching_engine_go.Book.State.{
  Order, PriceLevel, Snapshot, LevelSnapshot, Handle, put_side, put_level, find_order, set_leaves,
}
use matching_engine_go.Book.Handlers.{reduce_in_place}
use matching_engine_go.Book.View.{
  levels_of, prices_of, located, locate, quantity, represent, represent_level, represent_side,
  IsSorted, IsSide, levels_at, with_levels, is_bid_side,
}
use matching_engine_go.Book.View.Levels.{SideBook-eq, price-levels_of, total_qty-levels_of}
use matching_engine_go.Book.Validity.{prices_of-amend}
use matching_engine_go.Book.Refines.{side_of-represent, Book-eq}
use matching_engine_go.Book.Refines.Lookup.{IsFound}
use matching_engine_go.Book.Spec.{amend_order, level_with}
use matching_engine_go.Book.Spec.Apply

-- A queue loses what one of its orders loses.
quantity-set_leaves :
    (id n : ℕ) (os : List Order) (o : Order)
    → find_order id os ≡ some o
    → quantity (set_leaves id n os) + o.leaves_qty ≡ quantity os + n
unfolding find_order set_leaves
quantity-set_leaves id n [] o e = cc
quantity-set_leaves id n (x ∷ os) o e = ground (arith, quantity-set_leaves id n os o)

find_order-set_leaves :
    (key id n : ℕ) (os : List Order) (other : Option Handle)
    → located (find_order key (set_leaves id n os)) other ≡ located (find_order key os) other
unfolding find_order set_leaves
find_order-set_leaves key id n [] other = refl
find_order-set_leaves key id n (o ∷ os) other =
    ground (arith, find_order-set_leaves key id n os other)

locate-amend :
    (price id n : ℕ) (ls : List LevelSnapshot) (other : Option Handle) (key : ℕ)
    → locate (amend_order price id n ls) other key ≡ locate ls other key
unfolding amend_order
locate-amend price id n [] other key = refl
locate-amend price id n (l ∷ ls) other key = ground (
  arith,
  locate-amend price id n ls other key,
  find_order-set_leaves key id n l.orders (locate ls other key),
)

levels_of-amend :
    (is_bid : Bool) (price id n : ℕ) (ls : List LevelSnapshot) (level : PriceLevel) (p : ℕ)
    → IsSorted is_bid (prices_of ls)
    → levels_of ls price ≡ some level
    → levels_of (amend_order price id n ls) p ≡ (
        if p == price
        then some (represent_level (level_with price (set_leaves id n level.queue)))
        else levels_of ls p)
unfolding amend_order
levels_of-amend is_bid price id n [] level p s e = cc
levels_of-amend is_bid price id n (l ∷ ls) level p s e =
    ground (arith, levels_of-amend is_bid price id n ls level p s.1)

-- The orders stay where they are.
book-amended :
    (s : Snapshot) (side price id n : ℕ)
    → let ls = amend_order price id n (levels_at s side) in
      put_side (represent s) side (represent_side (is_bid_side side) ls)
      ≡ represent (with_levels s side ls)
book-amended s side price id n = elim (Bool-cases (side == side_sell)) [
  | inl e ↦ rw e (
      Book-eq (represent (record s { asks = amend_order price id n s.asks }))
        λ key. rw (locate-amend price id n s.asks none key) refl)
  | inr e ↦ rw e (
      Book-eq (represent (record s { bids = amend_order price id n s.bids }))
        λ key. sym (locate-amend price id n s.bids (locate s.asks none key) key))
]

module _ (s : Snapshot) (id : ℕ) (o : Order) (n : ℕ)
    (v : IsSide (is_bid_side o.side) o.side (levels_at s o.side))
    (f : IsFound (levels_at s o.side) o.side id o) (le : n ≤ o.leaves_qty) where
  -- The level after the writes of the branch.
  amended : PriceLevel
  amended = represent_level (level_with o.price (set_leaves o.id n f.level.queue))

  found_id : find_order o.id f.level.queue ≡ some o
  found_id = subst (λ (k : ℕ). find_order k f.level.queue ≡ some o) (sym f.same_id) f.in_queue

  total_qty-amended :
      sub64 f.level.total_qty (sub64 o.leaves_qty n)
      ≡ quantity (set_leaves o.id n f.level.queue) % 2 ^ 64
  unfolding sub64
  total_qty-amended = omega (
    arith,
    total_qty-levels_of o.price (levels_at s o.side) f.level f.level_at,
    quantity-set_leaves o.id n f.level.queue o found_id,
    le,
    f.fits,
  )

  side-amended :
      put_level (represent_side (is_bid_side o.side) (levels_at s o.side)) (record f.level {
        total_qty = sub64 f.level.total_qty (sub64 o.leaves_qty n);
        queue = set_leaves o.id n f.level.queue;
      })
      ≡ represent_side (is_bid_side o.side) (amend_order o.price o.id n (levels_at s o.side))
  side-amended =
      SideBook-eq (is_bid_side o.side)
        (λ p. ground (
          arith,
          total_qty-amended,
          price-levels_of o.price (levels_at s o.side) f.level f.level_at,
          levels_of-amend (is_bid_side o.side) o.price o.id n (levels_at s o.side) f.level p v.1
              f.level_at,
        ))
        (sym (prices_of-amend o.price o.id n (levels_at s o.side)))

  events-amended : lt64 0 (sub64 o.leaves_qty n) ≡ ltb n o.leaves_qty
  unfolding lt64 sub64
  events-amended = ground (arith, f.fits)

  -- The branch does what the specification says.
  pub reduce_in_place-represent :
      reduce_in_place (represent s) o n
      ≡ some (represent (Apply.amend s o n).0, (Apply.amend s o n).1)
  unfolding reduce_in_place Apply.amend
  reduce_in_place-represent = rw (side_of-represent s o.side) (
      rw f.level_at
        (rw (side-amended, events-amended) (rw (book-amended s o.side o.price o.id n) refl)))
