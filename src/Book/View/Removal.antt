-- ===== src/Book/View/Removal.antt =====
-- Taking an order out of one side of a book, at the side that represents a list of levels.
use matching_engine_go.Prelude.{
  ℕ, suc, ◌+◌, ◌^◌, ◌<◌, ◌≡◌, ◌≢◌, refl, List, [], ◌∷◌, ◌++◌, Bool, none, some, ◌==◌, if◌then◌else◌,
  All, length, take, drop, get_elem?, sub64, arith, ap, sym,
}
use native.Mathlib.Numerals.{add-one}
use matching_engine_go.Book.State.{
  Order, PriceLevel, LevelSnapshot, put_level, unlink, find_order, Map,
}
use matching_engine_go.Book.Sides.{remove, find_price_index, remove_level_if_empty}
use matching_engine_go.Book.View.{
  IsSorted, quantity, represent_level, represent_side, levels_of, prices_of,
}
use matching_engine_go.Book.View.Search.{rank}
use matching_engine_go.Book.View.Levels.{
  SideBook-eq, levels_of-absent, present_ahead, find_insert_index-represent, price-levels_of,
  total_qty-levels_of,
}
use matching_engine_go.Book.Spec.{remove_order, level_with}

pub quantity-unlink :
    (id : ℕ) (os : List Order) (o : Order)
    → find_order id os ≡ some o
    → quantity os ≡ quantity (unlink id os) + o.leaves_qty
unfolding find_order unlink
quantity-unlink id [] o e = cc
quantity-unlink id (x ∷ os) o e = ground (arith, quantity-unlink id os o)

-- The map of a side without an order.
levels_of-remove :
    (is_bid : Bool) (price id : ℕ) (ls : List LevelSnapshot) (level : PriceLevel) (p : ℕ)
    → IsSorted is_bid (prices_of ls)
    → levels_of ls price ≡ some level
    → levels_of (remove_order price id ls) p ≡ (
        if p == price
        then elim (unlink id level.queue) [
          | [] ↦ none
          | o ∷ os ↦ some (represent_level (level_with price (o ∷ os)))
        ]
        else levels_of ls p)
unfolding remove_order
levels_of-remove is_bid price id [] level p s e = cc
levels_of-remove is_bid price id (l ∷ ls) level p s e =
    ground (
      arith,
      levels_of-remove is_bid price id ls level p s.1,
      levels_of-absent is_bid l.price ls s.0,
    )

-- A price that is there stands at its rank.
get_elem?-rank :
    (is_bid : Bool) (price : ℕ) (ls : List LevelSnapshot) (level : PriceLevel)
    → IsSorted is_bid (prices_of ls)
    → levels_of ls price ≡ some level
    → get_elem? (prices_of ls) (rank is_bid price (prices_of ls)) ≡ some price
unfolding rank
get_elem?-rank is_bid price [] level s e = cc
get_elem?-rank is_bid price (l ∷ ls) level s e = ground (
  arith,
  get_elem?-rank is_bid price ls level s.1,
  present_ahead is_bid l.price price ls level s.0,
)

rank-lt-length :
    (is_bid : Bool) (price : ℕ) (ls : List LevelSnapshot) (level : PriceLevel)
    → IsSorted is_bid (prices_of ls)
    → levels_of ls price ≡ some level
    → rank is_bid price (prices_of ls) < length (prices_of ls)
unfolding rank
rank-lt-length is_bid price [] level s e = cc
rank-lt-length is_bid price (l ∷ ls) level s e = ground (
  arith,
  rank-lt-length is_bid price ls level s.1,
  present_ahead is_bid l.price price ls level s.0,
)

prices_of-remove_kept :
    (price id : ℕ) (ls : List LevelSnapshot) (level : PriceLevel)
    → levels_of ls price ≡ some level
    → unlink id level.queue ≢ []
    → prices_of (remove_order price id ls) ≡ prices_of ls
unfolding remove_order
prices_of-remove_kept price id [] level e n = cc
prices_of-remove_kept price id (l ∷ ls) level e n =
    ground (arith, prices_of-remove_kept price id ls level)

prices_of-remove_dropped :
    (is_bid : Bool) (price id : ℕ) (ls : List LevelSnapshot) (level : PriceLevel)
    → IsSorted is_bid (prices_of ls)
    → levels_of ls price ≡ some level
    → unlink id level.queue ≡ []
    → let k = rank is_bid price (prices_of ls) in
      take k (prices_of ls) ++ drop (suc k) (prices_of ls) ≡ prices_of (remove_order price id ls)
unfolding remove_order rank
prices_of-remove_dropped is_bid price id [] level s e n = cc
prices_of-remove_dropped is_bid price id (l ∷ ls) level s e n = ground (
  arith,
  prices_of-remove_dropped is_bid price id ls level s.1,
  present_ahead is_bid l.price price ls level s.0,
)

module _ (is_bid : Bool) (price : ℕ) (ls : List LevelSnapshot) (level : PriceLevel)
    (s : IsSorted is_bid (prices_of ls)) (fits : All (λ p. p < 2 ^ 63) (prices_of ls))
    (hp : price < 2 ^ 63) (found : levels_of ls price ≡ some level) where
  -- findPriceIndex finds a price that is there, whatever the map.
  find_price_index-represent :
      (levels : Map PriceLevel)
      → find_price_index (record { levels = levels; prices = prices_of ls; is_bid = is_bid }) price
        ≡ some (some (rank is_bid price (prices_of ls)))
  unfolding find_price_index
  find_price_index-represent levels =
      rw (find_insert_index-represent is_bid price ls levels s fits hp) (
        ground (
          arith,
          rank-lt-length is_bid price ls level s found,
          get_elem?-rank is_bid price ls level s found,
        ))

  module _ (order : Order) (here : find_order order.id level.queue ≡ some order)
      (small : order.leaves_qty < 2 ^ 64) where
    remove-represent :
        remove level order ≡ represent_level (level_with price (unlink order.id level.queue))
    unfolding remove sub64
    remove-represent = ground (
      arith,
      total_qty-levels_of price ls level found,
      price-levels_of price ls level found,
      quantity-unlink order.id level.queue order here,
    )

    dropped :
        unlink order.id level.queue ≡ []
        → let level' = represent_level (level_with price []) in
          remove_level_if_empty (put_level (represent_side is_bid ls) level') level'
          ≡ some (represent_side is_bid (remove_order price order.id ls))
    unfolding remove_level_if_empty
    dropped e = rw find_price_index-represent (
        ap some (
          SideBook-eq is_bid
            (λ p. ground (arith, levels_of-remove is_bid price order.id ls level p s found))
            (rw add-one (prices_of-remove_dropped is_bid price order.id ls level s found e))))

    kept :
        (o : Order) (os : List Order)
        → unlink order.id level.queue ≡ o ∷ os
        → let level' = represent_level (level_with price (o ∷ os)) in
          remove_level_if_empty (put_level (represent_side is_bid ls) level') level'
          ≡ some (represent_side is_bid (remove_order price order.id ls))
    unfolding remove_level_if_empty
    kept o os e = ap some (
        SideBook-eq is_bid
          (λ p. ground (arith, levels_of-remove is_bid price order.id ls level p s found))
          (sym (prices_of-remove_kept price order.id ls level found (λ n. cc))))

    -- PriceLevel.remove and removeLevelIfEmpty together take an order out as the specification does.
    pub detach-represent :
        remove_level_if_empty
          (put_level (represent_side is_bid ls) (remove level order))
          (remove level order)
        ≡ some (represent_side is_bid (remove_order price order.id ls))
    detach-represent = rw remove-represent (go (unlink order.id level.queue) refl)
      where
        go :
            (q : List Order)
            → unlink order.id level.queue ≡ q
            → let level' = represent_level (level_with price (unlink order.id level.queue)) in
              remove_level_if_empty (put_level (represent_side is_bid ls) level') level'
              ≡ some (represent_side is_bid (remove_order price order.id ls))
        go [] e = rw e (dropped e)
        go (o ∷ os) e = rw e (kept o os e)
