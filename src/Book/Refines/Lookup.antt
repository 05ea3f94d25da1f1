-- ===== src/Book/Refines/Lookup.antt =====
-- Finding an active order through the map of a book, and what is known of it.
use matching_engine_go.Prelude.{
  ℕ, ◌%◌, ◌^◌, ◌<◌, ◌≡◌, refl, List, [], ◌∷◌, Bool, true, false, Option, none, some, ◌==◌, All,
  arith, Bool-cases, Option-cases, ap, sym, ◌∙◌, ◌⊎◌, inl, inr,
}
use mathlib.Core.Path.{subst}
use matching_engine_go.Model.{side_buy, side_sell}
use matching_engine_go.Book.State.{Order, PriceLevel, Snapshot, LevelSnapshot, Handle, find_order}
use matching_engine_go.Book.Handlers.{deref}
use matching_engine_go.Book.View.{
  ahead, count_side, count, levels_of, prices_of, represent, IsSide, IsLevel, IsOrder, IsValid,
  IsPrice, levels_at, is_bid_side, handle_of, locate, quantity,
}
use matching_engine_go.Book.View.Levels.{present_ahead, prices_fit}
use matching_engine_go.Book.Refines.{side_of-represent, index, remove_active-represent}
use matching_engine_go.Book.Matching.{remove_active}
use matching_engine_go.Book.Spec.Apply.{active, find_levels, take_out}

abbrev pub handle? : Option Order → Option Handle
handle? none = none
handle? (some o) = some (handle_of o)

locate-find :
    (ls : List LevelSnapshot) (other : Option Order) (id : ℕ)
    → locate ls (handle? other) id ≡ handle? (find_levels id ls other)
locate-find [] other id = refl
locate-find (l ∷ ls) other id = ground (arith, locate-find ls other id)

-- The map of a book has a handle for an id exactly if an order with that id is active.
pub orders-represent : (s : Snapshot) (id : ℕ) → index s id ≡ handle? (active s id)
orders-represent s id =
    ap (λ (h : Option Handle). locate s.bids h id) (locate-find s.asks none id)
    ∙ locate-find s.bids (find_levels id s.asks none) id

find_order-All :
    (P : Order → Type 0) (id : ℕ) (os : List Order) (o : Order)
    → All P os
    → find_order id os ≡ some o
    → P o × (o.id ≡ id)
unfolding find_order
find_order-All P id [] o v e = cc
find_order-All P id (x ∷ os) o v e = elim (Bool-cases (x.id == id)) [
  | inl t ↦ subst (λ (y : Order). P y × (y.id ≡ id)) (ground arith) (v.0, ground arith)
  | inr f ↦ find_order-All P id os o v.1 (rw f at e)
]

-- An order that rests on a side under an id, with its level.
pub record IsFound (ls : List LevelSnapshot) (side id : ℕ) (o : Order) : Type 0 where
  pub level : PriceLevel
  pub level_at : levels_of ls o.price ≡ some level
  pub in_queue : find_order id level.queue ≡ some o
  pub same_id : o.id ≡ id
  pub same_side : o.side ≡ side
  pub price_valid : IsPrice o.price
  pub positive : 0 < o.leaves_qty
  pub fits : o.leaves_qty < 2 ^ 63

IsFound-here :
    (side id : ℕ) (l : LevelSnapshot) (ls : List LevelSnapshot) (o : Order)
    → IsLevel side l
    → find_order id l.orders ≡ some o
    → IsFound (l ∷ ls) side id o
IsFound-here side id l ls o v e =
    let (w, same) = find_order-All (IsOrder side l.price) id l.orders o v.2 e in
    record {
      level = record { price = l.price; total_qty = quantity l.orders % 2 ^ 64; queue = l.orders };
      level_at = ground arith;
      in_queue = e;
      same_id = same;
      same_side = w.0;
      price_valid = omega arith;
      positive = w.2;
      fits = w.3;
    }

IsFound-later :
    (is_bid : Bool) (side id : ℕ) (l : LevelSnapshot) (ls : List LevelSnapshot) (o : Order)
    → All (λ q. ahead is_bid l.price q ≡ true) (prices_of ls)
    → IsFound ls side id o
    → IsFound (l ∷ ls) side id o
IsFound-later is_bid side id l ls o h f = record {
  level = f.level;
  level_at = ground (arith, present_ahead is_bid l.price o.price ls f.level h f.level_at);
  in_queue = f.in_queue;
  same_id = f.same_id;
  same_side = f.same_side;
  price_valid = f.price_valid;
  positive = f.positive;
  fits = f.fits;
}

find_levels-IsFound :
    (is_bid : Bool) (side id : ℕ) (ls : List LevelSnapshot) (other : Option Order) (o : Order)
    → IsSide is_bid side ls
    → find_levels id ls other ≡ some o
    → IsFound ls side id o ⊎ (other ≡ some o)
find_levels-IsFound is_bid side id [] other o v e = inr e
find_levels-IsFound is_bid side id (l ∷ ls) other o v e =
    elim (Option-cases (find_order id l.orders)) [
      | inr (x, f) ↦ inl (IsFound-here side id l ls o v.0.0 (ground arith))
      | inl f ↦ elim (find_levels-IsFound is_bid side id ls other o (v.0.1, v.1.1) (ground arith)) [
        | inl w ↦ inl (IsFound-later is_bid side id l ls o v.1.0 w)
        | inr w ↦ inr w
      ]
    ]

-- The side of an active order is one of the two.
pub active-side :
    (s : Snapshot) (id : ℕ) (o : Order)
    → IsValid s
    → active s id ≡ some o
    → (o.side ≡ side_buy) ⊎ (o.side ≡ side_sell)
active-side s id o v e =
    elim (find_levels-IsFound true side_buy id s.bids (find_levels id s.asks none) o v.bids_valid
      e) [
        | inl f ↦ inl f.same_side
        | inr e' ↦ elim (find_levels-IsFound false side_sell id s.asks none o v.asks_valid e') [
          | inl f ↦ inr f.same_side
          | inr n ↦ cc
        ]
      ]

active-IsSide :
    (s : Snapshot) (id : ℕ) (o : Order)
    → IsValid s
    → active s id ≡ some o
    → IsSide (is_bid_side o.side) o.side (levels_at s o.side)
active-IsSide s id o v e = elim (active-side s id o v e) [
  | inl b ↦ subst (λ (k : ℕ). IsSide (is_bid_side k) k (levels_at s k)) (sym b) v.bids_valid
  | inr b ↦ subst (λ (k : ℕ). IsSide (is_bid_side k) k (levels_at s k)) (sym b) v.asks_valid
]

-- An active order rests on its side under its id.
pub active-IsFound :
    (s : Snapshot) (id : ℕ) (o : Order)
    → IsValid s
    → active s id ≡ some o
    → IsFound (levels_at s o.side) o.side id o
active-IsFound s id o v e =
    elim (find_levels-IsFound true side_buy id s.bids (find_levels id s.asks none) o v.bids_valid
      e) [
        | inl f ↦ at_side side_buy s.bids f refl
        | inr e' ↦ elim (find_levels-IsFound false side_sell id s.asks none o v.asks_valid e') [
          | inl f ↦ at_side side_sell s.asks f refl
          | inr n ↦ cc
        ]
      ]
  where
    at_side :
        (side : ℕ) (ls : List LevelSnapshot)
        → IsFound ls side id o
        → levels_at s side ≡ ls
        → IsFound (levels_at s o.side) o.side id o
    at_side side ls f e =
        subst (λ (k : ℕ). IsFound (levels_at s k) k id o) (sym f.same_side)
          (subst (λ (ks : List LevelSnapshot). IsFound ks side id o) (sym e) f)

-- Following a handle leads to the order.
pub deref-represent :
    (s : Snapshot) (id : ℕ) (o : Order)
    → IsFound (levels_at s o.side) o.side id o
    → deref (represent s) (handle_of o) id ≡ some o
unfolding deref
deref-represent s id o f = rw (side_of-represent s o.side) (rw f.level_at f.in_queue)

count-absent : (id : ℕ) (os : List Order) → find_order id os ≡ none → count id os ≡ 0
unfolding find_order
count-absent id [] e = refl
count-absent id (o ∷ os) e = ground (arith, count-absent id os)

absent-find :
    (id : ℕ) (ls : List LevelSnapshot) (other : Option Order)
    → find_levels id ls other ≡ none
    → (count_side id ls ≡ 0) × (other ≡ none)
absent-find id [] other e = (refl, e)
absent-find id (l ∷ ls) other e = ground (arith, absent-find id ls other, count-absent id l.orders)

-- An id that is not active stands nowhere.
pub active-absent :
    (s : Snapshot) (id : ℕ)
    → active s id ≡ none
    → (count_side id s.bids ≡ 0) × (count_side id s.asks ≡ 0)
active-absent s id e =
    let (b, e') = absent-find id s.bids (find_levels id s.asks none) e in
    (b, (absent-find id s.asks none e').0)

-- removeActive takes an active order out.
pub take_out-represent :
    (s : Snapshot) (id : ℕ) (o : Order)
    → IsValid s
    → active s id ≡ some o
    → remove_active (represent s) o ≡ some (represent (take_out s o))
unfolding take_out
take_out-represent s id o v e =
    let f : IsFound (levels_at s o.side) o.side id o = active-IsFound s id o v e in
    let w : IsSide (is_bid_side o.side) o.side (levels_at s o.side) = active-IsSide s id o v e in
    remove_active-represent s o f.level w.1 (prices_fit o.side (levels_at s o.side) w.0)
      f.price_valid.1 (omega (arith, f.fits)) f.level_at
      (subst (λ (k : ℕ). find_order k f.level.queue ≡ some o) (sym f.same_id) f.in_queue)
      (v.distinct o.id)
