-- ===== src/Book/View/Levels.antt =====
-- The operations on one side of a book, at the side that represents a list of levels.
use matching_engine_go.Prelude.{
  ℕ, suc, ◌+◌, ◌%◌, ◌^◌, ◌<◌, ◌≡◌, inl, inr, refl, List, [], ◌∷◌, ◌++◌, Bool, true, false, Option,
  none, some, ◌==◌, if◌then◌else◌, All, length, take, drop, add64, arith, Option-cases, fun_ext,
  sym,
}
use matching_engine_go.Book.State.{
  Order, PriceLevel, SideBook, LevelSnapshot, update, put_level, Map,
}
use matching_engine_go.Book.Sides.{append, find_insert_index, get_or_create_level}
use matching_engine_go.Book.View.{
  ahead, IsSorted, IsLevel, IsSide, quantity, represent_level, represent_side, levels_of, prices_of,
}
use matching_engine_go.Book.View.Search.{rank, rank-le-length, insert_index_loop_lem}
use matching_engine_go.Book.Spec.{insert_order, level_with}

pub quantity-append : (xs ys : List Order) → quantity (xs ++ ys) ≡ quantity xs + quantity ys
quantity-append [] ys = omega arith
quantity-append (x ∷ xs) ys = omega (arith, quantity-append xs ys)

pub SideBook-eq :
    {f g : Map PriceLevel} {ps qs : List ℕ} (is_bid : Bool)
    → ((p : ℕ) → f p ≡ g p)
    → ps ≡ qs
    → ◌≡◌ {A = SideBook}
        (record { levels = f; prices = ps; is_bid = is_bid })
        (record { levels = g; prices = qs; is_bid = is_bid })
SideBook-eq is_bid h e = λ i. record { levels = fun_ext h i; prices = e i; is_bid = is_bid }

-- PriceLevel.append on the level of a queue.
append-represent :
    (l : LevelSnapshot) (o : Order)
    → append (represent_level l) o ≡ represent_level (level_with l.price (l.orders ++ o ∷ []))
unfolding append add64
append-represent l o = ground (arith, quantity-append l.orders (o ∷ []))

-- The level at a price, or a new one.
abbrev pub level_or_new : ℕ → Option PriceLevel → PriceLevel
level_or_new price none = record { price = price; total_qty = 0; queue = [] }
level_or_new price (some l) = l

pub levels_of-absent :
    (is_bid : Bool) (price : ℕ) (ls : List LevelSnapshot)
    → All (λ q. ahead is_bid price q ≡ true) (prices_of ls)
    → levels_of ls price ≡ none
levels_of-absent is_bid price [] h = refl
levels_of-absent is_bid price (l ∷ ls) h = ground (arith, levels_of-absent is_bid price ls h.1)

pub ahead_trans :
    (is_bid : Bool) (p q : ℕ) (ps : List ℕ)
    → ahead is_bid p q ≡ true
    → All (λ r. ahead is_bid q r ≡ true) ps
    → All (λ r. ahead is_bid p r ≡ true) ps
ahead_trans is_bid p q [] h k = tt
ahead_trans is_bid p q (r ∷ ps) h k = (ground arith, ahead_trans is_bid p q ps h k.1)

ahead_total :
    (is_bid : Bool) (p q : ℕ)
    → (p == q) ≡ false
    → ahead is_bid p q ≡ false
    → ahead is_bid q p ≡ true
ahead_total is_bid p q h k = ground arith

levels_of-insert :
    (is_bid : Bool) (o : Order) (ls : List LevelSnapshot) (p : ℕ)
    → IsSorted is_bid (prices_of ls)
    → levels_of (insert_order is_bid o ls) p ≡ (
        if p == o.price
        then some (append (level_or_new o.price (levels_of ls o.price)) o)
        else levels_of ls p)
unfolding insert_order append add64
levels_of-insert is_bid o [] p s = ground arith
levels_of-insert is_bid o (l ∷ ls) p s = ground (
  arith,
  levels_of-insert is_bid o ls p s.1,
  append-represent l o,
  ahead_total is_bid l.price o.price,
  ahead_trans is_bid o.price l.price (prices_of ls),
  levels_of-absent is_bid o.price ls,
)

-- A price that is among prices behind another is behind it.
pub present_ahead :
    (is_bid : Bool) (p price : ℕ) (ls : List LevelSnapshot) (level : PriceLevel)
    → All (λ q. ahead is_bid p q ≡ true) (prices_of ls)
    → levels_of ls price ≡ some level
    → ahead is_bid p price ≡ true
present_ahead is_bid p price [] level h e = cc
present_ahead is_bid p price (l ∷ ls) level h e =
    ground (arith, present_ahead is_bid p price ls level h.1)

prices_of-insert_present :
    (is_bid : Bool) (o : Order) (ls : List LevelSnapshot) (level : PriceLevel)
    → IsSorted is_bid (prices_of ls)
    → levels_of ls o.price ≡ some level
    → prices_of (insert_order is_bid o ls) ≡ prices_of ls
unfolding insert_order
prices_of-insert_present is_bid o [] level s e = cc
prices_of-insert_present is_bid o (l ∷ ls) level s e = ground (
  arith,
  prices_of-insert_present is_bid o ls level s.1,
  present_ahead is_bid l.price o.price ls level s.0,
)

prices_of-insert_absent :
    (is_bid : Bool) (o : Order) (ls : List LevelSnapshot)
    → levels_of ls o.price ≡ none
    → let k = rank is_bid o.price (prices_of ls) in
      prices_of (insert_order is_bid o ls)
      ≡ take k (prices_of ls) ++ o.price ∷ drop k (prices_of ls)
unfolding insert_order rank
prices_of-insert_absent is_bid o [] e = refl
prices_of-insert_absent is_bid o (l ∷ ls) e = ground (arith, prices_of-insert_absent is_bid o ls)

pub prices_fit :
    (side : ℕ) (ls : List LevelSnapshot)
    → All (IsLevel side) ls
    → All (λ p. p < 2 ^ 63) (prices_of ls)
prices_fit side [] h = tt
prices_fit side (l ∷ ls) h = (h.0.0.1, prices_fit side ls h.1)

-- findInsertIndex on a side that represents a list of levels, whatever its map.
pub find_insert_index-represent :
    (is_bid : Bool) (price : ℕ) (ls : List LevelSnapshot) (levels : Map PriceLevel)
    → IsSorted is_bid (prices_of ls)
    → All (λ p. p < 2 ^ 63) (prices_of ls)
    → price < 2 ^ 63
    → find_insert_index (record { levels = levels; prices = prices_of ls; is_bid = is_bid }) price
      ≡ some (rank is_bid price (prices_of ls))
unfolding find_insert_index
find_insert_index-represent is_bid price ls levels s fits hp =
    insert_index_loop_lem is_bid (prices_of ls) price s fits hp (suc (length (prices_of ls))) 0
      (length (prices_of ls)) (omega arith) (rank-le-length is_bid price (prices_of ls))
      (omega arith) (omega arith)

pub total_qty-levels_of :
    (p : ℕ) (ls : List LevelSnapshot) (level : PriceLevel)
    → levels_of ls p ≡ some level
    → level.total_qty ≡ quantity level.queue % 2 ^ 64
total_qty-levels_of p [] level e = cc
total_qty-levels_of p (l ∷ ls) level e = ground (arith, total_qty-levels_of p ls level)

pub price-levels_of :
    (p : ℕ) (ls : List LevelSnapshot) (level : PriceLevel)
    → levels_of ls p ≡ some level
    → level.price ≡ p
price-levels_of p [] level e = cc
price-levels_of p (l ∷ ls) level e = ground (arith, price-levels_of p ls level)

place_levels :
    (is_bid : Bool) (o : Order) (ls : List LevelSnapshot) (level : PriceLevel) (p : ℕ)
    → IsSorted is_bid (prices_of ls)
    → level.price ≡ o.price
    → level_or_new o.price (levels_of ls o.price) ≡ level
    → (if p == (append level o).price then some (append level o) else levels_of ls p)
      ≡ levels_of (insert_order is_bid o ls) p
unfolding append
place_levels is_bid o ls level p s e h = ground (arith, levels_of-insert is_bid o ls p s)

place_new_levels :
    (is_bid : Bool) (o : Order) (ls : List LevelSnapshot) (level : PriceLevel) (p : ℕ)
    → IsSorted is_bid (prices_of ls)
    → level.price ≡ o.price
    → level_or_new o.price (levels_of ls o.price) ≡ level
    → (if p == (append level o).price
        then some (append level o)
        else (if p == o.price then some level else levels_of ls p))
      ≡ levels_of (insert_order is_bid o ls) p
unfolding append
place_new_levels is_bid o ls level p s e h = ground (arith, levels_of-insert is_bid o ls p s)

place_new :
    (is_bid : Bool) (side : ℕ) (o : Order) (ls : List LevelSnapshot)
    → IsSide is_bid side ls
    → o.price < 2 ^ 63
    → levels_of ls o.price ≡ none
    → (r : SideBook × PriceLevel) × (get_or_create_level (represent_side is_bid ls) o.price
        ≡ some r)
      × (put_level r.0 (append r.1 o) ≡ represent_side is_bid (insert_order is_bid o ls))
unfolding get_or_create_level
place_new is_bid side o ls v hp e = (
  r,
  rw (e, get_or_create_level)
      (rw (
        find_insert_index-represent is_bid o.price ls (levels_of ls) v.1 (prices_fit side ls v.0)
          hp)),
  SideBook-eq is_bid (λ p. place_new_levels is_bid o ls new_level p v.1 refl (rw e))
      (sym (prices_of-insert_absent is_bid o ls e)),
)
  where
    new_level : PriceLevel
    new_level = record { price = o.price; total_qty = 0; queue = [] }

    r : SideBook × PriceLevel
    r = (
      record (represent_side is_bid ls) {
        levels = update (levels_of ls) o.price (some new_level);
        prices =
            take (rank is_bid o.price (prices_of ls)) (prices_of ls)
            ++ o.price ∷ drop (rank is_bid o.price (prices_of ls)) (prices_of ls);
      },
      new_level,
    )

-- getOrCreateLevel and append together put an order where the specification puts it.
pub place-represent :
    (is_bid : Bool) (side : ℕ) (o : Order) (ls : List LevelSnapshot)
    → IsSide is_bid side ls
    → o.price < 2 ^ 63
    → (r : SideBook × PriceLevel) × (get_or_create_level (represent_side is_bid ls) o.price
        ≡ some r)
      × (put_level r.0 (append r.1 o) ≡ represent_side is_bid (insert_order is_bid o ls))
unfolding get_or_create_level
place-represent is_bid side o ls v hp = elim (Option-cases (levels_of ls o.price)) [
  | inl e ↦ place_new is_bid side o ls v hp e
  | inr (level, e) ↦ (
    (represent_side is_bid ls, level),
    rw (e, get_or_create_level),
    SideBook-eq is_bid
        (λ p. place_levels is_bid o ls level p v.1 (price-levels_of o.price ls level e) (rw e))
        (sym (prices_of-insert_present is_bid o ls level v.1 e)),
  )
]
