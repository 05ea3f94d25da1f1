-- ===== src/Book/Refines.antt =====
-- Book.rest and removeActive do on the book of a snapshot what the specification does on the snapshot.
pub mod Round
pub mod Loop
pub mod Match
pub mod Lookup
pub mod Rest
pub mod New
pub mod Amend
pub mod Replace
pub mod Apply
use matching_engine_go.Prelude.{
  ℕ, zero, suc, ◌+◌, ◌-◌, ◌%◌, ◌^◌, ◌≤◌, ◌<◌, ◌≡◌, ◌≢◌, ◌⊎◌, inl, inr, refl, List, [], ◌∷◌, ◌++◌,
  Bool, true, false, not, Option, none, some, ◌==◌, if◌then◌else◌, ltb, leb, All, length, arith,
  Bool-cases, Option-cases, ap, sym, ◌∙◌, fun_ext, ◌>>=◌,
}
use matching_engine_go.Model.{side_buy, side_sell}
use matching_engine_go.Book.State.{
  Order, PriceLevel, SideBook, Book, Snapshot, LevelSnapshot, Handle, Map, update, unlink,
  find_order, side_of, put_side, put_level,
}
use matching_engine_go.Book.Sides.{append, remove, get_or_create_level, remove_level_if_empty}
use matching_engine_go.Book.Matching.{rest, remove_active}
use matching_engine_go.Book.View.{
  count, count_side, one_if, levels_of, prices_of, located, locate, handle_of, represent,
  represent_side, IsSide, IsSorted, levels_at, with_levels, is_bid_side,
}
use matching_engine_go.Book.View.Levels.{place-represent}
use matching_engine_go.Book.View.Removal.{detach-represent}
use matching_engine_go.Book.View.Index.{
  locate-insert, locate-remove, locate-absent, count_side-remove,
}
use matching_engine_go.Book.Spec.{insert_order, remove_order}

pub levels_at-with_levels :
    (s : Snapshot) (side : ℕ) (ls : List LevelSnapshot)
    → levels_at (with_levels s side ls) side ≡ ls
levels_at-with_levels s side ls = ground arith

pub with_levels-with_levels :
    (s : Snapshot) (side : ℕ) (ks ls : List LevelSnapshot)
    → with_levels (with_levels s side ks) side ls ≡ with_levels s side ls
with_levels-with_levels s side ks ls = ground arith

pub with_levels-levels_at : (s : Snapshot) (side : ℕ) → with_levels s side (levels_at s side) ≡ s
with_levels-levels_at s side = ground arith

pub Book-eq :
    (b : Book) {f g : Map Handle}
    → ((id : ℕ) → f id ≡ g id)
    → ◌≡◌ {A = Book} (record b { orders = f }) (record b { orders = g })
Book-eq b h = λ i. record b { orders = fun_ext h i }

-- Placing an order, once its side has the place.
place_side :
    (b : Book) (o : Order) (r : SideBook × PriceLevel) (t : SideBook)
    → get_or_create_level (side_of b o.side) o.price ≡ some r
    → put_level r.0 (append r.1 o) ≡ t
    → rest b o
      ≡ some (record (put_side b o.side t) {
        orders = update (put_side b o.side t).orders o.id (some (handle_of o));
      })
unfolding rest
place_side b o r t e f = rw e (rw f)

abbrev pub index : Snapshot → Map Handle
index s id = locate s.bids (locate s.asks none id) id

pub put_orders :
    (s : Snapshot) (side : ℕ) (ls : List LevelSnapshot) (f : Map Handle)
    → ((id : ℕ) → f id ≡ index (with_levels s side ls) id)
    → record (put_side (represent s) side (represent_side (is_bid_side side) ls)) { orders = f }
      ≡ represent (with_levels s side ls)
put_orders s side ls f h = elim (Bool-cases (side == side_sell)) [
  | inl e ↦ rw e (Book-eq (represent (record s { asks = ls })) (rw e at h))
  | inr e ↦ rw e (Book-eq (represent (record s { bids = ls })) (rw e at h))
]

pub side_of-represent :
    (s : Snapshot) (side : ℕ)
    → side_of (represent s) side ≡ represent_side (is_bid_side side) (levels_at s side)
side_of-represent s side = elim (Bool-cases (side == side_sell)) [ inl e ↦ rw e | inr e ↦ rw e ]

pub orders-put_side : (b : Book) (side : ℕ) (t : SideBook) → (put_side b side t).orders ≡ b.orders
orders-put_side b side t = elim (Bool-cases (side == side_sell)) [ inl e ↦ rw e | inr e ↦ rw e ]

index-insert :
    (s : Snapshot) (o : Order) (id : ℕ)
    → count_side o.id s.bids ≡ 0
    → count_side o.id s.asks ≡ 0
    → (if id == o.id then some (handle_of o) else index s id)
      ≡ index (with_levels s o.side (insert_order (is_bid_side o.side) o (levels_at s o.side))) id
index-insert s o id b a = ground (
  arith,
  locate-insert true o s.bids (locate s.asks none id) id b,
  locate-insert false o s.asks none id a,
  locate-absent id s.bids (locate s.asks none id),
  locate-absent id s.bids (some (handle_of o)),
)

-- Book.rest on a book puts a new order where the specification puts it.
pub rest-represent :
    (s : Snapshot) (o : Order)
    → IsSide (is_bid_side o.side) o.side (levels_at s o.side)
    → o.price < 2 ^ 63
    → count_side o.id s.bids ≡ 0
    → count_side o.id s.asks ≡ 0
    → rest (represent s) o
      ≡ some (
          represent
            (with_levels s o.side (insert_order (is_bid_side o.side) o (levels_at s o.side))))
rest-represent s o v hp nb na =
    let (r, e, f) = place-represent (is_bid_side o.side) o.side o (levels_at s o.side) v hp in
    place_side (represent s) o r _ (rw (side_of-represent s o.side) e) f
    ∙ ap some (
        put_orders s o.side _ _
          λ id. rw (orders-put_side (represent s) o.side) (index-insert s o id nb na))

index-remove :
    (s : Snapshot) (o : Order) (level : PriceLevel) (id : ℕ)
    → levels_of (levels_at s o.side) o.price ≡ some level
    → find_order o.id level.queue ≡ some o
    → count_side o.id s.bids + count_side o.id s.asks ≤ 1
    → (if id == o.id then none else index s id)
      ≡ index (with_levels s o.side (remove_order o.price o.id (levels_at s o.side))) id
index-remove s o level id e f h = elim (Bool-cases (o.side == side_sell)) [
  | inl t ↦ ground (
    arith,
    locate-remove o.price o.id s.asks none level o id,
    count_side-remove o.price o.id s.asks level o o.id,
    locate-absent id s.bids (locate s.asks none id),
    locate-absent id s.bids none,
  )
  | inr t ↦ ground (
    arith,
    locate-remove o.price o.id s.bids (locate s.asks none id) level o id,
    count_side-remove o.price o.id s.bids level o o.id,
    locate-absent id s.asks none,
  )
]

detach_side :
    (b : Book) (o : Order) (level : PriceLevel) (t : SideBook)
    → (side_of b o.side).levels o.price ≡ some level
    → remove_level_if_empty (put_level (side_of b o.side) (remove level o)) (remove level o)
      ≡ some t
    → remove_active b o
      ≡ some
          (record (put_side b o.side t) { orders = update (put_side b o.side t).orders o.id none })
unfolding remove_active
detach_side b o level t e f = rw (e, remove_active) (rw f)

-- removeActive on a book takes out an active order as the specification does.
pub remove_active-represent :
    (s : Snapshot) (o : Order) (level : PriceLevel)
    → IsSorted (is_bid_side o.side) (prices_of (levels_at s o.side))
    → All (λ p. p < 2 ^ 63) (prices_of (levels_at s o.side))
    → o.price < 2 ^ 63
    → o.leaves_qty < 2 ^ 64
    → levels_of (levels_at s o.side) o.price ≡ some level
    → find_order o.id level.queue ≡ some o
    → count_side o.id s.bids + count_side o.id s.asks ≤ 1
    → remove_active (represent s) o
      ≡ some (represent (with_levels s o.side (remove_order o.price o.id (levels_at s o.side))))
remove_active-represent s o level srt fits hp small e f once =
    detach_side (represent s) o level _ (rw (side_of-represent s o.side) e) (
      rw (side_of-represent s o.side) (
        detach-represent (is_bid_side o.side) o.price (levels_at s o.side) level srt fits hp e o f
          small))
    ∙ ap some (
        put_orders s o.side _ _
          λ id. rw (orders-put_side (represent s) o.side) (index-remove s o level id e f once))
