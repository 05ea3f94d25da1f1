-- ===== src/Book/View/Index.antt =====
-- The map from order ids to orders, and how often an id stands on a side.
use matching_engine_go.Prelude.{
  ℕ, ◌+◌, ◌≤◌, ◌≡◌, inl, inr, refl, List, [], ◌∷◌, ◌++◌, Bool, false, Option, none, some, ◌==◌,
  if◌then◌else◌, arith, Bool-cases,
}
use matching_engine_go.Book.State.{Order, PriceLevel, LevelSnapshot, Handle, unlink, find_order}
use matching_engine_go.Book.View.{count, count_side, one_if, levels_of, located, locate, handle_of}
use matching_engine_go.Book.Spec.{insert_order, remove_order, cons_level}

pub count-append : (id : ℕ) (xs ys : List Order) → count id (xs ++ ys) ≡ count id xs + count id ys
count-append id [] ys = omega arith
count-append id (x ∷ xs) ys = omega (arith, count-append id xs ys)

pub find_order-absent : (id : ℕ) (os : List Order) → count id os ≡ 0 → find_order id os ≡ none
unfolding find_order
find_order-absent id [] h = refl
find_order-absent id (o ∷ os) h = ground (arith, find_order-absent id os)

find_order-append :
    (id : ℕ) (xs : List Order) (o : Order)
    → count o.id xs ≡ 0
    → find_order id (xs ++ o ∷ []) ≡ (if id == o.id then some o else find_order id xs)
unfolding find_order
find_order-append id [] o h = ground arith
find_order-append id (x ∷ xs) o h = ground (arith, find_order-append id xs o)

pub locate-absent :
    (id : ℕ) (ls : List LevelSnapshot) (other : Option Handle)
    → count_side id ls ≡ 0
    → locate ls other id ≡ other
locate-absent id [] other h = refl
locate-absent id (l ∷ ls) other h =
    ground (arith, find_order-absent id l.orders, locate-absent id ls other)

-- A new order is found under its id, and no other id is affected.
pub locate-insert :
    (is_bid : Bool) (o : Order) (ls : List LevelSnapshot) (other : Option Handle) (id : ℕ)
    → count_side o.id ls ≡ 0
    → locate (insert_order is_bid o ls) other id
      ≡ (if id == o.id then some (handle_of o) else locate ls other id)
unfolding insert_order find_order
locate-insert is_bid o [] other id h = ground arith
locate-insert is_bid o (l ∷ ls) other id h = ground (
  arith,
  locate-insert is_bid o ls other id,
  find_order-append id l.orders o,
  find_order-absent o.id l.orders,
)

pub count_side-insert :
    (is_bid : Bool) (o : Order) (ls : List LevelSnapshot) (id : ℕ)
    → count_side id (insert_order is_bid o ls) ≡ one_if (o.id == id) + count_side id ls
unfolding insert_order
count_side-insert is_bid o [] id = omega arith
count_side-insert is_bid o (l ∷ ls) id =
    ground (arith, count_side-insert is_bid o ls id, count-append id l.orders (o ∷ []))

pub count-unlink :
    (id key : ℕ) (os : List Order) (o : Order)
    → find_order key os ≡ some o
    → count id os ≡ one_if (key == id) + count id (unlink key os)
unfolding find_order unlink
count-unlink id key [] o e = cc
count-unlink id key (x ∷ os) o e = ground (arith, count-unlink id key os o)

find_order-unlink :
    (id key : ℕ) (os : List Order)
    → (id == key) ≡ false
    → find_order id (unlink key os) ≡ find_order id os
unfolding find_order unlink
find_order-unlink id key [] h = refl
find_order-unlink id key (x ∷ os) h = ground (arith, find_order-unlink id key os)

pub count_side-cons_level :
    (id price : ℕ) (os : List Order) (ls : List LevelSnapshot)
    → count_side id (cons_level price os ls) ≡ count id os + count_side id ls
count_side-cons_level id price [] ls = omega arith
count_side-cons_level id price (o ∷ os) ls = refl

locate-cons_level :
    (price : ℕ) (os : List Order) (ls : List LevelSnapshot) (other : Option Handle) (id : ℕ)
    → locate (cons_level price os ls) other id ≡ located (find_order id os) (locate ls other id)
unfolding find_order
locate-cons_level price [] ls other id = refl
locate-cons_level price (o ∷ os) ls other id = refl

pub count_side-remove :
    (price key : ℕ) (ls : List LevelSnapshot) (level : PriceLevel) (o : Order) (id : ℕ)
    → levels_of ls price ≡ some level
    → find_order key level.queue ≡ some o
    → count_side id ls ≡ one_if (key == id) + count_side id (remove_order price key ls)
unfolding remove_order
count_side-remove price key [] level o id e f = cc
count_side-remove price key (l ∷ ls) level o id e f = elim (Bool-cases (l.price == price)) [
  | inl h ↦ ground (
    arith,
    count-unlink id key l.orders o,
    count_side-cons_level id l.price (unlink key l.orders) ls,
  )
  | inr h ↦ ground (arith, count_side-remove price key ls level o id)
]

locate-remove_ne :
    (price key : ℕ) (ls : List LevelSnapshot) (other : Option Handle) (id : ℕ)
    → (id == key) ≡ false
    → locate (remove_order price key ls) other id ≡ locate ls other id
unfolding remove_order
locate-remove_ne price key [] other id h = refl
locate-remove_ne price key (l ∷ ls) other id h = elim (Bool-cases (l.price == price)) [
  | inl e ↦ ground (
    arith,
    locate-cons_level l.price (unlink key l.orders) ls other id,
    find_order-unlink id key l.orders,
  )
  | inr e ↦ ground (arith, locate-remove_ne price key ls other id)
]

-- Without an order its id is not found on its side, and no other id is affected.
pub locate-remove :
    (price key : ℕ) (ls : List LevelSnapshot) (other : Option Handle) (level : PriceLevel)
    (o : Order) (id : ℕ)
    → levels_of ls price ≡ some level
    → find_order key level.queue ≡ some o
    → count_side key ls ≤ 1
    → locate (remove_order price key ls) other id
      ≡ (if id == key then other else locate ls other id)
locate-remove price key ls other level o id e f h = elim (Bool-cases (id == key)) [
  | inl same ↦ ground (
    arith,
    locate-absent id (remove_order price key ls) other,
    count_side-remove price key ls level o id e f,
  )
  | inr differs ↦ ground (arith, locate-remove_ne price key ls other id differs)
]
