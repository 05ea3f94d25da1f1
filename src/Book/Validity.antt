-- ===== src/Book/Validity.antt =====
-- The operations of the specification keep a side well formed: what holds of all prices, of all
-- orders and of the number of times that an id stands on the side.
pub mod Sweeps
pub mod Kept
pub mod Filled
pub mod Books
pub mod Clear
use matching_engine_go.Prelude.{
  ℕ, zero, suc, ◌+◌, ◌-◌, ◌%◌, ◌^◌, ◌≤◌, ◌<◌, ◌≡◌, ◌≢◌, ◌⊎◌, inl, inr, refl, List, [], ◌∷◌, ◌++◌,
  Bool, true, false, not, Option, none, some, ◌==◌, if◌then◌else◌, ltb, leb, All, length, arith,
  Bool-cases, Option-cases, ap, sym, ◌∙◌, All-append,
}
use matching_engine_go.Book.State.{
  Order, PriceLevel, Snapshot, LevelSnapshot, unlink, find_order, set_leaves,
}
use matching_engine_go.Book.View.{
  ahead, count, count_side, one_if, levels_of, prices_of, IsSide, IsLevel, IsSorted, IsOrder,
  IsPrice,
}
use matching_engine_go.Book.View.Levels.{ahead_trans}
use matching_engine_go.Book.Spec.{insert_order, remove_order, amend_order, level_with, cons_level}

-- What holds of all prices of a side.
pub All-insert :
    (P : ℕ → Type 0) (is_bid : Bool) (o : Order) (ls : List LevelSnapshot)
    → P o.price
    → All P (prices_of ls)
    → All P (prices_of (insert_order is_bid o ls))
unfolding insert_order
All-insert P is_bid o [] h v = (h, tt)
All-insert P is_bid o (l ∷ ls) h v = ground (arith, All-insert P is_bid o ls h v.1)

pub All-cons_level :
    (P : ℕ → Type 0) (price : ℕ) (os : List Order) (ls : List LevelSnapshot)
    → P price
    → All P (prices_of ls)
    → All P (prices_of (cons_level price os ls))
All-cons_level P price [] ls h v = v
All-cons_level P price (o ∷ os) ls h v = (h, v)

pub All-remove :
    (P : ℕ → Type 0) (price id : ℕ) (ls : List LevelSnapshot)
    → All P (prices_of ls)
    → All P (prices_of (remove_order price id ls))
unfolding remove_order
All-remove P price id [] v = tt
All-remove P price id (l ∷ ls) v =
    ground (
      arith,
      All-remove P price id ls v.1,
      All-cons_level P l.price (unlink id l.orders) ls v.0 v.1,
    )

pub prices_of-amend :
    (price id n : ℕ) (ls : List LevelSnapshot)
    → prices_of (amend_order price id n ls) ≡ prices_of ls
unfolding amend_order
prices_of-amend price id n [] = refl
prices_of-amend price id n (l ∷ ls) = ground (arith, prices_of-amend price id n ls)

ahead_of_ne :
    (is_bid : Bool) (p q : ℕ)
    → (p == q) ≡ false
    → ahead is_bid p q ≡ false
    → ahead is_bid q p ≡ true
ahead_of_ne is_bid p q h k = ground arith

pub IsSorted-insert :
    (is_bid : Bool) (o : Order) (ls : List LevelSnapshot)
    → IsSorted is_bid (prices_of ls)
    → IsSorted is_bid (prices_of (insert_order is_bid o ls))
unfolding insert_order
IsSorted-insert is_bid o [] s = (tt, tt)
IsSorted-insert is_bid o (l ∷ ls) s = elim (Bool-cases (l.price == o.price)) [
  | inl e ↦ rw e s
  | inr e ↦ elim (Bool-cases (ahead is_bid l.price o.price)) [
    | inl a ↦
        rw (e, a)
          (
            All-insert (λ q. ahead is_bid l.price q ≡ true) is_bid o ls a s.0,
            IsSorted-insert is_bid o ls s.1,
          )
    | inr a ↦
        let b : ahead is_bid o.price l.price ≡ true = ahead_of_ne is_bid l.price o.price e a in
        rw (e, a) ((b, ahead_trans is_bid o.price l.price (prices_of ls) b s.0), s)
  ]
]

pub IsSorted-cons_level :
    (is_bid : Bool) (price : ℕ) (os : List Order) (ls : List LevelSnapshot)
    → IsSorted is_bid (price ∷ prices_of ls)
    → IsSorted is_bid (prices_of (cons_level price os ls))
IsSorted-cons_level is_bid price [] ls s = s.1
IsSorted-cons_level is_bid price (o ∷ os) ls s = s

pub IsSorted-remove :
    (is_bid : Bool) (price id : ℕ) (ls : List LevelSnapshot)
    → IsSorted is_bid (prices_of ls)
    → IsSorted is_bid (prices_of (remove_order price id ls))
unfolding remove_order
IsSorted-remove is_bid price id [] s = tt
IsSorted-remove is_bid price id (l ∷ ls) s = elim (Bool-cases (l.price == price)) [
  | inl e ↦ rw e (IsSorted-cons_level is_bid l.price (unlink id l.orders) ls s)
  | inr e ↦ rw e (
    All-remove (λ q. ahead is_bid l.price q ≡ true) price id ls s.0,
    IsSorted-remove is_bid price id ls s.1,
  )
]

append-ne-nil : (xs : List Order) (o : Order) → xs ++ o ∷ [] ≢ []
append-ne-nil [] o e = cc
append-ne-nil (x ∷ xs) o e = cc

-- What holds of all levels.
levels-insert :
    (is_bid : Bool) (side : ℕ) (o : Order) (ls : List LevelSnapshot)
    → IsPrice o.price
    → IsOrder side o.price o
    → All (IsLevel side) ls
    → All (IsLevel side) (insert_order is_bid o ls)
unfolding insert_order
levels-insert is_bid side o [] p v h = ((p, (λ e. cc), (v, tt)), tt)
levels-insert is_bid side o (l ∷ ls) p v h = elim (Bool-cases (l.price == o.price)) [
  | inl e ↦ rw e (
    (
      h.0.0,
      append-ne-nil l.orders o,
      All-append (IsOrder side l.price) l.orders (o ∷ []) h.0.2 (ground arith),
    ),
    h.1,
  )
  | inr e ↦ elim (Bool-cases (ahead is_bid l.price o.price)) [
    | inl a ↦ rw (e, a) (h.0, levels-insert is_bid side o ls p v h.1)
    | inr a ↦ rw (e, a) ((p, (λ n. cc), (v, tt)), h)
  ]
]

-- A side stays well formed when an order is put on it.
pub IsSide-insert :
    (is_bid : Bool) (side : ℕ) (o : Order) (ls : List LevelSnapshot)
    → IsPrice o.price
    → IsOrder side o.price o
    → IsSide is_bid side ls
    → IsSide is_bid side (insert_order is_bid o ls)
IsSide-insert is_bid side o ls p v h =
    (levels-insert is_bid side o ls p v h.0, IsSorted-insert is_bid o ls h.1)

All-unlink : (P : Order → Type 0) (id : ℕ) (os : List Order) → All P os → All P (unlink id os)
unfolding unlink
All-unlink P id [] h = tt
All-unlink P id (o ∷ os) h = ground (arith, All-unlink P id os h.1)

pub levels-cons_level :
    (side price : ℕ) (os : List Order) (ls : List LevelSnapshot)
    → IsPrice price
    → All (IsOrder side price) os
    → All (IsLevel side) ls
    → All (IsLevel side) (cons_level price os ls)
levels-cons_level side price [] ls p v h = h
levels-cons_level side price (o ∷ os) ls p v h = ((p, (λ e. cc), v), h)

levels-remove :
    (side price id : ℕ) (ls : List LevelSnapshot)
    → All (IsLevel side) ls
    → All (IsLevel side) (remove_order price id ls)
unfolding remove_order
levels-remove side price id [] h = tt
levels-remove side price id (l ∷ ls) h = elim (Bool-cases (l.price == price)) [
  | inl e ↦ rw e (
      levels-cons_level side l.price (unlink id l.orders) ls h.0.0
        (All-unlink (IsOrder side l.price) id l.orders h.0.2) h.1)
  | inr e ↦ rw e (h.0, levels-remove side price id ls h.1)
]

pub IsSide-remove :
    (is_bid : Bool) (side price id : ℕ) (ls : List LevelSnapshot)
    → IsSide is_bid side ls
    → IsSide is_bid side (remove_order price id ls)
IsSide-remove is_bid side price id ls h =
    (levels-remove side price id ls h.0, IsSorted-remove is_bid price id ls h.1)

orders-set_leaves :
    (side price id n : ℕ) (os : List Order)
    → 0 < n
    → n < 2 ^ 63
    → All (IsOrder side price) os
    → All (IsOrder side price) (set_leaves id n os)
unfolding set_leaves
orders-set_leaves side price id n [] p q h = tt
orders-set_leaves side price id n (o ∷ os) p q h = elim (Bool-cases (o.id == id)) [
  | inl e ↦ rw e ((h.0.0, h.0.1, p, q), h.1)
  | inr e ↦ rw e (h.0, orders-set_leaves side price id n os p q h.1)
]

set_leaves-ne-nil : (id n : ℕ) (os : List Order) → os ≢ [] → set_leaves id n os ≢ []
unfolding set_leaves
set_leaves-ne-nil id n [] h = h
set_leaves-ne-nil id n (o ∷ os) h = λ e. ground arith

levels-amend :
    (side price id n : ℕ) (ls : List LevelSnapshot)
    → 0 < n
    → n < 2 ^ 63
    → All (IsLevel side) ls
    → All (IsLevel side) (amend_order price id n ls)
unfolding amend_order
levels-amend side price id n [] p q h = tt
levels-amend side price id n (l ∷ ls) p q h = elim (Bool-cases (l.price == price)) [
  | inl e ↦ rw e (
    (
      h.0.0,
      set_leaves-ne-nil id n l.orders h.0.1,
      orders-set_leaves side l.price id n l.orders p q h.0.2,
    ),
    h.1,
  )
  | inr e ↦ rw e (h.0, levels-amend side price id n ls p q h.1)
]

pub IsSide-amend :
    (is_bid : Bool) (side price id n : ℕ) (ls : List LevelSnapshot)
    → 0 < n
    → n < 2 ^ 63
    → IsSide is_bid side ls
    → IsSide is_bid side (amend_order price id n ls)
IsSide-amend is_bid side price id n ls p q h =
    (levels-amend side price id n ls p q h.0, rw (prices_of-amend price id n ls) h.1)

count-set_leaves : (key id n : ℕ) (os : List Order) → count key (set_leaves id n os) ≡ count key os
unfolding set_leaves
count-set_leaves key id n [] = refl
count-set_leaves key id n (o ∷ os) = ground (arith, count-set_leaves key id n os)

pub count_side-amend :
    (key price id n : ℕ) (ls : List LevelSnapshot)
    → count_side key (amend_order price id n ls) ≡ count_side key ls
unfolding amend_order
count_side-amend key price id n [] = refl
count_side-amend key price id n (l ∷ ls) =
    ground (arith, count_side-amend key price id n ls, count-set_leaves key id n l.orders)
