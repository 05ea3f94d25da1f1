-- ===== src/Book/Restore/Cut.antt =====
-- A side cut at one of its levels: what NewFromSnapshot has restored of it, and what is to come.
use matching_engine_go.Prelude.{
  ℕ, ◌+◌, ◌≤◌, ◌≡◌, ◌≢◌, List, [], ◌∷◌, ◌++◌, Bool, true, ◌==◌, All, arith,
}
use matching_engine_go.Book.State.{Order, LevelSnapshot}
use matching_engine_go.Book.View.{
  ahead, count_side, one_if, prices_of, IsSide, IsLevel, IsOrder, IsSorted,
}
use matching_engine_go.Book.View.Index.{count-append}
use matching_engine_go.Book.Spec.{insert_order, level_with}

-- The levels before a price, that price with a queue, and whatever is behind.
abbrev pub cut : List LevelSnapshot → ℕ → List Order → List LevelSnapshot → List LevelSnapshot
cut done p q later = done ++ level_with p q ∷ later

pub at-cut :
    (P : ℕ → Type 0) (done : List LevelSnapshot) (p : ℕ) (q : List Order)
    (later : List LevelSnapshot)
    → All P (prices_of (cut done p q later))
    → P p
at-cut P [] p q later h = h.0
at-cut P (l ∷ done) p q later h = at-cut P done p q later h.1

before-cut :
    (P : ℕ → Type 0) (done : List LevelSnapshot) (p : ℕ) (q r : List Order)
    (later : List LevelSnapshot)
    → All P (prices_of (cut done p q later))
    → All P (prices_of (cut done p r []))
before-cut P [] p q r later h = (h.0, tt)
before-cut P (l ∷ done) p q r later h = (h.0, before-cut P done p q r later h.1)

pub IsSorted-cut :
    (is_bid : Bool) (done : List LevelSnapshot) (p : ℕ) (q r : List Order)
    (later : List LevelSnapshot)
    → IsSorted is_bid (prices_of (cut done p q later))
    → IsSorted is_bid (prices_of (cut done p r []))
IsSorted-cut is_bid [] p q r later s = (tt, tt)
IsSorted-cut is_bid (l ∷ done) p q r later s = (
  before-cut (λ k. ahead is_bid l.price k ≡ true) done p q r later s.0,
  IsSorted-cut is_bid done p q r later s.1,
)

pub insert-last :
    (is_bid : Bool) (o : Order) (done : List LevelSnapshot) (p : ℕ) (q : List Order)
    → IsSorted is_bid (prices_of (cut done p q []))
    → o.price ≡ p
    → insert_order is_bid o (cut done p q []) ≡ cut done p (q ++ o ∷ []) []
unfolding insert_order
insert-last is_bid o [] p q s e = ground arith
insert-last is_bid o (l ∷ done) p q s e = ground (
  arith,
  at-cut (λ k. ahead is_bid l.price k ≡ true) done p q [] s.0,
  insert-last is_bid o done p q s.1 e,
)

pub insert-first :
    (is_bid : Bool) (o : Order) (done : List LevelSnapshot) (p : ℕ)
    → IsSorted is_bid (prices_of (cut done p (o ∷ []) []))
    → o.price ≡ p
    → insert_order is_bid o done ≡ cut done p (o ∷ []) []
unfolding insert_order
insert-first is_bid o [] p s e = ground arith
insert-first is_bid o (l ∷ done) p s e = ground (
  arith,
  at-cut (λ k. ahead is_bid l.price k ≡ true) done p (o ∷ []) [] s.0,
  insert-first is_bid o done p s.1 e,
)

-- The part of a valid side that is restored so far is valid.
pub All-split : (P : Order → Type 0) (xs ys : List Order) → All P (xs ++ ys) → All P xs × All P ys
All-split P [] ys h = (tt, h)
All-split P (x ∷ xs) ys h = let (a, b) = All-split P xs ys h.1 in ((h.0, a), b)

pub orders-at-cut :
    (side : ℕ) (done : List LevelSnapshot) (p : ℕ) (q : List Order) (later : List LevelSnapshot)
    → All (IsLevel side) (cut done p q later)
    → IsLevel side (level_with p q)
orders-at-cut side [] p q later h = h.0
orders-at-cut side (l ∷ done) p q later h = orders-at-cut side done p q later h.1

levels-cut :
    (side : ℕ) (done : List LevelSnapshot) (p : ℕ) (q r : List Order) (later : List LevelSnapshot)
    → All (IsLevel side) (cut done p q later)
    → IsLevel side (level_with p r)
    → All (IsLevel side) (cut done p r [])
levels-cut side [] p q r later h v = (v, tt)
levels-cut side (l ∷ done) p q r later h v = (h.0, levels-cut side done p q r later h.1 v)

pub IsSide-cut :
    (is_bid : Bool) (side : ℕ) (done : List LevelSnapshot) (p : ℕ) (q os : List Order)
    (later : List LevelSnapshot)
    → IsSide is_bid side (cut done p (q ++ os) later)
    → q ≢ []
    → IsSide is_bid side (cut done p q [])
IsSide-cut is_bid side done p q os later v n =
    let l : IsLevel side (level_with p (q ++ os)) = orders-at-cut side done p (q ++ os) later v.0 in
    (
      levels-cut side done p (q ++ os) q later v.0
          (l.0, n, (All-split (IsOrder side p) q os l.2).0),
      IsSorted-cut is_bid done p (q ++ os) q later v.1,
    )

pub levels-done :
    (side : ℕ) (done later : List LevelSnapshot)
    → All (IsLevel side) (done ++ later)
    → All (IsLevel side) done
levels-done side [] later h = tt
levels-done side (l ∷ done) later h = (h.0, levels-done side done later h.1)

prices-done :
    (P : ℕ → Type 0) (done later : List LevelSnapshot)
    → All P (prices_of (done ++ later))
    → All P (prices_of done)
prices-done P [] later h = tt
prices-done P (l ∷ done) later h = (h.0, prices-done P done later h.1)

pub IsSorted-done :
    (is_bid : Bool) (done later : List LevelSnapshot)
    → IsSorted is_bid (prices_of (done ++ later))
    → IsSorted is_bid (prices_of done)
IsSorted-done is_bid [] later s = tt
IsSorted-done is_bid (l ∷ done) later s = (
  prices-done (λ k. ahead is_bid l.price k ≡ true) done later s.0,
  IsSorted-done is_bid done later s.1,
)

-- An order that is still to be restored stands nowhere.
pub count_side-cut :
    (id : ℕ) (done : List LevelSnapshot) (p : ℕ) (q : List Order) (o : Order) (os : List Order)
    (later : List LevelSnapshot)
    → one_if (o.id == id) + count_side id (cut done p q [])
      ≤ count_side id (cut done p (q ++ o ∷ os) later)
count_side-cut id [] p q o os later = omega (arith, count-append id q (o ∷ os))
count_side-cut id (l ∷ done) p q o os later = omega (arith, count_side-cut id done p q o os later)

pub count_side-done :
    (id : ℕ) (done later : List LevelSnapshot) → count_side id done ≤ count_side id (done ++ later)
count_side-done id [] later = omega arith
count_side-done id (l ∷ done) later = omega (arith, count_side-done id done later)

pub append-ne-nil : (xs : List Order) (o : Order) → xs ++ o ∷ [] ≢ []
append-ne-nil [] o e = cc
append-ne-nil (x ∷ xs) o e = cc
