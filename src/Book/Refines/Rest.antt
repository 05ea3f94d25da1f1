-- ===== src/Book/Refines/Rest.antt =====
-- What is left of an order after its match can be put on its own side.
use matching_engine_go.Prelude.{
  ℕ, ◌^◌, ◌≤◌, ◌<◌, ◌≡◌, inl, inr, refl, some, ◌==◌, arith, Bool-cases,
}
use matching_engine_go.Model.{side_sell}
use matching_engine_go.Book.State.{Order, Snapshot}
use matching_engine_go.Book.Matching.{rest}
use matching_engine_go.Book.View.{count_side, represent, IsPrice, IsValid, levels_at}
use matching_engine_go.Book.Refines.{rest-represent}
use matching_engine_go.Book.Refines.Match.{opposite-IsSide}
use matching_engine_go.Book.Spec.Apply
use matching_engine_go.Book.Spec.Apply.{opposite, matched, after_match, remaining}
use matching_engine_go.Book.Validity.Kept.{count_side-sweep}
use matching_engine_go.Book.Validity.Filled.{left-sweep}
use matching_engine_go.Book.Validity.Books.{
  IsBookSide, levels_at-IsSide, after_match-IsValid, rest-IsValid,
}
use matching_engine_go.Book.Validity.Clear.{after_match-IsClear}

-- An order that can come in: its side, its price and its quantity, and that its id is not active.
pub record IsIncoming (s : Snapshot) (o : Order) : Type 0 where
  pub side_valid : IsBookSide o.side
  pub quantity_fits : o.leaves_qty < 2 ^ 63
  pub not_bid : count_side o.id s.bids ≡ 0
  pub not_ask : count_side o.id s.asks ≡ 0

pub left-le : (s : Snapshot) (o : Order) → IsValid s → (matched s o).left ≤ o.leaves_qty
unfolding matched
left-le s o v = omega (
  arith,
  left-sweep _ (opposite o.side) (levels_at s (opposite o.side)) o.leaves_qty
      (opposite-IsSide s o.side v).0,
)

-- A match brings in no id.
absent-after_match :
    (s : Snapshot) (o : Order) (id : ℕ)
    → IsValid s
    → count_side id s.bids ≡ 0
    → count_side id s.asks ≡ 0
    → (count_side id (after_match s o).bids ≡ 0) × (count_side id (after_match s o).asks ≡ 0)
unfolding after_match matched
absent-after_match s o id v b a =
    let side : ℕ = opposite o.side in
    let c : count_side id (matched s o).levels ≤ count_side id (levels_at s side) =
      count_side-sweep _ side (levels_at s side) o.leaves_qty (opposite-IsSide s o.side v).0 id in
    elim (Bool-cases (side == side_sell)) [
      | inl e ↦ rw e (b, omega (arith, rw e at c))
      | inr e ↦ rw e (omega (arith, rw e at c), a)
    ]

module _ (s : Snapshot) (o : Order) (v : IsValid s) (new : IsIncoming s o) (p : IsPrice o.price)
    (more : 0 < (matched s o).left) where
  -- Book.rest on the book after the match.
  pub rest-after_match :
      rest (represent (after_match s o)) (remaining s o)
      ≡ some (represent (Apply.rest (after_match s o) (remaining s o)))
  unfolding Apply.rest
  rest-after_match =
      let (b, a) = absent-after_match s o o.id v new.not_bid new.not_ask in
      rest-represent (after_match s o) (remaining s o)
        (levels_at-IsSide (after_match s o) o.side new.side_valid (after_match-IsValid s o v)) p.1 b
        a

  pub rest-after_match-IsValid : IsValid (Apply.rest (after_match s o) (remaining s o))
  unfolding Apply.rest
  rest-after_match-IsValid =
      let (b, a) = absent-after_match s o o.id v new.not_bid new.not_ask in
      rest-IsValid (after_match s o) (remaining s o) new.side_valid (after_match-IsValid s o v) p
        (refl, refl, more, omega (arith, left-le s o v, new.quantity_fits)) b a
        (after_match-IsClear s o v new.side_valid p more)
