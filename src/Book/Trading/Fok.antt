-- ===== src/Book/Trading/Fok.antt =====
-- A fill-or-kill order is filled whole or leaves the book as it is.
use matching_engine_go.Prelude.{
  ℕ, ◌+◌, ◌^◌, ◌≤◌, ◌<◌, ◌≡◌, ◌⊎◌, inl, inr, refl, List, [], ◌∷◌, Bool, true, false, some, ◌==◌,
  All, arith, Bool-cases, Option-cases, ap, fun_ext, lt64, add64, sub64,
}
use mathlib.Core.List.{append-nil}
use matching_engine_go.Model.{Command, Event, order_type_market, tif_fok}
use matching_engine_go.Book.State.{Book, Snapshot, LevelSnapshot}
use matching_engine_go.Book.Matching.{price_allowed}
use matching_engine_go.Book.Handlers.{can_take, handle_new}
use matching_engine_go.Book.View.{quantity, represent, IsPrice, IsValid, levels_at}
use matching_engine_go.Book.Refines.Match.{opposite-IsSide}
use matching_engine_go.Book.Refines.New.{IsNew, handle_new-represent}
use matching_engine_go.Book.Spec.Apply
use matching_engine_go.Book.Spec.Apply.{
  opposite, matched, after_match, remaining, match_events, available, is_fillable, incoming, active,
}
use matching_engine_go.Book.Validity.Filled.{traded, offered, left-sweep, left-sweep-offered}
use matching_engine_go.Book.Trading.{volume, volume-fill_events}

-- What availableQtyFor finds is there.
available-offered :
    (take_at : ℕ → Bool) (required : ℕ) (ls : List LevelSnapshot) (total : ℕ)
    → required < 2 ^ 63
    → total < required
    → All (λ l. quantity l.orders < 2 ^ 63) ls
    → lt64 (available take_at required ls total) required ≡ false
    → required ≤ total + offered take_at ls
unfolding available lt64 add64 sub64
available-offered take_at required [] total h k v e = ground arith
available-offered take_at required (l ∷ ls) total h k v e =
    ground (arith, available-offered take_at required ls (total + quantity l.orders), v)

-- For a limit order with a price, availableQtyFor counts the prices at which match trades.
can_take-price_allowed :
    (c : Command)
    → (c.order_type == order_type_market) ≡ false
    → IsPrice c.price
    → can_take c.side c.price c.order_type ≡ price_allowed (incoming c)
unfolding can_take price_allowed
can_take-price_allowed c m p = fun_ext λ q. ground arith

-- An order that is found fillable is filled.
matched-fillable :
    (s : Snapshot) (c : Command)
    → IsValid s
    → IsNew c
    → (c.order_type == order_type_market) ≡ false
    → All (λ l. quantity l.orders < 2 ^ 63) (levels_at s (opposite c.side))
    → is_fillable s c ≡ true
    → (matched s (incoming c)).left ≡ 0
unfolding matched
matched-fillable s c v n m small f =
    let ls = levels_at s (opposite c.side) in
    let enough : c.quantity ≤ 0 + offered (can_take c.side c.price c.order_type) ls =
      available-offered (can_take c.side c.price c.order_type) c.quantity ls 0 n.quantity_fits
        n.quantity_positive small (ground arith) in
    let same : offered (can_take c.side c.price c.order_type) ls
        ≡ offered (price_allowed (incoming c)) ls =
      ap (λ (g : ℕ → Bool). offered g ls) (can_take-price_allowed c m (n.price_valid m)) in
    omega (
      arith,
      enough,
      same,
      left-sweep-offered (price_allowed (incoming c)) (opposite c.side) ls c.quantity
          (opposite-IsSide s c.side v).0,
    )

-- The events of an order that is filled whole.
accept_new-filled :
    (s : Snapshot) (c : Command)
    → IsValid s
    → (matched s (incoming c)).left ≡ 0
    → volume (Apply.accept_new s c).1 ≡ c.quantity
unfolding Apply.accept_new Apply.finish_new matched
accept_new-filled s c v z =
    let ls = levels_at s (opposite c.side) in
    let e : volume (match_events c.seq s (incoming c)) ≡ traded (matched s (incoming c)).fills =
      volume-fill_events c.seq s.next_trade_seq c.order_id _ in
    let k =
      left-sweep (price_allowed (incoming c)) (opposite c.side) ls c.quantity
        (opposite-IsSide s c.side v).0 in
    rw z (rw append-nil (omega (arith, e, k, z)))

-- A fill-or-kill limit order that passed the static checks trades its whole quantity, or trades nothing
-- and leaves the book as it is, for a valid snapshot in which every level of the other side has a
-- quantity below 2 ^ 63.
pub handle_new_fill_or_kill :
    (s : Snapshot) (c : Command)
    → IsValid s
    → IsNew c
    → (c.time_in_force == tif_fok) ≡ true
    → (c.order_type == order_type_market) ≡ false
    → All (λ l. quantity l.orders < 2 ^ 63) (levels_at s (opposite c.side))
    → (b : Book) × (events : List Event) × (handle_new (represent s) c ≡ some (b, events))
      × (((b ≡ represent s) × (volume events ≡ 0)) ⊎ (volume events ≡ c.quantity))
unfolding Apply.apply_new
handle_new_fill_or_kill s c v n t m small = (
  represent (Apply.apply_new s c).0,
  (Apply.apply_new s c).1,
  handle_new-represent s c v n,
  elim (Option-cases (active s c.order_id)) [
    | inr (o, e) ↦ inl (rw (e, Apply.apply_new) refl, rw (e, Apply.apply_new) refl)
    | inl e ↦ elim (Bool-cases (is_fillable s c)) [
      | inl f ↦ inr (
          rw (e, Apply.apply_new)
            (rw (t, f) (accept_new-filled s c v (matched-fillable s c v n m small f))))
      | inr f ↦
          inl (rw (e, Apply.apply_new) (rw (t, f) refl), rw (e, Apply.apply_new) (rw (t, f) refl))
    ]
  ],
)
