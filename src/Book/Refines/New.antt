-- ===== src/Book/Refines/New.antt =====
-- handleNew and handleCancel on the book of a snapshot.
use matching_engine_go.Prelude.{
  ℕ, ◌%◌, ◌^◌, ◌<◌, ◌≡◌, refl, List, [], ◌∷◌, ◌++◌, Bool, true, false, not, ◌&&◌, none, some, ◌==◌,
  if◌then◌else◌, All, arith, ==_refl, Bool-cases, Option-cases, ap, ◌∙◌, inl, inr, lt64, sub64,
  add64,
}
use mathlib.Core.List.{append-nil}
use matching_engine_go.Book.Validity.Books.{IsBookSide, after_match-IsValid, take_out-IsValid}
use matching_engine_go.Model.{Command, Event, order_type_market, tif_ioc, tif_fok}
use matching_engine_go.Book.State.{Order, Snapshot, LevelSnapshot}
use matching_engine_go.Book.Matching.{rest}
use matching_engine_go.Book.Handlers.{
  available_loop, available_qty_for, can_take, finish_new, accept_new, handle_new, handle_cancel,
}
use matching_engine_go.Book.View.{
  ahead, levels_of, prices_of, represent, IsSorted, IsValid, IsPrice, levels_at, is_bid_side,
  quantity,
}
use matching_engine_go.Book.Refines.{side_of-represent}
use matching_engine_go.Book.Refines.Lookup.{
  IsFound, active-IsFound, active-side, active-absent, take_out-represent, deref-represent,
  orders-represent, handle?,
}
use matching_engine_go.Book.Refines.Match.{match-represent, opposite-IsSide}
use matching_engine_go.Book.Refines.Rest.{IsIncoming, rest-after_match, rest-after_match-IsValid}
use matching_engine_go.Book.Spec.Apply
use matching_engine_go.Book.Spec.Apply.{
  available, opposite, active, take_out, is_fillable, incoming, after_match, remaining, matched,
}

if-some : (b : Bool) (x y : ℕ) → (if b then some x else some y) ≡ some (if b then x else y)
if-some true x y = refl
if-some false x y = refl

-- The loop of availableQtyFor, over a tail of the levels.
available_loop-cons :
    (is_bid : Bool) (l : LevelSnapshot) (ls : List LevelSnapshot) (take_at : ℕ → Bool)
    (required : ℕ) (ps : List ℕ) (total : ℕ)
    → All (λ q. ahead is_bid l.price q ≡ true) ps
    → available_loop (levels_of (l ∷ ls)) take_at required ps total
      ≡ available_loop (levels_of ls) take_at required ps total
unfolding available_loop
available_loop-cons is_bid l ls take_at required [] total h = refl
available_loop-cons is_bid l ls take_at required (p ∷ ps) total h =
    let e : levels_of (l ∷ ls) p ≡ levels_of ls p = ground arith in
    elim (Bool-cases (take_at p)) [
      | inr f ↦ rw (f, available_loop)
      | inl t ↦
          rw (t, available_loop)
            (elim (Option-cases (levels_of ls p)) [
              | inl n ↦ rw (e, n)
              | inr (level, m) ↦ rw (
                e,
                m,
                available_loop-cons is_bid l ls take_at required ps (add64 total level.total_qty)
                    h.1,
              )
            ])
    ]

available_loop-represent :
    (is_bid : Bool) (ls : List LevelSnapshot) (take_at : ℕ → Bool) (required total : ℕ)
    → IsSorted is_bid (prices_of ls)
    → available_loop (levels_of ls) take_at required (prices_of ls) total
      ≡ some (available take_at required ls total)
unfolding available_loop available
available_loop-represent is_bid [] take_at required total s = refl
available_loop-represent is_bid (l ∷ ls) take_at required total s =
    elim (Bool-cases (take_at l.price)) [
      | inr f ↦ rw (f, available_loop)
      | inl t ↦
          rw (t, available_loop)
            (rw
              (
                ==_refl l.price,
                available_loop-cons is_bid l ls take_at required (prices_of ls)
                    (add64 total (quantity l.orders % 2 ^ 64)) s.0,
                available_loop-represent is_bid ls take_at required
                    (add64 total (quantity l.orders % 2 ^ 64)) s.1,
              )
              (if-some (lt64 (quantity l.orders % 2 ^ 64) (sub64 required total)) _ _))
    ]

available_qty_for-represent :
    (s : Snapshot) (side price order_type required : ℕ)
    → IsValid s
    → available_qty_for (represent s) side price order_type required
      ≡ some (available (can_take side price order_type) required (levels_at s (opposite side)) 0)
unfolding available_qty_for
available_qty_for-represent s side price order_type required v =
    rw (side_of-represent s (opposite side)) (
      available_loop-represent (is_bid_side (opposite side)) (levels_at s (opposite side)) _
        required 0 (opposite-IsSide s side v).1)

-- The end of handleNew, once it is known what resting would do.
finish_new-represent :
    (cmd : Command) (t : Snapshot) (o : Order) (events : List Event)
    → ((o.leaves_qty == 0) ≡ false
        → (cmd.order_type == order_type_market) ≡ false
        → rest (represent t) o ≡ some (represent (Apply.rest t o)))
    → finish_new cmd (represent t) o events
      ≡ some (represent (Apply.finish_new t cmd o).0, events ++ (Apply.finish_new t cmd o).1)
unfolding finish_new Apply.finish_new
finish_new-represent cmd t o events h = elim (Bool-cases (o.leaves_qty == 0)) [
  | inl z ↦ rw z (rw append-nil)
  | inr z ↦ elim (Bool-cases (cmd.order_type == order_type_market)) [
    | inl m ↦ rw (z, m)
    | inr m ↦ elim (Bool-cases (cmd.time_in_force == tif_ioc)) [
      | inl i ↦ rw (z, m, i)
      | inr i ↦ rw (z, m, i) (rw (h z m))
    ]
  ]
]

-- What the static checks say of a new order.
pub record IsNew (cmd : Command) : Type 0 where
  pub side_valid : IsBookSide cmd.side
  pub quantity_positive : 0 < cmd.quantity
  pub quantity_fits : cmd.quantity < 2 ^ 63
  pub price_valid : (cmd.order_type == order_type_market) ≡ false → IsPrice cmd.price

incoming-IsIncoming :
    (s : Snapshot) (cmd : Command)
    → IsNew cmd
    → active s cmd.order_id ≡ none
    → IsIncoming s (incoming cmd)
incoming-IsIncoming s cmd n e =
    let (b, a) = active-absent s cmd.order_id e in
    record { side_valid = n.side_valid; quantity_fits = n.quantity_fits; not_bid = b; not_ask = a }

accept_new-represent :
    (s : Snapshot) (cmd : Command)
    → IsValid s
    → IsNew cmd
    → active s cmd.order_id ≡ none
    → accept_new (represent s) cmd
      ≡ some (represent (Apply.accept_new s cmd).0, (Apply.accept_new s cmd).1)
unfolding accept_new Apply.accept_new
accept_new-represent s cmd v n e = rw (match-represent cmd.seq s (incoming cmd) v n.quantity_fits) (
    finish_new-represent cmd (after_match s (incoming cmd)) (remaining s (incoming cmd)) _ λ z m.
      rest-after_match s (incoming cmd) v (incoming-IsIncoming s cmd n e) (n.price_valid m)
        (ground arith))

-- handleNew does what the specification says.
pub handle_new-represent :
    (s : Snapshot) (cmd : Command)
    → IsValid s
    → IsNew cmd
    → handle_new (represent s) cmd
      ≡ some (represent (Apply.apply_new s cmd).0, (Apply.apply_new s cmd).1)
unfolding handle_new Apply.apply_new
handle_new-represent s cmd v n = elim (Option-cases (active s cmd.order_id)) [
  | inr (o, e) ↦
      rw (orders-represent s cmd.order_id ∙ ap handle? e, handle_new) (rw (e, Apply.apply_new))
  | inl e ↦
      rw (orders-represent s cmd.order_id ∙ ap handle? e, handle_new)
        (rw
          (
            available_qty_for-represent s cmd.side cmd.price cmd.order_type cmd.quantity v,
            accept_new-represent s cmd v n e,
          )
          (rw (e, Apply.apply_new)
            (elim (Bool-cases (cmd.time_in_force == tif_fok)) [
              | inr f ↦ rw f
              | inl f ↦ rw f (elim (Bool-cases (is_fillable s cmd)) [
                | inl g ↦ ground arith
                | inr g ↦ ground arith
              ])
            ])))
]

-- handleCancel does what the specification says.
pub handle_cancel-represent :
    (s : Snapshot) (cmd : Command)
    → IsValid s
    → handle_cancel (represent s) cmd
      ≡ some (represent (Apply.apply_cancel s cmd).0, (Apply.apply_cancel s cmd).1)
unfolding handle_cancel Apply.apply_cancel
handle_cancel-represent s cmd v = elim (Option-cases (active s cmd.order_id)) [
  | inl e ↦
      rw (orders-represent s cmd.order_id ∙ ap handle? e, handle_cancel)
        (rw (e, Apply.apply_cancel))
  | inr (o, e) ↦
      let f : IsFound (levels_at s o.side) o.side cmd.order_id o =
        active-IsFound s cmd.order_id o v e in
      rw (orders-represent s cmd.order_id ∙ ap handle? e, handle_cancel)
        (rw (deref-represent s cmd.order_id o f)
          (rw (take_out-represent s cmd.order_id o v e) (rw (e, Apply.apply_cancel))))
]

finish_new-IsValid :
    (t : Snapshot) (cmd : Command) (o : Order)
    → IsValid t
    → ((o.leaves_qty == 0) ≡ false
        → (cmd.order_type == order_type_market) ≡ false
        → IsValid (Apply.rest t o))
    → IsValid (Apply.finish_new t cmd o).0
unfolding Apply.finish_new
finish_new-IsValid t cmd o v h = elim (Bool-cases (o.leaves_qty == 0)) [
  | inl z ↦ rw z v
  | inr z ↦ elim (Bool-cases (cmd.order_type == order_type_market)) [
    | inl m ↦ rw (z, m) v
    | inr m ↦ elim (Bool-cases (cmd.time_in_force == tif_ioc)) [
      | inl i ↦ rw (z, m, i) v
      | inr i ↦ rw (z, m, i) (h z m)
    ]
  ]
]

accept_new-IsValid :
    (s : Snapshot) (cmd : Command)
    → IsValid s
    → IsNew cmd
    → active s cmd.order_id ≡ none
    → IsValid (Apply.accept_new s cmd).0
unfolding Apply.accept_new
accept_new-IsValid s cmd v n e =
    finish_new-IsValid (after_match s (incoming cmd)) cmd (remaining s (incoming cmd))
      (after_match-IsValid s (incoming cmd) v)
      λ z m.
        rest-after_match-IsValid s (incoming cmd) v (incoming-IsIncoming s cmd n e)
          (n.price_valid m) (ground arith)

pub apply_new-IsValid :
    (s : Snapshot) (cmd : Command) → IsValid s → IsNew cmd → IsValid (Apply.apply_new s cmd).0
unfolding Apply.apply_new
apply_new-IsValid s cmd v n = elim (Option-cases (active s cmd.order_id)) [
  | inr (o, e) ↦ rw (e, Apply.apply_new) v
  | inl e ↦ elim (Bool-cases (cmd.time_in_force == tif_fok && not (is_fillable s cmd))) [
    | inl g ↦ rw (e, Apply.apply_new) (rw g v)
    | inr g ↦ rw (e, Apply.apply_new) (rw g (accept_new-IsValid s cmd v n e))
  ]
]

pub apply_cancel-IsValid :
    (s : Snapshot) (cmd : Command) → IsValid s → IsValid (Apply.apply_cancel s cmd).0
unfolding Apply.apply_cancel
apply_cancel-IsValid s cmd v = elim (Option-cases (active s cmd.order_id)) [
  | inl e ↦ rw (e, Apply.apply_cancel) v
  | inr (o, e) ↦
      rw (e, Apply.apply_cancel) (take_out-IsValid s o (active-side s cmd.order_id o v e) v)
]
