-- ===== src/Book/Refines/Replace.antt =====
-- handleReplace on the book of a snapshot.
use mathlib.Core.Path.{subst}
use mathlib.Core.List.{append-nil}
use matching_engine_go.Prelude.{
  ℕ, ◌+◌, ◌^◌, ◌≤◌, ◌<◌, ◌≡◌, inl, inr, refl, ◌&&◌, some, ◌==◌, ltb, leb, arith, Bool-cases,
  Option-cases, ap, sym, ◌∙◌, lt64, lt64-eq-ltb, le64-eq-leb, lt64_zero, ltb→lt,
}
use matching_engine_go.Model.{Command}
use matching_engine_go.Book.State.{Order, find_order, Snapshot}
use matching_engine_go.Book.Handlers.{requeue, replace_order, handle_replace}
use matching_engine_go.Book.View.{count_side, one_if, represent, IsPrice, IsValid, levels_at}
use matching_engine_go.Book.View.Index.{count_side-remove}
use matching_engine_go.Book.Validity.Books.{
  levels_at-IsSide, take_out-IsValid, after_match-IsValid, amend-IsValid,
}
use matching_engine_go.Book.Refines.Match.{match-represent}
use matching_engine_go.Book.Refines.Rest.{
  IsIncoming, rest-after_match, rest-after_match-IsValid, left-le,
}
use matching_engine_go.Book.Refines.Lookup.{
  IsFound, handle?, orders-represent, active-IsFound, active-side, take_out-represent,
  deref-represent,
}
use matching_engine_go.Book.Refines.Amend.{reduce_in_place-represent}
use matching_engine_go.Book.Spec.{remove_order}
use matching_engine_go.Book.Spec.Apply
use matching_engine_go.Book.Spec.Apply.{
  active, take_out, matched, after_match, remaining, replacement,
}

-- What the static checks say of a replacement.
pub record IsReplace (cmd : Command) : Type 0 where
  pub leaves_positive : 0 < cmd.new_leaves_qty
  pub leaves_fit : cmd.new_leaves_qty < 2 ^ 63
  pub price_fits : cmd.new_price < 2 ^ 63

module _ (s : Snapshot) (cmd : Command) (o : Order) (v : IsValid s) (c : IsReplace cmd)
    (e : active s cmd.order_id ≡ some o) where
  found : IsFound (levels_at s o.side) o.side cmd.order_id o
  found = active-IsFound s cmd.order_id o v e

  -- An order that is taken out stands nowhere.
  take_out-absent :
      (count_side cmd.order_id (take_out s o).bids ≡ 0)
      × (count_side cmd.order_id (take_out s o).asks ≡ 0)
  unfolding take_out
  take_out-absent =
      let once : count_side cmd.order_id s.bids + count_side cmd.order_id s.asks ≤ 1 =
        v.distinct cmd.order_id in
      let r : count_side cmd.order_id (levels_at s o.side)
          ≡ one_if (o.id == cmd.order_id)
            + count_side cmd.order_id (remove_order o.price o.id (levels_at s o.side)) =
        count_side-remove o.price o.id (levels_at s o.side) found.level o cmd.order_id
          found.level_at
          (subst (λ (k : ℕ). find_order k found.level.queue ≡ some o) (sym found.same_id)
            found.in_queue) in
      ground (arith, found.same_id)

  pub replacement-IsPrice : IsPrice (replacement cmd o).price
  unfolding lt64
  replacement-IsPrice = ground (arith, lt64_zero cmd.new_price, c.price_fits, found.price_valid)

  replacement-IsIncoming : IsIncoming (take_out s o) (replacement cmd o)
  replacement-IsIncoming = record {
    side_valid = active-side s cmd.order_id o v e;
    quantity_fits = c.leaves_fit;
    not_bid = take_out-absent.0;
    not_ask = take_out-absent.1;
  }

  taken-IsValid : IsValid (take_out s o)
  taken-IsValid = take_out-IsValid s o (active-side s cmd.order_id o v e) v

  left : ℕ
  left = (matched (take_out s o) (replacement cmd o)).left

  left_positive : lt64 0 left ≡ ltb 0 left
  unfolding left
  left_positive =
      lt64-eq-ltb 0 left (omega arith)
        (omega (arith, left-le (take_out s o) (replacement cmd o) taken-IsValid, c.leaves_fit))

  requeue-represent :
      let r = replacement cmd o in
      requeue (represent s) cmd o r.price r.leaves_qty
      ≡ some (represent (Apply.requeue s o r).0, (Apply.requeue s o r).1)
  unfolding requeue Apply.requeue left
  requeue-represent = rw (take_out-represent s cmd.order_id o v e) (
      rw (match-represent cmd.seq (take_out s o) (replacement cmd o) taken-IsValid c.leaves_fit)
        (elim (Bool-cases (ltb 0 left)) [
          | inl m ↦ rw (left_positive ∙ m) (
              rw
                (rest-after_match (take_out s o) (replacement cmd o) taken-IsValid
                  replacement-IsIncoming replacement-IsPrice (ltb→lt 0 left m))
                (rw (m, Apply.requeue) refl))
          | inr m ↦ rw (left_positive ∙ m) (rw (m, Apply.requeue) (rw append-nil refl))
        ]))

  -- handleReplace at an active order does what the specification says.
  replace_order-represent :
      replace_order (represent s) cmd o
      ≡ some (represent (Apply.apply_replace s cmd).0, (Apply.apply_replace s cmd).1)
  unfolding replace_order Apply.apply_replace
  replace_order-represent =
      rw
        (
          lt64_zero (replacement cmd o).price replacement-IsPrice.0 replacement-IsPrice.1,
          replace_order,
        )
        (rw (lt64_zero cmd.new_leaves_qty c.leaves_positive c.leaves_fit) (
          rw (le64-eq-leb cmd.new_leaves_qty o.leaves_qty c.leaves_fit found.fits)
            (elim (Bool-cases
              ((replacement cmd o).price == o.price && leb cmd.new_leaves_qty o.leaves_qty)) [
                | inl k ↦ rw k (
                    rw
                      (reduce_in_place-represent s cmd.order_id o cmd.new_leaves_qty
                        (levels_at-IsSide s o.side (active-side s cmd.order_id o v e) v) found
                        (ground arith))
                      (rw (e, Apply.apply_replace) (rw k refl)))
                | inr k ↦ rw k (rw requeue-represent (rw (e, Apply.apply_replace) (rw k refl)))
              ])))

  requeue-IsValid : IsValid (Apply.requeue s o (replacement cmd o)).0
  unfolding Apply.requeue
  requeue-IsValid = elim (Bool-cases (ltb 0 (matched (take_out s o) (replacement cmd o)).left)) [
    | inl m ↦ rw m (
        rest-after_match-IsValid (take_out s o) (replacement cmd o) taken-IsValid
          replacement-IsIncoming replacement-IsPrice (ltb→lt 0 _ m))
    | inr m ↦ rw m (after_match-IsValid (take_out s o) (replacement cmd o) taken-IsValid)
  ]

  replace_order-IsValid : IsValid (Apply.apply_replace s cmd).0
  unfolding Apply.apply_replace Apply.amend
  replace_order-IsValid =
      rw (e, Apply.apply_replace)
        (elim (Bool-cases
          ((replacement cmd o).price == o.price && leb cmd.new_leaves_qty o.leaves_qty)) [
            | inl k ↦ rw k (
                amend-IsValid s o.side o.price o.id cmd.new_leaves_qty
                  (active-side s cmd.order_id o v e) v c.leaves_positive c.leaves_fit)
            | inr k ↦ rw k requeue-IsValid
          ])

pub handle_replace-represent :
    (s : Snapshot) (cmd : Command)
    → IsValid s
    → IsReplace cmd
    → handle_replace (represent s) cmd
      ≡ some (represent (Apply.apply_replace s cmd).0, (Apply.apply_replace s cmd).1)
unfolding handle_replace Apply.apply_replace
handle_replace-represent s cmd v c = elim (Option-cases (active s cmd.order_id)) [
  | inl e ↦
      rw (orders-represent s cmd.order_id ∙ ap handle? e, handle_replace)
        (rw (e, Apply.apply_replace))
  | inr (o, e) ↦
      rw (orders-represent s cmd.order_id ∙ ap handle? e, handle_replace)
        (rw (deref-represent s cmd.order_id o (active-IsFound s cmd.order_id o v e))
          (replace_order-represent s cmd o v c e))
]

pub apply_replace-IsValid :
    (s : Snapshot) (cmd : Command)
    → IsValid s
    → IsReplace cmd
    → IsValid (Apply.apply_replace s cmd).0
unfolding Apply.apply_replace
apply_replace-IsValid s cmd v c = elim (Option-cases (active s cmd.order_id)) [
  | inl e ↦ rw (e, Apply.apply_replace) v
  | inr (o, e) ↦ replace_order-IsValid s cmd o v c e
]
