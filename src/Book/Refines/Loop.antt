-- ===== src/Book/Refines/Loop.antt =====
-- The loop of matchAgainst does on the book of a snapshot what a sweep does on the snapshot, and ends.
use matching_engine_go.Prelude.{
  ℕ, zero, suc, ◌+◌, ◌-◌, ◌^◌, ◌≤◌, ◌<◌, ◌≡◌, ◌≢◌, inl, inr, refl, List, [], ◌∷◌, ◌++◌, Bool, true,
  false, Option, some, ◌==◌, ltb, length, arith, Bool-cases, ap, sym, ◌∙◌, ◌>>=◌, lt64, lt64_zero,
  lt→ltb, ltb→lt, ltb_irrefl,
}
use mathlib.Core.Path.{subst}
use matching_engine_go.Model.{Event}
use matching_engine_go.Book.State.{Order, Book, Snapshot, LevelSnapshot, side_of}
use matching_engine_go.Book.Sides.{best}
use matching_engine_go.Book.Matching.{match_round, match_against}
use matching_engine_go.Book.View.{
  count_side, represent, represent_side, represent_level, IsSide, IsOrder,
}
use matching_engine_go.Book.View.Levels.{prices_fit}
use matching_engine_go.Book.View.{with_levels, is_bid_side, IsDistinct}
use matching_engine_go.Book.Refines.{side_of-represent, levels_at-with_levels}
use matching_engine_go.Book.Refines.Round.{numbered, round_whole, round_part}
use matching_engine_go.Book.Spec.{
  Sweep, sweep, sweep_queue, stop, filled, fill_events, advance, level_with, cons_level,
}

-- How many orders rest on a side.
abbrev pub total_orders : List LevelSnapshot → ℕ
total_orders [] = 0
total_orders (l ∷ ls) = length l.orders + total_orders ls

module _ (side seq : ℕ) (allowed : ℕ → Bool) where
  -- The snapshot after a sweep, the incoming order and the events.
  abbrev pub outcome : Snapshot → Order → Sweep → Option (Book × Order × List Event)
  outcome s inc w = some (
    represent (
        with_levels (record s { next_trade_seq = advance s.next_trade_seq w.fills }) side w.levels),
    record inc { leaves_qty = w.left },
    fill_events seq s.next_trade_seq inc.id w.fills,
  )

  abbrev run : ℕ → Snapshot → List LevelSnapshot → Order → Option (Book × Order × List Event)
  run fuel s ls inc = match_against fuel side allowed seq (represent (with_levels s side ls)) inc

  -- What the loop does on the levels `ls`, from every state.
  abbrev Sweeps : List LevelSnapshot → (ℕ → Sweep) → Type 0
  Sweeps ls w =
      (fuel : ℕ) (s : Snapshot) (inc : Order)
      → IsSide (is_bid_side side) side ls
      → IsDistinct (with_levels s side ls)
      → inc.leaves_qty < 2 ^ 63
      → total_orders ls < fuel
      → run fuel s ls inc ≡ outcome s inc (w inc.leaves_qty)

  outcome-eq :
      (s : Snapshot) (inc : Order) (w w' : Sweep) → w' ≡ w → outcome s inc w ≡ outcome s inc w'
  outcome-eq s inc w w' e = ap (outcome s inc) (sym e)

  best-with_levels :
      (s : Snapshot) (ls : List LevelSnapshot)
      → best (side_of (represent (with_levels s side ls)) side)
        ≡ best (represent_side (is_bid_side side) ls)
  best-with_levels s ls =
      ap best
        (side_of-represent (with_levels s side ls) side ∙ rw (levels_at-with_levels s side ls))

  best-cons :
      (l : LevelSnapshot) (ls : List LevelSnapshot)
      → best (represent_side (is_bid_side side) (l ∷ ls)) ≡ some (represent_level l)
  unfolding best
  best-cons l ls = ground arith

  run_zero :
      (fuel : ℕ) (s : Snapshot) (ls : List LevelSnapshot) (inc : Order)
      → inc.leaves_qty ≡ 0
      → 0 < fuel
      → run fuel s ls inc ≡ outcome s inc (stop 0 ls)
  unfolding match_against lt64
  run_zero zero s ls inc h f = absurd (omega arith)
  run_zero (suc fuel) s ls inc h f = ground arith

  -- The loop does a round where the quantity, the best level and the price allow one.
  run_round :
      (fuel : ℕ) (s : Snapshot) (l : LevelSnapshot) (ls : List LevelSnapshot) (inc : Order)
      → 0 < inc.leaves_qty
      → inc.leaves_qty < 2 ^ 63
      → allowed l.price ≡ true
      → run (suc fuel) s (l ∷ ls) inc ≡ (do
        (b', inc', events) ←
            match_round side seq (represent (with_levels s side (l ∷ ls))) inc (represent_level l)
        (b'', inc'', more) ← match_against fuel side allowed seq b' inc'
        some (b'', inc'', events ++ more))
  unfolding match_against
  run_round fuel s l ls inc h k a =
      rw (lt64_zero inc.leaves_qty h k, match_against)
        (rw (best-with_levels s (l ∷ ls) ∙ best-cons l ls) (rw a))

  IsSide-tail :
      (is_bid : Bool) (p : ℕ) (o : Order) (os : List Order) (ls : List LevelSnapshot)
      → IsSide is_bid side (level_with p (o ∷ os) ∷ ls)
      → IsSide is_bid side (cons_level p os ls)
  IsSide-tail is_bid p o [] ls v = (v.0.1, v.1.1)
  IsSide-tail is_bid p o (o' ∷ os) ls v = ((((v.0.0.0, (λ e. cc), v.0.0.2.1), v.0.1)), v.1)

  total_orders-cons_level :
      (p : ℕ) (os : List Order) (ls : List LevelSnapshot)
      → total_orders (cons_level p os ls) ≡ length os + total_orders ls
  total_orders-cons_level p [] ls = omega arith
  total_orders-cons_level p (o ∷ os) ls = refl

  count_side-cons_level-le :
      (id p : ℕ) (o : Order) (os : List Order) (ls : List LevelSnapshot)
      → count_side id (cons_level p os ls) ≤ count_side id (level_with p (o ∷ os) ∷ ls)
  count_side-cons_level-le id p o [] ls = omega arith
  count_side-cons_level-le id p o (o' ∷ os) ls = omega arith

  IsDistinct-tail :
      (s : Snapshot) (p : ℕ) (o : Order) (os : List Order) (ls : List LevelSnapshot)
      → IsDistinct (with_levels s side (level_with p (o ∷ os) ∷ ls))
      → IsDistinct (with_levels (numbered s) side (cons_level p os ls))
  IsDistinct-tail s p o os ls d = λ id. ground (arith, d id, count_side-cons_level-le id p o os ls)

  module _ (p : ℕ) (ls : List LevelSnapshot) (next : ℕ → Sweep) (a : allowed p ≡ true) where
    queue_part :
        (o : Order) (os : List Order) (fuel : ℕ) (s : Snapshot) (inc : Order)
        → IsSide (is_bid_side side) side (level_with p (o ∷ os) ∷ ls)
        → 0 < fuel
        → 0 < inc.leaves_qty
        → inc.leaves_qty < o.leaves_qty
        → run (suc fuel) s (level_with p (o ∷ os) ∷ ls) inc
          ≡ outcome s inc (
              filled o inc.leaves_qty (
                stop 0 (
                  level_with p (record o { leaves_qty = o.leaves_qty - inc.leaves_qty } ∷ os)
                  ∷ ls)))
    queue_part o os fuel s inc v f pos small =
        let v₀ : IsOrder side p o = v.0.0.2.0 in
        run_round fuel s (level_with p (o ∷ os)) ls inc pos (omega arith) a
        ∙ rw (round_part seq s side p o os ls inc v₀ small (omega arith)) (
            rw
              (run_zero fuel (numbered s)
                (level_with p (record o { leaves_qty = o.leaves_qty - inc.leaves_qty } ∷ os) ∷ ls)
                (record inc { leaves_qty = 0 }) refl f)
              (rw (lt→ltb inc.leaves_qty o.leaves_qty small)))

    queue_whole :
        (o : Order) (os : List Order) (fuel : ℕ) (s : Snapshot) (inc : Order) (w : Sweep)
        → IsSide (is_bid_side side) side (level_with p (o ∷ os) ∷ ls)
        → IsDistinct (with_levels s side (level_with p (o ∷ os) ∷ ls))
        → inc.leaves_qty < 2 ^ 63
        → 0 < inc.leaves_qty
        → o.leaves_qty ≤ inc.leaves_qty
        → run fuel
            (numbered s)
            (cons_level p os ls)
            (record inc { leaves_qty = inc.leaves_qty - o.leaves_qty })
          ≡ outcome (numbered s) (record inc { leaves_qty = inc.leaves_qty - o.leaves_qty }) w
        → run (suc fuel) s (level_with p (o ∷ os) ∷ ls) inc
          ≡ outcome s inc (filled o o.leaves_qty w)
    queue_whole o os fuel s inc w v d small pos h rec =
        run_round fuel s (level_with p (o ∷ os)) ls inc pos small a
        ∙ rw
            (round_whole seq s side p o os ls inc v.0.0.2.0 h small v.1
              (prices_fit side (level_with p (o ∷ os) ∷ ls) v.0) (d o.id))
            (rw rec (rw (ltb_irrefl o.leaves_qty)))

    run_queue :
        Sweeps ls next → (os : List Order) → Sweeps (cons_level p os ls) (sweep_queue p os ls next)
    unfolding sweep_queue
    run_queue ih [] fuel s inc v d small f = ih fuel s inc v d small f
    run_queue ih (o ∷ os) zero s inc v d small f = absurd (omega arith)
    run_queue ih (o ∷ os) (suc fuel) s inc v d small f = elim (Bool-cases (inc.leaves_qty == 0)) [
      | inl z ↦
          run_zero (suc fuel) s (level_with p (o ∷ os) ∷ ls) inc (ground arith) (omega arith)
          ∙ outcome-eq s inc (stop 0 (level_with p (o ∷ os) ∷ ls))
              (sweep_queue p (o ∷ os) ls next inc.leaves_qty) (rw z)
      | inr pos ↦ elim (Bool-cases (ltb inc.leaves_qty o.leaves_qty)) [
        | inl less ↦
            queue_part o os fuel s inc v (omega arith) (ground arith) (ltb→lt _ _ less)
            ∙ outcome-eq s inc
                (filled o inc.leaves_qty (
                  stop 0 (
                    level_with p (record o { leaves_qty = o.leaves_qty - inc.leaves_qty } ∷ os)
                    ∷ ls)))
                (sweep_queue p (o ∷ os) ls next inc.leaves_qty) (rw (pos, less))
        | inr more ↦
            queue_whole o os fuel s inc (sweep_queue p os ls next (inc.leaves_qty - o.leaves_qty)) v
              d small (ground arith) (ground arith)
              (run_queue ih os fuel (numbered s)
                (record inc { leaves_qty = inc.leaves_qty - o.leaves_qty })
                (IsSide-tail (is_bid_side side) p o os ls v) (IsDistinct-tail s p o os ls d)
                (omega arith) (omega (arith, total_orders-cons_level p os ls)))
            ∙ outcome-eq s inc
                (filled o o.leaves_qty (sweep_queue p os ls next (inc.leaves_qty - o.leaves_qty)))
                (sweep_queue p (o ∷ os) ls next inc.leaves_qty) (rw (pos, more))
      ]
    ]

  run_empty :
      (fuel : ℕ) (s : Snapshot) (inc : Order)
      → run (suc fuel) s [] inc ≡ outcome s inc (stop inc.leaves_qty [])
  unfolding match_against best
  run_empty fuel s inc = elim (Bool-cases (lt64 0 inc.leaves_qty)) [
    | inl e ↦ rw (e, match_against) (rw (best-with_levels s []))
    | inr e ↦ rw (e, match_against)
  ]

  run_stopped :
      (fuel : ℕ) (s : Snapshot) (l : LevelSnapshot) (ls : List LevelSnapshot) (inc : Order)
      → 0 < inc.leaves_qty
      → inc.leaves_qty < 2 ^ 63
      → allowed l.price ≡ false
      → run (suc fuel) s (l ∷ ls) inc ≡ outcome s inc (stop inc.leaves_qty (l ∷ ls))
  unfolding match_against
  run_stopped fuel s l ls inc h k a =
      rw (lt64_zero inc.leaves_qty h k, match_against)
        (rw (best-with_levels s (l ∷ ls) ∙ best-cons l ls) (rw a))

  level-eq :
      (l : LevelSnapshot) (ls : List LevelSnapshot)
      → l.orders ≢ []
      → cons_level l.price l.orders ls ≡ l ∷ ls
  level-eq l ls h = ground arith

  -- The loop, from enough fuel, ends with the outcome of the sweep.
  pub run_levels : (ls : List LevelSnapshot) → Sweeps ls (sweep allowed ls)
  unfolding sweep
  run_levels [] zero s inc v d small f = absurd (omega arith)
  run_levels [] (suc fuel) s inc v d small f = run_empty fuel s inc
  run_levels (l ∷ ls) zero s inc v d small f = absurd (omega arith)
  run_levels (l ∷ ls) (suc fuel) s inc v d small f = elim (Bool-cases (inc.leaves_qty == 0)) [
    | inl z ↦
        run_zero (suc fuel) s (l ∷ ls) inc (ground arith) (omega arith)
        ∙ outcome-eq s inc (stop 0 (l ∷ ls)) (sweep allowed (l ∷ ls) inc.leaves_qty) (ground arith)
    | inr pos ↦ elim (Bool-cases (allowed l.price)) [
      | inr a ↦
          run_stopped fuel s l ls inc (ground arith) small a
          ∙ outcome-eq s inc (stop inc.leaves_qty (l ∷ ls)) (sweep allowed (l ∷ ls) inc.leaves_qty)
              (rw (pos, a))
      | inl a ↦
          subst
            (λ (ks : List LevelSnapshot).
              IsSide (is_bid_side side) side ks
              → IsDistinct (with_levels s side ks)
              → total_orders ks < suc fuel
              → run (suc fuel) s ks inc
                ≡ outcome s inc (sweep_queue l.price l.orders ls (sweep allowed ls) inc.leaves_qty))
            (level-eq l ls v.0.0.1)
            (λ v' d' f'.
              run_queue l.price ls (sweep allowed ls) a (run_levels ls) l.orders (suc fuel) s inc v'
                d' small f')
            v d f
          ∙ outcome-eq s inc (sweep_queue l.price l.orders ls (sweep allowed ls) inc.leaves_qty)
              (sweep allowed (l ∷ ls) inc.leaves_qty) (rw (pos, a))
    ]
  ]
