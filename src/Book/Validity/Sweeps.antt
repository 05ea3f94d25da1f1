-- ===== src/Book/Validity/Sweeps.antt =====
-- Induction over a sweep, and what a sweep keeps, takes and leaves.
use mathlib.Core.Path.{subst}
use matching_engine_go.Prelude.{
  ℕ, ◌-◌, ◌≤◌, ◌<◌, ◌≡◌, ◌≢◌, inl, inr, List, [], ◌∷◌, Bool, true, false, ◌==◌, ltb, All, arith,
  Bool-cases, ltb→lt,
}
use matching_engine_go.Book.State.{Order, LevelSnapshot}
use matching_engine_go.Book.Spec.{Sweep, sweep, sweep_queue, stop, filled, level_with, cons_level}

-- A relation between a side, a quantity and what a sweep leaves, closed under the steps of a sweep.
pub record SweepRules (allowed : ℕ → Bool) (R : List LevelSnapshot → ℕ → Sweep → Type 0)
    : Type 0 where
  pub none_left : (ls : List LevelSnapshot) → R ls 0 (stop 0 ls)
  pub no_level : (n : ℕ) → R [] n (stop n [])
  pub not_allowed :
      (l : LevelSnapshot) (ls : List LevelSnapshot) (n : ℕ)
      → allowed l.price ≡ false
      → R (l ∷ ls) n (stop n (l ∷ ls))
  pub part :
      (p : ℕ) (o : Order) (os : List Order) (ls : List LevelSnapshot) (n : ℕ)
      → allowed p ≡ true
      → 0 < n
      → n < o.leaves_qty
      → R (level_with p (o ∷ os) ∷ ls) n (
          filled o n (stop 0 (level_with p (record o { leaves_qty = o.leaves_qty - n } ∷ os) ∷ ls)))
  pub whole :
      (p : ℕ) (o : Order) (os : List Order) (ls : List LevelSnapshot) (n : ℕ) (w : Sweep)
      → allowed p ≡ true
      → 0 < n
      → o.leaves_qty ≤ n
      → R (cons_level p os ls) (n - o.leaves_qty) w
      → R (level_with p (o ∷ os) ∷ ls) n (filled o o.leaves_qty w)

module _ {allowed : ℕ → Bool} {R : List LevelSnapshot → ℕ → Sweep → Type 0}
    (rules : SweepRules allowed R) where
  queue_rule :
      (p : ℕ) (ls : List LevelSnapshot) (next : ℕ → Sweep)
      → allowed p ≡ true
      → ((n : ℕ) → R ls n (next n))
      → (os : List Order) (n : ℕ) → R (cons_level p os ls) n (sweep_queue p os ls next n)
  unfolding sweep_queue
  queue_rule p ls next a ih [] n = ih n
  queue_rule p ls next a ih (o ∷ os) n = elim (Bool-cases (n == 0)) [
    | inl z ↦ rw z (
        subst (λ (k : ℕ). R (level_with p (o ∷ os) ∷ ls) k (stop 0 (level_with p (o ∷ os) ∷ ls)))
          (ground arith) (rules.none_left (level_with p (o ∷ os) ∷ ls)))
    | inr pos ↦ elim (Bool-cases (ltb n o.leaves_qty)) [
      | inl less ↦ rw (pos, less) (rules.part p o os ls n a (ground arith) (ltb→lt _ _ less))
      | inr more ↦
          rw (pos, more)
            (rules.whole p o os ls n _ a (ground arith) (ground arith)
              (queue_rule p ls next a ih os (n - o.leaves_qty)))
    ]
  ]

  -- What is closed under the steps of a sweep holds of a sweep.
  pub sweep_rule :
      (ls : List LevelSnapshot) (n : ℕ) → All (λ l. l.orders ≢ []) ls → R ls n (sweep allowed ls n)
  unfolding sweep
  sweep_rule [] n v = rules.no_level n
  sweep_rule (l ∷ ls) n v = elim (Bool-cases (n == 0)) [
    | inl z ↦ rw z (
        subst (λ (k : ℕ). R (l ∷ ls) k (stop k (l ∷ ls))) (ground arith) (rules.none_left (l ∷ ls)))
    | inr pos ↦ elim (Bool-cases (allowed l.price)) [
      | inr a ↦ rw (pos, a) (rules.not_allowed l ls n a)
      | inl a ↦
          rw (pos, a)
            (subst
              (λ (ks : List LevelSnapshot).
                R ks n (sweep_queue l.price l.orders ls (sweep allowed ls) n))
              (level-eq l ls v.0)
              (queue_rule l.price ls (sweep allowed ls) a (λ m. sweep_rule ls m v.1) l.orders n))
    ]
  ]
    where
      level-eq :
          (l : LevelSnapshot) (ls : List LevelSnapshot)
          → l.orders ≢ []
          → cons_level l.price l.orders ls ≡ l ∷ ls
      level-eq l ls h = ground arith
