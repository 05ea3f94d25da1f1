-- ===== src/Book/Validity/Kept.antt =====
-- A sweep keeps a side well formed.
use matching_engine_go.Prelude.{ℕ, ◌≤◌, ◌≢◌, List, [], ◌∷◌, Bool, All, arith}
use matching_engine_go.Book.State.{Order, LevelSnapshot}
use matching_engine_go.Book.View.{count_side, prices_of, IsSide, IsLevel, IsSorted}
use matching_engine_go.Book.Spec.{sweep, level_with, cons_level}
use matching_engine_go.Book.Validity.{All-cons_level, IsSorted-cons_level, levels-cons_level}
use matching_engine_go.Book.Validity.Sweeps.{SweepRules, sweep_rule}

pub levels_full :
    (side : ℕ) (ls : List LevelSnapshot) → All (IsLevel side) ls → All (λ l. l.orders ≢ []) ls
levels_full side [] v = tt
levels_full side (l ∷ ls) v = (v.0.1, levels_full side ls v.1)

pub count_side-cons_level :
    (id p : ℕ) (os : List Order) (ls : List LevelSnapshot) (o : Order)
    → count_side id (cons_level p os ls) ≤ count_side id (level_with p (o ∷ os) ∷ ls)
count_side-cons_level id p [] ls o = omega arith
count_side-cons_level id p (x ∷ os) ls o = omega arith

module _ (allowed : ℕ → Bool) where
  prices_rules :
      (P : ℕ → Type 0)
      → SweepRules allowed (λ ls n w. All P (prices_of ls) → All P (prices_of w.levels))
  prices_rules P = record {
    none_left = λ ls h. h;
    no_level = λ n h. h;
    not_allowed = λ l ls n a h. h;
    part = λ p o os ls n a h k v. v;
    whole = λ p o os ls n w a h k ih v. ih (All-cons_level P p os ls v.0 v.1);
  }

  IsSorted-rules :
      (is_bid : Bool)
      → SweepRules allowed
          (λ ls n w. IsSorted is_bid (prices_of ls) → IsSorted is_bid (prices_of w.levels))
  IsSorted-rules is_bid = record {
    none_left = λ ls h. h;
    no_level = λ n h. h;
    not_allowed = λ l ls n a h. h;
    part = λ p o os ls n a h k v. v;
    whole = λ p o os ls n w a h k ih v. ih (IsSorted-cons_level is_bid p os ls v);
  }

  levels_rules :
      (side : ℕ)
      → SweepRules allowed (λ ls n w. All (IsLevel side) ls → All (IsLevel side) w.levels)
  levels_rules side = record {
    none_left = λ ls h. h;
    no_level = λ n h. h;
    not_allowed = λ l ls n a h. h;
    part = λ p o os ls n a h k v.
        ((v.0.0, (λ e. cc), ((v.0.2.0.0, v.0.2.0.1, omega arith, omega arith), v.0.2.1)), v.1);
    whole = λ p o os ls n w a h k ih v. ih (levels-cons_level side p os ls v.0.0 v.0.2.1 v.1);
  }

  count_rules : (id : ℕ) → SweepRules allowed (λ ls n w. count_side id w.levels ≤ count_side id ls)
  count_rules id = record {
    none_left = λ ls. omega arith;
    no_level = λ n. omega arith;
    not_allowed = λ l ls n a. omega arith;
    part = λ p o os ls n a h k. omega arith;
    whole = λ p o os ls n w a h k ih. omega (arith, count_side-cons_level id p os ls o);
  }

  module _ (side : ℕ) (ls : List LevelSnapshot) (n : ℕ) (v : All (IsLevel side) ls) where
    -- What holds of all prices still does.
    pub All-sweep :
        (P : ℕ → Type 0) → All P (prices_of ls) → All P (prices_of (sweep allowed ls n).levels)
    All-sweep P h = sweep_rule (prices_rules P) ls n (levels_full side ls v) h

    pub count_side-sweep : (id : ℕ) → count_side id (sweep allowed ls n).levels ≤ count_side id ls
    count_side-sweep id = sweep_rule (count_rules id) ls n (levels_full side ls v)

    pub IsSide-sweep :
        (is_bid : Bool) → IsSide is_bid side ls → IsSide is_bid side (sweep allowed ls n).levels
    IsSide-sweep is_bid h = (
      sweep_rule (levels_rules side) ls n (levels_full side ls v) h.0,
      sweep_rule (IsSorted-rules is_bid) ls n (levels_full side ls v) h.1,
    )
