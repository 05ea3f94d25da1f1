-- ===== src/Book/Validity/Filled.antt =====
-- What a sweep takes: how much, from whom, at what price, and where it stops.
use matching_engine_go.Prelude.{
  ℕ, ◌+◌, ◌-◌, ◌^◌, ◌≤◌, ◌<◌, ◌≡◌, refl, List, [], ◌∷◌, ◌++◌, Bool, true, false, All, length, arith,
  if◌then◌else◌, map, ltb, ap, sym, ◌∙◌, ltb_irrefl, lt→ltb,
}
use matching_engine_go.Book.State.{Order, LevelSnapshot}
use matching_engine_go.Book.View.{ahead, prices_of, IsLevel, IsSorted, quantity}
use matching_engine_go.Book.View.Levels.{prices_fit}
use matching_engine_go.Book.Spec.{Sweep, Fill, sweep, cons_level}
use matching_engine_go.Book.Validity.{All-cons_level, levels-cons_level, IsSorted-cons_level}
use matching_engine_go.Book.Validity.Sweeps.{SweepRules, sweep_rule}
use matching_engine_go.Book.Validity.Kept.{levels_full}

-- The quantity that some fills trade, and the quantity that rests on a side.
abbrev pub traded : List Fill → ℕ
traded [] = 0
traded (f ∷ fs) = f.quantity + traded fs

abbrev pub side_quantity : List LevelSnapshot → ℕ
side_quantity [] = 0
side_quantity (l ∷ ls) = quantity l.orders + side_quantity ls

-- The quantity at allowed prices from the best on.
abbrev pub offered : (ℕ → Bool) → List LevelSnapshot → ℕ
offered allowed [] = 0
offered allowed (l ∷ ls) = if allowed l.price then quantity l.orders + offered allowed ls else 0

-- The orders of a side in their priority: by price, then by time.
abbrev pub all_orders : List LevelSnapshot → List Order
all_orders [] = []
all_orders (l ∷ ls) = l.orders ++ all_orders ls

abbrev pub maker_of : Fill → Order
maker_of f = f.maker

-- The orders that some fills leave with a part of their quantity.
abbrev pub leftover : List Fill → List Order
leftover [] = []
leftover (f ∷ fs) =
    if ltb f.quantity f.maker.leaves_qty
    then record f.maker { leaves_qty = f.maker.leaves_qty - f.quantity } ∷ leftover fs
    else leftover fs

side_quantity-cons_level :
    (p : ℕ) (os : List Order) (ls : List LevelSnapshot)
    → side_quantity (cons_level p os ls) ≡ quantity os + side_quantity ls
side_quantity-cons_level p [] ls = omega arith
side_quantity-cons_level p (o ∷ os) ls = refl

all_orders-cons_level :
    (p : ℕ) (os : List Order) (ls : List LevelSnapshot)
    → all_orders (cons_level p os ls) ≡ os ++ all_orders ls
all_orders-cons_level p [] ls = refl
all_orders-cons_level p (o ∷ os) ls = refl

-- The fills take orders from the front, and what remains is the rest behind a reduced order.
abbrev pub FrontFirst : List LevelSnapshot → Sweep → Type 0
FrontFirst ls w =
    (behind : List Order) × (all_orders ls ≡ map maker_of w.fills ++ behind)
    × (all_orders w.levels ≡ leftover w.fills ++ behind)
    × (length (leftover w.fills) ≤ 1)

abbrev pub IsFill : (ℕ → Bool) → Fill → Type 0
IsFill allowed f =
    (allowed f.maker.price ≡ true) × (0 < f.quantity) × (f.quantity ≤ f.maker.leaves_qty)

module _ (allowed : ℕ → Bool) where
  amount_rules : SweepRules allowed (λ ls n w. w.left + traded w.fills ≡ n)
  amount_rules = record {
    none_left = λ ls. refl;
    no_level = λ n. omega arith;
    not_allowed = λ l ls n a. omega arith;
    part = λ p o os ls n a h k. omega arith;
    whole = λ p o os ls n w a h k ih. omega arith;
  }

  resting_rules :
      SweepRules allowed (λ ls n w. side_quantity ls ≡ side_quantity w.levels + traded w.fills)
  resting_rules = record {
    none_left = λ ls. omega arith;
    no_level = λ n. omega arith;
    not_allowed = λ l ls n a. omega arith;
    part = λ p o os ls n a h k. omega arith;
    whole = λ p o os ls n w a h k ih. omega (arith, side_quantity-cons_level p os ls);
  }

  offered-cons_level :
      (p : ℕ) (os : List Order) (ls : List LevelSnapshot)
      → allowed p ≡ true
      → offered allowed (cons_level p os ls) ≡ quantity os + offered allowed ls
  offered-cons_level p [] ls a = omega arith
  offered-cons_level p (o ∷ os) ls a = rw a

  offered_rules : SweepRules allowed (λ ls n w. w.left ≡ n - offered allowed ls)
  offered_rules = record {
    none_left = λ ls. omega arith;
    no_level = λ n. omega arith;
    not_allowed = λ l ls n a. rw a (omega arith);
    part = λ p o os ls n a h k. rw a (omega arith);
    whole = λ p o os ls n w a h k ih. rw a (omega (arith, offered-cons_level p os ls a));
  }

  IsFill-rules :
      (side : ℕ)
      → SweepRules allowed (λ ls n w. All (IsLevel side) ls → All (IsFill allowed) w.fills)
  IsFill-rules side = record {
    none_left = λ ls v. tt;
    no_level = λ n v. tt;
    not_allowed = λ l ls n a v. tt;
    part = λ p o os ls n a h k v. ((ap allowed v.0.2.0.1 ∙ a, h, omega arith), tt);
    whole = λ p o os ls n w a h k ih v. (
      (ap allowed v.0.2.0.1 ∙ a, v.0.2.0.2, omega arith),
      ih (levels-cons_level side p os ls v.0.0 v.0.2.1 v.1),
    );
  }

  priority_rules : SweepRules allowed (λ ls n w. FrontFirst ls w)
  priority_rules = record {
    none_left = λ ls. (all_orders ls, refl, refl, omega arith);
    no_level = λ n. ([], refl, refl, omega arith);
    not_allowed = λ l ls n a. (all_orders (l ∷ ls), refl, refl, omega arith);
    part = λ p o os ls n a h k. (
      os ++ all_orders ls,
      refl,
      rw (lt→ltb n o.leaves_qty k) refl,
      rw (lt→ltb n o.leaves_qty k) (omega arith),
    );
    whole = λ p o os ls n w a h k ih. (
      ih.0,
      ap (λ (xs : List Order). o ∷ xs) (sym (all_orders-cons_level p os ls) ∙ ih.1),
      rw (ltb_irrefl o.leaves_qty) ih.2,
      rw (ltb_irrefl o.leaves_qty) ih.3,
    );
  }

  -- A price behind one that is not allowed is not allowed.
  abbrev pub Falls : Bool → Type 0
  Falls is_bid =
      (p q : ℕ)
      → p < 2 ^ 63
      → q < 2 ^ 63
      → allowed p ≡ false
      → ahead is_bid p q ≡ true
      → allowed q ≡ false

  behind-Falls :
      (is_bid : Bool) (p : ℕ) (ps : List ℕ)
      → Falls is_bid
      → All (λ q. q < 2 ^ 63) (p ∷ ps)
      → allowed p ≡ false
      → All (λ q. ahead is_bid p q ≡ true) ps
      → All (λ q. allowed q ≡ false) ps
  behind-Falls is_bid p [] f v a h = tt
  behind-Falls is_bid p (q ∷ ps) f v a h =
      (f p q v.0 v.1.0 a h.0, behind-Falls is_bid p ps f (v.0, v.1.1) a h.1)

  blocked_rules :
      (is_bid : Bool)
      → Falls is_bid
      → SweepRules allowed (λ ls n w.
        All (λ p. p < 2 ^ 63) (prices_of ls)
        → IsSorted is_bid (prices_of ls)
        → 0 < w.left
        → All (λ q. allowed q ≡ false) (prices_of w.levels))
  blocked_rules is_bid f = record {
    none_left = λ ls v s h. absurd (omega arith);
    no_level = λ n v s h. tt;
    not_allowed = λ l ls n a v s h. (a, behind-Falls is_bid l.price (prices_of ls) f v a s.0);
    part = λ p o os ls n a h k v s z. absurd (omega arith);
    whole = λ p o os ls n w a h k ih v s z.
        ih (All-cons_level (λ p. p < 2 ^ 63) p os ls v.0 v.1) (IsSorted-cons_level is_bid p os ls s)
          z;
  }

  module _ (side : ℕ) (ls : List LevelSnapshot) (n : ℕ) (v : All (IsLevel side) ls) where
    -- What is left and what is traded make up the quantity.
    pub left-sweep : (sweep allowed ls n).left + traded (sweep allowed ls n).fills ≡ n
    left-sweep = sweep_rule amount_rules ls n (levels_full side ls v)

    -- The side loses what is traded.
    pub side_quantity-sweep :
        side_quantity ls
        ≡ side_quantity (sweep allowed ls n).levels + traded (sweep allowed ls n).fills
    side_quantity-sweep = sweep_rule resting_rules ls n (levels_full side ls v)

    -- A sweep takes what is offered, up to its quantity.
    pub left-sweep-offered : (sweep allowed ls n).left ≡ n - offered allowed ls
    left-sweep-offered = sweep_rule offered_rules ls n (levels_full side ls v)

    pub IsFill-sweep : All (IsFill allowed) (sweep allowed ls n).fills
    IsFill-sweep = sweep_rule (IsFill-rules side) ls n (levels_full side ls v) v

    pub FrontFirst-sweep : FrontFirst ls (sweep allowed ls n)
    FrontFirst-sweep = sweep_rule priority_rules ls n (levels_full side ls v)

    -- A sweep that leaves a quantity leaves no price that it may take.
    pub blocked-sweep :
        (is_bid : Bool)
        → Falls is_bid
        → IsSorted is_bid (prices_of ls)
        → 0 < (sweep allowed ls n).left
        → All (λ q. allowed q ≡ false) (prices_of (sweep allowed ls n).levels)
    blocked-sweep is_bid f s =
        sweep_rule (blocked_rules is_bid f) ls n (levels_full side ls v) (prices_fit side ls v) s
