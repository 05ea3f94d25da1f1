-- ===== src/Book/View/Search.antt =====
-- The binary search of findInsertIndex on a sorted list of prices.
use matching_engine_go.Prelude.{
  ℕ, zero, suc, ◌+◌, ◌-◌, ◌/◌, ◌^◌, ◌≤◌, ◌<◌, ◌≡◌, inl, inr, refl, List, [], ◌∷◌, Bool, true, false,
  some, if◌then◌else◌, ltb, All, length, get_elem?, lt64-eq-ltb, arith, Bool-cases, ltb→lt, sym,
  ◌∙◌, ap,
}
use mathlib.Core.Bool.{false≢true}
use native.Mathlib.Decide.{dec_lt}
use mathlib.Core.Path.{subst}
use matching_engine_go.Book.Sides.{before, insert_index_loop}
use matching_engine_go.Book.View.{ahead, IsSorted}

-- How many prices stand before the place of `price`.
unfoldable pub rank : Bool → ℕ → List ℕ → ℕ
rank is_bid price [] = 0
rank is_bid price (p ∷ ps) = if ahead is_bid p price then suc (rank is_bid price ps) else 0

pub before-eq-ahead :
    (is_bid : Bool) (p q : ℕ) → p < 2 ^ 63 → q < 2 ^ 63 → before is_bid p q ≡ ahead is_bid p q
before-eq-ahead true p q hp hq = lt64-eq-ltb q p hq hp
before-eq-ahead false p q hp hq = lt64-eq-ltb p q hp hq

pub rank-le-length : (is_bid : Bool) (price : ℕ) (ps : List ℕ) → rank is_bid price ps ≤ length ps
unfolding rank
rank-le-length is_bid price [] = omega arith
rank-le-length is_bid price (p ∷ ps) = ground (arith, rank-le-length is_bid price ps)

-- A price that stands behind one that is not ahead is not ahead either.
none_ahead :
    (is_bid : Bool) (price p : ℕ) (ps : List ℕ)
    → All (λ q. ahead is_bid p q ≡ true) ps
    → ahead is_bid p price ≡ false
    → All (λ q. ahead is_bid q price ≡ false) ps
none_ahead is_bid price p [] h n = tt
none_ahead is_bid price p (q ∷ ps) h n = (ground arith, none_ahead is_bid price p ps h.1 n)

get_elem?-All : (P : ℕ → Type 0) (ps : List ℕ) (i q : ℕ) → All P ps → get_elem? ps i ≡ some q → P q
get_elem?-All P [] i q h e = cc
get_elem?-All P (p ∷ ps) zero q h e = subst P (ground arith) h.0
get_elem?-All P (p ∷ ps) (suc i) q h e = get_elem?-All P ps i q h.1 e

below_rank :
    (is_bid : Bool) (price : ℕ) (ps : List ℕ) (i q : ℕ)
    → i < rank is_bid price ps
    → get_elem? ps i ≡ some q
    → ahead is_bid q price ≡ true
unfolding rank
below_rank is_bid price [] i q h e = cc
below_rank is_bid price (p ∷ ps) zero q h e = ground arith
below_rank is_bid price (p ∷ ps) (suc i) q h e = ground (arith, below_rank is_bid price ps i q)

above_rank :
    (is_bid : Bool) (price : ℕ) (ps : List ℕ) (i q : ℕ)
    → IsSorted is_bid ps
    → rank is_bid price ps ≤ i
    → get_elem? ps i ≡ some q
    → ahead is_bid q price ≡ false
unfolding rank
above_rank is_bid price [] i q s h e = cc
above_rank is_bid price (p ∷ ps) zero q s h e = ground arith
above_rank is_bid price (p ∷ ps) (suc i) q s h e = elim (Bool-cases (ahead is_bid p price)) [
  | inl t ↦ above_rank is_bid price ps i q s.1 (ground arith) e
  | inr f ↦
      get_elem?-All (λ q. ahead is_bid q price ≡ false) ps i q (none_ahead is_bid price p ps s.0 f)
        e
]

get_elem?-lt :
    {A : Type 0} (xs : List A) (i : ℕ) → i < length xs → (x : A) × (get_elem? xs i ≡ some x)
get_elem?-lt [] i h = absurd (omega arith)
get_elem?-lt (x ∷ xs) zero h = (x, refl)
get_elem?-lt (x ∷ xs) (suc i) h = get_elem?-lt xs i (omega arith)

-- The middle of an interval lies in it.
middle :
    (left right : ℕ)
    → left < right
    → (left ≤ left + (right - left) / 2) × (left + (right - left) / 2 < right)
middle left right h = omega arith

step_done :
    (fuel : ℕ) (is_bid : Bool) (prices : List ℕ) (price left right : ℕ)
    → ltb left right ≡ false
    → insert_index_loop (suc fuel) is_bid prices price left right ≡ some left
unfolding insert_index_loop
step_done fuel is_bid prices price left right h = rw (h, insert_index_loop)

step_more :
    (fuel : ℕ) (is_bid : Bool) (prices : List ℕ) (price left right x : ℕ) (b : Bool)
    → ltb left right ≡ true
    → get_elem? prices (left + (right - left) / 2) ≡ some x
    → before is_bid x price ≡ b
    → insert_index_loop (suc fuel) is_bid prices price left right
      ≡ insert_index_loop fuel is_bid prices price
          (if b then left + (right - left) / 2 + 1 else left)
          (if b then right else left + (right - left) / 2)
unfolding insert_index_loop
step_more fuel is_bid prices price left right x b h e t = rw (h, insert_index_loop) (rw e (rw t))

module _ (is_bid : Bool) (prices : List ℕ) (price : ℕ) (s : IsSorted is_bid prices)
    (fits : All (λ p. p < 2 ^ 63) prices) (hp : price < 2 ^ 63) where
  rank_above :
      (i q : ℕ)
      → get_elem? prices i ≡ some q
      → before is_bid q price ≡ true
      → i < rank is_bid price prices
  rank_above i q e b = elim (dec_lt i (rank is_bid price prices)) [
    | yes h ↦ h
    | no h ↦
        let a : ahead is_bid q price ≡ false =
          above_rank is_bid price prices i q s (omega arith) e in
        let c : before is_bid q price ≡ ahead is_bid q price =
          before-eq-ahead is_bid q price (get_elem?-All (λ p. p < 2 ^ 63) prices i q fits e) hp in
        absurd (false≢true (sym a ∙ sym c ∙ b))
  ]

  rank_below :
      (i q : ℕ)
      → get_elem? prices i ≡ some q
      → before is_bid q price ≡ false
      → rank is_bid price prices ≤ i
  rank_below i q e b = elim (dec_lt i (rank is_bid price prices)) [
    | yes h ↦
        let a : ahead is_bid q price ≡ true = below_rank is_bid price prices i q h e in
        let c : before is_bid q price ≡ ahead is_bid q price =
          before-eq-ahead is_bid q price (get_elem?-All (λ p. p < 2 ^ 63) prices i q fits e) hp in
        absurd (false≢true (sym b ∙ c ∙ a))
    | no h ↦ omega arith
  ]

  -- On sorted prices the loop ends, with the rank of the price.
  pub insert_index_loop_lem :
      (fuel left right : ℕ)
      → left ≤ rank is_bid price prices
      → rank is_bid price prices ≤ right
      → right ≤ length prices
      → right - left < fuel
      → insert_index_loop fuel is_bid prices price left right ≡ some (rank is_bid price prices)
  insert_index_loop_lem zero left right lo hi len f = absurd (omega arith)
  insert_index_loop_lem (suc fuel) left right lo hi len f = elim (Bool-cases (ltb left right)) [
    | inr done ↦ step_done fuel is_bid prices price left right done ∙ ap some (ground arith)
    | inl more ↦
        let mid = left + (right - left) / 2 in
        let (low, high) = middle left right (ltb→lt _ _ more) in
        let (x, e) = get_elem?-lt prices mid (omega arith) in
        elim (Bool-cases (before is_bid x price)) [
          | inl b ↦
              step_more fuel is_bid prices price left right x true more e b
              ∙ insert_index_loop_lem fuel (mid + 1) right (omega (arith, rank_above mid x e b)) hi
                  len (omega arith)
          | inr b ↦
              step_more fuel is_bid prices price left right x false more e b
              ∙ insert_index_loop_lem fuel left mid lo (rank_below mid x e b) (omega arith)
                  (omega arith)
        ]
  ]
