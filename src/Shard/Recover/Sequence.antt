-- ===== src/Shard/Recover/Sequence.antt =====
-- The first number after a recovery.
use matching_engine_go.Prelude.{
  ℕ, ◌+◌, ◌^◌, ◌≤◌, ◌<◌, ◌≡◌, ◌≢◌, refl, List, [], ◌∷◌, ◌⊎◌, inl, inr, if◌then◌else◌, arith, All,
  Bool-cases, ==_iff, ◌==◌, ltb, add64, sym, ◌∙◌,
}
use mathlib.Core.Path.{subst}
use matching_engine_go.Shard.Recover.{max_sequence, next_sequence}

max_sequence-le :
    (ws : List ℕ) (m : ℕ) → (m ≤ max_sequence ws m) × All (λ w. w ≤ max_sequence ws m) ws
unfolding max_sequence
max_sequence-le [] m = (omega arith, tt)
max_sequence-le (w ∷ ws) m =
    let m' : ℕ = if ltb m w then w else m in
    let (r, rs) = max_sequence-le ws m' in
    let a : m ≤ m' = ground arith in
    let b : w ≤ m' = ground arith in (omega (arith, a, r), (omega (arith, b, r), rs))

-- A number stands in a list.
abbrev pub Contains : ℕ → List ℕ → Type 0
Contains n [] = ⊥
Contains n (w ∷ ws) = (w ≡ n) ⊎ Contains n ws

max_sequence-cases :
    (ws : List ℕ) (m : ℕ) → (max_sequence ws m ≡ m) ⊎ Contains (max_sequence ws m) ws
unfolding max_sequence
max_sequence-cases [] m = inl refl
max_sequence-cases (w ∷ ws) m =
    let m' : ℕ = if ltb m w then w else m in
    elim (max_sequence-cases ws m') [
      | inr c ↦ inr (inr c)
      | inl e ↦ elim (Bool-cases (ltb m w)) [
        | inl t ↦ inr (inl (sym (e ∙ rw t refl)))
        | inr t ↦ inl (e ∙ rw t refl)
      ]
    ]

Contains-lt : (n : ℕ) (ws : List ℕ) → All (λ w. w < 2 ^ 64) ws → Contains n ws → n < 2 ^ 64
Contains-lt n [] h c = absurd c
Contains-lt n (w ∷ ws) (a, h) (inl e) = omega (arith, e, a)
Contains-lt n (w ∷ ws) (a, h) (inr c) = Contains-lt n ws h c

below : (ws : List ℕ) (m n : ℕ) → m < n → All (λ w. w ≤ m) ws → All (λ w. w < n) ws
below [] m n l a = tt
below (w ∷ ws) m n l (a, as') = (omega (arith, a, l), below ws m n l as')

-- nextSequence gives a number above all watermarks of the shards, or 0, which NewEngine refuses as an
-- exhausted sequence, exactly because a shard has used 2 ^ 64 - 1.
pub next_sequence-cases :
    (ws : List ℕ)
    → All (λ w. w < 2 ^ 64) ws
    → ((next_sequence ws ≢ 0) × All (λ w. w < next_sequence ws) ws)
      ⊎ ((next_sequence ws ≡ 0) × Contains 0xffffffffffffffff ws)
unfolding next_sequence add64
next_sequence-cases ws h = elim (max_sequence-cases ws 0) [
  | inl e ↦
      let (r, rs) = max_sequence-le ws 0 in
      let n : next_sequence ws ≡ 1 = omega (arith, e) in
      inl (
        λ z. absurd (omega (arith, z, n)),
        below ws (max_sequence ws 0) (next_sequence ws) (omega (arith, e, n)) rs,
      )
  | inr c ↦
      let (r, rs) = max_sequence-le ws 0 in
      let l = Contains-lt (max_sequence ws 0) ws h c in
      elim (Bool-cases (max_sequence ws 0 == 0xffffffffffffffff)) [
        | inl t ↦
            let e = (==_iff (max_sequence ws 0) 0xffffffffffffffff).0 t in
            inr (omega (arith, e), subst (λ (n : ℕ). Contains n ws) e c)
        | inr t ↦
            let n : next_sequence ws ≡ max_sequence ws 0 + 1 = ground arith in
            inl (
              λ z. absurd (omega (arith, z, n)),
              below ws (max_sequence ws 0) (next_sequence ws) (omega (arith, n)) rs,
            )
      ]
]
