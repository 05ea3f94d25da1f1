-- ===== src/Metrics/Reservoirs.antt =====
-- A reservoir keeps the values that were added last.
use matching_engine_go.Prelude.{
  ℕ, zero, suc, ◌+◌, ◌-◌, ◌%◌, ◌^◌, ◌≤◌, ◌<◌, ◌≡◌, refl, List, [], ◌∷◌, ◌++◌, true, false, some,
  ◌⊎◌, inl, inr, ◌==◌, ltb, if◌then◌else◌, get_elem?, length, drop, arith, ap, sym, ◌∙◌,
  length-append, add64, sub64, Bool-cases,
}
use mathlib.Core.List.{append_assoc, append-nil}
use mathlib.Core.Path.{subst}
use matching_engine_go.Metrics.{Reservoir, slot_count, new_reservoir, add, read_slots, snapshot}

abbrev pub add_all : List ℕ → Reservoir → Reservoir
add_all [] r = r
add_all (v ∷ vs) r = add_all vs (add v r)

-- The last so many of some values.
abbrev pub last : ℕ → List ℕ → List ℕ
last n vs = drop (length vs - n) vs

-- A reservoir to which these values were added.
pub record Holds (vs : List ℕ) (r : Reservoir) : Type 0 where
  pub count_eq : r.count ≡ length vs
  pub next_eq : r.next ≡ length vs
  pub kept :
      (j v : ℕ)
      → get_elem? vs j ≡ some v
      → length vs ≤ j + slot_count
      → r.slots (j % slot_count) ≡ v

get_elem?-append :
    (vs : List ℕ) (w j v : ℕ)
    → get_elem? (vs ++ w ∷ []) j ≡ some v
    → ((j < length vs) × (get_elem? vs j ≡ some v)) ⊎ ((j ≡ length vs) × (w ≡ v))
get_elem?-append [] w zero v e = inr (refl, cc)
get_elem?-append [] w (suc j) v e = absurd cc
get_elem?-append (x ∷ vs) w zero v e = inl (omega arith, e)
get_elem?-append (x ∷ vs) w (suc j) v e = elim (get_elem?-append vs w j v e) [
  | inl (l, f) ↦ inl (omega (arith, l), f)
  | inr (l, f) ↦ inr (omega (arith, l), f)
]

add-Holds :
    (vs : List ℕ) (w : ℕ) (r : Reservoir)
    → length vs + 1 < 2 ^ 64
    → Holds vs r
    → Holds (vs ++ w ∷ []) (add w r)
unfolding add add64
add-Holds vs w r l h = record {
  count_eq = omega (arith, h.count_eq, length-append vs (w ∷ []), l);
  next_eq = omega (arith, h.next_eq, length-append vs (w ∷ []), l);
  kept = λ j v e b. go j v b (get_elem?-append vs w j v e);
}
  where
    go :
        (j v : ℕ)
        → length (vs ++ w ∷ []) ≤ j + slot_count
        → ((j < length vs) × (get_elem? vs j ≡ some v)) ⊎ ((j ≡ length vs) × (w ≡ v))
        → (if j % slot_count == r.next % slot_count then w else r.slots (j % slot_count)) ≡ v
    go j v b (inl (k, f)) =
        let other : (j % slot_count == r.next % slot_count) ≡ false =
          ground (arith, h.next_eq, k, b, length-append vs (w ∷ [])) in
        rw other (h.kept j v f (omega (arith, b, length-append vs (w ∷ []))))
    go j v b (inr (k, f)) =
        let same : (j % slot_count == r.next % slot_count) ≡ true = ground (arith, h.next_eq, k) in
        rw same f

add_all-Holds :
    (ws vs : List ℕ) (r : Reservoir)
    → length vs + length ws < 2 ^ 64
    → Holds vs r
    → Holds (vs ++ ws) (add_all ws r)
add_all-Holds [] vs r l h = subst (λ (us : List ℕ). Holds us r) (sym (append-nil vs)) h
add_all-Holds (w ∷ ws) vs r l h =
    subst (λ (us : List ℕ). Holds us (add_all ws (add w r))) (append_assoc vs (w ∷ []) ws)
      (add_all-Holds ws (vs ++ w ∷ []) (add w r) (omega (arith, l, length-append vs (w ∷ [])))
        (add-Holds vs w r (omega (arith, l)) h))

drop_cons :
    (vs : List ℕ) (k : ℕ)
    → k < length vs
    → (v : ℕ) × (get_elem? vs k ≡ some v) × (drop k vs ≡ v ∷ drop (suc k) vs)
drop_cons [] k l = absurd (omega (arith, l))
drop_cons (x ∷ vs) zero l = (x, refl, refl)
drop_cons (x ∷ vs) (suc k) l = drop_cons vs k (omega (arith, l))

drop-length : (vs : List ℕ) → drop (length vs) vs ≡ []
drop-length [] = refl
drop-length (x ∷ vs) = drop-length vs

read_slots-drop :
    (vs : List ℕ) (r : Reservoir) (start rounds i : ℕ)
    → Holds vs r
    → length vs < 2 ^ 64
    → length vs ≤ start + slot_count
    → start + i + rounds ≡ length vs
    → read_slots r.slots start rounds i ≡ drop (start + i) vs
unfolding read_slots add64
read_slots-drop vs r start zero i h l m e =
    sym (ap (λ (k : ℕ). drop k vs) (omega (arith, e)) ∙ drop-length vs)
read_slots-drop vs r start (suc rounds) i h l m e =
    let (v, g, d) = drop_cons vs (start + i) (omega (arith, e)) in
    let small : (start + i) % 2 ^ 64 ≡ start + i = omega (arith, e, l) in
    ap (λ (k : ℕ). r.slots (k % slot_count) ∷ read_slots r.slots start rounds (i + 1)) small
    ∙ ap (λ (x : ℕ). x ∷ read_slots r.slots start rounds (i + 1))
        (h.kept (start + i) v g (omega (arith, m)))
    ∙ ap (λ (xs : List ℕ). v ∷ xs)
        (read_slots-drop vs r start rounds (i + 1) h l m (omega (arith, e))
          ∙ ap (λ (k : ℕ). drop k vs) (after start i))
    ∙ sym d
  where
    after : (a b : ℕ) → a + (b + 1) ≡ suc (a + b)
    after a b = omega arith

read_slots-limit :
    (vs : List ℕ) (r : Reservoir) (limit : ℕ)
    → Holds vs r
    → length vs < 2 ^ 64
    → limit ≤ length vs
    → limit ≤ slot_count
    → read_slots r.slots (sub64 r.next limit) limit 0 ≡ drop (length vs - limit) vs
unfolding sub64
read_slots-limit vs r limit h l m n =
    let start : (r.next + 2 ^ 64 - limit) % 2 ^ 64 ≡ length vs - limit =
      omega (arith, h.next_eq, l, m) in
    ap (λ (k : ℕ). read_slots r.slots k limit 0) start
    ∙ read_slots-drop vs r (length vs - limit) limit 0 h l (omega (arith, m, n)) (omega (arith, m))
    ∙ ap (λ (k : ℕ). drop k vs) (zero_behind (length vs - limit))
  where
    zero_behind : (k : ℕ) → k + 0 ≡ k
    zero_behind k = omega arith

snapshot-Holds :
    (vs : List ℕ) (r : Reservoir)
    → Holds vs r
    → length vs < 2 ^ 64
    → snapshot r ≡ record { count = length vs; values = last slot_count vs }
unfolding snapshot
snapshot-Holds vs r h l = elim (Bool-cases (ltb r.count slot_count)) [
  | inl e ↦
      let few : r.count < slot_count = ground arith in
      rw (e, snapshot)
        (ap (λ (xs : List ℕ). record { count = r.count; values = xs })
            (read_slots-limit vs r r.count h l (omega (arith, h.count_eq)) (omega (arith, few))
              ∙ ap (λ (k : ℕ). drop k vs) (none_lost (length vs) r.count h.count_eq few))
          ∙ ap (λ (n : ℕ). record { count = n; values = last slot_count vs }) h.count_eq)
  | inr e ↦
      let many : slot_count ≤ r.count = ground arith in
      rw (e, snapshot)
        (ap (λ (xs : List ℕ). record { count = r.count; values = xs })
            (read_slots-limit vs r slot_count h l (omega (arith, h.count_eq, many)) (omega arith))
          ∙ ap (λ (n : ℕ). record { count = n; values = last slot_count vs }) h.count_eq)
]
  where
    none_lost : (n count : ℕ) → count ≡ n → count < slot_count → n - count ≡ n - slot_count
    none_lost n count e f = omega (arith, e, f)

-- A snapshot of a new reservoir to which fewer than 2 ^ 64 values were added has their number and the last
-- 2048 of them, the oldest first; all of them where there are fewer.
pub snapshot-add_all :
    (vs : List ℕ)
    → length vs < 2 ^ 64
    → snapshot (add_all vs new_reservoir)
      ≡ record { count = length vs; values = last slot_count vs }
snapshot-add_all vs l =
    snapshot-Holds vs (add_all vs new_reservoir)
      (add_all-Holds vs [] new_reservoir (omega (arith, l))
        (record { count_eq = refl; next_eq = refl; kept = λ j v e b. absurd cc }))
      l
