-- ===== src/Ingress/Sequencer/Numbering.antt =====
-- The numbers that the sequencer gives to commands, and the shards that it sends them to.
use matching_engine_go.Prelude.{
  ℕ, zero, suc, ◌+◌, ◌%◌, ◌^◌, ◌≤◌, ◌≡◌, refl, List, [], ◌∷◌, ◌++◌, Option, some, ◌==◌,
  if◌then◌else◌, arith, ap, sym, ◌∙◌, All, All-append,
}
use mathlib.Core.Path.{subst}
use matching_engine_go.Model.{Command}
use matching_engine_go.Ingress.{Routed, routed_command, routed_barrier, routed_drain}
use matching_engine_go.Ingress.Sequencer.{Sequencer, to_all}

-- The commands among some messages have the numbers from `n` on, one after the other.
abbrev pub IsNumbered : ℕ → List (ℕ × Routed) → Type 0
IsNumbered n [] = Unit {0}
IsNumbered n ((k, routed_command cmd reply) ∷ log) = (cmd.seq ≡ n) × IsNumbered (n + 1) log
IsNumbered n ((k, routed_barrier done) ∷ log) = IsNumbered n log
IsNumbered n ((k, routed_drain done) ∷ log) = IsNumbered n log

abbrev pub count_commands : List (ℕ × Routed) → ℕ
count_commands [] = 0
count_commands ((k, routed_command cmd reply) ∷ log) = 1 + count_commands log
count_commands ((k, routed_barrier done) ∷ log) = count_commands log
count_commands ((k, routed_drain done) ∷ log) = count_commands log

-- The commands that a shard gets.
abbrev pub commands_to : ℕ → List (ℕ × Routed) → List Command
commands_to shard [] = []
commands_to shard ((k, routed_command cmd reply) ∷ log) =
    if k == shard then cmd ∷ commands_to shard log else commands_to shard log
commands_to shard ((k, routed_barrier done) ∷ log) = commands_to shard log
commands_to shard ((k, routed_drain done) ∷ log) = commands_to shard log

-- A command goes to the shard of its symbol.
abbrev pub GoesTo : (List ℕ → Option ℕ) → ℕ × Routed → Type 0
GoesTo router (k, routed_command cmd reply) = router cmd.symbol ≡ some k
GoesTo router (k, routed_barrier done) = Unit {0}
GoesTo router (k, routed_drain done) = Unit {0}

pub IsNumbered-append :
    (n : ℕ) (xs ys : List (ℕ × Routed))
    → IsNumbered n xs
    → IsNumbered (n + count_commands xs) ys
    → IsNumbered n (xs ++ ys)
IsNumbered-append n [] ys a b = subst (λ (k : ℕ). IsNumbered k ys) (omega arith) b
IsNumbered-append n ((k, routed_command cmd reply) ∷ xs) ys a b =
    (a.0, IsNumbered-append (n + 1) xs ys a.1 (subst (λ (k : ℕ). IsNumbered k ys) (omega arith) b))
IsNumbered-append n ((k, routed_barrier done) ∷ xs) ys a b = IsNumbered-append n xs ys a b
IsNumbered-append n ((k, routed_drain done) ∷ xs) ys a b = IsNumbered-append n xs ys a b

pub count_commands-append :
    (xs ys : List (ℕ × Routed)) → count_commands (xs ++ ys) ≡ count_commands xs + count_commands ys
count_commands-append [] ys = omega arith
count_commands-append ((k, routed_command cmd reply) ∷ xs) ys =
    omega (arith, count_commands-append xs ys)
count_commands-append ((k, routed_barrier done) ∷ xs) ys = count_commands-append xs ys
count_commands-append ((k, routed_drain done) ∷ xs) ys = count_commands-append xs ys

-- Messages with no command.
abbrev pub IsControl : List (ℕ × Routed) → Type 0
IsControl [] = Unit {0}
IsControl ((k, routed_command cmd reply) ∷ log) = ⊥
IsControl ((k, routed_barrier done) ∷ log) = IsControl log
IsControl ((k, routed_drain done) ∷ log) = IsControl log

IsControl-numbers :
    (router : List ℕ → Option ℕ) (n : ℕ) (log : List (ℕ × Routed))
    → IsControl log
    → IsNumbered n log × (count_commands log ≡ 0) × All (GoesTo router) log
IsControl-numbers router n [] c = (tt, refl, tt)
IsControl-numbers router n ((k, routed_command cmd reply) ∷ log) c = absurd c
IsControl-numbers router n ((k, routed_barrier done) ∷ log) c =
    let (a, b, g) = IsControl-numbers router n log c in (a, b, (tt, g))
IsControl-numbers router n ((k, routed_drain done) ∷ log) c =
    let (a, b, g) = IsControl-numbers router n log c in (a, b, (tt, g))

pub barriers-IsControl : (k n : ℕ) → IsControl (to_all routed_barrier k n)
unfolding to_all
barriers-IsControl k zero = tt
barriers-IsControl k (suc n) = barriers-IsControl (k + 1) n

pub drains-IsControl : (k n : ℕ) → IsControl (to_all routed_drain k n)
unfolding to_all
drains-IsControl k zero = tt
drains-IsControl k (suc n) = drains-IsControl (k + 1) n

module _ (first : ℕ) (router : List ℕ → Option ℕ) where
  pub record IsInOrder (s : Sequencer) : Type 0 where
    pub same_router : s.router ≡ router
    pub numbered : IsNumbered first s.routed
    pub next : s.next_seq ≡ (first + count_commands s.routed) % 2 ^ 64
    pub bounded : first + count_commands s.routed ≤ 2 ^ 64
    pub placed : All (GoesTo router) s.routed

  -- What the order depends on is the same.
  pub same-IsInOrder :
      (s s' : Sequencer)
      → s'.router ≡ s.router
      → s'.next_seq ≡ s.next_seq
      → s'.routed ≡ s.routed
      → IsInOrder s
      → IsInOrder s'
  same-IsInOrder s s' a b c i = record {
    same_router = a ∙ i.same_router;
    numbered = subst (IsNumbered first) (sym c) i.numbered;
    next =
        b
        ∙ i.next
        ∙ ap (λ (log : List (ℕ × Routed)). (first + count_commands log) % 2 ^ 64) (sym c);
    bounded =
        subst (λ (log : List (ℕ × Routed)). first + count_commands log ≤ 2 ^ 64) (sym c) i.bounded;
    placed = subst (All (GoesTo router)) (sym c) i.placed;
  }

  pub control-IsInOrder :
      (log : List (ℕ × Routed)) (s s' : Sequencer)
      → IsControl log
      → s'.router ≡ s.router
      → s'.next_seq ≡ s.next_seq
      → s'.routed ≡ s.routed ++ log
      → IsInOrder s
      → IsInOrder s'
  control-IsInOrder log s s' c a b r i =
      let (n, z, g) = IsControl-numbers router (first + count_commands s.routed) log c in
      let total : count_commands s'.routed ≡ count_commands s.routed =
        ap count_commands r ∙ omega (arith, count_commands-append s.routed log, z) in
      record {
        same_router = a ∙ i.same_router;
        numbered =
            subst (IsNumbered first) (sym r) (IsNumbered-append first s.routed log i.numbered n);
        next = b ∙ i.next ∙ ap (λ (k : ℕ). (first + k) % 2 ^ 64) (sym total);
        bounded = omega (arith, i.bounded, total);
        placed =
            subst (All (GoesTo router)) (sym r)
              (All-append (GoesTo router) s.routed log i.placed g);
      }
