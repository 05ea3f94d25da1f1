-- ===== src/Ingress/Sequencer/Serving.antt =====
-- Serving a request keeps the order of the numbers.
use matching_engine_go.Prelude.{
  ℕ, ◌+◌, ◌^◌, ◌<◌, ◌≡◌, ◌≢◌, refl, List, [], ◌∷◌, ◌++◌, true, false, Option, none, some, ◌==◌, ◌⊎◌,
  inl, inr, arith, ap, sym, All-append, Bool-cases, add64, ltb,
}
use mathlib.Core.Path.{subst}
use matching_engine_go.Model.{Command}
use matching_engine_go.Ingress.{
  Error, sequence_exhausted, Outcome, failed, replied, routed_command, routed_barrier, routed_drain,
}
use matching_engine_go.Ingress.Sequencer.{
  Sequencer, Request, request_command, request_barrier, request_drain, request_shutdown,
  number_command, route_command, to_all, first_err, unknown_symbol, serve,
}
use matching_engine_go.Ingress.Sequencer.Run.{serve_next}
use matching_engine_go.Ingress.Sequencer.Numbering.{
  count_commands, GoesTo, IsInOrder, IsNumbered-append, count_commands-append, same-IsInOrder,
  control-IsInOrder, barriers-IsControl, drains-IsControl,
}

positive_of : (n : ℕ) → (n == 0) ≡ false → n ≢ 0
positive_of n h e = ground arith

-- The case of a command gives an error on an exhausted sequence, or sends the command with the number.
pub number_command-cases :
    (k : ℕ) (cmd : Command) (reply : ℕ) (s s' : Sequencer)
    → number_command k cmd reply s ≡ some s'
    → ((sent : List (ℕ × Outcome)) × (s' ≡ record s { sent = sent }))
      ⊎ ((s.next_seq ≢ 0)
          × (s' ≡ record s {
            next_seq = add64 s.next_seq 1;
            routed = s.routed ++ (k, routed_command (record cmd { seq = s.next_seq }) reply) ∷ [];
          }))
unfolding number_command
number_command-cases k cmd reply s s' h = elim (Bool-cases (s.next_seq == 0)) [
  | inl z ↦
      let f = rw z at h in
      let g : record s { sent = s.sent ++ (reply, failed sequence_exhausted) ∷ [] } ≡ s' = cc in
      inl (s.sent ++ (reply, failed sequence_exhausted) ∷ [], sym g)
  | inr z ↦ elim (Bool-cases (ltb k s.shard_count)) [
    | inr t ↦ let f = rw t at (rw z at h) in absurd cc
    | inl t ↦
        let f = rw t at (rw z at h) in
        let g : record s {
          next_seq = add64 s.next_seq 1;
          routed = s.routed ++ (k, routed_command (record cmd { seq = s.next_seq }) reply) ∷ [];
        }
            ≡ s' =
          cc in
        inr (λ e. absurd (positive_of s.next_seq z e), sym g)
  ]
]

module _ (first : ℕ) (router : List ℕ → Option ℕ) where
  number_command-IsInOrder :
      (k : ℕ) (cmd : Command) (reply : ℕ) (s s' : Sequencer)
      → router cmd.symbol ≡ some k
      → number_command k cmd reply s ≡ some s'
      → IsInOrder first router s
      → IsInOrder first router s'
  unfolding add64
  number_command-IsInOrder k cmd reply s s' g h i = elim (number_command-cases k cmd reply s s' h) [
    | inl (sent, e) ↦
        subst (IsInOrder first router) (sym e)
          (same-IsInOrder first router s (record s { sent = sent }) refl refl refl i)
    | inr (positive, e) ↦
        let small : first + count_commands s.routed < 2 ^ 64 = grind (arith, i.next, i.bounded) in
        let total =
          count_commands-append s.routed
            ((k, routed_command (record cmd { seq = s.next_seq }) reply) ∷ []) in
        subst (IsInOrder first router) (sym e) (record {
          same_router = i.same_router;
          numbered =
              IsNumbered-append first s.routed
                ((k, routed_command (record cmd { seq = s.next_seq }) reply) ∷ []) i.numbered
                (omega (arith, i.next, small), tt);
          next = omega (arith, i.next, small, total);
          bounded = omega (arith, small, total);
          placed =
              All-append (GoesTo router) s.routed
                ((k, routed_command (record cmd { seq = s.next_seq }) reply) ∷ []) i.placed (g, tt);
        })
  ]

  route_command-IsInOrder :
      (found : Option ℕ) (cmd : Command) (reply : ℕ) (s s' : Sequencer)
      → router cmd.symbol ≡ found
      → route_command found cmd reply s ≡ some s'
      → IsInOrder first router s
      → IsInOrder first router s'
  unfolding route_command
  route_command-IsInOrder none cmd reply s s' g h i =
      let e : record s {
        rejected = s.rejected + 1;
        sent = s.sent ++ (reply, replied (unknown_symbol cmd)) ∷ [];
      }
          ≡ s' =
        cc in
      subst (IsInOrder first router) e (
        same-IsInOrder first router s
          (record s {
            rejected = s.rejected + 1;
            sent = s.sent ++ (reply, replied (unknown_symbol cmd)) ∷ [];
          })
          refl refl refl i)
  route_command-IsInOrder (some k) cmd reply s s' g h i =
      number_command-IsInOrder k cmd reply s s' g h i

  serve-IsInOrder :
      (answers : ℕ → Option Error) (req : Request) (s s' : Sequencer)
      → serve answers req s ≡ some s'
      → IsInOrder first router s
      → IsInOrder first router s'
  unfolding serve
  serve-IsInOrder answers (request_command cmd reply) s s' h i =
      route_command-IsInOrder (s.router cmd.symbol) cmd reply s s'
        (ap (λ (r : List ℕ → Option ℕ). r cmd.symbol) (sym i.same_router)) h i
  serve-IsInOrder answers (request_barrier result) s s' h i =
      let e : record s {
        routed = s.routed ++ to_all routed_barrier 0 s.shard_count;
        results = s.results ++ (result, first_err answers 0 s.shard_count) ∷ [];
      }
          ≡ s' =
        cc in
      control-IsInOrder first router (to_all routed_barrier 0 s.shard_count) s s'
        (barriers-IsControl 0 s.shard_count) (ap (λ (x : Sequencer). x.router) (sym e))
        (ap (λ (x : Sequencer). x.next_seq) (sym e)) (ap (λ (x : Sequencer). x.routed) (sym e)) i
  serve-IsInOrder answers (request_drain result) s s' h i =
      let e : record s {
        routed = s.routed ++ to_all routed_drain 0 s.shard_count;
        results = s.results ++ (result, first_err answers 0 s.shard_count) ∷ [];
        is_draining = true;
      }
          ≡ s' =
        cc in
      control-IsInOrder first router (to_all routed_drain 0 s.shard_count) s s'
        (drains-IsControl 0 s.shard_count) (ap (λ (x : Sequencer). x.router) (sym e))
        (ap (λ (x : Sequencer). x.next_seq) (sym e)) (ap (λ (x : Sequencer). x.routed) (sym e)) i
  serve-IsInOrder answers (request_shutdown done) s s' h i =
      let e : record s { is_done = true } ≡ s' = cc in
      subst (IsInOrder first router) e
        (same-IsInOrder first router s (record s { is_done = true }) refl refl refl i)

  pub serve_next-IsInOrder :
      (answers : ℕ → Option Error) (reqs : List Request) (s s' : Sequencer)
      → serve_next answers reqs s ≡ some s'
      → IsInOrder first router s
      → IsInOrder first router s'
  unfolding serve_next
  serve_next-IsInOrder answers [] s s' h i = absurd cc
  serve_next-IsInOrder answers (req ∷ reqs) s s' h i =
      serve-IsInOrder answers req (record s { ingress_q = reqs }) s' h
        (same-IsInOrder first router s (record s { ingress_q = reqs }) refl refl refl i)
