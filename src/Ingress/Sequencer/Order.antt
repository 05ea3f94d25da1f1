-- ===== src/Ingress/Sequencer/Order.antt =====
-- Every move of the sequencer keeps the order of the numbers.
use matching_engine_go.Prelude.{
  ℕ, ◌+◌, ◌^◌, ◌≤◌, ◌<◌, ◌≡◌, refl, List, [], ◌∷◌, Bool, true, false, Option, none, some, ◌==◌, ◌⊎◌,
  ◌↔◌, inl, inr, if◌then◌else◌, arith, ap, ◌∙◌, All, Bool-cases,
}
use mathlib.Core.Path.{subst}
use matching_engine_go.Ingress.{
  Error, sequencer_closed, backpressure, Routed, routed_command, routed_barrier, routed_drain,
}
use matching_engine_go.Recovery.{IsRising}
use matching_engine_go.Ingress.Sequencer.{
  Sequencer, request_command, request_barrier, request_drain, request_shutdown, has_room, enqueue,
  new_sequencer, submit_blocking, submit_non_blocking, ask, mark_closed, submit_blocking,
}
use matching_engine_go.Ingress.Sequencer.Run.{
  Event, submitted, tried, asked_barrier, asked_drain, sent_shutdown, called_shutdown,
  expired_shutdown, released, served, serve_next, handle, Run, here, next,
}
use matching_engine_go.Ingress.Sequencer.Numbering.{
  IsNumbered, count_commands, commands_to, GoesTo, IsInOrder, same-IsInOrder,
}
use matching_engine_go.Ingress.Sequencer.Serving.{serve_next-IsInOrder}

-- What a caller does leaves alone what `run` numbers and sends.
abbrev IsQuiet : Sequencer → Sequencer → Type 0
IsQuiet s s' = (s'.router ≡ s.router) × (s'.next_seq ≡ s.next_seq) × (s'.routed ≡ s.routed)

abbrev Returns : Sequencer → Option Error × Sequencer → Type 0
Returns s r = IsQuiet s r.1

refused-Returns :
    (b : Bool) (s : Sequencer) (other : Option Error × Sequencer)
    → Returns s other
    → Returns s (if b then (some sequencer_closed, s) else other)
refused-Returns true s other q = (refl, refl, refl)
refused-Returns false s other q = q

full-Returns :
    (b : Bool) (s : Sequencer) (one other : Option Error × Sequencer)
    → Returns s one
    → Returns s other
    → Returns s (if b then one else other)
full-Returns true s one other p q = p
full-Returns false s one other p q = q

abbrev Marks : Sequencer → Sequencer × Bool → Type 0
Marks s r = IsQuiet s r.0

marked-IsQuiet :
    (b : Bool) (s : Sequencer)
    → Marks s (if b then (s, false) else (record s { closed = true; is_closing = true }, true))
marked-IsQuiet true s = (refl, refl, refl)
marked-IsQuiet false s = (refl, refl, refl)

handle-IsQuiet :
    (e : Event) (s s' : Sequencer)
    → handle e s ≡ some s'
    → IsQuiet s s' ⊎ ((answers : ℕ → Option Error) × (serve_next answers s.ingress_q s ≡ some s'))
unfolding handle submit_blocking submit_non_blocking ask mark_closed
handle-IsQuiet (submitted cmd reply) s s' h =
    let q : (submit_blocking cmd reply s).1 ≡ s' = cc in
    inl (
      subst (IsQuiet s) q (
        refused-Returns s.closed s (none, enqueue (request_command cmd reply) s)
          (refl, refl, refl)))
handle-IsQuiet (tried cmd reply) s s' h =
    let q : (submit_non_blocking cmd reply s).1 ≡ s' = cc in
    inl (
      subst (IsQuiet s) q (
        refused-Returns s.closed s _ (
          full-Returns (has_room s) s (none, enqueue (request_command cmd reply) s)
            (some backpressure, record s { backpressured = s.backpressured + 1 }) (refl, refl, refl)
            (refl, refl, refl))))
handle-IsQuiet (asked_barrier result) s s' h =
    let q : (ask (request_barrier result) s).1 ≡ s' = cc in
    inl (
      subst (IsQuiet s) q
        (refused-Returns s.closed s (none, enqueue (request_barrier result) s) (refl, refl, refl)))
handle-IsQuiet (asked_drain result) s s' h =
    let q : (ask (request_drain result) s).1 ≡ s' = cc in
    inl (
      subst (IsQuiet s) q
        (refused-Returns s.closed s (none, enqueue (request_drain result) s) (refl, refl, refl)))
handle-IsQuiet called_shutdown s s' h =
    let q : (mark_closed s).0 ≡ s' = cc in inl (subst (IsQuiet s) q (marked-IsQuiet s.closed s))
handle-IsQuiet (sent_shutdown done) s s' h =
    let q : enqueue (request_shutdown done) (record s { is_closing = false }) ≡ s' = cc in
    inl (subst (IsQuiet s) q (refl, refl, refl))
handle-IsQuiet expired_shutdown s s' h =
    let q : record s { is_closing = false } ≡ s' = cc in
    inl (subst (IsQuiet s) q (refl, refl, refl))
handle-IsQuiet released s s' h =
    let q : record s { is_draining = false } ≡ s' = cc in
    inl (subst (IsQuiet s) q (refl, refl, refl))
handle-IsQuiet (served answers) s s' h = inr (answers, h)

handle-IsInOrder :
    (first : ℕ) (router : List ℕ → Option ℕ) (e : Event) (s s' : Sequencer)
    → handle e s ≡ some s'
    → IsInOrder first router s
    → IsInOrder first router s'
handle-IsInOrder first router e s s' h i = elim (handle-IsQuiet e s s' h) [
  | inl (a, b, c) ↦ same-IsInOrder first router s s' a b c i
  | inr (answers, g) ↦ serve_next-IsInOrder first router answers s.ingress_q s s' g i
]

Run-IsInOrder :
    (first : ℕ) (router : List ℕ → Option ℕ) (start : Sequencer) (es : List Event) (s : Sequencer)
    → IsInOrder first router start
    → Run start es s
    → IsInOrder first router s
Run-IsInOrder first router start es s i here = i
Run-IsInOrder first router start es s i (next {es = es'} {s = s0} e run on h) =
    handle-IsInOrder first router e s0 s h (Run-IsInOrder first router start es' s0 i run)

IsRising-from :
    (shard n first : ℕ) (log : List (ℕ × Routed))
    → n < first
    → IsNumbered first log
    → IsRising n (commands_to shard log)
IsRising-from shard n first [] l i = tt
IsRising-from shard n first ((k, routed_command cmd reply) ∷ log) l (e, i) =
    elim (Bool-cases (k == shard)) [
      | inl t ↦
          rw t
            (omega (arith, e, l), IsRising-from shard cmd.seq (first + 1) log (omega (arith, e)) i)
      | inr t ↦ rw t (IsRising-from shard n (first + 1) log (omega (arith, l)) i)
    ]
IsRising-from shard n first ((k, routed_barrier done) ∷ log) l i =
    IsRising-from shard n first log l i
IsRising-from shard n first ((k, routed_drain done) ∷ log) l i = IsRising-from shard n first log l i

new_sequencer-IsInOrder :
    (queue_size first shard_count : ℕ) (router : List ℕ → Option ℕ)
    → 0 < first
    → first < 2 ^ 64
    → IsInOrder first router (new_sequencer queue_size first shard_count router)
unfolding new_sequencer
new_sequencer-IsInOrder queue_size first shard_count router p f = record {
  same_router = refl;
  numbered = tt;
  next =
      let z : (first == 0) ≡ false = ground arith in
      ap (λ (b : Bool). if b then 1 else first) z ∙ omega (arith, f);
  bounded = omega arith;
  placed = tt;
}

-- The sequencer numbers the commands that it sends to shards one after the other from the initial number
-- on, up to 2 ^ 64 - 1 and never past it; each goes to the shard that the router gives for its symbol, so
-- that every shard gets rising numbers, above any number below the initial one. The next number is 0,
-- which stops the numbering, exactly when all are used up.
pub Run-new_sequencer :
    (queue_size first shard_count : ℕ) (router : List ℕ → Option ℕ) (es : List Event)
    (s : Sequencer)
    → 0 < first
    → first < 2 ^ 64
    → Run (new_sequencer queue_size first shard_count router) es s
    → IsNumbered first s.routed
      × All (GoesTo router) s.routed
      × ((shard n : ℕ) → n < first → IsRising n (commands_to shard s.routed))
      × (first + count_commands s.routed ≤ 2 ^ 64)
      × ((s.next_seq ≡ 0) ↔ (first + count_commands s.routed ≡ 2 ^ 64))
Run-new_sequencer queue_size first shard_count router es s p f run =
    let i =
      Run-IsInOrder first router (new_sequencer queue_size first shard_count router) es s
        (new_sequencer-IsInOrder queue_size first shard_count router p f) run in
    (
      i.numbered,
      i.placed,
      λ shard n l. IsRising-from shard n first s.routed l i.numbered,
      i.bounded,
      (λ e. grind (arith, e, i.next, i.bounded, p), λ e. grind (arith, e, i.next)),
    )
