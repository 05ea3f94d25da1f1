-- ===== src/Ingress/Sequencer/Queue.antt =====
-- When the sequencer can no longer end.
use matching_engine_go.Prelude.{
  ℕ, ◌≡◌, refl, List, [], ◌∷◌, true, false, Option, some, inl, inr, sym, ◌∙◌, All,
}
use mathlib.Core.Path.{subst}
use matching_engine_go.Ingress.{Error}
use matching_engine_go.Ingress.Sequencer.{
  Sequencer, Request, request_command, request_barrier, request_drain, new_sequencer,
  submit_blocking, submit_non_blocking, ask,
}
use matching_engine_go.Ingress.Sequencer.Run.{
  Event, submitted, tried, asked_barrier, asked_drain, sent_shutdown, called_shutdown,
  expired_shutdown, released, served, serve_next, enabled, handle, Run, here, next,
}
use matching_engine_go.Ingress.Sequencer.Served.{IsEndless, IsServed, serve-IsServed}
use matching_engine_go.Ingress.Sequencer.Closing.{
  IsGuarded, IsStuck, ask-cases, try-cases, handle-IsGuarded,
}

-- A request at the head of the queue that does not end the sequencer is taken out, and nothing else is.
serve_next-IsServed :
    (answers : ℕ → Option Error) (reqs : List Request) (s s' : Sequencer)
    → All IsEndless reqs
    → serve_next answers reqs s ≡ some s'
    → (req : Request) × (rest : List Request) × (reqs ≡ req ∷ rest)
      × IsServed (record s { ingress_q = rest }) s'
unfolding serve_next
serve_next-IsServed answers [] s s' a h = absurd cc
serve_next-IsServed answers (req ∷ rest) s s' a h =
    (req, rest, refl, serve-IsServed answers req (record s { ingress_q = rest }) s' h a.0)

ask-IsStuck : (req : Request) (s : Sequencer) → IsStuck s → IsStuck (ask req s).1
ask-IsStuck req s k = elim (ask-cases req s) [
  | inl (c, e) ↦ subst IsStuck (sym e) k
  | inr (c, e) ↦ let o = k.0 in absurd cc
]

handle-IsStuck :
    (e : Event) (s s' : Sequencer)
    → enabled e s ≡ true
    → handle e s ≡ some s'
    → IsStuck s
    → IsStuck s'
unfolding handle enabled submit_blocking ask
handle-IsStuck (submitted cmd reply) s s' on h k =
    let q : (ask (request_command cmd reply) s).1 ≡ s' = cc in
    subst IsStuck q (ask-IsStuck (request_command cmd reply) s k)
handle-IsStuck (tried cmd reply) s s' on h k =
    let q : (submit_non_blocking cmd reply s).1 ≡ s' = cc in
    elim (try-cases cmd reply s) [
      | inl e ↦ subst IsStuck (sym e ∙ q) k
      | inr (c, e) ↦ let o = k.0 in absurd cc
    ]
handle-IsStuck (asked_barrier result) s s' on h k =
    let q : (ask (request_barrier result) s).1 ≡ s' = cc in
    subst IsStuck q (ask-IsStuck (request_barrier result) s k)
handle-IsStuck (asked_drain result) s s' on h k =
    let q : (ask (request_drain result) s).1 ≡ s' = cc in
    subst IsStuck q (ask-IsStuck (request_drain result) s k)
handle-IsStuck called_shutdown s s' on h k = let o = k.0 in absurd cc
handle-IsStuck (sent_shutdown done) s s' on h k = let o = k.1 in absurd cc
handle-IsStuck expired_shutdown s s' on h k = let o = k.1 in absurd cc
handle-IsStuck released s s' on h k =
    let q : record s { is_draining = false } ≡ s' = cc in subst IsStuck q k
handle-IsStuck (served answers) s s' on h k =
    let (req, rest, q, v) = serve_next-IsServed answers s.ingress_q s s' k.2.1 h in
    (
      v.closed ∙ k.0,
      v.is_closing ∙ k.1,
      (
        v.is_done ∙ k.2.0,
        subst (All IsEndless) (sym v.ingress_q) (subst (All IsEndless) q k.2.1).1,
      ),
    )

Run-IsStuck :
    (start : Sequencer) (es : List Event) (s : Sequencer)
    → IsStuck start
    → Run start es s
    → IsStuck s
Run-IsStuck start es s k here = k
Run-IsStuck start es s k (next {es = es'} {s = s0} e run on h) =
    handle-IsStuck e s0 s on h (Run-IsStuck start es' s0 k run)

Run-IsGuarded :
    (start : Sequencer) (es : List Event) (s : Sequencer)
    → IsGuarded start
    → Run start es s
    → IsGuarded s
Run-IsGuarded start es s g here = g
Run-IsGuarded start es s g (next {es = es'} {s = s0} e run on h) =
    handle-IsGuarded e s0 s on h (Run-IsGuarded start es' s0 g run)

new_sequencer-IsGuarded :
    (queue_size first shard_count : ℕ) (router : List ℕ → Option ℕ)
    → IsGuarded (new_sequencer queue_size first shard_count router)
unfolding new_sequencer
new_sequencer-IsGuarded queue_size first shard_count router = record {
  opened = λ c. (refl, (refl, tt));
  closing = λ k. absurd cc;
}

-- If the context of the call of Shutdown that closed the sequencer expires before the queue has taken its
-- request, then the sequencer stays closed and its goroutine never returns, whatever happens later:
-- no call of Shutdown succeeds any more.
pub Run-expired_shutdown :
    (queue_size first shard_count : ℕ) (router : List ℕ → Option ℕ) (es es' : List Event)
    (s s' t : Sequencer)
    → Run (new_sequencer queue_size first shard_count router) es s
    → enabled expired_shutdown s ≡ true
    → handle expired_shutdown s ≡ some s'
    → Run s' es' t
    → (t.closed ≡ true) × (t.is_done ≡ false)
unfolding handle enabled
Run-expired_shutdown queue_size first shard_count router es es' s s' t before on h later =
    let g =
      Run-IsGuarded (new_sequencer queue_size first shard_count router) es s
        (new_sequencer-IsGuarded queue_size first shard_count router) before in
    let (c, r) = g.closing on in
    let q : record s { is_closing = false } ≡ s' = cc in
    let k = Run-IsStuck s' es' t (subst IsStuck q (c, refl, r)) later in (k.0, k.2.0)
