-- ===== src/Ingress/Sequencer/Closing.antt =====
-- The queue of the sequencer, its end, and that its goroutine does not panic.
use matching_engine_go.Prelude.{
  ℕ, ◌+◌, ◌≡◌, refl, List, [], ◌∷◌, Bool, true, false, Option, none, some, ◌⊎◌, inl, inr,
  if◌then◌else◌, ap, sym, ◌∙◌, All, All-append, Bool-cases,
}
use mathlib.Core.Path.{subst}
use matching_engine_go.Model.{Command}
use matching_engine_go.Ingress.{Error, sequencer_closed}
use matching_engine_go.Ingress.Sequencer.{
  Sequencer, Request, request_command, request_barrier, request_drain, request_shutdown, has_room,
  enqueue, submit_blocking, submit_non_blocking, ask, mark_closed, serve,
}
use matching_engine_go.Ingress.Sequencer.Run.{
  Event, submitted, tried, asked_barrier, asked_drain, sent_shutdown, called_shutdown,
  expired_shutdown, released, served, serve_next, enabled, handle,
}
use matching_engine_go.Ingress.Sequencer.Served.{IsEndless, IsServed, serve-IsServed}

-- The sequencer runs and no request to end it is in the queue.
abbrev pub IsRunning : Sequencer → Type 0
IsRunning s = (s.is_done ≡ false) × All IsEndless s.ingress_q

-- A request to end is only sent by the call of Shutdown that closed the sequencer.
pub record IsGuarded (s : Sequencer) : Type 0 where
  pub opened : s.closed ≡ false → (s.is_closing ≡ false) × IsRunning s
  pub closing : s.is_closing ≡ true → (s.closed ≡ true) × IsRunning s

-- The sequencer is closed, and no call is left that would send the request to end.
abbrev pub IsStuck : Sequencer → Type 0
IsStuck s = (s.closed ≡ true) × (s.is_closing ≡ false) × IsRunning s

enqueue-IsGuarded :
    (req : Request) (s : Sequencer)
    → IsEndless req
    → s.closed ≡ false
    → IsGuarded s
    → IsGuarded (enqueue req s)
enqueue-IsGuarded req s n c g =
    let (closing, (done, endless)) = g.opened c in
    record {
      opened = λ o. (closing, (done, All-append IsEndless s.ingress_q (req ∷ []) endless (n, tt)));
      closing = λ k. absurd cc;
    }

if_true : {A : Type 0} (b : Bool) (x y : A) → b ≡ true → (if b then x else y) ≡ x
if_true true x y e = refl
if_true false x y e = absurd cc

if_false : {A : Type 0} (b : Bool) (x y : A) → b ≡ false → (if b then x else y) ≡ y
if_false false x y e = refl
if_false true x y e = absurd cc

abbrev Answer : Type 0
Answer = Option Error × Sequencer

pub ask-cases :
    (req : Request) (s : Sequencer)
    → ((s.closed ≡ true) × ((ask req s).1 ≡ s))
      ⊎ ((s.closed ≡ false) × ((ask req s).1 ≡ enqueue req s))
unfolding ask
ask-cases req s = elim (Bool-cases s.closed) [
  | inl c ↦
      inl
        (c, ap (λ (r : Answer). r.1) (if_true {A = Answer} s.closed (some sequencer_closed, s) _ c))
  | inr c ↦
      inr (c, ap (λ (r : Answer). r.1) (if_false {A = Answer} s.closed _ (none, enqueue req s) c))
]

pub try-cases :
    (cmd : Command) (reply : ℕ) (s : Sequencer)
    → ((submit_non_blocking cmd reply s).1 ≡ s)
      ⊎ ((s.closed ≡ false)
          × (((submit_non_blocking cmd reply s).1
                ≡ record s { backpressured = s.backpressured + 1 })
              ⊎ ((has_room s ≡ true)
                  × ((submit_non_blocking cmd reply s).1 ≡ enqueue (request_command cmd reply) s))))
unfolding submit_non_blocking
try-cases cmd reply s = elim (Bool-cases s.closed) [
  | inl c ↦
      inl (ap (λ (r : Answer). r.1) (if_true {A = Answer} s.closed (some sequencer_closed, s) _ c))
  | inr c ↦
      let e =
        ap (λ (r : Answer). r.1) (if_false {A = Answer} s.closed (some sequencer_closed, s) _ c) in
      inr (
        c,
        elim (Bool-cases (has_room s)) [
          | inl r ↦ inr (r, e ∙ ap (λ (r : Answer). r.1) (if_true {A = Answer} (has_room s) _ _ r))
          | inr r ↦ inl (e ∙ ap (λ (r : Answer). r.1) (if_false {A = Answer} (has_room s) _ _ r))
        ],
      )
]

ask-IsGuarded :
    (req : Request) (s : Sequencer) → IsEndless req → IsGuarded s → IsGuarded (ask req s).1
ask-IsGuarded req s n g = elim (ask-cases req s) [
  | inl (c, e) ↦ subst IsGuarded (sym e) g
  | inr (c, e) ↦ subst IsGuarded (sym e) (enqueue-IsGuarded req s n c g)
]

kept-IsGuarded :
    (req : Request) (reqs : List Request) (s s' : Sequencer)
    → s.ingress_q ≡ req ∷ reqs
    → IsServed (record s { ingress_q = reqs }) s'
    → IsGuarded s
    → IsGuarded s'
kept-IsGuarded req reqs s s' q v g = record {
  opened = λ c. let (k, r) = g.opened (sym v.closed ∙ c) in (v.is_closing ∙ k, running r);
  closing = λ k. let (c, r) = g.closing (sym v.is_closing ∙ k) in (v.closed ∙ c, running r);
}
  where
    running : IsRunning s → IsRunning s'
    running (done, endless) = (
      v.is_done ∙ done,
      subst (All IsEndless) (sym v.ingress_q) (subst (All IsEndless) q endless).1,
    )

serve_next-IsGuarded :
    (answers : ℕ → Option Error) (reqs : List Request) (s s' : Sequencer)
    → s.ingress_q ≡ reqs
    → serve_next answers reqs s ≡ some s'
    → IsGuarded s
    → IsGuarded s'
unfolding serve_next serve
serve_next-IsGuarded answers [] s s' q h g = absurd cc
serve_next-IsGuarded answers (request_shutdown done ∷ reqs) s s' q h g =
    let e : record s { ingress_q = reqs; is_done = true } ≡ s' = cc in
    let full : All IsEndless s.ingress_q → ⊥ = λ a. (subst (All IsEndless) q a).0 in
    subst IsGuarded e (record {
      opened = λ c. absurd (full (g.opened c).1.1);
      closing = λ c. absurd (full (g.closing c).1.1);
    })
serve_next-IsGuarded answers (request_command cmd reply ∷ reqs) s s' q h g =
    kept-IsGuarded (request_command cmd reply) reqs s s' q
      (serve-IsServed answers (request_command cmd reply) (record s { ingress_q = reqs }) s' h tt) g
serve_next-IsGuarded answers (request_barrier result ∷ reqs) s s' q h g =
    kept-IsGuarded (request_barrier result) reqs s s' q
      (serve-IsServed answers (request_barrier result) (record s { ingress_q = reqs }) s' h tt) g
serve_next-IsGuarded answers (request_drain result ∷ reqs) s s' q h g =
    kept-IsGuarded (request_drain result) reqs s s' q
      (serve-IsServed answers (request_drain result) (record s { ingress_q = reqs }) s' h tt) g

pub handle-IsGuarded :
    (e : Event) (s s' : Sequencer)
    → enabled e s ≡ true
    → handle e s ≡ some s'
    → IsGuarded s
    → IsGuarded s'
unfolding handle enabled submit_blocking ask mark_closed
handle-IsGuarded (submitted cmd reply) s s' on h g =
    let q : (ask (request_command cmd reply) s).1 ≡ s' = cc in
    subst IsGuarded q (ask-IsGuarded (request_command cmd reply) s tt g)
handle-IsGuarded (tried cmd reply) s s' on h g =
    let q : (submit_non_blocking cmd reply s).1 ≡ s' = cc in
    elim (try-cases cmd reply s) [
      | inl e ↦ subst IsGuarded (sym e ∙ q) g
      | inr (c, inl e) ↦
          subst IsGuarded (sym e ∙ q) (record { opened = g.opened; closing = g.closing })
      | inr (c, inr (r, e)) ↦
          subst IsGuarded (sym e ∙ q) (enqueue-IsGuarded (request_command cmd reply) s tt c g)
    ]
handle-IsGuarded (asked_barrier result) s s' on h g =
    let q : (ask (request_barrier result) s).1 ≡ s' = cc in
    subst IsGuarded q (ask-IsGuarded (request_barrier result) s tt g)
handle-IsGuarded (asked_drain result) s s' on h g =
    let q : (ask (request_drain result) s).1 ≡ s' = cc in
    subst IsGuarded q (ask-IsGuarded (request_drain result) s tt g)
handle-IsGuarded called_shutdown s s' on h g = elim (Bool-cases s.closed) [
  | inl c ↦ absurd cc
  | inr c ↦
      let e : (mark_closed s).0 ≡ record s { closed = true; is_closing = true } =
        ap (λ (r : Sequencer × Bool). r.0) (if_false {A = Sequencer × Bool} s.closed _ _ c) in
      let q : (mark_closed s).0 ≡ s' = cc in
      subst IsGuarded (sym e ∙ q)
        (record { opened = λ o. absurd cc; closing = λ k. (refl, (g.opened c).1) })
]
handle-IsGuarded (sent_shutdown done) s s' on h g = elim (Bool-cases s.is_closing) [
  | inr k ↦ absurd cc
  | inl k ↦
      let q : enqueue (request_shutdown done) (record s { is_closing = false }) ≡ s' = cc in
      let c = (g.closing k).0 in
      subst IsGuarded q (record { opened = λ o. absurd cc; closing = λ j. absurd cc })
]
handle-IsGuarded expired_shutdown s s' on h g =
    let q : record s { is_closing = false } ≡ s' = cc in
    let c = (g.closing on).0 in
    subst IsGuarded q (record { opened = λ o. absurd cc; closing = λ j. absurd cc })
handle-IsGuarded released s s' on h g =
    let q : record s { is_draining = false } ≡ s' = cc in
    subst IsGuarded q (record { opened = g.opened; closing = g.closing })
handle-IsGuarded (served answers) s s' on h g =
    serve_next-IsGuarded answers s.ingress_q s s' refl h g
