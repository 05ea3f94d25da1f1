-- ===== src/Ingress/Sequencer/Served.antt =====
-- A request that is served, and the flags of the sequencer.
use matching_engine_go.Prelude.{
  ℕ, ◌+◌, ◌≡◌, refl, [], ◌∷◌, ◌++◌, true, Option, none, some, inl, inr, sym,
}
use mathlib.Core.Path.{subst}
use matching_engine_go.Model.{Command}
use matching_engine_go.Ingress.{Error, replied, routed_barrier, routed_drain}
use matching_engine_go.Ingress.Sequencer.{
  Sequencer, Request, request_command, request_barrier, request_drain, request_shutdown,
  route_command, serve, to_all, first_err, unknown_symbol,
}
use matching_engine_go.Ingress.Sequencer.Serving.{number_command-cases}

-- No request to end is in the queue.
abbrev pub IsEndless : Request → Type 0
IsEndless (request_command cmd reply) = Unit {0}
IsEndless (request_barrier result) = Unit {0}
IsEndless (request_drain result) = Unit {0}
IsEndless (request_shutdown done) = ⊥

-- A request that does not end the sequencer leaves its flags and its queue.
pub record IsServed (s s' : Sequencer) : Type 0 where
  pub queue_size : s'.queue_size ≡ s.queue_size
  pub closed : s'.closed ≡ s.closed
  pub is_closing : s'.is_closing ≡ s.is_closing
  pub is_done : s'.is_done ≡ s.is_done
  pub ingress_q : s'.ingress_q ≡ s.ingress_q

route_command-IsServed :
    (found : Option ℕ) (cmd : Command) (reply : ℕ) (s s' : Sequencer)
    → route_command found cmd reply s ≡ some s'
    → IsServed s s'
unfolding route_command
route_command-IsServed none cmd reply s s' h =
    let e : record s {
      rejected = s.rejected + 1;
      sent = s.sent ++ (reply, replied (unknown_symbol cmd)) ∷ [];
    }
        ≡ s' =
      cc in
    subst (IsServed s) e (record {
      queue_size = refl;
      closed = refl;
      is_closing = refl;
      is_done = refl;
      ingress_q = refl;
    })
route_command-IsServed (some k) cmd reply s s' h = elim (number_command-cases k cmd reply s s' h) [
  | inl (sent, e) ↦ subst (IsServed s) (sym e) (record {
    queue_size = refl;
    closed = refl;
    is_closing = refl;
    is_done = refl;
    ingress_q = refl;
  })
  | inr (positive, e) ↦ subst (IsServed s) (sym e) (record {
    queue_size = refl;
    closed = refl;
    is_closing = refl;
    is_done = refl;
    ingress_q = refl;
  })
]

pub serve-IsServed :
    (answers : ℕ → Option Error) (req : Request) (s s' : Sequencer)
    → serve answers req s ≡ some s'
    → IsEndless req
    → IsServed s s'
unfolding serve
serve-IsServed answers (request_command cmd reply) s s' h n =
    route_command-IsServed (s.router cmd.symbol) cmd reply s s' h
serve-IsServed answers (request_barrier result) s s' h n =
    let e : record s {
      routed = s.routed ++ to_all routed_barrier 0 s.shard_count;
      results = s.results ++ (result, first_err answers 0 s.shard_count) ∷ [];
    }
        ≡ s' =
      cc in
    subst (IsServed s) e (record {
      queue_size = refl;
      closed = refl;
      is_closing = refl;
      is_done = refl;
      ingress_q = refl;
    })
serve-IsServed answers (request_drain result) s s' h n =
    let e : record s {
      routed = s.routed ++ to_all routed_drain 0 s.shard_count;
      results = s.results ++ (result, first_err answers 0 s.shard_count) ∷ [];
      is_draining = true;
    }
        ≡ s' =
      cc in
    subst (IsServed s) e (record {
      queue_size = refl;
      closed = refl;
      is_closing = refl;
      is_done = refl;
      ingress_q = refl;
    })
serve-IsServed answers (request_shutdown done) s s' h n = absurd n
