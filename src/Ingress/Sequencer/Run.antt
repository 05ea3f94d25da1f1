-- ===== src/Ingress/Sequencer/Run.antt =====
-- The moves of the callers of the sequencer of internal/ingress/sequencer.go and of its goroutine, and
-- the sequences of them.
use matching_engine_go.Prelude.{
  ℕ, ◌≡◌, List, [], ◌∷◌, Bool, true, false, not, ◌&&◌, ◌||◌, Option, none, some,
}
use matching_engine_go.Model.{Command}
use matching_engine_go.Ingress.{Error}
use matching_engine_go.Ingress.Sequencer.{
  Sequencer, Request, request_barrier, request_drain, request_shutdown, has_room, enqueue,
  submit_blocking, submit_non_blocking, ask, mark_closed, serve,
}

-- A call of Shutdown marks the sequencer as closed, and then its request is taken by the queue, or its
-- context expires first.
pub data Event : Type 0 where
  submitted tried : Command → ℕ → Event
  asked_barrier asked_drain sent_shutdown : ℕ → Event
  called_shutdown expired_shutdown released : Event
  served : (ℕ → Option Error) → Event

abbrev pub is_empty : List Request → Bool
is_empty [] = true
is_empty (r ∷ rs) = false

-- A send to the queue waits for room. `run` takes a request where there is one, and waits during a drain.
unfoldable pub enabled : Event → Sequencer → Bool
enabled (submitted cmd reply) s = s.closed || has_room s
enabled (tried cmd reply) s = true
enabled (asked_barrier result) s = s.closed || has_room s
enabled (asked_drain result) s = s.closed || has_room s
enabled called_shutdown s = not s.closed
enabled (sent_shutdown done) s = s.is_closing && has_room s
enabled expired_shutdown s = s.is_closing
enabled released s = s.is_draining
enabled (served answers) s = not s.is_done && not s.is_draining && not (is_empty s.ingress_q)

-- `for req := range s.ingressQ`
unfoldable pub serve_next : (ℕ → Option Error) → List Request → Sequencer → Option Sequencer
unfolding serve
serve_next answers [] s = none
serve_next answers (req ∷ reqs) s = serve answers req (record s { ingress_q = reqs })

unfoldable pub handle : Event → Sequencer → Option Sequencer
unfolding serve_next submit_blocking submit_non_blocking ask mark_closed
handle (submitted cmd reply) s = some (submit_blocking cmd reply s).1
handle (tried cmd reply) s = some (submit_non_blocking cmd reply s).1
handle (asked_barrier result) s = some (ask (request_barrier result) s).1
handle (asked_drain result) s = some (ask (request_drain result) s).1
handle called_shutdown s = some (mark_closed s).0
handle (sent_shutdown done) s =
    some (enqueue (request_shutdown done) (record s { is_closing = false }))
handle expired_shutdown s = some (record s { is_closing = false })
handle released s = some (record s { is_draining = false })
handle (served answers) s = serve_next answers s.ingress_q s

-- The events that take the sequencer from a state to another, the last one first.
pub data Run (start : Sequencer) : List Event → Sequencer → Type 0 where
  here : Run start [] start
  next :
      {es : List Event} {s s' : Sequencer} (e : Event)
      → Run start es s
      → enabled e s ≡ true
      → handle e s ≡ some s'
      → Run start (e ∷ es) s'
