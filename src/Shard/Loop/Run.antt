-- ===== src/Shard/Loop/Run.antt =====
-- The select of run in internal/shard/loop.go: the events that it takes, when it may take them, and the
-- sequences of them.
use matching_engine_go.Prelude.{
  ℕ, ◌≡◌, List, [], ◌∷◌, ◌++◌, Bool, true, false, not, ◌&&◌, Option, none, some, length, ltb,
}
use matching_engine_go.Ingress.{
  Error, wal_shutdown_failed, Routed, routed_command, routed_barrier, routed_drain,
}
use matching_engine_go.Shard.Loop.{
  PendingCommand, Loop, WalAnswers, enqueue_command, complete_next, flush_pending,
}

-- The cases of the select, the end of a drain, and the end of the loop with the answer to Shutdown.
pub data LoopEvent : Type 0 where
  received : Routed → WalAnswers → LoopEvent
  inbox_closed acked released : LoopEvent
  finished : Option (List ℕ) → LoopEvent

abbrev pub is_empty : List PendingCommand → Bool
is_empty [] = true
is_empty (p ∷ ps) = false

-- Whether the select may take an event, where others offer it; that they do is not said here: the inbox is read while it is open and fewer than
-- maxPendingCommands wait, an ack while a command waits, and nothing during a drain; the loop
-- ends when the inbox is closed and no command waits.
unfoldable pub enabled : LoopEvent → Loop → Bool
enabled (received msg w) l =
    not l.is_done && not l.is_draining && l.is_open && ltb (length l.pending) 1024
enabled inbox_closed l =
    not l.is_done && not l.is_draining && l.is_open && ltb (length l.pending) 1024
enabled acked l = not l.is_done && not l.is_draining && not (is_empty l.pending)
enabled released l = l.is_draining
enabled (finished w) l = not l.is_done && not l.is_draining && not l.is_open && is_empty l.pending

-- `msg.BarrierDone <- ...` of the result of flushPending.
abbrev pub answer_to : ℕ → Option Error × Loop → Loop
answer_to done r = record r.1 { answers = r.1.answers ++ (done, r.0) ∷ [] }

-- The deferred call of Shutdown, by its answer, the error kept and whether there is a writer.
unfoldable pub shut_down : Option (List ℕ) → Option Error → Bool → Loop → Loop
shut_down (some e) none true l = record l { failed_err = some (wal_shutdown_failed e) }
shut_down _ _ _ l = l

-- The next ack, where it is that of a pending command.
unfoldable pub handle_ack : (ℕ → Option (List ℕ)) → List PendingCommand → Loop → Option Loop
unfolding complete_next
handle_ack acks [] l = none
handle_ack acks (command ∷ others) l = some (complete_next command others (acks command.ack) l)

unfoldable pub handle : (ℕ → Option (List ℕ)) → LoopEvent → Loop → Option Loop
unfolding enqueue_command flush_pending handle_ack shut_down
handle acks (received (routed_command cmd reply) w) l = enqueue_command w.append cmd reply l
handle acks (received (routed_barrier done) w) l =
    some (answer_to done (flush_pending acks w.flush l))
handle acks (received (routed_drain done) w) l =
    some (record (answer_to done (flush_pending acks w.flush l)) { is_draining = true })
handle acks inbox_closed l = some (record l { is_open = false })
handle acks acked l = handle_ack acks l.pending l
handle acks released l = some (record l { is_draining = false })
handle acks (finished answer) l =
    some (record (shut_down answer l.failed_err l.has_wal l) { is_done = true })

-- The events that take the loop from a state to another, the last one first.
pub data Run (acks : ℕ → Option (List ℕ)) (start : Loop) : List LoopEvent → Loop → Type 0 where
  here : Run acks start [] start
  next :
      {es : List LoopEvent} {l l' : Loop} (e : LoopEvent)
      → Run acks start es l
      → enabled e l ≡ true
      → handle acks e l ≡ some l'
      → Run acks start (e ∷ es) l'
