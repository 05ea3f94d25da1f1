-- ===== src/Ingress/Sequencer.antt =====
-- internal/ingress/sequencer.go. What the goroutine of the sequencer and its callers share is a state,
-- and each move of one of them an event. The messages to the shards are kept with their shard, first to
-- last, and so are the replies and the results of barriers and drains. What a shard answers to a
-- barrier or a drain comes with the event. The gauges of the depths of queues are left out, and a send to
-- the inbox of a shard, which may have to wait for room, is one step with what follows. `none` is a panic.
pub mod Run
pub mod Numbering
pub mod Serving
pub mod Order
pub mod Served
pub mod Closing
pub mod Queue
pub mod Requests
pub mod Tests
use matching_engine_go.Prelude.{
  ℕ, zero, suc, ◌+◌, List, [], ◌∷◌, ◌++◌, Bool, true, false, Option, none, some, ◌==◌,
  if◌then◌else◌, length, ltb, add64,
}
use matching_engine_go.Model.{Command, Result, reject_invalid_symbol}
use matching_engine_go.Ingress.{
  Error, backpressure, sequencer_closed, sequence_exhausted, Outcome, replied, failed, Routed,
  routed_command, routed_barrier, routed_drain,
}
use matching_engine_go.Book.Handlers

-- A request in the queue, with the channel for its answer.
pub data Request : Type 0 where
  request_command : Command → ℕ → Request
  request_barrier request_drain request_shutdown : ℕ → Request

pub record Sequencer : Type 0 where
  -- ShardFor of the router, and the number of inboxes
  pub router : List ℕ → Option ℕ
  pub shard_count : ℕ
  pub queue_size : ℕ
  pub next_seq : ℕ
  pub closed : Bool
  -- whether a call of Shutdown waits for room in the queue
  pub is_closing : Bool
  pub ingress_q : List Request
  -- whether `run` waits for the end of a drain, and whether it has returned
  pub is_draining : Bool
  pub is_done : Bool
  -- what the metrics count
  pub rejected : ℕ
  pub backpressured : ℕ
  -- what was sent
  pub routed : List (ℕ × Routed)
  pub sent : List (ℕ × Outcome)
  pub results : List (ℕ × Option Error)

-- NewSequencer
unfoldable pub new_sequencer : ℕ → ℕ → ℕ → (List ℕ → Option ℕ) → Sequencer
new_sequencer queue_size initial_sequence shard_count router = record {
  router = router;
  shard_count = shard_count;
  queue_size = queue_size;
  next_seq = if initial_sequence == 0 then 1 else initial_sequence;
  closed = false;
  is_closing = false;
  ingress_q = [];
  is_draining = false;
  is_done = false;
  rejected = 0;
  backpressured = 0;
  routed = [];
  sent = [];
  results = [];
}

-- `s.ingressQ <- req`
abbrev pub enqueue : Request → Sequencer → Sequencer
enqueue req s = record s { ingress_q = s.ingress_q ++ req ∷ [] }

abbrev pub has_room : Sequencer → Bool
has_room s = ltb (length s.ingress_q) s.queue_size

-- SubmitBlocking, where the queue takes the request before the context ends.
unfoldable pub submit_blocking : Command → ℕ → Sequencer → Option Error × Sequencer
submit_blocking cmd reply s =
    if s.closed then (some sequencer_closed, s) else (none, enqueue (request_command cmd reply) s)

unfoldable pub submit_non_blocking : Command → ℕ → Sequencer → Option Error × Sequencer
submit_non_blocking cmd reply s =
    if s.closed
    then (some sequencer_closed, s)
    else if has_room s
    then (none, enqueue (request_command cmd reply) s)
    else (some backpressure, record s { backpressured = s.backpressured + 1 })

-- Barrier and AcquireDrain up to the queue, where it takes the request before the context ends.
unfoldable pub ask : Request → Sequencer → Option Error × Sequencer
ask req s = if s.closed then (some sequencer_closed, s) else (none, enqueue req s)

-- markClosed; the call of Shutdown that gets true goes on to send its request.
unfoldable pub mark_closed : Sequencer → Sequencer × Bool
mark_closed s =
    if s.closed then (s, false) else (record s { closed = true; is_closing = true }, true)

-- The case of a command in run, from the shard that the router gives.
unfoldable pub number_command : ℕ → Command → ℕ → Sequencer → Option Sequencer
number_command shard_id cmd reply s =
    if s.next_seq == 0
    then some (record s { sent = s.sent ++ (reply, failed sequence_exhausted) ∷ [] })
    else if ltb shard_id s.shard_count
    then some (record s {
      next_seq = add64 s.next_seq 1;
      routed = s.routed ++ (shard_id, routed_command (record cmd { seq = s.next_seq }) reply) ∷ [];
    })
    else none

abbrev pub unknown_symbol : Command → Result
unknown_symbol cmd = record {
  command_seq = 0;
  events = Handlers.rejected reject_invalid_symbol cmd.order_id ∷ [];
}

unfoldable pub route_command : Option ℕ → Command → ℕ → Sequencer → Option Sequencer
unfolding number_command
route_command none cmd reply s = some (record s {
  rejected = s.rejected + 1;
  sent = s.sent ++ (reply, replied (unknown_symbol cmd)) ∷ [];
})
route_command (some shard_id) cmd reply s = number_command shard_id cmd reply s

-- The loops over the inboxes in run, from a shard on for some more shards: the messages, and the first
-- error among the answers.
unfoldable pub to_all : (ℕ → Routed) → ℕ → ℕ → List (ℕ × Routed)
to_all message shard_id zero = []
to_all message shard_id (suc n) = (shard_id, message shard_id) ∷ to_all message (shard_id + 1) n

unfoldable pub first_err : (ℕ → Option Error) → ℕ → ℕ → Option Error
first_err answers shard_id zero = none
first_err answers shard_id (suc n) =
    let later = first_err answers (shard_id + 1) n in
    elim (answers shard_id) [ some err ↦ some err | none ↦ later ]

-- One round of run at a request. The channel that a shard answers on is that of its number.
unfoldable pub serve : (ℕ → Option Error) → Request → Sequencer → Option Sequencer
unfolding route_command to_all first_err
serve answers (request_command cmd reply) s = route_command (s.router cmd.symbol) cmd reply s
serve answers (request_barrier result) s = some (record s {
  routed = s.routed ++ to_all routed_barrier 0 s.shard_count;
  results = s.results ++ (result, first_err answers 0 s.shard_count) ∷ [];
})
serve answers (request_drain result) s = some (record s {
  routed = s.routed ++ to_all routed_drain 0 s.shard_count;
  results = s.results ++ (result, first_err answers 0 s.shard_count) ∷ [];
  is_draining = true;
})
serve answers (request_shutdown done) s = some (record s { is_done = true })
