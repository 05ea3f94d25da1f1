-- ===== src/Ingress.antt =====
-- The messages of internal/ingress/sequencer.go and the error values that the engine hands to callers.
-- A channel for a reply is a number; it has room for the one value that it gets.
pub mod Sequencer
use matching_engine_go.Prelude.{ℕ, List}
use matching_engine_go.Model.{Command, Result}

-- The errors of internal/ingress and internal/shard. An error of the journal is its text.
pub data Error : Type 0 where
  backpressure sequencer_closed sequence_exhausted context_done : Error
  wal_append_failed wal_flush_failed wal_shutdown_failed : List ℕ → Error

-- model.Outcome: the result of a command, or an error.
pub data Outcome : Type 0 where
  replied : Result → Outcome
  failed : Error → Outcome

-- What the sequencer sends to a shard. A drain has the channel for its answer.
pub data Routed : Type 0 where
  routed_command : Command → ℕ → Routed
  routed_barrier routed_drain : ℕ → Routed
