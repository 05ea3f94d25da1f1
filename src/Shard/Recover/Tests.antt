-- ===== src/Shard/Recover/Tests.antt =====
-- The recovery of the run of the loop of a shard in Shard/Loop/Tests.antt, and the first number after it.
use matching_engine_go.Prelude.{
  ℕ, ◌<◌, ◌≡◌, ◌≢◌, refl, [], ◌∷◌, false, Option, none, some, inl, inr, ◌⊎◌, All, arith, add64,
}
use matching_engine_go.Ingress.{Error, routed_command}
use matching_engine_go.Ingress.Sequencer.{Sequencer, request_command, new_sequencer}
use matching_engine_go.Ingress.Sequencer.Run as Moves
use matching_engine_go.Shard.Loop.{complete_command}
use matching_engine_go.Shard.Loop.Sound.{records_of}
use matching_engine_go.Shard.Loop.Tests.{
  command, books, drained, good, start, command_event, drain_event, run, start-IsNew,
}
use matching_engine_go.Shard.Recover.{recover_records, non_monotonic, next_sequence}
use matching_engine_go.Shard.Recover.Replay.{recover_records-Run, recover_records-ne-non_monotonic}
use matching_engine_go.Shard.Recover.Delivered.{recover_records-new_sequencer}
use matching_engine_go.Shard.Recover.Sequence.{Contains, next_sequence-cases}

recover_records-Run_example :
    recover_records 0 (records_of drained.appended) books 4 4 ≡ some (inr (drained.books, 5))
unfolding complete_command
recover_records-Run_example =
    recover_records-Run good start (drain_event ∷ command_event ∷ []) drained start-IsNew run refl
      (omega arith, tt)

recover_records-ne-non_monotonic_example :
    recover_records 0 (records_of drained.appended) books 4 4 ≢ some (inl (non_monotonic 0 4 3))
recover_records-ne-non_monotonic_example =
    recover_records-ne-non_monotonic 0 (records_of drained.appended) books 4 0 4 3

next_sequence-cases_example :
    ((next_sequence (4 ∷ 9 ∷ []) ≢ 0) × All (λ w. w < next_sequence (4 ∷ 9 ∷ [])) (4 ∷ 9 ∷ []))
    ⊎ ((next_sequence (4 ∷ 9 ∷ []) ≡ 0) × Contains 0xffffffffffffffff (4 ∷ 9 ∷ []))
next_sequence-cases_example = next_sequence-cases (4 ∷ 9 ∷ []) (omega arith, (omega arith, tt))

next : next_sequence (4 ∷ 9 ∷ []) ≡ 10
unfolding next_sequence add64
next = refl

-- The sequencer that numbers the command of the run.
abbrev sequencer : Sequencer
sequencer = record {
  router = λ symbol. some 0;
  shard_count = 1;
  queue_size = 1;
  next_seq = 5;
  closed = false;
  is_closing = false;
  ingress_q = [];
  is_draining = false;
  is_done = false;
  rejected = 0;
  backpressured = 0;
  routed = [];
  sent = [];
  results = [];
}

abbrev fine : ℕ → Option Error
fine shard = none

abbrev asked : Sequencer
asked = record sequencer { ingress_q = request_command (record command { seq = 0 }) 1 ∷ [] }

abbrev numbered : Sequencer
numbered = record sequencer { next_seq = 6; routed = (0, routed_command command 1) ∷ [] }

moved :
    Moves.Run
      (new_sequencer 1 5 1 (λ symbol. some 0))
      (Moves.served fine ∷ Moves.submitted (record command { seq = 0 }) 1 ∷ [])
      numbered
unfolding new_sequencer Moves.enabled Moves.handle add64
moved =
    Moves.next {s = asked} (Moves.served fine)
      (Moves.next (Moves.submitted (record command { seq = 0 }) 1) Moves.here refl refl) refl refl

recover_records-new_sequencer_example :
    recover_records 0 (records_of drained.appended) books 4 4 ≡ some (inr (drained.books, 5))
unfolding complete_command
recover_records-new_sequencer_example =
    recover_records-new_sequencer 1 5 1 (λ symbol. some 0)
      (Moves.served fine ∷ Moves.submitted (record command { seq = 0 }) 1 ∷ []) numbered good start
      (drain_event ∷ command_event ∷ []) drained [] (omega arith) (omega arith) moved start-IsNew
      (omega arith) run refl refl
