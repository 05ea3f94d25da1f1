-- ===== src/Ingress/Sequencer/Tests.antt =====
-- The sequencer at a queue with room for one request: a command is numbered and sent, and a call of
-- Shutdown expires while another command holds the queue.
use matching_engine_go.Prelude.{
  ℕ, ◌+◌, ◌^◌, ◌≤◌, ◌<◌, ◌≡◌, ◌↔◌, refl, List, [], ◌∷◌, true, false, Option, none, some, All, arith,
  add64,
}
use matching_engine_go.Model.{Command}
use matching_engine_go.Ingress.{Error, backpressure, routed_command}
use matching_engine_go.Recovery.{IsRising}
use matching_engine_go.Ingress.Sequencer.{
  Sequencer, request_command, new_sequencer, submit_non_blocking, number_command,
}
use matching_engine_go.Ingress.Sequencer.Run.{
  submitted, called_shutdown, expired_shutdown, served, enabled, handle, Run, here, next,
}
use matching_engine_go.Ingress.Sequencer.Numbering.{IsNumbered, GoesTo, commands_to, count_commands}
use matching_engine_go.Ingress.Sequencer.Order.{Run-new_sequencer}
use matching_engine_go.Shard.Loop.Replies.{sent_on}
use matching_engine_go.Ingress.Sequencer.Requests.{routed_on, queued_on, taken_on, Run-found_on}
use matching_engine_go.Ingress.Sequencer.Queue.{Run-expired_shutdown}

abbrev command : Command
command = record {
  seq = 0;
  symbol = 65 ∷ [];
  type = 1;
  order_id = 1;
  side = 1;
  order_type = 1;
  time_in_force = 1;
  price = 100;
  quantity = 5;
  new_price = 0;
  new_leaves_qty = 0;
}

abbrev router : List ℕ → Option ℕ
router symbol = some 1

abbrev fine : ℕ → Option Error
fine shard = none

abbrev start : Sequencer
start = record {
  router = router;
  shard_count = 2;
  queue_size = 1;
  next_seq = 5;
  closed = false;
  is_closing = false;
  ingress_q = [];
  is_draining = false;
  is_done = false;
  rejected = 0;
  backpressured = 0;
  routed = [];
  sent = [];
  results = [];
}

made : new_sequencer 1 5 2 router ≡ start
unfolding new_sequencer
made = refl

abbrev waiting : Sequencer
waiting = record start { ingress_q = request_command command 1 ∷ [] }

abbrev numbered : Sequencer
numbered = record start {
  next_seq = 6;
  routed = (1, routed_command (record command { seq = 5 }) 1) ∷ [];
}

run : Run (new_sequencer 1 5 2 router) (served fine ∷ submitted command 1 ∷ []) numbered
unfolding new_sequencer enabled handle add64
run = next {s = waiting} (served fine) (next (submitted command 1) here refl refl) refl refl

-- A full queue refuses a second command.
full : (submit_non_blocking command 2 waiting).0 ≡ some backpressure
unfolding submit_non_blocking
full = refl

-- The last number is given, and then none.
last :
    number_command 1 command 1 (record start { next_seq = 0xffffffffffffffff })
    ≡ some (record start {
      next_seq = 0;
      routed = (1, routed_command (record command { seq = 0xffffffffffffffff }) 1) ∷ [];
    })
unfolding number_command add64
last = refl

Run-new_sequencer_example :
    IsNumbered 5 numbered.routed
    × All (GoesTo router) numbered.routed
    × ((shard n : ℕ) → n < 5 → IsRising n (commands_to shard numbered.routed))
    × (5 + count_commands numbered.routed ≤ 2 ^ 64)
    × ((numbered.next_seq ≡ 0) ↔ (5 + count_commands numbered.routed ≡ 2 ^ 64))
Run-new_sequencer_example =
    Run-new_sequencer 1 5 2 router (served fine ∷ submitted command 1 ∷ []) numbered (omega arith)
      (omega arith) run

abbrev closing : Sequencer
closing = record waiting { closed = true; is_closing = true }

abbrev stuck : Sequencer
stuck = record waiting { closed = true }

abbrev ended : Sequencer
ended = record numbered { closed = true }

run_waiting : Run (new_sequencer 1 5 2 router) (submitted command 1 ∷ []) waiting
unfolding new_sequencer enabled handle
run_waiting = next (submitted command 1) here refl refl

Run-found_on_example :
    sent_on 1 numbered.sent + routed_on 1 numbered.routed + queued_on 1 numbered.ingress_q
    ≡ taken_on 1 run
Run-found_on_example =
    Run-found_on 1 5 2 router (served fine ∷ submitted command 1 ∷ []) numbered 1 run

run_closing : Run (new_sequencer 1 5 2 router) (called_shutdown ∷ submitted command 1 ∷ []) closing
unfolding enabled handle
run_closing = next called_shutdown run_waiting refl refl

expired : handle expired_shutdown closing ≡ some stuck
unfolding handle
expired = refl

can_expire : enabled expired_shutdown closing ≡ true
unfolding enabled
can_expire = refl

run_ended : Run stuck (served fine ∷ []) ended
unfolding enabled handle add64
run_ended = next (served fine) here refl refl

Run-expired_shutdown_example : (ended.closed ≡ true) × (ended.is_done ≡ false)
Run-expired_shutdown_example =
    Run-expired_shutdown 1 5 2 router (called_shutdown ∷ submitted command 1 ∷ [])
      (served fine ∷ []) closing stuck ended run_closing can_expire expired run_ended
