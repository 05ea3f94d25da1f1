-- ===== src/Shard/Loop/Tests.antt =====
-- The loop of a shard at one command: it is appended, acknowledged, and then the shard is drained.
use matching_engine_go.Prelude.{
  ℕ, ◌+◌, ◌%◌, ◌^◌, ◌≡◌, refl, List, [], ◌∷◌, true, none, some, inl, inr, All, arith, eq_bytes,
  if◌then◌else◌, Option, Bool-cases, sym,
}
use matching_engine_go.Model.{Command, Result, IsCommand, validate, validation_reject_reason}
use matching_engine_go.Ingress.{routed_command, routed_drain}
use matching_engine_go.Book.State.{new, new_side_book}
use matching_engine_go.Book.Reachable.{empty, empty-IsValid}
use matching_engine_go.Book.Handlers
use matching_engine_go.Journal.Codec.{Record}
use matching_engine_go.Recovery.{Books, run_commands, put_book}
use matching_engine_go.Shard.Loop.{
  Loop, WalAnswers, first_state, record_of, enqueue_command, complete_command, flush_pending,
}
use matching_engine_go.Shard.Loop.Run.{LoopEvent, received, enabled, handle, Run, here, next}
use matching_engine_go.Shard.Loop.Replies.{sent_on, waiting_on, asked_on, Run-replies}
use matching_engine_go.Shard.Loop.Sound.{commands_of, records_of, last_seq}
use matching_engine_go.Shard.Loop.Durable.{
  IsNew, IsSafeReply, Run-IsSafeReply, drained-run_commands,
}
use matching_engine_go.Shard.Loop.Waits.{IsOwed}
use matching_engine_go.Shard.Loop.Progress.{AreValid, Fits, Run-progress}

-- A command whose type is none, and what Apply gives for it.
abbrev pub command : Command
command = record {
  seq = 5;
  symbol = 65 ∷ [];
  type = 9;
  order_id = 1;
  side = 0;
  order_type = 0;
  time_in_force = 0;
  price = 0;
  quantity = 0;
  new_price = 0;
  new_leaves_qty = 0;
}

abbrev pub result : Result
result = record { command_seq = 5; events = Handlers.rejected 12 1 ∷ [] }

abbrev pub books : Books
books key = if eq_bytes key (65 ∷ []) then some (new (65 ∷ [])) else none

abbrev pub start : Loop
start = first_state 0 true 4 books

abbrev pub answers : WalAnswers
answers = record { append = inr 7; flush = none }

abbrev pub good : ℕ → Option (List ℕ)
good ack = none

abbrev pub command_event : LoopEvent
command_event = received (routed_command command 1) answers

abbrev pub drain_event : LoopEvent
drain_event = received (routed_drain 2) answers

abbrev pub waiting : Loop
waiting = record start {
  books = put_book books (65 ∷ []) (new (65 ∷ []));
  pending = record { sequence = 5; result = result; reply = 1; ack = 7 } ∷ [];
  appended = (7, record_of start command result) ∷ [];
}

abbrev pub drained : Loop
drained = record (complete_command 5 result 1 (record waiting { pending = [] })) {
  answers = (2, none) ∷ [];
  is_draining = true;
  flushed = 7 ∷ [];
  waits = (7, 7 ∷ []) ∷ [];
}

handled : handle good command_event start ≡ some waiting
unfolding handle enqueue_command Handlers.apply new eq_bytes validate validation_reject_reason
handled = refl

handled_drain : handle good drain_event waiting ≡ some drained
unfolding handle flush_pending complete_command
handled_drain = refl

on : enabled command_event start ≡ true
unfolding enabled
on = refl

on_drain : enabled drain_event waiting ≡ true
unfolding enabled
on_drain = refl

pub run : Run good start (drain_event ∷ command_event ∷ []) drained
run = next drain_event (next command_event here on handled) on_drain handled_drain

pub start-IsNew : IsNew start
start-IsNew = record {
  none_sent = refl;
  none_pending = refl;
  none_appended = refl;
  not_failed = refl;
  not_draining = refl;
  with_wal = refl;
}

Run-replies_example :
    sent_on 1 drained.sent + waiting_on 1 drained.pending
    ≡ asked_on 1 (drain_event ∷ command_event ∷ [])
Run-replies_example =
    Run-replies good start (drain_event ∷ command_event ∷ []) drained 1 (refl, refl) run

Run-IsSafeReply_example : All (IsSafeReply good drained.appended) drained.sent
Run-IsSafeReply_example =
    Run-IsSafeReply good start (drain_event ∷ command_event ∷ []) drained start-IsNew run

drained-run_commands_example :
    All (λ (a : ℕ × Record). good a.0 ≡ none) drained.appended
    × (run_commands (start.id % 2 ^ 16) (commands_of drained.appended) start.books
        ≡ some (drained.books, records_of drained.appended))
    × (drained.last_applied_seq ≡ last_seq start.last_applied_seq drained.appended)
unfolding complete_command
drained-run_commands_example =
    drained-run_commands good start (drain_event ∷ command_event ∷ []) drained start-IsNew run refl
      refl

books-AreValid : AreValid books
unfolding new new_side_book eq_bytes
books-AreValid key b e = elim (Bool-cases (eq_bytes key (65 ∷ []))) [
  | inl t ↦
      let f = rw t at e in
      let g : new (65 ∷ []) ≡ b = cc in (empty (65 ∷ []), empty-IsValid (65 ∷ []), sym g)
  | inr t ↦ let f = rw t at e in absurd cc
]

command-IsCommand : IsCommand command
command-IsCommand = record {
  price_fits = omega arith;
  quantity_fits = omega arith;
  new_price_fits = omega arith;
  new_leaves_fits = omega arith;
}

Run-progress_example :
    ((e : LoopEvent)
      → Fits e
      → enabled e drained ≡ true
      → (l' : Loop) × (handle good e drained ≡ some l'))
    × All IsOwed drained.waits
Run-progress_example =
    Run-progress good start (drain_event ∷ command_event ∷ []) drained books-AreValid
      (tt, (command-IsCommand, tt)) start-IsNew refl run
