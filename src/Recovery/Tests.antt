-- ===== src/Recovery/Tests.antt =====
-- The replay of one record.
use matching_engine_go.Prelude.{
  ◌≡◌, ◌↔◌, refl, List, [], ◌∷◌, some, none, inr, true, eq_bytes, arith, if◌then◌else◌,
}
use matching_engine_go.Model.{Command, Result, validate, validation_reject_reason}
use matching_engine_go.Book.State.{new}
use matching_engine_go.Book.Handlers
use matching_engine_go.Book.Handlers.{apply_events}
use matching_engine_go.Book.Snapshots.{new_from_snapshot}
use matching_engine_go.Journal.Codec.{Record}
use matching_engine_go.Recovery.{
  Books, equal_results, replay, run_commands, put_book, equal_results_iff, replay-run_commands,
}

-- A command whose type is none, and what Apply gives for it.
abbrev command : Command
command = record {
  seq = 5;
  symbol = 65 ∷ [];
  type = 9;
  order_id = 1;
  side = 0;
  order_type = 0;
  time_in_force = 0;
  price = 0;
  quantity = 0;
  new_price = 0;
  new_leaves_qty = 0;
}

abbrev result : Result
result = record { command_seq = 5; events = Handlers.rejected 12 1 ∷ [] }

abbrev books : Books
books key = if eq_bytes key (65 ∷ []) then some (new (65 ∷ [])) else none

abbrev records : List Record
records = record { shard_id = 0; command_seq = 5; command = command; result = result } ∷ []

ran : run_commands 0 (command ∷ []) books ≡ some (put_book books (65 ∷ []) (new (65 ∷ [])), records)
unfolding run_commands Handlers.apply new eq_bytes validate validation_reject_reason
ran = refl

equal_results_iff_example : (equal_results result result ≡ true) ↔ (result ≡ result)
equal_results_iff_example = equal_results_iff result result

replay-run_commands_example :
    replay new_from_snapshot records books 4
    ≡ some (inr (put_book books (65 ∷ []) (new (65 ∷ [])), 5))
replay-run_commands_example =
    replay-run_commands new_from_snapshot 0 (command ∷ []) books
      (put_book books (65 ∷ []) (new (65 ∷ []))) records 4 (omega arith, tt) ran
