-- ===== src/Shard/Loop.antt =====
-- internal/shard/loop.go. The goroutine of a shard is a state; what the writer of the journal answers to
-- a call is an argument, and `acks` is what it sends on each channel that AppendAsync returned, if it sends
-- anything: that completeAll waits for a channel is kept in the state, with what had been flushed. What the
-- loop sends and what the writer accepts is kept, first to last. `none` is a panic.
pub mod Run
pub mod Steps
pub mod Replies
pub mod Sound
pub mod Completed
pub mod Kept
pub mod Durable
pub mod Waits
pub mod Progress
pub mod Tests
use matching_engine_go.Prelude.{
  ℕ, ◌+◌, ◌%◌, ◌^◌, List, [], ◌∷◌, ◌++◌, Bool, true, false, not, ◌&&◌, ◌||◌, Option, none, some,
  ◌==◌, ◌⊎◌, inl, inr, if◌then◌else◌, length, map, ltb, ◌>>=◌, eq_bytes,
}
use matching_engine_go.Model.{Command, Event, Result, event_rejected, reject_invalid_symbol}
use matching_engine_go.Ingress.{
  Error, wal_append_failed, wal_flush_failed, wal_shutdown_failed, Outcome, replied, failed, Routed,
  routed_command, routed_barrier, routed_drain,
}
use matching_engine_go.Book.State.{Book, Snapshot, new}
use matching_engine_go.Book.Handlers
use matching_engine_go.Journal.Codec.{Record}
use matching_engine_go.Recovery.{Books, put_book}

pub record PendingCommand : Type 0 where
  pub sequence : ℕ
  pub result : Result
  pub reply : ℕ
  pub ack : ℕ

pub record Loop : Type 0 where
  pub id : ℕ
  pub books : Books
  pub has_wal : Bool
  pub last_applied_seq : ℕ
  pub failed_err : Option Error
  -- the variables of `run`
  pub pending : List PendingCommand
  pub is_open : Bool
  pub is_draining : Bool
  pub is_done : Bool
  -- what the metrics count
  pub accepted : ℕ
  pub rejected : ℕ
  -- the replies sent, the answers to barriers and drains, and the records accepted by AppendAsync with
  -- their channels
  pub sent : List (ℕ × Outcome)
  pub answers : List (ℕ × Option Error)
  pub appended : List (ℕ × Record)
  -- the channels of the records that were appended when Flush last returned no error, and the channels on
  -- which completeAll waited for an ack, each with those channels at that time
  pub flushed : List ℕ
  pub waits : List (ℕ × List ℕ)

-- The loop over the symbols in newLoop; `snapshots` is a Go map.
unfoldable pub make_books :
    (Snapshot → Option Book) → (List ℕ → Option Snapshot) → List (List ℕ) → Books → Option Books
unfolding put_book
make_books restore snapshots [] books = some books
make_books restore snapshots (symbol ∷ symbols) books = do
  b ← elim (snapshots symbol) [ some snap ↦ restore snap | none ↦ some (new symbol) ]
  make_books restore snapshots symbols (put_book books symbol b)

-- The value that newLoop returns, with LastAppliedSeq as NewEngine sets it.
abbrev pub first_state : ℕ → Bool → ℕ → Books → Loop
first_state id has_wal last_applied_seq books = record {
  id = id;
  books = books;
  has_wal = has_wal;
  last_applied_seq = last_applied_seq;
  failed_err = none;
  pending = [];
  is_open = true;
  is_draining = false;
  is_done = false;
  accepted = 0;
  rejected = 0;
  sent = [];
  answers = [];
  appended = [];
  flushed = [];
  waits = [];
}

-- newLoop
unfoldable pub new_loop :
    (Snapshot → Option Book)
    → ℕ
    → List (List ℕ)
    → Bool
    → (List ℕ → Option Snapshot)
    → ℕ
    → Option Loop
unfolding make_books
new_loop restore id symbols has_wal snapshots last_applied_seq = do
  books ← make_books restore snapshots symbols (λ key. none)
  some (first_state id has_wal last_applied_seq books)

-- `reply <- outcome`
abbrev pub send : ℕ → Outcome → Loop → Loop
send reply outcome l = record l { sent = l.sent ++ (reply, outcome) ∷ [] }

unfoldable pub has_rejected : List Event → Bool
has_rejected [] = false
has_rejected (event ∷ events) =
    let later = has_rejected events in if event.type == event_rejected then true else later

unfoldable pub complete_command : ℕ → Result → ℕ → Loop → Loop
unfolding has_rejected
complete_command sequence result reply l = send reply (replied result) (record l {
  last_applied_seq = sequence;
  rejected = if has_rejected result.events then l.rejected + 1 else l.rejected;
  accepted = if has_rejected result.events then l.accepted else l.accepted + 1;
})

-- The replies of failPending.
abbrev pub refuse : Error → PendingCommand → ℕ × Outcome
refuse err p = (p.reply, failed err)

unfoldable pub fail_pending : Error → Loop → Loop
fail_pending err l = record l {
  failed_err = some err;
  sent = l.sent ++ map (refuse err) l.pending;
  pending = [];
}

-- completeNext, where `command` is the first pending command and `others` are those behind it.
unfoldable pub complete_next : PendingCommand → List PendingCommand → Option (List ℕ) → Loop → Loop
unfolding complete_command fail_pending
complete_next command others none l =
    complete_command command.sequence command.result command.reply (record l { pending = others })
complete_next command others (some err) l = fail_pending (wal_append_failed err) (
    send command.reply (failed (wal_append_failed err))
      (record l { pending = others; failed_err = some (wal_append_failed err) }))

-- `<-(*pending)[0].ack`, which is kept, as the loop stands still if the writer never sends the ack.
abbrev pub wait_for : ℕ → Loop → Loop
wait_for ack l = record l { waits = l.waits ++ (ack, l.flushed) ∷ [] }

-- completeAll, at the pending commands of the state: the loop goes on while some are left.
unfoldable pub complete_all : (ℕ → Option (List ℕ)) → List PendingCommand → Loop → Loop
unfolding complete_next
complete_all acks [] l = l
complete_all acks (command ∷ others) l =
    let next = complete_next command others (acks command.ack) (wait_for command.ack l) in
    let rest = complete_all acks others next in elim next.pending [ [] ↦ next | p ∷ ps ↦ rest ]

-- What the writer answers to a call of AppendAsync, an error or a channel, and to Flush.
pub record WalAnswers : Type 0 where
  pub append : List ℕ ⊎ ℕ
  pub flush : Option (List ℕ)

abbrev pub channels : List (ℕ × Record) → List ℕ
channels [] = []
channels ((ack, rec) ∷ log) = ack ∷ channels log

-- A call of Flush, by its answer: with no error the writer has sent the acks of all appended records.
abbrev pub call_flush : Option (List ℕ) → Loop → Loop
call_flush none l = record l { flushed = channels l.appended }
call_flush (some e) l = l

-- flushWAL, with the state after it, by the error kept and whether there is a writer.
unfoldable pub flush_by : Option Error → Bool → Option (List ℕ) → Loop → Option Error × Loop
flush_by (some e) has_wal answer l = (some e, l)
flush_by none false answer l = (none, l)
flush_by none true none l = (none, call_flush none l)
flush_by none true (some e) l = (
  some (wal_flush_failed e),
  record (call_flush (some e) l) { failed_err = some (wal_flush_failed e) },
)

unfoldable pub flush_wal : Option (List ℕ) → Loop → Option Error × Loop
unfolding flush_by
flush_wal answer l = flush_by l.failed_err l.has_wal answer l

-- flushPending, from what flushWAL returned.
unfoldable pub flushed : (ℕ → Option (List ℕ)) → Option Error × Loop → Option Error × Loop
unfolding complete_all fail_pending
flushed acks (some err, l) = (some err, fail_pending err l)
flushed acks (none, l) =
    let completed = complete_all acks l.pending l in (completed.failed_err, completed)

unfoldable pub flush_pending : (ℕ → Option (List ℕ)) → Option (List ℕ) → Loop → Option Error × Loop
unfolding flush_wal flushed
flush_pending acks answer l = flushed acks (flush_wal answer l)

-- The rejection of a command whose symbol the shard has no book for.
abbrev pub unknown_symbol : Command → Result
unknown_symbol cmd = record {
  command_seq = cmd.seq;
  events = Handlers.rejected reject_invalid_symbol cmd.order_id ∷ [];
}

abbrev pub record_of : Loop → Command → Result → Record
record_of l cmd result = record {
  shard_id = l.id % 2 ^ 16;
  command_seq = cmd.seq;
  command = cmd;
  result = result;
}

-- enqueueCommand from the call of AppendAsync on.
unfoldable pub append_record : List ℕ ⊎ ℕ → Command → Result → ℕ → Loop → Loop
unfolding fail_pending
append_record (inl e) cmd result reply l =
    send reply (failed (wal_append_failed e)) (fail_pending (wal_append_failed e) l)
append_record (inr ack) cmd result reply l = record l {
  pending =
      l.pending ++ record { sequence = cmd.seq; result = result; reply = reply; ack = ack } ∷ [];
  appended = l.appended ++ (ack, record_of l cmd result) ∷ [];
}

-- enqueueCommand behind the call of Apply, by whether there is a writer.
unfoldable pub persist : Bool → List ℕ ⊎ ℕ → Command → Result → ℕ → Loop → Loop
unfolding append_record complete_command
persist false answer cmd result reply l = complete_command cmd.seq result reply l
persist true answer cmd result reply l = append_record answer cmd result reply l

-- enqueueCommand from the call of Apply on.
unfoldable pub apply_command : List ℕ ⊎ ℕ → Command → ℕ → Loop → Book → Option Loop
unfolding persist put_book
apply_command answer cmd reply l b = do
  (b', result) ← Handlers.apply b cmd
  some (
      persist l.has_wal answer cmd result reply
        (record l { books = put_book l.books cmd.symbol b' }))

-- enqueueCommand, by the error kept and the book of the symbol.
unfoldable pub enqueue_by :
    Option Error → Option Book → List ℕ ⊎ ℕ → Command → ℕ → Loop → Option Loop
unfolding apply_command
enqueue_by (some e) found answer cmd reply l = some (send reply (failed e) l)
enqueue_by none none answer cmd reply l =
    some (send reply (replied (unknown_symbol cmd)) (record l { rejected = l.rejected + 1 }))
enqueue_by none (some b) answer cmd reply l = apply_command answer cmd reply l b

unfoldable pub enqueue_command : List ℕ ⊎ ℕ → Command → ℕ → Loop → Option Loop
unfolding enqueue_by
enqueue_command answer cmd reply l = enqueue_by l.failed_err (l.books cmd.symbol) answer cmd reply l
