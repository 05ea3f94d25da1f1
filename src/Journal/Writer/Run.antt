-- ===== src/Journal/Writer/Run.antt =====
-- The requests of internal/journal/writer.go, the closure `flush` and the select of run.
use matching_engine_go.Prelude.{
  ℕ, ◌≡◌, List, [], ◌∷◌, ◌++◌, Bool, true, false, not, ◌||◌, ◌&&◌, Option, none, some, ◌⊎◌, inl,
  inr, length, map, leb,
}
use matching_engine_go.Journal.Codec.{Record, EncodeError, append_encoded_record}
use matching_engine_go.Journal.Writer.{
  Writer, WriterConfig, WriterError, encode_failed, Answer, OpenCalls, BatchCalls,
  open_next_segment, write_batch,
}

pub data Request : Type 0 where
  append_request : Record → ℕ → Request
  flush_request shutdown_request : ℕ → Request

-- rejectRemaining, for the requests that it finds in the queue.
unfoldable pub reject_remaining : WriterError → List Request → Writer → Writer
reject_remaining err [] w = w
reject_remaining err (append_request rec ack ∷ reqs) w =
    reject_remaining err reqs (record w { acked = w.acked ++ (ack, some err) ∷ [] })
reject_remaining err (flush_request done ∷ reqs) w =
    reject_remaining err reqs (record w { closed = w.closed ++ done ∷ [] })
reject_remaining err (shutdown_request done ∷ reqs) w =
    reject_remaining err reqs (record w { closed = w.closed ++ done ∷ [] })

-- setTerminalError keeps the first error.
unfoldable pub set_terminal_error : Option WriterError → WriterError → Option WriterError
set_terminal_error none err = some err
set_terminal_error (some old) err = some old

abbrev pub ack_with : Option WriterError → ℕ → ℕ × Option WriterError
ack_with result ack = (ack, result)

-- The closure `flush`, with whether it succeeded, from what writeBatch returned.
unfoldable pub wrote : List Request → Answer → Bool × Writer
unfolding reject_remaining set_terminal_error
wrote remaining (some err, w) = (
  false,
  reject_remaining err remaining (record w {
    failed_err = set_terminal_error w.failed_err err;
    acked = w.acked ++ map (ack_with (some err)) w.pending_acks;
  }),
)
wrote remaining (none, w) = (
  true,
  record w {
    acked = w.acked ++ map (ack_with none) w.pending_acks;
    batches = w.batches ++ (length w.pending_acks, length w.pending_bytes) ∷ [];
    pending_bytes = [];
    pending_acks = [];
    timer_armed = false;
  },
)

unfoldable pub flush_by : List ℕ → BatchCalls → List Request → Writer → Bool × Writer
unfolding wrote write_batch
flush_by [] calls remaining w = (true, w)
flush_by (ack ∷ acks) calls remaining w = wrote remaining (write_batch calls w.pending_bytes w)

unfoldable pub flush : BatchCalls → List Request → Writer → Bool × Writer
unfolding flush_by
flush calls remaining w = flush_by w.pending_acks calls remaining w

-- `if ok := flush(); !ok { return }`
abbrev pub or_return : Bool × Writer → Writer
or_return r = record r.1 { is_done = not r.0 || r.1.is_done }

-- The cases of the select, with the answers to the calls of a flush and the requests left in the queue.
pub data Event : Type 0 where
  received : Request → BatchCalls → List Request → Event
  timer_fired : BatchCalls → List Request → Event

unfoldable pub enabled : Event → Writer → Bool
enabled (received req calls remaining) w = not w.is_done
enabled (timer_fired calls remaining) w = not w.is_done && w.timer_armed

-- Whether the pending batch is to be written at once.
abbrev pub is_full : Writer → Bool
is_full w =
    leb w.cfg.max_batch_commands (length w.pending_acks)
    || leb w.cfg.max_batch_bytes (length w.pending_bytes)

unfoldable pub flush_if : Bool → BatchCalls → List Request → Writer → Writer
unfolding flush
flush_if true calls remaining w = or_return (flush calls remaining w)
flush_if false calls remaining w = w

-- The case of writerReqAppend, from what appendEncodedRecord returned.
unfoldable pub appended : EncodeError ⊎ List ℕ → ℕ → BatchCalls → List Request → Writer → Writer
unfolding flush_if
appended (inl x) ack calls remaining w = record w {
  acked = w.acked ++ (ack, some (encode_failed x)) ∷ [];
}
appended (inr bytes) ack calls remaining w =
    let w' = record w {
      pending_bytes = bytes;
      pending_acks = w.pending_acks ++ ack ∷ [];
      timer_armed = true;
    } in
    flush_if (is_full w') calls remaining w'

module _ (crc : List ℕ → ℕ) where
  unfoldable pub handle : Event → Writer → Writer
  unfolding appended
  handle (received (append_request rec ack) calls remaining) w =
      appended (append_encoded_record crc w.pending_bytes rec) ack calls remaining w
  handle (received (flush_request done) calls remaining) w =
      let w' = or_return (flush calls remaining w) in record w' { closed = w'.closed ++ done ∷ [] }
  handle (received (shutdown_request done) calls remaining) w =
      let w' = (flush calls remaining w).1 in
      record w' { closed = w'.closed ++ done ∷ []; is_done = true }
  handle (timer_fired calls remaining) w = or_return (flush calls remaining w)

  -- The events that take the writer from a state to another, the last one first.
  pub data Run (start : Writer) : List Event → Writer → Type 0 where
    here : Run start [] start
    next :
        {es : List Event} {w : Writer} (e : Event)
        → Run start es w
        → enabled e w ≡ true
        → Run start (e ∷ es) (handle e w)

-- The state of `run` before openNextSegment, and behind it.
abbrev pub initial : WriterConfig → Writer
initial cfg = record {
  cfg = cfg;
  segment_index = 0;
  has_file = false;
  current_size = 0;
  segments = [];
  pending_bytes = [];
  pending_acks = [];
  timer_armed = false;
  failed_err = none;
  is_done = false;
  acked = [];
  closed = [];
  batches = [];
}

unfoldable pub started : List Request → Answer → Writer
unfolding reject_remaining set_terminal_error
started remaining (some err, w) =
    reject_remaining err remaining
      (record w { failed_err = set_terminal_error w.failed_err err; is_done = true })
started remaining (none, w) = w

unfoldable pub run_start : WriterConfig → OpenCalls → List Request → Writer
unfolding started open_next_segment
run_start cfg calls remaining = started remaining (open_next_segment calls (initial cfg))
