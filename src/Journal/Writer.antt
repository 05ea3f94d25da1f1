-- ===== src/Journal/Writer.antt =====
-- The goroutine of internal/journal/writer.go as a state. What the system calls answer is an argument, and
-- so are the requests that rejectRemaining finds in the queue. `segments` are the contents of the files
-- written so far, the current one last.
pub mod Run
pub mod Stored
pub mod Opened
pub mod Kept
pub mod Held
pub mod Runs
pub mod Durable
pub mod Torn
pub mod Tests
use matching_engine_go.Prelude.{
  ℕ, ◌+◌, ◌%◌, ◌^◌, List, [], ◌∷◌, ◌++◌, Bool, true, false, not, ◌||◌, Option, none, some, ◌==◌,
  ◌⊎◌, inl, inr, if◌then◌else◌, length, take, map, lt64, add64, eq_bytes,
}
use matching_engine_go.Journal.Codec.{Record, SegmentHeader, EncodeError, encode_segment_header}

pub data WriterError : Type 0 where
  os_error : List ℕ → WriterError
  encode_failed : EncodeError → WriterError
  short_header short_batch : WriterError

pub record WriterConfig : Type 0 where
  pub dir : List ℕ
  pub engine_id : List ℕ
  pub shard_id : ℕ
  pub shard_count : ℕ
  pub queue_size : ℕ
  pub max_batch_commands : ℕ
  pub max_batch_bytes : ℕ
  pub max_batch_delay : ℕ
  pub segment_max_bytes : ℕ

pub data ConfigError : Type 0 where
  dir_required engine_id_required invalid_shard_id invalid_batch invalid_delay : ConfigError

unfoldable pub validate_writer_config : WriterConfig → Option ConfigError
validate_writer_config cfg =
    if eq_bytes cfg.dir []
    then some dir_required
    else if eq_bytes cfg.engine_id []
    then some engine_id_required
    else if lt64 cfg.shard_id 0 || not (lt64 cfg.shard_id cfg.shard_count)
    then some invalid_shard_id
    else if not (lt64 0 cfg.queue_size)
        || not (lt64 0 cfg.max_batch_commands)
        || not (lt64 0 cfg.max_batch_bytes)
    then some invalid_batch
    else if not (lt64 0 cfg.max_batch_delay) || not (lt64 0 cfg.segment_max_bytes)
    then some invalid_delay
    else none

-- Writer, writerState and the variables of `run`.
pub record Writer : Type 0 where
  pub cfg : WriterConfig
  pub segment_index : ℕ
  pub has_file : Bool
  pub current_size : ℕ
  pub segments : List (List ℕ)
  pub pending_bytes : List ℕ
  pub pending_acks : List ℕ
  pub timer_armed : Bool
  pub failed_err : Option WriterError
  pub is_done : Bool
  -- what was sent on the channels of the acks, which channels were closed, and the batches observed
  pub acked : List (ℕ × Option WriterError)
  pub closed : List ℕ
  pub batches : List (ℕ × ℕ)

-- What a write answers: how many bytes it took, and an error.
pub record Written : Type 0 where
  pub count : ℕ
  pub error : Option (List ℕ)

-- The answers to the calls of openNextSegment: nextSegmentIndex, Close, OpenFile, Write, Sync and
-- syncDirectory.
pub record OpenCalls : Type 0 where
  pub index : List ℕ ⊎ ℕ
  pub close : Option (List ℕ)
  pub create : Option (List ℕ)
  pub write : Written
  pub sync : Option (List ℕ)
  pub sync_dir : Option (List ℕ)

abbrev pub header_of : WriterConfig → SegmentHeader
header_of cfg = record {
  engine_id = cfg.engine_id;
  shard_id = cfg.shard_id % 2 ^ 16;
  shard_count = cfg.shard_count % 2 ^ 16;
}

abbrev pub Answer : Type 0
Answer = Option WriterError × Writer

-- openNextSegment, from its end: behind the write of the header, by the answers to the two syncs;
unfoldable pub synced : Option (List ℕ) → Option (List ℕ) → List ℕ → Writer → Answer
synced (some e) sync_dir header w = (some (os_error e), w)
synced none (some e) header w = (some (os_error e), w)
synced none none header w = (
  none,
  record w { has_file = true; current_size = length header; segment_index = w.segment_index + 1 },
)

-- by the error of the write and whether it took the whole header;
unfoldable pub wrote_header : Option (List ℕ) → Bool → List ℕ → OpenCalls → Writer → Answer
unfolding synced
wrote_header (some e) whole header calls w = (some (os_error e), w)
wrote_header none false header calls w = (some short_header, w)
wrote_header none true header calls w = synced calls.sync calls.sync_dir header w

-- by the error of OpenFile and the header;
unfoldable pub created : Option (List ℕ) → EncodeError ⊎ List ℕ → OpenCalls → Writer → Answer
unfolding wrote_header
created (some e) header calls w = (some (os_error e), w)
created none (inl x) calls w =
    (some (encode_failed x), record w { segments = w.segments ++ [] ∷ [] })
created none (inr header) calls w =
    wrote_header calls.write.error (calls.write.count == length header) header calls
      (record w { segments = w.segments ++ take calls.write.count header ∷ [] })

abbrev pub create_segment : OpenCalls → Writer → Answer
create_segment calls w = created calls.create (encode_segment_header (header_of w.cfg)) calls w

-- by whether a file is open and the error of its Close;
unfoldable pub closed_current : Bool → Option (List ℕ) → OpenCalls → Writer → Answer
unfolding created
closed_current false error calls w = create_segment calls w
closed_current true (some e) calls w = (some (os_error e), w)
closed_current true none calls w =
    create_segment calls (record w { has_file = false; current_size = 0 })

-- and by whether the index is 0 and what nextSegmentIndex returns.
unfoldable pub indexed : Bool → List ℕ ⊎ ℕ → OpenCalls → Writer → Answer
unfolding closed_current
indexed true (inl e) calls w = (some (os_error e), w)
indexed true (inr n) calls w =
    closed_current w.has_file calls.close calls (record w { segment_index = n })
indexed false index calls w = closed_current w.has_file calls.close calls w

unfoldable pub open_next_segment : OpenCalls → Writer → Answer
unfolding indexed
open_next_segment calls w = indexed (w.segment_index == 0) calls.index calls w

-- A write to the current file.
unfoldable pub put_last : List ℕ → List (List ℕ) → List (List ℕ)
put_last bytes [] = []
put_last bytes (s ∷ []) = (s ++ bytes) ∷ []
put_last bytes (s ∷ t ∷ ts) = s ∷ put_last bytes (t ∷ ts)

-- The answers to the calls of writeBatch.
pub record BatchCalls : Type 0 where
  pub open_calls : OpenCalls
  pub write : Written
  pub sync : Option (List ℕ)

-- writeBatch behind its write: by its error, whether it took the whole batch, and the error of Sync;
unfoldable pub wrote_batch : Option (List ℕ) → Bool → Option (List ℕ) → List ℕ → Writer → Answer
wrote_batch (some e) whole sync batch w = (some (os_error e), w)
wrote_batch none false sync batch w = (some short_batch, w)
wrote_batch none true (some e) batch w = (some (os_error e), w)
wrote_batch none true none batch w =
    (none, record w { current_size = add64 w.current_size (length batch) })

unfoldable pub append_batch : BatchCalls → List ℕ → Writer → Answer
unfolding wrote_batch put_last
append_batch calls batch w =
    wrote_batch calls.write.error (calls.write.count == length batch) calls.sync batch
      (record w { segments = put_last (take calls.write.count batch) w.segments })

-- by what openNextSegment returned;
unfoldable pub opened_for : BatchCalls → List ℕ → Answer → Answer
unfolding append_batch
opened_for calls batch (some e, w) = (some e, w)
opened_for calls batch (none, w) = append_batch calls batch w

-- by whether the batch goes past the size of a segment.
unfoldable pub rotated : Bool → BatchCalls → List ℕ → Writer → Answer
unfolding opened_for open_next_segment
rotated true calls batch w = opened_for calls batch (open_next_segment calls.open_calls w)
rotated false calls batch w = append_batch calls batch w

unfoldable pub write_batch : BatchCalls → List ℕ → Writer → Answer
unfolding rotated
write_batch calls [] w = (none, w)
write_batch calls (b ∷ bs) w =
    rotated (lt64 w.cfg.segment_max_bytes (add64 w.current_size (length (b ∷ bs)))) calls (b ∷ bs) w
