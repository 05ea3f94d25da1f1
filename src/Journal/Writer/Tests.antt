-- ===== src/Journal/Writer/Tests.antt =====
-- The writer on a short run: a record is appended and flushed, which rotates the segment.
use matching_engine_go.Prelude.{
  ℕ, ◌≡◌, refl, List, [], ◌∷◌, ◌++◌, true, false, none, some, inl, inr, length, map, arith, ◌<◌,
  lt64, add64,
}
use matching_engine_go.Journal.Bytes.{put, unexpected_eof}
use matching_engine_go.Journal.Codec.{
  encode_segment_header, append_encoded_record, payload_size, encode_record, encode_header,
  encode_payload,
}
use matching_engine_go.Journal.Checksum.{checksum, checksum-lt}
use matching_engine_go.Journal.Reader.{bad_record}
use matching_engine_go.Journal.Files.{segment_failed, read_shard_records_for_engine}
use matching_engine_go.Journal.Tests.{
  sample, sample-IsRecord, frame, encoded, reader_head, reader_encoded, sample-Frames,
}
use matching_engine_go.Journal.Writer.{Writer, WriterConfig, OpenCalls, BatchCalls}
use matching_engine_go.Journal.Writer.Run.{
  append_request, Event, received, handle, enabled, Run, here, next, run_start,
}
use matching_engine_go.Journal.Writer.Stored.{Log, records_of, acks_of, good_acks}
use matching_engine_go.Journal.Writer.Held.{accepted}
use matching_engine_go.Journal.Writer.Durable.{
  barrier, durable_log, Run-barrier, read_shard_records_for_engine-Run,
}
use matching_engine_go.Journal.Writer.Torn.{crashed, read_shard_records_for_engine-restarted}

abbrev config : WriterConfig
config = record {
  dir = 47 ∷ [];
  engine_id = 101 ∷ 49 ∷ [];
  shard_id = 3;
  shard_count = 4;
  queue_size = 8;
  max_batch_commands = 2;
  max_batch_bytes = 1000;
  max_batch_delay = 1;
  segment_max_bytes = 100;
}

abbrev opening : OpenCalls
opening = record {
  index = inr 0;
  close = none;
  create = none;
  write = record { count = 14; error = none };
  sync = none;
  sync_dir = none;
}

abbrev writing : BatchCalls
writing = record { open_calls = opening; write = record { count = 156; error = none }; sync = none }

abbrev append_event : Event
append_event = received (append_request sample 1) writing []

abbrev flush_event : Event
flush_event = received (barrier false 7) writing []

abbrev w0 : Writer
w0 = run_start config opening []

abbrev w1 : Writer
w1 = handle checksum append_event w0

abbrev w2 : Writer
w2 = handle checksum flush_event w1

abbrev events : List Event
events = flush_event ∷ append_event ∷ []

running :
    (enabled append_event w0 ≡ true) × (enabled flush_event w1 ≡ true) × (w2.failed_err ≡ none)
unfolding enabled handle run_start encode_segment_header append_encoded_record payload_size lt64
    add64
running = (refl, refl, refl)

short_run : Run checksum w0 events w2
short_run = next flush_event (next append_event here running.0) running.1

started_ok : w0.failed_err ≡ none
unfolding run_start encode_segment_header
started_ok = refl

-- The writer rotated, and the record was acked.
rotated_run :
    (w2.segments ≡ reader_head ∷ (reader_head ++ frame) ∷ []) × (w2.acked ≡ (1, none) ∷ [])
unfolding handle run_start encode_segment_header append_encoded_record payload_size lt64 add64
rotated_run = (refl, refl)

-- A part of the frame.
cut_inside : 40 < length frame
unfolding encode_record append_encoded_record payload_size encode_header encode_payload put
cut_inside = omega arith

abbrev old_log : Log
old_log = (9, sample) ∷ []

read_shard_records_for_engine-Run_example :
    (good_acks w2.acked ≡ acks_of (durable_log checksum events w2))
    × (read_shard_records_for_engine checksum
          (101 ∷ 49 ∷ [])
          3
          4
          (inr (map (λ (s : List ℕ). inr s) ((reader_head ++ (frame ++ [])) ∷ [] ++ w2.segments)))
        ≡ some (inr (sample ∷ records_of (durable_log checksum events w2))))
read_shard_records_for_engine-Run_example =
    read_shard_records_for_engine-Run checksum config reader_head reader_encoded checksum-lt opening
      [] ((reader_head ++ (frame ++ [])) ∷ []) old_log events w2
      (old_log, [], refl, (frame ++ [], sample-Frames, refl), refl) ((sample-IsRecord, refl), tt)
      (tt, ((sample-IsRecord, refl), tt)) short_run running.2

Run-barrier_example : good_acks w2.acked ≡ acks_of (accepted checksum (append_event ∷ []))
Run-barrier_example =
    Run-barrier checksum config reader_head reader_encoded opening [] [] (append_event ∷ []) false 7
      writing w2 short_run ((sample-IsRecord, refl), tt) running.2

read_shard_records_for_engine-restarted_example :
    read_shard_records_for_engine checksum (101 ∷ 49 ∷ []) 3 4 (
      inr (
        map
          (λ (s : List ℕ). inr s)
          (crashed checksum config reader_head reader_encoded checksum-lt [] [] refl tt sample frame
              encoded 40 cut_inside opening [] events w2
              (tt, ((sample-IsRecord, refl), tt))
              short_run
              running.2
            ++ w0.segments)))
    ≡ some (inl (segment_failed (bad_record unexpected_eof)))
read_shard_records_for_engine-restarted_example =
    read_shard_records_for_engine-restarted checksum config reader_head reader_encoded checksum-lt
      [] [] refl tt sample frame encoded 40 cut_inside opening [] events w2
      (tt, ((sample-IsRecord, refl), tt)) short_run running.2 opening [] [] w0 tt here started_ok
      (omega arith)
