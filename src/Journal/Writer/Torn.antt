-- ===== src/Journal/Writer/Torn.antt =====
-- A crash in the middle of a batch: what is read then, and what is read once the writer has started again.
use matching_engine_go.Prelude.{
  ℕ, ◌%◌, ◌^◌, ◌<◌, ◌≡◌, List, [], ◌∷◌, ◌++◌, Bool, true, false, Option, none, some, ◌⊎◌, inl, inr,
  arith, ap, sym, ◌∙◌, length, map, take, All, All-append,
}
use mathlib.Core.List.{append_assoc}
use mathlib.Core.Path.{subst}
use matching_engine_go.Journal.Bytes.{err, unexpected_eof}
use matching_engine_go.Journal.Codec.{Record, encode_record, decode_record, encode_segment_header}
use matching_engine_go.Journal.RoundTrip.{length-take}
use matching_engine_go.Journal.RoundTrip.Cut.{decode_record-take}
use matching_engine_go.Journal.Reader.{SegmentError, bad_record, Frames, read_segment}
use matching_engine_go.Journal.Reader.Torn.{read_segment-torn}
use matching_engine_go.Journal.Files.{
  ReadError, segment_failed, is_last, joined, read_files, read_shard_records,
  read_shard_records_for_engine, header, Readable, All-split, read_segment-IsSegment,
}
use matching_engine_go.Journal.Writer.{Writer, WriterConfig, header_of, OpenCalls, put_last}
use matching_engine_go.Journal.Writer.Run.{Request, Event, Run, run_start}
use matching_engine_go.Journal.Writer.Held.{EventFits}
use matching_engine_go.Journal.Writer.Durable.{durable_log, Run-Segments}
use matching_engine_go.Journal.Writer.Stored.{
  Log, records_of, records_of-append, Frames-append, IsSegment, Segments,
}

abbrev files_of : List (List ℕ) → List (List ℕ ⊎ List ℕ)
files_of segments = map (λ (s : List ℕ). inr s) segments

module _ (crc : List ℕ → ℕ) (small : (bs : List ℕ) → crc bs < 2 ^ 32) (engine_id : List ℕ)
    (shard_id shard_count : ℕ) (validate : Bool) (head : List ℕ)
    (encoded : encode_segment_header (header crc small engine_id shard_id shard_count validate)
      ≡ inr head)
    (landed : List Record) (bytes tail : List ℕ) (frames : Frames crc landed bytes)
    (fits : All (Readable shard_id) landed)
    (cut : decode_record crc tail ≡ err unexpected_eof) where
  abbrev Reads : List (List ℕ) → ReadError ⊎ List Record → Type 0
  Reads segments r =
      read_files crc engine_id shard_id shard_count validate (files_of segments) ≡ some r

  abbrev read_one : Bool → List ℕ → Option (SegmentError ⊎ List Record)
  read_one last s =
      read_segment crc (shard_id % 2 ^ 16) last engine_id (shard_count % 2 ^ 16) validate s

  -- The bytes of a segment to which a cut batch was written.
  torn_bytes :
      (s old : List ℕ) → s ≡ head ++ old → s ++ (bytes ++ tail) ≡ head ++ ((old ++ bytes) ++ tail)
  torn_bytes s old b =
      ap (λ (x : List ℕ). x ++ (bytes ++ tail)) b
      ∙ append_assoc head old (bytes ++ tail)
      ∙ ap (λ (x : List ℕ). head ++ x) (sym (append_assoc old bytes tail))

  torn_frames :
      (log : Log) (old : List ℕ)
      → Frames crc (records_of log) old
      → Frames crc (records_of log ++ landed) (old ++ bytes)
  torn_frames log old f = Frames-append crc (records_of log) landed old bytes f frames

  -- any other may not.
  read_torn-behind :
      (s : List ℕ) (log : Log)
      → IsSegment crc head s log
      → All (Readable shard_id) (records_of log)
      → 0 < length tail
      → read_one false (s ++ (bytes ++ tail)) ≡ some (inl (bad_record unexpected_eof))
  read_torn-behind s log (old, f, b) h p =
      ap (read_one false) (torn_bytes s old b)
      ∙ read_segment-torn crc small (header crc small engine_id shard_id shard_count validate) head
          (records_of log ++ landed) (old ++ bytes) tail unexpected_eof validate (omega arith)
          (omega arith) encoded (torn_frames log old f)
          (All-append (Readable shard_id) (records_of log) landed h fits) p cut

  split_fits :
      (log first others : Log)
      → log ≡ first ++ others
      → All (Readable shard_id) (records_of log)
      → All (Readable shard_id) (records_of first) × All (Readable shard_id) (records_of others)
  split_fits log first others q h =
      All-split (Readable shard_id) (records_of first) (records_of others) (
        subst (λ (rs : List Record). All (Readable shard_id) rs)
          (ap records_of q ∙ records_of-append first others) h)

  read_files-behind :
      (ss : List (List ℕ)) (log : Log) (t : List ℕ) (ts : List (List ℕ))
      → 0 < length ss
      → Segments crc head ss log
      → All (Readable shard_id) (records_of log)
      → 0 < length tail
      → Reads
          (put_last (bytes ++ tail) ss ++ t ∷ ts)
          (inl (segment_failed (bad_record unexpected_eof)))
  unfolding read_files joined put_last
  read_files-behind [] log t ts l r h p = absurd (omega (arith, l))
  read_files-behind (s ∷ []) log t ts l (first, others, q, i, r) h p =
      ap
        (λ (x : Option (SegmentError ⊎ List Record)).
          joined x (read_files crc engine_id shard_id shard_count validate (files_of (t ∷ ts))))
        (read_torn-behind s first i (split_fits log first others q h).0 p)
  read_files-behind (s ∷ u ∷ us) log t ts l (first, others, q, i, r) h p =
      let (h1, h2) = split_fits log first others q h in
      let files = files_of (put_last (bytes ++ tail) (u ∷ us) ++ t ∷ ts) in
      ap
        (λ (x : Option (SegmentError ⊎ List Record)).
          joined x (read_files crc engine_id shard_id shard_count validate files))
        (read_segment-IsSegment crc small engine_id shard_id shard_count validate head s first
          (is_last files) encoded i h1)
      ∙ ap (λ (x : Option (ReadError ⊎ List Record)). joined (some (inr (records_of first))) x)
          (read_files-behind (u ∷ us) others t ts (omega arith) r h2 p)

module _ (crc : List ℕ → ℕ) (cfg : WriterConfig) (head : List ℕ)
    (encoded : encode_segment_header (header_of cfg) ≡ inr head)
    (small : (bs : List ℕ) → crc bs < 2 ^ 32) (landed : List Record) (bytes : List ℕ)
    (frames : Frames crc landed bytes) (fits : All (Readable cfg.shard_id) landed) (rec : Record)
    (frame : List ℕ) (encodes : encode_record crc rec ≡ inr frame) (k : ℕ)
    (inside : k < length frame) (calls : OpenCalls) (remaining : List Request) (es : List Event)
    (w : Writer) (brought : All (EventFits (Readable cfg.shard_id)) es)
    (run : Run crc (run_start cfg calls remaining) es w) (ok : w.failed_err ≡ none) where
  -- The segments when the machine stopped: of the batch some whole frames and a cut one are there.
  abbrev pub crashed : List (List ℕ)
  crashed = put_last (bytes ++ take k frame) w.segments

  -- Under the same conditions, where the cut frame is not empty: when a writer has started again behind the
  -- crash and has not failed, at each point of its run, reading the files of both for the engine gives the
  -- error of a cut record.
  pub read_shard_records_for_engine-restarted :
      (calls' : OpenCalls) (remaining' : List Request) (es' : List Event) (v : Writer)
      → All (EventFits (Readable cfg.shard_id)) es'
      → Run crc (run_start cfg calls' remaining') es' v
      → v.failed_err ≡ none
      → 0 < k
      → read_shard_records_for_engine crc cfg.engine_id cfg.shard_id cfg.shard_count
          (inr (map (λ (s : List ℕ). inr s) (crashed ++ v.segments)))
        ≡ some (inl (segment_failed (bad_record unexpected_eof)))
  unfolding read_shard_records_for_engine read_shard_records
  read_shard_records_for_engine-restarted calls' remaining' es' v brought' run' ok' p =
      let (good', stored', fit', opened') =
        Run-Segments crc cfg head encoded calls' remaining' es' v brought' run' ok' in
      go v.segments opened'
    where
      go :
          (ts : List (List ℕ))
          → 0 < length ts
          → read_files crc cfg.engine_id cfg.shard_id cfg.shard_count true
              (files_of (crashed ++ ts))
            ≡ some (inl (segment_failed (bad_record unexpected_eof)))
      go [] l = absurd (omega (arith, l))
      go (t ∷ ts) l =
          let (good, stored, fit, opened) =
            Run-Segments crc cfg head encoded calls remaining es w brought run ok in
          read_files-behind crc small cfg.engine_id cfg.shard_id cfg.shard_count true head encoded
            landed bytes (take k frame) frames fits
            (decode_record-take crc rec frame k encodes inside) w.segments (durable_log crc es w) t
            ts opened stored fit (omega (arith, length-take k frame (omega (arith, inside)), p))
