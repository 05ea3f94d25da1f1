-- ===== src/Journal/Writer/Durable.antt =====
-- What the journal gives back of a run of the writer: the records whose acks were good.
use matching_engine_go.Prelude.{
  ℕ, ◌^◌, ◌<◌, ◌≡◌, refl, List, [], ◌∷◌, ◌++◌, Bool, true, false, none, some, inl, inr, ap, sym,
  ◌∙◌, length, map, take, All, All-append,
}
use mathlib.Core.List.{append_assoc, append-nil}
use mathlib.Core.Path.{subst}
use matching_engine_go.Journal.Codec.{Record, encode_segment_header}
use matching_engine_go.Journal.Files.{
  Readable, read_files-Segments, read_shard_records, read_shard_records_for_engine,
}
use matching_engine_go.Journal.Writer.{Writer, WriterConfig, header_of, OpenCalls, BatchCalls}
use matching_engine_go.Journal.Writer.Run.{
  Request, flush_request, shutdown_request, flush, Event, received, handle, enabled, Run, next,
  run_start,
}
use matching_engine_go.Journal.Writer.Stored.{
  Log, records_of, acks_of, good_acks, records_of-append, Segments,
}
use matching_engine_go.Journal.Writer.Kept.{IsStored, Flushed, flush-Flushed}
use matching_engine_go.Journal.Writer.Held.{accepted, EventFits, Held}
use matching_engine_go.Journal.Writer.Runs.{Run-Held, run_start-Held, enabled-running}

take-acks_of : (log pend : Log) → take (length (acks_of log)) (log ++ pend) ≡ log
take-acks_of [] pend = refl
take-acks_of ((ack, rec) ∷ log) pend = ap (λ (x : Log). (ack, rec) ∷ x) (take-acks_of log pend)

Segments-append :
    (crc : List ℕ → ℕ) (header : List ℕ) (xs ys : List (List ℕ)) (l k : Log)
    → Segments crc header xs l
    → Segments crc header ys k
    → Segments crc header (xs ++ ys) (l ++ k)
Segments-append crc header [] ys l k r s =
    subst (λ (x : Log). Segments crc header ys (x ++ k)) (sym r) s
Segments-append crc header (x ∷ xs) ys l k (first, others, e, h, r) s = (
  first,
  others ++ k,
  ap (λ (x : Log). x ++ k) e ∙ append_assoc first others k,
  h,
  Segments-append crc header xs ys others k r s,
)

-- The first of the accepted records, as many as there were good acks.
abbrev pub durable_log : (List ℕ → ℕ) → List Event → Writer → Log
durable_log crc es w = take (length (good_acks w.acked)) (accepted crc es)

-- The requests of Flush and of Shutdown.
abbrev pub barrier : Bool → ℕ → Request
barrier true done = shutdown_request done
barrier false done = flush_request done

module _ (crc : List ℕ → ℕ) (cfg : WriterConfig) (header : List ℕ)
    (encoded : encode_segment_header (header_of cfg) ≡ inr header) where
  abbrev pub Fits : Record → Type 0
  Fits rec = Readable cfg.shard_id rec

  durable_log-log :
      (es : List Event) (w : Writer) (h : IsStored crc cfg header encoded Fits (accepted crc es) w)
      → durable_log crc es w ≡ h.log
  durable_log-log es w h =
      ap (λ (n : ℕ). take n (accepted crc es)) (ap length h.good)
      ∙ ap (λ (x : Log). take (length (acks_of h.log)) x) (sym h.order)
      ∙ take-acks_of h.log h.pend

  acks_of-nil : (log : Log) → [] ≡ acks_of log → log ≡ []
  acks_of-nil [] e = refl
  acks_of-nil ((ack, rec) ∷ log) e = absurd cc

  flushed_all :
      (asked : Log) (w : Writer)
      → IsStored crc cfg header encoded Fits asked w
      → w.pending_acks ≡ []
      → good_acks w.acked ≡ acks_of asked
  flushed_all asked w h e =
      let none_left : h.pend ≡ [] = acks_of-nil h.pend (sym e ∙ h.waiting_acks) in
      h.good
      ∙ ap acks_of (sym (append-nil h.log) ∙ ap (λ (x : Log). h.log ++ x) (sym none_left) ∙ h.order)

  flush-acked :
      (asked : Log) (r : Bool × Writer)
      → Flushed crc cfg header encoded Fits asked r
      → r.1.failed_err ≡ none
      → good_acks r.1.acked ≡ acks_of asked
  flush-acked asked r (inl (t, h, e)) ok = flushed_all asked r.1 h e
  flush-acked asked r (inr (t, (err, f))) ok = absurd cc

  barrier-acked :
      (es : List Event) (w : Writer) (shutdown : Bool) (done : ℕ) (calls : BatchCalls)
      (left : List Request)
      → enabled (received (barrier shutdown done) calls left) w ≡ true
      → (handle crc (received (barrier shutdown done) calls left) w).failed_err ≡ none
      → Held crc cfg header encoded Fits (accepted crc es) w
      → good_acks (handle crc (received (barrier shutdown done) calls left) w).acked
        ≡ acks_of (accepted crc es)
  unfolding handle
  barrier-acked es w shutdown done calls left on ok (inr (q, d)) = absurd (
      enabled-running crc cfg header encoded Fits (received (barrier shutdown done) calls left) w on
        d)
  barrier-acked es w true done calls left on ok (inl h) =
      flush-acked (accepted crc es) (flush calls left w)
        (flush-Flushed crc cfg header encoded Fits (accepted crc es) calls left w h) ok
  barrier-acked es w false done calls left on ok (inl h) =
      flush-acked (accepted crc es) (flush calls left w)
        (flush-Flushed crc cfg header encoded Fits (accepted crc es) calls left w h) ok

  -- Where the header of the segments can be encoded and the requests bring readable records (of the shard,
  -- with fields of their widths and the number of the record in the command): when a run ends with a request to flush or to shut down and the writer has not failed, the
  -- acks that were good are those of all the records accepted before it, in their order.
  pub Run-barrier :
      (calls : OpenCalls) (remaining left : List Request) (es : List Event) (shutdown : Bool)
      (done : ℕ) (batch : BatchCalls) (w : Writer)
      → Run crc (run_start cfg calls remaining) (received (barrier shutdown done) batch left ∷ es) w
      → All (EventFits Fits) es
      → w.failed_err ≡ none
      → good_acks w.acked ≡ acks_of (accepted crc es)
  Run-barrier calls remaining left es shutdown done batch _ (next {w} _ r on) fs ok =
      barrier-acked es w shutdown done batch left on ok (
        Run-Held crc cfg header encoded Fits (run_start cfg calls remaining) es w
          (run_start-Held crc cfg header encoded Fits calls remaining) r fs)

  -- What a writer that has not failed holds, in terms of its run.
  pub Run-Segments :
      (calls : OpenCalls) (remaining : List Request) (es : List Event) (w : Writer)
      → All (EventFits Fits) es
      → Run crc (run_start cfg calls remaining) es w
      → w.failed_err ≡ none
      → (good_acks w.acked ≡ acks_of (durable_log crc es w))
        × Segments crc header w.segments (durable_log crc es w)
        × All Fits (records_of (durable_log crc es w))
        × (0 < length w.segments)
  Run-Segments calls remaining es w fs r ok = go (
      Run-Held crc cfg header encoded Fits (run_start cfg calls remaining) es w
        (run_start-Held crc cfg header encoded Fits calls remaining) r fs)
    where
      go :
          Held crc cfg header encoded Fits (accepted crc es) w
          → (good_acks w.acked ≡ acks_of (durable_log crc es w))
            × Segments crc header w.segments (durable_log crc es w)
            × All Fits (records_of (durable_log crc es w))
            × (0 < length w.segments)
      go (inl h) =
          subst
            (λ (l : Log).
              (good_acks w.acked ≡ acks_of l)
              × Segments crc header w.segments l
              × All Fits (records_of l)
              × (0 < length w.segments))
            (sym (durable_log-log es w h)) (h.good, h.stored, h.fit.0, h.opened)
      go (inr ((err, f), d)) = absurd cc

  module _ (small : (bs : List ℕ) → crc bs < 2 ^ 32) where
    -- Where the header of the segments can be encoded, the writer starts in a directory whose segments hold
    -- a log of readable records, and its requests bring readable records, at each point of a run at which
    -- the writer has not failed: the acks that were good are those of the first of the records that could
    -- be encoded, in their order, and reading the old segments and those of the run for the engine gives
    -- the old log and exactly these records. A readable record is of the shard, its fields fit their
    -- widths, and its command has the number of the record. Writes, syncs and rotations may have any
    -- answers; the segments are read in the order in which they were written, as their names sort up to
    -- the index 999999.
    pub read_shard_records_for_engine-Run :
        (calls : OpenCalls) (remaining : List Request) (old : List (List ℕ)) (old_log : Log)
        (es : List Event) (w : Writer)
        → Segments crc header old old_log
        → All Fits (records_of old_log)
        → All (EventFits Fits) es
        → Run crc (run_start cfg calls remaining) es w
        → w.failed_err ≡ none
        → (good_acks w.acked ≡ acks_of (durable_log crc es w))
          × (read_shard_records_for_engine crc cfg.engine_id cfg.shard_id cfg.shard_count
                (inr (map (λ (s : List ℕ). inr s) (old ++ w.segments)))
              ≡ some (inr (records_of old_log ++ records_of (durable_log crc es w))))
    unfolding read_shard_records_for_engine read_shard_records
    read_shard_records_for_engine-Run calls remaining old old_log es w os of fs r ok =
        let (good, stored, fit, opened) = Run-Segments calls remaining es w fs r ok in
        let log = durable_log crc es w in
        (
          good,
          read_files-Segments crc small cfg.engine_id cfg.shard_id cfg.shard_count true header
                (old ++ w.segments) (old_log ++ log) encoded
                (Segments-append crc header old w.segments old_log log os stored)
                (subst (λ (rs : List Record). All Fits rs) (sym (records_of-append old_log log))
                  (All-append Fits (records_of old_log) (records_of log) of fit))
              ∙ ap (λ (rs : List Record). some (inr rs)) (records_of-append old_log log),
        )
