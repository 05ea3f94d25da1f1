-- ===== src/Journal/Writer/Kept.antt =====
-- A flush of a writer that holds the records whose acks were good.
use matching_engine_go.Prelude.{
  ℕ, ◌<◌, ◌≡◌, refl, List, [], ◌∷◌, ◌++◌, Bool, true, false, Option, none, some, ◌==◌, ◌⊎◌, inl,
  inr, arith, ap, sym, ◌∙◌, map, length, take, All, All-append, length-append, ==_iff, lt64, add64,
}
use mathlib.Core.List.{append-nil}
use mathlib.Core.Path.{subst}
use matching_engine_go.Journal.Codec.{Record, encode_segment_header}
use matching_engine_go.Journal.Reader.{Frames}
use matching_engine_go.Journal.Writer.{
  Writer, WriterConfig, WriterError, header_of, Answer, BatchCalls, open_next_segment, put_last,
  wrote_batch, append_batch, opened_for, rotated, write_batch,
}
use matching_engine_go.Journal.Writer.Run.{
  Request, append_request, flush_request, shutdown_request, reject_remaining, set_terminal_error,
  ack_with, wrote, flush_by, flush,
}
use matching_engine_go.Journal.Writer.Stored.{
  Log, records_of, acks_of, good_acks, good_acks-append, records_of-append, acks_of-append,
  take-length, Segments, Segments-new, Segments-put_last,
}
use matching_engine_go.Journal.Writer.Opened.{moved, open_next_segment-none}

module _ (crc : List ℕ → ℕ) (cfg : WriterConfig) (header : List ℕ)
    (encoded : encode_segment_header (header_of cfg) ≡ inr header) (Fits : Record → Type 0) where
  -- The log of the records whose acks were good, and those that wait: together the records asked for.
  pub record IsStored (asked : Log) (w : Writer) : Type 0 where
    pub log : Log
    pub pend : Log
    pub order : log ++ pend ≡ asked
    pub opened : 0 < length w.segments
    pub stored : Segments crc header w.segments log
    pub waiting : Frames crc (records_of pend) w.pending_bytes
    pub waiting_acks : w.pending_acks ≡ acks_of pend
    pub good : good_acks w.acked ≡ acks_of log
    pub same_cfg : w.cfg ≡ cfg
    pub fit : All Fits (records_of log) × All Fits (records_of pend)

  -- What a good write did to the segments.
  abbrev Stores : Writer → List ℕ → Writer → Type 0
  Stores w batch w' =
      (i : ℕ) × (f : Bool) × (n : ℕ) × (segments : List (List ℕ)) × (w'
        ≡ moved w i f n (put_last batch segments))
      × ((segments ≡ w.segments) ⊎ (segments ≡ w.segments ++ header ∷ []))

  append_batch-none :
      (calls : BatchCalls) (batch : List ℕ) (w w' : Writer)
      → append_batch calls batch w ≡ (none, w')
      → (n : ℕ) × (w' ≡ moved w w.segment_index w.has_file n (put_last batch w.segments))
  unfolding append_batch wrote_batch
  append_batch-none calls batch w w' h =
      go calls.write.error (calls.write.count == length batch) calls.sync refl h
    where
      part : Writer
      part = record w { segments = put_last (take calls.write.count batch) w.segments }

      go :
          (e : Option (List ℕ)) (whole : Bool) (a : Option (List ℕ))
          → (calls.write.count == length batch) ≡ whole
          → wrote_batch e whole a batch part ≡ (none, w')
          → (n : ℕ) × (w' ≡ moved w w.segment_index w.has_file n (put_last batch w.segments))
      go (some e) whole a t g = absurd cc
      go none false a t g = absurd cc
      go none true (some e) t g = absurd cc
      go none true none t g =
          let n = add64 w.current_size (length batch) in
          let same : record part { current_size = n } ≡ w' = cc in
          let whole : take calls.write.count batch ≡ batch =
            ap (λ (k : ℕ). take k batch) ((==_iff calls.write.count (length batch)).0 t)
            ∙ take-length batch in
          (
            n,
            sym same
                ∙ ap (λ (b : List ℕ). moved w w.segment_index w.has_file n (put_last b w.segments))
                    whole,
          )

  put_last-nil : (ss : List (List ℕ)) → put_last [] ss ≡ ss
  unfolding put_last
  put_last-nil [] = refl
  put_last-nil (s ∷ []) = ap (λ (x : List ℕ). x ∷ []) (append-nil s)
  put_last-nil (s ∷ t ∷ ts) = ap (λ (x : List (List ℕ)). s ∷ x) (put_last-nil (t ∷ ts))

  write_batch-none :
      (calls : BatchCalls) (batch : List ℕ) (w w' : Writer)
      → w.cfg ≡ cfg
      → write_batch calls batch w ≡ (none, w')
      → Stores w batch w'
  unfolding write_batch rotated opened_for
  write_batch-none calls [] w w' c h =
      let q : w ≡ w' = cc in
      (
        w.segment_index,
        w.has_file,
        w.current_size,
        w.segments,
        sym q
            ∙ ap (λ (ss : List (List ℕ)). moved w w.segment_index w.has_file w.current_size ss)
                (sym (put_last-nil w.segments)),
        inl refl,
      )
  write_batch-none calls (b ∷ bs) w w' c h =
      go (lt64 w.cfg.segment_max_bytes (add64 w.current_size (length (b ∷ bs)))) h
    where
      after :
          (a : Answer)
          → open_next_segment calls.open_calls w ≡ a
          → opened_for calls (b ∷ bs) a ≡ (none, w')
          → Stores w (b ∷ bs) w'
      after (some e, v) o g = absurd cc
      after (none, v) o g =
          let (i, head, e, q) = open_next_segment-none calls.open_calls w v o in
          let (n, r) = append_batch-none calls (b ∷ bs) v w' g in
          let renamed : encode_segment_header (header_of cfg) ≡ inr head =
            ap (λ (k : WriterConfig). encode_segment_header (header_of k)) (sym c) ∙ e in
          let same : head ≡ header = cc in
          (
            i,
            true,
            n,
            w.segments ++ head ∷ [],
            r
                ∙ ap
                    (λ (x : Writer).
                      moved x x.segment_index x.has_file n (put_last (b ∷ bs) x.segments))
                    q,
            inr (ap (λ (x : List ℕ). w.segments ++ x ∷ []) same),
          )

      go : (past : Bool) → rotated past calls (b ∷ bs) w ≡ (none, w') → Stores w (b ∷ bs) w'
      go true g = after (open_next_segment calls.open_calls w) refl g
      go false g =
          let (n, q) = append_batch-none calls (b ∷ bs) w w' g in
          (w.segment_index, w.has_file, n, w.segments, q, inl refl)

  abbrev pub HasFailed : Writer → Type 0
  HasFailed w = (err : WriterError) × (w.failed_err ≡ some err)

  -- What a flush leaves.
  abbrev pub Flushed : Log → Bool × Writer → Type 0
  Flushed asked r =
      ((r.0 ≡ true) × IsStored asked r.1 × (r.1.pending_acks ≡ []))
      ⊎ ((r.0 ≡ false) × HasFailed r.1)

  pub reject_remaining-HasFailed :
      (err : WriterError) (reqs : List Request) (w : Writer)
      → HasFailed w
      → HasFailed (reject_remaining err reqs w)
  unfolding reject_remaining
  reject_remaining-HasFailed err [] w h = h
  reject_remaining-HasFailed err (append_request rec ack ∷ reqs) w h =
      reject_remaining-HasFailed err reqs (record w { acked = w.acked ++ (ack, some err) ∷ [] }) h
  reject_remaining-HasFailed err (flush_request done ∷ reqs) w h =
      reject_remaining-HasFailed err reqs (record w { closed = w.closed ++ done ∷ [] }) h
  reject_remaining-HasFailed err (shutdown_request done ∷ reqs) w h =
      reject_remaining-HasFailed err reqs (record w { closed = w.closed ++ done ∷ [] }) h

  pub set_terminal_error-some :
      (old : Option WriterError) (err : WriterError)
      → (e : WriterError) × (set_terminal_error old err ≡ some e)
  unfolding set_terminal_error
  set_terminal_error-some none err = (err, refl)
  set_terminal_error-some (some old) err = (old, refl)

  good_acks-none : (acks : List ℕ) → good_acks (map (ack_with none) acks) ≡ acks
  good_acks-none [] = refl
  good_acks-none (ack ∷ acks) = ap (λ (x : List ℕ). ack ∷ x) (good_acks-none acks)

  -- The state behind a good write, with the acks sent.
  wrote-IsStored :
      (asked : Log) (w : Writer) (i : ℕ) (f : Bool) (n : ℕ) (segments : List (List ℕ))
      (remaining : List Request)
      → (h : IsStored asked w) → (segments ≡ w.segments) ⊎ (segments ≡ w.segments ++ header ∷ [])
      → IsStored asked (wrote remaining (none, moved w i f n (put_last w.pending_bytes segments))).1
  unfolding wrote
  wrote-IsStored asked w i f n segments remaining h s =
      let (held, opened) = base s in
      let (r, l) =
        Segments-put_last crc header segments h.log h.pend w.pending_bytes opened held h.waiting in
      record {
        log = h.log ++ h.pend;
        pend = [];
        order = append-nil (h.log ++ h.pend) ∙ h.order;
        opened = l;
        stored = r;
        waiting = refl;
        waiting_acks = refl;
        good =
            good_acks-append w.acked (map (ack_with none) w.pending_acks)
            ∙ ap (λ (x : List ℕ). good_acks w.acked ++ x)
                (good_acks-none w.pending_acks ∙ h.waiting_acks)
            ∙ ap (λ (x : List ℕ). x ++ acks_of h.pend) h.good
            ∙ sym (acks_of-append h.log h.pend);
        same_cfg = h.same_cfg;
        fit = (
          subst (λ (rs : List Record). All Fits rs) (sym (records_of-append h.log h.pend))
              (All-append Fits (records_of h.log) (records_of h.pend) h.fit.0 h.fit.1),
          tt,
        );
      }
    where
      base :
          (segments ≡ w.segments) ⊎ (segments ≡ w.segments ++ header ∷ [])
          → Segments crc header segments h.log × (0 < length segments)
      base (inl e) =
          subst (λ (ss : List (List ℕ)). Segments crc header ss h.log × (0 < length ss)) (sym e)
            (h.stored, h.opened)
      base (inr e) =
          subst (λ (ss : List (List ℕ)). Segments crc header ss h.log × (0 < length ss)) (sym e)
            (
              Segments-new crc header w.segments h.log h.stored,
              omega (arith, length-append w.segments (header ∷ [])),
            )

  pub flush-Flushed :
      (asked : Log) (calls : BatchCalls) (remaining : List Request) (w : Writer)
      → IsStored asked w
      → Flushed asked (flush calls remaining w)
  unfolding flush flush_by wrote
  flush-Flushed asked calls remaining w h = go w.pending_acks refl
    where
      after :
          (a : Answer) → write_batch calls w.pending_bytes w ≡ a → Flushed asked (wrote remaining a)
      after (some err, v) o = inr (
        refl,
        reject_remaining-HasFailed err remaining
            (record v {
              failed_err = set_terminal_error v.failed_err err;
              acked = v.acked ++ map (ack_with (some err)) v.pending_acks;
            })
            (set_terminal_error-some v.failed_err err),
      )
      after (none, v) o =
          let (i, f, n, segments, q, s) = write_batch-none calls w.pending_bytes w v h.same_cfg o in
          subst (λ (x : Writer). Flushed asked (wrote remaining (none, x))) (sym q)
            (inl (refl, wrote-IsStored asked w i f n segments remaining h s, refl))

      go : (acks : List ℕ) → w.pending_acks ≡ acks → Flushed asked (flush_by acks calls remaining w)
      go [] e = inl (refl, h, e)
      go (ack ∷ acks) e = after (write_batch calls w.pending_bytes w) refl
