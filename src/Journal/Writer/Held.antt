-- ===== src/Journal/Writer/Held.antt =====
-- Every event leaves a writer that holds the records whose acks were good, or one that has failed and ended.
use matching_engine_go.Prelude.{
  ℕ, ◌≡◌, refl, List, [], ◌∷◌, ◌++◌, Bool, true, false, some, ◌⊎◌, inl, inr, ap, sym, ◌∙◌, All,
  All-append,
}
use mathlib.Core.List.{append_assoc, append-nil}
use mathlib.Core.Path.{subst}
use matching_engine_go.Journal.Codec.{
  Record, EncodeError, encode_record, append_encoded_record, encode_segment_header,
}
use matching_engine_go.Journal.Reader.{Frames}
use matching_engine_go.Journal.Writer.{Writer, WriterConfig, encode_failed, header_of, BatchCalls}
use matching_engine_go.Journal.Writer.Run.{
  Request, append_request, flush_request, shutdown_request, flush, or_return, flush_if, appended,
  is_full, Event, received, timer_fired, handle,
}
use matching_engine_go.Journal.Writer.Stored.{
  Log, records_of, good_acks, good_acks-append, records_of-append, acks_of-append, Frames-append,
  append_encoded_record-inr, append_encoded_record-inl,
}
use matching_engine_go.Journal.Writer.Kept.{IsStored, HasFailed, Flushed, flush-Flushed}

-- The records that the writer was asked to append and could encode, in their order.
abbrev pub asked_by : EncodeError ⊎ List ℕ → ℕ → Record → Log
asked_by (inl x) ack rec = []
asked_by (inr frame) ack rec = (ack, rec) ∷ []

module _ (crc : List ℕ → ℕ) where
  abbrev pub asked_at : Event → Log
  asked_at (received (append_request rec ack) calls remaining) =
      asked_by (encode_record crc rec) ack rec
  asked_at (received (flush_request done) calls remaining) = []
  asked_at (received (shutdown_request done) calls remaining) = []
  asked_at (timer_fired calls remaining) = []

  abbrev pub accepted : List Event → Log
  accepted [] = []
  accepted (e ∷ es) = accepted es ++ asked_at e

-- What holds of the records that the events bring.
abbrev pub EventFits : (Record → Type 0) → Event → Type 0
EventFits Fits (received (append_request rec ack) calls remaining) = Fits rec
EventFits Fits (received (flush_request done) calls remaining) = Unit
EventFits Fits (received (shutdown_request done) calls remaining) = Unit
EventFits Fits (timer_fired calls remaining) = Unit

module _ (crc : List ℕ → ℕ) (cfg : WriterConfig) (header : List ℕ)
    (encoded : encode_segment_header (header_of cfg) ≡ inr header) (Fits : Record → Type 0) where
  abbrev Stored : Log → Writer → Type 0
  Stored asked w = IsStored crc cfg header encoded Fits asked w

  abbrev Failed : Writer → Type 0
  Failed w = HasFailed crc cfg header encoded Fits w

  abbrev pub Held : Log → Writer → Type 0
  Held asked w = Stored asked w ⊎ (Failed w × (w.is_done ≡ true))

  -- The fields that the invariant does not read.
  ended :
      (asked : Log) (w : Writer) (d : Bool) (closed : List ℕ)
      → Stored asked w
      → Stored asked (record w { is_done = d; closed = closed })
  ended asked w d closed h = record {
    log = h.log;
    pend = h.pend;
    order = h.order;
    opened = h.opened;
    stored = h.stored;
    waiting = h.waiting;
    waiting_acks = h.waiting_acks;
    good = h.good;
    same_cfg = h.same_cfg;
    fit = h.fit;
  }

  or_return-Held :
      (asked : Log) (r : Bool × Writer)
      → Flushed crc cfg header encoded Fits asked r
      → Held asked (or_return r)
  or_return-Held asked (true, v) (inl (e, h, a)) = inl (ended asked v v.is_done v.closed h)
  or_return-Held asked (true, v) (inr (e, f)) = absurd cc
  or_return-Held asked (false, v) (inl (e, h, a)) = absurd cc
  or_return-Held asked (false, v) (inr (e, f)) = inr (f, refl)

  closed-Held :
      (asked : Log) (w : Writer) (done : ℕ)
      → Held asked w
      → Held asked (record w { closed = w.closed ++ done ∷ [] })
  closed-Held asked w done (inl h) = inl (ended asked w w.is_done (w.closed ++ done ∷ []) h)
  closed-Held asked w done (inr f) = inr f

  shutdown-Held :
      (asked : Log) (r : Bool × Writer) (done : ℕ)
      → Flushed crc cfg header encoded Fits asked r
      → Held asked (record r.1 { closed = r.1.closed ++ done ∷ []; is_done = true })
  shutdown-Held asked r done (inl (e, h, a)) =
      inl (ended asked r.1 true (r.1.closed ++ done ∷ []) h)
  shutdown-Held asked r done (inr (e, f)) = inr (f, refl)

  flush_if-Held :
      (asked : Log) (full : Bool) (calls : BatchCalls) (remaining : List Request) (w : Writer)
      → Stored asked w
      → Held asked (flush_if full calls remaining w)
  unfolding flush_if
  flush_if-Held asked true calls remaining w h =
      or_return-Held asked (flush calls remaining w)
        (flush-Flushed crc cfg header encoded Fits asked calls remaining w h)
  flush_if-Held asked false calls remaining w h = inl h

  -- A record that could be encoded waits.
  asked-Stored :
      (asked : Log) (rec : Record) (ack : ℕ) (bytes frame : List ℕ) (w : Writer)
      → Fits rec
      → Stored asked w
      → encode_record crc rec ≡ inr frame
      → bytes ≡ w.pending_bytes ++ frame
      → Stored (asked ++ (ack, rec) ∷ []) (record w {
        pending_bytes = bytes;
        pending_acks = w.pending_acks ++ ack ∷ [];
        timer_armed = true;
      })
  asked-Stored asked rec ack bytes frame w f h e b = record {
    log = h.log;
    pend = h.pend ++ (ack, rec) ∷ [];
    order =
        sym (append_assoc h.log h.pend ((ack, rec) ∷ []))
        ∙ ap (λ (x : Log). x ++ (ack, rec) ∷ []) h.order;
    opened = h.opened;
    stored = h.stored;
    waiting =
        subst (λ (rs : List Record). Frames crc rs bytes)
          (sym (records_of-append h.pend ((ack, rec) ∷ [])))
          (subst (λ (bs : List ℕ). Frames crc (records_of h.pend ++ rec ∷ []) bs) (sym b)
            (Frames-append crc (records_of h.pend) (rec ∷ []) w.pending_bytes frame h.waiting
              (frame, [], e, refl, sym (append-nil frame))));
    waiting_acks =
        ap (λ (x : List ℕ). x ++ ack ∷ []) h.waiting_acks
        ∙ sym (acks_of-append h.pend ((ack, rec) ∷ []));
    good = h.good;
    same_cfg = h.same_cfg;
    fit = (
      h.fit.0,
      subst (λ (rs : List Record). All Fits rs) (sym (records_of-append h.pend ((ack, rec) ∷ [])))
          (All-append Fits (records_of h.pend) (rec ∷ []) h.fit.1 (f, tt)),
    );
  }

  -- A record that could not be encoded leaves the batch as it was.
  refused-Stored :
      (asked : Log) (ack : ℕ) (x : EncodeError) (w : Writer)
      → Stored asked w
      → Stored asked (record w { acked = w.acked ++ (ack, some (encode_failed x)) ∷ [] })
  refused-Stored asked ack x w h = record {
    log = h.log;
    pend = h.pend;
    order = h.order;
    opened = h.opened;
    stored = h.stored;
    waiting = h.waiting;
    waiting_acks = h.waiting_acks;
    good =
        good_acks-append w.acked ((ack, some (encode_failed x)) ∷ [])
        ∙ append-nil (good_acks w.acked)
        ∙ h.good;
    same_cfg = h.same_cfg;
    fit = h.fit;
  }

  appended-Held :
      (asked : Log) (rec : Record) (ack : ℕ) (calls : BatchCalls) (remaining : List Request)
      (w : Writer) (r : EncodeError ⊎ List ℕ)
      → Fits rec
      → Stored asked w
      → append_encoded_record crc w.pending_bytes rec ≡ r
      → Held (asked ++ asked_by (encode_record crc rec) ack rec) (appended r ack calls remaining w)
  unfolding appended
  appended-Held asked rec ack calls remaining w (inl x) f h e =
      subst (λ (a : Log). Held a (appended (inl x) ack calls remaining w))
        (sym (append-nil asked)
          ∙ ap (λ (q : EncodeError ⊎ List ℕ). asked ++ asked_by q ack rec)
              (sym (append_encoded_record-inl crc w.pending_bytes rec x e)))
        (inl (refused-Stored asked ack x w h))
  appended-Held asked rec ack calls remaining w (inr bytes) f h e =
      let (frame, g, b) = append_encoded_record-inr crc w.pending_bytes bytes rec e in
      let w' = record w {
        pending_bytes = bytes;
        pending_acks = w.pending_acks ++ ack ∷ [];
        timer_armed = true;
      } in
      subst (λ (a : Log). Held a (appended (inr bytes) ack calls remaining w))
        (ap (λ (q : EncodeError ⊎ List ℕ). asked ++ asked_by q ack rec) (sym g))
        (flush_if-Held (asked ++ (ack, rec) ∷ []) (is_full w') calls remaining w'
          (asked-Stored asked rec ack bytes frame w f h g b))

  pub handle-Held :
      (asked : Log) (e : Event) (w : Writer)
      → EventFits Fits e
      → Stored asked w
      → Held (asked ++ asked_at crc e) (handle crc e w)
  unfolding handle
  handle-Held asked (received (append_request rec ack) calls remaining) w f h =
      appended-Held asked rec ack calls remaining w (append_encoded_record crc w.pending_bytes rec)
        f h refl
  handle-Held asked (received (flush_request done) calls remaining) w f h =
      subst (λ (a : Log). Held a (handle crc (received (flush_request done) calls remaining) w))
        (sym (append-nil asked))
        (closed-Held asked (or_return (flush calls remaining w)) done (
          or_return-Held asked (flush calls remaining w)
            (flush-Flushed crc cfg header encoded Fits asked calls remaining w h)))
  handle-Held asked (received (shutdown_request done) calls remaining) w f h =
      subst (λ (a : Log). Held a (handle crc (received (shutdown_request done) calls remaining) w))
        (sym (append-nil asked))
        (shutdown-Held asked (flush calls remaining w) done
          (flush-Flushed crc cfg header encoded Fits asked calls remaining w h))
  handle-Held asked (timer_fired calls remaining) w f h =
      subst (λ (a : Log). Held a (handle crc (timer_fired calls remaining) w))
        (sym (append-nil asked))
        (or_return-Held asked (flush calls remaining w)
          (flush-Flushed crc cfg header encoded Fits asked calls remaining w h))
