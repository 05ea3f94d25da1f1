-- ===== src/Journal/Writer/Runs.antt =====
-- At each point of a run the writer holds the records whose acks were good, or has failed and ended.
use matching_engine_go.Prelude.{
  ℕ, ◌≡◌, refl, List, [], ◌∷◌, ◌++◌, true, none, some, inl, inr, ap, sym, ◌∙◌, arith, length, All,
}
use mathlib.Core.List.{append-nil}
use mathlib.Core.Path.{subst}
use matching_engine_go.Journal.Codec.{Record, encode_segment_header}
use matching_engine_go.Journal.Writer.{
  Writer, WriterConfig, WriterError, header_of, Answer, OpenCalls, open_next_segment,
}
use matching_engine_go.Journal.Writer.Run.{
  Request, append_request, flush_request, shutdown_request, set_terminal_error, reject_remaining,
  Event, received, timer_fired, enabled, handle, Run, here, next, initial, started, run_start,
}
use matching_engine_go.Journal.Writer.Stored.{Log}
use matching_engine_go.Journal.Writer.Opened.{moved, open_next_segment-none}
use matching_engine_go.Journal.Writer.Kept.{HasFailed, set_terminal_error-some}
use matching_engine_go.Journal.Writer.Held.{accepted, EventFits, Held, handle-Held}

module _ (crc : List ℕ → ℕ) (cfg : WriterConfig) (header : List ℕ)
    (encoded : encode_segment_header (header_of cfg) ≡ inr header) (Fits : Record → Type 0) where
  abbrev Failed : Writer → Type 0
  Failed w = HasFailed crc cfg header encoded Fits w

  -- rejectRemaining keeps that the writer failed and ended.
  reject_remaining-Held :
      (asked : Log) (err : WriterError) (reqs : List Request) (w : Writer)
      → Failed w
      → w.is_done ≡ true
      → Held crc cfg header encoded Fits asked (reject_remaining err reqs w)
  unfolding reject_remaining
  reject_remaining-Held asked err [] w f d = inr (f, d)
  reject_remaining-Held asked err (append_request rec ack ∷ reqs) w f d =
      reject_remaining-Held asked err reqs (record w { acked = w.acked ++ (ack, some err) ∷ [] }) f
        d
  reject_remaining-Held asked err (flush_request done ∷ reqs) w f d =
      reject_remaining-Held asked err reqs (record w { closed = w.closed ++ done ∷ [] }) f d
  reject_remaining-Held asked err (shutdown_request done ∷ reqs) w f d =
      reject_remaining-Held asked err reqs (record w { closed = w.closed ++ done ∷ [] }) f d

  pub enabled-running : (e : Event) (w : Writer) → enabled e w ≡ true → w.is_done ≡ true → ⊥
  unfolding enabled
  enabled-running (received req calls remaining) w h d = absurd (let g = rw d at h in cc)
  enabled-running (timer_fired calls remaining) w h d = absurd (let g = rw d at h in cc)

  pub Run-Held :
      (start : Writer) (es : List Event) (w : Writer)
      → Held crc cfg header encoded Fits [] start
      → Run crc start es w
      → All (EventFits Fits) es
      → Held crc cfg header encoded Fits (accepted crc es) w
  Run-Held start _ _ s here f = s
  Run-Held start _ _ s (next {es} {w} e r on) (f, fs) = go (Run-Held start es w s r fs)
    where
      go :
          Held crc cfg header encoded Fits (accepted crc es) w
          → Held crc cfg header encoded Fits (accepted crc (e ∷ es)) (handle crc e w)
      go (inl h) = handle-Held crc cfg header encoded Fits (accepted crc es) e w f h
      go (inr (q, d)) = absurd (enabled-running e w on d)

  -- run behind openNextSegment.
  pub run_start-Held :
      (calls : OpenCalls) (remaining : List Request)
      → Held crc cfg header encoded Fits [] (run_start cfg calls remaining)
  unfolding run_start started
  run_start-Held calls remaining = go (open_next_segment calls (initial cfg)) refl
    where
      go :
          (a : Answer)
          → open_next_segment calls (initial cfg) ≡ a
          → Held crc cfg header encoded Fits [] (started remaining a)
      go (some err, v) o =
          reject_remaining-Held [] err remaining
            (record v { failed_err = set_terminal_error v.failed_err err; is_done = true })
            (set_terminal_error-some crc cfg header encoded Fits v.failed_err err) refl
      go (none, v) o =
          let (i, head, e, q) = open_next_segment-none calls (initial cfg) v o in
          let same : head ≡ header = cc in
          subst (λ (x : Writer). Held crc cfg header encoded Fits [] x)
            (sym (q ∙ ap (λ (x : List ℕ). moved (initial cfg) i true (length x) (x ∷ [])) same))
            (inl (record {
              log = [];
              pend = [];
              order = refl;
              opened = omega arith;
              stored = ([], [], refl, ([], refl, sym (append-nil header)), refl);
              waiting = refl;
              waiting_acks = refl;
              good = refl;
              same_cfg = refl;
              fit = (tt, tt);
            }))
