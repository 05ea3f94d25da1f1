-- ===== src/Journal/Reader/Torn.antt =====
-- A segment with a torn tail where readSegment does not allow one.
use mathlib.Core.List.{append_assoc}
use mathlib.Core.Path.{subst}
use matching_engine_go.Prelude.{
  ℕ, zero, suc, ◌+◌, ◌^◌, ◌<◌, ◌≡◌, refl, List, [], ◌∷◌, ◌++◌, Bool, false, some, ◌==◌, inl, inr,
  All, length, arith, ap, sym, ◌∙◌, ==_refl, length-append, eq_bytes_refl,
}
use matching_engine_go.Journal.Bytes.{err, DecodeError}
use matching_engine_go.Journal.Codec.{
  Record, SegmentHeader, encode_record, encode_segment_header, decode_record,
}
use matching_engine_go.Journal.Payload.{IsRecord}
use matching_engine_go.Journal.Header.{decode_segment_header-encode_segment_header}
use matching_engine_go.Journal.RoundTrip.{decode_record-IsRecord, drop-append}
use matching_engine_go.Journal.Reader.{
  SegmentError, bad_record, read_records, read_segment, Frames, frame-ne-nil, and-false,
}

module _ (crc : List ℕ → ℕ) (small : (bs : List ℕ) → crc bs < 2 ^ 32) (shard_id : ℕ) where
  -- One round of the loop at the frame of a record, where the rest is refused.
  read_record-inl :
      (fuel : ℕ) (rec : Record) (frame behind : List ℕ) (e : SegmentError)
      → IsRecord rec
      → rec.shard_id ≡ shard_id
      → encode_record crc rec ≡ inr frame
      → read_records crc shard_id false fuel behind ≡ some (inl e)
      → read_records crc shard_id false (suc fuel) (frame ++ behind) ≡ some (inl e)
  unfolding read_records
  read_record-inl fuel rec [] behind x h s e r =
      absurd (omega (arith, frame-ne-nil crc small shard_id false rec [] h e))
  read_record-inl fuel rec (b ∷ bs) behind x h s e r =
      rw (decode_record-IsRecord crc small rec h (b ∷ bs) behind e, read_records)
        (rw (ap (λ (k : ℕ). k == shard_id) s ∙ ==_refl shard_id)
          (rw (drop-append (b ∷ bs) behind) (rw r refl)))

  read_records-torn :
      (fuel : ℕ) (records : List Record) (bytes tail : List ℕ) (x : DecodeError)
      → Frames crc records bytes
      → All (λ (rec : Record). IsRecord rec × (rec.shard_id ≡ shard_id)) records
      → 0 < length tail
      → decode_record crc tail ≡ err x
      → length (bytes ++ tail) < fuel
      → read_records crc shard_id false fuel (bytes ++ tail) ≡ some (inl (bad_record x))
  unfolding read_records
  read_records-torn zero records bytes tail x f h p d l = absurd (omega (arith, l))
  read_records-torn (suc fuel) [] bytes [] x f h p d l = absurd (omega (arith, p))
  read_records-torn (suc fuel) [] bytes (b ∷ bs) x f h p d l =
      subst
        (λ (cs : List ℕ).
          read_records crc shard_id false (suc fuel) (cs ++ b ∷ bs) ≡ some (inl (bad_record x)))
        (sym f) (rw (d, read_records) refl)
  read_records-torn (suc fuel) (rec ∷ records) bytes tail x (frame, others, e, f, b) ((h, s), hs) p
        d l =
      ap (read_records crc shard_id false (suc fuel)) split
      ∙ read_record-inl fuel rec frame (others ++ tail) (bad_record x) h s e (
          read_records-torn fuel records others tail x f hs p d
            (omega (arith, lengths, frame-ne-nil crc small shard_id false rec frame h e, l)))
    where
      split : bytes ++ tail ≡ frame ++ (others ++ tail)
      split = ap (λ (bs : List ℕ). bs ++ tail) b ∙ append_assoc frame others tail

      lengths : length (bytes ++ tail) ≡ length frame + length (others ++ tail)
      lengths = ap length split ∙ length-append frame (others ++ tail)

pub read_segment-torn :
    (crc : List ℕ → ℕ) (small : (bs : List ℕ) → crc bs < 2 ^ 32) (h : SegmentHeader) (head : List ℕ)
    (records : List Record) (bytes tail : List ℕ) (x : DecodeError) (validate : Bool)
    → h.shard_count < 2 ^ 16
    → h.shard_id < 2 ^ 16
    → encode_segment_header h ≡ inr head
    → Frames crc records bytes
    → All (λ (rec : Record). IsRecord rec × (rec.shard_id ≡ h.shard_id)) records
    → 0 < length tail
    → decode_record crc tail ≡ err x
    → read_segment crc h.shard_id false h.engine_id h.shard_count validate (head ++ (bytes ++ tail))
      ≡ some (inl (bad_record x))
unfolding read_segment
read_segment-torn crc small h head records bytes tail x validate count id e f hs p d =
    rw (decode_segment_header-encode_segment_header h head (bytes ++ tail) count id e, read_segment)
      (rw (==_refl h.shard_id) (
        rw (eq_bytes_refl h.engine_id) (
          rw (==_refl h.shard_count) (
            rw (drop-append head (bytes ++ tail)) (
              rw (and-false validate) (
                read_records-torn crc small h.shard_id (suc (length (head ++ (bytes ++ tail))))
                  records bytes tail x f hs p d
                  (omega (arith, length-append head (bytes ++ tail)))))))))
