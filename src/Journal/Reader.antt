-- ===== src/Journal/Reader.antt =====
-- readSegment of internal/journal/reader.go, from the bytes of the file on. The outer `none` is fuel that
-- ran out.
pub mod Torn
use mathlib.Core.List.{append_assoc}
use matching_engine_go.Prelude.{
  ℕ, zero, suc, ◌+◌, ◌^◌, ◌<◌, ◌≡◌, refl, List, [], ◌∷◌, ◌++◌, Bool, true, false, not, ◌&&◌, Option,
  none, some, ◌==◌, ◌⊎◌, inl, inr, if◌then◌else◌, All, length, drop, arith, ap, sym, ◌∙◌, ◌>>=◌,
  eq_bytes, ==_refl, length-append, eq_bytes_refl,
}
use mathlib.Core.Path.{subst}
use matching_engine_go.Journal.Bytes.{ok, err, panic, DecodeError, unexpected_eof, end_of_file}
use matching_engine_go.Journal.Codec.{
  Record, SegmentHeader, encode_record, encode_segment_header, decode_record, decode_segment_header,
}
use matching_engine_go.Journal.Payload.{IsRecord}
use matching_engine_go.Journal.Header.{decode_segment_header-encode_segment_header}
use matching_engine_go.Journal.RoundTrip.{decode_record-IsRecord, drop-append}

pub data SegmentError : Type 0 where
  bad_header bad_record : DecodeError → SegmentError
  segment_shard_mismatch engine_id_mismatch shard_count_mismatch record_shard_mismatch :
      SegmentError

-- The two errors that end a segment whose tail may be cut.
unfoldable pub is_cut : DecodeError → Bool
is_cut unexpected_eof = true
is_cut end_of_file = true
is_cut _ = false

module _ (crc : List ℕ → ℕ) (expected_shard_id : ℕ) (allow_truncated_tail : Bool) where
  -- The loop over the records, at the bytes from the offset on.
  unfoldable pub read_records : ℕ → List ℕ → Option (SegmentError ⊎ List Record)
  unfolding is_cut
  read_records zero bytes = none
  read_records (suc fuel) [] = some (inr [])
  read_records (suc fuel) (b ∷ bs) = elim (decode_record crc (b ∷ bs)) [
    | panic ↦ none
    | err e ↦ if allow_truncated_tail && is_cut e then some (inr []) else some (inl (bad_record e))
    | ok (rec, consumed) ↦ do
      let more = read_records fuel (drop consumed (b ∷ bs))
      if not (rec.shard_id == expected_shard_id) then some (inl record_shard_mismatch) else (do
        rest ← more
        elim rest [ inl e ↦ some (inl e) | inr records ↦ some (inr (rec ∷ records)) ])
  ]

  unfoldable pub read_segment : List ℕ → ℕ → Bool → List ℕ → Option (SegmentError ⊎ List Record)
  unfolding read_records
  read_segment expected_engine_id expected_shard_count validate_metadata bytes =
      elim (decode_segment_header bytes) [
        | panic ↦ none
        | err e ↦
            if allow_truncated_tail && is_cut e then some (inr []) else some (inl (bad_header e))
        | ok (header, offset) ↦
            if not (header.shard_id == expected_shard_id)
            then some (inl segment_shard_mismatch)
            else if validate_metadata && not (eq_bytes header.engine_id expected_engine_id)
            then some (inl engine_id_mismatch)
            else if validate_metadata && not (header.shard_count == expected_shard_count)
            then some (inl shard_count_mismatch)
            else read_records (suc (length bytes)) (drop offset bytes)
      ]

-- The frames of some records, one behind the other.
abbrev pub Frames : (List ℕ → ℕ) → List Record → List ℕ → Type 0
Frames crc [] bytes = bytes ≡ []
Frames crc (rec ∷ records) bytes =
    (frame : List ℕ) × (others : List ℕ) × (encode_record crc rec ≡ inr frame)
    × Frames crc records others
    × (bytes ≡ frame ++ others)

-- Bytes that end a segment: none, or where a cut tail is allowed bytes that DecodeRecord finds too short.
abbrev pub IsTail : (List ℕ → ℕ) → Bool → List ℕ → Type 0
IsTail crc allow tail =
    (tail ≡ []) ⊎ ((allow ≡ true) × (decode_record crc tail ≡ err unexpected_eof))

module _ (crc : List ℕ → ℕ) (small : (bs : List ℕ) → crc bs < 2 ^ 32) (shard_id : ℕ)
    (allow : Bool) where
  read_tail :
      (fuel : ℕ) (tail : List ℕ)
      → IsTail crc allow tail
      → read_records crc shard_id allow (suc fuel) tail ≡ some (inr [])
  unfolding read_records is_cut
  read_tail fuel [] t = refl
  read_tail fuel (b ∷ bs) (inl e) = absurd cc
  read_tail fuel (b ∷ bs) (inr (a, e)) = rw (e, read_records) (rw a refl)

  frame-ne-nil :
      (rec : Record) (frame : List ℕ)
      → IsRecord rec
      → encode_record crc rec ≡ inr frame
      → 0 < length frame
  unfolding decode_record
  frame-ne-nil rec [] h e = absurd cc (decode_record-IsRecord crc small rec h [] [] e)
  frame-ne-nil rec (b ∷ bs) h e = omega arith

  -- One round of the loop at the frame of a record.
  read_record :
      (fuel : ℕ) (rec : Record) (frame behind : List ℕ) (records : List Record)
      → IsRecord rec
      → rec.shard_id ≡ shard_id
      → encode_record crc rec ≡ inr frame
      → read_records crc shard_id allow fuel behind ≡ some (inr records)
      → read_records crc shard_id allow (suc fuel) (frame ++ behind) ≡ some (inr (rec ∷ records))
  unfolding read_records
  read_record fuel rec [] behind records h s e r = absurd (omega (arith, frame-ne-nil rec [] h e))
  read_record fuel rec (b ∷ bs) behind records h s e r =
      rw (decode_record-IsRecord crc small rec h (b ∷ bs) behind e, read_records)
        (rw (ap (λ (k : ℕ). k == shard_id) s ∙ ==_refl shard_id)
          (rw (drop-append (b ∷ bs) behind) (rw r refl)))

  read_records-Frames :
      (fuel : ℕ) (records : List Record) (bytes tail : List ℕ)
      → Frames crc records bytes
      → All (λ (rec : Record). IsRecord rec × (rec.shard_id ≡ shard_id)) records
      → IsTail crc allow tail
      → length (bytes ++ tail) < fuel
      → read_records crc shard_id allow fuel (bytes ++ tail) ≡ some (inr records)
  read_records-Frames zero records bytes tail f h t l = absurd (omega (arith, l))
  read_records-Frames (suc fuel) [] bytes tail f h t l =
      subst
        (λ (bs : List ℕ). read_records crc shard_id allow (suc fuel) (bs ++ tail) ≡ some (inr []))
        (sym f) (read_tail fuel tail t)
  read_records-Frames (suc fuel) (rec ∷ records) bytes tail (frame, others, e, f, b) ((h, s), hs) t
        l =
      ap (read_records crc shard_id allow (suc fuel)) split
      ∙ read_record fuel rec frame (others ++ tail) records h s e (
          read_records-Frames fuel records others tail f hs t
            (omega (arith, lengths, frame-ne-nil rec frame h e, l)))
    where
      split : bytes ++ tail ≡ frame ++ (others ++ tail)
      split = ap (λ (bs : List ℕ). bs ++ tail) b ∙ append_assoc frame others tail

      lengths : length (bytes ++ tail) ≡ length frame + length (others ++ tail)
      lengths = ap length split ∙ length-append frame (others ++ tail)

and-false : (b : Bool) → (b && false) ≡ false
and-false true = refl
and-false false = refl

-- A segment file that starts with an encoded header and goes on with the frames of records of the same
-- shard, whose fields fit their widths and whose commands have the numbers of the records, reads back as
-- these records, whether or not the metadata is checked. Behind the frames may
-- stand bytes that DecodeRecord finds too short, where a cut tail is allowed. The shard numbers have two
-- bytes, and the loop ends.
pub read_segment-Frames :
    (crc : List ℕ → ℕ) (small : (bs : List ℕ) → crc bs < 2 ^ 32) (h : SegmentHeader) (head : List ℕ)
    (records : List Record) (bytes tail : List ℕ) (allow validate : Bool)
    → h.shard_count < 2 ^ 16
    → h.shard_id < 2 ^ 16
    → encode_segment_header h ≡ inr head
    → Frames crc records bytes
    → All (λ (rec : Record). IsRecord rec × (rec.shard_id ≡ h.shard_id)) records
    → IsTail crc allow tail
    → read_segment crc h.shard_id allow h.engine_id h.shard_count validate (head ++ (bytes ++ tail))
      ≡ some (inr records)
unfolding read_segment
read_segment-Frames crc small h head records bytes tail allow validate count id e f hs t =
    rw (decode_segment_header-encode_segment_header h head (bytes ++ tail) count id e, read_segment)
      (rw (==_refl h.shard_id) (
        rw (eq_bytes_refl h.engine_id) (
          rw (==_refl h.shard_count)
            (rw (drop-append head (bytes ++ tail)) (rw (and-false validate) all_read)))))
  where
    all_read :
        read_records crc h.shard_id allow (suc (length (head ++ (bytes ++ tail)))) (bytes ++ tail)
        ≡ some (inr records)
    all_read =
        read_records-Frames crc small h.shard_id allow (suc (length (head ++ (bytes ++ tail))))
          records bytes tail f hs t (omega (arith, length-append head (bytes ++ tail)))
