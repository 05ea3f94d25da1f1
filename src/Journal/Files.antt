-- ===== src/Journal/Files.antt =====
-- readShardRecords of internal/journal/reader.go: the segments of a shard one behind the other. What Glob
-- and ReadFile answer, for the file names as sort.Strings orders them, is an argument; a theorem that gives
-- it the segments of a writer takes them in the order in which they were written, which is that of the
-- names up to the index 999999. The outer `none` is fuel that ran
-- out.
use matching_engine_go.Prelude.{
  ℕ, ◌%◌, ◌^◌, ◌<◌, ◌≡◌, refl, List, [], ◌∷◌, ◌++◌, Bool, true, false, Option, none, some, ◌⊎◌, inl,
  inr, arith, All, map, ap, sym, ◌∙◌,
}
use mathlib.Core.List.{append-nil}
use mathlib.Core.Path.{subst}
use matching_engine_go.Journal.Codec.{Record, SegmentHeader, encode_segment_header}
use matching_engine_go.Journal.Payload.{IsRecord}
use matching_engine_go.Journal.Reader.{SegmentError, read_segment, read_segment-Frames}
use matching_engine_go.Journal.Writer.Stored.{
  Log, records_of, IsSegment, Segments, records_of-append,
}

pub data ReadError : Type 0 where
  glob_failed read_failed : List ℕ → ReadError
  segment_failed : SegmentError → ReadError

-- `idx == len(files)-1`, by the files behind this one.
abbrev pub is_last : List (List ℕ ⊎ List ℕ) → Bool
is_last [] = true
is_last (f ∷ fs) = false

-- `append(out, records...)`, by what readSegment returned and what the files behind hold.
unfoldable pub joined :
    Option (SegmentError ⊎ List Record)
    → Option (ReadError ⊎ List Record)
    → Option (ReadError ⊎ List Record)
joined none rest = none
joined (some (inl e)) rest = some (inl (segment_failed e))
joined (some (inr records)) none = none
joined (some (inr records)) (some (inl e)) = some (inl e)
joined (some (inr records)) (some (inr behind)) = some (inr (records ++ behind))

module _ (crc : List ℕ → ℕ) (engine_id : List ℕ) (shard_id shard_count : ℕ) (validate : Bool) where
  unfoldable pub read_files : List (List ℕ ⊎ List ℕ) → Option (ReadError ⊎ List Record)
  unfolding joined
  read_files [] = some (inr [])
  read_files (inl e ∷ fs) = some (inl (read_failed e))
  read_files (inr contents ∷ fs) =
      joined
        (read_segment crc (shard_id % 2 ^ 16) (is_last fs) engine_id (shard_count % 2 ^ 16) validate
          contents)
        (read_files fs)

  unfoldable pub read_shard_records :
      List ℕ ⊎ List (List ℕ ⊎ List ℕ) → Option (ReadError ⊎ List Record)
  unfolding read_files
  read_shard_records (inl e) = some (inl (glob_failed e))
  read_shard_records (inr files) = read_files files

unfoldable pub read_shard_records_for_engine :
    (List ℕ → ℕ)
    → List ℕ
    → ℕ
    → ℕ
    → List ℕ ⊎ List (List ℕ ⊎ List ℕ)
    → Option (ReadError ⊎ List Record)
unfolding read_shard_records
read_shard_records_for_engine crc engine_id shard_id shard_count files =
    read_shard_records crc engine_id shard_id shard_count true files

pub All-split :
    {A : Type 0} (P : A → Type 0) (xs ys : List A) → All P (xs ++ ys) → All P xs × All P ys
All-split P [] ys h = (tt, h)
All-split P (x ∷ xs) ys h = let r = All-split P xs ys h.1 in ((h.0, r.0), r.1)

-- Records that the codec gives back, of the shard that is read.
abbrev pub Readable : ℕ → Record → Type 0
Readable shard_id rec = IsRecord rec × (rec.shard_id ≡ shard_id % 2 ^ 16)

module _ (crc : List ℕ → ℕ) (small : (bs : List ℕ) → crc bs < 2 ^ 32) (engine_id : List ℕ)
    (shard_id shard_count : ℕ) (validate : Bool) where
  abbrev pub header : SegmentHeader
  header = record {
    engine_id = engine_id;
    shard_id = shard_id % 2 ^ 16;
    shard_count = shard_count % 2 ^ 16;
  }

  pub read_segment-IsSegment :
      (head s : List ℕ) (log : Log) (last : Bool)
      → encode_segment_header header ≡ inr head
      → IsSegment crc head s log
      → All (Readable shard_id) (records_of log)
      → read_segment crc (shard_id % 2 ^ 16) last engine_id (shard_count % 2 ^ 16) validate s
        ≡ some (inr (records_of log))
  read_segment-IsSegment head s log last e (bytes, f, b) h =
      ap
        (λ (x : List ℕ).
          read_segment crc (shard_id % 2 ^ 16) last engine_id (shard_count % 2 ^ 16) validate x)
        (b ∙ ap (λ (x : List ℕ). head ++ x) (sym (append-nil bytes)))
      ∙ read_segment-Frames crc small header head (records_of log) bytes [] last validate
          (omega arith) (omega arith) e f h (inl refl)

  -- Segments that hold the frames of a log read back as its records.
  pub read_files-Segments :
      (head : List ℕ) (segments : List (List ℕ)) (log : Log)
      → encode_segment_header header ≡ inr head
      → Segments crc head segments log
      → All (Readable shard_id) (records_of log)
      → read_files crc engine_id shard_id shard_count validate
          (map (λ (s : List ℕ). inr s) segments)
        ≡ some (inr (records_of log))
  unfolding read_files joined
  read_files-Segments head [] log e r h = ap (λ (l : Log). some (inr (records_of l))) (sym r)
  read_files-Segments head (s ∷ ss) log e (first, others, q, i, r) h =
      let (h1, h2) = All-split (Readable shard_id) (records_of first) (records_of others) (
        subst (λ (rs : List Record). All (Readable shard_id) rs)
          (ap records_of q ∙ records_of-append first others) h) in
      rw (read_segment-IsSegment head s first (is_last (map (λ (x : List ℕ). inr x) ss)) e i h1) (
        rw (read_files-Segments head ss others e r h2) (
          ap (λ (rs : List Record). some (inr rs))
            (sym (ap records_of q ∙ records_of-append first others))))
