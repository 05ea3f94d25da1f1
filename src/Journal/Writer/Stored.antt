-- ===== src/Journal/Writer/Stored.antt =====
-- What the segments of a writer that has not failed hold: the header, and the frames of some records.
use matching_engine_go.Prelude.{
  ℕ, ◌<◌, ◌≡◌, refl, List, [], ◌∷◌, ◌++◌, Option, none, some, ◌⊎◌, inl, inr, arith, ap, sym, ◌∙◌,
  length, take,
}
use mathlib.Core.List.{append_assoc, append-nil}
use mathlib.Core.Path.{subst}
use matching_engine_go.Journal.Codec.{
  Record, EncodeError, encode_record, append_encoded_record, payload_size, encode_header,
  encode_payload,
}
use matching_engine_go.Journal.Bytes.{put}
use matching_engine_go.Journal.Reader.{Frames}
use matching_engine_go.Journal.Writer.{WriterError, put_last}

-- Records with the channels of their acks.
abbrev pub Log : Type 0
Log = List (ℕ × Record)

abbrev pub records_of : Log → List Record
records_of [] = []
records_of ((ack, rec) ∷ log) = rec ∷ records_of log

abbrev pub acks_of : Log → List ℕ
acks_of [] = []
acks_of ((ack, rec) ∷ log) = ack ∷ acks_of log

-- The acks that were good, in their order.
abbrev pub good_acks : List (ℕ × Option WriterError) → List ℕ
good_acks [] = []
good_acks ((ack, none) ∷ acked) = ack ∷ good_acks acked
good_acks ((ack, some e) ∷ acked) = good_acks acked

pub good_acks-append :
    (xs ys : List (ℕ × Option WriterError)) → good_acks (xs ++ ys) ≡ good_acks xs ++ good_acks ys
good_acks-append [] ys = refl
good_acks-append ((ack, none) ∷ xs) ys = ap (λ (as' : List ℕ). ack ∷ as') (good_acks-append xs ys)
good_acks-append ((ack, some e) ∷ xs) ys = good_acks-append xs ys

pub records_of-append : (xs ys : Log) → records_of (xs ++ ys) ≡ records_of xs ++ records_of ys
records_of-append [] ys = refl
records_of-append ((ack, rec) ∷ xs) ys =
    ap (λ (rs : List Record). rec ∷ rs) (records_of-append xs ys)

pub acks_of-append : (xs ys : Log) → acks_of (xs ++ ys) ≡ acks_of xs ++ acks_of ys
acks_of-append [] ys = refl
acks_of-append ((ack, rec) ∷ xs) ys = ap (λ (as' : List ℕ). ack ∷ as') (acks_of-append xs ys)

pub take-length : {A : Type 0} (xs : List A) → take (length xs) xs ≡ xs
take-length [] = refl
take-length {A} (x ∷ xs) = ap (λ (ys : List A). x ∷ ys) (take-length xs)

module _ (crc : List ℕ → ℕ) where
  pub Frames-append :
      (xs ys : List Record) (bs cs : List ℕ)
      → Frames crc xs bs
      → Frames crc ys cs
      → Frames crc (xs ++ ys) (bs ++ cs)
  Frames-append [] ys bs cs f g = subst (λ (b : List ℕ). Frames crc ys (b ++ cs)) (sym f) g
  Frames-append (rec ∷ xs) ys bs cs (frame, others, e, f, b) g = (
    frame,
    others ++ cs,
    e,
    Frames-append xs ys others cs f g,
    ap (λ (x : List ℕ). x ++ cs) b ∙ append_assoc frame others cs,
  )

  -- appendEncodedRecord adds one frame.
  pub append_encoded_record-inr :
      (dst bytes : List ℕ) (rec : Record)
      → append_encoded_record crc dst rec ≡ inr bytes
      → (frame : List ℕ) × (encode_record crc rec ≡ inr frame) × (bytes ≡ dst ++ frame)
  unfolding append_encoded_record encode_record
  append_encoded_record-inr dst bytes rec e = go (payload_size rec) refl
    where
      go :
          (r : EncodeError ⊎ ℕ)
          → payload_size rec ≡ r
          → (frame : List ℕ) × (encode_record crc rec ≡ inr frame) × (bytes ≡ dst ++ frame)
      go (inl x) f = let g = rw (f, append_encoded_record) at e in absurd cc
      go (inr n) f =
          let head = encode_header rec n (encode_payload rec) in
          let g = rw (f, append_encoded_record) at e in
          let q : (dst ++ head) ++ put 4 (crc head) [] ≡ bytes = cc in
          (
            head ++ put 4 (crc head) [],
            rw (f, append_encoded_record) refl,
            sym q ∙ append_assoc dst head (put 4 (crc head) []),
          )

  pub append_encoded_record-inl :
      (dst : List ℕ) (rec : Record) (x : EncodeError)
      → append_encoded_record crc dst rec ≡ inl x
      → encode_record crc rec ≡ inl x
  unfolding append_encoded_record encode_record
  append_encoded_record-inl dst rec x e = go (payload_size rec) refl
    where
      go : (r : EncodeError ⊎ ℕ) → payload_size rec ≡ r → encode_record crc rec ≡ inl x
      go (inl y) f = let g = rw (f, append_encoded_record) at e in rw (f, append_encoded_record) cc
      go (inr n) f = let g = rw (f, append_encoded_record) at e in absurd cc

  module _ (header : List ℕ) where
    -- A segment holds the records of a log.
    abbrev pub IsSegment : List ℕ → Log → Type 0
    IsSegment s log = (bytes : List ℕ) × Frames crc (records_of log) bytes × (s ≡ header ++ bytes)

    abbrev pub Segments : List (List ℕ) → Log → Type 0
    Segments [] log = log ≡ []
    Segments (s ∷ ss) log =
        (first : Log) × (others : Log) × (log ≡ first ++ others)
        × IsSegment s first
        × Segments ss others

    pub Segments-new :
        (ss : List (List ℕ)) (log : Log) → Segments ss log → Segments (ss ++ header ∷ []) log
    Segments-new [] log e = ([], [], e, ([], refl, sym (append-nil header)), refl)
    Segments-new (s ∷ ss) log (first, others, e, h, r) =
        (first, others, e, h, Segments-new ss others r)

    pub Segments-put_last :
        (ss : List (List ℕ)) (log batch : Log) (bytes : List ℕ)
        → 0 < length ss
        → Segments ss log
        → Frames crc (records_of batch) bytes
        → Segments (put_last bytes ss) (log ++ batch) × (0 < length (put_last bytes ss))
    unfolding put_last
    Segments-put_last [] log batch bytes l r f = absurd (omega (arith, l))
    Segments-put_last (s ∷ []) log batch bytes l (first, others, e, (old, g, b), r) f = (
      (
        first ++ batch,
        [],
        ap (λ (x : Log). x ++ batch) (e ∙ ap (λ (x : Log). first ++ x) r ∙ append-nil first)
            ∙ sym (append-nil (first ++ batch)),
        (
          old ++ bytes,
          subst (λ (rs : List Record). Frames crc rs (old ++ bytes))
              (sym (records_of-append first batch))
              (Frames-append (records_of first) (records_of batch) old bytes g f),
          ap (λ (x : List ℕ). x ++ bytes) b ∙ append_assoc header old bytes,
        ),
        refl,
      ),
      omega arith,
    )
    Segments-put_last (s ∷ t ∷ ts) log batch bytes l (first, others, e, h, r) f =
        let (r', l') = Segments-put_last (t ∷ ts) others batch bytes (omega arith) r f in
        (
          (
            first,
            others ++ batch,
            ap (λ (x : Log). x ++ batch) e ∙ append_assoc first others batch,
            h,
            r',
          ),
          omega arith,
        )
