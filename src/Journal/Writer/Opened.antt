-- ===== src/Journal/Writer/Opened.antt =====
-- What openNextSegment leaves where it succeeds: a new segment with a whole header.
use matching_engine_go.Prelude.{
  ℕ, ◌+◌, ◌≡◌, refl, List, [], ◌∷◌, ◌++◌, Bool, true, false, Option, none, some, ◌==◌, ◌⊎◌, inl,
  inr, ap, sym, ◌∙◌, length, take, ==_iff,
}
use matching_engine_go.Journal.Codec.{EncodeError, encode_segment_header}
use matching_engine_go.Journal.Writer.{
  Writer, header_of, OpenCalls, synced, wrote_header, created, closed_current, indexed,
  open_next_segment,
}
use matching_engine_go.Journal.Writer.Stored.{take-length}

-- The writer with another current segment.
abbrev pub moved : Writer → ℕ → Bool → ℕ → List (List ℕ) → Writer
moved w i f n segments = record w {
  segment_index = i;
  has_file = f;
  current_size = n;
  segments = segments;
}

-- openNextSegment succeeds only with a whole header in a new segment.
created-none :
    (err : Option (List ℕ)) (enc : EncodeError ⊎ List ℕ) (calls : OpenCalls) (w w' : Writer)
    → created err enc calls w ≡ (none, w')
    → (header : List ℕ) × (enc ≡ inr header)
      × (w' ≡ moved w (w.segment_index + 1) true (length header) (w.segments ++ header ∷ []))
unfolding created wrote_header synced
created-none (some e) enc calls w w' h = absurd cc
created-none none (inl x) calls w w' h = absurd cc
created-none none (inr header) calls w w' h =
    let (other, e, q) =
      go calls.write.error (calls.write.count == length header) calls.sync calls.sync_dir refl h in
    (other, ap (λ (x : List ℕ). inr x) e, q)
  where
    part : List (List ℕ)
    part = w.segments ++ take calls.write.count header ∷ []

    go :
        (e : Option (List ℕ)) (whole : Bool) (a b : Option (List ℕ))
        → (calls.write.count == length header) ≡ whole
        → wrote_header e whole header
            (record calls { sync = a; sync_dir = b })
            (record w { segments = part })
          ≡ (none, w')
        → (other : List ℕ) × (header ≡ other)
          × (w' ≡ moved w (w.segment_index + 1) true (length other) (w.segments ++ other ∷ []))
    go (some e) whole a b t g = absurd cc
    go none false a b t g = absurd cc
    go none true (some e) b t g = absurd cc
    go none true none (some e) t g = absurd cc
    go none true none none t g =
        let same : moved w (w.segment_index + 1) true (length header) part ≡ w' = cc in
        let n = (==_iff calls.write.count (length header)).0 t in
        let whole : take calls.write.count header ≡ header =
          ap (λ (k : ℕ). take k header) n ∙ take-length header in
        (
          header,
          refl,
          sym same
              ∙ ap
                  (λ (s : List ℕ).
                    moved w (w.segment_index + 1) true (length header) (w.segments ++ s ∷ []))
                  whole,
        )

closed_current-none :
    (f : Bool) (err : Option (List ℕ)) (calls : OpenCalls) (w w' : Writer)
    → closed_current f err calls w ≡ (none, w')
    → (header : List ℕ) × (encode_segment_header (header_of w.cfg) ≡ inr header)
      × (w' ≡ moved w (w.segment_index + 1) true (length header) (w.segments ++ header ∷ []))
unfolding closed_current
closed_current-none false err calls w w' h =
    created-none calls.create (encode_segment_header (header_of w.cfg)) calls w w' h
closed_current-none true (some e) calls w w' h = absurd cc
closed_current-none true none calls w w' h =
    created-none calls.create (encode_segment_header (header_of w.cfg)) calls
      (record w { has_file = false; current_size = 0 }) w' h

pub open_next_segment-none :
    (calls : OpenCalls) (w w' : Writer)
    → open_next_segment calls w ≡ (none, w')
    → (i : ℕ) × (header : List ℕ) × (encode_segment_header (header_of w.cfg) ≡ inr header)
      × (w' ≡ moved w i true (length header) (w.segments ++ header ∷ []))
unfolding open_next_segment indexed
open_next_segment-none calls w w' h = go (w.segment_index == 0) calls.index h
  where
    go :
        (zero : Bool) (index : List ℕ ⊎ ℕ)
        → indexed zero index calls w ≡ (none, w')
        → (i : ℕ) × (header : List ℕ) × (encode_segment_header (header_of w.cfg) ≡ inr header)
          × (w' ≡ moved w i true (length header) (w.segments ++ header ∷ []))
    go true (inl e) g = absurd cc
    go true (inr n) g =
        let (header, e, q) =
          closed_current-none w.has_file calls.close calls (record w { segment_index = n }) w' g in
        (n + 1, header, e, q)
    go false index g =
        let (header, e, q) = closed_current-none w.has_file calls.close calls w w' g in
        (w.segment_index + 1, header, e, q)
