-- ===== src/Journal/Header.antt =====
-- DecodeSegmentHeader reads back what EncodeSegmentHeader writes.
use mathlib.Core.List.{append-nil}
use matching_engine_go.Prelude.{
  ℕ, suc, ◌+◌, ◌-◌, ◌^◌, ◌<◌, ◌≡◌, refl, List, [], ◌∷◌, ◌++◌, true, false, ◌==◌, inl, inr, ltb,
  length, arith, ap, ◌∙◌, length-append, Bool-cases,
}
use mathlib.Core.Path.{subst}
use matching_engine_go.Journal.Bytes.{Decoded, ok, ◌>>=◌, put, read_checked-put, read_bytes-append}
use matching_engine_go.Journal.Codec.{
  SegmentHeader, engine_id_too_long, encode_segment_header, decode_segment_header, read_full,
  segment_magic, schema_version,
}

feed : {A B : Type 0} {m : Decoded A} {v : A} (f : A → Decoded B) → m ≡ ok v → (m >>= f) ≡ f v
feed f e = ap (λ m. m >>= f) e

read_full-append : (s behind : List ℕ) → read_full (length s) (s ++ behind) ≡ ok (s, behind)
unfolding read_full
read_full-append [] behind = refl
read_full-append (b ∷ s) behind =
    let l : ltb (suc (length (s ++ behind))) (suc (length s)) ≡ false =
      ground (arith, length-append s behind) in
    let z : (suc (length s) == 0) ≡ false = ground arith in
    let y : (suc (length (s ++ behind)) == 0) ≡ false = ground arith in
    rw (l, z, y, read_full) (read_bytes-append (b ∷ s) behind)

module _ (h : SegmentHeader) (count : h.shard_count < 2 ^ 16) (id : h.shard_id < 2 ^ 16)
    (short : length h.engine_id < 2 ^ 16) where
  header : List ℕ → List ℕ
  header behind = put 4 segment_magic (
      put 2 schema_version (
        put 2 h.shard_count
          (put 2 h.shard_id (put 2 (length h.engine_id) (h.engine_id ++ behind)))))

  length-header : (tail : List ℕ) → length (header tail) ≡ 12 + length h.engine_id + length tail
  unfolding header put
  length-header tail = omega (arith, length-append h.engine_id tail)

  header-round_trip :
      (tail : List ℕ)
      → decode_segment_header (header tail) ≡ ok (h, length (header tail) - length tail)
  unfolding decode_segment_header header
  header-round_trip tail =
      let b₅ = put 2 (length h.engine_id) (h.engine_id ++ tail) in
      let b₄ = put 2 h.shard_id b₅ in
      let b₃ = put 2 h.shard_count b₄ in
      feed _
        (read_checked-put 4 segment_magic (put 2 schema_version b₃) (omega arith) (omega arith))
      ∙ feed _ (read_checked-put 2 schema_version b₃ (omega arith) (omega arith))
      ∙ feed _ (read_checked-put 2 h.shard_count b₄ (omega arith) count)
      ∙ feed _ (read_checked-put 2 h.shard_id b₅ (omega arith) id)
      ∙ feed _ (read_checked-put 2 (length h.engine_id) (h.engine_id ++ tail) (omega arith) short)
      ∙ feed _ (read_full-append h.engine_id tail)

  header-append : (tail : List ℕ) → header [] ++ tail ≡ header tail
  unfolding header put
  header-append tail = rw append-nil refl

encoded :
    (h : SegmentHeader)
    → ltb 0xffff (length h.engine_id) ≡ false
    → (count : h.shard_count < 2 ^ 16) (id : h.shard_id < 2 ^ 16) (s : length h.engine_id < 2 ^ 16)
    → encode_segment_header h ≡ inr (header h count id s [])
unfolding encode_segment_header header
encoded h short count id s = rw (short, append-nil) refl

refused :
    (h : SegmentHeader)
    → ltb 0xffff (length h.engine_id) ≡ true
    → encode_segment_header h ≡ inl engine_id_too_long
unfolding encode_segment_header
refused h long = rw long refl

-- DecodeSegmentHeader reads back a header that EncodeSegmentHeader accepts, with the number of its
-- bytes, whatever bytes stand behind it, for shard numbers of two bytes.
pub decode_segment_header-encode_segment_header :
    (h : SegmentHeader) (bytes tail : List ℕ)
    → h.shard_count < 2 ^ 16
    → h.shard_id < 2 ^ 16
    → encode_segment_header h ≡ inr bytes
    → decode_segment_header (bytes ++ tail) ≡ ok (h, length bytes)
decode_segment_header-encode_segment_header h bytes tail count id e =
    elim (Bool-cases (ltb 0xffff (length h.engine_id))) [
      | inl long ↦ let f = refused h long in absurd cc
      | inr short ↦
          let s : length h.engine_id < 2 ^ 16 = ground arith in
          let f = encoded h short count id s in
          let whole : header h count id s [] ≡ bytes = cc in
          subst (λ (bs : List ℕ). decode_segment_header (bs ++ tail) ≡ ok (h, length bs)) whole
            (ap decode_segment_header (header-append h count id s tail)
              ∙ header-round_trip h count id s tail
              ∙ ap (λ (k : ℕ). ok (h, k))
                  (omega (arith, length-header h count id s tail, length-header h count id s [])))
    ]
