-- ===== src/Journal/RoundTrip/Cut.antt =====
-- DecodeRecord on a frame that is cut off.
use matching_engine_go.Prelude.{
  ℕ, suc, ◌+◌, ◌-◌, ◌^◌, ◌≤◌, ◌<◌, ◌≡◌, ◌≢◌, refl, List, [], ◌∷◌, ◌++◌, Bool, true, false, ◌⊎◌, inl,
  inr, ltb, length, take, arith, ap, sym, ◌∙◌, length-append,
}
use mathlib.Core.Path.{subst}
use matching_engine_go.Journal.Bytes.{err, unexpected_eof, put, uint, uint-put, length-put}
use matching_engine_go.Journal.Codec.{
  Record, EncodeError, record_magic, schema_version, record_type_exec, payload_size, encode_header,
  encode_payload, append_encoded_record, encode_record, decode_record,
}
use matching_engine_go.Journal.RoundTrip.{length-take, number_at, at-eq, sized, length-header}

take-more : (xs ys : List ℕ) (m : ℕ) → take (length xs + m) (xs ++ ys) ≡ xs ++ take m ys
take-more [] ys m = ap (λ (k : ℕ). take k ys) (omega arith)
take-more (x ∷ xs) ys m =
    ap (λ (k : ℕ). take k (x ∷ (xs ++ ys))) (more (length xs))
    ∙ ap (λ (zs : List ℕ). x ∷ zs) (take-more xs ys m)
  where
    more : (k : ℕ) → suc k + m ≡ suc (k + m)
    more k = omega arith

-- EncodeRecord by what payloadSize says.
encoded_frame :
    (crc : List ℕ → ℕ) (rec : Record) (n : ℕ) (frame : List ℕ)
    → payload_size rec ≡ inr n
    → encode_record crc rec ≡ inr frame
    → encode_header rec n (encode_payload rec)
        ++ put 4 (crc (encode_header rec n (encode_payload rec))) []
      ≡ frame
unfolding encode_record append_encoded_record
encoded_frame crc rec n frame f e = let g = rw (f, append_encoded_record) at e in cc

refused :
    (crc : List ℕ → ℕ) (rec : Record) (x : EncodeError) (frame : List ℕ)
    → payload_size rec ≡ inl x
    → encode_record crc rec ≢ inr frame
unfolding encode_record append_encoded_record
refused crc rec x frame f e = let g = rw (f, append_encoded_record) at e in cc

module _ (crc : List ℕ → ℕ) where
  decode_record-below :
      (bytes : List ℕ) → length bytes < 24 → decode_record crc bytes ≡ err unexpected_eof
  unfolding decode_record
  decode_record-below bytes l =
      let a : ltb (length bytes) 24 ≡ true = ground arith in rw (a, decode_record) refl

  -- DecodeRecord at a whole header whose payload is not all there.
  decode_record-short :
      (bytes : List ℕ) (n : ℕ)
      → 24 ≤ length bytes
      → length bytes < 24 + n + 4
      → number_at bytes 0 4 ≡ record_magic
      → number_at bytes 4 2 ≡ schema_version
      → number_at bytes 6 1 ≡ record_type_exec
      → number_at bytes 8 4 ≡ n
      → decode_record crc bytes ≡ err unexpected_eof
  unfolding decode_record
  decode_record-short bytes n long short magic version type len =
      let a : ltb (length bytes) 24 ≡ false = ground arith in
      let b : ltb (length bytes) (24 + n + 4) ≡ true = ground arith in
      rw (a, decode_record)
        (rw (at-eq bytes 0 4 record_magic (omega (arith, long)) magic) (
          rw (at-eq bytes 4 2 schema_version (omega (arith, long)) version) (
            rw (at-eq bytes 6 1 record_type_exec (omega (arith, long)) type)
              (rw (at-eq bytes 8 4 n (omega (arith, long)) len) (rw b refl)))))

  module _ (rec : Record) (n : ℕ) (fits : n < 2 ^ 32) where
    header-append : (xs ys : List ℕ) → encode_header rec n xs ++ ys ≡ encode_header rec n (xs ++ ys)
    unfolding encode_header put
    header-append xs ys = refl

    take-header :
        (m : ℕ) (behind : List ℕ)
        → take (24 + m) (encode_header rec n behind) ≡ encode_header rec n (take m behind)
    take-header m behind =
        ap (λ (k : ℕ). take (k + m) (encode_header rec n behind))
          (omega (arith, length-header rec n []))
        ∙ ap (λ (xs : List ℕ). take (length (encode_header rec n []) + m) xs)
            (sym (header-append [] behind))
        ∙ take-more (encode_header rec n []) behind m
        ∙ header-append [] (take m behind)

    decode_record-header :
        (behind : List ℕ)
        → length behind < n + 4
        → decode_record crc (encode_header rec n behind) ≡ err unexpected_eof
    unfolding encode_header put uint number_at
    decode_record-header behind l =
        decode_record-short (encode_header rec n behind) n
          (omega (arith, length-header rec n behind)) (omega (arith, length-header rec n behind, l))
          refl refl refl (uint-put 4 n [] fits)

    decode_record-cut :
        (k : ℕ) (behind : List ℕ)
        → k < length (encode_header rec n behind)
        → length behind ≤ n + 4
        → decode_record crc (take k (encode_header rec n behind)) ≡ err unexpected_eof
    decode_record-cut k behind l b = go (ltb k 24) refl
      where
        go :
            (early : Bool)
            → ltb k 24 ≡ early
            → decode_record crc (take k (encode_header rec n behind)) ≡ err unexpected_eof
        go true e =
            decode_record-below (take k (encode_header rec n behind))
              (ground (arith, length-take k (encode_header rec n behind) (omega (arith, l)), e))
        go false e =
            let late : 24 ≤ k = ground arith in
            let m = k - 24 in
            let inside : m < length behind = omega (arith, l, late, length-header rec n behind) in
            ap (λ (j : ℕ). decode_record crc (take j (encode_header rec n behind)))
              (omega (arith, late))
            ∙ ap (decode_record crc) (take-header m behind)
            ∙ decode_record-header (take m behind)
                (omega (arith, inside, b, length-take m behind (omega (arith, inside))))

  -- A frame that EncodeRecord gives, cut off anywhere before its end, reads as an unexpected end of the
  -- file.
  pub decode_record-take :
      (rec : Record) (frame : List ℕ) (k : ℕ)
      → encode_record crc rec ≡ inr frame
      → k < length frame
      → decode_record crc (take k frame) ≡ err unexpected_eof
  decode_record-take rec frame k e l = go (payload_size rec) refl
    where
      go :
          (r : EncodeError ⊎ ℕ)
          → payload_size rec ≡ r
          → decode_record crc (take k frame) ≡ err unexpected_eof
      go (inl x) f = absurd (refused crc rec x frame f e)
      go (inr n) f =
          let (q, s, m) = sized rec n f in
          let head = encode_header rec n (encode_payload rec) in
          let sum = put 4 (crc head) [] in
          let same : encode_header rec n (encode_payload rec ++ sum) ≡ frame =
            sym (header-append rec n m (encode_payload rec) sum)
            ∙ encoded_frame crc rec n frame f e in
          let inside : k < length (encode_header rec n (encode_payload rec ++ sum)) =
            omega (arith, ap length same, l) in
          subst (λ (bs : List ℕ). decode_record crc (take k bs) ≡ err unexpected_eof) same
            (decode_record-cut rec n m k (encode_payload rec ++ sum) inside (
              omega (arith, length-append (encode_payload rec) sum, length-put 4 (crc head) [], q)))
