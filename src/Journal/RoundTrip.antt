-- ===== src/Journal/RoundTrip.antt =====
-- DecodeRecord and DecodeSegmentHeader read back what EncodeRecord and EncodeSegmentHeader write,
-- whatever stands behind it.
pub mod Cut
use matching_engine_go.Prelude.{
  ℕ, zero, suc, ◌+◌, ◌-◌, ◌^◌, ◌≤◌, ◌<◌, ◌≡◌, ◌≢◌, refl, List, [], ◌∷◌, ◌++◌, false, ◌⊎◌, inl, inr,
  ltb, length, take, drop, arith, ap, sym, ◌∙◌, length-append, ==_refl,
}
use mathlib.Core.List.{append_assoc}
use mathlib.Core.Path.{subst}
use matching_engine_go.Journal.Bytes.{Decoded, ok, ◌>>=◌, put, uint, length-put, uint-put}
use matching_engine_go.Journal.Codec.{
  Record, EncodeError, at, slice, decode_frame, record_magic, schema_version, record_type_exec,
  payload_size, encode_header, encode_payload, append_encoded_record, encode_record, decode_payload,
  decode_record,
}
use matching_engine_go.Journal.Payload.{
  IsWide, IsRecord, numbered, numbered-IsRecord, payload-round_trip, length-encode_payload,
}

pub length-take : (k : ℕ) (xs : List ℕ) → k ≤ length xs → length (take k xs) ≡ k
length-take zero xs h = refl
length-take (suc k) [] h = absurd (omega arith)
length-take (suc k) (x ∷ xs) h = ap (λ (m : ℕ). suc m) (length-take k xs (omega arith))

take-append : (xs ys : List ℕ) → take (length xs) (xs ++ ys) ≡ xs
take-append [] ys = refl
take-append (x ∷ xs) ys = ap (λ (zs : List ℕ). x ∷ zs) (take-append xs ys)

pub drop-append : (xs ys : List ℕ) → drop (length xs) (xs ++ ys) ≡ ys
drop-append [] ys = refl
drop-append (x ∷ xs) ys = drop-append xs ys

-- A slice within its bytes, and the number in one.
pub slice-eq :
    (bs : List ℕ) (i j : ℕ) → i ≤ j → j ≤ length bs → slice bs i j ≡ ok (take (j - i) (drop i bs))
unfolding slice
slice-eq bs i j h k = ground arith

pub number_at : List ℕ → ℕ → ℕ → ℕ
number_at bs i n = uint (take n (drop i bs))

pub at-eq : (bs : List ℕ) (i n v : ℕ) → i + n ≤ length bs → number_at bs i n ≡ v → at bs i n ≡ ok v
unfolding at number_at
at-eq bs i n v h e =
    ap (λ (m : Decoded (List ℕ)). m >>= λ part. ok (uint part))
      (slice-eq bs i (i + n) (omega arith) h)
    ∙ ap (λ (k : ℕ). ok (uint (take k (drop i bs)))) (omega arith)
    ∙ ap (λ (k : ℕ). ok k) e

-- DecodeRecord at bytes that pass its tests.
module _ (crc : List ℕ → ℕ) (bytes : List ℕ) (n : ℕ) (long : 24 + n + 4 ≤ length bytes) where
  abbrev frame : List ℕ
  frame = take (24 + n + 4) bytes

  length-frame_cut : length frame ≡ 24 + n + 4
  length-frame_cut = length-take (24 + n + 4) bytes long

  decode_frame-passed :
      (shard_id seq sum : ℕ) (payload : List ℕ) (rec : Record)
      → number_at frame (24 + n) 4 ≡ sum
      → crc (take (24 + n) frame) ≡ sum
      → number_at bytes 12 2 ≡ shard_id
      → number_at bytes 16 8 ≡ seq
      → take n (drop 24 frame) ≡ payload
      → decode_payload shard_id seq payload ≡ ok rec
      → decode_frame crc bytes (24 + n + 4) frame ≡ ok (rec, 24 + n + 4)
  unfolding decode_frame
  decode_frame-passed shard_id seq sum payload rec want got id number body read =
      let k : 24 + n + 4 - 4 ≡ 24 + n = omega arith in
      let z : 24 + n - 0 ≡ 24 + n = omega arith in
      let d : 24 + n - 24 ≡ n = omega arith in
      rw k (
        rw (at-eq frame (24 + n) 4 sum (omega (arith, length-frame_cut)) want) (
          rw (slice-eq frame 0 (24 + n) (omega arith) (omega (arith, length-frame_cut))) (
            rw z (
              rw got (
                rw (==_refl sum) (
                  rw (at-eq bytes 12 2 shard_id (omega (arith, long)) id) (
                    rw (at-eq bytes 16 8 seq (omega (arith, long)) number) (
                      rw
                        (slice-eq frame 24 (24 + n) (omega arith) (omega (arith, length-frame_cut)))
                        (rw (ap (λ (j : ℕ). take j (drop 24 frame)) d ∙ body)
                          (rw read refl))))))))))

  decode_record-passed :
      number_at bytes 0 4 ≡ record_magic
      → number_at bytes 4 2 ≡ schema_version
      → number_at bytes 6 1 ≡ record_type_exec
      → number_at bytes 8 4 ≡ n
      → decode_record crc bytes ≡ decode_frame crc bytes (24 + n + 4) frame
  unfolding decode_record
  decode_record-passed magic version type len =
      let a : ltb (length bytes) 24 ≡ false = ground arith in
      let b : ltb (length bytes) (24 + n + 4) ≡ false = ground arith in
      rw (a, decode_record)
        (rw (at-eq bytes 0 4 record_magic (omega (arith, long)) magic) (
          rw (at-eq bytes 4 2 schema_version (omega (arith, long)) version) (
            rw (at-eq bytes 6 1 record_type_exec (omega (arith, long)) type) (
              rw (at-eq bytes 8 4 n (omega (arith, long)) len) (
                rw b (
                  rw (slice-eq bytes 0 (24 + n + 4) (omega arith) long) (
                    ap (λ (j : ℕ). decode_frame crc bytes (24 + n + 4) (take j bytes))
                      (omega arith))))))))

add_four : (k : ℕ) → suc k + 4 ≡ suc (k + 4)
add_four k = omega arith

take-frame :
    (xs tail : List ℕ) (v : ℕ) → take (length xs + 4) (xs ++ put 4 v tail) ≡ xs ++ put 4 v []
unfolding put
take-frame [] tail v = refl
take-frame (x ∷ xs) tail v =
    ap (λ (k : ℕ). take k (x ∷ (xs ++ put 4 v tail))) (add_four (length xs))
    ∙ ap (λ (zs : List ℕ). x ∷ zs) (take-frame xs tail v)

length-header :
    (rec : Record) (n : ℕ) (behind : List ℕ)
    → length (encode_header rec n behind) ≡ 24 + length behind
unfolding encode_header put
length-header rec n behind = omega arith

module _ (head tail : List ℕ) (n c : ℕ) (l : length head ≡ 24 + n) where
  abbrev framed : List ℕ
  framed = head ++ put 4 c tail

  take-framed : take (24 + n + 4) framed ≡ head ++ put 4 c []
  take-framed = ap (λ (k : ℕ). take (k + 4) framed) (sym l) ∙ take-frame head tail c

  length-framed : 24 + n + 4 ≤ length framed
  length-framed = omega (arith, length-append head (put 4 c tail), length-put 4 c tail, l)

  sum-framed : c < 2 ^ 32 → number_at (take (24 + n + 4) framed) (24 + n) 4 ≡ c
  unfolding number_at
  sum-framed small =
      ap (λ (xs : List ℕ). uint (take 4 (drop (24 + n) xs))) take-framed
      ∙ ap (λ (k : ℕ). uint (take 4 (drop k (head ++ put 4 c [])))) (sym l)
      ∙ ap (λ (xs : List ℕ). uint (take 4 xs)) (drop-append head (put 4 c []))
      ∙ uint-put 4 c [] small

  head-framed : take (24 + n) (take (24 + n + 4) framed) ≡ head
  head-framed =
      ap (λ (xs : List ℕ). take (24 + n) xs) take-framed
      ∙ ap (λ (k : ℕ). take k (head ++ put 4 c [])) (sym l)
      ∙ take-append head (put 4 c [])

-- What payloadSize accepts, and what it gives.
sized :
    (rec : Record) (n : ℕ)
    → payload_size rec ≡ inr n
    → (n ≡ length (encode_payload rec)) × (length rec.command.symbol < 2 ^ 16) × (n < 2 ^ 32)
unfolding payload_size
sized rec n e = let k = length-encode_payload rec in (ground (arith, k), ground arith, ground arith)

module _ (crc : List ℕ → ℕ) (small : (bs : List ℕ) → crc bs < 2 ^ 32) (rec : Record)
    (h : IsWide rec) where
  abbrev payload : List ℕ
  payload = encode_payload rec

  header : List ℕ
  header = encode_header rec (length payload) payload

  length-frame : length header ≡ 24 + length payload
  unfolding header
  length-frame = length-header rec (length payload) payload

  body-frame :
      (tail : List ℕ) (c : ℕ)
      → take (length payload) (drop 24 (take (24 + length payload + 4) (header ++ put 4 c tail)))
        ≡ payload
  unfolding header encode_header put
  body-frame tail c =
      ap (λ (xs : List ℕ). take (length payload) (drop 24 xs))
        (take-framed header tail (length payload) c length-frame)
      ∙ take-append payload (put 4 c [])

  -- The frame of a record, read from the front of some bytes.
  frame-round_trip :
      (tail : List ℕ)
      → length rec.command.symbol < 2 ^ 16
      → length payload < 2 ^ 32
      → decode_record crc (header ++ put 4 (crc header) tail)
        ≡ ok (numbered rec, 24 + length payload + 4)
  unfolding header encode_header put uint number_at
  frame-round_trip tail s n =
      let bytes = header ++ put 4 (crc header) tail in
      let long = length-framed header tail (length payload) (crc header) length-frame in
      decode_record-passed crc bytes (length payload) long refl refl refl
        (uint-put 4 (length payload) [] n)
      ∙ decode_frame-passed crc bytes (length payload) long rec.shard_id rec.command_seq
          (crc header) payload (numbered rec)
          (sum-framed header tail (length payload) (crc header) length-frame (small header))
          (ap crc (head-framed header tail (length payload) (crc header) length-frame))
          (uint-put 2 rec.shard_id [] h.shard_id_fits) (uint-put 8 rec.command_seq [] h.seq_fits)
          (body-frame tail (crc header))
          (payload-round_trip rec h s (omega (arith, length-encode_payload rec, n)))

  abbrev whole : ℕ → List ℕ
  whole n = encode_header rec n payload ++ put 4 (crc (encode_header rec n payload)) []

  whole-round_trip :
      (tail : List ℕ)
      → length rec.command.symbol < 2 ^ 16
      → length payload < 2 ^ 32
      → decode_record crc (whole (length payload) ++ tail)
        ≡ ok (numbered rec, length (whole (length payload)))
  unfolding header put
  whole-round_trip tail s n =
      ap (λ (xs : List ℕ). decode_record crc xs) (append_assoc header (put 4 (crc header) []) tail)
      ∙ frame-round_trip tail s n
      ∙ ap (λ (k : ℕ). ok (numbered rec, k))
          (omega (
            arith,
            length-append header (put 4 (crc header) []),
            length-put 4 (crc header) [],
            length-frame,
          ))

  -- EncodeRecord by what payloadSize says.
  abbrev encoded_by : EncodeError ⊎ ℕ → EncodeError ⊎ List ℕ
  encoded_by (inl x) = inl x
  encoded_by (inr n) = inr (whole n)

  encoded_cases :
      (r : EncodeError ⊎ ℕ) → payload_size rec ≡ r → encode_record crc rec ≡ encoded_by r
  unfolding encode_record append_encoded_record
  encoded_cases (inl x) f = rw (f, append_encoded_record) refl
  encoded_cases (inr n) f = rw (f, append_encoded_record) refl

  encoded :
      (n : ℕ) (bytes : List ℕ)
      → payload_size rec ≡ inr n
      → encode_record crc rec ≡ inr bytes
      → whole n ≡ bytes
  encoded n bytes f e = let k = encoded_cases (inr n) f in cc

  refused :
      (x : EncodeError) (bytes : List ℕ)
      → payload_size rec ≡ inl x
      → encode_record crc rec ≢ inr bytes
  refused x bytes f e = let k = encoded_cases (inl x) f in cc

  -- DecodeRecord reads back a record that EncodeRecord accepts, with the number of its bytes, whatever
  -- bytes stand behind it, but for the number of its command, in whose place stands that of the record: the
  -- codec writes only the latter. The fields of the record hold numbers of their width, and a checksum has
  -- four bytes.
  pub decode_record-encode_record :
      (bytes tail : List ℕ)
      → encode_record crc rec ≡ inr bytes
      → decode_record crc (bytes ++ tail) ≡ ok (numbered rec, length bytes)
  decode_record-encode_record bytes tail e = go (payload_size rec) refl
    where
      go :
          (r : EncodeError ⊎ ℕ)
          → payload_size rec ≡ r
          → decode_record crc (bytes ++ tail) ≡ ok (numbered rec, length bytes)
      go (inl x) f = absurd (refused x bytes f e)
      go (inr n) f =
          let (k, s, m) = sized rec n f in
          subst (λ (bs : List ℕ). decode_record crc (bs ++ tail) ≡ ok (numbered rec, length bs))
            (ap whole (sym k) ∙ encoded n bytes f e) (whole-round_trip tail s (omega (arith, k, m)))

-- A record whose command has its number is read back as it is.
pub decode_record-IsRecord :
    (crc : List ℕ → ℕ) (small : (bs : List ℕ) → crc bs < 2 ^ 32) (rec : Record)
    → IsRecord rec
    → (bytes tail : List ℕ) → encode_record crc rec ≡ inr bytes
    → decode_record crc (bytes ++ tail) ≡ ok (rec, length bytes)
decode_record-IsRecord crc small rec h bytes tail e =
    decode_record-encode_record crc small rec h.wide bytes tail e
    ∙ ap (λ (r : Record). ok (r, length bytes)) (numbered-IsRecord rec h)
