-- ===== src/Journal/Total.antt =====
-- DecodeRecord and DecodeSegmentHeader return a value or an error on any bytes.
use matching_engine_go.Prelude.{
  ℕ, zero, suc, ◌+◌, ◌-◌, ◌*◌, ◌≤◌, ◌≡◌, ◌≢◌, refl, List, [], ◌∷◌, Bool, true, false, not, ◌==◌,
  if◌then◌else◌, ltb, length, take, drop, arith, ap, sym, ◌∙◌,
}
use matching_engine_go.Journal.Bytes.{
  DecodeError, unexpected_eof, invalid_magic, unsupported_version, unsupported_type,
  checksum_mismatch, Decoded, ok, err, panic, ◌>>=◌, read, uint, read_bytes, read-some,
  read_bytes-some,
}
use matching_engine_go.Journal.Codec.{
  at, slice, decode_frame, decode_event, decode_events, decode_tail, decode_fields, decode_payload,
  decode_record, record_magic, schema_version, record_type_exec,
}
use matching_engine_go.Journal.RoundTrip.{slice-eq, at-eq, length-take}

-- A reader that takes so many bytes, and returns a value where there are enough.
abbrev IsReader : {A : Type 0} → ℕ → (List ℕ → Decoded (A × List ℕ)) → Type 0
IsReader {A} n f =
    (bs : List ℕ)
    → n ≤ length bs
    → (v : A) × (behind : List ℕ) × (f bs ≡ ok (v, behind)) × (length behind + n ≡ length bs)

-- What does not panic where there are enough bytes.
abbrev IsCalm : {A : Type 0} → ℕ → (List ℕ → Decoded A) → Type 0
IsCalm n f = (bs : List ℕ) → n ≤ length bs → f bs ≢ panic

return-IsReader : {A : Type 0} (v : A) → IsReader 0 (λ bs. ok (v, bs))
return-IsReader v bs h = (v, bs, refl, omega arith)

bind-IsReader :
    {A B : Type 0} (m n : ℕ) (f : List ℕ → Decoded (A × List ℕ))
    (g : A × List ℕ → Decoded (B × List ℕ))
    → IsReader m f
    → ((v : A) → IsReader n (λ bs. g (v, bs)))
    → IsReader (m + n) (λ bs. f bs >>= g)
bind-IsReader m n f g r s bs h =
    let (v, behind, e, l) = r bs (omega arith) in
    let (w, rest, d, k) = s v behind (omega (arith, l)) in
    (w, rest, ap (λ x. x >>= g) e ∙ d, omega (arith, l, k))

bind-IsCalm :
    {A B : Type 0} (m n : ℕ) (f : List ℕ → Decoded (A × List ℕ)) (g : A × List ℕ → Decoded B)
    → IsReader m f
    → ((v : A) → IsCalm n (λ bs. g (v, bs)))
    → IsCalm (m + n) (λ bs. f bs >>= g)
bind-IsCalm m n f g r s bs h p =
    let (v, behind, e, l) = r bs (omega arith) in
    s v behind (omega (arith, l)) (sym (ap (λ x. x >>= g) e) ∙ p)

read-IsReader : (k : ℕ) → IsReader k (read k)
read-IsReader k bs h = read-some k bs h

event-total : IsReader 69 decode_event
unfolding decode_event
event-total = bind-IsReader 1 68 (read 1) _ (read-IsReader 1) λ type.
    bind-IsReader 2 66 (read 2) _ (read-IsReader 2) λ reason.
      bind-IsReader 8 58 (read 8) _ (read-IsReader 8) λ order_id.
        bind-IsReader 8 50 (read 8) _ (read-IsReader 8) λ maker_order_id.
          bind-IsReader 8 42 (read 8) _ (read-IsReader 8) λ taker_order_id.
            bind-IsReader 8 34 (read 8) _ (read-IsReader 8) λ trade_id.
              bind-IsReader 8 26 (read 8) _ (read-IsReader 8) λ price.
                bind-IsReader 8 18 (read 8) _ (read-IsReader 8) λ quantity.
                  bind-IsReader 8 10 (read 8) _ (read-IsReader 8) λ leaves_qty.
                    bind-IsReader 8 2 (read 8) _ (read-IsReader 8) λ canceled_qty.
                      bind-IsReader 1 1 (read 1) _ (read-IsReader 1) λ cancel_reason.
                        bind-IsReader 1 0 (read 1) _ (read-IsReader 1)
                          λ priority_retained. return-IsReader _

ok-IsCalm : {A B : Type 0} (m : Decoded A) (f : A → B) → m ≢ panic → (m >>= λ x. ok (f x)) ≢ panic
ok-IsCalm (ok x) f h p = cc
ok-IsCalm (err e) f h p = cc
ok-IsCalm panic f h p = h refl

events-IsCalm : (n : ℕ) → IsCalm (n * 69) (decode_events n)
unfolding decode_events
events-IsCalm zero bs h = λ p. cc
events-IsCalm (suc n) bs h =
    bind-IsCalm 69 (n * 69) decode_event _ event-total
      (λ e behind k. ok-IsCalm (decode_events n behind) (λ es. e ∷ es) (events-IsCalm n behind k))
      bs (omega arith)

if-IsCalm :
    {A : Type 0} (b : Bool) (e : Decoded A) (m : Decoded A)
    → e ≢ panic
    → (b ≡ false → m ≢ panic)
    → (if b then e else m) ≢ panic
if-IsCalm true e m h k = h
if-IsCalm false e m h k = k refl

tail-IsCalm : (n : ℕ) → IsCalm 0 (decode_tail n)
unfolding decode_tail
tail-IsCalm n bs h =
    if-IsCalm (ltb (length bs) (n * 69)) _ _ (λ p. cc)
      λ a. if-IsCalm (ltb (n * 69) (length bs)) _ _ (λ p. cc) λ b. events-IsCalm n bs (ground arith)

fields-IsCalm : (shard_id seq : ℕ) (symbol : List ℕ) → IsCalm 56 (decode_fields shard_id seq symbol)
unfolding decode_fields
fields-IsCalm shard_id seq symbol = bind-IsCalm 1 55 (read 1) _ (read-IsReader 1) λ type.
    bind-IsCalm 8 47 (read 8) _ (read-IsReader 8) λ order_id.
      bind-IsCalm 1 46 (read 1) _ (read-IsReader 1) λ side.
        bind-IsCalm 1 45 (read 1) _ (read-IsReader 1) λ order_type.
          bind-IsCalm 1 44 (read 1) _ (read-IsReader 1) λ time_in_force.
            bind-IsCalm 8 36 (read 8) _ (read-IsReader 8) λ price.
              bind-IsCalm 8 28 (read 8) _ (read-IsReader 8) λ quantity.
                bind-IsCalm 8 20 (read 8) _ (read-IsReader 8) λ new_price.
                  bind-IsCalm 8 12 (read 8) _ (read-IsReader 8) λ new_leaves_qty.
                    bind-IsCalm 8 4 (read 8) _ (read-IsReader 8) λ result_seq.
                      bind-IsCalm 4 0 (read 4) _ (read-IsReader 4) λ event_count bs h.
                        ok-IsCalm (decode_tail event_count bs) _ (tail-IsCalm event_count bs h)

read_bytes-IsReader : (k : ℕ) → IsReader k (read_bytes k)
read_bytes-IsReader k bs h = let (s, behind, e, l) = read_bytes-some k bs h in (s, behind, e, l)

length-drop : (k : ℕ) (bs : List ℕ) → length (drop k bs) ≡ length bs - k
length-drop zero bs = omega arith
length-drop (suc k) [] = omega arith
length-drop (suc k) (b ∷ bs) = omega (arith, length-drop k bs)

payload-IsCalm : (shard_id seq : ℕ) (payload : List ℕ) → decode_payload shard_id seq payload ≢ panic
unfolding decode_payload
payload-IsCalm shard_id seq payload =
    let n = uint (take 2 payload) in
    if-IsCalm (ltb (length payload) 2) _ _ (λ p. cc)
      λ a.
        if-IsCalm (ltb (length payload) (58 + n)) _ _ (λ p. cc)
          λ b.
            bind-IsCalm n 56 (read_bytes n) _ (read_bytes-IsReader n)
              (λ symbol. fields-IsCalm shard_id seq symbol) (drop 2 payload)
              (ground (arith, length-drop 2 payload))

guard-IsCalm :
    {A : Type 0} (b : Bool) (x : DecodeError) (m : Decoded A)
    → (b ≡ false → m ≢ panic)
    → (if b then err x else m) ≢ panic
guard-IsCalm true x m k = λ p. cc
guard-IsCalm false x m k = k refl

-- A slice and a number within the bytes.
slice-IsCalm :
    {A : Type 0} (bs : List ℕ) (i j : ℕ) (f : List ℕ → Decoded A)
    → i ≤ j
    → j ≤ length bs
    → ((part : List ℕ) → length part ≡ j - i → f part ≢ panic)
    → (slice bs i j >>= f) ≢ panic
slice-IsCalm bs i j f h k c p =
    c _ (length-take (j - i) (drop i bs) (omega (arith, length-drop i bs)))
      (sym (ap (λ m. m >>= f) (slice-eq bs i j h k)) ∙ p)

at-IsCalm :
    {A : Type 0} (bs : List ℕ) (i n : ℕ) (f : ℕ → Decoded A)
    → i + n ≤ length bs
    → ((v : ℕ) → f v ≢ panic)
    → (at bs i n >>= f) ≢ panic
at-IsCalm bs i n f h c p = c _ (sym (ap (λ m. m >>= f) (at-eq bs i n _ h refl)) ∙ p)

frame-IsCalm :
    (crc : List ℕ → ℕ) (bytes frame : List ℕ) (n : ℕ)
    → 24 ≤ length bytes
    → length frame ≡ 24 + n + 4
    → decode_frame crc bytes (24 + n + 4) frame ≢ panic
unfolding decode_frame
frame-IsCalm crc bytes frame n h l = at-IsCalm frame (24 + n + 4 - 4) 4 _ (omega (arith, l)) λ want.
    slice-IsCalm frame 0 (24 + n + 4 - 4) _ (omega arith) (omega (arith, l)) λ sealed k.
      guard-IsCalm (not (crc sealed == want)) checksum_mismatch _ λ c.
        at-IsCalm bytes 12 2 _ (omega (arith, h)) λ shard_id.
          at-IsCalm bytes 16 8 _ (omega (arith, h)) λ seq.
            slice-IsCalm frame 24 (24 + n + 4 - 4) _ (omega arith) (omega (arith, l)) λ payload m.
              ok-IsCalm (decode_payload shard_id seq payload) (λ rec. (rec, 24 + n + 4))
                (payload-IsCalm shard_id seq payload)

-- DecodeRecord never indexes or slices outside its bytes, whatever they are: it returns a record or an
-- error.
pub decode_record-IsCalm : (crc : List ℕ → ℕ) (bytes : List ℕ) → decode_record crc bytes ≢ panic
unfolding decode_record
decode_record-IsCalm crc bytes = guard-IsCalm (ltb (length bytes) 24) unexpected_eof _ λ a.
    at-IsCalm bytes 0 4 _ (ground arith) λ magic.
      guard-IsCalm (not (magic == record_magic)) invalid_magic _ λ b.
        at-IsCalm bytes 4 2 _ (ground arith) λ version.
          guard-IsCalm (not (version == schema_version)) unsupported_version _ λ c.
            at-IsCalm bytes 6 1 _ (ground arith) λ type.
              guard-IsCalm (not (type == record_type_exec)) unsupported_type _ λ d.
                at-IsCalm bytes 8 4 _ (ground arith) λ n.
                  guard-IsCalm (ltb (length bytes) (24 + n + 4)) unexpected_eof _ λ e.
                    slice-IsCalm bytes 0 (24 + n + 4) _ (omega arith) (ground arith)
                      λ frame k. frame-IsCalm crc bytes frame n (ground arith) (omega (arith, k))
