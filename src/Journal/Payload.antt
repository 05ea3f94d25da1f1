-- ===== src/Journal/Payload.antt =====
-- decodePayload reads back what encodePayload writes.
use matching_engine_go.Prelude.{
  ℕ, zero, suc, ◌+◌, ◌*◌, ◌%◌, ◌^◌, ◌≤◌, ◌<◌, ◌≡◌, refl, List, [], ◌∷◌, ◌++◌, Bool, true, false,
  ◌==◌, if◌then◌else◌, ltb, length, take, drop, All, arith, ap, sym, ◌∙◌, length-append, ltb_irrefl,
}
use matching_engine_go.Model.{Command, Event, Result}
use matching_engine_go.Journal.Bytes.{
  Decoded, ok, ◌>>=◌, put, uint, read_bytes, length-put, uint-put, read_bytes-append,
}
use matching_engine_go.Journal.Codec.{
  Record, encode_event, encode_events, encode_fields, encode_payload, decode_event, decode_events,
  decode_tail, decode_fields, decode_payload,
}

-- The fields of an event and of a record hold numbers of their width.
pub record IsEvent (e : Event) : Type 0 where
  pub type_fits : e.type < 2 ^ 8
  pub reason_fits : e.reason < 2 ^ 16
  pub order_id_fits : e.order_id < 2 ^ 64
  pub maker_fits : e.maker_order_id < 2 ^ 64
  pub taker_fits : e.taker_order_id < 2 ^ 64
  pub trade_id_fits : e.trade_id < 2 ^ 64
  pub price_fits : e.price < 2 ^ 64
  pub quantity_fits : e.quantity < 2 ^ 64
  pub leaves_fits : e.leaves_qty < 2 ^ 64
  pub canceled_fits : e.canceled_qty < 2 ^ 64
  pub cancel_reason_fits : e.cancel_reason < 2 ^ 8

retained : (b : Bool) → (((if b then 1 else 0) % 256 + 256 * 0) == 1) ≡ b
retained true = refl
retained false = refl

event-round_trip :
    (e : Event) (behind : List ℕ)
    → IsEvent e
    → decode_event (encode_event e behind) ≡ ok (e, behind)
unfolding decode_event encode_event put uint
event-round_trip e behind h = λ i. ok (
  record {
    type = uint-put 1 e.type [] h.type_fits i;
    reason = uint-put 2 e.reason [] h.reason_fits i;
    order_id = uint-put 8 e.order_id [] h.order_id_fits i;
    maker_order_id = uint-put 8 e.maker_order_id [] h.maker_fits i;
    taker_order_id = uint-put 8 e.taker_order_id [] h.taker_fits i;
    trade_id = uint-put 8 e.trade_id [] h.trade_id_fits i;
    price = uint-put 8 e.price [] h.price_fits i;
    quantity = uint-put 8 e.quantity [] h.quantity_fits i;
    leaves_qty = uint-put 8 e.leaves_qty [] h.leaves_fits i;
    canceled_qty = uint-put 8 e.canceled_qty [] h.canceled_fits i;
    cancel_reason = uint-put 1 e.cancel_reason [] h.cancel_reason_fits i;
    priority_retained = retained e.priority_retained i;
  },
  behind,
)

length-encode_event :
    (e : Event) (behind : List ℕ) → length (encode_event e behind) ≡ 69 + length behind
unfolding encode_event put
length-encode_event e behind = omega arith

length-encode_events : (es : List Event) → length (encode_events es) ≡ length es * 69
unfolding encode_events
length-encode_events [] = refl
length-encode_events (e ∷ es) =
    omega (arith, length-encode_event e (encode_events es), length-encode_events es)

events-round_trip :
    (es : List Event) → All IsEvent es → decode_events (length es) (encode_events es) ≡ ok es
unfolding decode_events encode_events
events-round_trip [] h = refl
events-round_trip (e ∷ es) h =
    ap
      (λ (r : Decoded (Event × List ℕ)).
        r >>= λ x. decode_events (length es) x.1 >>= λ fs. ok (x.0 ∷ fs))
      (event-round_trip e (encode_events es) h.0)
    ∙ ap (λ (r : Decoded (List Event)). r >>= λ fs. ok (e ∷ fs)) (events-round_trip es h.1)

tail-round_trip :
    (es : List Event) → All IsEvent es → decode_tail (length es) (encode_events es) ≡ ok es
unfolding decode_tail
tail-round_trip es h =
    rw (length-encode_events es) (rw (ltb_irrefl (length es * 69)) (events-round_trip es h))

-- The fields of a record hold numbers of their width, as the types of the source have it.
pub record IsWide (rec : Record) : Type 0 where
  pub shard_id_fits : rec.shard_id < 2 ^ 16
  pub seq_fits : rec.command_seq < 2 ^ 64
  pub type_fits : rec.command.type < 2 ^ 8
  pub order_id_fits : rec.command.order_id < 2 ^ 64
  pub side_fits : rec.command.side < 2 ^ 8
  pub order_type_fits : rec.command.order_type < 2 ^ 8
  pub tif_fits : rec.command.time_in_force < 2 ^ 8
  pub price_fits : rec.command.price < 2 ^ 64
  pub quantity_fits : rec.command.quantity < 2 ^ 64
  pub new_price_fits : rec.command.new_price < 2 ^ 64
  pub new_leaves_fits : rec.command.new_leaves_qty < 2 ^ 64
  pub result_seq_fits : rec.result.command_seq < 2 ^ 64
  pub events_fit : All IsEvent rec.result.events

-- encodePayload does not write the number of the command, and decodePayload takes that of the record.
abbrev pub numbered : Record → Record
numbered rec = record rec { command = record rec.command { seq = rec.command_seq } }

-- A record of this width whose command has the number of the record.
pub record IsRecord (rec : Record) : Type 0 where
  pub wide : IsWide rec
  pub same_seq : rec.command.seq ≡ rec.command_seq

pub numbered-IsRecord : (rec : Record) → IsRecord rec → numbered rec ≡ rec
numbered-IsRecord rec h =
    ap (λ (n : ℕ). record rec { command = record rec.command { seq = n } }) (sym h.same_seq)

fields-round_trip :
    (rec : Record)
    → IsWide rec
    → length rec.result.events < 2 ^ 32
    → decode_fields rec.shard_id rec.command_seq rec.command.symbol
        (encode_fields rec.command rec.result)
      ≡ ok (numbered rec)
unfolding decode_fields encode_fields put uint
fields-round_trip rec h n = λ i. tail i >>= λ events. ok (record {
  shard_id = rec.shard_id;
  command_seq = rec.command_seq;
  command = record {
    seq = rec.command_seq;
    symbol = rec.command.symbol;
    type = uint-put 1 rec.command.type [] h.type_fits i;
    order_id = uint-put 8 rec.command.order_id [] h.order_id_fits i;
    side = uint-put 1 rec.command.side [] h.side_fits i;
    order_type = uint-put 1 rec.command.order_type [] h.order_type_fits i;
    time_in_force = uint-put 1 rec.command.time_in_force [] h.tif_fits i;
    price = uint-put 8 rec.command.price [] h.price_fits i;
    quantity = uint-put 8 rec.command.quantity [] h.quantity_fits i;
    new_price = uint-put 8 rec.command.new_price [] h.new_price_fits i;
    new_leaves_qty = uint-put 8 rec.command.new_leaves_qty [] h.new_leaves_fits i;
  };
  result = record {
    command_seq = uint-put 8 rec.result.command_seq [] h.result_seq_fits i;
    events = events;
  };
})
  where
    es : List Event
    es = rec.result.events

    tail : decode_tail (uint (take 4 (put 4 (length es) []))) (encode_events es) ≡ ok es
    tail =
        ap (λ (k : ℕ). decode_tail k (encode_events es)) (uint-put 4 (length es) [] n)
        ∙ tail-round_trip es h.events_fit

length-encode_fields :
    (c : Command) (r : Result) → length (encode_fields c r) ≡ 56 + length r.events * 69
unfolding encode_fields put
length-encode_fields c r = omega (arith, length-encode_events r.events)

pub length-encode_payload :
    (rec : Record)
    → length (encode_payload rec) ≡ 58 + length rec.command.symbol + length rec.result.events * 69
unfolding encode_payload put
length-encode_payload rec = omega (
  arith,
  length-append rec.command.symbol (encode_fields rec.command rec.result),
  length-encode_fields rec.command rec.result,
)

drop-put : (k v : ℕ) (behind : List ℕ) → drop k (put k v behind) ≡ behind
unfolding put
drop-put zero v behind = refl
drop-put (suc k) v behind = drop-put k _ behind

-- decodePayload at a payload that is long enough.
pub decode_payload-long :
    (shard_id seq : ℕ) (payload symbol fields : List ℕ)
    → 2 ≤ length payload
    → 58 + uint (take 2 payload) ≤ length payload
    → read_bytes (uint (take 2 payload)) (drop 2 payload) ≡ ok (symbol, fields)
    → decode_payload shard_id seq payload ≡ decode_fields shard_id seq symbol fields
unfolding decode_payload
decode_payload-long shard_id seq payload symbol fields h k e =
    let a : ltb (length payload) 2 ≡ false = ground arith in
    let b : ltb (length payload) (58 + uint (take 2 payload)) ≡ false = ground arith in
    rw (a, decode_payload) (rw (b, decode_payload) (rw (e, decode_payload) refl))

symbol-round_trip :
    (shard_id seq : ℕ) (symbol fields : List ℕ)
    → length symbol < 2 ^ 16
    → 56 ≤ length fields
    → decode_payload shard_id seq (put 2 (length symbol) (symbol ++ fields))
      ≡ decode_fields shard_id seq symbol fields
symbol-round_trip shard_id seq symbol fields s n =
    let bs = put 2 (length symbol) (symbol ++ fields) in
    let e : uint (take 2 bs) ≡ length symbol = uint-put 2 (length symbol) (symbol ++ fields) s in
    let l : length bs ≡ 2 + length symbol + length fields =
      omega (arith, length-put 2 (length symbol) (symbol ++ fields), length-append symbol fields) in
    decode_payload-long shard_id seq bs symbol fields (omega (arith, l)) (omega (arith, l, e, n)) (
      ap (λ (k : ℕ). read_bytes k (drop 2 bs)) e
      ∙ ap (λ (xs : List ℕ). read_bytes (length symbol) xs)
          (drop-put 2 (length symbol) (symbol ++ fields))
      ∙ read_bytes-append symbol fields)

pub payload-round_trip :
    (rec : Record)
    → IsWide rec
    → length rec.command.symbol < 2 ^ 16
    → length rec.result.events < 2 ^ 32
    → decode_payload rec.shard_id rec.command_seq (encode_payload rec) ≡ ok (numbered rec)
unfolding encode_payload
payload-round_trip rec h s n =
    symbol-round_trip rec.shard_id rec.command_seq rec.command.symbol
      (encode_fields rec.command rec.result) s
      (omega (arith, length-encode_fields rec.command rec.result))
    ∙ fields-round_trip rec h n
