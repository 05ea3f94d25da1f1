-- ===== src/Journal/Codec.antt =====
-- internal/journal/codec.go. The checksum of hash/crc32 is the parameter `crc`. A buffer that is
-- filled from its front is written as a call for each number around what comes behind.
use matching_engine_go.Prelude.{
  ℕ, zero, suc, ◌+◌, ◌-◌, ◌*◌, ◌^◌, ◌⊎◌, inl, inr, List, [], ◌∷◌, ◌++◌, not, ◌==◌, ◌&&◌,
  if◌then◌else◌, ltb, leb, length, take, drop,
}
use matching_engine_go.Model.{Command, Event, Result}
use matching_engine_go.Journal.Bytes.{
  Decoded, ok, err, panic, ◌>>=◌, put, uint, read, read_checked, read_bytes, unexpected_eof,
  invalid_magic, unsupported_version, unsupported_type, checksum_mismatch, unexpected_tail,
  end_of_file,
}

abbrev pub segment_magic : ℕ
segment_magic = 0x53474C57

abbrev pub record_magic : ℕ
record_magic = 0x52434C57

abbrev pub schema_version : ℕ
schema_version = 1

abbrev pub record_type_exec : ℕ
record_type_exec = 1

pub record Record : Type 0 where
  pub shard_id : ℕ
  pub command_seq : ℕ
  pub command : Command
  pub result : Result

pub record SegmentHeader : Type 0 where
  pub engine_id : List ℕ
  pub shard_id : ℕ
  pub shard_count : ℕ

pub data EncodeError : Type 0 where
  engine_id_too_long symbol_too_long payload_too_large : EncodeError

unfoldable pub encode_segment_header : SegmentHeader → EncodeError ⊎ List ℕ
unfolding put
encode_segment_header h =
    if ltb 0xffff (length h.engine_id)
    then inl engine_id_too_long
    else inr (
        put 4 segment_magic (
          put 2 schema_version
            (put 2 h.shard_count (put 2 h.shard_id (put 2 (length h.engine_id) h.engine_id)))))

-- io.ReadFull of the engine id.
unfoldable pub read_full : ℕ → List ℕ → Decoded (List ℕ × List ℕ)
unfolding read_bytes
read_full n bs =
    if n == 0
    then ok ([], bs)
    else if length bs == 0
    then err end_of_file
    else if ltb (length bs) n
    then err unexpected_eof
    else read_bytes n bs

unfoldable pub decode_segment_header : List ℕ → Decoded (SegmentHeader × ℕ)
unfolding read_checked read_full
decode_segment_header bytes = do
  (magic, bs) ← read_checked 4 bytes
  if not (magic == segment_magic) then err invalid_magic else (do
    (version, bs) ← read_checked 2 bs
    if not (version == schema_version) then err unsupported_version else (do
      (shard_count, bs) ← read_checked 2 bs
      (shard_id, bs) ← read_checked 2 bs
      (engine_id_len, bs) ← read_checked 2 bs
      (engine_id, bs) ← read_full engine_id_len bs
      ok (
        record { engine_id = engine_id; shard_id = shard_id; shard_count = shard_count },
        length bytes - length bs,
      )))

abbrev pub payload_fixed_size : ℕ
payload_fixed_size = 58

abbrev pub event_encoded_size : ℕ
event_encoded_size = 69

-- payloadSize; a slice is too short for its length to wrap.
unfoldable pub payload_size : Record → EncodeError ⊎ ℕ
payload_size rec =
    let payload_len =
      payload_fixed_size
      + length rec.command.symbol
      + length rec.result.events * event_encoded_size in
    if ltb 0xffff (length rec.command.symbol)
    then inl symbol_too_long
    else if ltb (2 ^ 32 - 1) payload_len
    then inl payload_too_large
    else inr payload_len

-- The body of the loop of encodePayload, and the loop.
unfoldable pub encode_event : Event → List ℕ → List ℕ
unfolding put
encode_event e behind = put 1 e.type (
    put 2 e.reason (
      put 8 e.order_id (
        put 8 e.maker_order_id (
          put 8 e.taker_order_id (
            put 8 e.trade_id (
              put 8 e.price (
                put 8 e.quantity (
                  put 8 e.leaves_qty (
                    put 8 e.canceled_qty (
                      put 1 e.cancel_reason
                        (put 1 (if e.priority_retained then 1 else 0) behind)))))))))))

unfoldable pub encode_events : List Event → List ℕ
unfolding encode_event
encode_events [] = []
encode_events (e ∷ es) = encode_event e (encode_events es)

-- What encodePayload writes behind the symbol.
unfoldable pub encode_fields : Command → Result → List ℕ
unfolding put encode_events
encode_fields c result = put 1 c.type (
    put 8 c.order_id (
      put 1 c.side (
        put 1 c.order_type (
          put 1 c.time_in_force (
            put 8 c.price (
              put 8 c.quantity (
                put 8 c.new_price (
                  put 8 c.new_leaves_qty (
                    put 8 result.command_seq
                      (put 4 (length result.events) (encode_events result.events)))))))))))

unfoldable pub encode_payload : Record → List ℕ
unfolding put encode_fields
encode_payload rec =
    put 2 (length rec.command.symbol) (rec.command.symbol ++ encode_fields rec.command rec.result)

-- The header of a frame in front of what is behind it.
unfoldable pub encode_header : Record → ℕ → List ℕ → List ℕ
unfolding put
encode_header rec payload_len behind = put 4 record_magic (
    put 2 schema_version (
      put 1 record_type_exec (
        put 1 0 (put 4 payload_len (put 2 rec.shard_id (put 2 0 (put 8 rec.command_seq behind)))))))

module _ (crc : List ℕ → ℕ) where
  unfoldable pub append_encoded_record : List ℕ → Record → EncodeError ⊎ List ℕ
  unfolding encode_header encode_payload
  append_encoded_record dst rec = elim (payload_size rec) [
    | inl e ↦ inl e
    | inr payload_len ↦
        let frame = encode_header rec payload_len (encode_payload rec) in
        inr (dst ++ frame ++ put 4 (crc frame) [])
  ]

  unfoldable pub encode_record : Record → EncodeError ⊎ List ℕ
  unfolding append_encoded_record
  encode_record rec = append_encoded_record [] rec

unfoldable pub decode_event : List ℕ → Decoded (Event × List ℕ)
unfolding read
decode_event bs = do
  (type, bs) ← read 1 bs
  (reason, bs) ← read 2 bs
  (order_id, bs) ← read 8 bs
  (maker_order_id, bs) ← read 8 bs
  (taker_order_id, bs) ← read 8 bs
  (trade_id, bs) ← read 8 bs
  (price, bs) ← read 8 bs
  (quantity, bs) ← read 8 bs
  (leaves_qty, bs) ← read 8 bs
  (canceled_qty, bs) ← read 8 bs
  (cancel_reason, bs) ← read 1 bs
  (priority_retained, bs) ← read 1 bs
  ok (
    record {
      type = type;
      reason = reason;
      order_id = order_id;
      maker_order_id = maker_order_id;
      taker_order_id = taker_order_id;
      trade_id = trade_id;
      price = price;
      quantity = quantity;
      leaves_qty = leaves_qty;
      canceled_qty = canceled_qty;
      cancel_reason = cancel_reason;
      priority_retained = priority_retained == 1;
    },
    bs,
  )

-- The loop of decodePayload over the events.
unfoldable pub decode_events : ℕ → List ℕ → Decoded (List Event)
unfolding decode_event
decode_events zero bs = ok []
decode_events (suc n) bs = do (e, bs) ← decode_event bs; es ← decode_events n bs; ok (e ∷ es)

-- The end of decodePayload, from the number of the events on.
unfoldable pub decode_tail : ℕ → List ℕ → Decoded (List Event)
unfolding decode_events
decode_tail event_count bs =
    if ltb (length bs) (event_count * event_encoded_size)
    then err unexpected_eof
    else if ltb (event_count * event_encoded_size) (length bs)
    then err unexpected_tail
    else decode_events event_count bs

-- What decodePayload reads behind the symbol, for a record with these numbers.
unfoldable pub decode_fields : ℕ → ℕ → List ℕ → List ℕ → Decoded Record
unfolding read decode_tail
decode_fields shard_id command_seq symbol bs = do
  (type, bs) ← read 1 bs
  (order_id, bs) ← read 8 bs
  (side, bs) ← read 1 bs
  (order_type, bs) ← read 1 bs
  (time_in_force, bs) ← read 1 bs
  (price, bs) ← read 8 bs
  (quantity, bs) ← read 8 bs
  (new_price, bs) ← read 8 bs
  (new_leaves_qty, bs) ← read 8 bs
  (result_seq, bs) ← read 8 bs
  (event_count, bs) ← read 4 bs
  events ← decode_tail event_count bs
  ok (record {
    shard_id = shard_id;
    command_seq = command_seq;
    command = record {
      seq = command_seq;
      symbol = symbol;
      type = type;
      order_id = order_id;
      side = side;
      order_type = order_type;
      time_in_force = time_in_force;
      price = price;
      quantity = quantity;
      new_price = new_price;
      new_leaves_qty = new_leaves_qty;
    };
    result = record { command_seq = result_seq; events = events };
  })

unfoldable pub decode_payload : ℕ → ℕ → List ℕ → Decoded Record
unfolding uint read_bytes decode_fields
decode_payload shard_id command_seq payload =
    if ltb (length payload) 2
    then err unexpected_eof
    else if ltb (length payload) (payload_fixed_size + uint (take 2 payload))
    then err unexpected_eof
    else (do
      (symbol, bs) ← read_bytes (uint (take 2 payload)) (drop 2 payload)
      decode_fields shard_id command_seq symbol bs)

-- The slice expression `bytes[i:j]`.
unfoldable pub slice : List ℕ → ℕ → ℕ → Decoded (List ℕ)
slice bytes i j =
    if leb i j && leb j (length bytes) then ok (take (j - i) (drop i bytes)) else panic

-- `binary.LittleEndian.Uint…(bytes[i : i + n])`
unfoldable pub at : List ℕ → ℕ → ℕ → Decoded ℕ
unfolding slice
at bytes i n = do part ← slice bytes i (i + n); ok (uint part)

module _ (crc : List ℕ → ℕ) where
  -- The end of DecodeRecord, on the frame of a record.
  unfoldable pub decode_frame : List ℕ → ℕ → List ℕ → Decoded (Record × ℕ)
  unfolding decode_payload
  decode_frame bytes required frame = do
    want ← at frame (required - 4) 4
    sealed ← slice frame 0 (required - 4)
    if not (crc sealed == want) then err checksum_mismatch else (do
      shard_id ← at bytes 12 2
      command_seq ← at bytes 16 8
      payload ← slice frame 24 (required - 4)
      rec ← decode_payload shard_id command_seq payload
      ok (rec, required))

  unfoldable pub decode_record : List ℕ → Decoded (Record × ℕ)
  unfolding decode_frame
  decode_record bytes = if ltb (length bytes) 24 then err unexpected_eof else (do
    magic ← at bytes 0 4
    if not (magic == record_magic) then err invalid_magic else (do
      version ← at bytes 4 2
      if not (version == schema_version) then err unsupported_version else (do
        type ← at bytes 6 1
        if not (type == record_type_exec) then err unsupported_type else (do
          payload_len ← at bytes 8 4
          if ltb (length bytes) (24 + payload_len + 4) then err unexpected_eof else (do
            frame ← slice bytes 0 (24 + payload_len + 4)
            decode_frame bytes (24 + payload_len + 4) frame)))))
