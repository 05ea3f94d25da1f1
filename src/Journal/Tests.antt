-- ===== src/Journal/Tests.antt =====
-- The codec at concrete records and bytes.
use matching_engine_go.Prelude.{
  ℕ, ◌≡◌, ◌≢◌, refl, List, [], ◌∷◌, ◌++◌, true, some, inr, length, arith,
}
use matching_engine_go.Model.{no_event, command_new, side_buy, order_type_limit, tif_gtc}
use matching_engine_go.Journal.Bytes.{ok, err, unexpected_eof, panic, put}
use matching_engine_go.Journal.Codec.{
  Record, SegmentHeader, encode_record, append_encoded_record, payload_size, encode_header,
  encode_payload, decode_record, encode_segment_header, decode_segment_header,
}
use matching_engine_go.Journal.Checksum.{checksum, checksum-lt}
use matching_engine_go.Journal.Payload.{IsWide, IsRecord}
use matching_engine_go.Journal.RoundTrip.{decode_record-encode_record}
use matching_engine_go.Journal.Total.{decode_record-IsCalm}
use matching_engine_go.Journal.Reader.{Frames, read_segment, read_segment-Frames}
use matching_engine_go.Journal.Header.{decode_segment_header-encode_segment_header}

abbrev pub sample : Record
sample = record {
  shard_id = 3;
  command_seq = 9;
  command = record {
    seq = 9;
    symbol = 65 ∷ [];
    type = command_new;
    order_id = 1;
    side = side_buy;
    order_type = order_type_limit;
    time_in_force = tif_gtc;
    price = 100;
    quantity = 5;
    new_price = 0;
    new_leaves_qty = 0;
  };
  result = record { command_seq = 9; events = no_event ∷ [] };
}

sample-IsWide : IsWide sample
sample-IsWide = record {
  shard_id_fits = omega arith;
  seq_fits = omega arith;
  type_fits = omega arith;
  order_id_fits = omega arith;
  side_fits = omega arith;
  order_type_fits = omega arith;
  tif_fits = omega arith;
  price_fits = omega arith;
  quantity_fits = omega arith;
  new_price_fits = omega arith;
  new_leaves_fits = omega arith;
  result_seq_fits = omega arith;
  events_fit = (
    record {
      type_fits = omega arith;
      reason_fits = omega arith;
      order_id_fits = omega arith;
      maker_fits = omega arith;
      taker_fits = omega arith;
      trade_id_fits = omega arith;
      price_fits = omega arith;
      quantity_fits = omega arith;
      leaves_fits = omega arith;
      canceled_fits = omega arith;
      cancel_reason_fits = omega arith;
    },
    tt,
  );
}

pub sample-IsRecord : IsRecord sample
sample-IsRecord = record { wide = sample-IsWide; same_seq = refl }

-- A record whose command has another number.
abbrev renumbered : Record
renumbered = record sample { command = record sample.command { seq = 5 } }

renumbered-IsWide : IsWide renumbered
renumbered-IsWide = record {
  shard_id_fits = omega arith;
  seq_fits = omega arith;
  type_fits = omega arith;
  order_id_fits = omega arith;
  side_fits = omega arith;
  order_type_fits = omega arith;
  tif_fits = omega arith;
  price_fits = omega arith;
  quantity_fits = omega arith;
  new_price_fits = omega arith;
  new_leaves_fits = omega arith;
  result_seq_fits = omega arith;
  events_fit = (
    record {
      type_fits = omega arith;
      reason_fits = omega arith;
      order_id_fits = omega arith;
      maker_fits = omega arith;
      taker_fits = omega arith;
      trade_id_fits = omega arith;
      price_fits = omega arith;
      quantity_fits = omega arith;
      leaves_fits = omega arith;
      canceled_fits = omega arith;
      cancel_reason_fits = omega arith;
    },
    tt,
  );
}

-- The bytes of the record.
abbrev pub frame : List ℕ
frame =
    let head = encode_header sample 128 (encode_payload sample) in head ++ put 4 (checksum head) []

pub encoded : encode_record checksum sample ≡ inr frame
unfolding encode_record append_encoded_record payload_size
encoded = refl

renumbered_encoded : encode_record checksum renumbered ≡ inr frame
unfolding encode_record append_encoded_record payload_size
renumbered_encoded = refl

decode_record-encode_record_example :
    decode_record checksum (frame ++ 0 ∷ []) ≡ ok (sample, length frame)
decode_record-encode_record_example =
    decode_record-encode_record checksum checksum-lt renumbered renumbered-IsWide frame (0 ∷ [])
      renumbered_encoded

decode_record-IsCalm_example : decode_record checksum (87 ∷ 76 ∷ 67 ∷ 82 ∷ []) ≢ panic
decode_record-IsCalm_example = decode_record-IsCalm checksum (87 ∷ 76 ∷ 67 ∷ 82 ∷ [])

abbrev sample_header : SegmentHeader
sample_header = record { engine_id = 101 ∷ 49 ∷ []; shard_id = 1; shard_count = 4 }

abbrev header_bytes : List ℕ
header_bytes = 87 ∷ 76 ∷ 71 ∷ 83 ∷ 1 ∷ 0 ∷ 4 ∷ 0 ∷ 1 ∷ 0 ∷ 2 ∷ 0 ∷ 101 ∷ 49 ∷ []

header_encoded : encode_segment_header sample_header ≡ inr header_bytes
unfolding encode_segment_header
header_encoded = refl

decode_segment_header-encode_segment_header_example :
    decode_segment_header (header_bytes ++ []) ≡ ok (sample_header, 14)
decode_segment_header-encode_segment_header_example =
    decode_segment_header-encode_segment_header sample_header header_bytes [] (omega arith)
      (omega arith) header_encoded

abbrev pub reader_header : SegmentHeader
reader_header = record { engine_id = 101 ∷ 49 ∷ []; shard_id = 3; shard_count = 4 }

abbrev pub reader_head : List ℕ
reader_head = 87 ∷ 76 ∷ 71 ∷ 83 ∷ 1 ∷ 0 ∷ 4 ∷ 0 ∷ 3 ∷ 0 ∷ 2 ∷ 0 ∷ 101 ∷ 49 ∷ []

pub reader_encoded : encode_segment_header reader_header ≡ inr reader_head
unfolding encode_segment_header
reader_encoded = refl

cut : decode_record checksum (87 ∷ 76 ∷ 82 ∷ []) ≡ err unexpected_eof
unfolding decode_record
cut = refl

pub sample-Frames : Frames checksum (sample ∷ []) (frame ++ [])
sample-Frames = (frame, [], encoded, refl, refl)

read_segment-Frames_example :
    read_segment checksum 3 true
      (101 ∷ 49 ∷ [])
      4
      true
      (reader_head ++ ((frame ++ []) ++ 87 ∷ 76 ∷ 82 ∷ []))
    ≡ some (inr (sample ∷ []))
read_segment-Frames_example =
    read_segment-Frames checksum checksum-lt reader_header reader_head (sample ∷ []) (frame ++ [])
      (87 ∷ 76 ∷ 82 ∷ []) true true (omega arith) (omega arith) reader_encoded sample-Frames
      ((sample-IsRecord, refl), tt) (inr (refl, cut))
