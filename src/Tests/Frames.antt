-- ===== src/Tests/Frames.antt =====
-- Frames and byte strings.
use connect_bidi_web.Common.{ℕ, ◌^◌, ◌≡◌, refl, ◌<◌, List, [], ◌∷◌, drop, All, arith}
use connect_bidi_web.Wire.{ok, StreamFrame, encode_stream_frame, decode_stream_frame}
use connect_bidi_web.Wire.Bytes.{IsByte, get_uint32}
use connect_bidi_web.Wire.RoundTrip.{envelope_of, decode-encode, encode-decode}

abbrev payload : List ℕ
payload = 104 ∷ 105 ∷ []

abbrev stream_id : ℕ
stream_id = 70000

decode-encode_example :
    decode_stream_frame (encode_stream_frame stream_id (envelope_of 2 payload))
    ≡ ok (record { stream_id = stream_id; flag = 2; envelope = envelope_of 2 payload })
decode-encode_example = decode-encode stream_id 2 payload (omega arith) (omega arith)

abbrev data_message : List ℕ
data_message = 0 ∷ 0 ∷ 1 ∷ 2 ∷ 0 ∷ 0 ∷ 0 ∷ 0 ∷ 1 ∷ 33 ∷ []

abbrev data_frame : StreamFrame
data_frame = record { stream_id = 258; flag = 0; envelope = 0 ∷ 0 ∷ 0 ∷ 0 ∷ 1 ∷ 33 ∷ [] }

IsByte-data : All IsByte data_message
IsByte-data = ground arith

decode-data : decode_stream_frame data_message ≡ ok data_frame
unfolding decode_stream_frame get_uint32
decode-data = refl

encode-decode_example :
    (encode_stream_frame 258 data_frame.envelope ≡ data_message)
    × (258 < 2 ^ 32)
    × (data_frame.envelope ≡ envelope_of 0 (drop 9 data_message))
encode-decode_example = encode-decode data_message data_frame IsByte-data decode-data
