-- ===== src/Wire/RoundTrip.antt =====
-- Encoding and decoding of one WebSocket message.
use connect_bidi_web.Common.{
  ℕ, ◌^◌, ◌<◌, ◌≡◌, sym, ap, ◌∙◌, List, [], ◌∷◌, ◌++◌, length, drop, replicate, arith, All,
  length-replicate, replicate-add,
}
use connect_bidi_web.Wire.Bytes.{
  IsByte, be32, be32-of_bytes, write_at-append, write_at-append_end, set_uint32, write_at,
  get_uint32, length-be32,
}
use connect_bidi_web.Wire.{StreamFrame, ok, encode_stream_frame, decode_stream_frame}

-- The message is the stream ID in four bytes, and the envelope as it is.
pub encode_stream_frame-append :
    (id : ℕ) (envelope : List ℕ) → encode_stream_frame id envelope ≡ be32 id ++ envelope
unfolding encode_stream_frame set_uint32
encode_stream_frame-append id envelope =
    let blank : List ℕ = replicate (length envelope) 0 in
    let four : List ℕ = replicate 4 0 in
    let first : write_at (four ++ blank) 0 (be32 id) ≡ be32 id ++ blank =
      write_at-append [] (be32 id) blank four (sym (length-be32 id)) in
    let second : write_at (be32 id ++ blank) 4 envelope ≡ be32 id ++ envelope =
      write_at-append_end (be32 id) envelope blank (length-replicate (length envelope) 0) in
    ap (λ (frame : List ℕ). write_at (write_at frame 0 (be32 id)) 4 envelope)
      (replicate-add {A = ℕ} 4 (length envelope) 0)
    ∙ ap (λ (frame : List ℕ). write_at frame 4 envelope) first
    ∙ second

-- One Connect envelope: a flag byte, the payload's length in four bytes, the payload.
abbrev pub envelope_of : ℕ → List ℕ → List ℕ
envelope_of flag payload = flag ∷ be32 (length payload) ++ payload

-- What is sent for a stream below 2 ^ 32 is read back as that stream, flag and envelope.
pub decode-encode :
    (id flag : ℕ) (payload : List ℕ)
    → id < 2 ^ 32
    → length payload < 2 ^ 32
    → decode_stream_frame (encode_stream_frame id (envelope_of flag payload))
      ≡ ok (record { stream_id = id; flag = flag; envelope = envelope_of flag payload })
unfolding decode_stream_frame be32 get_uint32
decode-encode id flag payload hi hp =
    rw (encode_stream_frame-append id (envelope_of flag payload)) (ground arith)

-- What decodes, of bytes, is the encoding of what it decodes to: a stream ID below 2 ^ 32 and
-- exactly one envelope.
pub encode-decode :
    (message : List ℕ) (f : StreamFrame)
    → All IsByte message
    → decode_stream_frame message ≡ ok f
    → (encode_stream_frame f.stream_id f.envelope ≡ message)
      × (f.stream_id < 2 ^ 32)
      × (f.envelope ≡ envelope_of f.flag (drop 9 message))
unfolding decode_stream_frame get_uint32
encode-decode [] f b h = ground arith
encode-decode (i ∷ []) f b h = ground arith
encode-decode (i ∷ j ∷ []) f b h = ground arith
encode-decode (i ∷ j ∷ k ∷ []) f b h = ground arith
encode-decode (i ∷ j ∷ k ∷ l ∷ []) f b h = ground arith
encode-decode (i ∷ j ∷ k ∷ l ∷ g ∷ []) f b h = ground arith
encode-decode (i ∷ j ∷ k ∷ l ∷ g ∷ n ∷ []) f b h = ground arith
encode-decode (i ∷ j ∷ k ∷ l ∷ g ∷ n ∷ o ∷ []) f b h = ground arith
encode-decode (i ∷ j ∷ k ∷ l ∷ g ∷ n ∷ o ∷ p ∷ []) f b h = ground arith
encode-decode (i ∷ j ∷ k ∷ l ∷ g ∷ n ∷ o ∷ p ∷ q ∷ payload) f b h = (
  rw (encode_stream_frame-append f.stream_id f.envelope) (ground (arith, be32-of_bytes i j k l)),
  ground arith,
  ground (arith, be32-of_bytes n o p q),
)
