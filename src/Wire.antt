-- ===== src/Wire.antt =====
-- ts/packages/core/src/wire.ts. A `Uint8Array` is a list of numbers below 256; a view of a part of
-- one (`subarray`) is that part.
pub mod Bytes
pub mod Concat
pub mod RoundTrip
use connect_bidi_web.Common.{
  ℕ, ◌+◌, ◌-◌, ◌≡◌, refl, ◌⊎◌, inl, inr, List, [], ◌∷◌, ◌++◌, length, drop, replicate, ltb, ◌==◌,
  if◌then◌else◌,
}
use Bytes.{write_at, set_uint32, get_uint32, get_uint8}

abbrev pub flag_envelope_headers : ℕ
flag_envelope_headers = 0x06

abbrev pub flag_envelope_reset : ℕ
flag_envelope_reset = 0x07

abbrev pub flag_envelope_data : ℕ
flag_envelope_data = 0x00

abbrev pub stream_id_length : ℕ
stream_id_length = 4

pub record StreamFrame : Type 0 where
  pub stream_id : ℕ
  pub flag : ℕ
  pub envelope : List ℕ

-- The two errors of `decodeStreamFrame`, with the numbers that their messages show.
pub data FrameError : Type 0 where
  too_short : ℕ → FrameError
  length_mismatch : ℕ → ℕ → FrameError

pub data Decoded : Type 0 where
  ok : StreamFrame → Decoded
  err : FrameError → Decoded

pub Decoded-cases :
    (d : Decoded) → ((f : StreamFrame) × (d ≡ ok f)) ⊎ ((e : FrameError) × (d ≡ err e))
Decoded-cases (ok f) = inl (f, refl)
Decoded-cases (err e) = inr (e, refl)

unfoldable pub encode_stream_frame : ℕ → List ℕ → List ℕ
encode_stream_frame stream_id envelope =
    let frame = replicate (stream_id_length + length envelope) 0 in
    write_at (set_uint32 frame 0 stream_id) stream_id_length envelope

abbrev pub envelope_head_length : ℕ
envelope_head_length = 5

unfoldable pub decode_stream_frame : List ℕ → Decoded
decode_stream_frame message =
    if ltb (length message) (stream_id_length + envelope_head_length)
    then err (too_short (length message))
    else (let declared = get_uint32 message (stream_id_length + 1) in
        let actual = length message - stream_id_length - envelope_head_length in
        if declared == actual
        then ok (record {
          stream_id = get_uint32 message 0;
          flag = get_uint8 message stream_id_length;
          envelope = drop stream_id_length message;
        })
        else err (length_mismatch declared actual))

-- `chunks.reduce((n, c) => n + c.byteLength, 0)`
unfoldable pub total_length : ℕ → List (List ℕ) → ℕ
total_length n [] = n
total_length n (c ∷ chunks) = total_length (n + length c) chunks

-- The `for` loop of `concatBytes`.
unfoldable pub copy_chunks : List ℕ → ℕ → List (List ℕ) → List ℕ
copy_chunks out offset [] = out
copy_chunks out offset (c ∷ chunks) = copy_chunks (write_at out offset c) (offset + length c) chunks

unfoldable pub concat_bytes : List (List ℕ) → List ℕ
unfolding total_length copy_chunks
concat_bytes (c ∷ []) = c
concat_bytes chunks = copy_chunks (replicate (total_length 0 chunks) 0) 0 chunks
