-- ===== src/Bidi/Request.antt =====
-- The request bodies of handle-bidi-socket.ts.
use connect_bidi_web.Common.{ℕ, true, false, List, [], ◌∷◌, ◌++◌, ◌==◌}
use connect_bidi_web.Platform.{internal}
use connect_bidi_web.Web.{Thrown, connect, Result, ok, throws, ◌>>=◌}
use connect_bidi_web.Connect.{Source, done, fails, next, EnvelopedMessage, ConnectApi}
use connect_bidi_web.Wire.{concat_bytes, flag_envelope_headers}

-- `concatAsyncIterable` of wire.ts: its loop, and the whole.
unfoldable pub collect_chunks {ℓ} :
    {E : Type ℓ} → List (List ℕ) → Source E (List ℕ) → Result E (List (List ℕ))
collect_chunks chunks done = ok chunks
collect_chunks chunks (fails e) = throws e
collect_chunks chunks (next chunk rest) = collect_chunks (chunks ++ chunk ∷ []) rest

unfoldable pub concat_async_iterable {ℓ} : {E : Type ℓ} → Source E (List ℕ) → Result E (List ℕ)
unfolding collect_chunks
concat_async_iterable it = collect_chunks [] it >>= λ chunks. ok (concat_bytes chunks)

module _ {Headers : Type 0} (C : ConnectApi Headers) where
  open C use {Error, connect_error, encode_envelope, end_stream_flag}

  abbrev pub unexpected_headers : Thrown Error
  unexpected_headers =
      connect (connect_error "protocol error: unexpected headers envelope in request body" internal)

  -- The loop of `readUnaryRequestBody`.
  unfoldable pub read_loop :
      List (List ℕ) → Source Error EnvelopedMessage → Result Error (List (List ℕ))
  read_loop chunks done = ok chunks
  read_loop chunks (fails e) = throws e
  read_loop chunks (next value rest) = elim (value.flags == end_stream_flag) [
    | true ↦ ok chunks
    | false ↦ elim (value.flags == flag_envelope_headers) [
      | true ↦ throws unexpected_headers
      | false ↦ read_loop (chunks ++ value.content ∷ []) rest
    ]
  ]

  unfoldable pub read_unary_request_body : Source Error EnvelopedMessage → Result Error (List ℕ)
  unfolding read_loop
  read_unary_request_body env_reader =
      read_loop [] env_reader >>= λ chunks. ok (concat_bytes chunks)

  -- The generator's yields, and how it ends.
  unfoldable pub streaming_request_body : Source Error EnvelopedMessage → Source Error (List ℕ)
  streaming_request_body done = done
  streaming_request_body (fails e) = fails e
  streaming_request_body (next value rest) = elim (value.flags == end_stream_flag) [
    | true ↦ done
    | false ↦ elim (value.flags == flag_envelope_headers) [
      | true ↦ fails unexpected_headers
      | false ↦ next (encode_envelope value.flags value.content) (streaming_request_body rest)
    ]
  ]
