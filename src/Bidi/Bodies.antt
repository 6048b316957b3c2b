-- ===== src/Bidi/Bodies.antt =====
-- What a handler gets as the request's body, by the envelopes that arrive.
use connect_bidi_web.Common.{
  ℕ, ◌≡◌, refl, sym, ap, ◌∙◌, true, false, List, [], ◌∷◌, ◌++◌, append-nil, append_assoc, map,
  concat, All, ◌==◌,
}
use connect_bidi_web.Web.{Thrown, Result, ok, throws, ◌>>=◌}
use connect_bidi_web.Connect.{Source, done, fails, next, EnvelopedMessage, ConnectApi}
use connect_bidi_web.Wire.{concat_bytes, flag_envelope_headers}
use connect_bidi_web.Wire.Concat.{concat_bytes-concat}
use connect_bidi_web.Bidi.Request.{
  unexpected_headers, read_loop, read_unary_request_body, streaming_request_body,
}

-- Some items first.
abbrev pub prepend : {E A : Type 0} → List A → Source E A → Source E A
prepend [] rest = rest
prepend (a ∷ as') rest = next a (prepend as' rest)

module _ {Headers : Type 0} (C : ConnectApi Headers) where
  open C use {Error, encode_envelope, end_stream_flag}

  -- Neither the half-close nor a headers envelope.
  abbrev pub IsData : EnvelopedMessage → Type 0
  IsData value =
      ((value.flags == end_stream_flag) ≡ false) × ((value.flags == flag_envelope_headers) ≡ false)

  -- What stops the body, with the exception, if any, that the reader of the body sees: the end of
  -- the stream, a failed read, the half-close, or a headers envelope.
  pub data Stops : Source Error EnvelopedMessage → Source Error (List ℕ) → Type 0 where
    ended : Stops done done
    failed : (e : Thrown Error) → Stops (fails e) (fails e)
    half_closed :
        (value : EnvelopedMessage) (rest : Source Error EnvelopedMessage)
        → (value.flags == end_stream_flag) ≡ true
        → Stops (next value rest) done
    refused :
        (value : EnvelopedMessage) (rest : Source Error EnvelopedMessage)
        → (value.flags == end_stream_flag) ≡ false
        → (value.flags == flag_envelope_headers) ≡ true
        → Stops (next value rest) (fails (unexpected_headers C))

  -- The whole body, where a stop that is no exception ends it.
  abbrev pub body_or_throw : Source Error (List ℕ) → List ℕ → Result Error (List ℕ)
  body_or_throw (fails e) bytes = throws e
  body_or_throw _ bytes = ok bytes

  chunks_or_throw : Source Error (List ℕ) → List (List ℕ) → Result Error (List (List ℕ))
  chunks_or_throw (fails e) chunks = throws e
  chunks_or_throw _ chunks = ok chunks

  read_loop-Stops :
      (chunks : List (List ℕ)) (rest : Source Error EnvelopedMessage) (stop : Source Error (List ℕ))
      → Stops rest stop
      → read_loop C chunks rest ≡ chunks_or_throw stop chunks
  unfolding read_loop chunks_or_throw
  read_loop-Stops chunks _ _ ended = refl
  read_loop-Stops chunks _ _ (failed e) = refl
  read_loop-Stops chunks _ _ (half_closed value rest h) = rw (h, read_loop)
  read_loop-Stops chunks _ _ (refused value rest h k) = rw (h, k, read_loop)

  read_loop-prepend :
      (chunks : List (List ℕ)) (values : List EnvelopedMessage)
      (rest : Source Error EnvelopedMessage)
      → All IsData values
      → read_loop C chunks (prepend values rest)
        ≡ read_loop C (chunks ++ map (λ (v : EnvelopedMessage). v.content) values) rest
  unfolding read_loop
  read_loop-prepend chunks [] rest h =
      ap (λ (c : List (List ℕ)). read_loop C c rest) (sym (append-nil chunks))
  read_loop-prepend chunks (v ∷ values) rest ((p, q), h) =
      rw (p, q, read_loop)
        (read_loop-prepend (chunks ++ v.content ∷ []) values rest h
          ∙ ap (λ (c : List (List ℕ)). read_loop C c rest)
              (append_assoc chunks (v.content ∷ [])
                (map (λ (v : EnvelopedMessage). v.content) values)))

  whole :
      (stop : Source Error (List ℕ)) (chunks : List (List ℕ))
      → (chunks_or_throw stop chunks >>= λ cs. ok (concat_bytes cs))
        ≡ body_or_throw stop (concat chunks)
  unfolding chunks_or_throw
  whole done chunks = ap ok (concat_bytes-concat chunks)
  whole (fails e) chunks = refl
  whole (next c rest) chunks = ap ok (concat_bytes-concat chunks)

  -- The body of a unary request is the payloads of the data envelopes one after the other, where
  -- the client half-closes or its stream ends after them; it is an exception where a read fails or
  -- a headers envelope comes instead.
  pub read_unary_request_body-prepend :
      (values : List EnvelopedMessage) (rest : Source Error EnvelopedMessage)
      (stop : Source Error (List ℕ))
      → All IsData values
      → Stops rest stop
      → read_unary_request_body C (prepend values rest)
        ≡ body_or_throw stop (concat (map (λ (v : EnvelopedMessage). v.content) values))
  unfolding read_unary_request_body
  read_unary_request_body-prepend values rest stop h s =
      ap (λ r. r >>= λ cs. ok (concat_bytes cs))
        (read_loop-prepend [] values rest h ∙ read_loop-Stops _ rest stop s)
      ∙ whole stop (map (λ (v : EnvelopedMessage). v.content) values)

  streaming_request_body-Stops :
      (rest : Source Error EnvelopedMessage) (stop : Source Error (List ℕ))
      → Stops rest stop
      → streaming_request_body C rest ≡ stop
  unfolding streaming_request_body
  streaming_request_body-Stops _ _ ended = refl
  streaming_request_body-Stops _ _ (failed e) = refl
  streaming_request_body-Stops _ _ (half_closed value rest k) = rw (k, streaming_request_body)
  streaming_request_body-Stops _ _ (refused value rest k l) = rw (k, l, streaming_request_body)

  -- The body of a streaming request yields each data envelope encoded again with its own flags and
  -- payload, in order, and stops as the unary one does.
  pub streaming_request_body-prepend :
      (values : List EnvelopedMessage) (rest : Source Error EnvelopedMessage)
      (stop : Source Error (List ℕ))
      → All IsData values
      → Stops rest stop
      → streaming_request_body C (prepend values rest)
        ≡ prepend (map (λ (v : EnvelopedMessage). encode_envelope v.flags v.content) values) stop
  unfolding streaming_request_body
  streaming_request_body-prepend [] rest stop h s = streaming_request_body-Stops rest stop s
  streaming_request_body-prepend (v ∷ values) rest stop ((p, q), h) s =
      rw (p, q, streaming_request_body)
        (ap (next (encode_envelope v.flags v.content))
          (streaming_request_body-prepend values rest stop h s))
