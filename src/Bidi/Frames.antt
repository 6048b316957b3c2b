-- ===== src/Bidi/Frames.antt =====
-- What the parts of a response write to a peer that takes every write.
use connect_bidi_web.Common.{
  ℕ, ◌≡◌, ◌⊎◌, inl, inr, refl, sym, ap, ◌∙◌, subst, Option, none, some, List, [], ◌∷◌, ◌++◌,
  append-nil, append_assoc,
}
use connect_bidi_web.Web.{Thrown, Result, ok, throws, HeadersApi, JsonApi}
use connect_bidi_web.Connect.{Source, done, fails, ServerResponse, ConnectApi}
use connect_bidi_web.Wire.{flag_envelope_headers}
use connect_bidi_web.HeadersFrame.{encode_headers_frame}
use connect_bidi_web.Bidi.Writing.{Writer, write, lift, settled, write-no_limit, bind-ok}
use connect_bidi_web.Bidi.Normalize.{mirror_unary_response_encoding}
use connect_bidi_web.Bidi.Response.{
  TextApi, or_else, data_flag, body_bytes, write_headers, write_end, write_unary, forward,
  forward_or_end, write_streaming, write_error_response,
}
use connect_bidi_web.Bidi.Bodies.{prepend}

abbrev pub taking_all : List (List ℕ) → Writer
taking_all fs = record { taken = fs; room = none }

module _ (H : HeadersApi) (J : JsonApi) (T : TextApi) (C : ConnectApi H.Headers) where
  open H use {Headers, empty, get}
  open C use {
    Error, connect_error, error_from, encode_envelope, end_stream_flag, serialize_end_stream,
    header_unary_encoding, trailer_demux,
  }

  -- The frames of the protocol.
  abbrev pub headers_frame : List ℕ → List ℕ
  headers_frame payload = encode_envelope flag_envelope_headers payload

  abbrev pub end_frame : Headers → Option Error → List ℕ
  end_frame trailer error = encode_envelope end_stream_flag (serialize_end_stream trailer error)

  pub write_headers-taking_all :
      (headers : Headers) (payload : List ℕ) (fs : List (List ℕ))
      → encode_headers_frame H J {E = Error} headers [] ≡ ok payload
      → write_headers H J T C headers (taking_all fs)
        ≡ (ok tt, taking_all (fs ++ headers_frame payload ∷ []))
  unfolding write_headers
  write_headers-taking_all headers payload fs e =
      bind-ok (lift (encode_headers_frame H J headers [])) _ {v = taking_all fs}
        (ap (λ r. (r, taking_all fs)) e) (write-no_limit (headers_frame payload) fs)

  pub write_error_response-taking_all :
      (error : Error) (payload : List ℕ)
      → encode_headers_frame H J {E = Error} empty [] ≡ ok payload
      → write_error_response H J T C error none none (taking_all [])
        ≡ (ok tt, taking_all (headers_frame payload ∷ end_frame empty (some error) ∷ []))
  unfolding write_error_response write_end
  write_error_response-taking_all error payload e =
      bind-ok (write_headers H J T C empty) _ (write_headers-taking_all empty payload [] e)
        (write-no_limit (end_frame empty (some error)) (headers_frame payload ∷ []))

  pub write_unary-taking_all :
      (response : ServerResponse Error Headers) (demuxed trailer : Headers) (payload bytes : List ℕ)
      → trailer_demux (or_else response.header empty) ≡ (demuxed, trailer)
      → encode_headers_frame H J {E = Error} (mirror_unary_response_encoding H C demuxed) []
        ≡ ok payload
      → body_bytes H J T C response.body ≡ ok bytes
      → write_unary H J T C response (taking_all []) ≡ (
        ok tt,
        taking_all (
            headers_frame payload
            ∷ encode_envelope
                (data_flag H J T C
                  (get (mirror_unary_response_encoding H C demuxed) header_unary_encoding))
                bytes
            ∷ end_frame trailer none
            ∷ []),
      )
  unfolding write_unary write_end
  write_unary-taking_all response demuxed trailer payload bytes d e b = rw d (
      bind-ok (write_headers H J T C (mirror_unary_response_encoding H C demuxed)) _
        (write_headers-taking_all (mirror_unary_response_encoding H C demuxed) payload [] e)
        (bind-ok (lift (body_bytes H J T C response.body)) _
          (ap (λ r. (r, taking_all (headers_frame payload ∷ []))) b)
          (bind-ok (write _) _ (write-no_limit _ _) (write-no_limit _ _))))

  -- Writing the chunks of a streaming response that fails after some.
  pub forward-prepend :
      (chunks : List (List ℕ)) (rest : Source Error (List ℕ)) (fs : List (List ℕ))
      → forward H J T C (prepend chunks rest) (taking_all fs)
        ≡ forward H J T C rest (taking_all (fs ++ chunks))
  unfolding forward
  forward-prepend [] rest fs =
      ap (λ (t : List (List ℕ)). forward H J T C rest (taking_all t)) (sym (append-nil fs))
  forward-prepend (c ∷ chunks) rest fs = bind-ok (write c) _ (write-no_limit c fs) (
      forward-prepend chunks rest (fs ++ c ∷ [])
      ∙ ap (λ (t : List (List ℕ)). forward H J T C rest (taking_all t))
          (append_assoc fs (c ∷ []) chunks))

  -- A source without a further item writes nothing, and what it throws is dropped.
  pub forward-stop :
      (stop : Source Error (List ℕ)) (w : Writer)
      → (stop ≡ done) ⊎ ((e : Thrown Error) × (stop ≡ fails e))
      → (r : Result Error (Unit {0})) × (forward H J T C stop w ≡ (r, w)) × (settled r ≡ ok tt)
  unfolding forward
  forward-stop stop w (inl p) =
      (ok tt, subst (λ s. forward H J T C s w ≡ (ok tt, w)) (sym p) refl, refl)
  forward-stop stop w (inr (e, p)) =
      (throws e, subst (λ s. forward H J T C s w ≡ (throws e, w)) (sym p) refl, refl)

  pub write_streaming-prepend :
      (response : ServerResponse Error Headers) (payload : List ℕ) (chunks : List (List ℕ))
      (rest : Source Error (List ℕ))
      → encode_headers_frame H J {E = Error} (or_else response.header empty) [] ≡ ok payload
      → response.body ≡ some (prepend chunks rest)
      → write_streaming H J T C response (taking_all [])
        ≡ forward H J T C rest (taking_all (headers_frame payload ∷ chunks))
  unfolding write_streaming forward_or_end
  write_streaming-prepend response payload chunks rest e b =
      bind-ok (write_headers H J T C (or_else response.header empty)) _
        (write_headers-taking_all (or_else response.header empty) payload [] e)
        (ap
            (λ (o : Option (Source Error (List ℕ))).
              forward_or_end H J T C o (taking_all (headers_frame payload ∷ [])))
            b
          ∙ forward-prepend chunks rest (headers_frame payload ∷ []))
