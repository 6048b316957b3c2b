-- ===== src/Bidi/Calls.antt =====
-- One RPC from its first envelope to the cleanup, on a peer that takes every write.
use connect_bidi_web.Common.{
  ℕ, String, ◌≡◌, ◌⊎◌, ap, ◌∙◌, Bool, true, false, Option, none, some, List, [], ◌∷◌, ◌++◌, map,
  ◌==◌, if◌then◌else◌,
}
use Prim.Native.String
use connect_bidi_web.Platform.{unimplemented}
use connect_bidi_web.Web.{Thrown, Result, ok, throws, Json, HeadersApi, JsonApi}
use connect_bidi_web.Connect.{
  Source, done, fails, next, unary, EnvelopedMessage, ServerRequest, ServerResponse, Handler,
  ConnectApi,
}
use connect_bidi_web.Wire.{flag_envelope_headers}
use connect_bidi_web.HeadersFrame.{encode_headers_frame, decode_headers_frame}
use connect_bidi_web.Bidi.{
  Effect, wrote, aborts_request, cancels_reader, closes_writer, closes_socket, path_of,
  find_handler, finally, call, request_body, request_header, answer, dispatch, serve, attempt,
  handle_bidi_socket,
}
use connect_bidi_web.Bidi.Writing.{
  Writer, lift, settled, bind-ok, bind-throws, ignoring_peer_disconnect-of,
}
use connect_bidi_web.Bidi.Normalize.{
  normalize_unary_request_headers, mirror_unary_response_encoding,
}
use connect_bidi_web.Bidi.Request.{read_unary_request_body, streaming_request_body}
use connect_bidi_web.Bidi.Response.{
  TextApi, or_else, is_unary, data_flag, body_bytes, write_unary, forward, write_streaming,
  write_response,
}
use connect_bidi_web.Bidi.Bodies.{prepend}
use connect_bidi_web.Bidi.Frames.{
  taking_all, headers_frame, end_frame, write_error_response-taking_all, write_unary-taking_all,
  forward-stop, write_streaming-prepend,
}

abbrev cleanup : List Effect
cleanup = aborts_request ∷ cancels_reader ∷ closes_writer ∷ closes_socket ∷ []

module _ (H : HeadersApi) (J : JsonApi) (T : TextApi) (C : ConnectApi H.Headers) where
  open H use {Headers, empty, get}
  open C use {
    Error, connect_error, error_from, encode_envelope, end_stream_flag, serialize_end_stream,
    header_unary_encoding, trailer_demux,
  }

  module _ (resolve_url : String → Result Error String) (handlers : List (Handler Error Headers))
      (aborted : Bool) (first : EnvelopedMessage) (rest : Source Error EnvelopedMessage)
      (headers : Headers) (pseudo : List (String × Json))
      (opens : (first.flags == flag_envelope_headers) ≡ true)
      (decoded : decode_headers_frame H J {E = Error} first.content ≡ ok (headers, pseudo)) where
    attempt-dispatch :
        (o : Option (Handler Error Headers)) (w : Writer)
        → find_handler handlers (path_of pseudo) ≡ o
        → attempt H J T C resolve_url handlers aborted (next first rest) w
          ≡ dispatch H J T C resolve_url handlers aborted headers (path_of pseudo) rest o w
    unfolding attempt serve
    attempt-dispatch o w found = rw opens (
        bind-ok (lift (decode_headers_frame H J {E = Error} first.content)) _ {v = w}
          (ap (λ r. (r, w)) decoded)
          (ap
            (λ (q : Option (Handler Error Headers)).
              dispatch H J T C resolve_url handlers aborted headers (path_of pseudo) rest q w)
            found))

    -- A path that no handler has is answered with empty headers and the error "unknown procedure",
    -- `Unimplemented`, at the end of the stream, and then everything is released.
    pub handle-unknown :
        (payload : List ℕ)
        → find_handler handlers (path_of pseudo) ≡ none
        → encode_headers_frame H J {E = Error} empty [] ≡ ok payload
        → handle_bidi_socket H J T C resolve_url handlers aborted (next first rest) none ≡ (
          ok tt,
          wrote (headers_frame H J T C payload)
              ∷ wrote (
                  end_frame H J T C empty (
                    some (
                      connect_error
                        (String.◌++◌ "unknown procedure: " (J.to_text (path_of pseudo)))
                        unimplemented)))
              ∷ cleanup,
        )
    unfolding handle_bidi_socket finally dispatch
    handle-unknown payload found e = ap finally (
        attempt-dispatch none (taking_all []) found
        ∙ ignoring_peer_disconnect-of _ (write_error_response-taking_all H J T C _ payload e))

    module _ (handler : Handler Error Headers) (url : String)
        (found : find_handler handlers (path_of pseudo) ≡ some handler)
        (resolved : resolve_url handler.request_path ≡ ok url) where
      -- The request that the handler gets.
      abbrev pub request_of : Source Error (List ℕ) → ServerRequest Error Headers
      request_of body = record {
        http_version = "2";
        method = "POST";
        url = url;
        header =
            if is_unary handler.method_kind
            then normalize_unary_request_headers H C headers
            else headers;
        body = body;
        aborted = aborted;
      }

      handle-answer :
          (body : Source Error (List ℕ)) (r : Result Error (Unit {0})) (fs : List (List ℕ))
          → request_body H J T C resolve_url handlers aborted handler.method_kind rest ≡ ok body
          → answer H J T C resolve_url handlers aborted handler.method_kind
              (handler.call (request_of body))
              (taking_all [])
            ≡ (r, taking_all fs)
          → handle_bidi_socket H J T C resolve_url handlers aborted (next first rest) none
            ≡ (r, map wrote fs ++ cleanup)
      unfolding handle_bidi_socket finally dispatch call request_header
      handle-answer body r fs b a = ap finally (
          attempt-dispatch (some handler) (taking_all []) found
          ∙ bind-ok (lift (resolve_url handler.request_path)) _ {v = taking_all []}
              (ap (λ r. (r, taking_all [])) resolved)
              (bind-ok
                (lift (request_body H J T C resolve_url handlers aborted handler.method_kind rest))
                _ {v = taking_all []} (ap (λ r. (r, taking_all [])) b) a))

      -- A unary handler whose request body is refused is not called: the promise rejects with the
      -- reason, and the client gets no frame, neither headers nor an end of the stream.
      pub handle-refused_body :
          (e : Thrown Error)
          → handler.method_kind ≡ unary
          → read_unary_request_body C rest ≡ throws e
          → handle_bidi_socket H J T C resolve_url handlers aborted (next first rest) none
            ≡ (throws e, cleanup)
      unfolding handle_bidi_socket finally dispatch call request_body
      handle-refused_body e k b = ap finally (
          attempt-dispatch (some handler) (taking_all []) found
          ∙ bind-ok (lift (resolve_url handler.request_path)) _ {v = taking_all []}
              (ap (λ r. (r, taking_all [])) resolved)
              (bind-throws
                (lift (request_body H J T C resolve_url handlers aborted handler.method_kind rest))
                _ {v = taking_all []} (ap (λ r. (r, taking_all [])) (rw k (rw (b, request_body))))))

      -- A handler that throws is answered with empty headers and its error at the end of the stream,
      -- and then everything is released.
      pub handle-throws :
          (e : Thrown Error) (body : Source Error (List ℕ)) (payload : List ℕ)
          → request_body H J T C resolve_url handlers aborted handler.method_kind rest ≡ ok body
          → handler.call (request_of body) ≡ throws e
          → encode_headers_frame H J {E = Error} empty [] ≡ ok payload
          → handle_bidi_socket H J T C resolve_url handlers aborted (next first rest) none ≡ (
            ok tt,
            wrote (headers_frame H J T C payload)
                ∷ wrote (end_frame H J T C empty (some (error_from e)))
                ∷ cleanup,
          )
      unfolding answer
      handle-throws e body payload b t p =
          handle-answer body (ok tt)
            (headers_frame H J T C payload ∷ end_frame H J T C empty (some (error_from e)) ∷ []) b
            (rw t (
              ignoring_peer_disconnect-of _
                (write_error_response-taking_all H J T C (error_from e) payload p)))

      -- A unary RPC that succeeds: the handler gets the whole request body as one chunk, and the
      -- client gets exactly the headers, one envelope with the whole response body, whose flag says
      -- whether it is compressed, and the trailers at the end of the stream; then everything is
      -- released.
      pub handle-unary :
          (bytes : List ℕ) (response : ServerResponse Error Headers) (demuxed trailer : Headers)
          (payload reply : List ℕ)
          → handler.method_kind ≡ unary
          → read_unary_request_body C rest ≡ ok bytes
          → handler.call (request_of (next bytes done)) ≡ ok response
          → response.status ≡ 200
          → trailer_demux (or_else response.header empty) ≡ (demuxed, trailer)
          → encode_headers_frame H J {E = Error} (mirror_unary_response_encoding H C demuxed) []
            ≡ ok payload
          → body_bytes H J T C response.body ≡ ok reply
          → handle_bidi_socket H J T C resolve_url handlers aborted (next first rest) none ≡ (
            ok tt,
            wrote (headers_frame H J T C payload)
                ∷ wrote (
                    encode_envelope
                      (data_flag H J T C
                        (get (mirror_unary_response_encoding H C demuxed) header_unary_encoding))
                      reply)
                ∷ wrote (end_frame H J T C trailer none)
                ∷ cleanup,
          )
      unfolding answer request_body write_response write_unary
      handle-unary bytes response demuxed trailer payload reply k b c s d e r =
          handle-answer (next bytes done) (ok tt)
            (headers_frame H J T C payload
              ∷ encode_envelope
                  (data_flag H J T C
                    (get (mirror_unary_response_encoding H C demuxed) header_unary_encoding))
                  reply
              ∷ end_frame H J T C trailer none
              ∷ [])
            (rw k (rw (b, request_body)))
            (rw c (
              ignoring_peer_disconnect-of (write_response H J T C handler.method_kind response)
                {r = ok tt}
                (rw (s, k)
                  (write_unary-taking_all H J T C response demuxed trailer payload reply d e r))))

      -- A streaming RPC whose handler answers with a body: the client gets the headers and the
      -- body's chunks as they are. Where the body fails after those chunks the outcome is the same as
      -- where it ends: the exception is dropped, and nothing tells the client of it.
      pub handle-streaming :
          (response : ServerResponse Error Headers) (payload : List ℕ) (chunks : List (List ℕ))
          (stop : Source Error (List ℕ))
          → is_unary handler.method_kind ≡ false
          → handler.call (request_of (streaming_request_body C rest)) ≡ ok response
          → response.status ≡ 200
          → encode_headers_frame H J {E = Error} (or_else response.header empty) [] ≡ ok payload
          → response.body ≡ some (prepend chunks stop)
          → (stop ≡ done) ⊎ ((e : Thrown Error) × (stop ≡ fails e))
          → handle_bidi_socket H J T C resolve_url handlers aborted (next first rest) none
            ≡ (ok tt, wrote (headers_frame H J T C payload) ∷ map wrote chunks ++ cleanup)
      unfolding answer request_body write_response write_streaming
      handle-streaming response payload chunks stop k c s e b ends =
          handle-answer (streaming_request_body C rest) (ok tt)
            (headers_frame H J T C payload ∷ chunks) (rw (k, request_body))
            (rw c (
              ignoring_peer_disconnect-of (write_response H J T C handler.method_kind response) (
                rw (s, k)
                  (write_streaming-prepend H J T C response payload chunks stop e b ∙ stopped.1))
              ∙ ap
                  (λ (r : Result Error (Unit {0})).
                    (r, taking_all (headers_frame H J T C payload ∷ chunks)))
                  stopped.2))
        where
          stopped :
              (r : Result Error (Unit {0})) × (forward H J T C stop
                  (taking_all (headers_frame H J T C payload ∷ chunks))
                ≡ (r, taking_all (headers_frame H J T C payload ∷ chunks)))
              × (settled r ≡ ok tt)
          stopped =
              forward-stop H J T C stop (taking_all (headers_frame H J T C payload ∷ chunks)) ends
