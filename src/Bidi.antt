-- ===== src/Bidi.antt =====
-- ts/packages/core/src/handle-bidi-socket.ts: one RPC on one full-duplex stream.
-- What the socket yields is a `Source` of envelopes (`createEnvelopeReadableStream` makes it); what
-- is done to the socket is a list of effects, oldest first.
pub mod Writing
pub mod Normalize
pub mod Request
pub mod Response
pub mod Bodies
pub mod Frames
pub mod Calls
pub mod Disconnect
pub mod Cutoff
pub mod Signal
use connect_bidi_web.Common.{
  ℕ, String, Bool, true, false, Option, none, some, List, [], ◌∷◌, ◌++◌, map, ◌==◌, if◌then◌else◌,
}
use Prim.Native.String
use connect_bidi_web.Common.Props
use text.Mathlib.Text.{◌==◌ as str_eq}
use connect_bidi_web.Platform.{unimplemented}
use connect_bidi_web.Web.{Thrown, Result, ok, throws, Json, null, string, HeadersApi, JsonApi}
use connect_bidi_web.Connect.{
  Source, done, fails, next, MethodKind, EnvelopedMessage, ServerRequest, ServerResponse, Handler,
  ConnectApi,
}
use connect_bidi_web.Wire.{flag_envelope_headers}
use connect_bidi_web.HeadersFrame.{decode_headers_frame}
use Writing.{Writer, Script, lift, pure, ◌>>=◌, ignoring_peer_disconnect}
use Normalize.{normalize_unary_request_headers}
use Request.{read_unary_request_body, streaming_request_body}
use Response.{TextApi, is_unary, write_error_response, write_response}

-- What happens to the socket and to the request's signal.
pub data Effect : Type 0 where
  wrote : List ℕ → Effect
  aborts_request cancels_reader closes_writer closes_socket : Effect

-- `pseudo[":path"] ?? ""`
abbrev or_empty : Option Json → Json
or_empty none = string ""
or_empty (some null) = string ""
or_empty (some path) = path

unfoldable pub path_of : List (String × Json) → Json
path_of pseudo = or_empty (Props.get pseudo ":path")

-- `h.requestPath === path`
abbrev pub is_path : Json → String → Bool
is_path (string path) request_path = str_eq request_path path
is_path _ request_path = false

-- `handlers.find((h) => h.requestPath === path)`
unfoldable pub find_handler :
    {E Headers : Type 0} → List (Handler E Headers) → Json → Option (Handler E Headers)
find_handler [] path = none
find_handler (h ∷ handlers) path =
    if is_path path h.request_path then some h else find_handler handlers path

-- The `finally` block: the writes and then the cleanup, whatever the result.
unfoldable pub finally :
    {E : Type 0} → Result E (Unit {0}) × Writer → Result E (Unit {0}) × List Effect
finally (result, w) = (
  result,
  map wrote w.taken ++ (aborts_request ∷ cancels_reader ∷ closes_writer ∷ closes_socket ∷ []),
)

module _ (H : HeadersApi) (J : JsonApi) (T : TextApi) (C : ConnectApi H.Headers) where
  open H use {Headers}
  open C use {Error, connect_error, error_from}

  module _
      -- `new URL(path, "https://bidi.invalid").toString()`
      (resolve_url : String → Result Error String) (handlers : List (Handler Error Headers))
      -- Whether `options.signal` is aborted already.
      (aborted : Bool) where
    -- The path of the URL is the handler's, which it was found by.

    -- The `body` of the request.
    unfoldable pub request_body :
        MethodKind → Source Error EnvelopedMessage → Result Error (Source Error (List ℕ))
    request_body kind env_reader = elim (is_unary kind) [
      | true ↦ elim (read_unary_request_body C env_reader) [
        | ok bytes ↦ ok (next bytes done)
        | throws e ↦ throws e
      ]
      | false ↦ ok (streaming_request_body C env_reader)
    ]

    unfoldable pub request_header : MethodKind → Headers → Headers
    request_header kind headers =
        if is_unary kind then normalize_unary_request_headers H C headers else headers

    -- `try { response = await handler(request) } catch …` and what follows it.
    unfoldable pub answer :
        MethodKind → Result Error (ServerResponse Error Headers) → Script Error (Unit {0})
    answer kind (throws e) =
        ignoring_peer_disconnect (write_error_response H J T C (error_from e) none none)
    answer kind (ok response) = ignoring_peer_disconnect (write_response H J T C kind response)

    unfoldable pub call :
        Handler Error Headers → Headers → Source Error EnvelopedMessage → Script Error (Unit {0})
    unfolding request_body request_header answer
    call handler headers env_reader = do
      url ← lift (resolve_url handler.request_path)
      body ← lift (request_body handler.method_kind env_reader)
      answer handler.method_kind (
          handler.call (record {
            http_version = "2";
            method = "POST";
            url = url;
            header = request_header handler.method_kind headers;
            body = body;
            aborted = aborted;
          }))

    unfoldable pub dispatch :
        Headers
        → Json
        → Source Error EnvelopedMessage
        → Option (Handler Error Headers)
        → Script Error (Unit {0})
    dispatch headers path env_reader none = ignoring_peer_disconnect (
        write_error_response H J T C
          (connect_error (String.◌++◌ "unknown procedure: " (J.to_text path)) unimplemented) none
          none)
    dispatch headers path env_reader (some handler) = call handler headers env_reader

    unfoldable pub serve :
        EnvelopedMessage → Source Error EnvelopedMessage → Script Error (Unit {0})
    unfolding dispatch
    serve first env_reader = lift (decode_headers_frame H J first.content) >>= λ decoded.
        dispatch decoded.0 (path_of decoded.1) env_reader
          (find_handler handlers (path_of decoded.1))

    -- The body of the `try`.
    unfoldable pub attempt : Source Error EnvelopedMessage → Script Error (Unit {0})
    attempt done = pure tt
    attempt (fails e) = pure tt
    attempt (next first env_reader) =
        if first.flags == flag_envelope_headers then serve first env_reader else pure tt

    unfoldable pub handle_bidi_socket :
        Source Error EnvelopedMessage → Option ℕ → Result Error (Unit {0}) × List Effect
    handle_bidi_socket env_reader room =
        finally (attempt env_reader (record { taken = []; room = room }))
