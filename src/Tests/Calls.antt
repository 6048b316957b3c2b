-- ===== src/Tests/Calls.antt =====
-- RPCs with a small stand-in for the packages that the program calls.
use connect_bidi_web.Common.{
  ℕ, String, ◌≡◌, refl, inr, false, Option, none, some, List, [], ◌∷◌, ◌++◌, map, length, take,
}
use connect_bidi_web.Common.Props
use connect_bidi_web.Platform.{internal}
use connect_bidi_web.Web.{
  other, Result, ok, throws, Json, string, items, fields, HeadersApi, JsonApi,
}
use connect_bidi_web.Connect.{
  done, fails, next, unary, server_streaming, EnvelopedMessage, not_unary_error, Handler,
  ConnectApi,
}
use connect_bidi_web.Wire.{concat_bytes}
use connect_bidi_web.HeadersFrame.{
  collect, add_pseudo, encode_with, encode_headers_frame, decode_headers_frame, decode_metadata,
  decode_entries, set_pseudo,
}
use connect_bidi_web.Bidi.{
  Effect, wrote, aborts_request, cancels_reader, closes_writer, closes_socket, path_of,
  find_handler, request_body, handle_bidi_socket,
}
use connect_bidi_web.Bidi.Normalize.{mirror_unary_response_encoding, mirror_to}
use connect_bidi_web.Bidi.Request.{
  unexpected_headers, collect_chunks, concat_async_iterable, streaming_request_body,
}
use connect_bidi_web.Bidi.Response.{TextApi, data_flag, body_bytes}
use connect_bidi_web.Bidi.Bodies.{prepend, half_closed, refused, read_unary_request_body-prepend}
use connect_bidi_web.Bidi.Calls.{
  handle-unknown, handle-refused_body, handle-throws, handle-unary, handle-streaming,
}
use connect_bidi_web.Bidi.Cutoff.{handle_bidi_socket-cutoff}
use connect_bidi_web.Tests.Metadata.{word_json, pair_headers}

abbrev pub H : HeadersApi
H = pair_headers

abbrev pub J : JsonApi
J = word_json

abbrev pub T : TextApi
T = record { to_lower_case = λ s. s; http_status = λ status. "HTTP" }

abbrev end_bytes : Option String → List ℕ
end_bytes none = []
end_bytes (some error) = 1 ∷ []

abbrev pub C : ConnectApi H.Headers
C = record {
  Error = String;
  connect_error = λ message code. message;
  error_from = λ thrown. "internal";
  encode_envelope = λ flag bytes. flag ∷ length bytes ∷ bytes;
  compressed_flag = 1;
  end_stream_flag = 2;
  serialize_end_stream = λ metadata error. end_bytes error;
  parse_content_type = λ value. none;
  content_type_unary_json = "application/json";
  content_type_unary_proto = "application/proto";
  header_content_type = "content-type";
  header_stream_accept_encoding = "connect-accept-encoding";
  header_stream_encoding = "connect-content-encoding";
  header_unary_accept_encoding = "accept-encoding";
  header_unary_encoding = "content-encoding";
  trailer_demux = λ headers. (headers, []);
  validate_response = λ kind status headers. ok not_unary_error;
  code_from_http_status = λ status. internal;
  error_from_json_bytes = λ bytes headers error. ok error;
}

abbrev pub data_of : ℕ → EnvelopedMessage
data_of n = record { flags = 0; content = n ∷ [] }

abbrev pub half_close : EnvelopedMessage
half_close = record { flags = 2; content = [] }

abbrev headers_again : EnvelopedMessage
headers_again = record { flags = 6; content = [] }

-- The path "/a.B/C" in the words of the stand-in.
abbrev opening : EnvelopedMessage
opening = record { flags = 6; content = 4 ∷ 5 ∷ [] }

abbrev pub path_only : List (String × Json)
path_only = (":path", string "/a.B/C") ∷ []

pub decoded : decode_headers_frame H J {E = String} (4 ∷ 5 ∷ []) ≡ ok ([], path_only)
unfolding decode_headers_frame decode_metadata decode_entries fields items set_pseudo Props.get
    Props.put
decoded = refl

abbrev pub echo : Handler String H.Headers
echo = record {
  request_path = "/a.B/C";
  method_kind = unary;
  call = λ request. ok (record { status = 200; header = none; body = some request.body });
}

abbrev broken : Handler String H.Headers
broken = record {
  request_path = "/a.B/C";
  method_kind = server_streaming;
  call = λ request. throws (other 3);
}

abbrev failing : Handler String H.Headers
failing = record {
  request_path = "/a.B/C";
  method_kind = server_streaming;
  call = λ request. ok (record {
    status = 200;
    header = none;
    body = some (prepend ((9 ∷ []) ∷ []) (fails (other 4)));
  });
}

abbrev pub resolve : String → Result String String
resolve path = ok path

pub found :
    (h : Handler String H.Headers)
    → h.request_path ≡ "/a.B/C"
    → find_handler (h ∷ []) (path_of path_only) ≡ some h
unfolding find_handler path_of Props.get
found h e = rw e

pub no_headers : encode_headers_frame H J {E = String} [] [] ≡ ok []
unfolding encode_headers_frame encode_with collect add_pseudo
no_headers = refl

abbrev cleanup : List Effect
cleanup = aborts_request ∷ cancels_reader ∷ closes_writer ∷ closes_socket ∷ []

handle-unknown_example :
    handle_bidi_socket H J T C resolve [] false (next opening done) none
    ≡ (ok tt, wrote (6 ∷ 0 ∷ []) ∷ wrote (2 ∷ 1 ∷ 1 ∷ []) ∷ cleanup)
unfolding find_handler
handle-unknown_example =
    handle-unknown H J T C resolve [] false opening done [] path_only refl decoded [] refl
      no_headers

handle-refused_body_example :
    handle_bidi_socket H J T C resolve
      (echo ∷ [])
      false
      (next opening (next headers_again done))
      none
    ≡ (throws (unexpected_headers C), cleanup)
handle-refused_body_example =
    handle-refused_body H J T C resolve (echo ∷ []) false opening (next headers_again done) []
      path_only refl decoded echo "/a.B/C" (found echo refl) refl (unexpected_headers C) refl
      (read_unary_request_body-prepend C [] (next headers_again done) (fails (unexpected_headers C))
        tt (refused headers_again done refl refl))

handle-throws_example :
    handle_bidi_socket H J T C resolve (broken ∷ []) false (next opening done) none
    ≡ (ok tt, wrote (6 ∷ 0 ∷ []) ∷ wrote (2 ∷ 1 ∷ 1 ∷ []) ∷ cleanup)
unfolding request_body streaming_request_body
handle-throws_example =
    handle-throws H J T C resolve (broken ∷ []) false opening done [] path_only refl decoded broken
      "/a.B/C" (found broken refl) refl (other 3) done [] refl refl no_headers

handle-unary_example :
    handle_bidi_socket H J T C resolve
      (echo ∷ [])
      false
      (next opening (next (data_of 7) (next half_close done)))
      none
    ≡ (ok tt, wrote (6 ∷ 0 ∷ []) ∷ wrote (0 ∷ 1 ∷ 7 ∷ []) ∷ wrote (2 ∷ 0 ∷ []) ∷ cleanup)
unfolding mirror_unary_response_encoding mirror_to body_bytes concat_async_iterable collect_chunks
    data_flag concat_bytes
handle-unary_example =
    handle-unary H J T C resolve (echo ∷ []) false opening (next (data_of 7) (next half_close done))
      [] path_only refl decoded echo "/a.B/C" (found echo refl) refl (7 ∷ [])
      (record { status = 200; header = none; body = some (next (7 ∷ []) done) }) [] [] [] (7 ∷ [])
      refl
      (read_unary_request_body-prepend C (data_of 7 ∷ []) (next half_close done) done
        ((refl, refl), tt) (half_closed half_close done refl))
      refl refl refl no_headers refl

handle-streaming_example :
    handle_bidi_socket H J T C resolve (failing ∷ []) false (next opening done) none
    ≡ (ok tt, wrote (6 ∷ 0 ∷ []) ∷ wrote (9 ∷ []) ∷ cleanup)
handle-streaming_example =
    handle-streaming H J T C resolve (failing ∷ []) false opening done [] path_only refl decoded
      failing "/a.B/C" (found failing refl) refl
      (record {
        status = 200;
        header = none;
        body = some (prepend ((9 ∷ []) ∷ []) (fails (other 4)));
      })
      [] ((9 ∷ []) ∷ []) (fails (other 4)) refl refl refl no_headers refl (inr (other 4, refl))

handle_bidi_socket-cutoff_example :
    (fs : List (List ℕ)) × (r : Result String (Unit {0})) × (handle_bidi_socket H J T C resolve
        (echo ∷ [])
        false
        (next opening (next (data_of 7) done))
        none
      ≡ (r, map wrote fs ++ cleanup))
    × ((n : ℕ)
        → handle_bidi_socket H J T C resolve
            (echo ∷ [])
            false
            (next opening (next (data_of 7) done))
            (some n)
          ≡ (r, map wrote (take n fs) ++ cleanup))
handle_bidi_socket-cutoff_example =
    handle_bidi_socket-cutoff H J T C resolve (echo ∷ []) false
      (next opening (next (data_of 7) done))
