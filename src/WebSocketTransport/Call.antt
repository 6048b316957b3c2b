-- ===== src/WebSocketTransport/Call.antt =====
-- `unary` and `stream` of the WebSocket transport.
pub mod Sending
pub mod Release
use connect_bidi_web.Common.{
  ℕ, String, Bool, true, false, Option, none, some, List, [], ◌∷◌, ◌++◌, length, get_elem?, modify,
  if◌then◌else◌,
}
use text.Mathlib.Text.{◌==◌ as str_eq}
use connect_bidi_web.Platform.{unimplemented, ConnectError, Channel, opened}
use connect_bidi_web.Web.{
  Thrown, connect, type_error, Result, ok, throws, ◌>>=◌, HeadersApi, JsonApi, UrlApi,
}
use connect_bidi_web.Connect.{Source, done, fails, next, EnvelopedMessage, ConnectApi}
use connect_bidi_web.Connect.Client.{Request, MethodApi, ClientApi, CallArguments, RunOptions}
use connect_bidi_web.Wire.{flag_envelope_headers, flag_envelope_data}
use connect_bidi_web.Bidi.Writing.{Writer}
use connect_bidi_web.ClientCall.{Outcome, write_head, write_messages, read_headers, iterate}
use connect_bidi_web.ClientCall.Session.{read_response_body}
use connect_bidi_web.WebSocketMux
use connect_bidi_web.WebSocketMux.{
  WebSocketMux, MuxStreamEntry, Event, construct, dial, open_stream, write_chunk, half_close,
  close_stream, run,
}
use connect_bidi_web.WebTransport.Transport.{
  normalize_timeout, or_else, serialize_all, StreamResponse,
}
use connect_bidi_web.WebSocketTransport.{ConnectWebSocketTransportOptions}

module _ (H : HeadersApi) (J : JsonApi) (U : UrlApi) (C : ConnectApi H.Headers)
    (A : ClientApi H.Headers C.Error) (describe : ℕ → String)
    (end_stream_from_json : List ℕ → Result C.Error (Option C.Error × List (String × String)))
    (options : ConnectWebSocketTransportOptions A) (M : MethodApi C.Error) where
  open H use {Headers, empty}
  open C use {Error, connect_error, encode_envelope, end_stream_flag}
  open M use {Message, Answer}

  -- `unary`
  abbrev pub unary : {Arguments Response : Type 0} → Arguments → Result Error Response
  unary arguments = throws (connect (connect_error "Unary not implemented over WS" unimplemented))

  abbrev pub binary : Bool
  binary = or_else options.use_binary_format false

  abbrev pub request_of :
      CallArguments A (Source Error Message) → Request Headers A.Context (Source Error Message)
  request_of arguments = record {
    is_stream = true;
    request_method = "POST";
    url = A.create_method_url options.base_url M.type_name M.name;
    header =
        A.request_header M.kind binary
          (normalize_timeout A options.default_timeout_ms arguments.timeout_ms) arguments.header
          false;
    context_values = or_else arguments.context_values A.create_context_values;
    message = arguments.body;
  }

  -- What the options and the arguments give `runStreamingCall` beside the request.
  abbrev pub run_options_of : CallArguments A (Source Error Message) → RunOptions A
  run_options_of arguments = record {
    interceptors = options.interceptors;
    signal = arguments.signal;
    timeout_ms = normalize_timeout A options.default_timeout_ms arguments.timeout_ms;
  }

  -- The frames that a writer took, written to the writable of entry `r`.
  unfoldable pub write_frames : WebSocketMux → ℕ → List (List ℕ) → WebSocketMux
  write_frames m r [] = m
  write_frames m r (frame ∷ frames) =
      write_frames (write_chunk encode_envelope end_stream_flag m r frame) r frames

  -- The writable never refuses a frame.
  abbrev pub unlimited : Writer
  unlimited = record { taken = []; room = none }

  -- `await writer.close()`, or `writer.abort(err)` where the request fails.
  unfoldable pub end_writing : WebSocketMux → ℕ → ℕ → Result Error (Unit {0}) → WebSocketMux
  end_writing m r stream_id (ok u) = half_close encode_envelope end_stream_flag m r
  end_writing m r stream_id (throws e) = close_stream encode_envelope end_stream_flag m stream_id

  write_request_in : WebSocketMux → ℕ → ℕ → Result Error (Unit {0}) × Writer → WebSocketMux
  write_request_in m r stream_id (written, w) =
      end_writing (write_frames m r w.taken) r stream_id written

  -- The messages of the request.
  unfoldable pub write_body :
      WebSocketMux → ℕ → ℕ → Source Error Message → WebSocketMux × Result Error (Unit {0})
  unfolding write_request_in
  write_body m r stream_id messages =
      let written =
        write_messages H J C flag_envelope_data (serialize_all (M.serialize binary) messages)
          unlimited in
      (write_request_in m r stream_id written, written.0)

  -- From the response's headers on. `later` is what happens on the connection until the generator
  -- ends or, without a generator, until the call throws.
  unfoldable pub read_answer :
      WebSocketMux × Result Error (Unit {0})
      → ℕ
      → Option ℕ
      → List (Event encode_envelope end_stream_flag)
      → Result Error (Headers × Source Error EnvelopedMessage)
      → Result Error (StreamResponse Error Headers Answer) × WebSocketMux
  read_answer (m, written) stream_id overtaken later (throws e) =
      (throws e, run encode_envelope end_stream_flag m later)
  read_answer (m, written) stream_id overtaken later (ok (response_headers, rest)) = (
    ok (record {
      header = response_headers;
      body =
          iterate H J C describe (M.parse binary) end_stream_from_json [] empty
            (read_response_body written overtaken rest);
    }),
    close_stream encode_envelope end_stream_flag (run encode_envelope end_stream_flag m later)
        stream_id,
  )

  -- What the response's reader gets: `envelopes` is `createEnvelopeReadableStream`, by the chunks
  -- that the stream's readable was given and how it stands. An entry is never taken off the heap.
  arrived_in :
      (Channel ConnectError → Source Error EnvelopedMessage)
      → Option MuxStreamEntry
      → Source Error EnvelopedMessage
  arrived_in envelopes none = envelopes opened
  arrived_in envelopes (some entry) = envelopes entry.controller

  -- The response of entry `r` after the events that happen later on the connection.
  unfoldable pub arrived :
      (Channel ConnectError → Source Error EnvelopedMessage)
      → WebSocketMux
      → ℕ
      → List (Event encode_envelope end_stream_flag)
      → Source Error EnvelopedMessage
  unfolding arrived_in
  arrived envelopes m r later =
      arrived_in envelopes (get_elem? (run encode_envelope end_stream_flag m later).streams r)

  after_head :
      WebSocketMux
      → ℕ
      → ℕ
      → Source Error Message
      → (Channel ConnectError → Source Error EnvelopedMessage)
      → Option ℕ
      → List (Event encode_envelope end_stream_flag)
      → Result Error (Unit {0}) × Writer
      → Result Error (StreamResponse Error Headers Answer) × WebSocketMux
  after_head m r stream_id messages envelopes overtaken later (throws e, w) =
      (throws e, write_frames m r w.taken)
  after_head m r stream_id messages envelopes overtaken later (ok u, w) =
      let body = write_body (write_frames m r w.taken) r stream_id messages in
      read_answer body stream_id overtaken later
        (read_headers H J C describe flag_envelope_headers (arrived envelopes body.0 r later))

  -- The path of the request's URL
  path_of : String → Result Error String
  path_of url = elim (U.parse url none) [ none ↦ throws type_error | some u ↦ ok (U.pathname u) ]

  call_on :
      WebSocketMux
      → ℕ
      → ℕ
      → Request Headers A.Context (Source Error Message)
      → (Channel ConnectError → Source Error EnvelopedMessage)
      → Option ℕ
      → List (Event encode_envelope end_stream_flag)
      → Result Error String
      → Result Error (StreamResponse Error Headers Answer) × WebSocketMux
  unfolding after_head
  call_on m r stream_id req envelopes overtaken later (throws e) = (throws e, m)
  call_on m r stream_id req envelopes overtaken later (ok path) =
      after_head m r stream_id req.message envelopes overtaken later
        (write_head H J C req.header flag_envelope_headers path unlimited)

  -- `next` on a mux whose `open` resolved to socket `k`; `overtaken` as for `read_response_body`.
  unfoldable pub stream_next :
      WebSocketMux
      → ℕ
      → Request Headers A.Context (Source Error Message)
      → (Channel ConnectError → Source Error EnvelopedMessage)
      → Option ℕ
      → List (Event encode_envelope end_stream_flag)
      → Result Error (StreamResponse Error Headers Answer) × WebSocketMux
  unfolding call_on path_of
  stream_next m k req envelopes overtaken later =
      let (m', r) = open_stream m k in
      call_on m' r m.next_stream_id req envelopes overtaken later (path_of req.url)

  -- `stream` on that mux, through `runStreamingCall`.
  unfoldable pub stream :
      (RunOptions A
        → Request Headers A.Context (Source Error Message)
        → (Request Headers A.Context (Source Error Message)
            → Result Error (StreamResponse Error Headers Answer) × WebSocketMux)
        → Result Error (StreamResponse Error Headers Answer) × WebSocketMux)
      → WebSocketMux
      → ℕ
      → CallArguments A (Source Error Message)
      → (Channel ConnectError → Source Error EnvelopedMessage)
      → Option ℕ
      → List (Event encode_envelope end_stream_flag)
      → Result Error (StreamResponse Error Headers Answer) × WebSocketMux
  stream run_streaming_call m k arguments envelopes overtaken later =
      run_streaming_call (run_options_of arguments) (request_of arguments)
        (λ req. stream_next m k req envelopes overtaken later)
