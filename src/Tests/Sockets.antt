-- ===== src/Tests/Sockets.antt =====
-- Calls over a WebSocket, with the stand-ins of Tests.Transports.
use connect_bidi_web.Common.{
  ℕ, String, ◌≡◌, refl, ap, ◌∙◌, false, true, none, some, List, [], ◌∷◌, ◌++◌, map, get_elem?,
  if◌then◌else◌,
}
use text.Mathlib.Text.{◌==◌ as str_eq}
use connect_bidi_web.Common.IdMap
use connect_bidi_web.Platform.{internal, ConnectError, Channel, enqueue, read}
use connect_bidi_web.Wire.Bytes.{get_uint32}
use connect_bidi_web.Web.{connect, ok, throws, UrlApi}
use connect_bidi_web.Connect.{done, next, Source, EnvelopedMessage}
use connect_bidi_web.Connect.Client.{Request}
use connect_bidi_web.Bidi.Bodies.{prepend}
use connect_bidi_web.ClientCall.{read_headers, iterate}
use connect_bidi_web.WebSocketMux.{
  ready_open, Socket, WebSocketMux, Event, message, reads, close_stream, run, step, route,
  take_frame, open_stream, write_chunk, send_from, prefix_stream_id,
}
use connect_bidi_web.WebSocketMux.Arrivals.{Arrives}
use connect_bidi_web.WebSocketTransport.{ConnectWebSocketTransportOptions}
use connect_bidi_web.WebSocketTransport.Call.{stream_next, arrived, write_frames}
use connect_bidi_web.WebSocketTransport.Call.Sending.{Sound, request_frames}
use connect_bidi_web.WebSocketTransport.Call.Release.{
  IsSent, response, stream_next-answered, stream_next-leaks,
}
use connect_bidi_web.Tests.Calls.{H, J, C, data_of, half_close}
use connect_bidi_web.Tests.Exchanges.{describe, sound_end, path_payload}
use connect_bidi_web.Tests.Transports.{A, M, empty_headers, no_headers, serialized}

abbrev pub U : UrlApi
U = record {
  Url = String;
  parse = λ url base. if str_eq url "//" then none else some url;
  protocol = λ url. "https:";
  set_protocol = λ url protocol. url;
  pathname = λ url. if str_eq url "/websocket" then url else "/a.B/C";
  to_text = λ url. url;
}

abbrev options : ConnectWebSocketTransportOptions A
options = record {
  base_url = "https://host";
  use_binary_format = none;
  interceptors = [];
  default_timeout_ms = none;
  connection_per_stream = some true;
}

abbrev open_one : Socket
open_one = record { ready_state = ready_open; sent = []; closes = [] }

-- A connection for one stream, once it is open.
abbrev dialed : WebSocketMux
dialed = record {
  close_when_idle = true;
  sockets = open_one ∷ [];
  streams = [];
  socket = some 0;
  opening = none;
  next_stream_id = 1;
  entries = [];
}

abbrev request : Request H.Headers A.Context (Source String (List ℕ))
request = record {
  is_stream = true;
  request_method = "POST";
  url = "https://host/a.B/C";
  header = [];
  context_values = "";
  message = prepend ((5 ∷ []) ∷ (6 ∷ []) ∷ []) done;
}

-- Chunks of one envelope each.
abbrev pub split : List (List ℕ) → Source String EnvelopedMessage
split ((flag ∷ n ∷ bytes) ∷ chunks) = next (record { flags = flag; content = bytes }) (split chunks)
split _ = done

abbrev envelopes : Channel ConnectError → Source String EnvelopedMessage
envelopes c = split (c.delivered ++ c.queue)

sound :
    (later : List (Event C.encode_envelope C.end_stream_flag))
    → Sound H J U C A describe sound_end options M dialed 0 request envelopes none later
        "https://host/a.B/C"
        (4 ∷ 5 ∷ [])
        ((5 ∷ []) ∷ (6 ∷ []) ∷ [])
sound later = record { parses = refl; encodes = path_payload; serializes = serialized }

abbrev response_after :
    List (Event C.encode_envelope C.end_stream_flag) → Source String EnvelopedMessage
response_after =
    response H J U C A describe sound_end options M dialed 0 open_one request envelopes none
      "https://host/a.B/C" (4 ∷ 5 ∷ []) ((5 ∷ []) ∷ (6 ∷ []) ∷ [])

-- The server's headers, a message and the end of the stream, the first of them read in between.
abbrev later : List (Event C.encode_envelope C.end_stream_flag)
later =
    message (0 ∷ 0 ∷ 0 ∷ 1 ∷ 6 ∷ 0 ∷ [])
    ∷ reads 0
    ∷ message (0 ∷ 0 ∷ 0 ∷ 1 ∷ 0 ∷ 1 ∷ 7 ∷ [])
    ∷ message (0 ∷ 0 ∷ 0 ∷ 1 ∷ 2 ∷ 0 ∷ [])
    ∷ []

reply : response_after later ≡ next empty_headers (next (data_of 7) (next half_close done))
unfolding arrived write_frames open_stream write_chunk send_from run step route take_frame IdMap.get
    IdMap.put get_uint32 enqueue read
reply = refl

read_reply :
    read_headers H J C describe 6 (response_after later)
    ≡ ok ([], next (data_of 7) (next half_close done))
unfolding read_headers
read_reply = ap (read_headers H J C describe 6) reply ∙ rw (no_headers, read_headers)

stream_next-answered_example :
    (t : WebSocketMux) × IsSent H J U C A describe sound_end options M dialed 0 open_one request
      envelopes none "https://host/a.B/C"
      (4 ∷ 5 ∷ [])
      ((5 ∷ []) ∷ (6 ∷ []) ∷ [])
      t
    × (stream_next H J U C A describe sound_end options M dialed 0 request envelopes none later ≡ (
      ok (record {
        header = [];
        body =
            iterate H J C describe
              (M.parse false)
              sound_end
              []
              []
              (next (data_of 7) (next half_close done));
      }),
      close_stream C.encode_envelope C.end_stream_flag
          (run C.encode_envelope C.end_stream_flag t later)
          1,
    ))
    × (IdMap.get
          ((stream_next H J U C A describe sound_end options M dialed 0 request envelopes none
            later).1.entries)
          1
        ≡ none)
stream_next-answered_example =
    stream_next-answered H J U C A describe sound_end options M dialed 0 open_one request envelopes
      none "https://host/a.B/C" (4 ∷ 5 ∷ []) ((5 ∷ []) ∷ (6 ∷ []) ∷ []) later []
      (next (data_of 7) (next half_close done)) refl refl (sound later) read_reply

-- The server starts with a data envelope.
abbrev no_head : List (Event C.encode_envelope C.end_stream_flag)
no_head = message (0 ∷ 0 ∷ 0 ∷ 1 ∷ 0 ∷ 1 ∷ 7 ∷ []) ∷ reads 0 ∷ []

data_first : response_after no_head ≡ next (data_of 7) done
unfolding arrived write_frames open_stream write_chunk send_from run step route take_frame IdMap.get
    IdMap.put get_uint32 enqueue read
data_first = refl

no_reply :
    read_headers H J C describe 6 (response_after no_head)
    ≡ throws (connect (C.connect_error (describe 0) internal))
unfolding read_headers
no_reply = ap (read_headers H J C describe 6) data_first

arrives : Arrives C.encode_envelope C.end_stream_flag 1 (message (0 ∷ 0 ∷ 0 ∷ 1 ∷ 0 ∷ 1 ∷ 7 ∷ []))
unfolding get_uint32
arrives = refl

stream_next-leaks_example :
    let (result, t) =
      stream_next H J U C A describe sound_end options M dialed 0 request envelopes none no_head in
    (result ≡ throws (connect (C.connect_error (describe 0) internal)))
    × (IdMap.get t.entries 1 ≡ some 0)
    × (get_elem? t.sockets 0
        ≡ some (record open_one {
          sent = map (prefix_stream_id 1) (
              request_frames H J U C A describe sound_end options M
                (4 ∷ 5 ∷ [])
                ((5 ∷ []) ∷ (6 ∷ []) ∷ []));
        }))
    × (t.socket ≡ some 0)
stream_next-leaks_example =
    stream_next-leaks H J U C A describe sound_end options M dialed 0 open_one request envelopes
      none "https://host/a.B/C" (4 ∷ 5 ∷ []) ((5 ∷ []) ∷ (6 ∷ []) ∷ []) no_head
      (connect (C.connect_error (describe 0) internal)) refl refl (sound no_head)
      (arrives, (tt, tt)) no_reply
