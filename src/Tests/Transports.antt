-- ===== src/Tests/Transports.antt =====
-- Calls of the client transports, with the stand-in of Tests.Calls.
use connect_bidi_web.Common.{
  is_le_zero, ℤ, ℕ, ◌≤◌, String, ◌≡◌, refl, false, none, some, List, [], ◌∷◌, length, take,
}
use connect_bidi_web.Common.Props
use connect_bidi_web.Web.{other, Thrown, ok, throws, fields}
use connect_bidi_web.Connect.{done, next, fails, unary as unary_kind, EnvelopedMessage}
use connect_bidi_web.Connect.Client.{MethodApi, ClientApi, CallArguments}
use connect_bidi_web.HeadersFrame
use connect_bidi_web.HeadersFrame.Browser.{
  encode_headers_frame, decode_headers_frame, read_message, read_metadata, read_entries,
}
use connect_bidi_web.HeadersFrame.Browser.Mirror.{headers_frame-mirror}
use connect_bidi_web.Bidi.Bodies.{prepend}
use connect_bidi_web.ClientCall.Session.{WebTransportSession, read_response_body}
use connect_bidi_web.ClientCall.Session.Reading.{ends, Blames, read_response_body-throws}
use connect_bidi_web.WebTransport.Loops.{nothing, yield}
use connect_bidi_web.WebTransport.Transport.{
  ConnectWebTransportTransportOptions, session_factory, serialize_all, unary, stream,
}
use connect_bidi_web.WebTransport.Transport.Calls.{Answers, unary-answered, stream-answered}
use connect_bidi_web.Tests.Calls.{H, J, C, data_of, half_close}
use connect_bidi_web.Tests.Exchanges.{
  describe, keep_error, sound_end, Closes-half_close, path_payload,
}

headers_frame-mirror_example :
    (encode_headers_frame H J {E = String} (("x-id", "7") ∷ []) ((":path", "/a.B/C") ∷ [])
      ≡ HeadersFrame.encode_headers_frame H J (("x-id", "7") ∷ []) ((":path", "/a.B/C") ∷ []))
    × (decode_headers_frame H J {E = String} (2 ∷ 3 ∷ [])
        ≡ HeadersFrame.decode_headers_frame H J (2 ∷ 3 ∷ []))
headers_frame-mirror_example =
    headers_frame-mirror H J (("x-id", "7") ∷ []) ((":path", "/a.B/C") ∷ []) (2 ∷ 3 ∷ [])

read_response_body-throws_example :
    (n : ℕ) × (n ≤ length (data_of 1 ∷ data_of 2 ∷ []))
    × (t : Thrown String) × Blames (other 9) done t
    × (read_response_body (throws (other 9)) (some 1) (prepend (data_of 1 ∷ data_of 2 ∷ []) done)
        ≡ prepend (take n (data_of 1 ∷ data_of 2 ∷ [])) (fails t))
read_response_body-throws_example =
    read_response_body-throws (other 9) (some 1) (data_of 1 ∷ data_of 2 ∷ []) done ends

abbrev pub A : ClientApi H.Headers String
A = record {
  Interceptor = String;
  Signal = String;
  Context = String;
  Init = String;
  Number = ℤ;
  is_at_most_zero = is_le_zero;
  create_context_values = "";
  create_method_url = λ base type_name name. "https://host/a.B/C";
  request_header = λ kind binary timeout header agent. [];
}

abbrev pub M : MethodApi String
M = record {
  Message = List ℕ;
  Answer = List ℕ;
  type_name = "a.B";
  name = "C";
  kind = unary_kind;
  serialize = λ binary message. ok message;
  parse = λ binary bytes. ok bytes;
}

abbrev pub empty_headers : EnvelopedMessage
empty_headers = record { flags = 6; content = [] }

pub no_headers : decode_headers_frame H J {E = String} [] ≡ ok ([], [])
unfolding decode_headers_frame read_message read_metadata read_entries fields Props.get
no_headers = refl

abbrev session : WebTransportSession String
session = record {
  create_bidirectional_stream = ok (record {
    writable = record { taken = []; room = none };
    readable = next empty_headers (next (data_of 7) (next half_close done));
  });
  ready = ok tt;
}

abbrev web_options : ConnectWebTransportTransportOptions A
web_options = record {
  base_url = "https://host";
  session = session_factory (ok session);
  use_binary_format = none;
  interceptors = [];
  default_timeout_ms = none;
}

abbrev pub call_of : {Body : Type 0} → Body → CallArguments A Body
call_of body = record {
  signal = none;
  timeout_ms = none;
  header = none;
  body = body;
  context_values = none;
}

abbrev pub direct : {Options Req Res : Type 0} → Options → Req → (Req → Res) → Res
direct options req next' = next' req

answers :
    Answers H J C A describe keep_error sound_end web_options M none direct direct []
      (next (data_of 7) (next half_close done))
answers = record {
  session = session;
  resolved = refl;
  is_ready = refl;
  content = [];
  opens = refl;
  pseudo = [];
  decodes = no_headers;
}

unary-answered_example :
    unary H J C A describe keep_error sound_end web_options M none direct direct (call_of (5 ∷ []))
    ≡ (
      ok (record { header = []; message = 7 ∷ []; trailer = ("x-id", "7") ∷ [] }),
      (6 ∷ 2 ∷ 4 ∷ 5 ∷ []) ∷ (0 ∷ 1 ∷ 5 ∷ []) ∷ [],
    )
unary-answered_example =
    unary-answered H J C A describe keep_error sound_end web_options M none direct direct
      (call_of (5 ∷ [])) [] (("x-id", "7") ∷ []) (data_of 7) half_close (5 ∷ []) (4 ∷ 5 ∷ [])
      (7 ∷ []) refl answers path_payload refl refl Closes-half_close refl

pub serialized :
    serialize_all {E = String} (M.serialize false) (prepend ((5 ∷ []) ∷ (6 ∷ []) ∷ []) done)
    ≡ prepend ((5 ∷ []) ∷ (6 ∷ []) ∷ []) done
unfolding serialize_all
serialized = refl

stream-answered_example :
    stream H J C A describe keep_error sound_end web_options M none direct direct
      (call_of (prepend ((5 ∷ []) ∷ (6 ∷ []) ∷ []) done))
    ≡ (
      ok (record {
        header = [];
        body = record { messages = (7 ∷ []) ∷ []; trailers = ("x-id", "7") ∷ []; result = ok tt };
      }),
      (6 ∷ 2 ∷ 4 ∷ 5 ∷ []) ∷ (0 ∷ 1 ∷ 5 ∷ []) ∷ (0 ∷ 1 ∷ 6 ∷ []) ∷ [],
    )
stream-answered_example =
    stream-answered H J C A describe keep_error sound_end web_options M none direct direct
      (call_of (prepend ((5 ∷ []) ∷ (6 ∷ []) ∷ []) done)) ((5 ∷ []) ∷ (6 ∷ []) ∷ []) []
      (("x-id", "7") ∷ []) (data_of 7 ∷ []) ((7 ∷ []) ∷ []) half_close (4 ∷ 5 ∷ []) refl answers
      path_payload serialized (yield (data_of 7) (7 ∷ []) [] [] refl refl nothing) Closes-half_close
