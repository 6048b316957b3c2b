-- ===== src/WebSocketTransport.antt =====
-- `createConnectWebSocketTransport` of ts/packages/web/src/connect-websocket-transport.ts: calls on
-- the streams of a `WebSocketMux`.
pub mod Call
use connect_bidi_web.Common.{
  ℕ, String, Bool, true, false, Option, none, some, List, [], ◌∷◌, ◌++◌, length, get_elem?, modify,
  if◌then◌else◌,
}
use text.Mathlib.Text.{◌==◌ as str_eq}
use connect_bidi_web.Platform.{unimplemented}
use connect_bidi_web.Web.{
  Thrown, connect, type_error, Result, ok, throws, ◌>>=◌, HeadersApi, JsonApi, UrlApi,
}
use connect_bidi_web.Connect.{Source, done, fails, next, EnvelopedMessage, ConnectApi}
use connect_bidi_web.Connect.Client.{Request, MethodApi, ClientApi, CallArguments, RunOptions}
use connect_bidi_web.Wire.{flag_envelope_headers, flag_envelope_data}
use connect_bidi_web.Bidi.Writing.{Writer}
use connect_bidi_web.ClientCall.{Outcome, write_head, write_messages, read_headers, iterate}
use connect_bidi_web.ClientCall.Session.{read_response_body}
use connect_bidi_web.WebSocketMux
use connect_bidi_web.WebSocketMux.{
  WebSocketMux, Event, construct, dial, open_stream, write_chunk, half_close, close_stream, run,
}
use connect_bidi_web.WebTransport.Transport.{
  normalize_timeout, or_else, serialize_all, StreamResponse,
}

pub record ConnectWebSocketTransportOptions {Headers E : Type 0} (A : ClientApi Headers E)
    : Type 0 where
  pub base_url : String
  pub use_binary_format : Option Bool
  pub interceptors : List A.Interceptor
  pub default_timeout_ms : Option A.Number
  pub connection_per_stream : Option Bool

-- The variables of the closure, and the connections made for one stream each.
pub record WebSocketTransport : Type 0 where
  pub ws_url : String
  pub connection_per_stream : Bool
  pub shared_mux : WebSocketMux
  pub own_muxes : List WebSocketMux

-- `url.protocol = …; url.toString()`
set_scheme : (U : UrlApi) → U.Url → String
set_scheme U url =
    U.to_text (U.set_protocol url (if str_eq (U.protocol url) "https:" then "wss:" else "ws:"))

module _ {E : Type 0} (U : UrlApi) where
  -- The URL of the socket.
  unfoldable pub socket_url : String → Result E String
  unfolding set_scheme
  socket_url base_url = elim (U.parse "/websocket" (some base_url)) [
    | none ↦ throws type_error
    | some url ↦ ok (set_scheme U url)
  ]

  unfoldable pub create_connect_web_socket_transport :
      {Headers : Type 0} {A : ClientApi Headers E}
      → ConnectWebSocketTransportOptions A
      → Result E WebSocketTransport
  create_connect_web_socket_transport options = do
    ws_url ← socket_url options.base_url
    ok (record {
      ws_url = ws_url;
      connection_per_stream = or_else options.connection_per_stream false;
      shared_mux = construct false;
      own_muxes = [];
    })

-- The mux of a call: the shared one, or one of its own.
pub data MuxRef : Type 0 where
  shared : MuxRef
  own : ℕ → MuxRef

unfoldable pub mux_at : WebSocketTransport → MuxRef → Option WebSocketMux
mux_at t shared = some t.shared_mux
mux_at t (own i) = get_elem? t.own_muxes i

unfoldable pub modify_mux :
    WebSocketTransport → MuxRef → (WebSocketMux → WebSocketMux) → WebSocketTransport
modify_mux t shared f = record t { shared_mux = f t.shared_mux }
modify_mux t (own i) f = record t { own_muxes = modify t.own_muxes i f }

-- The first lines of `next`: the mux, whose `openStream` dials where it has to.
unfoldable pub choose_mux : WebSocketTransport → WebSocketTransport × MuxRef
choose_mux t =
    if t.connection_per_stream
    then (record t { own_muxes = t.own_muxes ++ construct true ∷ [] }, own (length t.own_muxes))
    else (t, shared)

unfoldable pub start_call : WebSocketTransport → WebSocketTransport × MuxRef
start_call t = let (t', mux) = choose_mux t in (modify_mux t' mux (λ m. (dial m).0), mux)

-- `sharedMux.close()`
unfoldable pub close : (ℕ → List ℕ → List ℕ) → ℕ → WebSocketTransport → WebSocketTransport
close encode_envelope end_stream_flag t = record t {
  shared_mux = WebSocketMux.close encode_envelope end_stream_flag t.shared_mux;
}
