-- ===== src/DemoTransport.antt =====
-- demo/web/src/demo/transport.ts and demo/web/src/demo/webtransport-support.ts: which transports the
-- demo uses, and the session of its WebTransport.
pub mod Sharing
use connect_bidi_web.Common.{
  ℕ, String, Bool, true, false, not, Option, none, some, List, [], ◌∷◌, ◌++◌, length, get_elem?,
  modify, ◌==◌, if◌then◌else◌,
}
use Prim.Native.String
use text.Mathlib.Text.{◌==◌ as str_eq}
use connect_bidi_web.Common.Props
use connect_bidi_web.Web.{
  type_error, Result, ok, throws, Json, boolean, object, array, fields, UrlApi,
}
use connect_bidi_web.Transport.{CallTypes, AnyTransport, create_composite_transport}

pub data StreamingTransportChoice : Type 0 where
  webtransport websocket : StreamingTransportChoice

pub record DemoTransport (T : CallTypes) : Type 1 where
  pub transport : AnyTransport T
  -- Whether the description is that of QUIC streams, of one connection per stream, or of one shared.
  pub description : String

-- What `createDemoTransport` throws, by its text, beside the TypeError of an invalid URL.
pub data Refusal : Type 0 where
  not_supported invalid_url : Refusal
  not_https : String → Refusal

pub data Created (T : CallTypes) : Type 1 where
  created : DemoTransport T → Created T
  refused : Refusal → Created T

module _ (T : CallTypes) (U : UrlApi)
    -- `createConnectTransport`, `createConnectWebTransportTransport` and
    -- `createConnectWebSocketTransport` with their options
    (connect_transport : String → AnyTransport T)
    (web_transport_transport : String → AnyTransport T)
    (web_socket_transport : String → Bool → AnyTransport T) where
  over_web_transport : Bool → String → Option U.Url → Created T
  over_web_transport false server_url url = refused not_supported
  over_web_transport true server_url none = refused invalid_url
  over_web_transport true server_url (some url) =
      if not (str_eq (U.protocol url) "https:")
      then refused (not_https server_url)
      else created (record {
        transport =
            create_composite_transport T (connect_transport server_url)
              (web_transport_transport server_url);
        description =
            String.◌++◌ "Each lane below opens an independent bidirectional QUIC stream, "
              "multiplexed within one WebTransport session over HTTP/3.";
      })

  -- `supported` is `isWebTransportSupported()`; `options.connectionPerStream` may be missing.
  unfoldable pub create_demo_transport :
      Bool → StreamingTransportChoice → String → Option Bool → Created T
  unfolding over_web_transport
  create_demo_transport supported webtransport server_url connection_per_stream =
      over_web_transport supported server_url (U.parse server_url none)
  create_demo_transport supported websocket server_url connection_per_stream =
      let per_stream : Bool = elim connection_per_stream [ none ↦ false | some b ↦ b ] in
      created (record {
        transport =
            create_composite_transport T (connect_transport server_url)
              (web_socket_transport server_url per_stream);
        description =
            if per_stream
            then String.◌++◌ "Each lane below dials its own WebSocket connection " (
                String.◌++◌ "(connectionPerStream): fully isolated, no head-of-line "
                  "blocking, one handshake per stream.")
            else String.◌++◌ "Each lane below is an independent stream, multiplexed onto one "
                "shared WebSocket connection by the stream ID on every frame.";
      })

-- A session: it works, or it has closed, and then its `closed` has settled and `forget` has run.
pub data SessionState : Type 0 where
  working ended noticed : SessionState

-- The variable `session`, and every session ever dialed.
pub record Sessions : Type 0 where
  pub dialed : List SessionState
  pub session : Option ℕ

abbrev pub no_session : Sessions
no_session = record { dialed = []; session = none }

dial_in : Sessions → Option ℕ → Sessions × ℕ
dial_in s (some k) = (s, k)
dial_in s none = (
  record { dialed = s.dialed ++ working ∷ []; session = some (length s.dialed) },
  length s.dialed,
)

-- `dialSession`: the session of an RPC.
unfoldable pub dial_session : Sessions → Sessions × ℕ
unfolding dial_in
dial_session s = dial_in s s.session

forget_in : Option ℕ → ℕ → Option ℕ
forget_in none k = none
forget_in (some j) k = if j == k then none else some j

-- Session `k` dies; `session` keeps it until `forget` runs.
abbrev pub end_session : SessionState → SessionState
end_session working = ended
end_session state = state

unfoldable pub session_ends : Sessions → ℕ → Sessions
session_ends s k = record s { dialed = modify s.dialed k end_session }

-- `forget` of session `k`, once `closed` of the session has settled, either way.
unfoldable pub forget : Sessions → ℕ → Sessions
unfolding forget_in
forget s k = record {
  dialed = modify s.dialed k (λ state. noticed);
  session = forget_in s.session k;
}

-- RPCs start, sessions die, and their `forget` runs.
pub data Event : Type 0 where
  rpc_starts : Event
  ends forgets : ℕ → Event

unfoldable pub step : Sessions → Event → Sessions
step s rpc_starts = (dial_session s).0
step s (ends k) = session_ends s k
step s (forgets k) = forget s k

unfoldable pub run : Sessions → List Event → Sessions
run s [] = s
run s (e ∷ es) = run (step s e) es

-- What the fetch of "/capabilities.json" gives: `fetch` or `res.json()` rejects, the status is not in
-- the range of success, or a JSON value.
pub data Capabilities : Type 0 where
  unreachable not_ok : Capabilities
  answered : Json → Capabilities

is_not_false : Option Json → Bool
is_not_false (some (boolean false)) = false
is_not_false _ = true

-- `probeServerWebTransport`
unfoldable pub probe_server_web_transport : Capabilities → Bool
unfolding is_not_false
probe_server_web_transport unreachable = true
probe_server_web_transport not_ok = true
probe_server_web_transport (answered (object fs)) =
    is_not_false (Props.get (fields fs) "webtransport")
probe_server_web_transport (answered _) = true
