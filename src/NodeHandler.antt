-- ===== src/NodeHandler.antt =====
-- ts/packages/node/src/create-bidi-websocket-handler.ts: the upgrade events of a Node HTTP server and
-- the connections that a handler serves.
pub mod Upgrades
use connect_bidi_web.Common.{
  ℕ, String, Bool, true, false, not, Option, none, some, List, [], ◌∷◌, ◌++◌, if◌then◌else◌,
}
use text.Mathlib.Text.{◌==◌ as str_eq}
use connect_bidi_web.Web.{type_error, Result, ok, throws, ◌>>=◌, UrlApi}
use connect_bidi_web.Connect.{Handler}
use connect_bidi_web.Mux.{Server, started}
use connect_bidi_web.WebsocketDuplex
use connect_bidi_web.WebsocketDuplex.{Duplex}

abbrev pub default_bidi_web_socket_path : String
default_bidi_web_socket_path = "/websocket"

-- `ConnectRouter | readonly UniversalHandler[]`, where a router is not an array.
pub data RouterOrHandlers (E Headers : Type 0) : Type 0 where
  router : List (Handler E Headers) → RouterOrHandlers E Headers
  plain : List (Handler E Headers) → RouterOrHandlers E Headers

-- `isConnectRouter(value) ? value.handlers : value`
abbrev pub handlers_in :
    {E Headers : Type 0} → RouterOrHandlers E Headers → List (Handler E Headers)
handlers_in (router handlers) = handlers
handlers_in (plain handlers) = handlers

pub record BidiWebSocketHandlerOptions (Context : Type 0) : Type 0 where
  pub path : Option String
  pub context_values : Option Context
  pub idle_timeout_ms : Option ℕ

-- A call of `handleMuxedBidiSocket`: its socket, its handlers and its options, and the state in which
-- it starts.
pub record Connection (E Headers Context : Type 0) : Type 0 where
  pub socket : Duplex
  pub handlers : List (Handler E Headers)
  pub context_values : Option Context
  pub idle_timeout_ms : Option ℕ
  pub server : Server

-- An `upgrade` event: `request.url`, and whether `wss.handleUpgrade` completes the handshake.
pub record UpgradeRequest : Type 0 where
  pub url : Option String
  pub completes : Bool

-- A `BidiWebSocketHandler`, as the listener that `upgrade` adds.
pub record Listener (E Headers Context : Type 0) : Type 0 where
  pub handlers : List (Handler E Headers)
  pub options : BidiWebSocketHandlerOptions Context
  pub path : String

abbrev pub or_default : {A : Type 0} → Option A → A → A
or_default none a = a
or_default (some b) a = b

unfoldable pub get_pathname : {E : Type 0} → UrlApi → Option String → Result E String
get_pathname U url = elim (U.parse (or_default url "/") (some "http://bidi.invalid")) [
  | none ↦ throws type_error
  | some u ↦ ok (U.pathname u)
]

module _ {E Headers Context : Type 0} where
  -- `createBidiWebSocketHandler(…).upgrade(server, path)`
  unfoldable pub upgrade :
      RouterOrHandlers E Headers
      → BidiWebSocketHandlerOptions Context
      → Option String
      → Listener E Headers Context
  upgrade router_or_handlers options path = record {
    handlers = handlers_in router_or_handlers;
    options = options;
    path = or_default path (or_default options.path default_bidi_web_socket_path);
  }

  unfoldable pub handle_connection : Listener E Headers Context → Connection E Headers Context
  handle_connection l = record {
    socket = WebsocketDuplex.started;
    handlers = l.handlers;
    context_values = l.options.context_values;
    idle_timeout_ms = l.options.idle_timeout_ms;
    server = started none;
  }

module _ {E Headers Context : Type 0} (U : UrlApi) where
  -- The listener of an upgrade event, on the connections that are served.
  unfoldable pub on_upgrade :
      List (Connection E Headers Context)
      → Listener E Headers Context
      → UpgradeRequest
      → Result E (List (Connection E Headers Context))
  on_upgrade served l request = elim (get_pathname U request.url) [
    | throws e ↦ throws e
    | ok request_path ↦ ok (
        if not (str_eq request_path l.path)
        then served
        else if request.completes
        then served ++ handle_connection l ∷ []
        else served)
  ]

  -- `server.emit("upgrade", …)`: all listeners in order, until one throws.
  unfoldable pub emit :
      List (Connection E Headers Context)
      → List (Listener E Headers Context)
      → UpgradeRequest
      → Result E (List (Connection E Headers Context))
  emit served [] request = ok served
  emit served (l ∷ listeners) request = elim (on_upgrade served l request) [
    | throws e ↦ throws e
    | ok served' ↦ emit served' listeners request
  ]
