-- ===== src/CloudflareHandler.antt =====
-- ts/packages/cloudflare/src/bidi-websocket-handler.ts: the upgrade of a fetch request.
use connect_bidi_web.Common.{
  ℕ, String, Bool, true, false, Option, none, some, List, [], ◌∷◌, if◌then◌else◌,
}
use text.Mathlib.Text.{◌==◌ as str_eq}
use connect_bidi_web.Web.{Thrown, Result, ok, throws, HeadersApi}
use connect_bidi_web.Connect.{Handler}
use connect_bidi_web.Mux.{Server, started}
use connect_bidi_web.WebsocketLike.{Wrapped, wrapped}

-- `Request` and `Response` of the Fetch API, as far as the program uses them. A response may carry the
-- client's end of a socket pair.
pub record FetchRequest (Headers : Type 0) : Type 0 where
  pub method : String
  pub url : String
  pub headers : Headers

pub record FetchResponse (Headers : Type 0) : Type 0 where
  pub status : ℕ
  pub headers : Headers
  pub body : Option (List ℕ)
  pub has_web_socket : Bool
  pub status_text : String

-- `HandleMuxedBidiSocketOptions`, and whether `onError` is set.
pub record CreateBidiWebSocketHandlerOptions (Context : Type 0) : Type 0 where
  pub context_values : Option Context
  pub idle_timeout_ms : Option ℕ
  pub has_on_error : Bool

-- A call of `handleMuxedBidiSocket`: its socket, its handlers and its options, and the state in which
-- it starts.
pub record Connection (E Headers Context : Type 0) : Type 0 where
  pub socket : Wrapped
  pub handlers : List (Handler E Headers)
  pub options : CreateBidiWebSocketHandlerOptions Context
  pub server : Server

module _ (H : HeadersApi)  -- `toLowerCase`
    (to_lower_case : String → String) where
  open H use {Headers, empty, get}

  unfoldable pub is_web_socket : Option String → Bool
  is_web_socket none = false
  is_web_socket (some value) = str_eq (to_lower_case value) "websocket"

  unfoldable pub is_web_socket_upgrade : FetchRequest Headers → Bool
  unfolding is_web_socket
  is_web_socket_upgrade request = is_web_socket (get request.headers "upgrade")

  -- `new Response(null, { status: 101, webSocket: client })`
  abbrev pub switching_protocols : FetchResponse Headers
  switching_protocols = record {
    status = 101;
    headers = empty;
    body = none;
    has_web_socket = true;
    status_text = "";
  }

  -- `handleUpgrade`: the response, `none` for null, and the connections served.
  unfoldable pub handle_upgrade :
      {E Context : Type 0}
      → List (Handler E Headers)
      → CreateBidiWebSocketHandlerOptions Context
      → FetchRequest Headers
      → Option (FetchResponse Headers) × List (Connection E Headers Context)
  handle_upgrade handlers options request =
      if is_web_socket_upgrade request
      then (
        some switching_protocols,
        (record { socket = wrapped; handlers = handlers; options = options; server = started none })
            ∷ [],
      )
      else (none, [])

-- What `onError` is called with once the connection's promise settles.
unfoldable pub reported :
    {E Context : Type 0}
    → CreateBidiWebSocketHandlerOptions Context
    → Result E (Unit {0})
    → List (Thrown E)
reported options (ok u) = []
reported options (throws e) = if options.has_on_error then e ∷ [] else []
