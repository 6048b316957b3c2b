-- ===== src/DemoWorker.antt =====
-- demo/worker/src/worker.ts: the Eliza service, and the routes of the worker.
pub mod Routes
use connect_bidi_web.Common.{
  ℕ, String, Bool, true, false, Option, none, some, List, [], ◌∷◌, if◌then◌else◌,
}
use Prim.Native.String
use text.Mathlib.Text.{◌==◌ as str_eq}
use connect_bidi_web.Common.Props
use connect_bidi_web.Web.{Thrown, type_error, Result, ok, throws, ◌>>=◌, HeadersApi, UrlApi}
use connect_bidi_web.Connect.{Source, done, fails, next, Handler}
use connect_bidi_web.CloudflareHandler.{
  FetchRequest, FetchResponse, CreateBidiWebSocketHandlerOptions, Connection, handle_upgrade,
}

-- `elizaImpl.say`, from sentence to sentence.
abbrev pub say : String → String
say sentence = String.◌++◌ "Workers Eliza says: " sentence

-- `elizaImpl.converse`
unfoldable pub converse : {E : Type 0} → Source E String → Source E String
converse done = done
converse (fails e) = fails e
converse (next sentence reqs) = next (String.◌++◌ "Workers Eliza says: " sentence) (converse reqs)

-- `elizaImpl.introduce`
abbrev pub introduce : {E : Type 0} → String → Source E String
introduce name = next (String.◌++◌ "Hi " (String.◌++◌ name ", I'm Eliza on Cloudflare Workers!")) (
    next
      (String.◌++◌ "Unary and server-streaming RPCs run over plain Connect HTTP; "
        "bidi streams run over WebSocket.")
      (next "How can I help you today?" done))

abbrev pub cors_headers : List (String × String)
cors_headers =
    ("access-control-allow-origin", "*")
    ∷ ("access-control-allow-headers", "*")
    ∷ ("access-control-allow-methods", "*")
    ∷ []

-- Idle connections end after a minute.
abbrev pub worker_options : {Context : Type 0} → CreateBidiWebSocketHandlerOptions Context
worker_options = record { context_values = none; idle_timeout_ms = some 60000; has_on_error = true }

module _ (H : HeadersApi) (U : UrlApi) {E : Type 0} (to_lower_case : String → String)
    -- The encoded JSON text of `capabilities`
    (capabilities : List ℕ)
    -- `createFetchHandler(handler, { httpVersion: "2" })`
    (create_fetch_handler : Handler E H.Headers
      → FetchRequest H.Headers
      → Result E (FetchResponse H.Headers)) where
  open H use {Headers, empty, set}

  abbrev pub FetchHandler : Type 0
  FetchHandler = FetchRequest Headers → Result E (FetchResponse Headers)

  -- `rpcHandlers`
  unfoldable pub rpc_handlers :
      List (String × FetchHandler) → List (Handler E Headers) → List (String × FetchHandler)
  rpc_handlers table [] = table
  rpc_handlers table (h ∷ handlers) =
      rpc_handlers (Props.put table h.request_path (create_fetch_handler h)) handlers

  unfoldable pub set_all : Headers → List (String × String) → Headers
  set_all headers [] = headers
  set_all headers ((key, value) ∷ entries) = set_all (set headers key value) entries

  unfoldable pub with_cors : FetchResponse Headers → FetchResponse Headers
  with_cors res = record {
    status = res.status;
    headers = set_all res.headers cors_headers;
    body = res.body;
    has_web_socket = false;
    status_text = res.status_text;
  }

  -- `new Response(body, { status, headers })`
  abbrev response : ℕ → Headers → Option (List ℕ) → FetchResponse Headers
  response status headers body = record {
    status = status;
    headers = headers;
    body = body;
    has_web_socket = false;
    status_text = "";
  }

  -- The call of the handler that the table has for a path.
  unfoldable pub call_rpc :
      FetchRequest Headers → Option FetchHandler → List ℕ → Result E (FetchResponse Headers)
  call_rpc request none not_found = ok (response 404 empty (some not_found))
  call_rpc request (some rpc_handler) not_found = rpc_handler request >>= λ res. ok (with_cors res)

  -- `fetch` after the upgrade and the preflight, by the path.
  unfoldable pub route :
      List (Handler E Headers)
      → List ℕ
      → FetchRequest Headers
      → String
      → Result E (FetchResponse Headers)
  route handlers not_found request pathname =
      if str_eq pathname "/capabilities.json"
      then ok (
          with_cors
            (response 200 (set empty "content-type" "application/json") (some capabilities)))
      else call_rpc request (Props.get (rpc_handlers [] handlers) pathname) not_found

  answer_http :
      List (Handler E Headers) → List ℕ → FetchRequest Headers → Result E (FetchResponse Headers)
  answer_http handlers not_found request =
      if str_eq request.method "OPTIONS"
      then ok (response 204 (set_all empty cors_headers) none)
      else elim (U.parse request.url none) [
        | none ↦ throws type_error
        | some url ↦ route handlers not_found request (U.pathname url)
      ]

  module _ {Context : Type 0} where
    fetch_rest :
        List (Handler E Headers)
        → List ℕ
        → FetchRequest Headers
        → Option (FetchResponse Headers) × List (Connection E Headers Context)
        → Result E (FetchResponse Headers) × List (Connection E Headers Context)
    fetch_rest handlers not_found request (none, served) =
        (answer_http handlers not_found request, served)
    fetch_rest handlers not_found request (some upgraded, served) = (ok upgraded, served)

    -- `fetch`, with the connections that it leaves served. `not_found` is the encoded text "not found".
    unfoldable pub fetch :
        List (Handler E Headers)
        → List ℕ
        → FetchRequest Headers
        → Result E (FetchResponse Headers) × List (Connection E Headers Context)
    unfolding fetch_rest answer_http
    fetch handlers not_found request =
        fetch_rest handlers not_found request
          (handle_upgrade H to_lower_case handlers worker_options request)
