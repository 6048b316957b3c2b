-- ===== src/DemoWorker/Routes.antt =====
-- What the worker answers.
use connect_bidi_web.Common.{ℕ, String, ◌≡◌, refl, ap, true, false, List, [], ◌∷◌, ◌++◌, map, All}
use text.Mathlib.Text.{◌==◌ as str_eq}
use connect_bidi_web.Common.Props
use connect_bidi_web.Web.{Result, HeadersApi, UrlApi}
use connect_bidi_web.Connect.{Source, next, Handler}
use connect_bidi_web.Bidi.Bodies.{prepend}
use connect_bidi_web.CloudflareHandler.{FetchRequest, FetchResponse, Connection}
use connect_bidi_web.DemoWorker.{say, converse, FetchHandler, rpc_handlers, fetch}

-- The conversation answers each sentence as the unary RPC does, in order, up to what stops it.
pub converse-prepend :
    {E : Type 0} (sentences : List String) (stop : Source E String)
    → converse (prepend sentences stop) ≡ prepend (map say sentences) (converse stop)
unfolding converse
converse-prepend [] stop = refl
converse-prepend (s ∷ sentences) stop = ap (next (say s)) (converse-prepend sentences stop)

-- The handler of a path is the last one with it.
pub data LastOf {E Headers : Type 0} (path : String)
    : List (Handler E Headers) → Handler E Headers → Type 0 where
  last :
      (before after : List (Handler E Headers)) (h : Handler E Headers)
      → str_eq h.request_path path ≡ true
      → All (λ g. str_eq g.request_path path ≡ false) after
      → LastOf path (before ++ h ∷ after) h

module _ (H : HeadersApi) (U : UrlApi) {E : Type 0} (to_lower_case : String → String)
    (capabilities : List ℕ)
    (create_fetch_handler : Handler E H.Headers
      → FetchRequest H.Headers
      → Result E (FetchResponse H.Headers)) where
  open H use {Headers, empty, get, set}

  abbrev table_of :
      List (String × FetchHandler H U to_lower_case capabilities create_fetch_handler)
      → List (Handler E Headers)
      → List (String × FetchHandler H U to_lower_case capabilities create_fetch_handler)
  table_of = rpc_handlers H U to_lower_case capabilities create_fetch_handler

  module _ {Context : Type 0} where
    abbrev pub fetch_of :
        List (Handler E Headers)
        → List ℕ
        → FetchRequest Headers
        → Result E (FetchResponse Headers) × List (Connection E Headers Context)
    fetch_of = fetch H U to_lower_case capabilities create_fetch_handler
