-- ===== src/NodeHandler/Upgrades.antt =====
-- Which handler an upgrade request goes to.
use connect_bidi_web.Common.{
  String, ◌≡◌, refl, ◌∙◌, true, false, none, some, List, [], ◌∷◌, ◌++◌, All,
}
use text.Mathlib.Text.{◌==◌ as str_eq}
use connect_bidi_web.Web.{type_error, ok, throws, UrlApi}
use connect_bidi_web.NodeHandler.{
  Connection, UpgradeRequest, Listener, get_pathname, or_default, handle_connection, on_upgrade,
  emit,
}

module _ {E Headers Context : Type 0} (U : UrlApi) where
  abbrev pub Others : String → List (Listener E Headers Context) → Type 0
  Others path = All (λ l. str_eq path l.path ≡ false)

  emit-Others :
      (served : List (Connection E Headers Context)) (ls rest : List (Listener E Headers Context))
      (request : UpgradeRequest) (path : String)
      → get_pathname {E = E} U request.url ≡ ok path
      → Others path ls
      → emit U served (ls ++ rest) request ≡ emit U served rest request
  unfolding emit on_upgrade
  emit-Others served [] rest request path p o = refl
  emit-Others served (l ∷ ls) rest request path p (other, o) =
      rw (p, other, emit, on_upgrade) (emit-Others served ls rest request path p o)

  emit-none :
      (served : List (Connection E Headers Context)) (ls : List (Listener E Headers Context))
      (request : UpgradeRequest) (path : String)
      → get_pathname {E = E} U request.url ≡ ok path
      → Others path ls
      → emit U served ls request ≡ ok served
  unfolding emit on_upgrade
  emit-none served [] request path p o = refl
  emit-none served (l ∷ ls) request path p (other, o) =
      rw (p, other, emit, on_upgrade) (emit-none served ls request path p o)

  on_upgrade-path :
      (served : List (Connection E Headers Context)) (l : Listener E Headers Context)
      (request : UpgradeRequest) (path : String)
      → get_pathname {E = E} U request.url ≡ ok path
      → request.completes ≡ true
      → str_eq path l.path ≡ true
      → on_upgrade U served l request ≡ ok (served ++ handle_connection l ∷ [])
  unfolding on_upgrade
  on_upgrade-path served l request path p c here = rw (p, here, c, on_upgrade)

  emit-invalid :
      (served : List (Connection E Headers Context)) (l : Listener E Headers Context)
      (ls : List (Listener E Headers Context)) (request : UpgradeRequest)
      → U.parse (or_default request.url "/") (some "http://bidi.invalid") ≡ none
      → emit U served (l ∷ ls) request ≡ throws type_error
  unfolding emit on_upgrade get_pathname
  emit-invalid served l ls request p = rw (p, emit, on_upgrade, get_pathname)

  -- Of all handlers on one HTTP server the one that has the request's path serves it, if the handshake
  -- completes, and the others leave it; a path that no handler has leaves everything as it was; and a
  -- request whose URL is not valid throws a TypeError out of the first listener, whatever its path.
  pub emit-path :
      (served : List (Connection E Headers Context))
      (before after : List (Listener E Headers Context)) (l : Listener E Headers Context)
      (request invalid : UpgradeRequest) (path : String)
      → get_pathname {E = E} U request.url ≡ ok path
      → Others path before
      → Others path after
      → request.completes ≡ true
      → str_eq path l.path ≡ true
      → U.parse (or_default invalid.url "/") (some "http://bidi.invalid") ≡ none
      → (emit U served (before ++ l ∷ after) request ≡ ok (served ++ handle_connection l ∷ []))
        × (emit U served (before ++ after) request ≡ ok served)
        × (emit U served (l ∷ after) invalid ≡ throws type_error)
  unfolding emit
  emit-path served before after l request invalid path p b a c here bad = (
    emit-Others served before (l ∷ after) request path p b
        ∙ rw (on_upgrade-path served l request path p c here, emit)
            (emit-none (served ++ handle_connection l ∷ []) after request path p a),
    emit-Others served before after request path p b ∙ emit-none served after request path p a,
    emit-invalid served l after invalid bad,
  )
