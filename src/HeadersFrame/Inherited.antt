-- ===== src/HeadersFrame/Inherited.antt =====
-- Header names that are also names of properties of `Object.prototype`.
use connect_bidi_web.Common.{
  String, ◌≡◌, refl, ◌∙◌, ap, inl, inr, Bool, true, false, Option, none, some, List, [], ◌∷◌, ◌++◌,
  eq_iff, Bool-cases, Option-cases,
}
use mathlib.Core.Path.{subst}
use mathlib.Core.Option.{some-injective}
use connect_bidi_web.Common.Props
use connect_bidi_web.Common.Props.{get-put}
use text.Mathlib.Text.{◌==◌ as str_eq}
use connect_bidi_web.Web.{throws, type_error, HeadersApi, JsonApi}
use connect_bidi_web.HeadersFrame.{
  Metadata, inherited, push_to, push_header, collect, encode_with, encode_headers_frame,
}

push_header-inherited :
    (m : Metadata) (k v : String)
    → Props.contains inherited k ≡ true
    → Props.get m k ≡ none
    → push_header m k v ≡ none
unfolding push_header
push_header-inherited m k v h g = rw (g, push_to) (rw h)

put-other :
    (m : Metadata) (j k : String) (w : List String)
    → str_eq j k ≡ false
    → Props.get m k ≡ none
    → Props.get (Props.put m j w) k ≡ none
put-other m j k w n g = get-put m j w k ∙ rw n g

push_to-other :
    (m t : Metadata) (j k v : String) (o : Option (List String)) (b : Bool)
    → str_eq j k ≡ false
    → Props.get m k ≡ none
    → push_to m j v o b ≡ some t
    → Props.get t k ≡ none
unfolding push_to
push_to-other m t j k v (some ws) b n g e =
    subst (λ u. Props.get u k ≡ none) (some-injective _ _ e) (put-other m j k _ n g)
push_to-other m t j k v none true n g e = cc
push_to-other m t j k v none false n g e =
    subst (λ u. Props.get u k ≡ none) (some-injective _ _ e) (put-other m j k _ n g)

collect-inherited :
    (m : Metadata) (front back : List (String × String)) (k v : String)
    → Props.contains inherited k ≡ true
    → Props.get m k ≡ none
    → collect m (front ++ (k, v) ∷ back) ≡ none
unfolding collect
collect-inherited m [] back k v h g = rw (push_header-inherited m k v h g, collect)
collect-inherited m ((j, w) ∷ front) back k v h g = elim (Bool-cases (str_eq j k)) [
  | inl same ↦ rw (
    push_header-inherited m j w (rw ((eq_iff j k).0 same) h) (rw ((eq_iff j k).0 same) g),
    collect,
  )
  | inr other ↦ elim (Option-cases (push_header m j w)) [
    | inl e ↦ rw (e, collect)
    | inr (t, e) ↦
        rw (e, collect)
          (collect-inherited t front back k v h
            (unfold push_header in push_to-other m t j k w _ _ other g e))
  ]
]

-- A header whose name every object inherits, such as `constructor`, makes `encodeHeadersFrame` throw
-- a TypeError, wherever it stands among the headers and whatever the pseudo-headers.
pub encode_headers_frame-inherited :
    (H : HeadersApi) (J : JsonApi) {E : Type 0} (headers : H.Headers)
    (pseudo : List (String × String)) (front back : List (String × String)) (k v : String)
    → H.entries headers ≡ front ++ (k, v) ∷ back
    → Props.contains inherited k ≡ true
    → encode_headers_frame H J {E = E} headers pseudo ≡ throws type_error
unfolding encode_headers_frame Props.get
encode_headers_frame-inherited H J headers pseudo front back k v e h =
    ap (encode_with H J pseudo) (ap (collect []) e ∙ collect-inherited [] front back k v h refl)
