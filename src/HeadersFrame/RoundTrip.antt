-- ===== src/HeadersFrame/RoundTrip.antt =====
-- What `decodeHeadersFrame` makes of what `encodeHeadersFrame` wrote.
use connect_bidi_web.Common.{
  ℕ, String, ◌≡◌, refl, ◌∙◌, sym, ap, inl, inr, false, Option, none, some, List, [], ◌∷◌, ◌++◌,
  append_assoc, append-nil, All, arith, eq_iff, Bool-cases, Option-cases,
}
use mathlib.Core.Bool.{false≢true}
use mathlib.Core.Option.{some-injective}
use connect_bidi_web.Common.Props
use connect_bidi_web.Common.Props.{get-put}
use text.Mathlib.Text.{◌==◌ as str_eq, starts_with}
use connect_bidi_web.Web.{
  ok, Json, string, array, texts, items, object, field, end, fields, Fields, text_lists, HeadersApi,
  JsonApi,
}
use connect_bidi_web.HeadersFrame.{
  Metadata, inherited, push_to, push_header, collect, add_pseudo, encode_with, encode_headers_frame,
  decode_entries, decode_headers_frame, decode_metadata, append_values, append_value, set_pseudo,
}

-- Header names as `Headers` has them: no pseudo-header's, no property's that every object inherits,
-- and each once (the platform repeats `set-cookie` only).
abbrev pub IsPlain : List (String × String) → Type 0
IsPlain [] = Unit
IsPlain ((k, v) ∷ es) =
    (starts_with k ":" ≡ false)
    × (Props.contains inherited k ≡ false)
    × All (λ e. str_eq k e.0 ≡ false) es
    × IsPlain es

-- The metadata of plain headers.
abbrev pub singles : List (String × String) → Metadata
singles [] = []
singles ((k, v) ∷ es) = (k, v ∷ []) ∷ singles es

put-absent :
    (m : Metadata) (k : String) (w : List String)
    → Props.get m k ≡ none
    → Props.put m k w ≡ m ++ (k, w) ∷ []
unfolding Props.get Props.put
put-absent [] k w g = refl
put-absent ((j, u) ∷ m) k w g = ground (arith, put-absent m k w)

get-append :
    (m : Metadata) (j k : String) (w : List String)
    → str_eq j k ≡ false
    → Props.get m k ≡ none
    → Props.get (m ++ (j, w) ∷ []) k ≡ none
unfolding Props.get
get-append [] j k w n g = rw n
get-append ((i, u) ∷ m) j k w n g = ground (arith, get-append m j k w)

Absent : Metadata → List (String × String) → Type 0
Absent m es = All (λ e. Props.get m e.0 ≡ none) es

Absent-append :
    (m : Metadata) (k : String) (w : List String) (es : List (String × String))
    → All (λ e. str_eq k e.0 ≡ false) es
    → Absent m es
    → Absent (m ++ (k, w) ∷ []) es
unfolding Absent
Absent-append m k w [] n a = tt
Absent-append m k w ((j, v) ∷ es) (n, ns) (a, as') =
    (get-append m k j w n a, Absent-append m k w es ns as')

push_header-new :
    (m : Metadata) (k v : String)
    → Props.get m k ≡ none
    → Props.contains inherited k ≡ false
    → push_header m k v ≡ some (m ++ (k, v ∷ []) ∷ [])
unfolding push_header
push_header-new m k v a q = rw (a, push_to) (rw q (ap some (put-absent m k (v ∷ []) a)))

collect-singles :
    (m : Metadata) (es : List (String × String))
    → IsPlain es
    → Absent m es
    → collect m es ≡ some (m ++ singles es)
unfolding collect Absent
collect-singles m [] p a = ap some (sym (append-nil m))
collect-singles m ((k, v) ∷ es) (p, q, n, ps) (a, rest) =
    rw (push_header-new m k v a q, collect)
      (collect-singles (m ++ (k, v ∷ []) ∷ []) es ps (Absent-append m k (v ∷ []) es n rest)
        ∙ ap some (append_assoc m ((k, v ∷ []) ∷ []) (singles es)))

Absent-nil : (es : List (String × String)) → Absent [] es
unfolding Absent Props.get
Absent-nil [] = tt
Absent-nil (e ∷ es) = (refl, Absent-nil es)

-- The headers argument `pseudo` of the callers: the path, or none.
abbrev pub path_pseudo : Option String → List (String × String)
path_pseudo none = []
path_pseudo (some path) = (":path", path) ∷ []

abbrev pub path_json : Option String → List (String × Json)
path_json none = []
path_json (some path) = (":path", string path) ∷ []

-- The metadata object that is sent for some entries and a path, and its properties.
abbrev pub sent_metadata : List (String × String) → Option String → Metadata
sent_metadata es path = singles es ++ singles (path_pseudo path)

abbrev pub sent_fields : List (String × String) → Option String → Fields
sent_fields es path = text_lists (sent_metadata es path)

path-absent : (es : List (String × String)) → IsPlain es → Props.get (singles es) ":path" ≡ none
unfolding Props.get
path-absent [] p = refl
path-absent ((k, v) ∷ es) (p, q, n, ps) = elim (Bool-cases (str_eq k ":path")) [
  | inl same ↦ absurd (false≢true (sym p ∙ ap (λ t. starts_with t ":") ((eq_iff k ":path").0 same)))
  | inr other ↦ rw other (path-absent es ps)
]

add_pseudo-path :
    (es : List (String × String)) (path : Option String)
    → IsPlain es
    → add_pseudo (singles es) (path_pseudo path) ≡ singles es ++ singles (path_pseudo path)
unfolding add_pseudo Props.contains
add_pseudo-path es none p = sym (append-nil (singles es))
add_pseudo-path es (some path) p = put-absent (singles es) ":path" (path ∷ []) (path-absent es p)

fields-append :
    (m t : Metadata) → fields (text_lists (m ++ t)) ≡ fields (text_lists m) ++ fields (text_lists t)
unfolding fields text_lists
fields-append [] t = refl
fields-append ((k, w) ∷ m) t = ap (◌∷◌ (k, array (texts w))) (fields-append m t)

module _ (H : HeadersApi) where
  open H use {Headers, empty, append, entries}

  -- Appending some entries one after the other.
  abbrev pub append_all : Headers → List (String × String) → Option Headers
  append_all headers [] = some headers
  append_all headers ((k, v) ∷ es) = elim (append headers k v) [
    | none ↦ none
    | some headers' ↦ append_all headers' es
  ]

  module _ (J : JsonApi) {E : Type 0} where
    open J use {stringify, parse, object_entries}

    decode_entries-plain :
        (headers t : Headers) (pseudo : List (String × Json)) (es : List (String × String))
        (rest : List (String × Json))
        → IsPlain es
        → append_all headers es ≡ some t
        → decode_entries H J {E = E} headers pseudo (fields (text_lists (singles es)) ++ rest)
          ≡ decode_entries H J {E = E} t pseudo rest
    unfolding decode_entries fields text_lists append_values items
    decode_entries-plain headers t pseudo [] rest p e =
        ap (λ (h : Headers). decode_entries H J {E = E} h pseudo rest) (some-injective _ _ e)
    decode_entries-plain headers t pseudo ((k, v) ∷ es) rest (p, q, n, ps) e =
        elim (Option-cases (append headers k v)) [
          | inl refused ↦ let never : none ≡ some t = rw (refused, append_all) at e in cc never
          | inr (next, taken) ↦
              let later : append_all next es ≡ some t = rw (taken, append_all) at e in
              rw (p, decode_entries)
                (rw (taken, append_value) (decode_entries-plain next t pseudo es rest ps later))
        ]

    decode_path :
        (t : Headers) (path : Option String)
        → decode_entries H J {E = E} t [] (fields (text_lists (singles (path_pseudo path))))
          ≡ ok (t, path_json path)
    unfolding decode_entries fields text_lists set_pseudo items Props.put
    decode_path t none = refl
    decode_path t (some path) = refl

    decode_parsed :
        (payload : List ℕ) (metadata : Json) (es : List (String × Json))
        → parse payload ≡ some (object (field "metadata" metadata end))
        → object_entries metadata ≡ some es
        → decode_headers_frame H J {E = E} payload ≡ decode_entries H J {E = E} empty [] es
    unfolding decode_headers_frame fields Props.get
    decode_parsed payload metadata es p o = rw (p, decode_headers_frame) (rw (o, decode_metadata))

    -- Headers whose names are plain, sent with a path or without one, come back as they were, with
    -- the path as the one pseudo-header, where the platform reads back the JSON text that it wrote
    -- and rebuilds the headers from their entries.
    pub decode-encode_headers :
        (headers : Headers) (path : Option String)
        → IsPlain (entries headers)
        → append_all empty (entries headers) ≡ some headers
        → parse (stringify (sent_metadata (entries headers) path))
          ≡ some (object (field "metadata" (object (sent_fields (entries headers) path)) end))
        → object_entries (object (sent_fields (entries headers) path))
          ≡ some (fields (sent_fields (entries headers) path))
        → (payload : List ℕ) × (encode_headers_frame H J {E = E} headers (path_pseudo path)
            ≡ ok payload)
          × (decode_headers_frame H J {E = E} payload ≡ ok (headers, path_json path))
    unfolding encode_headers_frame decode_headers_frame
    decode-encode_headers headers path plain again parsed listed = (
      stringify (singles (entries headers) ++ singles (path_pseudo path)),
      ap (encode_with H J (path_pseudo path))
            (collect-singles [] (entries headers) plain (Absent-nil (entries headers)))
          ∙ ap (λ (m : Metadata). ok (stringify m)) (add_pseudo-path (entries headers) path plain),
      decode_parsed (stringify m) (object (text_lists m)) (fields (text_lists m)) parsed listed
          ∙ ap (decode_entries H J empty []) (fields-append (singles (entries headers)) pseudo)
          ∙ decode_entries-plain empty headers [] (entries headers) (fields (text_lists pseudo))
              plain again
          ∙ decode_path headers path,
    )
      where
        pseudo : Metadata
        pseudo = singles (path_pseudo path)

        m : Metadata
        m = singles (entries headers) ++ pseudo
