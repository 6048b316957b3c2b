-- ===== src/HeadersFrame/Browser/Mirror.antt =====
-- The two copies of the headers frame code compared.
use connect_bidi_web.Common.{
  ℕ, String, ◌≡◌, refl, ap, ◌∙◌, Bool, true, false, Option, none, some, List, [], ◌∷◌, inl, inr,
  Option-cases, Bool-cases,
}
use connect_bidi_web.Common.Props
use connect_bidi_web.Web.{
  ok, ◌>>=◌, Result-cases, Json, null, boolean, number, string, array, object, fields, HeadersApi,
  JsonApi,
}
use connect_bidi_web.HeadersFrame
use connect_bidi_web.HeadersFrame.{inherited, Metadata}
use connect_bidi_web.HeadersFrame.Browser.{
  slot, slot_in, push_value, collect_headers, assign, assign_pseudo, values_of, keep_pseudo,
  encode_headers_frame, append_texts, read_entries, read_metadata, read_message,
  decode_headers_frame,
}
use text.Mathlib.Text.{starts_with}

push_value-push_to :
    (m : Metadata) (key value : String) (o : Option (List String)) (b : Bool)
    → push_value m key value (slot_in o b) ≡ HeadersFrame.push_to m key value o b
unfolding push_value slot_in HeadersFrame.push_to
push_value-push_to m key value (some values) b = refl
push_value-push_to m key value none true = refl
push_value-push_to m key value none false = refl

push_value-push_header :
    (m : Metadata) (key value : String)
    → push_value m key value (slot m key) ≡ HeadersFrame.push_header m key value
unfolding slot HeadersFrame.push_header
push_value-push_header m key value =
    push_value-push_to m key value (Props.get m key) (Props.contains inherited key)

collect_headers-collect :
    (m : Metadata) (entries : List (String × String))
    → collect_headers m entries ≡ HeadersFrame.collect m entries
unfolding collect_headers HeadersFrame.collect
collect_headers-collect m [] = refl
collect_headers-collect m ((key, value) ∷ entries) =
    elim (Option-cases (HeadersFrame.push_header m key value)) [
      | inl h ↦ rw (push_value-push_header m key value, h, collect_headers, HeadersFrame.collect)
      | inr (t, h) ↦
          rw (push_value-push_header m key value, h, collect_headers, HeadersFrame.collect)
            (collect_headers-collect t entries)
    ]

assign_pseudo-add_pseudo :
    (m : Metadata) (pseudo : List (String × String))
    → assign_pseudo m pseudo ≡ HeadersFrame.add_pseudo m pseudo
unfolding assign_pseudo assign HeadersFrame.add_pseudo
assign_pseudo-add_pseudo m [] = refl
assign_pseudo-add_pseudo m ((key, value) ∷ pseudo) =
    assign_pseudo-add_pseudo (assign m key value) pseudo

values_of-values_of : (j : Json) → values_of j ≡ HeadersFrame.values_of j
values_of-values_of null = refl
values_of-values_of (boolean b) = refl
values_of-values_of (number n) = refl
values_of-values_of (string s) = refl
values_of-values_of (array js) = refl
values_of-values_of (object fs) = refl

keep_pseudo-set_pseudo :
    (pseudo : List (String × Json)) (key : String) (js : List Json)
    → keep_pseudo pseudo key js ≡ HeadersFrame.set_pseudo pseudo key js
unfolding keep_pseudo HeadersFrame.set_pseudo
keep_pseudo-set_pseudo pseudo key [] = refl
keep_pseudo-set_pseudo pseudo key (j ∷ js) = refl

module _ (H : HeadersApi) (J : JsonApi) {E : Type 0} where
  open H use {Headers, empty, append, entries}
  open J use {stringify, parse, object_entries}

  append_texts-append_values :
      (headers : Headers) (key : String) (vs : List Json)
      → append_texts H J {E = E} headers key vs ≡ HeadersFrame.append_values H J headers key vs
  unfolding append_texts HeadersFrame.append_values HeadersFrame.append_value
  append_texts-append_values headers key [] = refl
  append_texts-append_values headers key (string v ∷ vs) =
      elim (Option-cases (append headers key v)) [
        | inl h ↦ rw (h, append_texts, HeadersFrame.append_value)
        | inr (t, h) ↦
            rw (h, append_texts, HeadersFrame.append_value) (append_texts-append_values t key vs)
      ]
  append_texts-append_values headers key (null ∷ vs) = append_texts-append_values headers key vs
  append_texts-append_values headers key (boolean b ∷ vs) =
      append_texts-append_values headers key vs
  append_texts-append_values headers key (number n ∷ vs) = append_texts-append_values headers key vs
  append_texts-append_values headers key (array js ∷ vs) = append_texts-append_values headers key vs
  append_texts-append_values headers key (object fs ∷ vs) =
      append_texts-append_values headers key vs

  read_entries-decode_entries :
      (headers : Headers) (pseudo : List (String × Json)) (es : List (String × Json))
      → read_entries H J {E = E} headers pseudo es
        ≡ HeadersFrame.decode_entries H J headers pseudo es
  unfolding read_entries HeadersFrame.decode_entries
  read_entries-decode_entries headers pseudo [] = refl
  read_entries-decode_entries headers pseudo ((key, val) ∷ rest) =
      elim (Bool-cases (starts_with key ":")) [
        | inl h ↦
            rw (h, read_entries, HeadersFrame.decode_entries)
              (read_entries-decode_entries headers (keep_pseudo pseudo key (values_of val)) rest
                ∙ ap (λ p. HeadersFrame.decode_entries H J headers p rest)
                    (keep_pseudo-set_pseudo pseudo key (values_of val)
                      ∙ ap (HeadersFrame.set_pseudo pseudo key) (values_of-values_of val)))
        | inr h ↦
            rw (h, read_entries, HeadersFrame.decode_entries)
              (elim (Result-cases
                (HeadersFrame.append_values H J {E = E} headers key (HeadersFrame.values_of val))) [
                  | inl (e, k) ↦
                      rw (same key val headers, k, read_entries, HeadersFrame.decode_entries)
                  | inr (t, k) ↦
                      rw (same key val headers, k, read_entries, HeadersFrame.decode_entries)
                        (read_entries-decode_entries t pseudo rest)
                ])
      ]
    where
      same :
          (key : String) (val : Json) (headers : Headers)
          → append_texts H J {E = E} headers key (values_of val)
            ≡ HeadersFrame.append_values H J headers key (HeadersFrame.values_of val)
      same key val headers =
          append_texts-append_values headers key (values_of val)
          ∙ ap (HeadersFrame.append_values H J headers key) (values_of-values_of val)

  read_metadata-decode_metadata :
      (o : Option Json) → read_metadata H J {E = E} o ≡ HeadersFrame.decode_metadata H J o
  unfolding read_metadata HeadersFrame.decode_metadata
  read_metadata-decode_metadata none = refl
  read_metadata-decode_metadata (some metadata) = elim (Option-cases (object_entries metadata)) [
    | inl h ↦ rw (h, read_metadata, HeadersFrame.decode_metadata)
    | inr (es, h) ↦
        rw (h, read_metadata, HeadersFrame.decode_metadata)
          (read_entries-decode_entries empty [] es)
  ]

  read_message-metadata_of :
      (j : Json)
      → read_message H J {E = E} j
        ≡ (HeadersFrame.metadata_of j >>= HeadersFrame.decode_metadata H J)
  unfolding read_message
  read_message-metadata_of null = refl
  read_message-metadata_of (boolean b) = read_metadata-decode_metadata none
  read_message-metadata_of (number n) = read_metadata-decode_metadata none
  read_message-metadata_of (string s) = read_metadata-decode_metadata none
  read_message-metadata_of (array js) = read_metadata-decode_metadata none
  read_message-metadata_of (object fs) =
      read_metadata-decode_metadata (Props.get (fields fs) "metadata")

  encode-mirror :
      (headers : Headers) (pseudo : List (String × String))
      → encode_headers_frame H J {E = E} headers pseudo
        ≡ HeadersFrame.encode_headers_frame H J headers pseudo
  unfolding encode_headers_frame HeadersFrame.encode_headers_frame HeadersFrame.encode_with
  encode-mirror headers pseudo = elim (Option-cases (HeadersFrame.collect [] (entries headers))) [
    | inl h ↦ rw (
      collect_headers-collect [] (entries headers),
      h,
      encode_headers_frame,
      HeadersFrame.encode_with,
    )
    | inr (m, h) ↦
        rw
          (
            collect_headers-collect [] (entries headers),
            h,
            encode_headers_frame,
            HeadersFrame.encode_with,
          )
          (ap (λ t. ok (stringify t)) (assign_pseudo-add_pseudo m pseudo))
  ]

  decode-mirror :
      (payload : List ℕ)
      → decode_headers_frame H J {E = E} payload ≡ HeadersFrame.decode_headers_frame H J payload
  unfolding decode_headers_frame HeadersFrame.decode_headers_frame
  decode-mirror payload = elim (Option-cases (parse payload)) [
    | inl h ↦ rw (h, decode_headers_frame, HeadersFrame.decode_headers_frame)
    | inr (message, h) ↦
        rw (h, decode_headers_frame, HeadersFrame.decode_headers_frame)
          (read_message-metadata_of message)
  ]

  -- The browser package's code for the headers frame and the core package's are the same functions,
  -- on every input, errors included.
  pub headers_frame-mirror :
      (headers : Headers) (pseudo : List (String × String)) (payload : List ℕ)
      → (encode_headers_frame H J {E = E} headers pseudo
          ≡ HeadersFrame.encode_headers_frame H J headers pseudo)
        × (decode_headers_frame H J {E = E} payload ≡ HeadersFrame.decode_headers_frame H J payload)
  headers_frame-mirror headers pseudo payload =
      (encode-mirror headers pseudo, decode-mirror payload)
