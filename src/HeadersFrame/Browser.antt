-- ===== src/HeadersFrame/Browser.antt =====
-- ts/packages/web/src/headers-frame.ts: the browser package's own code for the JSON payload of a
-- headers envelope.
pub mod Mirror
use connect_bidi_web.Common.{
  ℕ, String, Bool, true, false, Option, none, some, List, [], ◌∷◌, ◌++◌, if◌then◌else◌,
}
use connect_bidi_web.Common.Props
use connect_bidi_web.Web.{
  type_error, syntax_error, Result, ok, throws, Json, null, string, array, object, items, fields,
  HeadersApi, JsonApi,
}
use connect_bidi_web.HeadersFrame.{inherited, Metadata}
use text.Mathlib.Text.{starts_with}

-- `metadata[key]`: undefined, an own list, or what every object inherits.
pub data Slot : Type 0 where
  undefined inherits : Slot
  own : List String → Slot

slot_in : Option (List String) → Bool → Slot
slot_in (some values) is_inherited = own values
slot_in none true = inherits
slot_in none false = undefined

unfoldable pub slot : Metadata → String → Slot
unfolding slot_in
slot m key = slot_in (Props.get m key) (Props.contains inherited key)

-- The callback of `headers.forEach`; `none` is the TypeError of calling `push` on no list.
push_value : Metadata → String → String → Slot → Option Metadata
push_value m key value undefined = some (Props.put m key ([] ++ value ∷ []))
push_value m key value inherits = none
push_value m key value (own values) = some (Props.put m key (values ++ value ∷ []))

unfoldable pub collect_headers : Metadata → List (String × String) → Option Metadata
unfolding push_value slot
collect_headers m [] = some m
collect_headers m ((key, value) ∷ entries) = elim (push_value m key value (slot m key)) [
  | none ↦ none
  | some m' ↦ collect_headers m' entries
]

-- `metadata[key] = [value]`. Writing `__proto__` makes no own property.
assign : Metadata → String → String → Metadata
assign m key value =
    if Props.contains ("__proto__" ∷ []) key then m else Props.put m key (value ∷ [])

unfoldable pub assign_pseudo : Metadata → List (String × String) → Metadata
unfolding assign
assign_pseudo m [] = m
assign_pseudo m ((key, value) ∷ pseudo) = assign_pseudo (assign m key value) pseudo

-- `Array.isArray(val) ? val : [val]`
abbrev pub values_of : Json → List Json
values_of (array js) = items js
values_of j = j ∷ []

-- `pseudo[key] = values[0]` where there is a value
unfoldable pub keep_pseudo : List (String × Json) → String → List Json → List (String × Json)
keep_pseudo pseudo key [] = pseudo
keep_pseudo pseudo key (j ∷ js) = Props.put pseudo key j

module _ (H : HeadersApi) (J : JsonApi) {E : Type 0} where
  open H use {Headers, empty, append, entries}
  open J use {stringify, parse, object_entries}

  -- `pseudo` is empty where the argument is undefined.
  unfoldable pub encode_headers_frame : Headers → List (String × String) → Result E (List ℕ)
  encode_headers_frame headers pseudo = elim (collect_headers [] (entries headers)) [
    | none ↦ throws type_error
    | some metadata ↦ ok (stringify (assign_pseudo metadata pseudo))
  ]

  -- The loop over the values of one name: only the texts are appended.
  unfoldable pub append_texts : Headers → String → List Json → Result E Headers
  append_texts headers key [] = ok headers
  append_texts headers key (string v ∷ vs) = elim (append headers key v) [
    | none ↦ throws type_error
    | some headers' ↦ append_texts headers' key vs
  ]
  append_texts headers key (v ∷ vs) = append_texts headers key vs

  -- The loop over `Object.entries(message.metadata)`.
  unfoldable pub read_entries :
      Headers
      → List (String × Json)
      → List (String × Json)
      → Result E (Headers × List (String × Json))
  read_entries headers pseudo [] = ok (headers, pseudo)
  read_entries headers pseudo ((key, val) ∷ rest) = elim (starts_with key ":") [
    | true ↦ read_entries headers (keep_pseudo pseudo key (values_of val)) rest
    | false ↦ elim (append_texts headers key (values_of val)) [
      | throws e ↦ throws e
      | ok headers' ↦ read_entries headers' pseudo rest
    ]
  ]

  unfoldable pub read_metadata : Option Json → Result E (Headers × List (String × Json))
  read_metadata none = ok (empty, [])
  read_metadata (some metadata) = elim (object_entries metadata) [
    | none ↦ throws type_error
    | some es ↦ read_entries empty [] es
  ]

  -- Reading `message.metadata` of null throws.
  unfoldable pub read_message : Json → Result E (Headers × List (String × Json))
  unfolding read_metadata
  read_message null = throws type_error
  read_message (object fs) = read_metadata (Props.get (fields fs) "metadata")
  read_message _ = read_metadata none

  -- The headers and the pseudo-headers.
  unfoldable pub decode_headers_frame : List ℕ → Result E (Headers × List (String × Json))
  unfolding read_message
  decode_headers_frame payload = elim (parse payload) [
    | none ↦ throws syntax_error
    | some message ↦ read_message message
  ]
