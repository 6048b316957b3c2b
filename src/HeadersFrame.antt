-- ===== src/HeadersFrame.antt =====
-- ts/packages/core/src/headers-frame.ts: the JSON payload of a headers envelope. The browser
-- package's copy, ts/packages/web/src/headers-frame.ts, is in HeadersFrame.Browser.
pub mod RoundTrip
pub mod Inherited
pub mod Browser
use connect_bidi_web.Common.{
  ℕ, String, Bool, true, false, Option, none, some, List, [], ◌∷◌, ◌++◌, if◌then◌else◌,
}
use connect_bidi_web.Common.Props
use connect_bidi_web.Web.{
  Thrown, type_error, syntax_error, Result, ok, throws, ◌>>=◌, Json, null, string, array, object,
  items, fields, HeadersApi, JsonApi,
}
use text.Mathlib.Text.{starts_with}

-- The names that every object inherits from `Object.prototype`.
abbrev pub inherited : List String
inherited =
    "constructor" ∷ "__defineGetter__" ∷ "__defineSetter__" ∷ "hasOwnProperty" ∷ "__lookupGetter__"
    ∷ "__lookupSetter__" ∷ "isPrototypeOf" ∷ "propertyIsEnumerable" ∷ "toString" ∷ "valueOf"
    ∷ "__proto__" ∷ "toLocaleString" ∷ []

abbrev pub Metadata : Type 0
Metadata = List (String × List String)

-- `metadata[key].push(value)`, after `metadata[key] = []` where that is undefined. An inherited
-- property is neither undefined nor a list: `push` is not a function of it.
push_to : Metadata → String → String → Option (List String) → Bool → Option Metadata
push_to m key value (some values) is_inherited = some (Props.put m key (values ++ value ∷ []))
push_to m key value none true = none
push_to m key value none false = some (Props.put m key (value ∷ []))

unfoldable pub push_header : Metadata → String → String → Option Metadata
unfolding push_to
push_header m key value = push_to m key value (Props.get m key) (Props.contains inherited key)

-- The callback of `headers.forEach`, on all entries.
unfoldable pub collect : Metadata → List (String × String) → Option Metadata
collect m [] = some m
collect m ((key, value) ∷ entries) = elim (push_header m key value) [
  | none ↦ none
  | some m' ↦ collect m' entries
]

-- The loop over `Object.entries(pseudo)`. Writing `__proto__` makes no own property.
unfoldable pub add_pseudo : Metadata → List (String × String) → Metadata
add_pseudo m [] = m
add_pseudo m ((key, value) ∷ pseudo) =
    add_pseudo (if Props.contains ("__proto__" ∷ []) key then m else Props.put m key (value ∷ []))
      pseudo

-- The value of `message.metadata`, `none` for undefined; reading it of null throws.
abbrev pub metadata_of : {E : Type 0} → Json → Result E (Option Json)
metadata_of null = throws type_error
metadata_of (object fs) = ok (Props.get (fields fs) "metadata")
metadata_of _ = ok none

-- `Array.isArray(val) ? val : [val]`
abbrev pub values_of : Json → List Json
values_of (array js) = items js
values_of j = j ∷ []

-- `if (values.length > 0) pseudo[key] = values[0]`
unfoldable pub set_pseudo : List (String × Json) → String → List Json → List (String × Json)
set_pseudo pseudo key [] = pseudo
set_pseudo pseudo key (j ∷ js) = Props.put pseudo key j

module _ (H : HeadersApi) (J : JsonApi) {E : Type 0} where
  open H use {Headers, empty, append, entries}
  open J use {stringify, parse, object_entries}

  unfoldable pub encode_with : List (String × String) → Option Metadata → Result E (List ℕ)
  encode_with pseudo none = throws type_error
  encode_with pseudo (some m) = ok (stringify (add_pseudo m pseudo))

  -- `pseudo` is empty where the argument is undefined.
  unfoldable pub encode_headers_frame : Headers → List (String × String) → Result E (List ℕ)
  unfolding encode_with
  encode_headers_frame headers pseudo = encode_with pseudo (collect [] (entries headers))

  append_value : Headers → String → Json → Result E Headers
  append_value headers key (string v) = elim (append headers key v) [
    | none ↦ throws type_error
    | some headers' ↦ ok headers'
  ]
  append_value headers key _ = ok headers

  unfoldable pub append_values : Headers → String → List Json → Result E Headers
  unfolding append_value
  append_values headers key [] = ok headers
  append_values headers key (v ∷ vs) = do
    headers' ← append_value headers key v
    append_values headers' key vs

  -- The loop over `Object.entries(message.metadata)`.
  unfoldable pub decode_entries :
      Headers
      → List (String × Json)
      → List (String × Json)
      → Result E (Headers × List (String × Json))
  decode_entries headers pseudo [] = ok (headers, pseudo)
  decode_entries headers pseudo ((key, val) ∷ rest) = elim (starts_with key ":") [
    | true ↦ decode_entries headers (set_pseudo pseudo key (values_of val)) rest
    | false ↦ append_values headers key (values_of val) >>= λ headers'.
        decode_entries headers' pseudo rest
  ]

  unfoldable pub decode_metadata : Option Json → Result E (Headers × List (String × Json))
  decode_metadata none = ok (empty, [])
  decode_metadata (some metadata) = elim (object_entries metadata) [
    | none ↦ throws type_error
    | some es ↦ decode_entries empty [] es
  ]

  -- The headers and the pseudo-headers.
  unfoldable pub decode_headers_frame : List ℕ → Result E (Headers × List (String × Json))
  unfolding decode_metadata
  decode_headers_frame payload = elim (parse payload) [
    | none ↦ throws syntax_error
    | some message ↦ metadata_of message >>= decode_metadata
  ]
