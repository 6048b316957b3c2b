-- ===== src/Tests/Metadata.antt =====
-- Headers frames, with headers as lists of pairs and a JSON text of the words that occur.
use connect_bidi_web.Common.{
  ℕ, zero, suc, String, ◌≡◌, refl, Option, none, some, List, [], ◌∷◌, ◌++◌, if◌then◌else◌,
}
use text.Mathlib.Text.{◌==◌ as str_eq}
use connect_bidi_web.Common.Props
use connect_bidi_web.Web.{
  text_lists, texts, type_error, ok, throws, Json, null, string, array, object, nil, cons, Fields,
  end, field, fields, HeadersApi, JsonApi,
}
use connect_bidi_web.HeadersFrame.{encode_headers_frame, decode_headers_frame}
use connect_bidi_web.HeadersFrame.RoundTrip.{path_pseudo, path_json, decode-encode_headers}
use connect_bidi_web.HeadersFrame.Inherited.{encode_headers_frame-inherited}

abbrev words : List String
words = "content-type" ∷ "text/plain" ∷ "x-id" ∷ "7" ∷ ":path" ∷ "/a.B/C" ∷ []

abbrev index_in : List String → String → ℕ
index_in [] s = 0
index_in (w ∷ ws) s = let rest = index_in ws s in if str_eq w s then 0 else suc rest

abbrev word_in : List String → ℕ → String
word_in [] n = ""
word_in (w ∷ ws) zero = w
word_in (w ∷ ws) (suc n) = word_in ws n

-- A name and its first value are two numbers.
abbrev write_pairs : List (String × List String) → List ℕ
write_pairs [] = []
write_pairs ((k, []) ∷ m) = write_pairs m
write_pairs ((k, v ∷ vs) ∷ m) = index_in words k ∷ index_in words v ∷ write_pairs m

abbrev read_pairs : List ℕ → Fields
read_pairs (k ∷ v ∷ m) =
    field (word_in words k) (array (cons (string (word_in words v)) nil)) (read_pairs m)
read_pairs _ = end

abbrev own_entries : Json → Option (List (String × Json))
own_entries (object fs) = some (fields fs)
own_entries null = none
own_entries _ = some []

abbrev pub word_json : JsonApi
word_json = record {
  stringify = write_pairs;
  parse = λ bytes. some (object (field "metadata" (object (read_pairs bytes)) end));
  object_entries = own_entries;
  to_text = λ j. "";
}

abbrev lookup : List (String × String) → String → Option String
lookup [] k = none
lookup ((j, v) ∷ es) k = let rest = lookup es k in if str_eq j k then some v else rest

abbrev without : List (String × String) → String → List (String × String)
without [] k = []
without ((j, v) ∷ es) k = let rest = without es k in if str_eq j k then rest else (j, v) ∷ rest

abbrev pub pair_headers : HeadersApi
pair_headers = record {
  Headers = List (String × String);
  empty = [];
  get = lookup;
  set = λ es k v. without es k ++ (k, v) ∷ [];
  delete = without;
  append = λ es k v. some (es ++ (k, v) ∷ []);
  entries = λ es. es;
}

abbrev sent : List (String × String)
sent = ("content-type", "text/plain") ∷ ("x-id", "7") ∷ []

decode-encode_headers_example :
    (payload : List ℕ) × (encode_headers_frame pair_headers word_json {E = ℕ} sent
        (path_pseudo (some "/a.B/C"))
      ≡ ok payload)
    × (decode_headers_frame pair_headers word_json {E = ℕ} payload
        ≡ ok (sent, path_json (some "/a.B/C")))
unfolding fields text_lists texts Props.contains
decode-encode_headers_example =
    decode-encode_headers pair_headers word_json {E = ℕ} sent (some "/a.B/C")
      (refl, refl, (refl, tt), (refl, refl, tt, tt)) refl refl refl

encode_headers_frame-inherited_example :
    encode_headers_frame pair_headers word_json {E = ℕ}
      (("x-id", "7") ∷ ("constructor", "7") ∷ [])
      []
    ≡ throws type_error
unfolding Props.contains
encode_headers_frame-inherited_example =
    encode_headers_frame-inherited pair_headers word_json {E = ℕ}
      (("x-id", "7") ∷ ("constructor", "7") ∷ []) [] (("x-id", "7") ∷ []) [] "constructor" "7" refl
      refl
