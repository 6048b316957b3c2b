-- ===== src/Web.antt =====
-- Parts of the web platform that the program calls and this development takes as parameters: the
-- `Headers` class, and `JSON` with `TextEncoder` and `TextDecoder`.
use connect_bidi_web.Common.{ℕ, ◌≡◌, refl, ◌⊎◌, inl, inr, String, Bool, Option, List, [], ◌∷◌}

-- What JavaScript code throws: a `ConnectError`, or an exception of the platform or of other code.
pub data Thrown {ℓ} (E : Type ℓ) : Type ℓ where
  connect : E → Thrown E
  type_error syntax_error write_failed : Thrown E
  other : ℕ → Thrown E

pub data Result {ℓ κ} (E : Type ℓ) (A : Type κ) : Type (ℓ ⊔ κ) where
  ok : A → Result E A
  throws : Thrown E → Result E A

infixl 5 ◌>>=◌
abbrev pub ◌>>=◌ {ℓ κ ι} :
    {E : Type ℓ} {A : Type κ} {B : Type ι} → Result E A → (A → Result E B) → Result E B
ok a >>= f = f a
throws e >>= f = throws e

pub Result-cases {ℓ κ} :
    {E : Type ℓ} {A : Type κ} (r : Result E A)
    → ((e : Thrown E) × (r ≡ throws e)) ⊎ ((a : A) × (r ≡ ok a))
Result-cases (throws e) = inl (e, refl)
Result-cases (ok a) = inr (a, refl)

-- A JSON value. A number is kept as its text: the program computes with none.
mutual
  pub data Json : Type 0 where
    null : Json
    boolean : Bool → Json
    number : String → Json
    string : String → Json
    array : Items → Json
    object : Fields → Json

  pub data Items : Type 0 where
    nil : Items
    cons : Json → Items → Items

  pub data Fields : Type 0 where
    end : Fields
    field : String → Json → Fields → Fields

unfoldable pub items : Items → List Json
items nil = []
items (cons j js) = j ∷ items js

unfoldable pub fields : Fields → List (String × Json)
fields end = []
fields (field k j fs) = (k, j) ∷ fields fs

-- The JSON array of some texts.
unfoldable pub texts : List String → Items
texts [] = nil
texts (s ∷ ss) = cons (string s) (texts ss)

-- The JSON object whose properties are lists of texts.
unfoldable pub text_lists : List (String × List String) → Fields
unfolding texts
text_lists [] = end
text_lists ((k, ss) ∷ m) = field k (array (texts ss)) (text_lists m)

-- `Headers`: case-insensitive names, given to `forEach` in lower case, sorted and, but for
-- `set-cookie`, once each.
pub record HeadersApi : Type 1 where
  pub Headers : Type 0
  -- `new Headers()`
  pub empty : Headers
  pub get : Headers → String → Option String
  pub set : Headers → String → String → Headers
  pub delete : Headers → String → Headers
  -- `none` is the TypeError on a name or value that is not allowed.
  pub append : Headers → String → String → Option Headers
  -- The calls that `forEach` makes, as pairs of name and value.
  pub entries : Headers → List (String × String)

-- `encoder.encode(JSON.stringify({ metadata }))` and `JSON.parse(decoder.decode(payload))`, where
-- `none` is the SyntaxError; `Object.entries` of a JSON value, where `none` is the TypeError on null.
pub record JsonApi : Type 0 where
  pub stringify : List (String × List String) → List ℕ
  pub parse : List ℕ → Option Json
  pub object_entries : Json → Option (List (String × Json))
  -- `${value}`
  pub to_text : Json → String

-- `URL`. The first argument of `parse` is resolved against the second, if there is one; `none` is the
-- TypeError on an invalid URL.
pub record UrlApi : Type 1 where
  pub Url : Type 0
  pub parse : String → Option String → Option Url
  pub protocol : Url → String
  pub set_protocol : Url → String → Url
  pub pathname : Url → String
  pub to_text : Url → String
