-- ===== src/Connect.antt =====
-- What the program calls of `@connectrpc/connect`, taken as parameters, with the shapes of the
-- values that pass between that package and the program.
pub mod Client
use connect_bidi_web.Common.{ℕ, String, Bool, Option, List}
use connect_bidi_web.Platform.{Code}
use connect_bidi_web.Web.{Thrown, Result}

-- An `AsyncIterable`, a `ReadableStream` or a reader, as its consumer sees it: the items, and then
-- its end or the exception that a read throws.
pub data Source {ℓ κ} (E : Type ℓ) (A : Type κ) : Type (ℓ ⊔ κ) where
  done : Source E A
  fails : Thrown E → Source E A
  next : A → Source E A → Source E A

pub data MethodKind : Type 0 where
  unary client_streaming server_streaming bidi_streaming : MethodKind

-- `EnvelopedMessage`
pub record EnvelopedMessage : Type 0 where
  pub flags : ℕ
  pub content : List ℕ

-- What `parseContentType` returns where it is not undefined.
pub record ContentType : Type 0 where
  pub stream : Bool
  pub binary : Bool

-- `validateResponse`, where it returns: `isUnaryError`, and `unaryError` where that is set.
pub data Validated (E : Type 0) : Type 0 where
  unary_error : E → Validated E
  not_unary_error : Validated E

-- `UniversalServerRequest`. Its `method` is always "POST".
pub record ServerRequest (E Headers : Type 0) : Type 0 where
  pub http_version : String
  pub method : String
  pub url : String
  pub header : Headers
  pub body : Source E (List ℕ)
  -- Whether its `signal` is aborted when the handler is called.
  pub aborted : Bool

-- `UniversalServerResponse`
pub record ServerResponse (E Headers : Type 0) : Type 0 where
  pub status : ℕ
  pub header : Option Headers
  pub body : Option (Source E (List ℕ))

-- `UniversalHandler`
pub record Handler (E Headers : Type 0) : Type 0 where
  pub request_path : String
  pub method_kind : MethodKind
  pub call : ServerRequest E Headers → Result E (ServerResponse E Headers)

-- The functions and constants of `@connectrpc/connect` over a type of headers.
pub record ConnectApi (Headers : Type 0) : Type 1 where
  pub Error : Type 0
  -- `new ConnectError(message, code)`
  pub connect_error : String → Code → Error
  -- `ConnectError.from(e, Code.Internal)`
  pub error_from : Thrown Error → Error
  pub encode_envelope : ℕ → List ℕ → List ℕ
  pub compressed_flag : ℕ
  pub end_stream_flag : ℕ
  -- `endStreamSerialization.serialize({ metadata, error })`
  pub serialize_end_stream : Headers → Option Error → List ℕ
  pub parse_content_type : Option String → Option ContentType
  pub content_type_unary_json : String
  pub content_type_unary_proto : String
  pub header_content_type : String
  pub header_stream_accept_encoding : String
  pub header_stream_encoding : String
  pub header_unary_accept_encoding : String
  pub header_unary_encoding : String
  -- Header and trailer.
  pub trailer_demux : Headers → Headers × Headers
  pub validate_response : MethodKind → ℕ → Headers → Result Error (Validated Error)
  pub code_from_http_status : ℕ → Code
  pub error_from_json_bytes : List ℕ → Headers → Error → Result Error Error
