-- ===== src/Connect/Client.antt =====
-- What the client transports call of `@connectrpc/connect`, taken as parameters.
use connect_bidi_web.Common.{ℕ, String, Bool, Option, List}
use connect_bidi_web.Web.{Result}
use connect_bidi_web.Connect.{MethodKind}

-- `req` of `runUnaryCall` and `runStreamingCall`.
pub record Request (Headers Context Body : Type 0) : Type 0 where
  pub is_stream : Bool
  -- Always "POST".
  pub request_method : String
  pub url : String
  pub header : Headers
  pub context_values : Context
  pub message : Body

-- A method with its serializers, `Message` and `Answer` being its messages. The serializers of
-- `createClientMethodSerializers` take the choice of the binary format; the format's other options
-- are fixed.
pub record MethodApi (E : Type 0) : Type 1 where
  pub Message : Type 0
  pub Answer : Type 0
  pub type_name : String
  pub name : String
  pub kind : MethodKind
  pub serialize : Bool → Message → Result E (List ℕ)
  pub parse : Bool → List ℕ → Result E Answer

-- `Interceptor`, `AbortSignal`, `ContextValues` and `HeadersInit` are types of the other packages.
pub record ClientApi (Headers E : Type 0) : Type 1 where
  pub Interceptor : Type 0
  pub Signal : Type 0
  pub Context : Type 0
  pub Init : Type 0
  -- JavaScript numbers, fractions and NaN included, and the test `x <= 0`
  pub Number : Type 0
  pub is_at_most_zero : Number → Bool
  pub create_context_values : Context
  -- `createMethodUrl(baseUrl, method)` by the method's two names
  pub create_method_url : String → String → String → String
  -- `requestHeader(methodKind, useBinaryFormat, timeoutMs, header, setUserAgent)`
  pub request_header : MethodKind → Bool → Option Number → Option Init → Bool → Headers

-- The arguments of a call, but for the method.
pub record CallArguments {Headers E : Type 0} (A : ClientApi Headers E) (Body : Type 0)
    : Type 0 where
  pub signal : Option A.Signal
  pub timeout_ms : Option A.Number
  pub header : Option A.Init
  pub body : Body
  pub context_values : Option A.Context

-- The options that `runUnaryCall` and `runStreamingCall` take beside the request and `next`.
pub record RunOptions {Headers E : Type 0} (A : ClientApi Headers E) : Type 0 where
  pub interceptors : List A.Interceptor
  pub signal : Option A.Signal
  pub timeout_ms : Option A.Number
