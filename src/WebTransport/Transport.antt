-- ===== src/WebTransport/Transport.antt =====
-- `createConnectWebTransportTransport` of ts/packages/web/src/connect-webtransport-transport.ts.
pub mod Calls
use connect_bidi_web.Common.{
  ℕ, String, Bool, true, false, Option, none, some, List, [], ◌∷◌, if◌then◌else◌,
}
use Prim.Native.String
use connect_bidi_web.Web.{Thrown, Result, ok, throws, ◌>>=◌, HeadersApi, JsonApi}
use connect_bidi_web.Connect.{Source, done, fails, next, EnvelopedMessage, ConnectApi}
use connect_bidi_web.Connect.Client.{Request, MethodApi, ClientApi, CallArguments, RunOptions}
use connect_bidi_web.Wire.{flag_envelope_headers, flag_envelope_data}
use connect_bidi_web.ClientCall.{Outcome}
use connect_bidi_web.ClientCall.Session.{WebTransportSession, Call, run_web_transport_call}
use connect_bidi_web.WebTransport.{read_unary, parse_response_body}

-- A session, or a function that returns or resolves to one.
pub data SessionOption (E : Type 0) : Type 0 where
  session_value : WebTransportSession E → SessionOption E
  session_factory : Result E (WebTransportSession E) → SessionOption E

pub record ConnectWebTransportTransportOptions {Headers E : Type 0} (A : ClientApi Headers E)
    : Type 0 where
  pub base_url : String
  pub session : SessionOption E
  pub use_binary_format : Option Bool
  pub interceptors : List A.Interceptor
  pub default_timeout_ms : Option A.Number

-- The timeout of a call, by the default of the options.
unfoldable pub normalize_timeout :
    {Headers E : Type 0} (A : ClientApi Headers E)
    → Option A.Number
    → Option A.Number
    → Option A.Number
normalize_timeout A default_timeout_ms none = default_timeout_ms
normalize_timeout A default_timeout_ms (some timeout_ms) =
    if A.is_at_most_zero timeout_ms then none else some timeout_ms

abbrev pub or_else : {A : Type 0} → Option A → A → A
or_else none a = a
or_else (some b) a = b

abbrev pub resolve : {E : Type 0} → SessionOption E → Result E (WebTransportSession E)
resolve (session_value session) = ok session
resolve (session_factory result) = result

pub record UnaryResponse (Headers Answer : Type 0) : Type 0 where
  pub header : Headers
  pub message : Answer
  pub trailer : Headers

-- The headers, and what the consumer of the messages gets.
pub record StreamResponse (E Headers Answer : Type 0) : Type 0 where
  pub header : Headers
  pub body : Outcome E Headers Answer

-- The generator over the request's messages.
unfoldable pub serialize_all :
    {E Message : Type 0} → (Message → Result E (List ℕ)) → Source E Message → Source E (List ℕ)
serialize_all serialize done = done
serialize_all serialize (fails e) = fails e
serialize_all serialize (next msg rest) = elim (serialize msg) [
  | throws e ↦ fails e
  | ok bytes ↦ next bytes (serialize_all serialize rest)
]

abbrev pub path_of : {E : Type 0} → MethodApi E → String
path_of M = String.◌++◌ "/" (String.◌++◌ M.type_name (String.◌++◌ "/" M.name))

module _ (H : HeadersApi) (J : JsonApi) (C : ConnectApi H.Headers) (A : ClientApi H.Headers C.Error)
    -- The texts of the protocol errors, as for the loops
    (describe : ℕ → String) (add_metadata : C.Error → List (String × String) → C.Error)
    (end_stream_from_json : List ℕ → Result C.Error (Option C.Error × List (String × String)))
    (options : ConnectWebTransportTransportOptions A) (M : MethodApi C.Error)
    -- How many envelopes are read before a write that fails overtakes the reading
    (overtaken : Option ℕ) where
  open H use {Headers, empty}
  open C use {Error}
  open M use {Message, Answer}

  abbrev pub binary : Bool
  binary = or_else options.use_binary_format false

  -- `request_of` is the part of the request that unary and streaming calls share.
  abbrev pub request_of :
      {Body : Type 0} → Bool → CallArguments A Body → Request Headers A.Context Body
  request_of is_stream arguments = record {
    is_stream = is_stream;
    request_method = "POST";
    url = A.create_method_url options.base_url M.type_name M.name;
    header =
        A.request_header M.kind binary
          (normalize_timeout A options.default_timeout_ms arguments.timeout_ms) arguments.header
          false;
    context_values = or_else arguments.context_values A.create_context_values;
    message = arguments.body;
  }

  abbrev pub run_options_of : {Body : Type 0} → CallArguments A Body → RunOptions A
  run_options_of arguments = record {
    interceptors = options.interceptors;
    signal = arguments.signal;
    timeout_ms = normalize_timeout A options.default_timeout_ms arguments.timeout_ms;
  }

  -- The session, once it is ready.
  unfoldable pub ready_session : Result Error (WebTransportSession Error)
  ready_session = do session ← resolve options.session; ready ← session.ready; ok session

  -- `next` of `unary` after its `runWebTransportCall`.
  unfoldable pub unary_answer :
      Call H J C describe (Headers × Source Error EnvelopedMessage)
      → Call H J C describe (UnaryResponse Headers Answer)
  unary_answer (throws e, frames) = (throws e, frames)
  unary_answer (ok (response_headers, messages), frames) = (
    read_unary H C describe add_metadata end_stream_from_json response_headers none false empty
          messages
        >>= λ read. M.parse binary read.0 >>= λ message.
            ok (record { header = response_headers; message = message; trailer = read.1 }),
    frames,
  )

  unary_on :
      Request Headers A.Context Message
      → Result Error (WebTransportSession Error × List ℕ)
      → Call H J C describe (UnaryResponse Headers Answer)
  unary_on req (throws e) = (throws e, [])
  unary_on req (ok (session, bytes)) = unary_answer (
      run_web_transport_call H J C describe session req.header (next bytes done)
        flag_envelope_headers flag_envelope_data (path_of M) overtaken)

  -- `next` of `unary`
  unfoldable pub unary_next :
      Request Headers A.Context Message → Call H J C describe (UnaryResponse Headers Answer)
  unfolding unary_on
  unary_next req =
      unary_on req (
        ready_session >>= λ session.
        M.serialize binary req.message >>= λ bytes. ok (session, bytes))

  -- `next` of `stream` after its `runWebTransportCall`, and the run of its generator.
  unfoldable pub stream_answer :
      Call H J C describe (Headers × Source Error EnvelopedMessage)
      → Call H J C describe (StreamResponse Error Headers Answer)
  stream_answer (throws e, frames) = (throws e, frames)
  stream_answer (ok (response_headers, messages), frames) = (
    ok (record {
      header = response_headers;
      body =
          parse_response_body H C describe add_metadata end_stream_from_json response_headers
            (M.parse binary) [] false empty messages;
    }),
    frames,
  )

  stream_on :
      Request Headers A.Context (Source Error Message)
      → Result Error (WebTransportSession Error)
      → Call H J C describe (StreamResponse Error Headers Answer)
  stream_on req (throws e) = (throws e, [])
  stream_on req (ok session) = stream_answer (
      run_web_transport_call H J C describe session req.header
        (serialize_all (M.serialize binary) req.message) flag_envelope_headers flag_envelope_data
        (path_of M) overtaken)

  -- `next` of `stream`
  unfoldable pub stream_next :
      Request Headers A.Context (Source Error Message)
      → Call H J C describe (StreamResponse Error Headers Answer)
  unfolding stream_on
  stream_next req = stream_on req ready_session

  module _  -- `runUnaryCall` and `runStreamingCall`
      (run_unary_call : RunOptions A
        → Request Headers A.Context Message
        → (Request Headers A.Context Message → Call H J C describe (UnaryResponse Headers Answer))
        → Call H J C describe (UnaryResponse Headers Answer))
      (run_streaming_call : RunOptions A
        → Request Headers A.Context (Source Error Message)
        → (Request Headers A.Context (Source Error Message)
            → Call H J C describe (StreamResponse Error Headers Answer))
        → Call H J C describe (StreamResponse Error Headers Answer)) where
    unfoldable pub unary :
        CallArguments A Message → Call H J C describe (UnaryResponse Headers Answer)
    unary arguments =
        run_unary_call (run_options_of arguments) (request_of false arguments) unary_next

    unfoldable pub stream :
        CallArguments A (Source Error Message)
        → Call H J C describe (StreamResponse Error Headers Answer)
    stream arguments =
        run_streaming_call (run_options_of arguments) (request_of true arguments) stream_next
