-- ===== src/Transport.antt =====
-- The transports that stand in front of others: ts/packages/web/src/composite-transport.ts and
-- demo/web/src/demo/swappable-transport.ts. A promise is a value that they pass on.
pub mod Delegation
use connect_bidi_web.Common.{Option, List, [], ◌∷◌, ◌++◌}

-- The arguments of a call, over the types of the method, the signal, the timeout, the headers and the
-- context values; `Body` is the message or the iterable of messages.
pub record Arguments (Method Signal Time Init Context Body : Type 0) : Type 0 where
  pub method : Method
  pub signal : Option Signal
  pub timeout_ms : Option Time
  pub header : Option Init
  pub body : Body
  pub context_values : Option Context

-- `Transport`, by what its two methods take and return.
pub record Transport (UnaryCall StreamCall UnaryPromise StreamPromise : Type 0) : Type 0 where
  pub unary : UnaryCall → UnaryPromise
  pub stream : StreamCall → StreamPromise

-- The types of what a call takes and returns.
pub record CallTypes : Type 1 where
  pub Method : Type 0
  pub Signal : Type 0
  pub Time : Type 0
  pub Init : Type 0
  pub Context : Type 0
  pub Message : Type 0
  pub Messages : Type 0
  pub UnaryPromise : Type 0
  pub StreamPromise : Type 0

module _ (T : CallTypes) where
  open T use {Method, Signal, Time, Init, Context, Message, Messages, UnaryPromise, StreamPromise}

  abbrev pub UnaryArguments : Type 0
  UnaryArguments = Arguments Method Signal Time Init Context Message

  abbrev pub StreamArguments : Type 0
  StreamArguments = Arguments Method Signal Time Init Context Messages

  abbrev pub AnyTransport : Type 0
  AnyTransport = Transport UnaryArguments StreamArguments UnaryPromise StreamPromise

  unfoldable pub create_composite_transport : AnyTransport → AnyTransport → AnyTransport
  create_composite_transport unary_transport streaming_transport = record {
    unary = λ call. unary_transport.unary (record {
      method = call.method;
      signal = call.signal;
      timeout_ms = call.timeout_ms;
      header = call.header;
      body = call.body;
      context_values = call.context_values;
    });
    stream = λ call. streaming_transport.stream (record {
      method = call.method;
      signal = call.signal;
      timeout_ms = call.timeout_ms;
      header = call.header;
      body = call.body;
      context_values = call.context_values;
    });
  }

  unfoldable pub create_auto_transport : AnyTransport → AnyTransport → AnyTransport
  create_auto_transport unary_transport streaming_transport =
      create_composite_transport unary_transport streaming_transport

  pub record SwappableTransport : Type 0 where
    pub current : AnyTransport

  abbrev pub construct : AnyTransport → SwappableTransport
  construct initial = record { current = initial }

  unfoldable pub swap : SwappableTransport → AnyTransport → SwappableTransport
  swap t next = record t { current = next }

  unfoldable pub unary : SwappableTransport → UnaryArguments → UnaryPromise
  unary t call = t.current.unary call

  unfoldable pub stream : SwappableTransport → StreamArguments → StreamPromise
  stream t call = t.current.stream call

  -- What users of one swappable transport do.
  pub data Use : Type 0 where
    swaps : AnyTransport → Use
    calls_unary : UnaryArguments → Use
    calls_stream : StreamArguments → Use

  pub data Promise : Type 0 where
    of_unary : UnaryPromise → Promise
    of_stream : StreamPromise → Promise

  -- The promises of the calls, in order.
  unfoldable pub run : SwappableTransport → List Use → List Promise
  run t [] = []
  run t (swaps next ∷ uses) = run (swap t next) uses
  run t (calls_unary call ∷ uses) = of_unary (unary t call) ∷ run t uses
  run t (calls_stream call ∷ uses) = of_stream (stream t call) ∷ run t uses
