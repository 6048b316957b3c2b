-- ===== src/Lib.antt =====
-- connect-bidi-web: Connect RPC, bidirectional streams included, over WebSocket and WebTransport.
--
-- This library models the TypeScript packages of the protocol. A WebSocket connection carries any
-- number of streams: each message is a 4-byte stream ID and one envelope (a flag, a 4-byte length
-- and a payload). The first envelope of a stream carries the headers as JSON text with the path as a
-- pseudo-header; data envelopes and the end of the stream follow; a reset aborts one stream.
--
-- Files, and the code of the repository that they are about:
--   Common         what the modules share: lists, tests, maps by number and by text
--   Platform       streams with their controllers, and the errors that the program makes
--   Web            exceptions, JSON values; `Headers` and `JSON` as parameters
--   Connect        the functions and shapes of the package @connectrpc/connect, as parameters
--   Wire           ts/packages/core/src/wire.ts: encodeStreamFrame, decodeStreamFrame, concatBytes
--   HeadersFrame   ts/packages/core/src/headers-frame.ts: encodeHeadersFrame, decodeHeadersFrame;
--                  HeadersFrame.Browser is the browser package's copy of that file,
--                  ts/packages/web/src/headers-frame.ts
--   Bidi           ts/packages/core/src/handle-bidi-socket.ts: handleBidiSocket and its helpers, as
--                  scripts of writes (Bidi.Writing) that may throw; Bidi.Signal is the signal
--                  that the handler gets
--   Mux            ts/packages/core/src/handle-muxed-bidi-socket.ts: handleMuxedBidiSocket as a step
--                  function on a state (Mux.State) and the events of the peer, the timer, the
--                  caller's signal and the streams' tasks
--   WebSocketMux   ts/packages/web/src/connect-websocket-transport.ts: the class WebSocketMux as a
--                  step function on a state (WebSocketMux.State) and the events of sockets, streams
--                  and callers
--   Rpc            the client of WebTransport.Transport and the server of Bidi together
--   Connection     Mux and WebSocketMux as the two ends of one connection
--   ClientCall     ts/packages/web/src/webtransport-helper.ts: runWebTransportCall, whole in
--                  ClientCall.Session; and the loop over the response in the stream method of
--                  connect-websocket-transport.ts
--   WebTransport   ts/packages/web/src/connect-webtransport-transport.ts: the loops over a response;
--                  WebTransport.Transport has the methods unary and stream with their options
--   WebSocketTransport  ts/packages/web/src/connect-websocket-transport.ts: the transport over
--                  WebSocketMux; WebSocketTransport.Call has its methods
--   Transport      ts/packages/web/src/composite-transport.ts and
--                  demo/web/src/demo/swappable-transport.ts
--   WebsocketDuplex  ts/packages/node/src/websocket-duplex.ts; WebsocketDuplex.Writable is the
--                  writable side
--   WebsocketLike  ts/packages/cloudflare/src/websocket-like.ts; WebsocketLike.Writable is the
--                  writable side
--   NodeHandler    ts/packages/node/src/create-bidi-websocket-handler.ts
--   CloudflareHandler  ts/packages/cloudflare/src/bidi-websocket-handler.ts
--   DemoWorker     demo/worker/src/worker.ts: the Eliza service and the routes
--   DemoTransport  demo/web/src/demo/transport.ts and demo/web/src/demo/webtransport-support.ts
--   DemoStreams    demo/web/src/demo/streams-view.ts: the lanes, their runs and the toggle
--   Tests          the theorems at concrete inputs
--
-- A stream of `Mux` runs handleBidiSocket beside the others; there it is any sequence of reads,
-- writes, a close and a settlement, so that what is said of a connection holds for every handler.
-- `Bidi` is the same RPC alone, with all of its writes. Objects that are shared (the stream entries,
-- the sockets) stand in lists, the heap, and tables hold their numbers.
--
-- No fuel is used: all loops are over lists or over the items of a source. A byte is a number below
-- 256; the encoder of 4-byte numbers wraps at 2 ^ 32, and bounds are conditions where they matter.
-- JavaScript numbers that only count (the next stream ID) do not wrap here.
--
-- A call of a client is modelled in one piece: `overtaken` says when a write that fails is noticed by
-- the reader, and over a WebSocket `later` is what happens on the connection until the call is over;
-- the response is then what those events left in the readable of the call's stream.
-- Timeouts are numbers of a type that is a parameter, with the test `x <= 0`: NaN and fractions are
-- among them.
--
-- Not modelled: the interceptors, signals and timers that runUnaryCall and runStreamingCall of
-- @connectrpc/connect handle (these functions are parameters), a request whose writing never settles,
-- what a handler does when its signal is aborted, the page elements of the demo and its other views,
-- generated code, and the implementation in Go.
pub mod Common
pub mod Platform
pub mod Web
pub mod Wire
pub mod Transport
pub mod Connect
pub mod HeadersFrame
pub mod Bidi
pub mod Mux
pub mod WebSocketMux
pub mod WebsocketDuplex
pub mod WebsocketLike
pub mod ClientCall
pub mod WebTransport
pub mod WebSocketTransport
pub mod NodeHandler
pub mod CloudflareHandler
pub mod DemoWorker
pub mod DemoStreams
pub mod DemoTransport
pub mod Connection
pub mod Rpc
pub mod Tests
