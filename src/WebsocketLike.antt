-- ===== src/WebsocketLike.antt =====
-- ts/packages/cloudflare/src/websocket-like.ts: the adapter for the sockets of Workers. A listener
-- that throws gives `none`.
pub mod Listeners
pub mod Writable
use connect_bidi_web.Common.{
  ℕ, String, Bool, true, false, Option, none, some, List, [], ◌∷◌, ◌++◌, if◌then◌else◌,
}
use connect_bidi_web.Platform.{
  Channel, StreamState, readable, closing, closed, errored, opened, enqueue, close, error, cancel,
  read,
}

-- The data of a message event.
pub data MessageData : Type 0 where
  text_data : String → MessageData
  array_buffer view : List ℕ → MessageData
  unsupported : MessageData

-- What the readable side is errored with.
pub data Failure : Type 0 where
  unsupported_type enqueue_failed web_socket_error : Failure

pub record Wrapped : Type 0 where
  pub controller : Channel Failure
  pub ended : Bool
  -- The codes of the calls of `socket.close`.
  pub closes : List ℕ

abbrev pub wrapped : Wrapped
wrapped = record { controller = opened; ended = false; closes = [] }

-- `closeQuietly` with code 1000.
unfoldable pub close_quietly : Wrapped → Wrapped
close_quietly w = record w { closes = w.closes ++ 1000 ∷ [] }

unfoldable pub fail_with : Wrapped → Failure → Wrapped
fail_with w failure = record w { ended = true; controller = error w.controller failure }

module _  -- `new TextEncoder().encode`
    (encode : String → List ℕ) where
  -- `none` is the error "unsupported WebSocket message data type".
  unfoldable pub to_bytes : MessageData → Option (List ℕ)
  to_bytes (text_data s) = some (encode s)
  to_bytes (array_buffer bytes) = some bytes
  to_bytes (view bytes) = some bytes
  to_bytes unsupported = none

  -- The `try` of the message listener.
  try_enqueue : Wrapped → Option (List ℕ) → Wrapped
  try_enqueue w none = fail_with w unsupported_type
  try_enqueue w (some bytes) = elim (enqueue w.controller bytes) [
    | none ↦ fail_with w enqueue_failed
    | some c ↦ record w { controller = c }
  ]

  unfoldable pub on_message : Wrapped → MessageData → Option Wrapped
  unfolding try_enqueue
  on_message w data' = some (if w.ended then w else try_enqueue w (to_bytes data'))

  -- `ended = true; controller.close()`
  close_now : Wrapped → Option (Channel Failure) → Option Wrapped
  close_now w none = none
  close_now w (some c) = some (record w { ended = true; controller = c })

  unfoldable pub on_close : Wrapped → Option Wrapped
  unfolding close_now
  on_close w = if w.ended then some w else close_now w (close w.controller)

  unfoldable pub on_error : Wrapped → Option Wrapped
  on_error w = some (if w.ended then w else fail_with w web_socket_error)

  cancel_in : StreamState Failure → Wrapped → Wrapped
  cancel_in closed w = w
  cancel_in (errored e) w = w
  cancel_in _ w = close_quietly (record w { ended = true; controller = cancel w.controller })

  -- The consumer cancels the stream: the callback runs unless the stream has ended.
  unfoldable pub consumer_cancels : Wrapped → Wrapped
  unfolding cancel_in
  consumer_cancels w = cancel_in w.controller.state w

  pub data Event : Type 0 where
    message : MessageData → Event
    closes failed : Event
    reads cancels : Event

  unfoldable pub step : Wrapped → Event → Option Wrapped
  step w (message data') = on_message w data'
  step w closes = on_close w
  step w failed = on_error w
  step w reads = some (record w { controller = read w.controller })
  step w cancels = some (consumer_cancels w)

  -- The first exception of a listener ends the run.
  unfoldable pub run : Wrapped → List Event → Option Wrapped
  run w [] = some w
  run w (e ∷ es) = elim (step w e) [ none ↦ none | some w' ↦ run w' es ]
