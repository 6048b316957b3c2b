-- ===== src/WebsocketDuplex.antt =====
-- ts/packages/node/src/websocket-duplex.ts: the adapter for the package ws. A listener that throws
-- gives `none`.
pub mod Listeners
pub mod Writable
use connect_bidi_web.Common.{
  ℕ, ◌≡◌, ◌≢◌, refl, ◌∙◌, ap, sym, Bool, true, false, Option, none, some, List, [], ◌∷◌, ◌++◌,
  length, replicate, concat, if◌then◌else◌,
}
use connect_bidi_web.Platform.{
  Channel, StreamState, readable, closing, closed, errored, opened, enqueue, close, error, cancel,
  read,
}
use connect_bidi_web.Wire.{total_length, copy_chunks}

-- `RawData` of the package ws.
pub data RawData : Type 0 where
  fragments : List (List ℕ) → RawData
  array_buffer buffer : List ℕ → RawData

-- What the readable side is errored with: a text frame, or an error of the package.
pub data Failure : Type 0 where
  text_frame : Failure
  socket_error : ℕ → Failure

unfoldable pub to_uint8_array : RawData → List ℕ
to_uint8_array (fragments data') = copy_chunks (replicate (total_length 0 data') 0) 0 data'
to_uint8_array (array_buffer bytes) = bytes
to_uint8_array (buffer bytes) = bytes

-- The readable side, and the codes of the calls of `ws.close`.
pub record Duplex : Type 0 where
  pub controller : Channel Failure
  pub closes : List ℕ

abbrev pub started : Duplex
started = record { controller = opened; closes = [] }

-- A call of the controller that may throw.
with_controller : Duplex → Option (Channel Failure) → Option Duplex
with_controller d none = none
with_controller d (some c) = some (record d { controller = c })

unfoldable pub on_message : Duplex → RawData → Bool → Option Duplex
unfolding with_controller
on_message d data' is_binary =
    if is_binary
    then with_controller d (enqueue d.controller (to_uint8_array data'))
    else some (record d { controller = error d.controller text_frame })

unfoldable pub on_close : Duplex → Option Duplex
unfolding with_controller
on_close d = with_controller d (close d.controller)

unfoldable pub on_error : Duplex → ℕ → Option Duplex
on_error d err = some (record d { controller = error d.controller (socket_error err) })

cancel_in : StreamState Failure → Duplex → Duplex
cancel_in closed d = d
cancel_in (errored e) d = d
cancel_in _ d = record d { controller = cancel d.controller; closes = d.closes ++ 1000 ∷ [] }

-- The consumer cancels the stream: the callback runs unless the stream has ended.
unfoldable pub consumer_cancels : Duplex → Duplex
unfolding cancel_in
consumer_cancels d = cancel_in d.controller.state d

-- Some binary messages, one after the other.
unfoldable pub receive_all : List RawData → Duplex → Option Duplex
receive_all [] d = some d
receive_all (data' ∷ rest) d = elim (on_message d data' true) [
  | none ↦ none
  | some t ↦ receive_all rest t
]

-- The events that end the readable side before the socket closes: an error of the socket, a text
-- frame, or the consumer's cancel.
pub data Ends : Duplex → Duplex → Type 0 where
  by_error : (d : Duplex) (err : ℕ) (t : Duplex) → on_error d err ≡ some t → Ends d t
  by_text :
      (d : Duplex) (data' : RawData) (t : Duplex) → on_message d data' false ≡ some t → Ends d t
  by_cancel : (d : Duplex) → Ends d (consumer_cancels d)
