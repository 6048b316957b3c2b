-- ===== src/WebSocketMux.antt =====
-- The class `WebSocketMux` of ts/packages/web/src/connect-websocket-transport.ts: the client's end of
-- a multiplexed WebSocket. Each callback, and each run of an async method between two `await`s, is
-- one function on the state.
pub mod State
pub mod Tables
pub mod Ledgers
pub mod Ids
pub mod Routing
pub mod Closing
pub mod Arrivals
use connect_bidi_web.Common.{
  ℕ, ◌+◌, String, Bool, true, false, ◌&&◌, Option, none, some, List, [], ◌∷◌, length, get_elem?,
  modify, drop, ltb, ◌==◌, if◌then◌else◌,
}
use connect_bidi_web.Common.IdMap
use connect_bidi_web.Platform.{
  canceled, unavailable, ConnectError, enqueue, close as close_controller, error, read, cancel,
}
use connect_bidi_web.Wire.{flag_envelope_reset, stream_id_length}
use connect_bidi_web.Wire.Bytes.{get_uint32, get_uint8}
pub use State.{
  ReadyState, Socket, MuxStreamEntry, WebSocketMux, construct, is_open, forget, closed_error,
  connecting, ready_open, closing, closed,
}
unfoldable pub use State.{
  prefix_stream_id, send, close_socket, open_in, current_in, current, dial_in, open_with, dial,
  fail_entries, fail_all, on_open, on_error, on_close, open_stream,
}

-- The last line of `route`: where `enqueue` throws, the exception leaves the message handler.
enqueue_frame : MuxStreamEntry → List ℕ → MuxStreamEntry
enqueue_frame entry envelope = elim (enqueue entry.controller envelope) [
  | none ↦ entry
  | some controller ↦ record entry { controller = controller }
]

abbrev pub reset_by_server : ConnectError
reset_by_server = record { message = "stream reset by server"; code = canceled }

abbrev is_empty : {A : Type 0} → List A → Bool
is_empty [] = true
is_empty (a ∷ as') = false

module _
    -- `encodeEnvelope` and `endStreamFlag`
    (encode_envelope : ℕ → List ℕ → List ℕ) (end_stream_flag : ℕ) where
  -- What a message with this flag does to the entry of its stream, but for a reset.
  unfoldable pub take_frame : ℕ → List ℕ → MuxStreamEntry → MuxStreamEntry
  unfolding enqueue_frame
  take_frame flag envelope entry =
      enqueue_frame (if flag == end_stream_flag then record entry { end_seen = true } else entry)
        envelope

  -- `route` from `entries.get(streamId)` on, by what that returns.
  route_to : WebSocketMux → List ℕ → Option ℕ → WebSocketMux
  route_to m message none = m
  route_to m message (some r) =
      if get_uint8 message stream_id_length == flag_envelope_reset
      then record m {
        entries = IdMap.delete m.entries (get_uint32 message 0);
        streams =
            modify m.streams r
              (λ entry. record entry { controller = error entry.controller reset_by_server });
      }
      else record m {
        streams =
            modify m.streams r
              (take_frame (get_uint8 message stream_id_length) (drop stream_id_length message));
      }

  -- `socket.onmessage` of any socket.
  unfoldable pub route : WebSocketMux → List ℕ → WebSocketMux
  unfolding route_to
  route m message =
      if ltb (length message) (stream_id_length + 1)
      then m
      else route_to m message (IdMap.get m.entries (get_uint32 message 0))

  send_on : WebSocketMux → Option ℕ → List ℕ → WebSocketMux
  send_on m none message = m
  send_on m (some k) message = record m { sockets = modify m.sockets k (send message) }

  -- `try { entry.controller.close() } catch {}`
  unfoldable pub close_quietly : MuxStreamEntry → MuxStreamEntry
  close_quietly entry = elim (close_controller entry.controller) [
    | none ↦ entry
    | some controller ↦ record entry { controller = controller }
  ]

  idle_close_of : WebSocketMux → Option ℕ → WebSocketMux
  idle_close_of m none = m
  idle_close_of m (some k) = record m { sockets = modify m.sockets k close_socket; socket = none }

  -- The last `if` of `closeStream`.
  unfoldable pub close_if_idle : WebSocketMux → WebSocketMux
  unfolding idle_close_of
  close_if_idle m = if m.close_when_idle && is_empty m.entries then idle_close_of m m.socket else m

  -- The reset frame of `closeStream`.
  unfoldable pub send_reset : WebSocketMux → ℕ → MuxStreamEntry → WebSocketMux
  unfolding send_on
  send_reset m stream_id entry =
      if entry.end_seen
      then m
      else send_on m (current m)
          (prefix_stream_id stream_id (encode_envelope flag_envelope_reset []))

  -- `closeStream` for the entry that is found, which no longer is in `entries`.
  unfoldable pub close_entry : WebSocketMux → ℕ → ℕ → Option MuxStreamEntry → WebSocketMux
  close_entry m stream_id r none = m
  close_entry m stream_id r (some entry) =
      let sent = send_reset m stream_id entry in
      close_if_idle (record sent { streams = modify sent.streams r close_quietly })

  close_found : WebSocketMux → ℕ → Option ℕ → WebSocketMux
  close_found m stream_id none = m
  close_found m stream_id (some r) =
      close_entry (record m { entries = IdMap.delete m.entries stream_id }) stream_id r
        (get_elem? m.streams r)

  unfoldable pub close_stream : WebSocketMux → ℕ → WebSocketMux
  unfolding close_found close_entry
  close_stream m stream_id = close_found m stream_id (IdMap.get m.entries stream_id)

  -- `close` after it has taken the socket.
  unfoldable pub close_taken : WebSocketMux → Option ℕ → WebSocketMux
  close_taken m none = m
  close_taken m (some k) = record m { sockets = modify m.sockets k close_socket }

  unfoldable pub close : WebSocketMux → WebSocketMux
  unfolding close_taken
  close m =
      close_taken
        (fail_all (record m { socket = none })
          (record { message = "WebSocket closed"; code = unavailable }))
        m.socket

  unfoldable pub send_from : WebSocketMux → Option MuxStreamEntry → List ℕ → WebSocketMux
  send_from m none chunk = m
  send_from m (some entry) chunk = record m {
    sockets = modify m.sockets entry.socket (send (prefix_stream_id entry.stream_id chunk));
  }

  -- `write` of the writable of entry `r`, on the socket that the stream was opened on.
  unfoldable pub write_chunk : WebSocketMux → ℕ → List ℕ → WebSocketMux
  unfolding send_from
  write_chunk m r chunk = send_from m (get_elem? m.streams r) chunk

  -- `close` of the writable: the half-close.
  unfoldable pub half_close : WebSocketMux → ℕ → WebSocketMux
  half_close m r = write_chunk m r (encode_envelope end_stream_flag [])

  -- What the server, the network and the RPCs do. `aborts` is `abort` of a writable, `reads` and
  -- `cancels` are the consumer's calls on a readable.
  pub data Event : Type 0 where
    dials : Event
    opens : ℕ → Event
    fails : Event
    is_closed : ℕ → String → Event
    message : List ℕ → Event
    starts : ℕ → Event
    writes : ℕ → List ℕ → Event
    half_closes reads cancels : ℕ → Event
    releases : ℕ → Event
    closes_all : Event

  unfoldable pub step : WebSocketMux → Event → WebSocketMux
  step m dials = (dial m).0
  step m (opens k) = on_open m k
  step m fails = on_error m
  step m (is_closed k reason) = on_close m k reason
  step m (message bytes) = route m bytes
  step m (starts k) = (open_stream m k).0
  step m (writes r chunk) = write_chunk m r chunk
  step m (half_closes r) = half_close m r
  step m (reads r) = record m {
    streams = modify m.streams r (λ entry. record entry { controller = read entry.controller });
  }
  step m (cancels r) = record m {
    streams = modify m.streams r (λ entry. record entry { controller = cancel entry.controller });
  }
  step m (releases stream_id) = close_stream m stream_id
  step m closes_all = close m

  unfoldable pub run : WebSocketMux → List Event → WebSocketMux
  run m [] = m
  run m (e ∷ es) = run (step m e) es
