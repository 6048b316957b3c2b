-- ===== src/WebSocketMux/State.antt =====
-- The state of a `WebSocketMux` of ts/packages/web/src/connect-websocket-transport.ts and what its
-- sockets do to it: `open` and the socket's callbacks but `onmessage`, `failAll`, and `openStream`
-- after its `await`.
use connect_bidi_web.Common.{
  ℕ, ◌+◌, String, Bool, true, false, Option, none, some, List, [], ◌∷◌, ◌++◌, length, get_elem?,
  modify, replicate, ◌==◌, if◌then◌else◌,
}
use Prim.Native.String
use text.Mathlib.Text.{◌==◌ as str_eq}
use connect_bidi_web.Common.IdMap
use connect_bidi_web.Platform.{unavailable, ConnectError, Channel, opened, error}
use connect_bidi_web.Wire.{stream_id_length}
use connect_bidi_web.Wire.Bytes.{write_at, set_uint32}

-- `WebSocket.readyState`
pub data ReadyState : Type 0 where
  connecting ready_open closing closed : ReadyState

-- A `WebSocket` object: what it was given to send, and the codes of the calls of its `close`.
pub record Socket : Type 0 where
  pub ready_state : ReadyState
  pub sent : List (List ℕ)
  pub closes : List ℕ

pub record MuxStreamEntry : Type 0 where
  -- Variables of `openStream` that the writable keeps.
  pub stream_id : ℕ
  pub socket : ℕ
  pub controller : Channel ConnectError
  pub end_seen : Bool

pub record WebSocketMux : Type 0 where
  pub close_when_idle : Bool
  -- Every socket ever made, and every entry: the heap.
  pub sockets : List Socket
  pub streams : List MuxStreamEntry
  -- The current socket, and the one that `opening` waits for.
  pub socket : Option ℕ
  pub opening : Option ℕ
  pub next_stream_id : ℕ
  -- The entry of each stream ID.
  pub entries : List (ℕ × ℕ)

abbrev pub construct : Bool → WebSocketMux
construct close_when_idle = record {
  close_when_idle = close_when_idle;
  sockets = [];
  streams = [];
  socket = none;
  opening = none;
  next_stream_id = 1;
  entries = [];
}

-- `prefixStreamId`
unfoldable pub prefix_stream_id : ℕ → List ℕ → List ℕ
prefix_stream_id stream_id envelope =
    let frame = replicate (stream_id_length + length envelope) 0 in
    write_at (set_uint32 frame 0 stream_id) stream_id_length envelope

abbrev pub is_open : ReadyState → Bool
is_open ready_open = true
is_open _ = false

-- `socket.send` keeps a message while the socket is open and drops it after that. Nothing sends on
-- a socket that is still connecting.
unfoldable pub send : List ℕ → Socket → Socket
send message s = if is_open s.ready_state then record s { sent = s.sent ++ message ∷ [] } else s

-- `socket.close(1000)`
close_state : ReadyState → ReadyState
close_state closed = closed
close_state _ = closing

unfoldable pub close_socket : Socket → Socket
unfolding close_state
close_socket s = record s {
  ready_state = close_state s.ready_state;
  closes = s.closes ++ 1000 ∷ [];
}

-- Whether a socket of the heap is open.
unfoldable pub open_in : Option Socket → Bool
open_in none = false
open_in (some s) = is_open s.ready_state

-- The current socket, if it is open.
unfoldable pub current_in : WebSocketMux → Option ℕ → Option ℕ
current_in m none = none
current_in m (some k) = if open_in (get_elem? m.sockets k) then some k else none

unfoldable pub current : WebSocketMux → Option ℕ
unfolding current_in open_in
current m = current_in m m.socket

-- `open()` where the socket is not open: the promise `opening`, made where there is none. It is
-- identified with the socket that it waits for.
unfoldable pub dial_in : WebSocketMux → Option ℕ → WebSocketMux × ℕ
dial_in m (some k) = (m, k)
dial_in m none = (
  record m {
    sockets = m.sockets ++ (record { ready_state = connecting; sent = []; closes = [] }) ∷ [];
    opening = some (length m.sockets);
  },
  length m.sockets,
)

-- The socket that `open()` resolves to, at once or later.
unfoldable pub open_with : WebSocketMux → Option ℕ → WebSocketMux × ℕ
open_with m (some k) = (m, k)
open_with m none = dial_in m m.opening

unfoldable pub dial : WebSocketMux → WebSocketMux × ℕ
unfolding open_with dial_in
dial m = open_with m (current m)

-- `failAll`: each entry's controller is errored, which never throws.
unfoldable pub fail_entries : ConnectError → List ℕ → List MuxStreamEntry → List MuxStreamEntry
fail_entries reason [] streams = streams
fail_entries reason (r ∷ rs) streams =
    fail_entries reason rs
      (modify streams r (λ entry. record entry { controller = error entry.controller reason }))

unfoldable pub fail_all : WebSocketMux → ConnectError → WebSocketMux
unfolding fail_entries
fail_all m reason = record m {
  streams = fail_entries reason (IdMap.values m.entries) m.streams;
  entries = [];
}

-- `socket.onopen` of socket `k`
unfoldable pub on_open : WebSocketMux → ℕ → WebSocketMux
on_open m k = record m {
  sockets = modify m.sockets k (λ s. record s { ready_state = ready_open });
  opening = none;
  socket = some k;
}

-- `socket.onerror`
unfoldable pub on_error : WebSocketMux → WebSocketMux
on_error m = record m { opening = none }

-- `if (this.socket === socket) this.socket = undefined`
abbrev pub forget : Option ℕ → ℕ → Option ℕ
forget none k = none
forget (some j) k = if j == k then none else some j

abbrev pub closed_error : String → ConnectError
closed_error reason = record {
  message =
      if str_eq reason "" then "WebSocket closed" else String.◌++◌ "WebSocket closed: " reason;
  code = unavailable;
}

-- `socket.onclose` of socket `k`
unfoldable pub on_close : WebSocketMux → ℕ → String → WebSocketMux
unfolding fail_all
on_close m k reason =
    fail_all
      (record m {
        sockets = modify m.sockets k (λ s. record s { ready_state = closed });
        opening = none;
        socket = forget m.socket k;
      })
      (closed_error reason)

-- `openStream` after its `await`: the state, and the number of the new entry.
unfoldable pub open_stream : WebSocketMux → ℕ → WebSocketMux × ℕ
open_stream m k = (
  record m {
    streams =
        m.streams
        ++ (record {
          stream_id = m.next_stream_id;
          socket = k;
          controller = opened;
          end_seen = false;
        })
          ∷ [];
    next_stream_id = m.next_stream_id + 1;
    entries = IdMap.put m.entries m.next_stream_id (length m.streams);
  },
  length m.streams,
)
